-- ===== src/Network/Joining.antt =====
-- `AbstractNode::joinThread`, of one node and of the nodes of a map.
use cn_project.Base.{
  Bool, Option, [], ap, arith, false, if◌then◌else◌, inl, inr, length, none, refl, some, sym, true,
  ◌<◌, ◌||◌, ◌∙◌, ◌∷◌, ◌≡◌, ◌⊎◌,
}
use cn_project.Base.Dict.{AllEntries, Dict}
use cn_project.Base.Traverse.{try_values, try_values-none, try_values_all, try_values_succeeds}
use mathlib.Core.Option.{none-ne-some, some-injective}
use cn_project.Tcp.{Env, ◌>>=◌}
use cn_project.Nodes.Queue.{MessageQueue}
use cn_project.Nodes.Node.{AbstractNode, join_thread}
use cn_project.Nodes.Router.{Router, RouterEnv}
use cn_project.Nodes.Interface.{NodeInterface}
use cn_project.Network.Running.{any_joinable, as_host, as_router, run}
use cn_project.Nodes.Host.{Host}
use cn_project.Network.{Network}

pub both_none :
    {A B C : Type 0} (o : Option A) (p : Option B) (f : A → B → C)
    → (o ≡ none) ⊎ (p ≡ none)
    → (o >>= λ a. p >>= λ b. some (f a b)) ≡ none
both_none none p f h = refl
both_none (some a) none f h = refl
both_none (some a) (some b) f (inl e) = absurd (none-ne-some a (sym e))
both_none (some a) (some b) f (inr e) = absurd (none-ne-some b (sym e))

pub or_parts : (a b : Bool) → (a || b) ≡ false → (a ≡ false) × (b ≡ false)
or_parts true true e = absurd (ground (arith, e))
or_parts true false e = absurd (ground (arith, e))
or_parts false b e = (refl, e)

pub or_either : (a b : Bool) → (a ≡ true) ⊎ (b ≡ true) → (a || b) ≡ true
or_either true b h = refl
or_either false b (inl e) = absurd (ground (arith, e))
or_either false b (inr e) = e

module _ {Q : Type 0} where
  -- A thread that was started and has not ended, and one that has ended and was not joined.
  abbrev pub IsUp : AbstractNode Q → Type 0
  IsUp x = (x.is_joinable ≡ true) × (x.is_running ≡ true)

  abbrev pub IsEnded : AbstractNode Q → Type 0
  IsEnded x = (x.is_joinable ≡ true) × (x.is_running ≡ false)

  -- `join` throws an exception, waits, or returns.
  pub join_missing : (x : AbstractNode Q) → x.is_joinable ≡ false → join_thread x ≡ none
  unfolding join_thread
  join_missing x e = rw e refl

  pub join_waits : (x : AbstractNode Q) → IsUp x → join_thread x ≡ none
  unfolding join_thread
  join_waits x (on, running) = rw (on, running) refl

  pub join_returns :
      (x : AbstractNode Q) → IsEnded x → join_thread x ≡ some (record x { is_joinable = false })
  unfolding join_thread
  join_returns x (on, ended) = rw (on, ended) refl

  pub joined_off : (x y : AbstractNode Q) → join_thread x ≡ some y → y.is_joinable ≡ false
  unfolding join_thread
  joined_off x y e = chosen _ e
    where
      chosen :
          (b : Bool)
          → (if b then some (record x { is_joinable = false }) else none) ≡ some y
          → y.is_joinable ≡ false
      chosen true e = ap (λ (n : AbstractNode Q). n.is_joinable) (sym (some-injective _ y e))
      chosen false e = absurd (none-ne-some y e)

  -- What a class of nodes makes of `join`.
  pub record Joins {N : Type 0} (i : NodeInterface Q N) : Type 0 where
    pub missing : (a : N) → (i.base a).is_joinable ≡ false → i.join_thread a ≡ none
    pub waits : (a : N) → IsUp (i.base a) → i.join_thread a ≡ none
    pub returns : (a : N) → IsEnded (i.base a) → (b : N) × (i.join_thread a ≡ some b)
    pub off : (a b : N) → i.join_thread a ≡ some b → (i.base b).is_joinable ≡ false

  module _ (queue : MessageQueue Q) (env : Env) (renv : RouterEnv) where
    module _ {N : Type 0} (i : NodeInterface Q N) (joins : Joins i) where
      abbrev pub some_one : Dict N → Bool
      some_one = any_joinable queue env renv i

      -- Of the first node at least, if there is one.
      pub join_missing_all :
          (d : Dict N) → 0 < length d → some_one d ≡ false → try_values i.join_thread d ≡ none
      join_missing_all [] nodes e = absurd (omega (arith, nodes))
      join_missing_all (entry ∷ rest) nodes e =
          try_values-none i.join_thread entry rest
            (joins.missing entry.1 (or_parts _ (some_one rest) e).0)

      pub join_waits_all :
          (d : Dict N)
          → 0 < length d
          → AllEntries (λ _ a. IsUp (i.base a)) d
          → try_values i.join_thread d ≡ none
      join_waits_all [] nodes all = absurd (omega (arith, nodes))
      join_waits_all (entry ∷ rest) nodes (up, all) =
          try_values-none i.join_thread entry rest (joins.waits entry.1 up)

      pub some_up :
          (d : Dict N) → 0 < length d → AllEntries (λ _ a. IsUp (i.base a)) d → some_one d ≡ true
      some_up [] nodes all = absurd (omega (arith, nodes))
      some_up (entry ∷ rest) nodes (up, all) =
          or_either (i.base entry.1).is_joinable (some_one rest) (inl up.0)

      none_left :
          (d : Dict N) → AllEntries (λ _ a. (i.base a).is_joinable ≡ false) d → some_one d ≡ false
      none_left [] all = refl
      none_left (entry ∷ rest) (off, all) = ap (λ b. b || some_one rest) off ∙ none_left rest all

      pub join_all :
          (d : Dict N)
          → AllEntries (λ _ a. IsEnded (i.base a)) d
          → (d' : Dict N) × (try_values i.join_thread d ≡ some d') × (some_one d' ≡ false)
      join_all d all =
          let (d', run) = try_values_succeeds i.join_thread d (returning d all) in
          (
            d',
            run,
            none_left d' (
                try_values_all (λ a. (i.base a).is_joinable ≡ false) i.join_thread joins.off d d'
                  run),
          )
        where
          returning :
              (l : Dict N)
              → AllEntries (λ _ a. IsEnded (i.base a)) l
              → AllEntries (λ _ a. (b : N) × (i.join_thread a ≡ some b)) l
          returning [] h = tt
          returning (entry ∷ rest) (ended, h) = (joins.returns entry.1 ended, returning rest h)

    module _ (n : Network Q) where
      abbrev pub hosts_class : NodeInterface Q (Host Q)
      hosts_class = as_host queue env renv n

      abbrev pub routers_class : NodeInterface Q (Router Q)
      routers_class = as_router queue env renv n

      pub hosts-Joins : Joins hosts_class
      hosts-Joins = record {
        missing = λ h e. ap (put h) (join_missing h.node e);
        waits = λ h up. ap (put h) (join_waits h.node up);
        returns = λ h ended. (
          record h { node = record h.node { is_joinable = false } },
          ap (put h) (join_returns h.node ended),
        );
        off = λ h h' e. gone h (join_thread h.node) refl h' e;
      }
        where
          put : (h : Host Q) → Option (AbstractNode Q) → Option (Host Q)
          put h o = o >>= λ x. some (record h { node = x })

          gone :
              (h : Host Q) (o : Option (AbstractNode Q))
              → join_thread h.node ≡ o
              → (h' : Host Q) → put h o ≡ some h'
              → h'.node.is_joinable ≡ false
          gone h none was h' e = absurd (none-ne-some h' e)
          gone h (some x) was h' e =
              ap (λ (y : Host Q). y.node.is_joinable) (sym (some-injective _ h' e))
              ∙ joined_off h.node x was

      pub routers-Joins : Joins routers_class
      routers-Joins = record {
        missing = λ r e. ap (put r) (join_missing r.node e);
        waits = λ r up. ap (put r) (join_waits r.node up);
        returns = λ r ended. (
          record r { node = record r.node { is_joinable = false } },
          ap (put r) (join_returns r.node ended),
        );
        off = λ r r' e. gone r (join_thread r.node) refl r' e;
      }
        where
          put : (r : Router Q) → Option (AbstractNode Q) → Option (Router Q)
          put r o = o >>= λ x. some (record r { node = x })

          gone :
              (r : Router Q) (o : Option (AbstractNode Q))
              → join_thread r.node ≡ o
              → (r' : Router Q) → put r o ≡ some r'
              → r'.node.is_joinable ≡ false
          gone r none was r' e = absurd (none-ne-some r' e)
          gone r (some x) was r' e =
              ap (λ (y : Router Q). y.node.is_joinable) (sym (some-injective _ r' e))
              ∙ joined_off r.node x was
