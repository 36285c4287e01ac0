-- ===== src/Convergence/Update.antt =====
-- Calls, updates of a table and broadcasts as moves of a node.
use mathlib.Core.List.{Memᴰ}
use mathlib.Core.List.Memᴰ.{head, tail, append_left, append_right}
use mathlib.Core.Option.{some-injective}
use cn_project.Base.{
  ℕ, String, ◌≤◌, ◌≡◌, ◌≢◌, inl, inr, refl, sym, ap, subst, ◌∙◌, Option, none, some, List, [], ◌∷◌,
  true, false, Bool, Bool-cases, arith, append-nil,
}
use cn_project.Base.Dict.{keys_differ, lookup-insert_self, lookup-insert_ne}
use cn_project.Message.{routing}
use cn_project.Nodes.Queue.{MessageQueue, QueueLaws}
use cn_project.Nodes.Node.{AbstractNode, RoutingTableEntry, Call, LogLine, taken_by, log, log_line}
use cn_project.Nodes.Router.{Router, broad_cast_new_link, update_routing_table}
use cn_project.Nodes.Table.{cost_to, is_improved, cheaper, written}
use cn_project.Nodes.Broadcast.{
  neighbours, announcements, broadcast, calling, broad_cast_new_link_lem, update_better,
  update_worse,
}
use cn_project.Nodes.Contract.{router-IsUpdate}
use cn_project.Convergence.{IsBelow, IsTelling, IsLater, tale}
use cn_project.Convergence.Later.{IsLater-refl}

pub announcements-Memᴰ :
    (sender dest : String) (cost : ℕ) (y : String) (xs : List String)
    → Memᴰ y xs
    → Memᴰ (taken_by y (routing (tale sender dest cost))) (announcements sender dest cost xs)
announcements-Memᴰ sender dest cost y [] m = elim m [ ]
announcements-Memᴰ sender dest cost y (x ∷ xs) (head e) =
    head (ap (λ z. taken_by z (routing (tale sender dest cost))) e)
announcements-Memᴰ sender dest cost y (x ∷ xs) (tail m) =
    tail (tail (announcements-Memᴰ sender dest cost y xs m))

improved_below :
    (cost : ℕ) (known : Option ℕ) (bound : ℕ)
    → is_improved known cost ≡ true
    → (c : ℕ) × (known ≡ some c) × (c ≤ bound)
    → cost ≤ bound
improved_below cost none bound better (c, same, le) = cc
improved_below cost (some old) bound better (c, same, le) =
    ground (arith, some-injective old c same)

module _ {Q : Type 0} (queue : MessageQueue Q) (laws : QueueLaws queue) where
  abbrev Later : AbstractNode Q → AbstractNode Q → Type 0
  Later = IsLater queue laws

  pub calling-IsLater : (ks : List Call) (n : AbstractNode Q) → Later n (calling ks n)
  unfolding cost_to
  calling-IsLater ks n = record {
    same_addr = refl;
    same_neighbours = refl;
    links_kept = λ a l h. h;
    going_on = λ h. h;
    calling = λ h. append_left ks h;
    falling = λ dest bound h. h;
    telling = λ dest cost on h. inl (on, h);
    heeding = λ m l on linked h. inr h;
  }

  pub log-IsLater : (line : LogLine) (n : AbstractNode Q) → Later n (log line n)
  unfolding log
  log-IsLater line n = calling-IsLater (log_line n.log_filename line ∷ []) n

  -- A broadcast tells all neighbours.
  broadcast-IsTelling :
      (dest : String) (cost : ℕ) (n : AbstractNode Q) (y : String)
      → Memᴰ y (neighbours n)
      → IsTelling y dest cost (calling (broadcast dest cost n) n)
  broadcast-IsTelling dest cost n y m =
      append_right n.calls (tail (announcements-Memᴰ n.addr dest cost y (neighbours n) m))

  module _ (dest : String) (cost : ℕ) (hop : String) (n : AbstractNode Q) where
    cost_to-written_self : cost_to dest (written dest cost hop n) ≡ some cost
    unfolding cost_to
    cost_to-written_self = ap cost_of (lookup-insert_self dest _ n.routing_table)
      where
        cost_of : Option RoutingTableEntry → Option ℕ
        cost_of o = elim o [ none ↦ none | some e ↦ some e.cost ]

    cost_to-written_ne :
        (other : String) → dest ≢ other → cost_to other (written dest cost hop n) ≡ cost_to other n
    unfolding cost_to
    cost_to-written_ne other ne = ap cost_of (lookup-insert_ne dest other _ n.routing_table ne)
      where
        cost_of : Option RoutingTableEntry → Option ℕ
        cost_of o = elim o [ none ↦ none | some e ↦ some e.cost ]

    cost_is :
        (other : String) (c : ℕ)
        → dest ≡ other
        → cost_to other (written dest cost hop n) ≡ some c
        → cost ≡ c
    cost_is other c same h =
        some-injective cost c
          (sym cost_to-written_self ∙ ap (λ d. cost_to d (written dest cost hop n)) same ∙ h)

    -- A cheaper way is written, and what is called for tells the neighbours if the node runs.
    written-IsLater :
        (ks : List Call)
        → is_improved (cost_to dest n) cost ≡ true
        → (n.is_running ≡ true
            → (y : String) → Memᴰ y (neighbours n)
            → IsTelling y dest cost (calling ks n))
        → Later n (calling ks (written dest cost hop n))
    unfolding cost_to
    written-IsLater ks better told = record {
      same_addr = refl;
      same_neighbours = refl;
      links_kept = λ a l h. h;
      going_on = λ h. h;
      calling = λ h. append_left ks h;
      falling = λ other bound h. elim (keys_differ dest other) [
        | inl same ↦
            subst (λ d. IsBelow d bound (calling ks (written dest cost hop n))) same
              (
                cost,
                cost_to-written_self,
                improved_below cost (cost_to dest n) bound better
                    (subst (λ d. IsBelow d bound n) (sym same) h),
              )
        | inr ne ↦ (h.0, cost_to-written_ne other ne ∙ h.1, h.2)
      ];
      telling = λ other c on h. elim (keys_differ dest other) [
        | inl same ↦ inr (λ y m.
            subst (λ d. IsTelling y d c (calling ks n)) same
              (subst (λ k. IsTelling y dest k (calling ks n)) (cost_is other c same h)
                (told on y m)))
        | inr ne ↦ inl (on, sym (cost_to-written_ne other ne) ∙ h)
      ];
      heeding = λ m l on linked h. inr h;
    }

  module _ (dest : String) (cost : ℕ) (hop : String) (r : Router Q) where
    -- An update of the table leaves a way that costs no more.
    pub update_routing_table-IsBelow :
        IsBelow dest cost (update_routing_table dest cost hop r).0.node
    update_routing_table-IsBelow = (
      cheaper (cost_to dest r.node) cost,
      (router-IsUpdate dest cost hop r).best,
      cheaper_le (cost_to dest r.node),
    )
      where
        cheaper_le : (known : Option ℕ) → cheaper known cost ≤ cost
        cheaper_le none = omega arith
        cheaper_le (some old) = omega arith

    pub update_routing_table-IsLater : Later r.node (update_routing_table dest cost hop r).0.node
    update_routing_table-IsLater = elim (Bool-cases (is_improved (cost_to dest r.node) cost)) [
      | inl better ↦
          subst (λ (p : Router Q × Bool). Later r.node p.0.node)
            (sym (update_better dest cost hop r better)) (improved better)
      | inr worse ↦
          subst (λ (p : Router Q × Bool). Later r.node p.0.node)
            (sym (update_worse dest cost hop r worse)) (IsLater-refl queue laws r.node)
    ]
      where
        chosen : AbstractNode Q
        chosen = written dest cost hop r.node

        quiet : r.node.is_running ≡ false → broad_cast_new_link dest cost chosen ≡ chosen
        quiet off = unfold broad_cast_new_link in rw off refl

        silent :
            r.node.is_running ≡ false → broad_cast_new_link dest cost chosen ≡ calling [] chosen
        silent off =
            quiet off ∙ ap (λ cs. record chosen { calls = cs }) (sym (append-nil r.node.calls))

        on_off :
            r.node.is_running ≡ true
            → r.node.is_running ≡ false
            → (y : String) → Memᴰ y (neighbours r.node)
            → IsTelling y dest cost (calling [] r.node)
        on_off on off = ground (arith, on, off)

        improved :
            is_improved (cost_to dest r.node) cost ≡ true
            → Later r.node (broad_cast_new_link dest cost (written dest cost hop r.node))
        improved better = elim (Bool-cases r.node.is_running) [
          | inl on ↦ subst (Later r.node) (sym (broad_cast_new_link_lem dest cost chosen on)) (
              written-IsLater dest cost hop r.node (broadcast dest cost r.node) better
                (λ _ y m. broadcast-IsTelling dest cost r.node y m))
          | inr off ↦
              subst (Later r.node) (sym (silent off))
                (written-IsLater dest cost hop r.node [] better (λ on. on_off on off))
        ]
