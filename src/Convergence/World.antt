-- ===== src/Convergence/World.antt =====
-- A network in which no router has lost what it knew: the relation between its states, and what is
-- told between two linked routers.
use mathlib.Core.Option.{none-ne-some, some-injective}
use mathlib.Core.List.{Memᴰ}
use mathlib.Core.List.Memᴰ.{cases_cons}
use cn_project.Base.{
  ℕ, String, ◌≡◌, inl, inr, refl, sym, ap, subst, ◌∙◌, Option, none, some, List, ◌∷◌,
}
use cn_project.Base.Dict.{Dict, keys_differ, lookup, insert, lookup-insert_self, lookup-insert_ne}
use cn_project.Message.{routing}
use cn_project.Nodes.Queue.{MessageQueue, QueueLaws}
use cn_project.Nodes.Node.{Link, Call, taken_by}
use cn_project.Nodes.Router.{Router}
use cn_project.Nodes.Table.{cost_to}
use cn_project.Convergence.{KeepsMessages, IsBelow, IsTold, tale}
use cn_project.Convergence.Later.{IsLater-refl, sender-IsTold, receiver-IsTold}
use cn_project.Convergence.Turns.{IsLaterRouter}

-- A router with other calls to make.
abbrev pub pop : {Q : Type 0} → Router Q → List Call → Router Q
pop z ks = record z { node = record z.node { calls = ks } }

module _ {Q : Type 0} (queue : MessageQueue Q) (laws : QueueLaws queue)
    (keeps : KeepsMessages queue laws) where
  abbrev LaterRouter : Router Q → Router Q → Type 0
  LaterRouter = IsLaterRouter queue laws keeps

  -- Each router of the later state was there before.
  abbrev pub IsLaterRouters : Dict (Router Q) → Dict (Router Q) → Type 0
  IsLaterRouters rs rs' =
      (at : String) (r' : Router Q)
      → lookup at rs' ≡ some r'
      → (r : Router Q) × (lookup at rs ≡ some r) × LaterRouter r r'

  pub same-IsLaterRouter : (r : Router Q) → LaterRouter r r
  same-IsLaterRouter r = record { node = IsLater-refl queue laws r.node; limit = refl }

  pub same-IsLaterRouters : (rs rs' : Dict (Router Q)) → rs' ≡ rs → IsLaterRouters rs rs'
  same-IsLaterRouters rs rs' same at r found =
      (r, ap (lookup at) (sym same) ∙ found, same-IsLaterRouter r)

  pub insert-IsLaterRouters :
      (a : String) (z z' : Router Q) (rs : Dict (Router Q))
      → lookup a rs ≡ some z
      → LaterRouter z z'
      → IsLaterRouters rs (insert a z' rs)
  insert-IsLaterRouters a z z' rs found later at r' h = elim (keys_differ a at) [
    | inl same ↦ (
      z,
      ap (λ k. lookup k rs) (sym same) ∙ found,
      subst (LaterRouter z)
          (some-injective z' r'
            (sym (lookup-insert_self a z' rs) ∙ ap (λ k. lookup k (insert a z' rs)) same ∙ h))
          later,
    )
    | inr ne ↦ (r', sym (lookup-insert_ne a at z' rs ne) ∙ h, same-IsLaterRouter r')
  ]

  -- The router at an address knows a way that costs no more than the bound.
  module _ (at dest : String) (bound : ℕ) where
    abbrev pub IsBelowIn : Dict (Router Q) → Type 0
    IsBelowIn rs = (r : Router Q) → lookup at rs ≡ some r → IsBelow dest bound r.node

    pub later-IsBelowIn :
        (rs rs' : Dict (Router Q)) → IsLaterRouters rs rs' → IsBelowIn rs → IsBelowIn rs'
    later-IsBelowIn rs rs' later below r' found =
        let (r, was, s) = later at r' found in s.node.falling dest bound (below r was)

  module _ (sender receiver : String) (l : Link) where
    -- At the two addresses there are routers of which what `IsTold` says holds.
    abbrev pub IsToldIn : Option Call → Dict (Router Q) → Type 0
    IsToldIn missing rs =
        (x y : Router Q)
        → lookup sender rs ≡ some x
        → lookup receiver rs ≡ some y
        → IsTold queue laws sender receiver l missing x y

    pub later-IsToldIn :
        (missing : Option Call) (rs rs' : Dict (Router Q))
        → IsLaterRouters rs rs'
        → IsToldIn missing rs
        → IsToldIn missing rs'
    later-IsToldIn missing rs rs' later t x y found_x found_y =
        let (x₀, was_x, later_x) = later sender x found_x in
        let (y₀, was_y, later_y) = later receiver y found_y in
        receiver-IsTold queue laws sender receiver l missing x y₀ y later_y.node later_y.limit (
          sender-IsTold queue laws sender receiver l missing x₀ x y₀ later_x.node
            (t x₀ y₀ was_x was_y))

    -- A call that a node is about to make is missing, whoever makes it.
    pub popped_sender :
        (x y : Router Q) (k : Call) (ks : List Call)
        → x.node.calls ≡ k ∷ ks
        → IsTold queue laws sender receiver l none x y
        → IsTold queue laws sender receiver l (some k) (pop x ks) y
    unfolding cost_to
    popped_sender x y k ks e t = record {
      addressed = t.addressed;
      peer = t.peer;
      linked = t.linked;
      going = t.going;
      unlimited = t.unlimited;
      told = λ dest cost on h. elim (t.told dest cost on h) [
        | inl below ↦ inl below
        | inr (inl calls) ↦ elim (cases_cons (subst (Memᴰ _) e calls)) [
          | inl first ↦ inr (
              inr (
                inr (
                  ap some (
                    sym first
                    ∙ ap (λ a. taken_by receiver (routing (tale a dest cost))) t.addressed))))
          | inr later ↦ inr (inl later)
        ]
        | inr (inr (inl held)) ↦ inr (inr (inl held))
        | inr (inr (inr lost)) ↦ absurd (none-ne-some _ lost)
      ];
    }

    pub popped_other :
        (x y : Router Q) (k : Call)
        → IsTold queue laws sender receiver l none x y
        → IsTold queue laws sender receiver l (some k) x y
    popped_other x y k t = record {
      addressed = t.addressed;
      peer = t.peer;
      linked = t.linked;
      going = t.going;
      unlimited = t.unlimited;
      told = λ dest cost on h. elim (t.told dest cost on h) [
        | inl below ↦ inl below
        | inr (inl calls) ↦ inr (inl calls)
        | inr (inr (inl held)) ↦ inr (inr (inl held))
        | inr (inr (inr lost)) ↦ absurd (none-ne-some _ lost)
      ];
    }

    pub popped_receiver :
        (x y : Router Q) (k : Call) (ks : List Call)
        → IsTold queue laws sender receiver l (some k) x y
        → IsTold queue laws sender receiver l (some k) x (pop y ks)
    unfolding cost_to
    popped_receiver x y k ks t = record {
      addressed = t.addressed;
      peer = t.peer;
      linked = t.linked;
      going = t.going;
      unlimited = t.unlimited;
      told = t.told;
    }

    -- The call has put its message into the receiver's queue.
    pub settled :
        (x y : Router Q) (k : Call)
        → ((dest : String) (cost : ℕ)
            → k ≡ taken_by receiver (routing (tale sender dest cost))
            → laws.Holds (some (routing (tale sender dest cost))) y.node.node_queue)
        → IsTold queue laws sender receiver l (some k) x y
        → IsTold queue laws sender receiver l none x y
    settled x y k holds t = record {
      addressed = t.addressed;
      peer = t.peer;
      linked = t.linked;
      going = t.going;
      unlimited = t.unlimited;
      told = λ dest cost on h. elim (t.told dest cost on h) [
        | inl below ↦ inl below
        | inr (inl calls) ↦ inr (inl calls)
        | inr (inr (inl held)) ↦ inr (inr (inl held))
        | inr (inr (inr lost)) ↦ inr (inr (inl (holds dest cost (some-injective k _ lost))))
      ];
    }
