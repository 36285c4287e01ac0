-- ===== src/Convergence/Calls.antt =====
-- The calls that routers make.
use mathlib.Core.Option.{some-injective}
use cn_project.Base.{
  ℕ, String, ◌≡◌, ◌⊎◌, inl, inr, refl, sym, ap, subst, ◌∙◌, Option, none, some, List, [], ◌∷◌,
  Option-cases,
}
use cn_project.Base.Dict.{Dict, keys_differ, lookup, insert, lookup-insert_self, lookup-insert_ne}
use cn_project.Message.{routing}
use cn_project.Tcp.{Env}
use cn_project.Nodes.Queue.{MessageQueue, QueueLaws}
use cn_project.Nodes.Node.{Link, Call}
use cn_project.Nodes.Router.{Router, RouterEnv}
use cn_project.Network.{Network}
use cn_project.Network.Running.{perform, router_call}
use cn_project.Nodes.Table.{cost_to}
use cn_project.Convergence.{KeepsMessages, IsBelow, IsTold, tale}
use cn_project.Convergence.World.{
  IsLaterRouters, IsToldIn, later-IsToldIn, pop, IsBelowIn, later-IsBelowIn, popped_sender,
  popped_other, popped_receiver, settled,
}
use cn_project.Convergence.Deliver.{perform-IsLater, deliver_to-Holds}

module _ {Q : Type 0} (queue : MessageQueue Q) (laws : QueueLaws queue)
    (keeps : KeepsMessages queue laws) (env : Env) (renv : RouterEnv) where
  abbrev Later : Dict (Router Q) → Dict (Router Q) → Type 0
  Later = IsLaterRouters queue laws keeps

  -- A router at an address takes its first call off its list: the router at an address is that one,
  -- or it was there before.
  at_address :
      (at : String) (z : Router Q) (ks : List Call) (rs : Dict (Router Q))
      → lookup at rs ≡ some z
      → (other : String) (x : Router Q) → lookup other (insert at (pop z ks) rs) ≡ some x
      → ((lookup other rs ≡ some z) × (pop z ks ≡ x)) ⊎ (lookup other rs ≡ some x)
  at_address at z ks rs found other x h = elim (keys_differ at other) [
    | inl same ↦ inl (
      ap (λ a. lookup a rs) (sym same) ∙ found,
      some-injective (pop z ks) x (
          sym (lookup-insert_self at (pop z ks) rs)
          ∙ ap (λ a. lookup a (insert at (pop z ks) rs)) same
          ∙ h),
    )
    | inr ne ↦ inr (sym (lookup-insert_ne at other (pop z ks) rs ne) ∙ h)
  ]

  -- A way once known is not given up by calls.
  module _ (at dest : String) (bound : ℕ) where
    abbrev Below : Dict (Router Q) → Type 0
    Below = IsBelowIn queue laws keeps at dest bound

    popped-IsBelowIn :
        (a : String) (z : Router Q) (ks : List Call) (rs : Dict (Router Q))
        → lookup a rs ≡ some z
        → Below rs
        → Below (insert a (pop z ks) rs)
    unfolding cost_to
    popped-IsBelowIn a z ks rs found below r h = elim (at_address a z ks rs found at r h) [
      | inl (was, same) ↦ subst (λ (x : Router Q). IsBelow dest bound x.node) same (below z was)
      | inr was ↦ below r was
    ]

    pub router_call-IsBelowIn :
        (a : String) (n : Network Q)
        → Below n.routers
        → Below (router_call queue env renv a n).routers
    unfolding router_call
    router_call-IsBelowIn a n below = called (lookup a n.routers) refl
      where
        made :
            (z : Router Q)
            → lookup a n.routers ≡ some z
            → (calls : List Call)
            → Below
                (elim calls as (λ _. Network Q) [
                  | [] ↦ n
                  | k ∷ ks ↦
                      perform queue env renv k
                        (record n { routers = insert a (pop z ks) n.routers })
                ]).routers
        made z found [] = below
        made z found (k ∷ ks) =
            later-IsBelowIn queue laws keeps at dest bound (insert a (pop z ks) n.routers) _
              (perform-IsLater queue laws keeps env renv k _)
              (popped-IsBelowIn a z ks n.routers found below)

        called :
            (o : Option (Router Q))
            → lookup a n.routers ≡ o
            → Below
                (elim o as (λ _. Network Q) [
                  | none ↦ n
                  | some z ↦ elim z.node.calls [
                    | [] ↦ n
                    | k ∷ ks ↦
                        perform queue env renv k
                          (record n { routers = insert a (pop z ks) n.routers })
                  ]
                ]).routers
        called none found = below
        called (some z) found = made z found z.node.calls

  module _ (sender receiver : String) (l : Link) where
    abbrev ToldIn : Option Call → Dict (Router Q) → Type 0
    ToldIn = IsToldIn queue laws keeps sender receiver l

    perform-IsToldIn :
        (k : Call) (n : Network Q)
        → ToldIn (some k) n.routers
        → ToldIn none (perform queue env renv k n).routers
    unfolding perform
    perform-IsToldIn k n t x y found_x found_y =
        let (x₀, was_x, later_x) = perform-IsLater queue laws keeps env renv k n sender x found_x in
        let (y₀, was_y, later_y) =
          perform-IsLater queue laws keeps env renv k n receiver y found_y in
        let before = t x₀ y₀ was_x was_y in
        settled queue laws keeps sender receiver l x y k
          (λ dest cost same.
            deliver_to-Holds queue laws keeps env renv receiver (routing (tale sender dest cost)) n
              y₀ y was_y
              (ap (λ c. lookup receiver (perform queue env renv c n).routers) (sym same) ∙ found_y)
              before.going before.unlimited)
          (later-IsToldIn queue laws keeps sender receiver l (some k) n.routers
            (perform queue env renv k n).routers (perform-IsLater queue laws keeps env renv k n) t x
            y found_x found_y)

    -- A router at an address takes its first call off its list.
    module _ (at : String) (z : Router Q) (k : Call) (ks : List Call) (rs : Dict (Router Q))
        (found : lookup at rs ≡ some z) (calls : z.node.calls ≡ k ∷ ks) where
      popped-IsToldIn : ToldIn none rs → ToldIn (some k) (insert at (pop z ks) rs)
      popped-IsToldIn t x y found_x found_y =
          elim (at_address at z ks rs found receiver y found_y) [
            | inl (was, same) ↦
                subst (T x) same
                  (popped_receiver queue laws keeps sender receiver l x z k ks (sends z was))
            | inr was ↦ sends y was
          ]
        where
          T : Router Q → Router Q → Type 0
          T = IsTold queue laws sender receiver l (some k)

          sends : (y₀ : Router Q) → lookup receiver rs ≡ some y₀ → T x y₀
          sends y₀ was_y = elim (at_address at z ks rs found sender x found_x) [
            | inl (was, same) ↦
                subst (λ a. T a y₀) same
                  (popped_sender queue laws keeps sender receiver l z y₀ k ks calls
                    (t z y₀ was was_y))
            | inr was ↦ popped_other queue laws keeps sender receiver l x y₀ k (t x y₀ was was_y)
          ]

    module _ (at : String) (n : Network Q) (t : ToldIn none n.routers) where
      router_pops : Router Q → List Call → Network Q
      router_pops r calls = elim calls [
        | [] ↦ n
        | k ∷ ks ↦ perform queue env renv k (record n {
          routers = insert at (record r { node = record r.node { calls = ks } }) n.routers;
        })
      ]

      router_pops-IsToldIn :
          (r : Router Q)
          → lookup at n.routers ≡ some r
          → (calls : List Call) → r.node.calls ≡ calls
          → ToldIn none (router_pops r calls).routers
      unfolding router_pops
      router_pops-IsToldIn r found [] e = t
      router_pops-IsToldIn r found (k ∷ ks) e =
          perform-IsToldIn k _ (popped-IsToldIn at r k ks n.routers found e t)

      pub router_call-IsToldIn : ToldIn none (router_call queue env renv at n).routers
      unfolding router_call router_pops
      router_call-IsToldIn = elim (Option-cases (lookup at n.routers)) [
        | inl missing ↦ subst (λ o. ToldIn none (called o).routers) (sym missing) t
        | inr (r, found) ↦
            subst (λ o. ToldIn none (called o).routers) (sym found)
              (router_pops-IsToldIn r found r.node.calls refl)
      ]
        where
          called : Option (Router Q) → Network Q
          called o = elim o [ none ↦ n | some r ↦ router_pops r r.node.calls ]
