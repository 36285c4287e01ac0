-- ===== src/Convergence/Steps.antt =====
-- What is told between two linked routers, in every state that a network reaches.
use cn_project.Base.{
  ℕ, String, ◌≡◌, ◌⊎◌, refl, subst, true, Option, none, some, [], inl, inr, add64,
}
use mathlib.Core.Option.{none-ne-some, some-injective}
use mathlib.Core.List.Memᴰ.{not-nil}
use mathlib.Core.List.{Memᴰ}
use cn_project.Base.Dict.{Dict, lookup, insert}
use cn_project.Message.{RoutingMessage, routing}
use cn_project.Tcp.{Env}
use cn_project.Nodes.Queue.{MessageQueue, QueueLaws}
use cn_project.Nodes.Node.{Link}
use cn_project.Nodes.Router
use cn_project.Nodes.Router.{Router, RouterEnv, Turn, waiting, fault, going, left}
use cn_project.Nodes.Table.{cost_to}
use cn_project.Network.{Network}
use cn_project.Base.Dict.{map_values, lookup-map_values}
use cn_project.Network.Threads.{started, all_up}
use cn_project.Network.Running.{router_call, router_turn}
use cn_project.Routing.Steps.{
  Step, Reach, here, next, starts, router_calls, host_calls, router_turns, host_turns, sends,
  timer_ends,
}
use cn_project.Convergence.{KeepsMessages, IsBelow}
use cn_project.Convergence.Turns.{IsLaterRouter, LaterTurn, turn-IsLater}
use cn_project.Convergence.Start.{start_node-IsLater}
use cn_project.Convergence.World.{
  IsBelowIn, later-IsBelowIn, IsLaterRouters, IsToldIn, same-IsLaterRouters, insert-IsLaterRouters,
  later-IsToldIn,
}
use cn_project.Convergence.Calls.{router_call-IsToldIn, router_call-IsBelowIn}
use cn_project.Convergence.Hosts.{
  same_routers, host_turn-SameRouters, host_timer-SameRouters, command_to_send-SameRouters,
  host_call-IsLater,
}

module _ {Q : Type 0} (queue : MessageQueue Q) (laws : QueueLaws queue)
    (keeps : KeepsMessages queue laws) where
  abbrev Later : Dict (Router Q) → Dict (Router Q) → Type 0
  Later = IsLaterRouters queue laws keeps

  same-IsLater :
      (n n' : Network Q)
      → n'.routers ≡ n.routers
      → Later n.routers n'.routers
        ⊎ ((env : Env) × (renv : RouterEnv) × (at : String) × (router_call queue env renv at n
              ≡ n'))
  same-IsLater n n' same = inl (same-IsLaterRouters queue laws keeps n.routers n'.routers same)

  map_values-IsLater :
      (f : Router Q → Router Q) (rs : Dict (Router Q))
      → ((r : Router Q) → IsLaterRouter queue laws keeps r (f r))
      → Later rs (map_values f rs)
  map_values-IsLater f rs later at r' found =
      let (r, was, same) = lookup-map_values f rs at r' found in
      (r, was, subst (IsLaterRouter queue laws keeps r) same (later r))

  run-IsLater :
      (env : Env) (renv : RouterEnv) (n : Network Q)
      → Later n.routers (all_up queue env renv n).routers
  run-IsLater env renv n =
      map_values-IsLater Router.start_node n.routers (λ r. start_node-IsLater queue laws keeps r)

  module _ (env : Env) (renv : RouterEnv) (at : String) (n n' : Network Q) where
    turned : Turn (Router Q) → Option (Network Q)
    turned u = elim u [
      | waiting ↦ some n
      | fault ↦ none
      | going r' ↦ some (record n { routers = insert at r' n.routers })
      | left r' ↦ some (record n { routers = insert at r' n.routers })
    ]

    unchanged : some n ≡ some n' → Later n.routers n'.routers
    unchanged e =
        subst (λ (m : Network Q). Later n.routers m.routers) (some-injective n n' e)
          (same-IsLaterRouters queue laws keeps n.routers n.routers refl)

    turned-IsLater :
        (r : Router Q)
        → lookup at n.routers ≡ some r
        → (u : Turn (Router Q)) → LaterTurn queue laws keeps r u
        → turned u ≡ some n'
        → Later n.routers n'.routers
    unfolding turned
    turned-IsLater r found waiting s e = unchanged e
    turned-IsLater r found fault s e = absurd (none-ne-some n' e)
    turned-IsLater r found (going r') s e =
        subst (λ (m : Network Q). Later n.routers m.routers) (some-injective _ n' e)
          (insert-IsLaterRouters queue laws keeps at r r' n.routers found s)
    turned-IsLater r found (left r') s e =
        subst (λ (m : Network Q). Later n.routers m.routers) (some-injective _ n' e)
          (insert-IsLaterRouters queue laws keeps at r r' n.routers found s)

    router_turn-IsLater : router_turn queue env renv at n ≡ some n' → Later n.routers n'.routers
    unfolding router_turn turned
    router_turn-IsLater e = begun (lookup at n.routers) refl e
      where
        begun :
            (o : Option (Router Q))
            → lookup at n.routers ≡ o
            → (elim o [ none ↦ some n | some r ↦ turned (Router.turn queue renv n.defaults r) ])
              ≡ some n'
            → Later n.routers n'.routers
        begun none found e = unchanged e
        begun (some r) found e =
            turned-IsLater r found _ (turn-IsLater queue laws keeps renv n.defaults r) e

  -- Every step but a router's call leads to later routers.
  Step-IsLater :
      {n n' : Network Q}
      → Step queue n n'
      → Later n.routers n'.routers
        ⊎ ((env : Env) × (renv : RouterEnv) × (at : String) × (router_call queue env renv at n
              ≡ n'))
  Step-IsLater {n} {n'} (starts env renv e) = inl (
      subst (λ (m : Network Q). Later n.routers m.routers) (started queue env renv n n' e)
        (run-IsLater env renv n))
  Step-IsLater {n} (router_calls env renv at) = inr (env, renv, at, refl)
  Step-IsLater {n} (host_calls env renv at) = inl (host_call-IsLater queue laws keeps env renv at n)
  Step-IsLater {n} {n'} (router_turns env renv at e) = inl (router_turn-IsLater env renv at n n' e)
  Step-IsLater {n} {n'} (host_turns env renv at e) =
      same-IsLater n n' (same_routers queue n n' _ e (host_turn-SameRouters queue env renv n at))
  Step-IsLater {n} {n'} (sends env renv from to bytes delay e) =
      same-IsLater n n'
        (same_routers queue n n' _ e (command_to_send-SameRouters queue env from to bytes delay n))
  Step-IsLater {n} {n'} (timer_ends env renv at end_point dequeued e) =
      same-IsLater n n' (
        same_routers queue n n' _ e (host_timer-SameRouters queue env renv n at end_point dequeued))

  -- A way once known is never given up.
  module _ (at dest : String) (bound : ℕ) where
    abbrev Below : Network Q → Type 0
    Below n = IsBelowIn queue laws keeps at dest bound n.routers

    Step-IsBelowIn : {n n' : Network Q} → Step queue n n' → Below n → Below n'
    Step-IsBelowIn {n} {n'} s b = elim (Step-IsLater s) [
      | inl later ↦ later-IsBelowIn queue laws keeps at dest bound n.routers n'.routers later b
      | inr (env, renv, a, same) ↦
          subst Below same (router_call-IsBelowIn queue laws keeps env renv at dest bound a n b)
    ]

    pub Reach-IsBelowIn : {n n' : Network Q} → Reach queue n n' → Below n → Below n'
    Reach-IsBelowIn here b = b
    Reach-IsBelowIn (next r s) b = Step-IsBelowIn s (Reach-IsBelowIn r b)

  module _ (sender receiver : String) (l : Link) where
    abbrev ToldIn : Network Q → Type 0
    ToldIn n = IsToldIn queue laws keeps sender receiver l none n.routers

    Step-IsToldIn : {n n' : Network Q} → Step queue n n' → ToldIn n → ToldIn n'
    Step-IsToldIn {n} {n'} s t = elim (Step-IsLater s) [
      | inl later ↦
          later-IsToldIn queue laws keeps sender receiver l none n.routers n'.routers later t
      | inr (env, renv, a, same) ↦
          subst ToldIn same (router_call-IsToldIn queue laws keeps env renv sender receiver l a n t)
    ]

    Reach-IsToldIn : {n n' : Network Q} → Reach queue n n' → ToldIn n → ToldIn n'
    Reach-IsToldIn here t = t
    Reach-IsToldIn (next r s) t = Step-IsToldIn s (Reach-IsToldIn r t)

    -- Take two routers, the second with a link of a cost to the first, of which at first each way of
    -- the first is known, over the link, to the second, or is being told to it; this says nothing
    -- while the first does not run, but it has the second for a neighbour, and the second is not
    -- to stop and has no limit. In every state that the network reaches by starts, turns, calls,
    -- timers and commands of its nodes in any order: if the first router runs and has made all its
    -- calls, and no routing message waits in the second's queue, then the second knows a way to
    -- each destination of the first that costs no more than the first's and the link together
    -- (modulo 2^64).
    pub reached_ways :
        {n n' : Network Q} (x y : Router Q) (dest : String) (cost : ℕ)
        → IsToldIn queue laws keeps sender receiver l none n.routers
        → Reach queue n n'
        → lookup sender n'.routers ≡ some x
        → lookup receiver n'.routers ≡ some y
        → x.node.is_running ≡ true
        → x.node.calls ≡ []
        → ((m : RoutingMessage) → laws.Holds (some (routing m)) y.node.node_queue → ⊥)
        → cost_to dest x.node ≡ some cost
        → IsBelow dest (add64 cost l.cost) y.node
    reached_ways x y dest cost told reach found_x found_y on called empty known =
        elim ((Reach-IsToldIn reach told x y found_x found_y).told dest cost on known) [
          | inl below ↦ below
          | inr (inl calls) ↦ absurd (not-nil (subst (Memᴰ _) called calls))
          | inr (inr (inl held)) ↦ absurd (empty _ held)
          | inr (inr (inr lost)) ↦ absurd (none-ne-some _ lost)
        ]
