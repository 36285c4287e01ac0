-- ===== src/Routing/Steps.antt =====
-- Steps of a running network in any order, and what holds of the routes in every state reached.
use cn_project.Base.{ℕ, String, ◌≡◌, subst, Bool, some, List}
use cn_project.Base.Dict.{lookup, AllEntries-lookup}
use cn_project.Tcp.{Env}
use cn_project.Nodes.Queue.{MessageQueue, QueueLaws}
use cn_project.Nodes.Node.{RoutingTableEntry}
use cn_project.Nodes.Router
use cn_project.Nodes.Router.{Router, RouterEnv, Turn, waiting, fault, going, left}
use cn_project.Network.{Network, command_to_send}
use cn_project.Base.Dict.{AllEntries-map_values}
use cn_project.Network.Quiet.{host_timer-Returned, command_to_send-Returned}
use cn_project.Routing.Returns.{
  returned, IsSound-IsKeptNetwork, router_turn-Returned, host_turn-Returned,
}
use cn_project.Network.Threads.{started, all_up, host_up}
use cn_project.Network.Running.{run, router_call, host_call, router_turn, host_turn, host_timer}
use cn_project.Routing.{Topology, IsTwoWay, IsRoute, Walk}
use cn_project.Routing.Update.{IsRoute-Walk}
use cn_project.Routing.Turns.{router_start-IsSound, host_start-IsSound}
use cn_project.Routing.World.{IsSoundNetwork, router_at, router_call-IsSound, host_call-IsSound}

module _ {Q : Type 0} (queue : MessageQueue Q) where
  -- One step: the start of all threads, a turn of a node, a call that a node makes, the end of a timer,
  -- or a command to send. What is read from outside may differ from step to step.
  pub data Step (n : Network Q) : Network Q → Type 0 where
    starts :
        {n' : Network Q} (env : Env) (renv : RouterEnv) → run queue env renv n ≡ some n' → Step n n'
    router_calls :
        (env : Env) (renv : RouterEnv) (at : String) → Step n (router_call queue env renv at n)
    host_calls :
        (env : Env) (renv : RouterEnv) (at : String) → Step n (host_call queue env renv at n)
    router_turns :
        {n' : Network Q} (env : Env) (renv : RouterEnv) (at : String)
        → router_turn queue env renv at n ≡ some n'
        → Step n n'
    host_turns :
        {n' : Network Q} (env : Env) (renv : RouterEnv) (at : String)
        → host_turn queue env renv at n ≡ some n'
        → Step n n'
    sends :
        {n' : Network Q} (env : Env) (renv : RouterEnv) (sender receiver : String) (bytes : List ℕ)
        (delay : ℕ)
        → command_to_send env sender receiver bytes delay n ≡ some n'
        → Step n n'
    timer_ends :
        {n' : Network Q} (env : Env) (renv : RouterEnv) (at end_point : String) (dequeued : Bool)
        → host_timer queue env renv at end_point dequeued n ≡ some n'
        → Step n n'

  pub data Reach (n : Network Q) : Network Q → Type 0 where
    here : Reach n n
    next : {m n' : Network Q} → Reach n m → Step m n' → Reach n n'

  pub Reach-trans : {n m n' : Network Q} → Reach n m → Reach m n' → Reach n n'
  Reach-trans r here = r
  Reach-trans r (next s step) = next (Reach-trans r s) step

  module _ (t : Topology) (laws : QueueLaws queue) (two_way : IsTwoWay t) where
    abbrev Sound : Network Q → Type 0
    Sound = IsSoundNetwork t queue laws two_way

    run-IsSound :
        (env : Env) (renv : RouterEnv) (n : Network Q) → Sound n → Sound (all_up queue env renv n)
    run-IsSound env renv n net = record {
      routers =
          AllEntries-map_values _ _ Router.start_node n.routers
            (λ at r s. router_start-IsSound t queue laws two_way at r s) net.routers;
      hosts =
          AllEntries-map_values _ _ (host_up queue env renv n) n.hosts
            (λ at h s. host_start-IsSound t queue laws two_way at _ h s) net.hosts;
    }

    Step-IsSoundNetwork : {n n' : Network Q} → Step n n' → Sound n → Sound n'
    Step-IsSoundNetwork {n} {n'} (starts env renv e) s =
        subst Sound (started queue env renv n n' e) (run-IsSound env renv n s)
    Step-IsSoundNetwork {n} (router_calls env renv at) s =
        router_call-IsSound t queue laws two_way env renv at n s
    Step-IsSoundNetwork {n} (host_calls env renv at) s =
        host_call-IsSound t queue laws two_way env renv at n s
    Step-IsSoundNetwork {n} {n'} (router_turns env renv at e) s =
        returned queue t laws two_way _ n' e
          (router_turn-Returned queue t laws two_way env renv at n s)
    Step-IsSoundNetwork {n} {n'} (host_turns env renv at e) s =
        returned queue t laws two_way _ n' e
          (host_turn-Returned queue t laws two_way env renv at n s)
    Step-IsSoundNetwork {n} {n'} (sends env renv sender receiver bytes delay e) s =
        returned queue t laws two_way _ n' e (
          command_to_send-Returned Sound (IsSound-IsKeptNetwork queue t laws two_way) env sender
            receiver bytes delay n s)
    Step-IsSoundNetwork {n} {n'} (timer_ends env renv at end_point dequeued e) s =
        returned queue t laws two_way _ n' e (
          host_timer-Returned Sound (IsSound-IsKeptNetwork queue t laws two_way) queue env renv at
            end_point dequeued n s)

    -- Every state that a network reaches from a sound one is sound.
    pub Reach-IsSoundNetwork : {n n' : Network Q} → Reach n n' → Sound n → Sound n'
    Reach-IsSoundNetwork here s = s
    Reach-IsSoundNetwork (next r st) s = Step-IsSoundNetwork st (Reach-IsSoundNetwork r s)

    -- In every state that a network with a fixed two-way topology reaches from a sound one, by the
    -- starts, turns, calls, timers and commands of its nodes in any order: each entry of a router's
    -- routing table has the cost of a walk in the topology (added up modulo 2^64), and that walk
    -- begins with a link to the next hop.
    pub reached_routes :
        {n n' : Network Q} (at : String) (r : Router Q) (dest : String) (e : RoutingTableEntry)
        → Sound n
        → Reach n n'
        → lookup at n'.routers ≡ some r
        → lookup dest r.node.routing_table ≡ some e
        → IsRoute t at dest e × Walk t at dest e.cost
    reached_routes {n} {n'} at r dest e s reach found entry =
        let sound = router_at t queue laws two_way at r n' found (Reach-IsSoundNetwork reach s) in
        let route =
          AllEntries-lookup (IsRoute t at) dest e r.node.routing_table entry sound.table in
        (route, IsRoute-Walk t at dest e route)
