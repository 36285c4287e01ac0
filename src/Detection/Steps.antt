-- ===== src/Detection/Steps.antt =====
-- The counter in every state that a network reaches.
use cn_project.Base.{String, ◌+◌, ◌%◌, ◌^◌, ◌≡◌, refl, subst, Option, none, some, arith}
use cn_project.Base.Dict.{lookup, insert}
use cn_project.Tcp.{Env, ConnectionInterface, TcpConnection, connection_interface}
use cn_project.Nodes.Queue.{MessageQueue, QueueLaws}
use cn_project.Nodes.Router
use cn_project.Nodes.Router.{Router, RouterEnv, Turn, waiting, fault, going, left}
use cn_project.Nodes.Host
use cn_project.Nodes.Host.{Host}
use cn_project.Nodes.Limits.{LimitTurn, turn-limit}
use cn_project.Network.{Network, print}
use cn_project.Network.Running.{router_turn, host_turn}
use cn_project.Network.Quiet.{
  IsKeptNetwork, Returned, host_timer-Returned, command_to_send-Returned,
}
use cn_project.Routing.Steps.{
  Step, Reach, here, next, starts, router_calls, host_calls, router_turns, host_turns, sends,
  timer_ends,
}
use cn_project.Detection.{CountsMessages, IsAccountedBut, owed, uncounted, total}
use cn_project.Detection.Balance.{quietly-IsBalanced}
use cn_project.Detection.Routers.{BalancedTurn, router_turn-Balanced}
use cn_project.Detection.Hosts.{host_turn-Balanced}
use cn_project.Detection.World.{router_at, host_at, with_router, with_host}
use cn_project.Network.Threads.{started}
use cn_project.Detection.Starts.{run-IsAccounted}
use cn_project.Detection.Deliver.{gained-IsExchange}
use cn_project.Detection.Calls.{rewritten, router_call-IsAccounted, host_call-IsAccounted}

module _ (Here : String → Type 0) {Q : Type 0} (queue : MessageQueue Q) (laws : QueueLaws queue)
    (counts : CountsMessages queue laws) where
  abbrev Accounted : Network Q → Type 0
  Accounted = IsAccountedBut Here queue laws counts 0 0

  abbrev AccountedIf : Option (Network Q) → Type 0
  AccountedIf = Returned Accounted

  module _ (env : Env) (renv : RouterEnv) (at : String) (n : Network Q) (net : Accounted n) where
    turned_router : Turn (Router Q) → Option (Network Q)
    turned_router u = elim u [
      | waiting ↦ some n
      | fault ↦ none
      | going r' ↦ some (record n { routers = insert at r' n.routers })
      | left r' ↦ some (record n { routers = insert at r' n.routers })
    ]

    turned_router-AccountedIf :
        (r : Router Q)
        → lookup at n.routers ≡ some r
        → (u : Turn (Router Q))
        → BalancedTurn Here queue laws counts (λ (x : Router Q). x.node) r.node u
        → LimitTurn r u
        → AccountedIf (turned_router u)
    unfolding turned_router
    turned_router-AccountedIf r found waiting b limit = net
    turned_router-AccountedIf r found fault b limit = tt
    turned_router-AccountedIf r found (going r') b limit =
        with_router Here queue laws counts 0 0 0 0 at n net r r' found
          (gained-IsExchange Here queue laws counts 0 r.node r'.node b) limit
    turned_router-AccountedIf r found (left r') b limit = absurd b

    router_turn-AccountedIf : AccountedIf (router_turn queue env renv at n)
    unfolding router_turn turned_router
    router_turn-AccountedIf = begun (lookup at n.routers) refl
      where
        begun :
            (o : Option (Router Q))
            → lookup at n.routers ≡ o
            → AccountedIf (elim o as (λ _. Option (Network Q)) [
              | none ↦ some n
              | some r ↦ turned_router (Router.turn queue renv n.defaults r)
            ])
        begun none found = net
        begun (some r) found =
            let (opens, _) = router_at Here queue laws counts 0 0 0 0 at n net r found in
            turned_router-AccountedIf r found _
              (router_turn-Balanced Here queue laws counts renv n.defaults r opens.going)
              (turn-limit queue renv n.defaults r)

    turned_host : Turn (Host Q) → Option (Network Q)
    turned_host u = elim u [
      | waiting ↦ some n
      | fault ↦ none
      | going h' ↦ some (record n { hosts = insert at h' n.hosts })
      | left h' ↦ some (record n { hosts = insert at h' n.hosts })
    ]

    turned_host-AccountedIf :
        (h : Host Q)
        → lookup at n.hosts ≡ some h
        → (u : Turn (Host Q))
        → BalancedTurn Here queue laws counts (λ (x : Host Q). x.node) h.node u
        → AccountedIf (turned_host u)
    unfolding turned_host
    turned_host-AccountedIf h found waiting b = net
    turned_host-AccountedIf h found fault b = tt
    turned_host-AccountedIf h found (going h') b =
        with_host Here queue laws counts 0 0 0 0 at n net h h' found
          (gained-IsExchange Here queue laws counts 0 h.node h'.node b)
    turned_host-AccountedIf h found (left h') b = absurd b

    host_turn-AccountedIf : AccountedIf (host_turn queue env renv at n)
    unfolding host_turn turned_host
    host_turn-AccountedIf = begun (lookup at n.hosts) refl
      where
        tcp : ConnectionInterface TcpConnection
        tcp = connection_interface (record env { packet_size = n.packet_size })

        begun :
            (o : Option (Host Q))
            → lookup at n.hosts ≡ o
            → AccountedIf (elim o as (λ _. Option (Network Q)) [
              | none ↦ some n
              | some h ↦ turned_host (Host.turn queue tcp h)
            ])
        begun none found = net
        begun (some h) found = turned_host-AccountedIf h found _ (
            host_turn-Balanced Here queue laws counts tcp h
              (host_at Here queue laws counts 0 0 0 0 at n net h found).going)

  IsAccounted-IsKeptNetwork : IsKeptNetwork Accounted
  unfolding print
  IsAccounted-IsKeptNetwork = record {
    printed = λ line n net. rewritten Here queue laws counts n _ n.logs n.files net;
    stored = λ at h h' n found quiet net.
        with_host Here queue laws counts 0 0 0 0 at n net h h' found (
          gained-IsExchange Here queue laws counts 0 h.node h'.node
            (quietly-IsBalanced Here queue laws counts h.node h'.node quiet));
  }

  returned : (o : Option (Network Q)) (n' : Network Q) → o ≡ some n' → AccountedIf o → Accounted n'
  returned o n' e s = subst AccountedIf e s

  Step-IsAccounted : {n n' : Network Q} → Step queue n n' → Accounted n → Accounted n'
  Step-IsAccounted {n} {n'} (starts env renv e) s =
      subst Accounted (started queue env renv n n' e)
        (run-IsAccounted Here queue laws counts env renv n s)
  Step-IsAccounted {n} (router_calls env renv at) s =
      router_call-IsAccounted Here queue laws counts env renv at n s
  Step-IsAccounted {n} (host_calls env renv at) s =
      host_call-IsAccounted Here queue laws counts env renv at n s
  Step-IsAccounted {n} {n'} (router_turns env renv at e) s =
      returned _ n' e (router_turn-AccountedIf env renv at n s)
  Step-IsAccounted {n} {n'} (host_turns env renv at e) s =
      returned _ n' e (host_turn-AccountedIf env renv at n s)
  Step-IsAccounted {n} {n'} (sends env renv sender receiver bytes delay e) s = returned _ n' e (
      command_to_send-Returned Accounted IsAccounted-IsKeptNetwork env sender receiver bytes delay n
        s)
  Step-IsAccounted {n} {n'} (timer_ends env renv at end_point dequeued e) s = returned _ n' e (
      host_timer-Returned Accounted IsAccounted-IsKeptNetwork queue env renv at end_point dequeued n
        s)

  pub Reach-IsAccounted : {n n' : Network Q} → Reach queue n n' → Accounted n → Accounted n'
  Reach-IsAccounted here s = s
  Reach-IsAccounted (next r st) s = Step-IsAccounted st (Reach-IsAccounted r s)

  -- A node of the network is not to stop, has only nodes of the network for neighbours, and hands
  -- routing messages over to such nodes only; its routers have no limit; the counter and what is not
  -- yet counted make up what is owed (modulo 2^64). In every state that the network reaches by
  -- starts, turns, calls, timers and commands of its nodes in any order, the counter and the
  -- messages that have still to be counted are together what is owed: the routing messages that
  -- wait in queues, those that have still to be handed over, and those that have been handled and
  -- have still to be counted down (modulo 2^64).
  pub reached_counter :
      {n n' : Network Q}
      → Accounted n
      → Reach queue n n'
      → (n'.controller.alg_converge_counter + total uncounted n') % 2 ^ 64
        ≡ total (owed queue laws counts) n' % 2 ^ 64
  reached_counter {n} {n'} s reach = omega (arith, (Reach-IsAccounted reach s).accounted)
