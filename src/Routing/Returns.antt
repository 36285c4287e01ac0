-- ===== src/Routing/Returns.antt =====
-- What a turn, a timer or a command returns is a sound network again.
use cn_project.Base.{String, ◌≡◌, sym, subst, Option, none, some, Option-cases, inl, inr}
use cn_project.Base.Dict.{lookup, insert}
use cn_project.Tcp.{Env, connection_interface}
use cn_project.Nodes.Queue.{MessageQueue, QueueLaws}
use cn_project.Nodes.Router
use cn_project.Nodes.Router.{Router, RouterEnv, Turn, waiting, fault, going, left}
use cn_project.Nodes.Host
use cn_project.Nodes.Host.{Host}
use cn_project.Network.{Network, print}
use cn_project.Network.Running.{router_turn, host_turn}
use cn_project.Network.Quiet
use cn_project.Network.Quiet.{IsKeptNetwork}
use cn_project.Routing.{Topology, IsTwoWay}
use cn_project.Routing.Hosts.{quietly-IsSound}
use cn_project.Routing.Turns.{SoundTurn, router_turn-IsSound, host_turn-IsSound}
use cn_project.Routing.World.{IsSoundNetwork, with_router, with_host, router_at, host_at}

module _ {Q : Type 0} (queue : MessageQueue Q) where
  module _ (t : Topology) (laws : QueueLaws queue) (two_way : IsTwoWay t) where
    abbrev Sound : Network Q → Type 0
    Sound = IsSoundNetwork t queue laws two_way

    abbrev Returned : Option (Network Q) → Type 0
    Returned = Quiet.Returned Sound

    pub returned : (o : Option (Network Q)) (n' : Network Q) → o ≡ some n' → Returned o → Sound n'
    returned o n' e s = subst Returned e s

    pub IsSound-IsKeptNetwork : IsKeptNetwork Sound
    unfolding print
    IsSound-IsKeptNetwork = record {
      printed = λ line n net. record { routers = net.routers; hosts = net.hosts };
      stored = λ at h h' n found quiet net.
          with_host t queue laws two_way at h' n
            (quietly-IsSound t queue laws two_way at h.node h'.node quiet
              (host_at t queue laws two_way at h n found net))
            net;
    }

    module _ (env : Env) (renv : RouterEnv) (at : String) (n : Network Q) (net : Sound n) where
      turned_router : Turn (Router Q) → Option (Network Q)
      turned_router u = elim u [
        | waiting ↦ some n
        | fault ↦ none
        | going r' ↦ some (record n { routers = insert at r' n.routers })
        | left r' ↦ some (record n { routers = insert at r' n.routers })
      ]

      turned_router-Returned :
          (u : Turn (Router Q))
          → SoundTurn t queue laws two_way at (λ (x : Router Q). x.node) u
          → Returned (turned_router u)
      unfolding turned_router
      turned_router-Returned waiting s = net
      turned_router-Returned fault s = tt
      turned_router-Returned (going r') s = with_router t queue laws two_way at r' n s net
      turned_router-Returned (left r') s = with_router t queue laws two_way at r' n s net

      pub router_turn-Returned : Returned (router_turn queue env renv at n)
      unfolding router_turn turned_router
      router_turn-Returned = elim (Option-cases (lookup at n.routers)) [
        | inl missing ↦ subst (λ o. Returned (begun o)) (sym missing) net
        | inr (r, found) ↦
            subst (λ o. Returned (begun o)) (sym found)
              (turned_router-Returned _ (
                router_turn-IsSound t queue laws two_way at renv n.defaults r
                  (router_at t queue laws two_way at r n found net)))
      ]
        where
          begun : Option (Router Q) → Option (Network Q)
          begun o = elim o [
            | none ↦ some n
            | some r ↦ turned_router (Router.turn queue renv n.defaults r)
          ]

      turned_host : Turn (Host Q) → Option (Network Q)
      turned_host u = elim u [
        | waiting ↦ some n
        | fault ↦ none
        | going h' ↦ some (record n { hosts = insert at h' n.hosts })
        | left h' ↦ some (record n { hosts = insert at h' n.hosts })
      ]

      turned_host-Returned :
          (u : Turn (Host Q))
          → SoundTurn t queue laws two_way at (λ (x : Host Q). x.node) u
          → Returned (turned_host u)
      unfolding turned_host
      turned_host-Returned waiting s = net
      turned_host-Returned fault s = tt
      turned_host-Returned (going h') s = with_host t queue laws two_way at h' n s net
      turned_host-Returned (left h') s = with_host t queue laws two_way at h' n s net

      abbrev sized : Env
      sized = record env { packet_size = n.packet_size }

      pub host_turn-Returned : Returned (host_turn queue env renv at n)
      unfolding host_turn turned_host
      host_turn-Returned = elim (Option-cases (lookup at n.hosts)) [
        | inl missing ↦ subst (λ o. Returned (begun o)) (sym missing) net
        | inr (h, found) ↦
            subst (λ o. Returned (begun o)) (sym found)
              (turned_host-Returned _ (
                host_turn-IsSound t queue laws two_way at (connection_interface sized) h
                  (host_at t queue laws two_way at h n found net)))
      ]
        where
          begun : Option (Host Q) → Option (Network Q)
          begun o = elim o [
            | none ↦ some n
            | some h ↦ turned_host (Host.turn queue (connection_interface sized) h)
          ]
