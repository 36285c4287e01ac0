-- ===== src/Tests/Forward.antt =====
-- A router of two that are linked has a packet for the other one in its queue.
use cn_project.Base.{◌≡◌, refl, true, false, some, [], ◌∷◌, inl, inr}
use cn_project.Base.Dict.{lookup, insert}
use cn_project.Message.{Packet, data_packet}
use cn_project.Nodes.Node.{RoutingTableEntry}
use cn_project.Nodes.Router.{Router}
use cn_project.Network.{Network}
use cn_project.Network.Running.{router_turn}
use cn_project.Routing.{IsRoute, IsSound}
use cn_project.Routing.World.{IsSoundNetwork}
use cn_project.Routing.Steps.{here}
use cn_project.Routing.Forward.{forward_lem, forwarded, received}
use cn_project.Tests.Values.{env}
use cn_project.Tests.Nodes.{Q, queue, router_env}
use cn_project.Tests.Routing.{
  laws, topology, two_way, node_at, router_at, two_routers, node_at-IsSound,
}

abbrev parcel : Packet
parcel = record { packet_id = 1; is_ack = false; source = "r"; destination = "s"; body = 5 ∷ [] }

abbrev carrying : Router Q
carrying = record (router_at "r" "s") {
  node = record (node_at "r" "s") { node_queue = some (data_packet parcel) ∷ [] };
}

abbrev loaded : Network Q
loaded = record two_routers { routers = ("r", carrying) ∷ ("s", router_at "s" "r") ∷ [] }

carrying-IsSound : IsSound topology queue laws "r" carrying.node
unfolding lookup
carrying-IsSound =
    let s = node_at-IsSound "r" "s" refl refl refl in
    record {
      addressed = s.addressed;
      linked = s.linked;
      peered = s.peered;
      table = s.table;
      calling = s.calling;
      queued = λ m h. elim h [ inl e ↦ cc | inr none_left ↦ absurd none_left ];
    }

loaded-IsSoundNetwork : IsSoundNetwork topology queue laws two_way loaded
unfolding lookup
loaded-IsSoundNetwork = record {
  routers = (carrying-IsSound, (node_at-IsSound "s" "r" refl refl refl, tt));
  hosts = tt;
}

forward_lem_example :
    (router_turn queue env router_env "r" loaded
      ≡ some (record loaded {
        routers = insert "r" (forwarded parcel true (received carrying [])) loaded.routers;
      }))
    × ((e : RoutingTableEntry)
        → lookup "s" carrying.node.routing_table ≡ some e
        → IsRoute topology "r" "s" e)
unfolding lookup
forward_lem_example =
    forward_lem queue env router_env topology laws two_way {n = loaded} {n' = loaded} "r" carrying
      parcel [] loaded-IsSoundNetwork here refl refl refl
