-- ===== src/Routing/Forward.antt =====
-- What a router does with a packet, `Router::handleNewMessage` and `routeAndForwardPacket`, in the
-- states that a network reaches.
use cn_project.Base.{
  String, ◌≡◌, refl, ap, ◌∙◌, Bool, true, false, Bool-cases, Option, none, some, List, [], ◌∷◌,
  ◌++◌, append_assoc, inl, inr, if◌then◌else◌,
}
use cn_project.Base.Dict.{lookup, insert}
use cn_project.Message.{Message, Packet, data_packet}
use cn_project.Tcp.{Env}
use cn_project.Nodes.Queue.{MessageQueue, QueueLaws}
use cn_project.Nodes.Node.{
  RoutingTableEntry, Call, taken_by, sleep_for, print_line, log_line, log, call, dec_running,
  received_message, routing_packet, dropped, address_not_found,
}
use cn_project.Nodes.Router
use cn_project.Nodes.Router.{
  Router, RouterEnv, RouterDefaults, Turn, waiting, fault, going, left, route_and_forward_packet,
  handle_new_message,
}
use cn_project.Network.{Network}
use cn_project.Network.Running.{router_turn}
use cn_project.Routing.{Topology, IsTwoWay, IsRoute}
use cn_project.Routing.World.{IsSoundNetwork}
use cn_project.Routing.Steps.{Reach, reached_routes}

-- What becomes of a packet that the drop rate spares or not, by the entry for its destination.
abbrev pub outcome : {Q : Type 0} → Router Q → Packet → Bool → Option RoutingTableEntry → List Call
outcome r p false e = log_line r.node.log_filename dropped ∷ []
outcome r p true none = print_line address_not_found ∷ []
outcome r p true (some e) = sleep_for r.delay ∷ taken_by e.next_hop (data_packet p) ∷ []

module _ {Q : Type 0} where
  abbrev pub forwarded : Packet → Bool → Router Q → Router Q
  forwarded p spared r = record r {
    node = record r.node {
      calls =
          r.node.calls
          ++ (log_line r.node.log_filename (routing_packet p.source p.destination)
              ∷ outcome r p spared (lookup p.destination r.node.routing_table));
    };
  }

  abbrev with_calls : Router Q → List Call → Router Q
  with_calls r ks = record r { node = record r.node { calls = ks } }

  abbrev noted : Packet → Router Q → Router Q
  noted p r = record r { node = log (routing_packet p.source p.destination) r.node }

  -- The router once a message has come out of its queue.
  abbrev pub received : Router Q → Q → Router Q
  received r rest = record r {
    node = record r.node {
      node_queue = rest;
      calls = r.node.calls ++ (log_line r.node.log_filename received_message ∷ []);
    };
  }

  route_lem :
      (p : Packet) (r : Router Q)
      → route_and_forward_packet p r
        ≡ with_calls r
            (r.node.calls ++ outcome r p true (lookup p.destination r.node.routing_table))
  unfolding route_and_forward_packet
  route_lem p r = by_entry (lookup p.destination r.node.routing_table)
    where
      routed : Option RoutingTableEntry → Router Q
      routed o = elim o [
        | none ↦ record r { node = call (print_line address_not_found) r.node }
        | some entry ↦ record r {
          node = call (taken_by entry.next_hop (data_packet p)) (call (sleep_for r.delay) r.node);
        }
      ]

      by_entry :
          (o : Option RoutingTableEntry)
          → routed o ≡ with_calls r (r.node.calls ++ outcome r p true o)
      by_entry none = refl
      by_entry (some entry) = ap (with_calls r) (append_assoc r.node.calls _ _)

  handle_packet_lem :
      (env : RouterEnv) (defaults : RouterDefaults) (p : Packet) (r : Router Q)
      → handle_new_message env defaults (data_packet p) r
        ≡ forwarded p (env.exceeds env.rand defaults.drop_rate) r
  unfolding handle_new_message log
  handle_packet_lem env defaults p r = elim (Bool-cases (env.exceeds env.rand defaults.drop_rate)) [
    | inl spared ↦
        rw spared (route_lem p (noted p r) ∙ ap (with_calls r) (append_assoc r.node.calls _ _))
    | inr not_spared ↦ rw not_spared (ap (with_calls r) (append_assoc r.node.calls _ _))
  ]

  module _ (queue : MessageQueue Q) (env : Env) (renv : RouterEnv) where
    -- The turn of a router that is not to stop, at whose queue a packet comes out.
    turn_lem :
        (defaults : RouterDefaults) (p : Packet) (rest : Q) (r : Router Q)
        → r.node.must_stop ≡ false
        → queue.wait_dequeue r.node.node_queue ≡ some (some (data_packet p), rest)
        → Router.turn queue renv defaults r
          ≡ going (forwarded p (renv.exceeds renv.rand defaults.drop_rate) (received r rest))
    unfolding Router.turn log
    turn_lem defaults p rest r goes_on out =
        ap turned out
        ∙ ap (λ b. if b then left (ended rest) else next rest (some (data_packet p))) goes_on
        ∙ ap going (handle_packet_lem renv defaults p (received r rest))
      where
        ended : Q → Router Q
        ended rest = record r {
          node =
              call dec_running
                (record (received r rest).node { must_stop = false; is_running = false });
        }

        next : Q → Option Message → Turn (Router Q)
        next rest message = elim message [
          | none ↦ fault
          | some m ↦ going (handle_new_message renv defaults m (received r rest))
        ]

        turned : Option (Option Message × Q) → Turn (Router Q)
        turned o = elim o [
          | none ↦ waiting
          | some (message, rest) ↦ if r.node.must_stop then left (ended rest) else next rest message
        ]

    -- A network with a fixed two-way topology reaches a state from a sound one, by starts, turns,
    -- calls, timers and commands in any order. There a router that is not to stop takes a packet
    -- from its queue. Its turn is no fault and changes that router only: the packet leaves its
    -- queue, and two lines of the log are added to the calls that it has to make. If the drop rate
    -- does not spare the packet, a third line follows; if the table has no entry for its
    -- destination, a line on the console; else the delay and the handing over of that very packet
    -- to the next hop of the entry. That next hop has a link from the router in the topology, and
    -- it is the destination, with an entry of the cost of that link, or has a walk to it, with an
    -- entry of the cost of the walk and the link (modulo 2^64).
    pub forward_lem :
        (t : Topology) (laws : QueueLaws queue) (two_way : IsTwoWay t) {n n' : Network Q}
        (at : String) (r : Router Q) (p : Packet) (rest : Q)
        → IsSoundNetwork t queue laws two_way n
        → Reach queue n n'
        → lookup at n'.routers ≡ some r
        → r.node.must_stop ≡ false
        → queue.wait_dequeue r.node.node_queue ≡ some (some (data_packet p), rest)
        → (router_turn queue env renv at n'
            ≡ some (record n' {
              routers =
                  insert at
                    (forwarded p (renv.exceeds renv.rand n'.defaults.drop_rate) (received r rest))
                    n'.routers;
            }))
          × ((e : RoutingTableEntry)
              → lookup p.destination r.node.routing_table ≡ some e
              → IsRoute t at p.destination e)
    unfolding router_turn
    forward_lem t laws two_way {n' = n'} at r p rest s reach found goes_on out = (
      ap at_router found ∙ ap turned (turn_lem n'.defaults p rest r goes_on out),
      λ e known. (reached_routes queue t laws two_way at r p.destination e s reach found known).0,
    )
      where
        turned : Turn (Router Q) → Option (Network Q)
        turned u = elim u [
          | waiting ↦ some n'
          | fault ↦ none
          | going r' ↦ some (record n' { routers = insert at r' n'.routers })
          | left r' ↦ some (record n' { routers = insert at r' n'.routers })
        ]

        at_router : Option (Router Q) → Option (Network Q)
        at_router o = elim o [
          | none ↦ some n'
          | some x ↦ turned (Router.turn queue renv n'.defaults x)
        ]
