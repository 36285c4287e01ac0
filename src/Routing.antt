-- ===== src/Routing.antt =====
-- The routes of a network whose links are fixed. A topology gives the links of each node and the
-- nodes that it sends routing messages to; a walk adds up the costs of links, as uint64_t does.
pub mod Update
pub mod Handle
pub mod Hosts
pub mod Turns
pub mod World
pub mod Returns
pub mod Steps
pub mod Forward
use cn_project.Base.{ℕ, String, ◌≡◌, ◌⊎◌, Option, some, List, All, add64}
use cn_project.Base.Dict.{Dict, lookup, AllEntries}
use cn_project.Message.{Message, RoutingMessage, routing, data_packet}
use cn_project.Nodes.Queue.{MessageQueue, QueueLaws}
use cn_project.Nodes.Node.{
  AbstractNode, RoutingTableEntry, Link, Call, taken_by, inc_converge, dec_converge, inc_running,
  dec_running, sleep_for, write_to_file, log_line, print_line,
}
use cn_project.Nodes.Broadcast.{neighbours}

pub record Topology : Type 0 where
  pub links : String → Dict Link
  pub peers : String → List String

module _ (t : Topology) where
  open t use {links, peers}

  -- A node has a link to another one.
  abbrev pub HasLink : String → String → Type 0
  HasLink x y = (l : Link) × (lookup y (links x) ≡ some l)

  -- Whoever is sent routing messages has a link back.
  abbrev pub IsTwoWay : Type 0
  IsTwoWay = (x : String) → All (λ y. HasLink y x) (peers x)

  -- A walk from one node to another, with its cost.
  pub data Walk : String → String → ℕ → Type 0 where
    edge : {x y : String} (l : Link) → lookup y (links x) ≡ some l → Walk x y l.cost
    onward :
        {x y z : String} {k : ℕ} (l : Link)
        → lookup y (links x) ≡ some l
        → Walk y z k
        → Walk x z (add64 k l.cost)

  -- The message tells the cost of a walk, to a node with a link to its sender.
  pub record IsTrue (at : String) (m : RoutingMessage) : Type 0 where
    pub walk : Walk m.sender m.destination m.cost
    pub back : HasLink at m.sender

  -- The entry has the cost of a walk that begins with the link to its next hop.
  pub record IsRoute (x dest : String) (e : RoutingTableEntry) : Type 0 where
    pub first : Link
    pub linked : lookup e.next_hop (links x) ≡ some first
    pub rest :
        ((e.next_hop ≡ dest) × (e.cost ≡ first.cost))
        ⊎ ((k : ℕ) × Walk e.next_hop dest k × (e.cost ≡ add64 k first.cost))

  abbrev pub IsTrueCall : Call → Type 0
  IsTrueCall (taken_by y (routing m)) = IsTrue y m
  IsTrueCall (taken_by y (data_packet p)) = Unit {0}
  IsTrueCall inc_converge = Unit {0}
  IsTrueCall dec_converge = Unit {0}
  IsTrueCall inc_running = Unit {0}
  IsTrueCall dec_running = Unit {0}
  IsTrueCall (sleep_for time) = Unit {0}
  IsTrueCall (write_to_file host source bytes) = Unit {0}
  IsTrueCall (log_line file line) = Unit {0}
  IsTrueCall (print_line line) = Unit {0}

  module _ {Q : Type 0} (queue : MessageQueue Q) (laws : QueueLaws queue) where
    -- The node at an address: its links are those of the topology, and its table, its queue and the
    -- calls that it has still to make tell costs of walks.
    pub record IsSound (at : String) (n : AbstractNode Q) : Type 0 where
      pub addressed : n.addr ≡ at
      pub linked : n.links ≡ links at
      pub peered : neighbours n ≡ peers at
      pub table : AllEntries (IsRoute at) n.routing_table
      pub calling : All IsTrueCall n.calls
      pub queued : (m : RoutingMessage) → laws.Holds (some (routing m)) n.node_queue → IsTrue at m
