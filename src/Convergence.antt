-- ===== src/Convergence.antt =====
-- What one router tells another over a link: in its calls, in the other's queue and in the other's
-- routing table.
pub mod Later
pub mod Update
pub mod Handle
pub mod Turns
pub mod Start
pub mod World
pub mod Deliver
pub mod Calls
pub mod Hosts
pub mod Steps
pub mod Cheapest
use mathlib.Core.List.{Memᴰ}
use cn_project.Base.{ℕ, String, ◌≤◌, ◌≡◌, ◌⊎◌, Option, some, List, true, false, add64, u64_max}
use cn_project.Base.Dict.{lookup}
use cn_project.Message.{Message, routing, RoutingMessage}
use cn_project.Nodes.Queue.{MessageQueue, QueueLaws}
use cn_project.Nodes.Node.{AbstractNode, Link, Call, taken_by}
use cn_project.Nodes.Router.{Router}
use cn_project.Nodes.Table.{cost_to}
use cn_project.Nodes.Broadcast.{neighbours}

-- What is relied on besides `QueueLaws`: no message is lost.
pub record KeepsMessages {Q : Type 0} (queue : MessageQueue Q) (laws : QueueLaws queue)
    : Type 0 where
  pub enqueue_holds : (m : Option Message) (q : Q) → laws.Holds m (queue.enqueue m q)
  pub enqueue_keeps :
      (m x : Option Message) (q : Q) → laws.Holds m q → laws.Holds m (queue.enqueue x q)
  pub try_enqueue_keeps :
      (m x : Option Message) (q : Q) → laws.Holds m q → laws.Holds m (queue.try_enqueue x q)
  pub dequeue_keeps :
      (m x : Option Message) (q rest : Q)
      → queue.wait_dequeue q ≡ some (x, rest)
      → laws.Holds m q
      → (m ≡ x) ⊎ laws.Holds m rest

abbrev pub tale : String → String → ℕ → RoutingMessage
tale sender dest cost = record { sender = sender; destination = dest; cost = cost }

module _ {Q : Type 0} where
  -- A way to the destination is known that costs no more than the bound.
  abbrev pub IsBelow : String → ℕ → AbstractNode Q → Type 0
  IsBelow dest bound n = (c : ℕ) × (cost_to dest n ≡ some c) × (c ≤ bound)

  -- The node has still to tell the neighbour of a way to the destination.
  abbrev pub IsTelling : String → String → ℕ → AbstractNode Q → Type 0
  IsTelling neighbour dest cost n =
      Memᴰ (taken_by neighbour (routing (tale n.addr dest cost))) n.calls

  module _ (queue : MessageQueue Q) (laws : QueueLaws queue) where
    -- From one state of a node to a later one, whatever it has done besides making its calls: costs
    -- only fall, each new cost is on its way to all neighbours of a running node, and each message
    -- about a way has been taken into account or is still in the queue.
    pub record IsLater (n n' : AbstractNode Q) : Type 0 where
      pub same_addr : n'.addr ≡ n.addr
      pub same_neighbours : neighbours n' ≡ neighbours n
      pub links_kept :
          (a : String) (l : Link) → lookup a n.links ≡ some l → lookup a n'.links ≡ some l
      pub going_on : n.must_stop ≡ false → n'.must_stop ≡ false
      pub calling : {k : Call} → Memᴰ k n.calls → Memᴰ k n'.calls
      pub falling : (dest : String) (bound : ℕ) → IsBelow dest bound n → IsBelow dest bound n'
      pub telling :
          (dest : String) (cost : ℕ)
          → n'.is_running ≡ true
          → cost_to dest n' ≡ some cost
          → ((n.is_running ≡ true) × (cost_to dest n ≡ some cost))
            ⊎ ((y : String) → Memᴰ y (neighbours n) → IsTelling y dest cost n')
      pub heeding :
          (m : RoutingMessage) (l : Link)
          → n.must_stop ≡ false
          → lookup m.sender n.links ≡ some l
          → laws.Holds (some (routing m)) n.node_queue
          → IsBelow m.destination (add64 m.cost l.cost) n'
            ⊎ laws.Holds (some (routing m)) n'.node_queue

    module _ (sender receiver : String) (l : Link) where
      -- What the sender knows, the receiver knows over the link, or will be told: by a call that the
      -- sender has still to make, by a message in the receiver's queue, or by the call `missing`.
      pub record IsTold (missing : Option Call) (x y : Router Q) : Type 0 where
        pub addressed : x.node.addr ≡ sender
        pub peer : Memᴰ receiver (neighbours x.node)
        pub linked : lookup sender y.node.links ≡ some l
        pub going : y.node.must_stop ≡ false
        pub unlimited : y.fifo_size ≡ u64_max
        pub told :
            (dest : String) (cost : ℕ)
            → x.node.is_running ≡ true
            → cost_to dest x.node ≡ some cost
            → IsBelow dest (add64 cost l.cost) y.node
              ⊎ (IsTelling receiver dest cost x.node
                  ⊎ (laws.Holds (some (routing (tale sender dest cost))) y.node.node_queue
                      ⊎ (missing ≡ some (taken_by receiver (routing (tale sender dest cost))))))
