-- ===== src/Detection.antt =====
-- How the network finds out that its routing tables have settled: the counter of NetworkController
-- against the routing messages that wait in queues and the calls that have still to be made.
pub mod Balance
pub mod Routers
pub mod Hosts
pub mod Arrivals
pub mod World
pub mod Deliver
pub mod Calls
pub mod Starts
pub mod Steps
pub mod Empty
pub mod Waiting
use cn_project.Base.{
  ℕ, String, ◌+◌, ◌%◌, ◌^◌, ◌≡◌, ◌⊎◌, Option, none, some, List, [], ◌∷◌, All, false, u64_max,
}
use cn_project.Base.Dict.{Dict, lookup, AllEntries}
use cn_project.Message.{Message, routing, data_packet}
use cn_project.Nodes.Queue.{MessageQueue, QueueLaws}
use cn_project.Nodes.Node.{
  AbstractNode, Call, taken_by, inc_converge, dec_converge, inc_running, dec_running, sleep_for,
  write_to_file, log_line, print_line,
}
use cn_project.Nodes.Router.{Router}
use cn_project.Nodes.Host.{Host}
use cn_project.Nodes.Broadcast.{neighbours}
use cn_project.Network.{Network}

abbrev pub routing_in : Option Message → ℕ
routing_in none = 0
routing_in (some (routing m)) = 1
routing_in (some (data_packet p)) = 0

-- What is relied on besides `QueueLaws`: the routing messages in a queue can be counted, each comes
-- out once, and none is lost on its way in.
pub record CountsMessages {Q : Type 0} (queue : MessageQueue Q) (laws : QueueLaws queue)
    : Type 0 where
  pub waiting : Q → ℕ
  pub enqueued :
      (m : Option Message) (q : Q) → waiting (queue.enqueue m q) ≡ waiting q + routing_in m
  pub dequeued :
      (x : Option Message) (q rest : Q)
      → queue.wait_dequeue q ≡ some (x, rest)
      → waiting q ≡ waiting rest + routing_in x
  pub none_held :
      (q : Q) → waiting q ≡ 0 → (x : Option Message) → routing_in x ≡ 1 → laws.Holds x q → ⊥

-- What a call that has still to be made will take from the counter, or put into a queue ...
abbrev pub debit : Call → ℕ
debit (taken_by addr m) = routing_in (some m)
debit inc_converge = 0
debit dec_converge = 1
debit inc_running = 0
debit dec_running = 0
debit (sleep_for t) = 0
debit (write_to_file h s b) = 0
debit (log_line f l) = 0
debit (print_line o) = 0

-- ... and what it will add to the counter.
abbrev pub credit : Call → ℕ
credit (taken_by addr m) = 0
credit inc_converge = 1
credit dec_converge = 0
credit inc_running = 0
credit dec_running = 0
credit (sleep_for t) = 0
credit (write_to_file h s b) = 0
credit (log_line f l) = 0
credit (print_line o) = 0

abbrev pub debits : List Call → ℕ
debits [] = 0
debits (k ∷ ks) = debit k + debits ks

abbrev pub credits : List Call → ℕ
credits [] = 0
credits (k ∷ ks) = credit k + credits ks

abbrev pub sum_of {ℓ} : {A : Type ℓ} → (A → ℕ) → Dict A → ℕ
sum_of f [] = 0
sum_of f (entry ∷ rest) = f entry.1 + sum_of f rest

module _ {Q : Type 0} where
  -- The routing messages that a node has still to count.
  abbrev pub uncounted : AbstractNode Q → ℕ
  uncounted n = credits n.calls

  abbrev pub total : (AbstractNode Q → ℕ) → Network Q → ℕ
  total f n =
      sum_of (λ (r : Router Q). f r.node) n.routers + sum_of (λ (h : Host Q). f h.node) n.hosts

  -- Those that wait at a node, or that it has still to hand over or to count down.
  abbrev pub owed :
      (queue : MessageQueue Q) (laws : QueueLaws queue)
      → CountsMessages queue laws
      → AbstractNode Q
      → ℕ
  owed queue laws counts n = counts.waiting n.node_queue + debits n.calls

module _ (Here : String → Type 0) where
  -- A routing message is handed over to a node that there is.
  abbrev pub IsHereCall : Call → Type 0
  IsHereCall (taken_by y (routing m)) = Here y
  IsHereCall (taken_by y (data_packet p)) = Unit {0}
  IsHereCall inc_converge = Unit {0}
  IsHereCall dec_converge = Unit {0}
  IsHereCall inc_running = Unit {0}
  IsHereCall dec_running = Unit {0}
  IsHereCall (sleep_for time) = Unit {0}
  IsHereCall (write_to_file host source bytes) = Unit {0}
  IsHereCall (log_line file line) = Unit {0}
  IsHereCall (print_line line) = Unit {0}

  module _ {Q : Type 0} where
    -- A node that is not to stop, whose neighbours and messages' receivers are in the network.
    pub record IsOpen (n : AbstractNode Q) : Type 0 where
      pub going : n.must_stop ≡ false
      pub peered : All Here (neighbours n)
      pub calling : All IsHereCall n.calls

    module _ (queue : MessageQueue Q) (laws : QueueLaws queue)
        (counts : CountsMessages queue laws) where
      -- From one state of a node to a later one: what it owes and what it counts change together, but
      -- for a gain.
      pub record IsBalancedBy (gain : ℕ) (n n' : AbstractNode Q) : Type 0 where
        pub opened : IsOpen n → IsOpen n'
        pub balance :
            IsOpen n
            → owed queue laws counts n' + uncounted n
              ≡ owed queue laws counts n + gain + uncounted n'

      abbrev pub IsBalanced : AbstractNode Q → AbstractNode Q → Type 0
      IsBalanced = IsBalancedBy 0

      -- All nodes are open, and the counter is what is owed, less what is not yet counted, but for a
      -- call that is being made, of which `d` is owed and `c` uncounted.
      pub record IsAccountedBut (d c : ℕ) (n : Network Q) : Type 0 where
        pub routers :
            AllEntries (λ _ (r : Router Q). IsOpen r.node × (r.fifo_size ≡ u64_max)) n.routers
        pub hosts : AllEntries (λ _ (h : Host Q). IsOpen h.node) n.hosts
        pub found :
            (at : String)
            → Here at
            → ((r : Router Q) × (lookup at n.routers ≡ some r))
              ⊎ ((h : Host Q) × (lookup at n.hosts ≡ some h))
        pub accounted :
            (n.controller.alg_converge_counter + total uncounted n + c) % 2 ^ 64
            ≡ (total (owed queue laws counts) n + d) % 2 ^ 64

      abbrev pub IsAccounted : Network Q → Type 0
      IsAccounted = IsAccountedBut 0 0
