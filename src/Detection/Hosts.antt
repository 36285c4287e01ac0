-- ===== src/Detection/Hosts.antt =====
-- What a host does keeps its balance: turns and starts.
use cn_project.Base.{
  ℕ, String, ◌≡◌, sym, subst, arith, Bool, true, false, Option, none, some, Option-cases, inl, inr,
  if◌then◌else◌, add64, ltb, if_both,
}
use cn_project.Base.Dict.{Dict, lookup, insert}
use cn_project.Message.{routing, data_packet, Message}
use cn_project.Base.Traverse.{try_values, or_else}
use cn_project.Tcp.{TcpConnection, ConnectionInterface, ◌>>=◌}
use cn_project.Nodes.Queue.{MessageQueue, QueueLaws}
use cn_project.Nodes.Node.{
  log, starting, inc_running, AbstractNode, RoutingTableEntry, dec_running, call, link_cost,
  update_routing_table as update_node_table,
}
use cn_project.Nodes.Router.{Turn, waiting, fault, going, left}
use cn_project.Nodes.Host
use cn_project.Nodes.Host.{renew_connection, Host}
use cn_project.Nodes.Quiet.{GoodIf, at_connection-Good}
use cn_project.Detection.{CountsMessages, IsBalanced, IsBalancedBy, routing_in}
use cn_project.Detection.Balance.{
  IsBalanced-refl, IsBalanced-trans, IsBalanced-IsKept, counted_down-IsBalancedBy,
}
use cn_project.Detection.Routers.{
  link_cost-Balanced, dequeued-Balanced, started-Balanced, BalancedTurn,
}

module _ (Here : String → Type 0) {Q : Type 0} (queue : MessageQueue Q) (laws : QueueLaws queue)
    (counts : CountsMessages queue laws) where
  abbrev By : ℕ → AbstractNode Q → AbstractNode Q → Type 0
  By = IsBalancedBy Here queue laws counts

  abbrev Balanced : AbstractNode Q → AbstractNode Q → Type 0
  Balanced = IsBalanced Here queue laws counts

  and_then : (gain : ℕ) (n₁ n₂ n₃ : AbstractNode Q) → Balanced n₁ n₂ → By gain n₂ n₃ → By gain n₁ n₃
  and_then = IsBalanced-trans Here queue laws counts

  update_node_table-Balanced :
      (dest : String) (cost : ℕ) (hop : String) (n : AbstractNode Q)
      → Balanced n (update_node_table dest cost hop n).0
  unfolding update_node_table
  update_node_table-Balanced dest cost hop n = read (lookup dest n.routing_table)
    where
      written : AbstractNode Q
      written = record n {
        routing_table =
            insert dest (record { destination = dest; cost = cost; next_hop = hop })
              n.routing_table;
      }

      written-Balanced : Balanced n written
      written-Balanced = record {
        opened = λ o. record { going = o.going; peered = o.peered; calling = o.calling };
        balance = λ o. omega arith;
      }

      read :
          (o : Option RoutingTableEntry)
          → Balanced n
              (elim o as (λ _. AbstractNode Q × Bool) [
                | none ↦ (written, true)
                | some old ↦ if ltb cost old.cost then (written, true) else (n, false)
              ]).0
      read none = written-Balanced
      read (some old) =
          if_both (λ (p : AbstractNode Q × Bool). Balanced n p.0) (ltb cost old.cost) _ _
            written-Balanced (IsBalanced-refl Here queue laws counts n)

  -- If the handling returns a host, it has gained what the message owes.
  abbrev HandledBy : ℕ → AbstractNode Q → Option (Host Q) → Type 0
  HandledBy gain n none = Unit {0}
  HandledBy gain n (some h) = By gain n h.node

  host_handle-HandledBy :
      (tcp : ConnectionInterface TcpConnection) (m : Message) (h : Host Q)
      → HandledBy (routing_in (some m)) h.node (Host.handle_new_message tcp m h)
  unfolding Host.handle_new_message Host.handle_packet
  host_handle-HandledBy tcp (routing m) h =
      let read = link_cost m.sender h.node in
      let updated = (update_node_table m.destination (add64 m.cost read.0) m.sender read.1).0 in
      and_then 1 h.node read.1 _ (link_cost-Balanced Here queue laws counts m.sender h.node) (
        and_then 1 read.1 updated _
          (update_node_table-Balanced m.destination (add64 m.cost read.0) m.sender read.1)
          (counted_down-IsBalancedBy Here queue laws counts updated))
  host_handle-HandledBy tcp (data_packet p) h = handled _ (
      at_connection-Good (Balanced h.node) (IsBalanced-IsKept Here queue laws counts h.node)
        p.source _ _ h (IsBalanced-refl Here queue laws counts h.node))
    where
      handled :
          (o : Option (Host Q))
          → GoodIf (Balanced h.node) (IsBalanced-IsKept Here queue laws counts h.node) o
          → HandledBy 0 h.node o
      handled none g = tt
      handled (some h') g = g

  abbrev pub KeepsTurn : Host Q → Turn (Host Q) → Type 0
  KeepsTurn h = BalancedTurn Here queue laws counts (λ (x : Host Q). x.node) h.node

  pub host_turn-Balanced :
      (tcp : ConnectionInterface TcpConnection) (h : Host Q)
      → h.node.must_stop ≡ false
      → KeepsTurn h (Host.turn queue tcp h)
  unfolding Host.turn
  host_turn-Balanced tcp h on = elim (Option-cases (queue.wait_dequeue h.node.node_queue)) [
    | inl e ↦ subst (λ o. KeepsTurn h (turned o)) (sym e) tt
    | inr ((message, rest), e) ↦
        subst (λ o. KeepsTurn h (turned o)) (sym e)
          (subst (λ b. KeepsTurn h (ends b message rest)) (sym on) (next-Balanced message rest e))
  ]
    where
      bare : Q → AbstractNode Q
      bare rest = record h.node { node_queue = rest }

      ended : Q → Host Q
      ended rest = record h {
        node = call dec_running (record (bare rest) { must_stop = false; is_running = false });
      }

      handled : Option (Host Q) → Turn (Host Q)
      handled o = elim o [ none ↦ fault | some h' ↦ going h' ]

      next : Q → Option Message → Turn (Host Q)
      next rest message = elim message [
        | none ↦ fault
        | some m ↦ handled (Host.handle_new_message tcp m (record h { node = bare rest }))
      ]

      ends : Bool → Option Message → Q → Turn (Host Q)
      ends stop message rest = if stop then left (ended rest) else next rest message

      turned : Option (Option Message × Q) → Turn (Host Q)
      turned o = elim o [
        | none ↦ waiting
        | some (message, rest) ↦ ends h.node.must_stop message rest
      ]

      handled-Balanced :
          (m : Message) (rest : Q)
          → queue.wait_dequeue h.node.node_queue ≡ some (some m, rest)
          → (o : Option (Host Q)) → HandledBy (routing_in (some m)) (bare rest) o
          → KeepsTurn h (handled o)
      handled-Balanced m rest e none b = tt
      handled-Balanced m rest e (some h') b =
          dequeued-Balanced Here queue laws counts h.node h'.node (some m) rest e b

      next-Balanced :
          (message : Option Message) (rest : Q)
          → queue.wait_dequeue h.node.node_queue ≡ some (message, rest)
          → KeepsTurn h (next rest message)
      next-Balanced none rest e = tt
      next-Balanced (some m) rest e =
          handled-Balanced m rest e _ (host_handle-HandledBy tcp m (record h { node = bare rest }))

  pub host_start-Balanced :
      (tcp : ConnectionInterface TcpConnection) (h : Host Q)
      → Balanced h.node (or_else h (Host.start_node tcp h)).node
  unfolding Host.start_node Host.log
  host_start-Balanced tcp h =
      by_connections (try_values (renew_connection tcp h.node.addr) h.connections)
    where
      up : Dict TcpConnection → Host Q
      up cs = record {
        node =
            call inc_running
              (record (log starting h.node) { is_running = true; is_joinable = true });
        connections = cs;
      }

      by_connections :
          (o : Option (Dict TcpConnection))
          → Balanced h.node (or_else h (o >>= λ cs. some (up cs))).node
      by_connections none = IsBalanced-refl Here queue laws counts h.node
      by_connections (some cs) = started-Balanced Here queue laws counts h.node
