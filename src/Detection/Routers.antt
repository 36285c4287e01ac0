-- ===== src/Detection/Routers.antt =====
-- What a router does keeps its balance: turns and starts.
use cn_project.Base.{
  ℕ, String, ◌≡◌, sym, subst, Bool, true, false, Option, none, some, [], ◌∷◌, arith, Option-cases,
  inl, inr, if_both, if◌then◌else◌, add64,
}
use cn_project.Base.Dict.{Dict, lookup, insert}
use cn_project.Message.{routing, data_packet, Message}
use cn_project.Nodes.Queue.{MessageQueue, QueueLaws}
use cn_project.Nodes.Node.{
  AbstractNode, RoutingTableEntry, Link, LogLine, dec_running, log, call, link_cost,
  handling_routing_message, routing_packet, dropped, received_message, starting, inc_running,
}
use cn_project.Nodes.Router
use cn_project.Nodes.Router.{
  Router, RouterEnv, RouterDefaults, Turn, waiting, fault, going, left, broad_cast_table,
  broad_cast_new_link,
}
use cn_project.Nodes.Quiet.{IsKept, log-Good, route_and_forward_packet-Good}
use cn_project.Detection.{CountsMessages, IsOpen, IsBalanced, IsBalancedBy, routing_in}
use cn_project.Detection.Balance.{
  IsBalanced-refl, IsBalanced-trans, IsBalanced-IsKept, update_routing_table-IsBalanced,
  broad_cast_new_link-IsBalanced, counted_down-IsBalancedBy,
}

module _ (Here : String → Type 0) {Q : Type 0} (queue : MessageQueue Q) (laws : QueueLaws queue)
    (counts : CountsMessages queue laws) where
  abbrev By : ℕ → AbstractNode Q → AbstractNode Q → Type 0
  By = IsBalancedBy Here queue laws counts

  abbrev Balanced : AbstractNode Q → AbstractNode Q → Type 0
  Balanced = IsBalanced Here queue laws counts

  and_then : (gain : ℕ) (n₁ n₂ n₃ : AbstractNode Q) → Balanced n₁ n₂ → By gain n₂ n₃ → By gain n₁ n₃
  and_then = IsBalanced-trans Here queue laws counts

  pub log-Balanced : (line : LogLine) (n : AbstractNode Q) → Balanced n (log line n)
  log-Balanced line n =
      log-Good (Balanced n) (IsBalanced-IsKept Here queue laws counts n) line n
        (IsBalanced-refl Here queue laws counts n)

  -- `m_links[addr]` changes links only.
  pub link_cost-Balanced : (addr : String) (n : AbstractNode Q) → Balanced n (link_cost addr n).1
  unfolding link_cost
  link_cost-Balanced addr n = read-Balanced (lookup addr n.links)
    where
      read-Balanced :
          (o : Option Link)
          → Balanced n
              (elim o as (λ _. ℕ × AbstractNode Q) [
                | none ↦
                    (0, record n { links = insert addr (record { node = none; cost = 0 }) n.links })
                | some link ↦ (link.cost, n)
              ]).1
      read-Balanced none = record {
        opened = λ o. record { going = o.going; peered = o.peered; calling = o.calling };
        balance = λ o. omega arith;
      }
      read-Balanced (some link) = IsBalanced-refl Here queue laws counts n

  module _ (env : RouterEnv) (defaults : RouterDefaults) where
    pub handle_new_message-By :
        (m : Message) (r : Router Q)
        → By (routing_in (some m)) r.node (Router.handle_new_message env defaults m r).node
    unfolding Router.handle_new_message
    handle_new_message-By (routing m) r =
        let logged = log (handling_routing_message m.destination m.cost m.sender) r.node in
        let read = link_cost m.sender logged in
        let u =
          Router.update_routing_table m.destination (add64 m.cost read.0) m.sender
            (record r { node = read.1 }) in
        and_then 1 r.node logged _ (log-Balanced _ r.node) (
          and_then 1 logged read.1 _ (link_cost-Balanced m.sender logged) (
            and_then 1 read.1 u.0.node _
              (update_routing_table-IsBalanced Here queue laws counts m.destination
                (add64 m.cost read.0) m.sender (record r { node = read.1 }))
              (counted_down-IsBalancedBy Here queue laws counts u.0.node)))
    handle_new_message-By (data_packet p) r =
        let logged = log (routing_packet p.source p.destination) r.node in
        let noted = log-Balanced (routing_packet p.source p.destination) r.node in
        if_both (λ (x : Router Q). Balanced r.node x.node) (env.exceeds env.rand defaults.drop_rate)
          _ _
          (route_and_forward_packet-Good (Balanced r.node)
            (IsBalanced-IsKept Here queue laws counts r.node) p (record r { node = logged }) noted)
          (and_then 0 r.node logged _ noted (log-Balanced dropped logged))

  -- A message that is taken from the queue is no longer owed.
  pub dequeued-Balanced :
      (n n' : AbstractNode Q) (x : Option Message) (rest : Q)
      → queue.wait_dequeue n.node_queue ≡ some (x, rest)
      → By (routing_in x) (record n { node_queue = rest }) n'
      → Balanced n n'
  dequeued-Balanced n n' x rest taken b = record {
    opened = λ o. b.opened (without o);
    balance = λ o. omega (arith, b.balance (without o), counts.dequeued x n.node_queue rest taken);
  }
    where
      without : IsOpen Here n → IsOpen Here (record n { node_queue = rest })
      without o = record { going = o.going; peered = o.peered; calling = o.calling }

  -- If the turn goes on, it keeps the balance; a node that is not to stop is not left.
  abbrev pub BalancedTurn : {N : Type 0} → (N → AbstractNode Q) → AbstractNode Q → Turn N → Type 0
  BalancedTurn node n waiting = Unit {0}
  BalancedTurn node n fault = Unit {0}
  BalancedTurn node n (going x) = Balanced n (node x)
  BalancedTurn node n (left x) = ⊥

  abbrev pub KeepsTurn : Router Q → Turn (Router Q) → Type 0
  KeepsTurn r = BalancedTurn (λ (x : Router Q). x.node) r.node

  pub router_turn-Balanced :
      (env : RouterEnv) (defaults : RouterDefaults) (r : Router Q)
      → r.node.must_stop ≡ false
      → KeepsTurn r (Router.turn queue env defaults r)
  unfolding Router.turn log
  router_turn-Balanced env defaults r on =
      elim (Option-cases (queue.wait_dequeue r.node.node_queue)) [
        | inl e ↦ subst (λ o. KeepsTurn r (turned o)) (sym e) tt
        | inr ((message, rest), e) ↦
            subst (λ o. KeepsTurn r (turned o)) (sym e)
              (subst (λ b. KeepsTurn r (ends b message rest)) (sym on)
                (next-Balanced message rest e))
      ]
    where
      noted : Q → AbstractNode Q
      noted rest = log received_message (record r.node { node_queue = rest })

      ended : Q → Router Q
      ended rest = record r {
        node = call dec_running (record (noted rest) { must_stop = false; is_running = false });
      }

      next : Q → Option Message → Turn (Router Q)
      next rest message = elim message [
        | none ↦ fault
        | some m ↦ going (Router.handle_new_message env defaults m (record r { node = noted rest }))
      ]

      ends : Bool → Option Message → Q → Turn (Router Q)
      ends stop message rest = if stop then left (ended rest) else next rest message

      turned : Option (Option Message × Q) → Turn (Router Q)
      turned o = elim o [
        | none ↦ waiting
        | some (message, rest) ↦ ends (noted rest).must_stop message rest
      ]

      next-Balanced :
          (message : Option Message) (rest : Q)
          → queue.wait_dequeue r.node.node_queue ≡ some (message, rest)
          → KeepsTurn r (next rest message)
      next-Balanced none rest e = tt
      next-Balanced (some m) rest e = dequeued-Balanced r.node _ (some m) rest e (
          and_then (routing_in (some m)) (record r.node { node_queue = rest }) (noted rest) _
            (log-Balanced received_message (record r.node { node_queue = rest }))
            (handle_new_message-By env defaults m (record r { node = noted rest })))

  broad_cast_table-Balanced :
      (table : Dict RoutingTableEntry) (n : AbstractNode Q) → Balanced n (broad_cast_table table n)
  unfolding broad_cast_table
  broad_cast_table-Balanced [] n = IsBalanced-refl Here queue laws counts n
  broad_cast_table-Balanced (pair ∷ rest) n =
      and_then 0 n (broad_cast_new_link pair.0 pair.1.cost n) _
        (broad_cast_new_link-IsBalanced Here queue laws counts pair.0 pair.1.cost n)
        (broad_cast_table-Balanced rest _)

  -- A thread counts itself when it starts.
  pub started-Balanced :
      (n : AbstractNode Q)
      → Balanced n
          (call inc_running (record (log starting n) { is_running = true; is_joinable = true }))
  started-Balanced n = and_then 0 n (log starting n) _ (log-Balanced starting n) (
      and_then 0 (log starting n)
        (record (log starting n) { is_running = true; is_joinable = true }) _
        (record {
          opened = λ o. record { going = o.going; peered = o.peered; calling = o.calling };
          balance = λ o. omega arith;
        })
        (IsKept.kept (IsBalanced-IsKept Here queue laws counts _) inc_running _ tt
          (IsBalanced-refl Here queue laws counts _)))

  pub router_start-Balanced : (r : Router Q) → Balanced r.node (Router.start_node r).node
  unfolding Router.start_node log
  router_start-Balanced r =
      and_then 0 r.node
        (call inc_running (record (log starting r.node) { is_running = true; is_joinable = true }))
        _ (started-Balanced r.node) (broad_cast_table-Balanced r.node.routing_table _)
