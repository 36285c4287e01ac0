-- ===== src/Routing/Handle.antt =====
-- The methods of routers and hosts leave a sound node sound.
use cn_project.Base.{
  ℕ, String, ◌≡◌, ◌⊎◌, sym, ap, subst, ◌∙◌, Option, none, some, [], ◌∷◌, Option-cases, inl, inr,
  add64, ◌==◌, u64_max, if_both,
}
use cn_project.Base.Dict.{lookup}
use cn_project.Message.{Message, RoutingMessage, Packet, routing, data_packet}
use cn_project.Nodes.Queue.{MessageQueue, QueueLaws}
use cn_project.Nodes.Node.{
  AbstractNode, RoutingTableEntry, Link, log, call, print_line, taken_by, sleep_for, dec_converge,
  link_cost, handling_routing_message, routing_packet, dropped, received_message, address_not_found,
  take_message as take_at_node,
}
use cn_project.Nodes.Router
use cn_project.Nodes.Router.{
  Router, RouterEnv, RouterDefaults, Turn, waiting, fault, going, left, route_and_forward_packet,
  broad_cast_table,
}
use cn_project.Nodes.Broadcast.{link_cost_found}
use cn_project.Routing.{Topology, IsTwoWay, IsTrue, IsSound}
use cn_project.Routing.Update.{
  calling-IsSound, log-IsSound, update_routing_table-IsSound, heard-IsRoute,
}

module _ (t : Topology) {Q : Type 0} (queue : MessageQueue Q) (laws : QueueLaws queue)
    (two_way : IsTwoWay t) (at : String) where
  abbrev Sound : AbstractNode Q → Type 0
  Sound = IsSound t queue laws at

  -- A routing message that is true here; a packet says nothing of routes.
  abbrev pub IsTrueMessage : Message → Type 0
  IsTrueMessage (routing m) = IsTrue t at m
  IsTrueMessage (data_packet p) = Unit {0}

  -- A node whose queue holds nothing new.
  pub requeued :
      (q : Q) (n : AbstractNode Q)
      → ((m : RoutingMessage) → laws.Holds (some (routing m)) q → IsTrue t at m)
      → Sound n
      → Sound (record n { node_queue = q })
  requeued q n h s = record {
    addressed = s.addressed;
    linked = s.linked;
    peered = s.peered;
    table = s.table;
    calling = s.calling;
    queued = h;
  }

  -- What is put into the queue is true.
  admitted :
      (m : Message) (n : AbstractNode Q) (q : Q)
      → IsTrueMessage m
      → Sound n
      → ((x : Option Message) → laws.Holds x q → (x ≡ some m) ⊎ laws.Holds x n.node_queue)
      → Sound (record n { node_queue = q })
  admitted m n q true_message s only = requeued q n here s
    where
      is : (r : RoutingMessage) → some (routing r) ≡ some m → IsTrue t at r
      is r e =
          subst (λ o. elim o as (λ _. Type 0) [ none ↦ Unit {0} | some x ↦ IsTrueMessage x ])
            (sym e) true_message

      here : (r : RoutingMessage) → laws.Holds (some (routing r)) q → IsTrue t at r
      here r h = elim (only (some (routing r)) h) [ inl e ↦ is r e | inr old ↦ s.queued r old ]

  pub take_at_node-IsSound :
      (m : Message) (n : AbstractNode Q)
      → IsTrueMessage m
      → Sound n
      → Sound (take_at_node queue (some m) n)
  unfolding take_at_node
  take_at_node-IsSound m n h s =
      let s' = log-IsSound t queue laws two_way at received_message n s in
      if_both Sound n.must_stop _ _ s' (
        admitted m (log received_message n) (queue.enqueue (some m) n.node_queue) h s'
          (λ x held. unfold log in laws.enqueue_only x (some m) n.node_queue held))

  pub router_take-IsSound :
      (m : Message) (r : Router Q)
      → IsTrueMessage m
      → Sound r.node
      → Sound (Router.take_message queue (some m) r).node
  unfolding Router.take_message
  router_take-IsSound m r h s =
      if_both (λ (x : Router Q). Sound x.node) r.node.must_stop _ _ s
        (if_both (λ q. Sound (record r.node { node_queue = q })) (r.fifo_size == u64_max) _ _
          (admitted m r.node (queue.enqueue (some m) r.node.node_queue) h s
            (λ x held. laws.enqueue_only x (some m) r.node.node_queue held))
          (admitted m r.node (queue.try_enqueue (some m) r.node.node_queue) h s
            (λ x held. laws.try_enqueue_only x (some m) r.node.node_queue held)))

  -- The link to the sender of a true message.
  pub heard_from :
      (m : RoutingMessage) (n : AbstractNode Q)
      → IsTrue t at m
      → Sound n
      → (l : Link) × (lookup m.sender (t.links at) ≡ some l) × (link_cost m.sender n ≡ (l.cost, n))
  heard_from m n h s =
      let (l, found) = h.back in
      (l, found, link_cost_found m.sender n l (ap (lookup m.sender) s.linked ∙ found))

  forward-IsSound :
      (p : Packet) (r : Router Q) → Sound r.node → Sound (route_and_forward_packet p r).node
  unfolding route_and_forward_packet
  forward-IsSound p r s = elim (Option-cases (lookup p.destination r.node.routing_table)) [
    | inl e ↦
        subst (λ o. Sound (forward o).node) (sym e)
          (calling-IsSound t queue laws two_way at (print_line address_not_found ∷ []) r.node
            (tt, tt) s)
    | inr (entry, e) ↦
        subst (λ o. Sound (forward o).node) (sym e)
          (calling-IsSound t queue laws two_way at (taken_by entry.next_hop (data_packet p) ∷ []) _
            (tt, tt)
            (calling-IsSound t queue laws two_way at (sleep_for r.delay ∷ []) r.node (tt, tt) s))
  ]
    where
      forward : Option RoutingTableEntry → Router Q
      forward o = elim o [
        | none ↦ record r { node = call (print_line address_not_found) r.node }
        | some entry ↦ record r {
          node = call (taken_by entry.next_hop (data_packet p)) (call (sleep_for r.delay) r.node);
        }
      ]

  -- Whatever message a router handles that is true.
  pub router_handle-IsSound :
      (env : RouterEnv) (defaults : RouterDefaults) (m : Message) (r : Router Q)
      → IsTrueMessage m
      → Sound r.node
      → Sound (Router.handle_new_message env defaults m r).node
  unfolding Router.handle_new_message
  router_handle-IsSound env defaults (routing m) r h s =
      let line = handling_routing_message m.destination m.cost m.sender in
      let n = log line r.node in
      let s' = log-IsSound t queue laws two_way at line r.node s in
      let (l, linked, cost) = heard_from m n h s' in
      subst (λ p. Sound (from p)) (sym cost)
        (calling-IsSound t queue laws two_way at (dec_converge ∷ []) _ (tt, tt)
          (update_routing_table-IsSound t queue laws two_way at m.destination (add64 m.cost l.cost)
            m.sender (record r { node = n }) (heard-IsRoute t queue laws two_way at m l h linked)
            s'))
    where
      from : ℕ × AbstractNode Q → AbstractNode Q
      from p =
          call dec_converge
            (Router.update_routing_table m.destination (add64 m.cost p.0) m.sender
              (record r { node = p.1 })).0.node
  router_handle-IsSound env defaults (data_packet p) r h s =
      let s' =
        log-IsSound t queue laws two_way at (routing_packet p.source p.destination) r.node s in
      if_both (λ (x : Router Q). Sound x.node) (env.exceeds env.rand defaults.drop_rate) _ _
        (forward-IsSound p (record r { node = log (routing_packet p.source p.destination) r.node })
          s')
        (log-IsSound t queue laws two_way at dropped _ s')
