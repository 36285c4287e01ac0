-- ===== src/Nodes/Limits.antt =====
-- `m_fifoSize` of a router while it handles messages.
use cn_project.Base.{
  ℕ, String, ◌≡◌, inl, inr, refl, sym, subst, Option, none, some, Bool, false, Option-cases,
  if_both, if◌then◌else◌,
}
use cn_project.Base.Dict.{lookup}
use cn_project.Message.{Message, routing, data_packet, Packet}
use cn_project.Nodes.Queue.{MessageQueue}
use cn_project.Nodes.Node.{
  AbstractNode, RoutingTableEntry, log, received_message, dec_running, call, taken_by, print_line,
  address_not_found, sleep_for,
}
use cn_project.Nodes.Router
use cn_project.Nodes.Router.{
  Router, RouterEnv, RouterDefaults, Turn, waiting, fault, going, left, route_and_forward_packet,
}

module _ {Q : Type 0} where
  update-limit :
      (dest : String) (cost : ℕ) (hop : String) (r : Router Q)
      → (Router.update_routing_table dest cost hop r).0.fifo_size ≡ r.fifo_size
  unfolding Router.update_routing_table
  update-limit dest cost hop r =
      if_both (λ (p : Router Q × Bool). p.0.fifo_size ≡ r.fifo_size) _ _ _ refl refl

  forward-limit :
      (p : Packet) (r : Router Q) → (route_and_forward_packet p r).fifo_size ≡ r.fifo_size
  unfolding route_and_forward_packet
  forward-limit p r = elim (Option-cases (lookup p.destination r.node.routing_table)) [
    | inl e ↦ subst Same (sym e) refl
    | inr (entry, e) ↦ subst Same (sym e) refl
  ]
    where
      Same : Option RoutingTableEntry → Type 0
      Same o =
          (let r' : Router Q = elim o [
            | none ↦ record r { node = call (print_line address_not_found) r.node }
            | some entry ↦ record r {
              node =
                  call (taken_by entry.next_hop (data_packet p)) (call (sleep_for r.delay) r.node);
            }
          ] in
            r'.fifo_size ≡ r.fifo_size)

  pub handle_new_message-limit :
      (env : RouterEnv) (defaults : RouterDefaults) (m : Message) (r : Router Q)
      → (Router.handle_new_message env defaults m r).fifo_size ≡ r.fifo_size
  unfolding Router.handle_new_message
  handle_new_message-limit env defaults (routing m) r = update-limit _ _ _ _
  handle_new_message-limit env defaults (data_packet p) r =
      if_both (λ (x : Router Q). x.fifo_size ≡ r.fifo_size)
        (env.exceeds env.rand defaults.drop_rate) _ _ (forward-limit p _) refl

  abbrev pub LimitTurn : Router Q → Turn (Router Q) → Type 0
  LimitTurn r waiting = Unit {0}
  LimitTurn r fault = Unit {0}
  LimitTurn r (going r') = r'.fifo_size ≡ r.fifo_size
  LimitTurn r (left r') = r'.fifo_size ≡ r.fifo_size

  module _ (queue : MessageQueue Q) where
    pub take_message-limit :
        (m : Option Message) (r : Router Q)
        → (Router.take_message queue m r).fifo_size ≡ r.fifo_size
    unfolding Router.take_message
    take_message-limit m r =
        if_both (λ (x : Router Q). x.fifo_size ≡ r.fifo_size) r.node.must_stop _ _ refl refl

    pub turn-limit :
        (env : RouterEnv) (defaults : RouterDefaults) (r : Router Q)
        → LimitTurn r (Router.turn queue env defaults r)
    unfolding Router.turn
    turn-limit env defaults r = begun (queue.wait_dequeue r.node.node_queue)
      where
        noted : Q → AbstractNode Q
        noted rest = log received_message (record r.node { node_queue = rest })

        ended : Q → Router Q
        ended rest = record r {
          node = call dec_running (record (noted rest) { must_stop = false; is_running = false });
        }

        next : Q → Option Message → Turn (Router Q)
        next rest message = elim message [
          | none ↦ fault
          | some m ↦
              going (Router.handle_new_message env defaults m (record r { node = noted rest }))
        ]

        next-limit : (rest : Q) (message : Option Message) → LimitTurn r (next rest message)
        next-limit rest none = tt
        next-limit rest (some m) =
            handle_new_message-limit env defaults m (record r { node = noted rest })

        begun :
            (o : Option (Option Message × Q))
            → LimitTurn r (elim o as (λ _. Turn (Router Q)) [
              | none ↦ waiting
              | some (message, rest) ↦
                  if (noted rest).must_stop then left (ended rest) else next rest message
            ])
        begun none = tt
        begun (some (message, rest)) =
            if_both (LimitTurn r) (noted rest).must_stop _ _ refl (next-limit rest message)
