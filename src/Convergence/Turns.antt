-- ===== src/Convergence/Turns.antt =====
-- Turns, starts and arrivals at a router, as moves.
use mathlib.Core.Option.{some-injective}
use mathlib.Core.List.Memᴰ.{append_left}
use cn_project.Base.{
  ◌≡◌, inl, inr, refl, sym, subst, Option, none, some, [], ◌∷◌, true, false, Bool, Bool-cases,
  Option-cases, arith, add64, if◌then◌else◌, if_both, u64_max, ◌==◌,
}
use cn_project.Base.Dict.{lookup}
use cn_project.Message.{Message, routing, RoutingMessage}
use cn_project.Nodes.Queue.{MessageQueue, QueueLaws}
use cn_project.Nodes.Node.{AbstractNode, Link, log, call, dec_running, received_message}
use cn_project.Nodes.Router
use cn_project.Nodes.Router.{
  Router, RouterEnv, RouterDefaults, Turn, waiting, fault, going, left, route_and_forward_packet,
}
use cn_project.Nodes.Table.{cost_to}
use cn_project.Convergence.{KeepsMessages, IsBelow, IsLater}
use cn_project.Convergence.Later.{IsLater-refl, IsLater-trans}
use cn_project.Convergence.Update.{log-IsLater}
use cn_project.Nodes.Limits.{handle_new_message-limit}
use cn_project.Convergence.Handle.{handle_new_message-IsLater, handle_new_message-IsBelow}

module _ {Q : Type 0} (queue : MessageQueue Q) (laws : QueueLaws queue)
    (keeps : KeepsMessages queue laws) where
  abbrev Later : AbstractNode Q → AbstractNode Q → Type 0
  Later = IsLater queue laws

  -- The node is later, and the router's limit is as before.
  pub record IsLaterRouter (r r' : Router Q) : Type 0 where
    pub node : Later r.node r'.node
    pub limit : r'.fifo_size ≡ r.fifo_size

  -- What was taken from the queue has been taken into account.
  dequeued-IsLater :
      (n n' : AbstractNode Q) (x : Option Message) (rest : Q)
      → queue.wait_dequeue n.node_queue ≡ some (x, rest)
      → ((m : RoutingMessage) (l : Link)
          → n.must_stop ≡ false
          → x ≡ some (routing m)
          → lookup m.sender n.links ≡ some l
          → IsBelow m.destination (add64 m.cost l.cost) n')
      → Later (record n { node_queue = rest }) n'
      → Later n n'
  unfolding cost_to
  dequeued-IsLater n n' x rest taken heeded s = record {
    same_addr = s.same_addr;
    same_neighbours = s.same_neighbours;
    links_kept = s.links_kept;
    going_on = s.going_on;
    calling = s.calling;
    falling = s.falling;
    telling = s.telling;
    heeding = λ m l on linked h.
        elim (keeps.dequeue_keeps (some (routing m)) x n.node_queue rest taken h) [
          | inl same ↦ inl (heeded m l on (sym same) linked)
          | inr held ↦ s.heeding m l on linked held
        ];
  }

  -- A node that is left runs no more.
  ended-IsLater :
      (n : AbstractNode Q)
      → Later n (call dec_running (record n { must_stop = false; is_running = false }))
  unfolding cost_to
  ended-IsLater n = record {
    same_addr = refl;
    same_neighbours = refl;
    links_kept = λ a l h. h;
    going_on = λ h. refl;
    calling = λ h. append_left (dec_running ∷ []) h;
    falling = λ dest bound h. h;
    telling = λ dest cost on h. ground (arith, on);
    heeding = λ m l on linked h. inr h;
  }

  abbrev pub LaterTurn : Router Q → Turn (Router Q) → Type 0
  LaterTurn r waiting = Unit {0}
  LaterTurn r fault = Unit {0}
  LaterTurn r (going r') = IsLaterRouter r r'
  LaterTurn r (left r') = IsLaterRouter r r'

  pub turn-IsLater :
      (env : RouterEnv) (defaults : RouterDefaults) (r : Router Q)
      → LaterTurn r (Router.turn queue env defaults r)
  unfolding Router.turn log
  turn-IsLater env defaults r = elim (Option-cases (queue.wait_dequeue r.node.node_queue)) [
    | inl e ↦ subst (λ o. LaterTurn r (turned o)) (sym e) tt
    | inr ((message, rest), e) ↦
        subst (λ o. LaterTurn r (turned o)) (sym e)
          (elim (Bool-cases r.node.must_stop) [
            | inl stop ↦
                subst (λ b. LaterTurn r (ends b message rest)) (sym stop)
                  (stopped message rest e stop)
            | inr on ↦
                subst (λ b. LaterTurn r (ends b message rest)) (sym on)
                  (next-IsLater message rest e)
          ])
  ]
    where
      bare : Q → AbstractNode Q
      bare rest = record r.node { node_queue = rest }

      noted : Q → AbstractNode Q
      noted rest = log received_message (bare rest)

      ended : Q → Router Q
      ended rest = record r {
        node = call dec_running (record (noted rest) { must_stop = false; is_running = false });
      }

      next : Q → Option Message → Turn (Router Q)
      next rest message = elim message [
        | none ↦ fault
        | some m ↦ going (Router.handle_new_message env defaults m (record r { node = noted rest }))
      ]

      ends : Bool → Option Message → Q → Turn (Router Q)
      ends stop message rest = if stop then left (ended rest) else next rest message

      turned : Option (Option Message × Q) → Turn (Router Q)
      turned o = elim o [
        | none ↦ waiting
        | some (message, rest) ↦ ends (noted rest).must_stop message rest
      ]

      stopped :
          (message : Option Message) (rest : Q)
          → queue.wait_dequeue r.node.node_queue ≡ some (message, rest)
          → r.node.must_stop ≡ true
          → IsLaterRouter r (ended rest)
      stopped message rest e stop = record {
        node =
            dequeued-IsLater r.node _ message rest e
              (λ m l on same linked. ground (arith, on, stop))
              (IsLater-trans queue laws (bare rest) (noted rest) _
                (log-IsLater queue laws received_message (bare rest)) (ended-IsLater (noted rest)));
        limit = refl;
      }

      handled : Q → Message → Router Q
      handled rest m = Router.handle_new_message env defaults m (record r { node = noted rest })

      heeded :
          (rest : Q) (m : RoutingMessage) (l : Link) (x : Message)
          → x ≡ routing m
          → lookup m.sender r.node.links ≡ some l
          → IsBelow m.destination (add64 m.cost l.cost) (handled rest x).node
      heeded rest m l x same linked =
          subst (λ x. IsBelow m.destination (add64 m.cost l.cost) (handled rest x).node) (sym same)
            (handle_new_message-IsBelow queue laws env defaults m (record r { node = noted rest }) l
              linked)

      next-IsLater :
          (message : Option Message) (rest : Q)
          → queue.wait_dequeue r.node.node_queue ≡ some (message, rest)
          → LaterTurn r (next rest message)
      next-IsLater none rest e = tt
      next-IsLater (some x) rest e = record {
        node =
            dequeued-IsLater r.node _ (some x) rest e
              (λ m l on same linked. heeded rest m l x (some-injective x (routing m) same) linked)
              (IsLater-trans queue laws (bare rest) (noted rest) _
                (log-IsLater queue laws received_message (bare rest))
                (handle_new_message-IsLater queue laws env defaults x
                  (record r { node = noted rest })));
        limit = handle_new_message-limit env defaults x (record r { node = noted rest });
      }

  -- An arrival: what is in the queue stays there.
  queued-IsLater :
      (n : AbstractNode Q) (q : Q)
      → ((m : Option Message) → laws.Holds m n.node_queue → laws.Holds m q)
      → Later n (record n { node_queue = q })
  unfolding cost_to
  queued-IsLater n q kept = record {
    same_addr = refl;
    same_neighbours = refl;
    links_kept = λ a l h. h;
    going_on = λ h. h;
    calling = λ h. h;
    falling = λ dest bound h. h;
    telling = λ dest cost on h. inl (on, h);
    heeding = λ m l on linked h. inr (kept (some (routing m)) h);
  }

  pub take_message-IsLater :
      (m : Option Message) (r : Router Q) → IsLaterRouter r (Router.take_message queue m r)
  unfolding Router.take_message
  take_message-IsLater m r =
      if_both (IsLaterRouter r) r.node.must_stop _ _
        (record { node = IsLater-refl queue laws r.node; limit = refl })
        (if_both (λ q. IsLaterRouter r (record r { node = record r.node { node_queue = q } }))
          (r.fifo_size == u64_max) _ _
          (record {
            node = queued-IsLater r.node _ (λ x h. keeps.enqueue_keeps x m r.node.node_queue h);
            limit = refl;
          })
          (record {
            node = queued-IsLater r.node _ (λ x h. keeps.try_enqueue_keeps x m r.node.node_queue h);
            limit = refl;
          }))

  -- A router with no limit that is not to stop queues what it is given.
  pub take_message-Holds :
      (m : Option Message) (r : Router Q)
      → r.node.must_stop ≡ false
      → r.fifo_size ≡ u64_max
      → laws.Holds m (Router.take_message queue m r).node.node_queue
  unfolding Router.take_message
  take_message-Holds m r on unlimited = rw (on, unlimited) (keeps.enqueue_holds m r.node.node_queue)
