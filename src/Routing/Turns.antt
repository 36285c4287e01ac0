-- ===== src/Routing/Turns.antt =====
-- The turns of routers and hosts, and the start of their threads, leave a sound node sound.
use cn_project.Base.{
  String, ◌≡◌, sym, subst, true, false, Option, none, some, [], ◌∷◌, Option-cases, inl, inr,
  if◌then◌else◌, if_both,
}
use cn_project.Base.Dict.{Dict, AllEntries}
use cn_project.Message.{Message, routing, data_packet}
use cn_project.Base.Traverse.{try_values, or_else}
use cn_project.Tcp.{TcpConnection, ConnectionInterface, ◌>>=◌}
use cn_project.Nodes.Queue.{MessageQueue, QueueLaws}
use cn_project.Nodes.Node.{
  AbstractNode, RoutingTableEntry, log, call, inc_running, dec_running, received_message, starting,
}
use cn_project.Nodes.Router
use cn_project.Nodes.Router.{
  Router, RouterEnv, RouterDefaults, Turn, waiting, fault, going, left, broad_cast_table,
}
use cn_project.Nodes.Host
use cn_project.Nodes.Host.{
  renew_connection, Host, send_packet, perform_effects, at_connection, print_all,
}
use cn_project.Routing.{Topology, IsTwoWay, IsRoute, IsSound}
use cn_project.Routing.Update.{
  IsRoute-Walk, calling-IsSound, log-IsSound, running-IsSound, broad_cast_new_link-IsSound,
}
use cn_project.Routing.Handle.{IsTrueMessage, requeued, router_handle-IsSound}
use cn_project.Nodes.Quiet.{GoodIf}
use cn_project.Routing.Hosts.{IsSound-IsKept, host_handle-IsSound}

module _ (t : Topology) {Q : Type 0} (queue : MessageQueue Q) (laws : QueueLaws queue)
    (two_way : IsTwoWay t) (at : String) where
  abbrev Sound : AbstractNode Q → Type 0
  Sound = IsSound t queue laws at

  -- The message that a turn takes from the queue is true, and the rest of the queue holds nothing new.
  taken :
      (n : AbstractNode Q) (message : Option Message) (rest : Q)
      → queue.wait_dequeue n.node_queue ≡ some (message, rest)
      → Sound n
      → Sound (record n { node_queue = rest })
  taken n message rest e s =
      requeued t queue laws two_way at rest n
        (λ m held.
          s.queued m (laws.dequeue_only (some (routing m)) message n.node_queue rest e held))
        s

  head_true :
      (n : AbstractNode Q) (m : Message) (rest : Q)
      → queue.wait_dequeue n.node_queue ≡ some (some m, rest)
      → Sound n
      → IsTrueMessage t queue laws two_way at m
  head_true n (routing m) rest e s =
      s.queued m (laws.dequeue_holds (some (routing m)) n.node_queue rest e)
  head_true n (data_packet p) rest e s = tt

  abbrev pub SoundTurn : {N : Type 0} → (N → AbstractNode Q) → Turn N → Type 0
  SoundTurn base waiting = Unit {0}
  SoundTurn base fault = Unit {0}
  SoundTurn base (going n) = Sound (base n)
  SoundTurn base (left n) = Sound (base n)

  ended-IsSound :
      (n : AbstractNode Q)
      → Sound n
      → Sound (call dec_running (record n { must_stop = false; is_running = false }))
  ended-IsSound n s =
      calling-IsSound t queue laws two_way at (dec_running ∷ []) _ (tt, tt)
        (running-IsSound t queue laws two_way at false false n.is_joinable n s)

  pub router_turn-IsSound :
      (env : RouterEnv) (defaults : RouterDefaults) (r : Router Q)
      → Sound r.node
      → SoundTurn (λ (x : Router Q). x.node) (Router.turn queue env defaults r)
  unfolding Router.turn
  router_turn-IsSound env defaults r s =
      elim (Option-cases (queue.wait_dequeue r.node.node_queue)) [
        | inl e ↦ subst (λ o. SoundTurn (λ (x : Router Q). x.node) (turned o)) (sym e) tt
        | inr ((message, rest), e) ↦
            subst (λ o. SoundTurn (λ (x : Router Q). x.node) (turned o)) (sym e)
              (after message rest e)
      ]
    where
      noted : Q → AbstractNode Q
      noted rest = log received_message (record r.node { node_queue = rest })

      ended : Q → Router Q
      ended rest = record r {
        node = call dec_running (record (noted rest) { must_stop = false; is_running = false });
      }

      next : Q → Option Message → Turn (Router Q)
      next rest message = elim message [
        | none ↦ fault
        | some m ↦ going (Router.handle_new_message env defaults m (record r { node = noted rest }))
      ]

      turned : Option (Option Message × Q) → Turn (Router Q)
      turned o = elim o [
        | none ↦ waiting
        | some (message, rest) ↦
            if (noted rest).must_stop then left (ended rest) else next rest message
      ]

      noted-IsSound :
          (message : Option Message) (rest : Q)
          → queue.wait_dequeue r.node.node_queue ≡ some (message, rest)
          → Sound (noted rest)
      noted-IsSound message rest e =
          log-IsSound t queue laws two_way at received_message _ (taken r.node message rest e s)

      next-IsSound :
          (message : Option Message) (rest : Q)
          → queue.wait_dequeue r.node.node_queue ≡ some (message, rest)
          → SoundTurn (λ (x : Router Q). x.node) (next rest message)
      next-IsSound none rest e = tt
      next-IsSound (some m) rest e =
          router_handle-IsSound t queue laws two_way at env defaults m
            (record r { node = noted rest }) (head_true r.node m rest e s)
            (noted-IsSound (some m) rest e)

      after :
          (message : Option Message) (rest : Q)
          → queue.wait_dequeue r.node.node_queue ≡ some (message, rest)
          → SoundTurn (λ (x : Router Q). x.node) (turned (some (message, rest)))
      after message rest e =
          if_both (SoundTurn (λ (x : Router Q). x.node)) (noted rest).must_stop _ _
            (ended-IsSound (noted rest) (noted-IsSound message rest e))
            (next-IsSound message rest e)

  pub host_turn-IsSound :
      (tcp : ConnectionInterface TcpConnection) (h : Host Q)
      → Sound h.node
      → SoundTurn (λ (x : Host Q). x.node) (Host.turn queue tcp h)
  unfolding Host.turn
  host_turn-IsSound tcp h s = elim (Option-cases (queue.wait_dequeue h.node.node_queue)) [
    | inl e ↦ subst (λ o. SoundTurn (λ (x : Host Q). x.node) (turned o)) (sym e) tt
    | inr ((message, rest), e) ↦
        subst (λ o. SoundTurn (λ (x : Host Q). x.node) (turned o)) (sym e) (after message rest e)
  ]
    where
      waiting_for : Q → AbstractNode Q
      waiting_for rest = record h.node { node_queue = rest }

      ended : Q → Host Q
      ended rest = record h {
        node =
            call dec_running (record (waiting_for rest) { must_stop = false; is_running = false });
      }

      handled : Option (Host Q) → Turn (Host Q)
      handled o = elim o [ none ↦ fault | some h' ↦ going h' ]

      next : Q → Option Message → Turn (Host Q)
      next rest message = elim message [
        | none ↦ fault
        | some m ↦ handled (Host.handle_new_message tcp m (record h { node = waiting_for rest }))
      ]

      turned : Option (Option Message × Q) → Turn (Host Q)
      turned o = elim o [
        | none ↦ waiting
        | some (message, rest) ↦ if h.node.must_stop then left (ended rest) else next rest message
      ]

      handled-IsSound :
          (o : Option (Host Q))
          → GoodIf (IsSound t queue laws at) (IsSound-IsKept t queue laws two_way at) o
          → SoundTurn (λ (x : Host Q). x.node) (handled o)
      handled-IsSound none s' = tt
      handled-IsSound (some h') s' = s'

      next-IsSound :
          (message : Option Message) (rest : Q)
          → queue.wait_dequeue h.node.node_queue ≡ some (message, rest)
          → SoundTurn (λ (x : Host Q). x.node) (next rest message)
      next-IsSound none rest e = tt
      next-IsSound (some m) rest e = handled-IsSound _ (
          host_handle-IsSound t queue laws two_way at tcp m (record h { node = waiting_for rest })
            (head_true h.node m rest e s) (taken h.node (some m) rest e s))

      after :
          (message : Option Message) (rest : Q)
          → queue.wait_dequeue h.node.node_queue ≡ some (message, rest)
          → SoundTurn (λ (x : Host Q). x.node) (turned (some (message, rest)))
      after message rest e =
          if_both (SoundTurn (λ (x : Host Q). x.node)) h.node.must_stop _ _
            (ended-IsSound (waiting_for rest) (taken h.node message rest e s))
            (next-IsSound message rest e)

  broad_cast_table-IsSound :
      (table : Dict RoutingTableEntry) (n : AbstractNode Q)
      → AllEntries (IsRoute t at) table
      → Sound n
      → Sound (broad_cast_table table n)
  unfolding broad_cast_table
  broad_cast_table-IsSound [] n routes s = s
  broad_cast_table-IsSound (pair ∷ rest) n (route, routes) s =
      broad_cast_table-IsSound rest _ routes (
        broad_cast_new_link-IsSound t queue laws two_way at pair.0 pair.1.cost n
          (IsRoute-Walk t at pair.0 pair.1 route) s)

  started-IsSound :
      (n : AbstractNode Q)
      → Sound n
      → Sound (call inc_running (record (log starting n) { is_running = true; is_joinable = true }))
  unfolding log
  started-IsSound n s =
      calling-IsSound t queue laws two_way at (inc_running ∷ []) _ (tt, tt)
        (running-IsSound t queue laws two_way at true n.must_stop true (log starting n)
          (log-IsSound t queue laws two_way at starting n s))

  pub router_start-IsSound : (r : Router Q) → Sound r.node → Sound (Router.start_node r).node
  unfolding Router.start_node
  router_start-IsSound r s =
      let s' = started-IsSound r.node s in broad_cast_table-IsSound _ _ s'.table s'

  pub host_start-IsSound :
      (tcp : ConnectionInterface TcpConnection) (h : Host Q)
      → Sound h.node
      → Sound (or_else h (Host.start_node tcp h)).node
  unfolding Host.start_node Host.log
  host_start-IsSound tcp h s =
      by_connections (try_values (renew_connection tcp h.node.addr) h.connections)
    where
      up : Dict TcpConnection → Host Q
      up cs = record {
        node =
            call inc_running
              (record (log starting h.node) { is_running = true; is_joinable = true });
        connections = cs;
      }

      by_connections :
          (o : Option (Dict TcpConnection)) → Sound (or_else h (o >>= λ cs. some (up cs))).node
      by_connections none = s
      by_connections (some cs) = started-IsSound h.node s
