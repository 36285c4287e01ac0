-- ===== src/Nodes/Host.antt =====
-- Nodes/Host. `none` is a fault in a connection.
use cn_project.Base.{
  ℕ, String, ◌<>◌, length, Bool, true, false, Option, none, some, List, [], ◌∷◌, if◌then◌else◌,
  u64_max, add64, map,
}
use cn_project.Base.Dict.{Dict, lookup, insert, contains}
use cn_project.Base.Traverse.{try_values}
use cn_project.Message.{Message, routing, data_packet, Packet}
use cn_project.Tcp.{
  ConnectionInterface, Env, TcpConnection, Effect, send, write_file, sleep, timeout_body, ◌>>=◌,
}
use cn_project.Nodes.Queue.{MessageQueue}
use cn_project.Nodes.Node.{
  AbstractNode, taken_by, dec_converge, inc_running, dec_running, sleep_for, write_to_file,
  print_line, Output, not_contained, unrelated_packet, no_connection, log as write_log, LogLine,
  adding_connection, sending_packet, sending_data, starting, stopping, NodeType, host_type, call,
  new_node, stop_node as stop_node_base, update_routing_table, set_router_link, set_host_link,
  link_cost,
}
use cn_project.Nodes.Router.{Turn, waiting, fault, going, left}

pub record Host (Q : Type 0) : Type 0 where
  pub node : AbstractNode Q
  pub connections : Dict TcpConnection

-- What `startNode` puts in a connection's place.
unfoldable pub renew_connection :
    ConnectionInterface TcpConnection → String → TcpConnection → Option TcpConnection
renew_connection tcp addr c =
    tcp.assign c (tcp.construct addr (tcp.get_end_point c) (tcp.get_estimated_timeout c))

module _ {Q : Type 0} where
  unfoldable pub new_host : MessageQueue Q → String → Host Q
  new_host queue addr = record {
    node = new_node queue ("./log/Host:" <> addr <> ".txt") addr false u64_max;
    connections = [];
  }

  unfoldable pub log : LogLine → Host Q → Host Q
  log line h = record h { node = write_log line h.node }

  unfoldable pub add_to_router_link : String → ℕ → Host Q → Host Q
  add_to_router_link router cost h = record h {
    node = (update_routing_table router cost router (set_router_link router cost h.node)).0;
  }

  unfoldable pub add_to_host_link : String → ℕ → Host Q → Host Q
  add_to_host_link host cost h = record h {
    node = (update_routing_table host cost host (set_host_link host cost h.node)).0;
  }

  unfoldable pub add_tcp_connection :
      ConnectionInterface TcpConnection → String → ℕ → Host Q → Host Q
  add_tcp_connection tcp end_point init_rtt h =
      let logged = log (adding_connection end_point) h in
      if contains end_point h.connections then logged else record logged {
        connections = insert end_point (tcp.construct h.node.addr end_point init_rtt) h.connections;
      }

  unfoldable pub send_packet : Packet → AbstractNode Q → AbstractNode Q
  send_packet packet n = elim (lookup packet.destination n.routing_table) [
    | none ↦ write_log (sending_packet packet.destination) n
    | some entry ↦
        call (taken_by entry.next_hop (data_packet packet))
          (write_log (sending_packet packet.destination) n)
  ]

  abbrev pub print_all : List Output → AbstractNode Q → AbstractNode Q
  print_all [] n = n
  print_all (line ∷ rest) n = print_all rest (call (print_line line) n)

  -- What a connection asked for in a call, asked of the host.
  unfoldable pub perform_effects : List Effect → AbstractNode Q → AbstractNode Q
  perform_effects [] n = n
  perform_effects (send p ∷ rest) n = perform_effects rest (send_packet p n)
  perform_effects (write_file host source bytes ∷ rest) n =
      perform_effects rest (call (write_to_file host source bytes) n)
  perform_effects (sleep time ∷ rest) n = perform_effects rest (call (sleep_for time) n)

  -- A call of a method of the connection stored under an address; without one, `missing` is printed.
  unfoldable pub at_connection :
      String → List Output → (TcpConnection → Option TcpConnection) → Host Q → Option (Host Q)
  at_connection end_point missing method h = elim (lookup end_point h.connections) [
    | none ↦ some (record h { node = print_all missing h.node })
    | some c ↦ method c >>= λ c'. some (record h {
      node = perform_effects c'.effects h.node;
      connections = insert end_point (record c' { effects = [] }) h.connections;
    })
  ]

  unfoldable pub handle_packet :
      ConnectionInterface TcpConnection → Packet → Host Q → Option (Host Q)
  handle_packet tcp packet h =
      at_connection packet.source (not_contained ∷ unrelated_packet packet.source ∷ [])
        (tcp.take_packet packet) h

  unfoldable pub send_message_to :
      ConnectionInterface TcpConnection → String → List ℕ → ℕ → Host Q → Option (Host Q)
  send_message_to tcp receiver data_bytes repeat_delay h =
      at_connection receiver (no_connection receiver ∷ [])
        (tcp.send_message data_bytes repeat_delay)
        (log (sending_data (length data_bytes) receiver) h)

  -- A timeout thread of a connection; `dequeued` tells if it was notified.
  unfoldable pub connection_timeout : Env → String → Bool → Host Q → Option (Host Q)
  connection_timeout env end_point dequeued h =
      at_connection end_point [] (timeout_body env dequeued) h

  unfoldable pub handle_new_message :
      ConnectionInterface TcpConnection → Message → Host Q → Option (Host Q)
  handle_new_message tcp (routing m) h =
      let (between, n) = link_cost m.sender h.node in
      let (updated, _) = update_routing_table m.destination (add64 m.cost between) m.sender n in
      some (record h { node = call dec_converge updated })
  handle_new_message tcp (data_packet p) h = handle_packet tcp p h

  -- Every connection is replaced by a new one, and the thread counts itself.
  unfoldable pub start_node : ConnectionInterface TcpConnection → Host Q → Option (Host Q)
  start_node tcp h = do
    connections ← try_values (renew_connection tcp h.node.addr) h.connections
    some (record {
      node =
          call inc_running (record (log starting h).node { is_running = true; is_joinable = true });
      connections = connections;
    })

  unfoldable pub stop_node : MessageQueue Q → ConnectionInterface TcpConnection → Host Q → Host Q
  stop_node queue tcp h = record {
    node = stop_node_base queue (log stopping h).node;
    connections = map (λ pair. (pair.0, tcp.close_connection pair.1)) h.connections;
  }

  -- One turn of the thread's loop.
  unfoldable pub turn : MessageQueue Q → ConnectionInterface TcpConnection → Host Q → Turn (Host Q)
  turn queue tcp h = elim (queue.wait_dequeue h.node.node_queue) [
    | none ↦ waiting
    | some (message, rest) ↦
        let n = record h.node { node_queue = rest } in
        let ended = call dec_running (record n { must_stop = false; is_running = false }) in
        let next : Turn (Host Q) = elim message [
          | none ↦ fault
          | some m ↦ elim (handle_new_message tcp m (record h { node = n })) [
            | none ↦ fault
            | some h' ↦ going h'
          ]
        ] in
        if n.must_stop then left (record h { node = ended }) else next
  ]

  unfoldable pub get_type : Host Q → NodeType
  get_type h = host_type
