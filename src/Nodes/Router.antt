-- ===== src/Nodes/Router.antt =====
-- Nodes/Router: the routing of packets and of messages about costs.
use cn_project.Base.{
  ℕ, String, ◌<>◌, Bool, true, false, Option, none, some, [], ◌∷◌, ◌==◌, if◌then◌else◌, u64_max,
  add64,
}
use cn_project.Base.Dict.{Dict, lookup}
use cn_project.Message.{Message, routing, data_packet, Packet}
use cn_project.Nodes.Queue.{MessageQueue}
use cn_project.Nodes.Node.{
  AbstractNode, RoutingTableEntry, ToRouterLink, ToHostLink, taken_by, inc_converge, dec_converge,
  inc_running, dec_running, sleep_for, print_line, address_not_found, log, broadcasting_link,
  handling_routing_message, routing_packet, dropped, starting, received_message, setting_delay,
  setting_buffer_size, NodeType, router_type, call, new_node,
  update_routing_table as update_node_table, set_router_link, set_host_link, link_cost,
}

pub record Router (Q : Type 0) : Type 0 where
  pub node : AbstractNode Q
  pub delay : ℕ
  pub fifo_size : ℕ

-- The static members; a drop rate is the bit pattern of a double.
pub record RouterDefaults : Type 0 where
  pub router_delay : ℕ
  pub buffer_size : ℕ
  pub drop_rate : ℕ

abbrev pub initial_defaults : RouterDefaults
initial_defaults = record { router_delay = 0; buffer_size = u64_max; drop_rate = 0 }

-- What a router reads from outside: the value that `rand` returns, and the comparison of that value
-- over RAND_MAX with a rate. An uninitialised delay has some value.
pub record RouterEnv : Type 0 where
  pub rand : ℕ
  pub exceeds : ℕ → ℕ → Bool
  pub indeterminate : ℕ

-- How one turn of a node's thread ends: it waits for a message, it reads a null pointer, it goes on,
-- or the loop is left.
pub data Turn (N : Type 0) : Type 0 where
  waiting fault : Turn N
  going left : N → Turn N

module _ {Q : Type 0} where
  unfoldable pub new_router : MessageQueue Q → RouterEnv → RouterDefaults → String → Router Q
  unfolding new_node
  new_router queue env defaults addr =
      let base = new_node queue ("./log/Router:" <> addr <> ".txt") addr false u64_max in
      let limited = record base { node_queue = queue.with_capacity defaults.buffer_size } in
      record {
        node = if defaults.buffer_size == u64_max then base else limited;
        delay = env.indeterminate;
        fifo_size = u64_max;
      }

  abbrev announce : String → ℕ → String → AbstractNode Q → AbstractNode Q
  announce destination cost neighbour n =
      let message = routing (record { sender = n.addr; destination = destination; cost = cost }) in
      call inc_converge (call (taken_by neighbour message) n)

  -- The two loops of `broadCastNewLink`.
  unfoldable pub announce_to_hosts : String → ℕ → Dict ToHostLink → AbstractNode Q → AbstractNode Q
  announce_to_hosts destination cost [] n = n
  announce_to_hosts destination cost (pair ∷ rest) n =
      announce_to_hosts destination cost rest (announce destination cost pair.1.host n)

  unfoldable pub announce_to_routers :
      String → ℕ → Dict ToRouterLink → AbstractNode Q → AbstractNode Q
  announce_to_routers destination cost [] n = n
  announce_to_routers destination cost (pair ∷ rest) n =
      announce_to_routers destination cost rest (announce destination cost pair.1.router n)

  unfoldable pub broad_cast_new_link : String → ℕ → AbstractNode Q → AbstractNode Q
  broad_cast_new_link destination cost n =
      let logged = log (broadcasting_link destination cost) n in
      if n.is_running
      then announce_to_routers destination cost n.to_routers_links
          (announce_to_hosts destination cost n.to_hosts_links logged)
      else n

  -- The override.
  unfoldable pub update_routing_table : String → ℕ → String → Router Q → Router Q × Bool
  update_routing_table dest cost next_hop r =
      let (n, changed) = update_node_table dest cost next_hop r.node in
      if changed
      then (record r { node = broad_cast_new_link dest cost n }, true)
      else (record r { node = n }, false)

  unfoldable pub add_to_router_link : String → ℕ → Router Q → Router Q
  add_to_router_link router cost r =
      (update_routing_table router cost router
        (record r { node = set_router_link router cost r.node })).0

  unfoldable pub add_to_host_link : String → ℕ → Router Q → Router Q
  add_to_host_link host cost r =
      (update_routing_table host cost host (record r { node = set_host_link host cost r.node })).0

  unfoldable pub take_message : MessageQueue Q → Option Message → Router Q → Router Q
  take_message queue message r =
      let old = r.node.node_queue in
      let kept =
        if r.fifo_size == u64_max
        then queue.enqueue message old
        else queue.try_enqueue message old in
      if r.node.must_stop then r else record r { node = record r.node { node_queue = kept } }

  unfoldable pub route_and_forward_packet : Packet → Router Q → Router Q
  route_and_forward_packet packet r = elim (lookup packet.destination r.node.routing_table) [
    | none ↦ record r { node = call (print_line address_not_found) r.node }
    | some entry ↦ record r {
      node = call (taken_by entry.next_hop (data_packet packet)) (call (sleep_for r.delay) r.node);
    }
  ]

  unfoldable pub handle_new_message : RouterEnv → RouterDefaults → Message → Router Q → Router Q
  handle_new_message env defaults (routing m) r =
      let logged = log (handling_routing_message m.destination m.cost m.sender) r.node in
      let (between, n) = link_cost m.sender logged in
      let updated =
        (update_routing_table m.destination (add64 m.cost between) m.sender
          (record r { node = n })).0 in
      record updated { node = call dec_converge updated.node }
  handle_new_message env defaults (data_packet p) r =
      let logged = log (routing_packet p.source p.destination) r.node in
      if env.exceeds env.rand defaults.drop_rate
      then route_and_forward_packet p (record r { node = logged })
      else record r { node = log dropped logged }

  unfoldable pub broad_cast_table : Dict RoutingTableEntry → AbstractNode Q → AbstractNode Q
  broad_cast_table [] n = n
  broad_cast_table (pair ∷ rest) n =
      broad_cast_table rest (broad_cast_new_link pair.0 pair.1.cost n)

  -- `startNode`, and what the new thread does before its loop.
  unfoldable pub start_node : Router Q → Router Q
  start_node r =
      let running =
        call inc_running (record (log starting r.node) { is_running = true; is_joinable = true }) in
      record r { node = broad_cast_table running.routing_table running }

  -- One turn of the loop; after the last one the flags are reset.
  unfoldable pub turn : MessageQueue Q → RouterEnv → RouterDefaults → Router Q → Turn (Router Q)
  turn queue env defaults r = elim (queue.wait_dequeue r.node.node_queue) [
    | none ↦ waiting
    | some (message, rest) ↦
        let n = log received_message (record r.node { node_queue = rest }) in
        let ended = call dec_running (record n { must_stop = false; is_running = false }) in
        let next : Turn (Router Q) = elim message [
          | none ↦ fault
          | some m ↦ going (handle_new_message env defaults m (record r { node = n }))
        ] in
        if n.must_stop then left (record r { node = ended }) else next
  ]

  unfoldable pub set_delay : ℕ → Router Q → Router Q
  set_delay nanoseconds r = record r {
    node = log (setting_delay nanoseconds) r.node;
    delay = nanoseconds;
  }

  unfoldable pub set_default_delay : RouterDefaults → Router Q → Router Q
  set_default_delay defaults r = set_delay defaults.router_delay r

  unfoldable pub set_buffer_size : MessageQueue Q → ℕ → Router Q → Router Q
  set_buffer_size queue size r =
      let logged = log (setting_buffer_size size) r.node in
      if size == u64_max
      then record r { node = logged; fifo_size = size }
      else record r { node = record logged { node_queue = queue.with_capacity size } }

  unfoldable pub set_default_buffer_size : MessageQueue Q → RouterDefaults → Router Q → Router Q
  set_default_buffer_size queue defaults r = set_buffer_size queue defaults.buffer_size r

  unfoldable pub get_type : Router Q → NodeType
  get_type r = router_type
