-- ===== src/Nodes/Node.antt =====
-- Nodes/AbstractNode: what routers and hosts share. A pointer to a node is the node's address.
use cn_project.Base.{
  ◌&&◌, not, ℕ, String, Bool, true, false, Option, none, some, List, [], ◌∷◌, ◌++◌, ltb,
  if◌then◌else◌,
}
use cn_project.Base.Dict.{Dict, lookup, insert}
use cn_project.Message.{Message}
use cn_project.Nodes.Queue.{MessageQueue}

pub record RoutingTableEntry : Type 0 where
  pub destination : String
  pub cost : ℕ
  pub next_hop : String

-- The pointer is null in the link that `m_links[...]` makes for an address without one.
pub record Link : Type 0 where
  pub node : Option String
  pub cost : ℕ

pub record ToRouterLink : Type 0 where
  pub router : String
  pub cost : ℕ

pub record ToHostLink : Type 0 where
  pub host : String
  pub cost : ℕ

pub data NodeType : Type 0 where
  router_type host_type : NodeType

-- The lines of the log files, and those of the console. Numbers are kept as numbers.
pub data LogLine : Type 0 where
  starting stopping received_message dropped : LogLine
  handling_routing_message : String → ℕ → String → LogLine
  routing_packet : String → String → LogLine
  broadcasting_link : String → ℕ → LogLine
  setting_delay setting_buffer_size : ℕ → LogLine
  adding_connection sending_packet : String → LogLine
  sending_data : ℕ → String → LogLine

pub data Output : Type 0 where
  address_in_use unknown_address no_connection unrelated_packet : String → Output
  cannot_connect_hosts no_link_between unknown_nodes address_not_found not_contained unknown_addr :
      Output
  network_shut_down destroying_network table_head table_foot : Output
  queue_size : String → ℕ → Output
  convergence_time : ℕ → Output
  destroying : String → Output
  table_row : String → ℕ → String → Output
  -- What main.cpp prints itself.
  prompt file_empty unknown_update unknown_command : Output
  unknown_property : String → Output

-- What a method asks of other objects and of the scheduler, in the order of the calls.
pub data Call : Type 0 where
  taken_by : String → Message → Call
  inc_converge dec_converge inc_running dec_running : Call
  sleep_for : ℕ → Call
  write_to_file : String → String → List ℕ → Call
  log_line : String → LogLine → Call
  print_line : Output → Call

pub record AbstractNode (Q : Type 0) : Type 0 where
  pub to_routers_links : Dict ToRouterLink
  pub to_hosts_links : Dict ToHostLink
  pub links : Dict Link
  pub routing_table : Dict RoutingTableEntry
  pub addr : String
  -- A member of both classes that derive from this one.
  pub log_filename : String
  pub is_running : Bool
  pub must_stop : Bool
  -- Whether the member `m_thread` has a thread: started, and not yet joined.
  pub is_joinable : Bool
  pub is_buffer_limited : Bool
  pub node_queue : Q
  -- The calls so far, oldest first; no member of the class.
  pub calls : List Call

module _ {Q : Type 0} where
  abbrev pub call : Call → AbstractNode Q → AbstractNode Q
  call k n = record n { calls = n.calls ++ (k ∷ []) }

  -- `log` of both derived classes: a line at the end of the node's log file.
  unfoldable pub log : LogLine → AbstractNode Q → AbstractNode Q
  log line n = call (log_line n.log_filename line) n

  -- The destructor.
  unfoldable pub destroy_node : AbstractNode Q → AbstractNode Q
  destroy_node n = call (print_line (destroying n.addr)) n

  unfoldable pub get_addr : AbstractNode Q → String
  get_addr n = n.addr

  unfoldable pub get_routing_table : AbstractNode Q → Dict RoutingTableEntry
  get_routing_table n = n.routing_table

  unfoldable pub get_routers_links : AbstractNode Q → Dict ToRouterLink
  get_routers_links n = n.to_routers_links

  unfoldable pub get_hosts_links : AbstractNode Q → Dict ToHostLink
  get_hosts_links n = n.to_hosts_links

  unfoldable pub get_links : AbstractNode Q → Dict Link
  get_links n = n.links

  module _ (queue : MessageQueue Q) where
    unfoldable pub new_node : String → String → Bool → ℕ → AbstractNode Q
    new_node log_filename addr limited_buffer buffer_limit = record {
      to_routers_links = [];
      to_hosts_links = [];
      links = [];
      routing_table = [];
      addr = addr;
      log_filename = log_filename;
      is_running = false;
      must_stop = false;
      is_joinable = false;
      is_buffer_limited = limited_buffer;
      node_queue = if limited_buffer then queue.with_capacity buffer_limit else queue.new_queue;
      calls = [];
    }

    unfoldable pub stop_node : AbstractNode Q → AbstractNode Q
    stop_node n = record n { must_stop = true; node_queue = queue.enqueue none n.node_queue }

    unfoldable pub clear_queue : AbstractNode Q → AbstractNode Q
    clear_queue n = record n { node_queue = queue.with_capacity (queue.size_approx n.node_queue) }

    unfoldable pub take_message : Option Message → AbstractNode Q → AbstractNode Q
    take_message message n =
        let logged = log received_message n in
        if n.must_stop
        then logged
        else record logged { node_queue = queue.enqueue message n.node_queue }

  -- `join` returns if there is a thread and it has ended, with `m_isRunning` reset. It waits for a
  -- thread that has not ended, and throws an exception, which nothing catches, if there is none.
  unfoldable pub join_thread : AbstractNode Q → Option (AbstractNode Q)
  join_thread n =
      if n.is_joinable && not n.is_running then some (record n { is_joinable = false }) else none

  -- The base class's method; the answer tells if the table was changed.
  unfoldable pub update_routing_table : String → ℕ → String → AbstractNode Q → AbstractNode Q × Bool
  update_routing_table dest cost next_hop n =
      let entry : RoutingTableEntry = record {
        destination = dest;
        cost = cost;
        next_hop = next_hop;
      } in
      let written = record n { routing_table = insert dest entry n.routing_table } in
      elim (lookup dest n.routing_table) [
        | none ↦ (written, true)
        | some old ↦ if ltb cost old.cost then (written, true) else (n, false)
      ]

  -- The first two lines of `addToRouterLink` and of `addToHostLink`; the third is a virtual call.
  unfoldable pub set_router_link : String → ℕ → AbstractNode Q → AbstractNode Q
  set_router_link router cost n = record n {
    to_routers_links = insert router (record { router = router; cost = cost }) n.to_routers_links;
    links = insert router (record { node = some router; cost = cost }) n.links;
  }

  unfoldable pub set_host_link : String → ℕ → AbstractNode Q → AbstractNode Q
  set_host_link host cost n = record n {
    to_hosts_links = insert host (record { host = host; cost = cost }) n.to_hosts_links;
    links = insert host (record { node = some host; cost = cost }) n.links;
  }

  -- `m_links[addr].cost`, which makes an empty link for an address without one.
  unfoldable pub link_cost : String → AbstractNode Q → ℕ × AbstractNode Q
  link_cost addr n = elim (lookup addr n.links) [
    | none ↦ (0, record n { links = insert addr (record { node = none; cost = 0 }) n.links })
    | some link ↦ (link.cost, n)
  ]
