-- ===== src/Network.antt =====
-- Network: the nodes and the commands on them. `none` is a read through a null pointer, or the end
-- of the program by `std::terminate`.
pub mod Ends
pub mod Links
pub mod Running
pub mod Threads
pub mod Joining
pub mod LifeCycle
pub mod Pending
pub mod Quiet
pub mod Interface
use mathlib.Core.Option.{none-ne-some, some-injective}
use cn_project.Base.{
  ◌≡◌, refl, sym, ap, ◌∙◌, Bool-cases, inl, inr, str_eq, ℕ, String, Bool, true, false, not, ◌&&◌,
  ◌||◌, Option, none, some, List, [], ◌∷◌, ◌++◌, map, ◌==◌, if◌then◌else◌, mul64, to_u16, u64_max,
}
use cn_project.Base.Dict.{map_values, AllEntries, Dict, lookup, insert, contains}
use cn_project.Message.{Message}
use cn_project.Controller.{NetworkController, fresh_controller}
use cn_project.Tcp.{Env, connection_interface, ◌>>=◌}
use cn_project.Nodes.Queue.{MessageQueue}
use cn_project.Nodes.Node.{
  AbstractNode, RoutingTableEntry, LogLine, Output, address_in_use, unknown_address,
  cannot_connect_hosts, unknown_addr, no_link_between, unknown_nodes, table_head, table_foot,
  table_row, destroying_network, get_routing_table, get_routers_links, get_hosts_links,
}
use cn_project.Nodes.Router
use cn_project.Nodes.Router.{Router, RouterDefaults, RouterEnv, initial_defaults}
use cn_project.Nodes.Interface.{router_class}
use cn_project.Nodes.Host
use cn_project.Nodes.Host.{Host, new_host}

pub record DownLinkTask : Type 0 where
  pub start_time : ℕ
  -- Whether the member `sleepingThread` has a thread.
  pub is_joinable : Bool

pub record Network (Q : Type 0) : Type 0 where
  pub controller : NetworkController
  pub routers : Dict (Router Q)
  pub hosts : Dict (Host Q)
  -- The static members of the routers and of the connections.
  pub defaults : RouterDefaults
  pub packet_size : ℕ
  -- What the program has printed, and its files.
  pub console : List Output
  pub logs : Dict (List LogLine)
  pub files : Dict (List ℕ)

-- The initial value of the static `Packet_Size`.
abbrev pub initial_packet_size : ℕ
initial_packet_size = 10

module _ {Q : Type 0} where
  unfoldable pub empty_network : Network Q
  empty_network = record {
    controller = fresh_controller;
    routers = [];
    hosts = [];
    defaults = initial_defaults;
    packet_size = initial_packet_size;
    console = [];
    logs = [];
    files = [];
  }

  unfoldable pub print : Output → Network Q → Network Q
  print line n = record n { console = n.console ++ (line ∷ []) }

  unfoldable pub knows : String → Network Q → Bool
  knows addr n = contains addr n.routers || contains addr n.hosts

  -- `m_hosts[host]->addToRouterLink(m_routers[router], cost)` and its counterpart.
  unfoldable pub link_host : String → String → ℕ → Network Q → Option (Network Q)
  link_host host router cost n = do
    h ← lookup host n.hosts
    r ← lookup router n.routers
    some (record n {
      hosts = insert host (Host.add_to_router_link router cost h) n.hosts;
      routers = insert router (Router.add_to_host_link host cost r) n.routers;
    })

  unfoldable pub link_router_to : String → String → ℕ → Network Q → Option (Network Q)
  link_router_to addr1 addr2 cost n = do
    r ← lookup addr1 n.routers
    other ← lookup addr2 n.routers
    some (record n { routers = insert addr1 (Router.add_to_router_link addr2 cost r) n.routers })

  -- Two hosts: an error is printed, and the null pointer of a router is read.
  unfoldable pub add_link : String → String → ℕ → Network Q → Option (Network Q)
  add_link addr1 addr2 cost n =
      if not (knows addr1 n)
      then some (print (unknown_address addr1) n)
      else if not (knows addr2 n)
      then some (print (unknown_address addr2) n)
      else if contains addr1 n.hosts
      then link_host addr1 addr2 cost
          (if contains addr2 n.routers then n else print cannot_connect_hosts n)
      else if contains addr2 n.hosts
      then link_host addr2 addr1 cost n
      else link_router_to addr1 addr2 cost n >>= link_router_to addr2 addr1 cost

  unfoldable pub update_link_cost : String → String → ℕ → Network Q → Option (Network Q)
  update_link_cost addr1 addr2 cost n = add_link addr1 addr2 cost n

  unfoldable pub cost_at_node : String → AbstractNode Q → ℕ
  cost_at_node addr node = elim (lookup addr (get_routers_links node)) [
    | some link ↦ link.cost
    | none ↦ elim (lookup addr (get_hosts_links node)) [ some link ↦ link.cost | none ↦ 0 ]
  ]

  unfoldable pub find_link_cost : String → String → Network Q → Option ℕ
  find_link_cost addr1 addr2 n = elim (lookup addr1 n.hosts) [
    | some h ↦ some (cost_at_node addr2 h.node)
    | none ↦ lookup addr1 n.routers >>= λ r. some (cost_at_node addr2 r.node)
  ]

  unfoldable pub remove_link : String → String → Network Q → Network Q
  remove_link addr1 addr2 n = n

  -- The end of a task's life: `std::terminate` if its thread can be joined.
  unfoldable pub end_task : DownLinkTask → Network Q → Option (Network Q)
  end_task task n = if task.is_joinable then none else some n

  -- The task is a local variable. It has got its thread when its life ends.
  unfoldable pub temporarily_down_link : ℕ → String → String → Network Q → Option (Network Q)
  temporarily_down_link now addr1 addr2 n =
      if not (knows addr1 n) || not (knows addr2 n)
      then some (print (unknown_address addr1) n)
      else find_link_cost addr1 addr2 n >>= λ cost.
          if cost == 0
          then some (print no_link_between n)
          else end_task (record { start_time = now; is_joinable = true }) n

  unfoldable pub initial_rtt : Network Q → ℕ
  initial_rtt n = mul64 (mul64 5 n.defaults.buffer_size) n.defaults.router_delay

  -- `m_hosts[host]->addTcpConnection(end_point, ...)`
  unfoldable pub connect : Env → String → String → Network Q → Option (Network Q)
  connect env host end_point n = do
    h ← lookup host n.hosts
    some (record n {
      hosts =
          insert host
            (Host.add_tcp_connection (connection_interface env) end_point (initial_rtt n) h)
            n.hosts;
    })

  unfoldable pub connect_and_send :
      Env → String → String → List ℕ → ℕ → Network Q → Option (Network Q)
  connect_and_send env sender receiver bytes repeat_delay n = do
    one ← connect env sender receiver n
    both ← connect env receiver sender one
    h ← lookup sender both.hosts
    h' ←
        Host.send_message_to (connection_interface (record env { packet_size = n.packet_size }))
          receiver bytes repeat_delay h
    some (record both { hosts = insert sender h' both.hosts })

  unfoldable pub command_to_send :
      Env → String → String → List ℕ → ℕ → Network Q → Option (Network Q)
  command_to_send env sender receiver bytes repeat_delay n =
      if contains sender n.hosts && contains receiver n.hosts
      then connect_and_send env sender receiver bytes repeat_delay n
      else some (print unknown_nodes n)

  unfoldable pub set_router_delay : ℕ → Network Q → Network Q
  set_router_delay nanoseconds n = record n {
    defaults = record n.defaults { router_delay = nanoseconds };
    routers = map_values (Router.set_delay nanoseconds) n.routers;
  }

  unfoldable pub set_router_drop_rate : ℕ → Network Q → Network Q
  set_router_drop_rate rate n = record n { defaults = record n.defaults { drop_rate = rate } }

  unfoldable pub set_packet_size : ℕ → Network Q → Network Q
  set_packet_size size n = record n { packet_size = size }

  -- The loop of `printTable`.
  unfoldable pub print_rows : Dict RoutingTableEntry → Network Q → Network Q
  print_rows [] n = n
  print_rows (pair ∷ rest) n =
      print_rows rest (print (table_row pair.0 pair.1.cost pair.1.next_hop) n)

  unfoldable pub print_table : Dict RoutingTableEntry → Network Q → Network Q
  print_table table n = print table_foot (print_rows table (print table_head n))

  unfoldable pub show_tables : String → Network Q → Network Q
  show_tables addr n = elim (lookup addr n.hosts) [
    | some h ↦ print_table (get_routing_table h.node) n
    | none ↦ elim (lookup addr n.routers) [
      | some r ↦ print_table (get_routing_table r.node) n
      | none ↦ print unknown_addr n
    ]
  ]

  -- The empty methods.
  unfoldable pub draw : Network Q → Network Q
  draw n = n

  unfoldable pub log_link : String → String → Network Q → Network Q
  log_link addr1 addr2 n = n

  unfoldable pub destroy : Network Q → Network Q
  destroy n = print destroying_network n

module _ {Q : Type 0} (queue : MessageQueue Q) where
  unfoldable pub add_host : String → Network Q → Network Q
  add_host addr n =
      if knows addr n
      then print (address_in_use addr) n
      else record n { hosts = insert addr (new_host queue addr) n.hosts }

  unfoldable pub add_router : RouterEnv → String → Network Q → Network Q
  add_router env addr n = if knows addr n then print (address_in_use addr) n else record n {
    routers = insert addr ((router_class queue env n.defaults).construct addr) n.routers;
  }

  unfoldable pub set_router_buffer_size : ℕ → Network Q → Network Q
  set_router_buffer_size size n = record n {
    defaults = record n.defaults { buffer_size = to_u16 size };
    routers = map_values (Router.set_buffer_size queue (to_u16 size)) n.routers;
  }
