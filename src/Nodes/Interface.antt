-- ===== src/Nodes/Interface.antt =====
-- The virtual methods of AbstractNode, and the two classes that override them. A network calls its
-- nodes through this interface.
use cn_project.Base.{ℕ, String, Bool, Option, some, List}
use cn_project.Base.Dict.{Dict}
use cn_project.Message.{Message, Packet}
use cn_project.Tcp.{ConnectionInterface, TcpConnection}
use cn_project.Nodes.Queue.{MessageQueue}
use cn_project.Nodes.Node.{
  AbstractNode, RoutingTableEntry, ToRouterLink, ToHostLink, Link, LogLine, NodeType, log, get_addr,
  get_routing_table, get_routers_links, get_hosts_links, get_links, stop_node, clear_queue,
  join_thread, take_message, update_routing_table,
}
use cn_project.Tcp.{◌>>=◌}
use cn_project.Nodes.Router
use cn_project.Nodes.Router.{Router, RouterEnv, RouterDefaults}
use cn_project.Nodes.Host
use cn_project.Nodes.Host.{Host}

pub record NodeInterface (Q N : Type 0) : Type 0 where
  -- The part of a node that is an AbstractNode.
  pub base : N → AbstractNode Q
  pub log : LogLine → N → N
  pub get_addr : N → String
  pub start_node : N → Option N
  pub stop_node : N → N
  pub clear_queue : N → N
  pub join_thread : N → Option N
  pub add_to_router_link : String → ℕ → N → N
  pub add_to_host_link : String → ℕ → N → N
  pub update_routing_table : String → ℕ → String → N → N × Bool
  pub take_message : Option Message → N → N
  pub handle_new_message : Message → N → Option N
  pub get_type : N → NodeType
  pub get_routing_table : N → Dict RoutingTableEntry
  pub get_routers_links : N → Dict ToRouterLink
  pub get_hosts_links : N → Dict ToHostLink
  pub get_links : N → Dict Link

-- The class Router: what it makes of the virtual methods, and its own.
pub record RouterInterface (Q R : Type 0) : Type 0 where
  pub construct : String → R
  pub as_node : NodeInterface Q R
  pub broad_cast_new_link : String → ℕ → R → R
  pub route_and_forward_packet : Packet → R → R
  pub set_default_delay : R → R
  pub set_delay : ℕ → R → R
  pub set_default_buffer_size : R → R
  pub set_buffer_size : ℕ → R → R

-- The class Host.
pub record HostInterface (Q H : Type 0) : Type 0 where
  pub construct : String → H
  pub add_tcp_connection : String → ℕ → H → H
  pub send_packet : Packet → H → H
  pub send_message_to : String → List ℕ → ℕ → H → Option H
  pub as_node : NodeInterface Q H
  pub handle_packet : Packet → H → Option H

module _ {Q : Type 0} (queue : MessageQueue Q) where
  abbrev pub router_interface : RouterEnv → RouterDefaults → NodeInterface Q (Router Q)
  router_interface env defaults = record {
    base = λ r. r.node;
    log = λ line r. record r { node = log line r.node };
    get_addr = λ r. get_addr r.node;
    start_node = λ r. some (Router.start_node r);
    stop_node = λ r. record r { node = stop_node queue r.node };
    clear_queue = λ r. record r { node = clear_queue queue r.node };
    join_thread = λ r. join_thread r.node >>= λ n. some (record r { node = n });
    add_to_router_link = Router.add_to_router_link;
    add_to_host_link = Router.add_to_host_link;
    update_routing_table = Router.update_routing_table;
    take_message = Router.take_message queue;
    handle_new_message = λ m r. some (Router.handle_new_message env defaults m r);
    get_type = Router.get_type;
    get_routing_table = λ r. get_routing_table r.node;
    get_routers_links = λ r. get_routers_links r.node;
    get_hosts_links = λ r. get_hosts_links r.node;
    get_links = λ r. get_links r.node;
  }

  abbrev pub host_interface : ConnectionInterface TcpConnection → NodeInterface Q (Host Q)
  host_interface tcp = record {
    base = λ h. h.node;
    log = Host.log;
    get_addr = λ h. get_addr h.node;
    start_node = Host.start_node tcp;
    stop_node = Host.stop_node queue tcp;
    clear_queue = λ h. record h { node = clear_queue queue h.node };
    join_thread = λ h. join_thread h.node >>= λ n. some (record h { node = n });
    add_to_router_link = Host.add_to_router_link;
    add_to_host_link = Host.add_to_host_link;
    update_routing_table = λ dest cost hop h.
        let changed = update_routing_table dest cost hop h.node in
        (record h { node = changed.0 }, changed.1);
    take_message = λ m h. record h { node = take_message queue m h.node };
    handle_new_message = Host.handle_new_message tcp;
    get_type = Host.get_type;
    get_routing_table = λ h. get_routing_table h.node;
    get_routers_links = λ h. get_routers_links h.node;
    get_hosts_links = λ h. get_hosts_links h.node;
    get_links = λ h. get_links h.node;
  }

  abbrev pub router_class : RouterEnv → RouterDefaults → RouterInterface Q (Router Q)
  router_class env defaults = record {
    construct = Router.new_router queue env defaults;
    as_node = router_interface env defaults;
    broad_cast_new_link = λ destination cost r. record r {
      node = Router.broad_cast_new_link destination cost r.node;
    };
    route_and_forward_packet = Router.route_and_forward_packet;
    set_default_delay = Router.set_default_delay defaults;
    set_delay = Router.set_delay;
    set_default_buffer_size = Router.set_default_buffer_size queue defaults;
    set_buffer_size = Router.set_buffer_size queue;
  }

  abbrev pub host_class : ConnectionInterface TcpConnection → HostInterface Q (Host Q)
  host_class tcp = record {
    construct = Host.new_host queue;
    add_tcp_connection = Host.add_tcp_connection tcp;
    send_packet = λ packet h. record h { node = Host.send_packet packet h.node };
    send_message_to = Host.send_message_to tcp;
    as_node = host_interface tcp;
    handle_packet = Host.handle_packet tcp;
  }
