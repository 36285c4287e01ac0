-- ===== src/Network/Interface.antt =====
-- Network.h: the methods of the class, and the network that has them. The command line uses a
-- network through this interface.
use cn_project.Base.{ℕ, String, List, Option}
use cn_project.Base.Dict.{Dict}
use cn_project.Tcp.{Env}
use cn_project.Nodes.Queue.{MessageQueue}
use cn_project.Nodes.Node.{RoutingTableEntry}
use cn_project.Nodes.Router.{RouterEnv}
use cn_project.Network
use cn_project.Network.{Network}
use cn_project.Network.Running

-- `none` is a fault, or a wait that has not ended.
pub record NetworkInterface (N : Type 0) : Type 0 where
  pub empty : N
  pub add_host : String → N → N
  pub add_router : String → N → N
  pub add_link : String → String → ℕ → N → Option N
  pub update_link_cost : String → String → ℕ → N → Option N
  pub temporarily_down_link : String → String → ℕ → ℕ → N → Option N
  pub remove_link : String → String → N → N
  pub run : N → Option N
  pub shut_down : N → Option N
  pub wait_for_converge : N → Option N
  pub draw : N → N
  pub log_link : String → String → N → N
  pub show_tables : String → N → N
  pub print_table : Dict RoutingTableEntry → N → N
  pub command_to_send : String → String → List ℕ → ℕ → N → Option N
  pub find_link_cost : String → String → N → Option ℕ
  pub set_router_delay : ℕ → N → N
  pub set_router_buffer_size : ℕ → N → N
  pub set_router_drop_rate : ℕ → N → N
  pub set_packet_size : ℕ → N → N
  pub destroy : N → N

-- What the threads do while the program sleeps and while it joins them, and how often it looks at
-- the counter before it is taken to wait for ever.
pub record Schedule (N : Type 0) : Type 0 where
  pub pause : N → N
  pub join : N → N
  pub rounds : ℕ

module _ {Q : Type 0} (queue : MessageQueue Q) (env : Env) (router_env : RouterEnv)
    (schedule : Schedule (Network Q)) where
  abbrev pub network_interface : NetworkInterface (Network Q)
  network_interface = record {
    empty = Network.empty_network;
    add_host = Network.add_host queue;
    add_router = Network.add_router queue router_env;
    add_link = Network.add_link;
    update_link_cost = Network.update_link_cost;
    temporarily_down_link =
        λ addr1 addr2 down up. Network.temporarily_down_link env.now addr1 addr2;
    remove_link = Network.remove_link;
    run = Running.run queue env router_env;
    shut_down = Running.shut_down queue env router_env schedule.pause schedule.join;
    wait_for_converge =
        Running.wait_for_converge queue env router_env schedule.rounds schedule.pause;
    draw = Network.draw;
    log_link = Network.log_link;
    show_tables = Network.show_tables;
    print_table = Network.print_table;
    command_to_send = Network.command_to_send env;
    find_link_cost = Network.find_link_cost;
    set_router_delay = Network.set_router_delay;
    set_router_buffer_size = Network.set_router_buffer_size queue;
    set_router_drop_rate = Network.set_router_drop_rate;
    set_packet_size = Network.set_packet_size;
    destroy = Network.destroy;
  }
