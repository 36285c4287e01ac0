-- ===== src/Network/Running.antt =====
-- The network as it runs: its start and end, the calls between its nodes, and the turns of its
-- threads, each one step.
use cn_project.Base.{
  Bool, false, ◌||◌, ℕ, zero, suc, ◌+◌, ◌-◌, ◌%◌, ◌^◌, String, ◌<>◌, Option, none, some, List, [],
  ◌∷◌, ◌++◌, ◌==◌, if◌then◌else◌,
}
use cn_project.Base.Dict.{Dict, lookup, insert}
use cn_project.Message.{Message}
use cn_project.Controller.{
  set_start_alg_time, inc_converge_counter, dec_converge_counter, inc_running_node_counter,
  dec_running_node_counter,
}
use cn_project.Tcp.{◌>>=◌, Env, ConnectionInterface, TcpConnection, connection_interface}
use cn_project.Nodes.Queue.{MessageQueue}
use cn_project.Nodes.Node.{
  Call, taken_by, inc_converge, dec_converge, inc_running, dec_running, sleep_for, write_to_file,
  log_line, print_line, network_shut_down, queue_size, convergence_time,
}
use cn_project.Nodes.Router
use cn_project.Nodes.Router.{Router, RouterEnv, Turn, waiting, fault, going, left}
use cn_project.Nodes.Host
use cn_project.Nodes.Host.{Host}
use cn_project.Nodes.Interface.{NodeInterface, router_class, host_class}
use cn_project.Network.{Network, print}
use cn_project.Base.Dict.{map_values}
use cn_project.Base.Traverse.{try_values}

module _ {Q : Type 0} (queue : MessageQueue Q) (env : Env) (router_env : RouterEnv) where
  abbrev pub as_router : Network Q → NodeInterface Q (Router Q)
  as_router n = (router_class queue router_env n.defaults).as_node

  abbrev tcp : Network Q → ConnectionInterface TcpConnection
  tcp n = connection_interface (record env { packet_size = n.packet_size })

  abbrev pub as_host : Network Q → NodeInterface Q (Host Q)
  as_host n = (host_class queue (tcp n)).as_node

  -- The start of all threads, where no node has one.
  unfoldable pub start_nodes : Network Q → Option (Network Q)
  start_nodes n = do
    hosts ← try_values ((as_host n).start_node) n.hosts
    routers ← try_values ((as_router n).start_node) n.routers
    some (record n {
      controller = set_start_alg_time env.now n.controller;
      hosts = hosts;
      routers = routers;
    })

  -- Some node has a thread that was not joined.
  abbrev pub any_joinable : {N : Type 0} → NodeInterface Q N → Dict N → Bool
  any_joinable i [] = false
  any_joinable i (pair ∷ rest) = (i.base pair.1).is_joinable || any_joinable i rest

  -- The assignment of a thread to a member that has one already is `std::terminate`, and so is the
  -- renewal of a connection with a timeout thread.
  unfoldable pub run : Network Q → Option (Network Q)
  run n =
      if any_joinable (as_host n) n.hosts || any_joinable (as_router n) n.routers
      then none
      else start_nodes n

  -- `none` where a thread was never started, and where one has not ended and the join waits.
  unfoldable pub join_threads : Network Q → Option (Network Q)
  join_threads n = do
    hosts ← try_values ((as_host n).join_thread) n.hosts
    routers ← try_values ((as_router n).join_thread) n.routers
    some (record n { hosts = hosts; routers = routers })

  -- `shutDown` up to the pause, and what follows the pause.
  unfoldable pub stop_nodes : Network Q → Network Q
  stop_nodes n = record n {
    hosts = map_values ((as_host n).stop_node) n.hosts;
    routers = map_values ((as_router n).stop_node) n.routers;
  }

  unfoldable pub clear_queues : Network Q → Network Q
  clear_queues n = record n {
    hosts = map_values ((as_host n).clear_queue) n.hosts;
    routers = map_values ((as_router n).clear_queue) n.routers;
  }

  -- The sizes of the queues, under NETWORK_DEBUGGING.
  unfoldable pub print_sizes : {N : Type 0} → NodeInterface Q N → Dict N → Network Q → Network Q
  print_sizes i [] n = n
  print_sizes i (pair ∷ rest) n =
      print_sizes i rest
        (print (queue_size pair.0 (queue.size_approx (i.base pair.1).node_queue)) n)

  -- `pause` and `join` are what the threads do while the program sleeps, and until they have ended.
  unfoldable pub shut_down :
      (Network Q → Network Q) → (Network Q → Network Q) → Network Q → Option (Network Q)
  shut_down pause join n = join_threads (join (clear_queues (pause (stop_nodes n)))) >>= λ joined.
      let ended = print network_shut_down joined in
      some (print_sizes (as_router n) ended.routers (print_sizes (as_host n) ended.hosts ended))

  -- At each round the program sleeps and reads the counter; it waits on when the fuel is used up.
  unfoldable pub wait_for_converge : ℕ → (Network Q → Network Q) → Network Q → Option (Network Q)
  wait_for_converge zero pause n = none
  wait_for_converge (suc rounds) pause n =
      let n' = pause n in
      let rest = wait_for_converge rounds pause n' in
      let time = (n'.controller.end_time + 2 ^ 64 - n'.controller.start_time) % 2 ^ 64 in
      if n'.controller.alg_converge_counter == 0
      then some (print (convergence_time time) n')
      else rest

  unfoldable pub deliver_to : String → Message → Network Q → Network Q
  deliver_to addr message n = elim (lookup addr n.routers) [
    | some r ↦ record n {
      routers = insert addr ((as_router n).take_message (some message) r) n.routers;
    }
    | none ↦ elim (lookup addr n.hosts) [
      | some h ↦ record n {
        hosts = insert addr ((as_host n).take_message (some message) h) n.hosts;
      }
      | none ↦ n
    ]
  ]

  abbrev lines_of {ℓ} : {A : Type ℓ} → Option (List A) → List A
  lines_of none = []
  lines_of (some lines) = lines

  -- A call that a node makes, as one step.
  unfoldable pub perform : Call → Network Q → Network Q
  perform (taken_by addr message) n = deliver_to addr message n
  perform inc_converge n = record n { controller = inc_converge_counter n.controller }
  perform dec_converge n = record n { controller = dec_converge_counter env.now n.controller }
  perform inc_running n = record n { controller = inc_running_node_counter n.controller }
  perform dec_running n = record n { controller = dec_running_node_counter n.controller }
  perform (sleep_for time) n = n
  perform (write_to_file host source bytes) n = record n {
    files = insert ("./log/" <> host <> " from " <> source) bytes n.files;
  }
  perform (log_line file line) n = record n {
    logs = insert file (lines_of (lookup file n.logs) ++ (line ∷ [])) n.logs;
  }
  perform (print_line line) n = print line n

  -- The first call that a node has still to make; nothing if there is none.
  unfoldable pub router_call : String → Network Q → Network Q
  router_call addr n = elim (lookup addr n.routers) [
    | none ↦ n
    | some r ↦ elim r.node.calls [
      | [] ↦ n
      | k ∷ ks ↦ perform k (record n {
        routers = insert addr (record r { node = record r.node { calls = ks } }) n.routers;
      })
    ]
  ]

  unfoldable pub host_call : String → Network Q → Network Q
  host_call addr n = elim (lookup addr n.hosts) [
    | none ↦ n
    | some h ↦ elim h.node.calls [
      | [] ↦ n
      | k ∷ ks ↦ perform k (record n {
        hosts = insert addr (record h { node = record h.node { calls = ks } }) n.hosts;
      })
    ]
  ]

  -- The next message at a router or a host whose calls are all made; `none` is a fault.
  unfoldable pub router_turn : String → Network Q → Option (Network Q)
  router_turn addr n = elim (lookup addr n.routers) [
    | none ↦ some n
    | some r ↦ elim (Router.turn queue router_env n.defaults r) [
      | waiting ↦ some n
      | fault ↦ none
      | going r' ↦ some (record n { routers = insert addr r' n.routers })
      | left r' ↦ some (record n { routers = insert addr r' n.routers })
    ]
  ]

  unfoldable pub host_turn : String → Network Q → Option (Network Q)
  host_turn addr n = elim (lookup addr n.hosts) [
    | none ↦ some n
    | some h ↦ elim (Host.turn queue (tcp n) h) [
      | waiting ↦ some n
      | fault ↦ none
      | going h' ↦ some (record n { hosts = insert addr h' n.hosts })
      | left h' ↦ some (record n { hosts = insert addr h' n.hosts })
    ]
  ]

  -- A timeout thread of a connection of a host.
  unfoldable pub host_timer : String → String → Bool → Network Q → Option (Network Q)
  host_timer addr end_point dequeued n = elim (lookup addr n.hosts) [
    | none ↦ some n
    | some h ↦
        Host.connection_timeout (record env { packet_size = n.packet_size }) end_point dequeued h
        >>= λ h'. some (record n { hosts = insert addr h' n.hosts })
  ]
