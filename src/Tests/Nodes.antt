-- ===== src/Tests/Nodes.antt =====
-- Nodes, the network and the command loops at small inputs.
use cn_project.Base.{
  String, ◌≡◌, ◌≢◌, ◌⊎◌, ◌++◌, ◌<◌, refl, inl, inr, true, false, Option, none, some, List, [], ◌∷◌,
  arith, length, get_elem?, u64_max, eq_iff,
}
use cn_project.Base.Dict.{lookup}
use cn_project.Message.{Message, routing, RoutingMessage}
use cn_project.Controller.{fresh_controller}
use cn_project.Nodes.Queue.{MessageQueue}
use cn_project.Nodes.Node.{AbstractNode, update_routing_table}
use cn_project.Nodes.Router.{Router, RouterEnv, initial_defaults, handle_new_message}
use cn_project.Nodes.Host.{Host}
use cn_project.Nodes.Table.{IsRelaxed, update_routing_table_lem}
use cn_project.Nodes.Broadcast.{Handles, handle_new_message_routing}
use cn_project.Nodes.Interface.{router_interface, host_interface}
use cn_project.Nodes.Contract.{IsNode, nodes-IsNode}
use cn_project.Nodes.Counting.{IsCounted, handle_new_message-IsCounted}
use cn_project.Network.{Network, add_link, add_host}
use cn_project.Network.Ends.{IsLinked}
use cn_project.Network.Links.{IsLinkable, router_router, add_link_lem, add_link_hosts}
use cn_project.Network.Interface.{NetworkInterface, Schedule, network_interface}
use cn_project.Command.{CommandStream, CommandEnv, add_all, dummy_from}
use cn_project.Command.Loops.{StreamLaws, add_words, add_all_ends, dummy_from_lem}
use cn_project.Tcp.{connection_interface}
use cn_project.Tests.Values.{env}

abbrev pub Q : Type 0
Q = List (Option Message)

abbrev pub queue : MessageQueue Q
queue = record {
  new_queue = [];
  with_capacity = λ _. [];
  enqueue = λ m q. q ++ (m ∷ []);
  try_enqueue = λ m q. q ++ (m ∷ []);
  wait_dequeue = λ q. elim q [ [] ↦ none | m ∷ rest ↦ some (m, rest) ];
  size_approx = length;
}

abbrev pub router_env : RouterEnv
router_env = record { rand = 5; exceeds = λ _ _. true; indeterminate = 0 }

-- A running router that knows a way of cost 9 to "h" and is linked to "s" and "t".
abbrev pub node : AbstractNode Q
node = record {
  to_routers_links =
      ("s", record { router = "s"; cost = 2 }) ∷ ("t", record { router = "t"; cost = 4 }) ∷ [];
  to_hosts_links = [];
  links =
      ("s", record { node = some "s"; cost = 2 })
      ∷ ("t", record { node = some "t"; cost = 4 })
      ∷ [];
  routing_table = ("h", record { destination = "h"; cost = 9; next_hop = "t" }) ∷ [];
  addr = "r";
  log_filename = "./log/Router:r.txt";
  is_running = true;
  must_stop = false;
  is_joinable = false;
  is_buffer_limited = false;
  node_queue = [];
  calls = [];
}

abbrev router : Router Q
router = record { node = node; delay = 0; fifo_size = u64_max }

abbrev news : RoutingMessage
news = record { sender = "s"; destination = "h"; cost = 3 }

abbrev bare : String → AbstractNode Q
bare addr = record node { to_routers_links = []; links = []; routing_table = []; addr = addr }

abbrev bare_router : String → Router Q
bare_router addr = record router { node = bare addr }

abbrev pub bare_host : String → Host Q
bare_host addr = record { node = bare addr; connections = [] }

abbrev pub network : Network Q
network = record {
  controller = fresh_controller;
  routers = ("r", bare_router "r") ∷ ("s", bare_router "s") ∷ [];
  hosts = ("a", bare_host "a") ∷ ("b", bare_host "b") ∷ [];
  defaults = initial_defaults;
  packet_size = 10;
  console = [];
  logs = [];
  files = [];
}

-- A stream of words.
abbrev words : CommandStream (List String)
words = record {
  next_word = λ old s. elim s [ [] ↦ (old, []) | w ∷ rest ↦ (w, rest) ];
  next_number = λ old s. (old, s);
  next_double = λ old s. (old, s);
  at_end = λ s. elim s [ [] ↦ true | _ ∷ _ ↦ false ];
}

words_shorter :
    (old : String) (s : List String)
    → (words.at_end (words.next_word old s).1 ≡ true)
      ⊎ (length (words.next_word old s).1 < length s)
words_shorter old [] = inl refl
words_shorter old (w ∷ rest) = inr (omega arith)

abbrev word_laws : StreamLaws words
word_laws = record { left = length; shorter = words_shorter }

different : ◌≢◌ {A = String} "r" "s"
different e = ground (arith, (eq_iff "r" "s").1 e)

abbrev schedule : Schedule (Network Q)
schedule = record { pause = λ n. n; join = λ n. n; rounds = 5 }

abbrev interface : NetworkInterface (Network Q)
interface = network_interface queue env router_env schedule

abbrev command_env : CommandEnv
command_env = record {
  files = λ _. none;
  to_uint64 = λ n. n;
  to_uint16 = λ n. n;
  indeterminate = 0;
}

update_routing_table_lem_example :
    IsRelaxed "h" 5 "s" node
      (update_routing_table "h" 5 "s" node).0
      (update_routing_table "h" 5 "s" node).1
update_routing_table_lem_example = update_routing_table_lem "h" 5 "s" node

handle_new_message_routing_example :
    Handles news 2 router (handle_new_message router_env initial_defaults (routing news) router)
handle_new_message_routing_example =
    handle_new_message_routing router_env initial_defaults news router
      (record { node = some "s"; cost = 2 }) refl (unfold lookup in refl)

routers-IsLinkable : IsLinkable "r" "s" network
unfolding lookup
routers-IsLinkable = router_router (bare_router "r") (bare_router "s") refl refl refl refl

add_link_lem_example :
    (n' : Network Q) × (add_link "r" "s" 7 network ≡ some n') × IsLinked "r" "s" 7 n'
add_link_lem_example = add_link_lem "r" "s" 7 network different routers-IsLinkable

add_link_hosts_example : add_link "a" "b" 7 network ≡ none
unfolding lookup
add_link_hosts_example =
    add_link_hosts "a" "b" 7 network (bare_host "a") (bare_host "b") refl refl refl

add_all_ends_example :
    (w : String) × (ws : List String) × (add_all words interface command_env
        (add_host queue)
        9
        ""
        ("x" ∷ "y" ∷ [])
        network
      ≡ some (add_words (add_host queue) (w ∷ ws) network))
add_all_ends_example =
    add_all_ends words word_laws command_env interface (add_host queue) 9 "" ("x" ∷ "y" ∷ [])
      network (omega arith)

dummy_from_lem_example :
    (length (dummy_from 10 0) ≡ 10) × (8 < 10 → get_elem? (dummy_from 10 0) 8 ≡ some 49)
dummy_from_lem_example = dummy_from_lem 10 0 8

handle_new_message-IsCounted_example :
    IsCounted (handle_new_message router_env initial_defaults (routing news) router).node
handle_new_message-IsCounted_example =
    handle_new_message-IsCounted router_env initial_defaults (routing news) router
      (record { counted = refl })

nodes-IsNode_example :
    IsNode queue (router_interface queue router_env initial_defaults)
    × IsNode queue (host_interface queue (connection_interface env))
nodes-IsNode_example = nodes-IsNode queue router_env initial_defaults (connection_interface env)
