-- ===== src/Tests/Threads.antt =====
-- A network of two routers is started, started again, and shut down, and one host sends before a start.
use cn_project.Base.{◌≡◌, refl, none, some, arith, [], ◌∷◌, true}
use cn_project.Base.Dict.{lookup}
use cn_project.Tcp.{TcpConnection}
use cn_project.Nodes.Router.{Router}
use cn_project.Nodes.Host.{Host}
use cn_project.Network.{Network}
use cn_project.Network.Running.{run, start_nodes, join_threads}
use cn_project.Network.Threads.{all_up}
use cn_project.Network.LifeCycle.{run_lem, join_threads_lem}
use cn_project.Network.Pending.{run_pending}
use cn_project.Tests.Values.{env, sender}
use cn_project.Tests.Nodes.{Q, queue, router_env, network, bare_host}
use cn_project.Tests.Routing.{two_routers, router_at, node_at}
use cn_project.Tests.Cheapest.{starts_up}

abbrev up : Network Q
up = all_up queue env router_env two_routers

run_lem_example :
    (join_threads queue env router_env two_routers ≡ none)
    × (join_threads queue env router_env up ≡ none)
    × (run queue env router_env up ≡ none)
run_lem_example = run_lem queue env router_env two_routers up (omega arith) starts_up

abbrev over : Router Q
over = record (router_at "r" "s") { node = record (node_at "r" "s") { is_joinable = true } }

abbrev ended : Network Q
ended = record two_routers { routers = ("r", over) ∷ [] }

join_threads_lem_example :
    (n' : Network Q) × (join_threads queue env router_env ended ≡ some n')
    × (run queue env router_env n' ≡ start_nodes queue env router_env n')
join_threads_lem_example = join_threads_lem queue env router_env ended (tt, ((refl, refl), tt))

abbrev waiting_sender : TcpConnection
waiting_sender = record sender { timeout_threads = 500 ∷ [] }

abbrev sending_host : Host Q
sending_host = record (bare_host "a") { connections = ("b", waiting_sender) ∷ [] }

abbrev has_sent : Network Q
has_sent = record network { hosts = ("a", sending_host) ∷ ("b", bare_host "b") ∷ [] }

run_pending_example : run queue env router_env has_sent ≡ none
unfolding lookup
run_pending_example =
    run_pending queue env router_env has_sent "a" "b" sending_host waiting_sender 500 [] refl refl
      refl
