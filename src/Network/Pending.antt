-- ===== src/Network/Pending.antt =====
-- A timeout thread of a connection that was not joined ends the program at the next `run`.
use cn_project.Base.{
  ℕ, String, ◌≡◌, refl, ap, ◌∙◌, Bool, true, false, ◌||◌, Option, none, some, List, ◌∷◌,
  if◌then◌else◌,
}
use cn_project.Base.Dict.{Dict, lookup}
use cn_project.Base.Traverse.{try_values, try_values_fails}
use cn_project.Tcp.{
  ConnectionInterface, connection_interface, Env, TcpConnection, ◌>>=◌, move_assign,
}
use cn_project.Nodes.Queue.{MessageQueue}
use cn_project.Nodes.Node.{call, inc_running, starting}
use cn_project.Nodes.Router.{RouterEnv}
use cn_project.Nodes.Host
use cn_project.Nodes.Host.{Host, renew_connection}
use cn_project.Network.{Network}
use cn_project.Network.Running.{start_nodes, run}
use cn_project.Controller.{set_start_alg_time}
use cn_project.Network.Joining.{hosts_class, routers_class, hosts-Joins, routers-Joins, some_one}

module _ {Q : Type 0} where
  module _ (queue : MessageQueue Q) (env : Env) (renv : RouterEnv) where
    -- A host has a connection whose timeout thread was not joined, as after `send` before `run`: `run`
    -- does not return, since the connection is assigned to.
    pub run_pending :
        (n : Network Q) (addr end_point : String) (h : Host Q) (c : TcpConnection) (t : ℕ)
        (ts : List ℕ)
        → lookup addr n.hosts ≡ some h
        → lookup end_point h.connections ≡ some c
        → c.timeout_threads ≡ t ∷ ts
        → run queue env renv n ≡ none
    unfolding run start_nodes Host.start_node renew_connection move_assign
    run_pending n addr end_point h c t ts host_found found pending =
        ap (λ o. if both_off then none else (o >>= rest))
          (try_values_fails (hosts_class queue env renv n).start_node addr h n.hosts host_found
            not_started)
        ∙ same both_off
      where
        both_off : Bool
        both_off =
            some_one queue env renv (hosts_class queue env renv n) (hosts-Joins queue env renv n)
              n.hosts
            || some_one queue env renv (routers_class queue env renv n)
                (routers-Joins queue env renv n) n.routers

        rest : Dict (Host Q) → Option (Network Q)
        rest hosts = try_values (routers_class queue env renv n).start_node n.routers >>= λ routers.
            some (record n {
              controller = set_start_alg_time env.now n.controller;
              hosts = hosts;
              routers = routers;
            })

        up : Dict TcpConnection → Host Q
        up cs = record {
          node =
              call inc_running
                (record (Host.log starting h).node { is_running = true; is_joinable = true });
          connections = cs;
        }

        tcp : ConnectionInterface TcpConnection
        tcp = connection_interface (record env { packet_size = n.packet_size })

        not_renewed : renew_connection tcp h.node.addr c ≡ none
        not_renewed = rw pending refl

        not_started : (hosts_class queue env renv n).start_node h ≡ none
        not_started =
            ap (λ o. o >>= λ cs. some (up cs))
              (try_values_fails (renew_connection tcp h.node.addr) end_point c h.connections found
                not_renewed)

        same : (b : Bool) → ◌≡◌ {A = Option (Network Q)} (if b then none else none) none
        same true = refl
        same false = refl
