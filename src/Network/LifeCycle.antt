-- ===== src/Network/LifeCycle.antt =====
-- The threads of the nodes: `run` starts them, and `shutDown` joins them.
use cn_project.Base.{
  ℕ, ◌+◌, ◌<◌, arith, length, ◌≡◌, ◌⊎◌, refl, ap, subst, ◌∙◌, ℕ_discrete, Bool, true, false, ◌||◌,
  Option, none, some, inl, inr, if◌then◌else◌,
}
use cn_project.Base.Dict.{Dict, AllEntries}
use cn_project.Base.Traverse.{length-try_values, try_values, try_values_all}
use mathlib.Core.Option.{none-ne-some, some-injective}
use cn_project.Tcp.{Env, TcpConnection, ◌>>=◌}
use cn_project.Nodes.Queue.{MessageQueue}
use cn_project.Nodes.Node.{AbstractNode, call, inc_running, log, starting}
use cn_project.Nodes.Router
use cn_project.Nodes.Router.{Router, RouterEnv}
use cn_project.Nodes.Host
use cn_project.Nodes.Host.{Host, renew_connection}
use cn_project.Network.{Network}
use cn_project.Network.Running.{start_nodes, run, join_threads, as_host, as_router}
use cn_project.Network.Threads.{run_parts, both_parts}
use cn_project.Convergence.Start.{broad_cast_table_lem}
use cn_project.Controller.{set_start_alg_time}
use cn_project.Network.Joining.{
  hosts_class, routers_class, hosts-Joins, routers-Joins, both_none, or_parts, or_either, IsUp,
  IsEnded, some_one, join_missing_all, join_waits_all, some_up, join_all,
}

module _ {Q : Type 0} where
  module _ (queue : MessageQueue Q) (env : Env) (renv : RouterEnv) where
    module _ (n : Network Q) where
      abbrev IsAllUp : Type 0
      IsAllUp =
          AllEntries (λ _ (h : Host Q). IsUp h.node) n.hosts
          × AllEntries (λ _ (r : Router Q). IsUp r.node) n.routers

      abbrev any_routers : Dict (Router Q) → Bool
      any_routers =
          some_one queue env renv (routers_class queue env renv n) (routers-Joins queue env renv n)

      -- The threads of all nodes have ended, and none was joined.
      abbrev pub IsAllEnded : Type 0
      IsAllEnded =
          AllEntries (λ _ (h : Host Q). IsEnded h.node) n.hosts
          × AllEntries (λ _ (r : Router Q). IsEnded r.node) n.routers

      abbrev nodes : ℕ
      nodes = length n.hosts + length n.routers

      -- There is a host or a router, or both.
      some_kind : 0 < nodes → (0 < length n.hosts) ⊎ (0 < length n.routers)
      some_kind some_node = elim (ℕ_discrete (length n.hosts) 0) [
        | yes no_hosts ↦ inr (omega (arith, some_node, no_hosts))
        | no hosts ↦ inl (omega (arith, hosts))
      ]

      none_started :
          0 < nodes
          → (some_one queue env renv
                (hosts_class queue env renv n)
                (hosts-Joins queue env renv n)
                n.hosts
              || some_one queue env renv
                  (routers_class queue env renv n)
                  (routers-Joins queue env renv n)
                  n.routers)
            ≡ false
          → join_threads queue env renv n ≡ none
      unfolding join_threads
      none_started some_node off =
          let (no_hosts, no_routers) = or_parts _ _ off in
          both_none _ _ _ (elim (some_kind some_node) [
            | inl h ↦ inl (
                join_missing_all queue env renv (hosts_class queue env renv n)
                  (hosts-Joins queue env renv n) n.hosts h no_hosts)
            | inr r ↦ inr (
                join_missing_all queue env renv (routers_class queue env renv n)
                  (routers-Joins queue env renv n) n.routers r no_routers)
          ])

      still_up : 0 < nodes → IsAllUp → join_threads queue env renv n ≡ none
      unfolding join_threads
      still_up some_node (hs, rs) = both_none _ _ _ (elim (some_kind some_node) [
        | inl h ↦ inl (
            join_waits_all queue env renv (hosts_class queue env renv n)
              (hosts-Joins queue env renv n) n.hosts h hs)
        | inr r ↦ inr (
            join_waits_all queue env renv (routers_class queue env renv n)
              (routers-Joins queue env renv n) n.routers r rs)
      ])

      started_twice : 0 < nodes → IsAllUp → run queue env renv n ≡ none
      unfolding run
      started_twice some_node (hs, rs) =
          ap (λ b. if b then none else start_nodes queue env renv n)
            (or_either _ _ (elim (some_kind some_node) [
              | inl h ↦ inl (
                  some_up queue env renv (hosts_class queue env renv n)
                    (hosts-Joins queue env renv n) n.hosts h hs)
              | inr r ↦ inr (
                  some_up queue env renv (routers_class queue env renv n)
                    (routers-Joins queue env renv n) n.routers r rs)
            ]))

    router-IsUp : (r r' : Router Q) → some (Router.start_node r) ≡ some r' → IsUp r'.node
    unfolding Router.start_node log
    router-IsUp r r' e =
        subst (λ (x : Router Q). IsUp x.node) (some-injective _ r' e)
          (let (ks, same, _) =
              broad_cast_table_lem r.node.routing_table
                (call inc_running
                  (record (log starting r.node) { is_running = true; is_joinable = true }))
                refl in
            (
              ap (λ (x : AbstractNode Q). x.is_joinable) same,
              ap (λ (x : AbstractNode Q). x.is_running) same,
            ))

    host-IsUp :
        (n : Network Q) (h h' : Host Q)
        → (as_host queue env renv n).start_node h ≡ some h'
        → IsUp h'.node
    unfolding Host.start_node Host.log
    host-IsUp n h h' e = chosen _ e
      where
        up : Dict TcpConnection → Host Q
        up cs = record {
          node =
              call inc_running
                (record (log starting h.node) { is_running = true; is_joinable = true });
          connections = cs;
        }

        chosen :
            (o : Option (Dict TcpConnection)) → (o >>= λ cs. some (up cs)) ≡ some h' → IsUp h'.node
        chosen none e = absurd (none-ne-some h' e)
        chosen (some cs) e =
            subst (λ (x : Host Q). IsUp x.node) (some-injective (up cs) h' e) (refl, refl)

    all_started :
        (n n' : Network Q)
        → start_nodes queue env renv n ≡ some n'
        → IsAllUp n' × (nodes n ≡ nodes n')
    unfolding start_nodes
    all_started n n' e =
        let (hs, rs, on, ron, same) =
          both_parts (try_values (as_host queue env renv n).start_node n.hosts)
            (try_values (as_router queue env renv n).start_node n.routers)
            (λ hs rs. record n {
              controller = set_start_alg_time env.now n.controller;
              hosts = hs;
              routers = rs;
            })
            n' e in
        subst (λ m. IsAllUp m × (nodes n ≡ nodes m)) same
          (
            (
              try_values_all (λ (h : Host Q). IsUp h.node) _ (host-IsUp n) n.hosts hs on,
              try_values_all (λ (r : Router Q). IsUp r.node) _ router-IsUp n.routers rs ron,
            ),
            omega (
              arith,
              length-try_values _ n.hosts hs on,
              length-try_values (as_router queue env renv n).start_node n.routers rs ron,
            ),
          )

    -- Take a network with a node, and let `run` return. Before, the join of all threads did not
    -- return, since there was none to be joined. Afterwards it does not return either, since they
    -- have not ended, and a second `run` does not return.
    pub run_lem :
        (n n' : Network Q)
        → 0 < length n.hosts + length n.routers
        → run queue env renv n ≡ some n'
        → (join_threads queue env renv n ≡ none)
          × (join_threads queue env renv n' ≡ none)
          × (run queue env renv n' ≡ none)
    run_lem n n' some_node e =
        let (off, ran) = run_parts queue env renv n n' e in
        let (up, same) = all_started n n' ran in
        let some_node' : 0 < nodes n' = omega (arith, some_node, same) in
        (none_started n some_node off, still_up n' some_node' up, started_twice n' some_node' up)

    -- If all threads were started and have ended, the join of all threads returns. Then `run` does
    -- what it does at nodes that were never started.
    pub join_threads_lem :
        (n : Network Q)
        → IsAllEnded n
        → (n' : Network Q) × (join_threads queue env renv n ≡ some n')
          × (run queue env renv n' ≡ start_nodes queue env renv n')
    unfolding join_threads run
    join_threads_lem n (hs, rs) =
        let (hosts, joined, no_hosts) =
          join_all queue env renv (hosts_class queue env renv n) (hosts-Joins queue env renv n)
            n.hosts hs in
        let (routers, rjoined, no_routers) =
          join_all queue env renv (routers_class queue env renv n) (routers-Joins queue env renv n)
            n.routers rs in
        let n' = record n { hosts = hosts; routers = routers } in
        (
          n',
          ap
                (λ o. o >>= λ a.
                  try_values (routers_class queue env renv n).join_thread n.routers >>= λ b.
                  some (record n { hosts = a; routers = b }))
                joined
              ∙ ap (λ o. o >>= λ b. some (record n { hosts = hosts; routers = b })) rjoined,
          ap (λ a. if a || any_routers n routers then none else start_nodes queue env renv n')
                no_hosts
              ∙ ap (λ b. if b then none else start_nodes queue env renv n') no_routers,
        )
