-- ===== src/Routing/World.antt =====
-- A network as it runs, under any schedule: turns of routers and hosts, single calls between nodes,
-- timers, and commands to send. Clock readings, random values and the floats may differ from step to
-- step.
use cn_project.Base.{
  String, ◌≡◌, refl, sym, subst, Option, none, some, List, [], ◌∷◌, All, Option-cases, inl, inr,
}
use cn_project.Base.Dict.{Dict, lookup, insert, AllEntries, AllEntries-insert, AllEntries-lookup}
use cn_project.Message.{Message, routing, data_packet}
use cn_project.Tcp.{Env}
use cn_project.Nodes.Queue.{MessageQueue, QueueLaws}
use cn_project.Nodes.Node.{
  AbstractNode, Call, taken_by, inc_converge, dec_converge, inc_running, dec_running, sleep_for,
  write_to_file, log_line, print_line, take_message,
}
use cn_project.Nodes.Router
use cn_project.Nodes.Router.{Router, RouterEnv, Turn, waiting, fault, going, left}
use cn_project.Nodes.Host.{Host}
use cn_project.Network.{Network, print}
use cn_project.Network.Running.{deliver_to, perform, router_call, host_call}
use cn_project.Routing.{Topology, IsTwoWay, IsTrueCall, IsSound}
use cn_project.Routing.Handle.{IsTrueMessage, take_at_node-IsSound, router_take-IsSound}

module _ (t : Topology) {Q : Type 0} (queue : MessageQueue Q) (laws : QueueLaws queue)
    (two_way : IsTwoWay t) where
  abbrev SoundRouters : Dict (Router Q) → Type 0
  SoundRouters = AllEntries (λ at (r : Router Q). IsSound t queue laws at r.node)

  abbrev SoundHosts : Dict (Host Q) → Type 0
  SoundHosts = AllEntries (λ at (h : Host Q). IsSound t queue laws at h.node)

  -- Every node of the network is sound.
  pub record IsSoundNetwork (n : Network Q) : Type 0 where
    pub routers : SoundRouters n.routers
    pub hosts : SoundHosts n.hosts

  pub with_router :
      (at : String) (r : Router Q) (n : Network Q)
      → IsSound t queue laws at r.node
      → IsSoundNetwork n
      → IsSoundNetwork (record n { routers = insert at r n.routers })
  with_router at r n s net = record {
    routers =
        AllEntries-insert (λ a (x : Router Q). IsSound t queue laws a x.node) at r n.routers s
          net.routers;
    hosts = net.hosts;
  }

  pub with_host :
      (at : String) (h : Host Q) (n : Network Q)
      → IsSound t queue laws at h.node
      → IsSoundNetwork n
      → IsSoundNetwork (record n { hosts = insert at h n.hosts })
  with_host at h n s net = record {
    routers = net.routers;
    hosts =
        AllEntries-insert (λ a (x : Host Q). IsSound t queue laws a x.node) at h n.hosts s
          net.hosts;
  }

  pub router_at :
      (at : String) (r : Router Q) (n : Network Q)
      → lookup at n.routers ≡ some r
      → IsSoundNetwork n
      → IsSound t queue laws at r.node
  router_at at r n found net =
      AllEntries-lookup (λ a (x : Router Q). IsSound t queue laws a x.node) at r n.routers found
        net.routers

  pub host_at :
      (at : String) (h : Host Q) (n : Network Q)
      → lookup at n.hosts ≡ some h
      → IsSoundNetwork n
      → IsSound t queue laws at h.node
  host_at at h n found net =
      AllEntries-lookup (λ a (x : Host Q). IsSound t queue laws a x.node) at h n.hosts found
        net.hosts

  module _ (env : Env) (router_env : RouterEnv) where
    deliver_to-IsSound :
        (at : String) (m : Message) (n : Network Q)
        → IsTrueMessage t queue laws two_way at m
        → IsSoundNetwork n
        → IsSoundNetwork (deliver_to queue env router_env at m n)
    unfolding deliver_to
    deliver_to-IsSound at m n h net = elim (Option-cases (lookup at n.routers)) [
      | inl no_router ↦
          subst (λ o. IsSoundNetwork (to_router o)) (sym no_router)
            (elim (Option-cases (lookup at n.hosts)) [
              | inl no_host ↦ subst (λ o. IsSoundNetwork (to_host o)) (sym no_host) net
              | inr (x, found) ↦
                  subst (λ o. IsSoundNetwork (to_host o)) (sym found)
                    (with_host at _ n
                      (take_at_node-IsSound t queue laws two_way at m x.node h
                        (host_at at x n found net))
                      net)
            ])
      | inr (r, found) ↦
          subst (λ o. IsSoundNetwork (to_router o)) (sym found)
            (with_router at _ n
              (router_take-IsSound t queue laws two_way at m r h (router_at at r n found net)) net)
    ]
      where
        to_host : Option (Host Q) → Network Q
        to_host o = elim o [
          | some x ↦ record n {
            hosts = insert at (record x { node = take_message queue (some m) x.node }) n.hosts;
          }
          | none ↦ n
        ]

        to_router : Option (Router Q) → Network Q
        to_router o = elim o [
          | some r ↦ record n {
            routers = insert at (Router.take_message queue (some m) r) n.routers;
          }
          | none ↦ to_host (lookup at n.hosts)
        ]

    pub unread :
        (n n' : Network Q)
        → n'.routers ≡ n.routers
        → n'.hosts ≡ n.hosts
        → IsSoundNetwork n
        → IsSoundNetwork n'
    unread n n' rs hs net = record {
      routers = subst SoundRouters (sym rs) net.routers;
      hosts = subst SoundHosts (sym hs) net.hosts;
    }

    perform-IsSound :
        (k : Call) (n : Network Q)
        → IsTrueCall t k
        → IsSoundNetwork n
        → IsSoundNetwork (perform queue env router_env k n)
    unfolding perform print
    perform-IsSound (taken_by at (routing m)) n h net = deliver_to-IsSound at (routing m) n h net
    perform-IsSound (taken_by at (data_packet p)) n h net =
        deliver_to-IsSound at (data_packet p) n tt net
    perform-IsSound inc_converge n h net = unread n _ refl refl net
    perform-IsSound dec_converge n h net = unread n _ refl refl net
    perform-IsSound inc_running n h net = unread n _ refl refl net
    perform-IsSound dec_running n h net = unread n _ refl refl net
    perform-IsSound (sleep_for time) n h net = net
    perform-IsSound (write_to_file host source bytes) n h net = unread n _ refl refl net
    perform-IsSound (log_line file line) n h net = unread n _ refl refl net
    perform-IsSound (print_line line) n h net = unread n _ refl refl net

    -- A node makes the first of its calls.
    module _ (at : String) (n : Network Q) (net : IsSoundNetwork n) where
      popped :
          (m : AbstractNode Q) (k : Call) (ks : List Call)
          → m.calls ≡ k ∷ ks
          → IsSound t queue laws at m
          → IsTrueCall t k × IsSound t queue laws at (record m { calls = ks })
      popped m k ks e s =
          let (first, rest) : All (IsTrueCall t) (k ∷ ks) =
            subst (All (IsTrueCall t)) e s.calling in
          (
            first,
            record {
              addressed = s.addressed;
              linked = s.linked;
              peered = s.peered;
              table = s.table;
              calling = rest;
              queued = s.queued;
            },
          )

      router_pops : Router Q → List Call → Network Q
      router_pops r calls = elim calls [
        | [] ↦ n
        | k ∷ ks ↦ perform queue env router_env k (record n {
          routers = insert at (record r { node = record r.node { calls = ks } }) n.routers;
        })
      ]

      router_pops-IsSound :
          (r : Router Q)
          → IsSound t queue laws at r.node
          → (calls : List Call) → r.node.calls ≡ calls
          → IsSoundNetwork (router_pops r calls)
      unfolding router_pops
      router_pops-IsSound r s [] e = net
      router_pops-IsSound r s (k ∷ ks) e =
          let (true_call, rest) = popped r.node k ks e s in
          perform-IsSound k _ true_call (with_router at _ n rest net)

      pub router_call-IsSound : IsSoundNetwork (router_call queue env router_env at n)
      unfolding router_call router_pops
      router_call-IsSound = elim (Option-cases (lookup at n.routers)) [
        | inl missing ↦ subst (λ o. IsSoundNetwork (called o)) (sym missing) net
        | inr (r, found) ↦
            subst (λ o. IsSoundNetwork (called o)) (sym found)
              (router_pops-IsSound r (router_at at r n found net) r.node.calls refl)
      ]
        where
          called : Option (Router Q) → Network Q
          called o = elim o [ none ↦ n | some r ↦ router_pops r r.node.calls ]

      host_pops : Host Q → List Call → Network Q
      host_pops h calls = elim calls [
        | [] ↦ n
        | k ∷ ks ↦ perform queue env router_env k (record n {
          hosts = insert at (record h { node = record h.node { calls = ks } }) n.hosts;
        })
      ]

      host_pops-IsSound :
          (h : Host Q)
          → IsSound t queue laws at h.node
          → (calls : List Call) → h.node.calls ≡ calls
          → IsSoundNetwork (host_pops h calls)
      unfolding host_pops
      host_pops-IsSound h s [] e = net
      host_pops-IsSound h s (k ∷ ks) e =
          let (true_call, rest) = popped h.node k ks e s in
          perform-IsSound k _ true_call (with_host at _ n rest net)

      pub host_call-IsSound : IsSoundNetwork (host_call queue env router_env at n)
      unfolding host_call host_pops
      host_call-IsSound = elim (Option-cases (lookup at n.hosts)) [
        | inl missing ↦ subst (λ o. IsSoundNetwork (called o)) (sym missing) net
        | inr (h, found) ↦
            subst (λ o. IsSoundNetwork (called o)) (sym found)
              (host_pops-IsSound h (host_at at h n found net) h.node.calls refl)
      ]
        where
          called : Option (Host Q) → Network Q
          called o = elim o [ none ↦ n | some h ↦ host_pops h h.node.calls ]
