-- ===== src/Nodes/Contract.antt =====
-- What AbstractNode promises to the network.
use cn_project.Base.{
  ℕ, String, ◌≡◌, refl, sym, ap, subst, ◌∙◌, Bool, true, false, Option, none, some, Bool-cases, inl,
  inr, [], if◌then◌else◌,
}
use cn_project.Base.Dict.{lookup, lookup-insert_self}
use cn_project.Message.{Message}
use cn_project.Tcp.{ConnectionInterface, TcpConnection}
use cn_project.Nodes.Queue.{MessageQueue}
use cn_project.Nodes.Node.{
  AbstractNode, Link, ToRouterLink, ToHostLink, stop_node, take_message, received_message,
  set_router_link, set_host_link, log, update_routing_table as update_node_table,
}
use cn_project.Nodes.Router
use cn_project.Nodes.Router.{Router, RouterEnv, RouterDefaults, broad_cast_new_link}
use cn_project.Nodes.Host
use cn_project.Nodes.Host.{Host}
use cn_project.Nodes.Interface.{NodeInterface, router_interface, host_interface}
use cn_project.Nodes.Table.{cheaper, is_improved, cost_to, update_routing_table_lem}
use cn_project.Nodes.Broadcast.{broad_cast_new_link_lem}

-- What stays as it is under an update of the table, but for the calls.
abbrev pub others : {Q : Type 0} → AbstractNode Q → AbstractNode Q
others n = record n { routing_table = []; calls = [] }

abbrev pub link_to : String → ℕ → Link
link_to addr cost = record { node = some addr; cost = cost }

abbrev pub to_router : String → ℕ → ToRouterLink
to_router addr cost = record { router = addr; cost = cost }

abbrev pub to_host : String → ℕ → ToHostLink
to_host addr cost = record { host = addr; cost = cost }

module _ {Q : Type 0} where
  -- The cheaper way counts, the answer tells if it is the new one, and only the table changes.
  pub record IsUpdate (dest : String) (cost : ℕ) (n n' : AbstractNode Q) (answer : Bool)
      : Type 0 where
    pub best : cost_to dest n' ≡ some (cheaper (cost_to dest n) cost)
    pub answered : answer ≡ is_improved (cost_to dest n) cost
    pub rest : others n' ≡ others n

  -- The link is entered, and the way over it is offered to the table.
  pub record IsLinking (addr : String) (cost : ℕ) (n n' : AbstractNode Q) : Type 0 where
    pub link : lookup addr n'.links ≡ some (link_to addr cost)
    pub way : cost_to addr n' ≡ some (cheaper (cost_to addr n) cost)
    pub same_queue : n'.node_queue ≡ n.node_queue

  -- The link is entered among those to routers, or to hosts, which messages are sent over.
  abbrev pub IsRouterEntered : String → ℕ → AbstractNode Q → AbstractNode Q → Type 0
  IsRouterEntered addr cost n n' =
      (lookup addr n'.to_routers_links ≡ some (to_router addr cost))
      × (n'.to_hosts_links ≡ n.to_hosts_links)

  abbrev pub IsHostEntered : String → ℕ → AbstractNode Q → AbstractNode Q → Type 0
  IsHostEntered addr cost n n' =
      (lookup addr n'.to_hosts_links ≡ some (to_host addr cost))
      × (n'.to_routers_links ≡ n.to_routers_links)

  pub record IsNode {N : Type 0} (queue : MessageQueue Q) (i : NodeInterface Q N) : Type 0 where
    pub updates :
        (dest : String) (cost : ℕ) (hop : String) (n : N)
        → IsUpdate dest cost
            (i.base n)
            (i.base (i.update_routing_table dest cost hop n).0)
            (i.update_routing_table dest cost hop n).1
    pub links_router :
        (addr : String) (cost : ℕ) (n : N)
        → IsLinking addr cost (i.base n) (i.base (i.add_to_router_link addr cost n))
          × IsRouterEntered addr cost (i.base n) (i.base (i.add_to_router_link addr cost n))
    pub links_host :
        (addr : String) (cost : ℕ) (n : N)
        → IsLinking addr cost (i.base n) (i.base (i.add_to_host_link addr cost n))
          × IsHostEntered addr cost (i.base n) (i.base (i.add_to_host_link addr cost n))
    -- A stop queues the null pointer, and no message is taken from then on.
    pub stops :
        (n : N)
        → ((i.base (i.stop_node n)).must_stop ≡ true)
          × ((i.base (i.stop_node n)).node_queue ≡ queue.enqueue none (i.base n).node_queue)
    pub refuses :
        (m : Option Message) (n : N)
        → (i.base n).must_stop ≡ true
        → (i.base (i.take_message m n)).node_queue ≡ (i.base n).node_queue

  pub base-IsUpdate :
      (dest : String) (cost : ℕ) (hop : String) (n : AbstractNode Q)
      → IsUpdate dest cost n
          (update_node_table dest cost hop n).0
          (update_node_table dest cost hop n).1
  base-IsUpdate dest cost hop n =
      let u = update_routing_table_lem dest cost hop n in
      record { best = u.best; answered = u.answer; rest = ap others u.rest }

  -- Further calls do not matter.
  broadcast_after :
      (dest : String) (cost : ℕ) (n n' : AbstractNode Q) (answer : Bool)
      → IsUpdate dest cost n n' answer
      → IsUpdate dest cost n (broad_cast_new_link dest cost n') answer
  unfolding cost_to
  broadcast_after dest cost n n' answer u = elim (Bool-cases n'.is_running) [
    | inl on ↦
        subst (λ x. IsUpdate dest cost n x answer) (sym (broad_cast_new_link_lem dest cost n' on))
          (record { best = u.best; answered = u.answered; rest = u.rest })
    | inr off ↦ subst (λ x. IsUpdate dest cost n x answer) (sym (silent off)) u
  ]
    where
      silent : n'.is_running ≡ false → broad_cast_new_link dest cost n' ≡ n'
      silent off = unfold broad_cast_new_link in rw off refl

  pub router-IsUpdate :
      (dest : String) (cost : ℕ) (hop : String) (r : Router Q)
      → IsUpdate dest cost r.node
          (Router.update_routing_table dest cost hop r).0.node
          (Router.update_routing_table dest cost hop r).1
  unfolding Router.update_routing_table
  router-IsUpdate dest cost hop r =
      both (update_node_table dest cost hop r.node).0 (update_node_table dest cost hop r.node).1
        (base-IsUpdate dest cost hop r.node)
    where
      both :
          (n : AbstractNode Q) (changed : Bool)
          → IsUpdate dest cost r.node n changed
          → (let p : Router Q × Bool =
                if changed
                then (record r { node = broad_cast_new_link dest cost n }, true)
                else (record r { node = n }, false) in
              IsUpdate dest cost r.node p.0.node p.1)
      both n true u = broadcast_after dest cost r.node n true u
      both n false u = u

  -- A link is set, then the way over it is offered.
  module _ (addr : String) (cost : ℕ) (n n' : AbstractNode Q) (answer : Bool) where
    pub router-IsLinking :
        IsUpdate addr cost (set_router_link addr cost n) n' answer
        → IsLinking addr cost n n' × IsRouterEntered addr cost n n'
    unfolding set_router_link cost_to
    router-IsLinking u = (
      record {
        link =
            ap (λ (x : AbstractNode Q). lookup addr x.links) u.rest
            ∙ lookup-insert_self addr (link_to addr cost) n.links;
        way = u.best;
        same_queue = ap (λ (x : AbstractNode Q). x.node_queue) u.rest;
      },
      (
        ap (λ (x : AbstractNode Q). lookup addr x.to_routers_links) u.rest
            ∙ lookup-insert_self addr (to_router addr cost) n.to_routers_links,
        ap (λ (x : AbstractNode Q). x.to_hosts_links) u.rest,
      ),
    )

    pub host-IsLinking :
        IsUpdate addr cost (set_host_link addr cost n) n' answer
        → IsLinking addr cost n n' × IsHostEntered addr cost n n'
    unfolding set_host_link cost_to
    host-IsLinking u = (
      record {
        link =
            ap (λ (x : AbstractNode Q). lookup addr x.links) u.rest
            ∙ lookup-insert_self addr (link_to addr cost) n.links;
        way = u.best;
        same_queue = ap (λ (x : AbstractNode Q). x.node_queue) u.rest;
      },
      (
        ap (λ (x : AbstractNode Q). lookup addr x.to_hosts_links) u.rest
            ∙ lookup-insert_self addr (to_host addr cost) n.to_hosts_links,
        ap (λ (x : AbstractNode Q). x.to_routers_links) u.rest,
      ),
    )

  module _ (queue : MessageQueue Q) where
    router-IsNode :
        (env : RouterEnv) (defaults : RouterDefaults)
        → IsNode queue (router_interface queue env defaults)
    unfolding Router.add_to_router_link Router.add_to_host_link stop_node Router.take_message
    router-IsNode env defaults = record {
      updates = router-IsUpdate;
      links_router = λ addr cost r.
          router-IsLinking addr cost r.node _ _
            (router-IsUpdate addr cost addr (record r { node = set_router_link addr cost r.node }));
      links_host = λ addr cost r.
          host-IsLinking addr cost r.node _ _
            (router-IsUpdate addr cost addr (record r { node = set_host_link addr cost r.node }));
      stops = λ r. (refl, refl);
      refuses = λ m r stopped. rw stopped refl;
    }

    host-IsNode :
        (tcp : ConnectionInterface TcpConnection) → IsNode queue (host_interface queue tcp)
    unfolding Host.add_to_router_link Host.add_to_host_link Host.stop_node stop_node take_message
        Host.log log
    host-IsNode tcp = record {
      updates = λ dest cost hop h. base-IsUpdate dest cost hop h.node;
      links_router = λ addr cost h.
          router-IsLinking addr cost h.node _ _
            (base-IsUpdate addr cost addr (set_router_link addr cost h.node));
      links_host = λ addr cost h.
          host-IsLinking addr cost h.node _ _
            (base-IsUpdate addr cost addr (set_host_link addr cost h.node));
      stops = λ h. (refl, refl);
      refuses = λ m h stopped.
          ap
            (λ t.
              (if t then heard h else record (heard h) {
                node_queue = queue.enqueue m h.node.node_queue;
              }).node_queue)
            stopped;
    }
      where
        heard : Host Q → AbstractNode Q
        heard h = log received_message h.node

    -- Routers and hosts, behind the virtual methods, both keep what a node promises. An update of the
    -- table leaves the cheaper way in it, answers if that is the new one, and changes no other
    -- field but the calls. A new link is found under its address among all links and among those of its
    -- kind, to routers or to hosts, and those of the other kind are kept; the way over it is offered
    -- to the table, and the queue is kept. A stop sets the flag and queues
    -- the null pointer behind what waits, and a node with the flag set queues no message.
    pub nodes-IsNode :
        (env : RouterEnv) (defaults : RouterDefaults) (tcp : ConnectionInterface TcpConnection)
        → IsNode queue (router_interface queue env defaults)
          × IsNode queue (host_interface queue tcp)
    nodes-IsNode env defaults tcp = (router-IsNode env defaults, host-IsNode tcp)
