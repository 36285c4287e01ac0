-- ===== src/Network/Ends.antt =====
-- The two ends of a link: `Router::addToRouterLink`, `Router::addToHostLink`, `Host::addToRouterLink`
-- and the branches of `addLink`.
use cn_project.Base.{ℕ, String, ◌≡◌, ◌≢◌, ◌⊎◌, refl, sym, ap, ◌∙◌, Option, none, some, inl, inr}
use cn_project.Base.Dict.{lookup, insert, lookup-insert_self, lookup-insert_ne}
use cn_project.Tcp.{◌>>=◌}
use cn_project.Nodes.Node.{
  AbstractNode, Link, ToRouterLink, ToHostLink, set_router_link, set_host_link,
}
use cn_project.Nodes.Router
use cn_project.Nodes.Router.{Router}
use cn_project.Nodes.Host
use cn_project.Nodes.Host.{Host}
use cn_project.Nodes.Contract.{
  link_to, to_router, to_host, router-IsUpdate, router-IsLinking, host-IsLinking, base-IsUpdate,
}
use cn_project.Network.{Network, link_host, link_router_to}

module _ {Q : Type 0} where
  module _ (addr : String) (cost : ℕ) where
    -- The link stands among all links of a node, and among those to routers or to hosts.
    abbrev pub HasRouter : AbstractNode Q → Type 0
    HasRouter x =
        (lookup addr x.links ≡ some (link_to addr cost))
        × (lookup addr x.to_routers_links ≡ some (to_router addr cost))

    abbrev pub HasHost : AbstractNode Q → Type 0
    HasHost x =
        (lookup addr x.links ≡ some (link_to addr cost))
        × (lookup addr x.to_hosts_links ≡ some (to_host addr cost))

    router_to_router : (r : Router Q) → HasRouter (Router.add_to_router_link addr cost r).node
    unfolding Router.add_to_router_link
    router_to_router r =
        let l =
          router-IsLinking addr cost r.node _ _ (
            router-IsUpdate addr cost addr
              (record r { node = set_router_link addr cost r.node })) in
        (l.0.link, l.1.0)

    router_to_host : (r : Router Q) → HasHost (Router.add_to_host_link addr cost r).node
    unfolding Router.add_to_host_link
    router_to_host r =
        let l =
          host-IsLinking addr cost r.node _ _
            (router-IsUpdate addr cost addr (record r { node = set_host_link addr cost r.node })) in
        (l.0.link, l.1.0)

    host_to_router : (h : Host Q) → HasRouter (Host.add_to_router_link addr cost h).node
    unfolding Host.add_to_router_link
    host_to_router h =
        let l =
          router-IsLinking addr cost h.node _ _
            (base-IsUpdate addr cost addr (set_router_link addr cost h.node)) in
        (l.0.link, l.1.0)

  -- What the node of an address has; hosts are looked up first.
  unfoldable pub at_node :
      {A : Type 0} → (AbstractNode Q → Option A) → String → Network Q → Option A
  at_node pick addr n = elim (lookup addr n.hosts) [
    | some h ↦ pick h.node
    | none ↦ lookup addr n.routers >>= λ r. pick r.node
  ]

  -- The link to another node, and the one among those to routers, or to hosts.
  abbrev pub link_at : String → String → Network Q → Option Link
  link_at addr other n = at_node (λ x. lookup other x.links) addr n

  abbrev pub router_link_at : String → String → Network Q → Option ToRouterLink
  router_link_at addr other n = at_node (λ x. lookup other x.to_routers_links) addr n

  abbrev pub host_link_at : String → String → Network Q → Option ToHostLink
  host_link_at addr other n = at_node (λ x. lookup other x.to_hosts_links) addr n

  module _ {A : Type 0} (pick : AbstractNode Q → Option A) (addr : String) (n : Network Q) where
    abbrev choose : Option (Host Q) → Option A
    choose o = elim o [ some h ↦ pick h.node | none ↦ lookup addr n.routers >>= λ r. pick r.node ]

    at_host : (h : Host Q) → lookup addr n.hosts ≡ some h → at_node pick addr n ≡ pick h.node
    unfolding at_node
    at_host h found = ap choose found

    at_router :
        (r : Router Q)
        → lookup addr n.hosts ≡ none
        → lookup addr n.routers ≡ some r
        → at_node pick addr n ≡ pick r.node
    unfolding at_node
    at_router r no_host found =
        ap choose no_host ∙ ap (λ (o : Option (Router Q)). o >>= λ x. pick x.node) found

  -- The link to a host stands among those to hosts, and that to a router among those to routers.
  abbrev pub IsEntered : String → String → ℕ → Network Q → Type 0
  IsEntered addr other cost n =
      ((lookup other n.hosts ≡ none) × (router_link_at addr other n ≡ some (to_router other cost)))
      ⊎ ((h : Host Q) × (lookup other n.hosts ≡ some h)
          × (host_link_at addr other n ≡ some (to_host other cost)))

  -- Both ends know a link of this cost.
  pub record IsLinked (addr1 addr2 : String) (cost : ℕ) (n : Network Q) : Type 0 where
    pub forth : link_at addr1 addr2 n ≡ some (link_to addr2 cost)
    pub back : link_at addr2 addr1 n ≡ some (link_to addr1 cost)
    pub forth_entered : IsEntered addr1 addr2 cost n
    pub back_entered : IsEntered addr2 addr1 cost n

  abbrev links_of : String → AbstractNode Q → Option Link
  links_of other x = lookup other x.links

  module _ (addr1 addr2 : String) (cost : ℕ) (n : Network Q) (ne : addr1 ≢ addr2) where
    pub link_host_lem :
        (h : Host Q) (r : Router Q)
        → lookup addr1 n.hosts ≡ some h
        → lookup addr2 n.routers ≡ some r
        → lookup addr2 n.hosts ≡ none
        → (n' : Network Q) × (link_host addr1 addr2 cost n ≡ some n') × IsLinked addr1 addr2 cost n'
    unfolding link_host
    link_host_lem h r is_host is_router no_host =
        let h' = Host.add_to_router_link addr2 cost h in
        let r' = Router.add_to_host_link addr1 cost r in
        let n' = record n {
          hosts = insert addr1 h' n.hosts;
          routers = insert addr2 r' n.routers;
        } in
        let host_here : lookup addr1 n'.hosts ≡ some h' = lookup-insert_self addr1 h' n.hosts in
        let router_here : lookup addr2 n'.hosts ≡ none =
          lookup-insert_ne addr1 addr2 h' n.hosts ne ∙ no_host in
        let router_there : lookup addr2 n'.routers ≡ some r' =
          lookup-insert_self addr2 r' n.routers in
        (
          n',
          rw (is_host, is_router) refl,
          record {
            forth =
                at_host (links_of addr2) addr1 n' h' host_here ∙ (host_to_router addr2 cost h).0;
            back =
                at_router (links_of addr1) addr2 n' r' router_here router_there
                ∙ (router_to_host addr1 cost r).0;
            forth_entered = inl (
              router_here,
              at_host (λ x. lookup addr2 x.to_routers_links) addr1 n' h' host_here
                  ∙ (host_to_router addr2 cost h).1,
            );
            back_entered = inr (
              h',
              host_here,
              at_router (λ x. lookup addr1 x.to_hosts_links) addr2 n' r' router_here router_there
                  ∙ (router_to_host addr1 cost r).1,
            );
          },
        )

    pub link_routers_lem :
        (r₁ r₂ : Router Q)
        → lookup addr1 n.routers ≡ some r₁
        → lookup addr2 n.routers ≡ some r₂
        → lookup addr1 n.hosts ≡ none
        → lookup addr2 n.hosts ≡ none
        → (n' : Network Q) × ((link_router_to addr1 addr2 cost n
              >>= link_router_to addr2 addr1 cost)
            ≡ some n')
          × IsLinked addr1 addr2 cost n'
    unfolding link_router_to
    link_routers_lem r₁ r₂ one two no1 no2 =
        let r₁' = Router.add_to_router_link addr2 cost r₁ in
        let r₂' = Router.add_to_router_link addr1 cost r₂ in
        let half = insert addr1 r₁' n.routers in
        let n' = record n { routers = insert addr2 r₂' half } in
        let first : lookup addr1 n'.routers ≡ some r₁' =
          lookup-insert_ne addr2 addr1 r₂' half (λ e. ne (sym e))
          ∙ lookup-insert_self addr1 r₁' n.routers in
        let second : lookup addr2 n'.routers ≡ some r₂' = lookup-insert_self addr2 r₂' half in
        (
          n',
          rw
              (
                one,
                two,
                lookup-insert_ne addr1 addr2 r₁' n.routers ne,
                two,
                lookup-insert_self addr1 r₁' n.routers,
              )
              refl,
          record {
            forth =
                at_router (links_of addr2) addr1 n' r₁' no1 first
                ∙ (router_to_router addr2 cost r₁).0;
            back =
                at_router (links_of addr1) addr2 n' r₂' no2 second
                ∙ (router_to_router addr1 cost r₂).0;
            forth_entered = inl (
              no2,
              at_router (λ x. lookup addr2 x.to_routers_links) addr1 n' r₁' no1 first
                  ∙ (router_to_router addr2 cost r₁).1,
            );
            back_entered = inl (
              no1,
              at_router (λ x. lookup addr1 x.to_routers_links) addr2 n' r₂' no2 second
                  ∙ (router_to_router addr1 cost r₂).1,
            );
          },
        )
