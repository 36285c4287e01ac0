-- ===== src/Network/Links.antt =====
-- `addLink`: a link is known at both ends.
use cn_project.Base.{ℕ, String, ◌≡◌, ◌≢◌, refl, sym, true, none, some, arith}
use cn_project.Base.Dict.{lookup, contains_found, contains_missing}
use cn_project.Nodes.Node.{cannot_connect_hosts}
use cn_project.Nodes.Router.{Router}
use cn_project.Nodes.Host.{Host}
use cn_project.Network.{Network, print, knows, add_link, link_host}
use cn_project.Network.Ends.{IsLinked, link_host_lem, link_routers_lem}

module _ {Q : Type 0} where
  -- Both addresses are known, and at most one is a host's.
  pub data IsLinkable (addr1 addr2 : String) (n : Network Q) : Type 0 where
    host_router :
        (h : Host Q) (r : Router Q)
        → lookup addr1 n.hosts ≡ some h
        → lookup addr2 n.routers ≡ some r
        → lookup addr2 n.hosts ≡ none
        → IsLinkable addr1 addr2 n
    router_host :
        (r : Router Q) (h : Host Q)
        → lookup addr1 n.routers ≡ some r
        → lookup addr1 n.hosts ≡ none
        → lookup addr2 n.hosts ≡ some h
        → IsLinkable addr1 addr2 n
    router_router :
        (r₁ r₂ : Router Q)
        → lookup addr1 n.routers ≡ some r₁
        → lookup addr2 n.routers ≡ some r₂
        → lookup addr1 n.hosts ≡ none
        → lookup addr2 n.hosts ≡ none
        → IsLinkable addr1 addr2 n

  module _ (addr : String) (n : Network Q) where
    knows_host : (h : Host Q) → lookup addr n.hosts ≡ some h → knows addr n ≡ true
    unfolding knows
    knows_host h found = ground (arith, contains_found addr n.hosts h found)

    knows_router : (r : Router Q) → lookup addr n.routers ≡ some r → knows addr n ≡ true
    unfolding knows
    knows_router r found = ground (arith, contains_found addr n.routers r found)

  module _ (addr1 addr2 : String) (cost : ℕ) (n : Network Q) where
    -- Two different known addresses that are not both hosts': `addLink` succeeds, and afterwards both
    -- nodes have a link to each other of that cost, among all links and among those to hosts, if the
    -- other one is a host's, or to routers, whatever links and routes they had.
    pub add_link_lem :
        addr1 ≢ addr2
        → IsLinkable addr1 addr2 n
        → (n' : Network Q) × (add_link addr1 addr2 cost n ≡ some n') × IsLinked addr1 addr2 cost n'
    unfolding add_link
    add_link_lem ne (host_router h r a b c) =
        rw
          (
            knows_host addr1 n h a,
            knows_router addr2 n r b,
            contains_found addr1 n.hosts h a,
            contains_found addr2 n.routers r b,
          )
          (link_host_lem addr1 addr2 cost n ne h r a b c)
    add_link_lem ne (router_host r h a b c) =
        let (n', ran, l) = link_host_lem addr2 addr1 cost n (λ e. ne (sym e)) h r c a b in
        (
          n',
          rw
              (
                knows_router addr1 n r a,
                knows_host addr2 n h c,
                contains_missing addr1 n.hosts b,
                contains_found addr2 n.hosts h c,
              )
              ran,
          record {
            forth = l.back;
            back = l.forth;
            forth_entered = l.back_entered;
            back_entered = l.forth_entered;
          },
        )
    add_link_lem ne (router_router r₁ r₂ a b c d) =
        rw
          (
            knows_router addr1 n r₁ a,
            knows_router addr2 n r₂ b,
            contains_missing addr1 n.hosts c,
            contains_missing addr2 n.hosts d,
          )
          (link_routers_lem addr1 addr2 cost n ne r₁ r₂ a b c d)

    link_host_null :
        (h : Host Q)
        → lookup addr1 n.hosts ≡ some h
        → lookup addr2 n.routers ≡ none
        → link_host addr1 addr2 cost n ≡ none
    unfolding link_host
    link_host_null h a c = rw (a, c) refl

  module _ (addr1 addr2 : String) (cost : ℕ) (n : Network Q) where
    -- Two hosts, the second of which is no router: `addLink` reads a null pointer.
    pub add_link_hosts :
        (h₁ h₂ : Host Q)
        → lookup addr1 n.hosts ≡ some h₁
        → lookup addr2 n.hosts ≡ some h₂
        → lookup addr2 n.routers ≡ none
        → add_link addr1 addr2 cost n ≡ none
    unfolding add_link print
    add_link_hosts h₁ h₂ a b c =
        rw
          (
            knows_host addr1 n h₁ a,
            knows_host addr2 n h₂ b,
            contains_found addr1 n.hosts h₁ a,
            contains_missing addr2 n.routers c,
          )
          (link_host_null addr1 addr2 cost (print cannot_connect_hosts n) h₁ a c)
