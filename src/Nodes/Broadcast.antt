-- ===== src/Nodes/Broadcast.antt =====
-- What a router tells its neighbours, and how the counter of messages on their way follows it.
use cn_project.Base.{
  ℕ, String, ◌≡◌, refl, sym, ap, ◌∙◌, Bool, true, false, Option, none, some, List, [], ◌∷◌, ◌++◌,
  map, append_assoc, append-nil, add64, if◌then◌else◌,
}
use cn_project.Base.Dict.{Dict, lookup, insert}
use cn_project.Message.{routing, RoutingMessage}
use cn_project.Nodes.Node.{
  AbstractNode, ToRouterLink, ToHostLink, Link, Call, taken_by, inc_converge, dec_converge,
  log_line, broadcasting_link, handling_routing_message, log, call, link_cost,
}
use cn_project.Nodes.Router.{
  Router, RouterEnv, RouterDefaults, announce_to_hosts, announce_to_routers, broad_cast_new_link,
  update_routing_table, handle_new_message,
}
use cn_project.Nodes.Table.{is_improved, cost_to, update_improved, update_kept, written}

-- The message to each neighbour, each followed by the count of it.
abbrev pub announcements : String → String → ℕ → List String → List Call
announcements sender dest cost [] = []
announcements sender dest cost (neighbour ∷ rest) =
    taken_by neighbour (routing (record { sender = sender; destination = dest; cost = cost }))
    ∷ inc_converge
    ∷ announcements sender dest cost rest

module _ (sender dest : String) (cost : ℕ) where
  announcements-append :
      (xs ys : List String)
      → announcements sender dest cost (xs ++ ys)
        ≡ announcements sender dest cost xs ++ announcements sender dest cost ys
  announcements-append [] ys = refl
  announcements-append (x ∷ xs) ys =
      ap
        (λ t.
          taken_by x (routing (record { sender = sender; destination = dest; cost = cost }))
          ∷ inc_converge
          ∷ t)
        (announcements-append xs ys)

module _ {Q : Type 0} where
  -- The nodes that a router is linked to: hosts first.
  abbrev pub neighbours : AbstractNode Q → List String
  neighbours n =
      map (λ pair. pair.1.host) n.to_hosts_links ++ map (λ pair. pair.1.router) n.to_routers_links

  -- What a broadcast asks for: a line in the log, and the announcements.
  abbrev pub broadcast : String → ℕ → AbstractNode Q → List Call
  broadcast dest cost n =
      log_line n.log_filename (broadcasting_link dest cost)
      ∷ announcements n.addr dest cost (neighbours n)

  abbrev pub calling : List Call → AbstractNode Q → AbstractNode Q
  calling ks n = record n { calls = n.calls ++ ks }

  module _ (dest : String) (cost : ℕ) where
    calling-twice :
        (n : AbstractNode Q) (a b : Call) (rest : List Call)
        → calling rest (call b (call a n)) ≡ calling (a ∷ b ∷ rest) n
    calling-twice n a b rest =
        ap (λ cs. record n { calls = cs })
          (append_assoc (n.calls ++ (a ∷ [])) (b ∷ []) rest
            ∙ append_assoc n.calls (a ∷ []) (b ∷ rest))

    announce_to_hosts_lem :
        (pairs : Dict ToHostLink) (n : AbstractNode Q)
        → announce_to_hosts dest cost pairs n
          ≡ calling (announcements n.addr dest cost (map (λ pair. pair.1.host) pairs)) n
    unfolding announce_to_hosts
    announce_to_hosts_lem [] n = ap (λ cs. record n { calls = cs }) (sym (append-nil n.calls))
    announce_to_hosts_lem (pair ∷ rest) n = announce_to_hosts_lem rest _ ∙ calling-twice n _ _ _

    announce_to_routers_lem :
        (pairs : Dict ToRouterLink) (n : AbstractNode Q)
        → announce_to_routers dest cost pairs n
          ≡ calling (announcements n.addr dest cost (map (λ pair. pair.1.router) pairs)) n
    unfolding announce_to_routers
    announce_to_routers_lem [] n = ap (λ cs. record n { calls = cs }) (sym (append-nil n.calls))
    announce_to_routers_lem (pair ∷ rest) n = announce_to_routers_lem rest _ ∙ calling-twice n _ _ _

    pub broad_cast_new_link_lem :
        (n : AbstractNode Q)
        → n.is_running ≡ true
        → broad_cast_new_link dest cost n ≡ calling (broadcast dest cost n) n
    unfolding broad_cast_new_link log
    broad_cast_new_link_lem n running =
        ap
          (λ t.
            if t
            then announce_to_routers dest cost n.to_routers_links
                (announce_to_hosts dest cost n.to_hosts_links (log (broadcasting_link dest cost) n))
            else n)
          running
        ∙ ap (announce_to_routers dest cost n.to_routers_links)
            (announce_to_hosts_lem n.to_hosts_links (log (broadcasting_link dest cost) n))
        ∙ announce_to_routers_lem n.to_routers_links _
        ∙ ap (λ cs. record n { calls = cs })
            (append_assoc (n.calls ++ (line ∷ [])) _ _
              ∙ ap (◌++◌ (n.calls ++ (line ∷ []))) (sym (announcements-append n.addr dest cost _ _))
              ∙ append_assoc n.calls (line ∷ []) _)
      where
        line : Call
        line = log_line n.log_filename (broadcasting_link dest cost)

  -- The node once the message that it handles is in its log.
  abbrev pub noted : RoutingMessage → AbstractNode Q → AbstractNode Q
  noted m n = log (handling_routing_message m.destination m.cost m.sender) n

  -- How a router deals with a routing message that reaches it over a link of cost `between`.
  pub record Handles (m : RoutingMessage) (between : ℕ) (r r' : Router Q) : Type 0 where
    pub better :
        is_improved (cost_to m.destination r.node) (add64 m.cost between) ≡ true
        → r' ≡ record r {
          node =
              calling
                (broadcast m.destination (add64 m.cost between) r.node ++ (dec_converge ∷ []))
                (written m.destination (add64 m.cost between) m.sender (noted m r.node));
        }
    pub worse :
        is_improved (cost_to m.destination r.node) (add64 m.cost between) ≡ false
        → r' ≡ record r { node = call dec_converge (noted m r.node) }

  pub link_cost_found :
      (addr : String) (n : AbstractNode Q) (link : Link)
      → lookup addr n.links ≡ some link
      → link_cost addr n ≡ (link.cost, n)
  unfolding link_cost
  link_cost_found addr n link found = ap read found
    where
      read : Option Link → ℕ × AbstractNode Q
      read o = elim o [
        | none ↦ (0, record n { links = insert addr (record { node = none; cost = 0 }) n.links })
        | some l ↦ (l.cost, n)
      ]

  module _ (dest : String) (cost : ℕ) (hop : String) (r : Router Q) where
    pub update_better :
        is_improved (cost_to dest r.node) cost ≡ true
        → update_routing_table dest cost hop r
          ≡ (record r { node = broad_cast_new_link dest cost (written dest cost hop r.node) }, true)
    unfolding update_routing_table
    update_better h = rw (update_improved dest cost hop r.node h) refl

    pub update_worse :
        is_improved (cost_to dest r.node) cost ≡ false
        → update_routing_table dest cost hop r ≡ (r, false)
    unfolding update_routing_table
    update_worse h = rw (update_kept dest cost hop r.node h) refl

  -- A running router that takes a routing message over a link notes it in its log. If the sender's
  -- cost plus the link's is cheaper than the known way or there is none, the way over the sender is
  -- written, the broadcast is noted, and each neighbour, hosts first, is sent the new cost and
  -- counted. Otherwise nothing is written or sent. The message itself is counted down last.
  pub handle_new_message_routing :
      (env : RouterEnv) (defaults : RouterDefaults) (m : RoutingMessage) (r : Router Q)
      (link : Link)
      → r.node.is_running ≡ true
      → lookup m.sender r.node.links ≡ some link
      → Handles m link.cost r (handle_new_message env defaults (routing m) r)
  unfolding log
  handle_new_message_routing env defaults m r link running found = record {
    better = λ h.
        at_link
        ∙ ap answer (update_better m.destination via m.sender logged (h' ∙ h))
        ∙ ap (λ n. record r { node = call dec_converge n })
            (broad_cast_new_link_lem m.destination via chosen running)
        ∙ ap (λ cs. record r { node = record chosen { calls = cs } })
            (append_assoc chosen.calls _ _);
    worse = λ h. at_link ∙ ap answer (update_worse m.destination via m.sender logged (h' ∙ h));
  }
    where
      via : ℕ
      via = add64 m.cost link.cost

      logged : Router Q
      logged = record r { node = noted m r.node }

      chosen : AbstractNode Q
      chosen = written m.destination via m.sender logged.node

      h' :
          is_improved (cost_to m.destination logged.node) via
          ≡ is_improved (cost_to m.destination r.node) via
      h' = unfold cost_to in refl

      answer : Router Q × Bool → Router Q
      answer p = record p.0 { node = call dec_converge p.0.node }

      from : ℕ × AbstractNode Q → Router Q
      from p =
          answer (
            update_routing_table m.destination (add64 m.cost p.0) m.sender
              (record r { node = p.1 }))

      at_link :
          handle_new_message env defaults (routing m) r
          ≡ answer (update_routing_table m.destination via m.sender logged)
      at_link =
          unfold handle_new_message in ap from (link_cost_found m.sender logged.node link found)
