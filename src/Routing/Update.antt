-- ===== src/Routing/Update.antt =====
-- Updates of a table and broadcasts: a sound node stays sound if it learns the cost of a walk.
use cn_project.Base.{
  ℕ, String, ◌≡◌, refl, sym, subst, Bool, false, some, List, [], ◌∷◌, All, All-append, Bool-cases,
  inl, inr, add64,
}
use cn_project.Base.Dict.{lookup, AllEntries-insert}
use cn_project.Message.{RoutingMessage}
use cn_project.Nodes.Queue.{MessageQueue, QueueLaws}
use cn_project.Nodes.Node.{
  AbstractNode, RoutingTableEntry, Link, Call, LogLine, log_line, log,
  update_routing_table as update_node_table,
}
use cn_project.Nodes.Router.{Router, broad_cast_new_link, update_routing_table}
use cn_project.Nodes.Table.{is_improved, cost_to, written, update_improved, update_kept}
use cn_project.Nodes.Broadcast.{
  announcements, neighbours, broadcast, calling, broad_cast_new_link_lem, update_better,
  update_worse,
}
use cn_project.Routing.{
  Topology, HasLink, IsTwoWay, Walk, edge, onward, IsTrue, IsRoute, IsTrueCall, IsSound,
}

module _ (t : Topology) where
  -- A route has the cost of a walk.
  pub IsRoute-Walk :
      (x dest : String) (e : RoutingTableEntry) → IsRoute t x dest e → Walk t x dest e.cost
  IsRoute-Walk x dest e r = elim r.rest [
    | inl (same, cost) ↦
        subst (λ y. Walk t x y e.cost) same
          (subst (Walk t x e.next_hop) (sym cost) (edge r.first r.linked))
    | inr (k, walk, cost) ↦ subst (Walk t x dest) (sym cost) (onward r.first r.linked walk)
  ]

  announcements-IsTrueCall :
      (sender dest : String) (cost : ℕ) (xs : List String)
      → Walk t sender dest cost
      → All (λ y. HasLink t y sender) xs
      → All (IsTrueCall t) (announcements sender dest cost xs)
  announcements-IsTrueCall sender dest cost [] walk links = tt
  announcements-IsTrueCall sender dest cost (x ∷ xs) walk (link, links) = (
    record { walk = walk; back = link },
    (tt, announcements-IsTrueCall sender dest cost xs walk links),
  )

  module _ {Q : Type 0} (queue : MessageQueue Q) (laws : QueueLaws queue) (two_way : IsTwoWay t)
      (at : String) where
    abbrev Sound : AbstractNode Q → Type 0
    Sound = IsSound t queue laws at

    -- Calls that are true, or that are no routing messages, may be added.
    pub calling-IsSound :
        (ks : List Call) (n : AbstractNode Q)
        → All (IsTrueCall t) ks
        → Sound n
        → Sound (calling ks n)
    calling-IsSound ks n true_calls s = record {
      addressed = s.addressed;
      linked = s.linked;
      peered = s.peered;
      table = s.table;
      calling = All-append (IsTrueCall t) n.calls ks s.calling true_calls;
      queued = s.queued;
    }

    pub log-IsSound : (line : LogLine) (n : AbstractNode Q) → Sound n → Sound (log line n)
    unfolding log
    log-IsSound line n s = calling-IsSound (log_line n.log_filename line ∷ []) n (tt, tt) s

    pub running-IsSound :
        (running stopping joinable : Bool) (n : AbstractNode Q)
        → Sound n
        → Sound (record n { is_running = running; must_stop = stopping; is_joinable = joinable })
    running-IsSound running stopping joinable n s = record {
      addressed = s.addressed;
      linked = s.linked;
      peered = s.peered;
      table = s.table;
      calling = s.calling;
      queued = s.queued;
    }

    broadcast-IsTrueCall :
        (dest : String) (cost : ℕ) (n : AbstractNode Q)
        → Walk t at dest cost
        → Sound n
        → All (IsTrueCall t) (broadcast dest cost n)
    broadcast-IsTrueCall dest cost n walk s = (
      tt,
      announcements-IsTrueCall n.addr dest cost (neighbours n)
          (subst (λ x. Walk t x dest cost) (sym s.addressed) walk)
          (subst (All (λ y. HasLink t y n.addr)) (sym s.peered)
            (subst (λ x. All (λ y. HasLink t y x) (t.peers at)) (sym s.addressed) (two_way at))),
    )

    pub broad_cast_new_link-IsSound :
        (dest : String) (cost : ℕ) (n : AbstractNode Q)
        → Walk t at dest cost
        → Sound n
        → Sound (broad_cast_new_link dest cost n)
    broad_cast_new_link-IsSound dest cost n walk s = elim (Bool-cases n.is_running) [
      | inl on ↦
          subst Sound (sym (broad_cast_new_link_lem dest cost n on))
            (calling-IsSound (broadcast dest cost n) n (broadcast-IsTrueCall dest cost n walk s) s)
      | inr off ↦ subst Sound (sym (silent off)) s
    ]
      where
        silent : n.is_running ≡ false → broad_cast_new_link dest cost n ≡ n
        silent off = unfold broad_cast_new_link in rw off refl

    module _ (dest : String) (cost : ℕ) (hop : String) where
      abbrev learned : RoutingTableEntry
      learned = record { destination = dest; cost = cost; next_hop = hop }

      written-IsSound :
          (n : AbstractNode Q)
          → IsRoute t at dest learned
          → Sound n
          → Sound (written dest cost hop n)
      written-IsSound n route s = record {
        addressed = s.addressed;
        linked = s.linked;
        peered = s.peered;
        table = AllEntries-insert (IsRoute t at) dest learned n.routing_table route s.table;
        calling = s.calling;
        queued = s.queued;
      }

      pub update_node_table-IsSound :
          (n : AbstractNode Q)
          → IsRoute t at dest learned
          → Sound n
          → Sound (update_node_table dest cost hop n).0
      update_node_table-IsSound n route s = elim (Bool-cases (is_improved (cost_to dest n) cost)) [
        | inl better ↦
            subst (λ (p : AbstractNode Q × Bool). Sound p.0)
              (sym (update_improved dest cost hop n better)) (written-IsSound n route s)
        | inr worse ↦
            subst (λ (p : AbstractNode Q × Bool). Sound p.0)
              (sym (update_kept dest cost hop n worse)) s
      ]

      pub update_routing_table-IsSound :
          (r : Router Q)
          → IsRoute t at dest learned
          → Sound r.node
          → Sound (update_routing_table dest cost hop r).0.node
      update_routing_table-IsSound r route s =
          elim (Bool-cases (is_improved (cost_to dest r.node) cost)) [
            | inl better ↦
                subst (λ (p : Router Q × Bool). Sound p.0.node)
                  (sym (update_better dest cost hop r better))
                  (broad_cast_new_link-IsSound dest cost (written dest cost hop r.node)
                    (IsRoute-Walk at dest learned route) (written-IsSound r.node route s))
            | inr worse ↦
                subst (λ (p : Router Q × Bool). Sound p.0.node)
                  (sym (update_worse dest cost hop r worse)) s
          ]

    -- What a true message says is a route over its sender.
    pub heard-IsRoute :
        (m : RoutingMessage) (l : Link)
        → IsTrue t at m
        → lookup m.sender (t.links at) ≡ some l
        → IsRoute t at m.destination (record {
          destination = m.destination;
          cost = add64 m.cost l.cost;
          next_hop = m.sender;
        })
    heard-IsRoute m l h linked = record {
      first = l;
      linked = linked;
      rest = inr (m.cost, h.walk, refl);
    }
