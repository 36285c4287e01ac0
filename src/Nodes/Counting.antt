-- ===== src/Nodes/Counting.antt =====
-- The counter of routing messages on their way: a router counts each one that it hands over.
use cn_project.Base.{
  ℕ, String, ◌+◌, ◌≡◌, refl, sym, subst, Bool, false, Option, none, some, List, [], ◌∷◌, ◌++◌,
  arith, Bool-cases, Option-cases, inl, inr, add64,
}
use cn_project.Base.Dict.{lookup, insert}
use cn_project.Message.{Message, routing, data_packet, Packet}
use cn_project.Nodes.Node.{
  AbstractNode, RoutingTableEntry, Link, Call, taken_by, inc_converge, dec_converge, inc_running,
  dec_running, sleep_for, write_to_file, log_line, LogLine, print_line, log,
  handling_routing_message, routing_packet, dropped, address_not_found, call, link_cost,
}
use cn_project.Nodes.Router.{
  Router, RouterEnv, RouterDefaults, broad_cast_new_link, update_routing_table, handle_new_message,
  route_and_forward_packet,
}
use cn_project.Nodes.Table.{is_improved, cost_to, written}
use cn_project.Nodes.Broadcast.{
  announcements, neighbours, calling, broadcast, broad_cast_new_link_lem, update_better,
  update_worse,
}

abbrev handed_by : Call → ℕ
handed_by (taken_by addr (routing m)) = 1
handed_by (taken_by addr (data_packet p)) = 0
handed_by inc_converge = 0
handed_by dec_converge = 0
handed_by inc_running = 0
handed_by dec_running = 0
handed_by (sleep_for t) = 0
handed_by (write_to_file h s b) = 0
handed_by (log_line f l) = 0
handed_by (print_line o) = 0

abbrev raised_by : Call → ℕ
raised_by (taken_by addr m) = 0
raised_by inc_converge = 1
raised_by dec_converge = 0
raised_by inc_running = 0
raised_by dec_running = 0
raised_by (sleep_for t) = 0
raised_by (write_to_file h s b) = 0
raised_by (log_line f l) = 0
raised_by (print_line o) = 0

-- How many routing messages are handed over, and how often the counter is raised.
abbrev pub handed : List Call → ℕ
handed [] = 0
handed (k ∷ ks) = handed_by k + handed ks

abbrev pub raised : List Call → ℕ
raised [] = 0
raised (k ∷ ks) = raised_by k + raised ks

handed-append : (ks ls : List Call) → handed (ks ++ ls) ≡ handed ks + handed ls
handed-append [] ls = omega arith
handed-append (k ∷ ks) ls = omega (arith, handed-append ks ls)

raised-append : (ks ls : List Call) → raised (ks ++ ls) ≡ raised ks + raised ls
raised-append [] ls = omega arith
raised-append (k ∷ ks) ls = omega (arith, raised-append ks ls)

announcements-handed :
    (sender dest : String) (cost : ℕ) (xs : List String)
    → handed (announcements sender dest cost xs) ≡ raised (announcements sender dest cost xs)
announcements-handed sender dest cost [] = refl
announcements-handed sender dest cost (x ∷ xs) =
    omega (arith, announcements-handed sender dest cost xs)

module _ {Q : Type 0} where
  -- Every routing message that the node has handed over is counted.
  pub record IsCounted (n : AbstractNode Q) : Type 0 where
    pub counted : handed n.calls ≡ raised n.calls

  calling-IsCounted :
      (ks : List Call) (n : AbstractNode Q)
      → handed ks ≡ raised ks
      → IsCounted n
      → IsCounted (calling ks n)
  calling-IsCounted ks n same c = record {
    counted = omega (arith, handed-append n.calls ks, raised-append n.calls ks, same, c.counted);
  }

  broad_cast_new_link-IsCounted :
      (dest : String) (cost : ℕ) (n : AbstractNode Q)
      → IsCounted n
      → IsCounted (broad_cast_new_link dest cost n)
  broad_cast_new_link-IsCounted dest cost n c = elim (Bool-cases n.is_running) [
    | inl on ↦ subst IsCounted (sym (broad_cast_new_link_lem dest cost n on)) (
        calling-IsCounted (broadcast dest cost n) n
          (omega (arith, announcements-handed n.addr dest cost (neighbours n))) c)
    | inr off ↦ subst IsCounted (sym (silent off)) c
  ]
    where
      silent : n.is_running ≡ false → broad_cast_new_link dest cost n ≡ n
      silent off = unfold broad_cast_new_link in rw off refl

  written-IsCounted :
      (dest : String) (cost : ℕ) (hop : String) (n : AbstractNode Q)
      → IsCounted n
      → IsCounted (written dest cost hop n)
  written-IsCounted dest cost hop n c = record { counted = c.counted }

  update_routing_table-IsCounted :
      (dest : String) (cost : ℕ) (hop : String) (r : Router Q)
      → IsCounted r.node
      → IsCounted (update_routing_table dest cost hop r).0.node
  update_routing_table-IsCounted dest cost hop r c =
      elim (Bool-cases (is_improved (cost_to dest r.node) cost)) [
        | inl better ↦
            subst (λ (p : Router Q × Bool). IsCounted p.0.node)
              (sym (update_better dest cost hop r better))
              (broad_cast_new_link-IsCounted dest cost _ (written-IsCounted dest cost hop r.node c))
        | inr worse ↦
            subst (λ (p : Router Q × Bool). IsCounted p.0.node)
              (sym (update_worse dest cost hop r worse)) c
      ]

  link_cost-IsCounted :
      (addr : String) (n : AbstractNode Q) → IsCounted n → IsCounted (link_cost addr n).1
  unfolding link_cost
  link_cost-IsCounted addr n c = elim (Option-cases (lookup addr n.links)) [
    | inl e ↦ subst (λ o. IsCounted (read o).1) (sym e) (record { counted = c.counted })
    | inr (link, e) ↦ subst (λ o. IsCounted (read o).1) (sym e) c
  ]
    where
      read : Option Link → ℕ × AbstractNode Q
      read o = elim o [
        | none ↦ (0, record n { links = insert addr (record { node = none; cost = 0 }) n.links })
        | some l ↦ (l.cost, n)
      ]

  route_and_forward_packet-IsCounted :
      (p : Packet) (r : Router Q) → IsCounted r.node → IsCounted (route_and_forward_packet p r).node
  unfolding route_and_forward_packet
  route_and_forward_packet-IsCounted p r c =
      elim (Option-cases (lookup p.destination r.node.routing_table)) [
        | inl e ↦
            subst (λ o. IsCounted (forward o).node) (sym e)
              (calling-IsCounted (print_line address_not_found ∷ []) r.node refl c)
        | inr (entry, e) ↦
            subst (λ o. IsCounted (forward o).node) (sym e)
              (calling-IsCounted (taken_by entry.next_hop (data_packet p) ∷ []) _ refl
                (calling-IsCounted (sleep_for r.delay ∷ []) r.node refl c))
      ]
    where
      forward : Option RoutingTableEntry → Router Q
      forward o = elim o [
        | none ↦ record r { node = call (print_line address_not_found) r.node }
        | some entry ↦ record r {
          node = call (taken_by entry.next_hop (data_packet p)) (call (sleep_for r.delay) r.node);
        }
      ]

  log-IsCounted : (line : LogLine) (n : AbstractNode Q) → IsCounted n → IsCounted (log line n)
  unfolding log
  log-IsCounted line n c = calling-IsCounted (log_line n.log_filename line ∷ []) n refl c

  -- Whatever message a router handles, running or not, with or without a link to the sender: if each
  -- routing message that it has handed over was counted, this holds afterwards.
  pub handle_new_message-IsCounted :
      (env : RouterEnv) (defaults : RouterDefaults) (m : Message) (r : Router Q)
      → IsCounted r.node
      → IsCounted (handle_new_message env defaults m r).node
  unfolding handle_new_message
  handle_new_message-IsCounted env defaults (routing m) r c =
      let noted = log (handling_routing_message m.destination m.cost m.sender) r.node in
      calling-IsCounted (dec_converge ∷ []) _ refl (
        update_routing_table-IsCounted m.destination (add64 m.cost (link_cost m.sender noted).0)
          m.sender (record r { node = (link_cost m.sender noted).1 })
          (link_cost-IsCounted m.sender noted (log-IsCounted _ r.node c)))
  handle_new_message-IsCounted env defaults (data_packet p) r c =
      let noted = log (routing_packet p.source p.destination) r.node in
      let counted = log-IsCounted (routing_packet p.source p.destination) r.node c in
      elim (Bool-cases (env.exceeds env.rand defaults.drop_rate)) [
        | inl on ↦ rw on (route_and_forward_packet-IsCounted p (record r { node = noted }) counted)
        | inr off ↦ rw off (log-IsCounted dropped noted counted)
      ]
