-- ===== src/Convergence/Start.antt =====
-- The start of a router, and the broadcast of its table.
use mathlib.Core.Option.{none-ne-some, some-injective}
use mathlib.Core.List.{Memᴰ}
use mathlib.Core.List.Memᴰ.{tail, append_left, append_right}
use cn_project.Base.{
  ℕ, String, ◌≡◌, inl, inr, refl, sym, ap, subst, ◌∙◌, Option, none, some, List, [], ◌∷◌, ◌++◌,
  true, Bool, Bool-cases, Option-cases, if◌then◌else◌, append_assoc, append-nil, str_eq, eq_iff,
}
use cn_project.Base.Dict.{Dict, lookup}
use cn_project.Message.{routing}
use cn_project.Nodes.Queue.{MessageQueue, QueueLaws}
use cn_project.Nodes.Node.{
  AbstractNode, RoutingTableEntry, Call, log, call, taken_by, inc_running, starting,
}
use cn_project.Nodes.Router
use cn_project.Nodes.Router.{Router, broad_cast_table, broad_cast_new_link}
use cn_project.Nodes.Table.{cost_to}
use cn_project.Nodes.Broadcast.{
  neighbours, calling, broadcast, announcements, broad_cast_new_link_lem,
}
use cn_project.Convergence.{KeepsMessages, IsLater, tale}
use cn_project.Convergence.Update.{announcements-Memᴰ}
use cn_project.Convergence.Turns.{IsLaterRouter}

module _ {Q : Type 0} where
  -- The calls tell all neighbours of every entry.
  abbrev pub TellsTable : Dict RoutingTableEntry → AbstractNode Q → List Call → Type 0
  TellsTable table n ks =
      (dest : String) (e : RoutingTableEntry)
      → lookup dest table ≡ some e
      → (y : String) → Memᴰ y (neighbours n)
      → Memᴰ (taken_by y (routing (tale n.addr dest e.cost))) ks

  pub broad_cast_table_lem :
      (table : Dict RoutingTableEntry) (n : AbstractNode Q)
      → n.is_running ≡ true
      → (ks : List Call) × (broad_cast_table table n ≡ calling ks n) × TellsTable table n ks
  unfolding broad_cast_table lookup
  broad_cast_table_lem [] n on = (
    [],
    ap (λ cs. record n { calls = cs }) (sym (append-nil n.calls)),
    λ dest e found. absurd (none-ne-some e found),
  )
  broad_cast_table_lem (pair ∷ rest) n on =
      let one = broadcast pair.0 pair.1.cost n in
      let (ks, same, tells) = broad_cast_table_lem rest (calling one n) on in
      (
        one ++ ks,
        ap (broad_cast_table rest) (broad_cast_new_link_lem pair.0 pair.1.cost n on)
            ∙ same
            ∙ ap (λ cs. record n { calls = cs }) (append_assoc n.calls one ks),
        λ dest e found y m. elim (Bool-cases (str_eq pair.0 dest)) [
          | inl here ↦ append_left ks (
              tail (
                announcement dest e y m here
                  (some-injective pair.1 e (sym (ap (pick dest) here) ∙ found))))
          | inr there ↦ append_right one (tells dest e (sym (ap (pick dest) there) ∙ found) y m)
        ],
      )
    where
      pick : String → Bool → Option RoutingTableEntry
      pick dest b = if b then some pair.1 else lookup dest rest

      announcement :
          (dest : String) (e : RoutingTableEntry) (y : String)
          → Memᴰ y (neighbours n)
          → str_eq pair.0 dest ≡ true
          → pair.1 ≡ e
          → Memᴰ
              (taken_by y (routing (tale n.addr dest e.cost)))
              (announcements n.addr pair.0 pair.1.cost (neighbours n))
      announcement dest e y m here same =
          subst
            (λ d.
              Memᴰ (taken_by y (routing (tale n.addr d e.cost)))
                (announcements n.addr pair.0 pair.1.cost (neighbours n)))
            ((eq_iff pair.0 dest).0 here)
            (subst
              (λ (x : RoutingTableEntry).
                Memᴰ (taken_by y (routing (tale n.addr pair.0 x.cost)))
                  (announcements n.addr pair.0 pair.1.cost (neighbours n)))
              same (announcements-Memᴰ n.addr pair.0 pair.1.cost y (neighbours n) m))

  pub cost_to_entry :
      (dest : String) (cost : ℕ) (n : AbstractNode Q)
      → cost_to dest n ≡ some cost
      → (e : RoutingTableEntry) × (lookup dest n.routing_table ≡ some e) × (e.cost ≡ cost)
  unfolding cost_to
  cost_to_entry dest cost n h = elim (Option-cases (lookup dest n.routing_table)) [
    | inl missing ↦ absurd (none-ne-some cost (sym (ap cost_of missing) ∙ h))
    | inr (e, found) ↦ (e, found, some-injective e.cost cost (sym (ap cost_of found) ∙ h))
  ]
    where
      cost_of : Option RoutingTableEntry → Option ℕ
      cost_of o = elim o [ none ↦ none | some e ↦ some e.cost ]

  module _ (queue : MessageQueue Q) (laws : QueueLaws queue)
      (keeps : KeepsMessages queue laws) where
    started-IsLater :
        (ks : List Call) (n : AbstractNode Q)
        → TellsTable n.routing_table n ks
        → IsLater queue laws n (
            calling ks (
              call inc_running (record (log starting n) { is_running = true; is_joinable = true })))
    unfolding log cost_to
    started-IsLater ks n tells = record {
      same_addr = refl;
      same_neighbours = refl;
      links_kept = λ a l h. h;
      going_on = λ h. h;
      calling = λ h. append_left ks (append_left (inc_running ∷ []) (append_left _ h));
      falling = λ dest bound h. h;
      telling = λ dest cost on h. inr (λ y m.
          let (e, found, same) = cost_to_entry dest cost n h in
          append_right _ (
            subst (λ c. Memᴰ (taken_by y (routing (tale n.addr dest c))) ks) same
              (tells dest e found y m)));
      heeding = λ m l on linked h. inr h;
    }

    pub start_node-IsLater : (r : Router Q) → IsLaterRouter queue laws keeps r (Router.start_node r)
    unfolding Router.start_node log
    start_node-IsLater r =
        let running =
          call inc_running
            (record (log starting r.node) { is_running = true; is_joinable = true }) in
        let (ks, same, tells) = broad_cast_table_lem r.node.routing_table running refl in
        record {
          node = subst (IsLater queue laws r.node) (sym same) (started-IsLater ks r.node tells);
          limit = refl;
        }
