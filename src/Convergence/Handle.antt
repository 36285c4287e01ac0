-- ===== src/Convergence/Handle.antt =====
-- What a router does with messages, as moves.
use mathlib.Core.Option.{none-ne-some}
use cn_project.Base.{
  ℕ, String, ◌≡◌, inl, inr, refl, sym, ap, subst, ◌∙◌, Option, none, some, [], ◌∷◌, Option-cases,
  add64, if_both,
}
use cn_project.Base.Dict.{keys_differ, lookup, insert, lookup-insert_ne}
use cn_project.Message.{Message, routing, data_packet, RoutingMessage, Packet}
use cn_project.Nodes.Queue.{MessageQueue, QueueLaws}
use cn_project.Nodes.Node.{
  AbstractNode, RoutingTableEntry, Link, log, call, taken_by, print_line, address_not_found,
  sleep_for, dec_converge, link_cost, handling_routing_message, routing_packet, dropped,
}
use cn_project.Nodes.Router
use cn_project.Nodes.Router.{
  Router, RouterEnv, RouterDefaults, Turn, waiting, fault, going, left, route_and_forward_packet,
}
use cn_project.Nodes.Table.{cost_to}
use cn_project.Nodes.Broadcast.{link_cost_found}
use cn_project.Convergence.{IsBelow, IsLater}
use cn_project.Convergence.Later.{IsLater-refl, IsLater-trans}
use cn_project.Convergence.Update.{
  calling-IsLater, log-IsLater, update_routing_table-IsBelow, update_routing_table-IsLater,
}

module _ {Q : Type 0} (queue : MessageQueue Q) (laws : QueueLaws queue) where
  abbrev Later : AbstractNode Q → AbstractNode Q → Type 0
  Later = IsLater queue laws

  then_later : (n₁ n₂ n₃ : AbstractNode Q) → Later n₁ n₂ → Later n₂ n₃ → Later n₁ n₃
  then_later = IsLater-trans queue laws

  -- `m_links[addr]` keeps all links that there are.
  link_cost-IsLater : (addr : String) (n : AbstractNode Q) → Later n (link_cost addr n).1
  unfolding link_cost cost_to
  link_cost-IsLater addr n = elim (Option-cases (lookup addr n.links)) [
    | inl missing ↦ subst (λ o. Later n (read o).1) (sym missing) (entered missing)
    | inr (l, found) ↦ subst (λ o. Later n (read o).1) (sym found) (IsLater-refl queue laws n)
  ]
    where
      empty : Link
      empty = record { node = none; cost = 0 }

      read : Option Link → ℕ × AbstractNode Q
      read o = elim o [
        | none ↦ (0, record n { links = insert addr empty n.links })
        | some link ↦ (link.cost, n)
      ]

      kept :
          lookup addr n.links ≡ none
          → (a : String) (l : Link) → lookup a n.links ≡ some l
          → lookup a (insert addr empty n.links) ≡ some l
      kept missing a l h = elim (keys_differ addr a) [
        | inl same ↦ absurd (none-ne-some l (sym missing ∙ ap (λ k. lookup k n.links) same ∙ h))
        | inr ne ↦ lookup-insert_ne addr a empty n.links ne ∙ h
      ]

      entered :
          lookup addr n.links ≡ none → Later n (record n { links = insert addr empty n.links })
      entered missing = record {
        same_addr = refl;
        same_neighbours = refl;
        links_kept = kept missing;
        going_on = λ h. h;
        calling = λ h. h;
        falling = λ dest bound h. h;
        telling = λ dest cost on h. inl (on, h);
        heeding = λ m l on linked h. inr h;
      }

  forward-IsLater : (p : Packet) (r : Router Q) → Later r.node (route_and_forward_packet p r).node
  unfolding route_and_forward_packet
  forward-IsLater p r = elim (Option-cases (lookup p.destination r.node.routing_table)) [
    | inl e ↦
        subst (λ o. Later r.node (forward o).node) (sym e)
          (calling-IsLater queue laws (print_line address_not_found ∷ []) r.node)
    | inr (entry, e) ↦
        subst (λ o. Later r.node (forward o).node) (sym e)
          (then_later r.node (call (sleep_for r.delay) r.node) _
            (calling-IsLater queue laws (sleep_for r.delay ∷ []) r.node)
            (calling-IsLater queue laws (taken_by entry.next_hop (data_packet p) ∷ []) _))
  ]
    where
      forward : Option RoutingTableEntry → Router Q
      forward o = elim o [
        | none ↦ record r { node = call (print_line address_not_found) r.node }
        | some entry ↦ record r {
          node = call (taken_by entry.next_hop (data_packet p)) (call (sleep_for r.delay) r.node);
        }
      ]

  module _ (env : RouterEnv) (defaults : RouterDefaults) where
    pub handle_new_message-IsLater :
        (m : Message) (r : Router Q)
        → Later r.node (Router.handle_new_message env defaults m r).node
    unfolding Router.handle_new_message
    handle_new_message-IsLater (routing m) r =
        let logged = log (handling_routing_message m.destination m.cost m.sender) r.node in
        let read = link_cost m.sender logged in
        let u =
          Router.update_routing_table m.destination (add64 m.cost read.0) m.sender
            (record r { node = read.1 }) in
        then_later r.node logged _ (log-IsLater queue laws _ r.node) (
          then_later logged read.1 _ (link_cost-IsLater m.sender logged) (
            then_later read.1 u.0.node _
              (update_routing_table-IsLater queue laws m.destination (add64 m.cost read.0) m.sender
                (record r { node = read.1 }))
              (calling-IsLater queue laws (dec_converge ∷ []) u.0.node)))
    handle_new_message-IsLater (data_packet p) r =
        let logged = log (routing_packet p.source p.destination) r.node in
        if_both (λ (x : Router Q). Later r.node x.node) (env.exceeds env.rand defaults.drop_rate) _
          _
          (then_later r.node logged _ (log-IsLater queue laws _ r.node)
            (forward-IsLater p (record r { node = logged })))
          (then_later r.node logged _ (log-IsLater queue laws _ r.node)
            (log-IsLater queue laws dropped logged))

    -- After a message over a link, the way over the sender is taken into account.
    pub handle_new_message-IsBelow :
        (m : RoutingMessage) (r : Router Q) (l : Link)
        → lookup m.sender r.node.links ≡ some l
        → IsBelow m.destination
            (add64 m.cost l.cost)
            (Router.handle_new_message env defaults (routing m) r).node
    unfolding Router.handle_new_message log cost_to
    handle_new_message-IsBelow m r l found =
        subst
          (λ (p : ℕ × AbstractNode Q).
            IsBelow m.destination (add64 m.cost l.cost)
              (Router.update_routing_table m.destination (add64 m.cost p.0) m.sender
                (record r { node = p.1 })).0.node)
          (sym (link_cost_found m.sender logged l found))
          (update_routing_table-IsBelow queue laws m.destination (add64 m.cost l.cost) m.sender
            (record r { node = logged }))
      where
        logged : AbstractNode Q
        logged = log (handling_routing_message m.destination m.cost m.sender) r.node
