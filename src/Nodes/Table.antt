-- ===== src/Nodes/Table.antt =====
-- The routing table: what an update leaves in it.
use cn_project.Base.{
  ℕ, String, ◌≡◌, ◌≢◌, refl, sym, ap, subst, ◌∙◌, Bool, true, false, Option, none, some, min, arith,
  ltb, Bool-cases, Option-cases, inl, inr, if◌then◌else◌,
}
use cn_project.Base.Dict.{lookup, insert, lookup-insert_self, lookup-insert_ne}
use cn_project.Nodes.Node.{AbstractNode, RoutingTableEntry, update_routing_table}

-- The cheaper of a way that is known, if any, and a new one.
abbrev pub cheaper : Option ℕ → ℕ → ℕ
cheaper none cost = cost
cheaper (some old) cost = min old cost

-- `cost` is below that of the way known.
abbrev pub is_improved : Option ℕ → ℕ → Bool
is_improved none cost = true
is_improved (some old) cost = ltb cost old

module _ {Q : Type 0} where
  -- The cost of the way known to a destination, if one is known.
  unfoldable pub cost_to : String → AbstractNode Q → Option ℕ
  cost_to dest n = elim (lookup dest n.routing_table) [ none ↦ none | some e ↦ some e.cost ]

  pub record IsRelaxed (dest : String) (cost : ℕ) (hop : String) (n n' : AbstractNode Q)
      (changed : Bool) : Type 0 where
    pub best : cost_to dest n' ≡ some (cheaper (cost_to dest n) cost)
    pub others :
        (other : String)
        → dest ≢ other
        → lookup other n'.routing_table ≡ lookup other n.routing_table
    pub answer : changed ≡ is_improved (cost_to dest n) cost
    pub unchanged : changed ≡ false → n' ≡ n
    pub rest : n' ≡ record n { routing_table = n'.routing_table }

  module _ (dest : String) (cost : ℕ) (hop : String) (n : AbstractNode Q) where
    abbrev pub written : AbstractNode Q
    written = record n {
      routing_table =
          insert dest (record { destination = dest; cost = cost; next_hop = hop }) n.routing_table;
    }

    pub update_improved :
        is_improved (cost_to dest n) cost ≡ true
        → update_routing_table dest cost hop n ≡ (written, true)
    unfolding update_routing_table cost_to
    update_improved h = elim (Option-cases (lookup dest n.routing_table)) [
      | inl e ↦ ap choose e
      | inr (old, e) ↦ ap choose e ∙ ap pick (sym (ap better e) ∙ h)
    ]
      where
        pick : Bool → AbstractNode Q × Bool
        pick b = if b then (written, true) else (n, false)

        choose : Option RoutingTableEntry → AbstractNode Q × Bool
        choose o = elim o [ none ↦ (written, true) | some old ↦ pick (ltb cost old.cost) ]

        better : Option RoutingTableEntry → Bool
        better o = is_improved (elim o [ none ↦ none | some e ↦ some e.cost ]) cost

    pub update_kept :
        is_improved (cost_to dest n) cost ≡ false
        → update_routing_table dest cost hop n ≡ (n, false)
    unfolding update_routing_table cost_to
    update_kept h = elim (Option-cases (lookup dest n.routing_table)) [
      | inl e ↦ false_true (sym (ap better e) ∙ h)
      | inr (old, e) ↦ ap choose e ∙ ap pick (sym (ap better e) ∙ h)
    ]
      where
        false_true : true ≡ false → update_routing_table dest cost hop n ≡ (n, false)
        false_true t = ground arith

        pick : Bool → AbstractNode Q × Bool
        pick b = if b then (written, true) else (n, false)

        choose : Option RoutingTableEntry → AbstractNode Q × Bool
        choose o = elim o [ none ↦ (written, true) | some old ↦ pick (ltb cost old.cost) ]

        better : Option RoutingTableEntry → Bool
        better o = is_improved (elim o [ none ↦ none | some e ↦ some e.cost ]) cost

    cheaper_improved :
        (known : Option ℕ) → is_improved known cost ≡ true → cheaper known cost ≡ cost
    cheaper_improved none h = refl
    cheaper_improved (some old) h = ground arith

    cheaper_kept :
        (known : Option ℕ) → is_improved known cost ≡ false → known ≡ some (cheaper known cost)
    cheaper_kept none h = ground arith
    cheaper_kept (some old) h = ap some (ground arith)

    after_improved :
        is_improved (cost_to dest n) cost ≡ true → IsRelaxed dest cost hop n written true
    unfolding cost_to
    after_improved h = record {
      best =
          ap cost_of (lookup-insert_self dest _ n.routing_table)
          ∙ ap some (sym (cheaper_improved (cost_to dest n) h));
      others = λ other ne. lookup-insert_ne dest other _ n.routing_table ne;
      answer = sym h;
      unchanged = λ e. ground arith;
      rest = refl;
    }
      where
        cost_of : Option RoutingTableEntry → Option ℕ
        cost_of o = elim o [ none ↦ none | some e ↦ some e.cost ]

    after_kept : is_improved (cost_to dest n) cost ≡ false → IsRelaxed dest cost hop n n false
    after_kept h = record {
      best = cheaper_kept (cost_to dest n) h;
      others = λ other ne. refl;
      answer = sym h;
      unchanged = λ e. refl;
      rest = refl;
    }

    -- Whatever the table holds, after `updateRoutingTable` the cost to the destination is the minimum
    -- of the known one and the new one, every other entry is as before, nothing but the table changes,
    -- and the answer is true exactly if the new way is cheaper or the first one; otherwise the node
    -- stays as it is.
    pub update_routing_table_lem :
        IsRelaxed dest cost hop n
          (update_routing_table dest cost hop n).0
          (update_routing_table dest cost hop n).1
    update_routing_table_lem = elim (Bool-cases (is_improved (cost_to dest n) cost)) [
      | inl better ↦ subst Result (sym (update_improved better)) (after_improved better)
      | inr worse ↦ subst Result (sym (update_kept worse)) (after_kept worse)
    ]
      where
        Result : AbstractNode Q × Bool → Type 0
        Result p = IsRelaxed dest cost hop n p.0 p.1
