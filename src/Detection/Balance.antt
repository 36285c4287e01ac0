-- ===== src/Detection/Balance.antt =====
-- Calls, updates of the table and broadcasts keep the balance of a node.
use cn_project.Base.{
  ℕ, String, ◌+◌, ◌≡◌, refl, sym, subst, Bool, false, List, [], ◌∷◌, ◌++◌, arith, Bool-cases, inl,
  inr, All, All-append,
}
use cn_project.Message.{routing, data_packet}
use cn_project.Nodes.Queue.{MessageQueue, QueueLaws}
use cn_project.Nodes.Node.{
  AbstractNode, Call, taken_by, inc_converge, dec_converge, inc_running, dec_running, sleep_for,
  write_to_file, log_line, print_line, call,
}
use cn_project.Nodes.Router.{Router, broad_cast_new_link, update_routing_table}
use cn_project.Nodes.Table.{is_improved, cost_to, written}
use cn_project.Nodes.Broadcast.{
  announcements, neighbours, calling, broadcast, broad_cast_new_link_lem, update_better,
  update_worse,
}
use cn_project.Nodes.Quiet.{IsQuiet, IsKept, IsQuietly}
use cn_project.Detection.{
  CountsMessages, debits, credits, IsHereCall, IsOpen, IsBalanced, IsBalancedBy,
}

debits-append : (ks ls : List Call) → debits (ks ++ ls) ≡ debits ks + debits ls
debits-append [] ls = omega arith
debits-append (k ∷ ks) ls = omega (arith, debits-append ks ls)

credits-append : (ks ls : List Call) → credits (ks ++ ls) ≡ credits ks + credits ls
credits-append [] ls = omega arith
credits-append (k ∷ ks) ls = omega (arith, credits-append ks ls)

module _ (Here : String → Type 0) where
  -- Calls that owe what they count, to nodes that there are.
  pub record IsEven (ks : List Call) : Type 0 where
    pub even : debits ks ≡ credits ks
    pub sent : All (IsHereCall Here) ks

  announcements-IsEven :
      (sender dest : String) (cost : ℕ) (xs : List String)
      → All Here xs
      → IsEven (announcements sender dest cost xs)
  announcements-IsEven sender dest cost [] all = record { even = refl; sent = tt }
  announcements-IsEven sender dest cost (x ∷ xs) (first, all) =
      let rest = announcements-IsEven sender dest cost xs all in
      record { even = omega (arith, rest.even); sent = (first, (tt, rest.sent)) }

  pub quiet-IsEven : (k : Call) → IsQuiet k → IsEven (k ∷ [])
  quiet-IsEven (taken_by y (routing m)) q = absurd q
  quiet-IsEven (taken_by y (data_packet p)) q = record { even = refl; sent = (tt, tt) }
  quiet-IsEven inc_converge q = absurd q
  quiet-IsEven dec_converge q = absurd q
  quiet-IsEven inc_running q = record { even = refl; sent = (tt, tt) }
  quiet-IsEven dec_running q = record { even = refl; sent = (tt, tt) }
  quiet-IsEven (sleep_for time) q = record { even = refl; sent = (tt, tt) }
  quiet-IsEven (write_to_file host source bytes) q = record { even = refl; sent = (tt, tt) }
  quiet-IsEven (log_line file line) q = record { even = refl; sent = (tt, tt) }
  quiet-IsEven (print_line line) q = record { even = refl; sent = (tt, tt) }

  quiets-IsEven : (ks : List Call) → All IsQuiet ks → IsEven ks
  quiets-IsEven [] q = record { even = refl; sent = tt }
  quiets-IsEven (k ∷ ks) (q, qs) =
      let one = quiet-IsEven k q in
      let rest = quiets-IsEven ks qs in
      record { even = omega (arith, one.even, rest.even); sent = (one.sent.0, rest.sent) }

  module _ {Q : Type 0} (queue : MessageQueue Q) (laws : QueueLaws queue)
      (counts : CountsMessages queue laws) where
    abbrev Balanced : AbstractNode Q → AbstractNode Q → Type 0
    Balanced = IsBalanced Here queue laws counts

    pub IsBalanced-refl : (n : AbstractNode Q) → Balanced n n
    IsBalanced-refl n = record { opened = λ o. o; balance = λ o. omega arith }

    pub IsBalanced-trans :
        (gain : ℕ) (n₁ n₂ n₃ : AbstractNode Q)
        → Balanced n₁ n₂
        → IsBalancedBy Here queue laws counts gain n₂ n₃
        → IsBalancedBy Here queue laws counts gain n₁ n₃
    IsBalanced-trans gain n₁ n₂ n₃ a b = record {
      opened = λ o. b.opened (a.opened o);
      balance = λ o. omega (arith, a.balance o, b.balance (a.opened o));
    }

    -- Whatever else of a node changes, calls that are even keep the balance.
    pub calling-IsBalanced :
        (ks : List Call) (n : AbstractNode Q)
        → (IsOpen Here n → IsEven ks)
        → Balanced n (calling ks n)
    calling-IsBalanced ks n even = record {
      opened = λ o. record {
        going = o.going;
        peered = o.peered;
        calling = All-append (IsHereCall Here) n.calls ks o.calling (even o).sent;
      };
      balance =
          λ o. omega (arith, debits-append n.calls ks, credits-append n.calls ks, (even o).even);
    }

    pub quietly-IsBalanced : (n n' : AbstractNode Q) → IsQuietly n n' → Balanced n n'
    quietly-IsBalanced n n' q =
        subst (Balanced n) (sym q.same)
          (calling-IsBalanced q.made n (λ o. quiets-IsEven q.made q.quiet))

    -- A message that is counted down is owed until the call is made.
    pub counted_down-IsBalancedBy :
        (n : AbstractNode Q) → IsBalancedBy Here queue laws counts 1 n (call dec_converge n)
    counted_down-IsBalancedBy n = record {
      opened = λ o. record {
        going = o.going;
        peered = o.peered;
        calling = All-append (IsHereCall Here) n.calls (dec_converge ∷ []) o.calling (tt, tt);
      };
      balance = λ o. omega (
        arith,
        debits-append n.calls (dec_converge ∷ []),
        credits-append n.calls (dec_converge ∷ []),
      );
    }

    pub IsBalanced-IsKept : (n : AbstractNode Q) → IsKept (Balanced n)
    IsBalanced-IsKept n = record {
      kept = λ k n' quiet b.
          IsBalanced-trans 0 n n' _ b (calling-IsBalanced (k ∷ []) n' (λ o. quiet-IsEven k quiet));
    }

    pub broad_cast_new_link-IsBalanced :
        (dest : String) (cost : ℕ) (n : AbstractNode Q)
        → Balanced n (broad_cast_new_link dest cost n)
    broad_cast_new_link-IsBalanced dest cost n = elim (Bool-cases n.is_running) [
      | inl on ↦ subst (Balanced n) (sym (broad_cast_new_link_lem dest cost n on)) (
          calling-IsBalanced (broadcast dest cost n) n (λ o.
            let told = announcements-IsEven n.addr dest cost (neighbours n) o.peered in
            record { even = omega (arith, told.even); sent = (tt, told.sent) }))
      | inr off ↦ subst (Balanced n) (sym (silent off)) (IsBalanced-refl n)
    ]
      where
        silent : n.is_running ≡ false → broad_cast_new_link dest cost n ≡ n
        silent off = unfold broad_cast_new_link in rw off refl

    written-IsBalanced :
        (dest : String) (cost : ℕ) (hop : String) (n : AbstractNode Q)
        → Balanced n (written dest cost hop n)
    written-IsBalanced dest cost hop n = record {
      opened = λ o. record { going = o.going; peered = o.peered; calling = o.calling };
      balance = λ o. omega arith;
    }

    pub update_routing_table-IsBalanced :
        (dest : String) (cost : ℕ) (hop : String) (r : Router Q)
        → Balanced r.node (update_routing_table dest cost hop r).0.node
    update_routing_table-IsBalanced dest cost hop r =
        elim (Bool-cases (is_improved (cost_to dest r.node) cost)) [
          | inl better ↦
              subst (λ (p : Router Q × Bool). Balanced r.node p.0.node)
                (sym (update_better dest cost hop r better))
                (IsBalanced-trans 0 r.node (written dest cost hop r.node) _
                  (written-IsBalanced dest cost hop r.node)
                  (broad_cast_new_link-IsBalanced dest cost _))
          | inr worse ↦
              subst (λ (p : Router Q × Bool). Balanced r.node p.0.node)
                (sym (update_worse dest cost hop r worse)) (IsBalanced-refl r.node)
        ]
