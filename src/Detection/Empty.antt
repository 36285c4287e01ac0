-- ===== src/Detection/Empty.antt =====
-- The counter at zero, and the queues.
use cn_project.Base.{
  ℕ, String, ◌^◌, ◌≤◌, ◌<◌, ◌≡◌, refl, sym, ap, ◌∙◌, Bool, Option, some, [], ◌∷◌, arith, inl, inr,
  Bool-cases, str_eq, if◌then◌else◌,
}
use mathlib.Core.Option.{none-ne-some, some-injective}
use cn_project.Base.Dict.{Dict, lookup, AllEntries}
use cn_project.Message.{RoutingMessage, routing}
use cn_project.Nodes.Queue.{MessageQueue, QueueLaws}
use cn_project.Nodes.Node.{AbstractNode}
use cn_project.Nodes.Router.{Router}
use cn_project.Nodes.Host.{Host}
use cn_project.Network.{Network}
use cn_project.Routing.Steps.{Reach}
use cn_project.Detection.{
  CountsMessages, IsAccountedBut, sum_of, owed, uncounted, total, credits, debits,
}
use cn_project.Detection.Steps.{reached_counter}

module _ {A : Type 0} where
  sum_of_le :
      (f : A → ℕ) (at : String) (a : A) (map : Dict A) → lookup at map ≡ some a → f a ≤ sum_of f map
  unfolding lookup
  sum_of_le f at a [] found = absurd (none-ne-some a found)
  sum_of_le f at a (entry ∷ rest) found = elim (Bool-cases (str_eq entry.0 at)) [
    | inl same ↦ omega (arith, ap f (some-injective entry.1 a (sym (ap chosen same) ∙ found)))
    | inr differ ↦ omega (arith, sum_of_le f at a rest (sym (ap chosen differ) ∙ found))
  ]
    where
      chosen : Bool → Option A
      chosen b = if b then some entry.1 else lookup at rest

  sum_of_same :
      (f g : A → ℕ) (map : Dict A) → AllEntries (λ _ a. f a ≡ g a) map → sum_of f map ≡ sum_of g map
  sum_of_same f g [] all = refl
  sum_of_same f g (entry ∷ rest) (first, all) = omega (arith, first, sum_of_same f g rest all)

  all_weaker :
      {P R : String → A → Type 0} (map : Dict A)
      → ((at : String) (a : A) → P at a → R at a)
      → AllEntries P map
      → AllEntries R map
  all_weaker [] h all = tt
  all_weaker (entry ∷ rest) h (first, all) = (h entry.0 entry.1 first, all_weaker rest h all)

  sum_of-zero : (map : Dict A) → sum_of (λ _. 0) map ≡ 0
  sum_of-zero [] = refl
  sum_of-zero (entry ∷ rest) = omega (arith, sum_of-zero rest)

module _ {Q : Type 0} (queue : MessageQueue Q) (laws : QueueLaws queue)
    (counts : CountsMessages queue laws) where
  -- The routing messages in all queues.
  abbrev pub in_queues : Network Q → ℕ
  in_queues n = total (λ (m : AbstractNode Q). counts.waiting m.node_queue) n

  -- All nodes have made their calls.
  pub record HasCalled (n : Network Q) : Type 0 where
    pub routers : AllEntries (λ _ (r : Router Q). r.node.calls ≡ []) n.routers
    pub hosts : AllEntries (λ _ (h : Host Q). h.node.calls ≡ []) n.hosts

  called_owed : (n : Network Q) → HasCalled n → total (owed queue laws counts) n ≡ in_queues n
  called_owed n c = omega (
    arith,
    sum_of_same (λ (r : Router Q). owed queue laws counts r.node)
        (λ r. counts.waiting r.node.node_queue) n.routers
        (all_weaker n.routers (λ _ r e. omega (arith, ap debits e)) c.routers),
    sum_of_same (λ (h : Host Q). owed queue laws counts h.node)
        (λ h. counts.waiting h.node.node_queue) n.hosts
        (all_weaker n.hosts (λ _ h e. omega (arith, ap debits e)) c.hosts),
  )

  called_uncounted : (n : Network Q) → HasCalled n → total uncounted n ≡ 0
  called_uncounted n c = omega (
    arith,
    sum_of_same (λ (r : Router Q). uncounted r.node) (λ r. 0) n.routers
        (all_weaker n.routers (λ _ r e. ap credits e) c.routers),
    sum_of_same (λ (h : Host Q). uncounted h.node) (λ h. 0) n.hosts
        (all_weaker n.hosts (λ _ h e. ap credits e) c.hosts),
    sum_of-zero n.routers,
    sum_of-zero n.hosts,
  )

  -- At the counter zero, with all calls made and few messages, nothing waits in a router's queue.
  pub nothing_waits :
      (Here : String → Type 0) {n n' : Network Q} (at : String) (r : Router Q)
      → IsAccountedBut Here queue laws counts 0 0 n
      → Reach queue n n'
      → HasCalled n'
      → in_queues n' < 2 ^ 64
      → n'.controller.alg_converge_counter ≡ 0
      → lookup at n'.routers ≡ some r
      → (m : RoutingMessage) → laws.Holds (some (routing m)) r.node.node_queue
      → ⊥
  nothing_waits Here {n} {n'} at r s reach called few zero_read found m held =
      counts.none_held r.node.node_queue
        (omega (
          arith,
          reached_counter Here queue laws counts s reach,
          called_owed n' called,
          called_uncounted n' called,
          few,
          zero_read,
          sum_of_le (λ (x : Router Q). counts.waiting x.node.node_queue) at r n'.routers found,
        ))
        (some (routing m)) refl held
