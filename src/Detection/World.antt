-- ===== src/Detection/World.antt =====
-- The nodes of a network are replaced, and its calls are made.
use mathlib.Core.Option.{none-ne-some, some-injective}
use cn_project.Base.{
  ℕ, String, ◌+◌, ◌%◌, ◌^◌, ◌≡◌, sym, ap, subst, ◌∙◌, Option, some, [], ◌∷◌, arith, Bool,
  Bool-cases, inl, inr, u64_max, str_eq, if◌then◌else◌,
}
use cn_project.Base.Dict.{
  Dict, lookup, insert, AllEntries-insert, AllEntries-lookup, keys_differ, lookup-insert_self,
  lookup-insert_ne,
}
use cn_project.Nodes.Queue.{MessageQueue, QueueLaws}
use cn_project.Nodes.Node.{AbstractNode}
use cn_project.Nodes.Router.{Router}
use cn_project.Nodes.Host.{Host}
use cn_project.Network.{Network}
use cn_project.Detection.{CountsMessages, IsOpen, IsAccountedBut, owed, uncounted, sum_of}

module _ {A : Type 0} (f : A → ℕ) where
  sum_of-insert :
      (at : String) (a a' : A) (map : Dict A)
      → lookup at map ≡ some a
      → sum_of f (insert at a' map) + f a ≡ sum_of f map + f a'
  unfolding lookup insert
  sum_of-insert at a a' [] found = absurd (none-ne-some a found)
  sum_of-insert at a a' (entry ∷ rest) found = elim (Bool-cases (str_eq entry.0 at)) [
    | inl same ↦
        let is_a = some-injective entry.1 a (sym (ap chosen same) ∙ found) in
        rw same (omega (arith, ap f is_a))
    | inr differ ↦
        let rest_of = sum_of-insert at a a' rest (sym (ap chosen differ) ∙ found) in
        rw differ (omega (arith, rest_of))
  ]
    where
      chosen : Bool → Option A
      chosen b = if b then some entry.1 else lookup at rest

-- Whoever is in a map stays there.
abbrev pub IsIn : {A : Type 0} → String → Dict A → Type 0
IsIn {A = A} at map = (a : A) × (lookup at map ≡ some a)

pub insert-IsIn :
    {A : Type 0} (key at : String) (a : A) (map : Dict A) → IsIn at map → IsIn at (insert key a map)
insert-IsIn key at a map (b, found) = elim (keys_differ key at) [
  | inl same ↦
      (a, subst (λ k. lookup k (insert key a map) ≡ some a) same (lookup-insert_self key a map))
  | inr ne ↦ (b, lookup-insert_ne key at a map ne ∙ found)
]

-- One node's share of what is owed and of what is uncounted is replaced.
replaced :
    (counter o u o' u' d c d' c' all_o all_u all_o' all_u' : ℕ)
    → all_o' + o ≡ all_o + o'
    → all_u' + u ≡ all_u + u'
    → o' + d' + u + c ≡ o + d + u' + c'
    → (counter + all_u + c) % 2 ^ 64 ≡ (all_o + d) % 2 ^ 64
    → (counter + all_u' + c') % 2 ^ 64 ≡ (all_o' + d') % 2 ^ 64
replaced counter o u o' u' d c d' c' all_o all_u all_o' all_u' same_o same_u same account =
    omega (arith, same_o, same_u, same, account)

module _ (Here : String → Type 0) {Q : Type 0} (queue : MessageQueue Q) (laws : QueueLaws queue)
    (counts : CountsMessages queue laws) where
  abbrev But : ℕ → ℕ → Network Q → Type 0
  But = IsAccountedBut Here queue laws counts

  abbrev owes : AbstractNode Q → ℕ
  owes = owed queue laws counts

  abbrev hides : AbstractNode Q → ℕ
  hides = uncounted

  abbrev pub GoodRouter : String → Router Q → Type 0
  GoodRouter _ r = IsOpen Here r.node × (r.fifo_size ≡ u64_max)

  abbrev pub GoodHost : String → Host Q → Type 0
  GoodHost _ h = IsOpen Here h.node

  -- One node for another, with what is owed but not by a node before and after.
  pub record IsExchange (d c d' c' : ℕ) (n n' : AbstractNode Q) : Type 0 where
    pub opened : IsOpen Here n → IsOpen Here n'
    pub exchanged : IsOpen Here n → owes n' + d' + hides n + c ≡ owes n + d + hides n' + c'

  module _ (d c d' c' : ℕ) (at : String) (n : Network Q) (net : But d c n) where
    pub router_at : (r : Router Q) → lookup at n.routers ≡ some r → GoodRouter at r
    router_at r found = AllEntries-lookup GoodRouter at r n.routers found net.routers

    pub host_at : (h : Host Q) → lookup at n.hosts ≡ some h → GoodHost at h
    host_at h found = AllEntries-lookup GoodHost at h n.hosts found net.hosts

    pub with_router :
        (r r' : Router Q)
        → lookup at n.routers ≡ some r
        → IsExchange d c d' c' r.node r'.node
        → r'.fifo_size ≡ r.fifo_size
        → But d' c' (record n { routers = insert at r' n.routers })
    with_router r r' found x limit = record {
      routers =
          AllEntries-insert GoodRouter at r' n.routers
            (x.opened opens, limit ∙ (router_at r found).1) net.routers;
      hosts = net.hosts;
      found = λ a is_here. elim (net.found a is_here) [
        | inl router ↦ inl (insert-IsIn at a r' n.routers router)
        | inr host ↦ inr host
      ];
      accounted =
          replaced n.controller.alg_converge_counter (owes r.node) (hides r.node) (owes r'.node)
            (hides r'.node) d c d' c' _ _ _ _
            (omega (arith, sum_of-insert (λ (y : Router Q). owes y.node) at r r' n.routers found))
            (omega (arith, sum_of-insert (λ (y : Router Q). hides y.node) at r r' n.routers found))
            (x.exchanged opens) net.accounted;
    }
      where
        opens : IsOpen Here r.node
        opens = (router_at r found).0

    pub with_host :
        (h h' : Host Q)
        → lookup at n.hosts ≡ some h
        → IsExchange d c d' c' h.node h'.node
        → But d' c' (record n { hosts = insert at h' n.hosts })
    with_host h h' found x = record {
      routers = net.routers;
      hosts = AllEntries-insert GoodHost at h' n.hosts (x.opened opens) net.hosts;
      found = λ a is_here. elim (net.found a is_here) [
        | inl router ↦ inl router
        | inr host ↦ inr (insert-IsIn at a h' n.hosts host)
      ];
      accounted =
          replaced n.controller.alg_converge_counter (owes h.node) (hides h.node) (owes h'.node)
            (hides h'.node) d c d' c' _ _ _ _
            (omega (arith, sum_of-insert (λ (y : Host Q). owes y.node) at h h' n.hosts found))
            (omega (arith, sum_of-insert (λ (y : Host Q). hides y.node) at h h' n.hosts found))
            (x.exchanged opens) net.accounted;
    }
      where
        opens : IsOpen Here h.node
        opens = host_at h found
