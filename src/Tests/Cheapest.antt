-- ===== src/Tests/Cheapest.antt =====
-- Two linked routers are started and run until they are at rest.
use mathlib.Core.List.Memᴰ.{head}
use mathlib.Core.Option.{none-ne-some, some-injective}
use cn_project.Base.{
  ℕ, Bool, true, zero, suc, String, ◌≡◌, ◌⊎◌, ◌≤◌, refl, sym, ap, subst, ◌∙◌, inl, inr, false,
  Option, none, some, [], ◌∷◌, arith, Bool-cases, str_eq, eq_iff, if◌then◌else◌,
}
use cn_project.Base.Dict.{lookup, insert, lookup-insert_self}
use cn_project.Message.{routing}
use cn_project.Nodes.Node.{RoutingTableEntry, Link, log, link_cost, update_routing_table}
use cn_project.Nodes.Router
use cn_project.Nodes.Router.{Router}
use cn_project.Nodes.Table.{cost_to}
use cn_project.Network.{Network, print}
use cn_project.Network.Threads.{all_up}
use cn_project.Network.Running.{run, start_nodes, router_call, router_turn, perform, deliver_to}
use cn_project.Routing.{Walk}
use cn_project.Routing.Steps.{Reach, here, next, starts, router_calls, router_turns}
use cn_project.Convergence.{IsBelow, IsTold}
use cn_project.Convergence.Cheapest.{IsLinkedUp, IsAtRest, edge, cheapest_ways}
use cn_project.Tests.Values.{env}
use cn_project.Tests.Nodes.{Q, queue, router_env}
use cn_project.Tests.Routing.{
  Holds, laws, link_to, router_at, topology, two_way, two_routers, two_routers-IsSoundNetwork,
}
use cn_project.Tests.Convergence.{keeps, or_else, router_of}

-- A node makes so many calls.
abbrev pub make : ℕ → String → Network Q → Network Q
make zero at n = n
make (suc k) at n = router_call queue env router_env at (make k at n)

pub makes :
    (k : ℕ) (at : String) {n n' : Network Q} → Reach queue n n' → Reach queue n (make k at n')
makes zero at r = r
makes (suc k) at r = next (makes k at r) (router_calls env router_env at)

abbrev pub hear : String → Network Q → Network Q
hear at n = or_else n (router_turn queue env router_env at n)

abbrev pub told : Network Q
told = make 5 "s" (make 5 "r" (all_up queue env router_env two_routers))

abbrev retold : Network Q
retold = make 6 "s" (make 6 "r" (hear "s" (hear "r" told)))

abbrev settled : Network Q
settled = make 3 "s" (make 3 "r" (hear "s" (hear "r" retold)))

-- What stands in a map of two entries.
lookup_two :
    {A : Type 0} (a b : A) (key : String) (x : A)
    → lookup key (("r", a) ∷ ("s", b) ∷ []) ≡ some x
    → ((key ≡ "r") × (a ≡ x)) ⊎ ((key ≡ "s") × (b ≡ x))
unfolding lookup
lookup_two {A = A} a b key x found = elim (Bool-cases (str_eq "r" key)) [
  | inl is_r ↦ inl (
    sym ((eq_iff "r" key).0 is_r),
    some-injective a x (sym (ap (λ t. if t then some a else rest) is_r) ∙ found),
  )
  | inr not_r ↦
      let found' = sym (ap (λ t. if t then some a else rest) not_r) ∙ found in
      elim (Bool-cases (str_eq "s" key)) [
        | inl is_s ↦ inr (
          sym ((eq_iff "s" key).0 is_s),
          some-injective b x (sym (ap (λ t. if t then some b else none) is_s) ∙ found'),
        )
        | inr not_s ↦
            absurd (none-ne-some x (sym (ap (λ t. if t then some b else none) not_s) ∙ found'))
      ]
]
  where
    rest : Option A
    rest = if str_eq "s" key then some b else none

settled-IsAtRest : IsAtRest queue laws keeps topology settled.routers
unfolding lookup insert run start_nodes Router.start_node Router.broad_cast_table
    Router.broad_cast_new_link Router.announce_to_hosts Router.announce_to_routers log router_call
    perform deliver_to Router.take_message router_turn Router.turn Router.handle_new_message
    link_cost Router.update_routing_table update_routing_table print
settled-IsAtRest = record {
  running = λ at r found. elim (lookup_two _ _ at r found) [
    | inl (_, same) ↦ ap (λ (x : Router Q). x.node.is_running) (sym same)
    | inr (_, same) ↦ ap (λ (x : Router Q). x.node.is_running) (sym same)
  ];
  called = λ at r found. elim (lookup_two _ _ at r found) [
    | inl (_, same) ↦ ap (λ (x : Router Q). x.node.calls) (sym same)
    | inr (_, same) ↦ ap (λ (x : Router Q). x.node.calls) (sym same)
  ];
  empty = λ at r found m h. elim (lookup_two _ _ at r found) [
    | inl (_, same) ↦
        subst (λ (x : Router Q). Holds (some (routing m)) x.node.node_queue) (sym same) h
    | inr (_, same) ↦
        subst (λ (x : Router Q). Holds (some (routing m)) x.node.node_queue) (sym same) h
  ];
}

lookup_one :
    {A : Type 0} (k : String) (a : A) (key : String) (x : A)
    → lookup key ((k, a) ∷ []) ≡ some x
    → (k ≡ key) × (a ≡ x)
unfolding lookup
lookup_one k a key x found = elim (Bool-cases (str_eq k key)) [
  | inl same ↦ (
    (eq_iff k key).0 same,
    some-injective a x (sym (ap (λ t. if t then some a else none) same) ∙ found),
  )
  | inr differ ↦ absurd (none-ne-some x (sym (ap (λ t. if t then some a else none) differ) ∙ found))
]

-- A router that is linked to one other router, as in this network.
module _ (a b : String) (links : topology.links a ≡ (b, link_to b) ∷ []) where
  direct_at :
      (x y : String) (l : Link) (r : Router Q)
      → x ≡ a
      → lookup y (topology.links x) ≡ some l
      → router_at a b ≡ r
      → IsBelow y l.cost r.node
  unfolding cost_to insert
  direct_at x y l r is_a linked same =
      let (is_y, is_l) =
        lookup_one b (link_to b) y l
          (sym (ap (lookup y) (ap topology.links is_a ∙ links)) ∙ linked) in
      subst (λ (r' : Router Q). IsBelow y l.cost r'.node) same
        (subst (λ (l' : Link). IsBelow y l'.cost (router_at a b).node) is_l
          (subst (λ y'. IsBelow y' 7 (router_at a b).node) is_y
            (7, ap cost_of (lookup-insert_self b own []), omega arith)))
    where
      own : RoutingTableEntry
      own = record { destination = b; cost = 7; next_hop = b }

      cost_of : Option RoutingTableEntry → Option ℕ
      cost_of o = elim o [ none ↦ none | some e ↦ some e.cost ]

  told_pair : IsTold queue laws b a (link_to b) none (router_at b a) (router_at a b)
  unfolding insert
  told_pair = record {
    addressed = refl;
    peer = head refl;
    linked = lookup-insert_self b (link_to b) [];
    going = refl;
    unlimited = refl;
    told = λ dest cost on h. ground (arith, on);
  }

  told_at :
      (sender receiver : String) (l : Link) (x y : Router Q)
      → lookup b two_routers.routers ≡ some (router_at b a)
      → receiver ≡ a
      → router_at a b ≡ y
      → lookup sender (topology.links receiver) ≡ some l
      → lookup sender two_routers.routers ≡ some x
      → IsTold queue laws sender receiver l none x y
  told_at sender receiver l x y other is_a same linked found =
      let (is_sender, is_l) =
        lookup_one b (link_to b) sender l
          (sym (ap (lookup sender) (ap topology.links is_a ∙ links)) ∙ linked) in
      let is_x : router_at b a ≡ x =
        some-injective (router_at b a) x
          (sym other ∙ ap (λ k. lookup k two_routers.routers) is_sender ∙ found) in
      subst (λ s. IsTold queue laws s receiver l none x y) is_sender
        (subst (λ c. IsTold queue laws b c l none x y) (sym is_a)
          (subst (λ k. IsTold queue laws b a k none x y) is_l
            (subst (λ z. IsTold queue laws b a (link_to b) none z y) is_x
              (subst (IsTold queue laws b a (link_to b) none (router_at b a)) same told_pair))))

pub two_routers-IsLinkedUp : IsLinkedUp queue laws keeps topology two_routers.routers
unfolding lookup
two_routers-IsLinkedUp = record {
  direct = λ x y l linked r found. elim (lookup_two _ _ x r found) [
    | inl (is_a, same) ↦ direct_at "r" "s" refl x y l r is_a linked same
    | inr (is_a, same) ↦ direct_at "s" "r" refl x y l r is_a linked same
  ];
  told = λ sender receiver l linked x y found_x found_y. elim (lookup_two _ _ receiver y found_y) [
    | inl (is_a, same) ↦ told_at "r" "s" refl sender receiver l x y refl is_a same linked found_x
    | inr (is_a, same) ↦ told_at "s" "r" refl sender receiver l x y refl is_a same linked found_x
  ];
}

abbrev is_some : {A : Type 0} → Option A → Bool
is_some none = false
is_some (some x) = true

abbrev can_hear : String → Network Q → Bool
can_hear at n = is_some (router_turn queue env router_env at n)

hears :
    (at : String) {n n' : Network Q}
    → can_hear at n' ≡ true
    → Reach queue n n'
    → Reach queue n (hear at n')
hears at {n} {n'} can r = next r (router_turns env router_env at (returned _ can))
  where
    returned : (o : Option (Network Q)) → is_some o ≡ true → o ≡ some (or_else n' o)
    returned none e = ground (arith, e)
    returned (some m) e = refl

all_hear :
    (can_hear "r" told ≡ true)
    × (can_hear "s" (hear "r" told) ≡ true)
    × (can_hear "r" retold ≡ true)
    × (can_hear "s" (hear "r" retold) ≡ true)
unfolding lookup insert run start_nodes Router.start_node Router.broad_cast_table
    Router.broad_cast_new_link Router.announce_to_hosts Router.announce_to_routers log router_call
    perform deliver_to Router.take_message router_turn Router.turn Router.handle_new_message
    link_cost Router.update_routing_table update_routing_table print
all_hear = (refl, refl, refl, refl)

pub starts_up :
    run queue env router_env two_routers ≡ some (all_up queue env router_env two_routers)
unfolding run start_nodes
starts_up = refl

pub told-Reach : Reach queue two_routers told
told-Reach = makes 5 "s" (makes 5 "r" (next here (starts env router_env starts_up)))

settled-Reach : Reach queue two_routers settled
settled-Reach =
    let (one, two, three, four) = all_hear in
    let later = makes 6 "s" (makes 6 "r" (hears "s" two (hears "r" one told-Reach))) in
    makes 3 "s" (makes 3 "r" (hears "s" four (hears "r" three later)))

cheapest_ways_example :
    (e : RoutingTableEntry) × (lookup "s" (router_of "r" settled).node.routing_table ≡ some e)
    × Walk topology "r" "s" e.cost
    × (e.cost ≤ 7)
unfolding lookup insert run start_nodes Router.start_node Router.broad_cast_table
    Router.broad_cast_new_link Router.announce_to_hosts Router.announce_to_routers log router_call
    perform deliver_to Router.take_message router_turn Router.turn Router.handle_new_message
    link_cost Router.update_routing_table update_routing_table print
cheapest_ways_example =
    cheapest_ways queue laws keeps topology two_way {n = two_routers} {n' = settled} "r" "s"
      (router_of "r" settled) 7 two_routers-IsSoundNetwork two_routers-IsLinkedUp settled-Reach
      settled-IsAtRest refl (edge (link_to "s") refl)
