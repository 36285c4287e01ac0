-- ===== src/Tests/Convergence.antt =====
-- A router that knows a way is started, and tells it to the router that it is linked to.
use mathlib.Core.List.Memᴰ.{head}
use mathlib.Core.Option.{some-injective}
use cn_project.Base.{
  String, ◌≡◌, ◌⊎◌, ◌++◌, refl, subst, inl, inr, Option, none, some, [], ◌∷◌, arith,
}
use cn_project.Base.Dict.{Dict, lookup, insert}
use cn_project.Message.{Message}
use cn_project.Nodes.Node.{RoutingTableEntry, log, link_cost, update_routing_table}
use cn_project.Nodes.Router
use cn_project.Nodes.Router.{Router}
use cn_project.Nodes.Table.{cost_to}
use cn_project.Network.{Network, print}
use cn_project.Network.Threads.{all_up}
use cn_project.Network.Running.{run, start_nodes, router_call, router_turn, perform, deliver_to}
use cn_project.Routing.Steps.{Reach, here, next, starts, router_calls, router_turns}
use cn_project.Convergence.{KeepsMessages, IsBelow, IsTold}
use cn_project.Convergence.World.{IsToldIn}
use cn_project.Convergence.Steps.{reached_ways}
use cn_project.Tests.Values.{env}
use cn_project.Tests.Nodes.{Q, queue, router_env}
use cn_project.Tests.Routing.{Holds, taken_first, laws, link_to, router_at, two_routers}

pub Holds-enqueue : (m : Option Message) (q : Q) → Holds m (q ++ (m ∷ []))
Holds-enqueue m [] = inl refl
Holds-enqueue m (x ∷ q) = inr (Holds-enqueue m q)

pub Holds-append : (m x : Option Message) (q : Q) → Holds m q → Holds m (q ++ (x ∷ []))
Holds-append m x [] h = elim h [ ]
Holds-append m x (y ∷ q) (inl e) = inl e
Holds-append m x (y ∷ q) (inr h) = inr (Holds-append m x q h)

pub Holds-dequeue :
    (m x : Option Message) (q rest : Q)
    → queue.wait_dequeue q ≡ some (x, rest)
    → Holds m q
    → (m ≡ x) ⊎ Holds m rest
Holds-dequeue m x q rest e h = subst (Holds m) (taken_first x q rest e) h

abbrev pub keeps : KeepsMessages queue laws
keeps = record {
  enqueue_holds = Holds-enqueue;
  enqueue_keeps = Holds-append;
  try_enqueue_keeps = Holds-append;
  dequeue_keeps = Holds-dequeue;
}

abbrev with_table : Router Q → Dict RoutingTableEntry → Router Q
with_table r table = record r { node = record r.node { routing_table = table } }

abbrev hears : Router Q
hears = with_table (router_at "r" "s") []

abbrev tells : Router Q
tells =
    with_table (router_at "s" "r")
      (("h", record { destination = "h"; cost = 3; next_hop = "h" }) ∷ [])

-- "s" knows a way of cost 3 to "h", and has a link of cost 7 to "r".
abbrev telling : Network Q
telling = record two_routers { routers = ("r", hears) ∷ ("s", tells) ∷ [] }

abbrev pub or_else : {A : Type 0} → A → Option A → A
or_else a none = a
or_else a (some x) = x

abbrev make_call : Network Q → Network Q
make_call n = router_call queue env router_env "s" n

abbrev told : Network Q
told =
    make_call (make_call (make_call (make_call (make_call (all_up queue env router_env telling)))))

abbrev heard : Network Q
heard = or_else told (router_turn queue env router_env "r" told)

abbrev pub router_of : String → Network Q → Router Q
router_of addr n = or_else (router_at addr addr) (lookup addr n.routers)

telling-IsTold : IsToldIn queue laws keeps "s" "r" (link_to "s") none telling.routers
unfolding lookup
telling-IsTold x y found_x found_y =
    subst (λ a. Told a y) (some-injective tells x found_x)
      (subst (Told tells) (some-injective hears y found_y) start)
  where
    Told : Router Q → Router Q → Type 0
    Told = IsTold queue laws "s" "r" (link_to "s") none

    start : Told tells hears
    start = record {
      addressed = refl;
      peer = head refl;
      linked = refl;
      going = refl;
      unlimited = refl;
      told = λ dest cost on h. ground (arith, on);
    }

reached : Reach queue telling heard
unfolding lookup insert run start_nodes Router.start_node Router.broad_cast_table
    Router.broad_cast_new_link Router.announce_to_hosts Router.announce_to_routers log router_call
    perform deliver_to Router.take_message router_turn Router.turn Router.handle_new_message
    link_cost Router.update_routing_table update_routing_table print
reached =
    next
      (next
        (next
          (next
            (next (next (next here (starts env router_env refl)) (router_calls env router_env "s"))
              (router_calls env router_env "s"))
            (router_calls env router_env "s"))
          (router_calls env router_env "s"))
        (router_calls env router_env "s"))
      (router_turns env router_env "r" refl)

reached_ways_example : IsBelow "h" 10 (router_of "r" heard).node
unfolding lookup insert run start_nodes Router.start_node Router.broad_cast_table
    Router.broad_cast_new_link Router.announce_to_hosts Router.announce_to_routers log router_call
    perform deliver_to Router.take_message router_turn Router.turn Router.handle_new_message
    link_cost Router.update_routing_table update_routing_table print cost_to
reached_ways_example =
    reached_ways queue laws keeps "s" "r" (link_to "s") {n = telling} {n' = heard}
      (router_of "s" heard) (router_of "r" heard) "h" 3 telling-IsTold reached refl refl refl refl
      (λ m h. h) refl
