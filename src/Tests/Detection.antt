-- ===== src/Tests/Detection.antt =====
-- Two linked routers are started, and the program waits for them to settle.
use cn_project.Base.{
  ℕ, zero, suc, String, ◌+◌, ◌%◌, ◌^◌, ◌≡◌, ◌⊎◌, ◌≤◌, ◌<◌, ◌++◌, refl, ap, inl, inr, Option, none,
  some, [], ◌∷◌, arith,
}
use cn_project.Base.Dict.{lookup, insert}
use cn_project.Message.{Message}
use cn_project.Controller.{
  set_start_alg_time, inc_converge_counter, dec_converge_counter, inc_running_node_counter,
}
use cn_project.Nodes.Node.{RoutingTableEntry, log, link_cost, update_routing_table}
use cn_project.Nodes.Router
use cn_project.Network.{Network, print}
use cn_project.Network.Threads.{all_up}
use cn_project.Network.Running.{
  run, start_nodes, router_call, router_turn, perform, deliver_to, wait_for_converge,
}
use cn_project.Routing.{Walk}
use cn_project.Routing.Steps.{Reach, here, next, starts, router_turns}
use cn_project.Convergence.Cheapest.{edge}
use cn_project.Detection.{CountsMessages, IsAccountedBut, routing_in, total, uncounted, owed}
use cn_project.Detection.Steps.{reached_counter}
use cn_project.Detection.Waiting.{IsQuietRound, paused, reported, wait_for_converge_ways}
use cn_project.Tests.Values.{env}
use cn_project.Tests.Nodes.{Q, queue, router_env}
use cn_project.Tests.Routing.{
  Holds, taken_first, laws, topology, two_way, two_routers, two_routers-IsSoundNetwork, link_to,
}
use cn_project.Tests.Convergence.{keeps, or_else, router_of}
use cn_project.Tests.Cheapest.{
  make, makes, hear, told, starts_up, told-Reach, two_routers-IsLinkedUp,
}

abbrev count : Q → ℕ
count [] = 0
count (m ∷ q) = routing_in m + count q

count-enqueue : (m : Option Message) (q : Q) → count (q ++ (m ∷ [])) ≡ count q + routing_in m
count-enqueue m [] = omega arith
count-enqueue m (x ∷ q) = omega (arith, count-enqueue m q)

count-none : (q : Q) → count q ≡ 0 → (x : Option Message) → routing_in x ≡ 1 → Holds x q → ⊥
count-none [] empty x one h = h
count-none (y ∷ q) empty x one (inl e) = omega (arith, empty, one, ap routing_in e)
count-none (y ∷ q) empty x one (inr h) = count-none q (omega (arith, empty)) x one h

abbrev counts : CountsMessages queue laws
counts = record {
  waiting = count;
  enqueued = count-enqueue;
  dequeued = λ x q rest e. omega (arith, ap count (taken_first x q rest e));
  none_held = count-none;
}

abbrev Here : String → Type 0
Here a = (a ≡ "r") ⊎ (a ≡ "s")

two_routers-IsAccounted : IsAccountedBut Here queue laws counts 0 0 two_routers
unfolding lookup
two_routers-IsAccounted = record {
  routers = (
    (record { going = refl; peered = (inr refl, tt); calling = tt }, refl),
    ((record { going = refl; peered = (inl refl, tt); calling = tt }, refl), tt),
  );
  hosts = tt;
  found = λ at is_here. elim is_here [
    | inl is_r ↦ inl (_, ap (λ a. lookup a two_routers.routers) is_r)
    | inr is_s ↦ inl (_, ap (λ a. lookup a two_routers.routers) is_s)
  ];
  accounted = refl;
}

-- Two messages wait, and the counter is two.
reached_counter_example :
    (told.controller.alg_converge_counter + total uncounted told) % 2 ^ 64
    ≡ total (owed queue laws counts) told % 2 ^ 64
reached_counter_example =
    reached_counter Here queue laws counts {n = two_routers} {n' = told} two_routers-IsAccounted
      told-Reach

told_counter :
    (told.controller.alg_converge_counter ≡ 2) × (total (owed queue laws counts) told ≡ 2)
unfolding lookup insert run start_nodes Router.start_node Router.broad_cast_table
    Router.broad_cast_new_link Router.announce_to_hosts Router.announce_to_routers log router_call
    perform deliver_to Router.take_message print set_start_alg_time inc_converge_counter
    inc_running_node_counter
told_counter = (refl, refl)

-- What the routers do in one round: both look for a message, and make their calls.
abbrev round : Network Q → Network Q
round n = make 6 "s" (make 6 "r" (hear "s" (hear "r" n)))

abbrev started : Network Q
started = all_up queue env router_env two_routers

hear-Reach : (at : String) {n n' : Network Q} → Reach queue n n' → Reach queue n (hear at n')
hear-Reach at {n} {n'} r = turned _ refl
  where
    turned :
        (o : Option (Network Q))
        → router_turn queue env router_env at n' ≡ o
        → Reach queue n (or_else n' o)
    turned none e = r
    turned (some m) e = next r (router_turns env router_env at e)

round-Reach : (n : Network Q) → Reach queue n (round n)
round-Reach n = makes 6 "s" (makes 6 "r" (hear-Reach "s" (hear-Reach "r" here)))

abbrev counter : ℕ → ℕ
counter i = (paused queue laws counts round i started).controller.alg_converge_counter

counters : (counter 1 ≡ 2) × (counter 2 ≡ 2) × (counter 3 ≡ 0)
unfolding lookup insert run start_nodes Router.start_node Router.broad_cast_table
    Router.broad_cast_new_link Router.announce_to_hosts Router.announce_to_routers log router_call
    perform deliver_to Router.take_message router_turn Router.turn Router.handle_new_message
    link_cost Router.update_routing_table update_routing_table print set_start_alg_time
    inc_converge_counter dec_converge_counter inc_running_node_counter
counters = (refl, refl, refl)

not_before : (i : ℕ) → i < 2 → counter (suc i) ≡ 0 → ⊥
not_before zero within read = omega (arith, counters.0, read)
not_before (suc zero) within read = omega (arith, counters.1, read)
not_before (suc (suc i)) within read = omega (arith, within)

at_the_end : IsQuietRound queue laws counts (paused queue laws counts round 3 started)
unfolding lookup insert run start_nodes Router.start_node Router.broad_cast_table
    Router.broad_cast_new_link Router.announce_to_hosts Router.announce_to_routers log router_call
    perform deliver_to Router.take_message router_turn Router.turn Router.handle_new_message
    link_cost Router.update_routing_table update_routing_table print
at_the_end = record {
  running = (refl, (refl, tt));
  called = record { routers = (refl, (refl, tt)); hosts = tt };
  few = omega arith;
}

-- The third of five readings is the first zero.
wait_for_converge_ways_example :
    (wait_for_converge queue env router_env 5 round started
      ≡ some (reported queue laws counts (paused queue laws counts round 3 started)))
    × ((e : RoutingTableEntry) × (lookup "s"
            (router_of "r" (paused queue laws counts round 3 started)).node.routing_table
          ≡ some e)
        × Walk topology "r" "s" e.cost
        × (e.cost ≤ 7))
unfolding lookup insert run start_nodes Router.start_node Router.broad_cast_table
    Router.broad_cast_new_link Router.announce_to_hosts Router.announce_to_routers log router_call
    perform deliver_to Router.take_message router_turn Router.turn Router.handle_new_message
    link_cost Router.update_routing_table update_routing_table print
wait_for_converge_ways_example =
    wait_for_converge_ways queue laws counts topology keeps Here two_way env router_env two_routers
      started round 5 2 "r" "s" (router_of "r" (paused queue laws counts round 3 started)) 7
      two_routers-IsSoundNetwork two_routers-IsLinkedUp two_routers-IsAccounted
      (next here (starts env router_env starts_up)) round-Reach (omega arith) counters.2 not_before
      at_the_end refl (edge (link_to "s") refl)
