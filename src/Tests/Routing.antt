-- ===== src/Tests/Routing.antt =====
-- A network of two routers with a link of cost 7 between them, and its routes once it is started.
use cn_project.Base.{
  String, ◌≡◌, ◌⊎◌, refl, sym, ap, subst, inl, inr, false, Option, some, List, [], ◌∷◌, ◌++◌, All,
  Bool-cases, str_eq, eq_iff, u64_max, if◌then◌else◌,
}
use mathlib.Core.Option.{some-injective, none-ne-some}
use cn_project.Base.Dict.{lookup}
use cn_project.Message.{Message}
use cn_project.Nodes.Queue.{QueueLaws}
use cn_project.Nodes.Node.{AbstractNode, RoutingTableEntry, Link, log}
use cn_project.Nodes.Router
use cn_project.Nodes.Router.{Router}
use cn_project.Network.{Network}
use cn_project.Network.Threads.{all_up}
use cn_project.Network.Running.{run, start_nodes}
use cn_project.Routing.{Topology, IsTwoWay, HasLink, IsRoute, Walk, IsSound}
use cn_project.Routing.World.{IsSoundNetwork}
use cn_project.Routing.Steps.{here, next, starts, reached_routes}
use cn_project.Tests.Values.{env}
use cn_project.Tests.Nodes.{Q, queue, router_env, node, network}

-- A message that stands in a list.
abbrev pub Holds : Option Message → Q → Type 0
Holds m [] = ⊥
Holds m (x ∷ q) = (m ≡ x) ⊎ Holds m q

pub Holds-last : (m x : Option Message) (q : Q) → Holds m (q ++ (x ∷ [])) → (m ≡ x) ⊎ Holds m q
Holds-last m x [] (inl e) = inl e
Holds-last m x [] (inr h) = elim h [ ]
Holds-last m x (y ∷ q) (inl e) = inr (inl e)
Holds-last m x (y ∷ q) (inr h) = elim (Holds-last m x q h) [
  | inl e ↦ inl e
  | inr old ↦ inr (inr old)
]

pub taken_first :
    (x : Option Message) (q rest : Q) → queue.wait_dequeue q ≡ some (x, rest) → q ≡ x ∷ rest
taken_first x [] rest e = absurd (none-ne-some _ e)
taken_first x (y ∷ q) rest e = ap (λ (p : Option Message × Q). p.0 ∷ p.1) (some-injective _ _ e)

abbrev pub laws : QueueLaws queue
laws = record {
  Holds = Holds;
  new_only = λ m h. h;
  with_capacity_only = λ m n h. h;
  enqueue_only = Holds-last;
  try_enqueue_only = Holds-last;
  dequeue_holds = λ x q rest e. subst (Holds x) (sym (taken_first x q rest e)) (inl refl);
  dequeue_only = λ m x q rest e h. subst (Holds m) (sym (taken_first x q rest e)) (inr h);
}

abbrev pub link_to : String → Link
link_to addr = record { node = some addr; cost = 7 }

abbrev pub other_of : String → List String
other_of x = if str_eq x "r" then "s" ∷ [] else if str_eq x "s" then "r" ∷ [] else []

abbrev pub topology : Topology
topology = record {
  links = λ x.
      if str_eq x "r"
      then ("s", link_to "s") ∷ []
      else if str_eq x "s"
      then ("r", link_to "r") ∷ []
      else [];
  peers = other_of;
}

pub two_way : IsTwoWay topology
unfolding lookup
two_way x = elim (Bool-cases (str_eq x "r")) [
  | inl is_r ↦
      subst (λ y. All (λ z. HasLink topology z y) (other_of y)) (sym ((eq_iff x "r").0 is_r))
        ((link_to "r", refl), tt)
  | inr not_r ↦ elim (Bool-cases (str_eq x "s")) [
    | inl is_s ↦
        subst (λ y. All (λ z. HasLink topology z y) (other_of y)) (sym ((eq_iff x "s").0 is_s))
          ((link_to "s", refl), tt)
    | inr not_s ↦ subst (All (λ z. HasLink topology z x)) (sym (nobody not_r not_s)) tt
  ]
]
  where
    nobody : str_eq x "r" ≡ false → str_eq x "s" ≡ false → other_of x ≡ []
    nobody a b = rw (a, b) refl

abbrev pub node_at : String → String → AbstractNode Q
node_at addr other = record node {
  to_routers_links = (other, record { router = other; cost = 7 }) ∷ [];
  links = (other, link_to other) ∷ [];
  routing_table = (other, record { destination = other; cost = 7; next_hop = other }) ∷ [];
  addr = addr;
  is_running = false;
}

pub node_at-IsSound :
    (addr other : String)
    → topology.links addr ≡ (other, link_to other) ∷ []
    → topology.peers addr ≡ other ∷ []
    → lookup other (topology.links addr) ≡ some (link_to other)
    → IsSound topology queue laws addr (node_at addr other)
node_at-IsSound addr other links peers found = record {
  addressed = refl;
  linked = sym links;
  peered = sym peers;
  table = (record { first = link_to other; linked = found; rest = inl (refl, refl) }, tt);
  calling = tt;
  queued = λ m h. absurd h;
}

abbrev pub router_at : String → String → Router Q
router_at addr other = record { node = node_at addr other; delay = 0; fifo_size = u64_max }

abbrev pub two_routers : Network Q
two_routers = record network {
  routers = ("r", router_at "r" "s") ∷ ("s", router_at "s" "r") ∷ [];
  hosts = [];
}

pub two_routers-IsSoundNetwork : IsSoundNetwork topology queue laws two_way two_routers
unfolding lookup
two_routers-IsSoundNetwork = record {
  routers = (node_at-IsSound "r" "s" refl refl refl, (node_at-IsSound "s" "r" refl refl refl, tt));
  hosts = tt;
}

abbrev entry : RoutingTableEntry
entry = record { destination = "s"; cost = 7; next_hop = "s" }

reached_routes_example : IsRoute topology "r" "s" entry × Walk topology "r" "s" 7
unfolding lookup run start_nodes Router.start_node Router.broad_cast_table
    Router.broad_cast_new_link Router.announce_to_hosts Router.announce_to_routers log
reached_routes_example =
    reached_routes queue topology laws two_way {n = two_routers}
      {n' = all_up queue env router_env two_routers} "r" (Router.start_node (router_at "r" "s")) "s"
      entry two_routers-IsSoundNetwork (next here (starts env router_env refl)) refl refl
