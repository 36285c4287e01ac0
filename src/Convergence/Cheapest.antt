-- ===== src/Convergence/Cheapest.antt =====
-- The ways in a network at rest, against the walks over routers.
use cn_project.Base.{
  ℕ, String, ◌+◌, ◌<◌, ◌≤◌, ◌≡◌, sym, subst, none, some, [], true, add64, u64_mod, arith,
}
use cn_project.Base.Dict.{Dict, lookup}
use cn_project.Message.{RoutingMessage, routing}
use cn_project.Nodes.Queue.{MessageQueue, QueueLaws}
use cn_project.Nodes.Node.{Link, RoutingTableEntry}
use cn_project.Nodes.Router.{Router}
use cn_project.Network.{Network}
use cn_project.Routing.{Topology, IsTwoWay, Walk}
use cn_project.Routing.World.{IsSoundNetwork}
use cn_project.Routing.Steps.{Reach, reached_routes}
use cn_project.Convergence.{KeepsMessages, IsBelow}
use cn_project.Convergence.Start.{cost_to_entry}
use cn_project.Convergence.World.{IsBelowIn, IsToldIn}
use cn_project.Convergence.Steps.{reached_ways, Reach-IsBelowIn}

-- A walk on which every node between the ends is a router, and whose cost stays below 2^64.
pub data RouterWalk {Q : Type 0} (t : Topology) (rs : Dict (Router Q))
    : String → String → ℕ → Type 0 where
  edge : {x y : String} (l : Link) → lookup y (t.links x) ≡ some l → RouterWalk t rs x y l.cost
  onward :
      {x y z : String} {k : ℕ} (l : Link) (r : Router Q)
      → lookup y (t.links x) ≡ some l
      → lookup y rs ≡ some r
      → k + l.cost < u64_mod
      → RouterWalk t rs y z k
      → RouterWalk t rs x z (k + l.cost)

module _ {Q : Type 0} (queue : MessageQueue Q) (laws : QueueLaws queue)
    (keeps : KeepsMessages queue laws) (t : Topology) where
  -- Before the start: each router knows the ways over its own links, and of linked routers each is
  -- a neighbour of the other, which is not to stop and has no limit.
  pub record IsLinkedUp (rs : Dict (Router Q)) : Type 0 where
    pub direct :
        (x y : String) (l : Link)
        → lookup y (t.links x) ≡ some l
        → IsBelowIn queue laws keeps x y l.cost rs
    pub told :
        (sender receiver : String) (l : Link)
        → lookup sender (t.links receiver) ≡ some l
        → IsToldIn queue laws keeps sender receiver l none rs

  -- Every router runs, has made its calls, and has no routing message in its queue.
  pub record IsAtRest (rs : Dict (Router Q)) : Type 0 where
    pub running : (at : String) (r : Router Q) → lookup at rs ≡ some r → r.node.is_running ≡ true
    pub called : (at : String) (r : Router Q) → lookup at rs ≡ some r → r.node.calls ≡ []
    pub empty :
        (at : String) (r : Router Q)
        → lookup at rs ≡ some r
        → (m : RoutingMessage) → laws.Holds (some (routing m)) r.node.node_queue
        → ⊥

  add64_le : (c k b w : ℕ) → c ≤ k → k + w < u64_mod → b ≤ add64 c w → b ≤ k + w
  add64_le c k b w le fits below = ground (arith, le, fits, below)

  walk-IsBelow :
      {n n' : Network Q} {x dest : String} {k : ℕ} (r : Router Q)
      → IsLinkedUp n.routers
      → Reach queue n n'
      → IsAtRest n'.routers
      → RouterWalk t n'.routers x dest k
      → lookup x n'.routers ≡ some r
      → IsBelow dest k r.node
  walk-IsBelow {x = x} {dest = dest} r up reach rest (edge l linked) found =
      Reach-IsBelowIn queue laws keeps x dest l.cost reach (up.direct x dest l linked) r found
  walk-IsBelow {x = x} {dest = dest} r up reach rest
        (onward {y = y} {k = k} l s linked at_y fits walk) found =
      let (c, known, le) = walk-IsBelow s up reach rest walk at_y in
      let (b, is, below) =
        reached_ways queue laws keeps y x l s r dest c (up.told y x l linked) reach at_y found
          (rest.running y s at_y) (rest.called y s at_y) (rest.empty x r found) known in
      (b, is, add64_le c k b l.cost le fits below)

  -- A network with a fixed two-way topology is sound at first, each router knows the ways over its
  -- own links, and of linked routers each is a neighbour of the other and neither is to stop or has
  -- a limit. In every state that it reaches by starts, turns, calls, timers and commands of its nodes
  -- in any order, and in which all routers run, have made their calls and have no routing message
  -- in their queues: if there is a walk from a router to a destination on which every node between is
  -- a router and whose cost stays below 2^64, then the router has an entry for the destination, with
  -- the cost of a walk (modulo 2^64) that is no more than the cost of that one.
  pub cheapest_ways :
      (two_way : IsTwoWay t)
      → {n n' : Network Q} (at dest : String) (r : Router Q) (k : ℕ)
      → IsSoundNetwork t queue laws two_way n
      → IsLinkedUp n.routers
      → Reach queue n n'
      → IsAtRest n'.routers
      → lookup at n'.routers ≡ some r
      → RouterWalk t n'.routers at dest k
      → (e : RoutingTableEntry) × (lookup dest r.node.routing_table ≡ some e)
        × Walk t at dest e.cost
        × (e.cost ≤ k)
  cheapest_ways two_way at dest r k sound up reach rest found walk =
      let (c, known, le) = walk-IsBelow r up reach rest walk found in
      let (e, entry, same) = cost_to_entry dest c r.node known in
      (
        e,
        entry,
        (reached_routes queue t laws two_way at r dest e sound reach found entry).1,
        subst (λ b. b ≤ k) (sym same) le,
      )
