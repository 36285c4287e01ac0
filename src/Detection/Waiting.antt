-- ===== src/Detection/Waiting.antt =====
-- `waitForConverge` and the routing tables at its end.
use cn_project.Base.{
  ℕ, zero, suc, String, ◌+◌, ◌-◌, ◌%◌, ◌^◌, ◌≤◌, ◌<◌, ◌≡◌, ap, ◌∙◌, Bool, true, false, Option, some,
  [], arith, inl, inr, Bool-cases, if◌then◌else◌, ==_iff, ◌==◌,
}
use cn_project.Base.Dict.{lookup, AllEntries, AllEntries-lookup}
use cn_project.Tcp.{Env}
use cn_project.Nodes.Queue.{MessageQueue, QueueLaws}
use cn_project.Nodes.Node.{RoutingTableEntry, convergence_time}
use cn_project.Nodes.Router.{Router, RouterEnv}
use cn_project.Network.{Network, print}
use cn_project.Network.Running.{wait_for_converge}
use cn_project.Routing.{Topology, IsTwoWay, Walk}
use cn_project.Routing.World.{IsSoundNetwork}
use cn_project.Routing.Steps.{Reach, Reach-trans}
use cn_project.Convergence.{KeepsMessages}
use cn_project.Convergence.Cheapest.{IsLinkedUp, IsAtRest, RouterWalk, cheapest_ways}
use cn_project.Detection.{CountsMessages, IsAccountedBut}
use cn_project.Detection.Empty.{in_queues, HasCalled, nothing_waits}

module _ {Q : Type 0} (queue : MessageQueue Q) (laws : QueueLaws queue)
    (counts : CountsMessages queue laws) where
  -- The state after so many pauses.
  abbrev pub paused : (Network Q → Network Q) → ℕ → Network Q → Network Q
  paused pause zero n = n
  paused pause (suc k) n = paused pause k (pause n)

  abbrev pub ReadsZero : Network Q → Type 0
  ReadsZero n = n.controller.alg_converge_counter ≡ 0

  -- The time from the start to the last message is printed.
  abbrev pub reported : Network Q → Network Q
  reported n =
      print (convergence_time ((n.controller.end_time + 2 ^ 64 - n.controller.start_time) % 2 ^ 64))
        n

  module _ (env : Env) (renv : RouterEnv) (pause : Network Q → Network Q) where
    later : ℕ → Network Q → Option (Network Q)
    later rounds n = wait_for_converge queue env renv rounds pause (pause n)

    read_on :
        (rounds : ℕ) (n : Network Q) (b : Bool)
        → ((pause n).controller.alg_converge_counter == 0) ≡ b
        → wait_for_converge queue env renv (suc rounds) pause n
          ≡ (if b then some (reported (pause n)) else later rounds n)
    unfolding wait_for_converge later
    read_on rounds n b read = ap (λ b. if b then some (reported (pause n)) else later rounds n) read

    -- The wait ends at the first round that reads zero.
    wait_for_converge_first :
        (rounds j : ℕ) (n : Network Q)
        → j < rounds
        → ReadsZero (paused pause (suc j) n)
        → ((i : ℕ) → i < j → ReadsZero (paused pause (suc i) n) → ⊥)
        → wait_for_converge queue env renv rounds pause n ≡ some (reported (paused pause (suc j) n))
    unfolding later
    wait_for_converge_first zero j n within read before = absurd (omega (arith, within))
    wait_for_converge_first (suc rounds) zero n within read before =
        read_on rounds n true ((==_iff _ 0).1 read)
    wait_for_converge_first (suc rounds) (suc j) n within read before =
        elim (Bool-cases ((pause n).controller.alg_converge_counter == 0)) [
          | inl ends ↦ absurd (before 0 (omega arith) ((==_iff _ 0).0 ends))
          | inr goes ↦
              read_on rounds n false goes
              ∙ wait_for_converge_first rounds j (pause n) (omega (arith, within)) read
                  (λ i le. before (suc i) (omega (arith, le)))
        ]

  -- All routers run, all calls are made, and fewer than 2^64 routing messages wait.
  pub record IsQuietRound (n : Network Q) : Type 0 where
    pub running : AllEntries (λ _ (r : Router Q). r.node.is_running ≡ true) n.routers
    pub called : HasCalled queue laws counts n
    pub few : in_queues queue laws counts n < 2 ^ 64

  paused-Reach :
      (pause : Network Q → Network Q)
      → ((m : Network Q) → Reach queue m (pause m))
      → (k : ℕ) (n₀ n : Network Q) → Reach queue n₀ n
      → Reach queue n₀ (paused pause k n)
  paused-Reach pause steps zero n₀ n r = r
  paused-Reach pause steps (suc k) n₀ n r =
      paused-Reach pause steps k n₀ (pause n) (Reach-trans queue r (steps n))

  module _ (t : Topology) (keeps : KeepsMessages queue laws) where
    quiet-IsAtRest :
        (Here : String → Type 0) {n n' : Network Q}
        → IsAccountedBut Here queue laws counts 0 0 n
        → Reach queue n n'
        → IsQuietRound n'
        → ReadsZero n'
        → IsAtRest queue laws keeps t n'.routers
    quiet-IsAtRest Here {n} {n'} s reach quiet read = record {
      running = λ at r found.
          AllEntries-lookup (λ _ (r : Router Q). r.node.is_running ≡ true) at r n'.routers found
            quiet.running;
      called = λ at r found.
          AllEntries-lookup (λ _ (r : Router Q). r.node.calls ≡ []) at r n'.routers found
            quiet.called.routers;
      empty = λ at r found.
          nothing_waits queue laws counts Here at r s reach quiet.called quiet.few read found;
    }

    -- A network with a fixed two-way topology is sound and linked up at first, and its counter
    -- accounts for the routing messages. After steps of its nodes in any order `waitForConverge` is
    -- called, which reads the counter at most so many times, and while it sleeps between two
    -- readings, all nodes make steps in any order. If one of the readings is zero, and at the first
    -- one that is all routers run, all nodes have made their calls and fewer than 2^64 routing
    -- messages wait, then it returns with the state at that reading, the time printed, and for each
    -- walk over routers from a router to a destination, of a cost below 2^64, that router has an
    -- entry with the cost of a walk that is no more than the cost of that one.
    pub wait_for_converge_ways :
        (Here : String → Type 0) (two_way : IsTwoWay t) (env : Env) (renv : RouterEnv)
        (n₀ n : Network Q) (pause : Network Q → Network Q) (rounds j : ℕ) (at dest : String)
        (r : Router Q) (w : ℕ)
        → IsSoundNetwork t queue laws two_way n₀
        → IsLinkedUp queue laws keeps t n₀.routers
        → IsAccountedBut Here queue laws counts 0 0 n₀
        → Reach queue n₀ n
        → ((m : Network Q) → Reach queue m (pause m))
        → j < rounds
        → ReadsZero (paused pause (suc j) n)
        → ((i : ℕ) → i < j → ReadsZero (paused pause (suc i) n) → ⊥)
        → IsQuietRound (paused pause (suc j) n)
        → lookup at (paused pause (suc j) n).routers ≡ some r
        → RouterWalk t (paused pause (suc j) n).routers at dest w
        → (wait_for_converge queue env renv rounds pause n
            ≡ some (reported (paused pause (suc j) n)))
          × ((e : RoutingTableEntry) × (lookup dest r.node.routing_table ≡ some e)
              × Walk t at dest e.cost
              × (e.cost ≤ w))
    wait_for_converge_ways Here two_way env renv n₀ n pause rounds j at dest r w sound up accounted
          reach steps within read before quiet found walk =
        let reached = paused-Reach pause steps (suc j) n₀ n reach in
        (
          wait_for_converge_first env renv pause rounds j n within read before,
          cheapest_ways queue laws keeps t two_way at dest r w sound up reached
              (quiet-IsAtRest Here accounted reached quiet read) found walk,
        )
