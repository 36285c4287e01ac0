-- ===== src/Detection/Starts.antt =====
-- The start of all nodes keeps the account.
use cn_project.Base.{ℕ, String, ◌+◌, ◌≡◌, refl, [], ◌∷◌, arith, inl, inr, u64_max}
use cn_project.Base.Dict.{Dict, AllEntries, AllEntries-map_values, map_values, found_in_mapped}
use cn_project.Tcp.{Env, ConnectionInterface, TcpConnection, connection_interface}
use cn_project.Controller.{set_start_alg_time}
use cn_project.Nodes.Queue.{MessageQueue, QueueLaws}
use cn_project.Nodes.Node.{AbstractNode}
use cn_project.Nodes.Router
use cn_project.Nodes.Router.{Router, RouterEnv, Turn, waiting, fault, going, left}
use cn_project.Nodes.Host
use cn_project.Nodes.Host.{Host}
use cn_project.Network.{Network}
use cn_project.Network.Threads.{all_up}
use cn_project.Base.Traverse.{or_else}
use cn_project.Detection.{CountsMessages, IsOpen, IsAccountedBut, sum_of, owed, uncounted}
use cn_project.Detection.Routers.{router_start-Balanced}
use cn_project.Detection.Hosts.{host_start-Balanced}
use cn_project.Detection.World.{IsIn, GoodRouter, GoodHost}

-- Sums over all entries of a map, before and after a change of every entry.
module _ {A : Type 0} (Good : A → Type 0) (f g : A → ℕ) (change : A → A)
    (even : (a : A) → Good a → f (change a) + g a ≡ f a + g (change a)) where
  sum_of-map_values :
      (map : Dict A)
      → AllEntries (λ _ a. Good a) map
      → sum_of f (map_values change map) + sum_of g map
        ≡ sum_of f map + sum_of g (map_values change map)
  sum_of-map_values [] all = refl
  sum_of-map_values (entry ∷ rest) (first, all) =
      omega (arith, even entry.1 first, sum_of-map_values rest all)

map_values-IsIn :
    {A : Type 0} (change : A → A) (at : String) (map : Dict A)
    → IsIn at map
    → IsIn at (map_values change map)
map_values-IsIn change at map (a, found) = (change a, found_in_mapped change map at a found)

module _ (Here : String → Type 0) {Q : Type 0} (queue : MessageQueue Q) (laws : QueueLaws queue)
    (counts : CountsMessages queue laws) where
  abbrev Accounted : Network Q → Type 0
  Accounted = IsAccountedBut Here queue laws counts 0 0

  abbrev owes : AbstractNode Q → ℕ
  owes = owed queue laws counts

  abbrev hides : AbstractNode Q → ℕ
  hides = uncounted

  pub run-IsAccounted :
      (env : Env) (renv : RouterEnv) (n : Network Q)
      → Accounted n
      → Accounted (all_up queue env renv n)
  unfolding set_start_alg_time Router.start_node
  run-IsAccounted env renv n net = record {
    routers =
        AllEntries-map_values (GoodRouter Here queue laws counts) _ Router.start_node n.routers
          (λ at r (opens, limit).
            ((router_start-Balanced Here queue laws counts r).opened opens, limit))
          net.routers;
    hosts =
        AllEntries-map_values (GoodHost Here queue laws counts) _ start_host n.hosts
          (λ at h opens. (host_start-Balanced Here queue laws counts tcp h).opened opens) net.hosts;
    found = λ at is_here. elim (net.found at is_here) [
      | inl router ↦ inl (map_values-IsIn Router.start_node at n.routers router)
      | inr host ↦ inr (map_values-IsIn start_host at n.hosts host)
    ];
    accounted = omega (
      arith,
      net.accounted,
      sum_of-map_values (λ (r : Router Q). IsOpen Here r.node × (r.fifo_size ≡ u64_max))
          (λ r. owes r.node) (λ r. hides r.node) Router.start_node
          (λ r (opens, limit).
            omega (arith, (router_start-Balanced Here queue laws counts r).balance opens))
          n.routers net.routers,
      sum_of-map_values (λ (h : Host Q). IsOpen Here h.node) (λ h. owes h.node) (λ h. hides h.node)
          start_host
          (λ h opens.
            omega (arith, (host_start-Balanced Here queue laws counts tcp h).balance opens))
          n.hosts net.hosts,
    );
  }
    where
      tcp : ConnectionInterface TcpConnection
      tcp = connection_interface (record env { packet_size = n.packet_size })

      start_host : Host Q → Host Q
      start_host h = or_else h (Host.start_node tcp h)
