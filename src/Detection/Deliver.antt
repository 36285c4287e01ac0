-- ===== src/Detection/Deliver.antt =====
-- The delivery of a message to a node of the network.
use mathlib.Core.Option.{none-ne-some}
use cn_project.Base.{
  ℕ, String, ◌≡◌, ◌⊎◌, ◌∙◌, refl, sym, subst, Option, none, some, arith, inl, inr,
}
use cn_project.Base.Dict.{lookup, insert}
use cn_project.Message.{Message}
use cn_project.Tcp.{Env}
use cn_project.Nodes.Queue.{MessageQueue, QueueLaws}
use cn_project.Nodes.Node.{AbstractNode, take_message}
use cn_project.Nodes.Router
use cn_project.Nodes.Router.{Router, RouterEnv}
use cn_project.Nodes.Host.{Host}
use cn_project.Network.{Network}
use cn_project.Network.Running.{deliver_to}
use cn_project.Nodes.Limits.{take_message-limit}
use cn_project.Detection.{CountsMessages, IsBalancedBy, IsAccountedBut, routing_in}
use cn_project.Detection.Arrivals.{router_take-By, node_take-By}
use cn_project.Detection.World.{IsExchange, IsIn, router_at, host_at, with_router, with_host}

module _ (Here : String → Type 0) {Q : Type 0} (queue : MessageQueue Q) (laws : QueueLaws queue)
    (counts : CountsMessages queue laws) where
  abbrev But : ℕ → ℕ → Network Q → Type 0
  But = IsAccountedBut Here queue laws counts

  -- What a balanced node gains, it no longer owes elsewhere.
  pub gained-IsExchange :
      (gain : ℕ) (n n' : AbstractNode Q)
      → IsBalancedBy Here queue laws counts gain n n'
      → IsExchange Here queue laws counts gain 0 0 0 n n'
  gained-IsExchange gain n n' b = record {
    opened = b.opened;
    exchanged = λ o. omega (arith, b.balance o);
  }

  module _ (env : Env) (renv : RouterEnv) where
    pub deliver_to-IsAccounted :
        (at : String) (m : Message) (n : Network Q)
        → (IsIn at n.routers ⊎ IsIn at n.hosts) ⊎ (routing_in (some m) ≡ 0)
        → But (routing_in (some m)) 0 n
        → But 0 0 (deliver_to queue env renv at m n)
    unfolding deliver_to
    deliver_to-IsAccounted at m n is_in net = to_router (lookup at n.routers) refl
      where
        owes : ℕ
        owes = routing_in (some m)

        to_host_at : Option (Host Q) → Network Q
        to_host_at o = elim o [
          | some x ↦ record n {
            hosts = insert at (record x { node = take_message queue (some m) x.node }) n.hosts;
          }
          | none ↦ n
        ]

        to_host :
            (o : Option (Host Q))
            → lookup at n.hosts ≡ o
            → lookup at n.routers ≡ none
            → But 0 0 (to_host_at o)
        to_host none no_host no_router = elim is_in [
          | inl (inl (r, found)) ↦ absurd (none-ne-some r (sym no_router ∙ found))
          | inl (inr (h, found)) ↦ absurd (none-ne-some h (sym no_host ∙ found))
          | inr free ↦ subst (λ o. But o 0 n) free net
        ]
        to_host (some x) found no_router =
            with_host Here queue laws counts owes 0 0 0 at n net x _ found (
              gained-IsExchange owes x.node _ (
                node_take-By Here queue laws counts m x.node
                  (host_at Here queue laws counts owes 0 0 0 at n net x found).going))

        to_router :
            (o : Option (Router Q))
            → lookup at n.routers ≡ o
            → But 0 0 (elim o as (λ _. Network Q) [
              | some r ↦ record n {
                routers = insert at (Router.take_message queue (some m) r) n.routers;
              }
              | none ↦ to_host_at (lookup at n.hosts)
            ])
        to_router none found = to_host (lookup at n.hosts) refl found
        to_router (some r) found =
            let (opens, unlimited) = router_at Here queue laws counts owes 0 0 0 at n net r found in
            with_router Here queue laws counts owes 0 0 0 at n net r _ found
              (gained-IsExchange owes r.node _
                (router_take-By Here queue laws counts m r opens.going unlimited))
              (take_message-limit queue (some m) r)
