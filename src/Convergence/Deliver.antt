-- ===== src/Convergence/Deliver.antt =====
-- `takeMessage` of a router, called by another node.
use mathlib.Core.Option.{some-injective}
use cn_project.Base.{String, ◌≡◌, refl, sym, ap, subst, ◌∙◌, Option, none, some, false, u64_max}
use cn_project.Base.Dict.{Dict, lookup, insert, lookup-insert_self}
use cn_project.Message.{Message}
use cn_project.Tcp.{Env}
use cn_project.Nodes.Queue.{MessageQueue, QueueLaws}
use cn_project.Nodes.Node.{
  Call, taken_by, inc_converge, dec_converge, inc_running, dec_running, sleep_for, write_to_file,
  log_line, print_line, take_message,
}
use cn_project.Nodes.Router
use cn_project.Nodes.Router.{Router, RouterEnv}
use cn_project.Nodes.Host.{Host}
use cn_project.Network.{Network, print}
use cn_project.Network.Running.{deliver_to, perform}
use cn_project.Convergence.{KeepsMessages}
use cn_project.Convergence.Turns.{take_message-IsLater, take_message-Holds}
use cn_project.Convergence.World.{IsLaterRouters, same-IsLaterRouters, insert-IsLaterRouters}

module _ {Q : Type 0} (queue : MessageQueue Q) (laws : QueueLaws queue)
    (keeps : KeepsMessages queue laws) (env : Env) (renv : RouterEnv) where
  abbrev Later : Dict (Router Q) → Dict (Router Q) → Type 0
  Later = IsLaterRouters queue laws keeps

  -- What a delivery leaves, given what stands at the address.
  module _ (at : String) (m : Message) (n : Network Q) where
    to_host : Option (Host Q) → Network Q
    to_host o = elim o [
      | some x ↦ record n {
        hosts = insert at (record x { node = take_message queue (some m) x.node }) n.hosts;
      }
      | none ↦ n
    ]

    to_router : Option (Router Q) → Network Q
    to_router o = elim o [
      | some r ↦ record n { routers = insert at (Router.take_message queue (some m) r) n.routers }
      | none ↦ to_host (lookup at n.hosts)
    ]

    deliver_to-router : deliver_to queue env renv at m n ≡ to_router (lookup at n.routers)
    unfolding deliver_to to_router to_host
    deliver_to-router = refl

    to_host-routers : (o : Option (Host Q)) → (to_host o).routers ≡ n.routers
    unfolding to_host
    to_host-routers none = refl
    to_host-routers (some x) = refl

    to_router-IsLater :
        (o : Option (Router Q)) → lookup at n.routers ≡ o → Later n.routers (to_router o).routers
    unfolding to_router
    to_router-IsLater none e =
        same-IsLaterRouters queue laws keeps n.routers _ (to_host-routers (lookup at n.hosts))
    to_router-IsLater (some r) e =
        insert-IsLaterRouters queue laws keeps at r _ n.routers e
          (take_message-IsLater queue laws keeps (some m) r)

    deliver_to-IsLater : Later n.routers (deliver_to queue env renv at m n).routers
    deliver_to-IsLater =
        subst (λ (x : Network Q). Later n.routers x.routers) (sym deliver_to-router)
          (to_router-IsLater (lookup at n.routers) refl)

    pub deliver_to-Holds :
        (y₀ y : Router Q)
        → lookup at n.routers ≡ some y₀
        → lookup at (deliver_to queue env renv at m n).routers ≡ some y
        → y₀.node.must_stop ≡ false
        → y₀.fifo_size ≡ u64_max
        → laws.Holds (some m) y.node.node_queue
    unfolding to_router
    deliver_to-Holds y₀ y was is on unlimited =
        subst (λ (r : Router Q). laws.Holds (some m) r.node.node_queue)
          (some-injective (Router.take_message queue (some m) y₀) y (
            sym (lookup-insert_self at _ n.routers)
            ∙ ap (λ o. lookup at (to_router o).routers) (sym was)
            ∙ ap (λ (x : Network Q). lookup at x.routers) (sym deliver_to-router)
            ∙ is))
          (take_message-Holds queue laws keeps (some m) y₀ on unlimited)

  pub perform-IsLater :
      (k : Call) (n : Network Q) → Later n.routers (perform queue env renv k n).routers
  unfolding perform print
  perform-IsLater (taken_by at m) n = deliver_to-IsLater at m n
  perform-IsLater inc_converge n = same-IsLaterRouters queue laws keeps n.routers _ refl
  perform-IsLater dec_converge n = same-IsLaterRouters queue laws keeps n.routers _ refl
  perform-IsLater inc_running n = same-IsLaterRouters queue laws keeps n.routers _ refl
  perform-IsLater dec_running n = same-IsLaterRouters queue laws keeps n.routers _ refl
  perform-IsLater (sleep_for time) n = same-IsLaterRouters queue laws keeps n.routers _ refl
  perform-IsLater (write_to_file host source bytes) n =
      same-IsLaterRouters queue laws keeps n.routers _ refl
  perform-IsLater (log_line file line) n = same-IsLaterRouters queue laws keeps n.routers _ refl
  perform-IsLater (print_line line) n = same-IsLaterRouters queue laws keeps n.routers _ refl
