-- ===== src/Detection/Arrivals.antt =====
-- What arrives at a node is gained by it.
use cn_project.Base.{
  ℕ, String, ◌≡◌, sym, ap, subst, Bool, false, Option, some, arith, if◌then◌else◌, u64_max, ◌==◌,
}
use cn_project.Message.{Message}
use cn_project.Nodes.Queue.{MessageQueue, QueueLaws}
use cn_project.Nodes.Node.{AbstractNode, log, received_message, take_message}
use cn_project.Nodes.Router
use cn_project.Nodes.Router.{
  Router, RouterEnv, RouterDefaults, Turn, waiting, fault, going, left, broad_cast_table,
  broad_cast_new_link,
}
use cn_project.Detection.{CountsMessages, IsBalanced, IsBalancedBy, routing_in}
use cn_project.Detection.Routers.{log-Balanced}
use cn_project.Detection.Balance.{IsBalanced-trans}

module _ (Here : String → Type 0) {Q : Type 0} (queue : MessageQueue Q) (laws : QueueLaws queue)
    (counts : CountsMessages queue laws) where
  abbrev By : ℕ → AbstractNode Q → AbstractNode Q → Type 0
  By = IsBalancedBy Here queue laws counts

  abbrev Balanced : AbstractNode Q → AbstractNode Q → Type 0
  Balanced = IsBalanced Here queue laws counts

  and_then : (gain : ℕ) (n₁ n₂ n₃ : AbstractNode Q) → Balanced n₁ n₂ → By gain n₂ n₃ → By gain n₁ n₃
  and_then = IsBalanced-trans Here queue laws counts

  pub queued-By :
      (n : AbstractNode Q) (m : Option Message)
      → By (routing_in m) n (record n { node_queue = queue.enqueue m n.node_queue })
  queued-By n m = record {
    opened = λ o. record { going = o.going; peered = o.peered; calling = o.calling };
    balance = λ o. omega (arith, counts.enqueued m n.node_queue);
  }

  -- A router with no limit takes what it is given.
  pub router_take-By :
      (m : Message) (r : Router Q)
      → r.node.must_stop ≡ false
      → r.fifo_size ≡ u64_max
      → By (routing_in (some m)) r.node (Router.take_message queue (some m) r).node
  unfolding Router.take_message
  router_take-By m r on unlimited =
      subst (λ b. Taken (if b then r else record r { node = record r.node { node_queue = kept } }))
        (sym on)
        (subst (λ b. Taken (record r { node = record r.node { node_queue = chosen b } }))
          (sym (ap (λ size. size == u64_max) unlimited)) (queued-By r.node (some m)))
    where
      Taken : Router Q → Type 0
      Taken r' = By (routing_in (some m)) r.node r'.node

      chosen : Bool → Q
      chosen b =
          if b
          then queue.enqueue (some m) r.node.node_queue
          else queue.try_enqueue (some m) r.node.node_queue

      kept : Q
      kept = chosen (r.fifo_size == u64_max)

  pub node_take-By :
      (m : Message) (n : AbstractNode Q)
      → n.must_stop ≡ false
      → By (routing_in (some m)) n (take_message queue (some m) n)
  unfolding take_message log
  node_take-By m n on =
      subst (λ b. By (routing_in (some m)) n (kept b)) (sym on)
        (and_then (routing_in (some m)) n logged _
          (log-Balanced Here queue laws counts received_message n) (queued-By logged (some m)))
    where
      logged : AbstractNode Q
      logged = log received_message n

      kept : Bool → AbstractNode Q
      kept b =
          if b then logged else record logged { node_queue = queue.enqueue (some m) n.node_queue }
