-- ===== src/Nodes/Queue.antt =====
-- The interface of the message queue, moodycamel's `BlockingConcurrentQueue` of pointers to
-- messages, a library of another project. A null pointer is `none`.
use cn_project.Base.{ℕ, ◌≡◌, ◌⊎◌, Option, some}
use cn_project.Message.{Message}

pub record MessageQueue (Q : Type 0) : Type 0 where
  -- The two constructors.
  pub new_queue : Q
  pub with_capacity : ℕ → Q
  pub enqueue : Option Message → Q → Q
  -- It does not allocate: the message is lost if there is no room.
  pub try_enqueue : Option Message → Q → Q
  -- The first message and the rest; nothing while the call waits.
  pub wait_dequeue : Q → Option (Option Message × Q)
  pub size_approx : Q → ℕ

-- What is relied on: a message that comes out of a queue was put into it. Nothing is said of the
-- order, since the library keeps it only between messages of one producer.
pub record QueueLaws {Q : Type 0} (queue : MessageQueue Q) : Type 1 where
  pub Holds : Option Message → Q → Type 0
  pub new_only : (m : Option Message) → Holds m queue.new_queue → ⊥
  pub with_capacity_only : (m : Option Message) (n : ℕ) → Holds m (queue.with_capacity n) → ⊥
  pub enqueue_only :
      (m x : Option Message) (q : Q) → Holds m (queue.enqueue x q) → (m ≡ x) ⊎ Holds m q
  pub try_enqueue_only :
      (m x : Option Message) (q : Q) → Holds m (queue.try_enqueue x q) → (m ≡ x) ⊎ Holds m q
  pub dequeue_holds :
      (x : Option Message) (q rest : Q) → queue.wait_dequeue q ≡ some (x, rest) → Holds x q
  pub dequeue_only :
      (m x : Option Message) (q rest : Q)
      → queue.wait_dequeue q ≡ some (x, rest)
      → Holds m rest
      → Holds m q
