-- ===== src/Convergence/Later.antt =====
-- Moves of a sender and of a receiver, and what is told between them.
use mathlib.Core.List.{Memᴰ}
use cn_project.Base.{ℕ, String, ◌≡◌, inl, inr, refl, sym, subst, ◌∙◌, Option, add64}
use cn_project.Message.{routing}
use cn_project.Nodes.Queue.{MessageQueue, QueueLaws}
use cn_project.Nodes.Node.{AbstractNode, Link, Call, taken_by}
use cn_project.Nodes.Router.{Router}
use cn_project.Convergence.{IsTelling, IsLater, IsTold, tale}

module _ {Q : Type 0} (queue : MessageQueue Q) (laws : QueueLaws queue) where
  abbrev M : AbstractNode Q → AbstractNode Q → Type 0
  M = IsLater queue laws

  pub IsLater-refl : (n : AbstractNode Q) → M n n
  IsLater-refl n = record {
    same_addr = refl;
    same_neighbours = refl;
    links_kept = λ a l h. h;
    going_on = λ h. h;
    calling = λ h. h;
    falling = λ dest bound h. h;
    telling = λ dest cost on h. inl (on, h);
    heeding = λ m l on linked h. inr h;
  }

  -- Calls that are told stay told.
  telling-calls :
      (y dest : String) (cost : ℕ) (n n' : AbstractNode Q)
      → M n n'
      → IsTelling y dest cost n
      → IsTelling y dest cost n'
  telling-calls y dest cost n n' s h =
      subst (λ a. Memᴰ (taken_by y (routing (tale a dest cost))) n'.calls) (sym s.same_addr)
        (s.calling h)

  pub IsLater-trans : (n₁ n₂ n₃ : AbstractNode Q) → M n₁ n₂ → M n₂ n₃ → M n₁ n₃
  IsLater-trans n₁ n₂ n₃ a b = record {
    same_addr = b.same_addr ∙ a.same_addr;
    same_neighbours = b.same_neighbours ∙ a.same_neighbours;
    links_kept = λ y l h. b.links_kept y l (a.links_kept y l h);
    going_on = λ h. b.going_on (a.going_on h);
    calling = λ h. b.calling (a.calling h);
    falling = λ dest bound h. b.falling dest bound (a.falling dest bound h);
    telling = λ dest cost on h. elim (b.telling dest cost on h) [
      | inl (on', h') ↦ elim (a.telling dest cost on' h') [
        | inl old ↦ inl old
        | inr calls ↦ inr (λ y m. telling-calls y dest cost n₂ n₃ b (calls y m))
      ]
      | inr calls ↦ inr (λ y m. calls y (subst (Memᴰ y) (sym a.same_neighbours) m))
    ];
    heeding = λ m l on linked h. elim (a.heeding m l on linked h) [
      | inl below ↦ inl (b.falling m.destination (add64 m.cost l.cost) below)
      | inr held ↦ b.heeding m l (a.going_on on) (a.links_kept m.sender l linked) held
    ];
  }

  module _ (sender receiver : String) (l : Link) (missing : Option Call) where
    abbrev Told : Router Q → Router Q → Type 0
    Told = IsTold queue laws sender receiver l missing

    pub sender-IsTold : (x x' y : Router Q) → M x.node x'.node → Told x y → Told x' y
    sender-IsTold x x' y s t = record {
      addressed = s.same_addr ∙ t.addressed;
      peer = subst (Memᴰ receiver) (sym s.same_neighbours) t.peer;
      linked = t.linked;
      going = t.going;
      unlimited = t.unlimited;
      told = λ dest cost on h. elim (s.telling dest cost on h) [
        | inl (on', h') ↦ elim (t.told dest cost on' h') [
          | inl below ↦ inl below
          | inr (inl calls) ↦ inr (inl (telling-calls receiver dest cost x.node x'.node s calls))
          | inr (inr rest) ↦ inr (inr rest)
        ]
        | inr calls ↦ inr (inl (calls receiver t.peer))
      ];
    }

    pub receiver-IsTold :
        (x y y' : Router Q) → M y.node y'.node → y'.fifo_size ≡ y.fifo_size → Told x y → Told x y'
    receiver-IsTold x y y' s fifo t = record {
      addressed = t.addressed;
      peer = t.peer;
      linked = s.links_kept sender l t.linked;
      going = s.going_on t.going;
      unlimited = fifo ∙ t.unlimited;
      told = λ dest cost on h. elim (t.told dest cost on h) [
        | inl below ↦ inl (s.falling dest (add64 cost l.cost) below)
        | inr (inl calls) ↦ inr (inl calls)
        | inr (inr (inl held)) ↦ elim (s.heeding (tale sender dest cost) l t.going t.linked held) [
          | inl below ↦ inl below
          | inr held' ↦ inr (inr (inl held'))
        ]
        | inr (inr (inr lost)) ↦ inr (inr (inr lost))
      ];
    }
