-- ===== src/Window/Session.antt =====
-- A sender's session: its phases, and how an ack or a timer carries it on.
use cn_project.Base.{
  ℕ, ◌+◌, ◌≤◌, ◌≡◌, ◌≢◌, ◌⊎◌, ◌∙◌, List, arith, true, inl, inr, u64_max, ◌==◌, if◌then◌else◌,
}
use cn_project.Message.{Packet}
use cn_project.Tcp.{TcpConnection}
use cn_project.Window.{IsSending}
use cn_project.Window.Round.{Sends}
use cn_project.Window.Finish.{IsOver}

-- The connection is open and not to send again, and the transmission is under way or over.
pub record InSession (wire : List Packet) (c : TcpConnection) : Type 0 where
  pub opened : c.is_open ≡ true
  pub once : c.repeat_delay ≡ u64_max
  pub phase : IsSending wire c ⊎ IsOver wire c

-- The ack of the next packet counts, and no other.
abbrev pub counted : ℕ → ℕ → ℕ
counted id acked = if id == acked + 1 then acked + 1 else acked

pub counted_next : (id acked : ℕ) → id ≡ acked + 1 → acked + 1 ≡ counted id acked
counted_next id acked e = ground (arith, e)

pub counted_other : (id acked : ℕ) → id ≢ acked + 1 → acked ≡ counted id acked
counted_other id acked ne = ground (arith, ne)

-- The session goes on: no packet acknowledged is taken back, and the ack of the next one counts.
pub record GoesOn (wire : List Packet) (id : ℕ) (c c' : TcpConnection) : Type 0 where
  pub session : InSession wire c'
  pub forward : c.sender_last_packet_acked ≤ c'.sender_last_packet_acked
  pub gain :
      id ≡ c.sender_last_packet_acked + 1
      → c.sender_last_packet_acked + 1 ≤ c'.sender_last_packet_acked
  pub counts : c'.sender_last_packet_acked ≡ counted id c.sender_last_packet_acked

module _ (wire : List Packet) where
  pub remeasured :
      (id : ℕ) (c : TcpConnection) (r : ℕ)
      → InSession wire c
      → id ≢ c.sender_last_packet_acked + 1
      → GoesOn wire id c (record c { estimated_rtt = r })
  remeasured id c r s ne = record {
    session = record {
      opened = s.opened;
      once = s.once;
      phase = elim s.phase [
        | inl x ↦ inl (record {
          buffered = x.buffered;
          acked_lt = x.acked_lt;
          sent_le = x.sent_le;
          window_pos = x.window_pos;
          window_le = x.window_le;
          threshold_pos = x.threshold_pos;
          small = x.small;
          allowed = x.allowed;
          timed = x.timed;
        })
        | inr x ↦ inr (record {
          buffered = x.buffered;
          acked = x.acked;
          sent_le = x.sent_le;
          stopped = x.stopped;
          no_timer = x.no_timer;
        })
      ];
    };
    forward = omega arith;
    gain = λ e. absurd (ne e);
    counts = counted_other id c.sender_last_packet_acked ne;
  }

  pub sent_on :
      (id : ℕ) (c c₁ c' : TcpConnection)
      → InSession wire c
      → Sends wire c₁ c'
      → c₁.is_open ≡ c.is_open
      → c₁.repeat_delay ≡ c.repeat_delay
      → c.sender_last_packet_acked ≤ c₁.sender_last_packet_acked
      → (id ≡ c.sender_last_packet_acked + 1
          → c.sender_last_packet_acked + 1 ≤ c₁.sender_last_packet_acked)
      → c₁.sender_last_packet_acked ≡ counted id c.sender_last_packet_acked
      → GoesOn wire id c c'
  sent_on id c c₁ c' s sends opened repeating le gain counts = record {
    session = record {
      opened = sends.opened ∙ opened ∙ s.opened;
      once = sends.repeating ∙ repeating ∙ s.once;
      phase = inl sends.sending;
    };
    forward = omega (arith, sends.acked, le);
    gain = λ e. omega (arith, sends.acked, gain e);
    counts = sends.acked ∙ counts;
  }

  pub untouched : (c : TcpConnection) → InSession wire c → GoesOn wire 0 c c
  untouched c s = record {
    session = s;
    forward = omega arith;
    gain = λ e. absurd (omega arith);
    counts = counted_other 0 c.sender_last_packet_acked (λ e. absurd (omega (arith, e)));
  }
