-- ===== src/Window/Round.antt =====
-- A new window, from a state in which packets are left to be acknowledged.
use cn_project.Base.{
  ℕ, ◌+◌, ◌-◌, ◌^◌, ◌<◌, ◌≤◌, ◌≡◌, refl, ap, ◌∙◌, none, some, List, ◌∷◌, ◌++◌, map, length, [], sym,
  subst, length-append, take, drop, min, arith, true,
}
use mathlib.Core.Option.{some-injective}
use cn_project.Message.{Packet}
use cn_project.Tcp.{
  start_timeout, get_estimated_timeout, ◌>>=◌, Env, TcpConnection, send, max_packet_id,
  send_next_window, send_and_arm, arm_timeout,
}
use cn_project.Window.{pointers, IsSending}
use cn_project.Window.Sending.{HasSent, send_next_window_lem}

pub record IsReady (wire : List Packet) (c : TcpConnection) : Type 0 where
  pub buffered : pointers c.out_buffer ≡ none ∷ map some wire
  pub acked_lt : c.sender_last_packet_acked < length wire
  pub window_pos : 0 < c.cwnd
  pub window_le : c.cwnd ≤ max_packet_id + c.sender_last_packet_acked
  pub threshold_pos : 0 < c.ssthresh
  pub small : length wire < 2 ^ 62

-- The index of the last packet of the window.
abbrev pub window_end : List Packet → TcpConnection → ℕ
window_end wire c = min (c.sender_last_packet_acked + c.cwnd) (length wire)

-- From `c` to `c'` the window's packets went out, in order, and a timer was set.
pub record Sends (wire : List Packet) (c c' : TcpConnection) : Type 0 where
  pub sending : IsSending wire c'
  pub sent :
      c'.effects
      ≡ c.effects
        ++ map send (
            take
              (window_end wire c - c.sender_last_packet_acked)
              (drop c.sender_last_packet_acked wire))
  pub last : c'.last_packet_sent ≡ window_end wire c
  pub acked : c'.sender_last_packet_acked ≡ c.sender_last_packet_acked
  pub cwnd : c'.cwnd ≡ c.cwnd
  pub ssthresh : c'.ssthresh ≡ c.ssthresh
  pub opened : c'.is_open ≡ c.is_open
  pub repeating : c'.repeat_delay ≡ c.repeat_delay
  pub message : c'.msg_buffer ≡ c.msg_buffer

module _ (env : Env) (wire : List Packet) where
  pub Sends-armed :
      (c c₁ c' : TcpConnection)
      → IsReady wire c
      → HasSent
          (take
            (window_end wire c - c.sender_last_packet_acked)
            (drop c.sender_last_packet_acked wire))
          (record c { last_packet_sent = window_end wire c })
          c₁
      → (threads : List ℕ) → c' ≡ record c₁ { is_timeout_allowed = true; timeout_threads = threads }
      → 0 < length threads
      → Sends wire c c'
  Sends-armed c c₁ c' r s threads e timed = record {
    sending = record {
      buffered = ap (λ x. pointers x.out_buffer) e ∙ s.kept ∙ r.buffered;
      acked_lt = omega (arith, acked, last, r.acked_lt, r.window_pos);
      sent_le = omega (arith, last);
      window_pos = omega (arith, window, r.window_pos);
      window_le = omega (arith, window, acked, r.window_le);
      threshold_pos = omega (arith, threshold, r.threshold_pos);
      small = r.small;
      allowed = ap (λ (x : TcpConnection). x.is_timeout_allowed) e;
      timed = omega (arith, ap (λ (x : TcpConnection). length x.timeout_threads) e);
    };
    sent = ap (λ (x : TcpConnection). x.effects) e ∙ s.effects;
    last = last;
    acked = acked;
    cwnd = window;
    ssthresh = threshold;
    opened = of (λ x. x.is_open);
    repeating = of (λ x. x.repeat_delay);
    message = of (λ x. x.msg_buffer);
  }
    where
      whole : c' ≡ record c {
        last_packet_sent = window_end wire c;
        out_buffer = c₁.out_buffer;
        effects = c₁.effects;
        is_timeout_allowed = true;
        timeout_threads = threads;
      }
      whole =
          e
          ∙ ap
              (λ (x : TcpConnection). record x {
                is_timeout_allowed = true;
                timeout_threads = threads;
              })
              s.rest

      of :
          {A : Type 0} (f : TcpConnection → A)
          → f c'
            ≡ f (record c {
              last_packet_sent = window_end wire c;
              out_buffer = c₁.out_buffer;
              effects = c₁.effects;
              is_timeout_allowed = true;
              timeout_threads = threads;
            })
      of f = ap f whole

      acked : c'.sender_last_packet_acked ≡ c.sender_last_packet_acked
      acked = of (λ x. x.sender_last_packet_acked)

      last : c'.last_packet_sent ≡ window_end wire c
      last = of (λ x. x.last_packet_sent)

      window : c'.cwnd ≡ c.cwnd
      window = of (λ x. x.cwnd)

      threshold : c'.ssthresh ≡ c.ssthresh
      threshold = of (λ x. x.ssthresh)

  -- The window's packets can be sent.
  pub window_sent :
      (c : TcpConnection)
      → IsReady wire c
      → (c₁ : TcpConnection) × (send_next_window env c ≡ some c₁)
        × HasSent
            (take
              (window_end wire c - c.sender_last_packet_acked)
              (drop c.sender_last_packet_acked wire))
            (record c { last_packet_sent = window_end wire c })
            c₁
  window_sent c r =
      send_next_window_lem env wire c r.buffered (omega (arith, r.window_le, r.acked_lt, r.small))
        (omega (arith, r.small)) (omega (arith, r.acked_lt))

  pub send_and_arm_lem :
      (c : TcpConnection)
      → IsReady wire c
      → (c' : TcpConnection) × (send_and_arm env c ≡ some c') × Sends wire c c'
  unfolding send_and_arm arm_timeout
  send_and_arm_lem c r =
      let (c₁, run, s) = window_sent c r in
      (
        arm_timeout c₁,
        rw run,
        Sends-armed c c₁ (arm_timeout c₁) r s _ refl (omega (arith, length-append {0})),
      )

  -- All else is as it was before the window was sent.
  abbrev pub Keeps : TcpConnection → TcpConnection → Type 0
  Keeps c c' = c' ≡ record c {
    last_packet_sent = window_end wire c;
    out_buffer = c'.out_buffer;
    effects = c'.effects;
    is_timeout_allowed = true;
    timeout_threads = c'.timeout_threads;
  }

  pub send_and_arm-Keeps :
      (c c' : TcpConnection) → IsReady wire c → send_and_arm env c ≡ some c' → Keeps c c'
  unfolding send_and_arm arm_timeout start_timeout
  send_and_arm-Keeps c c' r run =
      let (c₁, sent, s) = window_sent c r in
      let threads = c₁.timeout_threads ++ (get_estimated_timeout c₁ ∷ []) in
      subst (Keeps c)
        (some-injective _ c' (sym (ap (λ o. o >>= λ x. some (arm_timeout x)) sent) ∙ run))
        (ap
          (λ (x : TcpConnection). record x { is_timeout_allowed = true; timeout_threads = threads })
          s.rest)

  -- Only these fields of the state before matter.
  pub Sends-cong :
      (a b c' : TcpConnection)
      → Sends wire a c'
      → a.sender_last_packet_acked ≡ b.sender_last_packet_acked
      → a.cwnd ≡ b.cwnd
      → a.ssthresh ≡ b.ssthresh
      → a.effects ≡ b.effects
      → a.is_open ≡ b.is_open
      → a.repeat_delay ≡ b.repeat_delay
      → a.msg_buffer ≡ b.msg_buffer
      → Sends wire b c'
  Sends-cong a b c' s acked window threshold effects opened repeating message = record {
    sending = s.sending;
    sent = s.sent ∙ λ i.
        effects i
        ++ map send (take (min (acked i + window i) (length wire) - acked i) (drop (acked i) wire));
    last = s.last ∙ (λ i. min (acked i + window i) (length wire));
    acked = s.acked ∙ acked;
    cwnd = s.cwnd ∙ window;
    ssthresh = s.ssthresh ∙ threshold;
    opened = s.opened ∙ opened;
    repeating = s.repeating ∙ repeating;
    message = s.message ∙ message;
  }
