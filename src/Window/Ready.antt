-- ===== src/Window/Ready.antt =====
-- What marking an ack, slow start and growth leave of a transmission: a state ready to send.
use native.Mathlib.Numerals.{add-one}
use cn_project.Base.{
  ℕ, ◌+◌, ◌*◌, ◌/◌, min, max, ltb, if◌then◌else◌, ◌<◌, ◌≡◌, refl, ◌∙◌, none, some, List, ◌∷◌, map,
  length, set, arith, true, get_elem?,
}
use cn_project.Message.{Packet}
use cn_project.Tcp.{
  Env, TcpConnection, OutBufferElement, stop_timeout, start_slow_again, grow_window, mark_acked,
  on_later_ack, max_packet_id,
}
use cn_project.Window.{pointers, IsSending}
use cn_project.Window.Buffer.{element_at, map-set}
use cn_project.Window.Round.{IsReady, Sends, Sends-cong, send_and_arm_lem}

-- One packet more is acknowledged.
abbrev pub moved : TcpConnection → TcpConnection
moved c = record c { sender_last_packet_acked = c.sender_last_packet_acked + 1 }

-- The window doubles below the threshold, up to the largest id, and is one more from there on.
abbrev pub grown : TcpConnection → TcpConnection
grown c = record c {
  cwnd = if ltb c.cwnd c.ssthresh then min (c.cwnd * 2) max_packet_id else c.cwnd + 1;
}

-- The threshold is half the window, and at least 1; the window is 1.
abbrev pub slowed : TcpConnection → TcpConnection
slowed c = record c { ssthresh = max (c.cwnd / 2) 1; cwnd = 1 }

module _ (env : Env) (wire : List Packet) where
  -- No growth wraps round.
  pub grow_window_lem :
      (c : TcpConnection) → IsSending wire c → (grow_window c).cwnd ≡ (grown c).cwnd
  unfolding grow_window
  grow_window_lem c s = ground (arith, s.window_pos, s.window_le, s.small, s.acked_lt, s.sent_le)

  pub slowed-Sends :
      (c c' : TcpConnection) → Sends wire (start_slow_again c) c' → Sends wire (slowed c) c'
  unfolding start_slow_again
  slowed-Sends c c' sends =
      Sends-cong env wire (start_slow_again c) (slowed c) c' sends refl refl refl refl refl refl
        refl

  pub mark_acked_lem :
      (c : TcpConnection)
      → pointers c.out_buffer ≡ none ∷ map some wire
      → c.sender_last_packet_acked < length wire
      → (buffer : List OutBufferElement) × (mark_acked c
          ≡ some (record (moved c) { out_buffer = buffer }))
        × (pointers buffer ≡ none ∷ map some wire)
  unfolding mark_acked
  mark_acked_lem c b lt =
      let (e, p, found, same, at) = element_at c.out_buffer wire b c.sender_last_packet_acked lt in
      let marked : OutBufferElement = record e { is_acked = true } in
      let i = c.sender_last_packet_acked + 1 in
      let found' : get_elem? c.out_buffer i ≡ some e = rw add-one found in
      (
        set c.out_buffer i marked,
        rw found',
        map-set (λ x. x.packet) c.out_buffer i e marked found' refl ∙ b,
      )

  pub stopped-IsReady : (c : TcpConnection) → IsReady wire c → IsReady wire (stop_timeout c)
  unfolding stop_timeout
  stopped-IsReady c r = record {
    buffered = r.buffered;
    acked_lt = r.acked_lt;
    window_pos = r.window_pos;
    window_le = r.window_le;
    threshold_pos = r.threshold_pos;
    small = r.small;
  }

  pub slow-IsReady : (c : TcpConnection) → IsSending wire c → IsReady wire (start_slow_again c)
  unfolding start_slow_again
  slow-IsReady c s = record {
    buffered = s.buffered;
    acked_lt = omega (arith, s.acked_lt, s.sent_le);
    window_pos = omega arith;
    window_le = omega arith;
    threshold_pos = omega arith;
    small = s.small;
  }

  pub grown-IsReady :
      (c : TcpConnection) (r : ℕ) (buffer : List OutBufferElement)
      → IsSending wire c
      → pointers buffer ≡ none ∷ map some wire
      → c.sender_last_packet_acked + 1 < length wire
      → IsReady wire (grow_window (record (moved c) { estimated_rtt = r; out_buffer = buffer }))
  unfolding grow_window
  grown-IsReady c r buffer s b lt = record {
    buffered = b;
    acked_lt = lt;
    window_pos = ground (arith, s.window_pos, s.window_le, s.small);
    window_le = ground (arith, s.window_pos, s.window_le, s.small);
    threshold_pos = s.threshold_pos;
    small = s.small;
  }

  -- A later ack: slow start again, from the first packet that is not acknowledged.
  pub on_later_ack_lem :
      (c : TcpConnection)
      → IsSending wire c
      → (c' : TcpConnection) × (on_later_ack env c ≡ some c')
        × Sends wire (stop_timeout (start_slow_again c)) c'
  unfolding on_later_ack
  on_later_ack_lem c s =
      send_and_arm_lem env wire (stop_timeout (start_slow_again c))
        (stopped-IsReady _ (slow-IsReady c s))
