-- ===== src/Window/Sending.antt =====
-- `sendNextWindow`: which packets are sent, and what stays as it was.
use native.Mathlib.Numerals.{add-one}
use mathlib.Core.List.{map-append}
use cn_project.Base.{
  ℕ, zero, suc, ◌+◌, ◌-◌, ◌<◌, ◌≤◌, ◌≡◌, refl, sym, ap, ◌∙◌, Option, none, some, List, [], ◌∷◌,
  ◌++◌, map, length, take, drop, set, get_elem?, min, arith, append_assoc, append-nil, u64_mod,
  u64_max, add64, dec64, ap₂, true, if◌then◌else◌,
}
use cn_project.Message.{Packet}
use cn_project.Tcp.{
  Env, TcpConnection, OutBufferElement, send, emit, send_element, send_from, send_next_window,
  last_index,
}
use cn_project.Window.{pointers}
use cn_project.Window.Buffer.{element_at, length-buffer, map-set, drop-get_elem?}

-- From `c` to `c'` packets were sent: only the marks in the buffer and the effects have changed.
pub record HasSent (ps : List Packet) (c c' : TcpConnection) : Type 0 where
  pub kept : pointers c'.out_buffer ≡ pointers c.out_buffer
  pub effects : c'.effects ≡ c.effects ++ map send ps
  pub rest : c' ≡ record c { out_buffer = c'.out_buffer; effects = c'.effects }

module _ (env : Env) (wire : List Packet) where
  send_element_lem :
      (k : ℕ) (p : Packet) (e : OutBufferElement) (c : TcpConnection)
      → get_elem? c.out_buffer (suc k) ≡ some e
      → e.packet ≡ some p
      → (c' : TcpConnection) × (send_element env (suc k) c ≡ some c') × HasSent (p ∷ []) c c'
  unfolding send_element emit
  send_element_lem k p e c found same = (
    record c { out_buffer = set c.out_buffer (suc k) marked; effects = c.effects ++ (send p ∷ []) },
    rw (found, same),
    record {
      kept = map-set (λ x. x.packet) c.out_buffer (suc k) e marked found refl;
      effects = refl;
      rest = refl;
    },
  )
    where
      marked : OutBufferElement
      marked = record e { is_sent = true; time_sent = if e.is_sent then e.time_sent else env.now }

  HasSent-trans :
      (c c₁ c₂ : TcpConnection) (ps qs : List Packet)
      → HasSent ps c c₁
      → HasSent qs c₁ c₂
      → HasSent (ps ++ qs) c c₂
  HasSent-trans c c₁ c₂ ps qs a b = record {
    kept = b.kept ∙ a.kept;
    effects =
        b.effects
        ∙ ap (λ es. es ++ map send qs) a.effects
        ∙ append_assoc c.effects (map send ps) (map send qs)
        ∙ ap (◌++◌ c.effects) (sym (map-append send ps qs));
    rest =
        b.rest
        ∙ ap (λ (x : TcpConnection). record x { out_buffer = c₂.out_buffer; effects = c₂.effects })
            a.rest;
  }

  take-drop-cons :
      (k n : ℕ) (p : Packet)
      → get_elem? wire k ≡ some p
      → take (suc n) (drop k wire) ≡ p ∷ take n (drop (suc k) wire)
  take-drop-cons k n p e = ap (take (suc n)) (drop-get_elem? wire k p e)

  -- `n` rounds of the loop from packet `k` of the wire on.
  send_from_lem :
      (n k : ℕ) (c : TcpConnection)
      → pointers c.out_buffer ≡ none ∷ map some wire
      → k + n ≤ length wire
      → (c' : TcpConnection) × (send_from env n (suc k) c ≡ some c')
        × HasSent (take n (drop k wire)) c c'
  unfolding send_from
  send_from_lem zero k c b lt =
      (c, refl, record { kept = refl; effects = sym (append-nil c.effects); rest = refl })
  send_from_lem (suc n) k c b lt =
      let (e, p, found, same, at) = element_at c.out_buffer wire b k (omega arith) in
      let (c₁, one, s₁) = send_element_lem k p e c found same in
      let (c₂, more, s₂) = send_from_lem n (suc k) c₁ (s₁.kept ∙ b) (omega arith) in
      (
        c₂,
        rw (one, add-one) more,
        rw (take-drop-cons k n p at)
            (HasSent-trans c c₁ c₂ (p ∷ []) (take n (drop (suc k) wire)) s₁ s₂),
      )

  -- If the buffer holds the wire behind the dummy, the index of the window's end does not overflow,
  -- the wire is shorter than 2^64-1 and no more than its length is acknowledged, then
  -- `sendNextWindow` succeeds: it sends exactly the packets behind the acknowledged ones up to the
  -- end of the window or of the wire, in order, sets `m_lastPacketSent` to that end, and changes
  -- nothing else but the marks in the buffer.
  pub send_next_window_lem :
      (c : TcpConnection)
      → pointers c.out_buffer ≡ none ∷ map some wire
      → c.sender_last_packet_acked + c.cwnd < u64_mod
      → length wire < u64_max
      → c.sender_last_packet_acked ≤ length wire
      → let last = min (c.sender_last_packet_acked + c.cwnd) (length wire) in
        (c' : TcpConnection) × (send_next_window env c ≡ some c')
        × HasSent
            (take (last - c.sender_last_packet_acked) (drop c.sender_last_packet_acked wire))
            (record c { last_packet_sent = last })
            c'
  unfolding send_next_window last_index
  send_next_window_lem c b fit small le =
      let (c', run, s) = send_from_lem (last - acked) acked (at last) b (omega arith) in
      (
        c',
        ap₂ loop ends starts ∙ ap (λ (n : ℕ). send_from env n (suc acked) (at last)) count ∙ run,
        s,
      )
    where
      acked : ℕ
      acked = c.sender_last_packet_acked

      last : ℕ
      last = min (acked + c.cwnd) (length wire)

      at : ℕ → TcpConnection
      at l = record c { last_packet_sent = l }

      loop : ℕ → ℕ → Option TcpConnection
      loop l i = send_from env (l + 1 - i) i (at l)

      ends : min (add64 acked c.cwnd) (dec64 (length c.out_buffer)) ≡ last
      ends = omega (arith, length-buffer c.out_buffer wire b)

      starts : acked + 1 ≡ suc acked
      starts = omega arith

      count : last + 1 - suc acked ≡ last - acked
      count = omega arith
