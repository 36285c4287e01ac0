-- ===== src/Window/Rtt.antt =====
-- `measureRTT`: it never leaves the buffer, and it measures the packet that was acknowledged.
use native.Mathlib.Numerals.{add-one}
use cn_project.Base.{
  ℕ, zero, suc, ◌+◌, ◌-◌, ◌<◌, ◌≤◌, ◌≡◌, ◌≢◌, refl, ap, none, some, List, ◌∷◌, map, length,
  get_elem?, get_elem?_within, subst, ℕ_discrete, arith, Bool-cases, inl, inr, false, ◌==◌,
  if◌then◌else◌, ◌%◌, ◌^◌,
}
use cn_project.Message.{Packet}
use cn_project.Tcp.{Env, TcpConnection, OutBufferElement, scan_back, measure_rtt, smoothed}
use cn_project.Window.{pointers, IsSending}
use cn_project.Window.Buffer.{element_at}

module _ (buffer : List OutBufferElement) (wire : List Packet)
    (b : pointers buffer ≡ none ∷ map some wire) (id : ℕ) where
  scan_back_step :
      (i : ℕ) (p : Packet)
      → get_elem? wire i ≡ some p
      → i < length wire
      → scan_back buffer id (suc i) ≡ (if p.packet_id == id then some i else scan_back buffer id i)
  unfolding scan_back
  scan_back_step i p at lt =
      let (e, q, found, same, at') = element_at buffer wire b i lt in
      let agree : q ≡ p = cc in
      rw (found, same)
        (ap (λ (r : Packet). if r.packet_id == id then some i else scan_back buffer id i) agree)

  -- The search ends in front of an element that was sent.
  pub scan_back_total :
      (i : ℕ) → i ≤ length wire → (j : ℕ) × (scan_back buffer id i ≡ some j) × (j ≤ i - 1)
  scan_back_total zero h = (0, unfold scan_back in refl, omega arith)
  scan_back_total (suc i) h =
      let (p, at) = get_elem?_within wire i h in
      let (j, found, le) = scan_back_total i (omega arith) in
      elim (Bool-cases (p.packet_id == id)) [
        | inl hit ↦ (i, rw (scan_back_step i p at h, hit), omega arith)
        | inr miss ↦ (j, rw (scan_back_step i p at h, miss) found, omega arith)
      ]

  -- It finds the acknowledged packet if no later packet in the window has its id.
  pub scan_back_finds :
      (n k : ℕ) (p : Packet)
      → get_elem? wire k ≡ some p
      → p.packet_id ≡ id
      → k < n
      → n ≤ length wire
      → ((j : ℕ) (q : Packet) → k < j → j < n → get_elem? wire j ≡ some q → q.packet_id ≢ id)
      → scan_back buffer id n ≡ some k
  scan_back_finds zero k p at same lt h later = elim lt [ ]
  scan_back_finds (suc n) k p at same lt h later =
      let (q, at_n) = get_elem?_within wire n h in
      elim (ℕ_discrete k n) [
        | yes e ↦
            rw (scan_back_step n p (subst (λ i. get_elem? wire i ≡ some p) e at) h)
              (ground (arith, same))
        | no ne ↦
            rw (scan_back_step n q at_n h, different (later n q (omega arith) (omega arith) at_n))
              (scan_back_finds n k p at same (omega arith) (omega arith)
                (λ j r a b. later j r a (omega arith)))
      ]
    where
      different : {a : ℕ} → a ≢ id → (a == id) ≡ false
      different ne = ground arith

module _ (env : Env) (wire : List Packet) (p : Packet) where
  -- If the buffer holds the wire, `measureRTT` changes the estimate at most.
  pub measure_rtt_total :
      (c : TcpConnection)
      → pointers c.out_buffer ≡ none ∷ map some wire
      → c.last_packet_sent ≤ length wire
      → 0 < length wire
      → (r : ℕ) × (measure_rtt env p c ≡ some (record c { estimated_rtt = r }))
  unfolding measure_rtt
  measure_rtt_total c b le pos =
      let (j, found, before) =
        scan_back_total c.out_buffer wire b p.packet_id c.last_packet_sent le in
      let (e, _, at, _, _) = element_at c.out_buffer wire b j (omega (arith, le, before)) in
      (sample e, rw (found, add-one, at))
    where
      sample : OutBufferElement → ℕ
      sample e =
          if e.is_acked
          then c.estimated_rtt
          else smoothed env.floats c.estimated_rtt ((env.now + 2 ^ 64 - e.time_sent) % 2 ^ 64)

  pub measure_rtt_lem :
      (c : TcpConnection)
      → IsSending wire c
      → (r : ℕ) × (measure_rtt env p c ≡ some (record c { estimated_rtt = r }))
  measure_rtt_lem c s =
      measure_rtt_total c s.buffered s.sent_le (omega (arith, s.acked_lt, s.sent_le))

  -- In a transmission, for the ack of a packet sent that no later one sent shares its id with,
  -- `measureRTT` reads that packet's element: if the packet is not yet acknowledged, the estimate is
  -- the smoothed value of the old one and the time since it was first sent; nothing else changes.
  pub measure_rtt_sample :
      (c : TcpConnection) (k : ℕ) (q : Packet) (e : OutBufferElement)
      → IsSending wire c
      → get_elem? wire k ≡ some q
      → q.packet_id ≡ p.packet_id
      → k < c.last_packet_sent
      → ((j : ℕ) (r : Packet)
          → k < j
          → j < c.last_packet_sent
          → get_elem? wire j ≡ some r
          → r.packet_id ≢ p.packet_id)
      → get_elem? c.out_buffer (k + 1) ≡ some e
      → measure_rtt env p c
        ≡ some (record c {
          estimated_rtt =
              if e.is_acked
              then c.estimated_rtt
              else smoothed env.floats c.estimated_rtt ((env.now + 2 ^ 64 - e.time_sent) % 2 ^ 64);
        })
  unfolding measure_rtt
  measure_rtt_sample c k q e s at same lt later found = rw (
    scan_back_finds c.out_buffer wire s.buffered p.packet_id c.last_packet_sent k q at same lt
        s.sent_le later,
    found,
  )
