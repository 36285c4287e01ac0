-- ===== src/Transfer/Bounds.antt =====
-- TCPConnection.cpp, `packetize`: the sizes and the ids of the packets, and how many there are.
use cn_project.Base.{
  ℕ, zero, suc, ◌+◌, ◌-◌, ◌*◌, ◌/◌, ◌%◌, ◌<◌, ◌≤◌, ◌≡◌, refl, sym, ap, subst, false, some, List, [],
  ◌∷◌, map, length, min, max, arith, All, Bool-cases, inl, inr, ◌==◌,
}
use cn_project.Message.{Packet, new_packet}
use cn_project.Tcp.{
  Env, TcpConnection, max_packet_id, le_bytes, first_packet, packetize, dummy_element, element_of,
}
use cn_project.Segments.{segment, data_packets}
use cn_project.Segments.Layout.{rounds, wire, packetize_lem}
use cn_project.Segments.Message.{length-data_packets, length-segment, rounds_needed, packet_at}
use cn_project.Transfer.{packets, packets-map}

-- What a connection puts on the wire for its message.
pub record IsFit (env : Env) (c : TcpConnection) (p : Packet) : Type 0 where
  pub no_ack : p.is_ack ≡ false
  pub in_range : p.packet_id < max_packet_id
  pub some_body : 0 < length p.body
  pub small : length p.body ≤ max 8 env.packet_size
  pub from_host : p.source ≡ c.corresponding_host
  pub to_end : p.destination ≡ c.end_point

length-le_bytes : (k n : ℕ) → length (le_bytes k n) ≡ k
unfolding le_bytes
length-le_bytes zero n = refl
length-le_bytes (suc k) n = ap suc (length-le_bytes k (n / 256))

module _ (env : Env) (c : TcpConnection) (msg : List ℕ) (pos : 0 < env.packet_size) where
  open env use {packet_size}

  first_packet-IsFit : IsFit env c (first_packet env c (length msg))
  unfolding first_packet new_packet
  first_packet-IsFit = record {
    no_ack = refl;
    in_range = omega arith;
    some_body = omega (arith, length-le_bytes 8 (length msg));
    small = omega (arith, length-le_bytes 8 (length msg));
    from_host = refl;
    to_end = refl;
  }

  packet_at-IsFit :
      (i : ℕ)
      → i < rounds env c msg
      → IsFit env c (packet_at packet_size c.corresponding_host c.end_point msg i)
  unfolding new_packet
  packet_at-IsFit i lt = record {
    no_ack = refl;
    in_range = omega arith;
    some_body = omega (arith, size, rounds_needed env c msg i pos lt);
    small = omega (arith, size);
    from_host = refl;
    to_end = refl;
  }
    where
      size : length (segment packet_size msg i) ≡ min packet_size (length msg - i * packet_size)
      size = length-segment packet_size c.corresponding_host c.end_point msg i

  data_packets-IsFit :
      (n k : ℕ)
      → n + k ≤ rounds env c msg
      → All (IsFit env c) (data_packets packet_size c.corresponding_host c.end_point msg n k)
  unfolding data_packets
  data_packets-IsFit zero k le = tt
  data_packets-IsFit (suc n) k le =
      (packet_at-IsFit k (omega arith), data_packets-IsFit n (k + 1) (omega arith))

  -- Only the last data packet may have less than the packet size.
  rounds_few : rounds env c msg * packet_size < length msg + packet_size
  rounds_few = elim (Bool-cases (length msg % packet_size == 0)) [
    | inl whole ↦ rw whole (grind arith)
    | inr part ↦ rw part (grind arith)
  ]

  length-wire : length (wire env c msg) ≡ suc (rounds env c msg)
  length-wire =
      ap suc
        (length-data_packets packet_size c.corresponding_host c.end_point msg (rounds env c msg) 0)

  few : length (wire env c msg) * packet_size < length msg + 2 * packet_size
  few = rw length-wire (grind (arith, rounds_few))

  -- At a positive packet size and an empty buffer, `packetize` succeeds. Each packet in the buffer
  -- is no ack, goes from the connection's host to its end point, has an id below 65535 and a body
  -- of at least one byte and at most the packet size, or 8 if that is more. The number of packets
  -- times the packet size stays below the message's size plus two packets.
  pub packetize_bounds :
      c.out_buffer ≡ []
      → (b : TcpConnection) × (packetize env msg c ≡ some b)
        × All (IsFit env c) (packets b.out_buffer)
        × (length (packets b.out_buffer) * packet_size < length msg + 2 * packet_size)
  unfolding packets
  packetize_bounds empty = (
    record c { out_buffer = dummy_element ∷ map element_of (wire env c msg) },
    packetize_lem env c msg pos empty,
    subst (All (IsFit env c)) (sym (packets-map (wire env c msg)))
        (first_packet-IsFit, data_packets-IsFit (rounds env c msg) 0 (omega arith)),
    subst (λ ps. length ps * packet_size < length msg + 2 * packet_size)
        (sym (packets-map (wire env c msg))) few,
  )
