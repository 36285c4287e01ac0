-- ===== src/Transfer.antt =====
-- A message from one connection to another: what `packetize` makes of it, as it arrives.
pub mod Bounds
use native.Mathlib.Nat.{mul-add-mod_self_right, mod-eq_of_lt}
use cn_project.Base.{
  ℕ, zero, suc, ◌+◌, ◌-◌, ◌*◌, ◌%◌, ◌<◌, ◌≡◌, ◌≢◌, refl, sym, ap, subst, ◌∙◌, String, none, some,
  List, [], ◌∷◌, map, length, get_elem?, get_elem?_bound, All, arith, min, u64_mod,
}
use cn_project.Message.{Packet, new_packet}
use cn_project.Tcp.{
  Effect, write_file, Env, TcpConnection, new_connection, max_packet_id, bodies, first_packet,
  le_bytes, packetize, OutBufferElement, dummy_element, element_of,
}
use cn_project.Segments.{segment, data_packets}
use cn_project.Segments.Layout.{rounds, wire, packetize_lem}
use cn_project.Segments.Message.{
  packet_at, get_elem?-data_packets, length-data_packets, length-segment, rounds_needed,
  bodies-wire, first_packet_size,
}
use cn_project.Reception.{IsTransfer, handle_all, arrivals, ack_of, reactions}
use cn_project.Reception.Progress.{Progress}
use cn_project.Reception.Delivery.{deliver}
use cn_project.Reception.Files.{
  files, sent, files-reactions, sent-reactions, files_complete, Holds, count_up,
}

-- The packets behind the pointers of an out buffer.
unfoldable pub packets : List OutBufferElement → List Packet
packets [] = []
packets (e ∷ es) = elim e.packet [ none ↦ packets es | some p ↦ p ∷ packets es ]

pub packets-map : (ps : List Packet) → packets (map element_of ps) ≡ ps
unfolding packets
packets-map [] = refl
packets-map (p ∷ ps) = ap (◌∷◌ p) (packets-map ps)

-- A receiver that has just been made waits for a header.
pub new_connection-Progress :
    (env : Env) (host end_point : String) (rtt : ℕ) (source : String) (h : Packet)
    (ds : List Packet)
    → Progress host source h ds 0 (new_connection env host end_point rtt)
unfolding new_connection bodies
new_connection-Progress env host end_point rtt source h ds = record {
  in_range = omega arith;
  in_host = refl;
  taken = refl;
  counted = refl;
  acked = refl;
  announced = λ lt. absurd (omega arith);
  sender = λ lt. absurd (omega arith);
}

-- A message that the ids tell apart, and none of whose segments looks like a header.
pub record IsSendable (env : Env) (c : TcpConnection) (msg : List ℕ) : Type 0 where
  pub pos : 0 < env.packet_size
  pub some_bytes : 0 < length msg
  pub fits : length msg < u64_mod
  pub few : suc (rounds env c msg) < max_packet_id
  pub size_ne : env.packet_size ≢ 8
  pub rest_ne : length msg % env.packet_size ≢ 8

module _ (env : Env) (c : TcpConnection) (msg : List ℕ) (s : IsSendable env c msg) where
  open env use {packet_size}

  abbrev header : Packet
  header = first_packet env c (length msg)

  abbrev parts : List Packet
  parts = data_packets packet_size c.corresponding_host c.end_point msg (rounds env c msg) 0

  part_at : ℕ → Packet
  part_at i = packet_at packet_size c.corresponding_host c.end_point msg i

  n_parts : length parts ≡ rounds env c msg
  n_parts =
      length-data_packets packet_size c.corresponding_host c.end_point msg (rounds env c msg) 0

  parts_lem :
      (i : ℕ) (p : Packet) → get_elem? parts i ≡ some p → (i < rounds env c msg) × (part_at i ≡ p)
  unfolding part_at
  parts_lem i p e = (lt, cc (found, same))
    where
      lt : i < rounds env c msg
      lt = omega (arith, get_elem?_bound parts i p e, n_parts)

      found : get_elem? parts i ≡ some (part_at (0 + i))
      found =
          get_elem?-data_packets packet_size c.corresponding_host c.end_point msg (rounds env c msg)
            0 i lt

      same : 0 + i ≡ i
      same = omega arith

  segment_pos : (i : ℕ) → i < rounds env c msg → 0 < length (segment packet_size msg i)
  segment_pos i lt = omega (
    arith,
    s.pos,
    length-segment packet_size c.corresponding_host c.end_point msg i,
    rounds_needed env c msg i s.pos lt,
  )

  last_rest :
      (i : ℕ) → length msg ≡ i * packet_size + 8 → 8 < packet_size → length msg % packet_size ≡ 8
  last_rest i e lt =
      ap (λ (t : ℕ). t % packet_size) e ∙ mul-add-mod_self_right i packet_size 8 ∙ mod-eq_of_lt lt

  segment_ne : (i : ℕ) → i < rounds env c msg → length (segment packet_size msg i) ≢ 8
  segment_ne i lt e =
      s.rest_ne (last_rest i (omega (arith, s.size_ne, size)) (omega (arith, s.size_ne, size, e)))
    where
      size : length (segment packet_size msg i) ≡ min packet_size (length msg - i * packet_size)
      size = length-segment packet_size c.corresponding_host c.end_point msg i

  part_id : (i : ℕ) → i < rounds env c msg → (part_at i).packet_id ≡ i + 2
  unfolding part_at new_packet
  part_id i lt = omega (arith, s.few)

  -- The packets of a message are a transfer in the sense of the receiver.
  pub wire-IsTransfer : IsTransfer c.corresponding_host header parts
  unfolding part_at first_packet new_packet
  wire-IsTransfer = record {
    few = omega (arith, s.few, n_parts);
    some_data = ground (arith, n_parts, s.some_bytes);
    header_size = unfold le_bytes in refl;
    announced = first_packet_size env c msg s.fits ∙ sym (ap length (bodies-wire env c msg s.pos));
    fits = rw (bodies-wire env c msg s.pos) s.fits;
    numbered = number;
    from_source = refl;
    filled = λ j p e.
        let (lt, same) = parts_lem j p e in subst (λ q. 0 < length q.body) same (segment_pos j lt);
    no_eight = λ j p e.
        let (lt, same) = parts_lem j p e in subst (λ q. length q.body ≢ 8) same (segment_ne j lt);
  }
    where
      number : (j : ℕ) (p : Packet) → get_elem? (header ∷ parts) j ≡ some p → p.packet_id ≡ j + 1
      number zero p e =
          let same : header ≡ p = cc in subst (λ (q : Packet). q.packet_id ≡ 1) same refl
      number (suc j) p e =
          let (lt, same) = parts_lem j p e in
          subst (λ (q : Packet). q.packet_id ≡ suc j + 1) same (part_id j lt ∙ omega arith)

  -- The buffer that is sent from.
  packed :
      c.out_buffer ≡ []
      → (b : TcpConnection) × (packetize env msg c ≡ some b)
        × (packets b.out_buffer ≡ header ∷ parts)
  unfolding packets
  packed empty = (
    record c { out_buffer = dummy_element ∷ map element_of (wire env c msg) },
    packetize_lem env c msg s.pos empty,
    packets-map (wire env c msg),
  )

  module _ (r_env : Env) (r_pos : 0 < r_env.packet_size) (host end_point : String) (rtt : ℕ) where
    abbrev pub receiver : TcpConnection
    receiver = new_connection r_env host end_point rtt

    abbrev pub Outcome : List Packet → List ℕ → TcpConnection → Type 0
    Outcome ps js c' =
        (handle_all r_env (arrivals ps js) receiver ≡ some c')
        × All (λ f. f ≡ msg) (files c'.effects)
        × (sent c'.effects ≡ map ack_of (arrivals ps js))
        × (Holds (count_up (length ps) 0) js → 0 < length (files c'.effects))

    outcome : (js : List ℕ) → (c' : TcpConnection) × Outcome (header ∷ parts) js c'
    unfolding new_connection
    outcome js =
        let (c', run, _, es) =
          deliver r_env host c.corresponding_host header parts wire-IsTransfer r_pos 0 js receiver
            (new_connection-Progress r_env host end_point rtt c.corresponding_host header parts) in
        (
          c',
          (
            run,
            rw es (
                subst (λ (b : List ℕ). All (λ f. f ≡ b) (files (did (bodies parts)))) whole
                  (files-reactions host c.corresponding_host (bodies parts) (header ∷ parts) 0 js)),
            rw es (sent-reactions host c.corresponding_host (bodies parts) (header ∷ parts) 0 js),
            λ r. rw es (
                files_complete host c.corresponding_host (bodies parts) (header ∷ parts)
                  (length (header ∷ parts)) 0 js (omega arith) (omega arith) r),
          ),
        )
      where
        whole : bodies parts ≡ msg
        whole = bodies-wire env c msg s.pos

        did : List ℕ → List Effect
        did bytes =
            reactions (write_file host c.corresponding_host bytes ∷ []) (header ∷ parts) 0 js

    -- A message that `packetize` cuts up, sent to a new receiver over a network that may lose, repeat
    -- and reorder its packets (`js` are the positions of those that arrive): the receiver answers each
    -- arrival with that packet's ack, each file that it writes is the message, and it writes one if
    -- all packets arrive at least once in order.
    pub transfer_lem :
        (js : List ℕ)
        → c.out_buffer ≡ []
        → (b : TcpConnection) × (c' : TcpConnection) × (packetize env msg c ≡ some b)
          × Outcome (packets b.out_buffer) js c'
    transfer_lem js empty =
        let (b, done, same) = packed empty in
        let (c', out) = outcome js in (b, c', done, subst (λ ps. Outcome ps js c') (sym same) out)
