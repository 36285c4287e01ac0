-- ===== src/Segments/Message.antt =====
-- Putting the segments together again gives the message; the header tells its size.
use native.Mathlib.Nat.{pow-suc}
use cn_project.Base.{
  ℕ, zero, suc, ◌+◌, ◌-◌, ◌*◌, ◌/◌, ◌%◌, ◌^◌, ◌≤◌, ◌<◌, ◌≡◌, refl, sym, ap, ◌∙◌, String, List, min,
  ◌++◌, some, length, take, drop, get_elem?, length-take, length-drop, take_all, take_split,
  drop_split, arith, Bool-cases, inl, inr, ◌==◌, u64_mod, false,
}
use cn_project.Message.{Packet, new_packet}
use cn_project.Tcp.{Env, TcpConnection, max_packet_id, le_bytes, le_value, first_packet, bodies}
use cn_project.Segments.{segment, data_packets}
use cn_project.Segments.Layout.{rounds}

-- Reading back the bytes of a number that fits gives the number.
pub le_value-le_bytes : (k n : ℕ) → n < 256 ^ k → le_value (le_bytes k n) ≡ n
unfolding le_bytes le_value
le_value-le_bytes zero n h = omega arith
le_value-le_bytes (suc k) n h =
    omega (arith, le_value-le_bytes k (n / 256) (omega (arith, pow-suc 256 k)))

module _ (size : ℕ) (host end_point : String) (msg : List ℕ) where
  abbrev from : ℕ → ℕ → List Packet
  from n k = data_packets size host end_point msg n k

  -- The bodies of `n` packets from the `k`-th on are the bytes from `k * size` on.
  pub bodies-data_packets : (n k : ℕ) → bodies (from n k) ≡ take (n * size) (drop (k * size) msg)
  unfolding bodies data_packets new_packet
  bodies-data_packets zero k =
      ap (λ (t : ℕ). take t (drop (k * size) msg)) {x = 0} {y = 0 * size} (omega arith)
  bodies-data_packets (suc n) k =
      ap (◌++◌ (segment size msg k)) (
        bodies-data_packets n (k + 1)
        ∙ ap (take (n * size))
            (sym (drop_split (k * size) size ((k + 1) * size) msg (omega arith))))
      ∙ sym (take_split size (n * size) (suc n * size) (drop (k * size) msg) (omega arith))

  pub length-data_packets : (n k : ℕ) → length (from n k) ≡ n
  unfolding data_packets
  length-data_packets zero k = refl
  length-data_packets (suc n) k = ap suc (length-data_packets n (k + 1))

  abbrev pub packet_at : ℕ → Packet
  packet_at i = new_packet false ((i + 2) % max_packet_id) (segment size msg i) host end_point

  -- The `j`-th of these packets.
  pub get_elem?-data_packets :
      (n k j : ℕ) → j < n → get_elem? (from n k) j ≡ some (packet_at (k + j))
  unfolding data_packets
  get_elem?-data_packets zero k j h = elim h [ ]
  get_elem?-data_packets (suc n) k zero h = ap (λ i. some (packet_at i)) (omega arith)
  get_elem?-data_packets (suc n) k (suc j) h =
      get_elem?-data_packets n (k + 1) j (omega arith) ∙ ap (λ i. some (packet_at i)) (omega arith)

  pub length-segment : (i : ℕ) → length (segment size msg i) ≡ min size (length msg - i * size)
  length-segment i = rw length-take (ap (min size) (length-drop (i * size) msg))

module _ (env : Env) (c : TcpConnection) (msg : List ℕ) where
  open env use {packet_size}

  pub rounds_cover : 0 < packet_size → length msg ≤ rounds env c msg * packet_size
  rounds_cover pos = grind arith

  -- Every data packet starts inside the message.
  pub rounds_needed :
      (i : ℕ) → 0 < packet_size → i < rounds env c msg → i * packet_size < length msg
  rounds_needed i pos h = elim (Bool-cases (length msg % packet_size == 0)) [
    | inl whole ↦ below (length msg / packet_size) (ground arith) (ground arith)
    | inr part ↦ within (length msg / packet_size) (ground arith) (ground arith)
  ]
    where
      below : (q : ℕ) → i < q → q * packet_size ≤ length msg → i * packet_size < length msg
      below q a b = grind arith

      within : (q : ℕ) → i ≤ q → q * packet_size < length msg → i * packet_size < length msg
      within q a b = grind arith

  -- At a positive packet size, the bodies of all data packets one after the other are the message.
  pub bodies-wire :
      0 < packet_size
      → bodies (data_packets packet_size c.corresponding_host c.end_point msg (rounds env c msg) 0)
        ≡ msg
  bodies-wire pos =
      bodies-data_packets packet_size c.corresponding_host c.end_point msg (rounds env c msg) 0
      ∙ ap (λ (t : ℕ). take (rounds env c msg * packet_size) (drop t msg)) {x = 0 * packet_size}
          {y = 0} (omega arith)
      ∙ take_all (rounds env c msg * packet_size) msg (rounds_cover pos)

  -- The header announces the size of a message shorter than 2^64.
  pub first_packet_size :
      length msg < u64_mod → le_value (first_packet env c (length msg)).body ≡ length msg
  unfolding first_packet new_packet
  first_packet_size h = le_value-le_bytes 8 (length msg) h
