-- ===== src/Segments/Layout.antt =====
-- The out buffer that `packetize` fills: a dummy, the header and the data packets.
use native.Mathlib.Numerals.{add-one}
use cn_project.Base.{
  ℕ, zero, suc, ◌+◌, ◌-◌, ◌*◌, ◌/◌, ◌%◌, ◌≤◌, ◌<◌, ◌≡◌, refl, sym, ap, ap₂, ◌∙◌, List, [], ◌∷◌, map,
  false, some, length, length-drop, take_all, arith, Bool-cases, inl, inr, ◌==◌, if◌then◌else◌, max,
}
use cn_project.Message.{Packet, new_packet, set_body}
use cn_project.Tcp.{
  Env, TcpConnection, OutBufferElement, max_packet_id, dummy_element, element_of, first_packet,
  read, resize, map_last, data_packet, data_elements, resize_body, packets_needed, packetize,
  filled,
}
use cn_project.Segments.{segment, data_packets}
use cn_project.Segments.Reading.{read_inside, resize-read}

module _ (env : Env) (c : TcpConnection) (msg : List ℕ) where
  open env use {packet_size, beyond}
  open c use {corresponding_host, end_point}

  abbrev plan : ℕ → ℕ → List OutBufferElement
  plan n k = map element_of (data_packets packet_size corresponding_host end_point msg n k)

  abbrev made : ℕ → List ℕ → Packet
  made k body = new_packet false ((k + 2) % max_packet_id) body corresponding_host end_point

  data_packet_lem :
      (k i : ℕ)
      → i ≡ k + 2
      → data_packet env c msg i ≡ made k (read beyond msg (k * packet_size) packet_size)
  unfolding data_packet
  data_packet_lem k i e =
      ap₂
        (λ (a b : ℕ).
          new_packet false (a % max_packet_id) (read beyond msg (b * packet_size) packet_size)
            corresponding_host end_point)
        e (omega arith)

  data_packet_full :
      (k i : ℕ)
      → i ≡ k + 2
      → (k + 1) * packet_size ≤ length msg
      → data_packet env c msg i ≡ made k (segment packet_size msg k)
  data_packet_full k i e h =
      data_packet_lem k i e
      ∙ ap (made k) (read_inside beyond msg packet_size (k * packet_size) (omega arith))

  -- Full segments are read inside the message.
  data_elements_full :
      (n k i : ℕ)
      → i ≡ k + 2
      → (n + k) * packet_size ≤ length msg
      → data_elements env c msg n i ≡ plan n k
  unfolding data_elements data_packets
  data_elements_full zero k i e h = refl
  data_elements_full (suc n) k i e h =
      ap₂ ◌∷◌ (ap element_of (data_packet_full k i e (grind arith)))
        (data_elements_full n (k + 1) (i + 1) (omega arith) (grind arith))

  -- A last segment of `r` bytes is read beyond the end, and cut.
  data_packet_cut :
      (r k i : ℕ)
      → i ≡ k + 2
      → k * packet_size + r ≡ length msg
      → r ≤ packet_size
      → resize_body r (element_of (data_packet env c msg i))
        ≡ element_of (made k (segment packet_size msg k))
  unfolding resize_body set_body new_packet
  data_packet_cut r k i e h small =
      rw (data_packet_lem k i e) (ap (λ b. element_of (made k b)) same)
    where
      same : resize r (read beyond msg (k * packet_size) packet_size) ≡ segment packet_size msg k
      same =
          resize-read beyond msg r packet_size (k * packet_size) small (omega arith)
          ∙ take_all r _ (omega (arith, length-drop (k * packet_size) msg))
          ∙ sym (take_all packet_size _ (omega (arith, length-drop (k * packet_size) msg)))

  data_elements_cut :
      (r n k i : ℕ)
      → i ≡ k + 2
      → (n + k) * packet_size + r ≡ length msg
      → r ≤ packet_size
      → map_last (resize_body r) (data_elements env c msg (suc n) i) ≡ plan (suc n) k
  unfolding data_elements data_packets map_last
  data_elements_cut r zero k i e h small =
      ap (λ x. x ∷ []) (data_packet_cut r k i e (grind arith) small)
  data_elements_cut r (suc n) k i e h small =
      ap₂ ◌∷◌ (ap element_of (data_packet_full k i e (grind arith)))
        (data_elements_cut r n (k + 1) (i + 1) (omega arith) (grind arith) small)

  abbrev pub rounds : ℕ
  rounds = length msg / packet_size + (if length msg % packet_size == 0 then 0 else 1)

  abbrev pub wire : List Packet
  wire =
      first_packet env c (length msg)
      ∷ data_packets packet_size corresponding_host end_point msg rounds 0

  capacity_lem : max 0 (packets_needed packet_size (length msg) + 1) - 2 ≡ rounds
  unfolding packets_needed
  capacity_lem = omega arith

  abbrev headed : List OutBufferElement → List OutBufferElement
  headed ds = dummy_element ∷ element_of (first_packet env c (length msg)) ∷ ds

  filled_cut :
      (r n : ℕ)
      → n * packet_size + r ≡ length msg
      → r ≤ packet_size
      → map_last (resize_body r) (headed (data_elements env c msg (suc n) 2))
        ≡ headed (plan (suc n) 0)
  unfolding map_last data_elements
  filled_cut r n h small = ap headed (data_elements_cut r n 0 2 refl (grind arith) small)

  filled_lem : 0 < packet_size → filled env c msg [] ≡ dummy_element ∷ map element_of wire
  unfolding filled
  filled_lem pos = rw capacity_lem (elim (Bool-cases (length msg % packet_size == 0)) [
    | inl whole ↦
        rw whole
          (ap headed (data_elements_full (length msg / packet_size + 0) 0 2 refl (ground arith)))
    | inr part ↦
        rw (part, add-one)
          (filled_cut (length msg % packet_size) (length msg / packet_size) (grind arith)
            (omega arith))
  ])

  -- `packetize` on an empty buffer: the dummy, then the header and the segments of the message. The
  -- bytes behind the message, which the loop reads, have no influence.
  pub packetize_lem :
      0 < packet_size
      → c.out_buffer ≡ []
      → packetize env msg c ≡ some (record c { out_buffer = dummy_element ∷ map element_of wire })
  unfolding packetize
  packetize_lem pos empty = ground (arith, ap (filled env c msg) empty ∙ filled_lem pos)
