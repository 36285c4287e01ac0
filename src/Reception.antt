-- ===== src/Reception.antt =====
-- The receiving side against an arbitrary sequence of arrivals: packets may be lost, repeated and
-- out of order. What a receiver must do is told by a counter of the packets taken in order.
pub mod Progress
pub mod Arrival
pub mod Delivery
pub mod Files
use cn_project.Base.{
  ℕ, zero, suc, ◌+◌, ◌<◌, ◌≡◌, ◌≢◌, String, Bool, true, Option, some, none, List, [], ◌∷◌, ◌++◌,
  length, drop, get_elem?, ◌==◌, if◌then◌else◌, u64_mod,
}
use cn_project.Message.{Packet, set_is_ack, switch_addresses}
use cn_project.Tcp.{
  Env, TcpConnection, Effect, send, write_file, max_packet_id, le_value, bodies, handle_data,
}

-- A header `h` and data packets `ds` that transmit one message from `source`.
pub record IsTransfer (source : String) (h : Packet) (ds : List Packet) : Type 0 where
  pub few : suc (length ds) < max_packet_id
  pub some_data : 0 < length ds
  pub header_size : length h.body ≡ 8
  pub announced : le_value h.body ≡ length (bodies ds)
  pub fits : length (bodies ds) < u64_mod
  pub numbered : (j : ℕ) (p : Packet) → get_elem? (h ∷ ds) j ≡ some p → p.packet_id ≡ j + 1
  pub from_source : h.source ≡ source
  pub filled : (j : ℕ) (p : Packet) → get_elem? ds j ≡ some p → 0 < length p.body
  -- A data packet of eight bytes looks like a header.
  pub no_eight : (j : ℕ) (p : Packet) → get_elem? ds j ≡ some p → length p.body ≢ 8

-- The number of packets taken in order, after the arrival of packet `j` of `n`.
abbrev pub advance : ℕ → ℕ → ℕ → ℕ
advance n k j = if j == k then (if suc k == n then 0 else suc k) else k

-- The packets at the given positions.
unfoldable pub arrivals : List Packet → List ℕ → List Packet
arrivals wire [] = []
arrivals wire (j ∷ js) = elim (get_elem? wire j) [
  | none ↦ arrivals wire js
  | some p ↦ p ∷ arrivals wire js
]

unfoldable pub handle_all : Env → List Packet → TcpConnection → Option TcpConnection
handle_all env [] c = some c
handle_all env (p ∷ ps) c = elim (handle_data env p c) [
  | none ↦ none
  | some c' ↦ handle_all env ps c'
]

abbrev pub ack_of : Packet → Packet
ack_of p = record p { is_ack = true; source = p.destination; destination = p.source }

-- What the receiver does at one arrival: it answers with the packet's ack, and writes the file
-- before that if the last packet has come in order.
abbrev pub reaction : List Effect → ℕ → ℕ → ℕ → Packet → List Effect
reaction file n k j p =
    if j == k
    then (if suc k == n then file ++ (send (ack_of p) ∷ []) else send (ack_of p) ∷ [])
    else send (ack_of p) ∷ []

-- What it does at a sequence of arrivals.
unfoldable pub reactions : List Effect → List Packet → ℕ → List ℕ → List Effect
reactions file wire k [] = []
reactions file wire k (j ∷ js) = elim (get_elem? wire j) [
  | none ↦ reactions file wire k js
  | some p ↦ reaction file (length wire) k j p ++ reactions file wire (advance (length wire) k j) js
]
