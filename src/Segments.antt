-- ===== src/Segments.antt =====
-- What `packetize` makes of a message, described without the loop and the memory that it reads.
pub mod Reading
pub mod Layout
pub mod Message
use cn_project.Base.{ℕ, zero, suc, ◌+◌, ◌*◌, ◌%◌, String, false, List, [], ◌∷◌, take, drop}
use cn_project.Message.{Packet, new_packet}
use cn_project.Tcp.{max_packet_id, le_bytes}

-- The bytes of the `k`-th data packet.
abbrev pub segment : ℕ → List ℕ → ℕ → List ℕ
segment size msg k = take size (drop (k * size) msg)

module _ (size : ℕ) (host end_point : String) (msg : List ℕ) where
  -- `n` data packets from the `k`-th on; the id of the first data packet is 2.
  unfoldable pub data_packets : ℕ → ℕ → List Packet
  data_packets zero k = []
  data_packets (suc n) k =
      new_packet false ((k + 2) % max_packet_id) (segment size msg k) host end_point
      ∷ data_packets n (k + 1)
