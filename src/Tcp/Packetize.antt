-- ===== src/Tcp/Packetize.antt =====
-- TCPConnection.cpp, `packetize`: a message is cut into a header packet and data packets.
use cn_project.Base.{
  ℕ, zero, suc, ◌+◌, ◌-◌, ◌*◌, ◌/◌, ◌%◌, max, false, Option, none, some, List, [], ◌∷◌, ◌++◌,
  length, ◌==◌, if◌then◌else◌,
}
use mathlib.Core.Option
use cn_project.Message.{Packet, new_packet, set_body}
use cn_project.Tcp.State.{OutBufferElement, TcpConnection, Env, max_packet_id}

-- A `uint64_t` as its eight bytes in memory, least first.
unfoldable pub le_bytes : ℕ → ℕ → List ℕ
le_bytes zero n = []
le_bytes (suc k) n = (n % 256) ∷ le_bytes k (n / 256)

unfoldable pub le_value : List ℕ → ℕ
le_value [] = 0
le_value (b ∷ bs) = b + 256 * le_value bs

-- `vector::resize`: cut, or filled up with zeros.
unfoldable pub resize : ℕ → List ℕ → List ℕ
resize zero xs = []
resize (suc n) [] = 0 ∷ resize n []
resize (suc n) (x ∷ xs) = x ∷ resize n xs

-- `back()` is changed.
unfoldable pub map_last {ℓ} : {A : Type ℓ} → (A → A) → List A → List A
map_last f [] = []
map_last f (x ∷ []) = f x ∷ []
map_last f (x ∷ y ∷ ys) = x ∷ map_last f (y ∷ ys)

-- The byte at an offset from the message's start: behind its end lies other memory.
unfoldable pub byte_at : (ℕ → ℕ) → List ℕ → ℕ → ℕ
byte_at beyond [] i = beyond i
byte_at beyond (x ∷ xs) zero = x
byte_at beyond (x ∷ xs) (suc i) = byte_at beyond xs i

-- `std::vector<char>(msgBuff + from, msgBuff + from + n)`
unfoldable pub read : (ℕ → ℕ) → List ℕ → ℕ → ℕ → List ℕ
read beyond msg from zero = []
read beyond msg from (suc n) = byte_at beyond msg from ∷ read beyond msg (from + 1) n

abbrev pub dummy_element : OutBufferElement
dummy_element = record { packet = none; is_acked = false; is_sent = false; time_sent = 0 }

abbrev pub element_of : Packet → OutBufferElement
element_of p = record { packet = some p; is_acked = false; is_sent = false; time_sent = 0 }

module _ (env : Env) (c : TcpConnection) where
  open env use {packet_size, beyond}

  unfoldable pub first_packet : ℕ → Packet
  first_packet size = new_packet false 1 (le_bytes 8 size) c.corresponding_host c.end_point

  unfoldable pub data_packet : List ℕ → ℕ → Packet
  data_packet msg i =
      new_packet false (i % max_packet_id) (read beyond msg ((i - 2) * packet_size) packet_size)
        c.corresponding_host c.end_point

  -- The loop's rounds from `i` on.
  unfoldable pub data_elements : List ℕ → ℕ → ℕ → List OutBufferElement
  data_elements msg zero i = []
  data_elements msg (suc rounds) i =
      element_of (data_packet msg i) ∷ data_elements msg rounds (i + 1)

unfoldable pub resize_body : ℕ → OutBufferElement → OutBufferElement
resize_body n e = record e { packet = Option.map (λ p. set_body (resize n p.body) p) e.packet }

unfoldable pub packets_needed : ℕ → ℕ → ℕ
packets_needed packet_size size =
    size / packet_size + 1 + (if size % packet_size == 0 then 0 else 1)

-- The buffer after the loop and the cut of the last body; `before` is what it held. `reserve`
-- allocates as much as it is asked for, and the loop runs up to the capacity.
unfoldable pub filled : Env → TcpConnection → List ℕ → List OutBufferElement → List OutBufferElement
filled env c msg before =
    let size = length msg in
    let capacity = max (length before) (packets_needed env.packet_size size + 1) in
    let header = element_of (first_packet env c size) in
    let whole = before ++ (dummy_element ∷ header ∷ data_elements env c msg (capacity - 2) 2) in
    let cut = size % env.packet_size in if cut == 0 then whole else map_last (resize_body cut) whole

-- `none` is the division by zero at `Packet_Size` 0.
unfoldable pub packetize : Env → List ℕ → TcpConnection → Option TcpConnection
packetize env msg c =
    if env.packet_size == 0
    then none
    else some (record c { out_buffer = filled env c msg c.out_buffer })
