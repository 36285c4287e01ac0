-- ===== src/Tests/Reception.antt =====
-- Segmentation and reception at a message of seven bytes in packets of three.
use cn_project.Base.{◌+◌, ◌*◌, ◌<◌, length, All, ◌≡◌, refl, some, [], ◌∷◌, map, arith}
use cn_project.Tcp.{TcpConnection, new_connection, packetize, dummy_element, element_of}
use cn_project.Segments.Layout.{wire, packetize_lem}
use cn_project.Transfer.Bounds.{IsFit, packetize_bounds}
use cn_project.Transfer.{IsSendable, transfer_lem, packets, Outcome}
use cn_project.Tests.Values.{env, message, sender}

message-IsSendable : IsSendable env sender message
message-IsSendable = record {
  pos = omega arith;
  some_bytes = omega arith;
  fits = omega arith;
  few = omega arith;
  size_ne = omega arith;
  rest_ne = omega arith;
}

packetize_lem_example :
    packetize env message sender
    ≡ some (record sender { out_buffer = dummy_element ∷ map element_of (wire env sender message) })
packetize_lem_example =
    packetize_lem env sender message (omega arith) (unfold new_connection in refl)

transfer_lem_example :
    (b : TcpConnection) × (c' : TcpConnection) × (packetize env message sender ≡ some b)
    × Outcome env sender message message-IsSendable env
        (omega arith)
        "b"
        "a"
        500
        (packets b.out_buffer)
        (0 ∷ 2 ∷ 1 ∷ 1 ∷ 3 ∷ 2 ∷ 3 ∷ [])
        c'
transfer_lem_example =
    transfer_lem env sender message message-IsSendable env (omega arith) "b" "a" 500
      (0 ∷ 2 ∷ 1 ∷ 1 ∷ 3 ∷ 2 ∷ 3 ∷ []) (unfold new_connection in refl)

packetize_bounds_example :
    (b : TcpConnection) × (packetize env message sender ≡ some b)
    × All (IsFit env sender) (packets b.out_buffer)
    × (length (packets b.out_buffer) * 3 < length message + 2 * 3)
packetize_bounds_example =
    packetize_bounds env sender message (omega arith) (unfold new_connection in refl)
