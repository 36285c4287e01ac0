-- ===== src/Tcp/Receiver.antt =====
-- TCPConnection.cpp, the receiving side. `none` is the division by zero at `Packet_Size` 0.
use cn_project.Base.{
  ℕ, ◌+◌, ◌/◌, ◌%◌, Bool, true, false, ◌&&◌, Option, none, some, List, [], ◌∷◌, ◌++◌, length, drop,
  ◌==◌, if◌then◌else◌, add64,
}
use cn_project.Message.{Packet, set_is_ack, switch_addresses}
use cn_project.Tcp.State.{TcpConnection, Env, send, write_file, max_packet_id, emit}
use cn_project.Tcp.Packetize.{le_value}

abbrev pub is_empty {ℓ} : {A : Type ℓ} → List A → Bool
is_empty [] = true
is_empty (x ∷ xs) = false

-- The bodies one after the other, as they are written to the file.
unfoldable pub bodies : List Packet → List ℕ
bodies [] = []
bodies (p ∷ ps) = p.body ++ bodies ps

unfoldable pub send_packet_ack : Packet → TcpConnection → TcpConnection
unfolding emit set_is_ack switch_addresses
send_packet_ack packet c = emit (send (switch_addresses (set_is_ack true packet))) c

-- The first packet of the buffer is the header.
unfoldable pub on_new_file_completely_received : TcpConnection → TcpConnection
unfolding emit
on_new_file_completely_received c =
    let written =
      emit (write_file c.corresponding_host c.end_point (bodies (drop 1 c.in_buffer))) c in
    record written {
      in_buffer = [];
      bytes_received_so_far = 0;
      current_message_size = 0;
      number_of_total_packets = 0;
      receiver_last_packet_acked = 0;
    }

unfoldable pub expected_data : TcpConnection → ℕ
expected_data c = (c.receiver_last_packet_acked + 1) % max_packet_id

unfoldable pub is_first_packet : Packet → TcpConnection → Bool
is_first_packet packet c =
    is_empty c.in_buffer && (c.bytes_received_so_far == 0 && length packet.body == 8)

unfoldable pub store_header : Env → Packet → TcpConnection → Option TcpConnection
store_header env packet c =
    let size = le_value packet.body in
    let more = if size % env.packet_size == 0 then 0 else 1 in
    if env.packet_size == 0
    then none
    else some (record c {
      start_time = env.now;
      end_point = packet.source;
      current_message_size = size;
      number_of_total_packets = size / env.packet_size + more + 1;
      in_buffer = c.in_buffer ++ (packet ∷ []);
    })

unfoldable pub store_data : Packet → TcpConnection → TcpConnection
store_data packet c =
    let received = add64 c.bytes_received_so_far (length packet.body) in
    let stored = record c {
      in_buffer = c.in_buffer ++ (packet ∷ []);
      bytes_received_so_far = received;
    } in
    if c.current_message_size == received then on_new_file_completely_received stored else stored

-- The counter moves if the packet is the one that it waits for, and every packet is acknowledged.
unfoldable pub acknowledge : Packet → TcpConnection → TcpConnection
acknowledge packet c =
    let next = if packet.packet_id == expected_data c then 1 else 0 in
    send_packet_ack packet
      (record c { receiver_last_packet_acked = c.receiver_last_packet_acked + next })

unfoldable pub handle_data : Env → Packet → TcpConnection → Option TcpConnection
handle_data env packet c =
    if is_first_packet packet c
    then (elim (store_header env packet c) [ none ↦ none | some c' ↦ some (acknowledge packet c') ])
    else if packet.packet_id == expected_data c
    then some (acknowledge packet (store_data packet c))
    else some (acknowledge packet c)
