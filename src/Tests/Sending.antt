-- ===== src/Tests/Sending.antt =====
-- The sending side in the course of a transmission: the window of the packets 2 and 3 of four, the
-- header being acknowledged.
use cn_project.Base.{ℕ, refl, List, [], ◌∷◌, arith, true, false, u64_max}
use cn_project.Message.{Packet}
use cn_project.Tcp.{TcpConnection, OutBufferElement, dummy_element, element_of}
use cn_project.Window.{IsSending}
use cn_project.Tests.Values.{message}

abbrev pub data_of : ℕ → List ℕ → Packet
data_of id body = record {
  is_ack = false;
  packet_id = id;
  source = "a";
  destination = "b";
  body = body;
}

abbrev pub packets : List Packet
packets =
    data_of 1 (7 ∷ 0 ∷ 0 ∷ 0 ∷ 0 ∷ 0 ∷ 0 ∷ 0 ∷ [])
    ∷ data_of 2 (10 ∷ 11 ∷ 12 ∷ [])
    ∷ data_of 3 (13 ∷ 14 ∷ 15 ∷ [])
    ∷ data_of 4 (16 ∷ [])
    ∷ []

abbrev pub ack : ℕ → Packet
ack id = record { is_ack = true; packet_id = id; source = "b"; destination = "a"; body = [] }

abbrev pub sent_at : ℕ → Packet → OutBufferElement
sent_at time p = record (element_of p) { is_sent = true; time_sent = time }

abbrev pub acked : OutBufferElement → OutBufferElement
acked e = record e { is_acked = true }

abbrev pub in_window : TcpConnection
in_window = record {
  end_point = "b";
  corresponding_host = "a";
  cwnd = 2;
  ssthresh = u64_max;
  estimated_rtt = 500;
  msg_buffer = message;
  out_buffer =
      dummy_element
      ∷ acked (sent_at 700 (data_of 1 (7 ∷ 0 ∷ 0 ∷ 0 ∷ 0 ∷ 0 ∷ 0 ∷ 0 ∷ [])))
      ∷ sent_at 800 (data_of 2 (10 ∷ 11 ∷ 12 ∷ []))
      ∷ sent_at 800 (data_of 3 (13 ∷ 14 ∷ 15 ∷ []))
      ∷ element_of (data_of 4 (16 ∷ []))
      ∷ [];
  sender_last_packet_acked = 1;
  last_packet_sent = 3;
  timeout_threads = 500 ∷ [];
  is_timeout_allowed = true;
  repeat_delay = u64_max;
  start_time = 600;
  is_open = true;
  in_buffer = [];
  current_message_size = 0;
  bytes_received_so_far = 0;
  number_of_total_packets = 0;
  receiver_last_packet_acked = 0;
  effects = [];
}

pub in_window_lem : IsSending packets in_window
in_window_lem = record {
  buffered = refl;
  acked_lt = omega arith;
  sent_le = omega arith;
  window_pos = omega arith;
  window_le = omega arith;
  threshold_pos = omega arith;
  small = omega arith;
  allowed = refl;
  timed = omega arith;
}

-- Later on: only the last packet is missing, which goes out `repeat_delay` after the end anew.
abbrev pub at_end : ℕ → TcpConnection
at_end delay = record in_window {
  sender_last_packet_acked = 3;
  last_packet_sent = 4;
  cwnd = 4;
  repeat_delay = delay;
}

pub at_end_lem : (delay : ℕ) → IsSending packets (at_end delay)
at_end_lem delay = record {
  buffered = refl;
  acked_lt = omega arith;
  sent_le = omega arith;
  window_pos = omega arith;
  window_le = omega arith;
  threshold_pos = omega arith;
  small = omega arith;
  allowed = refl;
  timed = omega arith;
}
