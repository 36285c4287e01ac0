-- ===== src/Tcp/State.antt =====
-- TCPConnection.h: what a connection holds, and what its calls take from outside.
use cn_project.Base.{
  if◌then◌else◌, none, some, ℕ, String, Bool, true, false, Option, List, [], ◌∷◌, ◌++◌, u64_max,
  ◌*◌, ◌-◌, ◌^◌,
}
use cn_project.Message.{Packet}

-- `packet` is null in the first element only.
pub record OutBufferElement : Type 0 where
  pub packet : Option Packet
  pub is_acked : Bool
  pub is_sent : Bool
  pub time_sent : ℕ

-- What a connection asks of its host, of the disk and of the scheduler.
pub data Effect : Type 0 where
  send : Packet → Effect
  write_file : String → String → List ℕ → Effect
  sleep : ℕ → Effect

pub record TcpConnection : Type 0 where
  pub end_point : String
  pub corresponding_host : String
  pub cwnd : ℕ
  pub ssthresh : ℕ
  pub estimated_rtt : ℕ
  pub msg_buffer : List ℕ
  pub out_buffer : List OutBufferElement
  pub sender_last_packet_acked : ℕ
  pub last_packet_sent : ℕ
  pub timeout_threads : List ℕ
  pub is_timeout_allowed : Bool
  pub repeat_delay : ℕ
  pub start_time : ℕ
  pub is_open : Bool
  pub in_buffer : List Packet
  pub current_message_size : ℕ
  pub bytes_received_so_far : ℕ
  pub number_of_total_packets : ℕ
  pub receiver_last_packet_acked : ℕ
  -- The effects of the call so far, oldest first; no member of the class.
  pub effects : List Effect

-- Binary32 numbers as bit patterns, with the operations that `measureRTT` uses.
pub record FloatUnit : Type 0 where
  pub mul : ℕ → ℕ → ℕ
  pub add : ℕ → ℕ → ℕ
  pub of_int64 : ℕ → ℕ
  pub to_uint64 : ℕ → ℕ

-- What a call reads that is no part of the connection: the static `Packet_Size`, the clock, the
-- float unit, the bytes that lie in memory behind a message, and the value that an uninitialised
-- `m_repeatDelay` happens to have.
pub record Env : Type 0 where
  pub packet_size : ℕ
  pub now : ℕ
  pub floats : FloatUnit
  pub beyond : ℕ → ℕ
  pub indeterminate : ℕ

-- (2<<15) - 1
abbrev pub max_packet_id : ℕ
max_packet_id = 2 * 2 ^ 15 - 1

-- The constructor, and the default values of the members.
unfoldable pub new_connection : Env → String → String → ℕ → TcpConnection
new_connection env host end_point init_rtt = record {
  end_point = end_point;
  corresponding_host = host;
  cwnd = 1;
  ssthresh = u64_max;
  estimated_rtt = init_rtt;
  msg_buffer = [];
  out_buffer = [];
  sender_last_packet_acked = 0;
  last_packet_sent = 0;
  timeout_threads = [];
  is_timeout_allowed = false;
  repeat_delay = env.indeterminate;
  start_time = 0;
  is_open = true;
  in_buffer = [];
  current_message_size = 0;
  bytes_received_so_far = 0;
  number_of_total_packets = 0;
  receiver_last_packet_acked = 0;
  effects = [];
}

abbrev is_empty : List ℕ → Bool
is_empty [] = true
is_empty (x ∷ xs) = false

-- The move assignment: every member is taken from `other`. What was asked of the host stays asked.
-- The threads of `this` are destroyed, which is `std::terminate` if there are any: they stay
-- joinable until `stopTimeout` joins them.
unfoldable pub move_assign : TcpConnection → TcpConnection → Option TcpConnection
move_assign this other =
    if is_empty this.timeout_threads
    then some (record other { effects = this.effects ++ other.effects })
    else none

unfoldable pub emit : Effect → TcpConnection → TcpConnection
emit e c = record c { effects = c.effects ++ (e ∷ []) }
