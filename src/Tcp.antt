-- ===== src/Tcp.antt =====
-- TCPConnection.h and TCPConnection.cpp.
mod State
mod Packetize
mod Sender
mod Receiver
unfoldable pub use State.*
unfoldable pub use Packetize.*
unfoldable pub use Sender.*
unfoldable pub use Receiver.*
use cn_project.Base.{ℕ, String, List, Option, if◌then◌else◌}
use cn_project.Message.{Packet}

unfoldable pub take_packet : Env → Packet → TcpConnection → Option TcpConnection
take_packet env packet c =
    if packet.is_ack then handle_ack env packet c else handle_data env packet c

-- The public methods of the class, through which a host uses its connections.
pub record ConnectionInterface (C : Type 0) : Type 0 where
  pub construct : String → String → ℕ → C
  pub assign : C → C → Option C
  pub take_packet : Packet → C → Option C
  pub close_connection : C → C
  pub reset_connection : C → Option C
  pub get_estimated_timeout : C → ℕ
  pub send_message : List ℕ → ℕ → C → Option C
  pub get_end_point : C → String

abbrev pub connection_interface : Env → ConnectionInterface TcpConnection
connection_interface env = record {
  construct = new_connection env;
  assign = move_assign;
  take_packet = take_packet env;
  close_connection = close_connection;
  reset_connection = reset_connection env;
  get_estimated_timeout = get_estimated_timeout;
  send_message = send_message env;
  get_end_point = get_end_point;
}
