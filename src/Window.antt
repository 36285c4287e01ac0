-- ===== src/Window.antt =====
-- The sending side in the course of a transmission: `wire` are the packets to send, the first of
-- them at index 1 of the out buffer.
pub mod Buffer
pub mod Sending
pub mod Round
pub mod Rtt
pub mod Ready
pub mod Acks
pub mod Timeout
pub mod Start
pub mod Finish
pub mod Session
pub mod Answer
pub mod Events
use cn_project.Base.{
  ℕ, suc, ◌+◌, ◌^◌, ◌≤◌, ◌<◌, ◌≡◌, true, Option, none, some, List, [], ◌∷◌, map, length,
}
use cn_project.Message.{Packet}
use cn_project.Tcp.{TcpConnection, OutBufferElement, max_packet_id}

abbrev pub pointers : List OutBufferElement → List (Option Packet)
pointers = map (λ e. e.packet)

-- A transmission is under way: something sent is not yet acknowledged, and a timer runs.
pub record IsSending (wire : List Packet) (c : TcpConnection) : Type 0 where
  pub buffered : pointers c.out_buffer ≡ none ∷ map some wire
  pub acked_lt : c.sender_last_packet_acked < c.last_packet_sent
  pub sent_le : c.last_packet_sent ≤ length wire
  pub window_pos : 0 < c.cwnd
  pub window_le : c.cwnd ≤ max_packet_id + c.sender_last_packet_acked
  pub threshold_pos : 0 < c.ssthresh
  pub small : length wire < 2 ^ 62
  pub allowed : c.is_timeout_allowed ≡ true
  pub timed : 0 < length c.timeout_threads
