-- ===== src/Tests/Exchange.antt =====
-- A message of seven bytes between two hosts, with losses, repetitions and timers.
use cn_project.Base.{
  ℕ, Option, none, map, ◌≡◌, ◌⊎◌, ◌<◌, ◌++◌, refl, some, List, [], ◌∷◌, length, All, arith, false,
  u64_max,
}
use cn_project.Message.{set_is_ack, switch_addresses}
use cn_project.Tcp.{
  TcpConnection, send_message, handle_data, is_first_packet, store_header, store_data,
  expected_data, acknowledge, send_packet_ack, emit, le_value, bodies,
  on_new_file_completely_received, new_connection,
}
use cn_project.Reception.{handle_all, arrivals}
use cn_project.Reception.Files.{files, sent}
use cn_project.Transfer.{IsSendable}
use cn_project.Segments.Layout.{wire}
use cn_project.Window.{IsSending}
use cn_project.Window.Start.{restarted}
use cn_project.Window.Finish.{IsOver}
use cn_project.Exchange.{
  Exchange, ExchangeEvent, packet_arrives, ack_arrives, ack_lost, timer_ends, exchange,
}
use cn_project.Exchange.Complete.{lose_all, in_order}
use cn_project.Exchange.Message.{begun, exchange_lem, exchange_complete}
use cn_project.Tests.Values.{env, message, sender, receiver}
use cn_project.Tests.Sending.{packets}

abbrev start : TcpConnection
start = restarted message u64_max sender

start-IsSendable : IsSendable env start message
start-IsSendable = record {
  pos = omega arith;
  some_bytes = omega arith;
  fits = omega arith;
  few = omega arith;
  size_ne = omega arith;
  rest_ne = omega arith;
}

-- The ack of the header is lost, and the second data packet comes before the first.
abbrev events : List ExchangeEvent
events =
    packet_arrives 1001 0
    ∷ ack_lost 0
    ∷ timer_ends 2000 false
    ∷ packet_arrives 2001 0
    ∷ ack_arrives 2002
    ∷ packet_arrives 2003 2
    ∷ packet_arrives 2004 1
    ∷ ack_arrives 2005
    ∷ []

abbrev begin : TcpConnection → Exchange
begin c' =
    begun env env message sender start-IsSendable (omega arith) (omega arith) (omega arith) "b" "a"
      500 c'

exchange_lem_example :
    (c' : TcpConnection) × (x : Exchange) × (send_message env message u64_max sender ≡ some c')
    × (exchange env env (wire env start message) events (begin c') ≡ some x)
    × All (λ bytes. bytes ≡ message) x.written
    × (IsSending (wire env start message) x.sender
        ⊎ (IsOver (wire env start message) x.sender × (0 < length x.written)))
exchange_lem_example =
    exchange_lem env env message sender start-IsSendable (omega arith) (omega arith) (omega arith)
      "b" "a" 500 events

exchange_complete_example :
    (c' : TcpConnection) × (x : Exchange) × (y : Exchange) × (send_message env message u64_max
        sender
      ≡ some c')
    × (exchange env env (wire env start message) events (begin c') ≡ some x)
    × (exchange env env
          (wire env start message)
          (lose_all x.acks ++ in_order 3000 (length (wire env start message)) 0)
          x
        ≡ some y)
    × IsOver (wire env start message) y.sender
    × (0 < length y.written)
    × All (λ bytes. bytes ≡ message) y.written
exchange_complete_example =
    exchange_complete env env message sender start-IsSendable (omega arith) (omega arith)
      (omega arith) "b" "a" 500 events 3000

-- Packets that come out of order are acknowledged without being taken: the receiver has acknowledged
-- all four, has taken two, and has written no file. An ack that overtakes others would count.
abbrev out_of_order : Option TcpConnection
out_of_order = handle_all env (arrivals packets (0 ∷ 2 ∷ 3 ∷ 1 ∷ [])) receiver

abbrev ids : Option TcpConnection → List ℕ
ids none = []
ids (some c) = map (λ p. p.packet_id) (sent c.effects)

abbrev taken_so_far : Option TcpConnection → ℕ × List (List ℕ)
taken_so_far none = (0, [])
taken_so_far (some c) = (c.receiver_last_packet_acked, files c.effects)

acknowledged_untaken :
    (ids out_of_order ≡ 1 ∷ 3 ∷ 4 ∷ 2 ∷ []) × (taken_so_far out_of_order ≡ (2, []))
unfolding handle_all arrivals handle_data is_first_packet store_header store_data expected_data
    acknowledge send_packet_ack emit set_is_ack switch_addresses le_value bodies files sent
    on_new_file_completely_received new_connection
acknowledged_untaken = (refl, refl)
