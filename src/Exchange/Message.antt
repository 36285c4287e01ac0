-- ===== src/Exchange/Message.antt =====
-- A message is sent by `sendMessage` to a new receiver.
use cn_project.Base.{
  ℕ, zero, suc, ◌+◌, ◌^◌, ◌<◌, ◌≡◌, ◌⊎◌, refl, subst, String, false, some, List, [], ◌∷◌, ◌++◌,
  length, arith, inl, inr, All, u64_max,
}
use cn_project.Message.{Packet, new_packet}
use cn_project.Tcp.{Env, TcpConnection, max_packet_id, send_message, new_connection, first_packet}
use cn_project.Segments.{data_packets}
use cn_project.Segments.Layout.{wire, rounds}
use cn_project.Segments.Message.{bodies-wire, length-data_packets}
use cn_project.Reception.{IsTransfer}
use cn_project.Transfer.{IsSendable, wire-IsTransfer, new_connection-Progress}
use cn_project.Window.{IsSending}
use cn_project.Window.Start.{HasBegun, restarted, send_message_lem}
use cn_project.Window.Finish.{IsOver}
use cn_project.Exchange.{Exchange, ExchangeEvent, performed, exchange}
use cn_project.Exchange.Arrivals.{InExchange, performed-InSession}
use cn_project.Exchange.Complete.{lose_all, in_order, complete_lem}
use cn_project.Exchange.Steps.{exchange-InExchange, InExchange-IsDone}

-- A message that the ids tell apart with one to spare, for connections with a receiver elsewhere.
module _ (sender_env receiver_env : Env) (msg : List ℕ) (c : TcpConnection)
    (sendable : IsSendable sender_env (restarted msg u64_max c) msg)
    (few : suc (suc (rounds sender_env (restarted msg u64_max c) msg)) < max_packet_id)
    (small : length msg < 2 ^ 61) (receiver_pos : 0 < receiver_env.packet_size)
    (host end_point : String) (rtt : ℕ) where
  abbrev pub f : TcpConnection
  f = restarted msg u64_max c

  abbrev pub on_wire : List Packet
  on_wire = wire sender_env f msg

  abbrev header : Packet
  header = first_packet sender_env f (length msg)

  abbrev parts : List Packet
  parts =
      data_packets sender_env.packet_size f.corresponding_host f.end_point msg
        (rounds sender_env f msg) 0

  on_wire-IsTransfer : IsTransfer f.corresponding_host header parts
  on_wire-IsTransfer = wire-IsTransfer sender_env f msg sendable

  data_packets_only :
      (size : ℕ) (from to : String) (m k : ℕ)
      → All (λ (p : Packet). p.is_ack ≡ false) (data_packets size from to msg m k)
  unfolding data_packets new_packet
  data_packets_only size from to zero k = tt
  data_packets_only size from to (suc m) k = (refl, data_packets_only size from to m (k + 1))

  only_data : All (λ (p : Packet). p.is_ack ≡ false) (header ∷ parts)
  unfolding first_packet new_packet
  only_data = (refl, data_packets_only sender_env.packet_size _ _ _ 0)

  few_on_wire : length (header ∷ parts) + 1 < max_packet_id
  few_on_wire = omega (
    arith,
    few,
    length-data_packets sender_env.packet_size f.corresponding_host f.end_point msg
        (rounds sender_env f msg) 0,
  )

  abbrev In : Exchange → Type 0
  In =
      InExchange sender_env receiver_env host f.corresponding_host header parts on_wire-IsTransfer
        receiver_pos only_data few_on_wire

  -- The sender has just sent the header, to a receiver that is new.
  abbrev pub begun : TcpConnection → Exchange
  begun c' = record {
    sender = performed c';
    receiver = new_connection receiver_env host end_point rtt;
    acks = [];
    written = [];
  }

  begun-In : (c' : TcpConnection) → HasBegun sender_env msg f c' → In (begun c')
  unfolding new_connection
  begun-In c' b = record {
    taken = 0;
    session =
        performed-InSession (header ∷ parts) c'
          (record { opened = b.opened; once = b.repeating; phase = inl b.sending });
    progress =
        new_connection-Progress receiver_env host end_point rtt f.corresponding_host header parts;
    idle = refl;
    known = tt;
    right = tt;
    caught = inr (omega (arith, b.acked));
  }

  written_right : (x : Exchange) → In x → All (λ bytes. bytes ≡ msg) x.written
  written_right x g =
      subst (λ (b : List ℕ). All (λ bytes. bytes ≡ b) x.written)
        (bodies-wire sender_env f msg sendable.pos) g.right

  -- A message of at least one and fewer than 2^61 bytes, in at most 65532 packets none of which looks
  -- like a header, is sent once, with the delay 2^64-1 that stands for no repetition, to a new
  -- receiver, at positive packet sizes. Whatever happens then, packets of the message arriving in any order,
  -- lost and repeated, acks arriving in the order in which they were sent or lost, and timers
  -- running out: every call at both ends succeeds, each file that the receiver writes is the message,
  -- and the transmission is under way, or it is over and the file is written.
  pub exchange_lem :
      (es : List ExchangeEvent)
      → (c' : TcpConnection) × (x : Exchange) × (send_message sender_env msg u64_max c ≡ some c')
        × (exchange sender_env receiver_env on_wire es (begun c') ≡ some x)
        × All (λ bytes. bytes ≡ msg) x.written
        × (IsSending on_wire x.sender ⊎ (IsOver on_wire x.sender × (0 < length x.written)))
  exchange_lem es =
      let (c', sent, b) = send_message_lem sender_env msg u64_max c sendable.pos small in
      let (x, ran, g) =
        exchange-InExchange sender_env receiver_env host f.corresponding_host header parts
          on_wire-IsTransfer receiver_pos only_data few_on_wire es (begun c') (begun-In c' b) in
      (
        c',
        x,
        sent,
        ran,
        written_right x g,
        InExchange-IsDone sender_env receiver_env host f.corresponding_host header parts
            on_wire-IsTransfer receiver_pos only_data few_on_wire x g,
      )

  -- Of the same message, not empty and sent once, with the same receiver and events: once all acks on their way are lost, and each packet of
  -- the message arrives in order, followed by its ack, the transmission is over, and the receiver has
  -- written the file, each time with the message.
  pub exchange_complete :
      (es : List ExchangeEvent) (now : ℕ)
      → (c' : TcpConnection) × (x : Exchange) × (y : Exchange) × (send_message sender_env msg
            u64_max c
          ≡ some c')
        × (exchange sender_env receiver_env on_wire es (begun c') ≡ some x)
        × (exchange sender_env receiver_env on_wire
              (lose_all x.acks ++ in_order now (length on_wire) 0)
              x
            ≡ some y)
        × IsOver on_wire y.sender
        × (0 < length y.written)
        × All (λ bytes. bytes ≡ msg) y.written
  exchange_complete es now =
      let (c', sent, b) = send_message_lem sender_env msg u64_max c sendable.pos small in
      let (x, ran, g) =
        exchange-InExchange sender_env receiver_env host f.corresponding_host header parts
          on_wire-IsTransfer receiver_pos only_data few_on_wire es (begun c') (begun-In c' b) in
      let (y, rest, g', over, some_file) =
        complete_lem sender_env receiver_env host f.corresponding_host header parts
          on_wire-IsTransfer receiver_pos only_data few_on_wire now x g in
      (c', x, y, sent, ran, rest, over, some_file, written_right y g')
