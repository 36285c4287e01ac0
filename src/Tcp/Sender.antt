-- ===== src/Tcp/Sender.antt =====
-- TCPConnection.cpp, the sending side. `none` is an access out of range or through a null pointer,
-- or a division by zero. Locks are taken and given back within a call; the wait for a timeout
-- thread to end changes nothing, since it finds `m_isTimeoutAllowed` false.
use cn_project.Base.{
  ℕ, String, zero, suc, ◌+◌, ◌-◌, ◌/◌, ◌%◌, ◌^◌, min, max, Bool, true, false, ◌&&◌, not, Option,
  none, some, List, [], ◌∷◌, ◌++◌, length, get_elem?, set, ltb, ◌==◌, if◌then◌else◌, u64_max, add64,
  mul64, dec64,
}
use cn_project.Message.{Packet}
use cn_project.Tcp.State.{
  OutBufferElement, TcpConnection, Env, FloatUnit, send, sleep, max_packet_id, new_connection,
  move_assign, emit,
}
use cn_project.Tcp.Packetize.{packetize}

infixl 5 ◌>>=◌
abbrev pub ◌>>=◌ {ℓ κ} : {A : Type ℓ} {B : Type κ} → Option A → (A → Option B) → Option B
none >>= f = none
some a >>= f = f a

-- A constant of type `float` by its bit pattern: 0.8f and 0.2f.
abbrev pub alpha : ℕ
alpha = 0x3F4CCCCD

abbrev pub beta : ℕ
beta = 0x3E4CCCCD

unfoldable pub get_estimated_timeout : TcpConnection → ℕ
get_estimated_timeout c = c.estimated_rtt

unfoldable pub get_end_point : TcpConnection → String
get_end_point c = c.end_point

-- The new thread waits on the notifier for the given time.
unfoldable pub start_timeout : ℕ → TcpConnection → TcpConnection
start_timeout duration c = record c { timeout_threads = c.timeout_threads ++ (duration ∷ []) }

unfoldable pub stop_timeout : TcpConnection → TcpConnection
stop_timeout c = record c { is_timeout_allowed = false; timeout_threads = [] }

unfoldable pub close_connection : TcpConnection → TcpConnection
unfolding stop_timeout
close_connection c = stop_timeout (record c { is_open = false })

unfoldable pub reset_connection : Env → TcpConnection → Option TcpConnection
unfolding close_connection move_assign new_connection
reset_connection env c = do
  let closed = close_connection c
  let msg_buffer = closed.msg_buffer
  let fresh = new_connection env closed.corresponding_host closed.end_point closed.estimated_rtt
  assigned ← move_assign closed fresh
  some (record assigned { msg_buffer = msg_buffer; is_open = true })

unfoldable pub start_slow_again : TcpConnection → TcpConnection
start_slow_again c = record c {
  ssthresh = max (c.cwnd / 2) 1;
  cwnd = 1;
  last_packet_sent = c.sender_last_packet_acked;
}

-- One round of the loop in `sendNextWindow`.
unfoldable pub send_element : Env → ℕ → TcpConnection → Option TcpConnection
unfolding emit
send_element env i c = do
  e ← get_elem? c.out_buffer i
  p ← e.packet
  let sent = record e { is_sent = true; time_sent = if e.is_sent then e.time_sent else env.now }
  some (emit (send p) (record c { out_buffer = set c.out_buffer i sent }))

unfoldable pub send_from : Env → ℕ → ℕ → TcpConnection → Option TcpConnection
send_from env zero i c = some c
send_from env (suc rounds) i c = send_element env i c >>= λ c'. send_from env rounds (i + 1) c'

-- `m_outBuffer.size()-1`, which wraps round at an empty buffer.
unfoldable pub last_index : TcpConnection → ℕ
last_index c = dec64 (length c.out_buffer)

unfoldable pub send_next_window : Env → TcpConnection → Option TcpConnection
unfolding last_index
send_next_window env c =
    let last = min (add64 c.sender_last_packet_acked c.cwnd) (last_index c) in
    let start = c.sender_last_packet_acked + 1 in
    send_from env (last + 1 - start) start (record c { last_packet_sent = last })

-- What follows `sendNextWindow` in three places.
unfoldable pub arm_timeout : TcpConnection → TcpConnection
unfolding start_timeout get_estimated_timeout
arm_timeout c = start_timeout (get_estimated_timeout c) (record c { is_timeout_allowed = true })

unfoldable pub send_and_arm : Env → TcpConnection → Option TcpConnection
send_and_arm env c = send_next_window env c >>= λ c'. some (arm_timeout c')

unfoldable pub send_message : Env → List ℕ → ℕ → TcpConnection → Option TcpConnection
send_message env msg repeat_delay c = do
  fresh ← reset_connection env c
  packed ← packetize env msg (record fresh { repeat_delay = repeat_delay; msg_buffer = msg })
  send_and_arm env (record packed { start_time = env.now })

-- The private overload, which sends the stored message once more.
unfoldable pub send_message_again : Env → TcpConnection → Option TcpConnection
send_message_again env c = do
  fresh ← reset_connection env c
  packed ← packetize env fresh.msg_buffer (record fresh { repeat_delay = c.repeat_delay })
  send_and_arm env (record packed { start_time = env.now })

-- `dequeued` is the outcome of `wait_dequeue_timed` on the notifier.
unfoldable pub timeout_body : Env → Bool → TcpConnection → Option TcpConnection
unfolding start_timeout get_estimated_timeout
timeout_body env dequeued c =
    if not dequeued && (c.is_timeout_allowed && c.is_open)
    then (send_next_window env (start_slow_again c) >>= λ c'.
        some (start_timeout (get_estimated_timeout c') c'))
    else some c

-- The loop of `measureRTT`: the value of `i` when it is left.
unfoldable pub scan_back : List OutBufferElement → ℕ → ℕ → Option ℕ
scan_back buffer id zero = some zero
scan_back buffer id (suc i) =
    let rest = scan_back buffer id i in
    get_elem? buffer (suc i) >>= λ e. e.packet >>= λ p. if p.packet_id == id then some i else rest

unfoldable pub smoothed : FloatUnit → ℕ → ℕ → ℕ
smoothed f old new =
    f.to_uint64 (f.add (f.mul alpha (f.of_int64 old)) (f.mul beta (f.of_int64 new)))

unfoldable pub measure_rtt : Env → Packet → TcpConnection → Option TcpConnection
unfolding smoothed
measure_rtt env packet c = do
  i ← scan_back c.out_buffer packet.packet_id c.last_packet_sent
  e ← get_elem? c.out_buffer (i + 1)
  let new_rtt = (env.now + 2 ^ 64 - e.time_sent) % 2 ^ 64
  let measured = smoothed env.floats c.estimated_rtt new_rtt
  some (record c { estimated_rtt = if e.is_acked then c.estimated_rtt else measured })

unfoldable pub on_data_sent_completely : Env → TcpConnection → Option TcpConnection
unfolding stop_timeout emit
on_data_sent_completely env c =
    let stopped = stop_timeout c in
    if c.repeat_delay == u64_max
    then some stopped
    else send_message_again env (emit (sleep c.repeat_delay) stopped)

-- The window after one that was acknowledged whole: slow start, then one more at a time.
unfoldable pub grow_window : TcpConnection → TcpConnection
grow_window c = record c {
  cwnd = if ltb c.cwnd c.ssthresh then min (mul64 c.cwnd 2) max_packet_id else add64 c.cwnd 1;
}

-- `m_senderLastPacketAcked++; m_outBuffer[m_senderLastPacketAcked].isAcked = true;`
unfoldable pub mark_acked : TcpConnection → Option TcpConnection
mark_acked c = do
  let i = c.sender_last_packet_acked + 1
  e ← get_elem? c.out_buffer i
  some (record c {
    sender_last_packet_acked = i;
    out_buffer = set c.out_buffer i (record e { is_acked = true });
  })

-- The branch for the ack that is next in line.
unfoldable pub on_expected_ack : Env → Packet → TcpConnection → Option TcpConnection
unfolding stop_timeout
on_expected_ack env packet c = mark_acked c >>= λ acked.
    if packet.packet_id == acked.last_packet_sent % max_packet_id
    then (if acked.sender_last_packet_acked == last_index acked
        then on_data_sent_completely env (stop_timeout acked)
        else send_and_arm env (stop_timeout (grow_window acked)))
    else some acked

-- The branch for a later ack: a packet was lost.
unfoldable pub on_later_ack : Env → TcpConnection → Option TcpConnection
unfolding stop_timeout start_slow_again
on_later_ack env c = send_and_arm env (stop_timeout (start_slow_again c))

unfoldable pub expected_ack : TcpConnection → ℕ
expected_ack c = (c.sender_last_packet_acked + 1) % max_packet_id

unfoldable pub handle_ack : Env → Packet → TcpConnection → Option TcpConnection
handle_ack env packet c =
    if c.is_open
    then (measure_rtt env packet c >>= λ measured.
        if packet.packet_id == expected_ack measured
        then on_expected_ack env packet measured
        else if ltb (expected_ack measured) packet.packet_id
        then on_later_ack env measured
        else some measured)
    else some c
