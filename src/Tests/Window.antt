-- ===== src/Tests/Window.antt =====
-- The theorems on the sending side at the states of Tests/Sending.antt.
use cn_project.Base.{◌≡◌, refl, some, List, [], ◌∷◌, take, drop, arith, false, inl, u64_max}
use cn_project.Tcp.{
  TcpConnection, send_next_window, send_message, send_message_again, handle_ack, measure_rtt,
  expected_ack, smoothed,
}
use cn_project.Window.Sending.{HasSent, send_next_window_lem}
use cn_project.Window.Rtt.{measure_rtt_sample}
use cn_project.Window.Acks.{Answers, handle_ack_lem}
use cn_project.Window.Start.{HasBegun, restarted, send_message_lem, send_message_again_lem}
use cn_project.Window.Finish.{IsOver, IsComplete, IsPaused, handle_ack_last, handle_ack_repeat}
use cn_project.Window.Session.{InSession}
use cn_project.Window.Events.{
  Event, ack_arrives, timer_ends, AreAcks, all, next, other, Stands, on_events, on_events_lem,
  on_events_complete,
}
use cn_project.Tests.Values.{env, message, sender}
use cn_project.Tests.Sending.{
  data_of, packets, ack, sent_at, in_window, in_window_lem, at_end, at_end_lem,
}

send_next_window_lem_example :
    (c' : TcpConnection) × (send_next_window env in_window ≡ some c')
    × HasSent (take 2 (drop 1 packets)) (record in_window { last_packet_sent = 3 }) c'
send_next_window_lem_example =
    send_next_window_lem env packets in_window refl (omega arith) (omega arith) (omega arith)

handle_ack_lem_example :
    (c' : TcpConnection) × (handle_ack env (ack 3) in_window ≡ some c')
    × Answers env packets (ack 3) in_window c'
handle_ack_lem_example =
    handle_ack_lem env packets (ack 3) in_window in_window_lem (omega arith) refl

send_message_lem_example :
    (c' : TcpConnection) × (send_message env message 40 sender ≡ some c')
    × HasBegun env message (restarted message 40 sender) c'
send_message_lem_example = send_message_lem env message 40 sender (omega arith) (omega arith)

send_message_again_lem_example :
    send_message_again env in_window ≡ send_message env message u64_max in_window
send_message_again_lem_example = send_message_again_lem env in_window

handle_ack_last_example :
    (c' : TcpConnection) × (handle_ack env (ack 4) (at_end u64_max) ≡ some c')
    × IsComplete packets (at_end u64_max) c'
handle_ack_last_example =
    handle_ack_last env packets (ack 4) (at_end u64_max) (at_end_lem u64_max) (omega arith) refl
      (unfold expected_ack in refl) refl

handle_ack_repeat_example :
    (f : TcpConnection) × (c' : TcpConnection) × (handle_ack env (ack 4) (at_end 40) ≡ some c')
    × HasBegun env message f c'
    × IsPaused (at_end 40) f
handle_ack_repeat_example =
    handle_ack_repeat env packets (ack 4) (at_end 40) (at_end_lem 40) (omega arith) refl
      (unfold expected_ack in refl) (omega arith) (omega arith) (omega arith)

measure_rtt_sample_example :
    measure_rtt env (ack 3) in_window
    ≡ some (record in_window { estimated_rtt = smoothed env.floats 500 200 })
measure_rtt_sample_example =
    measure_rtt_sample env packets (ack 3) in_window 2 (data_of 3 (13 ∷ 14 ∷ 15 ∷ []))
      (sent_at 800 (data_of 3 (13 ∷ 14 ∷ 15 ∷ []))) in_window_lem refl refl (omega arith)
      (λ j r a b. absurd (omega arith)) refl

in_window_session : InSession packets in_window
in_window_session = record { opened = refl; once = refl; phase = inl in_window_lem }

-- An old ack, the next one, a timer, one that comes too early, and the last two.
abbrev events : List Event
events =
    ack_arrives (ack 1)
    ∷ ack_arrives (ack 2)
    ∷ timer_ends false
    ∷ ack_arrives (ack 4)
    ∷ ack_arrives (ack 3)
    ∷ ack_arrives (ack 4)
    ∷ []

events-AreAcks : AreAcks packets events
events-AreAcks = (omega arith, (omega arith, (omega arith, (omega arith, (omega arith, tt)))))

on_events_lem_example :
    Stands env packets (omega arith) (omega arith) 1 (on_events env events in_window)
on_events_lem_example =
    on_events_lem env packets (omega arith) (omega arith) events in_window events-AreAcks
      in_window_session

on_events_complete_example :
    (c' : TcpConnection) × (on_events env events in_window ≡ some c') × IsOver packets c'
on_events_complete_example =
    on_events_complete env packets (omega arith) (omega arith) events in_window 1 events-AreAcks
      in_window_session (omega arith)
      (other (ack_arrives (ack 1)) (
        next (ack 2) refl (
          other (timer_ends false) (
            other (ack_arrives (ack 4))
              (next (ack 3) refl (next (ack 4) refl (all (omega arith))))))))
