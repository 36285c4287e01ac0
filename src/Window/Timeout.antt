-- ===== src/Window/Timeout.antt =====
-- `timeoutBody`: slow start and Go-Back-N when a timer runs out, and nothing otherwise.
use cn_project.Base.{
  ℕ, ◌-◌, ◌<◌, ◌≡◌, ap, ◌∙◌, ◌⊎◌, some, List, [], ◌∷◌, ◌++◌, map, length, length-append, take, drop,
  get_elem?, arith, Bool, true, false, ◌&&◌, if◌then◌else◌,
}
use cn_project.Message.{Packet}
use cn_project.Tcp.{
  Env, TcpConnection, send, start_slow_again, timeout_body, start_timeout, get_estimated_timeout,
  send_next_window, ◌>>=◌,
}
use cn_project.Window.{IsSending}
use cn_project.Window.Buffer.{drop-get_elem?}
use cn_project.Window.Round.{Sends, window_sent, Sends-armed, window_end}
use cn_project.Window.Sending.{HasSent}
use cn_project.Window.Ready.{slow-IsReady, slowed, slowed-Sends}

module _ (env : Env) (wire : List Packet) where
  -- A timeout thread that was notified, or that finds the timeout forbidden or the connection
  -- closed, changes nothing.
  pub timeout_body_idle :
      (dequeued : Bool) (c : TcpConnection)
      → (dequeued ≡ true) ⊎ ((c.is_timeout_allowed ≡ false) ⊎ (c.is_open ≡ false))
      → timeout_body env dequeued c ≡ some c
  unfolding timeout_body
  timeout_body_idle dequeued c h = ground arith

  retransmission :
      (c c' : TcpConnection) (p : Packet)
      → Sends wire (start_slow_again c) c'
      → get_elem? wire c.sender_last_packet_acked ≡ some p
      → c.sender_last_packet_acked < length wire
      → c'.effects ≡ c.effects ++ (send p ∷ [])
  unfolding start_slow_again
  retransmission c c' p s at lt =
      s.sent
      ∙ ap (λ (n : ℕ). c.effects ++ map send (take n (drop acked wire))) {y = 1} (omega arith)
      ∙ ap (λ ps. c.effects ++ map send (take 1 ps)) (drop-get_elem? wire acked p at)
    where
      acked : ℕ
      acked = c.sender_last_packet_acked

  abbrev rearm : TcpConnection → TcpConnection
  rearm c = start_timeout (get_estimated_timeout c) c

  rearmed :
      (c c₁ : TcpConnection)
      → IsSending wire c
      → c.is_open ≡ true
      → send_next_window env (start_slow_again c) ≡ some c₁
      → HasSent
          (take
            (window_end wire (start_slow_again c) - (start_slow_again c).sender_last_packet_acked)
            (drop (start_slow_again c).sender_last_packet_acked wire))
          (record (start_slow_again c) { last_packet_sent = window_end wire (start_slow_again c) })
          c₁
      → (timeout_body env false c ≡ some (rearm c₁)) × Sends wire (start_slow_again c) (rearm c₁)
  unfolding timeout_body start_timeout
  rearmed c c₁ s opened run sent = (
    ap
          (λ t.
            if t
            then (send_next_window env (start_slow_again c) >>= λ x. some (rearm x))
            else some c)
          go
        ∙ ap (λ o. o >>= λ x. some (rearm x)) run,
    Sends-armed env wire (start_slow_again c) c₁ (rearm c₁) (slow-IsReady env wire c s) sent
        (rearm c₁).timeout_threads
        (λ i. record c₁ {
          is_timeout_allowed = still i;
          timeout_threads = (rearm c₁).timeout_threads;
        })
        (omega (arith, length-append c₁.timeout_threads (get_estimated_timeout c₁ ∷ []))),
  )
    where
      go : (c.is_timeout_allowed && c.is_open) ≡ true
      go = rw (s.allowed, opened)

      still : c₁.is_timeout_allowed ≡ true
      still =
          ap (λ (x : TcpConnection). x.is_timeout_allowed) sent.rest
          ∙ (unfold start_slow_again in s.allowed)

  pub timeout_body_lem :
      (c : TcpConnection) (p : Packet)
      → IsSending wire c
      → c.is_open ≡ true
      → get_elem? wire c.sender_last_packet_acked ≡ some p
      → (c' : TcpConnection) × (timeout_body env false c ≡ some c')
        × Sends wire (slowed c) c'
        × (c'.effects ≡ c.effects ++ (send p ∷ []))
  timeout_body_lem c p s opened at =
      let (c₁, run, sent) = window_sent env wire (start_slow_again c) (slow-IsReady env wire c s) in
      let (ran, sends) = rearmed c c₁ s opened run sent in
      (
        rearm c₁,
        ran,
        slowed-Sends env wire c (rearm c₁) sends,
        retransmission c (rearm c₁) p sends at (omega (arith, s.acked_lt, s.sent_le)),
      )
