-- ===== src/Window/Events.antt =====
-- A whole session of a sender: acks and timers in any order.
use cn_project.Base.{
  ℕ, ◌+◌, ◌<◌, ◌≤◌, ◌≡◌, refl, ap, ◌∙◌, Option, some, List, [], ◌∷◌, length, arith, Bool, inl, inr,
  ℕ_discrete,
}
use cn_project.Message.{Packet}
use cn_project.Tcp.{Env, TcpConnection, max_packet_id, handle_ack, timeout_body, ◌>>=◌}
use cn_project.Window.Finish.{IsOver}
use cn_project.Window.Session.{InSession, GoesOn}
use cn_project.Window.Answer.{Continued, on_ack, on_timer}

-- An ack arrives, or a timeout thread ends its wait; the Boolean tells if it was notified.
pub data Event : Type 0 where
  ack_arrives : Packet → Event
  timer_ends : Bool → Event

abbrev pub on_event : Env → Event → TcpConnection → Option TcpConnection
on_event env (ack_arrives p) c = handle_ack env p c
on_event env (timer_ends dequeued) c = timeout_body env dequeued c

unfoldable pub on_events : Env → List Event → TcpConnection → Option TcpConnection
on_events env [] c = some c
on_events env (e ∷ es) c = on_event env e c >>= λ c'. on_events env es c'

-- The acks name packets of the wire.
abbrev pub AreAcks : List Packet → List Event → Type 0
AreAcks wire [] = Unit {0}
AreAcks wire (ack_arrives p ∷ es) = (p.packet_id ≤ length wire) × AreAcks wire es
AreAcks wire (timer_ends dequeued ∷ es) = AreAcks wire es

-- Among the events the acks of the packets behind the `k`-th occur in their order.
pub data HasAcks (n : ℕ) : ℕ → List Event → Type 0 where
  all : {k : ℕ} {es : List Event} → n ≤ k → HasAcks n k es
  next :
      {k : ℕ} {es : List Event} (p : Packet)
      → p.packet_id ≡ k + 1
      → HasAcks n (k + 1) es
      → HasAcks n k (ack_arrives p ∷ es)
  other : {k : ℕ} {es : List Event} (e : Event) → HasAcks n k es → HasAcks n k (e ∷ es)

module _ (env : Env) (wire : List Packet) (short : length wire + 1 < max_packet_id)
    (pos : 0 < length wire) where
  -- A session in which at least `k` packets are acknowledged.
  pub record Stands (k : ℕ) (o : Option TcpConnection) : Type 0 where
    pub after : TcpConnection
    pub ran : o ≡ some after
    pub session : InSession wire after
    pub at_least : k ≤ after.sender_last_packet_acked

  one_event :
      (e : Event) (es : List Event) (c : TcpConnection)
      → AreAcks wire (e ∷ es)
      → InSession wire c
      → (id : ℕ) × Continued env wire short id c (on_event env e c) × AreAcks wire es
  one_event (ack_arrives p) es c (known, acks) s =
      (p.packet_id, on_ack env wire short p c s known pos, acks)
  one_event (timer_ends dequeued) es c acks s = (0, on_timer env wire short dequeued c s, acks)

  -- For a wire of 1 to 65533 packets and an open connection that is not to send again, whose
  -- transmission is under way or over: whatever acks of packets of the wire arrive and timers end,
  -- in any order, every call succeeds, the transmission is under way or over afterwards, and no
  -- packet acknowledged is taken back.
  pub on_events_lem :
      (es : List Event) (c : TcpConnection)
      → AreAcks wire es
      → InSession wire c
      → Stands c.sender_last_packet_acked (on_events env es c)
  unfolding on_events
  on_events_lem [] c acks s = record { after = c; ran = refl; session = s; at_least = omega arith }
  on_events_lem (e ∷ es) c acks s =
      let (id, (c', ran, goes), rest) = one_event e es c acks s in
      let later = on_events_lem es c' rest goes.session in
      record {
        after = later.after;
        ran = ap (λ o. o >>= λ x. on_events env es x) ran ∙ later.ran;
        session = later.session;
        at_least = omega (arith, goes.forward, later.at_least);
      }

  at_the_end :
      (c : TcpConnection)
      → InSession wire c
      → length wire ≤ c.sender_last_packet_acked
      → IsOver wire c
  at_the_end c s le = elim s.phase [
    | inl x ↦ absurd (omega (arith, x.acked_lt, x.sent_le, le))
    | inr x ↦ x
  ]

  gained :
      (k : ℕ) (p : Packet) (c c' : TcpConnection)
      → k ≤ c.sender_last_packet_acked
      → p.packet_id ≡ k + 1
      → GoesOn wire p.packet_id c c'
      → k + 1 ≤ c'.sender_last_packet_acked
  gained k p c c' le same goes = elim (ℕ_discrete k c.sender_last_packet_acked) [
    | yes here ↦ omega (arith, here, goes.gain (omega (arith, same, here)))
    | no beyond ↦ omega (arith, le, beyond, goes.forward)
  ]

  -- For a wire of 1 to 65533 packets and an open connection that is not to send again, whose
  -- transmission is under way or over with at least `k` packets acknowledged: whatever acks of
  -- packets of the wire arrive and timers end, if the acks of the packets behind the `k`-th occur
  -- among these events in their order, then every call succeeds and the transmission is over at the
  -- end: every packet is acknowledged, and no timer is left.
  pub on_events_complete :
      (es : List Event) (c : TcpConnection) (k : ℕ)
      → AreAcks wire es
      → InSession wire c
      → k ≤ c.sender_last_packet_acked
      → HasAcks (length wire) k es
      → (c' : TcpConnection) × (on_events env es c ≡ some c') × IsOver wire c'
  unfolding on_events
  on_events_complete es c k acks s le (all n_le) =
      let end = on_events_lem es c acks s in
      (end.after, end.ran, at_the_end end.after end.session (omega (arith, end.at_least, le, n_le)))
  on_events_complete (ack_arrives _ ∷ es) c k acks s le (next p same more) =
      let (known, rest) = acks in
      let (c', ran, goes) = on_ack env wire short p c s known pos in
      let (c₂, later, over) =
        on_events_complete es c' (k + 1) rest goes.session (gained k p c c' le same goes) more in
      (c₂, ap (λ o. o >>= λ x. on_events env es x) ran ∙ later, over)
  on_events_complete (_ ∷ es) c k acks s le (other e more) =
      let (id, (c', ran, goes), rest) = one_event e es c acks s in
      let (c₂, later, over) =
        on_events_complete es c' k rest goes.session (omega (arith, goes.forward, le)) more in
      (c₂, ap (λ o. o >>= λ x. on_events env es x) ran ∙ later, over)
