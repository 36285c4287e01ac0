-- ===== src/Exchange.antt =====
-- Two connections in the exchange of one message: packets go one way over a network that may lose,
-- repeat and reorder them, acks go the other way over one that may lose them but keeps their order.
pub mod Counting
pub mod Arrivals
pub mod Steps
pub mod Complete
pub mod Message
use cn_project.Base.{ℕ, zero, suc, ◌+◌, Bool, Option, none, some, List, [], ◌∷◌, ◌++◌, get_elem?}
use cn_project.Message.{Packet}
use cn_project.Tcp.{Env, TcpConnection, take_packet, timeout_body, ◌>>=◌}
use cn_project.Reception.Files.{files, sent}
use cn_project.Window.Session.{counted}

pub record Exchange : Type 0 where
  pub sender : TcpConnection
  pub receiver : TcpConnection
  -- The acks on their way, the first of them first.
  pub acks : List Packet
  -- The contents of the files that the receiver has written.
  pub written : List (List ℕ)

-- The packet at a position arrives at the receiver, the first ack arrives at the sender, an ack is
-- lost, or a timeout thread of the sender ends its wait; the Boolean tells if it was notified. What
-- a connection does comes with a reading of the clock.
pub data ExchangeEvent : Type 0 where
  packet_arrives : (now position : ℕ) → ExchangeEvent
  ack_arrives : (now : ℕ) → ExchangeEvent
  ack_lost : (position : ℕ) → ExchangeEvent
  timer_ends : (now : ℕ) (dequeued : Bool) → ExchangeEvent

abbrev pub remove_at {ℓ} : {A : Type ℓ} → ℕ → List A → List A
remove_at i [] = []
remove_at zero (x ∷ xs) = xs
remove_at (suc i) (x ∷ xs) = x ∷ remove_at i xs

-- What a connection has asked for in a call is done, and forgotten.
abbrev pub performed : TcpConnection → TcpConnection
performed c = record c { effects = [] }

-- A packet at the receiver: what it sends are acks, what it writes are files.
abbrev pub received : Exchange → TcpConnection → Exchange
received x r = record x {
  receiver = performed r;
  acks = x.acks ++ sent r.effects;
  written = x.written ++ files r.effects;
}

abbrev pub at_time : ℕ → Env → Env
at_time now env = record env { now = now }

module _ (sender_env receiver_env : Env) (wire : List Packet) where
  -- Both connections are called by `takePacket`, and the timeout thread by `timeoutBody`.
  unfoldable pub exchange_step : ExchangeEvent → Exchange → Option Exchange
  exchange_step (packet_arrives now j) x = elim (get_elem? wire j) [
    | none ↦ some x
    | some p ↦ take_packet (at_time now receiver_env) p x.receiver >>= λ r. some (received x r)
  ]
  exchange_step (ack_arrives now) x = elim x.acks [
    | [] ↦ some x
    | p ∷ rest ↦ take_packet (at_time now sender_env) p x.sender >>= λ c.
        some (record x { sender = performed c; acks = rest })
  ]
  exchange_step (ack_lost i) x = some (record x { acks = remove_at i x.acks })
  exchange_step (timer_ends now dequeued) x =
      timeout_body (at_time now sender_env) dequeued x.sender >>= λ c.
      some (record x { sender = performed c })

  unfoldable pub exchange : List ExchangeEvent → Exchange → Option Exchange
  exchange [] x = some x
  exchange (e ∷ es) x = exchange_step e x >>= exchange es

-- The packets that the sender will have counted when all acks on their way have arrived.
abbrev pub count_acks : ℕ → List Packet → ℕ
count_acks acked [] = acked
count_acks acked (p ∷ ps) = count_acks (counted p.packet_id acked) ps
