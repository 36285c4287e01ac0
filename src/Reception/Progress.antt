-- ===== src/Reception/Progress.antt =====
-- A receiver that has taken `k` packets of a transfer in order, and what one arrival changes.
use cn_project.Base.{
  ℕ, zero, suc, ◌+◌, ◌/◌, ◌%◌, ◌<◌, ◌≡◌, ◌≢◌, refl, sym, String, true, false, some, List, [], ◌∷◌,
  ◌++◌, length, length-append, take, drop, get_elem?, arith, ◌==◌, if◌then◌else◌, append_assoc,
}
use cn_project.Message.{Packet, set_is_ack, switch_addresses}
use cn_project.Tcp.{
  Env, TcpConnection, Effect, send, emit, bodies, is_first_packet, expected_data, le_value,
  store_header, acknowledge, send_packet_ack, handle_data,
}
use cn_project.Reception.{IsTransfer, ack_of}

pub record Progress (host source : String) (h : Packet) (ds : List Packet) (k : ℕ)
    (c : TcpConnection) : Type 0 where
  pub in_range : k < suc (length ds)
  pub in_host : c.corresponding_host ≡ host
  pub taken : c.in_buffer ≡ take k (h ∷ ds)
  pub counted : c.bytes_received_so_far ≡ length (bodies (drop 1 (take k (h ∷ ds))))
  pub acked : c.receiver_last_packet_acked ≡ k
  pub announced : 0 < k → c.current_message_size ≡ length (bodies ds)
  pub sender : 0 < k → c.end_point ≡ source

-- The bodies of fewer packets are fewer bytes.
pub bodies-take-lt :
    (ds : List Packet) (k : ℕ)
    → ((j : ℕ) (p : Packet) → get_elem? ds j ≡ some p → 0 < length p.body)
    → k < length ds
    → length (bodies (take k ds)) < length (bodies ds)
unfolding bodies
bodies-take-lt [] k f h = elim h [ ]
bodies-take-lt (d ∷ ds) zero f h = omega (arith, f 0 d refl, length-append d.body (bodies ds))
bodies-take-lt (d ∷ ds) (suc k) f h = omega (
  arith,
  length-append d.body (bodies ds),
  length-append d.body (bodies (take k ds)),
  bodies-take-lt ds k (λ j p e. f (suc j) p e) (omega arith),
)

pub bodies-append : (ps qs : List Packet) → bodies (ps ++ qs) ≡ bodies ps ++ bodies qs
unfolding bodies
bodies-append [] qs = refl
bodies-append (p ∷ ps) qs = rw (bodies-append ps qs) (sym (append_assoc p.body _ _))

module _ (env : Env) (host source : String) (h : Packet) (ds : List Packet)
    (t : IsTransfer source h ds) (pos : 0 < env.packet_size) where
  abbrev pub At : ℕ → TcpConnection → Type 0
  At = Progress host source h ds

  pub record Arrived (p : Packet) (k : ℕ) (out : List Effect) (c : TcpConnection) : Type 0 where
    pub after : TcpConnection
    pub handled : handle_data env p c ≡ some after
    pub progress : At k after
    pub effects : after.effects ≡ c.effects ++ out

  -- The receiver answers every packet, and counts the one that it waits for.
  pub acknowledge_parts :
      (p : Packet) (c : TcpConnection)
      → acknowledge p c ≡ record c {
        receiver_last_packet_acked =
            c.receiver_last_packet_acked + (if p.packet_id == expected_data c then 1 else 0);
        effects = c.effects ++ (send (ack_of p) ∷ []);
      }
  unfolding acknowledge send_packet_ack emit set_is_ack switch_addresses
  acknowledge_parts p c = refl

  -- A packet that is neither a header for an idle receiver nor the one in line changes nothing.
  pub arrive_other :
      (p : Packet) (k : ℕ) (c : TcpConnection)
      → At k c
      → is_first_packet p c ≡ false
      → (p.packet_id == expected_data c) ≡ false
      → Arrived p k (send (ack_of p) ∷ []) c
  unfolding handle_data
  arrive_other p k c a first turn = record {
    after = acknowledge p c;
    handled = rw (first, turn);
    progress =
        rw (acknowledge_parts p c, turn)
          (record {
            in_range = a.in_range;
            in_host = a.in_host;
            taken = a.taken;
            counted = a.counted;
            acked = omega arith;
            announced = a.announced;
            sender = a.sender;
          });
    effects = rw (acknowledge_parts p c);
  }

  pub is_first_idle :
      (p : Packet) (c : TcpConnection) → At 0 c → is_first_packet p c ≡ (length p.body == 8)
  unfolding is_first_packet bodies
  is_first_idle p c a = rw (a.taken, a.counted)

  pub is_first_busy :
      (p : Packet) (k : ℕ) (c : TcpConnection) → At (suc k) c → is_first_packet p c ≡ false
  unfolding is_first_packet
  is_first_busy p k c a = rw a.taken

  pub expected_id : (k : ℕ) (c : TcpConnection) → At k c → expected_data c ≡ k + 1
  unfolding expected_data
  expected_id k c a = omega (arith, t.few, a.in_range, a.acked)

  -- The test of the packet that is in line, by positions.
  pub turn_yes :
      (p : Packet) (j : ℕ) (c : TcpConnection)
      → j < suc (length ds)
      → c.receiver_last_packet_acked ≡ j
      → p.packet_id ≡ j + 1
      → (p.packet_id == expected_data c) ≡ true
  unfolding expected_data
  turn_yes p j c lt e id = ground (arith, t.few)

  pub turn_no :
      (p : Packet) (j k : ℕ) (c : TcpConnection)
      → k < suc (length ds)
      → c.receiver_last_packet_acked ≡ k
      → p.packet_id ≡ j + 1
      → j ≢ k
      → (p.packet_id == expected_data c) ≡ false
  unfolding expected_data
  turn_no p j k c lt e id ne = ground (arith, t.few)

  abbrev headed : TcpConnection → TcpConnection
  headed c = record c {
    start_time = env.now;
    end_point = h.source;
    current_message_size = le_value h.body;
    number_of_total_packets =
        le_value h.body / env.packet_size
        + (if le_value h.body % env.packet_size == 0 then 0 else 1)
        + 1;
    in_buffer = c.in_buffer ++ (h ∷ []);
  }

  store_header_lem : (c : TcpConnection) → store_header env h c ≡ some (headed c)
  unfolding store_header
  store_header_lem c = ground arith

  first_id : h.packet_id ≡ 1
  first_id = t.numbered 0 h refl

  -- An idle receiver takes the header.
  pub arrive_header : (c : TcpConnection) → At 0 c → Arrived h 1 (send (ack_of h) ∷ []) c
  unfolding handle_data
  arrive_header c a = record {
    after = acknowledge h (headed c);
    handled = rw (is_first_idle h c a, t.header_size, store_header_lem c);
    progress =
        rw (acknowledge_parts h (headed c), turn)
          (record {
            in_range = omega (arith, t.some_data);
            in_host = a.in_host;
            taken = rw a.taken;
            counted = a.counted;
            acked = omega (arith, a.acked);
            announced = λ _. t.announced;
            sender = λ _. t.from_source;
          });
    effects = rw (acknowledge_parts h (headed c));
  }
    where
      turn : (h.packet_id == expected_data (headed c)) ≡ true
      turn = turn_yes h 0 (headed c) (omega arith) a.acked first_id
