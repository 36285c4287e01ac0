-- ===== src/Reception/Arrival.antt =====
-- What one arrival at a receiver changes, wherever it is in a transfer.
use cn_project.Base.{
  ℕ, zero, suc, ◌+◌, ◌<◌, ◌≡◌, refl, sym, ap, subst, ◌∙◌, String, true, false, some, List, [], ◌∷◌,
  ◌++◌, length, length-append, take, drop, get_elem?, take-suc, take_all, append-nil, arith, add64,
  ◌==◌, ==_iff, if◌then◌else◌, Bool-cases, inl, inr, append_assoc,
}
use cn_project.Message.{Packet}
use cn_project.Tcp.{
  Env, TcpConnection, Effect, send, write_file, emit, bodies, expected_data, store_data,
  on_new_file_completely_received, acknowledge, handle_data,
}
use cn_project.Reception.{IsTransfer, advance, reaction, ack_of}
use cn_project.Reception.Progress.{
  Progress, Arrived, bodies-take-lt, bodies-append, acknowledge_parts, arrive_other, is_first_idle,
  is_first_busy, turn_yes, turn_no, arrive_header,
}

module _ (env : Env) (host source : String) (h : Packet) (ds : List Packet)
    (t : IsTransfer source h ds) (pos : 0 < env.packet_size) where
  abbrev At : ℕ → TcpConnection → Type 0
  At = Progress host source h ds

  abbrev Arrives : Packet → ℕ → List Effect → TcpConnection → Type 0
  Arrives = Arrived env host source h ds t pos

  module _ (k : ℕ) (p : Packet) (c : TcpConnection) (a : At (suc k) c)
      (here : get_elem? ds k ≡ some p) where
    abbrev stored : TcpConnection
    stored = record c {
      in_buffer = c.in_buffer ++ (p ∷ []);
      bytes_received_so_far = add64 c.bytes_received_so_far (length p.body);
    }

    data_id : p.packet_id ≡ suc k + 1
    data_id = t.numbered (suc k) p here

    in_line : (p.packet_id == expected_data c) ≡ true
    in_line = turn_yes env host source h ds t pos p (suc k) c a.in_range a.acked data_id

    taken_next : stored.in_buffer ≡ take (suc (suc k)) (h ∷ ds)
    taken_next = rw a.taken (ap (◌∷◌ h) (sym (take-suc k ds p here)))

    body_of : bodies (p ∷ []) ≡ p.body
    unfolding bodies
    body_of = append-nil p.body

    bytes_next : c.bytes_received_so_far + length p.body ≡ length (bodies (take (suc k) ds))
    bytes_next =
        rw (take-suc k ds p here, bodies-append)
          (omega (
            arith,
            a.counted,
            ap length body_of,
            length-append (bodies (take k ds)) (bodies (p ∷ [])),
          ))

    -- A data packet in line that is not the last one is stored.
    arrive_next : suc k < length ds → Arrives p (suc (suc k)) (send (ack_of p) ∷ []) c
    unfolding handle_data store_data
    arrive_next more = record {
      after = acknowledge p stored;
      handled = rw (is_first_busy env host source h ds t pos p k c a, in_line, unfinished);
      progress =
          rw (acknowledge_parts env host source h ds t pos p stored, turn)
            (record {
              in_range = omega arith;
              in_host = a.in_host;
              taken = taken_next;
              counted = received;
              acked = omega (arith, a.acked);
              announced = λ _. a.announced (omega arith);
              sender = λ _. a.sender (omega arith);
            });
      effects = rw (acknowledge_parts env host source h ds t pos p stored);
    }
      where
        short : length (bodies (take (suc k) ds)) < length (bodies ds)
        short = bodies-take-lt ds (suc k) t.filled more

        received : stored.bytes_received_so_far ≡ length (bodies (take (suc k) ds))
        received = omega (arith, bytes_next, short, t.fits)

        unfinished : (c.current_message_size == stored.bytes_received_so_far) ≡ false
        unfinished = ground (arith, short, received, a.announced)

        turn : (p.packet_id == expected_data stored) ≡ true
        turn = turn_yes env host source h ds t pos p (suc k) stored a.in_range a.acked data_id

    -- After the last data packet the file is written, and the receiver is idle again.
    abbrev finished : TcpConnection
    finished = record stored {
      in_buffer = [];
      bytes_received_so_far = 0;
      current_message_size = 0;
      number_of_total_packets = 0;
      receiver_last_packet_acked = 0;
      effects = c.effects ++ (write_file host source (bodies ds) ∷ []);
    }

    finish_lem : suc k ≡ length ds → on_new_file_completely_received stored ≡ finished
    unfolding on_new_file_completely_received emit
    finish_lem last = λ i. record stored {
      in_buffer = [];
      bytes_received_so_far = 0;
      current_message_size = 0;
      number_of_total_packets = 0;
      receiver_last_packet_acked = 0;
      effects =
          c.effects
          ++ (write_file (a.in_host i) (a.sender (omega arith) i) (bodies (drop 1 (buffer i)))
              ∷ []);
    }
      where
        buffer : stored.in_buffer ≡ h ∷ ds
        buffer = taken_next ∙ take_all (suc (suc k)) (h ∷ ds) (omega arith)

    arrive_last :
        suc k ≡ length ds
        → Arrives p 0 (write_file host source (bodies ds) ∷ send (ack_of p) ∷ []) c
    unfolding handle_data store_data bodies
    arrive_last last = record {
      after = acknowledge p finished;
      handled =
          rw (is_first_busy env host source h ds t pos p k c a, in_line, complete, finish_lem last);
      progress =
          rw (acknowledge_parts env host source h ds t pos p finished, turn)
            (record {
              in_range = omega arith;
              in_host = a.in_host;
              taken = refl;
              counted = refl;
              acked = omega arith;
              announced = λ n. absurd (omega arith);
              sender = λ n. absurd (omega arith);
            });
      effects =
          rw (acknowledge_parts env host source h ds t pos p finished) (append_assoc c.effects _ _);
    }
      where
        whole : take (suc k) ds ≡ ds
        whole = take_all (suc k) ds (omega arith)

        received : stored.bytes_received_so_far ≡ length (bodies ds)
        received =
            rw (← ap (λ ps. length (bodies ps)) whole)
              (omega (arith, bytes_next, t.fits, ap (λ ps. length (bodies ps)) whole))

        complete : (c.current_message_size == stored.bytes_received_so_far) ≡ true
        complete = ground (arith, received, a.announced)

        turn : (p.packet_id == expected_data finished) ≡ false
        turn =
            turn_no env host source h ds t pos p (suc k) 0 finished (omega arith) refl data_id
              (omega arith)

  -- One arrival of packet `j`, on every branch.
  pub arrive :
      (k j : ℕ) (p : Packet) (c : TcpConnection)
      → At k c
      → get_elem? (h ∷ ds) j ≡ some p
      → Arrives p
          (advance (suc (length ds)) k j)
          (reaction (write_file host source (bodies ds) ∷ []) (suc (length ds)) k j p)
          c
  arrive zero zero p c a e = rw not_alone (
      subst (λ q. Arrives q 1 (send (ack_of q) ∷ []) c) same
        (arrive_header env host source h ds t pos c a))
    where
      same : h ≡ p
      same = cc

      not_alone : (1 == suc (length ds)) ≡ false
      not_alone = ground (arith, t.some_data)
  arrive zero (suc j) p c a e = rw later (
      arrive_other env host source h ds t pos p 0 c a
        (rw (is_first_idle env host source h ds t pos p c a) eight) turn)
    where
      later : (suc j == 0) ≡ false
      later = ground arith

      eight : (length p.body == 8) ≡ false
      eight = ground (arith, t.no_eight j p e)

      turn : (p.packet_id == expected_data c) ≡ false
      turn =
          turn_no env host source h ds t pos p (suc j) 0 c (omega arith) a.acked
            (t.numbered (suc j) p e) (omega arith)
  arrive (suc k) j p c a e = elim (Bool-cases (j == suc k)) [
    | inl hit ↦ rw hit (in_line (hit_at hit))
    | inr miss ↦ rw miss (
        arrive_other env host source h ds t pos p (suc k) c a
          (is_first_busy env host source h ds t pos p k c a)
          (turn_no env host source h ds t pos p j (suc k) c a.in_range a.acked (t.numbered j p e)
            (ground arith)))
  ]
    where
      hit_at : (j == suc k) ≡ true → get_elem? ds k ≡ some p
      hit_at hit = subst (λ i. get_elem? (h ∷ ds) i ≡ some p) ((==_iff j (suc k)).0 hit) e

      in_line :
          get_elem? ds k ≡ some p
          → Arrives p
              (if suc (suc k) == suc (length ds) then 0 else suc (suc k))
              (if suc (suc k) == suc (length ds)
                then write_file host source (bodies ds) ∷ send (ack_of p) ∷ []
                else send (ack_of p) ∷ [])
              c
      in_line here = elim (Bool-cases (suc (suc k) == suc (length ds))) [
        | inl last ↦ rw last (arrive_last k p c a here (ground arith))
        | inr more ↦ rw more (arrive_next k p c a here (ground (arith, a.in_range)))
      ]
