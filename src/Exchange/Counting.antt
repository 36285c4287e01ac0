-- ===== src/Exchange/Counting.antt =====
-- What the sender will have counted, against acks that come, are lost, or join the others.
use cn_project.Base.{ℕ, zero, suc, ◌≤◌, ◌≡◌, refl, List, [], ◌∷◌, ◌++◌, arith}
use cn_project.Message.{Packet}
use cn_project.Window.Session.{counted}
use cn_project.Exchange.{count_acks, remove_at}

pub counted_mono : (id a b : ℕ) → a ≤ b → counted id a ≤ counted id b
counted_mono id a b le = ground (arith, le)

pub counted_le : (id a : ℕ) → a ≤ counted id a
counted_le id a = ground arith

count_acks_mono : (ps : List Packet) (a b : ℕ) → a ≤ b → count_acks a ps ≤ count_acks b ps
count_acks_mono [] a b le = le
count_acks_mono (p ∷ ps) a b le = count_acks_mono ps _ _ (counted_mono p.packet_id a b le)

pub count_acks_le : (ps : List Packet) (a : ℕ) → a ≤ count_acks a ps
count_acks_le [] a = omega arith
count_acks_le (p ∷ ps) a =
    omega (arith, counted_le p.packet_id a, count_acks_le ps (counted p.packet_id a))

pub count_acks-append :
    (ps qs : List Packet) (a : ℕ) → count_acks a (ps ++ qs) ≡ count_acks (count_acks a ps) qs
count_acks-append [] qs a = refl
count_acks-append (p ∷ ps) qs a = count_acks-append ps qs (counted p.packet_id a)

-- Without one ack no more is counted.
pub count_acks-remove_at :
    (i : ℕ) (ps : List Packet) (a : ℕ) → count_acks a (remove_at i ps) ≤ count_acks a ps
count_acks-remove_at i [] a = omega arith
count_acks-remove_at zero (p ∷ ps) a =
    count_acks_mono ps a (counted p.packet_id a) (counted_le p.packet_id a)
count_acks-remove_at (suc i) (p ∷ ps) a = count_acks-remove_at i ps (counted p.packet_id a)
