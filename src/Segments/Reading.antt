-- ===== src/Segments/Reading.antt =====
-- Reads from the message's memory: as long as they stay inside, they are slices of the message.
use cn_project.Base.{
  ℕ, zero, suc, ◌+◌, ◌≤◌, ◌<◌, ◌≡◌, refl, ap, ◌∙◌, List, [], ◌∷◌, length, take, drop, arith,
}
use cn_project.Tcp.{byte_at, read, resize}

module _ (beyond : ℕ → ℕ) where
  drop-byte_at :
      (msg : List ℕ) (i : ℕ) → i < length msg → drop i msg ≡ byte_at beyond msg i ∷ drop (suc i) msg
  unfolding byte_at
  drop-byte_at [] i h = elim h [ ]
  drop-byte_at (x ∷ xs) zero h = refl
  drop-byte_at (x ∷ xs) (suc i) h = drop-byte_at xs i (omega arith)

  drop_next : (msg : List ℕ) (i j : ℕ) → j ≡ suc i → drop j msg ≡ drop (suc i) msg
  drop_next msg i j e = ap (λ (t : ℕ). drop t msg) e

  -- A read that is cut to `m` bytes inside the message is a slice of it.
  pub resize-read :
      (msg : List ℕ) (m n i : ℕ)
      → m ≤ n
      → i + m ≤ length msg
      → resize m (read beyond msg i n) ≡ take m (drop i msg)
  unfolding resize read
  resize-read msg zero n i h k = refl
  resize-read msg (suc m) zero i h k = elim h [ ]
  resize-read msg (suc m) (suc n) i h k =
      (rw (drop-byte_at msg i (omega arith)) (
        ap (◌∷◌ (byte_at beyond msg i)) (
          resize-read msg m n (i + 1) (omega arith) (omega arith)
          ∙ ap (take m) (drop_next msg i (i + 1) (omega arith)))))

  pub read_inside :
      (msg : List ℕ) (n i : ℕ) → i + n ≤ length msg → read beyond msg i n ≡ take n (drop i msg)
  unfolding read
  read_inside msg zero i h = refl
  read_inside msg (suc n) i h =
      (rw (drop-byte_at msg i (omega arith)) (
        ap (◌∷◌ (byte_at beyond msg i)) (
          read_inside msg n (i + 1) (omega arith)
          ∙ ap (take n) (drop_next msg i (i + 1) (omega arith)))))
