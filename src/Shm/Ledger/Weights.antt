-- ===== src/Shm/Ledger/Weights.antt =====
-- Weights of the buffers in a list, and what a change in one queue of a channel does to them.
use ipc_shm.Common.{
  ℕ, zero, suc, ◌+◌, ◌≤◌, ◌<◌, ◌≡◌, ◌≢◌, refl, arith, List, [], ◌∷◌, ◌++◌, length, inl, inr, sym,
  if◌then◌else◌, Bool-cases,
}
use native.Mathlib.Decide.{ℕ_discrete}
use ipc_shm.Types.{Status}
use ipc_shm.Queue.{is_ok}
use ipc_shm.Memory.{Bd, Mem}
use ipc_shm.Queue.Fifo.{incoming}
use ipc_shm.Shm.State.{ManagedChannel}
use ipc_shm.Shm.Ledger.{Buf, buf_of, bufs, free_bufs, take, all_free, weigh, without}

module _ (f : Buf → ℕ) where
  pub weigh-append : (l r : List Buf) → weigh f (l ++ r) ≡ weigh f l + weigh f r
  unfolding weigh
  weigh-append [] r = omega arith
  weigh-append (b ∷ l) r = omega (arith, weigh-append l r)

  pub weigh-append-all :
      (a b c d : List Buf)
      → weigh f (a ++ b ++ c ++ d) ≡ weigh f a + weigh f b + weigh f c + weigh f d
  weigh-append-all a b c d =
      omega (arith, weigh-append (a ++ b ++ c) d, weigh-append (a ++ b) c, weigh-append a b)

  pub weigh-cons : (b : Buf) (l : List Buf) → weigh f (b ∷ l) ≡ f b + weigh f l
  unfolding weigh
  weigh-cons b l = refl

  pub weigh-between :
      (l r : List Buf) (b : Buf) → weigh f (l ++ (b ∷ r)) ≡ weigh f l + (f b + weigh f r)
  weigh-between l r b = omega (arith, weigh-append l (b ∷ r), weigh-cons b r)

  pub weigh-without :
      (s : Status) (l r : List Buf) (b : Buf)
      → weigh f (without s l b r) + (if is_ok s then f b else 0) ≡ weigh f (l ++ (b ∷ r))
  weigh-without s l r b = elim (Bool-cases (is_ok s)) [
    | inl e ↦ rw e (omega (arith, weigh-between l r b, weigh-append l r))
    | inr e ↦ rw e (omega arith)
  ]

  pub weigh-free_bufs-cons :
      (k : ℕ) (bd : Bd) (l : List Bd)
      → weigh f (free_bufs k (bd ∷ l))
        ≡ f (record { pool = k; number = bd.buf_id }) + weigh f (free_bufs k l)
  unfolding weigh free_bufs
  weigh-free_bufs-cons k bd l = refl

  pub weigh-free_bufs-snoc :
      (k : ℕ) (l : List Bd) (bd : Bd)
      → weigh f (free_bufs k (l ++ (bd ∷ [])))
        ≡ weigh f (free_bufs k l) + f (record { pool = k; number = bd.buf_id })
  unfolding weigh free_bufs
  weigh-free_bufs-snoc k [] bd = omega arith
  weigh-free_bufs-snoc k (x ∷ l) bd = omega (arith, weigh-free_bufs-snoc k l bd)

  pub weigh-bufs-snoc :
      (l : List Bd) (bd : Bd) → weigh f (bufs (l ++ (bd ∷ []))) ≡ weigh f (bufs l) + f (buf_of bd)
  unfolding weigh bufs
  weigh-bufs-snoc [] bd = omega arith
  weigh-bufs-snoc (x ∷ l) bd = omega (arith, weigh-bufs-snoc l bd)

  -- a list is its first part and the rest
  pub weigh-bufs-take :
      (n : ℕ) (l taken rest : List Bd)
      → l ≡ taken ++ rest
      → length taken ≡ n
      → weigh f (bufs l) ≡ weigh f (bufs (take n l)) + weigh f (bufs rest)
  unfolding weigh bufs take
  weigh-bufs-take n l [] rest e same = rw (e, sym same) (omega arith)
  weigh-bufs-take n l (x ∷ taken) rest e same =
      rw (e, sym same)
        (omega (arith, weigh-bufs-take (length taken) (taken ++ rest) taken rest refl refl))

  -- Pools whose free buffers weigh the same.
  pub weigh-all_free-same :
      (m m' : Mem) (ch : ManagedChannel) (k n : ℕ)
      → ((h : ℕ)
          → k ≤ h
          → h < k + n
          → incoming m' (ch.pools h).bd_queue ≡ incoming m (ch.pools h).bd_queue)
      → all_free m' ch k n ≡ all_free m ch k n
  unfolding all_free
  weigh-all_free-same m m' ch k zero same = refl
  weigh-all_free-same m m' ch k (suc n) same =
      rw
        (
          same k (omega arith) (omega arith),
          weigh-all_free-same m m' ch (k + 1) n (λ h le lt. same h (omega arith) (omega arith)),
        )
        refl

  -- One pool `j` has changed, where it weighs `a` less and `b` more.
  pub weigh-all_free-changed :
      (m m' : Mem) (ch : ManagedChannel) (j a b k n : ℕ)
      → k ≤ j
      → j < k + n
      → ((h : ℕ)
          → k ≤ h
          → h < k + n
          → h ≢ j
          → incoming m' (ch.pools h).bd_queue ≡ incoming m (ch.pools h).bd_queue)
      → weigh f (free_bufs j (incoming m' (ch.pools j).bd_queue)) + a
        ≡ weigh f (free_bufs j (incoming m (ch.pools j).bd_queue)) + b
      → weigh f (all_free m' ch k n) + a ≡ weigh f (all_free m ch k n) + b
  unfolding all_free
  weigh-all_free-changed m m' ch j a b k zero le lt same e = absurd (omega arith)
  weigh-all_free-changed m m' ch j a b k (suc n) le lt same e = elim (ℕ_discrete k j) [
    | yes here ↦
        rw
          (
            weigh-append (free_bufs k (incoming m' (ch.pools k).bd_queue)) _,
            weigh-append (free_bufs k (incoming m (ch.pools k).bd_queue)) _,
            weigh-all_free-same m m' ch (k + 1) n
                (λ h le' lt'. same h (omega arith) (omega arith) (λ x. omega arith)),
          )
          (omega (arith, (rw (sym here) at e)))
    | no ne ↦
        rw
          (
            weigh-append (free_bufs k (incoming m' (ch.pools k).bd_queue)) _,
            weigh-append (free_bufs k (incoming m (ch.pools k).bd_queue)) _,
            same k (omega arith) (omega arith) ne,
          )
          (omega (
            arith,
            weigh-all_free-changed m m' ch j a b (k + 1) n (omega arith) (omega arith)
                (λ h le' lt'. same h (omega arith) (omega arith)) e,
          ))
  ]

  -- a free buffer is among all that are free
  pub weigh-all_free-has :
      (m : Mem) (ch : ManagedChannel) (j : ℕ) (bd : Bd) (rest : List Bd) (k n : ℕ)
      → k ≤ j
      → j < k + n
      → incoming m (ch.pools j).bd_queue ≡ bd ∷ rest
      → f (record { pool = j; number = bd.buf_id }) ≤ weigh f (all_free m ch k n)
  unfolding all_free
  weigh-all_free-has m ch j bd rest k zero le lt e = absurd (omega arith)
  weigh-all_free-has m ch j bd rest k (suc n) le lt e =
      let here = free_bufs k (incoming m (ch.pools k).bd_queue) in
      let more = weigh-append here (all_free m ch (k + 1) n) in
      elim (ℕ_discrete k j) [
        | yes same ↦
            rw (same, e) (omega (arith, (rw (same, e) at more), weigh-free_bufs-cons j bd rest))
        | no ne ↦
            omega (
              arith,
              more,
              weigh-all_free-has m ch j bd rest (k + 1) n (omega arith) (omega arith) e,
            )
      ]
