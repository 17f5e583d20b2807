-- ===== src/Shm/Buffers/Acquire.antt =====
-- Which buffer ipc_shm_acquire_buf() takes.
use ipc_shm.Common.{
  ℕ, zero, suc, ◌+◌, ◌≤◌, ◌<◌, ◌≡◌, ◌≢◌, refl, sym, ap, ◌⊎◌, inl, inr, arith, Option, none, some,
  [], ◌∷◌, ltb, Bool-cases, ltb→lt, ltb-false→le, ==_false,
}
use native.Mathlib.Decide.{ℕ_discrete}
use ipc_shm.Types.{ok}
use ipc_shm.Memory.{Bd, Mem}
use ipc_shm.Queue
use ipc_shm.Queue.{check_integrity, is_ok}
use ipc_shm.Queue.Fifo.{
  IsLinked, incoming, own, theirs, pop-empty, pop-some, incoming-empty, incoming-popped,
}
use ipc_shm.Shm.State.{World, Platform, ManagedChannel}
use ipc_shm.Shm.Lookup.{check_pools, check_mchan_integrity, get_managed_chan, is_remote_ready}
use ipc_shm.Shm.Buffers.Transfer.{ok_of_is_ok}
use ipc_shm.Shm.Buffers.{acquire_from, acquired, acquire_in, acquire_buf}

-- The pool cannot serve the request: its buffers are too small, or it has none that is free.
pub Skipped : Mem → ManagedChannel → (size k : ℕ) → Type 0
Skipped m ch size k = ((ch.pools k).buf_size < size) ⊎ (incoming m (ch.pools k).bd_queue ≡ [])

-- The pool `j` has served the request with the oldest of its free buffers, and no pool from `k` on
-- before it could.
pub record Served (m : Mem) (ch : ManagedChannel) (size k n j : ℕ) (bd : Bd) (m' : Mem)
    : Type 0 where
  pub from : k ≤ j
  pub within : j < k + n
  pub fits : size ≤ (ch.pools j).buf_size
  pub taken : incoming m (ch.pools j).bd_queue ≡ bd ∷ incoming m' (ch.pools j).bd_queue
  pub popped : m' ≡ (Queue.pop m (ch.pools j).bd_queue).2
  pub before : (h : ℕ) → k ≤ h → h < j → Skipped m ch size h

-- First fit among `n` pools from `k` on.
unfoldable pub FirstFit : Mem → ManagedChannel → (size k n : ℕ) → Option (ℕ × Bd) × Mem → Type 0
FirstFit m ch size k n (none, m') = (m' ≡ m) × ((h : ℕ) → k ≤ h → h < k + n → Skipped m ch size h)
FirstFit m ch size k n (some (j, bd), m') = Served m ch size k n j bd m'

FirstFit-suc :
    (m : Mem) (ch : ManagedChannel) (size k n : ℕ) (r : Option (ℕ × Bd) × Mem)
    → Skipped m ch size k
    → FirstFit m ch size (k + 1) n r
    → FirstFit m ch size k (suc n) r
unfolding FirstFit
FirstFit-suc m ch size k n (none, m') skip (same, rest) = (
  same,
  λ h le lt. elim (ℕ_discrete k h) [
    | yes e ↦ rw e at skip
    | no ne ↦ rest h (omega arith) (omega arith)
  ],
)
FirstFit-suc m ch size k n (some (j, bd), m') skip s = record {
  from = omega (arith, s.from);
  within = omega (arith, s.within);
  fits = s.fits;
  taken = s.taken;
  popped = s.popped;
  before = λ h le lt. elim (ℕ_discrete k h) [
    | yes e ↦ rw e at skip
    | no ne ↦ s.before h (omega arith) lt
  ];
}

-- With the queues of `n` pools from `k` on linked and initialized, the search is first fit: it takes
-- the oldest free buffer of the first pool that has one that is large enough, and if there is no
-- such pool, it takes none and leaves the memory as it was.
pub acquire_from-FirstFit :
    (m : Mem) (ch : ManagedChannel) (size k n : ℕ)
    → ((h : ℕ) → k ≤ h → h < k + n → IsLinked m (ch.pools h).bd_queue)
    → ((h : ℕ) → k ≤ h → h < k + n → check_integrity m (ch.pools h).bd_queue ≡ ok)
    → FirstFit m ch size k n (acquire_from m ch size k n)
unfolding acquire_from FirstFit Skipped
acquire_from-FirstFit m ch size k zero linked sound = (refl, λ h le lt. absurd (omega arith))
acquire_from-FirstFit m ch size k (suc n) linked sound =
    let rest =
      acquire_from-FirstFit m ch size (k + 1) n (λ h le lt. linked h (omega arith) (omega arith))
        (λ h le lt. sound h (omega arith) (omega arith)) in
    let q = (ch.pools k).bd_queue in
    let v = linked k (omega arith) (omega arith) in
    let good = sound k (omega arith) (omega arith) in
    elim (Bool-cases (ltb (ch.pools k).buf_size size)) [
      | inl small ↦ rw small (FirstFit-suc m ch size k n _ (inl (ltb→lt _ _ small)) rest)
      | inr large ↦ elim (ℕ_discrete (own v).read (theirs v).write) [
        | yes empty ↦
            rw (large, pop-empty v good empty)
              (FirstFit-suc m ch size k n _ (inr (incoming-empty v empty)) rest)
        | no more ↦
            rw (large, pop-some v good more)
              (record {
                from = omega arith;
                within = omega arith;
                fits = ltb-false→le _ _ large;
                taken = incoming-popped v more;
                popped = sym (ap (λ r. r.2) (pop-some v good more));
                before = λ h le lt. absurd (omega arith);
              })
      ]
    ]

pub check_pools-ok :
    (m : Mem) (ch : ManagedChannel) (k n : ℕ)
    → check_pools m ch k n ≡ ok
    → (h : ℕ) → k ≤ h
    → h < k + n
    → check_integrity m (ch.pools h).bd_queue ≡ ok
unfolding check_pools
check_pools-ok m ch k zero e h le lt = absurd (omega arith)
check_pools-ok m ch k (suc n) e h le lt =
    elim (Bool-cases (is_ok (check_integrity m (ch.pools k).bd_queue))) [
      | inl good ↦ elim (ℕ_discrete k h) [
        | yes same ↦ ok_of_is_ok _ (rw same at good)
        | no ne ↦ check_pools-ok m ch (k + 1) n (rw good at e) h (omega arith) (omega arith)
      ]
      | inr bad ↦ absurd (cc (rw bad at e))
    ]

pub pools_ok :
    (m : Mem) (ch : ManagedChannel)
    → check_mchan_integrity m ch ≡ ok
    → (h : ℕ) → 0 ≤ h
    → h < 0 + ch.num_pools
    → check_integrity m (ch.pools h).bd_queue ≡ ok
unfolding check_mchan_integrity
pools_ok m ch e = elim (Bool-cases (is_ok (check_integrity m ch.bd_queue))) [
  | inl good ↦ check_pools-ok m ch 0 ch.num_pools (rw good at e)
  | inr bad ↦ absurd (cc (rw bad at e))
]

module _ {S : Type 0} (P : Platform S) where
  -- What an acquisition returns: the address of the buffer that first fit gives, or null.
  pub record Acquisition (w : World S) (i : ℕ) (ch : ManagedChannel) (size : ℕ) (r : ℕ × World S)
      : Type 0 where
    pub choice : Option (ℕ × Bd)
    pub first_fit : FirstFit w.mem ch size 0 ch.num_pools (choice, r.1.mem)
    pub address : r.0 ≡ acquired P w i ch choice
    pub plat : r.1.plat ≡ w.plat
    pub priv : r.1.priv ≡ w.priv

  -- ipc_shm_acquire_buf() with the remote side ready, on a managed channel that passes its check and
  -- whose pools have linked queues, for a size other than 0: it takes the oldest free buffer of the
  -- first pool with a free buffer that is large enough, and returns what its bounds check makes of
  -- the address; if there is no such pool, it takes none.
  pub acquire_buf_first_fit :
      (w : World S) (i c size : ℕ) (ch : ManagedChannel)
      → is_remote_ready P w i ≡ ok
      → get_managed_chan w i c ≡ some ch
      → check_mchan_integrity w.mem ch ≡ ok
      → ((h : ℕ) → 0 ≤ h → h < 0 + ch.num_pools → IsLinked w.mem (ch.pools h).bd_queue)
      → size ≢ 0
      → Acquisition w i ch size (acquire_buf P w i c size)
  unfolding acquire_buf acquire_in
  acquire_buf_first_fit w i c size ch ready here sound linked some_size =
      let r = acquire_from w.mem ch size 0 ch.num_pools in
      rw (ready, here, ==_false size 0 some_size, sound)
        (record {
          choice = r.0;
          first_fit =
              acquire_from-FirstFit w.mem ch size 0 ch.num_pools linked (pools_ok w.mem ch sound);
          address = refl;
          plat = refl;
          priv = refl;
        })
