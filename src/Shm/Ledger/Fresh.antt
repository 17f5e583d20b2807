-- ===== src/Shm/Ledger/Fresh.antt =====
-- The buffers of a channel when both sides have initialized it: all free, each once.
use ipc_shm.Common.{
  ℕ, zero, suc, ◌+◌, ◌≤◌, ◌<◌, ◌≡◌, ◌≢◌, refl, sym, ◌∙◌, arith, ◌&&◌, ◌==◌, leb, [], if◌then◌else◌,
}
use native.Mathlib.Decide.{ℕ_discrete}
use ipc_shm.Memory.{Mem}
use ipc_shm.Queue.Fifo.{outgoing, incoming}
use ipc_shm.Shm.State.{ManagedChannel}
use ipc_shm.Shm.Setup.Populate.{free_bds}
use ipc_shm.Shm.Ledger.{Buf, Sys, bufs, free_bufs, all_free, weigh}
use ipc_shm.Shm.Ledger.Weights.{weigh-append}
use ipc_shm.Shm.Ledger.Effects.{AllLinked}
use ipc_shm.Shm.Ledger.Conservation.{invalid, total, total_parts, Consistent}

-- The state behind the initialization of both sides: every buffer is free.
pub record Fresh (ch : ManagedChannel) (s : Sys) : Type 0 where
  pub linked : AllLinked s.mem ch
  pub free :
      (k : ℕ)
      → k < ch.num_pools
      → incoming s.mem (ch.pools k).bd_queue ≡ free_bds k 0 (ch.pools k).num_bufs
  pub flight : outgoing s.mem ch.bd_queue ≡ []
  pub held : s.held ≡ []
  pub got : s.got ≡ []

-- the buffers of `n` pools from `k` on
unfoldable pub num_all : ManagedChannel → (k n : ℕ) → ℕ
num_all ch k zero = 0
num_all ch k (suc n) = (ch.pools k).num_bufs + num_all ch (k + 1) n

abbrev pub one : Buf → ℕ
one b = 1

-- 1 for the buffers of the pool `k`
abbrev pub in_pool : ℕ → Buf → ℕ
in_pool k b = if k == b.pool then 1 else 0

-- 1 for the buffer `b`
abbrev pub is_buf : Buf → Buf → ℕ
is_buf b x = if (b.pool == x.pool) && (b.number == x.number) then 1 else 0

fresh_valid :
    (ch : ManagedChannel) (k b n : ℕ)
    → k < ch.num_pools
    → b + n ≤ (ch.pools k).num_bufs
    → weigh (invalid ch) (free_bufs k (free_bds k b n)) ≡ 0
unfolding weigh free_bufs free_bds invalid
fresh_valid ch k b zero lt le = refl
fresh_valid ch k b (suc n) lt le = ground (arith, fresh_valid ch k (b + 1) n lt (omega arith))

fresh_count : (k b n : ℕ) → weigh one (free_bufs k (free_bds k b n)) ≡ n
unfolding weigh free_bufs free_bds
fresh_count k b zero = refl
fresh_count k b (suc n) = omega (arith, fresh_count k (b + 1) n)

fresh_pool :
    (j k b n : ℕ) → weigh (in_pool j) (free_bufs k (free_bds k b n)) ≡ (if j == k then n else 0)
unfolding weigh free_bufs free_bds
fresh_pool j k b zero = ground arith
fresh_pool j k b (suc n) = ground (arith, fresh_pool j k (b + 1) n)

fresh_once :
    (x : Buf) (k b n : ℕ)
    → weigh (is_buf x) (free_bufs k (free_bds k b n))
      ≤ (if (x.pool == k) && leb b x.number then 1 else 0)
unfolding weigh free_bufs free_bds
fresh_once x k b zero = ground arith
fresh_once x k b (suc n) = ground (arith, fresh_once x k (b + 1) n)

-- The free buffers of `n` pools weigh nothing, each pool's own weight, or what one pool weighs.
module _ (f : Buf → ℕ) (m : Mem) (ch : ManagedChannel) where
  abbrev free_weight : ℕ → ℕ
  free_weight k = weigh f (free_bufs k (incoming m (ch.pools k).bd_queue))

  all_free-zero :
      (k n : ℕ)
      → ((h : ℕ) → k ≤ h → h < k + n → free_weight h ≡ 0)
      → weigh f (all_free m ch k n) ≡ 0
  unfolding all_free weigh
  all_free-zero k zero none = refl
  all_free-zero k (suc n) none = omega (
    arith,
    weigh-append f (free_bufs k (incoming m (ch.pools k).bd_queue)) (all_free m ch (k + 1) n),
    none k (omega arith) (omega arith),
    all_free-zero (k + 1) n (λ h le lt. none h (omega arith) (omega arith)),
  )

  all_free-single :
      (j k n : ℕ)
      → ((h : ℕ) → k ≤ h → h < k + n → h ≢ j → free_weight h ≡ 0)
      → weigh f (all_free m ch k n) ≤ free_weight j
  unfolding all_free weigh
  all_free-single j k zero none = omega arith
  all_free-single j k (suc n) none = elim (ℕ_discrete k j) [
    | yes same ↦ rw (sym same) (
        omega (
          arith,
          weigh-append f (free_bufs k (incoming m (ch.pools k).bd_queue)) (all_free m ch (k + 1) n),
          all_free-zero (k + 1) n
              (λ h le lt. none h (omega arith) (omega arith) (λ x. omega arith)),
        ))
    | no ne ↦ omega (
      arith,
      weigh-append f (free_bufs k (incoming m (ch.pools k).bd_queue)) (all_free m ch (k + 1) n),
      none k (omega arith) (omega arith) ne,
      all_free-single j (k + 1) n (λ h le lt. none h (omega arith) (omega arith)),
    )
  ]

  -- what one pool has is among all that is free
  pub all_free-has : (j k n : ℕ) → k ≤ j → j < k + n → free_weight j ≤ weigh f (all_free m ch k n)
  unfolding all_free
  all_free-has j k zero le lt = absurd (omega arith)
  all_free-has j k (suc n) le lt =
      let more =
        weigh-append f (free_bufs k (incoming m (ch.pools k).bd_queue)) (all_free m ch (k + 1) n) in
      elim (ℕ_discrete k j) [
        | yes same ↦ rw (sym same) (omega (arith, more))
        | no ne ↦ omega (arith, more, all_free-has j (k + 1) n (omega arith) (omega arith))
      ]

module _ {ch : ManagedChannel} {s : Sys} (F : Fresh ch s) where
  fresh_total : (f : Buf → ℕ) → total f ch s ≡ weigh f (all_free s.mem ch 0 ch.num_pools)
  unfolding weigh bufs
  fresh_total f = total_parts f ch s ∙ rw (F.flight, F.held, F.got) (omega arith)

  -- only the pool of the buffers that count weighs something
  fresh_single :
      (f : Buf → ℕ) (j : ℕ)
      → j < ch.num_pools
      → ((h : ℕ) → h ≢ j → weigh f (free_bufs h (free_bds h 0 (ch.pools h).num_bufs)) ≡ 0)
      → total f ch s ≤ weigh f (free_bufs j (free_bds j 0 (ch.pools j).num_bufs))
  fresh_single f j lt others =
      rw (fresh_total f, sym (F.free j lt))
        (all_free-single f s.mem ch j 0 ch.num_pools
          (λ h le lt' ne. rw (F.free h (omega (arith, lt'))) (others h ne)))

  pub fresh_in_pool : (j : ℕ) → j < ch.num_pools → total (in_pool j) ch s ≤ (ch.pools j).num_bufs
  fresh_in_pool j lt =
      let single =
        fresh_single (in_pool j) j lt
          (λ h ne. ground (arith, fresh_pool j h 0 (ch.pools h).num_bufs)) in
      ground (arith, single, fresh_pool j j 0 (ch.pools j).num_bufs)

  pub fresh_is_buf : (b : Buf) → b.pool < ch.num_pools → total (is_buf b) ch s ≤ 1
  fresh_is_buf b lt =
      let single =
        fresh_single (is_buf b) b.pool lt
          (λ h ne. ground (arith, fresh_once b h 0 (ch.pools h).num_bufs)) in
      ground (arith, single, fresh_once b b.pool 0 (ch.pools b.pool).num_bufs)

  count_from : (k n : ℕ) → k + n ≤ ch.num_pools → weigh one (all_free s.mem ch k n) ≡ num_all ch k n
  unfolding all_free weigh num_all
  count_from k zero le = refl
  count_from k (suc n) le = rw (F.free k (omega arith)) (
      omega (
        arith,
        weigh-append one (free_bufs k (free_bds k 0 (ch.pools k).num_bufs))
            (all_free s.mem ch (k + 1) n),
        fresh_count k 0 (ch.pools k).num_bufs,
        count_from (k + 1) n (omega arith),
      ))

  pub fresh_num : total one ch s ≡ num_all ch 0 ch.num_pools
  fresh_num = fresh_total one ∙ count_from 0 ch.num_pools (omega arith)

  pub Fresh-Consistent : Consistent ch s
  Fresh-Consistent = record {
    linked = F.linked;
    valid =
        fresh_total (invalid ch)
        ∙ all_free-zero (invalid ch) s.mem ch 0 ch.num_pools (λ h le lt.
          rw (F.free h (omega (arith, lt)))
            (fresh_valid ch h 0 (ch.pools h).num_bufs (omega (arith, lt)) (omega arith)));
  }
