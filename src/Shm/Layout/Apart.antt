-- ===== src/Shm/Layout/Apart.antt =====
-- The places in a row do not overlap: pools in a channel, and channels in an instance.
use ipc_shm.Common.{ℕ, zero, suc, ◌+◌, ◌*◌, ◌^◌, ◌≤◌, ◌<◌, ◌≡◌, refl, sym, ap, arith}
use native.Mathlib.Decide.{ℕ_discrete}
use ipc_shm.Types.{PoolCfg}
use ipc_shm.Memory.{ring_size, bd_size, add_ptr, add_u32}
use ipc_shm.Shm.State.{Pool, ManagedChannel}
use ipc_shm.Shm.Setup.{pools_size}
use ipc_shm.Shm.Layout.{PoolAt, PoolRow}

-- `n` stretches of memory from number `k` on: above `lo`, and each behind those before it.
pub record InOrder (starts sizes : ℕ → ℕ) (lo hi k n : ℕ) : Type 0 where
  pub above : (h : ℕ) → k ≤ h → h < k + n → lo ≤ starts h
  pub below : (h : ℕ) → k ≤ h → h < k + n → starts h + sizes h ≤ hi
  pub apart : (h h' : ℕ) → k ≤ h → h < h' → h' < k + n → starts h + sizes h ≤ starts h'

pub InOrder-none : (starts sizes : ℕ → ℕ) (lo hi k : ℕ) → InOrder starts sizes lo hi k 0
InOrder-none starts sizes lo hi k = record {
  above = λ h low high. absurd (omega arith);
  below = λ h low high. absurd (omega arith);
  apart = λ h h' low lt high. absurd (omega arith);
}

pub InOrder-first :
    (starts sizes : ℕ → ℕ) (lo hi k n : ℕ)
    → starts k ≡ lo
    → lo + sizes k ≤ hi
    → InOrder starts sizes (lo + sizes k) hi (k + 1) n
    → InOrder starts sizes lo hi k (suc n)
InOrder-first starts sizes lo hi k n first fits v = record {
  above = λ h low high. elim (ℕ_discrete k h) [
    | yes e ↦ rw (← e) (omega arith)
    | no ne ↦ omega (arith, v.above h (omega arith) (omega arith))
  ];
  below = λ h low high. elim (ℕ_discrete k h) [
    | yes e ↦ rw (← e) (omega arith)
    | no ne ↦ v.below h (omega arith) (omega arith)
  ];
  apart = λ h h' low lt high. elim (ℕ_discrete k h) [
    | yes e ↦ rw (← e) (omega (arith, v.above h' (omega arith) (omega arith)))
    | no ne ↦ v.apart h h' (omega arith) lt (omega arith)
  ];
}

-- A pool: its ring, with one descriptor more than buffers, and the buffers right behind it.
pub record PoolSpan (cfg : PoolCfg) (start limit : ℕ) (p : Pool) : Type 0 where
  pub ring : p.bd_queue.push_ring ≡ start
  pub slots : p.bd_queue.elem_num ≡ cfg.num_bufs + 1
  pub elem_size : p.bd_queue.elem_size ≡ bd_size
  pub num_bufs : p.num_bufs ≡ cfg.num_bufs
  pub buf_size : p.buf_size ≡ cfg.buf_size
  pub bufs : p.local_pool_addr ≡ start + ring_size + (cfg.num_bufs + 1) * bd_size
  pub end : start + p.shm_size ≡ p.local_pool_addr + cfg.buf_size * cfg.num_bufs
  pub fits : start + p.shm_size ≤ limit

PoolAt-PoolSpan :
    (cfg : PoolCfg) (local_shm remote_shm limit : ℕ) (p : Pool)
    → cfg.buf_size * cfg.num_bufs < 2 ^ 31
    → local_shm + 2 ^ 33 ≤ 2 ^ 64
    → PoolAt cfg local_shm remote_shm limit p
    → PoolSpan cfg local_shm limit p
PoolAt-PoolSpan cfg local_shm remote_shm limit p small low a =
    let few = a.few in
    let fits = rw a.formed at a.fits in
    rw a.formed (record {
      ring = refl;
      slots = omega arith;
      elem_size = refl;
      num_bufs = refl;
      buf_size = refl;
      bufs = omega arith;
      end = omega arith;
      fits = omega arith;
    })

-- The pools of a channel that begins at `base`: in order, up to the size that is computed for them.
pub record PoolsLaid (cfgs : ℕ → PoolCfg) (ch : ManagedChannel) (base limit size k n : ℕ)
    : Type 0 where
  pub spans :
      (h : ℕ)
      → k ≤ h
      → h < k + n
      → PoolSpan (cfgs h) (ch.pools h).bd_queue.push_ring limit (ch.pools h)
  pub in_order :
      InOrder
        (λ h. (ch.pools h).bd_queue.push_ring)
        (λ h. (ch.pools h).shm_size)
        (base + size)
        (base + pools_size ch size k n)
        k
        n
  pub grows : size ≤ pools_size ch size k n
  pub fits : base + pools_size ch size k n ≤ limit

laid_first :
    (cfgs : ℕ → PoolCfg) (ch : ManagedChannel) (base limit size k n : ℕ)
    → PoolSpan (cfgs k) (base + size) limit (ch.pools k)
    → pools_size ch size k (suc n) ≡ pools_size ch (size + (ch.pools k).shm_size) (k + 1) n
    → PoolsLaid cfgs ch base limit (size + (ch.pools k).shm_size) (k + 1) n
    → PoolsLaid cfgs ch base limit size k (suc n)
laid_first cfgs ch base limit size k n span total rest =
    let shm_size = (ch.pools k).shm_size in
    let behind : base + (size + shm_size) ≡ base + size + shm_size = omega arith in
    let grows = rest.grows in
    record {
      spans = λ h from to. elim (ℕ_discrete k h) [
        | yes e ↦ rw (← e) (rw (sym span.ring) at span)
        | no ne ↦ rest.spans h (omega arith) (omega arith)
      ];
      in_order = rw total (
          InOrder-first _ _ (base + size) _ k n span.ring (omega arith)
            (rw behind at rest.in_order));
      grows = rw total (omega arith);
      fits = rw total rest.fits;
    }

pub PoolRow-PoolsLaid :
    (cfgs : ℕ → PoolCfg) (ch : ManagedChannel) (base remote_shm limit size k n : ℕ)
    → ((h : ℕ) → h < k + n → (cfgs h).buf_size * (cfgs h).num_bufs < 2 ^ 31)
    → limit + 2 ^ 33 ≤ 2 ^ 64
    → limit < base + 2 ^ 32
    → base + size ≤ limit
    → PoolRow cfgs limit ch.pools (base + size) remote_shm k n
    → PoolsLaid cfgs ch base limit size k n
unfolding PoolRow pools_size
PoolRow-PoolsLaid cfgs ch base remote_shm limit size k zero small low near fits row = record {
  spans = λ h from to. absurd (omega arith);
  in_order = InOrder-none _ _ _ _ _;
  grows = omega arith;
  fits = fits;
}
PoolRow-PoolsLaid cfgs ch base remote_shm limit size k (suc n) small low near fits (first, row) =
    let shm_size = (ch.pools k).shm_size in
    let span =
      PoolAt-PoolSpan (cfgs k) (base + size) remote_shm limit (ch.pools k) (small k (omega arith))
        (omega arith) first in
    let next : add_ptr (base + size) shm_size ≡ base + (size + shm_size) =
      omega (arith, span.fits) in
    let sum : add_u32 size shm_size ≡ size + shm_size = omega (arith, span.fits) in
    let rest =
      PoolRow-PoolsLaid cfgs ch base (add_ptr remote_shm shm_size) limit (size + shm_size) (k + 1) n
        (λ h lt. small h (omega arith)) low near (omega (arith, span.fits)) (rw next at row) in
    let total = ap (λ x. pools_size ch x (k + 1) n) sum in
    laid_first cfgs ch base limit size k n span total rest
