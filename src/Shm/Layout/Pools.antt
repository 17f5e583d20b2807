-- ===== src/Shm/Layout/Pools.antt =====
-- The pools of a channel: what a successful ipc_buf_pool_init() has stored, and the row of them.
use ipc_shm.Common.{
  ℕ, zero, suc, ◌+◌, ◌≤◌, ◌<◌, ◌≡◌, refl, sym, ap, ◌∙◌, arith, true, ltb, update_self, update_ne,
  Bool-cases, inl, inr,
}
use ipc_shm.Types.{ok, PoolCfg, max_bufs_per_pool}
use ipc_shm.Memory.{Mem, add_ptr}
use ipc_shm.Queue
use ipc_shm.Queue.{IpcQueue, QueueData, is_ok, is_ok-eq, not_ok, is_invalid, mapped, mem_size}
use ipc_shm.Shm.State.{World, Platform, Pool, Channel, channel, put_channel, put_mem, put_pool}
use ipc_shm.Shm.Setup.{populate, fill_pool, buf_pool_init, init_pools, queue_data}
use ipc_shm.Shm.Setup.Populate.{pool_of}
use ipc_shm.Shm.Frame.Opening.{buf_pool_init-Keeps}
use ipc_shm.Shm.Layout.{PoolAt, PoolRow, set_pool, OnlyChannel}

pub init-mapped :
    (m : Mem) (q : IpcQueue) (d : QueueData)
    → is_ok (Queue.init m q d).0 ≡ true
    → (Queue.init m q d).1 ≡ mapped d
unfolding Queue.init
init-mapped m q d good = elim (Bool-cases (is_invalid d)) [
  | inl e ↦ absurd (cc (rw (Queue.init, e) at good))
  | inr e ↦ rw (Queue.init, e) refl
]

pub channel_self :
    {S : Type 0} (w : World S) (i c : ℕ) (ch : Channel) → channel (put_channel w i c ch) i c ≡ ch
channel_self w i c ch = ground arith

pub channel_other :
    {S : Type 0} (w : World S) (i c : ℕ) (ch : Channel) → OnlyChannel i c w (put_channel w i c ch)
channel_other w i c ch d ne = ground arith

-- What a successful ipc_buf_pool_init() has done to the channels.
record Stored {S : Type 0} (P : Platform S) (w : World S) (i c k local_shm remote_shm : ℕ)
    (cfg : PoolCfg) (w' : World S) : Type 0 where
  pub pool :
      PoolAt cfg local_shm remote_shm
        (add_ptr (P.os_get_local_shm w.plat i) (w.priv i).shm_size)
        ((channel w' i c).mng.pools k)
  pub rest : channel w' i c ≡ set_pool (channel w i c) k ((channel w' i c).mng.pools k)
  pub only : OnlyChannel i c w w'

module _ {S : Type 0} (P : Platform S) where
  fill_pool-fits :
      (w : World S) (i c k : ℕ) (p : Pool) (local_shm remote_shm : ℕ)
      → (fill_pool P w i c k p local_shm remote_shm).0 ≡ ok
      → (add_ptr local_shm p.shm_size ≤ add_ptr (P.os_get_local_shm w.plat i) (w.priv i).shm_size)
        × ((fill_pool P w i c k p local_shm remote_shm).1.priv ≡ (put_pool w i c k p).priv)
  unfolding fill_pool
  fill_pool-fits w i c k p local_shm remote_shm good =
      let limit = add_ptr (P.os_get_local_shm w.plat i) (w.priv i).shm_size in
      elim (Bool-cases (ltb limit (add_ptr local_shm p.shm_size))) [
        | inl e ↦ absurd (cc (rw (fill_pool, e) at good))
        | inr e ↦ elim (Bool-cases (is_ok (populate w.mem p.bd_queue k 0 p.num_bufs).0)) [
          | inr bad ↦ rw (fill_pool, e, bad) (ground (arith, e), refl)
          | inl fine ↦ rw (fill_pool, e, fine) (ground (arith, e), refl)
        ]
      ]

  buf_pool_init-fits :
      (w : World S) (i c k local_shm remote_shm : ℕ) (cfg : PoolCfg)
      → (buf_pool_init P w i c k local_shm remote_shm cfg).0 ≡ ok
      → let p = pool_of ((channel w i c).mng.pools k) cfg local_shm remote_shm in
        let limit = add_ptr (P.os_get_local_shm w.plat i) (w.priv i).shm_size in
        (cfg.num_bufs ≤ max_bufs_per_pool)
        × (add_ptr local_shm p.shm_size ≤ limit)
        × ((buf_pool_init P w i c k local_shm remote_shm cfg).1.priv ≡ (put_pool w i c k p).priv)
  unfolding buf_pool_init
  buf_pool_init-fits w i c k local_shm remote_shm cfg good =
      let before = (channel w i c).mng.pools k in
      let p = pool_of before cfg local_shm remote_shm in
      let d = queue_data p local_shm remote_shm in
      let r = Queue.init w.mem before.bd_queue d in
      elim (Bool-cases (ltb max_bufs_per_pool cfg.num_bufs)) [
        | inl e ↦ absurd (cc (rw (buf_pool_init, e) at good))
        | inr e ↦ elim (Bool-cases (is_ok r.0)) [
          | inr bad ↦ absurd (not_ok _ bad (rw (buf_pool_init, e, bad) at good))
          | inl fine ↦
              let made = init-mapped w.mem before.bd_queue d fine in
              let u =
                fill_pool-fits (put_mem w r.2) i c k p local_shm remote_shm
                  (rw (buf_pool_init, e, fine, made) at good) in
              (ground (arith, e), u.0, rw (buf_pool_init, e, fine, made) u.1)
        ]
      ]

  buf_pool_init-Stored :
      (w : World S) (i c k local_shm remote_shm : ℕ) (cfg : PoolCfg)
      → (buf_pool_init P w i c k local_shm remote_shm cfg).0 ≡ ok
      → Stored P w i c k local_shm remote_shm cfg
          (buf_pool_init P w i c k local_shm remote_shm cfg).1
  buf_pool_init-Stored w i c k local_shm remote_shm cfg good =
      let before = (channel w i c).mng.pools k in
      let p = pool_of before cfg local_shm remote_shm in
      let u = buf_pool_init-fits w i c k local_shm remote_shm cfg good in
      let there : channel (buf_pool_init P w i c k local_shm remote_shm cfg).1 i c
          ≡ set_pool (channel w i c) k p =
        ap (λ f. (f i).channels c) u.2 ∙ channel_self w i c (set_pool (channel w i c) k p) in
      let self = ap (λ ch. ch.mng.pools k) there ∙ update_self (channel w i c).mng.pools k p in
      record {
        pool = rw self (record { before = before; formed = refl; few = u.0; fits = u.1 });
        rest = there ∙ ap (λ x. set_pool (channel w i c) k x) (sym self);
        only = λ d ne. ap (λ f. (f i).channels d) u.2 ∙ channel_other w i c _ d ne;
      }

  -- Pools behind the first leave the earlier ones, and the rest of the channel, as they were.
  pub record Kept (w : World S) (i c k : ℕ) (w' : World S) : Type 0 where
    pub earlier : (h : ℕ) → h < k → (channel w' i c).mng.pools h ≡ (channel w i c).mng.pools h
    pub queue : (channel w' i c).mng.bd_queue ≡ (channel w i c).mng.bd_queue
    pub num_pools : (channel w' i c).mng.num_pools ≡ (channel w i c).mng.num_pools
    pub type : (channel w' i c).type ≡ (channel w i c).type
    pub only : OnlyChannel i c w w'

  no_pools :
      (cfgs : ℕ → PoolCfg) (limit : ℕ) (pools : ℕ → Pool) (local_shm remote_shm k : ℕ)
      → PoolRow cfgs limit pools local_shm remote_shm k zero
  unfolding PoolRow
  no_pools cfgs limit pools local_shm remote_shm k = tt

  all-Kept : (w : World S) (i c k : ℕ) → Kept w i c k w
  all-Kept w i c k = record {
    earlier = λ h lt. refl;
    queue = refl;
    num_pools = refl;
    type = refl;
    only = λ d ne. refl;
  }

  first-Kept :
      {w w₁ w₂ : World S} {i c k local_shm remote_shm : ℕ} {cfg : PoolCfg}
      → Stored P w i c k local_shm remote_shm cfg w₁
      → Kept w₁ i c (k + 1) w₂
      → Kept w i c k w₂
  first-Kept {w} {w₁} {w₂} {i} {c} {k} s r =
      let new = (channel w₁ i c).mng.pools k in
      record {
        earlier = λ h lt.
            r.earlier h (omega arith)
            ∙ ap (λ ch. ch.mng.pools h) s.rest
            ∙ update_ne (channel w i c).mng.pools k h new (λ e. omega arith);
        queue = r.queue ∙ ap (λ ch. ch.mng.bd_queue) s.rest;
        num_pools = r.num_pools ∙ ap (λ ch. ch.mng.num_pools) s.rest;
        type = r.type ∙ ap (λ ch. ch.type) s.rest;
        only = λ d ne. r.only d ne ∙ s.only d ne;
      }

  -- the limit of the pools, and the first of a row before the others
  abbrev pub limit_of : World S → ℕ → ℕ
  limit_of w i = add_ptr (P.os_get_local_shm w.plat i) (w.priv i).shm_size

  abbrev pub Rowed :
      World S → (i c : ℕ) → (ℕ → PoolCfg) → (local_shm remote_shm k n : ℕ) → World S → Type 0
  Rowed w i c cfgs local_shm remote_shm k n w' =
      PoolRow cfgs (limit_of w i) (channel w' i c).mng.pools local_shm remote_shm k n
      × Kept w i c k w'

  row_first :
      (w w₁ w₂ : World S) (i c : ℕ) (cfgs : ℕ → PoolCfg) (local_shm remote_shm k n : ℕ)
      → Stored P w i c k local_shm remote_shm (cfgs k) w₁
      → limit_of w₁ i ≡ limit_of w i
      → let size = ((channel w₁ i c).mng.pools k).shm_size in
        Rowed w₁ i c cfgs (add_ptr local_shm size) (add_ptr remote_shm size) (k + 1) n w₂
        → Rowed w i c cfgs local_shm remote_shm k (suc n) w₂
  unfolding PoolRow
  row_first w w₁ w₂ i c cfgs local_shm remote_shm k n s same (row, kept) =
      let mine = kept.earlier k (omega arith) in
      let size = ((channel w₁ i c).mng.pools k).shm_size in
      let behind = rw same at row in ((rw mine s.pool, rw mine behind), first-Kept s kept)

  pub init_pools-PoolRow :
      (w : World S) (i c : ℕ) (cfgs : ℕ → PoolCfg) (local_shm remote_shm k n : ℕ)
      → (init_pools P w i c cfgs local_shm remote_shm k n).0 ≡ ok
      → Rowed w i c cfgs local_shm remote_shm k n
          (init_pools P w i c cfgs local_shm remote_shm k n).1
  unfolding init_pools
  init_pools-PoolRow w i c cfgs local_shm remote_shm k zero good =
      (no_pools _ _ _ _ _ _, all-Kept w i c k)
  init_pools-PoolRow w i c cfgs local_shm remote_shm k (suc n) good =
      let r = buf_pool_init P w i c k local_shm remote_shm (cfgs k) in
      let size = ((channel r.1 i c).mng.pools k).shm_size in
      elim (Bool-cases (is_ok r.0)) [
        | inr bad ↦ absurd (not_ok _ bad (rw (init_pools, bad) at good))
        | inl fine ↦
            let s = buf_pool_init-Stored w i c k local_shm remote_shm (cfgs k) (is_ok-eq _ fine) in
            let same = buf_pool_init-Keeps P w i c k local_shm remote_shm (cfgs k) in
            rw (init_pools, fine)
              (row_first w r.1 _ i c cfgs local_shm remote_shm k n s
                (rw (same.plat, same.shm_size) refl)
                (init_pools-PoolRow r.1 i c cfgs (add_ptr local_shm size) (add_ptr remote_shm size)
                  (k + 1) n (rw (init_pools, fine) at good)))
      ]
