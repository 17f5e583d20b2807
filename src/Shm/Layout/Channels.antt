-- ===== src/Shm/Layout/Channels.antt =====
-- A managed channel: what a successful initialization has stored.
use ipc_shm.Common.{
  ℕ, ◌≤◌, ◌≡◌, refl, ap, ◌∙◌, arith, ltb, Option, none, some, ◌==◌, Bool-cases, inl, inr,
}
use ipc_shm.Types.{ok, PoolCfg, ManagedCfg, max_pools, queue_init_done}
use ipc_shm.Memory.{null, add_ptr, put_sentinel}
use ipc_shm.Queue
use ipc_shm.Queue.{IpcQueue, QueueData, is_ok, not_ok, mapped, mem_size}
use ipc_shm.Shm.State.{World, Platform, Channel, channel, put_channel, put_mem, put_mng}
use ipc_shm.Shm.Setup.{
  channel_data, map_pools, open_managed, pools_of, managed_channel_init, total_buf_per_chan,
}
use ipc_shm.Shm.Layout.{ManagedAt, OnlyChannel}
use ipc_shm.Shm.Layout.Pools.{
  init-mapped, channel_self, channel_other, limit_of, Rowed, init_pools-PoolRow,
}

module _ {S : Type 0} (P : Platform S) where
  pub limit_put :
      (w : World S) (i c : ℕ) (ch : Channel) → limit_of P (put_channel w i c ch) i ≡ limit_of P w i
  limit_put w i c ch = ground arith

  -- What a successful initialization of a managed channel has done.
  pub record Managed (w : World S) (i c local_shm remote_shm : ℕ) (cfg : ManagedCfg) (w' : World S)
      : Type 0 where
    pub mng : ManagedAt cfg local_shm remote_shm (limit_of P w i) (channel w' i c).mng
    pub type : (channel w' i c).type ≡ (channel w i c).type
    pub only : OnlyChannel i c w w'

  map_pools-Rowed :
      (w : World S) (i c local_shm remote_shm : ℕ) (cfgs : ℕ → PoolCfg)
      → (map_pools P w i c local_shm remote_shm cfgs).0 ≡ ok
      → let q = (channel w i c).mng.bd_queue in
        (add_ptr local_shm (mem_size q) ≤ limit_of P w i)
        × Rowed P w i c cfgs
            (add_ptr local_shm (mem_size q))
            (add_ptr remote_shm (mem_size q))
            0
            (channel w i c).mng.num_pools
            (map_pools P w i c local_shm remote_shm cfgs).1
  unfolding map_pools
  map_pools-Rowed w i c local_shm remote_shm cfgs good =
      let q = (channel w i c).mng.bd_queue in
      elim (Bool-cases (ltb (limit_of P w i) (add_ptr local_shm (mem_size q)))) [
        | inl e ↦ absurd (cc (rw (map_pools, e) at good))
        | inr e ↦
            rw (map_pools, e)
              (
                ground (arith, e),
                init_pools-PoolRow P w i c cfgs (add_ptr local_shm (mem_size q))
                    (add_ptr remote_shm (mem_size q)) 0 (channel w i c).mng.num_pools
                    (rw (map_pools, e) at good),
              )
      ]

  -- from the channel with its queue, in `w₁`, to that with its pools
  mapped-Managed :
      (w w₁ w₂ : World S) (i c local_shm remote_shm total : ℕ) (cfg : ManagedCfg)
      (cfgs : ℕ → PoolCfg)
      → cfg.pools ≡ some cfgs
      → limit_of P w₁ i ≡ limit_of P w i
      → (channel w₁ i c).mng.num_pools ≡ cfg.num_pools
      → (channel w₁ i c).type ≡ (channel w i c).type
      → (channel w₁ i c).mng.bd_queue ≡ mapped (channel_data total local_shm remote_shm)
      → OnlyChannel i c w w₁
      → let q = (channel w₁ i c).mng.bd_queue in
        (add_ptr local_shm (mem_size q) ≤ limit_of P w₁ i)
          × Rowed P w₁ i c cfgs
              (add_ptr local_shm (mem_size q))
              (add_ptr remote_shm (mem_size q))
              0
              (channel w₁ i c).mng.num_pools
              w₂
        → Managed w i c local_shm remote_shm cfg w₂
  mapped-Managed w w₁ w₂ i c local_shm remote_shm total cfg cfgs configured limit num type queue
        only (fits, (row, kept)) =
      record {
        mng = record {
          cfgs = cfgs;
          configured = configured;
          ring = ap (λ q. q.push_ring) (kept.queue ∙ queue);
          elem_size = ap (λ q. q.elem_size) (kept.queue ∙ queue);
          few = rw (kept.queue ∙ queue) (omega arith);
          num_pools = kept.num_pools ∙ num;
          fits = rw kept.queue (rw limit at fits);
          row = rw kept.queue (rw (limit, num) at row);
        };
        type = kept.type ∙ type;
        only = λ k ne. kept.only k ne ∙ only k ne;
      }

  open_managed-Managed :
      (w : World S) (i c local_shm remote_shm total : ℕ) (cfg : ManagedCfg) (cfgs : ℕ → PoolCfg)
      → cfg.pools ≡ some cfgs
      → (channel w i c).mng.num_pools ≡ cfg.num_pools
      → (open_managed P w i c local_shm remote_shm total cfgs).0 ≡ ok
      → Managed w i c local_shm remote_shm cfg
          (open_managed P w i c local_shm remote_shm total cfgs).1
  unfolding open_managed
  open_managed-Managed w i c local_shm remote_shm total cfg cfgs configured num good =
      let ch = (channel w i c).mng in
      let d = channel_data total local_shm remote_shm in
      let r = Queue.init w.mem ch.bd_queue d in
      elim (Bool-cases (total == 0)) [
        | inl e ↦ absurd (cc (rw (open_managed, e) at good))
        | inr e ↦ elim (Bool-cases (is_ok r.0)) [
          | inr bad ↦ absurd (not_ok _ bad (rw (open_managed, e, bad) at good))
          | inl fine ↦
              let made = init-mapped w.mem ch.bd_queue d fine in
              let opened : World S =
                put_mem (put_mng w i c (record ch { bd_queue = mapped d }))
                  (put_sentinel r.2 local_shm queue_init_done) in
              let self =
                channel_self w i c
                  (record (channel w i c) { mng = record ch { bd_queue = mapped d } }) in
              let u =
                map_pools-Rowed opened i c local_shm remote_shm cfgs
                  (rw (open_managed, e, fine, made) at good) in
              rw (open_managed, e, fine, made)
                (mapped-Managed w opened _ i c local_shm remote_shm total cfg cfgs configured
                  (limit_put w i c
                    (record (channel w i c) { mng = record ch { bd_queue = mapped d } }))
                  (ap (λ x. x.mng.num_pools) self ∙ num) (ap (λ x. x.type) self)
                  (ap (λ x. x.mng.bd_queue) self)
                  (channel_other w i c
                    (record (channel w i c) { mng = record ch { bd_queue = mapped d } }))
                  u)
        ]
      ]

  -- What is stored in the channel first is stored still.
  stored-Managed :
      (w w₂ : World S) (i c local_shm remote_shm : ℕ) (cfg : ManagedCfg) (ch : Channel)
      → ch.type ≡ (channel w i c).type
      → Managed (put_channel w i c ch) i c local_shm remote_shm cfg w₂
      → Managed w i c local_shm remote_shm cfg w₂
  stored-Managed w w₂ i c local_shm remote_shm cfg ch type u = record {
    mng = rw (limit_put w i c ch) at u.mng;
    type = u.type ∙ ap (λ x. x.type) (channel_self w i c ch) ∙ type;
    only = λ d ne. u.only d ne ∙ channel_other w i c ch d ne;
  }

  pools_of-Managed :
      (w : World S) (i c local_shm remote_shm : ℕ) (cfg : ManagedCfg) (pools : Option (ℕ → PoolCfg))
      → cfg.pools ≡ pools
      → (pools_of P w i c local_shm remote_shm cfg pools).0 ≡ ok
      → Managed w i c local_shm remote_shm cfg (pools_of P w i c local_shm remote_shm cfg pools).1
  unfolding pools_of
  pools_of-Managed w i c local_shm remote_shm cfg none same good = absurd (cc good)
  pools_of-Managed w i c local_shm remote_shm cfg (some cfgs) same good =
      let ch : Channel = record (channel w i c) {
        mng = record (channel w i c).mng {
          rx_cb = cfg.rx_cb;
          cb_arg = cfg.cb_arg;
          num_pools = cfg.num_pools;
        };
      } in
      elim (Bool-cases (ltb max_pools cfg.num_pools)) [
        | inl e ↦ absurd (cc (rw (pools_of, e) at good))
        | inr e ↦
            rw (pools_of, e)
              (stored-Managed w _ i c local_shm remote_shm cfg ch refl (
                open_managed-Managed (put_channel w i c ch) i c local_shm remote_shm
                  (total_buf_per_chan cfg cfgs) cfg cfgs same
                  (ap (λ x. x.mng.num_pools) (channel_self w i c ch)) (rw (pools_of, e) at good)))
      ]

  pub managed_channel_init-Managed :
      (w : World S) (i c local_shm remote_shm : ℕ) (cfg : ManagedCfg)
      → (managed_channel_init P w i c local_shm remote_shm cfg).0 ≡ ok
      → Managed w i c local_shm remote_shm cfg
          (managed_channel_init P w i c local_shm remote_shm cfg).1
  unfolding managed_channel_init
  managed_channel_init-Managed w i c local_shm remote_shm cfg good =
      elim (Bool-cases (cfg.rx_cb == null)) [
        | inl e ↦ absurd (cc (rw (managed_channel_init, e) at good))
        | inr e ↦
            rw (managed_channel_init, e)
              (pools_of-Managed w i c local_shm remote_shm cfg cfg.pools refl
                (rw (managed_channel_init, e) at good))
      ]
