-- ===== src/Shm/Frame/Opening.antt =====
-- What the initialization of pools and channels leaves alone.
use ipc_shm.Common.{ℕ, zero, suc, ◌+◌, ◌≡◌, refl, ◌||◌, arith, Option, none, some, ◌==◌, ltb}
use ipc_shm.Types.{
  max_umng_size, max_bufs_per_pool, max_pools, ChannelType, managed, unmanaged, other, PoolCfg,
  ManagedCfg, UnmanagedCfg, ChannelCfg,
}
use ipc_shm.Memory.{Bd, Mem, null, add_ptr}
use ipc_shm.Queue
use ipc_shm.Queue.{IpcQueue, QueueData, is_ok, mem_size}
use ipc_shm.Queue.Frame.{push-WritesOnly, init-WritesOnly}
use ipc_shm.Shm.State
use ipc_shm.Shm.State.{World, Platform, Pool, ManagedChannel, channel, put_mem, put_mng, put_pool}
use ipc_shm.Shm.Setup.{
  populate, placed, queue_data, channel_data, fill_pool, buf_pool_init, init_pools, map_pools,
  open_managed, pools_of, managed_channel_init, unmanaged_channel_init, init_typed, init_channel,
  total_buf_per_chan,
}
use ipc_shm.Shm.Frame.{Keeps, keep, and_then, Keeps-mem, Keeps-if, Keeps-channels}

populate-globals : (m : Mem) (q : IpcQueue) (k b n : ℕ) → (populate m q k b n).1.globals ≡ m.globals
unfolding populate
populate-globals m q k b zero = refl
populate-globals m q k b (suc n) =
    let free_bd : Bd = record { pool_id = k; buf_id = b; data_size = 0 } in
    let m' = (Queue.push m q free_bd).1 in
    ground (arith, (push-WritesOnly m q free_bd).globals, populate-globals m' q k (b + 1) n)

module _ {S : Type 0} where
  unmanaged_channel_init-Keeps :
      (w : World S) (i c local_shm remote_shm : ℕ) (cfg : UnmanagedCfg)
      → Keeps i w (unmanaged_channel_init w i c local_shm remote_shm cfg).1
  unfolding unmanaged_channel_init
  unmanaged_channel_init-Keeps w i c local_shm remote_shm cfg =
      Keeps-if i ((cfg.rx_cb == null) || ltb max_umng_size cfg.size) _ _ (keep i w) (
        Keeps-if i ((w.mem.umems remote_shm).sentinel == State.uchan_init_in_progress) _ _
          (Keeps-channels i w c _ _ refl) (Keeps-channels i w c _ _ refl))

module _ {S : Type 0} (P : Platform S) where
  fill_pool-Keeps :
      (w : World S) (i c k : ℕ) (p : Pool) (local_shm remote_shm : ℕ)
      → Keeps i w (fill_pool P w i c k p local_shm remote_shm).1
  unfolding fill_pool
  fill_pool-Keeps w i c k p local_shm remote_shm =
      let same = populate-globals w.mem p.bd_queue k 0 p.num_bufs in
      Keeps-if i
        (ltb (add_ptr (P.os_get_local_shm w.plat i) (w.priv i).shm_size)
          (add_ptr local_shm p.shm_size))
        _ _ (Keeps-channels i w c _ _ refl)
        (Keeps-if i (is_ok (populate w.mem p.bd_queue k 0 p.num_bufs).0) _ _
          (Keeps-channels i w c _ _ same) (Keeps-channels i w c _ _ same))

  pub buf_pool_init-Keeps :
      (w : World S) (i c k local_shm remote_shm : ℕ) (cfg : PoolCfg)
      → Keeps i w (buf_pool_init P w i c k local_shm remote_shm cfg).1
  unfolding buf_pool_init
  buf_pool_init-Keeps w i c k local_shm remote_shm cfg =
      let p : Pool = record ((channel w i c).mng.pools k) {
        num_bufs = cfg.num_bufs;
        buf_size = cfg.buf_size;
      } in
      let d = queue_data p local_shm remote_shm in
      let r = Queue.init w.mem p.bd_queue d in
      let same = (init-WritesOnly w.mem p.bd_queue d).globals in
      Keeps-if i (ltb max_bufs_per_pool cfg.num_bufs) _ _ (keep i w) (
        Keeps-if i (is_ok r.0) _ _
          (and_then i (Keeps-mem i w r.2 same) (
            fill_pool-Keeps (put_mem w r.2) i c k (placed p r.1 local_shm remote_shm) local_shm
              remote_shm))
          (Keeps-channels i w c _ _ same))

  pub init_pools-Keeps :
      (w : World S) (i c : ℕ) (pools : ℕ → PoolCfg) (local_shm remote_shm k n : ℕ)
      → Keeps i w (init_pools P w i c pools local_shm remote_shm k n).1
  unfolding init_pools
  init_pools-Keeps w i c pools local_shm remote_shm k zero = keep i w
  init_pools-Keeps w i c pools local_shm remote_shm k (suc n) =
      let r = buf_pool_init P w i c k local_shm remote_shm (pools k) in
      let size = ((channel r.1 i c).mng.pools k).shm_size in
      let first = buf_pool_init-Keeps w i c k local_shm remote_shm (pools k) in
      Keeps-if i (is_ok r.0) _ _
        (and_then i first (
          init_pools-Keeps r.1 i c pools (add_ptr local_shm size) (add_ptr remote_shm size) (k + 1)
            n))
        first

  map_pools-Keeps :
      (w : World S) (i c local_shm remote_shm : ℕ) (pools : ℕ → PoolCfg)
      → Keeps i w (map_pools P w i c local_shm remote_shm pools).1
  unfolding map_pools
  map_pools-Keeps w i c local_shm remote_shm pools =
      Keeps-if i
        (ltb (add_ptr (P.os_get_local_shm w.plat i) (w.priv i).shm_size)
          (add_ptr local_shm (mem_size (channel w i c).mng.bd_queue)))
        _ _ (keep i w) (init_pools-Keeps w i c pools _ _ 0 _)

  open_managed-Keeps :
      (w : World S) (i c local_shm remote_shm total : ℕ) (pools : ℕ → PoolCfg)
      → Keeps i w (open_managed P w i c local_shm remote_shm total pools).1
  unfolding open_managed
  open_managed-Keeps w i c local_shm remote_shm total pools =
      let q = (channel w i c).mng.bd_queue in
      let d = channel_data total local_shm remote_shm in
      let same = (init-WritesOnly w.mem q d).globals in
      Keeps-if i (total == 0) _ _ (keep i w) (
        Keeps-if i (is_ok (Queue.init w.mem q d).0) _ _
          (and_then i (Keeps-channels i w c _ _ same)
            (map_pools-Keeps _ i c local_shm remote_shm pools))
          (Keeps-channels i w c _ _ same))

  pools_of-Keeps :
      (w : World S) (i c local_shm remote_shm : ℕ) (cfg : ManagedCfg) (pools : Option (ℕ → PoolCfg))
      → Keeps i w (pools_of P w i c local_shm remote_shm cfg pools).1
  unfolding pools_of
  pools_of-Keeps w i c local_shm remote_shm cfg none = keep i w
  pools_of-Keeps w i c local_shm remote_shm cfg (some pools) =
      let stored : ManagedChannel = record (channel w i c).mng {
        rx_cb = cfg.rx_cb;
        cb_arg = cfg.cb_arg;
        num_pools = cfg.num_pools;
      } in
      Keeps-if i (ltb max_pools cfg.num_pools) _ _ (keep i w) (
        and_then i (Keeps-channels i w c (record (channel w i c) { mng = stored }) w.mem refl) (
          open_managed-Keeps (put_mng w i c stored) i c local_shm remote_shm
            (total_buf_per_chan cfg pools) pools))

  init_typed-Keeps :
      (t : ChannelType) (w : World S) (i c local_shm remote_shm : ℕ) (cfg : ChannelCfg)
      → Keeps i w (init_typed P t w i c local_shm remote_shm cfg).1
  unfolding init_typed managed_channel_init
  init_typed-Keeps managed w i c local_shm remote_shm cfg =
      Keeps-if i (cfg.managed_cfg.rx_cb == null) _ _ (keep i w)
        (pools_of-Keeps w i c local_shm remote_shm cfg.managed_cfg _)
  init_typed-Keeps unmanaged w i c local_shm remote_shm cfg =
      unmanaged_channel_init-Keeps w i c local_shm remote_shm cfg.unmanaged_cfg
  init_typed-Keeps (other _) w i c local_shm remote_shm cfg = keep i w

  pub init_channel-Keeps :
      (w : World S) (i c local_shm remote_shm : ℕ) (cfg : Option ChannelCfg)
      → Keeps i w (init_channel P w i c local_shm remote_shm cfg).1
  unfolding init_channel
  init_channel-Keeps w i c local_shm remote_shm none = keep i w
  init_channel-Keeps w i c local_shm remote_shm (some cfg) =
      let named : State.Channel = record (channel w i c) { id = c; type = cfg.type } in
      and_then i (Keeps-channels i w c named w.mem refl)
        (init_typed-Keeps cfg.type (State.put_channel w i c named) i c local_shm remote_shm cfg)
