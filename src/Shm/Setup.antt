-- ===== src/Shm/Setup.antt =====
-- Initialization of pools and channels. The callers have stored the type of the channel and checked
-- its id, so the lookups by get_managed_chan() and get_unmanaged_chan() give the channel itself.
pub mod Populate
pub mod Total
use ipc_shm.Common.{
  ℕ, zero, suc, ◌+◌, ◌*◌, ◌%◌, ◌^◌, Bool, true, false, ◌||◌, not, Option, none, some, leb, ltb,
  ◌==◌, if◌then◌else◌,
}
use ipc_shm.Types.{
  Status, ok, einval, eagain, enomem, ChannelType, managed, unmanaged, other, channel_queue,
  pool_queue, PoolCfg, ManagedCfg, UnmanagedCfg, ChannelCfg, max_bufs_per_pool,
  max_bufs_per_channel, max_pools, max_umng_size, queue_init_done,
}
use ipc_shm.Memory.{Bd, bd_size, Mem, null, add_ptr, add_u32, umem_size, put_umem, put_sentinel}
use ipc_shm.Queue
use ipc_shm.Queue.{IpcQueue, QueueData, is_ok, mem_size}
use ipc_shm.Shm.State.{
  World, Platform, Pool, ManagedChannel, UnmanagedChannel, Channel, channel, put_mem, put_channel,
  put_mng, put_umng, put_pool, uchan_init_in_progress, uchan_init_done,
}

-- the free descriptors `buf_id`, `buf_id + 1`, ... of a pool, `rounds` of them
unfoldable pub populate : Mem → IpcQueue → ℕ → ℕ → ℕ → Status × Mem
populate m q pool_id buf_id zero = (ok, m)
populate m q pool_id buf_id (suc rounds) =
    let (s, m') = Queue.push m q (record { pool_id = pool_id; buf_id = buf_id; data_size = 0 }) in
    let rest = populate m' q pool_id (buf_id + 1) rounds in if is_ok s then rest else (s, m')

-- what a pool, and a channel, ask of ipc_queue_init()
abbrev pub queue_data : Pool → ℕ → ℕ → QueueData
queue_data p local_shm remote_shm = record {
  elem_size = bd_size;
  elem_num = p.num_bufs;
  queue_type = pool_queue;
  push_addr = local_shm;
  pop_addr = remote_shm;
}

abbrev pub channel_data : ℕ → ℕ → ℕ → QueueData
channel_data total local_shm remote_shm = record {
  elem_size = bd_size;
  elem_num = total % 2 ^ 16;
  queue_type = channel_queue;
  push_addr = local_shm;
  pop_addr = remote_shm;
}

-- the pool behind its queue
abbrev pub placed : Pool → IpcQueue → ℕ → ℕ → Pool
placed p q local_shm remote_shm = record p {
  bd_queue = q;
  local_pool_addr = add_ptr local_shm (mem_size q);
  remote_pool_addr = add_ptr remote_shm (mem_size q);
  shm_size = add_u32 (mem_size q) (p.buf_size * p.num_bufs % 2 ^ 32);
}

-- the loop of ipc_get_total_buf_per_chan(); 0 if the pools are not sorted or too many
unfoldable pub total_from : (ℕ → PoolCfg) → ℕ → ℕ → ℕ → ℕ → ℕ
total_from pools prev total k zero = total
total_from pools prev total k (suc rounds) =
    let cfg = pools k in
    let sum = add_u32 total cfg.num_bufs in
    let rest = total_from pools cfg.buf_size sum (k + 1) rounds in
    if ltb cfg.buf_size prev then 0 else if ltb max_bufs_per_channel sum then 0 else rest

unfoldable pub total_buf_per_chan : ManagedCfg → (ℕ → PoolCfg) → ℕ
unfolding total_from
total_buf_per_chan cfg pools = total_from pools 0 0 0 cfg.num_pools

-- the size of a managed channel: its queue, and `rounds` pools from `k` on
unfoldable pub pools_size : ManagedChannel → ℕ → ℕ → ℕ → ℕ
pools_size ch size k zero = size
pools_size ch size k (suc rounds) =
    pools_size ch (add_u32 size (ch.pools k).shm_size) (k + 1) rounds

unfoldable pub memmap_typed : ChannelType → Channel → ℕ
memmap_typed unmanaged ch = (umem_size + ch.umng.size) % 2 ^ 32
memmap_typed _ ch = pools_size ch.mng (mem_size ch.mng.bd_queue) 0 ch.mng.num_pools

module _ {S : Type 0} where
  unfoldable pub get_chan_memmap_size : World S → ℕ → ℕ → ℕ
  unfolding memmap_typed pools_size
  get_chan_memmap_size w i c = memmap_typed (channel w i c).type (channel w i c)

  unfoldable pub unmanaged_channel_init : World S → ℕ → ℕ → ℕ → ℕ → UnmanagedCfg → Status × World S
  unmanaged_channel_init w i c local_shm remote_shm cfg =
      let u : UnmanagedChannel = record {
        size = cfg.size;
        local_mem = local_shm;
        remote_mem = remote_shm;
        rx_cb = cfg.rx_cb;
        cb_arg = cfg.cb_arg;
      } in
      let w₁ = put_umng w i c u in
      let mark =
        λ (m : Mem) (s : ℕ). put_umem m local_shm (record (m.umems local_shm) { sentinel = s }) in
      let m₂ = mark w₁.mem uchan_init_in_progress in
      let theirs = m₂.umems remote_shm in
      let resumed = record (m₂.umems local_shm) {
        tx_count = theirs.remote_tx_count;
        remote_tx_count = theirs.tx_count;
      } in
      let reset = record (m₂.umems local_shm) { tx_count = 0; remote_tx_count = 0 } in
      let m₃ =
        put_umem m₂ local_shm (if theirs.sentinel == uchan_init_done then resumed else reset) in
      if (cfg.rx_cb == null) || ltb max_umng_size cfg.size
      then (einval, w)
      else if (w.mem.umems remote_shm).sentinel == uchan_init_in_progress
      then (eagain, w₁)
      else (ok, put_mem w₁ (mark m₃ uchan_init_done))

module _ {S : Type 0} (P : Platform S) where
  -- a pool whose queue is initialized: its place, and its free descriptors
  unfoldable pub fill_pool : World S → ℕ → ℕ → ℕ → Pool → ℕ → ℕ → Status × World S
  unfolding populate
  fill_pool w i c k p local_shm remote_shm =
      let w₁ = put_pool w i c k p in
      let (s, m) = populate w₁.mem p.bd_queue k 0 p.num_bufs in
      if ltb (add_ptr (P.os_get_local_shm w.plat i) (w.priv i).shm_size)
        (add_ptr local_shm p.shm_size)
      then (enomem, w₁)
      else if is_ok s
      then (ok, put_mem w₁ (put_sentinel m p.bd_queue.push_ring queue_init_done))
      else (s, put_mem w₁ m)

  unfoldable pub buf_pool_init : World S → ℕ → ℕ → ℕ → ℕ → ℕ → PoolCfg → Status × World S
  unfolding fill_pool
  buf_pool_init w i c k local_shm remote_shm cfg =
      let p = record ((channel w i c).mng.pools k) {
        num_bufs = cfg.num_bufs;
        buf_size = cfg.buf_size;
      } in
      let (s, q, m) = Queue.init w.mem p.bd_queue (queue_data p local_shm remote_shm) in
      if ltb max_bufs_per_pool cfg.num_bufs
      then (einval, w)
      else if is_ok s
      then fill_pool (put_mem w m) i c k (placed p q local_shm remote_shm) local_shm remote_shm
      else (s, put_mem (put_pool w i c k (record p { bd_queue = q })) m)

  -- the pools of a channel one behind the other, `rounds` of them from `k` on
  unfoldable pub init_pools : World S → ℕ → ℕ → (ℕ → PoolCfg) → ℕ → ℕ → ℕ → ℕ → Status × World S
  init_pools w i c pools local_shm remote_shm k zero = (ok, w)
  init_pools w i c pools local_shm remote_shm k (suc rounds) =
      let (s, w') = buf_pool_init w i c k local_shm remote_shm (pools k) in
      let size = ((channel w' i c).mng.pools k).shm_size in
      let rest =
        init_pools w' i c pools (add_ptr local_shm size) (add_ptr remote_shm size) (k + 1) rounds in
      if is_ok s then rest else (s, w')

  -- with the queue of the channel initialized
  unfoldable pub map_pools : World S → ℕ → ℕ → ℕ → ℕ → (ℕ → PoolCfg) → Status × World S
  unfolding init_pools
  map_pools w i c local_shm remote_shm pools =
      let ch = (channel w i c).mng in
      let local_pools = add_ptr local_shm (mem_size ch.bd_queue) in
      let remote_pools = add_ptr remote_shm (mem_size ch.bd_queue) in
      if ltb (add_ptr (P.os_get_local_shm w.plat i) (w.priv i).shm_size) local_pools
      then (enomem, w)
      else init_pools w i c pools local_pools remote_pools 0 ch.num_pools

  -- with the configuration stored in the channel
  unfoldable pub open_managed : World S → ℕ → ℕ → ℕ → ℕ → ℕ → (ℕ → PoolCfg) → Status × World S
  unfolding map_pools
  open_managed w i c local_shm remote_shm total pools =
      let ch = (channel w i c).mng in
      let (s, q, m) = Queue.init w.mem ch.bd_queue (channel_data total local_shm remote_shm) in
      let w₁ = put_mng w i c (record ch { bd_queue = q }) in
      if total == 0
      then (einval, w)
      else if is_ok s
      then map_pools (put_mem w₁ (put_sentinel m q.push_ring queue_init_done)) i c local_shm
          remote_shm pools
      else (s, put_mem w₁ m)

  unfoldable pub pools_of :
      World S → ℕ → ℕ → ℕ → ℕ → ManagedCfg → Option (ℕ → PoolCfg) → Status × World S
  unfolding open_managed
  pools_of w i c local_shm remote_shm cfg none = (einval, w)
  pools_of w i c local_shm remote_shm cfg (some pools) =
      let stored = record (channel w i c).mng {
        rx_cb = cfg.rx_cb;
        cb_arg = cfg.cb_arg;
        num_pools = cfg.num_pools;
      } in
      if ltb max_pools cfg.num_pools
      then (einval, w)
      else open_managed (put_mng w i c stored) i c local_shm remote_shm
          (total_buf_per_chan cfg pools) pools

  unfoldable pub managed_channel_init : World S → ℕ → ℕ → ℕ → ℕ → ManagedCfg → Status × World S
  unfolding pools_of
  managed_channel_init w i c local_shm remote_shm cfg =
      if cfg.rx_cb == null then (einval, w) else pools_of w i c local_shm remote_shm cfg cfg.pools

  unfoldable pub init_typed : ChannelType → World S → ℕ → ℕ → ℕ → ℕ → ChannelCfg → Status × World S
  init_typed managed w i c local_shm remote_shm cfg =
      managed_channel_init w i c local_shm remote_shm cfg.managed_cfg
  init_typed unmanaged w i c local_shm remote_shm cfg =
      unmanaged_channel_init w i c local_shm remote_shm cfg.unmanaged_cfg
  init_typed (other _) w i c local_shm remote_shm cfg = (einval, w)

  -- `cfg` is null if the array of channels is.
  unfoldable pub init_channel : World S → ℕ → ℕ → ℕ → ℕ → Option ChannelCfg → Status × World S
  unfolding init_typed
  init_channel w i c local_shm remote_shm none = (einval, w)
  init_channel w i c local_shm remote_shm (some cfg) =
      let w₁ = put_channel w i c (record (channel w i c) { id = c; type = cfg.type }) in
      init_typed cfg.type w₁ i c local_shm remote_shm cfg
