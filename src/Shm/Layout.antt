-- ===== src/Shm/Layout.antt =====
-- Where the initialization puts queues, pools and channels in the local shared memory.
pub mod Pools
pub mod Channels
pub mod Opened
pub mod Rows
pub mod Apart
pub mod Spans
pub mod Whole
mod Tests
use ipc_shm.Common.{ℕ, zero, suc, ◌+◌, ◌%◌, ◌^◌, ◌≤◌, ◌<◌, ◌≡◌, ◌≢◌, ◌⊎◌, Option, some, update}
use ipc_shm.Types.{
  PoolCfg, ManagedCfg, UnmanagedCfg, ChannelCfg, managed, unmanaged, max_umng_size,
  max_bufs_per_pool,
}
use ipc_shm.Queue.{mem_size}
use ipc_shm.Memory.{add_ptr, bd_size}
use ipc_shm.Shm.State.{World, Pool, ManagedChannel, UnmanagedChannel, Channel, channel}
use ipc_shm.Shm.Setup.{memmap_typed}
use ipc_shm.Shm.Setup.Populate.{pool_of}

-- A pool that ipc_buf_pool_init() has accepted: it has its place, and ends where the memory ends or
-- before, as the code compares.
pub record PoolAt (cfg : PoolCfg) (local_shm remote_shm limit : ℕ) (p : Pool) : Type 0 where
  pub before : Pool
  pub formed : p ≡ pool_of before cfg local_shm remote_shm
  pub few : cfg.num_bufs ≤ max_bufs_per_pool
  pub fits : add_ptr local_shm p.shm_size ≤ limit

-- `rounds` pools from `k` on, one behind the other
unfoldable pub PoolRow :
    (cfgs : ℕ → PoolCfg) (limit : ℕ) (pools : ℕ → Pool) (local_shm remote_shm k rounds : ℕ) → Type 0
PoolRow cfgs limit pools local_shm remote_shm k zero = Unit
PoolRow cfgs limit pools local_shm remote_shm k (suc rounds) =
    PoolAt (cfgs k) local_shm remote_shm limit (pools k)
    × PoolRow cfgs limit pools (add_ptr local_shm (pools k).shm_size)
        (add_ptr remote_shm (pools k).shm_size) (k + 1) rounds

abbrev pub set_pool : Channel → ℕ → Pool → Channel
set_pool ch k p = record ch { mng = record ch.mng { pools = update ch.mng.pools k p } }

-- The channels of the instance but `c` are as they were.
abbrev pub OnlyChannel : {S : Type 0} (i c : ℕ) → World S → World S → Type 0
OnlyChannel i c w w' = (d : ℕ) → c ≢ d → channel w' i d ≡ channel w i d

-- A managed channel: its queue, and behind it the pools.
pub record ManagedAt (cfg : ManagedCfg) (local_shm remote_shm limit : ℕ) (ch : ManagedChannel)
    : Type 0 where
  pub cfgs : ℕ → PoolCfg
  pub configured : cfg.pools ≡ some cfgs
  pub ring : ch.bd_queue.push_ring ≡ local_shm
  pub elem_size : ch.bd_queue.elem_size ≡ bd_size
  pub few : ch.bd_queue.elem_num < 2 ^ 16
  pub num_pools : ch.num_pools ≡ cfg.num_pools
  pub fits : add_ptr local_shm (mem_size ch.bd_queue) ≤ limit
  pub row :
      PoolRow cfgs limit ch.pools
        (add_ptr local_shm (mem_size ch.bd_queue))
        (add_ptr remote_shm (mem_size ch.bd_queue))
        0
        cfg.num_pools

-- An unmanaged channel.
pub record UnmanagedAt (cfg : UnmanagedCfg) (local_shm : ℕ) (ch : UnmanagedChannel) : Type 0 where
  pub place : ch.local_mem ≡ local_shm
  pub size : ch.size ≡ cfg.size
  pub few : cfg.size ≤ max_umng_size

abbrev pub ChannelAt : ChannelCfg → (local_shm remote_shm limit : ℕ) → Channel → Type 0
ChannelAt cfg local_shm remote_shm limit ch =
    ((ch.type ≡ managed) × ManagedAt cfg.managed_cfg local_shm remote_shm limit ch.mng)
    ⊎ ((ch.type ≡ unmanaged) × UnmanagedAt cfg.unmanaged_cfg local_shm ch.umng)

-- `rounds` channels from `c` on, one behind the other
unfoldable pub ChannelRow :
    (cfgs : ℕ → ChannelCfg) (limit : ℕ) (channels : ℕ → Channel) (local_shm remote_shm c rounds : ℕ)
    → Type 0
ChannelRow cfgs limit channels local_shm remote_shm c zero = Unit
ChannelRow cfgs limit channels local_shm remote_shm c (suc rounds) =
    let size = memmap_typed (channels c).type (channels c) in
    ChannelAt (cfgs c) local_shm remote_shm limit (channels c)
    × ChannelRow cfgs limit channels (add_ptr local_shm size) (add_ptr remote_shm size) (c + 1)
        rounds
