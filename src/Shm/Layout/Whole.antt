-- ===== src/Shm/Layout/Whole.antt =====
-- The whole layout of an instance: no two of its structures in shared memory overlap.
use ipc_shm.Common.{ℕ, ◌+◌, ◌*◌, ◌^◌, ◌≤◌, ◌<◌, ◌≡◌, arith, some, ap}
use ipc_shm.Types.{ok, ChannelCfg, ShmCfg, managed, unmanaged}
use ipc_shm.Memory.{add_ptr, ring_size, bd_size, umem_size, global_size}
use ipc_shm.Shm.State.{World, Platform, Channel, channel}
use ipc_shm.Shm.Setup.{memmap_typed}
use ipc_shm.Shm.Instance.{init_instance}
use ipc_shm.Shm.Layout.Rows.{MapsLow, init_instance-LowRow}
use ipc_shm.Shm.Layout.Spans.{
  channel_start, channel_size, ManagedLaid, SmallPools, ChannelsLaid, ChannelRow-ChannelsLaid,
}

-- The `n` bytes at `a` of the local memory are a structure of the channel: of a managed one its ring,
-- with the descriptors in it, the ring of a pool, or the buffers of a pool; and an unmanaged one has
-- its control structure and the memory of the application behind it.
pub data Occupies (ch : Channel) : ℕ → ℕ → Type 0 where
  channel_ring :
      (a n : ℕ)
      → ch.type ≡ managed
      → a ≡ ch.mng.bd_queue.push_ring
      → n ≡ ring_size + ch.mng.bd_queue.elem_num * bd_size
      → Occupies ch a n
  pool_ring :
      (a n k : ℕ)
      → ch.type ≡ managed
      → k < ch.mng.num_pools
      → a ≡ (ch.mng.pools k).bd_queue.push_ring
      → n ≡ ring_size + (ch.mng.pools k).bd_queue.elem_num * bd_size
      → Occupies ch a n
  pool_bufs :
      (a n k : ℕ)
      → ch.type ≡ managed
      → k < ch.mng.num_pools
      → a ≡ (ch.mng.pools k).local_pool_addr
      → n ≡ (ch.mng.pools k).buf_size * (ch.mng.pools k).num_bufs
      → Occupies ch a n
  umem :
      (a n : ℕ)
      → ch.type ≡ unmanaged
      → a ≡ ch.umng.local_mem
      → n ≡ umem_size + ch.umng.size
      → Occupies ch a n

-- The `n` bytes at `a` stand in the stretch of the channel.
abbrev Within : Channel → (a n : ℕ) → Type 0
Within ch a n = (channel_start ch ≤ a) × (a + n ≤ channel_start ch + channel_size ch)

-- Every structure of a channel stands in the stretch that the channel has.
occupied-Within :
    (cfgs : ℕ → ChannelCfg) (limit : ℕ) (channels : ℕ → Channel) (lo c n d a m : ℕ)
    → ChannelsLaid cfgs limit channels lo c n
    → c ≤ d
    → d < c + n
    → Occupies (channels d) a m
    → Within (channels d) a m
unfolding memmap_typed
occupied-Within cfgs limit channels lo c n d a m laid from to (channel_ring _ _ type at len) =
    let v = (laid.managed_laid d from to type).0 in
    let few = v.few in
    let q = (channels d).mng.bd_queue in
    let bytes = ap (λ (x : ℕ). q.elem_num * x) v.elem_size in
    rw type (omega arith, omega (arith, v.pools.grows, bytes))
occupied-Within cfgs limit channels lo c n d a m laid from to (pool_ring _ _ k type lt at len) =
    let v = (laid.managed_laid d from to type).0 in
    let span = v.pools.spans k (omega arith) (omega (arith, lt)) in
    let above = v.pools.in_order.above k (omega arith) (omega (arith, lt)) in
    let below = v.pools.in_order.below k (omega arith) (omega (arith, lt)) in
    rw type (omega (arith, above), omega (arith, span.slots, span.bufs, span.end, below))
occupied-Within cfgs limit channels lo c n d a m laid from to (pool_bufs _ _ k type lt at len) =
    let v = (laid.managed_laid d from to type).0 in
    let span = v.pools.spans k (omega arith) (omega (arith, lt)) in
    let above = v.pools.in_order.above k (omega arith) (omega (arith, lt)) in
    let below = v.pools.in_order.below k (omega arith) (omega (arith, lt)) in
    let size : m ≡ (v.cfgs k).buf_size * (v.cfgs k).num_bufs =
      rw (span.buf_size, span.num_bufs) at len in
    rw type (omega (arith, above, span.bufs), omega (arith, below, span.end, size))
occupied-Within cfgs limit channels lo c n d a m laid from to (umem _ _ type at len) =
    let size = rw type at (laid.umem_laid d from to type) in rw type (omega arith, omega arith)

-- The layout of an instance: the structures of its channels stand behind the state word, those of
-- different channels do not overlap, and what a managed channel consists of stands in order, within
-- the memory of the instance.
pub record LaidOut {S : Type 0} (cfg : ShmCfg) (cfgs : ℕ → ChannelCfg) (i : ℕ) (w : World S)
    : Type 0 where
  pub behind_state :
      (c a n : ℕ)
      → c < cfg.num_channels
      → Occupies (channel w i c) a n
      → (w.priv i).global + global_size ≤ a
  pub apart :
      (c d a n b m : ℕ)
      → c < d
      → d < cfg.num_channels
      → Occupies (channel w i c) a n
      → Occupies (channel w i d) b m
      → a + n ≤ b
  pub managed_laid :
      (c : ℕ)
      → c < cfg.num_channels
      → (channel w i c).type ≡ managed
      → ManagedLaid (cfgs c).managed_cfg ((w.priv i).global + cfg.shm_size) (channel w i c).mng
  pub inside :
      (c a n : ℕ)
      → c < cfg.num_channels
      → (channel w i c).type ≡ managed
      → Occupies (channel w i c) a n
      → a + n ≤ (w.priv i).global + cfg.shm_size

-- When ipc_shm_init_instance() returns 0, where a successful ipc_os_init() maps the local memory
-- 2^40 bytes or more below the end of the address space, the size of the memory is a 32-bit number,
-- and no pool is configured with 2 GB of buffers or more: all structures of the channels, which are
-- the rings with their descriptors, the buffers of the pools, and the control structure of an
-- unmanaged channel with the memory behind it, stand behind the state word; those of a channel end
-- before those of the next one begin; those of managed channels end within the local memory; and in
-- a managed channel its ring, and for each pool a ring for one descriptor more than it has buffers
-- and then the buffers, follow each other without overlap.
pub init_instance-LaidOut :
    {S : Type 0} (P : Platform S) (w : World S) (i : ℕ) (cfg : ShmCfg) (cfgs : ℕ → ChannelCfg)
    → MapsLow P
    → cfg.shm_size < 2 ^ 32
    → cfg.channels ≡ some cfgs
    → SmallPools cfgs
    → (init_instance P w i (some cfg)).0 ≡ ok
    → LaidOut cfg cfgs i (init_instance P w i (some cfg)).1
init_instance-LaidOut P w i cfg cfgs maps narrow some_channels small good =
    let (u, few) = init_instance-LowRow P maps w i cfg cfgs some_channels good in
    let r = u.in_row in
    let low = u.low in
    let start : add_ptr u.base global_size ≡ u.base + global_size = omega arith in
    let end : add_ptr u.base cfg.shm_size ≡ u.base + cfg.shm_size = omega arith in
    let laid =
      ChannelRow-ChannelsLaid cfgs (u.base + cfg.shm_size)
        ((init_instance P w i (some cfg)).1.priv i).channels u.base (u.base + global_size)
        r.remote_shm 0 cfg.num_channels small low (omega arith) (omega arith) (omega arith)
        (omega arith) (rw (start, end) at r.row) in
    let within =
      λ (c a n : ℕ) (lt : c < cfg.num_channels)
          (o : Occupies (channel (init_instance P w i (some cfg)).1 i c) a n).
        occupied-Within cfgs (u.base + cfg.shm_size)
          ((init_instance P w i (some cfg)).1.priv i).channels (u.base + global_size) 0
          cfg.num_channels c a n laid (omega arith) (omega (arith, lt)) o in
    record {
      behind_state = λ c a n lt o. rw r.global (
          omega (
            arith,
            laid.in_order.above c (omega arith) (omega (arith, lt)),
            (within c a n lt o).0,
          ));
      apart = λ c d a n b m lt to o p. omega (
        arith,
        laid.in_order.apart c d (omega arith) lt (omega (arith, to)),
        (within c a n (omega (arith, lt, to)) o).1,
        (within d b m to p).0,
      );
      managed_laid = λ c lt e. rw r.global (laid.managed_laid c (omega arith) (omega arith) e).0;
      inside = λ c a n lt e o. rw r.global (
          omega
            (arith, (laid.managed_laid c (omega arith) (omega arith) e).1, (within c a n lt o).1));
    }
