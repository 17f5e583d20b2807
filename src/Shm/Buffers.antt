-- ===== src/Shm/Buffers.antt =====
-- Buffers of managed channels: finding the pool of an address, ipc_shm_acquire_buf(),
-- ipc_shm_release_buf() and ipc_shm_tx().
pub mod Pools
pub mod Transfer
pub mod Acquire
use ipc_shm.Common.{
  ℕ, zero, suc, ◌+◌, ◌-◌, ◌*◌, ◌/◌, ◌%◌, ◌^◌, Bool, true, false, ◌&&◌, ◌||◌, not, Option, none,
  some, leb, ltb, ◌==◌, if◌then◌else◌,
}
use ipc_shm.Types.{Status, ok, einval}
use ipc_shm.Memory.{Bd, Mem, null, add_ptr}
use ipc_shm.Queue
use ipc_shm.Queue.{is_ok}
use ipc_shm.Shm.State.{World, Platform, Pool, ManagedChannel, put_mem, put_plat}
use ipc_shm.Shm.Lookup.{
  check_mchan_integrity, get_managed_chan, instance_is_free, is_used, is_remote_ready,
}

-- IPC_BUFFER_FROM_LOCAL, IPC_BUFFER_FROM_REMOTE
pub data Side : Type 0 where
  from_local from_remote : Side

abbrev pub pool_addr : Side → Pool → ℕ
pool_addr from_local p = p.local_pool_addr
pool_addr from_remote p = p.remote_pool_addr

-- uint32_t
abbrev pub pool_bytes : Pool → ℕ
pool_bytes p = p.num_bufs * p.buf_size % 2 ^ 32

abbrev pub owns : Side → Pool → ℕ → Bool
owns side p buf = leb (pool_addr side p) buf && ltb buf (add_ptr (pool_addr side p) (pool_bytes p))

unfoldable pub find_from : ManagedChannel → ℕ → Side → ℕ → ℕ → Option ℕ
find_from ch buf side k zero = none
find_from ch buf side k (suc rounds) =
    let rest = find_from ch buf side (k + 1) rounds in
    if owns side (ch.pools k) buf then some k else rest

-- `none` is -EINVAL.
unfoldable pub find_pool_for_buf : ManagedChannel → ℕ → Side → Option ℕ
unfolding find_from
find_pool_for_buf ch buf side = find_from ch buf side 0 ch.num_pools

-- the index of a buffer in its pool, as a uint16_t
abbrev pub buf_index : Side → Pool → ℕ → ℕ
buf_index side p buf = (buf - pool_addr side p) / p.buf_size % 2 ^ 16

abbrev pub empty_bd : Bd
empty_bd = record { pool_id = 0; buf_id = 0; data_size = 0 }

abbrev pub popped_bd : Option Bd → Bd
popped_bd none = empty_bd
popped_bd (some b) = b

-- the first pool from `k` on whose buffers are large enough and that has a free one
unfoldable pub acquire_from : Mem → ManagedChannel → ℕ → ℕ → ℕ → Option (ℕ × Bd) × Mem
acquire_from m ch size k zero = (none, m)
acquire_from m ch size k (suc rounds) =
    let (s, out, m') = Queue.pop m (ch.pools k).bd_queue in
    let next_pool = acquire_from m ch size (k + 1) rounds in
    let after_pop = acquire_from m' ch size (k + 1) rounds in
    if ltb (ch.pools k).buf_size size
    then next_pool
    else if is_ok s
    then (some (k, popped_bd out), m')
    else after_pop

-- the bounds check of a buffer address that a descriptor gave
abbrev pub lies_in : ℕ → ℕ → ℕ → ℕ → Bool
lies_in base shm_size addr buf_size =
    leb base addr && leb (add_ptr addr buf_size) (add_ptr base shm_size)

module _ {S : Type 0} where
  unfoldable pub release_to : World S → ManagedChannel → ℕ → Option ℕ → Status × World S
  release_to w ch buf none = (einval, w)
  release_to w ch buf (some k) =
      let pool = ch.pools k in
      let bd : Bd = record {
        pool_id = k;
        buf_id = buf_index from_remote pool buf;
        data_size = 0;
      } in
      let (s, m) = Queue.push w.mem pool.bd_queue bd in (s, put_mem w m)

  unfoldable pub release_in : World S → ManagedChannel → ℕ → Status × World S
  unfolding release_to
  release_in w ch buf =
      if (buf == null) || not (is_ok (check_mchan_integrity w.mem ch))
      then (einval, w)
      else release_to w ch buf (find_pool_for_buf ch buf from_remote)

  unfoldable pub release_buf : World S → ℕ → ℕ → ℕ → Status × World S
  unfolding release_in
  release_buf w i c buf =
      if not (is_used (instance_is_free w i))
      then (einval, w)
      else elim (get_managed_chan w i c) [ none ↦ (einval, w) | some ch ↦ release_in w ch buf ]

module _ {S : Type 0} (P : Platform S) where
  -- the address of the buffer that was taken, or null
  unfoldable pub acquired : World S → ℕ → ManagedChannel → Option (ℕ × Bd) → ℕ
  acquired w i ch none = null
  acquired w i ch (some (k, bd)) =
      let pool = ch.pools k in
      let addr = add_ptr pool.local_pool_addr (bd.buf_id * pool.buf_size % 2 ^ 32) in
      if lies_in (P.os_get_local_shm w.plat i) (w.priv i).shm_size addr pool.buf_size
      then addr
      else null

  unfoldable pub acquire_in : World S → ℕ → ManagedChannel → ℕ → ℕ × World S
  unfolding acquired acquire_from
  acquire_in w i ch size =
      if (size == 0) || not (is_ok (check_mchan_integrity w.mem ch))
      then (null, w)
      else (let (found, m) = acquire_from w.mem ch size 0 ch.num_pools in
          (acquired w i ch found, put_mem w m))

  unfoldable pub acquire_buf : World S → ℕ → ℕ → ℕ → ℕ × World S
  unfolding acquire_in
  acquire_buf w i c size =
      if not (is_ok (is_remote_ready P w i))
      then (null, w)
      else elim (get_managed_chan w i c) [ none ↦ (null, w) | some ch ↦ acquire_in w i ch size ]

  -- The descriptor is pushed, and the remote core is notified if that succeeds.
  unfoldable pub send_bd : World S → ℕ → ManagedChannel → Bd → Status × World S
  send_bd w i ch bd =
      let (s, m) = Queue.push w.mem ch.bd_queue bd in
      if is_ok s then (ok, put_plat (put_mem w m) (P.hw_irq_notify w.plat i)) else (s, put_mem w m)

  unfoldable pub tx_to : World S → ℕ → ManagedChannel → ℕ → ℕ → Option ℕ → Status × World S
  unfolding send_bd
  tx_to w i ch buf size none = (einval, w)
  tx_to w i ch buf size (some k) =
      send_bd w i ch
        (record { pool_id = k; buf_id = buf_index from_local (ch.pools k) buf; data_size = size })

  unfoldable pub tx_in : World S → ℕ → ManagedChannel → ℕ → ℕ → Status × World S
  unfolding tx_to
  tx_in w i ch buf size =
      if (buf == null) || (size == 0) || not (is_ok (check_mchan_integrity w.mem ch))
      then (einval, w)
      else tx_to w i ch buf size (find_pool_for_buf ch buf from_local)

  -- `chan_id` is an int here, and loses its high bits on the way to get_managed_chan().
  unfoldable pub tx : World S → ℕ → ℕ → ℕ → ℕ → Status × World S
  unfolding tx_in
  tx w i c buf size =
      if not (is_ok (is_remote_ready P w i))
      then (einval, w)
      else elim (get_managed_chan w i (c % 2 ^ 8)) [
        | none ↦ (einval, w)
        | some ch ↦ tx_in w i ch buf size
      ]
