-- ===== src/Shm/Teardown.antt =====
-- Release of channels: ipc_shm_free_managed_channel() and ipc_shm_free_channel().
use ipc_shm.Common.{ℕ, zero, suc, ◌+◌, Bool, ◌||◌, if◌then◌else◌, ◌==◌, update}
use ipc_shm.Types.{ChannelType, managed, unmanaged, other, queue_init_done, queue_init_in_progress}
use ipc_shm.Memory.{Mem, null, put_umem}
use ipc_shm.Queue
use ipc_shm.Queue.{IpcQueue}
use ipc_shm.Shm.State.{World, ManagedChannel, UnmanagedChannel, channel, put_mem, put_mng, put_umng}

-- the local ring carries one of the marks of an initialization
abbrev pub is_marked : Mem → IpcQueue → Bool
is_marked m q =
    ((m.rings q.push_ring).sentinel == queue_init_done)
    || ((m.rings q.push_ring).sentinel == queue_init_in_progress)

-- the queues of `rounds` pools from `k` on
unfoldable pub free_pools : Mem → ManagedChannel → ℕ → ℕ → ManagedChannel × Mem
free_pools m ch k zero = (ch, m)
free_pools m ch k (suc rounds) =
    let pool = ch.pools k in
    let skipped = free_pools m ch (k + 1) rounds in
    let (q, m') = Queue.free m pool.bd_queue in
    let freed =
      free_pools m' (record ch { pools = update ch.pools k (record pool { bd_queue = q }) }) (k + 1)
        rounds in
    if pool.bd_queue.push_ring == null
    then skipped
    else if is_marked m pool.bd_queue
    then freed
    else skipped

unfoldable pub free_managed_channel : Mem → ManagedChannel → ManagedChannel × Mem
unfolding free_pools
free_managed_channel m ch =
    let (q, m') = Queue.free m ch.bd_queue in
    if is_marked m ch.bd_queue
    then free_pools m' (record ch { bd_queue = q }) 0 ch.num_pools
    else (ch, m)

unfoldable pub free_unmanaged_channel : Mem → UnmanagedChannel → UnmanagedChannel × Mem
free_unmanaged_channel m u = if u.local_mem == null then (u, m) else (
  record u { local_mem = null },
  put_umem m u.local_mem (record { sentinel = 0; tx_count = 0; remote_tx_count = 0 }),
)

module _ {S : Type 0} where
  unfoldable pub free_channel : World S → ℕ → ℕ → ChannelType → World S
  unfolding free_managed_channel free_unmanaged_channel
  free_channel w i c managed =
      let ch = (channel w i c).mng in
      let (ch', m) = free_managed_channel w.mem ch in
      if ch.bd_queue.push_ring == null then w else put_mem (put_mng w i c ch') m
  free_channel w i c unmanaged =
      let (u, m) = free_unmanaged_channel w.mem (channel w i c).umng in put_mem (put_umng w i c u) m
  free_channel w i c (other _) = w
