-- ===== src/Shm/Lookup.antt =====
-- Channels by their ids, the state of an instance, and the integrity checks.
use ipc_shm.Common.{
  ℕ, zero, suc, ◌+◌, Bool, true, false, ◌&&◌, not, Option, none, some, leb, ◌==◌, if◌then◌else◌,
}
use ipc_shm.Types.{Status, ok, einval, eagain, ChannelType, managed, unmanaged, max_instances}
use ipc_shm.Memory.{Mem, null}
use ipc_shm.Queue
use ipc_shm.Queue.{IpcQueue, is_ok}
use ipc_shm.Shm.State.{
  World, Platform, Channel, ManagedChannel, UnmanagedChannel, channel, InstanceState, used, free,
  error, state_ready, state_clear, uchan_init_done,
}

unfoldable pub check_uchan_integrity : Mem → UnmanagedChannel → Status
check_uchan_integrity m u =
    if ((m.umems u.local_mem).sentinel == uchan_init_done)
      && ((m.umems u.remote_mem).sentinel == uchan_init_done)
    then ok
    else einval

unfoldable pub check_uchan_local_integrity : Mem → UnmanagedChannel → Status
check_uchan_local_integrity m u =
    if (m.umems u.local_mem).sentinel == uchan_init_done then ok else einval

-- the loop over the pools: `rounds` of them, from `k` on
unfoldable pub check_pools : Mem → ManagedChannel → ℕ → ℕ → Status
check_pools m ch k zero = ok
check_pools m ch k (suc rounds) =
    let rest = check_pools m ch (k + 1) rounds in
    if is_ok (Queue.check_integrity m (ch.pools k).bd_queue) then rest else einval

unfoldable pub check_mchan_integrity : Mem → ManagedChannel → Status
unfolding check_pools
check_mchan_integrity m ch =
    if is_ok (Queue.check_integrity m ch.bd_queue) then check_pools m ch 0 ch.num_pools else einval

managed_of : Channel → ChannelType → Option ManagedChannel
managed_of ch managed = some ch.mng
managed_of ch _ = none

unmanaged_of : Channel → ChannelType → Option UnmanagedChannel
unmanaged_of ch unmanaged = some ch.umng
unmanaged_of ch _ = none

abbrev pub is_used : InstanceState → Bool
is_used used = true
is_used _ = false

module _ {S : Type 0} where
  unfoldable pub get_channel : World S → ℕ → ℕ → Option Channel
  get_channel w i c = if leb (w.priv i).num_channels c then none else some (channel w i c)

  unfoldable pub get_managed_chan : World S → ℕ → ℕ → Option ManagedChannel
  unfolding get_channel managed_of
  get_managed_chan w i c = elim (get_channel w i c) [
    | none ↦ none
    | some ch ↦ managed_of ch ch.type
  ]

  unfoldable pub get_unmanaged_chan : World S → ℕ → ℕ → Option UnmanagedChannel
  unfolding get_channel unmanaged_of
  get_unmanaged_chan w i c = elim (get_channel w i c) [
    | none ↦ none
    | some ch ↦ unmanaged_of ch ch.type
  ]

  unfoldable pub instance_is_free : World S → ℕ → InstanceState
  instance_is_free w i =
      if leb max_instances i
      then error
      else if (w.priv i).global == null
      then free
      else if w.mem.globals (w.priv i).global == state_clear
      then free
      else used

  module _ (P : Platform S) where
    unfoldable pub is_remote_ready : World S → ℕ → Status
    unfolding instance_is_free
    is_remote_ready w i =
        if not (is_used (instance_is_free w i))
        then einval
        else if not (w.mem.globals (P.os_get_remote_shm w.plat i) == state_ready)
        then eagain
        else ok
