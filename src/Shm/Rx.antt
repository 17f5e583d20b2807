-- ===== src/Shm/Rx.antt =====
-- Reception: ipc_channel_rx(), the fair loop of ipc_shm_rx(), and ipc_shm_poll_channels().
pub mod Budget
pub mod Drain
pub mod Inside
use ipc_shm.Common.{
  ℕ, zero, suc, ◌+◌, ◌-◌, ◌*◌, ◌/◌, ◌%◌, ◌^◌, Bool, true, false, ◌&&◌, ◌||◌, not, Option, none,
  some, leb, ltb, ◌==◌, if◌then◌else◌,
}
use ipc_shm.Types.{Status, ok, einval, eagain, ChannelType, managed, unmanaged, other}
use ipc_shm.Memory.{Bd, Mem, null, add_ptr, add_u32, umem_size, put_umem}
use ipc_shm.Queue
use ipc_shm.Queue.{is_ok}
use ipc_shm.Shm.State.{
  World, Platform, App, Poll, run, refuse, Channel, ManagedChannel, UnmanagedChannel, channel,
  put_mem,
}
use ipc_shm.Shm.Lookup.{check_uchan_integrity, instance_is_free, is_used, is_remote_ready}
use ipc_shm.Shm.Buffers.{popped_bd, lies_in}

-- An int8_t by its bits, where work is returned; or a status.
pub data PollReturn : Type 0 where
  worked : ℕ → PollReturn
  failed : Status → PollReturn

-- the share of a channel in what is left of the budget
abbrev pub chan_budget : ℕ → ℕ → ℕ → ℕ
chan_budget budget work num_chans =
    if (budget - work) / num_chans == 0 then 1 else (budget - work) / num_chans

-- the address that a received descriptor stands for
abbrev pub remote_buf : ManagedChannel → Bd → ℕ
remote_buf ch bd =
    let pool = ch.pools bd.pool_id in
    add_ptr pool.remote_pool_addr (bd.buf_id * pool.buf_size % 2 ^ 32)

module _ {S : Type 0} (P : Platform S) (A : App S) where
  -- The callback is called if the buffer lies in the remote shared memory.
  unfoldable pub deliver : World S → ℕ → ℕ → Bd → World S
  deliver w i c bd =
      let ch = (channel w i c).mng in
      let addr = remote_buf ch bd in
      if lies_in (P.os_get_remote_shm w.plat i) (w.priv i).shm_size addr
        (ch.pools bd.pool_id).buf_size
      then A.rx_managed ch.rx_cb ch.cb_arg i (channel w i c).id addr bd.data_size w
      else w

  -- at most `rounds` descriptors; the channel is read anew in each round, since callbacks may change it
  unfoldable pub rx_bds : World S → ℕ → ℕ → ℕ → ℕ × World S
  rx_bds w i c zero = (0, w)
  rx_bds w i c (suc rounds) =
      let (s, out, m) = Queue.pop w.mem (channel w i c).mng.bd_queue in
      let (work, w') = rx_bds (deliver (put_mem w m) i c (popped_bd out)) i c rounds in
      if is_ok s then (work + 1, w') else (0, put_mem w m)

  unfoldable pub rx_unmanaged : World S → ℕ → ℕ → ℕ → ℕ × World S
  rx_unmanaged w i c budget =
      let u = (channel w i c).umng in
      let count = (w.mem.umems u.remote_mem).tx_count in
      let own = w.mem.umems u.local_mem in
      let saved = put_mem w (put_umem w.mem u.local_mem (record own { remote_tx_count = count })) in
      if not (is_ok (check_uchan_integrity w.mem u)) || (count == own.remote_tx_count)
      then (0, w)
      else (
        budget,
        A.rx_unmanaged u.rx_cb u.cb_arg i (channel w i c).id (add_ptr u.remote_mem umem_size) saved,
      )

  unfoldable pub rx_typed : ChannelType → World S → ℕ → ℕ → ℕ → ℕ × World S
  rx_typed unmanaged w i c budget = rx_unmanaged w i c budget
  rx_typed _ w i c budget = rx_bds w i c budget

  -- the work done, and the world behind it
  unfoldable pub channel_rx : World S → ℕ → ℕ → ℕ → ℕ × World S
  unfolding rx_typed
  channel_rx w i c budget = rx_typed (channel w i c).type w i c budget

  -- the inner loop: all channels once, `rounds` of them from `c` on, each with budget `b`
  unfoldable pub rx_pass : World S → ℕ → ℕ → ℕ → ℕ → Bool → ℕ × Bool × World S
  rx_pass w i b c zero more = (0, more, w)
  rx_pass w i b c (suc rounds) more =
      let (work, w') = channel_rx w i c b in
      let (rest, more', w'') = rx_pass w' i b (c + 1) rounds (more || (work == b)) in
      (work + rest, more', w'')

  -- the outer loop on fuel, from `work` on; `none` means that the fuel ran out
  unfoldable pub rx_passes : ℕ → World S → ℕ → ℕ → ℕ → ℕ → Bool → Option (ℕ × World S)
  rx_passes zero w i num_chans budget work more = none
  rx_passes (suc fuel) w i num_chans budget work more =
      let (done, more', w') = rx_pass w i (chan_budget budget work num_chans) 0 num_chans false in
      let rest = rx_passes fuel w' i num_chans budget (work + done) more' in
      if ltb work budget && more then rest else some (work, w)

  -- The fuel allows for `budget + 2` passes.
  unfoldable pub shm_rx : World S → ℕ → ℕ → Option (ℕ × World S)
  shm_rx w i budget =
      if not (is_used (instance_is_free w i))
      then some (0, w)
      else rx_passes (budget + 2) w i (w.priv i).num_channels budget 0 true

  unfoldable pub poll_with : World S → ℕ → Poll → Option (PollReturn × World S)
  poll_with w i (refuse s) = some (failed s, w)
  poll_with w i (run budget) = elim (shm_rx w i budget) [
    | none ↦ none
    | some (work, w') ↦ some (worked (work % 2 ^ 8), w')
  ]

  unfoldable pub poll_channels : World S → ℕ → Option (PollReturn × World S)
  unfolding poll_with
  poll_channels w i =
      if not (is_ok (is_remote_ready P w i))
      then some (failed (is_remote_ready P w i), w)
      else poll_with w i (P.os_poll_channels w.plat i)
