-- ===== src/Shm/Rx/Inside.antt =====
-- Which buffers a reception hands to the application.
use ipc_shm.Common.{ℕ, ◌≤◌, ◌≡◌}
use ipc_shm.Memory.{Bd, add_ptr}
use ipc_shm.Queue
use ipc_shm.Shm.State.{World, Platform, App, channel}
use ipc_shm.Shm.Rx.{remote_buf, rx_unmanaged}

module _ {S : Type 0} (P : Platform S) (A B : App S) where
  -- Two applications whose callbacks do the same, as long as the buffer that a callback of a managed
  -- channel gets lies in the remote shared memory of the instance, with the whole size that the
  -- buffers of its pool have.
  pub record AgreeInside : Type 0 where
    pub on_managed :
        (w : World S) (i c : ℕ) (bd : Bd)
        → let ch = (channel w i c).mng in
          let base = P.os_get_remote_shm w.plat i in
          base ≤ remote_buf ch bd
          → add_ptr (remote_buf ch bd) (ch.pools bd.pool_id).buf_size
            ≤ add_ptr base (w.priv i).shm_size
          → A.rx_managed ch.rx_cb ch.cb_arg i (channel w i c).id (remote_buf ch bd) bd.data_size w
            ≡ B.rx_managed ch.rx_cb ch.cb_arg i (channel w i c).id (remote_buf ch bd) bd.data_size w
    pub on_unmanaged :
        (cb cb_arg i id buf : ℕ) (w : World S)
        → A.rx_unmanaged cb cb_arg i id buf w ≡ B.rx_unmanaged cb cb_arg i id buf w
