-- ===== src/Shm/Unmanaged.antt =====
-- Unmanaged channels: ipc_shm_unmanaged_acquire() and ipc_shm_unmanaged_tx().
pub mod Exchange
pub mod Handshake
use ipc_shm.Common.{ℕ, ◌+◌, Bool, not, Option, none, some, if◌then◌else◌}
use ipc_shm.Types.{Status, ok, einval}
use ipc_shm.Memory.{null, umem_size, add_ptr, add_u32, put_umem}
use ipc_shm.Queue.{is_ok}
use ipc_shm.Shm.State.{World, Platform, UnmanagedChannel, put_mem, put_plat}
use ipc_shm.Shm.Lookup.{
  check_uchan_integrity, check_uchan_local_integrity, get_unmanaged_chan, instance_is_free, is_used,
  is_remote_ready,
}

module _ {S : Type 0} where
  -- the address of the local channel memory, behind its control structure
  unfoldable pub unmanaged_acquire : World S → ℕ → ℕ → ℕ
  unmanaged_acquire w i c =
      if not (is_used (instance_is_free w i)) then null else elim (get_unmanaged_chan w i c) [
        | none ↦ null
        | some u ↦
            if not (is_ok (check_uchan_local_integrity w.mem u))
            then null
            else add_ptr u.local_mem umem_size
      ]

module _ {S : Type 0} (P : Platform S) where
  unfoldable pub bump : World S → ℕ → UnmanagedChannel → Status × World S
  bump w i u =
      if not (is_ok (check_uchan_integrity w.mem u))
      then (einval, w)
      else (let own = w.mem.umems u.local_mem in
          let m = put_umem w.mem u.local_mem (record own { tx_count = add_u32 own.tx_count 1 }) in
          (ok, put_plat (put_mem w m) (P.hw_irq_notify w.plat i)))

  unfoldable pub unmanaged_tx : World S → ℕ → ℕ → Status × World S
  unfolding bump
  unmanaged_tx w i c =
      if not (is_ok (is_remote_ready P w i))
      then (einval, w)
      else elim (get_unmanaged_chan w i c) [ none ↦ (einval, w) | some u ↦ bump w i u ]
