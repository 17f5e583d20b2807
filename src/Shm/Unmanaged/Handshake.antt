-- ===== src/Shm/Unmanaged/Handshake.antt =====
-- How unmanaged_channel_init() joins a remote side that is already up.
use ipc_shm.Common.{ℕ, ◌≤◌, ◌≡◌, ◌≢◌, arith}
use ipc_shm.Types.{Status, ok, UnmanagedCfg, max_umng_size}
use ipc_shm.Memory.{null}
use ipc_shm.Shm.State.{World, UnmanagedChannel, channel, uchan_init_done}
use ipc_shm.Shm.Lookup.{check_uchan_integrity}
use ipc_shm.Shm.Setup.{unmanaged_channel_init}
use ipc_shm.Shm.Unmanaged.Exchange.{IsCaughtUp}

-- the channel that is set up, and what the remote side sees of it
abbrev pub near_end : UnmanagedCfg → ℕ → ℕ → UnmanagedChannel
near_end cfg local_shm remote_shm = record {
  size = cfg.size;
  local_mem = local_shm;
  remote_mem = remote_shm;
  rx_cb = cfg.rx_cb;
  cb_arg = cfg.cb_arg;
}

abbrev pub far_end : UnmanagedCfg → ℕ → ℕ → UnmanagedChannel
far_end cfg local_shm remote_shm = near_end cfg remote_shm local_shm

-- What a successful initialization has done.
pub record Joined {S : Type 0} (w : World S) (i c local_shm remote_shm : ℕ) (cfg : UnmanagedCfg)
    (r : Status × World S) : Type 0 where
  pub status : r.0 ≡ ok
  pub stored : (channel r.1 i c).umng ≡ near_end cfg local_shm remote_shm
  pub sound : check_uchan_integrity r.1.mem (near_end cfg local_shm remote_shm) ≡ ok
  pub near : IsCaughtUp r.1.mem (near_end cfg local_shm remote_shm)
  pub far : IsCaughtUp r.1.mem (far_end cfg local_shm remote_shm)
  pub remote_kept : r.1.mem.umems remote_shm ≡ w.mem.umems remote_shm

-- unmanaged_channel_init() beside a remote side that is up, with a callback, a size within the limit
-- and two places that differ: it succeeds and stores the channel, both ends are marked as
-- initialized, neither end sees a transmission that the other has not made since, and the remote
-- control structure is as it was.
pub unmanaged_init_joins :
    {S : Type 0} (w : World S) (i c local_shm remote_shm : ℕ) (cfg : UnmanagedCfg)
    → cfg.rx_cb ≢ null
    → cfg.size ≤ max_umng_size
    → local_shm ≢ remote_shm
    → (w.mem.umems remote_shm).sentinel ≡ uchan_init_done
    → Joined w i c local_shm remote_shm cfg (unmanaged_channel_init w i c local_shm remote_shm cfg)
unfolding unmanaged_channel_init IsCaughtUp check_uchan_integrity
unmanaged_init_joins w i c local_shm remote_shm cfg cb size apart up = record {
  status = ground arith;
  stored = ground arith;
  sound = ground arith;
  near = ground arith;
  far = ground arith;
  remote_kept = ground arith;
}
