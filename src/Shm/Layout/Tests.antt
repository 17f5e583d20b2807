-- ===== src/Shm/Layout/Tests.antt =====
-- The layout of an instance with a managed channel of two pools and an unmanaged channel behind it.
use ipc_shm.Common.{ℕ, ◌≡◌, refl, ap, arith, none, some, ◌==◌, if◌then◌else◌}
use ipc_shm.Types.{ok, managed, unmanaged, ShmCfg, core_default, core_m7}
use ipc_shm.Queue.{IpcQueue, check_integrity, is_ok, pop, push, sync_index}
use ipc_shm.Queue
use ipc_shm.Shm.State.{World}
use ipc_shm.Shm.Lookup.{instance_is_free}
use ipc_shm.Shm.Setup.{
  init_channel, managed_channel_init, unmanaged_channel_init, get_chan_memmap_size, buf_pool_init,
  total_buf_per_chan,
}
use ipc_shm.Shm.Instance.{init_instance, init}
use ipc_shm.Shm.Example.{managed_cfg, pool_cfg, platform, sent, world}
use ipc_shm.Types.{ChannelCfg}
use ipc_shm.Shm.Layout.Rows.{MapsLow}
use ipc_shm.Shm.Layout.Spans.{SmallPools}
use ipc_shm.Shm.Layout.Whole.{LaidOut, init_instance-LaidOut}

-- Nothing is initialized here.
abbrev blank : World ℕ
blank = record {
  mem = record {
    rings = λ _. record { sentinel = 0; write = 0; read = 0; content = λ _. sent };
    umems = λ _. record { sentinel = 0; tx_count = 0; remote_tx_count = 0 };
    globals = λ _. 0;
  };
  priv = λ i. record (world.priv i) { num_channels = 0; global = 0 };
  plat = 0;
}

abbrev channels : ℕ → ChannelCfg
channels c = record {
  type = if c == 0 then managed else unmanaged;
  managed_cfg = managed_cfg;
  unmanaged_cfg = record { size = 64; rx_cb = 8888; cb_arg = 6 };
}

abbrev shm_cfg : ShmCfg
shm_cfg = record {
  local_shm_addr = 0x34000000;
  remote_shm_addr = 0x34100000;
  shm_size = 4096;
  inter_core_tx_irq = some 2;
  inter_core_rx_irq = some 1;
  local_core = record { type = core_default; index = 0; trusted = 0 };
  remote_core = record { type = core_m7; index = 0 };
  num_channels = 2;
  channels = some channels;
}

maps_low : MapsLow platform
maps_low s i cfg good = omega arith

small_pools : SmallPools channels
small_pools c pools e k lt =
    let same : pool_cfg ≡ pools = ap (λ o. elim o [ none ↦ pool_cfg | some x ↦ x ]) e in
    rw (← same) (ground arith)

started : (init_instance platform blank 0 (some shm_cfg)).0 ≡ ok
unfolding init init_instance instance_is_free init_channel managed_channel_init buf_pool_init
    unmanaged_channel_init get_chan_memmap_size total_buf_per_chan sync_index Queue.init
    Queue.is_invalid push
started = refl

init_instance-LaidOut_example :
    LaidOut shm_cfg channels 0 (init_instance platform blank 0 (some shm_cfg)).1
init_instance-LaidOut_example =
    init_instance-LaidOut platform blank 0 shm_cfg channels maps_low (omega arith) refl small_pools
      started
