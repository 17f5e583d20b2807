-- ===== src/Shm/Instance/Tests.antt =====
-- The life of instances at concrete states.
use ipc_shm.Common.{ℕ, ◌≡◌, refl, arith, false, some, ◌==◌, if◌then◌else◌}
use ipc_shm.Types.{ok, managed, unmanaged, ShmCfg, InstancesCfg, core_default, core_m7}
use ipc_shm.Queue.{IpcQueue, check_integrity, is_ok, pop, push, sync_index}
use ipc_shm.Queue
use ipc_shm.Shm.State.{World}
use ipc_shm.Shm.Lookup.{instance_is_free}
use ipc_shm.Shm.Setup.{
  init_channel, managed_channel_init, unmanaged_channel_init, get_chan_memmap_size, buf_pool_init,
  total_buf_per_chan,
}
use ipc_shm.Shm.Instance.{init_instance, init, free}
use ipc_shm.Shm.Instance.Life.{in_use, free_ends_all}
use ipc_shm.Shm.Instance.Start.{Maps, init_instance-in_use}
use ipc_shm.Shm.Example.{managed_cfg, platform, sent, world}

free_ends_all_example : in_use (free platform world) 2 ≡ false
free_ends_all_example = free_ends_all platform world 2

-- Nothing is initialized here.
abbrev blank : World ℕ
blank = record {
  mem = record {
    rings = λ _. record { sentinel = 0; write = 0; read = 0; content = λ _. sent };
    umems = λ _. record { sentinel = 0; tx_count = 0; remote_tx_count = 0 };
    globals = λ _. 0;
  };
  priv = λ i. record (world.priv i) { num_channels = 0; global = 0 };
  plat = 0;
}

abbrev shm_cfg : ShmCfg
shm_cfg = record {
  local_shm_addr = 0x34000000;
  remote_shm_addr = 0x34100000;
  shm_size = 4096;
  inter_core_tx_irq = some 2;
  inter_core_rx_irq = some 1;
  local_core = record { type = core_default; index = 0; trusted = 0 };
  remote_core = record { type = core_m7; index = 0 };
  num_channels = 2;
  channels = some (λ c. record {
    type = if c == 0 then managed else unmanaged;
    managed_cfg = managed_cfg;
    unmanaged_cfg = record { size = 64; rx_cb = 8888; cb_arg = 6 };
  });
}

abbrev instances : InstancesCfg
instances = record { num_instances = 1; shm_cfg = λ _. shm_cfg }

maps : Maps platform
maps s i cfg good = omega arith

idle_first : in_use blank 0 ≡ false
unfolding instance_is_free
idle_first = refl

init_instance-in_use_example :
    in_use (init_instance platform blank 0 (some shm_cfg)).1 0
    ≡ is_ok (init_instance platform blank 0 (some shm_cfg)).0
init_instance-in_use_example =
    init_instance-in_use platform maps blank 0 (some shm_cfg) (omega arith) idle_first

init_good : (init platform blank (some instances)).0 ≡ ok
unfolding init init_instance instance_is_free init_channel managed_channel_init buf_pool_init
    unmanaged_channel_init get_chan_memmap_size total_buf_per_chan sync_index Queue.init
    Queue.is_invalid push
init_good = refl
