-- ===== src/Os/Linux/Tests.antt =====
-- The driver is started on a kernel that grants everything, with S32gen1 below.
use ipc_shm.Common.{ℕ, ◌+◌, ◌≡◌, refl, arith, true, false, none, some, ◌==◌, if◌then◌else◌}
use ipc_shm.Types.{ok, managed, unmanaged, ShmCfg, InstancesCfg, core_default, core_m7}
use ipc_shm.Queue
use ipc_shm.Queue.{check_integrity, pop, push, sync_index}
use ipc_shm.Shm.State.{World}
use ipc_shm.Shm.Lookup.{instance_is_free}
use ipc_shm.Shm.Setup.{
  init_channel, managed_channel_init, unmanaged_channel_init, get_chan_memmap_size, buf_pool_init,
  total_buf_per_chan,
}
use ipc_shm.Shm.Instance.{init_instance, init}
use ipc_shm.Shm.Instance.Life.{in_use}
use ipc_shm.Shm.Example.{managed_cfg, sent, world}
use ipc_shm.Hw
use ipc_shm.Hw.{Mmio, HwState}
use ipc_shm.Hw.S32gen1
use ipc_shm.Os.{OsState}
use ipc_shm.Os.Setup.{Kernel, irq, os_init}
use ipc_shm.Os.Linux.{kernel, linux, linux_starts_all}

-- The registers count what is written, and a mapping is at the address it maps.
abbrev block : Mmio ℕ
block = record {
  read = λ s base r. 0;
  write = λ s base r v. s + 1;
  map_intc = λ s. (0x4019_8000, s);
  unmap_intc = λ s addr. s;
}

abbrev generous : Kernel (HwState ℕ)
generous = record {
  request_mem_region = λ s addr size. (true, s);
  release_mem_region = λ s addr size. s;
  ioremap = λ s addr size. (addr, s);
  iounmap = λ s addr. s;
  of_find_compatible_node = λ s. (1, s);
  of_node_put = λ s node. s;
  of_irq_get = λ s node rx. irq 33;
  of_address_to_resource = λ s node. some (0x4019_8000, 4096);
  request_irq = λ s n. (ok, s);
  free_irq = λ s n. s;
  hw_get_rx_irq = λ s i. none;
  hw_irq_disable = λ s i. s;
}

abbrev booted : OsState (HwState ℕ)
booted = record {
  instances = λ _. record {
    shm_size = 0;
    local_phys_shm = 0;
    remote_phys_shm = 0;
    local_virt_shm = 0;
    remote_virt_shm = 0;
    irq_num = some 0;
    is_enabled = false;
    rx_cb = 0;
  };
  rest = record {
    priv = λ _. record {
      msi_tx_irq = 0;
      msi_rx_irq = 0;
      spi_index = 0;
      mscm_tx_irq = some 0;
      mscm_rx_irq = some 0;
      remote_core = 0;
      local_core = 0;
      ipc_mscm = 0;
    };
    regs = 0;
  };
}

abbrev shm_cfg : ShmCfg
shm_cfg = record {
  local_shm_addr = 0x34000000;
  remote_shm_addr = 0x34100000;
  shm_size = 4096;
  inter_core_tx_irq = some 2;
  inter_core_rx_irq = some 1;
  local_core = record { type = core_default; index = 0; trusted = 1 };
  remote_core = record { type = core_m7; index = 0x01 };
  num_channels = 2;
  channels = some (λ c. record {
    type = if c == 0 then managed else unmanaged;
    managed_cfg = managed_cfg;
    unmanaged_cfg = record { size = 64; rx_cb = 8888; cb_arg = 6 };
  });
}

abbrev instances : InstancesCfg
instances = record { num_instances = 1; shm_cfg = λ _. shm_cfg }

abbrev cold_world : World (OsState (HwState ℕ))
cold_world = record {
  mem = record {
    rings = λ _. record { sentinel = 0; write = 0; read = 0; content = λ _. sent };
    umems = λ _. record { sentinel = 0; tx_count = 0; remote_tx_count = 0 };
    globals = λ _. 0;
  };
  priv = λ i. record (world.priv i) { num_channels = 0; global = 0 };
  plat = booted;
}

os_good : (os_init (kernel generous block S32gen1.chip 77) booted 0 shm_cfg 77).0 ≡ ok
unfolding os_init
os_good = refl

boot_good : (init (linux generous block S32gen1.chip 77) cold_world (some instances)).0 ≡ ok
unfolding init init_instance instance_is_free init_channel managed_channel_init buf_pool_init
    unmanaged_channel_init get_chan_memmap_size total_buf_per_chan sync_index Queue.init
    Queue.is_invalid push os_init Hw.hw_init
boot_good = refl

linux_starts_all_example :
    in_use (init (linux generous block S32gen1.chip 77) cold_world (some instances)).1 0 ≡ true
linux_starts_all_example =
    linux_starts_all generous block S32gen1.chip 77 cold_world instances 0 boot_good (omega arith)
