-- ===== src/Os/Linux.antt =====
-- The driver on the Linux kernel: the layers of os_kernel/ipc-os.c and of hw/ as its platform.
mod Tests
use ipc_shm.Common.{ℕ, ◌<◌, ◌≡◌, ◌≢◌, true, some}
use ipc_shm.Types.{Status, ok, ShmCfg, InstancesCfg}
use ipc_shm.Shm.State.{World, Platform}
use ipc_shm.Shm.Instance.{init}
use ipc_shm.Shm.Instance.Life.{in_use}
use ipc_shm.Shm.Instance.Start.{Maps}
use ipc_shm.Shm.Instance.All.{init_starts_all}
use ipc_shm.Hw
use ipc_shm.Hw.{Mmio, HwState, Chip, get_rx_irq}
use ipc_shm.Os.{OsState, os_poll_channels}
use ipc_shm.Os.Setup.{Kernel, put_rest, os_init, os_free, os_get_local_shm, os_get_remote_shm}
use ipc_shm.Os.Mapping.{os_init-Up}

module _ {T : Type 0} (K : Kernel (HwState T)) (M : Mmio T) (C : Chip) (shm_rx : ℕ) where
  -- What the layer calls of the hardware layer is the one that is there.
  abbrev pub kernel : Kernel (HwState T)
  kernel = record K { hw_get_rx_irq = get_rx_irq; hw_irq_disable = Hw.irq_disable M }

  -- The receive callback of the layer is ipc_shm_rx(), at an address.
  abbrev pub linux : Platform (OsState (HwState T))
  linux = record {
    hw_init = λ s i cfg. let (e, r) = Hw.hw_init M C s.rest i cfg in (e, put_rest s r);
    hw_free = λ s i. put_rest s (Hw.hw_free M s.rest i);
    hw_irq_enable = λ s i. put_rest s (Hw.irq_enable M s.rest i);
    hw_irq_disable = λ s i. put_rest s (Hw.irq_disable M s.rest i);
    hw_irq_notify = λ s i. put_rest s (Hw.irq_notify M s.rest i);
    os_init = λ s i cfg. os_init kernel s i cfg shm_rx;
    os_free = λ s i. os_free kernel s i;
    os_get_local_shm = os_get_local_shm;
    os_get_remote_shm = os_get_remote_shm;
    os_poll_channels = os_poll_channels;
  }

  linux-Maps : Maps linux
  linux-Maps s i cfg good = (os_init-Up kernel i cfg shm_rx s good).prepared.local_mapped

  -- The driver on the Linux layer and the hardware layer of a chip: if ipc_shm_init() returns 0, then
  -- every configured instance is in use, whatever the kernel and the registers do.
  pub linux_starts_all :
      (w : World (OsState (HwState T))) (cfg : InstancesCfg) (i : ℕ)
      → (init linux w (some cfg)).0 ≡ ok
      → i < cfg.num_instances
      → in_use (init linux w (some cfg)).1 i ≡ true
  linux_starts_all w cfg i good lt = init_starts_all linux linux-Maps w cfg i good lt
