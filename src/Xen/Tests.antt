-- ===== src/Xen/Tests.antt =====
-- An instance of a guest of Xen that has no interrupt.
use ipc_shm.Common.{ℕ, ◌+◌, ◌≡◌, refl, true, false, none, some}
use ipc_shm.Types.{ok, ShmCfg, core_default, core_m7}
use ipc_shm.Shm.State.{run}
use ipc_shm.Xen.{
  XenState, XenCalls, initialized_from, xen_irq, xen_map_remote, xen_take_remote, xen_map_local,
  xen_init, xen_free, xen_free_irq, xen_poll_channels,
}
use ipc_shm.Xen.Irqs.{polled_without_irq}

-- The kernel counts what it has given out, and 1000 for each interrupt -1 that it is to free.
abbrev calls : XenCalls ℕ
calls = record {
  request_mem_region = λ s addr size. (true, s + 1);
  release_mem_region = λ s addr size. s;
  ioremap = λ s addr size. (addr, s + 1);
  iounmap = λ s addr. s;
  free_irq = λ s num. elim num [ none ↦ s + 1000 | some _ ↦ s ];
  tasklet_schedule = λ s. s;
  tasklet_kill = λ s. s;
  rx = λ st cb i budget. (0, st);
}

abbrev guest : XenState ℕ
guest = record {
  id = λ _. record {
    shm_size = 0;
    local_phys_shm = 0;
    remote_phys_shm = 0;
    local_virt_shm = 0;
    remote_virt_shm = 0;
    irq_num = some 0;
    is_enabled = false;
  };
  rx_cb = 0;
  irq_num_init = λ _. some 0;
  rest = 0;
}

abbrev shm_cfg : ShmCfg
shm_cfg = record {
  local_shm_addr = 0x34000000;
  remote_shm_addr = 0x34100000;
  shm_size = 4096;
  inter_core_tx_irq = none;
  inter_core_rx_irq = none;
  local_core = record { type = core_default; index = 0; trusted = 1 };
  remote_core = record { type = core_m7; index = 0x01 };
  num_channels = 0;
  channels = none;
}

started : (xen_init calls guest 0 shm_cfg 77).0 ≡ ok
unfolding xen_init xen_map_local xen_take_remote xen_map_remote
started = refl

alone : initialized_from guest.irq_num_init none 0 4 ≡ false
unfolding initialized_from
alone = refl

polled_without_irq_example :
    (xen_poll_channels (xen_init calls guest 0 shm_cfg 77).1 0 ≡ run 128)
    × ((xen_free_irq calls (xen_init calls guest 0 shm_cfg 77).1 0).rest
        ≡ (xen_init calls guest 0 shm_cfg 77).1.rest + 1000)
polled_without_irq_example = polled_without_irq calls 0 shm_cfg 77 guest refl alone started

freed : (xen_free calls (xen_init calls guest 0 shm_cfg 77).1 0).rest ≡ 1004
unfolding xen_free xen_free_irq xen_init xen_map_local xen_take_remote xen_map_remote xen_irq
    initialized_from
freed = refl
