-- ===== src/Os/Balance/Tests.antt =====
-- An instance is started and stopped on a kernel that counts what it has given out.
use ipc_shm.Common.{ℕ, ◌+◌, ◌-◌, ◌≡◌, refl, arith, true, false, none, some, ◌==◌, if◌then◌else◌}
use ipc_shm.Types.{ok, ShmCfg, core_default, core_m7}
use ipc_shm.Os.{OsState}
use ipc_shm.Os.Setup.{Kernel, irq, os_init, os_free}
use ipc_shm.Os.Balance.{Account}
use ipc_shm.Os.Balance.Roundtrip.{os_free-os_init}

abbrev weight : ℕ → ℕ
weight n = if n == 0 then 0 else 1

abbrev counting : Kernel ℕ
counting = record {
  request_mem_region = λ s addr size. (true, s + 1);
  release_mem_region = λ s addr size. s - 1;
  ioremap = λ s addr size. (addr, s + weight addr);
  iounmap = λ s addr. s - weight addr;
  of_find_compatible_node = λ s. (1, s);
  of_node_put = λ s node. s;
  of_irq_get = λ s node rx. irq 33;
  of_address_to_resource = λ s node. none;
  request_irq = λ s n. (ok, s + weight n);
  free_irq = λ s n. s - weight n;
  hw_get_rx_irq = λ s i. some 1;
  hw_irq_disable = λ s i. s;
}

abbrev count : Account counting
count = record {
  region = λ addr. 1;
  mapping = weight;
  line = weight;
  held = λ s. s;
  no_line = refl;
  request = λ s addr size. refl;
  release = λ s addr size. refl;
  map = λ s addr size. ground arith;
  unmap = λ s addr. refl;
  find = λ s. refl;
  put = λ s node. refl;
  request_line = λ s n. refl;
  free_line = λ s n. refl;
  disable = λ s i. refl;
}

abbrev shm_cfg : ShmCfg
shm_cfg = record {
  local_shm_addr = 0x34000000;
  remote_shm_addr = 0x34100000;
  shm_size = 4096;
  inter_core_tx_irq = some 2;
  inter_core_rx_irq = some 1;
  local_core = record { type = core_default; index = 0; trusted = 1 };
  remote_core = record { type = core_m7; index = 0x01 };
  num_channels = 0;
  channels = none;
}

abbrev idle : OsState ℕ
idle = record {
  instances = λ _. record {
    shm_size = 0;
    local_phys_shm = 0;
    remote_phys_shm = 0;
    local_virt_shm = 0;
    remote_virt_shm = 0;
    irq_num = some 0;
    is_enabled = false;
    rx_cb = 0;
  };
  rest = 7;
}

-- two regions, two mappings and an interrupt
five_taken : (os_init counting idle 0 shm_cfg 77).1.rest ≡ 12
unfolding os_init
five_taken = refl

started : (os_init counting idle 0 shm_cfg 77).0 ≡ ok
unfolding os_init
started = refl

os_free-os_init_example : (os_free counting (os_init counting idle 0 shm_cfg 77).1 0).rest ≡ 7
os_free-os_init_example = os_free-os_init count 0 shm_cfg 77 idle started
