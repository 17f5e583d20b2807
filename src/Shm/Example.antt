-- ===== src/Shm/Example.antt =====
-- The driver at a concrete state: a platform that counts notifications and deliveries, with the
-- local shared memory of every instance at 4096 and the remote one at 8192, 4096 bytes each.
use ipc_shm.Common.{ℕ, ◌+◌, ◌*◌, ◌≡◌, refl, arith, some}
use ipc_shm.Types.{PoolCfg, ManagedCfg, ok, managed, unmanaged, queue_init_done}
use ipc_shm.Memory.{Bd, Mem}
use ipc_shm.Queue.{check_integrity}
use ipc_shm.Queue.Fifo.{IsLinked}
use ipc_shm.Shm.State.{
  World, Platform, App, Pool, ManagedChannel, UnmanagedChannel, run, put_plat, used, state_ready,
  uchan_init_done,
}
use ipc_shm.Shm.Lookup.{check_mchan_integrity, get_managed_chan, instance_is_free, is_remote_ready}
use ipc_shm.Shm.Rx.Drain.{Quiet}

abbrev pub platform : Platform ℕ
platform = record {
  hw_init = λ s i cfg. (ok, s);
  hw_free = λ s i. s;
  hw_irq_enable = λ s i. s;
  hw_irq_disable = λ s i. s;
  hw_irq_notify = λ s i. s + 1;
  os_init = λ s i cfg. (ok, s);
  os_free = λ s i. s;
  os_get_local_shm = λ s i. 4096;
  os_get_remote_shm = λ s i. 8192;
  os_poll_channels = λ s i. run 128;
}

abbrev pub app : App ℕ
app = record {
  rx_managed = λ cb arg i id buf size w. put_plat w (w.plat + size);
  rx_unmanaged = λ cb arg i id buf w. put_plat w (w.plat + 1);
}

-- Every queue carries one descriptor in each direction.
abbrev pub sent : Bd
sent = record { pool_id = 0; buf_id = 1; data_size = 16 }

abbrev pub mem : Mem
mem = record {
  rings = λ _. record { sentinel = queue_init_done; write = 1; read = 0; content = λ _. sent };
  umems = λ _. record { sentinel = uchan_init_done; tx_count = 3; remote_tx_count = 3 };
  globals = λ _. state_ready;
}

abbrev pub pool : ℕ → Pool
pool k = record {
  num_bufs = 2;
  buf_size = 32 * (k + 1);
  shm_size = 104;
  local_pool_addr = 4300 + 200 * k;
  remote_pool_addr = 8396 + 200 * k;
  bd_queue = record {
    elem_size = 8;
    elem_num = 3;
    push_ring = 4200 + 200 * k;
    pop_ring = 8296 + 200 * k;
  };
}

abbrev pub data_channel : ManagedChannel
data_channel = record {
  bd_queue = record { elem_size = 8; elem_num = 5; push_ring = 4104; pop_ring = 8200 };
  num_pools = 2;
  pools = pool;
  rx_cb = 7777;
  cb_arg = 5;
}

abbrev pub control_channel : UnmanagedChannel
control_channel = record {
  size = 64;
  local_mem = 4800;
  remote_mem = 8896;
  rx_cb = 8888;
  cb_arg = 6;
}

-- An instance with one managed channel, and one with an unmanaged channel that the other side has.
abbrev pub world : World ℕ
world = record {
  mem = mem;
  priv = λ _. record {
    shm_size = 4096;
    num_channels = 1;
    channels = λ _. record { id = 0; type = managed; mng = data_channel; umng = control_channel };
    global = 4096;
  };
  plat = 0;
}

abbrev pub control_world : UnmanagedChannel → World ℕ
control_world u = record {
  mem = mem;
  priv = λ _. record {
    shm_size = 4096;
    num_channels = 1;
    channels = λ _. record { id = 0; type = unmanaged; mng = data_channel; umng = u };
    global = 4096;
  };
  plat = 0;
}

abbrev pub other_end : UnmanagedChannel
other_end = record { size = 64; local_mem = 8896; remote_mem = 4800; rx_cb = 9999; cb_arg = 7 }

pub quiet : Quiet platform app
quiet = record {
  act = λ cb arg i id buf size s. s + size;
  only_plat = λ cb arg i id buf size w. refl;
  same_remote = λ cb arg i id buf size s j. refl;
}

pub channel-IsLinked : IsLinked mem data_channel.bd_queue
channel-IsLinked = ground arith

pub channel_sound : check_integrity mem data_channel.bd_queue ≡ ok
unfolding check_integrity
channel_sound = refl

pub all_sound : check_mchan_integrity mem data_channel ≡ ok
unfolding check_mchan_integrity check_integrity
all_sound = refl

pub ready : is_remote_ready platform world 0 ≡ ok
unfolding is_remote_ready
ready = refl

pub busy : instance_is_free world 0 ≡ used
unfolding instance_is_free
busy = refl

pub found_channel : get_managed_chan world 0 0 ≡ some data_channel
unfolding get_managed_chan
found_channel = refl

abbrev pub pool_cfg : ℕ → PoolCfg
pool_cfg k = record { num_bufs = 2; buf_size = 32 * (k + 1) }

abbrev pub managed_cfg : ManagedCfg
managed_cfg = record { num_pools = 2; pools = some pool_cfg; rx_cb = 7777; cb_arg = 5 }
