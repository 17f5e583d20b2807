-- ===== src/Shm/State.antt =====
-- The private data of ipc-shm.c, and the operating system and hardware layers that it calls.
use ipc_shm.Common.{ℕ, update}
use ipc_shm.Types.{Status, ChannelType, ShmCfg}
use ipc_shm.Memory.{Mem}
use ipc_shm.Queue.{IpcQueue}

abbrev pub state_ready : ℕ
state_ready = 0x3252_4556_4643_5049

abbrev pub state_clear : ℕ
state_clear = 0

abbrev pub uchan_init_in_progress : ℕ
uchan_init_in_progress = 0x5449_4e49

abbrev pub uchan_init_done : ℕ
uchan_init_done = 0x5543_5049

-- `enum ipc_shm_instance_state`
pub data InstanceState : Type 0 where
  used free error : InstanceState

-- `struct ipc_shm_pool`
pub record Pool : Type 0 where
  pub num_bufs : ℕ  -- uint16_t
  pub buf_size : ℕ  -- uint32_t
  pub shm_size : ℕ  -- uint32_t
  pub local_pool_addr : ℕ
  pub remote_pool_addr : ℕ
  pub bd_queue : IpcQueue

-- `struct ipc_managed_channel`. What `pools` holds from IPC_SHM_MAX_POOLS on is the memory behind
-- the array, of which nothing is known.
pub record ManagedChannel : Type 0 where
  pub bd_queue : IpcQueue
  pub num_pools : ℕ  -- uint16_t
  pub pools : ℕ → Pool
  pub rx_cb : ℕ
  pub cb_arg : ℕ

-- `struct ipc_unmanaged_channel`
pub record UnmanagedChannel : Type 0 where
  pub size : ℕ  -- uint32_t
  pub local_mem : ℕ
  pub remote_mem : ℕ
  pub rx_cb : ℕ
  pub cb_arg : ℕ

-- `struct ipc_shm_channel`; the union is two fields, of which `type` names the one in use.
pub record Channel : Type 0 where
  pub id : ℕ  -- uint8_t
  pub type : ChannelType
  pub mng : ManagedChannel
  pub umng : UnmanagedChannel

-- `struct ipc_shm_priv`; `global` is the address of the local `struct ipc_shm_global`.
pub record Priv : Type 0 where
  pub shm_size : ℕ  -- uint32_t
  pub num_channels : ℕ  -- uint8_t
  pub channels : ℕ → Channel
  pub global : ℕ

-- What the driver works on: shared memory, `ipc_shm_priv_data`, and the state of the layers below.
pub record World (S : Type 0) : Type 0 where
  pub mem : Mem
  pub priv : ℕ → Priv
  pub plat : S

-- What ipc_os_poll_channels() does: call ipc_shm_rx() with a budget, or return at once.
pub data Poll : Type 0 where
  run : ℕ → Poll
  refuse : Status → Poll

-- ipc-os.h and ipc-hw.h, as ipc-shm.c uses them. The build chooses one implementation of each.
pub record Platform (S : Type 0) : Type 0 where
  pub hw_init : S → ℕ → ShmCfg → Status × S
  pub hw_free : S → ℕ → S
  pub hw_irq_enable : S → ℕ → S
  pub hw_irq_disable : S → ℕ → S
  pub hw_irq_notify : S → ℕ → S
  pub os_init : S → ℕ → ShmCfg → Status × S
  pub os_free : S → ℕ → S
  pub os_get_local_shm : S → ℕ → ℕ
  pub os_get_remote_shm : S → ℕ → ℕ
  pub os_poll_channels : S → ℕ → Poll

-- The receive callbacks of the application, by their addresses: argument, instance, channel, buffer
-- and size. A callback may call the driver, so it acts on the whole world.
pub record App (S : Type 0) : Type 0 where
  pub rx_managed : (cb cb_arg instance_id chan_id buf size : ℕ) → World S → World S
  pub rx_unmanaged : (cb cb_arg instance_id chan_id buf : ℕ) → World S → World S

module _ {S : Type 0} where
  -- `ipc_shm_priv_data[i].channels[c]`
  abbrev pub channel : World S → ℕ → ℕ → Channel
  channel w i c = (w.priv i).channels c

  abbrev pub put_mem : World S → Mem → World S
  put_mem w m = record w { mem = m }

  abbrev pub put_plat : World S → S → World S
  put_plat w s = record w { plat = s }

  abbrev pub put_priv : World S → ℕ → Priv → World S
  put_priv w i p = record w { priv = update w.priv i p }

  abbrev pub put_channel : World S → ℕ → ℕ → Channel → World S
  put_channel w i c ch =
      put_priv w i (record (w.priv i) { channels = update (w.priv i).channels c ch })

  abbrev pub put_mng : World S → ℕ → ℕ → ManagedChannel → World S
  put_mng w i c ch = put_channel w i c (record (channel w i c) { mng = ch })

  abbrev pub put_umng : World S → ℕ → ℕ → UnmanagedChannel → World S
  put_umng w i c ch = put_channel w i c (record (channel w i c) { umng = ch })

  abbrev pub put_pool : World S → ℕ → ℕ → ℕ → Pool → World S
  put_pool w i c k p =
      put_mng w i c (record (channel w i c).mng { pools = update (channel w i c).mng.pools k p })
