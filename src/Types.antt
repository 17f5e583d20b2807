-- ===== src/Types.antt =====
-- ipc-types.h: limits, magic numbers, and the configuration that an application hands to the
-- driver; the error numbers of errno.h that the driver returns, negated.
use ipc_shm.Common.{ℕ, ◌-◌, Option}

-- A return value of the driver: 0, or `-n`.
pub data Status : Type 0 where
  ok : Status
  err : ℕ → Status

abbrev pub einval : Status
einval = err 22

abbrev pub eagain : Status
eagain = err 11

abbrev pub enomem : Status
enomem = err 12

abbrev pub eacces : Status
eacces = err 13

abbrev pub enxio : Status
enxio = err 6

abbrev pub eaddrinuse : Status
eaddrinuse = err 98

abbrev pub enobufs : Status
enobufs = err 105

abbrev pub eopnotsupp : Status
eopnotsupp = err 95

abbrev pub uint16_max : ℕ
uint16_max = 0xffff

abbrev pub max_bufs_per_channel : ℕ
max_bufs_per_channel = uint16_max - 1

abbrev pub max_umng_size : ℕ
max_umng_size = uint16_max

abbrev pub queue_init_in_progress : ℕ
queue_init_in_progress = 0x5449_4e49_4643_5049

abbrev pub queue_init_done : ℕ
queue_init_done = 0x474e_4952_4643_5049

abbrev pub max_channels : ℕ
max_channels = 8

abbrev pub max_pools : ℕ
max_pools = 4

abbrev pub max_bufs_per_pool : ℕ
max_bufs_per_pool = 4096

abbrev pub max_instances : ℕ
max_instances = 4

-- `enum ipc_shm_channel_type`; `other` is a value outside the enumeration.
pub data ChannelType : Type 0 where
  managed unmanaged : ChannelType
  other : ℕ → ChannelType

-- `enum ipc_shm_queue_type`, with the values outside it.
pub data QueueType : Type 0 where
  channel_queue pool_queue : QueueType
  other : ℕ → QueueType

pub record PoolCfg : Type 0 where
  pub num_bufs : ℕ  -- uint16_t
  pub buf_size : ℕ  -- uint32_t

-- A callback and its argument are pointers, 0 is the null pointer. A pointer to an array is an
-- option: `none` is null, and the array is a map from its indices.
pub record ManagedCfg : Type 0 where
  pub num_pools : ℕ  -- uint8_t
  pub pools : Option (ℕ → PoolCfg)
  pub rx_cb : ℕ
  pub cb_arg : ℕ

pub record UnmanagedCfg : Type 0 where
  pub size : ℕ  -- uint32_t
  pub rx_cb : ℕ
  pub cb_arg : ℕ

-- The union of the C structure is the two fields; `type` says which one is meant.
pub record ChannelCfg : Type 0 where
  pub type : ChannelType
  pub managed_cfg : ManagedCfg
  pub unmanaged_cfg : UnmanagedCfg

-- `enum ipc_shm_core_type`
pub data CoreType : Type 0 where
  core_default core_a53 core_m7 core_m4 core_z7 core_z4 core_z2 : CoreType
  core_r52 core_m33 core_bbe32 core_kq8 : CoreType

pub record RemoteCore : Type 0 where
  pub type : CoreType
  pub index : ℕ

pub record LocalCore : Type 0 where
  pub type : CoreType
  pub index : ℕ
  pub trusted : ℕ  -- uint32_t

-- `none` is IPC_IRQ_NONE, -1.
pub record ShmCfg : Type 0 where
  pub local_shm_addr : ℕ
  pub remote_shm_addr : ℕ
  pub shm_size : ℕ  -- uint32_t
  pub inter_core_tx_irq : Option ℕ
  pub inter_core_rx_irq : Option ℕ
  pub local_core : LocalCore
  pub remote_core : RemoteCore
  pub num_channels : ℕ  -- uint8_t
  pub channels : Option (ℕ → ChannelCfg)

pub record InstancesCfg : Type 0 where
  pub num_instances : ℕ  -- uint8_t
  pub shm_cfg : ℕ → ShmCfg
