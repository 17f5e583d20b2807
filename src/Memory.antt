-- ===== src/Memory.antt =====
-- The memory that the two cores share: the structures that ipc-queue.h and ipc-shm.c place in it,
-- each by the address of its first byte. Structures of different kinds never overlap here.
use ipc_shm.Common.{ℕ, ◌+◌, ◌%◌, ◌^◌, update}

-- `struct ipc_shm_bd`, what every queue of the driver holds. `pool_id` is an int16_t by its bits.
pub record Bd : Type 0 where
  pub pool_id : ℕ
  pub buf_id : ℕ  -- uint16_t
  pub data_size : ℕ  -- uint32_t

-- sizeof(struct ipc_shm_bd)
abbrev pub bd_size : ℕ
bd_size = 8

-- `struct ipc_ring`; `content` is the buffer, by the byte offset at which an element starts.
pub record Ring : Type 0 where
  pub sentinel : ℕ  -- uint64_t
  pub write : ℕ  -- uint32_t
  pub read : ℕ  -- uint32_t
  pub content : ℕ → Bd

-- sizeof(struct ipc_ring)
abbrev pub ring_size : ℕ
ring_size = 16

-- `struct ipc_channel_umem`, without the application's bytes behind it
pub record Umem : Type 0 where
  pub sentinel : ℕ  -- uint32_t
  pub tx_count : ℕ  -- uint32_t
  pub remote_tx_count : ℕ  -- uint32_t

-- sizeof(struct ipc_channel_umem), the offset of its `mem`
abbrev pub umem_size : ℕ
umem_size = 16

-- sizeof(struct ipc_shm_global)
abbrev pub global_size : ℕ
global_size = 8

-- `globals` are the `state` words of `struct ipc_shm_global`.
pub record Mem : Type 0 where
  pub rings : ℕ → Ring
  pub umems : ℕ → Umem
  pub globals : ℕ → ℕ

-- the null pointer
abbrev pub null : ℕ
null = 0

-- addition of uintptr_t, uint32_t
abbrev pub add_ptr : ℕ → ℕ → ℕ
add_ptr a b = (a + b) % 2 ^ 64

abbrev pub add_u32 : ℕ → ℕ → ℕ
add_u32 a b = (a + b) % 2 ^ 32

abbrev pub put_ring : Mem → ℕ → Ring → Mem
put_ring m a r = record m { rings = update m.rings a r }

abbrev pub put_umem : Mem → ℕ → Umem → Mem
put_umem m a u = record m { umems = update m.umems a u }

abbrev pub put_global : Mem → ℕ → ℕ → Mem
put_global m a s = record m { globals = update m.globals a s }

-- the fields of a ring, one store each
abbrev pub put_sentinel : Mem → ℕ → ℕ → Mem
put_sentinel m a v = put_ring m a (record (m.rings a) { sentinel = v })

abbrev pub put_write : Mem → ℕ → ℕ → Mem
put_write m a v = put_ring m a (record (m.rings a) { write = v })

abbrev pub put_read : Mem → ℕ → ℕ → Mem
put_read m a v = put_ring m a (record (m.rings a) { read = v })
