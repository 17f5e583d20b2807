-- ===== src/Queue.antt =====
-- ipc-queue.c and ipc-queue.h: the dual-ring queue. A `struct ipc_queue *` is the value it points
-- to; the driver passes only addresses of fields, never null, and so it does with `buf`.
pub mod Fifo
pub mod Pipe
pub mod Frame
pub mod Session
pub mod Spsc
pub mod Sync
mod Tests
pub mod Window
use ipc_shm.Common.{
  refl, ◌≡◌, ◌≢◌, ℕ, ◌+◌, ◌*◌, ◌%◌, ◌^◌, Bool, true, false, ◌&&◌, ◌||◌, not, Option, none, some,
  leb, ◌==◌, if◌then◌else◌, update,
}
use ipc_shm.Types.{
  Status, ok, err, einval, eagain, enomem, enobufs, QueueType, channel_queue, pool_queue, other,
  queue_init_in_progress, queue_init_done,
}
use ipc_shm.Memory.{Bd, ring_size, Mem, null, add_u32, put_ring, put_sentinel, put_write, put_read}

-- `struct ipc_queue`; the rings are addresses.
pub record IpcQueue : Type 0 where
  pub elem_size : ℕ  -- uint8_t
  pub elem_num : ℕ  -- uint16_t
  pub push_ring : ℕ
  pub pop_ring : ℕ

-- `struct ipc_queue_data`
pub record QueueData : Type 0 where
  pub elem_size : ℕ  -- uint8_t
  pub elem_num : ℕ  -- uint16_t
  pub queue_type : QueueType
  pub push_addr : ℕ
  pub pop_addr : ℕ

unfoldable pub check_integrity : Mem → IpcQueue → Status
check_integrity m q =
    if ((m.rings q.pop_ring).sentinel == queue_init_done)
      && ((m.rings q.push_ring).sentinel == queue_init_done)
    then ok
    else einval

abbrev pub is_ok : Status → Bool
is_ok ok = true
is_ok _ = false

pub is_ok-eq : (s : Status) → is_ok s ≡ true → s ≡ ok
is_ok-eq ok e = refl
is_ok-eq (err n) e = cc

pub not_ok : (e : Status) → is_ok e ≡ false → e ≢ ok
not_ok ok x y = absurd (cc x)
not_ok (err n) x y = absurd (cc y)

-- the element that goes through `buf`, `none` if `buf` is left alone
unfoldable pub pop : Mem → IpcQueue → Status × Option Bd × Mem
unfolding check_integrity
pop m q =
    let write = (m.rings q.pop_ring).write in
    let read = (m.rings q.push_ring).read in
    if (q.push_ring == null) || (q.pop_ring == null)
    then (einval, none, m)
    else if not (is_ok (check_integrity m q)) || leb q.elem_num read || leb q.elem_num write
    then (einval, none, m)
    else if read == write
    then (enobufs, none, m)
    else (
      ok,
      some ((m.rings q.pop_ring).content (read * q.elem_size)),
      put_ring m q.push_ring (record (m.rings q.push_ring) { read = add_u32 read 1 % q.elem_num }),
    )

unfoldable pub push : Mem → IpcQueue → Bd → Status × Mem
push m q b =
    let own = m.rings q.push_ring in
    let write = own.write in
    let read = (m.rings q.pop_ring).read in
    if (q.push_ring == null) || (q.pop_ring == null)
    then (einval, m)
    else if leb q.elem_num read || leb q.elem_num write
    then (einval, m)
    else if add_u32 write 1 % q.elem_num == read
    then (enomem, m)
    else (
      ok,
      put_ring m q.push_ring (record own {
        content = update own.content (write * q.elem_size) b;
        write = add_u32 write 1 % q.elem_num;
      }),
    )

-- where the local read index starts when the remote ring is already in use
unfoldable pub resume_read : QueueType → ℕ → ℕ → ℕ
resume_read channel_queue write elem_num = write % elem_num
resume_read _ write elem_num = add_u32 write 1 % elem_num

-- The sentinel of the remote ring is read twice, before and after the local one is marked.
unfoldable pub sync_index : Mem → IpcQueue → QueueType → Status × Mem
unfolding resume_read
sync_index m q type =
    if (m.rings q.pop_ring).sentinel == queue_init_in_progress
    then (eagain, m)
    else let m₁ = put_sentinel m q.push_ring queue_init_in_progress in
      if (m₁.rings q.pop_ring).sentinel == queue_init_done
      then (let m₂ = put_write m₁ q.push_ring (m₁.rings q.pop_ring).read in
          let read = resume_read type (m₂.rings q.pop_ring).write q.elem_num in
          (ok, put_read m₂ q.push_ring read))
      else (ok, put_read (put_write m₁ q.push_ring 0) q.push_ring 0)

unfoldable pub is_queue_type : QueueType → Bool
is_queue_type channel_queue = true
is_queue_type pool_queue = true
is_queue_type (other _) = false

-- the arguments that ipc_queue_init() refuses
unfoldable pub is_invalid : QueueData → Bool
unfolding is_queue_type
is_invalid d =
    (d.push_addr == null)
    || (d.pop_addr == null)
    || (d.elem_num == 0)
    || (d.elem_size == 0)
    || not (d.elem_size % 8 == 0)
    || not (is_queue_type d.queue_type)

-- One sentinel element is added; the sum is stored in a uint16_t.
abbrev pub mapped : QueueData → IpcQueue
mapped d = record {
  elem_size = d.elem_size;
  elem_num = (d.elem_num + 1) % 2 ^ 16;
  push_ring = d.push_addr;
  pop_ring = d.pop_addr;
}

unfoldable pub init : Mem → IpcQueue → QueueData → Status × IpcQueue × Mem
init m q d =
    if is_invalid d
    then (einval, q, m)
    else (let (s, m') = sync_index m (mapped d) d.queue_type in (s, mapped d, m'))

unfoldable pub free : Mem → IpcQueue → IpcQueue × Mem
free m q =
    let own = m.rings q.push_ring in
    if q.push_ring == null
    then (q, m)
    else if (own.sentinel == queue_init_done) || (own.sentinel == queue_init_in_progress)
    then (
      record { elem_size = 0; elem_num = 0; push_ring = null; pop_ring = q.pop_ring },
      put_ring m q.push_ring (record own { sentinel = 0; write = 0; read = 0 }),
    )
    else (record q { push_ring = null }, m)

abbrev pub mem_size : IpcQueue → ℕ
mem_size q = (ring_size + q.elem_num * q.elem_size) % 2 ^ 32
