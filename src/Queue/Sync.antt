-- ===== src/Queue/Sync.antt =====
-- ipc_queue_init(): what a queue holds after it, depending on the state of the remote ring.
use ipc_shm.Common.{
  ℕ, ◌+◌, ◌%◌, ◌^◌, ◌<◌, ◌≡◌, ◌≢◌, refl, ◌∙◌, true, false, [], arith, length, ==_of_eq,
}
use native.Mathlib.Nat.{mod-eq_of_lt}
use ipc_shm.Types.{
  Status, ok, eagain, QueueType, channel_queue, pool_queue, other, queue_init_in_progress,
  queue_init_done,
}
use ipc_shm.Memory.{Ring, Mem, null}
use ipc_shm.Queue.{
  IpcQueue, QueueData, resume_read, sync_index, is_queue_type, is_invalid, mapped, init,
}
use ipc_shm.Queue.Window.{dist, increment, next-lt, dist_self}
use ipc_shm.Queue.Fifo.{outgoing, incoming, IsLinked, mirror, pipe-empty, length-pipe}

-- What ipc_queue_init() asks of its arguments, with two rings that are not one.
pub record IsProper (d : QueueData) : Type 0 where
  pub push_ne_null : d.push_addr ≢ null
  pub pop_ne_null : d.pop_addr ≢ null
  pub apart : d.push_addr ≢ d.pop_addr
  pub num_pos : 0 < d.elem_num
  pub num_small : d.elem_num + 1 < 2 ^ 16
  pub size_pos : 0 < d.elem_size
  pub size_aligned : d.elem_size % 8 ≡ 0
  pub type_known : is_queue_type d.queue_type ≡ true

IsProper-valid : {d : QueueData} → IsProper d → is_invalid d ≡ false
unfolding is_invalid
IsProper-valid p = ground arith

-- the local ring after a successful initialization
abbrev pub started : Ring → ℕ → ℕ → Ring
started r write read = record r { sentinel = queue_init_in_progress; write = write; read = read }

-- A successful ipc_queue_init() that leaves the local ring at these indices.
pub record Started (m : Mem) (d : QueueData) (write read : ℕ) (r : Status × IpcQueue × Mem)
    : Type 0 where
  pub status : r.0 ≡ ok
  pub queue : r.1 ≡ mapped d
  pub own : r.2.rings d.push_addr ≡ started (m.rings d.push_addr) write read
  pub theirs : r.2.rings d.pop_addr ≡ m.rings d.pop_addr

module _ {d : QueueData} (p : IsProper d) (m : Mem) (q : IpcQueue) where
  open p use {apart, num_small}

  abbrev theirs : Ring
  theirs = m.rings d.pop_addr

  -- While the remote side is initializing, nothing is written.
  pub init-busy : theirs.sentinel ≡ queue_init_in_progress → init m q d ≡ (eagain, mapped d, m)
  unfolding init sync_index
  init-busy e = rw (IsProper-valid p, ==_of_eq _ _ e)

  -- The remote side is not up: both indices start at 0.
  pub init-fresh :
      theirs.sentinel ≢ queue_init_in_progress
      → theirs.sentinel ≢ queue_init_done
      → Started m d 0 0 (init m q d)
  unfolding init sync_index
  init-fresh calm off = rw (IsProper-valid p) (ground (arith, apart))

  -- The remote side is up: the write index is where it reads, and the read index where it writes,
  -- or one slot further on for a pool.
  pub init-resume :
      theirs.sentinel ≡ queue_init_done
      → Started m d theirs.read
          (resume_read d.queue_type theirs.write (d.elem_num + 1))
          (init m q d)
  unfolding init sync_index
  init-resume up = rw (IsProper-valid p) (ground (arith, apart))

-- How many elements a queue that follows a running remote side takes to be waiting for it.
abbrev pub backlog : QueueType → ℕ → ℕ
backlog channel_queue num = 0
backlog _ num = num

resume_read-next :
    (t : QueueType) (write num : ℕ)
    → write < num + 1
    → num + 1 < 2 ^ 16
    → (resume_read t write (num + 1) < num + 1)
      × (dist (num + 1) (resume_read t write (num + 1)) write ≡ backlog t num)
unfolding resume_read
resume_read-next channel_queue write num h small =
    rw (mod-eq_of_lt {n = write} {m = num + 1} h) (h, dist_self (num + 1) write)
resume_read-next pool_queue write num h small =
    rw (increment (num + 1) write h (omega arith)) (next-lt (num + 1) write h, ground arith)
resume_read-next (other k) write num h small =
    rw (increment (num + 1) write h (omega arith)) (next-lt (num + 1) write h, ground arith)

-- Initialization beside a remote side that is up, with its indices in range, succeeds and links the
-- two rings. Nothing is outgoing; a channel has nothing incoming, and a pool is full of incoming
-- elements.
pub init_resumes :
    {d : QueueData} (p : IsProper d) (m : Mem) (q : IpcQueue)
    → (m.rings d.pop_addr).sentinel ≡ queue_init_done
    → (m.rings d.pop_addr).write < d.elem_num + 1
    → (m.rings d.pop_addr).read < d.elem_num + 1
    → let (s, q', m') = init m q d in
      (s ≡ ok)
      × IsLinked m' q'
      × (outgoing m' q' ≡ [])
      × (length (incoming m' q') ≡ backlog d.queue_type d.elem_num)
init_resumes {d} p m q up hw hr =
    rw (r.queue, r.own, r.theirs, full)
      (
        r.status,
        ground (arith, r.own, r.theirs, step),
        pipe-empty linked own theirs refl,
        length-pipe (mirror linked) theirs own ∙ step.1,
      )
  where
    theirs : Ring
    theirs = m.rings d.pop_addr

    read : ℕ
    read = resume_read d.queue_type theirs.write (d.elem_num + 1)

    own : Ring
    own = started (m.rings d.push_addr) theirs.read read

    linked : IpcQueue
    linked = record (mapped d) { elem_num = d.elem_num + 1 }

    r : Started m d theirs.read read (init m q d)
    r = init-resume p m q up

    step :
        (read < d.elem_num + 1)
        × (dist (d.elem_num + 1) read theirs.write ≡ backlog d.queue_type d.elem_num)
    step = resume_read-next d.queue_type theirs.write d.elem_num hw p.num_small

    full : (d.elem_num + 1) % 2 ^ 16 ≡ d.elem_num + 1
    full = mod-eq_of_lt {n = d.elem_num + 1} {m = 2 ^ 16} p.num_small
