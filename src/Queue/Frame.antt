-- ===== src/Queue/Frame.antt =====
-- Freedom from interference: every operation of ipc-queue.c writes the local push ring only, and
-- the data path leaves the sentinels alone.
use ipc_shm.Common.{ℕ, ◌≡◌, ◌≢◌, refl, ◌∙◌, arith, Bool-cases, inl, inr}
use ipc_shm.Types.{QueueType}
use ipc_shm.Memory.{Bd, Ring, Mem, put_ring}
use ipc_shm.Queue.{
  IpcQueue, QueueData, check_integrity, pop, push, sync_index, is_invalid, mapped, init, free,
}
use ipc_shm.Queue.Fifo.{mirror, IsLinked, outgoing, incoming}

-- `m'` differs from `m` in the ring at `a` at most.
pub record WritesOnly (a : ℕ) (m m' : Mem) : Type 0 where
  pub rings : (b : ℕ) → a ≢ b → m'.rings b ≡ m.rings b
  pub umems : m'.umems ≡ m.umems
  pub globals : m'.globals ≡ m.globals

pub unwritten : (a : ℕ) (m : Mem) → WritesOnly a m m
unwritten a m = record { rings = λ b ne. refl; umems = refl; globals = refl }

pub written_trans :
    {a : ℕ} {m m' m'' : Mem} → WritesOnly a m m' → WritesOnly a m' m'' → WritesOnly a m m''
written_trans u v = record {
  rings = λ b ne. v.rings b ne ∙ u.rings b ne;
  umems = v.umems ∙ u.umems;
  globals = v.globals ∙ u.globals;
}

pub put_ring-WritesOnly : (m : Mem) (a : ℕ) (r : Ring) → WritesOnly a m (put_ring m a r)
put_ring-WritesOnly m a r = record { rings = λ b ne. ground arith; umems = refl; globals = refl }

-- A queue whose rings lie elsewhere carries what it carried.
pub elsewhere :
    {a : ℕ} {m m' : Mem} {q : IpcQueue}
    → WritesOnly a m m'
    → a ≢ q.push_ring
    → a ≢ q.pop_ring
    → IsLinked m q
    → (outgoing m' q ≡ outgoing m q) × (incoming m' q ≡ incoming m q) × IsLinked m' q
elsewhere {a} {m} {m'} {q} u own theirs v =
    let same = u.rings q.push_ring own in
    let same' = u.rings q.pop_ring theirs in
    rw (same, same') (refl, refl, ground (arith, same, same'))

pub push-WritesOnly : (m : Mem) (q : IpcQueue) (b : Bd) → WritesOnly q.push_ring m (push m q b).1
unfolding push
push-WritesOnly m q b = record {
  rings = λ a ne. ground arith;
  umems = ground arith;
  globals = ground arith;
}

pub pop-WritesOnly : (m : Mem) (q : IpcQueue) → WritesOnly q.push_ring m (pop m q).2
unfolding pop
pop-WritesOnly m q = record {
  rings = λ a ne. ground arith;
  umems = ground arith;
  globals = ground arith;
}

sync_index-WritesOnly :
    (m : Mem) (q : IpcQueue) (t : QueueType) → WritesOnly q.push_ring m (sync_index m q t).1
unfolding sync_index
sync_index-WritesOnly m q t = record {
  rings = λ a ne. ground arith;
  umems = ground arith;
  globals = ground arith;
}

pub init-WritesOnly :
    (m : Mem) (q : IpcQueue) (d : QueueData) → WritesOnly d.push_addr m (init m q d).2
unfolding init
init-WritesOnly m q d = elim (Bool-cases (is_invalid d)) [
  | inl bad ↦ rw bad (ground arith)
  | inr good ↦ rw good (sync_index-WritesOnly m (mapped d) d.queue_type)
]

pub free-WritesOnly : (m : Mem) (q : IpcQueue) → WritesOnly q.push_ring m (free m q).1
unfolding free
free-WritesOnly m q = record {
  rings = λ a ne. ground arith;
  umems = ground arith;
  globals = ground arith;
}

-- No operation of the local queue writes memory of the remote side: push, pop, initialization and
-- release leave every ring but the local push ring, all channel memory of unmanaged channels and
-- all state words as they were.
pub no_interference :
    (m : Mem) (q : IpcQueue) (d : QueueData) (b : Bd)
    → WritesOnly q.push_ring m (push m q b).1
      × WritesOnly q.push_ring m (pop m q).2
      × WritesOnly d.push_addr m (init m q d).2
      × WritesOnly q.push_ring m (free m q).1
no_interference m q d b =
    (push-WritesOnly m q b, pop-WritesOnly m q, init-WritesOnly m q d, free-WritesOnly m q)

pub push-sentinel :
    (m : Mem) (q : IpcQueue) (b : Bd) (a : ℕ)
    → ((push m q b).1.rings a).sentinel ≡ (m.rings a).sentinel
unfolding push
push-sentinel m q b a = ground arith

pub pop-sentinel :
    (m : Mem) (q : IpcQueue) (a : ℕ) → ((pop m q).2.rings a).sentinel ≡ (m.rings a).sentinel
unfolding pop
pop-sentinel m q a = ground arith

-- Pushing and popping, by any queue, do not change what the integrity check of a queue says.
pub check_integrity-push :
    (m : Mem) (q p : IpcQueue) (b : Bd) → check_integrity (push m q b).1 p ≡ check_integrity m p
unfolding check_integrity
check_integrity-push m q p b =
    ground (arith, push-sentinel m q b p.push_ring, push-sentinel m q b p.pop_ring)

pub check_integrity-pop :
    (m : Mem) (q p : IpcQueue) → check_integrity (pop m q).2 p ≡ check_integrity m p
unfolding check_integrity
check_integrity-pop m q p =
    ground (arith, pop-sentinel m q p.push_ring, pop-sentinel m q p.pop_ring)

pub check_integrity-mirror :
    (m : Mem) (q : IpcQueue) → check_integrity m (mirror q) ≡ check_integrity m q
unfolding check_integrity
check_integrity-mirror m q = ground arith
