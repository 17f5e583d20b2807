-- ===== src/Queue/Fifo.antt =====
-- What a queue promises: a local endpoint and the remote endpoint that mirrors it carry one bounded
-- FIFO in each direction.
use ipc_shm.Common.{
  ℕ, ◌-◌, ◌≡◌, ◌≢◌, refl, ◌⊎◌, Option, none, some, List, [], ◌∷◌, ◌++◌, ◌==◌, if◌then◌else◌, length,
  ==_of_eq, Bool-cases, inl, inr, ==_false,
}
use native.Mathlib.Decide.{ℕ_discrete}
use ipc_shm.Types.{Status, ok, enomem, enobufs}
use ipc_shm.Memory.{Bd, Mem}
use ipc_shm.Queue.{IpcQueue, check_integrity, pop, push}
use ipc_shm.Queue.Window.{next}
pub use ipc_shm.Queue.Pipe.{
  mirror, slots, pipe, outgoing, incoming, IsLinked, mirror-IsLinked, pushed, popped, length-pipe,
  pipe-empty, own, theirs, push-full, push-room, pop-empty, pop-some, rings_own, rings_other,
  length-outgoing, outgoing-pushed, incoming-pushed, incoming-empty, incoming-popped,
  outgoing-popped, pushed-IsLinked, popped-IsLinked, is_full, slots-update,
}

-- The specification: a FIFO of at most `cap` elements.
pub enqueue : ℕ → List Bd → Bd → Status × List Bd
enqueue cap l b = if length l == cap then (enomem, l) else (ok, l ++ (b ∷ []))

pub enqueue-room :
    (cap : ℕ) (l : List Bd) (b : Bd) → length l ≢ cap → enqueue cap l b ≡ (ok, l ++ (b ∷ []))
unfolding enqueue
enqueue-room cap l b ne = rw (==_false _ _ ne)

pub enqueue-ok :
    (cap : ℕ) (l : List Bd) (b : Bd)
    → (enqueue cap l b).0 ≡ ok
    → (enqueue cap l b).1 ≡ l ++ (b ∷ [])
unfolding enqueue
enqueue-ok cap l b good = elim (Bool-cases (length l == cap)) [
  | inl e ↦ absurd (cc (rw e at good))
  | inr e ↦ rw e
]

pub enqueue-cases :
    (cap : ℕ) (l : List Bd) (b : Bd)
    → ((length l ≡ cap) × (enqueue cap l b ≡ (enomem, l)))
      ⊎ ((length l ≢ cap) × (enqueue cap l b ≡ (ok, l ++ (b ∷ []))))
unfolding enqueue
enqueue-cases cap l b = elim (ℕ_discrete (length l) cap) [
  | yes full ↦ inl (full, rw (==_of_eq _ _ full))
  | no room ↦ inr (room, enqueue-room cap l b room)
]

pub dequeue : List Bd → Status × Option Bd × List Bd
dequeue [] = (enobufs, none, [])
dequeue (b ∷ l) = (ok, some b, l)

-- ipc_queue_push() on a linked queue is `enqueue` on what is outgoing, with room for one element
-- less than there are slots; what is incoming stays, and the queue stays linked.
pub push_refines :
    {m : Mem} {q : IpcQueue} (b : Bd)
    → IsLinked m q
    → let (s, m') = push m q b in
      ((s, outgoing m' q) ≡ enqueue (q.elem_num - 1) (outgoing m q) b)
      × (incoming m' q ≡ incoming m q)
      × IsLinked m' q
unfolding enqueue
push_refines {m} {q} b v = elim (ℕ_discrete (next q.elem_num (own v).write) (theirs v).read) [
  | yes full ↦ rw (push-full v b full, ==_of_eq _ _ ((is_full v).1 full)) (refl, refl, v)
  | no room ↦
      rw
        (
          push-room v b room,
          outgoing-pushed v b room,
          incoming-pushed v b,
          ==_false _ _ (λ e. room ((is_full v).0 e)),
        )
        (refl, refl, pushed-IsLinked v b)
]

-- ipc_queue_pop() on a linked queue whose two rings are marked as initialized is `dequeue` on what
-- is incoming; what is outgoing stays, and the queue stays linked.
pub pop_refines :
    {m : Mem} {q : IpcQueue}
    → IsLinked m q
    → check_integrity m q ≡ ok
    → let (s, out, m') = pop m q in
      ((s, out, incoming m' q) ≡ dequeue (incoming m q))
      × (outgoing m' q ≡ outgoing m q)
      × IsLinked m' q
unfolding dequeue
pop_refines {m} {q} v sound = elim (ℕ_discrete (own v).read (theirs v).write) [
  | yes empty ↦ rw (pop-empty v sound empty, incoming-empty v empty) (refl, refl, v)
  | no more ↦
      rw (pop-some v sound more, incoming-popped v more, outgoing-popped v)
        (refl, refl, popped-IsLinked v)
]
