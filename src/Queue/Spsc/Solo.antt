-- ===== src/Queue/Spsc/Solo.antt =====
-- The steps are those of the code: a call of ipc_queue_push() or ipc_queue_pop() that succeeds with
-- nothing in between is a run of the interleaved system.
use ipc_shm.Common.{◌%◌, ◌≡◌, ◌≢◌, refl, sym, ap, ◌∙◌, List, [], ◌∷◌, ◌++◌, Option, some}
use native.Mathlib.Decide.{ℕ_discrete}
use ipc_shm.Types.{Status, ok}
use ipc_shm.Memory.{Bd, Ring, Mem, add_u32, put_ring}
use ipc_shm.Queue.{IpcQueue, check_integrity, push, pop}
use ipc_shm.Queue.Window.{next, increment}
use ipc_shm.Queue.Fifo.{
  mirror, slots, slots-update, pushed, popped, IsLinked, mirror-IsLinked, own, theirs, push-full,
  push-room, pop-empty, pop-some, rings_own, rings_other,
}
use ipc_shm.Queue.Spsc.{
  Pusher, Popper, State, Steps, here, then_step, push_load, push_check, push_copy, push_publish,
  pop_load, pop_check, pop_copy, pop_publish,
}

-- one direction of the queue, between calls: the ring `w` of the pushing side, `r` of the popping
abbrev pub view : IpcQueue → Ring → Ring → List Bd → List Bd → State
view q w r sent received = record {
  write = w.write;
  read = r.read;
  slots = slots q w;
  pusher = Pusher.idle;
  popper = Popper.idle;
  sent = sent;
  received = received;
}

abbrev pub outward : Mem → IpcQueue → List Bd → List Bd → State
outward m q = view q (m.rings q.push_ring) (m.rings q.pop_ring)

module _ {m : Mem} {q : IpcQueue} (v : IsLinked m q) (sent received : List Bd) where
  push-Steps :
      (b : Bd)
      → next q.elem_num (own v).write ≢ (theirs v).read
      → Steps q.elem_num
          (outward m q sent received)
          (view q (pushed q (own v) b) (theirs v) (sent ++ (b ∷ [])) received)
  push-Steps b room =
      rw (slots-update q (own v) (own v).write b v.sized, sym inc)
        (then_step
          (then_step
            (then_step (then_step here (push_load b refl))
              (push_check b (own v).write refl v.pop_read v.push_write (λ e. room (sym inc ∙ e))))
            (push_copy b (own v).write refl))
          (push_publish b (own v).write refl))
    where
      inc : add_u32 (own v).write 1 % q.elem_num ≡ next q.elem_num (own v).write
      inc = increment q.elem_num (own v).write v.push_write v.small

  pop-Steps :
      (own v).read ≢ (theirs v).write
      → Steps q.elem_num (view q (theirs v) (own v) sent received) (
          view q
            (theirs v)
            (popped q (own v))
            sent
            (received ++ (slots q (theirs v) (own v).read ∷ [])))
  pop-Steps more = rw (sym inc) (
      then_step
        (then_step
          (then_step (then_step here (pop_load refl))
            (pop_check (theirs v).write refl v.push_read v.pop_write more))
          (pop_copy (own v).read refl))
        (pop_publish (own v).read (slots q (theirs v) (own v).read) refl))
    where
      inc : add_u32 (own v).read 1 % q.elem_num ≡ next q.elem_num (own v).read
      inc = increment q.elem_num (own v).read v.push_read v.small

-- A call of ipc_queue_push() on a linked queue that returns 0, run alone, is a run of the system
-- that ends with the element sent.
pub solo_push :
    {m : Mem} {q : IpcQueue} (b : Bd) (sent received : List Bd)
    → IsLinked m q
    → (push m q b).0 ≡ ok
    → Steps q.elem_num
        (outward m q sent received)
        (outward (push m q b).1 q (sent ++ (b ∷ [])) received)
solo_push {m} {q} b sent received v e =
    elim (ℕ_discrete (next q.elem_num (own v).write) (theirs v).read) [
      | yes full ↦ absurd (cc (push-full v b full, e))
      | no room ↦
          rw
            (
              push-room v b room,
              rings_own v (pushed q (own v) b),
              rings_other v (pushed q (own v) b),
            )
            (push-Steps v sent received b room)
    ]

-- A call of ipc_queue_pop() by the remote side of a linked and initialized queue that returns 0, run
-- alone, is a run of the system that ends with the popped element received.
pub solo_pop :
    {m : Mem} {q : IpcQueue} (b : Bd) (m' : Mem) (sent received : List Bd)
    → IsLinked m q
    → check_integrity m (mirror q) ≡ ok
    → pop m (mirror q) ≡ (ok, some b, m')
    → Steps q.elem_num (outward m q sent received) (outward m' q sent (received ++ (b ∷ [])))
solo_pop {m} {q} b m' sent received v sound e =
    let w = mirror-IsLinked v in
    elim (ℕ_discrete (own w).read (theirs w).write) [
      | yes empty ↦ absurd (cc (pop-empty w sound empty, e))
      | no more ↦
          let same : ◌≡◌ {A = Status × Option Bd × Mem}
              (ok, some (slots q (theirs w) (own w).read), put_ring m q.pop_ring (popped q (own w)))
              (ok, some b, m') =
            sym (pop-some w sound more) ∙ e in
          let mem : put_ring m q.pop_ring (popped q (own w)) ≡ m' = ap (λ r. r.2) same in
          let elem : slots q (theirs w) (own w).read ≡ b = cc same in
          rw (← mem, rings_own w (popped q (own w)), rings_other w (popped q (own w)), ← elem)
            (pop-Steps w sent received more)
    ]
