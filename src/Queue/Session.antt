-- ===== src/Queue/Session.antt =====
-- The two endpoints of a queue, driven by any sequence of calls, against two bounded FIFOs.
use ipc_shm.Common.{ℕ, ◌-◌, ◌≡◌, refl, ◌∙◌, Option, none, List, [], ◌∷◌}
use ipc_shm.Types.{Status, ok}
use ipc_shm.Memory.{Bd, Mem}
use ipc_shm.Queue.{IpcQueue, check_integrity, pop, push}
use ipc_shm.Queue.Fifo.{
  mirror, outgoing, incoming, IsLinked, mirror-IsLinked, enqueue, dequeue, push_refines,
  pop_refines,
}
use ipc_shm.Queue.Frame.{check_integrity-push, check_integrity-pop, check_integrity-mirror}

-- A call by the owner of the queue, or by the remote owner of its mirror.
pub data Op : Type 0 where
  local_push remote_push : Bd → Op
  local_pop remote_pop : Op

abbrev pub Reply : Type 0
Reply = Status × Option Bd

unfoldable pub run : Mem → IpcQueue → List Op → List Reply
run m q [] = []
run m q (local_push b ∷ ops) = let (s, m') = push m q b in (s, none) ∷ run m' q ops
run m q (remote_push b ∷ ops) = let (s, m') = push m (mirror q) b in (s, none) ∷ run m' q ops
run m q (local_pop ∷ ops) = let (s, out, m') = pop m q in (s, out) ∷ run m' q ops
run m q (remote_pop ∷ ops) = let (s, out, m') = pop m (mirror q) in (s, out) ∷ run m' q ops

-- two FIFOs of at most `cap` elements: local to remote, and remote to local
pub run_fifos : ℕ → List Bd → List Bd → List Op → List Reply
run_fifos cap out inc [] = []
run_fifos cap out inc (local_push b ∷ ops) =
    let (s, out') = enqueue cap out b in (s, none) ∷ run_fifos cap out' inc ops
run_fifos cap out inc (remote_push b ∷ ops) =
    let (s, inc') = enqueue cap inc b in (s, none) ∷ run_fifos cap out inc' ops
run_fifos cap out inc (local_pop ∷ ops) =
    let (s, b, inc') = dequeue inc in (s, b) ∷ run_fifos cap out inc' ops
run_fifos cap out inc (remote_pop ∷ ops) =
    let (s, b, out') = dequeue out in (s, b) ∷ run_fifos cap out' inc ops

-- On linked rings that are marked as initialized, no sequence of pushes and pops by the two sides
-- tells the queue from two FIFOs with room for `elem_num - 1` elements each, which start with what
-- the rings hold.
pub run_refines :
    (ops : List Op) {m : Mem} {q : IpcQueue}
    → IsLinked m q
    → check_integrity m q ≡ ok
    → run m q ops ≡ run_fifos (q.elem_num - 1) (outgoing m q) (incoming m q) ops
unfolding run run_fifos
run_refines [] v sound = refl
run_refines (local_push b ∷ ops) {m} {q} v sound =
    let (e, same, v') = push_refines b v in
    rw (run_refines ops v' (check_integrity-push m q q b ∙ sound), same, ← e)
run_refines (remote_push b ∷ ops) {m} {q} v sound =
    let (e, same, v') = push_refines b (mirror-IsLinked v) in
    rw (
      run_refines ops (mirror-IsLinked v') (check_integrity-push m (mirror q) q b ∙ sound),
      same,
      ← e,
    )
run_refines (local_pop ∷ ops) {m} {q} v sound =
    let (e, same, v') = pop_refines v sound in
    rw (run_refines ops v' (check_integrity-pop m q q ∙ sound), same, ← e)
run_refines (remote_pop ∷ ops) {m} {q} v sound =
    let (e, same, v') = pop_refines (mirror-IsLinked v) (check_integrity-mirror m q ∙ sound) in
    rw
      (run_refines ops (mirror-IsLinked v') (check_integrity-pop m (mirror q) q ∙ sound), same, ← e)
