-- ===== src/Queue/Tests.antt =====
-- The queue at concrete rings: a local ring at address 100, a remote one at 200, three elements of
-- room, indices that have gone round.
use ipc_shm.Common.{ℕ, ◌+◌, ◌<◌, ◌≡◌, refl, none, some, List, [], ◌∷◌, ◌++◌, arith, update, length}
use ipc_shm.Types.{ok, enomem, pool_queue, queue_init_done}
use ipc_shm.Memory.{Bd, Mem}
use ipc_shm.Queue.{IpcQueue, QueueData, check_integrity, is_queue_type, pop, push, init, free}
use ipc_shm.Queue.Fifo.{outgoing, incoming, mirror, IsLinked}
use ipc_shm.Queue.Frame.{WritesOnly, no_interference}
use ipc_shm.Queue.Session.{
  Op, local_push, remote_push, local_pop, remote_pop, run, run_fifos, run_refines,
}
use ipc_shm.Queue.Sync.{IsProper, init_resumes}
use ipc_shm.Queue.Spsc.{
  Steps, here, then_step, push_load, push_check, push_tear, push_copy, push_publish, pop_load,
  pop_check, pop_copy,
}
use ipc_shm.Queue.Spsc.Invariant.{interleaved_fifo, copied_is_oldest}
use ipc_shm.Queue.Spsc.Solo.{outward, solo_push, solo_pop}

abbrev bd : ℕ → Bd
bd k = record { pool_id = 0; buf_id = k; data_size = 0 }

-- The ring at 100 has written 3 and its owner reads at 1; the ring at 200 has written 2 and its
-- owner reads at 2.
abbrev mem : Mem
mem = record {
  rings =
      update (λ _. record { sentinel = queue_init_done; write = 3; read = 1; content = λ i. bd i })
        200 (record { sentinel = queue_init_done; write = 2; read = 2; content = λ i. bd (i + 1) });
  umems = λ _. record { sentinel = 0; tx_count = 0; remote_tx_count = 0 };
  globals = λ _. 0;
}

abbrev queue : IpcQueue
queue = record { elem_size = 8; elem_num = 4; push_ring = 100; pop_ring = 200 }

mem-IsLinked : IsLinked mem queue
mem-IsLinked = ground arith

mem_sound : check_integrity mem queue ≡ ok
unfolding check_integrity
mem_sound = refl

push_twice :
    run mem queue (local_push (bd 7) ∷ local_push (bd 8) ∷ local_push (bd 9) ∷ remote_pop ∷ [])
    ≡ (ok, none) ∷ (ok, none) ∷ (enomem, none) ∷ (ok, some (bd 16)) ∷ []
unfolding run push pop
push_twice = refl

abbrev script : List Op
script = local_push (bd 7) ∷ remote_pop ∷ local_pop ∷ remote_push (bd 3) ∷ local_pop ∷ []

run_refines_example :
    run mem queue script ≡ run_fifos 3 (outgoing mem queue) (incoming mem queue) script
run_refines_example = run_refines script mem-IsLinked mem_sound

abbrev request : QueueData
request = record {
  elem_size = 8;
  elem_num = 3;
  queue_type = pool_queue;
  push_addr = 100;
  pop_addr = 200;
}

no_interference_example :
    WritesOnly 100 mem (push mem queue (bd 7)).1
    × WritesOnly 100 mem (pop mem queue).2
    × WritesOnly 100 mem (init mem queue request).2
    × WritesOnly 100 mem (free mem queue).1
no_interference_example = no_interference mem queue request (bd 7)

request-IsProper : IsProper request
unfolding is_queue_type
request-IsProper = ground arith

init_resumes_example :
    let (s, q', m') = init mem queue request in
    (s ≡ ok) × IsLinked m' q' × (outgoing m' q' ≡ []) × (length (incoming m' q') ≡ 3)
init_resumes_example = init_resumes request-IsProper mem queue refl (omega arith) (omega arith)

-- A torn write while the other side is between calls, then a published element, then a pop that has
-- copied it while the next push is under way.
abbrev junk : ℕ → Bd
junk i = bd 99

interleaved_fifo_example : (bd 5 ∷ [] ≡ [] ++ (bd 5 ∷ [])) × (1 < 4)
interleaved_fifo_example = interleaved_fifo junk (omega arith) (omega arith) (
    then_step
      (then_step
        (then_step
          (then_step (then_step here (push_load (bd 5) refl))
            (push_check (bd 5) 0 refl (omega arith) (omega arith) (omega arith)))
          (push_tear (bd 5) (bd 77) 0 refl))
        (push_copy (bd 5) 0 refl))
      (push_publish (bd 5) 0 refl))

-- The push of `bd 6` has torn the slot that it writes while the pop of `bd 5` is behind its copy.
copied_is_oldest_example : (rest : List Bd) × (bd 5 ∷ [] ≡ [] ++ (bd 5 ∷ rest))
copied_is_oldest_example =
    copied_is_oldest {n = 4} {r = 0} junk (omega arith) (omega arith)
      (then_step
        (then_step
          (then_step
            (then_step
              (then_step
                (then_step
                  (then_step
                    (then_step
                      (then_step (then_step here (push_load (bd 5) refl))
                        (push_check (bd 5) 0 refl (omega arith) (omega arith) (omega arith)))
                      (push_copy (bd 5) 0 refl))
                    (push_publish (bd 5) 0 refl))
                  (pop_load refl))
                (pop_check 1 refl (omega arith) (omega arith) (omega arith)))
              (push_load (bd 6) refl))
            (push_check (bd 6) 1 refl (omega arith) (omega arith) (omega arith)))
          (push_tear (bd 6) (bd 77) 1 refl))
        (pop_copy 0 refl))
      refl

solo_push_example :
    Steps 4 (outward mem queue [] []) (outward (push mem queue (bd 7)).1 queue (bd 7 ∷ []) [])
unfolding push
solo_push_example = solo_push (bd 7) [] [] mem-IsLinked refl

solo_pop_example :
    Steps 4 (outward mem queue [] []) (outward (pop mem (mirror queue)).2 queue [] (bd 16 ∷ []))
unfolding pop check_integrity
solo_pop_example = solo_pop (bd 16) (pop mem (mirror queue)).2 [] [] mem-IsLinked refl refl
