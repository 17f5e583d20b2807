-- ===== src/Shm/Delivery.antt =====
-- From ipc_shm_tx() on one side to the callbacks on the other.
use ipc_shm.Common.{ℕ, ◌≡◌, List, [], length, inl, inr, Bool-cases}
use ipc_shm.Types.{ok}
use ipc_shm.Memory.{Bd, Mem}
use ipc_shm.Queue.{check_integrity, is_ok}
use ipc_shm.Queue.Fifo.{incoming}
use ipc_shm.Shm.State.{World, Platform, App, ManagedChannel, channel}
use ipc_shm.Shm.Lookup.{check_mchan_integrity}
use ipc_shm.Shm.Buffers.Transfer.{ok_of_is_ok}
use ipc_shm.Shm.Rx.Drain.{Quiet, calls}

pub queue_ok :
    (m : Mem) (ch : ManagedChannel)
    → check_mchan_integrity m ch ≡ ok
    → check_integrity m ch.bd_queue ≡ ok
unfolding check_mchan_integrity
queue_ok m ch e = elim (Bool-cases (is_ok (check_integrity m ch.bd_queue))) [
  | inl good ↦ ok_of_is_ok _ good
  | inr bad ↦ absurd (cc (rw bad at e))
]

-- What the receiver of `l` with enough budget has done.
pub record Received {S : Type 0} {P : Platform S} {A : App S} (quiet : Quiet P A) (v : World S)
    (j d : ℕ) (l : List Bd) (r : ℕ × World S) : Type 0 where
  pub work : r.0 ≡ length l
  pub emptied : incoming r.1.mem (channel v j d).mng.bd_queue ≡ []
  pub called : r.1.plat ≡ calls quiet v.priv (P.os_get_remote_shm v.plat j) j d l v.plat
