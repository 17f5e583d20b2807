-- ===== src/Uio/Driver/Exclusive.antt =====
-- ipc_shm_uio_open() and ipc_shm_uio_release() of several tasks at once, at their atomic operations.
use ipc_shm.Common.{ℕ, ◌+◌, ◌%◌, ◌^◌, ◌≤◌, ◌<◌, ◌≡◌, ◌≢◌, refl, arith, ◌==◌, ==_of_eq, ==_false}
use native.Mathlib.Decide.{ℕ_discrete}
use ipc_shm.Uio.Driver.{atomic_dec, atomic_inc}

-- PID_MAX_LIMIT of Linux, a bound of the number of tasks
abbrev max_tasks : ℕ
max_tasks = 2 ^ 22

-- The counter of a UIO device, the tasks that have it open, and those between the two atomic
-- operations of an open that fails.
pub record Users : Type 0 where
  pub refcnt : ℕ
  pub holders : ℕ
  pub failing : ℕ

pub data Step : Users → Users → Type 0 where
  opens :
      {r h f : ℕ}
      → atomic_dec r ≡ 0
      → Step
          (record { refcnt = r; holders = h; failing = f })
          (record { refcnt = atomic_dec r; holders = h + 1; failing = f })
  fails :
      {r h f : ℕ}
      → atomic_dec r ≢ 0
      → f < max_tasks
      → Step
          (record { refcnt = r; holders = h; failing = f })
          (record { refcnt = atomic_dec r; holders = h; failing = f + 1 })
  gives_back :
      {r h f : ℕ}
      → Step
          (record { refcnt = r; holders = h; failing = f + 1 })
          (record { refcnt = atomic_inc r; holders = h; failing = f })
  releases :
      {r h f : ℕ}
      → Step
          (record { refcnt = r; holders = h + 1; failing = f })
          (record { refcnt = atomic_inc r; holders = h; failing = f })

pub data Run : Users → Users → Type 0 where
  done : {u : Users} → Run u u
  next : {u v w : Users} → Run u v → Step v w → Run u w

-- what ipc_uio_init() starts with
abbrev pub registered : Users
registered = record { refcnt = 1; holders = 0; failing = 0 }

record Inv (u : Users) : Type 0 where
  pub single : u.holders ≤ 1
  pub few : u.failing ≤ max_tasks
  pub counted : (u.refcnt + u.holders + u.failing) % 2 ^ 32 ≡ 1
  pub narrow : u.refcnt < 2 ^ 32

Step-Inv : {u v : Users} → Step u v → Inv u → Inv v
Step-Inv (opens {r} {h} {f} e) v = record {
  single = omega arith;
  few = v.few;
  counted = omega arith;
  narrow = omega arith;
}
Step-Inv (fails {r} {h} {f} ne lt) v = record {
  single = v.single;
  few = omega arith;
  counted = omega arith;
  narrow = omega arith;
}
Step-Inv (gives_back {r} {h} {f}) v = record {
  single = v.single;
  few = omega arith;
  counted = omega arith;
  narrow = omega arith;
}
Step-Inv (releases {r} {h} {f}) v = record {
  single = omega arith;
  few = v.few;
  counted = omega arith;
  narrow = omega arith;
}

run-Inv : {u : Users} → Run registered u → Inv u
run-Inv done = record {
  single = omega arith;
  few = omega arith;
  counted = refl;
  narrow = omega arith;
}
run-Inv (next r s) = Step-Inv s (run-Inv r)

-- However the opens and releases of a UIO device by fewer than 2^22 tasks interleave at their atomic
-- operations: at most one task has the device open, and the next open succeeds exactly if no task has
-- it open or is in the middle of an open that fails.
pub one_holder :
    {u : Users}
    → Run registered u
    → (u.holders ≤ 1) × ((atomic_dec u.refcnt == 0) ≡ (u.holders + u.failing == 0))
one_holder {u} r =
    let v = run-Inv r in
    (
      v.single,
      elim (ℕ_discrete (u.holders + u.failing) 0) [
        | yes e ↦
            let one : atomic_dec u.refcnt ≡ 0 = omega (arith, v.counted, v.narrow) in
            rw (==_of_eq _ _ e, ==_of_eq _ _ one) refl
        | no ne ↦
            let other : atomic_dec u.refcnt ≢ 0 =
              λ z. omega (arith, v.counted, v.narrow, v.few, v.single) in
            rw (==_false _ _ ne, ==_false _ _ other) refl
      ],
    )
