-- ===== src/Queue/Spsc/Invariant.antt =====
-- Nothing is lost, doubled, reordered or torn between the two sides.
use ipc_shm.Common.{
  ℕ, ◌^◌, ◌≤◌, ◌<◌, ◌≡◌, refl, ap, sym, ◌∙◌, List, ◌∷◌, ◌++◌, arith, update_self, length,
}
use native.Mathlib.Numerals.{add-one}
use ipc_shm.Memory.{Bd}
use ipc_shm.Queue.Window.{next, dist, increment, dist-lt, dist-next_left, between, length-window}
use ipc_shm.Queue.Spsc.{
  Pusher, Popper, State, Step, push_load, push_refuse, push_check, push_tear, push_copy,
  push_publish, pop_load, pop_refuse, pop_check, pop_copy, pop_publish, Steps, here, then_step,
  fresh,
}
use ipc_shm.Queue.Spsc.Sides.{
  pending, Inv, at_pusher, at_popper, with_pusher, with_popper, check-Inv, take-Inv, write-Inv,
  publish-Inv, receive-Inv,
}

-- Every step of either side keeps the invariant.
pub Step-Inv : {n : ℕ} {s t : State} → Step n s t → Inv n s → Inv n t
Step-Inv (push_load b e) v = with_pusher v refl
Step-Inv (push_refuse b w e) v = with_pusher v tt
Step-Inv (push_check b w e hr hw ne) v = check-Inv v b w e ne
Step-Inv {s} (push_tear b junk w e) v =
    let ok = at_pusher v e in rw ok.0 (write-Inv v junk {p = s.pusher} ok.1 (rw e (ok.0, ok.1)))
Step-Inv {s} (push_copy b w e) v =
    let ok = at_pusher v e in
    rw ok.0
      (write-Inv v b {p = Pusher.copied b s.write} ok.1 (refl, ok.1, update_self s.slots s.write b))
Step-Inv {n} {s} (push_publish b w e) v =
    let ok = at_pusher v e in
    rw (ok.0, increment n s.write v.write_in v.small) (publish-Inv v b ok.1 ok.2)
Step-Inv (pop_load e) v = with_popper v (v.write_in, omega arith)
Step-Inv (pop_refuse w e) v = with_popper v tt
Step-Inv (pop_check w e hr hw ne) v = take-Inv v w e ne
Step-Inv (pop_copy r e) v = let ok = at_popper v e in with_popper v (ok.0, ok.1, rw ok.0)
Step-Inv {n} {s} (pop_publish r b e) v =
    let ok = at_popper v e in
    rw (ok.0, increment n s.read v.read_in v.small, ← ok.2) (receive-Inv v ok.1)

pub Steps-Inv : {n : ℕ} {s t : State} → Steps n s t → Inv n s → Inv n t
Steps-Inv here v = v
Steps-Inv (then_step r st) v = Step-Inv st (Steps-Inv r v)

pub fresh-Inv : (n : ℕ) (slots : ℕ → Bd) → 0 < n → n ≤ 2 ^ 16 → Inv n (fresh slots)
fresh-Inv n slots pos small = record {
  small = small;
  write_in = pos;
  read_in = pos;
  fifo = refl;
  push_ok = tt;
  pop_ok = tt;
}

-- However the accesses of one pushing and one popping side interleave, starting from initialized
-- empty rings of 0 < n slots, n at most 2 ^ 16: what has been received, followed by the published
-- elements between the two indices, is exactly what has been sent, in order; and fewer than n
-- elements wait.
pub interleaved_fifo :
    {n : ℕ} (slots : ℕ → Bd) {s : State}
    → 0 < n
    → n ≤ 2 ^ 16
    → Steps n (fresh slots) s
    → (s.sent ≡ s.received ++ pending n s) × (length (pending n s) < n)
interleaved_fifo {n} slots {s} pos small r =
    let v = Steps-Inv r (fresh-Inv n slots pos small) in
    (
      v.fifo,
      rw (length-window s.slots n s.read (dist n s.read s.write))
          (dist-lt n s.read s.write v.read_in v.write_in),
    )

-- Whenever ipc_queue_pop() has copied an element, however the other side has moved meanwhile, it is
-- the oldest one that was sent and not received: memcpy() never reads a slot that is being written.
pub copied_is_oldest :
    {n r : ℕ} {b : Bd} (slots : ℕ → Bd) {s : State}
    → 0 < n
    → n ≤ 2 ^ 16
    → Steps n (fresh slots) s
    → s.popper ≡ Popper.copied r b
    → (rest : List Bd) × (s.sent ≡ s.received ++ (b ∷ rest))
copied_is_oldest {n} {r} {b} slots {s} pos small st e =
    let v = Steps-Inv st (fresh-Inv n slots pos small) in
    let ok = at_popper v e in
    (
      between s.slots n (next n s.read) s.write,
      v.fifo
          ∙ ap (λ l. s.received ++ l)
              (rw
                (sym (dist-next_left n s.read s.write v.read_in v.write_in ok.1), add-one, ← ok.2)),
    )
