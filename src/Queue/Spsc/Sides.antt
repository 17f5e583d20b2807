-- ===== src/Queue/Spsc/Sides.antt =====
-- What the locals of both sides say about shared memory, and that each step of a side keeps it.
use ipc_shm.Common.{
  ℕ, ◌%◌, ◌^◌, ◌≤◌, ◌<◌, ◌≡◌, ◌≢◌, refl, ap, sym, ◌∙◌, List, [], ◌∷◌, ◌++◌, arith, update,
}
use mathlib.Core.List.{append_assoc}
use native.Mathlib.Numerals.{add-one}
use ipc_shm.Memory.{Bd, add_u32}
use ipc_shm.Queue.Window.{
  next, dist, increment, next-lt, dist-next_left, dist-next_right, between, window_snoc,
  window-update_out,
}
use ipc_shm.Queue.Spsc.{Pusher, Popper, State}

-- what the locals of ipc_queue_push() say about shared memory
abbrev pub PusherOk : ℕ → State → Pusher → Type 0
PusherOk n s Pusher.idle = Unit
PusherOk n s (Pusher.loaded b w) = w ≡ s.write
PusherOk n s (Pusher.checked b w) = (w ≡ s.write) × (next n s.write ≢ s.read)
PusherOk n s (Pusher.copied b w) = (w ≡ s.write) × (next n s.write ≢ s.read) × (s.slots s.write ≡ b)

-- what the locals of ipc_queue_pop() say about shared memory
abbrev pub PopperOk : ℕ → State → Popper → Type 0
PopperOk n s Popper.idle = Unit
PopperOk n s (Popper.loaded w) = (w < n) × (dist n s.read w ≤ dist n s.read s.write)
PopperOk n s (Popper.checked r) = (r ≡ s.read) × (s.read ≢ s.write)
PopperOk n s (Popper.copied r b) = (r ≡ s.read) × (s.read ≢ s.write) × (s.slots s.read ≡ b)

-- the elements that are published and not yet taken
abbrev pub pending : ℕ → State → List Bd
pending n s = between s.slots n s.read s.write

pub record Inv (n : ℕ) (s : State) : Type 0 where
  pub small : n ≤ 2 ^ 16
  pub write_in : s.write < n
  pub read_in : s.read < n
  pub fifo : s.sent ≡ s.received ++ pending n s
  pub push_ok : PusherOk n s s.pusher
  pub pop_ok : PopperOk n s s.popper

module _ {n : ℕ} {s : State} (v : Inv n s) where
  open v use {small, write_in, read_in, fifo, push_ok, pop_ok}

  pub at_pusher : {p : Pusher} → s.pusher ≡ p → PusherOk n s p
  at_pusher e = rw (← e) push_ok

  pub at_popper : {p : Popper} → s.popper ≡ p → PopperOk n s p
  at_popper e = rw (← e) pop_ok

  -- Loads, and calls that give up, only move one side.
  pub with_pusher : {p : Pusher} → PusherOk n s p → Inv n (record s { pusher = p })
  with_pusher h = record {
    small = small;
    write_in = write_in;
    read_in = read_in;
    fifo = fifo;
    push_ok = h;
    pop_ok = pop_ok;
  }

  pub with_popper : {p : Popper} → PopperOk n s p → Inv n (record s { popper = p })
  with_popper h = record {
    small = small;
    write_in = write_in;
    read_in = read_in;
    fifo = fifo;
    push_ok = push_ok;
    pop_ok = h;
  }

  pub check-Inv :
      (b : Bd) (w : ℕ)
      → s.pusher ≡ Pusher.loaded b w
      → add_u32 w 1 % n ≢ s.read
      → Inv n (record s { pusher = Pusher.checked b w })
  check-Inv b w e ne =
      with_pusher
        (at_pusher e, λ full. ne (rw (at_pusher e) (increment n s.write write_in small ∙ full)))

  pub take-Inv :
      (w : ℕ)
      → s.popper ≡ Popper.loaded w
      → s.read ≢ w
      → Inv n (record s { popper = Popper.checked s.read })
  take-Inv w e ne = with_popper (refl, ground (arith, at_popper e))

  popper-write :
      (b : Bd) (p' : Pusher) (p : Popper)
      → PopperOk n s p
      → PopperOk n (record s { slots = update s.slots s.write b; pusher = p' }) p
  popper-write b p' Popper.idle h = tt
  popper-write b p' (Popper.loaded w) h = h
  popper-write b p' (Popper.checked r) h = h
  popper-write b p' (Popper.copied r c) h = ground arith

  popper-publish :
      (b : Bd) (p : Popper)
      → next n s.write ≢ s.read
      → PopperOk n s p
      → PopperOk n
          (record s { write = next n s.write; pusher = Pusher.idle; sent = s.sent ++ (b ∷ []) })
          p
  popper-publish b Popper.idle ne h = tt
  popper-publish b (Popper.loaded w) ne h =
      (h.0, omega (arith, dist-next_right n s.read s.write read_in write_in ne, h.1))
  popper-publish b (Popper.checked r) ne h = (h.0, λ e. ne (sym e))
  popper-publish b (Popper.copied r c) ne h = (h.0, (λ e. ne (sym e)), h.2)

  pusher-receive :
      (p : Pusher)
      → s.read ≢ s.write
      → PusherOk n s p
      → PusherOk n
          (record s {
            read = next n s.read;
            popper = Popper.idle;
            received = s.received ++ (s.slots s.read ∷ []);
          })
          p
  pusher-receive Pusher.idle ne h = tt
  pusher-receive (Pusher.loaded b w) ne h = h
  pusher-receive (Pusher.checked b w) ne h = (h.0, ground arith)
  pusher-receive (Pusher.copied b w) ne h = (h.0, ground arith, h.2)

  -- A write to the slot that is not yet published touches nothing that the reader may take.
  pub write-Inv :
      (b : Bd) {p : Pusher}
      → next n s.write ≢ s.read
      → PusherOk n (record s { slots = update s.slots s.write b }) p
      → Inv n (record s { slots = update s.slots s.write b; pusher = p })
  write-Inv b {p} ne h = record {
    small = small;
    write_in = write_in;
    read_in = read_in;
    fifo =
        fifo
        ∙ ap (λ l. s.received ++ l)
            (sym (
              window-update_out s.slots n b s.read s.write (dist n s.read s.write) read_in write_in
                (omega arith)));
    push_ok = h;
    pop_ok = popper-write b p s.popper pop_ok;
  }

  pub publish-Inv :
      (b : Bd)
      → next n s.write ≢ s.read
      → s.slots s.write ≡ b
      → Inv n (record s { write = next n s.write; pusher = Pusher.idle; sent = s.sent ++ (b ∷ []) })
  publish-Inv b ne e = record {
    small = small;
    write_in = next-lt n s.write write_in;
    read_in = read_in;
    fifo =
        rw
          (
            dist-next_right n s.read s.write read_in write_in ne,
            add-one,
            window_snoc s.slots n s.read s.write (dist n s.read s.write) read_in write_in refl,
            e,
          )
          (ap (λ l. l ++ (b ∷ [])) fifo ∙ append_assoc s.received (pending n s) (b ∷ []));
    push_ok = tt;
    pop_ok = popper-publish b s.popper ne pop_ok;
  }

  pub receive-Inv :
      s.read ≢ s.write
      → Inv n (record s {
        read = next n s.read;
        popper = Popper.idle;
        received = s.received ++ (s.slots s.read ∷ []);
      })
  receive-Inv ne = record {
    small = small;
    write_in = write_in;
    read_in = next-lt n s.read read_in;
    fifo =
        fifo
        ∙ rw (sym (dist-next_left n s.read s.write read_in write_in ne), add-one)
            (sym (append_assoc s.received (s.slots s.read ∷ []) _));
    push_ok = pusher-receive s.pusher ne push_ok;
    pop_ok = tt;
  }
