-- ===== src/Queue/Spsc.antt =====
-- One direction of a queue while both sides run: ipc_queue_push() on one core and ipc_queue_pop()
-- on the other, interleaved at their accesses to shared memory (the volatile indices and memcpy).
-- One thread pushes and one pops, as the header of ipc-queue.h asks; both rings are initialized.
pub mod Sides
pub mod Invariant
pub mod Solo
use ipc_shm.Common.{ℕ, ◌+◌, ◌%◌, ◌<◌, ◌≡◌, ◌≢◌, List, [], ◌∷◌, ◌++◌, update}
use ipc_shm.Memory.{Bd, add_u32}

-- Where ipc_queue_push() stands: between calls; with `write` loaded; with `read` loaded and all
-- checks passed; behind memcpy().
pub data Pusher : Type 0 where
  idle : Pusher
  loaded checked copied : Bd → ℕ → Pusher

-- Where ipc_queue_pop() stands: between calls; with `write` loaded; with `read` loaded and all checks
-- passed; behind memcpy(), with the element that was read.
pub data Popper : Type 0 where
  idle : Popper
  loaded : ℕ → Popper
  checked : ℕ → Popper
  copied : ℕ → Bd → Popper

-- `sent` and `received` are what the calls that returned 0 have pushed and popped, oldest first.
pub record State : Type 0 where
  pub write : ℕ
  pub read : ℕ
  pub slots : ℕ → Bd
  pub pusher : Pusher
  pub popper : Popper
  pub sent : List Bd
  pub received : List Bd

-- A step of either side. `tear` is a part of memcpy(): the slot may hold anything until it is done.
pub data Step (n : ℕ) (s : State) : State → Type 0 where
  push_load :
      (b : Bd) → s.pusher ≡ Pusher.idle → Step n s (record s { pusher = Pusher.loaded b s.write })
  push_refuse :
      (b : Bd) (w : ℕ) → s.pusher ≡ Pusher.loaded b w → Step n s (record s { pusher = Pusher.idle })
  push_check :
      (b : Bd) (w : ℕ)
      → s.pusher ≡ Pusher.loaded b w
      → s.read < n
      → w < n
      → add_u32 w 1 % n ≢ s.read
      → Step n s (record s { pusher = Pusher.checked b w })
  push_tear :
      (b junk : Bd) (w : ℕ)
      → s.pusher ≡ Pusher.checked b w
      → Step n s (record s { slots = update s.slots w junk })
  push_copy :
      (b : Bd) (w : ℕ)
      → s.pusher ≡ Pusher.checked b w
      → Step n s (record s { slots = update s.slots w b; pusher = Pusher.copied b w })
  push_publish :
      (b : Bd) (w : ℕ)
      → s.pusher ≡ Pusher.copied b w
      → Step n s
          (record s { write = add_u32 w 1 % n; pusher = Pusher.idle; sent = s.sent ++ (b ∷ []) })
  pop_load : s.popper ≡ Popper.idle → Step n s (record s { popper = Popper.loaded s.write })
  pop_refuse : (w : ℕ) → s.popper ≡ Popper.loaded w → Step n s (record s { popper = Popper.idle })
  pop_check :
      (w : ℕ)
      → s.popper ≡ Popper.loaded w
      → s.read < n
      → w < n
      → s.read ≢ w
      → Step n s (record s { popper = Popper.checked s.read })
  pop_copy :
      (r : ℕ)
      → s.popper ≡ Popper.checked r
      → Step n s (record s { popper = Popper.copied r (s.slots r) })
  pop_publish :
      (r : ℕ) (b : Bd)
      → s.popper ≡ Popper.copied r b
      → Step n s (record s {
        read = add_u32 r 1 % n;
        popper = Popper.idle;
        received = s.received ++ (b ∷ []);
      })

pub data Steps (n : ℕ) (s : State) : State → Type 0 where
  here : Steps n s s
  then_step : {t u : State} → Steps n s t → Step n t u → Steps n s u

-- Both sides between calls, the rings just initialized by ipc_queue_init().
abbrev pub fresh : (ℕ → Bd) → State
fresh slots = record {
  write = 0;
  read = 0;
  slots = slots;
  pusher = Pusher.idle;
  popper = Popper.idle;
  sent = [];
  received = [];
}
