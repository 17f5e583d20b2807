-- ===== src/Queue/Pipe.antt =====
-- What the rings of a queue carry in each direction, and what a push and a pop do to it.
use ipc_shm.Common.{
  ℕ, ◌-◌, ◌*◌, ◌^◌, ◌≤◌, ◌<◌, ◌≡◌, ◌≢◌, refl, ap, ◌∙◌, sym, none, some, List, [], ◌∷◌, ◌++◌, arith,
  update, update_self, update_ne, length, ◌↔◌,
}
use mathlib.Core.Path.{fun_ext, ap₂}
use native.Mathlib.Numerals.{add-one}
use ipc_shm.Types.{ok, enomem, enobufs}
use ipc_shm.Memory.{Bd, Ring, Mem, null, put_ring}
use ipc_shm.Queue.{IpcQueue, check_integrity, pop, push}
use ipc_shm.Queue.Window.{
  next, dist, increment, next-lt, dist-next_left, dist-next_right, dist_self, between,
  window-update, length-window,
}

-- The remote endpoint of the same two rings.
abbrev pub mirror : IpcQueue → IpcQueue
mirror q = record q { push_ring = q.pop_ring; pop_ring = q.push_ring }

-- the elements of a ring by their index
abbrev pub slots : IpcQueue → Ring → ℕ → Bd
slots q r i = r.content (i * q.elem_size)

-- what the owner of the ring `w` has pushed and the owner of `r` has not popped
abbrev pub pipe : IpcQueue → Ring → Ring → List Bd
pipe q w r = between (slots q w) q.elem_num r.read w.write

-- What the local side has pushed and the remote side has not popped, oldest first. The read index
-- stands in the reader's ring.
abbrev pub outgoing : Mem → IpcQueue → List Bd
outgoing m q = pipe q (m.rings q.push_ring) (m.rings q.pop_ring)

-- What the remote side has pushed and the local side has not popped.
abbrev pub incoming : Mem → IpcQueue → List Bd
incoming m q = outgoing m (mirror q)

pub record IsLinked (m : Mem) (q : IpcQueue) : Type 0 where
  pub push_ne_null : q.push_ring ≢ null
  pub pop_ne_null : q.pop_ring ≢ null
  pub apart : q.push_ring ≢ q.pop_ring
  pub sized : 0 < q.elem_size
  pub small : q.elem_num ≤ 2 ^ 16
  pub push_write : (m.rings q.push_ring).write < q.elem_num
  pub push_read : (m.rings q.push_ring).read < q.elem_num
  pub pop_write : (m.rings q.pop_ring).write < q.elem_num
  pub pop_read : (m.rings q.pop_ring).read < q.elem_num

pub mirror-IsLinked : {m : Mem} {q : IpcQueue} → IsLinked m q → IsLinked m (mirror q)
mirror-IsLinked v = ground arith

offset-injective : (i j size : ℕ) → 0 < size → i * size ≡ j * size → i ≡ j
offset-injective i j size pos e = grind arith

pub slots-update :
    (q : IpcQueue) (r : Ring) (w : ℕ) (b : Bd)
    → 0 < q.elem_size
    → slots q (record r { content = update r.content (w * q.elem_size) b }) ≡ update (slots q r) w b
slots-update q r w b pos = fun_ext λ i.
    ground
      (arith, offset-injective w i q.elem_size pos, ap (λ (t : ℕ). t * q.elem_size) {x = w} {y = i})

-- the ring after a successful push, or pop, of its writer
abbrev pub pushed : IpcQueue → Ring → Bd → Ring
pushed q r b = record r {
  content = update r.content (r.write * q.elem_size) b;
  write = next q.elem_num r.write;
}

abbrev pub popped : IpcQueue → Ring → Ring
popped q r = record r { read = next q.elem_num r.read }

pub length-pipe : (q : IpcQueue) (w r : Ring) → length (pipe q w r) ≡ dist q.elem_num r.read w.write
length-pipe q w r = length-window (slots q w) q.elem_num r.read (dist q.elem_num r.read w.write)

pub pipe-empty : (q : IpcQueue) (w r : Ring) → r.read ≡ w.write → pipe q w r ≡ []
pipe-empty q w r e = rw (e, dist_self q.elem_num w.write)

pub pipe-pushed :
    (q : IpcQueue) (w r : Ring) (b : Bd)
    → 0 < q.elem_size
    → w.write < q.elem_num
    → r.read < q.elem_num
    → next q.elem_num w.write ≢ r.read
    → pipe q (pushed q w b) r ≡ pipe q w r ++ (b ∷ [])
pipe-pushed q w r b sized hw hr ne =
    rw
      (
        dist-next_right q.elem_num r.read w.write hr hw ne,
        slots-update q w w.write b sized,
        add-one,
      )
      (window-update (slots q w) q.elem_num b r.read w.write (dist q.elem_num r.read w.write) hr hw
        refl)

pub pipe-popped :
    (q : IpcQueue) (w r : Ring)
    → w.write < q.elem_num
    → r.read < q.elem_num
    → r.read ≢ w.write
    → pipe q w r ≡ slots q w r.read ∷ pipe q w (popped q r)
pipe-popped q w r hw hr ne = rw (sym (dist-next_left q.elem_num r.read w.write hr hw ne), add-one)

module _ {m : Mem} {q : IpcQueue} (v : IsLinked m q) where
  open v use {
    push_ne_null, pop_ne_null, apart, sized, small, push_write, push_read, pop_write, pop_read,
  }

  abbrev pub own : Ring
  own = m.rings q.push_ring

  abbrev pub theirs : Ring
  theirs = m.rings q.pop_ring

  pub push-full : (b : Bd) → next q.elem_num own.write ≡ theirs.read → push m q b ≡ (enomem, m)
  unfolding push
  push-full b e = ground (arith, increment q.elem_num own.write push_write small)

  pub push-room :
      (b : Bd)
      → next q.elem_num own.write ≢ theirs.read
      → push m q b ≡ (ok, put_ring m q.push_ring (pushed q own b))
  unfolding push
  push-room b ne = ground (arith, increment q.elem_num own.write push_write small)

  pub pop-empty : check_integrity m q ≡ ok → own.read ≡ theirs.write → pop m q ≡ (enobufs, none, m)
  unfolding pop
  pop-empty sound e = ground (arith)

  pub pop-some :
      check_integrity m q ≡ ok
      → own.read ≢ theirs.write
      → pop m q ≡ (ok, some (slots q theirs own.read), put_ring m q.push_ring (popped q own))
  unfolding pop
  pop-some sound ne = ground (arith, increment q.elem_num own.read push_read small)

  pub rings_own : (r : Ring) → (put_ring m q.push_ring r).rings q.push_ring ≡ r
  rings_own r = update_self m.rings q.push_ring r

  pub rings_other : (r : Ring) → (put_ring m q.push_ring r).rings q.pop_ring ≡ theirs
  rings_other r = update_ne m.rings q.push_ring q.pop_ring r apart

  pub length-outgoing : length (outgoing m q) ≡ dist q.elem_num theirs.read own.write
  length-outgoing = length-pipe q own theirs

  pub outgoing-pushed :
      (b : Bd)
      → next q.elem_num own.write ≢ theirs.read
      → outgoing (put_ring m q.push_ring (pushed q own b)) q ≡ outgoing m q ++ (b ∷ [])
  outgoing-pushed b ne =
      ap₂ (pipe q) (rings_own (pushed q own b)) (rings_other (pushed q own b))
      ∙ pipe-pushed q own theirs b sized push_write pop_read ne

  pub incoming-pushed :
      (b : Bd) → incoming (put_ring m q.push_ring (pushed q own b)) q ≡ incoming m q
  incoming-pushed b = ap₂ (pipe q) (rings_other (pushed q own b)) (rings_own (pushed q own b))

  pub incoming-empty : own.read ≡ theirs.write → incoming m q ≡ []
  incoming-empty e = pipe-empty q theirs own e

  pub incoming-popped :
      own.read ≢ theirs.write
      → incoming m q ≡ slots q theirs own.read ∷ incoming (put_ring m q.push_ring (popped q own)) q
  incoming-popped ne =
      pipe-popped q theirs own pop_write push_read ne
      ∙ ap (λ l. slots q theirs own.read ∷ l)
          (sym (ap₂ (pipe q) (rings_other (popped q own)) (rings_own (popped q own))))

  pub outgoing-popped : outgoing (put_ring m q.push_ring (popped q own)) q ≡ outgoing m q
  outgoing-popped = ap₂ (pipe q) (rings_own (popped q own)) (rings_other (popped q own))

  pub pushed-IsLinked : (b : Bd) → IsLinked (put_ring m q.push_ring (pushed q own b)) q
  pushed-IsLinked b = ground (arith, next-lt q.elem_num own.write push_write)

  pub popped-IsLinked : IsLinked (put_ring m q.push_ring (popped q own)) q
  popped-IsLinked = ground (arith, next-lt q.elem_num own.read push_read)

  pub is_full : (length (outgoing m q) ≡ q.elem_num - 1) ↔ (next q.elem_num own.write ≡ theirs.read)
  is_full = (λ e. ground (arith, length-outgoing), λ e. ground (arith, length-outgoing))
