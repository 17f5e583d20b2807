-- ===== src/Shm/Ledger/Owners.antt =====
-- Where a single buffer can be, and that the queues have room for every buffer.
use ipc_shm.Common.{
  ℕ, ◌+◌, ◌-◌, ◌%◌, ◌^◌, ◌≤◌, ◌<◌, ◌≡◌, ◌≢◌, refl, ap, ◌∙◌, arith, List, [], ◌∷◌, ◌++◌, inl, inr,
  length,
}
use ipc_shm.Types.{Status, ok}
use ipc_shm.Memory.{Bd}
use ipc_shm.Queue.Fifo.{outgoing, incoming, enqueue, enqueue-cases, mirror-IsLinked, mirror}
use ipc_shm.Shm.State.{World, Platform, App, ManagedChannel}
use ipc_shm.Shm.Buffers.{from_local, from_remote, tx, release_buf}
use ipc_shm.Shm.Buffers.Pools.{buf_at}
use ipc_shm.Shm.Buffers.Transfer.{tx_enqueues, release_enqueues}
use ipc_shm.Shm.Rx.Drain.{Quiet}
use ipc_shm.Shm.Ledger.{Circuit, Buf, Sys, bufs, free_bufs, all_free, weigh, Run, Near, Far}
use ipc_shm.Shm.Ledger.Weights.{weigh-append, weigh-between}
use ipc_shm.Shm.Ledger.Effects.{AllLinked}
use ipc_shm.Shm.Ledger.Conservation.{
  total, total_parts, Consistent, Conserved, buffers-Conserved, held_valid, got_valid, invalid,
}
use ipc_shm.Shm.Ledger.Fresh.{
  Fresh, num_all, one, in_pool, is_buf, all_free-has, fresh_in_pool, fresh_is_buf, fresh_num,
  Fresh-Consistent,
}

count-bufs : (l : List Bd) → weigh one (bufs l) ≡ length l
unfolding weigh bufs
count-bufs [] = refl
count-bufs (x ∷ l) = omega (arith, count-bufs l)

count-free_bufs : (k : ℕ) (l : List Bd) → weigh (in_pool k) (free_bufs k l) ≡ length l
unfolding weigh free_bufs
count-free_bufs k [] = refl
count-free_bufs k (x ∷ l) = ground (arith, count-free_bufs k l)

-- A queue with room takes what is offered.
taken_if_room :
    (cap : ℕ) (l : List Bd) (bd : Bd) (r : Status × List Bd)
    → r ≡ enqueue cap l bd
    → length l < cap
    → r.0 ≡ ok
taken_if_room cap l bd r e room = elim (enqueue-cases cap l bd) [
  | inl (full, x) ↦ absurd (omega arith)
  | inr (_, x) ↦ rw (e, x) refl
]

-- The channel has a slot for every buffer, and so has each pool for its own.
pub record Roomy (ch : ManagedChannel) : Type 0 where
  pub of_channel : num_all ch 0 ch.num_pools < ch.bd_queue.elem_num
  pub of_pools : (k : ℕ) → k < ch.num_pools → (ch.pools k).num_bufs < (ch.pools k).bd_queue.elem_num

module _ {S T : Type 0} (P : Platform S) (Q : Platform T) {ch far : ManagedChannel}
    (C : Circuit ch far) {A : App T} (quiet : Quiet Q A) (s s' : Sys) (F : Fresh ch s)
    (R : Run P Q ch far A s s') where
  kept : Conserved ch s s'
  kept = buffers-Conserved P Q C quiet s s' (Fresh-Consistent F) R

  reached : Consistent ch s'
  reached = record {
    linked = kept.linked;
    valid = kept.same (invalid ch) ∙ (Fresh-Consistent F).valid;
  }

  -- From a state in which the queues are linked, every buffer of each pool is free, once, in the
  -- queue of its pool, and no buffer is anywhere else, and however the two cores use the channel
  -- from there: a buffer that the sender holds is held once, and it is neither free nor on its way
  -- nor with the receiver. The conditions on the calls: the sender calls where the remote side is
  -- ready, the channel passes its integrity check, and its local memory covers every buffer of the
  -- channel, so that no bounds check of ipc_shm_acquire_buf() fails; the receiver where its
  -- instance is in use, the channel passes its check, and the remote memory covers every buffer;
  -- its callbacks do not touch the memory, the tables of the driver or the address of the remote
  -- memory; and the two ends have the same pools, with mirrored queues that share no ring, in which
  -- every number below the size of a pool is that of a buffer.
  pub one_owner :
      (l r : List Buf) (b : Buf)
      → s'.held ≡ l ++ (b ∷ r)
      → (weigh (is_buf b) (l ++ r) ≡ 0)
        × (weigh (is_buf b) (all_free s'.mem ch 0 ch.num_pools) ≡ 0)
        × (weigh (is_buf b) (bufs (outgoing s'.mem ch.bd_queue)) ≡ 0)
        × (weigh (is_buf b) s'.got ≡ 0)
  one_owner l r b e =
      let g : Buf → ℕ = is_buf b in
      let valid = held_valid ch s' reached l r b e in
      let once : total g ch s' ≤ 1 = omega (arith, kept.same g, fresh_is_buf F b valid.0) in
      let it : g b ≡ 1 = ground arith in
      let held : weigh g s'.held ≡ weigh g (l ++ r) + 1 =
        omega (arith, ap (weigh g) e, weigh-between g l r b, weigh-append g l r, it) in
      let parts = total_parts g ch s' in
      (
        omega (arith, once, held, parts),
        omega (arith, once, held, parts),
        omega (arith, once, held, parts),
        omega (arith, once, held, parts),
      )

  -- From a state in which the queues are linked, every buffer of each pool is free, once, in the
  -- queue of its pool, and no buffer is anywhere else, however the two cores use the channel from
  -- there, and with a slot in the queue of the channel for every buffer and in that of each pool
  -- for each of its buffers: ipc_shm_tx() of a buffer that the sender holds, with a size other than
  -- 0, returns 0 where it meets the conditions on the sender below. So it is never refused for a
  -- full queue. The conditions on the calls: the sender calls where the remote side is ready, the
  -- channel passes its integrity check, and its local memory covers every buffer of the channel, so
  -- that no bounds check of ipc_shm_acquire_buf() fails; the receiver where its instance is in use,
  -- the channel passes its check, and the remote memory covers every buffer; its callbacks do not
  -- touch the memory, the tables of the driver or the address of the remote memory; and the two
  -- ends have the same pools, with mirrored queues that share no ring, in which every number below
  -- the size of a pool is that of a buffer.
  pub tx_accepted :
      Roomy ch
      → (w : World S) (i c size : ℕ) (l r : List Buf) (b : Buf) → Near P ch s'.mem w i (c % 2 ^ 8)
      → size ≢ 0
      → s'.held ≡ l ++ (b ∷ r)
      → (tx P w i c (buf_at from_local (ch.pools b.pool) b.number) size).0 ≡ ok
  tx_accepted room w i c size l r b N ne e =
      let valid = held_valid ch s' reached l r b e in
      let linked : AllLinked w.mem ch = rw N.same reached.linked in
      let o =
        tx_enqueues P w i c size ch b.pool b.number N.ready N.here N.sound linked.of_channel
          (C.near b.pool b.number valid.0 valid.1) ne in
      taken_if_room (ch.bd_queue.elem_num - 1) (outgoing w.mem ch.bd_queue) _ _ o.queued (
        rw N.same (
          omega (
            arith,
            count-bufs (outgoing s'.mem ch.bd_queue),
            ap (weigh one) e,
            weigh-between one l r b,
            total_parts one ch s',
            kept.same one,
            fresh_num F,
            room.of_channel,
          )))

  -- From a state in which the queues are linked, every buffer of each pool is free, once, in the
  -- queue of its pool, and no buffer is anywhere else, however the two cores use the channel from
  -- there, and with a slot in the queue of the channel for every buffer and in that of each pool
  -- for each of its buffers: ipc_shm_release_buf() of a buffer that the receiver has got returns 0
  -- where it meets the conditions on the receiver below. So it is never refused for a full queue.
  -- The conditions on the calls: the sender calls where the remote side is ready, the channel
  -- passes its integrity check, and its local memory covers every buffer of the channel, so that no
  -- bounds check of ipc_shm_acquire_buf() fails; the receiver where its instance is in use, the
  -- channel passes its check, and the remote memory covers every buffer; its callbacks do not touch
  -- the memory, the tables of the driver or the address of the remote memory; and the two ends have
  -- the same pools, with mirrored queues that share no ring, in which every number below the size
  -- of a pool is that of a buffer.
  pub release_accepted :
      Roomy ch
      → (w : World T) (i c : ℕ) (l r : List Buf) (b : Buf) → Far Q far s'.mem w i c
      → s'.got ≡ l ++ (b ∷ r)
      → (release_buf w i c (buf_at from_remote (far.pools b.pool) b.number)).0 ≡ ok
  release_accepted room w i c l r b N e =
      let valid = got_valid ch s' reached l r b e in
      let bd : Bd = record { pool_id = b.pool; buf_id = b.number; data_size = 0 } in
      let q = (ch.pools b.pool).bd_queue in
      let g : Buf → ℕ = in_pool b.pool in
      let same = C.pool_mirrored b.pool valid.0 in
      let linked : AllLinked w.mem ch = rw N.same reached.linked in
      let o =
        release_enqueues w i c far bd N.live N.here N.sound
          (rw same (mirror-IsLinked (linked.of_pools b.pool valid.0)))
          (C.remote b.pool b.number valid.0 valid.1) in
      let it : g b ≡ 1 = ground arith in
      taken_if_room (q.elem_num - 1) (outgoing w.mem (mirror q)) _ _ (rw same at o.queued) (
        rw N.same (
          omega (
            arith,
            count-free_bufs b.pool (incoming s'.mem q),
            all_free-has g s'.mem ch b.pool 0 ch.num_pools (omega arith) (omega (arith, valid.0)),
            ap (weigh g) e,
            weigh-between g l r b,
            it,
            total_parts g ch s',
            kept.same g,
            fresh_in_pool F b.pool valid.0,
            room.of_pools b.pool valid.0,
          )))
