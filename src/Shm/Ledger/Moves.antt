-- ===== src/Shm/Ledger/Moves.antt =====
-- Where the calls of ipc-shm.c move a buffer: ipc_shm_acquire_buf() from the free ones to its caller,
-- ipc_shm_tx() onto its way, ipc_channel_rx() to the receiver, ipc_shm_release_buf() back.
use ipc_shm.Common.{
  ℕ, ◌+◌, ◌-◌, ◌%◌, ◌^◌, ◌<◌, ◌≡◌, ◌≢◌, refl, sym, ap, ◌∙◌, arith, some, none, List, [], ◌∷◌, ◌++◌,
  inl, inr, if◌then◌else◌, Option,
}
use ipc_shm.Types.{Status}
use ipc_shm.Memory.{Bd, Mem, null}
use ipc_shm.Queue
use ipc_shm.Queue.{IpcQueue, is_ok}
use ipc_shm.Queue.Fifo.{
  IsLinked, mirror, mirror-IsLinked, outgoing, incoming, enqueue, enqueue-cases, pop_refines,
}
use ipc_shm.Queue.Frame.{push-WritesOnly, pop-WritesOnly}
use ipc_shm.Shm.State.{World, Platform, App, ManagedChannel, channel}
use ipc_shm.Shm.Buffers.{from_local, from_remote, acquire_buf, acquired, tx, release_buf}
use ipc_shm.Shm.Buffers.Pools.{buf_at}
use ipc_shm.Shm.Buffers.Transfer.{IsBuffer, Offered, tx_enqueues, release_enqueues}
use ipc_shm.Shm.Buffers.Acquire.{FirstFit, pools_ok, acquire_buf_first_fit}
use ipc_shm.Shm.Rx.{channel_rx}
use ipc_shm.Shm.Rx.Drain.{Quiet, channel_rx_drains}
use ipc_shm.Shm.Delivery.{queue_ok}
use ipc_shm.Shm.Ledger.{Circuit, Buf, bufs, free_bufs, Near, Far, take, weigh, FreeValid}
use ipc_shm.Shm.Ledger.Weights.{
  weigh-free_bufs-cons, weigh-free_bufs-snoc, weigh-bufs-snoc, weigh-bufs-take,
}
use ipc_shm.Shm.Ledger.Effects.{
  AllLinked, Moved, Moved-from, nothing-Moved, channel_written, pool_written, one_address,
}

-- What an offered descriptor weighs in its queue.
offered_weight :
    (f : List Bd → ℕ) (g : ℕ) (cap : ℕ) (l : List Bd) (bd : Bd) (r : Status × List Bd)
    → r ≡ enqueue cap l bd
    → f (l ++ (bd ∷ [])) ≡ f l + g
    → f r.1 + 0 ≡ f l + (if is_ok r.0 then g else 0)
offered_weight f g cap l bd r e more = elim (enqueue-cases cap l bd) [
  | inl (full, x) ↦ rw (e, x) refl
  | inr (room, x) ↦ rw (e, x) (omega (arith, more))
]

module _ {S : Type 0} (P : Platform S) {ch far : ManagedChannel} (C : Circuit ch far) where
  module _ {m : Mem} (L : AllLinked m ch) {w : World S} {i c : ℕ} (N : Near P ch m w i c) where
    near_linked : AllLinked w.mem ch
    near_linked = rw N.same L

    acquired_addr :
        (k : ℕ) (bd : Bd)
        → IsBuffer ch from_local k bd.buf_id
        → acquired P w i ch (some (k, bd)) ≡ buf_at from_local (ch.pools k) bd.buf_id
    unfolding acquired
    acquired_addr k bd b = rw (N.covered k bd.buf_id b) refl

    -- The pool `j` has given its oldest free buffer.
    pool_gives :
        (f : Buf → ℕ) (j : ℕ) (bd : Bd) (m' : Mem)
        → j < ch.num_pools
        → incoming w.mem (ch.pools j).bd_queue ≡ bd ∷ incoming m' (ch.pools j).bd_queue
        → m' ≡ (Queue.pop w.mem (ch.pools j).bd_queue).2
        → Moved f ch w.mem m' (f (record { pool = j; number = bd.buf_id })) 0 0 0
    pool_gives f j bd m' lt taken popped =
        let q = (ch.pools j).bd_queue in
        let sound = pools_ok w.mem ch N.sound j (omega arith) (omega (arith, lt)) in
        let after = (pop_refines (near_linked.of_pools j lt) sound).2 in
        pool_written C near_linked f q.push_ring (f (record { pool = j; number = bd.buf_id })) 0 j
          lt (inl refl) (rw popped (pop-WritesOnly w.mem q)) (rw popped after)
          (rw taken (omega (arith, weigh-free_bufs-cons f j bd (incoming m' q))))

    -- What a search among the pools has taken, when the caller got the buffer `b`.
    taken_moves :
        (f : Buf → ℕ) (size : ℕ) (b : Buf) (choice : Option (ℕ × Bd)) (m' : Mem)
        → FreeValid w.mem ch
        → IsBuffer ch from_local b.pool b.number
        → FirstFit w.mem ch size 0 ch.num_pools (choice, m')
        → acquired P w i ch choice ≡ buf_at from_local (ch.pools b.pool) b.number
        → Moved f ch w.mem m' (f b) 0 0 0
    unfolding FirstFit acquired FreeValid
    taken_moves f size b none m' valid buf fit e = absurd (buf.ne_null (sym e))
    taken_moves f size b (some (j, bd)) m' valid buf fit e =
        let lt : j < ch.num_pools = omega (arith, fit.within) in
        let buf' = C.near j bd.buf_id lt (valid j bd _ lt fit.taken) in
        let same = one_address buf' buf (sym (acquired_addr j bd buf') ∙ e) in
        let is_b : record { pool = j; number = bd.buf_id } ≡ b = cc (same.0, same.1) in
        rw is_b at (pool_gives f j bd m' lt fit.taken fit.popped)

    -- When the caller got null, nothing was taken.
    none_taken :
        (f : Buf → ℕ) (size : ℕ) (choice : Option (ℕ × Bd)) (m' : Mem)
        → FreeValid w.mem ch
        → FirstFit w.mem ch size 0 ch.num_pools (choice, m')
        → acquired P w i ch choice ≡ null
        → Moved f ch w.mem m' 0 0 0 0
    unfolding FirstFit acquired FreeValid
    none_taken f size none m' valid fit e = nothing-Moved C near_linked f fit.0
    none_taken f size (some (j, bd)) m' valid fit e =
        let lt : j < ch.num_pools = omega (arith, fit.within) in
        let buf' = C.near j bd.buf_id lt (valid j bd _ lt fit.taken) in
        absurd (buf'.ne_null (sym (acquired_addr j bd buf') ∙ e))

    pub acquire_moves :
        (f : Buf → ℕ) (size : ℕ) (b : Buf)
        → FreeValid m ch
        → size ≢ 0
        → b.pool < ch.num_pools
        → b.number < (ch.pools b.pool).num_bufs
        → (acquire_buf P w i c size).0 ≡ buf_at from_local (ch.pools b.pool) b.number
        → Moved f ch m (acquire_buf P w i c size).1.mem (f b) 0 0 0
    acquire_moves f size b valid some_size pool number e =
        let r =
          acquire_buf_first_fit P w i c size ch N.ready N.here N.sound
            (λ h le lt. near_linked.of_pools h (omega (arith, lt))) some_size in
        Moved-from N.same (
          taken_moves f size b r.choice (acquire_buf P w i c size).1.mem (rw N.same valid)
            (C.near b.pool b.number pool number) r.first_fit (sym r.address ∙ e))

    pub acquire_none_moves :
        (f : Buf → ℕ) (size : ℕ)
        → FreeValid m ch
        → size ≢ 0
        → (acquire_buf P w i c size).0 ≡ null
        → Moved f ch m (acquire_buf P w i c size).1.mem 0 0 0 0
    acquire_none_moves f size valid some_size e =
        let r =
          acquire_buf_first_fit P w i c size ch N.ready N.here N.sound
            (λ h le lt. near_linked.of_pools h (omega (arith, lt))) some_size in
        Moved-from N.same (
          none_taken f size r.choice (acquire_buf P w i c size).1.mem (rw N.same valid) r.first_fit
            (sym r.address ∙ e))

  pub send_moves :
      {m : Mem} (L : AllLinked m ch) {w : World S} {i : ℕ} (c : ℕ)
      → Near P ch m w i (c % 2 ^ 8)
      → (f : Buf → ℕ) (size : ℕ) (b : Buf) → size ≢ 0
      → b.pool < ch.num_pools
      → b.number < (ch.pools b.pool).num_bufs
      → let r = tx P w i c (buf_at from_local (ch.pools b.pool) b.number) size in
        Moved f ch m r.1.mem 0 0 0 (if is_ok r.0 then f b else 0)
  send_moves {m} L {w} {i} c N f size b some_size pool number =
      let bd : Bd = record { pool_id = b.pool; buf_id = b.number; data_size = size } in
      let q = ch.bd_queue in
      let l : AllLinked w.mem ch = rw N.same L in
      let o =
        tx_enqueues P w i c size ch b.pool b.number N.ready N.here N.sound l.of_channel
          (C.near b.pool b.number pool number) some_size in
      Moved-from N.same (
        channel_written C l f q.push_ring 0 _ (inl refl) (rw o.mem (push-WritesOnly w.mem q bd))
          o.linked
          (offered_weight (λ x. weigh f (bufs x)) (f b) (q.elem_num - 1) (outgoing w.mem q) bd _
            o.queued (weigh-bufs-snoc f (outgoing w.mem q) bd)))

module _ {T : Type 0} (Q : Platform T) {ch far : ManagedChannel} (C : Circuit ch far) where
  pub release_moves :
      {m : Mem} (L : AllLinked m ch) {w : World T} {i c : ℕ}
      → Far Q far m w i c
      → (f : Buf → ℕ) (b : Buf) → b.pool < ch.num_pools
      → b.number < (ch.pools b.pool).num_bufs
      → let r = release_buf w i c (buf_at from_remote (far.pools b.pool) b.number) in
        Moved f ch m r.1.mem 0 (if is_ok r.0 then f b else 0) 0 0
  release_moves {m} L {w} {i} {c} N f b pool number =
      let bd : Bd = record { pool_id = b.pool; buf_id = b.number; data_size = 0 } in
      let q = (ch.pools b.pool).bd_queue in
      let l : AllLinked w.mem ch = rw N.same L in
      let same = C.pool_mirrored b.pool pool in
      let o : Offered w (mirror q) bd (λ x. x)
          (release_buf w i c (buf_at from_remote (far.pools b.pool) b.number)) =
        rw same at (
          release_enqueues w i c far bd N.live N.here N.sound
            (rw same (mirror-IsLinked (l.of_pools b.pool pool)))
            (C.remote b.pool b.number pool number)) in
      Moved-from N.same (
        pool_written C l f q.pop_ring 0 _ b.pool pool (inr refl)
          (rw o.mem (push-WritesOnly w.mem (mirror q) bd)) (mirror-IsLinked o.linked)
          (offered_weight (λ x. weigh f (free_bufs b.pool x)) (f b) (q.elem_num - 1)
            (outgoing w.mem (mirror q)) bd _ o.queued
            (weigh-free_bufs-snoc f b.pool (outgoing w.mem (mirror q)) bd)))

  module _ {A : App T} (quiet : Quiet Q A) where
    -- What has been received is what was on its way for longest.
    pub receive_moves :
        {m : Mem} (L : AllLinked m ch) {w : World T} {i c : ℕ}
        → Far Q far m w i c
        → (f : Buf → ℕ) (budget : ℕ)
        → let r = channel_rx Q A w i c budget in
          Moved f ch m r.1.mem 0 0 (weigh f (bufs (take r.0 (incoming m far.bd_queue)))) 0
    receive_moves {m} L {w} {i} {c} N f budget =
        let q = ch.bd_queue in
        let l : AllLinked w.mem ch = rw N.same L in
        let here : (channel w i c).mng.bd_queue ≡ mirror q =
          ap (λ x. x.bd_queue) N.mng ∙ C.mirrored in
        let r =
          channel_rx_drains quiet w i c budget N.type (rw here (mirror-IsLinked l.of_channel))
            (rw N.mng (queue_ok w.mem far N.sound)) in
        let m' = (channel_rx Q A w i c budget).1.mem in
        let linked : IsLinked m' (mirror q) = rw here at r.linked in
        let split : outgoing w.mem q ≡ r.taken ++ outgoing m' q = rw here at r.split in
        rw (sym N.same, C.mirrored)
          (channel_written C l f q.pop_ring _ 0 (inr refl) (rw here at r.written)
            (mirror-IsLinked linked)
            (omega (
              arith,
              weigh-bufs-take f (channel_rx Q A w i c budget).0 (outgoing w.mem q) r.taken
                  (outgoing m' q) split r.count,
            )))
