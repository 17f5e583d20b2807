-- ===== src/Shm/Ledger/Conservation.antt =====
-- No buffer is lost and none is in two hands, whatever the two cores do and in whatever order.
use ipc_shm.Common.{
  ℕ, ◌+◌, ◌<◌, ◌≡◌, refl, sym, ap, ◌∙◌, arith, ◌&&◌, ltb, List, ◌∷◌, ◌++◌, if◌then◌else◌,
}
use ipc_shm.Queue.{is_ok}
use ipc_shm.Queue.Fifo.{outgoing, incoming}
use ipc_shm.Shm.State.{Platform, App, ManagedChannel}
use ipc_shm.Shm.Buffers.{from_local, from_remote, tx, release_buf}
use ipc_shm.Shm.Buffers.Pools.{buf_at}
use ipc_shm.Shm.Rx.{channel_rx}
use ipc_shm.Shm.Rx.Drain.{Quiet}
use ipc_shm.Shm.Ledger.{
  Circuit, Buf, Sys, bufs, take, all_free, all_bufs, weigh, FreeValid, Step, acquires,
  acquires_none, sends, receives, releases, Run, stays, goes,
}
use ipc_shm.Shm.Ledger.Weights.{
  weigh-append, weigh-append-all, weigh-cons, weigh-between, weigh-without, weigh-all_free-has,
}
use ipc_shm.Shm.Ledger.Effects.{AllLinked, Moved}
use ipc_shm.Shm.Ledger.Moves.{
  acquire_moves, acquire_none_moves, send_moves, receive_moves, release_moves,
}

-- 1 for what is no buffer of the channel
unfoldable pub invalid : ManagedChannel → Buf → ℕ
invalid ch b = if ltb b.pool ch.num_pools && ltb b.number (ch.pools b.pool).num_bufs then 0 else 1

-- The weight of all buffers, wherever they are.
pub total : (Buf → ℕ) → ManagedChannel → Sys → ℕ
total f ch s = weigh f (all_bufs ch s)

-- The queues are linked, and nothing but buffers of the channel is passed around.
pub record Consistent (ch : ManagedChannel) (s : Sys) : Type 0 where
  pub linked : AllLinked s.mem ch
  pub valid : total (invalid ch) ch s ≡ 0

module _ (f : Buf → ℕ) where
  pub total_parts :
      (ch : ManagedChannel) (s : Sys)
      → total f ch s
        ≡ weigh f (all_free s.mem ch 0 ch.num_pools)
          + weigh f s.held
          + weigh f (bufs (outgoing s.mem ch.bd_queue))
          + weigh f s.got
  unfolding total all_bufs
  total_parts ch s =
      weigh-append-all f (all_free s.mem ch 0 ch.num_pools) s.held
        (bufs (outgoing s.mem ch.bd_queue)) s.got

-- What is valid lies in its pool.
valid_of :
    (ch : ManagedChannel) (b : Buf)
    → invalid ch b ≡ 0
    → (b.pool < ch.num_pools) × (b.number < (ch.pools b.pool).num_bufs)
unfolding invalid
valid_of ch b e = (ground arith, ground arith)

module _ (ch : ManagedChannel) (s : Sys) (I : Consistent ch s) where
  parts_valid :
      weigh (invalid ch) (all_free s.mem ch 0 ch.num_pools)
        + weigh (invalid ch) s.held
        + weigh (invalid ch) (bufs (outgoing s.mem ch.bd_queue))
        + weigh (invalid ch) s.got
      ≡ 0
  parts_valid = sym (total_parts (invalid ch) ch s) ∙ I.valid

  free_valid : FreeValid s.mem ch
  unfolding FreeValid
  free_valid k bd rest lt e =
      let b : Buf = record { pool = k; number = bd.buf_id } in
      let has =
        weigh-all_free-has (invalid ch) s.mem ch k bd rest 0 ch.num_pools (omega arith)
          (omega (arith, lt)) e in
      (valid_of ch b (omega (arith, parts_valid, has))).1

  pub held_valid :
      (l r : List Buf) (b : Buf)
      → s.held ≡ l ++ (b ∷ r)
      → (b.pool < ch.num_pools) × (b.number < (ch.pools b.pool).num_bufs)
  held_valid l r b e =
      valid_of ch b
        (omega (arith, parts_valid, weigh-between (invalid ch) l r b, ap (weigh (invalid ch)) e))

  pub got_valid :
      (l r : List Buf) (b : Buf)
      → s.got ≡ l ++ (b ∷ r)
      → (b.pool < ch.num_pools) × (b.number < (ch.pools b.pool).num_bufs)
  got_valid l r b e =
      valid_of ch b
        (omega (arith, parts_valid, weigh-between (invalid ch) l r b, ap (weigh (invalid ch)) e))

-- From `s` to `s'`, every weight of the buffers stays the same.
pub record Conserved (ch : ManagedChannel) (s s' : Sys) : Type 0 where
  pub linked : AllLinked s'.mem ch
  pub same : (f : Buf → ℕ) → total f ch s' ≡ total f ch s

-- What the queues lose or get, the two cores get or lose.
conserve :
    {ch : ManagedChannel} {s s' : Sys} (a b c d : (Buf → ℕ) → ℕ)
    → ((f : Buf → ℕ) → Moved f ch s.mem s'.mem (a f) (b f) (c f) (d f))
    → ((f : Buf → ℕ)
        → weigh f s'.held + weigh f s'.got + b f + d f ≡ weigh f s.held + weigh f s.got + a f + c f)
    → Conserved ch s s'
conserve {ch} {s} {s'} a b c d moved hands = record {
  linked = (moved (λ x. 0)).linked;
  same = λ f.
      omega
        (arith, total_parts f ch s, total_parts f ch s', (moved f).free, (moved f).flight, hands f);
}

module _ {S T : Type 0} (P : Platform S) (Q : Platform T) {ch far : ManagedChannel}
    (C : Circuit ch far) {A : App T} (quiet : Quiet Q A) where
  Step-Conserved : (s s' : Sys) → Consistent ch s → Step P Q ch far A s s' → Conserved ch s s'
  Step-Conserved _ _ I (acquires s w i c size b N ne pool number e) =
      conserve (λ f. f b) (λ f. 0) (λ f. 0) (λ f. 0)
        (λ f. acquire_moves P C I.linked N f size b (free_valid ch s I) ne pool number e)
        (λ f. omega (arith, weigh-cons f b s.held))
  Step-Conserved _ _ I (acquires_none s w i c size N ne e) =
      conserve (λ f. 0) (λ f. 0) (λ f. 0) (λ f. 0)
        (λ f. acquire_none_moves P C I.linked N f size (free_valid ch s I) ne e) (λ f. refl)
  Step-Conserved _ _ I (sends s w i c size l r b N ne e) =
      let valid = held_valid ch s I l r b e in
      let t = tx P w i c (buf_at from_local (ch.pools b.pool) b.number) size in
      conserve (λ f. 0) (λ f. 0) (λ f. 0) (λ f. if is_ok t.0 then f b else 0)
        (λ f. send_moves P C I.linked c N f size b ne valid.0 valid.1)
        (λ f. omega (arith, weigh-without f t.0 l r b, ap (weigh f) e))
  Step-Conserved _ _ I (receives s w i c budget N) =
      let n = (channel_rx Q A w i c budget).0 in
      conserve (λ f. 0) (λ f. 0) (λ f. weigh f (bufs (take n (incoming s.mem far.bd_queue))))
        (λ f. 0) (λ f. receive_moves Q C quiet I.linked N f budget)
        (λ f. omega (arith, weigh-append f (bufs (take n (incoming s.mem far.bd_queue))) s.got))
  Step-Conserved _ _ I (releases s w i c l r b N e) =
      let valid = got_valid ch s I l r b e in
      let t = release_buf w i c (buf_at from_remote (far.pools b.pool) b.number) in
      conserve (λ f. 0) (λ f. if is_ok t.0 then f b else 0) (λ f. 0) (λ f. 0)
        (λ f. release_moves Q C I.linked N f b valid.0 valid.1)
        (λ f. omega (arith, weigh-without f t.0 l r b, ap (weigh f) e))

  -- However the two cores acquire, send, receive and release buffers of one direction of a managed
  -- channel, and in whatever order, from a state in which the queues are linked and only buffers of
  -- the channel are passed around: the queues stay linked, and every weight of the buffers, summed
  -- over the free ones, those that the sender holds, those on their way and those that the receiver
  -- has got, stays the same. So under the following conditions on the calls no buffer is lost or
  -- made. The sender calls where the remote side is ready, the channel passes its integrity check,
  -- and its local memory covers every buffer of the channel, so that no bounds check of
  -- ipc_shm_acquire_buf() fails; the receiver where its instance is in use, the channel passes its
  -- check, and the remote memory covers every buffer; its callbacks do not touch the memory, the
  -- tables of the driver or the address of the remote memory; and the two ends have the same pools,
  -- with mirrored queues that share no ring, in which every number below the size of a pool is that
  -- of a buffer.
  pub buffers-Conserved : (s s' : Sys) → Consistent ch s → Run P Q ch far A s s' → Conserved ch s s'
  buffers-Conserved _ _ I (stays s) = record { linked = I.linked; same = λ f. refl }
  buffers-Conserved _ _ I (goes s s' s'' step run) =
      let u = Step-Conserved s s' I step in
      let rest =
        buffers-Conserved s' s''
          (record { linked = u.linked; valid = u.same (invalid ch) ∙ I.valid }) run in
      record { linked = rest.linked; same = λ f. rest.same f ∙ u.same f }
