-- ===== src/Shm/Ledger/Effects.antt =====
-- What each call of the driver does to the queues of a channel: from where to where a buffer goes.
use ipc_shm.Common.{ℕ, ◌+◌, ◌<◌, ◌≡◌, refl, sym, ap, ◌∙◌, arith, ◌⊎◌, inl, inr}
use native.Mathlib.Decide.{ℕ_discrete}
use ipc_shm.Memory.{Mem}
use ipc_shm.Queue.{IpcQueue}
use ipc_shm.Queue.Fifo.{IsLinked, outgoing, incoming}
use ipc_shm.Queue.Frame.{WritesOnly, elsewhere}
use ipc_shm.Shm.State.{ManagedChannel}
use ipc_shm.Shm.Buffers.{Side, find_pool_for_buf, buf_index}
use ipc_shm.Shm.Buffers.Pools.{buf_at, buf_index-buf_at}
use ipc_shm.Shm.Buffers.Transfer.{IsBuffer, found}
use ipc_shm.Shm.Ledger.{Apart, Circuit, Buf, bufs, free_bufs, all_free, weigh}
use ipc_shm.Shm.Ledger.Weights.{weigh-all_free-same, weigh-all_free-changed}

-- The queues of the channel and of its pools have their indices in range.
pub record AllLinked (m : Mem) (ch : ManagedChannel) : Type 0 where
  pub of_channel : IsLinked m ch.bd_queue
  pub of_pools : (k : ℕ) → k < ch.num_pools → IsLinked m (ch.pools k).bd_queue

-- From `m` to `m'`, the free buffers weigh `a` less and `b` more, and those on their way `c` less
-- and `d` more.
pub record Moved (f : Buf → ℕ) (ch : ManagedChannel) (m m' : Mem) (a b c d : ℕ) : Type 0 where
  pub free :
      weigh f (all_free m' ch 0 ch.num_pools) + a ≡ weigh f (all_free m ch 0 ch.num_pools) + b
  pub flight :
      weigh f (bufs (outgoing m' ch.bd_queue)) + c ≡ weigh f (bufs (outgoing m ch.bd_queue)) + d
  pub linked : AllLinked m' ch

pub Moved-from :
    {f : Buf → ℕ} {ch : ManagedChannel} {n m m' : Mem} {a b c d : ℕ}
    → n ≡ m
    → Moved f ch n m' a b c d
    → Moved f ch m m' a b c d
Moved-from e v = rw e at v

abbrev pub IsRingOf : IpcQueue → ℕ → Type 0
IsRingOf q a = (a ≡ q.push_ring) ⊎ (a ≡ q.pop_ring)

Apart-sym : {q p : IpcQueue} → Apart q p → Apart p q
Apart-sym u = record {
  push_push = λ e. u.push_push (sym e);
  push_pop = λ e. u.pop_push (sym e);
  pop_push = λ e. u.push_pop (sym e);
  pop_pop = λ e. u.pop_pop (sym e);
}

-- A write to a ring of one queue leaves a queue apart from it alone.
beside :
    {m m' : Mem} {q p : IpcQueue} {a : ℕ}
    → Apart q p
    → IsRingOf q a
    → WritesOnly a m m'
    → IsLinked m p
    → (outgoing m' p ≡ outgoing m p) × (incoming m' p ≡ incoming m p) × IsLinked m' p
beside u (inl e) w v = elsewhere w (λ x. u.push_push (sym e ∙ x)) (λ x. u.push_pop (sym e ∙ x)) v
beside u (inr e) w v = elsewhere w (λ x. u.pop_push (sym e ∙ x)) (λ x. u.pop_pop (sym e ∙ x)) v

module _ {ch far : ManagedChannel} (C : Circuit ch far) {m m' : Mem} (L : AllLinked m ch)
    (f : Buf → ℕ) where
  pub nothing-Moved : m' ≡ m → Moved f ch m m' 0 0 0 0
  nothing-Moved e = rw e (record { free = refl; flight = refl; linked = L })

  -- A write to the queue of the channel.
  pub channel_written :
      (a c d : ℕ)
      → IsRingOf ch.bd_queue a
      → WritesOnly a m m'
      → IsLinked m' ch.bd_queue
      → weigh f (bufs (outgoing m' ch.bd_queue)) + c ≡ weigh f (bufs (outgoing m ch.bd_queue)) + d
      → Moved f ch m m' 0 0 c d
  channel_written a c d r w v e = record {
    free =
        ap (λ l. weigh f l + 0)
          (weigh-all_free-same f m m' ch 0 ch.num_pools (λ h le lt.
            (beside (C.apart h (omega (arith, lt))) r w (L.of_pools h (omega (arith, lt)))).1));
    flight = e;
    linked = record {
      of_channel = v;
      of_pools = λ k lt. (beside (C.apart k lt) r w (L.of_pools k lt)).2;
    };
  }

  -- A write to the queue of the pool `j`.
  pub pool_written :
      (a b c j : ℕ)
      → j < ch.num_pools
      → IsRingOf (ch.pools j).bd_queue a
      → WritesOnly a m m'
      → IsLinked m' (ch.pools j).bd_queue
      → weigh f (free_bufs j (incoming m' (ch.pools j).bd_queue)) + b
        ≡ weigh f (free_bufs j (incoming m (ch.pools j).bd_queue)) + c
      → Moved f ch m m' b c 0 0
  pool_written a b c j lt r w v e =
      let chan = beside (Apart-sym (C.apart j lt)) r w L.of_channel in
      record {
        free =
            weigh-all_free-changed f m m' ch j b c 0 ch.num_pools (omega arith) (omega arith)
              (λ h le lt' ne.
                let below : h < ch.num_pools = omega (arith, lt') in
                (beside (C.pools_apart j h lt below (λ x. ne (sym x))) r w (L.of_pools h below)).1)
              e;
        flight = ap (λ l. weigh f (bufs l) + 0) chan.0;
        linked = record {
          of_channel = chan.2;
          of_pools = λ k lt'. elim (ℕ_discrete k j) [
            | yes same ↦ rw same v
            | no ne ↦ (beside (C.pools_apart j k lt lt' (λ x. ne (sym x))) r w (L.of_pools k lt')).2
          ];
        };
      }

-- An address is that of one buffer only.
pub one_address :
    {ch : ManagedChannel} {side : Side} {k id h j : ℕ}
    → IsBuffer ch side k id
    → IsBuffer ch side h j
    → buf_at side (ch.pools k) id ≡ buf_at side (ch.pools h) j
    → (k ≡ h) × (id ≡ j)
one_address {ch} {side} {k} {id} {h} {j} u v e =
    let same : k ≡ h = cc (found u, found v, ap (λ a. find_pool_for_buf ch a side) e) in
    (
      same,
      sym (buf_index-buf_at u.fits u.number).0
          ∙ ap (λ a. buf_index side (ch.pools k) a) e
          ∙ ap (λ x. buf_index side (ch.pools x) (buf_at side (ch.pools h) j)) same
          ∙ (buf_index-buf_at v.fits v.number).0,
    )
