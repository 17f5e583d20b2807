-- ===== src/Shm/Ledger.antt =====
-- The buffers of one direction of a managed channel, as ipc-shm.c passes them around: acquired and
-- sent by one core, received and released by the other, over the memory that both share.
pub mod Effects
pub mod Weights
pub mod Moves
pub mod Fresh
pub mod Owners
mod Tests
pub mod Conservation
use ipc_shm.Common.{
  ℕ, zero, suc, ◌+◌, ◌%◌, ◌^◌, ◌≤◌, ◌<◌, ◌≡◌, ◌≢◌, true, some, List, [], ◌∷◌, ◌++◌, if◌then◌else◌,
}
use ipc_shm.Types.{Status, ok, managed}
use ipc_shm.Memory.{Bd, Mem, null}
use ipc_shm.Queue.{IpcQueue, is_ok}
use ipc_shm.Queue.Fifo.{mirror, outgoing, incoming}
use ipc_shm.Shm.State.{World, Platform, App, ManagedChannel, channel, used}
use ipc_shm.Shm.Lookup.{check_mchan_integrity, get_managed_chan, instance_is_free, is_remote_ready}
use ipc_shm.Shm.Buffers.{from_local, from_remote, lies_in, acquire_buf, tx, release_buf}
use ipc_shm.Shm.Buffers.Pools.{buf_at}
use ipc_shm.Shm.Buffers.Transfer.{IsBuffer}
use ipc_shm.Shm.Rx.{channel_rx}

-- Two queues have no ring in common.
pub record Apart (q p : IpcQueue) : Type 0 where
  pub push_push : q.push_ring ≢ p.push_ring
  pub push_pop : q.push_ring ≢ p.pop_ring
  pub pop_push : q.pop_ring ≢ p.push_ring
  pub pop_pop : q.pop_ring ≢ p.pop_ring

-- `far` is the other end of the channel `ch`, and every number below the size of a pool is that of a
-- buffer.
pub record Circuit (ch far : ManagedChannel) : Type 0 where
  pub same_pools : far.num_pools ≡ ch.num_pools
  pub mirrored : far.bd_queue ≡ mirror ch.bd_queue
  pub pool_mirrored :
      (k : ℕ) → k < ch.num_pools → (far.pools k).bd_queue ≡ mirror (ch.pools k).bd_queue
  pub near :
      (k id : ℕ) → k < ch.num_pools → id < (ch.pools k).num_bufs → IsBuffer ch from_local k id
  pub remote :
      (k id : ℕ) → k < ch.num_pools → id < (ch.pools k).num_bufs → IsBuffer far from_remote k id
  pub apart : (k : ℕ) → k < ch.num_pools → Apart ch.bd_queue (ch.pools k).bd_queue
  pub pools_apart :
      (k h : ℕ)
      → k < ch.num_pools
      → h < ch.num_pools
      → k ≢ h
      → Apart (ch.pools k).bd_queue (ch.pools h).bd_queue

-- A buffer by its pool and its number.
pub record Buf : Type 0 where
  pub pool : ℕ
  pub number : ℕ

-- the buffers that the sender has acquired and not sent, and those that the receiver has got and not
-- released, beside the memory
pub record Sys : Type 0 where
  pub mem : Mem
  pub held : List Buf
  pub got : List Buf

abbrev pub buf_of : Bd → Buf
buf_of bd = record { pool = bd.pool_id; number = bd.buf_id }

-- the buffers of descriptors on their way
pub bufs : List Bd → List Buf
bufs [] = []
bufs (bd ∷ bds) = buf_of bd ∷ bufs bds

-- the free buffers in the queue of the pool `k`
pub free_bufs : ℕ → List Bd → List Buf
free_bufs k [] = []
free_bufs k (bd ∷ bds) = record { pool = k; number = bd.buf_id } ∷ free_bufs k bds

-- the first `n` elements
pub take {ℓ} : {A : Type ℓ} → ℕ → List A → List A
take zero l = []
take (suc n) [] = []
take (suc n) (x ∷ l) = x ∷ take n l

-- the free buffers of `n` pools from `k` on
pub all_free : Mem → ManagedChannel → (k n : ℕ) → List Buf
all_free m ch k zero = []
all_free m ch k (suc n) = free_bufs k (incoming m (ch.pools k).bd_queue) ++ all_free m ch (k + 1) n

-- Where a buffer can be: free, held by the sender, on its way, or with the receiver.
pub all_bufs : ManagedChannel → Sys → List Buf
all_bufs ch s =
    all_free s.mem ch 0 ch.num_pools ++ s.held ++ bufs (outgoing s.mem ch.bd_queue) ++ s.got

-- The weight of a list of buffers.
pub weigh : (Buf → ℕ) → List Buf → ℕ
weigh f [] = 0
weigh f (b ∷ l) = f b + weigh f l

-- The numbers of the free buffers are those of buffers.
pub FreeValid : Mem → ManagedChannel → Type 0
FreeValid m ch =
    (k : ℕ) (bd : Bd) (rest : List Bd)
    → k < ch.num_pools
    → incoming m (ch.pools k).bd_queue ≡ bd ∷ rest
    → bd.buf_id < (ch.pools k).num_bufs

-- a list from which the element between `l` and `r` goes if a call has succeeded
abbrev pub without : Status → List Buf → Buf → List Buf → List Buf
without s l b r = if is_ok s then l ++ r else l ++ (b ∷ r)

module _ {S : Type 0} where
  abbrev pub after_tx : Sys → List Buf → Buf → List Buf → Status × World S → Sys
  after_tx s l b r (done, w) = record s { mem = w.mem; held = without done l b r }

  abbrev pub after_rx : Sys → List Bd → ℕ × World S → Sys
  after_rx s waiting (work, w) = record s { mem = w.mem; got = bufs (take work waiting) ++ s.got }

  abbrev pub after_release : Sys → List Buf → Buf → List Buf → Status × World S → Sys
  after_release s l b r (done, w) = record s { mem = w.mem; got = without done l b r }

module _ {S : Type 0} (P : Platform S) (ch : ManagedChannel) where
  -- The sender may call on `ch`: its instance is up and the channel passes its check, and its shared
  -- memory covers the buffers.
  pub record Near (m : Mem) (w : World S) (i c : ℕ) : Type 0 where
    pub same : w.mem ≡ m
    pub ready : is_remote_ready P w i ≡ ok
    pub here : get_managed_chan w i c ≡ some ch
    pub sound : check_mchan_integrity w.mem ch ≡ ok
    pub covered :
        (k id : ℕ)
        → IsBuffer ch from_local k id
        → lies_in
            (P.os_get_local_shm w.plat i)
            (w.priv i).shm_size
            (buf_at from_local (ch.pools k) id)
            (ch.pools k).buf_size
          ≡ true

module _ {T : Type 0} (Q : Platform T) (far : ManagedChannel) where
  -- The receiver may call on `far`, and its reception hands every buffer to the application.
  pub record Far (m : Mem) (w : World T) (i c : ℕ) : Type 0 where
    pub same : w.mem ≡ m
    pub live : instance_is_free w i ≡ used
    pub here : get_managed_chan w i c ≡ some far
    pub type : (channel w i c).type ≡ managed
    pub mng : (channel w i c).mng ≡ far
    pub sound : check_mchan_integrity w.mem far ≡ ok
    pub covered :
        (k id : ℕ)
        → IsBuffer far from_remote k id
        → lies_in
            (Q.os_get_remote_shm w.plat i)
            (w.priv i).shm_size
            (buf_at from_remote (far.pools k) id)
            (far.pools k).buf_size
          ≡ true

-- The two cores have platforms of their own.
module _ {S T : Type 0} (P : Platform S) (Q : Platform T) (ch far : ManagedChannel)
    (A : App T) where
  -- One call of the driver, by either core, in any order, with what the caller knows after it.
  pub data Step : Sys → Sys → Type 0 where
    acquires :
        (s : Sys) (w : World S) (i c size : ℕ) (b : Buf)
        → Near P ch s.mem w i c
        → size ≢ 0
        → b.pool < ch.num_pools
        → b.number < (ch.pools b.pool).num_bufs
        → (acquire_buf P w i c size).0 ≡ buf_at from_local (ch.pools b.pool) b.number
        → Step s (record s { mem = (acquire_buf P w i c size).1.mem; held = b ∷ s.held })
    acquires_none :
        (s : Sys) (w : World S) (i c size : ℕ)
        → Near P ch s.mem w i c
        → size ≢ 0
        → (acquire_buf P w i c size).0 ≡ null
        → Step s (record s { mem = (acquire_buf P w i c size).1.mem })
    sends :
        (s : Sys) (w : World S) (i c size : ℕ) (l r : List Buf) (b : Buf)
        → Near P ch s.mem w i (c % 2 ^ 8)
        → size ≢ 0
        → s.held ≡ l ++ (b ∷ r)
        → Step s (after_tx s l b r (tx P w i c (buf_at from_local (ch.pools b.pool) b.number) size))
    receives :
        (s : Sys) (w : World T) (i c budget : ℕ)
        → Far Q far s.mem w i c
        → Step s (after_rx s (incoming s.mem far.bd_queue) (channel_rx Q A w i c budget))
    releases :
        (s : Sys) (w : World T) (i c : ℕ) (l r : List Buf) (b : Buf)
        → Far Q far s.mem w i c
        → s.got ≡ l ++ (b ∷ r)
        → Step s (
            after_release s l b r
              (release_buf w i c (buf_at from_remote (far.pools b.pool) b.number)))

  -- Any number of calls.
  pub data Run : Sys → Sys → Type 0 where
    stays : (s : Sys) → Run s s
    goes : (s s' s'' : Sys) → Step s s' → Run s' s'' → Run s s''
