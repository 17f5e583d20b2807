-- ===== src/Shm/Buffers/Transfer.antt =====
-- What ipc_shm_tx() and ipc_shm_release_buf() put into the queues, and what the other side reads.
use ipc_shm.Common.{
  ℕ, ◌-◌, ◌%◌, ◌^◌, ◌<◌, ◌≡◌, ◌≢◌, refl, arith, true, false, some, if◌then◌else◌, ==_false,
  Bool-cases, inl, inr,
}
use ipc_shm.Types.{Status, ok, err}
use ipc_shm.Memory.{Bd, null}
use ipc_shm.Queue
use ipc_shm.Queue.{IpcQueue, is_ok}
use ipc_shm.Queue.Fifo.{IsLinked, outgoing, incoming, enqueue, push_refines}
use ipc_shm.Shm.State.{used, World, Platform, ManagedChannel}
use ipc_shm.Shm.Lookup.{check_mchan_integrity, get_managed_chan, instance_is_free, is_remote_ready}
use ipc_shm.Shm.Buffers.{
  Side, from_local, from_remote, find_pool_for_buf, owns, send_bd, tx_to, tx_in, tx, release_to,
  release_in, release_buf,
}
use ipc_shm.Shm.Buffers.Pools.{Fits, buf_at, buf_index-buf_at, find_pool_first}
use ipc_shm.Shm.Rx.{remote_buf}

-- A buffer of a channel, by its pool and its number, that no earlier pool claims.
pub record IsBuffer (ch : ManagedChannel) (side : Side) (k id : ℕ) : Type 0 where
  pub pool : k < ch.num_pools
  pub number : id < (ch.pools k).num_bufs
  pub fits : Fits side (ch.pools k)
  pub first : (j : ℕ) → j < k → owns side (ch.pools j) (buf_at side (ch.pools k) id) ≡ false
  pub ne_null : buf_at side (ch.pools k) id ≢ null

pub found :
    {ch : ManagedChannel} {side : Side} {k id : ℕ}
    → IsBuffer ch side k id
    → find_pool_for_buf ch (buf_at side (ch.pools k) id) side ≡ some k
found {ch} {side} {k} {id} b =
    find_pool_first ch side _ k b.pool (buf_index-buf_at b.fits b.number).1 b.first

pub ok_of_is_ok : (s : Status) → is_ok s ≡ true → s ≡ ok
ok_of_is_ok ok e = refl
ok_of_is_ok (err _) e = absurd (cc e)

module _ {S : Type 0} where
  -- A descriptor was offered to the queue `q`: what it returned and carries now, and the platform,
  -- which `notify` changes if the queue took it.
  pub record Offered (w : World S) (q : IpcQueue) (bd : Bd) (notify : S → S) (r : Status × World S)
      : Type 0 where
    pub queued : (r.0, outgoing r.1.mem q) ≡ enqueue (q.elem_num - 1) (outgoing w.mem q) bd
    pub mem : r.1.mem ≡ (Queue.push w.mem q bd).1
    pub received : incoming r.1.mem q ≡ incoming w.mem q
    pub linked : IsLinked r.1.mem q
    pub plat : r.1.plat ≡ (if is_ok r.0 then notify w.plat else w.plat)
    pub priv : r.1.priv ≡ w.priv

  -- ipc_shm_release_buf() on the address that the reception of a descriptor gives: for an instance in
  -- use and a managed channel that passes its check, with the queue of the pool linked, it offers the
  -- free descriptor of the same pool and buffer to the queue of that pool.
  pub release_enqueues :
      (w : World S) (i c : ℕ) (ch : ManagedChannel) (bd : Bd)
      → instance_is_free w i ≡ used
      → get_managed_chan w i c ≡ some ch
      → check_mchan_integrity w.mem ch ≡ ok
      → IsLinked w.mem (ch.pools bd.pool_id).bd_queue
      → IsBuffer ch from_remote bd.pool_id bd.buf_id
      → Offered w
          (ch.pools bd.pool_id).bd_queue
          (record bd { data_size = 0 })
          (λ s. s)
          (release_buf w i c (remote_buf ch bd))
  unfolding release_buf release_in release_to
  release_enqueues w i c ch bd live here sound v b =
      let pushed = push_refines (record bd { data_size = 0 }) v in
      rw
        (
          live,
          here,
          ==_false (remote_buf ch bd) null b.ne_null,
          sound,
          found b,
          (buf_index-buf_at b.fits b.number).0,
        )
        (record {
          queued = pushed.0;
          mem = refl;
          received = pushed.1;
          linked = pushed.2;
          plat = ground arith;
          priv = refl;
        })

module _ {S : Type 0} (P : Platform S) where
  send_bd-Offered :
      (w : World S) (i : ℕ) (ch : ManagedChannel) (bd : Bd)
      → IsLinked w.mem ch.bd_queue
      → Offered w ch.bd_queue bd (λ s. P.hw_irq_notify s i) (send_bd P w i ch bd)
  unfolding send_bd
  send_bd-Offered w i ch bd v =
      let p = push_refines bd v in
      elim (Bool-cases (is_ok (Queue.push w.mem ch.bd_queue bd).0)) [
        | inl e ↦ rw e (record {
          queued = (rw (ok_of_is_ok _ e) at p.0);
          mem = refl;
          received = p.1;
          linked = p.2;
          plat = refl;
          priv = refl;
        })
        | inr e ↦ rw e (record {
          queued = p.0;
          mem = refl;
          received = p.1;
          linked = p.2;
          plat = rw e;
          priv = refl;
        })
      ]

  -- ipc_shm_tx() on a local buffer of a managed channel that passes its check, with the queue of the
  -- channel linked, the remote side ready and a size other than 0: it offers the descriptor of the
  -- buffer to the queue of the channel, and notifies the remote core if and only if the queue took it.
  pub tx_enqueues :
      (w : World S) (i c size : ℕ) (ch : ManagedChannel) (k id : ℕ)
      → is_remote_ready P w i ≡ ok
      → get_managed_chan w i (c % 2 ^ 8) ≡ some ch
      → check_mchan_integrity w.mem ch ≡ ok
      → IsLinked w.mem ch.bd_queue
      → IsBuffer ch from_local k id
      → size ≢ 0
      → Offered w ch.bd_queue
          (record { pool_id = k; buf_id = id; data_size = size })
          (λ s. P.hw_irq_notify s i)
          (tx P w i c (buf_at from_local (ch.pools k) id) size)
  unfolding tx tx_in tx_to
  tx_enqueues w i c size ch k id ready here sound v b some_size =
      rw
        (
          ready,
          here,
          ==_false (buf_at from_local (ch.pools k) id) null b.ne_null,
          ==_false size 0 some_size,
          sound,
          found b,
          (buf_index-buf_at b.fits b.number).0,
        )
        (send_bd-Offered w i ch (record { pool_id = k; buf_id = id; data_size = size }) v)
