-- ===== src/Shm/Setup/Populate.antt =====
-- What ipc_buf_pool_init() leaves in the queue of a pool.
use ipc_shm.Common.{
  ℕ, zero, suc, ◌+◌, ◌-◌, ◌%◌, ◌^◌, ◌≤◌, ◌<◌, ◌≡◌, ◌≢◌, refl, sym, ap, ◌∙◌, arith, false, List, [],
  ◌∷◌, ◌++◌, ltb, length, length-append,
}
use mathlib.Core.List.{append-nil, append_assoc}
use ipc_shm.Types.{Status, ok, PoolCfg, max_bufs_per_pool, queue_init_done}
use ipc_shm.Memory.{Bd, bd_size, Mem, null, add_ptr, put_sentinel}
use ipc_shm.Queue
use ipc_shm.Queue.{IpcQueue, QueueData, is_ok, mapped, is_queue_type}
use ipc_shm.Queue.Fifo.{
  IsLinked, outgoing, incoming, enqueue-room, push_refines, rings_own, rings_other,
}
use ipc_shm.Queue.Sync.{IsProper, init-resume, init_resumes}
use ipc_shm.Shm.State.{World, Platform, Pool, channel, put_mem, put_pool}
use ipc_shm.Shm.Setup.{populate, fill_pool, buf_pool_init, placed, queue_data}

-- `n` free descriptors of the pool `k`, from the number `b` on
unfoldable pub free_bds : (k b n : ℕ) → List Bd
free_bds k b zero = []
free_bds k b (suc n) = record { pool_id = k; buf_id = b; data_size = 0 } ∷ free_bds k (b + 1) n

pub length-free_bds : (k b n : ℕ) → length (free_bds k b n) ≡ n
unfolding free_bds
length-free_bds k b zero = refl
length-free_bds k b (suc n) = omega (arith, length-free_bds k (b + 1) n)

-- What pushing `n` free descriptors has done.
pub record Filled (m : Mem) (q : IpcQueue) (k b n : ℕ) (r : Status × Mem) : Type 0 where
  pub status : r.0 ≡ ok
  pub queued : outgoing r.1 q ≡ outgoing m q ++ free_bds k b n
  pub waiting : incoming r.1 q ≡ incoming m q
  pub linked : IsLinked r.1 q

populate-Filled :
    (m : Mem) (q : IpcQueue) (k b n : ℕ)
    → IsLinked m q
    → length (outgoing m q) + n < q.elem_num
    → Filled m q k b n (populate m q k b n)
unfolding populate free_bds
populate-Filled m q k b zero v room = record {
  status = refl;
  queued = sym (append-nil _);
  waiting = refl;
  linked = v;
}
populate-Filled m q k b (suc n) v room =
    let bd : Bd = record { pool_id = k; buf_id = b; data_size = 0 } in
    let p = push_refines bd v in
    let pushed = p.0 ∙ enqueue-room (q.elem_num - 1) (outgoing m q) bd (λ e. omega arith) in
    let grown = ap (λ x. x.1) pushed in
    let rest =
      populate-Filled (Queue.push m q bd).1 q k (b + 1) n p.2
        (rw (grown, length-append (outgoing m q) (bd ∷ [])) (omega arith)) in
    rw (ap (λ x. x.0) pushed) (record {
      status = rest.status;
      queued =
          rest.queued
          ∙ ap (λ l. l ++ free_bds k (b + 1) n) grown
          ∙ append_assoc (outgoing m q) (bd ∷ []) (free_bds k (b + 1) n);
      waiting = rest.waiting ∙ p.1;
      linked = rest.linked;
    })

-- the queue that a pool gets
abbrev pub pool_queue_of : PoolCfg → ℕ → ℕ → IpcQueue
pool_queue_of cfg local_shm remote_shm = record {
  elem_size = bd_size;
  elem_num = (cfg.num_bufs + 1) % 2 ^ 16;
  push_ring = local_shm;
  pop_ring = remote_shm;
}

-- the pool itself
abbrev pub pool_of : Pool → PoolCfg → ℕ → ℕ → Pool
pool_of p cfg local_shm remote_shm =
    placed (record p { num_bufs = cfg.num_bufs; buf_size = cfg.buf_size })
      (pool_queue_of cfg local_shm remote_shm) local_shm remote_shm

-- The places of a pool in both memories, and a remote side that is up with its indices in range.
pub record IsMappable (m : Mem) (cfg : PoolCfg) (local_shm remote_shm : ℕ) : Type 0 where
  pub some_bufs : 0 < cfg.num_bufs
  pub few_bufs : cfg.num_bufs ≤ max_bufs_per_pool
  pub local_ne_null : local_shm ≢ null
  pub remote_ne_null : remote_shm ≢ null
  pub apart : local_shm ≢ remote_shm
  pub remote_up : (m.rings remote_shm).sentinel ≡ queue_init_done
  pub remote_write : (m.rings remote_shm).write ≤ cfg.num_bufs
  pub remote_read : (m.rings remote_shm).read ≤ cfg.num_bufs

-- What a successful ipc_buf_pool_init() has done.
pub record PoolReady {S : Type 0} (w : World S) (i c k local_shm remote_shm : ℕ) (cfg : PoolCfg)
    (r : Status × World S) : Type 0 where
  pub status : r.0 ≡ ok
  pub stored :
      (channel r.1 i c).mng.pools k ≡ pool_of ((channel w i c).mng.pools k) cfg local_shm remote_shm
  pub marked : (r.1.mem.rings local_shm).sentinel ≡ queue_init_done
  pub linked : IsLinked r.1.mem (pool_queue_of cfg local_shm remote_shm)
  pub outgoing_all :
      outgoing r.1.mem (pool_queue_of cfg local_shm remote_shm) ≡ free_bds k 0 cfg.num_bufs
  pub incoming_all :
      length (incoming r.1.mem (pool_queue_of cfg local_shm remote_shm)) ≡ cfg.num_bufs

-- Marking the local ring leaves its queue as it is.
mark-kept :
    (m : Mem) (q : IpcQueue) (s : ℕ)
    → IsLinked m q
    → let m' = put_sentinel m q.push_ring s in
      (outgoing m' q ≡ outgoing m q) × (incoming m' q ≡ incoming m q) × IsLinked m' q
mark-kept m q s v = (
  rw (
    rings_own v (record (m.rings q.push_ring) { sentinel = s }),
    rings_other v (record (m.rings q.push_ring) { sentinel = s }),
  ),
  rw (
    rings_own v (record (m.rings q.push_ring) { sentinel = s }),
    rings_other v (record (m.rings q.push_ring) { sentinel = s }),
  ),
  ground arith,
)

IsMappable-IsProper :
    {m : Mem} {cfg : PoolCfg} {local_shm remote_shm : ℕ} (p : Pool)
    → IsMappable m cfg local_shm remote_shm
    → IsProper (
        queue_data
          (record p { num_bufs = cfg.num_bufs; buf_size = cfg.buf_size })
          local_shm
          remote_shm)
unfolding is_queue_type
IsMappable-IsProper p v = ground arith

queue_starts :
    (m : Mem) (q₀ : IpcQueue) (p : Pool) (cfg : PoolCfg) (local_shm remote_shm : ℕ)
    → IsMappable m cfg local_shm remote_shm
    → let q = pool_queue_of cfg local_shm remote_shm in
      let (s, q', m') = Queue.init m q₀ (
        queue_data
          (record p { num_bufs = cfg.num_bufs; buf_size = cfg.buf_size })
          local_shm
          remote_shm) in
      (s ≡ ok)
      × (q' ≡ q)
      × IsLinked m' q
      × (outgoing m' q ≡ [])
      × (length (incoming m' q) ≡ cfg.num_bufs)
queue_starts m q₀ p cfg local_shm remote_shm v =
    let d : QueueData =
      queue_data (record p { num_bufs = cfg.num_bufs; buf_size = cfg.buf_size }) local_shm
        remote_shm in
    let proper : IsProper d = IsMappable-IsProper p v in
    let b = init-resume {d = d} proper m q₀ v.remote_up in
    let u =
      init_resumes {d = d} proper m q₀ v.remote_up (omega (arith, v.remote_write))
        (omega (arith, v.remote_read)) in
    (u.0, b.queue, rw b.queue at u.1, rw b.queue at u.2, rw b.queue at u.3)

put_pool_self :
    {S : Type 0} (w : World S) (i c k : ℕ) (p : Pool)
    → (channel (put_pool w i c k p) i c).mng.pools k ≡ p
put_pool_self w i c k p = ground arith

few :
    {m : Mem} {cfg : PoolCfg} {local_shm remote_shm : ℕ}
    → IsMappable m cfg local_shm remote_shm
    → ltb max_bufs_per_pool cfg.num_bufs ≡ false
few v = ground (arith, v.few_bufs)

module _ {S : Type 0} (P : Platform S) where
  -- ipc_buf_pool_init() beside a remote side that has already initialized its ring of the pool, with
  -- the pool within the local shared memory: it succeeds and stores the pool; the queue is marked and
  -- linked, all free descriptors of the remote buffers are outgoing, each once and in order, and as
  -- many descriptors of local buffers are taken to be incoming.
  pub buf_pool_init_fills :
      (w : World S) (i c k local_shm remote_shm : ℕ) (cfg : PoolCfg)
      → IsMappable w.mem cfg local_shm remote_shm
      → ltb (add_ptr (P.os_get_local_shm w.plat i) (w.priv i).shm_size) (
          add_ptr local_shm
            (pool_of ((channel w i c).mng.pools k) cfg local_shm remote_shm).shm_size)
        ≡ false
      → PoolReady w i c k local_shm remote_shm cfg
          (buf_pool_init P w i c k local_shm remote_shm cfg)
  unfolding buf_pool_init fill_pool
  buf_pool_init_fills w i c k local_shm remote_shm cfg v fits =
      let q = pool_queue_of cfg local_shm remote_shm in
      let begun =
        queue_starts w.mem ((channel w i c).mng.pools k).bd_queue ((channel w i c).mng.pools k) cfg
          local_shm remote_shm v in
      let m =
        (Queue.init w.mem ((channel w i c).mng.pools k).bd_queue (
          queue_data (pool_of ((channel w i c).mng.pools k) cfg local_shm remote_shm) local_shm
            remote_shm)).2 in
      let filled =
        populate-Filled m q k 0 cfg.num_bufs begun.2 (rw begun.3 (omega (arith, v.few_bufs))) in
      let kept = mark-kept (populate m q k 0 cfg.num_bufs).1 q queue_init_done filled.linked in
      rw (few v, begun.0, begun.1, fits, filled.status)
        (record {
          status = refl;
          stored =
              put_pool_self (put_mem w m) i c k
                (pool_of ((channel w i c).mng.pools k) cfg local_shm remote_shm);
          marked =
              ap (λ r. r.sentinel)
                (rings_own filled.linked
                  (record ((populate m q k 0 cfg.num_bufs).1.rings local_shm) {
                    sentinel = queue_init_done;
                  }));
          linked = kept.2;
          outgoing_all = kept.0 ∙ filled.queued ∙ ap (λ l. l ++ free_bds k 0 cfg.num_bufs) begun.3;
          incoming_all = ap length (kept.1 ∙ filled.waiting) ∙ begun.4;
        })
