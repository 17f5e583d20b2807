-- ===== src/Shm/Rx/Drain.antt =====
-- What a reception on a managed channel takes out of the queue and hands to the application, if the
-- callbacks keep away from the driver.
use ipc_shm.Common.{
  ℕ, zero, suc, ◌≡◌, refl, ap, sym, ◌∙◌, arith, List, [], ◌∷◌, ◌++◌, Bool-cases, ◌⊎◌, inl, inr,
  if◌then◌else◌, length,
}
use native.Mathlib.Decide.{ℕ_discrete}
use ipc_shm.Types.{ok, managed}
use ipc_shm.Memory.{Bd, put_ring}
use ipc_shm.Queue.{check_integrity}
use ipc_shm.Queue.Fifo.{
  incoming, IsLinked, slots, popped, own, theirs, pop-empty, pop-some, incoming-empty,
  incoming-popped, popped-IsLinked,
}
use ipc_shm.Queue.Frame.{
  WritesOnly, unwritten, written_trans, put_ring-WritesOnly, check_integrity-pop,
}
use ipc_shm.Shm.State.{World, Priv, Platform, App, channel, put_mem, put_plat}
use ipc_shm.Shm.Buffers.{lies_in}
use ipc_shm.Shm.Rx.{deliver, remote_buf, rx_bds, channel_rx, rx_typed}

-- A callback for managed channels that acts on nothing but its own state.
pub record Quiet {S : Type 0} (P : Platform S) (A : App S) : Type 0 where
  pub act : (cb cb_arg i id buf size : ℕ) → S → S
  pub only_plat :
      (cb cb_arg i id buf size : ℕ) (w : World S)
      → A.rx_managed cb cb_arg i id buf size w ≡ put_plat w (act cb cb_arg i id buf size w.plat)
  pub same_remote :
      (cb cb_arg i id buf size : ℕ) (s : S) (j : ℕ)
      → P.os_get_remote_shm (act cb cb_arg i id buf size s) j ≡ P.os_get_remote_shm s j

module _ {S : Type 0} {P : Platform S} {A : App S} (quiet : Quiet P A) where
  -- The calls for a list of descriptors, in order: one for each whose buffer passes the check of the
  -- remote shared memory at `base`.
  pub calls : (priv : ℕ → Priv) (base i c : ℕ) → List Bd → S → S
  calls priv base i c [] s = s
  calls priv base i c (bd ∷ bds) s =
      let chan = (priv i).channels c in
      let pool = chan.mng.pools bd.pool_id in
      let addr = remote_buf chan.mng bd in
      calls priv base i c bds (
        if lies_in base (priv i).shm_size addr pool.buf_size
        then quiet.act chan.mng.rx_cb chan.mng.cb_arg i chan.id addr bd.data_size s
        else s)

  deliver-calls :
      (w : World S) (i c : ℕ) (bd : Bd)
      → deliver P A w i c bd
        ≡ put_plat w (calls w.priv (P.os_get_remote_shm w.plat i) i c (bd ∷ []) w.plat)
  unfolding deliver calls
  deliver-calls w i c bd =
      let chan = channel w i c in
      let addr = remote_buf chan.mng bd in
      elim (Bool-cases (
        lies_in (P.os_get_remote_shm w.plat i) (w.priv i).shm_size addr
          (chan.mng.pools bd.pool_id).buf_size)) [
            | inl e ↦
                rw e (quiet.only_plat chan.mng.rx_cb chan.mng.cb_arg i chan.id addr bd.data_size w)
            | inr e ↦ rw e
          ]

  calls-remote :
      (priv : ℕ → Priv) (base i c : ℕ) (bd : Bd) (s : S) (j : ℕ)
      → P.os_get_remote_shm (calls priv base i c (bd ∷ []) s) j ≡ P.os_get_remote_shm s j
  unfolding calls
  calls-remote priv base i c bd s j =
      let chan = (priv i).channels c in
      let addr = remote_buf chan.mng bd in
      elim (Bool-cases (lies_in base (priv i).shm_size addr (chan.mng.pools bd.pool_id).buf_size)) [
        | inl e ↦
            rw e (quiet.same_remote chan.mng.rx_cb chan.mng.cb_arg i chan.id addr bd.data_size s j)
        | inr e ↦ rw e
      ]

  -- What a reception of at most `b` descriptors has done.
  pub record Drained (w : World S) (i c b : ℕ) (r : ℕ × World S) : Type 0 where
    pub taken : List Bd
    pub split :
        incoming w.mem (channel w i c).mng.bd_queue
        ≡ taken ++ incoming r.1.mem (channel w i c).mng.bd_queue
    pub count : length taken ≡ r.0
    pub full : (r.0 ≡ b) ⊎ (incoming r.1.mem (channel w i c).mng.bd_queue ≡ [])
    pub called : r.1.plat ≡ calls w.priv (P.os_get_remote_shm w.plat i) i c taken w.plat
    pub kept : r.1.priv ≡ w.priv
    pub written : WritesOnly (channel w i c).mng.bd_queue.push_ring w.mem r.1.mem
    pub linked : IsLinked r.1.mem (channel w i c).mng.bd_queue

  rx_bds-Drained :
      (w : World S) (i c b : ℕ)
      → IsLinked w.mem (channel w i c).mng.bd_queue
      → check_integrity w.mem (channel w i c).mng.bd_queue ≡ ok
      → Drained w i c b (rx_bds P A w i c b)
  unfolding rx_bds calls
  rx_bds-Drained w i c zero v sound = record {
    taken = [];
    split = refl;
    count = refl;
    full = inl refl;
    called = refl;
    kept = refl;
    written = unwritten _ w.mem;
    linked = v;
  }
  rx_bds-Drained w i c (suc b) v sound = elim (ℕ_discrete (own v).read (theirs v).write) [
    | yes empty ↦ rw (pop-empty v sound empty) (record {
      taken = [];
      split = refl;
      count = refl;
      full = inr (incoming-empty v empty);
      called = refl;
      kept = refl;
      written = unwritten _ w.mem;
      linked = v;
    })
    | no more ↦
        let q = (channel w i c).mng.bd_queue in
        let bd = slots q (theirs v) (own v).read in
        let m = put_ring w.mem q.push_ring (popped q (own v)) in
        let s = calls w.priv (P.os_get_remote_shm w.plat i) i c (bd ∷ []) w.plat in
        let next = rx_bds-Drained (put_plat (put_mem w m) s) i c b (popped-IsLinked v) (
          sym (ap (λ r. check_integrity r.2 q) (pop-some v sound more))
          ∙ check_integrity-pop w.mem q q
          ∙ sound) in
        rw (pop-some v sound more, deliver-calls (put_mem w m) i c bd)
          (record {
            taken = bd ∷ next.taken;
            split = incoming-popped v more ∙ ap (λ l. bd ∷ l) next.split;
            count = omega (arith, next.count);
            full = elim next.full [ inl e ↦ inl (omega (arith, e)) | inr e ↦ inr e ];
            called =
                rw (calls-remote w.priv (P.os_get_remote_shm w.plat i) i c bd w.plat i) at
                  next.called;
            kept = next.kept;
            written = written_trans (put_ring-WritesOnly w.mem q.push_ring _) next.written;
            linked = next.linked;
          })
  ]

  -- A reception with budget `b` on a managed channel whose rings are linked and initialized, with
  -- callbacks that only change the state of the layers below, takes the oldest waiting descriptors
  -- out in order. It returns how many, which is `b` unless nothing waits any more, makes the calls
  -- for them in that order, and leaves the private data as it was.
  pub channel_rx_drains :
      (w : World S) (i c b : ℕ)
      → (channel w i c).type ≡ managed
      → IsLinked w.mem (channel w i c).mng.bd_queue
      → check_integrity w.mem (channel w i c).mng.bd_queue ≡ ok
      → Drained w i c b (channel_rx P A w i c b)
  unfolding channel_rx rx_typed
  channel_rx_drains w i c b is v sound = rw is (rx_bds-Drained w i c b v sound)
