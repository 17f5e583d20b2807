-- ===== src/Os/Mapping.antt =====
-- What ipc_os_init() has done when it returns 0.
use ipc_shm.Common.{
  ℕ, ◌≡◌, ◌≢◌, refl, ◌∙◌, arith, true, Option, none, some, ltb, ◌==◌, Bool-cases, Option-cases, inl,
  inr, ==_of_eq, ==_false,
}
use native.Mathlib.Decide.{ℕ_discrete}
use ipc_shm.Types.{ok, ShmCfg, max_instances}
use ipc_shm.Memory.{null}
use ipc_shm.Queue.{is_ok, not_ok}
use ipc_shm.Os.{OsInstance, OsState}
use ipc_shm.Os.Setup.{
  Kernel, put_rest, put_os, shares_from, enable, store_irq, get_irq_number, start_irq, choose_irq,
  map_remote, take_remote, map_local, os_init,
}

-- The instance has both memories, the callback and the configuration.
pub record Prepared (cfg : ShmCfg) (rx_cb : ℕ) (p : OsInstance) : Type 0 where
  pub local_mapped : p.local_virt_shm ≢ null
  pub remote_mapped : p.remote_virt_shm ≢ null
  pub local_phys : p.local_phys_shm ≡ cfg.local_shm_addr
  pub remote_phys : p.remote_phys_shm ≡ cfg.remote_shm_addr
  pub size : p.shm_size ≡ cfg.shm_size
  pub callback : p.rx_cb ≡ rx_cb

-- The instance is up, and the others are as they were.
pub record Up {S : Type 0} (st : OsState S) (i : ℕ) (cfg : ShmCfg) (rx_cb : ℕ) (st' : OsState S)
    : Type 0 where
  pub prepared : Prepared cfg rx_cb (st'.instances i)
  pub enabled : (st'.instances i).is_enabled ≡ true
  pub others : (k : ℕ) → i ≢ k → st'.instances k ≡ st.instances k

pub put_os_self :
    {S : Type 0} (st : OsState S) (i : ℕ) (p : OsInstance) → (put_os st i p).instances i ≡ p
put_os_self st i p = ground arith

-- What the instance `i` holds in `st` is put to the test by whatever comes behind it.
put_os-Up :
    {S : Type 0} {st st' : OsState S} {i : ℕ} {cfg : ShmCfg} {rx_cb : ℕ} (p : OsInstance) (s : S)
    → Up (put_rest (put_os st i p) s) i cfg rx_cb st'
    → Up st i cfg rx_cb st'
put_os-Up {S} {st} {st'} {i} p s u = record {
  prepared = u.prepared;
  enabled = u.enabled;
  others = λ k ne. u.others k ne ∙ rw (==_false i k ne) refl;
}

put_rest-Up :
    {S : Type 0} {st st' : OsState S} {i : ℕ} {cfg : ShmCfg} {rx_cb : ℕ} {s : S}
    → Up (put_rest st s) i cfg rx_cb st'
    → Up st i cfg rx_cb st'
put_rest-Up u = record { prepared = u.prepared; enabled = u.enabled; others = u.others }

module _ {S : Type 0} (K : Kernel S) (i : ℕ) (cfg : ShmCfg) (rx_cb : ℕ) where
  enable-Up :
      (st : OsState S) → Prepared cfg rx_cb (st.instances i) → Up st i cfg rx_cb (enable st i)
  unfolding enable
  enable-Up st v =
      let p : OsInstance = record (st.instances i) { is_enabled = true } in
      record {
        prepared = rw (put_os_self st i p) (record {
          local_mapped = v.local_mapped;
          remote_mapped = v.remote_mapped;
          local_phys = v.local_phys;
          remote_phys = v.remote_phys;
          size = v.size;
          callback = v.callback;
        });
        enabled = rw (put_os_self st i p) refl;
        others = λ k ne. rw (==_false i k ne) refl;
      }

  start_irq-Up :
      (st : OsState S)
      → Prepared cfg rx_cb (st.instances i)
      → (start_irq K st i cfg).0 ≡ ok
      → Up st i cfg rx_cb (start_irq K st i cfg).1
  unfolding start_irq
  start_irq-Up st v good =
      elim (Bool-cases (shares_from st i (st.instances i).irq_num 0 max_instances)) [
        | inl e ↦ rw e (enable-Up st v)
        | inr e ↦ elim (Option-cases (st.instances i).irq_num) [
          | inl x ↦ rw (start_irq, e, x) (enable-Up st v)
          | inr (n, x) ↦ elim (Bool-cases (is_ok (K.request_irq st.rest n).0)) [
            | inl fine ↦
                rw (start_irq, e, x, fine)
                  (put_rest-Up (enable-Up (put_rest st (K.request_irq st.rest n).1) v))
            | inr bad ↦ absurd (not_ok _ bad (rw (start_irq, e, x, bad) at good))
          ]
        ]
      ]

  irq-Prepared :
      (st : OsState S) (num : Option ℕ)
      → Prepared cfg rx_cb (st.instances i)
      → Prepared cfg rx_cb ((put_os st i (record (st.instances i) { irq_num = num })).instances i)
  irq-Prepared st num v =
      rw (put_os_self st i (record (st.instances i) { irq_num = num })) (record {
        local_mapped = v.local_mapped;
        remote_mapped = v.remote_mapped;
        local_phys = v.local_phys;
        remote_phys = v.remote_phys;
        size = v.size;
        callback = v.callback;
      })

  -- the number of the interrupt is stored, and it is started
  stored-Up :
      (st : OsState S) (num : Option ℕ) (s : S)
      → Prepared cfg rx_cb (st.instances i)
      → let st' = put_rest (put_os st i (record (st.instances i) { irq_num = num })) s in
        (start_irq K st' i cfg).0 ≡ ok → Up st i cfg rx_cb (start_irq K st' i cfg).1
  stored-Up st num s v good =
      put_os-Up (record (st.instances i) { irq_num = num }) s
        (start_irq-Up (put_rest (put_os st i (record (st.instances i) { irq_num = num })) s)
          (irq-Prepared st num v) good)

  found-Up :
      (st : OsState S) (found : Option (Option ℕ)) (s : S)
      → Prepared cfg rx_cb (st.instances i)
      → (start_irq K (put_rest (store_irq st i found) s) i cfg).0 ≡ ok
      → Up st i cfg rx_cb (start_irq K (put_rest (store_irq st i found) s) i cfg).1
  unfolding store_irq
  found-Up st none s v good = put_rest-Up (start_irq-Up (put_rest st s) v good)
  found-Up st (some num) s v good = stored-Up st num s v good

  choose_irq-Up :
      (st : OsState S) (rx : Option ℕ)
      → Prepared cfg rx_cb (st.instances i)
      → (choose_irq K st i cfg rx).0 ≡ ok
      → Up st i cfg rx_cb (choose_irq K st i cfg rx).1
  unfolding choose_irq
  choose_irq-Up st none v good = stored-Up st none st.rest v good
  choose_irq-Up st (some _) v good =
      let r = get_irq_number K st.rest i in
      elim (Bool-cases (is_ok r.0)) [
        | inr bad ↦ absurd (not_ok _ bad (rw (choose_irq, bad) at good))
        | inl fine ↦ rw (choose_irq, fine) (found-Up st r.1 r.2 v (rw (choose_irq, fine) at good))
      ]

  map_remote-Up :
      (st : OsState S)
      → (st.instances i).local_virt_shm ≢ null
      → (map_remote K st i cfg rx_cb).0 ≡ ok
      → Up st i cfg rx_cb (map_remote K st i cfg rx_cb).1
  unfolding map_remote
  map_remote-Up st mapped good =
      let r = K.ioremap st.rest cfg.remote_shm_addr cfg.shm_size in
      let p : OsInstance = record (st.instances i) {
        remote_virt_shm = r.0;
        shm_size = cfg.shm_size;
        local_phys_shm = cfg.local_shm_addr;
        remote_phys_shm = cfg.remote_shm_addr;
        rx_cb = rx_cb;
      } in
      elim (ℕ_discrete r.0 null) [
        | yes e ↦ absurd (cc (rw (map_remote, ==_of_eq _ _ e) at good))
        | no ne ↦
            rw (map_remote, ==_false _ _ ne)
              (put_os-Up p r.1 (
                choose_irq-Up (put_rest (put_os st i p) r.1) cfg.inter_core_rx_irq
                  (rw (put_os_self st i p) (record {
                    local_mapped = mapped;
                    remote_mapped = ne;
                    local_phys = refl;
                    remote_phys = refl;
                    size = refl;
                    callback = refl;
                  }))
                  (rw (map_remote, ==_false _ _ ne) at good)))
      ]

  take_remote-Up :
      (st : OsState S)
      → (st.instances i).local_virt_shm ≢ null
      → (take_remote K st i cfg rx_cb).0 ≡ ok
      → Up st i cfg rx_cb (take_remote K st i cfg rx_cb).1
  unfolding take_remote
  take_remote-Up st mapped good =
      let r = K.request_mem_region st.rest cfg.remote_shm_addr cfg.shm_size in
      elim (Bool-cases r.0) [
        | inl e ↦
            rw (take_remote, e)
              (put_rest-Up (map_remote-Up (put_rest st r.1) mapped (rw (take_remote, e) at good)))
        | inr e ↦ absurd (cc (rw (take_remote, e) at good))
      ]

  map_local-Up :
      (st : OsState S)
      → (map_local K st i cfg rx_cb).0 ≡ ok
      → Up st i cfg rx_cb (map_local K st i cfg rx_cb).1
  unfolding map_local
  map_local-Up st good =
      let r = K.ioremap st.rest cfg.local_shm_addr cfg.shm_size in
      let p : OsInstance = record (st.instances i) { local_virt_shm = r.0 } in
      elim (ℕ_discrete r.0 null) [
        | yes e ↦ absurd (cc (rw (map_local, ==_of_eq _ _ e) at good))
        | no ne ↦
            rw (map_local, ==_false _ _ ne)
              (put_os-Up p r.1 (
                take_remote-Up (put_rest (put_os st i p) r.1) (rw (put_os_self st i p) ne)
                  (rw (map_local, ==_false _ _ ne) at good)))
      ]

  -- When ipc_os_init() returns 0, the instance has both memories mapped, its addresses, size and
  -- callback are those it was given, it is enabled, and the other instances are as they were.
  pub os_init-Up :
      (st : OsState S)
      → (os_init K st i cfg rx_cb).0 ≡ ok
      → Up st i cfg rx_cb (os_init K st i cfg rx_cb).1
  unfolding os_init
  os_init-Up st good =
      let r = K.request_mem_region st.rest cfg.local_shm_addr cfg.shm_size in
      elim (Bool-cases (rx_cb == null)) [
        | inl e ↦ absurd (cc (rw (os_init, e) at good))
        | inr some_cb ↦ elim (Bool-cases (ltb max_instances i)) [
          | inl e ↦ absurd (cc (rw (os_init, some_cb, e) at good))
          | inr valid ↦ elim (Bool-cases r.0) [
            | inr e ↦ absurd (cc (rw (os_init, some_cb, valid, e) at good))
            | inl e ↦
                rw (os_init, some_cb, valid, e)
                  (put_rest-Up
                    (map_local-Up (put_rest st r.1) (rw (os_init, some_cb, valid, e) at good)))
          ]
        ]
      ]
