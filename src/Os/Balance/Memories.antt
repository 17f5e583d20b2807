-- ===== src/Os/Balance/Memories.antt =====
-- The two memories that ipc_os_init() takes and maps.
use ipc_shm.Common.{
  ℕ, ◌+◌, ◌≡◌, ap, ◌∙◌, arith, ltb, ◌==◌, Bool-cases, inl, inr, ==_of_eq, ==_false,
}
use native.Mathlib.Decide.{ℕ_discrete}
use ipc_shm.Types.{ok, ShmCfg, max_instances}
use ipc_shm.Memory.{null}
use ipc_shm.Os.{OsInstance, OsState}
use ipc_shm.Os.Setup.{Kernel, put_rest, put_os, map_remote, take_remote, map_local, os_init}
use ipc_shm.Os.Mapping.{put_os_self}
use ipc_shm.Os.Balance.{Account, due}
use ipc_shm.Os.Balance.Start.{choose_irq-Paid}

module _ {S : Type 0} {K : Kernel S} (A : Account K) (i : ℕ) (cfg : ShmCfg) (rx_cb : ℕ) where
  -- Both memories are mapped, and what they weigh is held.
  map_remote-held :
      (st : OsState S)
      → (map_remote K st i cfg rx_cb).0 ≡ ok
      → let st' = (map_remote K st i cfg rx_cb).1 in
        (A.held st'.rest
          ≡ A.held st.rest + A.mapping (st'.instances i).remote_virt_shm + due A i st')
        × ((st'.instances i).local_virt_shm ≡ (st.instances i).local_virt_shm)
  unfolding map_remote
  map_remote-held st good =
      let r = K.ioremap st.rest cfg.remote_shm_addr cfg.shm_size in
      let p : OsInstance = record (st.instances i) {
        remote_virt_shm = r.0;
        shm_size = cfg.shm_size;
        local_phys_shm = cfg.local_shm_addr;
        remote_phys_shm = cfg.remote_shm_addr;
        rx_cb = rx_cb;
      } in
      elim (ℕ_discrete r.0 null) [
        | yes e ↦ absurd (cc (rw (map_remote, ==_of_eq _ _ e) at good))
        | no ne ↦
            let u =
              choose_irq-Paid A i cfg (put_rest (put_os st i p) r.1) cfg.inter_core_rx_irq
                (rw (map_remote, ==_false _ _ ne) at good) in
            let there = u.remote_virt ∙ ap (λ x. x.remote_virt_shm) (put_os_self st i p) in
            rw (map_remote, ==_false _ _ ne)
              (
                omega (
                  arith,
                  u.sum,
                  (rw (==_false _ _ ne) at (A.map st.rest cfg.remote_shm_addr cfg.shm_size)),
                  ap A.mapping there,
                ),
                u.local_virt ∙ ap (λ x. x.local_virt_shm) (put_os_self st i p),
              )
      ]

  take_remote-held :
      (st : OsState S)
      → (take_remote K st i cfg rx_cb).0 ≡ ok
      → let st' = (take_remote K st i cfg rx_cb).1 in
        (A.held st'.rest
          ≡ A.held st.rest
            + A.region cfg.remote_shm_addr
            + A.mapping (st'.instances i).remote_virt_shm
            + due A i st')
        × ((st'.instances i).local_virt_shm ≡ (st.instances i).local_virt_shm)
  unfolding take_remote
  take_remote-held st good =
      let r = K.request_mem_region st.rest cfg.remote_shm_addr cfg.shm_size in
      elim (Bool-cases r.0) [
        | inr e ↦ absurd (cc (rw (take_remote, e) at good))
        | inl e ↦
            let u = map_remote-held (put_rest st r.1) (rw (take_remote, e) at good) in
            rw (take_remote, e)
              (
                omega (arith, u.0, (rw e at (A.request st.rest cfg.remote_shm_addr cfg.shm_size))),
                u.1,
              )
      ]

  map_local-held :
      (st : OsState S)
      → (map_local K st i cfg rx_cb).0 ≡ ok
      → let st' = (map_local K st i cfg rx_cb).1 in
        A.held st'.rest
        ≡ A.held st.rest
          + A.mapping (st'.instances i).local_virt_shm
          + A.region cfg.remote_shm_addr
          + A.mapping (st'.instances i).remote_virt_shm
          + due A i st'
  unfolding map_local
  map_local-held st good =
      let r = K.ioremap st.rest cfg.local_shm_addr cfg.shm_size in
      let p : OsInstance = record (st.instances i) { local_virt_shm = r.0 } in
      elim (ℕ_discrete r.0 null) [
        | yes e ↦ absurd (cc (rw (map_local, ==_of_eq _ _ e) at good))
        | no ne ↦
            let u =
              take_remote-held (put_rest (put_os st i p) r.1)
                (rw (map_local, ==_false _ _ ne) at good) in
            let here = u.1 ∙ ap (λ x. x.local_virt_shm) (put_os_self st i p) in
            rw (map_local, ==_false _ _ ne)
              (omega (
                arith,
                u.0,
                (rw (==_false _ _ ne) at (A.map st.rest cfg.local_shm_addr cfg.shm_size)),
                ap A.mapping here,
              ))
      ]

  pub os_init-held :
      (st : OsState S)
      → (os_init K st i cfg rx_cb).0 ≡ ok
      → let st' = (os_init K st i cfg rx_cb).1 in
        A.held st'.rest
        ≡ A.held st.rest
          + A.region cfg.local_shm_addr
          + A.mapping (st'.instances i).local_virt_shm
          + A.region cfg.remote_shm_addr
          + A.mapping (st'.instances i).remote_virt_shm
          + due A i st'
  unfolding os_init
  os_init-held st good =
      let r = K.request_mem_region st.rest cfg.local_shm_addr cfg.shm_size in
      elim (Bool-cases (rx_cb == null)) [
        | inl e ↦ absurd (cc (rw (os_init, e) at good))
        | inr some_cb ↦ elim (Bool-cases (ltb max_instances i)) [
          | inl e ↦ absurd (cc (rw (os_init, some_cb, e) at good))
          | inr valid ↦ elim (Bool-cases r.0) [
            | inr e ↦ absurd (cc (rw (os_init, some_cb, valid, e) at good))
            | inl e ↦
                let u =
                  map_local-held (put_rest st r.1) (rw (os_init, some_cb, valid, e) at good) in
                rw (os_init, some_cb, valid, e)
                  (omega (arith, u, (rw e at (A.request st.rest cfg.local_shm_addr cfg.shm_size))))
          ]
        ]
      ]
