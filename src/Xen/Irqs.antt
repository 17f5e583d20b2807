-- ===== src/Xen/Irqs.antt =====
-- An instance of a guest without an interrupt.
use ipc_shm.Common.{
  ℕ, ◌≡◌, ◌≢◌, refl, ap, ◌∙◌, arith, true, false, Option, none, ltb, update, update_self,
  Bool-cases, inl, inr, ==_false, ==_of_eq, if◌then◌else◌,
}
use native.Mathlib.Decide.{ℕ_discrete}
use ipc_shm.Types.{ok, ShmCfg, max_instances}
use ipc_shm.Memory.{null}
use ipc_shm.Os.{softirq_budget}
use ipc_shm.Shm.State.{run}
use ipc_shm.Xen.{
  XenState, XenCalls, initialized_from, put_xen, put_calls, xen_irq, xen_map_remote,
  xen_take_remote, xen_map_local, xen_init, xen_free_irq, xen_poll_channels,
}

-- An instance that is polled; whether a number of an interrupt has been kept for it depends on the
-- other instances.
record Polled {S : Type 0} (i rx_cb : ℕ) (nums : ℕ → Option ℕ) (st' : XenState S) : Type 0 where
  pub callback : st'.rx_cb ≡ rx_cb
  pub no_irq : (st'.id i).irq_num ≡ none
  pub enabled : (st'.id i).is_enabled ≡ true
  pub kept :
      st'.irq_num_init
      ≡ (if initialized_from nums none 0 max_instances then nums else update nums i none)

module _ {S : Type 0} (X : XenCalls S) (i : ℕ) (cfg : ShmCfg) (rx_cb : ℕ) where
  xen_irq-Polled : (st : XenState S) → Polled i st.rx_cb st.irq_num_init (xen_irq X st i none)
  unfolding xen_irq
  xen_irq-Polled st = elim (Bool-cases (initialized_from st.irq_num_init none 0 max_instances)) [
    | inl e ↦ rw e (record {
      callback = refl;
      no_irq = ground arith;
      enabled = ground arith;
      kept = rw e refl;
    })
    | inr e ↦ rw e (record {
      callback = refl;
      no_irq = ground arith;
      enabled = ground arith;
      kept = rw e refl;
    })
  ]

  xen_map_remote-Polled :
      (st : XenState S)
      → cfg.inter_core_rx_irq ≡ none
      → (xen_map_remote X st i cfg rx_cb).0 ≡ ok
      → Polled i rx_cb st.irq_num_init (xen_map_remote X st i cfg rx_cb).1
  unfolding xen_map_remote
  xen_map_remote-Polled st without good =
      let r = X.ioremap st.rest cfg.remote_shm_addr cfg.shm_size in
      elim (ℕ_discrete r.0 null) [
        | yes e ↦ absurd (cc (rw (xen_map_remote, ==_of_eq _ _ e) at good))
        | no ne ↦ rw (xen_map_remote, ==_false _ _ ne, without) (xen_irq-Polled _)
      ]

  xen_take_remote-Polled :
      (st : XenState S)
      → cfg.inter_core_rx_irq ≡ none
      → (xen_take_remote X st i cfg rx_cb).0 ≡ ok
      → Polled i rx_cb st.irq_num_init (xen_take_remote X st i cfg rx_cb).1
  unfolding xen_take_remote
  xen_take_remote-Polled st without good =
      let r = X.request_mem_region st.rest cfg.remote_shm_addr cfg.shm_size in
      elim (Bool-cases r.0) [
        | inr e ↦ absurd (cc (rw (xen_take_remote, e) at good))
        | inl e ↦
            rw (xen_take_remote, e)
              (xen_map_remote-Polled (put_calls st r.1) without (rw (xen_take_remote, e) at good))
      ]

  xen_map_local-Polled :
      (st : XenState S)
      → cfg.inter_core_rx_irq ≡ none
      → (xen_map_local X st i cfg rx_cb).0 ≡ ok
      → Polled i rx_cb st.irq_num_init (xen_map_local X st i cfg rx_cb).1
  unfolding xen_map_local
  xen_map_local-Polled st without good =
      let r = X.ioremap st.rest cfg.local_shm_addr cfg.shm_size in
      let st' = put_xen st i (record (st.id i) { local_virt_shm = r.0 }) in
      elim (ℕ_discrete r.0 null) [
        | yes e ↦ absurd (cc (rw (xen_map_local, ==_of_eq _ _ e) at good))
        | no ne ↦
            rw (xen_map_local, ==_false _ _ ne)
              (xen_take_remote-Polled (put_calls st' r.1) without
                (rw (xen_map_local, ==_false _ _ ne) at good))
      ]

  xen_init-Polled :
      (st : XenState S)
      → cfg.inter_core_rx_irq ≡ none
      → (xen_init X st i cfg rx_cb).0 ≡ ok
      → (rx_cb ≢ null) × Polled i rx_cb st.irq_num_init (xen_init X st i cfg rx_cb).1
  unfolding xen_init
  xen_init-Polled st without good =
      let r = X.request_mem_region st.rest cfg.local_shm_addr cfg.shm_size in
      elim (ℕ_discrete rx_cb null) [
        | yes e ↦ absurd (cc (rw (xen_init, ==_of_eq _ _ e) at good))
        | no ne ↦ elim (Bool-cases (ltb max_instances i)) [
          | inl e ↦ absurd (cc (rw (xen_init, ==_false _ _ ne, e) at good))
          | inr valid ↦ elim (Bool-cases r.0) [
            | inr e ↦ absurd (cc (rw (xen_init, ==_false _ _ ne, valid, e) at good))
            | inl e ↦ (
              ne,
              rw (xen_init, ==_false _ _ ne, valid, e)
                  (xen_map_local-Polled (put_calls st r.1) without
                    (rw (xen_init, ==_false _ _ ne, valid, e) at good)),
            )
          ]
        ]
      ]

  -- When ipc_os_init() returns 0 for an instance that is configured without an interrupt, and no
  -- instance before it was: ipc_os_poll_channels() calls the receive callback with a budget of 128,
  -- but the instance counts as one that has requested an interrupt, so that ipc_os_free() asks the
  -- kernel to free the interrupt -1.
  pub polled_without_irq :
      (st : XenState S)
      → cfg.inter_core_rx_irq ≡ none
      → initialized_from st.irq_num_init none 0 max_instances ≡ false
      → (xen_init X st i cfg rx_cb).0 ≡ ok
      → let st' = (xen_init X st i cfg rx_cb).1 in
        (xen_poll_channels st' i ≡ run softirq_budget)
        × ((xen_free_irq X st' i).rest ≡ X.free_irq st'.rest none)
  unfolding xen_poll_channels xen_free_irq
  polled_without_irq st without first good =
      let (some_cb, v) = xen_init-Polled st without good in
      let kept =
        v.kept ∙ ap (λ b. if b then st.irq_num_init else update st.irq_num_init i none) first in
      let mine = ap (λ f. f i) kept ∙ update_self st.irq_num_init i none in
      let cb = v.callback in
      (rw (xen_poll_channels, v.no_irq, cb, ==_false _ _ some_cb) refl, rw (mine, v.no_irq) refl)
