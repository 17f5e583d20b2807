-- ===== src/Hw/Arrays/Init.antt =====
-- The initialization on two register blocks that agree within the arrays, and any calls.

use ipc_shm.Common.{
  ℕ, ◌<◌, ◌≡◌, refl, ap, ◌∙◌, ◌||◌, List, [], ◌∷◌, ◌==◌, Bool-cases, Option-cases, inl, inr,
}
use ipc_shm.Types.{ShmCfg}
use ipc_shm.Memory.{null}
use ipc_shm.Hw.{
  cpxnum, Mmio, HwPriv, HwState, Chip, is_distrusted, is_same_irq, local_core_of, remote_core_of,
  choose_tx, choose_rx, put_hw, irq_disable, trust, init_cores, init_irqs, init_remote, init_local,
  init_at, hw_init,
}
use ipc_shm.Hw.Arrays.{
  Sizes, has, Covers, AllInRange, Agree, Call, call, calls, inits, inits_at, enables, disables,
  notifies, clears, frees,
}
use ipc_shm.Hw.Arrays.Same.{
  put_range, same_priv, Fine, freed_range, ops_same, trust-Fine, einval-Fine,
}
use ipc_shm.Hw.Arrays.Choices.{
  choose_tx-InRange, choose_rx-InRange, local_core_of-lt, remote_core_of-lt,
}

module _ {S : Type 0} {z : Sizes} {M N : Mmio S} (agree : Agree z M N) {K : Chip}
    (C : Covers z K) where
  init_cores-Fine :
      (st : HwState S) (i : ℕ) (cfg : ShmCfg) (l r : ℕ)
      → AllInRange z st
      → l < z.cp_count
      → r < z.cp_count
      → Fine agree (init_cores M K st i cfg l r) (init_cores N K st i cfg l r)
  unfolding init_cores AllInRange
  init_cores-Fine st i cfg l r all lt lt' =
      let p : HwPriv = record (st.priv i) {
        mscm_tx_irq = cfg.inter_core_tx_irq;
        mscm_rx_irq = cfg.inter_core_rx_irq;
        remote_core = r;
        local_core = l;
      } in
      let st' = put_hw st i p in
      let all' = put_range st i p all (record {
        msi_tx_irq = (all i).msi_tx_irq;
        msi_rx_irq = (all i).msi_rx_irq;
        spi_index = (all i).spi_index;
        remote_core = lt';
        local_core = lt;
      }) in
      let off = (ops_same agree st' i all').1 in
      let f =
        trust-Fine agree (irq_disable M st' i) i (K.trust_cores cfg.local_core.trusted)
          (λ j. rw (same_priv M st' i).1 (all' j)) in
      record {
        same = f.same ∙ ap (λ x. trust N x i (K.trust_cores cfg.local_core.trusted)) off;
        range = f.range;
      }

  init_irqs-Fine :
      (st : HwState S) (i : ℕ) (cfg : ShmCfg) (l r : ℕ)
      → AllInRange z st
      → l < z.cp_count
      → r < z.cp_count
      → Fine agree (init_irqs M K st i cfg l r) (init_irqs N K st i cfg l r)
  unfolding init_irqs AllInRange
  init_irqs-Fine st i cfg l r all lt lt' =
      elim (Option-cases (choose_tx K cfg.inter_core_tx_irq (st.priv i))) [
        | inl e ↦ rw (init_irqs, e) (einval-Fine agree st all)
        | inr (p, e) ↦
            let one = choose_tx-InRange C _ _ p (all i) e in
            elim (Option-cases (choose_rx K cfg.inter_core_rx_irq p)) [
              | inl e' ↦
                  rw (init_irqs, e, e')
                    (einval-Fine agree (put_hw st i p) (put_range st i p all one))
              | inr (p', e') ↦
                  rw (init_irqs, e, e')
                    (init_cores-Fine (put_hw st i p') i cfg l r
                      (put_range st i p' all (choose_rx-InRange C _ p p' one e')) lt lt')
            ]
      ]

  init_remote-Fine :
      (st : HwState S) (i : ℕ) (cfg : ShmCfg) (l r : ℕ)
      → AllInRange z st
      → l < z.cp_count
      → r < z.cp_count
      → Fine agree (init_remote M K st i cfg l r) (init_remote N K st i cfg l r)
  unfolding init_remote has
  init_remote-Fine st i cfg l r all lt lt' =
      let f = init_irqs-Fine st i cfg l r all lt lt' in
      rw (agree.read st.regs (st.priv i).ipc_mscm cpxnum refl)
        (elim (Bool-cases (
          is_same_irq cfg.inter_core_tx_irq cfg.inter_core_rx_irq
          || (r == N.read st.regs (st.priv i).ipc_mscm cpxnum)
          || (r == l))) [ inl e ↦ rw e (einval-Fine agree st all) | inr e ↦ rw e f ])

  init_local-Fine :
      (st : HwState S) (i : ℕ) (cfg : ShmCfg) (l : ℕ)
      → AllInRange z st
      → l < z.cp_count
      → Fine agree (init_local M K st i cfg l) (init_local N K st i cfg l)
  unfolding init_local
  init_local-Fine st i cfg l all lt =
      elim (Bool-cases (is_distrusted (K.trust_cores cfg.local_core.trusted) K.a53_tr l)) [
        | inl e ↦ rw e (einval-Fine agree st all)
        | inr e ↦
            elim (Option-cases (remote_core_of K cfg.remote_core.type cfg.remote_core.index)) [
              | inl x ↦ rw (init_local, e, x) (einval-Fine agree st all)
              | inr (r, x) ↦
                  rw (init_local, e, x)
                    (init_remote-Fine st i cfg l r all lt (remote_core_of-lt C _ _ r x))
            ]
      ]

  init_at-Fine :
      (st : HwState S) (i : ℕ) (cfg : ShmCfg) (addr : ℕ)
      → AllInRange z st
      → Fine agree (init_at M K st i cfg addr) (init_at N K st i cfg addr)
  unfolding init_at AllInRange
  init_at-Fine st i cfg addr all =
      let p : HwPriv = record (st.priv i) { ipc_mscm = addr } in
      let all' = put_range st i p all (record {
        msi_tx_irq = (all i).msi_tx_irq;
        msi_rx_irq = (all i).msi_rx_irq;
        spi_index = (all i).spi_index;
        remote_core = (all i).remote_core;
        local_core = (all i).local_core;
      }) in
      elim (Bool-cases (addr == null)) [
        | inl e ↦ rw e (einval-Fine agree st all)
        | inr e ↦ elim (Option-cases (local_core_of K cfg.local_core.type cfg.local_core.index)) [
          | inl x ↦ rw (init_at, e, x) (einval-Fine agree (put_hw st i p) all')
          | inr (l, x) ↦
              rw (init_at, e, x)
                (init_local-Fine (put_hw st i p) i cfg l all' (local_core_of-lt C _ _ l x))
        ]
      ]

  hw_init-Fine :
      (st : HwState S) (i : ℕ) (cfg : ShmCfg)
      → AllInRange z st
      → Fine agree (hw_init M K st i cfg) (hw_init N K st i cfg)
  unfolding hw_init AllInRange
  hw_init-Fine st i cfg all =
      let a = M.map_intc st.regs in
      let f = init_at-Fine (record st { regs = a.1 }) i cfg a.0 all in
      record {
        same =
            f.same
            ∙ ap (λ x. init_at N K (record st { regs = x.1 }) i cfg x.0) (agree.map_intc st.regs);
        range = f.range;
      }

  -- A call on either block.
  call_same :
      (st : HwState S) (i : ℕ) (c : Call)
      → AllInRange z st
      → (call M K st i c ≡ call N K st i c) × AllInRange z (call M K st i c)
  unfolding call AllInRange
  call_same st i (inits cfg) all =
      let f = hw_init-Fine st i cfg all in (ap (λ r. r.1) f.same, f.range)
  call_same st i (inits_at cfg addr) all =
      let f = init_at-Fine st i cfg addr all in (ap (λ r. r.1) f.same, f.range)
  call_same st i enables all = ((ops_same agree st i all).0, λ j. rw (same_priv M st i).0 (all j))
  call_same st i disables all = ((ops_same agree st i all).1, λ j. rw (same_priv M st i).1 (all j))
  call_same st i notifies all = ((ops_same agree st i all).2, λ j. rw (same_priv M st i).2 (all j))
  call_same st i clears all = ((ops_same agree st i all).3, λ j. rw (same_priv M st i).3 (all j))
  call_same st i frees all = ((ops_same agree st i all).4, freed_range agree st i all)

-- Every register that the driver touches lies within the arrays of `struct ipc_mscm_regs`, whatever
-- calls come in whatever order, with valid and invalid configurations, on a chip whose tables give
-- indices of the arrays, and from private data that do: two register blocks that do the same on the
-- registers of the arrays get the same calls. And the private data stay in range.
pub calls_inside :
    {S : Type 0} {z : Sizes} {M N : Mmio S} {K : Chip}
    → Agree z M N
    → Covers z K
    → (st : HwState S) (cs : List (ℕ × Call)) → AllInRange z st
    → (calls M K st cs ≡ calls N K st cs) × AllInRange z (calls M K st cs)
unfolding calls
calls_inside agree C st [] all = (refl, all)
calls_inside {S} {z} {M} {N} {K} agree C st ((i, c) ∷ cs) all =
    let first = call_same agree C st i c all in
    let rest = calls_inside agree C (call M K st i c) cs first.1 in
    (rest.0 ∙ ap (λ x. calls N K x cs) first.0, rest.1)
