-- ===== src/Hw/Outcome.antt =====
-- What _ipc_hw_init() returns and leaves behind.

use ipc_shm.Common.{
  ℕ, ◌≡◌, ◌≢◌, refl, sym, ap, ◌∙◌, arith, false, Option, none, some, Bool-cases, Option-cases, ◌⊎◌,
  inl, inr, ==_of_eq, ==_false,
}
use native.Mathlib.Decide.{ℕ_discrete}
use ipc_shm.Types.{Status, einval, ShmCfg}
use ipc_shm.Memory.{null}
use ipc_shm.Hw.{
  cpxnum, Mmio, HwPriv, HwState, Chip, is_distrusted, is_same_irq, local_core_of, remote_core_of,
  choose_tx, choose_rx, put_hw, irq_disable, trust, init_cores, init_irqs, init_remote, init_local,
  init_at,
}

-- What the private data say of a valid configuration.
pub record Configured (K : Chip) (cfg : ShmCfg) (cpx : ℕ) (p : HwPriv) : Type 0 where
  pub local_core : local_core_of K cfg.local_core.type cfg.local_core.index ≡ some p.local_core
  pub remote_core : remote_core_of K cfg.remote_core.type cfg.remote_core.index ≡ some p.remote_core
  pub trusted : is_distrusted (K.trust_cores cfg.local_core.trusted) K.a53_tr p.local_core ≡ false
  pub not_same_irq : is_same_irq cfg.inter_core_tx_irq cfg.inter_core_rx_irq ≡ false
  pub not_here : p.remote_core ≢ cpx
  pub not_local : p.remote_core ≢ p.local_core
  pub tx_irq : p.mscm_tx_irq ≡ cfg.inter_core_tx_irq
  pub rx_irq : p.mscm_rx_irq ≡ cfg.inter_core_rx_irq
  pub msi_tx : (n : ℕ) → cfg.inter_core_tx_irq ≡ some n → K.msi n ≡ some p.msi_tx_irq
  pub msi_rx : (n : ℕ) → cfg.inter_core_rx_irq ≡ some n → K.msi n ≡ some p.msi_rx_irq
  pub spi : (n : ℕ) → cfg.inter_core_rx_irq ≡ some n → K.spi n ≡ some p.spi_index

module _ (K : Chip) where
  -- what the switches have stored
  pub record Chosen (tx rx : Option ℕ) (p p' : HwPriv) : Type 0 where
    pub msi_tx : (n : ℕ) → tx ≡ some n → K.msi n ≡ some p'.msi_tx_irq
    pub msi_rx : (n : ℕ) → rx ≡ some n → K.msi n ≡ some p'.msi_rx_irq
    pub spi : (n : ℕ) → rx ≡ some n → K.spi n ≡ some p'.spi_index
    pub mscm : p'.ipc_mscm ≡ p.ipc_mscm

  choose_tx_lem : (tx : Option ℕ) (p p' : HwPriv) → choose_tx K tx p ≡ some p' → Chosen tx none p p'
  unfolding choose_tx
  choose_tx_lem none p p' e =
      let same : p ≡ p' = cc e in
      record {
        msi_tx = λ n x. absurd (cc x);
        msi_rx = λ n x. absurd (cc x);
        spi = λ n x. absurd (cc x);
        mscm = ap (λ q. q.ipc_mscm) (sym same);
      }
  choose_tx_lem (some k) p p' e = elim (Option-cases (K.msi k)) [
    | inl x ↦ absurd (cc (rw (choose_tx, x) at e))
    | inr (m, x) ↦
        let same : record p { msi_tx_irq = m } ≡ p' = cc (rw (choose_tx, x) at e) in
        rw (sym same) (record {
          msi_tx = λ n y. let it : k ≡ n = cc y in rw it at x;
          msi_rx = λ n y. absurd (cc y);
          spi = λ n y. absurd (cc y);
          mscm = refl;
        })
  ]

  choose_rx_lem :
      (tx rx : Option ℕ) (o p p' : HwPriv)
      → Chosen tx none o p
      → choose_rx K rx p ≡ some p'
      → Chosen tx rx o p'
  unfolding choose_rx
  choose_rx_lem tx none o p p' c e = let same : p ≡ p' = cc e in rw same at c
  choose_rx_lem tx (some k) o p p' c e = elim (Option-cases (K.spi k)) [
    | inl x ↦ absurd (cc (rw (choose_rx, x) at e))
    | inr (l, y) ↦ elim (Option-cases (K.msi k)) [
      | inl x ↦ absurd (cc (rw (choose_rx, y, x) at e))
      | inr (m, x) ↦
          let same : record p { spi_index = l; msi_rx_irq = m } ≡ p' =
            cc (rw (choose_rx, y, x) at e) in
          rw (sym same) (record {
            msi_tx = c.msi_tx;
            msi_rx = λ n z. let it : k ≡ n = cc z in rw it at x;
            spi = λ n z. let it : k ≡ n = cc z in rw it at y;
            mscm = c.mscm;
          })
    ]
  ]

-- The call was refused before it wrote to a register.
pub record Refused {S : Type 0} (st : HwState S) (r : Status × HwState S) : Type 0 where
  pub status : r.0 ≡ einval
  pub untouched : r.1.regs ≡ st.regs

-- The private data were stored, then the receive interrupt was disabled, and then the trusted cores
-- were added unless the router is locked.
pub record Done {S : Type 0} (M : Mmio S) (K : Chip) (st : HwState S) (i : ℕ) (cfg : ShmCfg)
    (addr : ℕ) (r : Status × HwState S) : Type 0 where
  pub stored : HwState S
  pub regs : stored.regs ≡ st.regs
  pub mscm : (stored.priv i).ipc_mscm ≡ addr
  pub configured : Configured K cfg (M.read st.regs addr cpxnum) (stored.priv i)
  pub finish : r ≡ trust M (irq_disable M stored i) i (K.trust_cores cfg.local_core.trusted)

put_hw_self : {S : Type 0} (st : HwState S) (i : ℕ) (p : HwPriv) → (put_hw st i p).priv i ≡ p
put_hw_self st i p = ground arith

module _ {S : Type 0} (M : Mmio S) (K : Chip) (cfg : ShmCfg) (i : ℕ) where
  refused :
      (st st' : HwState S) (addr : ℕ)
      → st'.regs ≡ st.regs
      → Refused st (einval, st') ⊎ Done M K st i cfg addr (einval, st')
  refused st st' addr e = inl (record { status = refl; untouched = e })

  module _ (st : HwState S) (l r : ℕ)
      (local : local_core_of K cfg.local_core.type cfg.local_core.index ≡ some l)
      (remote : remote_core_of K cfg.remote_core.type cfg.remote_core.index ≡ some r)
      (trusted : is_distrusted (K.trust_cores cfg.local_core.trusted) K.a53_tr l ≡ false) where
    module _ (irqs : is_same_irq cfg.inter_core_tx_irq cfg.inter_core_rx_irq ≡ false)
        (here : r ≢ M.read st.regs (st.priv i).ipc_mscm cpxnum) (apart : r ≢ l) where
      init_cores-Done :
          (st' : HwState S)
          → st'.regs ≡ st.regs
          → Chosen K cfg.inter_core_tx_irq cfg.inter_core_rx_irq (st.priv i) (st'.priv i)
          → Done M K st i cfg (st.priv i).ipc_mscm (init_cores M K st' i cfg l r)
      unfolding init_cores
      init_cores-Done st' same c =
          let p : HwPriv = record (st'.priv i) {
            mscm_tx_irq = cfg.inter_core_tx_irq;
            mscm_rx_irq = cfg.inter_core_rx_irq;
            remote_core = r;
            local_core = l;
          } in
          record {
            stored = put_hw st' i p;
            regs = same;
            mscm = rw (put_hw_self st' i p) c.mscm;
            configured = rw (put_hw_self st' i p) (record {
              local_core = local;
              remote_core = remote;
              trusted = trusted;
              not_same_irq = irqs;
              not_here = here;
              not_local = apart;
              tx_irq = refl;
              rx_irq = refl;
              msi_tx = c.msi_tx;
              msi_rx = c.msi_rx;
              spi = c.spi;
            });
            finish = refl;
          }

      -- The instance has the address already.
      init_irqs_outcome :
          Refused st (init_irqs M K st i cfg l r)
          ⊎ Done M K st i cfg (st.priv i).ipc_mscm (init_irqs M K st i cfg l r)
      unfolding init_irqs
      init_irqs_outcome = elim (Option-cases (choose_tx K cfg.inter_core_tx_irq (st.priv i))) [
        | inl e ↦ rw (init_irqs, e) (refused st st _ refl)
        | inr (p, e) ↦ elim (Option-cases (choose_rx K cfg.inter_core_rx_irq p)) [
          | inl e' ↦ rw (init_irqs, e, e') (refused st (put_hw st i p) _ refl)
          | inr (p', e') ↦
              let c =
                choose_rx_lem K cfg.inter_core_tx_irq _ (st.priv i) p p'
                  (choose_tx_lem K _ (st.priv i) p e) e' in
              rw (init_irqs, e, e')
                (inr (init_cores-Done (put_hw st i p') refl (rw (put_hw_self st i p') c)))
        ]
      ]

    init_remote_outcome :
        Refused st (init_remote M K st i cfg l r)
        ⊎ Done M K st i cfg (st.priv i).ipc_mscm (init_remote M K st i cfg l r)
    unfolding init_remote
    init_remote_outcome =
        elim (Bool-cases (is_same_irq cfg.inter_core_tx_irq cfg.inter_core_rx_irq)) [
          | inl e ↦ rw e (refused st st _ refl)
          | inr irqs ↦ elim (ℕ_discrete r (M.read st.regs (st.priv i).ipc_mscm cpxnum)) [
            | yes e ↦ rw (irqs, ==_of_eq _ _ e) (refused st st _ refl)
            | no here ↦ elim (ℕ_discrete r l) [
              | yes e ↦ rw (irqs, ==_false _ _ here, ==_of_eq _ _ e) (refused st st _ refl)
              | no apart ↦
                  rw (irqs, ==_false _ _ here, ==_false _ _ apart)
                    (init_irqs_outcome irqs here apart)
            ]
          ]
        ]

  init_local_outcome :
      (st : HwState S) (l : ℕ)
      → local_core_of K cfg.local_core.type cfg.local_core.index ≡ some l
      → Refused st (init_local M K st i cfg l)
        ⊎ Done M K st i cfg (st.priv i).ipc_mscm (init_local M K st i cfg l)
  unfolding init_local
  init_local_outcome st l local =
      elim (Bool-cases (is_distrusted (K.trust_cores cfg.local_core.trusted) K.a53_tr l)) [
        | inl e ↦ rw e (refused st st _ refl)
        | inr e ↦
            elim (Option-cases (remote_core_of K cfg.remote_core.type cfg.remote_core.index)) [
              | inl x ↦ rw (init_local, e, x) (refused st st _ refl)
              | inr (r, x) ↦ rw (init_local, e, x) (init_remote_outcome st l r local x e)
            ]
      ]

  -- Storing the address has written to no register.
  at_address :
      (st : HwState S) (p : HwPriv) (addr : ℕ) (r : Status × HwState S)
      → ((put_hw st i p).priv i).ipc_mscm ≡ addr
      → (Refused (put_hw st i p) r
          ⊎ Done M K (put_hw st i p) i cfg ((put_hw st i p).priv i).ipc_mscm r)
      → Refused st r ⊎ Done M K st i cfg addr r
  at_address st p addr r e (inl u) = inl (record { status = u.status; untouched = u.untouched })
  at_address st p addr r e (inr d) = inr (record {
    stored = d.stored;
    regs = d.regs;
    mscm = d.mscm ∙ e;
    configured = (rw e at d.configured);
    finish = d.finish;
  })

  -- _ipc_hw_init() either refuses the configuration with -EINVAL, and then it has written to no
  -- register; or the configuration is valid, namely its cores are cores of the chip, the trusted cores
  -- are allowed and have the local one, the two interrupts differ, and the remote core is neither this
  -- one nor the local one. Then the private data hold the cores, the address and the interrupts with
  -- their lines in the tables of the chip, and after them the receive interrupt is disabled and the
  -- lock of the router decides on 0 or -EACCES.
  pub init_at_outcome :
      (st : HwState S) (addr : ℕ)
      → Refused st (init_at M K st i cfg addr) ⊎ Done M K st i cfg addr (init_at M K st i cfg addr)
  unfolding init_at
  init_at_outcome st addr =
      let p : HwPriv = record (st.priv i) { ipc_mscm = addr } in
      let st' = put_hw st i p in
      elim (ℕ_discrete addr null) [
        | yes e ↦ rw (==_of_eq _ _ e) (refused st st _ refl)
        | no ne ↦ elim (Option-cases (local_core_of K cfg.local_core.type cfg.local_core.index)) [
          | inl x ↦ rw (init_at, ==_false _ _ ne, x) (refused st st' _ refl)
          | inr (l, x) ↦
              rw (init_at, ==_false _ _ ne, x)
                (at_address st p addr (init_local M K st' i cfg l)
                  (ap (λ q. q.ipc_mscm) (put_hw_self st i p)) (init_local_outcome st' l x))
        ]
      ]
