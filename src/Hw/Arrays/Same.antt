-- ===== src/Hw/Arrays/Same.antt =====
-- The calls that touch one register, on two register blocks that agree within the arrays.
use Prim.Native.Nat.{bit_and, bit_or}
use ipc_shm.Common.{
  ℕ, ◌≡◌, refl, ap, arith, true, not, ◌==◌, Bool-cases, inl, inr, ==_of_eq, ==_false, ◌^◌,
}
use native.Mathlib.Decide.{ℕ_discrete}
use ipc_shm.Types.{Status, einval}
use ipc_shm.Hw.{
  Reg, ircpcfg, irsprc, ipc_isr, ipc_igr, Mmio, HwPriv, HwState, put_hw, change, not32, gic500,
  igr_int_en, irq_enable, irq_disable, irq_notify, irq_clear, hw_free, ircpcfg_lock, trust,
}
use ipc_shm.Hw.Arrays.{Sizes, has, InRange, AllInRange, Agree}

module _ {S : Type 0} (M : Mmio S) where
  -- Only the initialization writes the private data.
  pub same_priv :
      (st : HwState S) (i : ℕ)
      → ((irq_enable M st i).priv ≡ st.priv)
        × ((irq_disable M st i).priv ≡ st.priv)
        × ((irq_notify M st i).priv ≡ st.priv)
        × ((irq_clear M st i).priv ≡ st.priv)
  unfolding irq_enable irq_disable irq_notify irq_clear
  same_priv st i = (ground arith, ground arith, ground arith, ground arith)

module _ {S : Type 0} {z : Sizes} where
  pub put_range :
      (st : HwState S) (i : ℕ) (p : HwPriv)
      → AllInRange z st
      → InRange z p
      → AllInRange z (put_hw st i p)
  unfolding AllInRange
  put_range st i p all one j = elim (ℕ_discrete i j) [
    | yes e ↦ rw (==_of_eq _ _ e) one
    | no ne ↦ rw (==_false _ _ ne) (all j)
  ]

  module _ {M N : Mmio S} (agree : Agree z M N) where
    -- A register of the arrays is changed in the same way.
    pub change_same :
        (st : HwState S) (i : ℕ) (r : Reg) (f : ℕ → ℕ)
        → has z r ≡ true
        → change M st i r f ≡ change N st i r f
    change_same st i r f e =
        rw (agree.read st.regs (st.priv i).ipc_mscm r e)
          (ap (λ x. record st { regs = x }) (agree.write st.regs (st.priv i).ipc_mscm r _ e))

    has_irsprc :
        (st : HwState S) (i : ℕ) → AllInRange z st → has z (irsprc (st.priv i).spi_index) ≡ true
    unfolding AllInRange has
    has_irsprc st i all = ground (arith, (all i).spi_index)

    has_isr :
        (st : HwState S) (i : ℕ)
        → AllInRange z st
        → has z (ipc_isr (st.priv i).local_core (st.priv i).msi_rx_irq) ≡ true
    unfolding AllInRange has
    has_isr st i all = ground (arith, (all i).local_core, (all i).msi_rx_irq)

    has_igr :
        (st : HwState S) (i : ℕ)
        → AllInRange z st
        → has z (ipc_igr (st.priv i).remote_core (st.priv i).msi_tx_irq) ≡ true
    unfolding AllInRange has
    has_igr st i all = ground (arith, (all i).remote_core, (all i).msi_tx_irq)

    pub freed_range : (st : HwState S) (i : ℕ) → AllInRange z st → AllInRange z (hw_free M st i)
    unfolding hw_free AllInRange
    freed_range st i all j = rw (same_priv M st i).3 (all j)

    pub ops_same :
        (st : HwState S) (i : ℕ)
        → AllInRange z st
        → (irq_enable M st i ≡ irq_enable N st i)
          × (irq_disable M st i ≡ irq_disable N st i)
          × (irq_notify M st i ≡ irq_notify N st i)
          × (irq_clear M st i ≡ irq_clear N st i)
          × (hw_free M st i ≡ hw_free N st i)
    unfolding irq_enable irq_disable irq_notify irq_clear hw_free
    ops_same st i all =
        let p = st.priv i in
        let isr = agree.write st.regs p.ipc_mscm _ (2 ^ p.remote_core) (has_isr st i all) in
        (
          rw (change_same st i _ (λ x. bit_or x gic500) (has_irsprc st i all)) refl,
          rw (change_same st i _ (λ x. bit_and x (not32 gic500)) (has_irsprc st i all)) refl,
          rw (agree.write st.regs p.ipc_mscm _ igr_int_en (has_igr st i all)) refl,
          rw isr refl,
          rw (isr, agree.unmap_intc) refl,
        )

    -- The two blocks give the same, and what is stored stays in range.
    pub record Fine (r r' : Status × HwState S) : Type 0 where
      pub same : r ≡ r'
      pub range : AllInRange z r.1

    pub trust-Fine :
        (st : HwState S) (i t : ℕ) → AllInRange z st → Fine (trust M st i t) (trust N st i t)
    unfolding trust AllInRange has
    trust-Fine st i t all =
        let p = st.priv i in
        let v = bit_or (N.read st.regs p.ipc_mscm ircpcfg) t in
        record {
          same =
              rw
                (
                  agree.read st.regs p.ipc_mscm ircpcfg refl,
                  agree.write st.regs p.ipc_mscm ircpcfg v refl,
                )
                refl;
          range = λ j.
              elim (Bool-cases
                (not (bit_and (M.read st.regs p.ipc_mscm ircpcfg) ircpcfg_lock == 0))) [
                  | inl e ↦ rw e (all j)
                  | inr e ↦ rw e (all j)
                ];
        }

    pub einval-Fine : (st : HwState S) → AllInRange z st → Fine (einval, st) (einval, st)
    einval-Fine st all = record { same = refl; range = all }
