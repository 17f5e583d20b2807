-- ===== src/Hw/Arrays.antt =====
-- The registers that the driver touches lie within the arrays of `struct ipc_mscm_regs`.
pub mod Same
pub mod Choices
pub mod Init
use Prim.Native.Nat.{bit_and, bit_or}
use ipc_shm.Common.{
  ℕ, ◌<◌, ◌≡◌, refl, sym, ap, ◌∙◌, arith, Bool, true, false, ◌&&◌, ◌||◌, Option, none, some, List,
  [], ◌∷◌, ltb, not, ◌==◌, if◌then◌else◌, Bool-cases, Option-cases, ◌⊎◌, inl, inr, update, ==_of_eq,
  ==_false, ◌^◌,
}
use native.Mathlib.Decide.{ℕ_discrete}
use ipc_shm.Types.{Status, einval, ShmCfg, CoreType, core_default, core_a53, core_m7}
use ipc_shm.Memory.{null}
use ipc_shm.Hw.{
  Reg, cpxnum, ircpcfg, irsprc, ipc_isr, ipc_igr, Mmio, HwPriv, HwState, Chip, is_distrusted,
  is_same_irq, local_core_of, remote_core_of, choose_tx, choose_rx, put_hw, change, not32, gic500,
  igr_int_en, irq_enable, irq_disable, irq_notify, irq_clear, hw_free, ircpcfg_lock, trust,
  init_cores, init_irqs, init_remote, init_local, init_at, hw_init,
}

-- The sizes of the arrays: processors, interrupts of each, routing registers.
pub record Sizes : Type 0 where
  pub cp_count : ℕ
  pub irq_count : ℕ
  pub irsprc_count : ℕ

pub has : Sizes → Reg → Bool
has z cpxnum = true
has z ircpcfg = true
has z (irsprc n) = ltb n z.irsprc_count
has z (ipc_isr core msi) = ltb core z.cp_count && ltb msi z.irq_count
has z (ipc_igr core msi) = ltb core z.cp_count && ltb msi z.irq_count

-- The tables of a chip give indices of the arrays.
pub record Covers (z : Sizes) (K : Chip) : Type 0 where
  pub a53 : (n c : ℕ) → K.a53 n ≡ some c → c < z.cp_count
  pub m7 : (n c : ℕ) → K.m7 n ≡ some c → c < z.cp_count
  pub default_local_core : K.default_local_core < z.cp_count
  pub default_remote_core : K.default_remote_core < z.cp_count
  pub msi : (n m : ℕ) → K.msi n ≡ some m → m < z.irq_count
  pub spi : (n l : ℕ) → K.spi n ≡ some l → l < z.irsprc_count

-- What an instance has stored are indices of the arrays.
pub record InRange (z : Sizes) (p : HwPriv) : Type 0 where
  pub msi_tx_irq : p.msi_tx_irq < z.irq_count
  pub msi_rx_irq : p.msi_rx_irq < z.irq_count
  pub spi_index : p.spi_index < z.irsprc_count
  pub remote_core : p.remote_core < z.cp_count
  pub local_core : p.local_core < z.cp_count

pub AllInRange : {S : Type 0} → Sizes → HwState S → Type 0
AllInRange z st = (i : ℕ) → InRange z (st.priv i)

pub all_in_range :
    {S : Type 0} {z : Sizes} (st : HwState S) → ((i : ℕ) → InRange z (st.priv i)) → AllInRange z st
unfolding AllInRange
all_in_range st all = all

-- Two register blocks that do the same on the registers of the arrays.
pub record Agree {S : Type 0} (z : Sizes) (M N : Mmio S) : Type 0 where
  pub read : (s : S) (base : ℕ) (r : Reg) → has z r ≡ true → M.read s base r ≡ N.read s base r
  pub write :
      (s : S) (base : ℕ) (r : Reg) (v : ℕ)
      → has z r ≡ true
      → M.write s base r v ≡ N.write s base r v
  pub map_intc : (s : S) → M.map_intc s ≡ N.map_intc s
  pub unmap_intc : (s : S) (addr : ℕ) → M.unmap_intc s addr ≡ N.unmap_intc s addr

-- A call of the layer for an instance.
pub data Call : Type 0 where
  inits : ShmCfg → Call
  inits_at : ShmCfg → (periph_addr : ℕ) → Call
  enables disables notifies clears frees : Call

module _ {S : Type 0} (M : Mmio S) (K : Chip) where
  pub call : HwState S → ℕ → Call → HwState S
  call st i (inits cfg) = (hw_init M K st i cfg).1
  call st i (inits_at cfg addr) = (init_at M K st i cfg addr).1
  call st i enables = irq_enable M st i
  call st i disables = irq_disable M st i
  call st i notifies = irq_notify M st i
  call st i clears = irq_clear M st i
  call st i frees = hw_free M st i

  pub calls : HwState S → List (ℕ × Call) → HwState S
  calls st [] = st
  calls st ((i, c) ∷ cs) = calls (call st i c) cs
