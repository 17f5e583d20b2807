-- ===== src/Hw.antt =====
-- The hardware layers below hw/: the inter-core interrupts of the MSCM block. What S32gen1 and
-- S32G3XX have in common is here, over the tables of the chip; S32R47 differs and stands alone. The
-- registers are parameters.
pub mod Arrays
pub mod Outcome
pub mod Pairing
pub mod S32gen1
mod Tests
pub mod S32g3xx
pub mod S32r47
use Prim.Native.Nat.{bit_and, bit_or}
use ipc_shm.Common.{
  ℕ, ◌+◌, ◌-◌, ◌*◌, ◌^◌, Bool, true, false, ◌&&◌, ◌||◌, not, Option, none, some, ◌==◌,
  if◌then◌else◌, update,
}
use ipc_shm.Types.{
  Status, ok, einval, eacces, CoreType, core_default, core_a53, core_m7, LocalCore, RemoteCore,
  ShmCfg,
}
use ipc_shm.Memory.{null}

-- The registers of `struct ipc_mscm_regs` that the driver uses.
pub data Reg : Type 0 where
  cpxnum ircpcfg : Reg
  irsprc : (n : ℕ) → Reg
  ipc_isr ipc_igr : (core msi : ℕ) → Reg

-- readl() and writel() (or readw() and writew()) on a register of the block at an address, and
-- ipc_os_map_intc() and ipc_os_unmap_intc().
pub record Mmio (S : Type 0) : Type 0 where
  pub read : S → (base : ℕ) → Reg → ℕ
  pub write : S → (base : ℕ) → Reg → ℕ → S
  pub map_intc : S → ℕ × S
  pub unmap_intc : S → ℕ → S

-- `struct ipc_hw_priv_type`; `none` is IPC_IRQ_NONE, `ipc_mscm` an address.
pub record HwPriv : Type 0 where
  pub msi_tx_irq : ℕ  -- uint8_t
  pub msi_rx_irq : ℕ  -- uint8_t
  pub spi_index : ℕ  -- uint8_t
  pub mscm_tx_irq : Option ℕ
  pub mscm_rx_irq : Option ℕ
  pub remote_core : ℕ
  pub local_core : ℕ
  pub ipc_mscm : ℕ

-- `ipc_hw_priv`, and the state of the registers
pub record HwState (S : Type 0) : Type 0 where
  pub priv : ℕ → HwPriv
  pub regs : S

-- What differs between the chips: processor ids by core index, the trusted cores that are allowed
-- and how a configuration gives them, and the lines of an interrupt.
pub record Chip : Type 0 where
  pub a53 : ℕ → Option ℕ
  pub m7 : ℕ → Option ℕ
  pub default_local_core : ℕ
  pub default_remote_core : ℕ
  pub trust_cores : ℕ → ℕ
  pub a53_tr : ℕ
  pub msi : ℕ → Option ℕ
  pub spi : ℕ → Option ℕ

abbrev pub ircpcfg_lock : ℕ
ircpcfg_lock = 0x8000_0000

-- IPC_MSCM_IRSPRCn_GIC500
abbrev pub gic500 : ℕ
gic500 = 0x1

-- IPC_MSCM_IRCPnIGRn_INT_EN
abbrev pub igr_int_en : ℕ
igr_int_en = 0x1

-- the bits of an unsigned long, a uint32_t and an int that are not in a mask
abbrev pub not64 : ℕ → ℕ
not64 x = 2 ^ 64 - 1 - x

abbrev pub not32 : ℕ → ℕ
not32 x = 2 ^ 32 - 1 - x

-- the trusted cores are none, or not all of them are allowed, or the local core is not among them
abbrev pub is_distrusted : (trust_cores a53_tr local_core : ℕ) → Bool
is_distrusted trust_cores a53_tr local_core =
    (trust_cores == 0)
    || not (bit_and trust_cores (not64 a53_tr) == 0)
    || not (bit_and (2 ^ local_core) (not32 trust_cores) == 0)

-- it is not IPC_IRQ_NONE
abbrev pub is_irq : Option ℕ → Bool
is_irq none = false
is_irq (some _) = true

abbrev pub is_same_irq : Option ℕ → Option ℕ → Bool
is_same_irq (some tx) (some rx) = tx == rx
is_same_irq _ _ = false

module _ (K : Chip) where
  -- the switch on the type and the index of the local core; `none` is -EINVAL
  unfoldable pub local_core_of : CoreType → ℕ → Option ℕ
  local_core_of core_a53 index = K.a53 index
  local_core_of core_default index = some K.default_local_core
  local_core_of _ index = none

  unfoldable pub remote_core_of : CoreType → ℕ → Option ℕ
  remote_core_of core_a53 index = K.a53 index
  remote_core_of core_m7 index = K.m7 index
  remote_core_of core_default index = some K.default_remote_core
  remote_core_of _ index = none

  -- the switch on inter_core_tx_irq
  unfoldable pub choose_tx : Option ℕ → HwPriv → Option HwPriv
  choose_tx none p = some p
  choose_tx (some n) p = elim (K.msi n) [
    | none ↦ none
    | some msi ↦ some (record p { msi_tx_irq = msi })
  ]

  -- the switch on inter_core_rx_irq
  unfoldable pub choose_rx : Option ℕ → HwPriv → Option HwPriv
  choose_rx none p = some p
  choose_rx (some n) p = elim (K.spi n) [
    | none ↦ none
    | some spi ↦ elim (K.msi n) [
      | none ↦ none
      | some msi ↦ some (record p { spi_index = spi; msi_rx_irq = msi })
    ]
  ]

module _ {S : Type 0} where
  abbrev pub put_hw : HwState S → ℕ → HwPriv → HwState S
  put_hw st i p = record st { priv = update st.priv i p }

  abbrev pub get_rx_irq : HwState S → ℕ → Option ℕ
  get_rx_irq st i = (st.priv i).mscm_rx_irq

module _ {S : Type 0} (M : Mmio S) where
  -- one register of the instance is read and written
  abbrev pub change : HwState S → ℕ → Reg → (ℕ → ℕ) → HwState S
  change st i r f = record st {
    regs = M.write st.regs (st.priv i).ipc_mscm r (f (M.read st.regs (st.priv i).ipc_mscm r));
  }

  unfoldable pub irq_enable : HwState S → ℕ → HwState S
  irq_enable st i =
      let p = st.priv i in
      if is_irq p.mscm_rx_irq then change st i (irsprc p.spi_index) (λ x. bit_or x gic500) else st

  unfoldable pub irq_disable : HwState S → ℕ → HwState S
  irq_disable st i =
      let p = st.priv i in
      if is_irq p.mscm_rx_irq
      then change st i (irsprc p.spi_index) (λ x. bit_and x (not32 gic500))
      else st

  unfoldable pub irq_notify : HwState S → ℕ → HwState S
  irq_notify st i =
      let p = st.priv i in
      if is_irq p.mscm_tx_irq
      then record st {
        regs = M.write st.regs p.ipc_mscm (ipc_igr p.remote_core p.msi_tx_irq) igr_int_en;
      }
      else st

  unfoldable pub irq_clear : HwState S → ℕ → HwState S
  irq_clear st i =
      let p = st.priv i in
      if is_irq p.mscm_rx_irq
      then record st {
        regs = M.write st.regs p.ipc_mscm (ipc_isr p.local_core p.msi_rx_irq) (2 ^ p.remote_core);
      }
      else st

  unfoldable pub hw_free : HwState S → ℕ → HwState S
  unfolding irq_clear
  hw_free st i =
      let st' = irq_clear st i in record st' { regs = M.unmap_intc st'.regs (st'.priv i).ipc_mscm }

  -- the lock of the router, and the trusted cores
  unfoldable pub trust : HwState S → ℕ → ℕ → Status × HwState S
  trust st i trust_cores =
      if not (bit_and (M.read st.regs (st.priv i).ipc_mscm ircpcfg) ircpcfg_lock == 0)
      then (eacces, st)
      else (ok, change st i ircpcfg (λ x. bit_or x trust_cores))

  module _ (K : Chip) where
    -- the rest of the initialization, from the end of the switches on
    unfoldable pub init_cores :
        HwState S → ℕ → ShmCfg → (local_core remote_core : ℕ) → Status × HwState S
    unfolding trust irq_disable
    init_cores st i cfg local_core remote_core =
        let p : HwPriv = record (st.priv i) {
          mscm_tx_irq = cfg.inter_core_tx_irq;
          mscm_rx_irq = cfg.inter_core_rx_irq;
          remote_core = remote_core;
          local_core = local_core;
        } in
        trust (irq_disable (put_hw st i p) i) i (K.trust_cores cfg.local_core.trusted)

    -- the switches on the interrupts
    unfoldable pub init_irqs :
        HwState S → ℕ → ShmCfg → (local_core remote_core : ℕ) → Status × HwState S
    unfolding init_cores choose_tx choose_rx
    init_irqs st i cfg local_core remote_core =
        elim (choose_tx K cfg.inter_core_tx_irq (st.priv i)) [
          | none ↦ (einval, st)
          | some p ↦ elim (choose_rx K cfg.inter_core_rx_irq p) [
            | none ↦ (einval, put_hw st i p)
            | some p' ↦ init_cores (put_hw st i p') i cfg local_core remote_core
          ]
        ]

    unfoldable pub init_remote :
        HwState S → ℕ → ShmCfg → (local_core remote_core : ℕ) → Status × HwState S
    unfolding init_irqs
    init_remote st i cfg local_core remote_core =
        if is_same_irq cfg.inter_core_tx_irq cfg.inter_core_rx_irq
          || (remote_core == M.read st.regs (st.priv i).ipc_mscm cpxnum)
          || (remote_core == local_core)
        then (einval, st)
        else init_irqs st i cfg local_core remote_core

    unfoldable pub init_local : HwState S → ℕ → ShmCfg → ℕ → Status × HwState S
    unfolding init_remote remote_core_of
    init_local st i cfg local_core =
        if is_distrusted (K.trust_cores cfg.local_core.trusted) K.a53_tr local_core
        then (einval, st)
        else elim (remote_core_of K cfg.remote_core.type cfg.remote_core.index) [
          | none ↦ (einval, st)
          | some remote_core ↦ init_remote st i cfg local_core remote_core
        ]

    -- _ipc_hw_init()
    unfoldable pub init_at : HwState S → ℕ → ShmCfg → (periph_addr : ℕ) → Status × HwState S
    unfolding init_local local_core_of
    init_at st i cfg periph_addr =
        let st' = put_hw st i (record (st.priv i) { ipc_mscm = periph_addr }) in
        if periph_addr == null
        then (einval, st)
        else elim (local_core_of K cfg.local_core.type cfg.local_core.index) [
          | none ↦ (einval, st')
          | some local_core ↦ init_local st' i cfg local_core
        ]

    -- ipc_hw_init()
    unfoldable pub hw_init : HwState S → ℕ → ShmCfg → Status × HwState S
    unfolding init_at
    hw_init st i cfg =
        let (addr, s) = M.map_intc st.regs in init_at (record st { regs = s }) i cfg addr
