-- ===== src/Hw/S32r47.antt =====
-- hw/s32r47: A53, M7, BBE32 and KQ8 cores. The private data take the cores before the checks, and an
-- interrupt is its own line; IRSPRC is indexed by the receive interrupt itself.
pub mod Bounds
use Prim.Native.Nat.{bit_and, bit_or}
use ipc_shm.Common.{
  ℕ, ◌^◌, Bool, true, false, ◌&&◌, ◌||◌, not, Option, none, some, leb, ltb, ◌==◌, if◌then◌else◌,
  update,
}
use ipc_shm.Types.{
  Status, ok, einval, eacces, CoreType, core_default, core_a53, core_m7, core_kq8, core_bbe32,
  ShmCfg,
}
use ipc_shm.Memory.{null}
use ipc_shm.Queue.{is_ok}
use ipc_shm.Hw.{
  cpxnum, ircpcfg, irsprc, ipc_isr, ipc_igr, Mmio, ircpcfg_lock, gic500, not32, is_irq, is_same_irq,
  is_distrusted,
}

-- `struct ipc_hw_priv_type`, without the size that nothing reads
pub record R47Priv : Type 0 where
  pub mscm_tx_irq : Option ℕ  -- int16_t
  pub mscm_rx_irq : Option ℕ  -- int16_t
  pub remote_core : ℕ
  pub local_core : ℕ
  pub ipc_mscm : ℕ

pub record R47State (S : Type 0) : Type 0 where
  pub priv : ℕ → R47Priv
  pub regs : S

abbrev pub a53 : ℕ → Option ℕ
a53 index =
    if index == 0x01
    then some 0
    else if index == 0x02
    then some 1
    else if index == 0x04
    then some 2
    else if index == 0x08
    then some 3
    else none

abbrev pub m7 : ℕ → Option ℕ
m7 index =
    if index == 0x01
    then some 4
    else if index == 0x02
    then some 5
    else if index == 0x04
    then some 6
    else none

abbrev pub bbe32 : ℕ → Option ℕ
bbe32 index = if index == 0x01 then some 7 else if index == 0x02 then some 8 else none

abbrev pub kq8 : ℕ → Option ℕ
kq8 index = if index == 0x01 then some 9 else if index == 0x02 then some 10 else none

abbrev pub default_local_core : ℕ
default_local_core = 0

abbrev pub default_remote_core : ℕ
default_remote_core = 4

abbrev pub a53_tr : ℕ
a53_tr = 0x0f

-- MSCM_INT10_IRQn
abbrev pub int10_irq : ℕ
int10_irq = 10

-- IPC_MSCM_CP_COUNT, IPC_MSCM_IRQ_COUNT, IPC_MSCM_IRSPRC_COUNT
abbrev pub cp_count : ℕ
cp_count = 11

abbrev pub irq_count : ℕ
irq_count = 13

abbrev pub irsprc_count : ℕ
irsprc_count = 240

unfoldable pub local_of : CoreType → ℕ → Option ℕ
local_of core_a53 index = a53 index
local_of core_default index = some default_local_core
local_of _ index = none

unfoldable pub remote_of : CoreType → ℕ → Option ℕ
remote_of core_a53 index = a53 index
remote_of core_m7 index = m7 index
remote_of core_kq8 index = kq8 index
remote_of core_bbe32 index = bbe32 index
remote_of core_default index = some default_remote_core
remote_of _ index = none

-- the interrupt is none of those there are
abbrev pub is_bad_irq : Option ℕ → Bool
is_bad_irq none = false
is_bad_irq (some n) = ltb int10_irq n

-- a DSP core interrupts on the first two only
abbrev pub is_bad_dsp_irq : Option ℕ → ℕ → Bool
is_bad_dsp_irq none remote_core = false
is_bad_dsp_irq (some n) remote_core =
    leb 7 remote_core && leb remote_core 10 && not (n == 0) && not (n == 1)

abbrev pub irq_no : Option ℕ → ℕ
irq_no none = 0
irq_no (some n) = n

module _ {S : Type 0} where
  abbrev pub put_r47 : R47State S → ℕ → R47Priv → R47State S
  put_r47 st i p = record st { priv = update st.priv i p }

  abbrev pub rx_irq_of : R47State S → ℕ → Option ℕ
  rx_irq_of st i = (st.priv i).mscm_rx_irq

  unfoldable pub local_core_init : R47State S → ℕ → ShmCfg → Status × R47State S
  unfolding local_of
  local_core_init st i cfg = elim (local_of cfg.local_core.type cfg.local_core.index) [
    | none ↦ (einval, st)
    | some core ↦
        let st' = put_r47 st i (record (st.priv i) { local_core = core }) in
        if is_distrusted cfg.local_core.trusted a53_tr core then (einval, st') else (ok, st')
  ]

  unfoldable pub remote_core_init : R47State S → ℕ → ShmCfg → Status × R47State S
  unfolding remote_of
  remote_core_init st i cfg = elim (remote_of cfg.remote_core.type cfg.remote_core.index) [
    | none ↦ (einval, st)
    | some core ↦ (ok, put_r47 st i (record (st.priv i) { remote_core = core }))
  ]

module _ {S : Type 0} (M : Mmio S) where
  unfoldable pub enable_irq : R47State S → ℕ → R47State S
  enable_irq st i =
      let p = st.priv i in
      let r = irsprc (irq_no p.mscm_rx_irq) in
      if is_irq p.mscm_rx_irq
      then record st {
        regs = M.write st.regs p.ipc_mscm r (bit_or (M.read st.regs p.ipc_mscm r) gic500);
      }
      else st

  unfoldable pub disable_irq : R47State S → ℕ → R47State S
  disable_irq st i =
      let p = st.priv i in
      let r = irsprc (irq_no p.mscm_rx_irq) in
      if is_irq p.mscm_rx_irq
      then record st {
        regs = M.write st.regs p.ipc_mscm r (bit_and (M.read st.regs p.ipc_mscm r) (not32 gic500));
      }
      else st

  unfoldable pub notify_irq : R47State S → ℕ → R47State S
  notify_irq st i =
      let p = st.priv i in
      if is_irq p.mscm_tx_irq
      then record st {
        regs = M.write st.regs p.ipc_mscm (ipc_igr p.remote_core (irq_no p.mscm_tx_irq)) 1;
      }
      else st

  unfoldable pub clear_irq : R47State S → ℕ → R47State S
  clear_irq st i =
      let p = st.priv i in
      if is_irq p.mscm_rx_irq
      then record st {
        regs =
            M.write st.regs p.ipc_mscm (ipc_isr p.local_core (irq_no p.mscm_rx_irq))
              (2 ^ p.remote_core);
      }
      else st

  unfoldable pub free_hw : R47State S → ℕ → R47State S
  unfolding clear_irq
  free_hw st i =
      let st' = clear_irq st i in record st' { regs = M.unmap_intc st'.regs (st'.priv i).ipc_mscm }

  -- the interrupts are stored, the receive interrupt is disabled, and the lock is looked at
  unfoldable pub store_irqs : R47State S → ℕ → ShmCfg → Status × R47State S
  unfolding disable_irq
  store_irqs st i cfg =
      let p : R47Priv = record (st.priv i) {
        mscm_tx_irq = cfg.inter_core_tx_irq;
        mscm_rx_irq = cfg.inter_core_rx_irq;
      } in
      let st' = disable_irq (put_r47 st i p) i in
      let mask = M.read st'.regs (st'.priv i).ipc_mscm ircpcfg in
      if not (bit_and mask ircpcfg_lock == 0) then (eacces, st') else (
        ok,
        record st' {
          regs =
              M.write st'.regs (st'.priv i).ipc_mscm ircpcfg (bit_or mask cfg.local_core.trusted);
        },
      )

  -- the checks behind the cores
  unfoldable pub check_irqs : R47State S → ℕ → ShmCfg → Status × R47State S
  unfolding store_irqs
  check_irqs st i cfg =
      let p = st.priv i in
      if is_same_irq cfg.inter_core_tx_irq cfg.inter_core_rx_irq
        || (p.remote_core == M.read st.regs p.ipc_mscm cpxnum)
        || (p.remote_core == p.local_core)
      then (einval, st)
      else if is_bad_irq cfg.inter_core_tx_irq
          || is_bad_irq cfg.inter_core_rx_irq
          || is_bad_dsp_irq cfg.inter_core_rx_irq p.remote_core
      then (einval, st)
      else store_irqs st i cfg

  -- _ipc_hw_init()
  unfoldable pub init_hw_at : R47State S → ℕ → ShmCfg → (periph_addr : ℕ) → Status × R47State S
  unfolding local_core_init remote_core_init check_irqs
  init_hw_at st i cfg periph_addr =
      let st₀ = put_r47 st i (record (st.priv i) { ipc_mscm = periph_addr }) in
      let (s₁, st₁) = local_core_init st₀ i cfg in
      let (s₂, st₂) = remote_core_init st₁ i cfg in
      if periph_addr == null
      then (einval, st)
      else if not (is_ok s₁)
      then (einval, st₁)
      else if not (is_ok s₂)
      then (einval, st₂)
      else check_irqs st₂ i cfg

  -- ipc_hw_init()
  unfoldable pub init_hw : R47State S → ℕ → ShmCfg → Status × R47State S
  unfolding init_hw_at
  init_hw st i cfg =
      let (addr, s) = M.map_intc st.regs in init_hw_at (record st { regs = s }) i cfg addr
