-- ===== src/Hw/Pairing.antt =====
-- The two ends of an inter-core interrupt.
use ipc_shm.Common.{ℕ, ◌^◌, ◌≡◌, refl, some}
use ipc_shm.Types.{ShmCfg}
use ipc_shm.Hw.{
  ipc_isr, ipc_igr, Mmio, HwState, Chip, igr_int_en, local_core_of, remote_core_of, irq_notify,
  irq_clear,
}
use ipc_shm.Hw.Outcome.{Configured}

-- Two configurations for the two ends: each names the other's core, and the interrupt `n` is sent by
-- the first and received by the second.
pub record Facing (K : Chip) (a b : ShmCfg) (n : ℕ) : Type 0 where
  pub there :
      remote_core_of K a.remote_core.type a.remote_core.index
      ≡ local_core_of K b.local_core.type b.local_core.index
  pub back :
      local_core_of K a.local_core.type a.local_core.index
      ≡ remote_core_of K b.remote_core.type b.remote_core.index
  pub sent : a.inter_core_tx_irq ≡ some n
  pub received : b.inter_core_rx_irq ≡ some n

module _ {S T : Type 0} (M : Mmio S) (N : Mmio T) (K : Chip) where
  -- With the private data of two valid configurations that face each other, the first end notifies
  -- the core and the interrupt that the second end receives on, and the second end clears there the
  -- bit of the core of the first.
  pub notify_reaches :
      (a b : ShmCfg) (n cpx cpx' : ℕ) (x : HwState S) (i : ℕ) (y : HwState T) (j : ℕ)
      → Facing K a b n
      → Configured K a cpx (x.priv i)
      → Configured K b cpx' (y.priv j)
      → (irq_notify M x i ≡ record x {
        regs =
            M.write x.regs
              (x.priv i).ipc_mscm
              (ipc_igr (y.priv j).local_core (y.priv j).msi_rx_irq)
              igr_int_en;
      })
        × (irq_clear N y j ≡ record y {
          regs =
              N.write y.regs
                (y.priv j).ipc_mscm
                (ipc_isr (y.priv j).local_core (y.priv j).msi_rx_irq)
                (2 ^ (x.priv i).local_core);
        })
  unfolding irq_notify irq_clear
  notify_reaches a b n cpx cpx' x i y j f u v =
      let core : (x.priv i).remote_core ≡ (y.priv j).local_core =
        cc (u.remote_core, v.local_core, f.there) in
      let home : (x.priv i).local_core ≡ (y.priv j).remote_core =
        cc (u.local_core, v.remote_core, f.back) in
      let msi : (x.priv i).msi_tx_irq ≡ (y.priv j).msi_rx_irq =
        cc (u.msi_tx n f.sent, v.msi_rx n f.received) in
      (rw (u.tx_irq, f.sent, core, msi) refl, rw (v.rx_irq, f.received, home) refl)
