-- ===== src/Hw/Arrays/Choices.antt =====
-- What the switches of the initialization choose are indices of the arrays.

use ipc_shm.Common.{ℕ, ◌<◌, ◌≡◌, sym, Option, none, some, Option-cases, inl, inr}
use ipc_shm.Types.{CoreType, core_default, core_a53, core_m7}
use ipc_shm.Hw.{HwPriv, Chip, local_core_of, remote_core_of, choose_tx, choose_rx}
use ipc_shm.Hw.Arrays.{Sizes, Covers, InRange}

module _ {z : Sizes} {K : Chip} (C : Covers z K) where
  pub choose_tx-InRange :
      (irq : Option ℕ) (p p' : HwPriv) → InRange z p → choose_tx K irq p ≡ some p' → InRange z p'
  unfolding choose_tx
  choose_tx-InRange none p p' one e = let same : p ≡ p' = cc e in rw same at one
  choose_tx-InRange (some n) p p' one e = elim (Option-cases (K.msi n)) [
    | inl x ↦ absurd (cc (rw (choose_tx, x) at e))
    | inr (m, x) ↦
        let same : record p { msi_tx_irq = m } ≡ p' = cc (rw (choose_tx, x) at e) in
        rw (sym same) (record {
          msi_tx_irq = C.msi n m x;
          msi_rx_irq = one.msi_rx_irq;
          spi_index = one.spi_index;
          remote_core = one.remote_core;
          local_core = one.local_core;
        })
  ]

  pub choose_rx-InRange :
      (irq : Option ℕ) (p p' : HwPriv) → InRange z p → choose_rx K irq p ≡ some p' → InRange z p'
  unfolding choose_rx
  choose_rx-InRange none p p' one e = let same : p ≡ p' = cc e in rw same at one
  choose_rx-InRange (some n) p p' one e = elim (Option-cases (K.spi n)) [
    | inl x ↦ absurd (cc (rw (choose_rx, x) at e))
    | inr (l, y) ↦ elim (Option-cases (K.msi n)) [
      | inl x ↦ absurd (cc (rw (choose_rx, y, x) at e))
      | inr (m, x) ↦
          let same : record p { spi_index = l; msi_rx_irq = m } ≡ p' =
            cc (rw (choose_rx, y, x) at e) in
          rw (sym same) (record {
            msi_tx_irq = one.msi_tx_irq;
            msi_rx_irq = C.msi n m x;
            spi_index = C.spi n l y;
            remote_core = one.remote_core;
            local_core = one.local_core;
          })
    ]
  ]

  pub local_core_of-lt : (t : CoreType) (n c : ℕ) → local_core_of K t n ≡ some c → c < z.cp_count
  unfolding local_core_of
  local_core_of-lt core_a53 n c e = C.a53 n c e
  local_core_of-lt core_default n c e =
      let same : K.default_local_core ≡ c = cc e in rw same at C.default_local_core
  local_core_of-lt _ n c e = absurd (cc e)

  pub remote_core_of-lt : (t : CoreType) (n c : ℕ) → remote_core_of K t n ≡ some c → c < z.cp_count
  unfolding remote_core_of
  remote_core_of-lt core_a53 n c e = C.a53 n c e
  remote_core_of-lt core_m7 n c e = C.m7 n c e
  remote_core_of-lt core_default n c e =
      let same : K.default_remote_core ≡ c = cc e in rw same at C.default_remote_core
  remote_core_of-lt _ n c e = absurd (cc e)
