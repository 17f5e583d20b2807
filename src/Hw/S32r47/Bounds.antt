-- ===== src/Hw/S32r47/Bounds.antt =====
-- The private data of S32R47 are indices of the arrays of `struct ipc_mscm_regs`.
use ipc_shm.Common.{
  ℕ, ◌<◌, ◌≡◌, arith, false, ◌||◌, not, Option, none, some, Bool-cases, Option-cases, inl, inr,
  ==_of_eq, ==_false, ◌==◌, ltb-false→le,
}
use Prim.Native.Nat.{bit_and}
use native.Mathlib.Decide.{ℕ_discrete}
use ipc_shm.Types.{CoreType, core_default, core_a53, core_m7, core_kq8, core_bbe32, ShmCfg}
use ipc_shm.Memory.{null}
use ipc_shm.Queue.{is_ok}
use ipc_shm.Hw.{Mmio, ircpcfg, cpxnum, ircpcfg_lock, is_same_irq, is_distrusted}
use ipc_shm.Hw.S32r47.{
  R47Priv, R47State, a53_tr, cp_count, irq_count, local_of, remote_of, is_bad_irq, is_bad_dsp_irq,
  put_r47, local_core_init, remote_core_init, disable_irq, store_irqs, check_irqs, init_hw_at,
}

-- An interrupt that is there is one of the block.
pub IsLine : Option ℕ → Type 0
IsLine irq = (n : ℕ) → irq ≡ some n → n < irq_count

pub record R47InRange (p : R47Priv) : Type 0 where
  pub tx : IsLine p.mscm_tx_irq
  pub rx : IsLine p.mscm_rx_irq
  pub remote_core : p.remote_core < cp_count
  pub local_core : p.local_core < cp_count

pub AllR47InRange : {S : Type 0} → R47State S → Type 0
AllR47InRange st = (i : ℕ) → R47InRange (st.priv i)

pub all_r47_in_range :
    {S : Type 0} (st : R47State S)
    → ((i n : ℕ) → (st.priv i).mscm_tx_irq ≡ some n → n < irq_count)
    → ((i n : ℕ) → (st.priv i).mscm_rx_irq ≡ some n → n < irq_count)
    → ((i : ℕ) → (st.priv i).remote_core < cp_count)
    → ((i : ℕ) → (st.priv i).local_core < cp_count)
    → AllR47InRange st
unfolding AllR47InRange IsLine
all_r47_in_range st tx rx remote home i = record {
  tx = tx i;
  rx = rx i;
  remote_core = remote i;
  local_core = home i;
}

IsLine_of_good : (irq : Option ℕ) → is_bad_irq irq ≡ false → IsLine irq
unfolding IsLine
IsLine_of_good none e n x = absurd (cc x)
IsLine_of_good (some k) e n x =
    let same : k ≡ n = cc x in let le = ltb-false→le _ _ e in omega arith

local_of-lt : (t : CoreType) (n c : ℕ) → local_of t n ≡ some c → c < cp_count
unfolding local_of
local_of-lt core_a53 n c e = ground arith
local_of-lt core_default n c e = ground arith
local_of-lt _ n c e = absurd (cc e)

remote_of-lt : (t : CoreType) (n c : ℕ) → remote_of t n ≡ some c → c < cp_count
unfolding remote_of
remote_of-lt core_a53 n c e = ground arith
remote_of-lt core_m7 n c e = ground arith
remote_of-lt core_kq8 n c e = ground arith
remote_of-lt core_bbe32 n c e = ground arith
remote_of-lt core_default n c e = ground arith
remote_of-lt _ n c e = absurd (cc e)

module _ {S : Type 0} where
  put_range :
      (st : R47State S) (i : ℕ) (p : R47Priv)
      → AllR47InRange st
      → R47InRange p
      → AllR47InRange (put_r47 st i p)
  unfolding AllR47InRange
  put_range st i p all one j = elim (ℕ_discrete i j) [
    | yes e ↦ rw (==_of_eq _ _ e) one
    | no ne ↦ rw (==_false _ _ ne) (all j)
  ]

  local_range :
      (st : R47State S) (i : ℕ) (cfg : ShmCfg)
      → AllR47InRange st
      → AllR47InRange (local_core_init st i cfg).1
  unfolding local_core_init AllR47InRange
  local_range st i cfg all =
      elim (Option-cases (local_of cfg.local_core.type cfg.local_core.index)) [
        | inl e ↦ rw (local_core_init, e) all
        | inr (c, e) ↦
            let after =
              put_range st i (record (st.priv i) { local_core = c }) all
                (record {
                  tx = (all i).tx;
                  rx = (all i).rx;
                  remote_core = (all i).remote_core;
                  local_core = local_of-lt cfg.local_core.type cfg.local_core.index c e;
                }) in
            elim (Bool-cases (is_distrusted cfg.local_core.trusted a53_tr c)) [
              | inl x ↦ rw (local_core_init, e, x) after
              | inr x ↦ rw (local_core_init, e, x) after
            ]
      ]

  remote_range :
      (st : R47State S) (i : ℕ) (cfg : ShmCfg)
      → AllR47InRange st
      → AllR47InRange (remote_core_init st i cfg).1
  unfolding remote_core_init AllR47InRange
  remote_range st i cfg all =
      elim (Option-cases (remote_of cfg.remote_core.type cfg.remote_core.index)) [
        | inl e ↦ rw (remote_core_init, e) all
        | inr (c, e) ↦
            rw (remote_core_init, e)
              (put_range st i (record (st.priv i) { remote_core = c }) all
                (record {
                  tx = (all i).tx;
                  rx = (all i).rx;
                  remote_core = remote_of-lt cfg.remote_core.type cfg.remote_core.index c e;
                  local_core = (all i).local_core;
                }))
      ]

  module _ (M : Mmio S) where
    disable-priv : (st : R47State S) (i : ℕ) → (disable_irq M st i).priv ≡ st.priv
    unfolding disable_irq
    disable-priv st i = ground arith

    store_range :
        (st : R47State S) (i : ℕ) (cfg : ShmCfg)
        → AllR47InRange st
        → IsLine cfg.inter_core_tx_irq
        → IsLine cfg.inter_core_rx_irq
        → AllR47InRange (store_irqs M st i cfg).1
    unfolding store_irqs AllR47InRange
    store_range st i cfg all tx rx j =
        let p : R47Priv = record (st.priv i) {
          mscm_tx_irq = cfg.inter_core_tx_irq;
          mscm_rx_irq = cfg.inter_core_rx_irq;
        } in
        let off = disable_irq M (put_r47 st i p) i in
        let after : R47InRange (off.priv j) = rw (disable-priv (put_r47 st i p) i) (
          put_range st i p all
            (record {
              tx = tx;
              rx = rx;
              remote_core = (all i).remote_core;
              local_core = (all i).local_core;
            })
            j) in
        elim (Bool-cases
          (not (bit_and (M.read off.regs (off.priv i).ipc_mscm ircpcfg) ircpcfg_lock == 0))) [
            | inl x ↦ rw x after
            | inr x ↦ rw x after
          ]

    check_range :
        (st : R47State S) (i : ℕ) (cfg : ShmCfg)
        → AllR47InRange st
        → AllR47InRange (check_irqs M st i cfg).1
    unfolding check_irqs
    check_range st i cfg all =
        let p = st.priv i in
        elim (Bool-cases (
          is_same_irq cfg.inter_core_tx_irq cfg.inter_core_rx_irq
          || (p.remote_core == M.read st.regs p.ipc_mscm cpxnum)
          || (p.remote_core == p.local_core))) [
            | inl e ↦ rw e all
            | inr e ↦ elim (Bool-cases (is_bad_irq cfg.inter_core_tx_irq)) [
              | inl bad ↦ rw (e, bad) all
              | inr tx ↦ elim (Bool-cases (is_bad_irq cfg.inter_core_rx_irq)) [
                | inl bad ↦ rw (e, tx, bad) all
                | inr rx ↦ elim (Bool-cases (is_bad_dsp_irq cfg.inter_core_rx_irq p.remote_core)) [
                  | inl bad ↦ rw (e, tx, rx, bad) all
                  | inr good ↦
                      rw (e, tx, rx, good)
                        (store_range st i cfg all (IsLine_of_good cfg.inter_core_tx_irq tx)
                          (IsLine_of_good cfg.inter_core_rx_irq rx))
                ]
              ]
            ]
          ]

    -- Whatever the configuration, valid or not, and whatever _ipc_hw_init() returns: it leaves every
    -- instance with cores and interrupts that are indices of the arrays of the register block, if they
    -- were so before.
    pub init_hw_at-AllR47InRange :
        (st : R47State S) (i : ℕ) (cfg : ShmCfg) (addr : ℕ)
        → AllR47InRange st
        → AllR47InRange (init_hw_at M st i cfg addr).1
    unfolding init_hw_at AllR47InRange
    init_hw_at-AllR47InRange st i cfg addr all =
        let p : R47Priv = record (st.priv i) { ipc_mscm = addr } in
        let st₀ = put_r47 st i p in
        let all₀ = put_range st i p all (record {
          tx = (all i).tx;
          rx = (all i).rx;
          remote_core = (all i).remote_core;
          local_core = (all i).local_core;
        }) in
        let all₁ = local_range st₀ i cfg all₀ in
        let all₂ = remote_range (local_core_init st₀ i cfg).1 i cfg all₁ in
        let last =
          check_range (remote_core_init (local_core_init st₀ i cfg).1 i cfg).1 i cfg all₂ in
        elim (Bool-cases (addr == null)) [
          | inl e ↦ rw e all
          | inr e ↦ elim (Bool-cases (is_ok (local_core_init st₀ i cfg).0)) [
            | inr bad ↦ rw (e, bad) all₁
            | inl good ↦
                elim (Bool-cases (is_ok (remote_core_init (local_core_init st₀ i cfg).1 i cfg).0)) [
                  | inr bad ↦ rw (e, good, bad) all₂
                  | inl good' ↦ rw (e, good, good') last
                ]
          ]
        ]
