-- ===== src/Uio/Files.antt =====
-- The flag for the device files of the layer in user space.
use ipc_shm.Common.{
  ℕ, zero, suc, ◌+◌, ◌-◌, ◌*◌, ◌/◌, ◌<◌, ◌≤◌, ◌≡◌, refl, arith, Bool, true, false, Option, none,
  some, ◌==◌, Bool-cases, Option-cases, inl, inr, ◌⊎◌, ◌≢◌, ==_of_eq, ==_false, ap, sym, ◌∙◌,
}
use native.Mathlib.Decide.{ℕ_discrete}
use ipc_shm.Types.{Status, ok, err, ShmCfg}
use ipc_shm.Memory.{null}
use ipc_shm.Uio.{UserInstance, UserState, Posix, module_path, cdev_path, uio_path, get_uio_dev_name}
use ipc_shm.Uio.Setup.{
  user_max_instances, UserResult, result, put_world, put_user, set_enabled, enabled_from,
  module_init, softirq_init, close_ipc_dev, unmap_user_local, unmap_user_remote, err_unmap_local,
  err_unmap_remote, after_module, start_softirq, open_uio, init_uio, map_user_remote,
  map_user_local, user_init, stop_softirq, user_free,
}
pub mod Init
pub mod Stop
pub mod Closed

-- The flag is_files_opened is set exactly while an instance is enabled.
unfoldable pub FilesFit : {S : Type 0} → UserState S → Type 0
FilesFit st = st.is_files_opened ≡ enabled_from st.id 0 user_max_instances

pub enabled_one :
    (id : ℕ → UserInstance) (i k n : ℕ)
    → k ≤ i
    → i < k + n
    → (id i).is_enabled ≡ true
    → enabled_from id k n ≡ true
unfolding enabled_from
enabled_one id i k zero low high on = absurd (omega arith)
enabled_one id i k (suc n) low high on = elim (ℕ_discrete k i) [
  | yes e ↦ rw (e, on) refl
  | no ne ↦ elim (Bool-cases (id k).is_enabled) [
    | inl e ↦ rw e refl
    | inr e ↦ rw e (enabled_one id i (k + 1) n (omega arith) (omega arith) on)
  ]
]

pub enabled_none :
    (id : ℕ → UserInstance) (k n : ℕ)
    → ((h : ℕ) → h < k + n → (id h).is_enabled ≡ false)
    → enabled_from id k n ≡ false
unfolding enabled_from
enabled_none id k zero off = refl
enabled_none id k (suc n) off =
    rw (off k (omega arith), enabled_none id (k + 1) n (λ h lt. off h (omega arith))) refl

-- Where an instance is enabled only if it was, and one is, one was.
pub enabled_less :
    (id id' : ℕ → UserInstance) (k n : ℕ)
    → ((h : ℕ) → (id' h).is_enabled ≡ true → (id h).is_enabled ≡ true)
    → enabled_from id' k n ≡ true
    → enabled_from id k n ≡ true
unfolding enabled_from
enabled_less id id' k zero less on = on
enabled_less id id' k (suc n) less on = elim (Bool-cases (id' k).is_enabled) [
  | inl e ↦ rw (less k e) refl
  | inr e ↦ elim (Bool-cases (id k).is_enabled) [
    | inl e' ↦ rw e' refl
    | inr e' ↦ rw e' (enabled_less id id' (k + 1) n less (rw e at on))
  ]
]

enabled_same :
    (id id' : ℕ → UserInstance) (k n : ℕ)
    → ((h : ℕ) → (id' h).is_enabled ≡ (id h).is_enabled)
    → enabled_from id' k n ≡ enabled_from id k n
unfolding enabled_from
enabled_same id id' k zero same = refl
enabled_same id id' k (suc n) same = rw (same k, enabled_same id id' (k + 1) n same) refl

module _ {S : Type 0} (P : Posix S) (i : ℕ) where
  pub set_enabled-FilesFit :
      (st : UserState S)
      → i < user_max_instances
      → st.is_files_opened ≡ true
      → FilesFit (set_enabled st i true)
  unfolding FilesFit
  set_enabled-FilesFit st valid opened =
      opened
      ∙ sym (
          enabled_one (set_enabled st i true).id i 0 user_max_instances (omega arith) valid
            (ground arith))

  pub close_ipc_dev-FilesFit :
      (st : UserState S) → st.is_files_opened ≡ true → FilesFit (close_ipc_dev P st i)
  unfolding close_ipc_dev FilesFit
  close_ipc_dev-FilesFit st opened =
      elim (Bool-cases (enabled_from (set_enabled st i false).id 0 user_max_instances)) [
        | inl e ↦ rw e (opened ∙ sym e)
        | inr e ↦ rw e (sym e)
      ]

  pub put_user-FilesFit :
      (st : UserState S) (p : UserInstance)
      → p.is_enabled ≡ (st.id i).is_enabled
      → FilesFit st
      → FilesFit (put_user st i p)
  unfolding FilesFit
  put_user-FilesFit st p same fit =
      fit
      ∙ sym (
          enabled_same st.id (put_user st i p).id 0 user_max_instances (λ h. elim (ℕ_discrete i h) [
            | yes e ↦ rw (==_of_eq i h e) (same ∙ ap (λ x. (st.id x).is_enabled) e)
            | no ne ↦ rw (==_false i h ne) refl
          ]))
