-- ===== src/Uio/Files/Stop.antt =====
-- The flag for the device files beside ipc_os_free(), and beside both calls.
use ipc_shm.Common.{
  ℕ, ◌<◌, ◌≡◌, refl, true, false, Option, none, some, Bool-cases, inl, inr, ==_of_eq, ==_false, ap,
  sym, ◌∙◌,
}
use native.Mathlib.Decide.{ℕ_discrete}
use ipc_shm.Types.{ShmCfg}
use ipc_shm.Uio.{UserState, Posix}
use ipc_shm.Uio.Setup.{
  user_max_instances, set_enabled, enabled_from, unmap_user_local, unmap_user_remote, user_init,
  stop_softirq, user_free,
}
use ipc_shm.Uio.Files.{FilesFit, enabled_less}
use ipc_shm.Uio.Files.Init.{user_init-FilesFit}

module _ {S : Type 0} (P : Posix S) (i : ℕ) where
  pub stop_softirq-opened :
      (st : UserState S) (num : Option ℕ)
      → (stop_softirq P st i num).is_files_opened ≡ st.is_files_opened
  unfolding stop_softirq
  stop_softirq-opened st none = refl
  stop_softirq-opened st (some _) = refl

  pub stop_softirq-id : (st : UserState S) (num : Option ℕ) → (stop_softirq P st i num).id ≡ st.id
  unfolding stop_softirq
  stop_softirq-id st none = refl
  stop_softirq-id st (some _) = refl

  stopped_less :
      (st : UserState S) (num : Option ℕ) (h : ℕ)
      → ((stop_softirq P (set_enabled st i false) i num).id h).is_enabled ≡ true
      → (st.id h).is_enabled ≡ true
  stopped_less st num h on =
      let on' =
        sym (ap (λ id. (id h).is_enabled) (stop_softirq-id (set_enabled st i false) num)) ∙ on in
      elim (ℕ_discrete i h) [
        | yes e ↦ absurd (cc (rw (==_of_eq i h e) at on'))
        | no ne ↦ rw (==_false i h ne) at on'
      ]

  user_free-FilesFit : (st : UserState S) → FilesFit st → FilesFit (user_free P st i)
  unfolding user_free FilesFit unmap_user_local unmap_user_remote
  user_free-FilesFit st fit =
      let st₀ = set_enabled st i false in
      let num = (st₀.id i).irq_num in
      let id' = (stop_softirq P st₀ i num).id in
      elim (Bool-cases (enabled_from id' 0 user_max_instances)) [
        | inl e ↦ rw e (
            stop_softirq-opened st₀ num
            ∙ fit
            ∙ enabled_less st.id id' 0 user_max_instances (stopped_less st num) e
            ∙ sym e)
        | inr e ↦ rw e (sym e)
      ]

-- The flag is_files_opened is set exactly while one of the four instances is enabled: ipc_os_init()
-- and ipc_os_free() of an instance below 4 keep this, whether they succeed or not.
user_calls-FilesFit :
    {S : Type 0} (P : Posix S) (st : UserState S) (i : ℕ) (cfg : ShmCfg) (rx_cb : ℕ)
    → i < user_max_instances
    → FilesFit st
    → FilesFit (user_init P st i cfg rx_cb).1 × FilesFit (user_free P st i)
user_calls-FilesFit P st i cfg rx_cb valid fit =
    (user_init-FilesFit P i st cfg rx_cb valid fit, user_free-FilesFit P i st fit)
