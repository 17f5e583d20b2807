-- ===== src/Uio/Files/Closed.antt =====
-- ipc_os_free() in user space: which files it closes.
use ipc_shm.Common.{
  ℕ, ◌<◌, ◌≡◌, ◌≢◌, refl, ap, ◌∙◌, arith, Bool, true, false, ◌||◌, ◌==◌, Option, none, some,
  if◌then◌else◌, update, update_ne, update_self,
}
use native.Mathlib.Decide.{ℕ_discrete}
use ipc_shm.Uio.{UserState, Posix}
use ipc_shm.Uio.Setup.{
  user_max_instances, set_enabled, enabled_from, stop_softirq, unmap_user_local, unmap_user_remote,
  user_free,
}
use ipc_shm.Uio.Files.{enabled_one, enabled_none}
use ipc_shm.Uio.Files.Stop.{stop_softirq-id, stop_softirq-opened}

-- The descriptors that the process has open. Of the calls that ipc_os_free() makes, only close()
-- changes them.
pub record Descriptors {S : Type 0} (P : Posix S) : Type 0 where
  pub is_open : S → ℕ → Bool
  pub closed : (s : S) (fd : ℕ) → is_open (P.close s (some fd)) ≡ update (is_open s) fd false
  pub written : (s : S) (fd : Option ℕ) (cmd : ℕ) → is_open (P.write s fd cmd) ≡ is_open s
  pub cancelled : (s : S) (thread : ℕ) → is_open (P.pthread_cancel s thread) ≡ is_open s
  pub joined : (s : S) (thread : ℕ) → is_open (P.pthread_join s thread) ≡ is_open s
  pub freed : (s : S) (fd : Option ℕ) (i : ℕ) → is_open (P.ioctl_free s fd i) ≡ is_open s
  pub unmapped : (s : S) (map : Option ℕ) (size : ℕ) → is_open (P.munmap s map size) ≡ is_open s
  pub deleted : (s : S) → is_open (P.delete_module s) ≡ is_open s

-- The descriptor is that of the UIO device, of an instance that has one.
abbrev pub is_uio_fd : Option ℕ → (uio h : ℕ) → Bool
is_uio_fd none uio h = false
is_uio_fd (some _) uio h = uio == h

-- What ipc_os_free() of the instance `i` leaves, from `st` to `st'`.
pub record Released {S : Type 0} {P : Posix S} (D : Descriptors P) (i cdev uio : ℕ)
    (st st' : UserState S) : Type 0 where
  pub in_use :
      (j : ℕ)
      → j < user_max_instances
      → i ≢ j
      → (st.id j).is_enabled ≡ true
      → (st'.is_files_opened ≡ st.is_files_opened)
        × ((h : ℕ)
            → D.is_open st'.rest h
              ≡ (if is_uio_fd (st.id i).irq_num uio h then false else D.is_open st.rest h))
  pub last :
      ((j : ℕ) → j < user_max_instances → i ≢ j → (st.id j).is_enabled ≡ false)
      → (st'.is_files_opened ≡ false)
        × ((h : ℕ)
            → D.is_open st'.rest h ≡ (
                if (cdev == h) || is_uio_fd (st.id i).irq_num uio h
                then false
                else D.is_open st.rest h))

module _ {S : Type 0} {P : Posix S} (D : Descriptors P) (i : ℕ) where
  stop_softirq-is_open :
      (st : UserState S) (num : Option ℕ) (uio h : ℕ)
      → (st.id i).uio_fd ≡ some uio
      → D.is_open (stop_softirq P st i num).rest h
        ≡ (if is_uio_fd num uio h then false else D.is_open st.rest h)
  unfolding stop_softirq
  stop_softirq-is_open st none uio h e = refl
  stop_softirq-is_open st (some n) uio h e =
      let p = st.id i in
      let s₁ = P.write st.rest p.uio_fd 1 in
      let s₂ = P.pthread_cancel s₁ p.irq_thread_id in
      let s₃ = P.pthread_join s₂ p.irq_thread_id in
      let s₄ = P.ioctl_free s₃ st.ipc_cdev_fd i in
      let kept : D.is_open s₄ ≡ D.is_open st.rest =
        D.freed s₃ st.ipc_cdev_fd i
        ∙ D.joined s₂ p.irq_thread_id
        ∙ D.cancelled s₁ p.irq_thread_id
        ∙ D.written st.rest p.uio_fd 1 in
      let after : D.is_open (P.close s₄ p.uio_fd) ≡ update (D.is_open st.rest) uio false =
        ap (λ fd. D.is_open (P.close s₄ fd)) e
        ∙ D.closed s₄ uio
        ∙ ap (λ f. update f uio false) kept in
      ap (λ f. f h) after

  stop_softirq-cdev :
      (st : UserState S) (num : Option ℕ) → (stop_softirq P st i num).ipc_cdev_fd ≡ st.ipc_cdev_fd
  unfolding stop_softirq
  stop_softirq-cdev st none = refl
  stop_softirq-cdev st (some n) = refl

  -- ipc_os_free() of an instance whose UIO device has the descriptor `uio`, where the character device
  -- has the descriptor `cdev`. As long as another instance is enabled, it closes the UIO device of the
  -- instance if that has an interrupt, and nothing else, and leaves the flag is_files_opened. Once no
  -- other instance is enabled, it closes the character device as well, and clears the flag. Every
  -- other descriptor, that of the kernel module with them, stays as it was in both cases.
  pub user_free-Released :
      (st : UserState S) (cdev uio : ℕ)
      → st.ipc_cdev_fd ≡ some cdev
      → (st.id i).uio_fd ≡ some uio
      → Released D i cdev uio st (user_free P st i)
  unfolding user_free unmap_user_local unmap_user_remote
  user_free-Released st cdev uio has_cdev has_uio =
      let st₀ = set_enabled st i false in
      let self = update_self st.id i (record (st.id i) { is_enabled = false }) in
      let other = λ (j : ℕ) (ne : i ≢ j).
        ap (λ p. p.is_enabled) (update_ne st.id i j (record (st.id i) { is_enabled = false }) ne) in
      let num = (st₀.id i).irq_num in
      let st₁ = stop_softirq P st₀ i num in
      let st₂ = unmap_user_local P (unmap_user_remote P st₁ i) i in
      let ids : st₂.id ≡ st₀.id = stop_softirq-id P i st₀ num in
      let kept : D.is_open st₂.rest ≡ D.is_open st₁.rest = D.unmapped _ _ _ ∙ D.unmapped _ _ _ in
      let stopped = λ (h : ℕ).
        ap (λ f. f h) kept
        ∙ stop_softirq-is_open st₀ num uio h (ap (λ p. p.uio_fd) self ∙ has_uio)
        ∙ ap (λ x. if is_uio_fd x uio h then false else D.is_open st.rest h)
            (ap (λ p. p.irq_num) self) in
      let cdev_fd : st₂.ipc_cdev_fd ≡ some cdev = stop_softirq-cdev st₀ num ∙ has_cdev in
      let closed : D.is_open (P.delete_module (P.close st₂.rest st₂.ipc_cdev_fd))
          ≡ update (D.is_open st₂.rest) cdev false =
        D.deleted _ ∙ ap (λ fd. D.is_open (P.close st₂.rest fd)) cdev_fd ∙ D.closed st₂.rest cdev in
      record {
        in_use = λ j lt ne on.
            let more : enabled_from st₂.id 0 user_max_instances ≡ true =
              enabled_one st₂.id j 0 user_max_instances (omega arith) lt
                (ap (λ id. (id j).is_enabled) ids ∙ other j ne ∙ on) in
            rw more (stop_softirq-opened P i st₀ num, stopped);
        last = λ off.
            let done : enabled_from st₂.id 0 user_max_instances ≡ false =
              enabled_none st₂.id 0 user_max_instances (λ j lt.
                ap (λ id. (id j).is_enabled) ids ∙ elim (ℕ_discrete i j) [
                  | yes e ↦ rw (← e) (ap (λ p. p.is_enabled) self)
                  | no ne ↦ other j ne ∙ off j (omega (arith, lt)) ne
                ]) in
            rw done (refl, λ h. ap (λ f. f h) closed ∙ ground (arith, stopped h));
      }
