-- ===== src/Uio/Files/Init.antt =====
-- The device files beside ipc_os_init().
use ipc_shm.Common.{
  ℕ, ◌+◌, ◌-◌, ◌*◌, ◌/◌, ◌<◌, ◌≡◌, refl, arith, true, ◌==◌, Bool-cases, Option-cases, inl, inr, ◌⊎◌,
  ◌≢◌, ◌∙◌,
}
use ipc_shm.Types.{Status, ok, err, ShmCfg}
use ipc_shm.Memory.{null}
use ipc_shm.Uio.{UserInstance, UserState, Posix, module_path, cdev_path, uio_path, get_uio_dev_name}
use ipc_shm.Uio.Setup.{
  user_max_instances, put_world, put_user, module_init, softirq_init, unmap_user_local,
  unmap_user_remote, err_unmap_local, err_unmap_remote, after_module, start_softirq, open_uio,
  init_uio, map_user_remote, map_user_local, user_init,
}
use ipc_shm.Uio.Files.{FilesFit, set_enabled-FilesFit, close_ipc_dev-FilesFit, put_user-FilesFit}

module _ {S : Type 0} (P : Posix S) (i : ℕ) where
  err_unmap_local-FilesFit :
      (st : UserState S) → st.is_files_opened ≡ true → FilesFit (err_unmap_local P st i)
  unfolding err_unmap_local unmap_user_local
  err_unmap_local-FilesFit st opened = close_ipc_dev-FilesFit P i (unmap_user_local P st i) opened

  err_unmap_remote-FilesFit :
      (st : UserState S) → st.is_files_opened ≡ true → FilesFit (err_unmap_remote P st i)
  unfolding err_unmap_remote unmap_user_remote
  err_unmap_remote-FilesFit st opened = err_unmap_local-FilesFit (unmap_user_remote P st i) opened

  softirq_init-opened :
      (st : UserState S) → (softirq_init P st i).1.is_files_opened ≡ st.is_files_opened
  unfolding softirq_init
  softirq_init-opened st = ground arith

  start_softirq-FilesFit :
      (st : UserState S)
      → i < user_max_instances
      → st.is_files_opened ≡ true
      → FilesFit (start_softirq P st i).1
  unfolding start_softirq
  start_softirq-FilesFit st valid opened =
      let r = softirq_init P st i in
      let still : r.1.is_files_opened ≡ true = softirq_init-opened st ∙ opened in
      elim (Bool-cases (r.0 == 0)) [
        | inl e ↦ rw e (set_enabled-FilesFit P i r.1 valid still)
        | inr e ↦ rw e (err_unmap_remote-FilesFit _ still)
      ]

  open_uio-FilesFit :
      (st : UserState S)
      → i < user_max_instances
      → st.is_files_opened ≡ true
      → FilesFit (open_uio P st i).1
  unfolding open_uio
  open_uio-FilesFit st valid opened = elim (Option-cases (get_uio_dev_name P st.rest i)) [
    | inl e ↦ rw (open_uio, e) (err_unmap_remote-FilesFit _ opened)
    | inr (entry, e) ↦ elim (Option-cases (P.open_file st.rest (uio_path entry)).0) [
      | inl no_fd ↦ rw (open_uio, e, no_fd) (err_unmap_remote-FilesFit _ opened)
      | inr (fd, some_fd) ↦ rw (open_uio, e, some_fd) (start_softirq-FilesFit _ valid opened)
    ]
  ]

  init_uio-FilesFit :
      (st : UserState S) (cfg : ShmCfg)
      → i < user_max_instances
      → st.is_files_opened ≡ true
      → FilesFit (init_uio P st i cfg).1
  unfolding init_uio
  init_uio-FilesFit st cfg valid opened =
      elim (Bool-cases (P.ioctl_init st.rest st.ipc_cdev_fd i cfg).0) [
        | inr e ↦ rw (init_uio, e) (err_unmap_remote-FilesFit _ opened)
        | inl e ↦ elim (Option-cases cfg.inter_core_rx_irq) [
          | inl x ↦
              rw (init_uio, e, x)
                (set_enabled-FilesFit P i
                  (put_world (put_user st i (record (st.id i) { irq_num = cfg.inter_core_rx_irq }))
                    (P.ioctl_init st.rest st.ipc_cdev_fd i cfg).1)
                  valid opened)
          | inr (n, x) ↦ rw (init_uio, e, x) (open_uio-FilesFit _ valid opened)
        ]
      ]

  map_user_remote-FilesFit :
      (st : UserState S) (cfg : ShmCfg)
      → i < user_max_instances
      → st.is_files_opened ≡ true
      → FilesFit (map_user_remote P st i cfg).1
  unfolding map_user_remote
  map_user_remote-FilesFit st cfg valid opened =
      let r = P.ioctl_mmap_remote st.rest st.ipc_cdev_fd cfg.remote_shm_addr in
      let page = cfg.remote_shm_addr / P.page_size * P.page_size in
      let size = cfg.remote_shm_addr - page + cfg.shm_size in
      elim (Bool-cases r.0) [
        | inr e ↦ rw (map_user_remote, e) (err_unmap_local-FilesFit _ opened)
        | inl e ↦ elim (Option-cases (P.mmap r.1 size st.ipc_cdev_fd page).0) [
          | inl x ↦ rw (map_user_remote, e, x) (err_unmap_local-FilesFit _ opened)
          | inr (base, x) ↦ rw (map_user_remote, e, x) (init_uio-FilesFit _ cfg valid opened)
        ]
      ]

  map_user_local-FilesFit :
      (st : UserState S) (cfg : ShmCfg)
      → i < user_max_instances
      → st.is_files_opened ≡ true
      → FilesFit (map_user_local P st i cfg).1
  unfolding map_user_local
  map_user_local-FilesFit st cfg valid opened =
      let r = P.ioctl_mmap_local st.rest st.ipc_cdev_fd cfg.local_shm_addr in
      let page = cfg.local_shm_addr / P.page_size * P.page_size in
      let size = cfg.local_shm_addr - page + cfg.shm_size in
      elim (Bool-cases r.0) [
        | inr e ↦ rw (map_user_local, e) (close_ipc_dev-FilesFit P i _ opened)
        | inl e ↦ elim (Option-cases (P.mmap r.1 size st.ipc_cdev_fd page).0) [
          | inl x ↦ rw (map_user_local, e, x) (close_ipc_dev-FilesFit P i _ opened)
          | inr (base, x) ↦ rw (map_user_local, e, x) (map_user_remote-FilesFit _ cfg valid opened)
        ]
      ]

  module_init-FilesFit :
      (st : UserState S)
      → FilesFit st
      → let r = module_init P st in
        ((r.0 ≡ ok) × (r.1.is_files_opened ≡ true)) ⊎ ((r.0 ≢ ok) × FilesFit r.1)
  unfolding module_init FilesFit
  module_init-FilesFit st fit =
      let r₁ = P.open_file st.rest module_path in
      let r₂ = P.finit_module r₁.1 r₁.0 in
      let r₃ = P.open_file r₂.1 cdev_path in
      elim (Bool-cases st.is_files_opened) [
        | inl e ↦ inl (rw (module_init, e) (refl, refl))
        | inr e ↦ elim (Option-cases r₁.0) [
          | inl x ↦ inr (rw (module_init, e, x) (λ z. absurd (cc z), fit))
          | inr (fd, x) ↦ elim (Bool-cases r₂.0) [
            | inr bad ↦ inr (rw (module_init, e, x, bad) (λ z. absurd (cc z), fit))
            | inl fine ↦ elim (Option-cases r₃.0) [
              | inl no_cdev ↦ inr (rw (module_init, e, x, fine, no_cdev) (λ z. absurd (cc z), fit))
              | inr (cdev, has_cdev) ↦ inl (rw (module_init, e, x, fine, has_cdev) (refl, refl))
            ]
          ]
        ]
      ]

  after_module-FilesFit :
      (r : Status × UserState S) (cfg : ShmCfg)
      → i < user_max_instances
      → ((r.0 ≡ ok) × (r.1.is_files_opened ≡ true)) ⊎ ((r.0 ≢ ok) × FilesFit r.1)
      → FilesFit (after_module P r i cfg).1
  unfolding after_module
  after_module-FilesFit (ok, st) cfg valid (inl (_, opened)) =
      map_user_local-FilesFit st cfg valid opened
  after_module-FilesFit (ok, st) cfg valid (inr (bad, _)) = absurd (bad refl)
  after_module-FilesFit (err n, st) cfg valid (inl (good, _)) = absurd (cc good)
  after_module-FilesFit (err n, st) cfg valid (inr (_, fit)) = fit

  pub user_init-FilesFit :
      (st : UserState S) (cfg : ShmCfg) (rx_cb : ℕ)
      → i < user_max_instances
      → FilesFit st
      → FilesFit (user_init P st i cfg rx_cb).1
  unfolding user_init
  user_init-FilesFit st cfg rx_cb valid fit =
      let p : UserInstance = record (st.id i) {
        shm_size = cfg.shm_size;
        rx_cb = rx_cb;
        instance_id = i;
      } in
      let kept : FilesFit (put_user st i p) = put_user-FilesFit P i st p refl fit in
      elim (Bool-cases (rx_cb == null)) [
        | inl e ↦ rw e fit
        | inr e ↦ rw e (
            after_module-FilesFit (module_init P (put_user st i p)) cfg valid
              (module_init-FilesFit (put_user st i p) kept))
      ]
