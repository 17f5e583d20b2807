-- ===== src/Uio/Setup.antt =====
-- os_uio/ipc-os.c: ipc_os_init() with its error paths, and ipc_os_free().
use ipc_shm.Common.{
  ℕ, zero, suc, ◌+◌, ◌*◌, ◌/◌, ◌-◌, Bool, true, false, not, Option, none, some, ◌==◌, if◌then◌else◌,
  update,
}
use ipc_shm.Types.{Status, ok, err, einval, enomem, ShmCfg}
use ipc_shm.Memory.{null}
use ipc_shm.Uio.{
  UserInstance, UserState, Posix, module_path, cdev_path, uio_path, get_uio_dev_name,
  user_irq_disable,
}

abbrev pub user_max_instances : ℕ
user_max_instances = 4

abbrev enodev : Status
enodev = err 19

abbrev enoent : Status
enoent = err 2

-- What ipc_os_init() returns: 0, a negative error, or the error of a call of pthread as it is.
pub data UserResult : Type 0 where
  result : Status → UserResult
  pthread_error : ℕ → UserResult

-- one of the instances from `k` on is enabled
unfoldable pub enabled_from : (ℕ → UserInstance) → (k rounds : ℕ) → Bool
enabled_from id k zero = false
enabled_from id k (suc rounds) =
    let rest = enabled_from id (k + 1) rounds in if (id k).is_enabled then true else rest

module _ {S : Type 0} where
  abbrev pub put_world : UserState S → S → UserState S
  put_world st s = record st { rest = s }

  abbrev pub put_user : UserState S → ℕ → UserInstance → UserState S
  put_user st i p = record st { id = update st.id i p }

  abbrev pub set_enabled : UserState S → ℕ → Bool → UserState S
  set_enabled st i b = put_user st i (record (st.id i) { is_enabled = b })

module _ {S : Type 0} (P : Posix S) where
  abbrev close_opened : S → Option ℕ → S
  close_opened s none = s
  close_opened s (some fd) = P.close s (some fd)

  unfoldable pub module_init : UserState S → Status × UserState S
  module_init st =
      let (fd, s₁) = P.open_file st.rest module_path in
      let (loaded, s₂) = P.finit_module s₁ fd in
      let (cdev, s₃) = P.open_file s₂ cdev_path in
      let with_module : UserState S = record st { ipc_uio_module_fd = fd; rest = s₁ } in
      let with_cdev : UserState S = record with_module { ipc_cdev_fd = cdev; rest = s₃ } in
      if st.is_files_opened then (ok, st) else elim fd [
        | none ↦ (enodev, with_module)
        | some module_fd ↦
            if loaded
            then elim cdev [
              | none ↦ (enodev, put_world with_cdev (P.close s₃ (some module_fd)))
              | some _ ↦ (ok, record with_cdev { is_files_opened = true })
            ]
            else (enodev, put_world with_module (P.close s₂ (some module_fd)))
      ]

  -- the thread is created behind three calls that set its attributes
  unfoldable pub softirq_init : UserState S → ℕ → ℕ × UserState S
  softirq_init st i =
      let (e₁, s₁) = P.attr_init st.rest in
      let (e₂, s₂) = P.attr_setschedpolicy s₁ in
      let (e₃, s₃) = P.attr_setschedparam s₂ in
      let (e₄, thread, s₄) = P.pthread_create s₃ i in
      if not (e₁ == 0)
      then (e₁, put_world st s₁)
      else if not (e₂ == 0)
      then (e₂, put_world st s₂)
      else if not (e₃ == 0)
      then (e₃, put_world st s₃)
      else (e₄, put_world (put_user st i (record (st.id i) { irq_thread_id = thread })) s₄)

  -- err_close_ipc_dev: the files are closed if no instance is enabled
  unfoldable pub close_ipc_dev : UserState S → ℕ → UserState S
  close_ipc_dev st i =
      let st' = set_enabled st i false in
      let s = close_opened (close_opened st'.rest st'.ipc_cdev_fd) st'.ipc_uio_module_fd in
      if enabled_from st'.id 0 user_max_instances
      then st'
      else record st' { is_files_opened = false; rest = s }

  unfoldable pub unmap_user_local : UserState S → ℕ → UserState S
  unmap_user_local st i =
      let p = st.id i in
      put_world st (P.munmap st.rest p.local_shm_map (p.local_shm_offset + p.shm_size))

  unfoldable pub unmap_user_remote : UserState S → ℕ → UserState S
  unmap_user_remote st i =
      let p = st.id i in
      put_world st (P.munmap st.rest p.remote_shm_map (p.remote_shm_offset + p.shm_size))

  unfoldable pub err_unmap_local : UserState S → ℕ → UserState S
  err_unmap_local st i = close_ipc_dev (unmap_user_local st i) i

  unfoldable pub err_unmap_remote : UserState S → ℕ → UserState S
  err_unmap_remote st i = err_unmap_local (unmap_user_remote st i) i

  unfoldable pub start_softirq : UserState S → ℕ → UserResult × UserState S
  start_softirq st i =
      let (e, st') = softirq_init st i in
      if e == 0 then (result ok, set_enabled st' i true) else (
        pthread_error e,
        err_unmap_remote (put_world st' (P.close st'.rest (st'.id i).uio_fd)) i,
      )

  unfoldable pub open_uio : UserState S → ℕ → UserResult × UserState S
  open_uio st i = elim (get_uio_dev_name P st.rest i) [
    | none ↦ (result enoent, err_unmap_remote st i)
    | some entry ↦
        let (fd, s) = P.open_file st.rest (uio_path entry) in
        let st' = put_world (put_user st i (record (st.id i) { uio_fd = fd })) s in
        elim fd [ none ↦ (result enodev, err_unmap_remote st' i) | some _ ↦ start_softirq st' i ]
  ]

  unfoldable pub init_uio : UserState S → ℕ → ShmCfg → UserResult × UserState S
  init_uio st i cfg =
      let st₀ = put_user st i (record (st.id i) { irq_num = cfg.inter_core_rx_irq }) in
      let (done, s) = P.ioctl_init st₀.rest st₀.ipc_cdev_fd i cfg in
      if done
      then elim cfg.inter_core_rx_irq [
        | none ↦ (result ok, set_enabled (put_world st₀ s) i true)
        | some _ ↦ open_uio (put_world st₀ s) i
      ]
      else (result einval, err_unmap_remote (put_world st₀ s) i)

  abbrev pub page_of : ℕ → ℕ
  page_of addr = addr / P.page_size * P.page_size

  unfoldable pub map_user_remote : UserState S → ℕ → ShmCfg → UserResult × UserState S
  map_user_remote st i cfg =
      let (done, s) = P.ioctl_mmap_remote st.rest st.ipc_cdev_fd cfg.remote_shm_addr in
      let page = page_of cfg.remote_shm_addr in
      let offset = cfg.remote_shm_addr - page in
      let (map, s') = P.mmap s (offset + cfg.shm_size) st.ipc_cdev_fd page in
      let p : UserInstance = record (st.id i) {
        remote_shm_offset = offset;
        remote_shm_map = map;
      } in
      if done
      then elim map [
        | none ↦ (result enomem, err_unmap_local (put_world (put_user st i p) s') i)
        | some base ↦
            init_uio (put_world (put_user st i (record p { remote_virt_shm = base + offset })) s') i
              cfg
      ]
      else (result einval, err_unmap_local (put_world st s) i)

  unfoldable pub map_user_local : UserState S → ℕ → ShmCfg → UserResult × UserState S
  map_user_local st i cfg =
      let (done, s) = P.ioctl_mmap_local st.rest st.ipc_cdev_fd cfg.local_shm_addr in
      let page = page_of cfg.local_shm_addr in
      let offset = cfg.local_shm_addr - page in
      let (map, s') = P.mmap s (offset + cfg.shm_size) st.ipc_cdev_fd page in
      let p : UserInstance = record (st.id i) { local_shm_offset = offset; local_shm_map = map } in
      if done
      then elim map [
        | none ↦ (result enomem, close_ipc_dev (put_world (put_user st i p) s') i)
        | some base ↦
            map_user_remote
              (put_world (put_user st i (record p { local_virt_shm = base + offset })) s') i cfg
      ]
      else (result einval, close_ipc_dev (put_world st s) i)

  -- behind ipc_os_module_init()
  unfoldable pub after_module : Status × UserState S → ℕ → ShmCfg → UserResult × UserState S
  after_module (ok, st) i cfg = map_user_local st i cfg
  after_module (err n, st) i cfg = (result (err n), st)

  unfoldable pub user_init : UserState S → ℕ → ShmCfg → (rx_cb : ℕ) → UserResult × UserState S
  user_init st i cfg rx_cb =
      let p : UserInstance = record (st.id i) {
        shm_size = cfg.shm_size;
        rx_cb = rx_cb;
        instance_id = i;
      } in
      if rx_cb == null
      then (result einval, st)
      else after_module (module_init (put_user st i p)) i cfg

  -- the interrupt and the thread of an instance that has them
  unfoldable pub stop_softirq : UserState S → ℕ → Option ℕ → UserState S
  stop_softirq st i none = st
  stop_softirq st i (some _) =
      let p = st.id i in
      let s = (user_irq_disable P st i).rest in
      let s' = P.pthread_join (P.pthread_cancel s p.irq_thread_id) p.irq_thread_id in
      put_world st (P.close (P.ioctl_free s' st.ipc_cdev_fd i) p.uio_fd)

  unfoldable pub user_free : UserState S → ℕ → UserState S
  user_free st i =
      let st₀ = set_enabled st i false in
      let st₁ = stop_softirq st₀ i (st₀.id i).irq_num in
      let st₂ = unmap_user_local (unmap_user_remote st₁ i) i in
      let s = P.delete_module (P.close st₂.rest st₂.ipc_cdev_fd) in
      if enabled_from st₂.id 0 user_max_instances
      then st₂
      else record st₂ { is_files_opened = false; rest = s }
