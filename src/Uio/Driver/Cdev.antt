-- ===== src/Uio/Driver/Cdev.antt =====
-- os_kernel/ipc-uio.c: the commands and the mapping of the character device, and the probe and the
-- removal of the platform device.
use ipc_shm.Common.{ℕ, zero, suc, ◌+◌, ◌/◌, ◌%◌, ◌^◌, false, not, none, some, leb, if◌then◌else◌}
use ipc_shm.Types.{Status, ok, einval, enomem, max_instances}
use ipc_shm.Queue.{is_ok}
use ipc_shm.Os.Setup.{is_same_num}
use ipc_shm.Uio.Driver.{
  eexist, CdevData, Command, Driver, Linux, cleared, eexist, efault, ioc_free, ioc_init,
  ioc_mmap_local, ioc_mmap_remote, ioc_other, is_mmap, put_device, put_kernel, uio_free, uio_init,
}

module _ {S : Type 0} (L : Linux S) where
  -- the data of the instance is kept, and `next` is done with it
  unfoldable pub with_data :
      Driver S → ℕ → (Driver S → CdevData → Status × Driver S) → Status × Driver S
  with_data d arg next = elim (L.copy_from_user d.rest arg) [
    | none ↦ (efault, d)
    | some sent ↦
        let i = sent.instance_id in
        let kept = put_device d i (record (d.uio_id i) { user_data = sent }) in
        if leb max_instances i then (einval, d) else next kept sent
  ]

  unfoldable pub cdev_ioctl : Driver S → Command → ℕ → Status × Driver S
  cdev_ioctl d ioc_init arg =
      with_data (record d { cmd = ioc_init }) arg (λ d' x. uio_init L d' x.instance_id x.cfg)
  cdev_ioctl d ioc_free arg =
      with_data (record d { cmd = ioc_free }) arg (λ d' x. uio_free L d' x.instance_id)
  cdev_ioctl d ioc_mmap_local arg = (ok, record d { cmd = ioc_mmap_local; phys_addr = arg })
  cdev_ioctl d ioc_mmap_remote arg = (ok, record d { cmd = ioc_mmap_remote; phys_addr = arg })
  cdev_ioctl d (ioc_other n) arg = (einval, record d { cmd = ioc_other n })

  -- the loop of ipc_cdev_mmap(): the pages from `offset` on, `rounds` of them at most
  unfoldable pub map_pages : S → (start size phys_addr offset rounds : ℕ) → Status × S
  map_pages s start size phys_addr offset zero = (ok, s)
  map_pages s start size phys_addr offset (suc rounds) =
      let pfn = (phys_addr + offset) % 2 ^ 64 / 2 ^ L.page_shift in
      let (mapped, s') = L.remap_pfn_range s (start + offset) pfn in
      let rest = map_pages s' start size phys_addr (offset + 2 ^ L.page_shift) rounds in
      if leb size offset then (ok, s) else if mapped then rest else (einval, s')

  unfoldable pub cdev_mmap : Driver S → (start size : ℕ) → Status × Driver S
  cdev_mmap d start size =
      let (e, s) = map_pages d.rest start size d.phys_addr 0 size in
      if is_mmap d.cmd then (e, put_kernel d s) else (einval, d)

  -- the labels of the error path of ipc_shm_uio_probe(), the last one first
  abbrev fail_add_cdev : S → S
  fail_add_cdev s = L.unregister_chrdev_region s

  abbrev fail_create_class : S → S
  fail_create_class s = fail_add_cdev (L.cdev_del s)

  abbrev fail_create_device : S → S
  fail_create_device s = fail_create_class (L.class_destroy s)

  unfoldable pub create_cdev : S → Status × S
  create_cdev s =
      let (e₁, s₁) = L.alloc_chrdev_region s in
      let (e₂, s₂) = L.cdev_add s₁ in
      let (has_class, s₃) = L.class_create s₂ in
      let (has_device, s₄) = L.device_create s₃ in
      if not (is_ok e₁)
      then (e₁, s₁)
      else if not (is_ok e₂)
      then (e₂, fail_add_cdev s₂)
      else if not has_class
      then (eexist, fail_create_class s₃)
      else if not has_device
      then (einval, fail_create_device s₄)
      else (ok, s₄)

  unfoldable pub uio_probe : Driver S → Status × Driver S
  uio_probe d =
      let (reg, s) = L.devm_ioremap_resource d.rest in
      let d₁ : Driver S = record (cleared d) { pdev_reg = reg } in
      elim reg [
        | none ↦ (enomem, put_kernel d₁ s)
        | some _ ↦
            let (e, s') = create_cdev s in
            let d₂ = put_kernel d₁ s' in
            (e, if is_ok e then record d₂ { is_locked = false } else d₂)
      ]

  -- `rounds` instances from `k` on
  unfoldable pub remove_from : Driver S → (k rounds : ℕ) → Driver S
  remove_from d k zero = d
  remove_from d k (suc rounds) =
      let off = put_device d k (record (d.uio_id k) { is_enabled = false }) in
      let gone = put_kernel off (L.uio_unregister_device off.rest k) in
      let next = if is_same_num (d.irq_num_init k) none then off else gone in
      remove_from (if (d.uio_id k).is_enabled then next else d) (k + 1) rounds

  unfoldable pub uio_remove : Driver S → Driver S
  uio_remove d =
      let s = fail_create_device (L.device_destroy d.rest) in
      remove_from (put_kernel d s) 0 max_instances
