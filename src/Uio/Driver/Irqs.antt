-- ===== src/Uio/Driver/Irqs.antt =====
-- The interrupts of the UIO devices: no two instances have the same.
use ipc_shm.Common.{
  ℕ, ◌<◌, ◌≡◌, ◌≢◌, refl, ap, ◌∙◌, arith, true, false, ◌&&◌, not, Option, none, some, ltb, leb,
  update, update_self, List, [], ◌∷◌, Bool-cases, Option-cases, inl, inr,
}
use ipc_shm.Types.{Status, ok, ShmCfg, max_instances}
use ipc_shm.Queue.{is_ok}
use ipc_shm.Os.Setup.{is_same_num}
use ipc_shm.Uio.Driver.{
  Driver, Linux, CdevData, Command, ioc_init, ioc_free, ioc_mmap_local, ioc_mmap_remote, ioc_other,
  IrqFound, found, not_found, irq_taken, register_uio, uio_irq, uio_init, uio_free, efault,
  put_device, put_kernel,
}
use ipc_shm.Uio.Driver.Cdev.{with_data, cdev_ioctl, create_cdev, uio_probe}
use ipc_shm.Uio.Driver.Distinct.{
  Distinct, given-Distinct, dropped-Distinct, cleared-Distinct, taken_one, none_taken,
}

module _ {S : Type 0} (L : Linux S) where
  register_uio-irqs :
      (d : Driver S) (i n : ℕ)
      → (register_uio L d i n).1.irq_num_init ≡ update d.irq_num_init i (some n)
  unfolding register_uio
  register_uio-irqs d i n = ground arith

  uio_irq-Distinct :
      (d : Driver S) (i : ℕ) (f : IrqFound)
      → Distinct d.irq_num_init
      → Distinct (uio_irq L d i f).1.irq_num_init
  unfolding uio_irq
  uio_irq-Distinct d i (not_found e) v = v
  uio_irq-Distinct d i (found n) v =
      elim (Bool-cases (irq_taken d.irq_num_init n 0 max_instances)) [
        | inl e ↦ rw e v
        | inr e ↦ rw (e, register_uio-irqs d i n) (given-Distinct d.irq_num_init i n e v)
      ]

  uio_init-Distinct :
      (d : Driver S) (i : ℕ) (cfg : ShmCfg)
      → Distinct d.irq_num_init
      → Distinct (uio_init L d i cfg).1.irq_num_init
  unfolding uio_init
  uio_init-Distinct d i cfg v = elim (Bool-cases (is_ok (L.hw_init d.rest i cfg).0)) [
    | inr e ↦ rw e v
    | inl e ↦ elim (Option-cases cfg.inter_core_rx_irq) [
      | inl x ↦ rw (uio_init, e, x) v
      | inr (n, x) ↦ rw (uio_init, e, x) (uio_irq-Distinct _ i _ v)
    ]
  ]

  uio_free-Distinct :
      (d : Driver S) (i : ℕ) → Distinct d.irq_num_init → Distinct (uio_free L d i).1.irq_num_init
  unfolding uio_free
  uio_free-Distinct d i v =
      elim (Bool-cases (
        ltb i max_instances
        && (d.uio_id i).is_enabled
        && not (is_same_num (d.irq_num_init i) none))) [
          | inl e ↦ rw e (dropped-Distinct d.irq_num_init i v)
          | inr e ↦ rw e v
        ]

  with_data-Distinct :
      (d : Driver S) (arg : ℕ) (next : Driver S → CdevData → Status × Driver S)
      → ((d' : Driver S) (x : CdevData)
          → Distinct d'.irq_num_init
          → Distinct (next d' x).1.irq_num_init)
      → Distinct d.irq_num_init
      → Distinct (with_data L d arg next).1.irq_num_init
  unfolding with_data
  with_data-Distinct d arg next keeps v = elim (Option-cases (L.copy_from_user d.rest arg)) [
    | inl e ↦ rw (with_data, e) v
    | inr (x, e) ↦ elim (Bool-cases (leb max_instances x.instance_id)) [
      | inl big ↦ rw (with_data, e, big) v
      | inr fine ↦ rw (with_data, e, fine) (keeps _ x v)
    ]
  ]

  cdev_ioctl-Distinct :
      (d : Driver S) (cmd : Command) (arg : ℕ)
      → Distinct d.irq_num_init
      → Distinct (cdev_ioctl L d cmd arg).1.irq_num_init
  unfolding cdev_ioctl
  cdev_ioctl-Distinct d ioc_init arg v =
      with_data-Distinct _ arg _ (λ d' x u. uio_init-Distinct d' x.instance_id x.cfg u) v
  cdev_ioctl-Distinct d ioc_free arg v =
      with_data-Distinct _ arg _ (λ d' x u. uio_free-Distinct d' x.instance_id u) v
  cdev_ioctl-Distinct d ioc_mmap_local arg v = v
  cdev_ioctl-Distinct d ioc_mmap_remote arg v = v
  cdev_ioctl-Distinct d (ioc_other n) arg v = v

  probe-Distinct : (d : Driver S) → Distinct (uio_probe L d).1.irq_num_init
  unfolding uio_probe
  probe-Distinct d = elim (Option-cases (L.devm_ioremap_resource d.rest).0) [
    | inl e ↦ rw (uio_probe, e) (cleared-Distinct d)
    | inr (addr, e) ↦
        elim (Bool-cases (is_ok (create_cdev L (L.devm_ioremap_resource d.rest).1).0)) [
          | inl good ↦ rw (uio_probe, e, good) (cleared-Distinct d)
          | inr bad ↦ rw (uio_probe, e, bad) (cleared-Distinct d)
        ]
  ]

  -- the commands that user space sends, one after the other
  unfoldable pub ioctls : Driver S → List (Command × ℕ) → Driver S
  ioctls d [] = d
  ioctls d ((cmd, arg) ∷ rest) = ioctls (cdev_ioctl L d cmd arg).1 rest

  ioctls-Distinct :
      (d : Driver S) (calls : List (Command × ℕ))
      → Distinct d.irq_num_init
      → Distinct (ioctls d calls).irq_num_init
  unfolding ioctls
  ioctls-Distinct d [] v = v
  ioctls-Distinct d ((cmd, arg) ∷ rest) v =
      ioctls-Distinct (cdev_ioctl L d cmd arg).1 rest (cdev_ioctl-Distinct d cmd arg v)

  -- After the probe of the platform device, whatever commands user space sends to the character
  -- device and whether they succeed or not, no two of the instances have the same interrupt.
  pub irqs-Distinct :
      (d : Driver S) (calls : List (Command × ℕ))
      → Distinct (ioctls (uio_probe L d).1 calls).irq_num_init
  irqs-Distinct d calls = ioctls-Distinct (uio_probe L d).1 calls (probe-Distinct d)

  -- IPC_IOC_INIT with the argument `arg` comes to an interrupt: the data is read, its instance is one
  -- of the driver's and does not use polling, ipc_hw_init() succeeds, and the platform device has the
  -- interrupt `n` for the instance.
  pub record GetsIrq (d : Driver S) (arg n : ℕ) : Type 0 where
    pub x : CdevData
    pub rx_irq : ℕ
    pub sent : L.copy_from_user d.rest arg ≡ some x
    pub valid : x.instance_id < max_instances
    pub asks : x.cfg.inter_core_rx_irq ≡ some rx_irq
    pub good : is_ok (L.hw_init d.rest x.instance_id x.cfg).0 ≡ true
    pub irq :
        let s = (L.hw_init d.rest x.instance_id x.cfg).1 in
        L.platform_get_irq s (L.hw_get_rx_irq s x.instance_id) ≡ found n

  -- what uio_register_device() gives then
  abbrev pub registration : {d : Driver S} {arg n : ℕ} → GetsIrq d arg n → Status
  registration {d} g =
      (L.uio_register_device (L.hw_init d.rest g.x.instance_id g.x.cfg).1 g.x.instance_id).0

  -- the driver in front of the test of the interrupt
  abbrev tested : {d : Driver S} {arg n : ℕ} → GetsIrq d arg n → Driver S
  tested {d} g =
      let i = g.x.instance_id in
      put_kernel
        (put_device (record d { cmd = ioc_init }) i (record (d.uio_id i) { user_data = g.x }))
        (L.hw_init d.rest i g.x.cfg).1

  uio_init-uio_irq :
      (d : Driver S) (i n rx_irq : ℕ) (cfg : ShmCfg)
      → cfg.inter_core_rx_irq ≡ some rx_irq
      → is_ok (L.hw_init d.rest i cfg).0 ≡ true
      → let s = (L.hw_init d.rest i cfg).1 in
        L.platform_get_irq s (L.hw_get_rx_irq s i) ≡ found n
        → uio_init L d i cfg ≡ uio_irq L (put_kernel d s) i (found n)
  unfolding uio_init
  uio_init-uio_irq d i n rx_irq cfg asks good irq =
      let s = (L.hw_init d.rest i cfg).1 in
      let by_irq : Option ℕ → Status × Driver S = λ num. elim num [
        | none ↦ (ok, put_kernel d s)
        | some _ ↦ uio_irq L (put_kernel d s) i (L.platform_get_irq s (L.hw_get_rx_irq s i))
      ] in
      rw (uio_init, good) (ap by_irq asks ∙ ap (λ f. uio_irq L (put_kernel d s) i f) irq)

  ioctl-uio_irq :
      (d : Driver S) (arg n : ℕ) (g : GetsIrq d arg n)
      → cdev_ioctl L d ioc_init arg ≡ uio_irq L (tested g) g.x.instance_id (found n)
  unfolding cdev_ioctl with_data
  ioctl-uio_irq d arg n g =
      let i = g.x.instance_id in
      let small : leb max_instances i ≡ false = ground (arith, g.valid) in
      let kept =
        put_device (record d { cmd = ioc_init }) i (record (d.uio_id i) { user_data = g.x }) in
      rw (with_data, g.sent, small) (uio_init-uio_irq kept i n g.rx_irq g.x.cfg g.asks g.good g.irq)

  failing-irqs :
      (d : Driver S) (i n : ℕ)
      → irq_taken d.irq_num_init n 0 max_instances ≡ false
      → is_ok (L.uio_register_device d.rest i).0 ≡ false
      → ((uio_irq L d i (found n)).0 ≡ (L.uio_register_device d.rest i).0)
        × ((uio_irq L d i (found n)).1.irq_num_init ≡ update d.irq_num_init i (some n))
  unfolding uio_irq register_uio
  failing-irqs d i n free fails = rw (free, fails) (refl, refl)

  -- When IPC_IOC_INIT comes to an interrupt that no instance has, and uio_register_device() fails: the
  -- command returns the error of uio_register_device(), and leaves the interrupt marked as taken, so
  -- that another IPC_IOC_INIT right after it, of any instance, that comes to the same interrupt
  -- returns -EFAULT.
  pub failed_registration :
      (d : Driver S) (arg again n : ℕ) (first : GetsIrq d arg n)
      → ((h : ℕ) → h < max_instances → d.irq_num_init h ≢ some n)
      → is_ok (registration first) ≡ false
      → GetsIrq (cdev_ioctl L d ioc_init arg).1 again n
      → ((cdev_ioctl L d ioc_init arg).0 ≡ registration first)
        × ((cdev_ioctl L (cdev_ioctl L d ioc_init arg).1 ioc_init again).0 ≡ efault)
  unfolding uio_irq
  failed_registration d arg again n first free fails second =
      let d' = (cdev_ioctl L d ioc_init arg).1 in
      let i = first.x.instance_id in
      let same = ioctl-uio_irq d arg n first in
      let o =
        failing-irqs (tested first) i n
          (none_taken d.irq_num_init n 0 max_instances (λ h lt. free h (omega (arith, lt))))
          fails in
      let irqs : d'.irq_num_init ≡ update d.irq_num_init i (some n) =
        ap (λ r. r.1.irq_num_init) same ∙ o.1 in
      let mine : irq_taken d'.irq_num_init n 0 max_instances ≡ true =
        taken_one d'.irq_num_init n i 0 max_instances (omega arith) (omega (arith, first.valid))
          (ap (λ f. f i) irqs ∙ update_self d.irq_num_init i (some n)) in
      (ap (λ r. r.0) same ∙ o.0, ap (λ r. r.0) (ioctl-uio_irq d' again n second) ∙ rw mine refl)
