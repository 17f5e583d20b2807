-- ===== src/Uio/Driver.antt =====
-- os_kernel/ipc-uio.c, the kernel module below the layer in user space: its UIO devices, and the
-- character device that prepares them and maps the shared memory. A name that the Linux layer has as
-- well begins with uio_ or cdev_ here.
pub mod Cdev
pub mod Mapping
pub mod Exclusive
pub mod Distinct
pub mod Irqs
mod Tests
use ipc_shm.Common.{
  ℕ, zero, suc, ◌+◌, ◌-◌, ◌/◌, ◌%◌, ◌^◌, Bool, true, false, ◌&&◌, ◌||◌, not, Option, none, some,
  ltb, leb, ◌==◌, if◌then◌else◌, update,
}
use ipc_shm.Types.{Status, ok, err, einval, enomem, ShmCfg, max_instances}
use ipc_shm.Memory.{null}
use ipc_shm.Queue.{is_ok}
use ipc_shm.Os.Setup.{is_same_num}

abbrev pub efault : Status
efault = err 14

abbrev pub ebusy : Status
ebusy = err 16

abbrev pub eexist : Status
eexist = err 17

-- the value of an ioctl()
pub data Command : Type 0 where
  ioc_init ioc_free ioc_mmap_local ioc_mmap_remote : Command
  ioc_other : ℕ → Command

-- `struct ipc_uio_cdev_data`
pub record CdevData : Type 0 where
  pub instance_id : ℕ
  pub cfg : ShmCfg

-- `struct ipc_uio_priv_type`. `refcnt` is an int by its bits; `registered_irq` is `info.irq`, and
-- `none` stands for -1.
pub record UioDevice : Type 0 where
  pub is_enabled : Bool
  pub irq_num : Option ℕ
  pub refcnt : ℕ
  pub registered_irq : Option ℕ
  pub user_data : CdevData

-- `struct ipc_pdev_priv_type`, the mutex, and the rest of the kernel; `pdev_reg` is `none` where it
-- is an error or null.
pub record Driver (S : Type 0) : Type 0 where
  pub is_locked : Bool
  pub irq_num_init : ℕ → Option ℕ
  pub cmd : Command
  pub phys_addr : ℕ
  pub pdev_reg : Option ℕ
  pub uio_id : ℕ → UioDevice
  pub rest : S

-- What platform_get_irq() gives: a number, or an error.
pub data IrqFound : Type 0 where
  found : ℕ → IrqFound
  not_found : ℕ → IrqFound

-- linux/uio_driver.h, linux/platform_device.h, linux/cdev.h and linux/mm.h, and ipc-hw.h, as the
-- module uses them. A page has 2 ^ page_shift bytes.
pub record Linux (S : Type 0) : Type 0 where
  pub page_shift : ℕ
  pub hw_init : S → ℕ → ShmCfg → Status × S
  pub hw_get_rx_irq : S → ℕ → Option ℕ
  pub hw_irq_disable : S → ℕ → S
  pub hw_irq_enable : S → ℕ → S
  pub hw_irq_notify : S → ℕ → S
  pub hw_irq_clear : S → ℕ → S
  pub platform_get_irq : S → Option ℕ → IrqFound
  pub uio_register_device : S → ℕ → Status × S
  pub uio_unregister_device : S → ℕ → S
  pub copy_from_user : S → ℕ → Option CdevData
  pub remap_pfn_range : S → (addr pfn : ℕ) → Bool × S
  pub devm_ioremap_resource : S → Option ℕ × S
  pub alloc_chrdev_region : S → Status × S
  pub unregister_chrdev_region : S → S
  pub cdev_add : S → Status × S
  pub cdev_del : S → S
  pub class_create : S → Bool × S
  pub class_destroy : S → S
  pub device_create : S → Bool × S
  pub device_destroy : S → S

-- atomic_dec_and_test() and atomic_inc() on the bits of an int
abbrev pub atomic_dec : ℕ → ℕ
atomic_dec r = (r + 2 ^ 32 - 1) % 2 ^ 32

abbrev pub atomic_inc : ℕ → ℕ
atomic_inc r = (r + 1) % 2 ^ 32

-- one of the instances from `k` on has the interrupt
unfoldable pub irq_taken : (ℕ → Option ℕ) → ℕ → (k rounds : ℕ) → Bool
irq_taken nums n k zero = false
irq_taken nums n k (suc rounds) =
    let rest = irq_taken nums n (k + 1) rounds in
    if is_same_num (some n) (nums k) then true else rest

-- the commands that prepare a mapping
abbrev pub is_mmap : Command → Bool
is_mmap ioc_mmap_local = true
is_mmap ioc_mmap_remote = true
is_mmap _ = false

module _ {S : Type 0} where
  abbrev pub put_kernel : Driver S → S → Driver S
  put_kernel d s = record d { rest = s }

  abbrev pub put_device : Driver S → ℕ → UioDevice → Driver S
  put_device d i u = record d { uio_id = update d.uio_id i u }

  -- ipc_shm_uio_open() and ipc_shm_uio_release()
  unfoldable pub uio_open : Driver S → ℕ → Status × Driver S
  uio_open d i =
      let u = d.uio_id i in
      let taken = atomic_dec u.refcnt in
      if taken == 0
      then (ok, put_device d i (record u { refcnt = taken }))
      else (ebusy, put_device d i (record u { refcnt = atomic_inc taken }))

  abbrev pub uio_release : Driver S → ℕ → Driver S
  uio_release d i = put_device d i (record (d.uio_id i) { refcnt = atomic_inc (d.uio_id i).refcnt })

  abbrev pub cdev_open : Driver S → Status × Driver S
  cdev_open d = if d.is_locked then (ebusy, d) else (ok, record d { is_locked = true })

  abbrev pub cdev_release : Driver S → Driver S
  cdev_release d = record d { is_locked = false }

  abbrev pub uio_map_intc : Driver S → Option ℕ
  uio_map_intc d = d.pdev_reg

  -- no instance has an interrupt
  abbrev pub cleared : Driver S → Driver S
  cleared d = record d {
    irq_num_init = λ i. if ltb i max_instances then none else d.irq_num_init i;
    uio_id =
        λ i. if ltb i max_instances then record (d.uio_id i) { irq_num = none } else d.uio_id i;
  }

module _ {S : Type 0} (L : Linux S) where
  -- the instance is that of the data which user space has sent last
  unfoldable pub uio_irqcontrol : Driver S → ℕ → (cmd : ℕ) → Driver S
  uio_irqcontrol d i cmd =
      let instance_id = (d.uio_id i).user_data.instance_id in
      put_kernel d (
        if cmd == 1
        then L.hw_irq_disable d.rest instance_id
        else if cmd == 2
        then L.hw_irq_enable d.rest instance_id
        else if cmd == 3
        then L.hw_irq_notify d.rest instance_id
        else d.rest)

  abbrev pub uio_handler : Driver S → ℕ → Driver S
  uio_handler d i =
      let instance_id = (d.uio_id i).user_data.instance_id in
      put_kernel d (L.hw_irq_clear (L.hw_irq_disable d.rest instance_id) instance_id)

  -- with a free interrupt
  unfoldable pub register_uio : Driver S → (i n : ℕ) → Status × Driver S
  register_uio d i n =
      let u : UioDevice = record (d.uio_id i) { refcnt = 1; registered_irq = some n } in
      let d' : Driver S =
        put_device (record d { irq_num_init = update d.irq_num_init i (some n) }) i u in
      let (e, s) = L.uio_register_device d'.rest i in
      if is_ok e
      then (ok, put_kernel (put_device d' i (record u { is_enabled = true })) s)
      else (e, put_kernel d' s)

  unfoldable pub uio_irq : Driver S → ℕ → IrqFound → Status × Driver S
  uio_irq d i (not_found e) = (err e, d)
  uio_irq d i (found n) =
      if irq_taken d.irq_num_init n 0 max_instances then (efault, d) else register_uio d i n

  unfoldable pub uio_init : Driver S → ℕ → ShmCfg → Status × Driver S
  uio_init d i cfg =
      let (e, s) = L.hw_init d.rest i cfg in
      let d' = put_kernel d s in
      if is_ok e
      then elim cfg.inter_core_rx_irq [
        | none ↦ (ok, d')
        | some _ ↦ uio_irq d' i (L.platform_get_irq s (L.hw_get_rx_irq s i))
      ]
      else (e, d')

  unfoldable pub uio_free : Driver S → ℕ → Status × Driver S
  uio_free d i =
      let has_irq = not (is_same_num (d.irq_num_init i) none) in
      if ltb i max_instances && (d.uio_id i).is_enabled && has_irq
      then (
        ok,
        record d {
          irq_num_init = update d.irq_num_init i none;
          rest = L.uio_unregister_device d.rest i;
        },
      )
      else (einval, d)
