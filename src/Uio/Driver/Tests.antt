-- ===== src/Uio/Driver/Tests.antt =====
-- The kernel module at concrete states; the rest of the kernel is the page table of the process.
use ipc_shm.Common.{
  ℕ, ◌+◌, ◌*◌, ◌/◌, ◌≤◌, ◌≡◌, refl, arith, true, false, Option, none, some, [], ◌∷◌, ◌==◌, update,
  update_self, update_ne,
}
use ipc_shm.Types.{ok, err, ShmCfg, core_default, core_m7}
use ipc_shm.Uio.Tests.{posix}
use ipc_shm.Uio.Driver.{
  Driver, Linux, ioc_init, ioc_free, ioc_mmap_local, found, atomic_dec, efault, uio_open,
  uio_release,
}
use ipc_shm.Uio.Driver.Cdev.{map_pages, cdev_ioctl, cdev_mmap, uio_probe}
use ipc_shm.Uio.Driver.Mapping.{PageTable, physical, mapped_exactly}
use ipc_shm.Uio.Driver.Exclusive.{Run, done, next, opens, fails, registered, one_holder}
use ipc_shm.Uio.Driver.Distinct.{Distinct}
use ipc_shm.Uio.Driver.Irqs.{GetsIrq, ioctls, irqs-Distinct, failed_registration}

abbrev shm_cfg : ShmCfg
shm_cfg = record {
  local_shm_addr = 0x34000010;
  remote_shm_addr = 0x34100000;
  shm_size = 4096;
  inter_core_tx_irq = some 2;
  inter_core_rx_irq = some 1;
  local_core = record { type = core_default; index = 0; trusted = 1 };
  remote_core = record { type = core_m7; index = 0x01 };
  num_channels = 0;
  channels = none;
}

-- User space sends instance ids; the registration of a UIO device fails.
abbrev kernel : Linux (ℕ → Option ℕ)
kernel = record {
  page_shift = 12;
  hw_init = λ s i cfg. (ok, s);
  hw_get_rx_irq = λ s i. some 1;
  hw_irq_disable = λ s i. s;
  hw_irq_enable = λ s i. s;
  hw_irq_notify = λ s i. s;
  hw_irq_clear = λ s i. s;
  platform_get_irq = λ s rx. found 33;
  uio_register_device = λ s i. (err 12, s);
  uio_unregister_device = λ s i. s;
  copy_from_user = λ s arg. some (record { instance_id = arg; cfg = shm_cfg });
  remap_pfn_range = λ s addr pfn. (true, update s (addr / 4096) (some pfn));
  devm_ioremap_resource = λ s. (some 0x4019_8000, s);
  alloc_chrdev_region = λ s. (ok, s);
  unregister_chrdev_region = λ s. s;
  cdev_add = λ s. (ok, s);
  cdev_del = λ s. s;
  class_create = λ s. (true, s);
  class_destroy = λ s. s;
  device_create = λ s. (true, s);
  device_destroy = λ s. s;
}

page_of_addr : (addr page : ℕ) → addr ≡ page * 4096 → addr / 4096 ≡ page
page_of_addr addr page e = omega arith

abbrev table : PageTable kernel
table = record {
  entry = λ s page. s page;
  set = λ s addr page pfn e good. rw (page_of_addr addr page e) (update_self s page (some pfn));
  others = λ s addr page pfn other e ne.
      rw (page_of_addr addr page e) (update_ne s page other (some pfn) ne);
}

abbrev loaded : Driver (ℕ → Option ℕ)
loaded = record {
  is_locked = false;
  irq_num_init = λ _. none;
  cmd = ioc_init;
  phys_addr = 0;
  pdev_reg = none;
  uio_id = λ i. record {
    is_enabled = false;
    irq_num = none;
    refcnt = 1;
    registered_irq = none;
    user_data = record { instance_id = i; cfg = shm_cfg };
  };
  rest = λ _. none;
}

-- The address is 16 bytes behind the start of its page, so 4096 bytes from it lie in two pages.
mapping_good :
    (cdev_mmap kernel (cdev_ioctl kernel loaded ioc_mmap_local 0x34000010).1 (0x9000 * 4096) 4112).0
    ≡ ok
unfolding cdev_mmap cdev_ioctl map_pages
mapping_good = refl

mapped_exactly_example :
    physical table
      (cdev_mmap kernel
        (cdev_ioctl kernel loaded ioc_mmap_local 0x34000010).1
        (0x9000 * 4096)
        4112).1.rest
      (0x9000 * 4096 + (16 + 4095))
    ≡ some 0x3400100f
mapped_exactly_example =
    mapped_exactly table posix loaded ioc_mmap_local 0x34000010 4096 0x9000 4112 4095 refl refl
      (omega arith) (omega arith) mapping_good (omega arith)

-- A task opens the device, another one fails to.
busy :
    Run registered (record { refcnt = atomic_dec (atomic_dec 1); holders = 0 + 1; failing = 0 + 1 })
busy = next (next done (opens refl)) (fails (λ e. omega (arith, e)) (omega arith))

one_holder_example : (1 ≤ 1) × ((atomic_dec (atomic_dec (atomic_dec 1)) == 0) ≡ (1 + 1 == 0))
one_holder_example = one_holder busy

irqs-Distinct_example :
    Distinct
      (ioctls kernel
        (uio_probe kernel loaded).1
        ((ioc_init, 0) ∷ (ioc_init, 1) ∷ (ioc_free, 0) ∷ [])).irq_num_init
irqs-Distinct_example =
    irqs-Distinct kernel loaded ((ioc_init, 0) ∷ (ioc_init, 1) ∷ (ioc_free, 0) ∷ [])

first_init : GetsIrq kernel loaded 2 33
first_init = record {
  x = record { instance_id = 2; cfg = shm_cfg };
  rx_irq = 1;
  sent = refl;
  valid = omega arith;
  asks = refl;
  good = refl;
  irq = refl;
}

second_init : GetsIrq kernel (cdev_ioctl kernel loaded ioc_init 2).1 3 33
second_init = record {
  x = record { instance_id = 3; cfg = shm_cfg };
  rx_irq = 1;
  sent = refl;
  valid = omega arith;
  asks = refl;
  good = refl;
  irq = refl;
}

failed_registration_example :
    ((cdev_ioctl kernel loaded ioc_init 2).0 ≡ err 12)
    × ((cdev_ioctl kernel (cdev_ioctl kernel loaded ioc_init 2).1 ioc_init 3).0 ≡ efault)
failed_registration_example =
    failed_registration kernel loaded 2 3 33 first_init (λ h lt e. absurd (cc e)) refl second_init

-- The second open is refused until the first is released.
refused : (uio_open (uio_open loaded 0).1 0).0 ≡ err 16
unfolding uio_open
refused = refl

reopened : (uio_open (uio_release (uio_open loaded 0).1 0) 0).0 ≡ ok
unfolding uio_open
reopened = refl
