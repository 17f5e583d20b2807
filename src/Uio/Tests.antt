-- ===== src/Uio/Tests.antt =====
-- An instance of the layer in user space is started and stopped; the world counts the open files.
use ipc_shm.Common.{
  ℕ, ◌+◌, ◌-◌, ◌≡◌, refl, Bool, true, false, ◌||◌, none, some, List, [], ◌∷◌, ◌==◌, if◌then◌else◌,
  update,
}
use ipc_shm.Types.{ok, ShmCfg, core_default, core_m7}
use ipc_shm.Uio.{
  UserState, Posix, Attribute, name_of, version_of, first_line, is_same_text, line_match, matching,
  get_uio_dev_name,
}
use ipc_shm.Uio.Setup.{
  result, enabled_from, module_init, softirq_init, unmap_user_local, unmap_user_remote,
  start_softirq, open_uio, init_uio, map_user_remote, map_user_local, after_module, user_init,
  stop_softirq, user_free,
}
use ipc_shm.Uio.Files.Closed.{Descriptors, Released, user_free-Released}

-- the files of the two devices: the second is that of the instance 0
abbrev text : Attribute → List ℕ
text (name_of entry) = if entry == 5 then 48 ∷ 10 ∷ 99 ∷ [] else 49 ∷ []
text (version_of _) = 52 ∷ 0 ∷ 7 ∷ []

abbrev pub posix : Posix ℕ
posix = record {
  page_size = 4096;
  driver_version = 52 ∷ [];
  instance_name = λ i. (48 + i) ∷ [];
  scandir = λ s. some (4 ∷ 5 ∷ 6 ∷ []);
  fgets = λ s file. some (text file);
  open_file = λ s path. (some (s + 3), s + 1);
  close = λ s fd. s - 1;
  finit_module = λ s fd. (true, s);
  delete_module = λ s. s;
  ioctl_mmap_local = λ s fd addr. (true, s);
  ioctl_mmap_remote = λ s fd addr. (true, s);
  ioctl_init = λ s fd i cfg. (true, s);
  ioctl_free = λ s fd i. s;
  mmap = λ s size fd offset. (some (offset + 0x1000000), s);
  munmap = λ s addr size. s;
  write = λ s fd cmd. s;
  attr_init = λ s. (0, s);
  attr_setschedpolicy = λ s. (0, s);
  attr_setschedparam = λ s. (0, s);
  pthread_create = λ s i. (0, 71, s);
  pthread_cancel = λ s thread. s;
  pthread_join = λ s thread. s;
}

abbrev unopened : UserState ℕ
unopened = record {
  is_files_opened = false;
  ipc_cdev_fd = some 0;
  ipc_uio_module_fd = some 0;
  id = λ _. record {
    is_enabled = false;
    instance_id = 0;
    irq_num = some 0;
    uio_fd = some 0;
    local_virt_shm = 0;
    remote_virt_shm = 0;
    local_shm_map = some 0;
    remote_shm_map = some 0;
    local_shm_offset = 0;
    remote_shm_offset = 0;
    shm_size = 0;
    rx_cb = 0;
    irq_thread_id = 0;
  };
  rest = 0;
}

abbrev shm_cfg : ShmCfg
shm_cfg = record {
  local_shm_addr = 0x34000010;
  remote_shm_addr = 0x34100000;
  shm_size = 4096;
  inter_core_tx_irq = some 2;
  inter_core_rx_irq = some 1;
  local_core = record { type = core_default; index = 0; trusted = 1 };
  remote_core = record { type = core_m7; index = 0x01 };
  num_channels = 0;
  channels = none;
}

device_found : get_uio_dev_name posix 0 0 ≡ some 5
unfolding get_uio_dev_name matching line_match first_line is_same_text
device_found = refl

-- The files are closed by ipc_os_free(), less that of the kernel module.
started : (user_init posix unopened 0 shm_cfg 77).0 ≡ result ok
unfolding user_init module_init after_module map_user_local map_user_remote init_uio open_uio
    get_uio_dev_name matching line_match first_line is_same_text start_softirq softirq_init
started = refl

one_left : (user_free posix (user_init posix unopened 0 shm_cfg 77).1 0).rest ≡ 1
unfolding user_init module_init after_module map_user_local map_user_remote init_uio open_uio
    get_uio_dev_name matching line_match first_line is_same_text start_softirq softirq_init
    user_free stop_softirq enabled_from unmap_user_local unmap_user_remote
one_left = refl

-- the descriptors below 16 that are open, in a process that does nothing else
abbrev files : Posix (ℕ → Bool)
files = record {
  page_size = 4096;
  driver_version = 52 ∷ [];
  instance_name = λ i. (48 + i) ∷ [];
  scandir = λ s. none;
  fgets = λ s file. none;
  open_file = λ s path. (none, s);
  close = λ s fd. elim fd [ none ↦ s | some h ↦ update s h false ];
  finit_module = λ s fd. (true, s);
  delete_module = λ s. s;
  ioctl_mmap_local = λ s fd addr. (true, s);
  ioctl_mmap_remote = λ s fd addr. (true, s);
  ioctl_init = λ s fd i cfg. (true, s);
  ioctl_free = λ s fd i. s;
  mmap = λ s size fd offset. (none, s);
  munmap = λ s addr size. s;
  write = λ s fd cmd. s;
  attr_init = λ s. (0, s);
  attr_setschedpolicy = λ s. (0, s);
  attr_setschedparam = λ s. (0, s);
  pthread_create = λ s i. (0, 71, s);
  pthread_cancel = λ s thread. s;
  pthread_join = λ s thread. s;
}

descriptors : Descriptors files
descriptors = record {
  is_open = λ s. s;
  closed = λ s fd. refl;
  written = λ s fd cmd. refl;
  cancelled = λ s thread. refl;
  joined = λ s thread. refl;
  freed = λ s fd i. refl;
  unmapped = λ s map size. refl;
  deleted = λ s. refl;
}

-- The instances 0 and 1 are enabled, each with a UIO device.
abbrev two_running : UserState (ℕ → Bool)
two_running = record {
  is_files_opened = true;
  ipc_cdev_fd = some 4;
  ipc_uio_module_fd = some 3;
  id = λ i. record (unopened.id i) {
    is_enabled = (i == 0) || (i == 1);
    irq_num = some 33;
    uio_fd = some (5 + i);
  };
  rest = λ h. (h == 3) || (h == 4) || (h == 5) || (h == 6);
}

user_free-Released_example : Released descriptors 1 4 6 two_running (user_free files two_running 1)
user_free-Released_example = user_free-Released descriptors 1 two_running 4 6 refl refl
