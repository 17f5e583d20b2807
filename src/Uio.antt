-- ===== src/Uio.antt =====
-- os_uio/ipc-os.c, the Linux layer in user space: its state, what it calls, the search of its UIO
-- device, and the commands that it sends to the kernel module. A name that the kernel layer has as
-- well begins with user_ here.
use ipc_shm.Common.{
  ℕ, Bool, true, false, ◌&&◌, Option, none, some, List, [], ◌∷◌, ◌==◌, ◌||◌, if◌then◌else◌,
}
use ipc_shm.Types.{Status, ShmCfg, einval, eopnotsupp}
use ipc_shm.Memory.{null}
use ipc_shm.Os.{softirq_budget}
use ipc_shm.Shm.State.{Poll, run, refuse}
pub mod Setup
pub mod Files
pub mod Driver
mod Tests

-- `struct ipc_os_priv_instance`. A file is `none` where it is -1, a page where it is MAP_FAILED, and
-- an interrupt where it is IPC_IRQ_NONE.
pub record UserInstance : Type 0 where
  pub is_enabled : Bool
  pub instance_id : ℕ
  pub irq_num : Option ℕ
  pub uio_fd : Option ℕ
  pub local_virt_shm : ℕ
  pub remote_virt_shm : ℕ
  pub local_shm_map : Option ℕ
  pub remote_shm_map : Option ℕ
  pub local_shm_offset : ℕ
  pub remote_shm_offset : ℕ
  pub shm_size : ℕ
  pub rx_cb : ℕ
  pub irq_thread_id : ℕ

-- `struct ipc_os_priv_type`, and the world outside of the process
pub record UserState (S : Type 0) : Type 0 where
  pub is_files_opened : Bool
  pub ipc_cdev_fd : Option ℕ
  pub ipc_uio_module_fd : Option ℕ
  pub id : ℕ → UserInstance
  pub rest : S

-- The files that are opened: the kernel module, its character device, and a UIO device by its entry
-- in the directory of the devices.
pub data DeviceFile : Type 0 where
  module_path : DeviceFile
  cdev_path : DeviceFile
  uio_path : ℕ → DeviceFile

-- The two files of an entry of that directory that are read.
pub data Attribute : Type 0 where
  name_of : ℕ → Attribute
  version_of : ℕ → Attribute

-- The C library and the kernel, as the layer uses them. A call of pthread gives 0 or its error.
pub record Posix (S : Type 0) : Type 0 where
  pub page_size : ℕ
  pub driver_version : List ℕ
  pub instance_name : ℕ → List ℕ
  pub scandir : S → Option (List ℕ)
  pub fgets : S → Attribute → Option (List ℕ)
  pub open_file : S → DeviceFile → Option ℕ × S
  pub close : S → Option ℕ → S
  pub finit_module : S → Option ℕ → Bool × S
  pub delete_module : S → S
  pub ioctl_mmap_local : S → Option ℕ → ℕ → Bool × S
  pub ioctl_mmap_remote : S → Option ℕ → ℕ → Bool × S
  pub ioctl_init : S → Option ℕ → ℕ → ShmCfg → Bool × S
  pub ioctl_free : S → Option ℕ → ℕ → S
  pub mmap : S → (size : ℕ) → Option ℕ → (offset : ℕ) → Option ℕ × S
  pub munmap : S → Option ℕ → ℕ → S
  pub write : S → Option ℕ → (cmd : ℕ) → S
  pub attr_init : S → ℕ × S
  pub attr_setschedpolicy : S → ℕ × S
  pub attr_setschedparam : S → ℕ × S
  pub pthread_create : S → (instance_id : ℕ) → ℕ × ℕ × S
  pub pthread_cancel : S → ℕ → S
  pub pthread_join : S → ℕ → S

-- the characters before the end of the line or of the string
unfoldable pub first_line : List ℕ → List ℕ
first_line [] = []
first_line (c ∷ rest) = let line = first_line rest in if c == 0 || c == 10 then [] else c ∷ line

unfoldable pub is_same_text : List ℕ → List ℕ → Bool
is_same_text [] [] = true
is_same_text (a ∷ xs) (b ∷ ys) = a == b && is_same_text xs ys
is_same_text _ _ = false

module _ {S : Type 0} (P : Posix S) where
  unfoldable pub line_match : S → Attribute → List ℕ → Bool
  unfolding first_line is_same_text
  line_match s file filter = elim (P.fgets s file) [
    | none ↦ false
    | some text ↦ is_same_text (first_line text) filter
  ]

  -- the last entry that matches
  unfoldable pub matching : S → ℕ → List ℕ → Option ℕ
  unfolding line_match
  matching s i [] = none
  matching s i (entry ∷ rest) =
      let is_match =
        line_match s (name_of entry) (P.instance_name i)
        && line_match s (version_of entry) P.driver_version in
      elim (matching s i rest) [
        | some later ↦ some later
        | none ↦ if is_match then some entry else none
      ]

  unfoldable pub get_uio_dev_name : S → ℕ → Option ℕ
  unfolding matching
  get_uio_dev_name s i = elim (P.scandir s) [ none ↦ none | some entries ↦ matching s i entries ]

  abbrev pub send_uio_cmd : UserState S → ℕ → ℕ → UserState S
  send_uio_cmd st i cmd = record st { rest = P.write st.rest (st.id i).uio_fd cmd }

  abbrev pub user_irq_disable : UserState S → ℕ → UserState S
  user_irq_disable st i = send_uio_cmd st i 1

  abbrev pub user_irq_enable : UserState S → ℕ → UserState S
  user_irq_enable st i = send_uio_cmd st i 2

  abbrev pub user_irq_notify : UserState S → ℕ → UserState S
  user_irq_notify st i = send_uio_cmd st i 3

module _ {S : Type 0} where
  abbrev pub user_poll_channels : UserState S → ℕ → Poll
  user_poll_channels st i = elim (st.id i).irq_num [
    | none ↦ if (st.id i).rx_cb == null then refuse einval else run softirq_budget
    | some _ ↦ refuse eopnotsupp
  ]
