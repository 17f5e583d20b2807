-- ===== src/Os.antt =====
-- os_kernel/ipc-os.c: the interrupt handlers and the polling of the Linux layer. Reception, the
-- interrupt controller and the tasklet are operations on a state that is a parameter.
mod Tests
pub mod View
pub mod Service
pub mod Setup
pub mod Mapping
pub mod Balance
pub mod Linux
use ipc_shm.Common.{
  ℕ, zero, suc, ◌+◌, Bool, true, false, ◌||◌, not, Option, none, some, leb, ◌==◌, if◌then◌else◌,
}
use ipc_shm.Types.{einval, eopnotsupp, max_instances}
use ipc_shm.Memory.{null}
use ipc_shm.Shm.State.{Poll, run, refuse}

abbrev pub softirq_budget : ℕ
softirq_budget = 128

-- `struct ipc_os_priv_instance`; `none` is IPC_IRQ_NONE, `rx_cb` an address.
pub record OsInstance : Type 0 where
  pub shm_size : ℕ
  pub local_phys_shm : ℕ
  pub remote_phys_shm : ℕ
  pub local_virt_shm : ℕ
  pub remote_virt_shm : ℕ
  pub irq_num : Option ℕ
  pub is_enabled : Bool
  pub rx_cb : ℕ

pub record OsState (S : Type 0) : Type 0 where
  pub instances : ℕ → OsInstance
  pub rest : S

-- What the handlers call: the receive callback of an instance, ipc-hw.h, and tasklet_schedule().
pub record Calls (S : Type 0) : Type 0 where
  pub rx : OsState S → (rx_cb instance_id budget : ℕ) → ℕ × OsState S
  pub irq_enable : S → ℕ → S
  pub irq_disable : S → ℕ → S
  pub irq_clear : S → ℕ → S
  pub tasklet_schedule : S → S

abbrev pub has_irq : Option ℕ → Bool
has_irq none = false
has_irq (some _) = true

-- The instance is not skipped by the handlers.
abbrev pub is_served : OsInstance → Bool
is_served p = if not p.is_enabled || not (has_irq p.irq_num) then false else true

module _ {S : Type 0} (C : Calls S) where
  abbrev pub on_rest : OsState S → (S → S) → OsState S
  on_rest st f = record st { rest = f st.rest }

  -- the work for one instance; its interrupt is enabled behind the branches, too
  unfoldable pub serve : OsState S → ℕ → OsState S
  serve st i =
      let (work, st') = C.rx st (st.instances i).rx_cb i softirq_budget in
      let decided =
        on_rest st'
          (if leb softirq_budget work then C.tasklet_schedule else (λ s. C.irq_enable s i)) in
      on_rest decided (λ s. C.irq_enable s i)

  unfoldable pub softirq_from : OsState S → ℕ → ℕ → OsState S
  softirq_from st i zero = st
  softirq_from st i (suc rounds) =
      softirq_from (if is_served (st.instances i) then serve st i else st) (i + 1) rounds

  unfoldable pub softirq : OsState S → OsState S
  unfolding softirq_from serve
  softirq st = softirq_from st 0 max_instances

  unfoldable pub mask : OsState S → ℕ → OsState S
  mask st i = on_rest st (λ s. C.irq_clear (C.irq_disable s i) i)

  unfoldable pub hardirq_from : OsState S → ℕ → ℕ → OsState S
  hardirq_from st i zero = st
  hardirq_from st i (suc rounds) =
      hardirq_from (if is_served (st.instances i) then mask st i else st) (i + 1) rounds

  unfoldable pub hardirq : OsState S → OsState S
  unfolding hardirq_from mask
  hardirq st = on_rest (hardirq_from st 0 max_instances) C.tasklet_schedule

-- ipc_os_poll_channels()
unfoldable pub poll_of : OsInstance → Option ℕ → Poll
poll_of p none = if p.rx_cb == null then refuse einval else run softirq_budget
poll_of p (some _) = refuse eopnotsupp

unfoldable pub os_poll_channels : {S : Type 0} → OsState S → ℕ → Poll
unfolding poll_of
os_poll_channels st i = poll_of (st.instances i) (st.instances i).irq_num
