-- ===== src/Xen.antt =====
-- os_kernel/ipc-xen.c, the layer for a guest of Xen, which polls: its interrupts are not written yet
-- (the source marks them TBD), and the functions of ipc-hw.h in it are empty. A name that the Linux
-- layer has as well begins with xen_ here.
mod Tests
pub mod Irqs
use ipc_shm.Common.{
  ℕ, zero, suc, ◌+◌, Bool, true, false, ◌||◌, not, Option, none, some, ltb, leb, ◌==◌,
  if◌then◌else◌, update,
}
use ipc_shm.Types.{Status, ok, einval, enomem, eaddrinuse, eopnotsupp, ShmCfg, max_instances}
use ipc_shm.Memory.{null}
use ipc_shm.Os.{softirq_budget, has_irq}
use ipc_shm.Os.Setup.{is_same_num}
use ipc_shm.Shm.State.{Poll, run, refuse}

-- `struct ipc_os_priv_instance`; `none` is IPC_IRQ_NONE, -1.
pub record XenInstance : Type 0 where
  pub shm_size : ℕ
  pub local_phys_shm : ℕ
  pub remote_phys_shm : ℕ
  pub local_virt_shm : ℕ
  pub remote_virt_shm : ℕ
  pub irq_num : Option ℕ
  pub is_enabled : Bool

-- `struct ipc_os_priv`, and the kernel
pub record XenState (S : Type 0) : Type 0 where
  pub id : ℕ → XenInstance
  pub rx_cb : ℕ
  pub irq_num_init : ℕ → Option ℕ
  pub rest : S

-- linux/ioport.h, linux/io.h and linux/interrupt.h, as the layer uses them, and the receive callback
-- by its address
pub record XenCalls (S : Type 0) : Type 0 where
  pub request_mem_region : S → (addr size : ℕ) → Bool × S
  pub release_mem_region : S → (addr size : ℕ) → S
  pub ioremap : S → (addr size : ℕ) → ℕ × S
  pub iounmap : S → ℕ → S
  pub free_irq : S → Option ℕ → S
  pub tasklet_schedule : S → S
  pub tasklet_kill : S → S
  pub rx : XenState S → (rx_cb instance_id budget : ℕ) → ℕ × XenState S

-- an instance from `k` on has initialized the interrupt
unfoldable pub initialized_from : (ℕ → Option ℕ) → Option ℕ → (k rounds : ℕ) → Bool
initialized_from nums num k zero = false
initialized_from nums num k (suc rounds) =
    let rest = initialized_from nums num (k + 1) rounds in
    if is_same_num num (nums k) then true else rest

-- 0 is what the array of the interrupts holds where none is initialized
abbrev pub is_requested : Option ℕ → Bool
is_requested num = not (is_same_num num (some 0))

-- The handlers skip the instance.
abbrev is_skipped : XenInstance → Bool
is_skipped p = not p.is_enabled || not (has_irq p.irq_num)

module _ {S : Type 0} where
  abbrev pub put_xen : XenState S → ℕ → XenInstance → XenState S
  put_xen st i p = record st { id = update st.id i p }

  abbrev pub put_calls : XenState S → S → XenState S
  put_calls st s = record st { rest = s }

  abbrev pub xen_get_local_shm : XenState S → ℕ → ℕ
  xen_get_local_shm st i = (st.id i).local_virt_shm

  abbrev pub xen_get_remote_shm : XenState S → ℕ → ℕ
  xen_get_remote_shm st i = (st.id i).remote_virt_shm

  -- ipc_os_poll_channels()
  unfoldable pub xen_poll_channels : XenState S → ℕ → Poll
  xen_poll_channels st i = elim (st.id i).irq_num [
    | none ↦ if st.rx_cb == null then refuse einval else run softirq_budget
    | some _ ↦ refuse eopnotsupp
  ]

module _ {S : Type 0} (X : XenCalls S) where
  -- ipc_shm_softirq(), for `rounds` instances from `i` on
  unfoldable pub xen_softirq_from : XenState S → (i rounds : ℕ) → XenState S
  xen_softirq_from st i zero = st
  xen_softirq_from st i (suc rounds) =
      let (work, st') = X.rx st st.rx_cb i softirq_budget in
      let again = put_calls st' (X.tasklet_schedule st'.rest) in
      let next =
        if is_skipped (st.id i) then st else if leb softirq_budget work then again else st' in
      xen_softirq_from next (i + 1) rounds

  unfoldable pub xen_softirq : XenState S → XenState S
  xen_softirq st = xen_softirq_from st 0 max_instances

  -- ipc_shm_hardirq(); the notifications are not handled yet
  abbrev pub xen_hardirq : XenState S → XenState S
  xen_hardirq st = put_calls st (X.tasklet_schedule st.rest)

  -- the labels of the error path of ipc_os_init(), the last one first
  abbrev xen_release_local : S → ShmCfg → S
  xen_release_local s cfg = X.release_mem_region s cfg.local_shm_addr cfg.shm_size

  abbrev xen_unmap_local : S → ShmCfg → S
  xen_unmap_local s cfg = xen_release_local (X.iounmap s cfg.local_shm_addr) cfg

  abbrev xen_release_remote : S → ShmCfg → S
  xen_release_remote s cfg =
      xen_unmap_local (X.release_mem_region s cfg.remote_shm_addr cfg.shm_size) cfg

  -- the number of an interrupt is left as it is; a number that is new is kept as initialized
  unfoldable pub xen_irq : XenState S → ℕ → Option ℕ → XenState S
  xen_irq st i rx =
      let p = st.id i in
      let num : Option ℕ = elim rx [ none ↦ none | some _ ↦ p.irq_num ] in
      let on = put_xen st i (record p { irq_num = num; is_enabled = true }) in
      if initialized_from st.irq_num_init num 0 max_instances
      then on
      else record on { irq_num_init = update st.irq_num_init i num }

  unfoldable pub xen_map_remote : XenState S → ℕ → ShmCfg → (rx_cb : ℕ) → Status × XenState S
  xen_map_remote st i cfg rx_cb =
      let (virt, s) = X.ioremap st.rest cfg.remote_shm_addr cfg.shm_size in
      let p : XenInstance = record (st.id i) { remote_virt_shm = virt } in
      let p' : XenInstance = record p {
        shm_size = cfg.shm_size;
        local_phys_shm = cfg.local_shm_addr;
        remote_phys_shm = cfg.remote_shm_addr;
      } in
      if virt == null then (enomem, put_calls (put_xen st i p) (xen_release_remote s cfg)) else (
        ok,
        xen_irq (record (put_calls (put_xen st i p') s) { rx_cb = rx_cb }) i cfg.inter_core_rx_irq,
      )

  unfoldable pub xen_take_remote : XenState S → ℕ → ShmCfg → (rx_cb : ℕ) → Status × XenState S
  xen_take_remote st i cfg rx_cb =
      let (is_free, s) = X.request_mem_region st.rest cfg.remote_shm_addr cfg.shm_size in
      if is_free
      then xen_map_remote (put_calls st s) i cfg rx_cb
      else (eaddrinuse, put_calls st (xen_unmap_local s cfg))

  unfoldable pub xen_map_local : XenState S → ℕ → ShmCfg → (rx_cb : ℕ) → Status × XenState S
  xen_map_local st i cfg rx_cb =
      let (virt, s) = X.ioremap st.rest cfg.local_shm_addr cfg.shm_size in
      let st' = put_xen st i (record (st.id i) { local_virt_shm = virt }) in
      if virt == null
      then (enomem, put_calls st' (xen_release_local s cfg))
      else xen_take_remote (put_calls st' s) i cfg rx_cb

  unfoldable pub xen_init : XenState S → ℕ → ShmCfg → (rx_cb : ℕ) → Status × XenState S
  xen_init st i cfg rx_cb =
      let (is_free, s) = X.request_mem_region st.rest cfg.local_shm_addr cfg.shm_size in
      if rx_cb == null
      then (einval, st)
      else if ltb max_instances i
      then (einval, st)
      else if is_free
      then xen_map_local (put_calls st s) i cfg rx_cb
      else (eaddrinuse, put_calls st s)

  -- the interrupt of an instance that is said to have initialized it
  unfoldable pub xen_free_irq : XenState S → ℕ → XenState S
  xen_free_irq st i =
      if is_requested (st.irq_num_init i)
      then record st {
        rest = X.free_irq st.rest (st.id i).irq_num;
        irq_num_init = update st.irq_num_init i (some 0);
      }
      else st

  unfoldable pub xen_free : XenState S → ℕ → XenState S
  xen_free st i =
      let off = put_xen st i (record (st.id i) { is_enabled = false }) in
      let st₁ = xen_free_irq (put_calls off (X.tasklet_kill off.rest)) i in
      let p = st₁.id i in
      let s₁ = X.iounmap st₁.rest p.remote_virt_shm in
      let s₂ = X.release_mem_region s₁ p.remote_phys_shm p.shm_size in
      let s₃ = X.iounmap s₂ p.local_virt_shm in
      put_calls st₁ (X.release_mem_region s₃ p.local_phys_shm p.shm_size)

  abbrev pub xen_unmap_intc : S → ℕ → S
  xen_unmap_intc s addr = X.iounmap s addr
