-- ===== src/Os/Setup.antt =====
-- os_kernel/ipc-os.c: ipc_os_init() with its error paths, ipc_os_free(), and the mapping of the
-- interrupt controller. The calls of the kernel are parameters.
use ipc_shm.Common.{
  ℕ, zero, suc, ◌+◌, Bool, true, false, ◌&&◌, not, Option, none, some, ltb, ◌==◌, if◌then◌else◌,
  update,
}
use ipc_shm.Types.{Status, ok, einval, enomem, enxio, eaddrinuse, ShmCfg, max_instances}
use ipc_shm.Memory.{null}
use ipc_shm.Queue.{is_ok}
use ipc_shm.Os.{OsInstance, OsState}

-- What of_irq_get() gives: a number above 0, or another int, as `irq_num` holds it.
pub data IrqResult : Type 0 where
  irq : ℕ → IrqResult
  no_irq : Option ℕ → IrqResult

-- linux/ioport.h, linux/io.h, linux/interrupt.h, linux/of_irq.h and linux/of_address.h, and
-- ipc-hw.h, as the layer uses them. A device node is an address.
pub record Kernel (S : Type 0) : Type 0 where
  pub request_mem_region : S → (addr size : ℕ) → Bool × S
  pub release_mem_region : S → (addr size : ℕ) → S
  pub ioremap : S → (addr size : ℕ) → ℕ × S
  pub iounmap : S → ℕ → S
  pub of_find_compatible_node : S → ℕ × S
  pub of_node_put : S → ℕ → S
  pub of_irq_get : S → ℕ → Option ℕ → IrqResult
  pub of_address_to_resource : S → ℕ → Option (ℕ × ℕ)
  pub request_irq : S → ℕ → Status × S
  pub free_irq : S → ℕ → S
  pub hw_get_rx_irq : S → ℕ → Option ℕ
  pub hw_irq_disable : S → ℕ → S

-- two ints are equal, where `none` is -1
abbrev pub is_same_num : Option ℕ → Option ℕ → Bool
is_same_num none none = true
is_same_num (some a) (some b) = a == b
is_same_num _ _ = false

-- a number above 0 is good; any is stored
abbrev pub decoded : IrqResult → Status × Option (Option ℕ)
decoded (irq n) = (ok, some (some n))
decoded (no_irq n) = (einval, some n)

module _ {S : Type 0} where
  abbrev pub put_rest : OsState S → S → OsState S
  put_rest st s = record st { rest = s }

  abbrev pub put_os : OsState S → ℕ → OsInstance → OsState S
  put_os st i p = record st { instances = update st.instances i p }

  -- another of the instances from `k` on has the interrupt
  unfoldable pub shares_from : OsState S → ℕ → Option ℕ → (k rounds : ℕ) → Bool
  shares_from st i num k zero = false
  shares_from st i num k (suc rounds) =
      let rest = shares_from st i num (k + 1) rounds in
      if not (i == k) && is_same_num (st.instances k).irq_num num then true else rest

  -- the number that of_irq_get() gave, if it was called
  unfoldable pub store_irq : OsState S → ℕ → Option (Option ℕ) → OsState S
  store_irq st i none = st
  store_irq st i (some num) = put_os st i (record (st.instances i) { irq_num = num })

  unfoldable pub enable : OsState S → ℕ → OsState S
  enable st i = put_os st i (record (st.instances i) { is_enabled = true })

module _ {S : Type 0} (K : Kernel S) where
  unfoldable pub get_irq_number : S → ℕ → Status × Option (Option ℕ) × S
  get_irq_number s i =
      let (node, s') = K.of_find_compatible_node s in
      let (e, found) = decoded (K.of_irq_get s' node (K.hw_get_rx_irq s' i)) in
      if node == null then (enxio, none, s') else (e, found, K.of_node_put s' node)

  -- the labels of the error path, the last one first
  abbrev pub release_local : S → ShmCfg → S
  release_local s cfg = K.release_mem_region s cfg.local_shm_addr cfg.shm_size

  abbrev pub unmap_local : S → ShmCfg → S
  unmap_local s cfg = release_local (K.iounmap s cfg.local_shm_addr) cfg

  abbrev pub release_remote : S → ShmCfg → S
  release_remote s cfg = unmap_local (K.release_mem_region s cfg.remote_shm_addr cfg.shm_size) cfg

  abbrev pub unmap_remote : S → ShmCfg → S
  unmap_remote s cfg = release_remote (K.iounmap s cfg.remote_shm_addr) cfg

  -- the interrupt is requested unless another instance has it or there is none
  unfoldable pub start_irq : OsState S → ℕ → ShmCfg → Status × OsState S
  unfolding shares_from enable
  start_irq st i cfg =
      let num = (st.instances i).irq_num in
      if shares_from st i num 0 max_instances then (ok, enable st i) else elim num [
        | none ↦ (ok, enable st i)
        | some n ↦
            let (e, s) = K.request_irq st.rest n in
            if is_ok e
            then (ok, enable (put_rest st s) i)
            else (e, put_rest st (unmap_remote s cfg))
      ]

  -- the interrupt number is stored even where it is invalid
  unfoldable pub choose_irq : OsState S → ℕ → ShmCfg → Option ℕ → Status × OsState S
  unfolding start_irq get_irq_number store_irq
  choose_irq st i cfg none =
      start_irq (put_os st i (record (st.instances i) { irq_num = none })) i cfg
  choose_irq st i cfg (some _) =
      let (e, found, s) = get_irq_number st.rest i in
      let st' = store_irq st i found in
      if is_ok e then start_irq (put_rest st' s) i cfg else (e, put_rest st' (unmap_remote s cfg))

  unfoldable pub map_remote : OsState S → ℕ → ShmCfg → (rx_cb : ℕ) → Status × OsState S
  unfolding choose_irq
  map_remote st i cfg rx_cb =
      let (virt, s) = K.ioremap st.rest cfg.remote_shm_addr cfg.shm_size in
      let p : OsInstance = record (st.instances i) { remote_virt_shm = virt } in
      let p' : OsInstance = record p {
        shm_size = cfg.shm_size;
        local_phys_shm = cfg.local_shm_addr;
        remote_phys_shm = cfg.remote_shm_addr;
        rx_cb = rx_cb;
      } in
      if virt == null
      then (enomem, put_rest (put_os st i p) (release_remote s cfg))
      else choose_irq (put_rest (put_os st i p') s) i cfg cfg.inter_core_rx_irq

  unfoldable pub take_remote : OsState S → ℕ → ShmCfg → (rx_cb : ℕ) → Status × OsState S
  unfolding map_remote
  take_remote st i cfg rx_cb =
      let (is_free, s) = K.request_mem_region st.rest cfg.remote_shm_addr cfg.shm_size in
      if is_free
      then map_remote (put_rest st s) i cfg rx_cb
      else (eaddrinuse, put_rest st (unmap_local s cfg))

  unfoldable pub map_local : OsState S → ℕ → ShmCfg → (rx_cb : ℕ) → Status × OsState S
  unfolding take_remote
  map_local st i cfg rx_cb =
      let (virt, s) = K.ioremap st.rest cfg.local_shm_addr cfg.shm_size in
      let st' = put_os st i (record (st.instances i) { local_virt_shm = virt }) in
      if virt == null
      then (enomem, put_rest st' (release_local s cfg))
      else take_remote (put_rest st' s) i cfg rx_cb

  unfoldable pub os_init : OsState S → ℕ → ShmCfg → (rx_cb : ℕ) → Status × OsState S
  unfolding map_local
  os_init st i cfg rx_cb =
      let (is_free, s) = K.request_mem_region st.rest cfg.local_shm_addr cfg.shm_size in
      if rx_cb == null
      then (einval, st)
      else if ltb max_instances i
      then (einval, st)
      else if is_free
      then map_local (put_rest st s) i cfg rx_cb
      else (eaddrinuse, put_rest st s)

  -- the interrupt of an instance that has one
  unfoldable pub stop_irq : OsState S → ℕ → Option ℕ → OsState S
  unfolding shares_from
  stop_irq st i none = st
  stop_irq st i (some n) =
      let s = K.hw_irq_disable st.rest i in
      let stopped = if n == 0 then s else K.free_irq s n in
      let st' = if shares_from st i (some n) 0 max_instances then st else put_rest st stopped in
      put_os st' i (record (st'.instances i) { irq_num = some 0 })

  unfoldable pub os_free : OsState S → ℕ → OsState S
  unfolding stop_irq
  os_free st i =
      let st₀ = put_os st i (record (st.instances i) { is_enabled = false }) in
      let st₁ = stop_irq st₀ i (st₀.instances i).irq_num in
      let p = st₁.instances i in
      let s₁ = K.iounmap st₁.rest p.remote_virt_shm in
      let s₂ = K.release_mem_region s₁ p.remote_phys_shm p.shm_size in
      let s₃ = K.iounmap s₂ p.local_virt_shm in
      put_rest st₁ (K.release_mem_region s₃ p.local_phys_shm p.shm_size)

  unfoldable pub os_map_intc : S → ℕ × S
  os_map_intc s =
      let (node, s') = K.of_find_compatible_node s in
      if node == null then (null, s') else elim (K.of_address_to_resource s' node) [
        | none ↦ (null, K.of_node_put s' node)
        | some (start, size) ↦ K.ioremap (K.of_node_put s' node) start size
      ]

  abbrev pub os_unmap_intc : S → ℕ → S
  os_unmap_intc s addr = K.iounmap s addr

module _ {S : Type 0} where
  abbrev pub os_get_local_shm : OsState S → ℕ → ℕ
  os_get_local_shm st i = (st.instances i).local_virt_shm

  abbrev pub os_get_remote_shm : OsState S → ℕ → ℕ
  os_get_remote_shm st i = (st.instances i).remote_virt_shm
