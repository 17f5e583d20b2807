-- ===== src/Os/Balance.antt =====
-- What ipc_os_init() takes from the kernel, ipc_os_free() gives back: how it is weighed.
use ipc_shm.Common.{
  ℕ, zero, suc, ◌+◌, ◌-◌, ◌≡◌, ◌≢◌, refl, sym, ap, ◌∙◌, arith, Bool, true, false, ◌&&◌, not, Option,
  none, some, ltb, ◌==◌, if◌then◌else◌, Bool-cases, Option-cases, inl, inr, ==_of_eq, ==_false,
}
use native.Mathlib.Decide.{ℕ_discrete}
use ipc_shm.Types.{Status, ok, ShmCfg, max_instances}
use ipc_shm.Memory.{null}
use ipc_shm.Queue.{is_ok}
use ipc_shm.Os.{OsInstance, OsState}
use ipc_shm.Os.Setup.{
  Kernel, IrqResult, irq, no_irq, is_same_num, put_rest, put_os, shares_from, enable, store_irq,
  get_irq_number, start_irq, choose_irq, map_remote, take_remote, map_local, os_init, stop_irq,
  os_free,
}
use ipc_shm.Os.Mapping.{put_os_self, Up, os_init-Up}
pub mod Start
pub mod Memories
pub mod Stop
pub mod Roundtrip
mod Tests

-- A way of weighing what the kernel has given out: regions by address, mappings by where they are,
-- interrupts by number. 0 is no interrupt. To weigh one region, mapping or interrupt 1 and all else 0
-- is to ask whether that one is held.
pub record Account {S : Type 0} (K : Kernel S) : Type 0 where
  pub region : ℕ → ℕ
  pub mapping : ℕ → ℕ
  pub line : ℕ → ℕ
  pub held : S → ℕ
  pub no_line : line 0 ≡ 0
  pub request :
      (s : S) (a n : ℕ)
      → held (K.request_mem_region s a n).1
        ≡ held s + (if (K.request_mem_region s a n).0 then region a else 0)
  pub release : (s : S) (a n : ℕ) → held (K.release_mem_region s a n) ≡ held s - region a
  pub map :
      (s : S) (a n : ℕ)
      → held (K.ioremap s a n).1
        ≡ held s + (if (K.ioremap s a n).0 == null then 0 else mapping (K.ioremap s a n).0)
  pub unmap : (s : S) (a : ℕ) → held (K.iounmap s a) ≡ held s - mapping a
  pub find : (s : S) → held (K.of_find_compatible_node s).1 ≡ held s
  pub put : (s : S) (node : ℕ) → held (K.of_node_put s node) ≡ held s
  pub request_line :
      (s : S) (n : ℕ)
      → held (K.request_irq s n).1 ≡ held s + (if is_ok (K.request_irq s n).0 then line n else 0)
  pub free_line : (s : S) (n : ℕ) → held (K.free_irq s n) ≡ held s - line n
  pub disable : (s : S) (i : ℕ) → held (K.hw_irq_disable s i) ≡ held s

pub shares_same :
    {S : Type 0} (a b : OsState S) (i : ℕ) (num : Option ℕ) (k n : ℕ)
    → ((h : ℕ) → i ≢ h → a.instances h ≡ b.instances h)
    → shares_from a i num k n ≡ shares_from b i num k n
unfolding shares_from
shares_same a b i num k zero same = refl
shares_same a b i num k (suc n) same = elim (ℕ_discrete i k) [
  | yes e ↦ rw (==_of_eq i k e) (shares_same a b i num (k + 1) n same)
  | no ne ↦ rw (same k ne, shares_same a b i num (k + 1) n same) refl
]

module _ {S : Type 0} {K : Kernel S} (A : Account K) where
  unfoldable pub line_of : Option ℕ → ℕ
  line_of none = 0
  line_of (some n) = A.line n

module _ {S : Type 0} {K : Kernel S} (A : Account K) (i : ℕ) where
  -- what the interrupt of the instance weighs, if no other instance has it
  unfoldable pub due : OsState S → ℕ
  due st =
      if shares_from st i (st.instances i).irq_num 0 max_instances
      then 0
      else line_of A (st.instances i).irq_num

  -- What the interrupt weighs is held besides, and the instance still has its memories.
  pub record Paid (st st' : OsState S) : Type 0 where
    pub sum : A.held st'.rest ≡ A.held st.rest + due st'
    pub local_virt : (st'.instances i).local_virt_shm ≡ (st.instances i).local_virt_shm
    pub remote_virt : (st'.instances i).remote_virt_shm ≡ (st.instances i).remote_virt_shm

  pub due-enable : (st : OsState S) → due (enable st i) ≡ due st
  unfolding due enable
  due-enable st =
      let p : OsInstance = record (st.instances i) { is_enabled = true } in
      rw
        (
          put_os_self st i p,
          shares_same (put_os st i p) st i (st.instances i).irq_num 0 max_instances
              (λ h ne. rw (==_false i h ne) refl),
        )
        refl
