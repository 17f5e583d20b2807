-- ===== src/Os/Balance/Stop.antt =====
-- What ipc_os_free() gives back.
use ipc_shm.Common.{
  ℕ, ◌-◌, ◌≡◌, refl, ap, ◌∙◌, arith, false, Option, none, some, if◌then◌else◌, Bool-cases, inl, inr,
  ==_of_eq, ==_false,
}
use native.Mathlib.Decide.{ℕ_discrete}
use ipc_shm.Types.{max_instances}
use ipc_shm.Os.{OsInstance, OsState}
use ipc_shm.Os.Setup.{Kernel, put_os, shares_from, stop_irq, os_free}
use ipc_shm.Os.Mapping.{put_os_self}
use ipc_shm.Os.Balance.{Account, shares_same, line_of, due}

-- The instance has its memories where it had them.
record SamePlaces (p q : OsInstance) : Type 0 where
  pub local_virt : q.local_virt_shm ≡ p.local_virt_shm
  pub remote_virt : q.remote_virt_shm ≡ p.remote_virt_shm
  pub local_phys : q.local_phys_shm ≡ p.local_phys_shm
  pub remote_phys : q.remote_phys_shm ≡ p.remote_phys_shm

module _ {S : Type 0} {K : Kernel S} (A : Account K) (i : ℕ) where
  -- the interrupt is given back unless another instance has it
  stop_irq-held :
      (st : OsState S) (num : Option ℕ)
      → A.held (stop_irq K st i num).rest
        ≡ A.held st.rest - (if shares_from st i num 0 max_instances then 0 else line_of A num)
  unfolding stop_irq line_of
  stop_irq-held st none = ground arith
  stop_irq-held st (some n) =
      let off = A.disable st.rest i in
      elim (Bool-cases (shares_from st i (some n) 0 max_instances)) [
        | inl e ↦ rw e (omega arith)
        | inr e ↦ elim (ℕ_discrete n 0) [
          | yes z ↦ rw (e, ==_of_eq n 0 z) (omega (arith, off, A.no_line, ap A.line z))
          | no ne ↦
              rw (e, ==_false n 0 ne)
                (omega (arith, off, A.free_line (K.hw_irq_disable st.rest i) n))
        ]
      ]

  stop_irq-SamePlaces :
      (st : OsState S) (num : Option ℕ)
      → SamePlaces (st.instances i) ((stop_irq K st i num).instances i)
  unfolding stop_irq
  stop_irq-SamePlaces st none = record {
    local_virt = refl;
    remote_virt = refl;
    local_phys = refl;
    remote_phys = refl;
  }
  stop_irq-SamePlaces st (some n) = elim (Bool-cases (shares_from st i (some n) 0 max_instances)) [
    | inl e ↦ rw e (record {
      local_virt = ground arith;
      remote_virt = ground arith;
      local_phys = ground arith;
      remote_phys = ground arith;
    })
    | inr e ↦ rw e (record {
      local_virt = ground arith;
      remote_virt = ground arith;
      local_phys = ground arith;
      remote_phys = ground arith;
    })
  ]

  -- the last four calls of ipc_os_free()
  given_back :
      (s : S) (p : OsInstance)
      → let s₁ = K.iounmap s p.remote_virt_shm in
        let s₂ = K.release_mem_region s₁ p.remote_phys_shm p.shm_size in
        let s₃ = K.iounmap s₂ p.local_virt_shm in
        A.held (K.release_mem_region s₃ p.local_phys_shm p.shm_size)
        ≡ A.held s
          - A.mapping p.remote_virt_shm
          - A.region p.remote_phys_shm
          - A.mapping p.local_virt_shm
          - A.region p.local_phys_shm
  given_back s p =
      let s₁ = K.iounmap s p.remote_virt_shm in
      let s₂ = K.release_mem_region s₁ p.remote_phys_shm p.shm_size in
      let s₃ = K.iounmap s₂ p.local_virt_shm in
      omega (
        arith,
        A.unmap s p.remote_virt_shm,
        A.release s₁ p.remote_phys_shm p.shm_size,
        A.unmap s₂ p.local_virt_shm,
        A.release s₃ p.local_phys_shm p.shm_size,
      )

  disabled-held :
      (st : OsState S)
      → let st₀ = put_os st i (record (st.instances i) { is_enabled = false }) in
        A.held (stop_irq K st₀ i (st₀.instances i).irq_num).rest ≡ A.held st.rest - due A i st
  unfolding due
  disabled-held st =
      let q : OsInstance = record (st.instances i) { is_enabled = false } in
      let st₀ = put_os st i q in
      let num = (st.instances i).irq_num in
      let shared = shares_same st₀ st i num 0 max_instances (λ h ne. rw (==_false i h ne) refl) in
      rw (put_os_self st i q) (rw shared at (stop_irq-held st₀ num))

  -- ipc_os_free() of an instance gives back its two memories, and its interrupt unless another
  -- instance has it.
  pub os_free-held :
      (st : OsState S)
      → let p = st.instances i in
        A.held (os_free K st i).rest
        ≡ A.held st.rest
          - due A i st
          - A.mapping p.remote_virt_shm
          - A.region p.remote_phys_shm
          - A.mapping p.local_virt_shm
          - A.region p.local_phys_shm
  unfolding os_free due
  os_free-held st =
      let q : OsInstance = record (st.instances i) { is_enabled = false } in
      let st₀ = put_os st i q in
      let num₀ = (st₀.instances i).irq_num in
      let same : st₀.instances i ≡ q = put_os_self st i q in
      let st₁ = stop_irq K st₀ i num₀ in
      let w = stop_irq-SamePlaces st₀ num₀ in
      let stopped : A.held st₁.rest ≡ A.held st.rest - due A i st = disabled-held st in
      omega (
        arith,
        given_back st₁.rest (st₁.instances i),
        stopped,
        ap A.mapping (w.remote_virt ∙ ap (λ x. x.remote_virt_shm) same),
        ap A.region (w.remote_phys ∙ ap (λ x. x.remote_phys_shm) same),
        ap A.mapping (w.local_virt ∙ ap (λ x. x.local_virt_shm) same),
        ap A.region (w.local_phys ∙ ap (λ x. x.local_phys_shm) same),
      )
