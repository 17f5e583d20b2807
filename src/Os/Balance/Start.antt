-- ===== src/Os/Balance/Start.antt =====
-- The interrupt that ipc_os_init() starts.
use ipc_shm.Common.{
  ℕ, ◌+◌, ◌≡◌, refl, sym, ap, ◌∙◌, arith, true, Option, none, some, Bool-cases, Option-cases, inl,
  inr, ==_of_eq, ==_false,
}
use native.Mathlib.Decide.{ℕ_discrete}
use ipc_shm.Types.{ok, ShmCfg, max_instances}
use ipc_shm.Memory.{null}
use ipc_shm.Queue.{is_ok, not_ok}
use ipc_shm.Os.{OsInstance, OsState}
use ipc_shm.Os.Setup.{
  Kernel, put_rest, shares_from, enable, store_irq, get_irq_number, start_irq, choose_irq,
}
use ipc_shm.Os.Mapping.{put_os_self}
use ipc_shm.Os.Balance.{Account, line_of, due, Paid, due-enable}

module _ {S : Type 0} {K : Kernel S} (A : Account K) (i : ℕ) (cfg : ShmCfg) where
  enable-Paid :
      (st : OsState S) (s : S)
      → A.held s ≡ A.held st.rest + due A i st
      → Paid A i st (enable (put_rest st s) i)
  unfolding enable due shares_from line_of
  enable-Paid st s e =
      let p : OsInstance = record (st.instances i) { is_enabled = true } in
      record {
        sum = e ∙ ap (λ x. A.held st.rest + x) (sym (due-enable A i (put_rest st s)));
        local_virt = ap (λ x. x.local_virt_shm) (put_os_self st i p);
        remote_virt = ap (λ x. x.remote_virt_shm) (put_os_self st i p);
      }

  start_irq-Paid :
      (st : OsState S) → (start_irq K st i cfg).0 ≡ ok → Paid A i st (start_irq K st i cfg).1
  unfolding start_irq due line_of
  start_irq-Paid st good =
      elim (Bool-cases (shares_from st i (st.instances i).irq_num 0 max_instances)) [
        | inl e ↦ rw e (enable-Paid st st.rest (rw e (omega arith)))
        | inr e ↦ elim (Option-cases (st.instances i).irq_num) [
          | inl x ↦ rw (start_irq, e, x) (enable-Paid st st.rest (rw (due, e, x) (omega arith)))
          | inr (n, x) ↦ elim (Bool-cases (is_ok (K.request_irq st.rest n).0)) [
            | inl fine ↦
                rw (start_irq, e, x, fine)
                  (enable-Paid st (K.request_irq st.rest n).1
                    (rw (due, e, x) (rw fine at (A.request_line st.rest n))))
            | inr bad ↦ absurd (not_ok _ bad (rw (start_irq, e, x, bad) at good))
          ]
        ]
      ]

  irq_number-held : (s : S) → A.held (get_irq_number K s i).2 ≡ A.held s
  unfolding get_irq_number
  irq_number-held s =
      let f = K.of_find_compatible_node s in
      elim (ℕ_discrete f.0 null) [
        | yes e ↦ rw (==_of_eq _ _ e) (A.find s)
        | no ne ↦ rw (==_false _ _ ne) (A.put f.1 f.0 ∙ A.find s)
      ]

  store_irq-virt :
      (st : OsState S) (found : Option (Option ℕ))
      → (((store_irq st i found).instances i).local_virt_shm ≡ (st.instances i).local_virt_shm)
        × (((store_irq st i found).instances i).remote_virt_shm ≡ (st.instances i).remote_virt_shm)
  unfolding store_irq
  store_irq-virt st none = (refl, refl)
  store_irq-virt st (some num) = (ground arith, ground arith)

  -- the interrupt is stored first
  stored-Paid :
      (st : OsState S) (found : Option (Option ℕ)) (s : S)
      → A.held s ≡ A.held st.rest
      → (start_irq K (put_rest (store_irq st i found) s) i cfg).0 ≡ ok
      → Paid A i st (start_irq K (put_rest (store_irq st i found) s) i cfg).1
  stored-Paid st found s e good =
      let u = start_irq-Paid (put_rest (store_irq st i found) s) good in
      let v = store_irq-virt st found in
      record {
        sum =
            u.sum
            ∙ ap (λ x. x + due A i (start_irq K (put_rest (store_irq st i found) s) i cfg).1) e;
        local_virt = u.local_virt ∙ v.0;
        remote_virt = u.remote_virt ∙ v.1;
      }

  pub choose_irq-Paid :
      (st : OsState S) (rx : Option ℕ)
      → (choose_irq K st i cfg rx).0 ≡ ok
      → Paid A i st (choose_irq K st i cfg rx).1
  unfolding choose_irq store_irq
  choose_irq-Paid st none good = stored-Paid st (some none) st.rest refl good
  choose_irq-Paid st (some _) good =
      let r = get_irq_number K st.rest i in
      elim (Bool-cases (is_ok r.0)) [
        | inr bad ↦ absurd (not_ok _ bad (rw (choose_irq, bad) at good))
        | inl fine ↦
            rw (choose_irq, fine)
              (stored-Paid st r.1 r.2 (irq_number-held st.rest) (rw (choose_irq, fine) at good))
      ]
