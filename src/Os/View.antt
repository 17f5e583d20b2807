-- ===== src/Os/View.antt =====
-- How the interrupt handlers are seen from outside, and one step of each.
use ipc_shm.Common.{
  ℕ, zero, suc, ◌+◌, ◌≡◌, ◌∙◌, arith, Bool, true, false, ◌&&◌, leb, ltb, ◌==◌, ==_false, none, some,
  Bool-cases, Option-cases, inl, inr, List, [], ◌∷◌, ◌++◌, if◌then◌else◌, update,
}
use native.Mathlib.Decide.{ℕ_discrete}
use ipc_shm.Os.{OsInstance, OsState, Calls, is_served, serve, mask, softirq_budget}

-- How the handlers are seen: the interrupts that are masked and those that are pending, the receptions
-- so far, each with its callback, instance and budget, and how often the tasklet was scheduled. A
-- receive callback leaves the instances of this layer and the masks alone.
pub record View {S : Type 0} (C : Calls S) : Type 0 where
  pub masked : S → ℕ → Bool
  pub pending : S → ℕ → Bool
  pub receptions : S → List (ℕ × ℕ × ℕ)
  pub scheduled : S → ℕ
  pub disabled : (s : S) (i : ℕ) → masked (C.irq_disable s i) ≡ update (masked s) i true
  pub disabled_pending : (s : S) (i : ℕ) → pending (C.irq_disable s i) ≡ pending s
  pub disabled_scheduled : (s : S) (i : ℕ) → scheduled (C.irq_disable s i) ≡ scheduled s
  pub cleared : (s : S) (i : ℕ) → pending (C.irq_clear s i) ≡ update (pending s) i false
  pub cleared_masked : (s : S) (i : ℕ) → masked (C.irq_clear s i) ≡ masked s
  pub cleared_scheduled : (s : S) (i : ℕ) → scheduled (C.irq_clear s i) ≡ scheduled s
  pub enabled : (s : S) (i : ℕ) → masked (C.irq_enable s i) ≡ update (masked s) i false
  pub enabled_receptions : (s : S) (i : ℕ) → receptions (C.irq_enable s i) ≡ receptions s
  pub tasklet : (s : S) → scheduled (C.tasklet_schedule s) ≡ scheduled s + 1
  pub tasklet_masked : (s : S) → masked (C.tasklet_schedule s) ≡ masked s
  pub tasklet_pending : (s : S) → pending (C.tasklet_schedule s) ≡ pending s
  pub tasklet_receptions : (s : S) → receptions (C.tasklet_schedule s) ≡ receptions s
  pub received :
      (st : OsState S) (cb i b : ℕ)
      → receptions (C.rx st cb i b).1.rest ≡ receptions st.rest ++ ((cb, i, b) ∷ [])
  pub received_masked :
      (st : OsState S) (cb i b : ℕ) → masked (C.rx st cb i b).1.rest ≡ masked st.rest
  pub received_instances :
      (st : OsState S) (cb i b : ℕ) → (C.rx st cb i b).1.instances ≡ st.instances

-- An instance that is initialized and does not use polling.
abbrev pub uses_irq : OsInstance → Bool
uses_irq p = elim p.irq_num [ none ↦ false | some _ ↦ p.is_enabled ]

pub is_served-uses_irq : (p : OsInstance) → is_served p ≡ uses_irq p
is_served-uses_irq p = elim (Option-cases p.irq_num) [
  | inl e ↦ rw e (ground arith)
  | inr (n, e) ↦ rw e (ground arith)
]

-- the receptions that are due, of `n` instances from `i` on, each with a budget of 128
unfoldable pub due : (ℕ → OsInstance) → (i n : ℕ) → List (ℕ × ℕ × ℕ)
due f i zero = []
due f i (suc n) =
    let rest = due f (i + 1) n in if uses_irq (f i) then ((f i).rx_cb, i, 128) ∷ rest else rest

-- `after` is `before`, with `b` for each of the `n` instances from `i` on that use interrupts.
abbrev pub SetFor : (ℕ → OsInstance) → (i n : ℕ) → (b : Bool) (before after : ℕ → Bool) → Type 0
SetFor f i n b before after =
    (h : ℕ) → after h ≡ (if leb i h && ltb h (i + n) && uses_irq (f h) then b else before h)

pub set_none :
    (f : ℕ → OsInstance) (i : ℕ) (b : Bool) (before : ℕ → Bool) → SetFor f i 0 b before before
set_none f i b before h = ground arith

pub set_more :
    (f : ℕ → OsInstance) (i n : ℕ) (b : Bool) (before now after : ℕ → Bool)
    → ((h : ℕ) → now h ≡ (if (i == h) && uses_irq (f i) then b else before h))
    → SetFor f (i + 1) n b now after
    → SetFor f i (suc n) b before after
set_more f i n b before now after first rest h = elim (ℕ_discrete i h) [
  | yes e ↦ rw (← e) (ground (arith, rest i, first i))
  | no ne ↦ ground (arith, rest h, first h, ==_false i h ne)
]

module _ {S : Type 0} {C : Calls S} (V : View C) where
  pub serve-receptions :
      (st : OsState S) (i : ℕ)
      → V.receptions (serve C st i).rest
        ≡ V.receptions st.rest ++ (((st.instances i).rx_cb, i, 128) ∷ [])
  unfolding serve
  serve-receptions st i =
      let r = C.rx st (st.instances i).rx_cb i softirq_budget in
      elim (Bool-cases (leb softirq_budget r.0)) [
        | inl e ↦ rw e (V.enabled_receptions _ i ∙ V.tasklet_receptions _ ∙ V.received st _ i _)
        | inr e ↦ rw e (V.enabled_receptions _ i ∙ V.enabled_receptions _ i ∙ V.received st _ i _)
      ]

  pub serve-masked :
      (st : OsState S) (i h : ℕ)
      → V.masked (serve C st i).rest h ≡ (if i == h then false else V.masked st.rest h)
  unfolding serve
  serve-masked st i h =
      let r = C.rx st (st.instances i).rx_cb i softirq_budget in
      let got = V.received_masked st (st.instances i).rx_cb i softirq_budget in
      elim (Bool-cases (leb softirq_budget r.0)) [
        | inl e ↦
            rw (e, V.enabled (C.tasklet_schedule r.1.rest) i, V.tasklet_masked r.1.rest, got)
              (ground arith)
        | inr e ↦
            rw (e, V.enabled (C.irq_enable r.1.rest i) i, V.enabled r.1.rest i, got) (ground arith)
      ]

  pub serve-instances : (st : OsState S) (i : ℕ) → (serve C st i).instances ≡ st.instances
  unfolding serve
  serve-instances st i = V.received_instances st (st.instances i).rx_cb i softirq_budget

  pub mask-View :
      (st : OsState S) (i h : ℕ)
      → (V.masked (mask C st i).rest h ≡ (if i == h then true else V.masked st.rest h))
        × (V.pending (mask C st i).rest h ≡ (if i == h then false else V.pending st.rest h))
        × (V.scheduled (mask C st i).rest ≡ V.scheduled st.rest)
  unfolding mask
  mask-View st i h =
      let s = C.irq_disable st.rest i in
      (
        rw (V.cleared_masked s i, V.disabled st.rest i) (ground arith),
        rw (V.cleared s i, V.disabled_pending st.rest i) (ground arith),
        V.cleared_scheduled s i ∙ V.disabled_scheduled st.rest i,
      )
