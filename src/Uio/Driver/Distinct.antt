-- ===== src/Uio/Driver/Distinct.antt =====
-- Tables of interrupts in which no two instances have the same.
use ipc_shm.Common.{
  ℕ, zero, suc, ◌+◌, ◌≤◌, ◌<◌, ◌≡◌, ◌≢◌, refl, sym, ap, ◌∙◌, arith, true, false, Option, none, some,
  ltb, update, update_ne, Bool-cases, inl, inr, ==_of_eq,
}
use native.Mathlib.Decide.{ℕ_discrete}
use ipc_shm.Types.{max_instances}
use ipc_shm.Os.Setup.{is_same_num}
use ipc_shm.Uio.Driver.{Driver, irq_taken, cleared}

-- No interrupt belongs to two instances.
unfoldable pub Distinct : (ℕ → Option ℕ) → Type 0
Distinct nums =
    (i j n : ℕ) → i < max_instances → j < max_instances → nums i ≡ some n → nums j ≡ some n → i ≡ j

not_taken :
    (nums : ℕ → Option ℕ) (n k rounds : ℕ)
    → irq_taken nums n k rounds ≡ false
    → (j : ℕ) → k ≤ j
    → j < k + rounds
    → nums j ≢ some n
unfolding irq_taken
not_taken nums n k zero free j from to = absurd (omega arith)
not_taken nums n k (suc rounds) free j from to = elim (Bool-cases (is_same_num (some n) (nums k))) [
  | inl e ↦ absurd (cc (rw e at free))
  | inr e ↦ elim (ℕ_discrete k j) [
    | yes same ↦ λ x. absurd (cc (rw (ap nums same ∙ x, ==_of_eq n n refl) at e))
    | no ne ↦ not_taken nums n (k + 1) rounds (rw e at free) j (omega arith) (omega arith)
  ]
]

-- The other instances still have theirs.
other_irq :
    (nums : ℕ → Option ℕ) (num : Option ℕ) (i j m : ℕ)
    → i ≢ j
    → update nums i num j ≡ some m
    → nums j ≡ some m
other_irq nums num i j m ne e = sym (update_ne nums i j num ne) ∙ e

own_irq :
    (nums : ℕ → Option ℕ) (num : Option ℕ) (i j m : ℕ)
    → i ≡ j
    → update nums i num j ≡ some m
    → num ≡ some m
own_irq nums num i j m same e = rw (==_of_eq i j same) at e

pub given-Distinct :
    (nums : ℕ → Option ℕ) (i n : ℕ)
    → irq_taken nums n 0 max_instances ≡ false
    → Distinct nums
    → Distinct (update nums i (some n))
unfolding Distinct
given-Distinct nums i n free v j k m lj lk ej ek =
    let fresh = λ (h : ℕ) (lt : h < max_instances).
      not_taken nums n 0 max_instances free h (omega arith) (omega arith) in
    elim (ℕ_discrete i j) [
      | yes p ↦ elim (ℕ_discrete i k) [
        | yes q ↦ omega arith
        | no q ↦ absurd (
            fresh k lk
              (other_irq nums (some n) i k m q ek ∙ sym (own_irq nums (some n) i j m p ej)))
      ]
      | no p ↦ elim (ℕ_discrete i k) [
        | yes q ↦ absurd (
            fresh j lj
              (other_irq nums (some n) i j m p ej ∙ sym (own_irq nums (some n) i k m q ek)))
        | no q ↦
            v j k m lj lk (other_irq nums (some n) i j m p ej) (other_irq nums (some n) i k m q ek)
      ]
    ]

pub dropped-Distinct : (nums : ℕ → Option ℕ) (i : ℕ) → Distinct nums → Distinct (update nums i none)
unfolding Distinct
dropped-Distinct nums i v j k m lj lk ej ek = elim (ℕ_discrete i j) [
  | yes p ↦ absurd (cc (own_irq nums none i j m p ej))
  | no p ↦ elim (ℕ_discrete i k) [
    | yes q ↦ absurd (cc (own_irq nums none i k m q ek))
    | no q ↦ v j k m lj lk (other_irq nums none i j m p ej) (other_irq nums none i k m q ek)
  ]
]

pub cleared-Distinct : {S : Type 0} (d : Driver S) → Distinct (cleared d).irq_num_init
unfolding Distinct
cleared-Distinct d i j n li lj ei ej =
    let below : ltb i max_instances ≡ true = ground arith in absurd (cc (rw below at ei))

pub taken_one :
    (nums : ℕ → Option ℕ) (n i k rounds : ℕ)
    → k ≤ i
    → i < k + rounds
    → nums i ≡ some n
    → irq_taken nums n k rounds ≡ true
unfolding irq_taken
taken_one nums n i k zero from to e = absurd (omega arith)
taken_one nums n i k (suc rounds) from to e = elim (ℕ_discrete k i) [
  | yes same ↦ rw (same, e, ==_of_eq n n refl) refl
  | no ne ↦ elim (Bool-cases (is_same_num (some n) (nums k))) [
    | inl x ↦ rw x refl
    | inr x ↦ rw x (taken_one nums n i (k + 1) rounds (omega arith) (omega arith) e)
  ]
]

same_num : (n : ℕ) (num : Option ℕ) → is_same_num (some n) num ≡ true → num ≡ some n
same_num n none e = absurd (cc e)
same_num n (some k) e = ap some (ground arith)

pub none_taken :
    (nums : ℕ → Option ℕ) (n k rounds : ℕ)
    → ((h : ℕ) → h < k + rounds → nums h ≢ some n)
    → irq_taken nums n k rounds ≡ false
unfolding irq_taken
none_taken nums n k zero free = refl
none_taken nums n k (suc rounds) free = elim (Bool-cases (is_same_num (some n) (nums k))) [
  | inl e ↦ absurd (free k (omega arith) (same_num n (nums k) e))
  | inr e ↦ rw e (none_taken nums n (k + 1) rounds (λ h lt. free h (omega arith)))
]
