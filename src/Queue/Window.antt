-- ===== src/Queue/Window.antt =====
-- Circular arrays of `n` slots: the step to the next index, the distance between two indices, and
-- the elements between them, as the index arithmetic of ipc_queue_push() and ipc_queue_pop() sees
-- them.
use ipc_shm.Common.{
  ℕ, zero, suc, ◌+◌, ◌-◌, ◌%◌, ◌^◌, ◌≤◌, ◌<◌, ◌≡◌, ◌≢◌, refl, ap, ◌∙◌, ==_of_eq, List, [], ◌∷◌,
  ◌++◌, arith, leb, ◌==◌, if◌then◌else◌, update, update_self, update_ne, length,
}
use ipc_shm.Memory.{add_u32}
use mathlib.Core.Path.{ap₂}
use native.Mathlib.Nat.{mod-eq_of_lt, mod_self}
use native.Mathlib.Decide.{ℕ_discrete}

abbrev pub next : ℕ → ℕ → ℕ
next n i = if i + 1 == n then 0 else i + 1

-- how many steps lead from `a` to `b`
abbrev pub dist : ℕ → ℕ → ℕ → ℕ
dist n a b = if leb a b then b - a else n + b - a

-- The code's increment with wrap around is one step.
pub increment : (n i : ℕ) → i < n → n ≤ 2 ^ 16 → add_u32 i 1 % n ≡ next n i
increment n i h small =
    let e : add_u32 i 1 ≡ i + 1 = omega arith in
    rw e (elim (ℕ_discrete (i + 1) n) [
      | yes p ↦ rw (p, ==_of_eq n n refl, mod_self)
      | no p ↦ ground (arith, mod-eq_of_lt {n = i + 1} {m = n} (omega arith))
    ])

pub next-lt : (n i : ℕ) → i < n → next n i < n
next-lt n i h = ground arith

pub dist-lt : (n a b : ℕ) → a < n → b < n → dist n a b < n
dist-lt n a b ha hb = ground arith

pub dist-next_left : (n a b : ℕ) → a < n → b < n → a ≢ b → dist n (next n a) b + 1 ≡ dist n a b
dist-next_left n a b ha hb ne = ground arith

pub dist-next_right :
    (n a b : ℕ) → a < n → b < n → next n b ≢ a → dist n a (next n b) ≡ dist n a b + 1
dist-next_right n a b ha hb ne = ground arith

pub dist-eq-zero : (n a b : ℕ) → a < n → b < n → dist n a b ≡ 0 → a ≡ b
dist-eq-zero n a b ha hb e = ground arith

pub dist_self : (n a : ℕ) → dist n a a ≡ 0
dist_self n a = ground arith

module _ {ℓ} {A : Type ℓ} where
  abbrev pub window : (ℕ → A) → ℕ → ℕ → ℕ → List A
  window slots n h zero = []
  window slots n h (suc k) = slots h ∷ window slots n (next n h) k

  -- the elements from `a` up to `b`
  abbrev pub between : (ℕ → A) → ℕ → ℕ → ℕ → List A
  between slots n a b = window slots n a (dist n a b)

  pub length-window : (slots : ℕ → A) (n h k : ℕ) → length (window slots n h k) ≡ k
  length-window slots n h zero = refl
  length-window slots n h (suc k) = ap suc (length-window slots n (next n h) k)

  -- The slot behind a window extends it.
  pub window_snoc :
      (slots : ℕ → A) (n h w k : ℕ)
      → h < n
      → w < n
      → dist n h w ≡ k
      → window slots n h (suc k) ≡ window slots n h k ++ (slots w ∷ [])
  window_snoc slots n h w zero hh hw e = rw (dist-eq-zero n h w hh hw e)
  window_snoc slots n h w (suc k) hh hw e =
      ap (λ l. slots h ∷ l) (window_snoc slots n (next n h) w k (ground arith) hw (ground arith))

  -- A write outside a window leaves it alone.
  pub window-update_out :
      (slots : ℕ → A) (n : ℕ) (v : A) (h w k : ℕ)
      → h < n
      → w < n
      → k ≤ dist n h w
      → window (update slots w v) n h k ≡ window slots n h k
  window-update_out slots n v h w zero hh hw far = refl
  window-update_out slots n v h w (suc k) hh hw far =
      ap₂ ◌∷◌ (update_ne slots w h v (ground arith))
        (window-update_out slots n v (next n h) w k (ground arith) hw (ground arith))

  pub window-update :
      (slots : ℕ → A) (n : ℕ) (v : A) (h w k : ℕ)
      → h < n
      → w < n
      → dist n h w ≡ k
      → window (update slots w v) n h (suc k) ≡ window slots n h k ++ (v ∷ [])
  window-update slots n v h w k hh hw e =
      window_snoc (update slots w v) n h w k hh hw e
      ∙ rw (update_self slots w v, window-update_out slots n v h w k hh hw (omega arith))

  -- Windows of slots that agree are equal.
  pub window-congr :
      (f g : ℕ → A) (n h k : ℕ) → ((i : ℕ) → f i ≡ g i) → window f n h k ≡ window g n h k
  window-congr f g n h zero same = refl
  window-congr f g n h (suc k) same = ap₂ ◌∷◌ (same h) (window-congr f g n (next n h) k same)
