-- ===== src/LockFreeQueue/Threads/Family.antt =====
-- One value for each thread: change at one thread, and sums over the first threads.
use cmdtran.Common.{ℕ, zero, suc, ◌+◌, ◌≤◌, ◌<◌, ◌≡◌, refl, arith, ◌==◌, if◌then◌else◌, dec_lt}

module _ {ℓ} {A : Type ℓ} where
  abbrev pub assign : (ℕ → A) → ℕ → A → ℕ → A
  assign f i a j = if i == j then a else f j

  module _ (weight : A → ℕ) where
    pub sum_below : ℕ → (ℕ → A) → ℕ
    sum_below zero f = 0
    sum_below (suc n) f = weight (f n) + sum_below n f

    sum_below-assign_ge :
        (n : ℕ) (f : ℕ → A) (i : ℕ) (a : A) → n ≤ i → sum_below n (assign f i a) ≡ sum_below n f
    unfolding sum_below
    sum_below-assign_ge zero f i a h = refl
    sum_below-assign_ge (suc n) f i a h = ground (arith, sum_below-assign_ge n f i a)

    -- The sum follows the change at one thread.
    pub sum_below-assign :
        (n : ℕ) (f : ℕ → A) (i : ℕ) (a : A)
        → i < n
        → sum_below n (assign f i a) + weight (f i) ≡ sum_below n f + weight a
    unfolding sum_below
    sum_below-assign zero f i a h = absurd (omega arith)
    sum_below-assign (suc n) f i a h = elim (dec_lt i n) [
      | yes below ↦ ground (arith, sum_below-assign n f i a below)
      | no last ↦ ground (arith, sum_below-assign_ge n f i a)
    ]

    pub sum_below-zero : (n : ℕ) (f : ℕ → A) → ((i : ℕ) → weight (f i) ≡ 0) → sum_below n f ≡ 0
    unfolding sum_below
    sum_below-zero zero f h = refl
    sum_below-zero (suc n) f h = omega (arith, h n, sum_below-zero n f h)

    -- One thread weighs at most as much as all.
    pub weight-le-sum : (n : ℕ) (f : ℕ → A) (i : ℕ) → i < n → weight (f i) ≤ sum_below n f
    unfolding sum_below
    weight-le-sum zero f i h = absurd (omega arith)
    weight-le-sum (suc n) f i h = elim (dec_lt i n) [
      | yes below ↦ omega (arith, weight-le-sum n f i below)
      | no last ↦ ground arith
    ]

    pub sum_below-le : ((a : A) → weight a ≤ 1) → (n : ℕ) (f : ℕ → A) → sum_below n f ≤ n
    unfolding sum_below
    sum_below-le small zero f = omega arith
    sum_below-le small (suc n) f = omega (arith, small (f n), sum_below-le small n f)
