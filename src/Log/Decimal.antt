-- ===== src/Log/Decimal.antt =====
-- The digits that `%d` and `%02d` write: how many there are, and what they say.
use cmdtran.Common.{
  ℕ, zero, suc, ◌+◌, ◌-◌, ◌*◌, ◌/◌, ◌%◌, ◌^◌, ◌≡◌, ◌≤◌, ◌<◌, refl, Bool-cases, inl, inr, List, [],
  ◌∷◌, ◌++◌, ltb, ltb→lt, lt→ltb, length, length-append, arith,
}
use cmdtran.Common.Int.{pos, negsuc}
use cmdtran.Log.{decimal_digits, decimal, two_digits, int_2_string}

decimal_digits-length : (fuel k n : ℕ) → n < 10 ^ suc k → length (decimal_digits fuel n) ≤ suc k
unfolding decimal_digits
decimal_digits-length zero k n h = omega arith
decimal_digits-length (suc fuel) zero n h = rw (lt→ltb n 10 (omega arith)) (omega arith)
decimal_digits-length (suc fuel) (suc k) n h = elim (Bool-cases (ltb n 10)) [
  | inl e ↦ rw e (omega arith)
  | inr e ↦
      rw (e, length-append (decimal_digits fuel (n / 10)) ((b'0' + n % 10) ∷ []))
        (omega (arith, decimal_digits-length fuel k (n / 10) (omega arith)))
]

pub decimal-length : (k n : ℕ) → n < 10 ^ suc k → length (decimal n) ≤ suc k
unfolding decimal
decimal-length k n h = decimal_digits-length 10 k n h

pub two_digits-length : (k n : ℕ) → n < 10 ^ suc (suc k) → length (two_digits n) ≤ suc (suc k)
unfolding two_digits
two_digits-length k n h = elim (Bool-cases (ltb n 10)) [
  | inl e ↦ rw e (omega (arith, decimal-length 0 n (ltb→lt n 10 e)))
  | inr e ↦ rw e (decimal-length (suc k) n h)
]

-- The number that digits stand for, behind one that was read before.
abbrev pub value : ℕ → List ℕ → ℕ
value acc [] = acc
value acc (c ∷ cs) = value (acc * 10 + (c - b'0')) cs

value-append : (acc : ℕ) (xs ys : List ℕ) → value acc (xs ++ ys) ≡ value (value acc xs) ys
value-append acc [] ys = refl
value-append acc (c ∷ xs) ys = value-append (acc * 10 + (c - b'0')) xs ys

decimal_digits-value : (fuel n : ℕ) → n < 10 ^ suc fuel → value 0 (decimal_digits (suc fuel) n) ≡ n
unfolding decimal_digits
decimal_digits-value zero n h = rw (lt→ltb n 10 (omega arith)) (omega arith)
decimal_digits-value (suc fuel) n h = elim (Bool-cases (ltb n 10)) [
  | inl e ↦ rw e (omega (arith, ltb→lt n 10 e))
  | inr e ↦
      rw (e, value-append 0 (decimal_digits (suc fuel) (n / 10)) ((b'0' + n % 10) ∷ []))
        (omega (arith, decimal_digits-value fuel (n / 10) (omega arith)))
]

pub decimal-value : (n : ℕ) → n < 10 ^ 10 → value 0 (decimal n) ≡ n
unfolding decimal
decimal-value n h = decimal_digits-value 9 n h

-- The text of an `int` says its value, and fits into the 16 bytes with the final 0.
pub int_2_string_lem :
    (n : ℕ)
    → n < 2 ^ 31
    → (value 0 (int_2_string (pos n)) ≡ n)
      × (length (int_2_string (pos n)) < 16)
      × ((cs : List ℕ) × (int_2_string (negsuc n) ≡ b'-' ∷ cs)
          × (value 0 cs ≡ suc n)
          × (suc (length cs) < 16))
unfolding int_2_string
int_2_string_lem n h = (
  decimal-value n (omega arith),
  omega (arith, decimal-length 9 n (omega arith)),
  (
    decimal (suc n),
    refl,
    decimal-value (suc n) (omega arith),
    omega (arith, decimal-length 9 (suc n) (omega arith)),
  ),
)
