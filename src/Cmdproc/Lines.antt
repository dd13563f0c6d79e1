-- ===== src/Cmdproc/Lines.antt =====
-- The lines that `CommandPro` and `Cmdproc::RecvDataProc` make of the output of a command.
use cmdtran.Common.{
  drop, sym, ℕ, zero, suc, ◌-◌, ◌≡◌, ◌≤◌, ◌<◌, refl, ap, ◌∙◌, Bool, true, false, some, List, [],
  ◌∷◌, ◌++◌, ◌==◌, Bool-cases, inl, inr, length, subst, length-append, arith, if◌then◌else◌,
}
use cmdtran.Cmdproc.{Shell, bufflen, newline, c_string, next_line, each_line, command_pro}

-- The bytes of the lines, one line after the other.
abbrev pub joined : List (List ℕ) → List ℕ
joined [] = []
joined (l ∷ ls) = l ++ joined ls

abbrev pub inside : List ℕ → Bool
inside [] = true
inside (c ∷ []) = true
inside (c ∷ d ∷ l) = if c == newline then false else inside (d ∷ l)

abbrev pub ended : List ℕ → Bool
ended [] = false
ended (c ∷ []) = c == newline
ended (c ∷ d ∷ l) = ended (d ∷ l)

-- A line is not empty, has a newline at its end at most, and fits into the buffer.
pub record IsLine (l : List ℕ) : Type 0 where
  filled : 0 < length l
  fits : length l < bufflen
  one : inside l ≡ true

-- Lines, of which each one but the last has a newline or fills the buffer.
abbrev pub IsLines : List (List ℕ) → Type 0
IsLines [] = Unit
IsLines (l ∷ []) = IsLine l
IsLines (l ∷ k ∷ ls) = IsLine l × ((ended l ≡ false → length l ≡ bufflen - 1) × IsLines (k ∷ ls))

next_line-joined : (n : ℕ) (cs : List ℕ) → (next_line n cs).0 ++ (next_line n cs).1 ≡ cs
next_line-joined zero cs = refl
next_line-joined (suc n) [] = refl
next_line-joined (suc n) (c ∷ cs) = ground (arith, next_line-joined n cs)

next_line-length : (n : ℕ) (cs : List ℕ) → length (next_line n cs).0 ≤ n
next_line-length zero cs = omega arith
next_line-length (suc n) [] = omega arith
next_line-length (suc n) (c ∷ cs) = ground (arith, next_line-length n cs)

next_line-inside : (n : ℕ) (cs : List ℕ) → inside (next_line n cs).0 ≡ true
next_line-inside zero cs = refl
next_line-inside (suc n) [] = refl
next_line-inside (suc zero) (c ∷ cs) = ground arith
next_line-inside (suc (suc n)) (c ∷ []) = ground arith
next_line-inside (suc (suc n)) (c ∷ d ∷ cs) = ground (arith, next_line-inside (suc n) (d ∷ cs))

-- What stops a line before the end of the output.
next_line-ended :
    (n : ℕ) (cs : List ℕ)
    → ended (next_line n cs).0 ≡ false
    → 0 < length (next_line n cs).1
    → length (next_line n cs).0 ≡ n
next_line-ended zero cs e h = refl
next_line-ended (suc n) [] e h = absurd (omega arith)
next_line-ended (suc zero) (c ∷ cs) e h = ground arith
next_line-ended (suc (suc n)) (c ∷ []) e h = ground arith
next_line-ended (suc (suc n)) (c ∷ d ∷ cs) e h = ground (arith, next_line-ended (suc n) (d ∷ cs))

first-IsLine : (k : List ℕ) (ls : List (List ℕ)) → IsLines (k ∷ ls) → IsLine k
first-IsLine k [] h = h
first-IsLine k (m ∷ ls) h = h.0

IsLines-cons :
    (l : List ℕ) (ls : List (List ℕ))
    → IsLine l
    → (ended l ≡ false → 0 < length (joined ls) → length l ≡ bufflen - 1)
    → IsLines ls
    → IsLines (l ∷ ls)
IsLines-cons l [] line stop h = line
IsLines-cons l (k ∷ ls) line stop h = (
  line,
  (λ e. stop e (omega (arith, length-append k (joined ls), (first-IsLine k ls h).filled)), h),
)

-- The line that `fgets` makes of output that is not at its end.
next_line-IsLine : (c : ℕ) (cs : List ℕ) → IsLine (next_line (bufflen - 1) (c ∷ cs)).0
next_line-IsLine c cs = record {
  filled = elim (Bool-cases (c == newline)) [
    | inl e ↦ rw e (omega arith)
    | inr e ↦ rw e (omega arith)
  ];
  fits = omega (arith, next_line-length (bufflen - 1) (c ∷ cs));
  one = next_line-inside (bufflen - 1) (c ∷ cs);
}

next_line-shorter :
    (fuel c : ℕ) (cs : List ℕ)
    → length (c ∷ cs) < suc fuel
    → length (next_line (bufflen - 1) (c ∷ cs)).1 < fuel
next_line-shorter fuel c cs h =
    let l = next_line (bufflen - 1) (c ∷ cs) in
    omega (
      arith,
      length-append l.0 l.1,
      ap length (next_line-joined (bufflen - 1) (c ∷ cs)),
      (next_line-IsLine c cs).filled,
    )

-- What the calls of a body for lines make of a state.
abbrev pub runs {ℓ} : {State : Type ℓ} → (List ℕ → State → State) → List (List ℕ) → State → State
runs body [] s = s
runs body (l ∷ ls) s = runs body ls (body (c_string l) s)

cut-zero : (c : ℕ) (cs : List ℕ) → (c == 0) ≡ true → [] ≡ c_string (c ∷ cs)
cut-zero c cs z = rw z refl

kept-byte : (c : ℕ) (cs : List ℕ) → (c == 0) ≡ false → c ∷ c_string cs ≡ c_string (c ∷ cs)
kept-byte c cs n = rw n refl

pub c_string-append :
    (xs ys : List ℕ) → c_string (xs ++ ys) ≡ xs ++ ys → (c_string xs ≡ xs) × (c_string ys ≡ ys)
c_string-append [] ys e = (refl, e)
c_string-append (c ∷ xs) ys e = elim (Bool-cases (c == 0)) [
  | inl z ↦ absurd (omega (arith, ap length (cut-zero c (xs ++ ys) z ∙ e)))
  | inr n ↦
      let (one, others) = c_string-append xs ys (ap (drop 1) (kept-byte c (xs ++ ys) n ∙ e)) in
      (rw n (ap (λ l. c ∷ l) one), others)
]

module _ {ℓ} {State : Type ℓ} (body : List ℕ → State → State) where
  pub each_line_lem :
      (fuel : ℕ) (cs : List ℕ) (s : State)
      → length cs < fuel
      → (ls : List (List ℕ)) × IsLines ls
        × (joined ls ≡ cs)
        × (each_line body fuel cs s ≡ some (runs body ls s))
  unfolding each_line
  each_line_lem zero cs s h = absurd (omega arith)
  each_line_lem (suc fuel) [] s h = ([], tt, refl, refl)
  each_line_lem (suc fuel) (c ∷ cs) s h =
      let l = next_line (bufflen - 1) (c ∷ cs) in
      let (ls, lines, all, done) =
        each_line_lem fuel l.1 (body (c_string l.0) s) (next_line-shorter fuel c cs h) in
      (
        l.0 ∷ ls,
        IsLines-cons l.0 ls (next_line-IsLine c cs)
            (λ e more.
              next_line-ended (bufflen - 1) (c ∷ cs) e (subst (λ r. 0 < length r) all more))
            lines,
        ap (λ r. l.0 ++ r) all ∙ next_line-joined (bufflen - 1) (c ∷ cs),
        done,
      )

-- The calls for lines as they stand in the output.
abbrev pub calls {ℓ} : {State : Type ℓ} → (List ℕ → State → State) → List (List ℕ) → State → State
calls body [] s = s
calls body (l ∷ ls) s = calls body ls (body l s)

-- Lines without a 0 are handed over whole.
runs-calls {ℓ} :
    {State : Type ℓ} (body : List ℕ → State → State) (ls : List (List ℕ)) (s : State)
    → c_string (joined ls) ≡ joined ls
    → runs body ls s ≡ calls body ls s
runs-calls body [] s e = refl
runs-calls body (l ∷ ls) s e =
    let (one, others) = c_string-append l (joined ls) e in
    runs-calls body ls (body (c_string l) s) others ∙ ap (λ k. calls body ls (body k s)) one

module _ {ℓ} {State : Type ℓ} (os : Shell State) where
  -- When the command can be started and its output has no byte 0, and with more fuel than the
  -- output has bytes, `CommandPro` ends and returns 1, and the function was called for the output
  -- cut into lines, each one whole, in order and with nothing lost: each line has one byte or more
  -- and fits into the buffer, has a newline at its end at most, and each one but the last ends
  -- with a newline or fills the buffer.
  pub command_pro_lem :
      (pro_fun : List ℕ → State → State) (fuel : ℕ) (command output : List ℕ) (s : State)
      → (os.popen command s).0 ≡ some output
      → c_string output ≡ output
      → length output < fuel
      → (ls : List (List ℕ)) × IsLines ls
        × (joined ls ≡ output)
        × (command_pro os pro_fun fuel command s
            ≡ some (1, os.pclose (calls pro_fun ls (os.popen command s).1)))
  unfolding command_pro
  command_pro_lem pro_fun fuel command output s opened text enough =
      let (ls, lines, all, done) =
        each_line_lem pro_fun fuel output (os.popen command s).1 enough in
      (
        ls,
        lines,
        all,
        rw (command_pro, opened, done)
            (ap (λ r. some (1, os.pclose r))
              (runs-calls pro_fun ls (os.popen command s).1 (ap c_string all ∙ text ∙ sym all))),
      )
