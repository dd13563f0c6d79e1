-- ===== src/MemChain/Linked.antt =====
-- A chain of `CMemChain` as the list of its nodes.
use cmdtran.Common.{
  ℕ, suc, ◌≤◌, ◌<◌, ◌≡◌, ◌≢◌, refl, Option, none, some, List, [], ◌∷◌, ◌++◌, length, ne→==, arith,
  ◌∙◌,
}
use cmdtran.Common.Int.{pos}
use cmdtran.MemChain.{MemNode, MemChain, init, put}

-- The pointers to the first and to the last of the nodes.
abbrev pub first : List (ℕ × MemNode) → Option ℕ
first [] = none
first ((a, n) ∷ xs) = some a

abbrev pub last_of : ℕ → List (ℕ × MemNode) → ℕ
last_of a [] = a
last_of a ((b, n) ∷ xs) = last_of b xs

abbrev pub last : List (ℕ × MemNode) → Option ℕ
last [] = none
last ((a, n) ∷ xs) = some (last_of a xs)

-- Each node is in the heap, with a pointer to the one behind it.
abbrev pub Linked : (ℕ → Option MemNode) → List (ℕ × MemNode) → Type 0
Linked heap [] = Unit
Linked heap ((a, n) ∷ xs) = (heap a ≡ some (record n { next = first xs })) × Linked heap xs

-- The addresses rise, from `low` on, and are below `high`.
abbrev pub Rising : ℕ → ℕ → List (ℕ × MemNode) → Type 0
Rising low high [] = Unit
Rising low high ((a, n) ∷ xs) = (low ≤ a) × (a < high) × Rising (suc a) high xs

-- The chain consists of these nodes, older ones first.
pub record IsChain (c : MemChain) (xs : List (ℕ × MemNode)) : Type 0 where
  pub linked : Linked c.heap xs
  pub rising : Rising 0 c.unused xs
  pub head : c.chain_head ≡ first xs
  pub end : c.chain_end ≡ last xs
  pub size : c.size ≡ pos (length xs)

pub init-IsChain : IsChain init []
unfolding init
init-IsChain = record { linked = tt; rising = tt; head = refl; end = refl; size = refl }

pub put_self : (heap : ℕ → Option MemNode) (a : ℕ) (n : Option MemNode) → put heap a n a ≡ n
put_self heap a n = ground arith

pub put_ne :
    (heap : ℕ → Option MemNode) (a b : ℕ) (n : Option MemNode) → b ≢ a → put heap a n b ≡ heap b
put_ne heap a b n h = rw (ne→== b a h) refl

pub Rising-le :
    (low low' high high' : ℕ) (xs : List (ℕ × MemNode))
    → low' ≤ low
    → high ≤ high'
    → Rising low high xs
    → Rising low' high' xs
Rising-le low low' high high' [] l h r = tt
Rising-le low low' high high' ((a, n) ∷ xs) l h r =
    (omega arith, omega arith, Rising-le (suc a) (suc a) high high' xs (omega arith) h r.2)

-- A change of the heap below or above all nodes.
pub put-below :
    (heap : ℕ → Option MemNode) (a low high : ℕ) (m : Option MemNode) (xs : List (ℕ × MemNode))
    → a < low
    → Rising low high xs
    → Linked heap xs
    → Linked (put heap a m) xs
put-below heap a low high m [] h r l = tt
put-below heap a low high m ((b, n) ∷ xs) h r l = (
  put_ne heap a b m (λ e. absurd (omega arith)) ∙ l.0,
  put-below heap a (suc b) high m xs (omega arith) r.2 l.1,
)

pub put-above :
    (heap : ℕ → Option MemNode) (a low high : ℕ) (m : Option MemNode) (xs : List (ℕ × MemNode))
    → high ≤ a
    → Rising low high xs
    → Linked heap xs
    → Linked (put heap a m) xs
put-above heap a low high m [] h r l = tt
put-above heap a low high m ((b, n) ∷ xs) h r l = (
  put_ne heap a b m (λ e. absurd (omega arith)) ∙ l.0,
  put-above heap a (suc b) high m xs h r.2 l.1,
)

pub last_of-bounds :
    (low high a : ℕ) (n : MemNode) (xs : List (ℕ × MemNode))
    → Rising low high ((a, n) ∷ xs)
    → (a ≤ last_of a xs) × (last_of a xs < high)
last_of-bounds low high a n [] r = (omega arith, r.1)
last_of-bounds low high a n ((b, m) ∷ xs) r =
    let (above, below) = last_of-bounds (suc a) high b m xs r.2 in (omega (arith, r.2.0), below)

pub Rising-append :
    (low high a : ℕ) (n : MemNode) (xs : List (ℕ × MemNode))
    → Rising low high xs
    → low ≤ a
    → high ≤ a
    → Rising low (suc a) (xs ++ (a, n) ∷ [])
Rising-append low high a n [] r l h = (l, omega arith, tt)
Rising-append low high a n ((b, m) ∷ xs) r l h =
    (r.0, omega (arith, r.1), Rising-append (suc b) high a n xs r.2 (omega (arith, r.1)) h)

pub last_of-append :
    (a b : ℕ) (n : MemNode) (xs : List (ℕ × MemNode)) → last_of b (xs ++ (a, n) ∷ []) ≡ a
last_of-append a b n [] = refl
last_of-append a b n ((c, m) ∷ xs) = last_of-append a c n xs

-- The new node hangs on the last one.
pub append-Linked :
    (heap : ℕ → Option MemNode) (low new : ℕ) (n : MemNode) (a : ℕ) (m : MemNode)
    (xs : List (ℕ × MemNode))
    → Rising low new ((a, m) ∷ xs)
    → Linked heap ((a, m) ∷ xs)
    → heap new ≡ some (record n { next = none })
    → (k : MemNode) × (heap (last_of a xs) ≡ some k)
      × Linked
          (put heap (last_of a xs) (some (record k { next = some new })))
          (((a, m) ∷ xs) ++ (new, n) ∷ [])
append-Linked heap low new n a m [] r l e = (
  record m { next = none },
  l.0,
  (put_self heap a _, (put_ne heap a new _ (λ s. absurd (omega (arith, r.1))) ∙ e, tt)),
)
append-Linked heap low new n a m ((b, p) ∷ xs) r l e =
    let (k, found, rest) = append-Linked heap (suc a) new n b p xs r.2 l.1 e in
    (
      k,
      found,
      (
        put_ne heap (last_of b xs) a _
              (λ s. absurd (omega (arith, r.2.0, (last_of-bounds (suc a) new b p xs r.2).0)))
            ∙ l.0,
        rest,
      ),
    )
