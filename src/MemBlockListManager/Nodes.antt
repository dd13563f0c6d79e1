-- ===== src/MemBlockListManager/Nodes.antt =====
-- A list of `CMemBlockListManager` as the list of its blocks, each with the memory that it holds.
use cmdtran.Common.{
  ℕ, ◌≡◌, ◌≢◌, refl, Bool, true, false, Option, none, some, List, [], ◌∷◌, ◌==◌, ◌||◌, arith,
  if◌then◌else◌,
}
use cmdtran.MemBlockListManager.{MemBlock, MemBlockListManager, put, init, holds}

abbrev pub Nodes : Type 0
Nodes = List (ℕ × Option ℕ)

abbrev pub first : Nodes → Option ℕ
first [] = none
first ((a, b) ∷ xs) = some a

abbrev pub last_of : ℕ → Nodes → ℕ
last_of a [] = a
last_of a ((c, b) ∷ xs) = last_of c xs

abbrev pub last : Nodes → Option ℕ
last [] = none
last ((a, b) ∷ xs) = some (last_of a xs)

abbrev pub has : ℕ → Nodes → Bool
has p [] = false
has p ((a, b) ∷ xs) = (p == a) || has p xs

abbrev pub Distinct : Nodes → Type 0
Distinct [] = Unit
Distinct ((a, b) ∷ xs) = (has a xs ≡ false) × Distinct xs

abbrev pub Linked : (ℕ → Option MemBlock) → Nodes → Type 0
Linked heap [] = Unit
Linked heap ((a, b) ∷ xs) = (heap a ≡ some (record { next = first xs; block = b })) × Linked heap xs

pub record IsList (m : MemBlockListManager) (xs : Nodes) : Type 0 where
  pub linked : Linked m.heap xs
  pub distinct : Distinct xs
  pub head : m.list_head ≡ first xs
  pub trail : m.list_trail ≡ last xs

pub init-IsList : (heap : ℕ → Option MemBlock) → IsList (init heap) []
unfolding init
init-IsList heap = record { linked = tt; distinct = tt; head = refl; trail = refl }

-- The first block with an address, and the blocks without it.
abbrev pub find : ℕ → Nodes → Option ℕ
find addr [] = none
find addr ((a, b) ∷ xs) = if holds b addr then some a else find addr xs

abbrev pub remove : ℕ → Nodes → Nodes
remove addr [] = []
remove addr ((a, b) ∷ xs) = if holds b addr then xs else (a, b) ∷ remove addr xs

-- A change of the heap outside of the blocks.
pub Linked-frame :
    (g h : ℕ → Option MemBlock) (xs : Nodes)
    → ((p : ℕ) → has p xs ≡ true → g p ≡ h p)
    → Linked h xs
    → Linked g xs
Linked-frame g h [] same l = tt
Linked-frame g h ((a, b) ∷ xs) same l =
    (ground (arith, same a), Linked-frame g h xs (λ p i. same p (ground arith)) l.1)

pub Linked-put :
    (heap : ℕ → Option MemBlock) (a : ℕ) (b : MemBlock) (xs : Nodes)
    → has a xs ≡ false
    → Linked heap xs
    → Linked (put heap a b) xs
Linked-put heap a b [] out l = tt
Linked-put heap a b ((c, d) ∷ xs) out l = (ground arith, Linked-put heap a b xs (ground arith) l.1)

pub has-last_of :
    (a c : ℕ) (b : Option ℕ) (xs : Nodes) → has a ((c, b) ∷ xs) ≡ false → last_of c xs ≢ a
has-last_of a c b [] out = ground arith
has-last_of a c b ((d, e) ∷ xs) out = has-last_of a d e xs (ground arith)

-- A pointer that is none of the blocks.
pub has-ne :
    (p a : ℕ) (b : Option ℕ) (xs : Nodes)
    → has p ((a, b) ∷ xs) ≡ false
    → (a ≢ p) × (p ≢ a) × (has p xs ≡ false)
has-ne p a b xs out = ground arith

pub put_self : (heap : ℕ → Option MemBlock) (a : ℕ) (b : MemBlock) → put heap a b a ≡ some b
put_self heap a b = ground arith

pub put_ne : (heap : ℕ → Option MemBlock) (a p : ℕ) (b : MemBlock) → p ≢ a → put heap a b p ≡ heap p
put_ne heap a p b ne = ground arith
