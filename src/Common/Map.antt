-- ===== src/Common/Map.antt =====
-- `std::map` with numbers for keys, as the list of its entries in the order of the keys.
use Prim.Native.Nat.{ℕ, ◌≤◌, ◌<◌}
use mathlib.Core.Path.{◌≡◌, refl}
use mathlib.Core.Logic.{◌≢◌}
use mathlib.Core.Option.{Option, none, some}
use mathlib.Core.List.{List, [], ◌∷◌}
use native.Mathlib.Omega.{arith}
use cmdtran.Common.Tests.{ltb, ◌==◌, if◌then◌else◌}

module _ {ℓ} {V : Type ℓ} where
  unfoldable pub find : ℕ → List (ℕ × V) → Option V
  find k [] = none
  find k ((j, v) ∷ m) = if j == k then some v else find k m

  -- `insert` leaves an entry that is there already as it is.
  unfoldable pub insert : ℕ → V → List (ℕ × V) → List (ℕ × V)
  insert k v [] = (k, v) ∷ []
  insert k v ((j, w) ∷ m) =
      if j == k then (j, w) ∷ m else if ltb k j then (k, v) ∷ (j, w) ∷ m else (j, w) ∷ insert k v m

  unfoldable pub erase : ℕ → List (ℕ × V) → List (ℕ × V)
  erase k [] = []
  erase k ((j, w) ∷ m) = if j == k then m else (j, w) ∷ erase k m

  -- A change through the iterator of a key.
  unfoldable pub update : ℕ → (V → V) → List (ℕ × V) → List (ℕ × V)
  update k f [] = []
  update k f ((j, w) ∷ m) = if j == k then (j, f w) ∷ m else (j, w) ∷ update k f m

  -- All keys of the list are above `k`.
  abbrev pub Above : ℕ → List (ℕ × V) → Type 0
  Above k [] = Unit
  Above k ((j, w) ∷ m) = (k < j) × Above j m

  -- The keys stand in their order.
  abbrev pub IsSorted : List (ℕ × V) → Type 0
  IsSorted [] = Unit
  IsSorted ((j, w) ∷ m) = Above j m

  pub Above-le : (k j : ℕ) (m : List (ℕ × V)) → k ≤ j → Above j m → Above k m
  Above-le k j [] h a = tt
  Above-le k j ((i, w) ∷ m) h a = (omega arith, a.1)

  pub Above-IsSorted : (k : ℕ) (m : List (ℕ × V)) → Above k m → IsSorted m
  Above-IsSorted k [] a = tt
  Above-IsSorted k ((j, w) ∷ m) a = a.1

  pub find-Above : (k j : ℕ) (m : List (ℕ × V)) → k ≤ j → Above j m → find k m ≡ none
  unfolding find
  find-Above k j [] h a = refl
  find-Above k j ((i, w) ∷ m) h a = ground (arith, find-Above k i m)

  insert-Above : (i k : ℕ) (v : V) (m : List (ℕ × V)) → i < k → Above i m → Above i (insert k v m)
  unfolding insert
  insert-Above i k v [] h a = (h, tt)
  insert-Above i k v ((j, w) ∷ m) h a = ground (arith, insert-Above j k v m)

  pub insert-IsSorted : (k : ℕ) (v : V) (m : List (ℕ × V)) → IsSorted m → IsSorted (insert k v m)
  unfolding insert
  insert-IsSorted k v [] s = tt
  insert-IsSorted k v ((j, w) ∷ m) s = ground (arith, insert-Above j k v m)

  erase-Above : (i k : ℕ) (m : List (ℕ × V)) → Above i m → Above i (erase k m)
  unfolding erase
  erase-Above i k [] a = tt
  erase-Above i k ((j, w) ∷ m) a = ground (arith, Above-le i j m, erase-Above j k m)

  pub erase-IsSorted : (k : ℕ) (m : List (ℕ × V)) → IsSorted m → IsSorted (erase k m)
  unfolding erase
  erase-IsSorted k [] s = tt
  erase-IsSorted k ((j, w) ∷ m) s = ground (arith, Above-IsSorted j m, erase-Above j k m)

  update-Above : (i k : ℕ) (f : V → V) (m : List (ℕ × V)) → Above i m → Above i (update k f m)
  unfolding update
  update-Above i k f [] a = tt
  update-Above i k f ((j, w) ∷ m) a = ground (arith, update-Above j k f m)

  pub update-IsSorted :
      (k : ℕ) (f : V → V) (m : List (ℕ × V)) → IsSorted m → IsSorted (update k f m)
  unfolding update
  update-IsSorted k f [] s = tt
  update-IsSorted k f ((j, w) ∷ m) s = ground (arith, update-Above j k f m)

  -- A new key is found with its value, and an old one keeps what it had.
  pub find-insert_new :
      (k : ℕ) (v : V) (m : List (ℕ × V))
      → IsSorted m
      → find k m ≡ none
      → find k (insert k v m) ≡ some v
  unfolding find insert
  find-insert_new k v [] s e = ground arith
  find-insert_new k v ((j, w) ∷ m) s e = ground (arith, find-insert_new k v m, Above-IsSorted j m)

  pub find-insert_ne :
      (k i : ℕ) (v : V) (m : List (ℕ × V)) → k ≢ i → find i (insert k v m) ≡ find i m
  unfolding find insert
  find-insert_ne k i v [] h = ground arith
  find-insert_ne k i v ((j, w) ∷ m) h = ground (arith, find-insert_ne k i v m)

  pub find-erase_self : (k : ℕ) (m : List (ℕ × V)) → IsSorted m → find k (erase k m) ≡ none
  unfolding find erase
  find-erase_self k [] s = refl
  find-erase_self k ((j, w) ∷ m) s =
      ground (arith, find-erase_self k m, Above-IsSorted j m, find-Above k j m)

  pub find-erase_ne : (k i : ℕ) (m : List (ℕ × V)) → k ≢ i → find i (erase k m) ≡ find i m
  unfolding find erase
  find-erase_ne k i [] h = refl
  find-erase_ne k i ((j, w) ∷ m) h = ground (arith, find-erase_ne k i m)

  pub find-update_self :
      (k : ℕ) (f : V → V) (m : List (ℕ × V)) (v : V)
      → find k m ≡ some v
      → find k (update k f m) ≡ some (f v)
  unfolding find update
  find-update_self k f [] v e = cc
  find-update_self k f ((j, w) ∷ m) v e = ground (arith, find-update_self k f m v)

  pub find-update_ne :
      (k i : ℕ) (f : V → V) (m : List (ℕ × V)) → k ≢ i → find i (update k f m) ≡ find i m
  unfolding find update
  find-update_ne k i f [] h = refl
  find-update_ne k i f ((j, w) ∷ m) h = ground (arith, find-update_ne k i f m)

  pub find-update-none :
      (k : ℕ) (f : V → V) (m : List (ℕ × V)) → find k m ≡ none → find k (update k f m) ≡ none
  unfolding find update
  find-update-none k f [] e = e
  find-update-none k f ((j, w) ∷ m) e = ground (arith, find-update-none k f m)

  -- A key that is there already is left alone, with all others.
  pub find-insert_old :
      (k : ℕ) (v : V) (m : List (ℕ × V)) (i : ℕ) (w : V)
      → IsSorted m
      → find k m ≡ some w
      → find i (insert k v m) ≡ find i m
  unfolding find insert
  find-insert_old k v [] i w s e = cc
  find-insert_old k v ((j, u) ∷ m) i w s e =
      ground (arith, find-insert_old k v m i w, Above-IsSorted j m, find-Above k j m)
