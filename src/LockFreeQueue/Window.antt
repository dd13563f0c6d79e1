-- ===== src/LockFreeQueue/Window.antt =====
-- The cells of `CLockFreeQueue` between two counters, also across the point where the counters
-- wrap.
use cmdtran.Common.{
  ℕ, zero, suc, ◌+◌, ◌^◌, ◌<◌, ◌≡◌, ◌≢◌, refl, ap, ap₂, List, [], ◌∷◌, ◌++◌, arith, length,
}
use cmdtran.LockFreeQueue.{u32, count_to_index, write_cell}

abbrev pub safe_len : ℕ
safe_len = 2 ^ 24

-- Two counts at a distance below `safe_len` have different cells.
pub index-ne :
    (r d : ℕ) → r < 2 ^ 32 → 0 < d → d < safe_len → count_to_index (u32 (r + d)) ≢ count_to_index r
index-ne r d h p k = omega arith

module _ {ℓ} {A : Type ℓ} where
  -- The `n` elements from a counter on.
  abbrev pub window : (ℕ → A) → ℕ → ℕ → List A
  window cells r zero = []
  window cells r (suc n) = cells (count_to_index r) ∷ window cells (u32 (r + 1)) n

  pub length-window : (cells : ℕ → A) (r n : ℕ) → length (window cells r n) ≡ n
  length-window cells r zero = refl
  length-window cells r (suc n) = ap suc (length-window cells (u32 (r + 1)) n)

  pub write_cell_self : (cells : ℕ → A) (i j : ℕ) (x : A) → i ≡ j → write_cell cells i x j ≡ x
  write_cell_self cells i j x e = ground arith

  write_cell_ne : (cells : ℕ → A) (i j : ℕ) (x : A) → i ≢ j → write_cell cells i x j ≡ cells j
  write_cell_ne cells i j x e = ground arith

  -- A write to the cell behind a stretch makes it longer by that element.
  pub window-write :
      (cells : ℕ → A) (x : A) (n r w : ℕ)
      → r < 2 ^ 32
      → n < safe_len
      → w ≡ u32 (r + n)
      → window (write_cell cells (count_to_index w) x) r (suc n) ≡ window cells r n ++ x ∷ []
  window-write cells x zero r w h k e =
      ap (λ (a : A). a ∷ [])
        (write_cell_self cells (count_to_index w) (count_to_index r) x (omega arith))
  window-write cells x (suc n) r w h k e =
      ap₂ ◌∷◌
        (write_cell_ne cells (count_to_index w) (count_to_index r) x
          (rw e (index-ne r (suc n) h (omega arith) (omega arith))))
        (window-write cells x n (u32 (r + 1)) w (omega arith) (omega arith) (omega arith))
