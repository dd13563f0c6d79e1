-- ===== src/MemChain/Destroy.antt =====
-- The destructor of `CMemChain`.
use cmdtran.Common.{
  ℕ, zero, suc, ◌<◌, ◌≡◌, refl, Option, none, some, List, [], ◌∷◌, length, arith, All, inl, inr,
  Bool-cases, ◌==◌,
}
use cmdtran.MemChain.{MemNode, MemChain, release, destroy}
use cmdtran.MemChain.Linked.{first, Linked, Rising, IsChain, put_self, put-below}

release-none : (heap : ℕ → Option MemNode) (a b : ℕ) → heap b ≡ none → release heap a b ≡ none
release-none heap a b e = elim (Bool-cases (b == a)) [ inl s ↦ rw s refl | inr s ↦ rw s e ]

destroy_from :
    (fuel low high : ℕ) (xs : List (ℕ × MemNode)) (heap : ℕ → Option MemNode)
    → length xs < fuel
    → Rising low high xs
    → Linked heap xs
    → (heap' : ℕ → Option MemNode) × (destroy fuel (first xs) heap ≡ some heap')
      × All (λ x. heap' x.0 ≡ none) xs
      × ((b : ℕ) → heap b ≡ none → heap' b ≡ none)
unfolding destroy
destroy_from zero low high xs heap h r l = absurd (omega arith)
destroy_from (suc fuel) low high [] heap h r l = (heap, refl, tt, λ b e. e)
destroy_from (suc fuel) low high ((a, n) ∷ xs) heap h r l =
    let (heap', ends, gone, stay) =
      destroy_from fuel (suc a) high xs (release heap a) (omega arith) r.2
        (put-below heap a (suc a) high none xs (omega arith) r.2 l.1) in
    (
      heap',
      rw (l.0) ends,
      (stay a (put_self heap a none), gone),
      λ b e. stay b (release-none heap a b e),
    )

-- The destructor of a chain in order, with more fuel than the chain has nodes, ends without a
-- fault, and all nodes of the chain are deleted.
pub destroy_lem :
    (fuel : ℕ) (c : MemChain) (xs : List (ℕ × MemNode))
    → IsChain c xs
    → length xs < fuel
    → (heap' : ℕ → Option MemNode) × (destroy fuel c.chain_head c.heap ≡ some heap')
      × All (λ x. heap' x.0 ≡ none) xs
destroy_lem fuel c xs v h =
    let (heap', ends, gone, _) = destroy_from fuel 0 c.unused xs c.heap h v.rising v.linked in
    (heap', rw (v.head) ends, gone)
