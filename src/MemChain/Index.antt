-- ===== src/MemChain/Index.antt =====
-- `GetIndex`, `DeleteAt(0)` and `Pop` of `CMemChain`.
use cmdtran.Common.{
  ℕ, zero, suc, ◌≡◌, refl, Option, none, some, List, [], ◌∷◌, length, if◌then◌else◌, ne→==, eq→==,
  arith, Bool, true, ◌∙◌, ap, drop,
}
use cmdtran.Common.Int.{pos, pred_ℤ}
use cmdtran.MemChain.{
  MemNode, MemChain, put, walk, get_index, delete_only, seek, unlink, unlink_at, delete_behind,
  delete_from, delete_at, pop, read_node, read_head, same, release,
}
use cmdtran.MemChain.Queue.{pred_suc}
use cmdtran.MemChain.Linked.{
  first, last_of, Linked, Rising, IsChain, put_self, put_ne, Rising-le, put-below, last_of-bounds,
}

walk_lem :
    (heap : ℕ → Option MemNode) (xs : List (ℕ × MemNode)) (i : ℕ)
    → Linked heap xs
    → walk heap i (first xs) ≡ some (first (drop i xs))
unfolding walk
walk_lem heap xs zero l = refl
walk_lem heap [] (suc i) l = refl
walk_lem heap ((a, n) ∷ xs) (suc i) l = rw (l.0) (walk_lem heap xs i l.1)

-- `GetIndex` of a chain at an index that is not negative does not fault: it gives the node at the
-- index, or NULL past the end.
pub get_index_lem :
    (c : MemChain) (xs : List (ℕ × MemNode)) (i : ℕ)
    → IsChain c xs
    → get_index (pos i) c ≡ some (first (drop i xs))
unfolding get_index
get_index_lem c xs i v = rw (v.head) (walk_lem c.heap xs i v.linked)

pop-read :
    (c c' : MemChain) (a : ℕ) (done : Bool) (n : Option MemNode)
    → c.chain_head ≡ some a
    → delete_at (pos 0) c ≡ some (done, c')
    → c'.heap a ≡ n
    → pop c ≡ read_node n c'
unfolding pop read_head
pop-read c c' a done n head deleted found =
    ap (λ (h : Option ℕ). read_head h (delete_at (pos 0) c)) head
    ∙ ap (read_head (some a)) deleted
    ∙ ap (λ (n : Option MemNode). read_node n c') found

-- The chain of which `DeleteAt(0)` has deleted the second node `b`.
abbrev without_second : MemChain → ℕ → ℕ → MemNode → List (ℕ × MemNode) → MemChain
without_second c a b n xs = record c {
  chain_end = if same (some b) (some (last_of b xs)) then some a else some (last_of b xs);
  heap = release (put c.heap a (some (record n { next = first xs }))) b;
  size = pred_ℤ c.size;
}

-- The end of that chain.
end_without :
    (a b high : ℕ) (m : MemNode) (xs : List (ℕ × MemNode))
    → Rising (suc a) high ((b, m) ∷ xs)
    → (if same (some b) (some (last_of b xs)) then some a else some (last_of b xs))
      ≡ some (last_of a xs)
end_without a b high m [] r = rw (eq→== b b refl) refl
end_without a b high m ((d, k) ∷ xs) r =
    rw
      (ne→== b (last_of d xs)
        (λ e. absurd (omega (arith, r.2.0, (last_of-bounds (suc b) high d k xs r.2).0))))
      refl

second_deleted :
    (c : MemChain) (a b : ℕ) (n m : MemNode) (xs : List (ℕ × MemNode))
    → IsChain c ((a, n) ∷ (b, m) ∷ xs)
    → delete_at (pos 0) c ≡ some (true, without_second c a b n xs)
unfolding delete_at delete_from delete_behind seek unlink_at unlink
second_deleted c a b n m xs v =
    let others = last_of-bounds (suc a) c.unused b m xs v.rising.2 in
    rw
      (
        v.head,
        v.end,
        ne→== a (last_of b xs) (λ e. absurd (omega (arith, others.0, v.rising.2.0))),
        v.linked.0,
        v.linked.1.0,
        v.linked.0,
      )
      refl

-- In a chain of two nodes or more `DeleteAt(0)` deletes the second node and leaves the head in the
-- chain, and `Pop` returns the head and leaves the same chain.
pub delete_at-second :
    (c : MemChain) (a b : ℕ) (n m : MemNode) (xs : List (ℕ × MemNode))
    → IsChain c ((a, n) ∷ (b, m) ∷ xs)
    → (c' : MemChain) × (delete_at (pos 0) c ≡ some (true, c'))
      × (c'.heap b ≡ none)
      × IsChain c' ((a, n) ∷ xs)
      × (pop c ≡ some (record n { next = first xs }, c'))
unfolding read_node
delete_at-second c a b n m xs v =
    let c' = without_second c a b n xs in
    let heap' = put c.heap a (some (record n { next = first xs })) in
    let front : c'.heap a ≡ some (record n { next = first xs }) =
      put_ne heap' b a none (λ e. absurd (omega (arith, v.rising.2.0))) ∙ put_self c.heap a _ in
    (
      c',
      second_deleted c a b n m xs v,
      put_self heap' b none,
      record {
        linked = (
          front,
          put-below heap' b (suc b) c.unused none xs (omega arith) v.rising.2.2 (
              put-below c.heap a (suc b) c.unused _ xs (omega (arith, v.rising.2.0)) v.rising.2.2
                v.linked.1.1),
        );
        rising = (
          omega arith,
          v.rising.1,
          Rising-le (suc b) (suc a) c.unused c.unused xs (omega (arith, v.rising.2.0)) (omega arith)
              v.rising.2.2,
        );
        head = v.head;
        end = end_without a b c.unused m xs v.rising.2;
        size = ap pred_ℤ v.size ∙ pred_suc (suc (length xs));
      },
      pop-read c c' a true _ v.head (second_deleted c a b n m xs v) front,
    )

-- `Pop` of a chain with one node reads that node after it was deleted.
pub pop-only : (c : MemChain) (a : ℕ) (n : MemNode) → IsChain c ((a, n) ∷ []) → pop c ≡ none
unfolding delete_at delete_from delete_only read_node
pop-only c a n v =
    let deleted : delete_at (pos 0) c ≡ some (true, delete_only a c) =
      rw (v.head, v.end, eq→== a a refl) refl in
    pop-read c (delete_only a c) a true none v.head deleted (put_self c.heap a none)
