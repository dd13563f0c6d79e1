-- ===== src/MemBlockListManager/Delete.antt =====
-- `DeletBlockWithAddr` against the list of the blocks.
use cmdtran.Common.{
  ℕ, zero, suc, ◌<◌, ◌≤◌, ◌≡◌, refl, sym, false, Option, none, some, [], ◌∷◌, arith, if◌then◌else◌,
  ◌∙◌, length, Bool-cases, eq→==, ne→==, inl, inr,
}
use cmdtran.MemBlockListManager.{
  MemBlock, MemBlockListManager, put, holds, same, close_up, delete_loop, delete_block_with_addr,
}
use cmdtran.MemBlockListManager.Nodes.{
  Nodes, first, last, last_of, has, Distinct, Linked, IsList, Linked-put, has-ne, put_self, put_ne,
  has-last_of, find, remove,
}

-- What the loop from the block `f` leaves: the others behind `f`, linked, and all else as it was.
record Left (addr f : ℕ) (b : Option ℕ) (xs : Nodes) (heap : ℕ → Option MemBlock)
    (r : Option (ℕ × Option ℕ × (ℕ → Option MemBlock))) : Type 0 where
  front : ℕ
  heap' : ℕ → Option MemBlock
  returned : r ≡ some (front, find addr xs, heap')
  linked : Linked heap' ((f, b) ∷ remove addr xs)
  apart : (p : ℕ) → has p ((f, b) ∷ xs) ≡ false → heap' p ≡ heap p
  trail :
      (if same (find addr xs) (some (last_of f xs)) then some front else some (last_of f xs))
      ≡ some (last_of f (remove addr xs))

-- The block behind `f` is taken out: if it was the last one, `f` is.
cut-trail :
    (f t : ℕ) (c : Option ℕ) (xs : Nodes)
    → Distinct ((t, c) ∷ xs)
    → (if same (some t) (some (last_of t xs)) then some f else some (last_of t xs))
      ≡ some (last_of f xs)
cut-trail f t c [] d = rw (eq→== t t refl) refl
cut-trail f t c ((e, g) ∷ xs) d =
    rw (ne→== t (last_of e xs) (λ s. has-last_of t e g xs d.0 (sym s))) refl

delete_loop_lem :
    (fuel addr f : ℕ) (b : Option ℕ) (xs : Nodes) (heap : ℕ → Option MemBlock)
    → length xs < fuel
    → Linked heap ((f, b) ∷ xs)
    → Distinct ((f, b) ∷ xs)
    → Left addr f b xs heap (delete_loop fuel addr f (first xs) heap)
unfolding delete_loop
delete_loop_lem zero addr f b xs heap h l d = absurd (omega arith)
delete_loop_lem (suc fuel) addr f b [] heap h l d = record {
  front = f;
  heap' = heap;
  returned = refl;
  linked = l;
  apart = λ p o. refl;
  trail = refl;
}
delete_loop_lem (suc fuel) addr f b ((t, c) ∷ xs) heap h l d = elim (Bool-cases (holds c addr)) [
  | inl found ↦ record {
    front = f;
    heap' = put heap f (record { next = first xs; block = b });
    returned = rw (l.1.0, found, l.0) refl;
    linked = rw found (
      put_self heap f (record { next = first xs; block = b }),
      Linked-put heap f (record { next = first xs; block = b }) xs (has-ne f t c xs d.0).2 l.1.1,
    );
    apart = λ p o.
        put_ne heap f p (record { next = first xs; block = b }) (has-ne p f b ((t, c) ∷ xs) o).1;
    trail = rw found (cut-trail f t c xs d.1);
  }
  | inr other ↦
      let r = delete_loop_lem fuel addr t c xs heap (omega arith) l.1 d.1 in
      record {
        front = r.front;
        heap' = r.heap';
        returned = rw (l.1.0, other) (r.returned);
        linked = rw other (r.apart f d.0 ∙ l.0, r.linked);
        apart = λ p o. r.apart p (ground arith);
        trail = rw other r.trail;
      }
]

has-remove : (p addr : ℕ) (xs : Nodes) → has p xs ≡ false → has p (remove addr xs) ≡ false
has-remove p addr [] out = refl
has-remove p addr ((a, b) ∷ xs) out = ground (arith, has-remove p addr xs)

Distinct-remove : (addr : ℕ) (xs : Nodes) → Distinct xs → Distinct (remove addr xs)
Distinct-remove addr [] d = tt
Distinct-remove addr ((a, b) ∷ xs) d =
    ground (arith, has-remove a addr xs, Distinct-remove addr xs d.1)

-- The first block is taken out: if it was the only one, the list ends nowhere.
cut-head :
    (f : ℕ) (b : Option ℕ) (xs : Nodes)
    → Distinct ((f, b) ∷ xs)
    → (if same (some f) (some (last_of f xs)) then none else some (last_of f xs)) ≡ last xs
cut-head f b [] d = rw (eq→== f f refl) refl
cut-head f b ((e, g) ∷ xs) d =
    rw (ne→== f (last_of e xs) (λ s. has-last_of f e g xs d.0 (sym s))) refl

-- `DeletBlockWithAddr` of an address that is not NULL, on a list in order and with fuel for its
-- blocks, returns the first block with that memory, or NULL if there is none, and leaves the list
-- in order without that block.
pub delete_block_with_addr_lem :
    (fuel addr : ℕ) (m : MemBlockListManager) (xs : Nodes)
    → IsList m xs
    → length xs ≤ fuel
    → (m' : MemBlockListManager) × (delete_block_with_addr fuel (some addr) m
        ≡ some (find addr xs, m'))
      × IsList m' (remove addr xs)
unfolding delete_block_with_addr
delete_block_with_addr_lem fuel addr m [] is h = (m, rw is.head refl, is)
delete_block_with_addr_lem fuel addr m ((f, b) ∷ xs) is h = elim (Bool-cases (holds b addr)) [
  | inl found ↦ (
    (close_up none (some f) (record m { list_head = first xs })).1,
    rw (is.head, is.linked.0, found) refl,
    rw found (record {
      linked = is.linked.1;
      distinct = is.distinct.1;
      head = refl;
      trail = rw is.trail (cut-head f b xs is.distinct);
    }),
  )
  | inr other ↦
      let r = delete_loop_lem fuel addr f b xs m.heap (omega arith) is.linked is.distinct in
      (
        (close_up (some r.front) (find addr xs) (record m { heap = r.heap' })).1,
        rw (is.head, is.linked.0, other, r.returned) refl,
        rw other (record {
          linked = r.linked;
          distinct = (has-remove f addr xs is.distinct.0, Distinct-remove addr xs is.distinct.1);
          head = is.head;
          trail = rw is.trail r.trail;
        }),
      )
]
