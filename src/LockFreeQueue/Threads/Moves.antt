-- ===== src/LockFreeQueue/Threads/Moves.antt =====
-- An access by a thread inside `Push` or `Pop` keeps each part of the invariant.
use cmdtran.Common.{
  ℕ, suc, zero, ◌+◌, ◌^◌, ◌≤◌, ◌<◌, ◌≡◌, refl, true, ◌⊎◌, some, List, [], ◌∷◌, ◌++◌, length,
  get_elem?, take, take-append_le, arith, dec_lt, length-append,
}
use cmdtran.LockFreeQueue.{queue_len, u32, count_to_index}
use cmdtran.LockFreeQueue.Threads.{
  Pc, push_begin, push_reserve, push_store, push_commit, pop_begin, pop_load, pop_take, Memory,
  access, rests,
}
use cmdtran.LockFreeQueue.Threads.Family.{assign, sum_below, sum_below-assign}
use cmdtran.LockFreeQueue.Threads.Invariant.{count_limit, place, to_add, to_sub, IsFresh, Inv}

module _ {ℓ} {A : Type ℓ} where
  get_elem?-append :
      (xs ys : List A) (k : ℕ) → k < length xs → get_elem? (xs ++ ys) k ≡ get_elem? xs k
  get_elem?-append [] ys k h = absurd (omega arith)
  get_elem?-append (x ∷ xs) ys zero h = refl
  get_elem?-append (x ∷ xs) ys (suc k) h = get_elem?-append xs ys k (omega arith)

  get_elem?-append_end : (xs : List A) (x : A) → get_elem? (xs ++ x ∷ []) (length xs) ≡ some x
  get_elem?-append_end [] x = refl
  get_elem?-append_end (y ∷ xs) x = get_elem?-append_end xs x

  take-suc :
      (xs : List A) (k : ℕ) {x : A}
      → get_elem? xs k ≡ some x
      → take (suc k) xs ≡ take k xs ++ x ∷ []
  take-suc [] k e = cc
  take-suc (y ∷ xs) zero e = ground arith
  take-suc (y ∷ xs) (suc k) {x} e = ground (arith, take-suc xs k {x = x})

module _ {A : Type 0} {n : ℕ} {m : Memory A} {pc : ℕ → Pc A} (inv : Inv n m pc) (i : ℕ) where
  open inv use {few, write, read, available, reached, room, order, written, fresh, unique, covered}

  access-written :
      (p : Pc A)
      → pc i ≡ p
      → length (access p m).0.reserved < count_limit
      → (k : ℕ) → (access p m).0.queue.read_index ≤ k
      → k < (access p m).0.queue.maximum_read_index
      → get_elem? (access p m).0.reserved k ≡ some ((access p m).0.queue.cells (count_to_index k))
  unfolding access
  access-written (push_reserve x w) e b k l h =
      ground (arith, fresh i, written k, get_elem?-append m.reserved (x ∷ []) k)
  access-written (push_store x w) e b k l h = ground (arith, fresh i, written k)
  access-written (push_commit w) e b k l h = ground (arith, fresh i, written k)
  access-written (pop_take r x) e b k l h = ground (arith, fresh i, written k)
  access-written p e b k l h = ground (arith, fresh i, written k)

  access-words :
      (p : Pc A)
      → pc i ≡ p
      → length (access p m).0.reserved < count_limit
      → let q = (access p m).0.queue in
        (q.write_index ≡ length (access p m).0.reserved)
        × (q.read_index ≡ length (access p m).0.taken)
        × (q.read_index ≤ q.maximum_read_index)
        × (q.maximum_read_index ≤ q.write_index)
        × (q.write_index + 1 ≤ q.read_index + queue_len)
        × (q.size < 2 ^ 32)
  unfolding access
  access-words (push_reserve x w) e b = ground (arith, fresh i, length-append m.reserved (x ∷ []))
  access-words (pop_take r x) e b = ground (arith, fresh i, length-append m.taken (x ∷ []))
  access-words p e b = ground (arith, fresh i)

  access-order :
      (p : Pc A)
      → pc i ≡ p
      → length (access p m).0.reserved < count_limit
      → (access p m).0.taken ≡ take (access p m).0.queue.read_index (access p m).0.reserved
  unfolding access
  access-order (push_reserve x w) e b =
      ground (arith, fresh i, take-append_le m.queue.read_index m.reserved (x ∷ []))
  access-order (pop_take r x) e b = ground (arith, fresh i, take-suc m.reserved r {x = x})
  access-order p e b = ground (arith, fresh i)

  -- What the other threads know stays true when one more place is reserved.
  reserve-IsFresh :
      (x : A) (p : Pc A)
      → IsFresh m p
      → IsFresh
          (record m {
            queue = record m.queue { write_index = m.queue.write_index + 1 };
            reserved = m.reserved ++ x ∷ [];
          })
          p
  reserve-IsFresh x (push_store y w) f = ground (arith, get_elem?-append m.reserved (x ∷ []) w)
  reserve-IsFresh x (push_commit w) f = ground (arith, get_elem?-append m.reserved (x ∷ []) w)
  reserve-IsFresh x (pop_take r y) f = ground (arith, get_elem?-append m.reserved (x ∷ []) r)
  reserve-IsFresh x p f = ground arith

  access-IsFresh :
      (p : Pc A)
      → pc i ≡ p
      → length (access p m).0.reserved < count_limit
      → (j : ℕ) → IsFresh (access p m).0 (assign pc i (access p m).1 j)
  unfolding access
  access-IsFresh (push_reserve x w) e b j = ground (
    arith,
    fresh i,
    fresh j,
    reserve-IsFresh x (pc j) (fresh j),
    get_elem?-append_end m.reserved x,
  )
  access-IsFresh (push_store x w) e b j = ground (arith, fresh i, fresh j, unique i j w)
  access-IsFresh (push_commit w) e b j = ground (arith, fresh i, fresh j, unique i j w)
  access-IsFresh (pop_load r) e b j = ground (arith, fresh i, fresh j, written r)
  access-IsFresh p e b j = ground (arith, fresh i, fresh j)

  access_unique :
      (p : Pc A)
      → pc i ≡ p
      → (j k l : ℕ) → place (assign pc i (access p m).1 j) ≡ some l
      → place (assign pc i (access p m).1 k) ≡ some l
      → j ≡ k
  unfolding access
  access_unique p e j k l a b =
      ground (arith, fresh j, fresh k, unique j k l, unique i k l, unique j i l)

  access-counted :
      (p : Pc A)
      → pc i ≡ p
      → i < n
      → length (access p m).0.reserved < count_limit
      → let q = (access p m).0.queue in
        u32 (q.size + sum_below to_add n (assign pc i (access p m).1) + q.read_index)
        ≡ u32 (q.maximum_read_index + sum_below to_sub n (assign pc i (access p m).1))
  unfolding access
  access-counted p e h b = ground (
    arith,
    fresh i,
    inv.counted,
    sum_below-assign to_add n pc i (access p m).1,
    sum_below-assign to_sub n pc i (access p m).1,
  )

  access-covered :
      (p : Pc A)
      → pc i ≡ p
      → length (access p m).0.reserved < count_limit
      → (k : ℕ) → (access p m).0.queue.maximum_read_index ≤ k
      → k < (access p m).0.queue.write_index
      → (j : ℕ) × (place (assign pc i (access p m).1 j) ≡ some k)
  unfolding access
  access-covered (push_reserve x w) e b k l h = elim (dec_lt k m.queue.write_index) [
    | yes old ↦ let (j, held) = covered k (ground arith) old in (j, ground arith)
    | no new ↦ (i, ground arith)
  ]
  access-covered p e b k l h =
      let (j, held) = covered k (ground (arith)) (ground arith) in (j, ground (arith))

  pub access-Inv :
      i < n
      → length (access (pc i) m).0.reserved < count_limit
      → Inv n (access (pc i) m).0 (assign pc i (access (pc i) m).1)
  access-Inv h b = record {
    few = b;
    write = words.0;
    read = words.1;
    available = words.2;
    reached = words.3;
    room = words.4;
    word = words.5;
    counted = access-counted (pc i) refl h b;
    order = access-order (pc i) refl b;
    written = access-written (pc i) refl b;
    fresh = access-IsFresh (pc i) refl b;
    unique = access_unique (pc i) refl;
    covered = access-covered (pc i) refl b;
  }
    where
      words :
          let q = (access (pc i) m).0.queue in
          (q.write_index ≡ length (access (pc i) m).0.reserved)
          × (q.read_index ≡ length (access (pc i) m).0.taken)
          × (q.read_index ≤ q.maximum_read_index)
          × (q.maximum_read_index ≤ q.write_index)
          × (q.write_index + 1 ≤ q.read_index + queue_len)
          × (q.size < 2 ^ 32)
      words = access-words (pc i) refl b

  -- A call starts without a place and without a count that is due.
  pub call-Inv :
      (p q : Pc A)
      → pc i ≡ p
      → rests p ≡ true
      → (q ≡ pop_begin) ⊎ ((x : A) × (q ≡ push_begin x))
      → i < n
      → Inv n m (assign pc i q)
  call-Inv p q e rest begins h = record {
    few = few;
    write = write;
    read = read;
    available = available;
    reached = reached;
    room = room;
    word = inv.word;
    counted =
        ground
          (arith, inv.counted, sum_below-assign to_add n pc i q, sum_below-assign to_sub n pc i q);
    order = order;
    written = written;
    fresh = λ j. ground (arith, fresh j);
    unique = λ j k l a b. ground (arith, unique j k l);
    covered = λ k l b. let (j, held) = covered k l b in (j, ground arith);
  }
