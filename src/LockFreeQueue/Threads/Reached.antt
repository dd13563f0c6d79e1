-- ===== src/LockFreeQueue/Threads/Reached.antt =====
-- What holds whenever threads call `Push` and `Pop` at once, in any order of their accesses.
use cmdtran.Common.{
  ℕ, ◌+◌, ◌^◌, ◌≤◌, ◌<◌, ◌≡◌, refl, ap, ◌∙◌, sym, false, some, List, [], ◌∷◌, ◌++◌, length, ◌≢◌,
  length-drop, drop, take-append-drop, arith, length-append, ◌⊎◌, inl, inr,
}
use cmdtran.LockFreeQueue.{queue_len, count_to_index, is_empty}
use cmdtran.LockFreeQueue.Threads.{
  Pc, Memory, System, Step, call_push, call_pop, go_on, Reach, start, later, access, init_system,
  push_reserve, push_store, push_commit, push_count, push_begin, pop_begin,
}
use cmdtran.LockFreeQueue.Threads.Family.{sum_below-zero, sum_below-le, weight-le-sum}
use cmdtran.LockFreeQueue.Threads.Invariant.{count_limit, place, to_add, to_sub, Inv}
use cmdtran.LockFreeQueue.Threads.Moves.{access-Inv, call-Inv}

module _ {A : Type 0} where
  init_system-Inv :
      (n : ℕ) (garbage : ℕ → A) → Inv n (init_system garbage).memory (init_system garbage).pc
  unfolding init_system
  init_system-Inv n garbage = record {
    few = omega arith;
    write = refl;
    read = refl;
    available = omega arith;
    reached = omega arith;
    room = omega arith;
    word = omega arith;
    counted = omega (
      arith,
      sum_below-zero to_add n (λ (_ : ℕ). Pc.idle) (λ _. refl),
      sum_below-zero to_sub n (λ (_ : ℕ). Pc.idle) (λ _. refl),
    );
    order = refl;
    written = λ k l h. absurd (omega arith);
    fresh = λ i. tt;
    unique = λ i j k a b. cc;
    covered = λ k l h. absurd (omega arith);
  }

  -- An access never takes a reservation back.
  access-reserved : (p : Pc A) (m : Memory A) → length m.reserved ≤ length (access p m).0.reserved
  unfolding access
  access-reserved (push_reserve x w) m = ground (arith, length-append m.reserved (x ∷ []))
  access-reserved p m = ground arith

  Step-reserved :
      {n : ℕ} {s t : System A} → Step n s t → length s.memory.reserved ≤ length t.memory.reserved
  Step-reserved (call_push i x h r) = omega arith
  Step-reserved (call_pop i h r) = omega arith
  Step-reserved {s} (go_on i h) = access-reserved (s.pc i) s.memory

  Step-Inv :
      {n : ℕ} {s t : System A}
      → Step n s t
      → length t.memory.reserved < count_limit
      → Inv n s.memory s.pc
      → Inv n t.memory t.pc
  Step-Inv {s} (call_push i x h r) b inv =
      call-Inv inv i (s.pc i) (push_begin x) refl r (inr (x, refl)) h
  Step-Inv {s} (call_pop i h r) b inv = call-Inv inv i (s.pc i) pop_begin refl r (inl refl) h
  Step-Inv (go_on i h) b inv = access-Inv inv i h b

  pub Reach-Inv :
      {n : ℕ} {garbage : ℕ → A} {s : System A}
      → Reach n garbage s
      → length s.memory.reserved < count_limit
      → Inv n s.memory s.pc
  Reach-Inv {n} {garbage} start b = init_system-Inv n garbage
  Reach-Inv (later r st) b = Step-Inv st b (Reach-Inv r (omega (arith, Step-reserved st)))

  -- In every state that any number of threads reach by calls of `Push` and `Pop`, in any order of
  -- their single accesses, as long as fewer than 2 ^ 32 - 1 places were reserved: the elements
  -- taken are the first of those reserved, in the order of their reservations, and fewer than the
  -- length of the ring are reserved and not taken.
  pub reach-fifo :
      {n : ℕ} {garbage : ℕ → A} {s : System A}
      → Reach n garbage s
      → length s.memory.reserved < count_limit
      → (rest : List A) × (s.memory.reserved ≡ s.memory.taken ++ rest)
        × (length rest + 1 ≤ queue_len)
  reach-fifo {s} r b =
      let inv = Reach-Inv r b in
      let all : s.memory.reserved
          ≡ s.memory.taken ++ drop s.memory.queue.read_index s.memory.reserved =
        sym (take-append-drop s.memory.queue.read_index s.memory.reserved)
        ∙ ap (λ (xs : List A). xs ++ drop s.memory.queue.read_index s.memory.reserved)
            (sym inv.order) in
      (
        drop s.memory.queue.read_index s.memory.reserved,
        all,
        omega (arith, inv.room, inv.write, length-drop s.memory.queue.read_index s.memory.reserved),
      )

  -- In every state that threads reach with fewer than 2 ^ 32 - 1 places reserved, the cell that a
  -- thread is about to write is none of the cells between the read index and the maximum read
  -- index, and none that another thread has reserved.
  pub reach-store_apart :
      {n w : ℕ} {x : A} {garbage : ℕ → A} {s : System A}
      → Reach n garbage s
      → length s.memory.reserved < count_limit
      → (i : ℕ) → s.pc i ≡ push_store x w
      → ((k : ℕ)
          → s.memory.queue.read_index ≤ k
          → k < s.memory.queue.maximum_read_index
          → count_to_index w ≢ count_to_index k)
        × ((j k : ℕ) → j ≢ i → place (s.pc j) ≡ some k → count_to_index w ≢ count_to_index k)
  reach-store_apart {w} {s} r b i e =
      let inv = Reach-Inv r b in
      (
        λ k l h. ground (arith, inv.room, inv.fresh i),
        λ j k other h.
            ground (arith, inv.room, inv.fresh i, inv.fresh j, inv.available, inv.unique j i k),
      )

  -- In every state that threads reach with fewer than 2 ^ 32 - 1 places reserved: if a thread
  -- stands at the loop of `Push` that raises the maximum read index, then some thread stands there
  -- or just before it with the place that is next.
  pub reach-progress :
      {n w : ℕ} {garbage : ℕ → A} {s : System A}
      → Reach n garbage s
      → length s.memory.reserved < count_limit
      → (i : ℕ) → s.pc i ≡ push_commit w
      → (j : ℕ) × (((x : A) × (s.pc j ≡ push_store x s.memory.queue.maximum_read_index))
          ⊎ (s.pc j ≡ push_commit s.memory.queue.maximum_read_index))
  reach-progress {s} r b i e =
      let inv = Reach-Inv r b in
      let (j, held) =
        inv.covered s.memory.queue.maximum_read_index (omega arith) (ground (arith, inv.fresh i)) in
      (j, holder (s.pc j) held)
    where
      holder :
          (p : Pc A)
          → place p ≡ some s.memory.queue.maximum_read_index
          → ((x : A) × (p ≡ push_store x s.memory.queue.maximum_read_index))
            ⊎ (p ≡ push_commit s.memory.queue.maximum_read_index)
      holder (push_store x k) h = inl (x, ground arith)
      holder (push_commit k) h = inr (ground arith)
      holder p h = cc

  -- In every state that threads, fewer than 2 ^ 32, reach with fewer than 2 ^ 32 - 1 places
  -- reserved: if all that was given to the readers is taken, a thread has given an element and not
  -- counted it yet, and no thread has one to count off, then the size is at least 2 ^ 32 less the
  -- number of the threads, and `IsEmpty` is false.
  pub reach-size_wraps :
      {n : ℕ} {garbage : ℕ → A} {s : System A}
      → Reach n garbage s
      → length s.memory.reserved < count_limit
      → n < 2 ^ 32
      → s.memory.queue.read_index ≡ s.memory.queue.maximum_read_index
      → ((j : ℕ) → to_sub (s.pc j) ≡ 0)
      → (i : ℕ) → i < n
      → s.pc i ≡ push_count
      → (2 ^ 32 ≤ s.memory.queue.size + n) × (is_empty s.memory.queue ≡ false)
  unfolding is_empty
  reach-size_wraps {n} {s} r b few none_left quiet i h e =
      let inv = Reach-Inv r b in
      ground (
        arith,
        inv.counted,
        inv.word,
        sum_below-zero to_sub n s.pc quiet,
        weight-le-sum to_add n s.pc i h,
        sum_below-le to_add (λ p. ground arith) n s.pc,
      )
