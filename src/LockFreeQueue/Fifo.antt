-- ===== src/LockFreeQueue/Fifo.antt =====
-- `Push` and `Pop` of `CLockFreeQueue` against the list of the elements that wait, oldest first.
use cmdtran.Common.{
  ℕ, suc, ◌+◌, ◌-◌, ◌^◌, ◌<◌, ◌≡◌, ◌≢◌, refl, ap, ◌∙◌, List, [], ◌∷◌, ◌++◌, arith, length, ne→==,
  eq→==, true, none, some,
}
use cmdtran.LockFreeQueue.{
  LockFreeQueue, queue_len, u32, count_to_index, write_cell, init, push, pop,
}
use cmdtran.LockFreeQueue.Window.{safe_len, window, length-window, window-write, write_cell_self}

-- Between two calls every cell below the write index is filled.
pub record IsValid {ℓ} {A : Type ℓ} (q : LockFreeQueue A) : Type 0 where
  pub read_word : q.read_index < 2 ^ 32
  pub write : q.write_index ≡ u32 (q.read_index + q.size)
  pub filled : q.maximum_read_index ≡ q.write_index
  pub small : q.size < safe_len

module _ {ℓ} {A : Type ℓ} where
  -- Oldest first.
  abbrev pub contents : LockFreeQueue A → List A
  contents q = window q.cells q.read_index q.size

  pub length-contents : (q : LockFreeQueue A) → length (contents q) ≡ q.size
  length-contents q = length-window q.cells q.read_index q.size

  pub init-IsValid : (garbage : ℕ → A) → IsValid (init garbage) × (contents (init garbage) ≡ [])
  unfolding init
  init-IsValid garbage = (omega arith, refl)

  abbrev pushed : A → LockFreeQueue A → LockFreeQueue A
  pushed x q = record q {
    cells = write_cell q.cells (count_to_index q.write_index) x;
    write_index = u32 (q.write_index + 1);
    maximum_read_index = u32 (q.write_index + 1);
    size = u32 (q.size + 1);
  }

  push-pushed :
      (x : A) (q : LockFreeQueue A)
      → count_to_index (u32 (q.write_index + 1)) ≢ count_to_index q.read_index
      → push x q ≡ (true, pushed x q)
  unfolding push
  push-pushed x q h = rw (ne→== _ _ h)

  contents-pushed :
      (x : A) (q : LockFreeQueue A)
      → IsValid q
      → q.size + 1 < safe_len
      → contents (pushed x q) ≡ contents q ++ x ∷ []
  contents-pushed x q v h =
      let more : u32 (q.size + 1) ≡ suc q.size = omega arith in
      ap (window (pushed x q).cells q.read_index) more
      ∙ window-write q.cells x q.size q.read_index q.write_index v.read_word v.small v.write

  -- `Push` to a valid queue that stays below the safe length succeeds, puts the element at the
  -- end, adds one to the size, and keeps the queue valid.
  pub push_lem :
      (x : A) (q : LockFreeQueue A)
      → IsValid q
      → q.size + 1 < safe_len
      → ((push x q).0 ≡ true)
        × (contents (push x q).1 ≡ contents q ++ x ∷ [])
        × ((push x q).1.size ≡ q.size + 1)
        × IsValid (push x q).1
  push_lem x q v h =
      rw (push-pushed x q (omega arith)) (refl, contents-pushed x q v h, omega arith, omega arith)

  -- `Pop` fails on the empty queue, and changes nothing then.
  pub pop-empty : (q : LockFreeQueue A) → IsValid q → q.size ≡ 0 → pop q ≡ (none, q)
  unfolding pop
  pop-empty q v e =
      let same : count_to_index q.read_index ≡ count_to_index q.maximum_read_index = omega arith in
      rw (eq→== _ _ same)

  abbrev popped : LockFreeQueue A → LockFreeQueue A
  popped q = record q { read_index = u32 (q.read_index + 1); size = u32 (q.size + 2 ^ 32 - 1) }

  pop-popped :
      (q : LockFreeQueue A)
      → IsValid q
      → 0 < q.size
      → pop q ≡ (some (q.cells (count_to_index q.read_index)), popped q)
  unfolding pop
  pop-popped q v h =
      let other : count_to_index q.read_index ≢ count_to_index q.maximum_read_index = omega arith in
      rw (ne→== _ _ other)

  contents-popped :
      (q : LockFreeQueue A) (n : ℕ)
      → q.size ≡ suc n
      → IsValid q
      → contents q ≡ q.cells (count_to_index q.read_index) ∷ contents (popped q)
  contents-popped q n e v = let less : u32 (suc n + 2 ^ 32 - 1) ≡ n = omega arith in rw (e, less)

  -- `Pop` of a valid queue that is not empty takes the oldest element, takes one off the size, and
  -- keeps the queue valid.
  pub pop_lem :
      (q : LockFreeQueue A)
      → IsValid q
      → 0 < q.size
      → (x : A) × ((pop q).0 ≡ some x)
        × (contents q ≡ x ∷ contents (pop q).1)
        × ((pop q).1.size + 1 ≡ q.size)
        × IsValid (pop q).1
  pop_lem q v h = rw (pop-popped q v h) (
    q.cells (count_to_index q.read_index),
    refl,
    contents-popped q (q.size - 1) (omega arith) v,
    omega arith,
    omega arith,
  )

  -- With the write index at 0 after a wrap, and a number of elements above the safe length and
  -- below the length of the ring, `Push` succeeds, leaves the read index, and writes into the cell
  -- of an element that waits to be read.
  pub push_overwrites :
      (x : A) (q : LockFreeQueue A)
      → q.write_index ≡ 0
      → q.read_index + q.size ≡ 2 ^ 32
      → safe_len < q.size
      → q.size < queue_len
      → ((push x q).0 ≡ true)
        × ((push x q).1.read_index ≡ q.read_index)
        × ((push x q).1.cells (count_to_index (q.read_index + (q.size - safe_len))) ≡ x)
  push_overwrites x q w r big small = rw (push-pushed x q (omega arith)) (
    refl,
    refl,
    write_cell_self q.cells (count_to_index q.write_index)
        (count_to_index (q.read_index + (q.size - safe_len))) x (omega arith),
  )
