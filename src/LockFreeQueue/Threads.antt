-- ===== src/LockFreeQueue/Threads.antt =====
-- ComandTran/inc/LockFreeQueue.h: `Push` and `Pop` of `CLockFreeQueue` as any number of threads run
-- them at once, one access of a shared word or cell at a time. The accesses are taken to be
-- sequentially consistent, as the program expects of them.
pub mod Family
pub mod Invariant
pub mod Moves
pub mod Reached
pub mod Quiet
pub mod Alone
pub mod Spurious
use cmdtran.Common.{
  ℕ, ◌+◌, ◌-◌, ◌^◌, ◌<◌, ◌≡◌, Bool, true, false, Option, none, some, List, [], ◌∷◌, ◌++◌, ◌==◌,
  if◌then◌else◌,
}
use cmdtran.LockFreeQueue.{LockFreeQueue, u32, count_to_index, init, write_cell}
use cmdtran.LockFreeQueue.Threads.Family.{assign}

-- Where a thread stands, with the local variables that are live there. The last constructors of the
-- two calls carry what the call returned.
pub data Pc {ℓ} (A : Type ℓ) : Type ℓ where
  idle : Pc A
  push_begin : A → Pc A  -- head of the loop in `Push`
  push_test : A → ℕ → Pc A  -- with `currentWriteIndex`
  push_reserve : A → ℕ → Pc A  -- before the first compare-and-swap
  push_store : A → ℕ → Pc A
  push_commit : ℕ → Pc A  -- the second loop
  push_count : Pc A
  pushed : Bool → Pc A
  pop_begin : Pc A  -- head of the loop in `Pop`
  pop_test : ℕ → Pc A  -- with `currentReadIndex`
  pop_load : ℕ → Pc A
  pop_take : ℕ → A → Pc A  -- before the compare-and-swap, with `data`
  pop_count : A → Pc A
  popped : Option A → Pc A

-- What the threads share. `reserved` and `taken` record the elements in the order of the
-- compare-and-swaps that succeeded; the code does not read them.
pub record Memory {ℓ} (A : Type ℓ) : Type ℓ where
  pub queue : LockFreeQueue A
  pub reserved : List A
  pub taken : List A

module _ {ℓ} {A : Type ℓ} where
  -- One access by a thread inside `Push`.
  unfoldable pub push_access : Pc A → Memory A → Memory A × Pc A
  push_access (push_begin x) m = (m, push_test x m.queue.write_index)
  push_access (push_test x w) m = (
    m,
    if count_to_index (u32 (w + 1)) == count_to_index m.queue.read_index
        then pushed false
        else push_reserve x w,
  )
  push_access (push_reserve x w) m =
      if m.queue.write_index == w
      then (
        record m {
          queue = record m.queue { write_index = u32 (w + 1) };
          reserved = m.reserved ++ x ∷ [];
        },
        push_store x w,
      )
      else (m, push_begin x)
  push_access (push_store x w) m = (
    record m { queue = record m.queue { cells = write_cell m.queue.cells (count_to_index w) x } },
    push_commit w,
  )
  push_access (push_commit w) m =
      if m.queue.maximum_read_index == w
      then (record m { queue = record m.queue { maximum_read_index = u32 (w + 1) } }, push_count)
      else (m, push_commit w)
  push_access push_count m =
      (record m { queue = record m.queue { size = u32 (m.queue.size + 1) } }, pushed true)
  push_access p m = (m, p)

  -- One access by a thread inside `Pop`.
  unfoldable pub pop_access : Pc A → Memory A → Memory A × Pc A
  pop_access pop_begin m = (m, pop_test m.queue.read_index)
  pop_access (pop_test r) m = (
    m,
    if count_to_index r == count_to_index m.queue.maximum_read_index
        then popped none
        else pop_load r,
  )
  pop_access (pop_load r) m = (m, pop_take r (m.queue.cells (count_to_index r)))
  pop_access (pop_take r x) m =
      if m.queue.read_index == r
      then (
        record m { queue = record m.queue { read_index = u32 (r + 1) }; taken = m.taken ++ x ∷ [] },
        pop_count x,
      )
      else (m, pop_begin)
  pop_access (pop_count x) m = (
    record m { queue = record m.queue { size = u32 (m.queue.size + 2 ^ 32 - 1) } },
    popped (some x),
  )
  pop_access p m = (m, p)

  -- A thread outside of the two calls.
  abbrev pub rests : Pc A → Bool
  rests idle = true
  rests (pushed b) = true
  rests (popped o) = true
  rests _ = false

  abbrev pub pushes : Pc A → Bool
  pushes (push_begin x) = true
  pushes (push_test x w) = true
  pushes (push_reserve x w) = true
  pushes (push_store x w) = true
  pushes (push_commit w) = true
  pushes push_count = true
  pushes _ = false

  unfoldable pub access : Pc A → Memory A → Memory A × Pc A
  unfolding push_access pop_access
  access p m = if pushes p then push_access p m else pop_access p m

pub record System {ℓ} (A : Type ℓ) : Type ℓ where
  pub memory : Memory A
  pub pc : ℕ → Pc A

module _ {ℓ} {A : Type ℓ} where
  abbrev pub moved : System A → ℕ → Memory A × Pc A → System A
  moved s i (m, p) = record { memory = m; pc = assign s.pc i p }

  -- One of `n` threads calls `Push` or `Pop`, or goes on inside a call.
  pub data Step (n : ℕ) (s : System A) : System A → Type ℓ where
    call_push :
        (i : ℕ) (x : A)
        → i < n
        → rests (s.pc i) ≡ true
        → Step n s (moved s i (s.memory, push_begin x))
    call_pop : (i : ℕ) → i < n → rests (s.pc i) ≡ true → Step n s (moved s i (s.memory, pop_begin))
    go_on : (i : ℕ) → i < n → Step n s (moved s i (access (s.pc i) s.memory))

  unfoldable pub init_system : (ℕ → A) → System A
  unfolding init
  init_system garbage = record {
    memory = record { queue = init garbage; reserved = []; taken = [] };
    pc = λ i. idle;
  }

  pub data Reach (n : ℕ) (garbage : ℕ → A) : System A → Type ℓ where
    start : Reach n garbage (init_system garbage)
    later : {s t : System A} → Reach n garbage s → Step n s t → Reach n garbage t
