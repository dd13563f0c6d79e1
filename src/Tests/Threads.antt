-- ===== src/Tests/Threads.antt =====
-- Two threads at one queue, in chosen orders of their accesses.
use cmdtran.Common.{
  ℕ, ◌+◌, ◌-◌, ◌^◌, ◌≤◌, ◌<◌, ◌≡◌, ◌≢◌, refl, true, false, Bool, Option, none, some, List, [], ◌∷◌,
  ◌++◌, arith, dec_lt, length, ◌⊎◌,
}
use mathlib.Core.List.{foldl}
use cmdtran.LockFreeQueue.{queue_len, count_to_index, is_empty}
use cmdtran.LockFreeQueue.Fifo.{contents}
use cmdtran.LockFreeQueue.Threads.{
  push_begin, push_store, push_commit, pushed, pop_begin, popped, System, Reach, start, later,
  call_push, call_pop, go_on, moved, access, init_system, rests,
}
use cmdtran.LockFreeQueue.Threads.Invariant.{place, to_sub}
use cmdtran.LockFreeQueue.Threads.Reached.{
  reach-fifo, reach-store_apart, reach-progress, reach-size_wraps,
}
use cmdtran.LockFreeQueue.Threads.Quiet.{reach-quiet}
use cmdtran.LockFreeQueue.Threads.Spurious.{During, push-spurious}
use cmdtran.LockFreeQueue.Threads.{Step, moved}

data Turn : Type 0 where
  begin_push : ℕ → ℕ → Turn
  begin_pop : ℕ → Turn
  next : ℕ → Turn

abbrev no_cells : ℕ → ℕ
no_cells i = 0

record Run : Type 0 where
  last : System ℕ
  reach : Reach 2 no_cells last

-- A call by a thread that is inside of one, or by a third thread, is passed over.
call : (r : Run) (i : ℕ) → i < 2 → Option ℕ → (free : Bool) → rests (r.last.pc i) ≡ free → Run
call r i few (some x) true rest = record {
  last = moved r.last i (r.last.memory, push_begin x);
  reach = later r.reach (call_push i x few rest);
}
call r i few none true rest = record {
  last = moved r.last i (r.last.memory, pop_begin);
  reach = later r.reach (call_pop i few rest);
}
call r i few o false busy = r

turn : Run → Turn → Run
unfolding dec_lt call
turn r (begin_push i x) = elim (dec_lt i 2) [
  | yes few ↦ call r i few (some x) (rests (r.last.pc i)) refl
  | no _ ↦ r
]
turn r (begin_pop i) = elim (dec_lt i 2) [
  | yes few ↦ call r i few none (rests (r.last.pc i)) refl
  | no _ ↦ r
]
turn r (next i) = elim (dec_lt i 2) [
  | yes few ↦ record {
    last = moved r.last i (access (r.last.pc i) r.last.memory);
    reach = later r.reach (go_on i few);
  }
  | no _ ↦ r
]

unfoldable run : List Turn → Run
unfolding turn
run = foldl turn (record { last = init_system no_cells; reach = start })

abbrev all_of_push : ℕ → ℕ → List Turn
all_of_push i x = begin_push i x ∷ next i ∷ next i ∷ next i ∷ next i ∷ next i ∷ next i ∷ []

abbrev all_of_pop : ℕ → List Turn
all_of_pop i = begin_pop i ∷ next i ∷ next i ∷ next i ∷ next i ∷ next i ∷ []

-- Thread 0 has a place, and thread 1 one behind it that is written already.
abbrev overtaken : Run
overtaken = run (
    begin_push 0 7
    ∷ next 0
    ∷ next 0
    ∷ next 0
    ∷ begin_push 1 8
    ∷ next 1
    ∷ next 1
    ∷ next 1
    ∷ next 1
    ∷ next 1
    ∷ [])

overtaken_places : (overtaken.last.pc 0 ≡ push_store 7 0) × (overtaken.last.pc 1 ≡ push_commit 1)
unfolding run init_system access
overtaken_places = (refl, refl)

reach-fifo_example :
    (rest : List ℕ) × (overtaken.last.memory.reserved ≡ overtaken.last.memory.taken ++ rest)
    × (length rest + 1 ≤ queue_len)
unfolding run init_system access
reach-fifo_example = reach-fifo overtaken.reach (omega arith)

reach-store_apart_example :
    ((k : ℕ)
      → overtaken.last.memory.queue.read_index ≤ k
      → k < overtaken.last.memory.queue.maximum_read_index
      → count_to_index 0 ≢ count_to_index k)
    × ((j k : ℕ)
        → j ≢ 0
        → place (overtaken.last.pc j) ≡ some k
        → count_to_index 0 ≢ count_to_index k)
unfolding run init_system access
reach-store_apart_example = reach-store_apart {w = 0} {x = 7} overtaken.reach (omega arith) 0 refl

reach-progress_example :
    (j : ℕ) × (((x : ℕ) × (overtaken.last.pc j
          ≡ push_store x overtaken.last.memory.queue.maximum_read_index))
      ⊎ (overtaken.last.pc j ≡ push_commit overtaken.last.memory.queue.maximum_read_index))
unfolding run init_system access
reach-progress_example = reach-progress {w = 1} overtaken.reach (omega arith) 1 refl

-- Thread 1 has popped what thread 0 has pushed and not counted yet.
abbrev uncounted : Run
uncounted = run (begin_push 0 7 ∷ next 0 ∷ next 0 ∷ next 0 ∷ next 0 ∷ next 0 ∷ all_of_pop 1)

uncounted_quiet : (j : ℕ) → to_sub (uncounted.last.pc j) ≡ 0
unfolding run init_system access
uncounted_quiet j = ground arith

uncounted_size :
    (uncounted.last.pc 1 ≡ popped (some 7)) × (uncounted.last.memory.queue.size ≡ 2 ^ 32 - 1)
unfolding run init_system access
uncounted_size = (refl, refl)

reach-size_wraps_example :
    (2 ^ 32 ≤ uncounted.last.memory.queue.size + 2) × (is_empty uncounted.last.memory.queue ≡ false)
unfolding run init_system access
reach-size_wraps_example =
    reach-size_wraps uncounted.reach (omega arith) (omega arith) refl uncounted_quiet 0
      (omega arith) refl

-- Two elements pushed by two threads, one of them popped.
abbrev both : Run
both = run (all_of_push 0 7 ++ all_of_push 1 8 ++ all_of_pop 0)

both_rest : (j : ℕ) → rests (both.last.pc j) ≡ true
unfolding run init_system access
both_rest j = ground arith

reach-quiet_example :
    (both.last.memory.reserved ≡ both.last.memory.taken ++ contents both.last.memory.queue)
    × (both.last.memory.queue.size + length both.last.memory.taken
        ≡ length both.last.memory.reserved)
unfolding run init_system access
reach-quiet_example = reach-quiet both.reach (omega arith) both_rest

push-spurious_example :
    let called = moved (init_system no_cells) 0 ((init_system no_cells).memory, push_begin 7) in
    (t u : System ℕ) × Step 2 (init_system no_cells) called
    × During 2 called t
    × Step 2 t u
    × (u.pc 0 ≡ pushed false)
    × (u.memory.queue.read_index ≡ u.memory.queue.write_index)
unfolding init_system
push-spurious_example =
    push-spurious 7 8 (init_system no_cells) start (omega arith) (omega arith) refl refl refl refl
