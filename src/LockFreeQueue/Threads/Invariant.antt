-- ===== src/LockFreeQueue/Threads/Invariant.antt =====
-- What holds of the shared words, the cells and the local variables in every order of the accesses,
-- as long as the counters have not wrapped.
use cmdtran.Common.{ℕ, ◌+◌, ◌-◌, ◌^◌, ◌≤◌, ◌<◌, ◌≡◌, Option, none, some, length, get_elem?, take}
use cmdtran.LockFreeQueue.{queue_len, u32, count_to_index}
use cmdtran.LockFreeQueue.Threads.{
  Pc, push_test, push_reserve, push_store, push_commit, push_count, pop_test, pop_load, pop_take,
  pop_count, Memory,
}
use cmdtran.LockFreeQueue.Threads.Family.{sum_below}

-- With fewer pushes than this no counter wraps, and no compare-and-swap is deceived by a counter
-- that came back to its value.
abbrev pub count_limit : ℕ
count_limit = 2 ^ 32 - 1

module _ {A : Type 0} where
  -- The place that a thread has reserved and not yet given to the readers.
  abbrev pub place : Pc A → Option ℕ
  place (push_store x w) = some w
  place (push_commit w) = some w
  place _ = none

  -- Threads that have given their element to the readers and not yet counted it, and threads that
  -- have taken one and not yet counted it off.
  abbrev pub to_add : Pc A → ℕ
  to_add push_count = 1
  to_add _ = 0

  abbrev pub to_sub : Pc A → ℕ
  to_sub (pop_count x) = 1
  to_sub _ = 0

  abbrev pub IsFresh : Memory A → Pc A → Type 0
  IsFresh m (push_test x w) = (w ≤ m.queue.write_index)
  IsFresh m (push_reserve x w) =
      (w ≤ m.queue.write_index) × (w ≡ m.queue.write_index → w + 2 ≤ m.queue.read_index + queue_len)
  IsFresh m (push_store x w) =
      (m.queue.maximum_read_index ≤ w)
      × (w < m.queue.write_index)
      × (get_elem? m.reserved w ≡ some x)
  IsFresh m (push_commit w) =
      (m.queue.maximum_read_index ≤ w)
      × (w < m.queue.write_index)
      × (get_elem? m.reserved w ≡ some (m.queue.cells (count_to_index w)))
  IsFresh m (pop_test r) = (r ≤ m.queue.read_index)
  IsFresh m (pop_load r) =
      (r ≤ m.queue.read_index) × (r ≡ m.queue.read_index → r < m.queue.maximum_read_index)
  IsFresh m (pop_take r x) =
      (r ≤ m.queue.read_index)
      × (r ≡ m.queue.read_index
          → (r < m.queue.maximum_read_index) × (get_elem? m.reserved r ≡ some x))
  IsFresh m _ = Unit

  pub record Inv (n : ℕ) (m : Memory A) (pc : ℕ → Pc A) : Type 0 where
    pub few : length m.reserved < count_limit
    pub write : m.queue.write_index ≡ length m.reserved
    pub read : m.queue.read_index ≡ length m.taken
    pub available : m.queue.read_index ≤ m.queue.maximum_read_index
    pub reached : m.queue.maximum_read_index ≤ m.queue.write_index
    pub room : m.queue.write_index + 1 ≤ m.queue.read_index + queue_len
    pub word : m.queue.size < 2 ^ 32
    pub counted :
        u32 (m.queue.size + sum_below to_add n pc + m.queue.read_index)
        ≡ u32 (m.queue.maximum_read_index + sum_below to_sub n pc)
    pub order : m.taken ≡ take m.queue.read_index m.reserved
    pub written :
        (k : ℕ)
        → m.queue.read_index ≤ k
        → k < m.queue.maximum_read_index
        → get_elem? m.reserved k ≡ some (m.queue.cells (count_to_index k))
    pub fresh : (i : ℕ) → IsFresh m (pc i)
    pub unique : (i j k : ℕ) → place (pc i) ≡ some k → place (pc j) ≡ some k → i ≡ j
    pub covered :
        (k : ℕ)
        → m.queue.maximum_read_index ≤ k
        → k < m.queue.write_index
        → (i : ℕ) × (place (pc i) ≡ some k)
