-- ===== src/ThreadPool/Threads/Live.antt =====
-- The threads of a pool in every state that they reach.
use cmdtran.Common.{
  ℕ, ◌<◌, ◌≡◌, ◌≢◌, refl, sym, ◌∙◌, true, false, ◌⊎◌, inr, none, List, [], ◌∷◌, arith,
}
use mathlib.Core.Option.{some-injective}
use cmdtran.ThreadPool.{ThreadPool, add_task, add_task_batch}
use cmdtran.ThreadPool.Threads.{
  wild, System, Step, thread, add, add_batch, signal_one, signal_none, set_flag, broadcast, Reach,
  start, later, started, is_nil,
}
use cmdtran.ThreadPool.Threads.Awake.{
  has_lock, awake, Inv, thread_step-Inv, added-Inv, signal_one-Inv, signal_none-Inv, set_flag-Inv,
  broadcast-Inv,
}

module _ {T : Type 0} where
  started-Inv : (n : ℕ) (p : ThreadPool T) → 0 < n → p.get_task_cust ≡ none → Inv n (started p)
  unfolding started
  started-Inv n p some_thread plain = record {
    no_choice = plain;
    holder = λ i h. cc;
    fine = λ i. tt;
    lively = λ runs more. inr (0, some_thread, refl);
  }

  add_task_batch-kept :
      (ts : List T) (p : ThreadPool T)
      → ((add_task_batch ts p).running_flag ≡ p.running_flag)
        × ((add_task_batch ts p).get_task_cust ≡ p.get_task_cust)
  unfolding add_task_batch add_task
  add_task_batch-kept [] p = (refl, refl)
  add_task_batch-kept (t ∷ ts) p = add_task_batch-kept ts (add_task t p)

  Step-Inv : {n : ℕ} {s t : System T} → 0 < n → Inv n s → Step n s t → Inv n t
  unfolding add_task
  Step-Inv some_thread inv (thread i h) = thread_step-Inv inv i h
  Step-Inv {s = s} some_thread inv (add t free) =
      added-Inv inv (add_task t s.pool) free refl inv.no_choice
  Step-Inv {s = s} some_thread inv (add_batch ts free) =
      let (flag, choice) = add_task_batch-kept ts s.pool in
      added-Inv inv (add_task_batch ts s.pool) free flag (choice ∙ inv.no_choice)
  Step-Inv some_thread inv (signal_one i h due e) = signal_one-Inv inv i h e
  Step-Inv some_thread inv (signal_none due none_sleeps) =
      signal_none-Inv inv some_thread none_sleeps
  Step-Inv some_thread inv set_flag = set_flag-Inv inv
  Step-Inv some_thread inv (broadcast off) = broadcast-Inv inv off

  Reach-Inv :
      {n : ℕ} {p : ThreadPool T} {s : System T}
      → 0 < n
      → p.get_task_cust ≡ none
      → Reach n p s
      → Inv n s
  Reach-Inv {n} {p} some_thread plain start = started-Inv n p some_thread plain
  Reach-Inv some_thread plain (later r st) = Step-Inv some_thread (Reach-Inv some_thread plain r) st

  -- In every state that the threads of a pool, one or more, reach where no choosing function is
  -- set, with tasks added, signals, and the end of the pool in any order: at most one thread has
  -- the lock, no thread runs a pointer that was never set, and while the pool runs and tasks wait,
  -- a signal is still to come or some thread is awake.
  pub reach-lively :
      {n : ℕ} {p : ThreadPool T} {s : System T}
      → 0 < n
      → p.get_task_cust ≡ none
      → Reach n p s
      → ((i j : ℕ) → has_lock (s.pc i) ≡ true → has_lock (s.pc j) ≡ true → i ≡ j)
        × ((i : ℕ) → s.pc i ≢ wild)
        × (s.pool.running_flag ≡ true
            → s.pool.task_list ≢ []
            → (0 < s.signals) ⊎ ((i : ℕ) × (i < n) × (awake (s.pc i) ≡ true)))
  reach-lively {s} some_thread plain r =
      let inv = Reach-Inv some_thread plain r in
      (
        λ i j a b. some-injective i j (sym (inv.holder i a) ∙ inv.holder j b),
        λ i e. ground (arith, inv.fine i),
        λ runs more. inv.lively runs (not_nil s.pool.task_list more),
      )
    where
      not_nil : (ts : List T) → ts ≢ [] → is_nil ts ≡ false
      not_nil [] h = absurd (h refl)
      not_nil (t ∷ ts) h = refl
