-- ===== src/ThreadPool/Threads/Awake.antt =====
-- What holds of the threads of a pool in every order of their steps, of additions, signals and the
-- end of the pool, where no choosing function is set.
use cmdtran.Common.{
  ℕ, suc, ◌-◌, ◌<◌, ◌≡◌, ◌≢◌, refl, Bool, true, false, ◌⊎◌, inl, inr, none, some, arith,
}
use cmdtran.ThreadPool.{ThreadPool, Task, got, get_task, take_task, shut_down}
use cmdtran.ThreadPool.Threads.{
  Pc, at_lock, test, wait, sleeping, woken, leave, returned, running, wild, exited, System,
  thread_step, assign, is_nil, wake,
}

module _ {T : Type 0} where
  abbrev pub has_lock : Pc T → Bool
  has_lock test = true
  has_lock wait = true
  has_lock leave = true
  has_lock p = false

  -- A thread that will look at the list again, or is at a task.
  abbrev pub awake : Pc T → Bool
  awake sleeping = false
  awake wild = false
  awake exited = false
  awake p = true

  abbrev pub is_got : Task T → Bool
  is_got (got t) = true
  is_got r = false

  -- What the place of a thread says about the list and the flag.
  abbrev pub Fine : Bool → Bool → Pc T → Type 0
  Fine nil flag wait = nil ≡ true
  Fine nil flag leave = flag ≡ true → nil ≡ false
  Fine nil flag (returned r) = flag ≡ true → is_got r ≡ true
  Fine nil flag wild = ⊥
  Fine nil flag exited = flag ≡ false
  Fine nil flag p = Unit

  abbrev pub Lively : ℕ → System T → Type 0
  Lively n s = (0 < s.signals) ⊎ ((i : ℕ) × (i < n) × (awake (s.pc i) ≡ true))

  pub record Inv (n : ℕ) (s : System T) : Type 0 where
    pub no_choice : s.pool.get_task_cust ≡ none
    pub holder : (i : ℕ) → has_lock (s.pc i) ≡ true → s.lock ≡ some i
    pub fine : (i : ℕ) → Fine (is_nil s.pool.task_list) s.pool.running_flag (s.pc i)
    pub lively : s.pool.running_flag ≡ true → is_nil s.pool.task_list ≡ false → Lively n s

  -- `GetTask` without a choosing function.
  get_task_plain :
      (p : ThreadPool T)
      → p.get_task_cust ≡ none
      → ((get_task p).1.running_flag ≡ p.running_flag)
        × ((get_task p).1.get_task_cust ≡ none)
        × (p.running_flag ≡ true → is_nil p.task_list ≡ false → is_got (get_task p).0 ≡ true)
  unfolding get_task take_task
  get_task_plain p h = ground arith

  module _ {n : ℕ} {s : System T} (inv : Inv n s) where
    open inv use {no_choice, holder, fine, lively}

    thread_step-holder :
        (i : ℕ) (p : Pc T)
        → s.pc i ≡ p
        → (j : ℕ) → has_lock ((thread_step i p s).pc j) ≡ true
        → (thread_step i p s).lock ≡ some j
    unfolding thread_step
    thread_step-holder i p e j h = ground (arith, holder i, holder j)

    thread_step-Fine :
        (i : ℕ) (p : Pc T)
        → s.pc i ≡ p
        → (j : ℕ)
        → Fine
            (is_nil (thread_step i p s).pool.task_list)
            (thread_step i p s).pool.running_flag
            ((thread_step i p s).pc j)
    unfolding thread_step
    thread_step-Fine i p e j =
        ground (arith, holder i, holder j, fine i, fine j, get_task_plain s.pool no_choice)

    thread_step-Lively :
        (i : ℕ) (p : Pc T)
        → s.pc i ≡ p
        → i < n
        → (thread_step i p s).pool.running_flag ≡ true
        → is_nil (thread_step i p s).pool.task_list ≡ false
        → Lively n (thread_step i p s)
    unfolding thread_step
    thread_step-Lively i sleeping e h runs more = lively runs more
    thread_step-Lively i wild e h runs more = lively runs more
    thread_step-Lively i exited e h runs more = lively runs more
    thread_step-Lively i at_lock e h runs more = inr (i, h, ground (arith))
    thread_step-Lively i woken e h runs more = inr (i, h, ground (arith))
    thread_step-Lively i test e h runs more = inr (i, h, ground (arith))
    thread_step-Lively i wait e h runs more = absurd (ground (arith, fine i))
    thread_step-Lively i leave e h runs more = inr (i, h, ground (arith))
    thread_step-Lively i (returned r) e h runs more = inr (i, h, ground (arith, fine i))
    thread_step-Lively i (running t) e h runs more = inr (i, h, ground (arith))

    thread_step-no_choice : (i : ℕ) (p : Pc T) → (thread_step i p s).pool.get_task_cust ≡ none
    unfolding thread_step
    thread_step-no_choice i p = ground (arith, get_task_plain s.pool no_choice)

    pub thread_step-Inv : (i : ℕ) → i < n → Inv n (thread_step i (s.pc i) s)
    thread_step-Inv i h = record {
      no_choice = thread_step-no_choice i (s.pc i);
      holder = thread_step-holder i (s.pc i) refl;
      fine = thread_step-Fine i (s.pc i) refl;
      lively = thread_step-Lively i (s.pc i) refl h;
    }

    added-Fine :
        (nil nil' flag flag' : Bool) (p : Pc T) {i : ℕ}
        → (has_lock p ≡ true → s.lock ≡ some i)
        → Fine nil flag p
        → s.lock ≡ none
        → flag' ≡ flag
        → Fine nil' flag' p
    added-Fine nil nil' flag flag' p h f free same = ground arith

    -- Tasks are added while no thread has the lock.
    pub added-Inv :
        (q : ThreadPool T)
        → s.lock ≡ none
        → q.running_flag ≡ s.pool.running_flag
        → q.get_task_cust ≡ none
        → Inv n (record s { pool = q; signals = suc s.signals })
    added-Inv q free flag choice = record {
      no_choice = choice;
      holder = holder;
      fine = λ i.
          added-Fine (is_nil s.pool.task_list) (is_nil q.task_list) s.pool.running_flag
            q.running_flag (s.pc i) (holder i) (fine i) free flag;
      lively = λ runs more. inl (omega arith);
    }

    pub signal_one-Inv :
        (i : ℕ)
        → i < n
        → s.pc i ≡ sleeping
        → Inv n (record s { signals = s.signals - 1; pc = assign s.pc i woken })
    signal_one-Inv i h e = record {
      no_choice = no_choice;
      holder = λ j a. ground (arith, holder j);
      fine = λ j. ground (arith, fine j);
      lively = λ runs more. inr (i, h, ground arith);
    }

    none_asleep :
        (p : Pc T)
        → p ≢ sleeping
        → s.pool.running_flag ≡ true
        → Fine (is_nil s.pool.task_list) s.pool.running_flag p
        → awake p ≡ true
    none_asleep p h runs f = ground arith

    pub signal_none-Inv :
        0 < n → ((i : ℕ) → i < n → s.pc i ≢ sleeping) → Inv n (record s { signals = s.signals - 1 })
    signal_none-Inv some_thread none_sleeps = record {
      no_choice = no_choice;
      holder = holder;
      fine = fine;
      lively = λ runs more.
          inr (0, some_thread, none_asleep (s.pc 0) (none_sleeps 0 some_thread) runs (fine 0));
    }

    pub set_flag-Inv : Inv n (record s { pool = shut_down s.pool })
    unfolding shut_down
    set_flag-Inv = record {
      no_choice = no_choice;
      holder = holder;
      fine = λ i. ground (arith, fine i);
      lively = λ runs more. cc;
    }

    pub broadcast-Inv :
        s.pool.running_flag ≡ false → Inv n (record s { stopped = true; pc = λ i. wake (s.pc i) })
    broadcast-Inv off = record {
      no_choice = no_choice;
      holder = λ i h. ground (arith, holder i);
      fine = λ i. ground (arith, fine i);
      lively = λ runs more. cc;
    }
