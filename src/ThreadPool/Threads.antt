-- ===== src/ThreadPool/Threads.antt =====
-- ComandTran/src/ThreadPool.cpp: the threads of a `CThreadPool`, which run `_ThreadRoutine` and in it
-- `GetTask` under `TaskListLock` and the condition `TaskListReady`, beside callers of `AddTask`,
-- `AddTaskBatch` and `ShutDown`.
pub mod Awake
pub mod Live
pub mod Wakeup
use cmdtran.Common.{
  ℕ, suc, ◌-◌, ◌<◌, ◌≡◌, ◌≢◌, Bool, true, false, ◌&&◌, Option, none, some, List, [], ◌∷◌, ◌==◌,
  if◌then◌else◌,
}
use cmdtran.ThreadPool.{
  ThreadPool, Task, sleeps, leaves, got, unset, get_task, add_task, add_task_batch, shut_down,
}

-- Where a thread stands.
pub data Pc {ℓ} (T : Type ℓ) : Type ℓ where
  at_lock : Pc T  -- before `pthread_mutex_lock` in `GetTask`
  test : Pc T  -- with the lock, at the test of the loop
  wait : Pc T  -- with the lock, before `pthread_cond_wait`
  sleeping : Pc T
  woken : Pc T  -- in `pthread_cond_wait`, before it has the lock again
  leave : Pc T  -- with the lock, behind the loop
  returned : Task T → Pc T  -- in `_ThreadRoutine`, behind `GetTask`
  running : T → Pc T  -- in `ProcessTask`
  wild : Pc T  -- in `ProcessTask` of a pointer that was never set
  exited : Pc T

-- `lock` is the thread that holds `TaskListLock`. `signals` counts the calls of `pthread_cond_signal`
-- that are still to come, each behind an addition; `stopped` says that `ShutDown` has made its broadcast.
pub record System {ℓ} (T : Type ℓ) : Type ℓ where
  pub pool : ThreadPool T
  pub lock : Option ℕ
  pub signals : ℕ
  pub stopped : Bool
  pub pc : ℕ → Pc T

abbrev pub is_free : Option ℕ → Bool
is_free none = true
is_free (some i) = false

module _ {ℓ} {T : Type ℓ} where
  abbrev pub assign : (ℕ → Pc T) → ℕ → Pc T → ℕ → Pc T
  assign pc i p j = if i == j then p else pc j

  abbrev pub is_nil : List T → Bool
  is_nil [] = true
  is_nil (t ∷ ts) = false

  -- A thread that asks for the lock: it goes on if the lock is free.
  unfoldable pub acquire : ℕ → System T → System T
  acquire i s = if is_free s.lock then record s { lock = some i; pc = assign s.pc i test } else s

  -- What `_ThreadRoutine` does with what `GetTask` returned.
  abbrev pub routine : Bool → Task T → Pc T
  routine false r = exited
  routine true (got t) = running t
  routine true r = wild

  -- One step of a thread.
  unfoldable pub thread_step : ℕ → Pc T → System T → System T
  unfolding acquire
  thread_step i at_lock s = acquire i s
  thread_step i test s = record s {
    pc = assign s.pc i (if is_nil s.pool.task_list && s.pool.running_flag then wait else leave);
  }
  thread_step i wait s = record s { lock = none; pc = assign s.pc i sleeping }
  thread_step i woken s = acquire i s
  thread_step i leave s = record s {
    pool = (get_task s.pool).1;
    lock = none;
    pc = assign s.pc i (returned (get_task s.pool).0);
  }
  thread_step i (returned r) s = record s { pc = assign s.pc i (routine s.pool.running_flag r) }
  thread_step i (running t) s = record s { pc = assign s.pc i at_lock }
  thread_step i p s = s

  abbrev pub wake : Pc T → Pc T
  wake sleeping = woken
  wake p = p

  -- One step of the pool with `n` threads.
  pub data Step (n : ℕ) (s : System T) : System T → Type ℓ where
    thread : (i : ℕ) → i < n → Step n s (thread_step i (s.pc i) s)
    add :
        (t : T)
        → s.lock ≡ none
        → Step n s (record s { pool = add_task t s.pool; signals = suc s.signals })
    add_batch :
        (ts : List T)
        → s.lock ≡ none
        → Step n s (record s { pool = add_task_batch ts s.pool; signals = suc s.signals })
    signal_one :
        (i : ℕ)
        → i < n
        → 0 < s.signals
        → s.pc i ≡ sleeping
        → Step n s (record s { signals = s.signals - 1; pc = assign s.pc i woken })
    signal_none :
        0 < s.signals
        → ((i : ℕ) → i < n → s.pc i ≢ sleeping)
        → Step n s (record s { signals = s.signals - 1 })
    set_flag : Step n s (record s { pool = shut_down s.pool })
    broadcast :
        s.pool.running_flag ≡ false
        → Step n s (record s { stopped = true; pc = λ i. wake (s.pc i) })

  -- The threads as `InitPool` has made them.
  unfoldable pub started : ThreadPool T → System T
  started p = record { pool = p; lock = none; signals = 0; stopped = false; pc = λ i. at_lock }

  pub data Reach (n : ℕ) (p : ThreadPool T) : System T → Type ℓ where
    start : Reach n p (started p)
    later : {s t : System T} → Reach n p s → Step n s t → Reach n p t
