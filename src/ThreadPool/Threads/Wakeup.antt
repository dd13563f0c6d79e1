-- ===== src/ThreadPool/Threads/Wakeup.antt =====
-- `ShutDown` beside a thread that is about to sleep: the flag is set without the lock.
use cmdtran.Common.{
  ℕ, ◌≡◌, ◌<◌, refl, ap, ap₂, subst, Bool, ◌&&◌, true, false, none, some, List, [], arith,
  if◌then◌else◌,
}
use cmdtran.ThreadPool.{ThreadPool, shut_down}
use cmdtran.ThreadPool.Threads.{
  Pc, at_lock, test, wait, sleeping, leave, System, thread, set_flag, broadcast, Reach, start,
  later, started, thread_step, assign, wake, is_nil,
}

module _ {T : Type 0} where
  -- The steps that are left when nobody adds a task any more: those of the threads.
  pub data Alone (n : ℕ) (s : System T) : System T → Type 0 where
    stop : Alone n s s
    go : {t : System T} (i : ℕ) → i < n → Alone n s t → Alone n s (thread_step i (t.pc i) t)

  stays-asleep :
      (i j : ℕ) (p : Pc T) (s : System T)
      → s.pc j ≡ p
      → s.pc i ≡ sleeping
      → (thread_step j p s).pc i ≡ sleeping
  unfolding thread_step
  stays-asleep i j at_lock s e h = ground arith
  stays-asleep i j test s e h = ground arith
  stays-asleep i j wait s e h = ground arith
  stays-asleep i j p s e h = ground arith

  Alone-asleep :
      {n : ℕ} {s t : System T} (i : ℕ) → Alone n s t → s.pc i ≡ sleeping → t.pc i ≡ sleeping
  Alone-asleep i stop h = h
  Alone-asleep i (go {t} j few before) h =
      stays-asleep i j (t.pc j) t refl (Alone-asleep i before h)

  -- The test of the loop, by a thread that finds no task.
  test-wait :
      (i : ℕ) (s : System T)
      → s.pool.running_flag ≡ true
      → s.pool.task_list ≡ []
      → thread_step i test s ≡ record s { pc = assign s.pc i wait }
  unfolding thread_step
  test-wait i s runs empty =
      ap (λ (p : Pc T). record s { pc = assign s.pc i p })
        (ap₂ (λ (ts : List T) (b : Bool). if is_nil ts && b then Pc.wait else leave) empty runs)

  -- For every pool of one thread or more that runs and has no task, a state is reached in which
  -- the flag is off, the broadcast of `ShutDown` was made and no signal is to come, and in which
  -- the first thread sleeps, whatever steps the threads take from there.
  pub lost_wakeup :
      (n : ℕ) (p : ThreadPool T)
      → 0 < n
      → p.running_flag ≡ true
      → p.task_list ≡ []
      → (s : System T) × Reach n p s
        × (s.pool.running_flag ≡ false)
        × (s.stopped ≡ true)
        × (s.signals ≡ 0)
        × ((t : System T) → Alone n s t → t.pc 0 ≡ sleeping)
  unfolding started thread_step shut_down
  lost_wakeup n p some_thread runs empty =
      let s1 = record (started p) { lock = some 0; pc = assign (started p).pc 0 test } in
      let s2 = record s1 { pc = assign s1.pc 0 wait } in
      let s3 = record s2 { pool = shut_down p } in
      let s4 = record s3 { stopped = true; pc = λ i. wake (s3.pc i) } in
      let s5 = record s4 { lock = none; pc = assign s4.pc 0 sleeping } in
      let r1 : Reach n p s1 = later start (thread 0 some_thread) in
      let r2 : Reach n p s2 =
        subst (Reach n p) (test-wait 0 s1 runs empty) (later r1 (thread 0 some_thread)) in
      let r4 : Reach n p s4 = later (later r2 set_flag) (broadcast refl) in
      (s5, later r4 (thread 0 some_thread), refl, refl, refl, λ t after. Alone-asleep 0 after refl)
