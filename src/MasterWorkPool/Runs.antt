-- ===== src/MasterWorkPool/Runs.antt =====
-- Calls of `AddTask` of `CMasterWorkPool` and takings of its threads, in any order.
use cmdtran.Common.{
  Bool, true, false, lt-length_of_some, ℕ, zero, suc, ◌%◌, ◌<◌, ◌≡◌, refl, ap, ap₂, sym, ◌∙◌, inl,
  inr, Option, none, some, List, [], ◌∷◌, ◌++◌, get_elem?, set, ◌==◌, if◌then◌else◌, arith,
  Bool-cases, append_assoc, append-nil, ==→eq, Option-cases, All-get_elem?,
}
use cmdtran.ThreadPool.{ThreadPool, sleeps, leaves, got, unset}
use cmdtran.ThreadPool
use cmdtran.MasterWorkPool.{MasterWorkPool, init, init_pool, add_task, worker, new_workers}
use cmdtran.MasterWorkPool.Order.{
  IsRunning, IsValid, add_task_lem, get_task-cons, get_task-nil, init_pool-IsValid, set-IsValid,
  tasks_of, waiting, waiting-set,
}

-- What happens to a pool: a task is added under an id, or the thread of a worker calls `GetTask`.
pub data Event {ℓ} (T : Type ℓ) : Type ℓ where
  adds : ℕ → T → Event T
  takes : ℕ → Event T

-- A pool, with the tasks that were taken from it and the workers that took them, oldest first.
pub record Run {ℓ} (T : Type ℓ) : Type ℓ where
  pub pool : MasterWorkPool T
  pub taken : List (ℕ × T)

module _ {ℓ} (T : Type ℓ) where
  worker-empty : (created : Bool) → tasks_of (some (worker {T = T} created)) ≡ []
  unfolding ThreadPool.init_pool ThreadPool.init
  worker-empty true = refl
  worker-empty false = refl

  waiting-fresh :
      (created : ℕ → Bool) (i n w : ℕ)
      → tasks_of (get_elem? (new_workers {T = T} created i n) w) ≡ []
  unfolding new_workers
  waiting-fresh created i zero w = refl
  waiting-fresh created i (suc n) zero = worker-empty (created i)
  waiting-fresh created i (suc n) (suc w) = waiting-fresh created (suc i) n w

module _ {ℓ} {T : Type ℓ} where
  -- What a worker's thread has of `GetTask`; if it sleeps, it changes nothing.
  abbrev pub took : ℕ → ThreadPool.Task T × ThreadPool T → Run T → Run T
  took w (got t, p) r = record {
    pool = record (r.pool) { thread_map = set r.pool.thread_map w p };
    taken = r.taken ++ (w, t) ∷ [];
  }
  took w (sleeps, p) r = r
  took w (leaves, p) r = r
  took w (unset, p) r = r

  abbrev pub take_from : ℕ → ThreadPool T → Run T → Run T
  take_from w p r = took w (ThreadPool.get_task p) r

  pub step : Event T → Run T → Option (Run T)
  step (adds id t) r = elim (add_task id t r.pool) [
    | none ↦ none
    | some p ↦ some (record r { pool = p })
  ]
  step (takes w) r = elim (get_elem? r.pool.thread_map w) [
    | none ↦ some r
    | some p ↦ some (take_from w p r)
  ]

  pub run : List (Event T) → Run T → Option (Run T)
  run [] r = some r
  run (e ∷ es) r = elim (step e r) [ none ↦ none | some r' ↦ run es r' ]

  -- The tasks that a worker has taken.
  abbrev pub taken_by : ℕ → List (ℕ × T) → List T
  taken_by w [] = []
  taken_by w ((v, t) ∷ log) = if v == w then t ∷ taken_by w log else taken_by w log

  -- The tasks that were added for a worker out of `n`.
  abbrev pub added_to : ℕ → ℕ → List (Event T) → List T
  added_to n w [] = []
  added_to n w (adds id t ∷ es) = if id % n == w then t ∷ added_to n w es else added_to n w es
  added_to n w (takes v ∷ es) = added_to n w es

  taken_by-append :
      (w v : ℕ) (t : T) (log : List (ℕ × T))
      → taken_by w (log ++ (v, t) ∷ []) ≡ taken_by w log ++ (if v == w then t ∷ [] else [])
  taken_by-append w v t [] = ground arith
  taken_by-append w v t ((u, s) ∷ log) = ground (arith, taken_by-append w v t log)

  -- The description that the calls are compared with: one worker as the tasks that were taken and the
  -- queue of those that wait.
  abbrev pub serve_first : List T × List T → List T × List T
  serve_first (done, []) = (done, [])
  serve_first (done, t ∷ ts) = (done ++ t ∷ [], ts)

  abbrev pub serve : ℕ → ℕ → Event T → List T × List T → List T × List T
  serve n w (adds id t) (done, queue) =
      if id % n == w then (done, queue ++ t ∷ []) else (done, queue)
  serve n w (takes v) q = if v == w then serve_first q else q

  abbrev pub serve_all : ℕ → ℕ → List (Event T) → List T × List T → List T × List T
  serve_all n w [] q = q
  serve_all n w (e ∷ es) q = serve_all n w es (serve n w e q)

  -- One worker in a run.
  abbrev pub worker_of : ℕ → Run T → List T × List T
  worker_of w r = (taken_by w r.taken, waiting w r.pool)

  serve-adds :
      (n w id : ℕ) (t : T) (done queue queue' : List T)
      → queue' ≡ queue ++ (if id % n == w then t ∷ [] else [])
      → (done, queue') ≡ serve n w (adds id t) (done, queue)
  serve-adds n w id t done queue queue' e = elim (Bool-cases (id % n == w)) [
    | inl h ↦ rw (h, e, h) refl
    | inr h ↦ rw (h, e, h, append-nil) refl
  ]

  -- The thread of a worker with a task, seen from any worker.
  serve-takes :
      (n v w : ℕ) (x : ThreadPool T) (t : T) (ts log : List T) (p : MasterWorkPool T)
      → get_elem? p.thread_map v ≡ some x
      → x.task_list ≡ t ∷ ts
      → (log ++ (if v == w then t ∷ [] else []), if v == w then ts else waiting w p)
        ≡ serve n w (takes v) (log, waiting w p)
  serve-takes n v w x t ts log p e l = elim (Bool-cases (v == w)) [
    | inl h ↦ rw (h, ← ==→eq v w h, e, l) refl
    | inr h ↦ rw (h, append-nil) refl
  ]

  serve-empty :
      (n v w : ℕ) (log queue : List T)
      → (v ≡ w → queue ≡ [])
      → (log, queue) ≡ serve n w (takes v) (log, queue)
  serve-empty n v w log queue e = elim (Bool-cases (v == w)) [
    | inl h ↦ rw (h, e (==→eq v w h)) refl
    | inr h ↦ rw h refl
  ]

  take_from_lem :
      (n v : ℕ) (x : ThreadPool T) (ts : List T) (r : Run T)
      → IsValid n r.pool
      → get_elem? r.pool.thread_map v ≡ some x
      → v < n
      → x.task_list ≡ ts
      → IsValid n (take_from v x r).pool
        × ((w : ℕ) → worker_of w (take_from v x r) ≡ serve n w (takes v) (worker_of w r))
  take_from_lem n v x [] r i e h l =
      rw (get_task-nil x (All-get_elem? IsRunning r.pool.thread_map v i.running e) l) (
        i,
        λ w.
            serve-empty n v w (taken_by w r.taken) (waiting w r.pool)
              (λ same. ap (λ (k : ℕ). waiting k r.pool) (sym same) ∙ ap tasks_of e ∙ l),
      )
  take_from_lem n v x (t ∷ ts) r i e h l =
      let run : IsRunning x = All-get_elem? IsRunning r.pool.thread_map v i.running e in
      rw (get_task-cons x t ts run l) (
        set-IsValid n v r.pool (record x { task_list = ts }) i run,
        λ w.
            ap₂ (λ (a b : List T). (a, b)) (taken_by-append w v t r.taken)
              (waiting-set r.pool v w (record x { task_list = ts }) (omega (arith, i.workers)))
            ∙ serve-takes n v w x t ts (taken_by w r.taken) r.pool e l,
      )

  -- One event, seen from each worker.
  step_lem :
      (n : ℕ) (e : Event T) (r : Run T)
      → IsValid n r.pool
      → (r' : Run T) × (step e r ≡ some r')
        × IsValid n r'.pool
        × ((w : ℕ) → worker_of w r' ≡ serve n w e (worker_of w r))
  unfolding step
  step_lem n (adds id t) r v =
      let (p, e, v', s) = add_task_lem n id t r.pool v in
      (
        record r { pool = p },
        rw (e, step),
        v',
        λ w. serve-adds n w id t (taken_by w r.taken) (waiting w r.pool) (waiting w p) (s w),
      )
  step_lem n (takes v) r i = elim (Option-cases (get_elem? r.pool.thread_map v)) [
    | inl e ↦ (
      r,
      rw (e, step),
      i,
      λ w.
          serve-empty n v w (taken_by w r.taken) (waiting w r.pool)
            (λ same. ap (λ (k : ℕ). waiting k r.pool) (sym same) ∙ ap tasks_of e),
    )
    | inr (x, e) ↦
        let (i', s) =
          take_from_lem n v x x.task_list r i e
            (omega (arith, i.workers, lt-length_of_some r.pool.thread_map v e)) refl in
        (take_from v x r, rw (e, step), i', s)
  ]

  run_lem :
      (n : ℕ) (es : List (Event T)) (r : Run T)
      → IsValid n r.pool
      → (r' : Run T) × (run es r ≡ some r')
        × IsValid n r'.pool
        × ((w : ℕ) → worker_of w r' ≡ serve_all n w es (worker_of w r))
  unfolding run
  run_lem n [] r v = (r, refl, v, λ w. refl)
  run_lem n (e ∷ es) r v =
      let (r₁, e₁, v₁, s₁) = step_lem n e r v in
      let (r₂, e₂, v₂, s₂) = run_lem n es r₁ v₁ in
      (r₂, rw (e₁, run) e₂, v₂, λ w. s₂ w ∙ ap (serve_all n w es) (s₁ w))

  serve-added :
      (n w : ℕ) (e : Event T) (q : List T × List T)
      → (serve n w e q).0 ++ (serve n w e q).1 ≡ (q.0 ++ q.1) ++ added_to n w (e ∷ [])
  serve-added n w (adds id t) (done, queue) = elim (Bool-cases (id % n == w)) [
    | inl h ↦ rw h (sym (append_assoc done queue (t ∷ [])))
    | inr h ↦ rw h (sym (append-nil (done ++ queue)))
  ]
  serve-added n w (takes v) (done, []) = elim (Bool-cases (v == w)) [
    | inl h ↦ rw h (sym (append-nil (done ++ [])))
    | inr h ↦ rw h (sym (append-nil (done ++ [])))
  ]
  serve-added n w (takes v) (done, t ∷ ts) = elim (Bool-cases (v == w)) [
    | inl h ↦ rw h (append_assoc done (t ∷ []) ts ∙ sym (append-nil (done ++ t ∷ ts)))
    | inr h ↦ rw h (sym (append-nil (done ++ t ∷ ts)))
  ]

  added_to-cons :
      (n w : ℕ) (e : Event T) (es : List (Event T))
      → added_to n w (e ∷ es) ≡ added_to n w (e ∷ []) ++ added_to n w es
  added_to-cons n w (adds id t) es = ground arith
  added_to-cons n w (takes v) es = refl

  -- What was taken and what waits are what was added.
  serve_all-added :
      (n w : ℕ) (es : List (Event T)) (q : List T × List T)
      → (serve_all n w es q).0 ++ (serve_all n w es q).1 ≡ (q.0 ++ q.1) ++ added_to n w es
  serve_all-added n w [] q = sym (append-nil (q.0 ++ q.1))
  serve_all-added n w (e ∷ es) q =
      serve_all-added n w es (serve n w e q)
      ∙ ap (λ (ts : List T). ts ++ added_to n w es) (serve-added n w e q)
      ∙ append_assoc (q.0 ++ q.1) (added_to n w (e ∷ [])) (added_to n w es)
      ∙ ap (◌++◌ (q.0 ++ q.1)) (sym (added_to-cons n w e es))

  -- After `InitPool` with at least one worker, all of whose threads were created, and after any
  -- calls of `AddTask` and any takings by the threads, in any order: no call fails; for each
  -- worker the tasks that its thread has taken and those that wait are what a queue gives to which
  -- the tasks whose ids lead to the worker are added at the end and from which each taking of its
  -- thread takes the first, if there is one; and both together are the tasks that were added for
  -- it, once each and in order.
  pub run_order :
      (n : ℕ) (created : ℕ → Bool) (es : List (Event T))
      → 0 < n
      → ((k : ℕ) → k < n → created k ≡ true)
      → (r : Run T) × (run es (record { pool = init_pool n created init; taken = [] }) ≡ some r)
        × ((w : ℕ) → worker_of w r ≡ serve_all n w es ([], []))
        × ((w : ℕ) → taken_by w r.taken ++ waiting w r.pool ≡ added_to n w es)
  run_order n created es h all =
      let (r, e, v, s) = run_lem n es _ (init_pool-IsValid n created h all) in
      let serves : (w : ℕ) → worker_of w r ≡ serve_all n w es ([], []) =
        λ w. s w ∙ ap (λ (ts : List T). serve_all n w es ([], ts)) (nothing w) in
      (
        r,
        e,
        serves,
        λ w. ap (λ (q : List T × List T). q.0 ++ q.1) (serves w) ∙ serve_all-added n w es ([], []),
      )
    where
      nothing : (w : ℕ) → waiting w (init_pool n created (init {T = T})) ≡ []
      nothing w = unfold init_pool in waiting-fresh T created 0 n w
