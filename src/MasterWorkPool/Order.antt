-- ===== src/MasterWorkPool/Order.antt =====
-- `AddTask` of `CMasterWorkPool`, and what `GetTask` of a worker with tasks gives.
use cmdtran.Common.{
  ℕ, zero, suc, ◌+◌, ◌≤◌, Bool, ◌%◌, ◌<◌, ◌≡◌, ◌≢◌, refl, ap, ◌∙◌, true, false, inl, inr, Option,
  none, some, List, [], ◌∷◌, ◌++◌, get_elem?, set, ◌==◌, if◌then◌else◌, length, arith, Bool-cases,
  append-nil, ==→eq, ==→ne, All, All-get_elem?, All-set, get_elem?-set_self, get_elem?-set_ne,
  get_elem?-lt, length-set, ne→==,
}
use cmdtran.ThreadPool.{ThreadPool, sleeps, leaves, got, unset}
use cmdtran.ThreadPool
use cmdtran.MasterWorkPool.{
  MasterWorkPool, init, init_pool, add_task, at_worker, worker, new_workers,
}

module _ {ℓ} {T : Type ℓ} where
  abbrev pub tasks_of : Option (ThreadPool T) → List T
  tasks_of none = []
  tasks_of (some p) = p.task_list

  -- The tasks that wait at a worker.
  abbrev pub waiting : ℕ → MasterWorkPool T → List T
  waiting w p = tasks_of (get_elem? p.thread_map w)

  abbrev pub IsRunning : ThreadPool T → Type ℓ
  IsRunning p = (p.running_flag ≡ true) × (p.get_task_cust ≡ none)

  -- A pool with `n` workers, all of which run.
  pub record IsValid (n : ℕ) (p : MasterWorkPool T) : Type ℓ where
    pub count : p.worker_count ≡ n
    pub some_worker : 0 < n
    pub workers : length p.thread_map ≡ n
    pub running : All IsRunning p.thread_map

module _ {ℓ} (T : Type ℓ) where
  worker-IsRunning : (created : Bool) → created ≡ true → IsRunning (worker {T = T} created)
  unfolding ThreadPool.init_pool ThreadPool.init
  worker-IsRunning created h = rw h (refl, refl)

  length-new_workers : (created : ℕ → Bool) (i n : ℕ) → length (new_workers {T = T} created i n) ≡ n
  unfolding new_workers
  length-new_workers created i zero = refl
  length-new_workers created i (suc n) = ap suc (length-new_workers created (suc i) n)

  new_workers-IsRunning :
      (created : ℕ → Bool) (i n : ℕ)
      → ((k : ℕ) → i ≤ k → k < i + n → created k ≡ true)
      → All IsRunning (new_workers {T = T} created i n)
  unfolding new_workers
  new_workers-IsRunning created i zero h = tt
  new_workers-IsRunning created i (suc n) h = (
    worker-IsRunning (created i) (h i (omega arith) (omega arith)),
    new_workers-IsRunning created (suc i) n (λ k l u. h k (omega arith) (omega arith)),
  )

  -- The worker `w` of the new ones: whether its thread was created is all that it depends on.
  pub get_elem?-new_workers :
      (created : ℕ → Bool) (i w n : ℕ)
      → w < n
      → get_elem? (new_workers {T = T} created i n) w ≡ some (worker (created (w + i)))
  unfolding new_workers
  get_elem?-new_workers created i w zero h = absurd (omega arith)
  get_elem?-new_workers created i zero (suc n) h =
      ap (λ (k : ℕ). some (worker (created k))) (omega arith)
  get_elem?-new_workers created i (suc w) (suc n) h =
      get_elem?-new_workers created (suc i) w n (omega arith)
      ∙ ap (λ (k : ℕ). some (worker (created k))) (omega arith)

module _ {ℓ} {T : Type ℓ} where
  -- All threads are created.
  pub init_pool-IsValid :
      (n : ℕ) (created : ℕ → Bool)
      → 0 < n
      → ((k : ℕ) → k < n → created k ≡ true)
      → IsValid n (init_pool n created (init {T = T}))
  unfolding init_pool
  init_pool-IsValid n created h all = record {
    count = refl;
    some_worker = h;
    workers = length-new_workers T created 0 n;
    running = new_workers-IsRunning T created 0 n (λ k l u. all k (omega arith));
  }

  pub waiting-set :
      (p : MasterWorkPool T) (i w : ℕ) (x : ThreadPool T)
      → i < length p.thread_map
      → waiting w (record p { thread_map = set p.thread_map i x })
        ≡ (if i == w then x.task_list else waiting w p)
  waiting-set p i w x h = elim (Bool-cases (i == w)) [
    | inl e ↦ rw (e, ← ==→eq i w e, get_elem?-set_self p.thread_map i x h)
    | inr e ↦ rw (e, get_elem?-set_ne p.thread_map i w x (==→ne i w e))
  ]

  pub waiting-add :
      (p : MasterWorkPool T) (i j w : ℕ) (x : ThreadPool T) (t : T)
      → get_elem? p.thread_map i ≡ some x
      → i ≡ j
      → (if i == w then x.task_list ++ t ∷ [] else waiting w p)
        ≡ waiting w p ++ (if j == w then t ∷ [] else [])
  waiting-add p i j w x t e f = elim (Bool-cases (i == w)) [
    | inl h ↦ rw (← f, h, ← ==→eq i w h, e)
    | inr h ↦ rw (← f, h, append-nil)
  ]

  pub at_worker_lem :
      (f : ThreadPool T → ThreadPool T) (id : ℕ) (p : MasterWorkPool T) (x : ThreadPool T)
      → p.worker_count ≢ 0
      → get_elem? p.thread_map (id % p.worker_count) ≡ some x
      → at_worker f id p
        ≡ some (record p { thread_map = set p.thread_map (id % p.worker_count) (f x) })
  unfolding at_worker
  at_worker_lem f id p x h e = rw (ne→== p.worker_count 0 h, e)

  pub set-IsValid :
      (n i : ℕ) (p : MasterWorkPool T) (x : ThreadPool T)
      → IsValid n p
      → IsRunning x
      → IsValid n (record p { thread_map = set p.thread_map i x })
  set-IsValid n i p x v r = record {
    count = v.count;
    some_worker = v.some_worker;
    workers = length-set p.thread_map i x ∙ v.workers;
    running = All-set IsRunning p.thread_map i x v.running r;
  }

  -- `AddTask` of a valid pool with `n` workers returns a valid pool, puts the task at the end of
  -- the list of the worker that the remainder of the id names, and changes no other list.
  pub add_task_lem :
      (n id : ℕ) (t : T) (p : MasterWorkPool T)
      → IsValid n p
      → (p' : MasterWorkPool T) × (add_task id t p ≡ some p')
        × IsValid n p'
        × ((w : ℕ) → waiting w p' ≡ waiting w p ++ (if id % n == w then t ∷ [] else []))
  unfolding add_task ThreadPool.add_task
  add_task_lem n id t p v =
      let i : ℕ = id % p.worker_count in
      let h : i < length p.thread_map = omega (arith, v.count, v.workers, v.some_worker) in
      let (x, e) = get_elem?-lt p.thread_map i h in
      let i' : i ≡ id % n = ap (λ (k : ℕ). id % k) v.count in
      (
        record p { thread_map = set p.thread_map i (ThreadPool.add_task t x) },
        at_worker_lem (ThreadPool.add_task t) id p x (omega (arith, v.count, v.some_worker)) e,
        set-IsValid n i p (ThreadPool.add_task t x) v
            (All-get_elem? IsRunning p.thread_map i v.running e),
        λ w. waiting-set p i w (ThreadPool.add_task t x) h ∙ waiting-add p i (id % n) w x t e i',
      )

  worker-uncreated :
      (created : Bool) (t : T)
      → created ≡ false
      → let x = ThreadPool.add_task t (worker created) in
        (x.task_list ≡ t ∷ []) × (ThreadPool.get_task x ≡ (leaves, x))
  unfolding ThreadPool.add_task ThreadPool.get_task ThreadPool.init_pool ThreadPool.init
  worker-uncreated true t e = cc
  worker-uncreated false t e = (refl, refl)

  -- A thread that runs takes the first of its tasks, or sleeps.
  pub get_task-cons :
      (x : ThreadPool T) (t : T) (ts : List T)
      → IsRunning x
      → x.task_list ≡ t ∷ ts
      → ThreadPool.get_task x ≡ (got t, record x { task_list = ts })
  unfolding ThreadPool.get_task
  get_task-cons x t ts r e = simp (r.0, r.1, e)

  pub get_task-nil :
      (x : ThreadPool T) → IsRunning x → x.task_list ≡ [] → ThreadPool.get_task x ≡ (sleeps, x)
  unfolding ThreadPool.get_task
  get_task-nil x r e = simp (r.0, e)

  -- Before `InitPool` there is no worker, and `AddTask` divides by 0.
  pub add_task-init : (id : ℕ) (t : T) → add_task id t init ≡ none
  unfolding add_task init
  add_task-init id t = refl

  -- A worker whose thread was not created takes tasks and never hands them out.
  pub add_task-uncreated :
      (n w id : ℕ) (t : T) (created : ℕ → Bool) (p : MasterWorkPool T)
      → w < n
      → id % n ≡ w
      → created w ≡ false
      → (p' : MasterWorkPool T) × (x : ThreadPool T) × (add_task id t (init_pool n created p)
          ≡ some p')
        × (get_elem? p'.thread_map w ≡ some x)
        × (x.task_list ≡ t ∷ [])
        × (ThreadPool.get_task x ≡ (leaves, x))
  unfolding add_task init_pool
  add_task-uncreated n w id t created p h at failed =
      let map = new_workers {T = T} created 0 n in
      let q = init_pool n created p in
      let here : get_elem? map w ≡ some (worker (created w)) =
        get_elem?-new_workers T created 0 w n h
        ∙ ap (λ (k : ℕ). some (worker (created k))) (omega arith) in
      let x = ThreadPool.add_task t (worker (created w)) in
      let (l, g) = worker-uncreated (created w) t failed in
      (
        record q { thread_map = set map (id % n) x },
        x,
        at_worker_lem (ThreadPool.add_task t) id q (worker (created w)) (omega arith)
            (ap (get_elem? map) at ∙ here),
        ap (λ (i : ℕ). get_elem? (set map i x) w) at
            ∙ get_elem?-set_self map w x (omega (arith, length-new_workers T created 0 n)),
        l,
        g,
      )
