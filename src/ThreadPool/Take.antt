-- ===== src/ThreadPool/Take.antt =====
-- `GetTask` of a `CThreadPool` with a function that chooses among the tasks.
use cmdtran.Common.{
  ◌≡◌, refl, ap, Bool, true, false, Option, none, some, List, [], ◌∷◌, ◌++◌, All, Bool-cases, inl,
  inr,
}
use cmdtran.ThreadPool.{
  ThreadPool, Task, sleeps, leaves, got, unset, find_task, take_task, get_task,
}

module _ {T : Type 0} (test : T → Bool) where
  abbrev Rejected : T → Type 0
  Rejected t = test t ≡ false

  -- What the search finds: the first task that is accepted, and the others in their order.
  abbrev Found : List T → Option (T × List T) → Type 0
  Found ts none = All Rejected ts
  Found ts (some (u, us)) =
      (xs : List T) × (ys : List T) × (ts ≡ xs ++ u ∷ ys)
      × (us ≡ xs ++ ys)
      × All Rejected xs
      × (test u ≡ true)

  Found-cons :
      (t : T) (ts : List T) (rest : Option (T × List T))
      → test t ≡ false
      → Found ts rest
      → Found (t ∷ ts) (elim rest [ none ↦ none | some (u, us) ↦ some (u, t ∷ us) ])
  Found-cons t ts none e f = (e, f)
  Found-cons t ts (some (u, us)) e (xs, ys, here, left, before, yes_u) =
      (t ∷ xs, ys, ap (◌∷◌ t) here, ap (◌∷◌ t) left, (e, before), yes_u)

  find_task_lem : (ts : List T) → Found ts (find_task test ts)
  unfolding find_task
  find_task_lem [] = tt
  find_task_lem (t ∷ ts) = elim (Bool-cases (test t)) [
    | inl e ↦ rw e ([], ts, refl, refl, tt, e)
    | inr e ↦ rw e (Found-cons t ts (find_task test ts) e (find_task_lem ts))
  ]

  -- What `GetTask` gives, with the list that it finds and the pool that it leaves.
  abbrev pub Given : List T → Task T × ThreadPool T → Type 0
  Given ts (got u, p') =
      (xs : List T) × (ys : List T) × (ts ≡ xs ++ u ∷ ys)
      × (p'.task_list ≡ xs ++ ys)
      × All Rejected xs
      × (test u ≡ true)
  Given ts (sleeps, p') = (ts ≡ []) × (p'.task_list ≡ ts)
  Given ts (unset, p') = All Rejected ts × (p'.task_list ≡ ts)
  Given ts (leaves, p') = ⊥

  take_task_lem :
      (t : T) (ts : List T) (p : ThreadPool T) (found : Option (T × List T))
      → find_task test (t ∷ ts) ≡ found
      → p.task_list ≡ t ∷ ts
      → Found (t ∷ ts) found
      → Given (t ∷ ts) (take_task (some test) t ts p)
  unfolding take_task
  take_task_lem t ts p none e h f = rw (e, take_task) (f, h)
  take_task_lem t ts p (some (u, us)) e h (xs, ys, here, left, before, yes_u) =
      rw (e, take_task) (xs, ys, here, left, before, yes_u)

  get_task_from :
      (ts : List T) (p : ThreadPool T)
      → p.task_list ≡ ts
      → p.running_flag ≡ true
      → p.get_task_cust ≡ some test
      → Given ts (get_task p)
  unfolding get_task
  get_task_from [] p h r c = rw (get_task, r, h) (refl, h)
  get_task_from (t ∷ ts) p h r c =
      rw (get_task, r, h, c)
        (take_task_lem t ts (record p { get_task_cust = some test }) (find_task test (t ∷ ts)) refl
          h (find_task_lem (t ∷ ts)))

  -- `GetTask` of a running pool whose `GetTask_Cust` is a test: it takes the first task of the
  -- list that the test accepts and leaves the others in their order, or it sleeps because the list
  -- is empty, or it returns its unset pointer because the test accepts no task, with the list
  -- unchanged in both cases; it does not leave.
  pub get_task_lem :
      (p : ThreadPool T)
      → p.running_flag ≡ true
      → p.get_task_cust ≡ some test
      → Given p.task_list (get_task p)
  get_task_lem p r c = get_task_from p.task_list p refl r c
