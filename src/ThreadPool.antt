-- ===== src/ThreadPool.antt =====
-- ComandTran/src/ThreadPool.cpp and ComandTran/inc/ThreadPool.h: the class `CThreadPool`, the list
-- of tasks that its threads share. Each function is what one thread does while it holds
-- `TaskListLock`; the threads and the signals are in Threads.antt, the names are not modelled.
pub mod Take
pub mod Threads
use cmdtran.Common.{ℕ, Bool, true, false, Option, none, some, List, [], ◌∷◌, ◌++◌, if◌then◌else◌}

-- `get_task_cust` is the function pointer `GetTask_Cust`, which the constructor sets to null.
pub record ThreadPool {ℓ} (T : Type ℓ) : Type ℓ where
  pub running_flag : Bool
  pub task_list : List T
  pub thread_count : ℕ
  pub get_task_cust : Option (T → Bool)

-- What a thread has of `GetTask`: it sleeps on the condition, it leaves because the pool is shut
-- down, it has a task, or it returns with the pointer that was never set.
pub data Task {ℓ} (T : Type ℓ) : Type ℓ where
  sleeps : Task T
  leaves : Task T
  got : T → Task T
  unset : Task T

module _ {ℓ} {T : Type ℓ} where
  unfoldable pub init : ThreadPool T
  init = record { running_flag = true; task_list = []; thread_count = 0; get_task_cust = none }

  -- `InitPool`, with the answers of `pthread_create` that it meets.
  unfoldable pub start_threads : List Bool → ThreadPool T → Bool × ThreadPool T
  start_threads [] p = (true, p)
  start_threads (created ∷ rest) p =
      if created then start_threads rest p else (false, record p { running_flag = false })

  unfoldable pub init_pool : ℕ → List Bool → ThreadPool T → Bool × ThreadPool T
  unfolding start_threads
  init_pool count answers p = start_threads answers (record p { thread_count = count })

  unfoldable pub add_task : T → ThreadPool T → ThreadPool T
  add_task t p = record p { task_list = p.task_list ++ t ∷ [] }

  unfoldable pub add_task_batch : List T → ThreadPool T → ThreadPool T
  unfolding add_task
  add_task_batch [] p = p
  add_task_batch (t ∷ ts) p = add_task_batch ts (add_task t p)

  -- The loop over the list with `GetTask_Cust`: the first task that it accepts, and the others.
  unfoldable pub find_task : (T → Bool) → List T → Option (T × List T)
  find_task test [] = none
  find_task test (t ∷ ts) =
      let rest = find_task test ts in
      if test t then some (t, ts) else elim rest [ none ↦ none | some (u, us) ↦ some (u, t ∷ us) ]

  -- `GetTask` of a pool that runs and has a task.
  unfoldable pub take_task : Option (T → Bool) → T → List T → ThreadPool T → Task T × ThreadPool T
  unfolding find_task
  take_task none t ts p = (got t, record p { task_list = ts })
  take_task (some test) t ts p = elim (find_task test (t ∷ ts)) [
    | none ↦ (unset, p)
    | some (u, us) ↦ (got u, record p { task_list = us })
  ]

  unfoldable pub get_task : ThreadPool T → Task T × ThreadPool T
  unfolding take_task
  get_task p =
      if p.running_flag
      then elim p.task_list [ [] ↦ (sleeps, p) | t ∷ ts ↦ take_task p.get_task_cust t ts p ]
      else (leaves, p)

  unfoldable pub shut_down : ThreadPool T → ThreadPool T
  shut_down p = record p { running_flag = false }
