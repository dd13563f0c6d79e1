-- ===== src/MasterWorkPool.antt =====
-- ComandTran/src/MasterWorkPool.cpp and ComandTran/inc/MasterWorkPool.h: the class
-- `CMasterWorkPool`, a number of workers, each a `CThreadPool` with one thread. A task goes to the
-- worker of its id, for the callers a socket, which is not negative. `none` is the end of the
-- program: a division by 0, or a read through the end of the map.
pub mod Order
pub mod Runs
use cmdtran.Common.{
  ℕ, zero, suc, ◌%◌, Bool, true, Option, none, some, List, [], ◌∷◌, map, get_elem?, set, replicate,
  ◌==◌, if◌then◌else◌,
}
use cmdtran.ThreadPool.{ThreadPool}
use cmdtran.ThreadPool

-- The workers stand at the keys 0, 1 and so on of `m_ThreadMap`.
pub record MasterWorkPool {ℓ} (T : Type ℓ) : Type ℓ where
  pub worker_count : ℕ
  pub thread_map : List (ThreadPool T)

module _ {ℓ} {T : Type ℓ} where
  unfoldable pub init : MasterWorkPool T
  init = record { worker_count = 0; thread_map = [] }

  -- A worker, with the answer of `pthread_create` for its one thread. The result of its `InitPool`
  -- is not used.
  abbrev pub worker : Bool → ThreadPool T
  worker created = (ThreadPool.init_pool 1 (created ∷ []) ThreadPool.init).1

  -- The workers from number `i` on, with the answers for all of them.
  unfoldable pub new_workers : (created : ℕ → Bool) → ℕ → ℕ → List (ThreadPool T)
  new_workers created i zero = []
  new_workers created i (suc count) = worker (created i) ∷ new_workers created (suc i) count

  unfoldable pub init_pool : ℕ → (created : ℕ → Bool) → MasterWorkPool T → MasterWorkPool T
  unfolding new_workers
  init_pool count created p = record {
    worker_count = count;
    thread_map = new_workers created 0 count;
  }

  -- A call to the worker of an id.
  unfoldable pub at_worker :
      (ThreadPool T → ThreadPool T) → ℕ → MasterWorkPool T → Option (MasterWorkPool T)
  at_worker f id p =
      if p.worker_count == 0 then none else elim (get_elem? p.thread_map (id % p.worker_count)) [
        | none ↦ none
        | some w ↦ some (record p { thread_map = set p.thread_map (id % p.worker_count) (f w) })
      ]

  unfoldable pub add_task : ℕ → T → MasterWorkPool T → Option (MasterWorkPool T)
  unfolding at_worker
  add_task id t p = at_worker (ThreadPool.add_task t) id p

  unfoldable pub add_task_batch : ℕ → List T → MasterWorkPool T → Option (MasterWorkPool T)
  unfolding at_worker
  add_task_batch id ts p = at_worker (ThreadPool.add_task_batch ts) id p

  unfoldable pub shut_down : MasterWorkPool T → MasterWorkPool T
  shut_down p = record p { thread_map = map ThreadPool.shut_down p.thread_map }
