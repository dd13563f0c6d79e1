-- ===== src/Tests/Pools.antt =====
-- A queue, a pool of two blocks and a pool of two workers.
use cmdtran.Common.{
  ltb, ℕ, ◌+◌, ◌-◌, ◌*◌, ◌^◌, ◌≤◌, ◌≡◌, refl, true, Option, some, List, [], ◌∷◌, ◌++◌, arith, subst,
}
use cmdtran.MemPool.{MemPool, creat_pool, get_block, free_block}
use cmdtran.MemPool
use cmdtran.MasterWorkPool.{MasterWorkPool}
use cmdtran.MasterWorkPool
use mathlib.Core.List.{Perm, Nodup}
use cmdtran.LockFreeQueue.{LockFreeQueue, push, pop, queue_len, count_to_index}
use cmdtran.LockFreeQueue
use cmdtran.LockFreeQueue.Window.{safe_len}
use cmdtran.LockFreeQueue.Fifo.{push_overwrites}
use cmdtran.MemPool.{
  grow_count_max, free_mem, created_with, add_blocks, extend_pool, take_block, take_extended,
}
use cmdtran.MemPool.Blocks.{free_blocks, addresses}
use cmdtran.MemPool.Lending.{Got, get_block_lem, free_block_lem}
use cmdtran.MemPool.Lending
use cmdtran.MemPool.History.{here, next, gets, creat_pool_lem, Uses-Nodup}
use cmdtran.MasterWorkPool.Order.{waiting}
use cmdtran.MasterWorkPool.Runs.{
  Event, adds, takes, Run, run, taken_by, added_to, worker_of, serve_all, run_order,
}
use cmdtran.ThreadPool.{ThreadPool, get_task}
use cmdtran.ThreadPool.Take.{Given, get_task_lem}
use cmdtran.Tests.{small_pool}

-- A queue with one element.
abbrev empty_queue : LockFreeQueue ℕ
empty_queue = LockFreeQueue.init (λ _. 0)

abbrev one_element : LockFreeQueue ℕ
one_element = (push 5 empty_queue).1

-- 2 ^ 24 + 1 elements wait when the write index wraps.
abbrev wrapped : LockFreeQueue ℕ
wrapped = record {
  cells = λ i. i;
  write_index = 0;
  read_index = 2 ^ 32 - (2 ^ 24 + 1);
  maximum_read_index = 0;
  size = 2 ^ 24 + 1;
}

push_overwrites_example :
    ((push 5 wrapped).0 ≡ true)
    × ((push 5 wrapped).1.read_index ≡ wrapped.read_index)
    × ((push 5 wrapped).1.cells (count_to_index (wrapped.read_index + (wrapped.size - safe_len)))
        ≡ 5)
push_overwrites_example = push_overwrites 5 wrapped refl (omega arith) (omega arith) (omega arith)

small_pool_made :
    let made = creat_pool 1152 2 1 (MemPool.init (λ _. 0)) in
    (made.0 ≡ true)
    × Lending.IsValid made.1 []
    × (made.1.allocated ≡ 2)
    × (made.1.block_count ≡ 2)
    × (made.1.grow_step ≡ 1)
small_pool_made = creat_pool_lem 1152 2 1 (λ _. 0) (omega arith) (omega arith) (omega arith)

pub small_pool-IsValid : Lending.IsValid small_pool []
small_pool-IsValid = small_pool_made.1

small_pool_lends : Got (get_block small_pool) []
small_pool_lends = get_block_lem small_pool [] small_pool-IsValid

-- The pool with its first block lent.
abbrev pub lent_pool : MemPool
lent_pool = (get_block small_pool).1

first_block : get_block small_pool ≡ (some 1, lent_pool)
unfolding get_block creat_pool created_with add_blocks extend_pool take_block take_extended
    MemPool.init LockFreeQueue.init LockFreeQueue.is_empty push pop
first_block = refl

pub lent_pool-IsValid : Lending.IsValid lent_pool (1 ∷ [])
lent_pool-IsValid = subst (λ (r : Option ℕ × MemPool). Got r []) first_block small_pool_lends

Uses-Nodup_example :
    Perm (free_blocks lent_pool ++ 1 ∷ []) (addresses lent_pool.allocated)
    × Nodup (free_blocks lent_pool ++ 1 ∷ [])
    × (lent_pool.allocated + 1 ≤ 2 + grow_count_max * 1)
Uses-Nodup_example =
    Uses-Nodup 1152 2 1 (λ _. 0) (omega arith) (omega arith) (omega arith)
      (next here (gets 1 first_block refl))

-- Two tasks of one worker and one of the other.
abbrev two_workers : List (Event ℕ)
two_workers = adds 3 10 ∷ adds 4 20 ∷ adds 5 30 ∷ takes 1 ∷ []

run_order_example :
    (r : Run ℕ) × (run two_workers
        (record { pool = MasterWorkPool.init_pool 2 (λ _. true) MasterWorkPool.init; taken = [] })
      ≡ some r)
    × ((w : ℕ) → worker_of w r ≡ serve_all 2 w two_workers ([], []))
    × ((w : ℕ) → taken_by w r.taken ++ waiting w r.pool ≡ added_to 2 w two_workers)
run_order_example = run_order 2 (λ _. true) two_workers (omega arith) (λ k h. refl)

-- A pool whose threads take tasks above 15 alone.
abbrev choosy : ThreadPool ℕ
choosy = record {
  running_flag = true;
  task_list = 10 ∷ 20 ∷ 30 ∷ [];
  thread_count = 1;
  get_task_cust = some (ltb 15);
}

get_task_lem_example : Given (ltb 15) choosy.task_list (get_task choosy)
get_task_lem_example = get_task_lem (ltb 15) choosy refl refl
