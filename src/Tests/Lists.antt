-- ===== src/Tests/Lists.antt =====
-- A list of three blocks of `CMemBlockListManager`, and the threads of a `CThreadPool`.
use cmdtran.Common.{
  ℕ, ◌<◌, ◌≡◌, ◌≢◌, refl, true, false, ◌⊎◌, Option, none, some, [], ◌∷◌, arith, ◌==◌, if◌then◌else◌,
}
use cmdtran.MemBlockListManager.{MemBlock, MemBlockListManager, delete_block_with_addr}
use cmdtran.MemBlockListManager.Nodes.{Nodes, IsList, find, remove}
use cmdtran.MemBlockListManager.Delete.{delete_block_with_addr_lem}
use cmdtran.ThreadPool.{ThreadPool}
use cmdtran.ThreadPool
use cmdtran.ThreadPool.Threads.{sleeping, wild, System, add, Reach, start, later, started}
use cmdtran.ThreadPool.Threads.Awake.{has_lock, awake}
use cmdtran.ThreadPool.Threads.Live.{reach-lively}
use cmdtran.ThreadPool.Threads.Wakeup.{Alone, lost_wakeup}

-- The blocks 1, 2 and 3, with memory at 10, 20 and 30; 4 is no block of the list.
abbrev heap : ℕ → Option MemBlock
heap p =
    if p == 1
    then some (record { next = some 2; block = some 10 })
    else if p == 2
    then some (record { next = some 3; block = some 20 })
    else if p == 3
    then some (record { next = none; block = some 30 })
    else some (record { next = some 1; block = some 40 })

abbrev nodes : Nodes
nodes = (1, some 10) ∷ (2, some 20) ∷ (3, some 30) ∷ []

abbrev three : MemBlockListManager
three = record { heap = heap; list_head = some 1; list_trail = some 3 }

three-IsList : IsList three nodes
three-IsList = record {
  linked = (refl, (refl, (refl, tt)));
  distinct = (refl, (refl, (refl, tt)));
  head = refl;
  trail = refl;
}

-- The last block is taken out, and the list ends at the one before it.
delete_last :
    (m' : MemBlockListManager) × (delete_block_with_addr 3 (some 30) three ≡ some (some 3, m'))
    × (m'.list_trail ≡ some 2)
unfolding delete_block_with_addr
delete_last = (_, refl, refl)

delete_block_with_addr_lem_example :
    (m' : MemBlockListManager) × (delete_block_with_addr 3 (some 20) three
      ≡ some (find 20 nodes, m'))
    × IsList m' (remove 20 nodes)
delete_block_with_addr_lem_example =
    delete_block_with_addr_lem 3 20 three nodes three-IsList (omega arith)

-- A pool with one task, whose signal is still to come.
abbrev new_pool : ThreadPool ℕ
new_pool = ThreadPool.init

abbrev one_task : System ℕ
one_task = record (started new_pool) { pool = ThreadPool.add_task 5 new_pool; signals = 1 }

reach_one_task : Reach 2 new_pool one_task
unfolding started
reach_one_task = later start (add 5 refl)

one_task_runs : one_task.pool.running_flag ≡ true
unfolding ThreadPool.add_task ThreadPool.init
one_task_runs = refl

plain_pool : new_pool.get_task_cust ≡ none
unfolding ThreadPool.init
plain_pool = refl

reach-lively_example :
    ((i j : ℕ) → has_lock (one_task.pc i) ≡ true → has_lock (one_task.pc j) ≡ true → i ≡ j)
    × ((i : ℕ) → one_task.pc i ≢ wild)
    × (one_task.pool.running_flag ≡ true
        → one_task.pool.task_list ≢ []
        → (0 < one_task.signals) ⊎ ((i : ℕ) × (i < 2) × (awake (one_task.pc i) ≡ true)))
reach-lively_example = reach-lively (omega arith) plain_pool reach_one_task

new_pool_empty : new_pool.task_list ≡ []
unfolding ThreadPool.init
new_pool_empty = refl

new_pool_runs : new_pool.running_flag ≡ true
unfolding ThreadPool.init
new_pool_runs = refl

lost_wakeup_example :
    (s : System ℕ) × Reach 2 new_pool s
    × (s.pool.running_flag ≡ false)
    × (s.stopped ≡ true)
    × (s.signals ≡ 0)
    × ((t : System ℕ) → Alone 2 s t → t.pc 0 ≡ sleeping)
lost_wakeup_example = lost_wakeup 2 new_pool (omega arith) new_pool_runs new_pool_empty
