-- ===== src/MemPool.antt =====
-- ComandTran/src/MemPool.cpp and ComandTran/inc/MemPool.h: the class `CMemPool`, a pool of equal
-- blocks whose free ones wait in a `CLockFreeQueue`. An address is a number above 0; `new` gives
-- addresses that were not given before. Sizes and counts are not negative, as all callers pass
-- them.
pub mod Blocks
pub mod Lending
pub mod History
use cmdtran.Common.{
  ℕ, zero, suc, ◌+◌, Bool, true, false, ◌||◌, Option, none, some, List, [], ◌∷◌, ◌++◌, leb, ◌==◌,
  if◌then◌else◌,
}
use cmdtran.LockFreeQueue.{LockFreeQueue, push, pop}
use cmdtran.LockFreeQueue

abbrev pub grow_count_max : ℕ
grow_count_max = 20

-- `allocated` is the number of blocks that `new` has given, at the addresses 1, 2 and so on.
pub record MemPool : Type 0 where
  pub block_total_count : ℕ
  pub block_size : ℕ
  pub block_count : ℕ
  pub grow_step : ℕ
  pub grow_count : ℕ
  pub created : Bool
  pub unused_block_queue : LockFreeQueue ℕ
  pub allocated : ℕ

-- The constructor; what it leaves unset is 0 here.
unfoldable pub init : (ℕ → ℕ) → MemPool
init garbage = record {
  block_total_count = 0;
  block_size = 0;
  block_count = 0;
  grow_step = 0;
  grow_count = 0;
  created = false;
  unused_block_queue = LockFreeQueue.init garbage;
  allocated = 0;
}

-- One round of the loop in `ExtendPool`: a block that the queue refuses is lost.
abbrev pub add_block : MemPool → MemPool
add_block p = record p {
  unused_block_queue = (push (suc p.allocated) p.unused_block_queue).1;
  allocated = suc p.allocated;
}

unfoldable pub add_blocks : ℕ → MemPool → MemPool
add_blocks zero p = p
add_blocks (suc n) p = add_blocks n (add_block p)

unfoldable pub extend_pool : ℕ → ℕ → MemPool → Bool × MemPool
extend_pool size count p =
    if leb grow_count_max p.grow_count
    then (false, p)
    else (true, add_blocks count (record p { grow_count = p.grow_count + 1 }))

-- `CreatPool` behind its call of `ExtendPool`.
unfoldable pub created_with : Bool × MemPool → Bool × MemPool
created_with (false, p) = (false, p)
created_with (true, p) =
    (true, record p { block_total_count = p.block_total_count + p.block_count; created = true })

unfoldable pub creat_pool : ℕ → ℕ → ℕ → MemPool → Bool × MemPool
unfolding extend_pool created_with
creat_pool size count step p =
    let p' : MemPool = record p { block_size = size; block_count = count; grow_step = step } in
    if size == 0 || count == 0 || p'.created
    then (false, p')
    else created_with (extend_pool size count p')

-- The end of `GetBlock`: what `Pop` gives.
unfoldable pub take_block : MemPool → Option ℕ × MemPool
take_block p =
    let (block, queue) = pop p.unused_block_queue in
    (block, record p { unused_block_queue = queue })

-- `GetBlock` behind its call of `ExtendPool`.
unfoldable pub take_extended : Bool × MemPool → Option ℕ × MemPool
unfolding take_block
take_extended (false, p) = (none, p)
take_extended (true, p) =
    take_block (record p { block_total_count = p.block_total_count + p.grow_step })

unfoldable pub get_block : MemPool → Option ℕ × MemPool
unfolding extend_pool take_extended take_block
get_block p =
    if LockFreeQueue.is_empty p.unused_block_queue
    then take_extended (extend_pool p.block_size p.grow_step p)
    else take_block p

unfoldable pub free_block : ℕ → MemPool → Bool × MemPool
free_block addr p =
    let (done, queue) = push addr p.unused_block_queue in
    (done, record p { unused_block_queue = queue })

-- The loop of `FreeMem`, with the blocks that it deletes; `none` means that the fuel ran out.
unfoldable pub free_mem : ℕ → List ℕ → MemPool → Option (List ℕ × MemPool)
free_mem zero deleted p = none
free_mem (suc fuel) deleted p = elim (LockFreeQueue.is_empty p.unused_block_queue) [
  | true ↦ some (deleted, p)
  | false ↦
      let (block, p') = take_block p in
      elim block [ none ↦ free_mem fuel deleted p' | some b ↦ free_mem fuel (deleted ++ b ∷ []) p' ]
]
