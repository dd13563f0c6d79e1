-- ===== src/MemPool/Blocks.antt =====
-- What `ExtendPool` of `CMemPool` does to the free blocks and to the number of blocks.
use mathlib.Core.List.{Perm, perm_middle}
use mathlib.Core.List.Perm
use cmdtran.Common.{ℕ, zero, suc, ◌+◌, ◌<◌, ◌≡◌, refl, List, [], ◌∷◌, ◌++◌, arith, append_assoc}
use cmdtran.LockFreeQueue.Window.{safe_len}
use cmdtran.LockFreeQueue.Fifo.{contents, push_lem, pop_lem, pop-empty, init-IsValid}
use cmdtran.LockFreeQueue.Fifo
use cmdtran.MemPool.{MemPool, add_block, add_blocks}

-- All addresses that `new` has given.
abbrev pub addresses : ℕ → List ℕ
addresses zero = []
addresses (suc n) = suc n ∷ addresses n

abbrev pub free_blocks : MemPool → List ℕ
free_blocks p = contents p.unused_block_queue

-- Each block is free or lent, once, for the blocks `lent` that a client holds.
abbrev pub Accounts : MemPool → List ℕ → Type 0
Accounts p lent = Perm (free_blocks p ++ lent) (addresses p.allocated)

add_block-Accounts :
    (p : MemPool) (lent : List ℕ)
    → Fifo.IsValid p.unused_block_queue
    → p.unused_block_queue.size + 1 < safe_len
    → Accounts p lent
    → Accounts (add_block p) lent
add_block-Accounts p lent v h a =
    let (_, e, _, _) = push_lem (suc p.allocated) p.unused_block_queue v h in
    rw (e, append_assoc (free_blocks p) (suc p.allocated ∷ []) lent)
      (Perm.trans (perm_middle (free_blocks p) lent) (Perm.cons (suc p.allocated) a))

-- The blocks that a round of `ExtendPool` adds, with a bound on the queue.
pub record Added (p p' : MemPool) (n : ℕ) (lent : List ℕ) : Type 0 where
  pub queue : Fifo.IsValid p'.unused_block_queue
  pub size : p'.unused_block_queue.size ≡ p.unused_block_queue.size + n
  pub allocated : p'.allocated ≡ p.allocated + n
  pub accounts : Accounts p' lent
  pub same :
      (p'.block_total_count ≡ p.block_total_count)
      × (p'.block_count ≡ p.block_count)
      × (p'.grow_step ≡ p.grow_step)
      × (p'.grow_count ≡ p.grow_count)
      × (p'.created ≡ p.created)
      × (p'.block_size ≡ p.block_size)

pub add_blocks-Added :
    (n : ℕ) (p : MemPool) (lent : List ℕ)
    → Fifo.IsValid p.unused_block_queue
    → p.unused_block_queue.size + n < safe_len
    → Accounts p lent
    → Added p (add_blocks n p) n lent
unfolding add_blocks
add_blocks-Added zero p lent v h a = record {
  queue = v;
  size = omega arith;
  allocated = omega arith;
  accounts = a;
  same = (refl, refl, refl, refl, refl, refl);
}
add_blocks-Added (suc n) p lent v h a =
    let (_, _, size, v') = push_lem (suc p.allocated) p.unused_block_queue v (omega arith) in
    let more : Added (add_block p) (add_blocks n (add_block p)) n lent =
      add_blocks-Added n (add_block p) lent v' (omega arith)
        (add_block-Accounts p lent v (omega arith) a) in
    record {
      queue = more.queue;
      size = omega (arith, more.size, size);
      allocated = omega (arith, more.allocated);
      accounts = more.accounts;
      same = more.same;
    }
