-- ===== src/MemPool/Lending.antt =====
-- A created `CMemPool` and its client, which blocks are lent to and which gives them back.
use mathlib.Core.List.{perm_middle}
use mathlib.Core.List.Perm
use cmdtran.Common.{
  ℕ, ◌+◌, ◌*◌, ◌≤◌, ◌<◌, ◌≡◌, ◌∙◌, true, false, ◌⊎◌, inl, inr, Option, none, some, List, [], ◌∷◌,
  ◌++◌, leb, arith, length, append_assoc, Bool-cases, ==→eq, ==→ne, leb→le, leb→lt, ℕ_discrete,
  length-append,
}
use cmdtran.LockFreeQueue.{LockFreeQueue, push, pop}
use cmdtran.LockFreeQueue
use cmdtran.LockFreeQueue.Window.{safe_len}
use cmdtran.LockFreeQueue.Fifo.{contents, push_lem, pop_lem, pop-empty, init-IsValid}
use cmdtran.LockFreeQueue.Fifo
use cmdtran.MemPool.{
  MemPool, grow_count_max, add_blocks, extend_pool, take_block, take_extended, get_block,
  free_block,
}
use cmdtran.MemPool.Blocks.{Accounts, free_blocks, Added, add_blocks-Added}

-- A created pool whose client holds the blocks `lent`. The last field is what the sizes that it was
-- created with must meet, so that the queue holds all blocks.
pub record IsValid (p : MemPool) (lent : List ℕ) : Type 0 where
  pub queue : Fifo.IsValid p.unused_block_queue
  pub accounts : Accounts p lent
  pub all : p.unused_block_queue.size + length lent ≡ p.allocated
  pub counted : p.block_total_count ≡ p.allocated
  pub grown : p.allocated + p.grow_step ≡ p.block_count + p.grow_count * p.grow_step
  pub some_growth : 0 < p.grow_count
  pub growth : p.grow_count ≤ grow_count_max
  pub created : p.created ≡ true
  pub room : p.block_count + grow_count_max * p.grow_step < safe_len

pub empty_iff : (q : LockFreeQueue ℕ) → LockFreeQueue.is_empty q ≡ true → q.size ≡ 0
unfolding LockFreeQueue.is_empty
empty_iff q e = ==→eq q.size 0 e

pub not_empty : (q : LockFreeQueue ℕ) → LockFreeQueue.is_empty q ≡ false → 0 < q.size
unfolding LockFreeQueue.is_empty
not_empty q e = omega (arith, ==→ne q.size 0 e)

pub mul_bound : (g s : ℕ) → g ≤ 20 → g * s ≤ 20 * s
mul_bound g s h = grind arith

-- `GetBlock` extends a pool by one step at most, within the bound.
pub allocated-lt : (p : MemPool) (lent : List ℕ) → IsValid p lent → p.allocated < safe_len
allocated-lt p lent v = omega (arith, mul_bound p.grow_count p.grow_step v.growth)

-- What `GetBlock` has done: it has lent a block, or all 19 extensions are used up.
abbrev pub Got : Option ℕ × MemPool → List ℕ → Type 0
Got (some b, p) lent = IsValid p (b ∷ lent)
Got (none, p) lent =
    IsValid p lent
    × (p.unused_block_queue.size ≡ 0)
    × ((p.grow_count ≡ grow_count_max) ⊎ (p.grow_step ≡ 0))

take_block-some :
    (p : MemPool) (lent : List ℕ)
    → IsValid p lent
    → 0 < p.unused_block_queue.size
    → Got (take_block p) lent
unfolding take_block
take_block-some p lent v h =
    let (b, e, c, n, q) = pop_lem p.unused_block_queue v.queue h in
    rw e (record {
      queue = q;
      accounts =
          Perm.trans (perm_middle (contents (pop p.unused_block_queue).1) lent)
            (rw c at v.accounts);
      all = omega arith;
      counted = v.counted;
      grown = v.grown;
      some_growth = v.some_growth;
      growth = v.growth;
      created = v.created;
      room = v.room;
    })

take_block-none :
    (p : MemPool) (lent : List ℕ)
    → IsValid p lent
    → p.unused_block_queue.size ≡ 0
    → p.grow_step ≡ 0
    → Got (take_block p) lent
unfolding take_block
take_block-none p lent v e s = rw (pop-empty p.unused_block_queue v.queue e) (v, e, inr s)

-- A pool without free blocks after one extension.
extended-IsValid :
    (p p' : MemPool) (lent : List ℕ)
    → IsValid p lent
    → p.grow_count < grow_count_max
    → p.unused_block_queue.size ≡ 0
    → Added (record p { grow_count = p.grow_count + 1 }) p' p.grow_step lent
    → IsValid (record p' { block_total_count = p'.block_total_count + p'.grow_step }) lent
extended-IsValid p p' lent v h z a = record {
  queue = a.queue;
  accounts = a.accounts;
  all = omega (arith, a.size, a.allocated);
  counted = omega (arith, a.allocated, a.same.0, a.same.2);
  grown = rw (a.same.3, a.same.2, a.same.1, a.allocated) (omega (arith, v.grown));
  some_growth = omega (arith, a.same.3);
  growth = omega (arith, a.same.3);
  created = a.same.4 ∙ v.created;
  room = omega (arith, a.same.1, a.same.2);
}

take_block-empty :
    (p : MemPool) (lent : List ℕ)
    → IsValid p lent
    → p.unused_block_queue.size ≡ p.grow_step
    → Got (take_block p) lent
take_block-empty p lent v e = elim (ℕ_discrete p.grow_step 0) [
  | yes z ↦ take_block-none p lent v (e ∙ z) z
  | no nz ↦ take_block-some p lent v (omega arith)
]

extend_lem :
    (p : MemPool) (lent : List ℕ)
    → IsValid p lent
    → p.unused_block_queue.size ≡ 0
    → Got (take_extended (extend_pool p.block_size p.grow_step p)) lent
unfolding extend_pool take_extended
extend_lem p lent v z = elim (Bool-cases (leb grow_count_max p.grow_count)) [
  | inl full ↦ rw full (v, z, inl (omega (arith, leb→le grow_count_max p.grow_count full)))
  | inr more ↦
      let p₁ : MemPool = record p { grow_count = p.grow_count + 1 } in
      let a : Added p₁ (add_blocks p.grow_step p₁) p.grow_step lent =
        add_blocks-Added p.grow_step p₁ lent v.queue (omega (arith, v.room)) v.accounts in
      rw more (
        take_block-empty _ lent
          (extended-IsValid p (add_blocks p.grow_step p₁) lent v
            (leb→lt grow_count_max p.grow_count more) z a)
          (omega (arith, a.size, a.same.2)))
]

-- `GetBlock` of a valid pool lends a block beside those lent before and keeps the pool valid, or
-- it gives none, with the pool valid, no block free, and its growth used up or its step 0.
pub get_block_lem : (p : MemPool) (lent : List ℕ) → IsValid p lent → Got (get_block p) lent
unfolding get_block
get_block_lem p lent v = elim (Bool-cases (LockFreeQueue.is_empty p.unused_block_queue)) [
  | inl none_free ↦ rw none_free (extend_lem p lent v (empty_iff p.unused_block_queue none_free))
  | inr free ↦ rw free (take_block-some p lent v (not_empty p.unused_block_queue free))
]

-- `FreeBlock` of a block that is lent by a valid pool succeeds, puts it behind the free ones, and
-- leaves the pool valid with the other lent blocks.
pub free_block_lem :
    (p : MemPool) (b : ℕ) (xs ys : List ℕ)
    → IsValid p (xs ++ b ∷ ys)
    → ((free_block b p).0 ≡ true)
      × (free_blocks (free_block b p).1 ≡ free_blocks p ++ b ∷ [])
      × IsValid (free_block b p).1 (xs ++ ys)
unfolding free_block
free_block_lem p b xs ys v =
    let (done, c, n, q) =
      push_lem b p.unused_block_queue v.queue
        (omega (arith, allocated-lt p (xs ++ b ∷ ys) v, v.all, length-append xs (b ∷ ys))) in
    (
      done,
      c,
      record {
        queue = q;
        accounts =
            rw (c, append_assoc (free_blocks p) (b ∷ []) (xs ++ ys))
              (Perm.trans (Perm.append_left (free_blocks p) (Perm.symm (perm_middle xs ys)))
                v.accounts);
        all = omega (arith, n, v.all, length-append xs (b ∷ ys), length-append xs ys);
        counted = v.counted;
        grown = v.grown;
        some_growth = v.some_growth;
        growth = v.growth;
        created = v.created;
        room = v.room;
      },
    )
