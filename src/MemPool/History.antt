-- ===== src/MemPool/History.antt =====
-- The life of a `CMemPool`: its creation, any use of it, and its end.
use mathlib.Core.List.{Perm, Nodup, Nodup-cons, Nodup-nil, Mem, mem-cons, not-mem-nil}
use mathlib.Core.List.Perm
use mathlib.Core.Logic.Or
use cmdtran.Common.{
  ℕ, zero, suc, ◌+◌, ◌*◌, ◌≤◌, ◌<◌, ◌≡◌, ◌≢◌, refl, ap, ◌∙◌, true, inl, inr, Option, none, some,
  List, [], ◌∷◌, ◌++◌, arith, append_assoc, append-nil, Bool-cases, ne→==, subst,
}
use cmdtran.LockFreeQueue.{pop}
use cmdtran.LockFreeQueue
use cmdtran.LockFreeQueue.Window.{safe_len}
use cmdtran.LockFreeQueue.Fifo.{contents, pop_lem, init-IsValid}
use cmdtran.LockFreeQueue.Fifo
use cmdtran.MemPool.{
  MemPool, grow_count_max, init, add_blocks, creat_pool, add_block, take_block, get_block,
  free_block, free_mem,
}
use cmdtran.MemPool.Blocks.{free_blocks, addresses, Added, add_blocks-Added}
use cmdtran.MemPool.Lending.{
  IsValid, Got, mul_bound, get_block_lem, free_block_lem, empty_iff, not_empty,
}

-- `CreatPool` of a new pool, with a block size and a count above 0 and with growth that the queue
-- has room for, succeeds and leaves a valid pool with nothing lent, as many blocks as asked for,
-- and the count and the step as they were given.
pub creat_pool_lem :
    (size count step : ℕ) (garbage : ℕ → ℕ)
    → 0 < size
    → 0 < count
    → count + grow_count_max * step < safe_len
    → ((creat_pool size count step (init garbage)).0 ≡ true)
      × IsValid (creat_pool size count step (init garbage)).1 []
      × ((creat_pool size count step (init garbage)).1.allocated ≡ count)
      × ((creat_pool size count step (init garbage)).1.block_count ≡ count)
      × ((creat_pool size count step (init garbage)).1.grow_step ≡ step)
unfolding creat_pool init LockFreeQueue.init
creat_pool_lem size count step garbage s c h =
    let nonzero : (size ≢ 0) × (count ≢ 0) = omega arith in
    let p : MemPool = record (init garbage) {
      block_size = size;
      block_count = count;
      grow_step = step;
      grow_count = 1;
    } in
    let a : Added p (add_blocks count p) count [] =
      add_blocks-Added count p [] (init-IsValid garbage).0 (omega arith) (Perm.refl []) in
    rw (ne→== size 0 nonzero.0, ne→== count 0 nonzero.1)
      (
        refl,
        record {
          queue = a.queue;
          accounts = a.accounts;
          all = omega (arith, a.size, a.allocated);
          counted = omega (arith, a.allocated, a.same.0, a.same.1);
          grown = rw (a.same.3, a.same.2, a.same.1, a.allocated) (omega arith);
          some_growth = omega (arith, a.same.3);
          growth = omega (arith, a.same.3);
          created = refl;
          room = omega (arith, a.same.1, a.same.2);
        },
        omega (arith, a.allocated),
        a.same.1,
        a.same.2,
      )

-- A client's call, with the blocks that it holds before and after; it frees what it holds.
pub data Use (p : MemPool) : List ℕ → MemPool → List ℕ → Type 0 where
  gets :
      {lent lent' : List ℕ} {p' : MemPool} (b : ℕ)
      → get_block p ≡ (some b, p')
      → lent' ≡ b ∷ lent
      → Use p lent p' lent'
  runs_out : {lent : List ℕ} {p' : MemPool} → get_block p ≡ (none, p') → Use p lent p' lent
  frees :
      {lent lent' : List ℕ} {p' : MemPool} (b : ℕ) (xs ys : List ℕ)
      → lent ≡ xs ++ b ∷ ys
      → lent' ≡ xs ++ ys
      → p' ≡ (free_block b p).1
      → Use p lent p' lent'

Use-IsValid :
    {p p' : MemPool} {lent lent' : List ℕ} → Use p lent p' lent' → IsValid p lent → IsValid p' lent'
Use-IsValid {p} {p'} {lent} (gets b e f) v =
    rw f (subst (λ r. Got r lent) e (get_block_lem p lent v))
Use-IsValid {p} {p'} {lent} (runs_out e) v = (subst (λ r. Got r lent) e (get_block_lem p lent v)).0
Use-IsValid {p} (frees b xs ys e f g) v = rw (f, g) ((free_block_lem p b xs ys (rw e at v)).2)

pub data Uses (p : MemPool) (lent : List ℕ) : MemPool → List ℕ → Type 0 where
  here : Uses p lent p lent
  next : {q r : MemPool} {xs ys : List ℕ} → Uses p lent q xs → Use q xs r ys → Uses p lent r ys

Uses-IsValid :
    {p : MemPool} {lent : List ℕ} {p' : MemPool} {lent' : List ℕ}
    → Uses p lent p' lent'
    → IsValid p lent
    → IsValid p' lent'
Uses-IsValid here v = v
Uses-IsValid (next u st) v = Use-IsValid st (Uses-IsValid u v)

not-mem-addresses : (n a : ℕ) → n < a → ¬ Mem a (addresses n)
not-mem-addresses zero a h m = not-mem-nil m
not-mem-addresses (suc n) a h m =
    Or.elim (λ x. absurd x) (mem-cons.0 m) (λ e. absurd (omega arith))
      (not-mem-addresses n a (omega arith))

addresses-Nodup : (n : ℕ) → Nodup (addresses n)
addresses-Nodup zero = Nodup-nil
addresses-Nodup (suc n) =
    Nodup-cons.1 (not-mem-addresses n (suc n) (omega arith), addresses-Nodup n)

-- The sizes that a pool was created with do not change.
abbrev SameSizes : MemPool → MemPool → Type 0
SameSizes p p' = (p'.block_count ≡ p.block_count) × (p'.grow_step ≡ p.grow_step)

add_blocks-SameSizes : (n : ℕ) (p : MemPool) → SameSizes p (add_blocks n p)
unfolding add_blocks
add_blocks-SameSizes zero p = (refl, refl)
add_blocks-SameSizes (suc n) p = add_blocks-SameSizes n (add_block p)

get_block-SameSizes : (p : MemPool) → SameSizes p (get_block p).1
unfolding get_block
get_block-SameSizes p =
    ground (arith, add_blocks-SameSizes p.grow_step (record p { grow_count = p.grow_count + 1 }))

Use-SameSizes : {p p' : MemPool} {lent lent' : List ℕ} → Use p lent p' lent' → SameSizes p p'
unfolding free_block
Use-SameSizes {p} (gets b e f) =
    subst (λ (r : Option ℕ × MemPool). SameSizes p r.1) e (get_block-SameSizes p)
Use-SameSizes {p} (runs_out e) =
    subst (λ (r : Option ℕ × MemPool). SameSizes p r.1) e (get_block-SameSizes p)
Use-SameSizes (frees b xs ys e f g) = rw g (refl, refl)

Uses-SameSizes :
    {p : MemPool} {lent : List ℕ} {p' : MemPool} {lent' : List ℕ}
    → Uses p lent p' lent'
    → SameSizes p p'
Uses-SameSizes here = (refl, refl)
Uses-SameSizes (next u st) =
    let (e, f) = Uses-SameSizes u in let (e', f') = Use-SameSizes st in (e' ∙ e, f' ∙ f)

-- After `CreatPool` with a block size and a count above 0 and with growth that the queue has room
-- for, and any calls of `GetBlock` and `FreeBlock` by a client that frees what it holds: the free
-- blocks and those that the client holds are together all blocks that were ever allocated, none of
-- them twice, and there are no more of them than the first lot and 19 extensions.
pub Uses-Nodup :
    (size count step : ℕ) (garbage : ℕ → ℕ) {p : MemPool} {lent : List ℕ}
    → 0 < size
    → 0 < count
    → count + grow_count_max * step < safe_len
    → Uses (creat_pool size count step (init garbage)).1 [] p lent
    → Perm (free_blocks p ++ lent) (addresses p.allocated)
      × Nodup (free_blocks p ++ lent)
      × (p.allocated + step ≤ count + grow_count_max * step)
Uses-Nodup size count step garbage {p} {lent} s c h u =
    let v : IsValid p lent = Uses-IsValid u (creat_pool_lem size count step garbage s c h).1 in
    let (e, f) = Uses-SameSizes u in
    let (_, _, _, e', f') = creat_pool_lem size count step garbage s c h in
    (
      v.accounts,
      Perm.nodup (Perm.symm v.accounts) (addresses-Nodup p.allocated),
      omega (arith, v.grown, mul_bound p.grow_count p.grow_step v.growth, e ∙ e', f ∙ f'),
    )

no_blocks : (p : MemPool) → p.unused_block_queue.size ≡ 0 → free_blocks p ≡ []
no_blocks p z = rw z

-- `FreeMem` of a pool whose queue is valid, with more fuel than there are free blocks, ends,
-- deletes each free block once, oldest first, behind those deleted before, and leaves no free
-- block.
pub free_mem_lem :
    (fuel : ℕ) (deleted : List ℕ) (p : MemPool)
    → Fifo.IsValid p.unused_block_queue
    → p.unused_block_queue.size < fuel
    → (p' : MemPool) × (free_mem fuel deleted p ≡ some (deleted ++ free_blocks p, p'))
      × (p'.unused_block_queue.size ≡ 0)
unfolding free_mem take_block
free_mem_lem zero deleted p v h = absurd (omega arith)
free_mem_lem (suc fuel) deleted p v h =
    elim (Bool-cases (LockFreeQueue.is_empty p.unused_block_queue)) [
      | inl empty ↦
          let z : p.unused_block_queue.size ≡ 0 = empty_iff p.unused_block_queue empty in
          rw (empty, free_mem) (p, rw (no_blocks p z, append-nil), z)
      | inr more ↦
          let (b, e, c, n, q) =
            pop_lem p.unused_block_queue v (not_empty p.unused_block_queue more) in
          let (p', e', z) =
            free_mem_lem fuel (deleted ++ b ∷ []) (take_block p).1 q (omega arith) in
          rw (more, free_mem, e)
            (p', e' ∙ ap (λ (bs : List ℕ). some (bs, p')) (rw (append_assoc, c)), z)
    ]
