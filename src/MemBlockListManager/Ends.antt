-- ===== src/MemBlockListManager/Ends.antt =====
-- `PushHead`, `PushTrail` and `GetBlockHead` against the list of the blocks.
use cmdtran.Common.{
  ℕ, ◌≡◌, ◌≢◌, refl, sym, true, false, Option, none, some, [], ◌∷◌, ◌++◌, arith, ◌∙◌,
}
use cmdtran.MemBlockListManager.{
  MemBlock, MemBlockListManager, put, push_head, push_trail, get_block_head,
}
use cmdtran.MemBlockListManager.Nodes.{
  Nodes, last_of, has, Distinct, Linked, IsList, Linked-put, has-ne, put_ne, has-last_of,
}

has-append :
    (p a : ℕ) (b : Option ℕ) (xs : Nodes)
    → p ≢ a
    → has p xs ≡ false
    → has p (xs ++ (a, b) ∷ []) ≡ false
has-append p a b [] ne out = ground arith
has-append p a b ((c, d) ∷ xs) ne out = ground (arith, has-append p a b xs ne)

Distinct-append :
    (a : ℕ) (b : Option ℕ) (xs : Nodes)
    → has a xs ≡ false
    → Distinct xs
    → Distinct (xs ++ (a, b) ∷ [])
Distinct-append a b [] out d = (refl, tt)
Distinct-append a b ((c, e) ∷ xs) out d =
    (has-append c a b xs (ground arith) d.0, Distinct-append a b xs (ground arith) d.1)

-- `PushHead` of a block that is not in the list puts it before the others.
pub push_head_lem :
    (m : MemBlockListManager) (xs : Nodes) (a : ℕ) (b : MemBlock)
    → IsList m xs
    → m.heap a ≡ some b
    → has a xs ≡ false
    → (m' : MemBlockListManager) × (push_head (some a) m ≡ some (true, m'))
      × IsList m' ((a, b.block) ∷ xs)
unfolding push_head
push_head_lem m [] a b is there out = (
  record m {
    heap = put m.heap a (record b { next = none });
    list_head = some a;
    list_trail = some a;
  },
  ground arith,
  ground arith,
)
push_head_lem m ((c, d) ∷ xs) a b is there out = (
  record m { heap = put m.heap a (record b { next = some c }); list_head = some a },
  ground arith,
  ground (arith, Linked-put m.heap a (record b { next = some c }) ((c, d) ∷ xs)),
)

-- `GetBlockHead` of a list that is not empty returns its first block and takes it off.
pub get_block_head_lem :
    (m : MemBlockListManager) (a : ℕ) (b : Option ℕ) (xs : Nodes)
    → IsList m ((a, b) ∷ xs)
    → (m' : MemBlockListManager) × (get_block_head m ≡ some (some a, m')) × IsList m' xs
unfolding get_block_head
get_block_head_lem m a b [] is =
    (record m { list_head = none; list_trail = none }, ground arith, ground arith)
get_block_head_lem m a b ((c, d) ∷ xs) is =
    (record m { list_head = some c }, ground arith, ground arith)

last_of-append : (c a : ℕ) (b : Option ℕ) (xs : Nodes) → last_of c (xs ++ (a, b) ∷ []) ≡ a
last_of-append c a b [] = refl
last_of-append c a b ((d, e) ∷ xs) = last_of-append d a b xs

-- The list with a block behind its last one.
join-Linked :
    (heap : ℕ → Option MemBlock) (a : ℕ) (b : MemBlock) (c : ℕ) (d : Option ℕ) (xs : Nodes)
    → heap a ≡ some b
    → has a ((c, d) ∷ xs) ≡ false
    → Distinct ((c, d) ∷ xs)
    → Linked heap ((c, d) ∷ xs)
    → (k : MemBlock) × (heap (last_of c xs) ≡ some k)
      × Linked
          (put (put heap (last_of c xs) (record k { next = some a })) a (record b { next = none }))
          (((c, d) ∷ xs) ++ (a, b.block) ∷ [])
join-Linked heap a b c d [] there out dis l = (record { next = none; block = d }, l.0, ground arith)
join-Linked heap a b c d ((e, f) ∷ xs) there out dis l =
    let (k, found, rest) =
      join-Linked heap a b e f xs there (has-ne a c d ((e, f) ∷ xs) out).2 dis.1 l.1 in
    (
      k,
      found,
      (
        put_ne (put heap (last_of e xs) (record k { next = some a })) a c (record b { next = none })
              (has-ne a c d ((e, f) ∷ xs) out).0
            ∙ put_ne heap (last_of e xs) c (record k { next = some a })
                (λ s. has-last_of c e f xs dis.0 (sym s))
            ∙ l.0,
        rest,
      ),
    )

-- `PushTrail` of a block that is not in the list, on a list in order, returns true and leaves the
-- list in order with the block behind the others.
pub push_trail_lem :
    (m : MemBlockListManager) (xs : Nodes) (a : ℕ) (b : MemBlock)
    → IsList m xs
    → m.heap a ≡ some b
    → has a xs ≡ false
    → (m' : MemBlockListManager) × (push_trail (some a) m ≡ some (true, m'))
      × IsList m' (xs ++ (a, b.block) ∷ [])
unfolding push_trail
push_trail_lem m [] a b is there out = (
  record m {
    heap = put m.heap a (record b { next = none });
    list_head = some a;
    list_trail = some a;
  },
  ground arith,
  ground arith,
)
push_trail_lem m ((c, d) ∷ xs) a b is there out =
    let (k, found, linked) = join-Linked m.heap a b c d xs there out is.distinct is.linked in
    (
      record m {
        heap =
            put (put m.heap (last_of c xs) (record k { next = some a })) a
              (record b { next = none });
        list_trail = some a;
      },
      rw
          (
            is.trail,
            push_trail,
            found,
            put_ne m.heap (last_of c xs) a (record k { next = some a })
                (λ e. has-last_of a c d xs out (sym e)),
            there,
          )
          refl,
      record {
        linked = linked;
        distinct = Distinct-append a b.block ((c, d) ∷ xs) out is.distinct;
        head = is.head;
        trail = ground (arith, last_of-append c a b.block xs);
      },
    )
