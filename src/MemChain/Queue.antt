-- ===== src/MemChain/Queue.antt =====
-- `Push` and `DeleteHead` of `CMemChain` against the list of its nodes.
use cmdtran.Common.{
  ℕ, suc, ◌+◌, ◌≡◌, refl, sym, none, some, List, [], ◌∷◌, ◌++◌, length, ne→==, eq→==, arith, Bool,
  true, false, ◌∙◌, ap, length-append,
}
use cmdtran.Common.Int.{ℤ, pos, add_ℕ, pred_ℤ}
use cmdtran.MemChain.{
  MemNode, MemChain, put, new_node, with_new, link, push, delete_only, delete_front, delete_first,
  delete_head, release,
}
use cmdtran.MemChain.Linked.{
  last_of, IsChain, put_self, Rising-le, put-below, put-above, last_of-bounds, Rising-append,
  last_of-append, append-Linked,
}

add_one : (n : ℕ) → add_ℕ (pos n) 1 ≡ pos (n + 1)
add_one n = ground arith

pub pred_suc : (n : ℕ) → pred_ℤ (pos (suc n)) ≡ pos n
pred_suc n = ground arith

-- `Push` of a buffer to a chain succeeds and puts a node with it behind the others.
pub push-IsChain :
    (c : MemChain) (xs : List (ℕ × MemNode)) (buffer len : ℕ) (back : Bool)
    → IsChain c xs
    → (c' : MemChain) × (push (some buffer) len back c ≡ some (true, c'))
      × IsChain c' (xs ++ (c.unused, new_node buffer len back) ∷ [])
unfolding push link
push-IsChain c [] buffer len back v = (
  record (with_new (new_node buffer len back) c) {
    chain_head = some c.unused;
    chain_end = some c.unused;
    size = add_ℕ c.size 1;
  },
  rw (v.head, v.end) refl,
  record {
    linked = (put_self c.heap c.unused _, tt);
    rising = (omega arith, omega arith, tt);
    head = refl;
    end = refl;
    size = ap (λ (z : ℤ). add_ℕ z 1) v.size;
  },
)
push-IsChain c ((a, m) ∷ xs) buffer len back v =
    let c' = with_new (new_node buffer len back) c in
    let (k, found, joined) =
      append-Linked c'.heap 0 c.unused (new_node buffer len back) a m xs v.rising
        (put-above c.heap c.unused 0 c.unused _ ((a, m) ∷ xs) (omega arith) v.rising v.linked)
        (put_self c.heap c.unused _) in
    (
      record c' {
        heap = put c'.heap (last_of a xs) (some (record k { next = some c.unused }));
        chain_end = some c.unused;
        size = add_ℕ c.size 1;
      },
      rw (v.head, v.end, found) refl,
      record {
        linked = joined;
        rising =
            Rising-append 0 c.unused c.unused _ ((a, m) ∷ xs) v.rising (omega arith) (omega arith);
        head = v.head;
        end = ap some (sym (last_of-append c.unused a _ xs));
        size =
            ap (λ (z : ℤ). add_ℕ z 1) v.size
            ∙ add_one (length ((a, m) ∷ xs))
            ∙ ap pos
                (sym (length-append ((a, m) ∷ xs) ((c.unused, new_node buffer len back) ∷ [])));
      },
    )

-- `DeleteHead` of a chain with a node succeeds, takes the oldest node off and deletes it.
pub delete_head-IsChain :
    (c : MemChain) (a : ℕ) (n : MemNode) (xs : List (ℕ × MemNode))
    → IsChain c ((a, n) ∷ xs)
    → (c' : MemChain) × (delete_head c ≡ some (true, c'))
      × IsChain c' xs
      × (c'.heap a ≡ none)
      × (c'.unused ≡ c.unused)
unfolding delete_head delete_first delete_only delete_front
delete_head-IsChain c a n [] v = (
  delete_only a c,
  rw (v.head, v.end, eq→== a a refl) refl,
  record {
    linked = tt;
    rising = tt;
    head = refl;
    end = refl;
    size = ap pred_ℤ v.size ∙ pred_suc 0;
  },
  put_self c.heap a none,
  refl,
)
delete_head-IsChain c a n ((b, m) ∷ xs) v =
    let others = last_of-bounds (suc a) c.unused b m xs v.rising.2 in
    (
      record c { heap = release c.heap a; chain_head = some b; size = pred_ℤ c.size },
      rw
          (
            v.head,
            v.end,
            ne→== a (last_of b xs) (λ e. absurd (omega (arith, others.0, v.rising.2.0))),
            v.linked.0,
          )
          refl,
      record {
        linked =
            put-below c.heap a (suc a) c.unused none ((b, m) ∷ xs) (omega arith) v.rising.2
              v.linked.1;
        rising =
            Rising-le (suc a) 0 c.unused c.unused ((b, m) ∷ xs) (omega arith) (omega arith)
              v.rising.2;
        head = refl;
        end = v.end;
        size = ap pred_ℤ v.size ∙ pred_suc (suc (length xs));
      },
      put_self c.heap a none,
      refl,
    )

-- A chain without nodes stays as it is.
pub delete_head-empty : (c : MemChain) → IsChain c [] → delete_head c ≡ some (false, c)
unfolding delete_head delete_first
delete_head-empty c v = rw (v.head) refl
