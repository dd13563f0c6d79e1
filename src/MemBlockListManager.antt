-- ===== src/MemBlockListManager.antt =====
-- ComandTran/src/MemBlockListManager.cpp and ComandTran/inc/MemBlockListManager.h: the class
-- `CMemBlockListManager`, a list of blocks that its callers own. A pointer is a number, `none` is
-- `NULL`; a function that reads or writes through a pointer to no block gives `none`. The log is
-- not modelled.
pub mod Nodes
pub mod Ends
pub mod Delete
use cmdtran.Common.{ℕ, zero, suc, Bool, true, false, Option, none, some, ◌==◌, if◌then◌else◌}

pub record MemBlock : Type 0 where
  pub next : Option ℕ
  pub block : Option ℕ

-- The manager, and the memory that holds the blocks. `m_BlockCount` is never changed.
pub record MemBlockListManager : Type 0 where
  pub heap : ℕ → Option MemBlock
  pub list_head : Option ℕ
  pub list_trail : Option ℕ

unfoldable pub init : (ℕ → Option MemBlock) → MemBlockListManager
init heap = record { heap = heap; list_head = none; list_trail = none }

abbrev pub put : (ℕ → Option MemBlock) → ℕ → MemBlock → ℕ → Option MemBlock
put heap a b p = if p == a then some b else heap p

-- `a->pNext = next`.
unfoldable pub set_next : ℕ → Option ℕ → (ℕ → Option MemBlock) → Option (ℕ → Option MemBlock)
set_next a next heap = elim (heap a) [
  | none ↦ none
  | some b ↦ some (put heap a (record b { next = next }))
]

unfoldable pub push_head : Option ℕ → MemBlockListManager → Option (Bool × MemBlockListManager)
unfolding set_next
push_head none m = some (false, m)
push_head (some a) m = elim m.list_head [
  | none ↦ elim (set_next a none m.heap) [
    | none ↦ none
    | some heap ↦ some (true, record m { heap = heap; list_head = some a; list_trail = some a })
  ]
  | some head ↦ elim (set_next a (some head) m.heap) [
    | none ↦ none
    | some heap ↦ some (true, record m { heap = heap; list_head = some a })
  ]
]

unfoldable pub push_trail : Option ℕ → MemBlockListManager → Option (Bool × MemBlockListManager)
unfolding set_next
push_trail none m = some (false, m)
push_trail (some a) m = elim m.list_trail [
  | none ↦ elim (set_next a none m.heap) [
    | none ↦ none
    | some heap ↦ some (true, record m { heap = heap; list_head = some a; list_trail = some a })
  ]
  | some trail ↦ elim (set_next trail (some a) m.heap) [
    | none ↦ none
    | some joined ↦ elim (set_next a none joined) [
      | none ↦ none
      | some heap ↦ some (true, record m { heap = heap; list_trail = some a })
    ]
  ]
]

unfoldable pub get_block_head : MemBlockListManager → Option (Option ℕ × MemBlockListManager)
get_block_head m = elim m.list_head [
  | none ↦ some (none, m)
  | some a ↦ elim (m.heap a) [
    | none ↦ none
    | some b ↦ elim b.next [
      | none ↦ some (some a, record m { list_head = none; list_trail = none })
      | some next ↦ some (some a, record m { list_head = some next })
    ]
  ]
]

-- `p->pBlock != NULL && p->pBlock == addr`.
abbrev pub holds : Option ℕ → ℕ → Bool
holds none addr = false
holds (some block) addr = block == addr

-- The loop from a block `front` on whose next one is `tmp`: the last `front`, the block that was
-- found and taken out, and the heap. `none` also if the fuel runs out.
unfoldable pub delete_loop :
    ℕ → ℕ → ℕ → Option ℕ → (ℕ → Option MemBlock) → Option (ℕ × Option ℕ × (ℕ → Option MemBlock))
unfolding set_next
delete_loop zero addr front tmp heap = none
delete_loop (suc fuel) addr front none heap = some (front, none, heap)
delete_loop (suc fuel) addr front (some t) heap = elim (heap t) [
  | none ↦ none
  | some b ↦
      let rest = delete_loop fuel addr t b.next heap in
      if holds b.block addr
      then elim (set_next front b.next heap) [ none ↦ none | some out ↦ some (front, some t, out) ]
      else rest
]

abbrev pub same : Option ℕ → Option ℕ → Bool
same none none = true
same (some a) (some b) = a == b
same _ _ = false

-- The end of `DeletBlockWithAddr`: `pListTrail` moves if the block that was found is the last one.
abbrev pub close_up : Option ℕ → Option ℕ → MemBlockListManager → Option ℕ × MemBlockListManager
close_up front tmp m =
    (tmp, record m { list_trail = if same tmp m.list_trail then front else m.list_trail })

unfoldable pub delete_block_with_addr :
    ℕ → Option ℕ → MemBlockListManager → Option (Option ℕ × MemBlockListManager)
unfolding delete_loop
delete_block_with_addr fuel none m = some (none, m)
delete_block_with_addr fuel (some addr) m = elim m.list_head [
  | none ↦ some (none, m)
  | some head ↦ elim (m.heap head) [
    | none ↦ none
    | some b ↦
        if holds b.block addr
        then some (close_up none (some head) (record m { list_head = b.next }))
        else elim (delete_loop fuel addr head b.next m.heap) [
          | none ↦ none
          | some (front, tmp, heap) ↦ some (close_up (some front) tmp (record m { heap = heap }))
        ]
  ]
]

unfoldable pub is_empty : MemBlockListManager → Bool
is_empty m = elim m.list_head [ none ↦ true | some a ↦ false ]
