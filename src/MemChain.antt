-- ===== src/MemChain.antt =====
-- ComandTran/src/MemChain.cpp and ComandTran/inc/MemChain.h: the class `CMemChain`, a linked list
-- of the buffers that wait to be sent on a socket. The nodes stand in a heap, where `new` gives an
-- address that was never used and a deleted node is `none`; a result `none` is a dereference of
-- NULL or of a deleted node.
pub mod Linked
pub mod Queue
pub mod Index
pub mod Destroy
use cmdtran.Common.{
  ℕ, zero, suc, ◌+◌, ◌-◌, Bool, true, false, ◌&&◌, Option, none, some, ◌==◌, if◌then◌else◌,
}
use cmdtran.Common.Int.{ℤ, pos, negsuc, add_ℕ, pred_ℤ}

pub record MemNode : Type 0 where
  pub next : Option ℕ
  pub buffer : Option ℕ
  pub call_back_fun : Bool
  pub begin : ℕ
  pub len : ℕ
  pub sequence : ℕ

pub record MemChain : Type 0 where
  pub heap : ℕ → Option MemNode
  pub unused : ℕ
  pub chain_head : Option ℕ
  pub chain_end : Option ℕ
  pub size : ℤ

unfoldable pub init : MemChain
init = record { heap = λ _. none; unused = 0; chain_head = none; chain_end = none; size = pos 0 }

-- Equality of pointers.
abbrev pub same : Option ℕ → Option ℕ → Bool
same none none = true
same none (some b) = false
same (some a) none = false
same (some a) (some b) = a == b

abbrev pub is_null : Option ℕ → Bool
is_null none = true
is_null (some a) = false

abbrev pub put : (ℕ → Option MemNode) → ℕ → Option MemNode → ℕ → Option MemNode
put heap a n b = if b == a then n else heap b

abbrev pub deref : (ℕ → Option MemNode) → Option ℕ → Option MemNode
deref heap none = none
deref heap (some a) = heap a

-- `m_pChainEnd->pNext = pNew`, with the node of the end.
unfoldable pub link : ℕ → Option ℕ → Option MemNode → MemChain → Option MemChain
link a none n c = none
link a (some e) none c = none
link a (some e) (some n) c = some (record c {
  heap = put c.heap e (some (record n { next = some a }));
  chain_end = some a;
  size = add_ℕ c.size 1;
})

abbrev pub new_node : ℕ → ℕ → Bool → MemNode
new_node buffer len back = record {
  next = none;
  buffer = some buffer;
  call_back_fun = back;
  begin = 0;
  len = len;
  sequence = 0;
}

-- The chain behind `new` and the assignments to the node.
abbrev pub with_new : MemNode → MemChain → MemChain
with_new n c = record c { heap = put c.heap c.unused (some n); unused = suc c.unused }

unfoldable pub push : Option ℕ → ℕ → Bool → MemChain → Option (Bool × MemChain)
push none len back c = some (false, c)
push (some buffer) len back c =
    let c' = with_new (new_node buffer len back) c in
    if is_null c.chain_head && is_null c.chain_end
    then some (
      true,
      record c' { chain_head = some c.unused; chain_end = some c.unused; size = add_ℕ c.size 1 },
    )
    else elim (link c.unused c.chain_end (deref c'.heap c.chain_end) c') [
      | none ↦ none
      | some c'' ↦ some (true, c'')
    ]

-- The loop of `GetIndex`, with so many rounds left; `none` is a fault.
unfoldable pub walk : (ℕ → Option MemNode) → ℕ → Option ℕ → Option (Option ℕ)
walk heap zero node = some node
walk heap (suc n) none = some none
walk heap (suc n) (some a) = elim (heap a) [ none ↦ none | some node ↦ walk heap n node.next ]

unfoldable pub get_index : ℤ → MemChain → Option (Option ℕ)
get_index (negsuc n) c = some none
get_index (pos n) c = walk c.heap n c.chain_head

abbrev pub get_head : MemChain → Option ℕ
get_head c = c.chain_head

abbrev pub get_size : MemChain → ℤ
get_size c = c.size

-- `delete` of a node: a fault where there is none.
abbrev pub release : (ℕ → Option MemNode) → ℕ → ℕ → Option MemNode
release heap a = put heap a none

-- Both `DeleteAt` and `DeleteHead` at the only node.
unfoldable pub delete_only : ℕ → MemChain → MemChain
delete_only a c = record c {
  heap = release c.heap a;
  chain_head = none;
  chain_end = none;
  size = pred_ℤ c.size;
}

-- The loop of `DeleteAt`: `ptmp` and `pPreHead`, with so many rounds left.
unfoldable pub seek : (ℕ → Option MemNode) → ℕ → ℕ → Option ℕ → Option (ℕ × Option ℕ)
seek heap zero pre tmp = some (pre, tmp)
seek heap (suc n) pre none = some (pre, none)
seek heap (suc n) pre (some a) = elim (heap a) [ none ↦ none | some node ↦ seek heap n a node.next ]

-- What `DeleteAt` does at the two nodes that it has come to.
unfoldable pub unlink :
    ℕ → ℕ → Option MemNode → Option MemNode → MemChain → Option (Bool × MemChain)
unlink pre tmp (some before) (some node) c = some (
  true,
  record c {
    chain_end = if same (some tmp) c.chain_end then some pre else c.chain_end;
    heap = release (put c.heap pre (some (record before { next = node.next }))) tmp;
    size = pred_ℤ c.size;
  },
)
unlink pre tmp _ _ c = none

unfoldable pub unlink_at : Option (ℕ × Option ℕ) → MemChain → Option (Bool × MemChain)
unlink_at none c = none
unlink_at (some (pre, none)) c = some (false, c)
unlink_at (some (pre, some tmp)) c = unlink pre tmp (c.heap pre) (c.heap tmp) c

-- `DeleteAt` in a chain of more than one node, with its head and the node there.
unfoldable pub delete_behind : ℕ → ℕ → Option MemNode → MemChain → Option (Bool × MemChain)
delete_behind index head none c = none
delete_behind index head (some node) c = unlink_at (seek c.heap (index - 1) head node.next) c

unfoldable pub delete_from : ℕ → Option ℕ → MemChain → Option (Bool × MemChain)
delete_from index none c = some (false, c)
delete_from index (some head) c =
    if same (some head) c.chain_end
    then some (true, delete_only head c)
    else delete_behind index head (c.heap head) c

unfoldable pub delete_at : ℤ → MemChain → Option (Bool × MemChain)
delete_at (negsuc n) c = some (false, c)
delete_at (pos index) c = delete_from index c.chain_head c

unfoldable pub delete_front : ℕ → Option MemNode → MemChain → Option (Bool × MemChain)
delete_front head none c = none
delete_front head (some node) c =
    some
      (true, record c { heap = release c.heap head; chain_head = node.next; size = pred_ℤ c.size })

unfoldable pub delete_first : Option ℕ → MemChain → Option (Bool × MemChain)
delete_first none c = some (false, c)
delete_first (some head) c =
    if same (some head) c.chain_end
    then some (true, delete_only head c)
    else delete_front head (c.heap head) c

unfoldable pub delete_head : MemChain → Option (Bool × MemChain)
delete_head c = delete_first c.chain_head c

-- `*ret` of a node, behind the call of `DeleteAt(0)`.
unfoldable pub read_node : Option MemNode → MemChain → Option (MemNode × MemChain)
read_node none c = none
read_node (some n) c = some (n, c)

unfoldable pub read_head : Option ℕ → Option (Bool × MemChain) → Option (MemNode × MemChain)
read_head head none = none
read_head head (some (done, c)) = read_node (deref c.heap head) c

-- `Pop` reads the node that was the head after the call of `DeleteAt(0)`.
unfoldable pub pop : MemChain → Option (MemNode × MemChain)
pop c = read_head (get_head c) (delete_at (pos 0) c)

-- The loop of the destructor, with the node of its head.
unfoldable pub destroy : ℕ → Option ℕ → (ℕ → Option MemNode) → Option (ℕ → Option MemNode)
destroy zero head heap = none
destroy (suc fuel) none heap = some heap
destroy (suc fuel) (some a) heap = elim (heap a) [
  | none ↦ none
  | some n ↦ destroy fuel n.next (release heap a)
]
