-- ===== src/Tests/Chain.antt =====
-- A chain of two buffers.
use cmdtran.Common.{ℕ, ◌≡◌, true, false, none, some, List, [], ◌∷◌, ◌++◌}
use cmdtran.Common.Int.{pos}
use cmdtran.MemChain.{
  MemChain, MemNode, destroy, push, delete_head, delete_at, get_index, pop, new_node,
}
use cmdtran.MemChain
use cmdtran.MemChain.Linked.{IsChain, init-IsChain}
use cmdtran.MemChain.Queue.{push-IsChain}
use cmdtran.MemChain.Index.{delete_at-second, pop-only}

one_pushed :
    (c' : MemChain) × (push (some 100) 5 true MemChain.init ≡ some (true, c'))
    × IsChain c' ([] ++ (MemChain.init.unused, new_node 100 5 true) ∷ [])
one_pushed = push-IsChain MemChain.init [] 100 5 true init-IsChain

-- The chain of that buffer, and of another behind it.
abbrev one_node : MemChain
one_node = one_pushed.0

abbrev one_list : List (ℕ × MemNode)
one_list = [] ++ (MemChain.init.unused, new_node 100 5 true) ∷ []

abbrev two_nodes : MemChain
two_nodes = (push-IsChain one_node one_list 200 7 false one_pushed.2).0

abbrev two_list : List (ℕ × MemNode)
two_list = one_list ++ (one_node.unused, new_node 200 7 false) ∷ []

two_nodes-IsChain : IsChain two_nodes two_list
two_nodes-IsChain = (push-IsChain one_node one_list 200 7 false one_pushed.2).2

delete_at-second_example :
    (c' : MemChain) × (delete_at (pos 0) two_nodes ≡ some (true, c'))
    × (c'.heap one_node.unused ≡ none)
    × IsChain c' ((MemChain.init.unused, new_node 100 5 true) ∷ [])
    × (pop two_nodes ≡ some (record (new_node 100 5 true) { next = none }, c'))
delete_at-second_example =
    delete_at-second two_nodes MemChain.init.unused one_node.unused (new_node 100 5 true)
      (new_node 200 7 false) [] two_nodes-IsChain

pop-only_example : pop one_node ≡ none
pop-only_example = pop-only one_node MemChain.init.unused (new_node 100 5 true) one_pushed.2
