-- ===== src/EpollServer/Task.antt =====
-- The send task: what it does when the kernel takes a part of a node, and all of it.
use cmdtran.Common.{
  ℕ, suc, ◌+◌, ◌-◌, ◌<◌, ◌≡◌, refl, sym, ap, ◌∙◌, Bool, true, false, ◌&&◌, Option, none, some, List,
  ◌∷◌, arith, length, ltb, ◌==◌, drop, drop-drop, take,
}
use cmdtran.Common.Int.{ℤ, pos, exceeds_ℕ}
use cmdtran.Common.Map.{find, find-update_self}
use cmdtran.MemChain.{MemChain, MemNode, delete_head, put}
use cmdtran.MemChain.Linked.{IsChain, first, put_self, put-below}
use cmdtran.MemChain.Queue.{delete_head-IsChain}
use cmdtran.EpollServer.{EpollServer, SocketInformation, send_state_waiting}
use cmdtran.EpollServer.SendTask.{
  unsent, sent_part, sent_all, sent_node, send_buffer, send_node, send_head, keep_chain, send_chain,
  process_send_task,
}
use cmdtran.EpollServer.Remove.{has_node}
use cmdtran.EpollServer.Interface.{Kernel}

module _ (kernel : Kernel) where
  open kernel use {State, send}

  sent_all-faults :
      (a : ℕ) (n : MemNode) (xs : List (ℕ × MemNode)) (chain : MemChain) (e : EpollServer State)
      → IsChain chain ((a, n) ∷ xs)
      → sent_all kernel a (delete_head chain) e ≡ none
  unfolding sent_all
  sent_all-faults a n xs chain e v =
      let (chain', deleted, _, gone, _) = delete_head-IsChain chain a n xs v in
      rw (deleted, sent_all, gone) refl

  -- A round of the loop comes to the call of `send` for its head.
  pub send_chain_lem :
      (fuel sock a block : ℕ) (n : MemNode) (xs : List (ℕ × MemNode)) (chain : MemChain)
      (e : EpollServer State)
      → IsChain chain ((a, n) ∷ xs)
      → n.buffer ≡ some block
      → send_chain kernel (suc fuel) sock chain e ≡ (
          let (ret, k) = send sock (unsent kernel n block e) e.kernel in
          sent_node kernel
            (send_chain kernel fuel sock)
            sock
            a
            (record n { next = first xs })
            chain
            ret
            (record e { kernel = k }))
  unfolding send_chain send_head send_node send_buffer
  send_chain_lem fuel sock a block n xs chain e c filled =
      let rest = send_chain kernel fuel sock in
      ap
        (λ (b : Bool). elim b [
          | false ↦ some (keep_chain kernel sock chain e)
          | true ↦ send_head kernel rest sock chain chain.chain_head e
        ])
        (ap (λ (z : ℤ). exceeds_ℕ z 0) c.size ∙ has_node (length xs))
      ∙ ap (λ (h : Option ℕ). send_head kernel rest sock chain h e) c.head
      ∙ ap (λ (m : Option MemNode). send_node kernel rest sock a chain m e) c.linked.0
      ∙ ap
          (λ (b : Option ℕ).
            send_buffer kernel rest sock a (record n { next = first xs }) chain b e)
          filled

  pub sent_node-faults :
      (rest : MemChain → EpollServer State → Option (EpollServer State)) (sock a : ℕ) (n : MemNode)
      (p : Option ℕ) (xs : List (ℕ × MemNode)) (chain : MemChain) (ret : ℤ) (e : EpollServer State)
      → IsChain chain ((a, n) ∷ xs)
      → 0 < n.len - n.begin
      → ret ≡ pos (n.len - n.begin)
      → sent_node kernel rest sock a (record n { next = p }) chain ret e ≡ none
  unfolding sent_node
  sent_node-faults rest sock a n p xs chain ret e c more sent =
      let not_part : (ltb 0 (n.len - n.begin) && ltb (n.len - n.begin) (n.len - n.begin)) ≡ false =
        ground arith in
      let whole : (ltb 0 (n.len - n.begin) && ((n.len - n.begin) == (n.len - n.begin))) ≡ true =
        ground arith in
      rw (sent, sent_node, not_part, whole, sent_all-faults a n xs chain e c) refl

  -- The task at a socket that has a chain.
  pub process_send_task-chain :
      (fuel sock : ℕ) (s : SocketInformation) (e : EpollServer State)
      → find sock e.socket_info ≡ some s
      → process_send_task kernel fuel sock e ≡ send_chain kernel fuel sock s.output_chain e
  unfolding process_send_task
  process_send_task-chain fuel sock s e at_sock = rw (at_sock, process_send_task) refl

  -- When the kernel takes all bytes of the head of a chain in order, and there are some, the send
  -- task reads the node that it has deleted.
  pub process_send_task-faults :
      (fuel sock a block : ℕ) (n : MemNode) (xs : List (ℕ × MemNode)) (s : SocketInformation)
      (e : EpollServer State)
      → find sock e.socket_info ≡ some s
      → IsChain s.output_chain ((a, n) ∷ xs)
      → n.buffer ≡ some block
      → 0 < n.len - n.begin
      → (send sock (unsent kernel n block e) e.kernel).0 ≡ pos (n.len - n.begin)
      → process_send_task kernel (suc fuel) sock e ≡ none
  process_send_task-faults fuel sock a block n xs s e at_sock c filled more sent =
      process_send_task-chain (suc fuel) sock s e at_sock
      ∙ send_chain_lem fuel sock a block n xs s.output_chain e c filled
      ∙ sent_node-faults _ sock a n (first xs) xs s.output_chain _ _ c more sent

  pub sent_node-part :
      (rest : MemChain → EpollServer State → Option (EpollServer State)) (sock a r : ℕ)
      (n : MemNode) (chain : MemChain) (ret : ℤ) (e : EpollServer State)
      → 0 < r
      → r < n.len - n.begin
      → ret ≡ pos r
      → sent_node kernel rest sock a n chain ret e ≡ some (sent_part kernel sock a n r chain e)
  unfolding sent_node
  sent_node-part rest sock a r n chain ret e more less sent =
      let part : (ltb 0 r && ltb r (n.len - n.begin)) ≡ true = ground arith in
      rw (sent, sent_node, part) refl

  -- When the kernel takes a part of the bytes of the head of a chain in order, but not none, the
  -- send task ends: the same nodes stand in the chain, the bytes of the head that are left are
  -- just those that were not sent, and the socket waits.
  pub process_send_task-part :
      (fuel sock a block r : ℕ) (n : MemNode) (xs : List (ℕ × MemNode)) (s : SocketInformation)
      (e : EpollServer State)
      → find sock e.socket_info ≡ some s
      → IsChain s.output_chain ((a, n) ∷ xs)
      → n.buffer ≡ some block
      → 0 < r
      → r < n.len - n.begin
      → (send sock (unsent kernel n block e) e.kernel).0 ≡ pos r
      → (e' : EpollServer State) × (s' : SocketInformation) × (n' : MemNode) × (process_send_task
            kernel
            (suc fuel)
            sock
            e
          ≡ some e')
        × (find sock e'.socket_info ≡ some s')
        × (s'.curr_send_state ≡ send_state_waiting)
        × IsChain s'.output_chain ((a, n') ∷ xs)
        × (unsent kernel n' block e' ≡ drop r (unsent kernel n block e))
  unfolding sent_part
  process_send_task-part fuel sock a block r n xs s e at_sock c filled more less sent =
      let chain = s.output_chain in
      let e₁ = record e { kernel = (send sock (unsent kernel n block e) e.kernel).1 } in
      let node : MemNode = record n { next = first xs } in
      let left : MemNode = record n { next = first xs; begin = n.begin + r } in
      let chain' = record chain { heap = put chain.heap a (some left) } in
      (
        sent_part kernel sock a node r chain e₁,
        record s { output_chain = chain'; curr_send_state = send_state_waiting },
        record n { begin = n.begin + r },
        process_send_task-chain (suc fuel) sock s e at_sock
            ∙ send_chain_lem fuel sock a block n xs chain e c filled
            ∙ sent_node-part _ sock a r node chain _ e₁ more less sent,
        find-update_self sock _ e.socket_info s at_sock,
        refl,
        record {
          linked = (
            put_self chain.heap a (some left),
            put-below chain.heap a (suc a) chain.unused (some left) xs (omega arith) c.rising.2
                c.linked.1,
          );
          rising = c.rising;
          head = c.head;
          end = c.end;
          size = c.size;
        },
        sym (drop-drop n.begin r (n.begin + r) (take n.len (e.memory block)) (omega arith)),
      )
