-- ===== src/EpollServer/Sends.antt =====
-- The send task on a server in order: whenever it ends without a fault, the chains, the pool, the send
-- threads and the flags are in order as they were.
use mathlib.Core.Option.{some-injective, none-ne-some}
use cmdtran.Common.{
  ℕ, zero, suc, ◌+◌, ◌-◌, ◌≡◌, refl, sym, ap, ◌∙◌, subst, Bool, true, false, ◌&&◌, Option, none,
  some, List, [], ◌∷◌, arith, length, ltb, ◌==◌, Bool-cases, Option-cases, inl, inr,
}
use cmdtran.Common.Int.{ℤ, pos, negsuc, exceeds_ℕ}
use cmdtran.Common.Map.{find, update, update-IsSorted, find-update_self, find-update_ne}
use cmdtran.MemChain.{MemChain, MemNode}
use cmdtran.MemChain.Linked.{IsChain, first, put_self, put-below}
use cmdtran.EpollServer.{EpollServer, SocketInformation}
use cmdtran.EpollServer.Interface.{Kernel}
use cmdtran.EpollServer.Remove.{blocks, has_node}
use cmdtran.EpollServer.Sound.{Chains, IsSound, all_blocks-update, kernel-IsSound}
use cmdtran.EpollServer.Serves.{flag, update-flag}
use cmdtran.EpollServer.Kept.{Sound}
use cmdtran.EpollServer.Chained.{put_chain, find-put_chain, all_blocks-same}
use cmdtran.EpollServer.SendTask.{
  sent_part, sent_node, send_buffer, send_node, send_head, keep_chain, send_chain,
  process_send_task, unsent,
}
use cmdtran.EpollServer.Task.{
  send_chain_lem, sent_node-faults, sent_node-part, process_send_task-chain,
}

module _ {K : Type 0} (n : ℕ) where
  -- What a send task may do: it leaves a server in order, and no flag has changed.
  abbrev pub Kept : EpollServer K → EpollServer K → Type 0
  Kept e e' = Sound n e' × ((j : ℕ) → flag j e' ≡ flag j e)

  -- A change of the chain of a socket that has the same blocks in the same order.
  update-Kept :
      (sock : ℕ) (f : SocketInformation → SocketInformation) (xs : List (ℕ × MemNode))
      (chains : Chains) (s : SocketInformation) (e : EpollServer K)
      → IsSound e n chains
      → find sock e.socket_info ≡ some s
      → blocks xs ≡ blocks (chains sock)
      → IsChain (f s).output_chain xs
      → ((t : SocketInformation) → (f t).enable_read ≡ t.enable_read)
      → Kept e (record e { socket_info = update sock f e.socket_info })
  update-Kept sock f xs chains s e v there same chain flags = (
    (
      put_chain chains sock xs,
      record {
        sorted = update-IsSorted sock f e.socket_info v.sorted;
        chained =
            find-put_chain chains sock xs e.socket_info (update sock f e.socket_info) v.chained
              (λ t here.
                subst (λ (t : SocketInformation). IsChain t.output_chain xs)
                  (some-injective (f s) t
                    (sym (find-update_self sock f e.socket_info s there) ∙ here))
                  chain)
              (λ j h. find-update_ne sock j f e.socket_info h);
        pool =
            rw
              (
                all_blocks-update (put_chain chains sock xs) sock f e.socket_info,
                all_blocks-same chains sock xs e.socket_info same,
              )
              v.pool;
        threads = v.threads;
      },
    ),
    λ j. update-flag sock j f e.socket_info flags,
  )

sent_node-none :
    (kernel : Kernel)
    (rest : MemChain → EpollServer kernel.State → Option (EpollServer kernel.State)) (sock a r : ℕ)
    (n : MemNode) (chain : MemChain) (e : EpollServer kernel.State)
    → (ltb 0 r && ltb r (n.len - n.begin)) ≡ false
    → (ltb 0 r && (r == (n.len - n.begin))) ≡ false
    → sent_node kernel rest sock a n chain (pos r) e ≡ rest chain e
unfolding sent_node
sent_node-none kernel rest sock a r n chain e not_part not_whole =
    rw (not_part, not_whole, sent_node) refl

module _ (kernel : Kernel) (m : ℕ) where
  open kernel use {State, send}

  -- The task leaves the chain as it was.
  keep_chain-Kept :
      (sock : ℕ) (chains : Chains) (s : SocketInformation) (e : EpollServer State)
      → IsSound e m chains
      → find sock e.socket_info ≡ some s
      → Kept m e (keep_chain kernel sock s.output_chain e)
  keep_chain-Kept sock chains s e v there =
      update-Kept m sock (λ t. record t { output_chain = s.output_chain }) (chains sock) chains s e
        v there refl (v.chained sock s there) (λ t. refl)

  part-Kept :
      (sock a r : ℕ) (n : MemNode) (xs : List (ℕ × MemNode)) (chains : Chains)
      (s : SocketInformation) (e : EpollServer State)
      → IsSound e m chains
      → find sock e.socket_info ≡ some s
      → chains sock ≡ (a, n) ∷ xs
      → Kept m e (sent_part kernel sock a (record n { next = first xs }) r s.output_chain e)
  unfolding sent_part
  part-Kept sock a r n xs chains s e v there nodes =
      let c : IsChain s.output_chain ((a, n) ∷ xs) =
        subst (IsChain s.output_chain) nodes (v.chained sock s there) in
      let left : MemNode = record n { next = first xs; begin = n.begin + r } in
      update-Kept m sock _ ((a, record n { begin = n.begin + r }) ∷ xs) chains s e v there
        (ap blocks (sym nodes))
        (record {
          linked = (
            put_self s.output_chain.heap a (some left),
            put-below s.output_chain.heap a (suc a) s.output_chain.unused (some left) xs
                (omega arith) c.rising.2 c.linked.1,
          );
          rising = c.rising;
          head = c.head;
          end = c.end;
          size = c.size;
        })
        (λ t. refl)

  -- A node that was sent whole is a fault, so the task has not ended.
  sent_node-Kept :
      (rest : MemChain → EpollServer State → Option (EpollServer State)) (sock a : ℕ) (n : MemNode)
      (xs : List (ℕ × MemNode)) (chains : Chains) (s : SocketInformation) (ret : ℤ)
      (e e' : EpollServer State)
      → IsSound e m chains
      → find sock e.socket_info ≡ some s
      → chains sock ≡ (a, n) ∷ xs
      → (rest s.output_chain e ≡ some e' → Kept m e e')
      → sent_node kernel rest sock a (record n { next = first xs }) s.output_chain ret e ≡ some e'
      → Kept m e e'
  unfolding sent_node
  sent_node-Kept rest sock a n xs chains s (negsuc r) e e' v there nodes later returns =
      subst (Kept m e) (some-injective _ e' returns) (keep_chain-Kept sock chains s e v there)
  sent_node-Kept rest sock a n xs chains s (pos r) e e' v there nodes later returns =
      let c : IsChain s.output_chain ((a, n) ∷ xs) =
        subst (IsChain s.output_chain) nodes (v.chained sock s there) in
      elim (Bool-cases (ltb 0 r && ltb r (n.len - n.begin))) [
        | inl part ↦
            subst (Kept m e)
              (some-injective _ e' (
                sym (
                  sent_node-part kernel rest sock a r (record n { next = first xs }) s.output_chain
                    (pos r) e (ground (arith, part)) (ground (arith, part)) refl)
                ∙ returns))
              (part-Kept sock a r n xs chains s e v there nodes)
        | inr not_part ↦ elim (Bool-cases (ltb 0 r && (r == (n.len - n.begin)))) [
          | inl whole ↦ absurd (
              none-ne-some e' (
                sym (
                  sent_node-faults kernel rest sock a n (first xs) xs s.output_chain (pos r) e c
                    (ground (arith, whole)) (ap pos (ground (arith, whole))))
                ∙ returns))
          | inr none_sent ↦ later (
              sym (
                sent_node-none kernel rest sock a r (record n { next = first xs }) s.output_chain e
                  not_part none_sent)
              ∙ returns)
        ]
      ]

  -- A chain without nodes, or with a head that has no block: the loop ends at once.
  send_chain-empty :
      (fuel sock : ℕ) (chain : MemChain) (e : EpollServer State)
      → IsChain chain []
      → send_chain kernel (suc fuel) sock chain e ≡ some (keep_chain kernel sock chain e)
  unfolding send_chain
  send_chain-empty fuel sock chain e c =
      ap
        (λ (z : ℤ). elim (exceeds_ℕ z 0) [
          | false ↦ some (keep_chain kernel sock chain e)
          | true ↦ send_head kernel (send_chain kernel fuel sock) sock chain chain.chain_head e
        ])
        c.size

  send_chain-no_block :
      (fuel sock a : ℕ) (n : MemNode) (xs : List (ℕ × MemNode)) (chain : MemChain)
      (e : EpollServer State)
      → IsChain chain ((a, n) ∷ xs)
      → n.buffer ≡ none
      → send_chain kernel (suc fuel) sock chain e ≡ some (keep_chain kernel sock chain e)
  unfolding send_chain send_head send_node send_buffer
  send_chain-no_block fuel sock a n xs chain e c empty =
      let rest = send_chain kernel fuel sock in
      ap
        (λ (b : Bool). elim b [
          | false ↦ some (keep_chain kernel sock chain e)
          | true ↦ send_head kernel rest sock chain chain.chain_head e
        ])
        (ap (λ (z : ℤ). exceeds_ℕ z 0) c.size ∙ has_node (length xs))
      ∙ ap (λ (h : Option ℕ). send_head kernel rest sock chain h e) c.head
      ∙ ap (λ (k : Option MemNode). send_node kernel rest sock a chain k e) c.linked.0
      ∙ ap
          (λ (b : Option ℕ).
            send_buffer kernel rest sock a (record n { next = first xs }) chain b e)
          empty

  send_chain-Kept :
      (fuel sock : ℕ) (chains : Chains) (s : SocketInformation) (e e' : EpollServer State)
      (nodes : List (ℕ × MemNode))
      → IsSound e m chains
      → find sock e.socket_info ≡ some s
      → chains sock ≡ nodes
      → send_chain kernel fuel sock s.output_chain e ≡ some e'
      → Kept m e e'
  unfolding send_chain
  send_chain-Kept zero sock chains s e e' nodes v there at returns =
      absurd (none-ne-some e' returns)
  send_chain-Kept (suc fuel) sock chains s e e' [] v there at returns =
      subst (Kept m e)
        (some-injective _ e' (
          sym (
            send_chain-empty fuel sock s.output_chain e
              (subst (IsChain s.output_chain) at (v.chained sock s there)))
          ∙ returns))
        (keep_chain-Kept sock chains s e v there)
  send_chain-Kept (suc fuel) sock chains s e e' ((a, n) ∷ xs) v there at returns =
      let c : IsChain s.output_chain ((a, n) ∷ xs) =
        subst (IsChain s.output_chain) at (v.chained sock s there) in
      elim (Option-cases n.buffer) [
        | inl empty ↦
            subst (Kept m e)
              (some-injective _ e'
                (sym (send_chain-no_block fuel sock a n xs s.output_chain e c empty) ∙ returns))
              (keep_chain-Kept sock chains s e v there)
        | inr (block, filled) ↦
            let sent = send sock (unsent kernel n block e) e.kernel in
            let e₁ = record e { kernel = sent.1 } in
            sent_node-Kept (send_chain kernel fuel sock) sock a n xs chains s sent.0 e₁ e'
              (kernel-IsSound v sent.1) there at
              (λ again.
                send_chain-Kept fuel sock chains s e₁ e' ((a, n) ∷ xs) (kernel-IsSound v sent.1)
                  there at again)
              (sym (send_chain_lem kernel fuel sock a block n xs s.output_chain e c filled)
                ∙ returns)
      ]

  pub process_send_task-Kept :
      (fuel sock : ℕ) (e e' : EpollServer State)
      → Sound m e
      → process_send_task kernel fuel sock e ≡ some e'
      → Kept m e e'
  unfolding process_send_task
  process_send_task-Kept fuel sock e e' (chains, v) returns =
      elim (Option-cases (find sock e.socket_info)) [
        | inl out ↦
            subst (Kept m e)
              (some-injective e e' (sym (rw (out, process_send_task) refl) ∙ returns))
              ((chains, v), λ j. refl)
        | inr (s, there) ↦
            send_chain-Kept fuel sock chains s e e' (chains sock) v there refl
              (sym (process_send_task-chain kernel fuel sock s e there) ∙ returns)
      ]
