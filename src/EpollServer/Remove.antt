-- ===== src/EpollServer/Remove.antt =====
-- `RemoveSocket`: the blocks and the callbacks in the chain of a socket that is gone.
use cmdtran.Common.{
  ℕ, zero, suc, ◌<◌, ◌≡◌, ◌≢◌, refl, sym, ap, ◌∙◌, Bool, true, Option, none, some, List, [], ◌∷◌,
  ◌++◌, arith, length, if◌then◌else◌, append_assoc, append-nil, Bool-cases, inl, inr,
}
use cmdtran.Common.Int.{ℤ, pos, pos_part, exceeds_ℕ}
use cmdtran.Common.Map.{find, erase, IsSorted, find-erase_self, find-erase_ne}
use cmdtran.MemPool.{MemPool}
use cmdtran.MemPool.Lending.{free_block_lem}
use cmdtran.MemPool.Lending
use cmdtran.MemChain.{MemChain, MemNode, delete_head, deref}
use cmdtran.MemChain.Linked.{IsChain, first}
use cmdtran.MemChain.Queue.{delete_head-IsChain}
use cmdtran.EpollServer.{
  EpollServer, SocketInformation, CallBack, send_failed, give_back, call_back, give_up, drain_round,
  drain, remove_socket,
}

abbrev pub with_block : Option ℕ → List ℕ → List ℕ
with_block none bs = bs
with_block (some b) bs = b ∷ bs

-- The blocks of the nodes of a chain.
abbrev pub blocks : List (ℕ × MemNode) → List ℕ
blocks [] = []
blocks ((a, n) ∷ xs) = with_block n.buffer (blocks xs)

-- The calls that tell the senders of a chain that their bytes were not sent.
abbrev pub failures : List (ℕ × MemNode) → List CallBack
failures [] = []
failures ((a, n) ∷ xs) =
    if n.call_back_fun
    then record { buffer = n.buffer; len = n.len; code = send_failed } ∷ failures xs
    else failures xs

give_back_lem :
    (buffer : Option ℕ) (pool : MemPool) (bs rest : List ℕ)
    → Lending.IsValid pool (with_block buffer bs ++ rest)
    → Lending.IsValid (give_back buffer pool) (bs ++ rest)
give_back_lem none pool bs rest v = v
give_back_lem (some b) pool bs rest v = (free_block_lem pool b [] (bs ++ rest) v).2

call_back_lem :
    (n : MemNode) (p : Option ℕ) (a : ℕ) (xs : List (ℕ × MemNode)) (calls : List CallBack)
    → call_back (record n { next = p }) send_failed calls ++ failures xs
      ≡ calls ++ failures ((a, n) ∷ xs)
call_back_lem n p a xs calls = elim (Bool-cases n.call_back_fun) [
  | inl e ↦ rw e (append_assoc calls (_ ∷ []) (failures xs))
  | inr e ↦ rw e refl
]

pub has_node : (n : ℕ) → exceeds_ℕ (pos (suc n)) 0 ≡ true
has_node n = ground arith

module _ {K : Type 0} where
  -- All blocks are back, all senders were told, and nothing else has changed.
  pub record Drained (e e' : EpollServer K) (xs : List (ℕ × MemNode)) (rest : List ℕ) : Type 0 where
    pub pool : Lending.IsValid e'.send_data_mem rest
    pub told : e'.call_backs ≡ e.call_backs ++ failures xs
    pub sockets : e'.socket_info ≡ e.socket_info
    pub memory : e'.memory ≡ e.memory
    pub threads : e'.send_thread_manager ≡ e.send_thread_manager
    pub kernel : e'.kernel ≡ e.kernel

  drain_round_lem :
      (rest : MemChain → EpollServer K → Option (EpollServer K)) (b done : Bool)
      (o : Option MemNode) (n : MemNode) (d : Option (Bool × MemChain)) (chain : MemChain)
      (e : EpollServer K)
      → b ≡ true
      → o ≡ some n
      → d ≡ some (done, chain)
      → drain_round rest b o d e ≡ rest chain (give_up n e)
  unfolding drain_round
  drain_round_lem rest b done o n d chain e p q r =
      ap (λ (b : Bool). drain_round rest b o d e) p
      ∙ ap (λ (o : Option MemNode). drain_round rest true o d e) q
      ∙ ap (λ (d : Option (Bool × MemChain)). drain_round rest true (some n) d e) r

  drain_lem :
      (fuel : ℕ) (xs : List (ℕ × MemNode)) (chain : MemChain) (e : EpollServer K) (rest : List ℕ)
      → IsChain chain xs
      → length xs < fuel
      → Lending.IsValid e.send_data_mem (blocks xs ++ rest)
      → (e' : EpollServer K) × (drain fuel chain e ≡ some e') × Drained e e' xs rest
  unfolding drain drain_round give_up
  drain_lem zero xs chain e rest c h v = absurd (omega arith)
  drain_lem (suc fuel) [] chain e rest c h v = (
    e,
    ap
        (λ (z : ℤ).
          drain_round (drain fuel) (exceeds_ℕ z 0) (deref chain.heap chain.chain_head)
            (delete_head chain) e)
        c.size,
    record {
      pool = v;
      told = sym (append-nil e.call_backs);
      sockets = refl;
      memory = refl;
      threads = refl;
      kernel = refl;
    },
  )
  drain_lem (suc fuel) ((a, n) ∷ xs) chain e rest c h v =
      let (chain', deleted, c', _, _) = delete_head-IsChain chain a n xs c in
      let node : MemNode = record n { next = first xs } in
      let (e', ends, d) =
        drain_lem fuel xs chain' (give_up node e) rest c' (omega arith)
          (give_back_lem n.buffer e.send_data_mem (blocks xs) rest v) in
      (
        e',
        drain_round_lem (drain fuel) _ true _ node _ chain' e
              (ap (λ (z : ℤ). exceeds_ℕ z 0) c.size ∙ has_node (length xs))
              (ap (deref chain.heap) c.head ∙ c.linked.0) deleted
            ∙ ends,
        record {
          pool = d.pool;
          told = d.told ∙ call_back_lem n (first xs) a xs e.call_backs;
          sockets = d.sockets;
          memory = d.memory;
          threads = d.threads;
          kernel = d.kernel;
        },
      )

  -- The same for the whole of `RemoveSocket`, which takes the socket out of the map first.
  pub remove_socket-Drained :
      (sock : ℕ) (s : SocketInformation) (xs : List (ℕ × MemNode)) (rest : List ℕ)
      (e : EpollServer K)
      → find sock e.socket_info ≡ some s
      → IsChain s.output_chain xs
      → Lending.IsValid e.send_data_mem (blocks xs ++ rest)
      → (e' : EpollServer K) × (remove_socket sock e ≡ some e')
        × Drained (record e { socket_info = erase sock e.socket_info }) e' xs rest
  unfolding remove_socket
  remove_socket-Drained sock s xs rest e at_sock c v =
      let rounds : suc (pos_part s.output_chain.size) ≡ suc (length xs) =
        ap (λ (z : ℤ). suc (pos_part z)) c.size in
      let (e', ends, d) =
        drain_lem (suc (pos_part s.output_chain.size)) xs s.output_chain
          (record e { socket_info = erase sock e.socket_info }) rest c (omega (arith, rounds)) v in
      (e', rw (at_sock, remove_socket) ends, d)

  -- `RemoveSocket` of a socket that is there, with the map in order, the chain in order, and a
  -- valid pool that has lent the blocks of the chain and others, returns: the pool is valid with
  -- only the others lent, the callbacks of the chain were called once each in order with the code
  -- for a failure, the socket is gone, and the other sockets are as they were.
  pub remove_socket_lem :
      (sock : ℕ) (s : SocketInformation) (xs : List (ℕ × MemNode)) (rest : List ℕ)
      (e : EpollServer K)
      → IsSorted e.socket_info
      → find sock e.socket_info ≡ some s
      → IsChain s.output_chain xs
      → Lending.IsValid e.send_data_mem (blocks xs ++ rest)
      → (e' : EpollServer K) × (remove_socket sock e ≡ some e')
        × Lending.IsValid e'.send_data_mem rest
        × (e'.call_backs ≡ e.call_backs ++ failures xs)
        × (find sock e'.socket_info ≡ none)
        × ((j : ℕ) → sock ≢ j → find j e'.socket_info ≡ find j e.socket_info)
  remove_socket_lem sock s xs rest e sorted at_sock c v =
      let (e', ends, d) = remove_socket-Drained sock s xs rest e at_sock c v in
      (
        e',
        ends,
        d.pool,
        d.told,
        rw (d.sockets) (find-erase_self sock e.socket_info sorted),
        λ j h. rw (d.sockets) (find-erase_ne sock j e.socket_info h),
      )
