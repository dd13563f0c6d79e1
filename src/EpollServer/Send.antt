-- ===== src/EpollServer/Send.antt =====
-- `SendData`: what becomes of the block, the chain of the socket and the send threads.
use cmdtran.Common.{
  ℕ, ◌%◌, ◌≤◌, ◌<◌, ◌≡◌, ◌≢◌, refl, sym, Bool, true, false, ◌&&◌, ◌||◌, ◌⊎◌, inl, inr, Option, none,
  some, List, [], ◌∷◌, ◌++◌, take, arith, ◌==◌, if◌then◌else◌, leb, ltb, Bool-cases, append-nil,
}
use cmdtran.Common.Int.{pos}
use cmdtran.Common.Map.{find, update, find-update_self, find-update_ne}
use cmdtran.MemPool.{MemPool, grow_count_max, get_block, free_block}
use cmdtran.MemPool.Lending.{Got, get_block_lem, free_block_lem}
use cmdtran.MemPool.Lending
use cmdtran.MasterWorkPool.{MasterWorkPool}
use cmdtran.MasterWorkPool.Order.{waiting, add_task_lem}
use cmdtran.MasterWorkPool.Order
use cmdtran.MemChain.{MemChain, MemNode, new_node}
use cmdtran.MemChain.Linked.{IsChain}
use cmdtran.MemChain.Queue.{push-IsChain}
use cmdtran.EpollServer.{
  EpollServer, SocketInformation, mem_pool_block_size, send_state_allow, add_send_task, signal,
  pushed, queue_block, fill_block, send_data, copy_to,
}

module _ {K : Type 0} (n sock len : ℕ) (bytes : List ℕ) (back : Bool) (e : EpollServer K)
    (lent : List ℕ) where
  -- Nothing has changed but the pool, which has nothing more lent.
  pub record Refused (e' : EpollServer K) : Type 0 where
    pub pool : Lending.IsValid e'.send_data_mem lent
    pub sockets : e'.socket_info ≡ e.socket_info
    pub tasks : e'.send_thread_manager ≡ e.send_thread_manager
    pub same_kernel : e'.kernel ≡ e.kernel

  -- The pool had no block to give: none is free, and it has grown as often as it may, or by nothing.
  pub record Exhausted (e' : EpollServer K) : Type 0 where
    pub no_block : (get_block e.send_data_mem).0 ≡ none
    pub none_free : e'.send_data_mem.unused_block_queue.size ≡ 0
    pub no_growth :
        (e'.send_data_mem.grow_count ≡ grow_count_max) ⊎ (e'.send_data_mem.grow_step ≡ 0)

  -- One more block is lent, the one that `GetBlock` gives. It has the bytes, and stands at the end of the chain of the socket, whose
  -- send task was added if its state allows to send; nothing else has changed.
  pub record Taken (s : SocketInformation) (xs : List (ℕ × MemNode)) (e' : EpollServer K)
      : Type 0 where
    pub block : ℕ
    pub got : (get_block e.send_data_mem).0 ≡ some block
    pub chain : MemChain
    pub pool : Lending.IsValid e'.send_data_mem (block ∷ lent)
    pub bytes_there : e'.memory ≡ copy_to block (take len bytes) e.memory
    pub at_socket : find sock e'.socket_info ≡ some (record s { output_chain = chain })
    pub queued : IsChain chain (xs ++ (s.output_chain.unused, new_node block len back) ∷ [])
    pub others : (j : ℕ) → sock ≢ j → find j e'.socket_info ≡ find j e.socket_info
    pub tasks :
        (w : ℕ)
        → waiting w e'.send_thread_manager
          ≡ waiting w e.send_thread_manager
            ++ (if s.curr_send_state == send_state_allow && (sock % n == w) then sock ∷ [] else [])
    pub changed :
        e'.socket_info ≡ update sock (λ s. record s { output_chain = chain }) e.socket_info
    pub threads : Order.IsValid n e'.send_thread_manager
    pub same_kernel : e'.kernel ≡ e.kernel

  abbrev pub Outcome :
      SocketInformation → List (ℕ × MemNode) → Option (Bool × EpollServer K) → Type 0
  Outcome s xs out =
      (e' : EpollServer K) × (((out ≡ some (false, e')) × Refused e' × Exhausted e')
        ⊎ ((out ≡ some (true, e')) × Taken s xs e'))

  -- The end of `SendData`, from the state behind the `Push`.
  signal_lem :
      (state : ℕ) (e₁ : EpollServer K)
      → Order.IsValid n e₁.send_thread_manager
      → (tm : MasterWorkPool ℕ) × (signal sock state e₁
          ≡ some (true, record e₁ { send_thread_manager = tm }))
        × ((w : ℕ)
            → waiting w tm
              ≡ waiting w e₁.send_thread_manager
                ++ (if state == send_state_allow && (sock % n == w) then sock ∷ [] else []))
        × Order.IsValid n tm
  unfolding signal add_send_task
  signal_lem state e₁ v = elim (Bool-cases (state == send_state_allow)) [
    | inr waits ↦ rw waits (e₁.send_thread_manager, refl, λ w. sym (append-nil _), v)
    | inl allows ↦
        let (tm, added, ok, order) = add_task_lem n sock sock e₁.send_thread_manager v in
        rw allows (tm, rw (added) refl, order, ok)
  ]

  -- `SendData` from the `Push` on.
  queue_block_lem :
      (block : ℕ) (pool : MemPool) (s : SocketInformation) (xs : List (ℕ × MemNode))
      → find sock e.socket_info ≡ some s
      → IsChain s.output_chain xs
      → Order.IsValid n e.send_thread_manager
      → Lending.IsValid pool (block ∷ lent)
      → (get_block e.send_data_mem).0 ≡ some block
      → Outcome s xs (
          queue_block sock block len back
            (some s)
            (record e { send_data_mem = pool; memory = copy_to block (take len bytes) e.memory }))
  unfolding queue_block pushed
  queue_block_lem block pool s xs at_sock chained threads v given =
      let (chain, done, longer) = push-IsChain s.output_chain xs block len back chained in
      let e₁ = record e {
        send_data_mem = pool;
        memory = copy_to block (take len bytes) e.memory;
        socket_info = update sock (λ s. record s { output_chain = chain }) e.socket_info;
      } in
      let (tm, signals, order, ok) = signal_lem s.curr_send_state e₁ threads in
      (
        record e₁ { send_thread_manager = tm },
        inr (
          rw (done) signals,
          record {
            block = block;
            got = given;
            chain = chain;
            pool = v;
            bytes_there = refl;
            at_socket = find-update_self sock _ e.socket_info s at_sock;
            queued = longer;
            others = λ j h. find-update_ne sock j _ e.socket_info h;
            tasks = order;
            changed = refl;
            threads = ok;
            same_kernel = refl;
          },
        ),
      )

  -- What `SendData` does with what `GetBlock` returned.
  fill_block_lem :
      (got : Option ℕ × MemPool) (s : SocketInformation) (xs : List (ℕ × MemNode))
      → find sock e.socket_info ≡ some s
      → IsChain s.output_chain xs
      → Order.IsValid n e.send_thread_manager
      → Got got lent
      → (get_block e.send_data_mem).0 ≡ got.0
      → Outcome s xs (fill_block sock bytes len back got e)
  unfolding fill_block
  fill_block_lem (none, pool) s xs at_sock chained threads v given = (
    record e { send_data_mem = pool },
    inl (
      refl,
      record { pool = v.0; sockets = refl; tasks = refl; same_kernel = refl },
      record { no_block = given; none_free = v.1; no_growth = v.2 },
    ),
  )
  fill_block_lem (some block, pool) s xs at_sock chained threads v given =
      rw at_sock (queue_block_lem block pool s xs at_sock chained threads v given)

  -- `SendData` of 1 to 1152 bytes to a socket that is there, whose chain is in order, with a pool
  -- that is valid and `n` send threads that run, returns. Either `GetBlock` gives none, since no
  -- block is free and the pool has grown as often as it may or by nothing, and it returns false,
  -- with nothing more lent and no socket and no task changed; or `GetBlock` gives a block, and it
  -- returns true, with that block lent, which has the bytes and stands at the end of the chain of
  -- the socket, the other sockets unchanged, and one send task more, for the thread of the socket,
  -- if the state of the socket allows to send.
  pub send_data_lem :
      (s : SocketInformation) (xs : List (ℕ × MemNode))
      → 0 < len
      → len ≤ mem_pool_block_size
      → find sock e.socket_info ≡ some s
      → IsChain s.output_chain xs
      → Order.IsValid n e.send_thread_manager
      → Lending.IsValid e.send_data_mem lent
      → Outcome s xs (send_data sock (some bytes) (pos len) back e)
  unfolding send_data
  send_data_lem s xs some_bytes fits at_sock chained threads v =
      let checked : (leb len 0 || ltb mem_pool_block_size len) ≡ false = ground arith in
      rw checked (
        fill_block_lem (get_block e.send_data_mem) s xs at_sock chained threads
          (get_block_lem e.send_data_mem lent v) refl)

  unknown_lem :
      (got : Option ℕ × MemPool)
      → find sock e.socket_info ≡ none
      → Got got lent
      → (e' : EpollServer K) × (fill_block sock bytes len back got e ≡ some (false, e'))
        × Refused e'
  unfolding fill_block queue_block
  unknown_lem (none, pool) out v = (
    record e { send_data_mem = pool },
    refl,
    record { pool = v.0; sockets = refl; tasks = refl; same_kernel = refl },
  )
  unknown_lem (some block, pool) out v = (
    record e {
      send_data_mem = (free_block block pool).1;
      memory = copy_to block (take len bytes) e.memory;
    },
    rw (out) refl,
    record {
      pool = (free_block_lem pool block [] lent v).2;
      sockets = refl;
      tasks = refl;
      same_kernel = refl;
    },
  )

  -- `SendData` of 1 to 1152 bytes to a socket that is not there, with a pool that is valid,
  -- returns false, with nothing more lent and no socket and no task changed.
  pub send_data-unknown :
      0 < len
      → len ≤ mem_pool_block_size
      → find sock e.socket_info ≡ none
      → Lending.IsValid e.send_data_mem lent
      → (e' : EpollServer K) × (send_data sock (some bytes) (pos len) back e ≡ some (false, e'))
        × Refused e'
  unfolding send_data
  send_data-unknown some_bytes fits out v =
      let checked : (leb len 0 || ltb mem_pool_block_size len) ≡ false = ground arith in
      rw checked
        (unknown_lem (get_block e.send_data_mem) out (get_block_lem e.send_data_mem lent v))
