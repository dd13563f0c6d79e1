-- ===== src/EpollServer/Kept.antt =====
-- The calls of `CEpollServer` keep its chains, its pool and its send threads in order.
use mathlib.Core.Option.{some-injective}
use cmdtran.Common.{
  ℕ, ◌≡◌, refl, sym, ◌∙◌, subst, Bool, true, false, not, ◌&&◌, ◌||◌, Option, none, some, List, [],
  ◌∷◌, ◌++◌, length, arith, Bool-cases, Option-cases, inl, inr, ltb, leb,
}
use cmdtran.Common.Int.{pos}
use cmdtran.Common.Map.{
  find, insert, update, update-IsSorted, insert-IsSorted, find-insert_new, find-insert_ne,
}
use cmdtran.MasterWorkPool.Order.{add_task_lem}
use cmdtran.MemChain.{MemNode, new_node}
use cmdtran.MemChain.Linked.{IsChain, init-IsChain}
use cmdtran.EpollServer.{
  EpollServer, SocketInformation, mem_pool_block_size, send_data, modify_read, enable_read,
  disable_read, new_socket, writable, add_send_task, send_state_allow,
}
use cmdtran.EpollServer.Interface.{Kernel}
use cmdtran.EpollServer.Send.{Outcome, send_data_lem, send_data-unknown}
use cmdtran.EpollServer.Sound.{
  Chains, all_blocks, IsSound, lent-Perm, update-IsSound, kernel-IsSound, all_blocks-update,
}
use cmdtran.EpollServer.Serves.{flag, serves, update-flag}
use cmdtran.RecvDataProc.Calls.{Keeps}
use cmdtran.EpollServer.Chained.{
  put_chain, blocks-append, all_blocks-put, all_blocks-insert, find-put_chain,
}

module _ {K : Type 0} (n : ℕ) where
  abbrev pub Sound : EpollServer K → Type 0
  Sound e = (chains : Chains) × IsSound e n chains

  -- A socket that is new to the server, as the receive task adds it.
  pub insert-Sound :
      (sock : ℕ) (k : K) (e : EpollServer K)
      → find sock e.socket_info ≡ none
      → Sound e
      → Sound (record e { socket_info = insert sock (new_socket sock) e.socket_info; kernel = k })
  insert-Sound sock k e out (chains, v) = (
    put_chain chains sock [],
    record {
      sorted = insert-IsSorted sock (new_socket sock) e.socket_info v.sorted;
      chained =
          find-put_chain chains sock [] e.socket_info (insert sock (new_socket sock) e.socket_info)
            v.chained
            (λ s here.
              subst (λ (s : SocketInformation). IsChain s.output_chain [])
                (some-injective (new_socket sock) s
                  (sym (find-insert_new sock (new_socket sock) e.socket_info v.sorted out) ∙ here))
                init-IsChain)
            (λ j h. find-insert_ne sock j (new_socket sock) e.socket_info h);
      pool = rw (all_blocks-insert chains sock (new_socket sock) e.socket_info out) v.pool;
      threads = v.threads;
    },
  )

  sent-Sound :
      (sock : ℕ) (bytes : List ℕ) (back : Bool) (e : EpollServer K) (chains : Chains)
      (s : SocketInformation) (out : Option (Bool × EpollServer K))
      → IsSound e n chains
      → find sock e.socket_info ≡ some s
      → Outcome n sock
          (length bytes)
          bytes
          back
          e
          (all_blocks chains e.socket_info)
          s
          (chains sock)
          out
      → (done : Bool) × (e' : EpollServer K) × (out ≡ some (done, e'))
        × Sound e'
        × (e'.kernel ≡ e.kernel)
  sent-Sound sock bytes back e chains s out v there (e', inl (returns, refused, full)) = (
    false,
    e',
    returns,
    (
      chains,
      record {
        sorted = rw refused.sockets v.sorted;
        chained = rw refused.sockets v.chained;
        pool = rw refused.sockets refused.pool;
        threads = rw refused.tasks v.threads;
      },
    ),
    refused.same_kernel,
  )
  sent-Sound sock bytes back e chains s out v there (e', inr (returns, taken)) = (
    true,
    e',
    returns,
    (
      put_chain chains sock longer,
      record {
        sorted = rw taken.changed (
            update-IsSorted sock (λ s. record s { output_chain = taken.chain }) e.socket_info
              v.sorted);
        chained =
            find-put_chain chains sock longer e.socket_info e'.socket_info v.chained
              (λ t here.
                subst (λ (t : SocketInformation). IsChain t.output_chain longer)
                  (some-injective _ t (sym taken.at_socket ∙ here)) taken.queued)
              taken.others;
        pool = rw taken.changed (
            rw
              (all_blocks-update (put_chain chains sock longer) sock
                (λ s. record s { output_chain = taken.chain }) e.socket_info)
              (lent-Perm e'.send_data_mem (taken.block ∷ all_blocks chains e.socket_info)
                (all_blocks (put_chain chains sock longer) e.socket_info)
                (all_blocks-put chains sock taken.block s longer e.socket_info v.sorted there (
                  blocks-append (chains sock) s.output_chain.unused taken.block (length bytes)
                    back))
                taken.pool));
        threads = taken.threads;
      },
    ),
    taken.same_kernel,
  )
    where
      longer : List (ℕ × MemNode)
      longer = chains sock ++ (s.output_chain.unused, new_node taken.block (length bytes) back) ∷ []

  -- `SendData` of any bytes to any socket returns.
  pub send_data-Sound :
      (sock : ℕ) (bytes : List ℕ) (back : Bool) (e : EpollServer K)
      → Sound e
      → (done : Bool) × (e' : EpollServer K) × (send_data sock
            (some bytes)
            (pos (length bytes))
            back
            e
          ≡ some (done, e'))
        × Sound e'
        × (e'.kernel ≡ e.kernel)
  unfolding send_data
  send_data-Sound sock bytes back e (chains, v) =
      elim (Bool-cases (leb (length bytes) 0 || ltb mem_pool_block_size (length bytes))) [
        | inl refused ↦ (false, e, rw refused refl, (chains, v), refl)
        | inr fits ↦ elim (Option-cases (find sock e.socket_info)) [
          | inr (s, there) ↦ sent-Sound sock bytes back e chains s _ v there (
              send_data_lem n sock (length bytes) bytes back e (all_blocks chains e.socket_info) s
                (chains sock) (ground arith) (ground arith) there (v.chained sock s there) v.threads
                v.pool)
          | inl out ↦
              let (e', returns, refused) =
                send_data-unknown n sock (length bytes) bytes back e
                  (all_blocks chains e.socket_info) (ground arith) (ground arith) out v.pool in
              (
                false,
                e',
                returns,
                (
                  chains,
                  record {
                    sorted = rw refused.sockets v.sorted;
                    chained = rw refused.sockets v.chained;
                    pool = rw refused.sockets refused.pool;
                    threads = rw refused.tasks v.threads;
                  },
                ),
                refused.same_kernel,
              )
        ]
      ]

  -- The receive task at EPOLLOUT returns.
  pub writable-Sound :
      (sock : ℕ) (e : EpollServer K)
      → Sound e
      → (done : Bool) × (e' : EpollServer K) × (writable sock e ≡ some (done, e'))
        × Sound e'
        × ((j : ℕ) → flag j e' ≡ flag j e)
  unfolding writable add_send_task
  writable-Sound sock e (chains, v) = elim (Option-cases (find sock e.socket_info)) [
    | inl out ↦ (false, e, rw (out, writable) refl, (chains, v), λ j. refl)
    | inr (s, there) ↦
        let (tm, added, ok, _) = add_task_lem n sock sock e.send_thread_manager v.threads in
        let f : SocketInformation → SocketInformation =
          λ s. record s { curr_send_state = send_state_allow } in
        let w = update-IsSound v e.kernel sock f (λ s. refl) in
        (
          true,
          record e { socket_info = update sock f e.socket_info; send_thread_manager = tm },
          rw (there, writable, added) refl,
          (chains, record { sorted = w.sorted; chained = w.chained; pool = w.pool; threads = ok }),
          λ j. update-flag sock j f e.socket_info (λ s. refl),
        )
  ]

module _ (kernel : Kernel) (n : ℕ) where
  open kernel use {State}

  modify_read-Sound :
      (sock : ℕ) (enable : Bool) (e : EpollServer State)
      → Sound n e
      → Sound n (modify_read kernel sock enable e).1
  unfolding modify_read
  modify_read-Sound sock enable e (chains, v) = elim (Option-cases (find sock e.socket_info)) [
    | inl out ↦ rw (out, modify_read) (chains, v)
    | inr (s, there) ↦
        elim (Bool-cases ((enable && s.enable_read) || (not enable && not s.enable_read))) [
          | inl same ↦ rw (there, modify_read, same) (chains, v)
          | inr other ↦
              rw (there, modify_read, other)
                (
                  chains,
                  update-IsSound v _ sock (λ s. record s { enable_read = enable }) (λ s. refl),
                )
        ]
  ]

  modify_read_kernel :
      (sock : ℕ) (enable : Bool) (e : EpollServer State) (Q : State → Type 0)
      → ((k : ℕ) (b : Bool) (s : State) → Q s → Q (kernel.epoll_ctl_mod k b s).1)
      → Q e.kernel
      → Q (modify_read kernel sock enable e).1.kernel
  unfolding modify_read
  modify_read_kernel sock enable e Q control q = elim (Option-cases (find sock e.socket_info)) [
    | inl out ↦ rw (out, modify_read) q
    | inr (s, there) ↦
        elim (Bool-cases ((enable && s.enable_read) || (not enable && not s.enable_read))) [
          | inl same ↦ rw (there, modify_read, same) q
          | inr other ↦ rw (there, modify_read, other) (control sock enable e.kernel q)
        ]
  ]

  -- The calls that `CRecvDataProc` makes keep the server in order, and a bound on what stands for a
  -- socket in the kernel, where the system calls do.
  pub serves-Keeps :
      (close : ℕ → State → State) (Q : State → Type 0)
      → ((k : ℕ) (b : Bool) (s : State) → Q s → Q (kernel.epoll_ctl_mod k b s).1)
      → ((k : ℕ) (s : State) → Q s → Q (close k s))
      → Keeps (serves kernel close) (λ e. Sound n e × Q e.kernel)
  unfolding enable_read disable_read
  serves-Keeps close Q control closing = record {
    keeps_send = λ k bytes back e (ok, q).
        let (done, e', returns, ok', same) = send_data-Sound n k bytes back e ok in
        rw returns (ok', rw same q);
    keeps_enable =
        λ k e (ok, q). (modify_read-Sound k true e ok, modify_read_kernel k true e Q control q);
    keeps_disable =
        λ k e (ok, q). (modify_read-Sound k false e ok, modify_read_kernel k false e Q control q);
    keeps_close =
        λ k e (ok, q). ((ok.0, kernel-IsSound ok.1 (close k e.kernel)), closing k e.kernel q);
  }
