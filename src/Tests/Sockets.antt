-- ===== src/Tests/Sockets.antt =====
-- An epoll server with one socket, in whose chain stands one node, and kernels that take a part of
-- the bytes, or all of them, or fail.
use cmdtran.Common.{
  ℕ, ◌≡◌, ◌≢◌, refl, sym, ap, Bool, true, false, ◌&&◌, inl, inr, Option, none, some, List, [], ◌∷◌,
  ◌++◌, length, drop, min, arith, ◌==◌, if◌then◌else◌, eq→==, ne→==, Bool-cases, ◌∙◌,
}
use mathlib.Core.Bool.{true≢false}
use cmdtran.Common.Int.{pos}
use cmdtran.Common.Map.{find}
use cmdtran.MemPool.Lending
use cmdtran.MasterWorkPool
use cmdtran.MasterWorkPool.Order.{init_pool-IsValid}
use cmdtran.MemChain.{MemChain, MemNode, new_node}
use cmdtran.MemChain
use cmdtran.MemChain.Linked.{IsChain, init-IsChain}
use cmdtran.MemChain.Queue.{push-IsChain}
use cmdtran.EpollServer.{
  EpollServer, SocketInformation, send_data, remove_socket, modify_read, new_socket,
  send_state_waiting,
}
use cmdtran.EpollServer.SendTask.{process_send_task, unsent}
use cmdtran.EpollServer.Interface.{Kernel, Control}
use cmdtran.EpollServer.Send.{Outcome, send_data_lem}
use cmdtran.EpollServer.Remove.{failures, remove_socket_lem}
use cmdtran.EpollServer.Task.{process_send_task-faults, process_send_task-part}
use cmdtran.EpollServer.Read.{Agrees, modify_read_lem, modify_read-fails}
use cmdtran.Tests.{small_pool}
use cmdtran.Tests.Pools.{small_pool-IsValid, lent_pool, lent_pool-IsValid}

-- A kernel that has the switch of one socket, takes no more bytes than a limit, and fails in `epoll_ctl` or not.
abbrev kernel : Bool → ℕ → Kernel
kernel works limit = record {
  State = ℕ → Bool;
  epoll_ctl_mod = λ k b s. (works, λ j. if works && (k == j) then b else s j);
  send = λ sock bytes s. (pos (min limit (length bytes)), s);
}

abbrev at_rest : EpollServer (ℕ → Bool)
at_rest = record {
  socket_info = (7, new_socket 7) ∷ [];
  enable_reading = true;
  send_thread_manager = MasterWorkPool.init_pool 4 (λ _. true) MasterWorkPool.init;
  send_data_mem = small_pool;
  memory = λ _. [];
  call_backs = [];
  kernel = λ _. true;
}

there : find 7 at_rest.socket_info ≡ some (new_socket 7)
unfolding find
there = refl

away : find 8 at_rest.socket_info ≡ none
unfolding find
away = refl

send_data_lem_example :
    Outcome 4 7 3
      (1 ∷ 2 ∷ 3 ∷ [])
      true
      at_rest
      []
      (new_socket 7)
      []
      (send_data 7 (some (1 ∷ 2 ∷ 3 ∷ [])) (pos 3) true at_rest)
send_data_lem_example =
    send_data_lem 4 7 3 (1 ∷ 2 ∷ 3 ∷ []) true at_rest [] (new_socket 7) [] (omega arith)
      (omega arith) there init-IsChain (init_pool-IsValid 4 (λ _. true) (omega arith) (λ k h. refl))
      small_pool-IsValid

-- The socket with a node of three bytes in block 1.
abbrev node : MemNode
node = new_node 1 3 true

abbrev nodes : List (ℕ × MemNode)
nodes = [] ++ (MemChain.init.unused, node) ∷ []

queued : (c : MemChain) × IsChain c nodes
queued = let (c, _, v) = push-IsChain MemChain.init [] 1 3 true init-IsChain in (c, v)

abbrev waiting_socket : SocketInformation
waiting_socket = record (new_socket 7) { output_chain = queued.0 }

abbrev loaded : EpollServer (ℕ → Bool)
loaded = record at_rest {
  socket_info = (7, waiting_socket) ∷ [];
  send_data_mem = lent_pool;
  memory = λ _. 1 ∷ 2 ∷ 3 ∷ [];
}

loaded_there : find 7 loaded.socket_info ≡ some waiting_socket
unfolding find
loaded_there = refl

remove_socket_lem_example :
    (e' : EpollServer (ℕ → Bool)) × (remove_socket 7 loaded ≡ some e')
    × Lending.IsValid e'.send_data_mem []
    × (e'.call_backs ≡ [] ++ failures nodes)
    × (find 7 e'.socket_info ≡ none)
    × ((j : ℕ) → 7 ≢ j → find j e'.socket_info ≡ find j loaded.socket_info)
remove_socket_lem_example =
    remove_socket_lem 7 waiting_socket nodes [] loaded tt loaded_there queued.1 lent_pool-IsValid

process_send_task-faults_example : process_send_task (kernel true 9) 1 7 loaded ≡ none
process_send_task-faults_example =
    process_send_task-faults (kernel true 9) 0 7 MemChain.init.unused 1 node [] waiting_socket
      loaded loaded_there queued.1 refl (omega arith) refl

process_send_task-part_example :
    (e' : EpollServer (ℕ → Bool)) × (s' : SocketInformation) × (n' : MemNode) × (process_send_task
        (kernel true 2)
        1
        7
        loaded
      ≡ some e')
    × (find 7 e'.socket_info ≡ some s')
    × (s'.curr_send_state ≡ send_state_waiting)
    × IsChain s'.output_chain ((MemChain.init.unused, n') ∷ [])
    × (unsent (kernel true 2) n' 1 e' ≡ drop 2 (unsent (kernel true 2) node 1 loaded))
process_send_task-part_example =
    process_send_task-part (kernel true 2) 0 7 MemChain.init.unused 1 2 node [] waiting_socket
      loaded loaded_there queued.1 refl (omega arith) (omega arith) refl

abbrev control : (works : Bool) → Control (kernel works 2)
control true = record {
  reads = λ k s. s k;
  reads-done = λ k b s e. rw (eq→== k k refl) refl;
  reads-failed = λ k b s e. absurd (true≢false e);
  reads-ne = λ k j b s h. rw (ne→== k j h) refl;
}
control false = record {
  reads = λ k s. s k;
  reads-done = λ k b s e. absurd (true≢false (sym e));
  reads-failed = λ k b s e. refl;
  reads-ne = λ k j b s h. refl;
}

abbrev flag_of : Option SocketInformation → Bool
flag_of none = true
flag_of (some s) = s.enable_read

flag_of-find : (k : ℕ) → flag_of (find k at_rest.socket_info) ≡ true
unfolding find
flag_of-find k = elim (Bool-cases (7 == k)) [ inl e ↦ rw e refl | inr e ↦ rw e refl ]

at_rest-Agrees : (works : Bool) → Agrees (kernel works 2) (control works) at_rest
at_rest-Agrees true k s e = sym (flag_of-find k) ∙ ap flag_of e
at_rest-Agrees false k s e = sym (flag_of-find k) ∙ ap flag_of e

modify_read_lem_example :
    Agrees (kernel true 2) (control true) (modify_read (kernel true 2) 7 false at_rest).1
    × ((modify_read (kernel true 2) 7 false at_rest).1.kernel 7 ≡ false)
    × ((j : ℕ)
        → 7 ≢ j
        → (modify_read (kernel true 2) 7 false at_rest).1.kernel j ≡ at_rest.kernel j)
unfolding modify_read find
modify_read_lem_example =
    modify_read_lem (kernel true 2) (control true) 7 false at_rest (new_socket 7)
      (at_rest-Agrees true) there refl

modify_read-fails_example :
    let e' = (modify_read (kernel false 2) 7 false at_rest).1 in
    (e'.kernel 7 ≡ true) × (modify_read (kernel false 2) 7 false e' ≡ (true, e'))
unfolding modify_read find
modify_read-fails_example =
    modify_read-fails (kernel false 2) (control false) 7 false at_rest (new_socket 7)
      (at_rest-Agrees false) there refl
