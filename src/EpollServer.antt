-- ===== src/EpollServer.antt =====
-- ComandTran/src/EpollServer.cpp and ComandTran/inc/EpollServer.h: what the class `CEpollServer`
-- keeps of each socket, with the calls that send, remove a socket and switch its reading. The
-- start of the server is in Start.antt, its tasks are in RecvTask.antt and SendTask.antt. A result `none` is a fault: a dereference
-- of NULL or of a deleted node, a division by 0, or an endless loop.
pub mod Interface
pub mod Send
pub mod Remove
pub mod SendTask
pub mod Task
pub mod Read
pub mod Serves
pub mod RecvTask
pub mod Sound
mod Chained
pub mod Kept
pub mod Receives
pub mod Events
mod Sends
pub mod Runs
pub mod Stale
pub mod Start
pub mod Started
use cmdtran.Common.{
  ℕ, zero, suc, ◌+◌, ◌-◌, ◌*◌, Bool, true, false, not, ◌&&◌, ◌||◌, Option, none, some, List, [],
  ◌∷◌, ◌++◌, take, drop, length, leb, ltb, ◌==◌, if◌then◌else◌,
}
use cmdtran.Common.Int.{ℤ, pos, negsuc, pos_part, exceeds_ℕ}
use cmdtran.Common.Map.{find, erase, update, insert}
use cmdtran.MemPool.{MemPool, creat_pool, get_block, free_block}
use cmdtran.MemPool
use cmdtran.MasterWorkPool.{MasterWorkPool}
use cmdtran.MasterWorkPool
use cmdtran.MemChain.{MemChain, MemNode, push, delete_head, deref, put, get_head, get_size}
use cmdtran.MemChain
use Interface.{Kernel}

abbrev pub mem_pool_block_size : ℕ
mem_pool_block_size = 1024 + 128

abbrev pub send_state_allow : ℕ
send_state_allow = 0

abbrev pub send_state_waiting : ℕ
send_state_waiting = 1

abbrev pub send_failed : ℕ
send_failed = 1

pub record SocketInformation : Type 0 where
  pub sock_id : ℕ
  pub output_chain : MemChain
  pub curr_send_state : ℕ
  pub enable_read : Bool

-- A call of a `SendCallBack`: the buffer, the length and the code.
pub record CallBack : Type 0 where
  pub buffer : Option ℕ
  pub len : ℕ
  pub code : ℕ

-- `memory` has the bytes of each block, `send_thread_manager` the sockets of its `CSocketSendTask`s, and
-- `call_backs` the calls that were made, oldest first.
pub record EpollServer (K : Type 0) : Type 0 where
  pub socket_info : List (ℕ × SocketInformation)
  pub enable_reading : Bool
  pub send_thread_manager : MasterWorkPool ℕ
  pub send_data_mem : MemPool
  pub memory : ℕ → List ℕ
  pub call_backs : List CallBack
  pub kernel : K

-- The constructor.
unfoldable pub init : {K : Type 0} → (ℕ → ℕ) → (ℕ → List ℕ) → K → EpollServer K
init garbage memory kernel = record {
  socket_info = [];
  enable_reading = true;
  send_thread_manager = MasterWorkPool.init;
  send_data_mem =
      (creat_pool mem_pool_block_size (1024 * 100) (1024 * 10) (MemPool.init garbage)).1;
  memory = memory;
  call_backs = [];
  kernel = kernel;
}

-- What the constructor of `SocketInformation` and the receive task give a socket that connects.
abbrev pub new_socket : ℕ → SocketInformation
new_socket sock = record {
  sock_id = sock;
  output_chain = MemChain.init;
  curr_send_state = send_state_allow;
  enable_read = true;
}

-- `FreeBlock` of the buffer of a node. A buffer that is NULL does not come here.
abbrev pub give_back : Option ℕ → MemPool → MemPool
give_back none pool = pool
give_back (some b) pool = (free_block b pool).1

-- The call of a node's `CallBackFun`, where it has one.
abbrev pub call_back : MemNode → ℕ → List CallBack → List CallBack
call_back n code calls =
    if n.call_back_fun
    then calls ++ record { buffer = n.buffer; len = n.len; code = code } ∷ []
    else calls

-- `memcpy` to the start of a block.
abbrev pub copy_to : ℕ → List ℕ → (ℕ → List ℕ) → ℕ → List ℕ
copy_to block bytes memory b =
    if b == block then bytes ++ drop (length bytes) (memory b) else memory b

module _ {K : Type 0} where
  -- The send task of a socket goes to the send threads.
  unfoldable pub add_send_task : ℕ → EpollServer K → Option (EpollServer K)
  add_send_task sock e = elim (MasterWorkPool.add_task sock sock e.send_thread_manager) [
    | none ↦ none
    | some tm ↦ some (record e { send_thread_manager = tm })
  ]

  -- The end of `SendData`, where the state of the socket allows to send.
  unfoldable pub signal : ℕ → ℕ → EpollServer K → Option (Bool × EpollServer K)
  signal sock state e =
      if state == send_state_allow
      then elim (add_send_task sock e) [ none ↦ none | some e' ↦ some (true, e') ]
      else some (true, e)

  -- `SendData` behind the `Push` to the chain of the socket.
  unfoldable pub pushed :
      ℕ → ℕ → Option (Bool × MemChain) → EpollServer K → Option (Bool × EpollServer K)
  pushed sock state none e = none
  pushed sock state (some (done, chain)) e = signal sock state (record e {
    socket_info = update sock (λ s. record s { output_chain = chain }) e.socket_info;
  })

  -- `SendData` at the socket that it has found, with the block that it has filled.
  unfoldable pub queue_block :
      ℕ → ℕ → ℕ → Bool → Option SocketInformation → EpollServer K → Option (Bool × EpollServer K)
  queue_block sock block len back none e =
      some (false, record e { send_data_mem = (free_block block e.send_data_mem).1 })
  queue_block sock block len back (some s) e =
      pushed sock s.curr_send_state (push (some block) len back s.output_chain) e

  -- `SendData` behind its call of `GetBlock`, with what that returned.
  unfoldable pub fill_block :
      ℕ → List ℕ → ℕ → Bool → Option ℕ × MemPool → EpollServer K → Option (Bool × EpollServer K)
  fill_block sock bytes len back (none, pool) e = some (false, record e { send_data_mem = pool })
  fill_block sock bytes len back (some block, pool) e =
      queue_block sock block len back (find sock e.socket_info)
        (record e { send_data_mem = pool; memory = copy_to block (take len bytes) e.memory })

  unfoldable pub send_data :
      ℕ → Option (List ℕ) → ℤ → Bool → EpollServer K → Option (Bool × EpollServer K)
  send_data sock none len back e = some (false, e)
  send_data sock (some bytes) (negsuc n) back e = some (false, e)
  send_data sock (some bytes) (pos len) back e =
      if leb len 0 || ltb mem_pool_block_size len
      then some (false, e)
      else fill_block sock bytes len back (get_block e.send_data_mem) e

  -- A node of a socket that is gone: its callback, and its block back to the pool.
  unfoldable pub give_up : MemNode → EpollServer K → EpollServer K
  give_up n e = record e {
    call_backs = call_back n send_failed e.call_backs;
    send_data_mem = give_back n.buffer e.send_data_mem;
  }

  -- A round of the loop of `RemoveSocket`, with the test, the head and what `DeleteHead` does to the
  -- chain; the rest of the loop comes last.
  unfoldable pub drain_round :
      (MemChain → EpollServer K → Option (EpollServer K))
      → Bool
      → Option MemNode
      → Option (Bool × MemChain)
      → EpollServer K
      → Option (EpollServer K)
  drain_round rest false n deleted e = some e
  drain_round rest true none deleted e = none
  drain_round rest true (some n) none e = none
  drain_round rest true (some n) (some (done, chain)) e = rest chain (give_up n e)

  unfoldable pub drain : ℕ → MemChain → EpollServer K → Option (EpollServer K)
  drain zero chain e = none
  drain (suc fuel) chain e =
      drain_round (drain fuel) (exceeds_ℕ (get_size chain) 0) (deref chain.heap (get_head chain))
        (delete_head chain) e

  unfoldable pub remove_socket : ℕ → EpollServer K → Option (EpollServer K)
  remove_socket sock e = elim (find sock e.socket_info) [
    | none ↦ some e
    | some s ↦
        drain (suc (pos_part (get_size s.output_chain))) s.output_chain
          (record e { socket_info = erase sock e.socket_info })
  ]

  -- The receive task at EPOLLOUT: the socket may send again.
  unfoldable pub writable : ℕ → EpollServer K → Option (Bool × EpollServer K)
  writable sock e = elim (find sock e.socket_info) [
    | none ↦ some (false, e)
    | some s ↦
        elim (add_send_task sock (record e {
          socket_info =
              update sock (λ s. record s { curr_send_state = send_state_allow }) e.socket_info;
        })) [ none ↦ none | some e' ↦ some (true, e') ]
  ]

module _ (kernel : Kernel) where
  open kernel use {State, epoll_ctl_mod, send}

  unfoldable pub modify_read : ℕ → Bool → EpollServer State → Bool × EpollServer State
  modify_read sock enable e = elim (find sock e.socket_info) [
    | none ↦ (true, e)
    | some s ↦
        if (enable && s.enable_read) || (not enable && not s.enable_read)
        then (true, e)
        else (let (done, k) = epoll_ctl_mod sock enable e.kernel in
            (
              done,
              record e {
                socket_info = update sock (λ s. record s { enable_read = enable }) e.socket_info;
                kernel = k;
              },
            ))
  ]

  unfoldable pub enable_read : ℕ → EpollServer State → Bool × EpollServer State
  enable_read sock e = modify_read sock true e

  unfoldable pub disable_read : ℕ → EpollServer State → Bool × EpollServer State
  disable_read sock e = modify_read sock false e

  -- The loop over all sockets, with the result so far.
  unfoldable pub modify_all : Bool → List (ℕ × SocketInformation) → Bool → State → Bool × State
  modify_all enable [] ret k = (ret, k)
  modify_all enable ((_, s) ∷ m) ret k =
      let (done, k') = epoll_ctl_mod s.sock_id enable k in modify_all enable m (ret && done) k'

  -- `EnableRead` and `DisableRead` without a socket.
  unfoldable pub switch_all : Bool → EpollServer State → Bool × EpollServer State
  switch_all enable e =
      if (enable && e.enable_reading) || (not enable && not e.enable_reading)
      then (true, e)
      else (let (ret, k) = modify_all enable e.socket_info true e.kernel in
          (ret, record e { enable_reading = enable; kernel = k }))
