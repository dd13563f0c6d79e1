-- ===== src/EpollServer/RecvTask.antt =====
-- `CSocketRecvTask` of ComandTran/src/EpollServer.cpp: the task that serves an event of epoll, on the
-- `CRecvDataProc` that stands on the epoll server. A result `none` is a fault, or the end of the fuel.
use cmdtran.Common.{
  ℕ, zero, suc, ◌+◌, ◌*◌, Bool, true, false, Option, none, some, length, ◌==◌, if◌then◌else◌,
}
use cmdtran.Common.Map.{insert}
use cmdtran.RecvDataProc.{RecvDataProc, add_client, quit_client, add_recv_data}
use cmdtran.EpollServer.Interface.{Kernel, Network, Received, bytes, end, failed}
use cmdtran.EpollServer.{EpollServer, new_socket, remove_socket, writable}
use cmdtran.EpollServer.Serves.{serves}

-- `MEM_POOL_BLOCK_SIZE *2`, with no parentheses in the macro.
abbrev pub read_size : ℕ
read_size = 1024 + 128 * 2

-- `epoll_event`, with the two flags that the task tests.
pub record Event : Type 0 where
  pub fd : ℕ
  pub epollin : Bool
  pub epollout : Bool

module _ (kernel : Kernel) (network : Network kernel) where
  open kernel use {State}
  open network use {accept, epoll_ctl_add, epoll_ctl_del, close, read}

  abbrev pub Proc : Type 0
  Proc = RecvDataProc (EpollServer State)

  abbrev pub with_server : EpollServer State → Proc → Proc
  with_server e p = record p { server = e }

  abbrev pub with_kernel : State → Proc → Proc
  with_kernel k p = record p { server = record p.server { kernel = k } }

  -- The branch for the listening socket behind `epoll_ctl`. `camera` is what the new `ClientInfo` has
  -- as a camera.
  unfoldable pub added : ℕ → ℕ → Bool × State → Proc → Proc
  added camera sock (false, k) p = with_kernel (close sock k) p
  added camera sock (true, k) p = add_client (serves kernel close) sock camera (
      with_server
        (record p.server {
          socket_info = insert sock (new_socket sock) p.server.socket_info;
          kernel = k;
        })
        p)

  -- The same behind `accept`. The socket −1 of an `accept` that failed is refused by `epoll_ctl` and by
  -- `close`.
  unfoldable pub accepted : ℕ → Option ℕ × State → Proc → Proc
  unfolding added
  accepted camera (none, k) p = with_kernel k p
  accepted camera (some sock, k) p = added camera sock (epoll_ctl_add sock k) p

  -- `ProcessRecvData` behind a `read`; the rest of the loop comes first.
  unfoldable pub read_round :
      (Proc → Option (Bool × Proc)) → ℕ → Received → Proc → Option (Bool × Proc)
  read_round rest sock end p =
      let q = quit_client (serves kernel close) sock (with_kernel (close sock p.server.kernel) p) in
      elim (remove_socket sock q.server) [ none ↦ none | some e ↦ some (false, with_server e q) ]
  read_round rest sock failed p = some (true, p)
  read_round rest sock (bytes buff) p =
      elim (add_recv_data (serves kernel close) sock buff (length buff) p) [
        | none ↦ none
        | some (done, p') ↦ rest p'
      ]

  unfoldable pub process_recv_data : ℕ → ℕ → Proc → Option (Bool × Proc)
  process_recv_data zero sock p = none
  process_recv_data (suc fuel) sock p =
      let (received, k) = read sock read_size p.server.kernel in
      read_round (process_recv_data fuel sock) sock received (with_kernel k p)

  -- The last branch, for an event that is neither.
  unfoldable pub hang_up : ℕ → Proc → Proc
  hang_up sock p =
      quit_client (serves kernel close) sock
        (with_kernel (close sock (epoll_ctl_del sock p.server.kernel)) p)

  unfoldable pub process_recv_ents : ℕ → ℕ → ℕ → Event → Proc → Option (Bool × Proc)
  unfolding accepted process_recv_data hang_up
  process_recv_ents fuel listen camera ev p =
      if ev.fd == listen
      then some (true, accepted camera (accept p.server.kernel) p)
      else if ev.epollin
      then (elim (process_recv_data fuel ev.fd p) [
        | none ↦ none
        | some (done, p') ↦ some (true, p')
      ])
      else if ev.epollout
      then (elim (writable ev.fd p.server) [
        | none ↦ none
        | some (done, e) ↦ some (done, with_server e p)
      ])
      else some (true, hang_up ev.fd p)
