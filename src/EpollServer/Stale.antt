-- ===== src/EpollServer/Stale.antt =====
-- A socket that was closed without `RemoveSocket`, as the last branch of the receive task and a refused
-- login do, and a new connection with its number.
use cmdtran.Common.{ℕ, ◌≡◌, ap, ◌∙◌, Bool, true, false, not, ◌||◌, some}
use cmdtran.Common.Map.{
  find, insert, erase, IsSorted, erase-IsSorted, find-erase_self, find-insert_new, find-insert_old,
}
use cmdtran.RecvDataProc.{RecvDataProc, add_client, quit_client, new_client_info}
use cmdtran.EpollServer.Interface.{Kernel, Network}
use cmdtran.EpollServer.{EpollServer, SocketInformation, disable_read, new_socket}
use cmdtran.EpollServer.Read.{modify_read-same}
use cmdtran.EpollServer.Serves.{serves}
use cmdtran.EpollServer.RecvTask.{added, hang_up}

module _ (kernel : Kernel) (network : Network kernel) where
  open kernel use {State}
  open network use {close}

  -- With both maps in order: when a socket that is known and not to be read hangs up, and a
  -- connection with the same number is accepted, the epoll server still has the old socket with
  -- its chain, its state and its flag, the new client is there, and `DisableRead` of the socket
  -- returns true and does nothing.
  pub stale_lem :
      (sock camera : ℕ) (k : State) (p : RecvDataProc (EpollServer State)) (s : SocketInformation)
      → IsSorted p.client_map
      → IsSorted p.server.socket_info
      → find sock p.server.socket_info ≡ some s
      → s.enable_read ≡ false
      → let q = added kernel network camera sock (true, k) (hang_up kernel network sock p) in
        (find sock q.server.socket_info ≡ some s)
        × (find sock q.client_map ≡ some (new_client_info (serves kernel close) sock camera))
        × (disable_read kernel sock q.server ≡ (true, q.server))
  unfolding added hang_up add_client quit_client disable_read
  stale_lem sock camera k p s clients sockets there off =
      let old : find sock (insert sock (new_socket sock) p.server.socket_info) ≡ some s =
        find-insert_old sock (new_socket sock) p.server.socket_info sock s sockets there ∙ there in
      (
        old,
        find-insert_new sock (new_client_info (serves kernel close) sock camera)
            (erase sock p.client_map) (erase-IsSorted sock p.client_map clients)
            (find-erase_self sock p.client_map clients),
        modify_read-same kernel sock false _ s old (ap (λ (b : Bool). not true || not b) off),
      )
