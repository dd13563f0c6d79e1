-- ===== src/RecvDataProc/Server.antt =====
-- What `CRecvDataProc` asks of the `CEpollServer` that its base class `CRecvDataProcIntf` points
-- to, and of the system call `close`.
use cmdtran.Common.{ℕ, Bool, true, false, Option, some, List, ◌≡◌, ◌≢◌}

pub record EpollServer : Type 1 where
  pub State : Type 0
  -- `SendData` of a socket and the bytes, with whether there is a callback.
  pub send_data : ℕ → List ℕ → Bool → State → State
  pub enable_read : ℕ → State → State
  pub disable_read : ℕ → State → State
  pub close : ℕ → State → State

-- What the calls do to the sockets that epoll flag.
pub record Reading (epoll : EpollServer) : Type 0 where
  pub flag : ℕ → epoll.State → Option Bool
  pub flag-enable :
      (k : ℕ) (s : epoll.State) (b : Bool)
      → flag k s ≡ some b
      → flag k (epoll.enable_read k s) ≡ some true
  pub flag-disable :
      (k : ℕ) (s : epoll.State) (b : Bool)
      → flag k s ≡ some b
      → flag k (epoll.disable_read k s) ≡ some false
  pub flag-enable_ne :
      (k j : ℕ) (s : epoll.State) → k ≢ j → flag j (epoll.enable_read k s) ≡ flag j s
  pub flag-disable_ne :
      (k j : ℕ) (s : epoll.State) → k ≢ j → flag j (epoll.disable_read k s) ≡ flag j s
  pub flag-send :
      (k j : ℕ) (bytes : List ℕ) (back : Bool) (s : epoll.State)
      → flag j (epoll.send_data k bytes back s) ≡ flag j s
  pub flag-close_ne : (k j : ℕ) (s : epoll.State) → k ≢ j → flag j (epoll.close k s) ≡ flag j s
