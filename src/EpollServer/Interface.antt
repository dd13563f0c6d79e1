-- ===== src/EpollServer/Interface.antt =====
-- The system calls of the epoll server, as functions on a state of the kernel.
use cmdtran.Common.{ℕ, ◌≤◌, ◌<◌, Bool, true, false, Option, List, ◌≡◌, ◌≢◌}
use cmdtran.Common.Int.{ℤ}

pub record Kernel : Type 1 where
  pub State : Type 0
  -- `epoll_ctl` with EPOLL_CTL_MOD of a socket, and whether EPOLLIN is among the events; `false` is an error.
  pub epoll_ctl_mod : ℕ → Bool → State → Bool × State
  -- `send` of the bytes on a socket, with its result.
  pub send : ℕ → List ℕ → State → ℤ × State

-- What `epoll_ctl` does to the sockets that epoll reads.
pub record Control (kernel : Kernel) : Type 0 where
  pub reads : ℕ → kernel.State → Bool
  pub reads-done :
      (k : ℕ) (b : Bool) (s : kernel.State)
      → (kernel.epoll_ctl_mod k b s).0 ≡ true
      → reads k (kernel.epoll_ctl_mod k b s).1 ≡ b
  pub reads-failed :
      (k : ℕ) (b : Bool) (s : kernel.State)
      → (kernel.epoll_ctl_mod k b s).0 ≡ false
      → reads k (kernel.epoll_ctl_mod k b s).1 ≡ reads k s
  pub reads-ne :
      (k j : ℕ) (b : Bool) (s : kernel.State)
      → k ≢ j
      → reads j (kernel.epoll_ctl_mod k b s).1 ≡ reads j s

-- What `read` has returned: bytes, the end of the stream, or an error, such as no bytes at hand.
pub data Received : Type 0 where
  bytes : List ℕ → Received
  end : Received
  failed : Received

-- The system calls of the receive task. `accept` and the `fcntl` behind it give a socket or an
-- error; `epoll_ctl_add` answers `false` for an error.
pub record Network (kernel : Kernel) : Type 0 where
  pub accept : kernel.State → Option ℕ × kernel.State
  pub epoll_ctl_add : ℕ → kernel.State → Bool × kernel.State
  pub epoll_ctl_del : ℕ → kernel.State → kernel.State
  pub close : ℕ → kernel.State → kernel.State
  pub read : ℕ → ℕ → kernel.State → Received × kernel.State

-- While a task reads a socket, the bytes at hand are used up: each `read` that gives bytes gives no more
-- than there is room for, and leaves less to read.
pub record Reads {kernel : Kernel} (network : Network kernel) : Type 0 where
  pub pending : ℕ → kernel.State → ℕ
  pub read-pending :
      (sock room : ℕ) (s s' : kernel.State) (bs : List ℕ)
      → network.read sock room s ≡ (bytes bs, s')
      → pending sock s' < pending sock s
  pub control-pending :
      (sock k : ℕ) (b : Bool) (s : kernel.State)
      → pending sock (kernel.epoll_ctl_mod k b s).1 ≤ pending sock s
  pub close-pending :
      (sock k : ℕ) (s : kernel.State) → pending sock (network.close k s) ≤ pending sock s
