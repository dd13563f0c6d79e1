-- ===== src/EpollServer/Start.antt =====
-- The start of `CEpollServer`: `Start`, `InitEvn`, `InitScoket`, `AddLisSockEvent` and the thread
-- `_EventRecvFun`, which hands the events of epoll to the receive threads.
use cmdtran.Common.{
  ℕ, zero, suc, Bool, true, false, Option, none, some, List, [], ◌∷◌, if◌then◌else◌,
}
use cmdtran.MasterWorkPool.{MasterWorkPool, add_task, init_pool}
use cmdtran.EpollServer.{EpollServer}
use cmdtran.EpollServer.Interface.{Kernel}
use cmdtran.EpollServer.RecvTask.{Event}

-- The system calls of the start; `false` is an error. The port is that of the server.
pub record Setup (kernel : Kernel) : Type 0 where
  pub setrlimit : ℕ → kernel.State → Bool × kernel.State
  pub create_thread : kernel.State → Bool × kernel.State
  pub socket : kernel.State → Option ℕ × kernel.State
  pub set_reuse : ℕ → kernel.State → kernel.State
  pub set_nonblocking : ℕ → kernel.State → Bool × kernel.State
  pub bind : ℕ → ℕ → kernel.State → Bool × kernel.State
  pub listen : ℕ → ℕ → kernel.State → Bool × kernel.State
  pub epoll_create : ℕ → kernel.State → kernel.State
  pub epoll_ctl_listen : ℕ → kernel.State → Bool × kernel.State
  pub close : ℕ → kernel.State → kernel.State

abbrev pub epoll_event_max : ℕ
epoll_event_max = 1024

-- The number of the receive threads and of the send threads.
abbrev pub threads : ℕ
threads = 4

module _ (kernel : Kernel) (setup : Setup kernel) where
  open kernel use {State}
  open setup use {
    setrlimit, create_thread, socket, set_reuse, set_nonblocking, bind, listen, epoll_create,
    epoll_ctl_listen, close,
  }

  unfoldable pub init_evn : State → Bool × State
  init_evn k = setrlimit epoll_event_max k

  unfoldable pub add_lis_sock_event : ℕ → State → Bool × State
  add_lis_sock_event sock k = epoll_ctl_listen sock (epoll_create epoll_event_max k)

  -- A call that is made if the one before it succeeded.
  abbrev pub and_then : Bool × State → (State → Bool × State) → Bool × State
  and_then (false, k) call = (false, k)
  and_then (true, k) call = call k

  -- The calls for the listening socket, up to the first that fails.
  unfoldable pub prepare : ℕ → ℕ → State → Bool × State
  unfolding add_lis_sock_event
  prepare port sock k = and_then (set_nonblocking sock (set_reuse sock k)) (λ k.
      and_then (bind sock port k) (λ k. and_then (listen sock 1024 k) (add_lis_sock_event sock)))

  -- The end of `InitScoket`: the socket is closed where a call failed.
  unfoldable pub prepared : ℕ → Bool × State → Bool × Option ℕ × State
  prepared sock (true, k) = (true, some sock, k)
  prepared sock (false, k) = (false, some sock, close sock k)

  -- With no socket there is none to close. The option is `m_iListenSock`.
  unfoldable pub with_socket : ℕ → Option ℕ × State → Bool × Option ℕ × State
  unfolding prepare prepared
  with_socket port (none, k) = (false, none, k)
  with_socket port (some sock, k) = prepared sock (prepare port sock k)

  unfoldable pub init_scoket : ℕ → State → Bool × Option ℕ × State
  unfolding with_socket
  init_scoket port k = with_socket port (socket k)

  -- The state behind a number of calls of `pthread_create`, and the answer of a later one.
  unfoldable pub after_creates : ℕ → State → State
  after_creates zero k = k
  after_creates (suc i) k = (create_thread (after_creates i k)).1

  unfoldable pub creates : State → ℕ → Bool
  unfolding after_creates
  creates k i = (create_thread (after_creates i k)).0

  -- The state behind `InitEvn` and the call for the thread of the events.
  unfoldable pub event_thread : State → State
  unfolding init_evn
  event_thread k = (create_thread (init_evn k).1).1

  -- `Start`, with the pool of the receive threads. It does not look at what becomes of the threads
  -- of the two pools.
  unfoldable pub start :
      MasterWorkPool Event → EpollServer State → Bool × MasterWorkPool Event × EpollServer State
  unfolding init_evn after_creates creates
  start tm e =
      let (set, k) = init_evn e.kernel in
      let (created, k') = create_thread k in
      if set
      then if created
        then (
          true,
          init_pool threads (creates k') tm,
          record e {
            send_thread_manager =
                init_pool threads (creates (after_creates threads k')) e.send_thread_manager;
            kernel = after_creates threads (after_creates threads k');
          },
        )
        else (false, tm, record e { kernel = k' })
      else (false, tm, record e { kernel = k })

-- The loop of `_EventRecvFun` over the events of one `epoll_wait`.
unfoldable pub post_events : List Event → MasterWorkPool Event → Option (MasterWorkPool Event)
post_events [] tm = some tm
post_events (ev ∷ evs) tm = elim (add_task ev.fd ev tm) [
  | none ↦ none
  | some tm' ↦ post_events evs tm'
]
