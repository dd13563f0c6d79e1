-- ===== src/EpollServer/Started.antt =====
-- The epoll server behind its start: the events that the receive threads get, and what holds in every
-- order of the tasks.
use cmdtran.Common.{
  ◌<◌, Bool, false, ℕ, ◌*◌, ◌%◌, ◌≡◌, refl, sym, ap, ◌∙◌, subst, true, none, some, List, [], ◌∷◌,
  ◌++◌, arith, ◌==◌, if◌then◌else◌, append-nil, append_assoc, Bool-cases, inl, inr,
}
use mathlib.Core.Bool.{true≢false}
use mathlib.Core.Option.{none-ne-some}
use cmdtran.Common.Map.{find}
use cmdtran.MemPool.History.{creat_pool_lem}
use cmdtran.MasterWorkPool.{MasterWorkPool, add_task, init_pool}
use cmdtran.MasterWorkPool
use cmdtran.MasterWorkPool.Order.{waiting, add_task_lem, init_pool-IsValid}
use cmdtran.MasterWorkPool.Order
use cmdtran.RecvDataProc.{RecvDataProc}
use cmdtran.RecvDataProc
use cmdtran.RecvDataProc.Receive.{init-IsValid}
use cmdtran.EpollServer.{EpollServer, mem_pool_block_size}
use cmdtran.EpollServer
use cmdtran.EpollServer.Interface.{Kernel, Network, Reads}
use cmdtran.EpollServer.Serves.{serves, serves-Reading}
use cmdtran.EpollServer.Kept.{Sound}
use cmdtran.EpollServer.RecvTask.{Event}
use cmdtran.EpollServer.Events.{Valid}
use cmdtran.EpollServer.Runs.{Runs, Runs_lem}
use cmdtran.ThreadPool.{ThreadPool}
use cmdtran.ThreadPool
use cmdtran.Common.Int.{exceeds_ℕ, below_ℕ}
use cmdtran.RecvDataProc.{ClientInfo}
use cmdtran.EpollServer.{SocketInformation}
use cmdtran.EpollServer.Serves.{client_flow}
use cmdtran.EpollServer.Start.{
  after_creates, creates, event_thread, Setup, epoll_event_max, threads, init_evn, start,
  post_events,
}

-- The events for one of `n` threads, in order.
abbrev pub events_of : ℕ → ℕ → List Event → List Event
events_of n w [] = []
events_of n w (ev ∷ evs) = if ev.fd % n == w then ev ∷ events_of n w evs else events_of n w evs

events_of-cons :
    (n w : ℕ) (ev : Event) (evs : List Event)
    → (if ev.fd % n == w then ev ∷ [] else []) ++ events_of n w evs ≡ events_of n w (ev ∷ evs)
events_of-cons n w ev evs = elim (Bool-cases (ev.fd % n == w)) [
  | inl e ↦ rw e refl
  | inr e ↦ rw e refl
]

-- With `n` receive threads that run, the loop over the events of one `epoll_wait` returns, leaves
-- the threads valid, and puts at the end of the list of each thread just the events whose socket
-- has that remainder by `n`, in their order.
pub post_events_lem :
    (n : ℕ) (evs : List Event) (tm : MasterWorkPool Event)
    → Order.IsValid n tm
    → (tm' : MasterWorkPool Event) × (post_events evs tm ≡ some tm')
      × Order.IsValid n tm'
      × ((w : ℕ) → waiting w tm' ≡ waiting w tm ++ events_of n w evs)
unfolding post_events
post_events_lem n [] tm v = (tm, refl, v, λ w. sym (append-nil (waiting w tm)))
post_events_lem n (ev ∷ evs) tm v =
    let (tm', added, ok, order) = add_task_lem n ev.fd ev tm v in
    let (tm'', posted, ok', order') = post_events_lem n evs tm' ok in
    (
      tm'',
      rw (post_events, added) posted,
      ok',
      λ w.
          order' w
          ∙ ap (λ (xs : List Event). xs ++ events_of n w evs) (order w)
          ∙ append_assoc (waiting w tm) (if ev.fd % n == w then ev ∷ [] else []) (events_of n w evs)
          ∙ ap (λ (xs : List Event). waiting w tm ++ xs) (events_of-cons n w ev evs),
    )

-- Before `InitPool` the receive threads are none, and an event divides by 0.
pub post_events-early :
    (ev : Event) (evs : List Event) → post_events (ev ∷ evs) MasterWorkPool.init ≡ none
unfolding post_events add_task MasterWorkPool.init
post_events-early ev evs = refl

module _ (kernel : Kernel) (setup : Setup kernel) where
  open kernel use {State}

  start_done :
      (tm : MasterWorkPool Event) (e : EpollServer State)
      → (start kernel setup tm e).0 ≡ true
      → let k = event_thread kernel setup e.kernel in
        start kernel setup tm e ≡ (
          true,
          init_pool threads (creates kernel setup k) tm,
          record e {
            send_thread_manager =
                init_pool threads
                  (creates kernel setup (after_creates kernel setup threads k))
                  e.send_thread_manager;
            kernel = after_creates kernel setup threads (after_creates kernel setup threads k);
          },
        )
  unfolding start init_evn event_thread
  start_done tm e done =
      let set = setup.setrlimit epoll_event_max e.kernel in
      let created = setup.create_thread set.1 in
      elim (Bool-cases set.0) [
        | inr off ↦ absurd (true≢false (sym done ∙ rw off refl))
        | inl on ↦ elim (Bool-cases created.0) [
          | inr off ↦ absurd (true≢false (sym done ∙ rw (on, off) refl))
          | inl made ↦ rw (on, made) refl
        ]
      ]

  -- A new server whose send threads have been made.
  new-Sound :
      (created : ℕ → Bool) (garbage : ℕ → ℕ) (memory : ℕ → List ℕ) (k k' : State)
      → ((i : ℕ) → i < threads → created i ≡ true)
      → Sound threads (record (EpollServer.init garbage memory k) {
        send_thread_manager =
            init_pool threads created (EpollServer.init garbage memory k).send_thread_manager;
        kernel = k';
      })
  unfolding EpollServer.init MasterWorkPool.init find
  new-Sound created garbage memory k k' all = (
    (λ j. []),
    record {
      sorted = tt;
      chained = λ j s found. absurd (none-ne-some s found);
      pool =
          (creat_pool_lem mem_pool_block_size (1024 * 100) (1024 * 10) garbage (omega arith)
            (omega arith) (omega arith)).1;
      threads = init_pool-IsValid threads created (omega arith) all;
    },
  )

  pub start_lem :
      (garbage : ℕ → ℕ) (memory : ℕ → List ℕ) (k : State)
      → (start kernel setup MasterWorkPool.init (EpollServer.init garbage memory k)).0 ≡ true
      → ((i : ℕ)
          → i < threads
          → creates kernel setup
              (after_creates kernel setup threads (event_thread kernel setup k))
              i
            ≡ true)
      → Sound threads (start kernel setup MasterWorkPool.init (EpollServer.init garbage memory k)).2
  unfolding EpollServer.init
  start_lem garbage memory k done all =
      let k₁ = after_creates kernel setup threads (event_thread kernel setup k) in
      rw (start_done MasterWorkPool.init (EpollServer.init garbage memory k) done) (
        new-Sound (creates kernel setup k₁) garbage memory k (after_creates kernel setup threads k₁)
          all)

  init_server :
      (created : ℕ → Bool) (garbage : ℕ → ℕ) (memory : ℕ → List ℕ) (e : EpollServer State)
      → (RecvDataProc.init created garbage memory e).server ≡ e
  unfolding RecvDataProc.init
  init_server created garbage memory e = refl

  module _ (network : Network kernel) (reads : Reads network) where
    -- When `Start` of a new epoll server has returned true and `pthread_create` has given all
    -- threads of the send workers, a server on top of it stays valid and the epoll server in order
    -- through any receive tasks, frame tasks and send tasks, one after the other, where each send
    -- task ends without a fault, each receive task has more fuel than there is to read on its
    -- socket and each socket accepted is new to the server: every chain is in order, the pool is
    -- valid with just the blocks of the chains lent, the send threads run, and the clients follow
    -- flow control.
    pub started_lem :
        (created : ℕ → Bool) (garbage garbage' : ℕ → ℕ) (memory memory' : ℕ → List ℕ) (k : State)
        (p : RecvDataProc (EpollServer State))
        → (start kernel setup MasterWorkPool.init (EpollServer.init garbage memory k)).0 ≡ true
        → ((i : ℕ)
            → i < threads
            → creates kernel setup
                (after_creates kernel setup threads (event_thread kernel setup k))
                i
              ≡ true)
        → Runs kernel network reads threads
            (RecvDataProc.init created garbage' memory'
              (start kernel setup MasterWorkPool.init (EpollServer.init garbage memory k)).2)
            p
        → Valid kernel network reads threads p × Sound threads p.server
    started_lem created garbage garbage' memory memory' k p done all runs =
        Runs_lem kernel network reads threads _ p
          (init-IsValid (serves kernel network.close) (serves-Reading kernel network.close) created
            garbage' memory'
            (start kernel setup MasterWorkPool.init (EpollServer.init garbage memory k)).2)
          (subst (Sound threads) (sym (init_server created garbage' memory' _))
            (start_lem garbage memory k done all))
          runs

    -- When `Start` of a new epoll server has returned true and `pthread_create` has given all
    -- threads of the send workers, and after any receive tasks, frame tasks and send tasks, one
    -- after the other, where each send task ends without a fault, each receive task has more fuel
    -- than there is to read on its socket and each socket accepted is new to the server: the epoll
    -- server knows the socket of each client, and its flag is off when the client's count is above
    -- the upper bound and on when it is below the lower one.
    pub clients_flow :
        (created : ℕ → Bool) (garbage garbage' : ℕ → ℕ) (memory memory' : ℕ → List ℕ) (k : State)
        (p : RecvDataProc (EpollServer State)) (sock : ℕ) (c : ClientInfo)
        → (start kernel setup MasterWorkPool.init (EpollServer.init garbage memory k)).0 ≡ true
        → ((i : ℕ)
            → i < threads
            → creates kernel setup
                (after_creates kernel setup threads (event_thread kernel setup k))
                i
              ≡ true)
        → Runs kernel network reads threads
            (RecvDataProc.init created garbage' memory'
              (start kernel setup MasterWorkPool.init (EpollServer.init garbage memory k)).2)
            p
        → find sock p.client_map ≡ some c
        → (s : SocketInformation) × (find sock p.server.socket_info ≡ some s)
          × (exceeds_ℕ c.frame_count p.flow_control_high ≡ true → s.enable_read ≡ false)
          × (below_ℕ c.frame_count p.flow_control_low ≡ true → s.enable_read ≡ true)
    clients_flow created garbage garbage' memory memory' k p sock c done all runs at_sock =
        client_flow kernel network.close p sock c
          (started_lem created garbage garbage' memory memory' k p done all runs).0 at_sock
