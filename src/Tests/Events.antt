-- ===== src/Tests/Events.antt =====
-- A kernel with a few chunks of bytes to read, and the receive task on a server with one socket.
use cmdtran.Common.{
  ℕ, zero, suc, ◌<◌, ◌≡◌, refl, Bool, true, false, none, some, List, [], ◌∷◌, ◌++◌, length, arith,
  ◌==◌, Bool-cases, inl, inr, subst, sym, ◌∙◌,
}
use mathlib.Core.Option.{some-injective, none-ne-some}
use cmdtran.Common.Int.{pos}
use cmdtran.Common.Map.{find, IsSorted}
use cmdtran.MasterWorkPool.{MasterWorkPool}
use cmdtran.MasterWorkPool
use cmdtran.MasterWorkPool.Order.{waiting, init_pool-IsValid}
use cmdtran.MasterWorkPool.Order
use cmdtran.MemChain.Linked.{init-IsChain, IsChain}
use cmdtran.RecvDataProc.{RecvDataProc, new_client_info}
use cmdtran.RecvDataProc
use cmdtran.RecvDataProc.Receive.{Steps, init-IsValid}
use cmdtran.EpollServer.{EpollServer, SocketInformation, new_socket, disable_read}
use cmdtran.EpollServer
use cmdtran.EpollServer.Interface.{Kernel, Network, Reads, Received, bytes, failed}
use cmdtran.EpollServer.Serves.{serves, serves-Reading}
use cmdtran.EpollServer.Kept.{Sound}
use cmdtran.EpollServer.RecvTask.{accepted, Event, process_recv_ents, added, hang_up}
use cmdtran.EpollServer.Events.{Valid, process_recv_ents_lem}
use cmdtran.EpollServer.Runs.{begin, event}
use cmdtran.ThreadPool.{ThreadPool}
use cmdtran.ThreadPool
use cmdtran.Common.Int.{exceeds_ℕ, below_ℕ}
use cmdtran.RecvDataProc.{add_client}
use cmdtran.Common.Map.{insert}
use cmdtran.EpollServer.Start.{
  creates, after_creates, event_thread, Setup, start, post_events, threads,
}
use cmdtran.EpollServer.Started.{events_of, post_events_lem, start_lem, started_lem, clients_flow}
use cmdtran.EpollServer.Stale.{stale_lem}
use cmdtran.Tests.{small_pool}
use cmdtran.Tests.Pools.{small_pool-IsValid}

-- The state is the number of chunks that are left.
abbrev kernel : Kernel
kernel = record {
  State = ℕ;
  epoll_ctl_mod = λ k b s. (true, s);
  send = λ sock bs s. (pos (length bs), s);
}

read_chunk : ℕ → Received × ℕ
read_chunk zero = (failed, zero)
read_chunk (suc k) = (bytes (0xff ∷ 0xd8 ∷ []), k)

abbrev network : Network kernel
network = record {
  accept = λ s. (some 9, s);
  epoll_ctl_add = λ k s. (true, s);
  epoll_ctl_del = λ k s. s;
  close = λ k s. s;
  read = λ sock room s. read_chunk s;
}

read_chunk-lt : (s s' : ℕ) (bs : List ℕ) → read_chunk s ≡ (bytes bs, s') → s' < s
unfolding read_chunk
read_chunk-lt zero s' bs e = cc
read_chunk-lt (suc k) s' bs e = ground arith

reads : Reads network
reads = record {
  pending = λ sock s. s;
  read-pending = λ sock room s s' bs e. read_chunk-lt s s' bs e;
  control-pending = λ sock k b s. omega arith;
  close-pending = λ sock k s. omega arith;
}

abbrev at_rest : EpollServer ℕ
at_rest = record {
  socket_info = (7, new_socket 7) ∷ [];
  enable_reading = true;
  send_thread_manager = MasterWorkPool.init_pool 4 (λ _. true) MasterWorkPool.init;
  send_data_mem = small_pool;
  memory = λ _. [];
  call_backs = [];
  kernel = 3;
}

at_rest-chained :
    (k : ℕ) (s : SocketInformation)
    → find k at_rest.socket_info ≡ some s
    → IsChain s.output_chain []
unfolding find
at_rest-chained k s e = elim (Bool-cases (7 == k)) [
  | inl same ↦
      subst (λ (s : SocketInformation). IsChain s.output_chain [])
        (some-injective (new_socket 7) s (sym (rw same refl) ∙ e)) init-IsChain
  | inr other ↦ absurd (none-ne-some s (sym (rw other refl) ∙ e))
]

at_rest-Sound : Sound 4 at_rest
at_rest-Sound = (
  λ _. [],
  record {
    sorted = tt;
    chained = at_rest-chained;
    pool = small_pool-IsValid;
    threads = init_pool-IsValid 4 (λ _. true) (omega arith) (λ k h. refl);
  },
)

abbrev server : RecvDataProc (EpollServer ℕ)
server = RecvDataProc.init (λ _. true) (λ _. 0) (λ _. []) at_rest

abbrev data_at_7 : Event
data_at_7 = record { fd = 7; epollin = true; epollout = false }

process_recv_ents_lem_example :
    (done : Bool) × (p' : RecvDataProc (EpollServer ℕ)) × (process_recv_ents kernel network 4 3 0
        data_at_7 server
      ≡ some (done, p'))
    × Steps (serves kernel network.close) (serves-Reading kernel network.close) server p'
    × Sound 4 p'.server
unfolding RecvDataProc.init reads
process_recv_ents_lem_example =
    process_recv_ents_lem kernel network reads 4 4 3 0 data_at_7 server
      (init-IsValid (serves kernel network.close) (serves-Reading kernel network.close) (λ _. true)
        (λ _. 0) (λ _. []) at_rest)
      at_rest-Sound (omega arith) (λ sock e. absurd (omega arith))

-- All calls of the start succeed.
abbrev setup : Setup kernel
setup = record {
  setrlimit = λ limit s. (true, s);
  create_thread = λ s. (true, s);
  socket = λ s. (some 3, s);
  set_reuse = λ sock s. s;
  set_nonblocking = λ sock s. (true, s);
  bind = λ sock port s. (true, s);
  listen = λ sock backlog s. (true, s);
  epoll_create = λ size s. s;
  epoll_ctl_listen = λ sock s. (true, s);
  close = λ sock s. s;
}

started : EpollServer ℕ
started = (start kernel setup MasterWorkPool.init (EpollServer.init (λ _. 0) (λ _. []) 3)).2

started_server : RecvDataProc (EpollServer ℕ)
unfolding started
started_server = RecvDataProc.init (λ _. true) (λ _. 0) (λ _. []) started

start_done :
    (start kernel setup MasterWorkPool.init (EpollServer.init (λ _. 0) (λ _. []) 3)).0 ≡ true
unfolding start
start_done = refl

all_created :
    (i : ℕ)
    → i < threads
    → creates kernel setup (after_creates kernel setup threads (event_thread kernel setup 3)) i
      ≡ true
unfolding creates
all_created i h = refl

started-Valid : Valid kernel network reads 4 started_server
unfolding started_server
started-Valid =
    init-IsValid (serves kernel network.close) (serves-Reading kernel network.close) (λ _. true)
      (λ _. 0) (λ _. []) started

started-Sound : Sound 4 started_server.server
unfolding started_server started RecvDataProc.init
started-Sound = start_lem kernel setup (λ _. 0) (λ _. []) 3 start_done all_created

no_clients : (sock : ℕ) → find sock started_server.server.socket_info ≡ none
unfolding started_server started start EpollServer.init RecvDataProc.init find
no_clients sock = refl

-- A connection comes in.
abbrev incoming : Event
incoming = record { fd = 3; epollin = true; epollout = false }

few_chunks : reads.pending 3 started_server.server.kernel < 9
unfolding started_server started start EpollServer.init RecvDataProc.init reads
few_chunks = omega arith

connected :
    (done : Bool) × (p' : RecvDataProc (EpollServer ℕ)) × (process_recv_ents kernel network 9 3 0
        incoming started_server
      ≡ some (done, p'))
    × Steps (serves kernel network.close) (serves-Reading kernel network.close) started_server p'
    × Sound 4 p'.server
connected =
    process_recv_ents_lem kernel network reads 4 9 3 0 incoming started_server started-Valid
      started-Sound few_chunks (λ sock e a. no_clients sock)

started_lem_example :
    Valid kernel network reads threads connected.1 × Sound threads connected.1.server
unfolding started_server started
started_lem_example =
    started_lem kernel setup network reads (λ _. true) (λ _. 0) (λ _. 0) (λ _. []) (λ _. []) 3
      connected.1 start_done all_created
      (event 9 3 0 incoming started_server connected.1 connected.0 begin few_chunks
        (λ sock e a. no_clients sock) connected.2)

-- The server with the connection.
abbrev arrived : RecvDataProc (EpollServer ℕ)
arrived = added kernel network 0 9 (true, started_server.server.kernel) started_server

arrives : process_recv_ents kernel network 9 3 0 incoming started_server ≡ some (true, arrived)
unfolding process_recv_ents accepted
arrives = refl

arrived_there : find 9 arrived.client_map ≡ some (new_client_info (serves kernel network.close) 9 0)
unfolding added add_client find insert started_server RecvDataProc.init
arrived_there = refl

clients_flow_example :
    let c = new_client_info (serves kernel network.close) 9 0 in
    (s : SocketInformation) × (find 9 arrived.server.socket_info ≡ some s)
    × (exceeds_ℕ c.frame_count arrived.flow_control_high ≡ true → s.enable_read ≡ false)
    × (below_ℕ c.frame_count arrived.flow_control_low ≡ true → s.enable_read ≡ true)
unfolding started_server started
clients_flow_example =
    clients_flow kernel setup network reads (λ _. true) (λ _. 0) (λ _. 0) (λ _. []) (λ _. []) 3
      arrived 9 (new_client_info (serves kernel network.close) 9 0) start_done all_created
      (event 9 3 0 incoming started_server arrived true begin few_chunks
        (λ sock e a. no_clients sock) arrives)
      arrived_there

-- From state 3 the first thread is created, and none after it.
abbrev few_threads : Setup kernel
few_threads = record setup { create_thread = λ s. (s == 3, suc s) }

new_server : EpollServer ℕ
new_server = record at_rest { kernel = 3 }

post_events_lem_example :
    (tm' : MasterWorkPool Event) × (post_events
        (data_at_7 ∷ incoming ∷ [])
        (MasterWorkPool.init_pool 4 (λ _. true) MasterWorkPool.init)
      ≡ some tm')
    × Order.IsValid 4 tm'
    × ((w : ℕ)
        → waiting w tm'
          ≡ waiting w (MasterWorkPool.init_pool 4 (λ _. true) MasterWorkPool.init)
            ++ events_of 4 w (data_at_7 ∷ incoming ∷ []))
post_events_lem_example =
    post_events_lem 4 (data_at_7 ∷ incoming ∷ [])
      (MasterWorkPool.init_pool 4 (λ _. true) MasterWorkPool.init)
      (init_pool-IsValid 4 (λ _. true) (omega arith) (λ k h. refl))

-- The socket was not to be read when its connection ended.
abbrev disabled : SocketInformation
disabled = record (new_socket 9) { enable_read = false }

abbrev left_over : RecvDataProc (EpollServer ℕ)
left_over = record server { server = record at_rest { socket_info = (9, disabled) ∷ [] } }

left_over_there : find 9 left_over.server.socket_info ≡ some disabled
unfolding find
left_over_there = refl

left_over_clients : IsSorted left_over.client_map
unfolding RecvDataProc.init
left_over_clients = tt

stale_lem_example :
    let q = added kernel network 0 9 (true, 5) (hang_up kernel network 9 left_over) in
    (find 9 q.server.socket_info ≡ some disabled)
    × (find 9 q.client_map ≡ some (new_client_info (serves kernel network.close) 9 0))
    × (disable_read kernel 9 q.server ≡ (true, q.server))
stale_lem_example =
    stale_lem kernel network 9 0 5 left_over disabled left_over_clients tt left_over_there refl
