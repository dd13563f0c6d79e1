-- ===== src/Tests/Server.antt =====
-- An epoll server that is only the set of the sockets that it reads, and a client that logs in.
use cmdtran.Common.{
  get_or, ◌*◌, ◌+◌, ap, ℕ, ◌≡◌, ◌≢◌, refl, Bool, true, false, some, List, [], ◌∷◌, ◌++◌, take, ◌==◌,
  if◌then◌else◌, arith, ne→==, eq→==,
}
use cmdtran.FrameRestruct.Decode.{decode}
use cmdtran.FrameRestruct.Deliver.{contents, deliver}
use cmdtran.FrameRestruct.Deliver
use cmdtran.RecvDataProc.{login_ack_frame}
use cmdtran.RecvDataProc.Service.{FrameProcTask, backend}
use cmdtran.Common.Int.{pos}
use cmdtran.Common.Map.{find, insert}
use cmdtran.RecvDataProc.{
  ClientInfo, RecvDataProc, new_client_info, add_client, add_recv_data, increase_frame_count,
  pic_data_recv, process_task, command_proc, frame_init,
}
use cmdtran.RecvDataProc
use cmdtran.RecvDataProc.Server.{EpollServer, Reading}
use cmdtran.RecvDataProc.Flow.{IsValid, add_client-IsValid}
use cmdtran.RecvDataProc.Receive.{
  Steps, connect, receive, process, start, more, Increased, init-IsValid, add_recv_data_lem,
  add_recv_data-IsValid, Steps-IsValid,
}
use cmdtran.RecvDataProc.Isolation.{process_task-Spared, login-diverges}
use cmdtran.RecvDataProc.Picture.{send_all, count, watching, pic_data_recv_lem}

abbrev flip : ℕ → Bool → (ℕ → Bool) → ℕ → Bool
flip k b s j = if k == j then b else s j

abbrev epoll : EpollServer
epoll = record {
  State = ℕ → Bool;
  send_data = λ k bytes back s. s;
  enable_read = λ k s. flip k true s;
  disable_read = λ k s. flip k false s;
  close = λ k s. flip k false s;
}

flip_self : (k : ℕ) (b : Bool) (s : ℕ → Bool) → flip k b s k ≡ b
flip_self k b s = rw (eq→== k k refl) refl

flip_ne : (k j : ℕ) (b : Bool) (s : ℕ → Bool) → k ≢ j → flip k b s j ≡ s j
flip_ne k j b s h = rw (ne→== k j h) refl

abbrev reading : Reading epoll
reading = record {
  flag = λ k s. some (s k);
  flag-enable = λ k s b e. ap some (flip_self k true s);
  flag-disable = λ k s b e. ap some (flip_self k false s);
  flag-enable_ne = λ k j s h. ap some (flip_ne k j true s h);
  flag-disable_ne = λ k j s h. ap some (flip_ne k j false s h);
  flag-send = λ k j bytes back s. refl;
  flag-close_ne = λ k j s h. ap some (flip_ne k j false s h);
}

-- The server at its start, and with a client that has sent a frame, which a worker has processed.
abbrev at_start : RecvDataProc (ℕ → Bool)
at_start = RecvDataProc.init (λ _. true) (λ _. 0) (λ _. []) (λ _. true)

abbrev connected : RecvDataProc (ℕ → Bool)
connected = add_client epoll 7 0 at_start

connected-IsValid : IsValid epoll reading connected
unfolding RecvDataProc.init
connected-IsValid =
    add_client-IsValid epoll reading 7 0 at_start
      (init-IsValid epoll reading (λ _. true) (λ _. 0) (λ _. []) (λ _. true)) refl

frame_received :
    (done : Bool) × (p' : RecvDataProc (ℕ → Bool)) × (add_recv_data epoll 7 login_ack_frame 5
        connected
      ≡ some (done, p'))
    × IsValid epoll reading p'
frame_received =
    add_recv_data-IsValid epoll reading 7 login_ack_frame 5 connected connected-IsValid
      (omega arith)

-- The client of the connection.
abbrev client : ClientInfo
client = new_client_info epoll 7 0

client_there : find 7 connected.client_map ≡ some client
unfolding RecvDataProc.init add_client find insert
client_there = refl

add_recv_data_lem_example :
    let (frames, rest) = decode 0 (contents client.frame_restruct ++ take 5 login_ack_frame) in
    let (n, b) =
      deliver backend client.frame_restruct.recv_data_proc 7 frames 0 connected.backend in
    (p' : RecvDataProc (ℕ → Bool)) × (c' : ClientInfo) × (add_recv_data epoll 7 login_ack_frame 5
        connected
      ≡ some (true, p'))
    × Increased epoll reading 7 n client (record connected { backend = b }) p' c'
    × Deliver.IsValid c'.frame_restruct
    × (contents c'.frame_restruct ≡ rest)
add_recv_data_lem_example =
    add_recv_data_lem epoll reading 7 login_ack_frame 5 connected client connected-IsValid
      (omega arith) client_there

-- The frame has come, and then its task is processed.
abbrev fed : RecvDataProc (ℕ → Bool)
fed = frame_received.1

abbrev task : FrameProcTask
task = record { sock = 7; frame = 1; frame_len = 5 }

steps : Steps epoll reading at_start (process_task epoll task fed)
unfolding RecvDataProc.init
steps =
    more fed (process_task epoll task fed)
      (more connected fed (more at_start connected start (connect 7 0 refl))
        (receive 7 login_ack_frame 5 frame_received.0 fed (omega arith) frame_received.2))
      (process task)

Steps-IsValid_example : IsValid epoll reading (process_task epoll task fed)
Steps-IsValid_example =
    Steps-IsValid epoll reading at_start (process_task epoll task fed)
      (init-IsValid epoll reading (λ _. true) (λ _. 0) (λ _. []) (λ _. true)) steps

-- A phone and a PC at one camera.
abbrev room : RecvDataProc (ℕ → Bool)
room = record connected {
  client_map =
      (7, record client { client_type = pos 0; camera_id = 3 })
      ∷ (8, record client { client_type = pos 1; camera_id = 3 })
      ∷ [];
}

pic_data_recv_lem_example :
    (ks : List ℕ) × (pic_data_recv epoll 7 1 5 room
      ≡ record room { server = send_all epoll 7 3 (take 5 (room.backend.memory 1)) ks room.server })
    × ((k : ℕ) → count k ks ≡ watching epoll 7 3 k (find k room.client_map))
unfolding find
pic_data_recv_lem_example =
    pic_data_recv_lem epoll 7 1 5 room (record client { client_type = pos 0; camera_id = 3 })
      (omega arith, tt) refl

process_task-Spared_example :
    find 8 (process_task epoll (record { sock = 7; frame = 1; frame_len = 5 }) room).client_map
    ≡ find 8 room.client_map
process_task-Spared_example = process_task-Spared epoll 7 8 (λ e. absurd (omega arith)) 1 5 room

-- A login frame of a PC as ComandTran/FrameStruct has it, in every block.
abbrev logging_in : RecvDataProc (ℕ → Bool)
logging_in = record room {
  backend = record (room.backend) {
    memory = λ _. 0x7E ∷ 0x00 ∷ 0x06 ∷ 0x00 ∷ 0x01 ∷ 0xA5 ∷ 0x09 ∷ [];
  };
}

login-diverges_example :
    let p' = command_proc epoll 7 1 6 logging_in in
    (c' : ClientInfo) × (ack : List ℕ) × (find 7 p'.client_map ≡ some c')
    × (c'.camera_id ≡ 0xA5 * 256 + 9)
    × (p'.server ≡ logging_in.server)
    × (get_or ack 3 0 ≡ 0x90)
unfolding find
login-diverges_example =
    login-diverges epoll 7 1 6 (record client { client_type = pos 0; camera_id = 3 }) logging_in
      (omega arith, tt) refl refl refl refl
