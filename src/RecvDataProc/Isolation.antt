-- ===== src/RecvDataProc/Isolation.antt =====
-- What a frame of one socket does to the clients of `CRecvDataProc`: to its own, and to the
-- others.
use cmdtran.Common.{
  get_or, ap, ℕ, ◌+◌, ◌*◌, ◌≡◌, ◌≢◌, refl, ◌∙◌, Bool, true, false, not, ◌&&◌, ◌||◌, some, List, inl,
  inr, Option-cases, Bool-cases, if◌then◌else◌, ◌==◌,
}
use cmdtran.Common.Int.{pos, below_ℕ, pred_ℤ}
use cmdtran.Common.Map.{find, update, IsSorted, find-update_self, find-update_ne, find-erase_ne}
use cmdtran.RecvDataProc.{
  ClientInfo, RecvDataProc, quit_client, decrease_at, decrease_frame_count, login, new_client,
  pic_data_recv, reset_camera_id, command_proc, process_task, frame_byte, client_type_phone,
  client_type_pc, login_ack_frame,
}
use cmdtran.RecvDataProc.Service
use cmdtran.RecvDataProc.Service.{FrameProcTask}
use cmdtran.RecvDataProc.Server.{EpollServer}

module _ (epoll : EpollServer) (sock j : ℕ) (other : sock ≢ j) where
  open epoll use {State, close}

  -- The client at `j` is as it was.
  abbrev Spared : RecvDataProc State → RecvDataProc State → Type 0
  Spared p p' = find j p'.client_map ≡ find j p.client_map

  update-Spared :
      (f : ClientInfo → ClientInfo) (m : List (ℕ × ClientInfo))
      → find j (update sock f m) ≡ find j m
  update-Spared f m = find-update_ne sock j f m other

  login-Spared : (frame : ℕ) (p : RecvDataProc State) → Spared p (login epoll sock frame p).1
  unfolding login
  login-Spared frame p = elim (Option-cases (find sock p.client_map)) [
    | inl out ↦ rw (out, login) refl
    | inr (c, there) ↦ rw (there, login) (update-Spared _ p.client_map)
  ]

  new_client-Spared :
      (frame : ℕ) (p : RecvDataProc State) → Spared p (new_client epoll sock frame p).1
  unfolding new_client
  new_client-Spared frame p =
      elim (Bool-cases (
        frame_byte epoll p frame 4 == client_type_phone
        || frame_byte epoll p frame 4 == client_type_pc)) [
          | inl e ↦ rw e (login-Spared frame p)
          | inr e ↦ rw e refl
        ]

  after_login-Spared :
      (done : Bool) (p p' : RecvDataProc State)
      → Spared p p'
      → Spared p (
          if done
          then p'
          else (let p'' = quit_client epoll sock p' in
              record p'' { server = close sock p''.server }))
  unfolding quit_client
  after_login-Spared true p p' h = h
  after_login-Spared false p p' h = find-erase_ne sock j p'.client_map other ∙ h

  pic_data_recv-Spared :
      (frame len : ℕ) (p : RecvDataProc State) → Spared p (pic_data_recv epoll sock frame len p)
  unfolding pic_data_recv
  pic_data_recv-Spared frame len p = elim (Option-cases (find sock p.client_map)) [
    | inl out ↦ rw (out, pic_data_recv) refl
    | inr (c, there) ↦ rw (there, pic_data_recv) refl
  ]

  command_proc-Spared :
      (frame len : ℕ) (p : RecvDataProc State) → Spared p (command_proc epoll sock frame len p)
  unfolding command_proc reset_camera_id
  command_proc-Spared frame len p =
      let code : ℕ = frame_byte epoll p frame 3 in
      elim (Bool-cases (code == 0x00)) [
        | inl e ↦ rw e (
            after_login-Spared (new_client epoll sock frame p).0 p (new_client epoll sock frame p).1
              (new_client-Spared frame p))
        | inr e ↦ elim (Bool-cases (code == 0x01)) [
          | inl e' ↦ rw (e, e') (update-Spared _ p.client_map)
          | inr e' ↦ elim (Bool-cases (code == 0x10)) [
            | inl e'' ↦ rw (e, e', e'') (pic_data_recv-Spared frame len p)
            | inr e'' ↦ rw (e, e', e'') refl
          ]
        ]
      ]

  decrease-Spared : (p : RecvDataProc State) → Spared p (decrease_frame_count epoll sock p).1
  unfolding decrease_frame_count decrease_at
  decrease-Spared p = elim (Option-cases (find sock p.client_map)) [
    | inl out ↦ rw (out, decrease_frame_count) refl
    | inr (c, there) ↦
        elim (Bool-cases (below_ℕ (pred_ℤ c.frame_count) p.flow_control_low && not c.enable_read)) [
          | inl e ↦ rw (there, decrease_frame_count, e) (update-Spared _ p.client_map)
          | inr e ↦ rw (there, decrease_frame_count, e) (update-Spared _ p.client_map)
        ]
  ]

  -- Processing a task of a socket, whatever its frame, leaves the client of every other socket as
  -- it was.
  pub process_task-Spared :
      (frame len : ℕ) (p : RecvDataProc State)
      → find j
          (process_task epoll (record { sock = sock; frame = frame; frame_len = len }) p).client_map
        ≡ find j p.client_map
  unfolding process_task
  process_task-Spared frame len p =
      let p' = command_proc epoll sock frame len p in
      decrease-Spared (record p' { backend = Service.free_buff frame p'.backend })
      ∙ command_proc-Spared frame len p

module _ (epoll : EpollServer) where
  open epoll use {State, close, send_data}

  -- A login of a known type of client.
  login-known :
      (sock frame len : ℕ) (c : ClientInfo) (p : RecvDataProc State)
      → IsSorted p.client_map
      → find sock p.client_map ≡ some c
      → frame_byte epoll p frame 3 ≡ 0x00
      → (frame_byte epoll p frame 4 == client_type_phone
          || frame_byte epoll p frame 4 == client_type_pc)
        ≡ true
      → let p' = command_proc epoll sock frame len p in
        (find sock p'.client_map
          ≡ some (record c {
            client_type = pos (frame_byte epoll p frame 4);
            camera_id = frame_byte epoll p frame 5 * 256 + frame_byte epoll p frame 6;
          }))
        × (p'.server ≡ send_data sock login_ack_frame false p.server)
  unfolding command_proc new_client login
  login-known sock frame len c p sorted there code known =
      rw (code, known, there, login) (find-update_self sock _ p.client_map c there, refl)

  -- With the map of clients in order, and for a login frame of a client with a known type and the
  -- end byte behind it, as ComandTran/FrameStruct has it: the client's camera is made of the end
  -- byte and the byte behind the frame, and the frame that is sent to it has the code 0x90, where
  -- FrameStruct has no camera and the code 0x80.
  pub login-diverges :
      (sock frame len : ℕ) (c : ClientInfo) (p : RecvDataProc State)
      → IsSorted p.client_map
      → find sock p.client_map ≡ some c
      → frame_byte epoll p frame 3 ≡ 0x00
      → (frame_byte epoll p frame 4 == client_type_phone
          || frame_byte epoll p frame 4 == client_type_pc)
        ≡ true
      → frame_byte epoll p frame 5 ≡ 0xA5
      → let p' = command_proc epoll sock frame len p in
        (c' : ClientInfo) × (ack : List ℕ) × (find sock p'.client_map ≡ some c')
        × (c'.camera_id ≡ 0xA5 * 256 + frame_byte epoll p frame 6)
        × (p'.server ≡ send_data sock ack false p.server)
        × (get_or ack 3 0 ≡ 0x90)
  login-diverges sock frame len c p sorted there code known end =
      let (found, answered) = login-known sock frame len c p sorted there code known in
      (
        record c {
          client_type = pos (frame_byte epoll p frame 4);
          camera_id = frame_byte epoll p frame 5 * 256 + frame_byte epoll p frame 6;
        },
        login_ack_frame,
        found,
        ap (λ (b : ℕ). b * 256 + frame_byte epoll p frame 6) end,
        answered,
        refl,
      )
