-- ===== src/RecvDataProc/Steps.antt =====
-- The handlers of frames in `CRecvDataProc`, from `CommandProc` to `ProcessTask`, under flow
-- control.
use cmdtran.Common.{
  ℕ, ◌≡◌, refl, ◌∙◌, Bool, true, false, ◌||◌, List, [], ◌∷◌, inl, inr, Option-cases, Bool-cases,
  if◌then◌else◌, take, ◌==◌,
}
use cmdtran.Common.Map.{find, update, erase-IsSorted, update-IsSorted}
use cmdtran.RecvDataProc.{
  ClientInfo, RecvDataProc, quit_client, login, new_client, send_loop, watches, pic_data_recv,
  reset_camera_id, command_proc, process_task, client_type_phone, client_type_pc, frame_byte,
  login_ack_frame,
}
use cmdtran.RecvDataProc.Service.{Backend, FrameProcTask, backend}
use cmdtran.RecvDataProc.Service
use cmdtran.RecvDataProc.Server.{EpollServer, Reading}
use cmdtran.RecvDataProc.Clients.{IsFlowing, update_kept, erase-AreFlowing}
use cmdtran.RecvDataProc.Flow.{IsValid, decrease_frame_count-IsValid}

module _ (epoll : EpollServer) (reading : Reading epoll) where
  open epoll use {State, send_data, enable_read, disable_read, close}
  open reading use {flag, flag-send, flag-close_ne}

  abbrev Ok : RecvDataProc State → Type 0
  Ok p = IsValid epoll reading p

  -- A client of which neither count nor flag nor the bytes kept change.
  update_client-IsValid :
      (sock : ℕ) (f : ClientInfo → ClientInfo) (p : RecvDataProc State) (s : State)
      → ((c : ClientInfo)
          → IsFlowing p.flow_control_high p.flow_control_low (flag sock p.server) c
          → IsFlowing p.flow_control_high p.flow_control_low (flag sock p.server) (f c))
      → ((j : ℕ) → flag j s ≡ flag j p.server)
      → Ok p
      → Ok (record p { client_map = update sock f p.client_map; server = s })
  update_client-IsValid sock f p s keeps same v = record {
    sorted = update-IsSorted sock f p.client_map v.sorted;
    bounds = v.bounds;
    flowing =
        update_kept epoll reading p.flow_control_high p.flow_control_low sock f p.client_map
          p.server s keeps same v.flowing;
  }

  backend-IsValid : (b : Backend) (p : RecvDataProc State) → Ok p → Ok (record p { backend = b })
  backend-IsValid b p v = record { sorted = v.sorted; bounds = v.bounds; flowing = v.flowing }

  server-IsValid :
      (s : State) (p : RecvDataProc State)
      → ((j : ℕ) → flag j s ≡ flag j p.server)
      → Ok p
      → Ok (record p { server = s })
  server-IsValid s p same v = record {
    sorted = v.sorted;
    bounds = v.bounds;
    flowing = λ k c e. rw (same k) (v.flowing k c e);
  }

  login-IsValid : (sock frame : ℕ) (p : RecvDataProc State) → Ok p → Ok (login epoll sock frame p).1
  unfolding login
  login-IsValid sock frame p v = elim (Option-cases (find sock p.client_map)) [
    | inl out ↦ rw (out, login) v
    | inr (c, at_sock) ↦
        rw (at_sock, login)
          (update_client-IsValid sock _ p (send_data sock login_ack_frame false p.server)
            (λ d ok. record {
              restruct = ok.restruct;
              agrees = ok.agrees;
              full = ok.full;
              drained = ok.drained;
            })
            (λ j. flag-send sock j login_ack_frame false p.server) v)
  ]

  new_client-IsValid :
      (sock frame : ℕ) (p : RecvDataProc State) → Ok p → Ok (new_client epoll sock frame p).1
  unfolding new_client
  new_client-IsValid sock frame p v =
      elim (Bool-cases (
        frame_byte epoll p frame 4 == client_type_phone
        || frame_byte epoll p frame 4 == client_type_pc)) [
          | inl e ↦ rw e (login-IsValid sock frame p v)
          | inr e ↦ rw e v
        ]

  send_loop-flag :
      (sock camera : ℕ) (bytes : List ℕ) (m : List (ℕ × ClientInfo)) (s : State) (j : ℕ)
      → flag j (send_loop epoll sock camera bytes m s) ≡ flag j s
  unfolding send_loop
  send_loop-flag sock camera bytes [] s j = refl
  send_loop-flag sock camera bytes ((k, c) ∷ m) s j =
      send_loop-flag sock camera bytes m _ j
      ∙ elim (Bool-cases (watches epoll sock camera (k, c))) [
        | inl e ↦ rw e (flag-send k j bytes true s)
        | inr e ↦ rw e refl
      ]

  pic_data_recv-IsValid :
      (sock frame len : ℕ) (p : RecvDataProc State)
      → Ok p
      → Ok (pic_data_recv epoll sock frame len p)
  unfolding pic_data_recv
  pic_data_recv-IsValid sock frame len p v = elim (Option-cases (find sock p.client_map)) [
    | inl e ↦ rw (e, pic_data_recv) v
    | inr (c, e) ↦
        rw (e, pic_data_recv)
          (server-IsValid _ p
            (λ j.
              send_loop-flag sock c.camera_id (take len (p.backend.memory frame)) p.client_map
                p.server j)
            v)
  ]

  reset_camera_id-IsValid :
      (sock frame : ℕ) (p : RecvDataProc State) → Ok p → Ok (reset_camera_id epoll sock frame p)
  unfolding reset_camera_id
  reset_camera_id-IsValid sock frame p v =
      update_client-IsValid sock _ p p.server
        (λ d ok. record {
          restruct = ok.restruct;
          agrees = ok.agrees;
          full = ok.full;
          drained = ok.drained;
        })
        (λ j. refl) v

  -- A client that leaves with its socket closed.
  turned_out-IsValid :
      (sock : ℕ) (p : RecvDataProc State)
      → Ok p
      → (let p'' = quit_client epoll sock p in Ok (record p'' { server = close sock p''.server }))
  unfolding quit_client
  turned_out-IsValid sock p v = record {
    sorted = erase-IsSorted sock p.client_map v.sorted;
    bounds = v.bounds;
    flowing =
        erase-AreFlowing epoll reading p.flow_control_high p.flow_control_low sock p.client_map
          p.server (close sock p.server) v.sorted (λ j h. flag-close_ne sock j p.server h)
          v.flowing;
  }

  -- What follows a login, with whether it was taken.
  after_login-IsValid :
      (sock : ℕ) (done : Bool) (p : RecvDataProc State)
      → Ok p
      → Ok (
          if done
          then p
          else (let p'' = quit_client epoll sock p in
              record p'' { server = close sock p''.server }))
  after_login-IsValid sock true p v = v
  after_login-IsValid sock false p v = turned_out-IsValid sock p v

  command_proc-IsValid :
      (sock frame len : ℕ) (p : RecvDataProc State)
      → Ok p
      → Ok (command_proc epoll sock frame len p)
  unfolding command_proc
  command_proc-IsValid sock frame len p v =
      let code : ℕ = frame_byte epoll p frame 3 in
      elim (Bool-cases (code == 0x00)) [
        | inl e ↦ rw e (
            after_login-IsValid sock (new_client epoll sock frame p).0
              (new_client epoll sock frame p).1 (new_client-IsValid sock frame p v))
        | inr e ↦ elim (Bool-cases (code == 0x01)) [
          | inl e' ↦ rw (e, e') (reset_camera_id-IsValid sock frame p v)
          | inr e' ↦ elim (Bool-cases (code == 0x10)) [
            | inl e'' ↦ rw (e, e', e'') (pic_data_recv-IsValid sock frame len p v)
            | inr e'' ↦ rw (e, e', e'') v
          ]
        ]
      ]

  pub process_task-IsValid :
      (t : FrameProcTask) (p : RecvDataProc State) → Ok p → Ok (process_task epoll t p)
  unfolding process_task
  process_task-IsValid t p v =
      let p' = command_proc epoll t.sock t.frame t.frame_len p in
      decrease_frame_count-IsValid epoll reading t.sock
        (record p' { backend = Service.free_buff t.frame p'.backend })
        (backend-IsValid _ p' (command_proc-IsValid t.sock t.frame t.frame_len p v))
