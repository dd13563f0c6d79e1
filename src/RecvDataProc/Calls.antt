-- ===== src/RecvDataProc/Calls.antt =====
-- What the calls of `CRecvDataProc` do to the epoll server: a property of its state that each of the
-- four calls of the interface keeps is kept by everything.
use cmdtran.Common.{
  ℕ, ◌≡◌, subst, Bool, true, false, not, ◌&&◌, ◌||◌, Option, none, some, List, [], ◌∷◌, ◌==◌,
  if◌then◌else◌, Bool-cases, Option-cases, inl, inr, take,
}
use cmdtran.Common.Int.{add_ℕ, pred_ℤ, exceeds_ℕ, below_ℕ}
use cmdtran.Common.Map.{find}
use cmdtran.FrameRestruct.{FrameRestruct}
use cmdtran.RecvDataProc.Service.{Backend, FrameProcTask}
use cmdtran.RecvDataProc.Server.{EpollServer}
use cmdtran.RecvDataProc.{
  ClientInfo, RecvDataProc, increase_at, increase_frame_count, decrease_at, decrease_frame_count,
  received, add_recv_data, login, new_client, send_loop, watches, pic_data_recv, reset_camera_id,
  command_proc, process_task, quit_client, frame_byte, login_ack_frame, client_type_phone,
  client_type_pc,
}

pub record Keeps (epoll : EpollServer) (P : epoll.State → Type 0) : Type 0 where
  pub keeps_send :
      (k : ℕ) (bytes : List ℕ) (back : Bool) (s : epoll.State)
      → P s
      → P (epoll.send_data k bytes back s)
  pub keeps_enable : (k : ℕ) (s : epoll.State) → P s → P (epoll.enable_read k s)
  pub keeps_disable : (k : ℕ) (s : epoll.State) → P s → P (epoll.disable_read k s)
  pub keeps_close : (k : ℕ) (s : epoll.State) → P s → P (epoll.close k s)

module _ (epoll : EpollServer) (P : epoll.State → Type 0) (keeps : Keeps epoll P) where
  open epoll use {State, close}
  open keeps use {keeps_send, keeps_enable, keeps_disable, keeps_close}

  increase_at-Keeps :
      (sock count : ℕ) (c : ClientInfo) (p : RecvDataProc State)
      → P p.server
      → P (increase_at epoll sock count c p).1.server
  unfolding increase_at
  increase_at-Keeps sock count c p h =
      elim (Bool-cases
        (exceeds_ℕ (add_ℕ c.frame_count count) p.flow_control_high && c.enable_read)) [
          | inl e ↦ rw e (keeps_disable sock p.server h)
          | inr e ↦ rw e h
        ]

  increase_frame_count-Keeps :
      (sock count : ℕ) (p : RecvDataProc State)
      → P p.server
      → P (increase_frame_count epoll sock count p).1.server
  unfolding increase_frame_count
  increase_frame_count-Keeps sock count p h = elim (Option-cases (find sock p.client_map)) [
    | inl e ↦ rw (e, increase_frame_count) h
    | inr (c, e) ↦ rw (e, increase_frame_count) (increase_at-Keeps sock count c p h)
  ]

  decrease_at-Keeps :
      (sock : ℕ) (c : ClientInfo) (p : RecvDataProc State)
      → P p.server
      → P (decrease_at epoll sock c p).1.server
  unfolding decrease_at
  decrease_at-Keeps sock c p h =
      elim (Bool-cases (below_ℕ (pred_ℤ c.frame_count) p.flow_control_low && not c.enable_read)) [
        | inl e ↦ rw e (keeps_enable sock p.server h)
        | inr e ↦ rw e h
      ]

  decrease_frame_count-Keeps :
      (sock : ℕ) (p : RecvDataProc State)
      → P p.server
      → P (decrease_frame_count epoll sock p).1.server
  unfolding decrease_frame_count
  decrease_frame_count-Keeps sock p h = elim (Option-cases (find sock p.client_map)) [
    | inl e ↦ rw (e, decrease_frame_count) h
    | inr (c, e) ↦ rw (e, decrease_frame_count) (decrease_at-Keeps sock c p h)
  ]

  -- What is returned, if anything is.
  abbrev pub Returned : Option (Bool × RecvDataProc State) → Type 0
  Returned none = Unit
  Returned (some (done, p)) = P p.server

  received-Keeps :
      (sock : ℕ) (out : Option (ℕ × FrameRestruct × Backend)) (p : RecvDataProc State)
      → P p.server
      → Returned (received epoll sock out p)
  unfolding received
  received-Keeps sock none p h = tt
  received-Keeps sock (some (count, r, b)) p h = increase_frame_count-Keeps sock count _ h

  add_recv_data-Returned :
      (sock : ℕ) (buff : List ℕ) (len : ℕ) (p : RecvDataProc State)
      → P p.server
      → Returned (add_recv_data epoll sock buff len p)
  unfolding add_recv_data
  add_recv_data-Returned sock buff len p h = elim (Option-cases (find sock p.client_map)) [
    | inl e ↦ rw (e, add_recv_data) h
    | inr (c, e) ↦ rw (e, add_recv_data) (received-Keeps sock _ p h)
  ]

  pub add_recv_data-Keeps :
      (sock : ℕ) (buff : List ℕ) (len : ℕ) (p p' : RecvDataProc State) (done : Bool)
      → add_recv_data epoll sock buff len p ≡ some (done, p')
      → P p.server
      → P p'.server
  add_recv_data-Keeps sock buff len p p' done e h =
      subst Returned e (add_recv_data-Returned sock buff len p h)

  login-Keeps :
      (sock frame : ℕ) (p : RecvDataProc State) → P p.server → P (login epoll sock frame p).1.server
  unfolding login
  login-Keeps sock frame p h = elim (Option-cases (find sock p.client_map)) [
    | inl e ↦ rw (e, login) h
    | inr (c, e) ↦ rw (e, login) (keeps_send sock login_ack_frame false p.server h)
  ]

  new_client-Keeps :
      (sock frame : ℕ) (p : RecvDataProc State)
      → P p.server
      → P (new_client epoll sock frame p).1.server
  unfolding new_client
  new_client-Keeps sock frame p h =
      elim (Bool-cases (
        frame_byte epoll p frame 4 == client_type_phone
        || frame_byte epoll p frame 4 == client_type_pc)) [
          | inl e ↦ rw e (login-Keeps sock frame p h)
          | inr e ↦ rw e h
        ]

  send_loop-Keeps :
      (sock camera : ℕ) (bytes : List ℕ) (m : List (ℕ × ClientInfo)) (s : State)
      → P s
      → P (send_loop epoll sock camera bytes m s)
  unfolding send_loop
  send_loop-Keeps sock camera bytes [] s h = h
  send_loop-Keeps sock camera bytes ((k, c) ∷ m) s h =
      elim (Bool-cases (watches epoll sock camera (k, c))) [
        | inl e ↦
            rw (send_loop, e) (send_loop-Keeps sock camera bytes m _ (keeps_send k bytes true s h))
        | inr e ↦ rw (send_loop, e) (send_loop-Keeps sock camera bytes m s h)
      ]

  pic_data_recv-Keeps :
      (sock frame len : ℕ) (p : RecvDataProc State)
      → P p.server
      → P (pic_data_recv epoll sock frame len p).server
  unfolding pic_data_recv
  pic_data_recv-Keeps sock frame len p h = elim (Option-cases (find sock p.client_map)) [
    | inl e ↦ rw (e, pic_data_recv) h
    | inr (c, e) ↦
        rw (e, pic_data_recv)
          (send_loop-Keeps sock c.camera_id (take len (p.backend.memory frame)) p.client_map
            p.server h)
  ]

  -- A login that is refused closes the socket.
  after_login-Keeps :
      (sock : ℕ) (done : Bool) (p : RecvDataProc State)
      → P p.server
      → P
          (if done
            then p
            else (let q = quit_client epoll sock p in
                record q { server = close sock q.server })).server
  unfolding quit_client
  after_login-Keeps sock true p h = h
  after_login-Keeps sock false p h = keeps_close sock p.server h

  command_proc-Keeps :
      (sock frame len : ℕ) (p : RecvDataProc State)
      → P p.server
      → P (command_proc epoll sock frame len p).server
  unfolding command_proc reset_camera_id
  command_proc-Keeps sock frame len p h =
      let code : ℕ = frame_byte epoll p frame 3 in
      elim (Bool-cases (code == 0x00)) [
        | inl e ↦ rw e (
            after_login-Keeps sock (new_client epoll sock frame p).0
              (new_client epoll sock frame p).1 (new_client-Keeps sock frame p h))
        | inr e ↦ elim (Bool-cases (code == 0x01)) [
          | inl e' ↦ rw (e, e') h
          | inr e' ↦ elim (Bool-cases (code == 0x10)) [
            | inl e'' ↦ rw (e, e', e'') (pic_data_recv-Keeps sock frame len p h)
            | inr e'' ↦ rw (e, e', e'') h
          ]
        ]
      ]

  pub process_task-Keeps :
      (t : FrameProcTask) (p : RecvDataProc State) → P p.server → P (process_task epoll t p).server
  unfolding process_task
  process_task-Keeps t p h =
      decrease_frame_count-Keeps t.sock _ (command_proc-Keeps t.sock t.frame t.frame_len p h)
