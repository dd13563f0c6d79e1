-- ===== src/RecvDataProc/Receive.antt =====
-- `AddRecvData` against the frame format, and the life of a `CRecvDataProc`: connections, data and
-- the tasks of the workers in any order.
use cmdtran.Common.{
  ℕ, ◌≤◌, ◌≡◌, refl, sym, ap, subst, ◌∙◌, Bool, true, false, ◌&&◌, ◌≢◌, Bool-cases, some, List,
  ◌++◌, inl, inr, arith, Option-cases, take, length,
}
use mathlib.Core.Option.{some-injective, none-ne-some}
use mathlib.Core.Bool.{true≢false}
use cmdtran.Common.Int.{ℤ, add_ℕ, exceeds_ℕ}
use cmdtran.Common.Map.{find, update, update-IsSorted, find-update_self, find-update_ne}
use cmdtran.FrameRestruct.{FrameRestruct}
use cmdtran.FrameRestruct.Decode.{decode}
use cmdtran.FrameRestruct.Deliver.{deliver, contents}
use cmdtran.FrameRestruct.Deliver
use cmdtran.FrameRestruct.Refine.{restruct_frame-decode}
use cmdtran.RecvDataProc.{
  ClientInfo, RecvDataProc, new_client_info, add_client, quit_client, increase_at,
  increase_frame_count, decrease_at, decrease_frame_count, received, add_recv_data, login,
  new_client, send_loop, watches, pic_data_recv, reset_camera_id, command_proc, process_task,
  client_type_phone, client_type_pc, frame_byte, login_ack_frame,
}
use cmdtran.RecvDataProc
use cmdtran.RecvDataProc.Service.{Backend, FrameProcTask, backend}
use cmdtran.RecvDataProc.Server.{EpollServer, Reading}
use cmdtran.RecvDataProc.Clients.{update_kept}
use cmdtran.RecvDataProc.Flow.{
  IsValid, add_client-IsValid, quit_client-IsValid, increase_frame_count-IsValid,
}
use cmdtran.RecvDataProc.Steps.{process_task-IsValid}

module _ (epoll : EpollServer) (reading : Reading epoll) where
  open epoll use {State, disable_read}
  open reading use {flag}

  -- What is stored behind a call of `RestructFrame`.
  abbrev pub stored : ℕ → FrameRestruct → Backend → RecvDataProc State → RecvDataProc State
  stored sock r b p = record p {
    backend = b;
    client_map = update sock (λ c. record c { frame_restruct = r }) p.client_map;
  }

  stored-IsValid :
      (sock : ℕ) (r : FrameRestruct) (b : Backend) (p : RecvDataProc State)
      → IsValid epoll reading p
      → Deliver.IsValid r
      → IsValid epoll reading (stored sock r b p)
  stored-IsValid sock r b p v ok = record {
    sorted = update-IsSorted sock _ p.client_map v.sorted;
    bounds = v.bounds;
    flowing =
        update_kept epoll reading p.flow_control_high p.flow_control_low sock _ p.client_map
          p.server p.server
          (λ d was. record {
            restruct = ok;
            agrees = was.agrees;
            full = was.full;
            drained = was.drained;
          })
          (λ j. refl) v.flowing;
  }

  -- What `AddRecvData` for a client hands over, before the count.
  add_recv_data-client :
      (sock : ℕ) (buff : List ℕ) (len : ℕ) (p : RecvDataProc State) (c : ClientInfo)
      → IsValid epoll reading p
      → len ≤ length buff
      → find sock p.client_map ≡ some c
      → let (frames, rest) = decode 0 (contents c.frame_restruct ++ take len buff) in
        let (count, b) = deliver backend c.frame_restruct.recv_data_proc sock frames 0 p.backend in
        (r : FrameRestruct) × (add_recv_data epoll sock buff len p
          ≡ some (true, (increase_frame_count epoll sock count (stored sock r b p)).1))
        × Deliver.IsValid r
        × (contents r ≡ rest)
  unfolding add_recv_data received
  add_recv_data-client sock buff len p c v given at_sock =
      let (r, returns, ok, rest, _) =
        restruct_frame-decode backend sock c.frame_restruct buff len p.backend
          (v.flowing sock c at_sock).restruct given in
      (r, rw (at_sock, add_recv_data, returns) refl, ok, rest)

  -- What `IncreaseFrameCount` leaves of a client, of the others, and of the reading of the socket.
  pub record Increased (sock n : ℕ) (c : ClientInfo) (p p' : RecvDataProc State) (c' : ClientInfo)
      : Type 0 where
    pub at_socket : find sock p'.client_map ≡ some c'
    pub count : c'.frame_count ≡ add_ℕ c.frame_count n
    pub others : (j : ℕ) → sock ≢ j → find j p'.client_map ≡ find j p.client_map
    pub backend_kept : p'.backend ≡ p.backend
    pub switched :
        (exceeds_ℕ (add_ℕ c.frame_count n) p.flow_control_high && c.enable_read) ≡ true
        → (c'.enable_read ≡ false) × (p'.server ≡ disable_read sock p.server)
    pub left :
        (exceeds_ℕ (add_ℕ c.frame_count n) p.flow_control_high && c.enable_read) ≡ false
        → (c'.enable_read ≡ c.enable_read) × (p'.server ≡ p.server)

  increase_frame_count-client :
      (sock n : ℕ) (c : ClientInfo) (p : RecvDataProc State)
      → find sock p.client_map ≡ some c
      → increase_at epoll sock n c p ≡ increase_frame_count epoll sock n p
  unfolding increase_frame_count
  increase_frame_count-client sock n c p there = rw (there, increase_frame_count) refl

  increase_at_lem :
      (sock n : ℕ) (c : ClientInfo) (p : RecvDataProc State)
      → find sock p.client_map ≡ some c
      → (c' : ClientInfo) × Increased sock n c p (increase_at epoll sock n c p).1 c'
        × (c'.frame_restruct ≡ c.frame_restruct)
  unfolding increase_at
  increase_at_lem sock n c p there =
      elim (Bool-cases (exceeds_ℕ (add_ℕ c.frame_count n) p.flow_control_high && c.enable_read)) [
        | inl over ↦ rw over (
          record c { frame_count = add_ℕ c.frame_count n; enable_read = false },
          record {
            at_socket = find-update_self sock _ p.client_map c there;
            count = refl;
            others = λ j h. find-update_ne sock j _ p.client_map h;
            backend_kept = refl;
            switched = λ e. (refl, refl);
            left = λ e. absurd (true≢false (sym over ∙ e));
          },
          refl,
        )
        | inr under ↦ rw under (
          record c { frame_count = add_ℕ c.frame_count n },
          record {
            at_socket = find-update_self sock _ p.client_map c there;
            count = refl;
            others = λ j h. find-update_ne sock j _ p.client_map h;
            backend_kept = refl;
            switched = λ e. absurd (true≢false (sym e ∙ under));
            left = λ e. (refl, refl);
          },
          refl,
        )
      ]

  -- In a valid server, `AddRecvData` for a client, with no more bytes than there are, returns
  -- true: the frames of the stream of the bytes that the client left over and the new ones are
  -- handed to the workers in order; the number of those that were saved is added to the client's
  -- count; if the sum is above the upper bound and the client was to be read, its flag is off and
  -- its socket is switched off, and otherwise both are as they were; the client's frame buffer is
  -- valid and keeps the end of the stream; and the other clients are as they were.
  pub add_recv_data_lem :
      (sock : ℕ) (buff : List ℕ) (len : ℕ) (p : RecvDataProc State) (c : ClientInfo)
      → IsValid epoll reading p
      → len ≤ length buff
      → find sock p.client_map ≡ some c
      → let (frames, rest) = decode 0 (contents c.frame_restruct ++ take len buff) in
        let (count, b) = deliver backend c.frame_restruct.recv_data_proc sock frames 0 p.backend in
        (p' : RecvDataProc State) × (c' : ClientInfo) × (add_recv_data epoll sock buff len p
          ≡ some (true, p'))
        × Increased sock count c (record p { backend = b }) p' c'
        × Deliver.IsValid c'.frame_restruct
        × (contents c'.frame_restruct ≡ rest)
  add_recv_data_lem sock buff len p c v given at_sock =
      let (frames, rest) = decode 0 (contents c.frame_restruct ++ take len buff) in
      let (count, b) = deliver backend c.frame_restruct.recv_data_proc sock frames 0 p.backend in
      let (r, returns, ok, left_over) = add_recv_data-client sock buff len p c v given at_sock in
      let d = record c { frame_restruct = r } in
      let q = stored sock r b p in
      let there = find-update_self sock _ p.client_map c at_sock in
      let (c', i, same) = increase_at_lem sock count d q there in
      (
        (increase_at epoll sock count d q).1,
        c',
        returns
            ∙ ap (λ (x : ℤ × RecvDataProc State). some (true, x.1))
                (sym (increase_frame_count-client sock count d q there)),
        record {
          at_socket = i.at_socket;
          count = i.count;
          others = λ j h. i.others j h ∙ find-update_ne sock j _ p.client_map h;
          backend_kept = i.backend_kept;
          switched = i.switched;
          left = i.left;
        },
        rw same ok,
        rw same left_over,
      )

  -- In a valid server, `AddRecvData` of any socket, with no more bytes than there are, returns,
  -- and leaves the server valid.
  pub add_recv_data-IsValid :
      (sock : ℕ) (buff : List ℕ) (len : ℕ) (p : RecvDataProc State)
      → IsValid epoll reading p
      → len ≤ length buff
      → (done : Bool) × (p' : RecvDataProc State) × (add_recv_data epoll sock buff len p
          ≡ some (done, p'))
        × IsValid epoll reading p'
  unfolding add_recv_data
  add_recv_data-IsValid sock buff len p v given = elim (Option-cases (find sock p.client_map)) [
    | inl out ↦ (false, p, rw (out, add_recv_data) refl, v)
    | inr (c, at_sock) ↦
        let (r, returns, ok, rest) = add_recv_data-client sock buff len p c v given at_sock in
        (
          true,
          _,
          returns,
          increase_frame_count-IsValid epoll reading sock _ _ (stored-IsValid sock r _ p v ok),
        )
  ]

  -- One step of the server: its connections, data and tasks, or work that the epoll server does on its own and that
  -- leaves the flags of the clients alone. A socket that connects is known to the epoll server, which reads it.
  pub data Step (p : RecvDataProc State) : RecvDataProc State → Type 0 where
    connect :
        (sock camera : ℕ) → flag sock p.server ≡ some true → Step p (add_client epoll sock camera p)
    quit : (sock : ℕ) → Step p (quit_client epoll sock p)
    receive :
        (sock : ℕ) (buff : List ℕ) (len : ℕ) (done : Bool) (p' : RecvDataProc State)
        → len ≤ length buff
        → add_recv_data epoll sock buff len p ≡ some (done, p')
        → Step p p'
    process : (t : FrameProcTask) → Step p (process_task epoll t p)
    own :
        (s : State)
        → ((k : ℕ) (c : ClientInfo) → find k p.client_map ≡ some c → flag k s ≡ flag k p.server)
        → Step p (record p { server = s })

  pub data Steps (p : RecvDataProc State) : RecvDataProc State → Type 0 where
    start : Steps p p
    more : (p' p'' : RecvDataProc State) → Steps p p' → Step p' p'' → Steps p p''

  Step-IsValid :
      (p p' : RecvDataProc State) → IsValid epoll reading p → Step p p' → IsValid epoll reading p'
  Step-IsValid p _ v (connect sock camera on) = add_client-IsValid epoll reading sock camera p v on
  Step-IsValid p _ v (quit sock) = quit_client-IsValid epoll reading sock p v
  Step-IsValid p _ v (receive sock buff len done p' given returns) =
      let (done', q, returns', ok) = add_recv_data-IsValid sock buff len p v given in
      subst (IsValid epoll reading)
        (ap (λ (x : Bool × RecvDataProc State). x.1)
          (some-injective (done', q) (done, p') (sym returns' ∙ returns)))
        ok
  Step-IsValid p _ v (process t) = process_task-IsValid epoll reading t p v
  Step-IsValid p _ v (own s same) = record {
    sorted = v.sorted;
    bounds = v.bounds;
    flowing = λ k c e. rw (same k c e) (v.flowing k c e);
  }

  -- From a valid server, and where each socket that connects is at that moment read by the epoll
  -- server, in every order of such connections, ends of connections, received data, processed
  -- tasks and work of the epoll server that leaves the flags of the clients alone, the server
  -- stays valid: each client whose count is above the upper bound is not to be read and each one
  -- whose count is below the lower bound is, by its flag and by that of the epoll server, and its
  -- frame buffer is valid.
  pub Steps-IsValid :
      (p p' : RecvDataProc State) → IsValid epoll reading p → Steps p p' → IsValid epoll reading p'
  Steps-IsValid p _ v start = v
  Steps-IsValid p _ v (more p' p'' before step) =
      Step-IsValid p' p'' (Steps-IsValid p p' v before) step

  pub init-IsValid :
      (created : ℕ → Bool) (garbage : ℕ → ℕ) (memory : ℕ → List ℕ) (s : State)
      → IsValid epoll reading (RecvDataProc.init created garbage memory s)
  unfolding RecvDataProc.init find
  init-IsValid created garbage memory s = record {
    sorted = tt;
    bounds = omega arith;
    flowing = λ k c e. absurd (none-ne-some c e);
  }
