-- ===== src/RecvDataProc.antt =====
-- ComandTran/src/RecvDataProc.cpp, ComandTran/inc/RecvDataProc.h and
-- ComandTran/src/RecvDataProcIntf.cpp: the class `CRecvDataProc`, the clients of the server and
-- what their frames ask for, with `CFrameProcTask`. Each function is what one thread does;
-- `ClientMapLock` makes the changes of the map single steps.
pub mod Service
pub mod Server
pub mod Clients
pub mod Flow
pub mod Steps
pub mod Receive
pub mod Picture
pub mod Isolation
pub mod Calls
use cmdtran.Common.{
  ℕ, ◌+◌, ◌-◌, ◌*◌, ◌/◌, ◌%◌, Bool, true, false, ◌&&◌, ◌||◌, not, Option, none, some, List, [], ◌∷◌,
  ◌++◌, get_or, set, take, length, ◌==◌, if◌then◌else◌,
}
use cmdtran.Common.Int.{ℤ, pos, negsuc, add_ℕ, pred_ℤ, exceeds_ℕ, below_ℕ}
use cmdtran.Common.Map.{find, insert, erase, update}
use cmdtran.FrameRestruct.{FrameRestruct, restruct_frame}
use cmdtran.FrameRestruct
use Service.{Backend, FrameProcTask, backend}
use Server.{EpollServer}

abbrev pub client_type_phone : ℕ
client_type_phone = 0

abbrev pub client_type_pc : ℕ
client_type_pc = 1

pub record ClientInfo : Type 0 where
  pub socket : ℕ
  pub client_type : ℤ
  pub camera_id : ℕ
  pub frame_restruct : FrameRestruct
  pub frame_count : ℤ
  pub enable_read : Bool

-- `server` stands for the epoll server behind `m_pEpoll`.
pub record RecvDataProc {ℓ} (S : Type ℓ) : Type ℓ where
  pub backend : Backend
  pub client_map : List (ℕ × ClientInfo)
  pub flow_control_high : ℕ
  pub flow_control_low : ℕ
  pub server : S

-- `Init`, with a server.
unfoldable pub init {ℓ} :
    {S : Type ℓ} → (created : ℕ → Bool) → (ℕ → ℕ) → (ℕ → List ℕ) → S → RecvDataProc S
init created garbage memory server = record {
  backend = Service.init created garbage memory;
  client_map = [];
  flow_control_high = 1024 * 300;
  flow_control_low = 512;
  server = server;
}

-- The bytes that `FrameInit` puts into a buffer of `len` bytes.
unfoldable pub frame_init : List ℕ → ℕ → ℕ → List ℕ
frame_init frame len code =
    set (set (set (set (set frame 0 0x7E) 1 (len / 256 % 256)) 2 (len % 256 % 256)) 3 code)
      (len - 1) 0xA5

abbrev pub login_ack_frame : List ℕ
login_ack_frame = 0x7E ∷ 0x00 ∷ 0x05 ∷ 0x90 ∷ 0xA5 ∷ []

module _ (epoll : EpollServer) where
  open epoll use {State, send_data, enable_read, disable_read, close}

  abbrev Proc : Type 0
  Proc = RecvDataProc State

  -- A new `ClientInfo`; its camera id is what the memory holds.
  unfoldable pub new_client_info : ℕ → ℕ → ClientInfo
  new_client_info sock camera = record {
    socket = sock;
    client_type = negsuc 0;
    camera_id = camera;
    frame_restruct = FrameRestruct.init true;
    frame_count = pos 0;
    enable_read = true;
  }

  unfoldable pub add_client : ℕ → ℕ → Proc → Proc
  add_client sock camera p = record p {
    client_map = insert sock (new_client_info sock camera) p.client_map;
  }

  unfoldable pub quit_client : ℕ → Proc → Proc
  quit_client sock p = record p { client_map = erase sock p.client_map }

  unfoldable pub get_client_info : ℕ → Proc → Option ClientInfo
  get_client_info sock p = find sock p.client_map

  -- `IncreaseFrameCount` at a client; `false` is returned as the number 0.
  unfoldable pub increase_at : ℕ → ℕ → ClientInfo → Proc → ℤ × Proc
  increase_at sock count c p =
      let n = add_ℕ c.frame_count count in
      if exceeds_ℕ n p.flow_control_high && c.enable_read
      then (
        n,
        record p {
          client_map =
              update sock (λ c. record c { frame_count = n; enable_read = false }) p.client_map;
          server = disable_read sock p.server;
        },
      )
      else (
        n,
        record p { client_map = update sock (λ c. record c { frame_count = n }) p.client_map },
      )

  unfoldable pub increase_frame_count : ℕ → ℕ → Proc → ℤ × Proc
  increase_frame_count sock count p = elim (find sock p.client_map) [
    | none ↦ (pos 0, p)
    | some c ↦ increase_at sock count c p
  ]

  unfoldable pub decrease_at : ℕ → ClientInfo → Proc → ℤ × Proc
  decrease_at sock c p =
      let n = pred_ℤ c.frame_count in
      if below_ℕ n p.flow_control_low && not c.enable_read
      then (
        n,
        record p {
          client_map =
              update sock (λ c. record c { frame_count = n; enable_read = true }) p.client_map;
          server = enable_read sock p.server;
        },
      )
      else (
        n,
        record p { client_map = update sock (λ c. record c { frame_count = n }) p.client_map },
      )

  unfoldable pub decrease_frame_count : ℕ → Proc → ℤ × Proc
  decrease_frame_count sock p = elim (find sock p.client_map) [
    | none ↦ (pos 0, p)
    | some c ↦ decrease_at sock c p
  ]

  -- `AddRecvData` behind the call of `RestructFrame`, with what that returned.
  unfoldable pub received : ℕ → Option (ℕ × FrameRestruct × Backend) → Proc → Option (Bool × Proc)
  received sock none p = none
  received sock (some (count, r, b)) p =
      let p' = record p {
        backend = b;
        client_map = update sock (λ c. record c { frame_restruct = r }) p.client_map;
      } in
      some (true, (increase_frame_count sock count p').1)

  -- `none` means that the fuel of `RestructFrame` ran out.
  unfoldable pub add_recv_data : ℕ → List ℕ → ℕ → Proc → Option (Bool × Proc)
  add_recv_data sock buff len p = elim (find sock p.client_map) [
    | none ↦ some (false, p)
    | some c ↦ received sock (restruct_frame backend c.frame_restruct sock buff len p.backend) p
  ]

  -- The byte at an index of a frame, which lies in a block.
  abbrev pub frame_byte : Proc → ℕ → ℕ → ℕ
  frame_byte p frame i = get_or (p.backend.memory frame) i 0

  -- `NewClient` for a frame whose type byte is a client type.
  unfoldable pub login : ℕ → ℕ → Proc → Bool × Proc
  login sock frame p = elim (find sock p.client_map) [
    | none ↦ (false, p)
    | some _ ↦ (
      true,
      record p {
        client_map =
            update sock
              (λ c. record c {
                client_type = pos (frame_byte p frame 4);
                camera_id = frame_byte p frame 5 * 256 + frame_byte p frame 6;
              })
              p.client_map;
        server = send_data sock login_ack_frame false p.server;
      },
    )
  ]

  unfoldable pub new_client : ℕ → ℕ → Proc → Bool × Proc
  new_client sock frame p =
      if frame_byte p frame 4 == client_type_phone || frame_byte p frame 4 == client_type_pc
      then login sock frame p
      else (false, p)

  -- `CLIENT_TYPE_PC == it->second->ClientType`.
  unfoldable pub is_pc : ClientInfo → Bool
  is_pc c = elim c.client_type [ pos n ↦ n == client_type_pc | negsuc n ↦ false ]

  -- The test of the loop in `PicDataRecv`.
  unfoldable pub watches : ℕ → ℕ → ℕ × ClientInfo → Bool
  unfolding is_pc
  watches sock camera (k, c) = not (k == sock) && is_pc c && camera == c.camera_id

  unfoldable pub send_loop : ℕ → ℕ → List ℕ → List (ℕ × ClientInfo) → State → State
  unfolding watches
  send_loop sock camera bytes [] s = s
  send_loop sock camera bytes ((k, c) ∷ m) s =
      send_loop sock camera bytes m
        (if watches sock camera (k, c) then send_data k bytes true s else s)

  -- The frame that `PicDataRecv` makes to acknowledge a picture is sent to nobody, and is left out.
  unfoldable pub pic_data_recv : ℕ → ℕ → ℕ → Proc → Proc
  pic_data_recv sock frame len p = elim (find sock p.client_map) [
    | none ↦ p
    | some c ↦ record p {
      server = send_loop sock c.camera_id (take len (p.backend.memory frame)) p.client_map p.server;
    }
  ]

  unfoldable pub reset_camera_id : ℕ → ℕ → Proc → Proc
  reset_camera_id sock frame p = record p {
    client_map =
        update sock
          (λ c. record c { camera_id = frame_byte p frame 4 * 256 + frame_byte p frame 5 })
          p.client_map;
  }

  unfoldable pub command_proc : ℕ → ℕ → ℕ → Proc → Proc
  command_proc sock frame len p =
      let code = frame_byte p frame 3 in
      if code == 0x00
      then (let (done, p') = new_client sock frame p in
          if done
          then p'
          else (let p'' = quit_client sock p' in record p'' { server = close sock p''.server }))
      else if code == 0x01
      then reset_camera_id sock frame p
      else if code == 0x10
      then pic_data_recv sock frame len p
      else p

  -- `CFrameProcTask::ProcessTask`.
  unfoldable pub process_task : FrameProcTask → Proc → Proc
  process_task t p =
      let p' = command_proc t.sock t.frame t.frame_len p in
      (decrease_frame_count t.sock (record p' { backend = Service.free_buff t.frame p'.backend })).1
