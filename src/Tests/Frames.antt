-- ===== src/Tests/Frames.antt =====
-- Two frames in three pieces, and the copies of `CFrameRestruct`.
use cmdtran.Common.{ℕ, ◌≤◌, ◌≡◌, refl, true, some, List, [], ◌∷◌, ◌++◌, length, take, arith, All}
use cmdtran.FrameRestruct.{FrameRestruct, restruct_frame, copy_rest_to_exit_buff, fill}
use cmdtran.FrameRestruct
use cmdtran.FrameRestruct.Decode.{IsFrame, decode}
use cmdtran.FrameRestruct.Deliver.{contents, deliver}
use cmdtran.FrameRestruct.Deliver
use cmdtran.FrameRestruct.Refine.{restruct_frame-decode}
use cmdtran.FrameRestruct.Refine
use cmdtran.FrameRestruct.Chunks.{receive, Received, receive-decode}
use cmdtran.FrameRestruct.Frames.{Sent, IsSent, receive-wire, restruct_frame-IsFrame}
use cmdtran.RecvDataProc.{login_ack_frame}
use cmdtran.RecvDataProc.Service.{backend}
use cmdtran.Tests.{small_backend, empty_restruct, login_ack-IsFrame}

-- Two frames with noise in front of the second.
abbrev two_frames : List Sent
two_frames =
    record { gap = []; frame = login_ack_frame }
    ∷ record { gap = 1 ∷ 2 ∷ []; frame = login_ack_frame }
    ∷ []

two_frames-IsSent : All IsSent two_frames
two_frames-IsSent = (
  (tt, login_ack-IsFrame),
  ((((λ e. absurd (omega arith)), ((λ e. absurd (omega arith)), tt)), login_ack-IsFrame), tt),
)

-- They arrive in three pieces.
abbrev pieces : List (List ℕ)
pieces =
    (0x7E ∷ 0x00 ∷ [])
    ∷ (0x05 ∷ 0x90 ∷ 0xA5 ∷ 1 ∷ 2 ∷ 0x7E ∷ [])
    ∷ (0x00 ∷ 0x05 ∷ 0x90 ∷ 0xA5 ∷ [])
    ∷ []

receive-decode_example : Received backend 7 empty_restruct pieces 0 small_backend
receive-decode_example =
    receive-decode backend 7 pieces empty_restruct 0 small_backend (Refine.init-IsValid true)

receive-wire_example :
    let (total, s') =
      deliver backend true 7 (login_ack_frame ∷ login_ack_frame ∷ []) 0 small_backend in
    (r' : FrameRestruct) × (receive backend 7 empty_restruct pieces 0 small_backend
      ≡ some (total, r', s'))
    × Deliver.IsValid r'
    × (r'.exit_len ≡ 0)
unfolding FrameRestruct.init
receive-wire_example =
    receive-wire backend 7 empty_restruct two_frames pieces 0 small_backend
      (Refine.init-IsValid true) refl two_frames-IsSent refl

restruct_frame-decode_example :
    let (frames, rest) = decode 0 (contents empty_restruct ++ take 5 login_ack_frame) in
    let (count, s') = deliver backend true 7 frames 0 small_backend in
    (r' : FrameRestruct) × (restruct_frame backend empty_restruct 7 login_ack_frame 5 small_backend
      ≡ some (count, r', s'))
    × Deliver.IsValid r'
    × (contents r' ≡ rest)
    × (r'.recv_data_proc ≡ true)
unfolding FrameRestruct.init
restruct_frame-decode_example =
    restruct_frame-decode backend 7 empty_restruct login_ack_frame 5 small_backend
      (Refine.init-IsValid true) (omega arith)

restruct_frame-IsFrame_example :
    (frames : List (List ℕ)) × (r' : FrameRestruct) × (let (count, s') =
        deliver backend true 7 frames 0 small_backend in
      restruct_frame backend empty_restruct 7 login_ack_frame 5 small_backend
      ≡ some (count, r', s'))
    × All IsFrame frames
unfolding FrameRestruct.init
restruct_frame-IsFrame_example =
    restruct_frame-IsFrame backend 7 empty_restruct login_ack_frame 5 small_backend
      (Refine.init-IsValid true) (omega arith)

kept : empty_restruct.exit_len ≤ length empty_restruct.exit_buffer
unfolding FrameRestruct.init
kept = omega arith

given : 5 ≤ length login_ack_frame
given = omega arith
