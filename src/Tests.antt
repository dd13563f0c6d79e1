-- ===== src/Tests.antt =====
-- Small states of every part, to which the children apply the theorems.
pub mod Frames
pub mod Pools
pub mod Server
pub mod Chain
pub mod Sockets
pub mod Texts
pub mod Threads
pub mod Events
pub mod Lists
use cmdtran.Common.{
  ℕ, zero, suc, ◌+◌, ◌-◌, ◌*◌, ◌≤◌, ◌<◌, ◌≡◌, ◌≢◌, refl, sym, Bool, true, false, Option, none, some,
  List, [], ◌∷◌, ◌++◌, length, take, drop, map, ◌==◌, if◌then◌else◌, arith, ne→==, eq→==, get_or,
  All,
}
use cmdtran.MemPool.{MemPool, creat_pool, get_block, free_block}
use cmdtran.MemPool
use cmdtran.MasterWorkPool.{MasterWorkPool}
use cmdtran.MasterWorkPool
use cmdtran.FrameRestruct.{FrameRestruct, restruct_frame, copy_rest_to_exit_buff, fill}
use cmdtran.FrameRestruct
use cmdtran.FrameRestruct.Decode.{IsFrame, decode}
use cmdtran.FrameRestruct.Deliver.{contents, deliver}
use cmdtran.FrameRestruct.Deliver
use cmdtran.FrameRestruct.Refine.{restruct_frame-decode}
use cmdtran.FrameRestruct.Refine
use cmdtran.FrameRestruct.Chunks.{receive, Received, receive-decode}
use cmdtran.FrameRestruct.Frames.{Sent, IsSent, receive-wire, restruct_frame-IsFrame}
use cmdtran.RecvDataProc.{login_ack_frame}
use cmdtran.RecvDataProc.Service.{Backend, FrameProcTask, backend}

-- A backend with two blocks.
abbrev pub small_pool : MemPool
small_pool = (creat_pool 1152 2 1 (MemPool.init (λ _. 0))).1

abbrev pub small_backend : Backend
small_backend = record {
  recv_frame_mp = small_pool;
  memory = λ _. [];
  recv_frame_proc_tm = some (MasterWorkPool.init_pool 4 (λ _. true) MasterWorkPool.init);
}

abbrev pub empty_restruct : FrameRestruct
empty_restruct = FrameRestruct.init true

-- The acknowledgement of a login is a frame.
pub login_ack-IsFrame : IsFrame login_ack_frame
login_ack-IsFrame = record {
  head = refl;
  len = refl;
  shortest = omega arith;
  longest = omega arith;
  last = refl;
}
