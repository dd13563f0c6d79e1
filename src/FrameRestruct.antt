-- ===== src/FrameRestruct.antt =====
-- ComandTran/src/FrameRestruct.cpp and ComandTran/inc/FrameRestruct.h: the class `CFrameRestruct`,
-- which cuts the bytes of one socket into frames. A `char` is its bit pattern, a number below 256;
-- -1 as the result of `GetHeadIndex` and of `GetFrameLen` is `none`.
pub mod Interface
pub mod Decode
pub mod Bytes
pub mod Buffer
pub mod Deliver
pub mod Rounds
pub mod Refine
pub mod Chunks
pub mod Frames
use cmdtran.Common.{
  ℕ, zero, suc, ◌+◌, ◌-◌, ◌*◌, Bool, true, false, ◌&&◌, Option, none, some, List, [], ◌∷◌, length,
  get_or, set, take, drop, replicate, copy_at, ltb, leb, ◌==◌, if◌then◌else◌, ◌++◌,
}
use Interface.{DataProc}

abbrev pub exit_buffer_len : ℕ
exit_buffer_len = 2048

abbrev pub frame_head : ℕ
frame_head = 0x7E

abbrev pub frame_end : ℕ
frame_end = 0xA5

abbrev pub frame_len_min : ℕ
frame_len_min = 5

abbrev pub frame_len_max : ℕ
frame_len_max = 1024 + 100

-- `recv_data_proc` says whether the pointer `pRecvDataProc` is set; nothing is ever pushed on
-- `TaskList`, which stands for its pointers.
pub record FrameRestruct : Type 0 where
  pub exit_buffer : List ℕ
  pub exit_len : ℕ
  pub recv_data_proc : Bool
  pub task_list : List ℕ

-- The constructor. It leaves `pRecvDataProc` and `TaskList` to its owner.
unfoldable pub init : Bool → FrameRestruct
init attached = record {
  exit_buffer = replicate exit_buffer_len 0;
  exit_len = 0;
  recv_data_proc = attached;
  task_list = [];
}

-- The loop of `GetHeadIndex`, with `n` rounds left.
pub head_loop : FrameRestruct → List ℕ → ℕ → ℕ → Option ℕ
head_loop r recv zero i = none
head_loop r recv (suc n) i =
    let rest = head_loop r recv n (i + 1) in
    if ltb i r.exit_len
    then (if get_or r.exit_buffer i 0 == frame_head then some i else rest)
    else (if get_or recv (i - r.exit_len) 0 == frame_head then some i else rest)

pub get_head_index : FrameRestruct → List ℕ → ℕ → ℕ → Option ℕ
unfolding head_loop
get_head_index r recv recv_len cur = head_loop r recv (r.exit_len + recv_len - cur) cur

-- The loop of `CopyRestToExitBuff`, which moves bytes to the front of the buffer that it reads.
pub move_loop : List ℕ → ℕ → ℕ → ℕ → List ℕ
move_loop buffer zero index i = buffer
move_loop buffer (suc n) index i =
    move_loop (set buffer index (get_or buffer i 0)) n (index + 1) (i + 1)

pub copy_rest_to_exit_buff : FrameRestruct → List ℕ → ℕ → ℕ → FrameRestruct
unfolding move_loop
copy_rest_to_exit_buff r recv recv_len cur =
    if ltb cur r.exit_len
    then record r {
      exit_buffer =
          copy_at (move_loop r.exit_buffer (r.exit_len - cur) 0 cur) (r.exit_len - cur)
            (take recv_len recv);
      exit_len = r.exit_len - cur + recv_len;
    }
    else record r {
      exit_buffer =
          copy_at r.exit_buffer 0
            (take (r.exit_len + recv_len - cur) (drop (cur - r.exit_len) recv));
      exit_len = r.exit_len + recv_len - cur;
    }

-- The two length bytes. `cur < m_iExitLen - 2` is a test of signed numbers, false for a short
-- exit buffer, hence the sum on the left.
pub len_bytes : FrameRestruct → List ℕ → ℕ → ℕ
len_bytes r recv cur =
    if ltb (cur + 2) r.exit_len
    then get_or r.exit_buffer (cur + 1) 0 * 256 + get_or r.exit_buffer (cur + 2) 0
    else if cur + 2 == r.exit_len
    then get_or r.exit_buffer (cur + 1) 0 * 256 + get_or recv 0 0
    else get_or recv (cur + 1 - r.exit_len) 0 * 256 + get_or recv (cur + 2 - r.exit_len) 0

pub get_frame_len : FrameRestruct → List ℕ → ℕ → Option ℕ
unfolding len_bytes
get_frame_len r recv cur =
    let n = len_bytes r recv cur in
    if ltb n frame_len_min then none else if ltb frame_len_max n then none else some n

-- `v_iCurIndex + v_iFrameLen > m_iExitLen + RecvLen`, where the length may be -1.
pub exceeds : Option ℕ → ℕ → ℕ → Bool
exceeds none cur total = ltb (total + 1) cur
exceeds (some n) cur total = ltb total (cur + n)

-- `CurIndex - m_iExitLen + FrameLen - 1` may begin below 0, and is summed up first here.
pub check_sum : FrameRestruct → List ℕ → ℕ → ℕ → Bool
check_sum r recv cur len =
    (if ltb cur r.exit_len && leb (cur + len) r.exit_len
      then get_or r.exit_buffer (cur + len - 1) 0
      else get_or recv (cur + len - 1 - r.exit_len) 0)
    == frame_end

module _ (proc : DataProc) where
  open proc use {State, get_buff, free_buff, write, add_frame_proc_task}

  unfoldable pub get_buffer : FrameRestruct → State → Option ℕ × State
  get_buffer r s = if r.recv_data_proc then get_buff s else (none, s)

  unfoldable pub free_buffer : FrameRestruct → ℕ → State → State
  free_buffer r buff s = if r.recv_data_proc then free_buff buff s else s

  unfoldable pub add_to_list : FrameRestruct → ℕ → ℕ → ℕ → State → State
  add_to_list r sock frame len s =
      if r.recv_data_proc then add_frame_proc_task sock frame len s else s

  -- The copies of `SaveFrame` into the block `p`.
  pub fill : FrameRestruct → List ℕ → ℕ → ℕ → ℕ → State → State
  fill r recv cur len p s =
      if ltb cur r.exit_len && leb (cur + len) r.exit_len
      then write p 0 (take len (drop cur r.exit_buffer)) s
      else if ltb cur r.exit_len && ltb r.exit_len (cur + len)
      then write p (r.exit_len - cur) (take (len - (r.exit_len - cur)) recv)
          (write p 0 (take (r.exit_len - cur) (drop cur r.exit_buffer)) s)
      else write p 0 (take len (drop (cur - r.exit_len) recv)) s

  -- `SaveFrame` behind its call of `GetBuffer`, with what that returned.
  unfoldable pub save_to : FrameRestruct → ℕ → List ℕ → ℕ → ℕ → Option ℕ × State → Bool × State
  unfolding fill add_to_list
  save_to r sock recv cur len (none, s) = (false, s)
  save_to r sock recv cur len (some p, s) =
      (true, add_to_list r sock p len (fill r recv cur len p s))

  unfoldable pub save_frame : FrameRestruct → ℕ → List ℕ → ℕ → ℕ → State → Bool × State
  unfolding get_buffer save_to
  save_frame r sock recv cur len s = save_to r sock recv cur len (get_buffer r s)

-- How a round of the loop of `RestructFrame` ends: it breaks, or goes on at an index, with a count.
pub data Round {ℓ} (S : Type ℓ) : Type ℓ where
  stop : FrameRestruct → Round S
  again : ℕ → ℕ → S → Round S

module _ (proc : DataProc) where
  open proc use {State}

  -- The end of a round, at a head whose frame is there to its last byte.
  unfoldable pub at_frame : FrameRestruct → ℕ → List ℕ → ℕ → ℕ → ℕ → State → Round State
  at_frame r sock recv cur len count s =
      if check_sum r recv cur len
      then (let (saved, s') = save_frame proc r sock recv cur len s in
          again (cur + len) (if saved then count + 1 else count) s')
      else again (cur + 1) count s

  -- A round from the head at `cur` on.
  unfoldable pub at_head : FrameRestruct → ℕ → List ℕ → ℕ → ℕ → ℕ → State → Round State
  unfolding at_frame
  at_head r sock recv recv_len cur count s =
      let len = get_frame_len r recv cur in
      if ltb (r.exit_len + recv_len) (cur + frame_len_min)
      then stop (copy_rest_to_exit_buff r recv recv_len cur)
      else if exceeds len cur (r.exit_len + recv_len)
      then stop (copy_rest_to_exit_buff r recv recv_len cur)
      else elim len [ none ↦ again (cur + 1) count s | some n ↦ at_frame r sock recv cur n count s ]

  unfoldable pub round : FrameRestruct → ℕ → List ℕ → ℕ → ℕ → ℕ → State → Round State
  unfolding at_head
  round r sock recv recv_len cur count s =
      if ltb (r.exit_len + recv_len) cur
      then stop (record r { exit_len = 0 })
      else elim (get_head_index r recv recv_len cur) [
        | none ↦ stop (record r { exit_len = 0 })
        | some i ↦ at_head r sock recv recv_len i count s
      ]

  -- The `while(true)` of `RestructFrame`; `none` means that the fuel ran out.
  unfoldable pub restruct_loop :
      FrameRestruct → ℕ → List ℕ → ℕ → ℕ → ℕ → ℕ → State → Option (ℕ × FrameRestruct × State)
  restruct_loop r sock recv recv_len zero cur count s = none
  restruct_loop r sock recv recv_len (suc fuel) cur count s =
      elim (round r sock recv recv_len cur count s) [
        | stop r' ↦ some (count, r', s)
        | again cur' count' s' ↦ restruct_loop r sock recv recv_len fuel cur' count' s'
      ]

  unfoldable pub restruct_frame :
      FrameRestruct → ℕ → List ℕ → ℕ → State → Option (ℕ × FrameRestruct × State)
  restruct_frame r sock recv recv_len s =
      restruct_loop (record r { task_list = [] }) sock recv recv_len (r.exit_len + recv_len + 1) 0 0
        s
