-- ===== src/FrameRestruct/Deliver.antt =====
-- What a client may see of `CFrameRestruct` between two calls, and what it does with the frames.
use cmdtran.Common.{
  ℕ, ◌+◌, ◌<◌, ◌≡◌, Bool, true, false, Option, none, some, List, [], ◌∷◌, length, take,
  if◌then◌else◌,
}
use cmdtran.FrameRestruct.{FrameRestruct, exit_buffer_len, frame_len_max}
use cmdtran.FrameRestruct.Interface.{DataProc}
use cmdtran.FrameRestruct.Decode.{decode}

-- The bytes kept for the next call.
abbrev pub contents : FrameRestruct → List ℕ
contents r = take r.exit_len r.exit_buffer

-- The exit buffer has its size and keeps fewer bytes than the longest frame, in which no frame is
-- whole and nothing may be dropped.
pub record IsValid (r : FrameRestruct) : Type 0 where
  pub size : length r.exit_buffer ≡ exit_buffer_len
  pub short : r.exit_len < frame_len_max
  pub waiting : decode 0 (contents r) ≡ ([], contents r)

module _ (proc : DataProc) (sock : ℕ) where
  open proc use {State, get_buff, write, add_frame_proc_task}

  -- A frame is copied to the block that was got for it and becomes a task; with no block it is lost.
  unfoldable pub place : List ℕ → Option ℕ × State → Bool × State
  place f (none, s) = (false, s)
  place f (some p, s) = (true, add_frame_proc_task sock p (length f) (write p 0 f s))

module _ (proc : DataProc) (attached : Bool) (sock : ℕ) where
  open proc use {State, get_buff}

  unfoldable pub hand_over : List ℕ → State → Bool × State
  unfolding place
  hand_over f s = if attached then place proc sock f (get_buff s) else (false, s)

  -- Frames in their order, with the number of those that were saved.
  unfoldable pub deliver : List (List ℕ) → ℕ → State → ℕ × State
  deliver [] count s = (count, s)
  deliver (f ∷ fs) count s =
      let (saved, s') = hand_over f s in deliver fs (if saved then count + 1 else count) s'
