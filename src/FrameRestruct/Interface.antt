-- ===== src/FrameRestruct/Interface.antt =====
-- What `CFrameRestruct` asks of the `CRecvDataProc` behind its pointer `pRecvDataProc`: a block of
-- memory, the memory of that block, and a task for a frame that has been copied there.
use cmdtran.Common.{ℕ, Option, List, ◌++◌, ◌≡◌, length}

pub record DataProc : Type 1 where
  pub State : Type 0
  -- `GetBuff`; `none` is a null pointer.
  pub get_buff : State → Option ℕ × State
  -- `FreeBuff`.
  pub free_buff : ℕ → State → State
  -- `memcpy` of the bytes to a block, at an offset.
  pub write : ℕ → ℕ → List ℕ → State → State
  -- `AddFrameProcTask` of a socket, a block and a length.
  pub add_frame_proc_task : ℕ → ℕ → ℕ → State → State
  -- Two copies side by side are one.
  pub write-write :
      (p : ℕ) (xs ys : List ℕ) (s : State)
      → write p (length xs) ys (write p 0 xs s) ≡ write p 0 (xs ++ ys) s
