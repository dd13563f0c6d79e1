-- ===== src/FrameRestruct/Refine.antt =====
-- The loop of `RestructFrame` against the frame format.
use cmdtran.Common.{
  ℕ, zero, suc, ◌+◌, ◌-◌, ◌≤◌, ◌<◌, Bool, List, [], Option, none, some, ◌++◌, ◌≡◌, refl, sym, ◌∙◌,
  arith, length, take, drop, ge→ltb, length-replicate,
}
use cmdtran.FrameRestruct.{
  FrameRestruct, init, exit_buffer_len, frame_len_max, get_head_index, Round, stop, again, round,
  restruct_loop, restruct_frame, at_head,
}
use cmdtran.FrameRestruct.Interface.{DataProc}
use cmdtran.FrameRestruct.Deliver.{IsValid, contents, deliver}
use cmdtran.FrameRestruct.Decode.{decode, decode_rest}
use cmdtran.FrameRestruct.Bytes.{stream, HeadFrom, get_head_index_lem}
use cmdtran.FrameRestruct.Rounds.{Explains, at_head_lem}

module _ (proc : DataProc) (sock : ℕ) (r : FrameRestruct) (recv : List ℕ) (recv_len : ℕ)
    (kept : r.exit_len ≤ length r.exit_buffer) (given : recv_len ≤ length recv)
    (room : frame_len_max ≤ length r.exit_buffer) where
  abbrev bytes : List ℕ
  bytes = stream r recv recv_len

  Explains-from :
      (cur i count : ℕ) (s : proc.State) (o : Round proc.State)
      → cur ≤ i
      → decode 0 (drop cur bytes) ≡ decode 0 (drop i bytes)
      → Explains r recv recv_len kept given i proc sock count s o
      → Explains r recv recv_len kept given cur proc sock count s o
  Explains-from cur i count s (stop r') h e x = rw e x
  Explains-from cur i count s (again cur' count' s') h e x = (omega arith, x.1, rw e x.2, rw e x.3)

  -- The head search, and the round from the head on.
  after_head :
      (cur count : ℕ) (s : proc.State) (o : Option ℕ)
      → HeadFrom r recv recv_len kept given cur o
      → Explains r recv recv_len kept given cur proc sock count s (elim o [
        | none ↦ stop (record r { exit_len = 0 })
        | some i ↦ at_head proc r sock recv recv_len i count s
      ])
  after_head cur count s none h = (rw h, rw h, refl, omega arith, refl)
  after_head cur count s (some i) h =
      Explains-from cur i count s (at_head proc r sock recv recv_len i count s) h.0 h.3
        (at_head_lem r recv recv_len kept given i proc sock count s room h.1 h.2)

  round_lem :
      (cur count : ℕ) (s : proc.State)
      → cur ≤ r.exit_len + recv_len
      → Explains r recv recv_len kept given cur proc sock count s
          (round proc r sock recv recv_len cur count s)
  unfolding round
  round_lem cur count s h = rw (ge→ltb (r.exit_len + recv_len) cur h) (
      after_head cur count s (get_head_index r recv recv_len cur)
        (get_head_index_lem r recv recv_len kept given cur h))

  -- The loop's result: the frames from `cur` on are delivered, and the rest is kept.
  abbrev Ends : ℕ → ℕ → proc.State → Option (ℕ × FrameRestruct × proc.State) → Type 0
  Ends cur count s result =
      (r' : FrameRestruct) × (let out =
          deliver proc r.recv_data_proc sock (decode 0 (drop cur bytes)).0 count s in
        result ≡ some (out.0, r', out.1))
      × ((decode 0 (drop cur bytes)).1 ≡ contents r')
      × (length r'.exit_buffer ≡ length r.exit_buffer)
      × (r'.exit_len < frame_len_max)
      × (r'.recv_data_proc ≡ r.recv_data_proc)

  after_round :
      (fuel cur count : ℕ) (s : proc.State) (o : Round proc.State)
      → Explains r recv recv_len kept given cur proc sock count s o
      → ((cur' count' : ℕ) (s' : proc.State)
          → cur < cur'
          → cur' ≤ r.exit_len + recv_len
          → Ends cur' count' s' (restruct_loop proc r sock recv recv_len fuel cur' count' s'))
      → Ends cur count s (elim o [
        | stop r' ↦ some (count, r', s)
        | again cur' count' s' ↦ restruct_loop proc r sock recv recv_len fuel cur' count' s'
      ])
  unfolding deliver
  after_round fuel cur count s (stop r') x next = (r', rw x.0, x.1, x.2, x.3, x.4)
  after_round fuel cur count s (again cur' count' s') x next =
      let (r', e, c, l, k, p) = next cur' count' s' x.0 x.1 in (r', rw x.3 e, x.2 ∙ c, l, k, p)

  loop_lem :
      (fuel cur count : ℕ) (s : proc.State)
      → cur ≤ r.exit_len + recv_len
      → r.exit_len + recv_len - cur < fuel
      → Ends cur count s (restruct_loop proc r sock recv recv_len fuel cur count s)
  unfolding restruct_loop
  loop_lem zero cur count s h f = absurd (omega arith)
  loop_lem (suc fuel) cur count s h f =
      after_round fuel cur count s (round proc r sock recv recv_len cur count s)
        (round_lem cur count s h)
        λ cur' count' s' lt le. loop_lem fuel cur' count' s' le (omega arith)

pub init-IsValid : (attached : Bool) → IsValid (init attached)
unfolding init decode
init-IsValid attached = record {
  size = length-replicate {A = ℕ} exit_buffer_len 0;
  short = omega arith;
  waiting = refl;
}

-- In a valid state, and with no more bytes than the receive buffer has, a call of `RestructFrame`
-- returns; all frames of the stream of kept and new bytes are handed over in order and counted
-- where they were saved, and the state left is valid, keeps exactly the end of the stream that may
-- become a frame, and has the same pointer `pRecvDataProc`.
pub restruct_frame-decode :
    (proc : DataProc) (sock : ℕ) (r : FrameRestruct) (recv : List ℕ) (recv_len : ℕ) (s : proc.State)
    → IsValid r
    → recv_len ≤ length recv
    → let (frames, rest) = decode 0 (contents r ++ take recv_len recv) in
      let (count, s') = deliver proc r.recv_data_proc sock frames 0 s in
      (r' : FrameRestruct) × (restruct_frame proc r sock recv recv_len s ≡ some (count, r', s'))
      × IsValid r'
      × (contents r' ≡ rest)
      × (r'.recv_data_proc ≡ r.recv_data_proc)
unfolding restruct_frame
restruct_frame-decode proc sock r recv recv_len s v given =
    let (r', e, c, l, k, p) =
      loop_lem proc sock (record r { task_list = [] }) recv recv_len
        (omega (arith, v.size, v.short)) given (omega (arith, v.size)) (r.exit_len + recv_len + 1) 0
        0 s (omega arith) (omega arith) in
    (r', e, record { size = l ∙ v.size; short = k; waiting = rw (← c) (decode_rest 0 _) }, sym c, p)
