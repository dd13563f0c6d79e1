-- ===== src/FrameRestruct/Buffer.antt =====
-- The copies of `CFrameRestruct` in ComandTran/src/FrameRestruct.cpp: `CopyRestToExitBuff`, which
-- also moves bytes within the exit buffer, and those of `SaveFrame`.
use cmdtran.Common.{
  ℕ, zero, suc, ◌+◌, ◌-◌, ◌≤◌, ◌<◌, List, [], ◌∷◌, ◌++◌, ◌≡◌, refl, ap, sym, ◌∙◌, arith, length,
  get_or, set, take, drop, copy_at, length-take, length-set, take-set, drop-set, drop-cons,
  length-copy_at, take-copy_at, take-append_le, take-append_ge, drop-append_le, drop-append_ge,
  append_assoc, append-nil, length-drop, take-drop_comm, take-take,
}
use cmdtran.FrameRestruct.{FrameRestruct, move_loop, copy_rest_to_exit_buff, fill}
use cmdtran.FrameRestruct.Interface.{DataProc}
use cmdtran.FrameRestruct.Bytes.{stream}

length-move_loop :
    (buffer : List ℕ) (n index i : ℕ) → length (move_loop buffer n index i) ≡ length buffer
unfolding move_loop
length-move_loop buffer zero index i = refl
length-move_loop buffer (suc n) index i =
    length-move_loop (set buffer index (get_or buffer i 0)) n (index + 1) (i + 1)
    ∙ length-set buffer index (get_or buffer i 0)

-- A move towards the front reads each byte before it is overwritten.
take-move_loop :
    (buffer : List ℕ) (n index i : ℕ)
    → index ≤ i
    → i + n ≤ length buffer
    → take (index + n) (move_loop buffer n index i) ≡ take index buffer ++ take n (drop i buffer)
unfolding move_loop
take-move_loop buffer zero index i h k = rw append-nil (ap (λ (m : ℕ). take m buffer) (omega arith))
take-move_loop buffer (suc n) index i h k =
    let v : ℕ = get_or buffer i 0 in
    let e : index + suc n ≡ index + 1 + n = omega arith in
    let e' : index + 1 ≡ suc index = omega arith in
    let e'' : i + 1 ≡ suc i = omega arith in
    rw (
      e,
      take-move_loop (set buffer index v) n (index + 1) (i + 1) (omega arith)
          (omega (arith, length-set buffer index v)),
      e',
      e'',
      take-set index v buffer (omega arith),
      drop-set (suc i) index v buffer (omega arith),
      append_assoc (take index buffer) (v ∷ []) (take n (drop (suc i) buffer)),
      drop-cons i buffer 0 (omega arith),
    )

module _ (r : FrameRestruct) (recv : List ℕ) (recv_len cur : ℕ)
    (kept : r.exit_len ≤ length r.exit_buffer) (given : recv_len ≤ length recv) where
  -- The stream from a point within the kept bytes on.
  pub drop-stream_kept :
      cur ≤ r.exit_len
      → drop cur (stream r recv recv_len)
        ≡ take (r.exit_len - cur) (drop cur r.exit_buffer) ++ take recv_len recv
  drop-stream_kept h =
      drop-append_le cur (take r.exit_len r.exit_buffer) (take recv_len recv)
        (omega (arith, length-take r.exit_len r.exit_buffer))
      ∙ ap (λ (xs : List ℕ). xs ++ take recv_len recv)
          (take-drop_comm cur (r.exit_len - cur) r.exit_len r.exit_buffer (omega arith))

  -- The stream from a point behind them on.
  pub drop-stream_new :
      r.exit_len ≤ cur
      → cur ≤ r.exit_len + recv_len
      → drop cur (stream r recv recv_len)
        ≡ take (r.exit_len + recv_len - cur) (drop (cur - r.exit_len) recv)
  drop-stream_new h k =
      drop-append_ge cur (cur - r.exit_len) (take r.exit_len r.exit_buffer) (take recv_len recv)
        (omega (arith, length-take r.exit_len r.exit_buffer))
      ∙ take-drop_comm (cur - r.exit_len) (r.exit_len + recv_len - cur) recv_len recv (omega arith)

  -- What `CopyRestToExitBuff` leaves: the stream from `cur` on, in a buffer of the same size.
  pub record Copied (r' : FrameRestruct) : Type 0 where
    pub contents : take r'.exit_len r'.exit_buffer ≡ drop cur (stream r recv recv_len)
    pub len : r'.exit_len ≡ r.exit_len + recv_len - cur
    pub size : length r'.exit_buffer ≡ length r.exit_buffer
    pub proc : r'.recv_data_proc ≡ r.recv_data_proc

  copy_kept :
      cur < r.exit_len
      → r.exit_len + recv_len - cur ≤ length r.exit_buffer
      → take (r.exit_len - cur + recv_len) (
          copy_at
            (move_loop r.exit_buffer (r.exit_len - cur) 0 cur)
            (r.exit_len - cur)
            (take recv_len recv))
        ≡ drop cur (stream r recv recv_len)
  copy_kept h k =
      let n : ℕ = r.exit_len - cur in
      let moved : List ℕ = move_loop r.exit_buffer n 0 cur in
      take-copy_at moved n (take recv_len recv) (n + recv_len)
        (omega (arith, length-take recv_len recv))
        (omega (arith, length-move_loop r.exit_buffer n 0 cur))
      ∙ ap (λ (xs : List ℕ). xs ++ take recv_len recv)
          (ap (λ (m : ℕ). take m moved) (omega arith)
            ∙ take-move_loop r.exit_buffer n 0 cur (omega arith) (omega arith))
      ∙ sym (drop-stream_kept (omega arith))

  copy_new :
      r.exit_len ≤ cur
      → cur ≤ r.exit_len + recv_len
      → r.exit_len + recv_len - cur ≤ length r.exit_buffer
      → take (r.exit_len + recv_len - cur) (
          copy_at r.exit_buffer 0
            (take (r.exit_len + recv_len - cur) (drop (cur - r.exit_len) recv)))
        ≡ drop cur (stream r recv recv_len)
  copy_new h l k =
      let n : ℕ = r.exit_len + recv_len - cur in
      let xs : List ℕ = take n (drop (cur - r.exit_len) recv) in
      let e : length xs ≡ n = omega (
        arith,
        length-take n (drop (cur - r.exit_len) recv),
        length-drop (cur - r.exit_len) recv,
      ) in
      take-copy_at r.exit_buffer 0 xs n (omega arith) k ∙ sym (drop-stream_new h l)

  -- With the kept bytes within the exit buffer and no more new bytes than there are,
  -- `CopyRestToExitBuff` at an index within the stream, whose rest fits into the exit buffer,
  -- leaves the stream from that index on as the kept bytes, in a buffer of the same size.
  pub copy_rest_lem :
      cur ≤ r.exit_len + recv_len
      → r.exit_len + recv_len - cur ≤ length r.exit_buffer
      → Copied (copy_rest_to_exit_buff r recv recv_len cur)
  unfolding copy_rest_to_exit_buff
  copy_rest_lem h k = ground (
    arith,
    copy_kept,
    copy_new,
    length-copy_at (move_loop r.exit_buffer (r.exit_len - cur) 0 cur) (r.exit_len - cur)
        (take recv_len recv),
    length-move_loop r.exit_buffer (r.exit_len - cur) 0 cur,
    length-copy_at r.exit_buffer 0
        (take (r.exit_len + recv_len - cur) (drop (cur - r.exit_len) recv)),
  )

  abbrev kept_part : List ℕ
  kept_part = take (r.exit_len - cur) (drop cur r.exit_buffer)

  length-kept_part : cur ≤ r.exit_len → length kept_part ≡ r.exit_len - cur
  length-kept_part h = omega (
    arith,
    length-take (r.exit_len - cur) (drop cur r.exit_buffer),
    length-drop cur r.exit_buffer,
  )

  frame_kept :
      (len : ℕ)
      → cur + len ≤ r.exit_len
      → take len (drop cur (stream r recv recv_len)) ≡ take len (drop cur r.exit_buffer)
  frame_kept len h =
      ap (take len) (drop-stream_kept (omega arith))
      ∙ take-append_le len kept_part (take recv_len recv)
          (omega (arith, length-kept_part (omega arith)))
      ∙ take-take len (r.exit_len - cur) (drop cur r.exit_buffer) (omega arith)

  frame_split :
      (len : ℕ)
      → cur < r.exit_len
      → r.exit_len < cur + len
      → cur + len ≤ r.exit_len + recv_len
      → take len (drop cur (stream r recv recv_len))
        ≡ kept_part ++ take (len - (r.exit_len - cur)) recv
  frame_split len h k l =
      ap (take len) (drop-stream_kept (omega arith))
      ∙ take-append_ge len (len - (r.exit_len - cur)) kept_part (take recv_len recv)
          (omega (arith, length-kept_part (omega arith)))
      ∙ ap (λ (xs : List ℕ). kept_part ++ xs)
          (take-take (len - (r.exit_len - cur)) recv_len recv (omega arith))

  frame_new :
      (len : ℕ)
      → r.exit_len ≤ cur
      → cur + len ≤ r.exit_len + recv_len
      → take len (drop cur (stream r recv recv_len)) ≡ take len (drop (cur - r.exit_len) recv)
  frame_new len h k =
      ap (take len) (drop-stream_new h (omega arith))
      ∙ take-take len (r.exit_len + recv_len - cur) (drop (cur - r.exit_len) recv) (omega arith)

  write_split :
      (proc : DataProc) (len p : ℕ) (s : proc.State)
      → cur < r.exit_len
      → r.exit_len < cur + len
      → cur + len ≤ r.exit_len + recv_len
      → proc.write p
          (r.exit_len - cur)
          (take (len - (r.exit_len - cur)) recv)
          (proc.write p 0 kept_part s)
        ≡ proc.write p 0 (take len (drop cur (stream r recv recv_len))) s
  write_split proc len p s h k l =
      ap
        (λ (m : ℕ).
          proc.write p m (take (len - (r.exit_len - cur)) recv) (proc.write p 0 kept_part s))
        (sym (length-kept_part (omega arith)))
      ∙ proc.write-write p kept_part (take (len - (r.exit_len - cur)) recv) s
      ∙ ap (λ (xs : List ℕ). proc.write p 0 xs s) (sym (frame_split len h k l))

  -- With the kept bytes within the exit buffer and no more new bytes than there are, the copies of
  -- `SaveFrame` for a frame that is not empty and lies within the stream are one write of the
  -- frame's bytes to the block, wherever the two buffers meet.
  pub fill_lem :
      (proc : DataProc) (len p : ℕ) (s : proc.State)
      → 0 < len
      → cur + len ≤ r.exit_len + recv_len
      → fill proc r recv cur len p s
        ≡ proc.write p 0 (take len (drop cur (stream r recv recv_len))) s
  unfolding fill
  fill_lem proc len p s h k =
      ground (arith, frame_kept len, frame_new len, write_split proc len p s)
