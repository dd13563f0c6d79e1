-- ===== src/FrameRestruct/Bytes.antt =====
-- What the reads of `CFrameRestruct` see: the kept bytes of the exit buffer, then the first
-- `RecvLen` bytes of the receive buffer, as one stream.
use cmdtran.Common.{
  ℕ, zero, suc, ◌+◌, ◌-◌, ◌≤◌, ◌<◌, false, inl, inr, Option, none, some, List, [], ◌++◌, ◌≡◌, refl,
  ap, ◌∙◌, arith, length, get_or, take, drop, ◌==◌, if◌then◌else◌, length-append, get_or-append_lt,
  get_or-append_ge, get_or-take, get_or-drop, length-take, length-drop, drop-drop, drop-all,
  Bool-cases, ==→eq,
}
use cmdtran.FrameRestruct.{
  FrameRestruct, frame_head, frame_end, frame_len_min, head_loop, get_head_index, len_bytes,
  check_sum,
}
use cmdtran.FrameRestruct.Decode.{len_field, decode, decode-noise, classify-noise, decode-nil}

-- The bytes that a call of `RestructFrame` works on.
abbrev pub stream : FrameRestruct → List ℕ → ℕ → List ℕ
stream r recv recv_len = take r.exit_len r.exit_buffer ++ take recv_len recv

module _ (r : FrameRestruct) (recv : List ℕ) (recv_len : ℕ)
    (kept : r.exit_len ≤ length r.exit_buffer) (given : recv_len ≤ length recv) where
  pub length-stream : length (stream r recv recv_len) ≡ r.exit_len + recv_len
  length-stream = omega (
    arith,
    length-append (take r.exit_len r.exit_buffer) (take recv_len recv),
    length-take r.exit_len r.exit_buffer,
    length-take recv_len recv,
  )

  pub stream_exit :
      (i : ℕ) → i < r.exit_len → get_or (stream r recv recv_len) i 0 ≡ get_or r.exit_buffer i 0
  stream_exit i h =
      get_or-append_lt (take r.exit_len r.exit_buffer) (take recv_len recv) i 0
        (omega (arith, length-take r.exit_len r.exit_buffer))
      ∙ get_or-take r.exit_len r.exit_buffer i 0 h

  pub stream_recv :
      (i j : ℕ)
      → i ≡ r.exit_len + j
      → j < recv_len
      → get_or (stream r recv recv_len) i 0 ≡ get_or recv j 0
  stream_recv i j e h =
      get_or-append_ge (take r.exit_len r.exit_buffer) (take recv_len recv) i j 0
        (omega (arith, length-take r.exit_len r.exit_buffer))
      ∙ get_or-take recv_len recv j 0 h

  -- The bytes from an index on.
  abbrev pub from : ℕ → List ℕ
  from cur = drop cur (stream r recv recv_len)

  pub length-from : (cur : ℕ) → length (from cur) ≡ r.exit_len + recv_len - cur
  length-from cur = omega (arith, length-drop cur (stream r recv recv_len), length-stream)

  pub from_exit :
      (cur j : ℕ) → cur + j < r.exit_len → get_or (from cur) j 0 ≡ get_or r.exit_buffer (cur + j) 0
  from_exit cur j h =
      get_or-drop cur (stream r recv recv_len) j (cur + j) 0 refl ∙ stream_exit (cur + j) h

  pub from_recv :
      (cur j i : ℕ)
      → cur + j ≡ r.exit_len + i
      → i < recv_len
      → get_or (from cur) j 0 ≡ get_or recv i 0
  from_recv cur j i e h =
      get_or-drop cur (stream r recv recv_len) j (cur + j) 0 refl ∙ stream_recv (cur + j) i e h

  -- `GetFrameLen` reads the length field of the stream, wherever the two buffers meet.
  pub len_bytes_lem :
      (cur : ℕ)
      → cur + frame_len_min ≤ r.exit_len + recv_len
      → len_bytes r recv cur ≡ len_field (from cur)
  unfolding len_bytes
  len_bytes_lem cur h = ground (
    arith,
    from_exit cur 1,
    from_exit cur 2,
    from_recv cur 2 0,
    from_recv cur 1 (cur + 1 - r.exit_len),
    from_recv cur 2 (cur + 2 - r.exit_len),
  )

  -- `CheckSum` reads the last byte of the frame.
  pub check_sum_lem :
      (cur len : ℕ)
      → 0 < len
      → cur + len ≤ r.exit_len + recv_len
      → check_sum r recv cur len ≡ (get_or (from cur) (len - 1) 0 == frame_end)
  unfolding check_sum
  check_sum_lem cur len p h =
      ground (arith, from_exit cur (len - 1), from_recv cur (len - 1) (cur + len - 1 - r.exit_len))

  -- What `GetHeadIndex` has found, from `i` on.
  abbrev pub HeadFrom : ℕ → Option ℕ → Type 0
  HeadFrom i none = decode 0 (from i) ≡ ([], [])
  HeadFrom i (some j) =
      (i ≤ j)
      × (j < r.exit_len + recv_len)
      × (get_or (from j) 0 0 ≡ frame_head)
      × (decode 0 (from i) ≡ decode 0 (from j))

  head_step :
      (i : ℕ)
      → i < r.exit_len + recv_len
      → (get_or (from i) 0 0 == frame_head) ≡ false
      → decode 0 (from i) ≡ decode 0 (from (i + 1))
  head_step i h e =
      decode-noise (from i) (omega (arith, length-from i)) (classify-noise (from i) e)
      ∙ ap (decode 0) (drop-drop i 1 (i + 1) (stream r recv recv_len) refl)

  head_loop-suc :
      (n i : ℕ)
      → i < r.exit_len + recv_len
      → head_loop r recv (suc n) i
        ≡ (if get_or (from i) 0 0 == frame_head then some i else head_loop r recv n (i + 1))
  unfolding head_loop
  head_loop-suc n i h = ground (arith, from_exit i 0, from_recv i 0 (i - r.exit_len))

  HeadFrom-cons :
      (i : ℕ) (o : Option ℕ)
      → decode 0 (from i) ≡ decode 0 (from (i + 1))
      → HeadFrom (i + 1) o
      → HeadFrom i o
  HeadFrom-cons i none e h = e ∙ h
  HeadFrom-cons i (some j) e h = (omega arith, h.1, h.2, e ∙ h.3)

  head_loop_lem : (n i : ℕ) → i + n ≡ r.exit_len + recv_len → HeadFrom i (head_loop r recv n i)
  unfolding head_loop
  head_loop_lem zero i e =
      ap (decode 0) (drop-all i (stream r recv recv_len) (omega (arith, length-stream)))
      ∙ decode-nil
  head_loop_lem (suc n) i e = elim (Bool-cases (get_or (from i) 0 0 == frame_head)) [
    | inl head ↦
        rw (head_loop-suc n i (omega arith), head) (omega arith, omega arith, ==→eq _ _ head, refl)
    | inr other ↦
        rw (head_loop-suc n i (omega arith), other)
          (HeadFrom-cons i (head_loop r recv n (i + 1)) (head_step i (omega arith) other)
            (head_loop_lem n (i + 1) (omega arith)))
  ]

  -- `GetHeadIndex` finds the first head byte at or behind `i`; the bytes before it begin no frame.
  pub get_head_index_lem :
      (i : ℕ) → i ≤ r.exit_len + recv_len → HeadFrom i (get_head_index r recv recv_len i)
  unfolding get_head_index
  get_head_index_lem i h = head_loop_lem (r.exit_len + recv_len - i) i (omega arith)
