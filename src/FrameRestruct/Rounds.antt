-- ===== src/FrameRestruct/Rounds.antt =====
-- One round of the loop of `RestructFrame` against the frame format.
use cmdtran.Common.{
  ℕ, ◌+◌, ◌-◌, ◌≤◌, ◌<◌, true, false, inl, inr, List, [], ◌∷◌, Option, none, some, ◌≡◌, refl, ap,
  sym, ◌∙◌, arith, length, get_or, take, drop, ltb, if◌then◌else◌, length-take, drop-drop,
  Bool-cases, Option-cases, ltb→lt, ltb→ge,
}
use cmdtran.FrameRestruct.{
  FrameRestruct, frame_head, frame_len_min, frame_len_max, get_frame_len, check_sum, exceeds,
  copy_rest_to_exit_buff, save_frame, save_to, get_buffer, add_to_list, Round, stop, again,
  at_frame, at_head,
}
use cmdtran.FrameRestruct.Interface.{DataProc}
use cmdtran.FrameRestruct.Deliver.{contents, place, hand_over, deliver}
use cmdtran.FrameRestruct.Decode.{
  noise, partial, frame, classify, decode, decode-noise, decode-partial, decode-frame,
  classify-partial, classify-frame,
}
use cmdtran.FrameRestruct.Bytes.{stream, length-from, len_bytes_lem, check_sum_lem}
use cmdtran.FrameRestruct.Buffer.{fill_lem, Copied, copy_rest_lem}

module _ (r : FrameRestruct) (recv : List ℕ) (recv_len : ℕ)
    (kept : r.exit_len ≤ length r.exit_buffer) (given : recv_len ≤ length recv) (cur : ℕ) where
  abbrev pub total : ℕ
  total = r.exit_len + recv_len

  abbrev pub from : List ℕ
  from = drop cur (stream r recv recv_len)

  abbrev size_lem : length from ≡ total - cur
  size_lem = length-from r recv recv_len kept given cur

  module _ (head : get_or from 0 0 ≡ frame_head) where
    verdict_short : total < cur + frame_len_min → classify from ≡ partial
    unfolding classify
    verdict_short h = ground (arith, size_lem)

    verdict_long :
        cur + frame_len_min ≤ total
        → exceeds (get_frame_len r recv cur) cur total ≡ true
        → classify from ≡ partial
    unfolding classify get_frame_len exceeds
    verdict_long h e = ground (arith, size_lem, len_bytes_lem r recv recv_len kept given cur)

    verdict_bad_len :
        cur + frame_len_min ≤ total → get_frame_len r recv cur ≡ none → classify from ≡ noise
    unfolding classify get_frame_len
    verdict_bad_len h e = ground (arith, size_lem, len_bytes_lem r recv recv_len kept given cur)

    module _ (n : ℕ) where
      verdict_bad_end :
          cur + n ≤ total
          → cur + frame_len_min ≤ total
          → get_frame_len r recv cur ≡ some n
          → check_sum r recv cur n ≡ false
          → classify from ≡ noise
      unfolding classify get_frame_len
      verdict_bad_end h k e c = ground (
        arith,
        size_lem,
        len_bytes_lem r recv recv_len kept given cur,
        check_sum_lem r recv recv_len kept given cur n,
      )

      verdict_frame :
          cur + n ≤ total
          → cur + frame_len_min ≤ total
          → get_frame_len r recv cur ≡ some n
          → check_sum r recv cur n ≡ true
          → classify from ≡ frame n
      unfolding classify get_frame_len
      verdict_frame h k e c = ground (
        arith,
        size_lem,
        len_bytes_lem r recv recv_len kept given cur,
        check_sum_lem r recv recv_len kept given cur n,
      )

  length-take-from : (len : ℕ) → cur + len ≤ total → length (take len from) ≡ len
  length-take-from len h = omega (arith, length-take len from, size_lem)

  -- `SaveFrame` hands over the frame at the front of the stream.
  module _ (proc : DataProc) (sock len : ℕ) (some_byte : 0 < len) (whole : cur + len ≤ total) where
    save_to_lem :
        (got : Option ℕ × proc.State)
        → r.recv_data_proc ≡ true
        → save_to proc r sock recv cur len got ≡ place proc sock (take len from) got
    unfolding save_to place
    save_to_lem (none, s) e = refl
    save_to_lem (some p, s) e = rw (
      add_to_list,
      e,
      fill_lem r recv recv_len cur kept given proc len p s some_byte whole,
      length-take-from len whole,
    )

    save_frame_lem :
        (s : proc.State)
        → save_frame proc r sock recv cur len s
          ≡ hand_over proc r.recv_data_proc sock (take len from) s
    unfolding save_frame hand_over
    save_frame_lem s = elim (Bool-cases r.recv_data_proc) [
      | inl e ↦ simp (e, get_buffer) (save_to_lem (proc.get_buff s) e)
      | inr e ↦ simp (e, get_buffer)
    ]

  -- What a round of the loop may do, seen on the stream.
  abbrev pub Explains : (proc : DataProc) → ℕ → ℕ → proc.State → Round proc.State → Type 0
  Explains proc sock count s (stop r') =
      ((decode 0 from).0 ≡ [])
      × ((decode 0 from).1 ≡ contents r')
      × (length r'.exit_buffer ≡ length r.exit_buffer)
      × (r'.exit_len < frame_len_max)
      × (r'.recv_data_proc ≡ r.recv_data_proc)
  Explains proc sock count s (again cur' count' s') =
      (cur < cur')
      × (cur' ≤ total)
      × ((decode 0 from).1 ≡ (decode 0 (drop cur' (stream r recv recv_len))).1)
      × (deliver proc r.recv_data_proc sock (decode 0 from).0 count s
          ≡ deliver proc r.recv_data_proc sock (decode 0 (drop cur' (stream r recv recv_len))).0
              count' s')

  module _ (proc : DataProc) (sock count : ℕ) (s : proc.State) where
    skip_noise :
        cur < total → classify from ≡ noise → Explains proc sock count s (again (cur + 1) count s)
    skip_noise h e =
        let d : decode 0 from ≡ decode 0 (drop (cur + 1) (stream r recv recv_len)) =
          decode-noise from (omega (arith, size_lem)) e
          ∙ ap (decode 0) (drop-drop cur 1 (cur + 1) (stream r recv recv_len) refl) in
        (omega arith, omega arith, rw d, rw d)

    keep_partial :
        cur < total
        → classify from ≡ partial
        → total - cur ≤ length r.exit_buffer
        → Explains proc sock count s (stop (copy_rest_to_exit_buff r recv recv_len cur))
    keep_partial h e k =
        let c : Copied r recv recv_len cur kept given (copy_rest_to_exit_buff r recv recv_len cur) =
          copy_rest_lem r recv recv_len cur kept given (omega arith) k in
        let d : decode 0 from ≡ ([], from) = decode-partial from (omega (arith, size_lem)) e in
        (
          rw d,
          rw d (sym c.contents),
          c.size,
          omega (arith, c.len, (classify-partial from e).0, size_lem),
          c.proc,
        )

    take_frame :
        (n : ℕ)
        → classify from ≡ frame n
        → let (saved, s') = save_frame proc r sock recv cur n s in
          Explains proc sock count s (again (cur + n) (if saved then count + 1 else count) s')
    unfolding deliver
    take_frame n e =
        let f : (frame_len_min ≤ n) × (n ≤ length from) =
          ((classify-frame from n e).1, (classify-frame from n e).3) in
        let d : decode 0 from ≡ (
          take n from ∷ (decode 0 (drop (cur + n) (stream r recv recv_len))).0,
          (decode 0 (drop (cur + n) (stream r recv recv_len))).1,
        ) =
          rw (← drop-drop cur n (cur + n) (stream r recv recv_len) refl) (decode-frame from n e) in
        (
          omega arith,
          omega (arith, size_lem),
          rw d,
          rw (d, save_frame_lem proc sock n (omega arith) (omega (arith, size_lem)) s),
        )

  module _ (proc : DataProc) (sock count : ℕ) (s : proc.State)
      (room : frame_len_max ≤ length r.exit_buffer) where
    at_frame_lem :
        (n : ℕ)
        → get_or from 0 0 ≡ frame_head
        → cur + n ≤ total
        → cur + frame_len_min ≤ total
        → get_frame_len r recv cur ≡ some n
        → Explains proc sock count s (at_frame proc r sock recv cur n count s)
    unfolding at_frame
    at_frame_lem n head h k e = elim (Bool-cases (check_sum r recv cur n)) [
      | inl good ↦
          rw (good, at_frame) (take_frame proc sock count s n (verdict_frame head n h k e good))
      | inr bad ↦
          rw (bad, at_frame)
            (skip_noise proc sock count s (omega arith) (verdict_bad_end head n h k e bad))
    ]

    keep :
        cur < total
        → classify from ≡ partial
        → Explains proc sock count s (stop (copy_rest_to_exit_buff r recv recv_len cur))
    keep h e =
        keep_partial proc sock count s h e (omega (arith, (classify-partial from e).0, size_lem))

    whole_frame :
        (n : ℕ)
        → exceeds (get_frame_len r recv cur) cur total ≡ false
        → get_frame_len r recv cur ≡ some n
        → cur + n ≤ total
    unfolding exceeds
    whole_frame n x g = ground arith

    -- From a head byte on.
    pub at_head_lem :
        cur < total
        → get_or from 0 0 ≡ frame_head
        → Explains proc sock count s (at_head proc r sock recv recv_len cur count s)
    unfolding at_head
    at_head_lem h head = elim (Bool-cases (ltb total (cur + frame_len_min))) [
      | inl e ↦ rw (e, at_head) (keep h (verdict_short head (ltb→lt total (cur + 5) e)))
      | inr e ↦
          let long : cur + frame_len_min ≤ total = ltb→ge total (cur + 5) e in
          elim (Bool-cases (exceeds (get_frame_len r recv cur) cur total)) [
            | inl x ↦ rw (e, x, at_head) (keep h (verdict_long head long x))
            | inr x ↦ elim (Option-cases (get_frame_len r recv cur)) [
              | inl g ↦
                  rw (e, x, g, at_head)
                    (skip_noise proc sock count s h (verdict_bad_len head long g))
              | inr (n, g) ↦ rw (e, x, g, at_head) (at_frame_lem n head (whole_frame n x g) long g)
            ]
          ]
    ]
