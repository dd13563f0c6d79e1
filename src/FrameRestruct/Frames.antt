-- ===== src/FrameRestruct/Frames.antt =====
-- What the decoder of whole streams finds, in any bytes and in those that a sender of frames
-- wrote.
use cmdtran.Common.{
  All, ℕ, zero, suc, ◌-◌, ◌≤◌, List, [], ◌∷◌, ◌≢◌, some, ◌++◌, ◌≡◌, refl, ap, ◌∙◌, arith, length,
  take, length-append, take-append_ge, drop-append_ge, get_or-append_lt, append_assoc, append-nil,
  length-take, get_or-take, map, ne→==,
}
use cmdtran.FrameRestruct.Refine.{restruct_frame-decode}
use cmdtran.FrameRestruct.{restruct_frame, FrameRestruct, frame_head}
use cmdtran.FrameRestruct.Interface.{DataProc}
use cmdtran.FrameRestruct.Decode.{
  Verdict, noise, partial, frame, classify, classify-frame, classify-noise, decode, decode-cons,
  decode-frame, skip_of, IsFrame, decode-nil,
}
use cmdtran.FrameRestruct.Deliver.{IsValid, contents, deliver}
use cmdtran.FrameRestruct.Chunks.{concat, receive, receive-decode}

take-IsFrame : (s : List ℕ) (n : ℕ) → classify s ≡ frame n → IsFrame (take n s)
take-IsFrame s n e =
    let (len, low, high, fits, head, last) = classify-frame s n e in
    let size : length (take n s) ≡ n = omega (arith, length-take n s) in
    record {
      head = get_or-take n s 0 0 (omega arith) ∙ head;
      len = omega (arith, get_or-take n s 1 0 (omega arith), get_or-take n s 2 0 (omega arith));
      shortest = omega arith;
      longest = omega arith;
      last = rw size (get_or-take n s (n - 1) 0 (omega arith) ∙ last);
    }

decode-All-cons :
    (x : ℕ) (s : List ℕ) (v : Verdict)
    → classify (x ∷ s) ≡ v
    → All IsFrame (decode (skip_of v) s).0
    → All IsFrame (decode 0 (x ∷ s)).0
decode-All-cons x s noise e h = rw (decode-cons x s noise e) h
decode-All-cons x s partial e h = rw (decode-cons x s partial e) tt
decode-All-cons x s (frame n) e h = rw (decode-cons x s (frame n) e) (take-IsFrame (x ∷ s) n e, h)

-- Whatever bytes arrive, each frame that is found in them is one by the format.
pub decode-All-IsFrame : (k : ℕ) (s : List ℕ) → All IsFrame (decode k s).0
unfolding decode
decode-All-IsFrame zero [] = tt
decode-All-IsFrame (suc k) [] = tt
decode-All-IsFrame (suc k) (x ∷ s) = decode-All-IsFrame k s
decode-All-IsFrame zero (x ∷ s) =
    decode-All-cons x s (classify (x ∷ s)) refl (decode-All-IsFrame (skip_of (classify (x ∷ s))) s)

-- A frame at the front of a stream is seen, whatever follows.
classify-IsFrame : (f t : List ℕ) → IsFrame f → classify (f ++ t) ≡ frame (length f)
unfolding classify
classify-IsFrame f t v = ground (
  arith,
  length-append f t,
  get_or-append_lt f t 0 0,
  get_or-append_lt f t 1 0,
  get_or-append_lt f t 2 0,
  get_or-append_lt f t (length f - 1) 0,
)

decode-IsFrame :
    (f t : List ℕ) → IsFrame f → decode 0 (f ++ t) ≡ (f ∷ (decode 0 t).0, (decode 0 t).1)
decode-IsFrame f t v =
    decode-frame (f ++ t) (length f) (classify-IsFrame f t v)
    ∙ rw (
      take-append_ge (length f) 0 f t (omega arith),
      append-nil,
      drop-append_ge (length f) 0 f t (omega arith),
    )

-- Bytes between frames: none of them is a head byte.
abbrev pub IsGap : List ℕ → Type 0
IsGap = All (λ (x : ℕ). x ≢ frame_head)

decode-IsGap : (g t : List ℕ) → IsGap g → decode 0 (g ++ t) ≡ decode 0 t
decode-IsGap [] t h = refl
decode-IsGap (x ∷ g) t h =
    decode-cons x (g ++ t) noise (classify-noise (x ∷ (g ++ t)) (ne→== x frame_head h.0))
    ∙ decode-IsGap g t h.1

-- A frame behind a gap, as a sender writes them.
pub record Sent : Type 0 where
  pub gap : List ℕ
  pub frame : List ℕ

abbrev pub IsSent : Sent → Type 0
IsSent m = IsGap m.gap × IsFrame m.frame

abbrev pub wire : List Sent → List ℕ
wire [] = []
wire (m ∷ ms) = m.gap ++ (m.frame ++ wire ms)

-- All frames that were sent are found, in order, and what follows is read as if it stood alone.
pub decode-wire :
    (ms : List Sent) (t : List ℕ)
    → All IsSent ms
    → decode 0 (wire ms ++ t) ≡ (map (λ m. m.frame) ms ++ (decode 0 t).0, (decode 0 t).1)
decode-wire [] t h = refl
decode-wire (m ∷ ms) t h = rw (
  append_assoc m.gap (m.frame ++ wire ms) t,
  append_assoc m.frame (wire ms) t,
  decode-IsGap m.gap (m.frame ++ (wire ms ++ t)) h.0.0,
  decode-IsFrame m.frame (wire ms ++ t) h.0.1,
  decode-wire ms t h.1,
)

-- A sender's frames arrive, in any pieces: from a valid state that keeps nothing, when the chunks
-- joined are well-formed frames with bytes between them that are no heads, the calls for the
-- chunks return, hand over exactly the frames that were sent in their order, and leave a valid
-- state that keeps nothing.
pub receive-wire :
    (proc : DataProc) (sock : ℕ) (r : FrameRestruct) (ms : List Sent) (chunks : List (List ℕ))
    (count : ℕ) (s : proc.State)
    → IsValid r
    → r.exit_len ≡ 0
    → All IsSent ms
    → concat chunks ≡ wire ms
    → let (total, s') = deliver proc r.recv_data_proc sock (map (λ m. m.frame) ms) count s in
      (r' : FrameRestruct) × (receive proc sock r chunks count s ≡ some (total, r', s'))
      × IsValid r'
      × (r'.exit_len ≡ 0)
receive-wire proc sock r ms chunks count s v empty sent e =
    let (r', e', v', c', p') = receive-decode proc sock chunks r count s v in
    let d : decode 0 (contents r ++ concat chunks) ≡ (map (λ m. m.frame) ms, []) =
      rw (empty, e, ← append-nil (wire ms), decode-wire ms [] sent, decode-nil, append-nil) in
    let kept : contents r' ≡ [] = c' ∙ ap (λ (out : List (List ℕ) × List ℕ). out.1) d in
    (
      r',
      rw d at e',
      v',
      omega (arith, ap length kept, length-take r'.exit_len r'.exit_buffer, v'.size, v'.short),
    )

-- In a valid state, and with no more bytes than the receive buffer has, whatever the bytes are, a
-- call of `RestructFrame` returns and does just what handing over some list of well-formed frames
-- does.
pub restruct_frame-IsFrame :
    (proc : DataProc) (sock : ℕ) (r : FrameRestruct) (recv : List ℕ) (recv_len : ℕ) (s : proc.State)
    → IsValid r
    → recv_len ≤ length recv
    → (frames : List (List ℕ)) × (r' : FrameRestruct) × (let (count, s') =
          deliver proc r.recv_data_proc sock frames 0 s in
        restruct_frame proc r sock recv recv_len s ≡ some (count, r', s'))
      × All IsFrame frames
restruct_frame-IsFrame proc sock r recv recv_len s v given =
    let (r', e, v', c, p) = restruct_frame-decode proc sock r recv recv_len s v given in
    (
      (decode 0 (contents r ++ take recv_len recv)).0,
      r',
      e,
      decode-All-IsFrame 0 (contents r ++ take recv_len recv),
    )
