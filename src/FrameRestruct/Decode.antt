-- ===== src/FrameRestruct/Decode.antt =====
-- The frame format of the file ComandTran/FrameStruct, read off a whole stream of bytes, without
-- the buffers of `CFrameRestruct`.
use cmdtran.Common.{
  false, ℕ, zero, suc, ◌+◌, ◌-◌, ◌*◌, ◌≤◌, ◌<◌, ◌||◌, ◌≢◌, List, [], ◌∷◌, ◌++◌, ◌≡◌, refl, arith,
  length, get_or, take, drop, ltb, ◌==◌, if◌then◌else◌, length-append, get_or-append_lt,
}
use cmdtran.FrameRestruct.{frame_head, frame_end, frame_len_min, frame_len_max}

-- What stands at the front of a stream.
pub data Verdict : Type 0 where
  -- no frame begins here
  noise : Verdict
  -- a frame may begin here, and is not there to its end
  partial : Verdict
  -- a frame of that length
  frame : ℕ → Verdict

-- The big-endian length behind the head byte.
abbrev pub len_field : List ℕ → ℕ
len_field s = get_or s 1 0 * 256 + get_or s 2 0

unfoldable pub classify_body : List ℕ → ℕ → Verdict
classify_body s n =
    if ltb n frame_len_min || ltb frame_len_max n
    then noise
    else if ltb (length s) n
    then partial
    else if get_or s (n - 1) 0 == frame_end
    then frame n
    else noise

unfoldable pub classify : List ℕ → Verdict
unfolding classify_body
classify s =
    if get_or s 0 0 == frame_head
    then (if ltb (length s) frame_len_min then partial else classify_body s (len_field s))
    else noise

abbrev pub skip_of : Verdict → ℕ
skip_of (frame n) = n - 1
skip_of _ = 0

-- The frames of a stream behind `skip` bytes, and the bytes at its end that wait for more.
unfoldable pub decode : ℕ → List ℕ → List (List ℕ) × List ℕ
decode skip [] = ([], [])
decode (suc skip) (x ∷ s) = decode skip s
decode zero (x ∷ s) =
    let rest = decode (skip_of (classify (x ∷ s))) s in
    elim (classify (x ∷ s)) [
      | noise ↦ rest
      | partial ↦ ([], x ∷ s)
      | frame n ↦ (take n (x ∷ s) ∷ rest.0, rest.1)
    ]

-- A frame by the file FrameStruct: head, length, code, payload, end.
pub record IsFrame (f : List ℕ) : Type 0 where
  pub head : get_or f 0 0 ≡ frame_head
  pub len : len_field f ≡ length f
  pub shortest : frame_len_min ≤ length f
  pub longest : length f ≤ frame_len_max
  pub last : get_or f (length f - 1) 0 ≡ frame_end

pub classify-frame :
    (s : List ℕ) (n : ℕ)
    → classify s ≡ frame n
    → (n ≡ len_field s)
      × (frame_len_min ≤ n)
      × (n ≤ frame_len_max)
      × (n ≤ length s)
      × (get_or s 0 0 ≡ frame_head)
      × (get_or s (n - 1) 0 ≡ frame_end)
unfolding classify
classify-frame s n h = ground arith

pub classify-partial :
    (s : List ℕ) → classify s ≡ partial → (length s < frame_len_max) × (get_or s 0 0 ≡ frame_head)
unfolding classify
classify-partial s h = ground arith

pub decode-drop : (k : ℕ) (s : List ℕ) → decode k s ≡ decode 0 (drop k s)
unfolding decode
decode-drop zero s = refl
decode-drop (suc k) [] = refl
decode-drop (suc k) (x ∷ s) = decode-drop k s

pub decode-nil : decode 0 [] ≡ ([], [])
unfolding decode
decode-nil = refl

pub decode-noise :
    (s : List ℕ) → 0 < length s → classify s ≡ noise → decode 0 s ≡ decode 0 (drop 1 s)
unfolding decode
decode-noise [] h e = absurd (omega arith)
decode-noise (x ∷ s) h e = ground arith

pub decode-partial : (s : List ℕ) → 0 < length s → classify s ≡ partial → decode 0 s ≡ ([], s)
unfolding decode
decode-partial [] h e = absurd (omega arith)
decode-partial (x ∷ s) h e = ground arith

pub decode-frame :
    (s : List ℕ) (n : ℕ)
    → classify s ≡ frame n
    → decode 0 s ≡ (take n s ∷ (decode 0 (drop n s)).0, (decode 0 (drop n s)).1)
unfolding decode
decode-frame [] n e = absurd (omega (arith, classify-frame [] n e))
decode-frame (x ∷ s) zero e = absurd (omega (arith, classify-frame (x ∷ s) zero e))
decode-frame (x ∷ s) (suc n) e = ground (arith, decode-drop n s)

-- More bytes change nothing at the front of a stream, unless a frame was waiting for them.
pub classify-append :
    (s t : List ℕ) → 0 < length s → classify s ≢ partial → classify (s ++ t) ≡ classify s
unfolding classify
classify-append s t h p = ground (
  arith,
  length-append s t,
  get_or-append_lt s t 0 0,
  get_or-append_lt s t 1 0,
  get_or-append_lt s t 2 0,
  get_or-append_lt s t (len_field s - 1) 0,
)

-- Not a head byte, so no frame begins here.
pub classify-noise : (s : List ℕ) → (get_or s 0 0 == frame_head) ≡ false → classify s ≡ noise
unfolding classify
classify-noise s h = ground arith

-- A step of `decode`, once the verdict is known.
abbrev pub after : ℕ → List ℕ → Verdict → List (List ℕ) × List ℕ → List (List ℕ) × List ℕ
after x s noise rest = rest
after x s partial rest = ([], x ∷ s)
after x s (frame n) rest = (take n (x ∷ s) ∷ rest.0, rest.1)

pub decode-cons :
    (x : ℕ) (s : List ℕ) (v : Verdict)
    → classify (x ∷ s) ≡ v
    → decode 0 (x ∷ s) ≡ after x s v (decode (skip_of v) s)
unfolding decode
decode-cons x s noise e = rw (e, decode, e)
decode-cons x s partial e = rw (e, decode)
decode-cons x s (frame n) e = rw (e, decode, e)

decode_rest-cons :
    (x : ℕ) (s : List ℕ) (v : Verdict)
    → classify (x ∷ s) ≡ v
    → (let rest = (decode (skip_of v) s).1 in decode 0 rest ≡ ([], rest))
    → (let rest = (decode 0 (x ∷ s)).1 in decode 0 rest ≡ ([], rest))
decode_rest-cons x s noise e h = rw (decode-cons x s noise e) h
decode_rest-cons x s partial e h =
    rw (decode-cons x s partial e) (decode-partial (x ∷ s) (omega arith) e)
decode_rest-cons x s (frame n) e h = rw (decode-cons x s (frame n) e) h

-- What waits at the end of a stream holds no frame, and is kept as it is.
pub decode_rest : (k : ℕ) (s : List ℕ) → let rest = (decode k s).1 in decode 0 rest ≡ ([], rest)
unfolding decode
decode_rest zero [] = refl
decode_rest (suc k) [] = refl
decode_rest (suc k) (x ∷ s) = decode_rest k s
decode_rest zero (x ∷ s) =
    decode_rest-cons x s (classify (x ∷ s)) refl (decode_rest (skip_of (classify (x ∷ s))) s)
