-- ===== src/FrameRestruct/Chunks.antt =====
-- Calls of `RestructFrame` one after the other, as `ProcessRecvData` of
-- ComandTran/src/EpollServer.cpp makes them for the pieces in which a stream arrives.
use cmdtran.Common.{
  ℕ, zero, suc, ◌+◌, ◌≤◌, Bool, true, false, List, [], ◌∷◌, Option, none, some, ◌++◌, ◌≡◌, refl, ap,
  sym, ◌∙◌, arith, length, take, if◌then◌else◌, take-all, append-nil, append_assoc, take-append_le,
}
use cmdtran.FrameRestruct.{FrameRestruct, restruct_frame}
use cmdtran.FrameRestruct.Interface.{DataProc}
use cmdtran.FrameRestruct.Deliver.{hand_over, IsValid, contents, deliver}
use cmdtran.FrameRestruct.Decode.{
  Verdict, noise, partial, frame, classify, classify-append, classify-frame, decode, decode-cons,
  skip_of,
}
use cmdtran.FrameRestruct.Refine.{restruct_frame-decode}

abbrev pub concat : List (List ℕ) → List ℕ
concat [] = []
concat (x ∷ xs) = x ++ concat xs

-- What is decoded of a stream when it is cut behind its first part.
abbrev continued : List (List ℕ) × List ℕ → List ℕ → List (List ℕ) × List ℕ
continued (fs, rest) t = (fs ++ (decode 0 (rest ++ t)).0, (decode 0 (rest ++ t)).1)

continued-cons :
    (x : ℕ) (s t : List ℕ) (v : Verdict)
    → classify (x ∷ s) ≡ v
    → decode (skip_of v) (s ++ t) ≡ continued (decode (skip_of v) s) t
    → decode 0 (x ∷ (s ++ t)) ≡ continued (decode 0 (x ∷ s)) t
continued-cons x s t noise e h =
    let e' : classify (x ∷ (s ++ t)) ≡ noise =
      classify-append (x ∷ s) t (omega arith) (λ p. cc) ∙ e in
    rw (decode-cons x (s ++ t) noise e', decode-cons x s noise e) h
continued-cons x s t partial e h = rw (decode-cons x s partial e)
continued-cons x s t (frame n) e h =
    let e' : classify (x ∷ (s ++ t)) ≡ frame n =
      classify-append (x ∷ s) t (omega arith) (λ p. cc) ∙ e in
    rw (
      decode-cons x (s ++ t) (frame n) e',
      decode-cons x s (frame n) e,
      h,
      take-append_le n (x ∷ s) t (classify-frame (x ∷ s) n e).3,
    )

skip_of-le : (x : ℕ) (s : List ℕ) (v : Verdict) → classify (x ∷ s) ≡ v → skip_of v ≤ length s
skip_of-le x s noise e = omega arith
skip_of-le x s partial e = omega arith
skip_of-le x s (frame n) e =
    omega (arith, (classify-frame (x ∷ s) n e).3, (classify-frame (x ∷ s) n e).1)

-- A stream may be cut anywhere: what waits at the end of the first part is read with the second.
pub decode-append :
    (k : ℕ) (s t : List ℕ) → k ≤ length s → decode k (s ++ t) ≡ continued (decode k s) t
unfolding decode
decode-append zero [] t h = refl
decode-append (suc k) [] t h = absurd (omega arith)
decode-append (suc k) (x ∷ s) t h = decode-append k s t (omega arith)
decode-append zero (x ∷ s) t h =
    continued-cons x s t (classify (x ∷ s)) refl
      (decode-append (skip_of (classify (x ∷ s))) s t (skip_of-le x s (classify (x ∷ s)) refl))

bump-add :
    (saved : Bool) (a b c : ℕ)
    → c ≡ a + b
    → (if saved then c + 1 else c) ≡ a + (if saved then b + 1 else b)
bump-add true a b c e = omega arith
bump-add false a b c e = e

module _ (proc : DataProc) (sock : ℕ) where
  open proc use {State}

  -- One call of `RestructFrame` for each chunk, with the sum of the counts.
  pub receive : FrameRestruct → List (List ℕ) → ℕ → State → Option (ℕ × FrameRestruct × State)
  receive r [] count s = some (count, r, s)
  receive r (chunk ∷ chunks) count s = elim (restruct_frame proc r sock chunk (length chunk) s) [
    | none ↦ none
    | some (n, r', s') ↦ receive r' chunks (count + n) s'
  ]

  deliver-append :
      (attached : Bool) (fs gs : List (List ℕ)) (count : ℕ) (s : State)
      → deliver proc attached sock (fs ++ gs) count s ≡ (
          let (n, s') = deliver proc attached sock fs count s in deliver proc attached sock gs n s')
  unfolding deliver
  deliver-append attached [] gs count s = refl
  deliver-append attached (f ∷ fs) gs count s = deliver-append attached fs gs _ _

  -- A count that is added to.
  deliver-count :
      (attached : Bool) (fs : List (List ℕ)) (a b c : ℕ) (s : State)
      → c ≡ a + b
      → deliver proc attached sock fs c s
        ≡ (let (n, s') = deliver proc attached sock fs b s in (a + n, s'))
  unfolding deliver
  deliver-count attached [] a b c s e = rw e
  deliver-count attached (f ∷ fs) a b c s e =
      deliver-count attached fs a _ _ _ (bump-add (hand_over proc attached sock f s).0 a b c e)

  deliver_step :
      (attached : Bool) (bytes kept more : List ℕ) (count : ℕ) (s : State)
      → kept ≡ (decode 0 bytes).1
      → deliver proc attached sock (decode 0 (bytes ++ more)).0 count s ≡ (
          let (n, s') = deliver proc attached sock (decode 0 bytes).0 0 s in
          deliver proc attached sock (decode 0 (kept ++ more)).0 (count + n) s')
  deliver_step attached bytes kept more count s e = rw (
    e,
    decode-append 0 bytes more (omega arith),
    deliver-append attached (decode 0 bytes).0 (decode 0 ((decode 0 bytes).1 ++ more)).0 count s,
    deliver-count attached (decode 0 bytes).0 count 0 count s (omega arith),
  )

  -- All calls return, and hand on the frames of the chunks joined.
  abbrev pub Received : FrameRestruct → List (List ℕ) → ℕ → State → Type 0
  Received r chunks count s =
      let (frames, rest) = decode 0 (contents r ++ concat chunks) in
      let (total, s') = deliver proc r.recv_data_proc sock frames count s in
      (r' : FrameRestruct) × (receive r chunks count s ≡ some (total, r', s'))
      × IsValid r'
      × (contents r' ≡ rest)
      × (r'.recv_data_proc ≡ r.recv_data_proc)

  Received-cons :
      (r r₁ : FrameRestruct) (chunk : List ℕ) (chunks : List (List ℕ)) (count : ℕ) (s : State)
      → let (n, s₁) = deliver proc r.recv_data_proc sock (decode 0 (contents r ++ chunk)).0 0 s in
        restruct_frame proc r sock chunk (length chunk) s ≡ some (n, r₁, s₁)
        → contents r₁ ≡ (decode 0 (contents r ++ chunk)).1
        → r₁.recv_data_proc ≡ r.recv_data_proc
        → Received r₁ chunks (count + n) s₁
        → Received r (chunk ∷ chunks) count s
  unfolding receive
  Received-cons r r₁ chunk chunks count s e c p (r₂, e₂, v₂, c₂, p₂) = (
    r₂,
    rw (e, receive) (e₂ ∙ ap (λ (out : ℕ × State). some (out.0, r₂, out.1)) same),
    v₂,
    c₂ ∙ rest,
    p₂ ∙ p,
  )
    where
      joined : contents r ++ (chunk ++ concat chunks) ≡ (contents r ++ chunk) ++ concat chunks
      joined = sym (append_assoc (contents r) chunk (concat chunks))

      n : ℕ
      n = (deliver proc r.recv_data_proc sock (decode 0 (contents r ++ chunk)).0 0 s).0

      s₁ : State
      s₁ = (deliver proc r.recv_data_proc sock (decode 0 (contents r ++ chunk)).0 0 s).1

      rest :
          (decode 0 (contents r₁ ++ concat chunks)).1
          ≡ (decode 0 (contents r ++ (chunk ++ concat chunks))).1
      rest = rw (joined, c, decode-append 0 (contents r ++ chunk) (concat chunks) (omega arith))

      same :
          deliver proc r₁.recv_data_proc sock
            (decode 0 (contents r₁ ++ concat chunks)).0
            (count + n)
            s₁
          ≡ deliver proc r.recv_data_proc sock
              (decode 0 (contents r ++ (chunk ++ concat chunks))).0
              count
              s
      same =
          ap
            (λ (attached : Bool).
              deliver proc attached sock (decode 0 (contents r₁ ++ concat chunks)).0 (count + n) s₁)
            p
          ∙ rw joined (
              sym (
                deliver_step r.recv_data_proc (contents r ++ chunk) (contents r₁) (concat chunks)
                  count s c))

  -- From a valid state, the calls of `RestructFrame` for any list of chunks, one after the other,
  -- all return, hand over the frames of the stream of the kept bytes and the joined chunks in
  -- order, add up the number of those that were saved, and leave a valid state that keeps the
  -- undecided end of that stream, with the same pointer `pRecvDataProc`.
  pub receive-decode :
      (chunks : List (List ℕ)) (r : FrameRestruct) (count : ℕ) (s : State)
      → IsValid r
      → Received r chunks count s
  unfolding receive deliver
  receive-decode [] r count s v = rw (append-nil, v.waiting) (r, refl, v, refl, refl)
  receive-decode (chunk ∷ chunks) r count s v =
      let (r₁, e₁, v₁, c₁, p₁) =
        restruct_frame-decode proc sock r chunk (length chunk) s v (omega arith) in
      let all : take (length chunk) chunk ≡ chunk = take-all (length chunk) chunk (omega arith) in
      Received-cons r r₁ chunk chunks count s (rw all at e₁) (rw all at c₁) p₁
        (receive-decode chunks r₁ _ _ v₁)
