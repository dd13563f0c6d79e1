-- ===== src/RecvDataProc/Picture.antt =====
-- What the frames that clients send to each other look like, and who gets a picture.
use cmdtran.Common.{
  ℕ, ◌+◌, ◌-◌, ◌/◌, ◌%◌, ◌≤◌, ◌≡◌, refl, ap, ◌∙◌, true, false, not, ◌&&◌, Option, none, some, List,
  [], ◌∷◌, inl, inr, arith, Bool-cases, if◌then◌else◌, take, subst, ℕ_discrete, length, ◌==◌,
  get_or, set, length-set, zero, suc, ◌<◌,
}
use cmdtran.Common.Int.{pos, negsuc}
use cmdtran.Common.Map.{find, IsSorted, Above, Above-le, Above-IsSorted}
use cmdtran.FrameRestruct.Decode.{IsFrame}
use cmdtran.RecvDataProc.{
  ClientInfo, RecvDataProc, is_pc, frame_init, send_loop, watches, pic_data_recv,
}
use cmdtran.RecvDataProc.Server.{EpollServer}

get_or-set_self : (xs : List ℕ) (i v : ℕ) → i < length xs → get_or (set xs i v) i 0 ≡ v
get_or-set_self [] i v h = absurd (omega arith)
get_or-set_self (x ∷ xs) zero v h = refl
get_or-set_self (x ∷ xs) (suc i) v h = get_or-set_self xs i v (omega arith)

-- The bytes of `FrameInit` behind the first four, with the end byte in the last place.
framed :
    (len code : ℕ) (rest : List ℕ)
    → length rest + 4 ≡ len
    → 5 ≤ len
    → len ≤ 1124
    → IsFrame
        (0x7E ∷ (len / 256 % 256) ∷ (len % 256 % 256) ∷ code ∷ set rest (length rest - 1) 0xA5)
framed len code rest e shortest longest =
    let same : length (set rest (length rest - 1) 0xA5) ≡ length rest =
      length-set rest (length rest - 1) 0xA5 in
    record {
      head = refl;
      len = omega (arith, same);
      shortest = omega (arith, same);
      longest = omega (arith, same);
      last =
          ap
            (λ (i : ℕ).
              get_or
                (0x7E
                  ∷ (len / 256 % 256)
                  ∷ (len % 256 % 256)
                  ∷ code
                  ∷ set rest (length rest - 1) 0xA5)
                i 0)
            {x = suc (suc (suc (suc (length (set rest (length rest - 1) 0xA5))))) - 1}
            {y = suc (suc (suc (suc (length rest - 1))))} (omega (arith, same))
          ∙ get_or-set_self rest (length rest - 1) 0xA5 (omega arith);
    }

-- `FrameInit` makes a well-formed frame of a buffer of 5 to 1124 bytes, with any code.
pub frame_init-IsFrame :
    (buffer : List ℕ) (code : ℕ)
    → 5 ≤ length buffer
    → length buffer ≤ 1124
    → IsFrame (frame_init buffer (length buffer) code)
unfolding frame_init
frame_init-IsFrame [] code shortest longest = absurd (omega arith)
frame_init-IsFrame (_ ∷ []) code shortest longest = absurd (omega arith)
frame_init-IsFrame (_ ∷ _ ∷ []) code shortest longest = absurd (omega arith)
frame_init-IsFrame (_ ∷ _ ∷ _ ∷ []) code shortest longest = absurd (omega arith)
frame_init-IsFrame (a ∷ b ∷ c ∷ d ∷ rest) code shortest longest =
    let len : ℕ = length (a ∷ b ∷ c ∷ d ∷ rest) in
    subst
      (λ (i : ℕ). IsFrame (set (0x7E ∷ (len / 256 % 256) ∷ (len % 256 % 256) ∷ code ∷ rest) i 0xA5))
      {x = suc (suc (suc (suc (length rest - 1))))} {y = len - 1} (omega arith)
      (framed len code rest (omega arith) shortest longest)

-- How often a number is in a list.
abbrev pub count : ℕ → List ℕ → ℕ
count k [] = 0
count k (j ∷ ks) = if j == k then suc (count k ks) else count k ks

module _ (epoll : EpollServer) (sock camera : ℕ) where
  open epoll use {State, send_data}

  -- Who gets a picture from `sock`, in the order of the sends.
  abbrev pub watchers : List (ℕ × ClientInfo) → List ℕ
  watchers [] = []
  watchers ((k, c) ∷ m) = if watches epoll sock camera (k, c) then k ∷ watchers m else watchers m

  abbrev pub send_all : List ℕ → List ℕ → State → State
  send_all bytes [] s = s
  send_all bytes (k ∷ ks) s = send_all bytes ks (send_data k bytes true s)

  -- 1 for a client with the socket that watches the camera, otherwise 0.
  abbrev pub watching : ℕ → Option ClientInfo → ℕ
  watching k none = 0
  watching k (some c) =
      if not (k == sock)
        && (elim c.client_type [ pos n ↦ n == 1 | negsuc n ↦ false ] && camera == c.camera_id)
      then 1
      else 0

  send_loop_lem :
      (bytes : List ℕ) (m : List (ℕ × ClientInfo)) (s : State)
      → send_loop epoll sock camera bytes m s ≡ send_all bytes (watchers m) s
  unfolding send_loop
  send_loop_lem bytes [] s = refl
  send_loop_lem bytes ((k, c) ∷ m) s = elim (Bool-cases (watches epoll sock camera (k, c))) [
    | inl e ↦ rw (e) (send_loop_lem bytes m (send_data k bytes true s))
    | inr e ↦ rw (e) (send_loop_lem bytes m s)
  ]

  count-Above : (k : ℕ) (m : List (ℕ × ClientInfo)) → Above k m → count k (watchers m) ≡ 0
  count-Above k [] a = refl
  count-Above k ((j, c) ∷ m) a = ground (arith, count-Above k m, Above-le k j m)

  watches_lem :
      (k : ℕ) (c : ClientInfo)
      → (if watches epoll sock camera (k, c) then 1 else 0) ≡ watching k (some c)
  unfolding watches is_pc
  watches_lem k c = ground arith

  count-watchers :
      (k : ℕ) (m : List (ℕ × ClientInfo))
      → IsSorted m
      → count k (watchers m) ≡ watching k (find k m)
  unfolding find watches is_pc
  count-watchers k [] a = refl
  count-watchers k ((j, c) ∷ m) a =
      let rest : count k (watchers m) ≡ watching k (find k m) =
        count-watchers k m (Above-IsSorted j m a) in
      elim (ℕ_discrete j k) [
        | yes e ↦
            let none_left = count-Above k m (subst (λ (i : ℕ). Above i m) e a) in ground (arith)
        | no e ↦ ground arith
      ]

-- With the map of clients in order, a picture of a client changes nothing but that its first `len`
-- bytes are sent to the sockets of a list, and a socket is in that list once if it is another one
-- and belongs to a PC client that watches the camera, and otherwise not at all.
pub pic_data_recv_lem :
    (epoll : EpollServer) (sock frame len : ℕ) (p : RecvDataProc epoll.State) (c : ClientInfo)
    → IsSorted p.client_map
    → find sock p.client_map ≡ some c
    → (ks : List ℕ) × (pic_data_recv epoll sock frame len p ≡ record p {
      server = send_all epoll sock c.camera_id (take len (p.backend.memory frame)) ks p.server;
    })
      × ((k : ℕ) → count k ks ≡ watching epoll sock c.camera_id k (find k p.client_map))
unfolding pic_data_recv
pic_data_recv_lem epoll sock frame len p c sorted e =
    let ks : List ℕ = watchers epoll sock c.camera_id p.client_map in
    (
      ks,
      rw (e, pic_data_recv)
          (ap (λ (s : epoll.State). record p { server = s })
            (send_loop_lem epoll sock c.camera_id (take len (p.backend.memory frame)) p.client_map
              p.server)),
      λ k. count-watchers epoll sock c.camera_id k p.client_map sorted,
    )
