-- ===== src/EpollServer/Serves.antt =====
-- The epoll server as `CRecvDataProc` sees it.
use mathlib.Core.Option.{none-ne-some, some-injective}
use cmdtran.Common.{
  ℕ, ◌≡◌, ◌≢◌, refl, sym, ap, ◌∙◌, Bool, true, false, not, ◌&&◌, ◌||◌, inl, inr, Option, none, some,
  List, [], ◌∷◌, length, Bool-cases, Option-cases, leb, ltb, ◌==◌,
}
use cmdtran.Common.Int.{pos, exceeds_ℕ, below_ℕ}
use cmdtran.Common.Map.{find, update, find-update_self, find-update_ne}
use cmdtran.MemPool.{MemPool, get_block}
use cmdtran.MemChain.{MemChain, push}
use cmdtran.MasterWorkPool.{MasterWorkPool}
use cmdtran.MasterWorkPool
use cmdtran.RecvDataProc.Flow.{IsValid}
use cmdtran.EpollServer.{
  EpollServer, SocketInformation, add_send_task, signal, pushed, queue_block, fill_block, send_data,
  modify_read, enable_read, disable_read, mem_pool_block_size, send_state_allow,
}
use cmdtran.EpollServer.Interface.{Kernel}
use cmdtran.EpollServer.Read.{same_flag, modify_read-switched, modify_read-same}
use cmdtran.RecvDataProc.Server.{Reading}
use cmdtran.RecvDataProc.Server
use cmdtran.RecvDataProc.{RecvDataProc, ClientInfo}

abbrev pub flag_of : Option SocketInformation → Option Bool
flag_of none = none
flag_of (some s) = some s.enable_read

pub update-flag :
    (k j : ℕ) (f : SocketInformation → SocketInformation) (m : List (ℕ × SocketInformation))
    → ((s : SocketInformation) → (f s).enable_read ≡ s.enable_read)
    → flag_of (find j (update k f m)) ≡ flag_of (find j m)
unfolding find update
update-flag k j f [] h = refl
update-flag k j f ((i, s) ∷ m) h = elim (Bool-cases (i == k)) [
  | inl e ↦ elim (Bool-cases (i == j)) [
    | inl e' ↦ rw (e, e') (ap some (h s))
    | inr e' ↦ rw (e, e') refl
  ]
  | inr e ↦ elim (Bool-cases (i == j)) [
    | inl e' ↦ rw (e, e') refl
    | inr e' ↦ rw (e, e') (update-flag k j f m h)
  ]
]

module _ {K : Type 0} where
  abbrev pub flag : ℕ → EpollServer K → Option Bool
  flag k e = flag_of (find k e.socket_info)

  -- The server behind a call that returns; a call that faults ends the program, and what it has then
  -- does not matter.
  abbrev pub behind : EpollServer K → Option (Bool × EpollServer K) → EpollServer K
  behind e none = e
  behind e (some (done, e')) = e'

  -- A call that changes no flag.
  abbrev Keeps : EpollServer K → Option (Bool × EpollServer K) → Type 0
  Keeps e none = Unit
  Keeps e (some (done, e')) = (j : ℕ) → flag j e' ≡ flag j e

  behind-flag :
      (e : EpollServer K) (out : Option (Bool × EpollServer K)) (j : ℕ)
      → Keeps e out
      → flag j (behind e out) ≡ flag j e
  behind-flag e none j k = refl
  behind-flag e (some (done, e')) j k = k j

  signal-Keeps :
      (sock state : ℕ) (e e₁ : EpollServer K)
      → ((j : ℕ) → flag j e₁ ≡ flag j e)
      → Keeps e (signal sock state e₁)
  unfolding signal add_send_task
  signal-Keeps sock state e e₁ k = elim (Bool-cases (state == send_state_allow)) [
    | inr waits ↦ rw waits k
    | inl allows ↦ elim (Option-cases (MasterWorkPool.add_task sock sock e₁.send_thread_manager)) [
      | inl faults ↦ rw (allows, faults) tt
      | inr (tm, added) ↦ rw (allows, added) k
    ]
  ]

  pushed-Keeps :
      (sock state : ℕ) (out : Option (Bool × MemChain)) (e e₁ : EpollServer K)
      → ((j : ℕ) → flag j e₁ ≡ flag j e)
      → Keeps e (pushed sock state out e₁)
  unfolding pushed
  pushed-Keeps sock state none e e₁ k = tt
  pushed-Keeps sock state (some (done, chain)) e e₁ k =
      signal-Keeps sock state e _ (λ j. update-flag sock j _ e₁.socket_info (λ s. refl) ∙ k j)

  fill_block-Keeps :
      (sock len : ℕ) (bytes : List ℕ) (back : Bool) (got : Option ℕ × MemPool) (e : EpollServer K)
      → Keeps e (fill_block sock bytes len back got e)
  unfolding fill_block queue_block
  fill_block-Keeps sock len bytes back (none, pool) e = λ j. refl
  fill_block-Keeps sock len bytes back (some block, pool) e =
      elim (Option-cases (find sock e.socket_info)) [
        | inl out ↦ rw (out) (λ j. refl)
        | inr (s, there) ↦ rw (there) (
            pushed-Keeps sock s.curr_send_state (push (some block) len back s.output_chain) e _
              (λ j. refl))
      ]

  send_data-Keeps :
      (sock len : ℕ) (bytes : List ℕ) (back : Bool) (e : EpollServer K)
      → Keeps e (send_data sock (some bytes) (pos len) back e)
  unfolding send_data
  send_data-Keeps sock len bytes back e =
      elim (Bool-cases (leb len 0 || ltb mem_pool_block_size len)) [
        | inl refused ↦ rw refused (λ j. refl)
        | inr fits ↦ rw fits (fill_block-Keeps sock len bytes back (get_block e.send_data_mem) e)
      ]

module _ (kernel : Kernel) where
  open kernel use {State}

  flag-there :
      (sock : ℕ) (e : EpollServer State) (b : Bool)
      → flag sock e ≡ some b
      → (s : SocketInformation) × (find sock e.socket_info ≡ some s)
  flag-there sock e b known = elim (Option-cases (find sock e.socket_info)) [
    | inl out ↦ absurd (none-ne-some b (sym (ap flag_of out) ∙ known))
    | inr there ↦ there
  ]

  modify_read-flag :
      (sock : ℕ) (enable : Bool) (e : EpollServer State) (b : Bool)
      → flag sock e ≡ some b
      → flag sock (modify_read kernel sock enable e).1 ≡ some enable
  modify_read-flag sock enable e b known =
      let (s, there) = flag-there sock e b known in
      elim (Bool-cases ((enable && s.enable_read) || (not enable && not s.enable_read))) [
        | inl same ↦
            ap (λ (r : Bool × EpollServer State). flag sock r.1)
              (modify_read-same kernel sock enable e s there same)
            ∙ ap flag_of there
            ∙ ap some (sym (same_flag enable s.enable_read same))
        | inr other ↦
            ap (λ (r : Bool × EpollServer State). flag sock r.1)
              (modify_read-switched kernel sock enable e s there other)
            ∙ ap flag_of (find-update_self sock _ e.socket_info s there)
      ]

  modify_read-flag_ne :
      (sock j : ℕ) (enable : Bool) (e : EpollServer State)
      → sock ≢ j
      → flag j (modify_read kernel sock enable e).1 ≡ flag j e
  unfolding modify_read
  modify_read-flag_ne sock j enable e h = elim (Option-cases (find sock e.socket_info)) [
    | inl out ↦ rw (out, modify_read) refl
    | inr (s, there) ↦
        elim (Bool-cases ((enable && s.enable_read) || (not enable && not s.enable_read))) [
          | inl same ↦ rw (there, modify_read, same) refl
          | inr other ↦
              rw (there, modify_read, other) (ap flag_of (find-update_ne sock j _ e.socket_info h))
        ]
  ]

  -- The calls of `CRecvDataProcIntf`, and the system call `close`, which the kernel sees alone.
  abbrev pub serves : (ℕ → State → State) → Server.EpollServer
  serves close = record {
    State = EpollServer State;
    send_data = λ k bytes back e. behind e (send_data k (some bytes) (pos (length bytes)) back e);
    enable_read = λ k e. (enable_read kernel k e).1;
    disable_read = λ k e. (disable_read kernel k e).1;
    close = λ k e. record e { kernel = close k e.kernel };
  }

  pub serves-Reading : (close : ℕ → State → State) → Reading (serves close)
  unfolding enable_read disable_read
  serves-Reading close = record {
    flag = flag;
    flag-enable = λ k e b known. modify_read-flag k true e b known;
    flag-disable = λ k e b known. modify_read-flag k false e b known;
    flag-enable_ne = λ k j e h. modify_read-flag_ne k j true e h;
    flag-disable_ne = λ k j e h. modify_read-flag_ne k j false e h;
    flag-send =
        λ k j bytes back e. behind-flag e _ j (send_data-Keeps k (length bytes) bytes back e);
    flag-close_ne = λ k j e h. refl;
  }

  pub serves-flag :
      (close : ℕ → State → State) (k : ℕ) (e : EpollServer State)
      → (serves-Reading close).flag k e ≡ flag k e
  unfolding serves-Reading
  serves-flag close k e = refl

  -- In a valid server on top of the epoll server the socket of a client is known, and its flag
  -- follows the count of the client.
  pub client_flow :
      (close : ℕ → State → State) (p : RecvDataProc (EpollServer State)) (sock : ℕ) (c : ClientInfo)
      → IsValid (serves close) (serves-Reading close) p
      → find sock p.client_map ≡ some c
      → (s : SocketInformation) × (find sock p.server.socket_info ≡ some s)
        × (exceeds_ℕ c.frame_count p.flow_control_high ≡ true → s.enable_read ≡ false)
        × (below_ℕ c.frame_count p.flow_control_low ≡ true → s.enable_read ≡ true)
  unfolding serves-Reading
  client_flow close p sock c v at_sock =
      let flows = v.flowing sock c at_sock in
      let (s, there) = flag-there sock p.server c.enable_read flows.agrees in
      let same : s.enable_read ≡ c.enable_read =
        some-injective s.enable_read c.enable_read (sym (ap flag_of there) ∙ flows.agrees) in
      (s, there, (λ high. same ∙ flows.full high), (λ low. same ∙ flows.drained low))
