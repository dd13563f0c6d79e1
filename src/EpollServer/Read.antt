-- ===== src/EpollServer/Read.antt =====
-- `ModifyRead` against what epoll reads.
use mathlib.Core.Bool.{true≢false}
use mathlib.Core.Option.{some-injective}
use cmdtran.Common.{
  ℕ, ◌≡◌, ◌≢◌, refl, sym, ap, subst, ◌∙◌, Bool, true, false, not, ◌&&◌, ◌||◌, inl, inr, some,
  ℕ_discrete, Bool-cases,
}
use cmdtran.Common.Map.{find, update, find-update_self, find-update_ne}
use cmdtran.EpollServer.{EpollServer, SocketInformation, modify_read}
use cmdtran.EpollServer.Interface.{Kernel, Control}

pub same_flag : (a b : Bool) → ((a && b) || (not a && not b)) ≡ true → a ≡ b
same_flag true true e = refl
same_flag true false e = cc
same_flag false true e = cc
same_flag false false e = refl

other_flag : (a b : Bool) → ((a && b) || (not a && not b)) ≡ false → b ≡ not a
other_flag true true e = cc
other_flag true false e = refl
other_flag false true e = refl
other_flag false false e = cc

flag_refl : (a : Bool) → ((a && a) || (not a && not a)) ≡ true
flag_refl true = refl
flag_refl false = refl

module _ (kernel : Kernel) where
  open kernel use {State, epoll_ctl_mod}

  -- `ModifyRead` where the flag is another one.
  abbrev pub switched : ℕ → Bool → EpollServer State → EpollServer State
  switched sock enable e = record e {
    socket_info = update sock (λ s. record s { enable_read = enable }) e.socket_info;
    kernel = (epoll_ctl_mod sock enable e.kernel).1;
  }

  pub modify_read-switched :
      (sock : ℕ) (enable : Bool) (e : EpollServer State) (s : SocketInformation)
      → find sock e.socket_info ≡ some s
      → ((enable && s.enable_read) || (not enable && not s.enable_read)) ≡ false
      → modify_read kernel sock enable e
        ≡ ((epoll_ctl_mod sock enable e.kernel).0, switched sock enable e)
  unfolding modify_read
  modify_read-switched sock enable e s at_sock other = rw (at_sock, modify_read, other) refl

  pub modify_read-same :
      (sock : ℕ) (enable : Bool) (e : EpollServer State) (s : SocketInformation)
      → find sock e.socket_info ≡ some s
      → ((enable && s.enable_read) || (not enable && not s.enable_read)) ≡ true
      → modify_read kernel sock enable e ≡ (true, e)
  unfolding modify_read
  modify_read-same sock enable e s at_sock same = rw (at_sock, modify_read, same) refl

module _ (kernel : Kernel) (control : Control kernel) where
  open kernel use {State, epoll_ctl_mod}
  open control use {reads, reads-done, reads-failed, reads-ne}

  -- The flags of all sockets say what epoll reads.
  abbrev pub Agrees : EpollServer State → Type 0
  Agrees e =
      (k : ℕ) (s : SocketInformation)
      → find k e.socket_info ≡ some s
      → reads k e.kernel ≡ s.enable_read

  switched-Agrees :
      (sock : ℕ) (enable : Bool) (e : EpollServer State) (s : SocketInformation)
      → Agrees e
      → find sock e.socket_info ≡ some s
      → (epoll_ctl_mod sock enable e.kernel).0 ≡ true
      → Agrees (switched kernel sock enable e)
  switched-Agrees sock enable e s v at_sock done k t found = elim (ℕ_discrete sock k) [
    | yes same ↦
        subst
          (λ k.
            find k (switched kernel sock enable e).socket_info ≡ some t
            → reads k (switched kernel sock enable e).kernel ≡ t.enable_read)
          same
          (λ found'.
            reads-done sock enable e.kernel done
            ∙ ap (λ (t : SocketInformation). t.enable_read)
                (some-injective _ t
                  (sym (find-update_self sock _ e.socket_info s at_sock) ∙ found')))
          found
    | no other ↦
        reads-ne sock k enable e.kernel other
        ∙ v k t (sym (find-update_ne sock k _ e.socket_info other) ∙ found)
  ]

  -- When the flags of all sockets agree with epoll, a call of `ModifyRead` for a socket that is
  -- there and returns true keeps that so, and has epoll read the socket or not as was asked, and
  -- all others as before.
  pub modify_read_lem :
      (sock : ℕ) (enable : Bool) (e : EpollServer State) (s : SocketInformation)
      → Agrees e
      → find sock e.socket_info ≡ some s
      → (modify_read kernel sock enable e).0 ≡ true
      → Agrees (modify_read kernel sock enable e).1
        × (reads sock (modify_read kernel sock enable e).1.kernel ≡ enable)
        × ((j : ℕ)
            → sock ≢ j
            → reads j (modify_read kernel sock enable e).1.kernel ≡ reads j e.kernel)
  modify_read_lem sock enable e s v at_sock done =
      elim (Bool-cases ((enable && s.enable_read) || (not enable && not s.enable_read))) [
        | inl same ↦
            rw (modify_read-same kernel sock enable e s at_sock same)
              (v, v sock s at_sock ∙ sym (same_flag enable s.enable_read same), λ j h. refl)
        | inr other ↦
            let succeeds : (epoll_ctl_mod sock enable e.kernel).0 ≡ true =
              sym (
                ap (λ (r : Bool × EpollServer State). r.0)
                  (modify_read-switched kernel sock enable e s at_sock other))
              ∙ done in
            rw (modify_read-switched kernel sock enable e s at_sock other) (
              switched-Agrees sock enable e s v at_sock succeeds,
              reads-done sock enable e.kernel succeeds,
              λ j h. reads-ne sock j enable e.kernel h,
            )
      ]

  -- When the flags of all sockets agree with epoll, a call of `ModifyRead` for a socket that is
  -- there and returns false leaves epoll at the opposite of what was asked, and the same call once
  -- more returns true and does nothing.
  pub modify_read-fails :
      (sock : ℕ) (enable : Bool) (e : EpollServer State) (s : SocketInformation)
      → Agrees e
      → find sock e.socket_info ≡ some s
      → (modify_read kernel sock enable e).0 ≡ false
      → let e' = (modify_read kernel sock enable e).1 in
        (reads sock e'.kernel ≡ not enable) × (modify_read kernel sock enable e' ≡ (true, e'))
  modify_read-fails sock enable e s v at_sock failed =
      elim (Bool-cases ((enable && s.enable_read) || (not enable && not s.enable_read))) [
        | inl same ↦ absurd (
            true≢false (
              sym (
                ap (λ (r : Bool × EpollServer State). r.0)
                  (modify_read-same kernel sock enable e s at_sock same))
              ∙ failed))
        | inr other ↦
            let fails : (epoll_ctl_mod sock enable e.kernel).0 ≡ false =
              sym (
                ap (λ (r : Bool × EpollServer State). r.0)
                  (modify_read-switched kernel sock enable e s at_sock other))
              ∙ failed in
            rw (modify_read-switched kernel sock enable e s at_sock other) (
              reads-failed sock enable e.kernel fails
                  ∙ v sock s at_sock
                  ∙ other_flag enable s.enable_read other,
              modify_read-same kernel sock enable (switched kernel sock enable e)
                  (record s { enable_read = enable })
                  (find-update_self sock _ e.socket_info s at_sock) (flag_refl enable),
            )
      ]
