-- ===== src/EpollServer/Events.antt =====
-- `ProcessRecvEnts` of the receive task, and the server as the receive tasks and the frame tasks run
-- on it, in any order.
use mathlib.Core.Option.{none-ne-some}
use cmdtran.Common.{
  ℕ, ◌≡◌, ◌<◌, refl, sym, ap, ◌∙◌, Bool, true, false, Option, none, some, ◌==◌, Bool-cases, inl,
  inr, ==→eq, ℕ_discrete,
}
use cmdtran.Common.Map.{find, insert, find-insert_new, find-insert_ne}
use cmdtran.RecvDataProc.{RecvDataProc, add_client, quit_client}
use cmdtran.RecvDataProc.Flow
use cmdtran.RecvDataProc.Receive.{Steps, Steps-IsValid, start, more, connect, quit, own}
use cmdtran.EpollServer.Interface.{Kernel, Network, Reads}
use cmdtran.EpollServer.{EpollServer, new_socket, writable}
use cmdtran.EpollServer.Serves.{serves, serves-Reading, flag_of, flag, serves-flag}
use cmdtran.EpollServer.Kept.{Sound, insert-Sound, writable-Sound}
use cmdtran.EpollServer.RecvTask.{
  Event, with_server, added, accepted, process_recv_data, hang_up, process_recv_ents,
}
use cmdtran.EpollServer.Receives.{
  Serving, Returns, same_flags, with_kernel-Serving, process_recv_data-Returns,
}

module _ (kernel : Kernel) (network : Network kernel) (reads : Reads network) (n : ℕ) where
  open kernel use {State}
  open network use {accept, epoll_ctl_add, epoll_ctl_del, close}
  open reads use {pending}

  abbrev pub Valid : RecvDataProc (EpollServer State) → Type 0
  Valid = Flow.IsValid (serves kernel close) (serves-Reading kernel close)

  -- A socket that is accepted has a number that the server does not know.
  abbrev pub Fresh : ℕ → Event → RecvDataProc (EpollServer State) → Type 0
  Fresh listen ev p =
      (sock : ℕ)
      → ev.fd ≡ listen
      → (accept p.server.kernel).0 ≡ some sock
      → find sock p.server.socket_info ≡ none

  module _ (p₀ : RecvDataProc (EpollServer State)) (valid : Valid p₀) where
    abbrev Now : RecvDataProc (EpollServer State) → Type 0
    Now = Serving kernel network reads n p₀

    added-Serving :
        (camera sock : ℕ) (answer : Bool) (k : State) (p : RecvDataProc (EpollServer State))
        → find sock p.server.socket_info ≡ none
        → Now p
        → Now (added kernel network camera sock (answer, k) p)
    unfolding added add_client
    added-Serving camera sock false k p out now =
        with_kernel-Serving kernel network reads n p₀ (close sock k) p now
    added-Serving camera sock true k p out (steps, ok) =
        let v =
          Steps-IsValid (serves kernel close) (serves-Reading kernel close) p₀ p valid steps in
        let e = record p.server {
          socket_info = insert sock (new_socket sock) p.server.socket_info;
          kernel = k;
        } in
        (
          more _ _
              (more p (with_server kernel network e p) steps (
                own e (λ j c found.
                  same_flags kernel network reads n p₀ j e p.server (elim (ℕ_discrete sock j) [
                    | yes same ↦ absurd (
                        none-ne-some c.enable_read (
                          sym (ap flag_of out)
                          ∙ ap (λ (j : ℕ). flag j p.server) same
                          ∙ sym (serves-flag kernel close j p.server)
                          ∙ (v.flowing j c found).agrees))
                    | no other ↦
                        ap flag_of
                          (find-insert_ne sock j (new_socket sock) p.server.socket_info other)
                  ]))))
              (connect sock camera (
                serves-flag kernel close sock e
                ∙ ap flag_of
                    (find-insert_new sock (new_socket sock) p.server.socket_info ok.1.sorted out))),
          insert-Sound n sock k p.server out ok,
        )

    accepted-Serving :
        (camera : ℕ) (answer : Option ℕ) (k : State) (p : RecvDataProc (EpollServer State))
        → ((sock : ℕ) → answer ≡ some sock → find sock p.server.socket_info ≡ none)
        → Now p
        → Now (accepted kernel network camera (answer, k) p)
    unfolding accepted
    accepted-Serving camera none k p out now = with_kernel-Serving kernel network reads n p₀ k p now
    accepted-Serving camera (some sock) k p out now =
        added-Serving camera sock (epoll_ctl_add sock k).0 (epoll_ctl_add sock k).1 p
          (out sock refl) now

    hang_up-Serving :
        (sock : ℕ) (p : RecvDataProc (EpollServer State))
        → Now p
        → Now (hang_up kernel network sock p)
    unfolding hang_up quit_client
    hang_up-Serving sock p now =
        let k = close sock (epoll_ctl_del sock p.server.kernel) in
        let (steps, ok) = with_kernel-Serving kernel network reads n p₀ k p now in
        (more _ _ steps (quit sock), ok)

    -- A branch that hands a result on.
    returned-Returns :
        (out : Option (Bool × RecvDataProc (EpollServer State)))
        → Returns kernel network reads n p₀ out
        → Returns kernel network reads n p₀
            (elim out [ none ↦ none | some (done, q) ↦ some (true, q) ])
    returned-Returns out (done, q, returns, now) = (true, q, rw returns refl, now)

    writable-Returns :
        (sock : ℕ) (p : RecvDataProc (EpollServer State))
        → Now p
        → Returns kernel network reads n p₀ (elim (writable sock p.server) [
          | none ↦ none
          | some (done, e) ↦ some (done, with_server kernel network e p)
        ])
    writable-Returns sock p (steps, ok) =
        let (done, e, returns, ok', same) = writable-Sound n sock p.server ok in
        (
          done,
          with_server kernel network e p,
          rw returns refl,
          (
            more p _ steps
                (own e (λ j c found. same_flags kernel network reads n p₀ j e p.server (same j))),
            ok',
          ),
        )

    pub process_recv_ents-Returns :
        (fuel listen camera : ℕ) (ev : Event) (p : RecvDataProc (EpollServer State))
        → Now p
        → pending ev.fd p.server.kernel < fuel
        → Fresh listen ev p
        → Returns kernel network reads n p₀
            (process_recv_ents kernel network fuel listen camera ev p)
    unfolding process_recv_ents
    process_recv_ents-Returns fuel listen camera ev p now few fresh =
        elim (Bool-cases (ev.fd == listen)) [
          | inl at ↦ rw at (
            true,
            _,
            refl,
            accepted-Serving camera (accept p.server.kernel).0 (accept p.server.kernel).1 p
                (λ sock e. fresh sock (==→eq ev.fd listen at) e) now,
          )
          | inr other ↦ elim (Bool-cases ev.epollin) [
            | inl in_set ↦
                rw (other, in_set)
                  (returned-Returns (process_recv_data kernel network fuel ev.fd p) (
                    process_recv_data-Returns kernel network reads n p₀ valid fuel ev.fd p now few))
            | inr in_off ↦ elim (Bool-cases ev.epollout) [
              | inl out_set ↦ rw (other, in_off, out_set) (writable-Returns ev.fd p now)
              | inr out_off ↦
                  rw (other, in_off, out_off) (true, _, refl, hang_up-Serving ev.fd p now)
            ]
          ]
        ]

  -- On a valid server whose epoll server is in order, with more fuel than there is to read on the
  -- socket of the event, and with any socket that `accept` gives new to the server: the receive
  -- task returns at every event, what it does are steps of the life of `CRecvDataProc`, and the
  -- epoll server is in order behind it.
  pub process_recv_ents_lem :
      (fuel listen camera : ℕ) (ev : Event) (p : RecvDataProc (EpollServer State))
      → Valid p
      → Sound n p.server
      → pending ev.fd p.server.kernel < fuel
      → Fresh listen ev p
      → (done : Bool) × (p' : RecvDataProc (EpollServer State)) × (process_recv_ents kernel network
            fuel listen camera ev p
          ≡ some (done, p'))
        × Steps (serves kernel close) (serves-Reading kernel close) p p'
        × Sound n p'.server
  process_recv_ents_lem fuel listen camera ev p valid ok few fresh =
      let (done, p', returns, now) =
        process_recv_ents-Returns p valid fuel listen camera ev p (start, ok) few fresh in
      (done, p', returns, now.0, now.1)
