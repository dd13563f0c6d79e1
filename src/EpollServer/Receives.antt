-- ===== src/EpollServer/Receives.antt =====
-- The receive task on a server in order: it returns, and what it does to `CRecvDataProc` are steps of
-- its life.
use mathlib.Core.Option.{none-ne-some}
use cmdtran.Common.{
  ℕ, zero, suc, ◌≡◌, ◌≢◌, ◌<◌, refl, sym, ap, ◌∙◌, Bool, true, false, Option, some, List, length,
  arith, ℕ_discrete,
}
use cmdtran.Common.Map.{find, erase, find-erase_self}
use cmdtran.RecvDataProc.{RecvDataProc, quit_client, add_recv_data}
use cmdtran.RecvDataProc.Flow
use cmdtran.RecvDataProc.Receive.{
  Steps, Steps-IsValid, more, quit, receive, own, add_recv_data-IsValid,
}
use cmdtran.RecvDataProc.Calls.{add_recv_data-Keeps}
use cmdtran.EpollServer.Interface.{Kernel, Network, Reads, Received, bytes, end, failed}
use cmdtran.EpollServer.{EpollServer, remove_socket}
use cmdtran.EpollServer.Serves.{serves, serves-Reading, serves-flag, flag_of, flag}
use cmdtran.EpollServer.Sound.{kernel-IsSound, remove_socket-IsSound}
use cmdtran.EpollServer.Kept.{Sound, serves-Keeps}
use cmdtran.EpollServer.RecvTask.{
  with_server, with_kernel, read_round, read_size, process_recv_data,
}

module _ (kernel : Kernel) (network : Network kernel) (reads : Reads network) (n : ℕ)
    (p₀ : RecvDataProc (EpollServer kernel.State)) where
  open kernel use {State}
  open network use {accept, epoll_ctl_add, epoll_ctl_del, close, read}
  open reads use {pending, read-pending, control-pending, close-pending}

  abbrev Valid : RecvDataProc (EpollServer State) → Type 0
  Valid = Flow.IsValid (serves kernel close) (serves-Reading kernel close)

  -- A state that the steps of `CRecvDataProc` lead to, with an epoll server in order.
  abbrev pub Serving : RecvDataProc (EpollServer State) → Type 0
  Serving p = Steps (serves kernel close) (serves-Reading kernel close) p₀ p × Sound n p.server

  -- A run of the task that returns.
  abbrev pub Returns : Option (Bool × RecvDataProc (EpollServer State)) → Type 0
  Returns out =
      (done : Bool) × (p : RecvDataProc (EpollServer State)) × (out ≡ some (done, p)) × Serving p

  -- The flags that `CRecvDataProc` sees are those of the epoll server.
  pub same_flags :
      (j : ℕ) (e e' : EpollServer State)
      → flag j e ≡ flag j e'
      → (serves-Reading kernel close).flag j e ≡ (serves-Reading kernel close).flag j e'
  same_flags j e e' h = serves-flag kernel close j e ∙ h ∙ sym (serves-flag kernel close j e')

  pub with_kernel-Serving :
      (k : State) (p : RecvDataProc (EpollServer State))
      → Serving p
      → Serving (with_kernel kernel network k p)
  with_kernel-Serving k p (steps, (chains, ok)) = (
    more p (with_kernel kernel network k p) steps (
        own (record p.server { kernel = k })
          (λ j c found. same_flags j (record p.server { kernel = k }) p.server refl)),
    (chains, kernel-IsSound ok k),
  )

  -- A client that is gone may be taken out of the epoll server.
  gone-Serving :
      (valid : Valid p₀) (sock : ℕ) (p : RecvDataProc (EpollServer State)) (e : EpollServer State)
      → Serving p
      → Sound n e
      → ((j : ℕ) → sock ≢ j → find j e.socket_info ≡ find j p.server.socket_info)
      → Serving (with_server kernel network e (quit_client (serves kernel close) sock p))
  unfolding quit_client
  gone-Serving valid sock p e (steps, _) ok others =
      let sorted =
        (Steps-IsValid (serves kernel close) (serves-Reading kernel close) p₀ p valid
          steps).sorted in
      (
        more _ _ (more p _ steps (quit sock)) (
            own e (λ j c found. same_flags j e p.server (elim (ℕ_discrete sock j) [
              | yes same ↦ absurd (
                  none-ne-some c (
                    sym (find-erase_self sock p.client_map sorted)
                    ∙ ap (λ (j : ℕ). find j (erase sock p.client_map)) same
                    ∙ found))
              | no other ↦ ap flag_of (others j other)
            ]))),
        ok,
      )

  -- A round whose calls return.
  end_round :
      (rest : RecvDataProc (EpollServer State) → Option (Bool × RecvDataProc (EpollServer State)))
      (sock : ℕ) (p : RecvDataProc (EpollServer State)) (e : EpollServer State)
      → remove_socket sock (with_kernel kernel network (close sock p.server.kernel) p).server
        ≡ some e
      → read_round kernel network rest sock end p
        ≡ some (
          false,
          with_server kernel network e (
              quit_client
                (serves kernel close)
                sock
                (with_kernel kernel network (close sock p.server.kernel) p)),
        )
  unfolding read_round quit_client
  end_round rest sock p e h = rw (h, read_round) refl

  bytes_round :
      (rest : RecvDataProc (EpollServer State) → Option (Bool × RecvDataProc (EpollServer State)))
      (sock : ℕ) (buff : List ℕ) (p q : RecvDataProc (EpollServer State)) (done : Bool)
      → add_recv_data (serves kernel close) sock buff (length buff) p ≡ some (done, q)
      → read_round kernel network rest sock (bytes buff) p ≡ rest q
  unfolding read_round
  bytes_round rest sock buff p q done h = rw (h, read_round) refl

  end-Returns :
      (valid : Valid p₀)
      (rest : RecvDataProc (EpollServer State) → Option (Bool × RecvDataProc (EpollServer State)))
      (sock : ℕ) (p : RecvDataProc (EpollServer State))
      → Serving p
      → Returns (read_round kernel network rest sock end p)
  end-Returns valid rest sock p now =
      let q = with_kernel kernel network (close sock p.server.kernel) p in
      let closed = with_kernel-Serving (close sock p.server.kernel) p now in
      let (e, returns, ok, others) = remove_socket-IsSound closed.1.1 sock in
      (
        false,
        with_server kernel network e (quit_client (serves kernel close) sock q),
        end_round rest sock p e returns,
        gone-Serving valid sock q e closed (closed.1.0, ok) others,
      )

  -- A round with bytes goes on with fewer bytes at hand.
  bytes-Returns :
      (valid : Valid p₀) (fuel sock : ℕ)
      (rest : RecvDataProc (EpollServer State) → Option (Bool × RecvDataProc (EpollServer State)))
      (buff : List ℕ) (p : RecvDataProc (EpollServer State))
      → ((q : RecvDataProc (EpollServer State))
          → Serving q
          → pending sock q.server.kernel < fuel
          → Returns (rest q))
      → Serving p
      → pending sock p.server.kernel < fuel
      → Returns (read_round kernel network rest sock (bytes buff) p)
  bytes-Returns valid fuel sock rest buff p next (steps, ok) few =
      let v = Steps-IsValid (serves kernel close) (serves-Reading kernel close) p₀ p valid steps in
      let (done, q, returns, _) =
        add_recv_data-IsValid (serves kernel close) (serves-Reading kernel close) sock buff
          (length buff) p v (omega arith) in
      let (ok', few') =
        add_recv_data-Keeps (serves kernel close) (λ e. Sound n e × (pending sock e.kernel < fuel))
          (serves-Keeps kernel n close (λ s. pending sock s < fuel)
            (λ k b s h. omega (arith, control-pending sock k b s))
            (λ k s h. omega (arith, close-pending sock k s)))
          sock buff (length buff) p q done returns (ok, few) in
      let (d, r, ends, serving) =
        next q (more p q steps (receive sock buff (length buff) done q (omega arith) returns), ok')
          few' in
      (d, r, bytes_round rest sock buff p q done returns ∙ ends, serving)

  read_round-Returns :
      (valid : Valid p₀) (fuel sock : ℕ)
      (rest : RecvDataProc (EpollServer State) → Option (Bool × RecvDataProc (EpollServer State)))
      (received : Received) (p : RecvDataProc (EpollServer State))
      → ((q : RecvDataProc (EpollServer State))
          → Serving q
          → pending sock q.server.kernel < fuel
          → Returns (rest q))
      → Serving p
      → ((buff : List ℕ) → received ≡ bytes buff → pending sock p.server.kernel < fuel)
      → Returns (read_round kernel network rest sock received p)
  unfolding read_round
  read_round-Returns valid fuel sock rest end p next now few = end-Returns valid rest sock p now
  read_round-Returns valid fuel sock rest failed p next now few = (true, p, refl, now)
  read_round-Returns valid fuel sock rest (bytes buff) p next now few =
      bytes-Returns valid fuel sock rest buff p next now (few buff refl)

  pub process_recv_data-Returns :
      (valid : Valid p₀) (fuel sock : ℕ) (p : RecvDataProc (EpollServer State))
      → Serving p
      → pending sock p.server.kernel < fuel
      → Returns (process_recv_data kernel network fuel sock p)
  unfolding process_recv_data
  process_recv_data-Returns valid zero sock p now few = absurd (omega arith)
  process_recv_data-Returns valid (suc fuel) sock p now few =
      let r = read sock read_size p.server.kernel in
      read_round-Returns valid fuel sock (process_recv_data kernel network fuel sock) r.0
        (with_kernel kernel network r.1 p) (process_recv_data-Returns valid fuel sock)
        (with_kernel-Serving r.1 p now)
        (λ buff e. omega (
          arith,
          read-pending sock read_size p.server.kernel r.1 buff (ap (λ (x : Received). (x, r.1)) e),
        ))
