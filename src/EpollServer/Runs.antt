-- ===== src/EpollServer/Runs.antt =====
-- The server from its start on, as the receive tasks and the send tasks of the sockets and the frame
-- tasks of the workers run on it one after the other.
use mathlib.Core.Option.{some-injective}
use cmdtran.Common.{ℕ, ◌≡◌, ◌<◌, sym, ap, ◌∙◌, subst, Bool, some}
use cmdtran.RecvDataProc.{RecvDataProc, process_task}
use cmdtran.RecvDataProc.Service.{FrameProcTask}
use cmdtran.RecvDataProc.Receive.{Steps-IsValid, start, more, process, own}
use cmdtran.RecvDataProc.Calls.{process_task-Keeps}
use cmdtran.EpollServer.Interface.{Kernel, Network, Reads}
use cmdtran.EpollServer.{EpollServer}
use cmdtran.EpollServer.Serves.{serves, serves-Reading}
use cmdtran.EpollServer.Kept.{Sound, serves-Keeps}
use cmdtran.EpollServer.RecvTask.{Event, process_recv_ents}
use cmdtran.EpollServer.Receives.{Serving, same_flags}
use cmdtran.EpollServer.SendTask.{process_send_task}
use cmdtran.EpollServer.Sends.{process_send_task-Kept}
use cmdtran.EpollServer.Events.{Valid, Fresh, process_recv_ents-Returns}

module _ (kernel : Kernel) (network : Network kernel) (reads : Reads network) (n : ℕ) where
  open kernel use {State}
  open network use {close}
  open reads use {pending}

  -- The tasks that ran, in the order in which they ran.
  pub data Runs (p₀ : RecvDataProc (EpollServer State))
      : RecvDataProc (EpollServer State) → Type 0 where
    begin : Runs p₀ p₀
    event :
        (fuel listen camera : ℕ) (ev : Event) (p p' : RecvDataProc (EpollServer State))
        (done : Bool)
        → Runs p₀ p
        → pending ev.fd p.server.kernel < fuel
        → Fresh kernel network reads n listen ev p
        → process_recv_ents kernel network fuel listen camera ev p ≡ some (done, p')
        → Runs p₀ p'
    task :
        (t : FrameProcTask) (p : RecvDataProc (EpollServer State))
        → Runs p₀ p
        → Runs p₀ (process_task (serves kernel close) t p)
    -- A send task that ended: at a node that was sent whole it faults, and the run stops.
    send_task :
        (fuel sock : ℕ) (p : RecvDataProc (EpollServer State)) (e : EpollServer State)
        → Runs p₀ p
        → process_send_task kernel fuel sock p.server ≡ some e
        → Runs p₀ (record p { server = e })

  Runs-Serving :
      (p₀ p : RecvDataProc (EpollServer State))
      → Valid kernel network reads n p₀
      → Sound n p₀.server
      → Runs p₀ p
      → Serving kernel network reads n p₀ p
  Runs-Serving p₀ _ valid ok begin = (start, ok)
  Runs-Serving p₀ _ valid ok (event fuel listen camera ev p p' done before few fresh returns) =
      let now = Runs-Serving p₀ p valid ok before in
      let (done', q, returns', now') =
        process_recv_ents-Returns kernel network reads n p₀ valid fuel listen camera ev p now few
          fresh in
      subst (Serving kernel network reads n p₀)
        (ap (λ (x : Bool × RecvDataProc (EpollServer State)). x.1)
          (some-injective (done', q) (done, p') (sym returns' ∙ returns)))
        now'
  Runs-Serving p₀ _ valid ok (task t p before) =
      let (steps, sound) = Runs-Serving p₀ p valid ok before in
      (
        more p _ steps (process t),
        (process_task-Keeps (serves kernel close) (λ e. Sound n e × Unit)
            (serves-Keeps kernel n close (λ s. Unit) (λ k b s h. h) (λ k s h. h)) t p
            (sound, tt)).0,
      )
  Runs-Serving p₀ _ valid ok (send_task fuel sock p e before returns) =
      let (steps, sound) = Runs-Serving p₀ p valid ok before in
      let (sound', flags) = process_send_task-Kept kernel n fuel sock p.server e sound returns in
      (
        more p _ steps
            (own e (λ j c found. same_flags kernel network reads n p₀ j e p.server (flags j))),
        sound',
      )

  -- From a server that is in order with all its parts, every run of receive tasks, frame
  -- tasks and send tasks that end leaves it in order.
  pub Runs_lem :
      (p₀ p : RecvDataProc (EpollServer State))
      → Valid kernel network reads n p₀
      → Sound n p₀.server
      → Runs p₀ p
      → Valid kernel network reads n p × Sound n p.server
  Runs_lem p₀ p valid ok runs =
      let (steps, sound) = Runs-Serving p₀ p valid ok runs in
      (Steps-IsValid (serves kernel close) (serves-Reading kernel close) p₀ p valid steps, sound)
