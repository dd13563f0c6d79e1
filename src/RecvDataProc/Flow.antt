-- ===== src/RecvDataProc/Flow.antt =====
-- Flow control in `CRecvDataProc`: `AddClient`, `QuitClient`, `IncreaseFrameCount` and
-- `DecreaseFrameCount`.
use cmdtran.Common.{
  ℕ, ◌≤◌, ◌≡◌, refl, sym, ap, ◌∙◌, true, false, not, ◌&&◌, some, inl, inr, arith, Option-cases,
  Bool-cases,
}
use mathlib.Core.Option.{some-injective}
use cmdtran.Common.Int.{add_ℕ, pred_ℤ, exceeds_ℕ, below_ℕ}
use cmdtran.Common.Map.{find, IsSorted, insert-IsSorted, erase-IsSorted, update-IsSorted}
use cmdtran.FrameRestruct.Refine.{init-IsValid}
use cmdtran.RecvDataProc.{
  ClientInfo, RecvDataProc, new_client_info, add_client, quit_client, increase_at,
  increase_frame_count, decrease_at, decrease_frame_count,
}
use cmdtran.RecvDataProc.Server.{EpollServer, Reading}
use cmdtran.RecvDataProc.Clients.{
  AreFlowing, below-add, exceeds-pred, and-flag, and-not_flag, not-below, not-exceeds,
  update-AreFlowing, insert-AreFlowing, erase-AreFlowing,
}

module _ (epoll : EpollServer) (reading : Reading epoll) where
  open epoll use {State, send_data, enable_read, disable_read, close}
  open reading use {
    flag, flag-enable, flag-disable, flag-enable_ne, flag-disable_ne, flag-send, flag-close_ne,
  }

  pub record IsValid (p : RecvDataProc State) : Type 0 where
    pub sorted : IsSorted p.client_map
    pub bounds : p.flow_control_low ≤ p.flow_control_high
    pub flowing :
        AreFlowing epoll reading p.flow_control_high p.flow_control_low p.client_map p.server

  pub add_client-IsValid :
      (sock camera : ℕ) (p : RecvDataProc State)
      → IsValid p
      → flag sock p.server ≡ some true
      → IsValid (add_client epoll sock camera p)
  unfolding add_client new_client_info
  add_client-IsValid sock camera p v on = record {
    sorted = insert-IsSorted sock _ p.client_map v.sorted;
    bounds = v.bounds;
    flowing =
        insert-AreFlowing epoll reading p.flow_control_high p.flow_control_low sock _ p.client_map
          p.server v.sorted
          (record {
            restruct = init-IsValid true;
            agrees = on;
            full = λ e. ground arith;
            drained = λ _. refl;
          })
          v.flowing;
  }

  pub quit_client-IsValid :
      (sock : ℕ) (p : RecvDataProc State) → IsValid p → IsValid (quit_client epoll sock p)
  unfolding quit_client
  quit_client-IsValid sock p v = record {
    sorted = erase-IsSorted sock p.client_map v.sorted;
    bounds = v.bounds;
    flowing =
        erase-AreFlowing epoll reading p.flow_control_high p.flow_control_low sock p.client_map
          p.server p.server v.sorted (λ j h. refl) v.flowing;
  }

  -- A client that is found again is the same.
  same_client :
      (sock : ℕ) (c d : ClientInfo) (p : RecvDataProc State)
      → find sock p.client_map ≡ some c
      → find sock p.client_map ≡ some d
      → (c.frame_count ≡ d.frame_count) × (c.enable_read ≡ d.enable_read)
  same_client sock c d p e e' =
      let same = some-injective c d (sym e ∙ e') in
      (ap (λ (c : ClientInfo). c.frame_count) same, ap (λ (c : ClientInfo). c.enable_read) same)

  -- Both branches of `IncreaseFrameCount` at a client.
  increase_at-IsValid :
      (sock count : ℕ) (c : ClientInfo) (p : RecvDataProc State)
      → IsValid p
      → find sock p.client_map ≡ some c
      → IsValid (increase_at epoll sock count c p).1
  unfolding increase_at
  increase_at-IsValid sock count c p v at_sock =
      let n = add_ℕ c.frame_count count in
      elim (Bool-cases (exceeds_ℕ n p.flow_control_high && c.enable_read)) [
        | inl e ↦ rw e (record {
          sorted = update-IsSorted sock _ p.client_map v.sorted;
          bounds = v.bounds;
          flowing =
              update-AreFlowing epoll reading p.flow_control_high p.flow_control_low sock _
                p.client_map p.server (disable_read sock p.server)
                (λ d found. record {
                  restruct = (v.flowing sock d found).restruct;
                  agrees = flag-disable sock p.server _ (v.flowing sock c at_sock).agrees;
                  full = λ _. refl;
                  drained =
                      not-below n p.flow_control_high p.flow_control_low c.enable_read false
                        v.bounds e;
                })
                (λ j h. flag-disable_ne sock j p.server h) v.flowing;
        })
        | inr e ↦ rw e (record {
          sorted = update-IsSorted sock _ p.client_map v.sorted;
          bounds = v.bounds;
          flowing =
              update-AreFlowing epoll reading p.flow_control_high p.flow_control_low sock _
                p.client_map p.server p.server
                (λ d found.
                  let (_, flag) = same_client sock c d p at_sock found in
                  let was = v.flowing sock d found in
                  record {
                    restruct = was.restruct;
                    agrees = was.agrees;
                    full = λ high. sym flag ∙ and-flag _ c.enable_read e high;
                    drained = λ low.
                        sym flag
                        ∙ (v.flowing sock c at_sock).drained
                            (below-add c.frame_count count p.flow_control_low low);
                  })
                (λ j h. refl) v.flowing;
        })
      ]

  pub increase_frame_count-IsValid :
      (sock count : ℕ) (p : RecvDataProc State)
      → IsValid p
      → IsValid (increase_frame_count epoll sock count p).1
  unfolding increase_frame_count
  increase_frame_count-IsValid sock count p v = elim (Option-cases (find sock p.client_map)) [
    | inl e ↦ rw (e, increase_frame_count) v
    | inr (c, e) ↦ rw (e, increase_frame_count) (increase_at-IsValid sock count c p v e)
  ]

  -- Both branches of `DecreaseFrameCount` at a client.
  decrease_at-IsValid :
      (sock : ℕ) (c : ClientInfo) (p : RecvDataProc State)
      → IsValid p
      → find sock p.client_map ≡ some c
      → IsValid (decrease_at epoll sock c p).1
  unfolding decrease_at
  decrease_at-IsValid sock c p v at_sock =
      let n = pred_ℤ c.frame_count in
      elim (Bool-cases (below_ℕ n p.flow_control_low && not c.enable_read)) [
        | inl e ↦ rw e (record {
          sorted = update-IsSorted sock _ p.client_map v.sorted;
          bounds = v.bounds;
          flowing =
              update-AreFlowing epoll reading p.flow_control_high p.flow_control_low sock _
                p.client_map p.server (enable_read sock p.server)
                (λ d found. record {
                  restruct = (v.flowing sock d found).restruct;
                  agrees = flag-enable sock p.server _ (v.flowing sock c at_sock).agrees;
                  full =
                      not-exceeds n p.flow_control_high p.flow_control_low c.enable_read true
                        v.bounds e;
                  drained = λ _. refl;
                })
                (λ j h. flag-enable_ne sock j p.server h) v.flowing;
        })
        | inr e ↦ rw e (record {
          sorted = update-IsSorted sock _ p.client_map v.sorted;
          bounds = v.bounds;
          flowing =
              update-AreFlowing epoll reading p.flow_control_high p.flow_control_low sock _
                p.client_map p.server p.server
                (λ d found.
                  let (_, flag) = same_client sock c d p at_sock found in
                  let was = v.flowing sock d found in
                  record {
                    restruct = was.restruct;
                    agrees = was.agrees;
                    full = λ high.
                        sym flag
                        ∙ (v.flowing sock c at_sock).full
                            (exceeds-pred c.frame_count p.flow_control_high high);
                    drained = λ low. sym flag ∙ and-not_flag _ c.enable_read e low;
                  })
                (λ j h. refl) v.flowing;
        })
      ]

  pub decrease_frame_count-IsValid :
      (sock : ℕ) (p : RecvDataProc State)
      → IsValid p
      → IsValid (decrease_frame_count epoll sock p).1
  unfolding decrease_frame_count
  decrease_frame_count-IsValid sock p v = elim (Option-cases (find sock p.client_map)) [
    | inl e ↦ rw (e, decrease_frame_count) v
    | inr (c, e) ↦ rw (e, decrease_frame_count) (decrease_at-IsValid sock c p v e)
  ]
