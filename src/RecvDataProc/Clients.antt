-- ===== src/RecvDataProc/Clients.antt =====
-- The clients of `CRecvDataProc` between two steps, under flow control, and the changes of one
-- client.
use cmdtran.Common.{
  ℕ, ◌≤◌, ◌≡◌, ◌≢◌, sym, subst, ◌∙◌, Bool, Option, true, false, not, ◌&&◌, none, some, List, inl,
  inr, arith, Option-cases, ℕ_discrete,
}
use mathlib.Core.Option.{some-injective, none-ne-some}
use cmdtran.Common.Int.{ℤ, add_ℕ, pred_ℤ, exceeds_ℕ, below_ℕ}
use cmdtran.Common.Map.{
  find, insert, erase, update, IsSorted, find-insert_new, find-insert_ne, find-insert_old,
  find-erase_self, find-erase_ne, find-update_self, find-update_ne, find-update-none,
}
use cmdtran.FrameRestruct.Deliver
use cmdtran.RecvDataProc.{ClientInfo}
use cmdtran.RecvDataProc.Server.{EpollServer, Reading}

-- Reading is off above the upper bound and on below the lower one, and the epoll server has the same flag.
pub record IsFlowing (high low : ℕ) (reading : Option Bool) (c : ClientInfo) : Type 0 where
  pub restruct : Deliver.IsValid c.frame_restruct
  pub agrees : reading ≡ some c.enable_read
  pub full : exceeds_ℕ c.frame_count high ≡ true → c.enable_read ≡ false
  pub drained : below_ℕ c.frame_count low ≡ true → c.enable_read ≡ true

pub below-add : (a : ℤ) (n low : ℕ) → below_ℕ (add_ℕ a n) low ≡ true → below_ℕ a low ≡ true
below-add a n low h = ground arith

pub exceeds-pred : (a : ℤ) (high : ℕ) → exceeds_ℕ (pred_ℤ a) high ≡ true → exceeds_ℕ a high ≡ true
exceeds-pred a high h = ground arith

pub exceeds-below :
    (a : ℤ) (high low : ℕ) → low ≤ high → exceeds_ℕ a high ≡ true → below_ℕ a low ≡ false
exceeds-below a high low h e = ground arith

pub and-flag : (a b : Bool) → (a && b) ≡ false → a ≡ true → b ≡ false
and-flag a b h e = ground arith

pub and-not_flag : (a b : Bool) → (a && not b) ≡ false → a ≡ true → b ≡ true
and-not_flag a b h e = ground arith

pub not-below :
    (a : ℤ) (high low : ℕ) (b c : Bool)
    → low ≤ high
    → (exceeds_ℕ a high && b) ≡ true
    → below_ℕ a low ≡ true
    → c ≡ true
not-below a high low b c h e low_a = ground arith

pub not-exceeds :
    (a : ℤ) (high low : ℕ) (b c : Bool)
    → low ≤ high
    → (below_ℕ a low && not b) ≡ true
    → exceeds_ℕ a high ≡ true
    → c ≡ false
not-exceeds a high low b c h e high_a = ground arith

module _ (epoll : EpollServer) (reading : Reading epoll) (high low : ℕ) where
  open epoll use {State}
  open reading use {flag}

  abbrev pub AreFlowing : List (ℕ × ClientInfo) → State → Type 0
  AreFlowing m s = (k : ℕ) (c : ClientInfo) → find k m ≡ some c → IsFlowing high low (flag k s) c

  pub update-AreFlowing :
      (k : ℕ) (f : ClientInfo → ClientInfo) (m : List (ℕ × ClientInfo)) (s s' : State)
      → ((c : ClientInfo) → find k m ≡ some c → IsFlowing high low (flag k s') (f c))
      → ((j : ℕ) → k ≢ j → flag j s' ≡ flag j s)
      → AreFlowing m s
      → AreFlowing (update k f m) s'
  update-AreFlowing k f m s s' here others all j c e = elim (ℕ_discrete k j) [
    | yes same ↦
        subst (λ j. find j (update k f m) ≡ some c → IsFlowing high low (flag j s') c) same
          (λ found. elim (Option-cases (find k m)) [
            | inl out ↦ absurd (none-ne-some c (sym (find-update-none k f m out) ∙ found))
            | inr (d, at_k) ↦
                subst (IsFlowing high low (flag k s'))
                  (some-injective (f d) c (sym (find-update_self k f m d at_k) ∙ found))
                  (here d at_k)
          ])
          e
    | no other ↦ rw (others j other) (all j c (sym (find-update_ne k j f m other) ∙ e))
  ]

  -- A client that is changed in neither its count nor its flag.
  pub update_kept :
      (k : ℕ) (f : ClientInfo → ClientInfo) (m : List (ℕ × ClientInfo)) (s s' : State)
      → ((c : ClientInfo) → IsFlowing high low (flag k s) c → IsFlowing high low (flag k s) (f c))
      → ((j : ℕ) → flag j s' ≡ flag j s)
      → AreFlowing m s
      → AreFlowing (update k f m) s'
  update_kept k f m s s' keeps same all =
      update-AreFlowing k f m s s' (λ c e. rw (same k) (keeps c (all k c e))) (λ j h. same j) all

  pub insert-AreFlowing :
      (k : ℕ) (c : ClientInfo) (m : List (ℕ × ClientInfo)) (s : State)
      → IsSorted m
      → IsFlowing high low (flag k s) c
      → AreFlowing m s
      → AreFlowing (insert k c m) s
  insert-AreFlowing k c m s sorted here all j d e = elim (ℕ_discrete k j) [
    | yes same ↦ elim (Option-cases (find k m)) [
      | inl new ↦
          subst (λ j. find j (insert k c m) ≡ some d → IsFlowing high low (flag j s) d) same
            (λ found.
              subst (IsFlowing high low (flag k s))
                (some-injective c d (sym (find-insert_new k c m sorted new) ∙ found)) here)
            e
      | inr (b, old) ↦ all j d (sym (find-insert_old k c m j b sorted old) ∙ e)
    ]
    | no other ↦ all j d (sym (find-insert_ne k j c m other) ∙ e)
  ]

  pub erase-AreFlowing :
      (k : ℕ) (m : List (ℕ × ClientInfo)) (s s' : State)
      → IsSorted m
      → ((j : ℕ) → k ≢ j → flag j s' ≡ flag j s)
      → AreFlowing m s
      → AreFlowing (erase k m) s'
  erase-AreFlowing k m s s' sorted others all j c e = elim (ℕ_discrete k j) [
    | yes same ↦ absurd (
        none-ne-some c
          (sym (subst (λ j. find j (erase k m) ≡ none) same (find-erase_self k m sorted)) ∙ e))
    | no other ↦ rw (others j other) (all j c (sym (find-erase_ne k j m other) ∙ e))
  ]
