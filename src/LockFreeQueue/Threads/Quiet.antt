-- ===== src/LockFreeQueue/Threads/Quiet.antt =====
-- The queue at a moment when no thread is inside `Push` or `Pop`.
use cmdtran.Common.{
  ℕ, zero, suc, ◌+◌, ◌≤◌, ◌<◌, ◌≡◌, ap, ap₂, ◌∙◌, sym, true, some, List, [], ◌∷◌, ◌++◌, length,
  get_elem?, drop, drop-all, take-append-drop, arith, dec_lt,
}
use cmdtran.LockFreeQueue.{count_to_index}
use cmdtran.LockFreeQueue.Window.{window}
use cmdtran.LockFreeQueue.Fifo.{contents}
use cmdtran.LockFreeQueue.Threads.{Pc, System, Reach, rests}
use cmdtran.LockFreeQueue.Threads.Family.{sum_below-zero}
use cmdtran.LockFreeQueue.Threads.Invariant.{count_limit, place, to_add, to_sub}
use cmdtran.LockFreeQueue.Threads.Reached.{Reach-Inv}

module _ {A : Type 0} where
  drop-get_elem? :
      (xs : List A) (k : ℕ) (x : A) → get_elem? xs k ≡ some x → drop k xs ≡ x ∷ drop (suc k) xs
  drop-get_elem? [] k x e = cc
  drop-get_elem? (y ∷ xs) zero x e = cc
  drop-get_elem? (y ∷ xs) (suc k) x e = drop-get_elem? xs k x e

  -- The cells between two counters hold the last elements of a list.
  drop-window :
      (cells : ℕ → A) (xs : List A) (d r : ℕ)
      → r + d ≡ length xs
      → length xs < count_limit
      → ((k : ℕ) → r ≤ k → k < length xs → get_elem? xs k ≡ some (cells (count_to_index k)))
      → drop r xs ≡ window cells r d
  drop-window cells xs zero r e b held = drop-all r xs (omega arith)
  drop-window cells xs (suc d) r e b held =
      drop-get_elem? xs r (cells (count_to_index r)) (held r (omega arith) (omega arith))
      ∙ ap (◌∷◌ (cells (count_to_index r))) (
          drop-window cells xs d (suc r) (omega arith) b (λ k l h. held k (omega arith) h)
          ∙ ap (λ (k : ℕ). window cells k d) (omega arith))

  no_place : (p : Pc A) (k : ℕ) → rests p ≡ true → place p ≡ some k → ⊥
  no_place p k rest held = ground arith

  -- When all threads are outside of `Push` and `Pop`, every place is given to the readers.
  quiet-words :
      {n : ℕ} {garbage : ℕ → A} {s : System A}
      → Reach n garbage s
      → length s.memory.reserved < count_limit
      → ((j : ℕ) → rests (s.pc j) ≡ true)
      → (s.memory.queue.maximum_read_index ≡ s.memory.queue.write_index)
        × (s.memory.queue.read_index + s.memory.queue.size ≡ s.memory.queue.write_index)
  quiet-words {n} {s} r b rest =
      let inv = Reach-Inv r b in
      let given : s.memory.queue.maximum_read_index ≡ s.memory.queue.write_index =
        elim (dec_lt s.memory.queue.maximum_read_index s.memory.queue.write_index) [
          | yes less ↦
              let (j, held) = inv.covered s.memory.queue.maximum_read_index (omega arith) less in
              absurd (no_place (s.pc j) s.memory.queue.maximum_read_index (rest j) held)
          | no all ↦ omega (arith, inv.reached)
        ] in
      (
        given,
        omega (
          arith,
          inv.counted,
          inv.word,
          inv.few,
          inv.write,
          inv.available,
          sum_below-zero to_add n s.pc (λ j. ground (arith, rest j)),
          sum_below-zero to_sub n s.pc (λ j. ground (arith, rest j)),
        ),
      )

  -- In every state that threads reach with fewer than 2 ^ 32 - 1 places reserved, and in which all
  -- threads are outside of `Push` and `Pop`: the elements reserved are those taken and behind them
  -- the contents of the queue, oldest first, and the size is the number of the latter.
  pub reach-quiet :
      {n : ℕ} {garbage : ℕ → A} {s : System A}
      → Reach n garbage s
      → length s.memory.reserved < count_limit
      → ((j : ℕ) → rests (s.pc j) ≡ true)
      → (s.memory.reserved ≡ s.memory.taken ++ contents s.memory.queue)
        × (s.memory.queue.size + length s.memory.taken ≡ length s.memory.reserved)
  reach-quiet {s} r b rest =
      let inv = Reach-Inv r b in
      let (given, sized) = quiet-words r b rest in
      (
        sym (take-append-drop s.memory.queue.read_index s.memory.reserved)
            ∙ ap₂ ◌++◌ (sym inv.order) (
                drop-window s.memory.queue.cells s.memory.reserved s.memory.queue.size
                  s.memory.queue.read_index (omega (arith, inv.write)) b
                  (λ k l h. inv.written k l (omega (arith, inv.write)))),
        omega (arith, inv.write, inv.read),
      )
