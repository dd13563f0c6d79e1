-- ===== src/LockFreeQueue/Threads/Alone.antt =====
-- A call of `Push` or `Pop` that no other thread disturbs, access by access.
use cmdtran.Common.{ℕ, zero, suc, ◌≡◌, arith}
use cmdtran.LockFreeQueue.{push, pop}
use cmdtran.LockFreeQueue.Threads.{Pc, Memory, access, push_begin, pop_begin, pushed, popped}

module _ {ℓ} {A : Type ℓ} where
  -- The next accesses of one thread, with nothing between them.
  abbrev pub alone : ℕ → Memory A → Pc A → Memory A × Pc A
  alone zero m p = (m, p)
  alone (suc k) m p = alone k (access p m).0 (access p m).1

  pub alone-push :
      (x : A) (m : Memory A)
      → m.queue.maximum_read_index ≡ m.queue.write_index
      → ((alone 6 m (push_begin x)).0.queue ≡ (push x m.queue).1)
        × ((alone 6 m (push_begin x)).1 ≡ pushed (push x m.queue).0)
  unfolding access push
  alone-push x m e = ground arith

  pub alone-pop :
      (m : Memory A)
      → ((alone 5 m pop_begin).0.queue ≡ (pop m.queue).1)
        × ((alone 5 m pop_begin).1 ≡ popped (pop m.queue).0)
  unfolding access pop
  alone-pop m = ground arith
