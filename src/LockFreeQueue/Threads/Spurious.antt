-- ===== src/LockFreeQueue/Threads/Spurious.antt =====
-- `Push` of `CLockFreeQueue` that reads its two indices at different times.
use cmdtran.Common.{
  subst, false, ◌≤◌, ℕ, zero, suc, ◌+◌, ◌^◌, ◌<◌, ◌≡◌, refl, true, arith, length, ◌∙◌, ap, sym,
}
use cmdtran.LockFreeQueue.{LockFreeQueue, push, pop}
use cmdtran.LockFreeQueue.Threads.{
  Pc, Memory, System, Reach, Step, go_on, call_push, call_pop, moved, access, push_begin, pop_begin,
  pushed, push_test, rests,
}
use cmdtran.LockFreeQueue.Threads.Alone.{alone, alone-push, alone-pop}
use cmdtran.LockFreeQueue.Threads.Invariant.{count_limit}
use cmdtran.LockFreeQueue.Threads.Reached.{Reach-Inv}

module _ {A : Type 0} where
  -- No more than one element is in the queue or under way, and the first thread is inside a call.
  pub record Near (s : System A) : Type 0 where
    pub few : s.memory.queue.write_index ≤ s.memory.queue.read_index + 1
    pub calling : rests (s.pc 0) ≡ false

  -- Steps of the threads from one state to another, with that in all states.
  pub data During (n : ℕ) (s : System A) : System A → Type 0 where
    stay : Near s → During n s s
    next : {t u : System A} → During n s t → Step n t u → Near u → During n s u

  -- The second thread goes on alone, with `k` accesses from memory `m`.
  record After (n : ℕ) (k : ℕ) (s₀ s : System A) (m : Memory A) (p : Pc A) : Type 0 where
    state : System A
    during : During n s₀ state
    memory : state.memory ≡ (alone k m p).0
    own : state.pc 1 ≡ (alone k m p).1
    first : state.pc 0 ≡ s.pc 0

  During-alone :
      {n : ℕ} (k : ℕ) (s₀ s : System A) (m : Memory A) (p : Pc A)
      → 1 < n
      → During n s₀ s
      → rests (s.pc 0) ≡ false
      → s.memory ≡ m
      → s.pc 1 ≡ p
      → ((j : ℕ) → j ≤ k → (alone j m p).0.queue.write_index ≤ (alone j m p).0.queue.read_index + 1)
      → After n k s₀ s m p
  During-alone zero s₀ s m p h r calling e f few = record {
    state = s;
    during = r;
    memory = e;
    own = f;
    first = refl;
  }
  During-alone (suc k) s₀ s m p h r calling e f few =
      let u = moved s 1 (access (s.pc 1) s.memory) in
      let here : u.memory ≡ (access p m).0 = rw (e, f) refl in
      let near : Near u = record {
        few =
            subst (λ (x : Memory A). x.queue.write_index ≤ x.queue.read_index + 1) (sym here)
              (few 1 (omega arith));
        calling = calling;
      } in
      let a =
        During-alone k s₀ u (access p m).0 (access p m).1 h (next r (go_on 1 h) near) calling here
          (rw (e, f) refl) (λ j l. few (suc j) (omega arith)) in
      record { state = a.state; during = a.during; memory = a.memory; own = a.own; first = a.first }

  -- A `Push` to an empty queue and a `Pop` behind it never leave more than one element.
  push-few :
      (x : A) (m : Memory A) (k : ℕ)
      → m.queue.read_index ≡ m.queue.maximum_read_index
      → m.queue.maximum_read_index ≡ m.queue.write_index
      → m.queue.write_index + 1 < 2 ^ 32
      → k ≤ 6
      → (alone k m (push_begin x)).0.queue.write_index
        ≤ (alone k m (push_begin x)).0.queue.read_index + 1
  unfolding access
  push-few x m zero e f b h = ground arith
  push-few x m (suc zero) e f b h = ground arith
  push-few x m (suc (suc zero)) e f b h = ground arith
  push-few x m (suc (suc (suc zero))) e f b h = ground arith
  push-few x m (suc (suc (suc (suc zero)))) e f b h = ground arith
  push-few x m (suc (suc (suc (suc (suc zero))))) e f b h = ground arith
  push-few x m (suc (suc (suc (suc (suc (suc zero)))))) e f b h = ground arith
  push-few x m (suc (suc (suc (suc (suc (suc (suc k))))))) e f b h = absurd (omega arith)

  pop-few :
      (m : Memory A) (k : ℕ)
      → m.queue.write_index ≡ m.queue.read_index + 1
      → m.queue.read_index + 1 < 2 ^ 32
      → k ≤ 5
      → (alone k m pop_begin).0.queue.write_index ≤ (alone k m pop_begin).0.queue.read_index + 1
  unfolding access
  pop-few m zero e b h = ground arith
  pop-few m (suc zero) e b h = ground arith
  pop-few m (suc (suc zero)) e b h = ground arith
  pop-few m (suc (suc (suc zero))) e b h = ground arith
  pop-few m (suc (suc (suc (suc zero)))) e b h = ground arith
  pop-few m (suc (suc (suc (suc (suc zero))))) e b h = ground arith
  pop-few m (suc (suc (suc (suc (suc (suc k)))))) e b h = absurd (omega arith)

  push-empty :
      (x : A) (q : LockFreeQueue A)
      → q.read_index ≡ q.write_index
      → q.write_index + 1 < 2 ^ 32
      → ((push x q).1.read_index ≡ q.read_index)
        × ((push x q).1.write_index ≡ q.write_index + 1)
        × ((push x q).1.maximum_read_index ≡ q.write_index + 1)
  unfolding push
  push-empty x q e h = ground arith

  pop-one :
      (q : LockFreeQueue A)
      → q.maximum_read_index ≡ q.read_index + 1
      → q.read_index + 1 < 2 ^ 32
      → ((pop q).1.read_index ≡ q.read_index + 1) × ((pop q).1.write_index ≡ q.write_index)
  unfolding pop
  pop-one q e h = ground arith

  push_test-passed :
      (x : A) (w : ℕ) (m : Memory A)
      → m.queue.read_index ≡ w + 1
      → w + 1 < 2 ^ 32
      → access (push_test x w) m ≡ (m, pushed false)
  unfolding access
  push_test-passed x w m e h = ground arith

  -- The late test of the first thread.
  late-test :
      {n : ℕ} (x : A) (w : ℕ) (s : System A)
      → 0 < n
      → s.pc 0 ≡ push_test x w
      → s.memory.queue.read_index ≡ w + 1
      → s.memory.queue.write_index ≡ w + 1
      → w + 1 < 2 ^ 32
      → (u : System A) × Step n s u
        × (u.pc 0 ≡ pushed false)
        × (u.memory.queue.read_index ≡ u.memory.queue.write_index)
  late-test x w s h behind read write small =
      let passed = push_test-passed x w s.memory read small in
      (
        moved s 0 (access (s.pc 0) s.memory),
        go_on 0 h,
        rw (behind, passed) refl,
        rw (behind, passed) (read ∙ sym write),
      )

  -- The first thread has called `Push` on an empty queue and read its write index, and the second one
  -- calls `Push`.
  During-start :
      {n : ℕ} (x y : A) (s : System A)
      → 1 < n
      → rests (s.pc 1) ≡ true
      → s.memory.queue.read_index ≡ s.memory.queue.write_index
      → During n (moved s 0 (s.memory, push_begin x)) (
          moved
            (moved
              (moved s 0 (s.memory, push_begin x))
              0
              (s.memory, push_test x s.memory.queue.write_index))
            1
            (s.memory, push_begin y))
  unfolding access
  During-start x y s two rest e =
      let few : s.memory.queue.write_index ≤ s.memory.queue.read_index + 1 = omega (arith, e) in
      next
        (next (stay (record { few = few; calling = refl })) (go_on 0 (omega arith))
          (record { few = few; calling = refl }))
        (call_push 1 y two rest) (record { few = few; calling = refl })

  -- From every state that two threads or more reach with fewer than 2 ^ 32 - 2 places reserved, in
  -- which the first two are outside of `Push` and `Pop`, the read index, the maximum read index
  -- and the write index are the same: the first thread may call `Push`, and from that call on the
  -- threads may take steps to its return of false such that in all states between the first thread
  -- is inside the call and the write index is at most one ahead of the read index, so that there
  -- is never more than one element in the queue or under way; and the queue is empty at the
  -- return.
  pub push-spurious :
      {n : ℕ} {garbage : ℕ → A} (x y : A) (s : System A)
      → Reach n garbage s
      → length s.memory.reserved < count_limit
      → 1 < n
      → rests (s.pc 0) ≡ true
      → rests (s.pc 1) ≡ true
      → s.memory.queue.read_index ≡ s.memory.queue.maximum_read_index
      → s.memory.queue.maximum_read_index ≡ s.memory.queue.write_index
      → let called = moved s 0 (s.memory, push_begin x) in
        (t u : System A) × Step n s called
        × During n called t
        × Step n t u
        × (u.pc 0 ≡ pushed false)
        × (u.memory.queue.read_index ≡ u.memory.queue.write_index)
  push-spurious {n} {garbage} x y s r b two rest0 rest1 e f =
      let inv = Reach-Inv r b in
      let w = s.memory.queue.write_index in
      let small : w + 1 < 2 ^ 32 = omega (arith, inv.few, inv.write) in
      let called = moved s 0 (s.memory, push_begin x) in
      let s3 = moved (moved called 0 (s.memory, push_test x w)) 1 (s.memory, push_begin y) in
      let a =
        During-alone 6 called s3 s.memory (push_begin y) two (During-start x y s two rest1 (e ∙ f))
          refl refl refl (λ j h. push-few y s.memory j e f small h) in
      let t1 = a.state in
      let first : t1.memory.queue ≡ (push y s.memory.queue).1 =
        ap (λ (m : Memory A). m.queue) a.memory ∙ (alone-push y s.memory f).0 in
      let filled = push-empty y s.memory.queue (omega (arith, e, f)) small in
      let read1 : t1.memory.queue.read_index ≡ w = rw first (omega (arith, filled, e, f)) in
      let write1 : t1.memory.queue.write_index ≡ w + 1 = rw first (omega (arith, filled, e, f)) in
      let t2 = moved t1 1 (t1.memory, pop_begin) in
      let c =
        During-alone 5 called t2 t1.memory pop_begin two
          (next a.during (call_pop 1 two (rw (a.own, (alone-push y s.memory f).1) refl))
            (record { few = omega (arith, read1, write1); calling = rw (a.first) refl }))
          (rw (a.first) refl) refl refl
          (λ j h.
            pop-few t1.memory j (omega (arith, read1, write1)) (omega (arith, read1, small)) h) in
      let t3 = c.state in
      let second : t3.memory.queue ≡ (pop (push y s.memory.queue).1).1 =
        ap (λ (m : Memory A). m.queue) c.memory
        ∙ (alone-pop t1.memory).0
        ∙ ap (λ (q : LockFreeQueue A). (pop q).1) first in
      let emptied =
        pop-one (push y s.memory.queue).1 (omega (arith, filled, e, f))
          (omega (arith, filled, e, f, small)) in
      let read : t3.memory.queue.read_index ≡ w + 1 =
        rw second (omega (arith, filled, emptied, e, f)) in
      let write : t3.memory.queue.write_index ≡ w + 1 =
        rw second (omega (arith, filled, emptied, e, f)) in
      let (u, step, refused, empty) =
        late-test x w t3 (omega arith) (c.first ∙ a.first) read write small in
      (t3, u, call_push 0 x (omega arith) rest0, c.during, step, refused, empty)
