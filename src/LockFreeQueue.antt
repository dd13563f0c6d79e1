-- ===== src/LockFreeQueue.antt =====
-- ComandTran/inc/LockFreeQueue.h: the class template `CLockFreeQueue`, a ring of cells under three
-- 32-bit counters. The functions below are the runs of a call that no other thread disturbs: each
-- compare-and-swap finds what was read before and succeeds at once. The accesses of several threads
-- are in Threads.antt.
pub mod Window
pub mod Fifo
pub mod Threads
use cmdtran.Common.{
  ℕ, ◌+◌, ◌-◌, ◌*◌, ◌%◌, ◌^◌, Bool, true, false, Option, none, some, ltb, ◌==◌, if◌then◌else◌,
}

abbrev pub queue_len : ℕ
queue_len = 20 * 1024 * 1024

-- `uint32_t` arithmetic.
abbrev pub u32 : ℕ → ℕ
u32 n = n % 2 ^ 32

-- `cells` is `m_Queue`, which the constructor leaves as it is; `m_QueueLen` is `queue_len` throughout.
pub record LockFreeQueue {ℓ} (A : Type ℓ) : Type ℓ where
  pub cells : ℕ → A
  pub write_index : ℕ
  pub read_index : ℕ
  pub maximum_read_index : ℕ
  pub size : ℕ

abbrev pub count_to_index : ℕ → ℕ
count_to_index count = count % queue_len

module _ {ℓ} {A : Type ℓ} where
  unfoldable pub init : (ℕ → A) → LockFreeQueue A
  init garbage = record {
    cells = garbage;
    write_index = 0;
    read_index = 0;
    maximum_read_index = 0;
    size = 0;
  }

  abbrev pub write_cell : (ℕ → A) → ℕ → A → ℕ → A
  write_cell cells i x j = if i == j then x else cells j

  unfoldable pub push : A → LockFreeQueue A → Bool × LockFreeQueue A
  push x q =
      if count_to_index (u32 (q.write_index + 1)) == count_to_index q.read_index
      then (false, q)
      else (
        true,
        record q {
          cells = write_cell q.cells (count_to_index q.write_index) x;
          write_index = u32 (q.write_index + 1);
          maximum_read_index = u32 (q.write_index + 1);
          size = u32 (q.size + 1);
        },
      )

  -- The option is what goes through the reference `data`, where the result is true.
  unfoldable pub pop : LockFreeQueue A → Option A × LockFreeQueue A
  pop q =
      if count_to_index q.read_index == count_to_index q.maximum_read_index then (none, q) else (
        some (q.cells (count_to_index q.read_index)),
        record q { read_index = u32 (q.read_index + 1); size = u32 (q.size + 2 ^ 32 - 1) },
      )

  unfoldable pub is_empty : LockFreeQueue A → Bool
  is_empty q = q.size == 0
