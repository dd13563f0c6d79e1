-- ===== src/RecvDataProc/Service.antt =====
-- The part of `CRecvDataProc` that serves `CFrameRestruct`: the pool of frame blocks, their
-- memory, and the workers that process frames.
use cmdtran.Common.{
  inl, inr, ℕ, ◌+◌, ◌*◌, ◌≡◌, refl, ap, ap₂, sym, ◌∙◌, Bool, Option, none, some, List, ◌++◌, length,
  take, drop, ◌==◌, if◌then◌else◌, arith, fun_ext, take-append_ge, drop-append_ge, drop-drop,
  append_assoc, append-nil, Bool-cases, length-append, ap,
}
use cmdtran.MemPool.{MemPool, creat_pool, get_block, free_block}
use cmdtran.MemPool
use cmdtran.MasterWorkPool.{MasterWorkPool, add_task}
use cmdtran.MasterWorkPool
use cmdtran.FrameRestruct.Interface.{DataProc}

abbrev pub mem_pool_block_size : ℕ
mem_pool_block_size = 1024 + 128

-- `CFrameProcTask`.
pub record FrameProcTask : Type 0 where
  pub sock : ℕ
  pub frame : ℕ
  pub frame_len : ℕ

-- `memory` has the bytes of each block; `workers` is `none` when a call of the worker pool has ended
-- the program.
pub record Backend : Type 0 where
  pub recv_frame_mp : MemPool
  pub memory : ℕ → List ℕ
  pub recv_frame_proc_tm : Option (MasterWorkPool FrameProcTask)

-- The calls in `CRecvDataProc::Init`, with the answers of `pthread_create` for the four workers.
unfoldable pub init : (created : ℕ → Bool) → (ℕ → ℕ) → (ℕ → List ℕ) → Backend
init created garbage memory = record {
  recv_frame_mp =
      (creat_pool mem_pool_block_size (1024 * 300) (1024 * 10) (MemPool.init garbage)).1;
  memory = memory;
  recv_frame_proc_tm = some (MasterWorkPool.init_pool 4 created MasterWorkPool.init);
}

unfoldable pub get_buff : Backend → Option ℕ × Backend
get_buff b =
    let (block, pool) = get_block b.recv_frame_mp in (block, record b { recv_frame_mp = pool })

unfoldable pub free_buff : ℕ → Backend → Backend
free_buff buff b = record b { recv_frame_mp = (free_block buff b.recv_frame_mp).1 }

unfoldable pub add_frame_proc_task : ℕ → ℕ → ℕ → Backend → Backend
add_frame_proc_task sock frame len b = record b {
  recv_frame_proc_tm = elim b.recv_frame_proc_tm [
    | none ↦ none
    | some tm ↦ add_task sock (record { sock = sock; frame = frame; frame_len = len }) tm
  ];
}

-- `memcpy` to an offset of a block.
abbrev pub overwrite : List ℕ → ℕ → List ℕ → List ℕ
overwrite block offset bytes = take offset block ++ (bytes ++ drop (offset + length bytes) block)

unfoldable pub write : ℕ → ℕ → List ℕ → Backend → Backend
write p offset bytes b = record b {
  memory = λ q. if q == p then overwrite (b.memory q) offset bytes else b.memory q;
}

overwrite-overwrite :
    (block xs ys : List ℕ)
    → overwrite (overwrite block 0 xs) (length xs) ys ≡ overwrite block 0 (xs ++ ys)
overwrite-overwrite block xs ys =
    let rest : List ℕ = drop (0 + length xs) block in
    let before : take (length xs) (xs ++ rest) ≡ xs =
      take-append_ge (length xs) 0 xs rest (omega arith) ∙ append-nil xs in
    let behind : drop (length xs + length ys) (xs ++ rest) ≡ drop (0 + length (xs ++ ys)) block =
      drop-append_ge (length xs + length ys) (length ys) xs rest refl
      ∙ drop-drop (0 + length xs) (length ys) (0 + length (xs ++ ys)) block
          (omega (arith, length-append xs ys)) in
    ap₂ (λ (us vs : List ℕ). us ++ (ys ++ vs)) before behind
    ∙ sym (append_assoc xs ys (drop (0 + length (xs ++ ys)) block))

pub write-write :
    (p : ℕ) (xs ys : List ℕ) (b : Backend)
    → write p (length xs) ys (write p 0 xs b) ≡ write p 0 (xs ++ ys) b
unfolding write
write-write p xs ys b =
    ap (λ (m : ℕ → List ℕ). record b { memory = m })
      (fun_ext λ q. elim (Bool-cases (q == p)) [
        | inl e ↦ rw e (overwrite-overwrite (b.memory q) xs ys)
        | inr e ↦ rw e
      ])

-- `CRecvDataProc` as `CFrameRestruct` sees it.
abbrev pub backend : DataProc
backend = record {
  State = Backend;
  get_buff = get_buff;
  free_buff = free_buff;
  write = write;
  add_frame_proc_task = add_frame_proc_task;
  write-write = write-write;
}
