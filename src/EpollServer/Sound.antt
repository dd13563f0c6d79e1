-- ===== src/EpollServer/Sound.antt =====
-- What holds of the epoll server between two calls: the chains, the pool that has lent their blocks,
-- and the send threads.
use mathlib.Core.List.{Perm, Permᴰ, perm_append_comm}
use mathlib.Core.List.Perm
use mathlib.Core.Option.{some-injective, none-ne-some}
use mathlib.Core.Logic.{∥∥₁_elim}
use cmdtran.Common.{
  ℕ, suc, ◌≡◌, ◌≢◌, refl, sym, ap, ◌∙◌, subst, some, List, [], ◌∷◌, ◌++◌, length, append_assoc,
  arith, ◌==◌, Bool-cases, Option-cases, inl, inr, ==→eq, ℕ_discrete,
}
use cmdtran.Common.Map.{
  find, erase, update, IsSorted, update-IsSorted, erase-IsSorted, find-update_self, find-update_ne,
  find-update-none, find-erase_self, find-erase_ne,
}
use cmdtran.MemPool.{MemPool}
use cmdtran.MemPool.Lending
use cmdtran.MasterWorkPool.Order
use cmdtran.MemChain.{MemNode}
use cmdtran.MemChain.Linked.{IsChain}
use cmdtran.EpollServer.{EpollServer, SocketInformation, remove_socket}
use cmdtran.EpollServer.Remove.{blocks, remove_socket-Drained}

-- The nodes of the chain of each socket.
abbrev pub Chains : Type 0
Chains = ℕ → List (ℕ × MemNode)

abbrev pub all_blocks : Chains → List (ℕ × SocketInformation) → List ℕ
all_blocks chains [] = []
all_blocks chains ((k, s) ∷ m) = blocks (chains k) ++ all_blocks chains m

pub record IsSound {K : Type 0} (e : EpollServer K) (n : ℕ) (chains : Chains) : Type 0 where
  pub sorted : IsSorted e.socket_info
  pub chained :
      (k : ℕ) (s : SocketInformation)
      → find k e.socket_info ≡ some s
      → IsChain s.output_chain (chains k)
  pub pool : Lending.IsValid e.send_data_mem (all_blocks chains e.socket_info)
  pub threads : Order.IsValid n e.send_thread_manager

length-Permᴰ : {xs ys : List ℕ} → Permᴰ xs ys → length xs ≡ length ys
length-Permᴰ Permᴰ.nil = refl
length-Permᴰ (Permᴰ.cons e p) = ap suc (length-Permᴰ p)
length-Permᴰ (Permᴰ.swap e f) = refl
length-Permᴰ (Permᴰ.trans p q) = length-Permᴰ p ∙ length-Permᴰ q

length-Perm : (xs ys : List ℕ) → Perm xs ys → length xs ≡ length ys
length-Perm xs ys p = ∥∥₁_elim p (hlevel) length-Permᴰ

-- What a pool has lent has no order.
pub lent-Perm :
    (pool : MemPool) (xs ys : List ℕ)
    → Perm ys xs
    → Lending.IsValid pool xs
    → Lending.IsValid pool ys
lent-Perm pool xs ys p v = record {
  queue = v.queue;
  accounts = Perm.trans (Perm.append_left _ p) v.accounts;
  all = omega (arith, v.all, length-Perm ys xs p);
  counted = v.counted;
  grown = v.grown;
  some_growth = v.some_growth;
  growth = v.growth;
  created = v.created;
  room = v.room;
}

pub Perm-swap : (xs ys zs : List ℕ) → Perm (xs ++ (ys ++ zs)) (ys ++ (xs ++ zs))
Perm-swap xs ys zs =
    rw (sym (append_assoc xs ys zs), sym (append_assoc ys xs zs))
      (Perm.append_right zs (perm_append_comm xs ys))

-- The blocks of one socket and those of the others.
pub all_blocks-erase :
    (chains : Chains) (k : ℕ) (s : SocketInformation) (m : List (ℕ × SocketInformation))
    → find k m ≡ some s
    → Perm (blocks (chains k) ++ all_blocks chains (erase k m)) (all_blocks chains m)
unfolding find erase
all_blocks-erase chains k s [] there = cc
all_blocks-erase chains k s ((j, t) ∷ m) there = elim (Bool-cases (j == k)) [
  | inl same ↦ rw same (rw (==→eq j k same) (Perm.refl (blocks (chains k) ++ all_blocks chains m)))
  | inr other ↦ rw other (
      Perm.trans (Perm-swap (blocks (chains k)) (blocks (chains j)) (all_blocks chains (erase k m)))
        (Perm.append_left (blocks (chains j))
          (all_blocks-erase chains k s m (ground (arith, there)))))
]

pub all_blocks-update :
    (chains : Chains) (k : ℕ) (f : SocketInformation → SocketInformation)
    (m : List (ℕ × SocketInformation))
    → all_blocks chains (update k f m) ≡ all_blocks chains m
unfolding update
all_blocks-update chains k f [] = refl
all_blocks-update chains k f ((j, t) ∷ m) = ground (arith, all_blocks-update chains k f m)

-- A map with a value for one key changed.
pub find-update_all :
    {V : Type 0} (P : ℕ → V → Type 0) (k : ℕ) (f : V → V) (m : List (ℕ × V))
    → ((s : V) → P k s → P k (f s))
    → ((j : ℕ) (s : V) → find j m ≡ some s → P j s)
    → (j : ℕ) (s : V) → find j (update k f m) ≡ some s
    → P j s
find-update_all P k f m keep h j s found = elim (ℕ_discrete k j) [
  | yes same ↦
      subst (λ (j : ℕ). find j (update k f m) ≡ some s → P j s) same
        (λ at_k. elim (Option-cases (find k m)) [
          | inl out ↦ absurd (none-ne-some s (sym (find-update-none k f m out) ∙ at_k))
          | inr (t, there) ↦
              subst (P k) (some-injective (f t) s (sym (find-update_self k f m t there) ∙ at_k))
                (keep t (h k t there))
        ])
        found
  | no other ↦ h j s (sym (find-update_ne k j f m other) ∙ found)
]

module _ {K : Type 0} {n : ℕ} {chains : Chains} {e : EpollServer K} (v : IsSound e n chains) where
  -- A change of a socket that leaves its chain.
  pub update-IsSound :
      (k : K) (sock : ℕ) (f : SocketInformation → SocketInformation)
      → ((s : SocketInformation) → (f s).output_chain ≡ s.output_chain)
      → IsSound (record e { socket_info = update sock f e.socket_info; kernel = k }) n chains
  update-IsSound k sock f same = record {
    sorted = update-IsSorted sock f e.socket_info v.sorted;
    chained =
        find-update_all (λ j s. IsChain s.output_chain (chains j)) sock f e.socket_info
          (λ s was. rw (same s) was) v.chained;
    pool = rw (all_blocks-update chains sock f e.socket_info) v.pool;
    threads = v.threads;
  }

  pub kernel-IsSound : (k : K) → IsSound (record e { kernel = k }) n chains
  kernel-IsSound k = record {
    sorted = v.sorted;
    chained = v.chained;
    pool = v.pool;
    threads = v.threads;
  }

  erased-chained :
      (sock k : ℕ) (s : SocketInformation)
      → find k (erase sock e.socket_info) ≡ some s
      → IsChain s.output_chain (chains k)
  erased-chained sock k s found = elim (ℕ_discrete sock k) [
    | yes same ↦ absurd (
        none-ne-some s (
          sym (find-erase_self sock e.socket_info v.sorted)
          ∙ ap (λ (k : ℕ). find k (erase sock e.socket_info)) same
          ∙ found))
    | no other ↦ v.chained k s (sym (find-erase_ne sock k e.socket_info other) ∙ found)
  ]

  -- `RemoveSocket` returns, and leaves the other sockets and their blocks.
  pub remove_socket-IsSound :
      (sock : ℕ)
      → (e' : EpollServer K) × (remove_socket sock e ≡ some e')
        × IsSound e' n chains
        × ((j : ℕ) → sock ≢ j → find j e'.socket_info ≡ find j e.socket_info)
  unfolding remove_socket
  remove_socket-IsSound sock = elim (Option-cases (find sock e.socket_info)) [
    | inl out ↦ (e, rw (out, remove_socket) refl, v, λ j h. refl)
    | inr (s, there) ↦
        let (e', ends, d) =
          remove_socket-Drained sock s (chains sock) (all_blocks chains (erase sock e.socket_info))
            e there (v.chained sock s there)
            (lent-Perm e.send_data_mem (all_blocks chains e.socket_info)
              (blocks (chains sock) ++ all_blocks chains (erase sock e.socket_info))
              (all_blocks-erase chains sock s e.socket_info there) v.pool) in
        (
          e',
          ends,
          record {
            sorted = rw (d.sockets) (erase-IsSorted sock e.socket_info v.sorted);
            chained = rw (d.sockets) (erased-chained sock);
            pool = rw (d.sockets) d.pool;
            threads = rw (d.threads) v.threads;
          },
          λ j h. rw (d.sockets) (find-erase_ne sock j e.socket_info h),
        )
  ]
