-- ===== src/EpollServer/Chained.antt =====
-- The chains of all sockets when one of them has changed.
use mathlib.Core.List.{Perm, perm_middle}
use mathlib.Core.List.Perm
use mathlib.Core.Option.{none-ne-some}
use cmdtran.Common.{
  ℕ, ◌≡◌, ◌≢◌, refl, sym, ap, ap₂, ◌∙◌, subst, Bool, none, some, List, [], ◌∷◌, ◌++◌, append_assoc,
  arith, ◌==◌, if◌then◌else◌, Bool-cases, inl, inr, ==→eq, ==→ne, ℕ_discrete, ltb, eq→==, ne→==,
}
use cmdtran.Common.Map.{find, insert, IsSorted, Above-IsSorted, find-Above}
use cmdtran.MemChain.{MemNode, new_node}
use cmdtran.MemChain.Linked.{IsChain}
use cmdtran.EpollServer.{SocketInformation}
use cmdtran.EpollServer.Remove.{blocks}
use cmdtran.EpollServer.Sound.{Chains, all_blocks}

abbrev pub put_chain : Chains → ℕ → List (ℕ × MemNode) → Chains
put_chain chains sock xs j = if j == sock then xs else chains j

pub put_chain_self :
    (chains : Chains) (sock : ℕ) (xs : List (ℕ × MemNode)) → put_chain chains sock xs sock ≡ xs
put_chain_self chains sock xs = rw (eq→== sock sock refl) refl

pub put_chain_ne :
    (chains : Chains) (sock j : ℕ) (xs : List (ℕ × MemNode))
    → j ≢ sock
    → put_chain chains sock xs j ≡ chains j
put_chain_ne chains sock j xs h = rw (ne→== j sock h) refl

-- The chain of a socket that is not there does not count.
pub all_blocks-put_none :
    (chains : Chains) (sock : ℕ) (xs : List (ℕ × MemNode)) (m : List (ℕ × SocketInformation))
    → find sock m ≡ none
    → all_blocks (put_chain chains sock xs) m ≡ all_blocks chains m
unfolding find
all_blocks-put_none chains sock xs [] out = refl
all_blocks-put_none chains sock xs ((j, s) ∷ m) out = elim (Bool-cases (j == sock)) [
  | inl same ↦ absurd (none-ne-some s (ground arith))
  | inr other ↦
      ap₂ ◌++◌ (ap blocks (put_chain_ne chains sock j xs (==→ne j sock other)))
        (all_blocks-put_none chains sock xs m (ground arith))
]

pub blocks-append :
    (xs : List (ℕ × MemNode)) (a b len : ℕ) (back : Bool)
    → blocks (xs ++ (a, new_node b len back) ∷ []) ≡ blocks xs ++ b ∷ []
blocks-append [] a b len back = refl
blocks-append ((c, n) ∷ xs) a b len back = ground (arith, blocks-append xs a b len back)

-- One more block in the chain of a socket.
pub all_blocks-put :
    (chains : Chains) (sock b : ℕ) (s : SocketInformation) (xs : List (ℕ × MemNode))
    (m : List (ℕ × SocketInformation))
    → IsSorted m
    → find sock m ≡ some s
    → blocks xs ≡ blocks (chains sock) ++ b ∷ []
    → Perm (all_blocks (put_chain chains sock xs) m) (b ∷ all_blocks chains m)
unfolding find
all_blocks-put chains sock b s xs [] sorted there e = cc
all_blocks-put chains sock b s xs ((j, t) ∷ m) sorted there e = elim (Bool-cases (j == sock)) [
  | inl same ↦
      let at : j ≡ sock = ==→eq j sock same in
      rw
        (
          same,
          all_blocks-put_none chains sock xs m (find-Above sock j m (omega arith) sorted),
          e,
          append_assoc (blocks (chains sock)) (b ∷ []) (all_blocks chains m),
          at,
        )
        (perm_middle (blocks (chains sock)) (all_blocks chains m))
  | inr other ↦ rw other (
      Perm.trans
        (Perm.append_left (blocks (chains j))
          (all_blocks-put chains sock b s xs m (Above-IsSorted j m sorted) (ground arith) e))
        (perm_middle (blocks (chains j)) (all_blocks chains m)))
]

pub all_blocks-insert :
    (chains : Chains) (sock : ℕ) (s : SocketInformation) (m : List (ℕ × SocketInformation))
    → find sock m ≡ none
    → all_blocks (put_chain chains sock []) (insert sock s m) ≡ all_blocks chains m
unfolding find insert
all_blocks-insert chains sock s [] out = rw (eq→== sock sock refl) refl
all_blocks-insert chains sock s ((j, t) ∷ m) out = elim (Bool-cases (j == sock)) [
  | inl same ↦ absurd (none-ne-some t (ground arith))
  | inr other ↦ elim (Bool-cases (ltb sock j)) [
    | inl before ↦
        rw (other, before, eq→== sock sock refl)
          (all_blocks-put_none chains sock [] ((j, t) ∷ m) out)
    | inr after ↦
        rw (other, after)
          (ap₂ ◌++◌ (ap blocks (put_chain_ne chains sock j [] (==→ne j sock other)))
            (all_blocks-insert chains sock s m (ground arith)))
  ]
]

-- A new chain of a socket with the same blocks.
pub all_blocks-same :
    (chains : Chains) (sock : ℕ) (xs : List (ℕ × MemNode)) (m : List (ℕ × SocketInformation))
    → blocks xs ≡ blocks (chains sock)
    → all_blocks (put_chain chains sock xs) m ≡ all_blocks chains m
all_blocks-same chains sock xs [] same = refl
all_blocks-same chains sock xs ((j, s) ∷ m) same = elim (Bool-cases (j == sock)) [
  | inl at ↦
      ap₂ ◌++◌ (rw at (same ∙ ap (λ (k : ℕ). blocks (chains k)) (sym (==→eq j sock at))))
        (all_blocks-same chains sock xs m same)
  | inr other ↦
      ap₂ ◌++◌ (ap blocks (put_chain_ne chains sock j xs (==→ne j sock other)))
        (all_blocks-same chains sock xs m same)
]

-- A chain for each socket, with the chain of one socket replaced.
pub find-put_chain :
    (chains : Chains) (sock : ℕ) (xs : List (ℕ × MemNode)) (m m' : List (ℕ × SocketInformation))
    → ((k : ℕ) (s : SocketInformation) → find k m ≡ some s → IsChain s.output_chain (chains k))
    → ((s : SocketInformation) → find sock m' ≡ some s → IsChain s.output_chain xs)
    → ((j : ℕ) → sock ≢ j → find j m' ≡ find j m)
    → (k : ℕ) (s : SocketInformation) → find k m' ≡ some s
    → IsChain s.output_chain (put_chain chains sock xs k)
find-put_chain chains sock xs m m' chained at_sock others k s found = elim (ℕ_discrete sock k) [
  | yes same ↦
      subst (λ (k : ℕ). find k m' ≡ some s → IsChain s.output_chain (put_chain chains sock xs k))
        same (λ here. rw (eq→== sock sock refl) (at_sock s here)) found
  | no other ↦ rw (ne→== k sock (λ z. other (sym z))) (chained k s (sym (others k other) ∙ found))
]
