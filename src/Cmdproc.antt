-- ===== src/Cmdproc.antt =====
-- ComandTran/src/cmdproc.cpp and ComandTran/inc/cmdproc.h: a command is run, and each line of its
-- output goes to a function (`CommandPro`) or to a socket (`Cmdproc::RecvDataProc`). Text is a list of
-- byte codes; `none` is a loop that has run out of fuel.
pub mod Lines
pub mod Sent
use cmdtran.Common.{
  ℕ, zero, suc, ◌-◌, ◌≡◌, Bool, true, false, ◌||◌, Option, none, some, List, [], ◌∷◌, ◌++◌, ◌==◌,
  leb, length, if◌then◌else◌, ◌>>=◌,
}

abbrev pub bufflen : ℕ
bufflen = 2048

abbrev pub newline : ℕ
newline = 10

-- A buffer as the C string that it holds: the bytes before the first 0.
abbrev pub c_string : List ℕ → List ℕ
c_string [] = []
c_string (c ∷ cs) = if c == 0 then [] else c ∷ c_string cs

-- The system of the process: `popen` gives all that the command will write, or NULL.
pub record Shell {ℓ} (State : Type ℓ) : Type ℓ where
  pub popen : List ℕ → State → Option (List ℕ) × State
  pub pclose : State → State
  pub send : ℕ → List ℕ → State → State

-- `fgets` with room for `n` bytes beside the final 0: up to and with the next newline.
abbrev pub next_line : ℕ → List ℕ → List ℕ × List ℕ
next_line zero cs = ([], cs)
next_line (suc n) [] = ([], [])
next_line (suc n) (c ∷ cs) =
    let rest = next_line n cs in if c == newline then (c ∷ [], cs) else (c ∷ rest.0, rest.1)

abbrev pub fgets : ℕ → List ℕ → Option (List ℕ × List ℕ)
fgets size [] = none
fgets size (c ∷ cs) = some (next_line (size - 1) (c ∷ cs))

-- `while(NULL != fgets(buff, BUFFLEN, fstr))` with what the body does with a line.
unfoldable pub each_line {ℓ} :
    {State : Type ℓ} → (List ℕ → State → State) → ℕ → List ℕ → State → Option State
each_line body zero stream s = none
each_line body (suc fuel) stream s = elim (fgets bufflen stream) [
  | none ↦ some s
  | some (line, rest) ↦ each_line body fuel rest (body (c_string line) s)
]

module _ {ℓ} {State : Type ℓ} (os : Shell State) where
  unfoldable pub command_pro :
      (pro_fun : List ℕ → State → State) → (fuel : ℕ) → List ℕ → State → Option (ℕ × State)
  command_pro pro_fun fuel command s =
      let (stream, s) = os.popen command s in
      elim stream [
        | none ↦ some (0, s)
        | some output ↦ do s' ← each_line pro_fun fuel output s; some (1, os.pclose s')
      ]

  unfoldable pub recv_data_proc : (fuel : ℕ) → List ℕ → (confd : ℕ) → State → Option (ℕ × State)
  recv_data_proc fuel command confd s =
      let s = os.send confd (newline ∷ []) (os.send confd (c_string command) s) in
      let (stream, s) = os.popen (c_string command) s in
      elim stream [
        | none ↦ some (0, s)
        | some output ↦ do
          s' ← each_line (os.send confd) fuel output s
          some (0, os.send confd (newline ∷ newline ∷ []) (os.pclose s'))
      ]
