-- ===== src/Cmdproc/Sent.antt =====
-- What `Cmdproc::RecvDataProc` sends.
use cmdtran.Common.{
  ℕ, ◌≡◌, ◌<◌, refl, sym, ap, ap₂, ◌∙◌, some, List, [], ◌∷◌, ◌++◌, length, append_assoc, append-nil,
}
use cmdtran.Cmdproc.{Shell, newline, c_string, recv_data_proc}
use cmdtran.Cmdproc.Lines.{joined, runs, each_line_lem, c_string-append}

module _ {ℓ} {State : Type ℓ} (os : Shell State) (confd : ℕ) (sent : State → List ℕ)
    (sends : (bs : List ℕ) (s : State) → sent (os.send confd bs s) ≡ sent s ++ bs) where
  -- All bytes of lines without a 0 are sent.
  runs-sent :
      (ls : List (List ℕ)) (s : State)
      → c_string (joined ls) ≡ joined ls
      → sent (runs (os.send confd) ls s) ≡ sent s ++ joined ls
  runs-sent [] s e = sym (append-nil (sent s))
  runs-sent (l ∷ ls) s e =
      let (one, others) = c_string-append l (joined ls) e in
      runs-sent ls (os.send confd (c_string l) s) others
      ∙ ap (λ bs. bs ++ joined ls) (sends (c_string l) s ∙ ap (λ bs. sent s ++ bs) one)
      ∙ append_assoc (sent s) l (joined ls)

  -- When the command can be started and its output has no byte 0, with more fuel than the output
  -- has bytes, and where `send` sends all bytes and `popen` and `pclose` send none:
  -- `Cmdproc::RecvDataProc` ends, returns 0, and has sent the command, a newline, all of the
  -- output and two newlines.
  pub recv_data_proc_lem :
      (fuel : ℕ) (command output : List ℕ) (s : State)
      → ((s : State) → sent (os.popen (c_string command) s).1 ≡ sent s)
      → ((s : State) → sent (os.pclose s) ≡ sent s)
      → (os.popen
          (c_string command)
          (os.send confd (newline ∷ []) (os.send confd (c_string command) s))).0
        ≡ some output
      → c_string output ≡ output
      → length output < fuel
      → (s' : State) × (recv_data_proc os fuel command confd s ≡ some (0, s'))
        × (sent s' ≡ sent s ++ (c_string command ++ newline ∷ (output ++ newline ∷ newline ∷ [])))
  unfolding recv_data_proc
  recv_data_proc_lem fuel command output s opening closing opened text enough =
      let start = os.send confd (newline ∷ []) (os.send confd (c_string command) s) in
      let ready = (os.popen (c_string command) start).1 in
      let (ls, lines, all, done) = each_line_lem (os.send confd) fuel output ready enough in
      (
        os.send confd (newline ∷ newline ∷ []) (os.pclose (runs (os.send confd) ls ready)),
        rw (recv_data_proc, opened, done) refl,
        sends (newline ∷ newline ∷ []) (os.pclose (runs (os.send confd) ls ready))
            ∙ ap (λ bs. bs ++ newline ∷ newline ∷ [])
                (closing (runs (os.send confd) ls ready)
                  ∙ runs-sent ls ready (ap c_string all ∙ text ∙ sym all)
                  ∙ ap₂ ◌++◌
                      (opening start
                        ∙ sends (newline ∷ []) (os.send confd (c_string command) s)
                        ∙ ap (λ bs. bs ++ newline ∷ []) (sends (c_string command) s))
                      all)
            ∙ simp append_assoc,
      )
