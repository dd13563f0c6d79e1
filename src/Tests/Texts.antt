-- ===== src/Tests/Texts.antt =====
-- A command with two lines of output, and lines of the log.
use cmdtran.Common.{ℕ, ◌-◌, ◌≡◌, refl, some, List, [], ◌∷◌, ◌++◌, arith, length, take, replicate}
use cmdtran.Cmdproc.{Shell, newline, command_pro, recv_data_proc}
use cmdtran.Cmdproc.Lines.{IsLines, joined, calls, command_pro_lem}
use cmdtran.Cmdproc.Sent.{recv_data_proc_lem}
use cmdtran.Log.{
  Tm, buf_len, decimal_digits, decimal, two_digits, get_current_time, log_line, log_write,
}
use cmdtran.Log.Write.{IsTm, log_write_lem, log_write-leaks}

-- Each command writes "a", a newline and "bc"; the state is what was sent to socket 4.
abbrev os : Shell (List ℕ)
os = record {
  popen = λ command sent. (some (b'a' ∷ newline ∷ b'b' ∷ b'c' ∷ []), sent);
  pclose = λ sent. sent;
  send = λ confd bytes sent. sent ++ bytes;
}

abbrev output : List ℕ
output = b'a' ∷ newline ∷ b'b' ∷ b'c' ∷ []

command_pro_lem_example :
    (ls : List (List ℕ)) × IsLines ls
    × (joined ls ≡ output)
    × (command_pro os (λ line seen. seen ++ line) 5 (b'l' ∷ b's' ∷ []) []
        ≡ some (1, calls (λ line seen. seen ++ line) ls []))
command_pro_lem_example =
    command_pro_lem os (λ line seen. seen ++ line) 5 (b'l' ∷ b's' ∷ []) output [] refl refl
      (omega arith)

recv_data_proc_lem_example :
    (sent : List ℕ) × (recv_data_proc os 5 (b'l' ∷ b's' ∷ []) 4 [] ≡ some (0, sent))
    × (sent ≡ b'l' ∷ b's' ∷ newline ∷ (output ++ newline ∷ newline ∷ []))
recv_data_proc_lem_example =
    recv_data_proc_lem os 4 (λ sent. sent) (λ bytes sent. refl) 5 (b'l' ∷ b's' ∷ []) output []
      (λ sent. refl) (λ sent. refl) refl refl (omega arith)

-- The 26th of November 2026, 05:07:43.
abbrev now : Tm
now = record { tm_year = 126; tm_mon = 10; tm_mday = 26; tm_hour = 5; tm_min = 7; tm_sec = 43 }

-- The year is written as 2116 and the month as 10.
now_text :
    get_current_time now
    ≡ b'2' ∷ b'1' ∷ b'1' ∷ b'6' ∷ b'-' ∷ b'1' ∷ b'0' ∷ b'-' ∷ b'2' ∷ b'6' ∷ b' ' ∷ b'0' ∷ b'5'
      ∷ b':' ∷ b'0' ∷ b'7' ∷ b':' ∷ b'4' ∷ b'3' ∷ []
unfolding get_current_time two_digits decimal decimal_digits
now_text = refl

now-IsTm : IsTm now
now-IsTm = record {
  year = omega arith;
  mon = omega arith;
  mday = omega arith;
  hour = omega arith;
  min = omega arith;
  sec = omega arith;
}

log_write_lem_example :
    log_write now 9 (b'a' ∷ []) 28 (b'f' ∷ []) (b'h' ∷ b'i' ∷ []) (7 ∷ 8 ∷ []) (1 ∷ [])
    ≡ 1 ∷ log_line now 9 (b'a' ∷ []) 28 (b'f' ∷ []) (b'h' ∷ b'i' ∷ [])
log_write_lem_example =
    log_write_lem now 9 (b'a' ∷ []) 28 (b'f' ∷ []) (b'h' ∷ b'i' ∷ []) (7 ∷ 8 ∷ []) (1 ∷ []) now-IsTm
      (omega arith) (omega arith) (omega arith)

-- A name of a file of 2100 bytes.
abbrev long_name : List ℕ
long_name = replicate 2100 b'a'

long_line : length (log_line now 9 long_name 28 (b'f' ∷ []) (b'h' ∷ b'i' ∷ [])) ≡ 2136
unfolding log_line get_current_time two_digits decimal decimal_digits
long_line = refl

log_write-leaks_example :
    let text = log_line now 9 long_name 28 (b'f' ∷ []) (b'h' ∷ b'i' ∷ []) in
    log_write now 9 long_name 28 (b'f' ∷ []) (b'h' ∷ b'i' ∷ []) (7 ∷ 8 ∷ []) []
    ≡ take (buf_len - 1) text ++ 0 ∷ take (length text - buf_len) (7 ∷ 8 ∷ [])
log_write-leaks_example =
    log_write-leaks now 9 long_name 28 (b'f' ∷ []) (b'h' ∷ b'i' ∷ []) (7 ∷ 8 ∷ []) []
      (omega (arith, long_line))
