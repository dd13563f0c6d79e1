-- ===== src/Log.antt =====
-- ComandTran/src/log.cpp and ComandTran/inc/Log.h: the class `CLog`, and `Int2String` of
-- ComandTran/src/BasicFun.cpp. Text is a list of byte codes. `localtime` is a parameter: its
-- result is the record `Tm`. The result of `write` is not used by the code.
pub mod Decimal
pub mod Write
use cmdtran.Common.{
  ℕ, zero, suc, ◌+◌, ◌-◌, ◌/◌, ◌%◌, ◌≡◌, Bool, List, [], ◌∷◌, ◌++◌, ltb, length, take, replicate,
  if◌then◌else◌,
}
use cmdtran.Common.Int.{ℤ, pos, negsuc}

abbrev pub buf_len : ℕ
buf_len = 2048

-- `%d` for a number that is not negative; an `int` has ten digits at most.
unfoldable pub decimal_digits : (fuel : ℕ) → ℕ → List ℕ
decimal_digits zero n = []
decimal_digits (suc fuel) n =
    let front = decimal_digits fuel (n / 10) in
    (if ltb n 10 then [] else front) ++ (b'0' + n % 10) ∷ []

unfoldable pub decimal : ℕ → List ℕ
decimal n = decimal_digits 10 n

-- `%02d`
unfoldable pub two_digits : ℕ → List ℕ
two_digits n = if ltb n 10 then b'0' ∷ decimal n else decimal n

-- `sprintf(buf, "%d", value)`
unfoldable pub int_2_string : ℤ → List ℕ
int_2_string (pos n) = decimal n
int_2_string (negsuc n) = b'-' ∷ decimal (suc n)

-- The fields of `struct tm` that the code reads.
pub record Tm : Type 0 where
  pub tm_year : ℕ
  pub tm_mon : ℕ
  pub tm_mday : ℕ
  pub tm_hour : ℕ
  pub tm_min : ℕ
  pub tm_sec : ℕ

unfoldable pub get_current_time : Tm → List ℕ
get_current_time t =
    two_digits (t.tm_year + 1990)
    ++ b'-' ∷ two_digits t.tm_mon
    ++ b'-' ∷ two_digits t.tm_mday
    ++ b' ' ∷ two_digits t.tm_hour
    ++ b':' ∷ two_digits t.tm_min
    ++ b':' ∷ two_digits t.tm_sec

-- `vsnprintf` and `snprintf` into a buffer that holds zeros: what fits beside the final 0.
abbrev pub snprintf : (size : ℕ) → List ℕ → List ℕ
snprintf size text = let kept = take (size - 1) text in kept ++ replicate (size - length kept) 0

-- The line as the format spells it; `info` is what fits of the message.
unfoldable pub log_line :
    Tm → (tid : ℕ) → (file : List ℕ) → (line : ℕ) → (fun info : List ℕ) → List ℕ
log_line t tid file line fun info =
    b'[' ∷ get_current_time t
    ++ b']' ∷ b' ' ∷ b'(' ∷ file
    ++ b':' ∷ decimal line
    ++ b')' ∷ b'-' ∷ decimal tid
    ++ b'-' ∷ fun
    ++ b'-' ∷ b'-' ∷ info
    ++ 10 ∷ []

-- `behind` are the bytes of the stack behind `buf`, `log` is the file at `fd`; `len` is what
-- `snprintf` returns, the length of the line whether it fits or not.
unfoldable pub log_write :
    Tm → (tid : ℕ) → (file : List ℕ) → (line : ℕ) → (fun message behind log : List ℕ) → List ℕ
log_write t tid file line fun message behind log =
    let info = take (buf_len - 100 - 1) message in
    let text = log_line t tid file line fun info in
    let buf = snprintf buf_len text in let len = length text in log ++ take len (buf ++ behind)
