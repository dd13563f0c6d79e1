-- ===== src/Log/Write.antt =====
-- What `LogWrite` appends to the log, for lines that fit into its buffer and for those that do not.
use cmdtran.Common.{
  ℕ, ◌+◌, ◌-◌, ◌^◌, ◌≡◌, ◌≤◌, ◌<◌, ap, ◌∙◌, List, [], ◌∷◌, ◌++◌, length, length-append, take,
  replicate, length-take, take-all, take-append_ge, take-append_le, append_assoc, arith,
}
use cmdtran.Log.{Tm, buf_len, get_current_time, snprintf, log_line, log_write}
use cmdtran.Log.Decimal.{decimal-length, two_digits-length}

-- A time as `localtime` gives it, of a year before 9910.
pub record IsTm (t : Tm) : Type 0 where
  pub year : t.tm_year < 8010
  pub mon : t.tm_mon < 12
  pub mday : t.tm_mday < 32
  pub hour : t.tm_hour < 24
  pub min : t.tm_min < 60
  pub sec : t.tm_sec < 61

get_current_time-length : (t : Tm) → IsTm t → length (get_current_time t) ≤ 19
unfolding get_current_time
get_current_time-length t ok =
    rw (length-append, length-append, length-append, length-append, length-append)
      (omega (
        arith,
        two_digits-length 2 (t.tm_year + 1990) (omega (arith, ok.year)),
        two_digits-length 0 t.tm_mon (omega (arith, ok.mon)),
        two_digits-length 0 t.tm_mday (omega (arith, ok.mday)),
        two_digits-length 0 t.tm_hour (omega (arith, ok.hour)),
        two_digits-length 0 t.tm_min (omega (arith, ok.min)),
        two_digits-length 0 t.tm_sec (omega (arith, ok.sec)),
      ))

-- The line without the names and the message has fifty bytes at most.
log_line-length :
    (t : Tm) (tid : ℕ) (file : List ℕ) (line : ℕ) (fun info : List ℕ)
    → IsTm t
    → tid < 2 ^ 31
    → line < 2 ^ 31
    → length (log_line t tid file line fun info) ≤ length file + length fun + length info + 50
unfolding log_line
log_line-length t tid file line fun info ok id number =
    rw (length-append, length-append, length-append, length-append, length-append, length-append)
      (omega (
        arith,
        get_current_time-length t ok,
        decimal-length 9 tid (omega arith),
        decimal-length 9 line (omega arith),
      ))

-- The bytes that are written, behind a text that fits into the buffer.
written-fits :
    (text behind : List ℕ)
    → length text < buf_len
    → take (length text) (snprintf buf_len text ++ behind) ≡ text
written-fits text behind h =
    take-append_le (length text) (snprintf buf_len text) behind
      (rw (take-all (buf_len - 1) text (omega arith), length-append) (omega arith))
    ∙ ap (λ kept. take (length text) (kept ++ replicate (buf_len - length kept) 0))
        (take-all (buf_len - 1) text (omega arith))
    ∙ take-append_le (length text) text (replicate (buf_len - length text) 0) (omega arith)
    ∙ take-all (length text) text (omega arith)

written-exceeds :
    (text behind : List ℕ)
    → buf_len ≤ length text
    → take (length text) (snprintf buf_len text ++ behind)
      ≡ take (buf_len - 1) text ++ 0 ∷ take (length text - buf_len) behind
written-exceeds text behind h =
    let full : length (take (buf_len - 1) text) ≡ buf_len - 1 =
      omega (arith, length-take (buf_len - 1) text) in
    ap (λ n. take (length text) (take (buf_len - 1) text ++ replicate (buf_len - n) 0 ++ behind))
      full
    ∙ take-append_ge (length text) (length text - buf_len) (take (buf_len - 1) text ++ 0 ∷ [])
        behind (rw length-append (omega (arith, full)))
    ∙ append_assoc (take (buf_len - 1) text) (0 ∷ []) (take (length text - buf_len) behind)

-- At a time of a year before 9910, with numbers of 31 bits, and with names of the file and of the
-- function of 50 bytes together at most, `LogWrite` appends to the log just the line with at most
-- 1947 bytes of the message, whatever the message is.
pub log_write_lem :
    (t : Tm) (tid : ℕ) (file : List ℕ) (line : ℕ) (fun message behind log : List ℕ)
    → IsTm t
    → tid < 2 ^ 31
    → line < 2 ^ 31
    → length file + length fun ≤ 50
    → log_write t tid file line fun message behind log
      ≡ log ++ log_line t tid file line fun (take (buf_len - 100 - 1) message)
unfolding log_write
log_write_lem t tid file line fun message behind log ok id number names =
    let info = take (buf_len - 100 - 1) message in
    ap (λ text. log ++ text)
      (written-fits (log_line t tid file line fun info) behind (
        omega (
          arith,
          log_line-length t tid file line fun info ok id number,
          length-take (buf_len - 100 - 1) message,
        )))

-- When the line has 2048 bytes or more, `LogWrite` appends the first 2047 bytes of it, a 0, and
-- then as many of the bytes behind its buffer as the line has more than 2048.
pub log_write-leaks :
    (t : Tm) (tid : ℕ) (file : List ℕ) (line : ℕ) (fun message behind log : List ℕ)
    → let text = log_line t tid file line fun (take (buf_len - 100 - 1) message) in
      buf_len ≤ length text
      → log_write t tid file line fun message behind log
        ≡ log ++ (take (buf_len - 1) text ++ 0 ∷ take (length text - buf_len) behind)
unfolding log_write
log_write-leaks t tid file line fun message behind log long =
    ap (λ text. log ++ text)
      (written-exceeds (log_line t tid file line fun (take (buf_len - 100 - 1) message)) behind
        long)
