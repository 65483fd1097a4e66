-- ===== src/Log/Lines.antt =====
-- src/util/log.c: the lines of a sequence of calls.
use adrift.Base.{
  ℕ, ◌≤◌, ◌≡◌, refl, ap, sym, ◌∙◌, false, Option, none, some, List, [], ◌∷◌, ◌++◌, All,
  append_assoc, append-nil, Run, ok, fault, bad_pointer, ◌>>=◌, length, ltb, if◌then◌else◌, arith,
  Bool-cases, inl, inr,
}
use adrift.Log.{
  Log, LogFile, Success, failure, success, codes, red, green, grey, line_of, debug, print_log,
  write_file, output_log, get_current_time_format, destroy_log_file,
}

-- A call of `debug` or of `print_log`, with the clock at that time.
pub data Call : Type 0 where
  debugs : (level : ℕ) (clock message : List ℕ) → Call
  prints : Success → (clock message : List ℕ) → Call

unfoldable pub run_call : Call → Log → Run Log
run_call (debugs level clock message) log = debug level clock message log
run_call (prints result clock message) log = print_log result clock message log

unfoldable pub run_calls : List Call → Log → Run Log
run_calls [] log = ok log
run_calls (c ∷ cs) log = do log' ← run_call c log; run_calls cs log'

-- `%H:%M:%S` has 8 bytes.
abbrev pub IsClocked : Call → Type 0
IsClocked (debugs level clock message) = length clock ≤ 8
IsClocked (prints result clock message) = length clock ≤ 8

-- The line of a call, if there is one at the level.
unfoldable pub text_of : ℕ → Call → List ℕ
text_of limit (debugs level clock message) =
    if ltb limit level then [] else line_of grey (codes "DEBUG") clock message
text_of limit (prints failure clock message) = line_of red (codes "FAILURE") clock message
text_of limit (prints success clock message) = line_of green (codes "SUCCESS") clock message

unfoldable pub texts : ℕ → List Call → List ℕ
texts limit [] = []
texts limit (c ∷ cs) = text_of limit c ++ texts limit cs

-- Bytes are added to the log's two outputs.
abbrev add_file : List ℕ → Option LogFile → Option LogFile
add_file bytes none = none
add_file bytes (some file) = some (record file { written = file.written ++ bytes })

abbrev pub add : List ℕ → Log → Log
add bytes log = record log {
  stderr = log.stderr ++ bytes;
  log_file_ptr = add_file bytes log.log_file_ptr;
}

abbrev pub IsOpen : Option LogFile → Type 0
IsOpen none = Unit
IsOpen (some file) = file.closed ≡ false

output_log-add :
    (line : List ℕ) (log : Log) → IsOpen log.log_file_ptr → output_log line log ≡ ok (add line log)
unfolding output_log write_file
output_log-add line log opened = go log.log_file_ptr opened
  where
    go :
        (o : Option LogFile)
        → IsOpen o
        → output_log line (record log { log_file_ptr = o })
          ≡ ok (add line (record log { log_file_ptr = o }))
    go none h = refl
    go (some file) h = rw h refl

add_file-nil : (o : Option LogFile) → add_file [] o ≡ o
add_file-nil none = refl
add_file-nil (some file) = rw (append-nil file.written) refl

add-nil : (log : Log) → add [] log ≡ log
add-nil log = rw (append-nil log.stderr, add_file-nil log.log_file_ptr) refl

add_file-add :
    (xs ys : List ℕ) (o : Option LogFile) → add_file ys (add_file xs o) ≡ add_file (xs ++ ys) o
add_file-add xs ys none = refl
add_file-add xs ys (some file) = rw (append_assoc file.written xs ys) refl

add-add : (xs ys : List ℕ) (log : Log) → add ys (add xs log) ≡ add (xs ++ ys) log
add-add xs ys log = rw (append_assoc log.stderr xs ys, add_file-add xs ys log.log_file_ptr) refl

add-IsOpen : (xs : List ℕ) (o : Option LogFile) → IsOpen o → IsOpen (add_file xs o)
add-IsOpen xs none h = tt
add-IsOpen xs (some file) h = h

timed : (clock : List ℕ) → length clock ≤ 8 → get_current_time_format clock ≡ ok clock
unfolding get_current_time_format
timed clock h = ground arith

run_call-add :
    (c : Call) (log : Log)
    → IsClocked c
    → IsOpen log.log_file_ptr
    → run_call c log ≡ ok (add (text_of log.debug_level c) log)
unfolding run_call debug print_log text_of
run_call-add (debugs level clock message) log h opened =
    elim (Bool-cases (ltb log.debug_level level)) [
      | inl hidden ↦ rw hidden (ap ok (sym (add-nil log)))
      | inr shown ↦ rw (shown, timed clock h) (output_log-add _ log opened)
    ]
run_call-add (prints failure clock message) log h opened =
    rw (timed clock h) (output_log-add _ log opened)
run_call-add (prints success clock message) log h opened =
    rw (timed clock h) (output_log-add _ log opened)

-- Calls of `debug` and `print_log` with clocks of at most 8 bytes, whose log file, if there is one,
-- has not been closed, end without a fault. In their order, each `print_log` and each `debug` of at
-- most the debug level adds its line to the standard error and, if there is one, to the log file;
-- nothing else changes.
pub run_calls-texts :
    (cs : List Call) (log : Log)
    → All IsClocked cs
    → IsOpen log.log_file_ptr
    → run_calls cs log ≡ ok (add (texts log.debug_level cs) log)
unfolding run_calls texts
run_calls-texts [] log h opened = ap ok (sym (add-nil log))
run_calls-texts (c ∷ cs) log h opened =
    let text = text_of log.debug_level c in
    rw (run_call-add c log h.0 opened) (
      run_calls-texts cs (add text log) h.1 (add-IsOpen text log.log_file_ptr opened)
      ∙ ap ok (add-add text (texts log.debug_level cs) log))

-- When `destroy_log_file` has closed the log's file, a `debug` of at most the debug level, with a
-- clock of at most 8 bytes, writes to the closed file.
pub debug-closed :
    (level : ℕ) (clock message : List ℕ) (log : Log) (file : LogFile)
    → file.closed ≡ false
    → level ≤ log.debug_level
    → length clock ≤ 8
    → (destroy_log_file (record log { log_file_ptr = some file }) >>= debug level clock message)
      ≡ fault bad_pointer
unfolding destroy_log_file debug output_log write_file
debug-closed level clock message log file opened shown h =
    let visible : ltb log.debug_level level ≡ false = ground arith in
    rw (opened, visible, timed clock h) refl
