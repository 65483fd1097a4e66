-- ===== src/Log.antt =====
-- src/util/log.c, log.h and time.h: the lines of the log, on the standard error and in a file. What
-- `vsnprintf` makes of a format and its arguments is the message, and what `strftime` makes of the
-- time is the clock.
pub mod Lines
use Prim.Native.Char.{code}
use Prim.Native.String.{String}
use adrift.Base.{
  ℕ, Bool, Option, none, some, List, [], ◌∷◌, ◌++◌, Run, ok, fault, write_overrun, bad_pointer,
  ◌>>=◌, length, take, true, false, ltb, if◌then◌else◌,
}

-- The bytes of an ASCII text.
abbrev pub codes : String → List ℕ
codes String.[] = []
codes (String.◌∷◌ c s) = code c ∷ codes s

-- `RED`, `GREEN`, `GREY` and `RESET`
abbrev pub red : List ℕ
red = 27 ∷ codes "[31m"

abbrev pub green : List ℕ
green = 27 ∷ codes "[32m"

abbrev pub grey : List ℕ
grey = 27 ∷ codes "[90m"

abbrev pub reset : List ℕ
reset = 27 ∷ codes "[0m"

-- The file that `log_file_ptr` leads to, with what has been written to it.
pub record LogFile : Type 0 where
  pub written : List ℕ
  pub closed : Bool

-- The levels of the program's calls and of its options are 0, 1 and 2.
pub record Log : Type 0 where
  pub debug_level : ℕ
  pub log_file_ptr : Option LogFile
  pub stderr : List ℕ

pub data Success : Type 0 where
  failure success : Success

-- Before `main` runs.
abbrev pub first_log : Log
first_log = record { debug_level = 0; log_file_ptr = none; stderr = [] }

-- `fprintf` and `fflush` on the file
unfoldable pub write_file : List ℕ → LogFile → Run LogFile
write_file line file =
    if file.closed then fault bad_pointer else ok (record file { written = file.written ++ line })

unfoldable pub output_log : List ℕ → Log → Run Log
unfolding write_file
output_log line log =
    let log' : Log = record log { stderr = log.stderr ++ line } in
    elim log.log_file_ptr [
      | none ↦ ok log'
      | some file ↦ (do
        file' ← write_file line file
        ok (record log' { log_file_ptr = some file' }))
    ]

-- `vsnprintf` into a buffer, with room for 511 bytes and a NUL
abbrev pub message_buf : List ℕ → List ℕ
message_buf message = take 511 message

-- The buffer for the time has 9 bytes, though `strftime` may write 16.
unfoldable pub get_current_time_format : List ℕ → Run (List ℕ)
get_current_time_format clock = if ltb 8 (length clock) then fault write_overrun else ok clock

unfoldable pub set_debug_level : ℕ → Log → Log
set_debug_level level log = record log { debug_level = level }

-- `"[%s] [FAILURE] %s"` and the like, between a colour and `RESET`, with the end of the line
abbrev pub line_of : (colour kind time message : List ℕ) → List ℕ
line_of colour kind time message =
    colour
    ++ codes "["
    ++ time
    ++ codes "] ["
    ++ kind
    ++ codes "] "
    ++ message_buf message
    ++ reset
    ++ codes "\n"

unfoldable pub print_log : Success → (clock message : List ℕ) → Log → Run Log
unfolding get_current_time_format output_log
print_log failure clock message log = do
  time ← get_current_time_format clock
  output_log (line_of red (codes "FAILURE") time message) log
print_log success clock message log = do
  time ← get_current_time_format clock
  output_log (line_of green (codes "SUCCESS") time message) log

unfoldable pub debug : (level : ℕ) (clock message : List ℕ) → Log → Run Log
unfolding get_current_time_format output_log
debug level clock message log =
    let shown = (do
      time ← get_current_time_format clock
      output_log (line_of grey (codes "DEBUG") time message) log) in
    if ltb log.debug_level level then ok log else shown

-- Whether `exit` is called, and the log.
pub data Setting : Type 0 where
  continues : Log → Setting
  stops : Log → Setting

-- `opens` is whether `fopen` succeeds; the file is then empty.
unfoldable pub set_log_file :
    (opens : List ℕ → Bool) (clock : List ℕ) (filename : Option (List ℕ)) → Log → Run Setting
unfolding print_log
set_log_file opens clock none log = ok (continues log)
set_log_file opens clock (some filename) log =
    let failed = (do
      log' ←
          print_log failure clock (codes "Failed to open log file: " ++ filename)
            (record log { log_file_ptr = none })
      ok (stops log')) in
    if opens filename
    then ok
        (continues (record log { log_file_ptr = some (record { written = []; closed = false }) }))
    else failed

-- The file is closed; `log_file_ptr` is left as it is.
unfoldable pub destroy_log_file : Log → Run Log
destroy_log_file log = elim log.log_file_ptr [
  | none ↦ ok log
  | some file ↦
      (if file.closed
        then fault bad_pointer
        else ok (record log { log_file_ptr = some (record file { closed = true }) }))
]
