-- ===== src/Tests/Logging.antt =====
-- src/util/log.c: lines of the log, and the theorems at them.
use adrift.Base.{
  ℕ, ◌≡◌, List, [], ◌∷◌, ◌++◌, none, some, false, refl, ok, fault, bad_pointer, ◌>>=◌, arith,
}
use adrift.Log.{
  Log, LogFile, success, codes, debug, print_log, set_log_file, stops, get_current_time_format,
  output_log, destroy_log_file,
}
use adrift.Log.Lines.{
  Call, debugs, prints, run_calls, texts, text_of, add, run_calls-texts, debug-closed,
}

abbrev noon : List ℕ
noon = codes "12:00:00"

abbrev empty_file : LogFile
empty_file = record { written = []; closed = false }

abbrev open_log : Log
open_log = record { debug_level = 1; log_file_ptr = some empty_file; stderr = [] }

-- The second one is above the debug level.
abbrev some_calls : List Call
some_calls =
    debugs 1 noon (codes "Cache find: a.")
    ∷ debugs 2 noon (codes "hidden")
    ∷ prints success noon (codes "ready")
    ∷ []

run_calls-texts_example : run_calls some_calls open_log ≡ ok (add (texts 1 some_calls) open_log)
run_calls-texts_example = run_calls-texts some_calls open_log (ground arith) refl

two_lines :
    texts 1 some_calls
    ≡ (27 ∷ codes "[90m[12:00:00] [DEBUG] Cache find: a.")
      ++ (27 ∷ codes "[0m\n")
      ++ (27 ∷ codes "[32m[12:00:00] [SUCCESS] ready")
      ++ (27 ∷ codes "[0m\n")
unfolding texts text_of
two_lines = refl

debug-closed_example :
    (destroy_log_file open_log >>= debug 0 noon (codes "Cache find: a.")) ≡ fault bad_pointer
debug-closed_example =
    debug-closed 0 noon (codes "Cache find: a.") open_log empty_file refl (omega arith)
      (ground arith)

-- A log file that cannot be opened ends the program, with a line on the standard error.
log_refused :
    set_log_file (λ _. false) noon (some (codes "x")) open_log
    ≡ ok (
        stops (record {
          debug_level = 1;
          log_file_ptr = none;
          stderr =
              (27 ∷ codes "[31m[12:00:00] [FAILURE] Failed to open log file: x")
              ++ (27 ∷ codes "[0m\n");
        }))
unfolding set_log_file print_log get_current_time_format output_log
log_refused = refl
