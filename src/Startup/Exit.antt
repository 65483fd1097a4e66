-- ===== src/Startup/Exit.antt =====
-- src/main.c: `exit_handler`, which the signals and the end of `main` call. Closing the socket is left
-- out; what `vsnprintf` makes of the signal's number is a parameter.
use adrift.Base.{ℕ, ◌||◌, Option, none, some, List, Run, ok, ◌>>=◌, ◌==◌, if◌then◌else◌}
use adrift.Cache.{Cache, cache_dtor, cache_type_ipv4, cache_type_ipv6, cache_type_cname}
use adrift.Log.{Log, debug, destroy_log_file}

-- The numbers that POSIX gives to `SIGHUP`, `SIGINT` and `SIGTERM`
abbrev pub sighup : ℕ
sighup = 1

abbrev pub sigint : ℕ
sigint = 2

abbrev pub sigterm : ℕ
sigterm = 15

-- The state in which the program exits; `none` if the handler returns.
unfoldable pub exit_handler :
    (clock message : List ℕ) → ℕ → Log → Cache → Run (Option (Log × Cache))
exit_handler clock message sig log c =
    let leave = (do
      log' ← (if sig == 0 then ok log else debug 0 clock message log)
      log'' ← destroy_log_file log'
      c₁ ← cache_dtor cache_type_ipv4 c
      c₂ ← cache_dtor cache_type_ipv6 c₁
      c₃ ← cache_dtor cache_type_cname c₂
      ok (some (log'', c₃))) in
    if sig == 0 || sig == sighup || sig == sigint || sig == sigterm then leave else ok none
