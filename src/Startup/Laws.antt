-- ===== src/Startup/Laws.antt =====
-- src/main.c and src/cli/parse.c: what the options allow, and the state that the event loop starts in.
use adrift.Base.{
  ℕ, ◌%◌, ◌^◌, ◌<◌, ◌≡◌, refl, ap, ◌∙◌, Bool, true, false, ◌&&◌, Option, none, some, List, [], ◌∷◌,
  ok, ◌>>=◌, ◌==◌, ltb, ltb→lt, if◌then◌else◌, arith, Bool-cases, inl, inr, Always, >>=-Always,
  if-Always, Always-ok,
}
use adrift.Cache.{Cache}
use adrift.Handle.State.{Server, Convert}
use adrift.Handle.System.{unused, Reach, start}
use adrift.Log.{Log, Setting, continues, stops}
use adrift.Startup.Cli.{
  Arguments, default_arguments, set_level, parse_option, parse_options, parse_arguments,
}
use adrift.Startup.Init.{
  Os, program_init, caches, load_hosts, listen, server_init, Started, exits, serves, start_server,
  main,
}

-- The debug level is 0, 1 or 2, if the options are accepted.
abbrev Allowed : Option Arguments → Type 0
Allowed none = Unit
Allowed (some args) = args.debug_level < 3

if-Allowed :
    (b : Bool) (x y : Option Arguments) → Allowed x → Allowed y → Allowed (if b then x else y)
if-Allowed true x y h k = h
if-Allowed false x y h k = k

set_level-Allowed : (long : ℕ) (args : Arguments) → Allowed (set_level long args)
unfolding set_level
set_level-Allowed long args = elim (Bool-cases (ltb (long % 2 ^ 32) 3)) [
  | inl e ↦ rw e (ltb→lt (long % 2 ^ 32) 3 e)
  | inr e ↦ rw e tt
]

parse_option-Allowed :
    (strtol : List ℕ → ℕ) (opt : ℕ) (optarg : List ℕ) (args : Arguments)
    → args.debug_level < 3
    → Allowed (parse_option strtol opt optarg args)
unfolding parse_option
parse_option-Allowed strtol opt optarg args low =
    if-Allowed (opt == b'd') _ _ (set_level-Allowed (strtol optarg) args) (
      if-Allowed (opt == b'f') _ _ low (
        if-Allowed (opt == b'h') _ _ low (
          if-Allowed (opt == b'l') _ _ low
            (if-Allowed (opt == b's') _ _ low (if-Allowed (opt == b'v') _ _ low tt)))))

parse_options-Allowed :
    (strtol : List ℕ → ℕ) (opts : List (ℕ × List ℕ)) (args : Arguments)
    → args.debug_level < 3
    → Allowed (parse_options strtol opts args)
unfolding parse_options
parse_options-Allowed strtol [] args low = low
parse_options-Allowed strtol ((opt, optarg) ∷ opts) args low =
    go (parse_option strtol opt optarg args) (parse_option-Allowed strtol opt optarg args low)
      (parse_options-Allowed strtol opts)
  where
    go :
        (o : Option Arguments)
        → Allowed o
        → ((a : Arguments) → a.debug_level < 3 → Allowed (parse_options strtol opts a))
        → Allowed (elim o [ none ↦ none | some args' ↦ parse_options strtol opts args' ])
    go none h rest = tt
    go (some a) h rest = rest a h

-- Whatever the options are, the arguments that are accepted have a debug level below 3.
pub parse_arguments-Allowed :
    (strtol : List ℕ → ℕ) (opts : List (ℕ × List ℕ)) → Allowed (parse_arguments strtol opts)
unfolding parse_arguments default_arguments
parse_arguments-Allowed strtol opts =
    parse_options-Allowed strtol opts default_arguments (omega arith)

-- Behind `st`, but for the cache, the upstream server and the semaphores.
abbrev Ready : Server → Started → Type 0
Ready st (exits success) = Unit
Ready st (serves log s) =
    (s.buf1_len ≡ st.buf1_len)
    × ((k : ℕ) → s.convert_table k ≡ record (st.convert_table k) { sem = 0 })
    × (s.sent ≡ st.sent)

-- What `start_server` does with the result of `server_init`.
abbrev served : Log → Option Server → Started
served log none = exits false
served log (some s) = serves log s

listen-Ready :
    (os : Os) (args : Arguments) (c : Cache) (st : Server) (log : Log)
    → Ready st (served log (listen os args c st))
unfolding listen
listen-Ready os args c st log = elim (Bool-cases (os.socket && os.bind)) [
  | inl e ↦ rw e (refl, λ k. refl, refl)
  | inr e ↦ rw e tt
]

server_init-Ready :
    (os : Os) (args : Arguments) (st : Server) (log : Log)
    → Always (λ (r : Option Server). Ready st (served log r)) (server_init os args st)
unfolding server_init
server_init-Ready os args st log =
    >>=-Always _ (load_hosts os args.hosts_file (caches st.cache)) _ λ loaded _. go loaded
  where
    go :
        (o : Option Cache)
        → Always
            (λ (r : Option Server). Ready st (served log r))
            (elim o [ none ↦ ok none | some c ↦ ok (listen os args c st) ])
    go none = tt
    go (some c) = listen-Ready os args c st log

start_server-Ready :
    (os : Os) (args : Arguments) (st : Server) (set : Setting)
    → Always (Ready st) (start_server os args st set)
unfolding start_server
start_server-Ready os args st (stops log) = tt
start_server-Ready os args st (continues log) =
    >>=-Always (Ready st) (server_init os args st) _ λ o ran. go o (
      Always-ok (λ (r : Option Server). Ready st (served log r)) (server_init os args st) o ran
        (server_init-Ready os args st log))
  where
    go :
        (o : Option Server)
        → Ready st (served log o)
        → Always (Ready st) (elim o [ none ↦ ok (exits false) | some s ↦ ok (serves log s) ])
    go none h = tt
    go (some s) h = h

main-Ready :
    (os : Os) (opts : List (ℕ × List ℕ)) (log : Log) (st : Server)
    → Always (Ready st) (main os opts log st)
unfolding main
main-Ready os opts log st = go (parse_arguments os.strtol opts)
  where
    go :
        (o : Option Arguments)
        → Always {A = Started} (Ready st) (elim o [
          | none ↦ ok (exits false)
          | some args ↦
              (if args.version
                then ok (exits true)
                else if args.help
                then ok (exits true)
                else (program_init os args log >>= λ set. start_server os args st set))
        ])
    go none = tt
    go (some args) = if-Always (Ready st) args.version _ _ tt (
        if-Always (Ready st) args.help _ _ tt (
          >>=-Always (Ready st) (program_init os args log) _
            λ set ran. start_server-Ready os args st set))

-- The server that `main` runs its loop on, from globals that hold their first values, is one that
-- `Handle.System` starts from.
pub main-Reach :
    (os : Os) (opts : List (ℕ × List ℕ)) (log log' : Log) (st s : Server)
    → st.buf1_len ≡ 1
    → ((k : ℕ) → st.convert_table k ≡ unused)
    → main os opts log st ≡ ok (serves log' s)
    → Reach (record { server = s; waiting = [] })
main-Reach os opts log log' st s one clear ran =
    let (counter, table, _) =
      Always-ok (Ready st) (main os opts log st) (serves log' s) ran (main-Ready os opts log st) in
    start s (counter ∙ one) (λ k. table k ∙ ap (λ (e : Convert). record e { sem = 0 }) (clear k))
