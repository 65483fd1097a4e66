-- ===== src/Startup/Init.antt =====
-- src/main.c: `program_init`, `server_init` and `main` up to the event loop. The files and the
-- network are a parameter.
use adrift.Base.{
  ℕ, Bool, true, false, ◌&&◌, Option, none, some, List, ◌++◌, Run, ok, ◌>>=◌, if◌then◌else◌,
}
use adrift.Cache.{Cache, cache_ctor, cache_type_ipv4, cache_type_ipv6, cache_type_cname}
use adrift.Handle.State.{Server}
use adrift.Hosts.{read_hosts_file}
use adrift.Log.{
  Log, Setting, continues, stops, success, codes, print_log, set_log_file, set_debug_level,
}
use adrift.Startup.Cli.{Arguments, parse_arguments}

-- What start-up asks of the system: the lines of a file that can be opened, whether a log file can
-- be, the clock for the log, and the library's functions on addresses and options.
pub record Os : Type 0 where
  pub lines_of : List ℕ → Option (List (List ℕ))
  pub opens_log : List ℕ → Bool
  pub tokens : List ℕ → Option (List ℕ × List ℕ)
  pub inet_pton : List ℕ → Option (List ℕ)
  pub inet_addr : List ℕ → ℕ
  pub clock : List ℕ
  pub strtol : List ℕ → ℕ
  pub socket : Bool
  pub bind : Bool

-- The line about the log file, if the program goes on.
announce : List ℕ → List ℕ → Setting → Run Setting
announce clock f (continues log) = do
  log' ← print_log success clock (codes "Log file: " ++ f) log
  ok (continues log')
announce clock f (stops log) = ok (stops log)

unfoldable pub program_init : Os → Arguments → Log → Run Setting
unfolding announce
program_init os args log =
    let log' = set_debug_level args.debug_level log in
    elim args.log_file [
      | none ↦ ok (continues log')
      | some f ↦ (do
        set ← set_log_file os.opens_log os.clock (some f) log'
        announce os.clock f set)
    ]

-- The three caches.
abbrev pub caches : Cache → Cache
caches c = cache_ctor cache_type_cname (cache_ctor cache_type_ipv6 (cache_ctor cache_type_ipv4 c))

-- The hosts file, if there is one; `none` if it cannot be opened.
unfoldable pub load_hosts : Os → Option (List ℕ) → Cache → Run (Option Cache)
load_hosts os none c = ok (some c)
load_hosts os (some f) c = elim (os.lines_of f) [
  | none ↦ ok none
  | some lines ↦ (do c' ← read_hosts_file os.tokens os.inet_pton lines c; ok (some c'))
]

-- The upstream server, the socket and the semaphores.
unfoldable pub listen : Os → Arguments → Cache → Server → Option Server
listen os args c st =
    let upstream : ℕ = elim args.dns_server [ none ↦ st.dns_addr | some a ↦ os.inet_addr a ] in
    if os.socket && os.bind
    then some (record st {
      cache = c;
      dns_addr = upstream;
      convert_table = λ k. record (st.convert_table k) { sem = 0 };
    })
    else none

-- `none` stands for a return value of -1.
unfoldable pub server_init : Os → Arguments → Server → Run (Option Server)
server_init os args st = do
  loaded ← load_hosts os args.hosts_file (caches st.cache)
  elim loaded [ none ↦ ok none | some c ↦ ok (listen os args c st) ]

pub data Started : Type 0 where
  exits : (success : Bool) → Started
  serves : Log → Server → Started

-- `main` behind `program_init`.
unfoldable pub start_server : Os → Arguments → Server → Setting → Run Started
start_server os args st (continues log) = do
  ready ← server_init os args st
  elim ready [ none ↦ ok (exits false) | some st' ↦ ok (serves log st') ]
start_server os args st (stops log) = ok (exits false)

-- `main` up to `event_loop`.
unfoldable pub main : Os → List (ℕ × List ℕ) → Log → Server → Run Started
main os opts log st = elim (parse_arguments os.strtol opts) [
  | none ↦ ok (exits false)
  | some args ↦
      (let started = (do set ← program_init os args log; start_server os args st set) in
        if args.version then ok (exits true) else if args.help then ok (exits true) else started)
]
