-- ===== src/Tests/Starting.antt =====
-- src/cli/parse.c and src/main.c: options accepted and refused, and runs of start-up.
use adrift.Base.{ℕ, ◌-◌, ◌^◌, ◌≡◌, refl, true, false, none, some, List, [], ◌∷◌, ok}
use adrift.Cache.{no_cache}
use adrift.Handle.State.{Server}
use adrift.Handle.System.{unused}
use adrift.Log.{Log, first_log, codes, set_debug_level}
use adrift.Startup.Cli.{default_arguments, parse_arguments, parse_options, parse_option, set_level}
use adrift.Startup.Init.{
  Os, program_init, load_hosts, listen, server_init, exits, serves, start_server, main,
}

-- One digit.
abbrev strtol : List ℕ → ℕ
strtol [] = 0
strtol (c ∷ t) = c - b'0'

abbrev hosts_name : List ℕ
hosts_name = b'h' ∷ []

last_level :
    parse_arguments strtol ((b'd', b'1' ∷ []) ∷ (b'f', hosts_name) ∷ (b'd', b'2' ∷ []) ∷ [])
    ≡ some (record default_arguments { debug_level = 2; hosts_file = some hosts_name })
unfolding parse_arguments parse_options parse_option set_level default_arguments
last_level = refl

level_refused : parse_arguments strtol ((b'd', b'3' ∷ []) ∷ []) ≡ none
unfolding parse_arguments parse_options parse_option set_level default_arguments
level_refused = refl

-- The cast to 32 bits lets a multiple of 2 ^ 32 through.
level_cast :
    parse_arguments (λ _. 2 ^ 32) ((b'd', []) ∷ [])
    ≡ some (record default_arguments { debug_level = 0 })
unfolding parse_arguments parse_options parse_option set_level default_arguments
level_cast = refl

-- A system without files.
abbrev os : Os
os = record {
  lines_of = λ _. none;
  opens_log = λ _. false;
  tokens = λ _. none;
  inet_pton = λ _. none;
  inet_addr = λ _. 9;
  clock = codes "12:00:00";
  strtol = strtol;
  socket = true;
  bind = true;
}

abbrev globals : Server
globals = record {
  cache = no_cache;
  convert_table = λ _. unused;
  buf1_len = 1;
  dns_addr = 53;
  sent = [];
}

help_wins : main os ((b'h', []) ∷ (b'f', hosts_name) ∷ []) first_log globals ≡ ok (exits true)
unfolding main parse_arguments parse_options parse_option default_arguments
help_wins = refl

hosts_missing : main os ((b'f', hosts_name) ∷ []) first_log globals ≡ ok (exits false)
unfolding main parse_arguments parse_options parse_option default_arguments server_init load_hosts
    program_init start_server set_debug_level
hosts_missing = refl

upstream_set :
    (log : Log) × (st : Server) × (main os ((b's', []) ∷ []) first_log globals ≡ ok (serves log st))
    × (st.dns_addr ≡ 9)
unfolding main parse_arguments parse_options parse_option default_arguments server_init load_hosts
    listen program_init start_server set_debug_level
upstream_set = (_, _, refl, refl)
