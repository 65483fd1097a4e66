-- ===== src/Startup/Cli.antt =====
-- src/cli/parse.c and parse.h. `getopt` is a parameter: the options that it returns one by one, each
-- with its `optarg`. `strtol` returns the 64-bit pattern of a long.
use adrift.Base.{
  ℕ, ◌%◌, ◌^◌, Bool, true, false, Option, none, some, List, [], ◌∷◌, ◌==◌, ltb, if◌then◌else◌,
}

pub record Arguments : Type 0 where
  pub dns_server : Option (List ℕ)
  pub hosts_file : Option (List ℕ)
  pub log_file : Option (List ℕ)
  pub debug_level : ℕ
  pub help : Bool
  pub version : Bool

abbrev pub default_debug_level : ℕ
default_debug_level = 0

unfoldable pub default_arguments : Arguments
default_arguments = record {
  dns_server = none;
  hosts_file = none;
  log_file = none;
  debug_level = default_debug_level;
  help = false;
  version = false;
}

-- The cast to 32 bits; a negative number is a pattern of 2 ^ 31 or more, and so not below 3.
unfoldable pub set_level : ℕ → Arguments → Option Arguments
set_level long args =
    let level = long % 2 ^ 32 in
    if ltb level 3 then some (record args { debug_level = level }) else none

-- One round; `none` stands for an exit with a failure.
unfoldable pub parse_option : (List ℕ → ℕ) → ℕ → List ℕ → Arguments → Option Arguments
parse_option strtol opt optarg args =
    if opt == b'd'
    then set_level (strtol optarg) args
    else if opt == b'f'
    then some (record args { hosts_file = some optarg })
    else if opt == b'h'
    then some (record args { help = true })
    else if opt == b'l'
    then some (record args { log_file = some optarg })
    else if opt == b's'
    then some (record args { dns_server = some optarg })
    else if opt == b'v'
    then some (record args { version = true })
    else none

unfoldable pub parse_options : (List ℕ → ℕ) → List (ℕ × List ℕ) → Arguments → Option Arguments
parse_options strtol [] args = some args
parse_options strtol ((opt, optarg) ∷ opts) args = elim (parse_option strtol opt optarg args) [
  | none ↦ none
  | some args' ↦ parse_options strtol opts args'
]

unfoldable pub parse_arguments : (List ℕ → ℕ) → List (ℕ × List ℕ) → Option Arguments
parse_arguments strtol opts = parse_options strtol opts default_arguments
