-- ===== src/Startup.antt =====
-- src/cli/parse.c and src/main.c: the options, and the order of start-up. Output is left out.
pub mod Cli
pub mod Init
pub mod Exit
pub mod Answer
pub mod Blocked
pub mod Laws
