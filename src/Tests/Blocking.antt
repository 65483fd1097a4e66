-- ===== src/Tests/Blocking.antt =====
-- src/main.c and src/protocol/handle.c: the hosts file "7 abc.cn", where "7" stands for 0.0.0.0.
use adrift.Base.{ℕ, ◌+◌, ◌≤◌, ◌≡◌, some, List, [], ◌∷◌, ◌++◌, refl, ok, arith, length, true, inl}
use adrift.Handle.Blocked.{authority_bytes, refusal_header}
use adrift.Handle.Query.{replied}
use adrift.Handle.Response.{receive_datagram}
use adrift.Handle.State.{Server, buffer_len}
use adrift.Hosts.{is_zero_address}
use adrift.Log.{first_log, continues, set_debug_level}
use adrift.Protocol.Bytes.{store16, store32}
use adrift.Protocol.Header.{dump_header, get_default_header}
use adrift.Protocol.Name.RoundTrip.{wire}
use adrift.Startup.Blocked.{host_blocked}
use adrift.Startup.Cli.{parse_arguments, parse_options, parse_option, default_arguments}
use adrift.Startup.Init.{Os, program_init, serves, main}
use adrift.Tests.Answering.{
  address_question, address_query, address_query-dumps, question-IsQuestion, hosts_os,
  hosts_options, hosts_arguments,
}
use adrift.Tests.Containers.{key, key-IsKey}
use adrift.Tests.Hosting.{line, domain, line-tokens, domain-dot}
use adrift.Tests.Streaming.{header-IsHeader, query_bit, one_question}
use adrift.Tests.Waiting.{header, first_server}

abbrev nowhere : List ℕ
nowhere = 0 ∷ 0 ∷ 0 ∷ 0 ∷ []

abbrev blocking_os : Os
blocking_os = record hosts_os { inet_pton = λ _. some nowhere }

nowhere-zero : is_zero_address nowhere ≡ true
unfolding is_zero_address
nowhere-zero = refl

options-parsed : parse_arguments blocking_os.strtol hosts_options ≡ some hosts_arguments
unfolding parse_arguments parse_options parse_option default_arguments
options-parsed = refl

no_log : program_init blocking_os hosts_arguments first_log ≡ ok (continues first_log)
unfolding program_init set_debug_level
no_log = refl

refusal_fits : 12 + length (address_query ++ authority_bytes) ≤ buffer_len
unfolding wire store16 store32
refusal_fits = omega arith

host_blocked_example :
    (s : Server) × (main blocking_os hosts_options first_log first_server ≡ ok (serves first_log s))
    × (s.sent ≡ [])
    × (receive_datagram 130 9 (dump_header header ++ (address_query ++ [])) s
        ≡ ok (
          some replied,
          record s {
            sent =
                record {
                  bytes = dump_header (refusal_header header) ++ (address_query ++ authority_bytes);
                  to = 9;
                }
                ∷ s.sent;
          },
        ))
unfolding get_default_header
host_blocked_example =
    host_blocked blocking_os hosts_options hosts_arguments first_log first_log first_server
      (b'h' ∷ []) line (b'7' ∷ []) domain key nowhere 130 9 header address_question address_query []
      options-parsed refl refl no_log refl refl line-tokens domain-dot refl refl nowhere-zero
      key-IsKey (omega arith) refl refl
      (header-IsHeader 77 0 0 (omega arith) (omega arith) (omega arith)) query_bit one_question
      question-IsQuestion (inl refl) refl address_query-dumps refusal_fits
