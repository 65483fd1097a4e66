-- ===== src/Tests/Answering.antt =====
-- src/protocol/handle.c and src/main.c: the address of "abc.cn." asked for twice, and taken from the
-- hosts file.
use adrift.Util.{min_u32}
use adrift.Base.{
  ℕ, ◌≡◌, ◌≤◌, ◌+◌, none, some, List, [], ◌∷◌, ◌++◌, refl, ok, arith, length, true, false,
}
use adrift.Cache.{no_cache}
use adrift.Handle.Answer.{answer_header}
use adrift.Handle.Query.{forwarded, replied}
use adrift.Handle.ReadCache.{remaining_ttl}
use adrift.Handle.Repeat.{one_answer, cached_item, repeated_question}
use adrift.Handle.Poison.{unsolicited_response}
use adrift.Handle.Response.{response_body, dump_records, receive_datagram}
use adrift.Handle.State.{Server, buffer_len}
use adrift.Handle.Wire.{IsQuestion, IsMessage}
use adrift.Hosts.{hosts_record}
use adrift.Hosts.Laws.{hosts_item}
use adrift.Log.{first_log, continues, set_debug_level}
use adrift.Protocol.Bytes.{store16, store32, load_bytes}
use adrift.Protocol.Header.{DnsHeader, dump_header, get_default_header}
use adrift.Protocol.Name.{dump_name}
use adrift.Protocol.Name.RoundTrip.{dotted, wire}
use adrift.Protocol.Question.{DnsQuestion, dump_question}
use adrift.Protocol.Record.{DnsResourceRecord, dump_resource_record}
use adrift.Protocol.Record.RoundTrip.{fields}
use adrift.Startup.Answer.{caches-view, host_answered}
use adrift.Startup.Cli.{Arguments, default_arguments, parse_arguments, parse_options, parse_option}
use adrift.Startup.Init.{Os, caches, program_init, serves, main}
use adrift.Tests.Containers.{key, key-IsKey}
use adrift.Tests.Hosting.{
  tokens_from, address_of, line, domain, line-tokens, domain-dot, line-address, address_not_zero,
}
use adrift.Tests.Streaming.{header-IsHeader, query_bit, one_question}
use adrift.Tests.Waiting.{header, first_server}

abbrev pub address_question : DnsQuestion
address_question = record { qname = key ++ 0 ∷ []; qtype = 1; qclass = 1 }

abbrev pub address_query : List ℕ
address_query = 3 ∷ b'a' ∷ b'b' ∷ b'c' ∷ 2 ∷ b'c' ∷ b'n' ∷ 0 ∷ 0 ∷ 1 ∷ 0 ∷ 1 ∷ []

pub address_query-dumps : dump_question address_question ≡ ok address_query
unfolding dump_question dump_name store16
address_query-dumps = refl

abbrev address_record : DnsResourceRecord
address_record = record {
  name = key ++ 0 ∷ [];
  rtype = 1;
  class = 1;
  ttl = 60;
  rdlength = 4;
  rdata = 7 ∷ 7 ∷ 7 ∷ 7 ∷ [];
}

-- The record as it is written with a time to live below 256.
abbrev record_bytes : ℕ → List ℕ
record_bytes ttl =
    3 ∷ b'a' ∷ b'b' ∷ b'c' ∷ 2 ∷ b'c' ∷ b'n' ∷ 0 ∷ 0 ∷ 1 ∷ 0 ∷ 1 ∷ 0 ∷ 0 ∷ 0 ∷ ttl ∷ 0 ∷ 4 ∷ 7 ∷ 7
    ∷ 7 ∷ 7 ∷ []

abbrev address_reply : DnsHeader
address_reply = record header { id = 1; qr = 1; ancount = 1 }

reply-dumps :
    response_body address_question (one_answer address_record)
    ≡ ok (address_query ++ record_bytes 60)
unfolding response_body dump_question dump_name store16 store32 dump_records dump_resource_record
    load_bytes
reply-dumps = refl

-- At 130, when the record has been there for 30 seconds.
later-dumps :
    dump_resource_record
      (record address_record { ttl = remaining_ttl 130 (cached_item 100 address_record) })
    ≡ ok (record_bytes 30)
unfolding dump_resource_record dump_name store16 store32 load_bytes remaining_ttl min_u32
later-dumps = refl

pub question-IsQuestion : IsQuestion address_question
unfolding dotted
question-IsQuestion = record {
  labels = (b'a' ∷ b'b' ∷ b'c' ∷ []) ∷ (b'c' ∷ b'n' ∷ []) ∷ [];
  text = ground arith;
  named = refl;
  qtype16 = omega arith;
  qclass16 = omega arith;
}

reply-IsMessage : IsMessage address_reply address_question (one_answer address_record)
unfolding dotted get_default_header
reply-IsMessage = record {
  header = header-IsHeader 1 1 1 (omega arith) (omega arith) (omega arith);
  question = question-IsQuestion;
  answers = (
    record {
      labels = (b'a' ∷ b'b' ∷ b'c' ∷ []) ∷ (b'c' ∷ b'n' ∷ []) ∷ [];
      text = ground arith;
      short = ground arith;
      named = refl;
      fits = record {
        rtype16 = omega arith;
        class16 = omega arith;
        ttl32 = omega arith;
        rdlength16 = omega arith;
        measured = refl;
      };
    },
    tt,
  );
  authorities = tt;
  additionals = tt;
  an = refl;
  ns = refl;
  ar = refl;
}

late : 130 ≤ 100 + min_u32 180 address_record.ttl + 10
unfolding min_u32
late = omega arith

abbrev empty_server : Server
empty_server = record first_server { cache = caches no_cache }

repeated_question_example :
    (st₁ st₂ st₃ : Server) × (receive_datagram 100 9
        (dump_header header ++ (address_query ++ []))
        empty_server
      ≡ ok (some (forwarded 1), st₁))
    × (receive_datagram 100 53
          (dump_header address_reply ++ ((address_query ++ record_bytes 60) ++ []))
          st₁
        ≡ ok (none, st₂))
    × (receive_datagram 130 8 (dump_header header ++ (address_query ++ [])) st₂
        ≡ ok (some replied, st₃))
    × (st₃.sent
        ≡ record {
          bytes = dump_header (answer_header header) ++ (address_query ++ record_bytes 30);
          to = 8;
        }
          ∷ record {
            bytes =
                dump_header (record address_reply { id = header.id })
                ++ (address_query ++ record_bytes 60);
            to = 9;
          }
          ∷ record { bytes = dump_header (record header { id = 1 }) ++ address_query; to = 53 }
          ∷ [])
unfolding get_default_header
repeated_question_example =
    let (ipv4, cname, no_ipv4, no_cname, _, _) = caches-view no_cache in
    let v = header-IsHeader 77 0 0 (omega arith) (omega arith) (omega arith) in
    repeated_question 100 100 130 9 8 53 header header address_reply address_question address_record
      key address_query [] [] (address_query ++ record_bytes 60) [] (record_bytes 30) empty_server v
      query_bit one_question v query_bit one_question refl refl key-IsKey (omega arith)
      address_query-dumps (omega arith) ipv4 (no_ipv4 key) cname (no_cname key) (omega arith) refl
      refl refl reply-IsMessage refl refl address_not_zero reply-dumps (omega arith) late
      later-dumps (omega arith)

-- Nobody has asked for the response.
unsolicited_response_example :
    (st₁ st₂ : Server) × (receive_datagram 100 66
        (dump_header address_reply ++ ((address_query ++ record_bytes 60) ++ []))
        empty_server
      ≡ ok (none, st₁))
    × (st₁.sent ≡ [])
    × (st₁.convert_table ≡ empty_server.convert_table)
    × (receive_datagram 130 8 (dump_header header ++ (address_query ++ [])) st₁
        ≡ ok (some replied, st₂))
    × (st₂.sent
        ≡ record {
          bytes = dump_header (answer_header header) ++ (address_query ++ record_bytes 30);
          to = 8;
        }
          ∷ [])
unfolding get_default_header
unsolicited_response_example =
    let (ipv4, cname, no_ipv4, no_cname, _, _) = caches-view no_cache in
    let v = header-IsHeader 77 0 0 (omega arith) (omega arith) (omega arith) in
    unsolicited_response 100 130 66 8 header address_reply address_question address_record key
      address_query [] (address_query ++ record_bytes 60) [] (record_bytes 30) empty_server v
      query_bit one_question refl refl key-IsKey (omega arith) address_query-dumps (omega arith)
      ipv4 (no_ipv4 key) cname (no_cname key) refl refl refl reply-IsMessage refl refl
      address_not_zero reply-dumps (omega arith) late later-dumps (omega arith)

-- A system with a hosts file of one line, "7 abc.cn".
abbrev pub hosts_os : Os
hosts_os = record {
  lines_of = λ _. some (line ∷ []);
  opens_log = λ _. false;
  tokens = tokens_from [];
  inet_pton = address_of;
  inet_addr = λ _. 9;
  clock = [];
  strtol = λ _. 0;
  socket = true;
  bind = true;
}

abbrev pub hosts_options : List (ℕ × List ℕ)
hosts_options = (b'f', b'h' ∷ []) ∷ []

abbrev pub hosts_arguments : Arguments
hosts_arguments = record {
  dns_server = none;
  hosts_file = some (b'h' ∷ []);
  log_file = none;
  debug_level = 0;
  help = false;
  version = false;
}

hosts_options-parsed : parse_arguments hosts_os.strtol hosts_options ≡ some hosts_arguments
unfolding parse_arguments parse_options parse_option default_arguments
hosts_options-parsed = refl

hosts_log : program_init hosts_os hosts_arguments first_log ≡ ok (continues first_log)
unfolding program_init set_debug_level
hosts_log = refl

abbrev hosts_bytes : List ℕ
hosts_bytes =
    let ttl = remaining_ttl 130 (hosts_item key (7 ∷ 7 ∷ 7 ∷ 7 ∷ [])) in
    let r = hosts_record key (7 ∷ 7 ∷ 7 ∷ 7 ∷ []) in
    wire (question-IsQuestion.labels) ++ fields (record r { ttl = ttl })

hosts_fits : 12 + length (address_query ++ hosts_bytes) ≤ buffer_len
unfolding wire store16 store32 question-IsQuestion
hosts_fits = omega arith

host_answered_example :
    (s s' : Server) × (main hosts_os hosts_options first_log first_server ≡ ok (serves first_log s))
    × (receive_datagram 130 9 (dump_header header ++ (address_query ++ [])) s
        ≡ ok (some replied, s'))
    × (s'.sent
        ≡ record {
          bytes = dump_header (answer_header header) ++ (address_query ++ hosts_bytes);
          to = 9;
        }
          ∷ [])
unfolding get_default_header
host_answered_example =
    host_answered hosts_os hosts_options hosts_arguments first_log first_log first_server
      (b'h' ∷ []) line (b'7' ∷ []) domain key (7 ∷ 7 ∷ 7 ∷ 7 ∷ []) 130 9 header address_question
      address_query [] hosts_options-parsed refl refl hosts_log refl refl line-tokens domain-dot
      line-address refl address_not_zero key-IsKey (omega arith) refl refl
      (header-IsHeader 77 0 0 (omega arith) (omega arith) (omega arith)) query_bit one_question
      question-IsQuestion refl refl address_query-dumps hosts_fits
