-- ===== src/Tests/Handlers.antt =====
-- src/protocol/handle.c: the theorems at small servers.
use adrift.Base.{
  ℕ, ◌+◌, ◌^◌, ◌≤◌, ◌≡◌, none, List, [], ◌∷◌, ◌++◌, refl, ok, ◌>>=◌, arith, ltb, if◌then◌else◌,
}
use adrift.Cache.{no_cache}
use adrift.Ds.List.Segment.{Item}
use adrift.Handle.State.{Server}
use adrift.Handle.Query.{handle_send_query, handle_receive_query, replied}
use adrift.Handle.Response.{Sections, response_body, handle_send_response}
use adrift.Handle.ReadCache.{remaining_ttl}
use adrift.Handle.Relay.{relay_round_trip, refusal_without_id}
use adrift.Handle.Cached.{remaining_ttl_wraps}
use adrift.Protocol.Bytes.{load16, store16}
use adrift.Protocol.Header.{
  DnsHeader, dump_header, parse_header, get_error_header, get_default_header, format_error,
}
use adrift.Protocol.Name.{parse_qname, dump_name, get_qname_length, put}
use adrift.Protocol.Question.{DnsQuestion, dump_question, parse_question}
use adrift.Tests.Containers.{other_key}

-- "a.", asked for its address.
abbrev question : DnsQuestion
question = record { qname = other_key ++ 0 ∷ []; qtype = 1; qclass = 1 }

abbrev question_bytes : List ℕ
question_bytes = 1 ∷ b'a' ∷ 0 ∷ 0 ∷ 1 ∷ 0 ∷ 1 ∷ []

question-dumps : dump_question question ≡ ok question_bytes
unfolding dump_question dump_name store16
question-dumps = refl

question-parses : parse_question question_bytes ≡ ok (question, [])
unfolding parse_question parse_qname get_qname_length put load16
question-parses = refl

abbrev no_sections : Sections
no_sections = record { answers = []; authorities = []; additionals = [] }

response-dumps : response_body question no_sections ≡ ok question_bytes
unfolding response_body dump_question dump_name store16
response-dumps = refl

abbrev header : DnsHeader
header = record get_default_header { id = 77; qdcount = 1 }

abbrev server_at : ℕ → Server
server_at n = record {
  cache = no_cache;
  convert_table = λ _. record { buf_req_id = 0; buf_sock = 0; sem = 0; valid = 0 };
  buf1_len = n;
  dns_addr = 53;
  sent = [];
}

relay_round_trip_example :
    (st' : Server) × ((handle_send_query 9 header question (server_at 5) >>= λ r.
    handle_send_response r.0 header question no_sections r.1)
      ≡ ok st')
    × (st'.sent
        ≡ record { bytes = dump_header (record header { id = 77 }) ++ question_bytes; to = 9 }
          ∷ record { bytes = dump_header (record header { id = 5 }) ++ question_bytes; to = 53 }
          ∷ [])
relay_round_trip_example =
    relay_round_trip 9 header header question question no_sections question_bytes question_bytes
      (server_at 5) question-dumps response-dumps (omega arith) (omega arith) (omega arith)

refusal_without_id_example :
    (bytes : List ℕ) × (handle_receive_query 100 9 question_bytes
        (record header { qdcount = 2 })
        (server_at 5)
      ≡ ok (replied, record (server_at 5) { sent = record { bytes = bytes; to = 9 } ∷ [] }))
    × (parse_header bytes ≡ ok (get_error_header format_error, []))
    × ((get_error_header format_error).id ≡ 0)
refusal_without_id_example =
    refusal_without_id 100 9 question_bytes (record header { qdcount = 2 }) (server_at 5)
      (omega arith)

-- A record of 60 seconds, cached at 1000 and asked for at 1065.
abbrev late_item : Item
late_item = record { content = none; record_time = 1000; ttl = 60; rr_type = 1 }

remaining_ttl_wraps_example :
    (remaining_ttl 1065 late_item + 1065 ≡ 1060 + (if ltb 1060 1065 then 2 ^ 32 else 0))
    × (1065 ≤ 1070)
remaining_ttl_wraps_example =
    remaining_ttl_wraps 1065 late_item (omega arith) (omega arith) (omega arith) refl
