-- ===== src/Tests/Streaming.antt =====
-- src/protocol/handle.c: `handle_stream` on a query for mail exchangers and its response.
use adrift.Base.{none, some, ◌<◌, ◌^◌, ℕ, ◌≡◌, List, [], ◌∷◌, ◌++◌, refl, ok, arith}
use adrift.Cache.{no_cache}
use adrift.Handle.State.{Server}
use adrift.Handle.Query.{forwarded}
use adrift.Handle.Response.{response_body, cache_sections, dump_records}
use adrift.Handle.ReadCache.{lookup_question}
use adrift.Handle.Stream.{stream_round_trip}
use adrift.Handle.Wire.{IsQuestion, IsMessage}
use adrift.Protocol.Header.{IsHeader}
use adrift.Protocol.Record.{DnsResourceRecord, dump_resource_record}
use adrift.Protocol.Bytes.{store32, load_bytes}
use adrift.Protocol.Name.RoundTrip.{dotted}
use adrift.Ds.List.{list_node_ctor_with_info, list_node_ctor}
use adrift.Cache.{Cache}
use adrift.Handle.Response.{Sections, cache_record, cache_records, receive_datagram}
use adrift.Util.{min_u32}
use adrift.Protocol.Bytes.{store16}
use adrift.Protocol.Header.{DnsHeader, dump_header, get_default_header}
use adrift.Protocol.Name.{dump_name}
use adrift.Protocol.Question.{dump_question}
use adrift.Tests.Waiting.{question, question_bytes, question-dumps, header, first_server, response}

-- A response with one mail exchanger.
abbrev exchanger : DnsResourceRecord
exchanger = record {
  name = b'a' ∷ b'.' ∷ 0 ∷ [];
  rtype = 15;
  class = 1;
  ttl = 60;
  rdlength = 4;
  rdata = 0 ∷ 10 ∷ 1 ∷ 109 ∷ [];
}

abbrev mail_reply : DnsHeader
mail_reply = record response { ancount = 1 }

abbrev mail_sections : Sections
mail_sections = record { answers = exchanger ∷ []; authorities = []; additionals = [] }

abbrev mail_bytes : List ℕ
mail_bytes =
    question_bytes ++ 1 ∷ b'a' ∷ 0 ∷ 0 ∷ 15 ∷ 0 ∷ 1 ∷ 0 ∷ 0 ∷ 0 ∷ 60 ∷ 0 ∷ 4 ∷ 0 ∷ 10 ∷ 1 ∷ 109 ∷ []

mail-dumps : response_body question mail_sections ≡ ok mail_bytes
unfolding response_body dump_question dump_name store16 store32 dump_records dump_resource_record
    load_bytes
mail-dumps = refl

pub header-IsHeader :
    (id qr ancount : ℕ)
    → id < 2 ^ 16
    → qr < 2
    → ancount < 2 ^ 16
    → IsHeader (record header { id = id; qr = qr; ancount = ancount })
unfolding get_default_header
header-IsHeader id qr ancount h i j = record {
  id16 = h;
  rd1 = omega arith;
  tc1 = omega arith;
  aa1 = omega arith;
  opcode4 = omega arith;
  qr1 = i;
  rcode4 = omega arith;
  cd1 = omega arith;
  ad1 = omega arith;
  z1 = omega arith;
  ra1 = omega arith;
  qdcount16 = omega arith;
  ancount16 = j;
  nscount16 = omega arith;
  arcount16 = omega arith;
}

question-IsQuestion : IsQuestion question
unfolding dotted
question-IsQuestion = record {
  labels = (b'a' ∷ []) ∷ [];
  text = ground arith;
  named = refl;
  qtype16 = omega arith;
  qclass16 = omega arith;
}

mail-IsMessage : IsMessage mail_reply question mail_sections
unfolding dotted get_default_header
mail-IsMessage = record {
  header = header-IsHeader 1 1 1 (omega arith) (omega arith) (omega arith);
  question = question-IsQuestion;
  answers = (
    record {
      labels = (b'a' ∷ []) ∷ [];
      text = ground arith;
      short = ground arith;
      named = refl;
      fits = record {
        rtype16 = omega arith;
        class16 = omega arith;
        ttl32 = omega arith;
        rdlength16 = omega arith;
        measured = refl;
      };
    },
    tt,
  );
  authorities = tt;
  additionals = tt;
  an = refl;
  ns = refl;
  ar = refl;
}

pub query_bit : header.qr ≡ 0
unfolding get_default_header
query_bit = refl

pub one_question : header.qdcount ≡ 1
unfolding get_default_header
one_question = refl

question_missing : lookup_question question no_cache ≡ ok none
unfolding lookup_question
question_missing = refl

mail_cached :
    (c : Cache) × (cache_sections 100 mail_reply question.qname mail_sections no_cache ≡ ok c)
unfolding cache_sections cache_records cache_record list_node_ctor_with_info list_node_ctor min_u32
    get_default_header
mail_cached = (_, refl)

stream_round_trip_example :
    (st₁ st₂ : Server) × (receive_datagram 100 9
        (dump_header header ++ (question_bytes ++ []))
        first_server
      ≡ ok (some (forwarded 1), st₁))
    × (receive_datagram 100 53 (dump_header mail_reply ++ (mail_bytes ++ [])) st₁ ≡ ok (none, st₂))
    × (st₂.sent
        ≡ record { bytes = dump_header (record mail_reply { id = 77 }) ++ mail_bytes; to = 9 }
          ∷ record { bytes = dump_header (record header { id = 1 }) ++ question_bytes; to = 53 }
          ∷ [])
    × (0 < (st₂.convert_table 1).sem)
unfolding get_default_header
stream_round_trip_example =
    stream_round_trip 100 100 9 53 header mail_reply question question mail_sections question_bytes
      [] mail_bytes [] (mail_cached.0) first_server
      (header-IsHeader 77 0 0 (omega arith) (omega arith) (omega arith)) query_bit one_question
      question-IsQuestion question-dumps (omega arith) question_missing (omega arith) refl refl
      mail-IsMessage mail-dumps (omega arith) (mail_cached.1)
