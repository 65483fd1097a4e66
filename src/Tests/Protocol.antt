-- ===== src/Tests/Protocol.antt =====
-- src/protocol/protocol.c: runs of the model, and the theorems at a name, a header and a record.
use adrift.Base.{
  ℕ, List, [], ◌∷◌, ◌++◌, ◌≡◌, ◌<◌, ◌⊎◌, All, suc, refl, ok, fault, read_overrun, ◌>>=◌, arith,
  length, drop,
}
use adrift.Protocol.Bytes.{load16}
use adrift.Protocol.Header.{DnsHeader, IsHeader, parse_header, dump_header}
use adrift.Protocol.Header.RoundTrip.{parse_header-dump_header, dump_header-parse_header}
use adrift.Protocol.Name.{parse_qname, dump_name, get_qname_length, put}
use adrift.Protocol.Name.Safety.{parse_qname_safe}
use adrift.Protocol.Name.RoundTrip.{Label, IsTextLabel, wire, dotted, All-IsLabel, name_round_trip}
use adrift.Protocol.Record.{DnsResourceRecord, parse_resource_record, dump_resource_record}
use adrift.Protocol.Record.RoundTrip.{
  IsRecord, IsShort, fields, parse_record-dump_record, parse_record-pointer,
}

abbrev wire_name : List ℕ
wire_name = 3 ∷ b'a' ∷ b'b' ∷ b'c' ∷ 2 ∷ b'c' ∷ b'n' ∷ 0 ∷ []

abbrev text_name : List ℕ
text_name = b'a' ∷ b'b' ∷ b'c' ∷ b'.' ∷ b'c' ∷ b'n' ∷ b'.' ∷ 0 ∷ []

parse_qname_run : parse_qname (wire_name ++ 7 ∷ []) ≡ ok (text_name, 7 ∷ [])
unfolding parse_qname get_qname_length put
parse_qname_run = refl

parse_qname_cut : parse_qname (3 ∷ b'a' ∷ []) ≡ fault read_overrun
unfolding parse_qname get_qname_length
parse_qname_cut = refl

dump_name_run : dump_name text_name ≡ ok wire_name
unfolding dump_name
dump_name_run = refl

parse_qname_safe_example :
    ((r : List ℕ × List ℕ) × (parse_qname wire_name ≡ ok r)
      × (get_qname_length wire_name ≡ ok (suc (length r.0))))
    ⊎ (parse_qname wire_name ≡ fault read_overrun)
parse_qname_safe_example = parse_qname_safe wire_name

-- The labels of "abc.cn".
abbrev labels : List Label
labels = (b'a' ∷ b'b' ∷ b'c' ∷ []) ∷ (b'c' ∷ b'n' ∷ []) ∷ []

labels-AreText : All IsTextLabel labels
labels-AreText = ground arith

name_round_trip_example :
    ((dump_name (dotted labels ++ 0 ∷ []) >>= λ bytes. parse_qname (bytes ++ 7 ∷ []))
      ≡ ok (dotted labels ++ 0 ∷ [], 7 ∷ []))
    × ((parse_qname (wire labels ++ 7 ∷ []) >>= λ r. dump_name r.0) ≡ ok (wire labels))
name_round_trip_example = name_round_trip labels (7 ∷ []) labels-AreText

-- A query with one question.
abbrev query_header : DnsHeader
query_header = record {
  id = 0x1234;
  rd = 1;
  tc = 0;
  aa = 0;
  opcode = 2;
  qr = 0;
  rcode = 3;
  cd = 1;
  ad = 0;
  z = 0;
  ra = 1;
  qdcount = 1;
  ancount = 0;
  nscount = 0;
  arcount = 300;
}

query_header-IsHeader : IsHeader query_header
query_header-IsHeader = record {
  id16 = omega arith;
  rd1 = omega arith;
  tc1 = omega arith;
  aa1 = omega arith;
  opcode4 = omega arith;
  qr1 = omega arith;
  rcode4 = omega arith;
  cd1 = omega arith;
  ad1 = omega arith;
  z1 = omega arith;
  ra1 = omega arith;
  qdcount16 = omega arith;
  ancount16 = omega arith;
  nscount16 = omega arith;
  arcount16 = omega arith;
}

parse_header-dump_header_example :
    parse_header (dump_header query_header ++ 5 ∷ []) ≡ ok (query_header, 5 ∷ [])
parse_header-dump_header_example =
    parse_header-dump_header query_header (5 ∷ []) query_header-IsHeader

abbrev header_bytes : List ℕ
header_bytes = 0x12 ∷ 0x34 ∷ 0x11 ∷ 0x93 ∷ 0 ∷ 1 ∷ 0 ∷ 0 ∷ 0 ∷ 0 ∷ 1 ∷ 44 ∷ []

header_bytes-parse : parse_header header_bytes ≡ ok (query_header, [])
unfolding parse_header load16
header_bytes-parse = refl

header_bytes-AreBytes : All (λ b. b < 256) header_bytes
header_bytes-AreBytes = ground arith

dump_header-parse_header_example : dump_header query_header ++ [] ≡ header_bytes
dump_header-parse_header_example =
    dump_header-parse_header header_bytes query_header [] header_bytes-AreBytes header_bytes-parse

labels-AreShort : All IsShort labels
labels-AreShort = ground arith

abbrev address_record : DnsResourceRecord
address_record = record {
  name = dotted labels ++ 0 ∷ [];
  rtype = 1;
  class = 1;
  ttl = 70000;
  rdlength = 4;
  rdata = 10 ∷ 0 ∷ 0 ∷ 1 ∷ [];
}

address_record-IsRecord : IsRecord address_record
address_record-IsRecord = record {
  rtype16 = omega arith;
  class16 = omega arith;
  ttl32 = omega arith;
  rdlength16 = omega arith;
  measured = refl;
}

parse_record-dump_record_example :
    (dump_resource_record address_record >>= λ bytes. parse_resource_record (bytes ++ 9 ∷ []) [])
    ≡ ok (address_record, 9 ∷ [])
parse_record-dump_record_example =
    parse_record-dump_record labels address_record [] (9 ∷ []) labels-AreText labels-AreShort refl
      address_record-IsRecord

abbrev message : List ℕ
message = 0 ∷ 0 ∷ wire labels

message_name : drop 2 message ≡ wire labels ++ []
unfolding wire
message_name = refl

parse_record-pointer_example :
    parse_resource_record (0xc0 ∷ 2 ∷ (fields address_record ++ 9 ∷ [])) message
    ≡ ok (address_record, 9 ∷ [])
parse_record-pointer_example =
    parse_record-pointer labels address_record 2 message [] (9 ∷ [])
      (All-IsLabel labels labels-AreText) message_name refl address_record-IsRecord
