-- ===== src/Protocol/Record.antt =====
-- src/protocol/protocol.h, `DnsResourceRecord`; src/protocol/protocol.c, its parser, its printer
-- and the authority record of an error response.
pub mod RoundTrip
use adrift.Base.{ℕ, ◌+◌, List, [], ◌∷◌, ◌++◌, Run, ok, ◌>>=◌, drop, read, ◌==◌, if◌then◌else◌}
use adrift.Protocol.Bytes.{load16, load32, store16, store32, load_bytes}
use adrift.Protocol.Name.{parse_qname, dump_name}
use adrift.Protocol.Question.{DnsQuestion}

-- `name` is the text's block with its NUL, `rdata` the block of the data.
pub record DnsResourceRecord : Type 0 where
  pub name : List ℕ
  pub rtype : ℕ
  pub class : ℕ
  pub ttl : ℕ
  pub rdlength : ℕ
  pub rdata : List ℕ

-- A name that begins with 0xc0 is a pointer: the next byte is its offset in the message.
unfoldable pub parse_record_name : List ℕ → List ℕ → Run (List ℕ × List ℕ)
parse_record_name buf name_buf = do
  b ← read buf
  if b == 0xc0
      then (do
        offset ← read (drop 1 buf)
        (name, _) ← parse_qname (drop offset name_buf)
        ok (name, drop 1 (drop 1 buf)))
      else parse_qname buf

unfoldable pub parse_resource_record : List ℕ → List ℕ → Run (DnsResourceRecord × List ℕ)
unfolding parse_record_name
parse_resource_record buf name_buf = do
  (name, p₁) ← parse_record_name buf name_buf
  (rtype, p₂) ← load16 p₁
  (class, p₃) ← load16 p₂
  (ttl, p₄) ← load32 p₃
  (rdlength, p₅) ← load16 p₄
  (rdata, p₆) ← load_bytes rdlength p₅
  ok (
    record {
      name = name;
      rtype = rtype;
      class = class;
      ttl = ttl;
      rdlength = rdlength;
      rdata = rdata;
    },
    p₆,
  )

unfoldable pub dump_resource_record : DnsResourceRecord → Run (List ℕ)
dump_resource_record r = do
  name ← dump_name r.name
  (rdata, _) ← load_bytes r.rdlength r.rdata
  ok (
      name
      ++ (store16 r.rtype ++ (store16 r.class ++ (store32 r.ttl ++ (store16 r.rdlength ++ rdata)))))

abbrev pub soa_rdata : List ℕ
soa_rdata =
    0x01 ∷ 0x61 ∷ 0x0c ∷ 0x72 ∷ 0x6f ∷ 0x6f ∷ 0x74 ∷ 0x2d ∷ 0x73 ∷ 0x65 ∷ 0x72 ∷ 0x76 ∷ 0x65 ∷ 0x72
    ∷ 0x73 ∷ 0x03 ∷ 0x6e ∷ 0x65 ∷ 0x74 ∷ 0x00 ∷ 0x05 ∷ 0x6e ∷ 0x73 ∷ 0x74 ∷ 0x6c ∷ 0x64 ∷ 0x0c
    ∷ 0x76 ∷ 0x65 ∷ 0x72 ∷ 0x69 ∷ 0x73 ∷ 0x69 ∷ 0x67 ∷ 0x6e ∷ 0x2d ∷ 0x67 ∷ 0x72 ∷ 0x73 ∷ 0x03
    ∷ 0x63 ∷ 0x6f ∷ 0x6d ∷ 0x00 ∷ 0x78 ∷ 0x95 ∷ 0x7c ∷ 0x48 ∷ 0x00 ∷ 0x00 ∷ 0x07 ∷ 0x08 ∷ 0x00
    ∷ 0x00 ∷ 0x03 ∷ 0x84 ∷ 0x00 ∷ 0x09 ∷ 0x3a ∷ 0x80 ∷ 0x00 ∷ 0x01 ∷ 0x51 ∷ 0x80 ∷ []

-- The record that `dump_error_authority` builds: an SOA of the root, for three hours.
abbrev pub error_authority : DnsResourceRecord
error_authority = record {
  name = 0 ∷ [];
  rtype = 0x0006;
  class = 0x0001;
  ttl = 10800;
  rdlength = 64;
  rdata = soa_rdata;
}

unfoldable pub dump_error_authority : DnsQuestion → Run (List ℕ)
dump_error_authority question = dump_resource_record error_authority
