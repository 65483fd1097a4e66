-- ===== src/Protocol/Record/RoundTrip.antt =====
-- src/protocol/protocol.c: resource records, written and read back.
use adrift.Base.{
  ℕ, ◌<◌, ◌^◌, ◌≡◌, refl, List, [], ◌∷◌, ◌++◌, append_assoc, append-nil, ap, ◌∙◌, ok, ◌>>=◌, arith,
  length, drop, ne→==_false, All,
}
use adrift.Protocol.Bytes.{
  store16, store32, load_bytes, load16-store16, load32-store32, load_bytes-append,
}
use adrift.Protocol.Name.{dump_name}
use adrift.Protocol.Name.RoundTrip.{
  Label, IsTextLabel, IsLabel, wire, dotted, parse_qname-wire, dump_name-dotted, All-IsLabel,
}
use adrift.Protocol.Record.{
  DnsResourceRecord, parse_record_name, parse_resource_record, dump_resource_record,
}

-- The length limit of RFC 1035, below which no label looks like a pointer.
abbrev pub IsShort : Label → Type 0
IsShort l = length l < 64

-- Every field fits its width, and `rdlength` is the length of the data.
pub record IsRecord (r : DnsResourceRecord) : Type 0 where
  pub rtype16 : r.rtype < 2 ^ 16
  pub class16 : r.class < 2 ^ 16
  pub ttl32 : r.ttl < 2 ^ 32
  pub rdlength16 : r.rdlength < 2 ^ 16
  pub measured : length r.rdata ≡ r.rdlength

-- The bytes behind the name.
abbrev pub fields : DnsResourceRecord → List ℕ
fields r =
    store16 r.rtype ++ (store16 r.class ++ (store32 r.ttl ++ (store16 r.rdlength ++ r.rdata)))

parse_record_name-wire :
    (ls : List Label) (rest name_buf : List ℕ)
    → All IsLabel ls
    → All IsShort ls
    → parse_record_name (wire ls ++ rest) name_buf ≡ ok (dotted ls ++ 0 ∷ [], rest)
unfolding parse_record_name wire
parse_record_name-wire [] rest name_buf v s = parse_qname-wire [] rest v
parse_record_name-wire (l ∷ ls) rest name_buf v s =
    rw (ne→==_false (length l) 0xc0 (omega arith)) (parse_qname-wire (l ∷ ls) rest v)

parse_fields :
    (r : DnsResourceRecord) (buf name_buf rest : List ℕ)
    → IsRecord r
    → parse_record_name buf name_buf ≡ ok (r.name, fields r ++ rest)
    → parse_resource_record buf name_buf ≡ ok (r, rest)
unfolding parse_resource_record
parse_fields r buf name_buf rest v e =
    let data₅ = store16 r.rdlength ++ r.rdata in
    rw
      (
        e,
        append_assoc (store16 r.rtype) (store16 r.class ++ (store32 r.ttl ++ data₅)) rest,
        append_assoc (store16 r.class) (store32 r.ttl ++ data₅) rest,
        append_assoc (store32 r.ttl) data₅ rest,
        append_assoc (store16 r.rdlength) r.rdata rest,
        load16-store16 r.rtype
            (store16 r.class ++ (store32 r.ttl ++ (store16 r.rdlength ++ (r.rdata ++ rest))))
            v.rtype16,
        load16-store16 r.class (store32 r.ttl ++ (store16 r.rdlength ++ (r.rdata ++ rest)))
            v.class16,
        load32-store32 r.ttl (store16 r.rdlength ++ (r.rdata ++ rest)) v.ttl32,
        load16-store16 r.rdlength (r.rdata ++ rest) v.rdlength16,
      )
      (rw (← v.measured) (rw (load_bytes-append r.rdata rest)))

-- The bytes of a record over text labels.
pub dump_record-fields :
    (ls : List Label) (r : DnsResourceRecord)
    → All IsTextLabel ls
    → r.name ≡ dotted ls ++ 0 ∷ []
    → length r.rdata ≡ r.rdlength
    → dump_resource_record r ≡ ok (wire ls ++ fields r)
unfolding dump_resource_record
dump_record-fields ls r v named measured =
    let whole : load_bytes r.rdlength r.rdata ≡ ok (r.rdata, []) =
      rw (← measured) (rw append-nil at (load_bytes-append r.rdata [])) in
    rw (ap dump_name named ∙ dump_name-dotted ls v, whole) refl

-- A record over short text labels, with fields that fit their widths, is read back from the bytes
-- that it is written as, and the reader stands right behind them.
pub parse_record-dump_record :
    (ls : List Label) (r : DnsResourceRecord) (name_buf rest : List ℕ)
    → All IsTextLabel ls
    → All IsShort ls
    → r.name ≡ dotted ls ++ 0 ∷ []
    → IsRecord r
    → (dump_resource_record r >>= λ bytes. parse_resource_record (bytes ++ rest) name_buf)
      ≡ ok (r, rest)
parse_record-dump_record ls r name_buf rest v s named w =
    rw (dump_record-fields ls r v named w.measured, append_assoc (wire ls) (fields r) rest)
      (parse_fields r (wire ls ++ (fields r ++ rest)) name_buf rest w
        (rw named (parse_record_name-wire ls (fields r ++ rest) name_buf (All-IsLabel ls v) s)))

-- A record whose name is a pointer into the first 256 bytes of the message is read with the name
-- that stands there, and the reader goes on behind the record.
pub parse_record-pointer :
    (ls : List Label) (r : DnsResourceRecord) (offset : ℕ) (name_buf behind rest : List ℕ)
    → All IsLabel ls
    → drop offset name_buf ≡ wire ls ++ behind
    → r.name ≡ dotted ls ++ 0 ∷ []
    → IsRecord r
    → parse_resource_record (0xc0 ∷ offset ∷ (fields r ++ rest)) name_buf ≡ ok (r, rest)
unfolding parse_record_name
parse_record-pointer ls r offset name_buf behind rest v there named w =
    parse_fields r (0xc0 ∷ offset ∷ (fields r ++ rest)) name_buf rest w
      (rw (there, parse_qname-wire ls behind v, named))
