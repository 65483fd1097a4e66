-- ===== src/Handle/Records.antt =====
-- src/protocol/handle.c, `handle_read_cache`: its loops over the records of a list, by what they count,
-- find and write.
use adrift.Base.{
  ℕ, ◌+◌, ◌%◌, ◌^◌, ◌<◌, ◌≡◌, refl, sym, ap, ◌∙◌, Bool, true, false, not, ◌&&◌, ◌||◌, Option, none,
  some, List, [], ◌∷◌, ◌++◌, Run, ok, ◌>>=◌, inl, inr, Bool-cases, if◌then◌else◌, ◌==◌, ==_iff,
  arith, length, All,
}
use adrift.Ds.List.{answer, authority, additional}
use adrift.Ds.List.Segment.{Item}
use adrift.Handle.Answer.{is_blocked-address}
use adrift.Handle.ReadCache.{
  any_blocked, cached_header, count_type, dump_items, has_records, is_blocked, remaining_ttl,
}
use adrift.Hosts.{is_zero_address}
use adrift.Protocol.Header.{DnsHeader, get_default_header}
use adrift.Protocol.Record.{DnsResourceRecord, dump_resource_record}

-- The number of items of a section.
abbrev pub counted : ℕ → List Item → ℕ
counted k [] = 0
counted k (i ∷ is) = (if i.rr_type == k then 1 else 0) + counted k is

-- The number of items of all sections.
abbrev pub recorded : List Item → ℕ
recorded is = counted answer is + (counted authority is + counted additional is)

abbrev pub counting_header : DnsHeader → List Item → DnsHeader
counting_header header is = record get_default_header {
  id = header.id;
  qr = 1;
  qdcount = 1;
  ancount = counted answer is;
  nscount = counted authority is;
  arcount = counted additional is;
}

-- Some item is the IPv4 address 0.0.0.0.
abbrev pub any_zero : List Item → Bool
any_zero [] = false
any_zero (i ∷ is) =
    elim i.content [ none ↦ false | some r ↦ r.rdlength == 4 && is_zero_address r.rdata ]
    || any_zero is

-- A record has as much data as it says.
abbrev pub IsMeasured : Option DnsResourceRecord → Type 0
IsMeasured none = Unit
IsMeasured (some r) = length r.rdata ≡ r.rdlength

-- The bytes of the items' records, each with what is left of its time to live.
abbrev pub Printed : ℕ → List Item → List ℕ → Type 0
Printed now [] bytes = bytes ≡ []
Printed now (i ∷ is) bytes = elim i.content [
  | none ↦ Printed now is bytes
  | some r ↦
      (first : List ℕ) × (rest : List ℕ) × (bytes ≡ first ++ rest)
      × (dump_resource_record (record r { ttl = remaining_ttl now i }) ≡ ok first)
      × Printed now is rest
]

pub count_type-counted :
    (k : ℕ) (is : List Item) (n : ℕ) → n + length is < 2 ^ 16 → count_type k is n ≡ n + counted k is
unfolding count_type
count_type-counted k [] n h = omega arith
count_type-counted k (i ∷ is) n h = elim (Bool-cases (i.rr_type == k)) [
  | inl e ↦
      let low : (n + 1) % 2 ^ 16 ≡ n + 1 = omega arith in
      rw (e, low) (count_type-counted k is (n + 1) (omega arith) ∙ omega arith)
  | inr e ↦ rw e (count_type-counted k is n (omega arith) ∙ omega arith)
]

is_blocked-zero :
    (r : DnsResourceRecord)
    → length r.rdata ≡ r.rdlength
    → is_blocked r ≡ ok (r.rdlength == 4 && is_zero_address r.rdata)
is_blocked-zero r measured = elim (Bool-cases (r.rdlength == 4)) [
  | inl e ↦
      let four = (==_iff r.rdlength 4).0 e in
      is_blocked-address r four (measured ∙ four) ∙ rw e refl
  | inr e ↦ unfold is_blocked in rw e refl
]

pub any_blocked-zero :
    (is : List Item) → All (λ i. IsMeasured i.content) is → any_blocked is ≡ ok (any_zero is)
unfolding any_blocked
any_blocked-zero [] v = refl
any_blocked-zero (i ∷ is) v = from (any_blocked-zero is v.1) i.content v.0
  where
    from :
        any_blocked is ≡ ok (any_zero is)
        → (content : Option DnsResourceRecord) → IsMeasured content
        → elim content as (λ _. Run Bool) [
          | none ↦ any_blocked is
          | some r ↦ (do b ← is_blocked r; if b then ok true else any_blocked is)
        ]
          ≡ ok (
              elim content as (λ _. Bool) [
                | none ↦ false
                | some r ↦ r.rdlength == 4 && is_zero_address r.rdata
              ]
              || any_zero is)
    from rest none w = rest
    from rest (some r) w = elim (Bool-cases (r.rdlength == 4 && is_zero_address r.rdata)) [
      | inl e ↦ rw (is_blocked-zero r w, e) refl
      | inr e ↦ rw (is_blocked-zero r w, e) rest
    ]

pub dump_items-Printed :
    (now : ℕ) (is : List Item) (bytes : List ℕ)
    → Printed now is bytes
    → dump_items now is ≡ ok bytes
unfolding dump_items
dump_items-Printed now [] bytes e = ap ok (sym e)
dump_items-Printed now (i ∷ is) bytes v = from (dump_items-Printed now is) i.content v
  where
    from :
        ((bytes : List ℕ) → Printed now is bytes → dump_items now is ≡ ok bytes)
        → (content : Option DnsResourceRecord)
        → elim content as (λ _. Type 0) [
          | none ↦ Printed now is bytes
          | some r ↦
              (first : List ℕ) × (rest : List ℕ) × (bytes ≡ first ++ rest)
              × (dump_resource_record (record r { ttl = remaining_ttl now i }) ≡ ok first)
              × Printed now is rest
        ]
        → elim content as (λ _. Run (List ℕ)) [
          | none ↦ dump_items now is
          | some r ↦ (do
            first ← dump_resource_record (record r { ttl = remaining_ttl now i })
            more ← dump_items now is
            ok (first ++ more))
        ]
          ≡ ok bytes
    from prints none w = prints bytes w
    from prints (some r) (first, rest, e, ran, w) = rw (ran, prints rest w) (ap ok (sym e))

pub has_records-recorded :
    (h : DnsHeader) → has_records h ≡ not (h.ancount + (h.nscount + h.arcount) == 0)
has_records-recorded h = ground arith

pub cached_header-counted :
    (header : DnsHeader) (is : List Item)
    → length is < 2 ^ 16
    → cached_header header is ≡ counting_header header is
cached_header-counted header is few = rw (counts answer, counts authority, counts additional) refl
  where
    counts : (k : ℕ) → count_type k is 0 ≡ counted k is
    counts k = omega (arith, count_type-counted k is 0 (omega arith))
