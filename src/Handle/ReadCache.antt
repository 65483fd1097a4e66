-- ===== src/Handle/ReadCache.antt =====
-- src/protocol/handle.c, `handle_read_cache`.
use adrift.Base.{
  ℕ, ◌+◌, ◌-◌, ◌%◌, ◌^◌, Bool, true, false, ◌&&◌, ◌||◌, not, Option, none, some, List, [], ◌∷◌,
  ◌++◌, Run, ok, ◌>>=◌, ◌==◌, if◌then◌else◌,
}
use adrift.Cache.{Cache, cache_find, cache_type_ipv4, cache_type_ipv6, cache_type_cname}
use adrift.Ds.List.{Store, answer, authority, additional, list_update}
use adrift.Ds.List.Segment.{Item}
use adrift.Handle.State.{Server, send, items_of}
use adrift.Protocol.Bytes.{load_bytes}
use adrift.Protocol.Header.{
  DnsHeader, get_default_header, get_error_header, name_error, dump_header,
}
use adrift.Protocol.Question.{DnsQuestion, dump_question}
use adrift.Protocol.Record.{DnsResourceRecord, dump_resource_record, dump_error_authority}

-- The number of items of a section, a 16-bit counter.
unfoldable pub count_type : ℕ → List Item → ℕ → ℕ
count_type rr_type [] n = n
count_type rr_type (i ∷ is) n =
    count_type rr_type is (if i.rr_type == rr_type then (n + 1) % 2 ^ 16 else n)

abbrev pub cached_header : DnsHeader → List Item → DnsHeader
cached_header header items = record get_default_header {
  id = header.id;
  qr = 1;
  qdcount = 1;
  ancount = count_type answer items 0;
  nscount = count_type authority items 0;
  arcount = count_type additional items 0;
}

-- `rdlength == 4 && memcmp(rdata, "\x00\x00\x00\x00", 4) == 0`
unfoldable pub is_blocked : DnsResourceRecord → Run Bool
unfolding load_bytes
is_blocked r =
    if r.rdlength == 4 then (do (head, _) ← load_bytes 4 r.rdata; ok (all_zero head)) else ok false
  where
    all_zero : List ℕ → Bool
    all_zero [] = true
    all_zero (b ∷ bs) = b == 0 && all_zero bs

-- The loop that looks for the address 0.0.0.0.
unfoldable pub any_blocked : List Item → Run Bool
any_blocked [] = ok false
any_blocked (i ∷ is) =
    let rest = any_blocked is in
    elim i.content [ none ↦ rest | some r ↦ (do b ← is_blocked r; if b then ok true else rest) ]

-- `p->ttl - (time(NULL) - p->record_time)`, cut to 32 bits
unfoldable pub remaining_ttl : ℕ → Item → ℕ
remaining_ttl now i = (i.ttl + i.record_time + 2 ^ 64 - now) % 2 ^ 32

-- The loop that writes the records of a list.
unfoldable pub dump_items : ℕ → List Item → Run (List ℕ)
dump_items now [] = ok []
dump_items now (i ∷ is) =
    let rest = dump_items now is in
    elim i.content [
      | none ↦ rest
      | some r ↦ (do
        bytes ← dump_resource_record (record r { ttl = remaining_ttl now i })
        more ← rest
        ok (bytes ++ more))
    ]

-- The type of cache that a question is looked up in.
abbrev pub cache_of : ℕ → Option ℕ
cache_of qtype =
    if qtype == 1
    then some cache_type_ipv4
    else (if qtype == 28
        then some cache_type_ipv6
        else (if qtype == 5 then some cache_type_cname else none))

unfoldable pub lookup_question : DnsQuestion → Cache → Run (Option ℕ)
lookup_question q c = elim (cache_of q.qtype) [
  | none ↦ ok none
  | some cache_type ↦ cache_find cache_type q.qname c
]

-- The items of a list that may be NULL.
unfoldable pub items_of_found : Option ℕ → Store → Run (List Item)
items_of_found none s = ok []
items_of_found (some l) s = items_of l s

-- The response that names the error.
unfoldable pub error_response : DnsHeader → DnsQuestion → Run (List ℕ)
error_response header q = do
  question ← dump_question q
  soa ← dump_error_authority q
  ok (dump_header (record (get_error_header name_error) { id = header.id }) ++ (question ++ soa))

-- The response from the cache: for an A question the CNAME records of the name come first.
unfoldable pub cached_response : ℕ → DnsHeader → DnsQuestion → List Item → Cache → Run (List ℕ)
unfolding dump_items
cached_response now header q items c = do
  question ← dump_question q
  found ← if q.qtype == 1 then cache_find cache_type_cname q.qname c else ok none
  cnames ← items_of_found found c.store
  first ← dump_items now cnames
  records ← dump_items now items
  ok (dump_header (cached_header header items) ++ (question ++ (first ++ records)))

abbrev pub has_records : DnsHeader → Bool
has_records h = not (h.ancount == 0) || (not (h.nscount == 0) || not (h.arcount == 0))

-- What the handler does once it has gone along the list: the items decide.
unfoldable pub answer_items :
    ℕ → ℕ → DnsHeader → DnsQuestion → List Item → Server → Run (Bool × Server)
unfolding any_blocked is_blocked
answer_items now client header q items st =
    let refusal = error_response header q in
    let response = cached_response now header q items st.cache in
    let answered = (do
      blocked ← any_blocked items
      bytes ← if blocked then refusal else response
      st' ← send bytes client st
      ok (true, st')) in
    if has_records (cached_header header items) then answered else ok (false, st)

-- What follows the update of the list `l`.
unfoldable pub answer_from : ℕ → ℕ → DnsHeader → DnsQuestion → ℕ → Server → Run (Bool × Server)
answer_from now client header q l st = do
  items ← items_of l st.cache.store
  answer_items now client header q items st

-- The result is `true` for a return value of 1.
unfoldable pub handle_read_cache : ℕ → ℕ → DnsHeader → DnsQuestion → Server → Run (Bool × Server)
handle_read_cache now client header q st = do
  found ← lookup_question q st.cache
  elim found [
    | none ↦ ok (false, st)
    | some l ↦ (do
      (_, s) ← list_update now l st.cache.store
      answer_from now client header q l (record st { cache = record (st.cache) { store = s } }))
  ]
