-- ===== src/Handle/Outcomes.antt =====
-- src/protocol/handle.c, `handle_read_cache`: what comes of a question whose name the cache knows, by
-- the records that are left after the update.
use adrift.Base.{
  ℕ, ◌+◌, ◌^◌, ◌≤◌, ◌<◌, ◌≡◌, refl, ap, ◌∙◌, true, false, not, Option, none, some, List, ◌∷◌, ◌++◌,
  ok, inl, inr, Bool-cases, if◌then◌else◌, ◌==◌, length, All,
}
use adrift.Cache.{cache_find, cache_type_cname}
use adrift.Ds.List.{Store}
use adrift.Ds.List.Push.{IsList, Untouched}
use adrift.Ds.List.Segment.{Item}
use adrift.Ds.List.Update.{kept, Below}
use adrift.Handle.Blocked.{authority_bytes, error_authority-dumps, refusal_header}
use adrift.Handle.Cached.{items, handle_read_cache-items}
use adrift.Handle.ReadCache.{
  answer_items, cached_header, cached_response, error_response, handle_read_cache, has_records,
  items_of_found, lookup_question,
}
use adrift.Handle.Relay.{send_fits}
use adrift.Handle.State.{Server, buffer_len}
use adrift.Protocol.Header.{DnsHeader, dump_header}
use adrift.Protocol.Question.{DnsQuestion, dump_question}
use adrift.Handle.Records.{
  recorded, counting_header, any_zero, IsMeasured, Printed, any_blocked-zero, dump_items-Printed,
  has_records-recorded, cached_header-counted,
}
use adrift.Handle.Aliases.{Cnames, items_of_found-Cnames}

module _ (now client : ℕ) (header : DnsHeader) (q : DnsQuestion) (is cnames : List Item)
    (body first bytes : List ℕ) (found : Option ℕ) (st : Server) (few : length is < 2 ^ 16)
    (measured : All (λ i. IsMeasured i.content) is)
    (finds : (if q.qtype == 1 then cache_find cache_type_cname q.qname st.cache else ok none)
      ≡ ok found)
    (follows : items_of_found found st.cache.store ≡ ok cnames) (dumped : dump_question q ≡ ok body)
    (printed_first : Printed now cnames first) (printed : Printed now is bytes)
    (fits : 12 + length (body ++ authority_bytes) ≤ buffer_len)
    (fits' : 12 + length (body ++ (first ++ bytes)) ≤ buffer_len) where
  abbrev replies : List ℕ → Server
  replies datagram = record st { sent = record { bytes = datagram; to = client } ∷ st.sent }

  error_response-refusal :
      error_response header q
      ≡ ok (dump_header (refusal_header header) ++ (body ++ authority_bytes))
  unfolding error_response
  error_response-refusal = rw (dumped, error_authority-dumps q) refl

  cached_response-counting :
      cached_response now header q is st.cache
      ≡ ok (dump_header (counting_header header is) ++ (body ++ (first ++ bytes)))
  unfolding cached_response
  cached_response-counting =
      rw
        (
          dumped,
          finds,
          follows,
          dump_items-Printed now cnames first printed_first,
          dump_items-Printed now is bytes printed,
          cached_header-counted header is few,
        )
        refl

  answer_items-outcomes : answer_items now client header q is st ≡ (
      if recorded is == 0
      then ok (false, st)
      else ok (
        true,
        replies (
            if any_zero is
            then dump_header (refusal_header header) ++ (body ++ authority_bytes)
            else dump_header (counting_header header is) ++ (body ++ (first ++ bytes))),
      ))
  unfolding answer_items
  answer_items-outcomes =
      let some_record : has_records (cached_header header is) ≡ not (recorded is == 0) =
        ap has_records (cached_header-counted header is few)
        ∙ has_records-recorded (counting_header header is) in
      elim (Bool-cases (recorded is == 0)) [
        | inl e ↦ rw (some_record, e) refl
        | inr e ↦ elim (Bool-cases (any_zero is)) [
          | inl z ↦
              rw
                (
                  some_record,
                  e,
                  any_blocked-zero is measured,
                  z,
                  error_response-refusal,
                  send_fits (refusal_header header) (body ++ authority_bytes) client st fits,
                )
                refl
          | inr z ↦
              rw
                (
                  some_record,
                  e,
                  any_blocked-zero is measured,
                  z,
                  cached_response-counting,
                  send_fits (counting_header header is) (body ++ (first ++ bytes)) client st fits',
                )
                refl
        ]
      ]

-- For a question that the cache knows a well-formed list for, with a head node without a time to
-- live and with fewer than 2 ^ 16 nodes left, whose records have as much data as they say and can
-- be printed: the handler drops the expired records from the store and goes by the others alone.
-- If none of the three sections has a record, it sends nothing and reports that the cache has no
-- answer. Otherwise it sends one datagram to the client. If one of the records is the IPv4 address
-- 0.0.0.0, wherever it stands, this is the name error with the query's identification, the question
-- and the SOA record. If none is, it is the header with the query's identification and the numbers
-- of the records of each section, the question, for an A question the records of the name's CNAME
-- list, if the cache knows one, and the records, each with what is left of its time to live. Both
-- messages fit the buffer.
pub handle_read_cache-outcomes :
    (now client : ℕ) (header : DnsHeader) (q : DnsQuestion) (st : Server) (l : ℕ) (x : ℕ × Item)
    (xs : List (ℕ × Item)) (cnames : List Item) (body first bytes : List ℕ)
    → lookup_question q st.cache ≡ ok (some l)
    → IsList st.cache.store l (x ∷ xs)
    → x.1.ttl ≡ 0
    → Below st.cache.store.free_node (x ∷ xs)
    → length (items (x ∷ kept now xs)) < 2 ^ 16
    → All (λ i. IsMeasured i.content) (items (x ∷ kept now xs))
    → Cnames q st.cache l (x ∷ xs) cnames
    → dump_question q ≡ ok body
    → Printed now cnames first
    → Printed now (items (x ∷ kept now xs)) bytes
    → 12 + length (body ++ authority_bytes) ≤ buffer_len
    → 12 + length (body ++ (first ++ bytes)) ≤ buffer_len
    → let is = items (x ∷ kept now xs) in
      (s : Store) × IsList s l (x ∷ kept now xs)
      × Untouched (x ∷ xs) l st.cache.store s
      × (let st₁ : Server = record st { cache = record (st.cache) { store = s } } in
          handle_read_cache now client header q st ≡ (
            if recorded is == 0
            then ok (false, st₁)
            else ok (
              true,
              record st₁ {
                sent =
                    record {
                      bytes =
                          if any_zero is
                          then dump_header (refusal_header header) ++ (body ++ authority_bytes)
                          else dump_header (counting_header header is)
                            ++ (body ++ (first ++ bytes));
                      to = client;
                    }
                    ∷ st.sent;
              },
            )))
handle_read_cache-outcomes now client header q st l x xs cnames body first bytes hit list head below
      few measured aliases dumped printed_first printed fits fits' =
    let (s, list', frame, ran) =
      handle_read_cache-items now client header q st l x xs hit list head below in
    let st₁ : Server = record st { cache = record (st.cache) { store = s } } in
    let (found, finds, follows) =
      items_of_found-Cnames q st.cache l (x ∷ xs) cnames s aliases frame in
    (
      s,
      list',
      frame,
      ran
          ∙ answer_items-outcomes now client header q (items (x ∷ kept now xs)) cnames body first
              bytes found st₁ few measured finds follows dumped printed_first printed fits fits',
    )
