-- ===== src/Handle/System/Frame.antt =====
-- src/protocol/handle.c: what the handling of a query does to the conversion table and its counter.
use adrift.Base.{
  ℕ, ◌+◌, ◌%◌, ◌^◌, ◌<◌, ◌≡◌, refl, sym, ap, ◌∙◌, Bool, false, List, ◌∷◌, ok, ◌>>=◌, Always,
  >>=-Always, Always-ok, if-Always, Always-weaken, ok-injective, guard_then, guard_else, ltb,
  ltb→lt, lt→ltb, subst, ◌==◌, if◌then◌else◌, Bool-cases, inl, inr, update, length, not, Option,
  none, some,
}
use adrift.Handle.State.{Server, Convert, buffer_len, map_len, items_of, send, write_convert}
use adrift.Handle.Query.{
  reserve_entry, forward_query, handle_send_query, handle_receive_query, Outcome, replied,
  forwarded,
}
use adrift.Handle.ReadCache.{
  handle_read_cache, answer_from, answer_items, lookup_question, has_records, cached_header,
  any_blocked, error_response, cached_response,
}
use adrift.Ds.List.{list_update}
use adrift.Protocol.Header.{DnsHeader}
use adrift.Protocol.Question.{DnsQuestion, dump_question, parse_question}

pub send-parts :
    (bytes : List ℕ) (to : ℕ) (st st' : Server)
    → send bytes to st ≡ ok st'
    → st' ≡ record st { sent = record { bytes = bytes; to = to } ∷ st.sent }
unfolding send
send-parts bytes to st st' e = sym (ok-injective (guard_then _ _ _ e).1)

pub write_convert-parts :
    (i : ℕ) (e : Convert) (st st' : Server)
    → write_convert i e st ≡ ok st'
    → (i < map_len) × (st' ≡ record st { convert_table = update st.convert_table i e })
unfolding write_convert
write_convert-parts i e st st' h =
    let (low, ran) = guard_else (ltb i map_len) _ _ h in
    (ltb→lt i map_len low, sym (ok-injective ran))

-- The table and the counter are as before.
pub record Same (st st' : Server) : Type 0 where
  pub table : st'.convert_table ≡ st.convert_table
  pub counter : st'.buf1_len ≡ st.buf1_len

Same-refl : (st : Server) → Same st st
Same-refl st = record { table = refl; counter = refl }

send-Same : (bytes : List ℕ) (to : ℕ) (st : Server) → Always (Same st) (send bytes to st)
unfolding send
send-Same bytes to st = elim (Bool-cases (ltb buffer_len (length bytes))) [
  | inl e ↦ rw e tt
  | inr e ↦ rw e (record { table = refl; counter = refl })
]

answer_from-Same :
    (now client : ℕ) (header : DnsHeader) (q : DnsQuestion) (l : ℕ) (st : Server)
    → Always (λ r. Same st r.1) (answer_from now client header q l st)
unfolding answer_from answer_items
answer_from-Same now client header q l st = >>=-Always _ (items_of l st.cache.store) _ λ is _.
    let bytes_of = λ (b : Bool).
      if b then error_response header q else cached_response now header q is st.cache in
    if-Always _ (has_records (cached_header header is)) _ _
      (>>=-Always _ (any_blocked is) _ λ blocked _. >>=-Always _ (bytes_of blocked) _ λ bytes _.
        >>=-Always _ (send bytes client st) _
          λ st' ran. Always-ok (Same st) (send bytes client st) st' ran (send-Same bytes client st))
      (Same-refl st)

-- The cache may change, and an answer may be sent.
pub handle_read_cache-Same :
    (now client : ℕ) (header : DnsHeader) (q : DnsQuestion) (st : Server)
    → Always (λ r. Same st r.1) (handle_read_cache now client header q st)
unfolding handle_read_cache
handle_read_cache-Same now client header q st =
    >>=-Always _ (lookup_question q st.cache) _ λ found _. from found
  where
    from :
        (found : Option ℕ)
        → Always {A = Bool × Server}
            (λ r. Same st r.1)
            (elim found [
              | none ↦ ok (false, st)
              | some l ↦ (do
                (_, s) ← list_update now l st.cache.store
                answer_from now client header q l
                    (record st { cache = record (st.cache) { store = s } }))
            ])
    from none = Same-refl st
    from (some l) = >>=-Always _ (list_update now l st.cache.store) _ λ r _.
        let st₁ : Server = record st { cache = record (st.cache) { store = r.1 } } in
        Always-weaken (λ o. Same st₁ o.1) (λ o. Same st o.1) (answer_from now client header q l st₁)
          (λ o same. record { table = same.table; counter = same.counter })
          (answer_from-Same now client header q l st₁)

-- The entry of the counter's number, with the client's address and identification.
abbrev pub reserved : ℕ → DnsHeader → Server → Convert
reserved client header st = record (st.convert_table st.buf1_len) {
  buf_req_id = header.id;
  buf_sock = client;
}

abbrev pub mark : (ℕ → Convert) → ℕ → ℕ → Convert
mark t id = update t id (record (t id) { valid = 1 })

-- A query that is forwarded, under the counter's value: its entry, and no other, holds the client
-- and its identification, and the counter goes up by one.
pub record Booked (client : ℕ) (header : DnsHeader) (st : Server) (id : ℕ) (st' : Server)
    : Type 0 where
  pub low : st.buf1_len < map_len
  pub number : id ≡ st.buf1_len % 2 ^ 16
  pub counter : st'.buf1_len ≡ st.buf1_len + 1
  pub table :
      st'.convert_table ≡ mark (update st.convert_table st.buf1_len (reserved client header st)) id

abbrev Numbered : Server → ℕ × Server → Type 0
Numbered st (id, st') =
    (id ≡ st.buf1_len % 2 ^ 16)
    × (st'.buf1_len ≡ st.buf1_len + 1)
    × (st'.convert_table ≡ mark st.convert_table (st.buf1_len % 2 ^ 16))

forward_query-Numbered :
    (header : DnsHeader) (q : DnsQuestion) (st : Server)
    → st.buf1_len < map_len
    → Always (Numbered st) (forward_query header q st)
unfolding forward_query
forward_query-Numbered header q st low = rw (lt→ltb st.buf1_len map_len low) (
    let id = st.buf1_len % 2 ^ 16 in
    >>=-Always _ (dump_question q) _ λ bytes _. >>=-Always _ (send _ _ _) _ λ st₃ ran₃.
      let e₃ = send-parts _ _ _ st₃ ran₃ in
      >>=-Always _ (write_convert _ _ st₃) _ λ st₄ ran₄.
        let e₄ = (write_convert-parts _ _ st₃ st₄ ran₄).1 in
        (
          refl,
          ap (λ s. s.buf1_len) e₄ ∙ ap (λ s. s.buf1_len) e₃,
          ap (λ s. s.convert_table) e₄ ∙ ap (λ s. mark s.convert_table id) e₃,
        ))

pub handle_send_query-Booked :
    (client : ℕ) (header : DnsHeader) (q : DnsQuestion) (st : Server)
    → Always (λ r. Booked client header st r.0 r.1) (handle_send_query client header q st)
unfolding handle_send_query reserve_entry
handle_send_query-Booked client header q st =
    >>=-Always _ (write_convert st.buf1_len _ st) _ λ st₁ ran₁.
      let (low, e₁) = write_convert-parts st.buf1_len _ st st₁ ran₁ in
      let st₂ : Server = record st {
        convert_table = update st.convert_table st.buf1_len (reserved client header st);
      } in
      subst
        (λ s.
          Always (λ (r : ℕ × Server). Booked client header st r.0 r.1) (forward_query header q s))
        (sym e₁)
        (Always-weaken (Numbered st₂) (λ r. Booked client header st r.0 r.1)
          (forward_query header q st₂)
          (λ r p. record {
            low = low;
            number = p.0;
            counter = p.1;
            table = p.2 ∙ ap (mark st₂.convert_table) (sym p.0);
          })
          (forward_query-Numbered header q st₂ low))

-- What a handler of a query has done to the table, by its outcome.
abbrev pub QueryEffect : ℕ → DnsHeader → Server → Outcome × Server → Type 0
QueryEffect client header st (replied, st') = Same st st'
QueryEffect client header st (forwarded id, st') = Booked client header st id st'

pub handle_receive_query-QueryEffect :
    (now client : ℕ) (buf : List ℕ) (header : DnsHeader) (st : Server)
    → Always (QueryEffect client header st) (handle_receive_query now client buf header st)
unfolding handle_receive_query
handle_receive_query-QueryEffect now client buf header st =
    if-Always _ (not (header.qdcount == 1)) _ _
      (>>=-Always _ (send _ client st) _
        λ st' ran. Always-ok (Same st) (send _ client st) st' ran (send-Same _ client st))
      (>>=-Always _ (parse_question buf) _ λ p _.
        >>=-Always _ (handle_read_cache now client header p.0 st) _ λ c ran.
          let same : Same st c.1 =
            Always-ok (λ (r : Bool × Server). Same st r.1)
              (handle_read_cache now client header p.0 st) c ran
              (handle_read_cache-Same now client header p.0 st) in
          if-Always _ c.0 _ _ same (
            >>=-Always _ (handle_send_query client header p.0 c.1) _ λ r ran'. booked_before same (
              Always-ok (λ (r : ℕ × Server). Booked client header c.1 r.0 r.1)
                (handle_send_query client header p.0 c.1) r ran'
                (handle_send_query-Booked client header p.0 c.1))))
  where
    booked_before :
        {st₁ : Server} {id : ℕ} {st' : Server}
        → Same st st₁
        → Booked client header st₁ id st'
        → Booked client header st id st'
    booked_before {st₁} same b = record {
      low = rw (← same.counter) b.low;
      number = rw (← same.counter) b.number;
      counter = rw (← same.counter) b.counter;
      table = rw (← same.table, ← same.counter) b.table;
    }

-- The effects, read off a run that has ended normally.
module _ (now client : ℕ) (buf : List ℕ) (header : DnsHeader) (st st' : Server) where
  pub replied-Same : handle_receive_query now client buf header st ≡ ok (replied, st') → Same st st'
  replied-Same ran =
      Always-ok (QueryEffect client header st) (handle_receive_query now client buf header st)
        (replied, st') ran (handle_receive_query-QueryEffect now client buf header st)

  pub forwarded-Booked :
      (id : ℕ)
      → handle_receive_query now client buf header st ≡ ok (forwarded id, st')
      → Booked client header st id st'
  forwarded-Booked id ran =
      Always-ok (QueryEffect client header st) (handle_receive_query now client buf header st)
        (forwarded id, st') ran (handle_receive_query-QueryEffect now client buf header st)
