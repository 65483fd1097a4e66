-- ===== src/Handle/System/Effects.antt =====
-- src/protocol/handle.c: what a response, a timer and a thread that ends do to the conversion table.
use adrift.Base.{
  ℕ, ◌-◌, ◌≡◌, ◌≢◌, refl, ap, ◌∙◌, Bool, true, false, List, ◌∷◌, ◌++◌, ok, >>=-parts, Always,
  >>=-Always, Always-ok, arith, ltb, subst, ◌==◌, ==_iff, Bool-cases, inl, inr, update,
}
use adrift.Handle.State.{Server, map_len, write_convert}
use adrift.Handle.Query.{signal, finish_query}
use adrift.Handle.Response.{
  parse_sections, cache_sections, handle_send_response, handle_receive_response, response_body,
  Sections,
}
use adrift.Protocol.Header.{DnsHeader, dump_header}
use adrift.Protocol.Question.{DnsQuestion, parse_question}
use adrift.Handle.System.Frame.{send-parts, write_convert-parts}

-- The semaphores may have changed, and nothing else of the table.
pub record Signalled (st st' : Server) : Type 0 where
  pub counter : st'.buf1_len ≡ st.buf1_len
  pub valid : (k : ℕ) → (st'.convert_table k).valid ≡ (st.convert_table k).valid
  pub client : (k : ℕ) → (st'.convert_table k).buf_sock ≡ (st.convert_table k).buf_sock
  pub req_id : (k : ℕ) → (st'.convert_table k).buf_req_id ≡ (st.convert_table k).buf_req_id

pub signal-Signalled : (id : ℕ) (st : Server) → Always (Signalled st) (signal id st)
unfolding signal write_convert
signal-Signalled id st = elim (Bool-cases (ltb id map_len)) [
  | inr e ↦ rw e tt
  | inl e ↦ rw e (record {
    counter = refl;
    valid = λ k. (ground arith);
    client = λ k. (ground arith);
    req_id = λ k. (ground arith);
  })
]

signal-sent : (id : ℕ) (st st' : Server) → signal id st ≡ ok st' → st'.sent ≡ st.sent
unfolding signal
signal-sent id st st' ran = ap (λ s. s.sent) (write_convert-parts id _ st st' ran).1

-- What a handler of a response has sent: nothing, or one packet to the client of a valid entry.
abbrev pub Delivery : DnsHeader → Server → Bool × Server → Type 0
Delivery header st (false, st') = st'.sent ≡ st.sent
Delivery header st (true, st') =
    let e = st.convert_table header.id in
    (e.valid ≢ 0)
    × ((body : List ℕ) × (st'.sent
          ≡ record {
            bytes = dump_header (record header { id = e.buf_req_id }) ++ body;
            to = e.buf_sock;
          }
            ∷ st.sent))

handle_send_response-parts :
    (req_id : ℕ) (header : DnsHeader) (q : DnsQuestion) (ss : Sections) (st st' : Server)
    → handle_send_response req_id header q ss st ≡ ok st'
    → let e = st.convert_table req_id in
      (body : List ℕ) × (st' ≡ record st {
        sent =
            record {
              bytes = dump_header (record header { id = e.buf_req_id }) ++ body;
              to = e.buf_sock;
            }
            ∷ st.sent;
      })
unfolding handle_send_response
handle_send_response-parts req_id header q ss st st' ran =
    let (body, _, sent) = >>=-parts (response_body q ss) st' ran in
    (body, send-parts _ _ st st' sent)

pub handle_receive_response-Delivery :
    (now : ℕ) (buf name_buf : List ℕ) (header : DnsHeader) (st : Server)
    → Always
        (λ r. Signalled st r.1 × Delivery header st r)
        (handle_receive_response now buf name_buf header st)
unfolding handle_receive_response
handle_receive_response-Delivery now buf name_buf header st =
    >>=-Always _ (parse_question buf) _ λ p _.
      >>=-Always _ (parse_sections p.1 name_buf header) _ λ ss _.
        >>=-Always _ (cache_sections now header p.0.qname ss st.cache) _ λ c _.
          let st₁ : Server = record st { cache = c } in
          elim (Bool-cases ((st.convert_table header.id).valid == 0)) [
            | inl e ↦ rw e (
              record { counter = refl; valid = λ k. refl; client = λ k. refl; req_id = λ k. refl },
              refl,
            )
            | inr e ↦ rw e (
                >>=-Always _ (handle_send_response header.id header p.0 ss st₁) _ λ st₂ ran₂.
                  let (body, e₂) =
                    handle_send_response-parts header.id header p.0 ss st₁ st₂ ran₂ in
                  >>=-Always _ (signal header.id st₂) _ λ st₃ ran₃.
                    let quiet : st₃.sent ≡ st₂.sent = signal-sent header.id st₂ st₃ ran₃ in
                    let change : Signalled st₂ st₃ =
                      Always-ok (Signalled st₂) (signal header.id st₂) st₃ ran₃
                        (signal-Signalled header.id st₂) in
                    let moved = subst (λ s. Signalled s st₃) e₂ change in
                    (
                      record {
                        counter = moved.counter;
                        valid = moved.valid;
                        client = moved.client;
                        req_id = moved.req_id;
                      },
                      (
                        (λ z. cc (e, (==_iff (st.convert_table header.id).valid 0).1 z)),
                        (body, quiet ∙ ap (λ s. s.sent) e₂),
                      ),
                    ))
          ]

pub response-effect :
    (now : ℕ) (buf name_buf : List ℕ) (header : DnsHeader) (st st' : Server) (delivered : Bool)
    → handle_receive_response now buf name_buf header st ≡ ok (delivered, st')
    → Signalled st st' × Delivery header st (delivered, st')
response-effect now buf name_buf header st st' delivered ran =
    Always-ok (λ (r : Bool × Server). Signalled st r.1 × Delivery header st r)
      (handle_receive_response now buf name_buf header st) (delivered, st') ran
      (handle_receive_response-Delivery now buf name_buf header st)

pub signal-effect : (id : ℕ) (st st' : Server) → signal id st ≡ ok st' → Signalled st st'
signal-effect id st st' ran =
    Always-ok (Signalled st) (signal id st) st' ran (signal-Signalled id st)

pub finish_query-table :
    (id : ℕ) (st st' : Server)
    → finish_query id st ≡ ok st'
    → let e = st.convert_table id in
      st' ≡ record st {
        convert_table = update st.convert_table id (record e { sem = e.sem - 1; valid = 0 });
      }
unfolding finish_query
finish_query-table id st st' ran = (write_convert-parts id _ st st' ran).1
