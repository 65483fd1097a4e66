-- ===== src/Handle/Wire.antt =====
-- src/protocol/handle.c: whole messages, read back by the loops of `handle_receive_response` from
-- the bytes that those of `handle_send_response` write.
use adrift.Base.{
  ℕ, ◌<◌, ◌^◌, ◌≡◌, refl, sym, ap, ◌∙◌, subst, List, [], ◌∷◌, ◌++◌, append_assoc, ok, ◌>>=◌,
  >>=-parts, ok-injective, All, length,
}
use adrift.Handle.Response.{Sections, parse_records, parse_sections, dump_records, response_body}
use adrift.Protocol.Header.{DnsHeader, IsHeader}
use adrift.Protocol.Name.RoundTrip.{Label, IsTextLabel, dotted}
use adrift.Protocol.Question.{
  DnsQuestion, parse_question, dump_question, parse_question-dump_question,
}
use adrift.Protocol.Record.{DnsResourceRecord, parse_resource_record, dump_resource_record}
use adrift.Protocol.Record.RoundTrip.{IsShort, IsRecord, parse_record-dump_record}

-- A question over text labels, with fields that fit their widths.
pub record IsQuestion (q : DnsQuestion) : Type 0 where
  pub labels : List Label
  pub text : All IsTextLabel labels
  pub named : q.qname ≡ dotted labels ++ 0 ∷ []
  pub qtype16 : q.qtype < 2 ^ 16
  pub qclass16 : q.qclass < 2 ^ 16

-- A record over short text labels, with fields that fit their widths.
pub record IsEntry (r : DnsResourceRecord) : Type 0 where
  pub labels : List Label
  pub text : All IsTextLabel labels
  pub short : All IsShort labels
  pub named : r.name ≡ dotted labels ++ 0 ∷ []
  pub fits : IsRecord r

-- A message whose header counts its records.
pub record IsMessage (h : DnsHeader) (q : DnsQuestion) (ss : Sections) : Type 0 where
  pub header : IsHeader h
  pub question : IsQuestion q
  pub answers : All IsEntry ss.answers
  pub authorities : All IsEntry ss.authorities
  pub additionals : All IsEntry ss.additionals
  pub an : h.ancount ≡ length ss.answers
  pub ns : h.nscount ≡ length ss.authorities
  pub ar : h.arcount ≡ length ss.additionals

pub parse_question-dumped :
    (q : DnsQuestion) (bytes rest : List ℕ)
    → IsQuestion q
    → dump_question q ≡ ok bytes
    → parse_question (bytes ++ rest) ≡ ok (q, rest)
parse_question-dumped q bytes rest v dumped =
    let whole =
      subst
        (λ n.
          (dump_question (record q { qname = n }) >>= λ b. parse_question (b ++ rest))
          ≡ ok (record q { qname = n }, rest))
        (sym v.named)
        (parse_question-dump_question v.labels q.qtype q.qclass rest v.text v.qtype16 v.qclass16) in
    rw dumped at whole

parse_entry-dumped :
    (r : DnsResourceRecord) (bytes name_buf rest : List ℕ)
    → IsEntry r
    → dump_resource_record r ≡ ok bytes
    → parse_resource_record (bytes ++ rest) name_buf ≡ ok (r, rest)
parse_entry-dumped r bytes name_buf rest v dumped =
    rw dumped at (parse_record-dump_record v.labels r name_buf rest v.text v.short v.named v.fits)

parse_records-dump_records :
    (rs : List DnsResourceRecord) (bytes name_buf rest : List ℕ)
    → All IsEntry rs
    → dump_records rs ≡ ok bytes
    → parse_records (length rs) (bytes ++ rest) name_buf ≡ ok (rs, rest)
unfolding parse_records dump_records
parse_records-dump_records [] bytes name_buf rest v dumped = rw (← ok-injective dumped) refl
parse_records-dump_records (r ∷ rs) bytes name_buf rest v dumped =
    let (first, at_first, e) = >>=-parts (dump_resource_record r) bytes dumped in
    let (more, at_more, e') = >>=-parts (dump_records rs) bytes e in
    rw
      (
        ← ok-injective e',
        append_assoc first more rest,
        parse_entry-dumped r first name_buf (more ++ rest) v.0 at_first,
        parse_records-dump_records rs more name_buf rest v.1 at_more,
      )
      refl

-- The question and the three sections of a message are read back, whatever stands behind them.
pub parse-response_body :
    (h : DnsHeader) (q : DnsQuestion) (ss : Sections) (body name_buf rest : List ℕ)
    → IsMessage h q ss
    → response_body q ss ≡ ok body
    → (p : List ℕ) × (parse_question (body ++ rest) ≡ ok (q, p))
      × (parse_sections p name_buf h ≡ ok ss)
unfolding response_body parse_sections
parse-response_body h q ss body name_buf rest v dumped =
    let (b, at_b, e) = >>=-parts (dump_question q) body dumped in
    let (b₁, at_b₁, e₁) = >>=-parts (dump_records ss.answers) body e in
    let (b₂, at_b₂, e₂) = >>=-parts (dump_records ss.authorities) body e₁ in
    let (b₃, at_b₃, e₃) = >>=-parts (dump_records ss.additionals) body e₂ in
    let p = b₁ ++ (b₂ ++ (b₃ ++ rest)) in
    let whole : (b ++ (b₁ ++ (b₂ ++ b₃))) ++ rest ≡ b ++ p =
      append_assoc b (b₁ ++ (b₂ ++ b₃)) rest
      ∙ ap (λ l. b ++ l)
          (append_assoc b₁ (b₂ ++ b₃) rest ∙ ap (λ l. b₁ ++ l) (append_assoc b₂ b₃ rest)) in
    (
      p,
      ap (λ bytes. parse_question (bytes ++ rest)) (sym (ok-injective e₃))
          ∙ (ap parse_question whole ∙ parse_question-dumped q b p v.question at_b),
      rw
          (
            v.an,
            parse_records-dump_records ss.answers b₁ name_buf (b₂ ++ (b₃ ++ rest)) v.answers at_b₁,
            v.ns,
            parse_records-dump_records ss.authorities b₂ name_buf (b₃ ++ rest) v.authorities at_b₂,
            v.ar,
            parse_records-dump_records ss.additionals b₃ name_buf rest v.additionals at_b₃,
          )
          refl,
    )
