-- ===== src/Protocol/Question.antt =====
-- src/protocol/protocol.h, `DnsQuestion`; src/protocol/protocol.c, its parser and its printer.
use adrift.Base.{ℕ, List, ◌++◌, Run, ok, ◌>>=◌, ◌≡◌, ◌<◌, ◌^◌, ◌∷◌, [], All, append_assoc}
use adrift.Protocol.Bytes.{load16, store16, load16-store16}
use adrift.Protocol.Name.{parse_qname, dump_name}
use adrift.Protocol.Name.RoundTrip.{
  Label, IsTextLabel, wire, dotted, parse_qname-wire, dump_name-dotted, All-IsLabel,
}

-- `qname` is the text's block, from its first byte to its NUL.
pub record DnsQuestion : Type 0 where
  pub qname : List ℕ
  pub qtype : ℕ
  pub qclass : ℕ

unfoldable pub parse_question : List ℕ → Run (DnsQuestion × List ℕ)
parse_question buf = do
  (qname, p₁) ← parse_qname buf
  (qtype, p₂) ← load16 p₁
  (qclass, p₃) ← load16 p₂
  ok (record { qname = qname; qtype = qtype; qclass = qclass }, p₃)

-- `qtype` and `qclass` are swapped in place and swapped back, so the question is unchanged.
unfoldable pub dump_question : DnsQuestion → Run (List ℕ)
dump_question question = do
  name ← dump_name question.qname
  ok (name ++ (store16 question.qtype ++ store16 question.qclass))

-- A question over text labels, with 16-bit fields, is read back from the bytes that it is written
-- as, and the reader stands right behind them.
pub parse_question-dump_question :
    (ls : List Label) (qtype qclass : ℕ) (rest : List ℕ)
    → All IsTextLabel ls
    → qtype < 2 ^ 16
    → qclass < 2 ^ 16
    → let question : DnsQuestion = record {
      qname = dotted ls ++ 0 ∷ [];
      qtype = qtype;
      qclass = qclass;
    } in
      (dump_question question >>= λ bytes. parse_question (bytes ++ rest)) ≡ ok (question, rest)
unfolding parse_question dump_question
parse_question-dump_question ls qtype qclass rest v ht hc = rw (
  dump_name-dotted ls v,
  append_assoc (wire ls) (store16 qtype ++ store16 qclass) rest,
  append_assoc (store16 qtype) (store16 qclass) rest,
  parse_qname-wire ls (store16 qtype ++ (store16 qclass ++ rest)) (All-IsLabel ls v),
  load16-store16 qtype (store16 qclass ++ rest) ht,
  load16-store16 qclass rest hc,
)
