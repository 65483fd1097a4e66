-- ===== src/Protocol/Name.antt =====
-- src/protocol/protocol.c: domain names, as length-prefixed labels in a message and as dotted
-- text in memory.
pub mod Safety
pub mod Ends
pub mod RoundTrip
use adrift.Base.{
  ℕ, zero, suc, ◌+◌, ◌%◌, List, [], ◌∷◌, ◌++◌, Run, ok, fault, read_overrun, write_overrun,
  out_of_fuel, ◌>>=◌, length, drop, read, ◌==◌, ltb, ◌||◌, if◌then◌else◌,
}
use adrift.Protocol.Bytes.{load_bytes}

-- The loop of `get_qname_length`.
pub scan_length : ℕ → List ℕ → ℕ → Run ℕ
scan_length zero p len = fault out_of_fuel
scan_length (suc fuel) p len = do
  b ← read p
  let rest = scan_length fuel (drop (suc b) p) (len + suc b)
  if b == 0 then ok (len + 2) else rest

-- Every round moves the pointer on, so the object's length bounds the rounds.
unfoldable pub get_qname_length : List ℕ → Run ℕ
unfolding scan_length
get_qname_length buf = scan_length (suc (length buf)) buf 0

-- A block from `malloc`, with the bytes written so far.
pub record Block : Type 0 where
  pub cap : ℕ
  pub bytes : List ℕ

-- `*p++ = b`
unfoldable pub put : Block → ℕ → Run Block
put o b =
    if ltb (length o.bytes) o.cap
    then ok (record o { bytes = o.bytes ++ b ∷ [] })
    else fault write_overrun

-- The inner loop of `parse_qname`: `l` bytes of one label.
pub copy_label : ℕ → List ℕ → Block → Run (List ℕ × Block)
copy_label zero p o = ok (p, o)
copy_label (suc l) p o = do b ← read p; o' ← put o b; copy_label l (drop 1 p) o'

-- The outer loop; a label is followed by a dot.
pub parse_labels : ℕ → List ℕ → Block → Run (List ℕ × Block)
unfolding copy_label
parse_labels zero p o = fault out_of_fuel
parse_labels (suc fuel) p o = do
  l ← read p
  let rest = (do (p', o') ← copy_label l (drop 1 p) o; o'' ← put o' b'.'; parse_labels fuel p' o'')
  if l == 0 then ok (p, o) else rest

-- The text with its NUL, and the pointer behind the name.
unfoldable pub parse_qname : List ℕ → Run (List ℕ × List ℕ)
unfolding parse_labels
parse_qname buf = do
  len ← get_qname_length buf
  (p, o) ← parse_labels (suc (length buf)) buf (record { cap = len; bytes = [] })
  o' ← put o 0
  ok (o'.bytes, drop 1 p)

-- The inner loop of `dump_name`: the length of a label, an 8-bit counter, and the pointer behind.
pub scan_label : List ℕ → ℕ → Run (ℕ × List ℕ)
scan_label [] len = fault read_overrun
scan_label (c ∷ p) len =
    if c == b'.' || c == 0 then ok (len, c ∷ p) else scan_label p ((len + 1) % 256)

-- The outer loop: `q` runs beside `qname`, and a label is copied from there.
pub dump_labels : ℕ → List ℕ → List ℕ → List ℕ → Run (List ℕ)
dump_labels zero qname q out = fault out_of_fuel
dump_labels (suc fuel) qname q out = do
  c ← read qname
  let rest = (do
    (len, qname') ← scan_label qname 0
    (label, _) ← load_bytes len q
    d ← read qname'
    dump_labels fuel (if d == b'.' then drop 1 qname' else qname') (drop (suc len) q)
        (out ++ len ∷ label))
  if c == 0 then ok (out ++ 0 ∷ []) else rest

-- The bytes that `dump_name` writes.
unfoldable pub dump_name : List ℕ → Run (List ℕ)
unfolding dump_labels scan_label load_bytes
dump_name qname = dump_labels (suc (length qname)) qname qname []
