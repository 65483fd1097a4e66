-- ===== src/Protocol/Name/RoundTrip.antt =====
-- src/protocol/protocol.c: names printed by `dump_name` are read back by `parse_qname`, and the
-- other way round.
use adrift.Base.{
  ℕ, zero, suc, ◌+◌, ◌%◌, ◌≤◌, ◌<◌, ◌≡◌, refl, ap, ◌∙◌, ◌≢◌, List, [], ◌∷◌, ◌++◌, append_assoc,
  append-nil, false, ok, ◌>>=◌, arith, length, drop, ◌==◌, lt→ltb, ne→==_false, All, length-append,
  drop-append, drop-append_suc,
}
use adrift.Protocol.Bytes.{load_bytes-append}
use adrift.Protocol.Name.{
  scan_length, get_qname_length, Block, put, copy_label, parse_labels, parse_qname, scan_label,
  dump_labels, dump_name,
}

-- A label as its bytes, a name as its labels.
abbrev pub Label : Type 0
Label = List ℕ

-- A label of the message: not empty, and its length fits a byte.
abbrev pub IsLabel : Label → Type 0
IsLabel l = (0 < length l) × (length l < 256)

abbrev pub IsTextByte : ℕ → Type 0
IsTextByte c = (c ≢ b'.') × (c ≢ 0)

-- A label that can stand in dotted text.
abbrev pub IsTextLabel : Label → Type 0
IsTextLabel l = IsLabel l × All IsTextByte l

-- The name as RFC 1035 writes it in a message.
unfoldable pub wire : List Label → List ℕ
wire [] = 0 ∷ []
wire (l ∷ ls) = length l ∷ (l ++ wire ls)

-- The name as text, without the NUL.
unfoldable pub dotted : List Label → List ℕ
dotted [] = []
dotted (l ∷ ls) = l ++ (b'.' ∷ dotted ls)

length-lt-wire : (ls : List Label) (rest : List ℕ) → length ls < length (wire ls ++ rest)
unfolding wire
length-lt-wire [] rest = omega arith
length-lt-wire (l ∷ ls) rest =
    rw (append_assoc l (wire ls) rest)
      (omega (arith, length-append l (wire ls ++ rest), length-lt-wire ls rest))

drop-label : (l p rest : List ℕ) → drop (length l) ((l ++ p) ++ rest) ≡ p ++ rest
drop-label l p rest = rw (append_assoc l p rest) (drop-append l (p ++ rest))

nonempty-== : (l : Label) → 0 < length l → (length l == 0) ≡ false
nonempty-== l h = ground arith

scan_length-wire :
    (ls : List Label) (fuel : ℕ) (rest : List ℕ) (len : ℕ)
    → All IsLabel ls
    → length ls < fuel
    → scan_length fuel (wire ls ++ rest) len ≡ ok (len + length (dotted ls) + 2)
unfolding wire dotted scan_length
scan_length-wire ls zero rest len v h = absurd (omega arith)
scan_length-wire [] (suc fuel) rest len v h = ap ok (omega arith)
scan_length-wire (l ∷ ls) (suc fuel) rest len v h =
    rw (nonempty-== l v.0.0, drop-label l (wire ls) rest)
      (scan_length-wire ls fuel rest (len + suc (length l)) v.1 (omega arith)
        ∙ ap ok (omega (arith, length-append l (b'.' ∷ dotted ls))))

copy_label-append :
    (l p : List ℕ) (o : Block)
    → length o.bytes + length l ≤ o.cap
    → copy_label (length l) (l ++ p) o ≡ ok (p, record o { bytes = o.bytes ++ l })
unfolding copy_label put
copy_label-append [] p o h = rw append-nil
copy_label-append (b ∷ l) p o h = rw (lt→ltb (length o.bytes) o.cap (omega arith)) (
    copy_label-append l p (record o { bytes = o.bytes ++ b ∷ [] })
      (omega (arith, length-append o.bytes (b ∷ [])))
    ∙ rw (append_assoc o.bytes (b ∷ []) l))

put_room :
    (o : Block) (b : ℕ)
    → length o.bytes < o.cap
    → put o b ≡ ok (record o { bytes = o.bytes ++ b ∷ [] })
unfolding put
put_room o b h = rw (lt→ltb _ _ h)

parse_labels-wire :
    (ls : List Label) (fuel : ℕ) (rest : List ℕ) (o : Block)
    → All IsLabel ls
    → length ls < fuel
    → length o.bytes + length (dotted ls) ≤ o.cap
    → parse_labels fuel (wire ls ++ rest) o
      ≡ ok (0 ∷ rest, record o { bytes = o.bytes ++ dotted ls })
unfolding wire dotted parse_labels
parse_labels-wire ls zero rest o v h k = absurd (omega arith)
parse_labels-wire [] (suc fuel) rest o v h k = rw append-nil
parse_labels-wire (l ∷ ls) (suc fuel) rest o v h k =
    let o₁ : Block = record o { bytes = o.bytes ++ l } in
    let o₂ : Block = record o { bytes = (o.bytes ++ l) ++ b'.' ∷ [] } in
    let size = length-append l (b'.' ∷ dotted ls) in
    let grown = length-append o.bytes l in
    rw
      (
        nonempty-== l v.0.0,
        append_assoc l (wire ls) rest,
        copy_label-append l (wire ls ++ rest) o (omega arith),
        put_room o₁ b'.' (omega arith),
      )
      (parse_labels-wire ls fuel rest o₂ v.1 (omega arith)
          (omega (arith, length-append (o.bytes ++ l) (b'.' ∷ [])))
        ∙ rw (append_assoc (o.bytes ++ l) (b'.' ∷ []) (dotted ls))
            (rw (append_assoc o.bytes l (b'.' ∷ dotted ls))))

-- Reading a name of the message gives its dotted text with a NUL, and the pointer behind the name.
pub parse_qname-wire :
    (ls : List Label) (rest : List ℕ)
    → All IsLabel ls
    → parse_qname (wire ls ++ rest) ≡ ok (dotted ls ++ 0 ∷ [], rest)
unfolding parse_qname get_qname_length
parse_qname-wire ls rest v =
    let n = 0 + length (dotted ls) + 2 in
    let few = length-lt-wire ls rest in
    let o : Block = record { cap = n; bytes = dotted ls } in
    rw (
      scan_length-wire ls (suc (length (wire ls ++ rest))) rest 0 v (omega arith),
      parse_labels-wire ls (suc (length (wire ls ++ rest))) rest (record { cap = n; bytes = [] }) v
          (omega arith) (omega arith),
      put_room o 0 (omega arith),
    )

scan_label-append :
    (l p : List ℕ) (len : ℕ)
    → All IsTextByte l
    → len + length l < 256
    → scan_label (l ++ b'.' ∷ p) len ≡ ok (len + length l, b'.' ∷ p)
unfolding scan_label
scan_label-append [] p len v h = ap (λ n. ok (n, b'.' ∷ p)) (omega arith)
scan_label-append (c ∷ l) p len v h =
    let small : (len + 1) % 256 ≡ len + 1 = omega arith in
    rw (ne→==_false c b'.' v.0.0, ne→==_false c 0 v.0.1, small)
      (scan_label-append l p (len + 1) v.1 (omega arith) ∙ ap (λ n. ok (n, b'.' ∷ p)) (omega arith))

scan_label_whole :
    (l p : List ℕ)
    → All IsTextByte l
    → length l < 256
    → scan_label (l ++ b'.' ∷ p) 0 ≡ ok (length l, b'.' ∷ p)
scan_label_whole l p v h =
    scan_label-append l p 0 v (omega arith) ∙ ap (λ n. ok (n, b'.' ∷ p)) (omega arith)

length-le-dotted : (ls : List Label) → length ls ≤ length (dotted ls)
unfolding dotted
length-le-dotted [] = omega arith
length-le-dotted (l ∷ ls) = omega (arith, length-append l (b'.' ∷ dotted ls), length-le-dotted ls)

dump_labels-dotted :
    (ls : List Label) (fuel : ℕ) (out : List ℕ)
    → All IsTextLabel ls
    → length ls < fuel
    → dump_labels fuel (dotted ls ++ 0 ∷ []) (dotted ls ++ 0 ∷ []) out ≡ ok (out ++ wire ls)
unfolding wire dotted dump_labels
dump_labels-dotted ls zero out v h = absurd (omega arith)
dump_labels-dotted [] (suc fuel) out v h = refl
dump_labels-dotted ([] ∷ ls) (suc fuel) out v h = absurd (omega arith)
dump_labels-dotted ((c ∷ l) ∷ ls) (suc fuel) out v h =
    let p = dotted ls ++ 0 ∷ [] in
    rw
      (
        append_assoc l (b'.' ∷ dotted ls) (0 ∷ []),
        ne→==_false c 0 v.0.1.0.1,
        scan_label_whole (c ∷ l) p v.0.1 (omega arith),
        load_bytes-append (c ∷ l) (b'.' ∷ p),
        drop-append_suc l b'.' p,
      )
      (dump_labels-dotted ls fuel (out ++ suc (length l) ∷ (c ∷ l)) v.1 (omega arith)
        ∙ rw (append_assoc out (suc (length l) ∷ (c ∷ l)) (wire ls)))

-- Printing the dotted text writes the name as the message has it.
pub dump_name-dotted :
    (ls : List Label) → All IsTextLabel ls → dump_name (dotted ls ++ 0 ∷ []) ≡ ok (wire ls)
unfolding dump_name
dump_name-dotted ls v =
    dump_labels-dotted ls (suc (length (dotted ls ++ 0 ∷ []))) [] v
      (omega (arith, length-le-dotted ls, length-append (dotted ls) (0 ∷ [])))

pub All-IsLabel : (ls : List Label) → All IsTextLabel ls → All IsLabel ls
All-IsLabel [] v = tt
All-IsLabel (l ∷ ls) v = (v.0.0, All-IsLabel ls v.1)

-- A name of text labels survives both ways: its text printed and read again is the same text, with
-- the reader left behind the name; the name read and printed again is the same bytes.
pub name_round_trip :
    (ls : List Label) (rest : List ℕ)
    → All IsTextLabel ls
    → ((dump_name (dotted ls ++ 0 ∷ []) >>= λ bytes. parse_qname (bytes ++ rest))
        ≡ ok (dotted ls ++ 0 ∷ [], rest))
      × ((parse_qname (wire ls ++ rest) >>= λ r. dump_name r.0) ≡ ok (wire ls))
name_round_trip ls rest v = (
  rw (dump_name-dotted ls v) (parse_qname-wire ls rest (All-IsLabel ls v)),
  rw (parse_qname-wire ls rest (All-IsLabel ls v)) (dump_name-dotted ls v),
)
