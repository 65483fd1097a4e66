-- ===== src/Protocol/Name/Safety.antt =====
-- src/protocol/protocol.c, `get_qname_length` and `parse_qname`: memory safety of the name parser
-- on every message, well formed or not.
use adrift.Base.{
  ℕ, zero, suc, ◌+◌, ◌≤◌, ◌<◌, ◌≡◌, refl, ap, ◌⊎◌, inl, inr, List, [], ◌∷◌, ◌++◌, ok, fault,
  read_overrun, arith, length, drop, ◌==◌, lt→ltb, Bool-cases, length-append, length-drop,
}
use adrift.Protocol.Name.{
  scan_length, get_qname_length, Block, put, copy_label, parse_labels, parse_qname,
}

-- With more fuel than bytes the scan ends, or runs off the message.
scan_length_total :
    (fuel : ℕ) (p : List ℕ) (len : ℕ)
    → length p < fuel
    → ((n : ℕ) × (scan_length fuel p len ≡ ok n)) ⊎ (scan_length fuel p len ≡ fault read_overrun)
unfolding scan_length
scan_length_total zero p len h = absurd (omega arith)
scan_length_total (suc fuel) [] len h = inr refl
scan_length_total (suc fuel) (b ∷ p) len h = elim (Bool-cases (b == 0)) [
  | inl e ↦ inl (len + 2, rw e)
  | inr e ↦ rw e (scan_length_total fuel (drop b p) (len + suc b) (omega (arith, length-drop b p)))
]

scan_length-ge :
    (fuel : ℕ) (p : List ℕ) (len : ℕ) {n : ℕ} → scan_length fuel p len ≡ ok n → len + 2 ≤ n
unfolding scan_length
scan_length-ge zero p len h = cc
scan_length-ge (suc fuel) [] len h = cc
scan_length-ge (suc fuel) (b ∷ p) len {n} h =
    ground (arith, scan_length-ge fuel (drop b p) (len + suc b) {n = n})

-- A scan that ends has read a byte.
scan_length-pos :
    (fuel : ℕ) (p : List ℕ) (len : ℕ) {n : ℕ} → scan_length fuel p len ≡ ok n → 0 < length p
unfolding scan_length
scan_length-pos zero p len h = cc
scan_length-pos (suc fuel) [] len h = cc
scan_length-pos (suc fuel) (b ∷ p) len h = omega arith

abbrev Grown : Block → ℕ → Block → Type 0
Grown o n o' = (o'.cap ≡ o.cap) × (length o'.bytes ≡ length o.bytes + n)

put_room :
    (o : Block) (b : ℕ) → length o.bytes < o.cap → (o' : Block) × (put o b ≡ ok o') × Grown o 1 o'
unfolding put
put_room o b h = (
  record o { bytes = o.bytes ++ b ∷ [] },
  rw (lt→ltb _ _ h),
  (refl, length-append o.bytes (b ∷ [])),
)

copy_label_room :
    (l : ℕ) (p : List ℕ) (o : Block)
    → l ≤ length p
    → length o.bytes + l ≤ o.cap
    → (o' : Block) × (copy_label l p o ≡ ok (drop l p, o')) × Grown o l o'
unfolding copy_label
copy_label_room zero p o h k = (o, refl, omega arith)
copy_label_room (suc l) [] o h k = absurd (omega arith)
copy_label_room (suc l) (b ∷ p) o h k =
    let (o₁, e₁, g₁) = put_room o b (omega arith) in
    let (o₂, e₂, g₂) = copy_label_room l p o₁ (omega arith) (omega arith) in
    (o₂, rw (e₁, e₂), omega arith)

-- The copy follows the scan: it writes two bytes less than the scan has counted.
parse_labels_room :
    (fuel : ℕ) (p : List ℕ) (o : Block) {n : ℕ}
    → scan_length fuel p (length o.bytes) ≡ ok n
    → n ≤ o.cap
    → (r : List ℕ × Block) × (parse_labels fuel p o ≡ ok r)
      × (r.1.cap ≡ o.cap)
      × (length r.1.bytes + 2 ≡ n)
unfolding scan_length parse_labels
parse_labels_room zero p o h k = cc
parse_labels_room (suc fuel) [] o h k = cc
parse_labels_room (suc fuel) (b ∷ p) o {n} h k = elim (Bool-cases (b == 0)) [
  | inl e ↦ ((b ∷ p, o), rw e, refl, ground arith)
  | inr e ↦
      let s : scan_length fuel (drop b p) (length o.bytes + suc b) ≡ ok n = rw e at h in
      let ge = scan_length-ge fuel (drop b p) (length o.bytes + suc b) s in
      let more = scan_length-pos fuel (drop b p) (length o.bytes + suc b) s in
      let (o₁, e₁, g₁) = copy_label_room b p o (omega (arith, length-drop b p)) (omega arith) in
      let (o₂, e₂, g₂) = put_room o₁ b'.' (omega arith) in
      let same : length o.bytes + suc b ≡ length o₂.bytes = omega arith in
      let (r, e₃, c₃, n₃) = parse_labels_room fuel (drop b p) o₂ (rw same at s) (omega arith) in
      (r, rw (e, e₁, e₂) e₃, omega arith, n₃)
]

-- On every message the parser ends. Either it returns a text that, with its NUL, is one byte
-- shorter than the block that it has allocated, or it reads past the end of the message: it never
-- writes past its block.
pub parse_qname_safe :
    (buf : List ℕ)
    → ((r : List ℕ × List ℕ) × (parse_qname buf ≡ ok r)
        × (get_qname_length buf ≡ ok (suc (length r.0))))
      ⊎ (parse_qname buf ≡ fault read_overrun)
unfolding parse_qname get_qname_length
parse_qname_safe buf = elim (scan_length_total (suc (length buf)) buf 0 (omega arith)) [
  | inr e ↦ inr (rw e)
  | inl (n, e) ↦
      let (r, e₁, c₁, n₁) =
        parse_labels_room (suc (length buf)) buf (record { cap = n; bytes = [] }) e (omega arith) in
      let (o, e₂, g₂) = put_room r.1 0 (omega arith) in
      inl ((o.bytes, drop 1 r.0), rw (e, e₁, e₂), rw e (ap ok (omega arith)))
]
