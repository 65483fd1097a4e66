-- ===== src/Protocol/Name/Ends.antt =====
-- src/protocol/protocol.c: on any bytes `parse_qname` and `dump_name` end.
use adrift.Base.{
  ℕ, zero, suc, ◌+◌, ◌%◌, ◌≤◌, ◌<◌, ◌≡◌, refl, ◌⊎◌, inl, inr, false, List, [], ◌∷◌, ◌++◌, ok, fault,
  read_overrun, arith, length, drop, read, ◌==◌, ◌||◌, Bool-cases, if◌then◌else◌, Ends, >>=-Ends,
  read-Ends,
}
use adrift.Protocol.Bytes.{load_bytes, load_bytes-Ends}
use adrift.Protocol.Name.{parse_qname, scan_label, dump_labels, dump_name}
use adrift.Protocol.Name.Safety.{parse_qname_safe}

pub parse_qname-Ends : (buf : List ℕ) → Ends (parse_qname buf)
parse_qname-Ends buf = elim (parse_qname_safe buf) [ inl (r, e, _) ↦ inl (r, e) | inr e ↦ inr e ]

-- The pointer behind a label is not before its start.
scan_label-le :
    (p : List ℕ) (len : ℕ)
    → ((r : ℕ × List ℕ) × (scan_label p len ≡ ok r) × (length r.1 ≤ length p))
      ⊎ (scan_label p len ≡ fault read_overrun)
unfolding scan_label
scan_label-le [] len = inr refl
scan_label-le (c ∷ p) len = elim (Bool-cases (c == b'.' || c == 0)) [
  | inl e ↦ inl ((len, c ∷ p), rw e refl, omega arith)
  | inr e ↦ elim (scan_label-le p ((len + 1) % 256)) [
    | inl (r, f, h) ↦ inl (r, rw e f, omega arith)
    | inr f ↦ inr (rw e f)
  ]
]

-- One round moves the pointer on: over the label, or over a dot.
next_label-lt :
    (c : ℕ) (p : List ℕ) (r : ℕ × List ℕ) (d : ℕ)
    → (c == 0) ≡ false
    → scan_label (c ∷ p) 0 ≡ ok r
    → read r.1 ≡ ok d
    → length (if d == b'.' then drop 1 r.1 else r.1) < length (c ∷ p)
unfolding scan_label
next_label-lt c p (l, []) d n e h = cc
next_label-lt c p (l, x ∷ q) d n e h = ground (arith, scan_label-le p 1)

dump_labels-Ends :
    (fuel : ℕ) (qname q out : List ℕ) → length qname < fuel → Ends (dump_labels fuel qname q out)
unfolding dump_labels
dump_labels-Ends zero qname q out h = absurd (omega arith)
dump_labels-Ends (suc fuel) [] q out h = inr refl
dump_labels-Ends (suc fuel) (c ∷ p) q out h = elim (Bool-cases (c == 0)) [
  | inl e ↦ inl (out ++ 0 ∷ [], rw e refl)
  | inr e ↦ elim (scan_label-le (c ∷ p) 0) [
    | inr f ↦ inr (rw (e, f) refl)
    | inl (r, f, k) ↦
        rw (e, f)
          (>>=-Ends (load_bytes r.0 q) _ (load_bytes-Ends r.0 q) λ l. elim (read-Ends r.1) [
            | inr g ↦ inr (rw g refl)
            | inl (d, g) ↦ rw g (
                dump_labels-Ends fuel (if d == b'.' then drop 1 r.1 else r.1) (drop (suc r.0) q)
                  (out ++ r.0 ∷ l.0) (omega (arith, next_label-lt c p r d e f g)))
          ])
  ]
]

pub dump_name-Ends : (qname : List ℕ) → Ends (dump_name qname)
unfolding dump_name
dump_name-Ends qname = dump_labels-Ends (suc (length qname)) qname qname [] (omega arith)
