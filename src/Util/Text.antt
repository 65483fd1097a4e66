-- ===== src/Util/Text.antt =====
-- src/util/type.h and src/ds/hash.h: the string functions on strings that end in a NUL.
use adrift.Base.{
  ℕ, ◌^◌, ◌<◌, ◌≡◌, ◌≢◌, ◌↔◌, refl, ap, List, [], ◌∷◌, ◌++◌, All, arith, ok, fault, write_overrun,
  length, drop, ◌==◌, ne→==_false, Bool, true, false, ◌&&◌, ltb, if◌then◌else◌, ℤ, sub_ℕ,
  Bool-cases, inl, inr,
}
use adrift.Util.{
  stream_length, stream_copy, stream_compare, is_zero, mix, hash_bytes, hash, fnv_offset_basis,
}

-- Bytes without a NUL.
abbrev pub IsText : List ℕ → Type 0
IsText t = All (λ c. c ≢ 0) t

unfoldable pub same : List ℕ → List ℕ → Bool
same [] [] = true
same [] (b ∷ v) = false
same (a ∷ u) [] = false
same (a ∷ u) (b ∷ v) = a == b && same u v

pub same_iff : (u v : List ℕ) → (same u v ≡ true) ↔ (u ≡ v)
unfolding same
same_iff [] [] = ground arith
same_iff [] (b ∷ v) = ground arith
same_iff (a ∷ u) [] = ground arith
same_iff (a ∷ u) (b ∷ v) = ground (arith, same_iff u v)

pub same_refl : (u : List ℕ) → same u u ≡ true
same_refl u = (same_iff u u).1 refl

pub stream_length-text :
    (t rest : List ℕ) → IsText t → stream_length (t ++ 0 ∷ rest) ≡ ok (length t)
unfolding stream_length
stream_length-text [] rest h = refl
stream_length-text (c ∷ t) rest h =
    rw (ne→==_false c 0 h.0, stream_length-text t rest h.1) (ap ok (omega arith))

-- A text that fits replaces the first bytes of the block; a longer one is written past its end.
pub stream_copy-text :
    (t dst rest : List ℕ)
    → IsText t
    → stream_copy dst (t ++ 0 ∷ rest)
      ≡ (if ltb (length dst) (length t) then fault write_overrun else ok (t ++ drop (length t) dst))
unfolding stream_copy
stream_copy-text [] [] rest h = refl
stream_copy-text [] (d ∷ dst) rest h = ground arith
stream_copy-text (c ∷ t) [] rest h = rw (ne→==_false c 0 h.0) (ground arith)
stream_copy-text (c ∷ t) (d ∷ dst) rest h =
    rw (ne→==_false c 0 h.0, stream_copy-text t dst rest h.1) (ground arith)

-- The comparison is 0 exactly for equal texts.
pub stream_compare-text :
    (t u rest rest' : List ℕ)
    → IsText t
    → IsText u
    → (z : ℤ) × (stream_compare (t ++ 0 ∷ rest) (u ++ 0 ∷ rest') ≡ ok z) × (is_zero z ≡ same t u)
unfolding stream_compare same
stream_compare-text [] [] rest rest' h k = (_, refl, refl)
stream_compare-text [] (b ∷ u) rest rest' h k = (sub_ℕ 0 b, ground arith, ground arith)
stream_compare-text (a ∷ t) [] rest rest' h k =
    (sub_ℕ a 0, rw (ne→==_false a 0 h.0) refl, ground arith)
stream_compare-text (a ∷ t) (b ∷ u) rest rest' h k = elim (Bool-cases (a == b)) [
  | inl e ↦
      let (z, run, answer) = stream_compare-text t u rest rest' h.1 k.1 in
      (z, rw (ne→==_false a 0 h.0, ne→==_false b 0 k.0, e) run, rw e answer)
  | inr e ↦ (sub_ℕ a b, rw (ne→==_false a 0 h.0, ne→==_false b 0 k.0, e) refl, ground arith)
]

-- FNV-1a on 64 bits.
pub fnv : ℕ → List ℕ → ℕ
fnv h [] = h
fnv h (b ∷ p) = fnv (mix h b) p

hash_bytes-append : (t rest : List ℕ) (h : ℕ) → hash_bytes (length t) (t ++ rest) h ≡ ok (fnv h t)
unfolding hash_bytes fnv
hash_bytes-append [] rest h = refl
hash_bytes-append (b ∷ t) rest h = hash_bytes-append t rest (mix h b)

-- The hash of the text that a key points at.
unfoldable pub text_hash : List ℕ → ℕ
text_hash t = fnv fnv_offset_basis t

pub hash-text : (t rest : List ℕ) → hash (t ++ rest) (length t) ≡ ok (text_hash t)
unfolding hash text_hash
hash-text t rest = hash_bytes-append t rest fnv_offset_basis

fnv-lt : (h : ℕ) (t : List ℕ) → h < 2 ^ 64 → fnv h t < 2 ^ 64
unfolding fnv mix
fnv-lt h [] k = k
fnv-lt h (b ∷ t) k = fnv-lt (mix h b) t (omega arith)

-- Every hash fits 64 bits.
pub text_hash-lt : (t : List ℕ) → text_hash t < 2 ^ 64
unfolding text_hash
text_hash-lt t = fnv-lt fnv_offset_basis t (omega arith)
