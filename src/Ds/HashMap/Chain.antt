-- ===== src/Ds/HashMap/Chain.antt =====
-- src/ds/hash_map.h: one chain, as a map from texts.
use adrift.Base.{
  ℕ, ◌+◌, ◌≡◌, refl, sym, ap, ◌∙◌, inl, inr, Option, none, some, List, [], ◌∷◌, ◌++◌, All, arith,
  ok, ◌>>=◌, ◌==◌, ne→==_false, false, if◌then◌else◌, Bool-cases,
}
use adrift.Util.{is_zero, stream_compare}
use adrift.Util.Text.{IsText, same, same_iff, stream_compare-text, text_hash}
use adrift.Ds.HashMap.{HashMapEntry, matches, find_entry}

-- The text in a key array.
unfoldable pub until_nul : List ℕ → List ℕ
until_nul [] = []
until_nul (c ∷ p) = let rest = until_nul p in if c == 0 then [] else c ∷ rest

abbrev pub text : HashMapEntry → List ℕ
text e = until_nul e.key

-- An entry holds a text with its NUL, and the text's hash.
pub record IsEntry (e : HashMapEntry) : Type 0 where
  pub behind : List ℕ
  pub stored : e.key ≡ text e ++ 0 ∷ behind
  pub hashed : e.hash_ ≡ text_hash (text e)

until_nul-IsText : (p : List ℕ) → IsText (until_nul p)
unfolding until_nul
until_nul-IsText [] = tt
until_nul-IsText (c ∷ p) = elim (Bool-cases (c == 0)) [
  | inl e ↦ rw e tt
  | inr e ↦ rw e ((λ z. (ground arith)), until_nul-IsText p)
]

pub until_nul-text : (t rest : List ℕ) → IsText t → until_nul (t ++ 0 ∷ rest) ≡ t
unfolding until_nul
until_nul-text [] rest h = refl
until_nul-text (c ∷ t) rest h = rw (ne→==_false c 0 h.0, until_nul-text t rest h.1)

-- The value of the first entry for `t`, and the number of its entries.
unfoldable pub lookup : List ℕ → List HashMapEntry → Option ℕ
lookup t [] = none
lookup t (e ∷ es) = if same (text e) t then some e.value else lookup t es

unfoldable pub count : List ℕ → List HashMapEntry → ℕ
count t [] = 0
count t (e ∷ es) = (if same (text e) t then 1 else 0) + count t es

pub count-append :
    (t : List ℕ) (xs ys : List HashMapEntry) → count t (xs ++ ys) ≡ count t xs + count t ys
unfolding count
count-append t [] ys = omega arith
count-append t (e ∷ xs) ys = omega (arith, count-append t xs ys)

pub lookup-none : (t : List ℕ) (es : List HashMapEntry) → count t es ≡ 0 → lookup t es ≡ none
unfolding count lookup
lookup-none t [] h = refl
lookup-none t (e ∷ es) h = ground (arith, lookup-none t es)

pub count-zero : (t : List ℕ) (es : List HashMapEntry) → lookup t es ≡ none → count t es ≡ 0
unfolding count lookup
count-zero t [] h = refl
count-zero t (e ∷ es) h = ground (arith, count-zero t es)

matches-text :
    (e : HashMapEntry) (t rest : List ℕ)
    → IsEntry e
    → IsText t
    → matches (text_hash t) (t ++ 0 ∷ rest) e ≡ ok (same (text e) t)
unfolding matches
matches-text e t rest v h = elim (Bool-cases (e.hash_ == text_hash t)) [
  | inl q ↦
      let (z, run, answer) =
        stream_compare-text (text e) t v.behind rest (until_nul-IsText e.key) h in
      rw q (
        ap (λ k. stream_compare k (t ++ 0 ∷ rest) >>= λ z. ok (is_zero z)) v.stored
        ∙ rw run (ap ok answer))
  | inr q ↦ rw q (ap ok (sym (differ q)))
]
  where
    differ : (e.hash_ == text_hash t) ≡ false → same (text e) t ≡ false
    differ q = elim (Bool-cases (same (text e) t)) [
      | inr n ↦ n
      | inl y ↦
          let u : text e ≡ t = (same_iff (text e) t).0 y in
          let w : e.hash_ ≡ text_hash t = v.hashed ∙ ap text_hash u in absurd (ground arith)
    ]

-- The loop along a chain of entries looks a text up.
pub find_entry-lookup :
    (es : List HashMapEntry) (t rest : List ℕ)
    → All IsEntry es
    → IsText t
    → find_entry (text_hash t) (t ++ 0 ∷ rest) es ≡ ok (lookup t es)
unfolding find_entry lookup
find_entry-lookup [] t rest v h = refl
find_entry-lookup (e ∷ es) t rest v h =
    rw (matches-text e t rest v.0 h, find_entry-lookup es t rest v.1 h) (ground arith)
