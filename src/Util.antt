-- ===== src/Util.antt =====
-- src/util/type.h: minimum and NUL-terminated byte strings. src/ds/hash.h: the hash of a string.
pub mod Text
use adrift.Base.{
  ℕ, zero, suc, ◌+◌, ◌*◌, ◌%◌, ◌^◌, List, [], ◌∷◌, Run, ok, fault, read_overrun, write_overrun,
  ◌>>=◌, read, drop, ◌==◌, ltb, ◌||◌, not, if◌then◌else◌, ℤ, pos, sub_ℕ, Bool, true, false,
}
use Prim.Native.Nat.{bit_xor}

unfoldable pub min_u32 : ℕ → ℕ → ℕ
min_u32 a b = if ltb a b then a else b

unfoldable pub stream_length : List ℕ → Run ℕ
stream_length [] = fault read_overrun
stream_length (c ∷ str) =
    let rest = (do n ← stream_length str; ok (n + 1)) in if c == 0 then ok 0 else rest

-- The block at `dst` after the copy; the NUL is not copied.
unfoldable pub stream_copy : List ℕ → List ℕ → Run (List ℕ)
stream_copy dst [] = fault read_overrun
stream_copy [] (c ∷ src) = if c == 0 then ok [] else fault write_overrun
stream_copy (d ∷ dst) (c ∷ src) =
    let rest = (do dst' ← stream_copy dst src; ok (c ∷ dst')) in
    if c == 0 then ok (d ∷ dst) else rest

unfoldable pub stream_compare : List ℕ → List ℕ → Run ℤ
stream_compare [] src = fault read_overrun
stream_compare (d ∷ dst) [] = fault read_overrun
stream_compare (d ∷ dst) (c ∷ src) =
    let rest = stream_compare dst src in
    if d == 0 || c == 0 then ok (sub_ℕ d c) else if not (d == c) then ok (sub_ℕ d c) else rest

abbrev pub is_zero : ℤ → Bool
is_zero (pos n) = n == 0
is_zero _ = false

abbrev pub fnv_offset_basis : ℕ
fnv_offset_basis = 0xcbf29ce484222325

abbrev pub fnv_prime : ℕ
fnv_prime = 0x100000001b3

-- One round: `hash ^= byte; hash *= FNV_PRIME;` on 64 bits.
pub mix : ℕ → ℕ → ℕ
mix h b = bit_xor h b * fnv_prime % 2 ^ 64

pub hash_bytes : ℕ → List ℕ → ℕ → Run ℕ
hash_bytes zero p h = ok h
hash_bytes (suc size) p h = do b ← read p; hash_bytes size (drop 1 p) (mix h b)

unfoldable pub hash : List ℕ → ℕ → Run ℕ
unfolding hash_bytes mix
hash p size = hash_bytes size p fnv_offset_basis
