-- ===== src/Protocol/Bytes.antt =====
-- src/protocol/protocol.c: the `memcpy` and `ntohs`, `htons`, `ntohl`, `htonl` pairs that every
-- field goes through, on a host that stores the low byte first.
use adrift.Base.{
  Ends, >>=-Ends, inl, inr, ℕ, zero, suc, ◌+◌, ◌*◌, ◌/◌, ◌%◌, ◌^◌, ◌<◌, ◌≡◌, refl, List, [], ◌∷◌,
  ◌++◌, Run, ok, fault, read_overrun, ◌>>=◌, arith, length,
}

-- `ntohs` and `htons`: the two bytes change places.
abbrev pub swap16 : ℕ → ℕ
swap16 x = x % 256 * 256 + x / 256 % 256

-- `ntohl` and `htonl`
abbrev pub swap32 : ℕ → ℕ
swap32 x = swap16 (x % 2 ^ 16) * 2 ^ 16 + swap16 (x / 2 ^ 16)

-- A value and the pointer behind it.
abbrev pub load8 : List ℕ → Run (ℕ × List ℕ)
load8 [] = fault read_overrun
load8 (a ∷ p) = ok (a, p)

-- `memcpy(&x, *buf, 2); x = ntohs(x); *buf += 2;`
unfoldable pub load16 : List ℕ → Run (ℕ × List ℕ)
load16 p = do (a, p₁) ← load8 p; (b, p₂) ← load8 p₁; ok (swap16 (a + 256 * b), p₂)

-- `memcpy(&x, *buf, 4); x = ntohl(x); *buf += 4;`
unfoldable pub load32 : List ℕ → Run (ℕ × List ℕ)
load32 p = do
  (a, p₁) ← load8 p
  (b, p₂) ← load8 p₁
  (c, p₃) ← load8 p₂
  (d, p₄) ← load8 p₃
  ok (swap32 (a + 256 * b + 2 ^ 16 * c + 2 ^ 24 * d), p₄)

-- The bytes that a `memcpy` of a value of two or four bytes writes.
abbrev pub bytes16 : ℕ → List ℕ
bytes16 x = x % 256 ∷ x / 256 % 256 ∷ []

abbrev pub bytes32 : ℕ → List ℕ
bytes32 x = x % 256 ∷ x / 256 % 256 ∷ x / 2 ^ 16 % 256 ∷ x / 2 ^ 24 % 256 ∷ []

-- `x = htons(x); memcpy(*buf, &x, 2);`
unfoldable pub store16 : ℕ → List ℕ
store16 x = bytes16 (swap16 x)

unfoldable pub store32 : ℕ → List ℕ
store32 x = bytes32 (swap32 x)

-- `memcpy(dst, p, n)`: the bytes copied, and the pointer behind them.
unfoldable pub load_bytes : ℕ → List ℕ → Run (List ℕ × List ℕ)
load_bytes zero p = ok ([], p)
load_bytes (suc n) [] = fault read_overrun
load_bytes (suc n) (b ∷ p) = do (bs, p') ← load_bytes n p; ok (b ∷ bs, p')

pub load16-store16 : (x : ℕ) (p : List ℕ) → x < 2 ^ 16 → load16 (store16 x ++ p) ≡ ok (x, p)
unfolding load16 store16
load16-store16 x p h = ground arith

pub load32-store32 : (x : ℕ) (p : List ℕ) → x < 2 ^ 32 → load32 (store32 x ++ p) ≡ ok (x, p)
unfolding load32 store32
load32-store32 x p h = ground arith

pub load_bytes-append : (bs p : List ℕ) → load_bytes (length bs) (bs ++ p) ≡ ok (bs, p)
unfolding load_bytes
load_bytes-append [] p = refl
load_bytes-append (b ∷ bs) p = rw (load_bytes-append bs p)

pub load8-Ends : (p : List ℕ) → Ends (load8 p)
load8-Ends [] = inr refl
load8-Ends (b ∷ p) = inl ((b, p), refl)

pub load16-Ends : (p : List ℕ) → Ends (load16 p)
unfolding load16
load16-Ends [] = inr refl
load16-Ends (a ∷ []) = inr refl
load16-Ends (a ∷ b ∷ p) = inl (_, refl)

pub load32-Ends : (p : List ℕ) → Ends (load32 p)
unfolding load32
load32-Ends [] = inr refl
load32-Ends (a ∷ []) = inr refl
load32-Ends (a ∷ b ∷ []) = inr refl
load32-Ends (a ∷ b ∷ c ∷ []) = inr refl
load32-Ends (a ∷ b ∷ c ∷ d ∷ p) = inl (_, refl)

pub load_bytes-Ends : (n : ℕ) (p : List ℕ) → Ends (load_bytes n p)
unfolding load_bytes
load_bytes-Ends zero p = inl (([], p), refl)
load_bytes-Ends (suc n) [] = inr refl
load_bytes-Ends (suc n) (b ∷ p) =
    >>=-Ends (load_bytes n p) _ (load_bytes-Ends n p) (λ r. inl (_, refl))
