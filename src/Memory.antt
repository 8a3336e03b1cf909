-- ===== src/Memory.antt =====
-- Byte buffers as src/Payload.cpp and src/Iterator.cpp read and write them: a heap block is the list
-- of its bytes, a pointer into it an offset, and an access outside the block a fault.
pub mod Laws
pub mod Ends
use open_mama_omnm.Prelude.{
  ℕ, zero, suc, ◌+◌, ◌-◌, ◌*◌, ◌/◌, ◌%◌, List, [], ◌∷◌, ◌++◌, leb, if◌then◌else◌, length, take,
  drop,
}

-- The outcome of a run: a value, an access outside a block (undefined behaviour in C++), or a loop
-- that has used up its fuel.
pub data Run {ℓ} (A : Type ℓ) : Type ℓ where
  ret : A → Run A
  fault : Run A
  stuck : Run A

infixl 5 ◌>>=◌
abbrev pub ◌>>=◌ {ℓ κ} : {A : Type ℓ} {B : Type κ} → Run A → (A → Run B) → Run B
ret a >>= f = f a
fault >>= f = fault
stuck >>= f = stuck

-- `*(uint8_t*)p` on the bytes from `p` on
abbrev pub peek8 : List ℕ → Run ℕ
peek8 [] = fault
peek8 (a ∷ xs) = ret a

-- `*(uint16_t*)p` and `*(uint32_t*)p`, little-endian
abbrev pub peek16 : List ℕ → Run ℕ
peek16 [] = fault
peek16 (a ∷ []) = fault
peek16 (a ∷ b ∷ xs) = ret (a + 256 * b)

abbrev pub peek32 : List ℕ → Run ℕ
peek32 xs = do lo ← peek16 xs; hi ← peek16 (drop 2 xs); ret (lo + 65536 * hi)

-- `strlen`
abbrev pub strlen : List ℕ → Run ℕ
strlen [] = fault
strlen (zero ∷ xs) = ret 0
strlen (suc c ∷ xs) = do n ← strlen xs; ret (suc n)

-- the characters of a C string
abbrev pub chars : List ℕ → Run (List ℕ)
chars [] = fault
chars (zero ∷ xs) = ret []
chars (suc c ∷ xs) = do s ← chars xs; ret (suc c ∷ s)

unfoldable pub read8 : List ℕ → ℕ → Run ℕ
read8 buf p = peek8 (drop p buf)

unfoldable pub read16 : List ℕ → ℕ → Run ℕ
read16 buf p = peek16 (drop p buf)

unfoldable pub read32 : List ℕ → ℕ → Run ℕ
read32 buf p = peek32 (drop p buf)

unfoldable pub strlen_at : List ℕ → ℕ → Run ℕ
strlen_at buf p = strlen (drop p buf)

unfoldable pub string_at : List ℕ → ℕ → Run (List ℕ)
string_at buf p = chars (drop p buf)

-- `n` bytes from `p` on, the source of a `memcpy`
unfoldable pub read_bytes : List ℕ → ℕ → ℕ → Run (List ℕ)
read_bytes buf p n = if leb (p + n) (length buf) then ret (take n (drop p buf)) else fault

-- `memcpy` of `bytes` to `p`
unfoldable pub write : List ℕ → ℕ → List ℕ → Run (List ℕ)
write buf p bytes =
    if leb (p + length bytes) (length buf)
    then ret (take p buf ++ (bytes ++ drop (p + length bytes) buf))
    else fault

-- The bytes of a `uint16_t` and of a `uint32_t`.
abbrev pub le16 : ℕ → List ℕ
le16 n = n % 256 ∷ n / 256 % 256 ∷ []

abbrev pub le32 : ℕ → List ℕ
le32 n = n % 256 ∷ n / 256 % 256 ∷ n / 65536 % 256 ∷ n / 16777216 % 256 ∷ []
