-- ===== src/Scalar/Extend.antt =====
-- The numbers that the getters of src/Payload.h show of stored numbers of smaller types.
use open_mama_omnm.Prelude.{
  ℕ, zero, suc, ◌+◌, ◌-◌, ◌*◌, ◌≤◌, ◌≡◌, ◌≢◌, inl, inr, refl, sym, ap, ◌∙◌, List, [], ◌∷◌, ◌++◌,
  Bool, true, false, if◌then◌else◌, ltb, length, replicate, take, arith, Bool-cases, length-append,
  length-replicate,
}
use open_mama_omnm.Mama.{FieldType, FieldType-discrete}
use open_mama_omnm.FieldType.Laws.{same_type_refl, same_type_ne}
use open_mama_omnm.FieldType.{same_type}
use open_mama_omnm.Scalar.{
  Kind, unsigned, signed, other, kind, padding, last_or, extend, Conversion, convert_kinds, cast,
  sizeof,
}

-- The number that little-endian bytes spell, and the number of values of `n` bytes.
unfoldable pub from_le : List ℕ → ℕ
from_le [] = 0
from_le (b ∷ bs) = b + 256 * from_le bs

unfoldable pub weight : ℕ → ℕ
weight zero = 1
weight (suc n) = 256 * weight n

-- The sign bit of a number of a signed type.
abbrev pub is_negative : Kind → List ℕ → Bool
is_negative signed bytes = if ltb (last_or 0 bytes) 128 then false else true
is_negative unsigned bytes = false
is_negative other bytes = false

-- In two's complement a negative number of `n` bytes is `weight n` less than what its bytes spell.
abbrev pub Same : Kind → List ℕ → List ℕ → Type 0
Same k xs ys =
    from_le xs + (if is_negative k ys then weight (length ys) else 0)
    ≡ from_le ys + (if is_negative k ys then weight (length xs) else 0)

zeros : (k : ℕ) (xs : List ℕ) → from_le (xs ++ replicate k 0) ≡ from_le xs
unfolding from_le
zeros zero [] = refl
zeros (suc k) [] = omega (arith, zeros k [])
zeros k (x ∷ xs) = omega (arith, zeros k xs)

ones :
    (k : ℕ) (xs : List ℕ)
    → from_le (xs ++ replicate k 255) + weight (length xs)
      ≡ from_le xs + weight (length (xs ++ replicate k 255))
unfolding from_le weight
ones zero [] = refl
ones (suc k) [] = omega (arith, ones k [])
ones k (x ∷ xs) = omega (arith, ones k xs)

-- A conversion to a type of `w` bytes, as wide or wider: it has that width and spells the same number.
abbrev pub Widens : Kind → ℕ → List ℕ → List ℕ → Type 0
Widens k w xs ys = (length xs ≡ w) × Same k xs ys

take_all : (w : ℕ) (xs : List ℕ) → length xs ≤ w → take w xs ≡ xs
take_all zero [] h = refl
take_all (suc w) [] h = refl
take_all zero (x ∷ xs) h = absurd (omega arith)
take_all (suc w) (x ∷ xs) h = ap (λ ys. x ∷ ys) (take_all w xs (omega arith))

fill-Same :
    (k : Kind) (n : ℕ) (bytes : List ℕ)
    → Same k (bytes ++ replicate n (padding k (last_or 0 bytes))) bytes
unfolding padding
fill-Same unsigned n bytes = omega (arith, zeros n bytes)
fill-Same other n bytes = omega (arith, zeros n bytes)
fill-Same signed n bytes = elim (Bool-cases (ltb (last_or 0 bytes) 128)) [
  | inl small ↦ rw small (omega (arith, zeros n bytes))
  | inr negative ↦ rw negative (omega (arith, ones n bytes))
]

extend-Widens :
    (k : Kind) (w : ℕ) (bytes : List ℕ) → length bytes ≤ w → Widens k w (extend k w bytes) bytes
unfolding extend
extend-Widens k w bytes wide =
    let fill = replicate (w - length bytes) (padding k (last_or 0 bytes)) in
    let filled = length-replicate (w - length bytes) (padding k (last_or 0 bytes)) in
    rw (take_all w bytes wide)
      (omega (arith, wide, filled, length-append bytes fill), fill-Same k (w - length bytes) bytes)

-- A cast of a value as wide as its integer type to an integer type as wide or wider is as wide as
-- that type, and spells the same integer; a negative number of n bytes of a signed type is spelled
-- by the bytes of that number plus 256 to the n, before and after the cast.
pub cast-Same :
    (convert : Conversion) (from to : FieldType) (bytes : List ℕ)
    → kind from ≢ other
    → kind to ≢ other
    → length bytes ≡ sizeof from
    → sizeof from ≤ sizeof to
    → Widens (kind from) (sizeof to) (cast convert from to bytes) bytes
unfolding cast
cast-Same convert from to bytes number target width wide = elim (FieldType-discrete from to) [
  | yes same ↦
      rw (ap (same_type from) (sym same) ∙ same_type_refl from) (width ∙ ap sizeof same, refl)
  | no differs ↦ rw (same_type_ne from to differs) (by_kinds (kind from) (kind to) number target)
]
  where
    room : length bytes ≤ sizeof to
    room = omega (arith, width, wide)

    by_kinds :
        (k l : Kind)
        → k ≢ other
        → l ≢ other
        → Widens k (sizeof to) (convert_kinds convert k l from to bytes) bytes
    by_kinds other l h g = absurd (h refl)
    by_kinds unsigned other h g = absurd (g refl)
    by_kinds signed other h g = absurd (g refl)
    by_kinds unsigned unsigned h g = extend-Widens unsigned (sizeof to) bytes room
    by_kinds unsigned signed h g = extend-Widens unsigned (sizeof to) bytes room
    by_kinds signed unsigned h g = extend-Widens signed (sizeof to) bytes room
    by_kinds signed signed h g = extend-Widens signed (sizeof to) bytes room
