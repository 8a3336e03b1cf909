-- ===== src/Memory/Ends.antt =====
-- Runs over the buffers of src/Payload.cpp that come to an end: with a value of which something holds,
-- or with a fault.
use open_mama_omnm.Prelude.{
  ℕ, zero, suc, ◌+◌, Bool, true, false, Option, none, some, if◌then◌else◌, List, [], ◌∷◌, leb,
  length, drop,
}
use open_mama_omnm.Memory.{
  Run, ret, fault, stuck, ◌>>=◌, peek8, peek16, strlen, chars, read8, read16, read32, strlen_at,
  string_at, read_bytes, write,
}

abbrev pub Ends {ℓ} : {A : Type ℓ} → (A → Type 0) → Run A → Type 0
Ends P (ret a) = P a
Ends P fault = Unit {0}
Ends P stuck = ⊥

abbrev pub Any {ℓ} : {A : Type ℓ} → A → Type 0
Any a = Unit {0}

pub Ends-bind {ℓ κ} :
    {A : Type ℓ} {B : Type κ} (P : A → Type 0) (Q : B → Type 0) (m : Run A) (f : A → Run B)
    → Ends P m
    → ((a : A) → P a → Ends Q (f a))
    → Ends Q (m >>= f)
Ends-bind P Q (ret a) f h k = k a h
Ends-bind P Q fault f h k = tt
Ends-bind P Q stuck f h k = absurd h

pub Ends-weaken {ℓ} :
    {A : Type ℓ} (P Q : A → Type 0) (m : Run A) → ((a : A) → P a → Q a) → Ends P m → Ends Q m
Ends-weaken P Q (ret a) k h = k a h
Ends-weaken P Q fault k h = tt
Ends-weaken P Q stuck k h = absurd h

-- The branches of a conditional, and of a test for NULL
pub Ends-if {ℓ} :
    {A : Type ℓ} (P : A → Type 0) (b : Bool) (r s : Run A)
    → Ends P r
    → Ends P s
    → Ends P (if b then r else s)
Ends-if P true r s h k = h
Ends-if P false r s h k = k

pub Ends-option {ℓ κ} :
    {A : Type ℓ} {B : Type κ} (P : B → Type 0) (o : Option A) (r : Run B) (f : A → Run B)
    → Ends P r
    → ((a : A) → Ends P (f a))
    → Ends P (elim o [ none ↦ r | some a ↦ f a ])
Ends-option P none r f h k = h
Ends-option P (some a) r f h k = k a

peek16-Ends : (xs : List ℕ) → Ends Any (peek16 xs)
peek16-Ends [] = tt
peek16-Ends (a ∷ []) = tt
peek16-Ends (a ∷ b ∷ xs) = tt

pub read8-Ends : (buf : List ℕ) (p : ℕ) → Ends Any (read8 buf p)
unfolding read8
read8-Ends buf p = go (drop p buf)
  where
    go : (xs : List ℕ) → Ends Any (peek8 xs)
    go [] = tt
    go (a ∷ xs) = tt

pub read16-Ends : (buf : List ℕ) (p : ℕ) → Ends Any (read16 buf p)
unfolding read16
read16-Ends buf p = peek16-Ends (drop p buf)

pub read32-Ends : (buf : List ℕ) (p : ℕ) → Ends Any (read32 buf p)
unfolding read32
read32-Ends buf p =
    Ends-bind Any Any _ _ (peek16-Ends (drop p buf))
      λ lo _. Ends-bind Any Any _ _ (peek16-Ends (drop 2 (drop p buf))) λ hi _. tt

strlen-Ends : (xs : List ℕ) → Ends Any (strlen xs)
strlen-Ends [] = tt
strlen-Ends (zero ∷ xs) = tt
strlen-Ends (suc c ∷ xs) = Ends-bind Any Any (strlen xs) _ (strlen-Ends xs) λ n _. tt

pub strlen_at-Ends : (buf : List ℕ) (p : ℕ) → Ends Any (strlen_at buf p)
unfolding strlen_at
strlen_at-Ends buf p = strlen-Ends (drop p buf)

chars-Ends : (xs : List ℕ) → Ends Any (chars xs)
chars-Ends [] = tt
chars-Ends (zero ∷ xs) = tt
chars-Ends (suc c ∷ xs) = Ends-bind Any Any (chars xs) _ (chars-Ends xs) λ s _. tt

pub string_at-Ends : (buf : List ℕ) (p : ℕ) → Ends Any (string_at buf p)
unfolding string_at
string_at-Ends buf p = chars-Ends (drop p buf)

pub read_bytes-Ends : (buf : List ℕ) (p n : ℕ) → Ends Any (read_bytes buf p n)
unfolding read_bytes
read_bytes-Ends buf p n = Ends-if Any (leb (p + n) (length buf)) _ _ tt tt

pub write-Ends : (buf : List ℕ) (p : ℕ) (bytes : List ℕ) → Ends Any (write buf p bytes)
unfolding write
write-Ends buf p bytes = Ends-if Any (leb (p + length bytes) (length buf)) _ _ tt tt
