-- ===== src/Memory/Laws.antt =====
-- Reads and writes of a block whose contents are known, for the buffers of src/Payload.cpp.
use open_mama_omnm.Prelude.{
  ℕ, zero, suc, ◌+◌, ◌≤◌, ◌<◌, ◌≡◌, refl, ap, ◌∙◌, List, [], ◌∷◌, ◌++◌, append_assoc, arith, le→leb,
  lt→leb, length, take, drop, length-append, drop-append, take-append, drop-drop, length-drop, ◌%◌,
}
use open_mama_omnm.Memory.{
  ret, fault, peek8, peek16, peek32, read8, read16, read32, strlen, chars, write, le16, le32,
  read_bytes,
}

pub peek16-le16 : (n : ℕ) (xs : List ℕ) → n < 65536 → peek16 (le16 n ++ xs) ≡ ret n
peek16-le16 n xs h = ap ret (omega arith)

pub peek32-le32 : (n : ℕ) (xs : List ℕ) → n < 4294967296 → peek32 (le32 n ++ xs) ≡ ret n
peek32-le32 n xs h = ap ret (omega arith)

-- No character of a C string is the terminator.
abbrev pub IsText : List ℕ → Type 0
IsText [] = Unit {0}
IsText (c ∷ s) = (0 < c) × IsText s

pub strlen-append : (s xs : List ℕ) → IsText s → strlen (s ++ (0 ∷ xs)) ≡ ret (length s)
strlen-append [] xs h = refl
strlen-append (zero ∷ s) xs h = absurd (omega arith)
strlen-append (suc c ∷ s) xs h = rw (strlen-append s xs h.1)

pub chars-append : (s xs : List ℕ) → IsText s → chars (s ++ (0 ∷ xs)) ≡ ret s
chars-append [] xs h = refl
chars-append (zero ∷ s) xs h = absurd (omega arith)
chars-append (suc c ∷ s) xs h = rw (chars-append s xs h.1)

take_all : (xs : List ℕ) → take (length xs) xs ≡ xs
take_all [] = refl
take_all (x ∷ xs) = ap (λ t. x ∷ t) (take_all xs)

-- A write over `old` between `pre` and `post`.
pub write-append :
    (pre old post bytes : List ℕ) (p : ℕ)
    → p ≡ length pre
    → length bytes ≡ length old
    → write (pre ++ (old ++ post)) p bytes ≡ ret (pre ++ (bytes ++ post))
unfolding write
write-append pre old post bytes p hp hl = rw (
  le→leb (p + length bytes) (length (pre ++ (old ++ post)))
      (omega (arith, length-append pre (old ++ post), length-append old post)),
  take-append pre (old ++ post) p hp,
  ← drop-drop p (length bytes) (p + length bytes) (pre ++ (old ++ post)) refl,
  drop-append pre (old ++ post) p hp,
  drop-append old post (length bytes) hl,
)

pub read_bytes-append :
    (pre xs post : List ℕ) (p n : ℕ)
    → p ≡ length pre
    → n ≡ length xs
    → read_bytes (pre ++ (xs ++ post)) p n ≡ ret xs
unfolding read_bytes
read_bytes-append pre xs post p n hp hn = rw (
  le→leb (p + n) (length (pre ++ (xs ++ post)))
      (omega (arith, length-append pre (xs ++ post), length-append xs post)),
  drop-append pre (xs ++ post) p hp,
  take-append xs post n hn,
)

-- A write that fits, in terms of what it leaves.
pub write_fits :
    (buf bytes : List ℕ) (p : ℕ)
    → p + length bytes ≤ length buf
    → write buf p bytes ≡ ret (take p buf ++ (bytes ++ drop (p + length bytes) buf))
unfolding write
write_fits buf bytes p h = rw (le→leb (p + length bytes) (length buf) h)

-- A write past the end of the block is a fault.
pub write-fault :
    (buf bytes : List ℕ) (p : ℕ) → length buf < p + length bytes → write buf p bytes ≡ fault
unfolding write
write-fault buf bytes p h = rw (lt→leb (p + length bytes) (length buf) h)

-- A write where the known part `pre` ends extends that part.
pub write_extends :
    (pre rest xs : List ℕ) (p : ℕ)
    → p ≡ length pre
    → length xs ≤ length rest
    → write (pre ++ rest) p xs ≡ ret ((pre ++ xs) ++ drop (length xs) rest)
unfolding write
write_extends pre rest xs p hp hl = rw (
  le→leb (p + length xs) (length (pre ++ rest)) (omega (arith, length-append pre rest)),
  take-append pre rest p hp,
  ← drop-drop p (length xs) (p + length xs) (pre ++ rest) refl,
  drop-append pre rest p hp,
  append_assoc,
)

-- A block read from its start.
pub read_bytes_all : (xs : List ℕ) → read_bytes xs 0 (length xs) ≡ ret xs
unfolding read_bytes
read_bytes_all xs = rw (le→leb (0 + length xs) (length xs) (omega arith), take_all xs)

-- Reads at a place where something known stands.
pub read16-le16 :
    (buf : List ℕ) (p n : ℕ) (xs : List ℕ)
    → n < 65536
    → drop p buf ≡ le16 n ++ xs
    → read16 buf p ≡ ret n
unfolding read16
read16-le16 buf p n xs h e = ap peek16 e ∙ peek16-le16 n xs h

pub read32-le32 :
    (buf : List ℕ) (p n : ℕ) (xs : List ℕ)
    → n < 4294967296
    → drop p buf ≡ le32 n ++ xs
    → read32 buf p ≡ ret n
unfolding read32
read32-le32 buf p n xs h e = ap peek32 e ∙ peek32-le32 n xs h

pub read8_head : (buf : List ℕ) (p n : ℕ) (xs : List ℕ) → drop p buf ≡ n ∷ xs → read8 buf p ≡ ret n
unfolding read8
read8_head buf p n xs e = ap peek8 e

pub read32-le32_mod :
    (buf : List ℕ) (p n : ℕ) (xs : List ℕ)
    → drop p buf ≡ le32 n ++ xs
    → read32 buf p ≡ ret (n % 4294967296)
unfolding read32
read32-le32_mod buf p n xs e = ap peek32 e ∙ ap ret (omega arith)

pub read_bytes_at :
    (buf : List ℕ) (p n : ℕ) (ys zs : List ℕ)
    → drop p buf ≡ ys ++ zs
    → n ≡ length ys
    → 0 < n
    → read_bytes buf p n ≡ ret ys
unfolding read_bytes
read_bytes_at buf p n ys zs e h some_bytes = rw (
  le→leb (p + n) (length buf) (omega (arith, length-drop p buf, ap length e, length-append ys zs)),
  e,
  take-append ys zs n h,
)
