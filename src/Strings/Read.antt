-- ===== src/Strings/Read.antt =====
-- The getter of string vectors of src/Field.cpp, on the bytes that the setters of src/Payload.cpp write.
use open_mama_omnm.Prelude.{
  ℕ, zero, suc, ◌+◌, ◌-◌, ◌≤◌, ◌≡◌, refl, sym, ap, ◌∙◌, List, [], ◌∷◌, ◌++◌, append_assoc, length,
  drop, length-append, drop_past, arith,
}
use open_mama_omnm.Memory.{Run, ret, ◌>>=◌, strlen_at, strlen, string_at, chars}
use open_mama_omnm.Memory.Laws.{IsText, strlen-append, chars-append}
use open_mama_omnm.Blob.{terminated}
use open_mama_omnm.Strings.{bytes_required, count_strings, string_places}

-- The strings one behind the other, as they stand in a field.
unfoldable pub joined : List (List ℕ) → List ℕ
joined [] = []
joined (s ∷ ss) = terminated s ++ joined ss

abbrev pub AllText : List (List ℕ) → Type 0
AllText [] = Unit {0}
AllText (s ∷ ss) = IsText s × AllText ss

-- Where the strings begin.
unfoldable pub places : ℕ → List (List ℕ) → List ℕ
places p [] = []
places p (s ∷ ss) = p ∷ places (p + length s + 1) ss

pub length-joined : (ss : List (List ℕ)) → length (joined ss) ≡ bytes_required ss
unfolding joined bytes_required
length-joined [] = refl
length-joined (s ∷ ss) =
    omega
      (arith, length-append (terminated s) (joined ss), length-append s (0 ∷ []), length-joined ss)

count_strings-text : (s xs : List ℕ) → IsText s → count_strings (s ++ xs) ≡ count_strings xs
unfolding count_strings
count_strings-text [] xs h = refl
count_strings-text (zero ∷ s) xs h = absurd (omega arith)
count_strings-text (suc c ∷ s) xs h = ground (arith, count_strings-text s xs h.1)

pub count_strings-joined : (ss : List (List ℕ)) → AllText ss → count_strings (joined ss) ≡ length ss
unfolding joined count_strings
count_strings-joined [] h = refl
count_strings-joined (s ∷ ss) h =
    rw (append_assoc s (0 ∷ []) (joined ss), count_strings-text s (0 ∷ joined ss) h.0)
      (ap suc (count_strings-joined ss h.1))

pub length-places : (p : ℕ) (ss : List (List ℕ)) → length (places p ss) ≡ length ss
unfolding places
length-places p [] = refl
length-places p (s ∷ ss) = ap suc (length-places (p + length s + 1) ss)

-- The loop finds every string.
pub string_places-joined :
    (fuel : ℕ) (buf : List ℕ) (p size : ℕ) (ss : List (List ℕ)) (xs : List ℕ)
    → AllText ss
    → drop p buf ≡ joined ss ++ xs
    → size ≡ bytes_required ss
    → size ≤ fuel
    → string_places fuel buf p size ≡ ret (places p ss)
unfolding string_places places joined bytes_required strlen_at
string_places-joined fuel buf p zero [] xs h at e room = refl
string_places-joined fuel buf p (suc size) [] xs h at e room = absurd (omega arith)
string_places-joined fuel buf p zero (s ∷ ss) xs h at e room = absurd (omega arith)
string_places-joined zero buf p (suc size) (s ∷ ss) xs h at e room = absurd (omega arith)
string_places-joined (suc fuel) buf p (suc size) (s ∷ ss) xs h at e room =
    rw
      (
        ap strlen at_string ∙ strlen-append s (joined ss ++ xs) h.0,
        string_places-joined fuel buf (p + length s + 1) (size - length s) ss xs h.1 next
            (omega arith) (omega arith),
      )
      refl
  where
    at_string : drop p buf ≡ s ++ (0 ∷ (joined ss ++ xs))
    at_string = at ∙ simp append_assoc

    next : drop (p + length s + 1) buf ≡ joined ss ++ xs
    next =
        drop_past p _ buf (terminated s) _
          (at_string ∙ sym (append_assoc s (0 ∷ []) (joined ss ++ xs)))
          (omega (arith, length-append s (0 ∷ [])))

-- The strings at some places.
unfoldable pub strings_at : List ℕ → List ℕ → Run (List (List ℕ))
strings_at buf [] = ret []
strings_at buf (p ∷ ps) = do s ← string_at buf p; ss ← strings_at buf ps; ret (s ∷ ss)

pub strings_at-places :
    (buf : List ℕ) (p : ℕ) (ss : List (List ℕ)) (xs : List ℕ)
    → AllText ss
    → drop p buf ≡ joined ss ++ xs
    → strings_at buf (places p ss) ≡ ret ss
unfolding strings_at places joined string_at
strings_at-places buf p [] xs h at = refl
strings_at-places buf p (s ∷ ss) xs h at =
    rw
      (
        ap chars at_string ∙ chars-append s (joined ss ++ xs) h.0,
        strings_at-places buf (p + length s + 1) ss xs h.1 next,
      )
      refl
  where
    at_string : drop p buf ≡ s ++ (0 ∷ (joined ss ++ xs))
    at_string = at ∙ simp append_assoc

    next : drop (p + length s + 1) buf ≡ joined ss ++ xs
    next =
        drop_past p _ buf (terminated s) _
          (at_string ∙ sym (append_assoc s (0 ∷ []) (joined ss ++ xs)))
          (omega (arith, length-append s (0 ∷ [])))
