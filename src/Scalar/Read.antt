-- ===== src/Scalar/Read.antt =====
-- The scalar getters of src/Payload.cpp on a message that represents entries.
use open_mama_omnm.Prelude.{
  ℕ, zero, suc, ◌+◌, ◌≤◌, ◌≡◌, ◌≢◌, inl, inr, refl, ◌∙◌, List, [], ◌∷◌, ◌++◌, true, false, none,
  some, ltb, ◌==◌, length, drop, arith, Bool-cases, drop_past,
}
use open_mama_omnm.Mama.{Mama, FieldType, ok, not_found, bool, unknown}
use open_mama_omnm.Memory.{ret, read8, le16}
use open_mama_omnm.Memory.Laws.{IsText}
use open_mama_omnm.Message.{OmnmPayloadImpl}
use open_mama_omnm.Iterator.{layout, fixed}
use open_mama_omnm.Payload.{CString, validate_name_fid}
use open_mama_omnm.Payload.Find.{
  Location, locate, find_field_in_buffer-locate, Located, locate-Located,
}
use open_mama_omnm.Payload.Update.{place}
use open_mama_omnm.Scalar.{
  Conversion, cast, sizeof, is_scalar, is_cast, validate_field, get_known_value, get_value,
  get_scalar,
}
use open_mama_omnm.Wire.{
  Entry, count_prefix, encode, encode_all, IsEntry, Fits, name_at, view, Represents, Selects, Names,
}
use open_mama_omnm.Wire.Laws.{encode_append, AllEntries-mem, drop-entry}
use open_mama_omnm.Wire.Data.{read_bytes-view}
use mathlib.Core.Path.{subst}
use open_mama_omnm.Wire.Data.{read_bytes-view}

-- The width of a scalar is the size of its data in a message.
pub layout-scalar : (t : FieldType) → is_cast t ≡ true → layout t ≡ fixed (sizeof t)
unfolding layout is_scalar sizeof
layout-scalar bool h = refl
layout-scalar _ h = ground arith

text_nonempty :
    (buf : List ℕ) (p : ℕ) (t xs : List ℕ)
    → t ≢ []
    → IsText t
    → drop p buf ≡ t ++ xs
    → validate_field buf
        (record { field_type = unknown; fid = 0; name = name_at t p; size = 0; location = none })
      ≡ ret none
unfolding validate_field read8
text_nonempty buf p [] xs some_text h e = absurd (some_text refl)
text_nonempty buf p (zero ∷ t) xs some_text h e = absurd (omega arith)
text_nonempty buf p (suc c ∷ t) xs some_text h e = rw e (ground arith)

-- An entry that somebody can ask for has a fid or a name.
pub validate_field-selected :
    (mama : Mama) (buf : List ℕ) (p : ℕ) (name : CString) (fid : ℕ) (e : Entry) (xs : List ℕ)
    → IsEntry e
    → Selects name fid e
    → drop p buf ≡ encode mama e ++ xs
    → validate_field buf (view mama p e) ≡ ret none
unfolding validate_field Names
validate_field-selected mama buf p name fid e xs k (inl (nonzero, same)) at_p =
    let has_fid : (e.fid == 0) ≡ false = ground arith in rw has_fid
validate_field-selected mama buf p none fid e xs k (inr named) at_p = absurd named
validate_field-selected mama buf p (some s) fid e xs k (inr named) at_p =
    elim (Bool-cases (e.fid == 0)) [
      | inl no_fid ↦ rw no_fid (text_nonempty buf (p + 3) e.name _ named.0 k.name_text at_name)
      | inr has_fid ↦ rw has_fid
    ]
  where
    at_name :
        drop (p + 3) buf
        ≡ e.name ++ (0 ∷ (count_prefix (layout e.field_type) (length e.bytes) ++ (e.bytes ++ xs)))
    at_name =
        drop_past p (p + 3) buf (mama.code e.field_type ∷ le16 e.fid) _
          (at_p ∙ encode_append mama e xs) refl

-- A known number, in a message that represents its entry, is read and cast.
pub get_known_value-cast :
    (mama : Mama) (convert : Conversion) (msg : OmnmPayloadImpl) (t : FieldType) (name : CString)
    (fid : ℕ) (before after : List Entry) (e : Entry)
    → Represents mama msg (before ++ (e ∷ after))
    → Selects name fid e
    → is_cast e.field_type ≡ true
    → sizeof e.field_type ≤ sizeof t
    → get_known_value convert msg true t (view mama (place mama msg before) e)
      ≡ ret (ok, some (cast convert e.field_type t e.bytes))
unfolding get_known_value
get_known_value-cast mama convert msg t name fid before after e r asked numeric wide =
    rw
      (
        validate_field-selected mama msg.payload_buffer (place mama msg before) name fid e
            (encode_all mama after ++ r.slack) (AllEntries-mem before after e r.entries) asked
            (drop-entry mama msg before after e r),
        narrow,
        numeric,
        ← width,
        read_bytes-view mama msg before after e r,
      )
      refl
  where
    width : length e.bytes ≡ sizeof e.field_type
    width =
        unfold Fits in
        subst (λ l. Fits l e.bytes) (layout-scalar e.field_type numeric)
          (AllEntries-mem before after e r.entries).fits

    narrow : ltb (sizeof t) (length e.bytes) ≡ false
    narrow = ground (arith, width)

module _ (mama : Mama) (convert : Conversion) (msg : OmnmPayloadImpl) (t : FieldType)
    (name : CString) (fid : ℕ) (es : List Entry) where
  -- The steps of a getter up to the search.
  pub tested :
      (m : OmnmPayloadImpl)
      → get_scalar mama convert (some m) true t name fid ≡ get_value mama convert m true t name fid
  unfolding get_scalar
  tested m = ground arith

  -- A getter reports a missing field, and shows nothing then.
  pub get_scalar-absent :
      Represents mama msg es
      → validate_name_fid name fid ≡ none
      → locate name fid es ≡ none
      → get_scalar mama convert (some msg) true t name fid ≡ ret (not_found, none)
  unfolding get_value
  get_scalar-absent r named absent =
      tested msg
      ∙ rw (get_value, named, find_field_in_buffer-locate mama msg name fid es r, absent) refl

  module _ (l : Location) where
    pub found_value :
        Represents mama msg es
        → validate_name_fid name fid ≡ none
        → locate name fid es ≡ some l
        → get_scalar mama convert (some msg) true t name fid
          ≡ get_known_value convert msg true t (view mama (place mama msg l.before) l.entry)
    unfolding get_value
    found_value r named found =
        tested msg
        ∙ rw (get_value, named, find_field_in_buffer-locate mama msg name fid es r, found) refl

    -- Where the first entry with the valid fid or name that is asked for holds a number, the getter
    -- of a type that is as wide or wider shows that number cast to its type.
    pub get_scalar-cast :
        Represents mama msg es
        → validate_name_fid name fid ≡ none
        → locate name fid es ≡ some l
        → is_cast l.entry.field_type ≡ true
        → sizeof l.entry.field_type ≤ sizeof t
        → get_scalar mama convert (some msg) true t name fid
          ≡ ret (ok, some (cast convert l.entry.field_type t l.entry.bytes))
    get_scalar-cast r named found numeric wide =
        let at : Located name fid es (some l) =
          subst (Located name fid es) found (locate-Located name fid es) in
        found_value r named found
        ∙ get_known_value-cast mama convert msg t name fid l.before l.after l.entry
            (subst (Represents mama msg) at.0 r) at.1 numeric wide
