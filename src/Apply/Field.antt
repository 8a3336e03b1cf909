-- ===== src/Apply/Field.antt =====
-- What the cases of `omnmmsgPayload_apply` in src/Payload.cpp call `updateField` with.
use open_mama_omnm.Prelude.{
  ℕ, zero, suc, ◌+◌, ◌≡◌, refl, ap, ◌∙◌, List, [], ◌∷◌, ◌++◌, append_assoc, true, false, none, some,
  ◌==◌, length, length-append, drop, drop_past, arith,
}
use mathlib.Core.Path.{subst}
use open_mama_omnm.Mama.{Mama, FieldType, ok, string, opaque}
use open_mama_omnm.Memory.{ret, string_at, chars, read8, le16}
use open_mama_omnm.Memory.Laws.{IsText, chars-append}
use open_mama_omnm.FieldType.Laws.{same_type_refl}
use open_mama_omnm.Message.{OmnmFieldImpl, OmnmPayloadImpl}
use open_mama_omnm.Iterator.{layout}
use open_mama_omnm.Payload.{CString, validate_name_fid, update_field}
use open_mama_omnm.Payload.Source.{update_field-front}
use open_mama_omnm.Payload.Update.{place}
use open_mama_omnm.Scalar.{Conversion, sizeof, is_scalar, get_field_scalar, update_scalar}
use open_mama_omnm.Scalar.Read.{layout-scalar, get_known_value-cast, validate_field-selected}
use open_mama_omnm.Scalar.RoundTrip.{is_scalar→is_cast, cast_same}
use open_mama_omnm.Blob.{
  terminated, get_field_buffer, refuses, get_known_buffer, update_string, update_opaque,
}
use open_mama_omnm.Field.{get_name, own_name}
use open_mama_omnm.Apply.{text_behind, apply_scalar, apply_string, apply_opaque}
use open_mama_omnm.Wire.{Entry, IsEntry, Fits, Represents, Selects, view, name_at, encode_all}
use open_mama_omnm.Wire.Laws.{AllEntries-mem, drop-entry, encode_append}
use open_mama_omnm.Wire.Data.{data_place, drop-data}

-- The variable `name` after a field was seen: its own name, if it has one.
abbrev pub named_or : CString → List ℕ → CString
named_or last [] = last
named_or last (c ∷ s) = some (c ∷ s)

name_at-own_name :
    (buf : List ℕ) (q : ℕ) (last : CString) (t xs : List ℕ)
    → IsText t
    → drop q buf ≡ t ++ (0 ∷ xs)
    → own_name buf (name_at t q) last ≡ ret (named_or last t)
unfolding own_name string_at read8
name_at-own_name buf q last [] xs h at = refl
name_at-own_name buf q last (zero ∷ t) xs h at = absurd (omega arith)
name_at-own_name buf q last (suc c ∷ t) xs h at =
    let nonzero : (suc c == 0) ≡ false = ground arith in
    rw (at, nonzero, chars-append t xs h.1) refl

module _ (mama : Mama) (src : OmnmPayloadImpl) (before after : List Entry) (e : Entry)
    (r : Represents mama src (before ++ (e ∷ after))) where
  abbrev pub shown : OmnmFieldImpl
  shown = view mama (place mama src before) e

  member : IsEntry e
  member = AllEntries-mem before after e r.entries

  pub get_name-named_or :
      (last : CString)
      → get_name src (some shown) none (some last) ≡ ret (ok, some (named_or last e.name))
  unfolding get_name
  get_name-named_or last =
      rw
        (name_at-own_name src.payload_buffer (place mama src before + 3) last e.name _
          member.name_text
          (drop_past (place mama src before) _ src.payload_buffer
            (mama.code e.field_type ∷ le16 e.fid) _
            (drop-entry mama src before after e r ∙ encode_append mama e _) refl))
        refl

  pub buffer_shown :
      (name : CString) (t : FieldType)
      → Selects name e.fid e
      → e.field_type ≡ t
      → get_field_buffer t src (some shown) true
        ≡ ret (ok, some (some (data_place mama src before e)))
  unfolding get_field_buffer refuses get_known_buffer
  buffer_shown name t asked typed =
      subst (λ k. get_field_buffer k src (some shown) true ≡ ret (ok, some shown.location)) typed
        (rw
          (
            get_field_buffer,
            same_type_refl e.field_type,
            validate_field-selected mama src.payload_buffer (place mama src before) name e.fid e _
                member asked (drop-entry mama src before after e r),
          )
          refl)

  module _ (dest dest' : OmnmPayloadImpl) (name : CString) (asked : Selects name e.fid e)
      (same : update_field mama dest e.field_type name e.fid (some e.bytes) (length e.bytes)
        ≡ ret (ok, dest')) where
    -- A number is put as it is.
    pub apply_scalar-update_field :
        (convert : Conversion)
        → is_scalar e.field_type ≡ true
        → apply_scalar mama src (some dest) name shown convert e.field_type ≡ ret (some dest')
    unfolding apply_scalar get_field_scalar update_scalar
    apply_scalar-update_field convert scalar =
        let width : length e.bytes ≡ sizeof e.field_type =
          unfold Fits in
          subst (λ l. Fits l e.bytes)
            (layout-scalar e.field_type (is_scalar→is_cast e.field_type scalar)) member.fits in
        rw
          (
            same_type_refl e.field_type,
            get_known_value-cast mama convert src e.field_type name e.fid before after e r asked
                (is_scalar→is_cast e.field_type scalar) (omega arith),
            cast_same convert e.field_type e.bytes,
            ← width,
            same,
          )
          refl

    -- Opaque data, the same.
    pub apply_opaque-update_field :
        e.field_type ≡ opaque
        → validate_name_fid name e.fid ≡ none
        → apply_opaque mama src (some dest) name shown ≡ ret (some dest')
    unfolding apply_opaque update_opaque
    apply_opaque-update_field typed valid =
        rw
          (
            buffer_shown name opaque asked typed,
            drop-data mama src before after e r,
            ← typed,
            update_field-front e.bytes (encode_all mama after ++ r.slack) mama dest e.field_type
                name e.fid,
            same,
          )
          refl

    -- A string, the same.
    pub apply_string-update_field :
        e.field_type ≡ string → apply_string mama src (some dest) name shown ≡ ret (some dest')
    unfolding apply_string update_string text_behind
    apply_string-update_field typed =
        let (s, clean, split) : (s : List ℕ) × IsText s × (e.bytes ≡ s ++ (0 ∷ [])) =
          unfold Fits in unfold layout in subst (λ t. Fits (layout t) e.bytes) typed member.fits in
        let place = data_place mama src before e in
        let read : string_at src.payload_buffer place ≡ ret s =
          unfold string_at in
          ap chars (
            drop-data mama src before after e r
            ∙ ap (λ b. b ++ (encode_all mama after ++ r.slack)) split
            ∙ append_assoc s (0 ∷ []) (encode_all mama after ++ r.slack))
          ∙ chars-append s _ clean in
        let put : update_field mama dest string name e.fid (some (terminated s))
              (length (terminated s))
            ≡ ret (ok, dest') =
          subst
            (λ b. update_field mama dest string name e.fid (some b) (length b) ≡ ret (ok, dest'))
            split
            (subst
              (λ t.
                update_field mama dest t name e.fid (some e.bytes) (length e.bytes)
                ≡ ret (ok, dest'))
              typed same) in
        rw
          (
            apply_string,
            buffer_shown name string asked typed,
            read,
            ← length-append s (0 ∷ []),
            put,
          )
          refl
