-- ===== src/Scalar/Update.antt =====
-- A number of a message of src/Payload.cpp that is updated, and got again; the getters of src/Field.cpp
-- on a field that was found.
use open_mama_omnm.Prelude.{
  ℕ, ◌-◌, ◌^◌, ◌≤◌, ◌<◌, ◌≡◌, ◌≢◌, inl, refl, sym, ap, ◌∙◌, List, [], ◌∷◌, ◌++◌, true, false, not,
  ◌&&◌, none, some, ltb, length, replicate, arith,
}
use mathlib.Core.Path.{subst}
use open_mama_omnm.Mama.{Mama, FieldType, ok, wrong_field_type}
use open_mama_omnm.Memory.{ret}
use open_mama_omnm.FieldType.{are_field_types_castable, is_field_type_fixed_width, same_type}
use open_mama_omnm.FieldType.Laws.{same_type_ne}
use open_mama_omnm.Message.{OmnmPayloadImpl}
use open_mama_omnm.Iterator.{layout, fixed}
use open_mama_omnm.Payload.{CString, validate_name_fid, update_field}
use open_mama_omnm.Payload.Find.{Location, locate, Located, locate-Located}
use open_mama_omnm.Payload.Added.{locate-append}
use open_mama_omnm.Payload.Around.{changed}
use open_mama_omnm.Payload.Update.{place}
use open_mama_omnm.Payload.Upsert.{update_field-replace}
use open_mama_omnm.Scalar.{
  Conversion, sizeof, is_scalar, is_cast, on_handle, get_known_value, get_scalar, update_scalar,
  get_field_scalar,
}
use open_mama_omnm.Scalar.Read.{
  layout-scalar, get_scalar-cast, found_value, validate_field-selected,
}
use open_mama_omnm.Scalar.RoundTrip.{is_scalar→is_cast, sizeof_bounds, cast_same}
use open_mama_omnm.Wire.{Entry, IsEntry, AllEntries, Fits, Represents, view, encode_all}
use open_mama_omnm.Wire.Laws.{AllEntries-mem, drop-entry}
use open_mama_omnm.Wire.Data.{read_bytes-view}

module _ (mama : Mama) (convert : Conversion) (msg : OmnmPayloadImpl) (t : FieldType)
    (name : CString) (fid : ℕ) (value : List ℕ) (es : List Entry) (l : Location) where
  -- Where the first entry with the fid or the name is of a scalar type, a number of that type that
  -- updates it is what the getter of the type then shows for that name and fid, and every other
  -- entry stays, provided that the message is smaller than 2 GiB.
  pub get_scalar-update_scalar :
      Represents mama msg es
      → is_scalar t ≡ true
      → length value ≡ sizeof t
      → validate_name_fid name fid ≡ none
      → locate name fid es ≡ some l
      → l.entry.field_type ≡ t
      → msg.payload_buffer_tail < 2 ^ 31
      → (msg' : OmnmPayloadImpl) × (update_scalar mama (some msg) t name fid value
          ≡ ret (ok, some msg'))
        × (get_scalar mama convert (some msg') true t name fid ≡ ret (ok, some value))
        × Represents mama msg' (l.before ++ (changed l.entry value ∷ l.after))
  unfolding update_scalar
  get_scalar-update_scalar r scalar size valid found stored small =
      let (msg', same, r', _) =
        update_field-replace mama msg t name fid value es l [] r valid found (inl stored) fitting
          (omega (arith, size, sizeof_bounds t)) small
          (λ longer. absurd (omega (arith, longer, old_size, size))) in
      (
        msg',
        ap (λ n. on_handle (update_field mama msg t name fid (some value) n)) (sym size)
            ∙ ap on_handle same,
        get_scalar-cast mama convert msg' t name fid _ _ r' valid
              (locate-append name fid l.before (changed l.entry value) l.after at.2 at.1)
              (ap is_cast stored ∙ is_scalar→is_cast t scalar) (omega (arith, ap sizeof stored))
            ∙ rw (stored, cast_same convert t value) refl,
        r',
      )
    where
      at : Located name fid es (some l)
      at = subst (Located name fid es) found (locate-Located name fid es)

      old : IsEntry l.entry
      old = AllEntries-mem l.before l.after l.entry (subst AllEntries at.0 r.entries)

      known : layout l.entry.field_type ≡ fixed (sizeof t)
      known = ap layout stored ∙ layout-scalar t (is_scalar→is_cast t scalar)

      old_size : length l.entry.bytes ≡ sizeof t
      old_size = unfold Fits in subst (λ k. Fits k l.entry.bytes) known old.fits

      fitting : IsEntry (changed l.entry value)
      fitting = record {
        delimited = old.delimited;
        fid_word = old.fid_word;
        name_text = old.name_text;
        fits = subst (λ k. Fits k value) (sym known) (unfold Fits in size);
      }

not_cast : (t : FieldType) → is_field_type_fixed_width t ≡ false → is_cast t ≡ false
unfolding is_field_type_fixed_width is_scalar
not_cast _ h = ground arith

-- A scalar type is neither a type that is not of fixed width nor castable from one.
refused :
    (t stored : FieldType)
    → is_scalar t ≡ true
    → is_field_type_fixed_width stored ≡ false
    → (not (same_type t stored) && not (are_field_types_castable stored t)) ≡ true
unfolding are_field_types_castable is_field_type_fixed_width is_scalar
refused t stored scalar other =
    rw
      (same_type_ne t stored (λ same. differs t scalar (ap is_field_type_fixed_width same ∙ other)))
      (rw other refl)
  where
    differs : (t : FieldType) → is_scalar t ≡ true → is_field_type_fixed_width t ≢ false
    differs _ h e = absurd (ground arith)

module _ (mama : Mama) (convert : Conversion) (msg : OmnmPayloadImpl) (t : FieldType)
    (name : CString) (fid : ℕ) (es : List Entry) (l : Location) where
  -- Where the first entry with the valid fid or name that is asked for is not of a type of fixed
  -- width, and its data is no wider than a scalar type, the getter of the message for that type
  -- returns ok and shows the bytes of the entry with zeros behind them, without a test of the type,
  -- while the getter of the field for that type refuses the same field with the status for a wrong
  -- type.
  pub get_scalar-untested :
      Represents mama msg es
      → is_scalar t ≡ true
      → validate_name_fid name fid ≡ none
      → locate name fid es ≡ some l
      → is_field_type_fixed_width l.entry.field_type ≡ false
      → length l.entry.bytes ≤ sizeof t
      → (get_scalar mama convert (some msg) true t name fid
          ≡ ret (ok, some (l.entry.bytes ++ replicate (sizeof t - length l.entry.bytes) 0)))
        × (get_field_scalar convert msg (some (view mama (place mama msg l.before) l.entry)) true t
            ≡ ret (wrong_field_type, none))
  unfolding get_field_scalar
  get_scalar-untested r scalar valid found other narrow = (
    found_value mama convert msg t name fid es l r valid found ∙ shown,
    rw (refused t l.entry.field_type scalar other) refl,
  )
    where
      at : Located name fid es (some l)
      at = subst (Located name fid es) found (locate-Located name fid es)

      k : Represents mama msg (l.before ++ (l.entry ∷ l.after))
      k = subst (Represents mama msg) at.0 r

      small : ltb (sizeof t) (length l.entry.bytes) ≡ false
      small = ground arith

      shown :
          get_known_value convert msg true t (view mama (place mama msg l.before) l.entry)
          ≡ ret (ok, some (l.entry.bytes ++ replicate (sizeof t - length l.entry.bytes) 0))
      shown =
          unfold get_known_value in
          rw
            (
              validate_field-selected mama msg.payload_buffer (place mama msg l.before) name fid
                  l.entry (encode_all mama l.after ++ k.slack)
                  (AllEntries-mem l.before l.after l.entry k.entries) at.1
                  (drop-entry mama msg l.before l.after l.entry k),
              small,
              not_cast l.entry.field_type other,
              read_bytes-view mama msg l.before l.after l.entry k,
            )
            refl
