-- ===== src/Apply/Round.antt =====
-- A round of the loop of `omnmmsgPayload_apply` in src/Payload.cpp.
use open_mama_omnm.Prelude.{◌^◌, ◌<◌, ◌≡◌, refl, ◌∙◌, List, ◌∷◌, ◌++◌, none, some, length, arith}
use open_mama_omnm.Mama.{Mama, ok}
use open_mama_omnm.Memory.{ret}
use open_mama_omnm.Memory.Laws.{IsText}
use open_mama_omnm.Message.{OmnmPayloadImpl}
use open_mama_omnm.Iterator.{going}
use open_mama_omnm.Payload.{CString, validate_name_fid, update_field}
use open_mama_omnm.Payload.Put.{text_of}
use open_mama_omnm.Payload.Upserted.{IsRequest, Enough, KeepsEntryType, upsert, update_field-upsert}
use open_mama_omnm.Bridge.{Handle}
use open_mama_omnm.Scalar.{Conversion, is_scalar}
use open_mama_omnm.Vector.RoundTrip.{is_scalar_vector}
use open_mama_omnm.Objects.{Objects, IsFaithful}
use open_mama_omnm.Apply.{apply_typed, apply_field}
use open_mama_omnm.Apply.Field.{
  named_or, get_name-named_or, shown, apply_scalar-update_field, apply_opaque-update_field,
  apply_string-update_field,
}
use open_mama_omnm.Apply.Collected.{apply_vector_string-update_field}
use open_mama_omnm.Apply.Nested.{apply_msg-update_field}
use open_mama_omnm.Apply.Values.{apply_date_time-update_field, apply_price-update_field}
use open_mama_omnm.Strings.Read.{joined}
use open_mama_omnm.Apply.Plain.{
  IsPlain, copies_number, copies_numbers, copies_string, copies_opaque, copies_strings,
  copies_message, copies_date_time, copies_price, named_or-Selects, named_or_valid, named_or-IsText,
  not_scalar,
}
use open_mama_omnm.Apply.Vectors.{apply_scalar_vector-update_field}
use open_mama_omnm.Wire.{Entry, Represents, Selects}
use open_mama_omnm.Wire.Laws.{AllEntries-mem, scratch-Represents}

module _ (mama : Mama) (convert : Conversion) (o : Objects) (src : OmnmPayloadImpl)
    (before after : List Entry) (e : Entry) (r : Represents mama src (before ++ (e ∷ after)))
    (plain : IsPlain o e) where
  request :
      (last : CString)
      → IsText (text_of last)
      → IsRequest e.field_type (named_or last e.name) e.fid e.bytes
  request last text =
      let k = AllEntries-mem before after e r.entries in
      record {
        entry = record {
          delimited = k.delimited;
          fid_word = k.fid_word;
          name_text = named_or-IsText last e.name text k.name_text;
          fits = k.fits;
        };
        valid = named_or_valid last e.name e.fid plain.asked;
        some_data = plain.some_data;
        short = plain.short;
      }

  -- Whatever is put into `dest`, the body of the loop puts it as `updateField` does into a message of
  -- the same entries and the same header.
  abbrev Puts : OmnmPayloadImpl → CString → Handle → List Entry → Type 0
  Puts dest name sub ds =
      (m : OmnmPayloadImpl) × (sub' : Handle) × Represents mama m ds
      × (m.header ≡ dest.header)
      × (m.payload_buffer_tail ≡ dest.payload_buffer_tail)
      × ((dest' : OmnmPayloadImpl)
          → update_field mama m e.field_type name e.fid (some e.bytes) (length e.bytes)
            ≡ ret (ok, dest')
          → apply_typed mama convert o src (record { dest = some dest; name = name; sub = sub })
              (shown mama src before after e r)
            ≡ ret (record { dest = some dest'; name = name; sub = sub' }))

  apply_typed-Puts :
      (enough : Enough mama) (laws : IsFaithful o) (dest : OmnmPayloadImpl) (name : CString)
      (sub : Handle) (ds : List Entry)
      → Represents mama dest ds
      → Selects name e.fid e
      → validate_name_fid name e.fid ≡ none
      → KeepsEntryType e.field_type name e.fid ds
      → Puts dest name sub ds
  unfolding apply_typed is_scalar is_scalar_vector
  apply_typed-Puts enough laws dest name sub ds d asked valid keeps = elim plain.copied [
    | copies_number scalar ↦ (
      dest,
      sub,
      d,
      refl,
      refl,
      λ dest' same.
          rw
            (
              scalar,
              apply_scalar-update_field mama src before after e r dest dest' name asked same convert
                  scalar,
            )
            refl,
    )
    | copies_numbers vector n width ↦ (
      dest,
      sub,
      d,
      refl,
      refl,
      λ dest' same.
          rw
            (
              not_scalar e.field_type vector,
              vector,
              apply_scalar_vector-update_field mama src before after e dest dest' name ds n r d
                  valid keeps width plain.short same,
            )
            refl,
    )
    | copies_string typed ↦ (
      dest,
      sub,
      d,
      refl,
      refl,
      λ dest' same.
          rw
            (
              typed,
              apply_string-update_field mama src before after e r dest dest' name asked same typed,
            )
            refl,
    )
    | copies_opaque typed ↦ (
      dest,
      sub,
      d,
      refl,
      refl,
      λ dest' same.
          rw
            (
              typed,
              apply_opaque-update_field mama src before after e r dest dest' name asked same typed
                  valid,
            )
            refl,
    )
    | copies_strings typed ss text strings ↦
        let (extra, put) =
          apply_vector_string-update_field mama enough src before after e r dest name ss valid typed
            text strings in
        (
          record dest { scratch = joined ss ++ extra },
          sub,
          scratch-Represents mama dest ds (joined ss ++ extra) d,
          refl,
          refl,
          λ dest' same. rw (typed, put dest' same) refl,
        )
    | copies_message typed message ↦
        let (sub', put) =
          apply_msg-update_field mama enough src before after e r message typed dest name sub in
        (dest, some sub', d, refl, refl, λ dest' same. rw (typed, put dest' same) refl)
    | copies_date_time typed v struct ↦ (
      dest,
      sub,
      d,
      refl,
      refl,
      λ dest' same.
          rw
            (
              typed,
              apply_date_time-update_field mama o laws src before after e r dest dest' name same v
                  typed struct,
            )
            refl,
    )
    | copies_price typed v struct ↦ (
      dest,
      sub,
      d,
      refl,
      refl,
      λ dest' same.
          rw
            (
              typed,
              apply_price-update_field mama o laws src before after e r dest dest' name same convert
                  v typed struct,
            )
            refl,
    )
  ]

  -- A round of the loop puts the field into the target, under the last name that was seen.
  pub apply_field-upsert :
      (enough : Enough mama) (laws : IsFaithful o) (dest : OmnmPayloadImpl) (last : CString)
      (sub : Handle) (ds : List Entry)
      → Represents mama dest ds
      → IsText (text_of last)
      → KeepsEntryType e.field_type (named_or last e.name) e.fid ds
      → dest.payload_buffer_tail < 2 ^ 31
      → (dest' : OmnmPayloadImpl) × (sub' : Handle) × (apply_field mama convert o src
            (record { dest = some dest; name = last; sub = sub })
            (shown mama src before after e r)
          ≡ ret (going (record { dest = some dest'; name = named_or last e.name; sub = sub' })))
        × (dest'.header ≡ dest.header)
        × Represents mama dest' (upsert e.field_type (named_or last e.name) e.fid e.bytes ds)
  unfolding apply_field
  apply_field-upsert enough laws dest last sub ds d text keeps small =
      let name = named_or last e.name in
      let q = request last text in
      let (m, sub', k, same_header, same_tail, puts) =
        apply_typed-Puts enough laws dest name sub ds d (named_or-Selects last e plain.asked)
          q.valid keeps in
      let (dest', same, kept, d', _) =
        update_field-upsert mama enough m e.field_type name e.fid e.bytes ds k q keeps
          (omega (arith, same_tail, small)) in
      (
        dest',
        sub',
        rw (get_name-named_or mama src before after e r last, puts dest' same) refl,
        kept ∙ same_header,
        d',
      )
