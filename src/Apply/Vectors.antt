-- ===== src/Apply/Vectors.antt =====
-- What the case of vectors of numbers of `omnmmsgPayload_apply` in src/Payload.cpp puts into the target.
use open_mama_omnm.Prelude.{
  ℕ, ◌*◌, ◌/◌, ◌≤◌, ◌≡◌, inl, inr, refl, sym, ap, ◌∙◌, List, ◌∷◌, ◌++◌, none, some, length,
  Option-cases,
}
use mathlib.Core.Path.{subst}
use open_mama_omnm.Mama.{Mama, FieldType, ok}
use open_mama_omnm.Memory.{ret}
use open_mama_omnm.FieldType.Laws.{same_type_refl}
use open_mama_omnm.Message.{OmnmPayloadImpl, get_header_size}
use open_mama_omnm.Payload.{
  CString, validate_name_fid, get_field, update_field, add_field, update_known_field, uint32_max,
}
use open_mama_omnm.Payload.Find.{locate, located_view, find_field_in_buffer-locate}
use open_mama_omnm.Payload.Add.{validated}
use open_mama_omnm.Payload.Source.{update_field-front}
use open_mama_omnm.Payload.Update.{place}
use open_mama_omnm.Payload.Upserted.{KeepsEntryType, TypeAt}
use open_mama_omnm.Vector.{
  element_size, data_size, get_field_scalar_vector, add_scalar_vector, update_scalar_vector,
  update_found_vector,
}
use open_mama_omnm.Vector.RoundTrip.{whole, data_size_lem}
use open_mama_omnm.Apply.{apply_scalar_vector}
use open_mama_omnm.Wire.{Entry, Represents, view, encode_all}
use open_mama_omnm.Wire.Data.{drop-data}
use open_mama_omnm.Apply.Field.{shown}

-- `omnmmsgPayload_updateVectorBool` and its like put the data where `updateField` does.
update_scalar_vector-update_field :
    (mama : Mama) (dest dest' : OmnmPayloadImpl) (t : FieldType) (name : CString) (fid : ℕ)
    (block : List ℕ) (size : ℕ) (ds : List Entry)
    → Represents mama dest ds
    → validate_name_fid name fid ≡ none
    → KeepsEntryType t name fid ds
    → update_field mama dest t name fid (some block) (data_size t size) ≡ ret (ok, dest')
    → update_scalar_vector mama (some dest) t name fid (some block) size ≡ ret (ok, some dest')
unfolding update_scalar_vector update_found_vector add_scalar_vector update_field get_field
update_scalar_vector-update_field mama dest dest' t name fid block size ds r valid keeps same =
    elim (Option-cases (locate name fid ds)) [
      | inl absent ↦
          let found =
            find_field_in_buffer-locate mama dest name fid ds r
            ∙ ap (λ l. ret (located_view mama (get_header_size dest) l)) absent in
          let as_update : update_field mama dest t name fid (some block) (data_size t size)
              ≡ add_field mama dest t name fid (some block) (data_size t size) =
            rw (update_field, validated name fid valid, found) refl in
          rw
            (
              update_scalar_vector,
              validated name fid valid,
              get_field,
              valid,
              found,
              validated name fid valid,
              sym as_update ∙ same,
            )
            refl
      | inr (l, at) ↦
          let found =
            find_field_in_buffer-locate mama dest name fid ds r
            ∙ ap (λ l. ret (located_view mama (get_header_size dest) l)) at in
          let typed : l.entry.field_type ≡ t = subst (TypeAt t) at keeps in
          let f = view mama (place mama dest l.before) l.entry in
          let as_update : update_field mama dest t name fid (some block) (data_size t size)
              ≡ update_known_field mama dest t f (some block) (data_size t size) =
            rw (update_field, validated name fid valid, found, typed, same_type_refl t) refl in
          rw
            (
              update_scalar_vector,
              validated name fid valid,
              get_field,
              valid,
              found,
              sym as_update ∙ same,
            )
            refl
    ]

-- A vector of numbers is put as it is, if its size is that of whole elements.
pub apply_scalar_vector-update_field :
    (mama : Mama) (src : OmnmPayloadImpl) (before after : List Entry) (e : Entry)
    (dest dest' : OmnmPayloadImpl) (name : CString) (ds : List Entry) (n : ℕ)
    (r : Represents mama src (before ++ (e ∷ after)))
    → Represents mama dest ds
    → validate_name_fid name e.fid ≡ none
    → KeepsEntryType e.field_type name e.fid ds
    → length e.bytes ≡ n * element_size e.field_type
    → length e.bytes ≤ uint32_max
    → update_field mama dest e.field_type name e.fid (some e.bytes) (length e.bytes)
      ≡ ret (ok, dest')
    → apply_scalar_vector mama src (some dest) name (shown mama src before after e r) e.field_type
      ≡ ret (some dest')
unfolding apply_scalar_vector get_field_scalar_vector
apply_scalar_vector-update_field mama src before after e dest dest' name ds n r d valid keeps width
      short same =
    let rest = encode_all mama after ++ r.slack in
    let put : update_field mama dest e.field_type name e.fid (some (e.bytes ++ rest))
          (data_size e.field_type n)
        ≡ ret (ok, dest') =
      subst
        (λ k.
          update_field mama dest e.field_type name e.fid (some (e.bytes ++ rest)) k
          ≡ ret (ok, dest'))
        (sym (data_size_lem e.field_type n e.bytes width short))
        (update_field-front e.bytes rest mama dest e.field_type name e.fid ∙ same) in
    let count : length e.bytes / element_size e.field_type ≡ n =
      ap (λ k. k / element_size e.field_type) width ∙ whole e.field_type n in
    rw
      (
        drop-data mama src before after e r,
        count,
        update_scalar_vector-update_field mama dest dest' e.field_type name e.fid (e.bytes ++ rest)
            n ds d valid keeps put,
      )
      refl
