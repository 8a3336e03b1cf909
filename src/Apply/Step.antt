-- ===== src/Apply/Step.antt =====
-- What a round of the loop of `omnmmsgPayload_apply` in src/Payload.cpp does to the entries of the target.
use open_mama_omnm.Prelude.{
  ◌^◌, ◌<◌, ◌≡◌, ◌⊎◌, inl, inr, refl, List, [], ◌∷◌, ◌++◌, Bool, true, false, some, ◌||◌,
  if◌then◌else◌, arith,
}
use open_mama_omnm.Mama.{Mama, FieldType, string, opaque, time, price, vector_string, msg}
use open_mama_omnm.Memory.{ret}
use open_mama_omnm.Memory.Laws.{IsText}
use open_mama_omnm.Message.{OmnmPayloadImpl}
use open_mama_omnm.Iterator.{going}
use open_mama_omnm.Payload.{CString}
use open_mama_omnm.Payload.Put.{text_of}
use open_mama_omnm.Payload.Upserted.{Enough, KeepsEntryType, upsert}
use open_mama_omnm.Bridge.{Handle}
use open_mama_omnm.Scalar.{Conversion, is_scalar}
use open_mama_omnm.Vector.RoundTrip.{is_scalar_vector}
use open_mama_omnm.Objects.{Objects, IsFaithful}
use open_mama_omnm.Apply.{apply_typed, apply_field}
use open_mama_omnm.Apply.Field.{named_or, get_name-named_or, shown}
use open_mama_omnm.Apply.Plain.{
  IsCopied, IsPlain, copies_number, copies_numbers, copies_string, copies_opaque, copies_strings,
  copies_message, copies_date_time, copies_price,
}
use open_mama_omnm.Apply.Round.{apply_field-upsert}
use open_mama_omnm.Wire.{Entry, Represents}

-- The types of fields that are put into the target; the loop passes over the others.
unfoldable pub is_put : FieldType → Bool
is_put t = is_scalar t || is_scalar_vector t || elim t [
  | string ↦ true
  | opaque ↦ true
  | time ↦ true
  | price ↦ true
  | vector_string ↦ true
  | msg ↦ true
  | _ ↦ false
]

pub IsCopied-is_put : (o : Objects) (e : Entry) → IsCopied o e → is_put e.field_type ≡ true
unfolding is_put
IsCopied-is_put o e (copies_number scalar) = rw scalar refl
IsCopied-is_put o e (copies_numbers vector n width) = ground (arith, vector)
IsCopied-is_put o e (copies_string typed) = ground (arith, typed)
IsCopied-is_put o e (copies_opaque typed) = ground (arith, typed)
IsCopied-is_put o e (copies_strings typed ss text same) = ground (arith, typed)
IsCopied-is_put o e (copies_message typed m) = ground (arith, typed)
IsCopied-is_put o e (copies_date_time typed v same) = ground (arith, typed)
IsCopied-is_put o e (copies_price typed v same) = ground (arith, typed)

-- The target after an entry, under its fid and its name, or under the last name that was seen.
unfoldable pub put_entry : CString → Entry → List Entry → List Entry
put_entry last e ds =
    if is_put e.field_type then upsert e.field_type (named_or last e.name) e.fid e.bytes ds else ds

-- A field that is put as it is, or passed over.
abbrev pub IsHandled : Objects → Entry → Type 0
IsHandled o e = IsPlain o e ⊎ (is_put e.field_type ≡ false)

abbrev pub AllHandled : Objects → List Entry → Type 0
AllHandled o [] = Unit {0}
AllHandled o (e ∷ es) = IsHandled o e × AllHandled o es

module _ (mama : Mama) (convert : Conversion) (o : Objects) (src : OmnmPayloadImpl)
    (before after : List Entry) (e : Entry) (r : Represents mama src (before ++ (e ∷ after))) where
  -- The loop passes over a field of another type, and keeps its name.
  apply_field_passes :
      (dest : OmnmPayloadImpl) (last : CString) (sub : Handle)
      → is_put e.field_type ≡ false
      → apply_field mama convert o src
          (record { dest = some dest; name = last; sub = sub })
          (shown mama src before after e r)
        ≡ ret (going (record { dest = some dest; name = named_or last e.name; sub = sub }))
  unfolding apply_field apply_typed is_put is_scalar is_scalar_vector
  apply_field_passes dest last sub other =
      rw (get_name-named_or mama src before after e r last, typed e.field_type other) refl
    where
      typed :
          (t : FieldType)
          → is_put t ≡ false
          → apply_typed mama convert o src
              (record { dest = some dest; name = named_or last e.name; sub = sub })
              (record (shown mama src before after e r) { field_type = t })
            ≡ ret (record { dest = some dest; name = named_or last e.name; sub = sub })
      typed _ h = ground (arith, h)

  pub apply_field-put_entry :
      (enough : Enough mama) (laws : IsFaithful o) (dest : OmnmPayloadImpl) (last : CString)
      (sub : Handle) (ds : List Entry)
      → Represents mama dest ds
      → IsHandled o e
      → IsText (text_of last)
      → (is_put e.field_type ≡ true
          → KeepsEntryType e.field_type (named_or last e.name) e.fid ds
            × (dest.payload_buffer_tail < 2 ^ 31))
      → (dest' : OmnmPayloadImpl) × (sub' : Handle) × (apply_field mama convert o src
            (record { dest = some dest; name = last; sub = sub })
            (shown mama src before after e r)
          ≡ ret (going (record { dest = some dest'; name = named_or last e.name; sub = sub' })))
        × (dest'.header ≡ dest.header)
        × Represents mama dest' (put_entry last e ds)
  unfolding put_entry
  apply_field-put_entry enough laws dest last sub ds d (inl plain) text fits =
      let put = IsCopied-is_put o e plain.copied in
      let (keeps, small) = fits put in
      rw put (
        apply_field-upsert mama convert o src before after e r plain enough laws dest last sub ds d
          text keeps small)
  apply_field-put_entry enough laws dest last sub ds d (inr other) text fits =
      rw other (dest, sub, apply_field_passes dest last sub other, refl, d)
