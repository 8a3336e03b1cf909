-- ===== src/Apply/Values.antt =====
-- What the cases of date-times and of prices of `omnmmsgPayload_apply` in src/Payload.cpp put into the
-- target.
use open_mama_omnm.Prelude.{
  ℕ, ◌%◌, ◌^◌, replicate, ◌≡◌, refl, sym, ap, ◌∙◌, List, ◌∷◌, ◌++◌, some, length, drop,
}
use open_mama_omnm.Mama.{Mama, ok, time, price}
use open_mama_omnm.Memory.{ret}
use open_mama_omnm.Message.{OmnmPayloadImpl}
use open_mama_omnm.Payload.{CString, update_field}
use open_mama_omnm.Objects.{Objects, IsFaithful}
use open_mama_omnm.Scalar.{Conversion}
use open_mama_omnm.Structs.{Struct, update_value}
use open_mama_omnm.Structs.RoundTrip.{IsStruct}
use open_mama_omnm.DateTime.{
  date_times, to_omnm_date_time, from_omnm_date_time, date_time_bytes, update_date_time,
}
use open_mama_omnm.DateTime.Convert.{
  read_date_time-date_time_bytes, to_omnm_date_time-IsInRange, get_with_hints-from_omnm_date_time,
  date_times-IsStruct,
}
use open_mama_omnm.DateTime.RoundTrip.{get_field_date_time-time}
use open_mama_omnm.Price.{prices, to_omnm_price, from_omnm_price, price_bytes, update_price}
use open_mama_omnm.Price.RoundTrip.{
  price_seen, price_seen-from_omnm_price, prices-IsStruct, read_price-price_bytes,
  to_omnm_price-IsInRange, get_field_price-price,
}
use open_mama_omnm.Apply.{apply_date_time, apply_price}
use open_mama_omnm.Apply.Field.{shown}
use open_mama_omnm.Wire.{Entry, Represents, encode_all}
use open_mama_omnm.Wire.Data.{data_place, drop-data}

-- The bytes of an object are what is put for it.
update_value-update_field :
    {T O : Type 0} (s : Struct T) (seen : T → O)
    → IsStruct s seen
    → (mama : Mama) (dest dest' : OmnmPayloadImpl) (name : CString) (e : Entry) (v : T)
    → e.field_type ≡ s.field_type
    → e.bytes ≡ s.bytes v
    → update_field mama dest e.field_type name e.fid (some e.bytes) (length e.bytes)
      ≡ ret (ok, dest')
    → update_value s mama (some dest) name e.fid (some v) ≡ ret (ok, some dest')
unfolding update_value
update_value-update_field s seen laws mama dest dest' name e v typed same put =
    rw (← laws.length-bytes v, ← same, ← typed, put) refl

module _ (mama : Mama) (o : Objects) (laws : IsFaithful o) (src : OmnmPayloadImpl)
    (before after : List Entry) (e : Entry) (r : Represents mama src (before ++ (e ∷ after)))
    (dest dest' : OmnmPayloadImpl) (name : CString)
    (put : update_field mama dest e.field_type name e.fid (some e.bytes) (length e.bytes)
      ≡ ret (ok, dest')) where
  -- The bytes of the field stand where its structure points to.
  bytes_at :
      (bytes : List ℕ)
      → e.bytes ≡ bytes
      → drop (data_place mama src before e) src.payload_buffer
        ≡ bytes ++ (encode_all mama after ++ r.slack)
  bytes_at bytes same =
      drop-data mama src before after e r ∙ ap (λ b. b ++ (encode_all mama after ++ r.slack)) same

  -- A struct that stands for a date-time is put as it is.
  pub apply_date_time-update_field :
      (v : o.DateTime)
      → e.field_type ≡ time
      → e.bytes ≡ date_time_bytes (to_omnm_date_time o v)
      → apply_date_time mama src (some dest) name (shown mama src before after e r) o
        ≡ ret (some dest')
  unfolding apply_date_time update_date_time
  apply_date_time-update_field v typed same =
      let t = to_omnm_date_time o v in
      let d = from_omnm_date_time o t o.create_date_time in
      let read =
        read_date_time-date_time_bytes src.payload_buffer (data_place mama src before e) _ t
          (to_omnm_date_time-IsInRange o laws v).0 (bytes_at _ same) in
      let same_struct : to_omnm_date_time o d ≡ t =
        unfold to_omnm_date_time in
        rw (get_with_hints-from_omnm_date_time o laws v o.create_date_time) refl in
      rw
        (
          get_field_date_time-time o src (shown mama src before after e r) _ o.create_date_time t
              typed refl read,
          update_value-update_field (date_times o) o.get_with_hints (date_times-IsStruct o laws)
              mama dest dest' name e d typed (same ∙ ap date_time_bytes (sym same_struct)) put,
        )
        refl

  -- And one that stands for a price.
  pub apply_price-update_field :
      (convert : Conversion) (v : o.Price)
      → e.field_type ≡ price
      → e.bytes ≡ price_bytes (to_omnm_price o v)
      → apply_price mama src (some dest) name (shown mama src before after e r) convert o
        ≡ ret (some dest')
  unfolding apply_price update_price
  apply_price-update_field convert v typed same =
      let t = to_omnm_price o v in
      let d = from_omnm_price o t o.create_price in
      let read =
        read_price-price_bytes src.payload_buffer (data_place mama src before e) _ t
          (to_omnm_price-IsInRange o laws v) (bytes_at _ same) in
      let alike = price_seen-from_omnm_price o laws v o.create_price in
      let same_struct : to_omnm_price o d ≡ t =
        unfold to_omnm_price in
        ap
          (λ (q : List ℕ × ℕ). record {
            hints = q.1 % 2 ^ 8;
            value = q.0;
            currency = replicate 3 0;
          })
          alike in
      rw
        (
          get_field_price-price convert o src (shown mama src before after e r) _ o.create_price t
              typed refl read,
          update_value-update_field (prices o) (price_seen o) (prices-IsStruct o laws) mama dest
              dest' name e d typed (same ∙ ap price_bytes (sym same_struct)) put,
        )
        refl
