-- ===== src/Apply/Plain.antt =====
-- The fields that `omnmmsgPayload_apply` of src/Payload.cpp puts into its target as they are.
use open_mama_omnm.Prelude.{
  ℕ, ◌*◌, ◌≤◌, ◌<◌, ◌≡◌, ◌≢◌, ◌⊎◌, inl, inr, refl, sym, List, [], ◌∷◌, true, false, none, ◌==◌,
  length, arith,
}
use open_mama_omnm.Mama.{FieldType, string, opaque, vector_string, msg, time, price}
use open_mama_omnm.Memory.Laws.{IsText}
use open_mama_omnm.Payload.{CString, validate_name_fid, uint32_max}
use open_mama_omnm.Payload.Put.{text_of}
use open_mama_omnm.Scalar.{is_scalar}
use open_mama_omnm.Vector.{element_size}
use open_mama_omnm.Vector.RoundTrip.{is_scalar_vector}
use open_mama_omnm.Objects.{Objects}
use open_mama_omnm.Apply.Field.{named_or}
use open_mama_omnm.Apply.Nested.{IsMessage}
use open_mama_omnm.DateTime.{date_time_bytes, to_omnm_date_time}
use open_mama_omnm.Price.{price_bytes, to_omnm_price}
use open_mama_omnm.Strings.Read.{joined, AllText}
use open_mama_omnm.Wire.{Entry, Selects, Names}

-- The fields that are put as they are: numbers, vectors of numbers and of strings, strings, opaque data,
-- sub-messages of the supported wire format, and structs that stand for a date-time or a price.
pub data IsCopied (o : Objects) (e : Entry) : Type 0 where
  copies_number : is_scalar e.field_type ≡ true → IsCopied o e
  copies_numbers :
      is_scalar_vector e.field_type ≡ true
      → (n : ℕ) → length e.bytes ≡ n * element_size e.field_type
      → IsCopied o e
  copies_string : e.field_type ≡ string → IsCopied o e
  copies_opaque : e.field_type ≡ opaque → IsCopied o e
  copies_strings :
      e.field_type ≡ vector_string
      → (ss : List (List ℕ)) → AllText ss
      → e.bytes ≡ joined ss
      → IsCopied o e
  copies_message : e.field_type ≡ msg → IsMessage e.bytes → IsCopied o e
  copies_date_time :
      e.field_type ≡ time
      → (v : o.DateTime) → e.bytes ≡ date_time_bytes (to_omnm_date_time o v)
      → IsCopied o e
  copies_price :
      e.field_type ≡ price
      → (v : o.Price) → e.bytes ≡ price_bytes (to_omnm_price o v)
      → IsCopied o e

-- Such a field, with data, that has a fid or a name.
pub record IsPlain (o : Objects) (e : Entry) : Type 0 where
  pub copied : IsCopied o e
  pub asked : (e.fid ≢ 0) ⊎ (e.name ≢ [])
  pub some_data : 0 < length e.bytes
  pub short : length e.bytes ≤ uint32_max

pub named_or-Selects :
    (last : CString) (e : Entry)
    → (e.fid ≢ 0) ⊎ (e.name ≢ [])
    → Selects (named_or last e.name) e.fid e
named_or-Selects last e asked = go e.name refl asked
  where
    go : (t : List ℕ) → e.name ≡ t → (e.fid ≢ 0) ⊎ (e.name ≢ []) → Selects (named_or last t) e.fid e
    go t same (inl nonzero) = inl (nonzero, refl)
    go [] same (inr named) = absurd (named same)
    go (c ∷ s) same (inr named) = inr (unfold Names in (named, sym same))

pub named_or_valid :
    (last : CString) (t : List ℕ) (fid : ℕ)
    → (fid ≢ 0) ⊎ (t ≢ [])
    → validate_name_fid (named_or last t) fid ≡ none
unfolding validate_name_fid
named_or_valid last t fid (inl nonzero) =
    let h : (fid == 0) ≡ false = ground arith in ground (arith, h)
named_or_valid last [] fid (inr named) = absurd (named refl)
named_or_valid last (c ∷ s) fid (inr named) = ground arith

pub not_scalar : (t : FieldType) → is_scalar_vector t ≡ true → is_scalar t ≡ false
unfolding is_scalar is_scalar_vector
not_scalar _ h = ground arith

pub named_or-IsText :
    (last : CString) (t : List ℕ)
    → IsText (text_of last)
    → IsText t
    → IsText (text_of (named_or last t))
named_or-IsText last [] h k = h
named_or-IsText last (c ∷ s) h k = k
