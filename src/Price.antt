-- ===== src/Price.antt =====
-- Prices in a message: `convertMamaPriceToOmnmPrice` and `convertOmnmPriceToMamaPrice` of src/Payload.cpp,
-- and the accessors of prices of src/Payload.cpp and src/Field.cpp.
pub mod RoundTrip
use open_mama_omnm.Prelude.{
  ℕ, ◌+◌, ◌%◌, ◌^◌, Bool, true, false, not, List, [], ◌∷◌, ◌++◌, Option, none, some, if◌then◌else◌,
  replicate,
}
use open_mama_omnm.Mama.{
  Mama, Status, ok, null_arg, invalid_arg, wrong_field_type, FieldType, price, f64, vector_price,
}
use open_mama_omnm.Memory.{Run, ret, fault, ◌>>=◌, read8, read_bytes}
use open_mama_omnm.Message.{OmnmFieldImpl, OmnmPayloadImpl, sizeof_price}
use open_mama_omnm.Payload.{CString, get_field}
use open_mama_omnm.Bridge.{Handle}
use open_mama_omnm.Scalar.{Conversion, get_field_scalar}
use open_mama_omnm.Objects.{Objects}
use open_mama_omnm.Structs

-- `omnmPrice`. The value, a `double`, is its eight bytes.
pub record OmnmPrice : Type 0 where
  pub hints : ℕ
  pub value : List ℕ
  pub currency : List ℕ

-- The bytes of the struct: padding stands behind the hints, and at the end.
unfoldable pub price_bytes : OmnmPrice → List ℕ
price_bytes t = t.hints % 256 ∷ (replicate 7 0 ++ (t.value ++ (t.currency ++ replicate 5 0)))

unfoldable pub read_price : List ℕ → ℕ → Run OmnmPrice
read_price buf p = do
  hints ← read8 buf p
  value ← read_bytes buf (p + 8) 8
  currency ← read_bytes buf (p + 16) 3
  ret (record { hints = hints; value = value; currency = currency })

-- `convertMamaPriceToOmnmPrice`
unfoldable pub to_omnm_price : (o : Objects) → o.Price → OmnmPrice
to_omnm_price o from = record {
  hints = o.get_price_hints from % 2 ^ 8;
  value = o.get_price_value from;
  currency = replicate 3 0;
}

-- `convertOmnmPriceToMamaPrice`
unfoldable pub from_omnm_price : (o : Objects) → OmnmPrice → o.Price → o.Price
from_omnm_price o from to = o.set_price_with_hints to from.value from.hints

abbrev pub prices : (o : Objects) → Structs.Struct o.Price
prices o = record {
  field_type = price;
  vector_type = vector_price;
  width = sizeof_price;
  bytes = λ d. price_bytes (to_omnm_price o d);
  read = λ buf p d. (read_price buf p >>= λ t. ret (from_omnm_price o t d));
  create = o.create_price;
  clear = o.clear_price;
}

-- `omnmmsgPayload_updatePrice`
unfoldable pub update_price :
    Mama → (o : Objects) → Handle → CString → ℕ → Option o.Price → Run (Status × Handle)
unfolding Structs.update_value
update_price mama o = Structs.update_value (prices o) mama

-- `omnmmsgPayload_addPrice`
abbrev pub add_price :
    Mama → (o : Objects) → Handle → CString → ℕ → Option o.Price → Run (Status × Handle)
add_price = update_price

-- `omnmmsgFieldPayload_updatePrice`
unfoldable pub update_field_price :
    Mama → (o : Objects) → Handle → Option OmnmFieldImpl → Option o.Price → Run (Status × Handle)
unfolding Structs.update_field_value
update_field_price mama o = Structs.update_field_value (prices o) mama

-- The case of a number in `omnmmsgFieldPayload_getPrice`.
abbrev pub priced : (o : Objects) → o.Price → Status × Option (List ℕ) → Status × Option o.Price
priced o d (ok, some value) = (ok, some (o.set_price_value d value))
priced o d (status, value) = (status, some d)

-- `omnmmsgFieldPayload_getPrice`: the status and the object that `result` is afterwards.
unfoldable pub get_field_price :
    Conversion
    → (o : Objects) → OmnmPayloadImpl
    → Option OmnmFieldImpl
    → Option o.Price
    → Run (Status × Option o.Price)
get_field_price convert o msg none result = ret (null_arg, result)
get_field_price convert o msg (some f) none = ret (null_arg, none)
get_field_price convert o msg (some f) (some d) = elim f.location [
  | none ↦ ret (invalid_arg, some d)
  | some p ↦ elim f.field_type [
    | price ↦ do t ← read_price msg.payload_buffer p; ret (ok, some (from_omnm_price o t d))
    | f64 ↦ do value ← get_field_scalar convert msg (some f) true f64; ret (priced o d value)
    | _ ↦ ret (wrong_field_type, some d)
  ]
]

-- `omnmmsgPayload_getPrice`; `mField` of the message, in which the field is looked up, is not part of
-- the result.
unfoldable pub get_price :
    Mama
    → Conversion
    → (o : Objects) → Handle
    → CString
    → ℕ
    → Option o.Price
    → Run (Status × Option o.Price)
get_price mama convert o none name fid result = ret (null_arg, result)
get_price mama convert o (some msg) name fid none = ret (null_arg, none)
get_price mama convert o (some msg) name fid (some d) = do
  (status, field) ← get_field mama msg name fid
  elim field [
    | none ↦ ret (status, some d)
    | some f ↦ get_field_price convert o msg (some f) (some d)
  ]

-- `omnmmsgPayload_updateVectorPrice`
unfoldable pub update_vector_price :
    Mama → (o : Objects) → Handle → CString → ℕ → Option (List o.Price) → Run (Status × Handle)
unfolding Structs.update_vector
update_vector_price mama o = Structs.update_vector (prices o) mama

-- `omnmmsgPayload_addVectorPrice`
abbrev pub add_vector_price :
    Mama → (o : Objects) → Handle → CString → ℕ → Option (List o.Price) → Run (Status × Handle)
add_vector_price = update_vector_price

-- `omnmmsgFieldPayload_getVectorPrice`
unfoldable pub get_field_vector_price :
    (o : Objects)
    → OmnmPayloadImpl
    → Option OmnmFieldImpl
    → Bool
    → List (Option o.Price)
    → Run (Status × Option (List o.Price × ℕ))
unfolding Structs.get_field_vector
get_field_vector_price o = Structs.get_field_vector (prices o)

-- `omnmmsgPayload_getVectorPrice`
unfoldable pub get_vector_price :
    Mama
    → (o : Objects) → Handle
    → Bool
    → CString
    → ℕ
    → List (Option o.Price)
    → Run (Status × Option (List o.Price × ℕ))
unfolding Structs.get_vector
get_vector_price mama o = Structs.get_vector (prices o) mama
