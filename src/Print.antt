-- ===== src/Print.antt =====
-- The text of a field and of a message: `omnmmsgFieldPayload_getAsString` of src/Field.cpp, and
-- `omnmmsgPayload_getFieldAsString` and `omnmmsgPayload_toString` of src/Payload.cpp.
pub mod Whole
pub mod Room
pub mod Text
pub mod Ends
use open_mama_omnm.Prelude.{
  ℕ, zero, suc, ◌+◌, ◌-◌, Bool, true, false, not, List, [], ◌∷◌, ◌++◌, Option, none, some, leb,
  ◌==◌, if◌then◌else◌, length, take, replicate,
}
use open_mama_omnm.Mama.{
  Mama, Status, ok, null_arg, invalid_arg, FieldType, string, msg, opaque, time, price,
  vector_string, vector_msg, vector_time, vector_price,
}
use open_mama_omnm.Memory.{Run, ret, fault, stuck, ◌>>=◌, string_at, write}
use open_mama_omnm.Message.{OmnmFieldImpl, OmnmPayloadImpl}
use open_mama_omnm.Iterator.{OmnmIterImpl, next, init, has_next}
use open_mama_omnm.Payload.{CString, get_field}
use open_mama_omnm.Bridge.{Handle, get_num_fields}
use open_mama_omnm.Scalar.{Conversion, sizeof, is_scalar, get_field_scalar}
use open_mama_omnm.Vector.RoundTrip.{is_scalar_vector}
use open_mama_omnm.Blob.{terminated, get_field_buffer}
use open_mama_omnm.Field.{get_name}
use open_mama_omnm.Objects.{Objects}
use open_mama_omnm.DateTime.{get_field_date_time}
use open_mama_omnm.Price.{get_field_price}
use open_mama_omnm.Apply.{pointer}

-- Code outside this repository: the conversions of `snprintf` and the printers of libmama, and what the
-- vector getters of `mamaMsgField` make of the field structure that they are given, with the texts of the
-- elements. Texts are without their terminator.
pub record Printers (o : Objects) : Type 0 where
  pub number_text : FieldType → List ℕ → List ℕ
  pub decimal : ℕ → List ℕ
  pub status_text : Status → List ℕ
  pub date_time_text : o.DateTime → Status × List ℕ
  pub price_text : o.Price → Status × List ℕ
  pub elements : FieldType → OmnmFieldImpl → Run (Status × List (List ℕ))

-- `snprintf (buffer, len, "%s", text)`, for a `len` that is not 0: the string in the buffer afterwards
abbrev pub printed : ℕ → List ℕ → List ℕ
printed len text = take (len - 1) text

-- The loop of EXPAND_PRINT_VECTOR_MACROS: each element is written to the start of the buffer.
abbrev pub print_elements : ℕ → List (List ℕ) → List ℕ → List ℕ
print_elements len [] text = text
print_elements len (s ∷ []) text = printed len (8 ∷ [])
print_elements len (s ∷ t ∷ ss) text = print_elements len (t ∷ ss) (printed len (44 ∷ []))

-- What is left in the buffer once the loop has run: "}" is written to its start as well.
abbrev pub close_elements : ℕ → List ℕ → List ℕ
close_elements len text = printed len (125 ∷ [])

-- "{", " bytes}", "{failed with status: ", "{...}" and "Unknown"
abbrev pub open_brace : List ℕ
open_brace = 123 ∷ []

abbrev pub bytes_close : List ℕ
bytes_close = 32 ∷ 98 ∷ 121 ∷ 116 ∷ 101 ∷ 115 ∷ 125 ∷ []

abbrev pub failed_with : List ℕ
failed_with =
    123 ∷ 102 ∷ 97 ∷ 105 ∷ 108 ∷ 101 ∷ 100 ∷ 32 ∷ 119 ∷ 105 ∷ 116 ∷ 104 ∷ 32 ∷ 115 ∷ 116 ∷ 97 ∷ 116
    ∷ 117 ∷ 115 ∷ 58 ∷ 32 ∷ []

abbrev pub dots : List ℕ
dots = 123 ∷ 46 ∷ 46 ∷ 46 ∷ 125 ∷ []

abbrev pub unknown_text : List ℕ
unknown_text = 85 ∷ 110 ∷ 107 ∷ 110 ∷ 111 ∷ 119 ∷ 110 ∷ []

module _ (convert : Conversion) (o : Objects) (printers : Printers o) (m : OmnmPayloadImpl)
    (f : OmnmFieldImpl) (len : ℕ) where
  -- EXPAND_PRINT_SCALAR_MACROS for a number: where the getter writes none, 0 is printed.
  unfoldable pub print_scalar : FieldType → Run (List ℕ)
  print_scalar t = do
    (status, result) ← get_field_scalar convert m (some f) true t
    ret (
        printed len
          (printers.number_text t (elim result [ none ↦ replicate (sizeof t) 0 | some v ↦ v ])))

  -- And for a string.
  unfoldable pub print_string : Run (List ℕ)
  print_string = do
    (status, result) ← get_field_buffer string m (some f) true
    elim (pointer result) [
      | none ↦ ret []
      | some p ↦ do s ← string_at m.payload_buffer p; ret (printed len s)
    ]

  -- EXPAND_PRINT_VECTOR_MACROS
  abbrev pub vector_printed : Status × List (List ℕ) → Status × List ℕ
  vector_printed (ok, texts) =
      (ok, close_elements len (print_elements len texts (printed len open_brace)))
  vector_printed (status, texts) =
      (status, printed len (failed_with ++ (printers.status_text status ++ (125 ∷ []))))

  unfoldable pub print_vector : FieldType → Run (Status × List ℕ)
  print_vector t = do got ← printers.elements t f; ret (vector_printed got)

  unfoldable pub print_date_time : Run (Status × List ℕ)
  print_date_time = do
    (ignored, result) ← get_field_date_time o m (some f) (some o.create_date_time)
    elim result [
      | none ↦ fault
      | some d ↦ ret ((printers.date_time_text d).0, printed len (printers.date_time_text d).1)
    ]

  unfoldable pub print_price : Run (Status × List ℕ)
  print_price = do
    (ignored, result) ← get_field_price convert o m (some f) (some o.create_price)
    elim result [
      | none ↦ fault
      | some d ↦ ret ((printers.price_text d).0, printed len (printers.price_text d).1)
    ]

  -- `sprintf` takes no heed of the length of the buffer.
  unfoldable pub print_opaque : Run (Status × List ℕ)
  print_opaque = do
    (status, result) ← get_field_buffer opaque m (some f) true
    let size : ℕ = elim result [ none ↦ 0 | some p ↦ f.size ]
    let text : List ℕ = open_brace ++ (printers.decimal size ++ bytes_close)
    if leb (length text + 1) len then ret (status, text) else fault

  -- The switch of `omnmmsgFieldPayload_getAsString`.
  unfoldable pub print_typed : Run (Status × List ℕ)
  unfolding print_scalar print_string print_vector print_date_time print_price print_opaque
  print_typed =
      if is_scalar f.field_type
      then (do text ← print_scalar f.field_type; ret (ok, text))
      else if is_scalar_vector f.field_type
      then print_vector f.field_type
      else elim f.field_type [
        | string ↦ do text ← print_string; ret (ok, text)
        | time ↦ print_date_time
        | price ↦ print_price
        | vector_string ↦ print_vector vector_string
        | opaque ↦ print_opaque
        | msg ↦ ret (ok, printed len dots)
        | vector_msg ↦ ret (ok, printed len dots)
        | vector_time ↦ ret (ok, printed len dots)
        | vector_price ↦ ret (ok, printed len dots)
        | _ ↦ ret (ok, printed len unknown_text)
      ]

-- `omnmmsgFieldPayload_getAsString`: the status and the string that is written to the buffer
unfoldable pub get_as_string :
    Conversion
    → (o : Objects) → Printers o
    → OmnmPayloadImpl
    → Option OmnmFieldImpl
    → Bool
    → ℕ
    → Run (Status × Option (List ℕ))
unfolding print_typed
get_as_string convert o printers m none given len = ret (null_arg, none)
get_as_string convert o printers m (some f) given len =
    if not given
    then ret (null_arg, none)
    else if len == 0
    then ret (invalid_arg, none)
    else do (status, text) ← print_typed convert o printers m f len; ret (status, some text)

-- `omnmmsgPayload_getFieldAsString`
unfoldable pub get_field_as_string :
    Mama
    → Conversion
    → (o : Objects) → Printers o
    → Handle
    → CString
    → ℕ
    → Bool
    → ℕ
    → Run (Status × Option (List ℕ))
get_field_as_string mama convert o printers none name fid given len = ret (null_arg, none)
get_field_as_string mama convert o printers (some m) name fid given len = do
  (status, field) ← get_field mama m name fid
  elim field [
    | none ↦ ret (status, none)
    | some f ↦ get_as_string convert o printers m (some f) given len
  ]
