-- ===== src/Scalar.antt =====
-- The scalar accessors: `getFieldValueAsCopy` of src/Payload.h, the macros ADD_SCALAR_FIELD,
-- UPDATE_SCALAR_FIELD and GET_SCALAR_FIELD with the functions that they make up in src/Payload.cpp
-- and src/Field.cpp.
pub mod Read
pub mod RoundTrip
pub mod Update
pub mod Extend
use open_mama_omnm.Prelude.{
  ℕ, ◌+◌, ◌-◌, Bool, true, false, not, ◌&&◌, ◌||◌, List, [], ◌∷◌, ◌++◌, Option, none, some, ltb,
  leb, ◌==◌, if◌then◌else◌, length, replicate, take,
}
use open_mama_omnm.Mama.{
  Mama, Status, ok, null_arg, invalid_arg, wrong_field_type, not_found, FieldType, bool, char, i8,
  u8, i16, u16, i32, u32, f32, quantity, i64, u64, f64,
}
use open_mama_omnm.Memory.{Run, ret, fault, ◌>>=◌, read8, read_bytes}
use open_mama_omnm.FieldType.{are_field_types_castable, same_type}
use open_mama_omnm.Message.{OmnmFieldImpl, OmnmPayloadImpl}
use open_mama_omnm.Payload.{
  CString, validate_name_fid, find_field_in_buffer, add_field, update_field, update_known_field,
  is_null,
}
use open_mama_omnm.Bridge.{Handle}

-- The C type of a scalar is named by its field type. Values are their bytes, lowest first.
-- `mama_quantity_t` is taken to be as wide as its data in a message.
unfoldable pub sizeof : FieldType → ℕ
sizeof bool = 1
sizeof char = 1
sizeof i8 = 1
sizeof u8 = 1
sizeof i16 = 2
sizeof u16 = 2
sizeof i32 = 4
sizeof u32 = 4
sizeof f32 = 4
sizeof quantity = 4
sizeof _ = 8

-- The scalars with an accessor of their own.
unfoldable pub is_scalar : FieldType → Bool
is_scalar bool = true
is_scalar char = true
is_scalar i8 = true
is_scalar u8 = true
is_scalar i16 = true
is_scalar u16 = true
is_scalar i32 = true
is_scalar u32 = true
is_scalar f32 = true
is_scalar i64 = true
is_scalar u64 = true
is_scalar f64 = true
is_scalar _ = false

pub data Kind : Type 0 where
  unsigned signed other : Kind

-- `char` is signed, `mama_bool_t` unsigned; no conversion of the types of kind `other` is defined here.
unfoldable pub kind : FieldType → Kind
kind bool = unsigned
kind u8 = unsigned
kind u16 = unsigned
kind u32 = unsigned
kind u64 = unsigned
kind char = signed
kind i8 = signed
kind i16 = signed
kind i32 = signed
kind i64 = signed
kind _ = other

-- The byte that fills up the bytes of a number of a kind, by the highest byte `top` so far.
unfoldable pub padding : Kind → ℕ → ℕ
padding unsigned top = 0
padding other top = 0
padding signed top = if ltb top 128 then 0 else 255

abbrev pub last_or : ℕ → List ℕ → ℕ
last_or d [] = d
last_or d (x ∷ xs) = last_or x xs

-- Conversion to `w` bytes: sign or zero extension to a wider type, truncation to a narrower one.
unfoldable pub extend : Kind → ℕ → List ℕ → List ℕ
extend k w bytes = take w bytes ++ replicate (w - length bytes) (padding k (last_or 0 bytes))

-- The conversions of the compiler from and to floating-point types and `mama_quantity_t`.
abbrev pub Conversion : Type 0
Conversion = FieldType → FieldType → List ℕ → List ℕ

abbrev pub convert_kinds : Conversion → Kind → Kind → FieldType → FieldType → List ℕ → List ℕ
convert_kinds convert other target from to bytes = convert from to bytes
convert_kinds convert unsigned other from to bytes = convert from to bytes
convert_kinds convert signed other from to bytes = convert from to bytes
convert_kinds convert unsigned unsigned from to bytes = extend unsigned (sizeof to) bytes
convert_kinds convert unsigned signed from to bytes = extend unsigned (sizeof to) bytes
convert_kinds convert signed unsigned from to bytes = extend signed (sizeof to) bytes
convert_kinds convert signed signed from to bytes = extend signed (sizeof to) bytes

-- `(T) *currentValue`
unfoldable pub cast : Conversion → FieldType → FieldType → List ℕ → List ℕ
unfolding kind
cast convert from to bytes =
    if same_type from to then bytes else convert_kinds convert (kind from) (kind to) from to bytes

-- `VALIDATE_NAME_FID (field.mName, field.mFid)`
unfoldable pub validate_field : List ℕ → OmnmFieldImpl → Run (Option Status)
validate_field buf f = if not (f.fid == 0) then ret none else elim f.name [
  | none ↦ ret (some null_arg)
  | some p ↦ do c ← read8 buf p; ret (if c == 0 then some invalid_arg else none)
]

-- The labels of the switch in `getFieldValueAsCopy`.
abbrev pub is_cast : FieldType → Bool
is_cast quantity = true
is_cast t = is_scalar t

-- `getFieldValueAsCopy` of a known field: the status and `*s`, of C type `to`; `given` says that `s` is
-- not NULL.
unfoldable pub get_known_value :
    Conversion → OmnmPayloadImpl → Bool → FieldType → OmnmFieldImpl → Run (Status × Option (List ℕ))
unfolding cast is_scalar validate_field
get_known_value convert msg given to f = do
  invalid ← validate_field msg.payload_buffer f
  elim invalid [
    | some status ↦ ret (status, none)
    | none ↦
        if not given
        then ret (null_arg, none)
        else if ltb (sizeof to) f.size
        then ret (wrong_field_type, some (replicate (sizeof to) 0))
        else elim f.location [
          | none ↦ fault
          | some p ↦
              if is_cast f.field_type
              then (do
                value ← read_bytes msg.payload_buffer p (sizeof f.field_type)
                ret (ok, some (cast convert f.field_type to value)))
              else (do
                value ← read_bytes msg.payload_buffer p f.size
                ret (ok, some (value ++ replicate (sizeof to - f.size) 0)))
        ]
  ]

-- `getFieldValueAsCopy` by name and fid
unfoldable pub get_value :
    Mama
    → Conversion
    → OmnmPayloadImpl
    → Bool
    → FieldType
    → CString
    → ℕ
    → Run (Status × Option (List ℕ))
get_value mama convert msg given to name fid = elim (validate_name_fid name fid) [
  | some status ↦ ret (status, none)
  | none ↦ if not given then ret (null_arg, none) else do
    found ← find_field_in_buffer mama msg name fid
    elim found [ none ↦ ret (not_found, none) | some f ↦ get_known_value convert msg given to f ]
]

-- `omnmmsgPayload_getI32` and `omnmmsgPayload_getU32` leave the test of `result` to the template.
abbrev pub tests_result : FieldType → Bool
tests_result i32 = false
tests_result u32 = false
tests_result t = true

-- `omnmmsgPayload_getBool` up to `omnmmsgPayload_getF64`
unfoldable pub get_scalar :
    Mama → Conversion → Handle → Bool → FieldType → CString → ℕ → Run (Status × Option (List ℕ))
get_scalar mama convert none given t name fid = ret (null_arg, none)
get_scalar mama convert (some msg) given t name fid =
    if tests_result t && not given
    then ret (null_arg, none)
    else get_value mama convert msg given t name fid

-- The result of a method on the message behind a handle.
abbrev pub on_handle : Run (Status × OmnmPayloadImpl) → Run (Status × Handle)
on_handle r = do (status, msg) ← r; ret (status, some msg)

-- `omnmmsgPayload_addBool` up to `omnmmsgPayload_addF64`
unfoldable pub add_scalar : Mama → Handle → FieldType → CString → ℕ → List ℕ → Run (Status × Handle)
add_scalar mama none t name fid value = ret (null_arg, none)
add_scalar mama (some msg) t name fid value =
    on_handle (add_field mama msg t name fid (some value) (sizeof t))

-- `omnmmsgPayload_updateBool` up to `omnmmsgPayload_updateF64`
unfoldable pub update_scalar :
    Mama → Handle → FieldType → CString → ℕ → List ℕ → Run (Status × Handle)
update_scalar mama none t name fid value = ret (null_arg, none)
update_scalar mama (some msg) t name fid value =
    on_handle (update_field mama msg t name fid (some value) (sizeof t))

-- `omnmmsgFieldPayload_getBool` up to `omnmmsgFieldPayload_getF64`, on a field of `msg`
unfoldable pub get_field_scalar :
    Conversion
    → OmnmPayloadImpl
    → Option OmnmFieldImpl
    → Bool
    → FieldType
    → Run (Status × Option (List ℕ))
get_field_scalar convert msg none given t = ret (null_arg, none)
get_field_scalar convert msg (some f) given t =
    if not given
    then ret (null_arg, none)
    else if is_null f.location
    then ret (invalid_arg, none)
    else if not (same_type t f.field_type) && not (are_field_types_castable f.field_type t)
    then ret (wrong_field_type, none)
    else get_known_value convert msg given t f

-- `omnmmsgFieldPayload_updateBool` up to `omnmmsgFieldPayload_updateF64`; the message that is changed is
-- the parent of the field.
unfoldable pub update_field_scalar :
    Mama → Handle → Option OmnmFieldImpl → FieldType → List ℕ → Run (Status × Handle)
update_field_scalar mama none f t value = ret (null_arg, none)
update_field_scalar mama (some msg) none t value = ret (null_arg, some msg)
update_field_scalar mama (some msg) (some f) t value =
    if not (same_type t f.field_type)
    then ret (wrong_field_type, some msg)
    else on_handle (update_known_field mama msg t f (some value) (sizeof t))
