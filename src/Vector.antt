-- ===== src/Vector.antt =====
-- The accessors of vectors of numbers: the macros ADD_SCALAR_VECTOR, UPDATE_SCALAR_VECTOR and
-- GET_SCALAR_VECTOR of src/Payload.cpp and src/Field.cpp, with the functions that they make up.
pub mod RoundTrip
use open_mama_omnm.Prelude.{
  ℕ, ◌*◌, ◌/◌, ◌%◌, ◌^◌, Bool, true, false, not, ◌&&◌, ◌||◌, List, Option, none, some, ◌==◌,
  if◌then◌else◌,
}
use open_mama_omnm.Mama.{
  Mama, Status, ok, null_arg, not_found, FieldType, vector_bool, vector_char, vector_i8, vector_u8,
  vector_i16, vector_u16, vector_i32, vector_u32, vector_f32,
}
use open_mama_omnm.Memory.{Run, ret, fault, ◌>>=◌}
use open_mama_omnm.Message.{OmnmFieldImpl, OmnmPayloadImpl}
use open_mama_omnm.Payload.{CString, is_null, get_field, add_field, update_known_field}
use open_mama_omnm.Bridge.{Handle}
use open_mama_omnm.Scalar.{on_handle}

-- `sizeof(TYPE)` of the elements of a vector, which its field type names.
unfoldable pub element_size : FieldType → ℕ
element_size vector_bool = 1
element_size vector_char = 1
element_size vector_i8 = 1
element_size vector_u8 = 1
element_size vector_i16 = 2
element_size vector_u16 = 2
element_size vector_i32 = 4
element_size vector_u32 = 4
element_size vector_f32 = 4
element_size _ = 8

-- `size * sizeof(TYPE)`, of 64 bits
unfoldable pub data_size : FieldType → ℕ → ℕ
data_size t size = size * element_size t % 2 ^ 64

-- `omnmmsgPayload_addVectorBool` up to `omnmmsgPayload_addVectorF64`
unfoldable pub add_scalar_vector :
    Mama → Handle → FieldType → CString → ℕ → Option (List ℕ) → ℕ → Run (Status × Handle)
add_scalar_vector mama none t name fid value size = ret (null_arg, none)
add_scalar_vector mama (some msg) t name fid value size =
    if is_null value || (is_null name && fid == 0)
    then ret (null_arg, some msg)
    else on_handle (add_field mama msg t name fid value (data_size t size))

-- The branches of UPDATE_SCALAR_VECTOR by what `getField` returned. The status of `updateField` is
-- dropped. Where `getField` refused the arguments, `field` was never written to.
unfoldable pub update_found_vector :
    Mama
    → OmnmPayloadImpl
    → FieldType
    → CString
    → ℕ
    → Option (List ℕ)
    → ℕ
    → Status × Option OmnmFieldImpl
    → Run (Status × Handle)
update_found_vector mama msg t name fid value size (ok, some field) = do
  (ignored, msg') ← update_known_field mama msg t field value (data_size t size)
  ret (ok, some msg')
update_found_vector mama msg t name fid value size (not_found, field) =
    add_scalar_vector mama (some msg) t name fid value size
update_found_vector mama msg t name fid value size (status, field) = fault

-- `omnmmsgPayload_updateVectorBool` up to `omnmmsgPayload_updateVectorF64`
unfoldable pub update_scalar_vector :
    Mama → Handle → FieldType → CString → ℕ → Option (List ℕ) → ℕ → Run (Status × Handle)
unfolding update_found_vector
update_scalar_vector mama none t name fid value size = ret (null_arg, none)
update_scalar_vector mama (some msg) t name fid value size =
    if is_null value || (is_null name && fid == 0) then ret (null_arg, some msg) else (do
      found ← get_field mama msg name fid
      update_found_vector mama msg t name fid value size found)

-- The pointer and the number of elements that a getter reports for a field.
abbrev pub elements : FieldType → OmnmFieldImpl → Option ℕ × ℕ
elements t f = (f.location, f.size / element_size t)

-- `omnmmsgPayload_getVectorBool` up to `omnmmsgPayload_getVectorF64`
unfoldable pub get_scalar_vector :
    Mama → Handle → Bool → FieldType → CString → ℕ → Run (Status × Option (Option ℕ × ℕ))
get_scalar_vector mama none given t name fid = ret (null_arg, none)
get_scalar_vector mama (some msg) given t name fid = if not given then ret (null_arg, none) else do
  (status, field) ← get_field mama msg name fid
  ret (status, elim field [ none ↦ none | some f ↦ some (elements t f) ])

-- `omnmmsgFieldPayload_getVectorBool` up to `omnmmsgFieldPayload_getVectorF64`
unfoldable pub get_field_scalar_vector :
    Option OmnmFieldImpl → Bool → FieldType → Status × Option (Option ℕ × ℕ)
get_field_scalar_vector none given t = (null_arg, none)
get_field_scalar_vector (some f) given t =
    if given then (ok, some (elements t f)) else (null_arg, none)
