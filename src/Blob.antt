-- ===== src/Blob.antt =====
-- Fields that hold text, bytes or messages: `getFieldValueAsBuffer` of src/Payload.h and the
-- accessors of strings, opaque data and sub-messages of src/Payload.cpp and
-- src/Field.cpp.
pub mod RoundTrip
use open_mama_omnm.Prelude.{
  ℕ, zero, suc, ◌+◌, ◌-◌, Bool, true, false, not, ◌&&◌, ◌||◌, List, [], ◌∷◌, ◌++◌, Option, none,
  some, ltb, leb, ◌==◌, if◌then◌else◌, length, drop,
}
use open_mama_omnm.Mama.{
  Mama, Status, ok, null_arg, invalid_arg, wrong_field_type, not_found, FieldType, string, opaque,
  msg, vector_string,
}
use open_mama_omnm.Memory.{Run, ret, fault, stuck, ◌>>=◌, read_bytes, write, strlen_at}
use open_mama_omnm.FieldType.{are_field_types_castable, same_type}
use open_mama_omnm.Message.{OmnmFieldImpl, OmnmPayloadImpl}
use open_mama_omnm.Payload.{
  CString, validate_name_fid, find_field_in_buffer, get_field, add_field, update_field,
  update_known_field, is_null, grow,
}
use open_mama_omnm.Bridge.{Handle, serialize, create_from_byte_buffer, set_byte_buffer, other}
use open_mama_omnm.Scalar.{on_handle, validate_field}

-- The bytes of a C string and its terminator.
abbrev pub terminated : List ℕ → List ℕ
terminated s = s ++ (0 ∷ [])

-- `omnmmsgPayload_addString`
unfoldable pub add_string : Mama → Handle → CString → ℕ → CString → Run (Status × Handle)
add_string mama none name fid str = ret (null_arg, none)
add_string mama (some m) name fid none = ret (null_arg, some m)
add_string mama (some m) name fid (some s) =
    on_handle (add_field mama m string name fid (some (terminated s)) (length s + 1))

-- `omnmmsgPayload_updateString`
unfoldable pub update_string : Mama → Handle → CString → ℕ → CString → Run (Status × Handle)
update_string mama none name fid str = ret (null_arg, none)
update_string mama (some m) name fid none = ret (null_arg, some m)
update_string mama (some m) name fid (some s) =
    on_handle (update_field mama m string name fid (some (terminated s)) (length s + 1))

-- `omnmmsgPayload_addOpaque`
unfoldable pub add_opaque :
    Mama → Handle → CString → ℕ → Option (List ℕ) → ℕ → Run (Status × Handle)
add_opaque mama none name fid block size = ret (null_arg, none)
add_opaque mama (some m) name fid none size = ret (null_arg, some m)
add_opaque mama (some m) name fid (some block) size =
    on_handle (add_field mama m opaque name fid (some block) size)

-- `omnmmsgPayload_updateOpaque`
unfoldable pub update_opaque :
    Mama → Handle → CString → ℕ → Option (List ℕ) → ℕ → Run (Status × Handle)
update_opaque mama none name fid block size = ret (null_arg, none)
update_opaque mama (some m) name fid none size = ret (null_arg, some m)
update_opaque mama (some m) name fid (some block) size =
    on_handle (update_field mama m opaque name fid (some block) size)

-- `getFieldValueAsBuffer` of a known field: the pointer is an offset into the payload buffer.
unfoldable pub get_known_buffer :
    OmnmPayloadImpl → Bool → OmnmFieldImpl → Run (Status × Option (Option ℕ))
get_known_buffer m given f = do
  invalid ← validate_field m.payload_buffer f
  ret (elim invalid [
    | some status ↦ (status, none)
    | none ↦ if given then (ok, some f.location) else (null_arg, none)
  ])

-- `getFieldValueAsBuffer` by name and fid, and `omnmmsgPayload_getString`
unfoldable pub get_string : Mama → Handle → Bool → CString → ℕ → Run (Status × Option (Option ℕ))
get_string mama none given name fid = ret (null_arg, none)
get_string mama (some m) given name fid =
    if not given then ret (null_arg, none) else elim (validate_name_fid name fid) [
      | some status ↦ ret (status, none)
      | none ↦ do
        found ← find_field_in_buffer mama m name fid
        elim found [ none ↦ ret (not_found, none) | some f ↦ get_known_buffer m given f ]
    ]

-- `omnmmsgPayload_getOpaque`: pointer and size
unfoldable pub get_opaque :
    Mama → Handle → Bool → CString → ℕ → Run (Status × Option (Option ℕ × ℕ))
get_opaque mama none given name fid = ret (null_arg, none)
get_opaque mama (some m) given name fid = if not given then ret (null_arg, none) else do
  (status, field) ← get_field mama m name fid
  ret (status, elim field [ none ↦ none | some f ↦ some (f.location, f.size) ])

-- The tests of `omnmmsgFieldPayload_getString` and `omnmmsgFieldPayload_getOpaque` for the type `t`.
unfoldable pub refuses : FieldType → Option OmnmFieldImpl → Bool → Option Status
refuses t none given = some null_arg
refuses t (some f) given =
    if not given
    then some null_arg
    else if is_null f.location
    then some invalid_arg
    else if not (same_type t f.field_type) && not (are_field_types_castable f.field_type t)
    then some wrong_field_type
    else none

-- `omnmmsgFieldPayload_getString` and, with the size, `omnmmsgFieldPayload_getOpaque`
unfoldable pub get_field_buffer :
    FieldType → OmnmPayloadImpl → Option OmnmFieldImpl → Bool → Run (Status × Option (Option ℕ))
unfolding refuses
get_field_buffer t m none given = ret (null_arg, none)
get_field_buffer t m (some f) given = elim (refuses t (some f) given) [
  | some status ↦ ret (status, none)
  | none ↦ get_known_buffer m given f
]

-- `omnmmsgFieldPayload_updateString`
unfoldable pub update_field_string :
    Mama → Handle → Option OmnmFieldImpl → CString → Run (Status × Handle)
update_field_string mama none f str = ret (null_arg, none)
update_field_string mama (some m) none str = ret (null_arg, some m)
update_field_string mama (some m) (some f) none =
    on_handle (update_known_field mama m string f none 1)
update_field_string mama (some m) (some f) (some s) =
    on_handle (update_known_field mama m string f (some (terminated s)) (length s + 1))

-- `omnmmsgPayload_addMsg`; `payload` is what `mamaMsgImpl_getPayload` gave for a message that is not
-- NULL: its status or the payload.
unfoldable pub add_msg : Mama → Handle → CString → ℕ → Status × Handle → Run (Status × Handle)
unfolding serialize
add_msg mama none name fid payload = ret (null_arg, none)
add_msg mama (some m) name fid (ok, value) = elim (serialize value true).1 [
  | none ↦ ret ((serialize value true).0, some m)
  | some bytes ↦ on_handle (add_field mama m msg name fid (some bytes.0) bytes.1)
]
add_msg mama (some m) name fid (status, value) = ret (status, some m)

-- `OmnmPayloadImpl::updateSubMsg`: without a payload to serialize, the buffer is NULL.
unfoldable pub update_sub_msg :
    Mama → OmnmPayloadImpl → CString → ℕ → Handle → Run (Status × Handle)
unfolding serialize
update_sub_msg mama m name fid value = elim (serialize value true).1 [
  | none ↦ on_handle (update_field mama m msg name fid none 0)
  | some bytes ↦ on_handle (update_field mama m msg name fid (some bytes.0) bytes.1)
]

-- `omnmmsgPayload_updateSubMsg`, with the payload as in `omnmmsgPayload_addMsg`
unfoldable pub update_msg : Mama → Handle → CString → ℕ → Status × Handle → Run (Status × Handle)
unfolding update_sub_msg
update_msg mama none name fid payload = ret (null_arg, none)
update_msg mama (some m) name fid (ok, value) = update_sub_msg mama m name fid value
update_msg mama (some m) name fid (status, value) = ret (status, some m)

-- `omnmmsgFieldPayload_getMsg`; `sub` is `mSubPayload`, the message of the last call.
unfoldable pub get_field_msg :
    Mama → OmnmPayloadImpl → Option OmnmFieldImpl → Bool → Handle → Run (Status × Handle)
get_field_msg mama m none given sub = ret (null_arg, sub)
get_field_msg mama m (some f) given sub =
    if not given then ret (null_arg, sub) else elim f.location [
      | none ↦ ret (invalid_arg, sub)
      | some p ↦
          let block = drop p m.payload_buffer in
          if not (same_type msg f.field_type)
          then ret (wrong_field_type, sub)
          else if is_null sub
          then create_from_byte_buffer mama true (some block) f.size
          else set_byte_buffer mama sub (some (other block)) f.size
    ]

-- `omnmmsgPayload_getMsg`
unfoldable pub get_msg : Mama → Handle → Bool → CString → ℕ → Handle → Run (Status × Handle)
get_msg mama none given name fid sub = ret (null_arg, sub)
get_msg mama (some m) given name fid sub = if not given then ret (null_arg, sub) else do
  (status, field) ← get_field mama m name fid
  elim field [ none ↦ ret (status, sub) | some f ↦ get_field_msg mama m (some f) given sub ]
