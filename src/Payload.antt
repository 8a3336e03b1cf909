-- ===== src/Payload.antt =====
-- The field operations of `OmnmPayloadImpl`: `findFieldInBuffer`, `addField` and both `updateField` of
-- src/Payload.cpp, and `getField` of src/Payload.h.
pub mod Find
pub mod Put
pub mod Add
pub mod Added
pub mod Resize
pub mod Around
pub mod Update
pub mod Upsert
pub mod Source
pub mod Upserted
pub mod Fuel
pub mod Ends
use open_mama_omnm.Prelude.{
  ℕ, zero, suc, ◌+◌, ◌-◌, ◌*◌, ◌/◌, ◌%◌, ◌^◌, Bool, true, false, not, ◌&&◌, ◌||◌, List, [], ◌∷◌,
  ◌++◌, Option, none, some, ltb, leb, ◌==◌, if◌then◌else◌, length,
}
use open_mama_omnm.Mama.{
  Mama, Status, FieldType, ok, null_arg, invalid_arg, wrong_field_type, not_found,
}
use open_mama_omnm.Memory.{Run, ret, fault, ◌>>=◌, string_at, read_bytes, write, le16, le32}
use open_mama_omnm.FieldType.{is_field_type_sized, are_field_types_castable, same_type}
use open_mama_omnm.Message.{OmnmFieldImpl, OmnmPayloadImpl}
use open_mama_omnm.Iterator.{Flow, going, over, walk_all}

-- A C string argument, without its terminator; `none` is NULL.
abbrev pub CString : Type 0
CString = Option (List ℕ)

-- `strcmp (a, b) == 0`
unfoldable pub text_eq : List ℕ → List ℕ → Bool
text_eq [] [] = true
text_eq [] (b ∷ t) = false
text_eq (a ∷ s) [] = false
text_eq (a ∷ s) (b ∷ t) = a == b && text_eq s t

abbrev pub is_null {ℓ} : {A : Type ℓ} → Option A → Bool
is_null none = true
is_null (some _) = false

-- `'\0' == *name`, for a name that is not NULL
abbrev pub is_empty : CString → Bool
is_empty none = false
is_empty (some []) = true
is_empty (some (c ∷ s)) = false

-- `VALIDATE_NAME_FID`: the status with which the caller returns, if it does
unfoldable pub validate_name_fid : CString → ℕ → Option Status
validate_name_fid name fid =
    if is_null name && fid == 0
    then some null_arg
    else if fid == 0 && is_empty name
    then some invalid_arg
    else none

-- The test of the loop in `findFieldInBuffer`.
unfoldable pub names_match : List ℕ → CString → Option ℕ → Run Bool
names_match buf (some name) (some p) = do other ← string_at buf p; ret (text_eq name other)
names_match buf (some name) none = ret false
names_match buf none candidate = ret false

unfoldable pub field_matches : List ℕ → CString → ℕ → OmnmFieldImpl → Run Bool
unfolding names_match
field_matches buf name fid candidate =
    if not (fid == 0) && fid == candidate.fid then ret true else names_match buf name candidate.name

-- The body of the loop: copy the candidate and return, or go on.
unfoldable pub find_step :
    List ℕ → CString → ℕ → Option OmnmFieldImpl → OmnmFieldImpl → Run (Flow (Option OmnmFieldImpl))
unfolding field_matches
find_step buf name fid found candidate = do
  hit ← field_matches buf name fid candidate
  ret (if hit then over (some candidate) else going found)

-- `findFieldInBuffer`: the field that it fills in, or `none` for `MAMA_STATUS_NOT_FOUND`.
unfoldable pub find_field_in_buffer :
    Mama → OmnmPayloadImpl → CString → ℕ → Run (Option OmnmFieldImpl)
unfolding find_step
find_field_in_buffer mama msg name fid =
    walk_all mama msg (find_step msg.payload_buffer name fid) none

-- `getField`
unfoldable pub get_field :
    Mama → OmnmPayloadImpl → CString → ℕ → Run (Status × Option OmnmFieldImpl)
get_field mama msg name fid = elim (validate_name_fid name fid) [
  | some status ↦ ret (status, none)
  | none ↦ do
    found ← find_field_in_buffer mama msg name fid
    ret (elim found [ none ↦ (not_found, none) | some f ↦ (ok, some f) ])
]

abbrev pub uint32_max : ℕ
uint32_max = 4294967295

-- `strlenEx (name) + 1`
abbrev pub name_len : CString → ℕ
name_len none = 1
name_len (some s) = length s + 1

-- `allocateBufferMemory` on the payload buffer, its status ignored
abbrev pub grow : Mama → List ℕ → ℕ → List ℕ
grow mama buf size = elim (mama.allocate buf size) [ none ↦ buf | some grown ↦ grown ]

-- The name as it is copied, with its terminator.
abbrev pub name_bytes : CString → List ℕ
name_bytes none = 0 ∷ []
name_bytes (some s) = s ++ (0 ∷ [])

-- The writes of `addField` from the insert point on.
unfoldable pub put_field : Mama → List ℕ → ℕ → FieldType → CString → ℕ → List ℕ → ℕ → Run (List ℕ)
put_field mama buf p type name fid source len = do
  buf ← write buf p (mama.code type % 256 ∷ [])
  buf ← write buf (p + 1) (le16 fid)
  buf ← write buf (p + 1 + 2) (name_bytes name)
  let q = p + 1 + 2 + name_len name
  buf ← if is_field_type_sized type then write buf q (le32 len) else ret buf
  data_bytes ← read_bytes source 0 len
  write buf (if is_field_type_sized type then q + 4 else q) data_bytes

-- `addField`; the block behind `buffer` is `source`, `none` for NULL.
unfoldable pub add_field :
    Mama
    → OmnmPayloadImpl
    → FieldType
    → CString
    → ℕ
    → Option (List ℕ)
    → ℕ
    → Run (Status × OmnmPayloadImpl)
unfolding put_field
add_field mama msg type name fid buffer len =
    if ltb uint32_max len then ret (invalid_arg, msg) else elim buffer [
      | none ↦ ret (null_arg, msg)
      | some source ↦
          if len == 0 || (is_null name && fid == 0)
          then ret (null_arg, msg)
          else elim (validate_name_fid name fid) [
            | some status ↦ ret (status, msg)
            | none ↦ do
              let unsized = msg.payload_buffer_tail + 1 + 2 + name_len name + len
              let new_tail = if is_field_type_sized type then unsized + 4 else unsized
              let buf = grow mama msg.payload_buffer new_tail
              buf ← put_field mama buf msg.payload_buffer_tail type name fid source len
              ret (ok, record msg { payload_buffer = buf; payload_buffer_tail = new_tail })
          ]
    ]

-- `(signed) mPayloadBufferTail + delta` as a `size_t`: the tail goes through a 32-bit `int`.
abbrev pub as_signed : ℕ → ℕ
as_signed n = let w = n % 2 ^ 32 in if ltb w (2 ^ 31) then w else w + 2 ^ 64 - 2 ^ 32

unfoldable pub moved_tail : ℕ → ℕ → ℕ → ℕ
moved_tail tail len size = (as_signed tail + len + 2 ^ 64 - size) % 2 ^ 64

-- The part of `updateField` for data of another size than the field's: it grows the buffer by
-- `delta` where that is positive, and moves what follows the data by `delta`.
unfoldable pub resize_data : Mama → OmnmPayloadImpl → ℕ → ℕ → ℕ → Run OmnmPayloadImpl
resize_data mama msg location size len = do
  let next_byte_offset = location + size
  let buf =
      if ltb size len
      then grow mama msg.payload_buffer (length msg.payload_buffer + (len - size))
      else msg.payload_buffer
  rest ←
      read_bytes buf next_byte_offset
        ((msg.payload_buffer_tail + 2 ^ 64 - next_byte_offset) % 2 ^ 32)
  buf ← write buf (location + len) rest
  ret (record msg {
    payload_buffer = buf;
    payload_buffer_tail = moved_tail msg.payload_buffer_tail len size;
  })

-- `updateField` of a known field. A field without data has no place to write to.
unfoldable pub update_known_field :
    Mama
    → OmnmPayloadImpl
    → FieldType
    → OmnmFieldImpl
    → Option (List ℕ)
    → ℕ
    → Run (Status × OmnmPayloadImpl)
unfolding resize_data
update_known_field mama msg type field buffer len = elim buffer [
  | none ↦ ret (null_arg, msg)
  | some source ↦
      if not (same_type field.field_type type)
        && not (are_field_types_castable field.field_type type)
      then ret (wrong_field_type, msg)
      else elim field.location [
        | none ↦ fault
        | some location ↦ do
          msg ← if len == field.size then ret msg else resize_data mama msg location field.size len
          buf ←
              if is_field_type_sized field.field_type
              then (if ltb location 4
                  then fault
                  else write msg.payload_buffer (location - 4) (le32 len))
              else ret msg.payload_buffer
          data_bytes ← read_bytes source 0 len
          buf ← write buf location data_bytes
          ret (ok, record msg { payload_buffer = buf })
      ]
]

-- `updateField` by name and fid
unfoldable pub update_field :
    Mama
    → OmnmPayloadImpl
    → FieldType
    → CString
    → ℕ
    → Option (List ℕ)
    → ℕ
    → Run (Status × OmnmPayloadImpl)
update_field mama msg type name fid buffer len =
    if is_null buffer || (is_null name && fid == 0) then ret (null_arg, msg) else do
      found ← find_field_in_buffer mama msg name fid
      elim found [
        | none ↦ add_field mama msg type name fid buffer len
        | some field ↦
            if not (same_type field.field_type type)
              && not (are_field_types_castable field.field_type type)
            then ret (wrong_field_type, msg)
            else update_known_field mama msg type field buffer len
      ]
