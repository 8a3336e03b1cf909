-- ===== src/Strings.antt =====
-- Fields that hold several strings: `omnmmsgPayload_addVectorString`,
-- `omnmmsgPayload_updateVectorString` and `omnmmsgPayload_getVectorString` of src/Payload.cpp, and
-- `omnmmsgFieldPayload_getVectorString` of src/Field.cpp.
pub mod Read
pub mod RoundTrip
use open_mama_omnm.Prelude.{
  ℕ, zero, suc, ◌+◌, ◌-◌, Bool, true, false, not, List, [], ◌∷◌, ◌++◌, Option, none, some, ltb, leb,
  ◌==◌, if◌then◌else◌, length,
}
use open_mama_omnm.Mama.{Mama, Status, ok, null_arg, FieldType, vector_string}
use open_mama_omnm.Memory.{Run, ret, fault, stuck, ◌>>=◌, read_bytes, write, strlen_at}
use open_mama_omnm.Message.{OmnmFieldImpl, OmnmPayloadImpl}
use open_mama_omnm.Payload.{CString, validate_name_fid, get_field, add_field, update_field, grow}
use open_mama_omnm.Bridge.{Handle}
use open_mama_omnm.Scalar.{on_handle}
use open_mama_omnm.Blob.{terminated}

-- `bytesRequired`
unfoldable pub bytes_required : List (List ℕ) → ℕ
bytes_required [] = 0
bytes_required (s ∷ ss) = length s + 1 + bytes_required ss

-- The loop that copies the strings to `target`.
unfoldable pub copy_strings : List ℕ → ℕ → List (List ℕ) → Run (List ℕ)
copy_strings buf target [] = ret buf
copy_strings buf target (s ∷ ss) = do
  buf ← write buf target (terminated s)
  copy_strings buf (target + (length s + 1)) ss

-- The message with the strings at the front of `mField.mBuffer`.
unfoldable pub collect : Mama → OmnmPayloadImpl → List (List ℕ) → Run OmnmPayloadImpl
collect mama msg strings = do
  buf ← copy_strings (grow mama msg.scratch (bytes_required strings)) 0 strings
  ret (record msg { scratch = buf })

-- `omnmmsgPayload_addVectorString`. It adds the whole of `mField.mBuffer`, which may be longer than the
-- strings.
unfoldable pub add_vector_string :
    Mama → Handle → CString → ℕ → Option (List (List ℕ)) → Run (Status × Handle)
unfolding collect
add_vector_string mama msg name fid value = elim (validate_name_fid name fid) [
  | some status ↦ ret (status, msg)
  | none ↦ elim msg [
    | none ↦ ret (null_arg, none)
    | some m ↦ elim value [
      | none ↦ ret (null_arg, some m)
      | some strings ↦ do
        collected ← collect mama m strings
        on_handle (
            add_field mama collected vector_string name fid (some collected.scratch)
              (length collected.scratch))
    ]
  ]
]

-- `omnmmsgPayload_updateVectorString`
unfoldable pub update_vector_string :
    Mama → Handle → CString → ℕ → Option (List (List ℕ)) → Run (Status × Handle)
unfolding collect
update_vector_string mama msg name fid value = elim (validate_name_fid name fid) [
  | some status ↦ ret (status, msg)
  | none ↦ elim msg [
    | none ↦ ret (null_arg, none)
    | some m ↦ elim value [
      | none ↦ ret (null_arg, some m)
      | some strings ↦ do
        collected ← collect mama m strings
        on_handle (
            update_field mama collected vector_string name fid (some collected.scratch)
              (bytes_required strings))
    ]
  ]
]

-- `stringCount`
unfoldable pub count_strings : List ℕ → ℕ
count_strings [] = 0
count_strings (c ∷ cs) = if c == 0 then suc (count_strings cs) else count_strings cs

-- The second loop of `omnmmsgFieldPayload_getVectorString`: the places of the strings among `size`
-- bytes from `p` on. A round moves on by one byte at least, so that fuel `size` is enough.
unfoldable pub string_places : ℕ → List ℕ → ℕ → ℕ → Run (List ℕ)
string_places fuel buf p zero = ret []
string_places zero buf p (suc size) = stuck
string_places (suc fuel) buf p (suc size) = do
  n ← strlen_at buf p
  rest ← string_places fuel buf (p + n + 1) (size - n)
  ret (p ∷ rest)

-- `omnmmsgFieldPayload_getVectorString`: the pointers and `*size`. The array has room for as many
-- pointers as there are terminators.
unfoldable pub get_field_vector_string :
    OmnmPayloadImpl → Option OmnmFieldImpl → Bool → Run (Status × Option (List ℕ × ℕ))
get_field_vector_string msg none given = ret (null_arg, none)
get_field_vector_string msg (some f) given =
    if not given then ret (null_arg, none) else elim f.location [
      | none ↦ if f.size == 0 then ret (ok, some ([], 0)) else fault
      | some p ↦ do
        content ← read_bytes msg.payload_buffer p f.size
        places ← string_places f.size msg.payload_buffer p f.size
        let count = count_strings content
        if ltb count (length places) then fault else ret (ok, some (places, count))
    ]

-- `omnmmsgPayload_getVectorString`
unfoldable pub get_vector_string :
    Mama → Handle → Bool → CString → ℕ → Run (Status × Option (List ℕ × ℕ))
get_vector_string mama msg given name fid = elim (validate_name_fid name fid) [
  | some status ↦ ret (status, none)
  | none ↦ elim msg [
    | none ↦ ret (null_arg, none)
    | some m ↦ do
      (status, field) ← get_field mama m name fid
      elim field [ none ↦ ret (status, none) | some f ↦ get_field_vector_string m (some f) given ]
  ]
]
