-- ===== src/Apply.antt =====
-- `omnmmsgPayload_apply` of src/Payload.cpp, which puts every field of one message into another.
pub mod Field
pub mod Vectors
pub mod Round
pub mod Merge
pub mod Copies
pub mod Getters
pub mod Setters
pub mod Ends
pub mod Collected
pub mod Nested
pub mod Plain
pub mod Step
pub mod Values
use open_mama_omnm.Prelude.{
  ℕ, ◌+◌, Bool, true, false, not, List, [], ◌∷◌, Option, none, some, ◌==◌, if◌then◌else◌, length,
  drop,
}
use open_mama_omnm.Mama.{
  Mama, Status, ok, null_arg, FieldType, string, msg, opaque, time, price, vector_string,
}
use open_mama_omnm.Memory.{Run, ret, fault, ◌>>=◌, string_at}
use open_mama_omnm.Message.{OmnmFieldImpl, OmnmPayloadImpl}
use open_mama_omnm.Iterator.{Flow, going, walk_all}
use open_mama_omnm.Payload.{CString, is_null}
use open_mama_omnm.Bridge.{Handle}
use open_mama_omnm.Scalar.{Conversion, is_scalar, get_field_scalar, update_scalar}
use open_mama_omnm.Vector.{get_field_scalar_vector, update_scalar_vector}
use open_mama_omnm.Vector.RoundTrip.{is_scalar_vector}
use open_mama_omnm.Strings.{get_field_vector_string, update_vector_string}
use open_mama_omnm.Blob.{
  get_field_buffer, update_string, update_opaque, get_field_msg, update_sub_msg,
}
use open_mama_omnm.Field.{get_name}
use open_mama_omnm.Objects.{Objects}
use open_mama_omnm.DateTime.{get_field_date_time, update_date_time}
use open_mama_omnm.Price.{get_field_price, update_price}

-- What the rounds of the loop hand on: the target, the variable `name`, which a field without a name
-- leaves as it is, and `mSubPayload` of the iterator's field.
pub record Applying : Type 0 where
  pub dest : Handle
  pub name : CString
  pub sub : Handle

-- The C string that a pointer into the buffer points to; NULL stays NULL.
unfoldable pub text_behind : List ℕ → Option ℕ → Run CString
text_behind buf none = ret none
text_behind buf (some p) = do s ← string_at buf p; ret (some s)

-- A pointer that a getter has written, NULL where it has not.
abbrev pub pointer : Option (Option ℕ) → Option ℕ
pointer none = none
pointer (some p) = p

-- The block behind a pointer into the buffer.
abbrev pub block_behind : List ℕ → Option ℕ → Option (List ℕ)
block_behind buf none = none
block_behind buf (some p) = some (drop p buf)

-- The strings behind an array of pointers.
unfoldable pub texts_behind : List ℕ → List ℕ → Run (List (List ℕ))
texts_behind buf [] = ret []
texts_behind buf (p ∷ ps) = do s ← string_at buf p; ss ← texts_behind buf ps; ret (s ∷ ss)

module _ (mama : Mama) (src : OmnmPayloadImpl) (dest : Handle) (name : CString)
    (f : OmnmFieldImpl) where
  -- `APPLY_SCALAR_FIELD`. Where the getter writes no value, the one that is put is indeterminate.
  unfoldable pub apply_scalar : Conversion → FieldType → Run Handle
  apply_scalar convert t = do
    (status, result) ← get_field_scalar convert src (some f) true t
    elim result [
      | none ↦ fault
      | some value ↦ do (status, dest) ← update_scalar mama dest t name f.fid value; ret dest
    ]

  unfoldable pub apply_string : Run Handle
  unfolding text_behind
  apply_string = do
    (status, result) ← get_field_buffer string src (some f) true
    str ← text_behind src.payload_buffer (pointer result)
    (status, dest) ← update_string mama dest name f.fid str
    ret dest

  unfoldable pub apply_opaque : Run Handle
  apply_opaque = do
    (status, result) ← get_field_buffer opaque src (some f) true
    (status, dest) ←
        update_opaque mama dest name f.fid (block_behind src.payload_buffer (pointer result)) f.size
    ret dest

  -- The sub-message of the target and the new `mSubPayload`.
  unfoldable pub apply_msg : Handle → Run (Handle × Handle)
  apply_msg sub = do
    (status, sub) ← get_field_msg mama src (some f) true sub
    elim dest [
      | none ↦ ret (none, sub)
      | some m ↦ do
        (status, dest) ← update_sub_msg mama m name f.fid (if is_null f.location then none else sub)
        ret (dest, sub)
    ]

  unfoldable pub apply_date_time : Objects → Run Handle
  apply_date_time o = do
    (status, result) ← get_field_date_time o src (some f) (some o.create_date_time)
    (status, dest) ← update_date_time mama o dest name f.fid result
    ret dest

  unfoldable pub apply_price : Conversion → Objects → Run Handle
  apply_price convert o = do
    (status, result) ← get_field_price convert o src (some f) (some o.create_price)
    (status, dest) ← update_price mama o dest name f.fid result
    ret dest

  -- `UPDATE_VECTOR_FIELD` for numbers and for strings
  unfoldable pub apply_scalar_vector : FieldType → Run Handle
  apply_scalar_vector t = elim (get_field_scalar_vector (some f) true t).1 [
    | none ↦ ret dest
    | some (location, size) ↦ do
      (status, dest) ←
          update_scalar_vector mama dest t name f.fid (block_behind src.payload_buffer location)
            size
      ret dest
  ]

  unfoldable pub apply_vector_string : Run Handle
  unfolding texts_behind
  apply_vector_string = do
    (status, result) ← get_field_vector_string src (some f) true
    elim result [
      | none ↦ do (status, dest) ← update_vector_string mama dest name f.fid none; ret dest
      | some (places, size) ↦ if not (length places == size) then fault else do
        strings ← texts_behind src.payload_buffer places
        (status, dest) ← update_vector_string mama dest name f.fid (some strings)
        ret dest
    ]

-- The body of the loop; `name` of the state is already that of this round.
unfoldable pub apply_typed :
    Mama → Conversion → Objects → OmnmPayloadImpl → Applying → OmnmFieldImpl → Run Applying
unfolding apply_scalar apply_string apply_opaque apply_msg apply_date_time apply_price
    apply_scalar_vector apply_vector_string
apply_typed mama convert o src st f =
    if is_scalar f.field_type
    then put (apply_scalar mama src st.dest st.name f convert f.field_type)
    else if is_scalar_vector f.field_type
    then put (apply_scalar_vector mama src st.dest st.name f f.field_type)
    else elim f.field_type [
      | string ↦ put (apply_string mama src st.dest st.name f)
      | opaque ↦ put (apply_opaque mama src st.dest st.name f)
      | time ↦ put (apply_date_time mama src st.dest st.name f o)
      | price ↦ put (apply_price mama src st.dest st.name f convert o)
      | vector_string ↦ put (apply_vector_string mama src st.dest st.name f)
      | msg ↦ do
        (dest, sub) ← apply_msg mama src st.dest st.name f st.sub
        ret (record st { dest = dest; sub = sub })
      | _ ↦ ret st
    ]
  where
    put : Run Handle → Run Applying
    put r = do dest ← r; ret (record st { dest = dest })

unfoldable pub apply_field :
    Mama → Conversion → Objects → OmnmPayloadImpl → Applying → OmnmFieldImpl → Run (Flow Applying)
unfolding apply_typed
apply_field mama convert o src st f = do
  (status, name) ← get_name src (some f) none (some st.name)
  st ← apply_typed mama convert o src (elim name [ none ↦ st | some n ↦ record st { name = n } ]) f
  ret (going st)

-- `omnmmsgPayload_apply`, for a message that is put into another one
unfoldable pub apply : Mama → Conversion → Objects → Handle → Handle → Run (Status × Handle)
unfolding apply_field
apply mama convert o none src = ret (null_arg, none)
apply mama convert o (some dest) none = ret (null_arg, some dest)
apply mama convert o (some dest) (some src) = do
  st ←
      walk_all mama src (apply_field mama convert o src)
        (record { dest = some dest; name = none; sub = none })
  ret (ok, st.dest)
