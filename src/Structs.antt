-- ===== src/Structs.antt =====
-- What the accessors of date-times and of prices of src/Payload.cpp and src/Field.cpp have in common: a
-- C struct in the message stands for an object of libmama.
pub mod RoundTrip
use open_mama_omnm.Prelude.{
  ℕ, zero, suc, ◌+◌, ◌*◌, ◌/◌, Bool, true, false, not, List, [], ◌∷◌, Option, none, some, ◌==◌,
  if◌then◌else◌, length, map,
}
use open_mama_omnm.Mama.{Mama, Status, ok, null_arg, FieldType}
use open_mama_omnm.Memory.{Run, ret, fault, ◌>>=◌}
use open_mama_omnm.Message.{OmnmFieldImpl, OmnmPayloadImpl}
use open_mama_omnm.Payload.{CString, validate_name_fid, get_field, update_field, update_known_field}
use open_mama_omnm.Bridge.{Handle}
use open_mama_omnm.Scalar.{on_handle}
use open_mama_omnm.Blocks.{gather}

pub record Struct (T : Type 0) : Type 0 where
  -- the field types of one value and of a vector, and the size of the struct
  pub field_type : FieldType
  pub vector_type : FieldType
  pub width : ℕ
  -- the bytes of the struct that an object is converted to
  pub bytes : T → List ℕ
  -- the conversion of the struct at a place into an object
  pub read : List ℕ → ℕ → T → Run T
  -- libmama's `create` and `clear`
  pub create : T
  pub clear : T → T

module _ {T : Type 0} (s : Struct T) where
  unfoldable pub update_value : Mama → Handle → CString → ℕ → Option T → Run (Status × Handle)
  update_value mama none name fid value = ret (null_arg, none)
  update_value mama (some msg) name fid none = ret (null_arg, some msg)
  update_value mama (some msg) name fid (some value) =
      on_handle (update_field mama msg s.field_type name fid (some (s.bytes value)) s.width)

  -- The message is the one that is passed, not the parent of the field.
  unfoldable pub update_field_value :
      Mama → Handle → Option OmnmFieldImpl → Option T → Run (Status × Handle)
  update_field_value mama none f value = ret (null_arg, none)
  update_field_value mama (some msg) none value = ret (null_arg, some msg)
  update_field_value mama (some msg) (some f) none = ret (null_arg, some msg)
  update_field_value mama (some msg) (some f) (some value) =
      on_handle (update_known_field mama msg s.field_type f (some (s.bytes value)) s.width)

  unfoldable pub update_vector :
      Mama → Handle → CString → ℕ → Option (List T) → Run (Status × Handle)
  update_vector mama msg name fid value = elim (validate_name_fid name fid) [
    | some status ↦ ret (status, msg)
    | none ↦ elim msg [
      | none ↦ ret (null_arg, none)
      | some m ↦ elim value [
        | none ↦ ret (null_arg, some m)
        | some values ↦ do
          filled ← gather mama m (length values * s.width) (map s.bytes values)
          on_handle (
              update_field mama filled s.vector_type name fid (some filled.scratch)
                (length values * s.width))
      ]
    ]
  ]

  -- An object of the array of the last call is cleared and used again.
  abbrev pub renew : Option T → T
  renew none = s.create
  renew (some t) = s.clear t

  -- The loop over `count` structs from `p` on; `slots` is the array after it was enlarged.
  unfoldable pub read_all : ℕ → List ℕ → ℕ → List (Option T) → Run (List T)
  read_all zero buf p slots = ret []
  read_all (suc count) buf p [] = fault
  read_all (suc count) buf p (slot ∷ slots) = do
    t ← s.read buf p (renew slot)
    ts ← read_all count buf (p + s.width) slots
    ret (t ∷ ts)

  -- The array and `*size`
  unfoldable pub get_field_vector :
      OmnmPayloadImpl
      → Option OmnmFieldImpl
      → Bool
      → List (Option T)
      → Run (Status × Option (List T × ℕ))
  get_field_vector msg none given slots = ret (null_arg, none)
  get_field_vector msg (some f) given slots =
      if not given then ret (null_arg, none) else elim f.location [
        | none ↦ if f.size / s.width == 0 then ret (ok, some ([], 0)) else fault
        | some p ↦ do
          ts ← read_all (f.size / s.width) msg.payload_buffer p slots
          ret (ok, some (ts, f.size / s.width))
      ]

  -- `mField` of the message, in which the field is looked up, is not part of the result.
  unfoldable pub get_vector :
      Mama → Handle → Bool → CString → ℕ → List (Option T) → Run (Status × Option (List T × ℕ))
  get_vector mama msg given name fid slots = elim (validate_name_fid name fid) [
    | some status ↦ ret (status, none)
    | none ↦ elim msg [
      | none ↦ ret (null_arg, none)
      | some m ↦ do
        (status, field) ← get_field mama m name fid
        elim field [ none ↦ ret (status, none) | some f ↦ get_field_vector m (some f) given slots ]
    ]
  ]
