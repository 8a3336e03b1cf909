-- ===== src/Field.antt =====
-- The accessors of a field by itself, of src/Field.cpp, and the life of an iterator, of src/Iterator.cpp.
use open_mama_omnm.Prelude.{ℕ, Bool, true, not, List, Option, none, some, ◌==◌, if◌then◌else◌}
use open_mama_omnm.Mama.{Mama, Status, FieldType, ok, null_arg, invalid_arg, not_implemented}
use open_mama_omnm.Memory.{Run, ret, ◌>>=◌, read8, string_at}
use open_mama_omnm.Message.{OmnmFieldImpl, OmnmPayloadImpl, null_field}
use open_mama_omnm.Iterator.{OmnmIterImpl, begin, init}
use open_mama_omnm.Payload.{CString, get_field}
use open_mama_omnm.Bridge.{Handle}

-- `omnmmsgFieldPayload_create`
abbrev pub create : Mama → Status × Option OmnmFieldImpl
create mama = (ok, some (null_field mama))

-- `omnmmsgFieldPayload_getType`
unfoldable pub get_type : Option OmnmFieldImpl → Bool → Status × Option FieldType
get_type none given = (null_arg, none)
get_type (some f) given = if given then (ok, some f.field_type) else (null_arg, none)

-- `omnmmsgFieldPayload_getFid`
unfoldable pub get_fid : Option OmnmFieldImpl → Bool → Status × Option ℕ
get_fid none given = (null_arg, none)
get_fid (some f) given = if given then (ok, some f.fid) else (null_arg, none)

-- The name in the buffer, if it is not empty; otherwise `*result` stays as it was.
unfoldable pub own_name : List ℕ → Option ℕ → CString → Run CString
own_name buf none result = ret result
own_name buf (some p) result = do
  c ← read8 buf p
  if c == 0 then ret result else (do s ← string_at buf p; ret (some s))

-- `omnmmsgFieldPayload_getName`: `result` is what `*result` held before, and `described` the name that
-- `mamaFieldDescriptor_getName` gave, if there was a descriptor or a dictionary with one.
unfoldable pub get_name :
    OmnmPayloadImpl
    → Option OmnmFieldImpl
    → CString
    → Option CString
    → Run (Status × Option CString)
unfolding own_name
get_name msg none described result = ret (null_arg, none)
get_name msg (some f) described none = ret (null_arg, none)
get_name msg (some f) described (some result) = do
  name ← own_name msg.payload_buffer f.name result
  ret (ok, some (elim described [ none ↦ name | some s ↦ some s ]))

-- A dictionary of libmama: the descriptor of a fid or of a name, and the name of a descriptor.
pub record Dictionary : Type 1 where
  pub Descriptor : Type 0
  pub descriptor_by_fid : ℕ → Status × Option Descriptor
  pub descriptor_by_name : List ℕ → Status × Option Descriptor
  pub descriptor_name : Descriptor → CString

-- `*result` is written where the dictionary returns ok; `none` otherwise.
abbrev pub found_descriptor {ℓ} : {D : Type ℓ} → Status × Option D → Status × Option (Option D)
found_descriptor (ok, result) = (ok, some result)
found_descriptor (status, result) = (status, none)

-- `omnmmsgFieldPayload_getDescriptor`
unfoldable pub get_descriptor :
    (d : Dictionary)
    → OmnmPayloadImpl
    → Option OmnmFieldImpl
    → Bool
    → Run (Status × Option (Option d.Descriptor))
get_descriptor d msg none given = ret (null_arg, none)
get_descriptor d msg (some f) given =
    if not given
    then ret (null_arg, none)
    else if not (f.fid == 0)
    then ret (found_descriptor (d.descriptor_by_fid f.fid))
    else elim f.name [
      | none ↦ ret (invalid_arg, none)
      | some p ↦ do
        s ← string_at msg.payload_buffer p
        ret (found_descriptor (d.descriptor_by_name s))
    ]

-- The name that `omnmmsgFieldPayload_getName` takes from a dictionary, where no descriptor is given.
unfoldable pub described_name :
    (d : Dictionary) → OmnmPayloadImpl → Option OmnmFieldImpl → Run CString
unfolding get_descriptor
described_name d msg f = do
  (status, result) ← get_descriptor d msg f true
  ret (elim result [
    | none ↦ none
    | some found ↦ elim found [ none ↦ none | some descriptor ↦ d.descriptor_name descriptor ]
  ])

-- `omnmmsgFieldPayload_updateSubMsg`
abbrev pub update_sub_msg : Status
update_sub_msg = not_implemented

-- `omnmmsgPayload_getField`: the field that the caller is given is `mField` of the message, which keeps
-- its contents where nothing is found.
unfoldable pub get_message_field : Mama → Handle → Bool → CString → ℕ → Run (Status × Handle)
get_message_field mama none given name fid = ret (null_arg, none)
get_message_field mama (some msg) given name fid =
    if not given then ret (null_arg, some msg) else do
      (status, found) ← get_field mama msg name fid
      ret (status, some (elim found [ none ↦ msg | some f ↦ record msg { field = f } ]))

-- `omnmmsgPayloadIter_create`, where the allocation succeeds
unfoldable pub create_iterator : Mama → Handle → Bool → Run (Status × Option OmnmIterImpl)
create_iterator mama none given = ret (null_arg, none)
create_iterator mama (some msg) given =
    if not given then ret (null_arg, none) else do it ← init mama msg; ret (ok, some it)

-- `omnmmsgPayloadIter_associate`. The message that the iterator refers to is not changed.
unfoldable pub associate : Mama → Handle → Option OmnmIterImpl → Run (Status × Option OmnmIterImpl)
associate mama none it = ret (null_arg, it)
associate mama (some msg) none = ret (null_arg, none)
associate mama (some msg) (some it) = do (first, it') ← begin mama msg it; ret (ok, some it')

-- `omnmmsgPayloadIter_destroy`
unfoldable pub destroy_iterator : Option OmnmIterImpl → Status × Option OmnmIterImpl
destroy_iterator none = (null_arg, none)
destroy_iterator (some it) = (ok, none)

-- `omnmmsgFieldPayload_setParent`: the status, and the message that functions on the field then take as
-- its parent
abbrev pub set_field_parent : OmnmPayloadImpl → Status × OmnmPayloadImpl
set_field_parent parent = (not_implemented, parent)
