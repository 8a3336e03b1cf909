-- ===== src/Bridge.antt =====
-- The functions of the payload bridge in src/Payload.cpp that treat a message as a whole:
-- `omnmmsgPayload_create` up to `omnmmsgPayload_createFromByteBuffer`, and the extender closure.
pub mod Clear
pub mod Serialize
pub mod Overread
pub mod Copy
pub mod Count
use open_mama_omnm.Prelude.{
  ℕ, ◌+◌, Bool, true, false, not, ◌&&◌, ◌||◌, List, [], ◌∷◌, ◌++◌, Option, none, some, ltb, leb,
  ◌==◌, if◌then◌else◌, length, replicate,
}
use open_mama_omnm.Mama.{
  Mama, Status, ok, null_arg, invalid_arg, nomem, wrong_field_type, not_implemented,
}
use open_mama_omnm.Memory.{Run, ret, fault, ◌>>=◌, read8, read_bytes, write}
use open_mama_omnm.Message.{
  OmnmFieldImpl, OmnmPayloadImpl, new_payload, omnm_protocol_version, sizeof_header,
  mama_payload_id_omnm,
}
use open_mama_omnm.Message as Message
use open_mama_omnm.Iterator.{Flow, going, walk_all}
use open_mama_omnm.Payload.{is_null}

-- A message argument, `none` for NULL. A `Bool` argument says that an out parameter is not NULL.
abbrev pub Handle : Type 0
Handle = Option OmnmPayloadImpl

-- `omnmmsgPayload_init`: the status and the identifier
abbrev pub init : Status × ℕ
init = (ok, mama_payload_id_omnm)

-- `omnmmsgPayload_getType`
abbrev pub get_type : ℕ
get_type = mama_payload_id_omnm

-- `omnmmsgPayload_create`
unfoldable pub create : Mama → Bool → Run (Status × Handle)
create mama given =
    if not given then ret (null_arg, none) else do msg ← new_payload mama; ret (ok, some msg)

-- `omnmmsgPayload_destroy`: afterwards there is no message.
unfoldable pub destroy : Handle → Status × Handle
destroy none = (null_arg, none)
destroy (some msg) = (ok, none)

-- `omnmmsgPayload_createForTemplate` and `omnmmsgPayload_getSendSubject`
abbrev pub create_for_template : Status
create_for_template = not_implemented

abbrev pub get_send_subject : Status
get_send_subject = not_implemented

-- `omnmmsgPayload_clear`
unfoldable pub clear : Handle → Run (Status × Handle)
clear none = ret (null_arg, none)
clear (some msg) = do cleared ← Message.clear msg; ret (ok, some cleared)

-- `omnmmsgPayload_setParent`
unfoldable pub set_parent : Handle → Option ℕ → Status × Handle
set_parent none parent = (null_arg, none)
set_parent (some msg) parent = (ok, some (record msg { parent = parent }))

-- `omnmmsgPayload_getByteSize`
unfoldable pub get_byte_size : Handle → Bool → Run (Status × Option ℕ)
get_byte_size none given = ret (null_arg, none)
get_byte_size (some msg) given = if given then ret (ok, some msg.payload_buffer_tail) else fault

-- `omnmmsgPayload_getNumFields`
unfoldable pub get_num_fields : Mama → Handle → Bool → Run (Status × Option ℕ)
get_num_fields mama none given = ret (null_arg, none)
get_num_fields mama (some msg) given =
    if not given
    then ret (null_arg, none)
    else do count ← walk_all mama msg (λ n f. ret (going (n + 1))) 0; ret (ok, some count)

-- `omnmmsgPayload_iterateFields`: the fields that the callback is called with, in order. `given` says
-- that parent, field and callback are not NULL; the callback leaves the message alone.
unfoldable pub iterate_fields : Mama → Handle → Bool → Run (Status × List OmnmFieldImpl)
iterate_fields mama none given = ret (null_arg, [])
iterate_fields mama (some msg) given = if not given then ret (null_arg, []) else do
  calls ← walk_all mama msg (λ calls f. ret (going (calls ++ (f ∷ [])))) []
  ret (ok, calls)

-- `omnmmsgPayload_serialize`, `omnmmsgPayload_getByteBuffer`: the block and the length that they
-- report.
unfoldable pub serialize : Handle → Bool → Status × Option (List ℕ × ℕ)
serialize none given = (null_arg, none)
serialize (some msg) given =
    if given then (ok, some (msg.payload_buffer, msg.payload_buffer_tail)) else (null_arg, none)

unfoldable pub get_byte_buffer : Handle → Bool → Status × Option (List ℕ × ℕ)
get_byte_buffer none given = (null_arg, none)
get_byte_buffer (some msg) given =
    if not given then (null_arg, none) else serialize (some msg) given

-- The block that `unSerialize` reads: the payload buffer of the message itself, or another one.
pub data Source : Type 0 where
  own : Source
  other : List ℕ → Source

abbrev pub block_of : OmnmPayloadImpl → Source → List ℕ
block_of msg own = msg.payload_buffer
block_of msg (other block) = block

-- The copy into the buffer, which is skipped where source and target are one block. (A block that had
-- to be enlarged is another one, and the source dangles.)
unfoldable pub fill : OmnmPayloadImpl → Source → List ℕ → ℕ → Run (List ℕ)
fill msg own buf len = if leb len (length msg.payload_buffer) then ret buf else fault
fill msg (other block) buf len = do data_bytes ← read_bytes block 0 len; write buf 0 data_bytes

-- `omnmmsgPayload_unSerialize`
unfoldable pub un_serialize : Mama → Handle → Option Source → ℕ → Run (Status × Handle)
unfolding fill
un_serialize mama none buffer len = ret (null_arg, none)
un_serialize mama (some msg) none len = ret (null_arg, some msg)
un_serialize mama (some msg) (some source) len = if len == 0 then ret (null_arg, some msg) else do
  head ← read_bytes (block_of msg source) 0 sizeof_header
  version ← read8 head 1
  remaining ← read8 head 2
  if ltb omnm_protocol_version version
      then ret (wrong_field_type, some msg)
      else elim (mama.allocate (replicate (length msg.payload_buffer) 0) len) [
        | none ↦
            ret (
              nomem,
              some (record msg { payload_buffer = replicate (length msg.payload_buffer) 0 }),
            )
        | some buf ↦ do
          filled ← fill msg source buf len
          ret (
            ok,
            some (record msg {
              payload_buffer = filled;
              payload_buffer_tail = len;
              header = record {
                header_type = msg.header.header_type;
                wire_format_version = version;
                remaining_header_size = remaining;
              };
            }),
          )
      ]

-- `omnmmsgPayload_setByteBuffer`
unfoldable pub set_byte_buffer : Mama → Handle → Option Source → ℕ → Run (Status × Handle)
set_byte_buffer mama msg buffer len =
    if is_null msg || is_null buffer
    then ret (null_arg, msg)
    else if len == 0
    then ret (invalid_arg, msg)
    else un_serialize mama msg buffer len

-- `omnmmsgPayload_createFromByteBuffer`: the new message, also where its bytes are refused
unfoldable pub create_from_byte_buffer : Mama → Bool → Option (List ℕ) → ℕ → Run (Status × Handle)
create_from_byte_buffer mama given none len = ret (null_arg, none)
create_from_byte_buffer mama given (some block) len =
    if not given
    then ret (null_arg, none)
    else if len == 0
    then ret (invalid_arg, none)
    else do (created, msg) ← create mama true; un_serialize mama msg (some (other block)) len

-- What `*copy` is: NULL, another message, or the message itself.
pub data Target : Type 0 where
  fresh : Target
  into : OmnmPayloadImpl → Target
  itself : Target

-- `omnmmsgPayload_copy`: the target afterwards. `none` is a `copy` that is NULL.
unfoldable pub copy : Mama → Handle → Option Target → Run (Status × Handle)
copy mama none target = ret (null_arg, none)
copy mama (some msg) none = ret (null_arg, none)
copy mama (some msg) (some fresh) = do
  (status, created) ← create mama true
  un_serialize mama created (some (other msg.payload_buffer)) msg.payload_buffer_tail
copy mama (some msg) (some (into dest)) =
    un_serialize mama (some dest) (some (other msg.payload_buffer)) msg.payload_buffer_tail
copy mama (some msg) (some itself) = un_serialize mama (some msg) (some own) msg.payload_buffer_tail

-- `omnmmsgPayload_getNativeMsg`
unfoldable pub get_native_msg : Handle → Bool → Status × Handle
get_native_msg none given = (null_arg, none)
get_native_msg (some msg) given = if given then (ok, some msg) else (null_arg, none)

-- `omnmmsgPayloadImpl_setExtenderClosure` and `omnmmsgPayloadImpl_getExtenderClosure`
unfoldable pub set_extender_closure : Handle → Option ℕ → Status × Handle
set_extender_closure none closure = (null_arg, none)
set_extender_closure (some msg) none = (null_arg, some msg)
set_extender_closure (some msg) (some c) = (ok, some (record msg { extender_closure = some c }))

unfoldable pub get_extender_closure : Handle → Bool → Status × Option ℕ
get_extender_closure none given = (null_arg, none)
get_extender_closure (some msg) given =
    if given then (ok, msg.extender_closure) else (null_arg, none)
