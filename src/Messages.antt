-- ===== src/Messages.antt =====
-- Fields that hold several messages: `omnmmsgPayloadImpl_updateVectorMsgPayload` and
-- `omnmmsgPayload_updateVectorMsg` of src/Payload.cpp, and the getters of src/Payload.cpp and src/Field.cpp.
pub mod Write
pub mod Count
pub mod Read
pub mod RoundTrip
use open_mama_omnm.Prelude.{
  ℕ, zero, suc, ◌+◌, Bool, true, false, not, List, [], ◌∷◌, Option, none, some, ltb, leb, ◌==◌,
  if◌then◌else◌, length, drop, map,
}
use open_mama_omnm.Mama.{Mama, Status, ok, null_arg, invalid_arg, vector_msg}
use open_mama_omnm.Memory.{Run, ret, fault, stuck, ◌>>=◌, read32, read_bytes, write, le32}
use open_mama_omnm.Message.{OmnmFieldImpl, OmnmPayloadImpl}
use open_mama_omnm.Payload.{CString, validate_name_fid, get_field, update_field, grow, uint32_max}
use open_mama_omnm.Bridge.{Handle, create_from_byte_buffer, set_byte_buffer, other}
use open_mama_omnm.Scalar.{on_handle}

-- What `getByteSize` and `getByteBuffer` report of one of the messages: for a `mamaMsg`, those of libmama.
pub record Reported : Type 0 where
  pub byte_size : ℕ
  pub buffer : List ℕ
  pub buffer_len : ℕ

-- Those of this bridge; of NULL they report nothing, and the variables stay 0.
unfoldable pub reported : Handle → Reported
reported none = record { byte_size = 0; buffer = []; buffer_len = 0 }
reported (some m) = record {
  byte_size = m.payload_buffer_tail;
  buffer = m.payload_buffer;
  buffer_len = m.payload_buffer_tail;
}

-- `bytesRequired`
unfoldable pub bytes_required : List Reported → ℕ
bytes_required [] = 0
bytes_required (m ∷ ms) = m.byte_size + 4 + bytes_required ms

-- The loop that copies the messages to `target`, each behind its length. It returns where one of them is
-- too long.
unfoldable pub copy_messages : List ℕ → ℕ → List Reported → Run (Status × List ℕ)
copy_messages buf target [] = ret (ok, buf)
copy_messages buf target (m ∷ ms) =
    if ltb uint32_max m.buffer_len then ret (invalid_arg, buf) else do
      buf ← write buf target (le32 m.buffer_len)
      content ← read_bytes m.buffer 0 m.buffer_len
      buf ← write buf (target + 4) content
      copy_messages buf (target + 4 + m.buffer_len) ms

-- What stands behind that loop.
unfoldable pub put_messages :
    Mama → OmnmPayloadImpl → CString → ℕ → ℕ → Status × List ℕ → Run (Status × Handle)
put_messages mama m name fid size (ok, buf) =
    on_handle (update_field mama (record m { scratch = buf }) vector_msg name fid (some buf) size)
put_messages mama m name fid size (status, buf) = ret (status, some (record m { scratch = buf }))

-- `omnmmsgPayload_updateVectorMsg`
unfoldable pub update_vector_msg :
    Mama → Handle → CString → ℕ → Option (List Reported) → Run (Status × Handle)
unfolding copy_messages put_messages
update_vector_msg mama msg name fid value = elim (validate_name_fid name fid) [
  | some status ↦ ret (status, msg)
  | none ↦ elim msg [
    | none ↦ ret (null_arg, none)
    | some m ↦ elim value [
      | none ↦ ret (null_arg, some m)
      | some messages ↦ do
        let size = bytes_required messages
        copied ← copy_messages (grow mama m.scratch size) 0 messages
        put_messages mama m name fid size copied
    ]
  ]
]

-- `omnmmsgPayload_addVectorMsg`
abbrev pub add_vector_msg :
    Mama → Handle → CString → ℕ → Option (List Reported) → Run (Status × Handle)
add_vector_msg = update_vector_msg

-- `omnmmsgPayloadImpl_updateVectorMsgPayload`, for messages other than the target
unfoldable pub update_vector_msg_payload :
    Mama → Handle → CString → ℕ → Option (List Handle) → Run (Status × Handle)
unfolding update_vector_msg
update_vector_msg_payload mama msg name fid none = update_vector_msg mama msg name fid none
update_vector_msg_payload mama msg name fid (some messages) =
    update_vector_msg mama msg name fid (some (map reported messages))

-- The first loop of `omnmmsgFieldPayload_getVectorMsg`. Each round reads the length at the front of the
-- data. A round moves on by four bytes at least, so that fuel `size` is enough.
unfoldable pub count_messages : ℕ → List ℕ → ℕ → ℕ → ℕ → Run ℕ
count_messages zero buf p size i = if leb size i then ret 0 else stuck
count_messages (suc fuel) buf p size i = elim (leb size i) [
  | true ↦ ret 0
  | false ↦ do
    payload_len ← read32 buf p
    count ← count_messages fuel buf p size (i + payload_len + 4)
    ret (suc count)
]

-- The message of a round: a new one, or that of the last call.
unfoldable pub take_message : Mama → Handle → List ℕ → ℕ → Run (Status × Handle)
take_message mama none block len = create_from_byte_buffer mama true (some block) len
take_message mama (some m) block len = set_byte_buffer mama (some m) (some (other block)) len

-- The second loop; `slots` is the array after it was enlarged. The status is that of the last round.
unfoldable pub read_messages :
    ℕ → Mama → List ℕ → ℕ → ℕ → ℕ → List Handle → Status → Run (Status × List Handle)
unfolding take_message
read_messages zero mama buf p size i slots last = if leb size i then ret (last, []) else stuck
read_messages (suc fuel) mama buf p size i slots last = elim (leb size i) [
  | true ↦ ret (last, [])
  | false ↦ elim slots [
    | [] ↦ fault
    | slot ∷ slots ↦ do
      payload_len ← read32 buf p
      (status, m) ← take_message mama slot (drop (p + i + 4) buf) payload_len
      (status, ms) ← read_messages fuel mama buf p size (i + payload_len + 4) slots status
      ret (status, m ∷ ms)
  ]
]

-- `omnmmsgFieldPayload_getVectorMsg`: the array and `*size`
unfoldable pub get_field_vector_msg :
    Mama
    → OmnmPayloadImpl
    → Option OmnmFieldImpl
    → Bool
    → List Handle
    → Run (Status × Option (List Handle × ℕ))
unfolding count_messages read_messages
get_field_vector_msg mama msg none given slots = ret (null_arg, none)
get_field_vector_msg mama msg (some f) given slots =
    if not given then ret (null_arg, none) else elim f.location [
      | none ↦ if f.size == 0 then ret (ok, some ([], 0)) else fault
      | some p ↦ do
        count ← count_messages f.size msg.payload_buffer p f.size 0
        (status, ms) ← read_messages f.size mama msg.payload_buffer p f.size 0 slots ok
        ret (status, some (ms, count))
    ]

-- `omnmmsgPayload_getVectorMsg`; `mField` of the message, in which the field is looked up, is not part of
-- the result.
unfoldable pub get_vector_msg :
    Mama → Handle → Bool → CString → ℕ → List Handle → Run (Status × Option (List Handle × ℕ))
get_vector_msg mama msg given name fid slots = elim (validate_name_fid name fid) [
  | some status ↦ ret (status, none)
  | none ↦ elim msg [
    | none ↦ ret (null_arg, none)
    | some m ↦ do
      (status, field) ← get_field mama m name fid
      elim field [
        | none ↦ ret (status, none)
        | some f ↦ get_field_vector_msg mama m (some f) given slots
      ]
  ]
]
