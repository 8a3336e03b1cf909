-- ===== src/Apply/Nested.antt =====
-- What the case of sub-messages of `omnmmsgPayload_apply` in src/Payload.cpp puts into the target.
use open_mama_omnm.Prelude.{
  ℕ, ◌≤◌, ◌≡◌, ◌==◌, refl, sym, List, ◌∷◌, ◌++◌, true, false, none, some, length, replicate, arith,
}
use mathlib.Core.Path.{subst}
use open_mama_omnm.Mama.{Mama, ok, msg}
use open_mama_omnm.Memory.{ret}
use open_mama_omnm.FieldType.{same_type}
use open_mama_omnm.FieldType.Laws.{same_type_refl}
use open_mama_omnm.Message.{OmnmPayloadImpl, omnm_protocol_version}
use open_mama_omnm.Payload.{CString, update_field}
use open_mama_omnm.Payload.Source.{update_field-front}
use open_mama_omnm.Payload.Upserted.{Enough}
use open_mama_omnm.Bridge.{
  Handle, other, un_serialize, serialize, create_from_byte_buffer, set_byte_buffer,
}
use open_mama_omnm.Bridge.Clear.{create-Represents}
use open_mama_omnm.Bridge.Serialize.{un_serialize_holds}
use open_mama_omnm.Blob.{get_field_msg, update_sub_msg}
use open_mama_omnm.Apply.{apply_msg}
use open_mama_omnm.Apply.Field.{shown}
use open_mama_omnm.Wire.{Entry, Represents, encode_all}
use open_mama_omnm.Wire.Data.{drop-data}

-- A message of the wire format that is supported.
abbrev pub IsMessage : List ℕ → Type 0
IsMessage bytes =
    (kind version remaining : ℕ) × (wire : List ℕ) × (bytes ≡ kind ∷ version ∷ remaining ∷ wire)
    × (version ≤ omnm_protocol_version)

module _ (mama : Mama) (enough : Enough mama) (bytes rest : List ℕ) (m : IsMessage bytes) where
  -- A message reads such bytes, whatever it held.
  read_message :
      (sub : OmnmPayloadImpl)
      → (sub' : OmnmPayloadImpl) × (extra : List ℕ) × (un_serialize mama
            (some sub)
            (some (other (bytes ++ rest)))
            (length bytes)
          ≡ ret (ok, some sub'))
        × (sub'.payload_buffer ≡ bytes ++ extra)
        × (sub'.payload_buffer_tail ≡ length bytes)
  read_message sub =
      let (kind, version, remaining, wire, same, supported) = m in
      let (buf, memory) = enough (replicate (length sub.payload_buffer) 0) (length bytes) in
      subst
        (λ b.
          (buf : List ℕ)
          → mama.allocate (replicate (length sub.payload_buffer) 0) (length b) ≡ some buf
          → (sub' : OmnmPayloadImpl) × (extra : List ℕ) × (un_serialize mama (some sub)
                (some (other (b ++ rest))) (length b)
              ≡ ret (ok, some sub'))
            × (sub'.payload_buffer ≡ b ++ extra)
            × (sub'.payload_buffer_tail ≡ length b))
        (sym same)
        (λ buf. un_serialize_holds mama sub kind version remaining wire rest buf supported) buf
        memory

  some_message : (length bytes == 0) ≡ false
  some_message =
      let (kind, version, remaining, wire, same, supported) = m in
      subst (λ b. (length b == 0) ≡ false) (sym same) (ground arith)

module _ (mama : Mama) (enough : Enough mama) (src : OmnmPayloadImpl) (before after : List Entry)
    (e : Entry) (r : Represents mama src (before ++ (e ∷ after))) (m : IsMessage e.bytes)
    (typed : e.field_type ≡ msg) where
  -- The getter of the field reads its bytes into the sub-message, or into a new one.
  get_field_msg-message :
      (sub : Handle)
      → (sub' : OmnmPayloadImpl) × (extra : List ℕ) × (get_field_msg mama src
            (some (shown mama src before after e r))
            true
            sub
          ≡ ret (ok, some sub'))
        × (sub'.payload_buffer ≡ e.bytes ++ extra)
        × (sub'.payload_buffer_tail ≡ length e.bytes)
  unfolding get_field_msg create_from_byte_buffer set_byte_buffer same_type
  get_field_msg-message none =
      let (blank, made, _, _) = create-Represents mama in
      let (sub', extra, run, holds, tail) =
        read_message mama enough e.bytes (encode_all mama after ++ r.slack) m blank in
      (
        sub',
        extra,
        rw
            (
              drop-data mama src before after e r,
              typed,
              same_type_refl msg,
              some_message mama enough e.bytes (encode_all mama after ++ r.slack) m,
              made,
              run,
            )
            refl,
        holds,
        tail,
      )
  get_field_msg-message (some sub) =
      let (sub', extra, run, holds, tail) =
        read_message mama enough e.bytes (encode_all mama after ++ r.slack) m sub in
      (
        sub',
        extra,
        rw
            (
              drop-data mama src before after e r,
              typed,
              same_type_refl msg,
              some_message mama enough e.bytes (encode_all mama after ++ r.slack) m,
              run,
            )
            refl,
        holds,
        tail,
      )

  -- A sub-message is put as it is.
  pub apply_msg-update_field :
      (dest : OmnmPayloadImpl) (name : CString) (sub : Handle)
      → (sub' : OmnmPayloadImpl) × ((dest' : OmnmPayloadImpl)
          → update_field mama dest e.field_type name e.fid (some e.bytes) (length e.bytes)
            ≡ ret (ok, dest')
          → apply_msg mama src (some dest) name (shown mama src before after e r) sub
            ≡ ret (some dest', some sub'))
  unfolding apply_msg update_sub_msg serialize
  apply_msg-update_field dest name sub =
      let (sub', extra, got, holds, tail) = get_field_msg-message sub in
      (
        sub',
        λ dest' put.
            rw
              (
                got,
                holds,
                tail,
                update_field-front e.bytes extra mama dest msg name e.fid,
                subst
                    (λ t.
                      update_field mama dest t name e.fid (some e.bytes) (length e.bytes)
                      ≡ ret (ok, dest'))
                    typed put,
              )
              refl,
      )
