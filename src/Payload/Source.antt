-- ===== src/Payload/Source.antt =====
-- `addField` and `updateField` of src/Payload.cpp read no more of the caller's block than the size they
-- are given.
use open_mama_omnm.Prelude.{
  ℕ, ◌≡◌, refl, sym, ap, ◌∙◌, List, [], ◌++◌, none, some, length, not, ◌&&◌, ◌==◌, if◌then◌else◌,
  inl, inr, Bool-cases, Option-cases,
}
use mathlib.Core.Path.{fun_ext}
use open_mama_omnm.Mama.{Mama, FieldType, wrong_field_type}
use open_mama_omnm.Memory.{ret, ◌>>=◌, read_bytes}
use open_mama_omnm.Memory.Laws.{read_bytes_all, read_bytes-append}
use open_mama_omnm.FieldType.{same_type, are_field_types_castable}
use open_mama_omnm.Message.{OmnmFieldImpl, OmnmPayloadImpl}
use open_mama_omnm.Payload.{
  CString, put_field, add_field, update_field, update_known_field, find_field_in_buffer,
  validate_name_fid, grow, is_null,
}

module _ (bytes extra : List ℕ) where
  front : read_bytes (bytes ++ extra) 0 (length bytes) ≡ read_bytes bytes 0 (length bytes)
  front = read_bytes-append [] bytes extra 0 (length bytes) refl refl ∙ sym (read_bytes_all bytes)

  put_field-front :
      (mama : Mama) (buf : List ℕ) (p : ℕ) (type : FieldType) (name : CString) (fid : ℕ)
      → put_field mama buf p type name fid (bytes ++ extra) (length bytes)
        ≡ put_field mama buf p type name fid bytes (length bytes)
  unfolding put_field
  put_field-front mama buf p type name fid = rw front refl

  pub add_field-front :
      (mama : Mama) (msg : OmnmPayloadImpl) (type : FieldType) (name : CString) (fid : ℕ)
      → add_field mama msg type name fid (some (bytes ++ extra)) (length bytes)
        ≡ add_field mama msg type name fid (some bytes) (length bytes)
  unfolding add_field
  add_field-front mama msg type name fid = elim (Option-cases (validate_name_fid name fid)) [
    | inl valid ↦
        rw
          (
            valid,
            put_field-front mama (grow mama msg.payload_buffer _) msg.payload_buffer_tail type name
                fid,
          )
          refl
    | inr (status, invalid) ↦ rw invalid refl
  ]

  known_front :
      (mama : Mama) (msg : OmnmPayloadImpl) (type : FieldType) (field : OmnmFieldImpl)
      → update_known_field mama msg type field (some (bytes ++ extra)) (length bytes)
        ≡ update_known_field mama msg type field (some bytes) (length bytes)
  unfolding update_known_field
  known_front mama msg type field =
      elim (Bool-cases (
        not (same_type field.field_type type)
        && not (are_field_types_castable field.field_type type))) [
          | inl wrong ↦ rw wrong refl
          | inr right ↦ elim (Option-cases field.location) [
            | inl nowhere ↦ rw (right, nowhere) refl
            | inr (p, placed) ↦ rw (right, placed, front) refl
          ]
        ]

  -- Nor does `updateField`.
  pub update_field-front :
      (mama : Mama) (msg : OmnmPayloadImpl) (type : FieldType) (name : CString) (fid : ℕ)
      → update_field mama msg type name fid (some (bytes ++ extra)) (length bytes)
        ≡ update_field mama msg type name fid (some bytes) (length bytes)
  unfolding update_field
  update_field-front mama msg type name fid = elim (Bool-cases (is_null name && fid == 0)) [
    | inl nothing ↦ rw nothing refl
    | inr given ↦ rw given (
        ap (λ k. find_field_in_buffer mama msg name fid >>= k)
          (fun_ext (elim [
            | none ↦ add_field-front mama msg type name fid
            | some f ↦
                ap
                  (λ r.
                    if not (same_type f.field_type type)
                      && not (are_field_types_castable f.field_type type)
                    then ret (wrong_field_type, msg)
                    else r)
                  (known_front mama msg type f)
          ])))
  ]
