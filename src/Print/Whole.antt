-- ===== src/Print/Whole.antt =====
-- `omnmmsgPayload_toString` of src/Payload.cpp.
use open_mama_omnm.Prelude.{
  ℕ, zero, suc, ◌+◌, List, [], ◌∷◌, ◌++◌, Option, none, some, ◌==◌, if◌then◌else◌, length, true,
}
use open_mama_omnm.Mama.{Mama}
use open_mama_omnm.Memory.{Run, ret, fault, stuck, ◌>>=◌, write}
use open_mama_omnm.Message.{OmnmPayloadImpl}
use open_mama_omnm.Iterator.{OmnmIterImpl, next, init, has_next}
use open_mama_omnm.Payload.{CString}
use open_mama_omnm.Payload.Put.{text_of}
use open_mama_omnm.Bridge.{Handle, get_num_fields}
use open_mama_omnm.Scalar.{Conversion}
use open_mama_omnm.Blob.{terminated}
use open_mama_omnm.Field.{get_name}
use open_mama_omnm.Objects.{Objects}
use open_mama_omnm.Print.{Printers, open_brace, get_as_string}

-- `sizeof(part)`
abbrev pub sizeof_part : ℕ
sizeof_part = 1024

module _ (mama : Mama) (convert : Conversion) (o : Objects) (printers : Printers o)
    (m : OmnmPayloadImpl) where
  -- "%s=%s" and "%s[%u]=%s"
  abbrev pub field_text : CString → ℕ → List ℕ → List ℕ
  field_text fname fid part =
      if fid == 0
      then text_of fname ++ (61 ∷ part)
      else text_of fname ++ (91 ∷ (printers.decimal fid ++ (93 ∷ 61 ∷ part)))

  -- The writes of a round to the buffer, which is large enough or not, and the new `charIdx`.
  unfoldable pub print_field : List ℕ → ℕ → OmnmIterImpl → List ℕ → Run (List ℕ × ℕ)
  print_field buf char_idx it text = do
    buf ← write buf char_idx (terminated text)
    if has_next m it
        then (do
          buf ← write buf (char_idx + length text) (terminated (44 ∷ []))
          ret (buf, char_idx + length text + 1))
        else ret (buf, char_idx + length text)

  -- The loop: `mField.mBuffer` and `charIdx` at its end, `none` where memory runs out.
  unfoldable pub print_fields : ℕ → OmnmIterImpl → List ℕ → ℕ → Run (Option (List ℕ × ℕ))
  unfolding print_field
  print_fields zero it buf char_idx = stuck
  print_fields (suc fuel) it buf char_idx = do
    (found, it) ← next mama m it
    elim found [
      | none ↦ ret (some (buf, char_idx))
      | some f ↦ do
        (status, printed) ← get_as_string convert o printers m (some f) true sizeof_part
        (ignored, name) ← get_name m (some f) none (some none)
        elim printed [
          | none ↦ fault
          | some part ↦
              let fname : CString = elim name [ none ↦ none | some s ↦ s ] in
              let bytes_in_string : ℕ = length (text_of fname) + length part + 10 in
              elim (mama.allocate buf (bytes_in_string + char_idx)) [
                | none ↦ ret none
                | some buf ↦ do
                  (buf, char_idx) ← print_field buf char_idx it (field_text fname f.fid part)
                  print_fields fuel it buf char_idx
              ]
        ]
    ]

-- `omnmmsgPayload_toString`: the block that the returned pointer points to, which is then `mField.mBuffer`
-- of the message; `none` is NULL. The fuel is that of the other loops over the iterator.
unfoldable pub to_string :
    Mama → Conversion → (o : Objects) → Printers o → Handle → Run (Option (List ℕ))
unfolding print_fields
to_string mama convert o printers none = ret none
to_string mama convert o printers (some m) = do
  counted ← get_num_fields mama (some m) true
  it ← init mama m
  elim (mama.allocate m.scratch sizeof_part) [
    | none ↦ ret none
    | some buf ↦ do
      buf ← write buf 0 (terminated open_brace)
      printed ← print_fields mama convert o printers m (m.payload_buffer_tail + 2) it buf 1
      elim printed [
        | none ↦ ret none
        | some (buf, char_idx) ↦ do buf ← write buf char_idx (terminated (125 ∷ [])); ret (some buf)
      ]
  ]
