-- ===== src/Payload/Added.antt =====
-- A field that `addField` of src/Payload.cpp appends is the one that `findFieldInBuffer` finds.
use open_mama_omnm.Prelude.{
  ℕ, ◌≤◌, ◌<◌, ◌≡◌, inl, inr, refl, List, [], ◌∷◌, ◌++◌, true, none, some, ◌==◌, length, arith,
  Bool-cases,
}
use open_mama_omnm.Mama.{Mama, FieldType, ok}
use open_mama_omnm.Memory.{ret}
use open_mama_omnm.Message.{OmnmPayloadImpl}
use open_mama_omnm.Payload.{CString, validate_name_fid, add_field, get_field, uint32_max}
use open_mama_omnm.Payload.Find.{
  Location, locate, NoneSelected, selects, Selects→selects, selects→Selects,
  find_field_in_buffer-locate,
}
use open_mama_omnm.Payload.Add.{needed, add_field-append}
use open_mama_omnm.Payload.Put.{entry_of, text_of}
use open_mama_omnm.Payload.Update.{place}
use open_mama_omnm.Wire.{Entry, IsEntry, Represents, Selects, Names, view}

-- An entry behind those that are not asked for is the first that is.
pub locate-append :
    (name : CString) (fid : ℕ) (es : List Entry) (e : Entry) (after : List Entry)
    → NoneSelected name fid es
    → Selects name fid e
    → locate name fid (es ++ (e ∷ after)) ≡ some (record { before = es; entry = e; after = after })
unfolding locate
locate-append name fid [] e after missed hit = rw (Selects→selects name fid e hit) refl
locate-append name fid (f ∷ es) e after missed hit = elim (Bool-cases (selects name fid f)) [
  | inl wrong ↦ absurd (missed.0 (selects→Selects name fid f wrong))
  | inr other ↦ rw (other, locate-append name fid es e after missed.1 hit) refl
]

pub locate-none :
    (name : CString) (fid : ℕ) (es : List Entry)
    → NoneSelected name fid es
    → locate name fid es ≡ none
unfolding locate
locate-none name fid [] missed = refl
locate-none name fid (f ∷ es) missed = elim (Bool-cases (selects name fid f)) [
  | inl wrong ↦ absurd (missed.0 (selects→Selects name fid f wrong))
  | inr other ↦ rw (other, locate-none name fid es missed.1) refl
]

text_of-Names :
    (name : CString) (fid : ℕ)
    → validate_name_fid name fid ≡ none
    → (fid == 0) ≡ true
    → Names name (text_of name)
unfolding validate_name_fid Names
text_of-Names none fid h z = absurd (ground arith)
text_of-Names (some []) fid h z = absurd (ground arith)
text_of-Names (some (c ∷ s)) fid h z = (λ e. cc, refl)

-- What `addField` writes can be asked for with the same name and fid.
pub entry_of-Selects :
    (type : FieldType) (name : CString) (fid : ℕ) (bytes : List ℕ)
    → validate_name_fid name fid ≡ none
    → Selects name fid (entry_of type name fid bytes)
entry_of-Selects type name fid bytes valid = elim (Bool-cases (fid == 0)) [
  | inr nonzero ↦ inl (ground arith, refl)
  | inl zero_fid ↦ inr (text_of-Names name fid valid zero_fid)
]

-- `getField` shows the first entry that is asked for.
pub get_field-locate :
    (mama : Mama) (msg : OmnmPayloadImpl) (name : CString) (fid : ℕ) (es : List Entry)
    (l : Location)
    → Represents mama msg es
    → validate_name_fid name fid ≡ none
    → locate name fid es ≡ some l
    → get_field mama msg name fid ≡ ret (ok, some (view mama (place mama msg l.before) l.entry))
unfolding get_field
get_field-locate mama msg name fid es l r valid found =
    rw (get_field, valid, find_field_in_buffer-locate mama msg name fid es r, found) refl

module _ (mama : Mama) (msg : OmnmPayloadImpl) (type : FieldType) (name : CString) (fid : ℕ)
    (bytes : List ℕ) (es : List Entry) (grown : List ℕ) where
  -- Where no entry was asked for by its name and fid, the new entry is the one that is found by them.
  pub added :
      Represents mama msg es
      → IsEntry (entry_of type name fid bytes)
      → validate_name_fid name fid ≡ none
      → 0 < length bytes
      → length bytes ≤ uint32_max
      → NoneSelected name fid es
      → mama.allocate msg.payload_buffer (needed mama msg (entry_of type name fid bytes))
        ≡ some grown
      → (msg' : OmnmPayloadImpl) × (add_field mama msg type name fid (some bytes) (length bytes)
          ≡ ret (ok, msg'))
        × Represents mama msg' (es ++ (entry_of type name fid bytes ∷ []))
        × (locate name fid (es ++ (entry_of type name fid bytes ∷ []))
            ≡ some (record { before = es; entry = entry_of type name fid bytes; after = [] }))
  added r h valid some_data short missed memory =
      let (msg', same, r', _) =
        add_field-append mama msg type name fid bytes es grown r h valid some_data short memory in
      (
        msg',
        same,
        r',
        locate-append name fid es _ [] missed (entry_of-Selects type name fid bytes valid),
      )
