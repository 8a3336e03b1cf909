-- ===== src/Safety/Fields.antt =====
-- `addField` and `updateField` of src/Payload.cpp, on every branch.
use open_mama_omnm.Prelude.{
  ℕ, ◌≤◌, ◌<◌, ◌^◌, ◌≡◌, refl, sym, inl, inr, List, [], ◌∷◌, none, some, false, ◌&&◌, ◌||◌, ◌==◌,
  le→ltb_false, length, arith, Bool-cases, Option-cases,
}
use mathlib.Core.Path.{subst}
use open_mama_omnm.Mama.{Mama, FieldType, FieldType-discrete, ok, null_arg, wrong_field_type}
use open_mama_omnm.FieldType.{are_field_types_castable}
use open_mama_omnm.Message.{OmnmPayloadImpl}
use open_mama_omnm.Iterator.{layout}
use open_mama_omnm.Payload.{
  CString, validate_name_fid, is_null, add_field, update_field, uint32_max,
}
use open_mama_omnm.Payload.Find.{
  Location, locate, find_field_in_buffer-locate, Located, locate-Located,
}
use open_mama_omnm.Payload.Put.{entry_of}
use open_mama_omnm.Payload.Add.{needed, add_field-append}
use open_mama_omnm.Payload.Around.{changed}
use open_mama_omnm.Payload.Update.{wanted}
use open_mama_omnm.Payload.Upsert.{update_field-replace, update_field_refused}
use open_mama_omnm.Payload.Upserted.{Enough}
use open_mama_omnm.Wire.{Entry, IsEntry, AllEntries, Fits, Names, Selects, Represents}
use open_mama_omnm.Wire.Laws.{AllEntries-mem}
use open_mama_omnm.Safety.{Safe, KeepsNumber}

-- What finds an entry is valid.
Selects-valid :
    (name : CString) (fid : ℕ) (e : Entry) → Selects name fid e → validate_name_fid name fid ≡ none
unfolding validate_name_fid Names
Selects-valid none fid e (inl (nonzero, same)) = ground arith
Selects-valid none fid e (inr named) = absurd named
Selects-valid (some []) fid e (inl (nonzero, same)) = ground arith
Selects-valid (some []) fid e (inr (filled, same)) = absurd (filled (sym same))
Selects-valid (some (c ∷ s)) fid e h = ground arith

module _ (mama : Mama) (enough : Enough mama) (msg : OmnmPayloadImpl) (type : FieldType)
    (name : CString) (fid : ℕ) (bytes : List ℕ) (es : List Entry) (r : Represents mama msg es)
    (fitting : IsEntry (entry_of type name fid bytes)) (short : length bytes ≤ uint32_max) where
  -- `addField` on every branch
  pub add_field-Safe : Safe mama (add_field mama msg type name fid (some bytes) (length bytes))
  unfolding add_field
  add_field-Safe = elim (Bool-cases (length bytes == 0 || (is_null name && fid == 0))) [
    | inl nothing ↦
        (null_arg, msg, rw (le→ltb_false uint32_max (length bytes) short, nothing) refl, (es, r))
    | inr something ↦ elim (Option-cases (validate_name_fid name fid)) [
      | inl valid ↦
          let (grown, memory) =
            enough msg.payload_buffer (needed mama msg (entry_of type name fid bytes)) in
          let (m, done, r', _) =
            add_field-append mama msg type name fid bytes es grown r fitting valid (ground arith)
              short memory in
          (ok, m, done, (_, r'))
      | inr (status, invalid) ↦ (
        status,
        msg,
        rw (le→ltb_false uint32_max (length bytes) short, something, invalid) refl,
        (es, r),
      )
    ]
  ]

  -- The branches of `updateField` behind the search
  module _ (given : (is_null name && fid == 0) ≡ false) where
    absent-Safe :
        locate name fid es ≡ none
        → Safe mama (update_field mama msg type name fid (some bytes) (length bytes))
    unfolding update_field
    absent-Safe absent =
        let (status, m, done, well) = add_field-Safe in
        (
          status,
          m,
          rw (given, find_field_in_buffer-locate mama msg name fid es r, absent) done,
          well,
        )

    found-Safe :
        (l : Location)
        → locate name fid es ≡ some l
        → KeepsNumber type name fid es
        → msg.payload_buffer_tail < 2 ^ 31
        → Safe mama (update_field mama msg type name fid (some bytes) (length bytes))
    found-Safe l found keeps small = elim (FieldType-discrete l.entry.field_type type) [
      | yes stored ↦ replaces stored
      | no other ↦ elim (Bool-cases (are_field_types_castable l.entry.field_type type)) [
        | inl castable ↦ absurd (other (keeps l found castable))
        | inr uncastable ↦ (
          wrong_field_type,
          msg,
          update_field_refused mama msg type name fid bytes es l r valid found other uncastable,
          (es, r),
        )
      ]
    ]
      where
        at : Located name fid es (some l)
        at = subst (Located name fid es) found (locate-Located name fid es)

        valid : validate_name_fid name fid ≡ none
        valid = Selects-valid name fid l.entry at.1

        old : IsEntry l.entry
        old = AllEntries-mem l.before l.after l.entry (subst AllEntries at.0 r.entries)

        replaces :
            l.entry.field_type ≡ type
            → Safe mama (update_field mama msg type name fid (some bytes) (length bytes))
        replaces stored =
            let fits : IsEntry (changed l.entry bytes) = record {
              delimited = old.delimited;
              fid_word = old.fid_word;
              name_text = old.name_text;
              fits = subst (λ t. Fits (layout t) bytes) (sym stored) fitting.fits;
            } in
            let (grown, memory) = enough msg.payload_buffer (wanted msg l.entry.bytes bytes) in
            let (m, done, r', _) =
              update_field-replace mama msg type name fid bytes es l grown r valid found
                (inl stored) fits (omega (arith, short)) small (λ longer. memory) in
            (ok, m, done, (_, r'))

  -- `updateField` on every branch
  pub update_field-Safe :
      KeepsNumber type name fid es
      → msg.payload_buffer_tail < 2 ^ 31
      → Safe mama (update_field mama msg type name fid (some bytes) (length bytes))
  unfolding update_field
  update_field-Safe keeps small = elim (Bool-cases (is_null name && fid == 0)) [
    | inl nothing ↦ (null_arg, msg, rw nothing refl, (es, r))
    | inr given ↦ elim (Option-cases (locate name fid es)) [
      | inl absent ↦ absent-Safe given absent
      | inr (l, found) ↦ found-Safe given l found keeps small
    ]
  ]
