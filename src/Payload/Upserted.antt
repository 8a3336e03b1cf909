-- ===== src/Payload/Upserted.antt =====
-- `updateField` of src/Payload.cpp as an operation on the entries of a message: what is put under a name
-- and fid is what is found by them.
use open_mama_omnm.Prelude.{
  ℕ, ◌^◌, ◌≤◌, ◌<◌, ◌≡◌, inl, inr, refl, sym, ap, ◌∙◌, List, [], ◌∷◌, ◌++◌, Option, none, some,
  length, drop, arith, Option-cases,
}
use mathlib.Core.Path.{subst}
use open_mama_omnm.Mama.{Mama, FieldType, ok}
use open_mama_omnm.Memory.{ret, read_bytes}
use open_mama_omnm.Message.{OmnmPayloadImpl, OmnmFieldImpl}
use open_mama_omnm.Payload.{CString, validate_name_fid, get_field, update_field, uint32_max}
use open_mama_omnm.Payload.Find.{Location, locate, Located, locate-Located}
use open_mama_omnm.Payload.Put.{entry_of}
use open_mama_omnm.Payload.Add.{needed, add_field-append}
use open_mama_omnm.Payload.Added.{locate-append, entry_of-Selects, get_field-locate}
use open_mama_omnm.Payload.Around.{changed}
use open_mama_omnm.Payload.Update.{place, wanted}
use open_mama_omnm.Payload.Upsert.{update_field-absent, update_field-replace}
use open_mama_omnm.Wire.{Entry, IsEntry, AllEntries, Fits, Represents, view, encode_all}
use open_mama_omnm.Wire.Laws.{AllEntries-mem}
use open_mama_omnm.Wire.Data.{data_place, drop-data, read_bytes-view}
use open_mama_omnm.Iterator.{layout}

-- What a caller passes: some data of a type that it fits, under a name or a fid.
pub record IsRequest (type : FieldType) (name : CString) (fid : ℕ) (bytes : List ℕ) : Type 0 where
  pub entry : IsEntry (entry_of type name fid bytes)
  pub valid : validate_name_fid name fid ≡ none
  pub some_data : 0 < length bytes
  pub short : length bytes ≤ uint32_max

-- Memory is allocated whenever it is asked for.
abbrev pub Enough : Mama → Type 0
Enough mama =
    (block : List ℕ) (size : ℕ) → (grown : List ℕ) × (mama.allocate block size ≡ some grown)

abbrev pub put_at : Entry → List Entry → Option Location → List Entry
put_at e es none = es ++ (e ∷ [])
put_at e es (some l) = l.before ++ (changed l.entry e.bytes ∷ l.after)

-- The first entry with the fid or the name gets the data; where there is none, one is added.
unfoldable pub upsert : FieldType → CString → ℕ → List ℕ → List Entry → List Entry
upsert type name fid bytes es = put_at (entry_of type name fid bytes) es (locate name fid es)

-- The entry that an update finds, if it finds one, is of the type of the update.
abbrev pub TypeAt : FieldType → Option Location → Type 0
TypeAt type none = Unit {0}
TypeAt type (some l) = l.entry.field_type ≡ type

abbrev pub KeepsEntryType : FieldType → CString → ℕ → List Entry → Type 0
KeepsEntryType type name fid es = TypeAt type (locate name fid es)

-- The entry that the name and the fid lead to holds the data.
abbrev pub Holds : FieldType → List ℕ → CString → ℕ → List Entry → Type 0
Holds type bytes name fid es =
    (l : Location) × (locate name fid es ≡ some l)
    × (l.entry.field_type ≡ type)
    × (l.entry.bytes ≡ bytes)

module _ (mama : Mama) (enough : Enough mama) (msg : OmnmPayloadImpl) (type : FieldType)
    (name : CString) (fid : ℕ) (bytes : List ℕ) (es : List Entry) where
  abbrev pub Updated : Type 0
  Updated =
      (msg' : OmnmPayloadImpl) × (update_field mama msg type name fid (some bytes) (length bytes)
        ≡ ret (ok, msg'))
      × (msg'.header ≡ msg.header)
      × Represents mama msg' (upsert type name fid bytes es)
      × Holds type bytes name fid (upsert type name fid bytes es)

  at_none :
      Represents mama msg es → IsRequest type name fid bytes → locate name fid es ≡ none → Updated
  unfolding upsert
  at_none r q absent =
      let (grown, memory) =
        enough msg.payload_buffer (needed mama msg (entry_of type name fid bytes)) in
      let (msg', same, r', kept) =
        add_field-append mama msg type name fid bytes es grown r q.entry q.valid q.some_data q.short
          memory in
      rw absent (
        msg',
        update_field-absent mama msg type name fid bytes es r q.valid absent ∙ same,
        kept,
        r',
        (
          _,
          locate-append name fid es (entry_of type name fid bytes) []
              (subst (Located name fid es) absent (locate-Located name fid es))
              (entry_of-Selects type name fid bytes q.valid),
          refl,
          refl,
        ),
      )

  at_some :
      (l : Location)
      → Represents mama msg es
      → IsRequest type name fid bytes
      → locate name fid es ≡ some l
      → l.entry.field_type ≡ type
      → msg.payload_buffer_tail < 2 ^ 31
      → Updated
  unfolding upsert
  at_some l r q found stored small =
      let (grown, memory) = enough msg.payload_buffer (wanted msg l.entry.bytes bytes) in
      let (msg', same, r', kept) =
        update_field-replace mama msg type name fid bytes es l grown r q.valid found (inl stored)
          fitting (omega (arith, q.short)) small (λ longer. memory) in
      rw found (
        msg',
        same,
        kept,
        r',
        (
          _,
          locate-append name fid l.before (changed l.entry bytes) l.after at.2 at.1,
          stored,
          refl,
        ),
      )
    where
      at : Located name fid es (some l)
      at = subst (Located name fid es) found (locate-Located name fid es)

      old : IsEntry l.entry
      old = AllEntries-mem l.before l.after l.entry (subst AllEntries at.0 r.entries)

      fitting : IsEntry (changed l.entry bytes)
      fitting = record {
        delimited = old.delimited;
        fid_word = old.fid_word;
        name_text = old.name_text;
        fits = subst (λ t. Fits (layout t) bytes) (sym stored) q.entry.fits;
      }

  -- On a message that represents entries, `updateField` with data of a type that messages hold,
  -- that fits this type, of one byte at least and a size that 32 bits hold, under a valid name,
  -- which is a C string, and a fid of 16 bits returns ok, keeps the header, and gives the data to
  -- the first entry with the fid or the name, or appends an entry where there is none; the entry
  -- that is found by them afterwards has the type and the data, provided that an entry that is
  -- there already has this type, that the message is smaller than 2 GiB, and that memory is
  -- allocated whenever it is asked for.
  pub update_field-upsert :
      Represents mama msg es
      → IsRequest type name fid bytes
      → KeepsEntryType type name fid es
      → msg.payload_buffer_tail < 2 ^ 31
      → Updated
  update_field-upsert r q keeps small = elim (Option-cases (locate name fid es)) [
    | inl absent ↦ at_none r q absent
    | inr (l, found) ↦ at_some l r q found (subst (TypeAt type) found keeps) small
  ]

-- What `getField` shows of an entry that holds some data.
module _ (mama : Mama) (msg : OmnmPayloadImpl) (type : FieldType) (name : CString) (fid : ℕ)
    (bytes : List ℕ) (es : List Entry) where
  pub get_field-Holds :
      Represents mama msg es
      → validate_name_fid name fid ≡ none
      → Holds type bytes name fid es
      → (f : OmnmFieldImpl) × (p : ℕ) × (xs : List ℕ) × (get_field mama msg name fid
          ≡ ret (ok, some f))
        × (f.field_type ≡ type)
        × (f.size ≡ length bytes)
        × (f.location ≡ some p)
        × (drop p msg.payload_buffer ≡ bytes ++ xs)
        × (read_bytes msg.payload_buffer p (length bytes) ≡ ret bytes)
  get_field-Holds r valid (l, found, typed, same) = (
    view mama (place mama msg l.before) l.entry,
    data_place mama msg l.before l.entry,
    encode_all mama l.after ++ r'.slack,
    get_field-locate mama msg name fid es l r valid found,
    typed,
    ap length same,
    refl,
    drop-data mama msg l.before l.after l.entry r'
        ∙ ap (λ b. b ++ (encode_all mama l.after ++ r'.slack)) same,
    ap (read_bytes msg.payload_buffer (data_place mama msg l.before l.entry)) (sym (ap length same))
        ∙ read_bytes-view mama msg l.before l.after l.entry r'
        ∙ ap ret same,
  )
    where
      r' : Represents mama msg (l.before ++ (l.entry ∷ l.after))
      r' =
          subst (Represents mama msg)
            (subst (Located name fid es) found (locate-Located name fid es)).0 r
