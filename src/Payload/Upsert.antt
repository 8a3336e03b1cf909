-- ===== src/Payload/Upsert.antt =====
-- `updateField` of src/Payload.cpp, by name and fid: it changes the first entry that is asked for, adds
-- one where there is none, and refuses a type that the entry does not take.
use open_mama_omnm.Prelude.{
  ℕ, ◌^◌, ◌<◌, ◌≡◌, ◌≢◌, refl, ◌∙◌, List, ◌∷◌, ◌++◌, Bool, false, not, ◌&&◌, none, some, length,
  if◌then◌else◌,
}
use mathlib.Core.Path.{subst}
use open_mama_omnm.Mama.{Mama, FieldType, ok, wrong_field_type}
use open_mama_omnm.Memory.{ret}
use open_mama_omnm.FieldType.{are_field_types_castable, same_type}
use open_mama_omnm.FieldType.Laws.{same_type_ne}
use open_mama_omnm.Message.{OmnmPayloadImpl}
use open_mama_omnm.Payload.{CString, validate_name_fid, add_field, update_known_field, update_field}
use open_mama_omnm.Payload.Find.{
  Location, locate, find_field_in_buffer-locate, Located, locate-Located,
}
use open_mama_omnm.Payload.Add.{validated}
use open_mama_omnm.Payload.Around.{changed}
use open_mama_omnm.Payload.Update.{Accepts, accepted, place, wanted, update_known_field-replace}
use open_mama_omnm.Wire.{Entry, IsEntry, view, Represents}

module _ (mama : Mama) (msg : OmnmPayloadImpl) (type : FieldType) (name : CString) (fid : ℕ)
    (bytes : List ℕ) (es : List Entry) where
  -- On a message that represents entries of which none has the fid or the name, `updateField` with
  -- a valid name and fid is `addField`.
  pub update_field-absent :
      Represents mama msg es
      → validate_name_fid name fid ≡ none
      → locate name fid es ≡ none
      → update_field mama msg type name fid (some bytes) (length bytes)
        ≡ add_field mama msg type name fid (some bytes) (length bytes)
  unfolding update_field
  update_field-absent r named absent =
      rw (validated name fid named, find_field_in_buffer-locate mama msg name fid es r, absent) refl

  module _ (l : Location) where
    refused : Entry → Bool
    refused e =
        not (same_type e.field_type type) && not (are_field_types_castable e.field_type type)

    update_field-found :
        Represents mama msg es
        → validate_name_fid name fid ≡ none
        → locate name fid es ≡ some l
        → update_field mama msg type name fid (some bytes) (length bytes) ≡ (
            if refused l.entry
            then ret (wrong_field_type, msg)
            else update_known_field mama msg type
                (view mama (place mama msg l.before) l.entry)
                (some bytes)
                (length bytes))
    unfolding update_field refused
    update_field-found r named found =
        rw (validated name fid named, find_field_in_buffer-locate mama msg name fid es r, found)
          refl

    holds :
        Represents mama msg es
        → locate name fid es ≡ some l
        → Represents mama msg (l.before ++ (l.entry ∷ l.after))
    holds r found = subst (Represents mama msg) (where_it_is found).0 r
      where
        where_it_is : locate name fid es ≡ some l → Located name fid es (some l)
        where_it_is same = subst (Located name fid es) same (locate-Located name fid es)

    -- Where the first entry with the fid or the name takes the type and the new data fits the type
    -- of the entry, `updateField` replaces the data of that entry and keeps every other entry and
    -- the header, provided that the message is smaller than 2 GiB, that the new data is smaller
    -- than 4 GiB, and that memory for longer data is allocated.
    pub update_field-replace :
        (grown : List ℕ)
        → Represents mama msg es
        → validate_name_fid name fid ≡ none
        → locate name fid es ≡ some l
        → Accepts l.entry.field_type type
        → IsEntry (changed l.entry bytes)
        → length bytes < 2 ^ 32
        → msg.payload_buffer_tail < 2 ^ 31
        → (length l.entry.bytes < length bytes
            → mama.allocate msg.payload_buffer (wanted msg l.entry.bytes bytes) ≡ some grown)
        → (msg' : OmnmPayloadImpl) × (update_field mama msg type name fid
              (some bytes)
              (length bytes)
            ≡ ret (ok, msg'))
          × Represents mama msg' (l.before ++ (changed l.entry bytes ∷ l.after))
          × (msg'.header ≡ msg.header)
    unfolding refused
    update_field-replace grown r named found takes k short small memory =
        let (msg', same, r', kept) =
          update_known_field-replace mama msg l.before l.after l.entry type bytes grown
            (holds r found) k takes short small memory in
        (
          msg',
          update_field-found r named found ∙ rw (accepted l.entry.field_type type takes) same,
          r',
          kept,
        )

    -- Where the first entry with the fid or the name has another type, and one of the two types is
    -- not of fixed width, `updateField` returns the status for a wrong type and leaves the message
    -- as it was.
    pub update_field_refused :
        Represents mama msg es
        → validate_name_fid name fid ≡ none
        → locate name fid es ≡ some l
        → l.entry.field_type ≢ type
        → are_field_types_castable l.entry.field_type type ≡ false
        → update_field mama msg type name fid (some bytes) (length bytes)
          ≡ ret (wrong_field_type, msg)
    unfolding refused
    update_field_refused r named found other uncastable =
        update_field-found r named found
        ∙ rw (same_type_ne l.entry.field_type type other, uncastable) refl
