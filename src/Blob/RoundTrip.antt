-- ===== src/Blob/RoundTrip.antt =====
-- A string that is added to a message of src/Payload.cpp, and got from it again.
use open_mama_omnm.Prelude.{
  ℕ, ◌+◌, ◌<◌, ◌≡◌, refl, sym, ap, ◌∙◌, List, [], ◌∷◌, ◌++◌, true, none, some, length, arith,
  length-append, append_assoc,
}
use open_mama_omnm.Mama.{Mama, ok, is_delimited, string}
use open_mama_omnm.Memory.{ret, string_at, chars}
use open_mama_omnm.Memory.Laws.{IsText, chars-append}
use open_mama_omnm.Iterator.{layout}
use open_mama_omnm.Message.{OmnmPayloadImpl}
use open_mama_omnm.Payload.{CString, validate_name_fid, add_field, uint32_max}
use open_mama_omnm.Payload.Find.{NoneSelected, find_field_in_buffer-locate}
use open_mama_omnm.Payload.Add.{needed}
use open_mama_omnm.Payload.Put.{entry_of, text_of}
use open_mama_omnm.Payload.Added.{added, entry_of-Selects}
use open_mama_omnm.Payload.Update.{place}
use open_mama_omnm.Scalar.{on_handle}
use open_mama_omnm.Scalar.Read.{validate_field-selected}
use open_mama_omnm.Blob.{terminated, add_string, get_string, get_known_buffer}
use open_mama_omnm.Wire.{Entry, IsEntry, Fits, Represents}
use open_mama_omnm.Wire.Laws.{drop-entry}
use open_mama_omnm.Wire.Data.{data_place, drop-data}

-- A string makes an entry.
pub string-IsEntry :
    (name : CString) (fid : ℕ) (s : List ℕ)
    → IsText (text_of name)
    → fid < 65536
    → IsText s
    → IsEntry (entry_of string name fid (terminated s))
string-IsEntry name fid s named short text = record {
  delimited = unfold is_delimited in refl;
  fid_word = short;
  name_text = named;
  fits = unfold Fits in unfold layout in (s, text, refl);
}

module _ (mama : Mama) (msg : OmnmPayloadImpl) (name : CString) (fid : ℕ) (s : List ℕ)
    (es : List Entry) (grown : List ℕ) where
  -- A string added under a valid name and fid that no entry of the message has is what stands where
  -- the getter then points to for that name and fid, provided the memory is allocated.
  get_string-add_string :
      Represents mama msg es
      → validate_name_fid name fid ≡ none
      → IsText (text_of name)
      → fid < 65536
      → IsText s
      → length s < uint32_max
      → NoneSelected name fid es
      → mama.allocate msg.payload_buffer (needed mama msg (entry_of string name fid (terminated s)))
        ≡ some grown
      → (msg' : OmnmPayloadImpl) × (at : ℕ) × (add_string mama (some msg) name fid (some s)
          ≡ ret (ok, some msg'))
        × (get_string mama (some msg') true name fid ≡ ret (ok, some (some at)))
        × (string_at msg'.payload_buffer at ≡ ret s)
        × Represents mama msg' (es ++ (entry_of string name fid (terminated s) ∷ []))
  unfolding add_string get_string get_known_buffer string_at
  get_string-add_string r valid named short text few missed memory =
      let (msg', same, r', found) =
        added mama msg string name fid (terminated s) es grown r entry valid (omega (arith, width))
          (omega (arith, width)) missed memory in
      let e : Entry = entry_of string name fid (terminated s) in
      (
        msg',
        data_place mama msg' es e,
        ap (λ n. on_handle (add_field mama msg string name fid (some (terminated s)) n)) (sym width)
            ∙ ap on_handle same,
        rw (get_string, valid, find_field_in_buffer-locate mama msg' name fid _ r', found)
            (rw
              (validate_field-selected mama msg'.payload_buffer (place mama msg' es) name fid e _
                entry (entry_of-Selects string name fid (terminated s) valid)
                (drop-entry mama msg' es [] e r'))
              refl),
        ap chars (drop-data mama msg' es [] e r' ∙ append_assoc s (0 ∷ []) _)
            ∙ chars-append s _ text,
        r',
      )
    where
      width : length (terminated s) ≡ length s + 1
      width = length-append s (0 ∷ [])

      entry : IsEntry (entry_of string name fid (terminated s))
      entry = string-IsEntry name fid s named short text
