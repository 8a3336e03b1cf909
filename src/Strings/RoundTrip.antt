-- ===== src/Strings/RoundTrip.antt =====
-- Strings that src/Payload.cpp puts in one field, and gets from it again.
use open_mama_omnm.Prelude.{
  ℕ, ◌+◌, ◌≤◌, ◌<◌, ◌≡◌, refl, sym, ap, ◌∙◌, List, [], ◌∷◌, ◌++◌, append_assoc, append-nil, true,
  false, none, some, ltb, length, drop, length-append, length-drop, drop-drop, arith,
}
use mathlib.Core.Path.{subst, ap₂}
use open_mama_omnm.Mama.{Mama, is_delimited, ok, vector_string}
use open_mama_omnm.Memory.{ret}
use open_mama_omnm.Memory.Laws.{IsText, write_extends}
use open_mama_omnm.Iterator.{layout}
use open_mama_omnm.Message.{OmnmPayloadImpl}
use open_mama_omnm.Payload.{CString, validate_name_fid, uint32_max, update_field, add_field}
use open_mama_omnm.Scalar.{on_handle}
use open_mama_omnm.Payload.Find.{Location, locate, Located, locate-Located, NoneSelected}
use open_mama_omnm.Payload.Add.{grow_keeps, needed}
use open_mama_omnm.Payload.Put.{entry_of, text_of}
use open_mama_omnm.Payload.Added.{get_field-locate, added, locate-none}
use open_mama_omnm.Payload.Source.{update_field-front}
use open_mama_omnm.Blob.{terminated}
use open_mama_omnm.Strings.{
  bytes_required, count_strings, string_places, copy_strings, collect, update_vector_string,
  get_field_vector_string, get_vector_string,
}
use open_mama_omnm.Strings.Read.{
  joined, AllText, places, length-joined, count_strings-joined, length-places, string_places-joined,
  strings_at, strings_at-places,
}
use open_mama_omnm.Payload.Update.{place}
use open_mama_omnm.Wire.{view, Entry, encode_all, IsEntry, Fits, Represents}
use open_mama_omnm.Wire.Laws.{scratch-Represents}
use open_mama_omnm.Payload.Upsert.{update_field-absent}
use open_mama_omnm.Wire.Data.{data_place, drop-data, read_bytes-view}

no_less : (n : ℕ) → ltb n n ≡ false
no_less n = ground arith

-- Where a field holds strings, the getter of the field shows where each one begins and how many there
-- are.
pub get_field_vector_string-places :
    (mama : Mama) (msg : OmnmPayloadImpl) (before after : List Entry) (e : Entry)
    (ss : List (List ℕ))
    → Represents mama msg (before ++ (e ∷ after))
    → AllText ss
    → e.bytes ≡ joined ss
    → (get_field_vector_string msg (some (view mama (place mama msg before) e)) true
        ≡ ret (ok, some (places (data_place mama msg before e) ss, length ss)))
      × (strings_at msg.payload_buffer (places (data_place mama msg before e) ss) ≡ ret ss)
unfolding get_field_vector_string
get_field_vector_string-places mama msg before after e ss r text same = (
  rw
      (
        get_field_vector_string,
        read_bytes-view mama msg before after e r,
        ap (λ n. string_places n msg.payload_buffer (data_place mama msg before e) n) size,
        string_places-joined (bytes_required ss) msg.payload_buffer (data_place mama msg before e)
            (bytes_required ss) ss _ text at refl (omega arith),
        ap count_strings same ∙ count_strings-joined ss text,
        length-places (data_place mama msg before e) ss,
        no_less (length ss),
      )
      refl,
  strings_at-places msg.payload_buffer (data_place mama msg before e) ss _ text at,
)
  where
    size : length e.bytes ≡ bytes_required ss
    size = ap length same ∙ length-joined ss

    at :
        drop (data_place mama msg before e) msg.payload_buffer
        ≡ joined ss ++ (encode_all mama after ++ r.slack)
    at =
        drop-data mama msg before after e r ∙ ap (λ b. b ++ (encode_all mama after ++ r.slack)) same

-- The same for the first entry that is asked for.
pub get_vector_string-places :
    (mama : Mama) (msg : OmnmPayloadImpl) (name : CString) (fid : ℕ) (es : List Entry)
    (l : Location) (ss : List (List ℕ))
    → Represents mama msg es
    → validate_name_fid name fid ≡ none
    → locate name fid es ≡ some l
    → AllText ss
    → l.entry.bytes ≡ joined ss
    → (get_vector_string mama (some msg) true name fid
        ≡ ret (ok, some (places (data_place mama msg l.before l.entry) ss, length ss)))
      × (strings_at msg.payload_buffer (places (data_place mama msg l.before l.entry) ss) ≡ ret ss)
unfolding get_vector_string
get_vector_string-places mama msg name fid es l ss r valid found text same =
    let where_it_is = subst (Located name fid es) found (locate-Located name fid es) in
    let (shown, read) =
      get_field_vector_string-places mama msg l.before l.after l.entry ss
        (subst (Represents mama msg) where_it_is.0 r) text same in
    (
      rw (get_vector_string, valid, get_field-locate mama msg name fid es l r valid found, shown)
          refl,
      read,
    )

-- The loop writes the strings one behind the other.
copy_strings-joined :
    (pre rest : List ℕ) (p : ℕ) (ss : List (List ℕ))
    → p ≡ length pre
    → bytes_required ss ≤ length rest
    → copy_strings (pre ++ rest) p ss ≡ ret ((pre ++ joined ss) ++ drop (bytes_required ss) rest)
unfolding copy_strings joined bytes_required
copy_strings-joined pre rest p [] h room = rw append-nil
copy_strings-joined pre rest p (s ∷ ss) h room =
    rw
      (
        write_extends pre rest (terminated s) p h (omega (arith, width)),
        copy_strings-joined (pre ++ terminated s) (drop (length (terminated s)) rest)
            (p + (length s + 1)) ss (omega (arith, width, length-append pre (terminated s)))
            (omega (arith, width, length-drop (length (terminated s)) rest)),
      )
      (ap ret (
        ap₂ ◌++◌ (simp append_assoc)
          (drop-drop (length (terminated s)) (bytes_required ss) _ rest (omega (arith, width)))))
  where
    width : length (terminated s) ≡ length s + 1
    width = length-append s (0 ∷ [])

some_bytes : (ss : List (List ℕ)) → 0 < length ss → 0 < bytes_required ss
unfolding bytes_required
some_bytes [] h = absurd (omega arith)
some_bytes (s ∷ ss) h = omega arith

-- The strings of a vector, one behind the other, make an entry.
pub joined-IsEntry :
    (name : CString) (fid : ℕ) (ss : List (List ℕ))
    → IsText (text_of name)
    → fid < 65536
    → bytes_required ss ≤ uint32_max
    → IsEntry (entry_of vector_string name fid (joined ss))
joined-IsEntry name fid ss named short few = record {
  delimited = unfold is_delimited in refl;
  fid_word = short;
  name_text = named;
  fits = unfold Fits in unfold layout in omega (arith, length-joined ss, few);
}

module _ (mama : Mama) (msg : OmnmPayloadImpl) (name : CString) (fid : ℕ) (ss : List (List ℕ))
    (es : List Entry) (block grown : List ℕ) where
  -- The strings stand at the front of the scratch buffer.
  pub collected :
      mama.allocate msg.scratch (bytes_required ss) ≡ some block
      → (extra : List ℕ) × (collect mama msg ss ≡ ret (record msg { scratch = joined ss ++ extra }))
  unfolding collect
  collected memory =
      let (more, same, big, _) =
        grow_keeps mama msg.scratch [] msg.scratch block (bytes_required ss) refl memory in
      (
        drop (bytes_required ss) more,
        rw (same, copy_strings-joined [] more 0 ss refl (omega (arith, big))) refl,
      )

  as_add :
      (extra : List ℕ)
      → collect mama msg ss ≡ ret (record msg { scratch = joined ss ++ extra })
      → Represents mama msg es
      → validate_name_fid name fid ≡ none
      → locate name fid es ≡ none
      → update_vector_string mama (some msg) name fid (some ss)
        ≡ on_handle (
            add_field mama
              (record msg { scratch = joined ss ++ extra })
              vector_string
              name
              fid
              (some (joined ss))
              (length (joined ss)))
  unfolding update_vector_string
  as_add extra same r valid absent =
      rw (update_vector_string, valid, same)
        (ap
            (λ n. on_handle (
              update_field mama (record msg { scratch = joined ss ++ extra }) vector_string name fid
                (some (joined ss ++ extra)) n))
            (sym (length-joined ss))
          ∙ ap on_handle (
              update_field-front (joined ss) extra mama
                (record msg { scratch = joined ss ++ extra }) vector_string name fid
              ∙ update_field-absent mama (record msg { scratch = joined ss ++ extra }) vector_string
                  name fid (joined ss) es (scratch-Represents mama msg es (joined ss ++ extra) r)
                  valid absent))

  -- Strings, one at least and no more than 32 bits can count the bytes of, that
  -- `updateVectorString` puts under a valid name and fid that no entry of the message has are what
  -- the getter then shows: their number, and places at which these strings stand, provided the
  -- memory is allocated.
  pub get_vector_string-update_vector_string :
      Represents mama msg es
      → validate_name_fid name fid ≡ none
      → IsText (text_of name)
      → fid < 65536
      → AllText ss
      → 0 < length ss
      → bytes_required ss ≤ uint32_max
      → NoneSelected name fid es
      → mama.allocate msg.scratch (bytes_required ss) ≡ some block
      → mama.allocate msg.payload_buffer
          (needed mama msg (entry_of vector_string name fid (joined ss)))
        ≡ some grown
      → (msg' : OmnmPayloadImpl) × (at : List ℕ) × (update_vector_string mama
            (some msg)
            name
            fid
            (some ss)
          ≡ ret (ok, some msg'))
        × (get_vector_string mama (some msg') true name fid ≡ ret (ok, some (at, length ss)))
        × (strings_at msg'.payload_buffer at ≡ ret ss)
        × Represents mama msg' (es ++ (entry_of vector_string name fid (joined ss) ∷ []))
  unfolding update_vector_string
  get_vector_string-update_vector_string r valid named short text some_strings few missed room
        memory =
      let (extra, collect_eq) = collected room in
      let m : OmnmPayloadImpl = record msg { scratch = joined ss ++ extra } in
      let k : Represents mama m es = scratch-Represents mama msg es (joined ss ++ extra) r in
      let (msg', same, r', found) =
        added mama m vector_string name fid (joined ss) es grown k entry valid
          (omega (arith, size, some_bytes ss some_strings)) (omega (arith, size)) missed memory in
      let (shown, read) =
        get_vector_string-places mama msg' name fid _ _ ss r' valid found text refl in
      (
        msg',
        places (data_place mama msg' es (entry_of vector_string name fid (joined ss))) ss,
        as_add extra collect_eq r valid (locate-none name fid es missed) ∙ ap on_handle same,
        shown,
        read,
        r',
      )
    where
      size : length (joined ss) ≡ bytes_required ss
      size = length-joined ss

      entry : IsEntry (entry_of vector_string name fid (joined ss))
      entry = joined-IsEntry name fid ss named short few
