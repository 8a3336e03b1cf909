-- ===== src/Apply/Collected.antt =====
-- What the case of vectors of strings of `omnmmsgPayload_apply` in src/Payload.cpp puts into the target.
use open_mama_omnm.Prelude.{
  ℕ, ◌≡◌, ◌==◌, refl, sym, ap, ◌∙◌, List, [], ◌∷◌, ◌++◌, true, none, some, length, arith,
}
use mathlib.Core.Path.{subst}
use open_mama_omnm.Mama.{Mama, ok, vector_string}
use open_mama_omnm.Memory.{ret, ◌>>=◌, string_at}
use open_mama_omnm.Message.{OmnmPayloadImpl}
use open_mama_omnm.Payload.{CString, validate_name_fid, update_field}
use open_mama_omnm.Payload.Source.{update_field-front}
use open_mama_omnm.Payload.Upserted.{Enough}
use open_mama_omnm.Scalar.{on_handle}
use open_mama_omnm.Strings.{bytes_required, collect, update_vector_string}
use open_mama_omnm.Strings.Read.{joined, AllText, places, length-joined, length-places, strings_at}
use open_mama_omnm.Strings.RoundTrip.{get_field_vector_string-places, collected}
use open_mama_omnm.Apply.{texts_behind, apply_vector_string}
use open_mama_omnm.Apply.Field.{shown}
use open_mama_omnm.Wire.{Entry, Represents}
use open_mama_omnm.Wire.Data.{data_place}

texts_behind-strings_at : (buf : List ℕ) (ps : List ℕ) → texts_behind buf ps ≡ strings_at buf ps
unfolding texts_behind strings_at
texts_behind-strings_at buf [] = refl
texts_behind-strings_at buf (p ∷ ps) =
    ap (λ texts. string_at buf p >>= λ s. texts >>= λ ss. ret (s ∷ ss))
      (texts_behind-strings_at buf ps)

same_length : (n : ℕ) → (n == n) ≡ true
same_length n = ground arith

-- `omnmmsgPayload_updateVectorString` puts the strings from the front of the scratch buffer.
update_vector_string-update_field :
    (mama : Mama) (dest dest' : OmnmPayloadImpl) (name : CString) (fid : ℕ) (ss : List (List ℕ))
    (extra : List ℕ)
    → validate_name_fid name fid ≡ none
    → collect mama dest ss ≡ ret (record dest { scratch = joined ss ++ extra })
    → update_field mama
        (record dest { scratch = joined ss ++ extra })
        vector_string
        name
        fid
        (some (joined ss))
        (length (joined ss))
      ≡ ret (ok, dest')
    → update_vector_string mama (some dest) name fid (some ss) ≡ ret (ok, some dest')
unfolding update_vector_string
update_vector_string-update_field mama dest dest' name fid ss extra valid gathered same =
    rw (update_vector_string, valid, gathered)
      (ap
          (λ n. on_handle (
            update_field mama (record dest { scratch = joined ss ++ extra }) vector_string name fid
              (some (joined ss ++ extra)) n))
          (sym (length-joined ss))
        ∙ ap on_handle (
            update_field-front (joined ss) extra mama (record dest { scratch = joined ss ++ extra })
              vector_string name fid
            ∙ same))

module _ (mama : Mama) (enough : Enough mama) (src : OmnmPayloadImpl) (before after : List Entry)
    (e : Entry) (r : Represents mama src (before ++ (e ∷ after))) (dest : OmnmPayloadImpl)
    (name : CString) where
  -- Strings are put as they are, from a target whose scratch buffer holds them.
  pub apply_vector_string-update_field :
      (ss : List (List ℕ))
      → validate_name_fid name e.fid ≡ none
      → e.field_type ≡ vector_string
      → AllText ss
      → e.bytes ≡ joined ss
      → (extra : List ℕ) × ((dest' : OmnmPayloadImpl)
          → update_field mama
              (record dest { scratch = joined ss ++ extra })
              e.field_type
              name
              e.fid
              (some e.bytes)
              (length e.bytes)
            ≡ ret (ok, dest')
          → apply_vector_string mama src (some dest) name (shown mama src before after e r)
            ≡ ret (some dest'))
  unfolding apply_vector_string
  apply_vector_string-update_field ss valid typed text same =
      let (block, memory) = enough dest.scratch (bytes_required ss) in
      let (extra, gathered) = collected mama dest name e.fid ss [] block block memory in
      let (got, read) = get_field_vector_string-places mama src before after e ss r text same in
      let p = data_place mama src before e in
      (
        extra,
        λ dest' put.
            rw
              (
                apply_vector_string,
                got,
                length-places p ss,
                same_length (length ss),
                texts_behind-strings_at src.payload_buffer (places p ss) ∙ read,
                update_vector_string-update_field mama dest dest' name e.fid ss extra valid gathered
                    (subst
                      (λ t.
                        update_field mama (record dest { scratch = joined ss ++ extra }) t name
                          e.fid (some (joined ss)) (length (joined ss))
                        ≡ ret (ok, dest'))
                      typed
                      (subst
                        (λ b.
                          update_field mama (record dest { scratch = joined ss ++ extra })
                            e.field_type name e.fid (some b) (length b)
                          ≡ ret (ok, dest'))
                        same put)),
              )
              refl,
      )
