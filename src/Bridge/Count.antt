-- ===== src/Bridge/Count.antt =====
-- `omnmmsgPayload_getNumFields` and `omnmmsgPayload_iterateFields` of src/Payload.cpp.
use open_mama_omnm.Prelude.{
  ℕ, ◌+◌, ◌≡◌, refl, sym, ap, ◌∙◌, List, [], ◌∷◌, ◌++◌, append-nil, append_assoc, true, some,
  length, arith,
}
use open_mama_omnm.Mama.{Mama, ok}
use open_mama_omnm.Memory.{ret}
use open_mama_omnm.Message.{OmnmFieldImpl, OmnmPayloadImpl, get_header_size}
use open_mama_omnm.Iterator.{going}
use open_mama_omnm.Iterator.Walk.{walk_all-entries}
use open_mama_omnm.Bridge.{get_num_fields, iterate_fields}
use open_mama_omnm.Wire.{Entry, encode, view, Represents, views, walk_entries}

walk_entries-count :
    (mama : Mama) (p : ℕ) (es : List Entry) (n : ℕ)
    → walk_entries mama p es (λ k f. ret (going (k + 1))) n ≡ ret (n + length es)
unfolding walk_entries
walk_entries-count mama p [] n = ap ret (omega arith)
walk_entries-count mama p (e ∷ es) n =
    walk_entries-count mama (p + length (encode mama e)) es (n + 1) ∙ ap ret (omega arith)

-- The number of fields of a message that represents entries is the number of these entries.
pub get_num_fields-length :
    (mama : Mama) (msg : OmnmPayloadImpl) (es : List Entry)
    → Represents mama msg es
    → get_num_fields mama (some msg) true ≡ ret (ok, some (length es))
unfolding get_num_fields
get_num_fields-length mama msg es r =
    rw
      (
        walk_all-entries mama msg (λ k f. ret (going (k + 1))) es 0 r,
        walk_entries-count mama (get_header_size msg) es 0,
      )
      (ground arith)

walk_entries-views :
    (mama : Mama) (p : ℕ) (es : List Entry) (calls : List OmnmFieldImpl)
    → walk_entries mama p es (λ cs f. ret (going (cs ++ (f ∷ [])))) calls
      ≡ ret (calls ++ views mama p es)
unfolding walk_entries views
walk_entries-views mama p [] calls = ap ret (sym (append-nil calls))
walk_entries-views mama p (e ∷ es) calls =
    walk_entries-views mama (p + length (encode mama e)) es (calls ++ (view mama p e ∷ []))
    ∙ ap ret (append_assoc calls (view mama p e ∷ []) (views mama (p + length (encode mama e)) es))

-- The callback of an iteration over a message that represents entries is called once for each
-- entry, in the order of the message, with the structure that shows type, fid, name and data of the
-- entry.
iterate_fields-views :
    (mama : Mama) (msg : OmnmPayloadImpl) (es : List Entry)
    → Represents mama msg es
    → iterate_fields mama (some msg) true ≡ ret (ok, views mama (get_header_size msg) es)
unfolding iterate_fields
iterate_fields-views mama msg es r =
    rw
      (
        walk_all-entries mama msg (λ cs f. ret (going (cs ++ (f ∷ [])))) es [] r,
        walk_entries-views mama (get_header_size msg) es [],
      )
      refl
