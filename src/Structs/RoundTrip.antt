-- ===== src/Structs/RoundTrip.antt =====
-- Objects that src/Payload.cpp puts into a message as structs, and gets from it again.
use open_mama_omnm.Prelude.{
  ℕ, ◌+◌, ◌*◌, ◌/◌, ◌^◌, ◌≤◌, ◌<◌, ◌≡◌, refl, sym, ap, ◌∙◌, List, [], ◌∷◌, ◌++◌, append_assoc, true,
  Option, none, some, length, drop, drop_past, map, length-append, arith,
}
use mathlib.Core.Path.{subst, ap₂}
use open_mama_omnm.Mama.{Mama, ok, is_delimited}
use open_mama_omnm.Memory.{ret}
use open_mama_omnm.Memory.Laws.{IsText}
use open_mama_omnm.Iterator.{fixed, counted, layout}
use open_mama_omnm.Message.{OmnmPayloadImpl}
use open_mama_omnm.Payload.{CString, validate_name_fid, update_field, uint32_max}
use open_mama_omnm.Payload.Put.{text_of}
use open_mama_omnm.Payload.Source.{update_field-front}
use open_mama_omnm.Payload.Upserted.{
  IsRequest, Enough, upsert, KeepsEntryType, Holds, update_field-upsert, get_field-Holds,
}
use open_mama_omnm.Scalar.{on_handle}
use open_mama_omnm.Blocks.{flatten, gather-flatten}
use open_mama_omnm.Structs.{
  Struct, update_value, update_vector, read_all, renew, get_field_vector, get_vector,
}
use open_mama_omnm.Wire.{Entry, Fits, Represents}
use open_mama_omnm.Wire.Laws.{scratch-Represents}

-- The name and the fid of a call are valid, and fit the message.
pub record IsNamed (name : CString) (fid : ℕ) : Type 0 where
  pub valid : validate_name_fid name fid ≡ none
  pub name_text : IsText (text_of name)
  pub fid_word : fid < 65536

module _ {T : Type 0} {O : Type 0} (s : Struct T) (seen : T → O) where
  -- The conversions keep what `seen` shows of an object.
  pub record IsStruct : Type 0 where
    pub delimited : is_delimited s.field_type ≡ true
    pub vector_delimited : is_delimited s.vector_type ≡ true
    pub laid_out : layout s.field_type ≡ fixed s.width
    pub vector_laid_out : layout s.vector_type ≡ counted
    pub some_bytes : 0 < s.width
    pub small : s.width ≤ 255
    pub length-bytes : (t : T) → length (s.bytes t) ≡ s.width
    pub read-bytes :
        (buf : List ℕ) (p : ℕ) (xs : List ℕ) (t u : T)
        → drop p buf ≡ s.bytes t ++ xs
        → (r : T) × (s.read buf p u ≡ ret r) × (seen r ≡ seen t)

  module _ (laws : IsStruct) where
    value-IsRequest :
        (name : CString) (fid : ℕ) (value : T)
        → IsNamed name fid
        → IsRequest s.field_type name fid (s.bytes value)
    value-IsRequest name fid value n = record {
      entry = record {
        delimited = laws.delimited;
        fid_word = n.fid_word;
        name_text = n.name_text;
        fits =
            subst (λ l. Fits l (s.bytes value)) (sym laws.laid_out)
              (unfold Fits in laws.length-bytes value);
      };
      valid = n.valid;
      some_data = omega (arith, laws.length-bytes value, laws.some_bytes);
      short = omega (arith, laws.length-bytes value, laws.small);
    }

    module _ (mama : Mama) (enough : Enough mama) (msg : OmnmPayloadImpl) (name : CString) (fid : ℕ)
        (es : List Entry) where
      -- An object that is put under a name and fid is what the entry there stands for.
      pub update_value-Holds :
          (value : T)
          → Represents mama msg es
          → IsNamed name fid
          → KeepsEntryType s.field_type name fid es
          → msg.payload_buffer_tail < 2 ^ 31
          → (msg' : OmnmPayloadImpl) × (update_value s mama (some msg) name fid (some value)
              ≡ ret (ok, some msg'))
            × Represents mama msg' (upsert s.field_type name fid (s.bytes value) es)
            × Holds s.field_type
                (s.bytes value)
                name
                fid
                (upsert s.field_type name fid (s.bytes value) es)
      unfolding update_value
      update_value-Holds value r n keeps small =
          let (msg', same, _, r', holds) =
            update_field-upsert mama enough msg s.field_type name fid (s.bytes value) es r
              (value-IsRequest name fid value n) keeps small in
          (
            msg',
            ap
                  (λ k.
                    on_handle
                      (update_field mama msg s.field_type name fid (some (s.bytes value)) k))
                  (sym (laws.length-bytes value))
                ∙ ap on_handle same,
            r',
            holds,
          )

    pub length-structs : (vs : List T) → length (flatten (map s.bytes vs)) ≡ length vs * s.width
    unfolding flatten
    length-structs [] = omega arith
    length-structs (v ∷ vs) = grind (
      arith,
      length-append (s.bytes v) (flatten (map s.bytes vs)),
      laws.length-bytes v,
      length-structs vs,
    )

    read_all-structs :
        (buf : List ℕ) (p : ℕ) (vs : List T) (slots : List (Option T)) (xs : List ℕ)
        → drop p buf ≡ flatten (map s.bytes vs) ++ xs
        → length vs ≤ length slots
        → (ts : List T) × (read_all s (length vs) buf p slots ≡ ret ts)
          × (map seen ts ≡ map seen vs)
    unfolding read_all flatten
    read_all-structs buf p [] slots xs at room = ([], refl, refl)
    read_all-structs buf p (v ∷ vs) [] xs at room = absurd (omega arith)
    read_all-structs buf p (v ∷ vs) (slot ∷ slots) xs at room =
        let here : drop p buf ≡ s.bytes v ++ (flatten (map s.bytes vs) ++ xs) =
          at ∙ append_assoc (s.bytes v) _ xs in
        let (r, done, same) = laws.read-bytes buf p _ v (renew s slot) here in
        let (ts, rest, others) =
          read_all-structs buf (p + s.width) vs slots xs
            (drop_past p (p + s.width) buf (s.bytes v) _ here (omega (arith, laws.length-bytes v)))
            (omega arith) in
        (r ∷ ts, rw (done, rest) refl, ap₂ ◌∷◌ same others)

    vector-IsRequest :
        (name : CString) (fid : ℕ) (vs : List T)
        → IsNamed name fid
        → 0 < length vs
        → length vs * s.width ≤ uint32_max
        → IsRequest s.vector_type name fid (flatten (map s.bytes vs))
    vector-IsRequest name fid vs n some_values few = record {
      entry = record {
        delimited = laws.vector_delimited;
        fid_word = n.fid_word;
        name_text = n.name_text;
        fits =
            subst (λ l. Fits l (flatten (map s.bytes vs))) (sym laws.vector_laid_out)
              (unfold Fits in omega (arith, length-structs vs, few));
      };
      valid = n.valid;
      some_data = grind (arith, length-structs vs, laws.some_bytes);
      short = omega (arith, length-structs vs, few);
    }

    module _ (mama : Mama) (enough : Enough mama) (msg : OmnmPayloadImpl) (name : CString) (fid : ℕ)
        (es : List Entry) (vs : List T) (slots : List (Option T)) where
      -- The objects of a vector are what the getter shows, with an array that has room for them.
      pub get_vector-update_vector :
          Represents mama msg es
          → IsNamed name fid
          → KeepsEntryType s.vector_type name fid es
          → msg.payload_buffer_tail < 2 ^ 31
          → 0 < length vs
          → length vs * s.width ≤ uint32_max
          → length vs ≤ length slots
          → (msg' : OmnmPayloadImpl) × (ts : List T) × (update_vector s mama
                (some msg)
                name
                fid
                (some vs)
              ≡ ret (ok, some msg'))
            × (get_vector s mama (some msg') true name fid slots ≡ ret (ok, some (ts, length vs)))
            × (map seen ts ≡ map seen vs)
            × Represents mama msg' (upsert s.vector_type name fid (flatten (map s.bytes vs)) es)
      unfolding update_vector get_vector get_field_vector
      get_vector-update_vector r n keeps small some_values few room =
          let blocks = map s.bytes vs in
          let total = length-structs vs in
          let (block, memory) = enough msg.scratch (length vs * s.width) in
          let (extra, filled) =
            gather-flatten mama msg (length vs * s.width) blocks block (sym total) memory in
          let m : OmnmPayloadImpl = record msg { scratch = flatten blocks ++ extra } in
          let (msg', same, _, r', holds) =
            update_field-upsert mama enough m s.vector_type name fid (flatten blocks) es
              (scratch-Represents mama msg es (flatten blocks ++ extra) r)
              (vector-IsRequest name fid vs n some_values few) keeps small in
          let (f, p, xs, shown, _, size, placed, at, _) =
            get_field-Holds mama msg' s.vector_type name fid (flatten blocks) _ r' n.valid holds in
          let (ts, done, alike) = read_all-structs msg'.payload_buffer p vs slots xs at room in
          let count : f.size / s.width ≡ length vs = grind (arith, size, total, laws.some_bytes) in
          (
            msg',
            ts,
            rw (update_vector, n.valid, filled)
                (ap
                    (λ k. on_handle (
                      update_field mama m s.vector_type name fid (some (flatten blocks ++ extra))
                        k))
                    (sym total)
                  ∙ ap on_handle (
                      update_field-front (flatten blocks) extra mama m s.vector_type name fid
                      ∙ same)),
            rw (get_vector, n.valid, shown) (rw (get_field_vector, placed, count, done) refl),
            alike,
            r',
          )
