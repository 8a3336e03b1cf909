-- ===== src/Safety/Vectors.antt =====
-- The setters of src/Payload.cpp for date-times, prices, and vectors of strings, date-times and prices, on
-- every branch.
use open_mama_omnm.Prelude.{
  ℕ, ◌*◌, ◌≤◌, ◌<◌, ◌^◌, ◌≡◌, refl, sym, ap, ◌∙◌, inl, inr, List, [], ◌++◌, none, some, ltb, length,
  map, drop, true, false, not, ◌&&◌, ◌==◌, arith, Bool-cases, Option-cases, append-nil,
}
use mathlib.Core.Path.{subst}
use open_mama_omnm.Mama.{Mama, FieldType, ok, invalid_arg, is_delimited, vector_msg, vector_string}
use open_mama_omnm.Memory.{ret}
use open_mama_omnm.FieldType.{same_type, are_field_types_castable}
use open_mama_omnm.Message.{OmnmFieldImpl, OmnmPayloadImpl, get_header_size}
use open_mama_omnm.Iterator.{layout}
use open_mama_omnm.Payload.{
  CString, is_null, validate_name_fid, find_field_in_buffer, get_field, add_field,
  update_known_field, update_field, uint32_max,
}
use open_mama_omnm.Payload.Add.{grow_keeps, validated}
use open_mama_omnm.Payload.Find.{locate, located_view, find_field_in_buffer-locate}
use open_mama_omnm.Messages.{Reported, update_vector_msg, put_messages}
use open_mama_omnm.Messages.Write.{AllReadable, framed, bytes_required_lem, copy_messages-framed}
use open_mama_omnm.Vector.{
  element_size, data_size, add_scalar_vector, update_scalar_vector, update_found_vector,
}
use open_mama_omnm.Vector.RoundTrip.{is_scalar_vector, data_size_lem, vector-IsEntry}
use open_mama_omnm.Payload.Put.{entry_of}
use open_mama_omnm.Payload.Upserted.{Enough}
use open_mama_omnm.Blocks.{flatten, gather-flatten}
use open_mama_omnm.Strings.{bytes_required, add_vector_string, update_vector_string}
use open_mama_omnm.Strings.Read.{joined, length-joined}
use open_mama_omnm.Strings.RoundTrip.{joined-IsEntry, collected}
use open_mama_omnm.Structs.{Struct, update_value, update_vector}
use open_mama_omnm.Structs.RoundTrip.{IsStruct, length-structs}
use open_mama_omnm.Payload.Update.{place}
use open_mama_omnm.Safety.Fields.{update_field-Safe}
use open_mama_omnm.Wire.{view, Entry, IsEntry, Fits, Represents}
use open_mama_omnm.Wire.Laws.{scratch-Represents}
use open_mama_omnm.Safety.{SafeCall, KeepsNumber}
use open_mama_omnm.Safety.Calls.{IsName, adds, updates, counted-IsEntry}

module _ (mama : Mama) (enough : Enough mama) (m : OmnmPayloadImpl) (es : List Entry)
    (r : Represents mama m es) (name : CString) (fid : ℕ) (n : IsName name fid) where
  -- The strings and what stands behind them in the buffer are added, or refused if they are too long.
  pub add_vector_string-Safe :
      (ss : List (List ℕ)) → SafeCall mama (add_vector_string mama (some m) name fid (some ss))
  unfolding add_vector_string
  add_vector_string-Safe ss = elim (Option-cases (validate_name_fid name fid)) [
    | inr (status, invalid) ↦ (status, m, rw (add_vector_string, invalid) refl, (es, r))
    | inl valid ↦
        let (block, memory) = enough m.scratch (bytes_required ss) in
        let (extra, filled) = collected mama m name fid ss es block block memory in
        let block = joined ss ++ extra in
        let k = scratch-Represents mama m es block r in
        elim (Bool-cases (ltb uint32_max (length block))) [
          | inl long ↦ (
            invalid_arg,
            _,
            rw (add_vector_string, valid, filled) (unfold add_field in rw long refl),
            (es, k),
          )
          | inr short ↦
              rw (add_vector_string, valid, filled)
                (adds mama enough (record m { scratch = block }) es k name fid n vector_string block
                  [] block _ (sym (append-nil _)) refl
                  (counted-IsEntry vector_string name fid block n (unfold is_delimited in refl)
                    (unfold layout in refl) (ground (arith, short)))
                  (ground (arith, short)))
        ]
  ]

module _ (mama : Mama) (enough : Enough mama) (m : OmnmPayloadImpl) (es : List Entry)
    (r : Represents mama m es) (name : CString) (fid : ℕ) (n : IsName name fid)
    (small : m.payload_buffer_tail < 2 ^ 31) where
  pub update_vector_string-Safe :
      (ss : List (List ℕ))
      → bytes_required ss ≤ uint32_max
      → KeepsNumber vector_string name fid es
      → SafeCall mama (update_vector_string mama (some m) name fid (some ss))
  unfolding update_vector_string
  update_vector_string-Safe ss short keeps = elim (Option-cases (validate_name_fid name fid)) [
    | inr (status, invalid) ↦ (status, m, rw (update_vector_string, invalid) refl, (es, r))
    | inl valid ↦
        let (block, memory) = enough m.scratch (bytes_required ss) in
        let (extra, filled) = collected mama m name fid ss es block block memory in
        let size = length-joined ss in
        rw (update_vector_string, valid, filled)
          (updates mama enough (record m { scratch = joined ss ++ extra }) es
            (scratch-Represents mama m es (joined ss ++ extra) r) name fid n vector_string
            (joined ss) extra _ _ refl (sym size)
            (joined-IsEntry name fid ss n.name_text n.fid_word short) (omega (arith, size)) keeps
            small)
  ]

  module _ {T : Type 0} {O : Type 0} (s : Struct T) (seen : T → O) (laws : IsStruct s seen) where
    pub update_value-Safe :
        (value : T)
        → KeepsNumber s.field_type name fid es
        → SafeCall mama (update_value s mama (some m) name fid (some value))
    unfolding update_value
    update_value-Safe value keeps =
        let width = laws.length-bytes value in
        updates mama enough m es r name fid n s.field_type (s.bytes value) [] (s.bytes value)
          s.width (sym (append-nil _)) (sym width) fitting (omega (arith, width, laws.small)) keeps
          small
      where
        fitting : IsEntry (entry_of s.field_type name fid (s.bytes value))
        fitting = record {
          delimited = laws.delimited;
          fid_word = n.fid_word;
          name_text = n.name_text;
          fits =
              subst (λ l. Fits l (s.bytes value)) (sym laws.laid_out)
                (unfold Fits in laws.length-bytes value);
        }

    pub update_vector-Safe :
        (vs : List T)
        → length vs * s.width ≤ uint32_max
        → KeepsNumber s.vector_type name fid es
        → SafeCall mama (update_vector s mama (some m) name fid (some vs))
    unfolding update_vector
    update_vector-Safe vs short keeps = elim (Option-cases (validate_name_fid name fid)) [
      | inr (status, invalid) ↦ (status, m, rw (update_vector, invalid) refl, (es, r))
      | inl valid ↦
          let blocks = map s.bytes vs in
          let total = length-structs s seen laws vs in
          let (block, memory) = enough m.scratch (length vs * s.width) in
          let (extra, filled) =
            gather-flatten mama m (length vs * s.width) blocks block (sym total) memory in
          rw (update_vector, valid, filled)
            (updates mama enough (record m { scratch = flatten blocks ++ extra }) es
              (scratch-Represents mama m es (flatten blocks ++ extra) r) name fid n s.vector_type
              (flatten blocks) extra _ _ refl (sym total)
              (counted-IsEntry s.vector_type name fid (flatten blocks) n laws.vector_delimited
                laws.vector_laid_out (omega (arith, total, short)))
              (omega (arith, total, short)) keeps small)
    ]

  -- Vectors of messages, where each message reports what it is
  pub update_vector_msg-Safe :
      (ms : List Reported)
      → AllReadable ms
      → length (flatten (map framed ms)) ≤ uint32_max
      → KeepsNumber vector_msg name fid es
      → SafeCall mama (update_vector_msg mama (some m) name fid (some ms))
  unfolding update_vector_msg put_messages layout is_delimited
  update_vector_msg-Safe ms readable short keeps =
      elim (Option-cases (validate_name_fid name fid)) [
        | inr (status, invalid) ↦ (status, m, rw (update_vector_msg, invalid) refl, (es, r))
        | inl valid ↦
            let bytes = flatten (map framed ms) in
            let (block, memory) = enough m.scratch (length bytes) in
            let (more, grown, big, _) =
              grow_keeps mama m.scratch [] m.scratch block (length bytes) refl memory in
            let extra = drop (length bytes) more in
            rw
              (
                update_vector_msg,
                valid,
                bytes_required_lem ms readable,
                grown,
                copy_messages-framed [] more 0 ms readable refl (omega (arith, big)),
              )
              (updates mama enough (record m { scratch = bytes ++ extra }) es
                (scratch-Represents mama m es (bytes ++ extra) r) name fid n vector_msg bytes extra
                _ _ refl refl (counted-IsEntry vector_msg name fid bytes n refl refl short) short
                keeps small)
      ]

  -- `updateField` of the field that the search finds
  update_field-known :
      (t : FieldType) (f : OmnmFieldImpl) (block : List ℕ) (size : ℕ)
      → (is_null name && fid == 0) ≡ false
      → find_field_in_buffer mama m name fid ≡ ret (some f)
      → update_field mama m t name fid (some block) size
        ≡ update_known_field mama m t f (some block) size
  unfolding update_field update_known_field
  update_field-known t f block size given found =
      elim (Bool-cases
        (not (same_type f.field_type t) && not (are_field_types_castable f.field_type t))) [
          | inl wrong ↦ rw (given, found, wrong) refl
          | inr right ↦ rw (given, found, right) refl
        ]

  pub update_scalar_vector-Safe :
      (t : FieldType) (value : List ℕ) (size : ℕ)
      → is_scalar_vector t ≡ true
      → length value ≡ size * element_size t
      → length value ≤ uint32_max
      → validate_name_fid name fid ≡ none
      → KeepsNumber t name fid es
      → SafeCall mama (update_scalar_vector mama (some m) t name fid (some value) size)
  unfolding update_scalar_vector update_found_vector add_scalar_vector get_field
  update_scalar_vector-Safe t value size vector width short valid keeps =
      let given = validated name fid valid in
      elim (Option-cases (locate name fid es)) [
        | inl absent ↦
            let found =
              find_field_in_buffer-locate mama m name fid es r
              ∙ ap (λ l. ret (located_view mama (get_header_size m) l)) absent in
            rw (update_scalar_vector, given, get_field, valid, found)
              (rw given (
                adds mama enough m es r name fid n t value [] value _ (sym (append-nil _))
                  (data_size_lem t size value width short) fitting short))
        | inr (l, at) ↦
            let found =
              find_field_in_buffer-locate mama m name fid es r
              ∙ ap (λ l. ret (located_view mama (get_header_size m) l)) at in
            let f = view mama (place mama m l.before) l.entry in
            let (status, m', done, well) =
              update_field-Safe mama enough m t name fid value es r fitting short keeps small in
            let known : update_known_field mama m t f (some value) (data_size t size)
                ≡ ret (status, m') =
              sym (update_field-known t f value (data_size t size) given found)
              ∙ subst (λ k. update_field mama m t name fid (some value) k ≡ ret (status, m'))
                  (sym (data_size_lem t size value width short)) done in
            (ok, m', rw (update_scalar_vector, given, get_field, valid, found, known) refl, well)
      ]
    where
      fitting : IsEntry (entry_of t name fid value)
      fitting = vector-IsEntry t name fid value vector n.name_text n.fid_word short
