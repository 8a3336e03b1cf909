-- ===== src/Payload/Update.antt =====
-- `updateField` of src/Payload.cpp, of a known field: it replaces the data of one entry.
use open_mama_omnm.Prelude.{
  ℕ, ◌+◌, ◌-◌, ◌^◌, ◌≤◌, ◌<◌, ◌≡◌, ◌⊎◌, inl, inr, refl, sym, ◌∙◌, List, [], ◌∷◌, ◌++◌, append_assoc,
  Bool, true, false, not, ◌&&◌, some, length, length-append, arith, ltb, if◌then◌else◌,
}
use open_mama_omnm.Mama.{Mama, FieldType, ok, is_delimited}
use open_mama_omnm.Memory.{ret, fault, le32, write}
use open_mama_omnm.Memory.Laws.{write-append, read_bytes_all}
use open_mama_omnm.FieldType.{are_field_types_castable, same_type}
use open_mama_omnm.FieldType.Laws.{same_type_refl}
use open_mama_omnm.Message.{OmnmPayloadImpl, get_header_size}
use open_mama_omnm.Iterator.{Layout, counted, fixed, layout}
use open_mama_omnm.Payload.{update_known_field}
use open_mama_omnm.Payload.Put.{is_counted, is_field_type_sized-layout}
use open_mama_omnm.Payload.Resize.{refitted, refit}
use open_mama_omnm.Payload.Around.{
  changed, front, counts, length-front, front-counts, buffer_around, encode_all-changed,
  length-changed, tail_around,
}
use open_mama_omnm.Wire.{Entry, encode_all, count_prefix, AllEntries, IsEntry, view, Represents}

-- A type that `updateField` takes for a field of type `t`.
abbrev pub Accepts : FieldType → FieldType → Type 0
Accepts t type = (t ≡ type) ⊎ (are_field_types_castable t type ≡ true)

pub accepted :
    (t type : FieldType)
    → Accepts t type
    → (not (same_type t type) && not (are_field_types_castable t type)) ≡ false
accepted t type (inl same) = rw (← same, same_type_refl t)
accepted t type (inr castable) = rw castable (by_both (not (same_type t type)))
  where
    by_both : (b : Bool) → (b && false) ≡ false
    by_both true = refl
    by_both false = refl

-- The rewrite of the length in front of the data.
put_length :
    (l : Layout) (front tail : List ℕ) (old n location : ℕ)
    → location ≡ length front + length (count_prefix l old)
    → 4 ≤ length front
    → (if is_counted l
        then (if ltb location 4
            then fault
            else write ((front ++ count_prefix l old) ++ tail) (location - 4) (le32 n))
        else ret ((front ++ count_prefix l old) ++ tail))
      ≡ ret ((front ++ count_prefix l n) ++ tail)
unfolding count_prefix
put_length counted front tail old n location h room =
    let far : ltb location 4 ≡ false = ground arith in
    rw (
      far,
      append_assoc front (le32 old) tail,
      write-append front (le32 old) tail (le32 n) (location - 4) (omega arith) refl,
      append_assoc,
    )
put_length (fixed w) front tail old n location h room = refl
put_length _ front tail old n location h room = refl

-- Where the entries behind `before` begin, and the size that the buffer is grown to for longer data.
abbrev pub place : Mama → OmnmPayloadImpl → List Entry → ℕ
place mama msg before = get_header_size msg + length (encode_all mama before)

abbrev pub wanted : OmnmPayloadImpl → List ℕ → List ℕ → ℕ
wanted msg old bytes = length msg.payload_buffer + (length bytes - length old)

module _ (mama : Mama) (msg : OmnmPayloadImpl) (before after : List Entry) (e : Entry)
    (type : FieldType) (bytes grown : List ℕ) where
  -- The message whose buffer holds the entry with the new data.
  abbrev pub Rewritten : Represents mama msg (before ++ (e ∷ after)) → OmnmPayloadImpl → Type 0
  Rewritten r msg' =
      (left : List ℕ) × (msg'.payload_buffer
        ≡ r.head ++ (encode_all mama (before ++ (changed e bytes ∷ after)) ++ left))
      × (msg'.payload_buffer_tail
          ≡ length r.head + length (encode_all mama (before ++ (changed e bytes ∷ after))))
      × (msg'.header ≡ msg.header)

  -- `updateField` of a known field whose type takes the new one writes the new data, of any size,
  -- in the place of the old, and with it the length prefix if the type has one; the stored type
  -- stays that of the field, and whatever follows moves along, provided that the message is smaller
  -- than 2 GiB, that the new data is smaller than 4 GiB, and that memory for longer data is
  -- allocated.
  pub update_known_field-bytes :
      (r : Represents mama msg (before ++ (e ∷ after)))
      → is_delimited e.field_type ≡ true
      → Accepts e.field_type type
      → length bytes < 2 ^ 32
      → msg.payload_buffer_tail < 2 ^ 31
      → (length e.bytes < length bytes
          → mama.allocate msg.payload_buffer (wanted msg e.bytes bytes) ≡ some grown)
      → (msg' : OmnmPayloadImpl) × (update_known_field mama msg type
            (view mama (place mama msg before) e)
            (some bytes)
            (length bytes)
          ≡ ret (ok, msg'))
        × Rewritten r msg'
  unfolding update_known_field
  update_known_field-bytes r delimited takes short small memory =
      let n = length bytes in
      let opening = front mama msg before after e r in
      let counted_by = counts mama msg before after e r in
      let pre = opening ++ counted_by e.bytes in
      let rest = encode_all mama after in
      let (mid, left, resized, fit) =
        refit mama msg pre e.bytes rest r.slack n grown (buffer_around mama msg before after e r)
          (tail_around mama msg before after e r) small short memory in
      (
        record (refitted msg pre rest n mid left) {
          payload_buffer = (opening ++ counted_by bytes) ++ (bytes ++ (rest ++ left));
        },
        rw
            (
              accepted e.field_type type takes,
              front-counts mama msg before after e r e.bytes,
              resized,
              is_field_type_sized-layout e.field_type delimited,
              put_length (layout e.field_type) opening (mid ++ (rest ++ left)) (length e.bytes) n
                  (length pre) (length-append opening (counted_by e.bytes))
                  (omega (arith, length-front mama msg before after e r)),
              read_bytes_all bytes,
              write-append (opening ++ counted_by bytes) mid (rest ++ left) bytes (length pre)
                  (sym (front-counts mama msg before after e r e.bytes)
                    ∙ front-counts mama msg before after e r bytes)
                  (sym fit),
            )
            refl,
        (
          left,
          encode_all-changed mama msg before after e r bytes left,
          length-changed mama msg before after e r bytes,
          refl,
        ),
      )

  AllEntries-replace :
      (front : List Entry)
      → AllEntries (front ++ (e ∷ after))
      → IsEntry (changed e bytes)
      → AllEntries (front ++ (changed e bytes ∷ after))
  AllEntries-replace [] h k = (k, h.1)
  AllEntries-replace (f ∷ fs) h k = (h.0, AllEntries-replace fs h.1 k)

  Rewritten-Represents :
      (r : Represents mama msg (before ++ (e ∷ after))) (msg' : OmnmPayloadImpl)
      → IsEntry (changed e bytes)
      → Rewritten r msg'
      → Represents mama msg' (before ++ (changed e bytes ∷ after))
  Rewritten-Represents r msg' k (left, content, tail, same) = record {
    head = r.head;
    slack = left;
    opening = rw same r.opening;
    version = rw same r.version;
    content = content;
    head_size = rw same r.head_size;
    tail_size = tail;
    entries = AllEntries-replace before r.entries k;
  }

  -- `updateField` of a known field whose type takes the new one, with new data that fits the type
  -- of the field, leaves the message with the same entries, the data of this one replaced, and the
  -- same header, provided that the message is smaller than 2 GiB, that the new data is smaller than
  -- 4 GiB, and that memory for longer data is allocated.
  pub update_known_field-replace :
      Represents mama msg (before ++ (e ∷ after))
      → IsEntry (changed e bytes)
      → Accepts e.field_type type
      → length bytes < 2 ^ 32
      → msg.payload_buffer_tail < 2 ^ 31
      → (length e.bytes < length bytes
          → mama.allocate msg.payload_buffer (wanted msg e.bytes bytes) ≡ some grown)
      → (msg' : OmnmPayloadImpl) × (update_known_field mama msg type
            (view mama (place mama msg before) e)
            (some bytes)
            (length bytes)
          ≡ ret (ok, msg'))
        × Represents mama msg' (before ++ (changed e bytes ∷ after))
        × (msg'.header ≡ msg.header)
  update_known_field-replace r k takes short small memory =
      let (msg', same, rewritten) =
        update_known_field-bytes r k.delimited takes short small memory in
      (msg', same, Rewritten-Represents r msg' k rewritten, rewritten.3)
