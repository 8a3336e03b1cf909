-- ===== src/Wire/Data.antt =====
-- The data of an entry, read where the field structure of src/Payload.h points to.
use open_mama_omnm.Prelude.{
  ℕ, ◌+◌, ◌≡◌, refl, ap, ◌∙◌, List, ◌∷◌, ◌++◌, append_assoc, drop, drop_past, length, length-append,
  arith,
}
use open_mama_omnm.Mama.{Mama}
use open_mama_omnm.Memory.{ret, read_bytes}
use open_mama_omnm.Memory.Laws.{read_bytes-append}
use open_mama_omnm.Message.{OmnmPayloadImpl, get_header_size}
use open_mama_omnm.Iterator.{layout}
use open_mama_omnm.Wire.{Entry, encode_all, count_prefix, Represents}
use open_mama_omnm.Wire.Laws.{lead, encode-lead, length-lead, encode_all-split, drop-entry}

-- The offset of the data of the entry behind `before`.
abbrev pub data_place : Mama → OmnmPayloadImpl → List Entry → Entry → ℕ
data_place mama msg before e =
    get_header_size msg
    + length (encode_all mama before)
    + 4
    + length e.name
    + length (count_prefix (layout e.field_type) (length e.bytes))

-- What stands there: its data, then the entries behind it and the unused space.
pub drop-data :
    (mama : Mama) (msg : OmnmPayloadImpl) (before after : List Entry) (e : Entry)
    (r : Represents mama msg (before ++ (e ∷ after)))
    → drop (data_place mama msg before e) msg.payload_buffer
      ≡ e.bytes ++ (encode_all mama after ++ r.slack)
drop-data mama msg before after e r =
    drop_past (get_header_size msg + length (encode_all mama before)) _ msg.payload_buffer
      (lead mama e ++ counts) (e.bytes ++ (encode_all mama after ++ r.slack)) split
      (omega (arith, length-append (lead mama e) counts, length-lead mama e))
  where
    counts : List ℕ
    counts = count_prefix (layout e.field_type) (length e.bytes)

    split :
        drop (get_header_size msg + length (encode_all mama before)) msg.payload_buffer
        ≡ (lead mama e ++ counts) ++ (e.bytes ++ (encode_all mama after ++ r.slack))
    split = drop-entry mama msg before after e r ∙ rw (encode-lead mama e) (simp append_assoc)

-- The bytes at the place and of the size that the field structure of an entry shows are its data.
pub read_bytes-view :
    (mama : Mama) (msg : OmnmPayloadImpl) (before after : List Entry) (e : Entry)
    → Represents mama msg (before ++ (e ∷ after))
    → read_bytes msg.payload_buffer (data_place mama msg before e) (length e.bytes) ≡ ret e.bytes
read_bytes-view mama msg before after e r =
    ap (λ b. read_bytes b (data_place mama msg before e) (length e.bytes)) known
    ∙ read_bytes-append pre e.bytes (encode_all mama after ++ r.slack) _ _ place refl
  where
    counts : List ℕ
    counts = count_prefix (layout e.field_type) (length e.bytes)

    pre : List ℕ
    pre = r.head ++ (encode_all mama before ++ (lead mama e ++ counts))

    known : msg.payload_buffer ≡ pre ++ (e.bytes ++ (encode_all mama after ++ r.slack))
    known =
        r.content
        ∙ ap (λ b. r.head ++ (b ++ r.slack)) (encode_all-split mama before after e)
        ∙ simp append_assoc

    place : data_place mama msg before e ≡ length pre
    place = omega (
      arith,
      r.head_size,
      length-append r.head (encode_all mama before ++ (lead mama e ++ counts)),
      length-append (encode_all mama before) (lead mama e ++ counts),
      length-append (lead mama e) counts,
      length-lead mama e,
    )
