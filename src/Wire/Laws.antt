-- ===== src/Wire/Laws.antt =====
-- Sizes and decompositions of the wire format of src/Payload.cpp.
use open_mama_omnm.Prelude.{
  ℕ, ◌+◌, ◌≤◌, ◌≡◌, refl, ap, ◌∙◌, List, [], ◌∷◌, ◌++◌, append_assoc, length, drop, length-append,
  drop-append, arith,
}
use open_mama_omnm.Message.{OmnmPayloadImpl, get_header_size, sizeof_header}
use open_mama_omnm.Mama.{Mama}
use open_mama_omnm.Memory.{le16}
use open_mama_omnm.Iterator.{layout}
use open_mama_omnm.Wire.{Entry, count_prefix, encode, encode_all, AllEntries, IsEntry, Represents}

pub encode_append :
    (mama : Mama) (e : Entry) (xs : List ℕ)
    → encode mama e ++ xs
      ≡ mama.code e.field_type
        ∷ (le16 e.fid
            ++ (e.name
                ++ (0 ∷ (count_prefix (layout e.field_type) (length e.bytes) ++ (e.bytes ++ xs)))))
unfolding encode
encode_append mama e xs = simp append_assoc

pub length-encode :
    (mama : Mama) (e : Entry)
    → length (encode mama e)
      ≡ 4
        + length e.name
        + length (count_prefix (layout e.field_type) (length e.bytes))
        + length e.bytes
unfolding encode
length-encode mama e =
    let counts = count_prefix (layout e.field_type) (length e.bytes) in
    omega (arith, length-append e.name (0 ∷ (counts ++ e.bytes)), length-append counts e.bytes)

pub encode_all-append :
    (mama : Mama) (es fs : List Entry)
    → encode_all mama (es ++ fs) ≡ encode_all mama es ++ encode_all mama fs
unfolding encode_all
encode_all-append mama [] fs = refl
encode_all-append mama (e ∷ es) fs = rw (encode_all-append mama es fs, append_assoc)

-- An entry up to its length prefix.
unfoldable pub lead : Mama → Entry → List ℕ
lead mama e = mama.code e.field_type ∷ (le16 e.fid ++ (e.name ++ (0 ∷ [])))

pub encode-lead :
    (mama : Mama) (e : Entry)
    → encode mama e
      ≡ lead mama e ++ (count_prefix (layout e.field_type) (length e.bytes) ++ e.bytes)
unfolding encode lead
encode-lead mama e = simp append_assoc

pub length-lead : (mama : Mama) (e : Entry) → length (lead mama e) ≡ 4 + length e.name
unfolding lead
length-lead mama e = omega (arith, length-append e.name (0 ∷ []))

-- The bytes of a message around the data of one entry.
pub encode_all-split :
    (mama : Mama) (before after : List Entry) (e : Entry)
    → encode_all mama (before ++ (e ∷ after))
      ≡ encode_all mama before
        ++ (lead mama e
            ++ (count_prefix (layout e.field_type) (length e.bytes)
                ++ (e.bytes ++ encode_all mama after)))
encode_all-split mama before after e =
    encode_all-append mama before (e ∷ after)
    ∙ unfold encode_all in rw (encode-lead mama e) (simp append_assoc)

pub AllEntries-mem :
    (before after : List Entry) (e : Entry) → AllEntries (before ++ (e ∷ after)) → IsEntry e
AllEntries-mem [] after e h = h.0
AllEntries-mem (f ∷ fs) after e h = AllEntries-mem fs after e h.1

-- Where an entry stands in the buffer of a message.
pub drop-entry :
    (mama : Mama) (msg : OmnmPayloadImpl) (before after : List Entry) (e : Entry)
    (r : Represents mama msg (before ++ (e ∷ after)))
    → drop (get_header_size msg + length (encode_all mama before)) msg.payload_buffer
      ≡ encode mama e ++ (encode_all mama after ++ r.slack)
drop-entry mama msg before after e r =
    ap (drop (get_header_size msg + length (encode_all mama before))) known
    ∙ drop-append (r.head ++ encode_all mama before) _ _
        (omega (arith, r.head_size, length-append r.head (encode_all mama before)))
  where
    known :
        msg.payload_buffer
        ≡ (r.head ++ encode_all mama before)
          ++ (encode mama e ++ (encode_all mama after ++ r.slack))
    known =
        r.content
        ∙ ap (λ b. r.head ++ (b ++ r.slack)) (encode_all-append mama before (e ∷ after))
        ∙ unfold encode_all in simp append_assoc

-- Only the buffer, its tail and the header say what a message represents.
pub scratch-Represents :
    (mama : Mama) (msg : OmnmPayloadImpl) (es : List Entry) (scratch : List ℕ)
    → Represents mama msg es
    → Represents mama (record msg { scratch = scratch }) es
scratch-Represents mama msg es scratch r = record {
  head = r.head;
  slack = r.slack;
  opening = r.opening;
  version = r.version;
  content = r.content;
  head_size = r.head_size;
  tail_size = r.tail_size;
  entries = r.entries;
}

-- The buffer of a message holds its header.
pub header_room :
    (mama : Mama) (msg : OmnmPayloadImpl) (es : List Entry)
    → Represents mama msg es
    → sizeof_header ≤ length msg.payload_buffer
header_room mama msg es r =
    omega (
      arith,
      r.head_size,
      ap length r.content,
      length-append r.head (encode_all mama es ++ r.slack),
    )
