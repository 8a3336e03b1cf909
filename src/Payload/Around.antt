-- ===== src/Payload/Around.antt =====
-- The buffer of a message around the data of one entry, which `updateField` of src/Payload.cpp replaces.
use open_mama_omnm.Prelude.{
  ℕ, ◌+◌, ◌≡◌, refl, ap, ◌∙◌, List, [], ◌∷◌, ◌++◌, append_assoc, length, length-append, arith,
}
use open_mama_omnm.Mama.{Mama}
use open_mama_omnm.Message.{OmnmPayloadImpl, get_header_size}
use open_mama_omnm.Iterator.{Layout, counted, fixed, layout}
use open_mama_omnm.Wire.{Entry, encode_all, count_prefix, Represents}
use open_mama_omnm.Wire.Laws.{lead, length-lead, encode_all-split}

-- The entry with other data.
abbrev pub changed : Entry → List ℕ → Entry
changed e bytes = record e { bytes = bytes }

-- A length prefix is as long for other data.
pub same_count : (l : Layout) (m n : ℕ) → length (count_prefix l m) ≡ length (count_prefix l n)
unfolding count_prefix
same_count counted m n = refl
same_count (fixed w) m n = refl
same_count _ m n = refl

module _ (mama : Mama) (msg : OmnmPayloadImpl) (before after : List Entry) (e : Entry)
    (r : Represents mama msg (before ++ (e ∷ after))) where
  -- Everything before the length prefix, and the prefix for some data.
  abbrev pub front : List ℕ
  front = r.head ++ (encode_all mama before ++ lead mama e)

  abbrev pub counts : List ℕ → List ℕ
  counts bytes = count_prefix (layout e.field_type) (length bytes)

  pub length-front :
      length front ≡ get_header_size msg + length (encode_all mama before) + (4 + length e.name)
  length-front = omega (
    arith,
    length-append r.head (encode_all mama before ++ lead mama e),
    length-append (encode_all mama before) (lead mama e),
    length-lead mama e,
    r.head_size,
  )

  pub front-counts :
      (bytes : List ℕ)
      → get_header_size msg
          + length (encode_all mama before)
          + 4
          + length e.name
          + length (counts e.bytes)
        ≡ length (front ++ counts bytes)
  front-counts bytes = omega (
    arith,
    length-front,
    length-append front (counts bytes),
    same_count (layout e.field_type) (length e.bytes) (length bytes),
  )

  pub buffer_around :
      msg.payload_buffer
      ≡ (front ++ counts e.bytes) ++ (e.bytes ++ (encode_all mama after ++ r.slack))
  buffer_around =
      r.content
      ∙ ap (λ b. r.head ++ (b ++ r.slack)) (encode_all-split mama before after e)
      ∙ simp append_assoc

  -- The bytes with other data, and how many there are.
  pub encode_all-changed :
      (bytes left : List ℕ)
      → (front ++ counts bytes) ++ (bytes ++ (encode_all mama after ++ left))
        ≡ r.head ++ (encode_all mama (before ++ (changed e bytes ∷ after)) ++ left)
  encode_all-changed bytes left =
      let split : encode_all mama (before ++ (changed e bytes ∷ after))
          ≡ encode_all mama before
            ++ (lead mama e ++ (counts bytes ++ (bytes ++ encode_all mama after))) =
        unfold lead in encode_all-split mama before after (changed e bytes) in
      rw split (simp append_assoc)

  pub length-changed :
      (bytes : List ℕ)
      → length (front ++ counts e.bytes) + length bytes + length (encode_all mama after)
        ≡ length r.head + length (encode_all mama (before ++ (changed e bytes ∷ after)))
  length-changed bytes = omega (
    arith,
    ap length (encode_all-changed bytes []),
    length-append (front ++ counts bytes) (bytes ++ (encode_all mama after ++ [])),
    length-append bytes (encode_all mama after ++ []),
    length-append (encode_all mama after) [],
    length-append r.head (encode_all mama (before ++ (changed e bytes ∷ after)) ++ []),
    length-append (encode_all mama (before ++ (changed e bytes ∷ after))) [],
    front-counts bytes,
    front-counts e.bytes,
  )

  pub tail_around :
      msg.payload_buffer_tail
      ≡ length (front ++ counts e.bytes) + length e.bytes + length (encode_all mama after)
  tail_around = omega (arith, r.tail_size, length-changed e.bytes)
