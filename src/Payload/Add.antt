-- ===== src/Payload/Add.antt =====
-- `addField` of src/Payload.cpp appends an entry.
use open_mama_omnm.Prelude.{
  le→ltb_false, ℕ, ◌+◌, ◌≤◌, ◌<◌, ◌≡◌, refl, sym, ap, ◌∙◌, List, [], ◌∷◌, ◌++◌, append_assoc,
  append-nil, false, ◌&&◌, ◌||◌, none, some, length, drop, length-append, arith, ◌==◌,
  if◌then◌else◌,
}
use open_mama_omnm.Mama.{Mama, FieldType, ok}
use open_mama_omnm.Memory.{ret}
use open_mama_omnm.FieldType.{is_field_type_sized}
use open_mama_omnm.Message.{OmnmPayloadImpl}
use open_mama_omnm.Iterator.{layout}
use open_mama_omnm.Payload.{
  CString, validate_name_fid, name_len, put_field, add_field, grow, uint32_max, is_null,
}
use open_mama_omnm.Wire.{Entry, encode, encode_all, AllEntries, IsEntry, Represents}
use open_mama_omnm.Wire.Laws.{length-encode, encode_all-append}
use open_mama_omnm.Payload.Put.{
  is_field_type_sized-layout, entry_of, name_len_lem, past_count, put_field-encode,
}

-- `allocateBufferMemory` keeps what the block holds, and gives at least the size asked for.
pub grow_keeps :
    (mama : Mama) (buf pre rest grown : List ℕ) (size : ℕ)
    → buf ≡ pre ++ rest
    → mama.allocate buf size ≡ some grown
    → (more : List ℕ) × (grow mama buf size ≡ pre ++ more)
      × (size ≤ length pre + length more)
      × (length rest ≤ length more)
grow_keeps mama buf pre rest grown size known h =
    let (extra, same, big) = mama.allocate_grows buf grown size h in
    let whole : grown ≡ pre ++ (rest ++ extra) =
      same ∙ ap (λ b. b ++ extra) known ∙ append_assoc pre rest extra in
    (
      rest ++ extra,
      rw (grow, h) whole,
      omega (arith, ap length whole, length-append pre (rest ++ extra), big),
      omega (arith, length-append rest extra),
    )

AllEntries-snoc :
    (es : List Entry) (e : Entry) → AllEntries es → IsEntry e → AllEntries (es ++ (e ∷ []))
AllEntries-snoc [] e h k = (k, tt)
AllEntries-snoc (f ∷ es) e h k = (h.0, AllEntries-snoc es e h.1 k)

pub validated :
    (name : CString) (fid : ℕ)
    → validate_name_fid name fid ≡ none
    → (is_null name && fid == 0) ≡ false
unfolding validate_name_fid
validated name fid h = ground arith

-- The size of the buffer that `addField` asks for.
abbrev pub needed : Mama → OmnmPayloadImpl → Entry → ℕ
needed mama msg e = msg.payload_buffer_tail + length (encode mama e)

module _ (mama : Mama) (msg : OmnmPayloadImpl) (type : FieldType) (name : CString) (fid : ℕ)
    (bytes : List ℕ) (es : List Entry) (grown : List ℕ) where
  -- On a message that represents entries, `addField` with well-formed data, of at least one byte
  -- and a size that 32 bits hold, under a valid name and fid, appends the entry to the message,
  -- keeps its header and returns ok, provided the memory is allocated.
  pub add_field-append :
      Represents mama msg es
      → IsEntry (entry_of type name fid bytes)
      → validate_name_fid name fid ≡ none
      → 0 < length bytes
      → length bytes ≤ uint32_max
      → mama.allocate msg.payload_buffer (needed mama msg (entry_of type name fid bytes))
        ≡ some grown
      → (msg' : OmnmPayloadImpl) × (add_field mama msg type name fid (some bytes) (length bytes)
          ≡ ret (ok, msg'))
        × Represents mama msg' (es ++ (entry_of type name fid bytes ∷ []))
        × (msg'.header ≡ msg.header)
  unfolding add_field
  add_field-append r h named some_data short memory = (
    appended,
    rw (le→ltb_false uint32_max (length bytes) short, given, named, new_tail, grow_eq, written)
        refl,
    record {
      head = r.head;
      slack = left;
      opening = r.opening;
      version = r.version;
      content = whole;
      head_size = r.head_size;
      tail_size = tail;
      entries = AllEntries-snoc es e r.entries h;
    },
    refl,
  )
    where
      e : Entry
      e = entry_of type name fid bytes

      pre : List ℕ
      pre = r.head ++ encode_all mama es

      known : msg.payload_buffer ≡ pre ++ r.slack
      known = r.content ∙ sym (append_assoc r.head (encode_all mama es) r.slack)

      at_tail : msg.payload_buffer_tail ≡ length pre
      at_tail = omega (arith, r.tail_size, length-append r.head (encode_all mama es))

      given : (length bytes == 0 || (is_null name && fid == 0)) ≡ false
      given = rw (validated name fid named) (ground arith)

      unsized : ℕ
      unsized = msg.payload_buffer_tail + 1 + 2 + name_len name + length bytes

      new_tail : (if is_field_type_sized type then unsized + 4 else unsized) ≡ needed mama msg e
      new_tail = rw (is_field_type_sized-layout type h.delimited) (
          past_count (layout type) unsized (length bytes)
          ∙ omega (arith, length-encode mama e, name_len_lem name))

      more :
          (more : List ℕ) × (grow mama msg.payload_buffer (needed mama msg e) ≡ pre ++ more)
          × (needed mama msg e ≤ length pre + length more)
          × (length r.slack ≤ length more)
      more = grow_keeps mama msg.payload_buffer pre r.slack grown (needed mama msg e) known memory

      grow_eq : grow mama msg.payload_buffer (needed mama msg e) ≡ pre ++ more.0
      grow_eq = more.1

      left : List ℕ
      left = drop (length (encode mama e)) more.0

      written :
          put_field mama (pre ++ more.0) msg.payload_buffer_tail type name fid bytes (length bytes)
          ≡ ret ((pre ++ encode mama e) ++ left)
      written =
          put_field-encode mama type name fid bytes pre more.0 msg.payload_buffer_tail h at_tail
            (omega (arith, more.2, at_tail))

      appended : OmnmPayloadImpl
      appended = record msg {
        payload_buffer = (pre ++ encode mama e) ++ left;
        payload_buffer_tail = needed mama msg e;
      }

      all : encode_all mama (es ++ (e ∷ [])) ≡ encode_all mama es ++ encode mama e
      all =
          encode_all-append mama es (e ∷ [])
          ∙ ap (λ b. encode_all mama es ++ b) (unfold encode_all in append-nil (encode mama e))

      whole : (pre ++ encode mama e) ++ left ≡ r.head ++ (encode_all mama (es ++ (e ∷ [])) ++ left)
      whole =
          rw (all, append_assoc (encode_all mama es) (encode mama e) left)
            (append_assoc pre (encode mama e) left
              ∙ append_assoc r.head (encode_all mama es) (encode mama e ++ left))

      tail : needed mama msg e ≡ length r.head + length (encode_all mama (es ++ (e ∷ [])))
      tail = rw all (omega (arith, r.tail_size, length-append (encode_all mama es) (encode mama e)))
