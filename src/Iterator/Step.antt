-- ===== src/Iterator/Step.antt =====
-- One step of the iterator of src/Iterator.cpp over an encoded entry.
use open_mama_omnm.Prelude.{
  ℕ, zero, suc, ◌+◌, ◌≡◌, refl, sym, ap, ◌∙◌, List, [], ◌∷◌, ◌++◌, append_assoc, Option, some,
  length, drop, length-append, drop_past, arith, ◌==◌, if◌then◌else◌,
}
use open_mama_omnm.Mama.{Mama}
use open_mama_omnm.Memory.{ret, le16, read8, read16, strlen_at}
use open_mama_omnm.Memory.Laws.{IsText, strlen-append, read16-le16, read32-le32, read8_head}
use open_mama_omnm.Message.{OmnmPayloadImpl, get_header_size}
use open_mama_omnm.Iterator.{
  OmnmIterImpl, Layout, fixed, text, counted, untouched, layout, delimit, read_name, read_field,
}
use open_mama_omnm.Wire.Laws.{encode_append, length-encode}
use open_mama_omnm.Wire.{Entry, encode, count_prefix, Fits, IsEntry, name_at, view}

read_name-text :
    (buf : List ℕ) (p : ℕ) (s xs : List ℕ)
    → IsText s
    → drop p buf ≡ s ++ (0 ∷ xs)
    → read_name buf p ≡ ret (name_at s p, p + length s + 1)
unfolding read_name read8 strlen_at
read_name-text buf p [] xs h e = rw e (ground arith)
read_name-text buf p (zero ∷ s) xs h e = absurd (omega arith)
read_name-text buf p (suc c ∷ s) xs h e = rw (e, strlen-append s xs h.1) (ground arith)

delimit-Fits :
    (l : Layout) (buf : List ℕ) (p : ℕ) (old : Option ℕ) (bytes xs : List ℕ)
    → Fits l bytes
    → drop p buf ≡ count_prefix l (length bytes) ++ (bytes ++ xs)
    → delimit l buf p old
      ≡ ret (
        some (p + length (count_prefix l (length bytes))),
        length bytes,
        p + length (count_prefix l (length bytes)),
      )
unfolding delimit Fits count_prefix strlen_at
delimit-Fits (fixed w) buf p old bytes xs h e = ground arith
delimit-Fits text buf p old bytes xs (s, h, eq) e =
    rw (e, eq, append_assoc, strlen-append s xs h) (ground (arith, length-append s (0 ∷ [])))
delimit-Fits counted buf p old bytes xs h e =
    rw (read32-le32 buf p (length bytes) (bytes ++ xs) h e) refl
delimit-Fits untouched buf p old bytes xs h e = absurd h

name_at_eq : (s : List ℕ) (p q : ℕ) → p ≡ q → name_at s p ≡ name_at s q
name_at_eq s p q e = ap (name_at s) e

-- `omnmmsgPayloadIter_next` in front of an encoded entry: it shows the entry, and goes on behind it,
-- or, when the iterator is just begun, goes back to the first field.
pub read_field-encode :
    (mama : Mama) (msg : OmnmPayloadImpl) (it : OmnmIterImpl) (e : Entry) (xs : List ℕ)
    → IsEntry e
    → drop it.buffer_position msg.payload_buffer ≡ encode mama e ++ xs
    → read_field mama msg it
      ≡ ret (
        view mama it.buffer_position e,
        record {
          field = view mama it.buffer_position e;
          buffer_position =
              if it.index == 0
              then get_header_size msg
              else it.buffer_position + length (encode mama e);
          index = it.index + 1;
        },
      )
unfolding read_field
read_field-encode mama msg it e xs h at_p =
    rw (type_read, fid_read, name_read, mama.type_of-code e.field_type h.delimited, data_read)
      (ground (arith, length-encode mama e, name_at_eq e.name (p + 1 + 2) (p + 3) (omega arith)))
  where
    buf : List ℕ
    buf = msg.payload_buffer

    p : ℕ
    p = it.buffer_position

    counts : List ℕ
    counts = count_prefix (layout e.field_type) (length e.bytes)

    after_fid : List ℕ
    after_fid = e.name ++ (0 ∷ (counts ++ (e.bytes ++ xs)))

    at_entry : drop p buf ≡ mama.code e.field_type ∷ (le16 e.fid ++ after_fid)
    at_entry = at_p ∙ encode_append mama e xs

    type_read : read8 buf p ≡ ret (mama.code e.field_type)
    type_read = read8_head buf p _ _ at_entry

    at_fid : drop (p + 1) buf ≡ le16 e.fid ++ after_fid
    at_fid = drop_past p (p + 1) buf (mama.code e.field_type ∷ []) _ at_entry refl

    fid_read : read16 buf (p + 1) ≡ ret e.fid
    fid_read = read16-le16 buf (p + 1) e.fid after_fid h.fid_word at_fid

    at_name : drop (p + 1 + 2) buf ≡ after_fid
    at_name = drop_past (p + 1) (p + 1 + 2) buf (le16 e.fid) _ at_fid refl

    q : ℕ
    q = p + 1 + 2 + length e.name + 1

    name_read : read_name buf (p + 1 + 2) ≡ ret (name_at e.name (p + 1 + 2), q)
    name_read =
        read_name-text buf (p + 1 + 2) e.name (counts ++ (e.bytes ++ xs)) h.name_text at_name

    at_data : drop q buf ≡ counts ++ (e.bytes ++ xs)
    at_data =
        drop_past (p + 1 + 2) q buf (e.name ++ (0 ∷ [])) _
          (at_name ∙ sym (append_assoc e.name (0 ∷ []) (counts ++ (e.bytes ++ xs))))
          (omega (arith, length-append e.name (0 ∷ [])))

    data_read :
        delimit (layout e.field_type) buf q it.field.location
        ≡ ret (some (q + length counts), length e.bytes, q + length counts)
    data_read = delimit-Fits (layout e.field_type) buf q it.field.location e.bytes xs h.fits at_data
