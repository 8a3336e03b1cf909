-- ===== src/Payload/Put.antt =====
-- The writes of `addField` of src/Payload.cpp are the bytes of an entry.
use open_mama_omnm.Prelude.{
  ℕ, ◌+◌, ◌-◌, ◌%◌, ◌≤◌, ◌≡◌, refl, ap, ◌∙◌, List, [], ◌∷◌, ◌++◌, append_assoc, append-nil, Bool,
  true, false, none, some, length, drop, length-append, length-drop, drop-drop, arith,
  if◌then◌else◌,
}
use mathlib.Core.Path.{ap₂}
use open_mama_omnm.Mama.{Mama, FieldType, unknown, unlisted, is_delimited}
use open_mama_omnm.Memory.{ret, le16, le32, write}
use open_mama_omnm.Memory.Laws.{write_extends, read_bytes_all}
use open_mama_omnm.FieldType.{is_field_type_sized}
use open_mama_omnm.Iterator.{Layout, counted, fixed, layout}
use open_mama_omnm.Payload.{CString, name_len, name_bytes, put_field}
use open_mama_omnm.Wire.{Entry, encode, count_prefix, IsEntry}
use open_mama_omnm.Wire.Laws.{length-encode}

abbrev pub is_counted : Layout → Bool
is_counted counted = true
is_counted _ = false

-- The writer and the reader agree on which types carry a length, among the types whose data the
-- iterator delimits.
pub is_field_type_sized-layout :
    (t : FieldType) → is_delimited t ≡ true → is_field_type_sized t ≡ is_counted (layout t)
unfolding is_field_type_sized layout is_delimited
is_field_type_sized-layout unknown h = cc
is_field_type_sized-layout (unlisted n) h = cc
is_field_type_sized-layout _ h = refl

-- The text that a name argument stands for.
abbrev pub text_of : CString → List ℕ
text_of none = []
text_of (some s) = s

name_bytes_lem : (name : CString) → name_bytes name ≡ text_of name ++ (0 ∷ [])
name_bytes_lem none = refl
name_bytes_lem (some s) = refl

length-name_bytes : (name : CString) → length (name_bytes name) ≡ name_len name
length-name_bytes none = refl
length-name_bytes (some s) = omega (arith, length-append s (0 ∷ []))

pub name_len_lem : (name : CString) → name_len name ≡ length (text_of name) + 1
name_len_lem none = refl
name_len_lem (some s) = refl

put_count :
    (pre rest : List ℕ) (q len : ℕ) (l : Layout)
    → q ≡ length pre
    → length (count_prefix l len) ≤ length rest
    → (if is_counted l then write (pre ++ rest) q (le32 len) else ret (pre ++ rest))
      ≡ ret ((pre ++ count_prefix l len) ++ drop (length (count_prefix l len)) rest)
unfolding count_prefix
put_count pre rest q len counted hq hl = write_extends pre rest (le32 len) q hq hl
put_count pre rest q len (fixed w) hq hl = rw append-nil
put_count pre rest q len _ hq hl = rw append-nil

pub past_count :
    (l : Layout) (q len : ℕ) → (if is_counted l then q + 4 else q) ≡ q + length (count_prefix l len)
unfolding count_prefix
past_count counted q len = refl
past_count (fixed w) q len = omega arith
past_count _ q len = omega arith

-- The entry that `addField` is asked to write.
abbrev pub entry_of : FieldType → CString → ℕ → List ℕ → Entry
entry_of type name fid bytes = record {
  field_type = type;
  fid = fid;
  name = text_of name;
  bytes = bytes;
}

module _ (mama : Mama) (type : FieldType) (name : CString) (fid : ℕ) (bytes : List ℕ) where
  pub put_field-encode :
      (pre rest : List ℕ) (p : ℕ)
      → IsEntry (entry_of type name fid bytes)
      → p ≡ length pre
      → length (encode mama (entry_of type name fid bytes)) ≤ length rest
      → put_field mama (pre ++ rest) p type name fid bytes (length bytes)
        ≡ ret (
            (pre ++ encode mama (entry_of type name fid bytes))
            ++ drop (length (encode mama (entry_of type name fid bytes))) rest)
  unfolding put_field
  put_field-encode pre rest p h hp room =
      rw
        (
          is_field_type_sized-layout type h.delimited,
          byte,
          write_extends pre rest b1 p hp (omega (arith, size)),
          write_extends p1 r1 b2 (p + 1) l1 (omega (arith, size, n1)),
          write_extends p2 r2 b3 (p + 1 + 2) l2
              (omega (arith, size, n1, n2, length-name_bytes name, name_len_lem name)),
          put_count p3 r3 (p + 1 + 2 + name_len name) (length bytes) (layout type) l3
              (omega (arith, size, n1, n2, n3, length-name_bytes name, name_len_lem name)),
          read_bytes_all bytes,
          past_count (layout type) (p + 1 + 2 + name_len name) (length bytes),
          write_extends p4 r4 bytes (p + 1 + 2 + name_len name + length b4) l4
              (omega (arith, size, n1, n2, n3, n4, length-name_bytes name, name_len_lem name)),
        )
        (ap ret (ap₂ ◌++◌ joined left))
    where
      e : Entry
      e = entry_of type name fid bytes

      b1 : List ℕ
      b1 = mama.code type ∷ []

      b2 : List ℕ
      b2 = le16 fid

      b3 : List ℕ
      b3 = name_bytes name

      b4 : List ℕ
      b4 = count_prefix (layout type) (length bytes)

      p1 : List ℕ
      p1 = pre ++ b1

      p2 : List ℕ
      p2 = p1 ++ b2

      p3 : List ℕ
      p3 = p2 ++ b3

      p4 : List ℕ
      p4 = p3 ++ b4

      r1 : List ℕ
      r1 = drop 1 rest

      r2 : List ℕ
      r2 = drop 2 r1

      r3 : List ℕ
      r3 = drop (length b3) r2

      r4 : List ℕ
      r4 = drop (length b4) r3

      byte : mama.code type % 256 ≡ mama.code type
      byte = omega (arith, mama.code_byte type h.delimited)

      size : length (encode mama e) ≡ 4 + length (text_of name) + length b4 + length bytes
      size = length-encode mama e

      n1 : length r1 ≡ length rest - 1
      n1 = length-drop 1 rest

      n2 : length r2 ≡ length r1 - 2
      n2 = length-drop 2 r1

      n3 : length r3 ≡ length r2 - length b3
      n3 = length-drop (length b3) r2

      n4 : length r4 ≡ length r3 - length b4
      n4 = length-drop (length b4) r3

      l1 : p + 1 ≡ length p1
      l1 = omega (arith, length-append pre b1)

      l2 : p + 1 + 2 ≡ length p2
      l2 = omega (arith, l1, length-append p1 b2)

      l3 : p + 1 + 2 + name_len name ≡ length p3
      l3 = omega (arith, l2, length-append p2 b3, length-name_bytes name)

      l4 : p + 1 + 2 + name_len name + length b4 ≡ length p4
      l4 = omega (arith, l3, length-append p3 b4)

      joined : p4 ++ bytes ≡ pre ++ encode mama e
      joined = unfold encode in simp (name_bytes_lem, append_assoc)

      upto : ℕ
      upto = 3 + length b3 + length b4

      left : drop (length bytes) r4 ≡ drop (length (encode mama e)) rest
      left =
          ap (drop (length bytes)) (
            ap (drop (length b4)) (
              ap (drop (length b3)) (drop-drop 1 2 3 rest refl)
              ∙ drop-drop 3 (length b3) (3 + length b3) rest refl)
            ∙ drop-drop (3 + length b3) (length b4) upto rest refl)
          ∙ drop-drop upto (length bytes) (length (encode mama e)) rest
              (omega (arith, size, length-name_bytes name, name_len_lem name))
