-- ===== src/Vector/RoundTrip.antt =====
-- A vector of numbers that is added to a message of src/Payload.cpp, and got from it again.
use open_mama_omnm.Prelude.{
  ℕ, ◌*◌, ◌/◌, ◌≤◌, ◌<◌, ◌≡◌, refl, sym, ap, List, [], ◌∷◌, ◌++◌, Bool, true, false, none, some,
  length, arith,
}
use mathlib.Core.Path.{subst}
use open_mama_omnm.Mama.{
  Mama, FieldType, ok, is_delimited, vector_bool, vector_char, vector_i8, vector_u8, vector_i16,
  vector_u16, vector_i32, vector_u32, vector_f32, vector_i64, vector_u64, vector_f64,
}
use open_mama_omnm.Memory.{ret, read_bytes}
use open_mama_omnm.Memory.Laws.{IsText}
use open_mama_omnm.Iterator.{layout, counted}
use open_mama_omnm.Message.{OmnmPayloadImpl}
use open_mama_omnm.Payload.{CString, validate_name_fid, uint32_max}
use open_mama_omnm.Payload.Find.{NoneSelected}
use open_mama_omnm.Payload.Add.{needed, validated}
use open_mama_omnm.Payload.Put.{entry_of, text_of}
use open_mama_omnm.Payload.Added.{get_field-locate, added}
use open_mama_omnm.Scalar.{on_handle}
use open_mama_omnm.Vector.{element_size, data_size, add_scalar_vector, get_scalar_vector}
use open_mama_omnm.Wire.{Entry, IsEntry, Fits, Represents}
use open_mama_omnm.Wire.Data.{data_place, read_bytes-view}

-- The vectors with an accessor of their own.
unfoldable pub is_scalar_vector : FieldType → Bool
is_scalar_vector vector_bool = true
is_scalar_vector vector_char = true
is_scalar_vector vector_i8 = true
is_scalar_vector vector_u8 = true
is_scalar_vector vector_i16 = true
is_scalar_vector vector_u16 = true
is_scalar_vector vector_i32 = true
is_scalar_vector vector_u32 = true
is_scalar_vector vector_f32 = true
is_scalar_vector vector_i64 = true
is_scalar_vector vector_u64 = true
is_scalar_vector vector_f64 = true
is_scalar_vector _ = false

layout-vector : (t : FieldType) → is_scalar_vector t ≡ true → layout t ≡ counted
unfolding layout is_scalar_vector
layout-vector _ h = ground arith

is_scalar_vector→is_delimited : (t : FieldType) → is_scalar_vector t ≡ true → is_delimited t ≡ true
unfolding is_delimited is_scalar_vector
is_scalar_vector→is_delimited _ h = ground arith

positive : (t : FieldType) → 0 < element_size t
unfolding element_size
positive _ = ground arith

pub whole : (t : FieldType) (n : ℕ) → n * element_size t / element_size t ≡ n
whole t n = grind (arith, positive t)

-- The size of a block of less than 4 GiB does not wrap around.
pub data_size_lem :
    (t : FieldType) (size : ℕ) (value : List ℕ)
    → length value ≡ size * element_size t
    → length value ≤ uint32_max
    → data_size t size ≡ length value
unfolding data_size
data_size_lem t size value width short = rw (← width) (omega (arith, short))

-- A vector of numbers makes an entry.
pub vector-IsEntry :
    (t : FieldType) (name : CString) (fid : ℕ) (value : List ℕ)
    → is_scalar_vector t ≡ true
    → IsText (text_of name)
    → fid < 65536
    → length value ≤ uint32_max
    → IsEntry (entry_of t name fid value)
vector-IsEntry t name fid value vector named short few = record {
  delimited = is_scalar_vector→is_delimited t vector;
  fid_word = short;
  name_text = named;
  fits = subst (λ l. Fits l value) (sym (layout-vector t vector)) (unfold Fits in omega arith);
}

module _ (mama : Mama) (msg : OmnmPayloadImpl) (t : FieldType) (name : CString) (fid : ℕ)
    (value : List ℕ) (size : ℕ) (es : List Entry) (grown : List ℕ) where
  -- A vector of numbers, of one byte at least and a size that 32 bits hold, added under a valid
  -- name and fid that no entry of the message has is what the getter of its type then shows: the
  -- number of its elements, and a place at which their bytes stand, provided the memory is
  -- allocated.
  pub get_scalar_vector-add_scalar_vector :
      Represents mama msg es
      → is_scalar_vector t ≡ true
      → validate_name_fid name fid ≡ none
      → IsText (text_of name)
      → fid < 65536
      → length value ≡ size * element_size t
      → 0 < length value
      → length value ≤ uint32_max
      → NoneSelected name fid es
      → mama.allocate msg.payload_buffer (needed mama msg (entry_of t name fid value)) ≡ some grown
      → (msg' : OmnmPayloadImpl) × (at : ℕ) × (add_scalar_vector mama
            (some msg)
            t
            name
            fid
            (some value)
            size
          ≡ ret (ok, some msg'))
        × (get_scalar_vector mama (some msg') true t name fid ≡ ret (ok, some (some at, size)))
        × (read_bytes msg'.payload_buffer at (length value) ≡ ret value)
        × Represents mama msg' (es ++ (entry_of t name fid value ∷ []))
  unfolding add_scalar_vector get_scalar_vector
  get_scalar_vector-add_scalar_vector r vector valid named short width some_data few missed memory =
      let (msg', same, r', found) =
        added mama msg t name fid value es grown r entry valid some_data few missed memory in
      (
        msg',
        data_place mama msg' es (entry_of t name fid value),
        rw (validated name fid valid, data_size_lem t size value width few) (ap on_handle same),
        rw (get_field-locate mama msg' name fid _ _ r' valid found, width, whole t size) refl,
        read_bytes-view mama msg' es [] (entry_of t name fid value) r',
        r',
      )
    where
      entry : IsEntry (entry_of t name fid value)
      entry = vector-IsEntry t name fid value vector named short few
