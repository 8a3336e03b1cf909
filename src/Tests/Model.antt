-- ===== src/Tests/Model.antt =====
-- A concrete library below src/Payload.cpp and a concrete message for the witnesses.
use open_mama_omnm.Prelude.{
  ℕ, suc, zero, ◌+◌, ◌-◌, ◌≤◌, ◌<◌, ◌≡◌, refl, sym, ap, List, [], ◌∷◌, ◌++◌, Option, none, some,
  true, length, length-append, length-replicate, replicate, arith,
}
use open_mama_omnm.Mama.{
  Mama, FieldType, is_delimited, bool, char, i8, u8, i16, u16, i32, u32, f32, quantity, i64, u64,
  f64, time, price, string, msg, opaque, collection, unknown, vector_bool, vector_char, vector_i8,
  vector_u8, vector_i16, vector_u16, vector_i32, vector_u32, vector_i64, vector_u64, vector_f32,
  vector_f64, vector_string, vector_msg, vector_time, vector_price, unlisted,
}
use open_mama_omnm.Message.{OmnmPayloadImpl, null_field, default_header, header_bytes}
use open_mama_omnm.Iterator.{layout}
use open_mama_omnm.Payload.Put.{entry_of}
use open_mama_omnm.Scalar.{Conversion}
use open_mama_omnm.Wire.{encode, count_prefix, Entry, encode_all, IsEntry, Fits, Represents}

unfoldable pub code : FieldType → ℕ
code bool = 1
code char = 2
code i8 = 3
code u8 = 4
code i16 = 5
code u16 = 6
code i32 = 7
code u32 = 8
code i64 = 9
code u64 = 10
code f32 = 11
code f64 = 12
code string = 13
code time = 14
code price = 15
code msg = 16
code opaque = 17
code collection = 18
code quantity = 19
code vector_bool = 20
code vector_char = 21
code vector_i8 = 22
code vector_u8 = 23
code vector_i16 = 24
code vector_u16 = 25
code vector_i32 = 26
code vector_u32 = 27
code vector_i64 = 28
code vector_u64 = 29
code vector_f32 = 30
code vector_f64 = 31
code vector_string = 32
code vector_msg = 33
code vector_time = 34
code vector_price = 35
code unknown = 255
code (unlisted n) = n

abbrev pub listed : List FieldType
listed =
    bool ∷ char ∷ i8 ∷ u8 ∷ i16 ∷ u16 ∷ i32 ∷ u32 ∷ i64 ∷ u64 ∷ f32 ∷ f64 ∷ string ∷ time ∷ price
    ∷ msg ∷ opaque ∷ collection ∷ quantity ∷ vector_bool ∷ vector_char ∷ vector_i8 ∷ vector_u8
    ∷ vector_i16 ∷ vector_u16 ∷ vector_i32 ∷ vector_u32 ∷ vector_i64 ∷ vector_u64 ∷ vector_f32
    ∷ vector_f64 ∷ vector_string ∷ vector_msg ∷ vector_time ∷ vector_price ∷ []

unfoldable pub nth : List FieldType → ℕ → FieldType
nth [] n = unknown
nth (t ∷ ts) zero = t
nth (t ∷ ts) (suc n) = nth ts n

abbrev pub type_of : ℕ → FieldType
type_of n = nth (unknown ∷ listed) n

pub code_byte : (t : FieldType) → is_delimited t ≡ true → code t < 256
unfolding code is_delimited
code_byte _ h = ground arith

pub type_of-code : (t : FieldType) → is_delimited t ≡ true → type_of (code t) ≡ t
unfolding code is_delimited nth
type_of-code unknown h = cc
type_of-code (unlisted n) h = cc
type_of-code _ h = refl

abbrev pub allocate : List ℕ → ℕ → Option (List ℕ)
allocate block size = some (block ++ replicate (size - length block) 0)

some_injective : (xs ys : List ℕ) → some xs ≡ some ys → xs ≡ ys
some_injective xs ys h = cc

pub allocate_grows :
    (block grown : List ℕ) (size : ℕ)
    → allocate block size ≡ some grown
    → (extra : List ℕ) × (grown ≡ block ++ extra) × (size ≤ length grown)
allocate_grows block grown size h =
    let same : block ++ replicate (size - length block) 0 ≡ grown = some_injective _ _ h in
    (
      replicate (size - length block) 0,
      sym same,
      omega (
        arith,
        ap length same,
        length-append block (replicate (size - length block) 0),
        length-replicate {A = ℕ} (size - length block) 0,
      ),
    )

abbrev pub example_mama : Mama
example_mama = record {
  code = code;
  type_of = type_of;
  code_byte = code_byte;
  type_of-code = type_of-code;
  allocate = allocate;
  allocate_grows = allocate_grows;
}

-- A number under fid 1 and the name "a", and the string "hi" under fid 2.
abbrev pub number : Entry
number = record { field_type = i32; fid = 1; name = 97 ∷ []; bytes = 5 ∷ 0 ∷ 0 ∷ 0 ∷ [] }

abbrev pub greeting : Entry
greeting = record { field_type = string; fid = 2; name = []; bytes = 104 ∷ 105 ∷ 0 ∷ [] }

abbrev pub both : List Entry
both = number ∷ greeting ∷ []

abbrev pub message : OmnmPayloadImpl
message = record {
  payload_buffer = header_bytes default_header ++ (encode_all example_mama both ++ (0 ∷ 0 ∷ []));
  payload_buffer_tail = 3 + length (encode_all example_mama both);
  field = null_field example_mama;
  scratch = [];
  parent = none;
  header = default_header;
  extender_closure = none;
}

pub number-IsEntry : IsEntry number
unfolding is_delimited Fits layout
number-IsEntry = record {
  delimited = refl;
  fid_word = omega arith;
  name_text = (omega arith, tt);
  fits = refl;
}

pub greeting-IsEntry : IsEntry greeting
unfolding is_delimited Fits layout
greeting-IsEntry = record {
  delimited = refl;
  fid_word = omega arith;
  name_text = tt;
  fits = (104 ∷ 105 ∷ [], (omega arith, (omega arith, tt)), refl);
}

pub message-Represents : Represents example_mama message both
message-Represents = record {
  head = header_bytes default_header;
  slack = 0 ∷ 0 ∷ [];
  opening = (79, [], refl);
  version = omega arith;
  content = refl;
  head_size = refl;
  tail_size = refl;
  entries = (number-IsEntry, (greeting-IsEntry, tt));
}

pub small : message.payload_buffer_tail < 2147483648
unfolding encode_all encode count_prefix layout
small = omega arith

-- A wider number, and a conversion that keeps the bytes, as no other is carried out here.
abbrev pub seven : List ℕ
seven = 7 ∷ 0 ∷ 0 ∷ 0 ∷ 0 ∷ 0 ∷ 0 ∷ 0 ∷ []

pub seven-IsEntry : IsEntry (entry_of i64 none 3 seven)
unfolding is_delimited Fits layout
seven-IsEntry = record { delimited = refl; fid_word = omega arith; name_text = tt; fits = refl }

abbrev pub keep : Conversion
keep from to bytes = bytes
