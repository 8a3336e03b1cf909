-- ===== src/Mama.antt =====
-- The OpenMAMA API as src/Payload.cpp, src/Field.cpp and src/Iterator.cpp use it: status codes,
-- field types, and the record `Mama` of what the bridge calls in libmama and libwombat.
use open_mama_omnm.Prelude.{ℕ, ◌≤◌, ◌<◌, ◌≡◌, List, ◌++◌, Option, some, Bool, true, false, length}
use native.Mathlib.Decide.{ℕ_discrete}

-- `mama_status`, as far as the bridge returns it.
pub data Status : Type 0 where
  ok null_arg invalid_arg nomem wrong_field_type not_found not_implemented : Status

-- `mamaFieldType`. `unlisted n` is an integer that no case label of the bridge names.
pub data FieldType : Type 0 where
  bool char i8 u8 i16 u16 i32 u32 f32 quantity i64 u64 f64 time price string : FieldType
  msg opaque collection unknown : FieldType
  vector_bool vector_char vector_i8 vector_u8 vector_i16 vector_u16 vector_i32 : FieldType
  vector_u32 vector_i64 vector_u64 vector_f32 vector_f64 vector_string : FieldType
  vector_msg vector_time vector_price : FieldType
  unlisted : ℕ → FieldType

pub FieldType-discrete : Discrete FieldType
FieldType-discrete = hlevel ℕ_discrete

-- The types whose data the iterator can delimit: all listed ones but `unknown`.
unfoldable pub is_delimited : FieldType → Bool
is_delimited unknown = false
is_delimited (unlisted n) = false
is_delimited _ = true

-- Code outside this repository.
pub record Mama : Type 0 where
  -- the value of each enumerator of `mamaFieldType`, and the cast of an integer back to it
  pub code : FieldType → ℕ
  pub type_of : ℕ → FieldType
  pub code_byte : (t : FieldType) → is_delimited t ≡ true → code t < 256
  pub type_of-code : (t : FieldType) → is_delimited t ≡ true → type_of (code t) ≡ t
  -- `allocateBufferMemory`: the block at least as large as asked for, or none when the allocation
  -- fails and the block is left as it was
  pub allocate : List ℕ → ℕ → Option (List ℕ)
  pub allocate_grows :
      (block grown : List ℕ) (size : ℕ)
      → allocate block size ≡ some grown
      → (extra : List ℕ) × (grown ≡ block ++ extra) × (size ≤ length grown)
