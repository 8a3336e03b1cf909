-- ===== src/Iterator.antt =====
-- The field iterator of src/Iterator.cpp.
pub mod Step
pub mod Walk
pub mod Drain
pub mod Fuel
use open_mama_omnm.Prelude.{
  ℕ, zero, suc, ◌+◌, Bool, not, Option, none, some, List, leb, ◌==◌, if◌then◌else◌,
}
use open_mama_omnm.Mama.{
  Mama, FieldType, bool, char, i8, u8, i16, u16, i32, u32, f32, quantity, i64, u64, f64, time,
  price, string, unknown, unlisted,
}
use open_mama_omnm.Memory.{Run, ret, stuck, ◌>>=◌, read8, read16, read32, strlen_at}
use open_mama_omnm.Message.{
  OmnmFieldImpl, OmnmPayloadImpl, null_field, get_header_size, sizeof_price, sizeof_date_time,
}

-- `mMsg` is the message that each function is given. `mIndex` is only compared with 0.
pub record OmnmIterImpl : Type 0 where
  pub field : OmnmFieldImpl
  pub buffer_position : ℕ
  pub index : ℕ

-- How the data of a field is delimited: the groups of case labels in `omnmmsgPayloadIter_next`.
pub data Layout : Type 0 where
  fixed : ℕ → Layout
  text counted untouched : Layout

unfoldable pub layout : FieldType → Layout
layout bool = fixed 1
layout char = fixed 1
layout i8 = fixed 1
layout u8 = fixed 1
layout i16 = fixed 2
layout u16 = fixed 2
layout i32 = fixed 4
layout u32 = fixed 4
layout f32 = fixed 4
layout quantity = fixed 4
layout i64 = fixed 8
layout u64 = fixed 8
layout f64 = fixed 8
layout price = fixed sizeof_price
layout string = text
layout time = fixed sizeof_date_time
layout unknown = untouched
layout (unlisted n) = untouched
layout _ = counted

-- The switch: the new `mData`, `mSize` and buffer position. Where no label sets `mData`, the pointer
-- of the previous field stays.
unfoldable pub delimit : Layout → List ℕ → ℕ → Option ℕ → Run (Option ℕ × ℕ × ℕ)
delimit (fixed w) buf p old = ret (some p, w, p)
delimit text buf p old = do n ← strlen_at buf p; ret (some p, n + 1, p)
delimit counted buf p old = do n ← read32 buf p; ret (some (p + 4), n, p + 4)
delimit untouched buf p old = ret (old, 0, p)

-- The name, `none` if empty, and the position behind its terminator.
unfoldable pub read_name : List ℕ → ℕ → Run (Option ℕ × ℕ)
read_name buf p = do
  c ← read8 buf p
  if c == 0 then ret (none, p + 1) else do n ← strlen_at buf p; ret (some p, p + n + 1)

abbrev pub has_next : OmnmPayloadImpl → OmnmIterImpl → Bool
has_next msg it = not (leb msg.payload_buffer_tail it.buffer_position)

-- The part of `omnmmsgPayloadIter_next` behind the test of `hasNext`. The first call only primes the
-- iterator: it returns the first field and goes back to it.
unfoldable pub read_field :
    Mama → OmnmPayloadImpl → OmnmIterImpl → Run (OmnmFieldImpl × OmnmIterImpl)
unfolding read_name delimit
read_field mama msg it = do
  let buf = msg.payload_buffer
  t ← read8 buf it.buffer_position
  fid ← read16 buf (it.buffer_position + 1)
  (name, p) ← read_name buf (it.buffer_position + 1 + 2)
  (location, size, q) ← delimit (layout (mama.type_of t)) buf p it.field.location
  let field : OmnmFieldImpl = record {
    field_type = mama.type_of t;
    fid = fid;
    name = name;
    size = size;
    location = location;
  }
  ret (
    field,
    record {
      field = field;
      buffer_position = if it.index == 0 then get_header_size msg else q + size;
      index = it.index + 1;
    },
  )

-- `omnmmsgPayloadIter_next`
unfoldable pub next :
    Mama → OmnmPayloadImpl → OmnmIterImpl → Run (Option OmnmFieldImpl × OmnmIterImpl)
next mama msg it =
    if has_next msg it
    then (do (f, it') ← read_field mama msg it; ret (some f, it'))
    else ret (none, it)

-- `omnmmsgPayloadIter_begin`
unfoldable pub begin :
    Mama → OmnmPayloadImpl → OmnmIterImpl → Run (Option OmnmFieldImpl × OmnmIterImpl)
begin mama msg it = next mama msg (record it { index = 0; buffer_position = get_header_size msg })

-- `omnmmsgPayloadIter_end`, which does nothing
abbrev pub end : Option OmnmFieldImpl
end = none

-- `omnmmsgPayloadIterImpl_init`, on an iterator of the caller's
unfoldable pub init : Mama → OmnmPayloadImpl → Run OmnmIterImpl
init mama msg = do
  (first, it) ← begin mama msg (record { field = null_field mama; buffer_position = 0; index = 0 })
  ret it

-- How the body of a `while (NULL != (field = omnmmsgPayloadIter_next (...)))` loop ends.
pub data Flow {ℓ} (S : Type ℓ) : Type ℓ where
  going : S → Flow S
  over : S → Flow S

module _ {ℓ} {S : Type ℓ} where
  -- The loop itself. `visit` is its body, on the variables that the body changes.
  unfoldable pub walk :
      ℕ → Mama → OmnmPayloadImpl → OmnmIterImpl → (S → OmnmFieldImpl → Run (Flow S)) → S → Run S
  walk zero mama msg it visit s = stuck
  walk (suc fuel) mama msg it visit s = do
    (found, it') ← next mama msg it
    elim found [
      | none ↦ ret s
      | some f ↦ visit s f >>= elim [ over t ↦ ret t | going t ↦ walk fuel mama msg it' visit t ]
    ]

  -- `omnmmsgPayloadIterImpl_init` and the loop. A round after the first moves on by four bytes at
  -- least, so that there are fewer rounds than bytes.
  unfoldable pub walk_all : Mama → OmnmPayloadImpl → (S → OmnmFieldImpl → Run (Flow S)) → S → Run S
  walk_all mama msg visit s = do
    it ← init mama msg
    walk (msg.payload_buffer_tail + 2) mama msg it visit s
