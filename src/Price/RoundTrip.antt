-- ===== src/Price/RoundTrip.antt =====
-- The conversions of prices of src/Payload.cpp, there and back.
use open_mama_omnm.Prelude.{
  ℕ, ◌+◌, ◌*◌, ◌%◌, ◌^◌, ◌≤◌, ◌<◌, ◌≡◌, refl, sym, ◌∙◌, List, ◌∷◌, ◌++◌, append_assoc, true, Option,
  some, length, drop, drop_past, replicate, map, length-append, arith,
}
use mathlib.Core.Path.{ap₂}
use open_mama_omnm.Mama.{Mama, ok, is_delimited, price, vector_price}
use open_mama_omnm.Memory.{ret}
use open_mama_omnm.Memory.Laws.{read8_head, read_bytes_at}
use open_mama_omnm.Iterator.{layout}
use open_mama_omnm.Message.{OmnmFieldImpl, OmnmPayloadImpl, sizeof_price}
use open_mama_omnm.Payload.{CString, uint32_max}
use open_mama_omnm.Payload.Upserted.{Enough, upsert, KeepsEntryType, get_field-Holds}
use open_mama_omnm.Scalar.{Conversion}
use open_mama_omnm.Blocks.{flatten}
use open_mama_omnm.Objects.{Objects, IsFaithful}
use open_mama_omnm.Structs.RoundTrip.{
  IsNamed, IsStruct, update_value-Holds, get_vector-update_vector,
}
use open_mama_omnm.Price.{
  OmnmPrice, price_bytes, read_price, to_omnm_price, from_omnm_price, prices, update_price,
  get_price, get_field_price, update_vector_price, get_vector_price,
}
use open_mama_omnm.Wire.{Entry, Represents}

-- A struct whose members are in the range of their C types.
pub record IsInRange (t : OmnmPrice) : Type 0 where
  hints_range : t.hints < 256
  value_size : length t.value ≡ 8
  currency_size : length t.currency ≡ 3

length-price_bytes : (t : OmnmPrice) → IsInRange t → length (price_bytes t) ≡ sizeof_price
unfolding price_bytes
length-price_bytes t k = omega (
  arith,
  k.value_size,
  k.currency_size,
  length-append t.value (t.currency ++ replicate 5 0),
  length-append t.currency (replicate 5 0),
)

-- The struct that is read where the bytes of a struct stand is that struct.
pub read_price-price_bytes :
    (buf : List ℕ) (p : ℕ) (xs : List ℕ) (t : OmnmPrice)
    → IsInRange t
    → drop p buf ≡ price_bytes t ++ xs
    → read_price buf p ≡ ret t
unfolding read_price price_bytes
read_price-price_bytes buf p xs t k at =
    rw
      (
        read8_head buf p (t.hints % 256) _ at,
        read_bytes_at buf (p + 8) 8 t.value ((t.currency ++ replicate 5 0) ++ xs) value_at
            (sym k.value_size) (omega arith),
        read_bytes_at buf (p + 16) 3 t.currency (replicate 5 0 ++ xs)
            (drop_past (p + 8) (p + 16) buf t.value _ value_at (omega (arith, k.value_size))
              ∙ append_assoc t.currency (replicate 5 0) xs)
            (sym k.currency_size) (omega arith),
      )
      (rw hints_same refl)
  where
    front : List ℕ
    front = t.hints % 256 ∷ replicate 7 0

    value_at : drop (p + 8) buf ≡ t.value ++ ((t.currency ++ replicate 5 0) ++ xs)
    value_at = drop_past p (p + 8) buf front _ at refl ∙ append_assoc t.value _ xs

    hints_same : t.hints % 256 ≡ t.hints
    hints_same = omega (arith, k.hints_range)

pub to_omnm_price-IsInRange :
    (o : Objects) → IsFaithful o → (d : o.Price) → IsInRange (to_omnm_price o d)
unfolding to_omnm_price
to_omnm_price-IsInRange o laws d = record {
  hints_range = omega (arith, laws.hints_range d);
  value_size = laws.value_width d;
  currency_size = refl;
}

-- What libmama shows of a price.
abbrev pub price_seen : (o : Objects) → o.Price → List ℕ × ℕ
price_seen o p = (o.get_price_value p, o.get_price_hints p)

-- What libmama shows of a price comes through the struct.
pub price_seen-from_omnm_price :
    (o : Objects)
    → IsFaithful o
    → (d e : o.Price) → price_seen o (from_omnm_price o (to_omnm_price o d) e) ≡ price_seen o d
unfolding to_omnm_price from_omnm_price
price_seen-from_omnm_price o laws d e =
    let hints_same : o.get_price_hints d % 2 ^ 8 ≡ o.get_price_hints d =
      omega (arith, laws.hints_range d) in
    ap₂ (λ v h. (v, h)) (laws.value-set e (o.get_price_value d) _ (laws.value_width d))
      (laws.hints-set e (o.get_price_value d) (o.get_price_hints d % 2 ^ 8) (omega arith)
        ∙ hints_same)

pub prices-IsStruct : (o : Objects) → IsFaithful o → IsStruct (prices o) (price_seen o)
unfolding is_delimited layout
prices-IsStruct o laws = record {
  delimited = refl;
  vector_delimited = refl;
  laid_out = refl;
  vector_laid_out = refl;
  some_bytes = omega arith;
  small = omega arith;
  length-bytes = λ d. length-price_bytes (to_omnm_price o d) (to_omnm_price-IsInRange o laws d);
  read-bytes = λ buf p xs t u at. (
    from_omnm_price o (to_omnm_price o t) u,
    rw (read_price-price_bytes buf p xs (to_omnm_price o t) (to_omnm_price-IsInRange o laws t) at)
        refl,
    price_seen-from_omnm_price o laws t u,
  );
}

-- A price field that holds a struct shows what the struct is converted to.
pub get_field_price-price :
    (convert : Conversion) (o : Objects) (msg : OmnmPayloadImpl) (f : OmnmFieldImpl) (p : ℕ)
    (d : o.Price) (t : OmnmPrice)
    → f.field_type ≡ price
    → f.location ≡ some p
    → read_price msg.payload_buffer p ≡ ret t
    → get_field_price convert o msg (some f) (some d) ≡ ret (ok, some (from_omnm_price o t d))
unfolding get_field_price
get_field_price-price convert o msg f p d t typed placed read =
    rw (get_field_price, placed, typed, read) refl

module _ (mama : Mama) (enough : Enough mama) (o : Objects) (laws : IsFaithful o)
    (msg : OmnmPayloadImpl) (name : CString) (fid : ℕ) (es : List Entry) where
  -- A price that is put into a message under a valid name and fid is what the getter then makes of
  -- any price object: libmama shows the same value and hints of both, provided that a field that is
  -- there already has the type of a price, that the message is smaller than 2 GiB, that memory is
  -- allocated whenever it is asked for, and that libmama keeps what it is given.
  pub get_price-update_price :
      (convert : Conversion) (value d : o.Price)
      → Represents mama msg es
      → IsNamed name fid
      → KeepsEntryType price name fid es
      → msg.payload_buffer_tail < 2 ^ 31
      → (msg' : OmnmPayloadImpl) × (d' : o.Price) × (update_price mama o
            (some msg)
            name
            fid
            (some value)
          ≡ ret (ok, some msg'))
        × (get_price mama convert o (some msg') name fid (some d) ≡ ret (ok, some d'))
        × (price_seen o d' ≡ price_seen o value)
        × Represents mama msg' (upsert price name fid (price_bytes (to_omnm_price o value)) es)
  unfolding update_price get_price
  get_price-update_price convert value d r n keeps small =
      let s = prices o in
      let (msg', same, r', holds) =
        update_value-Holds s (price_seen o) (prices-IsStruct o laws) mama enough msg name fid es
          value r n keeps small in
      let (f, p, xs, shown, typed, _, placed, at, _) =
        get_field-Holds mama msg' price name fid (s.bytes value) _ r' n.valid holds in
      let t = to_omnm_price o value in
      let read =
        read_price-price_bytes msg'.payload_buffer p xs t (to_omnm_price-IsInRange o laws value)
          at in
      (
        msg',
        from_omnm_price o t d,
        same,
        rw (get_price, shown) (get_field_price-price convert o msg' f p d t typed placed read),
        price_seen-from_omnm_price o laws value d,
        r',
      )

  -- Prices, one at least and of less than 4 GiB, that are put into a message as a vector under a
  -- valid name and fid are what the getter then shows: their number, and objects of which libmama
  -- shows the same value and hints, with an array that has room for them, provided that a field
  -- that is there already has the type of such a vector, that the message is smaller than 2 GiB,
  -- that memory is allocated whenever it is asked for, and that libmama keeps what it is given.
  pub get_vector_price-update_vector_price :
      (vs : List o.Price) (slots : List (Option o.Price))
      → Represents mama msg es
      → IsNamed name fid
      → KeepsEntryType vector_price name fid es
      → msg.payload_buffer_tail < 2 ^ 31
      → 0 < length vs
      → length vs * sizeof_price ≤ uint32_max
      → length vs ≤ length slots
      → (msg' : OmnmPayloadImpl) × (ts : List o.Price) × (update_vector_price mama o
            (some msg)
            name
            fid
            (some vs)
          ≡ ret (ok, some msg'))
        × (get_vector_price mama o (some msg') true name fid slots ≡ ret (ok, some (ts, length vs)))
        × (map (price_seen o) ts ≡ map (price_seen o) vs)
        × Represents mama msg' (upsert vector_price name fid (flatten (map (prices o).bytes vs)) es)
  unfolding update_vector_price get_vector_price
  get_vector_price-update_vector_price vs slots =
      get_vector-update_vector (prices o) (price_seen o) (prices-IsStruct o laws) mama enough msg
        name fid es vs slots
