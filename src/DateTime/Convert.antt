-- ===== src/DateTime/Convert.antt =====
-- The conversions of date-times of src/Payload.cpp, there and back.
use open_mama_omnm.Prelude.{
  ℕ, ◌+◌, ◌*◌, ◌/◌, ◌%◌, ◌^◌, ◌<◌, ◌≡◌, refl, sym, ◌∙◌, List, [], ◌∷◌, ◌++◌, append_assoc, length,
  drop, drop_past, replicate, length-append, arith,
}
use open_mama_omnm.Mama.{is_delimited}
use open_mama_omnm.Memory.{ret, le32}
use open_mama_omnm.Memory.Laws.{read8_head, read32-le32_mod, read_bytes_at}
use open_mama_omnm.Iterator.{layout}
use open_mama_omnm.Message.{sizeof_date_time}
use open_mama_omnm.Objects.{Objects, IsFaithful}
use open_mama_omnm.Structs.RoundTrip.{IsStruct}
use open_mama_omnm.DateTime.{
  OmnmDateTime, le64, date_time_bytes, read_date_time, to_omnm_date_time, from_omnm_date_time,
  date_times,
}

-- A struct whose members are in the range of their C types.
pub record IsInRange (t : OmnmDateTime) : Type 0 where
  pub hints_range : t.hints < 256
  pub seconds_range : t.seconds < 2 ^ 64
  pub nanoseconds_range : t.nanoseconds < 2 ^ 32
  pub precision_range : t.precision < 256
  pub name_size : length t.timezone_name ≡ 14

pub length-date_time_bytes :
    (t : OmnmDateTime) → IsInRange t → length (date_time_bytes t) ≡ sizeof_date_time
unfolding date_time_bytes
length-date_time_bytes t k =
    omega (arith, k.name_size, length-append t.timezone_name (replicate 5 0))

-- The struct that is read where the bytes of a struct stand is that struct.
pub read_date_time-date_time_bytes :
    (buf : List ℕ) (p : ℕ) (xs : List ℕ) (t : OmnmDateTime)
    → IsInRange t
    → drop p buf ≡ date_time_bytes t ++ xs
    → read_date_time buf p ≡ ret t
unfolding read_date_time date_time_bytes
read_date_time-date_time_bytes buf p xs t k at =
    rw
      (
        read8_head buf p (t.hints % 256) _ at,
        read32-le32_mod buf (p + 8) t.seconds _ (drop_past p (p + 8) buf front _ at refl),
        read32-le32_mod buf (p + 12) (t.seconds / 2 ^ 32) _
            (drop_past p (p + 12) buf (front ++ le32 t.seconds) _ at refl),
        read32-le32_mod buf (p + 16) t.nanoseconds _
            (drop_past p (p + 16) buf (front ++ le64 t.seconds) _ at refl),
        read8_head buf (p + 20) (t.precision % 256) _
            (drop_past p (p + 20) buf (front ++ (le64 t.seconds ++ le32 t.nanoseconds)) _ at refl),
        read_bytes_at buf (p + 21) 14 t.timezone_name (replicate 5 0 ++ xs)
            (drop_past p (p + 21) buf
                (front ++ (le64 t.seconds ++ (le32 t.nanoseconds ++ (t.precision % 256 ∷ [])))) _ at
                refl
              ∙ append_assoc t.timezone_name (replicate 5 0) xs)
            (sym k.name_size) (omega arith),
      )
      (rw (hints_same, seconds_same, precision_same, nanoseconds_same) refl)
  where
    front : List ℕ
    front = t.hints % 256 ∷ replicate 7 0

    hints_same : t.hints % 256 ≡ t.hints
    hints_same = omega (arith, k.hints_range)

    seconds_same : t.seconds % 2 ^ 32 + 2 ^ 32 * (t.seconds / 2 ^ 32 % 2 ^ 32) ≡ t.seconds
    seconds_same = omega (arith, k.seconds_range)

    nanoseconds_same : t.nanoseconds % 2 ^ 32 ≡ t.nanoseconds
    nanoseconds_same = omega (arith, k.nanoseconds_range)

    precision_same : t.precision % 256 ≡ t.precision
    precision_same = omega (arith, k.precision_range)

-- The struct that a date-time is converted to has each member in the range of its C type; its
-- nanoseconds are less than a second, and are the microseconds of libmama when they are divided by
-- 1000, so that the product does not wrap around, provided that what libmama shows is in range.
pub to_omnm_date_time-IsInRange :
    (o : Objects)
    → IsFaithful o
    → (d : o.DateTime)
    → IsInRange (to_omnm_date_time o d)
      × ((to_omnm_date_time o d).nanoseconds < 1000000000)
      × ((to_omnm_date_time o d).nanoseconds / 1000 ≡ (o.get_with_hints d).1)
unfolding to_omnm_date_time
to_omnm_date_time-IsInRange o laws d =
    let (s, m, p, h) = laws.ranges d in
    (
      record {
        hints_range = omega (arith, h);
        seconds_range = omega (arith, s);
        nanoseconds_range = omega (arith, m);
        precision_range = omega (arith, p);
        name_size = refl;
      },
      omega (arith, m),
      omega (arith, m),
    )

-- What libmama shows of a date-time comes through the struct.
pub get_with_hints-from_omnm_date_time :
    (o : Objects)
    → IsFaithful o
    → (d e : o.DateTime)
    → o.get_with_hints (from_omnm_date_time o (to_omnm_date_time o d) e) ≡ o.get_with_hints d
unfolding to_omnm_date_time from_omnm_date_time
get_with_hints-from_omnm_date_time o laws d e =
    let (s, m, p, h) = laws.ranges d in
    let (seconds, microseconds, precision, hints) = o.get_with_hints d in
    let seconds_same : seconds % 2 ^ 32 % 2 ^ 32 ≡ seconds = omega (arith, s) in
    let microseconds_same : microseconds * 1000 % 2 ^ 32 / 1000 ≡ microseconds = omega (arith, m) in
    let precision_same : precision % 2 ^ 8 ≡ precision = omega (arith, p) in
    let hints_same : hints % 2 ^ 8 ≡ hints = omega (arith, h) in
    rw
      (
        from_omnm_date_time, to_omnm_date_time, seconds_same, microseconds_same, precision_same,
        hints_same,
      )
      (laws.get-set e seconds microseconds precision hints s m p h)

pub date_times-IsStruct : (o : Objects) → IsFaithful o → IsStruct (date_times o) o.get_with_hints
unfolding is_delimited layout
date_times-IsStruct o laws = record {
  delimited = refl;
  vector_delimited = refl;
  laid_out = refl;
  vector_laid_out = refl;
  some_bytes = omega arith;
  small = omega arith;
  length-bytes =
      λ d. length-date_time_bytes (to_omnm_date_time o d) (to_omnm_date_time-IsInRange o laws d).0;
  read-bytes = λ buf p xs t u at. (
    from_omnm_date_time o (to_omnm_date_time o t) u,
    rw
        (read_date_time-date_time_bytes buf p xs (to_omnm_date_time o t)
          (to_omnm_date_time-IsInRange o laws t).0 at)
        refl,
    get_with_hints-from_omnm_date_time o laws t u,
  );
}
