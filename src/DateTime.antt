-- ===== src/DateTime.antt =====
-- Date-times in a message: `convertMamaDateTimeToOmnmDateTime` and `convertOmnmDateTimeToMamaDateTime` of
-- src/Payload.cpp, and the accessors of date-times of src/Payload.cpp and src/Field.cpp.
pub mod Convert
pub mod RoundTrip
use open_mama_omnm.Prelude.{
  ℕ, ◌+◌, ◌*◌, ◌/◌, ◌%◌, ◌^◌, Bool, true, false, not, List, [], ◌∷◌, ◌++◌, Option, none, some,
  if◌then◌else◌, replicate,
}
use open_mama_omnm.Mama.{
  Mama, Status, ok, null_arg, wrong_field_type, FieldType, time, string, f64, i64, u64, vector_time,
}
use open_mama_omnm.Memory.{Run, ret, fault, ◌>>=◌, read8, read32, read_bytes, string_at, le32}
use open_mama_omnm.Message.{OmnmFieldImpl, OmnmPayloadImpl, sizeof_date_time}
use open_mama_omnm.Payload.{CString, get_field}
use open_mama_omnm.Bridge.{Handle}
use open_mama_omnm.Objects.{Objects}
use open_mama_omnm.Structs

-- `omnmDateTime`. The seconds, an `int64_t`, are their bit pattern.
pub record OmnmDateTime : Type 0 where
  pub hints : ℕ
  pub seconds : ℕ
  pub nanoseconds : ℕ
  pub precision : ℕ
  pub timezone_name : List ℕ

abbrev pub le64 : ℕ → List ℕ
le64 n = le32 n ++ le32 (n / 2 ^ 32)

-- The bytes of the struct: padding stands behind the hints, and at the end.
unfoldable pub date_time_bytes : OmnmDateTime → List ℕ
date_time_bytes t =
    t.hints % 256
    ∷ (replicate 7 0
        ++ (le64 t.seconds
            ++ (le32 t.nanoseconds ++ (t.precision % 256 ∷ (t.timezone_name ++ replicate 5 0)))))

unfoldable pub read_date_time : List ℕ → ℕ → Run OmnmDateTime
read_date_time buf p = do
  hints ← read8 buf p
  low ← read32 buf (p + 8)
  high ← read32 buf (p + 12)
  nanoseconds ← read32 buf (p + 16)
  precision ← read8 buf (p + 20)
  timezone_name ← read_bytes buf (p + 21) 14
  ret (record {
    hints = hints;
    seconds = low + 2 ^ 32 * high;
    nanoseconds = nanoseconds;
    precision = precision;
    timezone_name = timezone_name;
  })

-- `convertMamaDateTimeToOmnmDateTime`
unfoldable pub to_omnm_date_time : (o : Objects) → o.DateTime → OmnmDateTime
to_omnm_date_time o from =
    let (seconds, microseconds, precision, hints) = o.get_with_hints from in
    record {
      hints = hints % 2 ^ 8;
      seconds = seconds % 2 ^ 32;
      nanoseconds = microseconds * 1000 % 2 ^ 32;
      precision = precision % 2 ^ 8;
      timezone_name = replicate 14 0;
    }

-- `convertOmnmDateTimeToMamaDateTime`
unfoldable pub from_omnm_date_time : (o : Objects) → OmnmDateTime → o.DateTime → o.DateTime
from_omnm_date_time o from to =
    o.set_with_hints to (from.seconds % 2 ^ 32) (from.nanoseconds / 1000) from.precision from.hints

abbrev pub date_times : (o : Objects) → Structs.Struct o.DateTime
date_times o = record {
  field_type = time;
  vector_type = vector_time;
  width = sizeof_date_time;
  bytes = λ d. date_time_bytes (to_omnm_date_time o d);
  read = λ buf p d. (read_date_time buf p >>= λ t. ret (from_omnm_date_time o t d));
  create = o.create_date_time;
  clear = o.clear_date_time;
}

-- `omnmmsgPayload_updateDateTime`
unfoldable pub update_date_time :
    Mama → (o : Objects) → Handle → CString → ℕ → Option o.DateTime → Run (Status × Handle)
unfolding Structs.update_value
update_date_time mama o = Structs.update_value (date_times o) mama

-- `omnmmsgPayload_addDateTime`
abbrev pub add_date_time :
    Mama → (o : Objects) → Handle → CString → ℕ → Option o.DateTime → Run (Status × Handle)
add_date_time = update_date_time

-- `omnmmsgFieldPayload_updateDateTime`
unfoldable pub update_field_date_time :
    Mama → (o : Objects) → Handle → Option OmnmFieldImpl → Option o.DateTime → Run (Status × Handle)
unfolding Structs.update_field_value
update_field_date_time mama o = Structs.update_field_value (date_times o) mama

-- The cases of `omnmmsgFieldPayload_getDateTime`, for data at a place.
unfoldable pub date_time_at :
    (o : Objects) → FieldType → List ℕ → ℕ → o.DateTime → Run (Status × o.DateTime)
date_time_at o time buf p d = do t ← read_date_time buf p; ret (ok, from_omnm_date_time o t d)
date_time_at o string buf p d = do s ← string_at buf p; ret (o.set_from_string d s)
date_time_at o f64 buf p d = do v ← read_bytes buf p 8; ret (o.set_epoch_time_f64 d v)
date_time_at o i64 buf p d = do v ← read_bytes buf p 8; ret (o.set_epoch_time_milliseconds d v)
date_time_at o u64 buf p d = do v ← read_bytes buf p 8; ret (o.set_epoch_time_microseconds d v)
date_time_at o _ buf p d = ret (wrong_field_type, d)

-- Field types for which `omnmmsgFieldPayload_getDateTime` follows the data pointer.
unfoldable pub is_date_time : FieldType → Bool
is_date_time time = true
is_date_time string = true
is_date_time f64 = true
is_date_time i64 = true
is_date_time u64 = true
is_date_time _ = false

-- `omnmmsgFieldPayload_getDateTime`: the status and the object that `result` is afterwards.
unfoldable pub get_field_date_time :
    (o : Objects)
    → OmnmPayloadImpl
    → Option OmnmFieldImpl
    → Option o.DateTime
    → Run (Status × Option o.DateTime)
unfolding date_time_at is_date_time
get_field_date_time o msg none result = ret (null_arg, result)
get_field_date_time o msg (some f) none = ret (null_arg, none)
get_field_date_time o msg (some f) (some d) =
    if not (is_date_time f.field_type) then ret (wrong_field_type, some d) else elim f.location [
      | none ↦ fault
      | some p ↦ do
        (status, d') ← date_time_at o f.field_type msg.payload_buffer p d
        ret (status, some d')
    ]

-- `omnmmsgPayload_getDateTime`; `mField` of the message, in which the field is looked up, is not part
-- of the result.
unfoldable pub get_date_time :
    Mama
    → (o : Objects) → Handle
    → CString
    → ℕ
    → Option o.DateTime
    → Run (Status × Option o.DateTime)
get_date_time mama o none name fid result = ret (null_arg, result)
get_date_time mama o (some msg) name fid none = ret (null_arg, none)
get_date_time mama o (some msg) name fid (some d) = do
  (status, field) ← get_field mama msg name fid
  elim field [ none ↦ ret (status, some d) | some f ↦ get_field_date_time o msg (some f) (some d) ]

-- `omnmmsgPayload_updateVectorTime`
unfoldable pub update_vector_time :
    Mama → (o : Objects) → Handle → CString → ℕ → Option (List o.DateTime) → Run (Status × Handle)
unfolding Structs.update_vector
update_vector_time mama o = Structs.update_vector (date_times o) mama

-- `omnmmsgPayload_addVectorDateTime`
abbrev pub add_vector_date_time :
    Mama → (o : Objects) → Handle → CString → ℕ → Option (List o.DateTime) → Run (Status × Handle)
add_vector_date_time = update_vector_time

-- `omnmmsgFieldPayload_getVectorDateTime`
unfoldable pub get_field_vector_date_time :
    (o : Objects)
    → OmnmPayloadImpl
    → Option OmnmFieldImpl
    → Bool
    → List (Option o.DateTime)
    → Run (Status × Option (List o.DateTime × ℕ))
unfolding Structs.get_field_vector
get_field_vector_date_time o = Structs.get_field_vector (date_times o)

-- `omnmmsgPayload_getVectorDateTime`
unfoldable pub get_vector_date_time :
    Mama
    → (o : Objects) → Handle
    → Bool
    → CString
    → ℕ
    → List (Option o.DateTime)
    → Run (Status × Option (List o.DateTime × ℕ))
unfolding Structs.get_vector
get_vector_date_time mama o = Structs.get_vector (date_times o) mama
