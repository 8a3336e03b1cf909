-- ===== src/Apply/Getters.antt =====
-- Termination of the getters that `omnmmsgPayload_apply` of src/Payload.cpp calls.
use open_mama_omnm.Prelude.{
  ℕ, zero, suc, ◌+◌, ◌-◌, ◌≤◌, List, Option, none, some, Bool, true, not, ◌&&◌, ◌==◌, ◌||◌, ltb,
  leb, replicate, length, arith,
}
use open_mama_omnm.Mama.{
  Mama, FieldType, Status, ok, wrong_field_type, string, msg, time, price, f64, i64, u64,
}
use open_mama_omnm.Memory.{ret, ◌>>=◌}
use open_mama_omnm.Memory.Ends.{
  Ends, Any, Ends-bind, Ends-if, Ends-option, read8-Ends, read32-Ends, strlen_at-Ends,
  string_at-Ends, read_bytes-Ends, write-Ends,
}
use open_mama_omnm.FieldType.{same_type, are_field_types_castable}
use open_mama_omnm.Message.{
  OmnmFieldImpl, OmnmPayloadImpl, new_payload, clear, omnm_protocol_version,
}
use open_mama_omnm.Payload.{CString, is_null}
use open_mama_omnm.Bridge.{
  Handle, Source, own, other, fill, create, un_serialize, set_byte_buffer, create_from_byte_buffer,
}
use open_mama_omnm.Scalar.{
  Conversion, sizeof, is_cast, validate_field, get_known_value, get_field_scalar,
}
use open_mama_omnm.Blob.{get_known_buffer, refuses, get_field_buffer, get_field_msg}
use open_mama_omnm.Strings.{string_places, count_strings, get_field_vector_string}
use open_mama_omnm.Objects.{Objects}
use open_mama_omnm.DateTime.{read_date_time, date_time_at, is_date_time, get_field_date_time}
use open_mama_omnm.Price.{read_price, from_omnm_price, priced, get_field_price}
use open_mama_omnm.Field.{own_name, get_name}

validate_field-Ends : (buf : List ℕ) (f : OmnmFieldImpl) → Ends Any (validate_field buf f)
unfolding validate_field
validate_field-Ends buf f =
    Ends-if Any (not (f.fid == 0)) _ _ tt
      (Ends-option Any f.name _ _ tt λ p. Ends-bind Any Any _ _ (read8-Ends buf p) λ c _. tt)

get_known_value-Ends :
    (convert : Conversion) (m : OmnmPayloadImpl) (given : Bool) (to : FieldType) (f : OmnmFieldImpl)
    → Ends Any (get_known_value convert m given to f)
unfolding get_known_value
get_known_value-Ends convert m given to f =
    Ends-bind Any Any _ _ (validate_field-Ends m.payload_buffer f) λ invalid _.
      Ends-option Any invalid _ _
        (Ends-if Any (not given) _ _ tt (
          Ends-if Any (ltb (sizeof to) f.size) _ _ tt (
            Ends-option Any f.location _ _ tt λ p.
              Ends-if Any (is_cast f.field_type) _ _
                (Ends-bind Any Any _ _ (read_bytes-Ends _ _ _) λ value _. tt)
                (Ends-bind Any Any _ _ (read_bytes-Ends _ _ _) λ value _. tt))))
        λ status. tt

pub get_field_scalar-Ends :
    (convert : Conversion) (m : OmnmPayloadImpl) (f : OmnmFieldImpl) (given : Bool) (t : FieldType)
    → Ends Any (get_field_scalar convert m (some f) given t)
unfolding get_field_scalar
get_field_scalar-Ends convert m f given t = Ends-if Any (not given) _ _ tt (
    Ends-if Any (is_null f.location) _ _ tt (
      Ends-if Any (not (same_type t f.field_type) && not (are_field_types_castable f.field_type t))
        _ _ tt (get_known_value-Ends convert m given t f)))

pub get_field_buffer-Ends :
    (t : FieldType) (m : OmnmPayloadImpl) (f : OmnmFieldImpl) (given : Bool)
    → Ends Any (get_field_buffer t m (some f) given)
unfolding get_field_buffer get_known_buffer
get_field_buffer-Ends t m f given =
    Ends-option Any (refuses t (some f) given) _ _
      (Ends-bind Any Any _ _ (validate_field-Ends m.payload_buffer f) λ invalid _. tt) λ status. tt

fill-Ends :
    (m : OmnmPayloadImpl) (source : Source) (buf : List ℕ) (len : ℕ)
    → Ends Any (fill m source buf len)
unfolding fill
fill-Ends m own buf len = Ends-if Any (leb len (length m.payload_buffer)) _ _ tt tt
fill-Ends m (other block) buf len =
    Ends-bind Any Any _ _ (read_bytes-Ends block 0 len) λ data_bytes _. write-Ends buf 0 data_bytes

un_serialize-Ends :
    (mama : Mama) (m : Handle) (source : Option Source) (len : ℕ)
    → Ends Any (un_serialize mama m source len)
unfolding un_serialize
un_serialize-Ends mama none source len = tt
un_serialize-Ends mama (some m) none len = tt
un_serialize-Ends mama (some m) (some source) len = Ends-if Any (len == 0) _ _ tt (
    Ends-bind Any Any _ _ (read_bytes-Ends _ _ _) λ head _.
      Ends-bind Any Any _ _ (read8-Ends head 1) λ version _.
        Ends-bind Any Any _ _ (read8-Ends head 2) λ remaining _.
          Ends-if Any (ltb omnm_protocol_version version) _ _ tt (
            Ends-option Any (mama.allocate (replicate (length m.payload_buffer) 0) len) _ _ tt
              λ buf. Ends-bind Any Any _ _ (fill-Ends m source buf len) λ filled _. tt))

create-Ends : (mama : Mama) (given : Bool) → Ends Any (create mama given)
unfolding create new_payload clear
create-Ends mama given = Ends-if Any (not given) _ _ tt (
    Ends-bind Any Any _ _
      (Ends-bind Any Any _ _ (write-Ends _ _ _)
        λ buf _. Ends-bind Any Any _ _ (write-Ends _ _ _) λ zeroed _. tt)
      λ m _. tt)

create_from_byte_buffer-Ends :
    (mama : Mama) (given : Bool) (block : Option (List ℕ)) (len : ℕ)
    → Ends Any (create_from_byte_buffer mama given block len)
unfolding create_from_byte_buffer
create_from_byte_buffer-Ends mama given none len = tt
create_from_byte_buffer-Ends mama given (some block) len = Ends-if Any (not given) _ _ tt (
    Ends-if Any (len == 0) _ _ tt (
      Ends-bind Any Any _ _ (create-Ends mama true)
        λ m _. un_serialize-Ends mama m.1 (some (other block)) len))

set_byte_buffer-Ends :
    (mama : Mama) (m : Handle) (source : Option Source) (len : ℕ)
    → Ends Any (set_byte_buffer mama m source len)
unfolding set_byte_buffer
set_byte_buffer-Ends mama m source len =
    Ends-if Any (is_null m || is_null source) _ _ tt
      (Ends-if Any (len == 0) _ _ tt (un_serialize-Ends mama m source len))

pub get_field_msg-Ends :
    (mama : Mama) (m : OmnmPayloadImpl) (f : OmnmFieldImpl) (given : Bool) (sub : Handle)
    → Ends Any (get_field_msg mama m (some f) given sub)
unfolding get_field_msg
get_field_msg-Ends mama m f given sub = Ends-if Any (not given) _ _ tt (
    Ends-option Any f.location _ _ tt λ p. Ends-if Any (not (same_type msg f.field_type)) _ _ tt (
      Ends-if Any (is_null sub) _ _ (create_from_byte_buffer-Ends mama true _ f.size)
        (set_byte_buffer-Ends mama sub _ f.size)))

-- Each string is followed by one byte at least.
string_places-Ends :
    (fuel : ℕ) (buf : List ℕ) (p size : ℕ) → size ≤ fuel → Ends Any (string_places fuel buf p size)
unfolding string_places
string_places-Ends fuel buf p zero h = tt
string_places-Ends zero buf p (suc size) h = absurd (omega arith)
string_places-Ends (suc fuel) buf p (suc size) h =
    Ends-bind Any Any _ _ (strlen_at-Ends buf p) λ n _.
      Ends-bind Any Any _ _ (string_places-Ends fuel buf (p + n + 1) (size - n) (omega arith))
        λ rest _. tt

pub get_field_vector_string-Ends :
    (m : OmnmPayloadImpl) (f : OmnmFieldImpl) (given : Bool)
    → Ends Any (get_field_vector_string m (some f) given)
unfolding get_field_vector_string
get_field_vector_string-Ends m f given = Ends-if Any (not given) _ _ tt (
    Ends-option Any f.location _ _ (Ends-if Any (f.size == 0) _ _ tt tt) λ p.
      Ends-bind Any Any _ _ (read_bytes-Ends m.payload_buffer p f.size) λ content _.
        Ends-bind Any Any _ _ (string_places-Ends f.size m.payload_buffer p f.size (omega arith))
          λ places _. Ends-if Any (ltb (count_strings content) (length places)) _ _ tt tt)

read_date_time-Ends : (buf : List ℕ) (p : ℕ) → Ends Any (read_date_time buf p)
unfolding read_date_time
read_date_time-Ends buf p = Ends-bind Any Any _ _ (read8-Ends buf p) λ hints _.
    Ends-bind Any Any _ _ (read32-Ends buf _) λ low _.
      Ends-bind Any Any _ _ (read32-Ends buf _) λ high _.
        Ends-bind Any Any _ _ (read32-Ends buf _) λ nanoseconds _.
          Ends-bind Any Any _ _ (read8-Ends buf _)
            λ precision _. Ends-bind Any Any _ _ (read_bytes-Ends buf _ 14) λ timezone_name _. tt

date_time_at-Ends :
    (o : Objects) (t : FieldType) (buf : List ℕ) (p : ℕ) (d : o.DateTime)
    → Ends Any (date_time_at o t buf p d)
unfolding date_time_at
date_time_at-Ends o time buf p d = Ends-bind Any Any _ _ (read_date_time-Ends buf p) λ t _. tt
date_time_at-Ends o string buf p d = Ends-bind Any Any _ _ (string_at-Ends buf p) λ s _. tt
date_time_at-Ends o f64 buf p d = Ends-bind Any Any _ _ (read_bytes-Ends buf p 8) λ v _. tt
date_time_at-Ends o i64 buf p d = Ends-bind Any Any _ _ (read_bytes-Ends buf p 8) λ v _. tt
date_time_at-Ends o u64 buf p d = Ends-bind Any Any _ _ (read_bytes-Ends buf p 8) λ v _. tt
date_time_at-Ends o _ buf p d = tt

pub get_field_date_time-Ends :
    (o : Objects) (m : OmnmPayloadImpl) (f : OmnmFieldImpl) (d : o.DateTime)
    → Ends Any (get_field_date_time o m (some f) (some d))
unfolding get_field_date_time
get_field_date_time-Ends o m f d = Ends-if Any (not (is_date_time f.field_type)) _ _ tt (
    Ends-option Any f.location _ _ tt
      λ p. Ends-bind Any Any _ _ (date_time_at-Ends o f.field_type m.payload_buffer p d) λ r _. tt)

read_price-Ends : (buf : List ℕ) (p : ℕ) → Ends Any (read_price buf p)
unfolding read_price
read_price-Ends buf p = Ends-bind Any Any _ _ (read8-Ends buf p) λ hints _.
    Ends-bind Any Any _ _ (read_bytes-Ends buf _ 8)
      λ value _. Ends-bind Any Any _ _ (read_bytes-Ends buf _ 3) λ currency _. tt

pub get_field_price-Ends :
    (convert : Conversion) (o : Objects) (m : OmnmPayloadImpl) (f : OmnmFieldImpl) (d : o.Price)
    → Ends Any (get_field_price convert o m (some f) (some d))
unfolding get_field_price
get_field_price-Ends convert o m f d = Ends-option Any f.location _ _ tt λ p. at p f.field_type
  where
    at :
        (p : ℕ) (t : FieldType)
        → Ends {A = Status × Option o.Price} Any (elim t [
          | price ↦ do t ← read_price m.payload_buffer p; ret (ok, some (from_omnm_price o t d))
          | f64 ↦ do value ← get_field_scalar convert m (some f) true f64; ret (priced o d value)
          | _ ↦ ret (wrong_field_type, some d)
        ])
    at p price = Ends-bind Any Any _ _ (read_price-Ends m.payload_buffer p) λ t _. tt
    at p f64 = Ends-bind Any Any _ _ (get_field_scalar-Ends convert m f true f64) λ value _. tt
    at p _ = tt

own_name-Ends : (buf : List ℕ) (p : Option ℕ) (result : CString) → Ends Any (own_name buf p result)
unfolding own_name
own_name-Ends buf none result = tt
own_name-Ends buf (some p) result =
    Ends-bind Any Any _ _ (read8-Ends buf p)
      λ c _. Ends-if Any (c == 0) _ _ tt (Ends-bind Any Any _ _ (string_at-Ends buf p) λ s _. tt)

pub get_name-Ends :
    (m : OmnmPayloadImpl) (f : OmnmFieldImpl) (described : CString) (result : Option CString)
    → Ends Any (get_name m (some f) described result)
unfolding get_name
get_name-Ends m f described none = tt
get_name-Ends m f described (some result) =
    Ends-bind Any Any _ _ (own_name-Ends m.payload_buffer f.name result) λ name _. tt
