-- ===== src/Tests/Objects.antt =====
-- Witnesses for the theorems about date-times, prices and messages in the fields of src/Payload.cpp.
use open_mama_omnm.Prelude.{
  ℕ, ◌+◌, ◌*◌, ◌/◌, ◌%◌, ◌≤◌, ◌<◌, ◌≡◌, refl, List, [], ◌∷◌, ◌++◌, none, some, true, map, take,
  take-append, length-take_le, length-append, replicate, arith,
}
use mathlib.Core.Path.{ap₂}
use open_mama_omnm.Mama.{ok, time, price, vector_time, vector_price, vector_msg, i64}
use open_mama_omnm.Memory.{ret, read32}
use open_mama_omnm.Iterator.{layout}
use open_mama_omnm.Message.{OmnmPayloadImpl}
use open_mama_omnm.Payload.{validate_name_fid, update_field}
use open_mama_omnm.Payload.Find.{locate, selects, has_name}
use open_mama_omnm.Payload.Upserted.{upsert, update_field-upsert, Holds}
use open_mama_omnm.Blocks.{flatten}
use open_mama_omnm.Objects.{Objects, IsFaithful}
use open_mama_omnm.Structs.RoundTrip.{IsNamed}
use open_mama_omnm.DateTime.{
  date_time_bytes, to_omnm_date_time, date_times, update_date_time, get_date_time,
  update_vector_time, get_vector_date_time,
}
use open_mama_omnm.DateTime.Convert.{IsInRange, to_omnm_date_time-IsInRange}
use open_mama_omnm.DateTime.RoundTrip.{
  get_date_time-update_date_time, get_vector_date_time-update_vector_time,
}
use open_mama_omnm.Price.{
  price_bytes, to_omnm_price, prices, update_price, get_price, update_vector_price,
  get_vector_price,
}
use open_mama_omnm.Price.RoundTrip.{
  price_seen, get_price-update_price, get_vector_price-update_vector_price,
}
use open_mama_omnm.Messages.{count_messages, update_vector_msg_payload, get_vector_msg}
use open_mama_omnm.Messages.Write.{framed}
use open_mama_omnm.Messages.Count.{count_messages_first}
use open_mama_omnm.Messages.Read.{AllRepresent, reports}
use open_mama_omnm.Messages.RoundTrip.{get_vector_msg-update_vector_msg_payload}
use open_mama_omnm.Wire.{Represents, encode, encode_all, count_prefix}
use open_mama_omnm.Tests.Model.{example_mama, message, both, message-Represents, small, seven, keep}
use open_mama_omnm.Tests.Reach.{enough, seven-IsRequest}

-- Date-times are the numbers that they show, and prices their value and hints.
abbrev pub objects : Objects
objects = record {
  DateTime = ℕ × ℕ × ℕ × ℕ;
  create_date_time = (0, 0, 0, 0);
  clear_date_time = λ d. (0, 0, 0, 0);
  set_with_hints =
      λ d seconds microseconds precision hints. (seconds, microseconds, precision, hints);
  get_with_hints = λ d. (d.0 % 4294967296, d.1 % 1000000, d.2 % 256, d.3 % 256);
  set_from_string = λ d s. (ok, d);
  set_epoch_time_f64 = λ d v. (ok, d);
  set_epoch_time_milliseconds = λ d v. (ok, d);
  set_epoch_time_microseconds = λ d v. (ok, d);
  Price = List ℕ × ℕ;
  create_price = ([], 0);
  clear_price = λ p. ([], 0);
  set_price_with_hints = λ p value hints. (value, hints);
  set_price_value = λ p value. (value, p.1);
  get_price_value = λ p. take 8 (p.0 ++ replicate 8 0);
  get_price_hints = λ p. p.1 % 256;
}

within : (a m : ℕ) → a < m → a % m ≡ a
within a m h = grind (arith, h)

pub objects-IsFaithful : IsFaithful objects
objects-IsFaithful = record {
  ranges = λ d. (omega arith, omega arith, omega arith, omega arith);
  get-set = λ d s m p h small_s small_m small_p small_h.
      ap₂ (λ (a b : ℕ × ℕ). (a.0, a.1, b.0, b.1))
        (ap₂ (λ (a b : ℕ). (a, b)) (within s 4294967296 small_s) (within m 1000000 small_m))
        (ap₂ (λ (a b : ℕ). (a, b)) (within p 256 small_p) (within h 256 small_h));
  value_width = λ p.
      length-take_le 8 (p.0 ++ replicate 8 0) (omega (arith, length-append p.0 (replicate 8 0)));
  hints_range = λ p. omega arith;
  value-set = λ p value hints width. take-append value (replicate 8 0) 8 (omega (arith, width));
  hints-set = λ p value hints small_hints. within hints 256 small_hints;
}

abbrev pub noon : ℕ × ℕ × ℕ × ℕ
noon = (1700000000, 250000, 4, 2)

abbrev quote : List ℕ × ℕ
quote = (0 ∷ 0 ∷ 0 ∷ 0 ∷ 0 ∷ 0 ∷ 240 ∷ 63 ∷ [], 2)

third-IsNamed : IsNamed none 3
third-IsNamed = record {
  valid = unfold validate_name_fid in refl;
  name_text = tt;
  fid_word = omega arith;
}

to_omnm_date_time-IsInRange_example :
    IsInRange (to_omnm_date_time objects noon)
    × ((to_omnm_date_time objects noon).nanoseconds < 1000000000)
    × ((to_omnm_date_time objects noon).nanoseconds / 1000 ≡ 250000)
to_omnm_date_time-IsInRange_example = to_omnm_date_time-IsInRange objects objects-IsFaithful noon

update_field-upsert_example :
    (msg' : OmnmPayloadImpl) × (update_field example_mama message i64 none 3 (some seven) 8
      ≡ ret (ok, msg'))
    × (msg'.header ≡ message.header)
    × Represents example_mama msg' (upsert i64 none 3 seven both)
    × Holds i64 seven none 3 (upsert i64 none 3 seven both)
unfolding locate selects has_name
update_field-upsert_example =
    update_field-upsert example_mama enough message i64 none 3 seven both message-Represents
      seven-IsRequest tt small

get_date_time-update_date_time_example :
    (msg' : OmnmPayloadImpl) × (d' : ℕ × ℕ × ℕ × ℕ) × (update_date_time example_mama objects
        (some message)
        none
        3
        (some noon)
      ≡ ret (ok, some msg'))
    × (get_date_time example_mama objects (some msg') none 3 (some (0, 0, 0, 0))
        ≡ ret (ok, some d'))
    × (objects.get_with_hints d' ≡ objects.get_with_hints noon)
    × Represents example_mama msg'
        (upsert time none 3 (date_time_bytes (to_omnm_date_time objects noon)) both)
unfolding locate selects has_name
get_date_time-update_date_time_example =
    get_date_time-update_date_time example_mama enough objects objects-IsFaithful message none 3
      both noon (0, 0, 0, 0) message-Represents third-IsNamed tt small

get_vector_date_time-update_vector_time_example :
    (msg' : OmnmPayloadImpl) × (ts : List (ℕ × ℕ × ℕ × ℕ)) × (update_vector_time example_mama
        objects
        (some message)
        none
        3
        (some (noon ∷ noon ∷ []))
      ≡ ret (ok, some msg'))
    × (get_vector_date_time example_mama objects (some msg') true none 3 (none ∷ none ∷ [])
        ≡ ret (ok, some (ts, 2)))
    × (map objects.get_with_hints ts ≡ map objects.get_with_hints (noon ∷ noon ∷ []))
    × Represents example_mama msg' (
        upsert vector_time none 3
          (flatten (map (date_times objects).bytes (noon ∷ noon ∷ [])))
          both)
unfolding locate selects has_name
get_vector_date_time-update_vector_time_example =
    get_vector_date_time-update_vector_time example_mama enough objects objects-IsFaithful message
      none 3 both (noon ∷ noon ∷ []) (none ∷ none ∷ []) message-Represents third-IsNamed tt small
      (omega arith) (omega arith) (omega arith)

get_price-update_price_example :
    (msg' : OmnmPayloadImpl) × (d' : List ℕ × ℕ) × (update_price example_mama objects
        (some message)
        none
        3
        (some quote)
      ≡ ret (ok, some msg'))
    × (get_price example_mama keep objects (some msg') none 3 (some ([], 0)) ≡ ret (ok, some d'))
    × (price_seen objects d' ≡ price_seen objects quote)
    × Represents example_mama msg'
        (upsert price none 3 (price_bytes (to_omnm_price objects quote)) both)
unfolding locate selects has_name
get_price-update_price_example =
    get_price-update_price example_mama enough objects objects-IsFaithful message none 3 both keep
      quote ([], 0) message-Represents third-IsNamed tt small

get_vector_price-update_vector_price_example :
    (msg' : OmnmPayloadImpl) × (ts : List (List ℕ × ℕ)) × (update_vector_price example_mama objects
        (some message)
        none
        3
        (some (quote ∷ quote ∷ []))
      ≡ ret (ok, some msg'))
    × (get_vector_price example_mama objects (some msg') true none 3 (none ∷ none ∷ [])
        ≡ ret (ok, some (ts, 2)))
    × (map (price_seen objects) ts ≡ map (price_seen objects) (quote ∷ quote ∷ []))
    × Represents example_mama msg' (
        upsert vector_price none 3 (flatten (map (prices objects).bytes (quote ∷ quote ∷ []))) both)
unfolding locate selects has_name
get_vector_price-update_vector_price_example =
    get_vector_price-update_vector_price example_mama enough objects objects-IsFaithful message none
      3 both (quote ∷ quote ∷ []) (none ∷ none ∷ []) message-Represents third-IsNamed tt small
      (omega arith) (omega arith) (omega arith)

count_messages_first_example :
    (count : ℕ) × (count_messages 20 (4 ∷ 0 ∷ 0 ∷ 0 ∷ []) 0 20 0 ≡ ret count)
    × (20 ≤ count * (4 + 4))
    × (count * (4 + 4) < 20 + (4 + 4))
count_messages_first_example =
    count_messages_first (4 ∷ 0 ∷ 0 ∷ 0 ∷ []) 0 20 4 (unfold read32 in refl)

two_fit : 2 * (message.payload_buffer_tail + 4) ≤ 4294967295
unfolding encode_all encode count_prefix layout
two_fit = omega arith

get_vector_msg-update_vector_msg_payload_example :
    (msg' : OmnmPayloadImpl) × (ms' : List OmnmPayloadImpl) × (update_vector_msg_payload
        example_mama
        (some message)
        none
        3
        (some (some message ∷ some message ∷ []))
      ≡ ret (ok, some msg'))
    × (get_vector_msg example_mama (some msg') true none 3 (none ∷ none ∷ [])
        ≡ ret (ok, some (map some ms', 2)))
    × AllRepresent example_mama ms' (both ∷ both ∷ [])
    × Represents example_mama msg'
        (upsert vector_msg none 3 (flatten (map framed (reports (message ∷ message ∷ [])))) both)
unfolding locate selects has_name
get_vector_msg-update_vector_msg_payload_example =
    get_vector_msg-update_vector_msg_payload example_mama enough message none 3
      message.payload_buffer_tail both (message ∷ message ∷ []) (both ∷ both ∷ [])
      (none ∷ none ∷ []) message-Represents (message-Represents, (message-Represents, tt))
      (refl, (refl, tt)) third-IsNamed tt small (omega arith) two_fit (omega arith)
