-- ===== src/Tests/Entries.antt =====
-- Messages of some entries, to be merged with others.
use open_mama_omnm.Prelude.{
  ◌+◌, ◌≡◌, refl, inl, inr, false, List, [], ◌∷◌, ◌++◌, none, length, arith, append-nil,
}
use open_mama_omnm.Mama.{is_delimited, i32, vector_string, vector_msg, msg, time}
use open_mama_omnm.Strings.Read.{joined}
use open_mama_omnm.Iterator.{layout}
use open_mama_omnm.Message.{
  sizeof_date_time, OmnmPayloadImpl, null_field, default_header, header_bytes,
}
use open_mama_omnm.Scalar.{is_scalar}
use open_mama_omnm.Apply.Plain.{
  IsPlain, copies_number, copies_strings, copies_message, copies_date_time,
}
use open_mama_omnm.Apply.Step.{is_put, AllHandled}
use open_mama_omnm.DateTime.{date_time_bytes, to_omnm_date_time}
use open_mama_omnm.DateTime.Convert.{date_times-IsStruct}
use open_mama_omnm.Vector.RoundTrip.{is_scalar_vector}
use open_mama_omnm.Wire.{Entry, IsEntry, AllEntries, Fits, encode_all, Represents}
use open_mama_omnm.Tests.Model.{example_mama, number, number-IsEntry}
use open_mama_omnm.Tests.Objects.{objects, objects-IsFaithful, noon}

abbrev pub message_of : List Entry → OmnmPayloadImpl
message_of es = record {
  payload_buffer = header_bytes default_header ++ encode_all example_mama es;
  payload_buffer_tail = 3 + length (encode_all example_mama es);
  field = null_field example_mama;
  scratch = [];
  parent = none;
  header = default_header;
  extender_closure = none;
}

pub message_of-Represents :
    (es : List Entry) → AllEntries es → Represents example_mama (message_of es) es
message_of-Represents es k = record {
  head = header_bytes default_header;
  slack = [];
  opening = (79, [], refl);
  version = omega arith;
  content = rw append-nil refl;
  head_size = refl;
  tail_size = refl;
  entries = k;
}

-- Another number, with a name and without.
abbrev pub other : Entry
other = record { field_type = i32; fid = 2; name = 98 ∷ []; bytes = 6 ∷ 0 ∷ 0 ∷ 0 ∷ [] }

abbrev pub unnamed : Entry
unnamed = record other { name = [] }

-- A vector of messages, which is passed over.
abbrev lost : Entry
lost = record { field_type = vector_msg; fid = 7; name = 101 ∷ []; bytes = 0 ∷ 0 ∷ 0 ∷ 0 ∷ [] }

abbrev pub numbers : List Entry
numbers = number ∷ other ∷ []

-- The same with a vector of messages, which is passed over.
abbrev pub parts : List Entry
parts = number ∷ lost ∷ other ∷ []

pub other-IsEntry : IsEntry other
unfolding is_delimited Fits layout
other-IsEntry = record {
  delimited = refl;
  fid_word = omega arith;
  name_text = (omega arith, tt);
  fits = refl;
}

pub unnamed-IsEntry : IsEntry unnamed
unfolding is_delimited Fits layout
unnamed-IsEntry = record { delimited = refl; fid_word = omega arith; name_text = tt; fits = refl }

pub number-IsPlain : IsPlain objects number
unfolding is_scalar
number-IsPlain = record {
  copied = copies_number refl;
  asked = inl (λ z. absurd (omega arith));
  some_data = omega arith;
  short = omega arith;
}

pub other-IsPlain : IsPlain objects other
unfolding is_scalar
other-IsPlain = record {
  copied = copies_number refl;
  asked = inl (λ z. absurd (omega arith));
  some_data = omega arith;
  short = omega arith;
}

pub unnamed-IsPlain : IsPlain objects unnamed
unfolding is_scalar
unnamed-IsPlain = record {
  copied = copies_number refl;
  asked = inl (λ z. absurd (omega arith));
  some_data = omega arith;
  short = omega arith;
}

-- The strings "h" and "", and a message without entries.
abbrev letters : Entry
letters = record { field_type = vector_string; fid = 4; name = 100 ∷ []; bytes = 104 ∷ 0 ∷ 0 ∷ [] }

abbrev inner : Entry
inner = record { field_type = msg; fid = 5; name = 99 ∷ []; bytes = header_bytes default_header }

-- A date-time.
abbrev pub date : Entry
date = record {
  field_type = time;
  fid = 6;
  name = 102 ∷ [];
  bytes = date_time_bytes (to_omnm_date_time objects noon);
}

abbrev pub mixed : List Entry
mixed = number ∷ letters ∷ lost ∷ inner ∷ date ∷ []

letters-IsEntry : IsEntry letters
unfolding is_delimited Fits layout
letters-IsEntry = record {
  delimited = refl;
  fid_word = omega arith;
  name_text = (omega arith, tt);
  fits = omega arith;
}

inner-IsEntry : IsEntry inner
unfolding is_delimited Fits layout
inner-IsEntry = record {
  delimited = refl;
  fid_word = omega arith;
  name_text = (omega arith, tt);
  fits = omega arith;
}

letters-IsPlain : IsPlain objects letters
unfolding joined
letters-IsPlain = record {
  copied = copies_strings refl ((104 ∷ []) ∷ [] ∷ []) ((omega arith, tt), (tt, tt)) refl;
  asked = inl (λ z. absurd (omega arith));
  some_data = omega arith;
  short = omega arith;
}

inner-IsPlain : IsPlain objects inner
inner-IsPlain = record {
  copied = copies_message refl (_, _, _, [], refl, omega arith);
  asked = inl (λ z. absurd (omega arith));
  some_data = omega arith;
  short = omega arith;
}

pub lost-IsEntry : IsEntry lost
unfolding is_delimited Fits layout
lost-IsEntry = record {
  delimited = refl;
  fid_word = omega arith;
  name_text = (omega arith, tt);
  fits = omega arith;
}

date_size : length date.bytes ≡ sizeof_date_time
date_size = (date_times-IsStruct objects objects-IsFaithful).length-bytes noon

date-IsEntry : IsEntry date
unfolding is_delimited Fits layout
date-IsEntry = record {
  delimited = refl;
  fid_word = omega arith;
  name_text = (omega arith, tt);
  fits = date_size;
}

date-IsPlain : IsPlain objects date
date-IsPlain = record {
  copied = copies_date_time refl noon refl;
  asked = inl (λ z. absurd (omega arith));
  some_data = omega (arith, date_size);
  short = omega (arith, date_size);
}

pub mixed-IsEntry : AllEntries mixed
mixed-IsEntry =
    (number-IsEntry, (letters-IsEntry, (lost-IsEntry, (inner-IsEntry, (date-IsEntry, tt)))))

pub lost_passed : is_put vector_msg ≡ false
unfolding is_put is_scalar is_scalar_vector
lost_passed = refl

pub mixed-AllHandled : AllHandled objects mixed
mixed-AllHandled = (
  inl number-IsPlain,
  (inl letters-IsPlain, (inr lost_passed, (inl inner-IsPlain, (inl date-IsPlain, tt)))),
)
