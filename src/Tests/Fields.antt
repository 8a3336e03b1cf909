-- ===== src/Tests/Fields.antt =====
-- Witnesses for the search, the additions and the updates of src/Payload.cpp, and for the iterator.
use open_mama_omnm.Prelude.{
  ℕ, ◌+◌, ◌-◌, ◌≡◌, inl, inr, refl, List, [], ◌∷◌, ◌++◌, Option, none, some, true, false, length,
  map, replicate, arith,
}
use open_mama_omnm.Mama.{is_delimited, ok, wrong_field_type, i32, i64, string}
use open_mama_omnm.Memory.{Run, ret, ◌>>=◌}
use open_mama_omnm.Memory.Ends.{Ends, Any}
use open_mama_omnm.FieldType.{is_field_type_fixed_width, are_field_types_castable}
use open_mama_omnm.Message.{OmnmFieldImpl, OmnmPayloadImpl, get_header_size, null_field}
use open_mama_omnm.Iterator.{OmnmIterImpl, begin, Flow, going, walk_all, layout}
use open_mama_omnm.Iterator.Drain.{call_next, showing, call_next-begin}
use open_mama_omnm.Iterator.Walk.{walk_all-entries}
use open_mama_omnm.Iterator.Fuel.{walk_all-Ends}
use open_mama_omnm.Payload.{
  find_field_in_buffer, add_field, update_field, update_known_field, validate_name_fid,
}
use open_mama_omnm.Payload.Find.{
  locate, located_view, selects, has_name, find_field_in_buffer-Located, Located, Location,
}
use open_mama_omnm.Payload.Add.{add_field-append}
use open_mama_omnm.Payload.Put.{entry_of}
use open_mama_omnm.Payload.Around.{changed}
use open_mama_omnm.Payload.Update.{
  place, wanted, Rewritten, update_known_field-bytes, update_known_field-replace,
}
use open_mama_omnm.Payload.Upsert.{update_field-replace, update_field_refused}
use open_mama_omnm.Wire.{walk_entries, IsEntry, Fits, Represents, view, views}
use open_mama_omnm.Tests.Model.{
  seven, seven-IsEntry, small, example_mama, message, both, number, greeting, message-Represents,
}

find_field_in_buffer-Located_example :
    (l : Option Location) × (find_field_in_buffer example_mama message none 2
      ≡ ret (located_view example_mama (get_header_size message) l))
    × Located none 2 both l
find_field_in_buffer-Located_example =
    find_field_in_buffer-Located example_mama message none 2 both message-Represents

count_all : ℕ → OmnmFieldImpl → Run (Flow ℕ)
count_all n f = ret (going (n + 1))

walk_all-entries_example :
    walk_all example_mama message count_all 0
    ≡ walk_entries example_mama (get_header_size message) both count_all 0
walk_all-entries_example = walk_all-entries example_mama message count_all both 0 message-Represents

-- An iterator under way, which is begun again.
abbrev halfway : OmnmIterImpl
halfway = record { field = null_field example_mama; buffer_position = 12; index = 2 }

call_next-begin_example :
    (begin example_mama message halfway >>= λ begun.
    call_next (length both + 3) example_mama message begun.1)
    ≡ ret (
        map showing (views example_mama (get_header_size message) both)
        ++ replicate 3 (false, none))
call_next-begin_example = call_next-begin example_mama message both 3 halfway message-Represents

count_all-Ends : (n : ℕ) (f : OmnmFieldImpl) → Ends Any (count_all n f)
unfolding count_all
count_all-Ends n f = tt

walk_all-Ends_example : Ends Any (walk_all example_mama message count_all 0)
walk_all-Ends_example = walk_all-Ends example_mama message count_all count_all-Ends 0

-- New data for the string.
abbrev hello : List ℕ
hello = 104 ∷ 101 ∷ 108 ∷ 108 ∷ 111 ∷ 0 ∷ []

hello-IsEntry : IsEntry (changed greeting hello)
unfolding is_delimited Fits layout
hello-IsEntry = record {
  delimited = refl;
  fid_word = omega arith;
  name_text = tt;
  fits = (
    104 ∷ 101 ∷ 108 ∷ 108 ∷ 111 ∷ [],
    (omega arith, (omega arith, (omega arith, (omega arith, (omega arith, tt))))),
    refl,
  );
}

add_field-append_example :
    (msg' : OmnmPayloadImpl) × (add_field example_mama message i64 none 3 (some seven) 8
      ≡ ret (ok, msg'))
    × Represents example_mama msg' (both ++ (entry_of i64 none 3 seven ∷ []))
    × (msg'.header ≡ message.header)
add_field-append_example =
    add_field-append example_mama message i64 none 3 seven both _ message-Represents seven-IsEntry
      (unfold validate_name_fid in refl) (omega arith) (omega arith) refl

-- The string is the second entry, and nothing has fid 3.
abbrev second : Location
second = record { before = number ∷ []; entry = greeting; after = [] }

located : locate none 2 both ≡ some second
unfolding locate selects has_name
located = refl

missing : locate none 3 both ≡ none
unfolding locate selects has_name
missing = refl

uncastable : are_field_types_castable string i64 ≡ false
unfolding are_field_types_castable is_field_type_fixed_width
uncastable = refl

update_known_field-replace_example :
    (msg' : OmnmPayloadImpl) × (update_known_field example_mama message string
        (view example_mama (place example_mama message (number ∷ [])) greeting)
        (some hello)
        6
      ≡ ret (ok, msg'))
    × Represents example_mama msg' (number ∷ changed greeting hello ∷ [])
    × (msg'.header ≡ message.header)
update_known_field-replace_example =
    update_known_field-replace example_mama message (number ∷ []) [] greeting string hello _
      message-Represents hello-IsEntry (inl refl) (omega arith) small (λ longer. refl)

-- The buffer with room for a wider number in the first entry.
abbrev widened : List ℕ
widened =
    message.payload_buffer
    ++ replicate (wanted message number.bytes seven - length message.payload_buffer) 0

castable : are_field_types_castable i32 i64 ≡ true
unfolding are_field_types_castable is_field_type_fixed_width
castable = refl

update_known_field-bytes_example :
    (msg' : OmnmPayloadImpl) × (update_known_field example_mama message i64
        (view example_mama (place example_mama message []) number)
        (some seven)
        8
      ≡ ret (ok, msg'))
    × Rewritten example_mama message []
        (greeting ∷ [])
        number
        i64
        seven
        widened
        message-Represents
        msg'
update_known_field-bytes_example =
    update_known_field-bytes example_mama message [] (greeting ∷ []) number i64 seven widened
      message-Represents (unfold is_delimited in refl) (inr castable) (omega arith) small
      (λ longer. refl)

update_field-replace_example :
    (msg' : OmnmPayloadImpl) × (update_field example_mama message string none 2 (some hello) 6
      ≡ ret (ok, msg'))
    × Represents example_mama msg' (number ∷ changed greeting hello ∷ [])
    × (msg'.header ≡ message.header)
update_field-replace_example =
    update_field-replace example_mama message string none 2 hello both second _ message-Represents
      (unfold validate_name_fid in refl) located (inl refl) hello-IsEntry (omega arith) small
      (λ longer. refl)

update_field_refused_example :
    update_field example_mama message i64 none 2 (some seven) 8 ≡ ret (wrong_field_type, message)
update_field_refused_example =
    update_field_refused example_mama message i64 none 2 seven both second message-Represents
      (unfold validate_name_fid in refl) located (λ e. cc) uncastable
