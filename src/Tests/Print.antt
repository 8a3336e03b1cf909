-- ===== src/Tests/Print.antt =====
-- Witnesses for the theorems about `omnmmsgPayload_toString` of src/Payload.cpp.
use open_mama_omnm.Prelude.{ℕ, ◌≡◌, ◌≢◌, refl, inl, List, [], ◌∷◌, ◌++◌, none, some, true, arith}
use open_mama_omnm.Mama.{ok, string}
use open_mama_omnm.Memory.{ret, stuck, string_at}
use open_mama_omnm.Message.{OmnmPayloadImpl}
use open_mama_omnm.Scalar.{is_scalar}
use open_mama_omnm.Vector.RoundTrip.{is_scalar_vector}
use open_mama_omnm.Apply.Field.{buffer_shown}
use open_mama_omnm.Print.{Printers, get_as_string, print_typed, print_string}
use open_mama_omnm.Print.Whole.{sizeof_part, to_string}
use open_mama_omnm.Print.Room.{joined}
use open_mama_omnm.Print.Ends.{to_string-ne-stuck}
use open_mama_omnm.Print.Text.{to_string_text}
use open_mama_omnm.Iterator.{layout}
use open_mama_omnm.Blob.{get_field_buffer}
use open_mama_omnm.Wire.{view, Represents, encode, encode_all, count_prefix}
use open_mama_omnm.Tests.Model.{example_mama, greeting, greeting-IsEntry, keep}
use open_mama_omnm.Tests.Reach.{enough}
use open_mama_omnm.Tests.Objects.{objects}
use open_mama_omnm.Tests.Entries.{message_of, message_of-Represents}

-- Numbers are printed as a single digit.
abbrev printers : Printers objects
printers = record {
  number_text = λ t bytes. 48 ∷ [];
  decimal = λ n. 50 ∷ [];
  status_text = λ status. 49 ∷ [];
  date_time_text = λ d. (ok, 110 ∷ []);
  price_text = λ p. (ok, 48 ∷ []);
  elements = λ t f. ret (ok, []);
}

abbrev hi : OmnmPayloadImpl
hi = message_of (greeting ∷ [])

hi-Represents : Represents example_mama hi (greeting ∷ [])
hi-Represents = message_of-Represents (greeting ∷ []) (greeting-IsEntry, tt)

hi_shown :
    get_field_buffer string hi (some (view example_mama 3 greeting)) true ≡ ret (ok, some (some 7))
unfolding encode_all count_prefix layout
hi_shown =
    buffer_shown example_mama hi [] [] greeting hi-Represents none string
      (inl ((λ z. absurd (omega (arith, z))), refl)) refl

hi_text :
    get_as_string keep objects printers hi (some (view example_mama 3 greeting)) true sizeof_part
    ≡ ret (ok, some (104 ∷ 105 ∷ []))
unfolding get_as_string print_typed print_string is_scalar is_scalar_vector string_at encode_all
    encode count_prefix layout
hi_text = rw (get_as_string, print_typed, print_string, hi_shown) refl

to_string_text_example :
    (left : List ℕ) × (to_string example_mama keep objects printers (some hi)
      ≡ ret (
          some (
            (123
              ∷ (joined example_mama keep objects printers hi
                    (greeting ∷ [])
                    ((104 ∷ 105 ∷ []) ∷ [])
                  ++ (125 ∷ [])))
            ++ (0 ∷ left))))
to_string_text_example =
    to_string_text example_mama keep objects printers hi (λ n h. omega arith) enough (greeting ∷ [])
      ((104 ∷ 105 ∷ []) ∷ []) hi-Represents ((ok, hi_text), tt)

to_string-ne-stuck_example : to_string example_mama keep objects printers (some hi) ≢ stuck
to_string-ne-stuck_example =
    to_string-ne-stuck example_mama keep objects printers (λ t f e. cc) (some hi)
