-- ===== src/Tests/Numbers.antt =====
-- Witnesses for updates of numbers and for getters on a field that holds no number.
use open_mama_omnm.Prelude.{◌≡◌, ◌-◌, refl, [], ◌∷◌, ◌++◌, some, none, true, replicate, arith}
use open_mama_omnm.Mama.{ok, wrong_field_type, i32, i64}
use open_mama_omnm.Memory.{ret}
use open_mama_omnm.FieldType.{is_field_type_fixed_width}
use open_mama_omnm.Message.{OmnmPayloadImpl}
use open_mama_omnm.Payload.{validate_name_fid}
use open_mama_omnm.Payload.Find.{Location, locate, selects, has_name}
use open_mama_omnm.Payload.Around.{changed}
use open_mama_omnm.Payload.Update.{place}
use open_mama_omnm.Scalar.{sizeof, is_scalar, get_scalar, update_scalar, get_field_scalar}
use open_mama_omnm.Scalar.Update.{get_scalar-update_scalar, get_scalar-untested}
use open_mama_omnm.Wire.{Represents, view}
use open_mama_omnm.Tests.Model.{
  keep, small, example_mama, message, both, number, greeting, message-Represents,
}

abbrev first : Location
first = record { before = []; entry = number; after = greeting ∷ [] }

located : locate none 1 both ≡ some first
unfolding locate selects has_name
located = refl

get_scalar-update_scalar_example :
    (msg' : OmnmPayloadImpl) × (update_scalar example_mama
        (some message)
        i32
        none
        1
        (9 ∷ 0 ∷ 0 ∷ 1 ∷ [])
      ≡ ret (ok, some msg'))
    × (get_scalar example_mama keep (some msg') true i32 none 1
        ≡ ret (ok, some (9 ∷ 0 ∷ 0 ∷ 1 ∷ [])))
    × Represents example_mama msg' (changed number (9 ∷ 0 ∷ 0 ∷ 1 ∷ []) ∷ greeting ∷ [])
get_scalar-update_scalar_example =
    get_scalar-update_scalar example_mama keep message i32 none 1 (9 ∷ 0 ∷ 0 ∷ 1 ∷ []) both first
      message-Represents (unfold is_scalar in refl) (unfold sizeof in refl)
      (unfold validate_name_fid in refl) located refl small

abbrev second : Location
second = record { before = number ∷ []; entry = greeting; after = [] }

located_greeting : locate none 2 both ≡ some second
unfolding locate selects has_name
located_greeting = refl

get_scalar-untested_example :
    (get_scalar example_mama keep (some message) true i64 none 2
      ≡ ret (ok, some ((104 ∷ 105 ∷ 0 ∷ []) ++ replicate (sizeof i64 - 3) 0)))
    × (get_field_scalar keep message
          (some (view example_mama (place example_mama message (number ∷ [])) greeting))
          true
          i64
        ≡ ret (wrong_field_type, none))
get_scalar-untested_example =
    get_scalar-untested example_mama keep message i64 none 2 both second message-Represents
      (unfold is_scalar in refl) (unfold validate_name_fid in refl) located_greeting
      (unfold is_field_type_fixed_width in refl) (unfold sizeof in omega arith)
