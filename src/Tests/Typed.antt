-- ===== src/Tests/Typed.antt =====
-- Witnesses for the typed accessors of src/Payload.cpp and src/Field.cpp.
use open_mama_omnm.Prelude.{ℕ, ◌≡◌, refl, inl, inr, List, [], ◌∷◌, ◌++◌, some, none, true, arith}
use open_mama_omnm.Mama.{ok, i16, i32, i64, vector_i16, vector_string}
use open_mama_omnm.Memory.{ret, read_bytes}
use open_mama_omnm.Message.{OmnmPayloadImpl}
use open_mama_omnm.Payload.{validate_name_fid, text_eq}
use open_mama_omnm.Payload.Find.{Location, locate, selects, has_name, NoneSelected}
use open_mama_omnm.Payload.Put.{entry_of}
use open_mama_omnm.Scalar.{cast, sizeof, is_scalar, kind, add_scalar, get_scalar}
use open_mama_omnm.Scalar.Read.{get_scalar-cast}
use open_mama_omnm.Scalar.RoundTrip.{get_scalar-add_scalar}
use open_mama_omnm.Scalar.Extend.{Widens, cast-Same}
use open_mama_omnm.Vector.{element_size, add_scalar_vector, get_scalar_vector}
use open_mama_omnm.Vector.RoundTrip.{is_scalar_vector, get_scalar_vector-add_scalar_vector}
use open_mama_omnm.Strings.{update_vector_string, get_vector_string, bytes_required}
use open_mama_omnm.Strings.Read.{joined, strings_at}
use open_mama_omnm.Strings.RoundTrip.{get_vector_string-update_vector_string}
use open_mama_omnm.Wire.{Represents, Names}
use open_mama_omnm.Tests.Model.{
  keep, example_mama, message, both, number, greeting, message-Represents,
}

abbrev first : Location
first = record { before = []; entry = number; after = greeting ∷ [] }

located : locate (some (97 ∷ [])) 0 both ≡ some first
unfolding locate selects has_name text_eq
located = refl

-- No entry of the message has fid 9.
unused : NoneSelected none 9 both
unfolding Names
unused = (
  elim [ inl h ↦ absurd (omega (arith, h.1)) | inr h ↦ h ],
  (elim [ inl h ↦ absurd (omega (arith, h.1)) | inr h ↦ h ], tt),
)

get_scalar-cast_example :
    get_scalar example_mama keep (some message) true i64 (some (97 ∷ [])) 0
    ≡ ret (ok, some (cast keep i32 i64 (5 ∷ 0 ∷ 0 ∷ 0 ∷ [])))
get_scalar-cast_example =
    get_scalar-cast example_mama keep message i64 (some (97 ∷ [])) 0 both first message-Represents
      (unfold validate_name_fid in refl) located (unfold is_scalar in refl)
      (unfold sizeof in omega arith)

get_scalar-add_scalar_example :
    (msg' : OmnmPayloadImpl) × (add_scalar example_mama (some message) i16 none 9 (3 ∷ 1 ∷ [])
      ≡ ret (ok, some msg'))
    × (get_scalar example_mama keep (some msg') true i16 none 9 ≡ ret (ok, some (3 ∷ 1 ∷ [])))
    × Represents example_mama msg' (both ++ (entry_of i16 none 9 (3 ∷ 1 ∷ []) ∷ []))
get_scalar-add_scalar_example =
    get_scalar-add_scalar example_mama keep message i16 none 9 (3 ∷ 1 ∷ []) both _
      message-Represents (unfold is_scalar in refl) (unfold sizeof in refl)
      (unfold validate_name_fid in refl) tt (omega arith) unused refl

cast-Same_example :
    Widens (kind i16) (sizeof i32) (cast keep i16 i32 (254 ∷ 255 ∷ [])) (254 ∷ 255 ∷ [])
cast-Same_example =
    cast-Same keep i16 i32 (254 ∷ 255 ∷ []) (unfold kind in λ e. cc) (unfold kind in λ e. cc)
      (unfold sizeof in refl) (unfold sizeof in omega arith)

get_scalar_vector-add_scalar_vector_example :
    (msg' : OmnmPayloadImpl) × (at : ℕ) × (add_scalar_vector example_mama
        (some message)
        vector_i16
        none
        9
        (some (1 ∷ 0 ∷ 2 ∷ 0 ∷ []))
        2
      ≡ ret (ok, some msg'))
    × (get_scalar_vector example_mama (some msg') true vector_i16 none 9
        ≡ ret (ok, some (some at, 2)))
    × (read_bytes msg'.payload_buffer at 4 ≡ ret (1 ∷ 0 ∷ 2 ∷ 0 ∷ []))
    × Represents example_mama msg' (both ++ (entry_of vector_i16 none 9 (1 ∷ 0 ∷ 2 ∷ 0 ∷ []) ∷ []))
get_scalar_vector-add_scalar_vector_example =
    get_scalar_vector-add_scalar_vector example_mama message vector_i16 none 9 (1 ∷ 0 ∷ 2 ∷ 0 ∷ [])
      2 both _ message-Represents (unfold is_scalar_vector in refl)
      (unfold validate_name_fid in refl) tt (omega arith) (unfold element_size in refl)
      (omega arith) (omega arith) unused refl

abbrev texts : List (List ℕ)
texts = (111 ∷ 107 ∷ []) ∷ [] ∷ []

get_vector_string-update_vector_string_example :
    (msg' : OmnmPayloadImpl) × (at : List ℕ) × (update_vector_string example_mama
        (some message)
        none
        9
        (some texts)
      ≡ ret (ok, some msg'))
    × (get_vector_string example_mama (some msg') true none 9 ≡ ret (ok, some (at, 2)))
    × (strings_at msg'.payload_buffer at ≡ ret texts)
    × Represents example_mama msg' (both ++ (entry_of vector_string none 9 (joined texts) ∷ []))
get_vector_string-update_vector_string_example =
    get_vector_string-update_vector_string example_mama message none 9 texts both _ _
      message-Represents (unfold validate_name_fid in refl) tt (omega arith)
      ((omega arith, (omega arith, tt)), (tt, tt)) (omega arith)
      (unfold bytes_required in omega arith) unused refl refl
