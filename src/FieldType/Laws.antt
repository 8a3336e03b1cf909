-- ===== src/FieldType/Laws.antt =====
-- What the classifications of `mamaFieldType` in src/Payload.cpp have to do with each other.
use open_mama_omnm.Prelude.{◌≡◌, ◌≢◌, refl, true, false}
use open_mama_omnm.Mama.{FieldType, FieldType-discrete}
use open_mama_omnm.FieldType.{same_type}

pub same_type_refl : (t : FieldType) → same_type t t ≡ true
unfolding same_type
same_type_refl t =
    elim (FieldType-discrete t t) as (λ d. elim d [ yes _ ↦ true | no _ ↦ false ] ≡ true) [
      | yes e ↦ refl
      | no n ↦ absurd (n refl)
    ]

pub same_type_ne : (s t : FieldType) → s ≢ t → same_type s t ≡ false
unfolding same_type
same_type_ne s t h =
    elim (FieldType-discrete s t) as (λ d. elim d [ yes _ ↦ true | no _ ↦ false ] ≡ false) [
      | yes e ↦ absurd (h e)
      | no n ↦ refl
    ]
