-- ===== src/FieldType.antt =====
-- The static classifications of `mamaFieldType` in src/Payload.cpp (`isFieldTypeSized`,
-- `isFieldTypeFixedWidth`, `areFieldTypesCastable`).
pub mod Laws
use open_mama_omnm.Prelude.{ℕ, Bool, true, false, ◌&&◌, if◌then◌else◌}
use open_mama_omnm.Mama.{
  FieldType, bool, char, i8, u8, i16, u16, i32, u32, f32, quantity, i64, u64, f64, time, price,
  string, FieldType-discrete,
}

-- `switch` over the type: the labels that return false, and `default`
unfoldable pub is_field_type_sized : FieldType → Bool
is_field_type_sized bool = false
is_field_type_sized char = false
is_field_type_sized i8 = false
is_field_type_sized u8 = false
is_field_type_sized i16 = false
is_field_type_sized u16 = false
is_field_type_sized i32 = false
is_field_type_sized u32 = false
is_field_type_sized f32 = false
is_field_type_sized quantity = false
is_field_type_sized i64 = false
is_field_type_sized u64 = false
is_field_type_sized f64 = false
is_field_type_sized time = false
is_field_type_sized price = false
is_field_type_sized string = false
is_field_type_sized _ = true

unfoldable pub is_field_type_fixed_width : FieldType → Bool
is_field_type_fixed_width bool = true
is_field_type_fixed_width char = true
is_field_type_fixed_width i8 = true
is_field_type_fixed_width u8 = true
is_field_type_fixed_width i16 = true
is_field_type_fixed_width u16 = true
is_field_type_fixed_width i32 = true
is_field_type_fixed_width u32 = true
is_field_type_fixed_width f32 = true
is_field_type_fixed_width quantity = true
is_field_type_fixed_width i64 = true
is_field_type_fixed_width u64 = true
is_field_type_fixed_width f64 = true
is_field_type_fixed_width _ = false

unfoldable pub are_field_types_castable : FieldType → FieldType → Bool
are_field_types_castable from to =
    if is_field_type_fixed_width from && is_field_type_fixed_width to then true else false

-- `==` on `mamaFieldType`
unfoldable pub same_type : FieldType → FieldType → Bool
same_type a b = elim (FieldType-discrete a b) [ yes _ ↦ true | no _ ↦ false ]
