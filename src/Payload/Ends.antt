-- ===== src/Payload/Ends.antt =====
-- Termination of the changes of a message in src/Payload.cpp.
use open_mama_omnm.Prelude.{ℕ, List, Option, ◌==◌, ◌&&◌, ◌||◌, not, ltb}
use open_mama_omnm.Mama.{Mama, FieldType}
use open_mama_omnm.Memory.Ends.{
  Ends, Any, Ends-bind, Ends-if, Ends-option, read_bytes-Ends, write-Ends,
}
use open_mama_omnm.FieldType.{is_field_type_sized, same_type, are_field_types_castable}
use open_mama_omnm.Message.{OmnmFieldImpl, OmnmPayloadImpl}
use open_mama_omnm.Payload.{
  CString, validate_name_fid, is_null, uint32_max, get_field, put_field, add_field, resize_data,
  update_known_field, update_field,
}
use open_mama_omnm.Payload.Fuel.{find_field_in_buffer-Ends}

pub get_field-Ends :
    (mama : Mama) (msg : OmnmPayloadImpl) (name : CString) (fid : ℕ)
    → Ends Any (get_field mama msg name fid)
unfolding get_field
get_field-Ends mama msg name fid =
    Ends-option Any (validate_name_fid name fid) _ _
      (Ends-bind Any Any _ _ (find_field_in_buffer-Ends mama msg name fid) λ found _. tt)
      λ status. tt

put_field-Ends :
    (mama : Mama) (buf : List ℕ) (p : ℕ) (type : FieldType) (name : CString) (fid : ℕ)
    (source : List ℕ) (len : ℕ)
    → Ends Any (put_field mama buf p type name fid source len)
unfolding put_field
put_field-Ends mama buf p type name fid source len =
    Ends-bind Any Any _ _ (write-Ends buf p _) λ buf _.
      Ends-bind Any Any _ _ (write-Ends buf _ _) λ buf _.
        Ends-bind Any Any _ _ (write-Ends buf _ _) λ buf _.
          Ends-bind Any Any _ _ (Ends-if Any (is_field_type_sized type) _ _ (write-Ends buf _ _) tt)
            λ buf _.
              Ends-bind Any Any _ _ (read_bytes-Ends source 0 len)
                λ data_bytes _. write-Ends buf _ _

pub add_field-Ends :
    (mama : Mama) (msg : OmnmPayloadImpl) (type : FieldType) (name : CString) (fid : ℕ)
    (buffer : Option (List ℕ)) (len : ℕ)
    → Ends Any (add_field mama msg type name fid buffer len)
unfolding add_field
add_field-Ends mama msg type name fid buffer len = Ends-if Any (ltb uint32_max len) _ _ tt (
    Ends-option Any buffer _ _ tt λ source.
      Ends-if Any (len == 0 || (is_null name && fid == 0)) _ _ tt (
        Ends-option Any (validate_name_fid name fid) _ _
          (Ends-bind Any Any _ _ (put_field-Ends mama _ _ type name fid source len) λ buf _. tt)
          λ status. tt))

resize_data-Ends :
    (mama : Mama) (msg : OmnmPayloadImpl) (location size len : ℕ)
    → Ends Any (resize_data mama msg location size len)
unfolding resize_data
resize_data-Ends mama msg location size len =
    Ends-bind Any Any _ _ (read_bytes-Ends _ _ _)
      λ rest _. Ends-bind Any Any _ _ (write-Ends _ _ _) λ buf _. tt

pub update_known_field-Ends :
    (mama : Mama) (msg : OmnmPayloadImpl) (type : FieldType) (field : OmnmFieldImpl)
    (buffer : Option (List ℕ)) (len : ℕ)
    → Ends Any (update_known_field mama msg type field buffer len)
unfolding update_known_field
update_known_field-Ends mama msg type field buffer len = Ends-option Any buffer _ _ tt λ source.
    Ends-if Any
      (not (same_type field.field_type type)
        && not (are_field_types_castable field.field_type type))
      _ _ tt
      (Ends-option Any field.location _ _ tt λ location.
        Ends-bind Any Any _ _
          (Ends-if Any (len == field.size) _ _ tt
            (resize_data-Ends mama msg location field.size len))
          λ msg _.
            Ends-bind Any Any _ _
              (Ends-if Any (is_field_type_sized field.field_type) _ _
                (Ends-if Any (ltb location 4) _ _ tt (write-Ends _ _ _)) tt)
              λ buf _. Ends-bind Any Any _ _ (read_bytes-Ends source 0 len) λ data_bytes _.
                Ends-bind Any Any _ _ (write-Ends buf location data_bytes) λ buf _. tt)

pub update_field-Ends :
    (mama : Mama) (msg : OmnmPayloadImpl) (type : FieldType) (name : CString) (fid : ℕ)
    (buffer : Option (List ℕ)) (len : ℕ)
    → Ends Any (update_field mama msg type name fid buffer len)
unfolding update_field
update_field-Ends mama msg type name fid buffer len =
    Ends-if Any (is_null buffer || (is_null name && fid == 0)) _ _ tt (
      Ends-bind Any Any _ _ (find_field_in_buffer-Ends mama msg name fid) λ found _.
        Ends-option Any found _ _ (add_field-Ends mama msg type name fid buffer len) λ field.
          Ends-if Any
            (not (same_type field.field_type type)
              && not (are_field_types_castable field.field_type type))
            _ _ tt (update_known_field-Ends mama msg type field buffer len))
