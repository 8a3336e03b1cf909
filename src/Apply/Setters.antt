-- ===== src/Apply/Setters.antt =====
-- Termination of the setters that `omnmmsgPayload_apply` of src/Payload.cpp calls.
use open_mama_omnm.Prelude.{
  ℕ, ◌+◌, List, [], ◌∷◌, Option, none, some, true, ◌&&◌, ◌||◌, ◌==◌, length,
}
use open_mama_omnm.Mama.{Mama, FieldType, Status, ok, not_found, string, opaque, msg, vector_string}
use open_mama_omnm.Memory.{Run}
use open_mama_omnm.Memory.Ends.{Ends, Any, Ends-bind, Ends-if, Ends-option, write-Ends}
use open_mama_omnm.Message.{OmnmFieldImpl, OmnmPayloadImpl}
use open_mama_omnm.Payload.{CString, validate_name_fid, is_null}
use open_mama_omnm.Payload.Ends.{
  get_field-Ends, add_field-Ends, update_known_field-Ends, update_field-Ends,
}
use open_mama_omnm.Bridge.{Handle, serialize}
use open_mama_omnm.Scalar.{on_handle, update_scalar}
use open_mama_omnm.Vector.{add_scalar_vector, update_scalar_vector, update_found_vector}
use open_mama_omnm.Blob.{terminated, update_string, update_opaque, update_sub_msg}
use open_mama_omnm.Strings.{copy_strings, collect, update_vector_string}
use open_mama_omnm.Structs.{Struct, update_value}

on_handle-Ends : (run : Run (Status × OmnmPayloadImpl)) → Ends Any run → Ends Any (on_handle run)
on_handle-Ends run h = Ends-bind Any Any run _ h λ r _. tt

-- The setters
module _ (mama : Mama) (name : CString) (fid : ℕ) where
  pub update_scalar-Ends :
      (m : Handle) (t : FieldType) (value : List ℕ)
      → Ends Any (update_scalar mama m t name fid value)
  unfolding update_scalar
  update_scalar-Ends none t value = tt
  update_scalar-Ends (some m) t value = on_handle-Ends _ (update_field-Ends mama m t name fid _ _)

  pub update_string-Ends :
      (m : Handle) (value : CString) → Ends Any (update_string mama m name fid value)
  unfolding update_string
  update_string-Ends none value = tt
  update_string-Ends (some m) none = tt
  update_string-Ends (some m) (some s) =
      on_handle-Ends _ (update_field-Ends mama m string name fid _ _)

  pub update_opaque-Ends :
      (m : Handle) (block : Option (List ℕ)) (size : ℕ)
      → Ends Any (update_opaque mama m name fid block size)
  unfolding update_opaque
  update_opaque-Ends none block size = tt
  update_opaque-Ends (some m) none size = tt
  update_opaque-Ends (some m) (some block) size =
      on_handle-Ends _ (update_field-Ends mama m opaque name fid _ _)

  pub update_sub_msg-Ends :
      (m : OmnmPayloadImpl) (sub : Handle) → Ends Any (update_sub_msg mama m name fid sub)
  unfolding update_sub_msg
  update_sub_msg-Ends m sub =
      Ends-option Any (serialize sub true).1 _ _
        (on_handle-Ends _ (update_field-Ends mama m msg name fid _ _))
        λ bytes. on_handle-Ends _ (update_field-Ends mama m msg name fid _ _)

  pub update_value-Ends :
      {T : Type 0} (s : Struct T) (m : Handle) (value : Option T)
      → Ends Any (update_value s mama m name fid value)
  unfolding update_value
  update_value-Ends s none value = tt
  update_value-Ends s (some m) none = tt
  update_value-Ends s (some m) (some v) =
      on_handle-Ends _ (update_field-Ends mama m s.field_type name fid _ _)

  add_scalar_vector-Ends :
      (m : OmnmPayloadImpl) (t : FieldType) (value : Option (List ℕ)) (size : ℕ)
      → Ends Any (add_scalar_vector mama (some m) t name fid value size)
  unfolding add_scalar_vector
  add_scalar_vector-Ends m t value size =
      Ends-if Any (is_null value || (is_null name && fid == 0)) _ _ tt
        (on_handle-Ends _ (add_field-Ends mama m t name fid value _))

  update_found_vector-Ends :
      (m : OmnmPayloadImpl) (t : FieldType) (value : Option (List ℕ)) (size : ℕ)
      (found : Status × Option OmnmFieldImpl)
      → Ends Any (update_found_vector mama m t name fid value size found)
  unfolding update_found_vector
  update_found_vector-Ends m t value size (ok, some field) =
      Ends-bind Any Any _ _ (update_known_field-Ends mama m t field value _) λ r _. tt
  update_found_vector-Ends m t value size (not_found, field) = add_scalar_vector-Ends m t value size
  update_found_vector-Ends m t value size (status, field) = tt

  pub update_scalar_vector-Ends :
      (m : Handle) (t : FieldType) (value : Option (List ℕ)) (size : ℕ)
      → Ends Any (update_scalar_vector mama m t name fid value size)
  unfolding update_scalar_vector
  update_scalar_vector-Ends none t value size = tt
  update_scalar_vector-Ends (some m) t value size =
      Ends-if Any (is_null value || (is_null name && fid == 0)) _ _ tt (
        Ends-bind Any Any _ _ (get_field-Ends mama m name fid)
          λ found _. update_found_vector-Ends m t value size found)

  copy_strings-Ends :
      (buf : List ℕ) (target : ℕ) (ss : List (List ℕ)) → Ends Any (copy_strings buf target ss)
  unfolding copy_strings
  copy_strings-Ends buf target [] = tt
  copy_strings-Ends buf target (s ∷ ss) =
      Ends-bind Any Any _ _ (write-Ends buf target (terminated s))
        λ buf _. copy_strings-Ends buf (target + (length s + 1)) ss

  pub update_vector_string-Ends :
      (m : Handle) (value : Option (List (List ℕ)))
      → Ends Any (update_vector_string mama m name fid value)
  unfolding update_vector_string collect
  update_vector_string-Ends m value =
      Ends-option Any (validate_name_fid name fid) _ _
        (Ends-option Any m _ _ tt λ m. Ends-option Any value _ _ tt λ strings.
          Ends-bind Any Any _ _ (Ends-bind Any Any _ _ (copy_strings-Ends _ 0 strings) λ buf _. tt)
            λ collected _.
              on_handle-Ends _ (update_field-Ends mama collected vector_string name fid _ _))
        λ status. tt
