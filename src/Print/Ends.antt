-- ===== src/Print/Ends.antt =====
-- Termination of `omnmmsgPayload_toString` of src/Payload.cpp.
use open_mama_omnm.Prelude.{
  ℕ, zero, suc, ◌+◌, ◌≢◌, List, ◌∷◌, [], none, some, Bool, true, not, ◌==◌, leb, length, arith,
}
use open_mama_omnm.Mama.{
  Mama, FieldType, Status, ok, string, opaque, time, price, vector_string, msg, vector_msg,
  vector_time, vector_price,
}
use open_mama_omnm.Memory.{ret, ◌>>=◌, stuck}
use open_mama_omnm.Memory.Ends.{
  Ends, Any, Ends-bind, Ends-if, Ends-option, string_at-Ends, write-Ends,
}
use open_mama_omnm.Message.{OmnmFieldImpl, OmnmPayloadImpl}
use open_mama_omnm.Iterator.{OmnmIterImpl, has_next}
use open_mama_omnm.Iterator.Fuel.{Enough, round-Ends, init-Ends, walk_all-Ends}
use open_mama_omnm.Payload.Fuel.{Ends-ne-stuck, ne-stuck-Ends}
use open_mama_omnm.Bridge.{Handle, get_num_fields}
use open_mama_omnm.Scalar.{Conversion, is_scalar}
use open_mama_omnm.Vector.RoundTrip.{is_scalar_vector}
use open_mama_omnm.Blob.{terminated}
use open_mama_omnm.Objects.{Objects}
use open_mama_omnm.Apply.{pointer}
use open_mama_omnm.Apply.Getters.{
  get_field_scalar-Ends, get_field_buffer-Ends, get_field_date_time-Ends, get_field_price-Ends,
  get_name-Ends,
}
use open_mama_omnm.Print.{
  Printers, print_scalar, print_string, print_vector, print_date_time, print_price, print_opaque,
  print_typed, get_as_string, printed, dots, unknown_text,
}
use open_mama_omnm.Print.Whole.{sizeof_part, print_field, print_fields, to_string}

module _ (convert : Conversion) (o : Objects) (printers : Printers o)
    (elements_end : (t : FieldType) (f : OmnmFieldImpl) → printers.elements t f ≢ stuck)
    (m : OmnmPayloadImpl) where
  print_typed-Ends :
      (f : OmnmFieldImpl) (len : ℕ) → Ends Any (print_typed convert o printers m f len)
  unfolding print_typed print_scalar print_string print_vector print_date_time print_price
      print_opaque
  print_typed-Ends f len =
      Ends-if Any (is_scalar f.field_type) _ _
        (Ends-bind Any Any _ _
          (Ends-bind Any Any _ _ (get_field_scalar-Ends convert m f true f.field_type) λ r _. tt)
          λ text _. tt)
        (Ends-if Any (is_scalar_vector f.field_type) _ _ (vector f.field_type) (at f.field_type))
    where
      vector : (t : FieldType) → Ends Any (print_vector convert o printers m f len t)
      vector t =
          Ends-bind Any Any _ _ (ne-stuck-Ends (printers.elements t f) (elements_end t f))
            λ got _. tt

      written : Ends Any (print_string convert o printers m f len)
      written = Ends-bind Any Any _ _ (get_field_buffer-Ends string m f true) λ r _.
          Ends-option Any (pointer r.1) _ _ tt
            λ p. Ends-bind Any Any _ _ (string_at-Ends m.payload_buffer p) λ s _. tt

      at :
          (t : FieldType)
          → Ends {A = Status × List ℕ} Any (elim t [
            | string ↦ do text ← print_string convert o printers m f len; ret (ok, text)
            | time ↦ print_date_time convert o printers m f len
            | price ↦ print_price convert o printers m f len
            | vector_string ↦ print_vector convert o printers m f len vector_string
            | opaque ↦ print_opaque convert o printers m f len
            | msg ↦ ret (ok, printed len dots)
            | vector_msg ↦ ret (ok, printed len dots)
            | vector_time ↦ ret (ok, printed len dots)
            | vector_price ↦ ret (ok, printed len dots)
            | _ ↦ ret (ok, printed len unknown_text)
          ])
      at string = Ends-bind Any Any _ _ written λ text _. tt
      at time =
          Ends-bind Any Any _ _ (get_field_date_time-Ends o m f o.create_date_time)
            λ r _. Ends-option Any r.1 _ _ tt λ d. tt
      at price =
          Ends-bind Any Any _ _ (get_field_price-Ends convert o m f o.create_price)
            λ r _. Ends-option Any r.1 _ _ tt λ d. tt
      at vector_string = vector vector_string
      at opaque =
          Ends-bind Any Any _ _ (get_field_buffer-Ends opaque m f true)
            λ r _. Ends-if Any (leb _ len) _ _ tt tt
      at _ = tt

  get_as_string-Ends :
      (f : OmnmFieldImpl) (given : Bool) (len : ℕ)
      → Ends Any (get_as_string convert o printers m (some f) given len)
  unfolding get_as_string
  get_as_string-Ends f given len =
      Ends-if Any (not given) _ _ tt
        (Ends-if Any (len == 0) _ _ tt (Ends-bind Any Any _ _ (print_typed-Ends f len) λ r _. tt))

  module _ (mama : Mama) where
    print_field-Ends :
        (buf : List ℕ) (char_idx : ℕ) (it : OmnmIterImpl) (text : List ℕ)
        → Ends Any (print_field mama convert o printers m buf char_idx it text)
    unfolding print_field
    print_field-Ends buf char_idx it text =
        Ends-bind Any Any _ _ (write-Ends buf char_idx (terminated text)) λ buf _.
          Ends-if Any (has_next m it) _ _
            (Ends-bind Any Any _ _ (write-Ends buf (char_idx + length text) (terminated (44 ∷ [])))
              λ buf _. tt)
            tt

    print_fields-Ends :
        (fuel : ℕ) (it : OmnmIterImpl) (buf : List ℕ) (char_idx : ℕ)
        → Enough mama m fuel it
        → Ends Any (print_fields mama convert o printers m fuel it buf char_idx)
    unfolding print_fields
    print_fields-Ends zero it buf char_idx h = absurd (omega (arith, h.1))
    print_fields-Ends (suc fuel) it buf char_idx h =
        round-Ends mama m fuel it _ _ h (λ r. tt)
          λ found f h. Ends-bind Any Any _ _ (get_as_string-Ends f true sizeof_part) λ r _.
            Ends-bind Any Any _ _ (get_name-Ends m f none (some none)) λ named _.
              Ends-option Any r.1 _ _ tt λ part. Ends-option Any (mama.allocate buf _) _ _ tt λ buf.
                Ends-bind Any Any _ _ (print_field-Ends buf char_idx found.1 _)
                  λ wrote _. print_fields-Ends fuel found.1 wrote.0 wrote.1 h

-- `omnmmsgPayload_toString` ends on every message, whatever bytes it holds and whatever is
-- allocated, provided that the vector getters of `mamaMsgField` end: with a block, with NULL or
-- with an access outside of a block, never for lack of fuel.
pub to_string-ne-stuck :
    (mama : Mama) (convert : Conversion) (o : Objects) (printers : Printers o)
    (elements_end : (t : FieldType) (f : OmnmFieldImpl) → printers.elements t f ≢ stuck)
    (m : Handle)
    → to_string mama convert o printers m ≢ stuck
unfolding to_string get_num_fields
to_string-ne-stuck mama convert o printers elements_end none = Ends-ne-stuck _ tt
to_string-ne-stuck mama convert o printers elements_end (some m) =
    Ends-ne-stuck (to_string mama convert o printers (some m)) (
      Ends-bind Any Any _ _
        (Ends-bind Any Any _ _ (walk_all-Ends mama m _ (λ n f. tt) 0) λ count _. tt)
        λ counted _.
          Ends-bind (Enough mama m (m.payload_buffer_tail + 2)) Any _ _ (init-Ends mama m) λ it h.
            Ends-option Any (mama.allocate m.scratch sizeof_part) _ _ tt λ buf.
              Ends-bind Any Any _ _ (write-Ends buf 0 _) λ buf _.
                Ends-bind Any Any _ _
                  (print_fields-Ends convert o printers elements_end m mama _ it buf 1 h)
                  λ done _.
                    Ends-option Any done _ _ tt
                      λ at_end. Ends-bind Any Any _ _ (write-Ends at_end.0 at_end.1 _) λ buf _. tt)
