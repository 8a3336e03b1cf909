-- ===== src/Apply/Ends.antt =====
-- Termination of `omnmmsgPayload_apply` of src/Payload.cpp.
use open_mama_omnm.Prelude.{ℕ, ◌≢◌, List, [], ◌∷◌, Option, none, some, true, not, ◌==◌, length}
use open_mama_omnm.Mama.{Mama, FieldType, string, opaque, msg, time, price, vector_string}
use open_mama_omnm.Memory.{Run, ret, ◌>>=◌, stuck}
use open_mama_omnm.Memory.Ends.{Ends, Any, Ends-bind, Ends-if, Ends-option, string_at-Ends}
use open_mama_omnm.Message.{OmnmFieldImpl, OmnmPayloadImpl}
use open_mama_omnm.Iterator.Fuel.{walk_all-Ends}
use open_mama_omnm.Payload.{CString}
use open_mama_omnm.Payload.Fuel.{Ends-ne-stuck}
use open_mama_omnm.Bridge.{Handle}
use open_mama_omnm.Scalar.{Conversion, is_scalar}
use open_mama_omnm.Vector.{get_field_scalar_vector}
use open_mama_omnm.Vector.RoundTrip.{is_scalar_vector}
use open_mama_omnm.Objects.{Objects}
use open_mama_omnm.DateTime.{date_times, update_date_time}
use open_mama_omnm.Price.{prices, update_price}
use open_mama_omnm.Apply.{
  Applying, text_behind, texts_behind, pointer, apply_scalar, apply_string, apply_opaque, apply_msg,
  apply_date_time, apply_price, apply_scalar_vector, apply_vector_string, apply_typed, apply_field,
  apply,
}
use open_mama_omnm.Apply.Setters.{
  update_scalar-Ends, update_string-Ends, update_opaque-Ends, update_sub_msg-Ends,
  update_value-Ends, update_scalar_vector-Ends, update_vector_string-Ends,
}
use open_mama_omnm.Apply.Getters.{
  get_field_scalar-Ends, get_field_buffer-Ends, get_field_msg-Ends, get_field_vector_string-Ends,
  get_field_date_time-Ends, get_field_price-Ends, get_name-Ends,
}

text_behind-Ends : (buf : List ℕ) (p : Option ℕ) → Ends Any (text_behind buf p)
unfolding text_behind
text_behind-Ends buf none = tt
text_behind-Ends buf (some p) = Ends-bind Any Any _ _ (string_at-Ends buf p) λ s _. tt

texts_behind-Ends : (buf : List ℕ) (ps : List ℕ) → Ends Any (texts_behind buf ps)
unfolding texts_behind
texts_behind-Ends buf [] = tt
texts_behind-Ends buf (p ∷ ps) =
    Ends-bind Any Any _ _ (string_at-Ends buf p)
      λ s _. Ends-bind Any Any _ _ (texts_behind-Ends buf ps) λ ss _. tt

-- The rounds of the loop
module _ (mama : Mama) (convert : Conversion) (o : Objects) (src : OmnmPayloadImpl) where
  module _ (dest : Handle) (name : CString) (f : OmnmFieldImpl) where
    apply_scalar-Ends : (t : FieldType) → Ends Any (apply_scalar mama src dest name f convert t)
    unfolding apply_scalar
    apply_scalar-Ends t = Ends-bind Any Any _ _ (get_field_scalar-Ends convert src f true t) λ r _.
        Ends-option Any r.1 _ _ tt
          λ value. Ends-bind Any Any _ _ (update_scalar-Ends mama name f.fid dest t value) λ r _. tt

    apply_string-Ends : Ends Any (apply_string mama src dest name f)
    unfolding apply_string
    apply_string-Ends = Ends-bind Any Any _ _ (get_field_buffer-Ends string src f true) λ r _.
        Ends-bind Any Any _ _ (text_behind-Ends src.payload_buffer (pointer r.1))
          λ str _. Ends-bind Any Any _ _ (update_string-Ends mama name f.fid dest str) λ r _. tt

    apply_opaque-Ends : Ends Any (apply_opaque mama src dest name f)
    unfolding apply_opaque
    apply_opaque-Ends =
        Ends-bind Any Any _ _ (get_field_buffer-Ends opaque src f true)
          λ r _. Ends-bind Any Any _ _ (update_opaque-Ends mama name f.fid dest _ f.size) λ r _. tt

    apply_msg-Ends : (sub : Handle) → Ends Any (apply_msg mama src dest name f sub)
    unfolding apply_msg
    apply_msg-Ends sub = Ends-bind Any Any _ _ (get_field_msg-Ends mama src f true sub) λ r _.
        Ends-option Any dest _ _ tt
          λ m. Ends-bind Any Any _ _ (update_sub_msg-Ends mama name f.fid m _) λ r _. tt

    apply_date_time-Ends : Ends Any (apply_date_time mama src dest name f o)
    unfolding apply_date_time update_date_time
    apply_date_time-Ends =
        Ends-bind Any Any _ _ (get_field_date_time-Ends o src f o.create_date_time) λ r _.
          Ends-bind Any Any _ _ (update_value-Ends mama name f.fid (date_times o) dest r.1)
            λ r _. tt

    apply_price-Ends : Ends Any (apply_price mama src dest name f convert o)
    unfolding apply_price update_price
    apply_price-Ends =
        Ends-bind Any Any _ _ (get_field_price-Ends convert o src f o.create_price) λ r _.
          Ends-bind Any Any _ _ (update_value-Ends mama name f.fid (prices o) dest r.1) λ r _. tt

    apply_scalar_vector-Ends :
        (t : FieldType) → Ends Any (apply_scalar_vector mama src dest name f t)
    unfolding apply_scalar_vector
    apply_scalar_vector-Ends t =
        Ends-option Any (get_field_scalar_vector (some f) true t).1 _ _ tt λ shown.
          Ends-bind Any Any _ _ (update_scalar_vector-Ends mama name f.fid dest t _ shown.1)
            λ r _. tt

    apply_vector_string-Ends : Ends Any (apply_vector_string mama src dest name f)
    unfolding apply_vector_string
    apply_vector_string-Ends =
        Ends-bind Any Any _ _ (get_field_vector_string-Ends src f true) λ r _.
          Ends-option Any r.1 _ _
            (Ends-bind Any Any _ _ (update_vector_string-Ends mama name f.fid dest none) λ r _. tt)
            λ found. Ends-if Any (not (length found.0 == found.1)) _ _ tt (
              Ends-bind Any Any _ _ (texts_behind-Ends src.payload_buffer found.0) λ strings _.
                Ends-bind Any Any _ _
                  (update_vector_string-Ends mama name f.fid dest (some strings)) λ r _. tt)

  apply_typed-Ends :
      (st : Applying) (f : OmnmFieldImpl) → Ends Any (apply_typed mama convert o src st f)
  unfolding apply_typed
  apply_typed-Ends st f =
      Ends-if Any (is_scalar f.field_type) _ _
        (put _ (apply_scalar-Ends st.dest st.name f f.field_type))
        (Ends-if Any (is_scalar_vector f.field_type) _ _
          (put _ (apply_scalar_vector-Ends st.dest st.name f f.field_type)) (at f.field_type))
    where
      put : (r : Run Handle) → Ends Any r → Ends Any (r >>= λ dest. ret (record st { dest = dest }))
      put r h = Ends-bind Any Any r _ h λ dest _. tt

      at :
          (t : FieldType)
          → Ends {A = Applying} Any (elim t [
            | string ↦
                apply_string mama src st.dest st.name f >>= λ dest. ret (record st { dest = dest })
            | opaque ↦
                apply_opaque mama src st.dest st.name f >>= λ dest. ret (record st { dest = dest })
            | time ↦ apply_date_time mama src st.dest st.name f o >>= λ dest.
                ret (record st { dest = dest })
            | price ↦ apply_price mama src st.dest st.name f convert o >>= λ dest.
                ret (record st { dest = dest })
            | vector_string ↦ apply_vector_string mama src st.dest st.name f >>= λ dest.
                ret (record st { dest = dest })
            | msg ↦ apply_msg mama src st.dest st.name f st.sub >>= λ (dest, sub).
                ret (record st { dest = dest; sub = sub })
            | _ ↦ ret st
          ])
      at string = put _ (apply_string-Ends st.dest st.name f)
      at opaque = put _ (apply_opaque-Ends st.dest st.name f)
      at time = put _ (apply_date_time-Ends st.dest st.name f)
      at price = put _ (apply_price-Ends st.dest st.name f)
      at vector_string = put _ (apply_vector_string-Ends st.dest st.name f)
      at msg = Ends-bind Any Any _ _ (apply_msg-Ends st.dest st.name f st.sub) λ r _. tt
      at _ = tt

  apply_field-Ends :
      (st : Applying) (f : OmnmFieldImpl) → Ends Any (apply_field mama convert o src st f)
  unfolding apply_field
  apply_field-Ends st f =
      Ends-bind Any Any _ _ (get_name-Ends src f none (some st.name))
        λ r _. Ends-bind Any Any _ _ (apply_typed-Ends _ f) λ st _. tt

-- `omnmmsgPayload_apply` ends on every pair of messages, whatever bytes they hold and whatever is
-- allocated: with a status or with an access outside of a block, never for lack of fuel.
pub apply-ne-stuck :
    (mama : Mama) (convert : Conversion) (o : Objects) (dest src : Handle)
    → apply mama convert o dest src ≢ stuck
unfolding apply
apply-ne-stuck mama convert o dest src = Ends-ne-stuck _ (ends dest src)
  where
    ends : (dest src : Handle) → Ends Any (apply mama convert o dest src)
    ends none src = tt
    ends (some dest) none = tt
    ends (some dest) (some src) =
        Ends-bind Any Any _ _
          (walk_all-Ends mama src (apply_field mama convert o src)
            (apply_field-Ends mama convert o src) _)
          λ st _. tt
