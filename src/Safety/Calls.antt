-- ===== src/Safety/Calls.antt =====
-- The setters of src/Payload.cpp for numbers, vectors of numbers, strings, opaque data and sub-messages,
-- on every branch.
use open_mama_omnm.Prelude.{
  ℕ, ◌+◌, ◌*◌, ◌≤◌, ◌<◌, ◌^◌, ◌≡◌, refl, sym, ap, inl, inr, List, [], ◌∷◌, ◌++◌, some, true, ◌&&◌,
  ◌==◌, length, take, drop, arith, Bool-cases, append-nil, take-append-drop, length-take_le,
  length-append,
}
use mathlib.Core.Path.{subst}
use open_mama_omnm.Mama.{Mama, FieldType, Status, ok, null_arg, is_delimited, string, opaque, msg}
use open_mama_omnm.Memory.{Run}
use open_mama_omnm.Memory.Laws.{IsText}
use open_mama_omnm.Message.{OmnmPayloadImpl}
use open_mama_omnm.Iterator.{layout, counted}
use open_mama_omnm.Payload.{CString, is_null, add_field, update_field, uint32_max}
use open_mama_omnm.Payload.Put.{entry_of, text_of}
use open_mama_omnm.Payload.Source.{add_field-front, update_field-front}
use open_mama_omnm.Payload.Upserted.{Enough}
use open_mama_omnm.Bridge.{serialize}
use open_mama_omnm.Scalar.{on_handle, is_scalar, sizeof, add_scalar, update_scalar}
use open_mama_omnm.Scalar.RoundTrip.{scalar-IsEntry, sizeof_bounds}
use open_mama_omnm.Vector.{element_size, add_scalar_vector}
use open_mama_omnm.Vector.RoundTrip.{is_scalar_vector, data_size_lem, vector-IsEntry}
use open_mama_omnm.Blob.{
  terminated, add_string, update_string, add_opaque, update_opaque, add_msg, update_msg,
  update_sub_msg,
}
use open_mama_omnm.Blob.RoundTrip.{string-IsEntry}
use open_mama_omnm.Wire.{Entry, IsEntry, Fits, Represents}
use open_mama_omnm.Safety.{Safe, SafeCall, KeepsNumber}
use open_mama_omnm.Safety.Fields.{add_field-Safe, update_field-Safe}

-- A name that is a C string, and a fid of 16 bits. Neither needs to be valid.
pub record IsName (name : CString) (fid : ℕ) : Type 0 where
  pub name_text : IsText (text_of name)
  pub fid_word : fid < 65536

-- Data behind a length makes an entry.
pub counted-IsEntry :
    (t : FieldType) (name : CString) (fid : ℕ) (bytes : List ℕ)
    → IsName name fid
    → is_delimited t ≡ true
    → layout t ≡ counted
    → length bytes ≤ uint32_max
    → IsEntry (entry_of t name fid bytes)
counted-IsEntry t name fid bytes n delimited laid_out short = record {
  delimited = delimited;
  fid_word = n.fid_word;
  name_text = n.name_text;
  fits = subst (λ l. Fits l bytes) (sym laid_out) (unfold Fits in omega (arith, short));
}

pub on_handle-Safe :
    (mama : Mama) (run : Run (Status × OmnmPayloadImpl))
    → Safe mama run
    → SafeCall mama (on_handle run)
on_handle-Safe mama run (status, m, done, well) = (status, m, ap on_handle done, well)

module _ (mama : Mama) (enough : Enough mama) (m : OmnmPayloadImpl) (es : List Entry)
    (r : Represents mama m es) (name : CString) (fid : ℕ) (n : IsName name fid) where
  -- `addField` and `updateField` of the first bytes of a block
  pub adds :
      (t : FieldType) (bytes extra block : List ℕ) (size : ℕ)
      → block ≡ bytes ++ extra
      → size ≡ length bytes
      → IsEntry (entry_of t name fid bytes)
      → length bytes ≤ uint32_max
      → SafeCall mama (on_handle (add_field mama m t name fid (some block) size))
  adds t bytes extra block size whole width fitting short =
      rw (whole, width, add_field-front bytes extra mama m t name fid)
        (on_handle-Safe mama _ (add_field-Safe mama enough m t name fid bytes es r fitting short))

  pub updates :
      (t : FieldType) (bytes extra block : List ℕ) (size : ℕ)
      → block ≡ bytes ++ extra
      → size ≡ length bytes
      → IsEntry (entry_of t name fid bytes)
      → length bytes ≤ uint32_max
      → KeepsNumber t name fid es
      → m.payload_buffer_tail < 2 ^ 31
      → SafeCall mama (on_handle (update_field mama m t name fid (some block) size))
  updates t bytes extra block size whole width fitting short keeps small =
      rw (whole, width, update_field-front bytes extra mama m t name fid)
        (on_handle-Safe mama _
          (update_field-Safe mama enough m t name fid bytes es r fitting short keeps small))

  pub add_scalar-Safe :
      (t : FieldType) (value : List ℕ)
      → is_scalar t ≡ true
      → length value ≡ sizeof t
      → SafeCall mama (add_scalar mama (some m) t name fid value)
  unfolding add_scalar
  add_scalar-Safe t value scalar width =
      adds t value [] value (sizeof t) (sym (append-nil _)) (sym width)
        (scalar-IsEntry t name fid value scalar n.name_text n.fid_word width)
        (omega (arith, width, sizeof_bounds t))

  pub update_scalar-Safe :
      (t : FieldType) (value : List ℕ)
      → is_scalar t ≡ true
      → length value ≡ sizeof t
      → KeepsNumber t name fid es
      → m.payload_buffer_tail < 2 ^ 31
      → SafeCall mama (update_scalar mama (some m) t name fid value)
  unfolding update_scalar
  update_scalar-Safe t value scalar width =
      updates t value [] value (sizeof t) (sym (append-nil _)) (sym width)
        (scalar-IsEntry t name fid value scalar n.name_text n.fid_word width)
        (omega (arith, width, sizeof_bounds t))

  pub add_scalar_vector-Safe :
      (t : FieldType) (value : List ℕ) (size : ℕ)
      → is_scalar_vector t ≡ true
      → length value ≡ size * element_size t
      → length value ≤ uint32_max
      → SafeCall mama (add_scalar_vector mama (some m) t name fid (some value) size)
  unfolding add_scalar_vector
  add_scalar_vector-Safe t value size vector width short =
      elim (Bool-cases (is_null name && fid == 0)) [
        | inl nothing ↦ (null_arg, m, rw nothing refl, (es, r))
        | inr given ↦ rw given (
            adds t value [] value _ (sym (append-nil _)) (data_size_lem t size value width short)
              (vector-IsEntry t name fid value vector n.name_text n.fid_word short) short)
      ]

  pub add_string-Safe :
      (s : List ℕ)
      → IsText s
      → length s < uint32_max
      → SafeCall mama (add_string mama (some m) name fid (some s))
  unfolding add_string
  add_string-Safe s text short =
      let width : length (terminated s) ≡ length s + 1 = length-append s (0 ∷ []) in
      adds string (terminated s) [] (terminated s) _ (sym (append-nil _)) (sym width)
        (string-IsEntry name fid s n.name_text n.fid_word text) (omega (arith, width))

  pub update_string-Safe :
      (s : List ℕ)
      → IsText s
      → length s < uint32_max
      → KeepsNumber string name fid es
      → m.payload_buffer_tail < 2 ^ 31
      → SafeCall mama (update_string mama (some m) name fid (some s))
  unfolding update_string
  update_string-Safe s text short =
      let width : length (terminated s) ≡ length s + 1 = length-append s (0 ∷ []) in
      updates string (terminated s) [] (terminated s) _ (sym (append-nil _)) (sym width)
        (string-IsEntry name fid s n.name_text n.fid_word text) (omega (arith, width))

  -- The first bytes of a block, behind their length
  module _ (t : FieldType) (delimited : is_delimited t ≡ true) (laid_out : layout t ≡ counted)
      (block : List ℕ) (size : ℕ) (inside : size ≤ length block) (short : size ≤ uint32_max) where
    adds_block : SafeCall mama (on_handle (add_field mama m t name fid (some block) size))
    adds_block =
        let width : length (take size block) ≡ size = length-take_le size block inside in
        adds t (take size block) (drop size block) block size (sym (take-append-drop size block))
          (sym width)
          (counted-IsEntry t name fid (take size block) n delimited laid_out
            (omega (arith, width, short)))
          (omega (arith, width, short))

    updates_block :
        KeepsNumber t name fid es
        → m.payload_buffer_tail < 2 ^ 31
        → SafeCall mama (on_handle (update_field mama m t name fid (some block) size))
    updates_block =
        let width : length (take size block) ≡ size = length-take_le size block inside in
        updates t (take size block) (drop size block) block size (sym (take-append-drop size block))
          (sym width)
          (counted-IsEntry t name fid (take size block) n delimited laid_out
            (omega (arith, width, short)))
          (omega (arith, width, short))

  pub add_opaque-Safe :
      (block : List ℕ) (size : ℕ)
      → size ≤ length block
      → size ≤ uint32_max
      → SafeCall mama (add_opaque mama (some m) name fid (some block) size)
  unfolding add_opaque layout is_delimited
  add_opaque-Safe = adds_block opaque refl refl

  pub update_opaque-Safe :
      (block : List ℕ) (size : ℕ)
      → size ≤ length block
      → size ≤ uint32_max
      → KeepsNumber opaque name fid es
      → m.payload_buffer_tail < 2 ^ 31
      → SafeCall mama (update_opaque mama (some m) name fid (some block) size)
  unfolding update_opaque layout is_delimited
  update_opaque-Safe = updates_block opaque refl refl

  pub add_msg-Safe :
      (sub : OmnmPayloadImpl)
      → sub.payload_buffer_tail ≤ length sub.payload_buffer
      → sub.payload_buffer_tail ≤ uint32_max
      → SafeCall mama (add_msg mama (some m) name fid (ok, some sub))
  unfolding add_msg serialize layout is_delimited
  add_msg-Safe sub = adds_block msg refl refl sub.payload_buffer sub.payload_buffer_tail

  pub update_msg-Safe :
      (sub : OmnmPayloadImpl)
      → sub.payload_buffer_tail ≤ length sub.payload_buffer
      → sub.payload_buffer_tail ≤ uint32_max
      → KeepsNumber msg name fid es
      → m.payload_buffer_tail < 2 ^ 31
      → SafeCall mama (update_msg mama (some m) name fid (ok, some sub))
  unfolding update_msg update_sub_msg serialize layout is_delimited
  update_msg-Safe sub = updates_block msg refl refl sub.payload_buffer sub.payload_buffer_tail
