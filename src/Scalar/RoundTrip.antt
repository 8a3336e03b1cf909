-- ===== src/Scalar/RoundTrip.antt =====
-- A number that is added to a message of src/Payload.cpp, and got from it again.
use open_mama_omnm.Prelude.{
  ℕ, ◌≤◌, ◌<◌, ◌≡◌, refl, sym, ap, ◌∙◌, List, [], ◌∷◌, ◌++◌, true, none, some, length, arith,
}
use open_mama_omnm.Mama.{Mama, FieldType, ok, is_delimited}
use open_mama_omnm.Memory.{ret}
use open_mama_omnm.Memory.Laws.{IsText}
use open_mama_omnm.FieldType.Laws.{same_type_refl}
use open_mama_omnm.Message.{OmnmPayloadImpl}
use open_mama_omnm.Payload.{CString, validate_name_fid, add_field}
use open_mama_omnm.Payload.Find.{NoneSelected}
use open_mama_omnm.Payload.Add.{needed}
use open_mama_omnm.Payload.Put.{entry_of, text_of}
use open_mama_omnm.Payload.Added.{added}
use open_mama_omnm.Scalar.{
  Conversion, cast, sizeof, is_scalar, is_cast, on_handle, add_scalar, get_scalar,
}
use open_mama_omnm.Scalar.Read.{layout-scalar, get_scalar-cast}
use open_mama_omnm.Wire.{Entry, IsEntry, Fits, Represents}
use mathlib.Core.Path.{subst}

pub is_scalar→is_cast : (t : FieldType) → is_scalar t ≡ true → is_cast t ≡ true
unfolding is_scalar
is_scalar→is_cast _ h = ground arith

is_scalar→is_delimited : (t : FieldType) → is_scalar t ≡ true → is_delimited t ≡ true
unfolding is_scalar is_delimited
is_scalar→is_delimited _ h = ground arith

pub sizeof_bounds : (t : FieldType) → (0 < sizeof t) × (sizeof t ≤ 8)
unfolding sizeof
sizeof_bounds _ = (ground arith, ground arith)

pub cast_same :
    (convert : Conversion) (t : FieldType) (bytes : List ℕ) → cast convert t t bytes ≡ bytes
unfolding cast
cast_same convert t bytes = rw (same_type_refl t) refl

-- A number makes an entry.
pub scalar-IsEntry :
    (t : FieldType) (name : CString) (fid : ℕ) (value : List ℕ)
    → is_scalar t ≡ true
    → IsText (text_of name)
    → fid < 65536
    → length value ≡ sizeof t
    → IsEntry (entry_of t name fid value)
scalar-IsEntry t name fid value scalar text short size = record {
  delimited = is_scalar→is_delimited t scalar;
  fid_word = short;
  name_text = text;
  fits =
      subst (λ l. Fits l value) (sym (layout-scalar t (is_scalar→is_cast t scalar)))
        (unfold Fits in size);
}

module _ (mama : Mama) (convert : Conversion) (msg : OmnmPayloadImpl) (t : FieldType)
    (name : CString) (fid : ℕ) (value : List ℕ) (es : List Entry) (grown : List ℕ) where
  -- A number added under a valid name and fid that no entry of the message has is what the getter
  -- of its type then shows for that name and fid, provided the memory is allocated.
  pub get_scalar-add_scalar :
      Represents mama msg es
      → is_scalar t ≡ true
      → length value ≡ sizeof t
      → validate_name_fid name fid ≡ none
      → IsText (text_of name)
      → fid < 65536
      → NoneSelected name fid es
      → mama.allocate msg.payload_buffer (needed mama msg (entry_of t name fid value)) ≡ some grown
      → (msg' : OmnmPayloadImpl) × (add_scalar mama (some msg) t name fid value
          ≡ ret (ok, some msg'))
        × (get_scalar mama convert (some msg') true t name fid ≡ ret (ok, some value))
        × Represents mama msg' (es ++ (entry_of t name fid value ∷ []))
  unfolding add_scalar
  get_scalar-add_scalar r scalar size valid text short missed memory =
      let (msg', same, r', found) =
        added mama msg t name fid value es grown r entry valid
          (omega (arith, size, sizeof_bounds t)) (omega (arith, size, sizeof_bounds t)) missed
          memory in
      (
        msg',
        ap (λ n. on_handle (add_field mama msg t name fid (some value) n)) (sym size)
            ∙ rw same refl,
        get_scalar-cast mama convert msg' t name fid _ _ r' valid found (is_scalar→is_cast t scalar)
              (omega arith)
            ∙ rw (cast_same convert t value) refl,
        r',
      )
    where
      entry : IsEntry (entry_of t name fid value)
      entry = scalar-IsEntry t name fid value scalar text short size
