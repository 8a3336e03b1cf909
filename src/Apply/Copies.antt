-- ===== src/Apply/Copies.antt =====
-- `omnmmsgPayload_apply` of src/Payload.cpp on an empty target: with names, a copy of the source; without
-- them, less than that.
use open_mama_omnm.Prelude.{
  ℕ, ◌+◌, ◌^◌, ◌<◌, ◌≡◌, ◌≢◌, inl, inr, Bool-cases, if◌then◌else◌, refl, sym, ap, List, [], ◌∷◌,
  ◌++◌, append_assoc, append-nil, none, some, length, length-append, arith,
}
use mathlib.Core.Path.{subst}
use open_mama_omnm.Mama.{Mama, ok}
use open_mama_omnm.Memory.{ret}
use open_mama_omnm.Message.{OmnmPayloadImpl, get_header_size}
use open_mama_omnm.Payload.{CString}
use open_mama_omnm.Payload.Find.{locate, NoneSelected}
use open_mama_omnm.Payload.Added.{locate-append, locate-none}
use open_mama_omnm.Payload.Around.{changed}
use open_mama_omnm.Payload.Upserted.{Enough, TypeAt, upsert}
use open_mama_omnm.Scalar.{Conversion}
use open_mama_omnm.Objects.{Objects, IsFaithful}
use open_mama_omnm.Apply.{apply}
use open_mama_omnm.Apply.Field.{named_or}
use open_mama_omnm.Apply.Plain.{IsPlain}
use open_mama_omnm.Apply.Step.{is_put, IsCopied-is_put, put_entry, AllHandled}
use open_mama_omnm.Apply.Merge.{merged, IsMergeable, apply-merged}
use open_mama_omnm.Wire.{Entry, Represents, Names, encode_all}
use open_mama_omnm.Wire.Laws.{encode_all-append}

-- The entries of the types that are put.
abbrev one : Entry → List Entry
one e = if is_put e.field_type then e ∷ [] else []

unfoldable pub kept : List Entry → List Entry
kept [] = []
kept (e ∷ es) = one e ++ kept es

-- Every entry has a name, and none has the fid or the name of one before it that is put or of one of
-- `ds`.
abbrev pub AllNew : List Entry → List Entry → Type 0
AllNew ds [] = Unit {0}
AllNew ds (e ∷ es) = (e.name ≢ []) × NoneSelected (some e.name) e.fid ds × AllNew (ds ++ one e) es

named_or_own : (last : CString) (t : List ℕ) → t ≢ [] → named_or last t ≡ some t
named_or_own last [] named = absurd (named refl)
named_or_own last (c ∷ s) named = refl

upsert-new :
    (e : Entry) (ds : List Entry)
    → NoneSelected (some e.name) e.fid ds
    → upsert e.field_type (some e.name) e.fid e.bytes ds ≡ ds ++ (e ∷ [])
unfolding upsert
upsert-new e ds missed = rw (locate-none (some e.name) e.fid ds missed) refl

put_entry-new :
    (last : CString) (e : Entry) (ds : List Entry)
    → e.name ≢ []
    → NoneSelected (some e.name) e.fid ds
    → put_entry last e ds ≡ ds ++ one e
unfolding put_entry
put_entry-new last e ds named missed = elim (Bool-cases (is_put e.field_type)) [
  | inl put ↦ rw (put, named_or_own last e.name named, upsert-new e ds missed) refl
  | inr other ↦ rw other (sym (append-nil ds))
]

merged-new :
    (last : CString) (es ds : List Entry) → AllNew ds es → merged last es ds ≡ ds ++ kept es
unfolding merged kept
merged-new last [] ds new = sym (append-nil ds)
merged-new last (e ∷ es) ds (named, missed, new) =
    rw
      (
        put_entry-new last e ds named missed,
        named_or_own last e.name named,
        merged-new (some e.name) es (ds ++ one e) new,
      )
      (append_assoc ds (one e) (kept es))

IsMergeable-new :
    (mama : Mama) (h : ℕ) (last : CString) (es ds : List Entry)
    → AllNew ds es
    → h + length (encode_all mama (ds ++ kept es)) < 2 ^ 31
    → IsMergeable mama h last es ds
unfolding IsMergeable kept
IsMergeable-new mama h last [] ds new small = tt
IsMergeable-new mama h last (e ∷ es) ds (named, missed, new) small =
    rw (named_or_own last e.name named, put_entry-new last e ds named missed)
      (
        λ put. (
          subst (TypeAt e.field_type) (sym (locate-none (some e.name) e.fid ds missed)) tt,
          omega (
            arith,
            small,
            ap length (encode_all-append mama ds (one e ++ kept es)),
            length-append (encode_all mama ds) (encode_all mama (one e ++ kept es)),
          ),
        ),
        IsMergeable-new mama h (some e.name) es (ds ++ one e) new (
            subst (λ k. h + length (encode_all mama k) < 2 ^ 31)
              (sym (append_assoc ds (one e) (kept es))) small),
      )

module _ (mama : Mama) (convert : Conversion) (o : Objects) (enough : Enough mama)
    (laws : IsFaithful o) (src dest : OmnmPayloadImpl) where
  -- `omnmmsgPayload_apply` to a message without entries leaves it with the entries of the source,
  -- in their order, less those of the types that are passed over, if each of the others is a
  -- number, a vector of numbers or of strings, a string, opaque data, a sub-message of the
  -- supported wire format, or a struct that stands for a date-time or a price, with data, every one
  -- has a name, and none has the fid or the name of one before it that is not passed over, provided
  -- that the result is smaller than 2 GiB, that memory is allocated whenever it is asked for, and
  -- that libmama keeps what it is given.
  pub apply_copies :
      (es : List Entry)
      → Represents mama src es
      → Represents mama dest []
      → AllHandled o es
      → AllNew [] es
      → get_header_size dest + length (encode_all mama (kept es)) < 2 ^ 31
      → (dest' : OmnmPayloadImpl) × (apply mama convert o (some dest) (some src)
          ≡ ret (ok, some dest'))
        × Represents mama dest' (kept es)
  apply_copies es r d plain new small =
      let (dest', same, d') =
        apply-merged mama convert o enough laws src dest es [] r d plain
          (IsMergeable-new mama (get_header_size dest) none es [] new small) in
      (dest', same, subst (Represents mama dest') (merged-new none es [] new) d')

  module _ (e f : Entry) (named : e.name ≢ []) (nameless : f.name ≡ [])
      (stored : f.field_type ≡ e.field_type) (plain : IsPlain o e) (plain' : IsPlain o f) where
    taken :
        locate (some e.name) f.fid (e ∷ []) ≡ some (record { before = []; entry = e; after = [] })
    taken = locate-append (some e.name) f.fid [] e [] tt (inr (unfold Names in (named, refl)))

    merged-nameless : merged none (e ∷ f ∷ []) [] ≡ changed e f.bytes ∷ []
    unfolding merged put_entry upsert
    merged-nameless =
        rw
          (
            IsCopied-is_put o e plain.copied,
            IsCopied-is_put o f plain'.copied,
            named_or_own none e.name named,
            nameless,
            upsert-new e [] tt,
            taken,
          )
          refl

    -- `omnmmsgPayload_apply` of a message of two fields of one type, the first with a name and the
    -- second without, to a message without entries leaves it with one entry, with the fid and the
    -- name of the first and the data of the second, if both are of the fields that are put as they
    -- are, provided that a message of the first field alone is smaller than 2 GiB, that memory is
    -- allocated whenever it is asked for, and that libmama keeps what it is given.
    pub apply_nameless :
        Represents mama src (e ∷ f ∷ [])
        → Represents mama dest []
        → get_header_size dest + length (encode_all mama (e ∷ [])) < 2 ^ 31
        → (dest' : OmnmPayloadImpl) × (apply mama convert o (some dest) (some src)
            ≡ ret (ok, some dest'))
          × Represents mama dest' (changed e f.bytes ∷ [])
    apply_nameless r d small =
        let (dest', same, d') =
          apply-merged mama convert o enough laws src dest (e ∷ f ∷ []) [] r d
            (inl plain, (inl plain', tt)) ready in
        (dest', same, subst (Represents mama dest') merged-nameless d')
      where
        ready : IsMergeable mama (get_header_size dest) none (e ∷ f ∷ []) []
        ready =
            unfold IsMergeable in
            unfold put_entry in
            rw
              (
                IsCopied-is_put o e plain.copied,
                IsCopied-is_put o f plain'.copied,
                named_or_own none e.name named,
                nameless,
                upsert-new e [] tt,
                taken,
              )
              (
                λ put. (unfold locate in tt, unfold encode_all in omega (arith, small)),
                (λ put. (sym stored, small), tt),
              )
