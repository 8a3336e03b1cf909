-- ===== src/Apply/Merge.antt =====
-- `omnmmsgPayload_apply` of src/Payload.cpp as an operation on the entries of the two messages.
use open_mama_omnm.Prelude.{
  ℕ, ◌+◌, ◌^◌, ◌<◌, ◌≡◌, refl, sym, ap, ◌∙◌, List, [], ◌∷◌, ◌++◌, append_assoc, true, none, some,
  length, length-append, arith,
}
use mathlib.Core.Path.{subst}
use open_mama_omnm.Mama.{Mama, ok}
use open_mama_omnm.Memory.{ret}
use open_mama_omnm.Memory.Laws.{IsText}
use open_mama_omnm.Message.{OmnmPayloadImpl, get_header_size, sizeof_header}
use open_mama_omnm.Iterator.Walk.{walk_all-entries}
use open_mama_omnm.Payload.{CString}
use open_mama_omnm.Payload.Put.{text_of}
use open_mama_omnm.Payload.Update.{place}
use open_mama_omnm.Payload.Upserted.{Enough, KeepsEntryType}
use open_mama_omnm.Bridge.{Handle}
use open_mama_omnm.Scalar.{Conversion}
use open_mama_omnm.Objects.{Objects, IsFaithful}
use open_mama_omnm.Apply.{apply, apply_field}
use open_mama_omnm.Apply.Field.{named_or}
use open_mama_omnm.Wire.{Entry, Represents, view, encode, encode_all, walk_entries}
use open_mama_omnm.Wire.Laws.{AllEntries-mem, encode_all-append}
use open_mama_omnm.Apply.Plain.{named_or-IsText}
use open_mama_omnm.Apply.Step.{is_put, put_entry, AllHandled, apply_field-put_entry}

-- The entries of the target when those of the source are put into it one after the other, each under
-- its fid and its name, or, where it has no name, under the last name that was seen.
unfoldable pub merged : CString → List Entry → List Entry → List Entry
merged last [] ds = ds
merged last (e ∷ es) ds = merged (named_or last e.name) es (put_entry last e ds)

-- No field that is put meets one of another type in the target, which stays smaller than 2 GiB; `h` is
-- the size of its header.
unfoldable pub IsMergeable : Mama → ℕ → CString → List Entry → List Entry → Type 0
IsMergeable mama h last [] ds = Unit {0}
IsMergeable mama h last (e ∷ es) ds =
    (is_put e.field_type ≡ true
      → KeepsEntryType e.field_type (named_or last e.name) e.fid ds
        × (h + length (encode_all mama ds) < 2 ^ 31))
    × IsMergeable mama h (named_or last e.name) es (put_entry last e ds)

pub behind :
    (mama : Mama) (src : OmnmPayloadImpl) (before : List Entry) (e : Entry) (p : ℕ)
    → p ≡ place mama src before
    → p + length (encode mama e) ≡ place mama src (before ++ (e ∷ []))
behind mama src before e p at =
    unfold encode_all in
    omega (
      arith,
      at,
      ap length (encode_all-append mama before (e ∷ [])),
      length-append (encode_all mama before) (encode_all mama (e ∷ [])),
      length-append (encode mama e) [],
    )

module _ (mama : Mama) (convert : Conversion) (o : Objects) (enough : Enough mama)
    (laws : IsFaithful o) (src : OmnmPayloadImpl) where
  walk_entries-merged :
      (es before : List Entry) (dest : OmnmPayloadImpl) (last : CString) (sub : Handle)
      (ds : List Entry) (p : ℕ)
      → Represents mama src (before ++ es)
      → Represents mama dest ds
      → p ≡ place mama src before
      → AllHandled o es
      → IsText (text_of last)
      → IsMergeable mama (get_header_size dest) last es ds
      → (dest' : OmnmPayloadImpl) × (name : CString) × (sub' : Handle) × (walk_entries mama p es
            (apply_field mama convert o src)
            (record { dest = some dest; name = last; sub = sub })
          ≡ ret (record { dest = some dest'; name = name; sub = sub' }))
        × Represents mama dest' (merged last es ds)
  unfolding walk_entries merged IsMergeable
  walk_entries-merged [] before dest last sub ds p r d at plain text ready =
      (dest, last, sub, refl, d)
  walk_entries-merged (e ∷ es) before dest last sub ds p r d at plain text (fits, ready) =
      let k = AllEntries-mem before es e r.entries in
      let (m, next_sub, round, kept, d') =
        apply_field-put_entry mama convert o src before es e r enough laws dest last sub ds d
          plain.0 text
          (λ put.
            let (keeps, small) = fits put in
            (keeps, omega (arith, d.tail_size, d.head_size, small))) in
      let (dest', name, sub', rest, d'') =
        walk_entries-merged es (before ++ (e ∷ [])) m (named_or last e.name) next_sub _
          (p + length (encode mama e))
          (subst (Represents mama src) (sym (append_assoc before (e ∷ []) es)) r) d'
          (behind mama src before e p at) plain.1 (named_or-IsText last e.name text k.name_text)
          (subst
            (λ h.
              IsMergeable mama (sizeof_header + h.remaining_header_size) (named_or last e.name) es
                (put_entry last e ds))
            (sym kept) ready) in
      (
        dest',
        name,
        sub',
        rw
            (
              ap
                    (λ k.
                      apply_field mama convert o src
                        (record { dest = some dest; name = last; sub = sub }) (view mama k e))
                    at
                  ∙ round,
              rest,
            )
            refl,
        d'',
      )

  -- `omnmmsgPayload_apply` of a message that represents entries, each a number, a vector of numbers
  -- or of strings, a string, opaque data, a sub-message of the supported wire format, or a struct
  -- that stands for a date-time or a price, with data and with a fid or a name, or else of a type
  -- that is passed over, to one that represents others returns ok, and puts each field that is not
  -- passed over in order into the target as an update under its fid and its name, or, where it has
  -- no name, under the last name that was seen, passed over or not, provided that no field that is
  -- put meets one of another type in the target, that the target stays smaller than 2 GiB, that
  -- memory is allocated whenever it is asked for, and that libmama keeps what it is given.
  pub apply-merged :
      (dest : OmnmPayloadImpl) (es ds : List Entry)
      → Represents mama src es
      → Represents mama dest ds
      → AllHandled o es
      → IsMergeable mama (get_header_size dest) none es ds
      → (dest' : OmnmPayloadImpl) × (apply mama convert o (some dest) (some src)
          ≡ ret (ok, some dest'))
        × Represents mama dest' (merged none es ds)
  unfolding apply
  apply-merged dest es ds r d plain ready =
      let (dest', name, sub, run, d') =
        walk_entries-merged es [] dest none none ds (get_header_size src) r d
          (unfold encode_all in omega arith) plain tt ready in
      (
        dest',
        rw
            (
              apply,
              walk_all-entries mama src (apply_field mama convert o src) es
                  (record { dest = some dest; name = none; sub = none }) r,
              run,
            )
            refl,
        d',
      )
