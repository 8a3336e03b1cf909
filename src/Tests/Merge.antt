-- ===== src/Tests/Merge.antt =====
-- Witnesses for the theorems about `omnmmsgPayload_apply` of src/Payload.cpp.
use open_mama_omnm.Prelude.{
  ℕ, ◌+◌, ◌<◌, ◌≡◌, ◌≢◌, refl, ap, inl, inr, List, [], ◌∷◌, none, some, length, arith,
}
use open_mama_omnm.Mama.{ok}
use open_mama_omnm.Memory.{ret, stuck}
use open_mama_omnm.Iterator.{layout}
use open_mama_omnm.Message.{OmnmPayloadImpl, get_header_size}
use open_mama_omnm.Payload.{text_eq}
use open_mama_omnm.Payload.Find.{locate, selects, has_name}
use open_mama_omnm.Payload.Around.{changed}
use open_mama_omnm.Payload.Upserted.{upsert}
use open_mama_omnm.Scalar.{is_scalar}
use open_mama_omnm.Apply.{apply}
use open_mama_omnm.Apply.Step.{is_put, put_entry}
use open_mama_omnm.Apply.Merge.{merged, IsMergeable, apply-merged}
use open_mama_omnm.Apply.Ends.{apply-ne-stuck}
use open_mama_omnm.Apply.Copies.{kept, AllNew, apply_copies, apply_nameless}
use open_mama_omnm.Vector.RoundTrip.{is_scalar_vector}
use open_mama_omnm.Wire.{encode, encode_all, count_prefix, Represents, Selects, Names}
use open_mama_omnm.Tests.Model.{example_mama, number, number-IsEntry, keep}
use open_mama_omnm.Tests.Reach.{enough}
use open_mama_omnm.Tests.Objects.{objects, objects-IsFaithful}
use open_mama_omnm.Tests.Entries.{
  message_of, message_of-Represents, other, unnamed, numbers, parts, other-IsEntry, unnamed-IsEntry,
  number-IsPlain, other-IsPlain, unnamed-IsPlain, mixed, lost-IsEntry, mixed-IsEntry, lost_passed,
  mixed-AllHandled,
}

one_fits :
    get_header_size (message_of []) + length (encode_all example_mama (number ∷ [])) < 2147483648
unfolding encode_all encode count_prefix layout
one_fits = omega arith

two_fit :
    get_header_size (message_of []) + length (encode_all example_mama (kept parts)) < 2147483648
unfolding kept is_put is_scalar is_scalar_vector encode_all encode count_prefix layout
two_fit = omega arith

mixed-IsMergeable : IsMergeable example_mama 3 none mixed (number ∷ [])
unfolding IsMergeable put_entry is_put is_scalar is_scalar_vector upsert locate selects has_name
    text_eq encode_all encode count_prefix layout
mixed-IsMergeable = (
  λ put. (refl, omega arith),
  (
    λ put. (tt, omega arith),
    (λ put. absurd (cc), (λ put. (tt, omega arith), (λ put. (tt, omega arith), tt))),
  ),
)

apply-merged_example :
    (dest' : OmnmPayloadImpl) × (apply example_mama keep objects
        (some (message_of (number ∷ [])))
        (some (message_of mixed))
      ≡ ret (ok, some dest'))
    × Represents example_mama dest' (merged none mixed (number ∷ []))
apply-merged_example =
    apply-merged example_mama keep objects enough objects-IsFaithful (message_of mixed)
      (message_of (number ∷ [])) mixed (number ∷ []) (message_of-Represents mixed mixed-IsEntry)
      (message_of-Represents (number ∷ []) (number-IsEntry, tt)) mixed-AllHandled mixed-IsMergeable

named : (c : ℕ) → c ∷ [] ≢ []
named c h = cc

one_letter : (c : ℕ) → ¬ (c ≡ 97) → ¬ (◌≡◌ {A = List ℕ} (c ∷ []) (97 ∷ []))
one_letter c other h = other (ap first h)
  where
    first : List ℕ → ℕ
    first [] = 0
    first (c ∷ s) = c

differ : (c fid : ℕ) → ¬ (c ≡ 97) → ¬ (fid ≡ 1) → ¬ Selects (some (c ∷ [])) fid number
unfolding Names
differ c fid letter word = elim [
  | inl (nonzero, same) ↦ word (cc)
  | inr (some_name, same) ↦ one_letter c letter (cc)
]

parts-AllNew : AllNew [] parts
unfolding is_put is_scalar is_scalar_vector Names
parts-AllNew = (
  named 97,
  tt,
  (
    named 101,
    (differ 101 7 (λ h. absurd (omega (arith, h))) (λ h. absurd (omega (arith, h))), tt),
    (
      named 98,
      (differ 98 2 (λ h. absurd (omega (arith, h))) (λ h. absurd (omega (arith, h))), tt),
      tt,
    ),
  ),
)

apply_copies_example :
    (dest' : OmnmPayloadImpl) × (apply example_mama keep objects
        (some (message_of []))
        (some (message_of parts))
      ≡ ret (ok, some dest'))
    × Represents example_mama dest' (kept parts)
apply_copies_example =
    apply_copies example_mama keep objects enough objects-IsFaithful (message_of parts)
      (message_of []) parts
      (message_of-Represents parts (number-IsEntry, (lost-IsEntry, (other-IsEntry, tt))))
      (message_of-Represents [] tt) (inl number-IsPlain, (inr lost_passed, (inl other-IsPlain, tt)))
      parts-AllNew two_fit

apply_nameless_example :
    (dest' : OmnmPayloadImpl) × (apply example_mama keep objects
        (some (message_of []))
        (some (message_of (number ∷ unnamed ∷ [])))
      ≡ ret (ok, some dest'))
    × Represents example_mama dest' (changed number unnamed.bytes ∷ [])
apply_nameless_example =
    apply_nameless example_mama keep objects enough objects-IsFaithful
      (message_of (number ∷ unnamed ∷ [])) (message_of []) number unnamed (named 97) refl refl
      number-IsPlain unnamed-IsPlain
      (message_of-Represents (number ∷ unnamed ∷ []) (number-IsEntry, (unnamed-IsEntry, tt)))
      (message_of-Represents [] tt) one_fits

apply-ne-stuck_example :
    apply example_mama keep objects (some (message_of numbers)) (some (message_of [])) ≢ stuck
apply-ne-stuck_example =
    apply-ne-stuck example_mama keep objects (some (message_of numbers)) (some (message_of []))
