-- ===== src/Messages/Count.antt =====
-- The loop of `omnmmsgFieldPayload_getVectorMsg` in src/Field.cpp that counts the messages.
use open_mama_omnm.Prelude.{
  ℕ, zero, suc, ◌+◌, ◌*◌, ◌≤◌, ◌<◌, ◌≡◌, refl, leb, List, arith, Bool-cases, inl, inr, le→leb,
}
use open_mama_omnm.Memory.{ret, read32}
use open_mama_omnm.Messages.{count_messages}

module _ (buf : List ℕ) (p size n : ℕ) (first : read32 buf p ≡ ret n) where
  count_from :
      (fuel i : ℕ)
      → size ≤ i + fuel
      → i < size + (n + 4)
      → (count : ℕ) × (count_messages fuel buf p size i ≡ ret count)
        × (size ≤ i + count * (n + 4))
        × (i + count * (n + 4) < size + (n + 4))
  unfolding count_messages
  count_from zero i enough inside =
      (0, rw (count_messages, le→leb size i (omega arith)) refl, omega arith, omega arith)
  count_from (suc fuel) i enough inside = elim (Bool-cases (leb size i)) [
    | inl over ↦ (0, rw (count_messages, over) refl, ground (arith, over), omega arith)
    | inr more ↦
        let (count, done, long, short) =
          count_from fuel (i + n + 4) (omega arith) (ground (arith, more)) in
        (
          suc count,
          rw (count_messages, more, first, done) refl,
          omega (arith, long),
          omega (arith, short),
        )
  ]

  -- The loop that counts the messages of a field ends, and counts as many as it takes to fill the
  -- field with messages of the length that stands at its front, whatever lengths stand behind it.
  pub count_messages_first :
      (count : ℕ) × (count_messages size buf p size 0 ≡ ret count)
      × (size ≤ count * (n + 4))
      × (count * (n + 4) < size + (n + 4))
  count_messages_first =
      let (count, done, long, short) = count_from size 0 (omega arith) (omega arith) in
      (count, done, omega (arith, long), omega (arith, short))
