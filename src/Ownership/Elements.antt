-- ===== src/Ownership/Elements.antt =====
-- The arrays that the getters of src/Field.cpp fill: they are long enough for what is put into them, and
-- what is created for them is owned by them.
use open_mama_omnm.Prelude.{
  ℕ, zero, suc, ◌*◌, ◌/◌, ◌≤◌, ◌≡◌, refl, inl, inr, List, [], ◌∷◌, Option, none, some, length,
  arith, Option-cases,
}
use open_mama_omnm.Ownership.{
  Ledger, Room, no_room, Array, no_array, array, Slots, end, slot, Payloads, no_payloads, payloads,
  claims_all, claims_array, claims, claims_payloads,
}
use open_mama_omnm.Ownership.Use.{
  Allocator, use_room, pad, pad_objects, enlarge_payloads, enlarge_array,
}
use open_mama_omnm.Ownership.Balance.{
  Balanced, claims-pad, claims-enlarged, claims-pad_objects, claims-enlarged_objects, no_slots,
  no_objects,
}

-- A block is left only if it is large enough: no allocation fails.
abbrev pub NeverFails : Allocator → Type 0
NeverFails a = (r : Room) (wanted : ℕ) (l : Ledger) → a.enlarge r wanted l ≡ none → wanted ≤ r.size

abbrev pub slot_count : Slots → ℕ
slot_count end = 0
slot_count (slot m ms) = suc (slot_count ms)

-- There are so many elements.
abbrev pub HasElements : ℕ → Payloads → Type 0
HasElements n no_payloads = n ≡ 0
HasElements n (payloads x size ms) = (n ≤ slot_count ms) × (n ≤ size / 8)

abbrev pub HasObjects : ℕ → Array → Type 0
HasObjects n no_array = n ≡ 0
HasObjects n (array x size xs) = (n ≤ length xs) × (n ≤ size / 8)

pad-long : (n : ℕ) (ms : Slots) → n ≤ slot_count (pad n ms)
unfolding pad
pad-long zero ms = omega arith
pad-long (suc n) end = omega (arith, pad-long n end)
pad-long (suc n) (slot m ms) = omega (arith, pad-long n ms)

pad_objects-long : (n : ℕ) (xs : List (Option ℕ)) → n ≤ length (pad_objects n xs)
unfolding pad_objects
pad_objects-long zero xs = omega arith
pad_objects-long (suc n) [] = omega (arith, pad_objects-long n [])
pad_objects-long (suc n) (x ∷ xs) = omega (arith, pad_objects-long n xs)

module _ (a : Allocator) (never : NeverFails a) where
  pub use_room-room : (r : Room) (wanted : ℕ) (l : Ledger) → wanted ≤ (use_room a r wanted l).0.size
  unfolding use_room
  use_room-room r wanted l = elim (Option-cases (a.enlarge r wanted l)) [
    | inl left ↦ rw (left, use_room) (never r wanted l left)
    | inr ((x, size, l'), new) ↦ rw (new, use_room) (a.grows r wanted l l' x size new)
  ]

  pub enlarge_payloads-long :
      (p : Payloads) (n : ℕ) (l : Ledger) → HasElements n (enlarge_payloads a p n l).0
  unfolding enlarge_payloads
  enlarge_payloads-long no_payloads n l = elim (Option-cases (a.enlarge no_room (8 * n) l)) [
    | inl left ↦ rw (left, enlarge_payloads) (omega (arith, never no_room (8 * n) l left))
    | inr ((x, size, l'), new) ↦
        rw (new, enlarge_payloads)
          (ground (arith, a.grows no_room (8 * n) l l' x size new, pad-long (size / 8) end))
  ]
  enlarge_payloads-long (payloads x size ms) n l =
      let r : Room = record { block = some x; size = size } in
      elim (Option-cases (a.enlarge r (8 * n) l)) [
        | inl left ↦
            rw (left, enlarge_payloads)
              (ground (arith, never r (8 * n) l left, pad-long (size / 8) ms))
        | inr ((y, size', l'), new) ↦
            rw (new, enlarge_payloads)
              (ground (
                arith,
                a.grows r (8 * n) l l' y size' new,
                pad-long (size' / 8) (pad (size / 8) ms),
              ))
      ]

  pub enlarge_array-long : (p : Array) (n : ℕ) (l : Ledger) → HasObjects n (enlarge_array a p n l).0
  unfolding enlarge_array
  enlarge_array-long no_array n l = elim (Option-cases (a.enlarge no_room (8 * n) l)) [
    | inl left ↦ rw (left, enlarge_array) (omega (arith, never no_room (8 * n) l left))
    | inr ((x, size, l'), new) ↦
        rw (new, enlarge_array)
          (ground (arith, a.grows no_room (8 * n) l l' x size new, pad_objects-long (size / 8) []))
  ]
  enlarge_array-long (array x size xs) n l =
      let r : Room = record { block = some x; size = size } in
      elim (Option-cases (a.enlarge r (8 * n) l)) [
        | inl left ↦
            rw (left, enlarge_array)
              (ground (arith, never r (8 * n) l left, pad_objects-long (size / 8) xs))
        | inr ((y, size', l'), new) ↦
            rw (new, enlarge_array)
              (ground (
                arith,
                a.grows r (8 * n) l l' y size' new,
                pad_objects-long (size' / 8) (pad_objects (size / 8) xs),
              ))
      ]

module _ (a : Allocator) where
  pub enlarge_payloads-Balanced :
      (p : Payloads) (n : ℕ) (l : Ledger) → Balanced claims_payloads p l (enlarge_payloads a p n l)
  unfolding enlarge_payloads claims
  enlarge_payloads-Balanced no_payloads n l = elim (Option-cases (a.enlarge no_room (8 * n) l)) [
    | inl left ↦ rw (left, enlarge_payloads) (λ live b. refl)
    | inr ((x, size, l'), new) ↦
        rw (new, enlarge_payloads)
          (λ live b. omega (
            arith,
            a.accounts no_room (8 * n) l l' x size new (λ b. omega (arith, live b)) b,
            claims-pad (size / 8) end b,
            no_slots (size / 8) b,
          ))
  ]
  enlarge_payloads-Balanced (payloads x size ms) n l =
      let r : Room = record { block = some x; size = size } in
      elim (Option-cases (a.enlarge r (8 * n) l)) [
        | inl left ↦
            rw (left, enlarge_payloads) (λ live b. omega (arith, claims-pad (size / 8) ms b))
        | inr ((y, size', l'), new) ↦
            rw (new, enlarge_payloads)
              (λ live b. omega (
                arith,
                a.accounts r (8 * n) l l' y size' new (λ b. omega (arith, live b)) b,
                claims-enlarged (size / 8) (size' / 8) ms b
                    (omega (arith, a.keeps r (8 * n) l l' y size' new)),
              ))
      ]

  pub enlarge_array-Balanced :
      (p : Array) (n : ℕ) (l : Ledger) → Balanced claims_array p l (enlarge_array a p n l)
  unfolding enlarge_array claims_array claims_all
  enlarge_array-Balanced no_array n l = elim (Option-cases (a.enlarge no_room (8 * n) l)) [
    | inl left ↦ rw (left, enlarge_array) (λ live b. refl)
    | inr ((x, size, l'), new) ↦
        rw (new, enlarge_array)
          (λ live b. omega (
            arith,
            a.accounts no_room (8 * n) l l' x size new (λ b. omega (arith, live b)) b,
            claims-pad_objects (size / 8) [] b,
            no_objects (size / 8) b,
          ))
  ]
  enlarge_array-Balanced (array x size xs) n l =
      let r : Room = record { block = some x; size = size } in
      elim (Option-cases (a.enlarge r (8 * n) l)) [
        | inl left ↦
            rw (left, enlarge_array) (λ live b. omega (arith, claims-pad_objects (size / 8) xs b))
        | inr ((y, size', l'), new) ↦
            rw (new, enlarge_array)
              (λ live b. omega (
                arith,
                a.accounts r (8 * n) l l' y size' new (λ b. omega (arith, live b)) b,
                claims-enlarged_objects (size / 8) (size' / 8) xs b
                    (omega (arith, a.keeps r (8 * n) l l' y size' new)),
              ))
      ]
