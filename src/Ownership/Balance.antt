-- ===== src/Ownership/Balance.antt =====
-- Under the calls of the bridge a ledger keeps step with what a message or a field structure owns.
use open_mama_omnm.Prelude.{
  ℕ, zero, suc, ◌+◌, ◌≤◌, ◌≡◌, refl, inl, inr, List, [], ◌∷◌, Option, ltb, ◌==◌, arith, Bool-cases,
  Option-cases,
}
use open_mama_omnm.Memory.{Run, ret}
use open_mama_omnm.Message.{omnm_protocol_version}
use open_mama_omnm.Ownership.{
  Ledger, held_if, count, Room, Owned, payload, Slot, vacant, taken, Slots, end, slot, create,
  claims_all, claims_array, claims_slot, claims, claims_slots,
}
use open_mama_omnm.Ownership.Use.{Allocator, use_room, un_serialize, take, pad, pad_objects}

-- What is owned lives.
abbrev pub Lives : {T : Type 0} → (ℕ → T → ℕ) → T → Ledger → Type 0
Lives owned t l = (b : ℕ) → owned b t ≤ count b l.live

-- What is live has changed by as much as what is owned.
abbrev pub InStep : {T : Type 0} → (ℕ → T → ℕ) → T → Ledger → T × Ledger → Type 0
InStep owned t l (t', l') = (b : ℕ) → count b l'.live + owned b t ≡ count b l.live + owned b t'

-- A value and a ledger afterwards
abbrev pub Balanced : {T : Type 0} → (ℕ → T → ℕ) → T → Ledger → T × Ledger → Type 0
Balanced owned t l after = Lives owned t l → InStep owned t l after

-- A run that ends, with such a value and ledger.
abbrev pub Keeps : {T : Type 0} → (ℕ → T → ℕ) → T → Ledger → Run (T × Ledger) → Type 0
Keeps {T} owned t l run =
    Lives owned t l → (after : T × Ledger) × (run ≡ ret after) × InStep owned t l after

abbrev pub claims_room : ℕ → Room → ℕ
claims_room b r = held_if b r.block

pub create-Balanced :
    (l : Ledger) (b : ℕ) → count b (create l).1.live ≡ count b l.live + claims b (create l).0
unfolding create claims claims_array
create-Balanced l b = omega arith

module _ (a : Allocator) where
  pub use_room-Balanced :
      (r : Room) (wanted : ℕ) (l : Ledger) → Balanced claims_room r l (use_room a r wanted l)
  unfolding use_room
  use_room-Balanced r wanted l = elim (Option-cases (a.enlarge r wanted l)) [
    | inl left ↦ rw (left, use_room) (λ live b. refl)
    | inr ((x, size, l'), new) ↦ rw (new, use_room) (a.accounts r wanted l l' x size new)
  ]

  pub un_serialize-Balanced :
      (m : Owned) (version len : ℕ) (l : Ledger)
      → Balanced claims m l (un_serialize a m version len l)
  unfolding un_serialize claims
  un_serialize-Balanced (payload object buffer field) version len l = elim (Bool-cases (len == 0)) [
    | inl empty ↦ rw empty (λ live b. refl)
    | inr some_bytes ↦ elim (Bool-cases (ltb omnm_protocol_version version)) [
      | inl newer ↦ rw (some_bytes, newer) (λ live b. refl)
      | inr known ↦
          rw (some_bytes, known)
            (λ live b. omega (arith, use_room-Balanced buffer len l (λ b. omega (arith, live b)) b))
    ]
  ]

  pub take-Balanced :
      (m : Slot) (version len : ℕ) (l : Ledger) → Balanced claims_slot m l (take a m version len l)
  unfolding take claims
  take-Balanced vacant version len l = elim (Bool-cases (len == 0)) [
    | inl empty ↦ rw empty (λ live b. refl)
    | inr some_bytes ↦ rw some_bytes (λ live b. omega (
      arith,
      create-Balanced l b,
      un_serialize-Balanced (create l).0 version len (create l).1
          (λ b. omega (arith, create-Balanced l b)) b,
    ))
  ]
  take-Balanced (taken m) version len l = un_serialize-Balanced m version len l

-- No elements own nothing.
pub no_slots : (n b : ℕ) → claims_slots n b end ≡ 0
unfolding claims
no_slots zero b = refl
no_slots (suc n) b = refl

pub no_objects : (n b : ℕ) → claims_all n b [] ≡ 0
unfolding claims_all
no_objects zero b = refl
no_objects (suc n) b = refl

-- What an array owns is what it owned before it was enlarged.
pub claims-pad : (n : ℕ) (ms : Slots) (b : ℕ) → claims_slots n b (pad n ms) ≡ claims_slots n b ms
unfolding pad claims
claims-pad zero ms b = refl
claims-pad (suc n) end b = omega (arith, claims-pad n end b, no_slots n b)
claims-pad (suc n) (slot m ms) b = omega (arith, claims-pad n ms b)

pub claims-enlarged :
    (k n : ℕ) (ms : Slots) (b : ℕ)
    → k ≤ n
    → claims_slots n b (pad n (pad k ms)) ≡ claims_slots k b ms
unfolding pad claims
claims-enlarged zero zero ms b h = refl
claims-enlarged zero (suc n) ms b h = omega (arith, claims-enlarged zero n ms b (omega arith))
claims-enlarged (suc k) zero ms b h = absurd (omega arith)
claims-enlarged (suc k) (suc n) end b h =
    omega (arith, claims-enlarged k n end b (omega arith), no_slots k b)
claims-enlarged (suc k) (suc n) (slot m ms) b h =
    omega (arith, claims-enlarged k n ms b (omega arith))

pub claims-pad_objects :
    (n : ℕ) (xs : List (Option ℕ)) (b : ℕ) → claims_all n b (pad_objects n xs) ≡ claims_all n b xs
unfolding pad_objects claims_all
claims-pad_objects zero xs b = refl
claims-pad_objects (suc n) [] b = omega (arith, claims-pad_objects n [] b, no_objects n b)
claims-pad_objects (suc n) (x ∷ xs) b = omega (arith, claims-pad_objects n xs b)

pub claims-enlarged_objects :
    (k n : ℕ) (xs : List (Option ℕ)) (b : ℕ)
    → k ≤ n
    → claims_all n b (pad_objects n (pad_objects k xs)) ≡ claims_all k b xs
unfolding pad_objects claims_all
claims-enlarged_objects zero zero xs b h = refl
claims-enlarged_objects zero (suc n) xs b h =
    omega (arith, claims-enlarged_objects zero n xs b (omega arith))
claims-enlarged_objects (suc k) zero xs b h = absurd (omega arith)
claims-enlarged_objects (suc k) (suc n) [] b h =
    omega (arith, claims-enlarged_objects k n [] b (omega arith), no_objects k b)
claims-enlarged_objects (suc k) (suc n) (x ∷ xs) b h =
    omega (arith, claims-enlarged_objects k n xs b (omega arith))
