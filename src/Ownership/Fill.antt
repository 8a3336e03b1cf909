-- ===== src/Ownership/Fill.antt =====
-- The loops of the getters of src/Field.cpp that fill an array which is long enough.
use open_mama_omnm.Prelude.{
  ℕ, zero, suc, ◌+◌, ◌/◌, ◌≤◌, ◌<◌, ◌≡◌, refl, ap, inl, inr, List, [], ◌∷◌, Option, none, some, ltb,
  length, arith, Bool-cases,
}
use open_mama_omnm.Memory.{Run, ret, ◌>>=◌}
use open_mama_omnm.Ownership.{
  Ledger, acquire, Array, no_array, array, Owned, Slot, vacant, taken, Slots, end, slot, Payloads,
  no_payloads, payloads, claims_all, claims_array, claims_slot, claims, claims_payloads,
  claims_slots,
}
use open_mama_omnm.Ownership.Use.{
  Allocator, take, take_all, take_elements, create_objects, fill_array, enlarge_payloads,
  enlarge_array, at_slot, at_element, at_payloads,
}
use open_mama_omnm.Ownership.Balance.{Balanced, Keeps, take-Balanced}
use open_mama_omnm.Ownership.Elements.{
  NeverFails, slot_count, HasElements, HasObjects, enlarge_payloads-long, enlarge_array-long,
  enlarge_payloads-Balanced, enlarge_array-Balanced,
}

-- What is put into a structure of which it is a part, with the rest of it.
pub Keeps-part :
    {S T : Type 0} (part : ℕ → S → ℕ) (whole : ℕ → T → ℕ) (wrap : S → T) (t : T) (l : Ledger)
    (s : S) (act : Run (S × Ledger))
    → Keeps part s l act
    → ((b : ℕ) → part b s ≤ whole b t)
    → ((b : ℕ) (s' : S) → whole b (wrap s') + part b s ≡ whole b t + part b s')
    → Keeps whole t l (act >>= (λ (s', l'). ret (wrap s', l')))
Keeps-part part whole wrap t l s act keeps within frame live =
    let ((s', l'), ran, balanced) = keeps (λ b. omega (arith, within b, live b)) in
    (
      (wrap s', l'),
      ap (λ r. r >>= (λ (s', l'). ret (wrap s', l'))) ran,
      λ b. omega (arith, balanced b, frame b s'),
    )

-- A change that ends at once, and a run behind it.
pub Keeps-after :
    {T : Type 0} (owned : ℕ → T → ℕ) (t : T) (l : Ledger) (first : T × Ledger)
    (act : T → Ledger → Run (T × Ledger))
    → Balanced owned t l first
    → Keeps owned first.0 first.1 (act first.0 first.1)
    → Keeps owned t l (act first.0 first.1)
Keeps-after owned t l first act before keeps live =
    let (after, ran, behind) = keeps (λ b. omega (arith, live b, before live b)) in
    (after, ran, λ b. omega (arith, before live b, behind b))

module _ (a : Allocator) where
  take_all-Keeps :
      (n : ℕ) (ms : Slots) (qs : List (ℕ × ℕ)) (l : Ledger)
      → length qs ≤ slot_count ms
      → length qs ≤ n
      → Keeps (claims_slots n) ms l (take_all a ms qs l)
  unfolding take_all claims
  take_all-Keeps n ms [] l h k = λ live. ((ms, l), refl, λ b. refl)
  take_all-Keeps zero ms (q ∷ qs) l h k = absurd (omega arith)
  take_all-Keeps (suc n) end (q ∷ qs) l h k = absurd (omega arith)
  take_all-Keeps (suc n) (slot m ms) ((version, len) ∷ qs) l h k = λ live.
      let l' = (take a m version len l).1 in
      let taken = take-Balanced a m version len l (λ b. omega (arith, live b)) in
      let ((ms', l''), ran, balanced) =
        take_all-Keeps n ms qs l' (omega arith) (omega arith)
          (λ b. omega (arith, live b, taken b)) in
      (
        (slot (take a m version len l).0 ms', l''),
        rw ran refl,
        λ b. omega (arith, balanced b, taken b),
      )

  take_elements-Keeps :
      (p : Payloads) (qs : List (ℕ × ℕ)) (l : Ledger)
      → HasElements (length qs) p
      → Keeps claims_payloads p l (take_elements a p qs l)
  unfolding take_elements claims
  take_elements-Keeps no_payloads [] l h = λ live. ((no_payloads, l), refl, λ b. refl)
  take_elements-Keeps no_payloads (q ∷ qs) l h = absurd (omega arith)
  take_elements-Keeps (payloads x size ms) qs l (filled, within) =
      Keeps-part (claims_slots (size / 8)) claims_payloads (payloads x size) (payloads x size ms) l
        ms (take_all a ms qs l) (take_all-Keeps (size / 8) ms qs l filled within) (λ b. omega arith)
        (λ b s'. omega arith)

  pub get_payloads-Keeps :
      NeverFails a
      → (p : Payloads) (qs : List (ℕ × ℕ)) (l : Ledger)
      → Keeps claims_payloads p l (
          take_elements a
            (enlarge_payloads a p (length qs) l).0
            qs
            (enlarge_payloads a p (length qs) l).1)
  get_payloads-Keeps never p qs l =
      Keeps-after claims_payloads p l (enlarge_payloads a p (length qs) l)
        (λ p l. take_elements a p qs l) (enlarge_payloads-Balanced a p (length qs) l)
        (take_elements-Keeps _ qs _ (enlarge_payloads-long a never p (length qs) l))

create_objects-Keeps :
    (k n : ℕ) (xs : List (Option ℕ)) (l : Ledger)
    → n ≤ length xs
    → n ≤ k
    → Keeps (claims_all k) xs l (create_objects n xs l)
unfolding create_objects claims_all
create_objects-Keeps k zero xs l h j = λ live. ((xs, l), refl, λ b. refl)
create_objects-Keeps zero (suc n) xs l h j = absurd (omega arith)
create_objects-Keeps (suc k) (suc n) [] l h j = absurd (omega arith)
create_objects-Keeps (suc k) (suc n) (none ∷ xs) l h j = λ live.
    let ((xs', l'), ran, balanced) =
      create_objects-Keeps k n xs (acquire l).1 (omega arith) (omega arith)
        (λ b. omega (arith, live b)) in
    ((some (acquire l).0 ∷ xs', l'), rw ran refl, λ b. omega (arith, balanced b))
create_objects-Keeps (suc k) (suc n) (some x ∷ xs) l h j =
    Keeps-part (claims_all k) (claims_all (suc k)) (λ xs. some x ∷ xs) (some x ∷ xs) l xs
      (create_objects n xs l) (create_objects-Keeps k n xs l (omega arith) (omega arith))
      (λ b. omega arith) (λ b s'. omega arith)

fill_array-Keeps :
    (p : Array) (n : ℕ) (l : Ledger) → HasObjects n p → Keeps claims_array p l (fill_array p n l)
unfolding fill_array claims_array
fill_array-Keeps no_array zero l h = λ live. ((no_array, l), refl, λ b. refl)
fill_array-Keeps no_array (suc n) l h = absurd (omega arith)
fill_array-Keeps (array x size xs) n l (filled, within) =
    Keeps-part (claims_all (size / 8)) claims_array (array x size) (array x size xs) l xs
      (create_objects n xs l) (create_objects-Keeps (size / 8) n xs l filled within)
      (λ b. omega arith) (λ b s'. omega arith)

pub get_array-Keeps :
    (a : Allocator)
    → NeverFails a
    → (p : Array) (n : ℕ) (l : Ledger)
    → Keeps claims_array p l (fill_array (enlarge_array a p n l).0 n (enlarge_array a p n l).1)
get_array-Keeps a never p n l =
    Keeps-after claims_array p l (enlarge_array a p n l) (λ p l. fill_array p n l)
      (enlarge_array-Balanced a p n l) (fill_array-Keeps _ n _ (enlarge_array-long a never p n l))

-- A call on a sub-message, wherever it stands.
module _ (call : Owned → Ledger → Run (Owned × Ledger))
    (keeps : (m : Owned) (l : Ledger) → Keeps claims m l (call m l)) where
  pub at_slot-Keeps : (m : Slot) (l : Ledger) → Keeps claims_slot m l (at_slot call m l)
  unfolding claims
  at_slot-Keeps vacant l = λ live. ((vacant, l), refl, λ b. refl)
  at_slot-Keeps (taken m) l =
      Keeps-part claims claims_slot taken (taken m) l m (call m l) (keeps m l) (λ b. omega arith)
        (λ b s'. omega arith)

  at_element-Keeps :
      (k n : ℕ) (ms : Slots) (l : Ledger)
      → n < k
      → Keeps (claims_slots k) ms l (at_element call n ms l)
  unfolding at_element claims
  at_element-Keeps k n end l h = λ live. ((end, l), refl, λ b. refl)
  at_element-Keeps zero n (slot m ms) l h = absurd (omega arith)
  at_element-Keeps (suc k) zero (slot m ms) l h =
      Keeps-part claims_slot (claims_slots (suc k)) (λ m. slot m ms) (slot m ms) l m
        (at_slot call m l) (at_slot-Keeps m l) (λ b. omega arith) (λ b s'. omega arith)
  at_element-Keeps (suc k) (suc n) (slot m ms) l h =
      Keeps-part (claims_slots k) (claims_slots (suc k)) (slot m) (slot m ms) l ms
        (at_element call n ms l) (at_element-Keeps k n ms l (omega arith)) (λ b. omega arith)
        (λ b s'. omega arith)

  pub at_payloads-Keeps :
      (n : ℕ) (p : Payloads) (l : Ledger) → Keeps claims_payloads p l (at_payloads call n p l)
  unfolding at_payloads claims
  at_payloads-Keeps n no_payloads l = λ live. ((no_payloads, l), refl, λ b. refl)
  at_payloads-Keeps n (payloads x size ms) l = elim (Bool-cases (ltb n (size / 8))) [
    | inl within ↦ rw within (
        Keeps-part (claims_slots (size / 8)) claims_payloads (payloads x size) (payloads x size ms)
          l ms (at_element call n ms l)
          (at_element-Keeps (size / 8) n ms l (ground (arith, within))) (λ b. omega arith)
          (λ b s'. omega arith))
    | inr outside ↦ rw outside (λ live. ((payloads x size ms, l), refl, λ b. refl))
  ]
