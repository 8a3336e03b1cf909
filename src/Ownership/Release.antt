-- ===== src/Ownership/Release.antt =====
-- The destructor, `omnmmsgPayload_destroy` and `omnmmsgFieldPayloadImpl_cleanup` of src/Payload.cpp and
-- src/Field.cpp release what they are given, once, and nothing else.
use open_mama_omnm.Prelude.{
  ℕ, zero, suc, ◌+◌, ◌/◌, ◌≤◌, ◌≡◌, refl, ◌∙◌, ap, inl, inr, List, [], ◌∷◌, Option, none, some,
  arith, ==_iff, ◌==◌, false, Bool-cases,
}
use open_mama_omnm.Memory.{Run, ret, ◌>>=◌}
use open_mama_omnm.Ownership.{
  Ledger, remove, free, free_if, held, held_if, count, Array, no_array, array, Owned, payload,
  Holds, holds, Slot, vacant, taken, Slots, end, slot, Payloads, no_payloads, payloads, free_all,
  free_array, destroy, delete, cleanup, destroy_payloads, destroy_all, claims_all, claims_array,
  claims_slot, claims, claims_field, claims_payloads, claims_slots,
}

-- A run that releases these resources and no other.
abbrev pub Releases : (ℕ → ℕ) → (Ledger → Run Ledger) → Type 0
Releases owned act =
    (l : Ledger) (rest : ℕ → ℕ)
    → ((b : ℕ) → count b l.live ≡ owned b + rest b)
    → (l' : Ledger) × (act l ≡ ret l') × ((b : ℕ) → count b l'.live ≡ rest b)

pub held_self : (b : ℕ) → held b b ≡ 1
unfolding held
held_self b = ground arith

held_other : (b x : ℕ) → (b == x) ≡ false → held b x ≡ 0
unfolding held
held_other b x h = rw h refl

-- A resource that lives is found in the ledger.
pub remove-count :
    (b : ℕ) (xs : List ℕ)
    → 1 ≤ count b xs
    → (ys : List ℕ) × (remove b xs ≡ some ys) × ((c : ℕ) → count c xs ≡ held c b + count c ys)
unfolding remove
remove-count b [] h = absurd (omega arith)
remove-count b (x ∷ xs) h = elim (Bool-cases (b == x)) [
  | inl same ↦ let e : b ≡ x = (==_iff b x).0 same in (xs, rw same refl, λ c. rw e refl)
  | inr different ↦
      let (ys, found, counts) = remove-count b xs (omega (arith, held_other b x different)) in
      (x ∷ ys, rw (different, found) refl, λ c. omega (arith, counts c))
]

pub free-Releases : (x : ℕ) → Releases (λ b. held b x) (free x)
unfolding free
free-Releases x l rest h =
    let (ys, found, counts) = remove-count x l.live (omega (arith, h x, held_self x)) in
    (record l { live = ys }, rw (found, free) refl, λ b. omega (arith, h b, counts b))

nothing-Releases : Releases (λ b. 0) (λ l. ret l)
nothing-Releases l rest h = (l, refl, λ b. omega (arith, h b))

free_if-Releases : (p : Option ℕ) → Releases (λ b. held_if b p) (free_if p)
free_if-Releases none l rest h = nothing-Releases l rest h
free_if-Releases (some x) l rest h = free-Releases x l rest h

-- One release after the other.
both-Releases :
    (p q : ℕ → ℕ) {f g : Ledger → Run Ledger}
    → Releases p f
    → Releases q g
    → Releases (λ b. p b + q b) (λ l. f l >>= g)
both-Releases p q {f} {g} rf rg l rest h =
    let (l', ran, left) = rf l (λ b. q b + rest b) (λ b. omega (arith, h b)) in
    let (l'', ran', left') = rg l' rest left in (l'', ap (λ r. r >>= g) ran ∙ ran', left')

free_all-Releases :
    (n : ℕ) (xs : List (Option ℕ)) → Releases (λ b. claims_all n b xs) (free_all n xs)
unfolding free_all claims_all
free_all-Releases zero xs l rest h = nothing-Releases l rest h
free_all-Releases (suc n) [] l rest h = nothing-Releases l rest h
free_all-Releases (suc n) (x ∷ xs) l rest h =
    both-Releases _ _ (free_if-Releases x) (free_all-Releases n xs) l rest h

free_array-Releases : (a : Array) → Releases (λ b. claims_array b a) (free_array a)
unfolding free_array claims_array
free_array-Releases no_array l rest h = nothing-Releases l rest h
free_array-Releases (array x size objects) l rest h =
    both-Releases _ _ (free_all-Releases (size / 8) objects) (free-Releases x) l rest
      (λ b. omega (arith, h b))

mutual
  unfolding destroy claims free_array claims_array

  pub destroy-Releases : (m : Slot) → Releases (λ b. claims_slot b m) (destroy m)
  destroy-Releases vacant l rest h = nothing-Releases l rest h
  destroy-Releases (taken m) l rest h = delete-Releases m l rest h

  pub delete-Releases : (m : Owned) → Releases (λ b. claims b m) (delete m)
  delete-Releases (payload object buffer field) l rest h =
      both-Releases _ _ (free_if-Releases buffer.block)
        (both-Releases _ _ (cleanup-Releases field) (free-Releases object)) l rest
        (λ b. omega (arith, h b))

  pub cleanup-Releases : (f : Holds) → Releases (λ b. claims_field b f) (cleanup f)
  cleanup-Releases (holds buffer sub strings messages date_times prices) l rest h =
      both-Releases _ _ (free_if-Releases buffer.block)
        (both-Releases _ _ (destroy-Releases sub) (
          both-Releases _ _ (free_if-Releases strings.block) (
            both-Releases _ _ (destroy_payloads-Releases messages)
              (both-Releases _ _ (free_array-Releases date_times) (free_array-Releases prices)))))
        l rest (λ b. omega (arith, h b))

  destroy_payloads-Releases :
      (a : Payloads) → Releases (λ b. claims_payloads b a) (destroy_payloads a)
  destroy_payloads-Releases no_payloads l rest h = nothing-Releases l rest h
  destroy_payloads-Releases (payloads x size elements) l rest h =
      both-Releases _ _ (destroy_all-Releases (size / 8) elements) (free-Releases x) l rest
        (λ b. omega (arith, h b))

  destroy_all-Releases :
      (n : ℕ) (ms : Slots) → Releases (λ b. claims_slots n b ms) (destroy_all n ms)
  destroy_all-Releases zero ms l rest h = nothing-Releases l rest h
  destroy_all-Releases (suc n) end l rest h = nothing-Releases l rest h
  destroy_all-Releases (suc n) (slot m ms) l rest h =
      both-Releases _ _ (destroy-Releases m) (destroy_all-Releases n ms) l rest h
