-- ===== src/Tests/Ownership.antt =====
-- An allocator that moves each block that it enlarges, and runs of the release of what messages, field
-- structures and iterators of src/Payload.cpp, src/Field.cpp and src/Iterator.cpp own.
use open_mama_omnm.Prelude.{
  ℕ, suc, ◌+◌, ◌≤◌, ◌≡◌, refl, inl, inr, List, [], ◌∷◌, Option, none, some, leb, true, false, arith,
  leb→le, leb_false→lt, Bool-cases, map,
}
use open_mama_omnm.Memory.{Run, ret}
use open_mama_omnm.Ownership.{
  Ledger, Room, Holds, remove, held_if, count, claims_field, create_iter, destroy_iter, free,
}
use open_mama_omnm.Ownership.Use.{
  Allocator, FieldCall, gets_msg, gets_vector_string, gets_vector_msg, gets_vector_date_time,
  in_sub_payload, adds_bytes, un_serializes, on_field, use_room, call_field, call_all_field,
  message_life, iter_life,
}
use open_mama_omnm.Ownership.Elements.{NeverFails}
use open_mama_omnm.Ownership.Lifecycle.{message_life-released, iter_life-leaks}
use open_mama_omnm.Ownership.Release.{remove-count, held_self}

abbrev live_after : Run (Holds × Ledger) → List ℕ
live_after (ret (f, l)) = l.live
live_after _ = []

unfoldable without : Option ℕ → List ℕ → List ℕ
unfolding remove
without none xs = xs
without (some b) xs = elim (remove b xs) [ none ↦ xs | some ys ↦ ys ]

unfoldable move : Room → ℕ → Ledger → Option (ℕ × ℕ × Ledger)
unfolding without
move r wanted l = elim (leb wanted r.size) [
  | true ↦ none
  | false ↦
      some (l.next, wanted, record { live = l.next ∷ without r.block l.live; next = suc l.next })
]

count-without :
    (p : Option ℕ) (xs : List ℕ)
    → ((b : ℕ) → held_if b p ≤ count b xs)
    → (b : ℕ) → count b (without p xs) + held_if b p ≡ count b xs
unfolding without
count-without none xs h b = omega arith
count-without (some x) xs h b =
    let (ys, found, counts) = remove-count x xs (omega (arith, h x, held_self x)) in
    rw (found, without) (omega (arith, counts b))

move-replaces :
    (r : Room) (wanted : ℕ) (l l' : Ledger) (x size : ℕ)
    → move r wanted l ≡ some (x, size, l')
    → (x ≡ l.next)
      × (size ≡ wanted)
      × (l' ≡ record { live = l.next ∷ without r.block l.live; next = suc l.next })
unfolding move
move-replaces r wanted l l' x size h = elim (Bool-cases (leb wanted r.size)) [
  | inl enough ↦ absurd (none≢some (rw (enough, move) at h))
  | inr small ↦ same (rw (small, move) at h)
]
  where
    none≢some : {y : ℕ × ℕ × Ledger} → ¬ (none ≡ some y)
    none≢some e = cc

    same :
        {x y m n : ℕ} {j k : Ledger}
        → ◌≡◌ {A = Option (ℕ × ℕ × Ledger)} (some (x, m, j)) (some (y, n, k))
        → (y ≡ x) × (n ≡ m) × (k ≡ j)
    same e = (cc, cc, cc)

-- A block is moved only where it is too small.
move-keeps :
    (r : Room) (wanted : ℕ) (l l' : Ledger) (x size : ℕ)
    → move r wanted l ≡ some (x, size, l')
    → r.size ≤ size
unfolding move
move-keeps r wanted l l' x size h = elim (Bool-cases (leb wanted r.size)) [
  | inl enough ↦ absurd (none≢some (rw (enough, move) at h))
  | inr small ↦
      omega (arith, (move-replaces r wanted l l' x size h).1, leb_false→lt wanted r.size small)
]
  where
    none≢some : {y : ℕ × ℕ × Ledger} → ¬ (none ≡ some y)
    none≢some e = cc

mover : Allocator
mover = record {
  enlarge = move;
  grows = λ r wanted l l' x size new. omega (arith, (move-replaces r wanted l l' x size new).1);
  keeps = move-keeps;
  accounts = λ r wanted l l' x size new lives b.
      let (to, length, ledger) = move-replaces r wanted l l' x size new in
      rw (to, ledger) (omega (arith, count-without r.block l.live lives b));
}

mover-NeverFails : NeverFails mover
unfolding mover move
mover-NeverFails r wanted l left = elim (Bool-cases (leb wanted r.size)) [
  | inl enough ↦ leb→le wanted r.size enough
  | inr small ↦ absurd (some≢none (rw (small, move) at left))
]
  where
    some≢none : {y : ℕ × ℕ × Ledger} → ¬ (some y ≡ none)
    some≢none e = cc

abbrev one_block : Ledger
one_block = record { live = 0 ∷ []; next = 1 }

abbrev getters : List FieldCall
getters =
    gets_msg 1 30
    ∷ in_sub_payload (on_field (gets_vector_msg ((1, 20) ∷ (1, 300) ∷ [])))
    ∷ gets_vector_string 2
    ∷ gets_vector_date_time 3
    ∷ []

message_life-released_example :
    (l' : Ledger) × (message_life mover
        (adds_bytes 300 ∷ un_serializes 1 400 ∷ map on_field getters)
        one_block
      ≡ ret l')
    × ((b : ℕ) → count b l'.live ≡ count b one_block.live)
message_life-released_example =
    message_life-released mover mover-NeverFails
      (adds_bytes 300 ∷ un_serializes 1 400 ∷ map on_field getters) one_block

iter_life-leaks_example :
    (f : Holds) × (l' : Ledger) × (iter_life mover (gets_vector_string 2 ∷ []) one_block
      ≡ ret (f, l'))
    × ((b : ℕ) → count b l'.live ≡ count b one_block.live + claims_field b f)
iter_life-leaks_example =
    iter_life-leaks mover mover-NeverFails (gets_vector_string 2 ∷ []) one_block

-- The array of the strings still lives after the iterator.
iter_life_runs : live_after (iter_life mover (gets_vector_string 2 ∷ []) one_block) ≡ 2 ∷ 0 ∷ []
unfolding mover move iter_life create_iter destroy_iter free call_all_field call_field use_room
iter_life_runs = refl
