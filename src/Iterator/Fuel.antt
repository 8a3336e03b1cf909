-- ===== src/Iterator/Fuel.antt =====
-- Termination of the loops over the iterator of src/Iterator.cpp.
use open_mama_omnm.Prelude.{
  ℕ, zero, suc, ◌+◌, ◌-◌, ◌≤◌, ◌<◌, ◌≡◌, ◌≢◌, inl, inr, List, true, false, Option, none, some, leb,
  ◌==◌, Bool-cases, leb_false→lt, arith,
}
use open_mama_omnm.Mama.{Mama}
use open_mama_omnm.Memory.{Run, ◌>>=◌, read8}
use open_mama_omnm.Memory.Ends.{
  Ends, Any, Ends-bind, Ends-weaken, read8-Ends, read16-Ends, read32-Ends, strlen_at-Ends,
}
use open_mama_omnm.Message.{OmnmFieldImpl, OmnmPayloadImpl, get_header_size, null_field}
use open_mama_omnm.Iterator.{
  OmnmIterImpl, Layout, fixed, text, counted, untouched, layout, delimit, read_name, read_field,
  next, begin, init, Flow, going, over, walk, walk_all,
}

delimit-Ends :
    (l : Layout) (buf : List ℕ) (p : ℕ) (old : Option ℕ) → Ends (λ r. p ≤ r.2) (delimit l buf p old)
unfolding delimit
delimit-Ends (fixed w) buf p old = omega arith
delimit-Ends text buf p old = Ends-bind Any _ _ _ (strlen_at-Ends buf p) λ n _. omega arith
delimit-Ends counted buf p old = Ends-bind Any _ _ _ (read32-Ends buf p) λ n _. omega arith
delimit-Ends untouched buf p old = omega arith

read_name-Ends : (buf : List ℕ) (p : ℕ) → Ends (λ r. p < r.1) (read_name buf p)
unfolding read_name
read_name-Ends buf p =
    Ends-bind Any (λ r. p < r.1) (read8 buf p) _ (read8-Ends buf p)
      λ c _. elim (Bool-cases (c == 0)) [
        | inl end ↦ rw end (omega arith)
        | inr more ↦
            rw more (Ends-bind Any (λ r. p < r.1) _ _ (strlen_at-Ends buf p) λ n _. omega arith)
      ]

-- An iterator that is under way moves on.
abbrev Moved : OmnmIterImpl → OmnmFieldImpl × OmnmIterImpl → Type 0
Moved it r = (it.index ≢ 0 → it.buffer_position < r.1.buffer_position) × (r.1.index ≢ 0)

read_field-Ends :
    (mama : Mama) (msg : OmnmPayloadImpl) (it : OmnmIterImpl)
    → Ends (Moved it) (read_field mama msg it)
unfolding read_field
read_field-Ends mama msg it =
    Ends-bind Any (Moved it) _ _ (read8-Ends buf it.buffer_position) λ t _.
      Ends-bind Any (Moved it) _ _ (read16-Ends buf (it.buffer_position + 1)) λ fid _.
        Ends-bind (λ r. it.buffer_position + 1 + 2 < r.1) (Moved it) _ _
          (read_name-Ends buf (it.buffer_position + 1 + 2))
          λ r past.
            Ends-bind (λ d. r.1 ≤ d.2) (Moved it) _ _
              (delimit-Ends (layout (mama.type_of t)) buf r.1 it.field.location)
              λ d behind. (λ begun. ground arith, λ z. absurd (omega arith))
  where
    buf : List ℕ
    buf = msg.payload_buffer

module _ (mama : Mama) (msg : OmnmPayloadImpl) where
  -- The rounds that fuel allows are enough for an iterator that is under way or at the end.
  abbrev pub Enough : ℕ → OmnmIterImpl → Type 0
  Enough fuel it =
      (it.index ≡ 0 → leb msg.payload_buffer_tail it.buffer_position ≡ true)
      × (msg.payload_buffer_tail - it.buffer_position < fuel)

  -- What `omnmmsgPayloadIter_next` leaves to the rounds after it.
  abbrev Onward : ℕ → Option OmnmFieldImpl × OmnmIterImpl → Type 0
  Onward fuel (none, it) = Unit {0}
  Onward fuel (some f, it) = Enough fuel it

  next-Ends :
      (fuel : ℕ) (it : OmnmIterImpl) → Enough (suc fuel) it → Ends (Onward fuel) (next mama msg it)
  unfolding next
  next-Ends fuel it h = elim (Bool-cases (leb msg.payload_buffer_tail it.buffer_position)) [
    | inl past ↦ rw past tt
    | inr inside ↦ rw inside (
        Ends-bind (Moved it) (Onward fuel) (read_field mama msg it) _ (read_field-Ends mama msg it)
          λ r moved. (
            λ z. absurd (moved.1 z),
            omega (arith, moved.0 (λ z. let past = h.0 z in cc), h.1, leb_false→lt _ _ inside),
          ))
  ]

  -- The first call of `omnmmsgPayloadIter_next` leaves the iterator under way.
  init_primes :
      leb msg.payload_buffer_tail (get_header_size msg) ≡ false
      → Ends (λ it. it.index ≢ 0) (init mama msg)
  unfolding init begin next
  init_primes inside = rw inside (
      Ends-bind (λ x. UnderWay x.1) UnderWay _ _
        (Ends-bind (Moved started) (λ x. UnderWay x.1) _ _ (read_field-Ends mama msg started)
          λ r moved. moved.1)
        λ x begun. begun)
    where
      started : OmnmIterImpl
      started = record { field = null_field mama; buffer_position = get_header_size msg; index = 0 }

      UnderWay : OmnmIterImpl → Type 0
      UnderWay it = it.index ≢ 0

  init_past :
      leb msg.payload_buffer_tail (get_header_size msg) ≡ true
      → Ends (Enough (msg.payload_buffer_tail + 2)) (init mama msg)
  unfolding init begin next
  init_past past = rw past (λ z. past, omega arith)

  pub init-Ends : Ends (Enough (msg.payload_buffer_tail + 2)) (init mama msg)
  init-Ends = elim (Bool-cases (leb msg.payload_buffer_tail (get_header_size msg))) [
    | inl past ↦ init_past past
    | inr inside ↦
        Ends-weaken (λ it. it.index ≢ 0) (Enough (msg.payload_buffer_tail + 2)) (init mama msg)
          (λ it begun. (λ z. absurd (begun z), omega arith)) (init_primes inside)
  ]

  -- One round of a loop over the iterator
  pub round-Ends :
      {B : Type 0} (fuel : ℕ) (it : OmnmIterImpl)
      (stop : Option OmnmFieldImpl × OmnmIterImpl → Run B)
      (go : Option OmnmFieldImpl × OmnmIterImpl → OmnmFieldImpl → Run B)
      → Enough (suc fuel) it
      → ((r : Option OmnmFieldImpl × OmnmIterImpl) → Ends Any (stop r))
      → ((r : Option OmnmFieldImpl × OmnmIterImpl) (f : OmnmFieldImpl)
          → Enough fuel r.1
          → Ends Any (go r f))
      → Ends Any (next mama msg it >>= λ r. elim r.0 [ none ↦ stop r | some f ↦ go r f ])
  round-Ends fuel it stop go h stops goes =
      Ends-bind (Onward fuel) Any _ _ (next-Ends fuel it h) onward
    where
      onward :
          (r : Option OmnmFieldImpl × OmnmIterImpl)
          → Onward fuel r
          → Ends Any (elim r.0 [ none ↦ stop r | some f ↦ go r f ])
      onward (none, it') h' = stops (none, it')
      onward (some f, it') h' = goes (some f, it') f h'

module _ {S : Type 0} (mama : Mama) (msg : OmnmPayloadImpl)
    (visit : S → OmnmFieldImpl → Run (Flow S))
    (visit_ends : (s : S) (f : OmnmFieldImpl) → Ends Any (visit s f)) where
  walk-Ends :
      (fuel : ℕ) (it : OmnmIterImpl) (s : S)
      → Enough mama msg fuel it
      → Ends Any (walk fuel mama msg it visit s)
  unfolding walk
  walk-Ends zero it s h = absurd (omega (arith, h.1))
  walk-Ends (suc fuel) it s h =
      round-Ends mama msg fuel it _ _ h (λ r. tt)
        λ r f h.
          Ends-bind Any Any _ _ (visit_ends s f)
            (elim [ over t ↦ λ _. tt | going t ↦ λ _. walk-Ends fuel r.1 t h ])

  -- A loop over the iterator whose body ends, ends itself on every buffer, whatever bytes it holds:
  -- with a value or with a read past the end of the buffer, never for lack of fuel.
  pub walk_all-Ends : (s : S) → Ends Any (walk_all mama msg visit s)
  unfolding walk_all
  walk_all-Ends s =
      Ends-bind (Enough mama msg (msg.payload_buffer_tail + 2)) Any _ _ (init-Ends mama msg)
        λ it h. walk-Ends (msg.payload_buffer_tail + 2) it s h
