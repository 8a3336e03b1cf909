-- ===== src/Iterator/Walk.antt =====
-- The iteration loop of src/Iterator.cpp over a message that represents entries.
use open_mama_omnm.Prelude.{
  ℕ, zero, suc, ◌+◌, ◌≤◌, ◌<◌, ◌≡◌, ◌≢◌, refl, sym, ap, ◌∙◌, List, [], ◌∷◌, ◌++◌, append_assoc,
  false, none, some, length, drop, length-append, drop-append, drop_past, arith, ◌==◌, le→leb,
  lt→leb,
}
use mathlib.Core.Path.{fun_ext}
use open_mama_omnm.Mama.{Mama}
use open_mama_omnm.Memory.{Run, ret, ◌>>=◌}
use open_mama_omnm.Message.{OmnmFieldImpl, OmnmPayloadImpl, get_header_size, null_field}
use open_mama_omnm.Iterator.{OmnmIterImpl, next, begin, init, Flow, going, over, walk, walk_all}
use open_mama_omnm.Iterator.Step.{read_field-encode}
use open_mama_omnm.Wire.{
  Entry, encode, encode_all, AllEntries, IsEntry, view, Represents, walk_entries,
}
use open_mama_omnm.Wire.Laws.{length-encode}

-- The iterator after it has shown the entry at its position: gone on behind it, and gone back to the
-- first field.
abbrev pub passed : Mama → OmnmIterImpl → Entry → OmnmIterImpl
passed mama it e = record {
  field = view mama it.buffer_position e;
  buffer_position = it.buffer_position + length (encode mama e);
  index = it.index + 1;
}

abbrev pub rewound : Mama → OmnmPayloadImpl → Entry → OmnmIterImpl
rewound mama msg e = record {
  field = view mama (get_header_size msg) e;
  buffer_position = get_header_size msg;
  index = 1;
}

module _ (mama : Mama) (msg : OmnmPayloadImpl) (it : OmnmIterImpl) (e : Entry) (xs : List ℕ) where
  pub next-encode :
      IsEntry e
      → it.buffer_position < msg.payload_buffer_tail
      → drop it.buffer_position msg.payload_buffer ≡ encode mama e ++ xs
      → it.index ≢ 0
      → next mama msg it ≡ ret (some (view mama it.buffer_position e), passed mama it e)
  unfolding next
  next-encode h inside at_p begun =
      let later : (it.index == 0) ≡ false = ground arith in
      rw (
        lt→leb msg.payload_buffer_tail it.buffer_position inside,
        read_field-encode mama msg it e xs h at_p,
        later,
      )

  pub next-encode_first :
      IsEntry e
      → it.buffer_position < msg.payload_buffer_tail
      → drop it.buffer_position msg.payload_buffer ≡ encode mama e ++ xs
      → it.index ≡ 0
      → it.buffer_position ≡ get_header_size msg
      → next mama msg it ≡ ret (some (view mama (get_header_size msg) e), rewound mama msg e)
  unfolding next
  next-encode_first h inside at_p first at_head =
      rw
        (
          lt→leb msg.payload_buffer_tail it.buffer_position inside,
          read_field-encode mama msg it e xs h at_p,
          first,
          at_head,
        )
        (ground arith)

pub next_end :
    (mama : Mama) (msg : OmnmPayloadImpl) (it : OmnmIterImpl)
    → msg.payload_buffer_tail ≤ it.buffer_position
    → next mama msg it ≡ ret (none, it)
unfolding next
next_end mama msg it h = rw (le→leb msg.payload_buffer_tail it.buffer_position h)

-- Where the first entry stands.
pub first_entry :
    (mama : Mama) (msg : OmnmPayloadImpl) (e : Entry) (es : List Entry)
    (r : Represents mama msg (e ∷ es))
    → (drop (get_header_size msg) msg.payload_buffer ≡ encode_all mama (e ∷ es) ++ r.slack)
      × (drop (get_header_size msg) msg.payload_buffer
          ≡ encode mama e ++ (encode_all mama es ++ r.slack))
      × (get_header_size msg < msg.payload_buffer_tail)
unfolding encode_all
first_entry mama msg e es r =
    let at_head =
      ap (drop (get_header_size msg)) r.content ∙ drop-append r.head _ _ (sym r.head_size) in
    (
      at_head,
      at_head ∙ append_assoc (encode mama e) (encode_all mama es) r.slack,
      omega (
        arith,
        r.tail_size,
        r.head_size,
        length-append (encode mama e) (encode_all mama es),
        length-encode mama e,
      ),
    )

module _ {ℓ} {S : Type ℓ} (mama : Mama) (msg : OmnmPayloadImpl)
    (visit : S → OmnmFieldImpl → Run (Flow S)) where
  walk-entries :
      (es : List Entry) (fuel : ℕ) (it : OmnmIterImpl) (slack : List ℕ) (s : S)
      → AllEntries es
      → it.index ≢ 0
      → drop it.buffer_position msg.payload_buffer ≡ encode_all mama es ++ slack
      → msg.payload_buffer_tail ≡ it.buffer_position + length (encode_all mama es)
      → length (encode_all mama es) < fuel
      → walk fuel mama msg it visit s ≡ walk_entries mama it.buffer_position es visit s
  unfolding walk walk_entries encode_all
  walk-entries es zero it slack s h begun at_p tail enough = absurd (omega arith)
  walk-entries [] (suc fuel) it slack s h begun at_p tail enough =
      rw (next_end mama msg it (omega arith))
  walk-entries (e ∷ es) (suc fuel) it slack s h begun at_p tail enough =
      rw (next-encode mama msg it e (encode_all mama es ++ slack) h.0 inside at_entry begun) (
        ap (λ k. visit s (view mama it.buffer_position e) >>= k)
          (fun_ext (elim [
            | over t ↦ refl
            | going t ↦
                walk-entries es fuel (passed mama it e) slack t h.1 (λ z. absurd (omega arith))
                  (drop_past it.buffer_position _ msg.payload_buffer (encode mama e) _ at_entry
                    refl)
                  (omega (arith, sizes)) (omega (arith, sizes, length-encode mama e))
          ])))
    where
      sizes :
          length (encode mama e ++ encode_all mama es)
          ≡ length (encode mama e) + length (encode_all mama es)
      sizes = length-append (encode mama e) (encode_all mama es)

      inside : it.buffer_position < msg.payload_buffer_tail
      inside = omega (arith, sizes, length-encode mama e)

      at_entry :
          drop it.buffer_position msg.payload_buffer
          ≡ encode mama e ++ (encode_all mama es ++ slack)
      at_entry = at_p ∙ append_assoc (encode mama e) (encode_all mama es) slack

  walk_end :
      (fuel : ℕ) (it : OmnmIterImpl) (s : S)
      → 0 < fuel
      → msg.payload_buffer_tail ≤ it.buffer_position
      → walk fuel mama msg it visit s ≡ ret s
  unfolding walk
  walk_end zero it s some_fuel h = absurd (omega arith)
  walk_end (suc fuel) it s some_fuel h = rw (next_end mama msg it h)

  -- Over a message that represents entries, the loop over the iterator runs its body on the view of
  -- each entry in order, and ends when the body or the entries do.
  pub walk_all-entries :
      (es : List Entry) (s : S)
      → Represents mama msg es
      → walk_all mama msg visit s ≡ walk_entries mama (get_header_size msg) es visit s
  unfolding walk_all init begin
  walk_all-entries [] s r =
      let tail : msg.payload_buffer_tail ≤ get_header_size msg =
        unfold encode_all in omega (arith, r.tail_size, r.head_size) in
      rw (next_end mama msg (started (null_field mama)) tail) (
        walk_end (msg.payload_buffer_tail + 2) (started (null_field mama)) s (omega arith) tail
        ∙ unfold walk_entries in refl)
    where
      started : OmnmFieldImpl → OmnmIterImpl
      started f = record { field = f; buffer_position = get_header_size msg; index = 0 }
  walk_all-entries (e ∷ es) s r =
      let (at_head, at_entry, inside) = first_entry mama msg e es r in
      rw
        (next-encode_first mama msg (started (null_field mama)) e (encode_all mama es ++ r.slack)
          r.entries.0 inside at_entry refl refl)
        (walk-entries (e ∷ es) (msg.payload_buffer_tail + 2) (rewound mama msg e) r.slack s
          r.entries (λ z. absurd (omega arith)) at_head (omega (arith, r.tail_size, r.head_size))
          (omega (arith, r.tail_size)))
    where
      started : OmnmFieldImpl → OmnmIterImpl
      started f = record { field = f; buffer_position = get_header_size msg; index = 0 }
