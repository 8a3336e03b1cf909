-- ===== src/Print/Text.antt =====
-- The text that `omnmmsgPayload_toString` of src/Payload.cpp makes of a message.
use open_mama_omnm.Prelude.{
  ℕ, zero, suc, ◌+◌, ◌≤◌, ◌<◌, ◌≡◌, ◌≢◌, refl, sym, ap, ◌∙◌, List, [], ◌∷◌, ◌++◌, append_assoc,
  append-nil, some, length, drop, length-append, arith, le→leb, lt→leb,
}
use mathlib.Core.Path.{subst}
use open_mama_omnm.Mama.{Mama}
use open_mama_omnm.Memory.{ret, ◌>>=◌}
use open_mama_omnm.Message.{OmnmPayloadImpl, get_header_size, null_field}
use open_mama_omnm.Iterator.{OmnmIterImpl, init, begin}
use open_mama_omnm.Iterator.Walk.{passed, rewound, next-encode_first, next_end}
use open_mama_omnm.Payload.Update.{place}
use open_mama_omnm.Payload.Upserted.{Enough}
use open_mama_omnm.Bridge.Count.{get_num_fields-length}
use open_mama_omnm.Scalar.{Conversion}
use open_mama_omnm.Objects.{Objects}
use open_mama_omnm.Apply.Merge.{behind}
use open_mama_omnm.Print.{Printers, open_brace}
use open_mama_omnm.Print.Whole.{sizeof_part, print_fields, to_string}
use open_mama_omnm.Wire.{Entry, Represents, encode, encode_all}
use open_mama_omnm.Wire.Laws.{AllEntries-mem, drop-entry, length-encode}
use open_mama_omnm.Print.Room.{
  write_text, tail_at, AllPrinted, entry_text, joined, print_field_last, print_field_more, room_for,
  round,
}

module _ (mama : Mama) (convert : Conversion) (o : Objects) (printers : Printers o)
    (m : OmnmPayloadImpl) (few : (n : ℕ) → n < 65536 → length (printers.decimal n) ≤ 5)
    (enough : Enough mama) where
  print_fields_end :
      (fuel : ℕ) (it : OmnmIterImpl) (buf : List ℕ) (char_idx : ℕ)
      → 0 < fuel
      → m.payload_buffer_tail ≤ it.buffer_position
      → print_fields mama convert o printers m fuel it buf char_idx ≡ ret (some (buf, char_idx))
  unfolding print_fields
  print_fields_end zero it buf char_idx some_fuel ended = absurd (omega arith)
  print_fields_end (suc fuel) it buf char_idx some_fuel ended = rw (next_end mama m it ended) refl

  print_fields-text :
      (e : Entry) (es before : List Entry) (ts : List (List ℕ)) (fuel : ℕ) (it : OmnmIterImpl)
      (pre rest : List ℕ)
      → Represents mama m (before ++ (e ∷ es))
      → it.index ≢ 0
      → it.buffer_position ≡ place mama m before
      → AllPrinted mama convert o printers m it.buffer_position (e ∷ es) ts
      → length (e ∷ es) < fuel
      → (left : List ℕ) × (print_fields mama convert o printers m fuel it (pre ++ rest) (length pre)
          ≡ ret (
              some (
                (pre ++ joined mama convert o printers m (e ∷ es) ts) ++ left,
                length (pre ++ joined mama convert o printers m (e ∷ es) ts),
              )))
        × (2 ≤ length left)
  unfolding joined
  print_fields-text e es before ts zero it pre rest r begun at printed fuel_left =
      absurd (omega arith)
  print_fields-text e es before [] (suc fuel) it pre rest r begun at printed fuel_left =
      absurd printed
  print_fields-text e [] before (t ∷ ts) (suc fuel) it pre rest r begun at printed fuel_left =
      let (more, memory, wide) =
        room_for mama convert o printers m few enough pre rest t e
          (AllEntries-mem before [] e r.entries) in
      let ended : m.payload_buffer_tail ≤ (passed mama it e).buffer_position =
        unfold encode_all in
        omega (arith, at, tail_at mama m before (e ∷ []) r, length-append (encode mama e) []) in
      let (left, put, two) =
        print_field_last mama convert o printers m pre more
          (entry_text mama convert o printers m e t) (passed mama it e)
          (rw (le→leb m.payload_buffer_tail (passed mama it e).buffer_position ended) refl) wide in
      (
        left,
        round mama convert o printers m few enough e [] before t fuel it pre rest more printed.0.0 r
              begun at printed.0.1 memory
            ∙ ap
                (λ b.
                  b >>= λ b. print_fields mama convert o printers m fuel (passed mama it e) b.0 b.1)
                put
            ∙ print_fields_end fuel (passed mama it e) _ _ (omega arith) ended,
        two,
      )
  print_fields-text e (f ∷ es) before (t ∷ ts) (suc fuel) it pre rest r begun at printed fuel_left =
      let (more, memory, wide) =
        room_for mama convert o printers m few enough pre rest t e
          (AllEntries-mem before (f ∷ es) e r.entries) in
      let next_at = behind mama m before e it.buffer_position at in
      let r' = subst (Represents mama m) (sym (append_assoc before (e ∷ []) (f ∷ es))) r in
      let inside : (passed mama it e).buffer_position < m.payload_buffer_tail =
        unfold encode_all in
        omega (
          arith,
          next_at,
          tail_at mama m (before ++ (e ∷ [])) (f ∷ es) r',
          length-append (encode mama f) (encode_all mama es),
          length-encode mama f,
        ) in
      let (left, put) =
        print_field_more mama convert o printers m pre more
          (entry_text mama convert o printers m e t) (passed mama it e)
          (rw (lt→leb m.payload_buffer_tail (passed mama it e).buffer_position inside) refl) wide in
      let comma = entry_text mama convert o printers m e t ++ (44 ∷ []) in
      let (left', done, two) =
        print_fields-text f es (before ++ (e ∷ [])) ts fuel (passed mama it e) (pre ++ comma) left
          r' (λ z. absurd (omega arith)) next_at printed.1 (omega arith) in
      let whole : (pre ++ comma) ++ joined mama convert o printers m (f ∷ es) ts
          ≡ pre
            ++ (entry_text mama convert o printers m e t
                ++ (44 ∷ joined mama convert o printers m (f ∷ es) ts)) =
        simp append_assoc in
      (
        left',
        round mama convert o printers m few enough e (f ∷ es) before t fuel it pre rest more
              printed.0.0 r begun at printed.0.1 memory
            ∙ ap
                (λ b.
                  b >>= λ b. print_fields mama convert o printers m fuel (passed mama it e) b.0 b.1)
                put
            ∙ done
            ∙ ap (λ b. ret (some (b ++ left', length b))) whole,
        two,
      )

  length-encode_all : (es : List Entry) → length es ≤ length (encode_all mama es)
  unfolding encode_all
  length-encode_all [] = omega arith
  length-encode_all (e ∷ es) = omega (
    arith,
    length-append (encode mama e) (encode_all mama es),
    length-encode mama e,
    length-encode_all es,
  )

  init-rewound :
      (e : Entry) (es : List Entry)
      → Represents mama m (e ∷ es)
      → init mama m ≡ ret (rewound mama m e)
  unfolding init begin
  init-rewound e es r =
      let ends = tail_at mama m [] (e ∷ es) r in
      let inside : get_header_size m < m.payload_buffer_tail =
        unfold encode_all in
        omega
          (arith, ends, length-append (encode mama e) (encode_all mama es), length-encode mama e) in
      let here : drop (get_header_size m) m.payload_buffer
          ≡ encode mama e ++ (encode_all mama es ++ r.slack) =
        unfold encode_all in
        ap (λ p. drop p m.payload_buffer) (omega arith) ∙ drop-entry mama m [] es e r in
      rw
        (next-encode_first mama m
          (record { field = null_field mama; buffer_position = get_header_size m; index = 0 }) e
          (encode_all mama es ++ r.slack) r.entries.0 inside here refl refl)
        refl

  -- The loop from the state in which the iterator begins.
  print_all :
      (es : List Entry) (ts : List (List ℕ)) (pre rest : List ℕ)
      → Represents mama m es
      → AllPrinted mama convert o printers m (get_header_size m) es ts
      → 2 ≤ length rest
      → (it : OmnmIterImpl) × (left : List ℕ) × (init mama m ≡ ret it)
        × (print_fields mama convert o printers m
              (m.payload_buffer_tail + 2)
              it
              (pre ++ rest)
              (length pre)
            ≡ ret (
                some (
                  (pre ++ joined mama convert o printers m es ts) ++ left,
                  length (pre ++ joined mama convert o printers m es ts),
                )))
        × (2 ≤ length left)
  print_all [] ts pre rest r printed room =
      let ended : m.payload_buffer_tail ≤ get_header_size m =
        unfold encode_all in omega (arith, tail_at mama m [] [] r) in
      let it : OmnmIterImpl = record {
        field = null_field mama;
        buffer_position = get_header_size m;
        index = 0;
      } in
      (
        it,
        rest,
        unfold init in unfold begin in rw (next_end mama m it ended) refl,
        unfold joined in
            rw
              (
                print_fields_end (m.payload_buffer_tail + 2) it (pre ++ rest) (length pre)
                    (omega arith) ended,
                append-nil pre,
              )
              refl,
        room,
      )
  print_all (e ∷ es) ts pre rest r printed room =
      let (left, done, two) =
        print_fields-text e es [] ts (m.payload_buffer_tail + 2) (rewound mama m e) pre rest r
          (λ z. absurd (omega arith)) (unfold encode_all in omega arith) printed
          (omega (arith, length-encode_all (e ∷ es), tail_at mama m [] (e ∷ es) r)) in
      (rewound mama m e, left, init-rewound e es r, done, two)

  -- On a message that represents entries, of each of which `getAsString` makes a text,
  -- `omnmmsgPayload_toString` writes nothing past the buffer that it grows, and returns a block
  -- that begins with the texts of the entries in order, each as its name, its fid in brackets
  -- unless that is 0, an equals sign and its text, with commas between them, in braces and
  -- terminated, provided that a number of 16 bits is printed with five digits at most, and that
  -- memory is allocated whenever it is asked for.
  pub to_string_text :
      (es : List Entry) (ts : List (List ℕ))
      → Represents mama m es
      → AllPrinted mama convert o printers m (get_header_size m) es ts
      → (left : List ℕ) × (to_string mama convert o printers (some m)
          ≡ ret (
              some (
                (open_brace ++ (joined mama convert o printers m es ts ++ (125 ∷ [])))
                ++ (0 ∷ left))))
  unfolding to_string
  to_string_text es ts r printed =
      let (grown, memory) = enough m.scratch sizeof_part in
      let (_, _, big) = mama.allocate_grows m.scratch grown sizeof_part memory in
      let (left, opened, size) = write_text [] grown open_brace (omega (arith, big)) in
      let (it, left', started, done, two) =
        print_all es ts open_brace (0 ∷ left) r printed (omega (arith, size, big)) in
      let (left'', closed, _) =
        write_text (open_brace ++ joined mama convert o printers m es ts) left' (125 ∷ []) two in
      (left'', rw (get_num_fields-length mama m es r, started, memory, opened, done, closed) refl)
