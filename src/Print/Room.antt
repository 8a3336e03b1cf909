-- ===== src/Print/Room.antt =====
-- The buffer that `omnmmsgPayload_toString` of src/Payload.cpp grows is large enough for what it writes.
use open_mama_omnm.Prelude.{
  ℕ, suc, ◌+◌, ◌≤◌, ◌<◌, ◌≡◌, ◌≢◌, ◌==◌, refl, sym, ap, ◌∙◌, List, [], ◌∷◌, ◌++◌, append_assoc,
  true, false, none, some, length, drop, length-append, length-drop, arith, Bool-cases, inl, inr,
}
use mathlib.Core.Path.{ap₂}
use open_mama_omnm.Mama.{Mama, Status}
use open_mama_omnm.Memory.{ret, ◌>>=◌, write}
use open_mama_omnm.Memory.Laws.{write_extends}
use open_mama_omnm.Message.{OmnmPayloadImpl}
use open_mama_omnm.Iterator.{OmnmIterImpl, has_next}
use open_mama_omnm.Iterator.Walk.{passed, next-encode}
use open_mama_omnm.Payload.Put.{text_of}
use open_mama_omnm.Payload.Update.{place}
use open_mama_omnm.Payload.Upserted.{Enough}
use open_mama_omnm.Scalar.{Conversion}
use open_mama_omnm.Blob.{terminated}
use open_mama_omnm.Field.{get_name}
use open_mama_omnm.Objects.{Objects}
use open_mama_omnm.Apply.Field.{named_or, get_name-named_or}
use open_mama_omnm.Print.{Printers, get_as_string}
use open_mama_omnm.Print.Whole.{sizeof_part, field_text, print_field, print_fields}
use open_mama_omnm.Wire.{Entry, IsEntry, Represents, view, encode, encode_all}
use open_mama_omnm.Wire.Laws.{AllEntries-mem, drop-entry, encode_all-append, length-encode}

-- A string that is written behind `pre`, and what is left behind its terminator.
pub write_text :
    (pre rest t : List ℕ)
    → length t + 1 ≤ length rest
    → (left : List ℕ) × (write (pre ++ rest) (length pre) (terminated t)
        ≡ ret ((pre ++ t) ++ (0 ∷ left)))
      × (length left + length t + 1 ≡ length rest)
write_text pre rest t room =
    let size = length-append t (0 ∷ []) in
    (
      drop (length (terminated t)) rest,
      write_extends pre rest (terminated t) (length pre) refl (omega (arith, size))
          ∙ ap ret (simp append_assoc),
      omega (arith, size, length-drop (length (terminated t)) rest),
    )

-- The tail stands behind the entries.
pub tail_at :
    (mama : Mama) (m : OmnmPayloadImpl) (before es : List Entry)
    → Represents mama m (before ++ es)
    → m.payload_buffer_tail ≡ place mama m before + length (encode_all mama es)
tail_at mama m before es r = omega (
  arith,
  r.tail_size,
  r.head_size,
  ap length (encode_all-append mama before es),
  length-append (encode_all mama before) (encode_all mama es),
)

module _ (mama : Mama) (convert : Conversion) (o : Objects) (printers : Printers o)
    (m : OmnmPayloadImpl) where
  -- The texts are those of the entries from an offset on.
  abbrev pub AllPrinted : ℕ → List Entry → List (List ℕ) → Type 0
  AllPrinted p [] [] = Unit {0}
  AllPrinted p [] (t ∷ ts) = ⊥
  AllPrinted p (e ∷ es) [] = ⊥
  AllPrinted p (e ∷ es) (t ∷ ts) =
      ((status : Status) × (get_as_string convert o printers m (some (view mama p e)) true
            sizeof_part
          ≡ ret (status, some t)))
      × AllPrinted (p + length (encode mama e)) es ts

  abbrev pub entry_text : Entry → List ℕ → List ℕ
  entry_text e t = field_text mama convert o printers m (some e.name) e.fid t

  -- The texts of the entries with commas between them.
  unfoldable pub joined : List Entry → List (List ℕ) → List ℕ
  joined [] ts = []
  joined (e ∷ es) [] = []
  joined (e ∷ []) (t ∷ ts) = entry_text e t
  joined (e ∷ f ∷ es) (t ∷ ts) = entry_text e t ++ (44 ∷ joined (f ∷ es) ts)

  pub print_field_last :
      (pre rest text : List ℕ) (it : OmnmIterImpl)
      → has_next m it ≡ false
      → length text + 2 ≤ length rest
      → (left : List ℕ) × (print_field mama convert o printers m (pre ++ rest) (length pre) it text
          ≡ ret ((pre ++ text) ++ left, length (pre ++ text)))
        × (2 ≤ length left)
  unfolding print_field
  print_field_last pre rest text it last room =
      let (left, written, size) = write_text pre rest text (omega arith) in
      (
        0 ∷ left,
        rw (written, last)
            (ap (λ n. ret ((pre ++ text) ++ (0 ∷ left), n)) (sym (length-append pre text))),
        omega (arith, size),
      )

  pub print_field_more :
      (pre rest text : List ℕ) (it : OmnmIterImpl)
      → has_next m it ≡ true
      → length text + 2 ≤ length rest
      → (left : List ℕ) × (print_field mama convert o printers m (pre ++ rest) (length pre) it text
          ≡ ret ((pre ++ (text ++ (44 ∷ []))) ++ left, length (pre ++ (text ++ (44 ∷ [])))))
  unfolding print_field
  print_field_more pre rest text it more room =
      let (left, written, size) = write_text pre rest text (omega arith) in
      let (left', comma, _) = write_text (pre ++ text) (0 ∷ left) (44 ∷ []) (omega (arith, size)) in
      let end : length (pre ++ (text ++ (44 ∷ []))) ≡ length pre + length text + 1 =
        omega (arith, length-append pre (text ++ (44 ∷ [])), length-append text (44 ∷ [])) in
      (
        0 ∷ left',
        rw (written, more, ← length-append pre text, comma)
            (ap ret (
              ap₂ (λ (b : List ℕ) (n : ℕ). (b, n))
                (ap (λ b. b ++ (0 ∷ left')) (append_assoc pre text (44 ∷ [])))
                (omega (arith, end, length-append pre text)))),
      )

  -- A round: the text of the entry, and a comma unless it is the last.
  module _ (few : (n : ℕ) → n < 65536 → length (printers.decimal n) ≤ 5)
      (enough : Enough mama) where
    named_or_lem : (t : List ℕ) → text_of (named_or none t) ≡ t
    named_or_lem [] = refl
    named_or_lem (c ∷ s) = refl

    length-entry_text :
        (e : Entry) (t : List ℕ)
        → IsEntry e
        → length (entry_text e t) ≤ length e.name + length t + 8
    length-entry_text e t k = elim (Bool-cases (e.fid == 0)) [
      | inl no_fid ↦ rw no_fid (omega (arith, length-append e.name (61 ∷ t)))
      | inr has_fid ↦ rw has_fid (
          omega (
            arith,
            few e.fid k.fid_word,
            length-append e.name (91 ∷ (printers.decimal e.fid ++ (93 ∷ 61 ∷ t))),
            length-append (printers.decimal e.fid) (93 ∷ 61 ∷ t),
          ))
    ]

    -- The buffer as it is enlarged for a round.
    pub room_for :
        (pre rest t : List ℕ) (e : Entry)
        → IsEntry e
        → (more : List ℕ) × (mama.allocate
              (pre ++ rest)
              (length e.name + length t + 10 + length pre)
            ≡ some (pre ++ more))
          × (length (entry_text e t) + 2 ≤ length more)
    room_for pre rest t e k =
        let (grown, memory) = enough (pre ++ rest) (length e.name + length t + 10 + length pre) in
        let (extra, same, big) = mama.allocate_grows (pre ++ rest) grown _ memory in
        let split : grown ≡ pre ++ (rest ++ extra) = same ∙ append_assoc pre rest extra in
        (
          rest ++ extra,
          memory ∙ ap some split,
          omega (
            arith,
            big,
            ap length split,
            length-append pre (rest ++ extra),
            length-entry_text e t k,
          ),
        )

    pub round :
        (e : Entry) (es before : List Entry) (t : List ℕ) (fuel : ℕ) (it : OmnmIterImpl)
        (pre rest more : List ℕ) (status : Status)
        → Represents mama m (before ++ (e ∷ es))
        → it.index ≢ 0
        → it.buffer_position ≡ place mama m before
        → get_as_string convert o printers m
            (some (view mama it.buffer_position e))
            true
            sizeof_part
          ≡ ret (status, some t)
        → mama.allocate (pre ++ rest) (length e.name + length t + 10 + length pre)
          ≡ some (pre ++ more)
        → print_fields mama convert o printers m (suc fuel) it (pre ++ rest) (length pre) ≡ (
            print_field mama convert o printers m
              (pre ++ more)
              (length pre)
              (passed mama it e)
              (entry_text e t)
            >>= λ b. print_fields mama convert o printers m fuel (passed mama it e) b.0 b.1)
    unfolding print_fields encode_all
    round e es before t fuel it pre rest more status r begun at printed memory =
        let k = AllEntries-mem before es e r.entries in
        let ends = tail_at mama m before (e ∷ es) r in
        let inside : it.buffer_position < m.payload_buffer_tail = omega (
          arith,
          at,
          ends,
          length-append (encode mama e) (encode_all mama es),
          length-encode mama e,
        ) in
        let here = ap (λ p. drop p m.payload_buffer) at ∙ drop-entry mama m before es e r in
        let name =
          ap (λ p. get_name m (some (view mama p e)) none (some none)) at
          ∙ get_name-named_or mama m before es e r none in
        rw
          (
            next-encode mama m it e (encode_all mama es ++ r.slack) k inside here begun,
            printed,
            name,
            named_or_lem e.name,
            memory,
            named_or_lem e.name,
          )
          refl
