-- ===== src/Iterator/Drain.antt =====
-- Calls of the iterator of src/Iterator.cpp one by one, up to its end and beyond.
use open_mama_omnm.Prelude.{
  ℕ, zero, suc, ◌+◌, ◌≤◌, ◌<◌, ◌≡◌, ◌≢◌, refl, ap, ◌∙◌, List, [], ◌∷◌, ◌++◌, append_assoc, Bool,
  true, false, Option, none, some, length, drop, map, replicate, length-append, drop_past, le→leb,
  lt→leb, arith,
}
use open_mama_omnm.Mama.{Mama}
use open_mama_omnm.Memory.{Run, ret, ◌>>=◌}
use open_mama_omnm.Message.{OmnmFieldImpl, OmnmPayloadImpl, get_header_size}
use open_mama_omnm.Iterator.{OmnmIterImpl, has_next, next, begin}
use open_mama_omnm.Iterator.Walk.{
  passed, rewound, next-encode, next-encode_first, next_end, first_entry,
}
use open_mama_omnm.Wire.{Entry, encode, encode_all, AllEntries, views, Represents}
use open_mama_omnm.Wire.Laws.{length-encode}

-- What `omnmmsgPayloadIter_hasNext` says before each of some calls of `omnmmsgPayloadIter_next`, and what the
-- call returns.
unfoldable pub call_next :
    ℕ → Mama → OmnmPayloadImpl → OmnmIterImpl → Run (List (Bool × Option OmnmFieldImpl))
call_next zero mama msg it = ret []
call_next (suc n) mama msg it = do
  (found, it') ← next mama msg it
  rest ← call_next n mama msg it'
  ret ((has_next msg it, found) ∷ rest)

abbrev pub showing : OmnmFieldImpl → Bool × Option OmnmFieldImpl
showing f = (true, some f)

module _ (mama : Mama) (msg : OmnmPayloadImpl) where
  call_next_end :
      (n : ℕ) (it : OmnmIterImpl)
      → msg.payload_buffer_tail ≤ it.buffer_position
      → call_next n mama msg it ≡ ret (replicate n (false, none))
  unfolding call_next
  call_next_end zero it h = refl
  call_next_end (suc n) it h =
      rw
        (
          next_end mama msg it h,
          call_next_end n it h,
          le→leb msg.payload_buffer_tail it.buffer_position h,
        )
        refl

  call_next-entries :
      (es : List Entry) (n k : ℕ) (it : OmnmIterImpl) (slack : List ℕ)
      → AllEntries es
      → k ≡ length es + n
      → it.index ≢ 0
      → drop it.buffer_position msg.payload_buffer ≡ encode_all mama es ++ slack
      → msg.payload_buffer_tail ≡ it.buffer_position + length (encode_all mama es)
      → call_next k mama msg it
        ≡ ret (map showing (views mama it.buffer_position es) ++ replicate n (false, none))
  unfolding call_next encode_all views
  call_next-entries [] n k it slack h count begun at_p tail =
      let same : k ≡ n = omega (arith, count) in
      ap (λ k. call_next k mama msg it) same ∙ call_next_end n it (omega (arith, tail))
  call_next-entries (e ∷ es) n zero it slack h count begun at_p tail = absurd (omega (arith, count))
  call_next-entries (e ∷ es) n (suc k) it slack h count begun at_p tail =
      rw
        (
          next-encode mama msg it e (encode_all mama es ++ slack) h.0 inside at_entry begun,
          call_next-entries es n k (passed mama it e) slack h.1 (omega (arith, count))
              (λ z. absurd (omega arith))
              (drop_past it.buffer_position _ msg.payload_buffer (encode mama e) _ at_entry refl)
              (omega (arith, sizes, tail)),
          lt→leb msg.payload_buffer_tail it.buffer_position inside,
        )
        refl
    where
      sizes :
          length (encode mama e ++ encode_all mama es)
          ≡ length (encode mama e) + length (encode_all mama es)
      sizes = length-append (encode mama e) (encode_all mama es)

      inside : it.buffer_position < msg.payload_buffer_tail
      inside = omega (arith, sizes, length-encode mama e, tail)

      at_entry :
          drop it.buffer_position msg.payload_buffer
          ≡ encode mama e ++ (encode_all mama es ++ slack)
      at_entry = at_p ∙ append_assoc (encode mama e) (encode_all mama es) slack

  -- Once an iterator, wherever it stood, is begun on a message that represents entries, the calls
  -- of `omnmmsgPayloadIter_next` show each entry once and in order, and `hasNext` is true before
  -- each of them; from then on it is false, and each of any number of further calls returns NULL.
  pub call_next-begin :
      (es : List Entry) (n : ℕ) (it : OmnmIterImpl)
      → Represents mama msg es
      → (begin mama msg it >>= λ begun. call_next (length es + n) mama msg begun.1)
        ≡ ret (map showing (views mama (get_header_size msg) es) ++ replicate n (false, none))
  unfolding begin
  call_next-begin [] n it r =
      let tail : msg.payload_buffer_tail ≤ get_header_size msg =
        unfold encode_all in omega (arith, r.tail_size, r.head_size) in
      let count : 0 + n ≡ n = omega arith in
      rw
        (
          next_end mama msg (record it { index = 0; buffer_position = get_header_size msg }) tail,
          count,
          call_next_end n (record it { index = 0; buffer_position = get_header_size msg }) tail,
        )
        (unfold views in refl)
  call_next-begin (e ∷ es) n it r =
      let (at_head, at_entry, inside) = first_entry mama msg e es r in
      rw
        (next-encode_first mama msg (record it { index = 0; buffer_position = get_header_size msg })
          e (encode_all mama es ++ r.slack) r.entries.0 inside at_entry refl refl)
        (call_next-entries (e ∷ es) n (length (e ∷ es) + n) (rewound mama msg e) r.slack r.entries
          refl (λ z. absurd (omega arith)) at_head (omega (arith, r.tail_size, r.head_size)))
