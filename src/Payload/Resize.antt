-- ===== src/Payload/Resize.antt =====
-- The memory move in `updateField` of src/Payload.cpp: what follows the data of a field keeps its
-- contents, at its new place.
use open_mama_omnm.Prelude.{
  ℕ, ◌+◌, ◌-◌, ◌%◌, ◌^◌, ◌≤◌, ◌<◌, ◌≡◌, inl, inr, refl, sym, ap, ◌∙◌, List, ◌++◌, append_assoc,
  some, length, take, drop, length-append, length-take_le, take_past, arith, ltb, ◌==◌, ==_iff,
  ltb→lt, ltb_false→le, if◌then◌else◌, Bool-cases,
}
use open_mama_omnm.Mama.{Mama}
use open_mama_omnm.Memory.{ret, write, read_bytes}
use open_mama_omnm.Memory.Laws.{write_fits, read_bytes-append}
use open_mama_omnm.Message.{OmnmPayloadImpl}
use open_mama_omnm.Payload.{grow, moved_tail, resize_data}
use open_mama_omnm.Payload.Add.{grow_keeps}

-- Below 2 ^ 31 the tail survives its way through `int`.
moved_tail_small :
    (tail len size left : ℕ)
    → tail < 2 ^ 31
    → tail ≡ size + left
    → left + len < 2 ^ 64
    → moved_tail tail len size ≡ left + len
unfolding moved_tail
moved_tail_small tail len size left small parts fits = ground arith

-- The message with data `mid` of size `n` behind `pre`.
abbrev pub refitted : OmnmPayloadImpl → List ℕ → List ℕ → ℕ → List ℕ → List ℕ → OmnmPayloadImpl
refitted msg pre rest n mid left = record msg {
  payload_buffer = pre ++ (mid ++ (rest ++ left));
  payload_buffer_tail = length pre + n + length rest;
}

module _ (mama : Mama) (msg : OmnmPayloadImpl) (pre old rest slack : List ℕ) (n : ℕ) where
  move :
      (buf zs : List ℕ)
      → buf ≡ pre ++ (old ++ (rest ++ zs))
      → length pre + n + length rest ≤ length buf
      → (mid left : List ℕ) × (write buf (length pre + n) rest
          ≡ ret (pre ++ (mid ++ (rest ++ left))))
        × (length mid ≡ n)
  move buf zs known room = (
    take n (old ++ (rest ++ zs)),
    drop (length pre + n + length rest) buf,
    write_fits buf rest (length pre + n) room
        ∙ ap (λ t. ret (t ++ (rest ++ drop (length pre + n + length rest) buf))) front
        ∙ ap ret (append_assoc pre _ _),
    length-take_le n (old ++ (rest ++ zs)) wide,
  )
    where
      wide : n ≤ length (old ++ (rest ++ zs))
      wide = omega (arith, ap length known, length-append pre (old ++ (rest ++ zs)))

      front : take (length pre + n) buf ≡ pre ++ take n (old ++ (rest ++ zs))
      front = ap (take (length pre + n)) known ∙ take_past pre _ _ n refl

  -- The buffer that `updateField` works on.
  abbrev roomy : List ℕ
  roomy =
      if ltb (length old) n
      then grow mama msg.payload_buffer (length msg.payload_buffer + (n - length old))
      else msg.payload_buffer

  module _ (grown : List ℕ) where
    roomy_keeps :
        msg.payload_buffer ≡ pre ++ (old ++ (rest ++ slack))
        → (length old < n
            → mama.allocate msg.payload_buffer (length msg.payload_buffer + (n - length old))
              ≡ some grown)
        → (zs : List ℕ) × (roomy ≡ pre ++ (old ++ (rest ++ zs)))
          × (length pre + n + length rest ≤ length roomy)
    roomy_keeps known memory = elim (Bool-cases (ltb (length old) n)) [
      | inl wider ↦
          let (more, same, size, _) =
            grow_keeps mama msg.payload_buffer (pre ++ (old ++ rest)) slack grown
              (length msg.payload_buffer + (n - length old)) (known ∙ regroup slack)
              (memory (ltb→lt _ _ wider)) in
          (
            more,
            rw wider (same ∙ sym (regroup more)),
            rw wider (
                omega (
                  arith,
                  ap length known,
                  sizes,
                  ap length same,
                  fronts,
                  ltb→lt _ _ wider,
                  length-append (pre ++ (old ++ rest)) more,
                )),
          )
      | inr not_wider ↦ (
        slack,
        rw not_wider known,
        rw not_wider (omega (arith, ltb_false→le (length old) n not_wider, ap length known, sizes)),
      )
    ]
      where
        regroup : (zs : List ℕ) → pre ++ (old ++ (rest ++ zs)) ≡ (pre ++ (old ++ rest)) ++ zs
        regroup zs = simp append_assoc

        fronts : length (pre ++ (old ++ rest)) ≡ length pre + length old + length rest
        fronts = omega (arith, length-append pre (old ++ rest), length-append old rest)

        sizes :
            length (pre ++ (old ++ (rest ++ slack)))
            ≡ length pre + length old + length rest + length slack
        sizes = omega (
          arith,
          length-append pre (old ++ (rest ++ slack)),
          length-append old (rest ++ slack),
          length-append rest slack,
        )

    pub resize_data_lem :
        msg.payload_buffer ≡ pre ++ (old ++ (rest ++ slack))
        → msg.payload_buffer_tail ≡ length pre + length old + length rest
        → msg.payload_buffer_tail < 2 ^ 31
        → n < 2 ^ 32
        → (length old < n
            → mama.allocate msg.payload_buffer (length msg.payload_buffer + (n - length old))
              ≡ some grown)
        → (mid left : List ℕ) × (resize_data mama msg (length pre) (length old) n
            ≡ ret (refitted msg pre rest n mid left))
          × (length mid ≡ n)
    unfolding resize_data
    resize_data_lem known at_tail small short memory =
        let (zs, same, room) = roomy_keeps known memory in
        let (mid, left, written, fit) = move roomy zs same room in
        (mid, left, rw (count, reads zs same, written, tail) refl, fit)
      where
        count :
            (msg.payload_buffer_tail + 2 ^ 64 - (length pre + length old)) % 2 ^ 32 ≡ length rest
        count = omega arith

        tail : moved_tail msg.payload_buffer_tail n (length old) ≡ length pre + n + length rest
        tail =
            moved_tail_small msg.payload_buffer_tail n (length old) (length pre + length rest) small
              (omega arith) (omega arith)
            ∙ omega arith

        reads :
            (zs : List ℕ)
            → roomy ≡ pre ++ (old ++ (rest ++ zs))
            → read_bytes roomy (length pre + length old) (length rest) ≡ ret rest
        reads zs same =
            ap (λ b. read_bytes b (length pre + length old) (length rest))
              (same ∙ sym (append_assoc pre old (rest ++ zs)))
            ∙ read_bytes-append (pre ++ old) rest zs _ _ (sym (length-append pre old)) refl

    -- The same, also for data of the same size, for which nothing moves.
    pub refit :
        msg.payload_buffer ≡ pre ++ (old ++ (rest ++ slack))
        → msg.payload_buffer_tail ≡ length pre + length old + length rest
        → msg.payload_buffer_tail < 2 ^ 31
        → n < 2 ^ 32
        → (length old < n
            → mama.allocate msg.payload_buffer (length msg.payload_buffer + (n - length old))
              ≡ some grown)
        → (mid left : List ℕ) × ((if n == length old
              then ret msg
              else resize_data mama msg (length pre) (length old) n)
            ≡ ret (refitted msg pre rest n mid left))
          × (length mid ≡ n)
    refit known at_tail small short memory = elim (Bool-cases (n == length old)) [
      | inl equal ↦
          let same_tail : msg.payload_buffer_tail ≡ length pre + n + length rest =
            omega (arith, at_tail, (==_iff n (length old)).0 equal) in
          (
            old,
            slack,
            rw equal (λ i.
                ret (record msg { payload_buffer = known i; payload_buffer_tail = same_tail i })),
            sym ((==_iff n (length old)).0 equal),
          )
      | inr other ↦ rw other (resize_data_lem known at_tail small short memory)
    ]
