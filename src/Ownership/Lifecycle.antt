-- ===== src/Ownership/Lifecycle.antt =====
-- From the `create` of a message or an iterator to its `destroy`, with calls of src/Payload.cpp and
-- src/Field.cpp between them: those of Ownership/Use.antt, which `omnmmsgPayload_apply` is not one of.
use open_mama_omnm.Prelude.{ℕ, ◌+◌, ◌*◌, ◌≡◌, refl, ◌∙◌, ap, List, [], ◌∷◌, arith, le→ltb_false}
use open_mama_omnm.Memory.{Run, ret, ◌>>=◌}
use open_mama_omnm.Ownership.{
  Ledger, count, Owned, payload, Holds, holds, create, destroy, create_iter, destroy_iter, claims,
  claims_array, claims_field,
}
use open_mama_omnm.Ownership.Use.{
  Allocator, FieldCall, uses_buffer, gets_msg, gets_vector_string, gets_vector_msg,
  gets_vector_date_time, gets_vector_price, in_sub_payload, in_element, MessageCall, adds_bytes,
  un_serializes, on_field, use_room, call_field, call_message, call_all_field, call_all_message,
  message_life, iter_life,
}
use open_mama_omnm.Ownership.Balance.{
  Keeps, use_room-Balanced, un_serialize-Balanced, take-Balanced, create-Balanced,
}
use open_mama_omnm.Ownership.Elements.{NeverFails, use_room-room}
use open_mama_omnm.Ownership.Fill.{
  Keeps-part, get_payloads-Keeps, get_array-Keeps, at_slot-Keeps, at_payloads-Keeps,
}
use open_mama_omnm.Ownership.Release.{delete-Releases, free-Releases}

module _ (a : Allocator) (never : NeverFails a) where
  mutual
    unfolding call_field claims

    call_field-Keeps :
        (c : FieldCall) (f : Holds) (l : Ledger) → Keeps claims_field f l (call_field a c f l)
    call_field-Keeps (uses_buffer wanted) (holds buffer sub strings messages times prices) l =
        (λ live. (
          _,
          refl,
          λ b. omega (arith, use_room-Balanced a buffer wanted l (λ b. omega (arith, live b)) b),
        ))
    call_field-Keeps (gets_msg version len) (holds buffer sub strings messages times prices) l =
        (λ live. (
          _,
          refl,
          λ b. omega (arith, take-Balanced a sub version len l (λ b. omega (arith, live b)) b),
        ))
    call_field-Keeps (gets_vector_string n) (holds buffer sub strings messages times prices) l =
        let after = use_room a strings (8 * n) l in
        (λ live. (
          (holds buffer sub after.0 messages times prices, after.1),
          rw (le→ltb_false _ _ (use_room-room a never strings (8 * n) l)) refl,
          λ b. omega (arith, use_room-Balanced a strings (8 * n) l (λ b. omega (arith, live b)) b),
        ))
    call_field-Keeps (gets_vector_msg qs) (holds buffer sub strings messages times prices) l =
        Keeps-part _ claims_field (λ messages. holds buffer sub strings messages times prices)
          (holds buffer sub strings messages times prices) l messages _
          (get_payloads-Keeps a never messages qs l) (λ b. omega arith) (λ b s'. omega arith)
    call_field-Keeps (gets_vector_date_time n) (holds buffer sub strings messages times prices) l =
        Keeps-part _ claims_field (λ times. holds buffer sub strings messages times prices)
          (holds buffer sub strings messages times prices) l times _
          (get_array-Keeps a never times n l) (λ b. omega arith) (λ b s'. omega arith)
    call_field-Keeps (gets_vector_price n) (holds buffer sub strings messages times prices) l =
        Keeps-part _ claims_field (λ prices. holds buffer sub strings messages times prices)
          (holds buffer sub strings messages times prices) l prices _
          (get_array-Keeps a never prices n l) (λ b. omega arith) (λ b s'. omega arith)
    call_field-Keeps (in_sub_payload c) (holds buffer sub strings messages times prices) l =
        Keeps-part _ claims_field (λ sub. holds buffer sub strings messages times prices)
          (holds buffer sub strings messages times prices) l sub _
          (at_slot-Keeps (λ m l. call_message a c m l) (λ m l. call_message-Keeps c m l) sub l)
          (λ b. omega arith) (λ b s'. omega arith)
    call_field-Keeps (in_element n c) (holds buffer sub strings messages times prices) l =
        Keeps-part _ claims_field (λ messages. holds buffer sub strings messages times prices)
          (holds buffer sub strings messages times prices) l messages _
          (at_payloads-Keeps (λ m l. call_message a c m l) (λ m l. call_message-Keeps c m l) n
            messages l)
          (λ b. omega arith) (λ b s'. omega arith)

    call_message-Keeps :
        (c : MessageCall) (m : Owned) (l : Ledger) → Keeps claims m l (call_message a c m l)
    call_message-Keeps (adds_bytes wanted) (payload object buffer field) l = (λ live. (
      _,
      refl,
      λ b. omega (arith, use_room-Balanced a buffer wanted l (λ b. omega (arith, live b)) b),
    ))
    call_message-Keeps (un_serializes version len) m l =
        (λ live. (_, refl, un_serialize-Balanced a m version len l live))
    call_message-Keeps (on_field c) (payload object buffer field) l =
        Keeps-part _ claims (λ field. payload object buffer field) (payload object buffer field) l
          field _ (call_field-Keeps c field l) (λ b. omega arith) (λ b s'. omega arith)

  -- Calls in a row, each of which keeps step
  all-Keeps :
      {C T : Type 0} (owned : ℕ → T → ℕ) (call : C → T → Ledger → Run (T × Ledger))
      (run : List C → T → Ledger → Run (T × Ledger))
      → ((t : T) (l : Ledger) → run [] t l ≡ ret (t, l))
      → ((c : C) (cs : List C) (t : T) (l : Ledger)
          → run (c ∷ cs) t l ≡ (call c t l >>= (λ (t, l). run cs t l)))
      → ((c : C) (t : T) (l : Ledger) → Keeps owned t l (call c t l))
      → (cs : List C) (t : T) (l : Ledger) → Keeps owned t l (run cs t l)
  all-Keeps owned call run none one keeps [] t l live = ((t, l), none t l, λ b. refl)
  all-Keeps owned call run none one keeps (c ∷ cs) t l live =
      let ((t', l'), ran, balanced) = keeps c t l live in
      let (after, ran', balanced') =
        all-Keeps owned call run none one keeps cs t' l' (λ b. omega (arith, live b, balanced b)) in
      (
        after,
        one c cs t l ∙ ap (λ r. r >>= (λ (t, l). run cs t l)) ran ∙ ran',
        λ b. omega (arith, balanced b, balanced' b),
      )

  call_all_field-Keeps :
      (cs : List FieldCall) (f : Holds) (l : Ledger)
      → Keeps claims_field f l (call_all_field a cs f l)
  unfolding call_all_field
  call_all_field-Keeps =
      all-Keeps claims_field (call_field a) (call_all_field a) (λ f l. refl) (λ c cs f l. refl)
        call_field-Keeps

  call_all_message-Keeps :
      (cs : List MessageCall) (m : Owned) (l : Ledger)
      → Keeps claims m l (call_all_message a cs m l)
  unfolding call_all_message
  call_all_message-Keeps =
      all-Keeps claims (call_message a) (call_all_message a) (λ m l. refl) (λ c cs m l. refl)
        call_message-Keeps

  -- From `omnmmsgPayload_create` on, through any sequence of calls of `addField`, `updateField`,
  -- `unSerialize` and `setByteBuffer` on the message, of the getters, the printers and the setters
  -- of vectors on its field structure, and of all of these on the sub-messages that the getters
  -- hand out, but none of `omnmmsgPayload_apply`, to `omnmmsgPayload_destroy`, no block is released
  -- that does not live, and each block and object that was acquired is released: what lives at the
  -- end is what lived at the start, provided that no allocation fails.
  pub message_life-released :
      (calls : List MessageCall) (l : Ledger)
      → (l' : Ledger) × (message_life a calls l ≡ ret l')
        × ((b : ℕ) → count b l'.live ≡ count b l.live)
  unfolding message_life destroy
  message_life-released calls l =
      let ((m, l'), ran, balanced) =
        call_all_message-Keeps calls (create l).0 (create l).1
          (λ b. omega (arith, create-Balanced l b)) in
      let (after, freed, left) =
        delete-Releases m l' (λ b. count b l.live)
          (λ b. omega (arith, balanced b, create-Balanced l b)) in
      (after, rw ran freed, left)

  -- `omnmmsgPayloadIter_destroy` releases the iterator alone: whatever its field structure has come
  -- to own since `omnmmsgPayloadIter_create`, through any sequence of the calls of its getters and
  -- printers and of those of `addField`, `updateField`, `unSerialize` and `setByteBuffer` on the
  -- sub-messages that these hand out, and the sub-messages in it, still lives afterwards, besides
  -- what lived at the start, provided that no allocation fails.
  pub iter_life-leaks :
      (calls : List FieldCall) (l : Ledger)
      → (f : Holds) × (l' : Ledger) × (iter_life a calls l ≡ ret (f, l'))
        × ((b : ℕ) → count b l'.live ≡ count b l.live + claims_field b f)
  unfolding iter_life create_iter destroy_iter claims claims_array
  iter_life-leaks calls l =
      let ((f, l'), ran, balanced) =
        call_all_field-Keeps calls (create_iter l).0.1 (create_iter l).1 (λ b. omega arith) in
      let (after, freed, left) =
        free-Releases l.next l' (λ b. count b l.live + claims_field b f)
          (λ b. omega (arith, balanced b)) in
      (f, after, rw (ran, freed) refl, left)
