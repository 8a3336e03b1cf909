-- ===== src/Ownership/Use.antt =====
-- The calls after which a message or a field structure owns more: the getters of src/Field.cpp that fill
-- a member of `omnmFieldImpl`, `omnmmsgPayload_unSerialize` and the rest of src/Payload.cpp that calls
-- `allocateBufferMemory`. A block or a sub-message is its version and its length here.
use open_mama_omnm.Prelude.{
  ℕ, zero, suc, ◌+◌, ◌*◌, ◌/◌, ◌≤◌, ◌≡◌, List, [], ◌∷◌, Option, none, some, ltb, ◌==◌, length,
  if◌then◌else◌,
}
use open_mama_omnm.Memory.{Run, ret, fault, ◌>>=◌}
use open_mama_omnm.Message.{omnm_protocol_version}
use open_mama_omnm.Ownership.{
  Ledger, acquire, held, held_if, count, Room, no_room, Array, no_array, array, Owned, payload,
  Holds, holds, Slot, vacant, taken, Slots, end, slot, Payloads, no_payloads, payloads, create,
  destroy, create_iter, destroy_iter,
}

-- `allocateBufferMemory` of libwombat: the block that stands for the old one and its size, or none where
-- the old one is left, as it is large enough or the allocation fails. Room that is added is set to zeros.
pub record Allocator : Type 0 where
  pub enlarge : Room → ℕ → Ledger → Option (ℕ × ℕ × Ledger)
  pub grows :
      (r : Room) (wanted : ℕ) (l l' : Ledger) (x size : ℕ)
      → enlarge r wanted l ≡ some (x, size, l')
      → wanted ≤ size
  pub keeps :
      (r : Room) (wanted : ℕ) (l l' : Ledger) (x size : ℕ)
      → enlarge r wanted l ≡ some (x, size, l')
      → r.size ≤ size
  -- where the old block lives
  pub accounts :
      (r : Room) (wanted : ℕ) (l l' : Ledger) (x size : ℕ)
      → enlarge r wanted l ≡ some (x, size, l')
      → ((b : ℕ) → held_if b r.block ≤ count b l.live)
      → (b : ℕ) → count b l'.live + held_if b r.block ≡ count b l.live + held b x

-- The callers of `allocateBufferMemory`, which take no heed of a failure or return behind it.
unfoldable pub use_room : Allocator → Room → ℕ → Ledger → Room × Ledger
use_room a r wanted l = elim (a.enlarge r wanted l) [
  | none ↦ (r, l)
  | some (x, size, l') ↦ (record { block = some x; size = size }, l')
]

-- `omnmmsgPayload_unSerialize` and `omnmmsgPayload_setByteBuffer`, of a block of a version and a length
unfoldable pub un_serialize : Allocator → Owned → ℕ → ℕ → Ledger → Owned × Ledger
unfolding use_room
un_serialize a (payload object buffer field) version len l =
    if len == 0
    then (payload object buffer field, l)
    else if ltb omnm_protocol_version version
    then (payload object buffer field, l)
    else let (buffer, l) = use_room a buffer len l in (payload object buffer field, l)

-- `omnmmsgPayload_createFromByteBuffer` where there is no message, and `omnmmsgPayload_setByteBuffer`
-- where there is one
unfoldable pub take : Allocator → Slot → ℕ → ℕ → Ledger → Slot × Ledger
take a vacant version len l =
    if len == 0
    then (vacant, l)
    else (let (m, l) = create l in let (m, l) = un_serialize a m version len l in (taken m, l))
take a (taken m) version len l = let (m, l) = un_serialize a m version len l in (taken m, l)

-- An array of a size has so many elements; those that no call has filled are NULL.
unfoldable pub pad : ℕ → Slots → Slots
pad zero ms = end
pad (suc n) end = slot vacant (pad n end)
pad (suc n) (slot m ms) = slot m (pad n ms)

unfoldable pub pad_objects : ℕ → List (Option ℕ) → List (Option ℕ)
pad_objects zero xs = []
pad_objects (suc n) [] = none ∷ pad_objects n []
pad_objects (suc n) (x ∷ xs) = x ∷ pad_objects n xs

-- The part of `omnmmsgFieldPayload_getVectorMsg` that enlarges the array, for n elements
unfoldable pub enlarge_payloads : Allocator → Payloads → ℕ → Ledger → Payloads × Ledger
unfolding pad
enlarge_payloads a no_payloads n l = elim (a.enlarge no_room (8 * n) l) [
  | none ↦ (no_payloads, l)
  | some (x, size, l') ↦ (payloads x size (pad (size / 8) end), l')
]
enlarge_payloads a (payloads x size ms) n l =
    elim (a.enlarge (record { block = some x; size = size }) (8 * n) l) [
      | none ↦ (payloads x size (pad (size / 8) ms), l)
      | some (y, size', l') ↦ (payloads y size' (pad (size' / 8) (pad (size / 8) ms)), l')
    ]

-- The loop of `omnmmsgFieldPayload_getVectorMsg`, over the versions and lengths of the sub-messages
unfoldable pub take_all : Allocator → Slots → List (ℕ × ℕ) → Ledger → Run (Slots × Ledger)
unfolding take
take_all a ms [] l = ret (ms, l)
take_all a end (q ∷ qs) l = fault
take_all a (slot m ms) ((version, len) ∷ qs) l = do
  let (m, l) = take a m version len l
  (ms, l) ← take_all a ms qs l
  ret (slot m ms, l)

unfoldable pub take_elements :
    Allocator → Payloads → List (ℕ × ℕ) → Ledger → Run (Payloads × Ledger)
unfolding take_all
take_elements a no_payloads [] l = ret (no_payloads, l)
take_elements a no_payloads (q ∷ qs) l = fault
take_elements a (payloads x size ms) qs l = do
  (ms, l) ← take_all a ms qs l
  ret (payloads x size ms, l)

-- The same for `omnmmsgFieldPayload_getVectorDateTime` and `omnmmsgFieldPayload_getVectorPrice`
unfoldable pub enlarge_array : Allocator → Array → ℕ → Ledger → Array × Ledger
unfolding pad_objects
enlarge_array a no_array n l = elim (a.enlarge no_room (8 * n) l) [
  | none ↦ (no_array, l)
  | some (x, size, l') ↦ (array x size (pad_objects (size / 8) []), l')
]
enlarge_array a (array x size xs) n l =
    elim (a.enlarge (record { block = some x; size = size }) (8 * n) l) [
      | none ↦ (array x size (pad_objects (size / 8) xs), l)
      | some (y, size', l') ↦
          (array y size' (pad_objects (size' / 8) (pad_objects (size / 8) xs)), l')
    ]

-- The loop that creates the objects that are not there yet
unfoldable pub create_objects : ℕ → List (Option ℕ) → Ledger → Run (List (Option ℕ) × Ledger)
create_objects zero xs l = ret (xs, l)
create_objects (suc n) [] l = fault
create_objects (suc n) (none ∷ xs) l = do
  let (object, l) = acquire l
  (xs, l) ← create_objects n xs l
  ret (some object ∷ xs, l)
create_objects (suc n) (some object ∷ xs) l = do
  (xs, l) ← create_objects n xs l
  ret (some object ∷ xs, l)

unfoldable pub fill_array : Array → ℕ → Ledger → Run (Array × Ledger)
unfolding create_objects
fill_array no_array zero l = ret (no_array, l)
fill_array no_array (suc n) l = fault
fill_array (array x size xs) n l = do (xs, l) ← create_objects n xs l; ret (array x size xs, l)

mutual
  -- Calls on a field structure: what the getters, the printers and the setters of vectors do to what it
  -- owns. The sub-messages that it hands out are messages in turn.
  pub data FieldCall : Type 0 where
    -- the printers and the setters of vectors, which want a number of bytes in `mBuffer`
    uses_buffer : ℕ → FieldCall
    -- `getMsg` of a sub-message of a version and a length, and the getters of vectors of so many elements
    gets_msg : ℕ → ℕ → FieldCall
    gets_vector_string : ℕ → FieldCall
    gets_vector_msg : List (ℕ × ℕ) → FieldCall
    gets_vector_date_time : ℕ → FieldCall
    gets_vector_price : ℕ → FieldCall
    in_sub_payload : MessageCall → FieldCall
    in_element : ℕ → MessageCall → FieldCall

  -- Calls on a message. `omnmmsgPayload_apply` is not one of them: besides the updates that it makes it
  -- leaks what the field structure of its iterator comes to own.
  pub data MessageCall : Type 0 where
    -- `addField` and `updateField`, which want a number of bytes in `mPayloadBuffer`
    adds_bytes : ℕ → MessageCall
    un_serializes : ℕ → ℕ → MessageCall
    -- a call on `mField`
    on_field : FieldCall → MessageCall

-- A call on the sub-message, and on an element of the array, if there is one
abbrev pub at_slot : (Owned → Ledger → Run (Owned × Ledger)) → Slot → Ledger → Run (Slot × Ledger)
at_slot call vacant l = ret (vacant, l)
at_slot call (taken m) l = do (m, l) ← call m l; ret (taken m, l)

unfoldable pub at_element :
    (Owned → Ledger → Run (Owned × Ledger)) → ℕ → Slots → Ledger → Run (Slots × Ledger)
at_element call n end l = ret (end, l)
at_element call zero (slot m ms) l = do (m, l) ← at_slot call m l; ret (slot m ms, l)
at_element call (suc n) (slot m ms) l = do (ms, l) ← at_element call n ms l; ret (slot m ms, l)

unfoldable pub at_payloads :
    (Owned → Ledger → Run (Owned × Ledger)) → ℕ → Payloads → Ledger → Run (Payloads × Ledger)
unfolding at_element
at_payloads call n no_payloads l = ret (no_payloads, l)
at_payloads call n (payloads x size ms) l =
    if ltb n (size / 8)
    then (do (ms, l) ← at_element call n ms l; ret (payloads x size ms, l))
    else ret (payloads x size ms, l)

unfoldable mutual
  pub call_field : Allocator → FieldCall → Holds → Ledger → Run (Holds × Ledger)
  call_field a (uses_buffer wanted) (holds buffer sub strings messages times prices) l =
      let (buffer, l) = use_room a buffer wanted l in
      ret (holds buffer sub strings messages times prices, l)
  call_field a (gets_msg version len) (holds buffer sub strings messages times prices) l =
      let (sub, l) = take a sub version len l in
      ret (holds buffer sub strings messages times prices, l)
  call_field a (gets_vector_string n) (holds buffer sub strings messages times prices) l =
      let (strings, l) = use_room a strings (8 * n) l in
      if ltb strings.size (8 * n)
      then fault
      else ret (holds buffer sub strings messages times prices, l)
  call_field a (gets_vector_msg qs) (holds buffer sub strings messages times prices) l = do
    let (messages, l) = enlarge_payloads a messages (length qs) l
    (messages, l) ← take_elements a messages qs l
    ret (holds buffer sub strings messages times prices, l)
  call_field a (gets_vector_date_time n) (holds buffer sub strings messages times prices) l = do
    let (times, l) = enlarge_array a times n l
    (times, l) ← fill_array times n l
    ret (holds buffer sub strings messages times prices, l)
  call_field a (gets_vector_price n) (holds buffer sub strings messages times prices) l = do
    let (prices, l) = enlarge_array a prices n l
    (prices, l) ← fill_array prices n l
    ret (holds buffer sub strings messages times prices, l)
  call_field a (in_sub_payload call) (holds buffer sub strings messages times prices) l = do
    (sub, l) ← at_slot (λ m l. call_message a call m l) sub l
    ret (holds buffer sub strings messages times prices, l)
  call_field a (in_element n call) (holds buffer sub strings messages times prices) l = do
    (messages, l) ← at_payloads (λ m l. call_message a call m l) n messages l
    ret (holds buffer sub strings messages times prices, l)

  pub call_message : Allocator → MessageCall → Owned → Ledger → Run (Owned × Ledger)
  call_message a (adds_bytes wanted) (payload object buffer field) l =
      let (buffer, l) = use_room a buffer wanted l in ret (payload object buffer field, l)
  call_message a (un_serializes version len) m l = ret (un_serialize a m version len l)
  call_message a (on_field call) (payload object buffer field) l = do
    (field, l) ← call_field a call field l
    ret (payload object buffer field, l)

-- Calls in a row
unfoldable pub call_all_field : Allocator → List FieldCall → Holds → Ledger → Run (Holds × Ledger)
call_all_field a [] f l = ret (f, l)
call_all_field a (c ∷ cs) f l = do (f, l) ← call_field a c f l; call_all_field a cs f l

unfoldable pub call_all_message :
    Allocator → List MessageCall → Owned → Ledger → Run (Owned × Ledger)
call_all_message a [] m l = ret (m, l)
call_all_message a (c ∷ cs) m l = do (m, l) ← call_message a c m l; call_all_message a cs m l

-- What becomes of a ledger from `omnmmsgPayload_create` to `omnmmsgPayload_destroy` of a message, and from
-- `omnmmsgPayloadIter_create` to `omnmmsgPayloadIter_destroy` of an iterator, with calls between them.
unfoldable pub message_life : Allocator → List MessageCall → Ledger → Run Ledger
message_life a calls l = do
  let (m, l) = create l
  (m, l) ← call_all_message a calls m l
  destroy (taken m) l

-- The ledger, and what `mField` of the iterator held
unfoldable pub iter_life : Allocator → List FieldCall → Ledger → Run (Holds × Ledger)
iter_life a calls l = do
  let ((object, field), l) = create_iter l
  (field, l) ← call_all_field a calls field l
  l ← destroy_iter (object, field) l
  ret (field, l)
