-- ===== src/Ownership.antt =====
-- What the structures of src/Payload.h own, and its release: the constructor and the destructor of
-- `OmnmPayloadImpl` and `omnmmsgPayload_destroy` (src/Payload.cpp), `omnmmsgFieldPayload_create`,
-- `omnmmsgFieldPayload_destroy` and `omnmmsgFieldPayloadImpl_cleanup` (src/Field.cpp), and
-- `omnmmsgPayloadIter_create` and `omnmmsgPayloadIter_destroy` (src/Iterator.cpp).
pub mod Use
pub mod Release
pub mod Balance
pub mod Elements
pub mod Fill
pub mod Lifecycle
use open_mama_omnm.Prelude.{
  ℕ, zero, suc, ◌+◌, ◌*◌, ◌/◌, ◌≤◌, ◌≡◌, List, [], ◌∷◌, Option, none, some, ◌==◌, if◌then◌else◌,
}
use mathlib.Core.Option
use open_mama_omnm.Memory.{Run, ret, fault, ◌>>=◌}
use open_mama_omnm.Message.{default_payload_size}

-- Heap blocks and objects of libmama, each by a number: those that live, and the next new one.
pub record Ledger : Type 0 where
  pub live : List ℕ
  pub next : ℕ

-- `calloc`, `new`, and the `create` functions of libmama
abbrev pub acquire : Ledger → ℕ × Ledger
acquire l = (l.next, record { live = l.next ∷ l.live; next = suc l.next })

unfoldable pub remove : ℕ → List ℕ → Option (List ℕ)
remove b [] = none
remove b (x ∷ xs) =
    let rest = remove b xs in if b == x then some xs else Option.map (λ ys. x ∷ ys) rest

-- `free`, `delete`, and the `destroy` functions of libmama. What does not live is not released.
unfoldable pub free : ℕ → Ledger → Run Ledger
unfolding remove
free b l = elim (remove b l.live) [ none ↦ fault | some live ↦ ret (record l { live = live }) ]

-- `if (NULL != p) free (p)`
abbrev pub free_if : Option ℕ → Ledger → Run Ledger
free_if none l = ret l
free_if (some b) l = free b l

-- 1 if the two are one, 0 if not
unfoldable pub held : ℕ → ℕ → ℕ
held b x = if b == x then 1 else 0

abbrev pub count : ℕ → List ℕ → ℕ
count b [] = 0
count b (x ∷ xs) = held b x + count b xs

abbrev pub held_if : ℕ → Option ℕ → ℕ
held_if b none = 0
held_if b (some x) = held b x

-- A pointer to a block, and the size that is kept beside it.
pub record Room : Type 0 where
  pub block : Option ℕ
  pub size : ℕ

abbrev pub no_room : Room
no_room = record { block = none; size = 0 }

-- `mVectorDateTime` or `mVectorPrice`: a block of a size, with the objects that its first pointers
-- point to; those behind them are NULL.
pub data Array : Type 0 where
  no_array : Array
  array : ℕ → ℕ → List (Option ℕ) → Array

mutual
  -- `OmnmPayloadImpl`: the object itself, `mPayloadBuffer` and `mField`
  pub data Owned : Type 0 where
    payload : ℕ → Room → Holds → Owned

  -- `omnmFieldImpl`: `mBuffer`, `mSubPayload`, `mVectorString`, `mVectorPayload`, `mVectorDateTime`
  -- and `mVectorPrice`
  pub data Holds : Type 0 where
    holds : Room → Slot → Room → Payloads → Array → Array → Holds

  -- a `msgPayload`, which may be NULL
  pub data Slot : Type 0 where
    vacant : Slot
    taken : Owned → Slot

  pub data Slots : Type 0 where
    end : Slots
    slot : Slot → Slots → Slots

  -- `mVectorPayload`: a block of a size, with its first elements; those behind them are NULL.
  pub data Payloads : Type 0 where
    no_payloads : Payloads
    payloads : ℕ → ℕ → Slots → Payloads

-- A field structure that is set to zeros.
abbrev pub nothing : Holds
nothing = holds no_room vacant no_room no_payloads no_array no_array

-- The constructor and `omnmmsgPayload_create`
unfoldable pub create : Ledger → Owned × Ledger
create l =
    let (object, l) = acquire l in
    let (buffer, l) = acquire l in
    (payload object (record { block = some buffer; size = default_payload_size }) nothing, l)

-- The first elements of an array: libmama's `destroy` does nothing to NULL.
unfoldable pub free_all : ℕ → List (Option ℕ) → Ledger → Run Ledger
free_all zero xs l = ret l
free_all (suc n) [] l = ret l
free_all (suc n) (x ∷ xs) l = do l ← free_if x l; free_all n xs l

-- The parts of `omnmmsgFieldPayloadImpl_cleanup` for `mVectorDateTime` and `mVectorPrice`, whose pointers
-- are of eight bytes
unfoldable pub free_array : Array → Ledger → Run Ledger
unfolding free_all
free_array no_array l = ret l
free_array (array b size objects) l = do l ← free_all (size / 8) objects l; free b l

unfoldable mutual
  unfolding free_array

  -- `omnmmsgPayload_destroy`, which does nothing to NULL
  pub destroy : Slot → Ledger → Run Ledger
  destroy vacant l = ret l
  destroy (taken m) l = delete m l

  -- The destructor, and the release of the object
  pub delete : Owned → Ledger → Run Ledger
  delete (payload object buffer field) l = do
    l ← free_if buffer.block l
    l ← cleanup field l
    free object l

  -- `omnmmsgFieldPayloadImpl_cleanup`; each pointer is NULL afterwards.
  pub cleanup : Holds → Ledger → Run Ledger
  cleanup (holds buffer sub strings messages date_times prices) l = do
    l ← free_if buffer.block l
    l ← destroy sub l
    l ← free_if strings.block l
    l ← destroy_payloads messages l
    l ← free_array date_times l
    free_array prices l

  -- its part for `mVectorPayload`
  pub destroy_payloads : Payloads → Ledger → Run Ledger
  destroy_payloads no_payloads l = ret l
  destroy_payloads (payloads b size elements) l = do l ← destroy_all (size / 8) elements l; free b l

  pub destroy_all : ℕ → Slots → Ledger → Run Ledger
  destroy_all zero ms l = ret l
  destroy_all (suc n) end l = ret l
  destroy_all (suc n) (slot m rest) l = do l ← destroy m l; destroy_all n rest l

-- `omnmmsgFieldPayload_create`: the structure, and what it holds
unfoldable pub create_field : Ledger → (ℕ × Holds) × Ledger
create_field l = let (object, l) = acquire l in ((object, nothing), l)

-- `omnmmsgFieldPayload_destroy`
unfoldable pub destroy_field : ℕ × Holds → Ledger → Run Ledger
destroy_field (object, field) l = do l ← cleanup field l; free object l

-- `omnmmsgPayloadIter_create`: the iterator, and what its `mField` holds
unfoldable pub create_iter : Ledger → (ℕ × Holds) × Ledger
create_iter l = let (object, l) = acquire l in ((object, nothing), l)

-- `omnmmsgPayloadIter_destroy`
unfoldable pub destroy_iter : ℕ × Holds → Ledger → Run Ledger
destroy_iter (object, field) l = free object l

-- How often a resource is owned, by the first elements of an array and by the whole.
unfoldable pub claims_all : ℕ → ℕ → List (Option ℕ) → ℕ
claims_all zero b xs = 0
claims_all (suc n) b [] = 0
claims_all (suc n) b (x ∷ xs) = held_if b x + claims_all n b xs

unfoldable pub claims_array : ℕ → Array → ℕ
claims_array b no_array = 0
claims_array b (array block size objects) = held b block + claims_all (size / 8) b objects

unfoldable mutual
  pub claims_slot : ℕ → Slot → ℕ
  claims_slot b vacant = 0
  claims_slot b (taken m) = claims b m

  pub claims : ℕ → Owned → ℕ
  claims b (payload object buffer field) =
      held b object + held_if b buffer.block + claims_field b field

  pub claims_field : ℕ → Holds → ℕ
  claims_field b (holds buffer sub strings messages date_times prices) =
      held_if b buffer.block
      + claims_slot b sub
      + held_if b strings.block
      + claims_payloads b messages
      + claims_array b date_times
      + claims_array b prices

  pub claims_payloads : ℕ → Payloads → ℕ
  claims_payloads b no_payloads = 0
  claims_payloads b (payloads block size elements) =
      held b block + claims_slots (size / 8) b elements

  pub claims_slots : ℕ → ℕ → Slots → ℕ
  claims_slots zero b ms = 0
  claims_slots (suc n) b end = 0
  claims_slots (suc n) b (slot m rest) = claims_slot b m + claims_slots n b rest
