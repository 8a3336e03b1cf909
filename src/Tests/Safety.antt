-- ===== src/Tests/Safety.antt =====
-- A witness for the safety of any sequence of calls of src/Payload.cpp.
use open_mama_omnm.Prelude.{
  ℕ, ◌-◌, ◌≡◌, ◌<◌, refl, ap, inl, List, [], ◌∷◌, ◌++◌, none, some, arith, length, replicate,
  length-append,
}
use open_mama_omnm.Mama.{i64, ok}
use open_mama_omnm.Message
use open_mama_omnm.Bridge.{clear}
use open_mama_omnm.Iterator.{layout}
use open_mama_omnm.Payload.Find.{locate}
use open_mama_omnm.Wire.{Entry, Represents, IsWellFormed, encode, encode_all, count_prefix}
use open_mama_omnm.Wire.Laws.{length-encode}
use open_mama_omnm.Memory.{ret, write}
use open_mama_omnm.Message.{OmnmPayloadImpl, default_header, header_bytes, get_header_size}
use open_mama_omnm.Scalar.{is_scalar, sizeof}
use open_mama_omnm.Safety.Calls.{IsName}
use open_mama_omnm.Safety.Session.{
  Call, sets, clears, copies, merges, adds_scalar, adds_string, adds_vector_string, perform_all,
  AllProper,
}
use open_mama_omnm.Safety.Sequence.{perform_all-IsWellFormed}
use open_mama_omnm.Tests.Model.{
  example_mama, message, both, message-Represents, seven, keep, number, number-IsEntry,
}
use open_mama_omnm.Tests.Objects.{objects, objects-IsFaithful}
use open_mama_omnm.Tests.Entries.{message_of, message_of-Represents, number-IsPlain}
use open_mama_omnm.Apply.Merge.{IsMergeable}
use open_mama_omnm.Apply.Step.{put_entry}
use open_mama_omnm.Tests.Reach.{enough}

abbrev calls : List (Call objects)
calls =
    clears
    ∷ merges (message_of (number ∷ []))
    ∷ copies message
    ∷ sets none 3 (adds_scalar i64 seven)
    ∷ sets none 0 (adds_string (104 ∷ []))
    ∷ sets none 4 (adds_vector_string ((104 ∷ []) ∷ []))
    ∷ []

nameless : (fid : ℕ) → fid < 65536 → IsName none fid
nameless fid h = record { name_text = tt; fid_word = h }

abbrev emptied : OmnmPayloadImpl
emptied = record message {
  header = default_header;
  payload_buffer = header_bytes default_header ++ replicate (length message.payload_buffer - 3) 0;
  payload_buffer_tail = 3;
}

clear_empties : clear (some message) ≡ ret (ok, some emptied)
unfolding clear Message.clear write encode_all encode count_prefix layout
clear_empties = refl

no_entries :
    (m : OmnmPayloadImpl) (es : List Entry) → m ≡ emptied → Represents example_mama m es → es ≡ []
unfolding encode_all
no_entries m [] same r = refl
no_entries m (e ∷ es) same r = absurd (
    omega (
      arith,
      ap (λ k. k.payload_buffer_tail) same,
      ap get_header_size same,
      r.tail_size,
      r.head_size,
      length-append (encode example_mama e) (encode_all example_mama es),
      length-encode example_mama e,
    ))

number-IsMergeable :
    (m : OmnmPayloadImpl) (es : List Entry)
    → m ≡ emptied
    → Represents example_mama m es
    → IsMergeable example_mama (get_header_size m) none (number ∷ []) es
unfolding IsMergeable locate encode_all put_entry
number-IsMergeable m es same r =
    rw (no_entries m es same r) (λ put. (tt, omega (arith, ap get_header_size same)), tt)

calls-AllProper : AllProper example_mama keep objects calls message
unfolding is_scalar sizeof
calls-AllProper = (
  λ es r. tt,
  λ status m done. (
    λ es r.
        let same : m ≡ emptied = let known = clear_empties in cc in
        (
          number ∷ [],
          message_of-Represents (number ∷ []) (number-IsEntry, tt),
          (inl number-IsPlain, tt),
          number-IsMergeable m es same r,
        ),
    λ status m done. (
      λ es r. (both, message-Represents),
      λ status m done. (
        λ es r. (nameless 3 (omega arith), (refl, refl)),
        λ status m done. (
          λ es r. (nameless 0 (omega arith), ((omega arith, tt), omega arith)),
          λ status m done. (λ es r. (nameless 4 (omega arith), tt), λ status m done. tt),
        ),
      ),
    ),
  ),
)

perform_all-IsWellFormed_example :
    (m' : OmnmPayloadImpl) × (perform_all example_mama keep objects calls message ≡ ret m')
    × IsWellFormed example_mama m'
perform_all-IsWellFormed_example =
    perform_all-IsWellFormed example_mama enough keep objects objects-IsFaithful calls message
      (both, message-Represents) calls-AllProper
