-- ===== src/Messages/RoundTrip.antt =====
-- Messages that src/Payload.cpp puts into a field, and src/Field.cpp gets from it again.
use open_mama_omnm.Prelude.{
  ℕ, ◌+◌, ◌*◌, ◌^◌, ◌≤◌, ◌<◌, ◌≡◌, refl, ap, ◌∙◌, List, [], ◌∷◌, ◌++◌, append_assoc, true, none,
  some, length, take, length-take_le, drop, map, length-append, arith,
}
use open_mama_omnm.Mama.{Mama, ok, is_delimited, vector_msg}
use open_mama_omnm.Memory.{ret, read32, le32}
use open_mama_omnm.Memory.Laws.{read32-le32}
use open_mama_omnm.Message.{OmnmFieldImpl, OmnmPayloadImpl}
use open_mama_omnm.Iterator.{layout}
use open_mama_omnm.Payload.{CString, validate_name_fid, get_field, uint32_max}
use open_mama_omnm.Payload.Upserted.{
  IsRequest, Enough, upsert, KeepsEntryType, update_field-upsert, get_field-Holds,
}
use open_mama_omnm.Bridge.{Handle}
use open_mama_omnm.Blocks.{flatten}
use open_mama_omnm.Structs.RoundTrip.{IsNamed}
use open_mama_omnm.Messages.{
  reported, update_vector_msg_payload, count_messages, read_messages, get_field_vector_msg,
  get_vector_msg,
}
use open_mama_omnm.Messages.Read.{
  AllRepresent, AllOfSize, reports, inside, reports-AllReadable, read_messages-Represents,
}
use open_mama_omnm.Messages.Write.{AllReadable, framed, update_vector_msg-update_field}
use open_mama_omnm.Messages.Count.{count_messages_first}
use open_mama_omnm.Wire.{Entry, Fits, Represents}
use open_mama_omnm.Wire.Laws.{scratch-Represents}

length-reports :
    (mama : Mama) (n : ℕ) (ms : List OmnmPayloadImpl) (ess : List (List Entry))
    → AllRepresent mama ms ess
    → AllOfSize n ms
    → length (flatten (map framed (reports ms))) ≡ length ms * (n + 4)
unfolding flatten reported
length-reports mama n [] ess rs sized = omega arith
length-reports mama n (m ∷ ms) [] rs sized = absurd rs
length-reports mama n (m ∷ ms) (es ∷ ess) rs sized =
    let wide : length (take m.payload_buffer_tail m.payload_buffer) ≡ n =
      length-take_le m.payload_buffer_tail m.payload_buffer (inside mama m es rs.0) ∙ sized.0 in
    let here : length (framed (reported (some m)) ++ flatten (map framed (reports ms)))
        ≡ 4 + n + length ms * (n + 4) =
      omega (
        arith,
        wide,
        length-append (framed (reported (some m))) (flatten (map framed (reports ms))),
        length-reports mama n ms ess rs.1 sized.1,
      ) in
    grind (arith, here)

first_length :
    (n : ℕ) (ms : List OmnmPayloadImpl)
    → 0 < length ms
    → AllOfSize n ms
    → (rest : List ℕ) × (flatten (map framed (reports ms)) ≡ le32 n ++ rest)
unfolding flatten reported
first_length n [] some_ms sized = absurd (omega arith)
first_length n (m ∷ ms) some_ms sized = (
  _,
  ap
      (λ k.
        le32 k
        ++ (take m.payload_buffer_tail m.payload_buffer ++ flatten (map framed (reports ms))))
      sized.0,
)

-- As many as it takes of one size to fill a whole number of them.
same_quotient : (k c w : ℕ) → 0 < w → k * w ≤ c * w → c * w < k * w + w → c ≡ k
same_quotient k c w some_width low high = grind arith

get_vector_msg_lem :
    (mama : Mama) (msg : OmnmPayloadImpl) (name : CString) (fid : ℕ) (f : OmnmFieldImpl)
    (p count k : ℕ) (slots ms : List Handle)
    → validate_name_fid name fid ≡ none
    → get_field mama msg name fid ≡ ret (ok, some f)
    → f.location ≡ some p
    → count_messages f.size msg.payload_buffer p f.size 0 ≡ ret count
    → read_messages f.size mama msg.payload_buffer p f.size 0 slots ok ≡ ret (ok, ms)
    → count ≡ k
    → get_vector_msg mama (some msg) true name fid slots ≡ ret (ok, some (ms, k))
unfolding get_vector_msg get_field_vector_msg
get_vector_msg_lem mama msg name fid f p count k slots ms valid shown placed counted done all =
    rw (get_vector_msg, valid, shown) (rw (get_field_vector_msg, placed, counted, done, all) refl)

data-IsRequest :
    (name : CString) (fid : ℕ) (bytes : List ℕ)
    → IsNamed name fid
    → 0 < length bytes
    → length bytes ≤ uint32_max
    → IsRequest vector_msg name fid bytes
data-IsRequest name fid bytes n some_data few = record {
  entry = record {
    delimited = unfold is_delimited in refl;
    fid_word = n.fid_word;
    name_text = n.name_text;
    fits = unfold Fits in unfold layout in omega (arith, few);
  };
  valid = n.valid;
  some_data = some_data;
  short = few;
}

module _ (mama : Mama) (enough : Enough mama) (msg : OmnmPayloadImpl) (name : CString) (fid n : ℕ)
    (es : List Entry) (ms : List OmnmPayloadImpl) (ess : List (List Entry))
    (slots : List Handle) where
  -- Messages of one size, one at least, that `updateVectorMsgPayload` puts into a message under a
  -- valid name and fid are what the getter then shows: their number, and messages that represent
  -- the same entries, with an array that has room for them, provided that a field that is there
  -- already has the type of a vector of messages, that the message is smaller than 2 GiB and the
  -- vector smaller than 4 GiB, and that memory is allocated whenever it is asked for.
  pub get_vector_msg-update_vector_msg_payload :
      Represents mama msg es
      → AllRepresent mama ms ess
      → AllOfSize n ms
      → IsNamed name fid
      → KeepsEntryType vector_msg name fid es
      → msg.payload_buffer_tail < 2 ^ 31
      → 0 < length ms
      → length ms * (n + 4) ≤ uint32_max
      → length ms ≤ length slots
      → (msg' : OmnmPayloadImpl) × (ms' : List OmnmPayloadImpl) × (update_vector_msg_payload mama
            (some msg)
            name
            fid
            (some (map some ms))
          ≡ ret (ok, some msg'))
        × (get_vector_msg mama (some msg') true name fid slots
            ≡ ret (ok, some (map some ms', length ms)))
        × AllRepresent mama ms' ess
        × Represents mama msg' (upsert vector_msg name fid (flatten (map framed (reports ms))) es)
  unfolding update_vector_msg_payload
  get_vector_msg-update_vector_msg_payload r rs sized named keeps small some_ms few room =
      let bytes = flatten (map framed (reports ms)) in
      let total : length bytes ≡ length ms * (n + 4) = length-reports mama n ms ess rs sized in
      let short : n ≤ uint32_max = grind (arith, few, some_ms) in
      let readable : AllReadable (reports ms) = reports-AllReadable mama n ms ess rs sized short in
      let (extra, updates) =
        update_vector_msg-update_field mama enough msg name fid (reports ms) named.valid readable in
      let m : OmnmPayloadImpl = record msg { scratch = bytes ++ extra } in
      let (msg', same, _, r', holds) =
        update_field-upsert mama enough m vector_msg name fid bytes es
          (scratch-Represents mama msg es (bytes ++ extra) r)
          (data-IsRequest name fid bytes named (grind (arith, total, some_ms))
            (omega (arith, total, few)))
          keeps small in
      let (f, p, xs, shown, _, wide, placed, at, _) =
        get_field-Holds mama msg' vector_msg name fid bytes _ r' named.valid holds in
      let first : read32 msg'.payload_buffer p ≡ ret n =
        let (rest, front) = first_length n ms some_ms sized in
        read32-le32 msg'.payload_buffer p n (rest ++ xs) (omega (arith, short))
          (at ∙ ap (λ b. b ++ xs) front ∙ append_assoc (le32 n) rest xs) in
      let (count, counted, long, tight) =
        count_messages_first msg'.payload_buffer p f.size n first in
      let (ms', done, rs') =
        read_messages-Represents mama enough f.size n msg'.payload_buffer p f.size 0 slots ms ess xs
          rs sized first (ap (λ k. drop k msg'.payload_buffer) (omega arith) ∙ at)
          (omega (arith, wide, total)) (grind (arith, wide, total)) room in
      let all : count ≡ length ms =
        same_quotient (length ms) count (n + 4) (omega arith) (omega (arith, wide, total, long))
          (omega (arith, wide, total, tight)) in
      (
        msg',
        ms',
        updates msg' same,
        get_vector_msg_lem mama msg' name fid f p count (length ms) slots (map some ms') named.valid
            shown placed counted done all,
        rs',
        r',
      )
