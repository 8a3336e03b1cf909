-- ===== src/Messages/Read.antt =====
-- The loop of `omnmmsgFieldPayload_getVectorMsg` in src/Field.cpp on messages of one size.
use open_mama_omnm.Prelude.{
  ℕ, zero, suc, ◌+◌, ◌*◌, ◌≤◌, ◌<◌, ◌≡◌, ◌==◌, refl, ap, ◌∙◌, List, [], ◌∷◌, ◌++◌, append_assoc,
  false, none, some, length, take, length-take_le, drop, drop_past, map, length-append, arith,
  lt→leb, le→leb,
}
use mathlib.Core.Path.{subst}
use open_mama_omnm.Mama.{Mama, ok}
use open_mama_omnm.Memory.{ret, read32, le32}
use open_mama_omnm.Message.{OmnmPayloadImpl}
use open_mama_omnm.Payload.{uint32_max}
use open_mama_omnm.Payload.Upserted.{Enough}
use open_mama_omnm.Bridge.{
  Handle, other, serialize, un_serialize, create_from_byte_buffer, set_byte_buffer,
}
use open_mama_omnm.Bridge.Clear.{create-Represents}
use open_mama_omnm.Bridge.Serialize.{un_serialize-serialize}
use open_mama_omnm.Blocks.{flatten}
use open_mama_omnm.Messages.{Reported, reported, take_message, read_messages}
use open_mama_omnm.Messages.Write.{AllReadable, framed}
use open_mama_omnm.Wire.{Entry, Represents, encode_all}

-- Messages that stand for lists of entries, one for each.
abbrev pub AllRepresent : Mama → List OmnmPayloadImpl → List (List Entry) → Type 0
AllRepresent mama [] [] = Unit {0}
AllRepresent mama [] (es ∷ ess) = ⊥
AllRepresent mama (m ∷ ms) [] = ⊥
AllRepresent mama (m ∷ ms) (es ∷ ess) = Represents mama m es × AllRepresent mama ms ess

-- Messages of the same size.
abbrev pub AllOfSize : ℕ → List OmnmPayloadImpl → Type 0
AllOfSize n [] = Unit {0}
AllOfSize n (m ∷ ms) = (m.payload_buffer_tail ≡ n) × AllOfSize n ms

abbrev pub reports : List OmnmPayloadImpl → List Reported
reports ms = map reported (map some ms)

pub inside :
    (mama : Mama) (m : OmnmPayloadImpl) (es : List Entry)
    → Represents mama m es
    → m.payload_buffer_tail ≤ length m.payload_buffer
inside mama m es r = omega (
  arith,
  r.tail_size,
  ap length r.content,
  length-append r.head (encode_all mama es ++ r.slack),
  length-append (encode_all mama es) r.slack,
)

some_bytes :
    (mama : Mama) (m : OmnmPayloadImpl) (es : List Entry)
    → Represents mama m es
    → 0 < m.payload_buffer_tail
some_bytes mama m es r = omega (arith, r.tail_size, r.head_size)

pub reports-AllReadable :
    (mama : Mama) (n : ℕ) (ms : List OmnmPayloadImpl) (ess : List (List Entry))
    → AllRepresent mama ms ess
    → AllOfSize n ms
    → n ≤ uint32_max
    → AllReadable (reports ms)
unfolding reported
reports-AllReadable mama n [] ess rs sized short = tt
reports-AllReadable mama n (m ∷ ms) [] rs sized short = absurd rs
reports-AllReadable mama n (m ∷ ms) (es ∷ ess) rs sized short = (
  record {
    same_size = refl;
    short = omega (arith, sized.0, short);
    inside = inside mama m es rs.0;
  },
  reports-AllReadable mama n ms ess rs.1 sized.1 short,
)

module _ (mama : Mama) (enough : Enough mama) where
  take_message-Represents :
      (slot : Handle) (m : OmnmPayloadImpl) (es : List Entry) (rest : List ℕ)
      → Represents mama m es
      → (m' : OmnmPayloadImpl) × (take_message mama slot
            (take m.payload_buffer_tail m.payload_buffer ++ rest)
            m.payload_buffer_tail
          ≡ ret (ok, some m'))
        × Represents mama m' es
  unfolding take_message create_from_byte_buffer set_byte_buffer
  take_message-Represents slot m es rest r = go slot
    where
      nonzero : (m.payload_buffer_tail == 0) ≡ false
      nonzero = ground (arith, some_bytes mama m es r)

      into :
          (dest : OmnmPayloadImpl)
          → (m' : OmnmPayloadImpl) × (un_serialize mama
                (some dest)
                (some (other (take m.payload_buffer_tail m.payload_buffer ++ rest)))
                m.payload_buffer_tail
              ≡ ret (ok, some m'))
            × Represents mama m' es
      into dest =
          let (buf, memory) = enough _ m.payload_buffer_tail in
          un_serialize-serialize mama m dest es m.payload_buffer rest buf m.payload_buffer_tail r
            (unfold serialize in refl) memory

      go :
          (slot : Handle)
          → (m' : OmnmPayloadImpl) × (take_message mama slot
                (take m.payload_buffer_tail m.payload_buffer ++ rest)
                m.payload_buffer_tail
              ≡ ret (ok, some m'))
            × Represents mama m' es
      go none =
          let (d, created, _, _) = create-Represents mama in
          let (m', run, r') = into d in
          (
            m',
            unfold take_message in
                unfold create_from_byte_buffer in rw (nonzero, created, run) refl,
            r',
          )
      go (some d) =
          let (m', run, r') = into d in
          (m', unfold take_message in unfold set_byte_buffer in rw (nonzero, run) refl, r')

  pub read_messages-Represents :
      (fuel n : ℕ) (buf : List ℕ) (p size i : ℕ) (slots : List Handle) (ms : List OmnmPayloadImpl)
      (ess : List (List Entry)) (xs : List ℕ)
      → AllRepresent mama ms ess
      → AllOfSize n ms
      → read32 buf p ≡ ret n
      → drop (p + i) buf ≡ flatten (map framed (reports ms)) ++ xs
      → size ≡ i + length ms * (n + 4)
      → length ms ≤ fuel
      → length ms ≤ length slots
      → (ms' : List OmnmPayloadImpl) × (read_messages fuel mama buf p size i slots ok
          ≡ ret (ok, map some ms'))
        × AllRepresent mama ms' ess
  unfolding read_messages flatten reported
  read_messages-Represents zero n buf p size i slots [] [] xs rs sized first at whole enough_fuel
        room =
      ([], rw (read_messages, le→leb size i (omega arith)) refl, tt)
  read_messages-Represents (suc fuel) n buf p size i slots [] [] xs rs sized first at whole
        enough_fuel room =
      ([], rw (read_messages, le→leb size i (omega arith)) refl, tt)
  read_messages-Represents fuel n buf p size i slots [] (es ∷ ess) xs rs sized first at whole
        enough_fuel room =
      absurd rs
  read_messages-Represents fuel n buf p size i slots (m ∷ ms) [] xs rs sized first at whole
        enough_fuel room =
      absurd rs
  read_messages-Represents zero n buf p size i slots (m ∷ ms) (es ∷ ess) xs rs sized first at whole
        enough_fuel room =
      absurd (omega arith)
  read_messages-Represents (suc fuel) n buf p size i [] (m ∷ ms) (es ∷ ess) xs rs sized first at
        whole enough_fuel room =
      absurd (omega arith)
  read_messages-Represents (suc fuel) n buf p size i (slot ∷ slots) (m ∷ ms) (es ∷ ess) xs rs sized
        first at whole enough_fuel room =
      let content = take m.payload_buffer_tail m.payload_buffer in
      let rest = flatten (map framed (reports ms)) ++ xs in
      let here : drop (p + i) buf ≡ le32 m.payload_buffer_tail ++ (content ++ rest) =
        at
        ∙ append_assoc (le32 m.payload_buffer_tail ++ content) (flatten (map framed (reports ms)))
            xs in
      let block : drop (p + i + 4) buf ≡ content ++ rest =
        drop_past (p + i) (p + i + 4) buf (le32 m.payload_buffer_tail) _ here refl in
      let wide : length content ≡ m.payload_buffer_tail =
        length-take_le m.payload_buffer_tail m.payload_buffer (inside mama m es rs.0) in
      let next : drop (p + (i + n + 4)) buf ≡ rest =
        drop_past (p + i + 4) (p + (i + n + 4)) buf content rest block
          (omega (arith, wide, sized.0)) in
      let (m', taken, r') = take_message-Represents slot m es rest rs.0 in
      let taken' : take_message mama slot (content ++ rest) n ≡ ret (ok, some m') =
        subst (λ k. take_message mama slot (content ++ rest) k ≡ ret (ok, some m')) sized.0 taken in
      let left : size ≡ i + n + 4 + length ms * (n + 4) = grind (arith, whole) in
      let (ms', done, rs') =
        read_messages-Represents fuel n buf p size (i + n + 4) slots ms ess xs rs.1 sized.1 first
          next left (omega arith) (omega arith) in
      (
        m' ∷ ms',
        rw (read_messages, lt→leb size i (omega (arith, left)), first, block, taken', done) refl,
        (r', rs'),
      )
