-- ===== src/Bridge/Serialize.antt =====
-- `omnmmsgPayload_unSerialize` of src/Payload.cpp reads what `omnmmsgPayload_serialize` gives out.
use open_mama_omnm.Prelude.{
  ℕ, ◌≤◌, ◌<◌, ◌≡◌, refl, sym, ap, ◌∙◌, List, [], ◌∷◌, ◌++◌, append_assoc, true, false, some, ltb,
  ◌==◌, length, take, drop, replicate, length-append, take-append, arith,
}
use open_mama_omnm.Mama.{Mama, ok, wrong_field_type}
use open_mama_omnm.Memory.{ret, read8}
use open_mama_omnm.Memory.Laws.{read_bytes-append, write_extends}
use open_mama_omnm.Message.{OmnmPayloadImpl, sizeof_header, omnm_protocol_version}
use open_mama_omnm.Bridge.{other, un_serialize, serialize}
use open_mama_omnm.Wire.{Entry, encode_all, Represents}

-- The header of a block, and the message that takes the block over.
abbrev pub taken : OmnmPayloadImpl → List ℕ → ℕ → ℕ → ℕ → OmnmPayloadImpl
taken dest filled len version remaining = record dest {
  payload_buffer = filled;
  payload_buffer_tail = len;
  header = record {
    header_type = dest.header.header_type;
    wire_format_version = version;
    remaining_header_size = remaining;
  };
}

module _ (mama : Mama) (dest : OmnmPayloadImpl) (kind version remaining : ℕ)
    (wire rest buf : List ℕ) where
  abbrev message_bytes : List ℕ
  message_bytes = kind ∷ version ∷ remaining ∷ wire

  un_serialize_runs :
      version ≤ omnm_protocol_version
      → mama.allocate (replicate (length dest.payload_buffer) 0) (length message_bytes) ≡ some buf
      → length message_bytes ≤ length buf
      → un_serialize mama (some dest) (some (other (message_bytes ++ rest))) (length message_bytes)
        ≡ ret (
          ok,
          some (
              taken dest
                (message_bytes ++ drop (length message_bytes) buf)
                (length message_bytes)
                version
                remaining),
        )
  unfolding un_serialize read8
  un_serialize_runs supported memory room =
      let readable : ltb omnm_protocol_version version ≡ false = ground arith in
      let some_bytes : (length message_bytes == 0) ≡ false = ground arith in
      rw
        (
          some_bytes,
          read_bytes-append [] (kind ∷ version ∷ remaining ∷ []) (wire ++ rest) 0 sizeof_header refl
              refl,
          readable,
          memory,
          read_bytes-append [] message_bytes rest 0 (length message_bytes) refl refl,
          write_extends [] buf message_bytes 0 refl room,
        )
        refl

  -- The message that a block is read into holds the block.
  pub un_serialize_holds :
      version ≤ omnm_protocol_version
      → mama.allocate (replicate (length dest.payload_buffer) 0) (length message_bytes) ≡ some buf
      → (dest' : OmnmPayloadImpl) × (extra : List ℕ) × (un_serialize mama
            (some dest)
            (some (other (message_bytes ++ rest)))
            (length message_bytes)
          ≡ ret (ok, some dest'))
        × (dest'.payload_buffer ≡ message_bytes ++ extra)
        × (dest'.payload_buffer_tail ≡ length message_bytes)
  un_serialize_holds supported memory = (
    taken dest (message_bytes ++ drop (length message_bytes) buf) (length message_bytes) version
        remaining,
    drop (length message_bytes) buf,
    un_serialize_runs supported memory (mama.allocate_grows _ _ _ memory).2,
    refl,
    refl,
  )

-- A message, serialized to its first `len` bytes and read back into any message, from a block that
-- begins with these bytes, holds the same entries, provided the memory is allocated.
pub un_serialize-serialize :
    (mama : Mama) (src dest : OmnmPayloadImpl) (es : List Entry) (block rest buf : List ℕ) (len : ℕ)
    → Represents mama src es
    → serialize (some src) true ≡ (ok, some (block, len))
    → mama.allocate (replicate (length dest.payload_buffer) 0) len ≡ some buf
    → (dest' : OmnmPayloadImpl) × (un_serialize mama
          (some dest)
          (some (other (take len block ++ rest)))
          len
        ≡ ret (ok, some dest'))
      × Represents mama dest' es
unfolding serialize
un_serialize-serialize mama src dest es block rest buf len r sent memory = (
  taken dest filled len src.header.wire_format_version src.header.remaining_header_size,
  run,
  record {
    head = head;
    slack = drop len buf;
    opening = (kind, extension, refl);
    version = r.version;
    content = append_assoc head (encode_all mama es) (drop len buf);
    head_size = omega (arith, r.head_size, ap length r.opening.2);
    tail_size = omega (arith, whole_len, length-append head (encode_all mama es));
    entries = r.entries;
  },
)
  where
    kind : ℕ
    kind = r.opening.0

    extension : List ℕ
    extension = r.opening.1

    head : List ℕ
    head = kind ∷ src.header.wire_format_version ∷ src.header.remaining_header_size ∷ extension

    bytes : List ℕ
    bytes = head ++ encode_all mama es

    filled : List ℕ
    filled = bytes ++ drop len buf

    same_block : src.payload_buffer ≡ block
    same_block = cc

    same_len : src.payload_buffer_tail ≡ len
    same_len = cc

    block_known : block ≡ bytes ++ r.slack
    block_known =
        sym same_block
        ∙ r.content
        ∙ ap (λ h. h ++ (encode_all mama es ++ r.slack)) r.opening.2
        ∙ sym (append_assoc head (encode_all mama es) r.slack)

    whole_len : len ≡ length bytes
    whole_len = omega (
      arith,
      same_len,
      r.tail_size,
      ap length r.opening.2,
      length-append head (encode_all mama es),
    )

    front : take len block ≡ bytes
    front = ap (take len) block_known ∙ take-append bytes r.slack len whole_len

    memory' : mama.allocate (replicate (length dest.payload_buffer) 0) (length bytes) ≡ some buf
    memory' = rw (← whole_len) memory

    room : length bytes ≤ length buf
    room = (mama.allocate_grows _ _ _ memory').2

    run :
        un_serialize mama (some dest) (some (other (take len block ++ rest))) len
        ≡ ret (
          ok,
          some (
              taken dest filled len src.header.wire_format_version
                src.header.remaining_header_size),
        )
    run =
        rw (front, whole_len)
          (un_serialize_runs mama dest kind src.header.wire_format_version
            src.header.remaining_header_size (extension ++ encode_all mama es) rest buf r.version
            memory' room)

-- A message of a later wire format is refused, and the message that should take it stays as it is.
pub un_serialize_version :
    (mama : Mama) (dest : OmnmPayloadImpl) (kind version remaining : ℕ) (wire : List ℕ) (len : ℕ)
    → 0 < len
    → omnm_protocol_version < version
    → un_serialize mama (some dest) (some (other (kind ∷ version ∷ remaining ∷ wire))) len
      ≡ ret (wrong_field_type, some dest)
unfolding un_serialize read8
un_serialize_version mama dest kind version remaining wire len some_bytes later =
    let nonzero : (len == 0) ≡ false = ground arith in
    let unreadable : ltb omnm_protocol_version version ≡ true = ground arith in
    rw
      (
        nonzero,
        read_bytes-append [] (kind ∷ version ∷ remaining ∷ []) wire 0 sizeof_header refl refl,
        unreadable,
      )
      refl
