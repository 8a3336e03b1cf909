-- ===== src/Bridge/Copy.antt =====
-- `omnmmsgPayload_copy` of src/Payload.cpp, into another message and into the message itself.
use mathlib.Core.Path.{subst}
use open_mama_omnm.Prelude.{
  ℕ, ◌≡◌, refl, sym, ap, ◌∙◌, List, [], ◌∷◌, ◌++◌, true, false, some, ltb, leb, le→leb, ◌==◌,
  length, take, drop, replicate, length-append, length-replicate, take-append, take-append-drop,
  arith,
}
use open_mama_omnm.Mama.{Mama, ok}
use open_mama_omnm.Memory.{ret, read8, read_bytes}
use open_mama_omnm.Memory.Laws.{read_bytes-append}
use open_mama_omnm.Message.{OmnmPayloadImpl, sizeof_header, omnm_protocol_version}
use open_mama_omnm.Bridge.{other, un_serialize, serialize, copy, into, itself}
use open_mama_omnm.Bridge.Serialize.{un_serialize-serialize}
use open_mama_omnm.Wire.{Entry, encode_all, Represents}

-- A copy into another message returns ok and leaves that message with the entries of the source,
-- whatever it held, provided the memory is allocated.
pub copy_into :
    (mama : Mama) (src dest : OmnmPayloadImpl) (es : List Entry) (buf : List ℕ)
    → Represents mama src es
    → mama.allocate (replicate (length dest.payload_buffer) 0) src.payload_buffer_tail ≡ some buf
    → (dest' : OmnmPayloadImpl) × (copy mama (some src) (some (into dest)) ≡ ret (ok, some dest'))
      × Represents mama dest' es
unfolding copy serialize
copy_into mama src dest es buf r memory =
    let len = src.payload_buffer_tail in
    let (dest', runs, r') =
      un_serialize-serialize mama src dest es src.payload_buffer (drop len src.payload_buffer) buf
        len r refl memory in
    (
      dest',
      subst (λ b. un_serialize mama (some dest) (some (other b)) len ≡ ret (ok, some dest'))
          (take-append-drop len src.payload_buffer) runs,
      r',
    )

-- A copy of a message to itself returns ok and wipes the message: each of the bytes that its block
-- had is zero, the header included, while its tail stays, provided the memory is allocated.
pub copy_itself :
    (mama : Mama) (msg : OmnmPayloadImpl) (es : List Entry) (buf : List ℕ)
    → Represents mama msg es
    → mama.allocate (replicate (length msg.payload_buffer) 0) msg.payload_buffer_tail ≡ some buf
    → (msg' : OmnmPayloadImpl) × (copy mama (some msg) (some itself) ≡ ret (ok, some msg'))
      × (take (length msg.payload_buffer) msg'.payload_buffer
          ≡ replicate (length msg.payload_buffer) 0)
      × (msg'.payload_buffer_tail ≡ msg.payload_buffer_tail)
unfolding copy un_serialize read8
copy_itself mama msg es buf r memory = (
  record msg {
    payload_buffer = buf;
    payload_buffer_tail = msg.payload_buffer_tail;
    header = record {
      header_type = msg.header.header_type;
      wire_format_version = msg.header.wire_format_version;
      remaining_header_size = msg.header.remaining_header_size;
    };
  },
  rw (nonzero, head_read, readable, memory, inside) refl,
  ap (take (length msg.payload_buffer)) (mama.allocate_grows _ _ _ memory).1
      ∙ take-append (replicate (length msg.payload_buffer) 0) _ (length msg.payload_buffer)
          (sym (length-replicate (length msg.payload_buffer) 0)),
  refl,
)
  where
    kind : ℕ
    kind = r.opening.0

    wire : List ℕ
    wire = r.opening.1 ++ (encode_all mama es ++ r.slack)

    known :
        msg.payload_buffer
        ≡ kind ∷ msg.header.wire_format_version ∷ msg.header.remaining_header_size ∷ wire
    known = r.content ∙ ap (λ h. h ++ (encode_all mama es ++ r.slack)) r.opening.2

    nonzero : (msg.payload_buffer_tail == 0) ≡ false
    nonzero = ground (arith, r.tail_size, r.head_size)

    readable : ltb omnm_protocol_version msg.header.wire_format_version ≡ false
    readable = ground (arith, r.version)

    head_read :
        read_bytes msg.payload_buffer 0 sizeof_header
        ≡ ret (kind ∷ msg.header.wire_format_version ∷ msg.header.remaining_header_size ∷ [])
    head_read =
        ap (λ b. read_bytes b 0 sizeof_header) known
        ∙ read_bytes-append []
            (kind ∷ msg.header.wire_format_version ∷ msg.header.remaining_header_size ∷ []) wire 0
            sizeof_header refl refl

    inside : leb msg.payload_buffer_tail (length msg.payload_buffer) ≡ true
    inside = le→leb _ _ (
        omega (
          arith,
          r.tail_size,
          ap length r.content,
          length-append r.head (encode_all mama es ++ r.slack),
          length-append (encode_all mama es) r.slack,
        ))
