-- ===== src/Bridge/Clear.antt =====
-- `clear` and `create` of src/Payload.cpp leave a message without entries.
use open_mama_omnm.Prelude.{
  ℕ, ◌-◌, ◌≤◌, ◌≡◌, refl, List, [], ◌++◌, append-nil, true, some, length, drop, drop-nil, replicate,
  length-drop, length-replicate, arith,
}
use open_mama_omnm.Mama.{Mama, ok}
use open_mama_omnm.Memory.{ret}
use open_mama_omnm.Memory.Laws.{write_extends}
use open_mama_omnm.Message.{
  OmnmPayloadImpl, blank, clear, new_payload, header_bytes, default_header, sizeof_header,
  default_payload_size,
}
use open_mama_omnm.Bridge.{create}
use open_mama_omnm.Wire.{encode_all, Represents}

abbrev cleared : OmnmPayloadImpl → OmnmPayloadImpl
cleared msg = record msg {
  header = default_header;
  payload_buffer =
      header_bytes default_header ++ replicate (length msg.payload_buffer - sizeof_header) 0;
  payload_buffer_tail = sizeof_header;
}

clear_runs :
    (msg : OmnmPayloadImpl)
    → sizeof_header ≤ length msg.payload_buffer
    → clear msg ≡ ret (cleared msg)
unfolding clear
clear_runs msg room =
    rw
      (
        write_extends [] msg.payload_buffer (header_bytes default_header) 0 refl room,
        size,
        write_extends (header_bytes default_header) (drop sizeof_header msg.payload_buffer) zeros
            sizeof_header refl (omega (arith, fits)),
        gone,
        append-nil,
      )
      refl
  where
    zeros : List ℕ
    zeros = replicate (length msg.payload_buffer - sizeof_header) 0

    size :
        length (header_bytes default_header ++ drop sizeof_header msg.payload_buffer)
          - sizeof_header
        ≡ length msg.payload_buffer - sizeof_header
    size = omega (arith, length-drop sizeof_header msg.payload_buffer)

    fits : length zeros ≡ length (drop sizeof_header msg.payload_buffer)
    fits = omega (
      arith,
      length-replicate {A = ℕ} (length msg.payload_buffer - sizeof_header) 0,
      length-drop sizeof_header msg.payload_buffer,
    )

    gone : drop (length zeros) (drop sizeof_header msg.payload_buffer) ≡ []
    gone = drop-nil (length zeros) (drop sizeof_header msg.payload_buffer) (omega (arith, fits))

cleared-Represents : (mama : Mama) (msg : OmnmPayloadImpl) → Represents mama (cleared msg) []
unfolding encode_all
cleared-Represents mama msg = record {
  head = header_bytes default_header;
  slack = replicate (length msg.payload_buffer - sizeof_header) 0;
  opening = (default_header.header_type, [], refl);
  version = omega arith;
  content = refl;
  head_size = refl;
  tail_size = omega arith;
  entries = tt;
}

-- `clear` succeeds on a buffer that holds a header, and leaves a message of the current version
-- without entries in a block of the same size, whatever was in it.
pub clear-Represents :
    (mama : Mama) (msg : OmnmPayloadImpl)
    → sizeof_header ≤ length msg.payload_buffer
    → (msg' : OmnmPayloadImpl) × (clear msg ≡ ret msg')
      × Represents mama msg' []
      × (length msg'.payload_buffer ≡ length msg.payload_buffer)
clear-Represents mama msg room = (
  cleared msg,
  clear_runs msg room,
  cleared-Represents mama msg,
  omega (arith, length-replicate {A = ℕ} (length msg.payload_buffer - sizeof_header) 0),
)

-- `omnmmsgPayload_create` gives a message without entries, in a block of the default size.
pub create-Represents :
    (mama : Mama)
    → (msg : OmnmPayloadImpl) × (create mama true ≡ ret (ok, some msg))
      × Represents mama msg []
      × (length msg.payload_buffer ≡ default_payload_size)
unfolding create new_payload
create-Represents mama = (
  cleared (blank mama),
  rw (clear_runs (blank mama) (omega arith)) refl,
  cleared-Represents mama (blank mama),
  refl,
)
