-- ===== src/Tests/Bridge.antt =====
-- Witnesses for the operations on whole messages of src/Payload.cpp.
use open_mama_omnm.Prelude.{
  ◌≡◌, ◌↔◌, ◌<◌, refl, [], ◌∷◌, ◌++◌, some, length, take, replicate, arith,
}
use open_mama_omnm.Mama.{ok}
use open_mama_omnm.Memory.{ret, fault}
use open_mama_omnm.Message.{OmnmPayloadImpl, get_header_size, default_payload_size}
use open_mama_omnm.Bridge.{serialize, un_serialize, other, copy, into, itself}
use open_mama_omnm.Bridge.Clear.{clear-Represents}
use open_mama_omnm.Bridge.Serialize.{un_serialize-serialize}
use open_mama_omnm.Bridge.Overread.{IsOverread, un_serialize_overreads}
use open_mama_omnm.Bridge.Copy.{copy_into, copy_itself}
use open_mama_omnm.Wire.{Represents}
use open_mama_omnm.Tests.Model.{example_mama, message, both, message-Represents}

-- A message with a shorter buffer that is to be overwritten.
abbrev dest : OmnmPayloadImpl
dest = record message { payload_buffer = 79 ∷ 1 ∷ 0 ∷ []; payload_buffer_tail = 3 }

un_serialize-serialize_example :
    (dest' : OmnmPayloadImpl) × (un_serialize example_mama
        (some dest)
        (some (other (take message.payload_buffer_tail message.payload_buffer ++ (255 ∷ []))))
        message.payload_buffer_tail
      ≡ ret (ok, some dest'))
    × Represents example_mama dest' both
un_serialize-serialize_example =
    un_serialize-serialize example_mama message dest both message.payload_buffer (255 ∷ []) _
      message.payload_buffer_tail message-Represents (unfold serialize in refl) refl

un_serialize_overreads_example :
    (un_serialize example_mama (some dest) (some (other (79 ∷ 1 ∷ 0 ∷ 7 ∷ []))) 5 ≡ fault)
    ↔ ((0 < 5) × IsOverread 5 (79 ∷ 1 ∷ 0 ∷ 7 ∷ []))
un_serialize_overreads_example =
    un_serialize_overreads example_mama (λ block size. (_, refl)) dest 5 (79 ∷ 1 ∷ 0 ∷ 7 ∷ [])

copy_into_example :
    (dest' : OmnmPayloadImpl) × (copy example_mama (some message) (some (into dest))
      ≡ ret (ok, some dest'))
    × Represents example_mama dest' both
copy_into_example = copy_into example_mama message dest both _ message-Represents refl

copy_itself_example :
    (msg' : OmnmPayloadImpl) × (copy example_mama (some message) (some itself)
      ≡ ret (ok, some msg'))
    × (take (length message.payload_buffer) msg'.payload_buffer
        ≡ replicate (length message.payload_buffer) 0)
    × (msg'.payload_buffer_tail ≡ message.payload_buffer_tail)
copy_itself_example = copy_itself example_mama message both _ message-Represents refl

clear-Represents_example :
    (msg' : OmnmPayloadImpl) × (open_mama_omnm.Message.clear message ≡ ret msg')
    × Represents example_mama msg' []
    × (length msg'.payload_buffer ≡ length message.payload_buffer)
clear-Represents_example = clear-Represents example_mama message (omega arith)
