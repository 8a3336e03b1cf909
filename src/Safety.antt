-- ===== src/Safety.antt =====
-- Safety of the calls that change a message, src/Payload.cpp: on a well-formed message each of them ends,
-- without an access outside of a block, and leaves a well-formed message, whatever it returns.
pub mod Fields
pub mod Calls
pub mod Vectors
pub mod Session
pub mod Sequence
use open_mama_omnm.Prelude.{ℕ, ◌≡◌, ◌<◌, ◌^◌, true, Option, some, List, length}
use open_mama_omnm.Mama.{Mama, Status, FieldType}
use open_mama_omnm.Memory.{Run, ret}
use open_mama_omnm.Message.{OmnmPayloadImpl}
use open_mama_omnm.FieldType.{are_field_types_castable}
use open_mama_omnm.Bridge.{Handle}
use open_mama_omnm.Payload.{CString}
use open_mama_omnm.Payload.Find.{Location, locate}
use open_mama_omnm.Wire.{Entry, IsWellFormed}

-- A call on a message that ends, and leaves a well-formed message
abbrev pub Safe : Mama → Run (Status × OmnmPayloadImpl) → Type 0
Safe mama run =
    (status : Status) × (msg : OmnmPayloadImpl) × (run ≡ ret (status, msg)) × IsWellFormed mama msg

-- The same for a call on the handle of a message
abbrev pub SafeCall : Mama → Run (Status × Handle) → Type 0
SafeCall mama run =
    (status : Status) × (msg : OmnmPayloadImpl) × (run ≡ ret (status, some msg))
    × IsWellFormed mama msg

-- An update does not turn a number into one of another type: the entry that it finds has the type of the
-- update, or one that it is refused for.
abbrev pub KeepsNumber : FieldType → CString → ℕ → List Entry → Type 0
KeepsNumber type name fid es =
    (l : Location)
    → locate name fid es ≡ some l
    → are_field_types_castable l.entry.field_type type ≡ true
    → l.entry.field_type ≡ type
