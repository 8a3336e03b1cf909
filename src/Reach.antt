-- ===== src/Reach.antt =====
-- The states of a message under `clear`, `addField` and `updateField` of src/Payload.cpp, called in any
-- order from `omnmmsgPayload_create` on, whatever they return.
use open_mama_omnm.Prelude.{ℕ, ◌^◌, ◌≤◌, ◌<◌, ◌≡◌, sym, ap, ◌∙◌, List, [], true, some, length}
use mathlib.Core.Path.{subst}
use open_mama_omnm.Mama.{Mama, FieldType, Status, ok}
use open_mama_omnm.Memory.{Run, ret}
use open_mama_omnm.FieldType.{are_field_types_castable}
use open_mama_omnm.Message.{OmnmFieldImpl, OmnmPayloadImpl, clear, get_header_size}
use open_mama_omnm.Bridge.{Handle, create}
use open_mama_omnm.Bridge.Clear.{clear-Represents, create-Represents}
use open_mama_omnm.Payload.{CString, find_field_in_buffer, add_field, update_field, uint32_max}
use open_mama_omnm.Payload.Find.{located_view, find_field_in_buffer-locate}
use open_mama_omnm.Payload.Put.{entry_of}
use open_mama_omnm.Payload.Upserted.{Enough}
use open_mama_omnm.Safety.{Safe, KeepsNumber}
use open_mama_omnm.Safety.Fields.{add_field-Safe, update_field-Safe}
use open_mama_omnm.Wire.{Entry, IsEntry, Represents, IsWellFormed}
use open_mama_omnm.Wire.Laws.{header_room}

-- A call of `updateField` does not turn a number into one of another type.
abbrev pub KeepsType : Mama → OmnmPayloadImpl → FieldType → CString → ℕ → Type 0
KeepsType mama msg type name fid =
    (f : OmnmFieldImpl)
    → find_field_in_buffer mama msg name fid ≡ ret (some f)
    → are_field_types_castable f.field_type type ≡ true
    → f.field_type ≡ type

-- The data of a call is of a type that messages hold, fits it and has a size that 32 bits hold; the name
-- is a C string and the fid has 16 bits. Neither needs to be valid, and the data may be empty.
pub data Step (mama : Mama) (msg : OmnmPayloadImpl) : OmnmPayloadImpl → Type 0 where
  clears : {msg' : OmnmPayloadImpl} → clear msg ≡ ret msg' → Step mama msg msg'
  adds :
      {msg' : OmnmPayloadImpl} (status : Status) (type : FieldType) (name : CString) (fid : ℕ)
      (bytes : List ℕ)
      → IsEntry (entry_of type name fid bytes)
      → length bytes ≤ uint32_max
      → add_field mama msg type name fid (some bytes) (length bytes) ≡ ret (status, msg')
      → Step mama msg msg'
  updates :
      {msg' : OmnmPayloadImpl} (status : Status) (type : FieldType) (name : CString) (fid : ℕ)
      (bytes : List ℕ)
      → IsEntry (entry_of type name fid bytes)
      → length bytes ≤ uint32_max
      → KeepsType mama msg type name fid
      → msg.payload_buffer_tail < 2 ^ 31
      → update_field mama msg type name fid (some bytes) (length bytes) ≡ ret (status, msg')
      → Step mama msg msg'

pub data Reach (mama : Mama) : OmnmPayloadImpl → Type 0 where
  created : {msg : OmnmPayloadImpl} → create mama true ≡ ret (ok, some msg) → Reach mama msg
  later : {msg msg' : OmnmPayloadImpl} → Reach mama msg → Step mama msg msg' → Reach mama msg'

same_message :
    (s t : Status) (a b : OmnmPayloadImpl)
    → ◌≡◌ {A = Run (Status × OmnmPayloadImpl)} (ret (s, a)) (ret (t, b))
    → a ≡ b
same_message s t a b h = cc

same_cleared : (a b : OmnmPayloadImpl) → ◌≡◌ {A = Run OmnmPayloadImpl} (ret a) (ret b) → a ≡ b
same_cleared a b h = cc

same_created :
    (a b : OmnmPayloadImpl)
    → ◌≡◌ {A = Run (Status × Handle)} (ret (ok, some a)) (ret (ok, some b))
    → a ≡ b
same_created a b h = cc

module _ (mama : Mama) (enough : Enough mama) where
  ended :
      (run : Run (Status × OmnmPayloadImpl)) (status : Status) (msg : OmnmPayloadImpl)
      → Safe mama run
      → run ≡ ret (status, msg)
      → IsWellFormed mama msg
  ended run status msg (status', m, done, well) same =
      subst (IsWellFormed mama) (same_message status' status m msg (sym done ∙ same)) well

  keeps_number :
      (msg : OmnmPayloadImpl) (es : List Entry) (type : FieldType) (name : CString) (fid : ℕ)
      → Represents mama msg es
      → KeepsType mama msg type name fid
      → KeepsNumber type name fid es
  keeps_number msg es type name fid r keeps l found = keeps _ (
      find_field_in_buffer-locate mama msg name fid es r
      ∙ ap (λ k. ret (located_view mama (get_header_size msg) k)) found)

  Step-IsWellFormed :
      {msg msg' : OmnmPayloadImpl}
      → Step mama msg msg'
      → IsWellFormed mama msg
      → IsWellFormed mama msg'
  Step-IsWellFormed {msg} {msg'} (clears same) (es, r) =
      let (m, done, r', _) = clear-Represents mama msg (header_room mama msg es r) in
      subst (IsWellFormed mama) (same_cleared m msg' (sym done ∙ same)) ([], r')
  Step-IsWellFormed {msg} {msg'} (adds status type name fid bytes fitting short same) (es, r) =
      ended _ status msg' (add_field-Safe mama enough msg type name fid bytes es r fitting short)
        same
  Step-IsWellFormed {msg} {msg'} (updates status type name fid bytes fitting short keeps small same)
        (es, r) =
      ended _ status msg'
        (update_field-Safe mama enough msg type name fid bytes es r fitting short
          (keeps_number msg es type name fid r keeps) small)
        same

  -- Every message that a new one becomes by calls of `clear`, `addField` and `updateField`, in any
  -- order and whatever status they return, represents some entries, provided that memory is
  -- allocated whenever it is asked for, that the type of each call is one that messages hold, that
  -- its data fits the type and has a size that 32 bits hold, that its name is a C string and its
  -- fid has 16 bits, valid or not, that no update turns a number into one of another type, and that
  -- the message is smaller than 2 GiB when it is updated.
  pub Reach-IsWellFormed : {msg : OmnmPayloadImpl} → Reach mama msg → IsWellFormed mama msg
  Reach-IsWellFormed {msg} (created same) =
      let (m, done, r, _) = create-Represents mama in
      subst (IsWellFormed mama) (same_created m msg (sym done ∙ same)) ([], r)
  Reach-IsWellFormed (later reached step) = Step-IsWellFormed step (Reach-IsWellFormed reached)
