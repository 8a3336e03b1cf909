-- ===== src/Safety/Session.antt =====
-- The setters of src/Payload.cpp with `omnmmsgPayload_clear`, `omnmmsgPayload_copy` and
-- `omnmmsgPayload_apply`, called on one
-- message in any order.
use open_mama_omnm.Prelude.{
  ℕ, ◌*◌, ◌≤◌, ◌<◌, ◌^◌, ◌≡◌, List, [], ◌∷◌, none, some, true, length, map,
}
use open_mama_omnm.Mama.{Mama, FieldType, Status, ok}
use open_mama_omnm.Memory.{Run, ret, fault, ◌>>=◌}
use open_mama_omnm.Memory.Laws.{IsText}
use open_mama_omnm.Message.{OmnmPayloadImpl, get_header_size}
use open_mama_omnm.Objects.{Objects}
use open_mama_omnm.Payload.{CString, validate_name_fid, uint32_max}
use open_mama_omnm.Bridge.{Handle, clear, copy, into}
use open_mama_omnm.Apply.{apply}
use open_mama_omnm.Apply.Step.{AllHandled}
use open_mama_omnm.Apply.Merge.{IsMergeable}
use open_mama_omnm.Scalar.{Conversion, is_scalar, sizeof, add_scalar, update_scalar}
use open_mama_omnm.Vector.{element_size, add_scalar_vector, update_scalar_vector}
use open_mama_omnm.Vector.RoundTrip.{is_scalar_vector}
use open_mama_omnm.Blob.{add_string, update_string, add_opaque, update_opaque, add_msg, update_msg}
use open_mama_omnm.Blocks.{flatten}
use open_mama_omnm.Messages.{Reported, update_vector_msg}
use open_mama_omnm.Messages.Write.{AllReadable, framed}
use open_mama_omnm.Strings.{bytes_required, add_vector_string, update_vector_string}
use open_mama_omnm.DateTime.{date_times, update_date_time, update_vector_time}
use open_mama_omnm.Price.{prices, update_price, update_vector_price}
use open_mama_omnm.Wire.{Entry, Represents, IsWellFormed}
use open_mama_omnm.Safety.{KeepsNumber}
use open_mama_omnm.Safety.Calls.{IsName}

-- What a caller does to a field: the type of the setter and its arguments behind name and fid
pub data Setting (o : Objects) : Type 0 where
  adds_scalar updates_scalar : FieldType → List ℕ → Setting o
  adds_scalar_vector updates_scalar_vector : FieldType → List ℕ → ℕ → Setting o
  adds_string updates_string : List ℕ → Setting o
  adds_opaque updates_opaque : List ℕ → ℕ → Setting o
  adds_msg updates_msg : OmnmPayloadImpl → Setting o
  adds_vector_string updates_vector_string : List (List ℕ) → Setting o
  updates_vector_msg : List Reported → Setting o
  updates_date_time : o.DateTime → Setting o
  updates_price : o.Price → Setting o
  updates_vector_time : List o.DateTime → Setting o
  updates_vector_price : List o.Price → Setting o

pub data Call (o : Objects) : Type 0 where
  sets : CString → ℕ → Setting o → Call o
  clears : Call o
  -- a copy of another message into this one
  copies : OmnmPayloadImpl → Call o
  -- another message applied to this one
  merges : OmnmPayloadImpl → Call o

module _ (mama : Mama) (o : Objects) where
  abbrev pub set : Setting o → OmnmPayloadImpl → CString → ℕ → Run (Status × Handle)
  set (adds_scalar t value) m name fid = add_scalar mama (some m) t name fid value
  set (updates_scalar t value) m name fid = update_scalar mama (some m) t name fid value
  set (adds_scalar_vector t value size) m name fid =
      add_scalar_vector mama (some m) t name fid (some value) size
  set (updates_scalar_vector t value size) m name fid =
      update_scalar_vector mama (some m) t name fid (some value) size
  set (adds_string s) m name fid = add_string mama (some m) name fid (some s)
  set (updates_string s) m name fid = update_string mama (some m) name fid (some s)
  set (adds_opaque block size) m name fid = add_opaque mama (some m) name fid (some block) size
  set (updates_opaque block size) m name fid =
      update_opaque mama (some m) name fid (some block) size
  set (adds_msg sub) m name fid = add_msg mama (some m) name fid (ok, some sub)
  set (updates_msg sub) m name fid = update_msg mama (some m) name fid (ok, some sub)
  set (adds_vector_string ss) m name fid = add_vector_string mama (some m) name fid (some ss)
  set (updates_vector_string ss) m name fid = update_vector_string mama (some m) name fid (some ss)
  set (updates_vector_msg ms) m name fid = update_vector_msg mama (some m) name fid (some ms)
  set (updates_date_time d) m name fid = update_date_time mama o (some m) name fid (some d)
  set (updates_price p) m name fid = update_price mama o (some m) name fid (some p)
  set (updates_vector_time ds) m name fid = update_vector_time mama o (some m) name fid (some ds)
  set (updates_vector_price ps) m name fid = update_vector_price mama o (some m) name fid (some ps)

module _ (mama : Mama) (convert : Conversion) (o : Objects) where
  abbrev pub perform : Call o → OmnmPayloadImpl → Run (Status × Handle)
  perform (sets name fid setting) m = set mama o setting m name fid
  perform clears m = clear (some m)
  perform (copies src) m = copy mama (some src) (some (into m))
  perform (merges src) m = apply mama convert o (some m) (some src)

  -- Calls in a row, whatever they return
  unfoldable pub perform_all : List (Call o) → OmnmPayloadImpl → Run OmnmPayloadImpl
  perform_all [] m = ret m
  perform_all (c ∷ cs) m =
      perform c m >>= λ (status, after). elim after [ none ↦ fault | some m' ↦ perform_all cs m' ]

-- What C asks of the arguments, and what the bridge asks of the message: it is smaller than 2 GiB when it
-- is updated, an update with a number meets no number of another type, and an update with a vector of numbers
-- is of a valid name and fid.
module _ (o : Objects) (m : OmnmPayloadImpl) (es : List Entry) where
  abbrev pub IsProperSetting : Setting o → CString → ℕ → Type 0
  IsProperSetting (adds_scalar t value) name fid = (is_scalar t ≡ true) × (length value ≡ sizeof t)
  IsProperSetting (updates_scalar t value) name fid =
      (is_scalar t ≡ true)
      × (length value ≡ sizeof t)
      × KeepsNumber t name fid es
      × (m.payload_buffer_tail < 2 ^ 31)
  IsProperSetting (adds_scalar_vector t value size) name fid =
      (is_scalar_vector t ≡ true)
      × (length value ≡ size * element_size t)
      × (length value ≤ uint32_max)
  IsProperSetting (updates_scalar_vector t value size) name fid =
      (is_scalar_vector t ≡ true)
      × (length value ≡ size * element_size t)
      × (length value ≤ uint32_max)
      × (validate_name_fid name fid ≡ none)
      × (m.payload_buffer_tail < 2 ^ 31)
  IsProperSetting (adds_string s) name fid = IsText s × (length s < uint32_max)
  IsProperSetting (updates_string s) name fid =
      IsText s × (length s < uint32_max) × (m.payload_buffer_tail < 2 ^ 31)
  IsProperSetting (adds_opaque block size) name fid = (size ≤ length block) × (size ≤ uint32_max)
  IsProperSetting (updates_opaque block size) name fid =
      (size ≤ length block) × (size ≤ uint32_max) × (m.payload_buffer_tail < 2 ^ 31)
  IsProperSetting (adds_msg sub) name fid =
      (sub.payload_buffer_tail ≤ length sub.payload_buffer) × (sub.payload_buffer_tail ≤ uint32_max)
  IsProperSetting (updates_msg sub) name fid =
      (sub.payload_buffer_tail ≤ length sub.payload_buffer)
      × (sub.payload_buffer_tail ≤ uint32_max)
      × (m.payload_buffer_tail < 2 ^ 31)
  IsProperSetting (adds_vector_string ss) name fid = Unit {0}
  IsProperSetting (updates_vector_string ss) name fid =
      (bytes_required ss ≤ uint32_max) × (m.payload_buffer_tail < 2 ^ 31)
  IsProperSetting (updates_vector_msg ms) name fid =
      AllReadable ms
      × (length (flatten (map framed ms)) ≤ uint32_max)
      × (m.payload_buffer_tail < 2 ^ 31)
  IsProperSetting (updates_date_time d) name fid = m.payload_buffer_tail < 2 ^ 31
  IsProperSetting (updates_price p) name fid = m.payload_buffer_tail < 2 ^ 31
  IsProperSetting (updates_vector_time ds) name fid =
      (length ds * (date_times o).width ≤ uint32_max) × (m.payload_buffer_tail < 2 ^ 31)
  IsProperSetting (updates_vector_price ps) name fid =
      (length ps * (prices o).width ≤ uint32_max) × (m.payload_buffer_tail < 2 ^ 31)

module _ (mama : Mama) (o : Objects) where
  abbrev pub IsProper : Call o → OmnmPayloadImpl → List Entry → Type 0
  IsProper (sets name fid setting) m es = IsName name fid × IsProperSetting o m es setting name fid
  IsProper clears m es = Unit {0}
  IsProper (copies src) m es = IsWellFormed mama src
  IsProper (merges src) m es =
      (ss : List Entry) × Represents mama src ss
      × AllHandled o ss
      × IsMergeable mama (get_header_size m) none ss es

module _ (mama : Mama) (convert : Conversion) (o : Objects) where
  -- Each call of the row is proper for the message that it meets.
  abbrev pub AllProper : List (Call o) → OmnmPayloadImpl → Type 0
  AllProper [] m = Unit {0}
  AllProper (c ∷ cs) m =
      ((es : List Entry) → Represents mama m es → IsProper mama o c m es)
      × ((status : Status) (m' : OmnmPayloadImpl)
          → perform mama convert o c m ≡ ret (status, some m')
          → AllProper cs m')
