-- ===== src/Message.antt =====
-- The state of a message, `OmnmPayloadImpl` of src/Payload.h, with `clear`, `getHeaderSize` and the
-- constructor of src/Payload.cpp.
use open_mama_omnm.Prelude.{ℕ, ◌+◌, ◌-◌, List, [], ◌∷◌, Option, none, length, replicate}
use open_mama_omnm.Mama.{Mama, FieldType}
use open_mama_omnm.Memory.{Run, ret, ◌>>=◌, write}

abbrev pub default_payload_size : ℕ
default_payload_size = 200

-- 'O'
abbrev pub mama_payload_id_omnm : ℕ
mama_payload_id_omnm = 79

abbrev pub omnm_protocol_version : ℕ
omnm_protocol_version = 1

-- `sizeof(omnmHeaderV1)`, and of `omnmHeader`, which is the same struct
abbrev pub sizeof_header : ℕ
sizeof_header = 3

-- `sizeof(omnmPrice)` and `sizeof(omnmDateTime)` with the padding of a 64-bit build
abbrev pub sizeof_price : ℕ
sizeof_price = 24

abbrev pub sizeof_date_time : ℕ
sizeof_date_time = 40

pub record OmnmHeader : Type 0 where
  pub header_type : ℕ
  pub wire_format_version : ℕ
  pub remaining_header_size : ℕ

-- The bytes of the struct, which has no padding.
abbrev pub header_bytes : OmnmHeader → List ℕ
header_bytes h = h.header_type ∷ h.wire_format_version ∷ h.remaining_header_size ∷ []

-- `omnmFieldImpl`: `name` and `location` (`mName`, `mData`) are offsets into the payload buffer of
-- the parent message, `none` for NULL.
pub record OmnmFieldImpl : Type 0 where
  pub field_type : FieldType
  pub fid : ℕ
  pub name : Option ℕ
  pub size : ℕ
  pub location : Option ℕ

-- `memset (..., 0, sizeof)` of a field
abbrev pub null_field : Mama → OmnmFieldImpl
null_field mama = record {
  field_type = mama.type_of 0;
  fid = 0;
  name = none;
  size = 0;
  location = none;
}

-- `mPayloadBufferSize` is the length of `payload_buffer`. `scratch` is `mField.mBuffer`, of length
-- `mField.mBufferLen`; `parent` and `extender_closure` are handles that the bridge only stores.
pub record OmnmPayloadImpl : Type 0 where
  pub payload_buffer : List ℕ
  pub payload_buffer_tail : ℕ
  pub field : OmnmFieldImpl
  pub scratch : List ℕ
  pub parent : Option ℕ
  pub header : OmnmHeader
  pub extender_closure : Option ℕ

-- `sizeof(omnmHeaderV1) + mHeader.mRemainingHeaderSize`, at most 258, so the cast loses nothing
abbrev pub get_header_size : OmnmPayloadImpl → ℕ
get_header_size m = sizeof_header + m.header.remaining_header_size

abbrev pub default_header : OmnmHeader
default_header = record {
  header_type = mama_payload_id_omnm;
  wire_format_version = omnm_protocol_version;
  remaining_header_size = 0;
}

-- `OmnmPayloadImpl::clear`
unfoldable pub clear : OmnmPayloadImpl → Run OmnmPayloadImpl
clear m = do
  buf ← write m.payload_buffer 0 (header_bytes default_header)
  let tail = sizeof_header + default_header.remaining_header_size
  zeroed ← write buf tail (replicate (length buf - tail) 0)
  ret (record m { header = default_header; payload_buffer = zeroed; payload_buffer_tail = tail })

-- The members as the constructor initialises them, with the block from `calloc`.
abbrev pub blank : Mama → OmnmPayloadImpl
blank mama = record {
  payload_buffer = replicate default_payload_size 0;
  payload_buffer_tail = 0;
  field = null_field mama;
  scratch = [];
  parent = none;
  header = record { header_type = 0; wire_format_version = 0; remaining_header_size = 0 };
  extender_closure = none;
}

-- The constructor
unfoldable pub new_payload : Mama → Run OmnmPayloadImpl
unfolding clear
new_payload mama = clear (blank mama)
