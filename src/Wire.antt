-- ===== src/Wire.antt =====
-- What the bytes of a message stand for: the wire format that src/Payload.cpp writes and
-- src/Iterator.cpp reads, as a list of entries.
pub mod Laws
pub mod Data
use open_mama_omnm.Prelude.{
  ℕ, ◌+◌, ◌≤◌, ◌<◌, ◌≡◌, ◌≢◌, ◌⊎◌, List, [], ◌∷◌, ◌++◌, true, Option, none, some, length,
  if◌then◌else◌,
}
use open_mama_omnm.Mama.{Mama, FieldType, is_delimited}
use open_mama_omnm.Memory.{Run, ret, ◌>>=◌, le16, le32}
use open_mama_omnm.Memory.Laws.{IsText}
use open_mama_omnm.FieldType.{is_field_type_sized}
use open_mama_omnm.Message.{OmnmFieldImpl, OmnmPayloadImpl, get_header_size, omnm_protocol_version}
use open_mama_omnm.Iterator.{Layout, fixed, text, counted, untouched, layout, Flow, going, over}

-- One field of a message. The empty name stands for no name.
pub record Entry : Type 0 where
  pub field_type : FieldType
  pub fid : ℕ
  pub name : List ℕ
  pub bytes : List ℕ

-- The length in front of data that does not show its own end.
unfoldable pub count_prefix : Layout → ℕ → List ℕ
count_prefix counted n = le32 n
count_prefix (fixed w) n = []
count_prefix text n = []
count_prefix untouched n = []

unfoldable pub encode : Mama → Entry → List ℕ
encode mama e =
    mama.code e.field_type
    ∷ (le16 e.fid
        ++ (e.name ++ (0 ∷ (count_prefix (layout e.field_type) (length e.bytes) ++ e.bytes))))

unfoldable pub encode_all : Mama → List Entry → List ℕ
encode_all mama [] = []
encode_all mama (e ∷ es) = encode mama e ++ encode_all mama es

-- Data that its layout delimits.
unfoldable pub Fits : Layout → List ℕ → Type 0
Fits (fixed w) xs = length xs ≡ w
Fits text xs = (s : List ℕ) × IsText s × (xs ≡ s ++ (0 ∷ []))
Fits counted xs = length xs < 4294967296
Fits untouched xs = ⊥

pub record IsEntry (e : Entry) : Type 0 where
  pub delimited : is_delimited e.field_type ≡ true
  pub fid_word : e.fid < 65536
  pub name_text : IsText e.name
  pub fits : Fits (layout e.field_type) e.bytes

abbrev pub AllEntries : List Entry → Type 0
AllEntries [] = Unit {0}
AllEntries (e ∷ es) = IsEntry e × AllEntries es

-- The field structure that the iterator shows for an entry at offset `p`.
abbrev pub name_at : List ℕ → ℕ → Option ℕ
name_at [] p = none
name_at (c ∷ s) p = some p

abbrev pub view : Mama → ℕ → Entry → OmnmFieldImpl
view mama p e = record {
  field_type = e.field_type;
  fid = e.fid;
  name = name_at e.name (p + 3);
  size = length e.bytes;
  location =
      some (p + 4 + length e.name + length (count_prefix (layout e.field_type) (length e.bytes)));
}

-- The message holds the entries `es`, behind a header `head` of a version that this code reads and
-- before unused space `slack`.
pub record Represents (mama : Mama) (msg : OmnmPayloadImpl) (es : List Entry) : Type 0 where
  pub head : List ℕ
  pub slack : List ℕ
  pub opening :
      (kind : ℕ) × (extension : List ℕ) × (head
        ≡ kind ∷ msg.header.wire_format_version ∷ msg.header.remaining_header_size ∷ extension)
  pub version : msg.header.wire_format_version ≤ omnm_protocol_version
  pub content : msg.payload_buffer ≡ head ++ (encode_all mama es ++ slack)
  pub head_size : length head ≡ get_header_size msg
  pub tail_size : msg.payload_buffer_tail ≡ length head + length (encode_all mama es)
  pub entries : AllEntries es

-- A message is well-formed if it represents some entries.
abbrev pub IsWellFormed : Mama → OmnmPayloadImpl → Type 0
IsWellFormed mama msg = (es : List Entry) × Represents mama msg es

-- What a caller asks for: an entry with the fid, if that is not 0, or with the name, if it has one.
unfoldable pub Names : Option (List ℕ) → List ℕ → Type 0
Names none t = ⊥
Names (some s) t = (t ≢ []) × (s ≡ t)

abbrev pub Selects : Option (List ℕ) → ℕ → Entry → Type 0
Selects name fid e = ((fid ≢ 0) × (fid ≡ e.fid)) ⊎ Names name e.name

-- The field structures of entries that begin at an offset.
unfoldable pub views : Mama → ℕ → List Entry → List OmnmFieldImpl
views mama p [] = []
views mama p (e ∷ es) = view mama p e ∷ views mama (p + length (encode mama e)) es

-- The loop of an iterator seen from the entries: the body on the view of each, from offset `p` on.
module _ {ℓ} {S : Type ℓ} where
  unfoldable pub walk_entries :
      Mama → ℕ → List Entry → (S → OmnmFieldImpl → Run (Flow S)) → S → Run S
  walk_entries mama p [] visit s = ret s
  walk_entries mama p (e ∷ es) visit s = visit s (view mama p e) >>= elim [
    | over t ↦ ret t
    | going t ↦ walk_entries mama (p + length (encode mama e)) es visit t
  ]
