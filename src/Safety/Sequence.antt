-- ===== src/Safety/Sequence.antt =====
-- Sequences of setters, `omnmmsgPayload_clear`, `omnmmsgPayload_copy` and `omnmmsgPayload_apply` of
-- src/Payload.cpp.
use open_mama_omnm.Prelude.{
  ℕ, ◌≡◌, refl, ap, List, [], ◌∷◌, none, some, true, false, replicate, length, arith,
}
use open_mama_omnm.Mama.{Mama, FieldType, ok}
use open_mama_omnm.Memory.{ret, ◌>>=◌}
use open_mama_omnm.FieldType.{are_field_types_castable, is_field_type_fixed_width}
use open_mama_omnm.Message.{OmnmPayloadImpl}
use open_mama_omnm.Objects.{Objects, IsFaithful}
use open_mama_omnm.Payload.{CString}
use open_mama_omnm.Payload.Upserted.{Enough}
use open_mama_omnm.Bridge.{clear}
use open_mama_omnm.Bridge.Clear.{clear-Represents}
use open_mama_omnm.Bridge.Copy.{copy_into}
use open_mama_omnm.DateTime.{date_times, update_date_time, update_vector_time}
use open_mama_omnm.DateTime.Convert.{date_times-IsStruct}
use open_mama_omnm.Price.{prices, update_price, update_vector_price}
use open_mama_omnm.Price.RoundTrip.{price_seen, prices-IsStruct}
use open_mama_omnm.Scalar.{Conversion}
use open_mama_omnm.Apply.Merge.{merged, apply-merged}
use open_mama_omnm.Vector.RoundTrip.{is_scalar_vector}
use open_mama_omnm.Wire.{Entry, Represents, IsWellFormed}
use open_mama_omnm.Wire.Laws.{header_room}
use open_mama_omnm.Safety.{SafeCall, KeepsNumber}
use open_mama_omnm.Safety.Calls.{
  IsName, add_scalar-Safe, update_scalar-Safe, add_scalar_vector-Safe, add_string-Safe,
  update_string-Safe, add_opaque-Safe, update_opaque-Safe, add_msg-Safe, update_msg-Safe,
}
use open_mama_omnm.Safety.Vectors.{
  update_vector_msg-Safe, update_scalar_vector-Safe, add_vector_string-Safe,
  update_vector_string-Safe, update_value-Safe, update_vector-Safe,
}
use open_mama_omnm.Safety.Session.{
  Setting, adds_scalar, updates_scalar, adds_scalar_vector, updates_scalar_vector,
  updates_vector_msg, adds_string, updates_string, adds_opaque, updates_opaque, adds_msg,
  updates_msg, adds_vector_string, updates_vector_string, updates_date_time, updates_price,
  updates_vector_time, updates_vector_price, Call, sets, clears, copies, merges, set, perform,
  perform_all, IsProperSetting, IsProper, AllProper,
}

-- No entry is castable to a type that is not of fixed width.
KeepsNumber-other :
    (type : FieldType) (name : CString) (fid : ℕ) (es : List Entry)
    → is_field_type_fixed_width type ≡ false
    → KeepsNumber type name fid es
unfolding are_field_types_castable
KeepsNumber-other type name fid es other l found castable = absurd (ground (arith, other, castable))

not_fixed : (t : FieldType) → is_scalar_vector t ≡ true → is_field_type_fixed_width t ≡ false
unfolding is_scalar_vector is_field_type_fixed_width
not_fixed _ h = ground arith

module _ (mama : Mama) (enough : Enough mama) (o : Objects) (laws : IsFaithful o) where
  -- One setter on a well-formed message
  set-Safe :
      (s : Setting o) (m : OmnmPayloadImpl) (es : List Entry) (name : CString) (fid : ℕ)
      → Represents mama m es
      → IsName name fid
      → IsProperSetting o m es s name fid
      → SafeCall mama (set mama o s m name fid)
  unfolding is_field_type_fixed_width update_date_time update_price update_vector_time
      update_vector_price
  set-Safe (adds_scalar t value) m es name fid r n (scalar, width) =
      add_scalar-Safe mama enough m es r name fid n t value scalar width
  set-Safe (updates_scalar t value) m es name fid r n (scalar, width, keeps, small) =
      update_scalar-Safe mama enough m es r name fid n t value scalar width keeps small
  set-Safe (adds_scalar_vector t value size) m es name fid r n (vector, width, short) =
      add_scalar_vector-Safe mama enough m es r name fid n t value size vector width short
  set-Safe (updates_scalar_vector t value size) m es name fid r n
        (vector, width, short, valid, small) =
      update_scalar_vector-Safe mama enough m es r name fid n small t value size vector width short
        valid (KeepsNumber-other t name fid es (not_fixed t vector))
  set-Safe (adds_string s) m es name fid r n (text, short) =
      add_string-Safe mama enough m es r name fid n s text short
  set-Safe (updates_string s) m es name fid r n (text, short, small) =
      update_string-Safe mama enough m es r name fid n s text short
        (KeepsNumber-other _ name fid es refl) small
  set-Safe (adds_opaque block size) m es name fid r n (inside, short) =
      add_opaque-Safe mama enough m es r name fid n block size inside short
  set-Safe (updates_opaque block size) m es name fid r n (inside, short, small) =
      update_opaque-Safe mama enough m es r name fid n block size inside short
        (KeepsNumber-other _ name fid es refl) small
  set-Safe (adds_msg sub) m es name fid r n (inside, short) =
      add_msg-Safe mama enough m es r name fid n sub inside short
  set-Safe (updates_msg sub) m es name fid r n (inside, short, small) =
      update_msg-Safe mama enough m es r name fid n sub inside short
        (KeepsNumber-other _ name fid es refl) small
  set-Safe (adds_vector_string ss) m es name fid r n proper =
      add_vector_string-Safe mama enough m es r name fid n ss
  set-Safe (updates_vector_string ss) m es name fid r n (short, small) =
      update_vector_string-Safe mama enough m es r name fid n small ss short
        (KeepsNumber-other _ name fid es refl)
  set-Safe (updates_vector_msg ms) m es name fid r n (readable, short, small) =
      update_vector_msg-Safe mama enough m es r name fid n small ms readable short
        (KeepsNumber-other _ name fid es refl)
  set-Safe (updates_date_time d) m es name fid r n small =
      update_value-Safe mama enough m es r name fid n small (date_times o) o.get_with_hints
        (date_times-IsStruct o laws) d (KeepsNumber-other _ name fid es refl)
  set-Safe (updates_price p) m es name fid r n small =
      update_value-Safe mama enough m es r name fid n small (prices o) (price_seen o)
        (prices-IsStruct o laws) p (KeepsNumber-other _ name fid es refl)
  set-Safe (updates_vector_time ds) m es name fid r n (short, small) =
      update_vector-Safe mama enough m es r name fid n small (date_times o) o.get_with_hints
        (date_times-IsStruct o laws) ds short (KeepsNumber-other _ name fid es refl)
  set-Safe (updates_vector_price ps) m es name fid r n (short, small) =
      update_vector-Safe mama enough m es r name fid n small (prices o) (price_seen o)
        (prices-IsStruct o laws) ps short (KeepsNumber-other _ name fid es refl)

module _ (mama : Mama) (enough : Enough mama) (convert : Conversion) (o : Objects)
    (laws : IsFaithful o) where
  perform-Safe :
      (c : Call o) (m : OmnmPayloadImpl) (es : List Entry)
      → Represents mama m es
      → IsProper mama o c m es
      → SafeCall mama (perform mama convert o c m)
  unfolding clear
  perform-Safe (sets name fid s) m es r (n, proper) =
      set-Safe mama enough o laws s m es name fid r n proper
  perform-Safe clears m es r proper =
      let (m', done, r', _) = clear-Represents mama m (header_room mama m es r) in
      (ok, m', ap (λ run. run >>= λ cleared. ret (ok, some cleared)) done, ([], r'))
  perform-Safe (copies src) m es r (ss, rs) =
      let (buf, memory) = enough (replicate (length m.payload_buffer) 0) src.payload_buffer_tail in
      let (m', done, r') = copy_into mama src m ss buf rs memory in (ok, m', done, (ss, r'))
  perform-Safe (merges src) m es r (ss, rs, plain, ready) =
      let (m', done, r') = apply-merged mama convert o enough laws src m ss es rs r plain ready in
      (ok, m', done, (merged none ss es, r'))

  -- Any sequence of setters of numbers, vectors of numbers and of strings, strings, opaque data,
  -- sub-messages, date-times, prices and vectors of these, of `clear`, of copies of other messages
  -- and of `omnmmsgPayload_apply` of other messages, on a well-formed message, under names and fids
  -- that need not be valid but for the update of a vector of numbers, ends without an access
  -- outside of a block, whatever the calls return, and leaves a well-formed message, provided that
  -- the arguments are what their C types say and smaller than 4 GiB, that the message is smaller
  -- than 2 GiB when it is updated, that no update turns a number into one of another type, that the
  -- fields of a message that is applied are ones that are put as they are, each with a fid or a
  -- name and none of another type than the field that it meets, or ones that are passed over, that
  -- memory is allocated whenever it is asked for, and that libmama keeps what it is given.
  pub perform_all-IsWellFormed :
      (cs : List (Call o)) (m : OmnmPayloadImpl)
      → IsWellFormed mama m
      → AllProper mama convert o cs m
      → (m' : OmnmPayloadImpl) × (perform_all mama convert o cs m ≡ ret m') × IsWellFormed mama m'
  unfolding perform_all
  perform_all-IsWellFormed [] m well proper = (m, refl, well)
  perform_all-IsWellFormed (c ∷ cs) m (es, r) (first, rest) =
      let (status, m', done, well) = perform-Safe c m es r (first es r) in
      let (m'', ran, well') = perform_all-IsWellFormed cs m' well (rest status m' done) in
      (m'', rw done ran, well')
