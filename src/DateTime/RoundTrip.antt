-- ===== src/DateTime/RoundTrip.antt =====
-- Date-times that src/Payload.cpp puts into a message, and gets from it again.
use open_mama_omnm.Prelude.{ℕ, ◌*◌, ◌^◌, ◌≤◌, ◌<◌, ◌≡◌, refl, List, true, Option, some, length, map}
use open_mama_omnm.Mama.{Mama, ok, time, vector_time}
use open_mama_omnm.Memory.{ret}
use open_mama_omnm.Message.{OmnmFieldImpl, OmnmPayloadImpl, sizeof_date_time}
use open_mama_omnm.Payload.{CString, uint32_max}
use open_mama_omnm.Payload.Upserted.{Enough, upsert, KeepsEntryType, get_field-Holds}
use open_mama_omnm.Objects.{Objects, IsFaithful}
use open_mama_omnm.Blocks.{flatten}
use open_mama_omnm.Structs.RoundTrip.{IsNamed, update_value-Holds, get_vector-update_vector}
use open_mama_omnm.DateTime.{
  OmnmDateTime, date_time_bytes, read_date_time, to_omnm_date_time, from_omnm_date_time, date_times,
  update_date_time, get_date_time, get_field_date_time, date_time_at, is_date_time,
  update_vector_time, get_vector_date_time,
}
use open_mama_omnm.Wire.{Entry, Represents}
use open_mama_omnm.DateTime.Convert.{
  read_date_time-date_time_bytes, to_omnm_date_time-IsInRange, get_with_hints-from_omnm_date_time,
  date_times-IsStruct,
}

-- A date-time field that holds a struct shows what the struct is converted to.
pub get_field_date_time-time :
    (o : Objects) (msg : OmnmPayloadImpl) (f : OmnmFieldImpl) (p : ℕ) (d : o.DateTime)
    (t : OmnmDateTime)
    → f.field_type ≡ time
    → f.location ≡ some p
    → read_date_time msg.payload_buffer p ≡ ret t
    → get_field_date_time o msg (some f) (some d) ≡ ret (ok, some (from_omnm_date_time o t d))
unfolding get_field_date_time is_date_time date_time_at
get_field_date_time-time o msg f p d t typed placed read =
    rw (get_field_date_time, typed, placed, typed, read) refl

module _ (mama : Mama) (enough : Enough mama) (o : Objects) (laws : IsFaithful o)
    (msg : OmnmPayloadImpl) (name : CString) (fid : ℕ) (es : List Entry) where
  -- A date-time that is put into a message under a valid name and fid is what the getter then makes
  -- of any date-time object: libmama shows the same seconds, microseconds, precision and hints of
  -- both, provided that a field that is there already has the type of a date-time, that the message
  -- is smaller than 2 GiB, that memory is allocated whenever it is asked for, and that libmama
  -- keeps what it is given.
  pub get_date_time-update_date_time :
      (value d : o.DateTime)
      → Represents mama msg es
      → IsNamed name fid
      → KeepsEntryType time name fid es
      → msg.payload_buffer_tail < 2 ^ 31
      → (msg' : OmnmPayloadImpl) × (d' : o.DateTime) × (update_date_time mama o
            (some msg)
            name
            fid
            (some value)
          ≡ ret (ok, some msg'))
        × (get_date_time mama o (some msg') name fid (some d) ≡ ret (ok, some d'))
        × (o.get_with_hints d' ≡ o.get_with_hints value)
        × Represents mama msg'
            (upsert time name fid (date_time_bytes (to_omnm_date_time o value)) es)
  unfolding update_date_time get_date_time
  get_date_time-update_date_time value d r n keeps small =
      let s = date_times o in
      let (msg', same, r', holds) =
        update_value-Holds s o.get_with_hints (date_times-IsStruct o laws) mama enough msg name fid
          es value r n keeps small in
      let (f, p, xs, shown, typed, _, placed, at, _) =
        get_field-Holds mama msg' time name fid (s.bytes value) _ r' n.valid holds in
      let t = to_omnm_date_time o value in
      let read =
        read_date_time-date_time_bytes msg'.payload_buffer p xs t
          (to_omnm_date_time-IsInRange o laws value).0 at in
      (
        msg',
        from_omnm_date_time o t d,
        same,
        rw (get_date_time, shown) (get_field_date_time-time o msg' f p d t typed placed read),
        get_with_hints-from_omnm_date_time o laws value d,
        r',
      )

  -- Date-times, one at least and of less than 4 GiB, that are put into a message as a vector under
  -- a valid name and fid are what the getter then shows: their number, and objects of which libmama
  -- shows the same seconds, microseconds, precision and hints, with an array that has room for
  -- them, provided that a field that is there already has the type of such a vector, that the
  -- message is smaller than 2 GiB, that memory is allocated whenever it is asked for, and that
  -- libmama keeps what it is given.
  pub get_vector_date_time-update_vector_time :
      (vs : List o.DateTime) (slots : List (Option o.DateTime))
      → Represents mama msg es
      → IsNamed name fid
      → KeepsEntryType vector_time name fid es
      → msg.payload_buffer_tail < 2 ^ 31
      → 0 < length vs
      → length vs * sizeof_date_time ≤ uint32_max
      → length vs ≤ length slots
      → (msg' : OmnmPayloadImpl) × (ts : List o.DateTime) × (update_vector_time mama o
            (some msg)
            name
            fid
            (some vs)
          ≡ ret (ok, some msg'))
        × (get_vector_date_time mama o (some msg') true name fid slots
            ≡ ret (ok, some (ts, length vs)))
        × (map o.get_with_hints ts ≡ map o.get_with_hints vs)
        × Represents mama msg'
            (upsert vector_time name fid (flatten (map (date_times o).bytes vs)) es)
  unfolding update_vector_time get_vector_date_time
  get_vector_date_time-update_vector_time vs slots =
      get_vector-update_vector (date_times o) o.get_with_hints (date_times-IsStruct o laws) mama
        enough msg name fid es vs slots
