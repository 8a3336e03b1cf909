-- ===== src/Tests/Reach.antt =====
-- A witness for the states of a message that the calls of src/Payload.cpp lead to.
use open_mama_omnm.Prelude.{ℕ, ◌≡◌, refl, List, [], none, some, arith}
use open_mama_omnm.Mama.{ok, null_arg, i64, opaque, is_delimited}
use open_mama_omnm.Memory.{ret}
use open_mama_omnm.Message.{OmnmPayloadImpl}
use open_mama_omnm.Bridge.Clear.{create-Represents}
use open_mama_omnm.Payload.{validate_name_fid, add_field}
use open_mama_omnm.Payload.Add.{add_field-append}
use open_mama_omnm.Payload.Upserted.{IsRequest}
use open_mama_omnm.Reach.{Reach, created, later, adds, Reach-IsWellFormed}
use open_mama_omnm.Wire.{IsEntry, Fits, IsWellFormed}
use open_mama_omnm.Iterator.{layout}
use open_mama_omnm.Payload.Put.{entry_of}
use open_mama_omnm.Tests.Model.{seven, seven-IsEntry, example_mama}

pub seven-IsRequest : IsRequest i64 none 3 seven
seven-IsRequest = record {
  entry = seven-IsEntry;
  valid = unfold validate_name_fid in refl;
  some_data = omega arith;
  short = omega arith;
}

-- A new message with a number in it.
filled :
    (msg : OmnmPayloadImpl) × (add_field example_mama
        (create-Represents example_mama).0
        i64
        none
        3
        (some seven)
        8
      ≡ ret (ok, msg))
filled =
    let (msg, same, represents, _) = create-Represents example_mama in
    let (msg', runs, _, _) =
      add_field-append example_mama msg i64 none 3 seven [] _ represents seven-IsEntry
        (unfold validate_name_fid in refl) (omega arith) (omega arith) refl in
    (msg', runs)

nothing-IsEntry : IsEntry (entry_of opaque none 0 [])
unfolding Fits is_delimited layout
nothing-IsEntry = record {
  delimited = refl;
  fid_word = omega arith;
  name_text = tt;
  fits = omega arith;
}

-- No data is refused, under any name and fid.
refused :
    (msg : OmnmPayloadImpl)
    → add_field example_mama msg opaque none 0 (some []) 0 ≡ ret (null_arg, msg)
unfolding add_field
refused msg = refl

filled-Reach : Reach example_mama filled.0
filled-Reach =
    let (msg, same, _, _) = create-Represents example_mama in
    later (later (created same) (adds ok i64 none 3 seven seven-IsEntry (omega arith) filled.1))
      (adds null_arg opaque none 0 [] nothing-IsEntry (omega arith) (refused filled.0))

pub enough :
    (block : List ℕ) (size : ℕ) → (grown : List ℕ) × (example_mama.allocate block size ≡ some grown)
enough block size = (_, refl)

Reach-IsWellFormed_example : IsWellFormed example_mama filled.0
Reach-IsWellFormed_example = Reach-IsWellFormed example_mama enough filled-Reach
