-- ===== src/Payload/Fuel.antt =====
-- Termination of `findFieldInBuffer` of src/Payload.cpp.
use open_mama_omnm.Prelude.{
  ℕ, ◌≢◌, refl, List, Bool, true, false, Option, none, some, ◌==◌, not, ◌&&◌, if◌then◌else◌,
}
use open_mama_omnm.Mama.{Mama}
use open_mama_omnm.Memory.{Run, ret, fault, stuck}
use open_mama_omnm.Memory.Ends.{Ends, Any, Ends-bind, string_at-Ends}
use open_mama_omnm.Message.{OmnmFieldImpl, OmnmPayloadImpl}
use open_mama_omnm.Iterator.Fuel.{walk_all-Ends}
use open_mama_omnm.Payload.{CString, names_match, field_matches, find_step, find_field_in_buffer}

names_match-Ends :
    (buf : List ℕ) (name : CString) (p : Option ℕ) → Ends Any (names_match buf name p)
unfolding names_match
names_match-Ends buf (some s) (some p) = Ends-bind Any Any _ _ (string_at-Ends buf p) λ t _. tt
names_match-Ends buf (some s) none = tt
names_match-Ends buf none p = tt

find_step-Ends :
    (buf : List ℕ) (name : CString) (fid : ℕ) (found : Option OmnmFieldImpl) (f : OmnmFieldImpl)
    → Ends Any (find_step buf name fid found f)
unfolding find_step field_matches
find_step-Ends buf name fid found f =
    Ends-bind Any Any _ _ (tested (not (fid == 0) && fid == f.fid)) λ hit _. tt
  where
    tested : (b : Bool) → Ends Any (if b then ret true else names_match buf name f.name)
    tested true = tt
    tested false = names_match-Ends buf name f.name

pub Ends-ne-stuck {ℓ} : {A : Type ℓ} (r : Run A) → Ends Any r → r ≢ stuck
Ends-ne-stuck (ret a) h = λ e. cc
Ends-ne-stuck fault h = λ e. cc
Ends-ne-stuck stuck h = absurd h

pub ne-stuck-Ends {ℓ} : {A : Type ℓ} (r : Run A) → r ≢ stuck → Ends Any r
ne-stuck-Ends (ret a) h = tt
ne-stuck-Ends fault h = tt
ne-stuck-Ends stuck h = h refl

pub find_field_in_buffer-Ends :
    (mama : Mama) (msg : OmnmPayloadImpl) (name : CString) (fid : ℕ)
    → Ends Any (find_field_in_buffer mama msg name fid)
unfolding find_field_in_buffer
find_field_in_buffer-Ends mama msg name fid =
    walk_all-Ends mama msg (find_step msg.payload_buffer name fid)
      (find_step-Ends msg.payload_buffer name fid) none

-- The search for a field ends on every message, whatever bytes it holds.
pub find_field_in_buffer-ne-stuck :
    (mama : Mama) (msg : OmnmPayloadImpl) (name : CString) (fid : ℕ)
    → find_field_in_buffer mama msg name fid ≢ stuck
find_field_in_buffer-ne-stuck mama msg name fid =
    Ends-ne-stuck _ (find_field_in_buffer-Ends mama msg name fid)
