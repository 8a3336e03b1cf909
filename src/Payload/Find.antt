-- ===== src/Payload/Find.antt =====
-- `findFieldInBuffer` of src/Payload.cpp finds the first entry with the fid or the name.
use open_mama_omnm.Prelude.{
  ℕ, ◌+◌, ◌≡◌, inl, inr, ◌↔◌, refl, sym, ap, ◌∙◌, List, [], ◌∷◌, ◌++◌, append_assoc, Bool, true,
  false, not, ◌&&◌, ◌||◌, Option, none, some, length, drop, length-append, drop-append, drop_past,
  arith, ◌==◌, if◌then◌else◌, Bool-cases,
}
use open_mama_omnm.Mama.{Mama}
use open_mama_omnm.Memory.{ret, le16, string_at, chars}
use open_mama_omnm.Memory.Laws.{chars-append}
use open_mama_omnm.Message.{OmnmFieldImpl, OmnmPayloadImpl, get_header_size}
use open_mama_omnm.Iterator.Walk.{walk_all-entries}
use open_mama_omnm.Payload.{
  CString, text_eq, names_match, field_matches, find_step, find_field_in_buffer,
}
use open_mama_omnm.Wire.{
  Entry, encode, encode_all, AllEntries, IsEntry, name_at, view, Represents, Names, Selects,
  walk_entries,
}
use open_mama_omnm.Wire.Laws.{encode_append}

text_eq→eq : (s t : List ℕ) → text_eq s t ≡ true → s ≡ t
unfolding text_eq
text_eq→eq [] [] h = refl
text_eq→eq [] (b ∷ t) h = cc
text_eq→eq (a ∷ s) [] h = cc
text_eq→eq (a ∷ s) (b ∷ t) h = ground (arith, text_eq→eq s t)

text_eq_refl : (s : List ℕ) → text_eq s s ≡ true
unfolding text_eq
text_eq_refl [] = refl
text_eq_refl (a ∷ s) = ground (arith, text_eq_refl s)

pub text_eq_iff : (s t : List ℕ) → (text_eq s t ≡ true) ↔ (s ≡ t)
text_eq_iff s t = (text_eq→eq s t, λ e. rw e (text_eq_refl t))

-- The decision of `Selects`.
unfoldable pub has_name : CString → List ℕ → Bool
has_name none t = false
has_name (some s) [] = false
has_name (some s) (c ∷ t) = text_eq s (c ∷ t)

unfoldable pub selects : CString → ℕ → Entry → Bool
selects name fid e = (not (fid == 0) && fid == e.fid) || has_name name e.name

-- The first entry that is asked for, between those before and those after it.
pub record Location : Type 0 where
  pub before : List Entry
  pub entry : Entry
  pub after : List Entry

unfoldable pub locate : CString → ℕ → List Entry → Option Location
locate name fid [] = none
locate name fid (e ∷ es) =
    let rest = locate name fid es in
    if selects name fid e
    then some (record { before = []; entry = e; after = es })
    else elim rest [ none ↦ none | some l ↦ some (record l { before = e ∷ l.before }) ]

-- The field structure of a located entry, in a message whose entries begin at `p`.
abbrev pub located_view : Mama → ℕ → Option Location → Option OmnmFieldImpl
located_view mama p none = none
located_view mama p (some l) = some (view mama (p + length (encode_all mama l.before)) l.entry)

-- The name of an entry at its place in the buffer.
pub string_at-encode :
    (mama : Mama) (buf : List ℕ) (p : ℕ) (e : Entry) (xs : List ℕ)
    → IsEntry e
    → drop p buf ≡ encode mama e ++ xs
    → string_at buf (p + 3) ≡ ret e.name
unfolding string_at
string_at-encode mama buf p e xs h at_p =
    ap chars (
      drop_past p (p + 3) buf (mama.code e.field_type ∷ le16 e.fid) _
        (at_p ∙ encode_append mama e xs) refl)
    ∙ chars-append e.name _ h.name_text

names_match-name_at :
    (buf : List ℕ) (q : ℕ) (name : CString) (t : List ℕ)
    → string_at buf q ≡ ret t
    → names_match buf name (name_at t q) ≡ ret (has_name name t)
unfolding names_match has_name
names_match-name_at buf q none [] h = refl
names_match-name_at buf q none (c ∷ t) h = refl
names_match-name_at buf q (some s) [] h = refl
names_match-name_at buf q (some s) (c ∷ t) h = rw h

field_matches-view :
    (mama : Mama) (buf : List ℕ) (p : ℕ) (name : CString) (fid : ℕ) (e : Entry) (xs : List ℕ)
    → IsEntry e
    → drop p buf ≡ encode mama e ++ xs
    → field_matches buf name fid (view mama p e) ≡ ret (selects name fid e)
unfolding field_matches selects
field_matches-view mama buf p name fid e xs h at_p =
    rw (names_match-name_at buf (p + 3) name e.name (string_at-encode mama buf p e xs h at_p))
      (choose (not (fid == 0) && fid == e.fid) (has_name name e.name))
  where
    choose : (b c : Bool) → (if b then ret true else ret c) ≡ ret (b || c)
    choose true c = refl
    choose false c = refl

located_view-cons :
    (mama : Mama) (p : ℕ) (e : Entry) (l : Option Location)
    → located_view mama (p + length (encode mama e)) l
      ≡ located_view mama p
          (elim l [ none ↦ none | some k ↦ some (record k { before = e ∷ k.before }) ])
unfolding encode_all
located_view-cons mama p e none = refl
located_view-cons mama p e (some l) =
    ap (λ n. some (view mama n l.entry))
      (omega (arith, length-append (encode mama e) (encode_all mama l.before)))

walk_entries-locate :
    (mama : Mama) (buf : List ℕ) (name : CString) (fid p : ℕ) (es : List Entry) (slack : List ℕ)
    → AllEntries es
    → drop p buf ≡ encode_all mama es ++ slack
    → walk_entries mama p es (find_step buf name fid) none
      ≡ ret (located_view mama p (locate name fid es))
unfolding walk_entries find_step locate encode_all
walk_entries-locate mama buf name fid p [] slack h at_p = refl
walk_entries-locate mama buf name fid p (e ∷ es) slack h at_p =
    rw (field_matches-view mama buf p name fid e (encode_all mama es ++ slack) h.0 at_entry)
      (elim (Bool-cases (selects name fid e)) [
        | inl hit ↦ rw hit (ap (λ n. ret (some (view mama n e))) (omega arith))
        | inr miss ↦ rw miss (
            walk_entries-locate mama buf name fid (p + length (encode mama e)) es slack h.1
              (drop_past p _ buf (encode mama e) _ at_entry refl)
            ∙ ap ret (located_view-cons mama p e (locate name fid es)))
      ])
  where
    at_entry : drop p buf ≡ encode mama e ++ (encode_all mama es ++ slack)
    at_entry = at_p ∙ append_assoc (encode mama e) (encode_all mama es) slack

-- Where the entries of a message begin.
pub drop-head :
    (mama : Mama) (msg : OmnmPayloadImpl) (es : List Entry) (r : Represents mama msg es)
    → drop (get_header_size msg) msg.payload_buffer ≡ encode_all mama es ++ r.slack
drop-head mama msg es r =
    ap (drop (get_header_size msg)) r.content ∙ drop-append r.head _ _ (sym r.head_size)

pub find_field_in_buffer-locate :
    (mama : Mama) (msg : OmnmPayloadImpl) (name : CString) (fid : ℕ) (es : List Entry)
    → Represents mama msg es
    → find_field_in_buffer mama msg name fid
      ≡ ret (located_view mama (get_header_size msg) (locate name fid es))
unfolding find_field_in_buffer
find_field_in_buffer-locate mama msg name fid es r =
    walk_all-entries mama msg (find_step msg.payload_buffer name fid) es none r
    ∙ walk_entries-locate mama msg.payload_buffer name fid (get_header_size msg) es r.slack
        r.entries (drop-head mama msg es r)

-- `has_name` and `selects` decide what `Names` and `Selects` say.
has_name_iff : (name : CString) (t : List ℕ) → (has_name name t ≡ true) ↔ Names name t
unfolding has_name Names
has_name_iff none t = (λ h. cc, λ h. absurd h)
has_name_iff (some s) [] = (λ h. cc, λ h. absurd (h.0 refl))
has_name_iff (some s) (c ∷ t) =
    (λ h. (λ z. cc, (text_eq_iff s (c ∷ t)).0 h), λ h. (text_eq_iff s (c ∷ t)).1 h.1)

pub selects→Selects :
    (name : CString) (fid : ℕ) (e : Entry) → selects name fid e ≡ true → Selects name fid e
unfolding selects
selects→Selects name fid e h = elim (Bool-cases (not (fid == 0) && fid == e.fid)) [
  | inl by_fid ↦ inl (ground arith, ground arith)
  | inr other ↦ inr ((has_name_iff name e.name).0 (ground arith))
]

pub Selects→selects :
    (name : CString) (fid : ℕ) (e : Entry) → Selects name fid e → selects name fid e ≡ true
unfolding selects
Selects→selects name fid e (inl (nonzero, same)) = ground arith
Selects→selects name fid e (inr named) =
    let hit : has_name name e.name ≡ true = (has_name_iff name e.name).1 named in ground arith

abbrev pub NoneSelected : CString → ℕ → List Entry → Type 0
NoneSelected name fid [] = Unit {0}
NoneSelected name fid (e ∷ es) = (¬ Selects name fid e) × NoneSelected name fid es

-- What a search in `es` may come to.
abbrev pub Located : CString → ℕ → List Entry → Option Location → Type 0
Located name fid es none = NoneSelected name fid es
Located name fid es (some l) =
    (es ≡ l.before ++ (l.entry ∷ l.after))
    × Selects name fid l.entry
    × NoneSelected name fid l.before

pub locate-Located :
    (name : CString) (fid : ℕ) (es : List Entry) → Located name fid es (locate name fid es)
unfolding locate
locate-Located name fid [] = tt
locate-Located name fid (e ∷ es) = elim (Bool-cases (selects name fid e)) [
  | inl hit ↦ rw hit (refl, selects→Selects name fid e hit, tt)
  | inr miss ↦ rw miss (
      extend (locate name fid es) (locate-Located name fid es)
        (λ z. cc (Selects→selects name fid e z)))
]
  where
    extend :
        (l : Option Location)
        → Located name fid es l
        → ¬ Selects name fid e
        → Located name fid
            (e ∷ es)
            (elim l [ none ↦ none | some k ↦ some (record k { before = e ∷ k.before }) ])
    extend none h out = (out, h)
    extend (some l) h out = (ap (λ t. e ∷ t) h.0, h.1, (out, h.2))

-- On a message that represents entries the search ends, and shows the structure of the first entry
-- that has the fid, if that is not 0, or the name, if that is given and not empty; it shows none
-- only where no entry has either.
pub find_field_in_buffer-Located :
    (mama : Mama) (msg : OmnmPayloadImpl) (name : CString) (fid : ℕ) (es : List Entry)
    → Represents mama msg es
    → (l : Option Location) × (find_field_in_buffer mama msg name fid
        ≡ ret (located_view mama (get_header_size msg) l))
      × Located name fid es l
find_field_in_buffer-Located mama msg name fid es r = (
  locate name fid es,
  find_field_in_buffer-locate mama msg name fid es r,
  locate-Located name fid es,
)
