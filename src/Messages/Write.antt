-- ===== src/Messages/Write.antt =====
-- The loop of `omnmmsgPayload_updateVectorMsg` in src/Payload.cpp that copies the messages.
use open_mama_omnm.Prelude.{
  ℕ, ◌+◌, ◌≤◌, ◌≡◌, refl, ap, ◌∙◌, List, [], ◌∷◌, ◌++◌, append_assoc, append-nil, false, none, some,
  ltb, length, take, length-take_le, drop, map, length-append, length-drop, drop-drop, arith,
  le→leb,
}
use mathlib.Core.Path.{ap₂}
use open_mama_omnm.Mama.{Mama, ok, vector_msg}
use open_mama_omnm.Memory.{ret, read_bytes, le32}
use open_mama_omnm.Memory.Laws.{write_extends}
use open_mama_omnm.Message.{OmnmPayloadImpl}
use open_mama_omnm.Payload.{CString, validate_name_fid, update_field, uint32_max}
use open_mama_omnm.Payload.Add.{grow_keeps}
use open_mama_omnm.Blocks.{flatten}
use open_mama_omnm.Messages.{
  Reported, bytes_required, copy_messages, put_messages, update_vector_msg,
}
use open_mama_omnm.Payload.Source.{update_field-front}
use open_mama_omnm.Payload.Upserted.{Enough}

-- What is reported of a message whose bytes can be read, and how it stands in the field.
pub record IsReadable (m : Reported) : Type 0 where
  pub same_size : m.byte_size ≡ m.buffer_len
  pub short : m.buffer_len ≤ uint32_max
  pub inside : m.buffer_len ≤ length m.buffer

abbrev pub AllReadable : List Reported → Type 0
AllReadable [] = Unit {0}
AllReadable (m ∷ ms) = IsReadable m × AllReadable ms

abbrev pub image : Reported → List ℕ
image m = take m.buffer_len m.buffer

abbrev pub framed : Reported → List ℕ
framed m = le32 m.buffer_len ++ image m

read_image : (m : Reported) → IsReadable m → read_bytes m.buffer 0 m.buffer_len ≡ ret (image m)
unfolding read_bytes
read_image m k = rw (le→leb (0 + m.buffer_len) (length m.buffer) (omega (arith, k.inside))) refl

pub length-image : (m : Reported) → IsReadable m → length (image m) ≡ m.buffer_len
length-image m k = length-take_le m.buffer_len m.buffer k.inside

pub bytes_required_lem :
    (ms : List Reported) → AllReadable ms → bytes_required ms ≡ length (flatten (map framed ms))
unfolding bytes_required flatten
bytes_required_lem [] k = refl
bytes_required_lem (m ∷ ms) k = omega (
  arith,
  k.0.same_size,
  length-image m k.0,
  bytes_required_lem ms k.1,
  length-append (framed m) (flatten (map framed ms)),
)

pub copy_messages-framed :
    (pre rest : List ℕ) (p : ℕ) (ms : List Reported)
    → AllReadable ms
    → p ≡ length pre
    → length (flatten (map framed ms)) ≤ length rest
    → copy_messages (pre ++ rest) p ms
      ≡ ret (ok, (pre ++ flatten (map framed ms)) ++ drop (length (flatten (map framed ms))) rest)
unfolding copy_messages flatten
copy_messages-framed pre rest p [] k h room = rw append-nil
copy_messages-framed pre rest p (m ∷ ms) k h room =
    rw
      (
        not_long,
        write_extends pre rest (le32 m.buffer_len) p h (omega (arith, sizes)),
        read_image m k.0,
        write_extends (pre ++ le32 m.buffer_len) (drop 4 rest) (image m) (p + 4)
            (omega (arith, h, length-append pre (le32 m.buffer_len)))
            (omega (arith, sizes, length-drop 4 rest)),
        copy_messages-framed ((pre ++ le32 m.buffer_len) ++ image m)
            (drop (length (image m)) (drop 4 rest)) (p + 4 + m.buffer_len) ms k.1
            (omega (
              arith,
              h,
              length-image m k.0,
              length-append pre (le32 m.buffer_len),
              length-append (pre ++ le32 m.buffer_len) (image m),
            ))
            (omega
              (arith, sizes, length-drop 4 rest, length-drop (length (image m)) (drop 4 rest))),
      )
      (ap (λ b. ret (ok, b)) (ap₂ ◌++◌ whole tail))
  where
    more : List ℕ
    more = flatten (map framed ms)

    sizes : length (framed m ++ more) ≡ 4 + length (image m) + length more
    sizes = omega (arith, length-append (framed m) more)

    not_long : ltb uint32_max m.buffer_len ≡ false
    not_long = ground (arith, k.0.short)

    whole : ((pre ++ le32 m.buffer_len) ++ image m) ++ more ≡ pre ++ (framed m ++ more)
    whole = simp append_assoc

    tail :
        drop (length more) (drop (length (image m)) (drop 4 rest))
        ≡ drop (length (framed m ++ more)) rest
    tail =
        ap (drop (length more)) (drop-drop 4 (length (image m)) _ rest refl)
        ∙ drop-drop (4 + length (image m)) (length more) _ rest sizes

-- Where `updateField` takes the framed messages, so does `omnmmsgPayload_updateVectorMsg`.
pub update_vector_msg-update_field :
    (mama : Mama) (enough : Enough mama) (msg : OmnmPayloadImpl) (name : CString) (fid : ℕ)
    (ms : List Reported)
    → validate_name_fid name fid ≡ none
    → AllReadable ms
    → (extra : List ℕ) × ((msg' : OmnmPayloadImpl)
        → update_field mama
            (record msg { scratch = flatten (map framed ms) ++ extra })
            vector_msg
            name
            fid
            (some (flatten (map framed ms)))
            (length (flatten (map framed ms)))
          ≡ ret (ok, msg')
        → update_vector_msg mama (some msg) name fid (some ms) ≡ ret (ok, some msg'))
unfolding update_vector_msg put_messages
update_vector_msg-update_field mama enough msg name fid ms valid readable =
    let bytes = flatten (map framed ms) in
    let (block, memory) = enough msg.scratch (length bytes) in
    let (more, grown, big, _) =
      grow_keeps mama msg.scratch [] msg.scratch block (length bytes) refl memory in
    let extra = drop (length bytes) more in
    let filled : OmnmPayloadImpl = record msg { scratch = bytes ++ extra } in
    (
      extra,
      λ msg' same.
          rw
            (
              update_vector_msg,
              valid,
              bytes_required_lem ms readable,
              grown,
              copy_messages-framed [] more 0 ms readable refl (omega (arith, big)),
              update_field-front bytes extra mama filled vector_msg name fid,
              same,
            )
            refl,
    )
