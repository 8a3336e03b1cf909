-- ===== src/Bridge/Overread.antt =====
-- The blocks that `omnmmsgPayload_unSerialize` of src/Payload.cpp reads past the end of.
use open_mama_omnm.Prelude.{
  ℕ, ◌+◌, ◌≤◌, ◌<◌, ◌≡◌, ◌≢◌, ◌↔◌, refl, List, [], ◌∷◌, ◌++◌, false, some, inl, inr, ltb, leb, ◌==◌,
  lt→leb, le→leb, length, take, drop, replicate, length-take_le, arith, Bool-cases,
}
use open_mama_omnm.Mama.{Mama, Status, ok, null_arg}
use open_mama_omnm.Memory.{Run, ret, fault, read8, read_bytes}
use open_mama_omnm.Memory.Laws.{read_bytes-append, write_fits}
use open_mama_omnm.Message.{OmnmPayloadImpl, sizeof_header, omnm_protocol_version}
use open_mama_omnm.Payload.Upserted.{Enough}
use open_mama_omnm.Bridge.{Handle, other, fill, un_serialize}
use open_mama_omnm.Bridge.Serialize.{taken, un_serialize_version}

-- A block has no room for a header, or it is of a version that this code reads and shorter than `len`.
abbrev pub IsOverread : ℕ → List ℕ → Type 0
IsOverread len (kind ∷ version ∷ remaining ∷ wire) =
    (version ≤ omnm_protocol_version) × (length (kind ∷ version ∷ remaining ∷ wire) < len)
IsOverread len _ = Unit {0}

ret-ne-fault : (r : Run (Status × Handle)) (a : Status × Handle) → r ≡ ret a → r ≢ fault
ret-ne-fault r a done h = cc

module _ (mama : Mama) (enough : Enough mama) (dest : OmnmPayloadImpl) (len : ℕ) where
  nothing :
      (block : List ℕ)
      → len ≡ 0
      → un_serialize mama (some dest) (some (other block)) len ≡ ret (null_arg, some dest)
  unfolding un_serialize
  nothing block same = rw same refl

  no_header :
      (block : List ℕ)
      → 0 < len
      → length block < sizeof_header
      → un_serialize mama (some dest) (some (other block)) len ≡ fault
  unfolding un_serialize read_bytes
  no_header block some_bytes short =
      let nonzero : (len == 0) ≡ false = ground arith in
      rw (nonzero, lt→leb (0 + sizeof_header) (length block) (omega arith)) refl

  module _ (kind version remaining : ℕ) (wire : List ℕ) (some_bytes : 0 < len)
      (supported : version ≤ omnm_protocol_version) where
    abbrev block : List ℕ
    block = kind ∷ version ∷ remaining ∷ wire

    header : read_bytes block 0 sizeof_header ≡ ret (kind ∷ version ∷ remaining ∷ [])
    header = read_bytes-append [] (kind ∷ version ∷ remaining ∷ []) wire 0 sizeof_header refl refl

    too_short : length block < len → un_serialize mama (some dest) (some (other block)) len ≡ fault
    unfolding un_serialize read8 fill
    too_short short =
        let (buf, memory) = enough (replicate (length dest.payload_buffer) 0) len in
        let nonzero : (len == 0) ≡ false = ground arith in
        let readable : ltb omnm_protocol_version version ≡ false = ground arith in
        let past : read_bytes block 0 len ≡ fault =
          unfold read_bytes in rw (lt→leb (0 + len) (length block) (omega (arith, short))) refl in
        rw (nonzero, header, readable, memory, past) refl

    long_enough :
        len ≤ length block
        → (m : OmnmPayloadImpl) × (un_serialize mama (some dest) (some (other block)) len
            ≡ ret (ok, some m))
    unfolding un_serialize read8 fill
    long_enough inside =
        let (buf, memory) = enough (replicate (length dest.payload_buffer) 0) len in
        let nonzero : (len == 0) ≡ false = ground arith in
        let readable : ltb omnm_protocol_version version ≡ false = ground arith in
        let within : read_bytes block 0 len ≡ ret (take len block) =
          unfold read_bytes in rw (le→leb (0 + len) (length block) (omega (arith, inside))) refl in
        let width = length-take_le len block inside in
        let room = (mama.allocate_grows _ _ _ memory).2 in
        (
          taken dest (take len block ++ drop (0 + length (take len block)) buf) len version
              remaining,
          rw
              (
                nonzero,
                header,
                readable,
                memory,
                within,
                write_fits buf (take len block) 0 (omega (arith, width, room)),
              )
              refl,
        )

  by_block :
      (block : List ℕ)
      → 0 < len
      → un_serialize mama (some dest) (some (other block)) len ≡ fault
      → IsOverread len block
  by_block (kind ∷ version ∷ remaining ∷ wire) some_bytes h =
      elim (Bool-cases (ltb omnm_protocol_version version)) [
        | inl later ↦ absurd (
            ret-ne-fault _ _
              (un_serialize_version mama dest kind version remaining wire len some_bytes
                (ground (arith, later)))
              h)
        | inr readable ↦ elim (Bool-cases (leb len (length (kind ∷ version ∷ remaining ∷ wire)))) [
          | inl inside ↦ absurd (
              ret-ne-fault _ _
                (long_enough kind version remaining wire some_bytes (ground (arith, readable))
                  (ground (arith, inside))).1
                h)
          | inr short ↦ (ground (arith, readable), ground (arith, short))
        ]
      ]
  by_block [] some_bytes h = tt
  by_block (a ∷ []) some_bytes h = tt
  by_block (a ∷ b ∷ []) some_bytes h = tt

  overreads :
      (block : List ℕ)
      → 0 < len
      → IsOverread len block
      → un_serialize mama (some dest) (some (other block)) len ≡ fault
  overreads [] some_bytes over = no_header [] some_bytes (omega arith)
  overreads (a ∷ []) some_bytes over = no_header (a ∷ []) some_bytes (omega arith)
  overreads (a ∷ b ∷ []) some_bytes over = no_header (a ∷ b ∷ []) some_bytes (omega arith)
  overreads (kind ∷ version ∷ remaining ∷ wire) some_bytes (supported, short) =
      too_short kind version remaining wire some_bytes supported short

  -- Where memory is allocated whenever it is asked for, `unSerialize` of `len` bytes of another
  -- block into a message reads outside of that block exactly when `len` is not 0 and the block has
  -- no room for a header, whatever `len` is, or is of a version that this code reads and shorter
  -- than `len`.
  pub un_serialize_overreads :
      (block : List ℕ)
      → (un_serialize mama (some dest) (some (other block)) len ≡ fault)
        ↔ ((0 < len) × IsOverread len block)
  un_serialize_overreads block = elim (Bool-cases (len == 0)) [
    | inl zero ↦ (
      λ h. absurd (ret-ne-fault _ _ (nothing block (ground (arith, zero))) h),
      λ (some_bytes, over). absurd (ground (arith, zero)),
    )
    | inr nonzero ↦
        let some_bytes : 0 < len = ground (arith, nonzero) in
        (
          λ h. (some_bytes, by_block block some_bytes h),
          λ (_, over). overreads block some_bytes over,
        )
  ]
