-- ===== src/Blocks.antt =====
-- The loops of src/Payload.cpp that fill `mField.mBuffer` with one block after the other.
use open_mama_omnm.Prelude.{
  ℕ, ◌+◌, ◌≤◌, ◌≡◌, refl, ap, List, [], ◌∷◌, ◌++◌, append_assoc, append-nil, some, length, drop,
  length-append, length-drop, drop-drop, arith,
}
use mathlib.Core.Path.{ap₂}
use open_mama_omnm.Mama.{Mama}
use open_mama_omnm.Memory.{Run, ret, ◌>>=◌, write}
use open_mama_omnm.Memory.Laws.{write_extends}
use open_mama_omnm.Message.{OmnmPayloadImpl}
use open_mama_omnm.Payload.{grow}
use open_mama_omnm.Payload.Add.{grow_keeps}

-- The copies of the blocks from `target` on.
unfoldable pub copy_blocks : List ℕ → ℕ → List (List ℕ) → Run (List ℕ)
copy_blocks buf target [] = ret buf
copy_blocks buf target (b ∷ bs) = do
  buf ← write buf target b
  copy_blocks buf (target + length b) bs

unfoldable pub flatten : List (List ℕ) → List ℕ
flatten [] = []
flatten (b ∷ bs) = b ++ flatten bs

-- The message with the blocks at the front of `mField.mBuffer`, which is grown to `size`.
unfoldable pub gather : Mama → OmnmPayloadImpl → ℕ → List (List ℕ) → Run OmnmPayloadImpl
gather mama msg size blocks = do
  buf ← copy_blocks (grow mama msg.scratch size) 0 blocks
  ret (record msg { scratch = buf })

copy_blocks-flatten :
    (pre rest : List ℕ) (p : ℕ) (bs : List (List ℕ))
    → p ≡ length pre
    → length (flatten bs) ≤ length rest
    → copy_blocks (pre ++ rest) p bs ≡ ret ((pre ++ flatten bs) ++ drop (length (flatten bs)) rest)
unfolding copy_blocks flatten
copy_blocks-flatten pre rest p [] h room = rw append-nil
copy_blocks-flatten pre rest p (b ∷ bs) h room =
    rw
      (
        write_extends pre rest b p h (omega (arith, length-append b (flatten bs))),
        copy_blocks-flatten (pre ++ b) (drop (length b) rest) (p + length b) bs
            (omega (arith, length-append pre b))
            (omega (arith, length-append b (flatten bs), length-drop (length b) rest)),
      )
      (ap ret (
        ap₂ ◌++◌ (simp append_assoc) (
          drop-drop (length b) (length (flatten bs)) _ rest
            (omega (arith, length-append b (flatten bs))))))

-- Where the memory is allocated, the blocks stand at the front of the scratch buffer.
pub gather-flatten :
    (mama : Mama) (msg : OmnmPayloadImpl) (size : ℕ) (blocks : List (List ℕ)) (grown : List ℕ)
    → size ≡ length (flatten blocks)
    → mama.allocate msg.scratch size ≡ some grown
    → (extra : List ℕ) × (gather mama msg size blocks
        ≡ ret (record msg { scratch = flatten blocks ++ extra }))
unfolding gather
gather-flatten mama msg size blocks grown h memory =
    let (more, same, big, _) = grow_keeps mama msg.scratch [] msg.scratch grown size refl memory in
    (
      drop (length (flatten blocks)) more,
      rw (same, copy_blocks-flatten [] more 0 blocks refl (omega (arith, big, h))) refl,
    )
