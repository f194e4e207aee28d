-- ===== src/Buf/Split.antt =====
-- src/mbox-buf.c: `mboxBufSplit`, with the size of its array of pointers in bytes.
use libmbox.Base.{
  ℕ, zero, suc, ◌+◌, ◌-◌, ◌*◌, ◌≤◌, ◌<◌, ◌≡◌, refl, List, [], ◌∷◌, ◌++◌, arith, ltb, leb, ◌==◌,
  if◌then◌else◌, inl, inr, Bool-cases, length, ne→==, take, drop, length-take, length-drop, subst,
  ◌^◌,
}
use libmbox.Base.Outcome.{Outcome, ok, fault, ◌>>=◌}
use libmbox.Buf.{MboxBuf, dup_raw}
use libmbox.Buf.CString.{IsCString, IsCString-fits}
use libmbox.Buf.Copy.{dup_raw-text}
use libmbox.Buf.Memory.{Allocator, read, read-ok, fetch, fetch-ok}

-- The array: how many bytes it has, and the pieces that have been put into it.
pub record Pieces : Type 0 where
  pub bytes : ℕ
  pub pieces : List MboxBuf

-- `outArr[arrsize] = piece; arrsize++;`; a pointer has 8 bytes.
unfoldable pub put_piece : Pieces → MboxBuf → Outcome Pieces
put_piece out piece =
    if leb ((length out.pieces + 1) * 8) out.bytes
    then ok (record out { pieces = out.pieces ++ piece ∷ [] })
    else fault

-- A piece of the text: the bytes from `start` to `end`.
unfoldable pub piece_of : Allocator → List ℕ → ℕ → ℕ → Outcome MboxBuf
piece_of m block start end = do s ← fetch block start (end - start); dup_raw m s (end - start)

-- The loop; `ptr` is `to_split + end`. A struct of a buffer has 32 bytes; `realloc` succeeds.
unfoldable pub split_loop :
    Allocator → List ℕ → ℕ → ℕ → (memslot start end : ℕ) → Pieces → Outcome Pieces
unfolding put_piece piece_of
split_loop m block delimiter zero memslot start end out = fault
split_loop m block delimiter (suc left) memslot start end out = do
  c ← read block end
  let last = (do piece ← piece_of m block start end; put_piece out piece)
  let tight = ltb memslot (length out.pieces + 5)
  let memslot' = if tight then memslot * 5 else memslot
  let out' = if tight then record out { bytes = 32 * (memslot * 5) } else out
  let cut = (do
    piece ← piece_of m block start end
    out₂ ← put_piece out' piece
    split_loop m block delimiter left memslot' (end + 1) (end + 1) out₂)
  let on = split_loop m block delimiter left memslot' start (end + 1) out'
  if c == 0 then last else if c == delimiter then cut else on

-- The text starts at index 0 of the block; a delimiter in front is passed over.
unfoldable pub split : Allocator → List ℕ → ℕ → Outcome (List MboxBuf)
unfolding split_loop
split m block delimiter = do
  c ← read block 0
  let first : ℕ = if c == delimiter then 1 else 0
  out ←
      split_loop m block delimiter (length block + 1) 5 first first
        (record { bytes = 5; pieces = [] })
  ok out.pieces

no_room : (piece : MboxBuf) → put_piece (record { bytes = 5; pieces = [] }) piece ≡ fault
unfolding put_piece
no_room piece = refl

piece_of-ok :
    (m : Allocator) (block : List ℕ) (start end : ℕ)
    → length block < 2 ^ 63
    → start ≤ end
    → end ≤ length block
    → (piece : MboxBuf) × (piece_of m block start end ≡ ok piece)
unfolding piece_of
piece_of-ok m block start end small le fits =
    let s = take (end - start) (drop start block) in
    let size : length s ≡ end - start =
      omega (arith, length-take (end - start) (drop start block), length-drop start block) in
    let (piece, run, _) = dup_raw-text m s (end - start) (omega arith) (omega arith) in
    (piece, rw (fetch-ok block start (end - start) (omega arith)) run)

-- With no room for a pointer the first piece is too much.
no_room-put :
    (m : Allocator) (block : List ℕ) (start end : ℕ)
    → length block < 2 ^ 63
    → start ≤ end
    → end ≤ length block
    → (k : Pieces → Outcome Pieces)
    → (piece_of m block start end >>= λ piece.
        put_piece (record { bytes = 5; pieces = [] }) piece >>= k)
      ≡ fault
no_room-put m block start end small le fits k =
    let (piece, run) = piece_of-ok m block start end small le fits in rw (run, no_room piece) refl

split_loop_faults :
    (m : Allocator) (block : List ℕ) (delimiter : ℕ) (s : List ℕ) (left start end : ℕ)
    → length block < 2 ^ 63
    → IsCString block end s
    → start ≤ end
    → length s < left
    → split_loop m block delimiter left 5 start end (record { bytes = 5; pieces = [] }) ≡ fault
unfolding split_loop
split_loop_faults m block delimiter s zero start end small at_end le lt = absurd (omega arith)
split_loop_faults m block delimiter [] (suc left) start end small (in_block, nul) le lt =
    rw (read-ok block end in_block, nul) (no_room-put m block start end small le (omega arith) ok)
split_loop_faults m block delimiter (c ∷ cs) (suc left) start end small
      (in_block, at_end, ne, after) le lt =
    rw (read-ok block end in_block, at_end, ne→== c 0 ne)
      (elim (Bool-cases (c == delimiter)) [
        | inl e ↦ rw e (
            no_room-put m block start end small le (omega arith)
              (λ out. split_loop m block delimiter left 5 (end + 1) (end + 1) out))
        | inr e ↦ rw e (
            split_loop_faults m block delimiter cs left start (end + 1) small after (omega arith)
              (omega arith))
      ])

-- `mboxBufSplit` of any C string that is not empty, with any delimiter, writes its first piece
-- out of bounds: its array has five bytes, and a pointer eight.
pub split_faults :
    (m : Allocator) (block : List ℕ) (delimiter : ℕ) (c : ℕ) (s : List ℕ)
    → length block < 2 ^ 63
    → IsCString block 0 (c ∷ s)
    → split m block delimiter ≡ fault
unfolding split
split_faults m block delimiter c s small (in_block, at_0, ne, after) =
    let size = IsCString-fits block s (0 + 1) after in
    let whole : IsCString block 0 (c ∷ s) = (in_block, at_0, ne, after) in
    rw (read-ok block 0 in_block, at_0)
      (elim (Bool-cases (c == delimiter)) [
        | inl e ↦
            rw
              (
                e,
                split_loop_faults m block delimiter s (length block + 1) 1 1 small
                    (subst (λ k. IsCString block k s) (omega arith) after) (omega arith)
                    (omega arith),
              )
              refl
        | inr e ↦
            rw
              (
                e,
                split_loop_faults m block delimiter (c ∷ s) (length block + 1) 0 0 small whole
                    (omega arith) (omega arith),
              )
              refl
      ])
