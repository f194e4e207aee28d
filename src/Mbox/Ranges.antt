-- ===== src/Mbox/Ranges.antt =====
-- The ranges of the contexts cover the file without a gap and without an overlap.
use libmbox.Base.{
  ℕ, suc, ◌+◌, ◌/◌, ◌≤◌, ◌<◌, ◌≡◌, refl, List, [], ◌∷◌, arith, leb, Bool-cases, inl, inr,
}
use libmbox.Base.Outcome.{ok}
use libmbox.Buf.Memory.{Allocator}
use libmbox.Io.{Os}
use libmbox.Mbox.{range_start, sought, bookend, non_empty, set_all_offsets}
use libmbox.Parser.{MboxParserCtx}

-- The contexts have the numbers from `n` on and ranges that are not empty; one ends where the next one
-- starts, the first starts at `a` and the last ends at `b`.
abbrev pub Tiles : ℕ → (a b : ℕ) → List MboxParserCtx → Type 0
Tiles n a b [] = a ≡ b
Tiles n a b (ctx ∷ rest) =
    (ctx.id ≡ n)
    × (range_start ctx ≡ a)
    × (a < ctx.ioctx.end_offset)
    × Tiles (n + 1) (ctx.ioctx.end_offset) b rest

-- The starts that were found are in order and within the file.
abbrev pub IsOrdered : ℕ → List MboxParserCtx → Type 0
IsOrdered file_size [] = Unit {0}
IsOrdered file_size (ctx ∷ []) = (range_start ctx ≤ file_size) × (ctx.ioctx.file_size ≡ file_size)
IsOrdered file_size (ctx ∷ next ∷ rest) =
    (range_start ctx ≤ range_start next) × IsOrdered file_size (next ∷ rest)

IsOrdered-offset :
    (file_size : ℕ) (next : MboxParserCtx) (rest : List MboxParserCtx)
    → IsOrdered file_size (next ∷ rest)
    → IsOrdered file_size
        (record next { ioctx = record next.ioctx { offset = range_start next } } ∷ rest)
IsOrdered-offset file_size next [] h = h
IsOrdered-offset file_size next (x ∷ rest) h = h

non_empty-Tiles :
    (n file_size a : ℕ) (ctx : MboxParserCtx) (rest : List MboxParserCtx)
    → IsOrdered file_size (ctx ∷ rest)
    → range_start ctx ≡ a
    → Tiles n a file_size (non_empty n (bookend (ctx ∷ rest)))
unfolding bookend non_empty
non_empty-Tiles n file_size a ctx [] (le, size) at =
    elim (Bool-cases (leb ctx.ioctx.file_size (range_start ctx))) [
      | inl e ↦ rw e (ground arith)
      | inr e ↦ rw e (refl, at, ground arith, size)
    ]
non_empty-Tiles n file_size a ctx (next ∷ rest) (le, more) at =
    elim (Bool-cases (leb (range_start next) (range_start ctx))) [
      | inl e ↦ rw e (
          non_empty-Tiles n file_size a
            (record next { ioctx = record next.ioctx { offset = range_start next } }) rest
            (IsOrdered-offset file_size next rest more) (ground arith))
      | inr e ↦ rw e (
        refl,
        at,
        ground arith,
        non_empty-Tiles (n + 1) file_size (range_start next)
            (record next { ioctx = record next.ioctx { offset = range_start next } }) rest
            (IsOrdered-offset file_size next rest more) refl,
      )
    ]

-- Where `mboxSetAllOffsets`, for at least one thread, has found the starts of its contexts, in order and within the file,
-- the contexts that it leaves are numbered from 0 on, none has an empty range, and the ranges follow on
-- one another without gap and overlap, from the start of the first context to the end of the file.
pub set_all_offsets-Tiles :
    (m : Allocator) (fuel : ℕ) (os : ℕ → ℕ → Os) (n file_size : ℕ) (ctx : MboxParserCtx)
    (rest : List MboxParserCtx)
    → sought m fuel os 0 (suc n) (file_size / suc n) file_size ≡ ok (ctx ∷ rest)
    → IsOrdered file_size (ctx ∷ rest)
    → (cs : List MboxParserCtx) × (set_all_offsets m fuel os (suc n) file_size ≡ ok cs)
      × Tiles 0 (range_start ctx) file_size cs
unfolding set_all_offsets
set_all_offsets-Tiles m fuel os n file_size ctx rest found ordered = (
  non_empty 0 (bookend (ctx ∷ rest)),
  rw found refl,
  non_empty-Tiles 0 file_size (range_start ctx) ctx rest ordered refl,
)
