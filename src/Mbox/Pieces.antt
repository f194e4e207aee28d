-- ===== src/Mbox/Pieces.antt =====
-- The loop of a reader cuts its range of the file into messages.
use libmbox.Base.{
  ℕ, zero, suc, ◌+◌, ◌-◌, ◌*◌, ◌^◌, ◌≤◌, ◌<◌, ◌≡◌, refl, subst, ◌∙◌, ◌⊎◌, inl, inr, true, false,
  List, [], ◌∷◌, some, arith, leb, Bool-cases, length,
}
use libmbox.Base.Outcome.{Outcome, ok}
use libmbox.Buf.Memory.{Allocator}
use libmbox.Buf.Valid.{Grants}
use libmbox.Io.{Os}
use libmbox.Io.Window.{Serves, IsClean}
use libmbox.Mbox.{after_message, read_messages}
use libmbox.Parser.{MboxParserCtx, MboxIoMsg}
use libmbox.Parser.Reader.{IsFrom}
use libmbox.Parser.Reader.Headers.{NoDouble}
use libmbox.Parser.Reader.Next.{get_next_message-NextMessage}
use libmbox.Parser.Reader.Piece.{IsReady, IsPiece, Behind, Unfinished}

-- The messages are pieces of the file that follow on one another from `n` to `e`, and in front of each
-- but the first, and of `e` where some message ends before the last ten bytes, a line with "From " begins.
abbrev pub IsCut : List ℕ → ℕ → List MboxIoMsg → ℕ → Type 0
IsCut file n [] e = n ≡ e
IsCut file n (msg ∷ msgs) e =
    (msg.start_offset ≡ n)
    × IsPiece file msg
    × (IsFrom file (msg.end_offset - 1) ⊎ ((msgs ≡ []) × (length file ≤ msg.end_offset + 10)))
    × IsCut file msg.end_offset msgs e

-- Why the loop stops at `e`: the range is at its end, at most ten bytes of the file are left, there is
-- no "\n\n" in the file from there on, or more than the range has been read and the message that begins
-- at `e` has no end in that.
abbrev pub IsOver : List ℕ → MboxParserCtx → ℕ → MboxParserCtx → Type 0
IsOver file ctx e last =
    (ctx.ioctx.end_offset ≤ e)
    ⊎ (length file ≤ e + 10)
    ⊎ NoDouble file e
    ⊎ ((ctx.ioctx.end_offset < last.ioctx.file_offset) × Unfinished file e last.ioctx.file_offset)

abbrev pub CutsRange : List ℕ → MboxParserCtx → Outcome (List MboxIoMsg × MboxParserCtx) → Type 0
CutsRange file ctx r =
    (msgs : List MboxIoMsg) × (last : MboxParserCtx) × (e : ℕ) × (r ≡ ok (msgs, last))
    × IsCut file ctx.ioctx.offset msgs e
    × IsOver file ctx e last

-- The messages cut the file up from its first byte on, until at most ten bytes are left or there is no
-- "\n\n" in what is left.
abbrev pub CutsFile : List ℕ → Outcome (List MboxIoMsg × MboxParserCtx) → Type 0
CutsFile file r =
    (msgs : List MboxIoMsg) × (last : MboxParserCtx) × (e : ℕ) × (r ≡ ok (msgs, last))
    × IsCut file 0 msgs e
    × ((length file ≤ e + 10) ⊎ NoDouble file e)

-- Where the range is the file, no message is left in it.
pub CutsRange-whole :
    (file : List ℕ) (ctx : MboxParserCtx) (r : Outcome (List MboxIoMsg × MboxParserCtx))
    → ctx.ioctx.offset ≡ 0
    → ctx.ioctx.end_offset ≡ length file
    → CutsRange file ctx r
    → CutsFile file r
CutsRange-whole file ctx r first whole (msgs, last, e, run, cut, over) = (
  msgs,
  last,
  e,
  run,
  subst (λ k. IsCut file k msgs e) first cut,
  elim over [
    | inl ended ↦ inl (omega arith)
    | inr (inl near) ↦ inl near
    | inr (inr (inl none_there)) ↦ inr none_there
    | inr (inr (inr (past, unfinished))) ↦
        let (k, size, j, _, _, _, _, _, inside) = unfinished in absurd (omega arith)
  ],
)

module _ (file : List ℕ) where
  none_lem :
      (ctx next : MboxParserCtx)
      → ((length file ≡ next.ioctx.file_offset) × NoDouble file ctx.ioctx.offset)
        ⊎ ((ctx.ioctx.end_offset < next.ioctx.file_offset)
            × Unfinished file ctx.ioctx.offset next.ioctx.file_offset)
      → NoDouble file ctx.ioctx.offset
        ⊎ ((ctx.ioctx.end_offset < next.ioctx.file_offset)
            × Unfinished file ctx.ioctx.offset next.ioctx.file_offset)
  none_lem ctx next (inl (ended, none_there)) = inl none_there
  none_lem ctx next (inr past) = inr past

  stop_lem :
      (ctx : MboxParserCtx) (r rest : Outcome (List MboxIoMsg × MboxParserCtx)) (msg : MboxIoMsg)
      (next : MboxParserCtx)
      → r ≡ after_message (some msg) next rest
      → next.done ≡ true
      → msg.start_offset ≡ ctx.ioctx.offset
      → IsPiece file msg
      → (IsFrom file (msg.end_offset - 1) × (ctx.ioctx.end_offset ≤ msg.end_offset))
        ⊎ (length file ≤ msg.end_offset + 10)
      → CutsRange file ctx r
  unfolding after_message
  stop_lem ctx r rest msg next run done from piece (inl (mark, over)) =
      (msg ∷ [], next, msg.end_offset, run ∙ rw done refl, (from, piece, inl mark, refl), inl over)
  stop_lem ctx r rest msg next run done from piece (inr left) = (
    msg ∷ [],
    next,
    msg.end_offset,
    run ∙ rw done refl,
    (from, piece, inr (refl, left), refl),
    inr (inl left),
  )

  go_on_lem :
      (ctx : MboxParserCtx) (r rest : Outcome (List MboxIoMsg × MboxParserCtx)) (msg : MboxIoMsg)
      (next : MboxParserCtx)
      → r ≡ after_message (some msg) next rest
      → next.done ≡ false
      → msg.start_offset ≡ ctx.ioctx.offset
      → IsPiece file msg
      → IsFrom file (msg.end_offset - 1)
      → next.ioctx.offset ≡ msg.end_offset
      → next.ioctx.end_offset ≡ ctx.ioctx.end_offset
      → CutsRange file next rest
      → CutsRange file ctx r
  unfolding after_message
  go_on_lem ctx r rest msg next run on from piece mark behind same
        (msgs, last, e, more, cut, over) =
      (
        msg ∷ msgs,
        last,
        e,
        run ∙ rw (on, more) refl,
        (from, piece, inl mark, subst (λ k. IsCut file k msgs e) behind cut),
        subst
            (λ k.
              (k ≤ e)
              ⊎ (length file ≤ e + 10)
              ⊎ NoDouble file e
              ⊎ ((k < last.ioctx.file_offset) × Unfinished file e last.ioctx.file_offset))
            same over,
      )

  -- What follows one call.
  round_lem :
      (ctx : MboxParserCtx) (r rest : Outcome (List MboxIoMsg × MboxParserCtx)) (msg : MboxIoMsg)
      (next : MboxParserCtx)
      → r ≡ after_message (some msg) next rest
      → ctx.done ≡ false
      → msg.start_offset ≡ ctx.ioctx.offset
      → IsPiece file msg
      → Behind file ctx msg next
      → (next.done ≡ false
          → IsReady file msg.start_offset next
          → ctx.ioctx.offset < next.ioctx.offset
          → CutsRange file next rest)
      → CutsRange file ctx r
  round_lem ctx r rest msg next run live from piece (inr (done, left)) later =
      stop_lem ctx r rest msg next run done from piece (inr left)
  round_lem ctx r rest msg next run live from piece (inl (ready, behind, grows, mark, same, done))
        later =
      elim (Bool-cases (leb ctx.ioctx.end_offset msg.end_offset)) [
        | inl over ↦
            stop_lem ctx r rest msg next run (rw over at done) from piece (inl (mark, ground arith))
        | inr inside ↦
            let alive : next.done ≡ false = (rw inside at done) ∙ live in
            go_on_lem ctx r rest msg next run alive from piece mark behind same
              (later alive ready (omega arith))
      ]

-- On a file of fewer than 2 ^ 61 bytes without NUL that `pread` serves, with memory to be had and fuel
-- for twice its length, the loop of a reader ends, where it has more rounds than the file has bytes
-- behind the reader, the reader is not done, its buffer holds the bytes of the file from some place up
-- to where the next read starts, its offset is where the buffer's offset stands in the file, and the
-- end has not been met. Its messages are pieces of the file that follow on one another from the reader's
-- offset on, each with a blank line and behind that no line with "From "; behind each begins such a
-- line, but for a last one that leaves at most ten bytes of the file. They end at the end of the range
-- or behind it, with at most ten bytes of the file left, where there is no "\n\n" in the file any more, or
-- where more than the range has been read, with a blank line behind the place, but behind that no line
-- with "From ", or only one that begins in the last ten bytes read.
pub read_messages-CutsRange :
    (m : Allocator) (rounds fuel : ℕ) (os os' : ℕ → ℕ → Os) (file : List ℕ) (n : ℕ)
    (ctx : MboxParserCtx)
    → Grants m
    → IsClean file
    → length file < 2 ^ 61
    → ((i j : ℕ) → Serves file (os i j))
    → ((i j : ℕ) → Serves file (os' i j))
    → IsReady file n ctx
    → ctx.done ≡ false
    → 2 * length file < fuel
    → length file < ctx.ioctx.offset + rounds
    → CutsRange file ctx (read_messages m rounds fuel os os' ctx)
unfolding read_messages
read_messages-CutsRange m zero fuel os os' file n ctx g clean fit serves serves' ready live enough
      long =
    absurd (omega (arith, ready.place, ready.stands.within, ready.stands.window.inside))
read_messages-CutsRange m (suc rounds) fuel os os' file n ctx g clean fit serves serves' ready live
      enough long =
    let rest : MboxParserCtx → Outcome (List MboxIoMsg × MboxParserCtx) =
      read_messages m rounds fuel os os' in
    elim (get_next_message-NextMessage m g file clean fit fuel (os rounds) (os' rounds) n ctx
      (serves rounds) (serves' rounds) ready enough) [
        | inl (msg, next, run, from, piece, behind) ↦
            round_lem file ctx _ (rest next) msg next (rw run refl) live from piece behind
              (λ alive ready' grows.
                read_messages-CutsRange m rounds fuel os os' file msg.start_offset next g clean fit
                  serves serves' ready' alive enough (omega arith))
        | inr (next, run, kept, why) ↦ (
          [],
          next,
          ctx.ioctx.offset,
          rw (run, after_message) refl,
          refl,
          inr (inr (none_lem file ctx next why)),
        )
      ]
