-- ===== src/Parser/Reader/Piece.antt =====
-- The messages of a reader as pieces of its file, and what a call for one of them gives.
use libmbox.Base.{
  ℕ, ◌+◌, ◌-◌, ◌≤◌, ◌<◌, ◌≡◌, refl, sym, ◌∙◌, ◌⊎◌, Bool, true, false, List, Option, none, some,
  arith, leb, ◌||◌, if◌then◌else◌, length, byte_at, take, drop, length-drop,
}
use libmbox.Base.Outcome.{Outcome, ok}
use libmbox.Buf.{MboxBuf}
use libmbox.Buf.Valid.{IsValid, text}
use libmbox.Io.{MboxIoCtx}
use libmbox.Io.Window.{get_or-drop}
use libmbox.Parser.{MboxParserCtx, MboxIoMsg}
use libmbox.Parser.Reader.{Stands, IsFrom, FromFree}
use libmbox.Parser.Reader.Headers.{NoDouble}
use libmbox.Parser.Reader.Slide.{take_same}
use libmbox.Parser.Scan.Text.{IsBlank}

-- The reader holds a window of the file, and `offset` says where in the file the buffer's offset is.
pub record IsReady (file : List ℕ) (n : ℕ) (ctx : MboxParserCtx) : Type 0 where
  pub stands : Stands file n ctx.ioctx
  pub place : ctx.ioctx.offset ≡ n + ctx.ioctx.buf.offset

-- The message is the piece of the file between its two places. A blank line stands in it, and behind
-- that one no line that starts with "From ".
pub record IsPiece (file : List ℕ) (msg : MboxIoMsg) : Type 0 where
  pub size : msg.end_offset ≡ msg.start_offset + msg.buf.len
  pub inside : msg.end_offset ≤ length file
  pub bytes : text msg.buf ≡ take msg.buf.len (drop msg.start_offset file)
  pub valid : IsValid msg.buf
  pub blank :
      (k : ℕ) × (size : ℕ) × (msg.start_offset ≤ k)
      × IsBlank file k size
      × (k + size ≤ msg.end_offset)
      × FromFree file (k + size) (msg.end_offset - 1)

-- Behind the message a line starts with "From ", and the reader is ready for it; or the reader is done,
-- and at most ten bytes of the file are left.
abbrev pub Behind : List ℕ → (before : MboxParserCtx) → MboxIoMsg → MboxParserCtx → Type 0
Behind file before msg next =
    (IsReady file msg.start_offset next
      × (next.ioctx.offset ≡ msg.end_offset)
      × (msg.start_offset < msg.end_offset)
      × IsFrom file (msg.end_offset - 1)
      × (next.ioctx.end_offset ≡ before.ioctx.end_offset)
      × (next.done ≡ (if leb before.ioctx.end_offset msg.end_offset then true else before.done)))
    ⊎ ((next.done ≡ true) × (length file ≤ msg.end_offset + 10))

-- There is a blank line from `i` on, and no line with "From " behind it but in the last ten bytes before
-- `e`.
abbrev pub Unfinished : List ℕ → (i e : ℕ) → Type 0
Unfinished file i e =
    (k : ℕ) × (size : ℕ) × (j : ℕ) × (i ≤ k)
    × IsBlank file k size
    × (k + size ≤ j)
    × FromFree file (k + size) j
    × (e ≤ j + 10)
    × (e ≤ length file)

-- What the call returns.
abbrev pub NextMessage :
    List ℕ → MboxParserCtx → Outcome (Option MboxIoMsg × MboxParserCtx) → Type 0
NextMessage file ctx r =
    ((msg : MboxIoMsg) × (next : MboxParserCtx) × (r ≡ ok (some msg, next))
      × (msg.start_offset ≡ ctx.ioctx.offset)
      × IsPiece file msg
      × Behind file ctx msg next)
    ⊎ ((next : MboxParserCtx) × (r ≡ ok (none, next))
        × (next.ioctx.offset ≡ ctx.ioctx.offset)
        × (((length file ≡ next.ioctx.file_offset) × NoDouble file ctx.ioctx.offset)
            ⊎ ((ctx.ioctx.end_offset < next.ioctx.file_offset)
                × Unfinished file ctx.ioctx.offset next.ioctx.file_offset)))

module _ (file : List ℕ) (n : ℕ) (io : MboxIoCtx) (s : Stands file n io) where
  -- The place in the file is none of what the window is about.
  pub placed-Stands : (k : ℕ) → Stands file n (record io { offset = k })
  placed-Stands k =
      let w = s.window in
      record {
        window = record {
          same = w.same;
          nul = w.nul;
          place = w.place;
          inside = w.inside;
          roomy = w.roomy;
          cap = w.cap;
        };
        within = s.within;
        live = s.live;
      }

-- The bytes in front of the offset, as a piece of the file.
pub piece_bytes :
    (file : List ℕ) (n : ℕ) (b : MboxBuf)
    → ((i : ℕ) → i < b.len → byte_at b.block i ≡ byte_at file (n + i))
    → b.offset ≤ b.len
    → b.len < length b.block
    → n + b.offset ≤ length file
    → take b.offset b.block ≡ take b.offset (drop n file)
piece_bytes file n b same le room inside =
    take_same b.offset b.block (drop n file) (omega arith) (omega (arith, length-drop n file))
      (λ i lt. same i (omega arith) ∙ sym (get_or-drop n file i))

pub done_alive : (t e d : Bool) → e ≡ false → (if t || e then true else d) ≡ (if t then true else d)
done_alive true e d alive = refl
done_alive false e d alive = rw alive refl
