-- ===== src/Mbox/Single.antt =====
-- One reader for the whole file, from the choice of its range to its messages.
use libmbox.Base.{
  ℕ, suc, ◌+◌, ◌*◌, ◌/◌, ◌^◌, ◌≤◌, ◌<◌, ◌≡◌, refl, ap, ◌∙◌, inl, inr, true, false, List, [], ◌∷◌,
  some, arith, leb, lt→ltb, ◌==◌, length, byte_at, take, length-take, get_or-take,
}
use libmbox.Base.Outcome.{ok}
use libmbox.Buf.{MboxBuf, alloc}
use libmbox.Buf.Memory.{Allocator, malloc, length-malloc}
use libmbox.Buf.Valid.{Grants, IsRoomy}
use libmbox.Io.{Os, io_read_size, io_new}
use libmbox.Io.Window.{Serves, IsClean}
use libmbox.Mbox.{set_all_offsets, sought, init_ctx, bookend, non_empty, read_messages}
use libmbox.Mbox.Pieces.{CutsFile, CutsRange-whole, read_messages-CutsRange}
use libmbox.Parser.{MboxParserCtx, parser_ctx_new, find_from, seek_start}
use libmbox.Parser.Reader.{match_bytes-decides}
use libmbox.Parser.Reader.Piece.{IsReady}
use libmbox.Parser.Reader.Start.{StartsAt, io_read-Front, after_read}
use libmbox.Parser.Scan.{from_line}
use libmbox.Parser.SeekStart.{mark_byte}

-- The file starts with "From ".
abbrev pub StartsWithFrom : List ℕ → Type 0
StartsWithFrom file = (k : ℕ) → k < 5 → byte_at file k ≡ byte_at from_line k

-- The search at the front of the file finds its first byte.
find_from_first :
    (fuel : ℕ) (b : MboxBuf)
    → 5 ≤ b.len
    → b.len < length b.block
    → byte_at b.block b.len ≡ 0
    → ((k : ℕ) → k < 5 → byte_at b.block k ≡ byte_at from_line k)
    → find_from (suc fuel) b true 0 ≡ ok (some 0)
unfolding find_from
find_from_first fuel b enough room nul same =
    elim (match_bytes-decides b.block b.len 0 from_line room nul
      (λ k lt. mark_byte (suc k) (omega arith)) (omega arith)) [
        | inl (run, _, _) ↦ rw (lt→ltb 0 b.len (omega arith), run) refl
        | inr (_, none_here) ↦ absurd (
            none_here
              (λ k lt. let e : 0 + k ≡ k = omega arith in ap (byte_at b.block) e ∙ same k lt))
      ]

pub alloc-IsRoomy : (m : Allocator) → IsRoomy (alloc m io_read_size)
unfolding alloc
alloc-IsRoomy m =
    let size : length (malloc m 300010) ≡ 300010 = length-malloc m 300010 in
    record {
      valid = record {
        room = omega arith;
        fits = omega arith;
        held = omega arith;
        small = omega arith;
      };
      spare = omega arith;
    }

-- The search for the start of a range at the front of a file that starts with "From ".
pub seek_start_first :
    (m : Allocator) (file : List ℕ) (fuel : ℕ) (os : ℕ → Os) (ctx : MboxParserCtx)
    → Grants m
    → StartsWithFrom file
    → 5 ≤ length file
    → (os fuel).pread io_read_size 0 ≡ some (take io_read_size file)
    → IsRoomy ctx.ioctx.buf
    → ctx.ioctx.buf.len ≡ 0
    → ctx.ioctx.buf.capacity ≡ 300010
    → ctx.ioctx.file_offset ≡ 0
    → StartsAt file 0 ctx (seek_start m (suc fuel) os ctx)
seek_start_first m file fuel os ctx g starts long whole roomy none_yet cap front =
    let d = take io_read_size file in
    let size : length d ≡ _ = length-take io_read_size file in
    let (b, run, holds) =
      io_read-Front m (os fuel) ctx.ioctx 0 d g whole (omega (arith, size)) (omega (arith, size))
        roomy none_yet cap in
    let plain : b.len + 1 ≡ suc b.len = omega arith in
    let found : find_from (b.len + 1) b true 0 ≡ ok (some 0) =
      ap (λ k. find_from k b true 0) plain
      ∙ find_from_first b.len b (omega (arith, size, holds.len)) holds.roomy.valid.held holds.nul
          (λ k lt.
            holds.same k (omega (arith, size))
            ∙ get_or-take io_read_size k file 0 (omega arith)
            ∙ starts k lt) in
    after_read m file d fuel os ctx 0 0 true b (omega arith) (ap (λ i. i == 0) front) run
      (omega (arith, size)) found holds (omega arith)

module _ (m : Allocator) (g : Grants m) (file : List ℕ) (clean : IsClean file)
    (fit : length file < 2 ^ 61) (starts : StartsWithFrom file) (long : 5 ≤ length file) where
  -- The one context, before and behind the search.
  chosen :
      (fuel : ℕ) (os : ℕ → ℕ → Os)
      → StartsAt file 0
          (init_ctx m 0 (length file / 1) (length file))
          (seek_start m (suc fuel) (os 0) (init_ctx m 0 (length file / 1) (length file)))
      → (ctx : MboxParserCtx) × (set_all_offsets m (suc fuel) os 1 (length file) ≡ ok (ctx ∷ []))
        × IsReady file 0 ctx
        × (ctx.ioctx.offset ≡ 0)
        × (ctx.ioctx.end_offset ≡ length file)
        × (ctx.done ≡ false)
  unfolding set_all_offsets sought bookend non_empty init_ctx parser_ctx_new io_new
  chosen fuel os (io, run, s, none_yet, start, size, _) =
      let w = s.window in
      let some_left : leb io.file_size io.start_offset ≡ false = ground arith in
      (
        record {
          id = 0;
          done = false;
          parsed = 0;
          ioctx = record io { end_offset = io.file_size; offset = io.start_offset };
        },
        rw (run, some_left) refl,
        record {
          stands = record {
            window = record {
              same = w.same;
              nul = w.nul;
              place = w.place;
              inside = w.inside;
              roomy = w.roomy;
              cap = w.cap;
            };
            within = s.within;
            live = s.live;
          };
          place = omega arith;
        },
        start,
        size,
        refl,
      )

  -- A file of fewer than 2 ^ 61 bytes, at least five, without NUL, that starts with "From ", read by
  -- one reader: where every `pread` gives some bytes of the file, and the first one as many as asked
  -- for or all that are there, and memory is to be had, the code gives the reader the whole file as
  -- its range, and the reader's loop ends, with messages that are pieces of the file, follow on one
  -- another from its first byte on, each with a blank line and behind that no line with "From "; behind
  -- each begins such a line, but for a last one that leaves at most ten bytes of the file. They end with
  -- at most ten bytes of the file left, or where there is no "\n\n" in the file any more.
  pub one_reader-CutsFile :
      (rounds fuel fuel' : ℕ) (os os' os'' : ℕ → ℕ → Os)
      → (os 0 fuel').pread io_read_size 0 ≡ some (take io_read_size file)
      → ((i j : ℕ) → Serves file (os' i j))
      → ((i j : ℕ) → Serves file (os'' i j))
      → 2 * length file < fuel
      → length file < rounds
      → (ctx : MboxParserCtx) × (set_all_offsets m (suc fuel') os 1 (length file) ≡ ok (ctx ∷ []))
        × (ctx.ioctx.offset ≡ 0)
        × (ctx.ioctx.end_offset ≡ length file)
        × CutsFile file (read_messages m rounds fuel os' os'' ctx)
  unfolding init_ctx parser_ctx_new io_new
  one_reader-CutsFile rounds fuel fuel' os os' os'' whole serves serves' enough long_enough =
      let (ctx, run, ready, start, last, live) = chosen fuel' os (
        seek_start_first m file fuel' (os 0) (init_ctx m 0 (length file / 1) (length file)) g starts
          long whole (alloc-IsRoomy m) refl refl (omega arith)) in
      (
        ctx,
        run,
        start,
        last,
        CutsRange-whole file ctx (read_messages m rounds fuel os' os'' ctx) start last (
            read_messages-CutsRange m rounds fuel os' os'' file 0 ctx g clean fit serves serves'
              ready live enough (omega arith)),
      )
