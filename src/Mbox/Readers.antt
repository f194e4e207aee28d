-- ===== src/Mbox/Readers.antt =====
-- Several readers for one file, from the choice of their ranges to their messages.
use libmbox.Base.{
  ℕ, zero, suc, ◌+◌, ◌-◌, ◌*◌, ◌/◌, ◌^◌, ◌≤◌, ◌<◌, ◌≡◌, refl, sym, subst, false, Bool-cases, inl,
  inr, List, [], ◌∷◌, some, arith, leb, length, take, drop,
}
use libmbox.Base.Outcome.{ok}
use libmbox.Buf.Memory.{Allocator}
use libmbox.Buf.Valid.{Grants}
use libmbox.Io.{Os, io_read_size, io_new}
use libmbox.Io.Window.{Serves, IsClean}
use libmbox.Mbox.{set_all_offsets, sought, init_ctx, bookend, non_empty, range_start, read_messages}
use libmbox.Mbox.Pieces.{CutsRange, read_messages-CutsRange}
use libmbox.Mbox.Single.{StartsWithFrom, alloc-IsRoomy, seek_start_first}
use libmbox.Parser.{MboxParserCtx, parser_ctx_new, seek_start}
use libmbox.Parser.Reader.{Stands, IsFrom}
use libmbox.Parser.Reader.Piece.{IsReady, placed-Stands}
use libmbox.Parser.Reader.Start.{seek_start-StartsAt}

-- In the bytes of one read that starts `io_read_size` bytes before place `q`, or at the front of the
-- file, a line with "From " begins.
abbrev pub IsMarked : List ℕ → ℕ → Type 0
IsMarked file q =
    (p : ℕ) × (q - io_read_size ≤ p)
    × (p + 6 ≤ q - io_read_size + io_read_size)
    × (p + 6 ≤ length file)
    × IsFrom file p

-- A reader that holds an empty window at its start.
record IsStarted (file : List ℕ) (c : MboxParserCtx) : Type 0 where
  pub stands : Stands file (range_start c) c.ioctx
  pub none_yet : c.ioctx.buf.offset ≡ 0
  pub live : c.done ≡ false

-- It is ready to read.
pub record IsReader (file : List ℕ) (c : MboxParserCtx) : Type 0 where
  pub ready : IsReady file (range_start c) c
  pub live : c.done ≡ false

abbrev pub All : (MboxParserCtx → Type 0) → List MboxParserCtx → Type 0
All P [] = Unit
All P (c ∷ cs) = P c × All P cs

module _ (file : List ℕ) where
  -- The end of a range and the number of a reader are none of what it holds.
  bookend-IsReader :
      (c : MboxParserCtx) (end : ℕ)
      → IsStarted file c
      → c.ioctx.offset ≡ range_start c
      → IsReader file (record c { ioctx = record c.ioctx { end_offset = end } })
  bookend-IsReader c end s at_start =
      let w = s.stands.window in
      record {
        ready = record {
          stands = record {
            window = record {
              same = w.same;
              nul = w.nul;
              place = w.place;
              inside = w.inside;
              roomy = w.roomy;
              cap = w.cap;
            };
            within = s.stands.within;
            live = s.stands.live;
          };
          place = omega (arith, s.none_yet);
        };
        live = s.live;
      }

  moved-IsStarted :
      (c : MboxParserCtx) (k : ℕ)
      → IsStarted file c
      → IsStarted file (record c { ioctx = record c.ioctx { offset = k } })
  moved-IsStarted c k s = record {
    stands = placed-Stands file (range_start c) c.ioctx s.stands k;
    none_yet = s.none_yet;
    live = s.live;
  }

  numbered-IsReader :
      (c : MboxParserCtx) (k : ℕ) → IsReader file c → IsReader file (record c { id = k })
  numbered-IsReader c k r = record {
    ready = record { stands = r.ready.stands; place = r.ready.place };
    live = r.live;
  }

  bookend-All :
      (c : MboxParserCtx) (cs : List MboxParserCtx)
      → IsStarted file c
      → c.ioctx.offset ≡ range_start c
      → All (IsStarted file) cs
      → All (IsReader file) (bookend (c ∷ cs))
  unfolding bookend
  bookend-All c [] s at_start all = (
    bookend-IsReader (record c { ioctx = record c.ioctx { offset = range_start c } })
        c.ioctx.file_size (moved-IsStarted c (range_start c) s) refl,
    tt,
  )
  bookend-All c (next ∷ rest) s at_start (s', all) = (
    bookend-IsReader c (range_start next) s at_start,
    bookend-All (record next { ioctx = record next.ioctx { offset = range_start next } }) rest
        (moved-IsStarted next (range_start next) s') refl all,
  )

  non_empty-All :
      (k : ℕ) (cs : List MboxParserCtx)
      → All (IsReader file) cs
      → All (IsReader file) (non_empty k cs)
  unfolding non_empty
  non_empty-All k [] all = tt
  non_empty-All k (c ∷ cs) (r, all) = elim (Bool-cases (leb c.ioctx.end_offset (range_start c))) [
    | inl skip ↦ rw skip (non_empty-All k cs all)
    | inr keep ↦ rw keep (numbered-IsReader c k r, non_empty-All (k + 1) cs all)
  ]

module _ (m : Allocator) (g : Grants m) (file : List ℕ) (starts : StartsWithFrom file)
    (long : 5 ≤ length file) (fit : length file < 2 ^ 61) (os : ℕ → ℕ → Os)
    (whole : (i j place : ℕ)
      → (os i j).pread io_read_size place ≡ some (take io_read_size (drop place file))) where
  -- The reader of a range that begins behind the front of the file.
  later_lem :
      (fuel i chunk : ℕ)
      → 0 < i * chunk
      → IsMarked file (i * chunk)
      → (c : MboxParserCtx) × (seek_start m (suc fuel) (os i) (init_ctx m i chunk (length file))
          ≡ ok c)
        × IsStarted file c
  unfolding init_ctx parser_ctx_new io_new
  later_lem fuel i chunk pos (p, low, high, fits, mark) =
      let ctx = init_ctx m i chunk (length file) in
      let (start, _, _, _, (io, run, s, none_yet, at, _, _)) =
        seek_start-StartsAt m file fuel (os i) ctx (i * chunk - io_read_size) p g refl
          (λ e. absurd (omega arith)) (whole i fuel (i * chunk - io_read_size)) (alloc-IsRoomy m)
          refl refl low high fits mark in
      (
        record ctx { ioctx = io },
        run,
        record {
          stands = subst (λ k. Stands file k io) (sym at) s;
          none_yet = none_yet;
          live = refl;
        },
      )

  sought-All :
      (fuel i left chunk : ℕ)
      → ((k : ℕ) → i ≤ k → k < i + left → (0 < k * chunk) × IsMarked file (k * chunk))
      → (cs : List MboxParserCtx) × (sought m (suc fuel) os i left chunk (length file) ≡ ok cs)
        × All (IsStarted file) cs
  unfolding sought
  sought-All fuel i zero chunk marks = ([], refl, tt)
  sought-All fuel i (suc left) chunk marks =
      let (pos, marked) = marks i (omega arith) (omega arith) in
      let (c, run, s) = later_lem fuel i chunk pos marked in
      let (cs, rest, all) =
        sought-All fuel (i + 1) left chunk (λ k ge lt. marks k (omega arith) (omega arith)) in
      (c ∷ cs, rw (run, rest) refl, (s, all))

  -- The contexts of all ranges.
  all_lem :
      (fuel n : ℕ)
      → ((k : ℕ)
          → 1 ≤ k
          → k < suc n
          → (0 < k * (length file / suc n)) × IsMarked file (k * (length file / suc n)))
      → (cs : List MboxParserCtx) × (set_all_offsets m (suc fuel) os (suc n) (length file) ≡ ok cs)
        × All (IsReader file) cs
  unfolding set_all_offsets sought init_ctx parser_ctx_new io_new
  all_lem fuel n marks =
      let chunk = length file / suc n in
      let ctx = init_ctx m 0 chunk (length file) in
      let (io, run, s, none_yet, at, _, kept) =
        seek_start_first m file fuel (os 0) ctx g starts long (whole 0 fuel 0) (alloc-IsRoomy m)
          refl refl (omega arith) in
      let (cs, rest, all) = sought-All fuel 1 n chunk (λ k ge lt. marks k ge (omega arith)) in
      let c : MboxParserCtx = record ctx { ioctx = io } in
      let first : IsStarted file c = record {
        stands = subst (λ k. Stands file k io) (sym at) s;
        none_yet = none_yet;
        live = refl;
      } in
      (
        non_empty 0 (bookend (c ∷ cs)),
        rw (run, rest) refl,
        non_empty-All file 0 (bookend (c ∷ cs)) (bookend-All file c cs first (omega arith) all),
      )

  cut-All :
      (rounds fuel : ℕ) (os' os'' : ℕ → ℕ → Os) (cs : List MboxParserCtx)
      → IsClean file
      → ((i j : ℕ) → Serves file (os' i j))
      → ((i j : ℕ) → Serves file (os'' i j))
      → 2 * length file < fuel
      → length file < rounds
      → All (IsReader file) cs
      → All (λ c. CutsRange file c (read_messages m rounds fuel os' os'' c)) cs
  cut-All rounds fuel os' os'' [] clean serves serves' enough many all = tt
  cut-All rounds fuel os' os'' (c ∷ cs) clean serves serves' enough many (r, all) = (
    read_messages-CutsRange m rounds fuel os' os'' file (range_start c) c g clean fit serves serves'
        r.ready r.live enough (omega arith),
    cut-All rounds fuel os' os'' cs clean serves serves' enough many all,
  )

  -- A file of fewer than 2 ^ 61 bytes, at least five, without NUL, that starts with "From ", read by
  -- any number of readers: where `pread` gives the searches for the starts all that is there and the
  -- readers at least something, memory is to be had, every reader but the first is given a place
  -- behind the front of the file, and a line with "From " begins in the bytes of the one read that its search
  -- makes before that place, the code finds a start for each reader, and the loop of each one
  -- that is kept ends, with messages that are pieces of the file, follow on one another from the
  -- reader's offset on, each with a blank line and behind that no line with "From "; behind each begins
  -- such a line, but for a last one that leaves at most ten bytes of the file. They end at the end of the
  -- reader's range or behind it, with at most ten bytes of the file left, where there is no "\n\n" in the
  -- file any more, or where more than the range has been read, with a blank line behind the place, but
  -- behind that no line with "From ", or only one that begins in the last ten bytes read.
  pub set_all_offsets-CutsRange :
      (rounds fuel fuel' n : ℕ) (os' os'' : ℕ → ℕ → Os)
      → IsClean file
      → ((i j : ℕ) → Serves file (os' i j))
      → ((i j : ℕ) → Serves file (os'' i j))
      → 2 * length file < fuel
      → length file < rounds
      → ((k : ℕ)
          → 1 ≤ k
          → k < suc n
          → (0 < k * (length file / suc n)) × IsMarked file (k * (length file / suc n)))
      → (cs : List MboxParserCtx) × (set_all_offsets m (suc fuel') os (suc n) (length file) ≡ ok cs)
        × All (λ c. CutsRange file c (read_messages m rounds fuel os' os'' c)) cs
  set_all_offsets-CutsRange rounds fuel fuel' n os' os'' clean serves serves' enough many marks =
      let (cs, run, all) = all_lem fuel' n marks in
      (cs, run, cut-All rounds fuel os' os'' cs clean serves serves' enough many all)
