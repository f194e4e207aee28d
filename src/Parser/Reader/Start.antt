-- ===== src/Parser/Reader/Start.antt =====
-- `mboxParserCtxSeekStart` on a file, where the first read holds what it looks for.
use libmbox.Base.{
  ℕ, zero, suc, ◌+◌, ◌-◌, ◌≤◌, ◌<◌, ◌≡◌, ◌≢◌, refl, sym, ap, ap₂, subst, ◌∙◌, inl, inr, Bool, false,
  List, [], ◌++◌, some, arith, lt→ltb, ◌==◌, ne→==, length, byte_at, set, take, drop, length-take,
  length-drop, length-set, get_or-set_self, get_or-take,
}
use libmbox.Base.Outcome.{Outcome, ok}
use libmbox.Buf.{MboxBuf, set_len, set_offset}
use libmbox.Buf.Memory.{Allocator, store-ok}
use libmbox.Buf.Valid.{Grants, IsRoomy, text}
use libmbox.Io.{Os, MboxIoCtx, io_ok, io_read_size, io_read}
use libmbox.Io.Read.{Filled, ReadResult, io_read-Filled}
use libmbox.Io.Window.{get_or-text, get_or-drop, get_or_default, same_size, bytes_cases}
use libmbox.Parser.{MboxParserCtx, find_from, seek_start_loop, seek_start}
use libmbox.Parser.Reader.{Stands, IsFrom, match_bytes-decides}
use libmbox.Parser.SeekStart.{from_mark, mark_byte}

-- A buffer that holds just these bytes, terminated.
pub record Front (d : List ℕ) (b : MboxBuf) : Type 0 where
  pub len : b.len ≡ length d
  pub same : (i : ℕ) → i < length d → byte_at b.block i ≡ byte_at d i
  pub nul : byte_at b.block b.len ≡ 0
  pub roomy : IsRoomy b
  pub small : b.capacity ≤ 700000

-- A read into a buffer without bytes.
pub io_read-Front :
    (m : Allocator) (os : Os) (io : MboxIoCtx) (place : ℕ) (d : List ℕ)
    → Grants m
    → os.pread io_read_size place ≡ some d
    → 0 < length d
    → length d ≤ io_read_size
    → IsRoomy io.buf
    → io.buf.len ≡ 0
    → io.buf.capacity ≡ 300010
    → (b : MboxBuf) × (io_read m os io io_read_size 0 place
        ≡ ok (some (length d), record io { err = io_ok; buf = b }))
      × Front d b
io_read-Front m os io place d g whole some_there most roomy none_yet cap =
    let (r, b, e, run, result) =
      io_read-Filled m os io io_read_size place g roomy (omega arith) (omega arith)
        (λ t p. omega (arith, same_size t d (sym p ∙ whole))) in
    let known : ReadResult io.buf io_read_size (some d) r e b =
      subst (λ o. ReadResult io.buf io_read_size o r e b) whole result in
    elim (bytes_cases d) [
      | inl nothing ↦ absurd (omega (arith, ap length nothing))
      | inr (c, cs, bytes) ↦
          let (count, fine, filled) =
            subst (λ t. ReadResult io.buf io_read_size (some t) r e b) bytes known in
          let f : Filled io.buf d io_read_size b =
            subst (λ t. Filled io.buf t io_read_size b) (sym bytes) filled in
          let empty : text io.buf ≡ [] = ap (λ k. take k io.buf.block) none_yet in
          let all : text b ≡ d = f.text_lem ∙ ap (λ t. t ++ d) empty in
          (
            b,
            subst
                (λ i.
                  io_read m os io io_read_size i place
                  ≡ ok (some (length d), record io { err = io_ok; buf = b }))
                none_yet
                (run
                  ∙ ap₂ (λ x y. ok (x, record io { err = y; buf = b }))
                      (count ∙ ap (λ t. some (length t)) (sym bytes)) fine),
            record {
              len = omega (arith, f.len_lem);
              same = λ i lt. get_or-text b i (omega (arith, f.len_lem)) ∙ ap (λ t. byte_at t i) all;
              nul = get_or_default b.block b.len f.ended;
              roomy = f.roomy;
              small = omega (arith, f.bound);
            },
          )
    ]

-- What the search leaves: an empty window of the file at its start.
abbrev pub StartsAt : List ℕ → ℕ → MboxParserCtx → Outcome MboxParserCtx → Type 0
StartsAt file start ctx r =
    (io : MboxIoCtx) × (r ≡ ok (record ctx { ioctx = io }))
    × Stands file start io
    × (io.buf.offset ≡ 0)
    × (io.start_offset ≡ start)
    × (io.file_size ≡ ctx.ioctx.file_size)
    × (io.offset ≡ ctx.ioctx.offset)

-- What follows a read that holds what is looked for.
pub after_read :
    (m : Allocator) (file d : List ℕ) (fuel : ℕ) (os : ℕ → Os) (ctx : MboxParserCtx) (place idx : ℕ)
    (at_start : Bool) (b : MboxBuf)
    → ctx.ioctx.file_offset - io_read_size ≡ place
    → (ctx.ioctx.file_offset == 0) ≡ at_start
    → io_read m (os fuel) ctx.ioctx io_read_size 0 place
      ≡ ok (some (length d), record ctx.ioctx { err = io_ok; buf = b })
    → 0 < length d
    → find_from (b.len + 1) b at_start 0 ≡ ok (some idx)
    → Front d b
    → place + idx ≤ length file
    → StartsAt file (place + idx) ctx (seek_start m (suc fuel) os ctx)
unfolding seek_start seek_start_loop set_len set_offset
after_read m file d fuel os ctx place idx at_start b back front run pos found holds inside =
    let io = ctx.ioctx in
    let block = set b.block 0 0 in
    let size = length-set b.block 0 0 in
    let r = holds.roomy in
    let io' : MboxIoCtx = record io {
      err = io_ok;
      buf = record b { block = block; offset = 0; len = 0 };
      start_offset = place + idx;
      file_offset = place + idx;
    } in
    (
      io',
      rw
          (
            back,
            run,
            front,
            found,
            ne→== (length d) 0 (λ z. absurd (omega arith)),
            store-ok b.block 0 0 (omega (arith, r.valid.held)),
            back,
          )
          refl,
      record {
        window = record {
          same = λ i lt. absurd (omega arith);
          nul = get_or-set_self b.block 0 0 0 (omega (arith, r.valid.held));
          place = omega arith;
          inside = omega arith;
          roomy = record {
            valid = record {
              room = omega (arith, r.valid.room, size);
              fits = omega arith;
              held = omega (arith, r.valid.held, size);
              small = r.valid.small;
            };
            spare = omega (arith, r.spare);
          };
          cap = omega (arith, holds.small);
        };
        within = omega arith;
        live = refl;
      },
      refl,
      refl,
      refl,
      refl,
    )

-- The search through the bytes finds the first place where the mark stands.
find_from_mark :
    (fuel : ℕ) (b : MboxBuf) (i j : ℕ)
    → b.len < length b.block
    → byte_at b.block b.len ≡ 0
    → i ≤ j
    → j < b.len
    → ((k : ℕ) → k < 6 → byte_at b.block (j + k) ≡ byte_at from_mark k)
    → b.len < i + fuel
    → (idx : ℕ) × (find_from fuel b false i ≡ ok (some idx))
      × (i ≤ idx)
      × (idx ≤ j)
      × (idx + 6 ≤ b.len)
      × ((k : ℕ) → k < 6 → byte_at b.block (idx + k) ≡ byte_at from_mark k)
unfolding find_from
find_from_mark zero b i j room nul le lt here enough = absurd (omega arith)
find_from_mark (suc fuel) b i j room nul le lt here enough =
    elim (match_bytes-decides b.block b.len i from_mark room nul mark_byte (omega arith)) [
      | inl (run, inside, all) ↦
          (i, rw (lt→ltb i b.len (omega arith), run) refl, omega arith, le, inside, all)
      | inr (run, none_here) ↦
          let other : i ≢ j =
            λ e. none_here (λ k small. ap (λ p. byte_at b.block (p + k)) e ∙ here k small) in
          let (idx, later, ge, le', inside, all) =
            find_from_mark fuel b (i + 1) j room nul (omega (arith, other)) lt here (omega arith) in
          (idx, rw (lt→ltb i b.len (omega arith), run) later, omega arith, le', inside, all)
    ]

-- Where a reader is given a place behind the front of the file, a line with "From " begins at `p` in the
-- bytes of one read from `io_read_size` bytes before that place on, and `pread` gives all that is
-- there of them, with memory to be had, the search for the start returns. It has moved the start to a
-- place not behind `p` where such a line begins, and the reader holds an empty window of the file there.
pub seek_start-StartsAt :
    (m : Allocator) (file : List ℕ) (fuel : ℕ) (os : ℕ → Os) (ctx : MboxParserCtx) (place p : ℕ)
    → Grants m
    → ctx.ioctx.file_offset - io_read_size ≡ place
    → ctx.ioctx.file_offset ≢ 0
    → (os fuel).pread io_read_size place ≡ some (take io_read_size (drop place file))
    → IsRoomy ctx.ioctx.buf
    → ctx.ioctx.buf.len ≡ 0
    → ctx.ioctx.buf.capacity ≡ 300010
    → place ≤ p
    → p + 6 ≤ place + io_read_size
    → p + 6 ≤ length file
    → IsFrom file p
    → (start : ℕ) × (place ≤ start)
      × (start ≤ p)
      × IsFrom file start
      × StartsAt file start ctx (seek_start m (suc fuel) os ctx)
seek_start-StartsAt m file fuel os ctx place p g back behind whole roomy none_yet cap from inside
      fits mark =
    let d = take io_read_size (drop place file) in
    let size : length d ≡ _ = length-take io_read_size (drop place file) in
    let some_there : p + 6 ≤ place + length d = omega (arith, size, length-drop place file) in
    let (b, run, holds) =
      io_read-Front m (os fuel) ctx.ioctx place d g whole (omega arith) (omega (arith, size)) roomy
        none_yet cap in
    let byte : (i : ℕ) → i < length d → byte_at b.block i ≡ byte_at file (place + i) = λ i lt.
      holds.same i lt
      ∙ get_or-take io_read_size i (drop place file) 0 (omega (arith, size))
      ∙ get_or-drop place file i in
    let here : (k : ℕ) → k < 6 → byte_at b.block (p - place + k) ≡ byte_at from_mark k = λ k small.
      let e : place + (p - place + k) ≡ p + k = omega arith in
      byte (p - place + k) (omega arith) ∙ ap (byte_at file) e ∙ mark k small in
    let (idx, found, _, le, held, all) =
      find_from_mark (b.len + 1) b 0 (p - place) holds.roomy.valid.held holds.nul (omega arith)
        (omega (arith, holds.len)) here (omega arith) in
    (
      place + idx,
      omega arith,
      omega arith,
      (λ k small.
          let e : place + (idx + k) ≡ place + idx + k = omega arith in
          ap (byte_at file) (sym e)
          ∙ sym (byte (idx + k) (omega (arith, holds.len)))
          ∙ all k small),
      after_read m file d fuel os ctx place idx false b back (ne→== ctx.ioctx.file_offset 0 behind)
          run (omega arith) found holds (omega (arith, holds.len)),
    )
