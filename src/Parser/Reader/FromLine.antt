-- ===== src/Parser/Reader/FromLine.antt =====
-- `mboxParserCtxSeekNextFromLine` on a file.
use libmbox.Base.{
  ℕ, zero, suc, ◌+◌, ◌*◌, ◌^◌, ◌≤◌, ◌<◌, ◌≡◌, refl, sym, subst, ◌⊎◌, inl, inr, true, false, List,
  arith, leb, ltb, ltb→lt, ne→==, Bool-cases, length, byte_at,
}
use libmbox.Base.Outcome.{ok}
use libmbox.Buf.{add_size, sub_size}
use libmbox.Buf.Memory.{Allocator}
use libmbox.Buf.Valid.{Grants}
use libmbox.Io.{Os, MboxIoCtx, io_read, io_read_size, io_ok, io_eof}
use libmbox.Io.Window.{Serves, IsClean, Refilled, refill-Refilled}
use libmbox.Parser.{seek_next_from_line}
use libmbox.Parser.Reader.{Stands, le_leb, FromFree, match_bytes-decides, moved-IsWindow}
use libmbox.Parser.Reader.Line.{
  FoundFrom, find_newline-ok, joined-FromFree, later-FoundFrom, line-FromFree, mismatch-FromFree,
  match-IsFrom, back_and_on,
}
use libmbox.Parser.Scan.{find_newline, is_from_line}
use libmbox.Parser.SeekStart.{from_mark, mark_byte}

-- The test of the code for "From " in a text.
is_from_line-decides :
    (block : List ℕ) (len i : ℕ)
    → len < length block
    → byte_at block len ≡ 0
    → i ≤ len
    → ((is_from_line block i ≡ ok true)
        × (i + 6 ≤ len)
        × ((k : ℕ) → k < 6 → byte_at block (i + k) ≡ byte_at from_mark k))
      ⊎ ((is_from_line block i ≡ ok false)
          × ¬ ((k : ℕ) → k < 6 → byte_at block (i + k) ≡ byte_at from_mark k))
unfolding is_from_line
is_from_line-decides block len i room nul le =
    match_bytes-decides block len i from_mark room nul mark_byte le

module _ (m : Allocator) (g : Grants m) (file : List ℕ) (clean : IsClean file)
    (fit : length file < 2 ^ 61) where
  -- No "From " in the last ten bytes of the text: the range is at its end, or a read follows.
  refilled :
      (fuel : ℕ) (os : ℕ → Os) (n e : ℕ) (io : MboxIoCtx)
      → Stands file n io
      → find_newline (length io.buf.block + 1) io.buf ≡ ok (record io.buf { offset = e })
      → is_from_line io.buf.block e ≡ ok false
      → io.buf.offset ≤ e
      → e ≤ io.buf.len
      → io.buf.len ≤ e + 10
      → FromFree file (n + io.buf.offset) (n + e)
      → Refilled file n
          (record io { buf = record io.buf { offset = e } })
          (io_read m
            (os fuel)
            (record io { buf = record io.buf { offset = e } })
            io_read_size
            io.buf.len
            io.file_offset)
      → ((io₁ : MboxIoCtx)
          → Stands file n io₁
          → e ≤ io₁.buf.offset
          → io.file_offset < io₁.file_offset
          → FoundFrom file n io₁ (seek_next_from_line m fuel os io₁))
      → FoundFrom file n io (seek_next_from_line m (suc fuel) os io)
  unfolding seek_next_from_line
  refilled fuel os n e io s find line on le near free result later =
      elim (Bool-cases (ltb io.end_offset io.file_offset)) [
        | inl past ↦ inr (
          record io { buf = record io.buf { offset = e } },
          rw (find, line, le_leb io.buf.len (e + 10) near, past) refl,
          refl,
          refl,
          ltb→lt io.end_offset io.file_offset past,
          free,
          omega (arith, s.window.place),
          omega (arith, s.window.place, s.window.inside),
          on,
        )
        | inr inside ↦ elim result [
          | inl (b, run, ended, offset, len, room, same) ↦ inl (
            record io { err = io_eof; buf = b },
            rw (find, line, le_leb io.buf.len (e + 10) near, inside, run) refl,
            inr (record {
              offset = refl;
              last = refl;
              ended = refl;
              same = same;
              held = room;
              whole = omega (arith, s.window.place);
              within = omega arith;
              near = omega arith;
              on = omega arith;
              free = subst (λ j. FromFree file (n + io.buf.offset) (n + j)) (sym offset) free;
            }),
          )
          | inr (k, b, run, pos, offset, len, w) ↦
              let back : add_size (sub_size b.offset 1) 1 ≡ b.offset =
                back_and_on b.offset (omega (arith, w.inside)) in
              let io₁ : MboxIoCtx = record io {
                err = io_ok;
                buf = b;
                file_offset = io.file_offset + k;
              } in
              rw
                (
                  find,
                  line,
                  le_leb io.buf.len (e + 10) near,
                  inside,
                  run,
                  ne→== k 0 (λ z. absurd (omega arith)),
                  back,
                )
                (later-FoundFrom file n io io₁ (seek_next_from_line m fuel os io₁) (omega arith)
                  refl refl
                  (subst (λ j. FromFree file (n + io.buf.offset) (n + j)) (sym offset) free)
                  (later io₁ (record { window = w; within = omega arith; live = refl })
                    (omega arith) (omega arith)))
        ]
      ]

  -- The search behind the next line break.
  searched :
      (fuel : ℕ) (os : ℕ → Os) (n e : ℕ) (io : MboxIoCtx)
      → ((i : ℕ) → Serves file (os i))
      → Stands file n io
      → find_newline (length io.buf.block + 1) io.buf ≡ ok (record io.buf { offset = e })
      → io.buf.offset ≤ e
      → e ≤ io.buf.len
      → FromFree file (n + io.buf.offset) (n + e)
      → ((io₁ : MboxIoCtx)
          → Stands file n io₁
          → e ≤ io₁.buf.offset
          → io.file_offset + e < io₁.file_offset + io₁.buf.offset
          → FoundFrom file n io₁ (seek_next_from_line m fuel os io₁))
      → FoundFrom file n io (seek_next_from_line m (suc fuel) os io)
  unfolding seek_next_from_line
  searched fuel os n e io serves s find on le free later =
      let w = s.window in
      elim (is_from_line-decides io.buf.block io.buf.len e w.roomy.valid.held w.nul le) [
        | inl (line, inside, all) ↦ inl (
          record io { buf = record io.buf { offset = e + 1 } },
          rw (find, line) refl,
          inl (record {
            stands = record {
              window = moved-IsWindow file n io clean w (e + 1);
              within = omega arith;
              live = s.live;
            };
            offset = refl;
            last = refl;
            from = (
              n + e,
              omega arith,
              omega arith,
              match-IsFrom file clean n io s e inside all,
              free,
            );
          }),
        )
        | inr (line, none_here) ↦ elim (Bool-cases (leb io.buf.len (e + 10))) [
          | inl near ↦
              refilled fuel os n e io s find line on le (ground arith) free
                (refill-Refilled m g file fit (os fuel) n
                  (record io { buf = record io.buf { offset = e } }) (serves fuel)
                  (moved-IsWindow file n io clean w e))
                (λ io₁ s₁ on₁ more. later io₁ s₁ on₁ (omega arith))
          | inr far ↦
              let lt : e + 10 < io.buf.len = ground arith in
              let io₁ : MboxIoCtx = record io { buf = record io.buf { offset = e + 1 } } in
              rw (find, line, far)
                (later-FoundFrom file n io io₁ (seek_next_from_line m fuel os io₁) (omega arith)
                  refl refl
                  (joined-FromFree file (n + io.buf.offset) (n + e) (n + (e + 1)) free
                    (mismatch-FromFree file clean n io s e lt none_here))
                  (later io₁
                    (record {
                      window = moved-IsWindow file n io clean w (e + 1);
                      within = omega arith;
                      live = s.live;
                    })
                    (omega arith) (omega arith)))
        ]
      ]

  pub seek_next_from_line-FoundFrom :
      (fuel : ℕ) (os : ℕ → Os) (n : ℕ) (io : MboxIoCtx)
      → ((i : ℕ) → Serves file (os i))
      → Stands file n io
      → 2 * length file < n + io.buf.offset + io.file_offset + fuel
      → FoundFrom file n io (seek_next_from_line m fuel os io)
  seek_next_from_line-FoundFrom zero os n io serves s enough =
      absurd (omega (arith, s.window.place, s.window.inside, s.within))
  seek_next_from_line-FoundFrom (suc fuel) os n io serves s enough =
      let (e, find, on, le, line) =
        find_newline-ok (length io.buf.block + 1) io.buf s.within s.window.roomy.valid.held
          (omega (arith, s.window.roomy.valid.held)) in
      searched fuel os n e io serves s find on le (line-FromFree file clean n io s e le line)
        (λ io₁ s₁ on₁ more. seek_next_from_line-FoundFrom fuel os n io₁ serves s₁ (omega arith))
