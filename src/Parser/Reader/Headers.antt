-- ===== src/Parser/Reader/Headers.antt =====
-- `mboxParserCtxSeekHeaders` on a file.
use libmbox.Base.{
  ℕ, zero, suc, ◌+◌, ◌-◌, ◌^◌, ◌≤◌, ◌<◌, ◌≡◌, ◌≢◌, refl, sym, ap, subst, ◌∙◌, ◌⊎◌, inl, inr, Bool,
  true, false, List, arith, ne→==, ◌==◌, ltb, ltb→lt, ltb→ge, Bool-cases, length, byte_at,
}
use libmbox.Base.Outcome.{Outcome, ok}
use libmbox.Buf.Memory.{Allocator, read-ok}
use libmbox.Buf.Valid.{Grants}
use libmbox.Io.{Os, MboxIoCtx, io_read, io_read_size, io_ok, io_eof}
use libmbox.Io.Window.{Serves, IsClean, Refilled, refill-Refilled}
use libmbox.Parser.{seek_headers}
use libmbox.Parser.Reader.{Stands, le_leb, or_true, window-IsText, file-IsBlank, moved-IsWindow}
use libmbox.Parser.Scan.{can_parse_headers}
use libmbox.Parser.Scan.Blank.{can_parse_headers-Scanned}
use libmbox.Parser.Scan.Text.{IsBlank, NoBlank, GoesOn, Scanned}

-- The reader has moved to the end of a blank line of the file.
pub record AtBody (file : List ℕ) (n : ℕ) (io io' : MboxIoCtx) : Type 0 where
  pub stands : Stands file n io'
  pub offset : io'.offset ≡ io.offset
  pub last : io'.end_offset ≡ io.end_offset
  pub blank :
      (k : ℕ) × (size : ℕ) × (n + io.buf.offset ≤ k)
      × IsBlank file k size
      × (n + io'.buf.offset ≡ k + size)

-- No "\n\n" starts from `i` up to `j`.
abbrev NoDoubleTo : List ℕ → (i j : ℕ) → Type 0
NoDoubleTo file i j =
    (k : ℕ) → i ≤ k → k < j → byte_at file k ≡ b'\n' → byte_at file (k + 1) ≢ b'\n'

-- There is no "\n\n" in the file from `i` on.
abbrev pub NoDouble : List ℕ → ℕ → Type 0
NoDouble file i =
    (k : ℕ) → i ≤ k → k + 1 < length file → byte_at file k ≡ b'\n' → byte_at file (k + 1) ≢ b'\n'

joined-NoDouble :
    (file : List ℕ) (i j : ℕ) → NoDoubleTo file i j → NoDouble file j → NoDouble file i
joined-NoDouble file i j first rest k ge lt break = elim (Bool-cases (ltb k j)) [
  | inl b ↦ first k ge (ltb→lt k j b) break
  | inr b ↦ rest k (ltb→ge k j b) lt break
]

-- It finds a blank line, or the file is at its end, and there is no "\n\n" in what is left of it.
abbrev pub FoundBody : List ℕ → ℕ → MboxIoCtx → Outcome (Bool × MboxIoCtx) → Type 0
FoundBody file n io r =
    ((io' : MboxIoCtx) × (r ≡ ok (true, io')) × AtBody file n io io')
    ⊎ ((io' : MboxIoCtx) × (r ≡ ok (false, io'))
        × (io'.offset ≡ io.offset)
        × (length file ≡ io'.file_offset)
        × NoDouble file (n + io.buf.offset))

module _ (m : Allocator) (g : Grants m) (file : List ℕ) (clean : IsClean file)
    (fit : length file < 2 ^ 61) where
  -- A search that goes on from a later offset finds the same.
  later-FoundBody :
      (n : ℕ) (io io₁ : MboxIoCtx) (r : Outcome (Bool × MboxIoCtx))
      → io.buf.offset ≤ io₁.buf.offset
      → io₁.offset ≡ io.offset
      → io₁.end_offset ≡ io.end_offset
      → NoDoubleTo file (n + io.buf.offset) (n + io₁.buf.offset)
      → FoundBody file n io₁ r
      → FoundBody file n io r
  later-FoundBody n io io₁ r on same last skipped (inl (io', run, at)) =
      let (k, size, from, here, place) = at.blank in
      inl (
        io',
        run,
        record {
          stands = at.stands;
          offset = omega (arith, at.offset);
          last = omega (arith, at.last);
          blank = (k, size, omega arith, here, place);
        },
      )
  later-FoundBody n io io₁ r on same last skipped (inr (io', run, kept, ended, rest)) = inr (
    io',
    run,
    omega arith,
    ended,
    joined-NoDouble file (n + io.buf.offset) (n + io₁.buf.offset) skipped rest,
  )

  -- What the scan has passed over.
  scan-NoDoubleTo :
      (n e : ℕ) (io : MboxIoCtx)
      → Stands file n io
      → e ≤ io.buf.len
      → NoBlank io.buf.block io.buf.offset e
      → GoesOn io.buf.block io.buf.len io.buf.offset e
      → NoDoubleTo file (n + io.buf.offset) (n + e)
  scan-NoDoubleTo n e io s le none_there on k ge lt break second =
      let j : ℕ = k - n in
      let here : n + j ≡ k = omega arith in
      let next : n + (j + 1) ≡ k + 1 = omega arith in
      let break' : byte_at io.buf.block j ≡ b'\n' =
        s.window.same j (omega arith) ∙ ap (byte_at file) here ∙ break in
      let more : j + 1 < io.buf.len = on j (omega arith) (omega arith) break' in
      none_there j (omega arith) (omega arith) 2
        (break', inl (refl, s.window.same (j + 1) more ∙ ap (byte_at file) next ∙ second))

  -- A scan that has found nothing is followed by a read.
  scanned :
      (fuel : ℕ) (os : ℕ → Os) (n e : ℕ) (io : MboxIoCtx)
      → Stands file n io
      → can_parse_headers io.buf ≡ ok (false, record io.buf { offset = e })
      → io.buf.offset ≤ e
      → e ≤ io.buf.len
      → io.buf.len ≤ e + 1
      → NoDoubleTo file (n + io.buf.offset) (n + e)
      → Refilled file n
          (record io { buf = record io.buf { offset = e } })
          (io_read m
            (os fuel)
            (record io { buf = record io.buf { offset = e } })
            io_read_size
            io.buf.len
            io.file_offset)
      → ((io₁ : MboxIoCtx)
          → Stands file n io₁
          → io.file_offset < io₁.file_offset
          → FoundBody file n io₁ (seek_headers m fuel os io₁))
      → FoundBody file n io (seek_headers m (suc fuel) os io)
  unfolding seek_headers
  scanned fuel os n e io s scan on le stop skipped (inl (b, run, ended, offset, len, _, _)) later =
      inr (
        record io { err = io_eof; buf = b },
        rw
            (
              scan,
              read-ok io.buf.block 0 (omega (arith, s.window.roomy.valid.held)),
              le_leb io.buf.len (e + 1) stop,
              or_true (byte_at io.buf.block 0 == 0),
              run,
            )
            refl,
        refl,
        omega arith,
        λ q ge lt. skipped q ge (omega (arith, s.window.place)),
      )
  scanned fuel os n e io s scan on le stop skipped (inr (k, b, run, pos, offset, len, w)) later =
      let io₁ : MboxIoCtx = record io { err = io_ok; buf = b; file_offset = io.file_offset + k } in
      rw
        (
          scan,
          read-ok io.buf.block 0 (omega (arith, s.window.roomy.valid.held)),
          le_leb io.buf.len (e + 1) stop,
          or_true (byte_at io.buf.block 0 == 0),
          run,
          ne→== k 0 (λ z. absurd (omega arith)),
        )
        (later-FoundBody n io io₁ (seek_headers m fuel os io₁) (omega arith) refl refl
          (subst (λ j. NoDoubleTo file (n + io.buf.offset) (n + j)) (sym offset) skipped)
          (later io₁ (record { window = w; within = omega arith; live = refl }) (omega arith)))

  decide :
      (fuel : ℕ) (os : ℕ → Os) (n : ℕ) (io : MboxIoCtx)
      → ((i : ℕ) → Serves file (os i))
      → Stands file n io
      → length file < io.file_offset + suc fuel
      → (found : Bool) × (e : ℕ) × (can_parse_headers io.buf
          ≡ ok (found, record io.buf { offset = e }))
        × Scanned io.buf.block io.buf.len io.buf.offset found e
      → ((io₁ : MboxIoCtx)
          → Stands file n io₁
          → io.file_offset < io₁.file_offset
          → FoundBody file n io₁ (seek_headers m fuel os io₁))
      → FoundBody file n io (seek_headers m (suc fuel) os io)
  unfolding seek_headers Scanned
  decide fuel os n io serves s enough (true, e, scan, (k, size, from, end, lt, blank, _)) later =
      let (here, le) = file-IsBlank file n io clean s.window k size lt blank in
      inl (
        record io { buf = record io.buf { offset = e } },
        rw scan refl,
        record {
          stands = record {
            window = moved-IsWindow file n io clean s.window e;
            within = omega arith;
            live = s.live;
          };
          offset = refl;
          last = refl;
          blank = (n + k, size, omega arith, here, omega arith);
        },
      )
  decide fuel os n io serves s enough (false, e, scan, (none_there, on, le, stop, more)) later =
      scanned fuel os n e io s scan on le stop (scan-NoDoubleTo n e io s le none_there more)
        (refill-Refilled m g file fit (os fuel) n (record io { buf = record io.buf { offset = e } })
          (serves fuel) (moved-IsWindow file n io clean s.window e))
        later

  pub seek_headers-FoundBody :
      (fuel : ℕ) (os : ℕ → Os) (n : ℕ) (io : MboxIoCtx)
      → ((i : ℕ) → Serves file (os i))
      → Stands file n io
      → length file < io.file_offset + fuel
      → FoundBody file n io (seek_headers m fuel os io)
  unfolding seek_headers
  seek_headers-FoundBody zero os n io serves s enough =
      absurd (omega (arith, s.window.place, s.window.inside))
  seek_headers-FoundBody (suc fuel) os n io serves s enough =
      decide fuel os n io serves s enough
        (can_parse_headers-Scanned io.buf (window-IsText file n io clean s.window) s.within)
        (λ io₁ s₁ more. seek_headers-FoundBody fuel os n io₁ serves s₁ (omega arith))
