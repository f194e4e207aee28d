-- ===== src/Parser/Reader/Line.antt =====
-- A line break and the "From " behind it, in a window and in its file, and what the search for them
-- gives.
use libmbox.Base.{
  ℕ, zero, suc, ◌+◌, ◌-◌, ◌^◌, ◌≤◌, ◌<◌, ◌≡◌, ◌≢◌, refl, sym, ap, subst, ◌∙◌, ◌⊎◌, inl, inr, Bool,
  true, false, List, arith, ltb, ltb→lt, ◌==◌, ==→eq, ==→ne, Bool-cases, length, byte_at,
}
use libmbox.Base.Outcome.{Outcome, ok}
use libmbox.Buf.{MboxBuf, add_size, sub_size}
use libmbox.Buf.Memory.{read-ok}
use libmbox.Io.{MboxIoCtx, is_io_eof}
use libmbox.Io.Window.{IsClean}
use libmbox.Parser.Reader.{Stands, IsFrom, FromFree}
use libmbox.Parser.Scan.{find_newline}
use libmbox.Parser.SeekStart.{from_mark}

-- The search for a line break stops at the first one, or at the end of the text.
pub find_newline-ok :
    (fuel : ℕ) (buf : MboxBuf)
    → buf.offset ≤ buf.len
    → buf.len < length buf.block
    → buf.len < buf.offset + fuel
    → (e : ℕ) × (find_newline fuel buf ≡ ok (record buf { offset = e }))
      × (buf.offset ≤ e)
      × (e ≤ buf.len)
      × ((k : ℕ) → buf.offset ≤ k → k < e → byte_at buf.block k ≢ b'\n')
unfolding find_newline
find_newline-ok zero buf le room enough = absurd (omega arith)
find_newline-ok (suc fuel) buf le room enough = elim (Bool-cases (ltb buf.offset buf.len)) [
  | inr end ↦ (buf.offset, rw end refl, omega arith, le, λ k ge lt. absurd (omega arith))
  | inl more ↦
      let lt : buf.offset < buf.len = ltb→lt buf.offset buf.len more in
      elim (Bool-cases (byte_at buf.block buf.offset == b'\n')) [
        | inl here ↦ (
          buf.offset,
          rw (more, read-ok buf.block buf.offset (omega arith), here) refl,
          omega arith,
          le,
          λ k ge lt. absurd (omega arith),
        )
        | inr other ↦
            let (e, run, ge, le', none_before) =
              find_newline-ok fuel (record buf { offset = buf.offset + 1 }) (omega arith) room
                (omega arith) in
            (
              e,
              rw (more, read-ok buf.block buf.offset (omega arith), other) run,
              omega arith,
              le',
              λ k from to. elim (Bool-cases (k == buf.offset)) [
                | inl s ↦
                    subst (λ j. byte_at buf.block j ≢ b'\n') (sym (==→eq k buf.offset s))
                      (==→ne (byte_at buf.block buf.offset) b'\n' other)
                | inr d ↦ none_before k (omega (arith, ==→ne k buf.offset d)) to
              ],
            )
      ]
]

-- The reader has moved behind the line break before the first "From ".
pub record AtFrom (file : List ℕ) (n : ℕ) (io io' : MboxIoCtx) : Type 0 where
  pub stands : Stands file n io'
  pub offset : io'.offset ≡ io.offset
  pub last : io'.end_offset ≡ io.end_offset
  pub from :
      (p : ℕ) × (n + io'.buf.offset ≡ p + 1)
      × (n + io.buf.offset ≤ p)
      × IsFrom file p
      × FromFree file (n + io.buf.offset) p

-- The reader has met the end of the file, and stands among its last ten bytes.
pub record AtEnd (file : List ℕ) (n : ℕ) (io io' : MboxIoCtx) : Type 0 where
  pub offset : io'.offset ≡ io.offset
  pub last : io'.end_offset ≡ io.end_offset
  pub ended : is_io_eof io'.err ≡ true
  pub same : (i : ℕ) → i < io'.buf.len → byte_at io'.buf.block i ≡ byte_at file (n + i)
  pub held : io'.buf.len < length io'.buf.block
  pub whole : n + io'.buf.len ≡ length file
  pub within : io'.buf.offset ≤ io'.buf.len
  pub near : io'.buf.len ≤ io'.buf.offset + 10
  pub on : io.buf.offset ≤ io'.buf.offset
  pub free : FromFree file (n + io.buf.offset) (n + io'.buf.offset)

-- One of these, or the reader is past its range, with no "From " but in the last ten bytes that it has.
abbrev pub FoundFrom : List ℕ → ℕ → MboxIoCtx → Outcome (Bool × MboxIoCtx) → Type 0
FoundFrom file n io r =
    ((io' : MboxIoCtx) × (r ≡ ok (true, io')) × (AtFrom file n io io' ⊎ AtEnd file n io io'))
    ⊎ ((io' : MboxIoCtx) × (r ≡ ok (false, io'))
        × (io'.offset ≡ io.offset)
        × (io'.end_offset ≡ io.end_offset)
        × (io'.end_offset < io'.file_offset)
        × FromFree file (n + io.buf.offset) (n + io'.buf.offset)
        × (io'.file_offset ≤ n + io'.buf.offset + 10)
        × (io'.file_offset ≤ length file)
        × (io.buf.offset ≤ io'.buf.offset))

-- What is free of "From " up to a place and from there on is free of it.
pub joined-FromFree :
    (file : List ℕ) (i j k : ℕ) → FromFree file i j → FromFree file j k → FromFree file i k
joined-FromFree file i j k first rest p ge lt = elim (Bool-cases (ltb p j)) [
  | inl b ↦ first p ge (ltb→lt p j b)
  | inr b ↦ rest p (ground arith) lt
]

-- A search that goes on from a later place finds the same.
pub later-FoundFrom :
    (file : List ℕ) (n : ℕ) (io io₁ : MboxIoCtx) (r : Outcome (Bool × MboxIoCtx))
    → io.buf.offset ≤ io₁.buf.offset
    → io₁.offset ≡ io.offset
    → io₁.end_offset ≡ io.end_offset
    → FromFree file (n + io.buf.offset) (n + io₁.buf.offset)
    → FoundFrom file n io₁ r
    → FoundFrom file n io r
later-FoundFrom file n io io₁ r on same last free (inl (io', run, inl at)) =
    let (p, place, from, here, none_before) = at.from in
    inl (
      io',
      run,
      inl (record {
        stands = at.stands;
        offset = omega (arith, at.offset);
        last = omega (arith, at.last);
        from = (
          p,
          place,
          omega arith,
          here,
          joined-FromFree file (n + io.buf.offset) (n + io₁.buf.offset) p free none_before,
        );
      }),
    )
later-FoundFrom file n io io₁ r on same last free (inl (io', run, inr at)) = inl (
  io',
  run,
  inr (record {
    offset = omega (arith, at.offset);
    last = omega (arith, at.last);
    ended = at.ended;
    same = at.same;
    held = at.held;
    whole = at.whole;
    within = at.within;
    near = at.near;
    on = omega (arith, at.on);
    free =
        joined-FromFree file (n + io.buf.offset) (n + io₁.buf.offset) (n + io'.buf.offset) free
          at.free;
  }),
)
later-FoundFrom file n io io₁ r on same last free
      (inr (io', run, kept, end, past, none_there, near, inside, more)) =
    inr (
      io',
      run,
      omega arith,
      omega arith,
      past,
      joined-FromFree file (n + io.buf.offset) (n + io₁.buf.offset) (n + io'.buf.offset) free
          none_there,
      near,
      inside,
      omega arith,
    )

module _ (file : List ℕ) (clean : IsClean file) (n : ℕ) (io : MboxIoCtx)
    (s : Stands file n io) where
  -- Without a line break there is no "From ".
  pub line-FromFree :
      (e : ℕ)
      → e ≤ io.buf.len
      → ((k : ℕ) → io.buf.offset ≤ k → k < e → byte_at io.buf.block k ≢ b'\n')
      → FromFree file (n + io.buf.offset) (n + e)
  line-FromFree e le line p ge lt here =
      let at : n + (p - n) ≡ p + 0 = omega arith in
      line (p - n) (omega arith) (omega arith)
        (s.window.same (p - n) (omega arith) ∙ ap (byte_at file) at ∙ here 0 (omega arith))

  -- What the buffer does not hold at a place, the file does not have there.
  pub mismatch-FromFree :
      (e : ℕ)
      → e + 10 < io.buf.len
      → ¬ ((k : ℕ) → k < 6 → byte_at io.buf.block (e + k) ≡ byte_at from_mark k)
      → FromFree file (n + e) (n + (e + 1))
  mismatch-FromFree e lt none_here p ge to here = none_here (λ k small.
      let at : n + (e + k) ≡ p + k = omega arith in
      s.window.same (e + k) (omega arith) ∙ ap (byte_at file) at ∙ here k small)

  -- A match in the buffer is one in the file.
  pub match-IsFrom :
      (e : ℕ)
      → e + 6 ≤ io.buf.len
      → ((k : ℕ) → k < 6 → byte_at io.buf.block (e + k) ≡ byte_at from_mark k)
      → IsFrom file (n + e)
  match-IsFrom e le all k small =
      let at : n + (e + k) ≡ n + e + k = omega arith in
      ap (byte_at file) (sym at) ∙ sym (s.window.same (e + k) (omega arith)) ∙ all k small

-- `offset--` and `offset++` leave the offset.
pub back_and_on : (i : ℕ) → i < 2 ^ 64 → add_size (sub_size i 1) 1 ≡ i
back_and_on i lt = omega arith
