-- ===== src/Parser/Scan/Blank.antt =====
-- `mboxBufCanParseHeaders` finds the first blank line.
use libmbox.Base.{
  ℕ, zero, suc, ◌+◌, ◌≤◌, ◌<◌, ◌≡◌, refl, ap, ◌∙◌, ◌≢◌, inl, inr, Bool, true, false, List, arith,
  ltb, ◌==◌, Bool-cases, length, byte_at, ne→==, ==→eq, ==→ne, lt→ltb, ltb→lt, ltb→ge,
}
use libmbox.Base.Outcome.{ok}
use libmbox.Buf.{MboxBuf}
use libmbox.Buf.Memory.{read-ok}
use libmbox.Parser.Scan.{line_end, headers_loop, can_parse_headers}
use libmbox.Parser.Scan.Line.{starts_none, extended, clear, no_break}
use libmbox.Parser.Scan.Text.{Scanned, IsText, line_end-ok}

module _ (block : List ℕ) (len : ℕ) (text : IsText block len) where
  -- The byte behind the line break at `j` is none of NUL and a line break.
  long_break :
      (fuel i j : ℕ)
      → i < len
      → line_end (length block + 1) block i ≡ ok j
      → i ≤ j
      → j + 1 < len
      → byte_at block j ≡ b'\n'
      → ((k : ℕ) → i ≤ k → k < j → byte_at block k ≢ b'\n')
      → byte_at block (j + 1) ≢ 0
      → (byte_at block (j + 1) == b'\n') ≡ false
      → (b : Bool) × (e : ℕ) × (headers_loop fuel block len (j + 1) ≡ ok (b, e))
        × Scanned block len (j + 1) b e
      → (b : Bool) × (e : ℕ) × (headers_loop (suc fuel) block len i ≡ ok (b, e))
        × Scanned block len i b e
  unfolding headers_loop Scanned
  long_break fuel i j lt run ge lt' break line c2 short (b, e, loop, scan) =
      let not_two = ==→ne (byte_at block (j + 1)) b'\n' short in
      let read0 = read-ok block j (omega (arith, text.room)) in
      let read1 = read-ok block (j + 1) (omega (arith, text.room)) in
      let read2 = read-ok block (j + 2) (omega (arith, text.room)) in
      elim (Bool-cases (byte_at block (j + 1) == b'\r')) [
        | inl cr ↦ elim (Bool-cases (byte_at block (j + 2) == b'\n')) [
          | inl three ↦ (
            true,
            j + 3,
            rw
                (
                  lt→ltb i len lt,
                  run,
                  read0,
                  break,
                  read1,
                  ne→== (byte_at block (j + 1)) 0 c2,
                  read2,
                  short,
                  cr,
                  three,
                )
                refl,
            (
              j,
              3,
              ge,
              refl,
              omega arith,
              (
                break,
                inr (
                  refl,
                  ==→eq (byte_at block (j + 1)) b'\r' cr,
                  ==→eq (byte_at block (j + 2)) b'\n' three,
                ),
              ),
              clear block len i j line,
            ),
          )
          | inr other ↦ (
            b,
            e,
            rw
                (
                  lt→ltb i len lt,
                  run,
                  read0,
                  break,
                  read1,
                  ne→== (byte_at block (j + 1)) 0 c2,
                  read2,
                  short,
                  cr,
                  other,
                )
                loop,
            extended block len i j b e ge lt' line
                (starts_none block len j not_two
                  (λ (_, d). ==→ne (byte_at block (j + 2)) b'\n' other d))
                scan,
          )
        ]
        | inr other ↦ (
          b,
          e,
          rw
              (
                lt→ltb i len lt,
                run,
                read0,
                break,
                read1,
                ne→== (byte_at block (j + 1)) 0 c2,
                read2,
                short,
                other,
              )
              loop,
          extended block len i j b e ge lt' line
              (starts_none block len j not_two
                (λ (c, _). ==→ne (byte_at block (j + 1)) b'\r' other c))
              scan,
        )
      ]

  -- A line break at `j`, before the end: the next two bytes decide.
  after_break :
      (fuel i j : ℕ)
      → i < len
      → line_end (length block + 1) block i ≡ ok j
      → i ≤ j
      → j < len
      → byte_at block j ≡ b'\n'
      → ((k : ℕ) → i ≤ k → k < j → byte_at block k ≢ b'\n')
      → ((j + 1 < len)
          → (b : Bool) × (e : ℕ) × (headers_loop fuel block len (j + 1) ≡ ok (b, e))
            × Scanned block len (j + 1) b e)
      → (b : Bool) × (e : ℕ) × (headers_loop (suc fuel) block len i ≡ ok (b, e))
        × Scanned block len i b e
  unfolding headers_loop Scanned
  after_break fuel i j lt run ge lt_j break line later = elim (Bool-cases (j + 1 == len)) [
    | inl last ↦
        let nul : byte_at block (j + 1) ≡ 0 =
          ap (byte_at block) (==→eq (j + 1) len last) ∙ text.nul in
        (
          false,
          j,
          rw
              (
                lt→ltb i len lt,
                run,
                read-ok block j (omega (arith, text.room)),
                break,
                read-ok block (j + 1) (omega (arith, text.room)),
                nul,
              )
              refl,
          (
            clear block len i j line,
            ge,
            omega arith,
            omega (arith, ==→eq (j + 1) len last),
            no_break block len i j line,
          ),
        )
    | inr more ↦
        let lt' : j + 1 < len = omega (arith, ==→ne (j + 1) len more) in
        let c2 : ¬ (byte_at block (j + 1) ≡ 0) = text.clean (j + 1) lt' in
        elim (Bool-cases (byte_at block (j + 1) == b'\n')) [
          | inl two ↦ (
            true,
            j + 2,
            rw
                (
                  lt→ltb i len lt,
                  run,
                  read-ok block j (omega (arith, text.room)),
                  break,
                  read-ok block (j + 1) (omega (arith, text.room)),
                  ne→== (byte_at block (j + 1)) 0 c2,
                  read-ok block (j + 2) (omega (arith, text.room)),
                  two,
                )
                refl,
            (
              j,
              2,
              ge,
              refl,
              lt_j,
              (break, inl (refl, ==→eq (byte_at block (j + 1)) b'\n' two)),
              clear block len i j line,
            ),
          )
          | inr short ↦ long_break fuel i j lt run ge lt' break line c2 short (later lt')
        ]
  ]

  headers_loop-Scanned :
      (fuel i : ℕ)
      → i ≤ len
      → len < i + fuel
      → (b : Bool) × (e : ℕ) × (headers_loop fuel block len i ≡ ok (b, e)) × Scanned block len i b e
  unfolding headers_loop Scanned
  headers_loop-Scanned zero i le enough = absurd (omega arith)
  headers_loop-Scanned (suc fuel) i le enough = elim (Bool-cases (ltb i len)) [
    | inl b ↦
        let lt = ltb→lt i len b in
        let (j, run, ge, le', stop, line) =
          line_end-ok block len text (length block + 1) i le (omega (arith, text.room)) in
        elim (Bool-cases (j == len)) [
          | inl e ↦
              let end = ==→eq j len e in
              let nul : byte_at block j ≡ 0 = ap (byte_at block) end ∙ text.nul in
              (
                false,
                j,
                rw (b, run, read-ok block j (omega (arith, text.room)), nul) refl,
                (clear block len i j line, ge, le', omega arith, no_break block len i j line),
              )
          | inr n ↦
              let lt_j : j < len = omega (arith, ==→ne j len n) in
              let break : byte_at block j ≡ b'\n' = elim stop [
                | inl c ↦ c
                | inr c ↦ absurd (omega arith)
              ] in
              after_break fuel i j lt run ge lt_j break line
                (λ lt'. headers_loop-Scanned fuel (j + 1) (omega arith) (omega arith))
        ]
    | inr b ↦ (
      false,
      i,
      rw b refl,
      (
        λ k ge lt n _. absurd (omega arith),
        omega arith,
        le,
        omega (arith, ltb→ge i len b),
        λ k ge lt _. absurd (omega arith),
      ),
    )
  ]

-- `mboxBufCanParseHeaders` on a text without a NUL in it, which a NUL ends,
-- from an offset inside it, returns, leaves the buffer's bytes alone and moves the
-- offset: where it says yes, to the end of the first blank line ("\n\n" or "\n\r\n") from the
-- old offset on; where it says no, to a place that no blank line starts before, the end of the
-- text or its last byte, and the text goes on behind each line break before that place.
pub can_parse_headers-Scanned :
    (buf : MboxBuf)
    → IsText buf.block buf.len
    → buf.offset ≤ buf.len
    → (found : Bool) × (e : ℕ) × (can_parse_headers buf ≡ ok (found, record buf { offset = e }))
      × Scanned buf.block buf.len buf.offset found e
unfolding can_parse_headers
can_parse_headers-Scanned buf text le =
    let (found, e, run, scan) =
      headers_loop-Scanned buf.block buf.len text (length buf.block + 1) buf.offset le
        (omega (arith, text.room)) in
    (found, e, rw run refl, scan)
