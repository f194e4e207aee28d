-- ===== src/Buf/Escape.antt =====
-- src/mbox-buf.c: `mboxBufCatPrintf` and `mboxBufEscapeString`.
use Prim.Native.Nat.{max}
use libmbox.Base.{
  ℕ, zero, suc, ◌+◌, ◌-◌, ◌*◌, ◌/◌, ◌%◌, ◌^◌, ◌≤◌, ◌<◌, ◌≡◌, refl, sym, ap, ◌∙◌, Bool, true, false,
  not, ◌&&◌, List, [], ◌∷◌, ◌++◌, append_assoc, append-nil, arith, ltb, ◌==◌, if◌then◌else◌, ge→ltb,
  length, ne→==,
}
use libmbox.Base.Outcome.{Outcome, ok, fault, ◌>>=◌}
use libmbox.Buf.{MboxBuf, alloc, put_char, cat_len, add_size}
use libmbox.Buf.Append.{Gives, put_char-grown, cat_len-grown}
use libmbox.Buf.CString.{IsCString, IsCString-fits}
use libmbox.Buf.Memory.{Allocator, read, read-ok, length-malloc}
use libmbox.Buf.Valid.{Grants, IsRoomy, text}

-- A round of the loop that prints `printed` into a buffer of `bufferlen` bytes: what fits leaves the NUL
-- that was put in front of the last byte. What does not fit takes another round, which hands
-- `vsnprintf` the arguments `ap` again, although the first has used them: C leaves that undefined.
unfoldable pub cat_printf_loop : Allocator → MboxBuf → ℕ → List ℕ → Outcome MboxBuf
cat_printf_loop m b bufferlen printed =
    if ltb (bufferlen - 2) (length printed) then fault else cat_len m b printed

-- `fmtlen` is the length of the format, `printed` what it gives for the arguments.
unfoldable pub cat_printf : Allocator → MboxBuf → (fmtlen : ℕ) → List ℕ → Outcome MboxBuf
unfolding cat_printf_loop
cat_printf m b fmtlen printed = cat_printf_loop m b (max (fmtlen * 3) 512) printed

-- A hexadecimal digit, and the text of "u%04x" for a byte.
unfoldable pub hex_digit : ℕ → ℕ
hex_digit n = if ltb n 10 then n + b'0' else n - 10 + b'a'

unfoldable pub u04x : ℕ → List ℕ
unfolding hex_digit
u04x c = b'u' ∷ b'0' ∷ b'0' ∷ hex_digit (c / 16) ∷ hex_digit (c % 16) ∷ []

-- The case that comes behind a backslash.
unfoldable pub escape_case : Allocator → MboxBuf → ℕ → Outcome MboxBuf
unfolding cat_printf u04x
escape_case m b c =
    if c == b'\\'
    then put_char m b b'\\'
    else if c == b'"'
    then put_char m b b'"'
    else if c == 8
    then put_char m b b'b'
    else if c == b'\n'
    then put_char m b b'n'
    else if c == b'\t'
    then put_char m b b't'
    else if c == 11
    then put_char m b b'v'
    else if c == 12
    then put_char m b b'f'
    else if c == b'\r'
    then put_char m b b'r'
    else cat_printf m b 5 (u04x c)

unfoldable pub escape_byte : Allocator → MboxBuf → ℕ → Outcome MboxBuf
unfolding escape_case
escape_byte m b c =
    if ltb 31 c && (not (c == b'"') && not (c == b'\\'))
    then put_char m b c
    else (do b ← put_char m b b'\\'; escape_case m b c)

-- `while (*ptr)`, from index `i` with `left` bytes of the block to go.
unfoldable pub escape_loop : Allocator → List ℕ → ℕ → ℕ → MboxBuf → Outcome MboxBuf
escape_loop m block zero i outstr = fault
escape_loop m block (suc left) i outstr = do
  c ← read block i
  let more = (do b ← escape_byte m outstr c; escape_loop m block left (i + 1) b)
  if c == 0 then ok outstr else more

unfoldable pub escape_string : Allocator → MboxBuf → Outcome MboxBuf
unfolding escape_loop alloc
escape_string m buf = escape_loop m buf.block (length buf.block + 1) 0 (alloc m buf.capacity)

-- What is written behind the backslash, for one byte, and for a text.
unfoldable pub escaped_case : ℕ → List ℕ
unfolding u04x
escaped_case c =
    if c == b'\\'
    then b'\\' ∷ []
    else if c == b'"'
    then b'"' ∷ []
    else if c == 8
    then b'b' ∷ []
    else if c == b'\n'
    then b'n' ∷ []
    else if c == b'\t'
    then b't' ∷ []
    else if c == 11
    then b'v' ∷ []
    else if c == 12
    then b'f' ∷ []
    else if c == b'\r'
    then b'r' ∷ []
    else u04x c

unfoldable pub escaped_byte : ℕ → List ℕ
unfolding escaped_case
escaped_byte c =
    if ltb 31 c && (not (c == b'"') && not (c == b'\\')) then c ∷ [] else b'\\' ∷ escaped_case c

unfoldable pub escaped : List ℕ → List ℕ
unfolding escaped_byte
escaped [] = []
escaped (c ∷ cs) = escaped_byte c ++ escaped cs

-- The call returns a valid buffer with room to spare that has these bytes more, and has grown by at
-- most `n` bytes.
abbrev Adds : MboxBuf → List ℕ → ℕ → Outcome MboxBuf → Type 0
Adds b s n r = Gives r λ b'. (text b' ≡ text b ++ s) × IsRoomy b' × (b'.capacity ≤ b.capacity + n)

Adds-if :
    (t : Bool) (b : MboxBuf) (s s' : List ℕ) (n : ℕ) {r r' : Outcome MboxBuf}
    → Adds b s n r
    → Adds b s' n r'
    → Adds b (if t then s else s') n (if t then r else r')
Adds-if true b s s' n x y = x
Adds-if false b s s' n x y = y

module _ (m : Allocator) (g : Grants m) where
  put-Adds :
      (b : MboxBuf) (c : ℕ)
      → IsRoomy b
      → b.capacity + 256 < 2 ^ 63
      → Adds b (c ∷ []) 256 (put_char m b c)
  put-Adds b c r small =
      let (b', run, (text', _, roomy, _, bound)) = put_char-grown m b c g r.valid small in
      (b', run, (text', roomy, bound))

  -- `mboxBufCatPrintf` appends what is printed, where that is at most 510 bytes.
  pub cat_printf-eq :
      (b : MboxBuf) (fmtlen : ℕ) (s : List ℕ)
      → length s ≤ 510
      → cat_printf m b fmtlen s ≡ cat_len m b s
  unfolding cat_printf cat_printf_loop
  cat_printf-eq b fmtlen s short =
      let fits : ltb (max (fmtlen * 3) 512 - 2) (length s) ≡ false =
        ge→ltb (max (fmtlen * 3) 512 - 2) (length s) (omega arith) in
      rw fits refl

  u04x-Adds :
      (b : MboxBuf) (c : ℕ)
      → IsRoomy b
      → b.capacity + 512 < 2 ^ 63
      → Adds b (u04x c) 256 (cat_printf m b 5 (u04x c))
  unfolding u04x
  u04x-Adds b c r small =
      let (b', run, (text', _, roomy, _, bound)) =
        cat_len-grown m b (u04x c) g r (omega arith) (omega arith) in
      (b', cat_printf-eq b 5 (u04x c) (omega arith) ∙ run, (text', roomy, omega arith))

  escape_case-Adds :
      (b : MboxBuf) (c : ℕ)
      → IsRoomy b
      → b.capacity + 512 < 2 ^ 63
      → Adds b (escaped_case c) 256 (escape_case m b c)
  unfolding escape_case escaped_case
  escape_case-Adds b c r small =
      let put : (d : ℕ) → Adds b (d ∷ []) 256 (put_char m b d) =
        λ d. put-Adds b d r (omega arith) in
      Adds-if (c == b'\\') b _ _ _ (put b'\\') (
        Adds-if (c == b'"') b _ _ _ (put b'"') (
          Adds-if (c == 8) b _ _ _ (put b'b') (
            Adds-if (c == b'\n') b _ _ _ (put b'n') (
              Adds-if (c == b'\t') b _ _ _ (put b't') (
                Adds-if (c == 11) b _ _ _ (put b'v') (
                  Adds-if (c == 12) b _ _ _ (put b'f')
                    (Adds-if (c == b'\r') b _ _ _ (put b'r') (u04x-Adds b c r small))))))))

  escape_byte-Adds :
      (b : MboxBuf) (c : ℕ)
      → IsRoomy b
      → b.capacity + 768 < 2 ^ 63
      → Adds b (escaped_byte c) 512 (escape_byte m b c)
  unfolding escape_byte escaped_byte
  escape_byte-Adds b c r small =
      Adds-if (ltb 31 c && (not (c == b'"') && not (c == b'\\'))) b _ _ _
        (let (b', run, (text', roomy, bound)) = put-Adds b c r (omega arith) in
          (b', run, (text', roomy, omega arith)))
        (let (b₁, run₁, (text₁, roomy₁, bound₁)) = put-Adds b b'\\' r (omega arith) in
          let (b₂, run₂, (text₂, roomy₂, bound₂)) = escape_case-Adds b₁ c roomy₁ (omega arith) in
          (
            b₂,
            rw run₁ run₂,
            (
              text₂
                  ∙ ap (λ t. t ++ escaped_case c) text₁
                  ∙ append_assoc (text b) (b'\\' ∷ []) (escaped_case c),
              roomy₂,
              omega arith,
            ),
          ))

  escape_loop-Adds :
      (block s : List ℕ) (left i : ℕ) (b : MboxBuf)
      → IsCString block i s
      → length s < left
      → IsRoomy b
      → b.capacity + 512 * length s + 768 < 2 ^ 63
      → Adds b (escaped s) (512 * length s) (escape_loop m block left i b)
  unfolding escape_loop escaped
  escape_loop-Adds block s zero i b at_i lt r small = absurd (omega arith)
  escape_loop-Adds block [] (suc left) i b (in_block, nul) lt r small =
      (b, rw (read-ok block i in_block, nul) refl, (sym (append-nil (text b)), r, omega arith))
  escape_loop-Adds block (c ∷ cs) (suc left) i b (in_block, at_i, ne, after) lt r small =
      let (b₁, run₁, (text₁, roomy₁, bound₁)) = escape_byte-Adds b c r (omega arith) in
      let (b₂, run₂, (text₂, roomy₂, bound₂)) =
        escape_loop-Adds block cs left (i + 1) b₁ after (omega arith) roomy₁ (omega arith) in
      (
        b₂,
        rw (read-ok block i in_block, at_i, ne→== c 0 ne, run₁) run₂,
        (
          text₂
              ∙ ap (λ t. t ++ escaped cs) text₁
              ∙ append_assoc (text b) (escaped_byte c) (escaped cs),
          roomy₂,
          omega arith,
        ),
      )

  -- With memory to be had, `mboxBufEscapeString` of a buffer that holds a C string, and whose
  -- capacity with 512 bytes for each byte of it stays below 2 ^ 63, returns a valid buffer
  -- whose text is that string, each byte escaped in turn.
  pub escape_string-text :
      (b : MboxBuf) (s : List ℕ)
      → IsCString b.block 0 s
      → b.capacity + 512 * length s + 1024 < 2 ^ 63
      → Gives (escape_string m b) λ b'. (text b' ≡ escaped s) × IsRoomy b'
  unfolding escape_string alloc
  escape_string-text b s at_0 small =
      let wide : add_size b.capacity 10 ≡ b.capacity + 10 = omega arith in
      let size = length-malloc m (add_size b.capacity 10) in
      let roomy : IsRoomy (alloc m b.capacity) = record {
        valid = record {
          room = omega arith;
          fits = omega arith;
          held = omega arith;
          small = omega arith;
        };
        spare = omega arith;
      } in
      let (b', run, (text', roomy', _)) =
        escape_loop-Adds b.block s (length b.block + 1) 0 (alloc m b.capacity) at_0
          (omega (arith, IsCString-fits b.block s 0 at_0)) roomy (omega arith) in
      (b', run, (text', roomy'))
