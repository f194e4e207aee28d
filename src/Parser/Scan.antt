-- ===== src/Parser/Scan.antt =====
-- src/mbox-parser.c: the scans through the bytes of a buffer.
pub mod Text
pub mod Line
pub mod Blank
use libmbox.Base.{
  ℕ, zero, suc, ◌+◌, Bool, true, false, ◌||◌, ◌&&◌, List, [], ◌∷◌, ltb, ◌==◌, if◌then◌else◌, length,
}
use libmbox.Base.Outcome.{Outcome, ok, fault, out_of_fuel, ◌>>=◌}
use libmbox.Buf.{MboxBuf}
use libmbox.Buf.Memory.{read}

-- A chain of tests `s[i] == c && …`, which stops at the first that fails.
unfoldable pub match_bytes : List ℕ → ℕ → List ℕ → Outcome Bool
match_bytes block i [] = ok true
match_bytes block i (c ∷ cs) = do
  d ← read block i
  let more = match_bytes block (i + 1) cs
  if d == c then more else ok false

-- "From ".
abbrev pub from_line : List ℕ
from_line = b'F' ∷ b'r' ∷ b'o' ∷ b'm' ∷ b' ' ∷ []

-- `mboxIsFromLine` and `mboxBufMatchFromLine`.
unfoldable pub is_from_line : List ℕ → ℕ → Outcome Bool
unfolding match_bytes
is_from_line block i = match_bytes block i (b'\n' ∷ from_line)

unfoldable pub match_from_line : MboxBuf → Outcome Bool
unfolding match_bytes
match_from_line buf = match_bytes buf.block buf.offset from_line

-- `while (buf->offset < buf->len) { if (data[offset] == '\n') break; offset++; }`
unfoldable pub find_newline : ℕ → MboxBuf → Outcome MboxBuf
find_newline zero buf = out_of_fuel
find_newline (suc fuel) buf =
    let look = (do
      c ← read buf.block buf.offset
      let more = find_newline fuel (record buf { offset = buf.offset + 1 })
      if c == b'\n' then ok buf else more) in
    if ltb buf.offset buf.len then look else ok buf

-- `while (data[i] != '\n' && data[i] != '\0') i++;`: the index where the loop stops.
unfoldable pub line_end : ℕ → List ℕ → ℕ → Outcome ℕ
line_end zero block i = out_of_fuel
line_end (suc fuel) block i = do
  c ← read block i
  let more = line_end fuel block (i + 1)
  if (c == b'\n') || (c == 0) then ok i else more

-- The loop of `mboxBufCanParseHeaders`, from offset `i`: the result, and the offset that is left.
unfoldable pub headers_loop : ℕ → List ℕ → (len i : ℕ) → Outcome (Bool × ℕ)
unfolding line_end
headers_loop zero block len i = out_of_fuel
headers_loop (suc fuel) block len i =
    let body = (do
      i ← line_end (length block + 1) block i
      c1 ← read block i
      let rest = (do
        c2 ← read block (i + 1)
        let third = (do
          c3 ← read block (i + 2)
          let more = headers_loop fuel block len (i + 1)
          if c2 == b'\n'
              then ok (true, i + 2)
              else if (c2 == b'\r') && (c3 == b'\n')
              then ok (true, i + 3)
              else more)
        if c2 == 0 then ok (false, i) else third)
      if c1 == 0 then ok (false, i) else rest) in
    if ltb i len then body else ok (false, i)

unfoldable pub can_parse_headers : MboxBuf → Outcome (Bool × MboxBuf)
unfolding headers_loop
can_parse_headers buf = do
  (found, i) ← headers_loop (length buf.block + 1) buf.block buf.len buf.offset
  ok (found, record buf { offset = i })
