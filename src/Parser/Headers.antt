-- ===== src/Parser/Headers.antt =====
-- src/mbox-parser.c: `mboxParseEmailHeaders`, and src/mbox-common-headers.c: the look-up of a header.
use libmbox.Base.{
  ℕ, zero, suc, ◌+◌, Bool, false, ◌||◌, List, [], ◌∷◌, Option, ltb, ◌==◌, if◌then◌else◌, length,
}
use libmbox.Base.Outcome.{Outcome, ok, fault, out_of_fuel, ◌>>=◌}
use libmbox.Buf.{MboxBuf, alloc, put_char, match_char, get_char, slice, dup, dup_raw}
use libmbox.Buf.Compare.{case_cmp}
use libmbox.Buf.Memory.{Allocator, read}
use libmbox.Buf.Mime.{is_mime_encoded, decode_mime_encoded}
use libmbox.Parser.Scan.{match_from_line}
use libmbox.RbTree.{Sign, equal, MboxRbTree, tree_new, insert, get}

abbrev pub is_line : ℕ → Bool
is_line c = (c == b'\r') || (c == b'\n')

-- `mboxBufCaseCmp` of two keys; on valid buffers it does not fault.
unfoldable pub header_cmp : MboxBuf → MboxBuf → Sign
unfolding case_cmp
header_cmp a b = elim (case_cmp a b) [ ok s ↦ s | fault ↦ equal | out_of_fuel ↦ equal | _ ↦ equal ]

-- "__FROM_LINE__".
abbrev pub from_line_key : List ℕ
from_line_key =
    b'_' ∷ b'_' ∷ b'F' ∷ b'R' ∷ b'O' ∷ b'M' ∷ b'_' ∷ b'L' ∷ b'I' ∷ b'N' ∷ b'E' ∷ b'_' ∷ b'_' ∷ []

abbrev pub Headers : Type 0
Headers = MboxRbTree MboxBuf MboxBuf

-- `while (isLine(data[offset])) offset++;`
unfoldable pub skip_lines : ℕ → MboxBuf → Outcome MboxBuf
skip_lines zero buf = out_of_fuel
skip_lines (suc fuel) buf = do
  c ← read buf.block buf.offset
  let more = skip_lines fuel (record buf { offset = buf.offset + 1 })
  if is_line c then more else ok buf

-- The same with `mboxBufGetChar` and `mboxBufAdvance`.
unfoldable pub skip_lines_get : ℕ → MboxBuf → Outcome MboxBuf
unfolding get_char
skip_lines_get zero buf = out_of_fuel
skip_lines_get (suc fuel) buf = do
  c ← get_char buf
  let more = skip_lines_get fuel (record buf { offset = buf.offset + 1 })
  if is_line c then more else ok buf

module _ (m : Allocator) where
  -- `while (data[offset] != stop) { if (…) put_char; offset++; }`
  unfoldable pub copy_until :
      (stop : ℕ) (skip : ℕ → Bool) → ℕ → MboxBuf → MboxBuf → Outcome (MboxBuf × MboxBuf)
  copy_until stop skip zero buf out = out_of_fuel
  copy_until stop skip (suc fuel) buf out = do
    c ← read buf.block buf.offset
    let more = (do
      out ← if skip c then ok out else put_char m out c
      copy_until stop skip fuel (record buf { offset = buf.offset + 1 }) out)
    if c == stop then ok (buf, out) else more

  -- The loop over the lines of a value: a line that starts with a blank goes on with it.
  unfoldable pub read_value : ℕ → MboxBuf → MboxBuf → Outcome (MboxBuf × MboxBuf)
  unfolding copy_until match_char
  read_value zero buf value = out_of_fuel
  read_value (suc fuel) buf value = do
    (buf, value) ←
        copy_until b'\n' (λ c. (c == b'\r') || (c == b'\t')) (length buf.block + 1) buf value
    let buf = record buf { offset = buf.offset + 1 }
    let more = read_value fuel buf value
    space ← match_char buf b' '
    let tabbed = (do tab ← match_char buf b'\t'; if tab then more else ok (buf, value))
    if space then more else tabbed

  -- The line "From …" before the headers: it is put into the tree, and left in `key`.
  unfoldable pub read_from_line :
      MboxBuf → MboxBuf → Headers → Outcome (MboxBuf × MboxBuf × Headers)
  unfolding copy_until dup_raw dup insert
  read_from_line buf key headers = do
    (buf, key) ← copy_until b'\n' (λ c. c == b'\r') (length buf.block + 1) buf key
    k ← dup_raw m from_line_key 14
    v ← dup m key
    headers ← insert header_cmp headers k v
    ok (record buf { offset = buf.offset + 1 }, key, headers)

  -- A header: its key and its value, and the buffer behind it.
  unfoldable pub read_header :
      MboxBuf → (key value : MboxBuf) → Outcome (MboxBuf × MboxBuf × MboxBuf)
  unfolding copy_until read_value
  read_header buf key value = do
    (buf, key) ← copy_until b':' (λ c. false) (length buf.block + 1) buf key
    (buf, value) ← read_value (length buf.block + 1) (record buf { offset = buf.offset + 2 }) value
    ok (buf, key, value)

  unfoldable pub store_header : List ℕ → (key value : MboxBuf) → Headers → Outcome Headers
  unfolding is_mime_encoded decode_mime_encoded dup insert
  store_header stack key value headers = do
    encoded ← is_mime_encoded value
    v ← if encoded then decode_mime_encoded m stack value else dup m value
    k ← dup m key
    insert header_cmp headers k v

  unfoldable pub headers_loop :
      ℕ → List ℕ → MboxBuf → (key value : MboxBuf) → Headers → Outcome (Headers × MboxBuf)
  unfolding read_from_line read_header store_header skip_lines_get slice match_from_line get_char
  headers_loop zero stack buf key value headers = out_of_fuel
  headers_loop (suc fuel) stack buf key value headers =
      let body = (do
        from ← match_from_line buf
        (buf, key, headers) ←
            if from then read_from_line buf key headers else ok (buf, key, headers)
        (buf, key, value) ← read_header buf key value
        headers ← store_header stack key value headers
        key ← slice key 0 0 0
        value ← slice value 0 0 0
        c ← get_char buf
        let last = (do buf ← skip_lines_get (length buf.block + 1) buf; ok (headers, buf))
        let more = headers_loop fuel stack buf key value headers
        if is_line c then last else more) in
      if ltb buf.offset buf.len then body else ok (headers, buf)

  unfoldable pub parse_email_headers : List ℕ → MboxBuf → Outcome (Headers × MboxBuf)
  unfolding skip_lines headers_loop alloc tree_new
  parse_email_headers stack buf = do
    buf ← skip_lines (length buf.block + 1) buf
    headers_loop (length buf.block + 1) stack buf (alloc m 3000) (alloc m 3000) tree_new

-- The names of the headers that are looked up, and the length that their entry gives; that of
-- "Subject" counts the NUL of the literal.
pub data Header : Type 0 where
  from_line content_type transfer_encoding from date gmail_labels subject msg_id : Header

unfoldable pub header_name : Header → List ℕ
header_name from_line =
    b'_' ∷ b'_' ∷ b'F' ∷ b'R' ∷ b'O' ∷ b'M' ∷ b'_' ∷ b'L' ∷ b'I' ∷ b'N' ∷ b'E' ∷ b'_' ∷ b'_' ∷ 0
    ∷ []
header_name content_type =
    b'C' ∷ b'o' ∷ b'n' ∷ b't' ∷ b'e' ∷ b'n' ∷ b't' ∷ b'-' ∷ b'T' ∷ b'y' ∷ b'p' ∷ b'e' ∷ 0 ∷ []
header_name transfer_encoding =
    b'C' ∷ b'o' ∷ b'n' ∷ b't' ∷ b'e' ∷ b'n' ∷ b't' ∷ b'-' ∷ b'T' ∷ b'r' ∷ b'a' ∷ b'n' ∷ b's' ∷ b'f'
    ∷ b'e' ∷ b'r' ∷ b'-' ∷ b'E' ∷ b'n' ∷ b'c' ∷ b'o' ∷ b'd' ∷ b'i' ∷ b'n' ∷ b'g' ∷ 0 ∷ []
header_name from = b'F' ∷ b'r' ∷ b'o' ∷ b'm' ∷ 0 ∷ []
header_name date = b'D' ∷ b'a' ∷ b't' ∷ b'e' ∷ 0 ∷ []
header_name gmail_labels =
    b'X' ∷ b'-' ∷ b'G' ∷ b'm' ∷ b'a' ∷ b'i' ∷ b'l' ∷ b'-' ∷ b'L' ∷ b'a' ∷ b'b' ∷ b'e' ∷ b'l' ∷ b's'
    ∷ 0 ∷ []
header_name subject = b'S' ∷ b'u' ∷ b'b' ∷ b'j' ∷ b'e' ∷ b'c' ∷ b't' ∷ 0 ∷ []
header_name msg_id = b'M' ∷ b'e' ∷ b's' ∷ b's' ∷ b'a' ∷ b'g' ∷ b'e' ∷ b'-' ∷ b'I' ∷ b'D' ∷ 0 ∷ []

unfoldable pub header_size : Header → ℕ
header_size from_line = 13
header_size content_type = 12
header_size transfer_encoding = 25
header_size from = 4
header_size date = 4
header_size gmail_labels = 14
header_size subject = 8
header_size msg_id = 10

unfoldable pub header_key : Header → MboxBuf
unfolding header_name header_size
header_key h = record { block = header_name h; offset = 0; len = header_size h; capacity = 0 }

unfoldable pub headers_get : Headers → Header → Option MboxBuf
unfolding get header_key
headers_get headers h = get header_cmp headers (header_key h)
