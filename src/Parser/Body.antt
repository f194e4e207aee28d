-- ===== src/Parser/Body.antt =====
-- src/mbox-parser.c: the parts of a message with boundaries, and the sender's name and address.
use libmbox.Base.{
  ℕ, zero, suc, ◌+◌, Bool, true, false, not, ◌||◌, ◌&&◌, List, Option, none, some, ltb, leb, ◌==◌,
  if◌then◌else◌, length, drop,
}
use libmbox.Base.Outcome.{Outcome, ok, out_of_fuel, ◌>>=◌}
use libmbox.Buf.{
  MboxBuf, alloc, put_char, match_char, match_char_at, get_char, would_overflow, dup_raw, add_size,
  sub_size,
}
use libmbox.Buf.Compare.{strncmp}
use libmbox.Buf.Memory.{Allocator, read, fetch}
use libmbox.Buf.Mime.{is_mime_encoded, decode_mime_encoded_inplace}
use libmbox.Parser.Headers.{Headers, parse_email_headers}
use libmbox.RbTree.{Sign, equal}

-- MBOX_MSG_EOF, MBOX_MSG_NO_MATCH, MBOX_MSG_EOM and MBOX_MSG_MATCH.
pub data MsgStatus : Type 0 where
  msg_eof no_match eom match : MsgStatus

abbrev pub is_equal : Sign → Bool
is_equal equal = true
is_equal _ = false

-- `strncmp(data + i, boundary->data, boundary->len) == 0`
unfoldable pub boundary_at : List ℕ → ℕ → MboxBuf → Outcome Bool
unfolding strncmp
boundary_at block i boundary = do
  s ← strncmp (drop i block) boundary.block boundary.len
  ok (is_equal s)

unfoldable pub parse_is_boundary : MboxBuf → MboxBuf → Outcome Bool
unfolding boundary_at
parse_is_boundary buf boundary = boundary_at buf.block buf.offset boundary

unfoldable pub is_eom : MboxBuf → MboxBuf → Outcome (MsgStatus × MboxBuf)
unfolding match_char match_char_at would_overflow boundary_at
is_eom buf boundary = do
  dash ← match_char buf b'-'
  dashes ← if dash then match_char_at buf b'-' 1 else ok false
  let look = (do
    contains ← boundary_at buf.block (buf.offset + 2) boundary
    let matched = (do
      c ← read buf.block (buf.offset + 2 + boundary.len)
      last ←
          if c == b'-'
          then (do d ← read buf.block (buf.offset + 3 + boundary.len); ok (not (d == 0)))
          else ok false
      if last
          then ok (eom, record buf { offset = buf.offset + (4 + boundary.len) })
          else ok (match, record buf { offset = buf.offset + (2 + boundary.len) }))
    if contains then matched else ok (no_match, buf))
  if dashes
      then (if would_overflow buf (3 + boundary.len) then ok (msg_eof, buf) else look)
      else ok (no_match, buf)

-- `while (!match(stop) && !match('\0')) advance`
unfoldable pub scan_to : ℕ → ℕ → MboxBuf → Outcome MboxBuf
unfolding match_char
scan_to stop zero buf = out_of_fuel
scan_to stop (suc fuel) buf = do
  here ← match_char buf stop
  let next = (do
    nul ← match_char buf 0
    let more = scan_to stop fuel (record buf { offset = buf.offset + 1 })
    if nul then ok buf else more)
  if here then ok buf else next

-- `while (!match(stop)) advance`
unfoldable pub advance_to : ℕ → ℕ → MboxBuf → Outcome MboxBuf
unfolding match_char
advance_to stop zero buf = out_of_fuel
advance_to stop (suc fuel) buf = do
  here ← match_char buf stop
  let more = advance_to stop fuel (record buf { offset = buf.offset + 1 })
  if here then ok buf else more

module _ (m : Allocator) where
  -- `while (!match(stop)) { if (!match(skip)) put_char(out, get_char); advance; }`
  unfoldable pub copy_to :
      (stop : ℕ) (skip : ℕ → Bool) → ℕ → MboxBuf → MboxBuf → Outcome (MboxBuf × MboxBuf)
  unfolding match_char get_char
  copy_to stop skip zero buf out = out_of_fuel
  copy_to stop skip (suc fuel) buf out = do
    here ← match_char buf stop
    let more = (do
      d ← read buf.block buf.offset
      c ← get_char buf
      out ← if skip d then ok out else put_char m out c
      copy_to stop skip fuel (record buf { offset = buf.offset + 1 }) out)
    if here then ok (buf, out) else more

  -- `parseBoundaryMark`: the mark, if there is one, and the buffer behind it.
  unfoldable pub parse_boundary_mark : MboxBuf → Outcome (Option MboxBuf × MboxBuf)
  unfolding scan_to copy_to match_char alloc
  parse_boundary_mark content_type = do
    let fuel = length content_type.block + 1
    buf ← scan_to b'b' fuel content_type
    nul ← match_char buf 0
    let equals = (do
      buf ← scan_to b'=' fuel buf
      nul ← match_char buf 0
      let mark = (do
        let buf = record buf { offset = buf.offset + 1 }
        quoted ← match_char buf b'"'
        let inside = (do
          (buf, boundary) ←
              copy_to b'"' (λ c. false) fuel (record buf { offset = buf.offset + 1 }) (alloc m 200)
          ok (some boundary, buf))
        let plain = (do
          (buf, boundary) ← copy_to 0 (λ c. c == b'\r') fuel buf (alloc m 200)
          ok (some boundary, buf))
        if quoted then inside else plain)
      if nul then ok (none, buf) else mark)
    if nul then ok (none, buf) else equals

  -- `while (isspace(get_char)) advance`, in the C locale.
  unfoldable pub skip_space : ℕ → MboxBuf → Outcome MboxBuf
  unfolding get_char
  skip_space zero buf = out_of_fuel
  skip_space (suc fuel) buf = do
    c ← get_char buf
    let more = skip_space fuel (record buf { offset = buf.offset + 1 })
    if (c == b' ') || (leb 9 c && leb c 13) then more else ok buf

  -- The loop that copies the name, up to " <", a quote, a "<" or the end.
  unfoldable pub copy_name : ℕ → MboxBuf → MboxBuf → Outcome (MboxBuf × MboxBuf)
  unfolding match_char match_char_at get_char
  copy_name zero buf name = out_of_fuel
  copy_name (suc fuel) buf name = do
    c ← read buf.block buf.offset
    let body = (do
      angle ← match_char_at buf b'<' 1
      let more = (do
        ch ← get_char buf
        name ← put_char m name ch
        copy_name fuel (record buf { offset = buf.offset + 1 }) name)
      if angle && (c == b' ') then ok (buf, name) else more)
    if (c == b'<') || ((c == b'"') || (c == 0)) then ok (buf, name) else body

  -- The last loop of `mboxParseFrom`: it stops at a "<", not at the ">" behind the address.
  unfoldable pub copy_email : ℕ → MboxBuf → MboxBuf → Outcome (MboxBuf × MboxBuf)
  unfolding get_char
  copy_email zero buf email = out_of_fuel
  copy_email (suc fuel) buf email = do
    c ← read buf.block buf.offset
    let more = (do
      ch ← get_char buf
      email ← put_char m email ch
      copy_email fuel (record buf { offset = buf.offset + 1 }) email)
    if (c == b'<') || (c == 0) then ok (buf, email) else more

  -- `mboxParseFrom`: the name, if there is one, and the address.
  unfoldable pub parse_from : MboxBuf → Outcome (Option MboxBuf × MboxBuf)
  unfolding skip_space copy_name copy_email advance_to match_char is_mime_encoded
      decode_mime_encoded_inplace alloc
  parse_from buf = do
    let fuel = length buf.block + 2
    buf ← skip_space fuel buf
    bare ← match_char buf b'<'
    let named = (do
      quoted ← match_char buf b'"'
      let buf = if quoted then record buf { offset = buf.offset + 1 } else buf
      (buf, name) ← copy_name fuel buf (alloc m 100)
      buf ← advance_to b'<' fuel buf
      encoded ← is_mime_encoded name
      name ← if encoded then decode_mime_encoded_inplace name else ok name
      ok (some name, record buf { offset = buf.offset + 1 }))
    (name, buf) ← if bare then ok (none, record buf { offset = buf.offset + 1 }) else named
    (buf, email) ← copy_email fuel buf (alloc m 100)
    ok (name, email)

  -- `while (data[offset] != '-' && data[offset + 1] != first) offset++`
  unfoldable pub skip_to_mark : ℕ → ℕ → MboxBuf → Outcome MboxBuf
  skip_to_mark zero first buf = out_of_fuel
  skip_to_mark (suc fuel) first buf = do
    c ← read buf.block buf.offset
    d ← if c == b'-' then ok first else read buf.block (buf.offset + 1)
    let more = skip_to_mark fuel first (record buf { offset = buf.offset + 1 })
    if d == first then ok buf else more

  -- The loop of `mboxParseMessageBody`, from `start`; `status` is what `*msgstatus` holds.
  unfoldable pub body_loop :
      ℕ
      → MboxBuf
      → (boundary : MboxBuf) (start : ℕ) → MsgStatus
      → Outcome (Option MboxBuf × MsgStatus × MboxBuf)
  unfolding skip_to_mark parse_is_boundary dup_raw
  body_loop zero buf boundary start status = out_of_fuel
  body_loop (suc fuel) buf boundary start status =
      let look = (do
        first ← read boundary.block 0
        buf ← skip_to_mark (length buf.block + 1) first buf
        let buf = record buf { offset = buf.offset + 1 }
        isboundary ← parse_is_boundary buf boundary
        let found = (do
          let bodylen = sub_size (sub_size buf.offset 2) start
          bytes ← fetch buf.block start bodylen
          body ← dup_raw m bytes (add_size bodylen 10)
          let behind = add_size buf.offset boundary.len
          c ← read buf.block behind
          last ←
              if c == b'-' then (do d ← read buf.block (behind + 1); ok (d == b'-')) else ok false
          if last
              then ok (some body, eom, record buf { offset = behind + 4 })
              else ok
                  (some body, match, record buf { offset = sub_size behind (boundary.len + 2) }))
        let more = body_loop fuel buf boundary start status
        if isboundary then found else more) in
      if ltb buf.offset buf.len then look else ok (none, status, buf)

  unfoldable pub parse_message_body :
      MboxBuf → (boundary : MboxBuf) → MsgStatus → Outcome (Option MboxBuf × MsgStatus × MboxBuf)
  unfolding body_loop
  parse_message_body buf boundary status = do
    (body, status, buf) ← body_loop (length buf.block + 1) buf boundary buf.offset status
    ok (body, if buf.offset + 1 == buf.len then msg_eof else status, buf)

  -- `mboxParseMulitpartAlternative`: the headers and the body of the next part, if there is one.
  unfoldable pub parse_multipart_alternative :
      ℕ
      → List ℕ
      → MboxBuf
      → (boundary : MboxBuf) → Outcome (Option (Headers × Option MboxBuf) × MsgStatus × MboxBuf)
  unfolding advance_to is_eom parse_email_headers parse_message_body
  parse_multipart_alternative zero stack buf boundary = out_of_fuel
  parse_multipart_alternative (suc fuel) stack buf boundary = do
    buf ← advance_to b'-' (length buf.block + 1) buf
    (status, buf) ← is_eom buf boundary
    let part = (do
      (headers, buf) ← parse_email_headers m stack buf
      (body, status, buf) ← parse_message_body buf boundary status
      ok (some (headers, body), status, buf))
    let more =
        parse_multipart_alternative fuel stack (record buf { offset = buf.offset + 1 }) boundary
    elim status [ msg_eof ↦ ok (none, msg_eof, buf) | no_match ↦ more | eom ↦ part | match ↦ part ]
