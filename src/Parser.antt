-- ===== src/Parser.antt =====
-- src/mbox-parser.c: the context of a reader of a range of the file, and the scans that find the
-- messages in it. An `offset++` is `+ 1`: an offset that leaves the block faults long before it wraps.
pub mod Scan
pub mod Headers
pub mod Body
pub mod SeekStart
pub mod Messages
pub mod Reader
mod Tests
use libmbox.Base.{
  ℕ, zero, suc, ◌+◌, ◌-◌, Bool, true, false, not, ◌||◌, ◌&&◌, List, [], ◌∷◌, Option, none, some,
  ltb, leb, ◌==◌, if◌then◌else◌, length,
}
use libmbox.Base.Outcome.{Outcome, ok, fault, out_of_fuel, ◌>>=◌}
use libmbox.Buf.{MboxBuf, set_len, set_offset, slice, dup_raw, add_size, sub_size}
use libmbox.Buf.Memory.{Allocator, fetch, read}
use libmbox.Io.{Os, MboxIoCtx, is_io_ok, is_io_eof, count_of, io_new, io_read, io_read_size}
use Scan.{can_parse_headers, is_from_line, find_newline, match_bytes, from_line}

-- `struct mboxParserCtx`; `done` is that `err` is MBOX_PARSE_DONE.
pub record MboxParserCtx : Type 0 where
  pub id : ℕ
  pub done : Bool
  pub parsed : ℕ
  pub ioctx : MboxIoCtx

-- `mboxIOMsg`: a message, and the range of the file where it stands.
pub record MboxIoMsg : Type 0 where
  pub buf : MboxBuf
  pub start_offset : ℕ
  pub end_offset : ℕ

module _ (m : Allocator) where
  unfoldable pub parser_ctx_new : (id file_size : ℕ) → MboxParserCtx
  unfolding io_new
  parser_ctx_new id file_size = record {
    id = id;
    done = false;
    parsed = 0;
    ioctx = io_new m file_size;
  }

  -- The loop of `mboxParserCtxSeekHeaders`: true for 1, false for 0. The parameter is what the system
  -- calls return in each round.
  unfoldable pub seek_headers : ℕ → (ℕ → Os) → MboxIoCtx → Outcome (Bool × MboxIoCtx)
  unfolding can_parse_headers io_read
  seek_headers zero os ctx = out_of_fuel
  seek_headers (suc fuel) os ctx = do
    (found, buf) ← can_parse_headers ctx.buf
    let ctx = record ctx { buf = buf }
    let again = (do
      first ← read buf.block 0
      let refill = (do
        (rbytes, ctx') ← io_read m (os fuel) ctx io_read_size buf.len ctx.file_offset
        let next =
            seek_headers fuel os (record ctx' { file_offset = ctx'.file_offset + count_of rbytes })
        if (count_of rbytes == 0) || not (is_io_ok ctx'.err) then ok (false, ctx') else next)
      let same = seek_headers fuel os ctx
      if (first == 0) || leb buf.len (buf.offset + 1) then refill else same)
    if found then ok (true, ctx) else again

  -- What `mboxParserCtxSeekNextFromLine` returns: 1, 0, or an error of the reader.
  unfoldable pub seek_next_from_line : ℕ → (ℕ → Os) → MboxIoCtx → Outcome (Bool × MboxIoCtx)
  unfolding find_newline is_from_line io_read
  seek_next_from_line zero os ctx = out_of_fuel
  seek_next_from_line (suc fuel) os ctx = do
    buf ← find_newline (length ctx.buf.block + 1) ctx.buf
    let ctx = record ctx { buf = buf }
    here ← is_from_line buf.block buf.offset
    let refill = (do
      (rbytes, ctx') ← io_read m (os fuel) ctx io_read_size buf.len ctx.file_offset
      let back = record ctx'.buf { offset = add_size (sub_size ctx'.buf.offset 1) 1 }
      let next =
          seek_next_from_line fuel os
            (record ctx' { file_offset = ctx'.file_offset + count_of rbytes; buf = back })
      if (count_of rbytes == 0) && is_io_eof ctx'.err
          then ok (true, ctx')
          else if is_io_ok ctx'.err
          then next
          else ok (false, ctx'))
    let on =
        seek_next_from_line fuel os (record ctx { buf = record buf { offset = buf.offset + 1 } })
    if here
        then ok (true, record ctx { buf = record buf { offset = buf.offset + 1 } })
        else if leb buf.len (buf.offset + 10)
        then (if ltb ctx.end_offset ctx.file_offset then ok (false, ctx) else refill)
        else on

  -- `mboxParserCtxGetNextMessage`; `none` stands for `NULL`.
  unfoldable pub get_next_message :
      ℕ → (os os' : ℕ → Os) → MboxParserCtx → Outcome (Option MboxIoMsg × MboxParserCtx)
  unfolding seek_headers seek_next_from_line set_len set_offset slice dup_raw
  get_next_message fuel os os' ctx = do
    let io = ctx.ioctx
    let newlen = sub_size io.buf.len io.buf.offset
    moved ← if newlen == 0 then ok io.buf else slice io.buf io.buf.offset 0 newlen
    emptied ← set_len moved newlen
    (headers, io) ← seek_headers fuel os (record io { buf = set_offset emptied 0 })
    let stop : MboxIoCtx → Outcome (Option MboxIoMsg × MboxParserCtx) =
        λ io. ok (none, record ctx { ioctx = io })
    let body = (do
      (found, io) ← seek_next_from_line fuel os' io
      let whole = (do
        let msg_end = io.offset + io.buf.offset
        bytes ← fetch io.buf.block 0 io.buf.offset
        full_msg ← dup_raw m bytes io.buf.offset
        ok (
          some (record { buf = full_msg; start_offset = ctx.ioctx.offset; end_offset = msg_end }),
          record ctx {
            done = if leb io.end_offset msg_end || is_io_eof io.err then true else ctx.done;
            parsed = ctx.parsed + 1;
            ioctx = record io { offset = msg_end };
          },
        ))
      if found then whole else stop io)
    if headers then body else stop io

-- The for loop of `mboxParserCtxSeekStart` from `idx` on: where "From " stands, behind a line break
-- unless the file is read from its start.
unfoldable pub find_from : ℕ → MboxBuf → (at_start : Bool) → ℕ → Outcome (Option ℕ)
unfolding match_bytes
find_from zero buf at_start idx = out_of_fuel
find_from (suc fuel) buf at_start idx =
    let look = (do
      here ← match_bytes buf.block idx (if at_start then from_line else b'\n' ∷ from_line)
      let more = find_from fuel buf at_start (idx + 1)
      if here then ok (some idx) else more) in
    if ltb idx buf.len then look else ok none

-- The loop that goes back through the file by `io_read_size` bytes.
unfoldable pub seek_start_loop : Allocator → ℕ → (ℕ → Os) → ℕ → MboxIoCtx → Outcome MboxIoCtx
unfolding find_from io_read
seek_start_loop m zero os offset ctx = out_of_fuel
seek_start_loop m (suc fuel) os offset ctx = do
  -- `offset - jumpsize < 0 ? 0 : offset - jumpsize`
  let offset = offset - io_read_size
  (rbytes, ctx) ← io_read m (os fuel) ctx io_read_size 0 offset
  let look = (do
    found ← find_from (ctx.buf.len + 1) ctx.buf (ctx.file_offset == 0) 0
    let more = seek_start_loop m fuel os offset ctx
    elim found [ none ↦ more | some idx ↦ ok (record ctx { start_offset = offset + idx }) ])
  if (count_of rbytes == 0) || not (is_io_ok ctx.err) then ok ctx else look

unfoldable pub seek_start : Allocator → ℕ → (ℕ → Os) → MboxParserCtx → Outcome MboxParserCtx
unfolding seek_start_loop set_len set_offset
seek_start m fuel os ctx = do
  io ← seek_start_loop m fuel os ctx.ioctx.file_offset ctx.ioctx
  buf ← set_len io.buf 0
  ok (record ctx { ioctx = record io { buf = set_offset buf 0; file_offset = io.start_offset } })
