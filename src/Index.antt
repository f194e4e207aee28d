-- ===== src/Index.antt =====
-- src/mbox-index.c: the index file, a line "start end" for each message. A list of the source stands
-- at its abstract view, and an offset pair for what the node holds.
pub mod Decimal
pub mod Load
pub mod Save
pub mod RoundTrip
pub mod Messages
pub mod Batch
mod Tests
use libmbox.Base.{
  ℕ, zero, suc, ◌+◌, ◌-◌, ◌*◌, ◌%◌, Bool, true, false, not, ◌&&◌, List, [], ◌∷◌, ◌++◌, Option, none,
  some, ltb, leb, ◌==◌, if◌then◌else◌, length, take, drop,
}
use libmbox.Base.Outcome.{Outcome, ok, fault, out_of_fuel, ◌>>=◌}
use libmbox.Buf.{MboxBuf, set_len, set_offset, add_size, sub_size}
use libmbox.Buf.Escape.{cat_printf}
use libmbox.Buf.Memory.{Allocator, malloc, fetch, read, store}
use libmbox.Io.{
  Os, MboxIoCtx, IoErr, io_ok, is_io_ok, count_of, io_new, io_read, io_write_buf, io_fsync,
  io_read_size,
}
use Decimal.{print_size}

-- `mboxIdxLineCount`, from index `i` with `left` bytes to go.
unfoldable pub line_count : List ℕ → ℕ → ℕ → Outcome ℕ
line_count block i zero = ok 0
line_count block i (suc left) = do
  c ← read block i
  n ← line_count block (i + 1) left
  ok (if c == b'\n' then n + 1 else n)

-- What `atol` reads: the digits at index `i`, behind those of `n`. A sign or white space in front,
-- which an index file does not have, is left out.
unfoldable pub atol : ℕ → List ℕ → ℕ → ℕ → Outcome ℕ
atol zero block i n = out_of_fuel
atol (suc fuel) block i n = do
  c ← read block i
  let more = atol fuel block (i + 1) (n * 10 + (c - b'0'))
  if leb b'0' c && leb c b'9' then more else ok n

-- `while (data[offset] != stop) tmp[idx++] = data[offset++];`
unfoldable pub copy_token : ℕ → List ℕ → (stop offset : ℕ) → List ℕ → ℕ → Outcome (ℕ × List ℕ × ℕ)
copy_token zero block stop offset tmp idx = out_of_fuel
copy_token (suc fuel) block stop offset tmp idx = do
  c ← read block offset
  let more = (do tmp ← store tmp idx c; copy_token fuel block stop (offset + 1) tmp (idx + 1))
  if c == stop then ok (offset, tmp, idx) else more

-- One round of the loop of `indexesToList`: the two offsets, where it stops, and the two arrays.
unfoldable pub read_index :
    List ℕ → ℕ → (tmpstart tmpend : List ℕ) → Outcome ((ℕ × ℕ) × ℕ × List ℕ × List ℕ)
unfolding copy_token atol
read_index block offset tmpstart tmpend = do
  (offset, tmpstart, startidx) ← copy_token (length block + 1) block b' ' offset tmpstart 0
  (offset, tmpend, endidx) ← copy_token (length block + 1) block b'\n' (offset + 1) tmpend 0
  tmpstart ← store tmpstart startidx 0
  tmpend ← store tmpend endidx 0
  s ← atol (length tmpstart + 1) tmpstart 0 0
  e ← atol (length tmpend + 1) tmpend 0 0
  ok ((s, e), offset + 1, tmpstart, tmpend)

unfoldable pub indexes_loop :
    ℕ → List ℕ → (len offset : ℕ) → (tmpstart tmpend : List ℕ) → Outcome (List (ℕ × ℕ))
unfolding read_index
indexes_loop zero block len offset tmpstart tmpend = out_of_fuel
indexes_loop (suc fuel) block len offset tmpstart tmpend =
    let body = (do
      (index, offset, tmpstart, tmpend) ← read_index block offset tmpstart tmpend
      rest ← indexes_loop fuel block len offset tmpstart tmpend
      ok (index ∷ rest)) in
    if ltb offset len then body else ok []

-- `indexesToList` without the count that it does not use; the arrays are of 26 bytes.
unfoldable pub indexes_to_list : Allocator → MboxBuf → Outcome (List (ℕ × ℕ))
unfolding indexes_loop
indexes_to_list m buf =
    indexes_loop (buf.len + 1) buf.block buf.len buf.offset (malloc m 26) (malloc m 26)

-- `loadIndexes` and the call of `indexesToList` on what it returns. `opened` is the size of the file,
-- where it can be opened.
unfoldable pub load_indexes : Allocator → Os → (opened : Option ℕ) → Outcome (Option (List (ℕ × ℕ)))
unfolding indexes_to_list io_read io_new
load_indexes m os none = ok none
load_indexes m os (some file_size) = do
  (rbytes, ctx) ← io_read m os (io_new m file_size) file_size 0 0
  let indexes = (do l ← indexes_to_list m ctx.buf; ok (some l))
  elim rbytes [ none ↦ ok none | some n ↦ if n == file_size then indexes else ok none ]

-- What the file holds after a `pwrite`.
unfoldable pub write_at : List ℕ → ℕ → List ℕ → List ℕ
write_at file offset bytes = take offset file ++ (bytes ++ drop (offset + length bytes) file)

-- `mboxIdxTryWrite`, with what the file holds then.
unfoldable pub try_write : Os → List ℕ → MboxIoCtx → Outcome (IoErr × List ℕ × MboxIoCtx)
unfolding io_write_buf io_fsync write_at set_len set_offset
try_write os file ctx = do
  (wbytes, written) ← io_write_buf os ctx ctx.buf.len ctx.file_offset
  bytes ← fetch ctx.buf.block 0 (count_of wbytes)
  let file = write_at file ctx.file_offset bytes
  let synced = io_fsync os written
  let sent = (do
    buf ← set_len synced.buf 0
    ok (
      io_ok,
      file,
      record synced {
        file_offset = synced.file_offset + count_of wbytes;
        file_size = synced.file_size + count_of wbytes;
        buf = set_offset buf 0;
      },
    ))
  if is_io_ok written.err
      then (if is_io_ok synced.err then sent else ok (synced.err, file, synced))
      else ok (written.err, file, written)

-- "%zu %zu\n"
unfoldable pub index_line : ℕ → ℕ → List ℕ
index_line s e = (print_size s ++ b' ' ∷ []) ++ (print_size e ++ b'\n' ∷ [])

-- The loop of `mboxIdxSave` and the last write. BUFSIZ is 8192.
unfoldable pub save_loop :
    Allocator → (ℕ → Os) → List (ℕ × ℕ) → List ℕ → MboxIoCtx → Outcome (IoErr × List ℕ × MboxIoCtx)
unfolding try_write cat_printf index_line
save_loop m os [] file ctx =
    if ltb 0 ctx.buf.len then try_write (os 0) file ctx else ok (io_ok, file, ctx)
save_loop m os ((s, e) ∷ l) file ctx = do
  buf ← cat_printf m ctx.buf 8 (index_line s e)
  let ctx = record ctx { buf = buf }
  (err, file, ctx) ←
      if buf.len % 8192 == 0 then try_write (os (length l + 1)) file ctx else ok (io_ok, file, ctx)
  let rest = save_loop m os l file ctx
  if is_io_ok err then rest else ok (err, file, ctx)

-- `mboxIdxSave`: the code that it returns and what the file, which held `file`, holds then. `sort` is
-- `mboxListQSort` by the start; to open the file empties it.
unfoldable pub save :
    Allocator
    → (ℕ → Os)
    → (opened : Bool) → (sort : List (ℕ × ℕ) → List (ℕ × ℕ)) → List (ℕ × ℕ)
    → List ℕ
    → Outcome (IoErr × List ℕ)
unfolding save_loop io_new
save m os opened sort [] file = ok (io_ok, file)
save m os opened sort (x ∷ l) file =
    let run = (do (err, file, _) ← save_loop m os (sort (x ∷ l)) [] (io_new m 0); ok (err, file)) in
    if opened then run else ok (io_ok, file)

-- The loop of `mboxIdxBatchLoad` and the last batch: the batches in the order in which they are
-- handed to the pool.
unfoldable pub batch_loop :
    List (ℕ × ℕ) → (batch : List (ℕ × ℕ)) → (batch_bytes : ℕ) → List (List (ℕ × ℕ))
batch_loop [] [] batch_bytes = []
batch_loop [] (x ∷ batch) batch_bytes = (x ∷ batch) ∷ []
batch_loop ((s, e) ∷ indexes) batch batch_bytes =
    let message_size = sub_size e s in
    let total = add_size batch_bytes message_size in
    let on = batch_loop indexes (batch ++ (s, e) ∷ []) total in
    let full = (batch ++ (s, e) ∷ []) ∷ batch_loop indexes [] 0 in
    if ltb total io_read_size then on else full

-- The code looks into the first offsets before it tests that there are some.
unfoldable pub batch_load : List (ℕ × ℕ) → Outcome (List (List (ℕ × ℕ)))
unfolding batch_loop
batch_load [] = fault
batch_load (x ∷ indexes) = ok (batch_loop (x ∷ indexes) [] 0)
