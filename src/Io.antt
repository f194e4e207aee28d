-- ===== src/Io.antt =====
-- src/mbox-io.c: reading from and writing to a file through a buffer. The system calls are those of
-- a parameter; the file descriptor is the one file of the context.
pub mod Read
pub mod Window
mod Tests
use libmbox.Base.{
  ℕ, ◌+◌, Bool, true, false, List, [], ◌∷◌, Option, none, some, if◌then◌else◌, length, ◌==◌,
}
use libmbox.Base.Outcome.{Outcome, ok, fault, ◌>>=◌}
use libmbox.Buf.{MboxBuf, alloc, extend_buffer_if_needed, set_len}
use libmbox.Buf.Memory.{Allocator, copy, fetch}

-- What the calls return at this moment: `pread` of a size at an offset the bytes, `pwrite` of bytes at
-- an offset their number, and `none` for an error; `fsync` whether it succeeded.
pub record Os : Type 0 where
  pub pread : ℕ → ℕ → Option (List ℕ)
  pub pwrite : List ℕ → ℕ → Option ℕ
  pub fsync : Bool

pub data IoErr : Type 0 where
  io_ok io_eof io_read_err io_write_err io_no_write io_fsync_err : IoErr

abbrev pub is_io_ok : IoErr → Bool
is_io_ok io_ok = true
is_io_ok _ = false

abbrev pub is_io_eof : IoErr → Bool
is_io_eof io_eof = true
is_io_eof _ = false

-- The number of bytes of a call that has not failed.
abbrev pub count_of : Option ℕ → ℕ
count_of none = 0
count_of (some n) = n

-- `struct mboxIOCtx` without its descriptor.
pub record MboxIoCtx : Type 0 where
  pub err : IoErr
  pub offset : ℕ
  pub start_offset : ℕ
  pub end_offset : ℕ
  pub file_offset : ℕ
  pub file_size : ℕ
  pub buf : MboxBuf

-- MBOX_IO_READ_SIZE
abbrev pub io_read_size : ℕ
io_read_size = 300000

unfoldable pub io_new : Allocator → ℕ → MboxIoCtx
unfolding alloc
io_new m file_size = record {
  err = io_ok;
  offset = 0;
  start_offset = 0;
  end_offset = 0;
  file_offset = 0;
  file_size = file_size;
  buf = alloc m io_read_size;
}

-- The bytes that `pread` stores, and the new length.
unfoldable pub fill : MboxBuf → ℕ → List ℕ → Outcome MboxBuf
unfolding set_len
fill buf buf_offset bytes = do
  block ← copy buf.block buf_offset bytes
  set_len (record buf { block = block }) (buf_offset + length bytes)

-- The result is the number of bytes read, `none` for -1.
unfoldable pub io_read :
    Allocator → Os → MboxIoCtx → (size buf_offset offset : ℕ) → Outcome (Option ℕ × MboxIoCtx)
unfolding fill
io_read m os ctx size buf_offset offset = do
  let buf = (extend_buffer_if_needed m ctx.buf size).1
  elim (os.pread size offset) [
    | none ↦ ok (none, record ctx { err = io_read_err; buf = buf })
    | some [] ↦ ok (some 0, record ctx { err = io_eof; buf = buf })
    | some (c ∷ cs) ↦ (do
      buf ← fill buf buf_offset (c ∷ cs)
      ok (some (length (c ∷ cs)), record ctx { err = io_ok; buf = buf }))
  ]

unfoldable pub io_write : Os → MboxIoCtx → List ℕ → ℕ → Option ℕ × MboxIoCtx
io_write os ctx bytes offset = elim (os.pwrite bytes offset) [
  | none ↦ (none, record ctx { err = io_write_err })
  | some n ↦ (some n, if n == 0 then record ctx { err = io_no_write } else ctx)
]

unfoldable pub io_write_buf : Os → MboxIoCtx → (size offset : ℕ) → Outcome (Option ℕ × MboxIoCtx)
unfolding io_write
io_write_buf os ctx size offset = do
  bytes ← fetch ctx.buf.block 0 size
  ok (io_write os ctx bytes offset)

unfoldable pub io_fsync : Os → MboxIoCtx → MboxIoCtx
io_fsync os ctx = record ctx { err = if os.fsync then io_ok else io_fsync_err }
