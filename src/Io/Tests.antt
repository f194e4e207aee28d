-- ===== src/Io/Tests.antt =====
-- A read of two bytes into a buffer.
use libmbox.Base.{ℕ, ◌≡◌, ◌≤◌, refl, true, List, [], ◌∷◌, Option, none, some, arith, length, ap}
use libmbox.Base.Outcome.{ok}
use libmbox.Buf.{MboxBuf}
use libmbox.Buf.Memory.{Allocator}
use libmbox.Buf.Valid.{Grants, IsRoomy}
use libmbox.Io.{Os, MboxIoCtx, IoErr, io_ok, io_read}
use libmbox.Io.Read.{ReadResult, io_read-Filled}

abbrev heap : Allocator
heap = record { junk = λ i. 165; grants = λ n. true }

heap-Grants : Grants heap
heap-Grants n = refl

-- A file that holds "cd" from the place asked for on.
abbrev two_bytes : Os
two_bytes = record {
  pread = λ size offset. some (99 ∷ 100 ∷ []);
  pwrite = λ s offset. none;
  fsync = true;
}

-- "ab" in a block of four bytes.
abbrev ctx : MboxIoCtx
ctx = record {
  err = io_ok;
  offset = 0;
  start_offset = 0;
  end_offset = 0;
  file_offset = 0;
  file_size = 9;
  buf = record { block = 97 ∷ 98 ∷ 0 ∷ 165 ∷ []; offset = 1; len = 2; capacity = 4 };
}

ctx-IsRoomy : IsRoomy ctx.buf
ctx-IsRoomy = record {
  valid = record {
    room = omega arith;
    fits = omega arith;
    held = omega arith;
    small = omega arith;
  };
  spare = omega arith;
}

length_of : Option (List ℕ) → ℕ
length_of none = 0
length_of (some d) = length d

short : (d : List ℕ) → some (99 ∷ 100 ∷ []) ≡ some d → length d ≤ 2
unfolding length_of
short d e = omega (arith, ap length_of e)

io_read-Filled_example :
    (r : Option ℕ) × (b' : MboxBuf) × (e : IoErr) × (io_read heap two_bytes ctx 2 2 4
      ≡ ok (r, record ctx { err = e; buf = b' }))
    × ReadResult ctx.buf 2 (some (99 ∷ 100 ∷ [])) r e b'
io_read-Filled_example =
    io_read-Filled heap two_bytes ctx 2 4 heap-Grants ctx-IsRoomy (omega arith) (omega arith) short
