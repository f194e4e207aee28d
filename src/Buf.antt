-- ===== src/Buf.antt =====
-- src/mbox-buf.c: the growable byte buffer, over blocks of memory whose bounds are checked.
-- Every index outside the allocated block is a fault; `size_t` arithmetic wraps at 2 ^ 64.
pub mod Memory
pub mod Char
pub mod Valid
pub mod Append
pub mod Copy
pub mod CString
pub mod Escape
pub mod Mime
pub mod Compare
pub mod Split
pub mod Kmp
mod Tests
use libmbox.Base.{
  ℕ, zero, suc, ◌+◌, ◌-◌, ◌%◌, ◌^◌, Bool, true, false, not, ◌&&◌, ◌||◌, List, [], ◌∷◌, ◌++◌, map,
  Option, none, some, ltb, leb, ◌==◌, if◌then◌else◌, length, take, drop,
}
use libmbox.Base.Outcome.{Outcome, ok, fault, ◌>>=◌, ◌>>◌}
use Memory.{Allocator, malloc, realloc, read, store, copy, fetch}
use Char.{to_lower, to_upper}

-- `struct mboxBuf`; `block` is what `data` points to, as long as it was allocated.
pub record MboxBuf : Type 0 where
  pub block : List ℕ
  pub offset : ℕ
  pub len : ℕ
  pub capacity : ℕ

-- `size_t` addition and subtraction.
abbrev pub add_size : ℕ → ℕ → ℕ
add_size a b = (a + b) % 2 ^ 64

abbrev pub sub_size : ℕ → ℕ → ℕ
sub_size a b = (a + 2 ^ 64 - b) % 2 ^ 64

unfoldable pub set_offset : MboxBuf → ℕ → MboxBuf
set_offset buf offset = record buf { offset = offset }

unfoldable pub set_len : MboxBuf → ℕ → Outcome MboxBuf
set_len buf len = do block ← store buf.block len 0; ok (record buf { block = block; len = len })

unfoldable pub set_capacity : MboxBuf → ℕ → MboxBuf
set_capacity buf capacity = record buf { capacity = capacity }

unfoldable pub get_char_at : MboxBuf → ℕ → Outcome ℕ
get_char_at buf at =
    if ltb buf.len (add_size buf.offset at) then ok 0 else read buf.block (add_size buf.offset at)

unfoldable pub get_char : MboxBuf → Outcome ℕ
get_char buf = if ltb buf.len buf.offset then ok 0 else read buf.block buf.offset

unfoldable pub match_char_at : MboxBuf → ℕ → ℕ → Outcome Bool
match_char_at buf ch at =
    if ltb buf.len (add_size at buf.offset)
    then ok false
    else (do c ← read buf.block (add_size buf.offset at); ok (c == ch))

unfoldable pub match_char : MboxBuf → ℕ → Outcome Bool
match_char buf ch = do c ← read buf.block buf.offset; ok (c == ch)

unfoldable pub advance : MboxBuf → MboxBuf
advance buf = record buf { offset = add_size buf.offset 1 }

unfoldable pub advance_by : MboxBuf → ℕ → MboxBuf
advance_by buf by = record buf { offset = add_size buf.offset by }

unfoldable pub rewind_by : MboxBuf → ℕ → MboxBuf
rewind_by buf by = record buf { offset = sub_size buf.offset by }

unfoldable pub would_overflow : MboxBuf → ℕ → Bool
would_overflow buf additional = ltb buf.len (add_size buf.offset additional)

-- The three values that `mboxBufExtendBuffer` returns: -1, 0 and 1.
pub data Extended : Type 0 where
  no_growth refused grown : Extended

module _ (m : Allocator) where
  unfoldable pub alloc : ℕ → MboxBuf
  alloc capacity = record {
    block = malloc m (add_size capacity 10);
    offset = 0;
    len = 0;
    capacity = add_size capacity 10;
  }

  -- `additional` is an `unsigned int`.
  unfoldable pub extend_buffer : MboxBuf → ℕ → Extended × MboxBuf
  extend_buffer buf additional =
      let new_capacity = add_size buf.capacity (additional % 2 ^ 32) in
      if leb new_capacity buf.capacity
      then (no_growth, buf)
      else if m.grants new_capacity
      then (grown, record buf { block = realloc m buf.block new_capacity; capacity = new_capacity })
      else (refused, buf)

  unfoldable pub extend_buffer_if_needed : MboxBuf → ℕ → Extended × MboxBuf
  extend_buffer_if_needed buf additional =
      if leb buf.capacity (add_size (add_size buf.len 1) additional)
      then extend_buffer buf (if ltb 256 additional then additional else 256)
      else (refused, buf)

  unfoldable pub put_char : MboxBuf → ℕ → Outcome MboxBuf
  put_char buf ch = do
    let b = (extend_buffer_if_needed buf 100).1
    block ← store b.block b.len ch
    block ← store block (add_size b.len 1) 0
    ok (record b { block = block; len = add_size b.len 1 })

  -- The list is the `len` bytes at `s`.
  unfoldable pub write : MboxBuf → List ℕ → Outcome MboxBuf
  write buf s = do
    let b = (extend_buffer_if_needed buf (length s)).1
    block ← copy b.block 0 s
    block ← store block (length s) 0
    ok (record b { block = block; len = length s })

  unfoldable pub cat_len : MboxBuf → List ℕ → Outcome MboxBuf
  cat_len buf d = do
    let b = (extend_buffer_if_needed buf (length d)).1
    block ← copy b.block b.len d
    block ← store block (add_size b.len (length d)) 0
    ok (record b { block = block; len = add_size b.len (length d) })

  unfoldable pub dup_raw : List ℕ → ℕ → Outcome MboxBuf
  dup_raw s capacity = do
    let dupe = alloc capacity
    block ← copy dupe.block 0 s
    dupe ← set_len (record dupe { block = block }) (length s)
    ok (set_capacity dupe capacity)

  unfoldable pub dup : MboxBuf → Outcome MboxBuf
  dup buf = do
    let dupe = alloc buf.len
    s ← fetch buf.block 0 buf.len
    block ← copy dupe.block 0 s
    dupe ← set_len (record dupe { block = block }) buf.len
    ok (set_capacity dupe buf.len)

  unfoldable pub maybe_dup : Option MboxBuf → Outcome (Option MboxBuf)
  maybe_dup none = ok none
  maybe_dup (some buf) = do dupe ← dup buf; ok (some dupe)

unfoldable pub un_put_char : MboxBuf → Outcome (ℕ × MboxBuf)
un_put_char buf = if buf.len == 0 then ok (0, buf) else (do
  ch ← read buf.block (sub_size buf.len 2)
  block ← store buf.block (sub_size buf.len 1) 0
  ok (ch, record buf { block = block; len = sub_size buf.len 1 }))

unfoldable pub slice : MboxBuf → (from to size : ℕ) → Outcome MboxBuf
slice buf from to size = do
  moved ← fetch buf.block from size
  block ← copy buf.block to moved
  block ← store block size 0
  ok (record buf { block = block; len = size })

-- The loop over `data[i..len)`, with `left` bytes to go.
unfoldable pub change_case : (ℕ → ℕ) → ℕ → ℕ → List ℕ → Outcome (List ℕ)
change_case f zero i block = ok block
change_case f (suc left) i block = do
  c ← read block i
  block' ← store block i (f c)
  change_case f left (i + 1) block'

unfoldable pub to_lower_case : MboxBuf → Outcome MboxBuf
unfolding change_case
to_lower_case buf = do
  block ← change_case to_lower buf.len 0 buf.block
  ok (record buf { block = block })

unfoldable pub to_upper_case : MboxBuf → Outcome MboxBuf
unfolding change_case
to_upper_case buf = do
  block ← change_case to_upper buf.len 0 buf.block
  ok (record buf { block = block })
