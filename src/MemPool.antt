-- ===== src/MemPool.antt =====
-- src/mbox-memory.c: the pool of blocks of eight bytes. The words of the bit set are taken apart into
-- their bits: bit `j` of the set is bit `j % 32` of word `j / 32`.
pub mod RoundTrip
pub mod Overlap
mod Tests
use libmbox.Base.{
  ℕ, zero, suc, ◌+◌, ◌-◌, ◌*◌, ◌/◌, ◌%◌, ◌^◌, Bool, true, false, not, ◌&&◌, ◌||◌, List, [], ◌∷◌,
  Option, none, some, ltb, ◌==◌, if◌then◌else◌, length, get_or, set,
}
use libmbox.Base.Outcome.{Outcome, ok, fault, ◌>>=◌, ◌>>◌}
use libmbox.Buf.{add_size, sub_size}
use libmbox.Buf.Memory.{Allocator, malloc, read, copy}

-- `mboxMemPool`; `memory` is what `data` points to.
pub record MemPool : Type 0 where
  pub memory : List ℕ
  pub bitset : List Bool
  pub blocks : ℕ
  pub allocated : ℕ

-- MEM_SIZE_INFO: the bytes in front of the memory that is handed out.
abbrev pub mem_size_info : ℕ
mem_size_info = 5

-- The five bytes in front of index `ptr`.
unfoldable pub set_block_count : List ℕ → (ptr len : ℕ) → Outcome (List ℕ)
set_block_count memory ptr len =
    copy memory (ptr - mem_size_info)
      (len / 2 ^ 24 % 256 ∷ len / 2 ^ 16 % 256 ∷ len / 2 ^ 8 % 256 ∷ len % 256 ∷ 0 ∷ [])

unfoldable pub get_block_count : List ℕ → (ptr : ℕ) → Outcome ℕ
get_block_count memory ptr = do
  a ← read memory (ptr - mem_size_info)
  b ← read memory (ptr - mem_size_info + 1)
  c ← read memory (ptr - mem_size_info + 2)
  d ← read memory (ptr - mem_size_info + 3)
  ok (a * 2 ^ 24 + b * 2 ^ 16 + c * 2 ^ 8 + d)

unfoldable pub clear_bits : ℕ → List Bool
clear_bits zero = []
clear_bits (suc n) = false ∷ clear_bits n

unfoldable pub mem_pool_new : Allocator → ℕ → MemPool
unfolding clear_bits
mem_pool_new m block_count = record {
  memory = malloc m (block_count * 8);
  bitset = clear_bits ((block_count + 31) / 32 * 32);
  blocks = block_count;
  allocated = 0;
}

-- `(bitset[i / 32] & (mask << (i & 31))) == 0` for a mask of `n` bits: those that the shift moves out
-- of the word are not looked at.
unfoldable pub is_free : List Bool → (i n : ℕ) → Bool
is_free bitset i zero = true
is_free bitset i (suc n) =
    let rest = is_free bitset (i + 1) n in
    not (get_or bitset i false) && (if (i + 1) % 32 == 0 then true else rest)

-- The loop that looks for a place, from block `i` with `left` blocks to go.
unfoldable pub first_free : List Bool → (i left n : ℕ) → Option ℕ
unfolding is_free
first_free bitset i zero n = none
first_free bitset i (suc left) n =
    let rest = first_free bitset (i + 1) left n in if is_free bitset i n then some i else rest

-- A bit of the set is written.
unfoldable pub put_bit : List Bool → ℕ → Bool → Outcome (List Bool)
put_bit bitset j v = if ltb j (length bitset) then ok (set bitset j v) else fault

-- The bits from `i` on are set, in ascending order.
unfoldable pub mark : List Bool → (i n : ℕ) → Outcome (List Bool)
unfolding put_bit
mark bitset i zero = ok bitset
mark bitset i (suc n) = do bitset ← mark bitset i n; put_bit bitset (i + n) true

-- They are cleared, in descending order.
unfoldable pub unmark : List Bool → (i n : ℕ) → Outcome (List Bool)
unfolding put_bit
unmark bitset i zero = ok bitset
unmark bitset i (suc n) = do bitset ← put_bit bitset (i + n) false; unmark bitset i n

-- The number of blocks for a size, an `unsigned int`.
unfoldable pub blocks_for : ℕ → ℕ
blocks_for size = add_size size (mem_size_info + 8 - 1) / 8 % 2 ^ 32

-- An `int` that is not below 2 ^ 31 has overflowed.
unfoldable pub overflow : ℕ → Outcome Bool
overflow n = if ltb n (2 ^ 31) then ok false else fault

-- The shift that makes the mask is defined for 1 to 32 blocks. The index of a block and its place in
-- bytes are each an `int`. The result is the index of the memory,
-- or `none` for `NULL`.
unfoldable pub mem_pool_alloc : MemPool → (size : ℕ) → Outcome (Option ℕ × MemPool)
unfolding blocks_for first_free mark set_block_count overflow
mem_pool_alloc p size =
    let block_count : ℕ = blocks_for size in
    let found : Outcome (Option ℕ × MemPool) = elim (first_free p.bitset 0 p.blocks block_count) [
      | none ↦ (do overflow p.blocks; ok (none, p))
      | some i ↦ (do
        overflow (i * 8)
        bitset ← mark p.bitset i block_count
        memory ← set_block_count p.memory (mem_size_info + i * 8) block_count
        ok (
          some (mem_size_info + i * 8),
          record p {
            memory = memory;
            bitset = bitset;
            allocated = add_size p.allocated block_count;
          },
        ))
    ] in
    if (block_count == 0) || ltb 32 block_count then fault else found

unfoldable pub mem_pool_free : MemPool → (ptr : ℕ) → Outcome MemPool
unfolding get_block_count set_block_count unmark
mem_pool_free p ptr = do
  len ← get_block_count p.memory ptr
  memory ← set_block_count p.memory ptr 0
  bitset ← unmark p.bitset (ptr / 8) len
  ok (record p { memory = memory; bitset = bitset; allocated = sub_size p.allocated len })

unfoldable pub mem_pool_mem_count : MemPool → ℕ
mem_pool_mem_count p = p.allocated * 8 % 2 ^ 32
