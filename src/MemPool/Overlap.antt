-- ===== src/MemPool/Overlap.antt =====
-- A block is handed out twice where the blocks asked for lie across two words.
use libmbox.Base.{
  ℕ, zero, suc, ◌+◌, ◌*◌, ◌%◌, ◌^◌, ◌≤◌, ◌<◌, ◌≡◌, refl, ◌∙◌, Bool, true, false, List, some, arith,
  eq→==, lt→ltb, ge→ltb, ne→==, length, get_or, set, length-set,
}
use libmbox.Base.Outcome.{ok}
use libmbox.Buf.{add_size}
use libmbox.MemPool.{
  MemPool, is_free, first_free, put_bit, mark, blocks_for, overflow, mem_pool_alloc,
}
use libmbox.MemPool.RoundTrip.{IsPool, AllClear, get-set_block_count}

mark_total :
    (bitset : List Bool) (i n : ℕ)
    → i + n ≤ length bitset
    → (b : List Bool) × (mark bitset i n ≡ ok b) × (length b ≡ length bitset)
unfolding mark put_bit
mark_total bitset i zero fits = (bitset, refl, refl)
mark_total bitset i (suc n) fits =
    let (b, run, size) = mark_total bitset i n (omega arith) in
    (
      set b (i + n) true,
      rw (run, lt→ltb (i + n) (length b) (omega arith)) refl,
      length-set b (i + n) true ∙ size,
    )

is_free_taken :
    (bitset : List Bool) (i n : ℕ)
    → get_or bitset i false ≡ true
    → 0 < n
    → is_free bitset i n ≡ false
unfolding is_free
is_free_taken bitset i zero e pos = absurd (omega arith)
is_free_taken bitset i (suc n) e pos = rw e refl

-- The last block of a word is all that the test looks at.
is_free_last :
    (bitset : List Bool) (i n : ℕ)
    → get_or bitset i false ≡ false
    → i % 32 ≡ 31
    → is_free bitset i n ≡ true
unfolding is_free
is_free_last bitset i zero e last = refl
is_free_last bitset i (suc n) e last = rw (e, eq→== ((i + 1) % 32) 0 (omega arith)) refl

first_free_last :
    (bitset : List Bool) (d i left n j : ℕ)
    → i + d ≡ j
    → d < left
    → 0 < n
    → ((k : ℕ) → k < j → get_or bitset k false ≡ true)
    → get_or bitset j false ≡ false
    → j % 32 ≡ 31
    → first_free bitset i left n ≡ some j
unfolding first_free
first_free_last bitset d i zero n j e lt pos taken free last = absurd (omega arith)
first_free_last bitset zero i (suc left) n j e lt pos taken free last =
    let same : i ≡ j = omega arith in rw (same, is_free_last bitset j n free last) refl
first_free_last bitset (suc d) i (suc left) n j e lt pos taken free last =
    rw (is_free_taken bitset i n (taken i (omega arith)) pos)
      (first_free_last bitset d (i + 1) left n j (omega arith) (omega arith) pos taken free last)

-- On a pool of at most 2 ^ 28 blocks, which its bit set and memory cover, and with a count of less than
-- 2 ^ 63, where the first free block is
-- the last one of its word, `mboxMemPoolAlloc` of 2 to 32 blocks that
-- are within the bit set hands out that block and those behind it, although they are not all free,
-- since the next block is taken.
pub alloc_overlap :
    (p : MemPool) (size i : ℕ)
    → IsPool p
    → ((k : ℕ) → k < i → get_or p.bitset k false ≡ true)
    → get_or p.bitset i false ≡ false
    → i % 32 ≡ 31
    → i < p.blocks
    → get_or p.bitset (i + 1) false ≡ true
    → 2 ≤ blocks_for size
    → blocks_for size ≤ 32
    → i + blocks_for size ≤ length p.bitset
    → (q : MemPool) × (mem_pool_alloc p size ≡ ok (some (5 + i * 8), q))
      × (¬ AllClear p.bitset i (blocks_for size))
unfolding mem_pool_alloc overflow
alloc_overlap p size i v before free last inside next two most fits =
    let n : ℕ = blocks_for size in
    let (b, marked, _) = mark_total p.bitset i n fits in
    let (mem, stored, _, _) =
      get-set_block_count p.memory i n (omega (arith, v.room)) (omega arith) in
    let place =
      first_free_last p.bitset i 0 p.blocks n i (omega arith) inside (omega arith) before free
        last in
    (
      record p { memory = mem; bitset = b; allocated = add_size p.allocated n },
      rw
          (
            ne→== n 0 (λ e. absurd (omega arith)),
            ge→ltb 32 n (omega arith),
            place,
            lt→ltb (i * 8) (2 ^ 31) (omega (arith, v.small)),
            marked,
            stored,
          )
          refl,
      λ clear. let free_next : get_or p.bitset (i + 1) false ≡ false = clear 1 (omega arith) in cc,
    )
