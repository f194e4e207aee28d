-- ===== src/MemPool/Tests.antt =====
-- Pools of a few blocks.
use libmbox.Base.{
  ℕ, zero, suc, ◌<◌, ◌≡◌, refl, Bool, true, false, List, [], ◌∷◌, some, arith, get_or,
}
use libmbox.Base.Outcome.{ok}
use libmbox.Buf.Memory.{Allocator, malloc, fresh}
use libmbox.MemPool.{
  MemPool, blocks_for, first_free, is_free, clear_bits, mem_pool_alloc, mem_pool_free,
}
use libmbox.MemPool.Overlap.{alloc_overlap}
use libmbox.MemPool.RoundTrip.{IsPool, AllClear, mem_pool_free-alloc}

abbrev heap : Allocator
heap = record { junk = λ i. 165; grants = λ n. true }

-- Four blocks, the first of them taken.
abbrev pool : MemPool
unfolding clear_bits malloc fresh
pool = record { memory = malloc heap 32; bitset = true ∷ clear_bits 31; blocks = 4; allocated = 1 }

pool-IsPool : IsPool pool
unfolding pool
pool-IsPool = record {
  bits = omega arith;
  room = omega arith;
  count = omega arith;
  small = omega arith;
}

blocks_run : blocks_for 8 ≡ 2
unfolding blocks_for
blocks_run = refl

mem_pool_free-alloc_example :
    (q : MemPool) × (mem_pool_alloc pool 8 ≡ ok (some 13, q))
    × (q.allocated ≡ 3)
    × AllClear pool.bitset 1 2
    × ((r : MemPool) × (mem_pool_free q 13 ≡ ok r)
        × (r.bitset ≡ pool.bitset)
        × (r.allocated ≡ 1)
        × (r.blocks ≡ 4))
unfolding pool blocks_for first_free is_free
mem_pool_free-alloc_example =
    mem_pool_free-alloc pool 8 1 pool-IsPool (omega arith) (omega arith) (omega arith) refl

-- Only block 31 of the first word is free, and the second word is taken.
abbrev ones : ℕ → List Bool → List Bool
ones zero l = l
ones (suc n) l = true ∷ ones n l

ones_taken : (n : ℕ) (l : List Bool) (k : ℕ) → k < n → get_or (ones n l) k false ≡ true
ones_taken zero l k lt = absurd (omega arith)
ones_taken (suc n) l zero lt = refl
ones_taken (suc n) l (suc k) lt = ones_taken n l k (omega arith)

abbrev full : MemPool
unfolding malloc fresh
full = record {
  memory = malloc heap 512;
  bitset = ones 31 (false ∷ ones 32 []);
  blocks = 64;
  allocated = 63;
}

full-IsPool : IsPool full
unfolding full
full-IsPool = record {
  bits = omega arith;
  room = omega arith;
  count = omega arith;
  small = omega arith;
}

alloc_overlap_example :
    (q : MemPool) × (mem_pool_alloc full 8 ≡ ok (some 253, q)) × (¬ AllClear full.bitset 31 2)
unfolding full blocks_for
alloc_overlap_example =
    alloc_overlap full 8 31 full-IsPool (ones_taken 31 (false ∷ ones 32 [])) refl refl (omega arith)
      refl (omega arith) (omega arith) (omega arith)
