-- ===== src/MemPool/RoundTrip.antt =====
-- What `mboxMemPoolAlloc` takes, `mboxMemPoolFree` gives back.
use libmbox.Base.{
  ℕ, zero, suc, ◌+◌, ◌-◌, ◌*◌, ◌/◌, ◌%◌, ◌^◌, ◌≤◌, ◌<◌, ◌≡◌, refl, sym, ap, subst, ◌∙◌, Bool, true,
  false, not, ◌&&◌, List, [], ◌∷◌, ◌++◌, some, arith, ◌==◌, if◌then◌else◌, Bool-cases, inl, inr,
  lt→ltb, ge→ltb, ne→==, length, get_or, set, take, drop, length-set, get_or-set_ne, length-take,
}
use libmbox.Base.Outcome.{ok}
use libmbox.Buf.{add_size, sub_size}
use libmbox.Buf.CString.{get_or-append_left}
use libmbox.Buf.Memory.{copied, copy-ok, length-copied, read-ok}
use libmbox.MemPool.{
  MemPool, is_free, first_free, put_bit, mark, unmark, set_block_count, get_block_count, blocks_for,
  overflow, mem_pool_alloc, mem_pool_free,
}

-- The set has a bit for each block, and the memory eight bytes; the place of each block is an `int`.
pub record IsPool (p : MemPool) : Type 0 where
  pub bits : p.blocks ≤ length p.bitset
  pub room : p.blocks * 8 ≤ length p.memory
  pub count : p.allocated < 2 ^ 63
  pub small : p.blocks ≤ 2 ^ 28

set-set : (xs : List Bool) (i : ℕ) (u v : Bool) → set (set xs i u) i v ≡ set xs i v
set-set [] i u v = refl
set-set (x ∷ xs) zero u v = refl
set-set (x ∷ xs) (suc i) u v = ap (λ t. x ∷ t) (set-set xs i u v)

set_same : (xs : List Bool) (i : ℕ) → get_or xs i false ≡ false → set xs i false ≡ xs
set_same [] i e = refl
set_same (x ∷ xs) zero e = ap (λ t. t ∷ xs) (sym e)
set_same (x ∷ xs) (suc i) e = ap (λ t. x ∷ t) (set_same xs i e)

-- No block from `i` on is taken.
abbrev pub AllClear : List Bool → (i n : ℕ) → Type 0
AllClear bitset i n = (k : ℕ) → k < n → get_or bitset (i + k) false ≡ false

-- What marking gives: the bits behind are as before, and unmarking takes it back.
abbrev Marked : List Bool → (i n : ℕ) → List Bool → Type 0
Marked bitset i n b =
    (mark bitset i n ≡ ok b)
    × (length b ≡ length bitset)
    × ((j : ℕ) → i + n ≤ j → get_or b j false ≡ get_or bitset j false)
    × (unmark b i n ≡ ok bitset)

mark-Marked :
    (bitset : List Bool) (i n : ℕ)
    → i + n ≤ length bitset
    → AllClear bitset i n
    → (b : List Bool) × Marked bitset i n b
unfolding mark unmark put_bit
mark-Marked bitset i zero fits clear = (bitset, (refl, refl, (λ j h. refl), refl))
mark-Marked bitset i (suc n) fits clear =
    let (b, (run, size, behind, back)) =
      mark-Marked bitset i n (omega arith) (λ k lt. clear k (omega arith)) in
    let lt : i + n < length b = omega (arith, size) in
    let same : set (set b (i + n) true) (i + n) false ≡ b =
      set-set b (i + n) true false
      ∙ set_same b (i + n) (behind (i + n) (omega arith) ∙ clear n (omega arith)) in
    (
      set b (i + n) true,
      (
        rw (run, lt→ltb (i + n) (length b) lt) refl,
        length-set b (i + n) true ∙ size,
        (λ j h.
            get_or-set_ne b (i + n) j true false (λ e. absurd (omega arith))
            ∙ behind j (omega arith)),
        rw
            (
              lt→ltb (i + n) (length (set b (i + n) true))
                  (omega (arith, length-set b (i + n) true)),
              same,
            )
            back,
      ),
    )

not_and : (a b : Bool) → (not a && b) ≡ true → (a ≡ false) × (b ≡ true)
not_and true b e = cc
not_and false b e = (refl, e)

-- Where the blocks are in one word, the test looks at all of them.
is_free-AllClear :
    (bitset : List Bool) (i n : ℕ)
    → i % 32 + n ≤ 32
    → is_free bitset i n ≡ true
    → AllClear bitset i n
unfolding is_free
is_free-AllClear bitset i zero one free k lt = absurd (omega arith)
is_free-AllClear bitset i (suc n) one free zero lt =
    ap (λ j. get_or bitset j false) (omega arith) ∙ (not_and _ _ free).0
is_free-AllClear bitset i (suc n) one free (suc k) lt =
    let inside : ((i + 1) % 32 == 0) ≡ false = ne→== ((i + 1) % 32) 0 (λ e. absurd (omega arith)) in
    let rest : is_free bitset (i + 1) n ≡ true = rw inside at (
      (not_and (get_or bitset i false)
        (if (i + 1) % 32 == 0 then true else is_free bitset (i + 1) n) free).1) in
    ap (λ j. get_or bitset j false) (omega arith)
    ∙ is_free-AllClear bitset (i + 1) n (omega arith) rest k (omega arith)

some_inj : {a b : ℕ} → some a ≡ some b → a ≡ b
some_inj e = cc

first_free-is_free :
    (bitset : List Bool) (i left n j : ℕ)
    → first_free bitset i left n ≡ some j
    → (is_free bitset j n ≡ true) × (i ≤ j) × (j < i + left)
unfolding first_free
first_free-is_free bitset i zero n j e = cc
first_free-is_free bitset i (suc left) n j e = elim (Bool-cases (is_free bitset i n)) [
  | inl free ↦
      let here : i ≡ j = some_inj (rw free at e) in
      (subst (λ k. is_free bitset k n ≡ true) here free, omega arith, omega arith)
  | inr taken ↦
      let (free, low, high) = first_free-is_free bitset (i + 1) left n j (rw taken at e) in
      (free, omega arith, omega arith)
]

get_or-append_right : (xs ys : List ℕ) (k : ℕ) → get_or (xs ++ ys) (length xs + k) 0 ≡ get_or ys k 0
get_or-append_right [] ys k = let e : 0 + k ≡ k = omega arith in ap (λ j. get_or ys j 0) e
get_or-append_right (x ∷ xs) ys k =
    let e : suc (length xs) + k ≡ suc (length xs + k) = omega arith in
    ap (λ j. get_or (x ∷ (xs ++ ys)) j 0) e ∙ get_or-append_right xs ys k

-- A byte of what was copied.
get_or-copied :
    (block s : List ℕ) (at k : ℕ)
    → at ≤ length block
    → k < length s
    → get_or (copied block at s) (at + k) 0 ≡ get_or s k 0
get_or-copied block s at k inside lt =
    ap (λ j. get_or (copied block at s) j 0) (omega (arith, length-take at block))
    ∙ get_or-append_right (take at block) (s ++ drop (at + length s) block) k
    ∙ get_or-append_left s (drop (at + length s) block) k lt

-- The four bytes of a count.
get_block_count-bytes :
    (memory : List ℕ) (j a b c d : ℕ)
    → j + 4 ≤ length memory
    → get_or memory (j + 0) 0 ≡ a
    → get_or memory (j + 1) 0 ≡ b
    → get_or memory (j + 2) 0 ≡ c
    → get_or memory (j + 3) 0 ≡ d
    → get_block_count memory (5 + j) ≡ ok (a * 2 ^ 24 + b * 2 ^ 16 + c * 2 ^ 8 + d)
unfolding get_block_count
get_block_count-bytes memory j a b c d fits ea eb ec ed =
    let front : 5 + j - 5 ≡ j = omega arith in
    let ea' : get_or memory j 0 ≡ a = ap (λ k. get_or memory k 0) (omega arith) ∙ ea in
    rw
      (
        front,
        read-ok memory j (omega arith),
        ea',
        read-ok memory (j + 1) (omega arith),
        eb,
        read-ok memory (j + 2) (omega arith),
        ec,
        read-ok memory (j + 3) (omega arith),
        ed,
      )
      refl

-- The count that is put in front of a block is read back.
pub get-set_block_count :
    (memory : List ℕ) (i n : ℕ)
    → i * 8 + 5 ≤ length memory
    → n < 2 ^ 32
    → (memory' : List ℕ) × (set_block_count memory (5 + i * 8) n ≡ ok memory')
      × (length memory' ≡ length memory)
      × (get_block_count memory' (5 + i * 8) ≡ ok n)
unfolding set_block_count
get-set_block_count memory i n inside small =
    let bytes : List ℕ = n / 2 ^ 24 % 256 ∷ n / 2 ^ 16 % 256 ∷ n / 2 ^ 8 % 256 ∷ n % 256 ∷ 0 ∷ [] in
    let front : 5 + i * 8 - 5 ≡ i * 8 = omega arith in
    let size = length-copied memory (i * 8) bytes (omega arith) in
    let byte : (k : ℕ)
        → k < 5
        → get_or (copied memory (i * 8) bytes) (i * 8 + k) 0 ≡ get_or bytes k 0 =
      λ k lt. get_or-copied memory bytes (i * 8) k (omega arith) lt in
    (
      copied memory (i * 8) bytes,
      rw (front, copy-ok memory (i * 8) bytes (omega arith)) refl,
      size,
      get_block_count-bytes (copied memory (i * 8) bytes) (i * 8) (n / 2 ^ 24 % 256)
            (n / 2 ^ 16 % 256) (n / 2 ^ 8 % 256) (n % 256) (omega (arith, size))
            (byte 0 (omega arith)) (byte 1 (omega arith)) (byte 2 (omega arith))
            (byte 3 (omega arith))
          ∙ ap (λ v. ok v) (omega arith),
    )

-- On a pool of at most 2 ^ 28 blocks, which its bit set and memory cover, and with a count of less than
-- 2 ^ 63, `mboxMemPoolFree` of what
-- `mboxMemPoolAlloc` has just handed out, for one to 32 blocks that lie in one word of the bit
-- set and in the pool, gives back just these blocks: it returns, reading back their count, and
-- bit set and count of the pool are as before; and they had all been free.
pub mem_pool_free-alloc :
    (p : MemPool) (size i : ℕ)
    → IsPool p
    → 0 < blocks_for size
    → i % 32 + blocks_for size ≤ 32
    → i + blocks_for size ≤ p.blocks
    → first_free p.bitset 0 p.blocks (blocks_for size) ≡ some i
    → (q : MemPool) × (mem_pool_alloc p size ≡ ok (some (5 + i * 8), q))
      × (q.allocated ≡ p.allocated + blocks_for size)
      × AllClear p.bitset i (blocks_for size)
      × ((r : MemPool) × (mem_pool_free q (5 + i * 8) ≡ ok r)
          × (r.bitset ≡ p.bitset)
          × (r.allocated ≡ p.allocated)
          × (r.blocks ≡ p.blocks))
unfolding mem_pool_alloc mem_pool_free overflow
mem_pool_free-alloc p size i v pos one inside place =
    let n : ℕ = blocks_for size in
    let (free, _, _) = first_free-is_free p.bitset 0 p.blocks n i place in
    let clear = is_free-AllClear p.bitset i n one free in
    let (b, (marked, _, _, back)) = mark-Marked p.bitset i n (omega (arith, v.bits)) clear in
    let (mem, stored, size₁, count) =
      get-set_block_count p.memory i n (omega (arith, v.room)) (omega arith) in
    let (mem', stored', _, _) =
      get-set_block_count mem i 0 (omega (arith, v.room, size₁)) (omega arith) in
    let word : (5 + i * 8) / 8 ≡ i = omega arith in
    let grown : add_size p.allocated n ≡ p.allocated + n = omega (arith, v.count) in
    let shrunk : sub_size (add_size p.allocated n) n ≡ p.allocated = omega (arith, v.count) in
    (
      record p { memory = mem; bitset = b; allocated = add_size p.allocated n },
      rw
          (
            ne→== n 0 (λ e. absurd (omega arith)),
            ge→ltb 32 n (omega arith),
            place,
            lt→ltb (i * 8) (2 ^ 31) (omega (arith, v.small)),
            marked,
            stored,
          )
          refl,
      grown,
      clear,
      (
        record p {
          memory = mem';
          bitset = p.bitset;
          allocated = sub_size (add_size p.allocated n) n;
        },
        rw (count, stored', word, back) refl,
        refl,
        shrunk,
        refl,
      ),
    )
