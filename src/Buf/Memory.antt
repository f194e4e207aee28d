-- ===== src/Buf/Memory.antt =====
-- Blocks of bytes from `malloc`, and the accesses to them.
use libmbox.Base.{
  ℕ, zero, suc, ◌+◌, ◌-◌, ◌≤◌, ◌<◌, ◌≡◌, refl, sym, ap, Bool, List, [], ◌∷◌, ◌++◌, arith, ltb, leb,
  lt→ltb, ◌∙◌, if◌then◌else◌, length, get_or, set, take, drop, length-append, length-take,
  length-drop, append_assoc, take-append,
}
use libmbox.Base.Outcome.{Outcome, ok, fault}

-- The bytes that fresh memory holds, and whether `realloc` finds a block of a size. `malloc` is
-- taken to succeed: the code uses what it returns unchecked.
pub record Allocator : Type 0 where
  pub junk : ℕ → ℕ
  pub grants : ℕ → Bool

unfoldable pub fresh : Allocator → ℕ → ℕ → List ℕ
fresh m i zero = []
fresh m i (suc n) = m.junk i ∷ fresh m (i + 1) n

unfoldable pub malloc : Allocator → ℕ → List ℕ
malloc m n = fresh m 0 n

-- The old bytes stay, as far as they fit.
unfoldable pub realloc : Allocator → List ℕ → ℕ → List ℕ
realloc m block n = take n block ++ fresh m (length block) (n - length block)

unfoldable pub read : List ℕ → ℕ → Outcome ℕ
read block i = if ltb i (length block) then ok (get_or block i 0) else fault

unfoldable pub store : List ℕ → ℕ → ℕ → Outcome (List ℕ)
store block i v = if ltb i (length block) then ok (set block i v) else fault

-- `memcpy` of the bytes `s` to index `at`.
unfoldable pub copy : List ℕ → ℕ → List ℕ → Outcome (List ℕ)
copy block at s =
    if leb (at + length s) (length block)
    then ok (take at block ++ (s ++ drop (at + length s) block))
    else fault

-- The `n` bytes from index `from` on, as `memcpy` and `memmove` read them.
unfoldable pub fetch : List ℕ → ℕ → ℕ → Outcome (List ℕ)
fetch block from n = if leb (from + n) (length block) then ok (take n (drop from block)) else fault

length-fresh : (m : Allocator) (i n : ℕ) → length (fresh m i n) ≡ n
unfolding fresh
length-fresh m i zero = refl
length-fresh m i (suc n) = ap suc (length-fresh m (i + 1) n)

pub length-malloc : (m : Allocator) (n : ℕ) → length (malloc m n) ≡ n
unfolding malloc
length-malloc m n = length-fresh m 0 n

pub length-realloc : (m : Allocator) (block : List ℕ) (n : ℕ) → length (realloc m block n) ≡ n
unfolding realloc
length-realloc m block n = omega (
  arith,
  length-append (take n block) (fresh m (length block) (n - length block)),
  length-take n block,
  length-fresh m (length block) (n - length block),
)

take-take :
    (k n : ℕ) (xs ys : List ℕ) → k ≤ n → k ≤ length xs → take k (take n xs ++ ys) ≡ take k xs
take-take zero n xs ys h j = refl
take-take (suc k) n [] ys h j = absurd (omega arith)
take-take (suc k) zero (x ∷ xs) ys h j = absurd (omega arith)
take-take (suc k) (suc n) (x ∷ xs) ys h j =
    ap (λ zs. x ∷ zs) (take-take k n xs ys (omega arith) (omega arith))

-- A block that grows keeps what it holds.
pub take-realloc :
    (m : Allocator) (block : List ℕ) (k n : ℕ)
    → k ≤ n
    → k ≤ length block
    → take k (realloc m block n) ≡ take k block
unfolding realloc
take-realloc m block k n h j = take-take k n block _ h j

pub read-ok : (block : List ℕ) (i : ℕ) → i < length block → read block i ≡ ok (get_or block i 0)
unfolding read
read-ok block i h = rw (lt→ltb i (length block) h)

pub store-ok : (block : List ℕ) (i v : ℕ) → i < length block → store block i v ≡ ok (set block i v)
unfolding store
store-ok block i v h = rw (lt→ltb i (length block) h)

pub read_fault : (block : List ℕ) (i : ℕ) → length block ≤ i → read block i ≡ fault
unfolding read
read_fault block i h = ground arith

pub store_fault : (block : List ℕ) (i v : ℕ) → length block ≤ i → store block i v ≡ fault
unfolding store
store_fault block i v h = ground arith

-- The block after the bytes `s` were copied to index `at`.
abbrev pub copied : List ℕ → ℕ → List ℕ → List ℕ
copied block at s = take at block ++ (s ++ drop (at + length s) block)

module _ (block : List ℕ) (at : ℕ) (s : List ℕ) (h : at + length s ≤ length block) where
  pub copy-ok : copy block at s ≡ ok (copied block at s)
  unfolding copy
  copy-ok = ground arith

  pub length-copied : length (copied block at s) ≡ length block
  length-copied = omega (
    arith,
    length-append (take at block) (s ++ drop (at + length s) block),
    length-append s (drop (at + length s) block),
    length-take at block,
    length-drop (at + length s) block,
  )

  pub take-copied : take (at + length s) (copied block at s) ≡ take at block ++ s
  take-copied =
      let size : at + length s ≡ length (take at block ++ s) =
        omega (arith, length-append (take at block) s, length-take at block) in
      ap (λ zs. take (at + length s) zs)
        (sym (append_assoc (take at block) s (drop (at + length s) block)))
      ∙ ap (λ k. take k ((take at block ++ s) ++ drop (at + length s) block)) size
      ∙ take-append (take at block ++ s) _

pub fetch-ok :
    (block : List ℕ) (from n : ℕ)
    → from + n ≤ length block
    → fetch block from n ≡ ok (take n (drop from block))
unfolding fetch
fetch-ok block from n h = ground arith
