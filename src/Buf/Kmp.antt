-- ===== src/Buf/Kmp.antt =====
-- src/mbox-buf.c: the search for a pattern (Knuth, Morris and Pratt), with its prefix table. The place
-- that it returns is an `int`, and so are the entries of the table.
pub mod Border
pub mod Table
pub mod Matcher
use libmbox.Base.{
  ℕ, zero, suc, ◌+◌, ◌-◌, ◌^◌, Bool, true, false, List, [], ◌∷◌, ltb, ◌==◌, if◌then◌else◌,
}
use libmbox.Base.Int.{ℤ, pos, negsuc, to_int}
use libmbox.Base.Outcome.{Outcome, ok, fault, out_of_fuel, ◌>>=◌}
use libmbox.Buf.{MboxBuf}
use libmbox.Buf.Char.{to_lower}
use libmbox.Buf.Memory.{Allocator, malloc, read, store}

-- `tolower`, or nothing, is put round both sides of a comparison.
module _ (norm : ℕ → ℕ) (pattern : List ℕ) where
  -- `while (k > 0 && pattern[k] != c) k = table[k - 1];`
  unfoldable pub fall_back : ℕ → List ℕ → ℕ → ℕ → Outcome ℕ
  fall_back zero table k c = out_of_fuel
  fall_back (suc fuel) table k c = if k == 0 then ok 0 else (do
    p ← read pattern k
    if norm p == norm c then ok k else (do k' ← read table (k - 1); fall_back fuel table k' c))

  -- The loop over the buffer, from index `i` with `left` bytes to go; `negsuc 0` is -1.
  unfoldable pub match_loop : ℕ → ℕ → ℕ → List ℕ → ℕ → List ℕ → Outcome ℤ
  unfolding to_int
  match_loop patternlen zero i table q block = ok (negsuc 0)
  match_loop patternlen (suc left) i table q block = do
    c ← read block i
    if c == 0 then ok (negsuc 0) else (do
      q' ← fall_back (q + 1) table q c
      p ← read pattern q'
      let next = if norm p == norm c then q' + 1 else q'
      if next == patternlen
          then ok (to_int (pos (i + 1 - patternlen)))
          else match_loop patternlen left (i + 1) table next block)

-- `k++` on an `int`.
unfoldable pub int_inc : ℕ → Outcome ℕ
int_inc k = if ltb (k + 1) (2 ^ 31) then ok (k + 1) else fault

-- The loop of `mboxBufComputePrefixTable`, from index `i` with `left` rounds to go.
unfoldable pub table_loop : List ℕ → ℕ → ℕ → ℕ → List ℕ → Outcome (List ℕ)
unfolding int_inc
table_loop pattern zero i k table = ok table
table_loop pattern (suc left) i k table = do
  c ← read pattern i
  k' ← fall_back (λ a. a) pattern (k + 1) table k c
  p ← read pattern k'
  next ← if p == c then int_inc k' else ok k'
  table' ← store table i next
  table_loop pattern left (i + 1) next table'

unfoldable pub compute_prefix_table : Allocator → List ℕ → ℕ → Outcome (List ℕ)
unfolding table_loop fall_back
compute_prefix_table m pattern patternlen = do
  table ← store (malloc m patternlen) 0 0
  table_loop pattern (patternlen - 1) 1 0 table

unfoldable pub contains_pattern_with_table : MboxBuf → List ℕ → List ℕ → ℕ → Outcome ℤ
unfolding match_loop fall_back
contains_pattern_with_table buf table pattern patternlen =
    if patternlen == 0
    then ok (negsuc 0)
    else match_loop (λ a. a) pattern patternlen buf.len 0 table 0 buf.block

unfoldable pub contains_case_pattern_with_table : MboxBuf → List ℕ → List ℕ → ℕ → Outcome ℤ
unfolding match_loop fall_back to_lower
contains_case_pattern_with_table buf table pattern patternlen =
    if patternlen == 0
    then ok (negsuc 0)
    else match_loop to_lower pattern patternlen buf.len 0 table 0 buf.block

unfoldable pub contains_pattern : Allocator → MboxBuf → List ℕ → ℕ → Outcome ℤ
unfolding compute_prefix_table contains_pattern_with_table
contains_pattern m buf pattern patternlen = do
  table ← compute_prefix_table m pattern patternlen
  contains_pattern_with_table buf table pattern patternlen

unfoldable pub contains_case_pattern : Allocator → MboxBuf → List ℕ → ℕ → Outcome ℤ
unfolding compute_prefix_table contains_case_pattern_with_table
contains_case_pattern m buf pattern patternlen = do
  table ← compute_prefix_table m pattern patternlen
  contains_case_pattern_with_table buf table pattern patternlen
