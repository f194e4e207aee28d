-- ===== src/Buf/Kmp/Matcher.antt =====
-- The search itself: with a right table it finds the first occurrence, and stops at a NUL.
use libmbox.Base.{
  ℕ, zero, suc, ◌+◌, ◌-◌, ◌%◌, ◌^◌, ◌≤◌, ◌<◌, ◌≡◌, refl, ap, subst, ◌∙◌, inl, inr, false, List,
  Option, none, some, arith, ◌==◌, if◌then◌else◌, Bool-cases, lt→ltb, length, ==→eq, ==→ne,
}
use libmbox.Base.Int.{ℤ, pos, negsuc, to_int}
use libmbox.Base.Outcome.{ok}
use libmbox.Buf.{MboxBuf}
use libmbox.Buf.Kmp.{match_loop, contains_pattern_with_table, contains_pattern}
use libmbox.Buf.Kmp.Border.{Ends, IsTable, Ends-zero, step_longest}
use libmbox.Buf.Kmp.Table.{at, fall_back-Walked, compute_prefix_table-IsTable}
use libmbox.Buf.Memory.{Allocator, read-ok}

-- The index of the first NUL of the `left` bytes from `i` on, or the index behind them.
unfoldable pub text_end : List ℕ → ℕ → ℕ → ℕ
text_end block zero i = i
text_end block (suc left) i = if at block i == 0 then i else text_end block left (i + 1)

-- The `n` bytes of `p` stand in `t` from place `j` on.
abbrev pub Occurs : (p t : ℕ → ℕ) (n j : ℕ) → Type 0
Occurs p t n j = (x : ℕ) → x < n → p x ≡ t (j + x)

-- What the code returns for a place: -1 for none.
unfoldable pub place_int : Option ℕ → ℤ
place_int none = negsuc 0
place_int (some j) = pos j

-- The place is that of the first occurrence before `e`; `none` says that there is no occurrence.
unfoldable pub IsFirst : (p t : ℕ → ℕ) (n e : ℕ) → Option ℕ → Type 0
IsFirst p t n e none = (j : ℕ) → j + n ≤ e → ¬ Occurs p t n j
IsFirst p t n e (some j) = (j + n ≤ e) × Occurs p t n j × ((k : ℕ) → k < j → ¬ Occurs p t n k)

text_end-ge : (block : List ℕ) (left i : ℕ) → i ≤ text_end block left i
unfolding text_end
text_end-ge block zero i = omega arith
text_end-ge block (suc left) i = elim (Bool-cases (at block i == 0)) [
  | inl e ↦ rw e (omega arith)
  | inr e ↦ rw e (omega (arith, text_end-ge block left (i + 1)))
]

module _ (p t : ℕ → ℕ) (n : ℕ) where
  Ends-of_Occurs : (j : ℕ) → Occurs p t n j → Ends p t n (j + n)
  Ends-of_Occurs j occurs = (omega arith, λ x h. occurs x h ∙ ap t (omega arith))

  Occurs-of_Ends : (i : ℕ) → Ends p t n i → Occurs p t n (i - n)
  Occurs-of_Ends i (le, same) = same

  -- No occurrence ends at `i` or before.
  abbrev NoneBy : ℕ → Type 0
  NoneBy i = (x : ℕ) → x ≤ i → ¬ Ends p t n x

  IsFirst-none : (i : ℕ) → NoneBy i → IsFirst p t n i none
  unfolding IsFirst
  IsFirst-none i before j le occurs = before (j + n) le (Ends-of_Occurs j occurs)

  IsFirst-some :
      (i e : ℕ) → NoneBy i → i + 1 ≤ e → Ends p t n (i + 1) → IsFirst p t n e (some (i + 1 - n))
  unfolding IsFirst
  IsFirst-some i e before le ends = (
    omega (arith, ends.0),
    Occurs-of_Ends (i + 1) ends,
    λ k lt occurs. before (k + n) (omega (arith, ends.0)) (Ends-of_Occurs k occurs),
  )

  NoneBy-suc :
      (i q : ℕ)
      → NoneBy i
      → q < n
      → ((j : ℕ) → j < n + 1 → Ends p t j (i + 1) → j ≤ q)
      → NoneBy (i + 1)
  NoneBy-suc i q before less most x le ends = elim (Bool-cases (x == i + 1)) [
    | inl e ↦
        let here = subst (λ x. Ends p t n x) (==→eq x (i + 1) e) ends in
        absurd (omega (arith, most n (omega arith) here))
    | inr ne ↦ before x (omega (arith, ==→ne x (i + 1) ne)) ends
  ]

-- A place below 2 ^ 31 is kept by an `int`.
to_int_place : (k : ℕ) → k < 2 ^ 31 → to_int (pos k) ≡ pos k
unfolding to_int
to_int_place k small =
    let same : k % 2 ^ 32 ≡ k = omega arith in rw (same, lt→ltb k (2 ^ 31) small) refl

module _ (norm : ℕ → ℕ) (pattern table block : List ℕ) (n : ℕ) (fit : n ≤ length pattern)
    (right : IsTable (λ x. norm (at pattern x)) table n) (there : n ≤ length table) where
  pub match_loop-IsFirst :
      (left i q : ℕ)
      → i + left ≤ length block
      → i + left < 2 ^ 31
      → q < n
      → Ends (λ x. norm (at pattern x)) (λ x. norm (at block x)) q i
      → ((j : ℕ) → j < n → Ends (λ x. norm (at pattern x)) (λ x. norm (at block x)) j i → j ≤ q)
      → NoneBy (λ x. norm (at pattern x)) (λ x. norm (at block x)) n i
      → (r : Option ℕ) × (match_loop norm pattern n left i table q block ≡ ok (place_int r))
        × IsFirst (λ x. norm (at pattern x)) (λ x. norm (at block x)) n (text_end block left i) r
  unfolding match_loop text_end place_int
  match_loop-IsFirst zero i q room small less ends most before =
      (none, refl, IsFirst-none _ (λ x. norm (at block x)) n i before)
  match_loop-IsFirst (suc left) i q room small less ends most before =
      elim (Bool-cases (at block i == 0)) [
        | inl nul ↦ (
          none,
          rw (read-ok block i (omega arith), nul) refl,
          rw nul (IsFirst-none _ (λ x. norm (at block x)) n i before),
        )
        | inr go ↦
            let p : ℕ → ℕ = λ x. norm (at pattern x) in
            let t : ℕ → ℕ = λ x. norm (at block x) in
            let (r, run, w) =
              fall_back-Walked norm pattern table n (at block i) t n i right there refl (q + 1) q
                (omega arith) (omega arith) ends (λ j h f g. most j h f) (omega arith) in
            let next : ℕ = if p r == t i then r + 1 else r in
            let (ends', most') = step_longest p t n i r w.ends w.stop w.longest in
            let bound : next ≤ r + 1 = ground arith in
            elim (Bool-cases (next == n)) [
              | inl whole ↦ (
                some (i + 1 - n),
                rw
                    (
                      read-ok block i (omega arith),
                      go,
                      run,
                      read-ok pattern r (omega (arith, w.below)),
                      whole,
                      to_int_place (i + 1 - n) (omega arith),
                    )
                    refl,
                rw go (
                    IsFirst-some p t n i (text_end block left (i + 1)) before
                      (text_end-ge block left (i + 1))
                      (subst (λ k. Ends p t k (i + 1)) (==→eq next n whole) ends')),
              )
              | inr part ↦
                  let less' : next < n = omega (arith, ==→ne next n part, w.below) in
                  let (r', run', first) =
                    match_loop-IsFirst left (i + 1) next (omega arith) (omega arith) less' ends'
                      (λ j h f. most' j (omega arith) f)
                      (NoneBy-suc p t n i next before less' most') in
                  (
                    r',
                    rw
                        (
                          read-ok block i (omega arith),
                          go,
                          run,
                          read-ok pattern r (omega (arith, w.below)),
                          part,
                        )
                        run',
                    rw go first,
                  )
            ]
      ]

-- For a pattern of 1 to 2 ^ 31 - 1 bytes, and a buffer whose text lies in its block and is shorter
-- than 2 ^ 31 bytes,
-- `mboxBufContainsPattern` returns the place of the first occurrence of the pattern that ends
-- before the first NUL of the text (or before its end), and -1 when there is none.
pub contains_pattern-IsFirst :
    (m : Allocator) (buf : MboxBuf) (pattern : List ℕ) (n : ℕ)
    → 0 < n
    → n ≤ length pattern
    → n < 2 ^ 31
    → buf.len ≤ length buf.block
    → buf.len < 2 ^ 31
    → (r : Option ℕ) × (contains_pattern m buf pattern n ≡ ok (place_int r))
      × IsFirst (at pattern) (at buf.block) n (text_end buf.block buf.len 0) r
unfolding contains_pattern contains_pattern_with_table
contains_pattern-IsFirst m buf pattern n nonempty fit short room small =
    let (table, run, right, size) = compute_prefix_table-IsTable m pattern n nonempty fit short in
    let (r, run', first) =
      match_loop-IsFirst (λ a. a) pattern table buf.block n fit right (omega (arith, size)) buf.len
        0 0 (omega arith) (omega arith) nonempty (Ends-zero (at pattern) (at buf.block) 0)
        (λ j h f. f.0) (λ x le f. absurd (omega (arith, f.0))) in
    let some_pattern : (n == 0) ≡ false = ground arith in (r, rw (run, some_pattern) run', first)
