-- ===== src/Buf/Kmp/Table.antt =====
-- The walk along the borders, and the table that `mboxBufComputePrefixTable` builds with it.
use libmbox.Base.{
  ℕ, zero, suc, ◌+◌, ◌-◌, ◌^◌, ◌≤◌, ◌<◌, ◌≡◌, refl, sym, ap, ◌∙◌, ◌≢◌, ◌⊎◌, inl, inr, Bool, List,
  arith, ◌==◌, if◌then◌else◌, Bool-cases, lt→ltb, true, false, length, get_or, set, length-set,
  get_or-set_self, get_or-set_ne, ==→eq, ==→ne,
}
use libmbox.Base.Outcome.{ok, fault}
use libmbox.Buf.Kmp.{fall_back, int_inc, table_loop, compute_prefix_table}
use libmbox.Buf.Kmp.Border.{
  Ends, IsBorder, IsTable, IsLongest, Ends-zero, Ends-of_both, Ends-trans, step_longest,
}
use libmbox.Buf.Memory.{Allocator, malloc, length-malloc, read-ok, store-ok, store_fault}

abbrev pub at : List ℕ → ℕ → ℕ
at xs i = get_or xs i 0

-- Where the walk stops: at a prefix that ends at `i` and goes on with the next byte, or at none.
pub record Walked (p t : ℕ → ℕ) (top i k r : ℕ) : Type 0 where
  pub below : r ≤ k
  pub ends : Ends p t r i
  pub stop : (r ≡ 0) ⊎ (p r ≡ t i)
  pub longest : IsLongest p t top i r

module _ (norm : ℕ → ℕ) (pattern table : List ℕ) (n c : ℕ) (t : ℕ → ℕ) (top i : ℕ)
    (right : IsTable (λ x. norm (at pattern x)) table n) (there : n ≤ length table)
    (next : norm c ≡ t i) where
  pub fall_back-Walked :
      (fuel k : ℕ)
      → k ≤ n
      → k < length pattern
      → Ends (λ x. norm (at pattern x)) t k i
      → IsLongest (λ x. norm (at pattern x)) t top i k
      → k < fuel
      → (r : ℕ) × (fall_back norm pattern fuel table k c ≡ ok r)
        × Walked (λ x. norm (at pattern x)) t top i k r
  unfolding fall_back
  fall_back-Walked zero k in_n in_p ends longest enough = absurd (omega arith)
  fall_back-Walked (suc fuel) k in_n in_p ends longest enough = elim (Bool-cases (k == 0)) [
    | inl e ↦ (
      0,
      rw e,
      record {
        below = omega arith;
        ends = Ends-zero _ t i;
        stop = inl refl;
        longest = λ j h f g. omega (arith, longest j h f g, ==→eq k 0 e);
      },
    )
    | inr ne ↦
        let ne' = ==→ne k 0 ne in
        elim (Bool-cases (norm (at pattern k) == norm c)) [
          | inl e ↦ (
            k,
            rw (ne, read-ok pattern k in_p, e),
            record {
              below = omega arith;
              ends = ends;
              stop = inr (==→eq _ _ e ∙ next);
              longest = longest;
            },
          )
          | inr differ ↦
              let (lt, border, most) = right k (omega arith) in_n in
              let b = at table (k - 1) in
              let shorter : IsLongest (λ x. norm (at pattern x)) t top i b = λ j h f g.
                let apart : j ≢ k =
                  λ e. ==→ne _ _ differ (ap (λ x. norm (at pattern x)) (sym e) ∙ g ∙ sym next) in
                let lt_k : j < k = omega (arith, longest j h f g) in
                most j lt_k (Ends-of_both _ t i k j ends f lt_k) in
              let (r, run, w) =
                fall_back-Walked fuel b (omega arith) (omega arith)
                  (Ends-trans _ t i k b ends border) shorter (omega arith) in
              (
                r,
                rw (ne, read-ok pattern k in_p, differ, read-ok table (k - 1) (omega arith)) run,
                record {
                  below = omega (arith, w.below);
                  ends = w.ends;
                  stop = w.stop;
                  longest = w.longest;
                },
              )
        ]
  ]

-- One more entry.
IsTable-set :
    (p : ℕ → ℕ) (table : List ℕ) (i b : ℕ)
    → IsTable p table i
    → i < length table
    → IsBorder p (i + 1) b
    → IsTable p (set table i b) (i + 1)
IsTable-set p table i b right fit border k pos le = elim (Bool-cases (k == i + 1)) [
  | inl e ↦
      let whole = ==→eq k (i + 1) e in
      let here : at (set table i b) (k - 1) ≡ b =
        ap (at (set table i b)) (omega (arith, whole)) ∙ get_or-set_self table i b 0 fit in
      rw here (rw whole border)
  | inr ne ↦
      let less : k ≤ i = omega (arith, ==→ne k (i + 1) ne) in
      rw (get_or-set_ne table i (k - 1) b 0 (λ e. absurd (omega arith))) (right k pos less)
]

next-le : (b : Bool) (r : ℕ) → (if b then r + 1 else r) ≤ r + 1
next-le b r = ground arith

-- A border below 2 ^ 31 does not overflow.
int_inc-ok :
    (b : Bool) (r : ℕ)
    → r + 1 < 2 ^ 31
    → (if b then int_inc r else ok r) ≡ ok (if b then r + 1 else r)
unfolding int_inc
int_inc-ok true r small = rw (lt→ltb (r + 1) (2 ^ 31) small) refl
int_inc-ok false r small = refl

module _ (pattern : List ℕ) where
  table_loop-IsTable :
      (left i k : ℕ) (table : List ℕ) (n : ℕ)
      → i + left ≡ n
      → 0 < i
      → n ≤ length pattern
      → n < 2 ^ 31
      → n ≤ length table
      → IsTable (at pattern) table i
      → IsBorder (at pattern) i k
      → (table' : List ℕ) × (table_loop pattern left i k table ≡ ok table')
        × IsTable (at pattern) table' n
        × (length table' ≡ length table)
  unfolding table_loop
  table_loop-IsTable zero i k table n e pos fit small room right border =
      let done : i ≡ n = omega arith in (table, refl, rw (← done) right, refl)
  table_loop-IsTable (suc left) i k table n e pos fit small room right (lt, ends, most) =
      let (r, run, w) =
        fall_back-Walked (λ a. a) pattern table i (at pattern i) (at pattern) i i right
          (omega arith) refl (k + 1) k (omega arith) (omega arith) ends (λ j h f g. most j h f)
          (omega arith) in
      let next : ℕ = if at pattern r == at pattern i then r + 1 else r in
      let (ends', most') = step_longest (at pattern) (at pattern) i i r w.ends w.stop w.longest in
      let bound : next < i + 1 = omega (arith, next-le (at pattern r == at pattern i) r, w.below) in
      let (table', run', right', size) =
        table_loop-IsTable left (i + 1) next (set table i next) n (omega arith) (omega arith) fit
          small (omega (arith, length-set table i next))
          (IsTable-set (at pattern) table i next right (omega arith) (bound, ends', most'))
          (bound, ends', most') in
      (
        table',
        rw
            (
              read-ok pattern i (omega arith),
              run,
              read-ok pattern r (omega (arith, w.below)),
              int_inc-ok (at pattern r == at pattern i) r (omega (arith, w.below)),
              store-ok table i next (omega arith),
            )
            run',
        right',
        size ∙ length-set table i next,
      )

-- For a pattern of 1 to 2 ^ 31 - 1 bytes, `mboxBufComputePrefixTable` returns: no access is out of range,
-- the walk ends, and the entry for each prefix is the length of its longest proper border.
pub compute_prefix_table-IsTable :
    (m : Allocator) (pattern : List ℕ) (n : ℕ)
    → 0 < n
    → n ≤ length pattern
    → n < 2 ^ 31
    → (table : List ℕ) × (compute_prefix_table m pattern n ≡ ok table)
      × IsTable (at pattern) table n
      × (length table ≡ n)
unfolding compute_prefix_table
compute_prefix_table-IsTable m pattern n pos fit small =
    let table₀ = set (malloc m n) 0 0 in
    let size₀ : length table₀ ≡ n = length-set (malloc m n) 0 0 ∙ length-malloc m n in
    let first : IsBorder (at pattern) 1 0 =
      (omega arith, Ends-zero (at pattern) (at pattern) 1, λ j h f. omega arith) in
    let right₀ : IsTable (at pattern) table₀ 1 = λ k above le.
      let one : k ≡ 1 = omega arith in
      let here : at table₀ (k - 1) ≡ 0 =
        ap (at table₀) (omega arith)
        ∙ get_or-set_self (malloc m n) 0 0 0 (omega (arith, length-malloc m n)) in
      rw here (rw one first) in
    let (table, run, right, size) =
      table_loop-IsTable pattern (n - 1) 1 0 table₀ n (omega arith) (omega arith) fit small
        (omega (arith, size₀)) right₀ first in
    (
      table,
      rw (store-ok (malloc m n) 0 0 (omega (arith, length-malloc m n))) run,
      right,
      size ∙ size₀,
    )

-- For the empty pattern `mboxBufComputePrefixTable` writes its first entry behind the block of no
-- entries that it has allocated.
pub compute_prefix_table_empty :
    (m : Allocator) (pattern : List ℕ) → compute_prefix_table m pattern 0 ≡ fault
unfolding compute_prefix_table
compute_prefix_table_empty m pattern =
    rw (store_fault (malloc m 0) 0 0 (omega (arith, length-malloc m 0)))
