-- ===== src/Buf/Kmp/Border.antt =====
-- Prefixes of a pattern that end at a place of a text, and the table of their borders.
use libmbox.Base.{
  ℕ, zero, suc, ◌+◌, ◌-◌, ◌≤◌, ◌<◌, ◌≡◌, sym, ap, subst, ◌∙◌, ◌⊎◌, inl, inr, false, List, arith,
  ◌==◌, if◌then◌else◌, Bool-cases, get_or, ==→eq, ==→ne,
}

-- The first `k` bytes of `p` are the last `k` of the first `i` bytes of `t`.
abbrev pub Ends : (ℕ → ℕ) → (ℕ → ℕ) → ℕ → ℕ → Type 0
Ends p t k i = (k ≤ i) × ((x : ℕ) → x < k → p x ≡ t (i - k + x))

-- The entry `b` for the prefix of length `k` is its longest proper border.
abbrev pub IsBorder : (ℕ → ℕ) → ℕ → ℕ → Type 0
IsBorder p k b = (b < k) × Ends p p b k × ((j : ℕ) → j < k → Ends p p j k → j ≤ b)

-- The first `n` entries of the table are right.
abbrev pub IsTable : (ℕ → ℕ) → List ℕ → ℕ → Type 0
IsTable p table n = (k : ℕ) → 0 < k → k ≤ n → IsBorder p k (get_or table (k - 1) 0)

module _ (p t : ℕ → ℕ) where
  pub Ends-zero : (i : ℕ) → Ends p t 0 i
  Ends-zero i = (omega arith, λ x h. absurd (omega arith))

  -- Of two prefixes that end at one place, the shorter ends the longer.
  pub Ends-of_both : (i k j : ℕ) → Ends p t k i → Ends p t j i → j < k → Ends p p j k
  Ends-of_both i k j (le_k, at_k) (le_j, at_j) lt =
      (omega arith, λ x h. at_j x h ∙ ap t (omega arith) ∙ sym (at_k (k - j + x) (omega arith)))

  pub Ends-trans : (i k j : ℕ) → Ends p t k i → Ends p p j k → Ends p t j i
  Ends-trans i k j (le_k, at_k) (le_j, at_j) =
      (omega arith, λ x h. at_j x h ∙ at_k (k - j + x) (omega arith) ∙ ap t (omega arith))

  pub Ends-suc : (i k : ℕ) → Ends p t k i → p k ≡ t i → Ends p t (k + 1) (i + 1)
  Ends-suc i k (le_k, at_k) e = (omega arith, at)
    where
      at : (x : ℕ) → x < k + 1 → p x ≡ t (i + 1 - (k + 1) + x)
      at x h = elim (Bool-cases (x == k)) [
        | inl same ↦ ap p (==→eq x k same) ∙ e ∙ ap t (omega (arith, ==→eq x k same))
        | inr other ↦ at_k x (omega (arith, ==→ne x k other)) ∙ ap t (omega arith)
      ]

  pub Ends-pred : (i k : ℕ) → Ends p t (k + 1) (i + 1) → Ends p t k i × (p k ≡ t i)
  Ends-pred i k (le_k, at_k) = (
    (omega arith, λ x h. at_k x (omega arith) ∙ ap t (omega arith)),
    at_k k (omega arith) ∙ ap t (omega arith),
  )

  -- No prefix shorter than `top` that ends at `i`, and goes on with the next byte, is longer.
  abbrev pub IsLongest : (top i q : ℕ) → Type 0
  IsLongest top i q = (k : ℕ) → k < top → Ends p t k i → p k ≡ t i → k ≤ q

  -- The prefix is kept or lengthened: then it is the longest that ends behind the next byte.
  pub step_longest :
      (top i r : ℕ)
      → Ends p t r i
      → (r ≡ 0) ⊎ (p r ≡ t i)
      → IsLongest top i r
      → let next = if p r == t i then r + 1 else r in
        Ends p t next (i + 1) × ((j : ℕ) → j < top + 1 → Ends p t j (i + 1) → j ≤ next)
  step_longest top i r ends stop longest = elim (Bool-cases (p r == t i)) [
    | inl e ↦ rw e (Ends-suc i r ends (==→eq (p r) (t i) e), more)
    | inr ne ↦
        rw ne (subst (λ k. Ends p t k (i + 1)) (sym (at_zero ne)) (Ends-zero (i + 1)), none_left ne)
  ]
    where
      before : (j : ℕ) → Ends p t (suc j) (i + 1) → Ends p t j i × (p j ≡ t i)
      before j f =
          let e : suc j ≡ j + 1 = omega arith in Ends-pred i j (subst (λ k. Ends p t k (i + 1)) e f)

      more : (j : ℕ) → j < top + 1 → Ends p t j (i + 1) → j ≤ r + 1
      more zero h f = omega arith
      more (suc j) h f = let (g, e) = before j f in omega (arith, longest j (omega arith) g e)

      at_zero : (p r == t i) ≡ false → r ≡ 0
      at_zero ne = elim stop [ inl z ↦ z | inr e ↦ absurd (==→ne (p r) (t i) ne e) ]

      none_left : (p r == t i) ≡ false → (j : ℕ) → j < top + 1 → Ends p t j (i + 1) → j ≤ r
      none_left ne zero h f = omega arith
      none_left ne (suc j) h f =
          let (g, e) = before j f in
          let same : j ≡ r = omega (arith, longest j (omega arith) g e, at_zero ne) in
          absurd (==→ne (p r) (t i) ne (ap p (sym same) ∙ e))
