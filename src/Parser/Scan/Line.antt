-- ===== src/Parser/Scan/Line.antt =====
-- A line without a blank line at its end, in a scan for the first blank line.
use libmbox.Base.{
  ℕ, ◌+◌, ◌≤◌, ◌<◌, ◌≡◌, ◌≢◌, subst, inl, inr, Bool, true, false, List, arith, ltb, ◌==◌,
  Bool-cases, byte_at, ==→eq, ==→ne, ltb→lt, ltb→ge,
}
use libmbox.Parser.Scan.Text.{IsBlank, NoBlank, GoesOn, Scanned}

module _ (block : List ℕ) (len : ℕ) where
  -- A line break at `j` that no blank line starts with.
  pub starts_none :
      (j : ℕ)
      → byte_at block (j + 1) ≢ b'\n'
      → ¬ ((byte_at block (j + 1) ≡ b'\r') × (byte_at block (j + 2) ≡ b'\n'))
      → (n : ℕ) → ¬ IsBlank block j n
  starts_none j short long n (_, inl (_, c)) = short c
  starts_none j short long n (_, inr (_, c, d)) = long (c, d)

  -- The bytes up to the first line break, and it, start no blank line.
  no_blank_line :
      (i j e : ℕ)
      → ((k : ℕ) → i ≤ k → k < j → byte_at block k ≢ b'\n')
      → ((n : ℕ) → ¬ IsBlank block j n)
      → NoBlank block (j + 1) e
      → NoBlank block i e
  no_blank_line i j e line none_here later k ge lt n blank = elim (Bool-cases (ltb k j)) [
    | inl b ↦ line k ge (ltb→lt k j b) (blank.0)
    | inr b ↦ elim (Bool-cases (k == j)) [
      | inl s ↦ none_here n (subst (λ x. IsBlank block x n) (==→eq k j s) blank)
      | inr d ↦ later k (omega (arith, ltb→ge k j b, ==→ne k j d)) lt n blank
    ]
  ]

  -- The text goes on behind the line break at `j` too.
  GoesOn-line :
      (i j e : ℕ)
      → j + 1 < len
      → ((k : ℕ) → i ≤ k → k < j → byte_at block k ≢ b'\n')
      → GoesOn block len (j + 1) e
      → GoesOn block len i e
  GoesOn-line i j e more line later k ge lt break = elim (Bool-cases (ltb k j)) [
    | inl b ↦ absurd (line k ge (ltb→lt k j b) break)
    | inr b ↦ elim (Bool-cases (k == j)) [
      | inl s ↦ omega (arith, ==→eq k j s)
      | inr d ↦ later k (omega (arith, ltb→ge k j b, ==→ne k j d)) lt break
    ]
  ]

  pub extended :
      (i j : ℕ) (b : Bool) (e : ℕ)
      → i ≤ j
      → j + 1 < len
      → ((k : ℕ) → i ≤ k → k < j → byte_at block k ≢ b'\n')
      → ((n : ℕ) → ¬ IsBlank block j n)
      → Scanned block len (j + 1) b e
      → Scanned block len i b e
  unfolding Scanned
  extended i j true e le more line here (k, n, ge, at_k, lt, blank, before) =
      (k, n, omega arith, at_k, lt, blank, no_blank_line i j k line here before)
  extended i j false e le more line here (before, ge, inside, stop, on) = (
    no_blank_line i j e line here before,
    omega arith,
    inside,
    stop,
    GoesOn-line i j e more line on,
  )

  -- No line break, so no blank line.
  pub clear : (i j : ℕ) → ((k : ℕ) → i ≤ k → k < j → byte_at block k ≢ b'\n') → NoBlank block i j
  clear i j line k ge lt n blank = line k ge lt (blank.0)

  pub no_break :
      (i j : ℕ) → ((k : ℕ) → i ≤ k → k < j → byte_at block k ≢ b'\n') → GoesOn block len i j
  no_break i j line k ge lt break = absurd (line k ge lt break)
