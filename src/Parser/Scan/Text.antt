-- ===== src/Parser/Scan/Text.antt =====
-- The bytes of a text, its blank lines, and the end of a line.
use libmbox.Base.{
  ℕ, zero, suc, ◌+◌, ◌≤◌, ◌<◌, ◌≡◌, refl, sym, ap, subst, ◌∙◌, ◌≢◌, ◌⊎◌, inl, inr, Bool, true,
  false, List, arith, ◌==◌, Bool-cases, length, byte_at, ne→==, ==→eq, ==→ne,
}
use libmbox.Base.Outcome.{ok}
use libmbox.Buf.Memory.{read-ok}
use libmbox.Parser.Scan.{line_end}

-- A line break at `i`, and a blank line of `n` bytes from there on.
abbrev pub IsBlank : List ℕ → ℕ → ℕ → Type 0
IsBlank block i n =
    (byte_at block i ≡ b'\n')
    × (((n ≡ 2) × (byte_at block (i + 1) ≡ b'\n'))
        ⊎ ((n ≡ 3) × (byte_at block (i + 1) ≡ b'\r') × (byte_at block (i + 2) ≡ b'\n')))

-- No blank line starts from `i` up to `j`.
abbrev pub NoBlank : List ℕ → ℕ → ℕ → Type 0
NoBlank block i j = (k : ℕ) → i ≤ k → k < j → (n : ℕ) → ¬ IsBlank block k n

-- Behind each line break from `i` up to `j` the text goes on.
abbrev pub GoesOn : List ℕ → (len i j : ℕ) → Type 0
GoesOn block len i j = (k : ℕ) → i ≤ k → k < j → byte_at block k ≡ b'\n' → k + 1 < len

-- What the scan from `i` gives: the end of the first blank line, or where it has stopped; then no
-- blank line starts before that place, the text ends there or one byte behind, and it goes on behind
-- each line break before.
unfoldable pub Scanned : List ℕ → (len i : ℕ) → Bool → ℕ → Type 0
Scanned block len i true e =
    (k : ℕ) × (n : ℕ) × (i ≤ k) × (e ≡ k + n) × (k < len) × IsBlank block k n × NoBlank block i k
Scanned block len i false e =
    NoBlank block i e × (i ≤ e) × (e ≤ len) × (len ≤ e + 1) × GoesOn block len i e

-- The block holds a text of `len` bytes, none a NUL, and a terminator.
pub record IsText (block : List ℕ) (len : ℕ) : Type 0 where
  pub clean : (i : ℕ) → i < len → byte_at block i ≢ 0
  pub nul : byte_at block len ≡ 0
  pub room : len < length block

module _ (block : List ℕ) (len : ℕ) (text : IsText block len) where
  -- The end of a line.
  pub line_end-ok :
      (fuel i : ℕ)
      → i ≤ len
      → len < i + fuel
      → (j : ℕ) × (line_end fuel block i ≡ ok j)
        × (i ≤ j)
        × (j ≤ len)
        × ((byte_at block j ≡ b'\n') ⊎ (j ≡ len))
        × ((k : ℕ) → i ≤ k → k < j → byte_at block k ≢ b'\n')
  unfolding line_end
  line_end-ok zero i le enough = absurd (omega arith)
  line_end-ok (suc fuel) i le enough = elim (Bool-cases (byte_at block i == b'\n')) [
    | inl e ↦ (
      i,
      rw (read-ok block i (omega (arith, text.room)), e) refl,
      omega arith,
      le,
      inl (==→eq (byte_at block i) b'\n' e),
      λ k h l. absurd (omega arith),
    )
    | inr e ↦ elim (Bool-cases (i == len)) [
      | inl done ↦
          let same = ==→eq i len done in
          let nul : byte_at block i ≡ 0 = ap (byte_at block) same ∙ text.nul in
          (
            i,
            rw (read-ok block i (omega (arith, text.room)), nul) refl,
            omega arith,
            le,
            inr same,
            λ k h l. absurd (omega arith),
          )
      | inr on ↦
          let lt : i < len = omega (arith, ==→ne i len on) in
          let (j, run, ge, le', stop, none_before) =
            line_end-ok fuel (i + 1) (omega arith) (omega arith) in
          (
            j,
            rw
                (
                  read-ok block i (omega (arith, text.room)),
                  e,
                  ne→== (byte_at block i) 0 (text.clean i lt),
                )
                run,
            omega arith,
            le',
            stop,
            λ k h l. elim (Bool-cases (k == i)) [
              | inl s ↦
                  subst (λ x. byte_at block x ≢ b'\n') (sym (==→eq k i s))
                    (==→ne (byte_at block i) b'\n' e)
              | inr n ↦ none_before k (omega (arith, ==→ne k i n)) l
            ],
          )
    ]
  ]
