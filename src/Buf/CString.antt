-- ===== src/Buf/CString.antt =====
-- C strings in a block.
use libmbox.Base.{
  ℕ, zero, suc, ◌+◌, ◌<◌, ◌≡◌, ◌≢◌, List, [], ◌∷◌, arith, length, get_or, set, length-set,
  get_or-set_ne, get_or-set_self, ◌∙◌, ◌++◌, ap, refl, drop,
}
use libmbox.Buf.Memory.{copied, length-copied}

-- From index `i` on the block holds the bytes `s`, none of them a NUL, and a NUL behind them.
abbrev pub IsCString : List ℕ → ℕ → List ℕ → Type 0
IsCString block i [] = (i < length block) × (get_or block i 0 ≡ 0)
IsCString block i (c ∷ cs) =
    (i < length block) × (get_or block i 0 ≡ c) × (c ≢ 0) × IsCString block (i + 1) cs

pub IsCString-fits : (block s : List ℕ) (i : ℕ) → IsCString block i s → i + length s < length block
IsCString-fits block [] i (h, _) = omega arith
IsCString-fits block (c ∷ cs) i (_, _, _, after) =
    omega (arith, IsCString-fits block cs (i + 1) after)

-- A write in front of it leaves it alone.
pub IsCString-set :
    (block s : List ℕ) (i at v : ℕ) → at < i → IsCString block i s → IsCString (set block at v) i s
IsCString-set block [] i at v lt (h, e) = (
  omega (arith, length-set block at v),
  get_or-set_ne block at i v 0 (λ e. absurd (omega arith)) ∙ e,
)
IsCString-set block (c ∷ cs) i at v lt (h, e, ne, after) = (
  omega (arith, length-set block at v),
  get_or-set_ne block at i v 0 (λ e. absurd (omega arith)) ∙ e,
  ne,
  IsCString-set block cs (i + 1) at v (omega arith) after,
)

-- No byte is a NUL.
abbrev pub NoNul : List ℕ → Type 0
NoNul [] = Unit {0}
NoNul (c ∷ cs) = (c ≢ 0) × NoNul cs

pub IsCString-of_bytes :
    (block s : List ℕ) (i : ℕ)
    → NoNul s
    → i + length s < length block
    → ((x : ℕ) → x < length s → get_or block (i + x) 0 ≡ get_or s x 0)
    → get_or block (i + length s) 0 ≡ 0
    → IsCString block i s
IsCString-of_bytes block [] i clean fits same nul =
    (omega arith, ap (λ k. get_or block k 0) (omega arith) ∙ nul)
IsCString-of_bytes block (c ∷ cs) i (ne, clean) fits same nul = (
  omega arith,
  ap (λ k. get_or block k 0) (omega arith) ∙ same 0 (omega arith),
  ne,
  IsCString-of_bytes block cs (i + 1) clean (omega arith)
      (λ x lt. ap (λ k. get_or block k 0) (omega arith) ∙ same (suc x) (omega arith))
      (ap (λ k. get_or block k 0) (omega arith) ∙ nul),
)

pub get_or-append_left :
    (xs ys : List ℕ) (i : ℕ) → i < length xs → get_or (xs ++ ys) i 0 ≡ get_or xs i 0
get_or-append_left [] ys i lt = absurd (omega arith)
get_or-append_left (x ∷ xs) ys zero lt = refl
get_or-append_left (x ∷ xs) ys (suc i) lt = get_or-append_left xs ys i (omega arith)

-- A string that is copied to the front of a block, and terminated there.
pub IsCString-copied :
    (block s : List ℕ)
    → NoNul s
    → length s < length block
    → IsCString (set (copied block 0 s) (length s) 0) 0 s
IsCString-copied block s clean fits =
    let size = length-copied block 0 s (omega arith) in
    IsCString-of_bytes (set (copied block 0 s) (length s) 0) s 0 clean
      (omega (arith, size, length-set (copied block 0 s) (length s) 0))
      (λ x lt.
        ap (λ k. get_or (set (copied block 0 s) (length s) 0) k 0) (omega arith)
        ∙ get_or-set_ne (copied block 0 s) (length s) x 0 0 (λ e. absurd (omega arith))
        ∙ get_or-append_left s (drop (0 + length s) block) x lt)
      (ap (λ k. get_or (set (copied block 0 s) (length s) 0) k 0) (omega arith)
        ∙ get_or-set_self (copied block 0 s) (length s) 0 0 (omega (arith, size)))
