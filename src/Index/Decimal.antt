-- ===== src/Index/Decimal.antt =====
-- The decimal text of a number, as "%zu" prints it.
use libmbox.Base.{
  ℕ, zero, suc, ◌+◌, ◌-◌, ◌*◌, ◌/◌, ◌%◌, ◌≤◌, ◌<◌, ◌≡◌, refl, List, [], ◌∷◌, ◌++◌, arith, ltb,
  if◌then◌else◌, Bool-cases, inl, inr, ltb→lt, length, length-append,
}
use libmbox.Buf.CString.{NoNul}

abbrev pub ten_to : ℕ → ℕ
ten_to zero = 1
ten_to (suc k) = 10 * ten_to k

-- The digits of a number below `ten_to width`.
unfoldable pub digits : (width n : ℕ) → List ℕ
digits zero n = []
digits (suc width) n =
    let front = digits width (n / 10) in
    if ltb n 10 then (n + b'0') ∷ [] else front ++ (n % 10 + b'0') ∷ []

-- A `size_t` has at most 20 digits.
unfoldable pub print_size : ℕ → List ℕ
unfolding digits
print_size n = digits 20 n

abbrev pub IsDigits : List ℕ → Type 0
IsDigits [] = Unit {0}
IsDigits (c ∷ cs) = (b'0' ≤ c) × (c ≤ b'9') × IsDigits cs

-- The number that the digits `s` give behind those of `n`.
abbrev pub value : ℕ → List ℕ → ℕ
value n [] = n
value n (c ∷ cs) = value (n * 10 + (c - b'0')) cs

IsDigits-append : (xs ys : List ℕ) → IsDigits xs → IsDigits ys → IsDigits (xs ++ ys)
IsDigits-append [] ys h k = k
IsDigits-append (x ∷ xs) ys (a, b, h) k = (a, b, IsDigits-append xs ys h k)

value-append : (n : ℕ) (xs : List ℕ) (y : ℕ) → value n (xs ++ y ∷ []) ≡ value n xs * 10 + (y - b'0')
value-append n [] y = refl
value-append n (x ∷ xs) y = value-append (n * 10 + (x - b'0')) xs y

pub IsDigits-NoNul : (s : List ℕ) → IsDigits s → NoNul s
IsDigits-NoNul [] h = tt
IsDigits-NoNul (c ∷ cs) (a, b, h) = (λ e. absurd (omega arith), IsDigits-NoNul cs h)

pub digits-IsDigits : (width n : ℕ) → IsDigits (digits width n)
unfolding digits
digits-IsDigits zero n = tt
digits-IsDigits (suc width) n = elim (Bool-cases (ltb n 10)) [
  | inl e ↦ rw e (omega arith, omega (arith, ltb→lt n 10 e), tt)
  | inr e ↦ rw e (
      IsDigits-append (digits width (n / 10)) ((n % 10 + b'0') ∷ [])
        (digits-IsDigits width (n / 10)) (omega arith, omega arith, tt))
]

pub length-digits : (width n : ℕ) → length (digits width n) ≤ width
unfolding digits
length-digits zero n = omega arith
length-digits (suc width) n = elim (Bool-cases (ltb n 10)) [
  | inl e ↦ rw e (omega arith)
  | inr e ↦ rw e (
      omega (
        arith,
        length-append (digits width (n / 10)) ((n % 10 + b'0') ∷ []),
        length-digits width (n / 10),
      ))
]

pub value-digits : (width n : ℕ) → n < ten_to width → value 0 (digits width n) ≡ n
unfolding digits
value-digits zero n h = omega arith
value-digits (suc width) n h = elim (Bool-cases (ltb n 10)) [
  | inl e ↦ rw e (omega arith)
  | inr e ↦
      rw
        (
          e,
          value-append 0 (digits width (n / 10)) (n % 10 + b'0'),
          value-digits width (n / 10) (omega arith),
        )
        (omega arith)
]
