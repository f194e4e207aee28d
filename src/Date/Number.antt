-- ===== src/Date/Number.antt =====
-- `strtol` and the names of months, on a string that is known from some place on.
use libmbox.Base.{
  ℕ, zero, suc, ◌+◌, ◌-◌, ◌*◌, ◌^◌, ◌≤◌, ◌<◌, ◌≡◌, refl, ap, ◌∙◌, Bool, true, false, List, [], ◌∷◌,
  ◌++◌, arith, ltb, lt→ltb, ◌==◌, ne→==, Bool-cases, inl, inr, if◌then◌else◌, length, drop,
}
use libmbox.Base.Int.{pos, sub_ℕ, to_int}
use libmbox.Base.Outcome.{ok}
use libmbox.Buf.Memory.{read}
use libmbox.Date.{
  is_digit, is_space, lower, same_case, name_at, skip_blanks, scan_digits, strtol, to_long,
}

-- The head of what is left from a place on is the byte there.
pub read_at : (s : List ℕ) (i c : ℕ) (r : List ℕ) → drop i s ≡ c ∷ r → read s i ≡ ok c
unfolding read
read_at [] zero c r e = cc
read_at [] (suc i) c r e = cc
read_at (x ∷ s) zero c r e = rw (lt→ltb 0 (length (x ∷ s)) (omega arith)) (cc)
read_at (x ∷ s) (suc i) c r e =
    let t : ltb (suc i) (length (x ∷ s)) ≡ ltb i (length s) = ground arith in
    rw t (read_at s i c r e)

pub drop_next : (s : List ℕ) (i c : ℕ) (r : List ℕ) → drop i s ≡ c ∷ r → drop (i + 1) s ≡ r
drop_next [] zero c r e = cc
drop_next [] (suc i) c r e = cc
drop_next (x ∷ s) zero c r e = cc
drop_next (x ∷ s) (suc i) c r e =
    let t : suc i + 1 ≡ suc (i + 1) = omega arith in
    ap (λ k. drop k (x ∷ s)) t ∙ drop_next s i c r e

-- The number that digits stand for, behind a number that has been read, and that they are digits.
abbrev pub number_of : List ℕ → ℕ → ℕ
number_of [] n = n
number_of (c ∷ cs) n = number_of cs (n * 10 + (c - b'0'))

abbrev pub Digits : List ℕ → Type 0
Digits [] = Unit
Digits (c ∷ cs) = (b'0' ≤ c) × (c ≤ b'9') × Digits cs

is_digit_lem : (c : ℕ) → b'0' ≤ c → c ≤ b'9' → is_digit c ≡ true
is_digit_lem c low high = ground arith

scan_digits_lem :
    (fuel : ℕ) (s : List ℕ) (i n : ℕ) (ds : List ℕ) (t : ℕ) (rest : List ℕ)
    → drop i s ≡ ds ++ (t ∷ rest)
    → Digits ds
    → is_digit t ≡ false
    → length ds < fuel
    → scan_digits fuel s i n ≡ ok (number_of ds n, i + length ds)
unfolding scan_digits
scan_digits_lem zero s i n ds t rest here all stop enough = absurd (omega arith)
scan_digits_lem (suc fuel) s i n [] t rest here all stop enough =
    let e : i + 0 ≡ i = omega arith in rw (read_at s i t rest here, stop, e) refl
scan_digits_lem (suc fuel) s i n (c ∷ ds) t rest here (low, high, all) stop enough =
    let e : i + 1 + length ds ≡ i + suc (length ds) = omega arith in
    rw (read_at s i c (ds ++ (t ∷ rest)) here, is_digit_lem c low high)
      (scan_digits_lem fuel s (i + 1) (n * 10 + (c - b'0')) ds t rest
          (drop_next s i c (ds ++ (t ∷ rest)) here) all stop (omega arith)
        ∙ ap (λ k. ok (number_of ds (n * 10 + (c - b'0')), k)) e)

-- Digits and what is none behind them.
pub strtol-Digits :
    (s : List ℕ) (i c : ℕ) (ds : List ℕ) (t : ℕ) (rest : List ℕ)
    → drop i s ≡ c ∷ (ds ++ (t ∷ rest))
    → Digits (c ∷ ds)
    → is_digit t ≡ false
    → length ds < length s
    → number_of (c ∷ ds) 0 < 2 ^ 63
    → strtol s i ≡ ok (pos (number_of (c ∷ ds) 0), i + length (c ∷ ds))
unfolding strtol skip_blanks
strtol-Digits s i c ds t rest here (low, high, all) stop long small =
    let plain : length s + 1 ≡ suc (length s) = omega arith in
    let space : is_space c ≡ false = ground arith in
    let minus : (c == b'-') ≡ false = ne→== c b'-' (λ e. absurd (omega arith)) in
    let plus : (c == b'+') ≡ false = ne→== c b'+' (λ e. absurd (omega arith)) in
    let moved : (i + length (c ∷ ds) == i) ≡ false =
      ne→== (i + length (c ∷ ds)) i (λ e. absurd (omega arith)) in
    rw
      (
        plain,
        read_at s i c (ds ++ (t ∷ rest)) here,
        space,
        read_at s i c (ds ++ (t ∷ rest)) here,
        minus,
        plus,
        scan_digits_lem (suc (length s)) s i 0 (c ∷ ds) t rest here (low, high, all) stop
            (omega arith),
        moved,
        lt→ltb (number_of (c ∷ ds) 0) (2 ^ 63) small,
      )
      refl

-- No number.
pub strtol_none :
    (s : List ℕ) (i c : ℕ) (rest : List ℕ)
    → drop i s ≡ c ∷ rest
    → is_space c ≡ false
    → (c == b'-') ≡ false
    → (c == b'+') ≡ false
    → is_digit c ≡ false
    → strtol s i ≡ ok (pos 0, i)
unfolding strtol skip_blanks
strtol_none s i c rest here space minus plus stop =
    let plain : length s + 1 ≡ suc (length s) = omega arith in
    let same : (i + 0 == i) ≡ true = ground arith in
    rw
      (
        plain,
        read_at s i c rest here,
        space,
        read_at s i c rest here,
        minus,
        plus,
        scan_digits_lem (suc (length s)) s i 0 [] c rest here (omega arith) stop (omega arith),
        same,
      )
      refl

-- A name against the letters that stand there.
abbrev pub same_letters : List ℕ → List ℕ → Bool
same_letters s [] = true
same_letters [] (c ∷ p) = false
same_letters (d ∷ s) (c ∷ p) = if lower d == lower c then same_letters s p else false

pub same_case_lem :
    (s : List ℕ) (i : ℕ) (r p : List ℕ)
    → drop i s ≡ r
    → length p ≤ length r
    → same_case s i p ≡ ok (same_letters r p)
unfolding same_case
same_case_lem s i r [] here long = refl
same_case_lem s i [] (c ∷ p) here long = absurd (omega arith)
same_case_lem s i (d ∷ r) (c ∷ p) here long = elim (Bool-cases (lower d == lower c)) [
  | inl same ↦
      rw (read_at s i d r here, same)
        (same_case_lem s (i + 1) r p (drop_next s i d r here) (omega arith))
  | inr other ↦ rw (read_at s i d r here, other) refl
]

abbrev pub name_of : List ℕ → ℕ → List (List ℕ) → Bool × ℕ
name_of r k [] = (false, k)
name_of r k (name ∷ names) = if same_letters r name then (true, k) else name_of r (k + 1) names

abbrev pub Short : ℕ → List (List ℕ) → Type 0
Short n [] = Unit
Short n (name ∷ names) = (length name ≤ n) × Short n names

pub name_at_lem :
    (s : List ℕ) (i k : ℕ) (r : List ℕ) (names : List (List ℕ))
    → drop i s ≡ r
    → Short (length r) names
    → name_at s i k names ≡ ok (name_of r k names)
unfolding name_at
name_at_lem s i k r [] here long = refl
name_at_lem s i k r (name ∷ names) here (long, all) = elim (Bool-cases (same_letters r name)) [
  | inl same ↦ rw (same_case_lem s i r name here long, same) refl
  | inr other ↦
      rw (same_case_lem s i r name here long, other) (name_at_lem s i (k + 1) r names here all)
]

pub to_int_small : (n : ℕ) → n < 2 ^ 31 → to_int (pos n) ≡ pos n
unfolding to_int
to_int_small n small = ground arith

pub to_int_negative : (n : ℕ) → n < 2 ^ 31 → to_int (sub_ℕ 0 n) ≡ sub_ℕ 0 n
unfolding to_int
to_int_negative zero small = ground arith
to_int_negative (suc n) small = ground arith

-- A sign, digits, and what is none behind them.
abbrev pub sign : Bool → ℕ
sign true = b'-'
sign false = b'+'

pub strtol_signed :
    (s : List ℕ) (i : ℕ) (minus : Bool) (c : ℕ) (ds : List ℕ) (t : ℕ) (rest : List ℕ)
    → drop i s ≡ sign minus ∷ (c ∷ (ds ++ (t ∷ rest)))
    → Digits (c ∷ ds)
    → is_digit t ≡ false
    → length (c ∷ ds) < length s + 1
    → strtol s i ≡ ok (to_long minus (number_of (c ∷ ds) 0), i + 1 + length (c ∷ ds))
unfolding strtol skip_blanks
strtol_signed s i minus c ds t rest here all stop long =
    let plain : length s + 1 ≡ suc (length s) = omega arith in
    let left = c ∷ (ds ++ (t ∷ rest)) in
    let moved : (i + 1 + length (c ∷ ds) == i + 1) ≡ false =
      ne→== (i + 1 + length (c ∷ ds)) (i + 1) (λ e. absurd (omega arith)) in
    let first = read_at s i (sign minus) left here in
    let number =
      scan_digits_lem (suc (length s)) s (i + 1) 0 (c ∷ ds) t rest
        (drop_next s i (sign minus) left here) all stop (omega arith) in
    elim (Bool-cases minus) [
      | inl e ↦ rw (plain, first, e, first, e, number, moved) refl
      | inr e ↦ rw (plain, first, e, first, e, number, moved) refl
    ]
