-- ===== src/Date/Month.antt =====
-- The dates of headers by `MBOX_DATE_FORMAT`: the format passes a month only where it is February.
use libmbox.Base.{
  ℕ, zero, suc, ◌+◌, ◌/◌, ◌%◌, ◌<◌, ◌≡◌, ◌≢◌, refl, ap, ◌∙◌, Bool, true, false, List, [], ◌∷◌, ◌++◌,
  arith, ◌==◌, ne→==, get_or, if◌then◌else◌,
}
use libmbox.Base.Int.{ℤ, pos, to_int}
use libmbox.Base.Outcome.{ok}
use libmbox.Buf.Memory.{read}
use libmbox.Date.{
  MboxDate, Reading, unset, months, is_space, is_digit, strtol, name_at, number, directive,
  date_loop, date_string_to_struct,
}
use libmbox.Date.Number.{
  Digits, number_of, read_at, strtol-Digits, strtol_none, name_of, name_at_lem, to_int_small,
}

-- MBOX_DATE_FORMAT: "%d %b %Y %H:%M:%S %z".
abbrev pub date_format : List ℕ
date_format =
    b'%' ∷ b'd' ∷ b' ' ∷ b'%' ∷ b'b' ∷ b' ' ∷ b'%' ∷ b'Y' ∷ b' ' ∷ b'%' ∷ b'H' ∷ b':' ∷ b'%' ∷ b'M'
    ∷ b':' ∷ b'%' ∷ b'S' ∷ b' ' ∷ b'%' ∷ b'z' ∷ 0 ∷ []

-- One round of the loop, by what the two strings hold.
module _ (fuel : ℕ) (s format : List ℕ) (j i e : ℕ) (t : MboxDate) (c f : ℕ)
    (before : read s i ≡ ok c) (more : (c == 0) ≡ false) where
  pub plain_round :
      (end : ℕ) (same : Bool)
      → read format j ≡ ok f
      → (f == 0) ≡ false
      → (f == b'%') ≡ false
      → read s e ≡ ok end
      → (end == 0) ≡ false
      → (f == c) ≡ same
      → date_loop (suc fuel) s format j (record { strdate = i; endptr = e; t = t })
        ≡ date_loop fuel s format
            (j + 1)
            (record { strdate = if same then i + 1 else i; endptr = e; t = t })
  unfolding date_loop
  plain_round end same at f0 percent last open_end equal =
      rw (before, more, at, f0, percent, at, last, open_end, before, equal) refl

  pub directive_round :
      (i' e' : ℕ) (t' : MboxDate) (end c' : ℕ) (same : Bool)
      → read format j ≡ ok b'%'
      → read format (j + 1) ≡ ok f
      → directive f s (record { strdate = i; endptr = e; t = t })
        ≡ ok (true, record { strdate = i'; endptr = e'; t = t' })
      → read s e' ≡ ok end
      → (end == 0) ≡ false
      → read s i' ≡ ok c'
      → (f == c') ≡ same
      → date_loop (suc fuel) s format j (record { strdate = i; endptr = e; t = t })
        ≡ date_loop fuel s format
            (j + 1 + 1)
            (record { strdate = if same then i' + 1 else i'; endptr = e'; t = t' })
  unfolding date_loop
  directive_round i' e' t' end c' same at next run last open_end behind equal =
      rw (before, more, at, next, run, last, open_end, behind, equal) refl

  pub last_round :
      (i' e' : ℕ) (t' : MboxDate)
      → read format j ≡ ok b'%'
      → read format (j + 1) ≡ ok f
      → directive f s (record { strdate = i; endptr = e; t = t })
        ≡ ok (true, record { strdate = i'; endptr = e'; t = t' })
      → read s e' ≡ ok 0
      → date_loop (suc fuel) s format j (record { strdate = i; endptr = e; t = t }) ≡ ok (true, t')
  unfolding date_loop
  last_round i' e' t' at next run last = rw (before, more, at, next, run, last) refl

  failed_round :
      (i' e' : ℕ) (t' : MboxDate)
      → read format j ≡ ok b'%'
      → read format (j + 1) ≡ ok f
      → directive f s (record { strdate = i; endptr = e; t = t })
        ≡ ok (false, record { strdate = i'; endptr = e'; t = t' })
      → date_loop (suc fuel) s format j (record { strdate = i; endptr = e; t = t }) ≡ ok (false, t')
  unfolding date_loop
  failed_round i' e' t' at next run = rw (before, more, at, next, run) refl

-- A number in a field.
pub number_lem :
    (s : List ℕ) (r : Reading) (store_in : ℤ → MboxDate → MboxDate) (next : ℕ → ℕ) (n : ℤ) (e : ℕ)
    (same : Bool)
    → strtol s r.strdate ≡ ok (n, e)
    → (r.strdate == e) ≡ same
    → to_int n ≡ n
    → number s r store_in next
      ≡ ok (
          if same
          then (false, record r { endptr = e; t = store_in n r.t })
          else (true, record { strdate = next e; endptr = e; t = store_in n r.t }))
unfolding number
number_lem s r store_in next n e same run equal small = rw (run, equal, small) refl

-- The rounds up to the year, over what the string holds.
stopped :
    (s : List ℕ) (c a z d i : ℕ)
    → read s 0 ≡ ok c
    → (c == 0) ≡ false
    → read s 2 ≡ ok b' '
    → read s 3 ≡ ok a
    → (a == 0) ≡ false
    → read s 5 ≡ ok z
    → (z == 0) ≡ false
    → (b'b' == z) ≡ false
    → (b' ' == z) ≡ false
    → strtol s 0 ≡ ok (pos d, 2)
    → to_int (pos d) ≡ pos d
    → name_at s 3 0 months ≡ ok (true, i)
    → strtol s 5 ≡ ok (pos 0, 5)
    → to_int (pos 0) ≡ pos 0
    → date_string_to_struct s date_format
      ≡ ok (false, record unset { tm_mday = pos d; tm_mon = pos i; tm_year = pos 0 })
unfolding date_string_to_struct directive read
stopped s c a z d i h0 c0 h2 h3 a0 h5 z0 zb zs day to_day name year to_year =
    let t₁ : MboxDate = record unset { tm_mday = pos d } in
    let t₂ : MboxDate = record t₁ { tm_mon = pos i } in
    directive_round 21 s date_format 0 0 0 unset c b'd' h0 c0 2 2 t₁ b' ' b' ' false refl refl
      (number_lem s (record { strdate = 0; endptr = 0; t = unset })
        (λ n t. record t { tm_mday = n }) (λ e. 2) (pos d) 2 false day refl to_day)
      h2 refl h2 refl
    ∙ plain_round 20 s date_format 2 2 2 t₁ b' ' b' ' h2 refl b' ' true refl refl refl h2 refl refl
    ∙ directive_round 19 s date_format 3 3 2 t₁ a b'b' h3 a0 5 2 t₂ b' ' z false refl refl
        (rw name refl) h2 refl h5 zb
    ∙ plain_round 18 s date_format 5 5 2 t₂ z b' ' h5 z0 b' ' false refl refl refl h2 refl zs
    ∙ failed_round 17 s date_format 6 5 2 t₂ z b'Y' h5 z0 5 5 (record t₂ { tm_year = pos 0 }) refl
        refl
        (number_lem s (record { strdate = 5; endptr = 2; t = t₂ }) (λ n t. record t { tm_year = n })
          (λ e. e + 1) (pos 0) 5 true year refl to_year)

abbrev pub two_digits : ℕ → List ℕ
two_digits n = (48 + n / 10) ∷ (48 + n % 10) ∷ []

abbrev pub four_digits : ℕ → List ℕ
four_digits n = (48 + n / 1000) ∷ (48 + n / 100 % 10) ∷ (48 + n / 10 % 10) ∷ (48 + n % 10) ∷ []

abbrev pub month_name : ℕ → List ℕ
month_name i = get_or months i []

pub two_lem : (n : ℕ) → n < 100 → Digits (two_digits n) × (number_of (two_digits n) 0 ≡ n)
two_lem n small = (omega arith, omega arith)

pub four_lem : (n : ℕ) → n < 10000 → Digits (four_digits n) × (number_of (four_digits n) 0 ≡ n)
four_lem n small = (omega arith, omega arith)

-- The letters of a month, and what the loop makes of them.
named :
    (day a b z i : ℕ) (rest : List ℕ)
    → day < 100
    → (a == 0) ≡ false
    → (z == 0) ≡ false
    → (b'b' == z) ≡ false
    → (b' ' == z) ≡ false
    → is_space z ≡ false
    → (z == b'-') ≡ false
    → (z == b'+') ≡ false
    → is_digit z ≡ false
    → name_of (a ∷ b ∷ z ∷ rest) 0 months ≡ (true, i)
    → date_string_to_struct (two_digits day ++ (b' ' ∷ a ∷ b ∷ z ∷ rest)) date_format
      ≡ ok (false, record unset { tm_mday = pos day; tm_mon = pos i; tm_year = pos 0 })
unfolding to_int
named day a b z i rest small a0 z0 zb zs space minus plus digit name =
    let s = two_digits day ++ (b' ' ∷ a ∷ b ∷ z ∷ rest) in
    let (ds, number) = two_lem day small in
    stopped s (48 + day / 10) a z day i (read_at s 0 (48 + day / 10) _ refl)
      (ne→== (48 + day / 10) 0 (λ e. absurd (omega arith))) (read_at s 2 b' ' _ refl)
      (read_at s 3 a _ refl) a0 (read_at s 5 z _ refl) z0 zb zs
      (strtol-Digits s 0 (48 + day / 10) ((48 + day % 10) ∷ []) b' ' (a ∷ b ∷ z ∷ rest) refl ds refl
          (omega arith) (omega arith)
        ∙ ap (λ n. ok (pos n, 2)) number)
      (to_int_small day (omega arith))
      (name_at_lem s 3 0 (a ∷ b ∷ z ∷ rest) months refl (omega arith) ∙ ap (λ p. ok p) name)
      (strtol_none s 5 z rest refl space minus plus digit) refl

-- A date that starts with a day below 100, a blank and the name of any month but February is not read by
-- `MBOX_DATE_FORMAT`, whatever follows: `mboxDateStringToStruct` returns 0, has set the day and
-- the month, and 0 for the year, and leaves the hour at -1, by which the caller tells that there is no date.
pub date_string_to_struct_refused :
    (day i : ℕ) (rest : List ℕ)
    → day < 100
    → i < 12
    → i ≢ 1
    → date_string_to_struct (two_digits day ++ (b' ' ∷ (month_name i ++ rest))) date_format
      ≡ ok (false, record unset { tm_mday = pos day; tm_mon = pos i; tm_year = pos 0 })
date_string_to_struct_refused day zero rest small lt other =
    named day b'J' b'a' b'n' 0 rest small refl refl refl refl refl refl refl refl refl
date_string_to_struct_refused day (suc zero) rest small lt other = absurd (omega arith)
date_string_to_struct_refused day (suc (suc zero)) rest small lt other =
    named day b'M' b'a' b'r' 2 rest small refl refl refl refl refl refl refl refl refl
date_string_to_struct_refused day (suc (suc (suc zero))) rest small lt other =
    named day b'A' b'p' b'r' 3 rest small refl refl refl refl refl refl refl refl refl
date_string_to_struct_refused day (suc (suc (suc (suc zero)))) rest small lt other =
    named day b'M' b'a' b'y' 4 rest small refl refl refl refl refl refl refl refl refl
date_string_to_struct_refused day (suc (suc (suc (suc (suc zero))))) rest small lt other =
    named day b'J' b'u' b'n' 5 rest small refl refl refl refl refl refl refl refl refl
date_string_to_struct_refused day (suc (suc (suc (suc (suc (suc zero)))))) rest small lt other =
    named day b'J' b'u' b'l' 6 rest small refl refl refl refl refl refl refl refl refl
date_string_to_struct_refused day (suc (suc (suc (suc (suc (suc (suc zero))))))) rest small lt
      other =
    named day b'A' b'u' b'g' 7 rest small refl refl refl refl refl refl refl refl refl
date_string_to_struct_refused day (suc (suc (suc (suc (suc (suc (suc (suc zero)))))))) rest small lt
      other =
    named day b'S' b'e' b'p' 8 rest small refl refl refl refl refl refl refl refl refl
date_string_to_struct_refused day (suc (suc (suc (suc (suc (suc (suc (suc (suc zero))))))))) rest
      small lt other =
    named day b'O' b'c' b't' 9 rest small refl refl refl refl refl refl refl refl refl
date_string_to_struct_refused day (suc (suc (suc (suc (suc (suc (suc (suc (suc (suc zero))))))))))
      rest small lt other =
    named day b'N' b'o' b'v' 10 rest small refl refl refl refl refl refl refl refl refl
date_string_to_struct_refused day
      (suc (suc (suc (suc (suc (suc (suc (suc (suc (suc (suc zero))))))))))) rest small lt other =
    named day b'D' b'e' b'c' 11 rest small refl refl refl refl refl refl refl refl refl
date_string_to_struct_refused day
      (suc (suc (suc (suc (suc (suc (suc (suc (suc (suc (suc (suc k)))))))))))) rest small lt
      other =
    absurd (omega arith)
