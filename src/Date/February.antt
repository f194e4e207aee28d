-- ===== src/Date/February.antt =====
-- The dates of February by `MBOX_DATE_FORMAT`.
use libmbox.Base.{
  ℕ, ◌+◌, ◌/◌, ◌%◌, ◌^◌, ◌<◌, ◌≡◌, ◌⊎◌, refl, ap, ◌∙◌, Bool, true, false, List, [], ◌∷◌, ◌++◌,
  arith, ◌==◌, ne→==, length, drop, leb, ltb,
}
use libmbox.Base.Int.{ℤ, pos, sub_ℕ, to_int}
use libmbox.Base.Outcome.{ok}
use libmbox.Buf.Memory.{read}
use libmbox.Date.{
  MboxDate, unset, months, is_digit, strtol, to_long, name_at, number, directive,
  date_string_to_struct,
}
use libmbox.Date.Month.{
  date_format, two_digits, four_digits, two_lem, four_lem, plain_round, directive_round, last_round,
  number_lem,
}
use libmbox.Date.Number.{
  sign, read_at, strtol-Digits, strtol_signed, name_at_lem, to_int_small, to_int_negative,
}

-- "DD Feb YYYY HH:MM:SS +ZZZZ".
abbrev pub february : (day year hour min sec : ℕ) → Bool → ℕ → List ℕ
february day year hour min sec minus zone =
    two_digits day
    ++ (b' '
        ∷ b'F'
        ∷ b'e'
        ∷ b'b'
        ∷ b' '
        ∷ (four_digits year
            ++ (b' '
                ∷ (two_digits hour
                    ++ (b':'
                        ∷ (two_digits min
                            ++ (b':'
                                ∷ (two_digits sec
                                    ++ (b' ' ∷ sign minus ∷ (four_digits zone ++ (0 ∷ [])))))))))))

-- The rounds of the loop, over what the string holds.
rounds :
    (s : List ℕ) (d y h m x g : ℕ) (day year hour min sec : ℕ) (zone : ℤ)
    → read s 0 ≡ ok d
    → (d == 0) ≡ false
    → read s 2 ≡ ok b' '
    → read s 3 ≡ ok b'F'
    → read s 5 ≡ ok b'b'
    → read s 6 ≡ ok b' '
    → read s 7 ≡ ok y
    → (y == 0) ≡ false
    → read s 11 ≡ ok b' '
    → read s 12 ≡ ok h
    → (h == 0) ≡ false
    → (b'Y' == h) ≡ false
    → (b' ' == h) ≡ false
    → read s 14 ≡ ok b':'
    → read s 15 ≡ ok m
    → (m == 0) ≡ false
    → (b'H' == m) ≡ false
    → (b':' == m) ≡ false
    → read s 17 ≡ ok b':'
    → read s 18 ≡ ok x
    → (x == 0) ≡ false
    → (b'M' == x) ≡ false
    → (b':' == x) ≡ false
    → read s 20 ≡ ok b' '
    → read s 21 ≡ ok g
    → (g == 0) ≡ false
    → (b'S' == g) ≡ false
    → (b' ' == g) ≡ false
    → read s 26 ≡ ok 0
    → name_at s 3 0 months ≡ ok (true, 1)
    → strtol s 0 ≡ ok (pos day, 2)
    → to_int (pos day) ≡ pos day
    → strtol s 7 ≡ ok (pos year, 11)
    → to_int (pos year) ≡ pos year
    → strtol s 12 ≡ ok (pos hour, 14)
    → to_int (pos hour) ≡ pos hour
    → strtol s 15 ≡ ok (pos min, 17)
    → to_int (pos min) ≡ pos min
    → strtol s 18 ≡ ok (pos sec, 20)
    → to_int (pos sec) ≡ pos sec
    → strtol s 21 ≡ ok (zone, 26)
    → to_int zone ≡ zone
    → date_string_to_struct s date_format
      ≡ ok (
        true,
        record unset {
          tm_sec = pos sec;
          tm_min = pos min;
          tm_hour = pos hour;
          tm_mday = pos day;
          tm_mon = pos 1;
          tm_year = pos year;
          tm_zone_diff = zone;
        },
      )
unfolding date_string_to_struct directive read
rounds s d y h m x g day year hour min sec zone h0 d0 h2 h3 h5 h6 h7 y0 h11 h12 hh0 hY hb h14 h15 m0
      mH mc h17 h18 x0 xM xc h20 h21 g0 gS gb h26 name n0 i0 n7 i7 n12 i12 n15 i15 n18 i18 n21 i21 =
    let t₁ : MboxDate = record unset { tm_mday = pos day } in
    let t₂ : MboxDate = record t₁ { tm_mon = pos 1 } in
    let t₃ : MboxDate = record t₂ { tm_year = pos year } in
    let t₄ : MboxDate = record t₃ { tm_hour = pos hour } in
    let t₅ : MboxDate = record t₄ { tm_min = pos min } in
    let t₆ : MboxDate = record t₅ { tm_sec = pos sec } in
    let t₇ : MboxDate = record t₆ { tm_zone_diff = zone } in
    directive_round 21 s date_format 0 0 0 unset d b'd' h0 d0 2 2 t₁ b' ' b' ' false refl refl
      (number_lem s (record { strdate = 0; endptr = 0; t = unset })
        (λ n t. record t { tm_mday = n }) (λ e. 2) (pos day) 2 false n0 refl i0)
      h2 refl h2 refl
    ∙ plain_round 20 s date_format 2 2 2 t₁ b' ' b' ' h2 refl b' ' true refl refl refl h2 refl refl
    ∙ directive_round 19 s date_format 3 3 2 t₁ b'F' b'b' h3 refl 5 2 t₂ b' ' b'b' true refl refl
        (rw name refl) h2 refl h5 refl
    ∙ plain_round 18 s date_format 5 6 2 t₂ b' ' b' ' h6 refl b' ' true refl refl refl h2 refl refl
    ∙ directive_round 17 s date_format 6 7 2 t₂ y b'Y' h7 y0 12 11 t₃ b' ' h false refl refl
        (number_lem s (record { strdate = 7; endptr = 2; t = t₂ }) (λ n t. record t { tm_year = n })
          (λ e. e + 1) (pos year) 11 false n7 refl i7)
        h11 refl h12 hY
    ∙ plain_round 16 s date_format 8 12 11 t₃ h b' ' h12 hh0 b' ' false refl refl refl h11 refl hb
    ∙ directive_round 15 s date_format 9 12 11 t₃ h b'H' h12 hh0 15 14 t₄ b':' m false refl refl
        (number_lem s (record { strdate = 12; endptr = 11; t = t₃ })
          (λ n t. record t { tm_hour = n }) (λ e. e + 1) (pos hour) 14 false n12 refl i12)
        h14 refl h15 mH
    ∙ plain_round 14 s date_format 11 15 14 t₄ m b':' h15 m0 b':' false refl refl refl h14 refl mc
    ∙ directive_round 13 s date_format 12 15 14 t₄ m b'M' h15 m0 18 17 t₅ b':' x false refl refl
        (number_lem s (record { strdate = 15; endptr = 14; t = t₄ })
          (λ n t. record t { tm_min = n }) (λ e. e + 1) (pos min) 17 false n15 refl i15)
        h17 refl h18 xM
    ∙ plain_round 12 s date_format 14 18 17 t₅ x b':' h18 x0 b':' false refl refl refl h17 refl xc
    ∙ directive_round 11 s date_format 15 18 17 t₅ x b'S' h18 x0 21 20 t₆ b' ' g false refl refl
        (number_lem s (record { strdate = 18; endptr = 17; t = t₅ })
          (λ n t. record t { tm_sec = n }) (λ e. e + 1) (pos sec) 20 false n18 refl i18)
        h20 refl h21 gS
    ∙ plain_round 10 s date_format 17 21 20 t₆ g b' ' h21 g0 b' ' false refl refl refl h20 refl gb
    ∙ last_round 9 s date_format 18 21 20 t₆ g b'z' h21 g0 27 26 t₇ refl refl
        (number_lem s (record { strdate = 21; endptr = 20; t = t₆ })
          (λ n t. record t { tm_zone_diff = n }) (λ e. e + 1) zone 26 false n21 refl i21)
        h26

abbrev pub zone_of : Bool → ℕ → ℤ
zone_of true n = sub_ℕ 0 n
zone_of false n = pos n

zone_small :
    (minus : Bool) (zone : ℕ)
    → zone < 10000
    → (to_long minus zone ≡ zone_of minus zone) × (to_int (zone_of minus zone) ≡ zone_of minus zone)
zone_small true zone small =
    let fits : leb zone (2 ^ 63) ≡ true = ground arith in
    (rw fits refl, to_int_negative zone (omega arith))
zone_small false zone small =
    let fits : ltb zone (2 ^ 63) ≡ true = ground arith in
    (rw fits refl, to_int_small zone (omega arith))

-- The first digit of a number, against a byte that is no digit.
apart : (k f : ℕ) → k < 10 → (f < 48) ⊎ (57 < f) → (48 + k == f) ≡ false
apart k f small other = ne→== (48 + k) f (λ e. absurd (ground arith))

apart_from : (k f : ℕ) → k < 10 → (f < 48) ⊎ (57 < f) → (f == 48 + k) ≡ false
apart_from k f small other = ne→== f (48 + k) (λ e. absurd (ground arith))

sign_apart :
    (minus : Bool)
    → ((sign minus == 0) ≡ false) × ((b'S' == sign minus) ≡ false) × ((b' ' == sign minus) ≡ false)
sign_apart true = (refl, refl, refl)
sign_apart false = (refl, refl, refl)

-- A field of two digits at place `i` of the string.
two_at :
    (s : List ℕ) (i n t : ℕ) (rest : List ℕ)
    → drop i s ≡ two_digits n ++ (t ∷ rest)
    → n < 100
    → is_digit t ≡ false
    → 1 < length s
    → (read s i ≡ ok (48 + n / 10)) × (strtol s i ≡ ok (pos n, i + 2)) × (to_int (pos n) ≡ pos n)
two_at s i n t rest here small stop long =
    let (ds, number) = two_lem n small in
    (
      read_at s i (48 + n / 10) _ here,
      strtol-Digits s i (48 + n / 10) ((48 + n % 10) ∷ []) t rest here ds stop long (omega arith)
          ∙ ap (λ k. ok (pos k, i + 2)) number,
      to_int_small n (omega arith),
    )

-- A date "DD Feb YYYY HH:MM:SS +ZZZZ" with a NUL behind it, with any numbers of two and of four digits
-- and a sign, is read by `MBOX_DATE_FORMAT`: `mboxDateStringToStruct` returns 1 and has set just
-- these fields, the month to 1.
pub date_string_to_struct-february :
    (day year hour min sec : ℕ) (minus : Bool) (zone : ℕ)
    → day < 100
    → year < 10000
    → hour < 100
    → min < 100
    → sec < 100
    → zone < 10000
    → date_string_to_struct (february day year hour min sec minus zone) date_format
      ≡ ok (
        true,
        record unset {
          tm_sec = pos sec;
          tm_min = pos min;
          tm_hour = pos hour;
          tm_mday = pos day;
          tm_mon = pos 1;
          tm_year = pos year;
          tm_zone_diff = zone_of minus zone;
        },
      )
date_string_to_struct-february day year hour min sec minus zone lt_day lt_year lt_hour lt_min lt_sec
      lt_zone =
    let s = february day year hour min sec minus zone in
    let (y_digits, y_number) = four_lem year lt_year in
    let (z_digits, z_number) = four_lem zone lt_zone in
    let (d0, d_run, d_int) = two_at s 0 day b' ' _ refl lt_day refl (omega arith) in
    let (h0, h_run, h_int) = two_at s 12 hour b':' _ refl lt_hour refl (omega arith) in
    let (m0, m_run, m_int) = two_at s 15 min b':' _ refl lt_min refl (omega arith) in
    let (x0, x_run, x_int) = two_at s 18 sec b' ' _ refl lt_sec refl (omega arith) in
    let (long, int) = zone_small minus zone lt_zone in
    let (g0, gS, gb) = sign_apart minus in
    rounds s (48 + day / 10) (48 + year / 1000) (48 + hour / 10) (48 + min / 10) (48 + sec / 10)
      (sign minus) day year hour min sec (zone_of minus zone) d0
      (apart (day / 10) 0 (omega arith) (omega arith)) (read_at s 2 b' ' _ refl)
      (read_at s 3 b'F' _ refl) (read_at s 5 b'b' _ refl) (read_at s 6 b' ' _ refl)
      (read_at s 7 (48 + year / 1000) _ refl) (apart (year / 1000) 0 (omega arith) (omega arith))
      (read_at s 11 b' ' _ refl) h0 (apart (hour / 10) 0 (omega arith) (omega arith))
      (apart_from (hour / 10) b'Y' (omega arith) (omega arith))
      (apart_from (hour / 10) b' ' (omega arith) (omega arith)) (read_at s 14 b':' _ refl) m0
      (apart (min / 10) 0 (omega arith) (omega arith))
      (apart_from (min / 10) b'H' (omega arith) (omega arith))
      (apart_from (min / 10) b':' (omega arith) (omega arith)) (read_at s 17 b':' _ refl) x0
      (apart (sec / 10) 0 (omega arith) (omega arith))
      (apart_from (sec / 10) b'M' (omega arith) (omega arith))
      (apart_from (sec / 10) b':' (omega arith) (omega arith)) (read_at s 20 b' ' _ refl)
      (read_at s 21 (sign minus) _ refl) g0 gS gb (read_at s 26 0 _ refl)
      (name_at_lem s 3 0 _ months refl (omega arith)) d_run d_int
      (strtol-Digits s 7 (48 + year / 1000)
          ((48 + year / 100 % 10) ∷ (48 + year / 10 % 10) ∷ (48 + year % 10) ∷ []) b' ' _ refl
          y_digits refl (omega arith) (omega arith)
        ∙ ap (λ n. ok (pos n, 11)) y_number)
      (to_int_small year (omega arith)) h_run h_int m_run m_int x_run x_int
      (strtol_signed s 21 minus (48 + zone / 1000)
          ((48 + zone / 100 % 10) ∷ (48 + zone / 10 % 10) ∷ (48 + zone % 10) ∷ []) 0 [] refl
          z_digits refl (omega arith)
        ∙ ap (λ n. ok (to_long minus n, 26)) z_number
        ∙ ap (λ z. ok (z, 26)) long)
      int
