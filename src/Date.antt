-- ===== src/Date.antt =====
-- src/mbox-date.c: the dates of headers. `strtol`, `strncasecmp` and `abs` of the C library are written
-- out, for base 10 and the C locale; `mktime` is a parameter.
pub mod Number
pub mod Month
pub mod February
mod Tests
use libmbox.Base.{
  ℕ, zero, suc, ◌+◌, ◌-◌, ◌*◌, ◌/◌, ◌%◌, ◌^◌, Bool, true, false, not, ◌||◌, ◌&&◌, List, [], ◌∷◌,
  ltb, leb, ◌==◌, if◌then◌else◌, length,
}
use libmbox.Base.Int.{
  ℤ, pos, negsuc, pos_part, neg_part, sub_ℕ, ◌+ℤ◌, ◌-ℤ◌, ltb_ℤ, is_minus_one, to_int,
}
use libmbox.Base.Outcome.{Outcome, ok, fault, out_of_fuel, ◌>>=◌}
use libmbox.Buf.Memory.{read}

-- `struct mboxDate`
pub record MboxDate : Type 0 where
  pub tm_sec : ℤ
  pub tm_min : ℤ
  pub tm_hour : ℤ
  pub tm_mday : ℤ
  pub tm_mon : ℤ
  pub tm_year : ℤ
  pub tm_wday : ℤ
  pub tm_yday : ℤ
  pub tm_isdst : ℤ
  pub tm_zone_diff : ℤ

-- `memset(t, -1, sizeof(struct mboxDate))`
abbrev pub unset : MboxDate
unset = record {
  tm_sec = negsuc 0;
  tm_min = negsuc 0;
  tm_hour = negsuc 0;
  tm_mday = negsuc 0;
  tm_mon = negsuc 0;
  tm_year = negsuc 0;
  tm_wday = negsuc 0;
  tm_yday = negsuc 0;
  tm_isdst = negsuc 0;
  tm_zone_diff = negsuc 0;
}

abbrev pub days : List (List ℕ)
days =
    (b'S' ∷ b'u' ∷ b'n' ∷ [])
    ∷ (b'M' ∷ b'o' ∷ b'n' ∷ [])
    ∷ (b'T' ∷ b'u' ∷ b'e' ∷ [])
    ∷ (b'W' ∷ b'e' ∷ b'd' ∷ [])
    ∷ (b'T' ∷ b'h' ∷ b'u' ∷ [])
    ∷ (b'F' ∷ b'r' ∷ b'i' ∷ [])
    ∷ (b'S' ∷ b'a' ∷ b't' ∷ [])
    ∷ []

abbrev pub months : List (List ℕ)
months =
    (b'J' ∷ b'a' ∷ b'n' ∷ [])
    ∷ (b'F' ∷ b'e' ∷ b'b' ∷ [])
    ∷ (b'M' ∷ b'a' ∷ b'r' ∷ [])
    ∷ (b'A' ∷ b'p' ∷ b'r' ∷ [])
    ∷ (b'M' ∷ b'a' ∷ b'y' ∷ [])
    ∷ (b'J' ∷ b'u' ∷ b'n' ∷ [])
    ∷ (b'J' ∷ b'u' ∷ b'l' ∷ [])
    ∷ (b'A' ∷ b'u' ∷ b'g' ∷ [])
    ∷ (b'S' ∷ b'e' ∷ b'p' ∷ [])
    ∷ (b'O' ∷ b'c' ∷ b't' ∷ [])
    ∷ (b'N' ∷ b'o' ∷ b'v' ∷ [])
    ∷ (b'D' ∷ b'e' ∷ b'c' ∷ [])
    ∷ []

-- The C library: `isspace`, `isdigit`, `tolower`.
abbrev pub is_space : ℕ → Bool
is_space c = (c == b' ') || (leb 9 c && leb c 13)

abbrev pub is_digit : ℕ → Bool
is_digit c = leb b'0' c && leb c b'9'

abbrev pub lower : ℕ → ℕ
lower c = if leb b'A' c && leb c b'Z' then c + 32 else c

-- `strncasecmp(s + i, p, n) == 0` for a `p` of `n` bytes, none a NUL.
unfoldable pub same_case : List ℕ → ℕ → List ℕ → Outcome Bool
same_case s i [] = ok true
same_case s i (c ∷ p) = do
  d ← read s i
  let more = same_case s (i + 1) p
  if lower d == lower c then more else ok false

unfoldable pub skip_blanks : ℕ → List ℕ → ℕ → Outcome ℕ
skip_blanks zero s i = out_of_fuel
skip_blanks (suc fuel) s i = do
  c ← read s i
  let more = skip_blanks fuel s (i + 1)
  if is_space c then more else ok i

-- The number of the digits from `i` on, and where they end.
unfoldable pub scan_digits : ℕ → List ℕ → (i n : ℕ) → Outcome (ℕ × ℕ)
scan_digits zero s i n = out_of_fuel
scan_digits (suc fuel) s i n = do
  c ← read s i
  let more = scan_digits fuel s (i + 1) (n * 10 + (c - b'0'))
  if is_digit c then more else ok (n, i)

-- `strtol` stops at LONG_MIN and LONG_MAX.
abbrev pub to_long : Bool → ℕ → ℤ
to_long true n = sub_ℕ 0 (if leb n (2 ^ 63) then n else 2 ^ 63)
to_long false n = pos (if ltb n (2 ^ 63) then n else 2 ^ 63 - 1)

-- `strtol(s + i, &endptr, 10)`: the number, and `endptr`, which is `i` where there is no number.
unfoldable pub strtol : List ℕ → ℕ → Outcome (ℤ × ℕ)
unfolding skip_blanks scan_digits
strtol s i = do
  j ← skip_blanks (length s + 1) s i
  c ← read s j
  let first = if (c == b'-') || (c == b'+') then j + 1 else j
  (n, last) ← scan_digits (length s + 1) s first 0
  ok (if last == first then (pos 0, i) else (to_long (c == b'-') n, last))

-- The two pointers into the string, and the date.
pub record Reading : Type 0 where
  pub strdate : ℕ
  pub endptr : ℕ
  pub t : MboxDate

-- The first name from the `k`-th on that stands at `i`.
unfoldable pub name_at : List ℕ → ℕ → ℕ → List (List ℕ) → Outcome (Bool × ℕ)
unfolding same_case
name_at s i k [] = ok (false, k)
name_at s i k (name ∷ names) = do
  here ← same_case s i name
  let more = name_at s i (k + 1) names
  if here then ok (true, k) else more

-- A case of the switch that reads a number into a field, and goes on by `next endptr`; false is `return 0`.
unfoldable pub number :
    List ℕ → Reading → (ℤ → MboxDate → MboxDate) → (ℕ → ℕ) → Outcome (Bool × Reading)
number s r store_in next = do
  (n, endptr) ← strtol s r.strdate
  let t = store_in (to_int n) r.t
  ok (
      if r.strdate == endptr
      then (false, record r { endptr = endptr; t = t })
      else (true, record { strdate = next endptr; endptr = endptr; t = t }))

-- A sum of two `int`; C leaves an overflow undefined.
abbrev pub in_int : ℤ → Outcome ℤ
in_int z = if ltb (pos_part z) (2 ^ 31) && leb (neg_part z) (2 ^ 31) then ok z else fault

-- The hour behind "AM" or "PM".
unfoldable pub half_day : List ℕ → Reading → Outcome MboxDate
unfolding same_case
half_day s r = do
  am ← same_case s r.strdate (b'A' ∷ b'M' ∷ [])
  let later = (do
    pm ← same_case s r.strdate (b'P' ∷ b'M' ∷ [])
    if pm
        then (do hour ← in_int (r.t.tm_hour +ℤ pos 12); ok (record r.t { tm_hour = hour }))
        else ok r.t)
  if am
      then ok (
          if ltb_ℤ r.t.tm_hour (pos 12)
          then r.t
          else record r.t { tm_hour = r.t.tm_hour -ℤ pos 12 })
      else later

-- The switch over the byte behind a '%'.
unfoldable pub directive : ℕ → List ℕ → Reading → Outcome (Bool × Reading)
directive f s r =
    if f == b'a'
    then (do
      (found, i) ← name_at s r.strdate 0 days
      ok (
          if found
          then (true, record r { strdate = r.strdate + 3; t = record r.t { tm_wday = pos i } })
          else (not (is_minus_one r.t.tm_wday), r)))
    else if f == b'b'
    then (do
      (found, i) ← name_at s r.strdate 0 months
      ok (
          if found
          then (true, record r { strdate = r.strdate + 2; t = record r.t { tm_mon = pos i } })
          else (not (is_minus_one r.t.tm_mon), r)))
    else if f == b'd'
    then number s r (λ n t. record t { tm_mday = n }) (λ e. r.strdate + 2)
    else if f == b'm'
    then number s r (λ n t. record t { tm_mon = n }) (λ e. e + 1)
    else if f == b'Y'
    then number s r (λ n t. record t { tm_year = n }) (λ e. e + 1)
    else if f == b'H'
    then number s r (λ n t. record t { tm_hour = n }) (λ e. e + 1)
    else if f == b'M'
    then number s r (λ n t. record t { tm_min = n }) (λ e. e + 1)
    else if f == b'p'
    then (do
      t ← half_day s r
      number s (record r { t = t }) (λ n t. record t { tm_mon = n }) (λ e. r.strdate + 1))
    else if f == b'S'
    then number s r (λ n t. record t { tm_sec = n }) (λ e. e + 1)
    else if f == b'z'
    then number s r (λ n t. record t { tm_zone_diff = n }) (λ e. e + 1)
    else ok (true, r)

-- The while loop of `mboxDateStringToStruct` at byte `j` of the format: what it returns, and the date.
unfoldable pub date_loop : ℕ → (s format : List ℕ) → ℕ → Reading → Outcome (Bool × MboxDate)
date_loop zero s format j r = out_of_fuel
date_loop (suc fuel) s format j r = do
  c ← read s r.strdate
  let body = (do
    f ← read format j
    let turn = (do
      let j' = if f == b'%' then j + 1 else j
      f' ← read format j'
      (good, r') ← if f == b'%' then directive f' s r else ok (true, r)
      let on = (do
        e ← read s r'.endptr
        let step = (do
          c' ← read s r'.strdate
          date_loop fuel s format (j' + 1)
              (record r' { strdate = if f' == c' then r'.strdate + 1 else r'.strdate }))
        if e == 0 then ok (true, r'.t) else step)
      if good then on else ok (false, r'.t))
    if f == 0 then ok (true, r.t) else turn)
  if c == 0 then ok (true, r.t) else body

-- Both strings end with a NUL. Each round goes on in the format, so its length is fuel enough.
unfoldable pub date_string_to_struct : (s format : List ℕ) → Outcome (Bool × MboxDate)
date_string_to_struct s format =
    date_loop (length format + 1) s format 0 (record { strdate = 0; endptr = 0; t = unset })

-- `struct tm` as `mboxDateStructToUnix` fills it; the other fields are 0.
pub record Tm : Type 0 where
  pub tm_year : ℤ
  pub tm_mon : ℤ
  pub tm_mday : ℤ
  pub tm_hour : ℤ
  pub tm_min : ℤ
  pub tm_sec : ℤ

abbrev pub abs : ℤ → ℕ
abs z = pos_part z + neg_part z

-- `hour_diff * 3600 + min_diff * 60`; C leaves undefined `abs` of the least `int`, and the overflow of the first product.
unfoldable pub zone_seconds : ℤ → Outcome ℕ
zone_seconds zone =
    if ltb (abs zone / 100 * 3600) (2 ^ 31)
    then ok (abs zone / 100 * 3600 + abs zone % 100 * 60)
    else fault

-- `mboxDateStructToUnix`; `mktime` gives the seconds.
unfoldable pub date_struct_to_unix : (Tm → ℤ) → MboxDate → Outcome ℤ
date_struct_to_unix mktime d = do
  year ← in_int (d.tm_year -ℤ pos 1900)
  let timestamp = mktime (record {
    tm_year = year;
    tm_mon = d.tm_mon;
    tm_mday = d.tm_mday;
    tm_hour = d.tm_hour;
    tm_min = d.tm_min;
    tm_sec = d.tm_sec;
  })
  let zone = (do
    seconds ← zone_seconds d.tm_zone_diff
    ok (
        if ltb_ℤ d.tm_zone_diff (negsuc 0)
        then timestamp +ℤ pos seconds
        else timestamp -ℤ pos seconds))
  if (abs d.tm_zone_diff == 0) || is_minus_one d.tm_zone_diff then ok timestamp else zone
