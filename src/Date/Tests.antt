-- ===== src/Date/Tests.antt =====
-- A date of February and one of November.
use libmbox.Base.{ℕ, ◌≡◌, true, false, List, [], ◌∷◌, ◌++◌, arith}
use libmbox.Base.Int.{pos}
use libmbox.Base.Outcome.{ok}
use libmbox.Date.{unset, date_string_to_struct}
use libmbox.Date.February.{february, zone_of, date_string_to_struct-february}
use libmbox.Date.Month.{date_format, two_digits, month_name, date_string_to_struct_refused}

-- " 2023" and the end of the text.
abbrev in_2023 : List ℕ
in_2023 = b' ' ∷ b'2' ∷ b'0' ∷ b'2' ∷ b'3' ∷ 0 ∷ []

date_string_to_struct-february_example :
    date_string_to_struct (february 27 2023 14 37 33 true 800) date_format
    ≡ ok (
      true,
      record unset {
        tm_sec = pos 33;
        tm_min = pos 37;
        tm_hour = pos 14;
        tm_mday = pos 27;
        tm_mon = pos 1;
        tm_year = pos 2023;
        tm_zone_diff = zone_of true 800;
      },
    )
date_string_to_struct-february_example =
    date_string_to_struct-february 27 2023 14 37 33 true 800 (omega arith) (omega arith)
      (omega arith) (omega arith) (omega arith) (omega arith)

date_string_to_struct_refused_example :
    date_string_to_struct (two_digits 15 ++ (b' ' ∷ (month_name 10 ++ in_2023))) date_format
    ≡ ok (false, record unset { tm_mday = pos 15; tm_mon = pos 10; tm_year = pos 0 })
date_string_to_struct_refused_example =
    date_string_to_struct_refused 15 10 in_2023 (omega arith) (omega arith) (omega arith)
