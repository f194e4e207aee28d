-- ===== src/Buf/Char.antt =====
-- The functions of <ctype.h> that the buffer calls, in the C locale.
use libmbox.Base.{ℕ, ◌+◌, ◌-◌, ◌&&◌, leb, if◌then◌else◌}

unfoldable pub to_lower : ℕ → ℕ
to_lower c = if leb b'A' c && leb c b'Z' then c + 32 else c

unfoldable pub to_upper : ℕ → ℕ
to_upper c = if leb b'a' c && leb c b'z' then c - 32 else c
