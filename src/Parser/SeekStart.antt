-- ===== src/Parser/SeekStart.antt =====
-- What the search of `mboxParserCtxSeekStart` for the start of a range looks for.
use libmbox.Base.{ℕ, zero, suc, ◌+◌, ◌≤◌, ◌<◌, ◌≡◌, ◌≢◌, List, ◌∷◌, arith, length, get_or}
use libmbox.Parser.Scan.{from_line}

-- A line break and "From ".
abbrev pub from_mark : List ℕ
from_mark = b'\n' ∷ from_line

-- "From " stands nowhere in the bytes behind a line break.
abbrev pub NoFrom : List ℕ → Type 0
NoFrom d =
    (j : ℕ) → j + 6 ≤ length d → ((k : ℕ) → k < 6 → get_or d (j + k) 0 ≡ get_or from_mark k 0) → ⊥

pub mark_byte : (k : ℕ) → k < 6 → get_or from_mark k 0 ≢ 0
mark_byte zero lt e = absurd (omega arith)
mark_byte (suc zero) lt e = absurd (omega arith)
mark_byte (suc (suc zero)) lt e = absurd (omega arith)
mark_byte (suc (suc (suc zero))) lt e = absurd (omega arith)
mark_byte (suc (suc (suc (suc zero)))) lt e = absurd (omega arith)
mark_byte (suc (suc (suc (suc (suc zero))))) lt e = absurd (omega arith)
mark_byte (suc (suc (suc (suc (suc (suc k)))))) lt e = absurd (omega arith)
