-- ===== src/Parser/Tests.antt =====
-- The scans at small texts, and the theorems about them there.
use libmbox.Base.{
  byte_at, ℕ, zero, suc, ◌<◌, ◌≡◌, ◌≢◌, refl, Bool, true, false, none, some, [], ◌∷◌, arith,
}
use libmbox.Base.Outcome.{ok, out_of_fuel}
use libmbox.Buf.{MboxBuf}
use libmbox.Buf.Memory.{Allocator, read}
use libmbox.Io.{Os, io_ok}
use libmbox.Parser.{MboxParserCtx, seek_start}
use libmbox.Parser.Reader.Endless.{seek_start_endless}
use libmbox.Parser.Scan.{can_parse_headers, headers_loop, line_end}
use libmbox.Parser.Scan.Blank.{can_parse_headers-Scanned}
use libmbox.Parser.Scan.Text.{IsText, Scanned}

-- "a\n\nb".
abbrev letter : MboxBuf
letter = record {
  block = 97 ∷ b'\n' ∷ b'\n' ∷ 98 ∷ 0 ∷ 165 ∷ [];
  offset = 0;
  len = 4;
  capacity = 6;
}

letter_clean : (i : ℕ) → i < 4 → byte_at letter.block i ≢ 0
letter_clean zero lt e = absurd (omega arith)
letter_clean (suc zero) lt e = absurd (omega arith)
letter_clean (suc (suc zero)) lt e = absurd (omega arith)
letter_clean (suc (suc (suc zero))) lt e = absurd (omega arith)
letter_clean (suc (suc (suc (suc i)))) lt e = absurd (omega arith)

letter-IsText : IsText letter.block letter.len
letter-IsText = record { clean = letter_clean; nul = refl; room = omega arith }

can_parse_headers-Scanned_example :
    (found : Bool) × (e : ℕ) × (can_parse_headers letter ≡ ok (found, record letter { offset = e }))
    × Scanned letter.block 4 0 found e
can_parse_headers-Scanned_example = can_parse_headers-Scanned letter letter-IsText (omega arith)

can_parse_headers_run : can_parse_headers letter ≡ ok (true, record letter { offset = 3 })
unfolding can_parse_headers headers_loop line_end read
can_parse_headers_run = refl

abbrev heap : Allocator
heap = record { junk = λ i. 165; grants = λ n. true }

-- A file "ab", and a range of it that starts at its second byte.
abbrev ab_file : ℕ → Os
ab_file i = record {
  pread = λ size offset. some (97 ∷ 98 ∷ []);
  pwrite = λ s offset. none;
  fsync = true;
}

abbrev second_byte : MboxParserCtx
second_byte = record {
  id = 1;
  done = false;
  parsed = 0;
  ioctx = record {
    err = io_ok;
    offset = 1;
    start_offset = 1;
    end_offset = 0;
    file_offset = 1;
    file_size = 2;
    buf = record { block = 0 ∷ 0 ∷ 0 ∷ 0 ∷ []; offset = 0; len = 0; capacity = 4 };
  };
}

seek_start_endless_example : seek_start heap 9 ab_file second_byte ≡ out_of_fuel
seek_start_endless_example =
    seek_start_endless heap (λ n. refl) ab_file 97 (98 ∷ []) (λ i. refl) (omega arith)
      (λ j le same. absurd (omega arith)) 9 second_byte (omega arith) (λ e. absurd (omega arith))
      (record {
        roomy = record {
          valid = record {
            room = omega arith;
            fits = omega arith;
            held = omega arith;
            small = omega arith;
          };
          spare = omega arith;
        };
        short = omega arith;
        small = omega arith;
      })
