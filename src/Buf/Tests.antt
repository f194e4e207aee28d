-- ===== src/Buf/Tests.antt =====
-- The buffer at small texts, and the theorems about it there.
use libmbox.Base.{
  ℕ, zero, suc, ◌≤◌, ◌<◌, get_or, ◌≡◌, refl, true, List, [], ◌∷◌, Option, arith, length, take,
}
use libmbox.Base.Int.{pos, negsuc, to_int}
use libmbox.Base.Outcome.{ok, fault}
use libmbox.Buf.{MboxBuf, extend_buffer_if_needed, un_put_char, cat_len}
use libmbox.Buf.Append.{Gives, IsTerminated, cat_len-text, cat_len-overrun, un_put_char-text}
use libmbox.Buf.Char.{to_lower}
use libmbox.Buf.Escape.{escape_string, escaped, escape_string-text}
use libmbox.Buf.Mime.{decode_mime_encoded_inplace, decoded, decode_mime_encoded_inplace-decoded}
use libmbox.Buf.Split.{split, split_faults}
use libmbox.Buf.Kmp.{contains_pattern, contains_case_pattern, compute_prefix_table}
use libmbox.Buf.Kmp.{
  contains_case_pattern_with_table, contains_pattern_with_table, fall_back, match_loop, int_inc,
  table_loop,
}
use libmbox.Buf.Kmp.Border.{IsTable}
use libmbox.Buf.Kmp.Matcher.{IsFirst, place_int, text_end, contains_pattern-IsFirst}
use libmbox.Buf.Kmp.Table.{at, compute_prefix_table-IsTable}
use libmbox.Buf.Memory.{Allocator, copy, fresh, malloc, read, store}
use libmbox.Buf.Valid.{text, Grants, IsValid, IsRoomy}

abbrev heap : Allocator
heap = record { junk = λ i. 165; grants = λ n. true }

heap-Grants : Grants heap
heap-Grants n = refl

-- "ab" in a block of four bytes.
abbrev ab : MboxBuf
ab = record { block = 97 ∷ 98 ∷ 0 ∷ 165 ∷ []; offset = 1; len = 2; capacity = 4 }

ab-IsValid : IsValid ab
ab-IsValid = record {
  room = omega arith;
  fits = omega arith;
  held = omega arith;
  small = omega arith;
}

ab-IsRoomy : IsRoomy ab
ab-IsRoomy = record { valid = ab-IsValid; spare = omega arith }

escape_string-text_example :
    Gives (escape_string heap ab) λ b'. (text b' ≡ escaped (97 ∷ 98 ∷ [])) × IsRoomy b'
escape_string-text_example =
    escape_string-text heap heap-Grants ab (97 ∷ 98 ∷ [])
      (omega arith, refl, omega arith, (omega arith, refl, omega arith, (omega arith, refl)))
      (omega arith)

-- "a\"b\n" escapes to "a\\\"b\\n".
escaped_run : escaped (97 ∷ b'"' ∷ 98 ∷ b'\n' ∷ []) ≡ 97 ∷ b'\\' ∷ b'"' ∷ 98 ∷ b'\\' ∷ b'n' ∷ []
unfolding escaped
escaped_run = refl

-- "=?UTF-8?Q?a=21b?=".
abbrev encoded : MboxBuf
encoded = record {
  block =
      b'=' ∷ b'?' ∷ b'U' ∷ b'T' ∷ b'F' ∷ b'-' ∷ b'8' ∷ b'?' ∷ b'Q' ∷ b'?' ∷ 97 ∷ b'=' ∷ b'2' ∷ b'1'
      ∷ 98 ∷ b'?' ∷ b'=' ∷ 0 ∷ [];
  offset = 0;
  len = 17;
  capacity = 18;
}

encoded-IsValid : IsValid encoded
encoded-IsValid = record {
  room = omega arith;
  fits = omega arith;
  held = omega arith;
  small = omega arith;
}

decode_mime_encoded_inplace-decoded_example :
    Gives
      (decode_mime_encoded_inplace encoded)
      λ b'. (text b' ≡ decoded 0 (97 ∷ b'=' ∷ b'2' ∷ b'1' ∷ 98 ∷ [])) × (b'.len ≤ 5)
decode_mime_encoded_inplace-decoded_example =
    decode_mime_encoded_inplace-decoded encoded encoded-IsValid (omega arith)
      (omega arith, (omega arith, (omega arith, (omega arith, (omega arith, tt)))))

-- "=21" stands for "!".
decoded_run : decoded 0 (97 ∷ b'=' ∷ b'2' ∷ b'1' ∷ 98 ∷ []) ≡ 97 ∷ b'!' ∷ 98 ∷ []
unfolding decoded
decoded_run = refl

-- "A".
abbrev upper_a : MboxBuf
upper_a = record { block = 65 ∷ 0 ∷ []; offset = 0; len = 1; capacity = 1 }

same_letter : (x : ℕ) → x < 1 → to_lower (get_or upper_a.block x 0) ≡ to_lower (get_or ab.block x 0)
unfolding to_lower
same_letter zero lt = refl
same_letter (suc x) lt = absurd (omega arith)

split_faults_example : split heap ab.block 98 ≡ fault
split_faults_example =
    split_faults heap ab.block 98 97 (98 ∷ []) (omega arith)
      (omega arith, refl, omega arith, (omega arith, refl, omega arith, (omega arith, refl)))

-- "a" with a capacity of one, in a block of two bytes.
abbrev full : MboxBuf
full = record { block = 97 ∷ 0 ∷ []; offset = 0; len = 1; capacity = 1 }

full-IsValid : IsValid full
full-IsValid = record {
  room = omega arith;
  fits = omega arith;
  held = omega arith;
  small = omega arith;
}

abbrev long : List ℕ
unfolding fresh malloc
long = malloc heap 256

cat_len-text_example :
    Gives
      (cat_len heap ab (99 ∷ 100 ∷ []))
      λ b'. (text b' ≡ 97 ∷ 98 ∷ 99 ∷ 100 ∷ []) × (b'.offset ≡ 1) × IsRoomy b' × IsTerminated b'
cat_len-text_example =
    cat_len-text heap ab (99 ∷ 100 ∷ []) heap-Grants ab-IsRoomy (omega arith) (omega arith)

cat_len-overrun_example :
    (b' : MboxBuf) × (block : List ℕ) × ((extend_buffer_if_needed heap full 256).1 ≡ b')
    × (length b'.block ≡ 257)
    × (b'.capacity ≡ 257)
    × (b'.len ≡ 1)
    × (text b' ≡ 97 ∷ [])
    × (copy b'.block 1 long ≡ ok block)
    × (take 257 block ≡ 97 ∷ long)
    × (length block ≡ 257)
    × (store block 257 0 ≡ fault)
    × (cat_len heap full long ≡ fault)
unfolding fresh malloc
cat_len-overrun_example =
    cat_len-overrun heap full long heap-Grants full-IsValid refl (omega arith) (omega arith)
      (omega arith)

un_put_char-text_example :
    (b' : MboxBuf) × (un_put_char ab ≡ ok (97, b'))
    × (text b' ≡ 97 ∷ [])
    × IsValid b'
    × IsTerminated b'
un_put_char-text_example = un_put_char-text ab [] 97 98 ab-IsValid refl

-- "aab".
abbrev aab : List ℕ
aab = 97 ∷ 97 ∷ 98 ∷ []

compute_prefix_table-IsTable_example :
    (table : List ℕ) × (compute_prefix_table heap aab 3 ≡ ok table)
    × IsTable (at aab) table 3
    × (length table ≡ 3)
compute_prefix_table-IsTable_example =
    compute_prefix_table-IsTable heap aab 3 (omega arith) (omega arith) (omega arith)

-- "aaab".
abbrev aaab : MboxBuf
aaab = record { block = 97 ∷ 97 ∷ 97 ∷ 98 ∷ 0 ∷ []; offset = 0; len = 4; capacity = 5 }

contains_pattern-IsFirst_example :
    (r : Option ℕ) × (contains_pattern heap aaab aab 3 ≡ ok (place_int r))
    × IsFirst (at aab) (at aaab.block) 3 (text_end aaab.block 4 0) r
contains_pattern-IsFirst_example =
    contains_pattern-IsFirst heap aaab aab 3 (omega arith) (omega arith) (omega arith) (omega arith)
      (omega arith)

contains_pattern_run : contains_pattern heap aaab aab 3 ≡ ok (pos 1)
unfolding contains_pattern compute_prefix_table contains_pattern_with_table fall_back match_loop
    table_loop int_inc to_int store malloc fresh read
contains_pattern_run = refl

-- "aAb" stands in "aaab" but for the case, and is not found: the table is that of a search that
-- minds the case.
contains_case_pattern_run : contains_case_pattern heap aaab (97 ∷ 65 ∷ 98 ∷ []) 3 ≡ ok (negsuc 0)
unfolding contains_case_pattern compute_prefix_table contains_case_pattern_with_table fall_back
    match_loop table_loop int_inc to_int store malloc fresh read
contains_case_pattern_run = refl
