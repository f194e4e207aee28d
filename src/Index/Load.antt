-- ===== src/Index/Load.antt =====
-- `indexesToList` reads back the offsets of an index file.
use libmbox.Base.{
  ℕ, zero, suc, ◌+◌, ◌-◌, ◌*◌, ◌^◌, ◌≤◌, ◌<◌, ◌≡◌, refl, ap, ◌∙◌, true, List, [], ◌∷◌, ◌++◌, arith,
  leb, subst, ap₂, lt→ltb, ge→ltb, ne→==, eq→==, length, get_or, set, length-set, length-append,
  get_or-set_self, get_or-set_ne,
}
use libmbox.Base.Outcome.{ok}
use libmbox.Buf.CString.{IsCString, IsCString-of_bytes}
use libmbox.Buf.Memory.{read-ok, store-ok}
use libmbox.Index.{atol, copy_token, read_index, indexes_loop}
use libmbox.Index.Decimal.{
  IsDigits, IsDigits-NoNul, digits-IsDigits, length-digits, value, value-digits, print_size,
}

-- From index `i` on the block holds the bytes `s`.
abbrev pub Holds : List ℕ → ℕ → List ℕ → Type 0
Holds block i [] = Unit {0}
Holds block i (c ∷ cs) = (i < length block) × (get_or block i 0 ≡ c) × Holds block (i + 1) cs

Holds-append :
    (block xs ys : List ℕ) (i : ℕ)
    → Holds block i (xs ++ ys)
    → Holds block i xs × Holds block (i + length xs) ys
Holds-append block [] ys i h = (tt, subst (λ k. Holds block k ys) (omega arith) h)
Holds-append block (x ∷ xs) ys i (lt, e, h) =
    let (left, right) = Holds-append block xs ys (i + 1) h in
    ((lt, e, left), subst (λ k. Holds block k ys) (omega arith) right)

Holds-fits :
    (block xs : List ℕ) (c i : ℕ) → Holds block i (xs ++ c ∷ []) → i + length xs < length block
Holds-fits block [] c i (lt, _, _) = omega arith
Holds-fits block (x ∷ xs) c i (_, _, h) = omega (arith, Holds-fits block xs c (i + 1) h)

-- The array behind the copy of a token.
record Copied (tmp : List ℕ) (idx : ℕ) (s tmp' : List ℕ) : Type 0 where
  pub size : length tmp' ≡ length tmp
  pub same : (x : ℕ) → x < length s → get_or tmp' (idx + x) 0 ≡ get_or s x 0
  pub before : (x : ℕ) → x < idx → get_or tmp' x 0 ≡ get_or tmp x 0

token_byte :
    (tmp : List ℕ) (idx c : ℕ) (s tmp' : List ℕ)
    → idx < length tmp
    → Copied (set tmp idx c) (idx + 1) s tmp'
    → (x : ℕ) → x < length (c ∷ s)
    → get_or tmp' (idx + x) 0 ≡ get_or (c ∷ s) x 0
token_byte tmp idx c s tmp' lt copied zero h =
    ap (λ k. get_or tmp' k 0) (omega arith)
    ∙ copied.before idx (omega arith)
    ∙ get_or-set_self tmp idx c 0 lt
token_byte tmp idx c s tmp' lt copied (suc x) h =
    ap (λ k. get_or tmp' k 0) (omega arith) ∙ copied.same x (omega arith)

Copied-cons :
    (tmp : List ℕ) (idx c : ℕ) (s tmp' : List ℕ)
    → idx < length tmp
    → Copied (set tmp idx c) (idx + 1) s tmp'
    → Copied tmp idx (c ∷ s) tmp'
Copied-cons tmp idx c s tmp' lt copied = record {
  size = copied.size ∙ length-set tmp idx c;
  same = token_byte tmp idx c s tmp' lt copied;
  before = λ x h.
      copied.before x (omega arith) ∙ get_or-set_ne tmp idx x c 0 (λ e. absurd (omega arith));
}

-- The copy of digits up to a byte `stop` that is none.
copy_token-Copied :
    (fuel : ℕ) (block : List ℕ) (stop offset : ℕ) (s tmp : List ℕ) (idx : ℕ)
    → IsDigits s
    → stop < b'0'
    → Holds block offset (s ++ stop ∷ [])
    → idx + length s ≤ length tmp
    → length s < fuel
    → (tmp' : List ℕ) × (copy_token fuel block stop offset tmp idx
        ≡ ok (offset + length s, tmp', idx + length s))
      × Copied tmp idx s tmp'
unfolding copy_token
copy_token-Copied zero block stop offset s tmp idx d low h fits enough = absurd (omega arith)
copy_token-Copied (suc fuel) block stop offset [] tmp idx d low (lt, e, _) fits enough = (
  tmp,
  rw (read-ok block offset lt, e, eq→== stop stop refl)
      (ap₂ (λ x y. ok (x, tmp, y)) (omega arith) (omega arith)),
  record { size = refl; same = λ x h. absurd (omega arith); before = λ x h. refl },
)
copy_token-Copied (suc fuel) block stop offset (c ∷ s) tmp idx (a, b, d) low (lt, e, h) fits
      enough =
    let (tmp', run, copied) =
      copy_token-Copied fuel block stop (offset + 1) s (set tmp idx c) (idx + 1) d low h
        (omega (arith, length-set tmp idx c)) (omega arith) in
    (
      tmp',
      rw
          (
            read-ok block offset lt,
            e,
            ne→== c stop (λ same. absurd (omega arith)),
            store-ok tmp idx c (omega arith),
            run,
          )
          (ap₂ (λ x y. ok (x, tmp', y)) (omega arith) (omega arith)),
      Copied-cons tmp idx c s tmp' (omega arith) copied,
    )

-- `atol` reads the digits of a string.
atol-value :
    (fuel : ℕ) (block : List ℕ) (i n : ℕ) (s : List ℕ)
    → IsDigits s
    → IsCString block i s
    → length s < fuel
    → atol fuel block i n ≡ ok (value n s)
unfolding atol
atol-value zero block i n s d h enough = absurd (omega arith)
atol-value (suc fuel) block i n [] d (lt, e) enough = rw (read-ok block i lt, e) refl
atol-value (suc fuel) block i n (c ∷ s) (a, b, d) (lt, e, ne, h) enough =
    let low : leb b'0' c ≡ true = ground arith in
    let high : leb c b'9' ≡ true = ground arith in
    rw (read-ok block i lt, e, low, high)
      (atol-value fuel block (i + 1) (n * 10 + (c - b'0')) s d h (omega arith))

-- A token that is copied to the front of an array and terminated reads as its number.
token_value :
    (tmp tmp' s : List ℕ)
    → IsDigits s
    → length s < length tmp
    → Copied tmp 0 s tmp'
    → atol (length (set tmp' (0 + length s) 0) + 1) (set tmp' (0 + length s) 0) 0 0 ≡ ok (value 0 s)
token_value tmp tmp' s d fits copied =
    let size = length-set tmp' (0 + length s) 0 in
    atol-value (length (set tmp' (0 + length s) 0) + 1) (set tmp' (0 + length s) 0) 0 0 s d
      (IsCString-of_bytes (set tmp' (0 + length s) 0) s 0 (IsDigits-NoNul s d)
        (omega (arith, size, copied.size))
        (λ x lt.
          get_or-set_ne tmp' (0 + length s) (0 + x) 0 0 (λ e. absurd (omega arith))
          ∙ copied.same x lt)
        (get_or-set_self tmp' (0 + length s) 0 0 (omega (arith, copied.size))))
      (omega (arith, size, copied.size))

-- The text of an index file.
unfoldable pub index_text : List (ℕ × ℕ) → List ℕ
index_text [] = []
index_text ((s, e) ∷ l) =
    (print_size s ++ b' ' ∷ []) ++ ((print_size e ++ b'\n' ∷ []) ++ index_text l)

-- Offsets of the type `ssize_t`.
abbrev pub IsOffsets : List (ℕ × ℕ) → Type 0
IsOffsets [] = Unit {0}
IsOffsets ((s, e) ∷ l) = (s < 2 ^ 63) × (e < 2 ^ 63) × IsOffsets l

print_size-IsDigits : (n : ℕ) → IsDigits (print_size n)
unfolding print_size
print_size-IsDigits n = digits-IsDigits 20 n

pub length-print_size : (n : ℕ) → length (print_size n) ≤ 20
unfolding print_size
length-print_size n = length-digits 20 n

value-print_size : (n : ℕ) → n < 2 ^ 63 → value 0 (print_size n) ≡ n
unfolding print_size
value-print_size n h = value-digits 20 n (omega arith)

-- What a round of the loop gives.
abbrev Reads : List ℕ → ℕ → (s e : ℕ) → (tmpstart tmpend : List ℕ) → Type 0
Reads block offset s e tmpstart tmpend =
    (ts : List ℕ) × (te : List ℕ) × (read_index block offset tmpstart tmpend
      ≡ ok ((s, e), offset + length (print_size s) + 1 + length (print_size e) + 1, ts, te))
    × (length ts ≡ length tmpstart)
    × (length te ≡ length tmpend)

read_index-Reads :
    (block : List ℕ) (offset s e : ℕ) (tmpstart tmpend : List ℕ)
    → s < 2 ^ 63
    → e < 2 ^ 63
    → length tmpstart ≡ 26
    → length tmpend ≡ 26
    → Holds block offset (print_size s ++ b' ' ∷ [])
    → Holds block (offset + length (print_size s) + 1) (print_size e ++ b'\n' ∷ [])
    → Reads block offset s e tmpstart tmpend
unfolding read_index
read_index-Reads block offset s e tmpstart tmpend hs he ls le first second =
    let (ts, run_s, copied_s) =
      copy_token-Copied (length block + 1) block b' ' offset (print_size s) tmpstart 0
        (print_size-IsDigits s) (omega arith) first (omega (arith, length-print_size s))
        (omega (arith, Holds-fits block (print_size s) b' ' offset first)) in
    let (te, run_e, copied_e) =
      copy_token-Copied (length block + 1) block b'\n' (offset + length (print_size s) + 1)
        (print_size e) tmpend 0 (print_size-IsDigits e) (omega arith) second
        (omega (arith, length-print_size e))
        (omega (
          arith,
          Holds-fits block (print_size e) b'\n' (offset + length (print_size s) + 1) second,
        )) in
    let store_s =
      store-ok ts (0 + length (print_size s)) 0
        (omega (arith, copied_s.size, length-print_size s)) in
    let store_e =
      store-ok te (0 + length (print_size e)) 0
        (omega (arith, copied_e.size, length-print_size e)) in
    (
      set ts (0 + length (print_size s)) 0,
      set te (0 + length (print_size e)) 0,
      rw
          (
            run_s,
            run_e,
            store_s,
            store_e,
            token_value tmpstart ts (print_size s) (print_size-IsDigits s)
                (omega (arith, length-print_size s)) copied_s,
            token_value tmpend te (print_size e) (print_size-IsDigits e)
                (omega (arith, length-print_size e)) copied_e,
            value-print_size s hs,
            value-print_size e he,
          )
          refl,
      length-set ts (0 + length (print_size s)) 0 ∙ copied_s.size,
      length-set te (0 + length (print_size e)) 0 ∙ copied_e.size,
    )

-- The whole file from a place in it on.
pub indexes_loop-text :
    (fuel : ℕ) (block : List ℕ) (len offset : ℕ) (l : List (ℕ × ℕ)) (tmpstart tmpend : List ℕ)
    → IsOffsets l
    → length tmpstart ≡ 26
    → length tmpend ≡ 26
    → Holds block offset (index_text l)
    → len ≡ offset + length (index_text l)
    → length l < fuel
    → indexes_loop fuel block len offset tmpstart tmpend ≡ ok l
unfolding indexes_loop index_text
indexes_loop-text zero block len offset l tmpstart tmpend small ls le h size enough =
    absurd (omega arith)
indexes_loop-text (suc fuel) block len offset [] tmpstart tmpend small ls le h size enough =
    rw (ge→ltb offset len (omega arith)) refl
indexes_loop-text (suc fuel) block len offset ((s, e) ∷ l) tmpstart tmpend (hs, he, small) ls le h
      size enough =
    let (first, h') =
      Holds-append block (print_size s ++ b' ' ∷ []) ((print_size e ++ b'\n' ∷ []) ++ index_text l)
        offset h in
    let (second, h'') =
      Holds-append block (print_size e ++ b'\n' ∷ []) (index_text l)
        (offset + length (print_size s ++ b' ' ∷ [])) h' in
    let one = length-append (print_size s) (b' ' ∷ []) in
    let two = length-append (print_size e) (b'\n' ∷ []) in
    let three =
      length-append (print_size s ++ b' ' ∷ []) ((print_size e ++ b'\n' ∷ []) ++ index_text l) in
    let four = length-append (print_size e ++ b'\n' ∷ []) (index_text l) in
    let (ts, te, run, size_s, size_e) =
      read_index-Reads block offset s e tmpstart tmpend hs he ls le first
        (subst (λ k. Holds block k (print_size e ++ b'\n' ∷ [])) (omega arith) second) in
    rw
      (
        lt→ltb offset len (omega arith),
        run,
        indexes_loop-text fuel block len
            (offset + length (print_size s) + 1 + length (print_size e) + 1) l ts te small
            (size_s ∙ ls) (size_e ∙ le)
            (subst (λ k. Holds block k (index_text l)) (omega arith) h'') (omega arith)
            (omega arith),
      )
      refl
