-- ===== src/Buf/Mime.antt =====
-- src/mbox-buf.c: the decoding of MIME words.
use libmbox.Base.{
  ℕ, zero, suc, ◌+◌, ◌-◌, ◌*◌, ◌≤◌, ◌<◌, ◌≡◌, ◌≢◌, ◌⊎◌, refl, sym, ap, subst, ◌∙◌, Bool, true,
  false, ◌&&◌, List, [], ◌∷◌, ◌++◌, Option, none, some, arith, ltb, leb, ◌==◌, if◌then◌else◌,
  Bool-cases, length, take, get_or, set, inl, inr, length-set, take-suc-set, ne→==, Option-cases,
  append-nil, append_assoc, drop, length-take, length-drop, take-set_ge,
}
use libmbox.Base.Outcome.{Outcome, ok, fault, ◌>>=◌}
use libmbox.Buf.{MboxBuf, slice, set_len, alloc, sub_size}
use libmbox.Buf.CString.{IsCString, IsCString-set, IsCString-copied, NoNul}
use libmbox.Buf.Memory.{
  Allocator, read, read-ok, store, store-ok, malloc, copied, copy-ok, fetch-ok, length-copied,
}
use libmbox.Buf.Append.{Gives}
use libmbox.Buf.Valid.{text, IsValid}

-- `strncmp(prefix, block + i, n) == 0` for the bytes of a literal: the comparison stops at the first
-- byte that differs, and no literal here holds a NUL.
unfoldable pub matches_at : List ℕ → ℕ → List ℕ → Outcome Bool
matches_at block i [] = ok true
matches_at block i (c ∷ cs) = do
  d ← read block i
  let more = matches_at block (i + 1) cs
  if c == d then more else ok false

-- "=?utf-8?Q?" and "?=".
abbrev pub mime_prefix : List ℕ
mime_prefix = b'=' ∷ b'?' ∷ b'u' ∷ b't' ∷ b'f' ∷ b'-' ∷ b'8' ∷ b'?' ∷ b'Q' ∷ b'?' ∷ []

abbrev pub mime_suffix : List ℕ
mime_suffix = b'?' ∷ b'=' ∷ []

unfoldable pub is_mime_encoded : MboxBuf → Outcome Bool
unfolding matches_at
is_mime_encoded buf = do
  starts ← matches_at buf.block 0 mime_prefix
  if starts then matches_at buf.block (sub_size buf.len 2) mime_suffix else ok false

-- `none` stands for -1.
unfoldable pub hex_to_int : ℕ → Option ℕ
hex_to_int c =
    if leb b'0' c && leb c b'9'
    then some (c - b'0')
    else if leb b'A' c && leb c b'F'
    then some (c - b'A' + 10)
    else if leb b'a' c && leb c b'f'
    then some (c - b'a' + 10)
    else none

-- The byte that two digits give, if they are digits.
unfoldable pub hex_pair : ℕ → ℕ → Option ℕ
unfolding hex_to_int
hex_pair a b = elim (hex_to_int a) [
  | none ↦ none
  | some hi ↦ elim (hex_to_int b) [ none ↦ none | some lo ↦ some (hi * 16 + lo) ]
]

-- What the loop puts out at `*in`, and how far it moves on.
unfoldable pub decode_step : List ℕ → ℕ → ℕ → Outcome (ℕ × ℕ)
unfolding hex_pair
decode_step str i c =
    if c == b'='
    then (do
      a ← read str (i + 1)
      b ← read str (i + 2)
      ok (elim (hex_pair a b) [ none ↦ (c, 1) | some v ↦ (v, 3) ]))
    else ok (c, 1)

-- The loop where `out` is another block than `str`; the result is `*outlen` and the block.
unfoldable pub decode_loop : ℕ → List ℕ → ℕ → ℕ → List ℕ → Outcome (ℕ × List ℕ)
decode_loop zero str i len out = fault
decode_loop (suc left) str i len out = do
  c ← read str i
  let more = (do
    (v, n) ← decode_step str i c
    out' ← store out len v
    decode_loop left str (i + n) (len + 1) out')
  if c == 0 then ok (len, out) else more

-- The loop where `out` is `str`.
unfoldable pub decode_loop_inplace : ℕ → ℕ → ℕ → List ℕ → Outcome (ℕ × List ℕ)
decode_loop_inplace zero i len str = fault
decode_loop_inplace (suc left) i len str = do
  c ← read str i
  let more = (do
    (v, n) ← decode_step str i c
    str' ← store str len v
    decode_loop_inplace left (i + n) (len + 1) str')
  if c == 0 then ok (len, str) else more

unfoldable pub decode_mime_encoded_inplace : MboxBuf → Outcome MboxBuf
unfolding decode_loop_inplace
decode_mime_encoded_inplace buf = do
  b ← slice buf 10 0 (sub_size buf.len 12)
  (outlen, block) ← decode_loop_inplace (length b.block + 1) 0 0 b.block
  set_len (record b { block = block }) outlen

-- What a text decodes to; the first argument counts the bytes to pass over.
unfoldable pub decoded : ℕ → List ℕ → List ℕ
unfolding hex_pair
decoded skip [] = []
decoded (suc skip) (c ∷ cs) = decoded skip cs
decoded zero (c ∷ cs) =
    if c == b'='
    then elim (hex_pair (get_or cs 0 0) (get_or cs 1 0)) [
      | none ↦ c ∷ decoded 0 cs
      | some v ↦ v ∷ decoded 2 cs
    ]
    else c ∷ decoded 0 cs

hex_pair_nul : (a : ℕ) → hex_pair a 0 ≡ none
unfolding hex_pair hex_to_int
hex_pair_nul a = elim (Option-cases (hex_to_int a)) [
  | inl e ↦ rw (hex_pair, e)
  | inr (hi, e) ↦ rw (hex_pair, e)
]

-- A step is a plain byte, or two digits behind a "=".
decode_step_cases :
    (block : List ℕ) (i c : ℕ) (cs : List ℕ)
    → IsCString block (i + 1) cs
    → i + 3 ≤ length block
    → ((decode_step block i c ≡ ok (c, 1)) × (decoded 0 (c ∷ cs) ≡ c ∷ decoded 0 cs))
      ⊎ ((v a b : ℕ) × (rest : List ℕ) × (cs ≡ a ∷ b ∷ rest)
          × (decode_step block i c ≡ ok (v, 3))
          × (decoded 0 (c ∷ cs) ≡ v ∷ decoded 0 rest))
unfolding decode_step decoded
decode_step_cases block i c cs at_i room = elim (Bool-cases (c == b'=')) [
  | inr e ↦ inl (rw (decode_step, e), rw (decoded, e))
  | inl e ↦ equals cs at_i e
]
  where
    first : (d : ℕ) → get_or block (i + 1) 0 ≡ d → read block (i + 1) ≡ ok d
    first d e = read-ok block (i + 1) (omega arith) ∙ ap ok e

    second : (d : ℕ) → get_or block (i + 1 + 1) 0 ≡ d → read block (i + 2) ≡ ok d
    second d e =
        read-ok block (i + 2) (omega arith)
        ∙ ap (λ k. ok (get_or block k 0)) (omega arith)
        ∙ ap ok e

    equals :
        (cs : List ℕ)
        → IsCString block (i + 1) cs
        → (c == b'=') ≡ true
        → ((decode_step block i c ≡ ok (c, 1)) × (decoded 0 (c ∷ cs) ≡ c ∷ decoded 0 cs))
          ⊎ ((v a b : ℕ) × (rest : List ℕ) × (cs ≡ a ∷ b ∷ rest)
              × (decode_step block i c ≡ ok (v, 3))
              × (decoded 0 (c ∷ cs) ≡ v ∷ decoded 0 rest))
    equals [] (_, nul) e = inl (
      rw (decode_step, e, first 0 nul, second (get_or block (i + 1 + 1) 0) refl),
      rw (decoded, e),
    )
    equals (a ∷ []) (_, at_a, _, (_, nul)) e = inl (
      rw (decode_step, e, first a at_a, second 0 nul, hex_pair_nul a),
      rw (decoded, e, hex_pair_nul a),
    )
    equals (a ∷ b ∷ rest) (_, at_a, _, (_, at_b, _, _)) e = elim (Option-cases (hex_pair a b)) [
      | inl f ↦ inl (rw (decode_step, e, first a at_a, second b at_b, f), rw (decoded, e, f))
      | inr (v, f) ↦ inr (
        v,
        a,
        b,
        rest,
        refl,
        rw (decode_step, e, first a at_a, second b at_b, f),
        rw (decoded, e, f),
      )
    ]

-- What the loop on one block leaves: the decoded bytes behind the `len` that are there, never ahead of
-- what has been read.
abbrev Decodes : ℕ → ℕ → ℕ → List ℕ → List ℕ → Type 0
Decodes left i len block s =
    (block' : List ℕ) × (n : ℕ) × (decode_loop_inplace left i len block ≡ ok (n, block'))
    × (n ≡ len + length (decoded 0 s))
    × (take n block' ≡ take len block ++ decoded 0 s)
    × (length block' ≡ length block)
    × (n ≤ i + length s)

decode_after :
    (left i len : ℕ) (block : List ℕ) (c : ℕ) (cs : List ℕ) (v n : ℕ) (rest : List ℕ)
    → i < length block
    → get_or block i 0 ≡ c
    → c ≢ 0
    → len ≤ i
    → n + length rest ≤ 1 + length cs
    → decode_step block i c ≡ ok (v, n)
    → decoded 0 (c ∷ cs) ≡ v ∷ decoded 0 rest
    → Decodes left (i + n) (len + 1) (set block len v) rest
    → Decodes (suc left) i len block (c ∷ cs)
unfolding decode_loop_inplace
decode_after left i len block c cs v n rest in_block at_i ne le short run spec
      (block', k, run', at_k, text', size, bound) =
    let more : len + 1 ≡ suc len = omega arith in
    (
      block',
      k,
      rw (read-ok block i in_block, at_i, ne→== c 0 ne, run, store-ok block len v (omega arith))
          run',
      omega (arith, ap (λ t. length t) spec),
      text'
          ∙ ap (λ t. t ++ decoded 0 rest)
              (ap (λ j. take j (set block len v)) more ∙ take-suc-set len block v (omega arith))
          ∙ append_assoc (take len block) (v ∷ []) (decoded 0 rest)
          ∙ ap (λ t. take len block ++ t) (sym spec),
      size ∙ length-set block len v,
      omega arith,
    )

decode_loop_inplace-Decodes :
    (left i len : ℕ) (block s : List ℕ)
    → IsCString block i s
    → len ≤ i
    → length s < left
    → i + length s + 3 ≤ length block
    → Decodes left i len block s
unfolding decode_loop_inplace
decode_loop_inplace-Decodes zero i len block s at_i le lt room = absurd (omega arith)
decode_loop_inplace-Decodes (suc left) i len block [] (in_block, nul) le lt room =
    unfold decoded in
    (
      block,
      len,
      rw (read-ok block i in_block, nul) refl,
      omega arith,
      sym (append-nil (take len block)),
      refl,
      omega arith,
    )
decode_loop_inplace-Decodes (suc left) i len block (c ∷ cs) (in_block, at_i, ne, after) le lt room =
    elim (decode_step_cases block i c cs after (omega arith)) [
      | inl (run, spec) ↦
          decode_after left i len block c cs c 1 cs in_block at_i ne le (omega arith) run spec (
            decode_loop_inplace-Decodes left (i + 1) (len + 1) (set block len c) cs
              (IsCString-set block cs (i + 1) len c (omega arith) after) (omega arith) (omega arith)
              (omega (arith, length-set block len c)))
      | inr (v, a, b, rest, e, run, spec) ↦
          let size : length cs ≡ suc (suc (length rest)) = ap (λ t. length t) e in
          let (_, _, _, (_, _, _, later)) = subst (IsCString block (i + 1)) e after in
          let later' : IsCString block (i + 3) rest =
            subst (λ k. IsCString block k rest) (omega arith) later in
          decode_after left i len block c cs v 3 rest in_block at_i ne le (omega arith) run spec (
            decode_loop_inplace-Decodes left (i + 3) (len + 1) (set block len v) rest
              (IsCString-set block rest (i + 3) len v (omega arith) later') (omega arith)
              (omega arith) (omega (arith, length-set block len v)))
    ]

-- The three calls, one after the other.
inplace-run :
    (b b₁ : MboxBuf) (k : ℕ) (block : List ℕ)
    → slice b 10 0 (sub_size b.len 12) ≡ ok b₁
    → decode_loop_inplace (length b₁.block + 1) 0 0 b₁.block ≡ ok (k, block)
    → k < length block
    → decode_mime_encoded_inplace b ≡ ok (record b₁ { block = set block k 0; len = k })
unfolding decode_mime_encoded_inplace set_len
inplace-run b b₁ k block sliced run fits = rw (sliced, run, store-ok block k 0 fits) refl

slice-front :
    (b : MboxBuf) (n : ℕ)
    → length (take n (drop 10 b.block)) ≡ n
    → 10 + n < length b.block
    → slice b 10 0 n
      ≡ ok (record b { block = set (copied b.block 0 (take n (drop 10 b.block))) n 0; len = n })
unfolding slice
slice-front b n size room =
    rw
      (
        fetch-ok b.block 10 n (omega arith),
        copy-ok b.block 0 (take n (drop 10 b.block)) (omega arith),
        store-ok (copied b.block 0 (take n (drop 10 b.block))) n 0
            (omega (arith, length-copied b.block 0 (take n (drop 10 b.block)) (omega arith))),
      )
      refl

-- On a valid buffer of at least twelve bytes of which those between the first ten and the last two
-- are no NULs, `mboxBufDecodeMimeEncodedInplace` returns, and leaves just those bytes decoded: on one
-- block for input and output, no read or write is out of range or comes too late.
pub decode_mime_encoded_inplace-decoded :
    (b : MboxBuf)
    → IsValid b
    → 12 ≤ b.len
    → NoNul (take (b.len - 12) (drop 10 b.block))
    → Gives
        (decode_mime_encoded_inplace b)
        λ b'. (text b' ≡ decoded 0 (take (b.len - 12) (drop 10 b.block))) × (b'.len ≤ b.len - 12)
decode_mime_encoded_inplace-decoded b v twelve clean =
    let s = take (b.len - 12) (drop 10 b.block) in
    let n : ℕ = b.len - 12 in
    let size : length s ≡ n =
      omega (arith, length-take n (drop 10 b.block), length-drop 10 b.block, v.held) in
    let back : sub_size b.len 12 ≡ n = omega (arith, v.small, v.fits) in
    let block₁ = copied b.block 0 s in
    let block₂ = set block₁ n 0 in
    let room : 0 + length s ≤ length b.block = omega (arith, v.held) in
    let b₁ : MboxBuf = record b { block = block₂; len = n } in
    let size₁ : length block₁ ≡ length b.block = length-copied b.block 0 s room in
    let size₂ : length block₂ ≡ length b.block = length-set block₁ n 0 ∙ size₁ in
    let held : IsCString block₂ 0 s =
      subst (λ k. IsCString (set block₁ k 0) 0 s) size
        (IsCString-copied b.block s clean (omega (arith, v.held))) in
    let (block₃, k, run, at_k, text', same, bound) =
      decode_loop_inplace-Decodes (length block₂ + 1) 0 0 block₂ s held (omega arith)
        (omega (arith, v.held)) (omega (arith, v.held)) in
    (
      record b { block = set block₃ k 0; len = k },
      inplace-run b b₁ k block₃
          (ap (slice b 10 0) back ∙ slice-front b n size (omega (arith, v.held))) run
          (omega (arith, v.held)),
      (take-set_ge k k block₃ 0 (omega arith) ∙ text', omega arith),
    )

-- `mboxBufDecodeMimeEncoded`. The bytes to decode are copied from `buf + 10`, behind the struct, not
-- from its text: any copy of more than no bytes is a wrong access. `stack` is the array on the stack.
unfoldable pub decode_mime_encoded : Allocator → List ℕ → MboxBuf → Outcome MboxBuf
unfolding decode_loop alloc set_len
decode_mime_encoded m stack buf = do
  let out = alloc m 512
  let tmp = if ltb buf.len 2048 then stack else malloc m buf.len
  if sub_size buf.len 12 == 0
      then (do
        tmp ← store tmp 0 0
        (outlen, block) ← decode_loop (length tmp + 1) tmp 0 0 out.block
        set_len (record out { block = block }) outlen)
      else fault
