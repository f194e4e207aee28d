-- ===== src/Buf/Compare.antt =====
-- src/mbox-buf.c: the comparisons, over `memcmp`, `strncmp`, `strncasecmp` and `strcmp`.
use libmbox.Base.{
  ℕ, zero, suc, ◌+◌, ◌≤◌, ◌<◌, ◌≡◌, refl, sym, ap, ◌∙◌, Bool, true, false, List, arith, ltb, ◌==◌,
  if◌then◌else◌, inl, inr, Bool-cases, length, get_or,
}
use libmbox.Base.Outcome.{Outcome, ok, ◌>>=◌}
use libmbox.Buf.{MboxBuf}
use libmbox.Buf.Char.{to_lower}
use libmbox.Buf.Memory.{read, read-ok}
use libmbox.RbTree.{Sign, less, equal, greater}

-- The loop of the four functions: `norm` is put round both bytes, and `strings` says that a NUL ends
-- the comparison.
unfoldable pub compare_loop : (ℕ → ℕ) → Bool → ℕ → ℕ → List ℕ → List ℕ → Outcome Sign
compare_loop norm strings zero i s t = ok equal
compare_loop norm strings (suc left) i s t = do
  a ← read s i
  b ← read t i
  let more = compare_loop norm strings left (i + 1) s t
  if ltb (norm a) (norm b)
      then ok less
      else if ltb (norm b) (norm a)
      then ok greater
      else if strings
      then (if a == 0 then ok equal else more)
      else more

unfoldable pub memcmp : List ℕ → List ℕ → ℕ → Outcome Sign
unfolding compare_loop
memcmp s t n = compare_loop (λ c. c) false n 0 s t

unfoldable pub strncmp : List ℕ → List ℕ → ℕ → Outcome Sign
unfolding compare_loop
strncmp s t n = compare_loop (λ c. c) true n 0 s t

unfoldable pub strncasecmp : List ℕ → List ℕ → ℕ → Outcome Sign
unfolding compare_loop to_lower
strncasecmp s t n = compare_loop to_lower true n 0 s t

-- `strcmp` ends at a NUL, or at the end of a block that holds none: there it faults.
unfoldable pub str_cmp : MboxBuf → List ℕ → Outcome Sign
unfolding strncmp
str_cmp b s = strncmp b.block s (length b.block + 1)

unfoldable pub n_cmp : MboxBuf → MboxBuf → ℕ → Outcome Sign
unfolding memcmp
n_cmp b c size = memcmp b.block c.block size

unfoldable pub n_case_cmp : MboxBuf → MboxBuf → ℕ → Outcome Sign
unfolding strncasecmp
n_case_cmp b c size = strncasecmp b.block c.block size

unfoldable pub str_n_cmp : MboxBuf → List ℕ → ℕ → Outcome Sign
unfolding strncmp
str_n_cmp b s len = strncmp b.block s len

unfoldable pub str_n_case_cmp : MboxBuf → List ℕ → ℕ → Outcome Sign
unfolding strncasecmp
str_n_case_cmp b s len = strncasecmp b.block s len

unfoldable pub cmp : MboxBuf → MboxBuf → Outcome Sign
unfolding memcmp
cmp b c = memcmp b.block c.block (if ltb b.len c.len then b.len else c.len)

unfoldable pub case_cmp : MboxBuf → MboxBuf → Outcome Sign
unfolding strncasecmp
case_cmp b c = strncasecmp b.block c.block (if ltb b.len c.len then b.len else c.len)

-- The blocks agree on the bytes from `i` to `n`, but for what `norm` takes away.
compare_loop_same :
    (norm : ℕ → ℕ) (strings : Bool) (s t : List ℕ) (left i : ℕ)
    → i + left ≤ length s
    → i + left ≤ length t
    → ((x : ℕ) → x < i + left → norm (get_or s x 0) ≡ norm (get_or t x 0))
    → compare_loop norm strings left i s t ≡ ok equal
unfolding compare_loop
compare_loop_same norm strings s t zero i hs ht same = refl
compare_loop_same norm strings s t (suc left) i hs ht same =
    let e = same i (omega arith) in
    let ih : compare_loop norm strings left (i + 1) s t ≡ ok equal =
      compare_loop_same norm strings s t left (i + 1) (omega arith) (omega arith)
        (λ x lt. same x (omega arith)) in
    let stays : ltb (norm (get_or t i 0)) (norm (get_or t i 0)) ≡ false = ground arith in
    rw (read-ok s i (omega arith), read-ok t i (omega arith), e, stays)
      (elim (Bool-cases strings) [
        | inl y ↦ rw y (elim (Bool-cases (get_or s i 0 == 0)) [ inl z ↦ rw z | inr z ↦ rw z ih ])
        | inr n ↦ rw n ih
      ])

-- Two buffers whose texts lie in their blocks and of which one starts with the text of the
-- other, but for the case of letters, are equal for `mboxBufCaseCmp`, whatever the longer one
-- has behind it.
pub case_cmp_prefix :
    (b c : MboxBuf)
    → b.len ≤ c.len
    → b.len ≤ length b.block
    → c.len ≤ length c.block
    → ((x : ℕ) → x < b.len → to_lower (get_or b.block x 0) ≡ to_lower (get_or c.block x 0))
    → (case_cmp b c ≡ ok equal) × (case_cmp c b ≡ ok equal)
unfolding case_cmp strncasecmp
case_cmp_prefix b c le hb hc same =
    let shorter : (if ltb b.len c.len then b.len else c.len) ≡ b.len = ground arith in
    let shorter' : (if ltb c.len b.len then c.len else b.len) ≡ b.len = ground arith in
    (
      ap (λ n. compare_loop to_lower true n 0 b.block c.block) shorter
          ∙ compare_loop_same to_lower true b.block c.block b.len 0 (omega arith) (omega arith)
              (λ x lt. same x (omega arith)),
      ap (λ n. compare_loop to_lower true n 0 c.block b.block) shorter'
          ∙ compare_loop_same to_lower true c.block b.block b.len 0 (omega arith) (omega arith)
              (λ x lt. sym (same x (omega arith))),
    )
