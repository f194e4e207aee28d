-- ===== src/Buf/Copy.antt =====
-- The functions that copy a buffer, and those that change the case of its bytes.
use libmbox.Base.{
  ℕ, zero, suc, ◌+◌, ◌^◌, ◌≤◌, ◌<◌, ◌≡◌, refl, subst, ◌⊎◌, inl, inr, Bool-cases, ◌==◌, ==→eq, ==→ne,
  get_or-set_ne, List, arith, ◌∙◌, sym, ap, length, take, set, get_or, length-set, length-take,
  get_or-set_self, take-set_ge,
}
use libmbox.Base.Outcome.{ok}
use libmbox.Buf.{
  MboxBuf, add_size, alloc, set_len, set_capacity, dup_raw, dup, change_case, to_lower_case,
  to_upper_case,
}
use libmbox.Buf.Append.{Gives, IsTerminated}
use libmbox.Buf.Char.{to_lower, to_upper}
use libmbox.Buf.Memory.{
  Allocator, malloc, length-malloc, read-ok, store-ok, copy-ok, copied, length-copied, take-copied,
  fetch-ok,
}
use libmbox.Buf.Valid.{text, IsValid}

-- `mboxBufDupRaw` of bytes that fit into the capacity returns a valid, terminated buffer with
-- offset 0 that holds just these bytes.
pub dup_raw-text :
    (m : Allocator) (s : List ℕ) (capacity : ℕ)
    → length s ≤ capacity
    → capacity < 2 ^ 63
    → Gives (dup_raw m s capacity) λ b'.
      (text b' ≡ s) × (b'.offset ≡ 0) × (b'.capacity ≡ capacity) × IsValid b' × IsTerminated b'
unfolding dup_raw alloc set_len set_capacity
dup_raw-text m s capacity fit small =
    let n = length s in
    let plain : n ≡ 0 + n = omega arith in
    let wide : add_size capacity 10 ≡ capacity + 10 = omega arith in
    let block₀ = malloc m (add_size capacity 10) in
    let size₀ : length block₀ ≡ capacity + 10 = length-malloc m (add_size capacity 10) ∙ wide in
    let block₁ = copied block₀ 0 s in
    let size₁ : length block₁ ≡ length block₀ = length-copied block₀ 0 s (omega arith) in
    let size₂ : length (set block₁ n 0) ≡ length block₁ = length-set block₁ n 0 in
    (
      record { block = set block₁ n 0; offset = 0; len = n; capacity = capacity },
      rw (copy-ok block₀ 0 s (omega arith), store-ok block₁ n 0 (omega arith)),
      (
        take-set_ge n n block₁ 0 (omega arith)
            ∙ ap (λ k. take k block₁) plain
            ∙ take-copied block₀ 0 s (omega arith),
        refl,
        refl,
        record { room = omega arith; fits = fit; held = omega arith; small = small },
        get_or-set_self block₁ n 0 1 (omega arith),
      ),
    )

-- `mboxBufDup` of a valid buffer returns a valid, terminated buffer with the same text and offset
-- 0, whose capacity is the length of the text.
pub dup-text :
    (m : Allocator) (b : MboxBuf)
    → IsValid b
    → Gives (dup m b) λ b'.
      (text b' ≡ text b) × (b'.offset ≡ 0) × (b'.capacity ≡ b.len) × IsValid b' × IsTerminated b'
unfolding dup dup_raw
dup-text m b v =
    let size : length (text b) ≡ b.len = omega (arith, length-take b.len b.block, v.held) in
    let (b', run, good) =
      dup_raw-text m (text b) b.len (omega arith) (omega (arith, v.small, v.fits)) in
    let same : dup m b ≡ dup_raw m (text b) b.len =
      rw (fetch-ok b.block 0 b.len (omega (arith, v.held)), size) refl in
    (b', same ∙ run, good)

-- The bytes from `i` to `n` are changed, the others kept.
abbrev pub Changed : (ℕ → ℕ) → ℕ → ℕ → List ℕ → List ℕ → Type 0
Changed f i n block block' =
    ((x : ℕ) → i ≤ x → x < n → get_or block' x 0 ≡ f (get_or block x 0))
    × ((x : ℕ) → (x < i) ⊎ (n ≤ x) → get_or block' x 0 ≡ get_or block x 0)
    × (length block' ≡ length block)

change_case-Changed :
    (f : ℕ → ℕ) (left i : ℕ) (block : List ℕ)
    → i + left ≤ length block
    → (block' : List ℕ) × (change_case f left i block ≡ ok block')
      × Changed f i (i + left) block block'
unfolding change_case
change_case-Changed f zero i block h =
    (block, refl, ((λ x le lt. absurd (omega arith)), (λ x out. refl), refl))
change_case-Changed f (suc left) i block h =
    let block₁ = set block i (f (get_or block i 0)) in
    let size : length block₁ ≡ length block = length-set block i (f (get_or block i 0)) in
    let (block', run, (inside, outside, same)) =
      change_case-Changed f left (i + 1) block₁ (omega (arith, size)) in
    (
      block',
      rw (read-ok block i (omega arith), store-ok block i (f (get_or block i 0)) (omega arith)) run,
      (
        λ x le lt. elim (Bool-cases (x == i)) [
          | inl e ↦
              outside x (inl (omega (arith, ==→eq x i e)))
              ∙ ap (λ k. get_or block₁ k 0) (==→eq x i e)
              ∙ get_or-set_self block i (f (get_or block i 0)) 0 (omega arith)
              ∙ ap (λ k. f (get_or block k 0)) (sym (==→eq x i e))
          | inr ne ↦
              inside x (omega (arith, ==→ne x i ne)) (omega arith)
              ∙ ap f (
                  get_or-set_ne block i x (f (get_or block i 0)) 0
                    (λ e. absurd (==→ne x i ne (sym e))))
        ],
        λ x out.
            outside x (ground arith)
            ∙ get_or-set_ne block i x (f (get_or block i 0)) 0 (λ e. absurd (ground arith)),
        same ∙ size,
      ),
    )

-- On a valid buffer `mboxBufToLowerCase` and `mboxBufToUpperCase` return, change the case of each
-- byte of the text, and keep all the other bytes, the length, the offset and the capacity.
pub to_case-Changed :
    (b : MboxBuf)
    → IsValid b
    → Gives
        (to_lower_case b)
        (λ b'. Changed to_lower 0 b.len b.block b'.block × (b' ≡ record b { block = b'.block }))
      × Gives
          (to_upper_case b)
          (λ b'. Changed to_upper 0 b.len b.block b'.block × (b' ≡ record b { block = b'.block }))
unfolding to_lower_case to_upper_case
to_case-Changed b v =
    let none_before : 0 + b.len ≡ b.len = omega arith in
    let (lower, run, change) =
      change_case-Changed to_lower b.len 0 b.block (omega (arith, v.held)) in
    let (upper, run', change') =
      change_case-Changed to_upper b.len 0 b.block (omega (arith, v.held)) in
    (
      (
        record b { block = lower },
        rw run refl,
        (subst (λ n. Changed to_lower 0 n b.block lower) none_before change, refl),
      ),
      (
        record b { block = upper },
        rw run' refl,
        (subst (λ n. Changed to_upper 0 n b.block upper) none_before change', refl),
      ),
    )
