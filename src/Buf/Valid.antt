-- ===== src/Buf/Valid.antt =====
-- The invariant of a buffer, its text, and the growth of its block.
use Prim.Native.Nat.{max}
use libmbox.Base.{
  ℕ, ◌+◌, ◌%◌, ◌^◌, ◌≤◌, ◌<◌, ◌≡◌, refl, ◌⊎◌, inl, inr, true, false, List, arith, ltb, leb, length,
  take, Bool-cases, if◌then◌else◌,
}
use libmbox.Buf.{MboxBuf, add_size, extend_buffer, extend_buffer_if_needed}
use libmbox.Buf.Memory.{Allocator, realloc, length-realloc, take-realloc}

-- `realloc` never fails.
abbrev pub Grants : Allocator → Type 0
Grants m = (n : ℕ) → m.grants n ≡ true

-- The bytes that the buffer stands for.
abbrev pub text : MboxBuf → List ℕ
text b = take b.len b.block

-- The block is at least as large as `capacity` says, and holds the text and a terminator.
pub record IsValid (b : MboxBuf) : Type 0 where
  pub room : b.capacity ≤ length b.block
  pub fits : b.len ≤ b.capacity
  pub held : b.len < length b.block
  pub small : b.capacity < 2 ^ 63

-- There is room for a terminator within `capacity` too.
pub record IsRoomy (b : MboxBuf) : Type 0 where
  pub valid : IsValid b
  pub spare : b.len < b.capacity

-- What growing a buffer for `n` more bytes leaves.
pub record Extends (b : MboxBuf) (n : ℕ) (b' : MboxBuf) : Type 0 where
  pub same_len : b'.len ≡ b.len
  pub same_offset : b'.offset ≡ b.offset
  pub same_text : take b.len b'.block ≡ take b.len b.block
  pub room : b'.capacity ≤ length b'.block
  pub bigger : b.capacity ≤ b'.capacity
  pub bound : b'.capacity ≤ b.capacity + max n 256
  pub enough : (b.len + 1 + n < b'.capacity) ⊎ (b'.capacity ≡ b.capacity + max n 256)

asked : (n : ℕ) → (if ltb 256 n then n else 256) ≡ max n 256
asked n = ground arith

module _ (m : Allocator) (b : MboxBuf) (v : IsValid b) where
  extend_buffer-grown :
      (n : ℕ)
      → Grants m
      → 0 < n
      → n < 2 ^ 32
      → (extend_buffer m b n).1
        ≡ record b { block = realloc m b.block (b.capacity + n); capacity = b.capacity + n }
  unfolding extend_buffer
  extend_buffer-grown n g pos fit =
      let e : add_size b.capacity (n % 2 ^ 32) ≡ b.capacity + n = omega (arith, v.small) in
      let more : leb (b.capacity + n) b.capacity ≡ false = ground arith in rw (e, more, g)

  extend_buffer-Extends :
      (n : ℕ) → Grants m → n < 2 ^ 32 → Extends b n (extend_buffer m b (max n 256)).1
  extend_buffer-Extends n g fit =
      rw (extend_buffer-grown (max n 256) g (omega arith) (omega arith)) (record {
        same_len = refl;
        same_offset = refl;
        same_text =
            take-realloc m b.block b.len (b.capacity + max n 256) (omega (arith, v.fits))
              (omega (arith, v.held));
        room = omega (arith, length-realloc m b.block (b.capacity + max n 256));
        bigger = omega arith;
        bound = omega arith;
        enough = inr refl;
      })

  pub extend_buffer_if_needed-Extends :
      (n : ℕ) → Grants m → n < 2 ^ 32 → Extends b n (extend_buffer_if_needed m b n).1
  unfolding extend_buffer_if_needed
  extend_buffer_if_needed-Extends n g fit =
      let e : add_size (add_size b.len 1) n ≡ b.len + 1 + n = omega (arith, v.small, v.fits) in
      elim (Bool-cases (leb b.capacity (add_size (add_size b.len 1) n))) [
        | inr ample ↦ rw ample (record {
          same_len = refl;
          same_offset = refl;
          same_text = refl;
          room = v.room;
          bigger = omega arith;
          bound = omega arith;
          enough = inl (ground arith);
        })
        | inl tight ↦ rw (tight, asked n) (extend_buffer-Extends n g fit)
      ]

  -- A buffer grows only where it is tight.
  pub extend_buffer_if_needed-Tight :
      (n : ℕ)
      → Grants m
      → n < 2 ^ 32
      → ((extend_buffer_if_needed m b n).1.capacity ≡ b.capacity) ⊎ (b.capacity ≤ b.len + 1 + n)
  unfolding extend_buffer_if_needed
  extend_buffer_if_needed-Tight n g fit =
      let e : add_size (add_size b.len 1) n ≡ b.len + 1 + n = omega (arith, v.small, v.fits) in
      elim (Bool-cases (leb b.capacity (add_size (add_size b.len 1) n))) [
        | inr ample ↦ rw ample (inl refl)
        | inl tight ↦ inr (ground arith)
      ]

  -- A full buffer grows by exactly what is asked for, from 256 bytes on.
  pub extend_tight :
      (n : ℕ)
      → Grants m
      → b.len ≡ b.capacity
      → 256 ≤ n
      → n < 2 ^ 32
      → (extend_buffer_if_needed m b n).1
        ≡ record b { block = realloc m b.block (b.capacity + n); capacity = b.capacity + n }
  unfolding extend_buffer_if_needed
  extend_tight n g full long fit =
      let tight : leb b.capacity (add_size (add_size b.len 1) n) ≡ true = ground (arith, v.small) in
      let most : max n 256 ≡ n = omega arith in
      rw (tight, asked n, most) (extend_buffer-grown n g (omega arith) fit)
