-- ===== src/Buf/Append.antt =====
-- The functions that add to the end of a buffer, and the one that takes the last byte off.
use Prim.Native.Nat.{max}
use libmbox.Base.{
  ℕ, ◌+◌, ◌^◌, ◌≤◌, ◌<◌, ◌≡◌, List, [], ◌∷◌, ◌++◌, arith, ◌∙◌, sym, ap, length, take, set, get_or,
  refl, length-set, length-take, length-append, get_or-take, get_or-append_at, take-take,
  take-append_snoc, get_or-set_self, take-set_last, take-set_ge, ne→==,
}
use libmbox.Base.Outcome.{Outcome, ok, fault}
use libmbox.Buf.{
  MboxBuf, add_size, sub_size, extend_buffer_if_needed, put_char, cat_len, un_put_char,
}
use libmbox.Buf.Memory.{
  Allocator, store-ok, read-ok, copy-ok, copied, length-copied, take-copied, read_fault,
  store_fault, length-realloc, copy, store,
}
use libmbox.Buf.Valid.{
  Grants, text, IsValid, extend_tight, IsRoomy, extend_buffer_if_needed-Extends,
}

-- The byte behind the text is a terminator.
abbrev pub IsTerminated : MboxBuf → Type 0
IsTerminated b = get_or b.block b.len 1 ≡ 0

-- The call returns a buffer with the property.
abbrev pub Gives : Outcome MboxBuf → (MboxBuf → Type 0) → Type 0
Gives r P = (b : MboxBuf) × (r ≡ ok b) × P b

-- The same with the growth of the capacity.
pub put_char-grown :
    (m : Allocator) (b : MboxBuf) (ch : ℕ)
    → Grants m
    → IsValid b
    → b.capacity + 256 < 2 ^ 63
    → Gives (put_char m b ch) λ b'.
      (text b' ≡ text b ++ ch ∷ [])
      × (b'.offset ≡ b.offset)
      × IsRoomy b'
      × IsTerminated b'
      × (b'.capacity ≤ b.capacity + 256)
unfolding put_char
put_char-grown m b ch g v small =
    let e = extend_buffer_if_needed-Extends m b v 100 g (omega arith) in
    let b₁ = (extend_buffer_if_needed m b 100).1 in
    let more : b₁.len + 1 < b₁.capacity = omega (arith, e.enough, e.same_len, v.fits) in
    let in_len : b₁.len < length b₁.block = omega (arith, e.room) in
    let in_next : b₁.len + 1 < length (set b₁.block b₁.len ch) =
      omega (arith, e.room, length-set b₁.block b₁.len ch) in
    let no_wrap : add_size b₁.len 1 ≡ b₁.len + 1 = omega (arith, e.bound) in
    let block₁ = set b₁.block b₁.len ch in
    let block₂ = set block₁ (b₁.len + 1) 0 in
    let sizes : length block₂ ≡ length b₁.block =
      length-set block₁ (b₁.len + 1) 0 ∙ length-set b₁.block b₁.len ch in
    (
      record b₁ { block = block₂; len = b₁.len + 1 },
      rw (store-ok b₁.block b₁.len ch in_len, no_wrap, store-ok block₁ (b₁.len + 1) 0 in_next),
      (
        take-set_ge (b₁.len + 1) (b₁.len + 1) block₁ 0 (omega arith)
            ∙ take-set_last b₁.len b₁.block ch in_len
            ∙ ap (λ t. t ++ ch ∷ []) (ap (λ k. take k b₁.block) e.same_len ∙ e.same_text),
        e.same_offset,
        record {
          valid = record {
            room = omega (arith, e.room, sizes);
            fits = omega arith;
            held = omega (arith, e.room, sizes);
            small = omega (arith, e.bound);
          };
          spare = more;
        },
        get_or-set_self block₁ (b₁.len + 1) 0 1 in_next,
        omega (arith, e.bound),
      ),
    )

-- With memory to be had, `mboxBufPutChar` on a valid buffer returns, appends the byte, leaves the
-- offset alone, and leaves a terminated buffer that is valid with room to spare.
pub put_char-text :
    (m : Allocator) (b : MboxBuf) (ch : ℕ)
    → Grants m
    → IsValid b
    → b.capacity + 256 < 2 ^ 63
    → Gives
        (put_char m b ch)
        λ b'. (text b' ≡ text b ++ ch ∷ []) × (b'.offset ≡ b.offset) × IsRoomy b' × IsTerminated b'
put_char-text m b ch g v small =
    let (b', run, (text', offset', roomy, ended, _)) = put_char-grown m b ch g v small in
    (b', run, (text', offset', roomy, ended))

-- The same with the growth of the capacity.
pub cat_len-grown :
    (m : Allocator) (b : MboxBuf) (d : List ℕ)
    → Grants m
    → IsRoomy b
    → b.capacity + length d + 256 < 2 ^ 63
    → length d < 2 ^ 32
    → Gives (cat_len m b d) λ b'.
      (text b' ≡ text b ++ d)
      × (b'.offset ≡ b.offset)
      × IsRoomy b'
      × IsTerminated b'
      × (b'.capacity ≤ b.capacity + max (length d) 256)
unfolding cat_len
cat_len-grown m b d g r small fit =
    let v = r.valid in
    let e = extend_buffer_if_needed-Extends m b v (length d) g fit in
    let b₁ = (extend_buffer_if_needed m b (length d)).1 in
    let n = b₁.len + length d in
    let more : n < b₁.capacity = omega (arith, e.enough, e.same_len, r.spare) in
    let inside : b₁.len + length d ≤ length b₁.block = omega (arith, e.room) in
    let block₁ = copied b₁.block b₁.len d in
    let size₁ : length block₁ ≡ length b₁.block = length-copied b₁.block b₁.len d inside in
    let in_next : n < length block₁ = omega (arith, e.room) in
    let no_wrap : add_size b₁.len (length d) ≡ n = omega (arith, e.bound) in
    let size₂ : length (set block₁ n 0) ≡ length b₁.block = length-set block₁ n 0 ∙ size₁ in
    (
      record b₁ { block = set block₁ n 0; len = n },
      rw (copy-ok b₁.block b₁.len d inside, no_wrap, store-ok block₁ n 0 in_next),
      (
        take-set_ge n n block₁ 0 (omega arith)
            ∙ take-copied b₁.block b₁.len d inside
            ∙ ap (λ t. t ++ d) (ap (λ k. take k b₁.block) e.same_len ∙ e.same_text),
        e.same_offset,
        record {
          valid = record {
            room = omega (arith, e.room, size₂);
            fits = omega arith;
            held = omega (arith, e.room, size₂);
            small = omega (arith, e.bound);
          };
          spare = more;
        },
        get_or-set_self block₁ n 0 1 in_next,
        omega (arith, e.bound),
      ),
    )

-- With memory to be had, `mboxBufCatLen` of fewer than 2 ^ 32 bytes, on a valid buffer with room for a
-- terminator within its capacity, which with the bytes and 256 more stays below 2 ^ 63, returns,
-- appends the bytes, leaves the offset alone, and leaves such a buffer again, terminated.
pub cat_len-text :
    (m : Allocator) (b : MboxBuf) (d : List ℕ)
    → Grants m
    → IsRoomy b
    → b.capacity + length d + 256 < 2 ^ 63
    → length d < 2 ^ 32
    → Gives
        (cat_len m b d)
        λ b'. (text b' ≡ text b ++ d) × (b'.offset ≡ b.offset) × IsRoomy b' × IsTerminated b'
cat_len-text m b d g r small fit =
    let (b', run, (text', offset', roomy, ended, _)) = cat_len-grown m b d g r small fit in
    (b', run, (text', offset', roomy, ended))

-- With memory to be had, on a valid buffer whose text fills its capacity, as `mboxBufDup` leaves it,
-- `mboxBufCatLen` of at least 256 and fewer than 2 ^ 32 bytes, which with the capacity stay below 2 ^ 63,
-- grows the block to just the text and the bytes to add, copies them behind the text, which fills the
-- block, and faults with its terminator, one byte behind the block.
pub cat_len-overrun :
    (m : Allocator) (b : MboxBuf) (d : List ℕ)
    → Grants m
    → IsValid b
    → b.len ≡ b.capacity
    → 256 ≤ length d
    → length d < 2 ^ 32
    → b.capacity + length d < 2 ^ 63
    → (b' : MboxBuf) × (block : List ℕ) × ((extend_buffer_if_needed m b (length d)).1 ≡ b')
      × (length b'.block ≡ b.len + length d)
      × (b'.capacity ≡ b.capacity + length d)
      × (b'.len ≡ b.len)
      × (text b' ≡ text b)
      × (copy b'.block b.len d ≡ ok block)
      × (take (b.len + length d) block ≡ text b ++ d)
      × (length block ≡ b.len + length d)
      × (store block (b.len + length d) 0 ≡ fault)
      × (cat_len m b d ≡ fault)
unfolding cat_len
cat_len-overrun m b d g v full long fit small =
    let grown = extend_tight m b v (length d) g full long fit in
    let x = extend_buffer_if_needed-Extends m b v (length d) g fit in
    let b' : MboxBuf = (extend_buffer_if_needed m b (length d)).1 in
    let n = b.len + length d in
    let size : length b'.block ≡ n =
      ap (λ c. length c.block) grown
      ∙ length-realloc m b.block (b.capacity + length d)
      ∙ omega arith in
    let cap : b'.capacity ≡ b.capacity + length d = ap (λ c. c.capacity) grown in
    let inside : b.len + length d ≤ length b'.block = omega arith in
    let block = copied b'.block b.len d in
    let copy_size = length-copied b'.block b.len d inside ∙ size in
    let behind = store_fault block n 0 (omega arith) in
    let no_wrap : add_size b.len (length d) ≡ n = omega arith in
    (
      b',
      block,
      refl,
      size,
      cap,
      x.same_len,
      ap (λ k. take k b'.block) x.same_len ∙ x.same_text,
      copy-ok b'.block b.len d inside,
      take-copied b'.block b.len d inside ∙ ap (λ t. t ++ d) x.same_text,
      copy_size,
      behind,
      rw (x.same_len, copy-ok b'.block b.len d inside, no_wrap, behind) refl,
    )

-- `mboxBufUnPutChar` on a text of at least two bytes takes the last one off, and returns the one
-- before it.
pub un_put_char-text :
    (b : MboxBuf) (t : List ℕ) (x y : ℕ)
    → IsValid b
    → text b ≡ t ++ x ∷ y ∷ []
    → (b' : MboxBuf) × (un_put_char b ≡ ok (x, b'))
      × (text b' ≡ t ++ x ∷ [])
      × IsValid b'
      × IsTerminated b'
unfolding un_put_char
un_put_char-text b t x y v e =
    let n = length t + 1 in
    let two : b.len ≡ length t + 2 =
      omega
        (arith, length-take b.len b.block, ap (λ s. length s) e, length-append t (x ∷ y ∷ [])) in
    let back₂ : sub_size b.len 2 ≡ length t = omega arith in
    let back₁ : sub_size b.len 1 ≡ n = omega arith in
    let got : get_or b.block (length t) 0 ≡ x =
      sym (get_or-take b.len (length t) b.block 0 (omega arith))
      ∙ ap (λ s. get_or s (length t) 0) e
      ∙ get_or-append_at t (y ∷ []) x 0 in
    let size = length-set b.block n 0 in
    (
      record b { block = set b.block n 0; len = n },
      rw (
        ne→== b.len 0 (omega arith),
        back₂,
        read-ok b.block (length t) (omega arith),
        got,
        back₁,
        store-ok b.block n 0 (omega arith),
      ),
      take-set_ge n n b.block 0 (omega arith)
          ∙ sym (take-take n b.len b.block (omega arith))
          ∙ ap (λ s. take n s) e
          ∙ take-append_snoc t x (y ∷ []),
      record {
        room = omega (arith, size);
        fits = omega arith;
        held = omega (arith, size);
        small = v.small;
      },
      get_or-set_self b.block n 0 1 (omega arith),
    )

-- On a text of one byte, `mboxBufUnPutChar` reads before the block.
pub un_put_char_single :
    (b : MboxBuf) → IsValid b → length b.block < 2 ^ 63 → b.len ≡ 1 → un_put_char b ≡ fault
unfolding un_put_char
un_put_char_single b v small one = rw (one, read_fault b.block (sub_size 1 2) (omega arith))
