-- ===== src/Io/Read.antt =====
-- What `mboxIORead` does to a buffer that it fills from its end on.
use Prim.Native.Nat.{max}
use libmbox.Base.{
  ℕ, ◌+◌, ◌^◌, ◌≤◌, ◌<◌, ◌≡◌, refl, ap, ◌∙◌, List, [], ◌∷◌, ◌++◌, Option, none, some, arith, length,
  take, set, length-set, take-set_ge, get_or, get_or-set_self, ◌⊎◌, inl, inr,
}
use libmbox.Base.Outcome.{ok}
use libmbox.Io.{Os, MboxIoCtx, IoErr, io_ok, io_eof, io_read_err, io_read, fill}
use libmbox.Buf.{MboxBuf, extend_buffer_if_needed, set_len}
use libmbox.Buf.Memory.{Allocator, copy-ok, copied, length-copied, take-copied, store-ok}
use libmbox.Buf.Valid.{
  Grants, IsRoomy, text, Extends, extend_buffer_if_needed-Extends, extend_buffer_if_needed-Tight,
}

-- A buffer after a read of the bytes `d` behind its text.
pub record Filled (b : MboxBuf) (d : List ℕ) (size : ℕ) (b' : MboxBuf) : Type 0 where
  pub text_lem : text b' ≡ text b ++ d
  pub len_lem : b'.len ≡ b.len + length d
  pub offset_lem : b'.offset ≡ b.offset
  pub roomy : IsRoomy b'
  pub ended : get_or b'.block b'.len 1 ≡ 0
  pub bound : b'.capacity ≤ b.capacity + max size 256
  pub tight : (b'.capacity ≡ b.capacity) ⊎ (b.capacity ≤ b.len + 1 + size)

pread_cases :
    (o : Option (List ℕ))
    → (o ≡ none) ⊎ (o ≡ some []) ⊎ ((c : ℕ) × (cs : List ℕ) × (o ≡ some (c ∷ cs)))
pread_cases none = inl refl
pread_cases (some []) = inr (inl refl)
pread_cases (some (c ∷ cs)) = inr (inr (c, cs, refl))

-- The copy and the terminator, in a buffer that has been extended.
filled :
    (b b₁ : MboxBuf) (size : ℕ) (d : List ℕ)
    → Extends b size b₁
    → (b₁.capacity ≡ b.capacity) ⊎ (b.capacity ≤ b.len + 1 + size)
    → IsRoomy b
    → length d ≤ size
    → b.capacity + size + 256 < 2 ^ 63
    → (b' : MboxBuf) × (fill b₁ b.len d ≡ ok b') × Filled b d size b'
unfolding fill set_len
filled b b₁ size d x tight r most small =
    let v = r.valid in
    let n = b.len + length d in
    let inside : b.len + length d ≤ length b₁.block =
      omega (arith, x.room, x.enough, x.bigger, r.spare, v.fits) in
    let block₁ = copied b₁.block b.len d in
    let size₁ : length block₁ ≡ length b₁.block = length-copied b₁.block b.len d inside in
    let more : n < b₁.capacity = omega (arith, x.enough, r.spare) in
    let size₂ : length (set block₁ n 0) ≡ length b₁.block = length-set block₁ n 0 ∙ size₁ in
    (
      record b₁ { block = set block₁ n 0; len = n },
      rw (copy-ok b₁.block b.len d inside, store-ok block₁ n 0 (omega (arith, x.room))) refl,
      record {
        text_lem =
            take-set_ge n n block₁ 0 (omega arith)
            ∙ take-copied b₁.block b.len d inside
            ∙ ap (λ t. t ++ d) x.same_text;
        len_lem = refl;
        offset_lem = x.same_offset;
        roomy = record {
          valid = record {
            room = omega (arith, x.room, size₂);
            fits = omega arith;
            held = omega (arith, x.room, size₂);
            small = omega (arith, x.bound);
          };
          spare = more;
        };
        ended = get_or-set_self block₁ n 0 1 (omega (arith, x.room));
        bound = x.bound;
        tight = tight;
      },
    )

-- A buffer after a read that has given nothing.
abbrev pub Unfilled : MboxBuf → MboxBuf → Type 0
Unfilled b b' =
    (text b' ≡ text b) × (b'.offset ≡ b.offset) × (b'.len ≡ b.len) × (b'.len < length b'.block)

-- What a read leaves, by what `pread` has returned.
abbrev pub ReadResult : MboxBuf → ℕ → Option (List ℕ) → Option ℕ → IoErr → MboxBuf → Type 0
ReadResult b size none r e b' = (r ≡ none) × (e ≡ io_read_err) × Unfilled b b'
ReadResult b size (some []) r e b' = (r ≡ some 0) × (e ≡ io_eof) × Unfilled b b'
ReadResult b size (some (c ∷ cs)) r e b' =
    (r ≡ some (length (c ∷ cs))) × (e ≡ io_ok) × Filled b (c ∷ cs) size b'

-- With memory to be had, for sizes below 2 ^ 32 and a capacity that with the size and 256 more stays below
-- 2 ^ 63, where `pread` gives at most as many bytes as it is asked for, `mboxIORead` behind the text of
-- a valid buffer with room for a terminator within its capacity returns what `pread` does: the bytes it
-- gives are appended to the text, which is terminated,
-- and the number is returned; at the end of the file and after an error the code says so, and
-- text and offset are as before.
pub io_read-Filled :
    (m : Allocator) (os : Os) (ctx : MboxIoCtx) (size offset : ℕ)
    → Grants m
    → IsRoomy ctx.buf
    → ctx.buf.capacity + size + 256 < 2 ^ 63
    → size < 2 ^ 32
    → ((d : List ℕ) → os.pread size offset ≡ some d → length d ≤ size)
    → (r : Option ℕ) × (b' : MboxBuf) × (e : IoErr) × (io_read m os ctx size ctx.buf.len offset
        ≡ ok (r, record ctx { err = e; buf = b' }))
      × ReadResult ctx.buf size (os.pread size offset) r e b'
unfolding io_read
io_read-Filled m os ctx size offset g r small fit short =
    let b = ctx.buf in
    let v = r.valid in
    let x = extend_buffer_if_needed-Extends m b v size g fit in
    let b₁ = (extend_buffer_if_needed m b size).1 in
    let tight = extend_buffer_if_needed-Tight m b v size g fit in
    let held : b₁.len < length b₁.block =
      omega (arith, x.room, x.enough, x.bigger, x.same_len, r.spare, v.fits) in
    let kept : text b₁ ≡ text b = ap (λ k. take k b₁.block) x.same_len ∙ x.same_text in
    elim (pread_cases (os.pread size offset)) [
      | inl e ↦ (
        none,
        b₁,
        io_read_err,
        rw (io_read, e) refl,
        rw e (refl, refl, (kept, x.same_offset, x.same_len, held)),
      )
      | inr (inl e) ↦ (
        some 0,
        b₁,
        io_eof,
        rw (io_read, e) refl,
        rw e (refl, refl, (kept, x.same_offset, x.same_len, held)),
      )
      | inr (inr (c, cs, e)) ↦
          let d : List ℕ = c ∷ cs in
          let most : length d ≤ size = short d e in
          let (b', run, f) = filled b b₁ size d x tight r most (omega arith) in
          (some (length d), b', io_ok, rw (io_read, e, run) refl, rw e (refl, refl, f))
    ]
