-- ===== src/Parser/Reader/Endless.antt =====
-- `mboxParserCtxSeekStart` where the front of the file holds nothing of what it looks for.
use libmbox.Base.{
  ℕ, zero, suc, ◌+◌, ◌-◌, ◌≤◌, ◌<◌, ◌≡◌, ◌≢◌, refl, sym, ◌∙◌, inl, inr, false, List, ◌∷◌, none,
  some, arith, ltb, ◌==◌, ne→==, Bool-cases, length, byte_at, set, drop, length-set,
  get_or-set_self, get_or-set_ne,
}
use libmbox.Base.Outcome.{ok, out_of_fuel}
use libmbox.Buf.{MboxBuf, extend_buffer_if_needed, set_len}
use libmbox.Buf.CString.{get_or-append_left}
use libmbox.Buf.Memory.{Allocator, copied, copy-ok, length-copied, store-ok}
use libmbox.Buf.Valid.{
  Grants, IsRoomy, extend_buffer_if_needed-Extends, extend_buffer_if_needed-Tight,
}
use libmbox.Io.{Os, MboxIoCtx, io_ok, io_read, io_read_size, fill}
use libmbox.Parser.{MboxParserCtx, find_from, seek_start_loop, seek_start}
use libmbox.Parser.Reader.{match_bytes-decides}
use libmbox.Parser.SeekStart.{from_mark, NoFrom, mark_byte}

-- A buffer that a read of `io_read_size` bytes at its front can go on with.
pub record IsReadable (b : MboxBuf) : Type 0 where
  pub roomy : IsRoomy b
  pub short : b.len ≤ io_read_size
  pub small : b.capacity ≤ 1000000

-- It holds just these bytes, terminated.
record Holds (d : List ℕ) (b : MboxBuf) : Type 0 where
  pub len : b.len ≡ length d
  pub same : (k : ℕ) → k < length d → byte_at b.block k ≡ byte_at d k
  pub nul : byte_at b.block b.len ≡ 0

-- Bytes that are stored over the front of a block.
fill-Holds :
    (b : MboxBuf) (d : List ℕ)
    → length d < b.capacity
    → b.capacity ≤ length b.block
    → b.capacity ≤ 1000000
    → length d ≤ io_read_size
    → (b' : MboxBuf) × (fill b 0 d ≡ ok b') × Holds d b' × IsReadable b'
unfolding fill set_len
fill-Holds b d fits room small most =
    let block = copied b.block 0 d in
    let size = length-copied b.block 0 d (omega arith) in
    let done = set block (0 + length d) 0 in
    let size' = length-set block (0 + length d) 0 in
    (
      record b { block = done; len = 0 + length d },
      rw (copy-ok b.block 0 d (omega arith), store-ok block (0 + length d) 0 (omega arith)) refl,
      record {
        len = omega arith;
        same = λ k lt.
            get_or-set_ne block (0 + length d) k 0 0 (λ e. absurd (omega arith))
            ∙ get_or-append_left d (drop (0 + length d) b.block) k lt;
        nul = get_or-set_self block (0 + length d) 0 0 (omega arith);
      },
      record {
        roomy = record {
          valid = record {
            room = omega arith;
            fits = omega arith;
            held = omega arith;
            small = omega arith;
          };
          spare = omega arith;
        };
        short = omega arith;
        small = small;
      },
    )

-- A read at the front of the file over what the buffer holds.
io_read_again :
    (m : Allocator) (os : Os) (io : MboxIoCtx) (c : ℕ) (cs : List ℕ)
    → Grants m
    → os.pread io_read_size 0 ≡ some (c ∷ cs)
    → length (c ∷ cs) ≤ io_read_size
    → IsReadable io.buf
    → (b : MboxBuf) × (io_read m os io io_read_size 0 0
        ≡ ok (some (length (c ∷ cs)), record io { err = io_ok; buf = b }))
      × Holds (c ∷ cs) b
      × IsReadable b
unfolding io_read
io_read_again m os io c cs g here most r =
    let v = r.roomy.valid in
    let x = extend_buffer_if_needed-Extends m io.buf v io_read_size g (omega arith) in
    let tight = extend_buffer_if_needed-Tight m io.buf v io_read_size g (omega arith) in
    let b₁ = (extend_buffer_if_needed m io.buf io_read_size).1 in
    let (b, run, holds, readable) =
      fill-Holds b₁ (c ∷ cs) (omega (arith, x.enough, r.roomy.spare)) x.room
        (omega (arith, tight, x.bound, r.small, r.short)) most in
    (b, rw (io_read, here, run) refl, holds, readable)

-- The search through bytes without what is looked for ends without a place.
find_from-none :
    (fuel i : ℕ) (b : MboxBuf) (d : List ℕ)
    → Holds d b
    → b.len < length b.block
    → NoFrom d
    → i ≤ b.len
    → b.len < i + fuel
    → find_from fuel b false i ≡ ok none
unfolding find_from
find_from-none zero i b d holds room none_there le enough = absurd (omega arith)
find_from-none (suc fuel) i b d holds room none_there le enough = elim (Bool-cases (ltb i b.len)) [
  | inr end ↦ rw end refl
  | inl more ↦ elim (match_bytes-decides b.block b.len i from_mark room holds.nul mark_byte le) [
    | inl (run, inside, all) ↦ absurd (
        none_there i (omega (arith, holds.len))
          (λ k small. sym (holds.same (i + k) (omega (arith, holds.len))) ∙ all k small))
    | inr (run, _) ↦
        rw (more, run)
          (find_from-none fuel (i + 1) b d holds room none_there (ground arith) (omega arith))
  ]
]

module _ (m : Allocator) (g : Grants m) (os : ℕ → Os) (c : ℕ) (cs : List ℕ)
    (reads : (i : ℕ) → (os i).pread io_read_size 0 ≡ some (c ∷ cs))
    (most : length (c ∷ cs) ≤ io_read_size) (none_there : NoFrom (c ∷ cs)) where
  seek_start_loop_endless :
      (fuel offset : ℕ) (io : MboxIoCtx)
      → offset ≤ io_read_size
      → io.file_offset ≢ 0
      → IsReadable io.buf
      → seek_start_loop m fuel os offset io ≡ out_of_fuel
  unfolding seek_start_loop
  seek_start_loop_endless zero offset io le behind r = refl
  seek_start_loop_endless (suc fuel) offset io le behind r =
      let front : offset - io_read_size ≡ 0 = omega arith in
      let (b, run, holds, readable) = io_read_again m (os fuel) io c cs g (reads fuel) most r in
      let found : (length (c ∷ cs) == 0) ≡ false =
        ne→== (length (c ∷ cs)) 0 (λ e. absurd (omega arith)) in
      let nothing =
        find_from-none (b.len + 1) 0 b (c ∷ cs) holds readable.roomy.valid.held none_there
          (omega arith) (omega arith) in
      let again =
        seek_start_loop_endless fuel (offset - io_read_size) (record io { err = io_ok; buf = b })
          (omega arith) behind readable in
      rw (front, run, found, ne→== io.file_offset 0 behind, nothing) again

  -- Where every read of `io_read_size` bytes at offset 0 gives the same bytes, at least one and at most
  -- as many as asked for, with no line break followed by "From ", memory is to be had, and the reader's
  -- buffer is valid with room for a terminator, with a text of at most `io_read_size` bytes and a
  -- capacity of at most 1000000, the search for the start of a range that begins behind offset 0 and no
  -- later than `io_read_size` goes on for ever: whatever number of rounds it is given, it uses them
  -- all up, each without a fault, and does not return.
  pub seek_start_endless :
      (fuel : ℕ) (ctx : MboxParserCtx)
      → ctx.ioctx.file_offset ≤ io_read_size
      → ctx.ioctx.file_offset ≢ 0
      → IsReadable ctx.ioctx.buf
      → seek_start m fuel os ctx ≡ out_of_fuel
  unfolding seek_start
  seek_start_endless fuel ctx le behind r =
      rw (seek_start_loop_endless fuel ctx.ioctx.file_offset ctx.ioctx le behind r) refl
