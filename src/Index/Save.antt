-- ===== src/Index/Save.antt =====
-- `mboxIdxSave` writes the text of the index file.
use libmbox.Base.{
  ℕ, zero, suc, ◌+◌, ◌*◌, ◌%◌, ◌^◌, ◌≤◌, ◌<◌, ◌≡◌, refl, sym, ap, ◌∙◌, true, List, [], ◌∷◌, ◌++◌,
  append-nil, append_assoc, arith, some, ltb, ◌==◌, Bool-cases, inl, inr, ◌≢◌, ltb→lt, ltb→ge,
  ne→==, length, take, drop, length-append, length-take, length-set, set,
}
use libmbox.Base.Outcome.{ok}
use libmbox.Buf.{MboxBuf, set_len, set_offset, alloc}
use libmbox.Buf.Append.{cat_len-grown}
use libmbox.Buf.Escape.{cat_printf, cat_printf-eq}
use libmbox.Buf.Memory.{Allocator, length-malloc, fetch-ok, store-ok}
use libmbox.Buf.Valid.{Grants, IsRoomy, text}
use libmbox.Index.{try_write, write_at, index_line, save_loop, save}
use libmbox.Index.Decimal.{print_size}
use libmbox.Index.Load.{index_text, length-print_size}
use libmbox.Io.{Os, MboxIoCtx, io_ok, io_write, io_write_buf, io_fsync, io_new}

-- Every write is whole, and every flush succeeds.
abbrev pub Writes : Os → Type 0
Writes os =
    ((bytes : List ℕ) (offset : ℕ) → os.pwrite bytes offset ≡ some (length bytes))
    × (os.fsync ≡ true)

pub take_full : (n : ℕ) (xs : List ℕ) → length xs ≤ n → take n xs ≡ xs
take_full zero [] le = refl
take_full (suc n) [] le = refl
take_full zero (x ∷ xs) le = absurd (omega arith)
take_full (suc n) (x ∷ xs) le = ap (λ t. x ∷ t) (take_full n xs (omega arith))

drop_full : (n : ℕ) (xs : List ℕ) → length xs ≤ n → drop n xs ≡ []
drop_full zero [] le = refl
drop_full (suc n) [] le = refl
drop_full zero (x ∷ xs) le = absurd (omega arith)
drop_full (suc n) (x ∷ xs) le = drop_full n xs (omega arith)

write_at_end : (file bytes : List ℕ) → write_at file (length file) bytes ≡ file ++ bytes
unfolding write_at
write_at_end file bytes =
    rw
      (
        take_full (length file) file (omega arith),
        drop_full (length file + length bytes) file (omega arith),
        append-nil bytes,
      )
      refl

-- What a write of the buffer gives.
abbrev Sent : Os → List ℕ → MboxIoCtx → Type 0
Sent os file ctx =
    (ctx' : MboxIoCtx) × (try_write os file ctx ≡ ok (io_ok, file ++ text ctx.buf, ctx'))
    × (ctx'.err ≡ io_ok)
    × (ctx'.file_offset ≡ length (file ++ text ctx.buf))
    × IsRoomy ctx'.buf
    × (ctx'.buf.len ≡ 0)
    × (ctx'.buf.capacity ≡ ctx.buf.capacity)

take_all : (n : ℕ) (xs : List ℕ) → n ≤ length xs → length (take n xs) ≡ n
take_all n xs le = omega (arith, length-take n xs)

io_write_buf-whole :
    (os : Os) (ctx : MboxIoCtx)
    → Writes os
    → IsRoomy ctx.buf
    → 0 < ctx.buf.len
    → io_write_buf os ctx ctx.buf.len ctx.file_offset ≡ ok (some ctx.buf.len, ctx)
unfolding io_write_buf io_write
io_write_buf-whole os ctx (whole, _) roomy pos =
    let b = ctx.buf in
    let held : b.len ≤ length b.block = omega (arith, roomy.valid.held) in
    rw
      (
        fetch-ok b.block 0 b.len (omega arith),
        io_write,
        whole (take b.len (drop 0 b.block)) ctx.file_offset,
        take_all b.len b.block held,
        ne→== b.len 0 (λ e. absurd (omega arith)),
      )
      refl

try_write-Sent :
    (os : Os) (file : List ℕ) (ctx : MboxIoCtx)
    → Writes os
    → ctx.err ≡ io_ok
    → ctx.file_offset ≡ length file
    → IsRoomy ctx.buf
    → 0 < ctx.buf.len
    → Sent os file ctx
unfolding try_write io_fsync set_len set_offset
try_write-Sent os file ctx (whole, synced) err at_end roomy pos =
    let b = ctx.buf in
    let v = roomy.valid in
    let held : b.len ≤ length b.block = omega (arith, v.held) in
    let size : length (text b) ≡ b.len = take_all b.len b.block held in
    let fetched = fetch-ok b.block 0 b.len (omega arith) in
    let stored = store-ok b.block 0 0 (omega (arith, v.held)) in
    (
      record ctx {
        err = io_ok;
        file_offset = ctx.file_offset + b.len;
        file_size = ctx.file_size + b.len;
        buf = record b { block = set b.block 0 0; len = 0; offset = 0 };
      },
      rw
          (
            io_write_buf-whole os ctx (whole, synced) roomy pos,
            fetched,
            err,
            synced,
            stored,
            at_end,
            write_at_end file (text b),
          )
          refl,
      refl,
      omega (arith, length-append file (text b)),
      record {
        valid = record {
          room = omega (arith, v.room, length-set b.block 0 0);
          fits = omega arith;
          held = omega (arith, v.held, length-set b.block 0 0);
          small = v.small;
        };
        spare = omega (arith, roomy.spare);
      },
      refl,
      refl,
    )

index_line-index_text :
    (s e : ℕ) (l : List (ℕ × ℕ)) → index_text ((s, e) ∷ l) ≡ index_line s e ++ index_text l
unfolding index_line index_text
index_line-index_text s e l = simp append_assoc

length-index_line : (s e : ℕ) → length (index_line s e) ≤ 42 × 2 ≤ length (index_line s e)
unfolding index_line
length-index_line s e =
    let whole = length-append (print_size s ++ b' ' ∷ []) (print_size e ++ b'\n' ∷ []) in
    let left = length-append (print_size s) (b' ' ∷ []) in
    let right = length-append (print_size e) (b'\n' ∷ []) in
    (omega (arith, length-print_size s, length-print_size e), omega arith)

text_empty : (b : MboxBuf) → b.len ≡ 0 → text b ≡ []
text_empty b e = ap (λ n. take n b.block) e

-- What the loop gives from here on.
abbrev Saved : Allocator → (ℕ → Os) → List (ℕ × ℕ) → List ℕ → MboxIoCtx → Type 0
Saved m os l file ctx =
    (ctx' : MboxIoCtx) × (save_loop m os l file ctx
      ≡ ok (io_ok, (file ++ text ctx.buf) ++ index_text l, ctx'))

joined :
    (file t line rest t' : List ℕ)
    → t' ≡ t ++ line
    → (file ++ t') ++ rest ≡ (file ++ t) ++ (line ++ rest)
joined file t line rest t' e = rw e (simp append_assoc)

module _ (m : Allocator) (os : ℕ → Os) (g : Grants m) (whole : (i : ℕ) → Writes (os i)) where
  printed :
      (b : MboxBuf) (s e : ℕ)
      → IsRoomy b
      → b.capacity + 512 < 2 ^ 63
      → (b' : MboxBuf) × (cat_printf m b 8 (index_line s e) ≡ ok b')
        × (text b' ≡ text b ++ index_line s e)
        × IsRoomy b'
        × (b'.capacity ≤ b.capacity + 256)
        × (0 < b'.len)
  printed b s e roomy small =
      let (most, some_bytes) = length-index_line s e in
      let (b', run, (text', _, roomy', _, bound)) =
        cat_len-grown m b (index_line s e) g roomy (omega arith) (omega arith) in
      (
        b',
        cat_printf-eq m g b 8 (index_line s e) (omega arith) ∙ run,
        text',
        roomy',
        omega arith,
        omega (
          arith,
          ap length text',
          length-append (text b) (index_line s e),
          length-take b'.len b'.block,
        ),
      )

  save_loop-Saved :
      (l : List (ℕ × ℕ)) (file : List ℕ) (ctx : MboxIoCtx)
      → ctx.err ≡ io_ok
      → ctx.file_offset ≡ length file
      → IsRoomy ctx.buf
      → ctx.buf.capacity + 256 * length l + 512 < 2 ^ 63
      → Saved m os l file ctx
  unfolding save_loop index_text
  save_loop-Saved [] file ctx err at_end roomy small = elim (Bool-cases (ltb 0 ctx.buf.len)) [
    | inl e ↦
        let (ctx', run, _, _, _, _, _) =
          try_write-Sent (os 0) file ctx (whole 0) err at_end roomy (ltb→lt 0 ctx.buf.len e) in
        (ctx', rw (e, append-nil (file ++ text ctx.buf)) run)
    | inr e ↦
        let none_left = text_empty ctx.buf (omega (arith, ltb→ge 0 ctx.buf.len e)) in
        (ctx, rw (e, none_left, append-nil file, append-nil file) refl)
  ]
  save_loop-Saved ((s, e) ∷ l) file ctx err at_end roomy small =
      let (b, run, text', roomy', bound, pos) = printed ctx.buf s e roomy (omega arith) in
      let printed_ctx : MboxIoCtx = record ctx { buf = b } in
      let goal =
        joined file (text ctx.buf) (index_line s e) (index_text l) (text b) text'
        ∙ ap (λ t. (file ++ text ctx.buf) ++ t) (sym (index_line-index_text s e l)) in
      elim (Bool-cases (b.len % 8192 == 0)) [
        | inl full ↦
            let (ctx₁, sent, err₁, at_end₁, roomy₁, empty, same) =
              try_write-Sent (os (length l + 1)) file printed_ctx (whole (length l + 1)) err at_end
                roomy' pos in
            let (ctx₂, rest) =
              save_loop-Saved l (file ++ text b) ctx₁ err₁ at_end₁ roomy₁ (omega arith) in
            (
              ctx₂,
              rw (run, full, sent, rest, text_empty ctx₁.buf empty, append-nil (file ++ text b))
                  (ap (λ t. ok (io_ok, t, ctx₂)) goal),
            )
        | inr more ↦
            let (ctx₂, rest) = save_loop-Saved l file printed_ctx err at_end roomy' (omega arith) in
            (ctx₂, rw (run, more, rest) (ap (λ t. ok (io_ok, t, ctx₂)) goal))
      ]

-- With memory to be had and every write whole, `mboxIdxSave` of a list that is not empty, and
-- so short that 256 bytes for each message stay below 2 ^ 63, into a file that can be opened,
-- returns 0, and the file then holds one line "start end" for each message, in the order of the
-- sort, however full the buffer gets on the way.
pub save-index_text :
    (m : Allocator) (os : ℕ → Os) (sort : List (ℕ × ℕ) → List (ℕ × ℕ)) (l : List (ℕ × ℕ))
    (file : List ℕ)
    → Grants m
    → ((i : ℕ) → Writes (os i))
    → l ≢ []
    → 256 * length (sort l) + 400000 < 2 ^ 63
    → save m os true sort l file ≡ ok (io_ok, index_text (sort l))
unfolding save io_new alloc
save-index_text m os sort [] file g whole ne small = absurd (ne refl)
save-index_text m os sort (x ∷ l) file g whole ne small =
    let size = length-malloc m 300010 in
    let (ctx, run) =
      save_loop-Saved m os g whole (sort (x ∷ l)) [] (io_new m 0) refl refl
        (record {
          valid = record {
            room = omega (arith, size);
            fits = omega arith;
            held = omega (arith, size);
            small = omega arith;
          };
          spare = omega arith;
        })
        (omega arith) in
    rw run refl
