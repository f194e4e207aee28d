-- ===== src/Parser/Messages.antt =====
-- The messages that one reader takes from its range.
use libmbox.Base.{
  ℕ, zero, suc, ◌+◌, ◌≤◌, ◌≡◌, refl, sym, ap, subst, ◌∙◌, ◌⊎◌, inl, inr, Bool, true, false, not,
  ◌||◌, ◌&&◌, List, [], ◌∷◌, Option, none, some, ltb, leb, ◌==◌, if◌then◌else◌, length, Bool-cases,
  take, drop, length-take, length-drop, arith,
}
use libmbox.Base.Outcome.{Outcome, ok, fault, out_of_fuel, blocked, ◌>>=◌}
use libmbox.Buf.{
  MboxBuf, extend_buffer_if_needed, set_len, set_offset, slice, dup_raw, alloc, set_capacity,
  sub_size, add_size,
}
use libmbox.Buf.Memory.{Allocator, read, fetch, copy, store}
use libmbox.Io.{Os, MboxIoCtx, io_read, io_read_size, fill, count_of, is_io_ok, is_io_eof}
use libmbox.Parser.{MboxParserCtx, MboxIoMsg, seek_headers, seek_next_from_line, get_next_message}
use libmbox.Parser.Scan.{can_parse_headers, find_newline, is_from_line}

-- Where the call returns, the reader stands at the place `n`.
abbrev Keeps : {A : Type 0} → ℕ → Outcome (A × MboxIoCtx) → Type 0
Keeps {A} n r = (a : A) (io : MboxIoCtx) → r ≡ ok (a, io) → io.offset ≡ n

offset_of : {A : Type 0} → ℕ → Outcome (A × MboxIoCtx) → ℕ
offset_of n (ok (a, io)) = io.offset
offset_of n fault = n
offset_of n out_of_fuel = n
offset_of n blocked = n

ok-Keeps : {A : Type 0} (n : ℕ) (a : A) (io : MboxIoCtx) → io.offset ≡ n → Keeps n (ok (a, io))
unfolding offset_of
ok-Keeps n a io same = λ a' io' e. sym (ap (offset_of n) e) ∙ same

bind-Keeps :
    {A B : Type 0} (n : ℕ) (r : Outcome A) (k : A → Outcome (B × MboxIoCtx))
    → ((a : A) → r ≡ ok a → Keeps n (k a))
    → Keeps n (r >>= k)
bind-Keeps n (ok a) k h = h a refl
bind-Keeps n fault k h = λ b io e. cc
bind-Keeps n out_of_fuel k h = λ b io e. cc
bind-Keeps n blocked k h = λ b io e. cc

if-Keeps :
    {A : Type 0} (n : ℕ) (t : Bool) (r s : Outcome (A × MboxIoCtx))
    → Keeps n r
    → Keeps n s
    → Keeps n (if t then r else s)
if-Keeps n true r s h k = h
if-Keeps n false r s h k = k

pread_result :
    (o : Option (List ℕ))
    → (o ≡ none) ⊎ (o ≡ some []) ⊎ ((c : ℕ) × (cs : List ℕ) × (o ≡ some (c ∷ cs)))
pread_result none = inl refl
pread_result (some []) = inr (inl refl)
pread_result (some (c ∷ cs)) = inr (inr (c, cs, refl))

io_read-Keeps :
    (m : Allocator) (os : Os) (ctx : MboxIoCtx) (size buf_offset offset n : ℕ)
    → ctx.offset ≡ n
    → Keeps n (io_read m os ctx size buf_offset offset)
unfolding io_read
io_read-Keeps m os ctx size buf_offset offset n same = elim (pread_result (os.pread size offset)) [
  | inl e ↦ rw (io_read, e) (ok-Keeps n _ _ same)
  | inr (inl e) ↦ rw (io_read, e) (ok-Keeps n _ _ same)
  | inr (inr (c, cs, e)) ↦
      rw (io_read, e)
        (bind-Keeps n (fill (extend_buffer_if_needed m ctx.buf size).1 buf_offset (c ∷ cs)) _
          (λ buf run. ok-Keeps n _ _ same))
]

module _ (m : Allocator) where
  seek_headers-Keeps :
      (fuel : ℕ) (os : ℕ → Os) (ctx : MboxIoCtx) (n : ℕ)
      → ctx.offset ≡ n
      → Keeps n (seek_headers m fuel os ctx)
  unfolding seek_headers
  seek_headers-Keeps zero os ctx n same = λ a io e. cc
  seek_headers-Keeps (suc fuel) os ctx n same =
      bind-Keeps n (can_parse_headers ctx.buf) _ (λ (found, buf) run.
        let ctx₁ : MboxIoCtx = record ctx { buf = buf } in
        if-Keeps n found _ _ (ok-Keeps n true ctx₁ same) (
          bind-Keeps n (read buf.block 0) _ (λ first run.
            if-Keeps n ((first == 0) || leb buf.len (buf.offset + 1)) _ _
              (bind-Keeps n (io_read m (os fuel) ctx₁ io_read_size buf.len ctx.file_offset) _
                (λ (rbytes, ctx₂) run.
                  let kept : ctx₂.offset ≡ n =
                    io_read-Keeps m (os fuel) ctx₁ io_read_size buf.len ctx.file_offset n same
                      rbytes ctx₂ run in
                  if-Keeps n ((count_of rbytes == 0) || not (is_io_ok ctx₂.err)) _ _
                    (ok-Keeps n false ctx₂ kept)
                    (seek_headers-Keeps fuel os
                      (record ctx₂ { file_offset = ctx₂.file_offset + count_of rbytes }) n kept)))
              (seek_headers-Keeps fuel os ctx₁ n same))))

  seek_next_from_line-Keeps :
      (fuel : ℕ) (os : ℕ → Os) (ctx : MboxIoCtx) (n : ℕ)
      → ctx.offset ≡ n
      → Keeps n (seek_next_from_line m fuel os ctx)
  unfolding seek_next_from_line
  seek_next_from_line-Keeps zero os ctx n same = λ a io e. cc
  seek_next_from_line-Keeps (suc fuel) os ctx n same =
      bind-Keeps n (find_newline (length ctx.buf.block + 1) ctx.buf) _ (λ buf run.
        let ctx₁ : MboxIoCtx = record ctx { buf = buf } in
        let next : MboxIoCtx = record ctx₁ { buf = record buf { offset = buf.offset + 1 } } in
        bind-Keeps n (is_from_line buf.block buf.offset) _ (λ here run.
          if-Keeps n here _ _ (ok-Keeps n true next same) (
            if-Keeps n (leb buf.len (buf.offset + 10)) _ _
              (if-Keeps n (ltb ctx₁.end_offset ctx₁.file_offset) _ _ (ok-Keeps n false ctx₁ same) (
                bind-Keeps n (io_read m (os fuel) ctx₁ io_read_size buf.len ctx.file_offset) _
                  (λ (rbytes, ctx₂) run.
                    let kept : ctx₂.offset ≡ n =
                      io_read-Keeps m (os fuel) ctx₁ io_read_size buf.len ctx.file_offset n same
                        rbytes ctx₂ run in
                    let back : MboxBuf = record ctx₂.buf {
                      offset = add_size (sub_size ctx₂.buf.offset 1) 1;
                    } in
                    if-Keeps n ((count_of rbytes == 0) && is_io_eof ctx₂.err) _ _
                      (ok-Keeps n true ctx₂ kept)
                      (if-Keeps n (is_io_ok ctx₂.err) _ _
                        (seek_next_from_line-Keeps fuel os
                          (record ctx₂ {
                            file_offset = ctx₂.file_offset + count_of rbytes;
                            buf = back;
                          })
                          n kept)
                        (ok-Keeps n false ctx₂ kept)))))
              (seek_next_from_line-Keeps fuel os next n same))))

-- Where the call returns, what it returns has the property.
abbrev pub Ensures : {A : Type 0} → (A → Type 0) → Outcome A → Type 0
Ensures {A} P r = (a : A) → r ≡ ok a → P a

value_or : {A : Type 0} → A → Outcome A → A
value_or d (ok a) = a
value_or d fault = d
value_or d out_of_fuel = d
value_or d blocked = d

pub ok-Ensures : {A : Type 0} (P : A → Type 0) (a : A) → P a → Ensures P (ok a)
unfolding value_or
ok-Ensures P a p = λ b e. subst P (ap (value_or a) e) p

pub bind-Ensures :
    {A B : Type 0} (P : B → Type 0) (r : Outcome A) (k : A → Outcome B)
    → ((a : A) → r ≡ ok a → Ensures P (k a))
    → Ensures P (r >>= k)
bind-Ensures P (ok a) k h = h a refl
bind-Ensures P fault k h = λ b e. cc
bind-Ensures P out_of_fuel k h = λ b e. cc
bind-Ensures P blocked k h = λ b e. cc

pub if-Ensures :
    {A : Type 0} (P : A → Type 0) (t : Bool) (r s : Outcome A)
    → Ensures P r
    → Ensures P s
    → Ensures P (if t then r else s)
if-Ensures P true r s h k = h
if-Ensures P false r s h k = k

fetch-length : (block : List ℕ) (from n : ℕ) → Ensures (λ s. length s ≡ n) (fetch block from n)
unfolding fetch
fetch-length block from n = elim (Bool-cases (leb (from + n) (length block))) [
  | inl inside ↦
      let inside_le : from + n ≤ length block = ground arith in
      rw inside (
        ok-Ensures (λ s. length s ≡ n) (take n (drop from block))
          (omega (arith, inside_le, length-take n (drop from block), length-drop from block)))
  | inr outside ↦ rw outside (λ s e. cc)
]

set_len-length : (b : MboxBuf) (n : ℕ) → Ensures (λ b'. b'.len ≡ n) (set_len b n)
unfolding set_len
set_len-length b n =
    bind-Ensures (λ b'. b'.len ≡ n) (store b.block n 0) _
      (λ block run. ok-Ensures (λ b'. b'.len ≡ n) _ refl)

dup_raw-length :
    (m : Allocator) (s : List ℕ) (capacity : ℕ)
    → Ensures (λ b. b.len ≡ length s) (dup_raw m s capacity)
unfolding dup_raw set_capacity
dup_raw-length m s capacity =
    bind-Ensures (λ b. b.len ≡ length s) (copy (alloc m capacity).block 0 s) _
      (λ block run.
        bind-Ensures (λ b. b.len ≡ length s)
          (set_len (record (alloc m capacity) { block = block }) (length s)) _
          (λ dupe run'.
            ok-Ensures (λ b. b.len ≡ length s) (set_capacity dupe capacity)
              (set_len-length (record (alloc m capacity) { block = block }) (length s) dupe run')))

-- A message that starts at `n`, and the reader behind it; without a message the reader stays at `n`.
abbrev pub IsMessage : ℕ → Option MboxIoMsg × MboxParserCtx → Type 0
IsMessage n (none, ctx) = ctx.ioctx.offset ≡ n
IsMessage n (some msg, ctx) =
    (msg.start_offset ≡ n)
    × (msg.end_offset ≡ n + msg.buf.len)
    × (ctx.ioctx.offset ≡ msg.end_offset)

pub get_next_message-IsMessage :
    (m : Allocator) (fuel : ℕ) (os os' : ℕ → Os) (ctx : MboxParserCtx)
    → Ensures (IsMessage ctx.ioctx.offset) (get_next_message m fuel os os' ctx)
unfolding get_next_message set_offset
get_next_message-IsMessage m fuel os os' ctx =
    let P = IsMessage ctx.ioctx.offset in
    let io = ctx.ioctx in
    let n = io.offset in
    let newlen = sub_size io.buf.len io.buf.offset in
    bind-Ensures P (if newlen == 0 then ok io.buf else slice io.buf io.buf.offset 0 newlen) _
      (λ moved run. bind-Ensures P (set_len moved newlen) _ (λ emptied run.
        let io₁ : MboxIoCtx = record io { buf = set_offset emptied 0 } in
        bind-Ensures P (seek_headers m fuel os io₁) _ (λ (headers, io₂) run.
          let kept₂ : io₂.offset ≡ n = seek_headers-Keeps m fuel os io₁ n refl headers io₂ run in
          if-Ensures P headers _ _
            (bind-Ensures P (seek_next_from_line m fuel os' io₂) _ (λ (found, io₃) run.
              let kept₃ : io₃.offset ≡ n =
                seek_next_from_line-Keeps m fuel os' io₂ n kept₂ found io₃ run in
              if-Ensures P found _ _
                (bind-Ensures P (fetch io₃.buf.block 0 io₃.buf.offset) _ (λ bytes run.
                  let size : length bytes ≡ io₃.buf.offset =
                    fetch-length io₃.buf.block 0 io₃.buf.offset bytes run in
                  bind-Ensures P (dup_raw m bytes io₃.buf.offset) _ (λ full_msg run.
                    let len : full_msg.len ≡ length bytes =
                      dup_raw-length m bytes io₃.buf.offset full_msg run in
                    ok-Ensures P _ (refl, omega arith, refl))))
                (ok-Ensures P _ kept₃)))
            (ok-Ensures P _ kept₂))))
