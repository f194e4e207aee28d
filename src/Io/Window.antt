-- ===== src/Io/Window.antt =====
-- A buffer that is filled from a file, read by read, is a window of the file.
use libmbox.Base.{
  ℕ, zero, suc, ◌+◌, ◌-◌, ◌^◌, ◌≤◌, ◌<◌, ◌≡◌, ◌≢◌, refl, sym, ap, ap₂, subst, ◌∙◌, ◌⊎◌, inl, inr,
  List, [], ◌∷◌, ◌++◌, Option, none, some, arith, length, byte_at, get_or, take, drop, length-take,
  length-drop, get_or-take,
}
use libmbox.Base.Outcome.{Outcome, ok}
use libmbox.Buf.{MboxBuf}
use libmbox.Buf.Memory.{Allocator}
use libmbox.Buf.Valid.{Grants, IsRoomy, text}
use libmbox.Io.{Os, MboxIoCtx, io_ok, io_eof, io_read, io_read_size}
use libmbox.Io.Read.{Filled, ReadResult, io_read-Filled}

-- `pread` gives some of the bytes of the file from the place asked for on, and at least one of them
-- where there is one.
abbrev pub Serves : List ℕ → Os → Type 0
Serves file os =
    (offset : ℕ)
    → (k : ℕ) × (os.pread io_read_size offset ≡ some (take k (drop offset file)))
      × (k ≤ io_read_size)
      × (k ≤ length file - offset)
      × ((0 < k) ⊎ (length file ≤ offset))

-- No NUL stands in the bytes.
abbrev pub IsClean : List ℕ → Type 0
IsClean file = (i : ℕ) → i < length file → byte_at file i ≢ 0

-- The buffer holds the bytes of the file from place `n` up to where the next read starts, terminated.
pub record IsWindow (file : List ℕ) (n : ℕ) (io : MboxIoCtx) : Type 0 where
  pub same : (i : ℕ) → i < io.buf.len → byte_at io.buf.block i ≡ byte_at file (n + i)
  pub nul : byte_at io.buf.block io.buf.len ≡ 0
  pub place : io.file_offset ≡ n + io.buf.len
  pub inside : n + io.buf.len ≤ length file
  pub roomy : IsRoomy io.buf
  pub cap : io.buf.capacity ≤ length file + 700000

pub get_or-drop : (k : ℕ) (xs : List ℕ) (i : ℕ) → byte_at (drop k xs) i ≡ byte_at xs (k + i)
get_or-drop zero xs i = let e : 0 + i ≡ i = omega arith in ap (byte_at xs) (sym e)
get_or-drop (suc k) [] i = refl
get_or-drop (suc k) (x ∷ xs) i =
    let e : suc k + i ≡ suc (k + i) = omega arith in
    get_or-drop k xs i ∙ ap (byte_at (x ∷ xs)) (sym e)

-- A byte of the text, and of what is appended to it.
pub get_or-text : (b : MboxBuf) (i : ℕ) → i < b.len → byte_at b.block i ≡ byte_at (text b) i
get_or-text b i lt = sym (get_or-take b.len i b.block 0 lt)

get_or-append :
    (xs ys : List ℕ) (i : ℕ)
    → ((i < length xs) × (byte_at (xs ++ ys) i ≡ byte_at xs i))
      ⊎ ((length xs ≤ i) × (byte_at (xs ++ ys) i ≡ byte_at ys (i - length xs)))
get_or-append [] ys i =
    let e : i - 0 ≡ i = omega arith in inr (omega arith, ap (byte_at ys) (sym e))
get_or-append (x ∷ xs) ys zero = inl (omega arith, refl)
get_or-append (x ∷ xs) ys (suc i) = elim (get_or-append xs ys i) [
  | inl (lt, e) ↦ inl (omega arith, e)
  | inr (le, e) ↦
      let same : suc i - suc (length xs) ≡ i - length xs = omega arith in
      inr (omega arith, e ∙ ap (byte_at ys) (sym same))
]

pub get_or_default : (xs : List ℕ) (i : ℕ) → get_or xs i 1 ≡ 0 → get_or xs i 0 ≡ 0
get_or_default [] i e = refl
get_or_default (x ∷ xs) zero e = e
get_or_default (x ∷ xs) (suc i) e = get_or_default xs i e

-- The text behind a read, byte by byte.
filled-same :
    (file : List ℕ) (n k : ℕ) (io : MboxIoCtx) (b' : MboxBuf)
    → IsWindow file n io
    → text b' ≡ text io.buf ++ take k (drop io.file_offset file)
    → b'.len ≡ io.buf.len + length (take k (drop io.file_offset file))
    → (i : ℕ) → i < b'.len
    → byte_at b'.block i ≡ byte_at file (n + i)
filled-same file n k io b' w whole len i lt =
    let b = io.buf in
    let v = w.roomy.valid in
    let d = take k (drop io.file_offset file) in
    let size : length (text b) ≡ b.len = omega (arith, length-take b.len b.block, v.held) in
    let here : byte_at b'.block i ≡ byte_at (text b ++ d) i =
      get_or-text b' i lt ∙ ap (λ t. byte_at t i) whole in
    elim (get_or-append (text b) d i) [
      | inl (old, e) ↦ here ∙ e ∙ sym (get_or-text b i (omega arith)) ∙ w.same i (omega arith)
      | inr (new, e) ↦
          let at_file : io.file_offset + (i - length (text b)) ≡ n + i = omega (arith, w.place) in
          here
          ∙ e
          ∙ get_or-take k (i - length (text b)) (drop io.file_offset file) 0
              (omega (arith, length-take k (drop io.file_offset file)))
          ∙ get_or-drop io.file_offset file (i - length (text b))
          ∙ ap (byte_at file) at_file
    ]

-- What one read more gives: the end of the file, or a longer window.
abbrev pub Refilled : List ℕ → ℕ → MboxIoCtx → Outcome (Option ℕ × MboxIoCtx) → Type 0
Refilled file n io r =
    ((b : MboxBuf) × (r ≡ ok (some 0, record io { err = io_eof; buf = b }))
      × (length file ≡ io.file_offset)
      × (b.offset ≡ io.buf.offset)
      × (b.len ≡ io.buf.len)
      × (b.len < length b.block)
      × ((i : ℕ) → i < b.len → byte_at b.block i ≡ byte_at file (n + i)))
    ⊎ ((k : ℕ) × (b : MboxBuf) × (r ≡ ok (some k, record io { err = io_ok; buf = b }))
        × (0 < k)
        × (b.offset ≡ io.buf.offset)
        × (b.len ≡ io.buf.len + k)
        × IsWindow file n (record io { err = io_ok; buf = b; file_offset = io.file_offset + k }))

-- Which bytes a read gives.
pub bytes_cases : (d : List ℕ) → (d ≡ []) ⊎ ((c : ℕ) × (cs : List ℕ) × (d ≡ c ∷ cs))
bytes_cases [] = inl refl
bytes_cases (c ∷ cs) = inr (c, cs, refl)

size_of : Option (List ℕ) → ℕ
size_of none = 0
size_of (some d) = length d

pub same_size : (d e : List ℕ) → some d ≡ some e → length d ≡ length e
unfolding size_of
same_size d e same = ap size_of same

module _ (m : Allocator) (g : Grants m) (file : List ℕ) (fit : length file < 2 ^ 61) where
  read_end :
      (n : ℕ) (io : MboxIoCtx) (b : MboxBuf)
      → IsWindow file n io
      → text b ≡ text io.buf
      → b.len ≡ io.buf.len
      → (i : ℕ) → i < b.len
      → byte_at b.block i ≡ byte_at file (n + i)
  read_end n io b w same len i lt =
      get_or-text b i lt
      ∙ ap (λ t. byte_at t i) same
      ∙ sym (get_or-text io.buf i (omega arith))
      ∙ w.same i (omega arith)

  read_more :
      (n k : ℕ) (io : MboxIoCtx) (b : MboxBuf)
      → IsWindow file n io
      → k ≤ io_read_size
      → k ≤ length file - io.file_offset
      → Filled io.buf (take k (drop io.file_offset file)) io_read_size b
      → IsWindow file n (record io { err = io_ok; buf = b; file_offset = io.file_offset + k })
  read_more n k io b w most inside f =
      let size : length (take k (drop io.file_offset file)) ≡ k =
        omega (arith, length-take k (drop io.file_offset file), length-drop io.file_offset file) in
      record {
        same = filled-same file n k io b w f.text_lem f.len_lem;
        nul = get_or_default b.block b.len f.ended;
        place = omega (arith, w.place, f.len_lem);
        inside = omega (arith, w.place, f.len_lem);
        roomy = f.roomy;
        cap = omega (arith, w.cap, f.bound, f.tight, w.inside);
      }

  pub refill-Refilled :
      (os : Os) (n : ℕ) (io : MboxIoCtx)
      → Serves file os
      → IsWindow file n io
      → Refilled file n io (io_read m os io io_read_size io.buf.len io.file_offset)
  refill-Refilled os n io serves w =
      let (k, here, most, inside, more) = serves io.file_offset in
      let d = take k (drop io.file_offset file) in
      let size : length d ≡ k =
        omega (arith, length-take k (drop io.file_offset file), length-drop io.file_offset file) in
      let (r, b, e, run, result) =
        io_read-Filled m os io io_read_size io.file_offset g w.roomy (omega (arith, w.cap))
          (omega arith) (λ t p. omega (arith, same_size t d (sym p ∙ here))) in
      let known : ReadResult io.buf io_read_size (some d) r e b =
        subst (λ o. ReadResult io.buf io_read_size o r e b) here result in
      elim (bytes_cases d) [
        | inl none_left ↦
            let (nothing, ended, (kept, offset, len, held)) =
              subst (λ t. ReadResult io.buf io_read_size (some t) r e b) none_left known in
            inl (
              b,
              run ∙ ap₂ (λ x y. ok (x, record io { err = y; buf = b })) nothing ended,
              omega (arith, ap length none_left, more, w.place, w.inside),
              offset,
              len,
              held,
              read_end n io b w kept len,
            )
        | inr (c, cs, some_more) ↦
            let (count, fine, filled) =
              subst (λ t. ReadResult io.buf io_read_size (some t) r e b) some_more known in
            let f : Filled io.buf d io_read_size b =
              subst (λ t. Filled io.buf t io_read_size b) (sym some_more) filled in
            inr (
              k,
              b,
              run
                  ∙ ap₂ (λ x y. ok (x, record io { err = y; buf = b }))
                      (count ∙ ap some (omega (arith, ap length some_more))) fine,
              omega (arith, ap length some_more),
              f.offset_lem,
              omega (arith, f.len_lem),
              read_more n k io b w most inside f,
            )
      ]
