-- ===== src/Parser/Reader.antt =====
-- A reader that walks through a file: what it holds of the file, and the tests on the bytes of it.
pub mod Headers
pub mod Line
pub mod FromLine
pub mod Slide
pub mod Piece
pub mod Next
pub mod Start
pub mod Endless
use libmbox.Base.{
  ℕ, zero, suc, ◌+◌, ◌-◌, ◌≤◌, ◌<◌, ◌≡◌, ◌≢◌, refl, sym, ap, subst, ◌∙◌, ◌⊎◌, inl, inr, Bool, true,
  false, ◌||◌, List, [], ◌∷◌, arith, leb, ◌==◌, ==→eq, ==→ne, Bool-cases, length, byte_at,
}
use libmbox.Base.Outcome.{Outcome, ok, ◌>>=◌}
use libmbox.Buf.Memory.{read-ok}
use libmbox.Io.{MboxIoCtx, is_io_eof}
use libmbox.Io.Window.{IsClean, IsWindow}
use libmbox.Parser.Scan.{match_bytes}
use libmbox.Parser.Scan.Text.{IsText, IsBlank}
use libmbox.Parser.SeekStart.{from_mark, mark_byte}

-- The reader holds a window of the file from place `n` on, stands inside it, and has not met the end.
pub record Stands (file : List ℕ) (n : ℕ) (io : MboxIoCtx) : Type 0 where
  pub window : IsWindow file n io
  pub within : io.buf.offset ≤ io.buf.len
  pub live : is_io_eof io.err ≡ false

-- A line break with "From " behind it at place `i` of the file; none from `i` up to `j`.
abbrev pub IsFrom : List ℕ → ℕ → Type 0
IsFrom file i = (k : ℕ) → k < 6 → byte_at file (i + k) ≡ byte_at from_mark k

abbrev pub FromFree : List ℕ → (i j : ℕ) → Type 0
FromFree file i j = (k : ℕ) → i ≤ k → k < j → ¬ IsFrom file k

pub le_leb : (i j : ℕ) → i ≤ j → leb i j ≡ true
le_leb i j h = ground arith

pub or_true : (a : Bool) → (a || true) ≡ true
or_true true = refl
or_true false = refl

match_all :
    (block : List ℕ) (i c : ℕ) (p : List ℕ)
    → byte_at block i ≡ c
    → ((k : ℕ) → k < length p → byte_at block (i + 1 + k) ≡ byte_at p k)
    → (k : ℕ) → k < length (c ∷ p)
    → byte_at block (i + k) ≡ byte_at (c ∷ p) k
match_all block i c p first rest zero lt =
    let e : i + 0 ≡ i = omega arith in ap (byte_at block) e ∙ first
match_all block i c p first rest (suc k) lt =
    let e : i + suc k ≡ i + 1 + k = omega arith in ap (byte_at block) e ∙ rest k (omega arith)

-- A chain of tests on a text that a NUL ends returns, and says whether the bytes stand there.
pub match_bytes-decides :
    (block : List ℕ) (len i : ℕ) (p : List ℕ)
    → len < length block
    → byte_at block len ≡ 0
    → ((k : ℕ) → k < length p → byte_at p k ≢ 0)
    → i ≤ len
    → ((match_bytes block i p ≡ ok true)
        × (i + length p ≤ len)
        × ((k : ℕ) → k < length p → byte_at block (i + k) ≡ byte_at p k))
      ⊎ ((match_bytes block i p ≡ ok false)
          × ¬ ((k : ℕ) → k < length p → byte_at block (i + k) ≡ byte_at p k))
unfolding match_bytes
match_bytes-decides block len i [] room nul solid le =
    inl (refl, omega arith, λ k lt. absurd (omega arith))
match_bytes-decides block len i (c ∷ p) room nul solid le =
    elim (Bool-cases (byte_at block i == c)) [
      | inr other ↦
          let same_place : i + 0 ≡ i = omega arith in
          inr (
            rw (read-ok block i (omega arith), other) refl,
            λ all.
                ==→ne (byte_at block i) c other
                  (ap (byte_at block) (sym same_place) ∙ all 0 (omega arith)),
          )
      | inl same ↦
          let here : byte_at block i ≡ c = ==→eq (byte_at block i) c same in
          let before : i ≢ len =
            λ e. solid 0 (omega arith) (sym here ∙ ap (byte_at block) e ∙ nul) in
          let more : i + 1 ≤ len = omega (arith, before) in
          elim (match_bytes-decides block len (i + 1) p room nul
            (λ k lt. solid (suc k) (omega arith)) more) [
              | inl (run, inside, all) ↦ inl (
                rw (read-ok block i (omega arith), same) run,
                omega arith,
                match_all block i c p here all,
              )
              | inr (run, none_there) ↦ inr (
                rw (read-ok block i (omega arith), same) run,
                λ all. none_there (λ k lt.
                    let e : i + 1 + k ≡ i + suc k = omega arith in
                    ap (byte_at block) e ∙ all (suc k) (omega arith)),
              )
            ]
    ]

module _ (file : List ℕ) (n : ℕ) (io : MboxIoCtx) (clean : IsClean file)
    (w : IsWindow file n io) where
  pub window-IsText : IsText io.buf.block io.buf.len
  window-IsText = record {
    clean = λ i lt e. clean (n + i) (omega (arith, w.inside)) (sym (w.same i lt) ∙ e);
    nul = w.nul;
    room = w.roomy.valid.held;
  }

  -- What is not NUL stands before the end, and in the file.
  pub file_byte :
      (i c : ℕ)
      → i ≤ io.buf.len
      → c ≢ 0
      → byte_at io.buf.block i ≡ c
      → (i < io.buf.len) × (byte_at file (n + i) ≡ c)
  file_byte i c le solid here =
      let before : i ≢ io.buf.len = λ e. solid (sym here ∙ ap (byte_at io.buf.block) e ∙ w.nul) in
      let lt : i < io.buf.len = omega (arith, before) in (lt, sym (w.same i lt) ∙ here)

  -- A blank line of the buffer is one of the file.
  pub file-IsBlank :
      (i size : ℕ)
      → i < io.buf.len
      → IsBlank io.buf.block i size
      → IsBlank file (n + i) size × (i + size ≤ io.buf.len)
  file-IsBlank i size lt (first, inl (two, second)) =
      let (lt₁, same₁) = file_byte i b'\n' (omega arith) (λ e. absurd (omega arith)) first in
      let (lt₂, same₂) = file_byte (i + 1) b'\n' (omega arith) (λ e. absurd (omega arith)) second in
      let e₂ : n + (i + 1) ≡ n + i + 1 = omega arith in
      ((same₁, inl (two, subst (λ p. byte_at file p ≡ b'\n') e₂ same₂)), omega arith)
  file-IsBlank i size lt (first, inr (three, second, third)) =
      let (lt₁, same₁) = file_byte i b'\n' (omega arith) (λ e. absurd (omega arith)) first in
      let (lt₂, same₂) = file_byte (i + 1) b'\r' (omega arith) (λ e. absurd (omega arith)) second in
      let (lt₃, same₃) = file_byte (i + 2) b'\n' (omega arith) (λ e. absurd (omega arith)) third in
      let e₂ : n + (i + 1) ≡ n + i + 1 = omega arith in
      let e₃ : n + (i + 2) ≡ n + i + 2 = omega arith in
      (
        (
          same₁,
          inr (
            three,
            subst (λ p. byte_at file p ≡ b'\r') e₂ same₂,
            subst (λ p. byte_at file p ≡ b'\n') e₃ same₃,
          ),
        ),
        omega arith,
      )

  -- The same window, with the offset moved.
  pub moved-IsWindow : (e : ℕ) → IsWindow file n (record io { buf = record io.buf { offset = e } })
  moved-IsWindow e = record {
    same = w.same;
    nul = w.nul;
    place = w.place;
    inside = w.inside;
    roomy = record {
      valid = record {
        room = w.roomy.valid.room;
        fits = w.roomy.valid.fits;
        held = w.roomy.valid.held;
        small = w.roomy.valid.small;
      };
      spare = w.roomy.spare;
    };
    cap = w.cap;
  }
