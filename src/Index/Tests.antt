-- ===== src/Index/Tests.antt =====
-- An index of two messages.
use libmbox.Base.{
  ℕ, ◌<◌, ◌^◌, ◌≡◌, refl, sym, subst, true, List, [], ◌∷◌, none, some, arith, length,
}
use libmbox.Base.Outcome.{ok}
use libmbox.Buf.Memory.{Allocator}
use libmbox.Buf.Valid.{Grants}
use libmbox.Index.{save, load_indexes, batch_load, batch_loop}
use libmbox.Index.Batch.{concat, IsBatches, batch_load-IsBatches}
use libmbox.Index.Decimal.{print_size, digits}
use libmbox.Index.Load.{index_text}
use libmbox.Index.RoundTrip.{load_indexes-save}
use libmbox.Index.Save.{Writes, save-index_text}
use libmbox.Io.{Os, io_ok}

abbrev heap : Allocator
heap = record { junk = λ i. 165; grants = λ n. true }

heap-Grants : Grants heap
heap-Grants n = refl

abbrev two : List (ℕ × ℕ)
two = (0, 12) ∷ (12, 3000) ∷ []

index_text_run :
    index_text two
    ≡ b'0' ∷ b' ' ∷ b'1' ∷ b'2' ∷ b'\n' ∷ b'1' ∷ b'2' ∷ b' ' ∷ b'3' ∷ b'0' ∷ b'0' ∷ b'0' ∷ b'\n'
      ∷ []
unfolding index_text print_size digits
index_text_run = refl

-- A disk that takes everything, and one that holds the index.
abbrev disk : ℕ → Os
disk i = record { pread = λ size offset. none; pwrite = λ s offset. some (length s); fsync = true }

abbrev held : Os
held = record {
  pread = λ size offset. some (index_text two);
  pwrite = λ s offset. none;
  fsync = true;
}

disk-Writes : (i : ℕ) → Writes (disk i)
disk-Writes i = (λ s offset. refl, refl)

save-index_text_example : save heap disk true (λ l. l) two [] ≡ ok (io_ok, index_text two)
save-index_text_example =
    save-index_text heap disk (λ l. l) two [] heap-Grants disk-Writes (λ e. cc) (omega arith)

load_indexes-save_example : load_indexes heap held (some (length (index_text two))) ≡ ok (some two)
load_indexes-save_example =
    load_indexes-save heap disk held (λ l. l) two [] (index_text two) heap-Grants disk-Writes
      (λ e. cc) (λ e. cc) (omega arith, omega arith, (omega arith, omega arith, tt)) (omega arith)
      save-index_text_example (subst (λ t. length t < 2 ^ 32) (sym index_text_run) (omega arith))
      refl

batch_load-IsBatches_example :
    (bs : List (List (ℕ × ℕ))) × (batch_load two ≡ ok bs) × (concat bs ≡ two) × IsBatches bs
batch_load-IsBatches_example =
    batch_load-IsBatches two (λ e. cc) (omega arith, omega arith, (omega arith, omega arith, tt))

-- A message of the size of a read ends its batch.
batch_load_run :
    batch_load ((0, 10) ∷ (10, 300000) ∷ (300000, 300001) ∷ [])
    ≡ ok (((0, 10) ∷ (10, 300000) ∷ []) ∷ ((300000, 300001) ∷ []) ∷ [])
unfolding batch_load batch_loop
batch_load_run = refl
