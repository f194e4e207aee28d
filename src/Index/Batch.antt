-- ===== src/Index/Batch.antt =====
-- `mboxIdxBatchLoad` cuts the offsets into batches for the worker pool.
use libmbox.Base.{
  ℕ, ◌+◌, ◌-◌, ◌^◌, ◌≤◌, ◌<◌, ◌≡◌, ◌≢◌, ◌⊎◌, inl, inr, refl, ap, ◌∙◌, List, [], ◌∷◌, ◌++◌,
  append_assoc, arith, ltb, Bool-cases, ltb→lt, ltb→ge,
}
use libmbox.Base.Outcome.{ok}
use libmbox.Buf.{add_size, sub_size}
use libmbox.Index.{batch_loop, batch_load}
use libmbox.Io.{io_read_size}

abbrev pub concat : List (List (ℕ × ℕ)) → List (ℕ × ℕ)
concat [] = []
concat (b ∷ bs) = b ++ concat bs

-- The bytes of the messages.
abbrev pub total : List (ℕ × ℕ) → ℕ
total [] = 0
total ((s, e) ∷ l) = (e - s) + total l

abbrev pub but_last : List (ℕ × ℕ) → List (ℕ × ℕ)
but_last [] = []
but_last (x ∷ []) = []
but_last (x ∷ y ∷ l) = x ∷ but_last (y ∷ l)

abbrev pub IsRanges : List (ℕ × ℕ) → Type 0
IsRanges [] = Unit {0}
IsRanges ((s, e) ∷ l) = (s ≤ e) × (e < 2 ^ 63) × IsRanges l

-- No batch is empty; without its last message each is below the size of a read, and each but the
-- last one reaches it.
abbrev pub IsBatches : List (List (ℕ × ℕ)) → Type 0
IsBatches [] = Unit {0}
IsBatches (b ∷ bs) =
    (b ≢ [])
    × (total (but_last b) < io_read_size)
    × ((bs ≡ []) ⊎ (io_read_size ≤ total b))
    × IsBatches bs

snoc_ne : (b : List (ℕ × ℕ)) (x : ℕ × ℕ) → b ++ x ∷ [] ≢ []
snoc_ne [] x e = cc
snoc_ne (y ∷ b) x e = cc

but_last_snoc : (b : List (ℕ × ℕ)) (x : ℕ × ℕ) → but_last (b ++ x ∷ []) ≡ b
but_last_snoc [] x = refl
but_last_snoc (y ∷ []) x = refl
but_last_snoc (y ∷ z ∷ b) x = ap (λ t. y ∷ t) (but_last_snoc (z ∷ b) x)

total_but_last : (b : List (ℕ × ℕ)) → total (but_last b) ≤ total b
total_but_last [] = omega arith
total_but_last (x ∷ []) = omega arith
total_but_last ((s, e) ∷ y ∷ b) = omega (arith, total_but_last (y ∷ b))

total_snoc : (b : List (ℕ × ℕ)) (s e : ℕ) → total (b ++ (s, e) ∷ []) ≡ total b + (e - s)
total_snoc [] s e = omega arith
total_snoc ((s', e') ∷ b) s e = omega (arith, total_snoc b s e)

-- What the loop gives for these offsets behind this batch.
abbrev Cut : List (ℕ × ℕ) → List (ℕ × ℕ) → List (List (ℕ × ℕ)) → Type 0
Cut indexes batch bs = (concat bs ≡ batch ++ indexes) × IsBatches bs

batch_loop-Cut :
    (indexes batch : List (ℕ × ℕ)) (bytes : ℕ)
    → IsRanges indexes
    → total batch ≡ bytes
    → bytes < io_read_size
    → Cut indexes batch (batch_loop indexes batch bytes)
unfolding batch_loop
batch_loop-Cut [] [] bytes ranges sum small = (refl, tt)
batch_loop-Cut [] (x ∷ batch) bytes ranges sum small =
    (refl, ((λ e. cc), omega (arith, total_but_last (x ∷ batch)), inl refl, tt))
batch_loop-Cut ((s, e) ∷ indexes) batch bytes (le, fit, ranges) sum small =
    let snoc = total_snoc batch s e in
    let whole : add_size bytes (sub_size e s) ≡ bytes + (e - s) = omega arith in
    elim (Bool-cases (ltb (bytes + (e - s)) io_read_size)) [
      | inl more ↦
          let (all, each) =
            batch_loop-Cut indexes (batch ++ (s, e) ∷ []) (bytes + (e - s)) ranges (omega arith)
              (ltb→lt (bytes + (e - s)) io_read_size more) in
          rw (whole, more) (all ∙ append_assoc batch ((s, e) ∷ []) indexes, each)
      | inr full ↦
          let (all, each) = batch_loop-Cut indexes [] 0 ranges refl (omega arith) in
          rw (whole, full)
            (
              ap (λ t. (batch ++ (s, e) ∷ []) ++ t) all ∙ append_assoc batch ((s, e) ∷ []) indexes,
              (
                snoc_ne batch (s, e),
                rw (but_last_snoc batch (s, e)) (omega arith),
                inr (omega (arith, ltb→ge (bytes + (e - s)) io_read_size full)),
                each,
              ),
            )
    ]

-- On offsets of an index that is not empty, each with its start no higher than its end and that below
-- 2 ^ 63, `mboxIdxBatchLoad` hands every message to the pool in one batch and in order; no batch is empty, each one
-- without its last message is below the size of a read, and each but the last one reaches that size.
pub batch_load-IsBatches :
    (l : List (ℕ × ℕ))
    → l ≢ []
    → IsRanges l
    → (bs : List (List (ℕ × ℕ))) × (batch_load l ≡ ok bs) × (concat bs ≡ l) × IsBatches bs
unfolding batch_load
batch_load-IsBatches [] ne ranges = absurd (ne refl)
batch_load-IsBatches (x ∷ l) ne ranges =
    let (all, each) = batch_loop-Cut (x ∷ l) [] 0 ranges refl (omega arith) in
    (batch_loop (x ∷ l) [] 0, refl, all, each)
