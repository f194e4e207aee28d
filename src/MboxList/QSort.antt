-- ===== src/MboxList/QSort.antt =====
-- `mboxListQSort`: quicksort of the data, the nodes staying where they are. The callback enters by
-- the one test that the code makes of its result: `compare a b` says that it is at most 0.
pub mod Cycle
pub mod Order
pub mod Scan
pub mod Sort
pub mod Main
use libmbox.Base.{ℕ, zero, suc, ◌+◌, Bool, true, false, ◌&&◌, leb, ◌==◌, if◌then◌else◌}
use libmbox.MboxList.{MboxList, lock, unlock}
use libmbox.MboxList.Heap.{Ptr, null, M, ◌>>=◌, ◌>>◌, pure, starve, load, set_value}

-- `prev = (prev == NULL) ? low : prev->next`, and the exchange of its datum with that of `current`.
unfoldable pub advance_swap : (low prev current : Ptr) → M Ptr
advance_swap low prev current = do
  p ← if prev == null then pure low else (do n ← load prev; pure n.next)
  a ← load p
  c ← load current
  set_value p c.value
  set_value current a.value
  pure p

module _ (compare : ℕ → ℕ → Bool) where
  -- The for loop of `mboxListQSortPivot`; it ends with `current` at `high`.
  unfoldable pub scan : ℕ → (low high : Ptr) → (pivot : ℕ) → (prev current : Ptr) → M Ptr
  scan zero low high pivot prev current = starve
  scan (suc fuel) low high pivot prev current = if current == high then pure prev else (do
    n ← load current
    prev' ← if compare n.value pivot then advance_swap low prev current else pure prev
    c ← load current
    scan fuel low high pivot prev' c.next)

  unfoldable pub qsort_pivot : ℕ → (low high : Ptr) → M Ptr
  qsort_pivot fuel low high = do
    h ← load high
    l ← load low
    prev ← scan fuel low high h.value l.prev low
    advance_swap low prev high

  unfoldable pub qsort_helper : ℕ → (low high : Ptr) → ℕ → M (Unit {0})
  qsort_helper zero low high count = starve
  qsort_helper (suc fuel) low high count = if low == high then pure tt else (do
    done ← if count == 1 then (do h ← load high; pure (low == h.next)) else pure false
    if done then pure tt else (do
      pivot ← qsort_pivot (suc fuel) low high
      n ← load pivot
      qsort_helper fuel low n.prev 1
      m ← load pivot
      qsort_helper fuel m.next high 1))

  -- The early return leaves the mutex locked.
  unfoldable pub qsort : MboxList → (is_null : Bool) → M MboxList
  qsort l is_null = do
    l ← lock l
    if leb l.len 1
        then pure l
        else if is_null
        then pure l
        else (do root ← load l.root; qsort_helper (l.len + 1) l.root root.prev 0; unlock l)
