-- ===== src/Msg/Order.antt =====
-- `mboxMsgListSortByDate` sorts by the time.
use libmbox.Base.{ℕ, ◌≤◌, ◌≡◌, Bool, false, not, arith, length}
use mathlib.Core.Path.{fun_ext}
use libmbox.Base.Int.{ltb_ℤ, is_minus_one}
use libmbox.MboxList.{MboxList}
use libmbox.MboxList.Heap.{Heap}
use libmbox.MboxList.Heap.Access.{Runs}
use libmbox.MboxList.Heap.Chain.{Cells}
use libmbox.MboxList.QSort.Main.{Sorted, qsort-Sorted}
use libmbox.MboxList.QSort.Order.{IsOrder}
use libmbox.MboxList.Rep.{IsList}
use libmbox.Msg.{MboxMsgLite, compare_by_date, by_date, sort_by_date}

-- The message at `a` is not of a later time than that at `b`.
abbrev pub no_later : (ℕ → MboxMsgLite) → ℕ → ℕ → Bool
no_later store a b = not (ltb_ℤ (store b).unix_timestamp (store a).unix_timestamp)

-- No message has the time -1.
abbrev pub Timed : (ℕ → MboxMsgLite) → Type 0
Timed store = (a : ℕ) → is_minus_one (store a).unix_timestamp ≡ false

no_later-IsOrder : (store : ℕ → MboxMsgLite) → IsOrder (no_later store)
no_later-IsOrder store = record {
  total = λ a b h. ground arith;
  transitive = λ a b c h k. ground arith;
}

times_lem :
    (store : ℕ → MboxMsgLite) (a b : ℕ) → Timed store → by_date store a b ≡ no_later store a b
unfolding compare_by_date
times_lem store a b timed = rw (timed a, timed b) (ground arith)

-- On an unlocked list of at least two messages, in a store where none has the time -1,
-- `mboxMsgListSortByDate` returns: the same nodes hold the same messages, ordered by their times,
-- the lock is given back and nothing else is written.
pub sort_by_date-Sorted :
    (store : ℕ → MboxMsgLite) (h : Heap) (l : MboxList) (xs : Cells)
    → Timed store
    → IsList h l xs
    → l.locked ≡ false
    → 2 ≤ length xs
    → Runs (sort_by_date store l h) (Sorted (no_later store) xs h)
unfolding sort_by_date
sort_by_date-Sorted store h l xs timed is free_lock two =
    let same : by_date store ≡ no_later store =
      fun_ext (λ (a : ℕ). fun_ext (λ (b : ℕ). times_lem store a b timed)) in
    rw same (qsort-Sorted (no_later store) h l xs (no_later-IsOrder store) is free_lock two)
