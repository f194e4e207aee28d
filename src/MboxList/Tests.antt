-- ===== src/MboxList/Tests.antt =====
-- The list functions at two lists, and the theorems about them there.
use libmbox.Base.{
  ℕ, ◌≡◌, refl, true, false, none, some, [], ◌∷◌, ◌++◌, arith, ◌==◌, leb, inl, if◌then◌else◌,
}
use libmbox.Base.Outcome.{blocked}
use libmbox.MboxList.{
  MboxList, add_head, add_tail, remove_head, remove_tail, append_list_tail, release, ts_add_tail,
  ts_remove_head, list_new, lock, unlock,
}
use libmbox.MboxList.Heap.{node, Heap, write, M, ◌>>=◌, pure}
use libmbox.MboxList.Heap.{new_node, load, set_next, set_prev, set_value, free}
use libmbox.MboxList.Heap.{with_next, with_prev, with_value}
use libmbox.MboxList.Heap.Access.{Runs}
use libmbox.MboxList.Heap.Chain.{Cells}
use libmbox.MboxList.Rep.{IsList, SameOutside, SameHandle, contents}
use libmbox.MboxList.Add.{add_head-IsList, add_tail-IsList}
use libmbox.MboxList.Remove.{remove_head-IsList, remove_tail-IsList}
use libmbox.MboxList.Append.{append_list_tail-IsList}
use libmbox.MboxList.Release.{non_null, Without, release-Without}
use libmbox.MboxList.QSort.{qsort, qsort_helper, qsort_pivot, scan, advance_swap}
use libmbox.MboxList.QSort.Order.{IsOrder}
use libmbox.MboxList.QSort.Main.{Sorted, qsort-Sorted, qsort-keeps_lock}

-- Two nodes at 1 and 2, and one at 3 that is a list of its own.
abbrev two : Heap
two a =
    if a == 1
    then some (node 20 2 2)
    else if a == 2
    then some (node 10 1 1)
    else if a == 3
    then some (node 30 3 3)
    else none

abbrev pair : MboxList
pair = record { len = 2; root = 1; locked = false; freedata = true }

abbrev single : MboxList
single = record { len = 1; root = 3; locked = false; freedata = false }

abbrev pair_cells : Cells
pair_cells = (1, 20) ∷ (2, 10) ∷ []

pair-IsList : IsList two pair pair_cells
pair-IsList = record {
  ring = (refl, (omega arith, refl, refl, (omega arith, refl, refl, tt)));
  count = refl;
}

single-IsList : IsList two single ((3, 30) ∷ [])
single-IsList = record { ring = (refl, (omega arith, refl, refl, tt)); count = refl }

leb-IsOrder : IsOrder leb
leb-IsOrder = record { total = λ a b e. ground arith; transitive = λ a b c e f. ground arith }

-- A run of several functions on a list that starts empty.
script : M (ℕ × ℕ × ℕ)
unfolding add_head add_tail remove_head remove_tail lock unlock qsort qsort_helper qsort_pivot scan
    advance_swap
script = do
  l ← add_tail 1 list_new 7
  l ← add_tail 2 l 9
  l ← add_head 3 l 8
  l ← qsort leb l false
  (a, l) ← remove_head l
  (b, l) ← remove_tail l
  (c, l) ← remove_tail l
  pure (a, b, c)

script_output : Runs (script (λ _. none)) λ out g. (out ≡ (7, 9, 8)) × (g 1 ≡ none) × (g 2 ≡ none)
unfolding script list_new new_node load set_next set_prev set_value free write with_next with_prev
    with_value
script_output = (_, _, refl, (refl, refl, refl))

add_tail-IsList_example : Runs (add_tail 4 pair 5 two) λ m g.
    IsList g m (pair_cells ++ (4, 5) ∷ [])
    × SameOutside ((4, 5) ∷ pair_cells) two g
    × SameHandle pair m
add_tail-IsList_example = add_tail-IsList two pair pair_cells 4 5 pair-IsList (omega arith) refl

add_head-IsList_example : Runs (add_head 4 pair 5 two) λ m g.
    IsList g m ((4, 5) ∷ pair_cells) × SameOutside ((4, 5) ∷ pair_cells) two g × SameHandle pair m
add_head-IsList_example = add_head-IsList two pair pair_cells 4 5 pair-IsList (omega arith) refl

remove_head-IsList_example : Runs (remove_head pair two) λ (val, m) g.
    (val ≡ 20)
    × IsList g m ((2, 10) ∷ [])
    × (g 1 ≡ none)
    × SameOutside pair_cells two g
    × SameHandle pair m
remove_head-IsList_example = remove_head-IsList two pair 1 20 ((2, 10) ∷ []) pair-IsList

remove_tail-IsList_example : Runs (remove_tail pair two) λ (val, m) g.
    (val ≡ 10)
    × IsList g m ((1, 20) ∷ [])
    × (g 2 ≡ none)
    × SameOutside ((1, 20) ∷ [] ++ (2, 10) ∷ []) two g
    × SameHandle pair m
remove_tail-IsList_example = remove_tail-IsList two pair ((1, 20) ∷ []) 2 10 pair-IsList

append_list_tail-IsList_example : Runs (append_list_tail pair single two) λ m g.
    IsList g m (pair_cells ++ (3, 30) ∷ [])
    × SameOutside (pair_cells ++ (3, 30) ∷ []) two g
    × SameHandle pair m
append_list_tail-IsList_example =
    append_list_tail-IsList two pair single pair_cells ((3, 30) ∷ []) pair-IsList single-IsList
      (λ a i. ground arith)

release-Without_example :
    Runs
      (release pair two)
      λ out g. (out ≡ non_null (contents pair_cells)) × Without pair_cells two g
release-Without_example = release-Without two pair pair_cells pair-IsList

qsort-Sorted_example : Runs (qsort leb pair false two) (Sorted leb pair_cells two)
qsort-Sorted_example =
    qsort-Sorted leb two pair pair_cells leb-IsOrder pair-IsList refl (omega arith)

qsort-keeps_lock_example : Runs (qsort leb single false two) λ m g.
    (m.locked ≡ true)
    × (g ≡ two)
    × ((n v : ℕ) → (ts_add_tail n m v g ≡ blocked) × (ts_remove_head m g ≡ blocked))
qsort-keeps_lock_example = qsort-keeps_lock leb two single false refl (inl (omega arith))
