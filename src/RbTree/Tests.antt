-- ===== src/RbTree/Tests.antt =====
-- Trees of numbers, and the theorems about trees there.
use libmbox.Base.{ℕ, ◌≡◌, refl, ◌≢◌, [], ◌∷◌, some, arith, ltb, false, ◌==◌, if◌then◌else◌}
use libmbox.Base.Outcome.{Outcome, ok, out_of_fuel, ◌>>=◌}
use libmbox.RbTree.{
  MboxRbTree, Sign, less, equal, greater, red, black, nil, node, insert, get, delete_search,
  tree_new, descend, attach, insert_fixup, rotate_up, left_rotate, right_rotate, paint, paint_uncle,
  uncle, plug, unzip, is_red, tree_color, frame_color, node_find, has, clear, node_free,
}
use libmbox.RbTree.Balance.{IsRedBlack}
use libmbox.RbTree.Contents.{to_list, insert_entry, IsKeyOrder}
use libmbox.RbTree.Insert.{IsMap, insert-IsMap}
use libmbox.RbTree.Lookup.{get-insert, kept, height, delete_search-never}

abbrev compare : ℕ → ℕ → Sign
compare a b = if ltb a b then less else if a == b then equal else greater

compare-IsKeyOrder : IsKeyOrder compare
compare-IsKeyOrder = record {
  equal_refl = λ a. ground arith;
  flip_less = λ a b e. ground arith;
  flip_greater = λ a b e. ground arith;
  less_trans = λ a b c e f. ground arith;
  greater_trans = λ a b c e f. ground arith;
  equal_greater = λ a b c e f. ground arith;
}

abbrev three : MboxRbTree ℕ ℕ
three = record { root = node black (node red nil 1 10 nil) 2 20 (node red nil 3 30 nil); size = 3 }

three-IsMap : IsMap compare three
unfolding IsRedBlack tree_color
three-IsMap = record {
  balanced = (refl, (1, (0, refl, (refl, refl, refl, refl), (refl, refl, refl, refl))));
  ascending = ((refl, (refl, tt)), ((refl, tt), (tt, tt)));
  count = refl;
}

insert-IsMap_example :
    (t : MboxRbTree ℕ ℕ) × (insert compare three 4 40 ≡ ok t)
    × (to_list t.root ≡ insert_entry compare 4 40 (to_list three.root))
    × IsMap compare t
insert-IsMap_example = insert-IsMap compare compare-IsKeyOrder three 4 40 three-IsMap

get-insert_example :
    (t : MboxRbTree ℕ ℕ) × (insert compare three 4 40 ≡ ok t)
    × (get compare t 4 ≡ some (kept (get compare three 4) 40))
    × ((q : ℕ) → compare q 4 ≢ equal → get compare t q ≡ get compare three q)
get-insert_example = get-insert compare compare-IsKeyOrder three 4 40 three-IsMap

delete_search-never_example : delete_search compare 100 three.root 3 ≡ out_of_fuel
unfolding node_find height
delete_search-never_example = delete_search-never compare three.root 3 100 (omega arith)

-- Ascending keys, which need every kind of step of the fixup on the right.
ascending : Outcome (MboxRbTree ℕ ℕ)
unfolding insert tree_new descend attach insert_fixup rotate_up left_rotate right_rotate paint
    paint_uncle uncle plug unzip is_red tree_color frame_color
ascending = do
  t ← insert compare (tree_new {V = ℕ}) 1 0
  t ← insert compare t 2 0
  t ← insert compare t 3 0
  t ← insert compare t 4 0
  insert compare t 5 0

ascending_run :
    ascending
    ≡ ok (record {
      root =
          node black
            (node black nil 1 0 nil)
            2
            0
            (node black (node red nil 3 0 nil) 4 0 (node red nil 5 0 nil));
      size = 5;
    })
unfolding ascending
ascending_run = refl

-- A key is found, and the nodes are all released.
released_run :
    (get compare three 3 ≡ some 30)
    × (has compare three 5 ≡ false)
    × (clear three ≡ ((1, 10) ∷ (3, 30) ∷ (2, 20) ∷ [], tree_new))
unfolding get has node_find clear node_free tree_new
released_run = (refl, refl, refl)
