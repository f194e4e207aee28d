-- ===== src/RbTree.antt =====
-- src/mbox-redblacktree.c: the map from keys to values as a red-black tree. The pointers to parents
-- are not stored: a node is reached as a subtree together with the path from it up to the root.
pub mod Contents
pub mod Entries
pub mod Place
pub mod Insert
pub mod Balance
pub mod Lookup
mod Tests
use libmbox.Base.{
  ℕ, zero, suc, ◌+◌, Bool, true, false, List, [], ◌∷◌, ◌++◌, Option, none, some, ◌==◌,
  if◌then◌else◌,
}
use libmbox.Base.Outcome.{Outcome, ok, fault, out_of_fuel, ◌>>=◌}

-- The sign of what `keycmp` returns: negative, zero or positive.
pub data Sign : Type 0 where
  less equal greater : Sign

pub data Color : Type 0 where
  red black : Color

unfoldable pub is_red : Color → Bool
is_red red = true
is_red black = false

-- `struct rbNode` without its parent; `nil` is the sentinel, which is black.
pub data Tree (K V : Type 0) : Type 0 where
  nil : Tree K V
  node : Color → Tree K V → K → V → Tree K V → Tree K V

-- A step up to a parent: the subtree hangs on its left or on its right, the other one is kept.
pub data Frame (K V : Type 0) : Type 0 where
  on_left : Color → K → V → Tree K V → Frame K V
  on_right : Color → Tree K V → K → V → Frame K V

module _ {K V : Type 0} where
  unfoldable pub tree_color : Tree K V → Color
  tree_color nil = black
  tree_color (node c l k v r) = c

  -- The sentinel stays as it is.
  unfoldable pub paint : Color → Tree K V → Tree K V
  paint c nil = nil
  paint c (node d l k v r) = node c l k v r

  unfoldable pub frame_color : Frame K V → Color
  frame_color (on_left c k v r) = c
  frame_color (on_right c l k v) = c

  unfoldable pub plug : Frame K V → Tree K V → Tree K V
  plug (on_left c k v r) t = node c t k v r
  plug (on_right c l k v) t = node c l k v t

  -- The whole tree, seen from the subtree `t` at the end of a path.
  unfoldable pub unzip : List (Frame K V) → Tree K V → Tree K V
  unzip [] t = t
  unzip (f ∷ path) t = unzip path (plug f t)

  -- The sentinel cannot be rotated up: its children are NULL.
  unfoldable pub left_rotate : Tree K V → Outcome (Tree K V)
  left_rotate (node c a k v (node d b m w e)) = ok (node d (node c a k v b) m w e)
  left_rotate (node c a k v nil) = fault
  left_rotate nil = fault

  unfoldable pub right_rotate : Tree K V → Outcome (Tree K V)
  right_rotate (node c (node d a m w b) k v e) = ok (node d a m w (node c b k v e))
  right_rotate (node c nil k v e) = fault
  right_rotate nil = fault

  -- `y`, the other child of the grandparent.
  unfoldable pub uncle : Frame K V → Tree K V
  uncle (on_left c k v r) = r
  uncle (on_right c l k v) = l

  unfoldable pub paint_uncle : Frame K V → Frame K V
  paint_uncle (on_left c k v r) = on_left c k v (paint black r)
  paint_uncle (on_right c l k v) = on_right c (paint black l) k v

  -- The branch with a black uncle: `parent` is `z->parent`, made of the frame `p` and of `z`.
  unfoldable pub rotate_up : (g p : Frame K V) → (parent : Tree K V) → Outcome (Tree K V)
  rotate_up (on_left c k v y) (on_right _ _ _ _) parent = do
    t ← left_rotate parent
    right_rotate (paint red (plug (on_left c k v y) (paint black t)))
  rotate_up (on_left c k v y) (on_left _ _ _ _) parent =
      right_rotate (paint red (plug (on_left c k v y) (paint black parent)))
  rotate_up (on_right c y k v) (on_left _ _ _ _) parent = do
    t ← right_rotate parent
    left_rotate (paint red (plug (on_right c y k v) (paint black t)))
  rotate_up (on_right c y k v) (on_right _ _ _ _) parent =
      left_rotate (paint red (plug (on_right c y k v) (paint black parent)))

  -- The loop at the red node `z` with the path above it; where the path has ended, the loop is left
  -- by its `break`. After the rotations the parent of `z` is black, which ends the loop too.
  unfoldable pub insert_fixup : Tree K V → List (Frame K V) → Outcome (Tree K V)
  insert_fixup z [] = ok (paint black z)
  insert_fixup z (p ∷ []) = if is_red (frame_color p) then fault else ok (paint black (plug p z))
  insert_fixup z (p ∷ g ∷ path) =
      if is_red (frame_color p)
      then if is_red (tree_color (uncle g))
        then insert_fixup (paint red (plug (paint_uncle g) (paint black (plug p z)))) path
        else (do t ← rotate_up g p (plug p z); ok (paint black (unzip path t)))
      else ok (paint black (unzip (p ∷ g ∷ path) z))

  -- The in-order traversal of `mboxRBTreeForEach`; `s` is what the closure holds.
  unfoldable pub for_each : {S : Type 0} → Tree K V → (K → V → S → S) → S → S
  for_each nil cb s = s
  for_each (node c l k v r) cb s = for_each r cb (cb k v (for_each l cb s))

  -- The nodes that `mboxRBTreeClear` releases, in order.
  unfoldable pub node_free : Tree K V → List (K × V)
  node_free nil = []
  node_free (node c l k v r) = node_free l ++ (node_free r ++ (k, v) ∷ [])

module _ {K V : Type 0} (keycmp : K → K → Sign) where
  -- The loop that looks for the place of a new key; `none` when the key is there.
  unfoldable pub descend : K → Tree K V → List (Frame K V) → Option (List (Frame K V))
  descend key nil path = some path
  descend key (node c l k v r) path = elim (keycmp key k) [
    | less ↦ descend key l (on_left c k v r ∷ path)
    | greater ↦ descend key r (on_right c l k v ∷ path)
    | equal ↦ none
  ]

  -- The new node below its parent. The second comparison with the key of the parent is that of the
  -- last step, so the side is that of the frame.
  unfoldable pub attach : List (Frame K V) → K → V → Outcome (Tree K V)
  unfolding insert_fixup
  attach [] key value = ok (node black nil key value nil)
  attach (p ∷ []) key value = ok (plug p (node red nil key value nil))
  attach (p ∷ g ∷ path) key value = insert_fixup (node red nil key value nil) (p ∷ g ∷ path)

  unfoldable pub node_find : Tree K V → K → Option V
  node_find nil key = none
  node_find (node c l k v r) key = elim (keycmp key k) [
    | equal ↦ some v
    | less ↦ node_find l key
    | greater ↦ node_find r key
  ]

  -- The loop of `mboxRBTreeDelete` that looks for the node to delete. The key of the sentinel is
  -- NULL, which the comparison of the trees of this program reads.
  unfoldable pub delete_search : ℕ → Tree K V → K → Outcome (Tree K V)
  delete_search zero cur key = out_of_fuel
  delete_search (suc fuel) nil key = fault
  delete_search (suc fuel) (node c l k v r) key = elim (keycmp key k) [
    | equal ↦ delete_search fuel (node c l k v r) key
    | greater ↦ delete_search fuel r key
    | less ↦ delete_search fuel l key
  ]

-- `struct mboxRBTree` without its callbacks.
pub record MboxRbTree (K V : Type 0) : Type 0 where
  pub root : Tree K V
  pub size : ℕ

module _ {K V : Type 0} where
  unfoldable pub tree_new : MboxRbTree K V
  tree_new = record { root = nil; size = 0 }

  -- A key that is in the tree leaves it as it is.
  unfoldable pub insert : (K → K → Sign) → MboxRbTree K V → K → V → Outcome (MboxRbTree K V)
  unfolding descend attach
  insert keycmp t key value = elim (descend keycmp key t.root []) [
    | none ↦ ok t
    | some path ↦ (do
      root ← attach keycmp path key value
      ok (record t { root = root; size = t.size + 1 }))
  ]

  unfoldable pub get : (K → K → Sign) → MboxRbTree K V → K → Option V
  unfolding node_find
  get keycmp t key = node_find keycmp t.root key

  unfoldable pub has : (K → K → Sign) → MboxRbTree K V → K → Bool
  unfolding node_find
  has keycmp t key = elim (node_find keycmp t.root key) [ none ↦ false | some v ↦ true ]

  unfoldable pub clear : MboxRbTree K V → List (K × V) × MboxRbTree K V
  unfolding node_free
  clear t = if t.size == 0 then ([], t) else (node_free t.root, record { root = nil; size = 0 })
