-- ===== src/RbTree/Insert.antt =====
-- `mboxRBTreeInsert`: the ordered map that it implements, and the invariant that it keeps.
use libmbox.Base.{
  ◌+◌, ◌≡◌, refl, sym, ap, ◌∙◌, List, [], ◌∷◌, ◌++◌, Option, none, some, inl, inr, arith, length,
  length-append, append-nil,
}
use libmbox.Base.Outcome.{ok}
use libmbox.RbTree.{
  MboxRbTree, Sign, less, red, black, nil, node, Frame, on_left, on_right, insert, attach, descend,
  plug, unzip, tree_color,
}
use libmbox.RbTree.Balance.{
  IsBalanced, GivesBalanced, IsRedBlack, IsPath, StartsBlack, insert_fixup-GivesBalanced,
}
use libmbox.RbTree.Contents.{
  to_list, before, after, All, Ascending, insert_entry, IsKeyOrder, to_list-unzip,
}
use libmbox.RbTree.Entries.{Holds-ok, attach-Holds}
use libmbox.RbTree.Place.{
  Sign_cases, Placed, descend-Placed, IsPlace, descend-IsPlace, Above, descend-Above,
}

module _ {K V : Type 0} (keycmp : K → K → Sign) where
  -- The red-black invariant, ascending keys, and the count of the nodes.
  pub record IsMap (t : MboxRbTree K V) : Type 0 where
    pub balanced : IsBalanced t.root
    pub ascending : Ascending keycmp (to_list t.root)
    pub count : t.size ≡ length (to_list t.root)

  attach-GivesBalanced :
      (path : List (Frame K V)) (key : K) (value : V)
      → IsPath path 0
      → GivesBalanced (attach keycmp path key value)
  unfolding attach IsPath IsRedBlack StartsBlack plug tree_color
  attach-GivesBalanced [] key value h =
      (node black nil key value nil, refl, (refl, (1, (0, refl, refl, refl))))
  attach-GivesBalanced (on_left red _ _ _ ∷ []) key value (_, _, _, s) = absurd s
  attach-GivesBalanced (on_right red _ _ _ ∷ []) key value (_, _, _, s) = absurd s
  attach-GivesBalanced (on_left black k v r ∷ []) key value (h, _) = (
    node black (node red nil key value nil) k v r,
    refl,
    (refl, (1, (0, refl, (refl, refl, refl, refl), h))),
  )
  attach-GivesBalanced (on_right black l k v ∷ []) key value (h, _) = (
    node black l k v (node red nil key value nil),
    refl,
    (refl, (1, (0, refl, h, (refl, refl, refl, refl)))),
  )
  attach-GivesBalanced (p ∷ g ∷ path) key value h =
      insert_fixup-GivesBalanced (p ∷ g ∷ path) 0 nil key value nil (refl, refl, refl, refl) h

  All-insert_entry :
      (a key : K) (value : V) (s : Sign) (xs : List (K × V))
      → keycmp a key ≡ s
      → All keycmp a s xs
      → All keycmp a s (insert_entry keycmp key value xs)
  unfolding insert_entry
  All-insert_entry a key value s [] e h = (e, tt)
  All-insert_entry a key value s ((k, v) ∷ xs) e (h, hs) = elim (Sign_cases (keycmp key k)) [
    | inl l ↦ rw (insert_entry, l) (e, (h, hs))
    | inr (inl q) ↦ rw (insert_entry, q) (h, hs)
    | inr (inr g) ↦ rw (insert_entry, g) (h, All-insert_entry a key value s xs e hs)
  ]

  All-less_trans :
      IsKeyOrder keycmp
      → (a b : K) (xs : List (K × V)) → keycmp a b ≡ less
      → All keycmp b less xs
      → All keycmp a less xs
  All-less_trans o a b [] e h = tt
  All-less_trans o a b ((c, _) ∷ xs) e (h, hs) =
      (o.less_trans a b c e h, All-less_trans o a b xs e hs)

  pub insert_entry-Ascending :
      IsKeyOrder keycmp
      → (key : K) (value : V) (xs : List (K × V)) → Ascending keycmp xs
      → Ascending keycmp (insert_entry keycmp key value xs)
  unfolding insert_entry
  insert_entry-Ascending o key value [] h = (tt, tt)
  insert_entry-Ascending o key value ((k, v) ∷ xs) (h, hs) = elim (Sign_cases (keycmp key k)) [
    | inl l ↦ rw (insert_entry, l) ((l, All-less_trans o key k xs l h), (h, hs))
    | inr (inl q) ↦ rw (insert_entry, q) (h, hs)
    | inr (inr g) ↦
        rw (insert_entry, g)
          (
            All-insert_entry k key value less xs (o.flip_greater key k g) h,
            insert_entry-Ascending o key value xs hs,
          )
  ]

  -- The tree after the search has ended.
  inserted :
      (t : MboxRbTree K V) (key : K) (value : V) (o : IsKeyOrder keycmp)
      → IsMap t
      → (found : Option (List (Frame K V))) → descend keycmp key t.root [] ≡ found
      → Placed keycmp key value t.root [] found
      → IsPlace found
      → Above t.root [] found
      → (t' : MboxRbTree K V) × (insert keycmp t key value ≡ ok t')
        × (to_list t'.root ≡ insert_entry keycmp key value (to_list t.root))
        × IsMap t'
  unfolding insert Placed IsPlace Above unzip
  inserted t key value o m none e h p a = (t, rw (insert, e) refl, sym h, m)
  inserted t key value o m (some path) e h p a =
      let (root, run, good) = attach-GivesBalanced path key value p in
      let held =
        Holds-ok (attach keycmp path key value) root (before path ++ (key, value) ∷ after path) run
          (attach-Holds keycmp path key value) in
      let same : to_list root ≡ insert_entry keycmp key value (to_list t.root) =
        held ∙ h ∙ append-nil (insert_entry keycmp key value (to_list t.root)) in
      (
        record t { root = root; size = t.size + 1 },
        rw (insert, e, run) refl,
        same,
        record {
          balanced = good;
          ascending = rw same (insert_entry-Ascending o key value (to_list t.root) m.ascending);
          count = omega (
            arith,
            m.count,
            ap (λ s. length s) held,
            ap (λ s. length s) (sym (to_list-unzip path nil) ∙ ap to_list a),
            length-append (before path) ((key, value) ∷ after path),
            length-append (before path) (after path),
          );
        },
      )

  -- On a valid tree and for a comparison that orders the keys, `mboxRBTreeInsert` returns without a
  -- wrong access: the entries in order are the old ones with the new one in its place, or the old
  -- ones if the key is there, and the tree is valid again: it is red-black, ascends, and is counted.
  pub insert-IsMap :
      IsKeyOrder keycmp
      → (t : MboxRbTree K V) (key : K) (value : V) → IsMap t
      → (t' : MboxRbTree K V) × (insert keycmp t key value ≡ ok t')
        × (to_list t'.root ≡ insert_entry keycmp key value (to_list t.root))
        × IsMap t'
  unfolding IsPath
  insert-IsMap o t key value m =
      let (b, (n, h)) = m.balanced in
      inserted t key value o m (descend keycmp key t.root []) refl
        (descend-Placed keycmp o key value t.root [] m.ascending)
        (descend-IsPlace keycmp key t.root [] n h tt (inl b)) (descend-Above keycmp key t.root [])
