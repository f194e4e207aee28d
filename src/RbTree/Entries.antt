-- ===== src/RbTree/Entries.antt =====
-- The rotations and the fixup keep the entries of the tree, and their order.
use libmbox.Base.{
  ◌≡◌, refl, sym, ap, subst, ◌∙◌, List, [], ◌∷◌, ◌++◌, append_assoc, inl, inr, Bool-cases,
}
use libmbox.Base.Outcome.{Outcome, ok, fault, out_of_fuel, blocked, ◌>>=◌}
use libmbox.RbTree.{
  Sign, red, black, Tree, nil, node, Frame, on_left, on_right, paint, plug, unzip, left_rotate,
  right_rotate, rotate_up, insert_fixup, attach, uncle, paint_uncle, is_red, frame_color,
  tree_color,
}
use libmbox.RbTree.Contents.{to_list, before, after, to_list-paint, to_list-unzip}

module _ {K V : Type 0} where
  -- If the outcome is a tree, it holds the entries.
  unfoldable pub Holds : Outcome (Tree K V) → List (K × V) → Type 0
  Holds (ok t) xs = to_list t ≡ xs
  Holds fault xs = Unit {0}
  Holds out_of_fuel xs = Unit {0}
  Holds blocked xs = Unit {0}

  pub Holds-ok :
      (o : Outcome (Tree K V)) (t : Tree K V) (xs : List (K × V))
      → o ≡ ok t
      → Holds o xs
      → to_list t ≡ xs
  unfolding Holds
  Holds-ok o t xs e h = subst (λ o. Holds o xs) e h

  Holds-bind :
      (o : Outcome (Tree K V)) (f : Tree K V → Outcome (Tree K V)) (xs ys : List (K × V))
      → Holds o xs
      → ((t : Tree K V) → to_list t ≡ xs → Holds (f t) ys)
      → Holds (o >>= f) ys
  unfolding Holds
  Holds-bind (ok t) f xs ys h g = g t h
  Holds-bind fault f xs ys h g = tt
  Holds-bind out_of_fuel f xs ys h g = tt
  Holds-bind blocked f xs ys h g = tt

  left_rotate-Holds : (t : Tree K V) → Holds (left_rotate t) (to_list t)
  unfolding Holds left_rotate
  left_rotate-Holds (node c a k v (node d b m w e)) =
      append_assoc (to_list a) ((k, v) ∷ to_list b) ((m, w) ∷ to_list e)
  left_rotate-Holds (node c a k v nil) = tt
  left_rotate-Holds nil = tt

  right_rotate-Holds : (t : Tree K V) → Holds (right_rotate t) (to_list t)
  unfolding Holds right_rotate
  right_rotate-Holds (node c (node d a m w b) k v e) =
      sym (append_assoc (to_list a) ((m, w) ∷ to_list b) ((k, v) ∷ to_list e))
  right_rotate-Holds (node c nil k v e) = tt
  right_rotate-Holds nil = tt

  unzip_same :
      (path : List (Frame K V)) (a b : Tree K V)
      → to_list a ≡ to_list b
      → to_list (unzip path a) ≡ to_list (unzip path b)
  unzip_same path a b e =
      to_list-unzip path a
      ∙ ap (λ s. before path ++ (s ++ after path)) e
      ∙ sym (to_list-unzip path b)

  plug_same :
      (g : Frame K V) (a b : Tree K V)
      → to_list a ≡ to_list b
      → to_list (plug g a) ≡ to_list (plug g b)
  unfolding plug
  plug_same (on_left c k v r) a b e = ap (λ s. s ++ (k, v) ∷ to_list r) e
  plug_same (on_right c l k v) a b e = ap (λ s. to_list l ++ (k, v) ∷ s) e

  plug-paint_uncle :
      (g : Frame K V) (t : Tree K V) → to_list (plug (paint_uncle g) t) ≡ to_list (plug g t)
  unfolding plug paint_uncle
  plug-paint_uncle (on_left c k v r) t = ap (λ s. to_list t ++ (k, v) ∷ s) (to_list-paint black r)
  plug-paint_uncle (on_right c l k v) t = ap (λ s. s ++ (k, v) ∷ to_list t) (to_list-paint black l)

  -- The last rotation, of the grandparent.
  repainted :
      (g : Frame K V) (t parent : Tree K V)
      → to_list t ≡ to_list parent
      → to_list (paint red (plug g (paint black t))) ≡ to_list (plug g parent)
  repainted g t parent e =
      to_list-paint red (plug g (paint black t))
      ∙ plug_same g (paint black t) parent (to_list-paint black t ∙ e)

  rotate_up-Holds :
      (g p : Frame K V) (parent : Tree K V) → Holds (rotate_up g p parent) (to_list (plug g parent))
  unfolding rotate_up
  rotate_up-Holds (on_left c k v y) (on_right _ _ _ _) parent =
      let g : Frame K V = on_left c k v y in
      Holds-bind (left_rotate parent) _ (to_list parent) (to_list (plug g parent))
        (left_rotate-Holds parent)
        λ t e.
          subst (Holds (right_rotate (paint red (plug g (paint black t))))) (repainted g t parent e)
            (right_rotate-Holds (paint red (plug g (paint black t))))
  rotate_up-Holds (on_left c k v y) (on_left _ _ _ _) parent =
      let g : Frame K V = on_left c k v y in
      subst (Holds (right_rotate (paint red (plug g (paint black parent)))))
        (repainted g parent parent refl)
        (right_rotate-Holds (paint red (plug g (paint black parent))))
  rotate_up-Holds (on_right c y k v) (on_left _ _ _ _) parent =
      let g : Frame K V = on_right c y k v in
      Holds-bind (right_rotate parent) _ (to_list parent) (to_list (plug g parent))
        (right_rotate-Holds parent)
        λ t e.
          subst (Holds (left_rotate (paint red (plug g (paint black t))))) (repainted g t parent e)
            (left_rotate-Holds (paint red (plug g (paint black t))))
  rotate_up-Holds (on_right c y k v) (on_right _ _ _ _) parent =
      let g : Frame K V = on_right c y k v in
      subst (Holds (left_rotate (paint red (plug g (paint black parent)))))
        (repainted g parent parent refl)
        (left_rotate-Holds (paint red (plug g (paint black parent))))

  insert_fixup-Holds :
      (z : Tree K V) (path : List (Frame K V))
      → Holds (insert_fixup z path) (to_list (unzip path z))
  unfolding insert_fixup Holds unzip
  insert_fixup-Holds z [] = to_list-paint black z
  insert_fixup-Holds z (p ∷ []) = elim (Bool-cases (is_red (frame_color p))) [
    | inl e ↦ rw e tt
    | inr e ↦ rw e (to_list-paint black (plug p z))
  ]
  insert_fixup-Holds z (p ∷ g ∷ path) = elim (Bool-cases (is_red (frame_color p))) [
    | inr e ↦ rw e (to_list-paint black (unzip (p ∷ g ∷ path) z))
    | inl e ↦ elim (Bool-cases (is_red (tree_color (uncle g)))) [
      | inl f ↦
          let z' : Tree K V = paint red (plug (paint_uncle g) (paint black (plug p z))) in
          let same : to_list z' ≡ to_list (plug g (plug p z)) =
            to_list-paint red (plug (paint_uncle g) (paint black (plug p z)))
            ∙ plug-paint_uncle g (paint black (plug p z))
            ∙ plug_same g (paint black (plug p z)) (plug p z) (to_list-paint black (plug p z)) in
          rw (e, f)
            (subst (Holds (insert_fixup z' path)) (unzip_same path z' (plug g (plug p z)) same)
              (insert_fixup-Holds z' path))
      | inr f ↦
          rw (e, f)
            (Holds-bind (rotate_up g p (plug p z)) _ (to_list (plug g (plug p z)))
              (to_list (unzip path (plug g (plug p z)))) (rotate_up-Holds g p (plug p z))
              λ t s. to_list-paint black (unzip path t) ∙ unzip_same path t (plug g (plug p z)) s)
    ]
  ]

  pub attach-Holds :
      (keycmp : K → K → Sign) (path : List (Frame K V)) (key : K) (value : V)
      → Holds (attach keycmp path key value) (before path ++ (key, value) ∷ after path)
  unfolding attach Holds unzip insert_fixup
  attach-Holds keycmp [] key value = refl
  attach-Holds keycmp (p ∷ []) key value = to_list-unzip (p ∷ []) (node red nil key value nil)
  attach-Holds keycmp (p ∷ g ∷ path) key value =
      subst (Holds (insert_fixup (node red nil key value nil) (p ∷ g ∷ path)))
        (to_list-unzip (p ∷ g ∷ path) (node red nil key value nil))
        (insert_fixup-Holds (node red nil key value nil) (p ∷ g ∷ path))
