-- ===== src/RbTree/Balance.antt =====
-- The red-black invariant, and that the fixup restores it without a wrong access.
use libmbox.Base.{ℕ, suc, ◌≡◌, refl, subst, List, [], ◌∷◌, arith, true, false, inl, inr, ◌⊎◌}
use libmbox.Base.Outcome.{Outcome, ok}
use libmbox.RbTree.{
  Color, red, black, Tree, nil, node, Frame, on_left, on_right, paint, plug, unzip, left_rotate,
  right_rotate, rotate_up, insert_fixup, uncle, paint_uncle, is_red, frame_color, tree_color,
}

pub red_black : {A : Type 0} → red ≡ black → A
red_black e = absurd (subst IsRed e tt)
  where
    IsRed : Color → Type 0
    IsRed red = Unit {0}
    IsRed black = ⊥

module _ {K V : Type 0} where
  abbrev pub IsBlack : Tree K V → Type 0
  IsBlack t = tree_color t ≡ black

  -- A red node has black children, and every path down passes `n` black nodes.
  unfoldable pub IsRedBlack : Tree K V → ℕ → Type 0
  IsRedBlack nil n = n ≡ 0
  IsRedBlack (node red l k v r) n = IsBlack l × IsBlack r × IsRedBlack l n × IsRedBlack r n
  IsRedBlack (node black l k v r) n = (m : ℕ) × (n ≡ suc m) × IsRedBlack l m × IsRedBlack r m

  -- The first frame of the path is black, and there is one.
  unfoldable pub StartsBlack : List (Frame K V) → Type 0
  StartsBlack [] = ⊥
  StartsBlack (f ∷ path) = frame_color f ≡ black

  -- The path is that of a red-black tree, at a place for a black subtree of black height `n`.
  unfoldable pub IsPath : List (Frame K V) → ℕ → Type 0
  IsPath [] n = Unit {0}
  IsPath (on_left red k v r ∷ path) n =
      IsBlack r × IsRedBlack r n × IsPath path n × StartsBlack path
  IsPath (on_right red l k v ∷ path) n =
      IsBlack l × IsRedBlack l n × IsPath path n × StartsBlack path
  IsPath (on_left black k v r ∷ path) n = IsRedBlack r n × IsPath path (suc n)
  IsPath (on_right black l k v ∷ path) n = IsRedBlack l n × IsPath path (suc n)

  -- The tree satisfies the invariant, and its root is black.
  abbrev pub IsBalanced : Tree K V → Type 0
  IsBalanced t = IsBlack t × ((n : ℕ) × IsRedBlack t n)

  -- The outcome is such a tree.
  abbrev pub GivesBalanced : Outcome (Tree K V) → Type 0
  GivesBalanced o = (t : Tree K V) × (o ≡ ok t) × IsBalanced t

  -- The subtree may be black, or below a black node, or the whole tree.
  unfoldable pub Fits : Tree K V → List (Frame K V) → Type 0
  Fits t [] = Unit {0}
  Fits t (f ∷ path) = (tree_color t ≡ black) ⊎ (frame_color f ≡ black)

  pub Fits-black : (t : Tree K V) (path : List (Frame K V)) → IsBlack t → Fits t path
  unfolding Fits
  Fits-black t [] e = tt
  Fits-black t (f ∷ path) e = inl e

  pub Fits-StartsBlack : (t : Tree K V) (path : List (Frame K V)) → StartsBlack path → Fits t path
  unfolding Fits StartsBlack
  Fits-StartsBlack t [] e = tt
  Fits-StartsBlack t (f ∷ path) e = inr e

  paint-IsBlack : (t : Tree K V) → IsBlack (paint black t)
  unfolding paint tree_color
  paint-IsBlack nil = refl
  paint-IsBlack (node c l k v r) = refl

  -- A painted root counts one black node more, if it was red.
  paint-IsRedBlack :
      (t : Tree K V) (n : ℕ)
      → is_red (tree_color t) ≡ true
      → IsRedBlack t n
      → IsRedBlack (paint black t) (suc n)
  unfolding paint tree_color is_red IsRedBlack
  paint-IsRedBlack nil n e h = absurd (ground arith)
  paint-IsRedBlack (node red l k v r) n e (bl, br, hl, hr) = (n, refl, hl, hr)
  paint-IsRedBlack (node black l k v r) n e h = absurd (ground arith)

  color_cases :
      (t : Tree K V)
      → (is_red (tree_color t) ≡ true) ⊎ ((is_red (tree_color t) ≡ false) × IsBlack t)
  unfolding tree_color is_red
  color_cases nil = inr (refl, refl)
  color_cases (node red l k v r) = inl refl
  color_cases (node black l k v r) = inr (refl, refl)

  paint-IsBalanced : (t : Tree K V) (n : ℕ) → IsRedBlack t n → IsBalanced (paint black t)
  unfolding paint tree_color IsRedBlack
  paint-IsBalanced nil n h = (refl, (n, h))
  paint-IsBalanced (node red l k v r) n (bl, br, hl, hr) = (refl, (suc n, (n, refl, hl, hr)))
  paint-IsBalanced (node black l k v r) n h = (refl, (n, h))

  unzip-IsBalanced :
      (path : List (Frame K V)) (n : ℕ) (t : Tree K V)
      → IsPath path n
      → IsRedBlack t n
      → Fits t path
      → IsBalanced (paint black (unzip path t))
  unfolding unzip plug IsPath IsRedBlack Fits frame_color tree_color
  unzip-IsBalanced [] n t hp ht f = paint-IsBalanced t n ht
  unzip-IsBalanced (on_left red k v r ∷ path) n t (br, hr, hp, s) ht (inl bt) =
      unzip-IsBalanced path n (node red t k v r) hp (bt, br, ht, hr)
        (Fits-StartsBlack (node red t k v r) path s)
  unzip-IsBalanced (on_left red k v r ∷ path) n t hp ht (inr e) = red_black e
  unzip-IsBalanced (on_right red l k v ∷ path) n t (bl, hl, hp, s) ht (inl bt) =
      unzip-IsBalanced path n (node red l k v t) hp (bl, bt, hl, ht)
        (Fits-StartsBlack (node red l k v t) path s)
  unzip-IsBalanced (on_right red l k v ∷ path) n t hp ht (inr e) = red_black e
  unzip-IsBalanced (on_left black k v r ∷ path) n t (hr, hp) ht f =
      unzip-IsBalanced path (suc n) (node black t k v r) hp (n, refl, ht, hr)
        (Fits-black (node black t k v r) path refl)
  unzip-IsBalanced (on_right black l k v ∷ path) n t (hl, hp) ht f =
      unzip-IsBalanced path (suc n) (node black l k v t) hp (n, refl, hl, ht)
        (Fits-black (node black l k v t) path refl)

  -- A black subtree in its place is the end of the fixup.
  settled :
      (path : List (Frame K V)) (n : ℕ) (t : Tree K V)
      → IsPath path n
      → IsRedBlack t n
      → IsBlack t
      → GivesBalanced (ok (paint black (unzip path t)))
  settled path n t hp ht bt =
      (paint black (unzip path t), refl, unzip-IsBalanced path n t hp ht (Fits-black t path bt))

  -- So is a red one below a black node.
  below_black :
      (f : Frame K V) (path : List (Frame K V)) (n : ℕ) (t : Tree K V)
      → IsPath (f ∷ path) n
      → IsRedBlack t n
      → frame_color f ≡ black
      → GivesBalanced (ok (paint black (unzip (f ∷ path) t)))
  unfolding Fits
  below_black f path n t hp ht e =
      (paint black (unzip (f ∷ path) t), refl, unzip-IsBalanced (f ∷ path) n t hp ht (inr e))

  pub insert_fixup-GivesBalanced :
      (path : List (Frame K V)) (n : ℕ) (l : Tree K V) (k : K) (v : V) (r : Tree K V)
      → IsRedBlack (node red l k v r) n
      → IsPath path n
      → GivesBalanced (insert_fixup (node red l k v r) path)
  unfolding insert_fixup IsPath IsRedBlack StartsBlack frame_color is_red uncle paint_uncle paint
      plug unzip rotate_up left_rotate right_rotate tree_color
  insert_fixup-GivesBalanced [] n l k v r hz hp =
      (node black l k v r, refl, paint-IsBalanced (node red l k v r) n hz)
  insert_fixup-GivesBalanced (on_left red _ _ _ ∷ []) n l k v r hz (_, _, _, s) = absurd s
  insert_fixup-GivesBalanced (on_right red _ _ _ ∷ []) n l k v r hz (_, _, _, s) = absurd s
  insert_fixup-GivesBalanced (on_left black pk pv pr ∷ []) n l k v r hz hp =
      below_black (on_left black pk pv pr) [] n (node red l k v r) hp hz refl
  insert_fixup-GivesBalanced (on_right black pl pk pv ∷ []) n l k v r hz hp =
      below_black (on_right black pl pk pv) [] n (node red l k v r) hp hz refl
  insert_fixup-GivesBalanced (on_left black pk pv pr ∷ g ∷ path) n l k v r hz hp =
      below_black (on_left black pk pv pr) (g ∷ path) n (node red l k v r) hp hz refl
  insert_fixup-GivesBalanced (on_right black pl pk pv ∷ g ∷ path) n l k v r hz hp =
      below_black (on_right black pl pk pv) (g ∷ path) n (node red l k v r) hp hz refl
  insert_fixup-GivesBalanced (on_left red _ _ _ ∷ on_left red _ _ _ ∷ _) n l k v r hz (_, _, _, s) =
      red_black s
  insert_fixup-GivesBalanced (on_left red _ _ _ ∷ on_right red _ _ _ ∷ _) n l k v r hz
        (_, _, _, s) =
      red_black s
  insert_fixup-GivesBalanced (on_right red _ _ _ ∷ on_left red _ _ _ ∷ _) n l k v r hz
        (_, _, _, s) =
      red_black s
  insert_fixup-GivesBalanced (on_right red _ _ _ ∷ on_right red _ _ _ ∷ _) n l k v r hz
        (_, _, _, s) =
      red_black s
  insert_fixup-GivesBalanced (on_left red pk pv pr ∷ on_left black gk gv y ∷ path) n l k v r hz
        (bp, hpr, (hy, hp), _) =
      elim (color_cases y) [
        | inl e ↦ rw e (
            insert_fixup-GivesBalanced path (suc n) (node black (node red l k v r) pk pv pr) gk gv
              (paint black y) (refl, paint-IsBlack y, (n, refl, hz, hpr), paint-IsRedBlack y n e hy)
              hp)
        | inr (e, by) ↦ rw e (
            settled path (suc n) (node black (node red l k v r) pk pv (node red pr gk gv y)) hp
              (n, refl, hz, (bp, by, hpr, hy)) refl)
      ]
  insert_fixup-GivesBalanced (on_right red pl pk pv ∷ on_left black gk gv y ∷ path) n l k v r
        (bl, br, hl, hr) (bp, hpl, (hy, hp), _) =
      elim (color_cases y) [
        | inl e ↦ rw e (
            insert_fixup-GivesBalanced path (suc n) (node black pl pk pv (node red l k v r)) gk gv
              (paint black y)
              (refl, paint-IsBlack y, (n, refl, hpl, (bl, br, hl, hr)), paint-IsRedBlack y n e hy)
              hp)
        | inr (e, by) ↦ rw e (
            settled path (suc n) (node black (node red pl pk pv l) k v (node red r gk gv y)) hp
              (n, refl, (bp, bl, hpl, hl), (br, by, hr, hy)) refl)
      ]
  insert_fixup-GivesBalanced (on_right red pl pk pv ∷ on_right black y gk gv ∷ path) n l k v r hz
        (bp, hpl, (hy, hp), _) =
      elim (color_cases y) [
        | inl e ↦ rw e (
            insert_fixup-GivesBalanced path (suc n) (paint black y) gk gv
              (node black pl pk pv (node red l k v r))
              (paint-IsBlack y, refl, paint-IsRedBlack y n e hy, (n, refl, hpl, hz)) hp)
        | inr (e, by) ↦ rw e (
            settled path (suc n) (node black (node red y gk gv pl) pk pv (node red l k v r)) hp
              (n, refl, (by, bp, hy, hpl), hz) refl)
      ]
  insert_fixup-GivesBalanced (on_left red pk pv pr ∷ on_right black y gk gv ∷ path) n l k v r
        (bl, br, hl, hr) (bp, hpr, (hy, hp), _) =
      elim (color_cases y) [
        | inl e ↦ rw e (
            insert_fixup-GivesBalanced path (suc n) (paint black y) gk gv
              (node black (node red l k v r) pk pv pr)
              (paint-IsBlack y, refl, paint-IsRedBlack y n e hy, (n, refl, (bl, br, hl, hr), hpr))
              hp)
        | inr (e, by) ↦ rw e (
            settled path (suc n) (node black (node red y gk gv l) k v (node red r pk pv pr)) hp
              (n, refl, (by, bl, hy, hl), (br, bp, hr, hpr)) refl)
      ]
