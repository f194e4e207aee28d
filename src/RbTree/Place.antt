-- ===== src/RbTree/Place.antt =====
-- Where `mboxRBTreeInsert` puts a new node: in the right place of the order, and of the tree.
use libmbox.Base.{
  ℕ, suc, ◌≡◌, refl, sym, ap, subst, ◌∙◌, ◌⊎◌, inl, inr, List, [], ◌∷◌, ◌++◌, append_assoc, Option,
  none, some,
}
use libmbox.RbTree.{
  Sign, less, equal, greater, Color, red, black, Tree, nil, node, Frame, on_left, on_right, descend,
  tree_color, unzip, plug, frame_color,
}
use libmbox.RbTree.Balance.{IsRedBlack, IsPath, IsBlack, StartsBlack, red_black}
use libmbox.RbTree.Contents.{to_list, before, after, All, Ascending, insert_entry, IsKeyOrder}

pub Sign_cases : (s : Sign) → (s ≡ less) ⊎ (s ≡ equal) ⊎ (s ≡ greater)
Sign_cases less = inl refl
Sign_cases equal = inr (inl refl)
Sign_cases greater = inr (inr refl)

-- The place that is found is one of the sentinels, at black height 0.
unfoldable pub IsPlace : {K V : Type 0} → Option (List (Frame K V)) → Type 0
IsPlace none = Unit {0}
IsPlace (some path) = IsPath path 0

-- It belongs to the whole tree that the search is in.
unfoldable pub Above :
    {K V : Type 0} → Tree K V → List (Frame K V) → Option (List (Frame K V)) → Type 0
Above t path none = Unit {0}
Above t path (some found) = unzip found nil ≡ unzip path t

module _ {K V : Type 0} (keycmp : K → K → Sign) where
  pub All-append-left :
      (k : K) (s : Sign) (xs ys : List (K × V)) → All keycmp k s (xs ++ ys) → All keycmp k s xs
  All-append-left k s [] ys h = tt
  All-append-left k s ((a, _) ∷ xs) ys (e, h) = (e, All-append-left k s xs ys h)

  pub Ascending-left : (xs ys : List (K × V)) → Ascending keycmp (xs ++ ys) → Ascending keycmp xs
  Ascending-left [] ys h = tt
  Ascending-left ((k, _) ∷ xs) ys (h, hs) =
      (All-append-left k less xs ys h, Ascending-left xs ys hs)

  pub Ascending-right : (xs ys : List (K × V)) → Ascending keycmp (xs ++ ys) → Ascending keycmp ys
  Ascending-right [] ys h = h
  Ascending-right (x ∷ xs) ys h = Ascending-right xs ys (h.1)

  All-at :
      (a : K) (s : Sign) (xs : List (K × V)) (k : K) (v : V) (ys : List (K × V))
      → All keycmp a s (xs ++ (k, v) ∷ ys)
      → keycmp a k ≡ s
  All-at a s [] k v ys (e, _) = e
  All-at a s (x ∷ xs) k v ys (_, h) = All-at a s xs k v ys h

  -- In an ascending list the keys before an entry are less than its key.
  pub All-greater :
      IsKeyOrder keycmp
      → (xs : List (K × V)) (k : K) (v : V) (ys : List (K × V))
      → Ascending keycmp (xs ++ (k, v) ∷ ys)
      → All keycmp k greater xs
  All-greater o [] k v ys h = tt
  All-greater o ((a, _) ∷ xs) k v ys (h, hs) =
      (o.flip_less a k (All-at a less xs k v ys h), All-greater o xs k v ys hs)

  pub All-from :
      (a k : K)
      → ((b : K) → keycmp k b ≡ greater → keycmp a b ≡ greater)
      → (xs : List (K × V)) → All keycmp k greater xs
      → All keycmp a greater xs
  All-from a k f [] h = tt
  All-from a k f ((b, _) ∷ xs) (e, h) = (f b e, All-from a k f xs h)

  -- The entry goes before an entry with a larger key.
  insert_entry-before :
      (key k : K) (value v : V) (xs ys : List (K × V))
      → keycmp key k ≡ less
      → insert_entry keycmp key value (xs ++ (k, v) ∷ ys)
        ≡ insert_entry keycmp key value xs ++ (k, v) ∷ ys
  unfolding insert_entry
  insert_entry-before key k value v [] ys e = rw e refl
  insert_entry-before key k value v ((a, w) ∷ xs) ys e = elim (Sign_cases (keycmp key a)) [
    | inl l ↦ rw (insert_entry, l) refl
    | inr (inl q) ↦ rw (insert_entry, q) refl
    | inr (inr g) ↦
        rw (insert_entry, g) (ap (λ s. (a, w) ∷ s) (insert_entry-before key k value v xs ys e))
  ]

  -- It goes behind entries with smaller keys.
  insert_entry-behind :
      (key : K) (value : V) (xs ys : List (K × V))
      → All keycmp key greater xs
      → insert_entry keycmp key value (xs ++ ys) ≡ xs ++ insert_entry keycmp key value ys
  unfolding insert_entry
  insert_entry-behind key value [] ys h = refl
  insert_entry-behind key value ((a, w) ∷ xs) ys (e, h) =
      rw e (ap (λ s. (a, w) ∷ s) (insert_entry-behind key value xs ys h))

  -- What the search finds, for a subtree `t` below `path`.
  unfoldable pub Placed : K → V → Tree K V → List (Frame K V) → Option (List (Frame K V)) → Type 0
  Placed key value t path none = insert_entry keycmp key value (to_list t) ≡ to_list t
  Placed key value t path (some found) =
      before found ++ (key, value) ∷ after found
      ≡ before path ++ (insert_entry keycmp key value (to_list t) ++ after path)

  -- The entry at a node of the tree.
  insert_entry-node :
      IsKeyOrder keycmp
      → (key k : K) (value v : V) (xs ys : List (K × V)) → Ascending keycmp (xs ++ (k, v) ∷ ys)
      → (keycmp key k ≡ equal
          → insert_entry keycmp key value (xs ++ (k, v) ∷ ys) ≡ xs ++ (k, v) ∷ ys)
        × (keycmp key k ≡ greater
            → insert_entry keycmp key value (xs ++ (k, v) ∷ ys)
              ≡ xs ++ (k, v) ∷ insert_entry keycmp key value ys)
  unfolding insert_entry
  insert_entry-node o key k value v xs ys h =
      let below = All-greater o xs k v ys h in
      (
        λ e.
            insert_entry-behind key value xs ((k, v) ∷ ys)
              (All-from key k (λ b g. o.equal_greater key k b e g) xs below)
            ∙ rw (insert_entry, e) refl,
        λ e.
            insert_entry-behind key value xs ((k, v) ∷ ys)
              (All-from key k (λ b g. o.greater_trans key k b e g) xs below)
            ∙ rw (insert_entry, e) refl,
      )

  Placed-left :
      (key : K) (value : V) (c : Color) (l : Tree K V) (k : K) (v : V) (r : Tree K V)
      (path : List (Frame K V))
      → insert_entry keycmp key value (to_list l ++ (k, v) ∷ to_list r)
        ≡ insert_entry keycmp key value (to_list l) ++ (k, v) ∷ to_list r
      → (found : Option (List (Frame K V))) → Placed key value l (on_left c k v r ∷ path) found
      → Placed key value (node c l k v r) path found
  unfolding Placed
  Placed-left key value c l k v r path e none h = e ∙ ap (λ s. s ++ (k, v) ∷ to_list r) h
  Placed-left key value c l k v r path e (some found) h =
      h
      ∙ ap (λ s. before path ++ s)
          (sym (
              append_assoc (insert_entry keycmp key value (to_list l)) ((k, v) ∷ to_list r)
                (after path))
            ∙ ap (λ s. s ++ after path) (sym e))

  Placed-right :
      (key : K) (value : V) (c : Color) (l : Tree K V) (k : K) (v : V) (r : Tree K V)
      (path : List (Frame K V))
      → insert_entry keycmp key value (to_list l ++ (k, v) ∷ to_list r)
        ≡ to_list l ++ (k, v) ∷ insert_entry keycmp key value (to_list r)
      → (found : Option (List (Frame K V))) → Placed key value r (on_right c l k v ∷ path) found
      → Placed key value (node c l k v r) path found
  unfolding Placed
  Placed-right key value c l k v r path e none h = e ∙ ap (λ s. to_list l ++ (k, v) ∷ s) h
  Placed-right key value c l k v r path e (some found) h =
      let new = insert_entry keycmp key value (to_list r) in
      h
      ∙ append_assoc (before path) (to_list l ++ (k, v) ∷ []) (new ++ after path)
      ∙ ap (λ s. before path ++ s)
          (append_assoc (to_list l) ((k, v) ∷ []) (new ++ after path)
            ∙ sym (append_assoc (to_list l) ((k, v) ∷ new) (after path))
            ∙ ap (λ s. s ++ after path) (sym e))

  pub descend-Placed :
      IsKeyOrder keycmp
      → (key : K) (value : V) (t : Tree K V) (path : List (Frame K V))
      → Ascending keycmp (to_list t)
      → Placed key value t path (descend keycmp key t path)
  unfolding descend Placed insert_entry
  descend-Placed o key value nil path h = refl
  descend-Placed o key value (node c l k v r) path h = elim (Sign_cases (keycmp key k)) [
    | inl e ↦
        rw (Placed, descend, e)
          (Placed-left key value c l k v r path
            (insert_entry-before key k value v (to_list l) (to_list r) e)
            (descend keycmp key l (on_left c k v r ∷ path))
            (descend-Placed o key value l (on_left c k v r ∷ path)
              (Ascending-left (to_list l) ((k, v) ∷ to_list r) h)))
    | inr (inl e) ↦
        rw (Placed, descend, e) ((insert_entry-node o key k value v (to_list l) (to_list r) h).0 e)
    | inr (inr e) ↦
        rw (Placed, descend, e)
          (Placed-right key value c l k v r path
            ((insert_entry-node o key k value v (to_list l) (to_list r) h).1 e)
            (descend keycmp key r (on_right c l k v ∷ path))
            (descend-Placed o key value r (on_right c l k v ∷ path)
              ((Ascending-right (to_list l) ((k, v) ∷ to_list r) h).1)))
  ]

  pub descend-IsPlace :
      (key : K) (t : Tree K V) (path : List (Frame K V)) (n : ℕ)
      → IsRedBlack t n
      → IsPath path n
      → (IsBlack t) ⊎ (StartsBlack path)
      → IsPlace (descend keycmp key t path)
  unfolding descend IsPlace IsRedBlack IsPath StartsBlack tree_color frame_color
  descend-IsPlace key nil path n e h f = subst (IsPath path) e h
  descend-IsPlace key (node black l k v r) path n (m, e, hl, hr) h f =
      let h' : IsPath path (suc m) = subst (IsPath path) e h in
      elim (Sign_cases (keycmp key k)) [
        | inl s ↦
            rw (IsPlace, descend, s)
              (descend-IsPlace key l (on_left black k v r ∷ path) m hl (hr, h') (inr refl))
        | inr (inl s) ↦ rw (IsPlace, descend, s) tt
        | inr (inr s) ↦
            rw (IsPlace, descend, s)
              (descend-IsPlace key r (on_right black l k v ∷ path) m hr (hl, h') (inr refl))
      ]
  descend-IsPlace key (node red l k v r) path n (bl, br, hl, hr) h (inl e) = red_black e
  descend-IsPlace key (node red l k v r) path n (bl, br, hl, hr) h (inr f) =
      elim (Sign_cases (keycmp key k)) [
        | inl s ↦
            rw (IsPlace, descend, s)
              (descend-IsPlace key l (on_left red k v r ∷ path) n hl (br, hr, h, f) (inl bl))
        | inr (inl s) ↦ rw (IsPlace, descend, s) tt
        | inr (inr s) ↦
            rw (IsPlace, descend, s)
              (descend-IsPlace key r (on_right red l k v ∷ path) n hr (bl, hl, h, f) (inl br))
      ]

  pub descend-Above :
      (key : K) (t : Tree K V) (path : List (Frame K V)) → Above t path (descend keycmp key t path)
  unfolding descend Above unzip plug
  descend-Above key nil path = refl
  descend-Above key (node c l k v r) path = elim (Sign_cases (keycmp key k)) [
    | inl s ↦
        rw (Above, descend, s)
          (up (descend keycmp key l _) (descend-Above key l (on_left c k v r ∷ path)))
    | inr (inl s) ↦ rw (Above, descend, s) tt
    | inr (inr s) ↦
        rw (Above, descend, s)
          (down (descend keycmp key r _) (descend-Above key r (on_right c l k v ∷ path)))
  ]
    where
      up :
          (found : Option (List (Frame K V)))
          → Above l (on_left c k v r ∷ path) found
          → Above (node c l k v r) path found
      up none h = h
      up (some found) h = h

      down :
          (found : Option (List (Frame K V)))
          → Above r (on_right c l k v ∷ path) found
          → Above (node c l k v r) path found
      down none h = h
      down (some found) h = h
