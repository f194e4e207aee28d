-- ===== src/RbTree/Contents.antt =====
-- The entries of a tree in order, what a path adds around a subtree, and ordered lists of entries.
use libmbox.Base.{
  ◌≡◌, refl, sym, ap, ◌∙◌, List, [], ◌∷◌, ◌++◌, append_assoc, arith, Bool, Option, none, some,
}
use libmbox.RbTree.{
  Sign, less, equal, greater, Color, Tree, nil, node, Frame, on_left, on_right, paint, plug, unzip,
}

-- `keycmp` orders the keys.
pub record IsKeyOrder {K : Type 0} (keycmp : K → K → Sign) : Type 0 where
  pub equal_refl : (a : K) → keycmp a a ≡ equal
  pub flip_less : (a b : K) → keycmp a b ≡ less → keycmp b a ≡ greater
  pub flip_greater : (a b : K) → keycmp a b ≡ greater → keycmp b a ≡ less
  pub less_trans : (a b c : K) → keycmp a b ≡ less → keycmp b c ≡ less → keycmp a c ≡ less
  pub greater_trans :
      (a b c : K) → keycmp a b ≡ greater → keycmp b c ≡ greater → keycmp a c ≡ greater
  pub equal_greater : (a b c : K) → keycmp a b ≡ equal → keycmp b c ≡ greater → keycmp a c ≡ greater

module _ {K V : Type 0} where
  abbrev pub to_list : Tree K V → List (K × V)
  to_list nil = []
  to_list (node c l k v r) = to_list l ++ (k, v) ∷ to_list r

  abbrev pub before : List (Frame K V) → List (K × V)
  before [] = []
  before (on_left c k v r ∷ path) = before path
  before (on_right c l k v ∷ path) = before path ++ (to_list l ++ (k, v) ∷ [])

  abbrev pub after : List (Frame K V) → List (K × V)
  after [] = []
  after (on_left c k v r ∷ path) = (k, v) ∷ to_list r ++ after path
  after (on_right c l k v ∷ path) = after path

  -- The callback on each entry, in order.
  abbrev pub fold : {S : Type 0} → List (K × V) → (K → V → S → S) → S → S
  fold [] cb s = s
  fold ((k, v) ∷ xs) cb s = fold xs cb (cb k v s)

  pub to_list-paint : (c : Color) (t : Tree K V) → to_list (paint c t) ≡ to_list t
  unfolding paint
  to_list-paint c nil = refl
  to_list-paint c (node d l k v r) = refl

  pub to_list-unzip :
      (path : List (Frame K V)) (t : Tree K V)
      → to_list (unzip path t) ≡ before path ++ (to_list t ++ after path)
  unfolding unzip plug
  to_list-unzip [] t = sym (libmbox.Base.append-nil (to_list t))
  to_list-unzip (on_left c k v r ∷ path) t =
      to_list-unzip path (node c t k v r)
      ∙ ap (λ s. before path ++ s) (append_assoc (to_list t) ((k, v) ∷ to_list r) (after path))
  to_list-unzip (on_right c l k v ∷ path) t =
      to_list-unzip path (node c l k v t)
      ∙ ap (λ s. before path ++ s) (append_assoc (to_list l) ((k, v) ∷ to_list t) (after path))
      ∙ sym (
          append_assoc (before path) (to_list l ++ (k, v) ∷ []) (to_list t ++ after path)
          ∙ ap (λ s. before path ++ s)
              (append_assoc (to_list l) ((k, v) ∷ []) (to_list t ++ after path)))

  -- All the keys of the entries compare so with `k`.
  abbrev pub All : (K → K → Sign) → K → Sign → List (K × V) → Type 0
  All keycmp k s [] = Unit {0}
  All keycmp k s ((a, _) ∷ xs) = (keycmp k a ≡ s) × All keycmp k s xs

  -- The keys ascend, and each is there once.
  abbrev pub Ascending : (K → K → Sign) → List (K × V) → Type 0
  Ascending keycmp [] = Unit {0}
  Ascending keycmp ((k, _) ∷ xs) = All keycmp k less xs × Ascending keycmp xs

  -- A new entry goes before the first larger key; a key that is there keeps its value.
  unfoldable pub insert_entry : (K → K → Sign) → K → V → List (K × V) → List (K × V)
  insert_entry keycmp key value [] = (key, value) ∷ []
  insert_entry keycmp key value ((k, v) ∷ xs) = elim (keycmp key k) [
    | less ↦ (key, value) ∷ (k, v) ∷ xs
    | equal ↦ (k, v) ∷ xs
    | greater ↦ (k, v) ∷ insert_entry keycmp key value xs
  ]

  -- The value of the first entry with the key.
  unfoldable pub lookup : (K → K → Sign) → List (K × V) → K → Option V
  lookup keycmp [] key = none
  lookup keycmp ((k, v) ∷ xs) key = elim (keycmp key k) [
    | equal ↦ some v
    | less ↦ lookup keycmp xs key
    | greater ↦ lookup keycmp xs key
  ]
