-- ===== src/RbTree/Lookup.antt =====
-- What is found in a tree, the traversal, and the search of `mboxRBTreeDelete`.
use libmbox.Base.{
  ℕ, zero, suc, ◌<◌, ◌≡◌, refl, sym, ap, subst, ◌∙◌, ◌≢◌, List, [], ◌∷◌, ◌++◌, Option, none, some,
  inl, inr, arith, Option-cases,
}
use Prim.Native.Nat.{max}
use libmbox.Base.Outcome.{ok, fault, out_of_fuel}
use libmbox.RbTree.{
  MboxRbTree, Sign, less, equal, greater, Tree, nil, node, insert, get, node_find, delete_search,
  for_each,
}
use libmbox.RbTree.Contents.{to_list, All, Ascending, insert_entry, lookup, fold, IsKeyOrder}
use libmbox.RbTree.Insert.{IsMap, insert-IsMap}
use libmbox.RbTree.Place.{Sign_cases, All-greater, All-from, Ascending-left, Ascending-right}

IsEqual : Sign → Type 0
IsEqual less = ⊥
IsEqual equal = Unit {0}
IsEqual greater = ⊥

none-some : {A : Type 0} {a : A} → none ≢ some a
none-some e = cc e

less_equal : less ≢ equal
unfolding IsEqual
less_equal e = subst IsEqual (sym e) tt

greater_equal : greater ≢ equal
unfolding IsEqual
greater_equal e = subst IsEqual (sym e) tt

-- The value that is kept: the old one, if there is one.
pub kept : {V : Type 0} → Option V → V → V
kept none value = value
kept (some old) value = old

module _ {K V : Type 0} where
  fold-append :
      {S : Type 0} (xs ys : List (K × V)) (cb : K → V → S → S) (s : S)
      → fold (xs ++ ys) cb s ≡ fold ys cb (fold xs cb s)
  fold-append [] ys cb s = refl
  fold-append ((k, v) ∷ xs) ys cb s = fold-append xs ys cb (cb k v s)

  -- `mboxRBTreeForEach` calls the callback on each entry once, in the order of the tree.
  pub for_each-fold :
      {S : Type 0} (t : Tree K V) (cb : K → V → S → S) (s : S)
      → for_each t cb s ≡ fold (to_list t) cb s
  unfolding for_each
  for_each-fold nil cb s = refl
  for_each-fold (node c l k v r) cb s =
      for_each-fold r cb (cb k v (for_each l cb s))
      ∙ ap (λ s. fold (to_list r) cb (cb k v s)) (for_each-fold l cb s)
      ∙ sym (fold-append (to_list l) ((k, v) ∷ to_list r) cb s)

  -- The number of nodes on the longest way down.
  unfoldable pub height : Tree K V → ℕ
  height nil = 0
  height (node c l k v r) = suc (max (height l) (height r))

module _ {K V : Type 0} (keycmp : K → K → Sign) where
  lookup-behind :
      (key : K) (xs ys : List (K × V))
      → All keycmp key greater xs
      → lookup keycmp (xs ++ ys) key ≡ lookup keycmp ys key
  unfolding lookup
  lookup-behind key [] ys h = refl
  lookup-behind key ((a, w) ∷ xs) ys (e, h) = rw (lookup, e) (lookup-behind key xs ys h)

  -- A key that is less than all of a list is not in it.
  lookup-none : (key : K) (xs : List (K × V)) → All keycmp key less xs → lookup keycmp xs key ≡ none
  unfolding lookup
  lookup-none key [] h = refl
  lookup-none key ((a, w) ∷ xs) (e, h) = rw (lookup, e) (lookup-none key xs h)

  lookup-before :
      (key : K) (xs ys : List (K × V))
      → All keycmp key less ys
      → lookup keycmp (xs ++ ys) key ≡ lookup keycmp xs key
  unfolding lookup
  lookup-before key [] ys h = lookup-none key ys h
  lookup-before key ((a, w) ∷ xs) ys h = elim (Sign_cases (keycmp key a)) [
    | inl s ↦ rw (lookup, s) (lookup-before key xs ys h)
    | inr (inl s) ↦ rw (lookup, s) refl
    | inr (inr s) ↦ rw (lookup, s) (lookup-before key xs ys h)
  ]

  pub All-less_from :
      IsKeyOrder keycmp
      → (a k : K) (xs : List (K × V)) → keycmp a k ≡ less
      → All keycmp k less xs
      → All keycmp a less xs
  All-less_from o a k [] e h = tt
  All-less_from o a k ((b, _) ∷ xs) e (h, hs) =
      (o.less_trans a k b e h, All-less_from o a k xs e hs)

  pub node_find-lookup :
      IsKeyOrder keycmp
      → (t : Tree K V) (key : K) → Ascending keycmp (to_list t)
      → node_find keycmp t key ≡ lookup keycmp (to_list t) key
  unfolding node_find lookup
  node_find-lookup o nil key h = refl
  node_find-lookup o (node c l k v r) key h =
      let below = All-greater keycmp o (to_list l) k v (to_list r) h in
      let (above, right) = Ascending-right keycmp (to_list l) ((k, v) ∷ to_list r) h in
      let left = Ascending-left keycmp (to_list l) ((k, v) ∷ to_list r) h in
      elim (Sign_cases (keycmp key k)) [
        | inl s ↦
            rw (node_find, s)
              (node_find-lookup o l key left
                ∙ sym (
                    lookup-before key (to_list l) ((k, v) ∷ to_list r)
                      (s, All-less_from o key k (to_list r) s above)))
        | inr (inl s) ↦
            rw (node_find, s)
              (sym (
                lookup-behind key (to_list l) ((k, v) ∷ to_list r)
                  (All-from keycmp key k (λ b g. o.equal_greater key k b s g) (to_list l) below)
                ∙ rw (lookup, s) refl))
        | inr (inr s) ↦
            rw (node_find, s)
              (node_find-lookup o r key right
                ∙ sym (
                    lookup-behind key (to_list l) ((k, v) ∷ to_list r)
                      (All-from keycmp key k (λ b g. o.greater_trans key k b s g) (to_list l) below)
                    ∙ rw (lookup, s) refl))
      ]

  lookup_hit :
      (q k : K) (v : V) (xs : List (K × V))
      → keycmp q k ≡ equal
      → lookup keycmp ((k, v) ∷ xs) q ≡ some v
  unfolding lookup
  lookup_hit q k v xs e = rw (lookup, e) refl

  lookup_skip :
      (q k : K) (v : V) (xs : List (K × V))
      → keycmp q k ≢ equal
      → lookup keycmp ((k, v) ∷ xs) q ≡ lookup keycmp xs q
  unfolding lookup
  lookup_skip q k v xs ne = elim (Sign_cases (keycmp q k)) [
    | inl s ↦ rw (lookup, s) refl
    | inr (inl s) ↦ absurd (ne s)
    | inr (inr s) ↦ rw (lookup, s) refl
  ]

  lookup-insert_entry :
      IsKeyOrder keycmp
      → (key : K) (value : V) (xs : List (K × V)) → Ascending keycmp xs
      → lookup keycmp (insert_entry keycmp key value xs) key
        ≡ some (kept (lookup keycmp xs key) value)
  unfolding lookup insert_entry kept
  lookup-insert_entry o key value [] h = rw (o.equal_refl key) refl
  lookup-insert_entry o key value ((k, v) ∷ xs) (h, hs) = elim (Sign_cases (keycmp key k)) [
    | inl s ↦
        let absent : lookup keycmp ((k, v) ∷ xs) key ≡ none =
          lookup-none key ((k, v) ∷ xs) (s, All-less_from o key k xs s h) in
        rw (insert_entry, s)
          (lookup_hit key key value ((k, v) ∷ xs) (o.equal_refl key)
            ∙ ap (λ w. some (kept w value)) (sym absent))
    | inr (inl s) ↦
        rw (insert_entry, s)
          (lookup_hit key k v xs s ∙ ap (λ w. some (kept w value)) (sym (lookup_hit key k v xs s)))
    | inr (inr s) ↦
        let other : keycmp key k ≢ equal = λ e. greater_equal (sym s ∙ e) in
        rw (insert_entry, s)
          (lookup_skip key k v (insert_entry keycmp key value xs) other
            ∙ lookup-insert_entry o key value xs hs
            ∙ ap (λ w. some (kept w value)) (sym (lookup_skip key k v xs other)))
  ]

  both_skip :
      (q k : K) (v : V) (xs ys : List (K × V))
      → keycmp q k ≢ equal
      → lookup keycmp xs q ≡ lookup keycmp ys q
      → lookup keycmp ((k, v) ∷ xs) q ≡ lookup keycmp ((k, v) ∷ ys) q
  both_skip q k v xs ys ne e = lookup_skip q k v xs ne ∙ e ∙ sym (lookup_skip q k v ys ne)

  -- A key that is not the new one.
  lookup-insert_entry_ne :
      (key q : K) (value : V) (xs : List (K × V))
      → keycmp q key ≢ equal
      → lookup keycmp (insert_entry keycmp key value xs) q ≡ lookup keycmp xs q
  unfolding insert_entry
  lookup-insert_entry_ne key q value [] ne = lookup_skip q key value [] ne
  lookup-insert_entry_ne key q value ((k, v) ∷ xs) ne = elim (Sign_cases (keycmp key k)) [
    | inl s ↦ rw (insert_entry, s) (lookup_skip q key value ((k, v) ∷ xs) ne)
    | inr (inl s) ↦ rw (insert_entry, s) refl
    | inr (inr s) ↦
        rw (insert_entry, s)
          (elim (Sign_cases (keycmp q k)) [
            | inl e ↦
                both_skip q k v _ xs (λ f. less_equal (sym e ∙ f))
                  (lookup-insert_entry_ne key q value xs ne)
            | inr (inl e) ↦
                lookup_hit q k v (insert_entry keycmp key value xs) e ∙ sym (lookup_hit q k v xs e)
            | inr (inr e) ↦
                both_skip q k v _ xs (λ f. greater_equal (sym e ∙ f))
                  (lookup-insert_entry_ne key q value xs ne)
          ])
  ]

  -- Where the comparison of the keys is an order, `mboxRBTreeInsert` on a valid tree returns a tree in
  -- which `mboxRBTreeGet` gives, for the key,
  -- the value it had before, or the new one if it had none, and for every key that does not
  -- compare equal to it what it gave before.
  pub get-insert :
      IsKeyOrder keycmp
      → (t : MboxRbTree K V) (key : K) (value : V) → IsMap keycmp t
      → (t' : MboxRbTree K V) × (insert keycmp t key value ≡ ok t')
        × (get keycmp t' key ≡ some (kept (get keycmp t key) value))
        × ((q : K) → keycmp q key ≢ equal → get keycmp t' q ≡ get keycmp t q)
  unfolding get
  get-insert o t key value m =
      let (t', run, same, m') = insert-IsMap keycmp o t key value m in
      let found : (q : K)
          → get keycmp t' q ≡ lookup keycmp (insert_entry keycmp key value (to_list t.root)) q =
        λ q. node_find-lookup o t'.root q m'.ascending ∙ ap (λ s. lookup keycmp s q) same in
      (
        t',
        run,
        found key
            ∙ lookup-insert_entry o key value (to_list t.root) m.ascending
            ∙ ap (λ s. some (kept s value)) (sym (node_find-lookup o t.root key m.ascending)),
        λ q ne.
            found q
            ∙ lookup-insert_entry_ne key q value (to_list t.root) ne
            ∙ sym (node_find-lookup o t.root q m.ascending),
      )

  search_stays :
      (fuel : ℕ) (t : Tree K V) (key : K) (v : V)
      → node_find keycmp t key ≡ some v
      → delete_search keycmp fuel t key ≡ out_of_fuel
  unfolding node_find delete_search
  search_stays zero t key v e = refl
  search_stays (suc fuel) nil key v e = absurd (none-some e)
  search_stays (suc fuel) (node c l k w r) key v e = elim (Sign_cases (keycmp key k)) [
    | inl s ↦ rw (delete_search, s) (search_stays fuel l key v (rw (← e, node_find, s) refl))
    | inr (inl s) ↦ rw (delete_search, s) (search_stays fuel (node c l k w r) key v e)
    | inr (inr s) ↦ rw (delete_search, s) (search_stays fuel r key v (rw (← e, node_find, s) refl))
  ]

  search_falls :
      (t : Tree K V) (key : K) (fuel : ℕ)
      → node_find keycmp t key ≡ none
      → height t < fuel
      → delete_search keycmp fuel t key ≡ fault
  unfolding node_find delete_search height
  search_falls t key zero e lt = absurd (omega arith)
  search_falls nil key (suc fuel) e lt = refl
  search_falls (node c l k w r) key (suc fuel) e lt = elim (Sign_cases (keycmp key k)) [
    | inl s ↦
        rw (delete_search, s) (search_falls l key fuel (rw (← e, node_find, s) refl) (omega arith))
    | inr (inl s) ↦
        let here : node_find keycmp (node c l k w r) key ≡ some w = rw (node_find, s) refl in
        absurd (none-some (sym e ∙ here))
    | inr (inr s) ↦
        rw (delete_search, s) (search_falls r key fuel (rw (← e, node_find, s) refl) (omega arith))
  ]

  -- With more rounds than the tree is high, the search of `mboxRBTreeDelete` has read the key of
  -- the sentinel, which is NULL, if the key is not in the tree, and is still running if it is in
  -- the tree, however many the rounds.
  pub delete_search-never :
      (t : Tree K V) (key : K) (fuel : ℕ)
      → height t < fuel
      → delete_search keycmp fuel t key
        ≡ elim (node_find keycmp t key) [ none ↦ fault | some v ↦ out_of_fuel ]
  delete_search-never t key fuel lt = elim (Option-cases (node_find keycmp t key)) [
    | inl e ↦ rw e (search_falls t key fuel e lt)
    | inr (v, e) ↦ rw e (search_stays fuel t key v e)
  ]
