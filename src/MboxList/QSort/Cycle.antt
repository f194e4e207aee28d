-- ===== src/MboxList/QSort/Cycle.antt =====
-- Rings as chains that may start at any node, and the exchange of data in them.
use libmbox.Base.{
  ℕ, ◌≡◌, refl, sym, ap, ◌≢◌, Bool, true, false, ◌||◌, some, List, [], ◌∷◌, ◌++◌, arith, ◌==◌, ◌∙◌,
  map, append-nil,
}
use libmbox.MboxList.Heap.{Ptr, null, node, Heap, with_value}
use libmbox.MboxList.Rep.{SameOutside}
use libmbox.MboxList.Heap.Chain.{
  Cells, has, has-append, first_or, last_or, first_or-append, last_or-append, Chain, Chain-append,
  Chain-front, Chain-back, last_node, frame,
}

-- Every node links to its neighbours, the first and the last to one another.
abbrev pub Cycle : Heap → Cells → Type 0
Cycle h xs = Chain h (last_or null xs) xs (first_or null xs)

-- The addresses of the nodes.
abbrev pub addresses : Cells → List Ptr
addresses = map (λ c. c.0)

abbrev pub first_address : Ptr → List Ptr → Ptr
first_address d [] = d
first_address d (p ∷ ps) = p

abbrev pub last_address : Ptr → List Ptr → Ptr
last_address d [] = d
last_address d (p ∷ ps) = last_address p ps

abbrev pub has_address : Ptr → List Ptr → Bool
has_address a [] = false
has_address a (p ∷ ps) = (a == p) || has_address a ps

first_address_lem : (d : Ptr) (xs : Cells) → first_or d xs ≡ first_address d (addresses xs)
first_address_lem d [] = refl
first_address_lem d ((p, v) ∷ xs) = refl

last_address_lem : (d : Ptr) (xs : Cells) → last_or d xs ≡ last_address d (addresses xs)
last_address_lem d [] = refl
last_address_lem d ((p, v) ∷ xs) = last_address_lem p xs

has_address_lem : (a : Ptr) (xs : Cells) → has a xs ≡ has_address a (addresses xs)
has_address_lem a [] = refl
has_address_lem a ((p, v) ∷ xs) = ground (arith, has_address_lem a xs)

module _ (xs ys : Cells) (e : addresses xs ≡ addresses ys) where
  pub first_or_of_addresses : (d : Ptr) → first_or d xs ≡ first_or d ys
  first_or_of_addresses d =
      first_address_lem d xs ∙ ap (first_address d) e ∙ sym (first_address_lem d ys)

  pub last_or_of_addresses : (d : Ptr) → last_or d xs ≡ last_or d ys
  last_or_of_addresses d =
      last_address_lem d xs ∙ ap (last_address d) e ∙ sym (last_address_lem d ys)

  pub has_of_addresses : (a : Ptr) → has a xs ≡ has a ys
  has_of_addresses a = has_address_lem a xs ∙ ap (has_address a) e ∙ sym (has_address_lem a ys)

with_value_ne : (h : Heap) (p : Ptr) (v a : ℕ) → a ≢ p → with_value h p v a ≡ h a
unfolding with_value
with_value_ne h p v a ne = ground arith

with_value_self :
    (h : Heap) (p : Ptr) (v : ℕ) {w n r : ℕ}
    → h p ≡ some (node w n r)
    → with_value h p v p ≡ some (node v n r)
unfolding with_value
with_value_self h p v e = ground arith

-- A write to one datum of a chain.
Chain-with_value :
    (h : Heap) (prev : Ptr) (xs : Cells) (p v u : ℕ) (ys : Cells) (next : Ptr)
    → Chain h prev (xs ++ (p, v) ∷ ys) next
    → Chain (with_value h p u) prev (xs ++ (p, u) ∷ ys) next
Chain-with_value h prev [] p v u ys next (ok_p, at_p, new, c) = (
  ok_p,
  with_value_self h p u at_p,
  new,
  frame p ys next c (λ a i. with_value_ne h p u a (λ e. cc (e, i, new))),
)
Chain-with_value h prev ((q, w) ∷ xs) p v u ys next (ok_q, at_q, new, c) = (
  ok_q,
  with_value_ne h p u q (λ e. ground (arith, has-append q xs ((p, v) ∷ ys)))
      ∙ at_q
      ∙ ap (λ f. some (node w f prev))
          (first_or-append next xs ((p, v) ∷ ys) ∙ sym (first_or-append next xs ((p, u) ∷ ys))),
  ground (arith, has-append q xs ((p, v) ∷ ys), has-append q xs ((p, u) ∷ ys)),
  Chain-with_value h q xs p v u ys next c,
)

-- A write to one datum of a ring.
pub Cycle-with_value :
    (h : Heap) (xs : Cells) (p v u : ℕ) (ys : Cells)
    → Cycle h (xs ++ (p, v) ∷ ys)
    → Cycle (with_value h p u) (xs ++ (p, u) ∷ ys)
Cycle-with_value h xs p v u ys c =
    let moved =
      rw (last_or-append null xs ((p, v) ∷ ys), first_or-append null xs ((p, v) ∷ ys)) at c in
    rw (last_or-append null xs ((p, u) ∷ ys), first_or-append null xs ((p, u) ∷ ys))
      (Chain-with_value h (last_or p ys) xs p v u ys (first_or p xs) moved)

-- What the heap holds at a node of a ring.
pub Cycle-node :
    (h : Heap) (xs : Cells) (p v : ℕ) (ys : Cells)
    → Cycle h (xs ++ (p, v) ∷ ys)
    → h p ≡ some (node v (first_or (first_or p xs) ys) (last_or (last_or p ys) xs))
Cycle-node h xs p v ys c =
    let moved =
      rw (last_or-append null xs ((p, v) ∷ ys), first_or-append null xs ((p, v) ∷ ys)) at c in
    (Chain-back h (last_or p ys) xs ((p, v) ∷ ys) (first_or p xs) moved).1

-- The node before another links on to it, round the end of the list too.
pub Cycle-before :
    (h : Heap) (xs : Cells) (p v : ℕ) (ys : Cells)
    → Cycle h (xs ++ (p, v) ∷ ys)
    → (w : ℕ) × (r : Ptr) × (h (last_or (last_or p ys) xs) ≡ some (node w p r))
Cycle-before h [] p v ys c = last_node h (last_or p ys) p v ys p c
Cycle-before h ((q, w) ∷ xs) p v ys c =
    last_node h _ q w xs p (Chain-front h _ ((q, w) ∷ xs) ((p, v) ∷ ys) q c)

Chain-apart :
    (h : Heap) (prev : Ptr) (xs ys : Cells) (next : Ptr)
    → Chain h prev (xs ++ ys) next
    → (a : Ptr) → has a ys ≡ true
    → has a xs ≡ false
Chain-apart h prev [] ys next c a i = refl
Chain-apart h prev ((p, v) ∷ xs) ys next (ok_p, at_p, new, c) a i =
    ground (arith, has-append p xs ys, Chain-apart h p xs ys next c a i)

-- A ring may start at any node.
pub Cycle-rotate : (h : Heap) (xs ys : Cells) → Cycle h (xs ++ ys) → Cycle h (ys ++ xs)
Cycle-rotate h [] ys c = rw append-nil c
Cycle-rotate h ((p, v) ∷ xs) [] c = rw (append-nil xs) at c
Cycle-rotate h ((p, v) ∷ xs) ((q, w) ∷ ys) c =
    let moved = rw (last_or-append p xs ((q, w) ∷ ys)) at c in
    let front = Chain-front h (last_or q ys) ((p, v) ∷ xs) ((q, w) ∷ ys) p moved in
    let back = Chain-back h (last_or q ys) ((p, v) ∷ xs) ((q, w) ∷ ys) p moved in
    let apart = Chain-apart h (last_or q ys) ((p, v) ∷ xs) ((q, w) ∷ ys) p moved in
    rw (last_or-append q ys ((p, v) ∷ xs))
      (Chain-append h (last_or p xs) ((q, w) ∷ ys) ((p, v) ∷ xs) q back front apart)

last_ne_null :
    (h : Heap) (prev p v : ℕ) (xs : Cells) (next : Ptr)
    → Chain h prev ((p, v) ∷ xs) next
    → last_or p xs ≢ null
last_ne_null h prev p v [] next c = c.0
last_ne_null h prev p v ((q, w) ∷ xs) next c = last_ne_null h p q w xs next c.3

pub Cycle-before_ne_null :
    (h : Heap) (xs : Cells) (p v : ℕ) (ys : Cells)
    → Cycle h (xs ++ (p, v) ∷ ys)
    → last_or (last_or p ys) xs ≢ null
Cycle-before_ne_null h [] p v ys c = last_ne_null h (last_or p ys) p v ys p c
Cycle-before_ne_null h ((q, w) ∷ xs) p v ys c =
    last_ne_null h _ q w xs p (Chain-front h _ ((q, w) ∷ xs) ((p, v) ∷ ys) q c)

-- Two places of a ring are two nodes.
pub Cycle-ne :
    (h : Heap) (xs : Cells) (p v : ℕ) (ys : Cells) (q w : ℕ) (zs : Cells)
    → Cycle h (xs ++ ((p, v) ∷ ys ++ (q, w) ∷ zs))
    → p ≢ q
Cycle-ne h xs p v ys q w zs c e =
    let new = (Chain-back h _ xs ((p, v) ∷ ys ++ (q, w) ∷ zs) _ c).2 in
    ground (arith, new, has-append p ys ((q, w) ∷ zs))

pub with_value-SameOutside :
    (h : Heap) (xs : Cells) (p v u : ℕ) (ys : Cells)
    → SameOutside (xs ++ (p, v) ∷ ys) h (with_value h p u)
with_value-SameOutside h xs p v u ys a o =
    with_value_ne h p u a (λ e. ground (arith, has-append a xs ((p, v) ∷ ys)))
