-- ===== src/MboxList/Heap/Chain.antt =====
-- Runs of linked nodes in the heap, forwards and backwards, and what a write does to them.
use libmbox.Base.{
  ℕ, ◌≡◌, refl, ◌≢◌, Bool, true, false, ◌||◌, none, some, List, [], ◌∷◌, ◌++◌, arith, ◌==◌, ◌∙◌,
}
use libmbox.MboxList.Heap.{Ptr, null, node, Heap, with_next, with_prev}

-- The address and the datum of each node, in order.
abbrev pub Cells : Type 0
Cells = List (Ptr × ℕ)

-- The address of the first node, or `stop`.
abbrev pub first_or : Ptr → Cells → Ptr
first_or stop [] = stop
first_or stop ((p, _) ∷ xs) = p

-- The address of the last node, or `start`.
abbrev pub last_or : Ptr → Cells → Ptr
last_or start [] = start
last_or start ((p, _) ∷ xs) = last_or p xs

-- Is there a node at the address?
abbrev pub has : Ptr → Cells → Bool
has a [] = false
has a ((b, datum) ∷ rest) = (a == b) || has a rest

-- Distinct nodes linked in both directions: the first points back to `prev`, the last on to `next`.
abbrev pub Chain : Heap → Ptr → Cells → Ptr → Type 0
Chain h prev [] next = Unit {0}
Chain h prev ((p, v) ∷ xs) next =
    (p ≢ null)
    × (h p ≡ some (node v (first_or next xs) prev))
    × (has p xs ≡ false)
    × Chain h p xs next

pub has-append : (a : Ptr) (xs ys : Cells) → has a (xs ++ ys) ≡ (has a xs || has a ys)
has-append a [] ys = refl
has-append a (x ∷ xs) ys = ground (arith, has-append a xs ys)

pub last_or-append : (s : Ptr) (xs ys : Cells) → last_or s (xs ++ ys) ≡ last_or (last_or s xs) ys
last_or-append s [] ys = refl
last_or-append s ((p, v) ∷ xs) ys = last_or-append p xs ys

pub first_or-append :
    (s : Ptr) (xs ys : Cells) → first_or s (xs ++ ys) ≡ first_or (first_or s ys) xs
first_or-append s [] ys = refl
first_or-append s ((p, v) ∷ xs) ys = refl

-- The last of some nodes is one of them.
pub has-last_or : (p : Ptr) (v : ℕ) (xs : Cells) → has (last_or p xs) ((p, v) ∷ xs) ≡ true
has-last_or p v [] = ground arith
has-last_or p v ((q, w) ∷ xs) = ground (arith, has-last_or q w xs)

pub ne-last_or : (a p : Ptr) (v : ℕ) (xs : Cells) → has a ((p, v) ∷ xs) ≡ false → a ≢ last_or p xs
ne-last_or a p v xs out e = cc (has-last_or p v xs, e, out)

pub with_next_ne : (h : Heap) (p q a : Ptr) → a ≢ p → with_next h p q a ≡ h a
unfolding with_next
with_next_ne h p q a ne = ground arith

pub with_prev_ne : (h : Heap) (p q a : Ptr) → a ≢ p → with_prev h p q a ≡ h a
unfolding with_prev
with_prev_ne h p q a ne = ground arith

-- A chain survives any change that spares its nodes.
pub frame :
    {h g : Heap} (prev : Ptr) (xs : Cells) (next : Ptr)
    → Chain h prev xs next
    → ((a : Ptr) → has a xs ≡ true → g a ≡ h a)
    → Chain g prev xs next
frame prev [] next c same = tt
frame prev ((p, v) ∷ xs) next (ok_p, at_p, new, c) same =
    (ok_p, ground (arith, same p), new, frame p xs next c (λ a i. same a (ground arith)))

-- Two chains that share no node and meet are one.
pub Chain-append :
    (h : Heap) (prev : Ptr) (xs ys : Cells) (next : Ptr)
    → Chain h prev xs (first_or next ys)
    → Chain h (last_or prev xs) ys next
    → ((a : Ptr) → has a xs ≡ true → has a ys ≡ false)
    → Chain h prev (xs ++ ys) next
Chain-append h prev [] ys next c d apart = d
Chain-append h prev ((p, v) ∷ xs) ys next (ok_p, at_p, new, c) d apart = (
  ok_p,
  ground (arith, first_or-append next xs ys),
  ground (arith, has-append p xs ys, apart p),
  Chain-append h p xs ys next c d (λ a i. apart a (ground arith)),
)

-- A write to `prev` of the first node.
pub Chain-with_prev :
    (h : Heap) (prev p : Ptr) (v : ℕ) (xs : Cells) (next q : Ptr)
    → Chain h prev ((p, v) ∷ xs) next
    → Chain (with_prev h p q) q ((p, v) ∷ xs) next
unfolding with_prev
Chain-with_prev h prev p v xs next q (ok_p, at_p, new, c) =
    (ok_p, ground arith, new, frame p xs next c (λ a i. ground arith))

-- A write to `next` of the last node.
pub Chain-with_next :
    (h : Heap) (prev p : Ptr) (v : ℕ) (xs : Cells) (next q : Ptr)
    → Chain h prev ((p, v) ∷ xs) next
    → Chain (with_next h (last_or p xs) q) prev ((p, v) ∷ xs) q
unfolding with_next
Chain-with_next h prev p v [] next q (ok_p, at_p, new, c) = (ok_p, ground arith, refl, tt)
Chain-with_next h prev p v ((r, w) ∷ xs) next q (ok_p, at_p, new, c) = (
  ok_p,
  with_next_ne h _ q p (ne-last_or p r w xs new) ∙ at_p,
  new,
  Chain-with_next h p r w xs next q c,
)

-- A node of a chain is in the heap.
pub not-mem_of_none :
    (h : Heap) (a prev : Ptr) (xs : Cells) (next : Ptr)
    → Chain h prev xs next
    → h a ≡ none
    → has a xs ≡ false
not-mem_of_none h a prev [] next c unused = refl
not-mem_of_none h a prev ((p, v) ∷ xs) next (_, at_p, _, c) unused =
    ground (arith, not-mem_of_none h a p xs next c unused)

-- What the heap holds at the last node.
pub last_node :
    (h : Heap) (prev p : Ptr) (v : ℕ) (xs : Cells) (next : Ptr)
    → Chain h prev ((p, v) ∷ xs) next
    → (w : ℕ) × (r : Ptr) × (h (last_or p xs) ≡ some (node w next r))
last_node h prev p v [] next (_, at_p, _, _) = (v, prev, at_p)
last_node h prev p v ((q, w) ∷ xs) next (_, _, _, c) = last_node h p q w xs next c

-- Both ends of a chain turned to other addresses, the last node first.
pub Chain-relink :
    (h : Heap) (prev p : Ptr) (v : ℕ) (xs : Cells) (next a b : Ptr)
    → Chain h prev ((p, v) ∷ xs) next
    → Chain (with_prev (with_next h (last_or p xs) a) p b) b ((p, v) ∷ xs) a
Chain-relink h prev p v xs next a b c =
    Chain-with_prev _ prev p v xs a b (Chain-with_next h prev p v xs next a c)

-- The parts of a chain are chains.
pub Chain-front :
    (h : Heap) (prev : Ptr) (xs ys : Cells) (next : Ptr)
    → Chain h prev (xs ++ ys) next
    → Chain h prev xs (first_or next ys)
Chain-front h prev [] ys next c = tt
Chain-front h prev ((p, v) ∷ xs) ys next (ok_p, at_p, new, c) = (
  ok_p,
  ground (arith, first_or-append next xs ys),
  ground (arith, has-append p xs ys),
  Chain-front h p xs ys next c,
)

pub Chain-back :
    (h : Heap) (prev : Ptr) (xs ys : Cells) (next : Ptr)
    → Chain h prev (xs ++ ys) next
    → Chain h (last_or prev xs) ys next
Chain-back h prev [] ys next c = c
Chain-back h prev ((p, v) ∷ xs) ys next c = Chain-back h p xs ys next c.3

-- A node of the second part is not in the first.
pub not-mem_of_Chain-append :
    (h : Heap) (prev : Ptr) (xs : Cells) (q w : ℕ) (ys : Cells) (next : Ptr)
    → Chain h prev (xs ++ (q, w) ∷ ys) next
    → has q xs ≡ false
not-mem_of_Chain-append h prev [] q w ys next c = refl
not-mem_of_Chain-append h prev ((p, v) ∷ xs) q w ys next c =
    ground
      (arith, c.2, has-append p xs ((q, w) ∷ ys), not-mem_of_Chain-append h p xs q w ys next c.3)
