-- ===== src/MboxList/QSort/Sort/Parts.antt =====
-- Segments of a ring: ends, lengths, and what sorting one of them leaves.
use libmbox.Base.{ℕ, suc, ◌≡◌, refl, sym, ap, Bool, [], ◌∷◌, ◌++◌, arith, ◌∙◌, length}
use libmbox.MboxList.Heap.{Ptr, Heap}
use libmbox.MboxList.Heap.Chain.{Cells, has, has-append}
use libmbox.MboxList.Rep.{SameOutside, contents}
use libmbox.MboxList.QSort.Cycle.{Cycle, addresses}
use libmbox.MboxList.QSort.Order.{SameData, IsSorted}

-- The segment `seg` of the ring of `seg` and `rest`, sorted in place.
pub record IsSortedPart (compare : ℕ → ℕ → Bool) (seg rest : Cells) (h g : Heap) : Type 0 where
  pub out : Cells
  pub ring : Cycle g (out ++ rest)
  pub sorted : IsSorted compare (contents out)
  pub nodes : addresses out ≡ addresses seg
  pub same_data : SameData (contents out) (contents seg)
  pub same : SameOutside (seg ++ rest) h g

-- A list with a first element has a last one.
pub unsnoc :
    (x : Ptr × ℕ) (xs : Cells)
    → (init : Cells) × (p : Ptr) × (v : ℕ) × (x ∷ xs ≡ init ++ (p, v) ∷ [])
unsnoc (p, v) [] = ([], p, v, refl)
unsnoc x (y ∷ ys) = let (init, p, v, e) = unsnoc y ys in (x ∷ init, p, v, ap (λ zs. x ∷ zs) e)

-- A list with a last element has a first one.
pub uncons_snoc :
    (xs : Cells) (x : Ptr × ℕ) → (y : Ptr × ℕ) × (ys : Cells) × (xs ++ x ∷ [] ≡ y ∷ ys)
uncons_snoc [] x = (x, [], refl)
uncons_snoc (y ∷ ys) x = (y, ys ++ x ∷ [], refl)

length-addresses : (xs : Cells) → length (addresses xs) ≡ length xs
length-addresses [] = refl
length-addresses (x ∷ xs) = ap suc (length-addresses xs)

pub length_of_addresses : (xs ys : Cells) → addresses xs ≡ addresses ys → length xs ≡ length ys
length_of_addresses xs ys e =
    sym (length-addresses xs) ∙ ap (λ ps. length ps) e ∙ length-addresses ys

pub has_comm : (a : Ptr) (xs ys : Cells) → has a (xs ++ ys) ≡ has a (ys ++ xs)
has_comm a xs ys = ground (arith, has-append a xs ys, has-append a ys xs)
