-- ===== src/MboxList/Rep.antt =====
-- What a `struct mboxList` stands for: its nodes in order, each with its datum.
use libmbox.Base.{ℕ, ◌≡◌, false, List, [], ◌∷◌, map, length}
use libmbox.MboxList.{MboxList}
use libmbox.MboxList.Heap.{Ptr, null, Heap}
use libmbox.MboxList.Heap.Chain.{Cells, has, last_or, Chain}

-- The nodes form a ring: the first points back to the last, and the last on to the first.
abbrev pub Ring : Heap → Ptr → Cells → Type 0
Ring h root [] = root ≡ null
Ring h root ((p, v) ∷ xs) = (root ≡ p) × Chain h (last_or p xs) ((p, v) ∷ xs) p

pub record IsList (h : Heap) (l : MboxList) (xs : Cells) : Type 0 where
  pub ring : Ring h l.root xs
  pub count : l.len ≡ length xs

-- The data of the list, without the addresses.
abbrev pub contents : Cells → List ℕ
contents = map (λ c. c.1)

-- `g` differs from `h` at most at the nodes `xs`.
abbrev pub SameOutside : Cells → Heap → Heap → Type 0
SameOutside xs h g = (a : Ptr) → has a xs ≡ false → g a ≡ h a

-- The mutex and the callback are as before.
abbrev pub SameHandle : MboxList → MboxList → Type 0
SameHandle l m = (m.locked ≡ l.locked) × (m.freedata ≡ l.freedata)
