-- ===== src/MboxList/QSort/Main.antt =====
-- `mboxListQSort` as a whole, and its early return.
use libmbox.Base.{
  ℕ, suc, ◌+◌, ◌≤◌, ◌<◌, ◌≡◌, refl, ap, Bool, true, false, [], ◌∷◌, arith, ◌∙◌, sym, leb, length,
  ◌⊎◌, inl, inr, append-nil,
}
use libmbox.Base.Outcome.{ok, blocked}
use libmbox.MboxList.{MboxList, lock, unlock, ts_add_tail, ts_remove_head}
use libmbox.MboxList.Heap.{Ptr, null, Heap}
use libmbox.MboxList.Heap.Access.{Runs, load-ok}
use libmbox.MboxList.Heap.Chain.{Cells, first_or, last_or}
use libmbox.MboxList.Rep.{Ring, IsList, SameOutside, contents}
use libmbox.MboxList.QSort.{qsort, qsort_helper}
use libmbox.MboxList.QSort.Cycle.{Cycle, addresses, first_or_of_addresses}
use libmbox.MboxList.QSort.Order.{SameData, IsSorted, IsOrder}
use libmbox.MboxList.QSort.Sort.Parts.{length_of_addresses}
use libmbox.MboxList.QSort.Sort.{qsort_helper_all}

-- What sorting leaves: the same nodes in the same ring, with the same data in order, unlocked.
pub record Sorted (compare : ℕ → ℕ → Bool) (xs : Cells) (h : Heap) (m : MboxList) (g : Heap)
    : Type 0 where
  pub out : Cells
  pub list : IsList g m out
  pub sorted : IsSorted compare (contents out)
  pub nodes : addresses out ≡ addresses xs
  pub same_data : SameData (contents out) (contents xs)
  pub same : SameOutside xs h g
  pub unlocked : m.locked ≡ false

leb-gt : (a b : ℕ) → b < a → leb a b ≡ false
leb-gt a b h = ground arith

leb-le : (a b : ℕ) → a ≤ b → leb a b ≡ true
leb-le a b h = ground arith

-- A ring is the list of a handle that points at its first node.
Ring-of_Cycle :
    (h : Heap) (root : Ptr) (xs : Cells) → Cycle h xs → root ≡ first_or null xs → Ring h root xs
Ring-of_Cycle h root [] c e = e
Ring-of_Cycle h root ((p, v) ∷ xs) c e = (e, c)

-- On an unlocked list of at least two nodes and for a callback that is a total preorder,
-- `mboxListQSort` returns (the fuel, the length and one, is enough), the same nodes hold the same
-- data, as often, in ascending order, the lock is given back and nothing else is written.
pub qsort-Sorted :
    (compare : ℕ → ℕ → Bool) (h : Heap) (l : MboxList) (xs : Cells)
    → IsOrder compare
    → IsList h l xs
    → l.locked ≡ false
    → 2 ≤ length xs
    → Runs (qsort compare l false h) (Sorted compare xs h)
unfolding qsort lock unlock
qsort-Sorted compare h l [] o is free_lock two = absurd (omega arith)
qsort-Sorted compare h l ((p, v) ∷ []) o is free_lock two = absurd (omega arith)
qsort-Sorted compare h l ((p, v) ∷ (q, w) ∷ xs) o is free_lock two =
    let (at_root, ring) = is.ring in
    let fuel : l.len + 1 ≡ suc (suc (suc (length xs))) = omega (arith, is.count) in
    let (u, g, run, part) =
      qsort_helper_all compare o (suc (suc (length xs))) h p v q w xs ring (omega arith) in
    let root_run : qsort_helper compare (l.len + 1) l.root (last_or q xs) 0 h ≡ ok (u, g) =
      rw (fuel, at_root) run in
    let at_first : h l.root ≡ _ = ap h at_root ∙ ring.1 in
    let ring_out : Cycle g part.out = rw append-nil at part.ring in
    let sizes = length_of_addresses part.out ((p, v) ∷ (q, w) ∷ xs) part.nodes in
    (
      record l { locked = false },
      g,
      rw (free_lock, leb-gt l.len 1 (omega (arith, is.count)), load-ok h l.root at_first, root_run),
      record {
        out = part.out;
        list = record {
          ring = Ring-of_Cycle g l.root part.out ring_out (
              at_root
              ∙ sym (first_or_of_addresses part.out ((p, v) ∷ (q, w) ∷ xs) part.nodes null));
          count = omega (arith, is.count, sizes);
        };
        sorted = part.sorted;
        nodes = part.nodes;
        same_data = part.same_data;
        same = λ a out. part.same a (rw append-nil out);
        unlocked = refl;
      },
    )

-- On an unlocked list of at most one node, or with no callback, `mboxListQSort` returns with the
-- lock held and the heap as it was, so a thread-safe addition or removal that follows waits for
-- ever.
pub qsort-keeps_lock :
    (compare : ℕ → ℕ → Bool) (h : Heap) (l : MboxList) (is_null : Bool)
    → l.locked ≡ false
    → (l.len ≤ 1) ⊎ (is_null ≡ true)
    → Runs (qsort compare l is_null h) λ m g.
      (m.locked ≡ true)
      × (g ≡ h)
      × ((n v : ℕ) → (ts_add_tail n m v g ≡ blocked) × (ts_remove_head m g ≡ blocked))
unfolding qsort lock ts_add_tail ts_remove_head
qsort-keeps_lock compare h l is_null free_lock (inl short) = (
  record l { locked = true },
  h,
  rw (free_lock, leb-le l.len 1 short),
  (refl, refl, λ n v. (refl, refl)),
)
qsort-keeps_lock compare h l is_null free_lock (inr none_given) = (
  record l { locked = true },
  h,
  rw (free_lock, none_given) (ground arith),
  (refl, refl, λ n v. (refl, refl)),
)
