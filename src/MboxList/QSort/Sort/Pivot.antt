-- ===== src/MboxList/QSort/Sort/Pivot.antt =====
-- `mboxListQSortPivot`: the partition of a segment round its last datum.
use libmbox.Base.{
  ℕ, ◌≡◌, refl, sym, ap, ◌<◌, Bool, some, not, [], ◌∷◌, ◌++◌, arith, ◌∙◌, append_assoc, map-append,
  append-nil, length,
}
use libmbox.MboxList.Heap.{Ptr, Node, Heap}
use libmbox.MboxList.Heap.Access.{Runs, load-ok}
use libmbox.MboxList.Heap.Chain.{Cells, first_or, last_or, last_or-append}
use libmbox.MboxList.Rep.{SameOutside, contents}
use libmbox.MboxList.QSort.{qsort_pivot}
use libmbox.MboxList.QSort.Cycle.{Cycle, addresses, Cycle-node, has_of_addresses}
use libmbox.MboxList.QSort.Order.{SameData, All, All-mono, IsOrder, SameData-append, count}
use libmbox.MboxList.QSort.Scan.{
  advance_swap-Cycle, scan-IsScanned, slot, behind, slot-addresses, slot-SameData, behind-All,
}

-- The segment `seg` as its small data, the pivot `pv` at the node `m`, and the others.
pub record IsPartitioned (compare : ℕ → ℕ → Bool) (pv : ℕ) (seg rest : Cells) (h : Heap) (m : Ptr)
    (g : Heap) : Type 0 where
  pub small : Cells
  pub large : Cells
  pub ring : Cycle g (small ++ ((m, pv) ∷ (large ++ rest)))
  pub below : All (λ a. compare a pv) (contents small)
  pub above : All (compare pv) (contents large)
  pub nodes : addresses (small ++ (m, pv) ∷ large) ≡ addresses seg
  pub same_data : SameData (contents (small ++ (m, pv) ∷ large)) (contents seg)
  pub same : SameOutside (seg ++ rest) h g

-- The first node of a ring points back to the last.
first_node :
    (h : Heap) (init : Cells) (hi pv : ℕ) (rest : Cells)
    → Cycle h (init ++ (hi, pv) ∷ rest)
    → (n : Node) × (h (first_or hi init) ≡ some n) × (n.prev ≡ last_or hi rest)
first_node h [] hi pv rest ring = (_, Cycle-node h [] hi pv rest ring, refl)
first_node h ((p, v) ∷ init) hi pv rest ring =
    (_, Cycle-node h [] p v (init ++ (hi, pv) ∷ rest) ring, last_or-append p init ((hi, pv) ∷ rest))

slot_pair : (gt : Cells) (c cv p : ℕ) → p ≡ (slot gt c cv).0 → slot gt c cv ≡ (p, cv)
slot_pair [] c cv p e = ap (λ q. (q, cv)) (sym e)
slot_pair ((g, gv) ∷ gt) c cv p e = ap (λ q. (q, cv)) (sym e)

tail-addresses :
    (small large init rest : Cells)
    → addresses (small ++ large) ≡ addresses init
    → addresses (small ++ (large ++ rest)) ≡ addresses (init ++ rest)
tail-addresses small large init rest nodes =
    ap addresses (sym (append_assoc small large rest))
    ∙ map-append _ (small ++ large) rest
    ∙ ap (λ ps. ps ++ addresses rest) nodes
    ∙ sym (map-append _ init rest)

-- The last exchange, seen from the whole segment.
module _ (small large init : Cells) (hi pv m : ℕ) (e : slot large hi pv ≡ (m, pv)) where
  split_regroup :
      (small ++ (slot large hi pv ∷ [])) ++ (behind large hi pv ++ [])
      ≡ small ++ (m, pv) ∷ behind large hi pv
  split_regroup = rw (append-nil (behind large hi pv), append_assoc, e)

  split-addresses :
      addresses (small ++ large) ≡ addresses init
      → addresses (small ++ (m, pv) ∷ behind large hi pv) ≡ addresses (init ++ (hi, pv) ∷ [])
  split-addresses nodes =
      ap addresses (sym split_regroup)
      ∙ slot-addresses small large hi pv []
      ∙ tail-addresses small large init ((hi, pv) ∷ []) nodes

  split-SameData :
      SameData (contents (small ++ large)) (contents init)
      → SameData
          (contents (small ++ (m, pv) ∷ behind large hi pv))
          (contents (init ++ (hi, pv) ∷ []))
  split-SameData d a =
      ap (λ cs. count a (contents cs)) (sym split_regroup)
      ∙ slot-SameData small large hi pv [] a
      ∙ ap (λ cs. count a (contents cs)) (sym (append_assoc small large ((hi, pv) ∷ [])))
      ∙ ap (count a) (map-append _ (small ++ large) ((hi, pv) ∷ []))
      ∙ SameData-append _ _ (pv ∷ []) (pv ∷ []) d (λ b. refl) a
      ∙ ap (count a) (sym (map-append _ init ((hi, pv) ∷ [])))

pub qsort_pivot-IsPartitioned :
    (compare : ℕ → ℕ → Bool)
    → IsOrder compare
    → (fuel : ℕ) (h : Heap) (init : Cells) (hi pv : ℕ) (rest : Cells)
    → Cycle h (init ++ (hi, pv) ∷ rest)
    → length init < fuel
    → Runs
        (qsort_pivot compare fuel (first_or hi init) hi h)
        (IsPartitioned compare pv (init ++ (hi, pv) ∷ []) rest h)
unfolding qsort_pivot
qsort_pivot-IsPartitioned compare o fuel h init hi pv rest ring enough =
    let (l, at_low, back) = first_node h init hi pv rest ring in
    let (prev, g, run, s) =
      scan-IsScanned compare pv hi rest init fuel h (first_or hi init) (last_or hi rest) [] [] ring
        refl tt tt enough in
    let (m, k, run', (at_m, ring_k, same)) =
      advance_swap-Cycle g (first_or hi init) prev s.small s.large hi pv rest s.ring s.at in
    let pair = slot_pair s.large hi pv m at_m in
    (
      m,
      k,
      rw (load-ok h hi (Cycle-node h init hi pv rest ring), load-ok h _ at_low, back, run) run',
      record {
        small = s.small;
        large = behind s.large hi pv;
        ring = rw pair at ring_k;
        below = s.below;
        above =
            All-mono (λ a. not (compare a pv)) (compare pv) (contents (behind s.large hi pv))
              (λ a e. o.total a pv (ground arith)) (behind-All _ s.large hi pv s.above);
        nodes = split-addresses s.small s.large init hi pv m pair s.nodes;
        same_data = split-SameData s.small s.large init hi pv m pair s.same_data;
        same = λ a out.
            let out' = rw append_assoc at out in
            same a (
              has_of_addresses _ _ (tail-addresses s.small s.large init ((hi, pv) ∷ rest) s.nodes) a
              ∙ out')
            ∙ s.same a out';
      },
    )
