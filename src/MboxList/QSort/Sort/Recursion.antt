-- ===== src/MboxList/QSort/Sort/Recursion.antt =====
-- `mboxQSortHelper` on a segment of the ring, and on the whole of it.
use libmbox.Base.{
  ℕ, zero, suc, ◌+◌, ◌≡◌, refl, sym, ap, ap₂, subst, ◌<◌, ◌≢◌, Bool, false, [], ◌∷◌, ◌++◌, arith,
  ◌∙◌, ◌==◌, append_assoc, map-append, length, length-append, Bool-cases, inl, inr, ne→==, eq→==,
  if◌then◌else◌,
}
use libmbox.Base.Outcome.{ok}
use libmbox.MboxList.Heap.{Ptr, null, Heap, M, ◌>>=◌, pure, load}
use libmbox.MboxList.Heap.Access.{Runs, load-ok}
use libmbox.MboxList.Heap.Chain.{Cells, has, first_or, first_or-append, last_or, last_or-append}
use libmbox.MboxList.Rep.{contents}
use libmbox.MboxList.QSort.{qsort_helper}
use libmbox.MboxList.QSort.Cycle.{
  Cycle, addresses, Cycle-node, Cycle-before, Cycle-rotate, Cycle-ne, has_of_addresses,
  first_or_of_addresses, last_or_of_addresses,
}
use libmbox.MboxList.QSort.Order.{
  SameData-append, SameData-cons, IsSorted, IsSorted-append, IsOrder, All-SameData,
}
use libmbox.MboxList.QSort.Sort.Parts.{
  IsSortedPart, unsnoc, uncons_snoc, length_of_addresses, has_comm,
}
use libmbox.MboxList.QSort.Sort.Pivot.{IsPartitioned, qsort_pivot-IsPartitioned}

-- The two sorted parts round the pivot make the sorted segment.
module _ (compare : ℕ → ℕ → Bool) (o : IsOrder compare) (pv : ℕ) (seg rest : Cells) (h g : Heap)
    (m : Ptr) (p : IsPartitioned compare pv seg rest h m g) where
  -- What is round the second part in the ring.
  abbrev round : Cells → Cells
  round small = rest ++ (small ++ (m, pv) ∷ [])

  regroup_out :
      (small large : Cells)
      → small ++ ((m, pv) ∷ (large ++ rest)) ≡ (small ++ (m, pv) ∷ []) ++ (large ++ rest)
  regroup_out small large = simp append_assoc

  whole : (a : Ptr) → has a (p.small ++ ((m, pv) ∷ (p.large ++ rest))) ≡ has a (seg ++ rest)
  whole = has_of_addresses _ _ (
      ap addresses (sym (append_assoc p.small ((m, pv) ∷ p.large) rest))
      ∙ map-append _ (p.small ++ (m, pv) ∷ p.large) rest
      ∙ ap (λ ps. ps ++ addresses rest) p.nodes
      ∙ sym (map-append _ seg rest))

  turned :
      (out : Cells)
      → addresses out ≡ addresses p.small
      → (a : Ptr) → has a (p.large ++ round out) ≡ has a (p.small ++ ((m, pv) ∷ (p.large ++ rest)))
  turned out nodes a =
      ap (has a) (sym (append_assoc p.large rest (out ++ (m, pv) ∷ [])))
      ∙ has_comm a (p.large ++ rest) (out ++ (m, pv) ∷ [])
      ∙ has_of_addresses ((out ++ (m, pv) ∷ []) ++ (p.large ++ rest))
          (p.small ++ ((m, pv) ∷ (p.large ++ rest))) (simp (append_assoc, map-append, nodes)) a

  combine :
      (k l : Heap)
      → (s : IsSortedPart compare p.small ((m, pv) ∷ (p.large ++ rest)) g k)
      → IsSortedPart compare p.large (round s.out) k l
      → IsSortedPart compare seg rest h l
  combine k l s t = record {
    out = s.out ++ (m, pv) ∷ t.out;
    ring =
        rw (append_assoc s.out ((m, pv) ∷ t.out) rest, regroup_out s.out t.out)
          (Cycle-rotate l (t.out ++ rest) (s.out ++ (m, pv) ∷ []) (rw append_assoc t.ring));
    sorted = rw map-append (
        IsSorted-append compare o (contents s.out) (contents t.out) pv s.sorted t.sorted
          (All-SameData _ (contents p.small) (contents s.out) (λ a. sym (s.same_data a)) p.below)
          (All-SameData _ (contents p.large) (contents t.out) (λ a. sym (t.same_data a)) p.above));
    nodes = rw (map-append, s.nodes, t.nodes) (rw map-append at p.nodes);
    same_data = λ a.
        rw (map-append _ s.out _, map-append _ p.small _)
          (SameData-append _ _ (pv ∷ contents t.out) (pv ∷ contents p.large) s.same_data
            (SameData-cons pv (contents t.out) (contents p.large) t.same_data) a)
        ∙ p.same_data a;
    same = λ a out.
        let out_s = whole a ∙ out in
        t.same a (turned s.out s.nodes a ∙ out_s) ∙ s.same a out_s ∙ p.same a out;
  }

-- The address of an end of the segment, from the partition's side.
module _ (init : Cells) (hi hv : ℕ) (small large : Cells) (m pv : ℕ)
    (nodes : addresses (small ++ (m, pv) ∷ large) ≡ addresses (init ++ (hi, hv) ∷ [])) where
  low-small : first_or hi init ≡ first_or m small
  low-small =
      sym (first_or-append null init ((hi, hv) ∷ []))
      ∙ sym (first_or_of_addresses _ _ nodes null)
      ∙ first_or-append null small ((m, pv) ∷ large)

  high-large : last_or m large ≡ hi
  high-large =
      sym (last_or-append null small ((m, pv) ∷ large))
      ∙ last_or_of_addresses _ _ nodes null
      ∙ last_or-append null init ((hi, hv) ∷ [])

  length-small : length small + length large ≡ length init
  length-small = omega (
    arith,
    length_of_addresses _ _ nodes,
    length-append small ((m, pv) ∷ large),
    length-append init ((hi, hv) ∷ []),
  )

-- The ends of what follows the pivot in the ring.
module _ (rest out : Cells) (m pv : ℕ) (y : Ptr × ℕ) (ys : Cells)
    (e : rest ++ (out ++ (m, pv) ∷ []) ≡ y ∷ ys) where
  high_next : last_or y.0 ys ≡ m
  high_next =
      ap (last_or null) (sym e)
      ∙ last_or-append null rest (out ++ (m, pv) ∷ [])
      ∙ last_or-append _ out ((m, pv) ∷ [])

  first_next : y.0 ≡ first_or (first_or m out) rest
  first_next =
      ap (first_or null) (sym e)
      ∙ first_or-append null rest (out ++ (m, pv) ∷ [])
      ∙ ap (λ d. first_or d rest) (first_or-append null out ((m, pv) ∷ []))

low_next :
    (large rest out : Cells) (m pv : ℕ) (y : Ptr × ℕ) (ys : Cells)
    → rest ++ (out ++ (m, pv) ∷ []) ≡ y ∷ ys
    → first_or (first_or m out) (large ++ rest) ≡ first_or y.0 large
low_next large rest out m pv y ys e =
    first_or-append _ large rest
    ∙ ap (λ d. first_or d large) (sym (first_next rest out m pv y ys e))

-- The test of `count` and `high->next`.
abbrev done_test : Ptr → Ptr → ℕ → M Bool
done_test low high count =
    if count == 1 then (do h ← load high; pure (low == h.next)) else pure false

module _ (compare : ℕ → ℕ → Bool) (o : IsOrder compare) where
  -- What the recursive calls are to do: sort a segment, which may be empty, before a node `x`.
  abbrev SortsParts : ℕ → Type 0
  SortsParts fuel =
      (h : Heap) (seg : Cells) (x : Ptr × ℕ) (rest : Cells)
      → Cycle h (seg ++ (x ∷ rest))
      → length seg < fuel
      → Runs (qsort_helper compare fuel (first_or x.0 seg) (last_or (last_or x.0 rest) seg) 1 h)
          (λ _. IsSortedPart compare seg (x ∷ rest) h)

  -- One call on two nodes or more, given the calls that it makes.
  qsort_helper_step :
      (k : ℕ)
      → SortsParts k
      → (h : Heap) (init : Cells) (hi hv : ℕ) (rest : Cells) (count : ℕ)
      → Cycle h (init ++ (hi, hv) ∷ rest)
      → length init < k
      → first_or hi init ≢ hi
      → done_test (first_or hi init) hi count h ≡ ok (false, h)
      → Runs
          (qsort_helper compare (suc k) (first_or hi init) hi count h)
          (λ _. IsSortedPart compare (init ++ (hi, hv) ∷ []) rest h)
  unfolding qsort_helper
  qsort_helper_step k sorts h init hi hv rest count ring enough ne go =
      let seg = init ++ (hi, hv) ∷ [] in
      let (m, g, run, p) =
        qsort_pivot-IsPartitioned compare o (suc k) h init hi hv rest ring (omega arith) in
      let low_m = low-small init hi hv p.small p.large m hv p.nodes in
      let high_m = high-large init hi hv p.small p.large m hv p.nodes in
      let sizes = length-small init hi hv p.small p.large m hv p.nodes in
      let at_m = Cycle-node g p.small m hv (p.large ++ rest) p.ring in
      let (u₁, k₁, run₁, s) = sorts g p.small (m, hv) (p.large ++ rest) p.ring (omega arith) in
      let run₁' =
        ap (λ a. qsort_helper compare k a (last_or (last_or m (p.large ++ rest)) p.small) 1 g) low_m
        ∙ run₁ in
      let at_m₁ = Cycle-node k₁ s.out m hv (p.large ++ rest) s.ring in
      let (y, ys, e) = uncons_snoc (rest ++ s.out) (m, hv) in
      let e' : rest ++ (s.out ++ (m, hv) ∷ []) ≡ y ∷ ys =
        sym (append_assoc rest s.out ((m, hv) ∷ [])) ∙ e in
      let turned₁ =
        Cycle-rotate k₁ (s.out ++ (m, hv) ∷ []) (p.large ++ rest)
          (rw (← regroup_out compare o hv seg rest h g m p s.out p.large) s.ring) in
      let ring₂ : Cycle k₁ (p.large ++ (y ∷ ys)) =
        subst (λ zs. Cycle k₁ (p.large ++ zs)) e' (rw (append_assoc p.large rest) at turned₁) in
      let low₂ = low_next p.large rest s.out m hv y ys e' in
      let high₂ : last_or (last_or y.0 ys) p.large ≡ hi =
        ap (λ d. last_or d p.large) (high_next rest s.out m hv y ys e') ∙ high_m in
      let (u₂, l, run₂, t) = sorts k₁ p.large y ys ring₂ (omega arith) in
      (
        u₂,
        l,
        rw (ne→== _ _ ne, go, run, load-ok g m at_m, run₁', load-ok k₁ m at_m₁)
            (ap₂ (λ a b. qsort_helper compare k a b 1 k₁) low₂ (sym high₂) ∙ run₂),
        combine compare o hv seg rest h g m p k₁ l s
            (subst (λ zs. IsSortedPart compare p.large zs k₁ l) (sym e') t),
      )

  -- A segment of at least two nodes, given with its last node.
  part_long :
      (k : ℕ)
      → SortsParts k
      → (h : Heap) (p v : ℕ) (init : Cells) (hi hv : ℕ) (x : Ptr × ℕ) (rest : Cells)
      → Cycle h ((p, v) ∷ init ++ ((hi, hv) ∷ (x ∷ rest)))
      → length init + 1 < k
      → Runs
          (qsort_helper compare (suc k) p hi 1 h)
          (λ _. IsSortedPart compare ((p, v) ∷ init ++ (hi, hv) ∷ []) (x ∷ rest) h)
  part_long k sorts h p v init hi hv x rest ring enough =
      let ring' : Cycle h ((p, v) ∷ (init ++ (hi, hv) ∷ []) ++ (x ∷ rest)) =
        rw (append_assoc init ((hi, hv) ∷ []) (x ∷ rest)) ring in
      qsort_helper_step k sorts h ((p, v) ∷ init) hi hv (x ∷ rest) 1 ring (omega arith)
        (Cycle-ne h [] p v init hi hv (x ∷ rest) ring)
        (rw (
          load-ok h hi (Cycle-node h ((p, v) ∷ init) hi hv (x ∷ rest) ring),
          ne→== p x.0 (Cycle-ne h [] p v (init ++ (hi, hv) ∷ []) x.0 x.1 rest ring'),
        ))

  IsSortedPart-refl :
      (h : Heap) (seg rest : Cells)
      → Cycle h (seg ++ rest)
      → IsSorted compare (contents seg)
      → IsSortedPart compare seg rest h h
  IsSortedPart-refl h seg rest ring sorted = record {
    out = seg;
    ring = ring;
    sorted = sorted;
    nodes = refl;
    same_data = λ a. refl;
    same = λ a o. refl;
  }

  -- A recursive call sorts its segment, which may be empty.
  pub qsort_helper_part : (fuel : ℕ) → SortsParts fuel
  unfolding qsort_helper
  qsort_helper_part zero h seg x rest ring enough = absurd (omega arith)
  qsort_helper_part (suc k) h [] x rest ring enough =
      let (w, r, before) = Cycle-before h [] x.0 x.1 rest ring in
      let done = IsSortedPart-refl h [] (x ∷ rest) ring tt in
      elim (Bool-cases (x.0 == last_or x.0 rest)) [
        | inl e ↦ (tt, h, rw e, done)
        | inr e ↦ (tt, h, rw (e, load-ok h _ before, eq→== x.0 x.0 refl), done)
      ]
  qsort_helper_part (suc k) h ((p, v) ∷ []) x rest ring enough =
      (tt, h, rw (eq→== p p refl), IsSortedPart-refl h ((p, v) ∷ []) (x ∷ rest) ring (tt, tt))
  qsort_helper_part (suc k) h ((p, v) ∷ (q, w) ∷ seg) x rest ring enough =
      let (init, hi, hv, e) = unsnoc (q, w) seg in
      let sizes : suc (length seg) ≡ length (init ++ (hi, hv) ∷ []) = ap (λ zs. length zs) e in
      let ring' = subst (λ zs. Cycle h ((p, v) ∷ zs ++ (x ∷ rest))) e ring in
      let sorted =
        part_long k (qsort_helper_part k) h p v init hi hv x rest
          (rw (append_assoc init ((hi, hv) ∷ []) (x ∷ rest)) at ring')
          (omega (arith, length-append init ((hi, hv) ∷ []))) in
      subst
        (λ zs.
          Runs (qsort_helper compare (suc k) p (last_or p zs) 1 h)
            (λ _. IsSortedPart compare ((p, v) ∷ zs) (x ∷ rest) h))
        (sym e) (rw (last_or-append p init ((hi, hv) ∷ [])) sorted)

  -- The first call sorts the whole ring, of at least two nodes.
  pub qsort_helper_all :
      (k : ℕ) (h : Heap) (p v q w : ℕ) (xs : Cells)
      → Cycle h ((p, v) ∷ (q, w) ∷ xs)
      → length xs + 1 < k
      → Runs
          (qsort_helper compare (suc k) p (last_or q xs) 0 h)
          (λ _. IsSortedPart compare ((p, v) ∷ (q, w) ∷ xs) [] h)
  qsort_helper_all k h p v q w xs ring enough =
      let (init, hi, hv, e) = unsnoc (q, w) xs in
      let sizes : suc (length xs) ≡ length (init ++ (hi, hv) ∷ []) = ap (λ zs. length zs) e in
      let ring' : Cycle h ((p, v) ∷ init ++ (hi, hv) ∷ []) =
        subst (λ zs. Cycle h ((p, v) ∷ zs)) e ring in
      subst
        (λ zs.
          Runs (qsort_helper compare (suc k) p (last_or p zs) 0 h)
            (λ _. IsSortedPart compare ((p, v) ∷ zs) [] h))
        (sym e)
        (rw (last_or-append p init ((hi, hv) ∷ [])) (
          qsort_helper_step k (qsort_helper_part k) h ((p, v) ∷ init) hi hv [] 0 ring'
            (omega (arith, length-append init ((hi, hv) ∷ [])))
            (Cycle-ne h [] p v init hi hv [] ring') refl))
