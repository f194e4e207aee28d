-- ===== src/MboxList/QSort/Scan.antt =====
-- One round of the partition: the data at most the pivot to the front, the others behind them.
use libmbox.Base.{
  ℕ, zero, suc, ◌≡◌, refl, sym, ap, ◌<◌, Bool, true, some, not, [], ◌∷◌, ◌++◌, arith, ◌∙◌,
  append_assoc, map-append, append-nil, length, Bool-cases, inl, inr, ne→==, eq→==,
}
use libmbox.MboxList.Heap.{Ptr, null, Node, Heap, with_value}
use libmbox.MboxList.Heap.Access.{Runs, load-ok, set_value-ok}
use libmbox.MboxList.Heap.Chain.{Cells, first_or, first_or-append, last_or, last_or-append}
use libmbox.MboxList.Rep.{SameOutside, contents}
use libmbox.MboxList.QSort.{advance_swap, scan}
use libmbox.MboxList.QSort.Cycle.{
  Cycle, addresses, has_of_addresses, Cycle-with_value, Cycle-node, Cycle-before,
  Cycle-before_ne_null, Cycle-ne, with_value-SameOutside,
}
use libmbox.MboxList.QSort.Order.{SameData, SameData-swap, All, All-append}

-- The node that takes the datum `cv` of `c` when it is moved before the large ones `gt`, and what
-- is behind it then.
abbrev pub slot : Cells → Ptr → ℕ → Ptr × ℕ
slot [] c cv = (c, cv)
slot ((g, gv) ∷ gt) c cv = (g, cv)

abbrev pub behind : Cells → Ptr → ℕ → Cells
behind [] c cv = []
behind ((g, gv) ∷ gt) c cv = gt ++ (c, gv) ∷ []

pub advance_swap-Cycle :
    (h : Heap) (low prev : Ptr) (le gt : Cells) (c cv : ℕ) (rest : Cells)
    → Cycle h (le ++ (gt ++ (c, cv) ∷ rest))
    → prev ≡ last_or (last_or c rest) le
    → Runs (advance_swap low prev c h) λ p g.
      (p ≡ (slot gt c cv).0)
      × Cycle g (le ++ (slot gt c cv ∷ (behind gt c cv ++ rest)))
      × SameOutside (le ++ (gt ++ (c, cv) ∷ rest)) h g
unfolding advance_swap
advance_swap-Cycle h low prev le [] c cv rest ring at =
    let (w, r, before) = Cycle-before h le c cv rest ring in
    let here = Cycle-node h le c cv rest ring in
    let ring' = Cycle-with_value h le c cv cv rest ring in
    (
      c,
      with_value (with_value h c cv) c cv,
      rw (
        at,
        ne→== _ null (Cycle-before_ne_null h le c cv rest ring),
        load-ok h _ before,
        load-ok h c here,
        load-ok h c here,
        set_value-ok h c here cv,
        set_value-ok _ c (Cycle-node _ le c cv rest ring') cv,
      ),
      (
        refl,
        Cycle-with_value _ le c cv cv rest ring',
        λ a o.
            with_value-SameOutside _ le c cv cv rest a o
            ∙ with_value-SameOutside h le c cv cv rest a o,
      ),
    )
advance_swap-Cycle h low prev le ((g, gv) ∷ gt) c cv rest ring at =
    let back = gt ++ (c, cv) ∷ rest in
    let at' : prev ≡ last_or (last_or g back) le =
      at ∙ ap (λ t. last_or t le) (sym (last_or-append g gt ((c, cv) ∷ rest))) in
    let (w, r, before) = Cycle-before h le g gv back ring in
    let here = Cycle-node h le g gv back ring in
    let there = Cycle-node h (le ++ (g, gv) ∷ gt) c cv rest (rw append_assoc ring) in
    let ring₁ = Cycle-with_value h le g gv cv back ring in
    let ring₁' : Cycle (with_value h g cv) ((le ++ (g, cv) ∷ gt) ++ (c, cv) ∷ rest) =
      rw append_assoc ring₁ in
    let there₁ = Cycle-node _ (le ++ (g, cv) ∷ gt) c cv rest ring₁' in
    let ring₂ = Cycle-with_value _ (le ++ (g, cv) ∷ gt) c cv gv rest ring₁' in
    (
      g,
      with_value (with_value h g cv) c gv,
      rw (
        at',
        ne→== _ null (Cycle-before_ne_null h le g gv back ring),
        load-ok h _ before,
        load-ok h g here,
        load-ok h c there,
        set_value-ok h g here cv,
        set_value-ok _ c there₁ gv,
      ),
      (
        refl,
        simp append_assoc (simp append_assoc at ring₂),
        λ a o.
            with_value-SameOutside _ (le ++ (g, cv) ∷ gt) c cv gv rest a (
              has_of_addresses ((le ++ (g, cv) ∷ gt) ++ (c, cv) ∷ rest)
                (le ++ ((g, gv) ∷ gt ++ (c, cv) ∷ rest)) (simp (append_assoc, map-append)) a
              ∙ o)
            ∙ with_value-SameOutside h le g gv cv back a o,
      ),
    )

-- Regrouping of the parts of a ring.
regroup_front :
    (a : Cells) (x : Ptr × ℕ) (b c : Cells) → a ++ (x ∷ (b ++ c)) ≡ (a ++ (x ∷ [])) ++ (b ++ c)
regroup_front a x b c = simp append_assoc

regroup_back :
    (a b : Cells) (x : Ptr × ℕ) (c : Cells) → a ++ (b ++ x ∷ c) ≡ a ++ ((b ++ x ∷ []) ++ c)
regroup_back a b x c = simp append_assoc

-- The exchange keeps the nodes in their places and the data, each as often.
pub slot-addresses :
    (le gt : Cells) (c cv : ℕ) (rest : Cells)
    → addresses ((le ++ (slot gt c cv ∷ [])) ++ (behind gt c cv ++ rest))
      ≡ addresses (le ++ (gt ++ (c, cv) ∷ rest))
slot-addresses le [] c cv rest = simp (append_assoc, map-append)
slot-addresses le ((g, gv) ∷ gt) c cv rest = simp (append_assoc, map-append)

pub slot-SameData :
    (le gt : Cells) (c cv : ℕ) (rest : Cells)
    → SameData
        (contents ((le ++ (slot gt c cv ∷ [])) ++ (behind gt c cv ++ rest)))
        (contents (le ++ (gt ++ (c, cv) ∷ rest)))
slot-SameData le [] c cv rest a = simp (append_assoc, map-append)
slot-SameData le ((g, gv) ∷ gt) c cv rest a =
    simp (append_assoc, map-append)
      (SameData-swap (contents le) (contents gt) (contents rest) cv gv a)

slot-All :
    (P : ℕ → Bool) (gt : Cells) (c cv : ℕ) → P cv ≡ true → All P (contents (slot gt c cv ∷ []))
slot-All P [] c cv p = (p, tt)
slot-All P ((g, gv) ∷ gt) c cv p = (p, tt)

pub behind-All :
    (P : ℕ → Bool) (gt : Cells) (c cv : ℕ) → All P (contents gt) → All P (contents (behind gt c cv))
behind-All P [] c cv all = tt
behind-All P ((g, gv) ∷ gt) c cv (p, all) =
    rw map-append (All-append P (contents gt) (gv ∷ []) all (p, tt))

-- After the exchange `current` still links on to what is behind it.
current_node :
    (g : Heap) (le gt : Cells) (c cv : ℕ) (todo : Cells) (hi pv : ℕ) (rest : Cells)
    → Cycle g (le ++ (slot gt c cv ∷ (behind gt c cv ++ (todo ++ (hi, pv) ∷ rest))))
    → (n : Node) × (g c ≡ some n) × (n.next ≡ first_or hi todo)
current_node g le [] c cv todo hi pv rest ring = (
  _,
  Cycle-node g le c cv (todo ++ (hi, pv) ∷ rest) ring,
  first_or-append _ todo ((hi, pv) ∷ rest),
)
current_node g le ((d, dv) ∷ gt) c cv todo hi pv rest ring = (
  _,
  Cycle-node g (le ++ (d, cv) ∷ gt) c dv (todo ++ (hi, pv) ∷ rest)
      (simp append_assoc (simp append_assoc at ring)),
  first_or-append _ todo ((hi, pv) ∷ rest),
)

-- What the loop leaves: the data at most the pivot, `small`, before the others, `large`.
pub record IsScanned (compare : ℕ → ℕ → Bool) (pv hi : ℕ) (rest start : Cells) (h : Heap)
    (prev : Ptr) (g : Heap) : Type 0 where
  pub small : Cells
  pub large : Cells
  pub at : prev ≡ last_or (last_or hi rest) small
  pub ring : Cycle g (small ++ (large ++ (hi, pv) ∷ rest))
  pub below : All (λ a. compare a pv) (contents small)
  pub above : All (λ a. not (compare a pv)) (contents large)
  pub nodes : addresses (small ++ large) ≡ addresses start
  pub same_data : SameData (contents (small ++ large)) (contents start)
  pub same : SameOutside (start ++ (hi, pv) ∷ rest) h g

module _ (compare : ℕ → ℕ → Bool) (pv hi : ℕ) (rest : Cells) where
  -- The same of the list from which a first step led here.
  IsScanned-before :
      (start' start : Cells) (h g k : Heap) (prev : Ptr)
      → addresses start' ≡ addresses start
      → SameData (contents start') (contents start)
      → SameOutside (start ++ (hi, pv) ∷ rest) h g
      → IsScanned compare pv hi rest start' g prev k
      → IsScanned compare pv hi rest start h prev k
  IsScanned-before start' start h g k prev e d same r = record {
    small = r.small;
    large = r.large;
    at = r.at;
    ring = r.ring;
    below = r.below;
    above = r.above;
    nodes = r.nodes ∙ e;
    same_data = λ a. r.same_data a ∙ d a;
    same = λ a o.
        r.same a (
          has_of_addresses (start' ++ (hi, pv) ∷ rest) (start ++ (hi, pv) ∷ rest)
            (simp (map-append, e)) a
          ∙ o)
        ∙ same a o;
  }

  pub scan-IsScanned :
      (todo : Cells) (fuel : ℕ) (h : Heap) (low prev : Ptr) (le gt : Cells)
      → Cycle h (le ++ (gt ++ (todo ++ (hi, pv) ∷ rest)))
      → prev ≡ last_or (last_or hi rest) le
      → All (λ a. compare a pv) (contents le)
      → All (λ a. not (compare a pv)) (contents gt)
      → length todo < fuel
      → Runs
          (scan compare fuel low hi pv prev (first_or hi todo) h)
          (IsScanned compare pv hi rest (le ++ (gt ++ todo)) h)
  unfolding scan
  scan-IsScanned todo zero h low prev le gt ring at below above fuel = absurd (omega arith)
  scan-IsScanned [] (suc k) h low prev le gt ring at below above fuel = (
    prev,
    h,
    rw (eq→== hi hi refl),
    record {
      small = le;
      large = gt;
      at = at;
      ring = ring;
      below = below;
      above = above;
      nodes = rw (append-nil gt);
      same_data = rw (append-nil gt) (λ a. refl);
      same = λ a o. refl;
    },
  )
  scan-IsScanned ((c, cv) ∷ todo) (suc k) h low prev le gt ring at below above fuel =
      let tail = todo ++ (hi, pv) ∷ rest in
      let here = Cycle-node h (le ++ gt) c cv tail (rw append_assoc ring) in
      let apart = Cycle-ne h (le ++ gt) c cv todo hi pv rest (rw append_assoc ring) in
      elim (Bool-cases (compare cv pv)) [
        | inl yes_le ↦
            let at' : prev ≡ last_or (last_or c tail) le =
              at ∙ ap (λ t. last_or t le) (sym (last_or-append c todo ((hi, pv) ∷ rest))) in
            let (p, g, run, (at_p, ring_g, same)) =
              advance_swap-Cycle h low prev le gt c cv tail ring at' in
            let (n, at_c, on) = current_node g le gt c cv todo hi pv rest ring_g in
            let (out, g', run', rest') =
              scan-IsScanned todo k g low p (le ++ (slot gt c cv ∷ [])) (behind gt c cv)
                (rw (← regroup_front le (slot gt c cv) (behind gt c cv) tail) ring_g)
                (at_p ∙ sym (last_or-append _ le (slot gt c cv ∷ [])))
                (rw map-append (
                  All-append (λ a. compare a pv) (contents le) _ below
                    (slot-All (λ a. compare a pv) gt c cv yes_le)))
                (behind-All (λ a. not (compare a pv)) gt c cv above) (omega arith) in
            (
              out,
              g',
              rw (ne→== c hi apart, load-ok h c here, yes_le, run, load-ok g c at_c, on) run',
              IsScanned-before _ (le ++ (gt ++ (c, cv) ∷ todo)) h g g' out
                  (slot-addresses le gt c cv todo) (slot-SameData le gt c cv todo)
                  (λ a o. same a (simp append_assoc at o)) rest',
            )
        | inr no_le ↦
            let next : first_or (first_or c (le ++ gt)) tail ≡ first_or hi todo =
              first_or-append _ todo ((hi, pv) ∷ rest) in
            let (out, g', run', rest') =
              scan-IsScanned todo k h low prev le (gt ++ (c, cv) ∷ [])
                (rw (← regroup_back le gt (c, cv) tail) ring) at below
                (rw map-append (
                  All-append (λ a. not (compare a pv)) (contents gt) (cv ∷ []) above
                    (rw no_le refl, tt)))
                (omega arith) in
            (
              out,
              g',
              rw (ne→== c hi apart, load-ok h c here, no_le, load-ok h c here, next) run',
              rw (← regroup_back le gt (c, cv) todo) at rest',
            )
      ]
