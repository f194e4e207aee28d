-- ===== src/MboxList/Remove.antt =====
-- `mboxListRemoveHead` and `mboxListRemoveTail` take the first and the last node off.
use libmbox.Base.{
  ℕ, suc, ◌-◌, ◌≡◌, refl, ◌≢◌, false, none, some, [], ◌∷◌, ◌++◌, arith, length, length-append,
  ne→==, ◌∙◌,
}
use libmbox.Base.Outcome.{ok}
use libmbox.MboxList.{MboxList, remove_head, remove_tail}
use libmbox.MboxList.Heap.{Ptr, null, node, Heap, write, with_next, with_prev}
use libmbox.MboxList.Heap.Access.{Runs, load-ok, set_next-ok, set_prev-ok, free-ok}
use libmbox.MboxList.Heap.Chain.{
  Cells, has, last_or, Chain, frame, Chain-relink, Chain-with_next, Chain-with_prev, Chain-front,
  Chain-back, not-mem_of_Chain-append, ne-last_or, last_node, last_or-append, with_next_ne,
  with_prev_ne, has-last_or, has-append,
}
use libmbox.MboxList.Rep.{IsList, SameOutside, SameHandle}

write_ne : (h : Heap) (p a : Ptr) → a ≢ p → write h p none a ≡ h a
unfolding write
write_ne h p a ne = ground arith

write_self : (h : Heap) (p : Ptr) → write h p none p ≡ none
unfolding write
write_self h p = ground arith

-- An empty list gives `NULL`, and nothing changes.
pub remove_head-nil :
    (h : Heap) (l : MboxList) → IsList h l [] → remove_head l h ≡ ok ((null, l), h)
unfolding remove_head
remove_head-nil h l is = rw is.count

pub remove_tail-nil :
    (h : Heap) (l : MboxList) → IsList h l [] → remove_tail l h ≡ ok ((null, l), h)
unfolding remove_tail
remove_tail-nil h l is = rw is.count

-- The last node but for the list's only one: both functions then do the same.
module _ (h : Heap) (l : MboxList) (p : Ptr) (v : ℕ) (c : Chain h p ((p, v) ∷ []) p)
    (at_root : l.root ≡ p) (one : l.len ≡ 1) where
  remove_head-one :
      remove_head l h ≡ ok ((v, record l { root = null; len = l.len - 1 }), write h p none)
  unfolding remove_head
  remove_head-one = rw (at_root, one, ne→== p null c.0, load-ok h p c.1, free-ok h p c.1)

  remove_tail-one :
      remove_tail l h ≡ ok ((v, record l { root = null; len = l.len - 1 }), write h p none)
  unfolding remove_tail
  remove_tail-one = rw (at_root, one, load-ok h p c.1, load-ok h p c.1, free-ok h p c.1)

-- The heap after the first node `p` of the ring of `p`, `q` and `xs` was unlinked and freed.
abbrev beheaded : Heap → Ptr → Ptr → Cells → Heap
beheaded h p q xs = write (with_prev (with_next h (last_or q xs) q) q (last_or q xs)) p none

module _ (h : Heap) (p q : Ptr) (v w : ℕ) (xs : Cells)
    (c : Chain h (last_or q xs) ((p, v) ∷ (q, w) ∷ xs) p) where
  beheaded-Chain : Chain (beheaded h p q xs) (last_or q xs) ((q, w) ∷ xs) q
  beheaded-Chain =
      frame (last_or q xs) ((q, w) ∷ xs) q (Chain-relink h p q w xs p q (last_or q xs) c.3)
        (λ a i. write_ne _ p a (λ e. cc (e, i, c.2)))

  beheaded-SameOutside : SameOutside ((p, v) ∷ (q, w) ∷ xs) h (beheaded h p q xs)
  beheaded-SameOutside a o =
      write_ne _ p a (λ e. ground arith)
      ∙ with_prev_ne _ q (last_or q xs) a (λ e. ground arith)
      ∙ with_next_ne _ (last_or q xs) q a (λ e. ground (arith, has-last_or q w xs))

  remove_head-many :
      (l : MboxList) (k : ℕ)
      → l.root ≡ p
      → l.len ≡ suc (suc k)
      → remove_head l h ≡ ok ((v, record l { root = q; len = l.len - 1 }), beheaded h p q xs)
  unfolding remove_head
  remove_head-many l k at_root many =
      let (u, r, last) = last_node h p q w xs p c.3 in
      let turned = Chain-with_next h p q w xs p q c.3 in
      let kept : with_prev (with_next h (last_or q xs) q) q (last_or q xs) p
          ≡ some (node v q (last_or q xs)) =
        with_prev_ne _ q (last_or q xs) p (λ e. ground (arith, c.2))
        ∙ with_next_ne h (last_or q xs) q p (λ e. cc (e, has-last_or q w xs, c.2))
        ∙ c.1 in
      rw (
        ne→== l.len 0 (omega arith),
        ne→== l.len 1 (omega arith),
        at_root,
        ne→== p null c.0,
        load-ok h p c.1,
        set_next-ok h (last_or q xs) last q,
        set_prev-ok _ q turned.1 (last_or q xs),
        free-ok _ p kept,
      )

-- On a list that is not empty, `mboxListRemoveHead` returns the first datum, leaves the list of
-- the others, frees the first node, and writes to no other node than the list's.
pub remove_head-IsList :
    (h : Heap) (l : MboxList) (p : Ptr) (v : ℕ) (xs : Cells)
    → IsList h l ((p, v) ∷ xs)
    → Runs (remove_head l h) λ (val, m) g.
      (val ≡ v) × IsList g m xs × (g p ≡ none) × SameOutside ((p, v) ∷ xs) h g × SameHandle l m
remove_head-IsList h l p v [] is =
    let (at_root, c) = is.ring in
    (
      _,
      _,
      remove_head-one h l p v c at_root is.count,
      (
        refl,
        record { ring = refl; count = omega (arith, is.count) },
        write_self h p,
        λ a o. write_ne h p a (λ e. ground arith),
        (refl, refl),
      ),
    )
remove_head-IsList h l p v ((q, w) ∷ xs) is =
    let (at_root, c) = is.ring in
    (
      _,
      _,
      remove_head-many h p q v w xs c l (length xs) at_root is.count,
      (
        refl,
        record { ring = (refl, beheaded-Chain h p q v w xs c); count = omega (arith, is.count) },
        write_self _ p,
        beheaded-SameOutside h p q v w xs c,
        (refl, refl),
      ),
    )

-- The heap after the last node of the ring of `p` and `xs ++ (q, w) ∷ []` was unlinked and freed.
abbrev curtailed : Heap → Ptr → Cells → Ptr → Heap
curtailed h p xs q = write (with_next (with_prev h p (last_or p xs)) (last_or p xs) p) q none

module _ (h : Heap) (p q : Ptr) (v w : ℕ) (xs : Cells)
    (c : Chain h q ((p, v) ∷ xs ++ (q, w) ∷ []) p) where
  front : Chain h q ((p, v) ∷ xs) q
  front = Chain-front h q ((p, v) ∷ xs) ((q, w) ∷ []) p c

  at_last : h q ≡ some (node w p (last_or p xs))
  at_last = (Chain-back h q ((p, v) ∷ xs) ((q, w) ∷ []) p c).1

  apart : has q ((p, v) ∷ xs) ≡ false
  apart = not-mem_of_Chain-append h q ((p, v) ∷ xs) q w [] p c

  turned_back : Chain (with_prev h p (last_or p xs)) (last_or p xs) ((p, v) ∷ xs) q
  turned_back = Chain-with_prev h q p v xs q (last_or p xs) front

  curtailed-Chain : Chain (curtailed h p xs q) (last_or p xs) ((p, v) ∷ xs) p
  curtailed-Chain =
      frame (last_or p xs) ((p, v) ∷ xs) p (Chain-with_next _ (last_or p xs) p v xs q p turned_back)
        (λ a i. write_ne _ q a (λ e. cc (e, i, apart)))

  curtailed-SameOutside : SameOutside ((p, v) ∷ xs ++ (q, w) ∷ []) h (curtailed h p xs q)
  curtailed-SameOutside a o =
      let apart_all : has a ((p, v) ∷ xs) ≡ false = ground (arith, has-append a xs ((q, w) ∷ [])) in
      write_ne _ q a (λ e. ground (arith, has-append a xs ((q, w) ∷ [])))
      ∙ with_next_ne _ (last_or p xs) p a (ne-last_or a p v xs apart_all)
      ∙ with_prev_ne h p (last_or p xs) a (λ e. ground arith)

  remove_tail-many :
      (l : MboxList)
      → l.root ≡ p
      → l.len ≡ suc (length (xs ++ (q, w) ∷ []))
      → remove_tail l h ≡ ok ((w, record l { len = l.len - 1 }), curtailed h p xs q)
  unfolding remove_tail
  remove_tail-many l at_root many =
      let (u, r, last) = last_node _ (last_or p xs) p v xs q turned_back in
      let kept : with_next (with_prev h p (last_or p xs)) (last_or p xs) p q
          ≡ some (node w p (last_or p xs)) =
        with_next_ne _ (last_or p xs) p q (ne-last_or q p v xs apart)
        ∙ with_prev_ne h p (last_or p xs) q (λ e. ground (arith, apart))
        ∙ at_last in
      rw (
        ne→== l.len 0 (omega arith),
        ne→== l.len 1 (omega (arith, length-append xs ((q, w) ∷ []))),
        at_root,
        load-ok h p front.1,
        load-ok h q at_last,
        set_prev-ok h p front.1 (last_or p xs),
        set_next-ok _ (last_or p xs) last p,
        free-ok _ q kept,
      )

-- On a list with at least one node, `mboxListRemoveTail` returns the last datum, leaves the list
-- of the others, frees the last node, and writes to no other node than the list's.
pub remove_tail-IsList :
    (h : Heap) (l : MboxList) (xs : Cells) (q : Ptr) (w : ℕ)
    → IsList h l (xs ++ (q, w) ∷ [])
    → Runs (remove_tail l h) λ (val, m) g.
      (val ≡ w)
      × IsList g m xs
      × (g q ≡ none)
      × SameOutside (xs ++ (q, w) ∷ []) h g
      × SameHandle l m
remove_tail-IsList h l [] q w is =
    let (at_root, c) = is.ring in
    (
      _,
      _,
      remove_tail-one h l q w c at_root is.count,
      (
        refl,
        record { ring = refl; count = omega (arith, is.count) },
        write_self h q,
        λ a o. write_ne h q a (λ e. ground arith),
        (refl, refl),
      ),
    )
remove_tail-IsList h l ((p, v) ∷ xs) q w is =
    let (at_root, around) = is.ring in
    let c : Chain h q ((p, v) ∷ xs ++ (q, w) ∷ []) p =
      rw (last_or-append p xs ((q, w) ∷ [])) at around in
    (
      _,
      _,
      remove_tail-many h p q v w xs c l at_root is.count,
      (
        refl,
        record {
          ring = (at_root, curtailed-Chain h p q v w xs c);
          count = omega (arith, is.count, length-append xs ((q, w) ∷ []));
        },
        write_self _ q,
        curtailed-SameOutside h p q v w xs c,
        (refl, refl),
      ),
    )
