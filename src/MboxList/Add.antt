-- ===== src/MboxList/Add.antt =====
-- `mboxListAddHead` and `mboxListAddTail` put a node at the front and at the back.
use libmbox.Base.{
  ℕ, ◌+◌, ◌≡◌, refl, ◌≢◌, false, none, some, [], ◌∷◌, ◌++◌, arith, ◌==◌, length-append, ne→==, ◌∙◌,
}
use libmbox.Base.Outcome.{ok}
use libmbox.MboxList.{MboxList, add_head, add_tail}
use libmbox.MboxList.Heap.{Ptr, null, node, Heap, write, with_next, with_prev, new_node}
use libmbox.MboxList.Heap.Access.{Runs, load-ok, set_next-ok, set_prev-ok}
use libmbox.MboxList.Heap.Chain.{
  Cells, has, last_or, first_or, Chain, frame, Chain-append, Chain-relink, Chain-with_next,
  last_node, not-mem_of_none, last_or-append, with_next_ne, with_prev_ne, has-last_or,
}
use libmbox.MboxList.Rep.{IsList, SameOutside, SameHandle}

-- The heap in which the new node `n` stands between `prev` and `next`, not yet linked to.
abbrev placed : Heap → Ptr → ℕ → Ptr → Ptr → Heap
placed h n v next prev = with_prev (with_next (write h n (some (node v null null))) n next) n prev

module _ (h : Heap) (n : Ptr) (v : ℕ) (next prev : Ptr) where
  placed_self : placed h n v next prev n ≡ some (node v next prev)
  unfolding write with_next with_prev
  placed_self = ground arith

  placed_ne : (a : Ptr) → a ≢ n → placed h n v next prev a ≡ h a
  unfolding write with_next with_prev
  placed_ne a ne = ground arith

-- The heap after a node was added to the ring of `p` and `xs`.
abbrev linked : Heap → Ptr → ℕ → Ptr → Cells → Heap
linked h n v p xs = with_prev (with_next (placed h n v p (last_or p xs)) (last_or p xs) n) p n

module _ (h : Heap) (n : Ptr) (v p w : ℕ) (xs : Cells) (ne_null : n ≢ null) (unused : h n ≡ none)
    (c : Chain h (last_or p xs) ((p, w) ∷ xs) p) where
  out : has n ((p, w) ∷ xs) ≡ false
  out = not-mem_of_none h n (last_or p xs) ((p, w) ∷ xs) p c unused

  placed-Chain : Chain (placed h n v p (last_or p xs)) (last_or p xs) ((p, w) ∷ xs) p
  placed-Chain =
      frame (last_or p xs) ((p, w) ∷ xs) p c
        λ a i. placed_ne h n v p (last_or p xs) a (λ e. cc (e, i, out))

  linked-Chain : Chain (linked h n v p xs) n ((p, w) ∷ xs) n
  linked-Chain = Chain-relink _ (last_or p xs) p w xs p n n placed-Chain

  linked_self : linked h n v p xs n ≡ some (node v p (last_or p xs))
  linked_self =
      with_prev_ne _ p n n (λ e. ground (arith, out))
      ∙ with_next_ne _ (last_or p xs) n n (λ e. cc (has-last_or p w xs, out, e))
      ∙ placed_self h n v p (last_or p xs)

  linked-SameOutside : SameOutside ((n, v) ∷ (p, w) ∷ xs) h (linked h n v p xs)
  linked-SameOutside a o =
      with_prev_ne _ p n a (λ e. ground arith)
      ∙ with_next_ne _ (last_or p xs) n a (λ e. ground (arith, has-last_or p w xs))
      ∙ placed_ne h n v p (last_or p xs) a (λ e. ground arith)

-- The heap after a node was added to the empty list.
abbrev lone : Heap → Ptr → ℕ → Heap
lone h n v = with_next (with_prev (write h n (some (node v null null))) n n) n n

module _ (h : Heap) (l : MboxList) (n : Ptr) (v : ℕ) where
  lone_self : lone h n v n ≡ some (node v n n)
  unfolding write with_next with_prev
  lone_self = ground arith

  at_new : write h n (some (node v null null)) n ≡ some (node v null null)
  unfolding write
  at_new = ground arith

  at_prev : with_prev (write h n (some (node v null null))) n n n ≡ some (node v null n)
  unfolding write with_prev
  at_prev = ground arith

  lone-SameOutside : SameOutside ((n, v) ∷ []) h (lone h n v)
  unfolding write with_next with_prev
  lone-SameOutside a o = ground arith

  add_head-lone :
      l.root ≡ null → add_head n l v h ≡ ok (record l { root = n; len = l.len + 1 }, lone h n v)
  unfolding add_head new_node
  add_head-lone e = rw (e, set_prev-ok _ n at_new n, set_next-ok _ n at_prev n)

  add_tail-lone :
      l.root ≡ null → add_tail n l v h ≡ ok (record l { root = n; len = l.len + 1 }, lone h n v)
  unfolding add_tail new_node
  add_tail-lone e = rw (e, set_prev-ok _ n at_new n, set_next-ok _ n at_prev n)

  lone-IsList :
      n ≢ null
      → l.len ≡ 0
      → IsList (lone h n v) (record l { root = n; len = l.len + 1 }) ((n, v) ∷ [])
  lone-IsList ne e = record { ring = (refl, (ne, lone_self, refl, tt)); count = omega arith }

module _ (h : Heap) (l : MboxList) (n : Ptr) (v p w : ℕ) (xs : Cells) (ne_null : n ≢ null)
    (unused : h n ≡ none) (c : Chain h (last_or p xs) ((p, w) ∷ xs) p) (at_root : l.root ≡ p) where
  at_next : with_next (write h n (some (node v null null))) n p n ≡ some (node v p null)
  unfolding write with_next
  at_next = ground arith

  at_head : write h n (some (node v null null)) p ≡ some (node w (first_or p xs) (last_or p xs))
  unfolding write
  at_head = ground (arith, out h n v p w xs ne_null unused c)

  has_root : (p == null) ≡ false
  has_root = ne→== p null c.0

  tail_there :
      (u : ℕ) × (r : Ptr) × (placed h n v p (last_or p xs) (last_or p xs) ≡ some (node u p r))
  tail_there = last_node _ (last_or p xs) p w xs p (placed-Chain h n v p w xs ne_null unused c)

  turned :
      Chain
        (with_next (placed h n v p (last_or p xs)) (last_or p xs) n)
        (last_or p xs)
        ((p, w) ∷ xs)
        n
  turned = Chain-with_next _ (last_or p xs) p w xs p n (placed-Chain h n v p w xs ne_null unused c)

  add_tail-linked : add_tail n l v h ≡ ok (record l { len = l.len + 1 }, linked h n v p xs)
  unfolding add_tail new_node
  add_tail-linked = rw (
    at_root,
    has_root,
    load-ok _ p at_head,
    set_next-ok _ n (at_new h l n v) p,
    set_prev-ok _ n at_next (last_or p xs),
    set_next-ok _ (last_or p xs) tail_there.2 n,
    set_prev-ok _ p turned.1 n,
  )

  add_head-linked :
      add_head n l v h ≡ ok (record l { root = n; len = l.len + 1 }, linked h n v p xs)
  unfolding add_head new_node
  add_head-linked = rw (
    at_root,
    has_root,
    load-ok _ p at_head,
    set_next-ok _ n (at_new h l n v) p,
    set_prev-ok _ n at_next (last_or p xs),
    set_next-ok _ (last_or p xs) tail_there.2 n,
    set_prev-ok _ p turned.1 n,
  )

-- On a list and an unused address, `mboxListAddTail` returns, puts the datum behind the others in
-- a node at that address, and writes to no other node than the list's.
pub add_tail-IsList :
    (h : Heap) (l : MboxList) (xs : Cells) (n : Ptr) (v : ℕ)
    → IsList h l xs
    → n ≢ null
    → h n ≡ none
    → Runs
        (add_tail n l v h)
        λ m g. IsList g m (xs ++ (n, v) ∷ []) × SameOutside ((n, v) ∷ xs) h g × SameHandle l m
add_tail-IsList h l [] n v is ne unused = (
  _,
  _,
  add_tail-lone h l n v is.ring,
  (lone-IsList h l n v ne is.count, lone-SameOutside h l n v, (refl, refl)),
)
add_tail-IsList h l ((p, w) ∷ xs) n v is ne unused =
    let (at_root, c) = is.ring in
    let end : last_or p (xs ++ (n, v) ∷ []) ≡ n = last_or-append p xs ((n, v) ∷ []) in
    let new : Chain (linked h n v p xs) (last_or p xs) ((n, v) ∷ []) p =
      (ne, linked_self h n v p w xs ne unused c, refl, tt) in
    let absent = out h n v p w xs ne unused c in
    let joined =
      Chain-append _ n ((p, w) ∷ xs) ((n, v) ∷ []) p (linked-Chain h n v p w xs ne unused c) new
        (λ a i. ground arith) in
    (
      _,
      _,
      add_tail-linked h l n v p w xs ne unused c at_root,
      (
        record {
          ring = (at_root, rw end joined);
          count = omega (arith, length-append xs ((n, v) ∷ []), is.count);
        },
        linked-SameOutside h n v p w xs ne unused c,
        (refl, refl),
      ),
    )

-- On a list and an unused address, `mboxListAddHead` returns, puts the datum before the others in
-- a node at that address, and writes to no other node than the list's.
pub add_head-IsList :
    (h : Heap) (l : MboxList) (xs : Cells) (n : Ptr) (v : ℕ)
    → IsList h l xs
    → n ≢ null
    → h n ≡ none
    → Runs
        (add_head n l v h)
        λ m g. IsList g m ((n, v) ∷ xs) × SameOutside ((n, v) ∷ xs) h g × SameHandle l m
add_head-IsList h l [] n v is ne unused = (
  _,
  _,
  add_head-lone h l n v is.ring,
  (lone-IsList h l n v ne is.count, lone-SameOutside h l n v, (refl, refl)),
)
add_head-IsList h l ((p, w) ∷ xs) n v is ne unused =
    let (at_root, c) = is.ring in
    let absent = out h n v p w xs ne unused c in
    let new : Chain (linked h n v p xs) (last_or p xs) ((n, v) ∷ (p, w) ∷ xs) n =
      (ne, linked_self h n v p w xs ne unused c, absent, linked-Chain h n v p w xs ne unused c) in
    (
      _,
      _,
      add_head-linked h l n v p w xs ne unused c at_root,
      (
        record { ring = (refl, new); count = omega (arith, is.count) },
        linked-SameOutside h n v p w xs ne unused c,
        (refl, refl),
      ),
    )
