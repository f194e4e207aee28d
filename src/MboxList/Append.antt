-- ===== src/MboxList/Append.antt =====
-- `mboxListAppendListTail` joins two rings in constant time.
use libmbox.Base.{
  ℕ, ◌+◌, ◌≡◌, refl, ◌≢◌, true, false, [], ◌∷◌, ◌++◌, arith, length-append, ne→==, ◌∙◌, append-nil,
}
use libmbox.Base.Outcome.{ok}
use libmbox.MboxList.{MboxList, append_list_tail}
use libmbox.MboxList.Heap.{Ptr, Heap, with_next, with_prev}
use libmbox.MboxList.Heap.Access.{Runs, load-ok, set_next-ok, set_prev-ok}
use libmbox.MboxList.Heap.Chain.{
  Cells, has, last_or, Chain, frame, Chain-append, Chain-with_next, Chain-with_prev, last_node,
  last_or-append, with_next_ne, with_prev_ne, ne-last_or, has-append, has-last_or,
}
use libmbox.MboxList.Rep.{IsList, SameOutside, SameHandle}

-- The heap after the ring of `q` and `ys` was linked in behind that of `p` and `xs`.
abbrev joined : Heap → Ptr → Cells → Ptr → Cells → Heap
joined h p xs q ys =
    with_next
      (with_prev (with_next (with_prev h q (last_or p xs)) (last_or p xs) q) p (last_or q ys))
      (last_or q ys) p

module _ (h : Heap) (p q v w : ℕ) (xs ys : Cells) (c : Chain h (last_or p xs) ((p, v) ∷ xs) p)
    (d : Chain h (last_or q ys) ((q, w) ∷ ys) q)
    (apart : (a : Ptr) → has a ((p, v) ∷ xs) ≡ true → has a ((q, w) ∷ ys) ≡ false) where
  ends_apart : (a : Ptr) → has a ((p, v) ∷ xs) ≡ true → (a ≢ q) × (a ≢ last_or q ys)
  ends_apart a i = (λ e. ground (arith, apart a i), ne-last_or a q w ys (apart a i))

  others_apart : (a : Ptr) → has a ((q, w) ∷ ys) ≡ true → (a ≢ p) × (a ≢ last_or p xs)
  others_apart a i = (
    λ e. ground (arith, apart p, e, i),
    λ e. cc (apart (last_or p xs) (has-last_or p v xs), e, i),
  )

  -- The first ring, through the four writes.
  front₁ : Chain (with_prev h q (last_or p xs)) (last_or p xs) ((p, v) ∷ xs) p
  front₁ = frame _ ((p, v) ∷ xs) p c (λ a i. with_prev_ne h q _ a (ends_apart a i).0)

  front₂ :
      Chain
        (with_next (with_prev h q (last_or p xs)) (last_or p xs) q)
        (last_or p xs)
        ((p, v) ∷ xs)
        q
  front₂ = Chain-with_next _ _ p v xs p q front₁

  front : Chain (joined h p xs q ys) (last_or q ys) ((p, v) ∷ xs) q
  front =
      frame _ ((p, v) ∷ xs) q (Chain-with_prev _ _ p v xs q (last_or q ys) front₂)
        (λ a i. with_next_ne _ _ p a (ends_apart a i).1)

  -- The second ring.
  back₁ : Chain (with_prev h q (last_or p xs)) (last_or p xs) ((q, w) ∷ ys) q
  back₁ = Chain-with_prev h _ q w ys q (last_or p xs) d

  back₃ :
      Chain
        (with_prev (with_next (with_prev h q (last_or p xs)) (last_or p xs) q) p (last_or q ys))
        (last_or p xs)
        ((q, w) ∷ ys)
        q
  back₃ =
      frame _ ((q, w) ∷ ys) q back₁ (λ a i.
        with_prev_ne _ p _ a (others_apart a i).0 ∙ with_next_ne _ _ q a (others_apart a i).1)

  back : Chain (joined h p xs q ys) (last_or p xs) ((q, w) ∷ ys) p
  back = Chain-with_next _ _ q w ys q p back₃

  joined-Chain : Chain (joined h p xs q ys) (last_or q ys) ((p, v) ∷ xs ++ (q, w) ∷ ys) p
  joined-Chain = Chain-append _ _ ((p, v) ∷ xs) ((q, w) ∷ ys) p front back apart

  joined-SameOutside : SameOutside ((p, v) ∷ xs ++ (q, w) ∷ ys) h (joined h p xs q ys)
  joined-SameOutside a o =
      let out_front : has a ((p, v) ∷ xs) ≡ false = ground (arith, has-append a xs ((q, w) ∷ ys)) in
      let out_back : has a ((q, w) ∷ ys) ≡ false = ground (arith, has-append a xs ((q, w) ∷ ys)) in
      with_next_ne _ _ p a (ne-last_or a q w ys out_back)
      ∙ with_prev_ne _ p _ a (λ e. ground (arith, out_front))
      ∙ with_next_ne _ _ q a (ne-last_or a p v xs out_front)
      ∙ with_prev_ne h q _ a (λ e. ground (arith, out_back))

  append-joined :
      (main aux : MboxList)
      → main.root ≡ p
      → aux.root ≡ q
      → main.len ≢ 0
      → aux.len ≢ 0
      → append_list_tail main aux h
        ≡ ok (record main { len = main.len + aux.len }, joined h p xs q ys)
  unfolding append_list_tail
  append-joined main aux at_main at_aux some_main some_aux = rw (
    ne→== aux.len 0 some_aux,
    ne→== main.len 0 some_main,
    at_main,
    at_aux,
    load-ok h p c.1,
    load-ok h q d.1,
    set_prev-ok h q d.1 (last_or p xs),
    set_next-ok _ (last_or p xs) (last_node _ _ p v xs p front₁).2 q,
    set_prev-ok _ p front₂.1 (last_or q ys),
    set_next-ok _ (last_or q ys) (last_node _ _ q w ys q back₃).2 p,
  )

-- On two lists that share no node, `mboxListAppendListTail` returns the list of the nodes of the
-- first followed by those of the second, and writes to no node outside the two.
pub append_list_tail-IsList :
    (h : Heap) (main aux : MboxList) (xs ys : Cells)
    → IsList h main xs
    → IsList h aux ys
    → ((a : Ptr) → has a xs ≡ true → has a ys ≡ false)
    → Runs
        (append_list_tail main aux h)
        λ m g. IsList g m (xs ++ ys) × SameOutside (xs ++ ys) h g × SameHandle main m
unfolding append_list_tail
append_list_tail-IsList h main aux xs [] is js apart =
    (main, h, rw js.count, (rw append-nil is, λ a o. refl, (refl, refl)))
append_list_tail-IsList h main aux [] ((q, w) ∷ ys) is js apart = (
  record main { root = aux.root; len = main.len + aux.len },
  h,
  rw (ne→== aux.len 0 (omega (arith, js.count)), is.count),
  (record { ring = js.ring; count = omega (arith, is.count, js.count) }, λ a o. refl, (refl, refl)),
)
append_list_tail-IsList h main aux ((p, v) ∷ xs) ((q, w) ∷ ys) is js apart =
    let (at_main, c) = is.ring in
    let (at_aux, d) = js.ring in
    let end : last_or p (xs ++ (q, w) ∷ ys) ≡ last_or q ys = last_or-append p xs ((q, w) ∷ ys) in
    (
      _,
      _,
      append-joined h p q v w xs ys c d apart main aux at_main at_aux (omega (arith, is.count))
          (omega (arith, js.count)),
      (
        record {
          ring = (at_main, rw end (joined-Chain h p q v w xs ys c d apart));
          count = omega (arith, length-append xs ((q, w) ∷ ys), is.count, js.count);
        },
        joined-SameOutside h p q v w xs ys c d apart,
        (refl, refl),
      ),
    )
