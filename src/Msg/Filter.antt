-- ===== src/Msg/Filter.antt =====
-- `mboxMsgListFilterBySender`: the messages kept, the last one first, in a list of new nodes.
use libmbox.Base.{
  ℕ, suc, ◌+◌, ◌<◌, ◌≡◌, ◌≢◌, refl, sym, ap, ◌∙◌, ◌⊎◌, Bool, true, false, Bool-cases, inl, inr,
  arith, List, [], ◌∷◌, none, some, ◌==◌, ne→==, if◌then◌else◌, length,
}
use libmbox.Base.Outcome.{Outcome, ok}
use libmbox.Buf.Kmp.{compute_prefix_table}
use libmbox.Buf.Memory.{Allocator}
use libmbox.MboxList.{MboxList, list_new, add_head}
use libmbox.MboxList.Add.{add_head-IsList}
use libmbox.MboxList.Heap.{Ptr, null, node, Heap}
use libmbox.MboxList.Heap.Access.{Runs, load-ok}
use libmbox.MboxList.Heap.Chain.{Cells, has, first_or, last_or, Chain, frame, not-mem_of_none}
use libmbox.MboxList.Rep.{IsList, contents}
use libmbox.Msg.{MboxMsgLite, sent_by, filter_loop, strlen, filter_by_sender}

abbrev pub filter : (ℕ → Bool) → List ℕ → List ℕ
filter test [] = []
filter test (v ∷ vs) = if test v then v ∷ filter test vs else filter test vs

-- The first list from its last to its first, in front of the second.
abbrev pub reverse_onto : List ℕ → List ℕ → List ℕ
reverse_onto [] acc = acc
reverse_onto (v ∷ vs) acc = reverse_onto vs (v ∷ acc)

-- The addresses that `malloc` returns are distinct, none is `NULL`, and the heap has no node there.
pub record IsFresh (h : Heap) (fresh : ℕ → Ptr) : Type 0 where
  pub solid : (k : ℕ) → fresh k ≢ null
  pub distinct : (j k : ℕ) → j ≢ k → fresh j ≢ fresh k
  pub unused : (k : ℕ) → h (fresh k) ≡ none

-- Between two rounds: the list of the messages kept, beside the list that is read, which is as before.
record Kept (h : Heap) (src : Cells) (fresh : ℕ → Ptr) (count : ℕ) (f : MboxList) (ys : Cells)
    (g : Heap) : Type 0 where
  pub list : IsList g f ys
  pub same : (a : Ptr) → has a src ≡ true → g a ≡ h a
  pub apart : (a : Ptr) → has a src ≡ true → has a ys ≡ false
  pub free : (k : ℕ) → k < count → g (fresh k) ≡ none

not_in_list :
    (g : Heap) (f : MboxList) (ys : Cells) (a : Ptr) → IsList g f ys → g a ≡ none → has a ys ≡ false
not_in_list g f [] a is unused = refl
not_in_list g f ((p, v) ∷ ys) a is unused = not-mem_of_none g a _ ((p, v) ∷ ys) p is.ring.1 unused

true_ne : true ≡ false → ⊥
true_ne e = cc

module _ (h : Heap) (src : Cells) (fresh : ℕ → Ptr) (new : IsFresh h fresh)
    (outside : (k : ℕ) → has (fresh k) src ≡ false) where
  not_new : (k : ℕ) (a : Ptr) → has a src ≡ true → (a == fresh k) ≡ false
  not_new k a in_src =
      ne→== a (fresh k) (λ e. absurd (true_ne (sym in_src ∙ ap (λ b. has b src) e ∙ outside k)))

  add_Kept :
      (count : ℕ) (f : MboxList) (ys : Cells) (g : Heap) (v : ℕ)
      → Kept h src fresh (suc count) f ys g
      → Runs
          (add_head (fresh count) f v g)
          (λ m g'. Kept h src fresh count m ((fresh count, v) ∷ ys) g')
  add_Kept count f ys g v k =
      let (m, g', run, (is, out, _)) =
        add_head-IsList g f ys (fresh count) v k.list (new.solid count)
          (k.free count (omega arith)) in
      let clear : (a : Ptr) → has a src ≡ true → has a ((fresh count, v) ∷ ys) ≡ false =
        λ a in_src. rw (not_new count a in_src) (k.apart a in_src) in
      (
        m,
        g',
        run,
        record {
          list = is;
          same = λ a in_src. out a (clear a in_src) ∙ k.same a in_src;
          apart = clear;
          free = λ j lt.
              let other : (fresh j == fresh count) ≡ false =
                ne→== (fresh j) (fresh count) (new.distinct j count (λ e. absurd (omega arith))) in
              let absent = not_in_list g f ys (fresh j) k.list (k.free j (omega arith)) in
              out (fresh j) (rw other absent) ∙ k.free j (omega arith);
        },
      )

  skip_Kept :
      (count : ℕ) (f : MboxList) (ys : Cells) (g : Heap)
      → Kept h src fresh (suc count) f ys g
      → Kept h src fresh count f ys g
  skip_Kept count f ys g k = record {
    list = k.list;
    same = k.same;
    apart = k.apart;
    free = λ j lt. k.free j (omega arith);
  }

  -- What the loop gives.
  abbrev Filtered : (ℕ → Bool) → List ℕ → Cells → MboxList → Heap → Type 0
  Filtered test vs ys f g =
      (zs : Cells) × IsList g f zs
      × (contents zs ≡ reverse_onto (filter test vs) (contents ys))
      × ((a : Ptr) → has a src ≡ true → g a ≡ h a)

  -- One round, where the node and the next one stand in the list that is read.
  round :
      (search : ℕ → Outcome Bool) (test : ℕ → Bool) (count : ℕ) (p v next prev w next' prev' : ℕ)
      (ws : List ℕ) (f : MboxList) (ys : Cells) (g : Heap)
      → ((u : ℕ) → search u ≡ ok (test u))
      → h p ≡ some (node v next prev)
      → has p src ≡ true
      → h next ≡ some (node w next' prev')
      → has next src ≡ true
      → Kept h src fresh (suc count) f ys g
      → ((m : MboxList) (zs : Cells) (g₁ : Heap)
          → Kept h src fresh count m zs g₁
          → Runs (filter_loop search fresh count next w m g₁) (Filtered test ws zs))
      → Runs (filter_loop search fresh (suc count) p v f g) (Filtered test (v ∷ ws) ys)
  unfolding filter_loop
  round search test count p v next prev w next' prev' ws f ys g all at_p in_p at_next in_next k
        later =
      elim (Bool-cases (test v)) [
        | inl yes_kept ↦
            let (m, g₁, run, k₁) = add_Kept count f ys g v k in
            let (a, g₂, run', (zs, is, same_data, same)) = later m ((fresh count, v) ∷ ys) g₁ k₁ in
            (
              a,
              g₂,
              rw
                  (
                    all v,
                    yes_kept,
                    run,
                    load-ok g₁ p (k₁.same p in_p ∙ at_p),
                    load-ok g₁ next (k₁.same next in_next ∙ at_next),
                  )
                  run',
              (zs, is, rw yes_kept same_data, same),
            )
        | inr dropped ↦
            let k₁ = skip_Kept count f ys g k in
            let (a, g₂, run', (zs, is, same_data, same)) = later f ys g k₁ in
            (
              a,
              g₂,
              rw
                  (
                    all v,
                    dropped,
                    load-ok g p (k₁.same p in_p ∙ at_p),
                    load-ok g next (k₁.same next in_next ∙ at_next),
                  )
                  run',
              (zs, is, rw dropped same_data, same),
            )
      ]

  filter_loop_lem :
      (search : ℕ → Outcome Bool) (test : ℕ → Bool) (r v₀ next₀ prev₀ : ℕ) (xs : Cells)
      (prev p v : ℕ) (f : MboxList) (ys : Cells) (g : Heap)
      → ((u : ℕ) → search u ≡ ok (test u))
      → h r ≡ some (node v₀ next₀ prev₀)
      → has r src ≡ true
      → Chain h prev ((p, v) ∷ xs) r
      → ((a : Ptr) → has a ((p, v) ∷ xs) ≡ true → has a src ≡ true)
      → Kept h src fresh (suc (length xs)) f ys g
      → Runs
          (filter_loop search fresh (suc (length xs)) p v f g)
          (Filtered test (v ∷ contents xs) ys)
  unfolding filter_loop
  filter_loop_lem search test r v₀ next₀ prev₀ [] prev p v f ys g all at_r in_r (_, at_p, _, _)
        inside k =
      round search test 0 p v r prev v₀ next₀ prev₀ [] f ys g all at_p (inside p (ground arith))
        at_r in_r k (λ m zs g₁ k₁. (m, g₁, refl, (zs, k₁.list, refl, k₁.same)))
  filter_loop_lem search test r v₀ next₀ prev₀ ((q, w) ∷ xs) prev p v f ys g all at_r in_r
        (_, at_p, _, c) inside k =
      round search test (suc (length xs)) p v q prev w _ _ (w ∷ contents xs) f ys g all at_p
        (inside p (ground arith)) c.1 (inside q (ground arith)) k
        (λ m zs g₁ k₁.
          filter_loop_lem search test r v₀ next₀ prev₀ xs p q w m zs g₁ all at_r in_r c
            (λ a here. inside a (ground (arith, here))) k₁)

-- On a list that is not empty, with fresh addresses for the nodes, and a text that has a length and a
-- prefix table and for which the search in the sender of each message returns,
-- `mboxMsgListFilterBySender` returns a new list of the messages in whose sender the search finds the
-- text, from the last one to the first; the list that it reads is as before. For an empty list it
-- returns `NULL`.
pub filter_by_sender-filter :
    (m : Allocator) (store : ℕ → MboxMsgLite) (h : Heap) (fresh : ℕ → Ptr) (l : MboxList)
    (xs : Cells) (sender table : List ℕ) (len : ℕ) (test : ℕ → Bool)
    → IsList h l xs
    → IsFresh h fresh
    → strlen (length sender + 1) sender 0 ≡ ok len
    → compute_prefix_table m sender len ≡ ok table
    → ((v : ℕ) → sent_by table sender len (store v).from ≡ ok (test v))
    → Runs (filter_by_sender m store fresh l sender h) (λ o g.
      ((xs ≡ []) × (o ≡ none) × (g ≡ h))
      ⊎ ((f : MboxList) × (zs : Cells) × (o ≡ some f)
          × IsList g f zs
          × (contents zs ≡ reverse_onto (filter test (contents xs)) [])
          × IsList g l xs))
unfolding filter_by_sender list_new
filter_by_sender-filter m store h fresh l [] sender table len test is new length_run table_run
      search =
    (none, h, rw is.count refl, inl (refl, refl, refl))
filter_by_sender-filter m store h fresh l ((p, v) ∷ xs) sender table len test is new length_run
      table_run search =
    let (at_root, c) = is.ring in
    let src : Cells = (p, v) ∷ xs in
    let outside : (k : ℕ) → has (fresh k) src ≡ false =
      λ k. not-mem_of_none h (fresh k) (last_or p xs) src p c (new.unused k) in
    let start : Kept h src fresh (suc (length xs)) list_new [] h = record {
      list = record { ring = refl; count = refl };
      same = λ a here. refl;
      apart = λ a here. refl;
      free = λ k lt. new.unused k;
    } in
    let (f, g, run, (zs, kept, same_data, same)) =
      filter_loop_lem h src fresh new outside (λ u. sent_by table sender len (store u).from) test p
        v (first_or p xs) (last_or p xs) xs (last_or p xs) p v list_new [] h search c.1
        (ground arith) c (λ a here. here) start in
    (
      some f,
      g,
      rw
          (
            ne→== l.len 0 (omega (arith, is.count)),
            at_root,
            load-ok h p c.1,
            length_run,
            table_run,
            is.count,
            run,
          )
          refl,
      inr (
        f,
        zs,
        refl,
        kept,
        same_data,
        record { ring = (at_root, frame (last_or p xs) src p c same); count = is.count },
      ),
    )
