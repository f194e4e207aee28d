-- ===== src/MboxList/Find.antt =====
-- `mboxListFind`: a search through the ring that goes round once.
use libmbox.Base.{
  ℕ, ◌≡◌, refl, Bool, ◌∷◌, [], List, inl, inr, Bool-cases, if◌then◌else◌, length, ne→==, arith,
}
use libmbox.Base.Outcome.{ok}
use libmbox.MboxList.{MboxList, find_loop, find}
use libmbox.MboxList.Heap.{Ptr, null, Heap}
use libmbox.MboxList.Heap.Access.{load-ok}
use libmbox.MboxList.Heap.Chain.{Cells, Chain}
use libmbox.MboxList.Rep.{IsList, contents}

-- The first datum that passes the test, or `NULL`.
unfoldable pub first_such : (ℕ → Bool) → List ℕ → ℕ
first_such test [] = null
first_such test (v ∷ vs) = if test v then v else first_such test vs

find_loop-Chain :
    (h : Heap) (compare : ℕ → ℕ → Bool) (s prev p : ℕ) (v : ℕ) (xs : Cells) (next : Ptr)
    → Chain h prev ((p, v) ∷ xs) next
    → find_loop compare s (length ((p, v) ∷ xs)) p h
      ≡ ok (first_such (λ d. compare d s) (contents ((p, v) ∷ xs)), h)
unfolding find_loop first_such
find_loop-Chain h compare s prev p v [] next c =
    rw (load-ok h p c.1) (elim (Bool-cases (compare v s)) [ inl e ↦ rw e | inr e ↦ rw e ])
find_loop-Chain h compare s prev p v ((q, w) ∷ xs) next c =
    rw (load-ok h p c.1) (elim (Bool-cases (compare v s)) [
      | inl e ↦ rw e
      | inr e ↦ rw e (find_loop-Chain h compare s p q w xs next c.3)
    ])

-- On any list, `mboxListFind` returns the first datum that the callback accepts, or `NULL` if it
-- accepts none, and leaves the heap as it is.
pub find-first_such :
    (h : Heap) (l : MboxList) (xs : Cells) (s : ℕ) (compare : ℕ → ℕ → Bool)
    → IsList h l xs
    → find l s compare h ≡ ok (first_such (λ d. compare d s) (contents xs), h)
unfolding find
find-first_such h l [] s compare is = rw is.count (unfold first_such in refl)
find-first_such h l ((p, v) ∷ xs) s compare is =
    rw (ne→== l.len 0 (omega (arith, is.count)), is.ring.0, is.count)
      (find_loop-Chain h compare s _ p v xs p is.ring.1)
