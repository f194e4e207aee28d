-- ===== src/MboxList/Heap/Access.antt =====
-- The commands on nodes at addresses that hold one.
use libmbox.Base.{ℕ, ◌≡◌, none, some}
use libmbox.Base.Outcome.{Outcome, ok}
use libmbox.MboxList.Heap.{
  Ptr, Node, Heap, write, with_next, with_prev, with_value, load, set_next, set_prev, set_value,
  free,
}

-- The command returns, and `P` holds of its result and of the heap that it leaves.
abbrev pub Runs : {A : Type 0} → Outcome (A × Heap) → (A → Heap → Type 0) → Type 0
Runs {A} r P = (a : A) × (g : Heap) × (r ≡ ok (a, g)) × P a g

module _ (h : Heap) (p : Ptr) {n : Node} (e : h p ≡ some n) where
  pub load-ok : load p h ≡ ok (n, h)
  unfolding load
  load-ok = rw (e, load)

  pub set_next-ok : (q : Ptr) → set_next p q h ≡ ok (tt, with_next h p q)
  unfolding set_next
  set_next-ok q = rw (e, set_next)

  pub set_prev-ok : (q : Ptr) → set_prev p q h ≡ ok (tt, with_prev h p q)
  unfolding set_prev
  set_prev-ok q = rw (e, set_prev)

  pub set_value-ok : (v : ℕ) → set_value p v h ≡ ok (tt, with_value h p v)
  unfolding set_value
  set_value-ok v = rw (e, set_value)

  pub free-ok : free p h ≡ ok (tt, write h p none)
  unfolding free
  free-ok = rw (e, free)
