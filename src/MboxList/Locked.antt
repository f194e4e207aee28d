-- ===== src/MboxList/Locked.antt =====
-- The functions named TS: each is the plain one between `pthread_mutex_lock` and `unlock`.
use libmbox.Base.{ℕ, ◌≡◌, refl, ◌≢◌, Bool, true, false, none, [], ◌∷◌, ◌++◌}
use libmbox.Base.Outcome.{blocked}
use libmbox.MboxList.{
  MboxList, lock, unlock, ts_find, ts_add_head, ts_add_tail, ts_remove_head, ts_remove_tail,
}
use libmbox.MboxList.Heap.{Ptr, null, Heap}
use libmbox.MboxList.Heap.Access.{Runs}
use libmbox.MboxList.Heap.Chain.{Cells}
use libmbox.MboxList.Rep.{IsList, SameOutside}
use libmbox.MboxList.Add.{add_tail-IsList}
use libmbox.MboxList.Remove.{remove_head-IsList}

-- The list while a thread holds its mutex.
abbrev held : MboxList → MboxList
held l = record l { locked = true }

held-IsList : {h : Heap} {l : MboxList} {xs : Cells} → IsList h l xs → IsList h (held l) xs
held-IsList is = record { ring = is.ring; count = is.count }

module _ (h : Heap) (l : MboxList) (free_lock : l.locked ≡ false) where
  -- On an unlocked list, the thread-safe addition at the tail does what the plain one does and
  -- gives the lock back.
  pub ts_add_tail-IsList :
      (xs : Cells) (n : Ptr) (v : ℕ)
      → IsList h l xs
      → n ≢ null
      → h n ≡ none
      → Runs
          (ts_add_tail n l v h)
          λ m g. IsList g m (xs ++ (n, v) ∷ []) × SameOutside ((n, v) ∷ xs) h g × (m.locked ≡ false)
  unfolding ts_add_tail lock unlock
  ts_add_tail-IsList xs n v is ne unused =
      let (m, g, run, (after, same, _)) =
        add_tail-IsList h (held l) xs n v (held-IsList is) ne unused in
      (
        record m { locked = false },
        g,
        rw (free_lock, run),
        (record { ring = after.ring; count = after.count }, same, refl),
      )

  -- On an unlocked list that is not empty, the thread-safe removal at the head does what the plain
  -- one does and gives the lock back.
  pub ts_remove_head-IsList :
      (p : Ptr) (v : ℕ) (xs : Cells)
      → IsList h l ((p, v) ∷ xs)
      → Runs (ts_remove_head l h) λ (val, m) g.
        (val ≡ v)
        × IsList g m xs
        × (g p ≡ none)
        × SameOutside ((p, v) ∷ xs) h g
        × (m.locked ≡ false)
  unfolding ts_remove_head lock unlock
  ts_remove_head-IsList p v xs is =
      let ((val, m), g, run, (got, after, gone, same, _)) =
        remove_head-IsList h (held l) p v xs (held-IsList is) in
      (
        (val, record m { locked = false }),
        g,
        rw (free_lock, run),
        (got, record { ring = after.ring; count = after.count }, gone, same, refl),
      )

-- On a list whose lock is held and not given back, each of the five thread-safe functions waits
-- for ever.
pub ts-blocked :
    (h : Heap) (l : MboxList) (n s v : ℕ) (compare : ℕ → ℕ → Bool)
    → l.locked ≡ true
    → (ts_find l s compare h ≡ blocked)
      × (ts_add_head n l v h ≡ blocked)
      × (ts_add_tail n l v h ≡ blocked)
      × (ts_remove_head l h ≡ blocked)
      × (ts_remove_tail l h ≡ blocked)
unfolding ts_find ts_add_head ts_add_tail ts_remove_head ts_remove_tail lock
ts-blocked h l n s v compare e = (rw e, rw e, rw e, rw e, rw e)
