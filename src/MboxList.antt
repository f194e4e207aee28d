-- ===== src/MboxList.antt =====
-- src/mbox-list.c: the doubly linked circular list, over an explicit heap of nodes.
-- `Heap` has the nodes and the commands on them; the functions of the file are here.
pub mod Heap
pub mod Rep
pub mod Add
pub mod Remove
pub mod Find
pub mod Append
pub mod Release
pub mod Locked
pub mod QSort
mod Tests
use libmbox.Base.{
  ℕ, zero, suc, ◌+◌, ◌-◌, Bool, true, false, ◌||◌, ◌&&◌, not, List, [], ◌∷◌, ◌++◌, ◌==◌,
  if◌then◌else◌,
}
use Heap.{
  Ptr, null, node, M, ◌>>=◌, ◌>>◌, pure, starve, block, new_node, load, set_next, set_prev, free,
}

-- `struct mboxList`. `locked` is the state of its mutex, `freedata` says whether the callback of
-- that name is set.
pub record MboxList : Type 0 where
  pub len : ℕ
  pub root : Ptr
  pub locked : Bool
  pub freedata : Bool

unfoldable pub list_new : MboxList
list_new = record { len = 0; root = null; locked = false; freedata = false }

-- The two functions that add take the address that `malloc` returns for the new node.
unfoldable pub add_head : Ptr → MboxList → ℕ → M MboxList
add_head n l v =
    if l.root == null
    then (do
      new_node n v
      set_prev n n
      set_next n n
      pure (record l { root = n; len = l.len + 1 }))
    else (do
      new_node n v
      head ← load l.root
      set_next n l.root
      set_prev n head.prev
      set_next head.prev n
      set_prev l.root n
      pure (record l { root = n; len = l.len + 1 }))

unfoldable pub add_tail : Ptr → MboxList → ℕ → M MboxList
add_tail n l v =
    if l.root == null
    then (do
      new_node n v
      set_prev n n
      set_next n n
      pure (record l { root = n; len = l.len + 1 }))
    else (do
      new_node n v
      head ← load l.root
      set_next n l.root
      set_prev n head.prev
      set_next head.prev n
      set_prev l.root n
      pure (record l { len = l.len + 1 }))

unfoldable pub remove_head : MboxList → M (ℕ × MboxList)
remove_head l = if (l.len == 0) || (l.root == null) then pure (null, l) else (do
  head ← load l.root
  if l.len == 1
      then (do free l.root; pure (head.value, record l { root = null; len = l.len - 1 }))
      else (do
        set_next head.prev head.next
        set_prev head.next head.prev
        free l.root
        pure (head.value, record l { root = head.next; len = l.len - 1 })))

unfoldable pub remove_tail : MboxList → M (ℕ × MboxList)
remove_tail l = if l.len == 0 then pure (null, l) else (do
  head ← load l.root
  tail ← load head.prev
  if l.len == 1
      then (do free head.prev; pure (tail.value, record l { root = null; len = l.len - 1 }))
      else (do
        set_prev l.root tail.prev
        set_next tail.prev l.root
        free head.prev
        pure (tail.value, record l { len = l.len - 1 })))

-- The do-while loop of `mboxListFind`, from `current` with `count` rounds left to make.
unfoldable pub find_loop : (ℕ → ℕ → Bool) → ℕ → Ptr → ℕ → M ℕ
find_loop compare search_data zero current = pure null
find_loop compare search_data (suc count) current = do
  n ← load current
  if compare n.value search_data then pure n.value else find_loop compare search_data count n.next

unfoldable pub find : MboxList → ℕ → (ℕ → ℕ → Bool) → M ℕ
unfolding find_loop
find l search_data compare =
    if l.len == 0 then pure null else find_loop compare search_data l.len l.root

-- `mboxListAppendListTail`: the result is `main`; `aux` is emptied and its struct freed.
unfoldable pub append_list_tail : MboxList → MboxList → M MboxList
append_list_tail main aux =
    if aux.len == 0
    then pure main
    else if main.len == 0
    then pure (record main { root = aux.root; len = main.len + aux.len })
    else (do
      head ← load main.root
      aux_head ← load aux.root
      set_prev aux.root head.prev
      set_next head.prev aux.root
      set_prev main.root aux_head.prev
      set_next aux_head.prev main.root
      pure (record main { len = main.len + aux.len }))

-- The loop of `mboxListRelease`; the list is the data that it hands to `freedata`, in order.
unfoldable pub release_loop : ℕ → MboxList → List ℕ → M (List ℕ)
release_loop zero l freed = starve
release_loop (suc fuel) l freed = if l.len == 0 then pure freed else (do
  (val, l') ← remove_head l
  release_loop fuel l' (if not (val == null) && l.freedata then freed ++ val ∷ [] else freed))

unfoldable pub release : MboxList → M (List ℕ)
unfolding release_loop
release l = release_loop (l.len + 1) l []

-- `pthread_mutex_lock`: a thread that meets its own lock waits for ever.
unfoldable pub lock : MboxList → M MboxList
lock l = if l.locked then block else pure (record l { locked = true })

unfoldable pub unlock : MboxList → M MboxList
unlock l = pure (record l { locked = false })

unfoldable pub ts_find : MboxList → ℕ → (ℕ → ℕ → Bool) → M (ℕ × MboxList)
ts_find l search_data compare = do
  l ← lock l
  retval ← find l search_data compare
  l ← unlock l
  pure (retval, l)

unfoldable pub ts_add_head : Ptr → MboxList → ℕ → M MboxList
ts_add_head n l v = do l ← lock l; l ← add_head n l v; unlock l

unfoldable pub ts_add_tail : Ptr → MboxList → ℕ → M MboxList
ts_add_tail n l v = do l ← lock l; l ← add_tail n l v; unlock l

unfoldable pub ts_remove_head : MboxList → M (ℕ × MboxList)
ts_remove_head l = do l ← lock l; (retval, l) ← remove_head l; l ← unlock l; pure (retval, l)

unfoldable pub ts_remove_tail : MboxList → M (ℕ × MboxList)
ts_remove_tail l = do l ← lock l; (retval, l) ← remove_tail l; l ← unlock l; pure (retval, l)
