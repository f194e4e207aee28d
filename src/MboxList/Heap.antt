-- ===== src/MboxList/Heap.antt =====
-- The nodes of src/mbox-list.c at their addresses, and the commands that read and write them.
pub mod Access
pub mod Chain
use libmbox.Base.{ℕ, Bool, Option, none, some, ◌==◌, if◌then◌else◌}
use mathlib.Core.Option
use libmbox.Base.Outcome
use libmbox.Base.Outcome.{Outcome, ok, fault, out_of_fuel, blocked}

abbrev pub Ptr : Type 0
Ptr = ℕ

abbrev pub null : Ptr
null = 0

-- `struct mboxLNode`; the `void *data` is an address.
pub record Node : Type 0 where
  pub value : ℕ
  pub next : Ptr
  pub prev : Ptr

abbrev pub node : ℕ → Ptr → Ptr → Node
node v n p = record { value = v; next = n; prev = p }

abbrev pub Heap : Type 0
Heap = Ptr → Option Node

abbrev pub M : Type 0 → Type 0
M A = Heap → Outcome (A × Heap)

infixl 5 ◌>>=◌ ◌>>◌
abbrev pub ◌>>=◌ : {A B : Type 0} → M A → (A → M B) → M B
◌>>=◌ m k h = Outcome.◌>>=◌ (m h) (λ (a, g). k a g)

abbrev pub ◌>>◌ : {A B : Type 0} → M A → M B → M B
◌>>◌ m n h = Outcome.◌>>=◌ (m h) (λ (_, g). n g)

abbrev pub pure : {A : Type 0} → A → M A
pure a h = ok (a, h)

abbrev pub starve : {A : Type 0} → M A
starve h = out_of_fuel

abbrev pub block : {A : Type 0} → M A
block h = blocked

unfoldable pub write : Heap → Ptr → Option Node → Heap
write h p c a = if a == p then c else h a

-- The heap with one field of the node at `p` written, if there is a node.
unfoldable pub with_next : Heap → Ptr → Ptr → Heap
with_next h p q a = if a == p then Option.map (λ (n : Node). record n { next = q }) (h a) else h a

unfoldable pub with_prev : Heap → Ptr → Ptr → Heap
with_prev h p q a = if a == p then Option.map (λ (n : Node). record n { prev = q }) (h a) else h a

unfoldable pub with_value : Heap → Ptr → ℕ → Heap
with_value h p v a = if a == p then Option.map (λ (n : Node). record n { value = v }) (h a) else h a

-- `mboxLNodeNew`, `malloc` having returned `p`.
unfoldable pub new_node : Ptr → ℕ → M (Unit {0})
new_node p v h = ok (tt, write h p (some (node v null null)))

-- `*p`, which is undefined at an address that holds no node.
unfoldable pub load : Ptr → M Node
load p h = elim (h p) [ none ↦ fault | some n ↦ ok (n, h) ]

-- `p->next = q`
unfoldable pub set_next : Ptr → Ptr → M (Unit {0})
set_next p q h = elim (h p) [ none ↦ fault | some n ↦ ok (tt, with_next h p q) ]

-- `p->prev = q`
unfoldable pub set_prev : Ptr → Ptr → M (Unit {0})
set_prev p q h = elim (h p) [ none ↦ fault | some n ↦ ok (tt, with_prev h p q) ]

-- `p->data = v`
unfoldable pub set_value : Ptr → ℕ → M (Unit {0})
set_value p v h = elim (h p) [ none ↦ fault | some n ↦ ok (tt, with_value h p v) ]

unfoldable pub free : Ptr → M (Unit {0})
free p h = elim (h p) [ none ↦ fault | some n ↦ ok (tt, write h p none) ]
