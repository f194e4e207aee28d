-- ===== src/MboxList/QSort/Order.antt =====
-- Lists of data that hold the same data as often, and lists in order.
use libmbox.Base.{
  ℕ, ◌+◌, ◌≡◌, ◌<◌, Bool, true, false, List, [], ◌∷◌, ◌++◌, arith, ◌==◌, if◌then◌else◌,
}

pub count : ℕ → List ℕ → ℕ
count a [] = 0
count a (x ∷ xs) = (if a == x then 1 else 0) + count a xs

-- The same data, each as often.
abbrev pub SameData : List ℕ → List ℕ → Type 0
SameData xs ys = (a : ℕ) → count a xs ≡ count a ys

abbrev pub All : (ℕ → Bool) → List ℕ → Type 0
All P [] = Unit {0}
All P (x ∷ xs) = (P x ≡ true) × All P xs

-- Each datum stands before no smaller one.
abbrev pub IsSorted : (ℕ → ℕ → Bool) → List ℕ → Type 0
IsSorted compare [] = Unit {0}
IsSorted compare (x ∷ xs) = All (compare x) xs × IsSorted compare xs

-- What quicksort needs of the callback.
pub record IsOrder (compare : ℕ → ℕ → Bool) : Type 0 where
  pub total : (a b : ℕ) → compare a b ≡ false → compare b a ≡ true
  pub transitive : (a b c : ℕ) → compare a b ≡ true → compare b c ≡ true → compare a c ≡ true

pub count-append : (a : ℕ) (xs ys : List ℕ) → count a (xs ++ ys) ≡ count a xs + count a ys
unfolding count
count-append a [] ys = omega arith
count-append a (x ∷ xs) ys = omega (arith, count-append a xs ys)

pub SameData-append :
    (xs xs' ys ys' : List ℕ) → SameData xs xs' → SameData ys ys' → SameData (xs ++ ys) (xs' ++ ys')
SameData-append xs xs' ys ys' e f a =
    omega (arith, count-append a xs ys, count-append a xs' ys', e a, f a)

pub SameData-cons : (x : ℕ) (xs ys : List ℕ) → SameData xs ys → SameData (x ∷ xs) (x ∷ ys)
unfolding count
SameData-cons x xs ys e a = omega (arith, e a)

-- Two data exchanged.
pub SameData-swap :
    (xs ys zs : List ℕ) (a b : ℕ) → SameData (xs ++ (a ∷ ys ++ b ∷ zs)) (xs ++ (b ∷ ys ++ a ∷ zs))
unfolding count
SameData-swap xs ys zs a b c = omega (
  arith,
  count-append c xs (a ∷ ys ++ b ∷ zs),
  count-append c xs (b ∷ ys ++ a ∷ zs),
  count-append c ys (b ∷ zs),
  count-append c ys (a ∷ zs),
)

All-count : (P : ℕ → Bool) (xs : List ℕ) (a : ℕ) → All P xs → 0 < count a xs → P a ≡ true
unfolding count
All-count P [] a all pos = absurd (omega arith)
All-count P (x ∷ xs) a (p, all) pos = ground (arith, All-count P xs a all)

All-of_count : (P : ℕ → Bool) (xs : List ℕ) → ((a : ℕ) → 0 < count a xs → P a ≡ true) → All P xs
unfolding count
All-of_count P [] every = tt
All-of_count P (x ∷ xs) every =
    (every x (ground arith), All-of_count P xs (λ a pos. every a (ground arith)))

-- What holds of all data holds of them in any order.
pub All-SameData : (P : ℕ → Bool) (xs ys : List ℕ) → SameData xs ys → All P xs → All P ys
All-SameData P xs ys e all = All-of_count P ys (λ a pos. All-count P xs a all (omega (arith, e a)))

pub All-append : (P : ℕ → Bool) (xs ys : List ℕ) → All P xs → All P ys → All P (xs ++ ys)
All-append P [] ys all more = more
All-append P (x ∷ xs) ys (p, all) more = (p, All-append P xs ys all more)

pub All-mono :
    (P Q : ℕ → Bool) (xs : List ℕ) → ((a : ℕ) → P a ≡ true → Q a ≡ true) → All P xs → All Q xs
All-mono P Q [] weaken all = tt
All-mono P Q (x ∷ xs) weaken (p, all) = (weaken x p, All-mono P Q xs weaken all)

-- Two sorted parts round a pivot that lies between them.
pub IsSorted-append :
    (compare : ℕ → ℕ → Bool)
    → IsOrder compare
    → (xs ys : List ℕ) (pivot : ℕ) → IsSorted compare xs
    → IsSorted compare ys
    → All (λ a. compare a pivot) xs
    → All (compare pivot) ys
    → IsSorted compare (xs ++ pivot ∷ ys)
IsSorted-append compare o [] ys pivot s t below above = (above, t)
IsSorted-append compare o (x ∷ xs) ys pivot (first, s) t (le, below) above = (
  All-append (compare x) xs (pivot ∷ ys) first
      (le, All-mono (compare pivot) (compare x) ys (λ a. o.transitive x pivot a le) above),
  IsSorted-append compare o xs ys pivot s t below above,
)
