-- ===== src/Limit/Counts.antt =====
-- How often a number stands in a list, under what the table of meters does to its lists.
use phorklift.Prelude.{ℕ, suc, ◌+◌, ◌≡◌, refl, List, [], ◌∷◌, ◌++◌, ◌==◌, if◌then◌else◌, arith}
use phorklift.Limit.{delete}

pub count : ℕ → List ℕ → ℕ
count n [] = 0
count n (m ∷ ms) = let rest = count n ms in if m == n then suc rest else rest

pub count_nil : (n : ℕ) → count n [] ≡ 0
unfolding count
count_nil n = refl

pub count-cons :
    (n m : ℕ) (l : List ℕ) → count n (m ∷ l) ≡ (if m == n then suc (count n l) else count n l)
unfolding count
count-cons n m l = refl

pub count-append : (n : ℕ) (k l : List ℕ) → count n (k ++ l) ≡ count n k + count n l
unfolding count
count-append n [] l = omega arith
count-append n (m ∷ k) l = ground (arith, count-append n k l)

pub count-delete : (n m : ℕ) (l : List ℕ) → count n (delete m l) ≡ (if m == n then 0 else count n l)
unfolding count delete
count-delete n m [] = ground arith
count-delete n m (k ∷ l) = ground (arith, count-delete n m l)
