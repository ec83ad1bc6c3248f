-- ===== src/Metrics/Quantiles.antt =====
-- Quantiles of the latency samples: the sort is a sorted permutation, the rank is in range, and a
-- percentile is one of the samples.
use mathlib.Core.List.{Mem, Perm, mem-cons_self, mem-cons_of_mem}
use mathlib.Core.List.Perm
use supply_chain_mangement_s.Common.{
  ℕ, zero, suc, ◌*◌, ◌≤◌, ◌<◌, ◌≡◌, List, [], ◌∷◌, arith, inl, inr, Bool-cases, leb, length,
}
use supply_chain_mangement_s.Metrics.{Histogram, insert_sorted, sort, elem_at, rank, percentile}

insert_sorted-perm : (x : ℕ) (ys : List ℕ) → Perm (insert_sorted x ys) (x ∷ ys)
unfolding insert_sorted
insert_sorted-perm x [] = Perm.refl (x ∷ [])
insert_sorted-perm x (y ∷ ys) = elim (Bool-cases (leb x y)) [
  | inl le ↦ rw le (Perm.refl (x ∷ y ∷ ys))
  | inr gt ↦ rw gt (Perm.trans (Perm.cons y (insert_sorted-perm x ys)) (Perm.swap x y ys))
]

-- The sort loses and adds no sample.
pub sort-perm : (xs : List ℕ) → Perm (sort xs) xs
unfolding sort
sort-perm [] = Perm.refl []
sort-perm (x ∷ xs) = Perm.trans (insert_sorted-perm x (sort xs)) (Perm.cons x (sort-perm xs))

-- Every element is at most the next ones.
abbrev pub AllAbove : ℕ → List ℕ → Type 0
AllAbove x [] = Unit
AllAbove x (y ∷ ys) = (x ≤ y) × AllAbove x ys

abbrev pub IsSorted : List ℕ → Type 0
IsSorted [] = Unit
IsSorted (x ∷ xs) = AllAbove x xs × IsSorted xs

AllAbove-trans : (x y : ℕ) (ys : List ℕ) → x ≤ y → AllAbove y ys → AllAbove x ys
AllAbove-trans x y [] h a = tt
AllAbove-trans x y (z ∷ ys) h a = (omega arith, AllAbove-trans x y ys h a.1)

AllAbove-insert : (x y : ℕ) (ys : List ℕ) → x ≤ y → AllAbove x ys → AllAbove x (insert_sorted y ys)
unfolding insert_sorted
AllAbove-insert x y [] h a = (h, tt)
AllAbove-insert x y (z ∷ ys) h a = elim (Bool-cases (leb y z)) [
  | inl le ↦ rw le (h, a)
  | inr gt ↦ rw gt (a.0, AllAbove-insert x y ys h a.1)
]

insert_sorted-IsSorted : (x : ℕ) (ys : List ℕ) → IsSorted ys → IsSorted (insert_sorted x ys)
unfolding insert_sorted
insert_sorted-IsSorted x [] s = (tt, tt)
insert_sorted-IsSorted x (y ∷ ys) s = elim (Bool-cases (leb x y)) [
  | inl le ↦ rw le ((ground arith, AllAbove-trans x y ys (ground arith) s.0), s)
  | inr gt ↦ rw gt (AllAbove-insert y x ys (ground arith) s.0, insert_sorted-IsSorted x ys s.1)
]

pub sort-IsSorted : (xs : List ℕ) → IsSorted (sort xs)
unfolding sort
sort-IsSorted [] = tt
sort-IsSorted (x ∷ xs) = insert_sorted-IsSorted x (sort xs) (sort-IsSorted xs)

length-insert_sorted : (x : ℕ) (ys : List ℕ) → length (insert_sorted x ys) ≡ suc (length ys)
unfolding insert_sorted
length-insert_sorted x [] = omega arith
length-insert_sorted x (y ∷ ys) = ground (arith, length-insert_sorted x ys)

pub length-sort : (xs : List ℕ) → length (sort xs) ≡ length xs
unfolding sort
length-sort [] = omega arith
length-sort (x ∷ xs) = omega (arith, length-insert_sorted x (sort xs), length-sort xs)

rank-lt : (p n : ℕ) → 0 < n → rank p n < n
unfolding rank
rank-lt p n h = ground arith

mem-elem_at : (xs : List ℕ) (i : ℕ) → i < length xs → Mem (elem_at xs i) xs
unfolding elem_at
mem-elem_at [] i h = absurd (omega arith)
mem-elem_at (x ∷ xs) zero h = mem-cons_self
mem-elem_at (x ∷ xs) (suc i) h = mem-cons_of_mem x (mem-elem_at xs i (omega arith))

-- A percentile of a non-empty histogram, at any quantile, is one of its samples.
pub percentile-mem : (p x : ℕ) (xs : List ℕ) → Mem (percentile p (x ∷ xs)) (x ∷ xs)
unfolding percentile
percentile-mem p x xs = (Perm.mem_iff (sort-perm (x ∷ xs))).0 (
    mem-elem_at (sort (x ∷ xs)) _
      (rank-lt p (length (sort (x ∷ xs))) (omega (arith, length-sort (x ∷ xs)))))

elem_at_mono :
    (xs : List ℕ) (i j : ℕ) → IsSorted xs → i ≤ j → j < length xs → elem_at xs i ≤ elem_at xs j
unfolding elem_at
elem_at_mono [] i j s h k = absurd (omega arith)
elem_at_mono (x ∷ xs) zero zero s h k = omega arith
elem_at_mono (x ∷ xs) zero (suc j) s h k = above x xs j s.0 (omega arith)
  where
    above : (y : ℕ) (ys : List ℕ) (n : ℕ) → AllAbove y ys → n < length ys → y ≤ elem_at ys n
    above y [] n a lt = absurd (omega arith)
    above y (z ∷ ys) zero a lt = a.0
    above y (z ∷ ys) (suc n) a lt = above y ys n a.1 (omega arith)
elem_at_mono (x ∷ xs) (suc i) zero s h k = absurd (omega arith)
elem_at_mono (x ∷ xs) (suc i) (suc j) s h k = elem_at_mono xs i j s.1 (omega arith) (omega arith)

rank_mono : (p q n : ℕ) → p ≤ q → rank p n ≤ rank q n
unfolding rank
rank_mono p q n h = let scaled : n * p ≤ n * q = grind arith in ground arith

-- A higher quantile never has a lower percentile.
pub percentile_mono :
    (p q : ℕ) (samples : Histogram) → p ≤ q → percentile p samples ≤ percentile q samples
unfolding percentile
percentile_mono p q [] h = omega arith
percentile_mono p q (x ∷ xs) h =
    elem_at_mono (sort (x ∷ xs)) _ _ (sort-IsSorted (x ∷ xs))
      (rank_mono p q (length (sort (x ∷ xs))) h)
      (rank-lt q (length (sort (x ∷ xs))) (omega (arith, length-sort (x ∷ xs))))
