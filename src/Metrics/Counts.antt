-- ===== src/Metrics/Counts.antt =====
-- Counters: what one `inc` does to the total and to a breakdown by label.
use supply_chain_mangement_s.Common.{
  ℕ, ◌+◌, ◌≡◌, refl, String, Option, none, some, [], ◌∷◌, true, inl, inr, arith, ◌==◌, eq_iff,
  Option-cases, if◌then◌else◌,
}
use supply_chain_mangement_s.Dict.{Dict, lookup, lookup-insert}
use supply_chain_mangement_s.Metrics.{
  Labels, same_labels, Counter, inc, total, add_at, by_label_from, by_label,
}

-- Every `inc` raises the total by one, whether the label set is new or known.
pub total-inc : (labels : Labels) (cs : Counter) → total (inc labels cs) ≡ total cs + 1
unfolding total inc
total-inc labels [] = refl
total-inc labels (c ∷ cs) = ground (arith, total-inc labels cs)

-- The number of increments under one value of a label.
abbrev pub or_zero : Option ℕ → ℕ
or_zero none = 0
or_zero (some n) = n

pub eq_of_same_labels : (a b : Labels) → same_labels a b ≡ true → a ≡ b
unfolding same_labels
eq_of_same_labels [] [] h = refl
eq_of_same_labels ((k, v) ∷ a) ((j, w) ∷ b) h =
    ground (arith, eq_iff k j, eq_iff v w, eq_of_same_labels a b)
eq_of_same_labels (e ∷ a) [] h = ground arith
eq_of_same_labels [] (e ∷ b) h = ground arith

-- The plain sum of the counts whose label `key` has the value `value`.
pub tally : String → String → Counter → ℕ
tally key value [] = 0
tally key value (c ∷ cs) =
    (elim (lookup key c.labels) [ none ↦ 0 | some v ↦ if v == value then c.count else 0 ])
    + tally key value cs

or_zero-add_at :
    (value v : String) (n : ℕ) (out : Dict ℕ)
    → or_zero (lookup value (add_at v n out))
      ≡ (if v == value then n else 0) + or_zero (lookup value out)
unfolding add_at
or_zero-add_at value v n out = rw lookup-insert (ground (arith, eq_iff v value))

by_label_from-tally :
    (key value : String) (cs : Counter) (out : Dict ℕ)
    → or_zero (lookup value (by_label_from key cs out))
      ≡ tally key value cs + or_zero (lookup value out)
unfolding by_label_from tally
by_label_from-tally key value [] out = ground arith
by_label_from-tally key value (c ∷ cs) out = elim (Option-cases (lookup key c.labels)) [
  | inl absent ↦ rw absent (omega (arith, by_label_from-tally key value cs out))
  | inr (v, here) ↦ rw here (
      omega (
        arith,
        by_label_from-tally key value cs (add_at v c.count out),
        or_zero-add_at value v c.count out,
      ))
]

-- `byLabel` counts, under each value of the label, the increments whose label set has that value.
pub by_label-tally :
    (key value : String) (cs : Counter)
    → or_zero (lookup value (by_label key cs)) ≡ tally key value cs
unfolding by_label lookup
by_label-tally key value cs = omega (arith, by_label_from-tally key value cs [])

-- Whether a label set has the value under the key, as a number.
abbrev pub has_value : String → String → Labels → ℕ
has_value key value labels = elim (lookup key labels) [
  | none ↦ 0
  | some v ↦ if v == value then 1 else 0
]

tally-inc :
    (key value : String) (labels : Labels) (cs : Counter)
    → tally key value (inc labels cs) ≡ tally key value cs + has_value key value labels
unfolding tally inc
tally-inc key value labels [] = ground arith
tally-inc key value labels (c ∷ cs) =
    ground (arith, tally-inc key value labels cs, eq_of_same_labels c.labels labels)

-- One `inc` raises the breakdown by one at the value that its label set has under the key, and
-- leaves every other value of the breakdown as it was.
pub by_label-inc :
    (key value : String) (labels : Labels) (cs : Counter)
    → or_zero (lookup value (by_label key (inc labels cs)))
      ≡ or_zero (lookup value (by_label key cs)) + has_value key value labels
by_label-inc key value labels cs = simp by_label-tally (tally-inc key value labels cs)
