-- ===== src/Metrics.antt =====
-- src/metrics/metrics.ts: labelled counters and the latency histogram. The map of a counter is
-- keyed by `JSON.stringify(labels)`, which is one text for each list of labels: the label sets
-- themselves are compared. A quantile is given in hundredths; samples are whole milliseconds.
pub mod Counts
pub mod Quantiles
pub mod Prometheus
mod Tests
use supply_chain_mangement_s.Common.{
  ℕ, suc, ◌+◌, ◌-◌, ◌*◌, ◌/◌, leb, String, Bool, true, false, ◌&&◌, Option, none, some, List, [],
  ◌∷◌, ◌++◌, ◌==◌, if◌then◌else◌, length,
}
use supply_chain_mangement_s.Dict.{Dict, lookup, insert}

-- A label set, as an object literal lists it: ("sku", …), ("warehouseId", …).
abbrev pub Labels : Type 0
Labels = List (String × String)

-- Equality of `JSON.stringify(a)` and `JSON.stringify(b)`.
unfoldable pub same_labels : Labels → Labels → Bool
same_labels [] [] = true
same_labels ((k, v) ∷ a) ((j, w) ∷ b) = k == j && v == w && same_labels a b
same_labels _ _ = false

pub record LabeledCount : Type 0 where
  pub labels : Labels
  pub count : ℕ

abbrev pub Counter : Type 0
Counter = List LabeledCount

-- `inc(labels)`
unfoldable pub inc : Labels → Counter → Counter
inc labels [] = record { labels = labels; count = 1 } ∷ []
inc labels (c ∷ cs) =
    if same_labels c.labels labels then record c { count = c.count + 1 } ∷ cs else c ∷ inc labels cs

unfoldable pub total : Counter → ℕ
total [] = 0
total (c ∷ cs) = c.count + total cs

-- `out[value] = (out[value] ?? 0) + count`
unfoldable pub add_at : String → ℕ → Dict ℕ → Dict ℕ
add_at value n out = insert value (elim (lookup value out) [ none ↦ n | some m ↦ m + n ]) out

unfoldable pub by_label_from : String → Counter → Dict ℕ → Dict ℕ
unfolding add_at
by_label_from key [] out = out
by_label_from key (c ∷ cs) out =
    by_label_from key cs
      (elim (lookup key c.labels) [ none ↦ out | some value ↦ add_at value c.count out ])

unfoldable pub by_label : String → Counter → Dict ℕ
unfolding by_label_from
by_label key cs = by_label_from key cs []

abbrev pub Histogram : Type 0
Histogram = List ℕ

unfoldable pub observe : ℕ → Histogram → Histogram
observe value samples = samples ++ value ∷ []

-- `[...samples].sort((a, b) => a - b)`
unfoldable pub insert_sorted : ℕ → List ℕ → List ℕ
insert_sorted x [] = x ∷ []
insert_sorted x (y ∷ ys) = if leb x y then x ∷ y ∷ ys else y ∷ insert_sorted x ys

unfoldable pub sort : List ℕ → List ℕ
unfolding insert_sorted
sort [] = []
sort (x ∷ xs) = insert_sorted x (sort xs)

-- `sorted[i]`; the index is in range wherever it is called (Quantiles).
unfoldable pub elem_at : List ℕ → ℕ → ℕ
elem_at [] i = 0
elem_at (x ∷ xs) ℕ.zero = x
elem_at (x ∷ xs) (suc i) = elem_at xs i

-- `Math.min(sorted.length - 1, Math.floor(sorted.length * p))`
unfoldable pub rank : ℕ → ℕ → ℕ
rank hundredths n = let i = n * hundredths / 100 in if leb (n - 1) i then n - 1 else i

unfoldable pub percentile : ℕ → Histogram → ℕ
unfolding sort elem_at rank
percentile hundredths [] = 0
percentile hundredths (x ∷ xs) =
    let sorted = sort (x ∷ xs) in elem_at sorted (rank hundredths (length sorted))

pub record Snapshot : Type 0 where
  pub p50 : ℕ
  pub p90 : ℕ
  pub p95 : ℕ
  pub p99 : ℕ
  pub count : ℕ

unfoldable pub snapshot : Histogram → Snapshot
unfolding percentile
snapshot samples = record {
  p50 = percentile 50 samples;
  p90 = percentile 90 samples;
  p95 = percentile 95 samples;
  p99 = percentile 99 samples;
  count = length samples;
}

-- The registry `metrics`.
pub record Metrics : Type 0 where
  pub reservations_accepted : Counter
  pub reservations_rejected : Counter
  pub saga_outcomes : Counter
  pub reservation_latency : Histogram

pub record MetricsSnapshot : Type 0 where
  pub reservations_accepted : ℕ
  pub reservations_rejected : ℕ
  pub saga_outcomes : Dict ℕ
  pub reservation_latency_ms : Snapshot

unfoldable pub metrics_snapshot_json : Metrics → MetricsSnapshot
unfolding total by_label snapshot
metrics_snapshot_json m = record {
  reservations_accepted = total m.reservations_accepted;
  reservations_rejected = total m.reservations_rejected;
  saga_outcomes = by_label "status" m.saga_outcomes;
  reservation_latency_ms = snapshot m.reservation_latency;
}
