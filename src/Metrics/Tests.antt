-- ===== src/Metrics/Tests.antt =====
-- Counters and quantiles at concrete values.
use supply_chain_mangement_s.Common.{◌≤◌, ◌≡◌, refl, some, [], ◌∷◌, arith}
use supply_chain_mangement_s.Dict.{lookup, insert}
use supply_chain_mangement_s.Metrics.{Counter, same_labels, inc, by_label, percentile}
use supply_chain_mangement_s.Metrics.Prometheus.{format_labels, counter_text}
use supply_chain_mangement_s.Metrics.Quantiles.{percentile_mono}

abbrev outcomes : Counter
outcomes =
    record { labels = ("status", "CONFIRMED") ∷ []; count = 2 }
    ∷ record { labels = ("status", "CANCELLED") ∷ []; count = 1 }
    ∷ []

one_more_cancelled :
    lookup "CANCELLED" (by_label "status" (inc (("status", "CANCELLED") ∷ []) outcomes)) ≡ some 2
unfolding lookup insert by_label inc same_labels
one_more_cancelled = refl

percentile_mono_example : percentile 50 (7 ∷ 3 ∷ 9 ∷ []) ≤ percentile 95 (7 ∷ 3 ∷ 9 ∷ [])
percentile_mono_example = percentile_mono 50 95 (7 ∷ 3 ∷ 9 ∷ []) (omega arith)

two_reservations :
    counter_text "r" "h"
      (record { labels = ("sku", "A") ∷ ("warehouseId", "w") ∷ []; count = 2 } ∷ [])
    ≡ "# HELP r h\n# TYPE r counter\nr{sku=\"A\",warehouseId=\"w\"} 2"
unfolding counter_text
two_reservations = refl

-- A quote in a value is not escaped: two label sets have one text.
unescaped_quote :
    format_labels (("sku", "a\",warehouseId=\"b") ∷ ("warehouseId", "c") ∷ [])
    ≡ format_labels (("sku", "a") ∷ ("warehouseId", "b\",warehouseId=\"c") ∷ [])
unfolding format_labels
unescaped_quote = refl
