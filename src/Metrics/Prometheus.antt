-- ===== src/Metrics/Prometheus.antt =====
-- src/metrics/metrics.ts: the text that `GET /metrics` answers with. A percentile of whole
-- milliseconds has `.0000` behind its digits.
use Prim.Native.String.{◌++◌ as join}
use supply_chain_mangement_s.Common.{ℕ, String, List, [], ◌∷◌, ◌++◌, map, length}
use supply_chain_mangement_s.Text.{decimal}
use supply_chain_mangement_s.Metrics.{Labels, LabeledCount, Counter, Histogram, percentile, Metrics}

-- `texts.join(separator)`
unfoldable pub join_with : String → List String → String
join_with separator [] = ""
join_with separator (text ∷ []) = text
join_with separator (text ∷ next ∷ texts) =
    join text (join separator (join_with separator (next ∷ texts)))

-- The texts one after the other.
unfoldable pub all_of : List String → String
all_of [] = ""
all_of (text ∷ texts) = join text (all_of texts)

abbrev pub label_text : String × String → String
label_text (key, value) = all_of (key ∷ "=\"" ∷ value ∷ "\"" ∷ [])

unfoldable pub format_labels : Labels → String
unfolding join_with all_of
format_labels [] = ""
format_labels (label ∷ labels) =
    all_of ("{" ∷ join_with "," (map label_text (label ∷ labels)) ∷ "}" ∷ [])

abbrev pub sample_line : String → LabeledCount → String
sample_line name c = all_of (name ∷ format_labels c.labels ∷ " " ∷ decimal c.count ∷ [])

abbrev pub sample_lines : String → Counter → List String
sample_lines name [] = all_of (name ∷ " 0" ∷ []) ∷ []
sample_lines name (c ∷ cs) = map (sample_line name) (c ∷ cs)

abbrev pub heading : String → String → String → List String
heading name help type =
    all_of ("# HELP " ∷ name ∷ " " ∷ help ∷ []) ∷ all_of ("# TYPE " ∷ name ∷ " " ∷ type ∷ []) ∷ []

-- `toPrometheusText` of a counter and of a histogram.
unfoldable pub counter_text : String → String → Counter → String
unfolding format_labels decimal
counter_text name help cs = join_with "\n" (heading name help "counter" ++ sample_lines name cs)

abbrev pub quantile_line : String → Histogram → String × ℕ → String
quantile_line name samples (quantile, hundredths) = all_of (
    name
    ∷ "{quantile=\""
    ∷ quantile
    ∷ "\"} "
    ∷ decimal (percentile hundredths samples)
    ∷ ".0000"
    ∷ [])

abbrev pub quantiles : List (String × ℕ)
quantiles = ("0.5", 50) ∷ ("0.9", 90) ∷ ("0.95", 95) ∷ ("0.99", 99) ∷ []

unfoldable pub histogram_text : String → String → Histogram → String
unfolding join_with all_of decimal percentile
histogram_text name help samples = join_with "\n" (
    heading name help "summary"
    ++ map (quantile_line name samples) quantiles
    ++ all_of (name ∷ "_count " ∷ decimal (length samples) ∷ []) ∷ [])

unfoldable pub metrics_snapshot_text : Metrics → String
unfolding counter_text histogram_text
metrics_snapshot_text m =
    join
      (join_with "\n\n" (
        counter_text "reservations_accepted_total" "Total accepted inventory reservations"
          m.reservations_accepted
        ∷ counter_text "reservations_rejected_total"
            "Total rejected inventory reservations (insufficient stock)" m.reservations_rejected
        ∷ counter_text "saga_outcomes_total" "Order saga outcomes by final status" m.saga_outcomes
        ∷ histogram_text "reservation_latency_ms"
            "Latency of InventoryService.reserve() calls, in milliseconds" m.reservation_latency
        ∷ []))
      "\n"
