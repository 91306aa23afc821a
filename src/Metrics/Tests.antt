-- ===== src/Metrics/Tests.antt =====
-- Three requests of two kinds.
use valyrium.Base.{List, String, [], insert, lookup, refl, text_key, ℕ, ◌∷◌, ◌≡◌}
use valyrium.Metrics.{count_at, counts_at, new_metrics, record_request, request_key}
use valyrium.Metrics.Counts.{Served, counter, record_all}

abbrev served : String → ℕ → Served
served path status = record { method = "GET"; path = path; status = status; duration = 2 }

abbrev three : List Served
three = served "/healthz" 200 ∷ served "/metrics" 200 ∷ served "/healthz" 200 ∷ []

three-counter : counter (record_all new_metrics three) "GET /healthz" 200 ≡ 2
unfolding counter record_all record_request new_metrics counts_at count_at lookup insert request_key
three-counter = refl
