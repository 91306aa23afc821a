-- ===== src/Metrics.antt =====
-- internal/gateway/metrics.go: the counters of requests. The counters are int64, by their bits, and a duration
-- is in milliseconds.
mod Tests
pub mod Counts
use valyrium.Base.{
  List, String, [], insert, length, lookup, none, number_key, some, text_key, ℕ, ◌%◌, ◌++◌, ◌+t◌,
  ◌+◌, ◌-◌, ◌^◌, ◌∷◌,
}

pub record Metrics : Type 0 where
  pub requests_total : List (String × List (ℕ × ℕ))
  pub inflight_gauge : ℕ
  pub request_duration : List ℕ

unfoldable pub new_metrics : Metrics
new_metrics = record { requests_total = []; inflight_gauge = 0; request_duration = [] }

-- The counter of a status, which is 0 where the map has none.
unfoldable pub count_at : ℕ → List (ℕ × ℕ) → ℕ
count_at status counts = elim (lookup status counts) [ none ↦ 0 | some n ↦ n ]

unfoldable pub counts_at : String → List (String × List (ℕ × ℕ)) → List (ℕ × ℕ)
counts_at key totals = elim (lookup key totals) [ none ↦ [] | some counts ↦ counts ]

unfoldable pub request_key : String → String → String
request_key method path = method +t " " +t path

unfoldable pub record_request : Metrics → String → String → ℕ → ℕ → Metrics
record_request m method path status duration =
    let key = request_key method path in
    let counts = counts_at key m.requests_total in
    record m {
      requests_total =
          insert key (insert status ((count_at status counts + 1) % 2 ^ 64) counts)
            m.requests_total;
      request_duration = m.request_duration ++ duration ∷ [];
    }

unfoldable pub inc_inflight : Metrics → Metrics
inc_inflight m = record m { inflight_gauge = (m.inflight_gauge + 1) % 2 ^ 64 }

unfoldable pub dec_inflight : Metrics → Metrics
dec_inflight m = record m { inflight_gauge = (m.inflight_gauge + (2 ^ 64 - 1)) % 2 ^ 64 }

-- A line of the exposition that carries a number; the sum is in milliseconds, before the division.
pub data Sample : Type 0 where
  requests_total_sample : String → ℕ → ℕ → Sample
  inflight_sample duration_sum_sample duration_count_sample : ℕ → Sample

unfoldable pub status_samples : String → List (ℕ × ℕ) → List Sample
status_samples key [] = []
status_samples key ((status, count) ∷ rest) =
    requests_total_sample key status count ∷ status_samples key rest

unfoldable pub key_samples : List (String × List (ℕ × ℕ)) → List Sample
key_samples [] = []
key_samples ((key, counts) ∷ rest) = status_samples key counts ++ key_samples rest

unfoldable pub sum_int64 : List ℕ → ℕ
sum_int64 [] = 0
sum_int64 (d ∷ ds) = (d + sum_int64 ds) % 2 ^ 64

-- `WritePrometheus`, in the order that the association lists have.
unfoldable pub write_prometheus : Metrics → List Sample
write_prometheus m =
    key_samples m.requests_total
    ++ inflight_sample m.inflight_gauge
      ∷ duration_sum_sample (sum_int64 m.request_duration)
      ∷ duration_count_sample (length m.request_duration)
      ∷ []
