-- ===== src/Metrics/Counts.antt =====
-- internal/gateway/metrics.go: what the counters count.
use valyrium.Base.{
  ==_iff, Bool, Bool-cases, List, Option, String, [], ap, arith, false, if◌then◌else◌, inl, inr,
  insert, length, length-append, lookup, lookup-insert, none, number_key, refl, some, text_iff,
  text_key, true, ℕ, ◌%◌, ◌&&◌, ◌+◌, ◌==◌, ◌=t◌, ◌^◌, ◌∙◌, ◌∷◌, ◌≡◌,
}
use valyrium.Metrics.{Metrics, count_at, counts_at, record_request, request_key}

-- A request as it is recorded.
pub record Served : Type 0 where
  pub method : String
  pub path : String
  pub status : ℕ
  pub duration : ℕ

unfoldable pub record_all : Metrics → List Served → Metrics
record_all m [] = m
record_all m (r ∷ rs) = record_all (record_request m r.method r.path r.status r.duration) rs

-- How many of some requests have a key and a status.
unfoldable pub count_served : String → ℕ → List Served → ℕ
count_served key status [] = 0
count_served key status (r ∷ rs) =
    (if request_key r.method r.path =t key && r.status == status then 1 else 0)
    + count_served key status rs

-- The counter that `llmgateway_requests_total` shows for a key and a status.
unfoldable pub counter : Metrics → String → ℕ → ℕ
counter m key status = count_at status (counts_at key m.requests_total)

counts_at-insert :
    (k key : String) (c : List (ℕ × ℕ)) (m : List (String × List (ℕ × ℕ)))
    → counts_at key (insert k c m) ≡ (if k =t key then c else counts_at key m)
unfolding counts_at
counts_at-insert k key c m =
    ap (λ o. elim o [ none ↦ [] | some counts ↦ counts ]) (lookup-insert k key c m)
    ∙ of (k =t key) (lookup key m)
  where
    of :
        (b : Bool) (o : Option (List (ℕ × ℕ)))
        → (elim (if b then some c else o) [ none ↦ [] | some counts ↦ counts ])
          ≡ (if b then c else (elim o [ none ↦ [] | some counts ↦ counts ]))
    of true o = refl
    of false o = refl

count_at-insert :
    (st status n : ℕ) (c : List (ℕ × ℕ))
    → count_at status (insert st n c) ≡ (if st == status then n else count_at status c)
unfolding count_at
count_at-insert st status n c =
    ap (λ o. elim o [ none ↦ 0 | some n ↦ n ]) (lookup-insert st status n c)
    ∙ of (st == status) (lookup status c)
  where
    of :
        (b : Bool) (o : Option ℕ)
        → (elim (if b then some n else o) [ none ↦ 0 | some n ↦ n ])
          ≡ (if b then n else (elim o [ none ↦ 0 | some n ↦ n ]))
    of true o = refl
    of false o = refl

record_request-counter :
    (m : Metrics) (r : Served) (key : String) (status : ℕ)
    → counter (record_request m r.method r.path r.status r.duration) key status ≡ (
        if request_key r.method r.path =t key && r.status == status
        then (counter m key status + 1) % 2 ^ 64
        else counter m key status)
unfolding counter record_request
record_request-counter m r key status =
    let k = request_key r.method r.path in
    let counts = counts_at k m.requests_total in
    let n = (count_at r.status counts + 1) % 2 ^ 64 in
    rw (counts_at-insert k key (insert r.status n counts) m.requests_total)
      (elim (Bool-cases (k =t key)) [
        | inl same ↦
            let e : k ≡ key = (text_iff k key).0 same in
            rw same (
              rw (count_at-insert r.status status n counts)
                (grind (arith, ==_iff r.status status, ap (λ x. counts_at x m.requests_total) e)))
        | inr other ↦ rw other refl
      ])

-- After any requests, the counter of each key and status has grown by the number of those requests,
-- as int64 counts, and as many durations have been kept as requests were made.
pub record_all-counter :
    (m : Metrics) (rs : List Served) (key : String) (status : ℕ)
    → (counter (record_all m rs) key status % 2 ^ 64
        ≡ (counter m key status + count_served key status rs) % 2 ^ 64)
      × (length (record_all m rs).request_duration ≡ length m.request_duration + length rs)
unfolding record_all count_served
record_all-counter m [] key status = (omega arith, omega arith)
record_all-counter m (r ∷ rs) key status =
    let m' = record_request m r.method r.path r.status r.duration in
    let (counted, kept) = record_all-counter m' rs key status in
    (
      counted ∙ grind (arith, record_request-counter m r key status),
      kept
          ∙ (unfold record_request in
              omega (arith, length-append m.request_duration (r.duration ∷ []))),
    )
