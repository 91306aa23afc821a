-- ===== src/Usage/Ledger.antt =====
-- internal/gateway/usage.go: what the ledger promises to those who read its totals.
use valyrium.Base.{
  List, Option, String, arith, refl, some, text_key, true, ℕ, ◌%◌, ◌+◌, ◌^◌, ◌∙◌, ◌≡◌,
}
use valyrium.Usage.{
  DayKey, DayUsage, SaveSteps, UsageStore, add_usage, aggregate, no_usage, record_usage_on,
  usage_at, usage_periods, used,
}
use valyrium.Session.{member}
use valyrium.Usage.Calendar.{Date, IsDate, before_month}
use valyrium.Usage.Totals.{IsDated, in_period}
use valyrium.Usage.Recording.{IsCount, aggregate-sum_over, record_usage_on-count, sum_over}
use mathlib.Core.List.{Permᴰ}
use mathlib.Core.List.Permᴰ.{cons, swap, nil, trans}

in_period-now :
    (q : String) (now : Date) → member q usage_periods ≡ true → in_period q now now ≡ true
unfolding member in_period before_month
in_period-now q now h = ground (arith, h)

module _ {ℓ} {Cost : Type ℓ} (plus : Cost → Cost → Cost) (nought : Cost) where
  input_tokens-IsCount : IsCount plus nought (λ u. u.input_tokens)
  unfolding no_usage add_usage
  input_tokens-IsCount = record { none_used = refl; adds = λ a b. refl }

  output_tokens-IsCount : IsCount plus nought (λ u. u.output_tokens)
  unfolding no_usage add_usage
  output_tokens-IsCount = record { none_used = refl; adds = λ a b. refl }

  -- A request that is recorded today adds its tokens to each of the five totals, as int64 adds,
  -- whether or not the ledger could be written to its file.
  pub record_usage_on-aggregate :
      (q : String) (now : Date) (u : UsageStore Cost) (days : List (DayKey × DayUsage Cost))
      (i o : ℕ) (c : Option Cost) (st : SaveSteps Cost)
      → u.days ≡ some days
      → IsDated days
      → IsDate now
      → member q usage_periods ≡ true
      → let before = usage_at plus nought q (aggregate plus nought u now) in
        let after =
          usage_at plus nought q
            (aggregate plus nought (record_usage_on plus nought u now i o c st) now) in
        (after.input_tokens % 2 ^ 64 ≡ (before.input_tokens + i) % 2 ^ 64)
        × (after.output_tokens % 2 ^ 64 ≡ (before.output_tokens + o) % 2 ^ 64)
  unfolding used
  record_usage_on-aggregate q now u days i o c st e v w h = (
    record_usage_on-count plus nought _ input_tokens-IsCount q now u days i o c st e v w
        (in_period-now q now h),
    record_usage_on-count plus nought _ output_tokens-IsCount q now u days i o c st e v w
        (in_period-now q now h),
  )

  sum_over-Permᴰ :
      (f : DayUsage Cost → ℕ) (q : String) (now : Date) (days days' : List (DayKey × DayUsage Cost))
      → Permᴰ days days'
      → sum_over plus nought f q now days ≡ sum_over plus nought f q now days'
  unfolding sum_over
  sum_over-Permᴰ f q now _ _ nil = refl
  sum_over-Permᴰ f q now _ _ (cons {l₁ = l₁} {l₂ = l₂} e p) =
      rw e (omega (arith, sum_over-Permᴰ f q now l₁ l₂ p))
  sum_over-Permᴰ f q now _ _ (swap e e') = rw e (rw e' (omega arith))
  sum_over-Permᴰ f q now _ _ (trans {l₁ = l₁} {l₂ = l₂} {l₃ = l₃} p p') =
      sum_over-Permᴰ f q now l₁ l₂ p ∙ sum_over-Permᴰ f q now l₂ l₃ p'

  -- The order in which Go hands out the entries of the ledger changes no total of tokens.
  pub aggregate_permuted :
      (q : String) (now : Date) (u u' : UsageStore Cost)
      (days days' : List (DayKey × DayUsage Cost))
      → u.days ≡ some days
      → u'.days ≡ some days'
      → IsDated days
      → IsDated days'
      → IsDate now
      → Permᴰ days days'
      → let total = usage_at plus nought q (aggregate plus nought u now) in
        let total' = usage_at plus nought q (aggregate plus nought u' now) in
        (total.input_tokens % 2 ^ 64 ≡ total'.input_tokens % 2 ^ 64)
        × (total.output_tokens % 2 ^ 64 ≡ total'.output_tokens % 2 ^ 64)
  aggregate_permuted q now u u' days days' e e' v v' w p =
      (same_count _ input_tokens-IsCount, same_count _ output_tokens-IsCount)
    where
      same_count :
          (f : DayUsage Cost → ℕ)
          → IsCount plus nought f
          → f (usage_at plus nought q (aggregate plus nought u now)) % 2 ^ 64
            ≡ f (usage_at plus nought q (aggregate plus nought u' now)) % 2 ^ 64
      same_count f c = omega (
        arith,
        aggregate-sum_over plus nought f c q now u days e v w,
        aggregate-sum_over plus nought f c q now u' days' e' v' w,
        sum_over-Permᴰ f q now days days' p,
      )
