-- ===== src/Usage/Totals.antt =====
-- internal/gateway/usage.go: what `Aggregate` adds up, and what a recorded request changes in it.
use valyrium.Base.{
  Bool, List, Option, String, Unique, [], ap, arith, false, if◌then◌else◌, insert, lookup,
  lookup-insert, ltb, none, not, refl, some, text_iff, text_key, true, ℕ, ◌+◌, ◌/◌, ◌==◌, ◌=t◌, ◌∙◌,
  ◌∷◌, ◌≡◌,
}
use valyrium.Usage.Calendar.{
  Date, IsDate, before_month, first_of_month, first_of_month-before_month, midnight, weekday,
}
use valyrium.Usage.{
  DayKey, DayUsage, UsageStore, add_day, add_days, add_to_periods, add_usage, aggregate, day,
  monday_of, no_usage, or_zero, other, periods_for, usage_at,
}

-- The number of the week that a day falls in. Day 0 is a Saturday, and a week begins on Monday.
unfoldable pub week_of : ℕ → ℕ
week_of n = (n + 5) / 7

week_of-monday_of :
    (d now : Date)
    → ltb (midnight d) (monday_of now) ≡ ltb (week_of (midnight d)) (week_of (midnight now))
unfolding monday_of weekday week_of
week_of-monday_of d now = ground arith

-- Whether a date is on or after the first day of a period, by the calendar.
unfoldable pub in_period : String → Date → Date → Bool
in_period period d now =
    if "all" =t period
    then true
    else if "current" =t period
    then midnight d == midnight now
    else if "week" =t period
    then not (ltb (week_of (midnight d)) (week_of (midnight now)))
    else if "month" =t period
    then not (before_month d now.year now.month)
    else if "ytd" =t period
    then not (ltb d.year now.year)
    else false

flagged : String → List (String × Bool) → Bool
flagged q flags = elim (lookup q flags) [ none ↦ false | some counts ↦ counts ]

periods_for-Unique : (d now : Date) → Unique (periods_for d now)
unfolding periods_for lookup
periods_for-Unique d now = (refl, (refl, (refl, (refl, (refl, tt)))))

periods_for-in_period :
    (q : String) (d now : Date)
    → IsDate d
    → IsDate now
    → flagged q (periods_for d now) ≡ in_period q d now
unfolding periods_for lookup flagged in_period
periods_for-in_period q d now v w = ground (
  arith,
  first_of_month-before_month d now.year now.month v w.month_low w.month_high,
  ytd,
  week_of-monday_of d now,
)
  where
    ytd : ltb (midnight d) (first_of_month now.year 1) ≡ ltb d.year now.year
    ytd =
        first_of_month-before_month d now.year 1 v (omega arith) (omega arith)
        ∙ (unfold before_month in ground (arith, v.month_low))

-- The days that count toward a period.
unfoldable pub counts_toward : String → Date → DayKey → Bool
counts_toward q now (day d) = in_period q d now
counts_toward q now (other s) = false

module _ {ℓ} {Cost : Type ℓ} where
  -- The keys of a ledger that are dates are dates of the calendar.
  abbrev pub IsDated : List (DayKey × DayUsage Cost) → Type 0
  IsDated [] = Unit
  IsDated ((day d, u) ∷ rest) = IsDate d × IsDated rest
  IsDated ((other s, u) ∷ rest) = IsDated rest

module _ {ℓ} {Cost : Type ℓ} (plus : Cost → Cost → Cost) (nought : Cost) where
  usage_at-insert :
      (q p : String) (u : DayUsage Cost) (m : List (String × DayUsage Cost))
      → usage_at plus nought q (insert p u m) ≡ (if p =t q then u else usage_at plus nought q m)
  unfolding usage_at
  usage_at-insert q p u m =
      ap (or_zero plus nought) (lookup-insert p q u m) ∙ or_zero-if (p =t q) (lookup q m)
    where
      or_zero-if :
          (b : Bool) (o : Option (DayUsage Cost))
          → or_zero plus nought (if b then some u else o) ≡ (if b then u else or_zero plus nought o)
      or_zero-if true o = refl
      or_zero-if false o = refl

  add_to_periods-at :
      (q : String) (flags : List (String × Bool)) (u : DayUsage Cost)
      (totals : List (String × DayUsage Cost))
      → Unique flags
      → usage_at plus nought q (add_to_periods plus nought flags u totals) ≡ (
          if flagged q flags
          then add_usage plus nought (usage_at plus nought q totals) u
          else usage_at plus nought q totals)
  unfolding add_to_periods flagged lookup
  add_to_periods-at q [] u totals h = refl
  add_to_periods-at q ((p, true) ∷ flags) u totals h = grind (
    arith,
    add_to_periods-at q flags u
        (insert p (add_usage plus nought (usage_at plus nought p totals) u) totals) h.1,
    usage_at-insert q p (add_usage plus nought (usage_at plus nought p totals) u) totals,
    text_iff p q,
    h.0,
  )
  add_to_periods-at q ((p, false) ∷ flags) u totals h =
      grind (arith, add_to_periods-at q flags u totals h.1, text_iff p q, h.0)

  -- The sum of what is counted, day by day.
  unfoldable pub total_over :
      String → Date → List (DayKey × DayUsage Cost) → DayUsage Cost → DayUsage Cost
  total_over q now [] total = total
  total_over q now ((k, u) ∷ rest) total =
      total_over q now rest (if counts_toward q now k then add_usage plus nought total u else total)

  add_days-total_over :
      (q : String) (now : Date) (days : List (DayKey × DayUsage Cost))
      (totals : List (String × DayUsage Cost))
      → IsDated days
      → IsDate now
      → usage_at plus nought q (add_days plus nought now days totals)
        ≡ total_over q now days (usage_at plus nought q totals)
  unfolding add_days total_over counts_toward add_day
  add_days-total_over q now [] totals v w = refl
  add_days-total_over q now ((other s, u) ∷ rest) totals v w =
      add_days-total_over q now rest totals v w
  add_days-total_over q now ((day d, u) ∷ rest) totals v w =
      add_days-total_over q now rest _ v.1 w
      ∙ ap (total_over q now rest) (
          rw⁻¹ (periods_for-in_period q d now v.0 w)
            (add_to_periods-at q _ u totals (periods_for-Unique d now)))

  -- What `aggregate` reports for a period is the sum, in the order of the ledger, of the days that
  -- count toward it by the calendar: for "current" today, for "week", "month" and "ytd" the days of
  -- this week, month or year and of later ones, where a week begins on Monday, and for "all" every day.
  -- A name that is no period has no total.
  pub aggregate-total_over :
      (q : String) (now : Date) (u : UsageStore Cost) (days : List (DayKey × DayUsage Cost))
      → u.days ≡ some days
      → IsDated days
      → IsDate now
      → usage_at plus nought q (aggregate plus nought u now)
        ≡ total_over q now days (no_usage plus nought)
  unfolding aggregate usage_at no_usage lookup
  aggregate-total_over q now u days e v w =
      rw (e, aggregate) (add_days-total_over q now days [] v w)
