-- ===== src/Usage/Tests.antt =====
-- The ledger on a leap day and the day after it, with whole numbers for the cost.
use valyrium.Base.{
  Bool, List, Option, [], arith, false, if◌then◌else◌, insert, length, lookup, map, none, refl,
  some, subst, take, text_key, true, ℕ, ◌%◌, ◌+◌, ◌<◌, ◌==◌, ◌^◌, ◌∷◌, ◌≡◌,
}
use valyrium.Usage.{
  DayKey, DayUsage, SaveStep, SaveSteps, UsageStore, add_day, add_days, add_to_periods, add_usage,
  aggregate, chmods, closes, contents, creates, day, load_usage_file, monday_of, no_usage, other,
  periods_for, record_usage_on, renames, run_steps, save, save_days, save_plan, start_disk, syncs,
  usage_at, usage_periods, used, writes,
}
use valyrium.Usage.Saving.{record_usage_on-load_usage_file}
use valyrium.Session.{member}
use valyrium.Usage.Calendar.{
  Date, IsDate, days_in_month, days_of_months, days_of_years, first_of_month, is_leap, midnight,
  weekday,
}
use valyrium.Usage.Totals.{aggregate-total_over, total_over}
use valyrium.Usage.Recording.{recorded}
use valyrium.Usage.Ledger.{aggregate_permuted, record_usage_on-aggregate}
use mathlib.Core.List.Permᴰ.{swap}

abbrev leap_day : Date
leap_day = record { year = 4; month = 2; day_of_month = 29 }

abbrev next_day : Date
next_day = record { year = 4; month = 3; day_of_month = 1 }

-- A Monday.
next_day-weekday : weekday next_day ≡ 1
unfolding weekday midnight days_of_years days_of_months days_in_month is_leap
next_day-weekday = refl

leap_day-IsDate : IsDate leap_day
unfolding days_in_month is_leap
leap_day-IsDate = record {
  month_low = omega arith;
  month_high = omega arith;
  day_low = omega arith;
  day_high = omega arith;
}

next_day-IsDate : IsDate next_day
unfolding days_in_month is_leap
next_day-IsDate = record {
  month_low = omega arith;
  month_high = omega arith;
  day_low = omega arith;
  day_high = omega arith;
}

abbrev small : DayUsage ℕ
small = record { input_tokens = 10; output_tokens = 20; cost_usd = 3 }

abbrev two_days : List (DayKey × DayUsage ℕ)
two_days = (day leap_day, small) ∷ (other "notes", small) ∷ []

abbrev turned : List (DayKey × DayUsage ℕ)
turned = (other "notes", small) ∷ (day leap_day, small) ∷ []

abbrev without_write : SaveStep → Bool
without_write creates = true
without_write writes = false
without_write syncs = true
without_write closes = true
without_write chmods = true
without_write renames = true

abbrev never_saved : SaveSteps ℕ
never_saved = record { marshal = λ days. none; write_room = 0; succeeds = without_write }

abbrev store_of : List (DayKey × DayUsage ℕ) → UsageStore ℕ
store_of days = record { path = "usage.db"; days = some days; file = contents (0 ∷ []) }

-- The leap day counts toward the year, and not toward the month or the week of the next day.
two_days-aggregate :
    map
      (λ q. (usage_at (◌+◌) 0 q (aggregate (◌+◌) 0 (store_of two_days) next_day)).input_tokens)
      usage_periods
    ≡ 0 ∷ 0 ∷ 0 ∷ 10 ∷ 10 ∷ []
unfolding aggregate add_days add_day add_to_periods periods_for usage_at no_usage add_usage lookup
    insert midnight days_of_years days_of_months days_in_month is_leap weekday monday_of
    first_of_month
two_days-aggregate = refl

aggregate-total_over_example :
    usage_at (◌+◌) 0 "ytd" (aggregate (◌+◌) 0 (store_of two_days) next_day)
    ≡ total_over (◌+◌) 0 "ytd" next_day two_days (no_usage (◌+◌) 0)
aggregate-total_over_example =
    aggregate-total_over (◌+◌) 0 "ytd" next_day (store_of two_days) two_days refl
      (leap_day-IsDate, tt) next_day-IsDate

abbrev ytd_before : DayUsage ℕ
ytd_before = usage_at (◌+◌) 0 "ytd" (aggregate (◌+◌) 0 (store_of two_days) next_day)

abbrev ytd_after : DayUsage ℕ
ytd_after = usage_at (◌+◌) 0 "ytd" (
    aggregate (◌+◌) 0 (record_usage_on (◌+◌) 0 (store_of two_days) next_day 5 7 none never_saved)
      next_day)

record_usage_on-aggregate_example :
    (ytd_after.input_tokens % 2 ^ 64 ≡ (ytd_before.input_tokens + 5) % 2 ^ 64)
    × (ytd_after.output_tokens % 2 ^ 64 ≡ (ytd_before.output_tokens + 7) % 2 ^ 64)
record_usage_on-aggregate_example =
    record_usage_on-aggregate (◌+◌) 0 "ytd" next_day (store_of two_days) two_days 5 7 none
      never_saved refl (leap_day-IsDate, tt) next_day-IsDate (unfold member in refl)

abbrev ytd_turned : DayUsage ℕ
ytd_turned = usage_at (◌+◌) 0 "ytd" (aggregate (◌+◌) 0 (store_of turned) next_day)

aggregate_permuted_example :
    (ytd_before.input_tokens % 2 ^ 64 ≡ ytd_turned.input_tokens % 2 ^ 64)
    × (ytd_before.output_tokens % 2 ^ 64 ≡ ytd_turned.output_tokens % 2 ^ 64)
aggregate_permuted_example =
    aggregate_permuted (◌+◌) 0 "ytd" next_day (store_of two_days) (store_of turned) two_days turned
      refl refl (leap_day-IsDate, tt) (leap_day-IsDate, tt) next_day-IsDate (swap refl refl)

-- The ledger after a request on the next day, and a JSON that writes it as one byte.
abbrev after_request : List (DayKey × DayUsage ℕ)
after_request = recorded (◌+◌) 0 next_day (used (◌+◌) 0 5 7 none) two_days

abbrev decoded : List ℕ → Option (List (DayKey × DayUsage ℕ))
decoded bs = if length bs == 1 then some after_request else none

-- The disk is full.
abbrev disk_full : SaveSteps ℕ
disk_full = record { marshal = λ days. some (1 ∷ []); write_room = 0; succeeds = without_write }

record_usage_on-load_usage_file_example :
    let ok = (save (record (store_of two_days) { days = some after_request }) disk_full).1 in
    (load_usage_file decoded
        (record_usage_on (◌+◌) 0 (store_of two_days) next_day 5 7 none disk_full).file
      ≡ (if ok then some after_request else load_usage_file decoded (contents (0 ∷ []))))
    × (load_usage_file decoded
          (run_steps disk_full (1 ∷ []) (take 2 save_plan) (start_disk (store_of two_days))).0.file
        ≡ load_usage_file decoded (contents (0 ∷ [])))
record_usage_on-load_usage_file_example =
    record_usage_on-load_usage_file (◌+◌) 0 decoded next_day (store_of two_days) two_days 5 7 none
      disk_full 2 (1 ∷ []) refl (omega arith)
      (λ encoded e.
        let same : 1 ∷ [] ≡ encoded = ground (arith, e) in
        subst (λ bs. (0 < length bs) × (decoded bs ≡ some after_request)) same (omega arith, refl))

not_saved : (save (record (store_of two_days) { days = some after_request }) disk_full).1 ≡ false
unfolding save save_days run_steps
not_saved = refl
