-- ===== src/Usage.antt =====
-- internal/gateway/usage.go: the ledger of tokens and cost, an entry for each calendar day, and the file
-- that it is kept in. `Cost` stands for float64, with its addition and its zero.
mod Tests
pub mod Calendar
pub mod Totals
pub mod Recording
pub mod Ledger
pub mod Saving
use valyrium.Base.{
  Bool, Key, List, Option, String, [], arith, false, if◌then◌else◌, insert, lookup, ltb, map, none,
  not, some, take, text_iff, text_key, true, ℕ, ◌%◌, ◌+t◌, ◌+◌, ◌-◌, ◌==◌, ◌=t◌, ◌^◌, ◌↔◌, ◌∷◌, ◌≡◌,
}
use valyrium.Usage.Calendar.{Date, first_of_month, midnight, same_date, same_date_iff, weekday}

pub record DayUsage {ℓ} (Cost : Type ℓ) : Type ℓ where
  pub input_tokens : ℕ
  pub output_tokens : ℕ
  pub cost_usd : Cost

-- A key of the ledger: a text that "2006-01-02" writes, by its date, or another text of the file.
pub data DayKey : Type 0 where
  day : Date → DayKey
  other : String → DayKey

unfoldable pub same_day_key : DayKey → DayKey → Bool
same_day_key (day d) (day e) = same_date d e
same_day_key (day d) (other s) = false
same_day_key (other s) (day d) = false
same_day_key (other s) (other t) = s =t t

pub same_day_key_iff : (a b : DayKey) → (same_day_key a b ≡ true) ↔ (a ≡ b)
unfolding same_day_key
same_day_key_iff (day d) (day e) = grind (arith, same_date_iff d e)
same_day_key_iff (day d) (other s) = grind arith
same_day_key_iff (other s) (day d) = grind arith
same_day_key_iff (other s) (other t) = grind (arith, text_iff s t)

instance abbrev pub day_key : Key DayKey
day_key = record { same = same_day_key; same_iff = same_day_key_iff }

-- What is at the ledger's path: no file, one that cannot be read, or one with these bytes.
pub data LedgerFile : Type 0 where
  missing unreadable : LedgerFile
  contents : List ℕ → LedgerFile

-- The ledger's directory: the file at its path, and the temp file of `save` while there is one.
pub record Disk : Type 0 where
  pub file : LedgerFile
  pub temp : Option (List ℕ)

-- The calls of `save` on the temp file, and the rename.
pub data SaveStep : Type 0 where
  creates writes syncs closes chmods renames : SaveStep

-- What a run of `save` meets: `json.Marshal`, how many bytes the write takes, and which calls succeed.
pub record SaveSteps {ℓ} (Cost : Type ℓ) : Type ℓ where
  pub marshal : List (DayKey × DayUsage Cost) → Option (List ℕ)
  pub write_room : ℕ
  pub succeeds : SaveStep → Bool

abbrev pub save_plan : List SaveStep
save_plan = creates ∷ writes ∷ syncs ∷ closes ∷ chmods ∷ renames ∷ []

-- `json.Unmarshal` of the file, whose `null` days are `some []`.
abbrev pub Unmarshal {ℓ} : Type ℓ → Type ℓ
Unmarshal Cost = List ℕ → Option (List (DayKey × DayUsage Cost))

-- A disabled store has no days. `file` is what the disk holds at `path`.
pub record UsageStore {ℓ} (Cost : Type ℓ) : Type ℓ where
  pub path : String
  pub days : Option (List (DayKey × DayUsage Cost))
  pub file : LedgerFile

abbrev pub usage_periods : List String
usage_periods = "current" ∷ "week" ∷ "month" ∷ "ytd" ∷ "all" ∷ []

-- `monday`: ISO weeks start on Monday, and Sunday is their day 7.
unfoldable pub monday_of : Date → ℕ
monday_of now = let iso = if weekday now == 0 then 7 else weekday now in midnight now - (iso - 1)

-- `periodsFor`.
unfoldable pub periods_for : Date → Date → List (String × Bool)
periods_for d now =
    let today = midnight now in
    ("all", true)
    ∷ ("current", midnight d == today)
    ∷ ("week", not (ltb (midnight d) (monday_of now)))
    ∷ ("month", not (ltb (midnight d) (first_of_month now.year now.month)))
    ∷ ("ytd", not (ltb (midnight d) (first_of_month now.year 1)))
    ∷ []

-- Sums of int64, by their bits.
abbrev pub add_int64 : ℕ → ℕ → ℕ
add_int64 a b = (a + b) % 2 ^ 64

-- The home directory of the user, if there is one.
unfoldable pub default_usage_db_path : Option String → String
default_usage_db_path none = "valyrium-usage.db"
default_usage_db_path (some home) = home +t "/.valyrium/usage.db"

module _ {ℓ} {Cost : Type ℓ} where
  unfoldable pub load_usage_file :
      Unmarshal Cost → LedgerFile → Option (List (DayKey × DayUsage Cost))
  load_usage_file unmarshal missing = some []
  load_usage_file unmarshal unreadable = none
  load_usage_file unmarshal (contents []) = some []
  load_usage_file unmarshal (contents (b ∷ bs)) = unmarshal (b ∷ bs)

  unfoldable pub disabled : LedgerFile → UsageStore Cost
  disabled file = record { path = ""; days = none; file = file }

  -- A call of `save` on the directory. A write that fails may have taken some bytes; the rename puts
  -- the temp file, whatever it holds, in the place of the ledger.
  unfoldable pub disk_step : SaveSteps Cost → List ℕ → SaveStep → Disk → Disk
  disk_step st encoded creates d = if st.succeeds creates then record d { temp = some [] } else d
  disk_step st encoded writes d =
      if st.succeeds writes
      then record d { temp = some encoded }
      else record d { temp = some (take st.write_room encoded) }
  disk_step st encoded syncs d = d
  disk_step st encoded closes d = d
  disk_step st encoded chmods d = d
  disk_step st encoded renames d =
      if st.succeeds renames
      then (elim d.temp [ none ↦ d | some bs ↦ record { file = contents bs; temp = none } ])
      else d

  -- The calls in order, up to the first that fails; and whether none failed.
  unfoldable pub run_steps : SaveSteps Cost → List ℕ → List SaveStep → Disk → Disk × Bool
  run_steps st encoded [] d = (d, true)
  run_steps st encoded (x ∷ xs) d = elim (st.succeeds x) [
    | true ↦ run_steps st encoded xs (disk_step st encoded x d)
    | false ↦ (disk_step st encoded x d, false)
  ]

  unfoldable pub start_disk : UsageStore Cost → Disk
  start_disk u = record { file = u.file; temp = none }

  -- `save` of these days. The deferred `os.Remove` drops a temp file that is left.
  unfoldable pub save_days :
      UsageStore Cost → SaveSteps Cost → List (DayKey × DayUsage Cost) → UsageStore Cost × Bool
  save_days u st days = elim (st.marshal days) [
    | none ↦ (u, false)
    | some encoded ↦
        let (d, ok) = run_steps st encoded save_plan (start_disk u) in
        (record u { file = d.file }, ok)
  ]

  -- `save`; it is called where there are days.
  unfoldable pub save : UsageStore Cost → SaveSteps Cost → UsageStore Cost × Bool
  save u st = elim u.days [ none ↦ (u, false) | some days ↦ save_days u st days ]

  unfoldable pub open_saved : UsageStore Cost × Bool → UsageStore Cost
  open_saved (u, saved) = if saved then u else disabled u.file

  -- `OpenUsageStore`, with the result of `os.MkdirAll` and what the calls of `save` come to.
  unfoldable pub open_usage_store :
      Unmarshal Cost → String → Option String → Bool → LedgerFile → SaveSteps Cost → UsageStore Cost
  open_usage_store unmarshal given home made file st =
      let path = if given =t "" then default_usage_db_path home else given in
      if path =t "off"
      then disabled file
      else if not made
      then disabled file
      else (elim (load_usage_file unmarshal file) [
        | none ↦ disabled file
        | some days ↦ open_saved (save (record { path = path; days = some days; file = file }) st)
      ])

  unfoldable pub enabled : UsageStore Cost → Bool
  enabled u = elim u.days [ none ↦ false | some days ↦ true ]

  -- `Close`.
  unfoldable pub close_store : UsageStore Cost → SaveSteps Cost → UsageStore Cost
  close_store u st = if enabled u then (save u st).0 else u

module _ {ℓ} {Cost : Type ℓ} (plus : Cost → Cost → Cost) (nought : Cost) where
  -- The zero value of the struct, which a map gives for a key that it lacks.
  unfoldable pub no_usage : DayUsage Cost
  no_usage = record { input_tokens = 0; output_tokens = 0; cost_usd = nought }

  abbrev pub or_zero : Option (DayUsage Cost) → DayUsage Cost
  or_zero none = no_usage
  or_zero (some u) = u

  unfoldable pub usage_at {κ} :
      {K : Type κ} ⦃e : Key K⦄ → K → List (K × DayUsage Cost) → DayUsage Cost
  usage_at k m = or_zero (lookup k m)

  unfoldable pub add_usage : DayUsage Cost → DayUsage Cost → DayUsage Cost
  add_usage total u = record {
    input_tokens = add_int64 total.input_tokens u.input_tokens;
    output_tokens = add_int64 total.output_tokens u.output_tokens;
    cost_usd = plus total.cost_usd u.cost_usd;
  }

  -- What a request uses; a cost that the CLI does not report counts as zero.
  unfoldable pub used : ℕ → ℕ → Option Cost → DayUsage Cost
  used input_tokens output_tokens cost_usd = record {
    input_tokens = input_tokens;
    output_tokens = output_tokens;
    cost_usd = (elim cost_usd [ none ↦ nought | some c ↦ c ]);
  }

  -- `recordUsageOn`, with what the calls of `save` come to.
  unfoldable pub record_usage_on :
      UsageStore Cost → Date → ℕ → ℕ → Option Cost → SaveSteps Cost → UsageStore Cost
  record_usage_on u today input_tokens output_tokens cost_usd st = elim u.days [
    | none ↦ u
    | some days ↦
        let total =
          add_usage (usage_at (day today) days) (used input_tokens output_tokens cost_usd) in
        (save (record u { days = some (insert (day today) total days) }) st).0
  ]

  -- The inner loop of `Aggregate`.
  unfoldable pub add_to_periods :
      List (String × Bool)
      → DayUsage Cost
      → List (String × DayUsage Cost)
      → List (String × DayUsage Cost)
  add_to_periods [] u totals = totals
  add_to_periods ((period, counts) ∷ rest) u totals =
      add_to_periods rest u
        (if counts then insert period (add_usage (usage_at period totals) u) totals else totals)

  unfoldable pub add_day :
      Date → DayKey → DayUsage Cost → List (String × DayUsage Cost) → List (String × DayUsage Cost)
  add_day now (day d) u totals = add_to_periods (periods_for d now) u totals
  add_day now (other s) u totals = totals

  unfoldable pub add_days :
      Date
      → List (DayKey × DayUsage Cost)
      → List (String × DayUsage Cost)
      → List (String × DayUsage Cost)
  add_days now [] totals = totals
  add_days now ((k, u) ∷ rest) totals = add_days now rest (add_day now k u totals)

  unfoldable pub aggregate : UsageStore Cost → Date → List (String × DayUsage Cost)
  aggregate u now = elim u.days [ none ↦ [] | some days ↦ add_days now days [] ]

  -- `WritePrometheus`: the gauges of the three families, period by period.
  unfoldable pub write_prometheus :
      UsageStore Cost → Date → List (String × ℕ) × (List (String × ℕ) × List (String × Cost))
  write_prometheus u now =
      let totals = aggregate u now in
      if enabled u
      then (
        map (λ period. (period, (usage_at period totals).input_tokens)) usage_periods,
        (
          map (λ period. (period, (usage_at period totals).output_tokens)) usage_periods,
          map (λ period. (period, (usage_at period totals).cost_usd)) usage_periods,
        ),
      )
      else ([], ([], []))
