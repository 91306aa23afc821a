-- ===== src/Usage/Recording.antt =====
-- internal/gateway/usage.go: what a recorded request adds to the totals, and what a restart keeps.
use valyrium.Base.{
  Bool, Bool-cases, List, Option, Option-cases, String, [], arith, false, if◌then◌else◌, inl, inr,
  insert, lookup, refl, some, subst, sym, text_key, true, ℕ, ◌%◌, ◌+◌, ◌^◌, ◌∙◌, ◌∷◌, ◌≡◌,
}
use valyrium.Usage.{
  DayKey, DayUsage, SaveSteps, UsageStore, add_usage, aggregate, day, day_key, no_usage, other,
  record_usage_on, same_day_key, same_day_key_iff, save, save_days, usage_at, used,
}
use valyrium.Usage.Calendar.{Date, IsDate, same_date}
use valyrium.Usage.Totals.{IsDated, aggregate-total_over, counts_toward, in_period, total_over}

module _ {ℓ} {Cost : Type ℓ} (plus : Cost → Cost → Cost) (nought : Cost) where
  -- A count of tokens: it is zero where nothing is used, and sums of int64 add it up.
  pub record IsCount (f : DayUsage Cost → ℕ) : Type ℓ where
    pub none_used : f (no_usage plus nought) ≡ 0
    pub adds : (a b : DayUsage Cost) → f (add_usage plus nought a b) ≡ (f a + f b) % 2 ^ 64

  -- The exact sum of what counts toward a period.
  unfoldable pub sum_over : (DayUsage Cost → ℕ) → String → Date → List (DayKey × DayUsage Cost) → ℕ
  sum_over f q now [] = 0
  sum_over f q now ((k, u) ∷ rest) =
      (if counts_toward q now k then f u else 0) + sum_over f q now rest

  total_over-sum_over :
      (f : DayUsage Cost → ℕ)
      → IsCount f
      → (q : String) (now : Date) (days : List (DayKey × DayUsage Cost)) (total : DayUsage Cost)
      → f (total_over plus nought q now days total) % 2 ^ 64
        ≡ (f total + sum_over f q now days) % 2 ^ 64
  unfolding total_over sum_over
  total_over-sum_over f c q now [] total = omega arith
  total_over-sum_over f c q now ((k, u) ∷ rest) total =
      total_over-sum_over f c q now rest _ ∙ go (counts_toward q now k)
    where
      go :
          (b : Bool)
          → (f (if b then add_usage plus nought total u else total) + sum_over f q now rest)
              % 2 ^ 64
            ≡ (f total + ((if b then f u else 0) + sum_over f q now rest)) % 2 ^ 64
      go true = omega (arith, c.adds total u)
      go false = omega arith

  -- The value of a key that counts is replaced by one that is `n` more.
  sum_over-insert :
      (f : DayUsage Cost → ℕ)
      → IsCount f
      → (q : String) (now : Date) (k : DayKey) (w : DayUsage Cost) (n : ℕ)
        (days : List (DayKey × DayUsage Cost))
      → counts_toward q now k ≡ true
      → f w ≡ (f (usage_at plus nought k days) + n) % 2 ^ 64
      → sum_over f q now (insert k w days) % 2 ^ 64 ≡ (sum_over f q now days + n) % 2 ^ 64
  unfolding sum_over insert usage_at lookup
  sum_over-insert f c q now k w n [] h more = rw h (omega (arith, c.none_used, more))
  sum_over-insert f c q now k w n ((j, v) ∷ rest) h more = elim (Bool-cases (same_day_key j k)) [
    | inl same ↦
        let hj : counts_toward q now j ≡ true =
          subst (λ i. counts_toward q now i ≡ true) (sym ((same_day_key_iff j k).0 same)) h in
        let here : f w ≡ (f v + n) % 2 ^ 64 = more ∙ rw same refl in
        rw same (rw h (rw hj (omega (arith, here))))
    | inr differ ↦
        let there : f w ≡ (f (usage_at plus nought k rest) + n) % 2 ^ 64 = more ∙ rw differ refl in
        rw differ (omega (arith, sum_over-insert f c q now k w n rest h there))
  ]

  pub aggregate-sum_over :
      (f : DayUsage Cost → ℕ)
      → IsCount f
      → (q : String) (now : Date) (u : UsageStore Cost) (days : List (DayKey × DayUsage Cost))
      → u.days ≡ some days
      → IsDated days
      → IsDate now
      → f (usage_at plus nought q (aggregate plus nought u now)) % 2 ^ 64
        ≡ sum_over f q now days % 2 ^ 64
  aggregate-sum_over f c q now u days e v w =
      rw (aggregate-total_over plus nought q now u days e v w)
        (omega (arith, total_over-sum_over f c q now days (no_usage plus nought), c.none_used))

  insert-IsDated :
      (d : Date) (w : DayUsage Cost) (days : List (DayKey × DayUsage Cost))
      → IsDate d
      → IsDated days
      → IsDated (insert (day d) w days)
  unfolding insert same_day_key
  insert-IsDated d w [] v h = (v, tt)
  insert-IsDated d w ((day e, u) ∷ rest) v h = elim (Bool-cases (same_date e d)) [
    | inl same ↦ rw same (v, h.1)
    | inr differ ↦ rw differ (h.0, insert-IsDated d w rest v h.1)
  ]
  insert-IsDated d w ((other s, u) ∷ rest) v h = insert-IsDated d w rest v h

  -- The ledger after a request, saved or not.
  abbrev pub recorded :
      Date → DayUsage Cost → List (DayKey × DayUsage Cost) → List (DayKey × DayUsage Cost)
  recorded now w days =
      insert (day now) (add_usage plus nought (usage_at plus nought (day now) days) w) days

  save_days-days :
      (u : UsageStore Cost) (st : SaveSteps Cost) (days : List (DayKey × DayUsage Cost))
      → (save_days u st days).0.days ≡ u.days
  unfolding save_days
  save_days-days u st days = elim (Option-cases (st.marshal days)) [
    | inl e ↦ rw (e, save_days) refl
    | inr (encoded, e) ↦ rw (e, save_days) refl
  ]

  -- `save` leaves the days of the store as they are.
  pub save-days : (u : UsageStore Cost) (st : SaveSteps Cost) → (save u st).0.days ≡ u.days
  unfolding save
  save-days u st = elim (Option-cases u.days) [
    | inl e ↦ rw (e, save) e
    | inr (days, e) ↦ rw (e, save) (save_days-days u st days ∙ e)
  ]

  pub record_usage_on-days :
      (now : Date) (u : UsageStore Cost) (days : List (DayKey × DayUsage Cost)) (i o : ℕ)
      (c : Option Cost) (st : SaveSteps Cost)
      → u.days ≡ some days
      → (record_usage_on plus nought u now i o c st).days
        ≡ some (recorded now (used plus nought i o c) days)
  unfolding record_usage_on
  record_usage_on-days now u days i o c st e =
      rw (e, record_usage_on) (save-days (record u { days = some _ }) st)

  pub record_usage_on-count :
      (f : DayUsage Cost → ℕ)
      → IsCount f
      → (q : String) (now : Date) (u : UsageStore Cost) (days : List (DayKey × DayUsage Cost))
        (i o : ℕ) (c : Option Cost) (st : SaveSteps Cost)
      → u.days ≡ some days
      → IsDated days
      → IsDate now
      → in_period q now now ≡ true
      → f (
            usage_at plus nought q
              (aggregate plus nought (record_usage_on plus nought u now i o c st) now))
          % 2 ^ 64
        ≡ (f (usage_at plus nought q (aggregate plus nought u now)) + f (used plus nought i o c))
          % 2 ^ 64
  record_usage_on-count f n q now u days i o c st e v w h =
      let used_now = used plus nought i o c in
      let after =
        aggregate-sum_over f n q now (record_usage_on plus nought u now i o c st) _
          (record_usage_on-days now u days i o c st e) (insert-IsDated now _ days w v) w in
      let before = aggregate-sum_over f n q now u days e v w in
      let more =
        sum_over-insert f n q now (day now) _ (f used_now) days (unfold counts_toward in h)
          (n.adds (usage_at plus nought (day now) days) used_now) in
      omega (arith, after, before, more)
