-- ===== src/Usage/Saving.antt =====
-- internal/gateway/usage.go: what `save` leaves on the disk, wherever it stops.
use valyrium.Base.{
  All, Bool, Bool-cases, List, Option, Option-cases, [], ap, arith, false, if◌then◌else◌, inl, inr,
  length, none, refl, some, suc, take, true, zero, ℕ, ◌<◌, ◌∙◌, ◌∷◌, ◌≡◌,
}
use valyrium.Usage.{
  DayKey, DayUsage, Disk, LedgerFile, SaveStep, SaveSteps, Unmarshal, UsageStore, chmods, closes,
  contents, creates, disk_step, load_usage_file, record_usage_on, renames, run_steps, save,
  save_days, save_plan, start_disk, syncs, used, writes,
}
use valyrium.Usage.Calendar.{Date}
use valyrium.Usage.Recording.{recorded}

unfoldable is_rename : SaveStep → Bool
is_rename creates = false
is_rename writes = false
is_rename syncs = false
is_rename closes = false
is_rename chmods = false
is_rename renames = true

-- The calls before the last one.
take-is_rename : (n : ℕ) → n < 6 → All (λ x. is_rename x ≡ false) (take n save_plan)
unfolding is_rename
take-is_rename zero h = tt
take-is_rename (suc zero) h = (refl, tt)
take-is_rename (suc (suc zero)) h = (refl, (refl, tt))
take-is_rename (suc (suc (suc zero))) h = (refl, (refl, (refl, tt)))
take-is_rename (suc (suc (suc (suc zero)))) h = (refl, (refl, (refl, (refl, tt))))
take-is_rename (suc (suc (suc (suc (suc zero))))) h = (refl, (refl, (refl, (refl, (refl, tt)))))
take-is_rename (suc (suc (suc (suc (suc (suc n)))))) h = absurd (omega arith)

either-file :
    (b : Bool) (x y : Disk) (f : LedgerFile)
    → x.file ≡ f
    → y.file ≡ f
    → (if b then x else y).file ≡ f
either-file true x y f h k = h
either-file false x y f h k = k

module _ {ℓ} {Cost : Type ℓ} (st : SaveSteps Cost) (encoded : List ℕ) where
  disk_step-file :
      (x : SaveStep) (d : Disk) → is_rename x ≡ false → (disk_step st encoded x d).file ≡ d.file
  unfolding disk_step is_rename
  disk_step-file creates d h = either-file (st.succeeds creates) _ _ d.file refl refl
  disk_step-file writes d h = either-file (st.succeeds writes) _ _ d.file refl refl
  disk_step-file syncs d h = refl
  disk_step-file closes d h = refl
  disk_step-file chmods d h = refl
  disk_step-file renames d h = absurd (cc h)

  run_steps-file :
      (xs : List SaveStep) (d : Disk)
      → All (λ x. is_rename x ≡ false) xs
      → (run_steps st encoded xs d).0.file ≡ d.file
  unfolding run_steps
  run_steps-file [] d h = refl
  run_steps-file (x ∷ xs) d h = elim (Bool-cases (st.succeeds x)) [
    | inl ok ↦
        rw (ok, run_steps)
          (run_steps-file xs (disk_step st encoded x d) h.1 ∙ disk_step-file x d h.0)
    | inr bad ↦ rw (bad, run_steps) (disk_step-file x d h.0)
  ]

  -- Either all went well and the file is the encoding, or something failed and it is `file` still.
  abbrev Settled : LedgerFile → Disk × Bool → Type 0
  Settled file (d, true) = d.file ≡ contents encoded
  Settled file (d, false) = d.file ≡ file

  run_steps-Settled :
      (file : LedgerFile) (x : SaveStep) (xs : List SaveStep) (d : Disk)
      → (st.succeeds x ≡ true → Settled file (run_steps st encoded xs (disk_step st encoded x d)))
      → (st.succeeds x ≡ false → (disk_step st encoded x d).file ≡ file)
      → Settled file (run_steps st encoded (x ∷ xs) d)
  unfolding run_steps
  run_steps-Settled file x xs d good bad = elim (Bool-cases (st.succeeds x)) [
    | inl e ↦ rw (e, run_steps) (good e)
    | inr e ↦ rw (e, run_steps) (bad e)
  ]

  renamed :
      (file : LedgerFile) (d : Disk)
      → d.temp ≡ some encoded
      → d.file ≡ file
      → Settled file (run_steps st encoded (renames ∷ []) d)
  unfolding run_steps disk_step
  renamed file d at old =
      run_steps-Settled file renames [] d (λ e. rw (e, disk_step, at) refl)
        (λ e. rw (e, disk_step) old)

  written-Settled :
      (file : LedgerFile) (d : Disk)
      → d.file ≡ file
      → Settled file (run_steps st encoded (writes ∷ syncs ∷ closes ∷ chmods ∷ renames ∷ []) d)
  unfolding disk_step
  written-Settled file d h =
      run_steps-Settled file writes _ d
        (λ e.
          let d' : Disk = disk_step st encoded writes d in
          let at : d'.temp ≡ some encoded = rw (e, disk_step) refl in
          let old : d'.file ≡ file = disk_step-file writes d (unfold is_rename in refl) ∙ h in
          run_steps-Settled file syncs _ d'
            (λ e₁.
              run_steps-Settled file closes _ d'
                (λ e₂.
                  run_steps-Settled file chmods _ d' (λ e₃. renamed file d' at old) (λ e₃. old))
                (λ e₂. old))
            (λ e₁. old))
        (λ e. disk_step-file writes d (unfold is_rename in refl) ∙ h)

  save_plan-Settled :
      (file : LedgerFile)
      → Settled file (run_steps st encoded save_plan (record { file = file; temp = none }))
  save_plan-Settled file =
      let d : Disk = record { file = file; temp = none } in
      let old = disk_step-file creates d (unfold is_rename in refl) in
      run_steps-Settled file creates _ d
        (λ e. written-Settled file (disk_step st encoded creates d) old) (λ e. old)

module _ {ℓ} {Cost : Type ℓ} (unmarshal : Unmarshal Cost) where
  -- What is read of the file after a save.
  read-Settled :
      (st : SaveSteps Cost) (encoded : List ℕ) (file : LedgerFile) (r : Disk × Bool)
      → 0 < length encoded
      → Settled st encoded file r
      → load_usage_file unmarshal r.0.file
        ≡ (if r.1 then unmarshal encoded else load_usage_file unmarshal file)
  unfolding load_usage_file
  read-Settled st [] file (d, true) h v = absurd (omega (arith, h))
  read-Settled st (b ∷ bs) file (d, true) h v = rw (v, load_usage_file) refl
  read-Settled st encoded file (d, false) h v = ap (load_usage_file unmarshal) v

  save_days-read :
      (u : UsageStore Cost) (st : SaveSteps Cost) (days : List (DayKey × DayUsage Cost))
      → ((encoded : List ℕ)
          → st.marshal days ≡ some encoded
          → (0 < length encoded) × (unmarshal encoded ≡ some days))
      → let (u', ok) = save_days u st days in
        load_usage_file unmarshal u'.file
        ≡ (if ok then some days else load_usage_file unmarshal u.file)
  unfolding save_days start_disk
  save_days-read u st days json = elim (Option-cases (st.marshal days)) [
    | inl e ↦ rw (e, save_days) refl
    | inr (encoded, e) ↦
        rw (e, save_days)
          (let (full, back) = json encoded e in
            let r = run_steps st encoded save_plan (record { file = u.file; temp = none }) in
            read-Settled st encoded u.file r full (save_plan-Settled st encoded u.file)
            ∙ ap (λ w. if r.1 then w else load_usage_file unmarshal u.file) back)
  ]

module _ {ℓ} {Cost : Type ℓ} (plus : Cost → Cost → Cost) (nought : Cost)
    (unmarshal : Unmarshal Cost) where
  record_usage_on-save :
      (now : Date) (u : UsageStore Cost) (days : List (DayKey × DayUsage Cost)) (i o : ℕ)
      (c : Option Cost) (st : SaveSteps Cost)
      → u.days ≡ some days
      → record_usage_on plus nought u now i o c st
        ≡ (save_days
            (record u { days = some (recorded plus nought now (used plus nought i o c) days) })
            st
            (recorded plus nought now (used plus nought i o c) days)).0
  unfolding record_usage_on save
  record_usage_on-save now u days i o c st e = rw (e, record_usage_on) refl

  -- What a restart reads after a recorded request, whichever calls of `save` fail: if `save` reports
  -- success the ledger with that request, and otherwise the one that was there before; so it is where
  -- the process ends between two calls before the rename. This is for a JSON encoding of the
  -- ledger that is not empty and decodes to it again.
  pub record_usage_on-load_usage_file :
      (now : Date) (u : UsageStore Cost) (days : List (DayKey × DayUsage Cost)) (i o : ℕ)
      (c : Option Cost) (st : SaveSteps Cost) (n : ℕ) (encoding : List ℕ)
      → u.days ≡ some days
      → n < 6
      → ((encoded : List ℕ)
          → st.marshal (recorded plus nought now (used plus nought i o c) days) ≡ some encoded
          → (0 < length encoded)
            × (unmarshal encoded ≡ some (recorded plus nought now (used plus nought i o c) days)))
      → let after = recorded plus nought now (used plus nought i o c) days in
        let ok = (save (record u { days = some after }) st).1 in
        (load_usage_file unmarshal (record_usage_on plus nought u now i o c st).file
          ≡ (if ok then some after else load_usage_file unmarshal u.file))
        × (load_usage_file unmarshal
              (run_steps st encoding (take n save_plan) (start_disk u)).0.file
            ≡ load_usage_file unmarshal u.file)
  unfolding save start_disk
  record_usage_on-load_usage_file now u days i o c st n encoding e h json = (
    rw (record_usage_on-save now u days i o c st e)
        (save_days-read unmarshal (record u { days = some _ }) st _ json),
    ap (load_usage_file unmarshal)
        (run_steps-file st encoding (take n save_plan) _ (take-is_rename n h)),
  )
