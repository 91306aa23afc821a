-- ===== src/Resume/Tests.antt =====
-- The theorems on the store at a store of two conversations.
use valyrium.Base.{List, [], arith, false, lookup, refl, some, true, ◌∷◌, ◌≡◌}
use valyrium.Resume.{ResumeStore, find, new_resume_store}
use valyrium.Resume.Spec.{cache_get, cache_put, cached, without}
use valyrium.Resume.Valid.{IsValid, pointer}
use valyrium.Resume.Refines.{Call, cache_run, gets, puts, run, run-new}

abbrev two : ResumeStore
two = record {
  max = 2;
  order =
      record { id = 1; key = "b"; cli_session_id = "s2" }
      ∷ record { id = 0; key = "a"; cli_session_id = "s1" }
      ∷ [];
  entries = ("b", 1) ∷ ("a", 0) ∷ [];
  next_id = 2;
}

two-IsValid : IsValid two
unfolding pointer find lookup
two-IsValid = record {
  positive = omega arith;
  bounded = omega arith;
  distinct = (omega arith, refl, refl, (omega arith, refl, refl, tt));
  agree = λ k. refl;
}

abbrev history : List Call
history =
    puts "a" "s1" ∷ puts "b" "s2" ∷ gets "a" ∷ puts "c" "s3" ∷ gets "b" ∷ gets "a" ∷ gets "c" ∷ []

run_history : cache_run 2 [] history ≡ ("s1", true) ∷ ("", false) ∷ ("s1", true) ∷ ("s3", true) ∷ []
unfolding cache_run cache_get cache_put cached without
run_history = refl

run-new_example : run (some (new_resume_store 2)) history ≡ cache_run 2 [] history
run-new_example = run-new 2 history
