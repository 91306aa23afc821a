-- ===== src/Command/Dispatch.antt =====
-- cmd/valyrium/main.go: what the command line without a subcommand means.
use valyrium.Base.{List, String, [], false, refl, true, ◌∷◌, ◌≡◌}
use package.text.Mathlib.Text.{starts_with}
use valyrium.Command.{call, commands, is_help_flag, is_version_flag, run}

-- No arguments run the gateway, and so do arguments that start with a flag other than those that print;
-- it gets them all, as if `serve` stood before them.
pub run-serve :
    (arg : String) (args : List String)
    → starts_with arg "-" ≡ true
    → is_version_flag arg ≡ false
    → is_help_flag arg ≡ false
    → (run [] commands ≡ run ("serve" ∷ []) commands)
      × (run (arg ∷ args) commands ≡ run ("serve" ∷ arg ∷ args) commands)
unfolding run call is_version_flag is_help_flag
run-serve arg args flag v h = (refl, rw v (rw h (rw flag refl)))
