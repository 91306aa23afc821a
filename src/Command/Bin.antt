-- ===== src/Command/Bin.antt =====
-- cmd/valyrium/claudebin.go: `resolveClaudeBin`. The test of `isExecutable` and `exec.LookPath` are functions
-- of the file system, and the paths use "/".
use valyrium.Base.{
  All, Bool, Bool-cases, List, Option, Option-cases, String, [], false, if◌then◌else◌, inl, inr,
  none, some, subst, true, ◌+t◌, ◌∷◌, ◌≡◌, ◌⊎◌,
}
use valyrium.Prompt.Format.{contains}

pub data BinError : Type 0 where
  not_executable : String → BinError
  not_found : String → List String → BinError

unfoldable pub candidate_bin_dirs : Option String → List String
candidate_bin_dirs none = "/opt/homebrew/bin" ∷ "/usr/local/bin" ∷ []
candidate_bin_dirs (some home) =
    (home +t "/.local/bin")
    ∷ (home +t "/.claude/local")
    ∷ "/opt/homebrew/bin"
    ∷ "/usr/local/bin"
    ∷ []

-- The loop over the directories.
unfoldable pub probe : (String → Bool) → String → List String → Option String
probe executable bin [] = none
probe executable bin (dir ∷ dirs) =
    let rest = probe executable bin dirs in
    if executable (dir +t "/" +t bin) then some (dir +t "/" +t bin) else rest

unfoldable pub probed : (String → Bool) → String → List String → BinError ⊎ String
probed executable bin dirs = elim (probe executable bin dirs) [
  | none ↦ inl (not_found bin dirs)
  | some path ↦ inr path
]

unfoldable pub resolve_claude_bin :
    (String → Bool) → (String → Option String) → Option String → String → BinError ⊎ String
resolve_claude_bin executable look_path home bin =
    if contains bin "/"
    then if executable bin then inr bin else inl (not_executable bin)
    else (elim (look_path bin) [
      | some path ↦ inr path
      | none ↦ probed executable bin (candidate_bin_dirs home)
    ])

-- What a result says.
unfoldable pub Runs :
    (String → Bool) → (String → Option String) → String → BinError ⊎ String → Type 0
Runs executable look_path bin (inr path) = (executable path ≡ true) ⊎ (look_path bin ≡ some path)
Runs executable look_path bin (inl (not_executable b)) = executable bin ≡ false
Runs executable look_path bin (inl (not_found b dirs)) =
    (look_path bin ≡ none) × All (λ dir. executable (dir +t "/" +t bin) ≡ false) dirs

-- What the loop answers.
Says : (String → Bool) → String → List String → Option String → Type 0
Says executable bin dirs none = All (λ dir. executable (dir +t "/" +t bin) ≡ false) dirs
Says executable bin dirs (some path) = executable path ≡ true

Says-cons :
    (executable : String → Bool) (bin dir : String) (dirs : List String) (o : Option String)
    → executable (dir +t "/" +t bin) ≡ false
    → Says executable bin dirs o
    → Says executable bin (dir ∷ dirs) o
unfolding Says
Says-cons executable bin dir dirs none e h = (e, h)
Says-cons executable bin dir dirs (some path) e h = h

probe-Says :
    (executable : String → Bool) (bin : String) (dirs : List String)
    → Says executable bin dirs (probe executable bin dirs)
unfolding probe Says
probe-Says executable bin [] = tt
probe-Says executable bin (dir ∷ dirs) = elim (Bool-cases (executable (dir +t "/" +t bin))) [
  | inl here ↦ rw here here
  | inr not_here ↦ rw not_here (
      Says-cons executable bin dir dirs (probe executable bin dirs) not_here
        (probe-Says executable bin dirs))
]

probed-Runs :
    (executable : String → Bool) (look_path : String → Option String) (bin : String)
    (dirs : List String)
    → look_path bin ≡ none
    → Runs executable look_path bin (probed executable bin dirs)
unfolding probed Runs Says
probed-Runs executable look_path bin dirs missing =
    elim (Option-cases (probe executable bin dirs)) [
      | inl e ↦
          rw (e, probed)
            (missing, subst (Says executable bin dirs) e (probe-Says executable bin dirs))
      | inr (path, e) ↦
          rw (e, probed) (inl (subst (Says executable bin dirs) e (probe-Says executable bin dirs)))
    ]

-- A name that is resolved gives a file that is executable, or what `exec.LookPath` says; and the two
-- errors say the truth: the path that was configured is not executable, or the name is on no PATH
-- and in none of the directories that the error lists.
pub resolve_claude_bin-Runs :
    (executable : String → Bool) (look_path : String → Option String) (home : Option String)
    (bin : String)
    → Runs executable look_path bin (resolve_claude_bin executable look_path home bin)
unfolding resolve_claude_bin Runs
resolve_claude_bin-Runs executable look_path home bin = elim (Bool-cases (contains bin "/")) [
  | inl path ↦ elim (Bool-cases (executable bin)) [
    | inl e ↦ rw (path, resolve_claude_bin) (rw (e, resolve_claude_bin) (inl e))
    | inr e ↦ rw (path, resolve_claude_bin) (rw (e, resolve_claude_bin) e)
  ]
  | inr name ↦ elim (Option-cases (look_path bin)) [
    | inl e ↦
        rw (name, resolve_claude_bin)
          (rw (e, resolve_claude_bin)
            (probed-Runs executable look_path bin (candidate_bin_dirs home) e))
    | inr (path, e) ↦ rw (name, resolve_claude_bin) (rw (e, resolve_claude_bin) (inr e))
  ]
]
