-- ===== src/Tests/Terminal.antt =====
-- daemon/pod/container.go: copyEscapable on a terminal where the detach keys are typed.
use hyperd.Prelude.{ℕ, ◌≡◌, refl, Option, none, some, List, [], ◌∷◌, ◌++◌}
use hyperd.Prelude.Text.{Text, codes}
use hyperd.Escape.{Error, Read, or_default, Outcome, copy_escapable}
use hyperd.Escape.Ends.{copy_escapable_ends}
use hyperd.Escape.Transparent.{keep, Copied, copy_escapable_transparent}

abbrev typed_in : Text → Read
typed_in t = record { bytes = t; error = none }

-- A command, a half of the keys, and then the keys.
abbrev session : List Read
session =
    typed_in (codes "ls")
    ∷ typed_in (16 ∷ [])
    ∷ typed_in (codes "x")
    ∷ typed_in (16 ∷ [])
    ∷ typed_in (17 ∷ [])
    ∷ []

-- A destination that takes one byte at a time.
abbrev narrow : Text → Text → Text × ℕ × Option Error
narrow [] w = (w, 0, none)
narrow (c ∷ cs) w = (w ++ (c ∷ []), 1, none)

copy_escapable_ends_example :
    (outcome : Outcome narrow) × (copy_escapable narrow [] [] session ≡ some outcome)
copy_escapable_ends_example = copy_escapable_ends narrow [] [] session

copy_escapable_transparent_example :
    (outcome : Outcome keep) × (copy_escapable keep [] [] session ≡ some outcome)
    × Copied (or_default []) 0 [] session outcome
copy_escapable_transparent_example =
    copy_escapable_transparent [] [] session (refl, (refl, (refl, (refl, (refl, tt)))))
