-- ===== src/Lsh/Interpret/Running.antt =====
-- What the end of `interpret_line` of lsh/parser.c leaves of a job: a built-in command frees it, and
-- `start_job` may keep it.
use akiso.Prelude.{
  ℕ, ◌+◌, ◌<◌, ◌≡◌, ◌≢◌, refl, Bool, true, false, Bool-cases, ◌||◌, List, [], ◌∷◌, arith, inl, inr,
  ◌⊎◌, Bytes, length, All, strcmp_eq,
}
use akiso.Prelude.Run.{Gives, Gives-bind, Gives-Always}
use akiso.Lsh.Job.Handles.{IsLive}
use akiso.Lsh.Execute.{Shell}
use akiso.Lsh.Execute.Builtins.{Answers, cd_to, do_cd, print_jobs, do_jobs, do_exit}
use akiso.Lsh.Execute.Commands.{IsEndedValid, do_fg-IsValid, do_bg-IsValid}
use akiso.Lsh.Execute.Leaving.{
  EndsUnlisted, do_fg-EndsUnlisted, do_bg-EndsUnlisted, do_jobs-EndsUnlisted, do_cd-EndsUnlisted,
}
use akiso.Lsh.Execute.Staying.{IsUnlisted}
use akiso.Lsh.Execute.Valid.{count, count_self, IsValid, load-Gives}
use akiso.Lsh.Interpret.{Command, builtins}

print_jobs-IsValid :
    (i : ℕ) (handles : List ℕ) (s : Shell)
    → IsValid s
    → ((a : ℕ) → 0 < count a handles → IsLive s.heap a)
    → Gives (print_jobs i handles s) IsValid
unfolding print_jobs
print_jobs-IsValid i [] s valid live = (s, refl, valid)
print_jobs-IsValid i (a ∷ handles) s valid live =
    Gives-bind (load-Gives a s.heap (live a (omega (arith, count_self a handles))))
      (λ job at. print_jobs-IsValid (i + 1) handles _ valid (λ b on. live b (omega arith)))

do_jobs-IsValid :
    (args : List Bytes) (k : Answers) (s : Shell)
    → IsValid s
    → Gives (do_jobs args k s) IsEndedValid
unfolding do_jobs
do_jobs-IsValid args k s valid =
    Gives-bind
      (print_jobs-IsValid 1 s.current_job s valid
        (λ a on. let (once, live) = valid a in live (omega arith)))
      (λ s' valid'. (_, refl, valid'))

cd_to-IsValid :
    (path : Bytes) (k : Answers) (s : Shell) → IsValid s → Gives (cd_to path k s) IsEndedValid
cd_to-IsValid path k s valid = elim (Bool-cases k.changed) [
  | inl well ↦ rw well (_, refl, valid)
  | inr failed ↦ rw failed (_, refl, valid)
]

do_cd-IsValid :
    (args : List Bytes) (k : Answers) (s : Shell)
    → args ≢ []
    → IsValid s
    → Gives (do_cd args k s) IsEndedValid
unfolding do_cd
do_cd-IsValid [] k s some_args valid = absurd (some_args refl)
do_cd-IsValid (name ∷ []) k s some_args valid = cd_to-IsValid k.home k s valid
do_cd-IsValid (name ∷ arg ∷ []) k s some_args valid = cd_to-IsValid arg k s valid
do_cd-IsValid (name ∷ arg ∷ other ∷ others) k s some_args valid = (_, refl, valid)

-- The commands that take a job off the list.
abbrev pub takes_job : Bytes → Bool
takes_job name = strcmp_eq name (b'f' ∷ b'g' ∷ []) || strcmp_eq name (b'b' ∷ b'g' ∷ [])

-- The command keeps the state valid, and leaves a job alone that is on no list.
abbrev pub IsSafe : Bytes × Command → Type 0
IsSafe (known, command) =
    (args : List Bytes) (k : Answers) (s : Shell) (b : ℕ)
    → args ≢ []
    → (0 < length s.current_job) ⊎ (takes_job known ≡ false)
    → IsValid s
    → IsUnlisted b s
    → Gives (command args k s) (λ e. IsEndedValid e × EndsUnlisted b e)

pub builtins-IsSafe : All IsSafe builtins
unfolding do_exit
builtins-IsSafe = (
  (λ args k s b some_args job valid h.
      Gives-Always (do_cd-IsValid args k s some_args valid) (do_cd-EndsUnlisted b args k s h)),
  (
    (λ args k s b some_args job valid h.
        Gives-Always (do_jobs-IsValid args k s valid) (do_jobs-EndsUnlisted b args k s h)),
    (
      (λ args k s b some_args job valid h. elim job [
        | inl some_job ↦
            Gives-Always (do_fg-IsValid args k s valid some_job) (do_fg-EndsUnlisted b args k s h)
        | inr other ↦ absurd (true_false other)
      ]),
      (
        (λ args k s b some_args job valid h. elim job [
          | inl some_job ↦
              Gives-Always (do_bg-IsValid args k s valid some_job) (do_bg-EndsUnlisted b args k s h)
          | inr other ↦ absurd (true_false other)
        ]),
        ((λ args k s b some_args job valid h. (_, refl, (valid, h))), tt),
      ),
    ),
  ),
)
  where
    true_false : true ≡ false → ⊥
    true_false h = cc
