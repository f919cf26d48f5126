-- ===== src/Lsh/Interpret/Branches.antt =====
-- `run_job` of lsh/parser.c: a property of its ends from one of each of its branches.
use akiso.Prelude.{
  ◌≡◌, refl, subst, Bool-cases, Option-cases, some, List, [], ◌∷◌, inl, inr, ◌⊎◌, Bytes, All,
  strcmp_eq, ℕ,
}
use akiso.Prelude.Run.{Run, ◌>>=◌, Always}
use akiso.Lsh.Job.{Process, Job}
use akiso.Lsh.Execute.{pr_syntax_error, Shell, Ended, returned}
use akiso.Lsh.Execute.Builtins.{Answers, start_job}
use akiso.Lsh.Interpret.{Command, builtins, find_builtin, destroy_after, run_job}
use akiso.Lsh.Interpret.Whole.{some_command}

List-cases {ℓ} :
    {A : Type ℓ} (xs : List A) → (xs ≡ []) ⊎ ((x : A) × (rest : List A) × (xs ≡ x ∷ rest))
List-cases [] = inl refl
List-cases (x ∷ rest) = inr (x, rest, refl)

find_builtin-All :
    (P : Command → Type 0) (name : Bytes) (table : List (Bytes × Command)) (command : Command)
    → All (λ (_, c). P c) table
    → find_builtin name table ≡ some command
    → P command
unfolding find_builtin
find_builtin-All P name [] command all found = cc
find_builtin-All P name ((known, c) ∷ table) command all found =
    elim (Bool-cases (strcmp_eq name known)) [
      | inl hit ↦ subst P (some_command c command (rw hit at found)) all.0
      | inr miss ↦ find_builtin-All P name table command all.1 (rw miss at found)
    ]

alone_or_freed-Always :
    (P : Ended → Type 0) {alone freed : Run Ended} (processes : List Process)
    → Always freed P
    → Always alone P
    → Always (elim processes as (λ _. Run Ended) [ q ∷ _ ↦ freed | [] ↦ alone ]) P
alone_or_freed-Always P [] freed alone = alone
alone_or_freed-Always P (q ∷ others) freed alone = freed

pub run_job-Always :
    (P : Ended → Type 0) (a : ℕ) (j : Job) (k : Answers) (s : Shell)
    → All
        (λ (_, command). (args : List Bytes) → Always (command args k s >>= destroy_after a) P)
        builtins
    → Always (destroy_after a (returned pr_syntax_error s)) P
    → Always (start_job a k s) P
    → Always (run_job a j k s) P
unfolding run_job
run_job-Always P a j k s commands freed started = elim (List-cases j.pipeline) [
  | inl no_process ↦ rw (run_job, no_process) (λ e h. cc)
  | inr (p, others, pipeline_is) ↦ elim (List-cases p.arguments) [
    | inl no_arg ↦ rw (run_job, pipeline_is, no_arg) (λ e h. cc)
    | inr (arg, args, arguments_are) ↦ elim (Option-cases arg) [
      | inl no_name ↦ rw (run_job, pipeline_is, arguments_are, no_name) (λ e h. cc)
      | inr (name, is_name) ↦ elim (Option-cases (find_builtin name builtins)) [
        | inl unknown ↦ rw (run_job, pipeline_is, arguments_are, is_name, unknown) started
        | inr (command, known) ↦
            rw (run_job, pipeline_is, arguments_are, is_name, known)
              (alone_or_freed-Always P others freed (
                find_builtin-All
                  (λ c. (given : List Bytes) → Always (c given k s >>= destroy_after a) P) name
                  builtins command commands known _))
      ]
    ]
  ]
]
