-- ===== src/Lsh/Interpret/Whole.antt =====
-- A job on its way through the end of `interpret_line` of lsh/parser.c.
use akiso.Prelude.{
  ℕ, zero, suc, ◌+◌, ◌<◌, ◌≡◌, ◌≢◌, refl, sym, ap, ap₂, ◌∙◌, subst, true, false, Bool-cases, Option,
  none, some, Option-cases, List, [], ◌∷◌, arith, ◌==◌, ==_iff, inl, inr, ◌⊎◌, Bytes, length, All,
  strcmp_eq, take,
}
use akiso.Prelude.Run.{Run, Gives, Gives-bind}
use akiso.Lsh.Job.{Process, Job, put_job}
use akiso.Lsh.Execute.{pr_syntax_error, Shell, Ended, returned, jumped}
use akiso.Lsh.Execute.Builtins.{Answers}
use akiso.Lsh.Execute.Commands.{IsEndedValid}
use akiso.Lsh.Execute.Launch.Linking.{IsPlain}
use akiso.Lsh.Execute.Launch.Giving.{IsForking}
use akiso.Lsh.Execute.Launch.Ready.{IsKernel, IsStandard}
use akiso.Lsh.Execute.Leaving.{EndsUnlisted}
use akiso.Lsh.Execute.Starting.{start_job-IsValid}
use akiso.Lsh.Execute.Staying.{IsUnlisted}
use akiso.Lsh.Execute.Valid.{count, IsValid, destroy_job-IsLive, IsLive-free}
use akiso.Lsh.Interpret.{Command, builtins, find_builtin, destroy_after, args_of, run_job}
use akiso.Lsh.Interpret.Running.{takes_job, IsSafe, builtins-IsSafe}

strcmp_eq_lem : (a b : Bytes) → strcmp_eq a b ≡ true → a ≡ b
strcmp_eq_lem [] [] h = refl
strcmp_eq_lem [] (c ∷ b) h = cc
strcmp_eq_lem (c ∷ a) [] h = cc
strcmp_eq_lem (c ∷ a) (d ∷ b) h = elim (Bool-cases (c == d)) [
  | inl same ↦ ap₂ ◌∷◌ ((==_iff c d).0 same) (strcmp_eq_lem a b (rw same at h))
  | inr apart ↦ let refuted : false ≡ true = rw apart at h in cc
]

pub some_command : (c d : Command) → some c ≡ some d → c ≡ d
some_command c d h = cc

-- What is found is one of the commands, under its name.
find_builtin-IsSafe :
    (name : Bytes) (table : List (Bytes × Command)) (command : Command)
    → All IsSafe table
    → find_builtin name table ≡ some command
    → IsSafe (name, command)
unfolding find_builtin
find_builtin-IsSafe name [] command safe found = cc
find_builtin-IsSafe name ((known, c) ∷ table) command safe found =
    elim (Bool-cases (strcmp_eq name known)) [
      | inl hit ↦
          let e : c ≡ command = some_command c command (rw hit at found) in
          subst (λ n. IsSafe (n, command)) (sym (strcmp_eq_lem name known hit))
            (subst (λ m. IsSafe (known, m)) e safe.0)
      | inr miss ↦ find_builtin-IsSafe name table command safe.1 (rw miss at found)
    ]

-- A job that is on no list can be freed.
free-IsValid :
    (a : ℕ) (s : Shell)
    → IsValid s
    → IsUnlisted a s
    → IsValid (record s { heap = put_job a none s.heap })
free-IsValid a s valid (live, none_listed) b =
    let (once, found) = valid b in
    (
      once,
      λ on. elim (Bool-cases (b == a)) [
        | inl same ↦
            let e = (==_iff b a).0 same in
            let e1 = ap (λ c. count c s.current_job) e in
            let e2 = ap (λ c. count c s.pending_jobs) e in
            let e3 = ap (λ c. count c s.pending_removed_jobs) e in absurd (omega arith)
        | inr apart ↦ IsLive-free s.heap a b apart (found on)
      ],
    )

destroy_after-IsValid :
    (a : ℕ) (done : Ended)
    → IsEndedValid done
    → EndsUnlisted a done
    → Gives (destroy_after a done) IsEndedValid
unfolding destroy_after
destroy_after-IsValid a (returned ret s) valid h =
    rw (destroy_job-IsLive a s.heap h.0) (_, refl, free-IsValid a s valid h)
destroy_after-IsValid a (jumped s) valid h = (_, refl, valid)

take_some : (n : ℕ) (x : Bytes) (xs : List Bytes) → 0 < n → take n (x ∷ xs) ≢ []
take_some zero x xs h e = omega arith
take_some (suc n) x xs h e = cc

alone_or_freed :
    {alone freed : Run Ended} (processes : List Process)
    → Gives freed IsEndedValid
    → Gives alone IsEndedValid
    → Gives (elim processes as (λ _. Run Ended) [ q ∷ _ ↦ freed | [] ↦ alone ]) IsEndedValid
alone_or_freed [] freed alone = alone
alone_or_freed (q ∷ others) freed alone = freed

-- A valid state with a new job of commands without redirections, with names of at most 127 bytes,
-- stays valid when the job is run, and nothing faults, whatever the kernel answers, if its new
-- descriptors are free, its pids positive and the standard input and output open, and there is a
-- current job if the command is `fg` or `bg`: a built-in command runs and the job is freed, one in
-- a pipeline only frees it, and another job is started.
pub run_job-IsValid :
    (a : ℕ) (k : Answers) (s : Shell) (j : Job) (p : Process) (processes : List Process)
    (name : Bytes) (others : List (Option Bytes))
    → IsValid s
    → s.heap.job_at a ≡ some j
    → count a s.current_job + count a s.pending_jobs + count a s.pending_removed_jobs ≡ 0
    → j.pipeline ≡ p ∷ processes
    → All IsPlain (p ∷ processes)
    → p.arguments ≡ some name ∷ others
    → 0 < p.argc
    → (0 < length s.current_job) ⊎ (takes_job name ≡ false)
    → IsKernel k.kernel
    → IsForking k.kernel
    → IsStandard k.table
    → Gives (run_job a j k s) IsEndedValid
unfolding run_job
run_job-IsValid a k s j p processes name others valid here none_listed pipeline_is simple args_are
      some_args job law forking standard =
    elim (Option-cases (find_builtin name builtins)) [
      | inl unknown ↦
          rw (run_job, pipeline_is, args_are, unknown)
            (start_job-IsValid a k s j p processes valid here (omega arith) pipeline_is simple law
              forking standard)
      | inr (command, known) ↦
          let safe = find_builtin-IsSafe name builtins command builtins-IsSafe known in
          let unlisted : IsUnlisted a s = ((j, here), none_listed) in
          let args : args_of p.arguments ≡ name ∷ args_of others = ap args_of args_are in
          let not_nil : take p.argc (args_of p.arguments) ≢ [] = λ e.
            take_some p.argc name (args_of others) some_args (ap (take p.argc) (sym args) ∙ e) in
          rw (run_job, pipeline_is, args_are, known)
            (alone_or_freed processes
              (destroy_after-IsValid a (returned pr_syntax_error s) valid unlisted)
              (Gives-bind
                (safe (take p.argc (args_of p.arguments)) k s a not_nil job valid unlisted)
                (λ done (valid', h). destroy_after-IsValid a done valid' h)))
    ]
