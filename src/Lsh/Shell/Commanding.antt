-- ===== src/Lsh/Shell/Commanding.antt =====
-- The commands of lsh/execute.c, `interpret_line` and the loop of lsh/main.c put no job at a free
-- address, but for the one that `interpret_line` allocates.
use akiso.Prelude.{
  ℕ, ◌+◌, Bool, true, false, Bool-cases, none, some, List, [], ◌∷◌, inl, inr, Bytes, if◌then◌else◌,
  All,
}
use akiso.Prelude.Run.{Run, ◌>>=◌, Always, Always-ok, Always-bind}
use akiso.Lsh.Job.{Heap, load}
use akiso.Lsh.Execute.{Shell, Found, bad_argument, absent, lost, handle, Ended, returned, jumped}
use akiso.Lsh.Execute.Builtins.{
  Answers, cd_to, launched, do_cd, print_jobs, do_jobs, fg_handle, do_fg, bg_handle, do_bg, do_exit,
  start_job,
}
use akiso.Lsh.Execute.Launch.Whole.{start_job_internal}
use akiso.Lsh.Execute.Staying.{any}
use akiso.Lsh.Interpret.{builtins, destroy_after}
use akiso.Lsh.Shell.Shrinking.{
  IsWithin, EndsWithin, update-Within, destroy_job-Within, launch_job-IsWithin,
  get_job_handle-IsWithin,
}

module _ (h : Heap) where
  launched-EndsWithin : (p : Shell × Bool) → IsWithin h (p.0) → EndsWithin h (launched p)
  launched-EndsWithin (s, true) within = within
  launched-EndsWithin (s, false) within = within

  fg_handle-EndsWithin :
      (k : Answers) (found : Found) (s : Shell)
      → IsWithin h s
      → Always (fg_handle found k s) (EndsWithin h)
  unfolding fg_handle
  fg_handle-EndsWithin k bad_argument s within = Always-ok (EndsWithin h) within
  fg_handle-EndsWithin k absent s within = Always-ok (EndsWithin h) within
  fg_handle-EndsWithin k lost s within = λ a e. cc
  fg_handle-EndsWithin k (handle a) s within = Always-bind (any (load a s.heap)) (λ job _.
      elim (Bool-cases k.given) [
        | inr refused ↦ rw refused (Always-ok (EndsWithin h) within)
        | inl given ↦ rw given (
            Always-bind (update-Within a _ h s.heap within) (λ heap within'.
              Always-bind (launch_job-IsWithin h (some a) k.statuses k.terminal _ within')
                (λ done within''. Always-ok (EndsWithin h) (launched-EndsWithin done within''))))
      ])

  bg_handle-EndsWithin :
      (found : Found) (s : Shell) → IsWithin h s → Always (bg_handle found s) (EndsWithin h)
  unfolding bg_handle
  bg_handle-EndsWithin bad_argument s within = Always-ok (EndsWithin h) within
  bg_handle-EndsWithin absent s within = Always-ok (EndsWithin h) within
  bg_handle-EndsWithin lost s within = λ a e. cc
  bg_handle-EndsWithin (handle a) s within = Always-bind (any (load a s.heap)) (λ job _.
      Always-bind (update-Within a _ h s.heap within)
        (λ heap within'. Always-ok (EndsWithin h) within'))

  print_jobs-IsWithin :
      (i : ℕ) (handles : List ℕ) (s : Shell)
      → IsWithin h s
      → Always (print_jobs i handles s) (IsWithin h)
  unfolding print_jobs
  print_jobs-IsWithin i [] s within = Always-ok (IsWithin h) within
  print_jobs-IsWithin i (a ∷ handles) s within =
      Always-bind (any (load a s.heap)) (λ job _. print_jobs-IsWithin (i + 1) handles _ within)

  cd_to-EndsWithin :
      (path : Bytes) (k : Answers) (s : Shell)
      → IsWithin h s
      → Always (cd_to path k s) (EndsWithin h)
  cd_to-EndsWithin path k s within = elim (Bool-cases k.changed) [
    | inl well ↦ rw well (Always-ok (EndsWithin h) within)
    | inr failed ↦ rw failed (Always-ok (EndsWithin h) within)
  ]

  do_cd-EndsWithin :
      (args : List Bytes) (k : Answers) (s : Shell)
      → IsWithin h s
      → Always (do_cd args k s) (EndsWithin h)
  unfolding do_cd
  do_cd-EndsWithin [] k s within = λ a e. cc
  do_cd-EndsWithin (name ∷ []) k s within = cd_to-EndsWithin k.home k s within
  do_cd-EndsWithin (name ∷ arg ∷ []) k s within = cd_to-EndsWithin arg k s within
  do_cd-EndsWithin (name ∷ arg ∷ other ∷ others) k s within = Always-ok (EndsWithin h) within

  pub destroy_after-EndsWithin :
      (a : ℕ) (done : Ended) → EndsWithin h done → Always (destroy_after a done) (EndsWithin h)
  unfolding destroy_after
  destroy_after-EndsWithin a (returned ret s) within =
      Always-bind (destroy_job-Within a h s.heap within)
        (λ heap within'. Always-ok (EndsWithin h) within')
  destroy_after-EndsWithin a (jumped s) within = Always-ok (EndsWithin h) within

  and_freed :
      (a : ℕ) {m : Run Ended}
      → Always m (EndsWithin h)
      → Always (m >>= destroy_after a) (EndsWithin h)
  and_freed a always = Always-bind always (destroy_after-EndsWithin a)

  pub builtins-EndsWithin :
      (a : ℕ) (k : Answers) (s : Shell)
      → IsWithin h s
      → All
          (λ (_, command).
            (args : List Bytes) → Always (command args k s >>= destroy_after a) (EndsWithin h))
          builtins
  unfolding do_jobs do_fg do_bg do_exit
  builtins-EndsWithin a k s within = (
    (λ args. and_freed a (do_cd-EndsWithin args k s within)),
    (
      (λ args. and_freed a (
          Always-bind (print_jobs-IsWithin 1 s.current_job s within)
            (λ s' within'. Always-ok (EndsWithin h) within'))),
      (
        (λ args. and_freed a (
            Always-bind (get_job_handle-IsWithin h args s within)
              (λ (found, s') within'. fg_handle-EndsWithin k found s' within'))),
        (
          (λ args. and_freed a (
              Always-bind (get_job_handle-IsWithin h args s within)
                (λ (found, s') within'. bg_handle-EndsWithin found s' within'))),
          ((λ args. and_freed a (Always-ok (EndsWithin h) within)), tt),
        ),
      ),
    ),
  )

  pub start_job-EndsWithin :
      (a : ℕ) (k : Answers) (s : Shell) → IsWithin h s → Always (start_job a k s) (EndsWithin h)
  unfolding start_job
  start_job-EndsWithin a k s within = Always-bind (any (load a s.heap)) (λ job _.
      Always-bind (any (start_job_internal k.kernel job k.table k.next_file)) (λ (well, l) _.
        Always-bind (update-Within a _ h s.heap within) (λ heap within'.
          Always-bind
            (launch_job-IsWithin h (if well then some a else none) k.statuses k.terminal _ within')
            (λ done within''. Always-ok (EndsWithin h) (launched-EndsWithin done within'')))))
