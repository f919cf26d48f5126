-- ===== src/Lsh/Shell/Allocating.antt =====
-- The rest of lsh/main.c and `interpret_line` of lsh/parser.c: what is free above the last job stays
-- free.
use akiso.Prelude.{ℕ, Bool-cases, List, [], ◌∷◌, ◌==◌, ◌%◌, ◌^◌, inl, inr}
use akiso.Prelude.Run.{Always, Always-ok, Always-bind}
use akiso.Lsh.Job.{Job, Heap, load, remove_job_handle}
use akiso.Lsh.Execute.{pr_syntax_error, Shell, Status, ended, halted, returned}
use akiso.Lsh.Execute.Builtins.{Answers}
use akiso.Lsh.Execute.Staying.{any}
use akiso.Lsh.Interpret.{run_job}
use akiso.Lsh.Interpret.Branches.{run_job-Always}
use akiso.Lsh.Shell.{
  print_pending, print_removed, print_pending_jobs, note_child, note_children, retire, check_jobs,
  handle_chld, check_others,
}
use akiso.Lsh.Shell.Commanding.{builtins-EndsWithin, destroy_after-EndsWithin, start_job-EndsWithin}
use akiso.Lsh.Shell.Shrinking.{IsWithin, EndsWithin, update-Within, destroy_job-Within}

module _ (h : Heap) where
  pub run_job-EndsWithin :
      (a : ℕ) (j : Job) (k : Answers) (s : Shell)
      → IsWithin h s
      → Always (run_job a j k s) (EndsWithin h)
  run_job-EndsWithin a j k s within =
      run_job-Always (EndsWithin h) a j k s (builtins-EndsWithin h a k s within)
        (destroy_after-EndsWithin h a (returned pr_syntax_error s) within)
        (start_job-EndsWithin h a k s within)

  note_child-IsWithin :
      (status : Status) (a : ℕ) (s : Shell)
      → IsWithin h s
      → Always (note_child status a s) (IsWithin h)
  unfolding note_child
  note_child-IsWithin (ended pid) a s within = Always-bind (any (load a s.heap)) (λ job _.
      Always-bind (update-Within a _ h s.heap within)
        (λ heap within'. Always-ok (IsWithin h) within'))
  note_child-IsWithin (halted pid signum) a s within = Always-bind (any (load a s.heap)) (λ job _.
      Always-bind (update-Within a _ h s.heap within)
        (λ heap within'. Always-ok (IsWithin h) within'))

  note_children-IsWithin :
      (statuses : List Status) (a : ℕ) (s : Shell)
      → IsWithin h s
      → Always (note_children statuses a s) (IsWithin h)
  unfolding note_children
  note_children-IsWithin [] a s within = Always-ok (IsWithin h) within
  note_children-IsWithin (status ∷ statuses) a s within =
      Always-bind (note_child-IsWithin status a s within)
        (λ s' within'. note_children-IsWithin statuses a s' within')

  retire-IsWithin : (a : ℕ) (s : Shell) → IsWithin h s → Always (retire a s) (IsWithin h)
  unfolding retire
  retire-IsWithin a s within = Always-bind (any (load a s.heap)) (λ job _.
      elim (Bool-cases (job.pipeline_size % 2 ^ 32 == 0)) [
        | inl none_left ↦ rw none_left (
            Always-bind (any (remove_job_handle s.heap s.current_job job.pgid))
              (λ (removed, current) _. Always-ok (IsWithin h) within))
        | inr some_left ↦ rw some_left (Always-ok (IsWithin h) within)
      ])

  check_jobs-IsWithin :
      (handles : List ℕ) (answers : List (List Status)) (s : Shell)
      → IsWithin h s
      → Always (check_jobs handles answers s) (IsWithin h)
  unfolding check_jobs
  check_jobs-IsWithin [] answers s within = Always-ok (IsWithin h) within
  check_jobs-IsWithin (a ∷ handles) [] s within =
      Always-bind (retire-IsWithin a s within)
        (λ s' within'. check_jobs-IsWithin handles [] s' within')
  check_jobs-IsWithin (a ∷ handles) (statuses ∷ answers) s within =
      Always-bind (note_children-IsWithin statuses a s within) (λ s' within'.
        Always-bind (retire-IsWithin a s' within')
          (λ s'' within''. check_jobs-IsWithin handles answers s'' within''))

  pub handle_chld-IsWithin :
      (answers : List (List Status)) (s : Shell)
      → IsWithin h s
      → Always (handle_chld answers [] s) (IsWithin h)
  unfolding handle_chld check_others
  handle_chld-IsWithin answers s within =
      Always-bind (check_jobs-IsWithin s.current_job answers s within)
        (λ s' within'. Always-ok (IsWithin h) within')

  print_pending-IsWithin :
      (handles : List ℕ) (s : Shell) → IsWithin h s → Always (print_pending handles s) (IsWithin h)
  unfolding print_pending
  print_pending-IsWithin [] s within = Always-ok (IsWithin h) within
  print_pending-IsWithin (a ∷ handles) s within =
      Always-bind (any (load a s.heap)) (λ job _. print_pending-IsWithin handles _ within)

  print_removed-IsWithin :
      (handles : List ℕ) (s : Shell) → IsWithin h s → Always (print_removed handles s) (IsWithin h)
  unfolding print_removed
  print_removed-IsWithin [] s within = Always-ok (IsWithin h) within
  print_removed-IsWithin (a ∷ handles) s within = Always-bind (any (load a s.heap)) (λ job _.
      Always-bind (destroy_job-Within a h s.heap within)
        (λ heap within'. print_removed-IsWithin handles _ within'))

  pub print_pending_jobs-IsWithin :
      (s : Shell) → IsWithin h s → Always (print_pending_jobs s) (λ (s', _). IsWithin h s')
  unfolding print_pending_jobs
  print_pending_jobs-IsWithin s within =
      Always-bind (print_pending-IsWithin s.pending_jobs s within) (λ s' within'.
        Always-bind (print_removed-IsWithin s'.pending_removed_jobs s' within')
          (λ s'' within''. Always-ok (λ (t, _). IsWithin h t) within''))
