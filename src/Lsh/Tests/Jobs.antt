-- ===== src/Lsh/Tests/Jobs.antt =====
-- The theorems on jobs at a shell with two jobs.
use akiso.Prelude.{
  ℕ, ◌<◌, ◌≡◌, refl, Bool, true, false, Option, none, some, List, [], ◌∷◌, arith, ◌==◌, inl, inr,
  Bool-cases, if◌then◌else◌,
}
use akiso.Prelude.Int.{ℤ, pos}
use akiso.Prelude.Text.{codes}
use akiso.Prelude.Run.{ok, fault, ◌>>=◌, Gives}
use akiso.Lsh.Job.{Job, empty_job, Heap, remove_job_handle}
use akiso.Lsh.Job.Handles.{IsLive, Removal, remove_job_handle-Removal}
use akiso.Lsh.Execute.{
  Shell, ended, halted, launch_job, absent, handle, take_handle, wait_for_fg_job,
}
use akiso.Lsh.Execute.Builtins.{Answers, do_fg, do_bg}
use akiso.Lsh.Execute.Commands.{IsEndedValid, do_fg-IsValid, do_bg-IsValid}
use akiso.Lsh.Execute.Choosing.{take_handle-nth, take_handle-past, do_fg-zero}
use akiso.Lsh.Execute.Placing.{launch_job-IsValid}
use akiso.Lsh.Execute.Pipes.{Kernel}
use akiso.Lsh.Execute.Valid.{count, IsValid}
use akiso.Lsh.Execute.Waiting.{
  is_halted, SameJobs, suspend, wait_for_fg_job-halted, wait_for_fg_job-ended,
}
use akiso.Lsh.Shell.{check_others, cleanup, handle_chld, print_pending_jobs}
use akiso.Lsh.Shell.Children.{handle_chld-IsValid, check_others-unknown}
use akiso.Lsh.Shell.Cleanup.{launch_job-cleanup}
use akiso.Lsh.Shell.Printing.{print_pending_jobs-IsValid}

abbrev job_of : ℤ → ℕ → Bool → Job
job_of pgid size fg = record empty_job { pgid = pgid; pipeline_size = size; fg = fg }

-- A current and pending job of one process, a removed one, and a third that is on no list.
abbrev heap : Heap
heap = record {
  job_at = λ a.
      if a == 0
      then some (job_of (pos 40) 1 false)
      else if a == 1
      then some (job_of (pos 50) 0 false)
      else if a == 2
      then some (job_of (pos 60) 2 false)
      else none;
  next = 3;
}

abbrev shell : List ℕ → List ℕ → List ℕ → Shell
shell current pending removed = record {
  heap = heap;
  current_job = current;
  pending_jobs = pending;
  pending_removed_jobs = removed;
  effects = [];
}

live : (a : ℕ) → 0 < count a (0 ∷ 1 ∷ 2 ∷ []) → IsLive heap a
live a on = elim (Bool-cases (a == 0)) [
  | inl first ↦ (job_of (pos 40) 1 false, rw first)
  | inr after_first ↦ elim (Bool-cases (a == 1)) [
    | inl second ↦ (job_of (pos 50) 0 false, rw (after_first, second))
    | inr after_second ↦ elim (Bool-cases (a == 2)) [
      | inl third ↦ (job_of (pos 60) 2 false, rw (after_first, after_second, third))
      | inr after_third ↦ absurd (ground arith)
    ]
  ]
]

one_removed-IsValid : IsValid (shell (0 ∷ []) (0 ∷ []) (1 ∷ []))
one_removed-IsValid a = (ground arith, λ on. live a (ground arith))

two_current-IsValid : IsValid (shell (1 ∷ 0 ∷ []) [] [])
two_current-IsValid a = (ground arith, λ on. live a (ground arith))

abbrev no_kernel : Kernel
no_kernel = record {
  pipe = λ n table. none;
  fcntl = λ n i. false;
  fork = λ i. none;
  opens = λ i. [];
  give_terminal = false;
  execvp = λ i. false;
  read_fails = λ i. true;
  errno = λ i. 0;
}

abbrev answers : Answers
answers = record {
  home = codes "/";
  changed = true;
  given = true;
  statuses = [];
  terminal = record { take_back = true; restore = true };
  kernel = no_kernel;
  table = λ d. none;
  next_file = 0;
}

remove_job_handle-Removal_example :
    (r : Option ℕ × List ℕ) × (remove_job_handle heap (0 ∷ 2 ∷ []) (pos 60) ≡ ok r)
    × Removal heap (pos 60) (0 ∷ 2 ∷ []) r
remove_job_handle-Removal_example =
    remove_job_handle-Removal heap (pos 60) (0 ∷ 2 ∷ [])
      (live 0 (omega arith), (live 2 (omega arith), tt))

take_handle-nth_example :
    take_handle (pos 2) (shell (0 ∷ 2 ∷ 1 ∷ []) [] []) ≡ ok (handle 2, shell (0 ∷ 1 ∷ []) [] [])
take_handle-nth_example =
    take_handle-nth (shell (0 ∷ 2 ∷ 1 ∷ []) [] []) (0 ∷ []) 2 (1 ∷ []) (job_of (pos 60) 2 false)
      refl refl ((job_of (pos 40) 1 false, refl, refl), tt)

take_handle-past_example :
    take_handle (pos 3) (shell (0 ∷ 2 ∷ []) [] []) ≡ ok (absent, shell (0 ∷ 2 ∷ []) [] [])
take_handle-past_example = take_handle-past (shell (0 ∷ 2 ∷ []) [] []) 3 (omega arith)

do_fg-zero_example : do_fg (codes "fg" ∷ (b'0' ∷ []) ∷ []) answers (shell [] [] []) ≡ fault
do_fg-zero_example = do_fg-zero (shell [] [] []) answers (codes "fg") refl

wait_for_fg_job-halted_example :
    wait_for_fg_job 2 (halted (pos 60) 19 ∷ halted (pos 61) 19 ∷ []) (shell (0 ∷ []) [] [])
    ≡ ok (suspend 2 (job_of (pos 60) 2 false) (shell (0 ∷ []) [] []))
wait_for_fg_job-halted_example =
    wait_for_fg_job-halted 2 (job_of (pos 60) 2 false) (shell (0 ∷ []) [] [])
      (halted (pos 60) 19 ∷ halted (pos 61) 19 ∷ []) [] refl
      (is_halted (pos 60) 19, (is_halted (pos 61) 19, tt)) refl (omega arith)

wait_for_fg_job-ended_example :
    (t : Shell) × (wait_for_fg_job 2
        (halted (pos 60) 19 ∷ ended (pos 61) ∷ ended (pos 60) ∷ [])
        (shell (0 ∷ []) [] [])
      ≡ ok t)
    × SameJobs (shell (0 ∷ []) [] []) t
wait_for_fg_job-ended_example =
    wait_for_fg_job-ended 2 (job_of (pos 60) 2 false) (shell (0 ∷ []) [] [])
      (halted (pos 60) 19 ∷ []) (pos 61) (ended (pos 60) ∷ []) refl (is_halted (pos 60) 19, tt)
      (omega arith)

launch_job-IsValid_example :
    Gives
      (launch_job
        (some 2)
        []
        (record { take_back = true; restore = true })
        (shell (0 ∷ []) (0 ∷ []) (1 ∷ [])))
      (λ (s', _). IsValid s')
launch_job-IsValid_example =
    launch_job-IsValid (shell (0 ∷ []) (0 ∷ []) (1 ∷ [])) 2 []
      (record { take_back = true; restore = true }) one_removed-IsValid (live 2 (omega arith)) refl

print_pending_jobs-IsValid_example :
    Gives (print_pending_jobs (shell (0 ∷ []) (0 ∷ []) (1 ∷ []))) (λ (t, _).
      (t.pending_jobs ≡ []) × (t.pending_removed_jobs ≡ []) × (t.current_job ≡ 0 ∷ []) × IsValid t)
print_pending_jobs-IsValid_example =
    print_pending_jobs-IsValid (shell (0 ∷ []) (0 ∷ []) (1 ∷ [])) one_removed-IsValid

handle_chld-IsValid_example :
    Gives (handle_chld ((ended (pos 40) ∷ []) ∷ []) [] (shell (0 ∷ []) (0 ∷ []) (1 ∷ []))) IsValid
handle_chld-IsValid_example =
    handle_chld-IsValid (shell (0 ∷ []) (0 ∷ []) (1 ∷ [])) ((ended (pos 40) ∷ []) ∷ [])
      one_removed-IsValid

check_others-unknown_example : check_others (pos 70 ∷ []) (shell (0 ∷ []) [] (1 ∷ [])) ≡ fault
check_others-unknown_example =
    check_others-unknown (shell (0 ∷ []) [] (1 ∷ [])) (pos 70) [] 1 []
      ((job_of (pos 40) 1 false, refl, refl), tt) refl

launch_job-cleanup_example :
    (launch_job
        (some 2)
        []
        (record { take_back = false; restore = true })
        (shell (1 ∷ 0 ∷ []) [] [])
      >>= λ (s', _). cleanup s')
    ≡ fault
launch_job-cleanup_example =
    launch_job-cleanup (shell (1 ∷ 0 ∷ []) [] []) 2 (job_of (pos 60) 2 false) []
      (record { take_back = false; restore = true }) two_current-IsValid refl refl refl refl refl

do_fg-IsValid_example :
    Gives (do_fg (codes "fg" ∷ codes "2" ∷ []) answers (shell (1 ∷ 0 ∷ []) [] [])) IsEndedValid
do_fg-IsValid_example =
    do_fg-IsValid (codes "fg" ∷ codes "2" ∷ []) answers (shell (1 ∷ 0 ∷ []) [] [])
      two_current-IsValid (omega arith)

do_bg-IsValid_example :
    Gives (do_bg (codes "bg" ∷ codes "2" ∷ []) answers (shell (1 ∷ 0 ∷ []) [] [])) IsEndedValid
do_bg-IsValid_example =
    do_bg-IsValid (codes "bg" ∷ codes "2" ∷ []) answers (shell (1 ∷ 0 ∷ []) [] [])
      two_current-IsValid (omega arith)
