-- ===== src/Lsh/Execute/Builtins.antt =====
-- The built-in commands of lsh/execute.c, and `start_job`.
use akiso.Prelude.{ℕ, ◌+◌, Bool, true, false, none, some, List, [], ◌∷◌, if◌then◌else◌, Bytes}
use akiso.Prelude.Int.{pos}
use akiso.Prelude.Run.{Run, ok, fault, ◌>>=◌}
use akiso.Lsh.Job.{load, update, print_job}
use akiso.Lsh.Execute.{
  pr_ok, pr_exit, pr_syntax_error, pr_error_errno, pr_other_error, sigcont, killpg, printed, chdir,
  Shell, emit, Status, Ended, returned, jumped, Terminal, launch_job, Found, bad_argument, absent,
  lost, handle, get_job_handle,
}
use akiso.Lsh.Execute.Launch.Whole.{start_job_internal}
use akiso.Lsh.Execute.Pipes.{Kernel}
use akiso.Lsh.Execute.Redirects.{Table}
use akiso.Lsh.Utility.{add_last}

-- The answers of the kernel to one command: the value of `HOME` and whether `chdir` succeeds, whether
-- the terminal is given to a job, what `waitpid` says until it is done, the terminal's answers to
-- `launch_job`, and the kernel, the shell's descriptors and the number of the next file for
-- `start_job_internal`.
pub record Answers : Type 0 where
  pub home : Bytes
  pub changed : Bool
  pub given : Bool
  pub statuses : List Status
  pub terminal : Terminal
  pub kernel : Kernel
  pub table : Table
  pub next_file : ℕ

abbrev pub cd_to : Bytes → Answers → Shell → Run Ended
cd_to path k s =
    let s' = emit (chdir path ∷ []) s in
    ok (if k.changed then returned pr_ok s' else returned pr_error_errno s')

-- `args` holds the `argc` arguments.
unfoldable pub do_cd : List Bytes → Answers → Shell → Run Ended
do_cd (name ∷ arg ∷ _ ∷ _) k s = ok (returned pr_syntax_error s)
do_cd (name ∷ []) k s = cd_to k.home k s
do_cd (name ∷ arg ∷ []) k s = cd_to arg k s
do_cd [] k s = fault

unfoldable pub print_jobs : ℕ → List ℕ → Shell → Run Shell
unfolding load
print_jobs i [] s = ok s
print_jobs i (a ∷ handles) s = do
  job ← load a s.heap
  print_jobs (i + 1) handles (emit (printed (print_job (pos i) job false) ∷ []) s)

unfoldable pub do_jobs : List Bytes → Answers → Shell → Run Ended
unfolding print_jobs
do_jobs args k s = do s' ← print_jobs 1 s.current_job s; ok (returned pr_ok s')

-- `launch_job` and the end of `do_fg` or `start_job`.
abbrev pub launched : Shell × Bool → Ended
launched (s, back) = if back then returned pr_ok s else jumped s

unfoldable pub fg_handle : Found → Answers → Shell → Run Ended
unfolding load update launch_job add_last
fg_handle bad_argument k s = ok (returned pr_syntax_error s)
fg_handle absent k s = ok (returned pr_other_error s)
fg_handle lost k s = fault
fg_handle (handle a) k s = do
  job ← load a s.heap
  if k.given
      then (do
        heap ← update a (λ j. record j { stopped = false; fg = true }) s.heap
        done ←
            launch_job (some a) k.statuses k.terminal
              (emit (killpg job.pgid sigcont ∷ []) (record s { heap = heap }))
        ok (launched done))
      else ok (returned pr_error_errno (record s { current_job = add_last s.current_job (a ∷ []) }))

unfoldable pub do_fg : List Bytes → Answers → Shell → Run Ended
unfolding get_job_handle fg_handle
do_fg args k s = do (found, s') ← get_job_handle args s; fg_handle found k s'

unfoldable pub bg_handle : Found → Shell → Run Ended
unfolding load update add_last
bg_handle bad_argument s = ok (returned pr_syntax_error s)
bg_handle absent s = ok (returned pr_other_error s)
bg_handle lost s = fault
bg_handle (handle a) s = do
  job ← load a s.heap
  heap ← update a (λ j. record j { stopped = false }) s.heap
  ok (
      returned pr_ok (
        emit (killpg job.pgid sigcont ∷ []) (record s {
          heap = heap;
          current_job = add_last s.current_job (a ∷ []);
          pending_jobs = add_last s.pending_jobs (a ∷ []);
        })))

unfoldable pub do_bg : List Bytes → Answers → Shell → Run Ended
unfolding get_job_handle bg_handle
do_bg args k s = do (found, s') ← get_job_handle args s; bg_handle found s'

unfoldable pub do_exit : List Bytes → Answers → Shell → Run Ended
do_exit args k s = ok (returned pr_exit s)

-- `start_job`: a job that could not be started is not launched, and stays allocated.
unfoldable pub start_job : ℕ → Answers → Shell → Run Ended
unfolding load update start_job_internal launch_job
start_job a k s = do
  job ← load a s.heap
  (well, l) ← start_job_internal k.kernel job k.table k.next_file
  heap ← update a (λ j. record j { pgid = l.pgid }) s.heap
  done ←
      launch_job (if well then some a else none) k.statuses k.terminal
        (emit l.effects (record s { heap = heap }))
  ok (launched done)
