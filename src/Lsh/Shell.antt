-- ===== src/Lsh/Shell.antt =====
-- lsh/main.c: the loop of the shell, the handler of SIGCHLD and the clean-up. What `waitpid`
-- answers is an argument; a signal that arrives at the prompt is an event between two lines.
pub mod Allocating
pub mod Children
pub mod Commanding
pub mod Cleanup
pub mod Ending
pub mod Looping
pub mod Main
pub mod Printing
pub mod Shrinking
pub mod Terminal
use akiso.Prelude.{
  ℕ, zero, suc, ◌+◌, ◌-◌, ◌%◌, ◌^◌, Bool, true, false, not, ◌||◌, Option, none, some, List, [], ◌∷◌,
  ◌++◌, ◌==◌, ltb, if◌then◌else◌, Bytes,
}
use akiso.Prelude.Int.{ℤ, pos, negsuc}
use akiso.Prelude.Run.{Run, ok, fault, ◌>>=◌}
use akiso.Lsh.Job.{Job, Heap, load, update, print_job, remove_job_handle, destroy_job}
use akiso.Lsh.Execute.{
  ParseResult, pr_ok, pr_exit, pr_syntax_error, pr_error_errno, pr_other_error, Effect, killpg,
  printed, message, sigcont, sighup, other, Shell, emit, Status, ended, halted, Ended, returned,
  jumped,
}
use akiso.Lsh.Execute.Builtins.{Answers}
use akiso.Lsh.Interpret.{interpret_line}
use akiso.Lsh.Utility.{add_first, add_last}

-- The two loops of `print_pending_jobs`: with pid 0 the first handle is removed.
unfoldable pub print_pending : List ℕ → Shell → Run Shell
unfolding load
print_pending [] s = ok s
print_pending (a ∷ handles) s = do
  job ← load a s.heap
  print_pending handles
      (emit (printed (print_job (negsuc 0) job false) ∷ []) (record s { pending_jobs = handles }))

unfoldable pub print_removed : List ℕ → Shell → Run Shell
unfolding load destroy_job
print_removed [] s = ok s
print_removed (a ∷ handles) s = do
  job ← load a s.heap
  heap ← destroy_job a s.heap
  print_removed handles (
      emit (printed (print_job (negsuc 0) job true) ∷ [])
        (record s { pending_removed_jobs = handles; heap = heap }))

abbrev is_nil : List ℕ → Bool
is_nil [] = true
is_nil (a ∷ l) = false

-- The flag: whether anything was printed.
unfoldable pub print_pending_jobs : Shell → Run (Shell × Bool)
unfolding print_pending print_removed
print_pending_jobs s = do
  s' ← print_pending s.pending_jobs s
  s'' ← print_removed s'.pending_removed_jobs s'
  ok (s'', not (is_nil s.pending_jobs) || not (is_nil s.pending_removed_jobs))

-- One answer of `waitpid` in `handle_chld`. The size is a `size_t`.
unfoldable pub note_child : Status → ℕ → Shell → Run Shell
unfolding load update
note_child (ended pid) a s = do
  job ← load a s.heap
  heap ←
      update a
        (λ j. record j {
          pipeline_size = (j.pipeline_size + 2 ^ 64 - 1) % 2 ^ 64;
          falling_apart = true;
        })
        s.heap
  ok (emit (killpg job.pgid sigcont ∷ []) (record s { heap = heap }))
note_child (halted pid signum) a s = do
  job ← load a s.heap
  heap ← update a (λ j. record j { stopped = true }) s.heap
  ok (emit (killpg job.pgid (other signum) ∷ []) (record s { heap = heap }))

unfoldable pub note_children : List Status → ℕ → Shell → Run Shell
unfolding note_child
note_children [] a s = ok s
note_children (status ∷ statuses) a s = do s' ← note_child status a s; note_children statuses a s'

abbrev pub to_list : Option ℕ → List ℕ
to_list none = []
to_list (some a) = a ∷ []

-- The end of the loop body: a job with no process left goes from the current to the removed jobs.
unfoldable pub retire : ℕ → Shell → Run Shell
unfolding load remove_job_handle add_last
retire a s = do
  job ← load a s.heap
  if job.pipeline_size % 2 ^ 32 == 0
      then (do
        (removed, current) ← remove_job_handle s.heap s.current_job job.pgid
        ok (record s {
          current_job = current;
          pending_removed_jobs = add_last s.pending_removed_jobs (to_list removed);
        }))
      else ok s

-- The first loop of `handle_chld`, over the handles that stood on the list when it began; `statuses`
-- has the answers for each.
unfoldable pub check_jobs : List ℕ → List (List Status) → Shell → Run Shell
unfolding note_children retire
check_jobs [] answers s = ok s
check_jobs (a ∷ handles) [] s = do s' ← retire a s; check_jobs handles [] s'
check_jobs (a ∷ handles) (statuses ∷ answers) s = do
  s' ← note_children statuses a s
  s'' ← retire a s'
  check_jobs handles answers s''

-- The last loop, over the other children that `waitpid` names. A null handle is passed on.
unfoldable pub check_others : List ℤ → Shell → Run Shell
unfolding remove_job_handle add_first
check_others [] s = ok s
check_others (pid ∷ pids) s = do
  (removed, current) ← remove_job_handle s.heap s.current_job pid
  pending ← add_first s.pending_removed_jobs (to_list removed)
  check_others pids (record s { current_job = current; pending_removed_jobs = pending })

unfoldable pub handle_chld : List (List Status) → List ℤ → Shell → Run Shell
unfolding check_jobs check_others
handle_chld answers pids s = do s' ← check_jobs s.current_job answers s; check_others pids s'

-- The `for` loop of `copy_to_high_fd`: from `newfd` down to 10, or the first that is not open.
unfoldable pub free_fd : (ℕ → Bool) → ℕ → ℕ
free_fd is_open zero = zero
free_fd is_open (suc n) =
    let rest = free_fd is_open n in
    if ltb 10 (suc n) then (if not (is_open (suc n)) then suc n else rest) else suc n

-- `copied`: whether `dup2` succeeds.
unfoldable pub copy_to_high_fd : (ℕ → Bool) → Bool → ℕ → ℕ → ℕ
unfolding free_fd
copy_to_high_fd is_open copied fd maxfd = if copied then free_fd is_open (maxfd - 1) else fd

-- What the shell meets at its prompt: a line, the end of the input or an interrupt while it reads,
-- or a signal that children have changed, before it goes on reading.
pub data Event : Type 0 where
  typed : Bytes → Answers → Event
  end_of_input : Event
  interrupted : Event
  children : List (List Status) → List ℤ → Event

-- `running`: the events are used up.
pub data Loop : Type 0 where
  running : Shell → Loop
  left : Shell → Loop
  jumped_out : Shell → Loop

abbrev with_message : ParseResult → List Effect
with_message pr_ok = []
with_message pr_exit = []
with_message _ = message ∷ []

-- The `switch` in `start`: the state to go on with, or the end.
abbrev pub after_line : Ended → Loop
after_line (returned pr_exit s) = left s
after_line (returned ret s) = running (emit (with_message ret) s)
after_line (jumped s) = jumped_out s

-- The loop of `start` from the prompt that stands; a new prompt prints the pending jobs first.
unfoldable pub start_loop : List Event → Shell → Run Loop
unfolding interpret_line handle_chld print_pending_jobs
start_loop [] s = ok (running s)
start_loop (end_of_input ∷ events) s = ok (left s)
start_loop (interrupted ∷ events) s = do (s', _) ← print_pending_jobs s; start_loop events s'
start_loop (children answers pids ∷ events) s = do
  s' ← handle_chld answers pids s
  start_loop events s'
start_loop (typed line k ∷ events) s = do
  done ← interpret_line line k s
  elim (after_line done) [
    | left t ↦ ok (left t)
    | jumped_out t ↦ ok (jumped_out t)
    | running t ↦ do (t', _) ← print_pending_jobs t; start_loop events t'
  ]

unfoldable pub start : List Event → Shell → Run Loop
unfolding start_loop
start events s = do (s', _) ← print_pending_jobs s; start_loop events s'

-- The loop of `cleanup` over the current jobs.
unfoldable pub kill_jobs : List ℕ → Shell → Run Shell
unfolding load destroy_job
kill_jobs [] s = ok s
kill_jobs (a ∷ handles) s = do
  job ← load a s.heap
  heap ← destroy_job a s.heap
  kill_jobs handles (
      emit (killpg job.pgid sighup ∷ killpg job.pgid sigcont ∷ [])
        (record s { current_job = handles; heap = heap }))

-- The children that are left have been waited for when the pending jobs are printed.
unfoldable pub cleanup : Shell → Run Shell
unfolding kill_jobs print_pending_jobs
cleanup s = do s' ← kill_jobs s.current_job s; (s'', _) ← print_pending_jobs s'; ok s''

-- `main`: the clean-up follows, however the loop ends.
unfoldable pub main : List Event → Shell → Run Shell
unfolding start cleanup
main events s = do
  loop ← start events s
  elim loop [ running t ↦ ok t | left t ↦ cleanup t | jumped_out t ↦ cleanup t ]
