-- ===== src/Lsh/Execute.antt =====
-- lsh/execute.c: the commands of the shell that work on its jobs, and the wait for a job in the
-- foreground. What the kernel answers to a call is an argument, in the order of the calls; what the
-- code asks of the kernel and prints is kept as a list of effects.
pub mod Builtins
pub mod Choosing
pub mod Commands
pub mod Launch
pub mod Pipes
pub mod Leaving
pub mod Placing
pub mod Redirects
pub mod Starting
pub mod Staying
pub mod Taking
pub mod Valid
pub mod Waiting
use akiso.Prelude.{
  ℕ, ◌+◌, Bool, true, false, not, ◌&&◌, ◌||◌, Option, none, some, List, [], ◌∷◌, ◌++◌, ◌==◌, ltb,
  if◌then◌else◌, Bytes,
}
use akiso.Prelude.Int.{ℤ, pos, negsuc, ◌==ℤ◌}
use akiso.Prelude.Run.{Run, ok, fault, ◌>>=◌}
use akiso.Libc.{strtol, to_int}
use akiso.Lsh.Job.{Job, Heap, load, update, Report, print_job, remove_job_handle}
use akiso.Lsh.Utility.{add_first, add_last}

-- `enum parse_result`
pub data ParseResult : Type 0 where
  pr_ok pr_exit pr_syntax_error pr_error_errno pr_other_error : ParseResult

pub data Signal : Type 0 where
  sigterm sigcont sighup : Signal
  other : ℕ → Signal

-- What the shell does outside its own memory.
pub data Effect : Type 0 where
  killpg : ℤ → Signal → Effect
  printed : Report → Effect
  chdir : Bytes → Effect
  message : Effect

-- The global state: the jobs, the three lists of handles, and the effects so far.
pub record Shell : Type 0 where
  pub heap : Heap
  pub current_job : List ℕ
  pub pending_jobs : List ℕ
  pub pending_removed_jobs : List ℕ
  pub effects : List Effect

abbrev pub emit : List Effect → Shell → Shell
emit e s = record s { effects = s.effects ++ e }

-- What `waitpid` says of a process: an exit, by `exit` or a signal, or a stop by a signal.
pub data Status : Type 0 where
  ended : ℤ → Status
  halted : ℤ → ℕ → Status

-- `job_handle_add_first(&current_job, …); job_handle_add_last(&pending_jobs, …)`
unfoldable pub add_job : ℕ → Shell → Run Shell
unfolding add_first add_last
add_job a s = do
  current ← add_first s.current_job (a ∷ [])
  ok (record s { current_job = current; pending_jobs = add_last s.pending_jobs (a ∷ []) })

-- The local variables of `wait_for_fg_job`.
pub record Wait : Type 0 where
  pub falling_apart : Bool
  pub stopped : Bool
  pub stopped_process_count : ℕ

abbrev pub terminate : ℤ → List Effect
terminate pgid = killpg pgid sigterm ∷ killpg pgid sigcont ∷ []

-- The two branches on the status: the variables afterwards, and whether the group is told to end.
unfoldable pub note_status : Status → Wait → Wait × Bool
note_status (ended pid) w =
    if w.stopped
    then (record w { falling_apart = true; stopped_process_count = 0 }, true)
    else (record w { falling_apart = true }, false)
note_status (halted pid signum) w =
    if w.falling_apart
    then (record w { stopped = true; stopped_process_count = 0 }, true)
    else (record w { stopped = true; stopped_process_count = w.stopped_process_count + 1 }, false)

-- The loop of `wait_for_fg_job` over the answers of `waitpid` that are positive.
unfoldable pub wait_loop : ℕ → List Status → Wait → Shell → Run Shell
unfolding note_status add_job load update
wait_loop a [] w s = ok s
wait_loop a (status ∷ statuses) w s =
    let (w', ending) = note_status status w in
    do
      job ← load a s.heap
      let s' = if ending then emit (terminate job.pgid) s else s
      let rest = wait_loop a statuses w' s'
      if w'.stopped_process_count == job.pipeline_size
          then (do
            heap ← update a (λ j. record j { fg = false; stopped = true }) s'.heap
            add_job a (record s' { heap = heap }))
          else rest

abbrev pub start_waiting : Wait
start_waiting = record { falling_apart = false; stopped = false; stopped_process_count = 0 }

unfoldable pub wait_for_fg_job : ℕ → List Status → Shell → Run Shell
unfolding wait_loop
wait_for_fg_job a statuses s = wait_loop a statuses start_waiting s

-- How a command ends: it returns, or it jumps to the clean-up in `main` by `longjmp`.
pub data Ended : Type 0 where
  returned : ParseResult → Shell → Ended
  jumped : Shell → Ended

-- The answers of the terminal to `launch_job`: whether `tcsetpgrp` and `tcsetattr` succeed.
pub record Terminal : Type 0 where
  pub take_back : Bool
  pub restore : Bool

-- The part of `launch_job` that puts the job where it belongs.
unfoldable pub place_job : Option ℕ → List Status → Shell → Run Shell
unfolding wait_for_fg_job add_job load
place_job none statuses s = ok s
place_job (some a) statuses s = do
  job ← load a s.heap
  if job.fg then wait_for_fg_job a statuses s else add_job a s

-- `launch_job`, which always returns 0: `none` if it jumps.
unfoldable pub launch_job : Option ℕ → List Status → Terminal → Shell → Run (Shell × Bool)
unfolding place_job
launch_job job statuses t s = do
  s' ← place_job job statuses s
  if not t.take_back
      then ok (emit (message ∷ []) s', false)
      else if not t.restore
      then ok (emit (message ∷ []) s', false)
      else ok (s', true)

-- The result of `get_job_handle`: the pointers -1, NULL and -999, or a handle that is now on no list.
pub data Found : Type 0 where
  bad_argument : Found
  absent : Found
  lost : Found
  handle : ℕ → Found

-- The `while` loop: the value of `i` and the handle at which it stops.
unfoldable pub find_handle : ℤ → ℕ → List ℕ → ℕ × Option ℕ
find_handle index i [] = (i, none)
find_handle index i (a ∷ handles) =
    let rest = find_handle index (i + 1) handles in
    if pos (i + 1) ==ℤ index then (i + 1, some a) else rest

-- The end of `get_job_handle`, for an index.
unfoldable pub take_handle : ℤ → Shell → Run (Found × Shell)
unfolding find_handle remove_job_handle load
take_handle index s =
    let (i, at) = find_handle index 0 s.current_job in
    if not (pos i ==ℤ index) then ok (absent, s) else elim at [
      | none ↦ fault
      | some a ↦ do
        job ← load a s.heap
        (found, current) ← remove_job_handle s.heap s.current_job job.pgid
        ok (elim found [ none ↦ lost | some b ↦ handle b ], record s { current_job = current })
    ]

abbrev pub is_nil : Bytes → Bool
is_nil [] = true
is_nil (c ∷ s) = false

-- The arguments are those before the null entry, so `argc` is their number and 1 at least.
unfoldable pub get_job_handle : List Bytes → Shell → Run (Found × Shell)
unfolding take_handle strtol
get_job_handle [] s = take_handle (pos 1) s
get_job_handle (name ∷ []) s = take_handle (pos 1) s
get_job_handle (name ∷ arg ∷ []) s =
    let (n, ptr) = strtol arg in
    if is_nil arg || not (is_nil ptr) then ok (bad_argument, s) else take_handle (to_int n) s
get_job_handle (name ∷ arg ∷ _ ∷ _) s = ok (bad_argument, s)
