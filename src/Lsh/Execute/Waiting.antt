-- ===== src/Lsh/Execute/Waiting.antt =====
-- What becomes of the job that `wait_for_fg_job` of lsh/execute.c waits for.
use akiso.Prelude.{
  ℕ, ◌+◌, ◌<◌, ◌≡◌, refl, ◌∙◌, Bool, true, false, some, List, [], ◌∷◌, ◌++◌, arith, ◌==◌,
  if◌then◌else◌, length, All,
}
use akiso.Prelude.Int.{ℤ}
use akiso.Prelude.Run.{ok, ◌>>=◌}
use akiso.Lsh.Job.{Job, Heap, update, put_job}
use akiso.Lsh.Job.Handles.{load-IsLive}
use akiso.Lsh.Utility.{add_first}
use akiso.Lsh.Execute.Valid.{add_last-append}
use akiso.Lsh.Execute.{
  Shell, Status, ended, halted, Wait, emit, terminate, note_status, add_job, wait_loop,
  start_waiting, wait_for_fg_job,
}

-- A process that has stopped, and has not ended.
pub data IsHalted : Status → Type 0 where
  is_halted : (pid : ℤ) (signum : ℕ) → IsHalted (halted pid signum)

-- The memory and the lists of handles are the same.
abbrev pub SameJobs : Shell → Shell → Type 0
SameJobs s t =
    (t.heap ≡ s.heap)
    × (t.current_job ≡ s.current_job)
    × (t.pending_jobs ≡ s.pending_jobs)
    × (t.pending_removed_jobs ≡ s.pending_removed_jobs)

-- The job stands first among the current jobs and last among the pending ones, marked as stopped.
abbrev pub suspend : ℕ → Job → Shell → Shell
suspend a job s = record s {
  heap = put_job a (some (record job { fg = false; stopped = true })) s.heap;
  current_job = a ∷ s.current_job;
  pending_jobs = s.pending_jobs ++ (a ∷ []);
}

add_first_one : (l : List ℕ) (a : ℕ) → add_first l (a ∷ []) ≡ ok (a ∷ l)
unfolding add_first
add_first_one [] a = refl
add_first_one (b ∷ l) a = refl

pub add_job_lem :
    (a : ℕ) (s : Shell)
    → add_job a s
      ≡ ok (record s { current_job = a ∷ s.current_job; pending_jobs = s.pending_jobs ++ (a ∷ []) })
unfolding add_job
add_job_lem a s = rw (add_first_one s.current_job a, add_last-append s.pending_jobs (a ∷ []))

module _ (a : ℕ) (job : Job) where
  update-live :
      (h : Heap) (change : Job → Job)
      → h.job_at a ≡ some job
      → update a change h ≡ ok (put_job a (some (change job)) h)
  unfolding update
  update-live h change here = rw (load-IsLive h a job here)

  -- One round of the loop.
  wait_loop-cons :
      (status : Status) (statuses : List Status) (w : Wait) (s : Shell)
      → s.heap.job_at a ≡ some job
      → wait_loop a (status ∷ statuses) w s ≡ (
          let (w', ending) = note_status status w in
          let s' = if ending then emit (terminate job.pgid) s else s in
          if w'.stopped_process_count == job.pipeline_size
          then (do
            heap ← update a (λ j. record j { fg = false; stopped = true }) s'.heap
            add_job a (record s' { heap = heap }))
          else wait_loop a statuses w' s')
  unfolding wait_loop
  wait_loop-cons status statuses w s here = rw (load-IsLive s.heap a job here)

  wait_loop-halted :
      (statuses rest : List Status) (b : Bool) (count : ℕ) (s : Shell)
      → s.heap.job_at a ≡ some job
      → All IsHalted statuses
      → 0 < length statuses
      → count + length statuses ≡ job.pipeline_size
      → wait_loop a
          (statuses ++ rest)
          (record { falling_apart = false; stopped = b; stopped_process_count = count })
          s
        ≡ ok (suspend a job s)
  unfolding note_status
  wait_loop-halted [] rest b count s here h some_status size = absurd (omega arith)
  wait_loop-halted (status ∷ []) rest b count s here (is_halted pid signum, h) some_status size =
      let hit : (count + 1 == job.pipeline_size) ≡ true = ground arith in
      wait_loop-cons status rest
        (record { falling_apart = false; stopped = b; stopped_process_count = count }) s here
      ∙ rw (hit, update-live s.heap _ here, add_job_lem)
  wait_loop-halted (status ∷ next ∷ statuses) rest b count s here (is_halted pid signum, h)
        some_status size =
      let miss : (count + 1 == job.pipeline_size) ≡ false = ground arith in
      wait_loop-cons status (next ∷ statuses ++ rest)
        (record { falling_apart = false; stopped = b; stopped_process_count = count }) s here
      ∙ rw miss (
          wait_loop-halted (next ∷ statuses) rest true (count + 1) s here h (omega arith)
            (omega arith))

  wait_loop-falling :
      (statuses : List Status) (b : Bool) (s : Shell)
      → s.heap.job_at a ≡ some job
      → 0 < job.pipeline_size
      → (t : Shell) × (wait_loop a statuses
            (record { falling_apart = true; stopped = b; stopped_process_count = 0 })
            s
          ≡ ok t)
        × SameJobs s t
  unfolding note_status wait_loop
  wait_loop-falling [] b s here size = (s, refl, (refl, refl, refl, refl))
  wait_loop-falling (ended pid ∷ statuses) true s here size =
      let miss : (0 == job.pipeline_size) ≡ false = ground arith in
      let w : Wait = record { falling_apart = true; stopped = true; stopped_process_count = 0 } in
      let (t, run, same) =
        wait_loop-falling statuses true (emit (terminate job.pgid) s) here size in
      (t, wait_loop-cons (ended pid) statuses w s here ∙ rw miss run, same)
  wait_loop-falling (ended pid ∷ statuses) false s here size =
      let miss : (0 == job.pipeline_size) ≡ false = ground arith in
      let w : Wait = record { falling_apart = true; stopped = false; stopped_process_count = 0 } in
      let (t, run, same) = wait_loop-falling statuses false s here size in
      (t, wait_loop-cons (ended pid) statuses w s here ∙ rw miss run, same)
  wait_loop-falling (halted pid signum ∷ statuses) b s here size =
      let miss : (0 == job.pipeline_size) ≡ false = ground arith in
      let w : Wait = record { falling_apart = true; stopped = b; stopped_process_count = 0 } in
      let (t, run, same) =
        wait_loop-falling statuses true (emit (terminate job.pgid) s) here size in
      (t, wait_loop-cons (halted pid signum) statuses w s here ∙ rw miss run, same)

  wait_loop-ended :
      (before : List Status) (pid : ℤ) (after : List Status) (count : ℕ) (s : Shell)
      → s.heap.job_at a ≡ some job
      → All IsHalted before
      → count + length before < job.pipeline_size
      → (t : Shell) × (wait_loop a
            (before ++ (ended pid ∷ after))
            (record { falling_apart = false; stopped = true; stopped_process_count = count })
            s
          ≡ ok t)
        × SameJobs s t
  unfolding note_status
  wait_loop-ended [] pid after count s here h size =
      let miss : (0 == job.pipeline_size) ≡ false = ground arith in
      let w : Wait = record {
        falling_apart = false;
        stopped = true;
        stopped_process_count = count;
      } in
      let (t, run, same) =
        wait_loop-falling after true (emit (terminate job.pgid) s) here (omega arith) in
      (t, wait_loop-cons (ended pid) after w s here ∙ rw miss run, same)
  wait_loop-ended (status ∷ before) pid after count s here (is_halted pid' signum, h) size =
      let miss : (count + 1 == job.pipeline_size) ≡ false = ground arith in
      let w : Wait = record {
        falling_apart = false;
        stopped = true;
        stopped_process_count = count;
      } in
      let (t, run, same) = wait_loop-ended before pid after (count + 1) s here h (omega arith) in
      (
        t,
        wait_loop-cons (halted pid' signum) (before ++ (ended pid ∷ after)) w s here ∙ rw miss run,
        same,
      )

  -- A foreground job of which every process stops before any ends, as many as the pipeline has,
  -- becomes a stopped job: it is put first among the current jobs and last among the pending ones,
  -- and the wait is over, whatever `waitpid` would answer next.
  pub wait_for_fg_job-halted :
      (s : Shell) (statuses rest : List Status)
      → s.heap.job_at a ≡ some job
      → All IsHalted statuses
      → length statuses ≡ job.pipeline_size
      → 0 < job.pipeline_size
      → wait_for_fg_job a (statuses ++ rest) s ≡ ok (suspend a job s)
  unfolding wait_for_fg_job
  wait_for_fg_job-halted s statuses rest here h size some_process =
      wait_loop-halted statuses rest false 0 s here h (omega arith) (omega arith)

  -- If a process ends before all of them have stopped, the job is put on no list, however its other
  -- processes stop or end later: the wait never faults and leaves the memory and all three lists as
  -- they were.
  pub wait_for_fg_job-ended :
      (s : Shell) (before : List Status) (pid : ℤ) (after : List Status)
      → s.heap.job_at a ≡ some job
      → All IsHalted before
      → length before < job.pipeline_size
      → (t : Shell) × (wait_for_fg_job a (before ++ (ended pid ∷ after)) s ≡ ok t) × SameJobs s t
  unfolding wait_for_fg_job note_status
  wait_for_fg_job-ended s [] pid after here h size =
      let miss : (0 == job.pipeline_size) ≡ false = ground arith in
      let (t, run, same) = wait_loop-falling after false s here (omega arith) in
      (t, wait_loop-cons (ended pid) after start_waiting s here ∙ rw miss run, same)
  wait_for_fg_job-ended s (status ∷ before) pid after here (is_halted pid' signum, h) size =
      let miss : (0 + 1 == job.pipeline_size) ≡ false = ground arith in
      let (t, run, same) = wait_loop-ended before pid after 1 s here h (omega arith) in
      (
        t,
        wait_loop-cons (halted pid' signum) (before ++ (ended pid ∷ after)) start_waiting s here
            ∙ rw miss run,
        same,
      )
