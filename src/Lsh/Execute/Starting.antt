-- ===== src/Lsh/Execute/Starting.antt =====
-- What `start_job` of lsh/execute.c leaves.
use akiso.Prelude.{ℕ, ◌+◌, ◌≡◌, refl, ap, ◌∙◌, none, some, List, ◌∷◌, All, inl, inr, Bool-cases}
use akiso.Prelude.Run.{Gives, Gives-bind}
use akiso.Lsh.Job.{Process, Job, Heap, load}
use akiso.Lsh.Job.Handles.{load-IsLive}
use akiso.Lsh.Execute.{Shell, emit, Status, Terminal, place_job, launch_job}
use akiso.Lsh.Execute.Builtins.{Answers, start_job, launched}
use akiso.Lsh.Execute.Commands.{IsEndedValid, launched-IsEndedValid}
use akiso.Lsh.Execute.Launch.Linking.{IsPlain}
use akiso.Lsh.Execute.Launch.Giving.{IsForking}
use akiso.Lsh.Execute.Launch.Ready.{IsKernel, IsStandard}
use akiso.Lsh.Execute.Launch.Starting.{start_job_internal-IsOutcome}
use akiso.Lsh.Execute.Placing.{launch_job-IsValid}
use akiso.Lsh.Execute.Valid.{count, IsValid, update-IsLive}

-- With no job it only takes the terminal back.
launch_none-IsValid :
    (s : Shell) (statuses : List Status) (t : Terminal)
    → IsValid s
    → Gives (launch_job none statuses t s) (λ (s', _). IsValid s')
unfolding launch_job place_job
launch_none-IsValid s statuses t valid = elim (Bool-cases t.take_back) [
  | inr lost ↦ rw lost (_, refl, valid)
  | inl back ↦ elim (Bool-cases t.restore) [
    | inl restored ↦ rw (back, restored) (_, refl, valid)
    | inr failed ↦ rw (back, failed) (_, refl, valid)
  ]
]

load_same :
    (a : ℕ) (h : Heap) (job : Job) → h.job_at a ≡ some job → Gives (load a h) (λ job'. job' ≡ job)
load_same a h job here = (job, load-IsLive h a job here, refl)

-- From a valid state, `start_job` of a new job of commands without redirections, with names of at
-- most 127 bytes, never faults, whatever the kernel answers, if its new descriptors are free, its pids
-- positive, and the standard input and output open; whether the job is started or not, and whether
-- the shell returns or jumps, it leaves a valid state.
pub start_job-IsValid :
    (a : ℕ) (k : Answers) (s : Shell) (job : Job) (p : Process) (processes : List Process)
    → IsValid s
    → s.heap.job_at a ≡ some job
    → count a s.current_job + count a s.pending_removed_jobs ≡ 0
    → job.pipeline ≡ p ∷ processes
    → All IsPlain (p ∷ processes)
    → IsKernel k.kernel
    → IsForking k.kernel
    → IsStandard k.table
    → Gives (start_job a k s) IsEndedValid
unfolding start_job
start_job-IsValid a k s job p processes valid here fresh pipeline_is simple law forking standard =
    Gives-bind (load_same a s.heap job here) (λ job' same.
      Gives-bind
        (start_job_internal-IsOutcome k.kernel job' k.table k.next_file p processes law forking
          standard (ap (λ j. j.pipeline) same ∙ pipeline_is) simple)
        (λ (well, l) _. Gives-bind (update-IsLive a _ s.heap (job, here)) (λ h live.
          let s' : Shell = emit l.effects (record s { heap = h }) in
          let valid' : IsValid s' =
            λ b. let (once, found) = valid b in (once, λ on. live b (found on)) in
          elim (Bool-cases well) [
            | inl is_well ↦ rw is_well (
                Gives-bind
                  (launch_job-IsValid s' a k.statuses k.terminal valid' (live a (job, here)) fresh)
                  (λ done left. (launched done, refl, launched-IsEndedValid done left)))
            | inr failed ↦ rw failed (
                Gives-bind (launch_none-IsValid s' k.statuses k.terminal valid')
                  (λ done left. (launched done, refl, launched-IsEndedValid done left)))
          ])))
