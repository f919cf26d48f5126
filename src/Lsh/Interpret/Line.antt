-- ===== src/Lsh/Interpret/Line.antt =====
-- `interpret_line` of lsh/parser.c as a whole: a line that is a job, from its text on.
use akiso.Prelude.{
  ℕ, ◌+◌, ◌<◌, ◌≡◌, refl, sym, ◌∙◌, true, false, Bool-cases, Option, none, some, List, ◌∷◌, arith,
  ◌==◌, inl, inr, ◌⊎◌, Bytes, length, All,
}
use akiso.Prelude.Run.{ok, Gives}
use akiso.Lsh.Job.{Process, Job, Heap, alloc}
use akiso.Lsh.Job.Handles.{IsLive}
use akiso.Lsh.Execute.{Shell}
use akiso.Lsh.Execute.Builtins.{Answers}
use akiso.Lsh.Execute.Commands.{IsEndedValid}
use akiso.Lsh.Execute.Launch.Linking.{IsPlain}
use akiso.Lsh.Execute.Launch.Giving.{IsForking}
use akiso.Lsh.Execute.Launch.Ready.{IsKernel, IsStandard}
use akiso.Lsh.Execute.Valid.{count, IsValid}
use akiso.Lsh.Interpret.{interpret_line}
use akiso.Lsh.Interpret.Running.{takes_job}
use akiso.Lsh.Interpret.Whole.{run_job-IsValid}
use akiso.Lsh.Parser.Line.{job, parse_line}

-- A new job frees nothing.
alloc-IsLive : (j : Job) (h : Heap) (b : ℕ) → IsLive h b → IsLive (alloc j h).1 b
alloc-IsLive j h b (old, here) = elim (Bool-cases (b == h.next)) [
  | inl same ↦ (j, rw same)
  | inr apart ↦ (old, rw (apart, here))
]

alloc_here : (j : Job) (h : Heap) → (alloc j h).1.job_at h.next ≡ some j
alloc_here j h = let same : (h.next == h.next) ≡ true = ground arith in rw same refl

-- An address that is free is on no list.
unlisted_free :
    (a : ℕ) (s : Shell)
    → IsValid s
    → s.heap.job_at a ≡ none
    → count a s.current_job + count a s.pending_jobs + count a s.pending_removed_jobs ≡ 0
unlisted_free a s valid free =
    let n = count a s.current_job + count a s.pending_jobs + count a s.pending_removed_jobs in
    elim (Bool-cases (n == 0)) [
      | inl nowhere ↦ ground arith
      | inr listed ↦
          let (once, live) = valid a in
          let (j, here) = live (ground arith) in absurd (none_some j (sym free ∙ here))
    ]
  where
    none_some : (j : Job) → none ≡ some j → ⊥
    none_some j h = cc

-- A line that is read as a job of commands without redirections, with names of at most 127 bytes, is
-- interpreted without a fault from a valid state in which the next address is free, and leaves a
-- valid state, whatever the kernel answers, if its new descriptors are free, its pids positive and
-- the standard input and output open, and there is a current job if the command is `fg` or `bg`.
pub interpret_line-IsValid :
    (line : Bytes) (k : Answers) (s : Shell) (j : Job) (p : Process) (processes : List Process)
    (name : Bytes) (others : List (Option Bytes))
    → parse_line line ≡ ok (job j)
    → IsValid s
    → s.heap.job_at s.heap.next ≡ none
    → j.pipeline ≡ p ∷ processes
    → All IsPlain (p ∷ processes)
    → p.arguments ≡ some name ∷ others
    → 0 < p.argc
    → (0 < length s.current_job) ⊎ (takes_job name ≡ false)
    → IsKernel k.kernel
    → IsForking k.kernel
    → IsStandard k.table
    → Gives (interpret_line line k s) IsEndedValid
unfolding interpret_line
interpret_line-IsValid line k s j p processes name others parsed valid free pipeline_is simple
      args_are some_args some_job law forking standard =
    let s' : Shell = record s { heap = (alloc j s.heap).1 } in
    let valid' : IsValid s' =
      λ b. let (once, live) = valid b in (once, λ on. alloc-IsLive j s.heap b (live on)) in
    rw parsed (
      run_job-IsValid s.heap.next k s' j p processes name others valid' (alloc_here j s.heap)
        (unlisted_free s.heap.next s valid free) pipeline_is simple args_are some_args some_job law
        forking standard)
