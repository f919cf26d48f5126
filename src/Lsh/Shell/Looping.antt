-- ===== src/Lsh/Shell/Looping.antt =====
-- The loop of `start` of lsh/main.c over any sequence of lines, interrupts and signals.
use akiso.Prelude.{
  ℕ, ◌<◌, ◌≤◌, ◌≡◌, refl, false, Bool-cases, none, some, Option, List, [], ◌∷◌, ◌==◌, ==_iff, inl,
  inr, Bytes, arith, All,
}
use akiso.Prelude.Run.{Run, ok, Gives, Gives-bind, Gives-Always, Always, Always-ok, Always-bind}
use akiso.Lsh.Job.{Process, Job, Heap, alloc}
use akiso.Lsh.Execute.{
  pr_ok, pr_exit, pr_syntax_error, pr_error_errno, pr_other_error, Shell, Status, Ended, returned,
  jumped,
}
use akiso.Lsh.Execute.Builtins.{Answers}
use akiso.Lsh.Execute.Commands.{IsEndedValid}
use akiso.Lsh.Execute.Launch.Giving.{IsForking}
use akiso.Lsh.Execute.Launch.Linking.{IsPlain}
use akiso.Lsh.Execute.Launch.Ready.{IsKernel, IsStandard}
use akiso.Lsh.Execute.Staying.{any}
use akiso.Lsh.Execute.Valid.{IsValid}
use akiso.Lsh.Interpret.{run_job, interpret_line}
use akiso.Lsh.Interpret.Line.{interpret_line-IsValid}
use akiso.Lsh.Interpret.Running.{takes_job}
use akiso.Lsh.Parser.Line.{Outcome, nothing, syntax_error, job, parse_line}
use akiso.Lsh.Shell.{
  print_pending_jobs, handle_chld, Event, typed, end_of_input, interrupted, children, Loop, running,
  left, jumped_out, after_line, start_loop, start,
}
use akiso.Lsh.Shell.Allocating.{
  run_job-EndsWithin, handle_chld-IsWithin, print_pending_jobs-IsWithin,
}
use akiso.Lsh.Shell.Children.{handle_chld-IsValid}
use akiso.Lsh.Shell.Printing.{print_pending_jobs-IsValid}
use akiso.Lsh.Shell.Shrinking.{IsWithin, EndsWithin}

-- The addresses from the next one on are free.
abbrev pub IsFresh : Heap → Type 0
IsFresh h = (a : ℕ) → h.next ≤ a → h.job_at a ≡ none

abbrev pub IsSound : Shell → Type 0
IsSound s = IsValid s × IsFresh s.heap

abbrev pub EndsSound : Loop → Type 0
EndsSound (running s) = IsSound s
EndsSound (left s) = IsSound s
EndsSound (jumped_out s) = IsSound s

-- What a line is read as: nothing to run, a syntax error, or a job of commands without redirections, with names of at most 127 bytes,
-- that is not `fg` or `bg`.
abbrev pub IsPlainOutcome : Outcome → Type 0
IsPlainOutcome nothing = Unit
IsPlainOutcome syntax_error = Unit
IsPlainOutcome (job j) =
    (p : Process) × (processes : List Process) × (j.pipeline ≡ p ∷ processes)
    × All IsPlain (p ∷ processes)
    × (0 < p.argc)
    × (name : Bytes) × (others : List (Option Bytes)) × (p.arguments ≡ some name ∷ others)
    × (takes_job name ≡ false)

-- A line is read without a fault, which a blank one is not, and is plain, and it meets a kernel that
-- keeps its promises; at a signal `waitpid` names no child outside the current jobs.
abbrev pub IsExpected : Event → Type 0
IsExpected (typed line k) =
    (outcome : Outcome) × (parse_line line ≡ ok outcome)
    × IsPlainOutcome outcome
    × IsKernel k.kernel
    × IsForking k.kernel
    × IsStandard k.table
IsExpected end_of_input = Unit
IsExpected interrupted = Unit
IsExpected (children answers pids) = pids ≡ []

abbrev pub EndsFresh : Ended → Type 0
EndsFresh (returned ret s) = IsFresh s.heap
EndsFresh (jumped s) = IsFresh s.heap

pub IsWithin-IsFresh : (h : Heap) (s : Shell) → IsFresh h → IsWithin h s → IsFresh s.heap
IsWithin-IsFresh h s fresh (next, free) a above = free a (fresh a (omega (arith, next)))

EndsWithin-EndsFresh : (h : Heap) (e : Ended) → IsFresh h → EndsWithin h e → EndsFresh e
EndsWithin-EndsFresh h (returned ret s) fresh within = IsWithin-IsFresh h s fresh within
EndsWithin-EndsFresh h (jumped s) fresh within = IsWithin-IsFresh h s fresh within

pub IsWithin-self : (s : Shell) → IsWithin s.heap s
IsWithin-self s = (refl, λ b free. free)

alloc-IsFresh : (j : Job) (h : Heap) → IsFresh h → IsFresh (alloc j h).1
alloc-IsFresh j h fresh a above = elim (Bool-cases (a == h.next)) [
  | inl same ↦ let e = (==_iff a h.next).0 same in absurd (omega arith)
  | inr apart ↦ rw apart (fresh a (omega arith))
]

pub interpret_line-EndsFresh :
    (line : Bytes) (k : Answers) (s : Shell)
    → IsFresh s.heap
    → Always (interpret_line line k s) EndsFresh
unfolding interpret_line
interpret_line-EndsFresh line k s fresh =
    Always-bind (any (parse_line line)) (λ outcome _. interpreted outcome)
  where
    interpreted :
        (outcome : Outcome)
        → Always
            (elim outcome as (λ _. Run Ended) [
              | nothing ↦ ok (returned pr_ok s)
              | syntax_error ↦ ok (returned pr_syntax_error s)
              | job j ↦ (let (a, heap) = alloc j s.heap in run_job a j k (record s { heap = heap }))
            ])
            EndsFresh
    interpreted nothing = Always-ok EndsFresh fresh
    interpreted syntax_error = Always-ok EndsFresh fresh
    interpreted (job j) =
        let h = (alloc j s.heap).1 in
        λ e run. EndsWithin-EndsFresh h e (alloc-IsFresh j s.heap fresh) (
          run_job-EndsWithin h s.heap.next j k (record s { heap = h }) (refl, λ b free. free) e run)

pub interpret_line_plain :
    (line : Bytes) (k : Answers) (s : Shell)
    → IsExpected (typed line k)
    → IsSound s
    → Gives (interpret_line line k s) IsEndedValid
unfolding interpret_line
interpret_line_plain line k s (nothing, parsed, plain_line, law, forking, standard) (valid, fresh) =
    rw parsed (_, refl, valid)
interpret_line_plain line k s (syntax_error, parsed, plain_line, law, forking, standard)
      (valid, fresh) =
    rw parsed (_, refl, valid)
interpret_line_plain line k s (job j, parsed, plain_line, law, forking, standard) (valid, fresh) =
    let (p, processes, pipeline_is, simple, some_args, name, others, args_are, other) =
      plain_line in
    interpret_line-IsValid line k s j p processes name others parsed valid
      (fresh s.heap.next (omega arith)) pipeline_is simple args_are some_args (inr other) law
      forking standard

print_pending_jobs-IsSound :
    (s : Shell) → IsSound s → Gives (print_pending_jobs s) (λ (t, _). IsSound t)
print_pending_jobs-IsSound s (valid, fresh) =
    let (a, run, ((_, _, _, valid'), within)) =
      Gives-Always (print_pending_jobs-IsValid s valid)
        (print_pending_jobs-IsWithin s.heap s (IsWithin-self s)) in
    (a, run, (valid', IsWithin-IsFresh s.heap a.0 fresh within))

pub handle_chld-IsSound :
    (answers : List (List Status)) (s : Shell)
    → IsSound s
    → Gives (handle_chld answers [] s) IsSound
handle_chld-IsSound answers s (valid, fresh) =
    let (a, run, (valid', within)) =
      Gives-Always (handle_chld-IsValid s answers valid)
        (handle_chld-IsWithin s.heap answers s (IsWithin-self s)) in
    (a, run, (valid', IsWithin-IsFresh s.heap a fresh within))

after_line-EndsSound :
    (done : Ended) → IsEndedValid done → EndsFresh done → EndsSound (after_line done)
after_line-EndsSound (returned pr_exit s) valid fresh = (valid, fresh)
after_line-EndsSound (returned pr_ok s) valid fresh = (valid, fresh)
after_line-EndsSound (returned pr_syntax_error s) valid fresh = (valid, fresh)
after_line-EndsSound (returned pr_error_errno s) valid fresh = (valid, fresh)
after_line-EndsSound (returned pr_other_error s) valid fresh = (valid, fresh)
after_line-EndsSound (jumped s) valid fresh = (valid, fresh)

pub go_on :
    (loop : Loop) (next : Shell → Run Loop)
    → ((t : Shell) → IsSound t → Gives (next t) EndsSound)
    → EndsSound loop
    → Gives
        (elim loop as (λ _. Run Loop) [
          | left t ↦ ok (left t)
          | jumped_out t ↦ ok (jumped_out t)
          | running t ↦ next t
        ])
        EndsSound
go_on (running t) next going sound = going t sound
go_on (left t) next going sound = (_, refl, sound)
go_on (jumped_out t) next going sound = (_, refl, sound)

start_loop-EndsSound :
    (events : List Event) (s : Shell)
    → All IsExpected events
    → IsSound s
    → Gives (start_loop events s) EndsSound
unfolding start_loop
start_loop-EndsSound [] s expected sound = (_, refl, sound)
start_loop-EndsSound (end_of_input ∷ events) s expected sound = (_, refl, sound)
start_loop-EndsSound (interrupted ∷ events) s expected sound =
    Gives-bind (print_pending_jobs-IsSound s sound)
      (λ (t, _) sound'. start_loop-EndsSound events t expected.1 sound')
start_loop-EndsSound (children answers pids ∷ events) s expected sound = rw (expected.0) (
    Gives-bind (handle_chld-IsSound answers s sound)
      (λ t sound'. start_loop-EndsSound events t expected.1 sound'))
start_loop-EndsSound (typed line k ∷ events) s expected sound =
    Gives-bind
      (Gives-Always (interpret_line_plain line k s expected.0 sound)
        (interpret_line-EndsFresh line k s sound.1))
      (λ done (valid, fresh).
        go_on (after_line done) _
          (λ t sound'.
            Gives-bind (print_pending_jobs-IsSound t sound')
              (λ (u, _) sound''. start_loop-EndsSound events u expected.1 sound''))
          (after_line-EndsSound done valid fresh))

-- The loop of `start` never faults, over any sequence of lines, interrupts, signals at which `waitpid`
-- names no child outside the current jobs, and the end of the input, from any valid state whose
-- addresses from the next one on are free, if each line is one that `parse_line` reads without a fault
-- (a blank line is not), as nothing to run, as a syntax error, or as a job of commands without
-- redirections other than `fg` and `bg`, with names of at most 127 bytes, and the kernel gives free
-- descriptors and positive pids and has the standard input and output open. However it ends, the state
-- is such a state again.
pub start-EndsSound :
    (events : List Event) (s : Shell)
    → All IsExpected events
    → IsSound s
    → Gives (start events s) EndsSound
unfolding start
start-EndsSound events s expected sound =
    Gives-bind (print_pending_jobs-IsSound s sound)
      (λ (t, _) sound'. start_loop-EndsSound events t expected sound')
