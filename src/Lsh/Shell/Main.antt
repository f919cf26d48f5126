-- ===== src/Lsh/Shell/Main.antt =====
-- `main` of lsh/main.c as a whole: the loop of `start` and the clean-up.
use akiso.Prelude.{
  ℕ, ◌≡◌, refl, Bool-cases, List, [], ◌∷◌, ◌++◌, ◌==◌, ◌%◌, ◌^◌, inl, inr, Bytes, All, ◌∙◌,
}
use akiso.Prelude.Run.{Run, ok, Always, Always-ok, Always-bind, Gives, Gives-bind, Gives-Always}
use akiso.Lsh.Job.{load, remove_job_handle, update, alloc}
use akiso.Lsh.Execute.{
  pr_ok, pr_exit, pr_syntax_error, pr_error_errno, pr_other_error, Shell, Status, ended, halted,
  Ended, returned, jumped,
}
use akiso.Lsh.Execute.Builtins.{Answers}
use akiso.Lsh.Execute.Commands.{IsEndedValid}
use akiso.Lsh.Execute.Staying.{any}
use akiso.Lsh.Interpret.{run_job, interpret_line}
use akiso.Lsh.Parser.Line.{Outcome, nothing, syntax_error, job, parse_line}
use akiso.Lsh.Shell.{
  print_pending_jobs, handle_chld, note_child, note_children, retire, check_jobs, check_others,
  Event, typed, end_of_input, interrupted, children, Loop, running, left, jumped_out, after_line,
  start_loop, start, cleanup, main,
}
use akiso.Lsh.Shell.Allocating.{print_pending_jobs-IsWithin}
use akiso.Lsh.Shell.Cleanup.{cleanup-IsValid}
use akiso.Lsh.Shell.Ending.{IsSteady, EndsCalm, run_job-EndsCalm}
use akiso.Lsh.Shell.Looping.{
  IsSound, IsExpected, EndsFresh, interpret_line-EndsFresh, interpret_line_plain,
  handle_chld-IsSound, IsWithin-IsFresh, IsWithin-self,
}
use akiso.Lsh.Shell.Printing.{print_pending_jobs-IsValid}

-- As it is at the prompt: nothing waits to be printed.
abbrev pub IsQuiet : Shell → Type 0
IsQuiet s = IsSound s × (s.pending_jobs ≡ [])

abbrev pub IsSteadyEvent : Event → Type 0
IsSteadyEvent (typed line k) = IsSteady k
IsSteadyEvent end_of_input = Unit
IsSteadyEvent interrupted = Unit
IsSteadyEvent (children answers pids) = Unit

abbrev HasLeft : Loop → Type 0
HasLeft (left s) = IsQuiet s
HasLeft (running s) = ⊥
HasLeft (jumped_out s) = ⊥

abbrev IsCalm : Loop → Type 0
IsCalm (left s) = IsQuiet s
IsCalm (running s) = IsSound s
IsCalm (jumped_out s) = ⊥

abbrev pub IsCleared : Shell → Type 0
IsCleared t = (t.current_job ≡ []) × (t.pending_jobs ≡ []) × (t.pending_removed_jobs ≡ [])

abbrev Keeps : Shell → Shell → Type 0
Keeps s t = t.pending_jobs ≡ s.pending_jobs

note_child-Keeps : (status : Status) (a : ℕ) (s : Shell) → Always (note_child status a s) (Keeps s)
unfolding note_child
note_child-Keeps (ended pid) a s =
    Always-bind (any (load a s.heap))
      (λ job _. Always-bind (any (update a _ s.heap)) (λ heap _. Always-ok (Keeps s) refl))
note_child-Keeps (halted pid signum) a s =
    Always-bind (any (load a s.heap))
      (λ job _. Always-bind (any (update a _ s.heap)) (λ heap _. Always-ok (Keeps s) refl))

note_children-Keeps :
    (statuses : List Status) (a : ℕ) (s t : Shell)
    → Keeps s t
    → Always (note_children statuses a t) (Keeps s)
unfolding note_children
note_children-Keeps [] a s t same = Always-ok (Keeps s) same
note_children-Keeps (status ∷ statuses) a s t same =
    Always-bind (note_child-Keeps status a t)
      (λ t' same'. note_children-Keeps statuses a s t' (same' ∙ same))

retire-Keeps : (a : ℕ) (s t : Shell) → Keeps s t → Always (retire a t) (Keeps s)
unfolding retire
retire-Keeps a s t same = Always-bind (any (load a t.heap)) (λ job _.
    elim (Bool-cases (job.pipeline_size % 2 ^ 32 == 0)) [
      | inl none_left ↦ rw none_left (
          Always-bind (any (remove_job_handle t.heap t.current_job job.pgid))
            (λ (removed, current) _. Always-ok (Keeps s) same))
      | inr some_left ↦ rw some_left (Always-ok (Keeps s) same)
    ])

check_jobs-Keeps :
    (handles : List ℕ) (answers : List (List Status)) (s t : Shell)
    → Keeps s t
    → Always (check_jobs handles answers t) (Keeps s)
unfolding check_jobs
check_jobs-Keeps [] answers s t same = Always-ok (Keeps s) same
check_jobs-Keeps (a ∷ handles) [] s t same =
    Always-bind (retire-Keeps a s t same) (λ t' same'. check_jobs-Keeps handles [] s t' same')
check_jobs-Keeps (a ∷ handles) (statuses ∷ answers) s t same =
    Always-bind (note_children-Keeps statuses a s t same) (λ t' same'.
      Always-bind (retire-Keeps a s t' same')
        (λ t'' same''. check_jobs-Keeps handles answers s t'' same''))

handle_chld-IsQuiet :
    (answers : List (List Status)) (s : Shell)
    → IsQuiet s
    → Gives (handle_chld answers [] s) IsQuiet
unfolding handle_chld check_others
handle_chld-IsQuiet answers s (sound, none_pending) =
    let (t, run, (sound', same)) = Gives-Always (handle_chld-IsSound answers s sound) (
      Always-bind (check_jobs-Keeps s.current_job answers s s refl)
        (λ t same. Always-ok (Keeps s) same)) in
    (t, run, (sound', same ∙ none_pending))

print_pending_jobs-IsQuiet :
    (s : Shell) → IsSound s → Gives (print_pending_jobs s) (λ (t, _). IsQuiet t)
print_pending_jobs-IsQuiet s (valid, fresh) =
    let (a, run, ((none_pending, _, _, valid'), within)) =
      Gives-Always (print_pending_jobs-IsValid s valid)
        (print_pending_jobs-IsWithin s.heap s (IsWithin-self s)) in
    (a, run, ((valid', IsWithin-IsFresh s.heap a.0 fresh within), none_pending))

interpret_line-EndsCalm :
    (line : Bytes) (k : Answers) (s : Shell)
    → IsSteady k
    → s.pending_jobs ≡ []
    → Always (interpret_line line k s) EndsCalm
unfolding interpret_line
interpret_line-EndsCalm line k s steady none_pending =
    Always-bind (any (parse_line line)) (λ outcome _. interpreted outcome)
  where
    interpreted :
        (outcome : Outcome)
        → Always
            (elim outcome as (λ _. Run Ended) [
              | nothing ↦ ok (returned pr_ok s)
              | syntax_error ↦ ok (returned pr_syntax_error s)
              | job j ↦ (let (a, heap) = alloc j s.heap in run_job a j k (record s { heap = heap }))
            ])
            EndsCalm
    interpreted nothing = Always-ok EndsCalm (λ e. cc)
    interpreted syntax_error = Always-ok EndsCalm (λ e. cc)
    interpreted (job j) =
        run_job-EndsCalm s.heap.next j k (record s { heap = (alloc j s.heap).1 }) steady
          none_pending

after_line-IsCalm :
    (done : Ended) → IsEndedValid done → EndsFresh done → EndsCalm done → IsCalm (after_line done)
after_line-IsCalm (returned pr_exit s) valid fresh calm = ((valid, fresh), calm refl)
after_line-IsCalm (returned pr_ok s) valid fresh calm = (valid, fresh)
after_line-IsCalm (returned pr_syntax_error s) valid fresh calm = (valid, fresh)
after_line-IsCalm (returned pr_error_errno s) valid fresh calm = (valid, fresh)
after_line-IsCalm (returned pr_other_error s) valid fresh calm = (valid, fresh)
after_line-IsCalm (jumped s) valid fresh calm = absurd calm

leaves :
    (loop : Loop) (next : Shell → Run Loop)
    → ((t : Shell) → IsSound t → Gives (next t) HasLeft)
    → IsCalm loop
    → Gives
        (elim loop as (λ _. Run Loop) [
          | left t ↦ ok (left t)
          | jumped_out t ↦ ok (jumped_out t)
          | running t ↦ next t
        ])
        HasLeft
leaves (running t) next going sound = going t sound
leaves (left t) next going quiet = (_, refl, quiet)
leaves (jumped_out t) next going calm = absurd calm

start_loop-HasLeft :
    (events : List Event) (s : Shell)
    → All IsExpected events
    → All IsSteadyEvent events
    → IsQuiet s
    → Gives (start_loop (events ++ (end_of_input ∷ [])) s) HasLeft
unfolding start_loop
start_loop-HasLeft [] s expected steady quiet = (_, refl, quiet)
start_loop-HasLeft (end_of_input ∷ events) s expected steady quiet = (_, refl, quiet)
start_loop-HasLeft (interrupted ∷ events) s expected steady quiet =
    Gives-bind (print_pending_jobs-IsQuiet s quiet.0)
      (λ (t, _) quiet'. start_loop-HasLeft events t expected.1 steady.1 quiet')
start_loop-HasLeft (children answers pids ∷ events) s expected steady quiet = rw (expected.0) (
    Gives-bind (handle_chld-IsQuiet answers s quiet)
      (λ t quiet'. start_loop-HasLeft events t expected.1 steady.1 quiet'))
start_loop-HasLeft (typed line k ∷ events) s expected steady quiet =
    Gives-bind
      (Gives-Always {Q = λ done. EndsFresh done × EndsCalm done}
        (interpret_line_plain line k s expected.0 quiet.0)
        (λ done run. (
          interpret_line-EndsFresh line k s quiet.0.1 done run,
          interpret_line-EndsCalm line k s steady.0 quiet.1 done run,
        )))
      (λ done (valid, (fresh, calm)).
        leaves (after_line done) _
          (λ t sound.
            Gives-bind (print_pending_jobs-IsQuiet t sound)
              (λ (u, _) quiet'. start_loop-HasLeft events u expected.1 steady.1 quiet'))
          (after_line-IsCalm done valid fresh calm))

HasLeft-IsCleared :
    (loop : Loop)
    → HasLeft loop
    → Gives
        (elim loop as (λ _. Run Shell) [
          | running t ↦ ok t
          | left t ↦ cleanup t
          | jumped_out t ↦ cleanup t
        ])
        IsCleared
HasLeft-IsCleared (running t) none = absurd none
HasLeft-IsCleared (jumped_out t) none = absurd none
HasLeft-IsCleared (left t) ((valid, fresh), none_pending) = cleanup-IsValid t valid none_pending

-- The whole shell, from a valid state whose addresses from the next one on are free, over any sequence
-- of lines, interrupts and signals at which `waitpid` names no child outside the current jobs, up to the
-- end of the input, never faults and ends with no job on any of its lists, if each line is one that
-- `parse_line` reads without a fault (a blank line is not), as nothing to run, as a syntax error, or as a
-- job of commands without redirections other than `fg` and `bg`, with names of at most 127 bytes, the
-- kernel gives free descriptors and positive pids and has the standard input and output open, and the
-- terminal can always be taken back and restored.
pub main-IsCleared :
    (events : List Event) (s : Shell)
    → All IsExpected events
    → All IsSteadyEvent events
    → IsSound s
    → Gives (main (events ++ (end_of_input ∷ [])) s) IsCleared
unfolding main start
main-IsCleared events s expected steady sound =
    Gives-bind
      (Gives-bind (print_pending_jobs-IsQuiet s sound)
        (λ (t, _) quiet. start_loop-HasLeft events t expected steady quiet))
      HasLeft-IsCleared
