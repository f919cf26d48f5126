-- ===== src/Lsh/Tests/Pipes.antt =====
-- The redirections, the pipes and the start of a pipeline at concrete commands.
use akiso.Prelude.{
  List, inl, Bool-cases, ==_iff, ℕ, ◌-◌, ltb, ◌+◌, ◌≤◌, ◌<◌, ◌≡◌, refl, Bool, true, false, none,
  some, inr, ◌⊎◌, [], ◌∷◌, arith, ◌==◌, if◌then◌else◌, Bytes, length, replicate, c_str, ◌++◌,
}
use akiso.Prelude.Int.{ℤ, pos, negsuc}
use akiso.Prelude.Run.{ok, fault, Gives}
use akiso.Prelude.Text.{codes, IsText-is_text}
use akiso.Lsh.Job.{Redirect, Job, Heap}
use akiso.Lsh.Execute.{Shell, ended}
use akiso.Lsh.Execute.Builtins.{Answers}
use akiso.Lsh.Execute.Commands.{IsEndedValid}
use akiso.Lsh.Execute.Launch.Errors.{read_error-c_str}
use akiso.Lsh.Execute.Launch.Starting.{IsOutcome, start_job_internal-IsOutcome}
use akiso.Lsh.Execute.Launch.Whole.{start_job_internal}
use akiso.Lsh.Execute.Pipes.{number, read_error}
use akiso.Lsh.Execute.Redirects.{
  plain, Table, do_redirects, do_redirects-file, do_redirects-duplicate,
}
use akiso.Lsh.Execute.Valid.{IsValid}
use akiso.Lsh.Interpret.{interpret_line}
use akiso.Lsh.Interpret.Line.{interpret_line-IsValid}
use akiso.Lsh.Parser.Line.{job, parse_line}
use akiso.Lsh.Utility.{char_in_set}
use akiso.Lsh.Shell.Main.{IsCleared, main-IsCleared}
use akiso.Lsh.Shell.{
  Event, main, typed, end_of_input, interrupted, children, start, copy_to_high_fd,
}
use akiso.Lsh.Shell.Looping.{IsFresh, EndsSound, IsExpected, start-EndsSound}
use akiso.Lsh.Shell.Terminal.{IsHighest, copy_to_high_fd-IsHighest}
use akiso.Lsh.Tests.Kernel.{
  terminal_table, kernel, run_of, three, kernel-IsKernel, kernel-IsForking, terminal-IsStandard,
}

abbrev redirect_of : ℤ → ℤ → Redirect
redirect_of left right = record {
  is_out = true;
  left = [];
  left_fd = left;
  right = codes "out";
  right_fd = right;
}

do_redirects-file_example :
    (after : Table) × (do_redirects
        (redirect_of (pos 1) (negsuc 0) ∷ [])
        (some (3, 7) ∷ [])
        terminal_table
      ≡ some after)
    × (after 1 ≡ some (plain 7))
    × ((d : ℕ) → (d == 1) ≡ false → after d ≡ terminal_table d)
do_redirects-file_example =
    do_redirects-file (redirect_of (pos 1) (negsuc 0)) 1 3 7 terminal_table refl refl refl refl

do_redirects-duplicate_example :
    (after : Table) × (do_redirects (redirect_of (pos 2) (pos 1) ∷ []) [] terminal_table
      ≡ some after)
    × (after 2 ≡ some (plain 0))
    × (after 1 ≡ none)
do_redirects-duplicate_example =
    do_redirects-duplicate (redirect_of (pos 2) (pos 1)) 2 1 (plain 0) terminal_table refl refl refl
      refl

start_job_internal-IsOutcome_example :
    Gives
      (start_job_internal kernel three terminal_table 10)
      (IsOutcome kernel terminal_table 12 (run_of "ls" ∷ run_of "grep" ∷ run_of "wc" ∷ []))
start_job_internal-IsOutcome_example =
    start_job_internal-IsOutcome kernel three terminal_table 10 (run_of "ls")
      (run_of "grep" ∷ run_of "wc" ∷ []) kernel-IsKernel kernel-IsForking terminal-IsStandard refl
      (
        (refl, codes "ls", none ∷ [], refl, omega arith),
        (
          (refl, codes "grep", none ∷ [], refl, omega arith),
          ((refl, codes "wc", none ∷ [], refl, omega arith), tt),
        ),
      )

-- It is started.
three_started : Bool
unfolding start_job_internal
three_started = elim (start_job_internal kernel three terminal_table 10) [
  | fault ↦ false
  | ok (well, l) ↦ well
]

three_started_lem : three_started ≡ true
unfolding three_started
three_started_lem = refl

abbrev buffer : Bytes
buffer = replicate 128 0

read_error-c_str_example :
    ((length (codes "nosuch") < length buffer)
      × (after : Bytes) × (read_error (number 2 (some (codes "nosuch"))) 0 buffer
          ≡ ok (pos (4 + length (codes "nosuch")), 2, after))
      × (c_str after ≡ codes "nosuch")
      × (length after ≡ length buffer))
    ⊎ ((length buffer ≤ length (codes "nosuch"))
        × (read_error (number 2 (some (codes "nosuch"))) 0 buffer ≡ fault))
read_error-c_str_example =
    read_error-c_str 2 0 (codes "nosuch") buffer (IsText-is_text (codes "nosuch") refl)

abbrev heap_of : Job → Heap
heap_of j = record { job_at = λ a. if a == 0 then some j else none; next = 1 }

abbrev new_shell : Shell
new_shell = record {
  heap = heap_of three;
  current_job = [];
  pending_jobs = [];
  pending_removed_jobs = [];
  effects = [];
}

abbrev answers : Answers
answers = record {
  home = codes "/";
  changed = true;
  given = true;
  statuses = [];
  terminal = record { take_back = true; restore = true };
  kernel = kernel;
  table = terminal_table;
  next_file = 10;
}

new_shell-IsValid : IsValid new_shell
new_shell-IsValid a = (omega arith, λ on. absurd (omega arith))

abbrev ls_wc : Bytes
ls_wc = codes "ls | wc" ++ 0 ∷ []

abbrev ls_wc_job : Job
ls_wc_job = record {
  pgid = pos 0;
  fg = true;
  stopped = false;
  falling_apart = false;
  pipeline = run_of "ls" ∷ run_of "wc" ∷ [];
  pipeline_size = 2;
}

ls_wc-job : parse_line ls_wc ≡ ok (job ls_wc_job)
unfolding parse_line char_in_set
ls_wc-job = refl

interpret_line-IsValid_example : Gives (interpret_line ls_wc answers new_shell) IsEndedValid
interpret_line-IsValid_example =
    interpret_line-IsValid ls_wc answers new_shell ls_wc_job (run_of "ls") (run_of "wc" ∷ [])
      (codes "ls") (none ∷ []) ls_wc-job new_shell-IsValid refl refl
      (
        (refl, codes "ls", none ∷ [], refl, omega arith),
        ((refl, codes "wc", none ∷ [], refl, omega arith), tt),
      )
      refl (omega arith) (inr refl) kernel-IsKernel kernel-IsForking terminal-IsStandard

copy_to_high_fd-IsHighest_example :
    IsHighest (λ d. ltb d 3) (250 - 1) (copy_to_high_fd (λ d. ltb d 3) true 0 250)
copy_to_high_fd-IsHighest_example = copy_to_high_fd-IsHighest (λ d. ltb d 3) 0 250 (omega arith)

new_shell-IsFresh : IsFresh new_shell.heap
new_shell-IsFresh a above = elim (Bool-cases (a == 0)) [
  | inl same ↦ let e = (==_iff a 0).0 same in absurd (omega arith)
  | inr apart ↦ rw apart refl
]

-- A pipeline, the end of its two processes, an interrupt, the pipeline again, and the end of the input.
abbrev session : List Event
session =
    typed ls_wc answers
    ∷ children ((ended (pos 100) ∷ ended (pos 101) ∷ []) ∷ []) []
    ∷ interrupted
    ∷ typed ls_wc answers
    ∷ end_of_input
    ∷ []

ls_wc-IsExpected : IsExpected (typed ls_wc answers)
ls_wc-IsExpected = (
  job ls_wc_job,
  ls_wc-job,
  (
    run_of "ls",
    run_of "wc" ∷ [],
    refl,
    (
      (refl, codes "ls", none ∷ [], refl, omega arith),
      ((refl, codes "wc", none ∷ [], refl, omega arith), tt),
    ),
    omega arith,
    codes "ls",
    none ∷ [],
    refl,
    refl,
  ),
  kernel-IsKernel,
  kernel-IsForking,
  terminal-IsStandard,
)

start-EndsSound_example : Gives (start session new_shell) EndsSound
start-EndsSound_example =
    start-EndsSound session new_shell (ls_wc-IsExpected, (refl, (tt, (ls_wc-IsExpected, (tt, tt)))))
      (new_shell-IsValid, new_shell-IsFresh)

-- The same without the end of the input.
abbrev commands : List Event
commands =
    typed ls_wc answers
    ∷ children ((ended (pos 100) ∷ ended (pos 101) ∷ []) ∷ []) []
    ∷ interrupted
    ∷ typed ls_wc answers
    ∷ []

main-IsCleared_example : Gives (main (commands ++ (end_of_input ∷ [])) new_shell) IsCleared
main-IsCleared_example =
    main-IsCleared commands new_shell (ls_wc-IsExpected, (refl, (tt, (ls_wc-IsExpected, tt))))
      ((refl, refl), (tt, (tt, ((refl, refl), tt)))) (new_shell-IsValid, new_shell-IsFresh)
