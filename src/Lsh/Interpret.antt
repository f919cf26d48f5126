-- ===== src/Lsh/Interpret.antt =====
-- `interpret_line` of lsh/parser.c, with the table of built-in commands of lsh/execute.c.
pub mod Branches
pub mod Line
pub mod Running
pub mod Whole
use akiso.Prelude.{ℕ, Option, none, some, List, [], ◌∷◌, if◌then◌else◌, Bytes, take, strcmp_eq}
use akiso.Prelude.Run.{Run, ok, fault, ◌>>=◌}
use akiso.Lsh.Job.{Job, alloc, destroy_job}
use akiso.Lsh.Execute.{pr_ok, pr_syntax_error, Shell, Ended, returned, jumped}
use akiso.Lsh.Execute.Builtins.{Answers, do_cd, do_jobs, do_fg, do_bg, do_exit, start_job}
use akiso.Lsh.Parser.Line.{nothing, syntax_error, job, parse_line}

abbrev pub Command : Type 0
Command = List Bytes → Answers → Shell → Run Ended

-- `builtins` and `builtin_commands`
abbrev pub builtins : List (Bytes × Command)
builtins =
    (b'c' ∷ b'd' ∷ [], do_cd)
    ∷ (b'j' ∷ b'o' ∷ b'b' ∷ b's' ∷ [], do_jobs)
    ∷ (b'f' ∷ b'g' ∷ [], do_fg)
    ∷ (b'b' ∷ b'g' ∷ [], do_bg)
    ∷ (b'e' ∷ b'x' ∷ b'i' ∷ b't' ∷ [], do_exit)
    ∷ []

unfoldable pub find_builtin : Bytes → List (Bytes × Command) → Option Command
find_builtin name [] = none
find_builtin name ((known, command) ∷ table) =
    if strcmp_eq name known then some command else find_builtin name table

-- `destroy_job(job)` behind a command.
unfoldable pub destroy_after : ℕ → Ended → Run Ended
unfolding destroy_job
destroy_after a (returned ret s) = do
  heap ← destroy_job a s.heap
  ok (returned ret (record s { heap = heap }))
destroy_after a (jumped s) = ok (jumped s)

-- The arguments that `argc` counts: a null entry among them is a fault where it is read.
abbrev pub args_of : List (Option Bytes) → List Bytes
args_of [] = []
args_of (none ∷ args) = []
args_of (some a ∷ args) = a ∷ args_of args

-- The job at address `a`: a built-in command, which stands alone, or a job to start.
unfoldable pub run_job : ℕ → Job → Answers → Shell → Run Ended
unfolding find_builtin destroy_after destroy_job start_job
run_job a j k s = elim j.pipeline [
  | [] ↦ fault
  | p ∷ others ↦ elim p.arguments [
    | [] ↦ fault
    | none ∷ _ ↦ fault
    | some name ∷ args ↦ elim (find_builtin name builtins) [
      | none ↦ start_job a k s
      | some command ↦ elim others [
        | q ∷ _ ↦ destroy_after a (returned pr_syntax_error s)
        | [] ↦ do done ← command (take p.argc (args_of p.arguments)) k s; destroy_after a done
      ]
    ]
  ]
]

-- The jobs that the parser gives up are freed by it, so they are not allocated here.
unfoldable pub interpret_line : Bytes → Answers → Shell → Run Ended
unfolding parse_line run_job
interpret_line line k s = do
  outcome ← parse_line line
  elim outcome [
    | nothing ↦ ok (returned pr_ok s)
    | syntax_error ↦ ok (returned pr_syntax_error s)
    | job j ↦ (let (a, heap) = alloc j s.heap in run_job a j k (record s { heap = heap }))
  ]
