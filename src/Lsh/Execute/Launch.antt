-- ===== src/Lsh/Execute/Launch.antt =====
-- `start_job_internal` of lsh/execute.c: the shell's own table of descriptors while it starts the
-- processes of a job, and what each child does until it is the program. A child does not touch the
-- shell's table, so it runs here where it is forked. The wait of the first child for the control pipe
-- to be closed, and the signal masks, have no place in this state.
pub mod Children
pub mod Errors
pub mod First
pub mod Giving
pub mod Looping
pub mod Pipeline
pub mod Piping
pub mod Ready
pub mod Rounds
pub mod Starting
pub mod Tables
pub mod Closing
pub mod Linking
pub mod Grouping
pub mod Whole
use akiso.Prelude.{
  ℕ, ◌+◌, Bool, true, false, not, ◌&&◌, Option, none, some, List, [], ◌∷◌, ◌++◌, ◌==◌,
  if◌then◌else◌, Bytes,
}
use akiso.Prelude.Int.{ℤ, pos, ◌==ℤ◌, ltb_ℤ}
use akiso.Prelude.Text.{codes}
use akiso.Prelude.Run.{Run, ok, fault, ◌>>=◌}
use akiso.Lsh.Job.{Process}
use akiso.Lsh.Execute.{Effect, message, terminate}
use akiso.Lsh.Execute.Redirects.{Table, close, do_redirects}
use akiso.Lsh.Execute.Pipes.{
  Kernel, Fds, no_fd, link_pipes, close_pipe, create_pipe, Heard, at_end, failed, number,
  read_error,
}

-- What becomes of a child: the program, with the descriptors that are open in it and its arguments,
-- or an end behind `write_error`, with the message.
pub data ChildEnd : Type 0 where
  executes : Table → List (Option Bytes) → ChildEnd
  exits : Bytes → ChildEnd

-- A child, and the process group that it is put into.
pub record Child : Type 0 where
  pub pid : ℕ
  pub group : ℤ
  pub ending : ChildEnd

-- The local variables of `start_job_internal`, the shell's table of descriptors, the number of the
-- next file that is with_ends, `job->pgid`, and what was done outside.
pub record Launch : Type 0 where
  pub table : Table
  pub next : ℕ
  pub control_pipe : Fds
  pub pipefds : Fds
  pub error_pipe : Fds
  pub prevfd : ℤ
  pub first_error_pipe_read : ℤ
  pub child_errno : ℕ
  pub error_buff : Bytes
  pub pgid : ℤ
  pub children : List Child
  pub effects : List Effect

-- `execvp` closes the descriptors with the flag.
unfoldable pub exec_table : Table → Table
exec_table table d = elim (table d) [
  | none ↦ none
  | some behind ↦ if behind.close_on_exec then none else some behind
]

-- The child from `setpgid` on.
unfoldable pub become : Kernel → ℕ → Bool → Bool → Process → Fds → Table → Run ChildEnd
unfolding close_pipe close exec_table
become k i first fg p control_pipe table = elim p.arguments [
  | [] ↦ fault
  | none ∷ _ ↦ fault
  | some name ∷ args ↦
      (let (closed, _, table') =
          if first then close_pipe 2 control_pipe table else (true, control_pipe, table) in
        if first && fg && not k.give_terminal
        then ok (exits (codes "couldn't get terminal"))
        else if not closed
        then ok (exits (codes "pipe"))
        else if k.execvp i
        then ok (executes (exec_table (close control_pipe.0 table')) p.arguments)
        else ok (exits name))
]

-- The `case 0` of the switch.
unfoldable pub child : Kernel → ℕ → Bool → Bool → Bool → Process → Launch → Run ChildEnd
unfolding link_pipes do_redirects close_pipe become
child k i first last fg p l =
    elim (link_pipes l.prevfd (if last then pos 1 else l.pipefds.1) l.table) [
      | none ↦ ok (exits (codes "pipe or redirect"))
      | some linked ↦ elim (do_redirects p.redirects (k.opens i) linked) [
        | none ↦ ok (exits (codes "pipe or redirect"))
        | some redirected ↦
            (let (_, _, table) = close_pipe 1 (l.prevfd, no_fd) redirected in
              let (_, _, table') =
                if last then (true, l.pipefds, table) else close_pipe 2 l.pipefds table in
              become k i first fg p l.control_pipe table')
      ]
    ]

-- What the shell hears from a child: the pipe ends when the child is the program.
unfoldable pub hear : Kernel → ℕ → ChildEnd → Heard
hear k i (executes _ _) = if k.read_fails i then failed else at_end
hear k i (exits text) = if k.read_fails i then failed else number (k.errno i) (some text)

-- `read_error(…, &child_errno, error_buff, 128) != 0`
unfoldable pub listen : Heard → Launch → Run (Bool × Launch)
unfolding read_error
listen heard l = do
  (ret, err, buff) ← read_error heard l.child_errno l.error_buff
  ok (ret ==ℤ pos 0, record l { child_errno = err; error_buff = buff })

-- The closes of the shell's own ends behind a `fork`.
unfoldable pub close_parent : Bool → Launch → Launch
unfolding close_pipe
close_parent last l =
    let (_, fds, table) = close_pipe 1 (l.prevfd, no_fd) l.table in
    let (_, pipefds, table') =
      if last then (true, l.pipefds, table) else close_pipe 2 l.pipefds table in
    record l { table = table'; pipefds = pipefds; prevfd = if last then fds.0 else pipefds.0 }

-- The `default` case: `false` is the jump to the error label.
unfoldable pub parent : Kernel → ℕ → Bool → Bool → ℕ → ChildEnd → Launch → Run (Bool × Launch)
unfolding close_parent close_pipe hear listen
parent k i first last pid ending l =
    let l' = close_parent last l in
    let pgid = if first then pos pid else l'.pgid in
    let (closed, error_pipe, table) = close_pipe 2 l'.error_pipe l'.table in
    let new : Child = record { pid = pid; group = pgid; ending = ending } in
    let l'' : Launch = record l' {
      pgid = pgid;
      children = l'.children ++ new ∷ [];
      table = table;
      error_pipe = error_pipe;
    } in
    if not closed
    then ok (false, l'')
    else if first
    then ok (true, record l'' { first_error_pipe_read = error_pipe.0 })
    else (do
      (well, l''') ← listen (hear k i ending) l''
      let (_, error_pipe', table') = close_pipe 1 l'''.error_pipe l'''.table
      ok (well, if well then record l''' { error_pipe = error_pipe'; table = table' } else l'''))

-- The switch on `fork`: both processes, or the jump to the error label.
unfoldable pub fork_process :
    Kernel → ℕ → Bool → Bool → Bool → Process → Launch → Run (Bool × Launch)
unfolding child parent
fork_process k i first last fg p l = elim (k.fork i) [
  | none ↦ ok (false, l)
  | some pid ↦ do ending ← child k i first last fg p l; parent k i first last pid ending l
]

-- A round from what `create_pipe` gives for the error pipe, and before it for the pipe.
unfoldable pub with_error_pipe :
    Kernel → ℕ → Bool → Bool → Bool → Process → Launch → Bool × Fds × Table → Run (Bool × Launch)
unfolding fork_process
with_error_pipe k i first last fg p l (made, fds, table) =
    let l' : Launch = record l { table = table; error_pipe = fds; next = l.next + 2 } in
    if made then fork_process k i first last fg p l' else ok (false, l')

unfoldable pub with_pipe :
    Kernel → ℕ → Bool → Bool → Process → Launch → Bool × Fds × Table → Run (Bool × Launch)
unfolding create_pipe with_error_pipe
with_pipe k i first fg p l (made, fds, table) =
    let l' : Launch = record l { table = table; pipefds = fds; next = l.next + 2 } in
    if made
    then with_error_pipe k i first false fg p l' (create_pipe k true l'.next l'.error_pipe table)
    else ok (false, l')

-- One round of the loop.
unfoldable pub start_process :
    Kernel → ℕ → Bool → Bool → Bool → Process → Launch → Run (Bool × Launch)
unfolding create_pipe with_error_pipe with_pipe
start_process k i first true fg p l =
    with_error_pipe k i first true fg p l (create_pipe k true l.next l.error_pipe l.table)
start_process k i first false fg p l =
    with_pipe k i first fg p l (create_pipe k true l.next l.pipefds l.table)

abbrev pub is_last : List Process → Bool
is_last [] = true
is_last (p ∷ processes) = false

unfoldable pub start_processes :
    Kernel → ℕ → Bool → Bool → List Process → Launch → Run (Bool × Launch)
unfolding start_process
start_processes k i first fg [] l = ok (true, l)
start_processes k i first fg (p ∷ processes) l = do
  (well, l') ← start_process k i first (is_last processes) fg p l
  elim well [ false ↦ ok (false, l') | true ↦ start_processes k (i + 1) false fg processes l' ]
