-- ===== src/Lsh/Execute/Pipes.antt =====
-- The pipes of lsh/execute.c: `link_pipes`, `close_pipe`, `create_pipe`, and `read_error`, which reads
-- what a child reports of its start.
use akiso.Prelude.{
  ℕ, zero, suc, ◌+◌, ◌/◌, ◌%◌, Bool, true, false, not, ◌&&◌, Option, none, some, ◌∷◌, ◌++◌, ◌==◌,
  ltb, if◌then◌else◌, Bytes, length, take, drop,
}
use akiso.Prelude.Int.{ℤ, pos, negsuc, ◌==ℤ◌}
use akiso.Prelude.Run.{Run, ok, fault}
use akiso.Lsh.Execute.Redirects.{Opens, Table, put_fd, dup2}

-- What the kernel answers. A pipe is a new file to read, the next number, and one to write, the
-- number behind it; `pipe` gives their descriptors in a table, and the four calls of `fcntl` may fail
-- for a pipe. The rest is by the place of a process in the pipeline: `fork` gives the pid of a child,
-- `open` and `execvp` are called in it, and a read of its error pipe may fail or be interrupted.
pub record Kernel : Type 0 where
  pub pipe : ℕ → Table → Option (ℕ × ℕ)
  pub fcntl : ℕ → ℕ → Bool
  pub fork : ℕ → Option ℕ
  pub opens : ℕ → Opens
  pub give_terminal : Bool
  pub execvp : ℕ → Bool
  pub read_fails : ℕ → Bool
  pub errno : ℕ → ℕ

abbrev pub Fds : Type 0
Fds = ℤ × ℤ

abbrev pub no_fd : ℤ
no_fd = negsuc 0

-- `in_fd` and `out_fd` are -2 where there is nothing to link; `none` is -1.
abbrev pub link_end : ℤ → ℕ → Table → Option Table
link_end fd target table = if fd ==ℤ negsuc 1 then some table else dup2 fd (pos target) table

unfoldable pub link_pipes : ℤ → ℤ → Table → Option Table
unfolding dup2
link_pipes in_fd out_fd table = elim (link_end in_fd 0 table) [
  | none ↦ none
  | some table' ↦ link_end out_fd 1 table'
]

-- One end in `close_pipe`: whether it did not fail, the variable afterwards and the table.
unfoldable pub close_end : ℤ → Table → Bool × ℤ × Table
close_end (pos (suc fd)) table = elim (table (suc fd)) [
  | none ↦ (false, pos (suc fd), table)
  | some behind ↦ (true, no_fd, put_fd (suc fd) none table)
]
close_end (pos zero) table = (true, pos 0, table)
close_end (negsuc n) table = (true, negsuc n, table)

abbrev close_if : Bool → ℤ → Table → Bool × ℤ × Table
close_if asked fd table = if asked then close_end fd table else (true, fd, table)

unfoldable pub close_pipe : ℕ → Fds → Table → Bool × Fds × Table
unfolding close_end
close_pipe which fds table =
    let (closed0, fd0, table0) = close_if (which % 2 == 1) fds.0 table in
    let (closed1, fd1, table1) = close_if (which / 2 % 2 == 1) fds.1 table0 in
    (closed0 && closed1, (fd0, fd1), table1)

abbrev pub with_ends : ℕ → ℕ → ℕ → Bool → Table → Table
with_ends r w next flag table =
    put_fd w (some (record { file = next + 1; close_on_exec = flag }))
      (put_fd r (some (record { file = next; close_on_exec = flag })) table)

-- A pipe with its flags as they are asked for; `false` is -1.
unfoldable pub create_pipe : Kernel → Bool → ℕ → Fds → Table → Bool × Fds × Table
unfolding close_pipe
create_pipe k close_on_exec next fds table = elim (k.pipe next table) [
  | none ↦ (false, fds, table)
  | some (r, w) ↦
      let made = with_ends r w next close_on_exec table in
      let flagged = k.fcntl next 0 && k.fcntl next 1 && k.fcntl next 2 && k.fcntl next 3 in
      if close_on_exec && not flagged
      then (let (_, fds', table') = close_pipe 3 (pos r, pos w) made in (false, fds', table'))
      else (true, (pos r, pos w), made)
]

-- What the two calls of `read` in `read_error` give: nothing at the end of the pipe, a failure or an
-- interruption, fewer bytes than a number, or a number; then the bytes there are, or a failure.
pub data Heard : Type 0 where
  at_end : Heard
  failed : Heard
  fewer : ℕ → Heard
  number : ℕ → Option Bytes → Heard

-- The result, `*err`, and the buffer, which holds as many bytes as the argument says. A failure of
-- the second read gives the result 3, and the terminator goes to the place in front of the buffer.
-- An interruption is a failure: its result is not the size of a number, either.
unfoldable pub read_error : Heard → ℕ → Bytes → Run (ℤ × ℕ × Bytes)
read_error at_end err buff = ok (pos 0, err, buff)
read_error failed err buff = ok (negsuc 0, err, buff)
read_error (fewer e) err buff = ok (negsuc 0, e, buff)
read_error (number e none) err buff = fault
read_error (number e (some message)) err buff =
    let got = take (length buff) message in
    if ltb (length got) (length buff)
    then ok (pos (4 + length got), e, got ++ 0 ∷ drop (length got + 1) buff)
    else fault
