-- ===== src/Lsh/Execute/Launch/Whole.antt =====
-- The frame of `start_job_internal` of lsh/execute.c: the control pipe, the end of a pipeline that is
-- started, and the error label.
use akiso.Prelude.{
  ℕ, ◌+◌, Bool, true, false, not, List, [], ◌∷◌, ◌++◌, ◌==◌, if◌then◌else◌, replicate,
}
use akiso.Prelude.Int.{pos, negsuc, ltb_ℤ}
use akiso.Prelude.Run.{Run, ok, ◌>>=◌}
use akiso.Lsh.Job.{Job}
use akiso.Lsh.Execute.{message, terminate}
use akiso.Lsh.Execute.Redirects.{Table}
use akiso.Lsh.Execute.Pipes.{Kernel, Fds, no_fd, close_pipe, create_pipe, Heard, failed}
use akiso.Lsh.Execute.Launch.{Child, Launch, hear, listen, start_processes}

-- The `error_label`.
unfoldable pub give_up : Launch → Launch
unfolding close_pipe
give_up l =
    let (_, control, table) = close_pipe 3 l.control_pipe l.table in
    let (_, pipefds, table') = close_pipe 3 l.pipefds table in
    let (_, error_pipe, table'') = close_pipe 3 l.error_pipe table' in
    record l {
      table = table'';
      control_pipe = control;
      pipefds = pipefds;
      error_pipe = error_pipe;
      effects =
          l.effects
          ++ (if ltb_ℤ (pos 0) l.pgid then terminate l.pgid else [])
          ++ (if l.child_errno == 0 then [] else message ∷ []);
    }

-- What is read from `first_error_pipe_read`, which is -1 where no child was started.
abbrev pub first_heard : Kernel → List Child → Heard
first_heard k [] = failed
first_heard k (child ∷ children) = hear k 0 child.ending

-- What stands behind the loop, up to `return 0`.
unfoldable pub finish : Kernel → Launch → Run (Bool × Launch)
unfolding close_pipe hear listen
finish k l = do
  let (_, control, table) = close_pipe 3 l.control_pipe l.table
  let (_, pipefds, table') = close_pipe 3 l.pipefds table
  (well, l') ←
      listen (first_heard k l.children)
        (record l { table = table'; control_pipe = control; pipefds = pipefds })
  let (_, first, table'') = close_pipe 1 (l'.first_error_pipe_read, no_fd) l'.table
  let (_, error_pipe, table''') = close_pipe 3 l'.error_pipe table''
  ok (
    well,
    if well
        then record l' {
          first_error_pipe_read = first.0;
          error_pipe = error_pipe;
          table = table''';
        }
        else l',
  )

abbrev pub start_launch : Fds → Table → ℕ → Job → Launch
start_launch control table next job = record {
  table = table;
  next = next;
  control_pipe = control;
  pipefds = (no_fd, no_fd);
  error_pipe = (no_fd, no_fd);
  prevfd = negsuc 1;
  first_error_pipe_read = no_fd;
  child_errno = 0;
  error_buff = replicate 128 0;
  pgid = job.pgid;
  children = [];
  effects = [];
}

-- The rest of `start_job_internal`, from what `create_pipe` gives for the control pipe.
unfoldable pub with_control : Kernel → Job → ℕ → Bool × Fds × Table → Run (Bool × Launch)
unfolding start_processes finish give_up
with_control k job next (made, control, table) =
    let l = start_launch control table (next + 2) job in
    if not made then ok (false, l) else (do
      (well, l') ← start_processes k 0 true job.fg job.pipeline l
      (well', l'') ← (if well then finish k l' else ok (false, l'))
      ok (well', if well' then l'' else give_up l''))

-- `true` is the result 0, and `false` is -1.
unfoldable pub start_job_internal : Kernel → Job → Table → ℕ → Run (Bool × Launch)
unfolding create_pipe with_control
start_job_internal k job table next =
    with_control k job next (create_pipe k true next (no_fd, no_fd) table)
