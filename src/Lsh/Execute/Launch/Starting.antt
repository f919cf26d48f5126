-- ===== src/Lsh/Execute/Launch/Starting.antt =====
-- What `start_job_internal` of lsh/execute.c promises of a pipeline that it starts.
use akiso.Prelude.{
  ℕ, ◌+◌, ◌≡◌, ◌≢◌, refl, sym, ap, subst, ◌∙◌, Bool, true, false, Bool-cases, none, some, List, [],
  ◌∷◌, map, All, inl, inr,
}
use akiso.Prelude.Int.{pos, negsuc}
use akiso.Prelude.Run.{Gives, Gives-bind, Gives-Always}
use akiso.Lsh.Job.{Process, Job}
use akiso.Lsh.Execute.Redirects.{Table}
use akiso.Lsh.Execute.Pipes.{Kernel, no_fd, with_ends, close_end, close_pipe, create_pipe}
use akiso.Lsh.Execute.Launch.{Child, ChildEnd, Launch, hear, is_last}
use akiso.Lsh.Execute.Launch.Linking.{IsPlain, wire}
use akiso.Lsh.Execute.Launch.Children.{listen-executes}
use akiso.Lsh.Execute.Launch.First.{Looped, pipeline_first, start_processes-Looped}
use akiso.Lsh.Execute.Launch.Giving.{IsGivenUp, IsForking, start_job_internal-IsGivenUp}
use akiso.Lsh.Execute.Launch.Looping.{writes}
use akiso.Lsh.Execute.Launch.Pipeline.{pipeline, endings, IsIn}
use akiso.Lsh.Execute.Launch.Piping.{pos-inj}
use akiso.Lsh.Execute.Launch.Ready.{Going, IsKernel, IsStandard, with_ends-NewPipe}
use akiso.Lsh.Execute.Launch.Tables.{
  Clear, Holds, create_pipe_made, close_end-drops, close_end-Holds,
}
use akiso.Lsh.Execute.Launch.Whole.{
  first_heard, finish, start_launch, with_control, start_job_internal,
}

-- The shell holds no descriptor of the pipeline, each program has its files, and all are in the
-- group of the first one.
abbrev pub IsStarted : Kernel → Table → ℕ → List Process → Launch → Type 0
IsStarted k base next processes l =
    ((d : ℕ) → l.table d ≡ base d)
    × (endings l ≡ pipeline base next none processes)
    × (pid : ℕ) × (l.pgid ≡ pos pid)
    × (k.fork 0 ≡ some pid)
    × All (IsIn l.pgid) l.children

cons-inj : (a b : ChildEnd) (es fs : List ChildEnd) → a ∷ es ≡ b ∷ fs → a ≡ b
cons-inj a b es fs h = cc

-- The child that is heard last is the first one.
first_heard_lem :
    (k : Kernel) (children : List Child) (ending : ChildEnd) (others : List ChildEnd)
    → map (λ (c : Child). c.ending) children ≡ ending ∷ others
    → first_heard k children ≡ hear k 0 ending
first_heard_lem k [] ending others h = cc
first_heard_lem k (c ∷ children) ending others h =
    ap (hear k 0) (cons-inj c.ending ending (map (λ (c : Child). c.ending) children) others h)

abbrev close_last : Launch → Launch
close_last l =
    let (_, first, table) = close_pipe 1 (l.first_error_pipe_read, no_fd) l.table in
    let (_, error_pipe, table') = close_pipe 3 l.error_pipe table in
    record l { first_error_pipe_read = first.0; error_pipe = error_pipe; table = table' }

abbrev close_first : Launch → Launch
close_first l =
    let (_, control, table) = close_pipe 3 l.control_pipe l.table in
    let (_, pipefds, table') = close_pipe 3 l.pipefds table in
    record l { table = table'; control_pipe = control; pipefds = pipefds }

module _ (k : Kernel) (base : Table) (zero_open : base 0 ≢ none) where
  -- The two closes of the control pipe and of the last pipe.
  close_controls :
      (l : Launch)
      → Going base true l
      → Holds base (l.first_error_pipe_read ∷ []) (close_first l).table
  unfolding close_pipe
  close_controls l g =
      let (prev, (first, (control0, (control1, _)))) = g.clear in
      let (pipe0, (pipe1, _)) = g.clear_pipe in
      let first_left = l.first_error_pipe_read ∷ [] in
      let table = (close_end l.control_pipe.0 l.table).2 in
      let left =
        close_end-drops l.control_pipe.0 (l.control_pipe.1 ∷ first_left) l.table zero_open control0
          (λ d (o0, (o1, (o, _))). g.holds d (o, (o0, (o1, tt)))) in
      let left' = close_end-drops l.control_pipe.1 first_left table zero_open control1 left in
      let table' = (close_end l.control_pipe.1 table).2 in
      close_end-Holds l.pipefds.1 first_left (close_end l.pipefds.0 table').2 zero_open pipe1
        (close_end-Holds l.pipefds.0 first_left table' zero_open pipe0 left')

  -- And those of the error pipes.
  close_errors :
      (l : Launch)
      → Clear base l.first_error_pipe_read
      → All (Clear base) (l.error_pipe.0 ∷ l.error_pipe.1 ∷ [])
      → Holds base (l.first_error_pipe_read ∷ []) l.table
      → (d : ℕ) → (close_last l).table d ≡ base d
  unfolding close_pipe
  close_errors l first (error0, (error1, _)) left d =
      let table = (close_end l.first_error_pipe_read l.table).2 in
      close_end-Holds l.error_pipe.1 [] (close_end l.error_pipe.0 table).2 zero_open error1
        (close_end-Holds l.error_pipe.0 [] table zero_open error0
          (close_end-drops l.first_error_pipe_read [] l.table zero_open first left))
        d tt

  finish-IsStarted :
      (next : ℕ) (p : Process) (processes : List Process) (l : Launch)
      → Looped k base next p processes l
      → Gives (finish k l) (λ (well, l'). well ≡ true → IsStarted k base next (p ∷ processes) l')
  unfolding finish
  finish-IsStarted next p processes l (g, ending, is_end, ends, pid, group, forked, all) =
      let rest = pipeline base (next + 2 + 2) (some next) processes in
      let after = wire none (writes (is_last processes) next) base in
      let heard = first_heard_lem k l.children ending rest ends in
      rw heard (
        Gives-bind (listen-executes k 0 ending after p.arguments (close_first l) g.size is_end)
          (λ (well, l') heard'. (
            _,
            refl,
            λ h.
                let (runs, same) = heard' h in
                rw h (
                  subst (λ m. IsStarted k base next (p ∷ processes) (close_last m)) (sym same)
                    (
                      close_errors (close_first l) g.clear.1.0 g.clear_error (close_controls l g),
                      ends
                          ∙ ap (λ e. e ∷ rest) runs
                          ∙ sym (pipeline_first base next none p processes),
                      pid,
                      group,
                      forked,
                      all,
                    )),
          )))

-- The shell behind the control pipe.
start_launch-Going :
    (k : Kernel) (base : Table) (next r w : ℕ) (job : Job)
    → IsKernel k
    → IsStandard base
    → k.pipe next base ≡ some (r, w)
    → Going base false (start_launch (pos r, pos w) (with_ends r w next true base) (next + 2) job)
start_launch-Going k base next r w job law standard given =
    let new =
      with_ends-NewPipe base standard k [] next r w base law given tt (λ d outside. refl)
        (λ d. refl) in
    let nothing : Clear base no_fd = λ d h. cc in
    let before_first : Clear base (negsuc 1) = λ d h. cc in
    let clear_r : Clear base (pos r) = λ d h. ap base (sym (pos-inj r d h)) ∙ new.clear_r in
    let clear_w : Clear base (pos w) = λ d h. ap base (sym (pos-inj w d h)) ∙ new.clear_w in
    record {
      size = refl;
      holds = λ d (op, (of, (o0, (o1, _)))). new.holds d (o0, (o1, tt));
      passes = new.passes;
      clear = (before_first, (nothing, (clear_r, (clear_w, tt))));
      clear_pipe = (nothing, (nothing, tt));
      clear_error = (nothing, (nothing, tt));
    }

start_job_internal-IsStarted :
    (k : Kernel) (job : Job) (base : Table) (next : ℕ) (p : Process) (processes : List Process)
    → IsKernel k
    → IsStandard base
    → job.pipeline ≡ p ∷ processes
    → All IsPlain (p ∷ processes)
    → Gives
        (start_job_internal k job base next)
        (λ (well, l'). well ≡ true → IsStarted k base (next + 2) (p ∷ processes) l')
unfolding start_job_internal with_control
start_job_internal-IsStarted k job base next p processes law standard pipeline_is simple =
    elim (Bool-cases (create_pipe k true next (no_fd, no_fd) base).0) [
      | inr refused ↦ rw refused (_, refl, λ h. cc)
      | inl made ↦
          let (r, w, given, eq) = create_pipe_made k next (no_fd, no_fd) base made in
          let l = start_launch (pos r, pos w) (with_ends r w next true base) (next + 2) job in
          rw (eq, pipeline_is)
            (Gives-bind
              (start_processes-Looped k law base standard job.fg p processes l simple
                (start_launch-Going k base next r w job law standard given) (inl refl) refl refl)
              (λ (well, l') looped. elim (Bool-cases well) [
                | inr gave_up ↦ rw gave_up (_, refl, λ h. cc)
                | inl going_on ↦ rw going_on (
                    Gives-bind
                      (finish-IsStarted k base standard.0 (next + 2) p processes l'
                        (looped going_on))
                      (λ (well', l'') started. (_, refl, λ h. rw h (started h))))
              ]))
    ]

-- What `start_job_internal` promises, with the results 0 and -1.
abbrev pub IsOutcome : Kernel → Table → ℕ → List Process → Bool × Launch → Type 0
IsOutcome k base next processes (true, l) = IsStarted k base next processes l
IsOutcome k base next processes (false, l) = IsGivenUp l

both_results :
    (k : Kernel) (base : Table) (next : ℕ) (processes : List Process) (a : Bool × Launch)
    → (a.0 ≡ true → IsStarted k base next processes a.1)
    → (a.0 ≡ false → IsGivenUp a.1)
    → IsOutcome k base next processes a
both_results k base next processes (true, l) started given_up = started refl
both_results k base next processes (false, l) started given_up = given_up refl

-- A job of one or more commands without redirections, each with a name of at most 127 bytes, is
-- started or not, in any case without a fault, whatever the kernel answers, if its new descriptors
-- are free, its pids positive, and the standard input and output open. With the result 0 every child
-- is its program, which reads the pipe that the one before it writes, and finds nothing else open
-- than any program that the shell starts; all are in the group of the first child, and the shell's
-- descriptors are those from before. With the result -1 no child was started, or all the children are
-- in a group that got SIGTERM and SIGCONT.
pub start_job_internal-IsOutcome :
    (k : Kernel) (job : Job) (base : Table) (next : ℕ) (p : Process) (processes : List Process)
    → IsKernel k
    → IsForking k
    → IsStandard base
    → job.pipeline ≡ p ∷ processes
    → All IsPlain (p ∷ processes)
    → Gives (start_job_internal k job base next) (IsOutcome k base (next + 2) (p ∷ processes))
start_job_internal-IsOutcome k job base next p processes law forking standard pipeline_is simple =
    let (a, run, (started, given_up)) =
      Gives-Always
        (start_job_internal-IsStarted k job base next p processes law standard pipeline_is simple)
        (start_job_internal-IsGivenUp k job base next p processes forking pipeline_is) in
    (a, run, both_results k base (next + 2) (p ∷ processes) a started given_up)
